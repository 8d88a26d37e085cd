-- ===== src/Controller/Helper/Pods.antt =====
-- GetPodsForTFJob of a job with one pod.
use kubeflow_controller.Common.{String, Bool, List, [], ◌∷◌, ◌++◌, ◌≡◌, ap, ◌∙◌, map, All}
use mathlib.Core.Path.{ap₂}
use mathlib.Core.List.{append-nil}
use kubeflow_controller.Common.Map.{Map}
use kubeflow_controller.Common.Outcome.{ok}
use kubeflow_controller.Api.{Pod, TfJob}
use kubeflow_controller.Platform.{Platform}
use kubeflow_controller.Platform.Cluster.{Session, send_patch}
use kubeflow_controller.Platform.Pods.{IsForeign, IsOwn, PodLaws, controlled-one, quiet_around}
use kubeflow_controller.Controller.Labels.{match_labels}
use kubeflow_controller.Controller.Helper.{can_adopt_func, claim_listed_pods, get_pods_for_tf_job}

module _ (p : Platform) (laws : PodLaws p.machinery p.cluster) (job : TfJob) (typ : String) where
  open p use {machinery, cluster}

  -- The pod is found among those of its namespace, and nothing is asked of the API server.
  pub get_pods-one :
      {selector : Map String → Bool} (before : List Pod) (pod : Pod) (after : List Pod)
      (s : Session cluster)
      → machinery.label_selector (match_labels job typ) ≡ ok selector
      → cluster.list_pods job.metadata.namespace s.world ≡ ok (before ++ pod ∷ after)
      → All (IsForeign machinery job.metadata selector) before
      → IsOwn machinery job.metadata selector pod
      → All (IsForeign machinery job.metadata selector) after
      → get_pods_for_tf_job p job typ s ≡ (ok (pod ∷ []), s)
  unfolding get_pods_for_tf_job claim_listed_pods
  get_pods-one {selector} before pod after s made listed h own h' =
      let meta = job.metadata in
      rw (made, get_pods_for_tf_job)
        (rw (listed, claim_listed_pods)
          (ap (λ x. (x.0, record { world = x.1.1; calls = s.calls ++ map send_patch x.1.0 }))
              (laws.claim_pods-quiet meta selector (can_adopt_func p job) (before ++ pod ∷ after)
                s.world (quiet_around machinery meta selector before pod after h own h'))
            ∙ ap₂ (λ pods calls. (ok pods, record s { calls = calls }))
                (controlled-one machinery meta selector before pod after h own h')
                (append-nil s.calls)))
