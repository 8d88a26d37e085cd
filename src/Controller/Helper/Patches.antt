-- ===== src/Controller/Helper/Patches.antt =====
-- What GetPodsForTFJob asks of the API server: the patches of the pods that it adopts and releases.
use kubeflow_controller.Common.{String, Bool, List, [], ◌++◌, map, ◌≡◌, refl, sym, inl, inr}
use mathlib.Core.List.{append-nil}
use kubeflow_controller.Common.Map.{Map}
use kubeflow_controller.Common.Outcome.{Outcome, ok, fail, panic, Outcome-cases}
use kubeflow_controller.Api.{Pod, TfJob}
use kubeflow_controller.Platform.{Platform}
use kubeflow_controller.Platform.Cluster.{Session, Call, send_patch}
use kubeflow_controller.Controller.Labels.{match_labels}
use kubeflow_controller.Controller.Helper.{can_adopt_func, claim_listed_pods, get_pods_for_tf_job}

module _ (p : Platform) where
  open p use {machinery, cluster}

  -- The patches with which the pods are claimed in a GetPodsForTFJob.
  abbrev pub claiming_patches :
      TfJob → Outcome (Map String → Bool) → Outcome (List Pod) → cluster.World → List Call
  claiming_patches job (ok selector) (ok pods) w =
      map send_patch (cluster.claim_pods job.metadata selector (can_adopt_func p job) pods w).1.0
  claiming_patches job (ok selector) (fail e) w = []
  claiming_patches job (ok selector) (panic f) w = []
  claiming_patches job (fail e) pods w = []
  claiming_patches job (panic f) pods w = []

  abbrev pub pod_patches : TfJob → String → cluster.World → List Call
  pod_patches job typ w =
      claiming_patches job (machinery.label_selector (match_labels job typ))
        (cluster.list_pods job.metadata.namespace w) w

  claimed-calls :
      (job : TfJob) (selector : Map String → Bool) (listed : Outcome (List Pod))
      (s : Session cluster)
      → (claim_listed_pods p job selector listed s).1.calls
        ≡ s.calls ++ claiming_patches job (ok selector) listed s.world
  unfolding claim_listed_pods
  claimed-calls job selector (ok pods) s = refl
  claimed-calls job selector (fail e) s = sym (append-nil s.calls)
  claimed-calls job selector (panic f) s = sym (append-nil s.calls)

  pub get_pods-calls :
      (job : TfJob) (typ : String) (s : Session cluster)
      → (get_pods_for_tf_job p job typ s).1.calls ≡ s.calls ++ pod_patches job typ s.world
  unfolding get_pods_for_tf_job
  get_pods-calls job typ s =
      elim (Outcome-cases (machinery.label_selector (match_labels job typ))) [
        | inl (selector, e) ↦
            rw (e, get_pods_for_tf_job, claiming_patches)
              (claimed-calls job selector (cluster.list_pods job.metadata.namespace s.world) s)
        | inr (inl (f, e)) ↦
            rw (e, get_pods_for_tf_job, claiming_patches) (sym (append-nil s.calls))
        | inr (inr (f, e)) ↦
            rw (e, get_pods_for_tf_job, claiming_patches) (sym (append-nil s.calls))
      ]
