-- ===== src/Scenarios/Restarts.antt =====
-- A local job whose pod has failed.
use kubeflow_controller.Common.{
  true, Option, none, some, List, [], ◌∷◌, ◌++◌, ◌≡◌, ◌⊎◌, refl, ◌||◌, str_eq, if◌then◌else◌,
}
use kubeflow_controller.Common.Int.{pos}
use kubeflow_controller.Common.Text.{decimal}
use kubeflow_controller.Common.Outcome.{ok, fail, Err}
use kubeflow_controller.Api.{Pod}
use kubeflow_controller.Checker.{is_local_job}
use kubeflow_controller.Platform.{Platform, Sync}
use kubeflow_controller.Platform.Cluster.{create_pod, update_job}
use kubeflow_controller.Controller.Helper.{get_pods_for_tf_job, claim_listed_pods}
use kubeflow_controller.Controller.Manage.Started.{started, template_of}
use kubeflow_controller.Controller.Util.{new_controller_ref, pod_succeeded, pod_failed}
use kubeflow_controller.Controller.Sync.{sync_job}
use kubeflow_controller.Controller.Sync.Restarted.{HasDeadPod, replaced, sync_job-restarts}
use kubeflow_controller.Scenarios.Fixtures.{
  small_platform, small_machinery, scripted_cluster, counters-laws,
}
use kubeflow_controller.Scenarios.Jobs.{owner, local_job, local_job-HasTemplate, pod_named}

abbrev failed : Pod
failed = pod_named "mnist-0" "Failed" (owner ∷ [])

abbrev active_only : List Pod → List Pod
active_only [] = []
active_only (pod ∷ pods) =
    if str_eq pod_succeeded pod.phase || str_eq pod_failed pod.phase
    then active_only pods
    else pod ∷ active_only pods

abbrev failing : Platform
failing = record small_platform {
  machinery = record small_machinery { filter_active_pods = active_only };
  cluster = record scripted_cluster { list_pods = λ namespace w. ok (failed ∷ []) };
}

abbrev later : Sync failing
later = record { session = record { world = []; calls = [] }; gen = 7; store = λ key. none }

dead : HasDeadPod failing local_job later.session failed
unfolding get_pods_for_tf_job claim_listed_pods
dead = record {
  after = later.session;
  listed = refl;
  inactive = refl;
  filter_none = refl;
  unsuccessful = refl;
}

sync_job-restarts_example :
    let asked =
      create_pod "default"
        (template_of failing local_job local_job-HasTemplate "7")
        (new_controller_ref local_job) in
    let composed = started failing local_job local_job-HasTemplate "7" in
    let update = update_job "default" (replaced failed composed) in
    let (r, (job, s)) = sync_job failing true (local_job, later) in
    (job.spec.runtime_id ≡ "7")
    × (((◌≡◌ {A = Option Err} none none)
          × (job ≡ replaced failed composed)
          × (s.session.calls ≡ [] ++ [] ++ asked ∷ (update ∷ []))
          × (s.store "mnist" ≡ some (pos 1)))
        ⊎ ((e : Err) × (none ≡ some e)
            × (r ≡ fail e)
            × (job ≡ composed)
            × (s.session.calls ≡ [] ++ [] ++ asked ∷ [])
            × (s.store "mnist" ≡ some (pos 0))))
unfolding is_local_job decimal dead
sync_job-restarts_example =
    sync_job-restarts failing local_job later failed local_job-HasTemplate dead counters-laws refl
      refl refl
