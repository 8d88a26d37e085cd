-- ===== src/Scenarios/Settling.antt =====
-- A local job whose pod runs.
use kubeflow_controller.Common.{some, true, false, none, [], ◌∷◌, ◌++◌, ◌≡◌, ◌⊎◌, refl, inl, Option}
use kubeflow_controller.Common.Int.{pos}
use kubeflow_controller.Common.Outcome.{ok, fail, Err}
use kubeflow_controller.Api.{Pod, set_phase}
use kubeflow_controller.Checker.{is_local_job}
use kubeflow_controller.Platform.{Platform, Sync}
use kubeflow_controller.Platform.Cluster.{create_pod, update_job}
use kubeflow_controller.Controller.Helper.{get_pods_for_tf_job, claim_listed_pods}
use kubeflow_controller.Controller.Sync.{sync_job}
use kubeflow_controller.Controller.Sync.Started.{HasNoPod, sync_job-starts}
use kubeflow_controller.Controller.Manage.Started.{started, template_of}
use kubeflow_controller.Controller.Util.{new_controller_ref}
use kubeflow_controller.Common.Text.{decimal}
use kubeflow_controller.Controller.Sync.Settled.{settled, sync_job-settles}
use kubeflow_controller.Scenarios.Fixtures.{
  small_platform, scripted_cluster, counters-laws, fresh_sync, fresh_session,
}
use kubeflow_controller.Scenarios.Jobs.{owner, local_job, local_job-HasTemplate, pod_named}

abbrev running : Pod
running = pod_named "mnist-0" "Running" (owner ∷ [])

-- The cache lists the pod.
abbrev with_pod : Platform
with_pod = record small_platform {
  cluster = record scripted_cluster { list_pods = λ namespace w. ok (running ∷ []) };
}

abbrev first : Sync with_pod
first = record { session = record { world = []; calls = [] }; gen = 0; store = λ key. none }

sync_job-settles_example :
    let (_, (job', s')) = sync_job with_pod true (local_job, first) in
    let (_, (job'', s'')) = sync_job with_pod false (job', s') in
    let update = update_job "default" (settled running local_job) in
    (job' ≡ settled running local_job)
    × (job'' ≡ settled running local_job)
    × (s''.session.calls ≡ [] ++ [] ++ (update ∷ []) ++ [] ++ (update ∷ []))
    × (s''.store ≡ first.store)
    × (s''.gen ≡ 0)
unfolding is_local_job get_pods_for_tf_job
sync_job-settles_example =
    sync_job-settles with_pod true false local_job first running local_job-HasTemplate refl refl
      (inl refl) refl refl

no_pod : HasNoPod small_platform local_job (fresh_sync []).session
unfolding get_pods_for_tf_job claim_listed_pods
no_pod = record { after = fresh_session []; listed = refl; filter_none = refl }

-- The first sync, on an API server that takes the pod.
sync_job-starts_example :
    let pod =
      create_pod "default"
        (template_of small_platform local_job local_job-HasTemplate "0")
        (new_controller_ref local_job) in
    let composed = started small_platform local_job local_job-HasTemplate "0" in
    let (r, (job, s)) = sync_job small_platform true (local_job, fresh_sync []) in
    ((◌≡◌ {A = Option Err} none none)
      × (job ≡ set_phase "Running" composed)
      × (s.session.calls
          ≡ [] ++ [] ++ pod ∷ (update_job "default" (set_phase "Running" composed) ∷ []))
      × (s.store "mnist" ≡ some (pos 1)))
    ⊎ ((e : Err) × (none ≡ some e)
        × (r ≡ fail e)
        × (job ≡ composed)
        × (s.session.calls ≡ [] ++ [] ++ pod ∷ [])
        × (s.store "mnist" ≡ some (pos 0)))
unfolding is_local_job decimal no_pod
sync_job-starts_example =
    sync_job-starts small_platform local_job (fresh_sync []) local_job-HasTemplate no_pod
      counters-laws refl refl refl
