-- ===== src/Scenarios/Statuses.antt =====
-- The statuses that the updater works out for the jobs.
use kubeflow_controller.Common.{Bool, true, some, none, [], ◌∷◌, ◌≡◌, refl}
use kubeflow_controller.Common.Int.{pos}
use kubeflow_controller.Common.Outcome.{ok}
use kubeflow_controller.Api.{set_statuses}
use kubeflow_controller.Checker.{tf_replica_ps, tf_replica_worker}
use kubeflow_controller.Controller.Util.{filter_pods}
use kubeflow_controller.Tensorflow.Distributed.Compose.{worker_spec_of}
use kubeflow_controller.Updater.Statuses.{replica_status, update_tf_replica_statuses}
use kubeflow_controller.Updater.Table.{IsTable, empty, update_tf_replica_statuses-replaces}
use kubeflow_controller.Updater.Distributed.{DistributedUpdater, should_update}
use kubeflow_controller.Updater.Phases.{
  counted, updated_job, should_update_lem, should_update-counts,
}
use kubeflow_controller.Updater.Stable.{should_update_idem}
use kubeflow_controller.Updater.Run.{update_distributed}
use kubeflow_controller.Updater.Life.{fresh, again, Updated-update}
use kubeflow_controller.Scenarios.Jobs.{two_workers, two_workers-IsDistributed, pod_named}

-- Both workers have succeeded, and the parameter server runs.
abbrev trained : DistributedUpdater
trained = record {
  tf_job = two_workers;
  succeeded_worker_pods = pos 2;
  worker_pods = pod_named "w0" "Succeeded" [] ∷ pod_named "w1" "Succeeded" [] ∷ [];
  ps_pods = pod_named "p0" "Running" [] ∷ [];
}

should_update_lem_example :
    should_update trained ≡ (ok true, record trained { tf_job = updated_job trained (pos 2) })
should_update_lem_example =
    should_update_lem trained (worker_spec_of true two_workers two_workers-IsDistributed) refl empty

should_update-counts_example :
    let statuses = (should_update trained).1.tf_job.status.tf_replica_statuses in
    (counted tf_replica_worker "Succeeded" statuses ≡ some 2)
    × (counted tf_replica_ps "Succeeded" statuses ≡ none)
    × IsTable statuses
unfolding filter_pods
should_update-counts_example =
    should_update-counts trained "Succeeded"
      (worker_spec_of true two_workers two_workers-IsDistributed) refl empty refl refl

should_update_idem_example : let du' = (should_update trained).1 in (should_update du').1 ≡ du'
should_update_idem_example =
    should_update_idem trained (worker_spec_of true two_workers two_workers-IsDistributed) refl
      empty

update_tf_replica_statuses-replaces_example :
    let pods = pod_named "w0" "Running" [] ∷ [] in
    update_tf_replica_statuses pods tf_replica_worker two_workers
    ≡ (ok true, set_statuses (some (replica_status tf_replica_worker pods) ∷ []) two_workers)
update_tf_replica_statuses-replaces_example =
    update_tf_replica_statuses-replaces (pod_named "w0" "Running" [] ∷ []) tf_replica_worker
      two_workers empty

-- Both workers had succeeded; then one of them is not found any more.
Updated-update_example :
    let once = (update_distributed (pos 2) trained.worker_pods trained.ps_pods two_workers).1 in
    let (r, next) =
      update_distributed (pos 1) (pod_named "w0" "Succeeded" [] ∷ []) trained.ps_pods once in
    ((b : Bool) × (r ≡ ok b))
    × (next.spec ≡ two_workers.spec)
    × (next.metadata ≡ two_workers.metadata)
    × IsTable next.status.tf_replica_statuses
    × (next.status.phase ≡ "Running")
Updated-update_example =
    Updated-update two_workers (worker_spec_of true two_workers two_workers-IsDistributed) refl
      (pos 1) (pod_named "w0" "Succeeded" [] ∷ []) trained.ps_pods empty
      (again (pos 2) trained.worker_pods trained.ps_pods fresh)
