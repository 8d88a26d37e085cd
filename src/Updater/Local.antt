-- ===== src/Updater/Local.antt =====
-- pkg/controller/updater/local.go
use kubeflow_controller.Common.{Bool, true, Option, none, some, List, [], ◌∷◌}
use kubeflow_controller.Common.Int.{ℤ, eqb_ℤ}
use kubeflow_controller.Common.Map.{insert}
use kubeflow_controller.Common.Outcome.{Outcome, ok, fail, errorf, too_many_worker_pods}
use kubeflow_controller.Common.Go.{Go, gets, zoom, ◌>>=◌}
use kubeflow_controller.Api.{Pod, TfReplicaStatus, TfJob, set_statuses}
use kubeflow_controller.Checker.{tf_replica_local}
use kubeflow_controller.Tensorflow.Local.{expected_local_worker_number}
use kubeflow_controller.Updater.Distributed.{update_phase}

pub record LocalUpdater : Type 0 where
  pub tf_job : TfJob
  pub succeeded_worker_pods : ℤ
  pub worker_pod : Option Pod

unfoldable pub new_local : TfJob → ℤ → List Pod → Outcome LocalUpdater
new_local job succeeded [] =
    ok (record { tf_job = job; succeeded_worker_pods = succeeded; worker_pod = none })
new_local job succeeded (p ∷ []) =
    ok (record { tf_job = job; succeeded_worker_pods = succeeded; worker_pod = some p })
new_local job succeeded (p ∷ q ∷ ps) = fail (errorf too_many_worker_pods)

local_status : Pod → TfReplicaStatus
local_status pod = record {
  typ = some tf_replica_local;
  state = "";
  tf_replicas_states = insert pod.phase 1 [];
}

-- The status of the one pod replaces all that was there.
unfoldable pub update_pod_status : Option Pod → Bool → Go TfJob Bool
unfolding local_status
update_pod_status none updated job = (ok updated, job)
update_pod_status (some pod) updated job =
    (ok true, set_statuses (some (local_status pod) ∷ []) job)

unfoldable pub should_update : Go LocalUpdater Bool
unfolding update_phase update_pod_status
should_update = do
  lu ← gets (λ lu. lu)
  zoom (λ lu. lu.tf_job) (λ job lu. record lu { tf_job = job })
      do
        updated ← update_phase (eqb_ℤ lu.succeeded_worker_pods expected_local_worker_number)
        update_pod_status lu.worker_pod updated
