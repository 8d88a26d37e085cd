-- ===== src/Updater/Distributed.antt =====
-- pkg/controller/updater/distributed.go
use kubeflow_controller.Common.{String, Bool, true, false, List, ◌||◌, not, str_eq, if◌then◌else◌}
use kubeflow_controller.Common.Int.{ℤ, eqb_ℤ}
use kubeflow_controller.Common.Outcome.{ok, deref}
use kubeflow_controller.Common.Go.{Go, pure, lift, gets, reads, zoom, ◌>>=◌}
use kubeflow_controller.Api.{Pod, TfJob, set_phase}
use kubeflow_controller.Checker.{tf_replica_ps, tf_replica_worker}
use kubeflow_controller.Tensorflow.Distributed.Spec.{spec_of}
use kubeflow_controller.Updater.Statuses.{update_tf_replica_statuses}

-- api.TFJobSucceeded and api.TFJobRunning
abbrev pub tf_job_succeeded : String
tf_job_succeeded = "Succeeded"

abbrev pub tf_job_running : String
tf_job_running = "Running"

pub record DistributedUpdater : Type 0 where
  pub tf_job : TfJob
  pub succeeded_worker_pods : ℤ
  pub worker_pods : List Pod
  pub ps_pods : List Pod

unfoldable pub new_distributed : TfJob → ℤ → List Pod → List Pod → DistributedUpdater
new_distributed job succeeded worker_pods ps_pods = record {
  tf_job = job;
  succeeded_worker_pods = succeeded;
  worker_pods = worker_pods;
  ps_pods = ps_pods;
}

-- The phase to write, if it is to be written: `finished` is the test of both updaters.
unfoldable pub update_phase : Bool → Go TfJob Bool
update_phase finished job =
    if finished
    then (ok true, set_phase tf_job_succeeded job)
    else if not (str_eq job.status.phase tf_job_running)
    then (ok true, set_phase tf_job_running job)
    else (ok false, job)

unfoldable pub should_update : Go DistributedUpdater Bool
unfolding spec_of update_phase update_tf_replica_statuses
should_update = do
  du ← gets (λ du. du)
  spec ← reads (λ du. spec_of tf_replica_worker du.tf_job)
  expected ← lift (deref spec.replicas)
  zoom (λ du. du.tf_job) (λ job du. record du { tf_job = job })
      do
        phase ← update_phase (eqb_ℤ du.succeeded_worker_pods expected)
        workers ← update_tf_replica_statuses du.worker_pods tf_replica_worker
        ps ← update_tf_replica_statuses du.ps_pods tf_replica_ps
        pure (if ps || workers then true else phase)
