-- ===== src/Checker.antt =====
-- pkg/checker/checker.go
use kubeflow_controller.Common.{String, Bool, str_eq}
use kubeflow_controller.Common.Int.{pos}
use kubeflow_controller.Common.Outcome.{Outcome, ok, deref, index, ◌>>=◌}
use kubeflow_controller.Api.{TfJob}

-- api.TFReplicaPS, api.TFReplicaWorker and api.TFReplicaLocal
abbrev pub tf_replica_ps : String
tf_replica_ps = "PS"

abbrev pub tf_replica_worker : String
tf_replica_worker = "Worker"

abbrev pub tf_replica_local : String
tf_replica_local = "Local"

unfoldable pub is_local_job : TfJob → Outcome Bool
is_local_job job = do
  spec ← index job.spec.specs (pos 0)
  typ ← deref spec.tf_replica_type
  ok (str_eq typ tf_replica_local)
