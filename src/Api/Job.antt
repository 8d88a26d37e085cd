-- ===== src/Api/Job.antt =====
-- The TFJob resource of the clientset, and the assignments to its fields that the program makes.
use kubeflow_controller.Common.{ℕ, String, Option, some, List, set}
use kubeflow_controller.Common.Int.{ℤ}
use kubeflow_controller.Common.Map.{Map}
use kubeflow_controller.Api.Meta.{ObjectMeta}
use kubeflow_controller.Api.Core.{PodTemplateSpec}

-- `replicas` is an int32
pub record TfReplicaSpec : Type 0 where
  pub replicas : Option ℤ
  pub tf_replica_type : Option String
  pub template : Option PodTemplateSpec

pub record TfJobSpec : Type 0 where
  pub runtime_id : String
  pub specs : List TfReplicaSpec

pub record TfReplicaStatus : Type 0 where
  pub typ : Option String
  pub state : String
  pub tf_replicas_states : Map ℕ

-- the statuses are a list of pointers
pub record TfJobStatus : Type 0 where
  pub phase : String
  pub tf_replica_statuses : List (Option TfReplicaStatus)

pub record TfJob : Type 0 where
  pub metadata : ObjectMeta
  pub spec : TfJobSpec
  pub status : TfJobStatus

-- tfJob.Spec.RuntimeID = id
abbrev pub set_runtime_id : String → TfJob → TfJob
set_runtime_id id job = record job { spec = record job.spec { runtime_id = id } }

-- *tfJob.Spec.Specs[i].Template = template, for a replica spec `spec` that stands at `i`
abbrev pub set_template : ℕ → TfReplicaSpec → PodTemplateSpec → TfJob → TfJob
set_template i spec template job = record job {
  spec = record job.spec {
    specs = set job.spec.specs i (record spec { template = some template });
  };
}

-- tfJob.Status.Phase = phase
abbrev pub set_phase : String → TfJob → TfJob
set_phase phase job = record job { status = record job.status { phase = phase } }

-- tfJob.Status.TFReplicaStatuses = statuses
abbrev pub set_statuses : List (Option TfReplicaStatus) → TfJob → TfJob
set_statuses statuses job = record job {
  status = record job.status { tf_replica_statuses = statuses };
}
