-- ===== src/Api.antt =====
-- The Kubernetes and TFJob objects that the controller reads and writes, with the fields that its
-- code uses. A pointer that may be nil is an `Option`; a Go map field may be nil too.
pub mod Meta
pub mod Core
pub mod Job
pub use Meta.{OwnerReference, ObjectMeta}
pub use Core.{Container, PodTemplateSpec, Pod, ServicePort, Service, ReplicaSet}
pub use Job.{
  TfReplicaSpec, TfJobSpec, TfReplicaStatus, TfJobStatus, TfJob, set_runtime_id, set_template,
  set_phase, set_statuses,
}
