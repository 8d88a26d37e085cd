-- ===== src/Platform.antt =====
-- What the program uses of Kubernetes and does not implement, as interfaces: the functions of
-- apimachinery, the API server, the expectations of k8s.io/kubernetes/pkg/controller, the cache of
-- the TFJob lister and the work queue of client-go.
pub mod Machinery
pub mod Patches
pub mod Cluster
pub mod Requests
pub mod Expectations
pub mod Queue
pub mod Bundle
pub mod Pods
pub use Bundle.{Platform, Sync}
