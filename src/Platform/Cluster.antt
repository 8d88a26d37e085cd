-- ===== src/Platform/Cluster.antt =====
-- The API server and the informers' caches, as the program's calls see them. A session keeps the
-- calls that were made, in order: theorems speak of these.
use kubeflow_controller.Common.{◌≡◌, All, String, Bool, Option, none, some, List, [], ◌∷◌, ◌++◌}
use kubeflow_controller.Common.Outcome.{Outcome, ok, fail, Err}
use kubeflow_controller.Common.Go.{Go}
use kubeflow_controller.Common.Map.{Map}
use kubeflow_controller.Platform.Patches.{IsOwnership}
use kubeflow_controller.Api.{
  ObjectMeta, OwnerReference, PodTemplateSpec, Pod, Service, ReplicaSet, TfJob,
}

-- A request that changes the cluster. `create_pod` is
-- PodControlInterface.CreatePodsWithControllerRef, `patch_pod` its PatchPod; `eventf` is EventRecorder.Eventf, with the
-- event's type and reason.
pub data Call : Type 0 where
  create_pod : String → PodTemplateSpec → OwnerReference → Call
  create_service : String → Service → Call
  create_replica_set : String → ReplicaSet → Call
  patch_pod : String → String → String → Call
  patch_service : String → String → String → Call
  patch_replica_set : String → String → String → Call
  update_job : String → TfJob → Call
  eventf : String → String → Call

-- A patch of a pod: its namespace, its name and the data.
pub record PodPatch : Type 0 where
  pub namespace : String
  pub name : String
  pub data_sent : String

abbrev pub send_patch : PodPatch → Call
send_patch patch = patch_pod patch.namespace patch.name patch.data_sent

-- `respond` gives the call's error, if any. The lists are those of the informers' caches; `claim_pods`
-- is PodControllerRefManager.ClaimPods for a job's metadata, a selector and a canAdopt function, with the
-- patches that it has the pod control send, in their order;
-- `fresh_job` is a live read of a job, by namespace and name.
pub record Cluster : Type 1 where
  pub World : Type 0
  pub respond : Call → World → Option Err × World
  pub list_pods : String → World → Outcome (List Pod)
  pub list_services : String → World → Outcome (List Service)
  pub fresh_job : String → String → World → Outcome TfJob
  pub claim_pods :
      ObjectMeta
      → (Map String → Bool)
      → (World → Outcome (Unit {0}))
      → List Pod
      → World
      → Outcome (List Pod) × (List PodPatch × World)

module _ (cluster : Cluster) where
  pub record Session : Type 0 where
    pub world : cluster.World
    pub calls : List Call

abbrev pub result : Option Err → Outcome (Unit {0})
result none = ok tt
result (some e) = fail e

module _ (cluster : Cluster) where
  unfoldable pub invoke : Call → Go (Session cluster) (Unit {0})
  invoke c s =
      let (r, w) = cluster.respond c s.world in
      (result r, record { world = w; calls = s.calls ++ c ∷ [] })

-- Documented behaviour of Services(namespace).List and Pods(namespace).List: what they give is in the
-- namespace; and of ClaimPods: it patches only pods that it is
-- given, each to adopt it for the controller or to release it from the controller.
pub record ClusterLaws (cluster : Cluster) : Type 0 where
  pub list_services-near :
      (namespace : String) (w : cluster.World) {services : List Service}
      → cluster.list_services namespace w ≡ ok services
      → All (λ (service : Service). service.metadata.namespace ≡ namespace) services
  pub list_pods-near :
      (namespace : String) (w : cluster.World) {pods : List Pod}
      → cluster.list_pods namespace w ≡ ok pods
      → All (λ (pod : Pod). pod.metadata.namespace ≡ namespace) pods
  pub claim_pods-near :
      (namespace : String) (meta : ObjectMeta) (selector : Map String → Bool)
      (may : cluster.World → Outcome (Unit {0})) (pods : List Pod) (w : cluster.World)
      → All (λ (pod : Pod). pod.metadata.namespace ≡ namespace) pods
      → All
          (λ (patch : PodPatch). (patch.namespace ≡ namespace) × IsOwnership meta patch.data_sent)
          (cluster.claim_pods meta selector may pods w).1.0
