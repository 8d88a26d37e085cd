-- ===== src/Controller/Helper.antt =====
-- pkg/controller/helper.go. NewHelper only stores its arguments, which are the platform here.
pub mod Services
pub mod Contended
pub mod Pods
pub mod Patches
use kubeflow_controller.Common.{
  String, Bool, Option, none, some, List, [], ◌++◌, map, str_eq, not, if◌then◌else◌,
}
use kubeflow_controller.Common.Map.{Map}
use kubeflow_controller.Common.Outcome.{
  Outcome, ok, fail, panic, Err, errorf, original_gone, bad_selector,
}
use kubeflow_controller.Common.Go.{Go}
use kubeflow_controller.Api.{ObjectMeta, PodTemplateSpec, Pod, Service, TfJob}
use kubeflow_controller.Platform.{Platform}
use kubeflow_controller.Platform.Cluster.{Session, invoke, send_patch}
use kubeflow_controller.Platform.Cluster
use kubeflow_controller.Control.Create.{create_services_with_controller_ref}
use kubeflow_controller.Ref.Base.{RefManager}
use kubeflow_controller.Ref.Service.{new_service_controller_ref_manager, claim_services}
use kubeflow_controller.Controller.Labels.{match_labels}
use kubeflow_controller.Controller.Util.{group_version, group_kind, new_controller_ref}

-- The getter of the live job: a job with another UID is another job.
unfoldable pub same_job : TfJob → Outcome TfJob → Outcome ObjectMeta
same_job job (ok fresh) =
    if not (str_eq fresh.metadata.uid job.metadata.uid)
    then fail (errorf original_gone)
    else ok fresh.metadata
same_job job (fail e) = fail e
same_job job (panic p) = panic p

module _ (p : Platform) where
  open p use {machinery, cluster}

  unfoldable pub create_service : TfJob → Service → Go (Session cluster) (Unit {0})
  unfolding create_services_with_controller_ref new_controller_ref
  create_service job service =
      create_services_with_controller_ref machinery cluster job.metadata.namespace service
        (some job.metadata) (some (new_controller_ref job))

  unfoldable pub create_pod : TfJob → PodTemplateSpec → Go (Session cluster) (Unit {0})
  unfolding invoke new_controller_ref
  create_pod job template =
      invoke cluster (Cluster.create_pod job.metadata.namespace template (new_controller_ref job))

  unfoldable pub can_adopt_func : TfJob → cluster.World → Outcome (Unit {0})
  unfolding same_job
  can_adopt_func job world =
      machinery.recheck_deletion_timestamp
        (same_job job (cluster.fresh_job job.metadata.namespace job.metadata.name world))

  unfoldable pub claim_listed_pods :
      TfJob → (Map String → Bool) → Outcome (List Pod) → Go (Session cluster) (List Pod)
  unfolding can_adopt_func
  claim_listed_pods job selector (ok pods) s =
      let (r, (patches, world)) =
        cluster.claim_pods job.metadata selector (can_adopt_func job) pods s.world in
      (r, record { world = world; calls = s.calls ++ map send_patch patches })
  claim_listed_pods job selector (fail e) s = (fail e, s)
  claim_listed_pods job selector (panic f) s = (panic f, s)

  unfoldable pub get_pods_for_tf_job : TfJob → String → Go (Session cluster) (List Pod)
  unfolding match_labels claim_listed_pods
  get_pods_for_tf_job job typ s = elim (machinery.label_selector (match_labels job typ)) [
    | ok selector ↦
        claim_listed_pods job selector (cluster.list_pods job.metadata.namespace s.world) s
    | fail e ↦ (fail (errorf bad_selector), s)
    | panic f ↦ (panic f, s)
  ]

  -- `return cm.ClaimServices(services)`: the caller looks at the error first.
  abbrev pub claimed : Outcome (List Service × Option Err) → Outcome (List Service)
  claimed (ok (services, none)) = ok services
  claimed (ok (services, some e)) = fail e
  claimed (fail e) = fail e
  claimed (panic f) = panic f

  unfoldable pub claim_listed_services :
      TfJob → (Map String → Bool) → Outcome (List Service) → Go (Session cluster) (List Service)
  unfolding can_adopt_func claim_services new_service_controller_ref_manager
  claim_listed_services job selector (ok services) s =
      let rm : RefManager cluster =
        new_service_controller_ref_manager job.metadata selector group_version group_kind
          (can_adopt_func job) in
      let (r, s') = claim_services machinery cluster services [] (rm, s) in (claimed r, s'.1)
  claim_listed_services job selector (fail e) s = (fail e, s)
  claim_listed_services job selector (panic f) s = (panic f, s)

  unfoldable pub get_services_for_tf_job : TfJob → String → Go (Session cluster) (List Service)
  unfolding match_labels claim_listed_services
  get_services_for_tf_job job typ s = elim (machinery.label_selector (match_labels job typ)) [
    | ok selector ↦
        claim_listed_services job selector (cluster.list_services job.metadata.namespace s.world) s
    | fail e ↦ (fail (errorf bad_selector), s)
    | panic f ↦ (panic f, s)
  ]
