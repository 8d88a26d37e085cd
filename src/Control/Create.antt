-- ===== src/Control/Create.antt =====
-- pkg/controller/control/service.go and replicaset.go. `object` is the metadata that meta.Accessor
-- gives of the object that events are recorded for, if it has any.
use kubeflow_controller.Common.{String, Option, none, some, if◌then◌else◌}
use kubeflow_controller.Common.Outcome.{
  Outcome, ok, fail, panic, errorf, no_service_labels, unable_to_create_services,
  no_replica_set_labels, unable_to_create_replica_sets,
}
use kubeflow_controller.Common.Go.{Go, pure, lift, ◌>>◌}
use kubeflow_controller.Api.{ObjectMeta, OwnerReference, Service, ReplicaSet}
use kubeflow_controller.Platform.Machinery.{Machinery}
use kubeflow_controller.Platform.Cluster.{
  Cluster, Session, invoke, create_service, create_replica_set, patch_service, patch_replica_set,
  eventf,
}
use kubeflow_controller.Control.Validate.{validate_controller_ref}

module _ (m : Machinery) (cluster : Cluster) where
  -- Recording an event cannot fail.
  unfoldable pub record_event : String → String → Go (Session cluster) (Unit {0})
  unfolding invoke
  record_event typ reason s = let (r, s') = invoke cluster (eventf typ reason) s in (ok tt, s')

  -- What follows the API call: an event, and the error that the caller sees. Of an event the type and
  -- the reason are kept, not the message.
  unfoldable pub after_create_service :
      Option ObjectMeta → Outcome (Unit {0}) → Go (Session cluster) (Unit {0})
  unfolding record_event
  after_create_service object (fail e) = do
    record_event "Warning" "FailedCreate"
    lift (fail (errorf unable_to_create_services))
  after_create_service none (ok _) = pure tt
  after_create_service (some meta) (ok _) = record_event "Normal" "SuccessfulCreate"
  after_create_service object (panic p) = lift (panic p)

  unfoldable pub create_services :
      String → Service → Option ObjectMeta → Option OwnerReference → Go (Session cluster) (Unit {0})
  unfolding invoke after_create_service
  create_services namespace service object controller_ref s =
      if m.selects_all service.metadata.labels
      then (fail (errorf no_service_labels), s)
      else (let (r, s') = invoke cluster (create_service namespace service) s in
          after_create_service object r s')

  unfoldable pub create_services_with_controller_ref :
      String → Service → Option ObjectMeta → Option OwnerReference → Go (Session cluster) (Unit {0})
  unfolding create_services validate_controller_ref
  create_services_with_controller_ref namespace service object controller_ref = do
    lift (validate_controller_ref controller_ref)
    create_services namespace service object controller_ref

  unfoldable pub create_services_plain :
      String → Service → Option ObjectMeta → Go (Session cluster) (Unit {0})
  unfolding create_services
  create_services_plain namespace service object = create_services namespace service object none

  unfoldable pub patch_the_service : String → String → String → Go (Session cluster) (Unit {0})
  unfolding invoke
  patch_the_service namespace name patch = invoke cluster (patch_service namespace name patch)

  -- The same for a replica set.
  unfoldable pub after_create_replica_set :
      Option ObjectMeta → Outcome (Unit {0}) → Go (Session cluster) (Unit {0})
  unfolding record_event
  after_create_replica_set object (fail e) = do
    record_event "Warning" "FailedCreate"
    lift (fail (errorf unable_to_create_replica_sets))
  after_create_replica_set none (ok _) = pure tt
  after_create_replica_set (some meta) (ok _) = record_event "Normal" "SuccessfulCreate"
  after_create_replica_set object (panic p) = lift (panic p)

  unfoldable pub create_replica_sets :
      String
      → ReplicaSet
      → Option ObjectMeta
      → Option OwnerReference
      → Go (Session cluster) (Unit {0})
  unfolding invoke after_create_replica_set
  create_replica_sets namespace replica_set object controller_ref s =
      if m.selects_all replica_set.metadata.labels
      then (fail (errorf no_replica_set_labels), s)
      else (let (r, s') = invoke cluster (create_replica_set namespace replica_set) s in
          after_create_replica_set object r s')

  unfoldable pub create_replica_sets_with_controller_ref :
      String
      → ReplicaSet
      → Option ObjectMeta
      → Option OwnerReference
      → Go (Session cluster) (Unit {0})
  unfolding create_replica_sets validate_controller_ref
  create_replica_sets_with_controller_ref namespace replica_set object controller_ref = do
    lift (validate_controller_ref controller_ref)
    create_replica_sets namespace replica_set object controller_ref

  unfoldable pub create_replica_sets_plain :
      String → ReplicaSet → Option ObjectMeta → Go (Session cluster) (Unit {0})
  unfolding create_replica_sets
  create_replica_sets_plain namespace replica_set object =
      create_replica_sets namespace replica_set object none

  unfoldable pub patch_the_replica_set : String → String → String → Go (Session cluster) (Unit {0})
  unfolding invoke
  patch_the_replica_set namespace name patch =
      invoke cluster (patch_replica_set namespace name patch)
