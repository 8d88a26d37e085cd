-- ===== src/Control/Requests.antt =====
-- What creating a service, or a replica set, asks of the API server on each path.
use kubeflow_controller.Common.{
  String, Option, none, some, [], ◌∷◌, ◌++◌, ◌≡◌, refl, Option-cases, Bool-cases, inl, inr,
  if◌then◌else◌,
}
use kubeflow_controller.Common.Outcome.{
  Outcome, ok, fail, Err, Message, errorf, no_service_labels, unable_to_create_services,
}
use kubeflow_controller.Api.{ObjectMeta, OwnerReference, Service, TfJob}
use kubeflow_controller.Platform.Machinery.{Machinery}
use kubeflow_controller.Platform.Cluster.{Cluster, Session, Call, create_service, eventf}
use kubeflow_controller.Control.Validate.{validate_controller_ref}
use kubeflow_controller.Control.Create.{create_services_with_controller_ref}
use kubeflow_controller.Controller.Util.{new_controller_ref}

-- The owner reference that the controller makes for a job passes the validation.
pub new_controller_ref-valid :
    (job : TfJob) → validate_controller_ref (some (new_controller_ref job)) ≡ ok tt
unfolding validate_controller_ref new_controller_ref
new_controller_ref-valid job = refl

abbrev created_event : Call
created_event = eventf "Normal" "SuccessfulCreate"

abbrev failed_event : Call
failed_event = eventf "Warning" "FailedCreate"

module _ (m : Machinery) (cluster : Cluster) where
  -- The session after two requests.
  abbrev asked_two : Call → Call → Session cluster → Session cluster
  asked_two c c' s = record {
    world = (cluster.respond c' (cluster.respond c s.world).1).1;
    calls = (s.calls ++ c ∷ []) ++ c' ∷ [];
  }

  -- How a request to create ends, by the API server's answer: an event says which, and the error of
  -- the API server becomes an error of the program's own.
  abbrev pub creation : Call → Session cluster → Option Err → Outcome (Unit {0}) × Session cluster
  creation c s none = (ok tt, asked_two c created_event s)
  creation c s (some e) = (fail (errorf unable_to_create_services), asked_two c failed_event s)

  -- With a valid owner reference and labels, creating a service sends that service as it is (the
  -- owner reference is not put into it), and then records the success or the failure; without
  -- labels nothing is sent.
  pub create_services-requests :
      (namespace : String) (service : Service) (meta : ObjectMeta) (ref : OwnerReference)
      (s : Session cluster)
      → validate_controller_ref (some ref) ≡ ok tt
      → create_services_with_controller_ref m cluster namespace service (some meta) (some ref) s ≡ (
          if m.selects_all service.metadata.labels
          then (fail (errorf no_service_labels), s)
          else creation
              (create_service namespace service)
              s
              (cluster.respond (create_service namespace service) s.world).0)
  unfolding create_services_with_controller_ref
  create_services-requests namespace service meta ref s v =
      rw (v, create_services_with_controller_ref)
        (elim (Bool-cases (m.selects_all service.metadata.labels)) [
          | inl none_given ↦ rw none_given
          | inr labelled ↦
              rw labelled
                (elim (Option-cases
                  (cluster.respond (create_service namespace service) s.world).0) [
                    | inl made ↦ rw made
                    | inr (e, refused) ↦ rw refused
                  ])
        ])

  pub create_services-invalid :
      (namespace : String) (service : Service) (object : Option ObjectMeta)
      (ref : Option OwnerReference) (s : Session cluster) {e : Message}
      → validate_controller_ref ref ≡ fail (errorf e)
      → create_services_with_controller_ref m cluster namespace service object ref s
        ≡ (fail (errorf e), s)
  unfolding create_services_with_controller_ref
  create_services-invalid namespace service object ref s v =
      rw (v, create_services_with_controller_ref)
