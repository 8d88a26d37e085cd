-- ===== src/Control/Within.antt =====
-- Creating and patching on behalf of a job: every request made is one for that job.
use kubeflow_controller.Common.{
  String, Bool, true, Option, none, some, ◌≡◌, refl, Bool-cases, inl, inr,
}
use kubeflow_controller.Common.Outcome.{Outcome, ok, fail, panic, errorf, unable_to_create_services}
use kubeflow_controller.Common.Go.Keeps.{Preorder, Keeps, >>=-Keeps, and_then-Keeps, lift-Keeps}
use kubeflow_controller.Api.{ObjectMeta, OwnerReference, Service}
use kubeflow_controller.Platform.Machinery.{Machinery}
use kubeflow_controller.Platform.Cluster.{
  Cluster, Session, Call, invoke, create_service, patch_service, eventf,
}
use kubeflow_controller.Platform.Requests.{IsFor, IsServiceFor, Sent-one, Within}
use kubeflow_controller.Platform.Patches.{IsOwnership}
use kubeflow_controller.Control.Validate.{validate_controller_ref}
use kubeflow_controller.Control.Create.{
  record_event, after_create_service, create_services, create_services_with_controller_ref,
  patch_the_service,
}

module _ (m : Machinery) (cluster : Cluster) (may : ObjectMeta → Bool) (meta : ObjectMeta) where
  -- Requests for the job with this metadata.
  abbrev pub ForJob : Preorder (Session cluster)
  ForJob = Within may (λ (_ : Session cluster). meta) (λ (s : Session cluster). s.calls)

  pub invoke-Within : (call : Call) → IsFor may meta call → Keeps ForJob (invoke cluster call)
  unfolding invoke
  invoke-Within call h = record { apply = λ s. (refl, Sent-one may meta s.calls call h) }

  record_event-Within : (typ reason : String) → Keeps ForJob (record_event m cluster typ reason)
  unfolding record_event invoke
  record_event-Within typ reason = record {
    apply = λ s. (refl, Sent-one may meta s.calls (eventf typ reason) tt);
  }

  after_create_service-Within :
      (object : Option ObjectMeta) (r : Outcome (Unit {0}))
      → Keeps ForJob (after_create_service m cluster object r)
  unfolding after_create_service
  after_create_service-Within object (fail e) =
      >>=-Keeps ForJob (record_event-Within "Warning" "FailedCreate")
        (λ _. lift-Keeps ForJob (fail (errorf unable_to_create_services)))
  after_create_service-Within none (ok a) = lift-Keeps ForJob (ok tt)
  after_create_service-Within (some owner) (ok a) = record_event-Within "Normal" "SuccessfulCreate"
  after_create_service-Within object (panic f) = lift-Keeps ForJob (panic f)

  create_services-Within :
      (service : Service) (object : Option ObjectMeta) (ref : Option OwnerReference)
      → may meta ≡ true
      → IsServiceFor meta service
      → Keeps ForJob (create_services m cluster meta.namespace service object ref)
  unfolding create_services
  create_services-Within service object ref allowed h = record {
    apply = λ s. elim (Bool-cases (m.selects_all service.metadata.labels)) [
      | inl e ↦ rw e (ForJob.same s)
      | inr e ↦ rw e (
          and_then-Keeps ForJob (after_create_service m cluster object)
            (invoke-Within (create_service meta.namespace service) (allowed, refl, h))
            (after_create_service-Within object) s)
    ];
  }

  pub create_service-Within :
      (service : Service) (object : Option ObjectMeta) (ref : Option OwnerReference)
      → may meta ≡ true
      → IsServiceFor meta service
      → Keeps ForJob
          (create_services_with_controller_ref m cluster meta.namespace service object ref)
  unfolding create_services_with_controller_ref
  create_service-Within service object ref allowed h =
      >>=-Keeps ForJob (lift-Keeps ForJob (validate_controller_ref ref))
        (λ _. create_services-Within service object ref allowed h)

  pub patch_the_service-Within :
      (namespace name patch : String)
      → (namespace ≡ meta.namespace) × IsOwnership meta patch
      → Keeps ForJob (patch_the_service m cluster namespace name patch)
  unfolding patch_the_service
  patch_the_service-Within namespace name patch h =
      invoke-Within (patch_service namespace name patch) h
