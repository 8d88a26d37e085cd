-- ===== src/Controller/Manage/Within.antt =====
-- Managing a job makes requests for that job only, and keeps its metadata.
use kubeflow_controller.Common.{ℕ, zero, suc, String, Bool, true, some, List, [], ◌∷◌, refl}
use kubeflow_controller.Common.Int.{ℤ, rounds}
use kubeflow_controller.Common.Outcome.{Outcome, ok, fail, panic, deref}
use kubeflow_controller.Common.Go.{Go, zoom, gets, modify, ◌>>=◌}
use kubeflow_controller.Common.Go.Keeps.{
  Preorder, Keeps, >>=-Keeps, >>-Keeps, and_then-Keeps, zoom-Keeps, lift-Keeps, pure-Keeps,
}
use kubeflow_controller.Api.{ObjectMeta, PodTemplateSpec, Service, TfJob}
use kubeflow_controller.Checker.{tf_replica_ps, tf_replica_worker}
use kubeflow_controller.Platform.{Platform, Sync}
use kubeflow_controller.Platform.Cluster.{Session, Call}
use kubeflow_controller.Platform.Cluster
use kubeflow_controller.Platform.Requests.{IsServiceFor, Sent-none, Within}
use kubeflow_controller.Common.Map.{lookup, insert, lookup-insert}
use kubeflow_controller.Common.Text.{decimal}
use kubeflow_controller.Control.Within.{ForJob, invoke-Within, create_service-Within}
use kubeflow_controller.Tensorflow.Types.{
  Event, ActionType, should_add_ps, should_add_ps_service, should_add_worker,
  should_add_worker_service, should_delete, nothing,
}
use kubeflow_controller.Tensorflow.Distributed.Spec.{DistributedJob, get_labels}
use kubeflow_controller.Tensorflow.Distributed.{get_spec, get_service}
use kubeflow_controller.Tensorflow.Metadata.{
  get_spec-same, get_service-same, action-same, Drawing, Jobs,
}
use kubeflow_controller.Controller.Util.{new_controller_ref}
use kubeflow_controller.Controller.Helper.{create_pod, create_service}
use kubeflow_controller.Controller.Manage.{
  observe, expect, lowered, try_create_pod, try_create_service, go_on, Managed, on_job, on_sync,
  add_service, add_services, add_pod, add_pods, manage_action, manage_events, manage_distributed,
}

-- Managing may make pods and services.
abbrev pub always : ObjectMeta → Bool
always meta = true

module _ (p : Platform) where
  open p use {machinery, cluster, names}

  pub create_pod-Within :
      (job : TfJob) (template : PodTemplateSpec)
      → Keeps (ForJob machinery cluster always job.metadata) (create_pod p job template)
  unfolding create_pod new_controller_ref
  create_pod-Within job template =
      invoke-Within machinery cluster always job.metadata
        (Cluster.create_pod job.metadata.namespace template (new_controller_ref job))
        (refl, refl, refl, refl, refl, refl)

  pub helper_create_service-Within :
      (job : TfJob) (service : Service)
      → IsServiceFor job.metadata service
      → Keeps (ForJob machinery cluster always job.metadata) (create_service p job service)
  unfolding create_service
  helper_create_service-Within job service h =
      create_service-Within machinery cluster always job.metadata service (some job.metadata)
        (some (new_controller_ref job)) refl h

  -- A sync on behalf of the job with this metadata.
  abbrev pub ForSync : ObjectMeta → Preorder (Sync p)
  ForSync meta = Within always (λ (_ : Sync p). meta) (λ (s : Sync p). s.session.calls)

  lowered-Within :
      (meta : ObjectMeta) (key : String) (r : Outcome (Unit {0}))
      → Keeps (ForSync meta) (λ s. lowered p key (r, s))
  unfolding observe
  lowered-Within meta key (ok a) = record { apply = λ s. (ForSync meta).same s }
  lowered-Within meta key (fail e) = record {
    apply = λ s. (refl, Sent-none always meta s.session.calls);
  }
  lowered-Within meta key (panic f) = record { apply = λ s. (ForSync meta).same s }

  in_session-Within :
      (meta : ObjectMeta) {m : Go (Session cluster) (Unit {0})}
      → Keeps (ForJob machinery cluster always meta) m
      → Keeps (ForSync meta) (zoom (λ (s : Sync p). s.session) (λ x s. record s { session = x }) m)
  in_session-Within meta h =
      zoom-Keeps (ForJob machinery cluster always meta) (ForSync meta) (λ s. s.session)
        (λ x s. record s { session = x }) (λ t s k. k) h

  pub try_create_pod-Within :
      (key : String) (job : TfJob) (template : PodTemplateSpec)
      → Keeps (ForSync job.metadata) (try_create_pod p key job template)
  unfolding try_create_pod
  try_create_pod-Within key job template = record {
    apply =
        and_then-Keeps (ForSync job.metadata) (λ r s. lowered p key (r, s))
          (in_session-Within job.metadata (create_pod-Within job template))
          (lowered-Within job.metadata key);
  }

  try_create_service-Within :
      (key : String) (job : TfJob) (service : Service)
      → IsServiceFor job.metadata service
      → Keeps (ForSync job.metadata) (try_create_service p key job service)
  unfolding try_create_service
  try_create_service-Within key job service h = record {
    apply =
        and_then-Keeps (ForSync job.metadata) (λ r s. lowered p key (r, s))
          (in_session-Within job.metadata (helper_create_service-Within job service h))
          (lowered-Within job.metadata key);
  }

  -- Managing the distributed job.
  abbrev pub Managing : Preorder (Managed p)
  Managing =
      Within always (λ (s : Managed p). s.0.tf_job.metadata) (λ (s : Managed p). s.1.session.calls)

  on_sync-Within :
      {A : Type 0} (s : Managed p) (m : Go (Sync p) A)
      → Keeps (ForSync s.0.tf_job.metadata) m
      → Managing.Rel s (on_sync p m s).1
  on_sync-Within s m h = h.apply s.1

  on_job-Within :
      {A : Type 0} {m : Go (DistributedJob × names.Gen) A}
      → Keeps (Drawing names) m
      → Keeps Managing (on_job p m)
  on_job-Within h =
      zoom-Keeps (Drawing names) Managing (λ s. (s.0, s.1.gen))
        (λ t s. (t.0, record s.1 { gen = t.1 }))
        (λ t s k. (k, Sent-none always t.0.tf_job.metadata t.1.session.calls)) h

  go_on-Within : (r : Outcome (Unit {0})) → Keeps Managing (λ s. go_on p (r, s))
  go_on-Within (ok a) = record { apply = λ s. Managing.same s }
  go_on-Within (fail e) = record { apply = λ s. Managing.same s }
  go_on-Within (panic f) = record { apply = λ s. Managing.same s }

  create_one-Rel :
      (key : String) (service : Service) (s : Managed p)
      → IsServiceFor s.0.tf_job.metadata service
      → Managing.Rel s (go_on p (on_sync p (try_create_service p key s.0.tf_job service) s)).1
  create_one-Rel key service s h =
      let mid = on_sync p (try_create_service p key s.0.tf_job service) s in
      Managing.through s mid.1 (go_on p mid).1
        (on_sync-Within s (try_create_service p key s.0.tf_job service)
          (try_create_service-Within key s.0.tf_job service h))
        ((go_on-Within mid.0).apply mid.1)

  add_service-Within : (key typ : String) (i : ℕ) → Keeps Managing (add_service p key typ i)
  unfolding add_service get_service get_labels lookup
  add_service-Within key typ i = record {
    apply = λ s.
        let mid = on_job p (get_service names typ i) s in
        Managing.through s mid.1 (add_service p key typ i s).1
          ((on_job-Within (get_service-same names typ i)).apply s)
          (create_one-Rel key _ mid.1 (
            refl,
            (
              insert "index" (decimal i) (get_labels s.0 typ),
              refl,
              lookup-insert "index" "tf_job_name" (decimal i) (get_labels s.0 typ),
            ),
          ));
  }

  add_services-Within : (key typ : String) (n i : ℕ) → Keeps Managing (add_services p key typ i n)
  unfolding add_services
  add_services-Within key typ zero i = pure-Keeps Managing tt
  add_services-Within key typ (suc n) i =
      >>-Keeps Managing (add_service-Within key typ i) (add_services-Within key typ n (suc i))

  pod_template-Within :
      (key : String) (template : PodTemplateSpec)
      → Keeps Managing (
          gets (λ (s : Managed p). s.0.tf_job) >>= λ job.
          on_sync p (try_create_pod p key job template))
  pod_template-Within key template = record {
    apply = λ s.
        on_sync-Within s (try_create_pod p key s.0.tf_job template)
          (try_create_pod-Within key s.0.tf_job template);
  }

  get_spec-Within :
      (typ : String) (i : ℕ)
      → Keeps Managing (zoom (λ (s : Managed p). s.0) (λ dj s. (dj, s.1)) (get_spec typ i))
  get_spec-Within typ i =
      zoom-Keeps Jobs Managing (λ s. s.0) (λ dj s. (dj, s.1))
        (λ t dj k. (k, Sent-none always t.0.tf_job.metadata t.1.session.calls))
        (get_spec-same typ i)

  add_pod-Within : (key typ : String) (i : ℕ) → Keeps Managing (add_pod p key typ i)
  unfolding add_pod
  add_pod-Within key typ i = >>=-Keeps Managing (get_spec-Within typ i) λ spec.
      >>=-Keeps Managing (lift-Keeps Managing (deref spec.template))
        λ template. pod_template-Within key template

  add_pods-Within : (key typ : String) (n i : ℕ) → Keeps Managing (add_pods p key typ i n)
  unfolding add_pods
  add_pods-Within key typ zero i = pure-Keeps Managing tt
  add_pods-Within key typ (suc n) i =
      >>-Keeps Managing (add_pod-Within key typ i) (add_pods-Within key typ n (suc i))

  expect-Within : (key : String) (n : ℤ) → Keeps Managing (on_sync p (modify (expect p key n)))
  unfolding expect
  expect-Within key n = record { apply = λ s. Managing.same s }

  manage_action-Within :
      (key : String) (action : ActionType) (n : ℤ) → Keeps Managing (manage_action p key action n)
  unfolding manage_action
  manage_action-Within key should_add_worker_service n =
      >>-Keeps Managing (expect-Within key n)
        (add_services-Within key tf_replica_worker (rounds n) 0)
  manage_action-Within key should_add_ps_service n =
      >>-Keeps Managing (expect-Within key n) (add_services-Within key tf_replica_ps (rounds n) 0)
  manage_action-Within key should_add_worker n =
      >>-Keeps Managing (expect-Within key n) (add_pods-Within key tf_replica_worker (rounds n) 0)
  manage_action-Within key should_add_ps n =
      >>-Keeps Managing (expect-Within key n) (add_pods-Within key tf_replica_ps (rounds n) 0)
  manage_action-Within key nothing n = pure-Keeps Managing tt
  manage_action-Within key should_delete n = pure-Keeps Managing tt

  manage_events-Within :
      (key : String) (events : List Event) → Keeps Managing (manage_events p key events)
  unfolding manage_events
  manage_events-Within key [] = pure-Keeps Managing tt
  manage_events-Within key (event ∷ events) =
      >>-Keeps Managing (manage_action-Within key event.action event.number)
        (manage_events-Within key events)

  pub manage_distributed-Within : (key : String) → Keeps Managing (manage_distributed p key)
  unfolding manage_distributed
  manage_distributed-Within key =
      >>=-Keeps Managing (on_job-Within (action-same names)) (manage_events-Within key)
