-- ===== src/Controller/Manage/Apart.antt =====
-- Managing a job changes what that job's key waits for, and what no other key does.
use kubeflow_controller.Common.{
  ℕ, zero, suc, str_eq, String, Bool, true, false, List, [], ◌∷◌, ◌≡◌, refl, ap, ◌∙◌, if_false,
}
use kubeflow_controller.Common.Int.{ℤ, pos, rounds}
use kubeflow_controller.Common.Outcome.{Outcome, ok, fail, panic, deref, index}
use kubeflow_controller.Common.Go.{Go, zoom, gets, modify, ◌>>=◌, ◌>>◌}
use kubeflow_controller.Common.Go.Keeps.{
  Preorder, Keeps, >>=-Keeps, >>-Keeps, lift-Keeps, pure-Keeps, reads-Keeps,
}
use kubeflow_controller.Api.{PodTemplateSpec, Pod, Service, TfJob}
use kubeflow_controller.Checker.{tf_replica_ps, tf_replica_worker}
use kubeflow_controller.Platform.{Platform, Sync}
use kubeflow_controller.Platform.Expectations.{ExpectationsLaws}
use kubeflow_controller.Tensorflow.Types.{
  Event, ActionType, should_add_ps, should_add_ps_service, should_add_worker,
  should_add_worker_service, should_delete, nothing,
}
use kubeflow_controller.Tensorflow.Distributed.{new_distributed_job, get_spec, get_service}
use kubeflow_controller.Tensorflow.Distributed
use kubeflow_controller.Tensorflow.Local.{new_local_job}
use kubeflow_controller.Tensorflow.Local
use kubeflow_controller.Controller.Helper.{create_service, create_pod}
use kubeflow_controller.Controller.Manage.{
  Managed, on_job, on_sync, expect, observe, lowered, go_on, try_create_pod, try_create_service,
  add_service, add_services, add_pod, add_pods, manage_action, manage_events, manage_distributed,
  add_local_pod, manage_local_action, manage_local, manage_kind,
}

module _ (p : Platform) (other : String) where
  open p use {expectations, names}

  -- The other key waits for the same.
  abbrev pub Spares : {S : Type 0} → (S → expectations.Store) → Preorder S
  Spares store = record {
    Rel = λ s t. expectations.pending other (store t) ≡ expectations.pending other (store s);
    same = λ s. refl;
    through = λ s t u h k. k ∙ h;
  }

  abbrev pub syncs : Preorder (Sync p)
  syncs = Spares (λ (s : Sync p). s.store)

  abbrev managing : Preorder (Managed p)
  managing = Spares (λ (s : Managed p). s.1.store)

  abbrev pub jobs : Preorder (TfJob × Sync p)
  jobs = Spares (λ (s : TfJob × Sync p). s.1.store)

  module _ (laws : ExpectationsLaws expectations) (key : String)
      (apart : str_eq key other ≡ false) where
    expect-Spares : (n : ℤ) (s : Sync p) → syncs.Rel s (expect p key n s)
    unfolding expect
    expect-Spares n s = laws.pending-expect key other n s.store ∙ if_false _ _ apart

    lowered-Spares :
        (r : Outcome (Unit {0})) (s t : Sync p)
        → t.store ≡ s.store
        → syncs.Rel s (lowered p key (r, t)).1
    unfolding observe
    lowered-Spares (ok a) s t e = ap (expectations.pending other) e
    lowered-Spares (fail x) s t e =
        laws.pending-observed key other t.store
        ∙ if_false _ _ apart
        ∙ ap (expectations.pending other) e
    lowered-Spares (panic x) s t e = ap (expectations.pending other) e

    try_create_pod-Spares :
        (job : TfJob) (template : PodTemplateSpec) → Keeps syncs (try_create_pod p key job template)
    unfolding try_create_pod
    try_create_pod-Spares job template = record {
      apply = λ s.
          let (r, session) = create_pod p job template s.session in
          lowered-Spares r s (record s { session = session }) refl;
    }

    try_create_service-Spares :
        (job : TfJob) (service : Service) → Keeps syncs (try_create_service p key job service)
    unfolding try_create_service
    try_create_service-Spares job service = record {
      apply = λ s.
          let (r, session) = create_service p job service s.session in
          lowered-Spares r s (record s { session = session }) refl;
    }

    on_sync-Spares : {A : Type 0} {m : Go (Sync p) A} → Keeps syncs m → Keeps managing (on_sync p m)
    on_sync-Spares k = record { apply = λ s. k.apply s.1 }

    go_on-Spares :
        (s : Managed p) (x : Outcome (Unit {0}) × Managed p)
        → managing.Rel s x.1
        → managing.Rel s (go_on p x).1
    go_on-Spares s (ok a, t) h = h
    go_on-Spares s (fail x, t) h = h
    go_on-Spares s (panic x, t) h = h

    made_service-Spares :
        (service : Service)
        → Keeps managing (
            gets (λ (s : Managed p). s.0.tf_job) >>= λ job.
            λ s. go_on p (on_sync p (try_create_service p key job service) s))
    made_service-Spares service = record {
      apply = λ s.
          go_on-Spares s (on_sync p (try_create_service p key s.0.tf_job service) s)
            ((on_sync-Spares (try_create_service-Spares s.0.tf_job service)).apply s);
    }

    add_service-Spares : (typ : String) (i : ℕ) → Keeps managing (add_service p key typ i)
    unfolding add_service
    add_service-Spares typ i =
        >>=-Keeps managing {m = on_job p (get_service names typ i)} (record { apply = λ s. refl })
          made_service-Spares

    add_services-Spares : (typ : String) (n i : ℕ) → Keeps managing (add_services p key typ i n)
    unfolding add_services
    add_services-Spares typ zero i = pure-Keeps managing tt
    add_services-Spares typ (suc n) i =
        >>-Keeps managing (add_service-Spares typ i) (add_services-Spares typ n (suc i))

    made_pod-Spares :
        (template : PodTemplateSpec)
        → Keeps managing (
            gets (λ (s : Managed p). s.0.tf_job) >>= λ job.
            on_sync p (try_create_pod p key job template))
    made_pod-Spares template = record {
      apply = λ s. (on_sync-Spares (try_create_pod-Spares s.0.tf_job template)).apply s;
    }

    add_pod-Spares : (typ : String) (i : ℕ) → Keeps managing (add_pod p key typ i)
    unfolding add_pod
    add_pod-Spares typ i =
        >>=-Keeps managing {m = zoom (λ s. s.0) (λ dj s. (dj, s.1)) (get_spec typ i)}
          (record { apply = λ s. refl })
          λ spec. >>=-Keeps managing (lift-Keeps managing (deref spec.template)) made_pod-Spares

    add_pods-Spares : (typ : String) (n i : ℕ) → Keeps managing (add_pods p key typ i n)
    unfolding add_pods
    add_pods-Spares typ zero i = pure-Keeps managing tt
    add_pods-Spares typ (suc n) i =
        >>-Keeps managing (add_pod-Spares typ i) (add_pods-Spares typ n (suc i))

    expected-Spares :
        {m : Go (Managed p) (Unit {0})} (n : ℤ)
        → Keeps managing m
        → Keeps managing (on_sync p (modify (expect p key n)) >> m)
    expected-Spares n k =
        >>-Keeps managing {m = on_sync p (modify (expect p key n))}
          (record { apply = λ s. expect-Spares n s.1 }) k

    manage_action-Spares :
        (action : ActionType) (n : ℤ) → Keeps managing (manage_action p key action n)
    unfolding manage_action
    manage_action-Spares should_add_worker_service n =
        expected-Spares n (add_services-Spares tf_replica_worker (rounds n) 0)
    manage_action-Spares should_add_ps_service n =
        expected-Spares n (add_services-Spares tf_replica_ps (rounds n) 0)
    manage_action-Spares should_add_worker n =
        expected-Spares n (add_pods-Spares tf_replica_worker (rounds n) 0)
    manage_action-Spares should_add_ps n =
        expected-Spares n (add_pods-Spares tf_replica_ps (rounds n) 0)
    manage_action-Spares nothing n = pure-Keeps managing tt
    manage_action-Spares should_delete n = pure-Keeps managing tt

    manage_events-Spares : (events : List Event) → Keeps managing (manage_events p key events)
    unfolding manage_events
    manage_events-Spares [] = pure-Keeps managing tt
    manage_events-Spares (event ∷ events) =
        >>-Keeps managing (manage_action-Spares event.action event.number)
          (manage_events-Spares events)

    manage_distributed-Spares : Keeps managing (manage_distributed p key)
    unfolding manage_distributed
    manage_distributed-Spares =
        >>=-Keeps managing {m = on_job p (Distributed.action names)} (record { apply = λ s. refl })
          manage_events-Spares

    local_expect-Spares :
        (n : ℤ)
        → Keeps jobs
            (zoom (λ (s : TfJob × Sync p). s.1) (λ t s. (s.0, t)) (modify (expect p key n)))
    local_expect-Spares n = record { apply = λ s. expect-Spares n s.1 }

    local_pod-Spares :
        (template : PodTemplateSpec)
        → Keeps jobs (
            gets (λ (s : TfJob × Sync p). s.0) >>= λ job.
            zoom (λ s. s.1) (λ t s. (s.0, t)) (try_create_pod p key job template))
    local_pod-Spares template = record {
      apply = λ s. (try_create_pod-Spares s.0 template).apply s.1;
    }

    add_local_pod-Spares : (n : ℤ) → Keeps jobs (add_local_pod p key n)
    unfolding add_local_pod
    add_local_pod-Spares n = >>-Keeps jobs (local_expect-Spares n) (
        >>=-Keeps jobs (reads-Keeps jobs (λ s. index s.0.spec.specs (pos 0)))
          λ spec. >>=-Keeps jobs (lift-Keeps jobs (deref spec.template)) local_pod-Spares)

    manage_local_action-Spares :
        (action : ActionType) (n : ℤ) → Keeps jobs (manage_local_action p key action n)
    unfolding manage_local_action
    manage_local_action-Spares should_add_worker n = add_local_pod-Spares n
    manage_local_action-Spares nothing n = pure-Keeps jobs tt
    manage_local_action-Spares should_add_ps n = pure-Keeps jobs tt
    manage_local_action-Spares should_add_ps_service n = pure-Keeps jobs tt
    manage_local_action-Spares should_add_worker_service n = pure-Keeps jobs tt
    manage_local_action-Spares should_delete n = pure-Keeps jobs tt

    local_plan-Spares :
        (pods : List Pod) (succeeded : ℤ)
        → Keeps jobs (
            zoom
              (λ (s : TfJob × Sync p). (new_local_job s.0 pods succeeded, s.1.gen))
              (λ t s. (t.0.tf_job, record s.1 { gen = t.1 }))
              (Local.action names))
    local_plan-Spares pods succeeded = record { apply = λ s. refl }

    manage_local-Spares :
        (pods : List Pod) (succeeded : ℤ) → Keeps jobs (manage_local p key pods succeeded)
    unfolding manage_local
    manage_local-Spares pods succeeded =
        >>=-Keeps jobs (local_plan-Spares pods succeeded)
          (λ event. manage_local_action-Spares event.action event.number)

    pub manage_kind-Spares :
        (workers ps : List Pod) (worker_services ps_services : List Service) (succeeded : ℤ)
        (local : Bool)
        → Keeps jobs (manage_kind p workers ps worker_services ps_services succeeded key local)
    unfolding manage_kind
    manage_kind-Spares workers ps worker_services ps_services succeeded true =
        manage_local-Spares workers succeeded
    manage_kind-Spares workers ps worker_services ps_services succeeded false = record {
      apply = λ s.
          manage_distributed-Spares.apply
            (new_distributed_job s.0 workers ps worker_services ps_services succeeded, s.1);
    }
