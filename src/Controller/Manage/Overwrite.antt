-- ===== src/Controller/Manage/Overwrite.antt =====
-- What a job waits for after all the events of a sync.
use kubeflow_controller.Common.{
  ℕ, zero, suc, String, Bool, true, false, some, List, [], ◌∷◌, ◌++◌, ◌≡◌, ◌⊎◌, inl, inr, refl, sym,
  ap, ◌∙◌, eq_refl, if_true,
}
use mathlib.Core.Path.{subst}
use kubeflow_controller.Common.Int.{ℤ, rounds}
use kubeflow_controller.Common.Outcome.{Outcome, ok, fail, panic, deref}
use kubeflow_controller.Common.Go.{Go, ◌>>=◌, ◌>>◌, resume, pure, modify, gets, lift, zoom}
use kubeflow_controller.Api.{PodTemplateSpec}
use kubeflow_controller.Checker.{tf_replica_ps, tf_replica_worker}
use kubeflow_controller.Platform.{Platform, Sync}
use kubeflow_controller.Platform.Expectations.{ExpectationsLaws}
use kubeflow_controller.Tensorflow.Types.{Event, ActionType, should_add_ps, should_add_worker}
use kubeflow_controller.Tensorflow.Distributed.{get_spec}
use kubeflow_controller.Controller.Helper.{create_pod}
use kubeflow_controller.Controller.Manage.{
  Managed, lowered, on_sync, try_create_pod, add_pod, add_pods, manage_action, manage_events,
  expect,
}

-- Whether the result is one without an error.
abbrev is_ok {ℓ} : {A : Type ℓ} → Outcome A → Bool
is_ok (ok a) = true
is_ok (fail e) = false
is_ok (panic f) = false

no_result {ℓ} : {P : Type ℓ} → false ≡ true → P
no_result e = absurd (cc)

module _ {ℓ} {S : Type ℓ} {B : Type 0} where
  resumed :
      (r : Outcome (Unit {0})) (n : Go S B) (t : S)
      → is_ok (resume r (λ _. n) t).0 ≡ true
      → (is_ok r ≡ true) × (resume r (λ _. n) t ≡ n t)
  resumed (ok a) n t e = (refl, refl)
  resumed (fail x) n t e = no_result e
  resumed (panic x) n t e = no_result e

  -- A chain without an error has one in neither part.
  then-ok :
      (m : Go S (Unit {0})) (n : Go S B) (s : S)
      → is_ok ((m >> n) s).0 ≡ true
      → (is_ok (m s).0 ≡ true) × ((m >> n) s ≡ n (m s).1)
  then-ok m n s e = resumed (m s).0 n (m s).1 e

-- The event asks for pods.
abbrev pub AsksForPods : ActionType → Type 0
AsksForPods action = (action ≡ should_add_worker) ⊎ (action ≡ should_add_ps)

module _ (p : Platform) where
  open p use {expectations}

  abbrev store : Managed p → expectations.Store
  store s = s.1.store

  -- A method that keeps the expectations if it ends without an error.
  record OkKeeps {A : Type 0} (m : Go (Managed p) A) : Type 0 where
    apply : (s : Managed p) → is_ok (m s).0 ≡ true → store (m s).1 ≡ store s

  resume-ok :
      {A B : Type 0} (f : A → Go (Managed p) B) (r : Outcome A) (s t : Managed p)
      → (is_ok r ≡ true → store t ≡ store s)
      → ((a : A) → OkKeeps (f a))
      → is_ok (resume r f t).0 ≡ true
      → store (resume r f t).1 ≡ store s
  resume-ok f (ok a) s t h k e = (k a).apply t e ∙ h refl
  resume-ok f (fail x) s t h k e = no_result e
  resume-ok f (panic x) s t h k e = no_result e

  >>=-ok :
      {A B : Type 0} {m : Go (Managed p) A} {f : A → Go (Managed p) B}
      → OkKeeps m
      → ((a : A) → OkKeeps (f a))
      → OkKeeps (m >>= f)
  >>=-ok {m = m} {f = f} h k = record {
    apply = λ s e. resume-ok f (m s).0 s (m s).1 (h.apply s) k e;
  }

  lowered-ok :
      (key : String) (r : Outcome (Unit {0})) (s : Sync p)
      → is_ok (lowered p key (r, s)).0 ≡ true
      → (lowered p key (r, s)).1.store ≡ s.store
  lowered-ok key (ok a) s e = refl
  lowered-ok key (fail x) s e = no_result e
  lowered-ok key (panic x) s e = refl

  created-ok :
      (key : String) (template : PodTemplateSpec)
      → OkKeeps (
          gets (λ (s : Managed p). s.0.tf_job) >>= λ job.
          on_sync p (try_create_pod p key job template))
  unfolding try_create_pod
  created-ok key template = record {
    apply = λ s e.
        let (r, session) = create_pod p s.0.tf_job template s.1.session in
        lowered-ok key r (record s.1 { session = session }) e;
  }

  add_pod-ok : (key typ : String) (i : ℕ) → OkKeeps (add_pod p key typ i)
  unfolding add_pod
  add_pod-ok key typ i =
      >>=-ok {m = zoom (λ s. s.0) (λ dj s. (dj, s.1)) (get_spec typ i)}
        (record { apply = λ s e. refl })
        λ spec.
          >>=-ok {m = lift (deref spec.template)} (record { apply = λ s e. refl })
            λ template. created-ok key template

  add_pods-ok : (key typ : String) (n i : ℕ) → OkKeeps (add_pods p key typ i n)
  unfolding add_pods
  add_pods-ok key typ zero i = record { apply = λ s e. refl }
  add_pods-ok key typ (suc n) i = >>=-ok (add_pod-ok key typ i) (λ _. add_pods-ok key typ n (suc i))

  module _ (laws : ExpectationsLaws expectations) (key : String) where
    expected :
        (n : ℤ) (st : expectations.Store)
        → expectations.pending key (expectations.expect_creations key n st) ≡ some n
    expected n st = laws.pending-expect key key n st ∙ if_true _ _ (eq_refl key)

    Leaves : Managed p → ℤ → Type 0
    Leaves end n = expectations.pending key (store end) ≡ some n

    pods-pending :
        (typ : String) (n : ℤ) (s : Managed p)
        → let end = (on_sync p (modify (expect p key n)) >> add_pods p key typ 0 (rounds n)) s in
          is_ok end.0 ≡ true → Leaves end.1 n
    unfolding expect Leaves
    pods-pending typ n s e =
        let t = (on_sync p (modify (expect p key n)) s).1 in
        ap (expectations.pending key) ((add_pods-ok key typ (rounds n) 0).apply t e)
        ∙ expected n (store s)

    action-pending :
        {action : ActionType} (n : ℤ) (s : Managed p)
        → AsksForPods action
        → is_ok (manage_action p key action n s).0 ≡ true
        → Leaves (manage_action p key action n s).1 n
    unfolding manage_action
    action-pending n s (inl h) =
        subst
          (λ a. is_ok (manage_action p key a n s).0 ≡ true → Leaves (manage_action p key a n s).1 n)
          (sym h) (pods-pending tf_replica_worker n s)
    action-pending n s (inr h) =
        subst
          (λ a. is_ok (manage_action p key a n s).0 ≡ true → Leaves (manage_action p key a n s).1 n)
          (sym h) (pods-pending tf_replica_ps n s)

    events-pending :
        (events : List Event) (last : Event) (s : Managed p)
        → AsksForPods last.action
        → is_ok (manage_events p key (events ++ last ∷ []) s).0 ≡ true
        → Leaves (manage_events p key (events ++ last ∷ []) s).1 last.number
    unfolding manage_events
    events-pending [] last s h e =
        let (done, same) = then-ok (manage_action p key last.action last.number) (pure tt) s e in
        subst (λ end. Leaves end.1 last.number) (sym same) (action-pending last.number s h done)
    events-pending (event ∷ events) last s h e =
        let rest = manage_events p key (events ++ last ∷ []) in
        let act = manage_action p key event.action event.number in
        let (done, same) = then-ok act rest s e in
        subst (λ end. Leaves end.1 last.number) (sym same)
          (events-pending events last (act s).1 h (sym (ap (λ end. is_ok end.0) same) ∙ e))

    -- The events of a sync that ends without an error leave the job waiting for what the last of them asked
    -- for, if that asked for pods, whatever the events before it asked for and had created.
    pub manage_events-overwrite :
        (events : List Event) (last : Event) (s : Managed p)
        → AsksForPods last.action
        → (manage_events p key (events ++ last ∷ []) s).0 ≡ ok tt
        → expectations.pending key (store (manage_events p key (events ++ last ∷ []) s).1)
          ≡ some last.number
    unfolding Leaves
    manage_events-overwrite events last s h e = events-pending events last s h (ap is_ok e)
