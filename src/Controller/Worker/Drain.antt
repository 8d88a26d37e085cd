-- ===== src/Controller/Worker/Drain.antt =====
-- runWorker on a queue that is shutting down.
use kubeflow_controller.Common.{
  ℕ, zero, suc, ◌<◌, ◌≤◌, Bool, true, false, ◌≡◌, ◌⊎◌, inl, inr, refl, sym, ap, ◌∙◌, arith,
  Option-cases,
}
use mathlib.Core.Path.{subst}
use kubeflow_controller.Common.Go.{Go}
use kubeflow_controller.Common.Outcome.{Outcome, ok, fail, panic, Fault}
use kubeflow_controller.Platform.{Platform}
use kubeflow_controller.Platform.Queue.{Item, key, not_a_string, DrainingLaws}
use kubeflow_controller.Controller.Sync.{Controller, sync_handler}
use kubeflow_controller.Controller.Worker.{
  process_item, process_got, settle, finish, process_next_work_item, run_worker, again,
}
use kubeflow_controller.Controller.Worker.Queue.{sync_handler-queue}

module _ (p : Platform) (laws : DrainingLaws p.workqueue) where
  open p use {workqueue}

  abbrev left : Controller p → ℕ
  left c = laws.size c.queue

  settle-left :
      (item : Item) (x : Outcome (Unit {0}) × Controller p) → left (settle p item x).1 ≤ left x.1
  settle-left item (ok _, c) = laws.size-forget item c.queue
  settle-left item (fail e, c) = omega arith
  settle-left item (panic f, c) = omega arith

  finish-left :
      (item : Item) (x : Outcome (Unit {0}) × Controller p) → left (finish p item x).1 ≤ left x.1
  finish-left item (ok _, c) = laws.size-done item c.queue
  finish-left item (fail e, c) = laws.size-done item c.queue
  finish-left item (panic f, c) = laws.size-done item c.queue

  process_item-left : (item : Item) (c : Controller p) → left (process_item p item c).1 ≤ left c
  unfolding process_item
  process_item-left (key k) c =
      omega
        (arith, settle-left (key k) (sync_handler p k c), ap laws.size (sync_handler-queue p k c))
  process_item-left not_a_string c = laws.size-forget not_a_string c.queue

  finish-goes :
      (item : Item) (x : Outcome (Unit {0}) × Controller p)
      → ((finish p item x).0 ≡ ok true) ⊎ ((f : Fault) × ((finish p item x).0 ≡ panic f))
  finish-goes item (ok _, c) = inl refl
  finish-goes item (fail e, c) = inl refl
  finish-goes item (panic f, c) = inr (f, refl)

  again-on :
      (rest : Go (Controller p) Bool) (x : Outcome Bool × Controller p)
      → x.0 ≡ ok true
      → again p rest x ≡ rest x.1
  again-on rest x e = ground arith

  again-stuck :
      (rest : Go (Controller p) Bool) (x : Outcome Bool × Controller p) (f : Fault)
      → x.0 ≡ panic f
      → (again p rest x).0 ≡ panic f
  again-stuck rest x f e = ground arith

  abbrev Ended : Outcome Bool × Controller p → Type 0
  Ended x = (x.0 ≡ ok false) ⊎ ((f : Fault) × (x.0 ≡ panic f))

  -- runWorker ends on a queue that is shutting down: one round more than there are items left is
  -- enough, and then the loop has been told to stop, or a panic has ended it.
  pub run_worker-ends :
      (n : ℕ) (c : Controller p)
      → laws.size c.queue < n
      → ((run_worker p n c).0 ≡ ok false) ⊎ ((f : Fault) × ((run_worker p n c).0 ≡ panic f))
  unfolding run_worker process_next_work_item process_got
  run_worker-ends zero c h = absurd (omega arith)
  run_worker-ends (suc n) c h = elim (Option-cases (workqueue.get c.queue).0) [
    | inl e ↦ rw (e, run_worker) (inl refl)
    | inr (item, e) ↦
        let c' : Controller p = record c { queue = (workqueue.get c.queue).1 } in
        let end = finish p item (process_item p item c') in
        let step : run_worker p (suc n) c ≡ again p (run_worker p n) end =
          ap (λ got. again p (run_worker p n) (process_got p got c')) e in
        let below : left end.1 < n = omega (
          arith,
          finish-left item (process_item p item c'),
          process_item-left item c',
          laws.size-get c.queue (ap (λ got. (got, c'.queue)) e),
          h,
        ) in
        elim (finish-goes item (process_item p item c')) [
          | inl goes ↦
              subst Ended (sym (step ∙ again-on (run_worker p n) end goes))
                (run_worker-ends n end.1 below)
          | inr (f, stuck) ↦ inr (f, ap (λ x. x.0) step ∙ again-stuck (run_worker p n) end f stuck)
        ]
  ]
