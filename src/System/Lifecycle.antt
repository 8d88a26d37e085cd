-- ===== src/System/Lifecycle.antt =====
-- The stages of the program: when workers run, when requests are made, and when Run returns.
use kubeflow_controller.Common.{Bool, true, ◌≡◌, refl, ap, ◌∙◌, arith, List, []}
use mathlib.Core.Path.{subst}
use kubeflow_controller.Common.Outcome.{Outcome, ok, fail, panic, errorf}
use kubeflow_controller.Common.Outcome
use kubeflow_controller.Platform.{Platform}
use kubeflow_controller.Platform.Cluster.{Call}
use kubeflow_controller.Controller.Sync.{Controller}
use kubeflow_controller.Controller.Wiring.{dispatch, new_controller}
use kubeflow_controller.Controller.Wiring.Sessions.{dispatch-session}
use kubeflow_controller.Controller.Worker.{process_next_work_item}
use kubeflow_controller.Controller.Run.{
  Stage, waiting_for_caches, waiting_for_stop, returned, crashed, start_workers, work, stop,
  return_from_run, after_round,
}
use kubeflow_controller.Signals.{Process, notify, receive}
use kubeflow_controller.System.{
  State, Change, Reachable, alive, start, started, next, notified, received, told, cached, changed,
  queued, caches_synced, caches_not_synced, worked, stopped, threadiness, on_controller, with_world,
}

module _ (p : Platform) where
  abbrev pub calls : State p → List Call
  calls s = s.running.controller.sync.session.calls

  -- Workers run from when the caches have synced; before, and when Run fails, no request is made. Run
  -- returns only when the stop channel is closed, with an error only if the caches never synced.
  abbrev pub IsRegular : Stage → State p → Type 0
  IsRegular waiting_for_caches s = (s.running.workers ≡ 0) × (calls s ≡ [])
  IsRegular waiting_for_stop s = s.running.workers ≡ threadiness
  IsRegular (returned (ok _)) s = (s.running.workers ≡ threadiness) × (s.signals.stop_closed ≡ true)
  IsRegular (returned (fail e)) s =
      (s.running.workers ≡ 0)
      × (calls s ≡ [])
      × (s.signals.stop_closed ≡ true)
      × (e ≡ errorf Outcome.caches_not_synced)
  IsRegular (returned (panic f)) s = ⊥
  IsRegular (crashed f) s = s.running.workers ≡ threadiness

  -- What the stage rests on does not change: the workers, the requests, and a closed stop channel.
  record Alike (s t : State p) : Type 0 where
    workers : t.running.workers ≡ s.running.workers
    requests : calls t ≡ calls s
    stop_closed : s.signals.stop_closed ≡ true → t.signals.stop_closed ≡ true

  Alike-IsRegular :
      (stage : Stage) (s t : State p) → Alike s t → IsRegular stage s → IsRegular stage t
  Alike-IsRegular waiting_for_caches s t a h = (a.workers ∙ h.0, a.requests ∙ h.1)
  Alike-IsRegular waiting_for_stop s t a h = a.workers ∙ h
  Alike-IsRegular (returned (ok _)) s t a h = (a.workers ∙ h.0, a.stop_closed h.1)
  Alike-IsRegular (returned (fail e)) s t a (w, c, closed, q) =
      (a.workers ∙ w, a.requests ∙ c, a.stop_closed closed, q)
  Alike-IsRegular (returned (panic f)) s t a h = absurd h
  Alike-IsRegular (crashed f) s t a h = a.workers ∙ h

  notify-stop : (q : Process) → (notify q).stop_closed ≡ q.stop_closed
  unfolding notify
  notify-stop q = ground arith

  receive-stop : (q r : Process) → receive q ≡ ok r → q.stop_closed ≡ true → r.stop_closed ≡ true
  unfolding receive
  receive-stop q r e h = ground arith

  -- A stage that is known.
  at_stage :
      (s : State p) {stage : Stage}
      → s.running.stage ≡ stage
      → IsRegular s.running.stage s
      → IsRegular stage s
  at_stage s e h = subst (λ stage. IsRegular stage s) e h

  after_round-IsRegular :
      (x : Outcome Bool × Controller p) (s : State p)
      → s.running.stage ≡ waiting_for_stop
      → s.running.workers ≡ threadiness
      → let r = after_round p x s.running in IsRegular r.stage (record s { running = r })
  unfolding after_round
  after_round-IsRegular (ok _, c) s e h = rw e h
  after_round-IsRegular (fail f, c) s e h = rw e h
  after_round-IsRegular (panic f, c) s e h = h

  change-IsRegular :
      {s t : State p} → Change p s t → IsRegular s.running.stage s → IsRegular t.running.stage t
  unfolding start_workers return_from_run stop work
  change-IsRegular (notified s) h =
      Alike-IsRegular s.running.stage s (record s { signals = notify s.signals })
        (record { workers = refl; requests = refl; stop_closed = λ k. notify-stop s.signals ∙ k }) h
  change-IsRegular (received s {q} e) h =
      Alike-IsRegular s.running.stage s (record s { signals = q })
        (record { workers = refl; requests = refl; stop_closed = receive-stop s.signals q e }) h
  change-IsRegular (told n s) h =
      Alike-IsRegular s.running.stage s (on_controller p (dispatch p n) s)
        (record {
          workers = refl;
          requests = ap (λ session. session.calls) (dispatch-session p n s.running.controller);
          stop_closed = λ k. k;
        })
        h
  change-IsRegular (cached jobs s) h =
      Alike-IsRegular s.running.stage s (on_controller p (λ c. record c { jobs = jobs }) s)
        (record { workers = refl; requests = refl; stop_closed = λ k. k }) h
  change-IsRegular (changed world s) h =
      Alike-IsRegular s.running.stage s (on_controller p (with_world p world) s)
        (record { workers = refl; requests = refl; stop_closed = λ k. k }) h
  change-IsRegular (queued queue s) h =
      Alike-IsRegular s.running.stage s (on_controller p (λ c. record c { queue = queue }) s)
        (record { workers = refl; requests = refl; stop_closed = λ k. k }) h
  change-IsRegular (caches_synced s e) h = refl
  change-IsRegular (caches_not_synced s e closed) h =
      let (no_workers, no_calls) = at_stage s e h in (no_workers, no_calls, closed, refl)
  change-IsRegular (worked s e) h =
      after_round-IsRegular (process_next_work_item p s.running.controller) s e (at_stage s e h)
  change-IsRegular (stopped s e closed) h = (at_stage s e h, closed)

  -- Of every state that the program reaches, whatever the order of signals, events, changes of the
  -- cluster and rounds of workers: before the caches have synced no worker runs and no request was made;
  -- after that two workers run; Run has returned only if the stop channel is closed; and it has returned
  -- an error only if the caches never synced, in which case no worker ran and no request was made.
  pub Reachable-IsRegular : (s : State p) → Reachable p s → IsRegular s.running.stage s
  unfolding start new_controller
  Reachable-IsRegular s (started world gen jobs e) = (refl, refl)
  Reachable-IsRegular s (next r (alive e change)) =
      change-IsRegular change (Reachable-IsRegular _ r)
