-- ===== src/System/Shutdown.antt =====
-- Stopping the program.
use kubeflow_controller.Common.{
  ℕ, zero, suc, true, false, none, ◌≡◌, ◌<◌, ◌∙◌, ap, refl, arith, inl, inr, Bool-cases,
}
use kubeflow_controller.Common.Outcome.{ok}
use kubeflow_controller.Platform.{Platform}
use kubeflow_controller.Controller.Run.{waiting_for_stop, returned, stop, return_from_run}
use kubeflow_controller.Signals.{
  Process, received, awaiting_first, awaiting_second, exited, notify, receive,
}
use kubeflow_controller.Signals
use kubeflow_controller.Signals.Shutdown.{Stages, Reachable-Stages}
use kubeflow_controller.System.{
  State, Step, Reachable, started, next, alive, stopped, notified, on_running,
}
use kubeflow_controller.System

module _ (p : Platform) where
  -- The signals of a state that the program reaches.
  signals-Reachable : (s : State p) → Reachable p s → Signals.Reachable s.signals
  unfolding System.start
  signals-Reachable s (started world gen jobs e) = Signals.set_up e
  signals-Reachable s (next h (alive l (notified r))) = Signals.caught (signals-Reachable r h)
  signals-Reachable s (next h (alive l (System.received r e))) =
      Signals.runs (signals-Reachable r h) e
  signals-Reachable s (next h (alive l (System.told n r))) = signals-Reachable r h
  signals-Reachable s (next h (alive l (System.cached jobs r))) = signals-Reachable r h
  signals-Reachable s (next h (alive l (System.changed world r))) = signals-Reachable r h
  signals-Reachable s (next h (alive l (System.queued queue r))) = signals-Reachable r h
  signals-Reachable s (next h (alive l (System.caches_synced r e))) = signals-Reachable r h
  signals-Reachable s (next h (alive l (System.caches_not_synced r e c))) = signals-Reachable r h
  signals-Reachable s (next h (alive l (System.worked r e))) = signals-Reachable r h
  signals-Reachable s (next h (alive l (stopped r e c))) = signals-Reachable r h

  -- Some steps on.
  pub data Steps : State p → State p → Type 0 where
    no_step : (s : State p) → Steps s s
    one_step : {s t u : State p} → Step p s t → Steps t u → Steps s u

  first : (q : Process) → Stages q → q.stop_closed ≡ false → q.goroutine ≡ awaiting_first
  first q h c = ground arith

  received-closes :
      (n : ℕ) (q : Process)
      → 0 < n
      → q.stop_closed ≡ false
      → (r : Process) × (received awaiting_first n q ≡ ok r)
        × (r.stop_closed ≡ true)
        × (r.exit_code ≡ q.exit_code)
  received-closes zero q h c = absurd (omega arith)
  received-closes (suc n) q h c = (
    record q { goroutine = awaiting_second; buffered = n; stop_closed = true },
    rw c refl,
    refl,
    refl,
  )

  receive-closes :
      (q : Process)
      → q.goroutine ≡ awaiting_first
      → 0 < q.buffered
      → q.stop_closed ≡ false
      → (r : Process) × (receive q ≡ ok r) × (r.stop_closed ≡ true) × (r.exit_code ≡ q.exit_code)
  unfolding receive
  receive-closes q g h c =
      let (r, e, closed, lives) = received-closes q.buffered q h c in
      (r, ap (λ goroutine. received goroutine q.buffered q) g ∙ e, closed, lives)

  notified-fields :
      (q : Process)
      → let r = notify q in
        (r.goroutine ≡ q.goroutine)
        × (0 < r.buffered)
        × (r.stop_closed ≡ q.stop_closed)
        × (r.exit_code ≡ q.exit_code)
  unfolding notify
  notified-fields q = ground arith

  -- One signal is enough to close the stop channel.
  closes :
      (q : Process)
      → Stages q
      → q.stop_closed ≡ false
      → (r : Process) × (receive (notify q) ≡ ok r)
        × (r.stop_closed ≡ true)
        × ((notify q).exit_code ≡ q.exit_code)
        × (r.exit_code ≡ q.exit_code)
  closes q stages c =
      let (g, h, k, lives) = notified-fields q in
      let (r, e, closed, lives') = receive-closes (notify q) (g ∙ first q stages c) h (k ∙ c) in
      (r, e, closed, lives, lives' ∙ lives)

  closed_stop :
      (s : State p)
      → s.running.stage ≡ waiting_for_stop
      → s.signals.stop_closed ≡ true
      → s.signals.exit_code ≡ none
      → (t : State p) × Steps s t
        × (t.running.stage ≡ returned (ok tt))
        × (t.running.controller.sync ≡ s.running.controller.sync)
        × (t.signals.exit_code ≡ none)
  unfolding stop return_from_run
  closed_stop s e c lives = (
    on_running p (stop p) s,
    one_step (alive lives (stopped s e c)) (no_step (on_running p (stop p) s)),
    refl,
    refl,
    lives,
  )

  -- From every state that the program reaches while its workers run and in which it has not exited, one
  -- signal is enough: the program can go on to where Run has returned without an error, with nothing
  -- done for any job in between, and it has not exited on the way.
  pub shutdown_possible :
      (s : State p)
      → Reachable p s
      → s.running.stage ≡ waiting_for_stop
      → s.signals.exit_code ≡ none
      → (t : State p) × Steps s t
        × (t.running.stage ≡ returned (ok tt))
        × (t.running.controller.sync ≡ s.running.controller.sync)
        × (t.signals.exit_code ≡ none)
  shutdown_possible s h e lives = elim (Bool-cases s.signals.stop_closed) [
    | inl c ↦ closed_stop s e c lives
    | inr c ↦
        let (q, step, closed, lives', lives'') =
          closes s.signals (Reachable-Stages s.signals (signals-Reachable s h)) c in
        let s' : State p = record s { signals = notify s.signals } in
        let (t, steps, done, idle, out) =
          closed_stop (record s { signals = q }) e closed (lives'' ∙ lives) in
        (
          t,
          one_step (alive lives (notified s))
              (one_step (alive (lives' ∙ lives) (System.received s' step)) steps),
          done,
          idle,
          out,
        )
  ]
