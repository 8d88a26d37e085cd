-- ===== src/Signals/Shutdown.antt =====
-- What holds of the process whenever signals arrive.
use kubeflow_controller.Common.{ℕ, zero, suc, true, false, none, some, ◌≡◌, ◌⊎◌, refl, arith}
use kubeflow_controller.Common.Outcome.{ok}
use kubeflow_controller.Signals.{
  Goroutine, received, not_started, awaiting_first, awaiting_second, exited, Process, fresh,
  setup_signal_handler, notify, receive, Reachable, set_up, caught, runs,
}

abbrev pub Stages : Process → Type 0
Stages p =
    ((p.goroutine ≡ awaiting_first) × (p.stop_closed ≡ false) × (p.exit_code ≡ none))
    ⊎ ((p.goroutine ≡ awaiting_second) × (p.stop_closed ≡ true) × (p.exit_code ≡ none))
    ⊎ ((p.goroutine ≡ exited) × (p.stop_closed ≡ true) × (p.exit_code ≡ some 1))

setup-Stages : (p : Process) → setup_signal_handler fresh ≡ ok p → Stages p
unfolding setup_signal_handler
setup-Stages p e = ground arith

notify-Stages : (p : Process) → Stages p → Stages (notify p)
unfolding notify
notify-Stages p h = ground arith

receive-Stages : (p q : Process) → Stages p → receive p ≡ ok q → Stages q
unfolding receive
receive-Stages p q h e = ground arith

pub Reachable-Stages : (p : Process) → Reachable p → Stages p
Reachable-Stages p (set_up e) = setup-Stages p e
Reachable-Stages p (caught {p = q} r) = notify-Stages q (Reachable-Stages q r)
Reachable-Stages p (runs {p = q} r e) = receive-Stages q p (Reachable-Stages q r) e

received-ok :
    (g : Goroutine) (n : ℕ) (p : Process)
    → (g ≡ awaiting_first → p.stop_closed ≡ false)
    → (q : Process) × (received g n p ≡ ok q)
received-ok awaiting_first zero p h = (p, refl)
received-ok awaiting_first (suc n) p h =
    (record p { goroutine = awaiting_second; buffered = n; stop_closed = true }, rw (h refl) refl)
received-ok awaiting_second zero p h = (p, refl)
received-ok awaiting_second (suc n) p h =
    (record p { goroutine = exited; buffered = n; exit_code = some 1 }, refl)
received-ok not_started n p h = (p, refl)
received-ok exited n p h = (p, refl)

receives : (p : Process) → Stages p → (q : Process) × (receive p ≡ ok q)
unfolding receive
receives p h = received-ok p.goroutine p.buffered p (λ e. ground arith)

exits :
    (p : Process)
    → Stages p
    → (p.exit_code ≡ none) ⊎ ((p.exit_code ≡ some 1) × (p.stop_closed ≡ true))
exits p h = ground arith

-- However signals and the goroutine take turns, the goroutine never panics (stop is closed once), the
-- process exits only with code 1 and only when stop was closed before.
pub shutdown_once :
    (p : Process)
    → Reachable p
    → ((q : Process) × (receive p ≡ ok q))
      × ((p.exit_code ≡ none) ⊎ ((p.exit_code ≡ some 1) × (p.stop_closed ≡ true)))
shutdown_once p r = let stages = Reachable-Stages p r in (receives p stages, exits p stages)
