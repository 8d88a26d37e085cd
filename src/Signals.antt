-- ===== src/Signals.antt =====
-- pkg/util/signals: SetupSignalHandler, and the goroutine that it starts.
pub mod Shutdown
use kubeflow_controller.Common.{
  ℕ, zero, suc, ◌+◌, Bool, true, false, Option, none, some, ltb, if◌then◌else◌, ◌≡◌,
}
use kubeflow_controller.Common.Outcome.{Outcome, ok, panic, closed_channel}

-- Where the goroutine is: at its first receive, at its second, or past os.Exit.
pub data Goroutine : Type 0 where
  not_started awaiting_first awaiting_second exited : Goroutine

-- The channels onlyOneSignalHandler and stop are open or closed; `buffered` counts the signals in c.
pub record Process : Type 0 where
  pub goroutine : Goroutine
  pub only_one_signal_handler_closed : Bool
  pub stop_closed : Bool
  pub buffered : ℕ
  pub exit_code : Option ℕ

abbrev pub fresh : Process
fresh = record {
  goroutine = not_started;
  only_one_signal_handler_closed = false;
  stop_closed = false;
  buffered = 0;
  exit_code = none;
}

-- close(onlyOneSignalHandler) panics when called twice.
unfoldable pub setup_signal_handler : Process → Outcome Process
setup_signal_handler p =
    if p.only_one_signal_handler_closed
    then panic closed_channel
    else ok (record {
      goroutine = awaiting_first;
      only_one_signal_handler_closed = true;
      stop_closed = false;
      buffered = 0;
      exit_code = none;
    })

-- A signal is caught: c has room for two, and a signal that finds no room is dropped.
unfoldable pub notify : Process → Process
notify p = if ltb p.buffered 2 then record p { buffered = p.buffered + 1 } else p

-- close(stop)
abbrev close_stop : Process → Outcome Process
close_stop p = if p.stop_closed then panic closed_channel else ok (record p { stop_closed = true })

abbrev pub received : Goroutine → ℕ → Process → Outcome Process
received awaiting_first (suc n) p =
    close_stop (record p { goroutine = awaiting_second; buffered = n })
received awaiting_second (suc n) p =
    ok (record p { goroutine = exited; buffered = n; exit_code = some 1 })
received g n p = ok p

-- The goroutine takes the next signal, if one is there, and does what follows.
unfoldable pub receive : Process → Outcome Process
receive p = received p.goroutine p.buffered p

-- Signals and the goroutine, in any order, after the handler is set up.
pub data Reachable : Process → Type 0 where
  set_up : {p : Process} → setup_signal_handler fresh ≡ ok p → Reachable p
  caught : {p : Process} → Reachable p → Reachable (notify p)
  runs : {p q : Process} → Reachable p → receive p ≡ ok q → Reachable q
