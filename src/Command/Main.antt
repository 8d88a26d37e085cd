-- ===== src/Command/Main.antt =====
-- When main runs the controller, and how it ends.
use kubeflow_controller.Common.{ℕ, false, [], ◌≡◌, ◌⊎◌, inl, inr, refl, arith, ap}
use mathlib.Core.Path.{subst}
use kubeflow_controller.Common.Outcome.{Outcome, Outcome-cases, ok, fail, panic, errorf}
use kubeflow_controller.Common.Outcome
use kubeflow_controller.Platform.{Platform}
use kubeflow_controller.Signals.{Process, setup_signal_handler}
use kubeflow_controller.Controller.Run.{returned}
use kubeflow_controller.Command.{Flags, Clients, runs, returns, fatal, run, main, after_run}
use kubeflow_controller.System.{State, Reachable}
use kubeflow_controller.System.Lifecycle.{IsRegular, Reachable-IsRegular}

-- main runs the controller only without the version flag, with two workers and the stop channel that the
-- signal handler made, and only if the configuration and both clients were made without an error.
pub main_runs :
    (clients : Clients) (flags : Flags) (process : Process) {n : ℕ} {q : Process}
    → main clients flags process ≡ runs n q
    → (flags.print_version ≡ false)
      × (n ≡ 2)
      × (setup_signal_handler process ≡ ok q)
      × ((config : clients.Config) × (clients.build_config_from_flags flags.master_url
              flags.kubeconfig
            ≡ ok config)
          × (clients.new_kube_client config ≡ ok tt)
          × (clients.new_tf_job_client config ≡ ok tt))
unfolding main run
main_runs clients flags process e = ground arith

module _ (p : Platform) where
  ends :
      (r : Outcome (Unit {0})) (s : State p)
      → IsRegular p (returned r) s
      → ((after_run r ≡ returns) × (s.running.workers ≡ 2))
        ⊎ ((after_run r ≡ fatal (errorf Outcome.caches_not_synced))
            × (s.running.controller.sync.session.calls ≡ []))
  unfolding after_run
  ends (ok _) s (workers, closed) = inl (refl, workers)
  ends (fail e) s (workers, none_made, closed, q) = inr (ap fatal q, none_made)
  ends (panic f) s h = absurd h

  -- When Run has returned, main returns and two workers were started, or it ends by Fatalf with the
  -- error that the caches never synced, and then the program has made no request at all.
  pub run_ends :
      (s : State p) {r : Outcome (Unit {0})}
      → Reachable p s
      → s.running.stage ≡ returned r
      → ((after_run r ≡ returns) × (s.running.workers ≡ 2))
        ⊎ ((after_run r ≡ fatal (errorf Outcome.caches_not_synced))
            × (s.running.controller.sync.session.calls ≡ []))
  run_ends s {r} h e = ends r s (subst (λ stage. IsRegular p stage s) e (Reachable-IsRegular p s h))
