-- ===== src/Command.antt =====
-- cmd/controller/main.go: the flags, and what is set up before the controller runs. Logging is left out.
pub mod Main
use kubeflow_controller.Common.{ℕ, String, Bool, true, false, if◌then◌else◌}
use kubeflow_controller.Common.Outcome.{Outcome, ok, fail, panic, Err, Fault}
use kubeflow_controller.Signals.{Process, setup_signal_handler}

-- The package's variables, which flag.Parse writes.
pub record Flags : Type 0 where
  pub kubeconfig : String
  pub master_url : String
  pub print_version : Bool

-- Their defaults.
abbrev pub default_flags : Flags
default_flags = record { kubeconfig = ""; master_url = ""; print_version = false }

-- BuildConfigFromFlags of client-go, and NewForConfig of both clientsets. The clients are part of what
-- the controller is built from.
pub record Clients : Type 1 where
  pub Config : Type 0
  pub build_config_from_flags : String → String → Outcome Config
  pub new_kube_client : Config → Outcome (Unit {0})
  pub new_tf_job_client : Config → Outcome (Unit {0})

-- What main comes to: os.Exit with a code, glog.Fatalf with an error, a panic, the return, or the
-- controller's Run with a number of workers and the stop channel of a process.
pub data Course : Type 0 where
  exits : ℕ → Course
  fatal : Err → Course
  panics : Fault → Course
  returns : Course
  runs : ℕ → Process → Course

-- if err != nil { glog.Fatalf(...) }
abbrev or_fatal : {A : Type 0} → Outcome A → (A → Course) → Course
or_fatal (ok a) f = f a
or_fatal (fail e) f = fatal e
or_fatal (panic x) f = panics x

module _ (clients : Clients) where
  open clients use {Config, build_config_from_flags, new_kube_client, new_tf_job_client}

  -- run, up to the controller's Run.
  unfoldable pub run : Flags → Process → Course
  unfolding setup_signal_handler
  run flags process = or_fatal (setup_signal_handler process) λ process'.
      or_fatal (build_config_from_flags flags.master_url flags.kubeconfig) λ config.
        or_fatal (new_kube_client config)
          λ _. or_fatal (new_tf_job_client config) λ _. runs 2 process'

  unfoldable pub main : Flags → Process → Course
  unfolding run
  main flags process = if flags.print_version then exits 0 else run flags process

-- The end of run, and with it of main: what Run returned.
unfoldable pub after_run : Outcome (Unit {0}) → Course
after_run r = or_fatal r λ _. returns
