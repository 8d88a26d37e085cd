-- ===== src/System.antt =====
-- The running program: the controller's Run with its workers, the informers that call its handlers, the
-- signals, and a cluster that others change too. A round of a worker is one step: the queue does not
-- hand out a key twice at a time, and what two workers do for different jobs is taken one after the
-- other. A queue's Get that blocks is a round that is not taken. After os.Exit no step is taken.
pub mod Lifecycle
pub mod Requests
pub mod Shutdown
use kubeflow_controller.Common.{ℕ, Bool, true, false, none, ◌≡◌}
use kubeflow_controller.Common.Outcome.{Outcome, ok}
use kubeflow_controller.Platform.{Platform, Sync}
use kubeflow_controller.Platform.Cluster.{Session}
use kubeflow_controller.Controller.Sync.{Controller}
use kubeflow_controller.Controller.Wiring.{Notification, dispatch, new_controller}
use kubeflow_controller.Controller.Run.{
  Running, Stage, waiting_for_caches, waiting_for_stop, start_workers, work, stop,
}
use kubeflow_controller.Signals.{Process, fresh, setup_signal_handler, notify, receive}

-- The workers that main asks Run for.
abbrev pub threadiness : ℕ
threadiness = 2

module _ (p : Platform) where
  pub record State : Type 0 where
    pub signals : Process
    pub running : Running p

module _ (p : Platform) where
  open p use {cluster, names, cache, workqueue}

  abbrev pub on_running : (Running p → Running p) → State p → State p
  on_running f s = record s { running = f s.running }

  abbrev pub on_controller : (Controller p → Controller p) → State p → State p
  on_controller f = on_running (λ r. record r { controller = f r.controller })

  -- The world that the API server and the informers' lists show.
  abbrev pub with_world : cluster.World → Controller p → Controller p
  with_world world c = record c {
    sync = record c.sync { session = record c.sync.session { world = world } };
  }

  -- run of main.go hands the new controller to Run.
  unfoldable pub start : Process → cluster.World → names.Gen → cache.Cache → State p
  unfolding new_controller
  start process world gen jobs = record {
    signals = process;
    running = record {
      stage = waiting_for_caches;
      workers = 0;
      controller = new_controller p world gen jobs;
    };
  }

  -- What may happen next while the process lives.
  pub data Change : State p → State p → Type 0 where
    notified : (s : State p) → Change s (record s { signals = notify s.signals })
    received :
        (s : State p) {q : Process} → receive s.signals ≡ ok q → Change s (record s { signals = q })
    told : (n : Notification) (s : State p) → Change s (on_controller (dispatch p n) s)
    -- the cache, the cluster and the items that were added with a delay
    cached :
        (jobs : cache.Cache) (s : State p)
        → Change s (on_controller (λ c. record c { jobs = jobs }) s)
    changed : (world : cluster.World) (s : State p) → Change s (on_controller (with_world world) s)
    queued :
        (queue : workqueue.Queue) (s : State p)
        → Change s (on_controller (λ c. record c { queue = queue }) s)
    caches_synced :
        (s : State p)
        → s.running.stage ≡ waiting_for_caches
        → Change s (on_running (start_workers p threadiness true) s)
    caches_not_synced :
        (s : State p)
        → s.running.stage ≡ waiting_for_caches
        → s.signals.stop_closed ≡ true
        → Change s (on_running (start_workers p threadiness false) s)
    worked : (s : State p) → s.running.stage ≡ waiting_for_stop → Change s (on_running (work p) s)
    stopped :
        (s : State p)
        → s.running.stage ≡ waiting_for_stop
        → s.signals.stop_closed ≡ true
        → Change s (on_running (stop p) s)

  -- The process lives until os.Exit.
  pub data Step : State p → State p → Type 0 where
    alive : {s t : State p} → s.signals.exit_code ≡ none → Change s t → Step s t

  pub data Reachable : State p → Type 0 where
    started :
        {process : Process} (world : cluster.World) (gen : names.Gen) (jobs : cache.Cache)
        → setup_signal_handler fresh ≡ ok process
        → Reachable (start process world gen jobs)
    next : {s t : State p} → Reachable s → Step s t → Reachable t
