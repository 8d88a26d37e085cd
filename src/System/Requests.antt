-- ===== src/System/Requests.antt =====
-- The requests of the whole program.
use kubeflow_controller.Common.{◌≡◌}
use kubeflow_controller.Common.Outcome.{Outcome}
use kubeflow_controller.Platform.{Platform}
use kubeflow_controller.Platform.Cluster.{Call}
use kubeflow_controller.Controller.Sync.{Controller}
use kubeflow_controller.Controller.Worker.Requests.{IsForItem}
use kubeflow_controller.Controller.Run.{waiting_for_stop}
use kubeflow_controller.System.{State, Reachable}

module _ (p : Platform) where
  open p use {cluster, workqueue}

  -- A request of a round that the program has come to: it is for the job that the cache then has under
  -- the key that the round takes.
  abbrev pub IsForReached : Call → Type 0
  IsForReached call =
      (r : State p) × Reachable p r
      × (r.running.stage ≡ waiting_for_stop)
      × (let c = r.running.controller in
          IsForItem p (workqueue.get c.queue).0 c.jobs c.sync.store call)
