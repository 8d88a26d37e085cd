-- ===== src/Controller/Run.antt =====
-- Run of pkg/controller/controller.go, and the goroutines that it starts.
use kubeflow_controller.Common.{ℕ, Bool, if◌then◌else◌}
use kubeflow_controller.Common.Outcome.{Outcome, ok, fail, panic, Fault, errorf, caches_not_synced}
use kubeflow_controller.Platform.{Platform}
use kubeflow_controller.Controller.Sync.{Controller}
use kubeflow_controller.Controller.Worker.{process_next_work_item}

-- Where Run is: at WaitForCacheSync, at the receive from stopCh, or past its return. A panic of a
-- worker, which wait.Until reports and raises again, ends the process.
pub data Stage : Type 0 where
  waiting_for_caches waiting_for_stop : Stage
  returned : Outcome (Unit {0}) → Stage
  crashed : Fault → Stage

module _ (p : Platform) where
  -- `workers` counts the goroutines that run runWorker.
  pub record Running : Type 0 where
    pub stage : Stage
    pub workers : ℕ
    pub controller : Controller p

module _ (p : Platform) where
  open p use {workqueue}

  -- The return, with the deferred ShutDown of the queue.
  unfoldable pub return_from_run : Outcome (Unit {0}) → Running p → Running p
  return_from_run r s = record s {
    stage = returned r;
    controller = record s.controller { queue = workqueue.shut_down s.controller.queue };
  }

  -- What follows WaitForCacheSync: its answer is whether the caches have synced.
  unfoldable pub start_workers : ℕ → Bool → Running p → Running p
  unfolding return_from_run
  start_workers threadiness synced s =
      if synced
      then record s { stage = waiting_for_stop; workers = threadiness }
      else return_from_run (fail (errorf caches_not_synced)) s

  -- What follows the receive from stopCh.
  unfoldable pub stop : Running p → Running p
  unfolding return_from_run
  stop s = return_from_run (ok tt) s

  unfoldable pub after_round : Outcome Bool × Controller p → Running p → Running p
  after_round (ok _, c) s = record s { controller = c }
  after_round (fail e, c) s = record s { controller = c }
  after_round (panic f, c) s = record s { stage = crashed f; controller = c }

  -- A round of a worker's loop.
  unfoldable pub work : Running p → Running p
  unfolding after_round process_next_work_item
  work s = after_round (process_next_work_item p s.controller) s
