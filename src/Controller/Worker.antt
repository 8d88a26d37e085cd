-- ===== src/Controller/Worker.antt =====
-- processNextWorkItem and runWorker of pkg/controller/controller.go
pub mod Queue
pub mod Drain
pub mod Requests
pub mod Roundtrip
use kubeflow_controller.Common.{
  ℕ, zero, suc, ℕ, zero, suc, String, Bool, true, false, Option, none, some,
}
use kubeflow_controller.Common.Outcome.{Outcome, ok, fail, panic, errorf, sync_failed}
use kubeflow_controller.Common.Go.{Go}
use kubeflow_controller.Platform.{Platform}
use kubeflow_controller.Platform.Queue.{Item, key, not_a_string}
use kubeflow_controller.Controller.Sync.{Controller, sync_handler}

module _ (p : Platform) where
  open p use {workqueue}

  abbrev on_queue : (workqueue.Queue → workqueue.Queue) → Controller p → Controller p
  on_queue f c = record c { queue = f c.queue }

  -- The item is forgotten if the sync succeeded; an error is wrapped.
  abbrev pub settle : Item → Outcome (Unit {0}) × Controller p → Outcome (Unit {0}) × Controller p
  settle item (ok _, c) = (ok tt, on_queue (workqueue.forget item) c)
  settle item (fail e, c) = (fail (errorf sync_failed), c)
  settle item (panic f, c) = (panic f, c)

  -- The function literal that processNextWorkItem calls, but for its deferred Done.
  unfoldable pub process_item : Item → Go (Controller p) (Unit {0})
  unfolding sync_handler
  process_item (key k) c = settle (key k) (sync_handler p k c)
  process_item not_a_string c = (ok tt, on_queue (workqueue.forget not_a_string) c)

  -- Done is deferred: it is called however the item ended. An error is handled, that is, logged.
  abbrev pub finish : Item → Outcome (Unit {0}) × Controller p → Outcome Bool × Controller p
  finish item (ok _, c) = (ok true, on_queue (workqueue.done item) c)
  finish item (fail e, c) = (ok true, on_queue (workqueue.done item) c)
  finish item (panic f, c) = (panic f, on_queue (workqueue.done item) c)

  unfoldable pub process_got : Option Item → Go (Controller p) Bool
  unfolding process_item
  process_got none c = (ok false, c)
  process_got (some item) c = finish item (process_item item c)

  unfoldable pub process_next_work_item : Go (Controller p) Bool
  unfolding process_got
  process_next_work_item c =
      let (got, queue) = workqueue.get c.queue in process_got got (record c { queue = queue })

  abbrev again : Go (Controller p) Bool → Outcome Bool × Controller p → Outcome Bool × Controller p
  again rest (ok true, c) = rest c
  again rest (ok false, c) = (ok false, c)
  again rest (fail e, c) = (fail e, c)
  again rest (panic f, c) = (panic f, c)

  -- Some rounds of runWorker's loop: the answer is whether it would go on.
  unfoldable pub run_worker : ℕ → Go (Controller p) Bool
  unfolding process_next_work_item
  run_worker zero c = (ok true, c)
  run_worker (suc n) c = again (run_worker n) (process_next_work_item c)
