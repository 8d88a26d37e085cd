-- ===== src/Controller/Worker/Queue.antt =====
-- What becomes of an item of the work queue.
use kubeflow_controller.Common.{
  String, Bool, true, false, some, ◌≡◌, refl, arith, if◌then◌else◌, ap, ◌∙◌,
}
use kubeflow_controller.Common.Outcome.{Outcome, ok, fail, panic}
use kubeflow_controller.Platform.{Platform}
use kubeflow_controller.Platform.Queue.{Item, key}
use kubeflow_controller.Controller.Sync.{Controller, sync_handler, sync_found}
use kubeflow_controller.Controller.Worker.{
  process_item, process_got, settle, finish, process_next_work_item,
}

module _ (p : Platform) where
  open p use {machinery, cache, workqueue}

  -- A sync does not touch the queue.
  pub sync_handler-queue : (k : String) (c : Controller p) → (sync_handler p k c).1.queue ≡ c.queue
  unfolding sync_handler sync_found
  sync_handler-queue k c = ground arith

  abbrev pub succeeded : Outcome (Unit {0}) → Bool
  succeeded (ok _) = true
  succeeded (fail _) = false
  succeeded (panic _) = false

  settled-queue :
      (item : Item) (x : Outcome (Unit {0}) × Controller p)
      → (finish p item (settle p item x)).1.queue
        ≡ workqueue.done item (if succeeded x.0 then workqueue.forget item x.1.queue else x.1.queue)
  settled-queue item (ok _, c) = refl
  settled-queue item (fail e, c) = refl
  settled-queue item (panic f, c) = refl

  -- However the sync of a key ends, the key is marked as done; it is forgotten if and only if the
  -- sync succeeded; and it is in no case added to the queue again, not even after an error.
  pub process_next_work_item-queue :
      (k : String) {queue : workqueue.Queue} (c : Controller p)
      → workqueue.get c.queue ≡ (some (key k), queue)
      → let (_, c') = process_next_work_item p c in
        let (r, _) = sync_handler p k (record c { queue = queue }) in
        c'.queue
        ≡ workqueue.done (key k) (if succeeded r then workqueue.forget (key k) queue else queue)
  unfolding process_next_work_item process_got process_item
  process_next_work_item-queue k {queue = queue} c h =
      let c0 : Controller p = record c { queue = queue } in
      let synced = sync_handler p k c0 in
      ap (λ got. (process_got p got.0 (record c { queue = got.1 })).1.queue) h
      ∙ settled-queue (key k) synced
      ∙ ap
          (λ q.
            workqueue.done (key k) (if succeeded synced.0 then workqueue.forget (key k) q else q))
          (sync_handler-queue k c0)
