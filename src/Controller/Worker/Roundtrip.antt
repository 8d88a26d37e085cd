-- ===== src/Controller/Worker/Roundtrip.antt =====
-- From an event about a job, through the queue, to the sync of that job.
use kubeflow_controller.Common.{String, false, some, ◌≡◌, ◌||◌, refl, ap, ◌∙◌, str_eq, if_false}
use kubeflow_controller.Common.Outcome.{Outcome, ok, fail, panic}
use kubeflow_controller.Api.{TfJob}
use kubeflow_controller.Platform.{Platform}
use kubeflow_controller.Platform.Queue.{Item, key}
use kubeflow_controller.Controller.Sync.{Controller, sync_handler, sync_key, sync_found, sync_job}
use kubeflow_controller.Controller.Handlers.{a_job, handle_object, enqueue_tf_job}
use kubeflow_controller.Controller.Wiring.{dispatch, job_added}
use kubeflow_controller.Controller.Worker.{
  process_item, process_got, settle, finish, process_next_work_item,
}

module _ (p : Platform) where
  open p use {machinery, cache, expectations, workqueue}

  -- What a round leaves beside the queue is what the sync left.
  round-leaves :
      (item : Item) (x : Outcome (Unit {0}) × Controller p)
      → let c = (finish p item (settle p item x)).1 in (c.sync ≡ x.1.sync) × (c.jobs ≡ x.1.jobs)
  round-leaves item (ok _, c) = (refl, refl)
  round-leaves item (fail e, c) = (refl, refl)
  round-leaves item (panic f, c) = (refl, refl)

  -- The key of a job leads its sync back to the job.
  module _ (job : TfJob) {k : String} where
    added-queue :
        (c : Controller p)
        → machinery.key_func job.metadata ≡ ok k
        → dispatch p (job_added (a_job job)) c
          ≡ record c { queue = workqueue.add_rate_limited (key k) c.queue }
    unfolding dispatch handle_object enqueue_tf_job
    added-queue c made = rw made refl

    key-synced :
        (c : Controller p)
        → machinery.split_key k ≡ ok (job.metadata.namespace, job.metadata.name)
        → (str_eq job.metadata.namespace "" || str_eq job.metadata.name "") ≡ false
        → cache.get job.metadata.namespace job.metadata.name c.jobs ≡ ok job
        → sync_handler p k c ≡ sync_found p k job.metadata.namespace job.metadata.name (ok job) c
    unfolding sync_handler sync_key
    key-synced c split named found =
        let namespace = job.metadata.namespace in
        let name = job.metadata.name in
        ap (λ r. sync_key p k r c) split
        ∙ if_false _ _ named
        ∙ ap (λ r. sync_found p k namespace name r c) found

    round-synced :
        {queue : workqueue.Queue} (c : Controller p)
        → workqueue.get c.queue ≡ (some (key k), queue)
        → process_next_work_item p c
          ≡ finish p (key k) (settle p (key k) (sync_handler p k (record c { queue = queue })))
    unfolding process_next_work_item process_got process_item
    round-synced c taken = ap (λ got. process_got p got.0 (record c { queue = got.1 })) taken

    -- An event about a job that is in the cache puts into the queue a key that leads back to that job: the
    -- round of a worker that takes the key syncs that very job, with the expectations under that key,
    -- and the job as the sync leaves it is then in the cache under its own name. The key must be the one
    -- that splits into the job's namespace and name, which are not empty, and the round must be the one
    -- that the queue hands the key to.
    pub event_syncs_job :
        {queue : workqueue.Queue} (c : Controller p)
        → machinery.key_func job.metadata ≡ ok k
        → machinery.split_key k ≡ ok (job.metadata.namespace, job.metadata.name)
        → (str_eq job.metadata.namespace "" || str_eq job.metadata.name "") ≡ false
        → cache.get job.metadata.namespace job.metadata.name c.jobs ≡ ok job
        → workqueue.get (workqueue.add_rate_limited (key k) c.queue) ≡ (some (key k), queue)
        → let (_, c') = process_next_work_item p (dispatch p (job_added (a_job job)) c) in
          let needs_sync = expectations.satisfied_expectations k c.sync.store in
          let (_, (job', s)) = sync_job p needs_sync (job, c.sync) in
          (c'.sync ≡ s) × (c'.jobs ≡ cache.put job.metadata.namespace job.metadata.name job' c.jobs)
    unfolding sync_found
    event_syncs_job {queue} c made split named found taken =
        let c0 : Controller p = record c { queue = workqueue.add_rate_limited (key k) c.queue } in
        let c1 : Controller p = record c { queue = queue } in
        let chain : process_next_work_item p (dispatch p (job_added (a_job job)) c)
            ≡ finish p (key k) (
                settle p (key k)
                  (sync_found p k job.metadata.namespace job.metadata.name (ok job) c1)) =
          ap (process_next_work_item p) (added-queue c made)
          ∙ round-synced c0 taken
          ∙ ap (λ x. finish p (key k) (settle p (key k) x)) (key-synced c1 split named found) in
        let (synced, jobs) =
          round-leaves (key k)
            (sync_found p k job.metadata.namespace job.metadata.name (ok job) c1) in
        (ap (λ x. x.1.sync) chain ∙ synced, ap (λ x. x.1.jobs) chain ∙ jobs)
