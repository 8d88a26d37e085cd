-- ===== src/Controller/Sync/Isolated.antt =====
-- The syncs of two keys do not disturb one another.
use kubeflow_controller.Common.{
  String, Bool, true, false, ◌≡◌, ◌≢◌, ◌⊎◌, refl, ◌∙◌, if_false, str_eq, ◌||◌, if◌then◌else◌,
}
use kubeflow_controller.Common.Outcome.{Outcome, ok, fail, panic, errorf, invalid_job_key}
use kubeflow_controller.Api.{TfJob}
use kubeflow_controller.Platform.{Platform}
use kubeflow_controller.Platform.Expectations.{ExpectationsLaws}
use kubeflow_controller.Platform.Queue.{CacheLaws}
use kubeflow_controller.Controller.Sync.{Controller, sync_job, sync_found, sync_key, sync_handler}
use kubeflow_controller.Controller.Sync.Apart.{sync_job-Sparing}

module _ (p : Platform) (laws : ExpectationsLaws p.expectations) (cache_laws : CacheLaws p.cache)
    (key other namespace' name' : String) (apart : str_eq key other ≡ false) where
  open p use {machinery, expectations, cache}

  -- The other key waits for the same, its job is the same in the cache, and the queue is the same.
  abbrev pub Undisturbed : Controller p → Controller p → Type 0
  Undisturbed c c' =
      (expectations.pending other c'.sync.store ≡ expectations.pending other c.sync.store)
      × (cache.get namespace' name' c'.jobs ≡ cache.get namespace' name' c.jobs)
      × (c'.queue ≡ c.queue)

  module _ (c : Controller p) where
    either_way :
        (b : Bool) (x y : Outcome (Unit {0}) × Controller p)
        → Undisturbed c x.1
        → Undisturbed c y.1
        → Undisturbed c (if b then x else y).1
    either_way true x y h k = h
    either_way false x y h k = k

    sync_found-Undisturbed :
        (namespace name : String) (r : Outcome TfJob)
        → ((namespace ≢ namespace') ⊎ (name ≢ name'))
        → ((job : TfJob) → r ≡ ok job → machinery.key_func job.metadata ≡ ok key)
        → Undisturbed c (sync_found p key namespace name r c).1
    unfolding sync_found
    sync_found-Undisturbed namespace name (ok job) elsewhere own =
        let needs_sync = expectations.satisfied_expectations key c.sync.store in
        let end = sync_job p needs_sync (job, c.sync) in
        (
          ((sync_job-Sparing p other laws key apart needs_sync).apply (job, c.sync)
              (own job refl)).1,
          cache_laws.get-put_other namespace name namespace' name' end.1.0 c.jobs elsewhere,
          refl,
        )
    sync_found-Undisturbed namespace name (fail e) elsewhere own =
        either_way (machinery.is_not_found e)
          (
            ok tt,
            record c {
              sync = record c.sync { store = expectations.delete_expectations key c.sync.store };
            },
          )
          (fail e, c) (laws.pending-delete key other c.sync.store ∙ if_false _ _ apart, refl, refl)
          (refl, refl, refl)
    sync_found-Undisturbed namespace name (panic f) elsewhere own = (refl, refl, refl)

    sync_key-Undisturbed :
        (r : Outcome (String × String))
        → ((namespace name : String)
            → r ≡ ok (namespace, name)
            → (namespace ≢ namespace') ⊎ (name ≢ name'))
        → ((namespace name : String) (job : TfJob)
            → r ≡ ok (namespace, name)
            → cache.get namespace name c.jobs ≡ ok job
            → machinery.key_func job.metadata ≡ ok key)
        → Undisturbed c (sync_key p key r c).1
    unfolding sync_key
    sync_key-Undisturbed (ok (namespace, name)) elsewhere own =
        either_way (str_eq namespace "" || str_eq name "") (fail (errorf invalid_job_key), c)
          (sync_found p key namespace name (cache.get namespace name c.jobs) c) (refl, refl, refl)
          (sync_found-Undisturbed namespace name (cache.get namespace name c.jobs)
            (elsewhere namespace name refl) (λ job e. own namespace name job refl e))
    sync_key-Undisturbed (fail e) elsewhere own = (refl, refl, refl)
    sync_key-Undisturbed (panic f) elsewhere own = (refl, refl, refl)

-- The sync of a key, however it ends, leaves what any other key waits for, the job that the cache has
-- under any other name, and the queue as they were. The job that the cache has under the key must have
-- that key, and what is written into one job of the cache changes no other.
pub sync_handler-isolated :
    (p : Platform) (key other namespace' name' : String) (c : Controller p)
    → ExpectationsLaws p.expectations
    → CacheLaws p.cache
    → str_eq key other ≡ false
    → ((namespace name : String)
        → p.machinery.split_key key ≡ ok (namespace, name)
        → (namespace ≢ namespace') ⊎ (name ≢ name'))
    → ((namespace name : String) (job : TfJob)
        → p.machinery.split_key key ≡ ok (namespace, name)
        → p.cache.get namespace name c.jobs ≡ ok job
        → p.machinery.key_func job.metadata ≡ ok key)
    → let (_, c') = sync_handler p key c in
      (p.expectations.pending other c'.sync.store ≡ p.expectations.pending other c.sync.store)
      × (p.cache.get namespace' name' c'.jobs ≡ p.cache.get namespace' name' c.jobs)
      × (c'.queue ≡ c.queue)
unfolding sync_handler
sync_handler-isolated p key other namespace' name' c laws cache_laws apart elsewhere own =
    sync_key-Undisturbed p laws cache_laws key other namespace' name' apart c
      (p.machinery.split_key key) elsewhere own
