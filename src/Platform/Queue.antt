-- ===== src/Platform/Queue.antt =====
-- workqueue.RateLimitingInterface, and the cache behind listers.TFJobLister.
use kubeflow_controller.Common.{ℕ, ◌<◌, ◌≤◌, String, Option, some, ◌≡◌, ◌≢◌, ◌⊎◌}
use kubeflow_controller.Common.Outcome.{Outcome}
use kubeflow_controller.Api.{TfJob}

-- An item of the queue, an interface{}: a string or something else.
pub data Item : Type 0 where
  key : String → Item
  not_a_string : Item

-- `get` gives no item when the queue is shutting down.
pub record WorkQueue : Type 1 where
  pub Queue : Type 0
  -- NewNamedRateLimitingQueue(...)
  pub new : Queue
  pub get : Queue → Option Item × Queue
  pub done : Item → Queue → Queue
  pub forget : Item → Queue → Queue
  pub add_rate_limited : Item → Queue → Queue
  pub shut_down : Queue → Queue

-- `get` is TFJobs(namespace).Get(name); `put` is what a write through the pointer that it returned
-- leaves in the cache.
pub record JobCache : Type 1 where
  pub Cache : Type 0
  pub get : String → String → Cache → Outcome TfJob
  pub put : String → String → TfJob → Cache → Cache

-- Documented behaviour of a queue that is shutting down: what is left in it is handed out, and an item
-- that is handed out has left the queue. `size` counts what is left.
pub record DrainingLaws (w : WorkQueue) : Type 0 where
  pub size : w.Queue → ℕ
  pub size-get :
      (q : w.Queue) {item : Item} {q' : w.Queue} → w.get q ≡ (some item, q') → size q' < size q
  pub size-done : (item : Item) (q : w.Queue) → size (w.done item q) ≤ size q
  pub size-forget : (item : Item) (q : w.Queue) → size (w.forget item q) ≤ size q

-- What is written through a pointer to one job changes no other job of the cache.
pub record CacheLaws (c : JobCache) : Type 0 where
  pub get-put_other :
      (namespace name namespace' name' : String) (job : TfJob) (jobs : c.Cache)
      → (namespace ≢ namespace') ⊎ (name ≢ name')
      → c.get namespace' name' (c.put namespace name job jobs) ≡ c.get namespace' name' jobs
