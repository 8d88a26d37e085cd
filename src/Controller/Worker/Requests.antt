-- ===== src/Controller/Worker/Requests.antt =====
-- The requests of a worker's round are for the job of the key that it took.
use kubeflow_controller.Common.{Option, none, some, List, ◌++◌, ◌≡◌, refl, All}
use kubeflow_controller.Common.Outcome.{Outcome, ok, fail, panic}
use kubeflow_controller.Platform.{Platform}
use kubeflow_controller.Platform.Cluster.{Call, ClusterLaws}
use kubeflow_controller.Platform.Queue.{Item, key, not_a_string}
use kubeflow_controller.Platform.Requests.{Added, Added-none}
use kubeflow_controller.Controller.Sync.{Controller, sync_handler}
use kubeflow_controller.Controller.Sync.Requests.{IsForKey, sync_handler-requests}
use kubeflow_controller.Controller.Worker.{
  process_item, process_got, settle, finish, process_next_work_item,
}

module _ (p : Platform) where
  open p use {cluster, workqueue, cache, expectations}

  abbrev calls : Controller p → List Call
  calls c = c.sync.session.calls

  settle-calls :
      (item : Item) (x : Outcome (Unit {0}) × Controller p) → calls (settle p item x).1 ≡ calls x.1
  settle-calls item (ok _, c) = refl
  settle-calls item (fail e, c) = refl
  settle-calls item (panic f, c) = refl

  finish-calls :
      (item : Item) (x : Outcome (Unit {0}) × Controller p) → calls (finish p item x).1 ≡ calls x.1
  finish-calls item (ok _, c) = refl
  finish-calls item (fail e, c) = refl
  finish-calls item (panic f, c) = refl

  -- A request of a round that took this item.
  abbrev pub IsForItem : Option Item → cache.Cache → expectations.Store → Call → Type 0
  IsForItem (some (key k)) jobs store call = IsForKey p k jobs store call
  IsForItem (some not_a_string) jobs store call = ⊥
  IsForItem none jobs store call = ⊥

  item-requests :
      ClusterLaws cluster
      → (item : Item) (c : Controller p)
      → Added
          (IsForItem (some item) c.jobs c.sync.store)
          (calls c)
          (calls (process_item p item c).1)
  unfolding process_item
  item-requests laws (key k) c =
      rw (settle-calls (key k) (sync_handler p k c)) (sync_handler-requests p laws k c)
  item-requests laws not_a_string c =
      Added-none (IsForItem (some not_a_string) c.jobs c.sync.store) (calls c)

  got-requests :
      ClusterLaws cluster
      → (got : Option Item) (c : Controller p)
      → Added (IsForItem got c.jobs c.sync.store) (calls c) (calls (process_got p got c).1)
  unfolding process_got
  got-requests laws none c = Added-none (IsForItem none c.jobs c.sync.store) (calls c)
  got-requests laws (some item) c =
      rw (finish-calls item (process_item p item c)) (item-requests laws item c)

  -- A round of a worker makes requests only for the job that the cache has under the key that the round
  -- took from the queue, the patches of pods included: in the job's namespace, pods with its
  -- controllerRef, services with its name among the labels that they have and select, patches that adopt
  -- an object for it or release one from it, updates of it; beside them events. Pods and services are
  -- made only if that key's expectations are met and the job is not being deleted; a round that takes no
  -- key makes no request. Pods and services listed for a namespace must be in it, and ClaimPods only
  -- adopts and releases pods that it is given.
  pub process_next_work_item-requests :
      ClusterLaws cluster
      → (c : Controller p)
      → (new : List Call) × ((process_next_work_item p c).1.sync.session.calls
          ≡ c.sync.session.calls ++ new)
        × All (IsForItem (workqueue.get c.queue).0 c.jobs c.sync.store) new
  unfolding process_next_work_item
  process_next_work_item-requests laws c =
      got-requests laws (workqueue.get c.queue).0 (record c { queue = (workqueue.get c.queue).1 })
