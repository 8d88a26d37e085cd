-- ===== src/Controller/Handlers.antt =====
-- The event handlers of pkg/controller/controller.go. They read the cache of jobs, lower
-- expectations and add keys to the work queue.
pub mod Observed
pub mod Enqueued
use kubeflow_controller.Common.{
  String, Bool, true, false, Option, none, some, str_eq, not, ◌&&◌, if◌then◌else◌,
}
use kubeflow_controller.Common.Outcome.{Outcome, ok, fail, panic}
use kubeflow_controller.Api.{ObjectMeta, OwnerReference, Pod, Service, TfJob}
use kubeflow_controller.Platform.{Platform, Sync}
use kubeflow_controller.Platform.Queue.{key}
use kubeflow_controller.Controller.Util.{group_kind}
use kubeflow_controller.Controller.Sync.{Controller}

-- reflect.DeepEqual of two controllerRefs
same_flag : Option Bool → Option Bool → Bool
same_flag none none = true
same_flag none (some _) = false
same_flag (some _) none = false
same_flag (some a) (some b) = if a then b else not b

same_owner : OwnerReference → OwnerReference → Bool
unfolding same_flag
same_owner a b =
    str_eq a.api_version b.api_version
    && str_eq a.kind b.kind
    && str_eq a.name b.name
    && str_eq a.uid b.uid
    && same_flag a.controller b.controller
    && same_flag a.block_owner_deletion b.block_owner_deletion

unfoldable pub same_ref : Option OwnerReference → Option OwnerReference → Bool
unfolding same_owner
same_ref none none = true
same_ref none (some _) = false
same_ref (some _) none = false
same_ref (some a) (some b) = same_owner a b

-- What a job's informer hands over: a job, or the tombstone of one whose deletion was missed.
pub data Watched : Type 0 where
  a_job : TfJob → Watched
  deleted_final_state_unknown : Watched

module _ (p : Platform) where
  open p use {machinery, cache, expectations, workqueue}

  -- The lister's job, if its UID is the reference's.
  checked : OwnerReference → Outcome TfJob → Option TfJob
  checked ref (ok job) = if not (str_eq job.metadata.uid ref.uid) then none else some job
  checked ref (fail e) = none
  checked ref (panic f) = none

  unfoldable pub resolve_controller_ref : String → OwnerReference → cache.Cache → Option TfJob
  unfolding checked
  resolve_controller_ref namespace ref jobs =
      if not (str_eq ref.kind group_kind)
      then none
      else checked ref (cache.get namespace ref.name jobs)

  add_key : Outcome String → Controller p → Controller p
  add_key (ok k) c = record c { queue = workqueue.add_rate_limited (key k) c.queue }
  add_key (fail e) c = c
  add_key (panic f) c = c

  unfoldable pub enqueue_tf_job : TfJob → Controller p → Controller p
  unfolding add_key
  enqueue_tf_job job c = add_key (machinery.key_func job.metadata) c

  -- A tombstone has no metadata, so that no key is found for it.
  unfoldable pub handle_object : Watched → Controller p → Controller p
  unfolding enqueue_tf_job
  handle_object (a_job job) c = enqueue_tf_job job c
  handle_object deleted_final_state_unknown c = c

  -- The UpdateFunc of the jobs' informer.
  unfoldable pub update_tf_job : TfJob → TfJob → Controller p → Controller p
  unfolding handle_object
  update_tf_job old new c =
      if str_eq new.metadata.resource_version old.metadata.resource_version
      then c
      else handle_object (a_job new) c

  abbrev lower : String → Controller p → Controller p
  lower k c = record c {
    sync = record c.sync { store = expectations.creation_observed k c.sync.store };
  }

  observe_key : TfJob → Outcome String → Controller p → Controller p
  unfolding enqueue_tf_job
  observe_key job (ok k) c = enqueue_tf_job job (lower k c)
  observe_key job (fail e) c = c
  observe_key job (panic f) c = c

  observe_job : Option TfJob → Controller p → Controller p
  unfolding observe_key
  observe_job none c = c
  observe_job (some job) c = observe_key job (machinery.key_func job.metadata) c

  -- A pod or a service was added: its job, if any, has one creation less to wait for.
  unfoldable pub observe_object : ObjectMeta → Controller p → Controller p
  unfolding observe_job resolve_controller_ref
  observe_object meta c = elim (machinery.get_controller_of meta) [
    | none ↦ c
    | some ref ↦ observe_job (resolve_controller_ref meta.namespace ref c.jobs) c
  ]

  unfoldable pub add_pod : Pod → Controller p → Controller p
  unfolding observe_object
  add_pod pod c = observe_object pod.metadata c

  unfoldable pub add_service : Service → Controller p → Controller p
  unfolding observe_object
  add_service service c = observe_object service.metadata c

  enqueue_found : Option TfJob → Controller p → Controller p
  unfolding enqueue_tf_job
  enqueue_found none c = c
  enqueue_found (some job) c = enqueue_tf_job job c

  -- The job of a controllerRef is enqueued, if there is one.
  unfoldable pub enqueue_ref : String → Option OwnerReference → Controller p → Controller p
  unfolding enqueue_found resolve_controller_ref
  enqueue_ref namespace none c = c
  enqueue_ref namespace (some ref) c = enqueue_found (resolve_controller_ref namespace ref c.jobs) c

  -- A pod or a service was updated: the old controller is enqueued if it changed, then the new one.
  unfoldable pub update_object : ObjectMeta → ObjectMeta → Controller p → Controller p
  unfolding same_ref enqueue_ref
  update_object old cur c =
      let old_ref = machinery.get_controller_of old in
      let cur_ref = machinery.get_controller_of cur in
      if str_eq cur.resource_version old.resource_version
      then c
      else if not (same_ref cur_ref old_ref)
      then enqueue_ref cur.namespace cur_ref (enqueue_ref old.namespace old_ref c)
      else enqueue_ref cur.namespace cur_ref c

  unfoldable pub update_pod : Pod → Pod → Controller p → Controller p
  unfolding update_object
  update_pod old cur c = update_object old.metadata cur.metadata c

  unfoldable pub update_service : Service → Service → Controller p → Controller p
  unfolding update_object
  update_service old cur c = update_object old.metadata cur.metadata c

  -- Not implemented in the source.
  unfoldable pub delete_pod : Pod → Controller p → Controller p
  delete_pod pod c = c

  unfoldable pub delete_service : Service → Controller p → Controller p
  delete_service service c = c
