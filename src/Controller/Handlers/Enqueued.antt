-- ===== src/Controller/Handlers/Enqueued.antt =====
-- The keys that the update handlers of pods and services put into the queue.
use kubeflow_controller.Common.{
  String, Option, none, some, List, [], ◌∷◌, ◌++◌, ◌≡◌, refl, arith, inl, inr, str_eq,
  if◌then◌else◌, Bool-cases,
}
use kubeflow_controller.Common.Outcome.{Outcome, ok, fail, panic}
use kubeflow_controller.Api.{ObjectMeta, OwnerReference, Pod, TfJob}
use kubeflow_controller.Platform.{Platform}
use kubeflow_controller.Platform.Queue.{key}
use kubeflow_controller.Controller.Sync.{Controller}
use kubeflow_controller.Controller.Handlers.{
  resolve_controller_ref, enqueue_tf_job, enqueue_ref, update_object, update_pod, same_ref,
}

module _ (p : Platform) where
  open p use {machinery, cache, workqueue}

  abbrev key_of : Outcome String → List String
  key_of (ok k) = k ∷ []
  key_of (fail e) = []
  key_of (panic f) = []

  abbrev job_keys : Option TfJob → List String
  job_keys none = []
  job_keys (some job) = key_of (machinery.key_func job.metadata)

  -- The key of the job that a controllerRef leads to, if it leads to one.
  abbrev pub ref_keys : String → Option OwnerReference → cache.Cache → List String
  ref_keys namespace none jobs = []
  ref_keys namespace (some ref) jobs = job_keys (resolve_controller_ref p namespace ref jobs)

  abbrev pub add_keys : List String → workqueue.Queue → workqueue.Queue
  add_keys [] q = q
  add_keys (k ∷ ks) q = add_keys ks (workqueue.add_rate_limited (key k) q)

  abbrev with_keys : List String → Controller p → Controller p
  with_keys ks c = record c { queue = add_keys ks c.queue }

  enqueue_ref_lem :
      (namespace : String) (ref : Option OwnerReference) (c : Controller p)
      → enqueue_ref p namespace ref c ≡ with_keys (ref_keys namespace ref c.jobs) c
  unfolding enqueue_ref enqueue_tf_job
  enqueue_ref_lem namespace none c = refl
  enqueue_ref_lem namespace (some ref) c = ground arith

  add_keys-append :
      (ks ls : List String) (q : workqueue.Queue)
      → add_keys ls (add_keys ks q) ≡ add_keys (ks ++ ls) q
  add_keys-append [] ls q = refl
  add_keys-append (k ∷ ks) ls q = add_keys-append ks ls (workqueue.add_rate_limited (key k) q)

  -- The keys of an update: none for a resync, else the old controller's if it changed, then the
  -- present one's.
  abbrev pub update_keys : ObjectMeta → ObjectMeta → cache.Cache → List String
  update_keys old cur jobs =
      let old_ref = machinery.get_controller_of old in
      let cur_ref = machinery.get_controller_of cur in
      if str_eq cur.resource_version old.resource_version
      then []
      else if same_ref cur_ref old_ref
      then ref_keys cur.namespace cur_ref jobs
      else ref_keys old.namespace old_ref jobs ++ ref_keys cur.namespace cur_ref jobs

  pub update_object-enqueues :
      (old cur : ObjectMeta) (c : Controller p)
      → let c' = update_object p old cur c in
        (c'.queue ≡ add_keys (update_keys old cur c.jobs) c.queue)
        × (c'.sync ≡ c.sync)
        × (c'.jobs ≡ c.jobs)
  unfolding update_object
  update_object-enqueues old cur c =
      let old_ref = machinery.get_controller_of old in
      let cur_ref = machinery.get_controller_of cur in
      let before = ref_keys old.namespace old_ref c.jobs in
      let now = ref_keys cur.namespace cur_ref c.jobs in
      elim (Bool-cases (str_eq cur.resource_version old.resource_version)) [
        | inl e ↦ rw e (refl, refl, refl)
        | inr e ↦ elim (Bool-cases (same_ref cur_ref old_ref)) [
          | inl same ↦
              rw (e, same) (rw (enqueue_ref_lem cur.namespace cur_ref c) (refl, refl, refl))
          | inr changed ↦
              rw (e, changed)
                (rw (enqueue_ref_lem old.namespace old_ref c) (
                  rw (enqueue_ref_lem cur.namespace cur_ref (with_keys before c))
                    (add_keys-append before now c.queue, refl, refl)))
        ]
      ]

  -- Updating a pod adds to the queue the key of its old job, if its controllerRef changed, and then
  -- that of its present job; a resync, which keeps the resource version, adds nothing. Neither the
  -- expectations nor the cache nor the cluster is touched.
  pub update_pod-enqueues :
      (old cur : Pod) (c : Controller p)
      → let c' = update_pod p old cur c in
        (c'.queue ≡ add_keys (update_keys old.metadata cur.metadata c.jobs) c.queue)
        × (c'.sync ≡ c.sync)
        × (c'.jobs ≡ c.jobs)
  unfolding update_pod
  update_pod-enqueues old cur c = update_object-enqueues old.metadata cur.metadata c
