-- ===== src/Controller/Handlers/Observed.antt =====
-- What the informers' events about added pods do to the expectations of their job.
use kubeflow_controller.Common.{
  ℕ, zero, suc, String, true, some, List, [], ◌∷◌, ◌≡◌, refl, ap, ◌∙◌, arith, length, All,
}
use kubeflow_controller.Common.Int.{ℤ, pos, negsuc, ◌-ℤ◌, ◌≤ℤ◌}
use kubeflow_controller.Common.Outcome.{ok}
use kubeflow_controller.Api.{ObjectMeta, OwnerReference, Pod, TfJob}
use kubeflow_controller.Platform.{Platform}
use kubeflow_controller.Platform.Expectations.{ExpectationsLaws}
use kubeflow_controller.Platform.Queue.{key}
use kubeflow_controller.Controller.Sync.{Controller}
use kubeflow_controller.Controller.Manage.Pending.{pending-observed_self}
use kubeflow_controller.Controller.Handlers.{
  resolve_controller_ref, enqueue_tf_job, observe_object, add_pod,
}

minus_suc : (n : ℤ) (k : ℕ) → n -ℤ pos 1 -ℤ pos k ≡ n -ℤ pos (suc k)
unfolding ◌-ℤ◌
minus_suc (pos n) k = ground arith
minus_suc (negsuc n) k = ground arith

minus_zero : (n : ℤ) → n ≡ n -ℤ pos 0
unfolding ◌-ℤ◌
minus_zero (pos n) = ground arith
minus_zero (negsuc n) = ground arith

minus_met : (n : ℤ) (k : ℕ) → n ≤ℤ pos k → n -ℤ pos k ≤ℤ pos 0
unfolding ◌-ℤ◌
minus_met (pos n) k h = ground arith
minus_met (negsuc n) k h = ground arith

module _ (p : Platform) where
  open p use {machinery, cache, expectations, workqueue}

  -- The object's controllerRef leads to the job in the cache.
  abbrev pub LeadsTo : cache.Cache → TfJob → ObjectMeta → Type 0
  LeadsTo jobs job meta =
      (ref : OwnerReference) × (machinery.get_controller_of meta ≡ some ref)
      × (resolve_controller_ref p meta.namespace ref jobs ≡ some job)

  abbrev pub observed : String → Controller p → Controller p
  observed k c = record {
    sync = record c.sync { store = expectations.creation_observed k c.sync.store };
    jobs = c.jobs;
    queue = workqueue.add_rate_limited (key k) c.queue;
  }

  pub observe_object_lem :
      (meta : ObjectMeta) (job : TfJob) {k : String} (c : Controller p)
      → LeadsTo c.jobs job meta
      → machinery.key_func job.metadata ≡ ok k
      → observe_object p meta c ≡ observed k c
  unfolding observe_object enqueue_tf_job
  observe_object_lem meta job c (ref, e, r) h = ground arith

  -- The informer hands over one pod after the other.
  abbrev pub add_each : List Pod → Controller p → Controller p
  add_each [] c = c
  add_each (pod ∷ pods) c = add_each pods (add_pod p pod c)

  -- The key is added to the queue this many times.
  abbrev pub added : ℕ → String → workqueue.Queue → workqueue.Queue
  added zero k q = q
  added (suc n) k q = added n k (workqueue.add_rate_limited (key k) q)

  module _ (laws : ExpectationsLaws expectations) (job : TfJob) {k : String} where
    -- Each added pod whose controllerRef leads to the job lowers what the job waits for by exactly one.
    pub add_each-pending :
        (pods : List Pod) (n : ℤ) (c : Controller p)
        → machinery.key_func job.metadata ≡ ok k
        → All (λ (pod : Pod). LeadsTo c.jobs job pod.metadata) pods
        → expectations.pending k c.sync.store ≡ some n
        → expectations.pending k (add_each pods c).sync.store ≡ some (n -ℤ pos (length pods))
    unfolding add_pod
    add_each-pending [] n c h all e = e ∙ ap some (minus_zero n)
    add_each-pending (pod ∷ pods) n c h all e =
        ap (λ c'. expectations.pending k (add_each pods c').sync.store)
          (observe_object_lem pod.metadata job c all.0 h)
        ∙ add_each-pending pods (n -ℤ pos 1) (observed k c) h all.1
            (pending-observed_self p laws k n c.sync.store e)
        ∙ ap some (minus_suc n (length pods))

    add_each-queue :
        (pods : List Pod) (c : Controller p)
        → machinery.key_func job.metadata ≡ ok k
        → All (λ (pod : Pod). LeadsTo c.jobs job pod.metadata) pods
        → (add_each pods c).queue ≡ added (length pods) k c.queue
    unfolding add_pod
    add_each-queue [] c h all = refl
    add_each-queue (pod ∷ pods) c h all =
        ap (λ c'. (add_each pods c').queue) (observe_object_lem pod.metadata job c all.0 h)
        ∙ add_each-queue pods (observed k c) h all.1

    -- A job that waits for n creations meets its expectations once n pods whose controllerRef leads to
    -- it, or more, were added; and its key has been added to the queue once for each of the pods, and no
    -- other key, so that the job is taken up again and then managed.
    pub add_each-satisfies :
        (pods : List Pod) (n : ℤ) (c : Controller p)
        → machinery.key_func job.metadata ≡ ok k
        → All (λ (pod : Pod). LeadsTo c.jobs job pod.metadata) pods
        → expectations.pending k c.sync.store ≡ some n
        → n ≤ℤ pos (length pods)
        → (expectations.satisfied_expectations k (add_each pods c).sync.store ≡ true)
          × ((add_each pods c).queue ≡ added (length pods) k c.queue)
    add_each-satisfies pods n c h all e enough = (
      laws.satisfied_met k (add_each pods c).sync.store (add_each-pending pods n c h all e)
          (minus_met n (length pods) enough),
      add_each-queue pods c h all,
    )
