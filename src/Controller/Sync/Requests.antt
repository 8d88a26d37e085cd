-- ===== src/Controller/Sync/Requests.antt =====
-- The requests of a sync are for the job that the cache has under its key.
use kubeflow_controller.Common.{String, List, ◌≡◌, refl, ◌||◌, str_eq, Bool-cases, inl, inr}
use kubeflow_controller.Common.Outcome.{Outcome, ok, fail, panic}
use kubeflow_controller.Api.{TfJob}
use kubeflow_controller.Platform.{Platform}
use kubeflow_controller.Platform.Cluster.{Call, ClusterLaws}
use kubeflow_controller.Platform.Requests.{IsFor, Added, Added-none, Added-map}
use kubeflow_controller.Controller.Sync.{Controller, sync_found, sync_key, sync_handler}
use kubeflow_controller.Controller.Sync.Scope.{may_create}
use kubeflow_controller.Controller.Sync.Within.{sync_job-scoped}

module _ (p : Platform) where
  open p use {machinery, cluster, cache, expectations}

  -- A request for the job that the cache has under the key; it may make pods and services if the key's
  -- expectations are met and that job is not being deleted.
  abbrev pub IsForKey : String → cache.Cache → expectations.Store → Call → Type 0
  IsForKey key jobs store call =
      (namespace name : String) × (job : TfJob) × (machinery.split_key key ≡ ok (namespace, name))
      × (cache.get namespace name jobs ≡ ok job)
      × IsFor (may_create (expectations.satisfied_expectations key store)) job.metadata call

  abbrev calls : Controller p → List Call
  calls c = c.sync.session.calls

  module _ (laws : ClusterLaws cluster) (key : String) (c : Controller p) where
    found-requests :
        (namespace name : String) (listed : Outcome TfJob)
        → machinery.split_key key ≡ ok (namespace, name)
        → cache.get namespace name c.jobs ≡ listed
        → Added
            (IsForKey key c.jobs c.sync.store)
            (calls c)
            (calls (sync_found p key namespace name listed c).1)
    unfolding sync_found
    found-requests namespace name (ok job) split found =
        let needs_sync = expectations.satisfied_expectations key c.sync.store in
        let (_, sent) = sync_job-scoped p laws needs_sync job c.sync in
        Added-map (IsFor (may_create needs_sync) job.metadata) (IsForKey key c.jobs c.sync.store)
          (calls c) (calls (sync_found p key namespace name (ok job) c).1)
          (λ call h. (namespace, name, job, split, found, h)) sent
    found-requests namespace name (fail e) split found =
        elim (Bool-cases (machinery.is_not_found e)) [
          | inl h ↦ rw (h, sync_found) (Added-none (IsForKey key c.jobs c.sync.store) (calls c))
          | inr h ↦ rw (h, sync_found) (Added-none (IsForKey key c.jobs c.sync.store) (calls c))
        ]
    found-requests namespace name (panic f) split found =
        Added-none (IsForKey key c.jobs c.sync.store) (calls c)

    key-requests :
        (split : Outcome (String × String))
        → machinery.split_key key ≡ split
        → Added (IsForKey key c.jobs c.sync.store) (calls c) (calls (sync_key p key split c).1)
    unfolding sync_key
    key-requests (ok (namespace, name)) split =
        elim (Bool-cases (str_eq namespace "" || str_eq name "")) [
          | inl h ↦ rw (h, sync_key) (Added-none (IsForKey key c.jobs c.sync.store) (calls c))
          | inr h ↦
              rw (h, sync_key)
                (found-requests namespace name (cache.get namespace name c.jobs) split refl)
        ]
    key-requests (fail e) split = Added-none (IsForKey key c.jobs c.sync.store) (calls c)
    key-requests (panic f) split = Added-none (IsForKey key c.jobs c.sync.store) (calls c)

    pub sync_handler-requests :
        Added (IsForKey key c.jobs c.sync.store) (calls c) (calls (sync_handler p key c).1)
    unfolding sync_handler
    sync_handler-requests = key-requests (machinery.split_key key) refl
