-- ===== src/Controller/Sync.antt =====
-- syncHandler and updateTFJob of pkg/controller/controller.go. The job is the object of the
-- informer's cache, so what a sync writes into it stays in the cache, whatever the sync returns.
pub mod Deferred
pub mod Writes
pub mod Scope
pub mod Within
pub mod Requests
pub mod Fresh
pub mod Restless
pub mod Forgotten
pub mod Settled
pub mod Apart
pub mod Isolated
pub mod Asked
pub mod Started
pub mod Course
pub mod Restarted
use kubeflow_controller.Common.{
  String, Bool, true, false, Option, none, some, List, [], ◌||◌, ◌&&◌, str_eq, if◌then◌else◌,
}
use kubeflow_controller.Common.Int.{ℤ}
use kubeflow_controller.Common.Outcome.{
  Outcome, ok, fail, panic, Err, errorf, invalid_job_key, update_failed,
}
use kubeflow_controller.Common.Go.{Go, pure, gets, reads, zoom, ◌>>=◌, ◌>>◌}
use kubeflow_controller.Api.{Pod, Service, TfJob}
use kubeflow_controller.Checker.{tf_replica_ps, tf_replica_worker, tf_replica_local, is_local_job}
use kubeflow_controller.Platform.{Platform, Sync}
use kubeflow_controller.Platform.Cluster.{Session, invoke, update_job}
use kubeflow_controller.Controller.Util.{get_status}
use kubeflow_controller.Controller.Helper.{get_pods_for_tf_job, get_services_for_tf_job}
use kubeflow_controller.Controller.Manage.{manage_tf_job}
use kubeflow_controller.Updater.Run.{update_local, update_distributed}

-- The controller: what its syncs change, the cache of jobs, and the work queue.
module _ (p : Platform) where
  pub record Controller : Type 0 where
    pub sync : Sync p
    pub jobs : p.cache.Cache
    pub queue : p.workqueue.Queue

module _ (p : Platform) where
  open p use {machinery, cluster, expectations, cache}

  abbrev pub Syncing : Type 0
  Syncing = TfJob × Sync p

  abbrev pub on_session : {A : Type 0} → Go (Session cluster) A → Go Syncing A
  on_session = zoom (λ s. s.1.session) (λ session s. (s.0, record s.1 { session = session }))

  abbrev pub on_tf_job : {A : Type 0} → Go TfJob A → Go Syncing A
  on_tf_job = zoom (λ s. s.0) (λ job s. (job, s.1))

  -- The job is managed if its expectations are met and it is not being deleted.
  unfoldable pub manage_if :
      Bool → List Pod → List Pod → List Service → List Service → ℤ → Go Syncing (Unit {0})
  unfolding manage_tf_job
  manage_if needs_sync workers ps worker_services ps_services succeeded s =
      elim s.0.metadata.deletion_timestamp [
        | none ↦
            if needs_sync
            then manage_tf_job p workers ps worker_services ps_services succeeded s
            else (ok tt, s)
        | some _ ↦ (ok tt, s)
      ]

  unfoldable pub sync_local : Bool → Go Syncing Bool
  unfolding get_pods_for_tf_job get_status manage_if update_local
  sync_local needs_sync = do
    job ← gets (λ s. s.0)
    workers ← on_session (get_pods_for_tf_job p job tf_replica_local)
    manage_if needs_sync (machinery.filter_active_pods workers) (machinery.filter_active_pods []) []
        [] (get_status workers).0
    on_tf_job (update_local (get_status workers).0 workers)

  unfoldable pub sync_distributed : Bool → Go Syncing Bool
  unfolding get_pods_for_tf_job get_services_for_tf_job get_status manage_if update_distributed
  sync_distributed needs_sync = do
    job ← gets (λ s. s.0)
    workers ← on_session (get_pods_for_tf_job p job tf_replica_worker)
    ps ← on_session (get_pods_for_tf_job p job tf_replica_ps)
    worker_services ← on_session (get_services_for_tf_job p job tf_replica_worker)
    ps_services ← on_session (get_services_for_tf_job p job tf_replica_ps)
    manage_if needs_sync (machinery.filter_active_pods workers) (machinery.filter_active_pods ps)
        worker_services ps_services (get_status workers).0
    on_tf_job (update_distributed (get_status workers).0 workers ps)

  abbrev update_error : {S : Type 0} → Outcome (Unit {0}) × S → Outcome (Unit {0}) × S
  update_error (ok _, s) = (ok tt, s)
  update_error (fail e, s) = (fail (errorf update_failed), s)
  update_error (panic f, s) = (panic f, s)

  unfoldable pub update_tf_job : Go Syncing (Unit {0})
  unfolding invoke
  update_tf_job s =
      update_error (on_session (invoke cluster (update_job s.0.metadata.namespace s.0)) s)

  unfoldable pub sync_kind : Bool → Bool → Go Syncing Bool
  unfolding sync_local sync_distributed
  sync_kind needs_sync true = sync_local needs_sync
  sync_kind needs_sync false = sync_distributed needs_sync

  unfoldable pub update_if : Bool → Go Syncing (Unit {0})
  unfolding update_tf_job
  update_if true = update_tf_job
  update_if false = pure tt

  -- The sync of a job that the cache has.
  unfoldable pub sync_job : Bool → Go Syncing (Unit {0})
  unfolding sync_kind update_if is_local_job
  sync_job needs_sync = do
    local ← reads (λ s. is_local_job s.0)
    should_update ← sync_kind needs_sync local
    update_if should_update

  -- What a sync of the job with this key makes of the lister's answer.
  unfoldable pub sync_found :
      String → String → String → Outcome TfJob → Go (Controller p) (Unit {0})
  unfolding sync_job
  sync_found key namespace name (ok job) c =
      let needs_sync = expectations.satisfied_expectations key c.sync.store in
      let (r, s) = sync_job needs_sync (job, c.sync) in
      (r, record c { sync = s.1; jobs = cache.put namespace name s.0 c.jobs })
  sync_found key namespace name (fail e) c =
      if machinery.is_not_found e
      then (
        ok tt,
        record c {
          sync = record c.sync { store = expectations.delete_expectations key c.sync.store };
        },
      )
      else (fail e, c)
  sync_found key namespace name (panic f) c = (panic f, c)

  unfoldable pub sync_key : String → Outcome (String × String) → Go (Controller p) (Unit {0})
  unfolding sync_found
  sync_key key (ok (namespace, name)) c =
      if str_eq namespace "" || str_eq name ""
      then (fail (errorf invalid_job_key), c)
      else sync_found key namespace name (cache.get namespace name c.jobs) c
  sync_key key (fail e) c = (ok tt, c)
  sync_key key (panic f) c = (panic f, c)

  unfoldable pub sync_handler : String → Go (Controller p) (Unit {0})
  unfolding sync_key
  sync_handler key c = sync_key key (machinery.split_key key) c
