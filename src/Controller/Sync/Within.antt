-- ===== src/Controller/Sync/Within.antt =====
-- The sync of a job makes requests for that job only, and keeps its metadata.
use kubeflow_controller.Common.{
  String, Bool, true, false, List, [], ◌∷◌, ◌++◌, map, ◌≡◌, refl, All, inl, inr,
}
use kubeflow_controller.Common.Outcome.{Outcome, ok, fail, panic, Outcome-cases}
use kubeflow_controller.Common.Go.{◌>>=◌, ◌>>◌}
use kubeflow_controller.Common.Go.Keeps.{Keeps, Yields, >>=-Keeps, >>-Keeps, reads-Keeps}
use kubeflow_controller.Api.{ObjectMeta, Pod, Service, TfJob}
use kubeflow_controller.Common.Map.{Map}
use kubeflow_controller.Checker.{tf_replica_ps, tf_replica_worker, tf_replica_local, is_local_job}
use kubeflow_controller.Platform.{Platform, Sync}
use kubeflow_controller.Platform.Cluster.{Call, PodPatch, send_patch, ClusterLaws}
use kubeflow_controller.Platform.Patches.{IsOwnership}
use kubeflow_controller.Platform.Requests.{IsFor}
use kubeflow_controller.Control.Within.{ForJob}
use kubeflow_controller.Controller.Labels.{match_labels}
use kubeflow_controller.Controller.Util.{get_status}
use kubeflow_controller.Controller.Helper.{
  can_adopt_func, get_pods_for_tf_job, get_services_for_tf_job,
}
use kubeflow_controller.Controller.Helper.Patches.{claiming_patches, pod_patches, get_pods-calls}
use kubeflow_controller.Controller.Sync.{
  on_session, on_tf_job, manage_if, sync_local, sync_distributed, sync_kind, sync_job,
}
use kubeflow_controller.Controller.Sync.Scope.{
  may_create, Syncs, Syncing_for, any_job-Within, listing-Within, claim_listed-Within,
  manage_if-Within, on_tf_job-Within, update_if-Within,
}
use kubeflow_controller.Updater.Metadata.{update_local-same, update_distributed-same}
use kubeflow_controller.Updater.Run.{update_local, update_distributed}

module _ (p : Platform) (needs_sync : Bool) (laws : ClusterLaws p.cluster) where
  open p use {machinery, cluster}

  near_services :
      (namespace : String) (w : cluster.World)
      → Yields
          (λ services. All (λ (service : Service). service.metadata.namespace ≡ namespace) services)
          (cluster.list_services namespace w)
  near_services namespace w = elim (Outcome-cases (cluster.list_services namespace w)) [
    | inl (services, e) ↦ rw e (laws.list_services-near namespace w e)
    | inr (inl (f, e)) ↦ rw e tt
    | inr (inr (f, e)) ↦ rw e tt
  ]

  near_pods :
      (namespace : String) (w : cluster.World)
      → Yields
          (λ pods. All (λ (pod : Pod). pod.metadata.namespace ≡ namespace) pods)
          (cluster.list_pods namespace w)
  near_pods namespace w = elim (Outcome-cases (cluster.list_pods namespace w)) [
    | inl (pods, e) ↦ rw e (laws.list_pods-near namespace w e)
    | inr (inl (f, e)) ↦ rw e tt
    | inr (inr (f, e)) ↦ rw e tt
  ]

  patches-IsFor :
      (meta : ObjectMeta) (patches : List PodPatch)
      → All
          (λ (patch : PodPatch).
            (patch.namespace ≡ meta.namespace) × IsOwnership meta patch.data_sent)
          patches
      → All (IsFor (may_create needs_sync) meta) (map send_patch patches)
  patches-IsFor meta [] h = tt
  patches-IsFor meta (patch ∷ patches) (h, hs) = (h, patches-IsFor meta patches hs)

  -- The pods are patched to adopt them for the job or to release them from it.
  claiming-IsFor :
      (job : TfJob) (made : Outcome (Map String → Bool)) (listed : Outcome (List Pod))
      (w : cluster.World)
      → Yields
          (λ pods. All (λ (pod : Pod). pod.metadata.namespace ≡ job.metadata.namespace) pods)
          listed
      → All (IsFor (may_create needs_sync) job.metadata) (claiming_patches p job made listed w)
  claiming-IsFor job (ok selector) (ok pods) w near =
      patches-IsFor job.metadata
        (cluster.claim_pods job.metadata selector (can_adopt_func p job) pods w).1.0
        (laws.claim_pods-near job.metadata.namespace job.metadata selector (can_adopt_func p job)
          pods w near)
  claiming-IsFor job (ok selector) (fail e) w near = tt
  claiming-IsFor job (ok selector) (panic f) w near = tt
  claiming-IsFor job (fail e) listed w near = tt
  claiming-IsFor job (panic f) listed w near = tt

  get_pods-Within :
      (job : TfJob) (typ : String)
      → Keeps
          (ForJob machinery cluster (may_create needs_sync) job.metadata)
          (get_pods_for_tf_job p job typ)
  get_pods-Within job typ = record {
    apply = λ s. (
      refl,
      (
        pod_patches p job typ s.world,
        get_pods-calls p job typ s,
        claiming-IsFor job (machinery.label_selector (match_labels job typ))
            (cluster.list_pods job.metadata.namespace s.world) s.world
            (near_pods job.metadata.namespace s.world),
      ),
    );
  }

  get_services-Within :
      (job : TfJob) (typ : String)
      → Keeps
          (ForJob machinery cluster (may_create needs_sync) job.metadata)
          (get_services_for_tf_job p job typ)
  unfolding get_services_for_tf_job
  get_services-Within job typ = record {
    apply = λ s. elim (Outcome-cases (machinery.label_selector (match_labels job typ))) [
      | inl (selector, e) ↦
          rw (e, get_services_for_tf_job)
            ((claim_listed-Within p needs_sync job selector
                (cluster.list_services job.metadata.namespace s.world)
                (near_services job.metadata.namespace s.world)).apply
              s)
      | inr (inl (f, e)) ↦
          rw (e, get_services_for_tf_job)
            ((ForJob machinery cluster (may_create needs_sync) job.metadata).same s)
      | inr (inr (f, e)) ↦
          rw (e, get_services_for_tf_job)
            ((ForJob machinery cluster (may_create needs_sync) job.metadata).same s)
    ];
  }

  local_rest-Within :
      (job : TfJob)
      → Keeps (Syncing_for p needs_sync job.metadata) (
          on_session p (get_pods_for_tf_job p job tf_replica_local) >>= λ workers.
          manage_if p needs_sync
            (machinery.filter_active_pods workers)
            (machinery.filter_active_pods [])
            []
            []
            (get_status workers).0
          >> on_tf_job p (update_local (get_status workers).0 workers))
  local_rest-Within job =
      let for_job = Syncing_for p needs_sync job.metadata in
      >>=-Keeps for_job
        (listing-Within p needs_sync job.metadata (get_pods-Within job tf_replica_local))
        λ workers.
          >>-Keeps for_job
            (any_job-Within p needs_sync job.metadata (
              manage_if-Within p needs_sync (machinery.filter_active_pods workers)
                (machinery.filter_active_pods []) [] [] (get_status workers).0))
            (any_job-Within p needs_sync job.metadata
              (on_tf_job-Within p needs_sync (update_local-same (get_status workers).0 workers)))

  sync_local-Within : Keeps (Syncs p needs_sync) (sync_local p needs_sync)
  unfolding sync_local
  sync_local-Within = record { apply = λ s. (local_rest-Within s.0).apply s refl }

  distributed_rest-Within :
      (job : TfJob)
      → Keeps (Syncing_for p needs_sync job.metadata) (
          on_session p (get_pods_for_tf_job p job tf_replica_worker) >>= λ workers.
          on_session p (get_pods_for_tf_job p job tf_replica_ps) >>= λ ps.
          on_session p (get_services_for_tf_job p job tf_replica_worker) >>= λ worker_services.
          on_session p (get_services_for_tf_job p job tf_replica_ps) >>= λ ps_services.
          manage_if p needs_sync
            (machinery.filter_active_pods workers)
            (machinery.filter_active_pods ps)
            worker_services
            ps_services
            (get_status workers).0
          >> on_tf_job p (update_distributed (get_status workers).0 workers ps))
  distributed_rest-Within job =
      let for_job = Syncing_for p needs_sync job.metadata in
      let pods =
        λ (typ : String). listing-Within p needs_sync job.metadata (get_pods-Within job typ) in
      let services =
        λ (typ : String). listing-Within p needs_sync job.metadata (get_services-Within job typ) in
      >>=-Keeps for_job (pods tf_replica_worker) λ workers.
        >>=-Keeps for_job (pods tf_replica_ps) λ ps.
          >>=-Keeps for_job (services tf_replica_worker) λ worker_services.
            >>=-Keeps for_job (services tf_replica_ps) λ ps_services.
              >>-Keeps for_job
                (any_job-Within p needs_sync job.metadata (
                  manage_if-Within p needs_sync (machinery.filter_active_pods workers)
                    (machinery.filter_active_pods ps) worker_services ps_services
                    (get_status workers).0))
                (any_job-Within p needs_sync job.metadata (
                  on_tf_job-Within p needs_sync
                    (update_distributed-same (get_status workers).0 workers ps)))

  sync_distributed-Within : Keeps (Syncs p needs_sync) (sync_distributed p needs_sync)
  unfolding sync_distributed
  sync_distributed-Within = record { apply = λ s. (distributed_rest-Within s.0).apply s refl }

  sync_kind-Within : (local : Bool) → Keeps (Syncs p needs_sync) (sync_kind p needs_sync local)
  unfolding sync_kind
  sync_kind-Within true = sync_local-Within
  sync_kind-Within false = sync_distributed-Within

  pub sync_job-Within : Keeps (Syncs p needs_sync) (sync_job p needs_sync)
  unfolding sync_job
  sync_job-Within =
      >>=-Keeps (Syncs p needs_sync) (reads-Keeps (Syncs p needs_sync) (λ s. is_local_job s.0))
        λ local.
          >>=-Keeps (Syncs p needs_sync) (sync_kind-Within local)
            λ should_update. update_if-Within p needs_sync should_update

-- Whatever a sync of a job returns, the job keeps its metadata, and the requests that the sync adds,
-- those by which pods are claimed included, are all for that job: in its namespace, a pod with the
-- controllerRef of that job, a service that selects the labels it has, the job's name among them, a
-- patch that adopts a pod or a service for the job or releases it from the job, an update that keeps
-- the metadata; beside them events. A pod or a service is created only if the job's
-- expectations were met and it is not being deleted. Pods and services listed for a namespace must be
-- in it, and ClaimPods only adopts and releases pods that it is given.
pub sync_job-scoped :
    (p : Platform)
    → ClusterLaws p.cluster
    → (needs_sync : Bool) (job : TfJob) (s : Sync p)
    → let (_, (job', s')) = sync_job p needs_sync (job, s) in
      (job'.metadata ≡ job.metadata)
      × ((new : List Call) × (s'.session.calls ≡ s.session.calls ++ new)
          × All (IsFor (may_create needs_sync) job.metadata) new)
sync_job-scoped p laws needs_sync job s = (sync_job-Within p needs_sync laws).apply (job, s)
