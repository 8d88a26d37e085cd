-- ===== src/Controller/Sync/Restless.antt =====
-- No sync of a distributed job leaves its services alone.
use kubeflow_controller.Common.{
  String, Bool, true, false, List, ◌∷◌, ◌++◌, ◌≡◌, ◌≢◌, ◌⊎◌, refl, ap, sym, ◌∙◌,
}
use mathlib.Core.List.{append_assoc}
use mathlib.Core.Path.{subst}
use kubeflow_controller.Common.Map.{Map}
use kubeflow_controller.Common.Outcome.{Outcome, ok}
use kubeflow_controller.Common.Go.{Go, ◌>>=◌, ◌>>◌, resume}
use kubeflow_controller.Common.Go.Keeps.{Keeps, >>=-Rel, >>-Keeps}
use kubeflow_controller.Api.{Pod, Service, TfJob}
use kubeflow_controller.Checker.{tf_replica_ps, tf_replica_worker, is_local_job}
use kubeflow_controller.Platform.{Platform, Sync}
use kubeflow_controller.Platform.Cluster.{Session, Call}
use kubeflow_controller.Platform.Machinery.{SelectorLaws}
use kubeflow_controller.Platform.Requests.{HasPatch, HasPatch-left, HasPatch-right}
use kubeflow_controller.Ref.Service.{label_set}
use kubeflow_controller.Controller.Labels.{match_labels}
use kubeflow_controller.Controller.Util.{get_status}
use kubeflow_controller.Controller.Helper.{get_pods_for_tf_job, get_services_for_tf_job}
use kubeflow_controller.Controller.Helper.Services.{IsOpen, get_services-sent}
use kubeflow_controller.Controller.Helper.Contended.{IsAtHand, claims-patch}
use kubeflow_controller.Controller.Sync.{
  Syncing, on_session, on_tf_job, manage_if, sync_distributed, sync_kind, update_if, sync_job,
}
use kubeflow_controller.Controller.Sync.Scope.{
  Syncs, manage_if-Within, on_tf_job-Within, update_if-Within,
}
use kubeflow_controller.Controller.Helper.Patches.{pod_patches, get_pods-calls}
use kubeflow_controller.Updater.Metadata.{update_distributed-same}
use kubeflow_controller.Updater.Run.{update_distributed}

-- The pods of both types were claimed, and these services are then listed.
pub record HasListed (p : Platform) (job : TfJob) (s : Session p.cluster) (services : List Service)
    : Type 0 where
  pub workers : List Pod
  pub ps : List Pod
  pub between : Session p.cluster
  pub after : Session p.cluster
  pub workers_lem : get_pods_for_tf_job p job tf_replica_worker s ≡ (ok workers, between)
  pub ps_lem : get_pods_for_tf_job p job tf_replica_ps between ≡ (ok ps, after)
  pub services_lem : p.cluster.list_services job.metadata.namespace after.world ≡ ok services

module _ (p : Platform) (needs_sync : Bool) where
  open p use {machinery}

  abbrev calls : Syncing p → List Call
  calls s = s.1.session.calls

  abbrev Patched : Syncing p → Syncing p → Type 0
  Patched s t = (new : List Call) × (calls t ≡ calls s ++ new) × HasPatch new

  -- What a method adds to the requests leaves the patch among them.
  then-Patched :
      {A B : Type 0} (s t : Syncing p) (r : Outcome A) (f : A → Go (Syncing p) B)
      → ((a : A) → Keeps (Syncs p needs_sync) (f a))
      → Patched s t
      → Patched s (resume r f t).1
  then-Patched s t r f k (new, e, h) =
      let rel = >>=-Rel (Syncs p needs_sync) (λ _. (r, t)) f t ((Syncs p needs_sync).same t) k in
      let (more, e', _) = rel.1 in
      (
        new ++ more,
        e' ∙ ap (λ cs. cs ++ more) e ∙ append_assoc (calls s) new more,
        HasPatch-left new more h,
      )

  abbrev managed : List Pod → List Pod → List Service → List Service → Go (Syncing p) Bool
  managed workers ps worker_services ps_services =
      manage_if p needs_sync (machinery.filter_active_pods workers)
        (machinery.filter_active_pods ps) worker_services ps_services (get_status workers).0
      >> on_tf_job p (update_distributed (get_status workers).0 workers ps)

  managed-Within :
      (workers ps : List Pod) (worker_services ps_services : List Service)
      → Keeps (Syncs p needs_sync) (managed workers ps worker_services ps_services)
  managed-Within workers ps worker_services ps_services =
      >>-Keeps (Syncs p needs_sync)
        (manage_if-Within p needs_sync (machinery.filter_active_pods workers)
          (machinery.filter_active_pods ps) worker_services ps_services (get_status workers).0)
        (on_tf_job-Within p needs_sync (update_distributed-same (get_status workers).0 workers ps))

  module _ (job : TfJob) (s : Sync p) {services : List Service}
      (listed : HasListed p job s.session services) where
    abbrev claiming : List Service → Go (Syncing p) Bool
    claiming worker_services =
        on_session p (get_services_for_tf_job p job tf_replica_ps) >>= λ ps_services.
        managed listed.workers listed.ps worker_services ps_services

    abbrev at : Session p.cluster → Syncing p
    at session = (job, record s { session = session })

    sync-claims :
        sync_distributed p needs_sync (job, s)
        ≡ (on_session p (get_services_for_tf_job p job tf_replica_worker) >>= claiming)
            (at listed.after)
    unfolding sync_distributed
    sync-claims =
        rw (listed.workers_lem, sync_distributed) (rw (listed.ps_lem, sync_distributed) refl)

    -- The patches of the pods, of both types.
    abbrev claims : List Call
    claims =
        pod_patches p job tf_replica_worker s.session.world
        ++ pod_patches p job tf_replica_ps listed.between.world

    listing-calls : listed.after.calls ≡ s.session.calls ++ claims
    listing-calls =
        let second = pod_patches p job tf_replica_ps listed.between.world in
        sym (ap (λ x. x.1.calls) listed.ps_lem)
        ∙ get_pods-calls p job tf_replica_ps listed.between
        ∙ ap (λ cs. cs ++ second)
            (sym (ap (λ x. x.1.calls) listed.workers_lem)
              ∙ get_pods-calls p job tf_replica_worker s.session)
        ∙ append_assoc s.session.calls (pod_patches p job tf_replica_worker s.session.world) second

    abbrev worker_pass : Session p.cluster
    worker_pass = (get_services_for_tf_job p job tf_replica_worker listed.after).1

    abbrev ps_pass : Session p.cluster
    ps_pass = (get_services_for_tf_job p job tf_replica_ps worker_pass).1

    distributed-Patched :
        {worker_services : List Service}
        → (get_services_for_tf_job p job tf_replica_worker listed.after).0 ≡ ok worker_services
        → (new : List Call) × (ps_pass.calls ≡ listed.after.calls ++ new) × HasPatch new
        → Patched (job, s) (sync_distributed p needs_sync (job, s)).1
    distributed-Patched {worker_services} ran (new, e, h) =
        let answer = (get_services_for_tf_job p job tf_replica_ps worker_pass).0 in
        subst (λ end. Patched (job, s) end.1)
          (sym (sync-claims ∙ ap (λ r. resume r claiming (at worker_pass)) ran))
          (then-Patched (job, s) (at ps_pass) answer
            (managed listed.workers listed.ps worker_services)
            (managed-Within listed.workers listed.ps worker_services)
            (
              claims ++ new,
              e ∙ ap (λ cs. cs ++ new) listing-calls ∙ append_assoc s.session.calls claims new,
              HasPatch-right claims new h,
            ))

other_kind : tf_replica_worker ≢ tf_replica_ps
other_kind e = cc

-- On an API server that takes every patch, and while the job may adopt: whatever a sync of a distributed
-- job returns, it patches a service, if any service that is listed for the job (found by its labels for
-- one of the two types, and controlled by the job or by nobody) is there and neither is being deleted.
-- So no two syncs in a row leave the services as they are: what the claim for one type adopts, the claim
-- for the other releases. The pods of both types must have been claimed without an error.
pub sync_job-restless :
    (p : Platform) (needs_sync : Bool) (job : TfJob) (s : Sync p)
    {selector selector' : Map String → Bool} (before : List Service) (service : Service)
    (after : List Service)
    → IsOpen p job
    → SelectorLaws p.machinery
    → is_local_job job ≡ ok false
    → p.machinery.label_selector (match_labels job tf_replica_worker) ≡ ok selector
    → p.machinery.label_selector (match_labels job tf_replica_ps) ≡ ok selector'
    → HasListed p job s.session (before ++ service ∷ after)
    → IsAtHand p job service
    → ((selector (label_set service.metadata.labels) ≡ true)
        ⊎ (selector' (label_set service.metadata.labels) ≡ true))
    → let (_, (_, s')) = sync_job p needs_sync (job, s) in
      (new : List Call) × (s'.session.calls ≡ s.session.calls ++ new) × HasPatch new
unfolding sync_job sync_kind
sync_job-restless p needs_sync job s {selector} before service after is_open laws kind made made'
      listed at_hand found =
    let claimed =
      claims-patch p job is_open laws tf_replica_worker tf_replica_ps other_kind made made' before
        service after at_hand found listed.after listed.services_lem in
    let ran =
      get_services-sent p job is_open tf_replica_worker made listed.after
        (before ++ service ∷ after) listed.services_lem in
    let synced = distributed-Patched p needs_sync job s listed (ap (λ x. x.0) ran) claimed in
    let end = sync_distributed p needs_sync (job, s) in
    subst (λ x. Patched p needs_sync (job, s) x.1)
      (sym
        (ap (λ r. resume r (λ local. sync_kind p needs_sync local >>= update_if p) (job, s)) kind))
      (then-Patched p needs_sync (job, s) end.1 end.0 (update_if p) (update_if-Within p needs_sync)
        synced)
