-- ===== src/Controller/Sync/Scope.antt =====
-- The parts of a sync make requests for the job at hand only, and keep its metadata.
use kubeflow_controller.Common.{
  String, Bool, true, false, none, some, List, [], ◌≡◌, refl, ◌∙◌, All, All-map,
}
use mathlib.Core.Path.{subst}
use kubeflow_controller.Common.Int.{ℤ}
use kubeflow_controller.Common.Map.{Map}
use kubeflow_controller.Common.Outcome.{Outcome, ok, fail, panic}
use kubeflow_controller.Common.Go.{Go}
use kubeflow_controller.Common.Go.Keeps.{
  Preorder, Keeps, Yields, zoom-Keeps, pure-Keeps, gate-Keeps,
}
use kubeflow_controller.Api.{ObjectMeta, Pod, Service, TfJob}
use kubeflow_controller.Platform.{Platform}
use kubeflow_controller.Platform.Cluster.{
  Session, Call, update_job, create_pod, create_service, create_replica_set, patch_pod,
  patch_service, patch_replica_set, eventf, invoke,
}
use kubeflow_controller.Platform.Requests.{IsFor, Sent, Sent-none, Sent-trans}
use kubeflow_controller.Control.Within.{ForJob, invoke-Within}
use kubeflow_controller.Ref.Base.{RefManager}
use kubeflow_controller.Ref.Service.{new_service_controller_ref_manager}
use kubeflow_controller.Ref.Within.{claim_services-Within}
use kubeflow_controller.Controller.Util.{group_version, group_kind}
use kubeflow_controller.Controller.Helper.{claim_listed_services, can_adopt_func}
use kubeflow_controller.Controller.Manage.{manage_tf_job}
use kubeflow_controller.Controller.Manage.Scope.{Syncs_if, manage_tf_job-Within}
use kubeflow_controller.Controller.Sync.{
  Syncing, on_session, on_tf_job, manage_if, update_error, update_tf_job, update_if,
}
use kubeflow_controller.Controller.Manage.Within.{always}
use kubeflow_controller.Tensorflow.Metadata.{SameMeta}

-- A sync may make pods and services if the job's expectations are met and it is not being deleted.
abbrev pub may_create : Bool → ObjectMeta → Bool
may_create needs_sync meta = elim meta.deletion_timestamp [ none ↦ needs_sync | some _ ↦ false ]

module _ (p : Platform) (needs_sync : Bool) where
  open p use {machinery, cluster}

  abbrev pub may : ObjectMeta → Bool
  may = may_create needs_sync

  -- A sync, of whatever job it holds.
  abbrev pub Syncs : Preorder (Syncing p)
  Syncs = Syncs_if p may

  -- A sync of the job with this metadata, from where the job at hand has it.
  abbrev pub Syncing_for : ObjectMeta → Preorder (Syncing p)
  Syncing_for meta = record {
    Rel = λ s t.
        s.0.metadata ≡ meta
        → (t.0.metadata ≡ meta) × Sent may meta s.1.session.calls t.1.session.calls;
    same = λ s h. (h, Sent-none may meta s.1.session.calls);
    through = λ s t u f g h.
        let (e, sent) = f h in
        let (e', sent') = g e in
        (e', Sent-trans may meta s.1.session.calls t.1.session.calls u.1.session.calls sent sent');
  }

  pub any_job-Within :
      {A : Type 0} (meta : ObjectMeta) {m : Go (Syncing p) A}
      → Keeps Syncs m
      → Keeps (Syncing_for meta) m
  any_job-Within meta {m} k = record {
    apply = λ s h.
        let (e, sent) = k.apply s in
        (e ∙ h, subst (λ x. Sent may x s.1.session.calls (m s).1.1.session.calls) h sent);
  }

  pub listing-Within :
      {A : Type 0} (meta : ObjectMeta) {m : Go (Session cluster) A}
      → Keeps (ForJob machinery cluster may meta) m
      → Keeps (Syncing_for meta) (on_session p m)
  listing-Within meta k =
      zoom-Keeps (ForJob machinery cluster may meta) (Syncing_for meta) (λ s. s.1.session)
        (λ session s. (s.0, record s.1 { session = session })) (λ t s r h. (h, r.1)) k

  pub claim_listed-Within :
      (job : TfJob) (selector : Map String → Bool) (listed : Outcome (List Service))
      → Yields
          (λ services.
            All
              (λ (service : Service). service.metadata.namespace ≡ job.metadata.namespace)
              services)
          listed
      → Keeps
          (ForJob machinery cluster may job.metadata)
          (claim_listed_services p job selector listed)
  unfolding claim_listed_services new_service_controller_ref_manager
  claim_listed-Within job selector (ok services) near =
      let rm : RefManager cluster =
        new_service_controller_ref_manager job.metadata selector group_version group_kind
          (can_adopt_func p job) in
      record {
        apply = λ s. (
          refl,
          ((claim_services-Within machinery cluster may job.metadata [] services near).apply (rm, s)
              refl).1,
        );
      }
  claim_listed-Within job selector (fail e) near = record {
    apply = λ s. (ForJob machinery cluster may job.metadata).same s;
  }
  claim_listed-Within job selector (panic f) near = record {
    apply = λ s. (ForJob machinery cluster may job.metadata).same s;
  }

  -- The parts that do not depend on the cluster's lists.
  allowed-IsFor :
      (meta : ObjectMeta)
      → may meta ≡ true
      → (call : Call) → IsFor always meta call
      → IsFor may meta call
  allowed-IsFor meta h (create_pod namespace template ref) (_, a, b, c, d, e) = (h, a, b, c, d, e)
  allowed-IsFor meta h (create_service namespace service) (_, a, b) = (h, a, b)
  allowed-IsFor meta h (patch_service namespace name patch) k = k
  allowed-IsFor meta h (patch_pod namespace name patch) k = k
  allowed-IsFor meta h (update_job namespace job) k = k
  allowed-IsFor meta h (eventf typ reason) k = k
  allowed-IsFor meta h (create_replica_set namespace replica_set) k = k
  allowed-IsFor meta h (patch_replica_set namespace name patch) k = k

  allowed-Rel :
      (s t : Syncing p) → may s.0.metadata ≡ true → (Syncs_if p always).Rel s t → Syncs.Rel s t
  allowed-Rel s t h (e, (new, e', all)) = (
    e,
    (
      new,
      e',
      All-map (IsFor always s.0.metadata) (IsFor may s.0.metadata) (allowed-IsFor s.0.metadata h)
          new all,
    ),
  )

  pub manage_if-Within :
      (workers ps : List Pod) (worker_services ps_services : List Service) (succeeded : ℤ)
      → Keeps Syncs (manage_if p needs_sync workers ps worker_services ps_services succeeded)
  unfolding manage_if
  manage_if-Within workers ps worker_services ps_services succeeded = record {
    apply = λ s.
        let managed = manage_tf_job p workers ps worker_services ps_services succeeded s in
        gate-Keeps Syncs s.0.metadata.deletion_timestamp needs_sync s managed (ok tt, s)
          (λ h.
            allowed-Rel s managed.1 h
              ((manage_tf_job-Within p workers ps worker_services ps_services succeeded).apply s))
          (Syncs.same s);
  }

  pub on_tf_job-Within :
      {m : Go TfJob Bool}
      → Keeps (SameMeta (λ (job : TfJob). job.metadata)) m
      → Keeps Syncs (on_tf_job p m)
  on_tf_job-Within k =
      zoom-Keeps (SameMeta (λ (job : TfJob). job.metadata)) Syncs (λ s. s.0) (λ job s. (job, s.1))
        (λ t s h. (h, Sent-none may t.0.metadata t.1.session.calls)) k

  update_error-Within : (r : Outcome (Unit {0})) → Keeps Syncs (λ s. update_error p (r, s))
  update_error-Within (ok a) = record { apply = λ s. Syncs.same s }
  update_error-Within (fail e) = record { apply = λ s. Syncs.same s }
  update_error-Within (panic f) = record { apply = λ s. Syncs.same s }

  send_update-Within :
      (s : Syncing p)
      → Syncs.Rel s (on_session p (invoke cluster (update_job s.0.metadata.namespace s.0)) s).1
  send_update-Within s = (
    refl,
    ((invoke-Within machinery cluster may s.0.metadata (update_job s.0.metadata.namespace s.0)
          (refl, refl)).apply
        s.1.session).1,
  )

  update_tf_job-Within : Keeps Syncs (update_tf_job p)
  unfolding update_tf_job
  update_tf_job-Within = record {
    apply = λ s.
        let mid = on_session p (invoke cluster (update_job s.0.metadata.namespace s.0)) s in
        Syncs.through s mid.1 (update_error p mid).1 (send_update-Within s)
          ((update_error-Within mid.0).apply mid.1);
  }

  pub update_if-Within : (should_update : Bool) → Keeps Syncs (update_if p should_update)
  unfolding update_if
  update_if-Within true = update_tf_job-Within
  update_if-Within false = pure-Keeps Syncs tt
