-- ===== src/Controller/Sync/Apart.antt =====
-- A sync changes what its own key waits for, and what no other key does.
use kubeflow_controller.Common.{
  String, Bool, true, false, List, [], ◌≡◌, refl, sym, ap, ◌∙◌, str_eq, arith,
}
use mathlib.Core.Path.{subst}
use kubeflow_controller.Common.Int.{ℤ}
use kubeflow_controller.Common.Outcome.{ok}
use kubeflow_controller.Common.Go.{Go, resume, ◌>>=◌, ◌>>◌}
use kubeflow_controller.Common.Go.Keeps.{
  Preorder, Keeps, >>=-Keeps, >>-Keeps, gate-Keeps, reads-Keeps,
}
use kubeflow_controller.Api.{Pod, Service, TfJob}
use kubeflow_controller.Checker.{tf_replica_ps, tf_replica_worker, tf_replica_local, is_local_job}
use kubeflow_controller.Platform.{Platform}
use kubeflow_controller.Platform.Cluster.{Session}
use kubeflow_controller.Platform.Expectations.{ExpectationsLaws}
use kubeflow_controller.Controller.Util.{get_status}
use kubeflow_controller.Controller.Helper.{get_pods_for_tf_job, get_services_for_tf_job}
use kubeflow_controller.Controller.Manage.{manage_tf_job, manage_kind}
use kubeflow_controller.Controller.Manage.Apart.{jobs, manage_kind-Spares}
use kubeflow_controller.Controller.Sync.{
  Syncing, on_session, on_tf_job, manage_if, sync_local, sync_distributed, sync_kind, update_if,
  update_tf_job, sync_job,
}
use kubeflow_controller.Controller.Sync.Scope.{
  Syncs, manage_if-Within, on_tf_job-Within, update_if-Within,
}
use kubeflow_controller.Updater.Metadata.{update_local-same, update_distributed-same}
use kubeflow_controller.Updater.Run.{update_local, update_distributed}

module _ (p : Platform) (other : String) (laws : ExpectationsLaws p.expectations) (key : String)
    (apart : str_eq key other ≡ false) where
  open p use {machinery, expectations}

  manage_tf_job-Spares :
      (workers ps : List Pod) (worker_services ps_services : List Service) (succeeded : ℤ)
      (s : Syncing p)
      → machinery.key_func s.0.metadata ≡ ok key
      → (jobs p other).Rel s (manage_tf_job p workers ps worker_services ps_services succeeded s).1
  unfolding manage_tf_job
  manage_tf_job-Spares workers ps worker_services ps_services succeeded s made =
      let by_kind = λ (key : String) (local : Bool).
        manage_kind p workers ps worker_services ps_services succeeded key local in
      let keyed = λ (key : String). (λ (t : Syncing p). (is_local_job t.0, t)) >>= by_kind key in
      subst (λ r. (jobs p other).Rel s (resume r keyed s).1) (sym made)
        ((>>=-Keeps (jobs p other) (reads-Keeps (jobs p other) (λ t. is_local_job t.0)) (
            manage_kind-Spares p other laws key apart workers ps worker_services ps_services
              succeeded)).apply
          s)

  manage_if-Spares :
      (needs_sync : Bool) (workers ps : List Pod) (worker_services ps_services : List Service)
      (succeeded : ℤ) (s : Syncing p)
      → machinery.key_func s.0.metadata ≡ ok key
      → (jobs p other).Rel s
          (manage_if p needs_sync workers ps worker_services ps_services succeeded s).1
  unfolding manage_if
  manage_if-Spares needs_sync workers ps worker_services ps_services succeeded s made =
      gate-Keeps (jobs p other) s.0.metadata.deletion_timestamp needs_sync s
        (manage_tf_job p workers ps worker_services ps_services succeeded s) (ok tt, s)
        (λ _. manage_tf_job-Spares workers ps worker_services ps_services succeeded s made) refl

  update_if-Spares : (b : Bool) (s : Syncing p) → (jobs p other).Rel s (update_if p b s).1
  unfolding update_if update_tf_job
  update_if-Spares true s = ground arith
  update_if-Spares false s = refl

  -- From a state with a job of this key on: the key stays, and the other key waits for the same.
  abbrev pub Sparing : Preorder (Syncing p)
  Sparing = record {
    Rel = λ s t.
        machinery.key_func s.0.metadata ≡ ok key
        → (machinery.key_func t.0.metadata ≡ ok key) × (jobs p other).Rel s t;
    same = λ s h. (h, refl);
    through = λ s t u f g h. let (h', e) = f h in let (h'', e') = g h' in (h'', e' ∙ e);
  }

  -- What keeps the metadata and spares the other key.
  sparing :
      {A : Type 0} (needs_sync : Bool) {m : Go (Syncing p) A}
      → Keeps (Syncs p needs_sync) m
      → ((s : Syncing p) → machinery.key_func s.0.metadata ≡ ok key → (jobs p other).Rel s (m s).1)
      → Keeps Sparing m
  sparing needs_sync within spares = record {
    apply = λ s made. (ap machinery.key_func (within.apply s).0 ∙ made, spares s made);
  }

  looking-Sparing : {A : Type 0} (m : Go (Session p.cluster) A) → Keeps Sparing (on_session p m)
  looking-Sparing m = record { apply = λ s made. (made, refl) }

  module _ (needs_sync : Bool) where
    managed-Sparing :
        (workers ps : List Pod) (worker_services ps_services : List Service) (succeeded : ℤ)
        → Keeps Sparing (manage_if p needs_sync workers ps worker_services ps_services succeeded)
    managed-Sparing workers ps worker_services ps_services succeeded =
        sparing needs_sync
          (manage_if-Within p needs_sync workers ps worker_services ps_services succeeded)
          (manage_if-Spares needs_sync workers ps worker_services ps_services succeeded)

    local_rest-Sparing :
        (job : TfJob)
        → Keeps Sparing (
            on_session p (get_pods_for_tf_job p job tf_replica_local) >>= λ workers.
            manage_if p needs_sync
              (machinery.filter_active_pods workers)
              (machinery.filter_active_pods [])
              []
              []
              (get_status workers).0
            >> on_tf_job p (update_local (get_status workers).0 workers))
    local_rest-Sparing job =
        >>=-Keeps Sparing (looking-Sparing (get_pods_for_tf_job p job tf_replica_local)) λ workers.
          >>-Keeps Sparing
            (managed-Sparing (machinery.filter_active_pods workers)
              (machinery.filter_active_pods []) [] [] (get_status workers).0)
            (sparing needs_sync
              (on_tf_job-Within p needs_sync (update_local-same (get_status workers).0 workers))
              (λ s made. refl))

    distributed_rest-Sparing :
        (job : TfJob)
        → Keeps Sparing (
            on_session p (get_pods_for_tf_job p job tf_replica_worker) >>= λ workers.
            on_session p (get_pods_for_tf_job p job tf_replica_ps) >>= λ ps.
            on_session p (get_services_for_tf_job p job tf_replica_worker) >>= λ worker_services.
            on_session p (get_services_for_tf_job p job tf_replica_ps) >>= λ ps_services.
            manage_if p needs_sync
              (machinery.filter_active_pods workers)
              (machinery.filter_active_pods ps)
              worker_services
              ps_services
              (get_status workers).0
            >> on_tf_job p (update_distributed (get_status workers).0 workers ps))
    distributed_rest-Sparing job =
        >>=-Keeps Sparing (looking-Sparing (get_pods_for_tf_job p job tf_replica_worker)) λ workers.
          >>=-Keeps Sparing (looking-Sparing (get_pods_for_tf_job p job tf_replica_ps)) λ ps.
            >>=-Keeps Sparing (looking-Sparing (get_services_for_tf_job p job tf_replica_worker))
              λ worker_services.
                >>=-Keeps Sparing (looking-Sparing (get_services_for_tf_job p job tf_replica_ps))
                  λ ps_services.
                    >>-Keeps Sparing
                      (managed-Sparing (machinery.filter_active_pods workers)
                        (machinery.filter_active_pods ps) worker_services ps_services
                        (get_status workers).0)
                      (sparing needs_sync
                        (on_tf_job-Within p needs_sync
                          (update_distributed-same (get_status workers).0 workers ps))
                        (λ s made. refl))

    sync_kind-Sparing : (local : Bool) → Keeps Sparing (sync_kind p needs_sync local)
    unfolding sync_kind sync_local sync_distributed
    sync_kind-Sparing true = record { apply = λ s. (local_rest-Sparing s.0).apply s }
    sync_kind-Sparing false = record { apply = λ s. (distributed_rest-Sparing s.0).apply s }

    pub sync_job-Sparing : Keeps Sparing (sync_job p needs_sync)
    unfolding sync_job
    sync_job-Sparing = >>=-Keeps Sparing (reads-Keeps Sparing (λ s. is_local_job s.0)) λ local.
        >>=-Keeps Sparing (sync_kind-Sparing local) λ should_update.
          sparing needs_sync (update_if-Within p needs_sync should_update)
            (λ s made. update_if-Spares should_update s)
