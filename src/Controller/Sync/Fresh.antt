-- ===== src/Controller/Sync/Fresh.antt =====
-- The first sync of a distributed job: nothing is there for it yet.
use kubeflow_controller.Common.{
  ℕ, suc, ◌<◌, String, Bool, true, false, none, some, List, [], ◌∷◌, map, ◌≡◌, ◌⊎◌, inl, inr, refl,
  ap, ◌∙◌, arith, ◌++◌, All,
}
use Prim.Native.Nat.{◌^◌}
use mathlib.Core.List.{append-nil}
use kubeflow_controller.Common.Int.{pos, int32}
use kubeflow_controller.Common.Map.{Map}
use kubeflow_controller.Common.Outcome.{Outcome, ok}
use kubeflow_controller.Common.Go.{Go, ◌>>=◌, ◌>>◌, resume}
use kubeflow_controller.Common.Go.Keeps.{Preorder, Keeps, >>=-Rel}
use kubeflow_controller.Api.{TfJob}
use kubeflow_controller.Checker.{tf_replica_ps, tf_replica_worker, is_local_job}
use kubeflow_controller.Platform.{Platform, Sync}
use kubeflow_controller.Platform.Cluster.{Call, update_job}
use kubeflow_controller.Platform.Machinery.{MachineryLaws}
use kubeflow_controller.Platform.Requests.{Added, Added-none, Added-trans, Added-map}
use kubeflow_controller.Ref.Service.{claim_services, claim_loop}
use kubeflow_controller.Tensorflow.Distributed.{new_distributed_job}
use kubeflow_controller.Tensorflow.Distributed.Spec.{hosts_flag}
use kubeflow_controller.Tensorflow.Distributed.Compose.{IsDistributed, worker_replicas, ps_replicas}
use kubeflow_controller.Controller.Labels.{match_labels}
use kubeflow_controller.Controller.Util.{get_status}
use kubeflow_controller.Controller.Helper.{
  get_pods_for_tf_job, get_services_for_tf_job, claim_listed_pods, claim_listed_services,
  can_adopt_func,
}
use kubeflow_controller.Controller.Manage.{manage_distributed, manage_tf_job, manage_kind}
use kubeflow_controller.Controller.Manage.Hosts.{with_port}
use kubeflow_controller.Controller.Manage.Services.{generated, generated_gen}
use kubeflow_controller.Controller.Manage.Told.{IsTold}
use kubeflow_controller.Controller.Manage.Planned.{HasContainers}
use kubeflow_controller.Controller.Manage.Fresh.{fresh_pods_told}
use kubeflow_controller.Controller.Sync.{
  Syncing, on_tf_job, manage_if, sync_distributed, sync_kind, update_if, sync_job,
}
use kubeflow_controller.Controller.Sync.Writes.{update_tf_job-calls}
use kubeflow_controller.Updater.Run.{update_distributed}

-- Nothing is there for the job: no pods and no services are listed in its namespace, and claiming no
-- pods and filtering no pods gives none.
pub record HasNothing (p : Platform) (job : TfJob) (w : p.cluster.World) : Type 0 where
  pub selector : String → Map String → Bool
  pub selector_lem :
      (typ : String) → p.machinery.label_selector (match_labels job typ) ≡ ok (selector typ)
  pub no_pods : p.cluster.list_pods job.metadata.namespace w ≡ ok []
  pub no_services : p.cluster.list_services job.metadata.namespace w ≡ ok []
  pub claim_none :
      (typ : String)
      → p.cluster.claim_pods job.metadata (selector typ) (can_adopt_func p job) [] w
        ≡ (ok [], ([], w))
  pub filter_none : p.machinery.filter_active_pods [] ≡ []

distributed-not_local : (b : Bool) (job : TfJob) → IsDistributed b job → is_local_job job ≡ ok false
unfolding is_local_job
distributed-not_local true job h = ground arith
distributed-not_local false job h = ground arith

module _ (p : Platform) (job : TfJob) (s : Sync p)
    (nothing : HasNothing p job s.session.world) where
  open p use {machinery, cluster}

  listed_pods : (typ : String) → get_pods_for_tf_job p job typ s.session ≡ (ok [], s.session)
  unfolding get_pods_for_tf_job claim_listed_pods
  listed_pods typ =
      rw (nothing.selector_lem typ, get_pods_for_tf_job)
        (rw (nothing.no_pods, claim_listed_pods)
          (rw (nothing.claim_none typ, claim_listed_pods)
            (ap (λ calls. (ok [], record s.session { calls = calls }))
              (append-nil s.session.calls))))

  listed_services :
      MachineryLaws machinery
      → (typ : String) → get_services_for_tf_job p job typ s.session ≡ (ok [], s.session)
  unfolding get_services_for_tf_job claim_listed_services claim_services claim_loop
  listed_services laws typ =
      rw (nothing.selector_lem typ, get_services_for_tf_job)
        (rw (nothing.no_services, claim_listed_services)
          (rw (laws.aggregate_none, claim_listed_services) refl))

  -- What the sync is then left with.
  abbrev rest_of_sync : Go (Syncing p) Bool
  rest_of_sync =
      manage_if p true [] [] [] [] (pos 0) >> on_tf_job p (update_distributed (pos 0) [] [])

  sync-rest : MachineryLaws machinery → sync_distributed p true (job, s) ≡ rest_of_sync (job, s)
  unfolding sync_distributed get_status int32
  sync-rest laws =
      rw (listed_pods tf_replica_worker, sync_distributed)
        (rw (listed_pods tf_replica_ps, sync_distributed)
          (rw (listed_services laws tf_replica_worker, sync_distributed)
            (rw (listed_services laws tf_replica_ps, sync_distributed)
              (ap
                (λ pods.
                  (manage_if p true pods pods [] [] (pos 0)
                      >> on_tf_job p (update_distributed (pos 0) [] []))
                    (job, s))
                nothing.filter_none))))

  managed_if :
      {key : String} (b : Bool)
      → IsDistributed b job
      → job.metadata.deletion_timestamp ≡ none
      → machinery.key_func job.metadata ≡ ok key
      → (manage_if p true [] [] [] [] (pos 0) (job, s)).1.1.session.calls
        ≡ (manage_distributed p key
            (new_distributed_job job [] [] [] [] (pos 0), s)).1.1.session.calls
  unfolding manage_if manage_tf_job manage_kind
  managed_if {key} b h alive made =
      let calls_of : Outcome (Unit {0}) × Syncing p → List Call =
        λ (x : Outcome (Unit {0}) × Syncing p). x.1.1.session.calls in
      let kind = λ (key : String) (local : Bool). manage_kind p [] [] [] [] (pos 0) key local in
      let keyed = λ (key : String). (λ (t : Syncing p). (is_local_job t.0, t)) >>= kind key in
      let managed = manage_tf_job p [] [] [] [] (pos 0) (job, s) in
      ap
        (λ t. calls_of (elim t as (λ _. Outcome (Unit {0}) × Syncing p) [
          | none ↦ managed
          | some _ ↦ (ok tt, (job, s))
        ]))
        alive
      ∙ ap (λ r. calls_of (resume r keyed (job, s))) made
      ∙ ap (λ r. calls_of (resume r (kind key) (job, s))) (distributed-not_local b job h)

  sync_job-rest :
      (b : Bool)
      → MachineryLaws machinery
      → IsDistributed b job
      → sync_job p true (job, s) ≡ (rest_of_sync >>= update_if p) (job, s)
  unfolding sync_job sync_kind
  sync_job-rest b laws h =
      ap (λ r. resume r (λ local. sync_kind p true local >>= update_if p) (job, s))
        (distributed-not_local b job h)
      ∙ ap (λ x. resume x.0 (update_if p) x.1) (sync-rest laws)

-- A request of the first sync: one that tells, or the update of a job.
abbrev pub IsFirstCall : String → String → Call → Type 0
IsFirstCall worker_hosts ps_hosts call =
    IsTold worker_hosts ps_hosts call
    ⊎ ((namespace : String) × (job : TfJob) × (call ≡ update_job namespace job))

module _ (p : Platform) (worker_hosts ps_hosts : String) where
  abbrev calls : Syncing p → List Call
  calls s = s.1.session.calls

  abbrev First : Call → Type 0
  First = IsFirstCall worker_hosts ps_hosts

  -- Only such requests are added.
  abbrev Adding : Preorder (Syncing p)
  Adding = record {
    Rel = λ s t. Added First (calls s) (calls t);
    same = λ s. Added-none First (calls s);
    through = λ s t u h k. Added-trans First (calls s) (calls t) (calls u) h k;
  }

  on_tf_job-adds : (m : Go TfJob Bool) → Keeps Adding (on_tf_job p m)
  on_tf_job-adds m = record { apply = λ s. Adding.same s }

  update_if-adds : (b : Bool) → Keeps Adding (update_if p b)
  unfolding update_if
  update_if-adds true = record {
    apply = λ s. (
      update_job s.0.metadata.namespace s.0 ∷ [],
      update_tf_job-calls p s,
      (inr (s.0.metadata.namespace, s.0, refl), tt),
    );
  }
  update_if-adds false = record { apply = λ s. Adding.same s }

  rest-adds :
      (job : TfJob) (s : Sync p) (nothing : HasNothing p job s.session.world)
      → Added First s.session.calls (calls (manage_if p true [] [] [] [] (pos 0) (job, s)).1)
      → Added First s.session.calls
          (calls ((rest_of_sync p job s nothing >>= update_if p) (job, s)).1)
  rest-adds job s nothing h =
      >>=-Rel Adding (rest_of_sync p job s nothing) (update_if p) (job, s)
        (>>=-Rel Adding (manage_if p true [] [] [] [] (pos 0))
          (λ _. on_tf_job p (update_distributed (pos 0) [] [])) (job, s) h
          (λ _. on_tf_job-adds (update_distributed (pos 0) [] [])))
        update_if-adds

-- The first sync of a new distributed job, with both kinds of replicas wanted and nothing listed for it:
-- whatever the API server refuses, each pod that the sync asks for has in its first container the flags
-- with the hosts of all workers and of all parameter servers, where each host is the name generated in
-- this sync for that replica's service, and the port. The other requests are for services, events, and
-- updates of a job. The job's expectations are met, it is not being deleted and has a key, both its
-- templates have a container, and there are fewer than 2^31 workers; to claim or to filter no pods gives
-- none, and no error is the aggregate of no errors.
pub sync_fresh_told :
    (p : Platform) {key : String} (b : Bool) (job : TfJob) (h : IsDistributed b job) (n m : ℕ)
    (s : Sync p)
    → MachineryLaws p.machinery
    → HasNothing p job s.session.world
    → HasContainers b h
    → job.metadata.deletion_timestamp ≡ none
    → p.machinery.key_func job.metadata ≡ ok key
    → worker_replicas b h ≡ pos (suc n)
    → ps_replicas b h ≡ pos (suc m)
    → suc n < 2 ^ 31
    → let gen = (p.names.generate "" s.gen).1 in
      let name = job.metadata.name in
      let workers = generated p key name tf_replica_worker 0 (suc n) gen in
      let after = generated_gen p key name tf_replica_worker 0 (suc n) gen in
      let servers = generated p key name tf_replica_ps 0 (suc m) after in
      let first =
        IsFirstCall
          (hosts_flag "--worker_hosts=" (map with_port workers))
          (hosts_flag "--ps_hosts=" (map with_port servers)) in
      let (_, (_, s')) = sync_job p true (job, s) in
      (new : List Call) × (s'.session.calls ≡ s.session.calls ++ new) × All first new
sync_fresh_told p {key} b job h n m s laws nothing containers alive made workers servers small =
    let (_, told) = fresh_pods_told p key b job h n m s containers workers servers small in
    let managed = managed_if p job s nothing b h alive made in
    rw (sync_job-rest p job s nothing b laws h) (
      rest-adds p _ _ job s nothing (
        rw managed
          (Added-map (IsTold _ _) (IsFirstCall _ _) s.session.calls _ (λ call t. inl t) told)))
