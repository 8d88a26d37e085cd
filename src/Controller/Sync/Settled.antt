-- ===== src/Controller/Sync/Settled.antt =====
-- The sync of a local job that has its pod.
use kubeflow_controller.Common.{
  String, Bool, true, false, Option, none, some, List, [], ◌∷◌, ◌++◌, ◌≡◌, refl, ap, sym, ◌∙◌,
  str_eq, if◌then◌else◌,
}
use mathlib.Core.Path.{subst}
use kubeflow_controller.Common.Int.{ℤ, pos, eqb_ℤ}
use kubeflow_controller.Common.Map.{insert}
use kubeflow_controller.Common.Outcome.{Outcome, ok}
use kubeflow_controller.Common.Go.{◌>>=◌, resume}
use kubeflow_controller.Api.{Pod, TfJob, set_phase, set_statuses}
use kubeflow_controller.Checker.{tf_replica_local, is_local_job}
use kubeflow_controller.Platform.{Platform, Sync}
use kubeflow_controller.Platform.Cluster.{Session, Call, update_job}
use kubeflow_controller.Tensorflow.Local.Needs.{HasTemplate}
use kubeflow_controller.Controller.Util.{get_status, pod_succeeded}
use kubeflow_controller.Controller.Helper.{get_pods_for_tf_job}
use kubeflow_controller.Controller.Sync.{
  Syncing, on_tf_job, manage_if, sync_local, sync_kind, update_if, update_tf_job, sync_job,
}
use kubeflow_controller.Controller.Manage.Settled.{Serves, succeeded_one, manage_tf_job-settled}
use kubeflow_controller.Controller.Helper.Patches.{pod_patches, get_pods-calls}
use kubeflow_controller.Controller.Sync.Writes.{update_tf_job-calls, update_tf_job-keeps}
use kubeflow_controller.Updater.Run.{update_local}
use kubeflow_controller.Updater.Phases.{phase_of, update_phase_lem}

-- The status of a local job with this pod.
abbrev pub settled : Pod → TfJob → TfJob
settled pod job =
    set_statuses
      (some (record {
        typ = some tf_replica_local;
        state = "";
        tf_replicas_states = insert pod.phase 1 [];
      })
        ∷ [])
      (set_phase (phase_of (str_eq pod_succeeded pod.phase)) job)

gate-same {ℓ κ} :
    {T : Type ℓ} {A : Type κ} (o : Option T) (b : Bool) (x y : A)
    → x ≡ y
    → (elim o [ none ↦ if b then x else y | some _ ↦ y ]) ≡ y
gate-same none true x y e = e
gate-same none false x y e = refl
gate-same (some t) b x y e = refl

module _ (p : Platform) (job : TfJob) (pod : Pod) where
  open p use {machinery, names}

  pub update_one :
      (succeeded : ℤ)
      → update_local succeeded (pod ∷ []) job ≡ (
        ok true,
        set_statuses
            (settled pod job).status.tf_replica_statuses
            (set_phase (phase_of (eqb_ℤ succeeded (pos 1))) job),
      )
  unfolding update_local
  update_one succeeded = rw (update_phase_lem (eqb_ℤ succeeded (pos 1)) job) refl

  is_one : (b : Bool) → eqb_ℤ (if b then pos 1 else pos 0) (pos 1) ≡ b
  is_one true = refl
  is_one false = refl

  update_settles :
      update_local (get_status (pod ∷ [])).0 (pod ∷ []) job ≡ (ok true, settled pod job)
  update_settles =
      update_one (get_status (pod ∷ [])).0
      ∙ ap
          (λ b. (
            ok true,
            set_statuses (settled pod job).status.tf_replica_statuses (set_phase (phase_of b) job),
          ))
          (ap (λ z. eqb_ℤ z (pos 1)) (succeeded_one pod) ∙ is_one (str_eq pod_succeeded pod.phase))

  module _ (s : Sync p) (h : HasTemplate job) (serves : Serves p pod) where
    manage_if-settled :
        {key : String} (needs_sync : Bool)
        → is_local_job job ≡ ok true
        → machinery.key_func job.metadata ≡ ok key
        → manage_if p needs_sync
            (machinery.filter_active_pods (pod ∷ []))
            (machinery.filter_active_pods [])
            []
            []
            (get_status (pod ∷ [])).0
            (job, s)
          ≡ (ok tt, (job, s))
    unfolding manage_if
    manage_if-settled needs_sync kind made =
        gate-same job.metadata.deletion_timestamp needs_sync _ _
          (manage_tf_job-settled p job pod s h serves kind made)

module _ (p : Platform) (needs_sync : Bool) (job : TfJob) (s : Sync p) (pod : Pod)
    {after : Session p.cluster} {key : String} (h : HasTemplate job)
    (kind : is_local_job job ≡ ok true) (made : p.machinery.key_func job.metadata ≡ ok key)
    (listed : get_pods_for_tf_job p job tf_replica_local s.session ≡ (ok (pod ∷ []), after))
    (serves : Serves p pod) where
  abbrev found : Sync p
  found = record s { session = after }

  sync_local-settled : sync_local p needs_sync (job, s) ≡ (ok true, (settled pod job, found))
  unfolding sync_local
  sync_local-settled =
      let update = on_tf_job p (update_local (get_status (pod ∷ [])).0 (pod ∷ [])) in
      rw (listed, sync_local)
        (ap (λ x. resume x.0 (λ _. update) x.1)
            (manage_if-settled p job pod found h serves needs_sync kind made)
          ∙ ap (λ x. (x.0, (x.1, found))) (update_settles p job pod))

  sync_job-settled : sync_job p needs_sync (job, s) ≡ update_tf_job p (settled pod job, found)
  unfolding sync_job sync_kind update_if
  sync_job-settled =
      ap (λ r. resume r (λ local. sync_kind p needs_sync local >>= update_if p) (job, s)) kind
      ∙ ap (λ x. resume x.0 (update_if p) x.1) sync_local-settled

  -- The patches with which the pods are claimed.
  abbrev claims : List Call
  claims = pod_patches p job tf_replica_local s.session.world

  listed-calls : after.calls ≡ s.session.calls ++ claims
  listed-calls = sym (ap (λ x. x.1.calls) listed) ∙ get_pods-calls p job tf_replica_local s.session

  abbrev pub Settles : Outcome (Unit {0}) × Syncing p → Type 0
  Settles (_, (job', s')) =
      (job' ≡ settled pod job)
      × (s'.session.calls
          ≡ s.session.calls ++ claims ++ update_job job.metadata.namespace (settled pod job) ∷ [])
      × (s'.store ≡ s.store)
      × (s'.gen ≡ s.gen)

  pub after_one : Settles (sync_job p needs_sync (job, s))
  after_one =
      let end : Syncing p = (settled pod job, found) in
      let (same_job, same_store, same_gen) = update_tf_job-keeps p end in
      subst Settles (sym sync_job-settled) (
        same_job,
        update_tf_job-calls p end
            ∙ ap (λ calls. calls ++ update_job job.metadata.namespace (settled pod job) ∷ [])
                listed-calls,
        same_store,
        same_gen,
      )

settled-HasTemplate : (pod : Pod) (job : TfJob) → HasTemplate job → HasTemplate (settled pod job)
settled-HasTemplate pod job h = record {
  spec = h.spec;
  others = h.others;
  typ = h.typ;
  template = h.template;
  specs_lem = h.specs_lem;
  typ_lem = h.typ_lem;
  template_lem = h.template_lem;
}

settled-kind :
    (pod : Pod) (job : TfJob)
    → is_local_job job ≡ ok true
    → is_local_job (settled pod job) ≡ ok true
unfolding is_local_job
settled-kind pod job e = e

-- A local job with one pod, which is active or has succeeded, is settled: two syncs in a row, whether the
-- job's expectations are met or not, each make one request beside the patches with which ClaimPods
-- adopts and releases pods in them, the same update of the job, and the
-- second leaves the job as the first left it. Its only status counts that pod; its phase is Succeeded if
-- the pod has succeeded, and Running if not. Its expectations and its name generator are left alone.
-- Both syncs must have claimed just that pod; the job has a key, and a type and a template in its first spec.
pub sync_job-settles :
    (p : Platform) (needs_sync needs_sync' : Bool) (job : TfJob) (s : Sync p) (pod : Pod)
    {after after' : Session p.cluster} {key : String}
    → HasTemplate job
    → is_local_job job ≡ ok true
    → p.machinery.key_func job.metadata ≡ ok key
    → Serves p pod
    → get_pods_for_tf_job p job tf_replica_local s.session ≡ (ok (pod ∷ []), after)
    → get_pods_for_tf_job p
        (settled pod job)
        tf_replica_local
        (sync_job p needs_sync (job, s)).1.1.session
      ≡ (ok (pod ∷ []), after')
    → let (_, (job', s')) = sync_job p needs_sync (job, s) in
      let (_, (job'', s'')) = sync_job p needs_sync' (job', s') in
      let update = update_job job.metadata.namespace (settled pod job) in
      let claims = pod_patches p job tf_replica_local s.session.world in
      let claims' = pod_patches p (settled pod job) tf_replica_local s'.session.world in
      (job' ≡ settled pod job)
      × (job'' ≡ settled pod job)
      × (s''.session.calls ≡ s.session.calls ++ claims ++ (update ∷ []) ++ claims' ++ (update ∷ []))
      × (s''.store ≡ s.store)
      × (s''.gen ≡ s.gen)
sync_job-settles p needs_sync needs_sync' job s pod h kind made serves listed listed' =
    let s' = (sync_job p needs_sync (job, s)).1.1 in
    let (same, calls, store, gen) = after_one p needs_sync job s pod h kind made listed serves in
    let (same', calls', store', gen') =
      after_one p needs_sync' (settled pod job) s' pod (settled-HasTemplate pod job h)
        (settled-kind pod job kind) made listed' serves in
    let update : Call = update_job job.metadata.namespace (settled pod job) in
    let claims = pod_patches p job tf_replica_local s.session.world in
    let claims' = pod_patches p (settled pod job) tf_replica_local s'.session.world in
    subst
      (λ now.
        let (_, (job'', s'')) = sync_job p needs_sync' (now, s') in
        (now ≡ settled pod job)
        × (job'' ≡ settled pod job)
        × (s''.session.calls
            ≡ s.session.calls ++ claims ++ (update ∷ []) ++ claims' ++ (update ∷ []))
        × (s''.store ≡ s.store)
        × (s''.gen ≡ s.gen))
      (sym same)
      (
        refl,
        same',
        calls' ∙ ap (λ calls. calls ++ claims' ++ (update ∷ [])) calls,
        store' ∙ store,
        gen' ∙ gen,
      )
