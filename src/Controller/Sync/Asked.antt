-- ===== src/Controller/Sync/Asked.antt =====
-- The sync of a local job of which no pod is active and none has succeeded: it asks for one.
use kubeflow_controller.Common.{
  String, Bool, true, false, Option, none, some, List, [], ◌∷◌, ◌++◌, ◌≡◌, ◌⊎◌, inl, inr, refl, sym,
  ap, ◌∙◌, eq_refl, if_true, if◌then◌else◌, Option-cases,
}
use mathlib.Core.Path.{subst, ap₂}
use mathlib.Core.Option
use mathlib.Core.List.{append-nil, append_assoc}
use kubeflow_controller.Common.Int.{ℤ, pos, ◌-ℤ◌}
use kubeflow_controller.Common.Outcome.{Outcome, ok, fail, Err}
use kubeflow_controller.Common.Go.{Go, ◌>>=◌, ◌>>◌, resume}
use kubeflow_controller.Api.{Pod, TfJob}
use kubeflow_controller.Checker.{tf_replica_local, is_local_job}
use kubeflow_controller.Platform.{Platform, Sync}
use kubeflow_controller.Platform.Cluster.{Session, Call, invoke, update_job}
use kubeflow_controller.Platform.Expectations.{ExpectationsLaws}
use kubeflow_controller.Tensorflow.Local.Needs.{HasTemplate}
use kubeflow_controller.Controller.Util.{get_status}
use kubeflow_controller.Controller.Helper.{get_pods_for_tf_job}
use kubeflow_controller.Controller.Manage.{expect, observe}
use kubeflow_controller.Controller.Manage.Started.{
  started, request, asked, after_request, asked-taken, asked-refused, fresh_id, drawn, with_job,
  manage_tf_job-asks,
}
use kubeflow_controller.Controller.Sync.{
  Syncing, on_tf_job, manage_if, sync_local, sync_kind, update_if, sync_job,
}
use kubeflow_controller.Controller.Helper.Patches.{pod_patches, get_pods-calls}
use kubeflow_controller.Controller.Sync.Writes.{update_tf_job-calls, update_tf_job-keeps}
use kubeflow_controller.Updater.Run.{update_local}

-- Nothing runs for the job: of the pods that are claimed none is active and none has succeeded, and
-- filtering no pods gives none.
pub record HasNoActivePod (p : Platform) (job : TfJob) (s : Session p.cluster) : Type 0 where
  pub pods : List Pod
  pub after : Session p.cluster
  pub listed : get_pods_for_tf_job p job tf_replica_local s ≡ (ok pods, after)
  pub inactive : p.machinery.filter_active_pods pods ≡ []
  pub filter_none : p.machinery.filter_active_pods [] ≡ []
  pub unfinished : (get_status pods).0 ≡ pos 0

open_gate {ℓ κ} :
    {T : Type ℓ} {A : Type κ} (o : Option T) (x y : A)
    → o ≡ none
    → (elim o [ none ↦ x | some _ ↦ y ]) ≡ x
open_gate {A = A} o x y e = ap (λ o. elim o as (λ _. A) [ none ↦ x | some _ ↦ y ]) e

module _ (p : Platform) (job : TfJob) (s : Sync p) {key : String} (h : HasTemplate job)
    (kind : is_local_job job ≡ ok true) (made : p.machinery.key_func job.metadata ≡ ok key)
    (alive : job.metadata.deletion_timestamp ≡ none)
    (nothing : HasNoActivePod p job s.session) where
  open p use {machinery, cluster, expectations, names}

  abbrev found : Sync p
  found = record s { session = nothing.after }

  -- The expectations before, and the name generator after the plan.
  abbrev planned : Sync p
  planned = drawn p job h found

  abbrev id : String
  id = fresh_id p job h found

  -- The patches with which the pods are claimed.
  abbrev claims : List Call
  claims = pod_patches p job tf_replica_local s.session.world

  found-calls : nothing.after.calls ≡ s.session.calls ++ claims
  found-calls =
      sym (ap (λ x. x.1.calls) nothing.listed) ∙ get_pods-calls p job tf_replica_local s.session

  manage_if-asks :
      manage_if p true [] [] [] [] (pos 0) (job, found)
      ≡ with_job p job h found (asked p job h id key planned)
  unfolding manage_if
  manage_if-asks =
      open_gate job.metadata.deletion_timestamp _ _ alive
      ∙ manage_tf_job-asks p job h found kind made

  abbrev looked : Go (Syncing p) Bool
  looked = on_tf_job p (update_local (pos 0) nothing.pods)

  sync_local-asks :
      sync_local p true (job, s)
      ≡ ((λ _. with_job p job h found (asked p job h id key planned)) >> looked) (job, s)
  unfolding sync_local
  sync_local-asks =
      rw (nothing.listed, sync_local)
        (ap
            (λ succeeded.
              (manage_if p true (machinery.filter_active_pods nothing.pods)
                    (machinery.filter_active_pods []) [] [] succeeded
                  >> on_tf_job p (update_local succeeded nothing.pods))
                (job, found))
            nothing.unfinished
          ∙ ap₂ (λ pods none. (manage_if p true pods none [] [] (pos 0) >> looked) (job, found))
              nothing.inactive nothing.filter_none
          ∙ ap (λ x. resume x.0 (λ _. looked) x.1) manage_if-asks)

  -- The whole sync, for what asking for the pod came to.
  abbrev ended : Outcome (Unit {0}) × Sync p → Outcome (Unit {0}) × Syncing p
  ended x = (((λ _. with_job p job h found x) >> looked) >>= update_if p) (job, s)

  sync_job-asks : sync_job p true (job, s) ≡ ended (asked p job h id key planned)
  unfolding sync_job sync_kind
  sync_job-asks =
      ap (λ r. resume r (λ local. sync_kind p true local >>= update_if p) (job, s)) kind
      ∙ ap (λ x. resume x.0 (update_if p) x.1) sync_local-asks

  -- What the updater makes of the composed job.
  module _ (laws : ExpectationsLaws expectations) {changes : Bool} {final : TfJob}
      (looks : update_local (pos 0) nothing.pods (started p job h id) ≡ (ok changes, final)) where
    ended-taken : (t : Sync p) → ended (ok tt, t) ≡ update_if p changes (final, t)
    ended-taken t = ap (λ x. resume x.0 (update_if p) (x.1, t)) looks

    abbrev updates : Bool → List Call
    updates b = if b then update_job final.metadata.namespace final ∷ [] else []

    ran :
        (b : Bool) (t : Sync p)
        → let (_, (job', t')) = update_if p b (final, t) in
          (job' ≡ final) × (t'.session.calls ≡ t.session.calls ++ updates b) × (t'.store ≡ t.store)
    unfolding update_if
    ran true t =
        let (same_job, same_store, _) = update_tf_job-keeps p (final, t) in
        (same_job, update_tf_job-calls p (final, t), same_store)
    ran false t = (refl, sym (append-nil t.session.calls), refl)

    abbrev answer : Option Err
    answer = (cluster.respond (request p job h id) nothing.after.world).0

    abbrev Waits : ℤ → Sync p → Type 0
    Waits n t = expectations.pending key t.store ≡ some n

    abbrev pub Asked : Outcome (Unit {0}) × Syncing p → Type 0
    Asked (r, (job', t)) =
        ((answer ≡ none)
          × (job' ≡ final)
          × (t.session.calls ≡ s.session.calls ++ claims ++ request p job h id ∷ updates changes)
          × Waits (pos 1) t)
        ⊎ ((e : Err) × (answer ≡ some e)
            × (r ≡ fail e)
            × (job' ≡ started p job h id)
            × (t.session.calls ≡ s.session.calls ++ claims ++ request p job h id ∷ [])
            × Waits (pos 0) t)

    after_ask : Sync p
    after_ask = record (expect p key (pos 1) planned) {
      session = after_request p job h id key planned;
    }

    expected : expectations.pending key after_ask.store ≡ some (pos 1)
    unfolding after_ask expect
    expected = laws.pending-expect key key (pos 1) s.store ∙ if_true _ _ (eq_refl key)

    observed : expectations.pending key (observe p key after_ask).store ≡ some (pos 0)
    unfolding observe ◌-ℤ◌
    observed =
        laws.pending-observed key key after_ask.store
        ∙ if_true _ _ (eq_refl key)
        ∙ ap (Option.map (λ n. n -ℤ pos 1)) expected

    asked-calls : after_ask.session.calls ≡ s.session.calls ++ claims ++ request p job h id ∷ []
    unfolding after_ask invoke
    asked-calls = ap (λ calls. calls ++ request p job h id ∷ []) found-calls

    taken-Asked : answer ≡ none → Asked (ended (ok tt, after_ask))
    taken-Asked e =
        let (same, calls, store) = ran changes after_ask in
        subst Asked (sym (ended-taken after_ask)) (
          inl (
            e,
            same,
            calls
                ∙ ap (λ calls. calls ++ updates changes) asked-calls
                ∙ append_assoc (s.session.calls ++ claims) (request p job h id ∷ [])
                    (updates changes),
            ap (expectations.pending key) store ∙ expected,
          ))

    observed_calls :
        (observe p key after_ask).session.calls
        ≡ s.session.calls ++ claims ++ request p job h id ∷ []
    unfolding observe
    observed_calls = asked-calls

    refused-Asked : {e : Err} → answer ≡ some e → Asked (ended (fail e, observe p key after_ask))
    refused-Asked {e} refused = inr (e, refused, refl, refl, observed_calls, observed)

    answered-Asked : Asked (ended (asked p job h id key planned))
    unfolding after_ask
    answered-Asked = elim (Option-cases answer) [
      | inl e ↦
          subst (λ x. Asked (ended x)) (sym (asked-taken p job h id key planned e)) (taken-Asked e)
      | inr (x, e) ↦
          subst (λ x. Asked (ended x)) (sym (asked-refused p job h id key planned e))
            (refused-Asked e)
    ]

    -- The pod is asked for, and the answer decides the rest.
    pub sync_job-Asked : Asked (sync_job p true (job, s))
    sync_job-Asked = subst Asked (sym sync_job-asks) answered-Asked
