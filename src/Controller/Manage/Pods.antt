-- ===== src/Controller/Manage/Pods.antt =====
-- The loops of manageTFJob over pods, whole: which pods are asked for, and what is then expected.
use kubeflow_controller.Common.{
  ℕ, zero, suc, ◌<◌, String, Bool, none, some, List, [], ◌∷◌, ◌++◌, ◌≡◌, ◌⊎◌, inl, inr, refl, sym,
  ap, ◌∙◌, arith, eq_iff, str_eq, Bool-cases, Option-cases,
}
use mathlib.Core.List.{append-nil, append_assoc}
use kubeflow_controller.Common.Map.{Map, lookup, insert, lookup-insert}
use kubeflow_controller.Common.Text.{decimal}
use kubeflow_controller.Common.Outcome.{Outcome, ok, fail, Err}
use kubeflow_controller.Api.{OwnerReference, TfJob}
use kubeflow_controller.Platform.{Platform, Sync}
use kubeflow_controller.Platform.Cluster.{Cluster, Call, create_pod}
use kubeflow_controller.Platform.Machinery.{Selects}
use kubeflow_controller.Controller.Labels.{match_labels}
use kubeflow_controller.Controller.Util.{new_controller_ref}
use kubeflow_controller.Tensorflow.Distributed.Spec.{DistributedJob}
use kubeflow_controller.Tensorflow.Distributed.Prepare.{
  type_of, cluster_args, template_of-retemplated, retemplated-IsDistributed,
}
use kubeflow_controller.Controller.Manage.{Managed, add_pods}
use kubeflow_controller.Controller.Manage.Rounds.{
  IsReady, pod_template, pod_job, pod_call, asked, add_pod-created, add_pod-refused,
}

-- A request for the i-th pod: in the namespace, owned by the job, with its index among its labels,
-- and with the labels of the selector by which the pods of the type are looked up.
abbrev pub IsPod : String → OwnerReference → Map String → ℕ → Call → Type 0
IsPod namespace ref selector i (create_pod ns template owner) =
    (ns ≡ namespace)
    × (owner ≡ ref)
    × ((ls : Map String) × (template.labels ≡ some ls)
        × (lookup "index" ls ≡ some (decimal i))
        × Selects selector ls)
IsPod namespace ref selector i _ = ⊥

-- Requests for the pods i, i + 1, … and for n of them.
abbrev pub PodsFrom : String → OwnerReference → Map String → ℕ → ℕ → List Call → Type 0
PodsFrom namespace ref selector i zero calls = calls ≡ []
PodsFrom namespace ref selector i (suc n) [] = ⊥
PodsFrom namespace ref selector i (suc n) (call ∷ calls) =
    IsPod namespace ref selector i call × PodsFrom namespace ref selector (suc i) n calls

module _ (cluster : Cluster) where
  -- The API server takes each of these requests, one after the other.
  abbrev pub Taken : List Call → cluster.World → Type 0
  Taken [] w = Unit
  Taken (call ∷ calls) w =
      ((cluster.respond call w).0 ≡ none) × Taken calls (cluster.respond call w).1

  -- It takes each but the last, which it refuses with this error.
  abbrev pub LastRefused : Err → List Call → cluster.World → Type 0
  LastRefused e [] w = ⊥
  LastRefused e (call ∷ calls) w =
      ((calls ≡ []) × ((cluster.respond call w).0 ≡ some e))
      ⊎ (((cluster.respond call w).0 ≡ none) × LastRefused e calls (cluster.respond call w).1)

no_index :
    (job : TfJob) (typ : String) {v : String} → lookup "index" (match_labels job typ) ≡ some v → ⊥
unfolding lookup match_labels
no_index job typ e = cc

-- The index label stands beside those of the selector.
Selects-insert_index :
    (job : TfJob) (typ : String) (ls : Map String) (i : String)
    → Selects (match_labels job typ) ls
    → Selects (match_labels job typ) (insert "index" i ls)
Selects-insert_index job typ ls i h k v e = elim (Bool-cases (str_eq "index" k)) [
  | inl same ↦
      let clash : lookup "index" (match_labels job typ) ≡ some v =
        ap (λ j. lookup j (match_labels job typ)) ((eq_iff "index" k).0 same) ∙ e in
      absurd (no_index job typ clash)
  | inr other ↦ lookup-insert "index" k i ls ∙ rw other (h k v e)
]

module _ (b w : Bool) (dj : DistributedJob) (h : IsReady b w dj) (i : ℕ) where
  -- The job is ready for the next round.
  abbrev next_ready : IsReady b w (record dj { tf_job = pod_job b w dj h i })
  next_ready = record {
    distributed = retemplated-IsDistributed b w dj.tf_job h.distributed (pod_template b w dj h i);
    labels = insert "index" (decimal i) h.labels;
    container = record h.container { args = cluster_args b w dj h.distributed i };
    containers = h.containers;
    labels_lem =
        ap (λ t. t.labels)
          (template_of-retemplated b w dj.tf_job h.distributed (pod_template b w dj h i));
    containers_lem =
        ap (λ t. t.containers)
          (template_of-retemplated b w dj.tf_job h.distributed (pod_template b w dj h i));
  }

module _ (p : Platform) (key : String) where
  open p use {expectations}

  -- How a loop over the pods i, …, i + n - 1 ends: all are asked for and none is refused, or the
  -- last that is asked for is refused, and then one creation fewer is expected.
  abbrev pub Ends :
      String
      → OwnerReference
      → Map String
      → ℕ
      → ℕ
      → Sync p
      → Outcome (Unit {0}) × Managed p
      → Type 0
  Ends namespace ref selector i n sy (r, s') =
      (created : List Call) × (s'.1.session.calls ≡ sy.session.calls ++ created)
      × ((r ≡ ok tt)
            × Taken p.cluster created sy.session.world
            × PodsFrom namespace ref selector i n created
            × (s'.1.store ≡ sy.store)
          ⊎ ((e : Err) × (k : ℕ) × (r ≡ fail e)
              × LastRefused p.cluster e created sy.session.world
              × (k < n)
              × PodsFrom namespace ref selector i (suc k) created
              × (s'.1.store ≡ expectations.creation_observed key sy.store)))

  -- One more call before a loop that ends so.
  Ends-cons :
      (namespace : String) (ref : OwnerReference) (selector : Map String) (i n : ℕ) (call : Call)
      (sy : Sync p) (end : Outcome (Unit {0}) × Managed p)
      → IsPod namespace ref selector i call
      → (p.cluster.respond call sy.session.world).0 ≡ none
      → Ends namespace ref selector (suc i) n (asked p call sy) end
      → Ends namespace ref selector i (suc n) sy end
  Ends-cons namespace ref selector i n call sy end pod took
        (created, calls, inl (r, taken, pods, store)) =
      (
        call ∷ created,
        calls ∙ append_assoc sy.session.calls (call ∷ []) created,
        inl (r, (took, taken), (pod, pods), store),
      )
  Ends-cons namespace ref selector i n call sy end pod took
        (created, calls, inr (e, k, r, refused, below, pods, store)) =
      (
        call ∷ created,
        calls ∙ append_assoc sy.session.calls (call ∷ []) created,
        inr (e, suc k, r, inr (took, refused), omega arith, (pod, pods), store),
      )

  module _ (b w : Bool) where
    round-IsPod :
        (dj : DistributedJob) (h : IsReady b w dj) (i : ℕ)
        → Selects (match_labels dj.tf_job (type_of w)) h.labels
        → IsPod dj.tf_job.metadata.namespace
            (new_controller_ref dj.tf_job)
            (match_labels dj.tf_job (type_of w))
            i
            (pod_call b w dj h i)
    round-IsPod dj h i sel = (
      refl,
      refl,
      (
        insert "index" (decimal i) h.labels,
        refl,
        lookup-insert "index" "index" (decimal i) h.labels,
        Selects-insert_index dj.tf_job (type_of w) h.labels (decimal i) sel,
      ),
    )

    -- The loop over the pods of a type on a ready job does not panic. It asks for pods numbered from
    -- the first on, each in the job's namespace, owned by the job and found by its selector. Either the API
    -- server takes all that are asked for: then there are n, the loop returns without an error, and the
    -- expectations are as before. Or it takes all but the last that is asked for: then the loop returns the
    -- error of that refusal, and one creation fewer is expected. Nothing else is asked for.
    pub add_pods-creates :
        (n i : ℕ) (dj : DistributedJob) (sy : Sync p) (h : IsReady b w dj)
        → Selects (match_labels dj.tf_job (type_of w)) h.labels
        → Ends dj.tf_job.metadata.namespace
            (new_controller_ref dj.tf_job)
            (match_labels dj.tf_job (type_of w))
            i
            n
            sy
            (add_pods p key (type_of w) i n (dj, sy))
    unfolding add_pods match_labels new_controller_ref
    add_pods-creates zero i dj sy h sel =
        ([], sym (append-nil sy.session.calls), inl (refl, tt, refl, refl))
    add_pods-creates (suc n) i dj sy h sel =
        let call = pod_call b w dj h i in
        let dj' : DistributedJob = record dj { tf_job = pod_job b w dj h i } in
        let namespace = dj.tf_job.metadata.namespace in
        let ref = new_controller_ref dj.tf_job in
        let selector = match_labels dj.tf_job (type_of w) in
        elim (Option-cases (p.cluster.respond call sy.session.world).0) [
          | inl e ↦
              rw (add_pod-created p b w key i dj sy h e, add_pods)
                (Ends-cons namespace ref selector i n call sy
                  (add_pods p key (type_of w) (suc i) n (dj', asked p call sy))
                  (round-IsPod dj h i sel) e
                  (add_pods-creates n (suc i) dj' (asked p call sy) (next_ready b w dj h i)
                    (Selects-insert_index dj.tf_job (type_of w) h.labels (decimal i) sel)))
          | inr (x, e) ↦
              rw (add_pod-refused p b w key i dj sy h e, add_pods)
                (
                  call ∷ [],
                  refl,
                  inr (
                    x,
                    zero,
                    refl,
                    inl (refl, e),
                    omega arith,
                    (round-IsPod dj h i sel, refl),
                    refl,
                  ),
                )
        ]
