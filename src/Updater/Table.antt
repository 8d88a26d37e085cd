-- ===== src/Updater/Table.antt =====
-- The statuses as a table by replica type: an update replaces the entry of its type, or adds it.
use mathlib.Core.Path.{subst}
use kubeflow_controller.Common.Text.{ne_of_str_eq}
use kubeflow_controller.Common.{
  is_empty, sym, ap, ◌∙◌, Option-cases, inl, inr, Bool-cases, String, Bool, true, false, Option,
  none, some, List, [], ◌∷◌, ◌≡◌, ◌≢◌, ◌⊎◌, refl, arith, eq_iff, str_eq, if◌then◌else◌, is_empty,
}
use kubeflow_controller.Common.Int.{ℤ, pos, negsuc}
use kubeflow_controller.Common.Outcome.{ok}
use kubeflow_controller.Api.{Pod, TfReplicaStatus, TfJob, set_statuses}
use kubeflow_controller.Checker.{tf_replica_ps, tf_replica_worker}
use kubeflow_controller.Updater.Statuses.{
  replica_status, get_replica_statuses_index, put_status, update_tf_replica_statuses,
}

abbrev pub Statuses : Type 0
Statuses = List (Option TfReplicaStatus)

-- A status of a worker or a parameter server.
abbrev pub IsType : String → Type 0
IsType typ = (typ ≡ tf_replica_worker) ⊎ (typ ≡ tf_replica_ps)

-- The shape that the updater keeps: at most one status of each of the two types.
pub data IsTable : Statuses → Type 0 where
  empty : IsTable []
  one : (s : TfReplicaStatus) (t : String) → s.typ ≡ some t → IsType t → IsTable (some s ∷ [])
  two :
      (s s' : TfReplicaStatus) (t t' : String)
      → s.typ ≡ some t
      → s'.typ ≡ some t'
      → IsType t
      → IsType t'
      → t ≢ t'
      → IsTable (some s ∷ some s' ∷ [])

abbrev pub has_type : String → TfReplicaStatus → Bool
has_type typ s = elim s.typ [ none ↦ false | some t ↦ str_eq t typ ]

-- The status of a type.
abbrev pub find : String → Statuses → Option TfReplicaStatus
find typ [] = none
find typ (none ∷ xs) = find typ xs
find typ (some s ∷ xs) = if has_type typ s then some s else find typ xs

-- The specification: the entry of the type is replaced where it stands, or added at the end.
abbrev pub replace : String → TfReplicaStatus → Statuses → Statuses
replace typ new [] = some new ∷ []
replace typ new (none ∷ xs) = none ∷ replace typ new xs
replace typ new (some s ∷ xs) =
    if has_type typ s then some new ∷ xs else some s ∷ replace typ new xs

put_status-index :
    (typ : String) (new : TfReplicaStatus) {xs : Statuses}
    → IsTable xs
    → (i : ℤ) × (get_replica_statuses_index xs typ ≡ ok i)
      × (put_status i new xs ≡ replace typ new xs)
unfolding get_replica_statuses_index
put_status-index typ new empty = (negsuc 0, refl, refl)
put_status-index typ new (one s t e h) = elim (Bool-cases (str_eq t typ)) [
  | inl q ↦ (pos 0, ground arith, ground arith)
  | inr q ↦ (negsuc 0, ground arith, ground arith)
]
put_status-index typ new (two s s' t t' e e' h h' d) = elim (Bool-cases (str_eq t typ)) [
  | inl q ↦ (pos 0, ground arith, ground arith)
  | inr q ↦ elim (Bool-cases (str_eq t' typ)) [
    | inl q' ↦ (pos 1, ground arith, ground arith)
    | inr q' ↦ (negsuc 0, ground arith, ground arith)
  ]
]

-- On a table, `updateTFReplicaStatuses` is the specification: with pods, the entry of the type is
-- replaced or added, and nothing else changes; with none, nothing changes.
pub update_tf_replica_statuses-replaces :
    (pods : List Pod) (typ : String) (job : TfJob)
    → IsTable job.status.tf_replica_statuses
    → update_tf_replica_statuses pods typ job ≡ (
        if is_empty pods then (ok false, job) else (
          ok true,
          set_statuses (replace typ (replica_status typ pods) job.status.tf_replica_statuses) job,
        ))
unfolding update_tf_replica_statuses
update_tf_replica_statuses-replaces [] typ job h = refl
update_tf_replica_statuses-replaces (pod ∷ pods) typ job h =
    let (i, found, put) = put_status-index typ (replica_status typ (pod ∷ pods)) h in
    rw (found, update_tf_replica_statuses) (rw put refl)

-- The entry of the type is the new one, and that of any other type is what it was.
pub find-replace :
    (typ j : String) (new : TfReplicaStatus) (xs : Statuses)
    → new.typ ≡ some typ
    → find j (replace typ new xs) ≡ (if str_eq typ j then some new else find j xs)
find-replace typ j new [] h = ground arith
find-replace typ j new (none ∷ xs) h = find-replace typ j new xs h
find-replace typ j new (some s ∷ xs) h = elim (Option-cases s.typ) [
  | inl e ↦ ground (arith, find-replace typ j new xs h)
  | inr (t, e) ↦ ground (arith, find-replace typ j new xs h, eq_iff t typ, eq_iff t j, eq_iff typ j)
]

has_type_of :
    (typ : String) (s : TfReplicaStatus) {t : String}
    → s.typ ≡ some t
    → has_type typ s ≡ str_eq t typ
has_type_of typ s e = ground arith

module _ (typ : String) (new s : TfReplicaStatus) (xs : Statuses) where
  replace_hit : has_type typ s ≡ true → replace typ new (some s ∷ xs) ≡ some new ∷ xs
  replace_hit e = ground arith

  replace_miss :
      has_type typ s ≡ false → replace typ new (some s ∷ xs) ≡ some s ∷ replace typ new xs
  replace_miss e = ground arith

no_third_type :
    {t t' typ : String} → IsType t → IsType t' → IsType typ → t ≢ t' → t ≢ typ → t' ≢ typ → ⊥
no_third_type h h' k d q q' = ground arith

-- A table stays one.
pub replace-IsTable :
    (typ : String) (new : TfReplicaStatus) {xs : Statuses}
    → IsType typ
    → new.typ ≡ some typ
    → IsTable xs
    → IsTable (replace typ new xs)
replace-IsTable typ new k n empty = one new typ n k
replace-IsTable typ new k n (one s t e h) = elim (Bool-cases (str_eq t typ)) [
  | inl q ↦
      subst IsTable (sym (replace_hit typ new s [] (has_type_of typ s e ∙ q))) (one new typ n k)
  | inr q ↦
      subst IsTable (sym (replace_miss typ new s [] (has_type_of typ s e ∙ q)))
        (two s new t typ e n h k (ne_of_str_eq q))
]
replace-IsTable typ new k n (two s s' t t' e e' h h' d) = elim (Bool-cases (str_eq t typ)) [
  | inl q ↦
      subst IsTable (sym (replace_hit typ new s (some s' ∷ []) (has_type_of typ s e ∙ q)))
        (two new s' typ t' n e' k h' (λ p. d ((eq_iff t typ).0 q ∙ p)))
  | inr q ↦ elim (Bool-cases (str_eq t' typ)) [
    | inl q' ↦
        subst IsTable
          (sym (
            replace_miss typ new s (some s' ∷ []) (has_type_of typ s e ∙ q)
            ∙ ap (λ ys. some s ∷ ys) (replace_hit typ new s' [] (has_type_of typ s' e' ∙ q'))))
          (two s new t typ e n h k (ne_of_str_eq q))
    | inr q' ↦ absurd (no_third_type h h' k d (ne_of_str_eq q) (ne_of_str_eq q'))
  ]
]
