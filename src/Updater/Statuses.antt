-- ===== src/Updater/Statuses.antt =====
-- pkg/controller/updater/util.go. Its getTemplateIndex is that of pkg/tensorflow.
use kubeflow_controller.Common.{
  ℕ, ◌+◌, String, Bool, true, false, Option, none, some, List, [], ◌∷◌, ◌++◌, length, set, ltb,
  ◌==◌, str_eq, if◌then◌else◌,
}
use kubeflow_controller.Common.Int.{ℤ, pos, negsuc}
use kubeflow_controller.Common.Map.{Map, lookup, insert}
use kubeflow_controller.Common.Outcome.{
  Outcome, ok, fail, panic, errorf, replica_status_conflict, deref, index, ◌>>=◌,
}
use kubeflow_controller.Common.Go.{Go}
use kubeflow_controller.Api.{Pod, TfReplicaStatus, TfJob, set_statuses}

-- *replicaStatuses[i].Type
type_at : List (Option TfReplicaStatus) → ℤ → Outcome String
type_at statuses i = do pointer ← index statuses i; status ← deref pointer; deref status.typ

-- The last case: only the status at 1 is left to look at.
second_index : List (Option TfReplicaStatus) → String → Outcome ℤ
unfolding type_at
second_index statuses typ =
    if ltb 1 (length statuses)
    then (type_at statuses (pos 1) >>= λ second. ok (if str_eq second typ then pos 1 else negsuc 0))
    else ok (negsuc 0)

unfoldable pub get_replica_statuses_index : List (Option TfReplicaStatus) → String → Outcome ℤ
unfolding type_at second_index
get_replica_statuses_index statuses typ =
    if ltb 2 (length statuses)
    then fail (errorf replica_status_conflict)
    else if length statuses == 0
    then ok (negsuc 0)
    else (type_at statuses (pos 0) >>= λ first.
        if str_eq first typ then ok (pos 0) else second_index statuses typ)

-- if _, ok := states[phase]; ok { states[phase]++ } else { states[phase] = 1 }
unfoldable pub count_phase : String → Map ℕ → Map ℕ
count_phase phase states = elim (lookup phase states) [
  | none ↦ insert phase 1 states
  | some n ↦ insert phase (n + 1) states
]

unfoldable pub count_phases : List Pod → Map ℕ → Map ℕ
unfolding count_phase
count_phases [] states = states
count_phases (pod ∷ pods) states = count_phases pods (count_phase pod.phase states)

unfoldable pub replica_status : String → List Pod → TfReplicaStatus
unfolding count_phases
replica_status typ pods = record {
  typ = some typ;
  state = "";
  tf_replicas_states = count_phases pods [];
}

-- The write at the index that was found; -1 appends.
abbrev pub put_status :
    ℤ → TfReplicaStatus → List (Option TfReplicaStatus) → List (Option TfReplicaStatus)
put_status (pos i) status statuses = set statuses i (some status)
put_status (negsuc i) status statuses = statuses ++ some status ∷ []

unfoldable pub update_tf_replica_statuses : List Pod → String → Go TfJob Bool
unfolding get_replica_statuses_index replica_status
update_tf_replica_statuses [] typ job = (ok false, job)
update_tf_replica_statuses (pod ∷ pods) typ job =
    elim (get_replica_statuses_index job.status.tf_replica_statuses typ) [
      | ok i ↦ (
        ok true,
        set_statuses (put_status i (replica_status typ (pod ∷ pods)) job.status.tf_replica_statuses)
            job,
      )
      | fail e ↦ (ok false, job)
      | panic p ↦ (panic p, job)
    ]
