-- ===== src/Updater/Counts.antt =====
-- The counts of a replica status are the numbers of pods in each phase.
use kubeflow_controller.Common.Text.{str_eq_comm}
use kubeflow_controller.Common.{
  ap, ◌∙◌, Option-cases, Bool-cases, inl, inr, eq_refl, ℕ, zero, suc, ◌+◌, String, Option, none,
  some, List, [], ◌∷◌, ◌≡◌, refl, arith, eq_iff, str_eq, if◌then◌else◌,
}
use kubeflow_controller.Common.Map.{Map, lookup, lookup-insert}
use kubeflow_controller.Api.{Pod}
use kubeflow_controller.Updater.Statuses.{count_phase, count_phases, replica_status}
use kubeflow_controller.Controller.Util.{filter_pods}

-- A phase that no pod is in has no entry.
abbrev pub entry : ℕ → Option ℕ
entry zero = none
entry (suc n) = some (suc n)

-- What one pod adds to the entry of its phase.
abbrev one_more : Option ℕ → Option ℕ
one_more none = some 1
one_more (some n) = some (n + 1)

lookup-count_phase :
    (k phase : String) (states : Map ℕ)
    → lookup k (count_phase phase states)
      ≡ (if str_eq phase k then one_more (lookup phase states) else lookup k states)
unfolding count_phase
lookup-count_phase k phase states = elim (Option-cases (lookup phase states)) [
  | inl e ↦ rw (e, count_phase) (lookup-insert phase k 1 states)
  | inr (n, e) ↦ rw (e, count_phase) (lookup-insert phase k (n + 1) states)
]

one_more-entry : (n : ℕ) → one_more (entry n) ≡ entry (suc n)
one_more-entry zero = refl
one_more-entry (suc n) = ap some (omega arith)

lookup-count_phases :
    (k : String) (pods : List Pod) (n : ℕ) (states : Map ℕ)
    → lookup k states ≡ entry n
    → lookup k (count_phases pods states) ≡ entry (n + filter_pods pods k)
unfolding count_phases filter_pods
lookup-count_phases k [] n states h = h ∙ ap entry (omega arith)
lookup-count_phases k (pod ∷ pods) n states h = elim (Bool-cases (str_eq k pod.phase)) [
  | inl same ↦
      let e : k ≡ pod.phase = (eq_iff k pod.phase).0 same in
      lookup-count_phases k pods (suc n) (count_phase pod.phase states) (
        lookup-count_phase k pod.phase states ∙ rw (← e) (rw (eq_refl k) (rw h (one_more-entry n))))
      ∙ rw same (ap entry (omega arith))
  | inr other ↦
      lookup-count_phases k pods n (count_phase pod.phase states)
        (lookup-count_phase k pod.phase states ∙ rw (str_eq_comm pod.phase k) (rw other h))
      ∙ rw other
]

-- The entry of each phase is the number that `filterPods` counts, and there is none for zero.
pub replica_status-counts :
    (k typ : String) (pods : List Pod)
    → lookup k (replica_status typ pods).tf_replicas_states ≡ entry (filter_pods pods k)
unfolding replica_status lookup
replica_status-counts k typ pods = lookup-count_phases k pods 0 [] refl ∙ ap entry (omega arith)
