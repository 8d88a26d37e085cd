-- ===== src/Updater/Single.antt =====
-- The status of a local job, which has one pod at most.
use kubeflow_controller.Common.Text.{str_eq_comm}
use kubeflow_controller.Common.{String, true, [], ◌∷◌, ◌≡◌, refl, str_eq, Bool-cases, inl, inr}
use kubeflow_controller.Common.Int.{ℤ, pos, eqb_ℤ}
use kubeflow_controller.Common.Map.{lookup, insert}
use kubeflow_controller.Common.Outcome.{ok}
use kubeflow_controller.Api.{Pod, TfJob, set_phase}
use kubeflow_controller.Checker.{tf_replica_local}
use kubeflow_controller.Controller.Util.{filter_pods}
use kubeflow_controller.Updater.Run.{update_local}
use kubeflow_controller.Updater.Counts.{entry}
use kubeflow_controller.Updater.Phases.{phase_of, changes_phase, counted, update_phase_lem}

-- A local job with no pod keeps its replica statuses. Its phase becomes Succeeded if the count of
-- succeeded pods is 1, and Running if not; an update is asked for if the phase changes or is Succeeded.
pub update_local-none :
    (job : TfJob) (succeeded : ℤ)
    → let done = eqb_ℤ succeeded (pos 1) in
      update_local succeeded [] job ≡ (ok (changes_phase done job), set_phase (phase_of done) job)
unfolding update_local
update_local-none job succeeded = rw (update_phase_lem (eqb_ℤ succeeded (pos 1)) job) refl

single_count :
    (phase : String) (pod : Pod)
    → lookup phase (insert pod.phase 1 []) ≡ entry (filter_pods (pod ∷ []) phase)
unfolding lookup insert filter_pods
single_count phase pod =
    rw (str_eq_comm pod.phase phase)
      (elim (Bool-cases (str_eq phase pod.phase)) [ inl e ↦ rw e | inr e ↦ rw e ])

-- Of a local job with one pod, the status counts that pod under its phase, and an update is always asked for.
pub update_local-one :
    (job : TfJob) (succeeded : ℤ) (pod : Pod) (phase : String)
    → let done = eqb_ℤ succeeded (pos 1) in
      let (r, job') = update_local succeeded (pod ∷ []) job in
      (r ≡ ok true)
      × (job'.status.phase ≡ phase_of done)
      × (counted tf_replica_local phase job'.status.tf_replica_statuses
          ≡ entry (filter_pods (pod ∷ []) phase))
      × (job'.spec ≡ job.spec)
unfolding update_local
update_local-one job succeeded pod phase =
    rw (update_phase_lem (eqb_ℤ succeeded (pos 1)) job) (refl, refl, single_count phase pod, refl)
