-- ===== src/Updater/Phases.antt =====
-- What `ShouldUpdate` answers and what it leaves in the job, for both kinds of job.
use kubeflow_controller.Common.{
  if_true, if_false, eq_refl, is_empty, eq_iff, ℕ, String, Bool, true, false, Option, none, some,
  List, [], ◌∷◌, ◌≡◌, refl, arith, ◌||◌, not, str_eq, if◌then◌else◌, Bool-cases, inl, inr, ◌∙◌, ap,
}
use kubeflow_controller.Common.Int.{ℤ, eqb_ℤ}
use kubeflow_controller.Common.Map.{lookup}
use kubeflow_controller.Common.Outcome.{ok}
use kubeflow_controller.Api.{Pod, TfReplicaStatus, TfReplicaSpec, TfJob, set_statuses, set_phase}
use kubeflow_controller.Checker.{tf_replica_ps, tf_replica_worker}
use kubeflow_controller.Controller.Util.{filter_pods}
use kubeflow_controller.Tensorflow.Distributed.Spec.{spec_of}
use kubeflow_controller.Updater.Statuses.{replica_status, update_tf_replica_statuses}
use kubeflow_controller.Updater.Counts.{entry, replica_status-counts}
use kubeflow_controller.Updater.Table.{
  Statuses, IsTable, IsType, find, replace, update_tf_replica_statuses-replaces, find-replace,
  replace-IsTable,
}
use kubeflow_controller.Updater.Distributed.{
  DistributedUpdater, tf_job_succeeded, tf_job_running, update_phase, should_update,
}

-- The phase that is written: succeeded or running, whatever it was before.
abbrev pub phase_of : Bool → String
phase_of finished = if finished then tf_job_succeeded else tf_job_running

abbrev pub changes_phase : Bool → TfJob → Bool
changes_phase finished job = if finished then true else not (str_eq job.status.phase tf_job_running)

-- The phase is always set to what it should be, and a change is reported.
pub update_phase_lem :
    (finished : Bool) (job : TfJob)
    → update_phase finished job
      ≡ (ok (changes_phase finished job), set_phase (phase_of finished) job)
unfolding update_phase
update_phase_lem true job = refl
update_phase_lem false job = elim (Bool-cases (str_eq job.status.phase tf_job_running)) [
  | inl e ↦
      rw (e, update_phase)
        (ap (λ phase. (ok false, set_phase phase job))
          ((eq_iff job.status.phase tf_job_running).0 e))
  | inr e ↦ rw (e, update_phase)
]

-- The table after an update for the pods of one type.
abbrev pub with_pods : String → List Pod → Statuses → Statuses
with_pods typ pods xs = if is_empty pods then xs else replace typ (replica_status typ pods) xs

update_statuses_lem :
    (pods : List Pod) (typ : String) (job : TfJob)
    → IsTable job.status.tf_replica_statuses
    → update_tf_replica_statuses pods typ job ≡ (
      ok (not (is_empty pods)),
      set_statuses (with_pods typ pods job.status.tf_replica_statuses) job,
    )
update_statuses_lem [] typ job h = update_tf_replica_statuses-replaces [] typ job h
update_statuses_lem (pod ∷ pods) typ job h =
    update_tf_replica_statuses-replaces (pod ∷ pods) typ job h

-- The status of a type has that type.
pub replica_status-typ : (typ : String) (pods : List Pod) → (replica_status typ pods).typ ≡ some typ
unfolding replica_status
replica_status-typ typ pods = refl

-- The table stays one.
pub with_pods-IsTable :
    (typ : String) (pods : List Pod) {xs : Statuses}
    → IsType typ
    → IsTable xs
    → IsTable (with_pods typ pods xs)
with_pods-IsTable typ [] k h = h
with_pods-IsTable typ (pod ∷ pods) k h =
    replace-IsTable typ (replica_status typ (pod ∷ pods)) k (replica_status-typ typ (pod ∷ pods)) h

asked_lem : (a w p : Bool) → (if p || w then true else a) ≡ (a || w || p)
asked_lem a w p = ground arith

abbrev pub finished : DistributedUpdater → ℤ → Bool
finished du replicas = eqb_ℤ du.succeeded_worker_pods replicas

-- The job that `ShouldUpdate` leaves.
abbrev pub updated_job : DistributedUpdater → ℤ → TfJob
updated_job du replicas =
    set_statuses
      (with_pods tf_replica_ps du.ps_pods
        (with_pods tf_replica_worker du.worker_pods du.tf_job.status.tf_replica_statuses))
      (set_phase (phase_of (finished du replicas)) du.tf_job)

-- For a job with a worker spec that gives its replicas, and with a table of statuses, ShouldUpdate
-- returns: it asks for an update if the phase changes, if the job has succeeded, or if there are
-- any pods; the phase becomes Succeeded when as many workers have succeeded as are wanted and
-- Running otherwise; the statuses of the two types are replaced or added; nothing else changes.
pub should_update_lem :
    (du : DistributedUpdater) {spec : TfReplicaSpec} {replicas : ℤ}
    → spec_of tf_replica_worker du.tf_job ≡ ok spec
    → spec.replicas ≡ some replicas
    → IsTable du.tf_job.status.tf_replica_statuses
    → should_update du ≡ (
      ok (
          changes_phase (finished du replicas) du.tf_job
          || not (is_empty du.worker_pods)
          || not (is_empty du.ps_pods)),
      record du { tf_job = updated_job du replicas },
    )
unfolding should_update
should_update_lem du {spec} {replicas} e r h =
    let job₁ = set_phase (phase_of (finished du replicas)) du.tf_job in
    let job₂ =
      set_statuses (with_pods tf_replica_worker du.worker_pods du.tf_job.status.tf_replica_statuses)
        job₁ in
    rw (e, should_update)
      (rw (r, should_update)
        (rw (update_phase_lem (finished du replicas) du.tf_job) (
          rw (update_statuses_lem du.worker_pods tf_replica_worker job₁ h) (
            rw
              (update_statuses_lem du.ps_pods tf_replica_ps job₂
                (with_pods-IsTable tf_replica_worker du.worker_pods (inl refl) h))
              (ap (λ b. (ok b, record du { tf_job = updated_job du replicas }))
                (asked_lem (changes_phase (finished du replicas) du.tf_job)
                  (not (is_empty du.worker_pods)) (not (is_empty du.ps_pods))))))))

-- The status of the type then counts its pods phase by phase.
abbrev pub count_in : String → Option TfReplicaStatus → Option ℕ
count_in phase none = none
count_in phase (some s) = lookup phase s.tf_replicas_states

abbrev pub counted : String → String → Statuses → Option ℕ
counted typ phase xs = count_in phase (find typ xs)

counted-with_pods :
    (typ phase : String) (pods : List Pod) (xs : Statuses)
    → is_empty pods ≡ false
    → counted typ phase (with_pods typ pods xs) ≡ entry (filter_pods pods phase)
counted-with_pods typ phase [] xs h = cc
counted-with_pods typ phase (pod ∷ pods) xs h =
    let new = replica_status typ (pod ∷ pods) in
    ap (count_in phase) (
      find-replace typ typ new xs (replica_status-typ typ (pod ∷ pods)) ∙ if_true _ _ (eq_refl typ))
    ∙ replica_status-counts phase typ (pod ∷ pods)

counted-with_other :
    (typ other phase : String) (pods : List Pod) (xs : Statuses)
    → str_eq other typ ≡ false
    → counted typ phase (with_pods other pods xs) ≡ counted typ phase xs
counted-with_other typ other phase [] xs h = refl
counted-with_other typ other phase (pod ∷ pods) xs h =
    let new = replica_status other (pod ∷ pods) in
    ap (count_in phase)
      (find-replace other typ new xs (replica_status-typ other (pod ∷ pods)) ∙ if_false _ _ h)

-- After ShouldUpdate of a distributed job with worker and parameter server pods, the counts under
-- each of the two types are the numbers of its pods in each phase, and the statuses are a table again.
pub should_update-counts :
    (du : DistributedUpdater) {spec : TfReplicaSpec} {replicas : ℤ} (phase : String)
    → spec_of tf_replica_worker du.tf_job ≡ ok spec
    → spec.replicas ≡ some replicas
    → IsTable du.tf_job.status.tf_replica_statuses
    → is_empty du.worker_pods ≡ false
    → is_empty du.ps_pods ≡ false
    → let statuses = (should_update du).1.tf_job.status.tf_replica_statuses in
      (counted tf_replica_worker phase statuses ≡ entry (filter_pods du.worker_pods phase))
      × (counted tf_replica_ps phase statuses ≡ entry (filter_pods du.ps_pods phase))
      × IsTable statuses
should_update-counts du {spec} {replicas} phase e r h w p =
    let statuses = du.tf_job.status.tf_replica_statuses in
    let after_workers = with_pods tf_replica_worker du.worker_pods statuses in
    rw (should_update_lem du e r h) (
      counted-with_other tf_replica_worker tf_replica_ps phase du.ps_pods after_workers refl
          ∙ counted-with_pods tf_replica_worker phase du.worker_pods statuses w,
      counted-with_pods tf_replica_ps phase du.ps_pods after_workers p,
      with_pods-IsTable tf_replica_ps du.ps_pods (inr refl)
          (with_pods-IsTable tf_replica_worker du.worker_pods (inl refl) h),
    )
