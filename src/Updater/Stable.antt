-- ===== src/Updater/Stable.antt =====
-- A second ShouldUpdate with the same pods changes nothing.
use kubeflow_controller.Common.{
  eq_refl, if_true, if_false, String, false, none, some, List, [], ◌∷◌, ◌≡◌, refl, sym, ap, ◌∙◌,
  arith, str_eq, inl, inr, Bool-cases,
}
use kubeflow_controller.Common.Int.{ℤ}
use kubeflow_controller.Common.Outcome.{ok}
use kubeflow_controller.Api.{Pod, TfReplicaStatus, TfReplicaSpec, set_statuses, set_phase}
use kubeflow_controller.Checker.{tf_replica_ps, tf_replica_worker}
use kubeflow_controller.Tensorflow.Distributed.Spec.{spec_of}
use kubeflow_controller.Updater.Statuses.{replica_status}
use kubeflow_controller.Updater.Table.{Statuses, IsTable, find, replace, find-replace, has_type}
use kubeflow_controller.Updater.Distributed.{DistributedUpdater, should_update}
use kubeflow_controller.Updater.Phases.{
  with_pods, with_pods-IsTable, replica_status-typ, updated_job, should_update_lem, phase_of,
  finished,
}

-- Replacing an entry by itself.
replace-find :
    (typ : String) (new : TfReplicaStatus) (xs : Statuses)
    → find typ xs ≡ some new
    → replace typ new xs ≡ xs
replace-find typ new [] e = ground arith
replace-find typ new (none ∷ xs) e = ap (λ ys. none ∷ ys) (replace-find typ new xs e)
replace-find typ new (some s ∷ xs) e = elim (Bool-cases (has_type typ s)) [
  | inl here ↦ ground arith
  | inr there ↦
      if_false _ _ there
      ∙ ap (λ ys. some s ∷ ys) (replace-find typ new xs (sym (if_false _ _ there) ∙ e))
]

find-with_pods_self :
    (typ : String) (pod : Pod) (pods : List Pod) (xs : Statuses)
    → find typ (with_pods typ (pod ∷ pods) xs) ≡ some (replica_status typ (pod ∷ pods))
find-with_pods_self typ pod pods xs =
    find-replace typ typ (replica_status typ (pod ∷ pods)) xs (replica_status-typ typ (pod ∷ pods))
    ∙ if_true _ _ (eq_refl typ)

find-with_pods_other :
    (typ other : String) (pods : List Pod) (xs : Statuses)
    → str_eq other typ ≡ false
    → find typ (with_pods other pods xs) ≡ find typ xs
find-with_pods_other typ other [] xs h = refl
find-with_pods_other typ other (pod ∷ pods) xs h =
    find-replace other typ (replica_status other (pod ∷ pods)) xs
      (replica_status-typ other (pod ∷ pods))
    ∙ if_false _ _ h

-- The statuses after the workers' pods and the servers' pods.
abbrev both : List Pod → List Pod → Statuses → Statuses
both workers ps xs = with_pods tf_replica_ps ps (with_pods tf_replica_worker workers xs)

workers-again :
    (workers ps : List Pod) (xs : Statuses)
    → with_pods tf_replica_worker workers (both workers ps xs) ≡ both workers ps xs
workers-again [] ps xs = refl
workers-again (pod ∷ pods) ps xs =
    replace-find tf_replica_worker (replica_status tf_replica_worker (pod ∷ pods))
      (both (pod ∷ pods) ps xs)
      (find-with_pods_other tf_replica_worker tf_replica_ps ps
          (with_pods tf_replica_worker (pod ∷ pods) xs) refl
        ∙ find-with_pods_self tf_replica_worker pod pods xs)

ps-again :
    (ps : List Pod) (xs : Statuses)
    → with_pods tf_replica_ps ps (with_pods tf_replica_ps ps xs) ≡ with_pods tf_replica_ps ps xs
ps-again [] xs = refl
ps-again (pod ∷ pods) xs =
    replace-find tf_replica_ps (replica_status tf_replica_ps (pod ∷ pods))
      (with_pods tf_replica_ps (pod ∷ pods) xs) (find-with_pods_self tf_replica_ps pod pods xs)

both-again :
    (workers ps : List Pod) (xs : Statuses)
    → both workers ps (both workers ps xs) ≡ both workers ps xs
both-again workers ps xs =
    ap (with_pods tf_replica_ps ps) (workers-again workers ps xs)
    ∙ ps-again ps (with_pods tf_replica_worker workers xs)

-- For a job with a worker spec that gives its replicas, and with a table of statuses, asking
-- ShouldUpdate a second time about the same pods leaves the job as the first time left it.
pub should_update_idem :
    (du : DistributedUpdater) {spec : TfReplicaSpec} {replicas : ℤ}
    → spec_of tf_replica_worker du.tf_job ≡ ok spec
    → spec.replicas ≡ some replicas
    → IsTable du.tf_job.status.tf_replica_statuses
    → let du' = (should_update du).1 in (should_update du').1 ≡ du'
unfolding spec_of
should_update_idem du {spec} {replicas} e r h =
    let statuses = du.tf_job.status.tf_replica_statuses in
    let du' : DistributedUpdater = record du { tf_job = updated_job du replicas } in
    let table : IsTable du'.tf_job.status.tf_replica_statuses =
      with_pods-IsTable tf_replica_ps du.ps_pods (inr refl)
        (with_pods-IsTable tf_replica_worker du.worker_pods (inl refl) h) in
    let once = ap (λ x. x.1) (should_update_lem du e r h) in
    ap (λ d. (should_update d).1) once
    ∙ ap (λ x. x.1) (should_update_lem du' e r table)
    ∙ ap
        (λ xs. record du' {
          tf_job = set_statuses xs (set_phase (phase_of (finished du replicas)) du.tf_job);
        })
        (both-again du.worker_pods du.ps_pods statuses)
    ∙ sym once
