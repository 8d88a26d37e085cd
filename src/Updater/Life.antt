-- ===== src/Updater/Life.antt =====
-- The status of a distributed job over any sequence of updates.
use mathlib.Core.Path.{subst}
use kubeflow_controller.Common.{Bool, some, List, ◌≡◌, inl, inr, refl, ap, sym, ◌∙◌}
use kubeflow_controller.Common.Int.{ℤ, eqb_ℤ}
use kubeflow_controller.Common.Outcome.{ok}
use kubeflow_controller.Api.{Pod, TfReplicaSpec, TfJob}
use kubeflow_controller.Checker.{tf_replica_ps, tf_replica_worker}
use kubeflow_controller.Tensorflow.Distributed.Spec.{spec_of}
use kubeflow_controller.Updater.Distributed.{new_distributed}
use kubeflow_controller.Updater.Run.{update_distributed}
use kubeflow_controller.Updater.Table.{IsTable}
use kubeflow_controller.Updater.Phases.{phase_of, updated_job, with_pods-IsTable, should_update_lem}

-- A job after some updates, each for the pods that were found then.
pub data Updated (job : TfJob) : TfJob → Type 0 where
  fresh : Updated job job
  again :
      {now : TfJob} (succeeded : ℤ) (worker_pods ps_pods : List Pod)
      → Updated job now
      → Updated job (update_distributed succeeded worker_pods ps_pods now).1

-- The job still has what it came with, and its statuses are a table.
record IsKept (job now : TfJob) : Type 0 where
  spec : now.spec ≡ job.spec
  metadata : now.metadata ≡ job.metadata
  table : IsTable now.status.tf_replica_statuses

module _ (job : TfJob) {spec : TfReplicaSpec} {replicas : ℤ}
    (worker : spec_of tf_replica_worker job ≡ ok spec)
    (wanted : spec.replicas ≡ some replicas) where
  worker_now : {now : TfJob} → IsKept job now → spec_of tf_replica_worker now ≡ ok spec
  unfolding spec_of
  worker_now kept =
      ap (λ spec. spec_of tf_replica_worker (record job { spec = spec })) kept.spec ∙ worker

  -- One more update.
  update-lem :
      {now : TfJob} (succeeded : ℤ) (worker_pods ps_pods : List Pod)
      → IsKept job now
      → let du = new_distributed now succeeded worker_pods ps_pods in
        (b : Bool) × (update_distributed succeeded worker_pods ps_pods now
          ≡ (ok b, updated_job du replicas))
  unfolding update_distributed
  update-lem {now} succeeded worker_pods ps_pods kept =
      let du = new_distributed now succeeded worker_pods ps_pods in
      let e = should_update_lem du (worker_now kept) wanted kept.table in
      (_, ap (λ x. (x.0, x.1.tf_job)) e)

  update-IsKept :
      {now : TfJob} (succeeded : ℤ) (worker_pods ps_pods : List Pod)
      → IsKept job now
      → IsKept job (updated_job (new_distributed now succeeded worker_pods ps_pods) replicas)
  unfolding new_distributed
  update-IsKept succeeded worker_pods ps_pods kept = record {
    spec = kept.spec;
    metadata = kept.metadata;
    table =
        with_pods-IsTable tf_replica_ps ps_pods (inr refl)
          (with_pods-IsTable tf_replica_worker worker_pods (inl refl) kept.table);
  }

  Updated-IsKept :
      {now : TfJob} → IsTable job.status.tf_replica_statuses → Updated job now → IsKept job now
  Updated-IsKept table fresh = record { spec = refl; metadata = refl; table = table }
  Updated-IsKept table (again succeeded worker_pods ps_pods before) =
      let kept = Updated-IsKept table before in
      let (b, e) = update-lem succeeded worker_pods ps_pods kept in
      subst (IsKept job) (sym (ap (λ x. x.1) e)) (update-IsKept succeeded worker_pods ps_pods kept)

  -- However often the status of a distributed job was updated, and for whatever pods: the next update
  -- returns; it leaves the spec and the metadata as they were at first, and statuses that are a table;
  -- and the phase is Succeeded if as many workers have succeeded now as are wanted, and Running if not, whatever it
  -- was before. The job must have a worker spec that gives its replicas, and start with a table of
  -- statuses, such as none.
  pub Updated-update :
      {now : TfJob} (succeeded : ℤ) (worker_pods ps_pods : List Pod)
      → IsTable job.status.tf_replica_statuses
      → Updated job now
      → let (r, next) = update_distributed succeeded worker_pods ps_pods now in
        ((b : Bool) × (r ≡ ok b))
        × (next.spec ≡ job.spec)
        × (next.metadata ≡ job.metadata)
        × IsTable next.status.tf_replica_statuses
        × (next.status.phase ≡ phase_of (eqb_ℤ succeeded replicas))
  unfolding new_distributed
  Updated-update {now} succeeded worker_pods ps_pods table before =
      let kept = Updated-IsKept table before in
      let (b, e) = update-lem succeeded worker_pods ps_pods kept in
      let next_kept = Updated-IsKept table (again succeeded worker_pods ps_pods before) in
      (
        (b, ap (λ x. x.0) e),
        next_kept.spec,
        next_kept.metadata,
        next_kept.table,
        ap (λ x. x.1.status.phase) e,
      )
