-- ===== src/Updater/Metadata.antt =====
-- The updaters write the status only: the job's metadata stays.
use kubeflow_controller.Common.{
  String, Bool, Option, none, some, List, [], ◌∷◌, refl, arith, if◌then◌else◌, ◌||◌, true,
}
use kubeflow_controller.Common.Int.{ℤ, eqb_ℤ}
use kubeflow_controller.Common.Outcome.{deref}
use kubeflow_controller.Common.Go.Keeps.{
  Preorder, Keeps, >>=-Keeps, zoom-Keeps, lift-Keeps, pure-Keeps, gets-Keeps, reads-Keeps,
}
use kubeflow_controller.Api.{Pod, TfJob}
use kubeflow_controller.Checker.{tf_replica_ps, tf_replica_worker}
use kubeflow_controller.Tensorflow.Metadata.{SameMeta}
use kubeflow_controller.Tensorflow.Local.{expected_local_worker_number}
use kubeflow_controller.Tensorflow.Distributed.Spec.{spec_of}
use kubeflow_controller.Updater.Statuses.{update_tf_replica_statuses}
use kubeflow_controller.Updater.Distributed.{DistributedUpdater, update_phase, new_distributed}
use kubeflow_controller.Updater.Distributed
use kubeflow_controller.Updater.Local.{LocalUpdater, update_pod_status, new_local}
use kubeflow_controller.Updater.Local
use kubeflow_controller.Updater.Run.{update_local, update_distributed}

abbrev Plain : Preorder TfJob
Plain = SameMeta (λ (job : TfJob). job.metadata)

update_phase-same : (finished : Bool) → Keeps Plain (update_phase finished)
unfolding update_phase
update_phase-same finished = record { apply = λ job. ground arith }

update_statuses-same :
    (pods : List Pod) (typ : String) → Keeps Plain (update_tf_replica_statuses pods typ)
unfolding update_tf_replica_statuses
update_statuses-same pods typ = record { apply = λ job. ground arith }

update_pod_status-same :
    (pod : Option Pod) (updated : Bool) → Keeps Plain (update_pod_status pod updated)
unfolding update_pod_status
update_pod_status-same pod updated = record { apply = λ job. ground arith }

abbrev Locals : Preorder LocalUpdater
Locals = SameMeta (λ (lu : LocalUpdater). lu.tf_job.metadata)

abbrev Distributeds : Preorder DistributedUpdater
Distributeds = SameMeta (λ (du : DistributedUpdater). du.tf_job.metadata)

local_should_update-same : Keeps Locals Local.should_update
unfolding Local.should_update
local_should_update-same = >>=-Keeps Locals (gets-Keeps Locals (λ lu. lu)) λ lu.
    zoom-Keeps Plain Locals (λ lu. lu.tf_job) (λ job lu. record lu { tf_job = job }) (λ t s h. h)
      (>>=-Keeps Plain
        (update_phase-same (eqb_ℤ lu.succeeded_worker_pods expected_local_worker_number))
        (λ updated. update_pod_status-same lu.worker_pod updated))

should_update-same : Keeps Distributeds Distributed.should_update
unfolding Distributed.should_update
should_update-same = >>=-Keeps Distributeds (gets-Keeps Distributeds (λ du. du)) λ du.
    >>=-Keeps Distributeds (reads-Keeps Distributeds (λ du. spec_of tf_replica_worker du.tf_job))
      λ spec. >>=-Keeps Distributeds (lift-Keeps Distributeds (deref spec.replicas)) λ expected.
        zoom-Keeps Plain Distributeds (λ du. du.tf_job) (λ job du. record du { tf_job = job })
          (λ t s h. h)
          (>>=-Keeps Plain (update_phase-same (eqb_ℤ du.succeeded_worker_pods expected)) λ phase.
            >>=-Keeps Plain (update_statuses-same du.worker_pods tf_replica_worker) λ workers.
              >>=-Keeps Plain (update_statuses-same du.ps_pods tf_replica_ps)
                λ ps. pure-Keeps Plain (if ps || workers then true else phase))

-- What the end of a sync writes leaves the metadata alone.
pub update_local-same :
    (succeeded : ℤ) (pods : List Pod) → Keeps Plain (update_local succeeded pods)
unfolding update_local new_local
update_local-same succeeded [] = record {
  apply = λ job.
      local_should_update-same.apply
        (record { tf_job = job; succeeded_worker_pods = succeeded; worker_pod = none });
}
update_local-same succeeded (pod ∷ []) = record {
  apply = λ job.
      local_should_update-same.apply
        (record { tf_job = job; succeeded_worker_pods = succeeded; worker_pod = some pod });
}
update_local-same succeeded (pod ∷ pod' ∷ pods) = record { apply = λ job. refl }

pub update_distributed-same :
    (succeeded : ℤ) (workers ps : List Pod) → Keeps Plain (update_distributed succeeded workers ps)
unfolding update_distributed new_distributed
update_distributed-same succeeded workers ps =
    zoom-Keeps Distributeds Plain (λ job. new_distributed job succeeded workers ps)
      (λ du job. du.tf_job) (λ t s h. h) should_update-same
