-- ===== src/Updater/Run.antt =====
-- The end of syncHandler in pkg/controller/controller.go: an updater is made for the job and asked
-- whether the status should be updated. What the updater writes, it writes into the job.
use kubeflow_controller.Common.{Bool, List}
use kubeflow_controller.Common.Int.{ℤ}
use kubeflow_controller.Common.Outcome.{ok, fail, panic}
use kubeflow_controller.Common.Go.{Go, zoom}
use kubeflow_controller.Api.{Pod, TfJob}
use kubeflow_controller.Updater.Local.{new_local}
use kubeflow_controller.Updater.Local
use kubeflow_controller.Updater.Distributed.{new_distributed}
use kubeflow_controller.Updater.Distributed

unfoldable pub update_local : ℤ → List Pod → Go TfJob Bool
unfolding new_local Local.should_update
update_local succeeded pods job = elim (new_local job succeeded pods) [
  | ok lu ↦ let (r, lu') = Local.should_update lu in (r, lu'.tf_job)
  | fail e ↦ (fail e, job)
  | panic f ↦ (panic f, job)
]

unfoldable pub update_distributed : ℤ → List Pod → List Pod → Go TfJob Bool
unfolding new_distributed Distributed.should_update
update_distributed succeeded worker_pods ps_pods =
    zoom (λ job. new_distributed job succeeded worker_pods ps_pods) (λ du job. du.tf_job)
      Distributed.should_update
