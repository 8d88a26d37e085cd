-- ===== src/Scenarios/FirstSync.antt =====
-- The first sync of the distributed job.
use kubeflow_controller.Common.{true, false, List, [], ◌++◌, ◌≡◌, ◌⊎◌, All, refl, arith}
use kubeflow_controller.Common.Int.{pos}
use kubeflow_controller.Common.Outcome.{ok, fail}
use kubeflow_controller.Platform.Cluster.{Call}
use kubeflow_controller.Tensorflow.Distributed.{new_distributed_job}
use kubeflow_controller.Controller.Manage.{manage_distributed}
use kubeflow_controller.Controller.Manage.Planned.{HasContainers}
use kubeflow_controller.Controller.Manage.Told.{IsTold}
use kubeflow_controller.Controller.Manage.Fresh.{fresh_pods_told}
use kubeflow_controller.Common.Text.{decimal}
use kubeflow_controller.Tensorflow.Distributed.Spec.{hosts_flag, service_name}
use kubeflow_controller.Controller.Sync.{sync_job}
use kubeflow_controller.Scenarios.Fixtures.{small_platform, fresh_sync}
use kubeflow_controller.Common.Outcome.{Err}
use kubeflow_controller.Scenarios.Jobs.{trainer, two_workers, two_workers-IsDistributed}
use kubeflow_controller.Controller.Sync.Fresh.{HasNothing, IsFirstCall, sync_fresh_told}
use kubeflow_controller.Scenarios.Fixtures.{small_machinery-laws}

two_workers-HasContainers : HasContainers true two_workers-IsDistributed
two_workers-HasContainers true = (trainer, [], refl)
two_workers-HasContainers false = (trainer, [], refl)

fresh_pods_told_example :
    let told =
      IsTold "--worker_hosts=mnist-worker-0-1:2222,mnist-worker-1-2:2222"
        "--ps_hosts=mnist-ps-0-3:2222" in
    let (r, (_, s)) =
      manage_distributed small_platform "mnist"
        (new_distributed_job two_workers [] [] [] [] (pos 0), fresh_sync []) in
    ((r ≡ ok tt) ⊎ ((e : Err) × (r ≡ fail e)))
    × ((new : List Call) × (s.session.calls ≡ [] ++ new) × All told new)
unfolding hosts_flag service_name decimal
fresh_pods_told_example =
    fresh_pods_told small_platform "mnist" true two_workers two_workers-IsDistributed 1 0
      (fresh_sync []) two_workers-HasContainers refl refl (omega arith)

two_workers-HasNothing : HasNothing small_platform two_workers []
two_workers-HasNothing = record {
  selector = λ typ ls. true;
  selector_lem = λ typ. refl;
  no_pods = refl;
  no_services = refl;
  claim_none = λ typ. refl;
  filter_none = refl;
}

sync_fresh_told_example :
    let first =
      IsFirstCall "--worker_hosts=mnist-worker-0-1:2222,mnist-worker-1-2:2222"
        "--ps_hosts=mnist-ps-0-3:2222" in
    let (_, (_, s)) = sync_job small_platform true (two_workers, fresh_sync []) in
    (new : List Call) × (s.session.calls ≡ [] ++ new) × All first new
unfolding hosts_flag service_name decimal
sync_fresh_told_example =
    sync_fresh_told small_platform true two_workers two_workers-IsDistributed 1 0 (fresh_sync [])
      small_machinery-laws two_workers-HasNothing two_workers-HasContainers refl refl refl refl
      (omega arith)
