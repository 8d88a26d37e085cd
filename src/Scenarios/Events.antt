-- ===== src/Scenarios/Events.antt =====
-- Events, and items of the work queue.
use kubeflow_controller.Common.{◌⊎◌, true, false, some, none, List, [], ◌∷◌, ◌≡◌, refl, arith}
use kubeflow_controller.Common.Int.{pos}
use kubeflow_controller.Common.Outcome.{ok, panic, Fault}
use kubeflow_controller.Api.{Pod}
use kubeflow_controller.Platform.Queue.{key}
use kubeflow_controller.Controller.Sync.{Controller, sync_handler}
use kubeflow_controller.Controller.Worker.{process_next_work_item}
use kubeflow_controller.Controller.Worker.Queue.{process_next_work_item-queue}
use kubeflow_controller.Controller.Handlers.{resolve_controller_ref}
use kubeflow_controller.Controller.Handlers.Observed.{add_each, add_each-satisfies}
use kubeflow_controller.Controller.Worker.{run_worker}
use kubeflow_controller.Controller.Worker.Drain.{run_worker-ends}
use kubeflow_controller.Signals.{
  Process, awaiting_first, fresh, setup_signal_handler, notify, receive, set_up, caught,
}
use kubeflow_controller.Signals.Shutdown.{shutdown_once}
use kubeflow_controller.Checker.{is_local_job}
use kubeflow_controller.Controller.Handlers.{update_pod, same_ref}
use kubeflow_controller.Controller.Handlers.Enqueued.{update_pod-enqueues}
use kubeflow_controller.Scenarios.Fixtures.{
  fifo-draining, small_platform, counters-laws, fresh_sync,
}
use kubeflow_controller.Scenarios.Jobs.{meta_of, owner, two_workers, local_job, pod_named}

abbrev pods : List Pod
pods = pod_named "w0" "Pending" (owner ∷ []) ∷ pod_named "w1" "Pending" (owner ∷ []) ∷ []

-- The job waits for two creations.
abbrev waiting : Controller small_platform
waiting = record {
  sync = record (fresh_sync []) { store = λ _. some (pos 2) };
  jobs = some two_workers;
  queue = ([], []);
}

add_each-satisfies_example :
    (small_platform.expectations.satisfied_expectations "mnist"
        (add_each small_platform pods waiting).sync.store
      ≡ true)
    × ((add_each small_platform pods waiting).queue ≡ (key "mnist" ∷ key "mnist" ∷ [], []))
unfolding resolve_controller_ref
add_each-satisfies_example =
    add_each-satisfies small_platform counters-laws two_workers pods (pos 2) waiting refl
      ((owner, refl, refl), ((owner, refl, refl), tt)) refl (omega arith)

-- The process once the signal handler is set up.
abbrev pub after_setup : Process
after_setup = record fresh { goroutine = awaiting_first; only_one_signal_handler_closed = true }

-- Nothing is in the cache, and one key in the queue.
abbrev idle : Controller small_platform
idle = record { sync = fresh_sync []; jobs = none; queue = (key "mnist" ∷ key "other" ∷ [], []) }

process_next_work_item-queue_example :
    (process_next_work_item small_platform idle).1.queue ≡ (key "other" ∷ [], key "mnist" ∷ [])
unfolding sync_handler
process_next_work_item-queue_example = process_next_work_item-queue small_platform "mnist" idle refl

run_worker-ends_example :
    ((run_worker small_platform 3 idle).0 ≡ ok false)
    ⊎ ((f : Fault) × ((run_worker small_platform 3 idle).0 ≡ panic f))
run_worker-ends_example = run_worker-ends small_platform fifo-draining 3 idle (omega arith)

shutdown_once_example :
    let p = notify (after_setup) in
    ((q : Process) × (receive p ≡ ok q))
    × ((p.exit_code ≡ none) ⊎ ((p.exit_code ≡ some 1) × (p.stop_closed ≡ true)))
unfolding setup_signal_handler
shutdown_once_example = shutdown_once (notify after_setup) (caught (set_up refl))

local : is_local_job local_job ≡ ok true
unfolding is_local_job
local = refl

-- A pod that had no controller is adopted.
update_pod-enqueues_example :
    let c' =
      update_pod small_platform
        (pod_named "w0" "Pending" [])
        (record (pod_named "w0" "Pending" (owner ∷ [])) {
          metadata = record (meta_of "w0" (owner ∷ [])) { resource_version = "2" };
        })
        waiting in
    (c'.queue ≡ (key "mnist" ∷ [], [])) × (c'.sync ≡ waiting.sync) × (c'.jobs ≡ waiting.jobs)
unfolding resolve_controller_ref same_ref
update_pod-enqueues_example =
    update_pod-enqueues small_platform (pod_named "w0" "Pending" [])
      (record (pod_named "w0" "Pending" (owner ∷ [])) {
        metadata = record (meta_of "w0" (owner ∷ [])) { resource_version = "2" };
      })
      waiting
