-- ===== src/Scenarios/Runs.antt =====
-- Syncs, workers and the whole program on the small platform.
use kubeflow_controller.Common.{
  ℕ, String, true, false, some, none, List, [], ◌∷◌, ◌++◌, ◌≡◌, ◌⊎◌, ◌+◌, ◌≤◌, All, refl, arith,
}
use mathlib.Core.Path.{subst}
use kubeflow_controller.Common.Int.{pos, ◌-ℤ◌}
use kubeflow_controller.Common.Outcome.{Outcome, ok, fail, panic, errorf}
use kubeflow_controller.Common.Outcome
use kubeflow_controller.Common.Go.Keeps.{Yields}
use kubeflow_controller.Api.{Service, Pod}
use kubeflow_controller.Platform.Cluster.{Call, ClusterLaws}
use kubeflow_controller.Platform.Queue.{key}
use kubeflow_controller.Platform.Requests.{IsFor}
use kubeflow_controller.Tensorflow.Types.{Event, should_add_worker, should_add_worker_service}
use kubeflow_controller.Tensorflow.Distributed
use kubeflow_controller.Tensorflow.Distributed.{new_distributed_job, expected_workers}
use kubeflow_controller.Tensorflow.Distributed.Requests.{requested}
use kubeflow_controller.Controller.Util.{filter_pods, get_status}
use kubeflow_controller.Controller.Manage.Bounds.{action_bounds}
use kubeflow_controller.Controller.Sync.{Controller, sync_job}
use kubeflow_controller.Controller.Sync.Scope.{may_create}
use kubeflow_controller.Controller.Sync.Within.{sync_job-scoped}
use kubeflow_controller.Controller.Handlers.{a_job}
use kubeflow_controller.Controller.Wiring.{dispatch, job_added}
use kubeflow_controller.Controller.Worker.{process_next_work_item}
use kubeflow_controller.Controller.Worker.Requests.{IsForItem, process_next_work_item-requests}
use kubeflow_controller.Controller.Worker.Roundtrip.{event_syncs_job}
use kubeflow_controller.Controller.Run.{start_workers, work, stop, returned, waiting_for_stop}
use kubeflow_controller.Command.{Clients, runs, returns, fatal, main, after_run, default_flags}
use kubeflow_controller.Command.Main.{main_runs, run_ends}
use kubeflow_controller.Signals.{awaiting_second, setup_signal_handler, fresh, receive, notify}
use kubeflow_controller.System.{
  State, Reachable, start, on_running, threadiness, started, next, alive, caches_synced, worked,
  notified, received, stopped,
}
use kubeflow_controller.System.Lifecycle.{IsRegular, Reachable-IsRegular}
use kubeflow_controller.System.Shutdown.{Steps, shutdown_possible}
use kubeflow_controller.Scenarios.Fixtures.{small_platform, scripted_cluster, numbered, fresh_sync}
use kubeflow_controller.Common.Outcome.{Err}
use kubeflow_controller.Scenarios.Jobs.{two_workers, two_workers-IsDistributed, pod_named}
use kubeflow_controller.Scenarios.Events.{after_setup}

-- The scripted cluster lists no service.
abbrev scripted-laws : ClusterLaws scripted_cluster
scripted-laws = record {
  list_services-near = λ namespace w e.
      subst
        (Yields (λ services.
          All (λ (service : Service). service.metadata.namespace ≡ namespace) services))
        e tt;
  list_pods-near = λ namespace w e.
      subst (Yields (λ pods. All (λ (pod : Pod). pod.metadata.namespace ≡ namespace) pods)) e tt;
  claim_pods-near = λ namespace meta selector may pods w h. tt;
}

sync_job-scoped_example :
    let (_, (job', s')) = sync_job small_platform true (two_workers, fresh_sync []) in
    (job'.metadata ≡ two_workers.metadata)
    × ((new : List Call) × (s'.session.calls ≡ [] ++ new)
        × All (IsFor (may_create true) two_workers.metadata) new)
sync_job-scoped_example =
    sync_job-scoped small_platform scripted-laws true two_workers (fresh_sync [])

-- A key waits, and the cache has its job.
abbrev keyed : Controller small_platform
keyed = record { sync = fresh_sync []; jobs = some two_workers; queue = (key "mnist" ∷ [], []) }

process_next_work_item-requests_example :
    (new : List Call) × ((process_next_work_item small_platform keyed).1.sync.session.calls
      ≡ [] ++ new)
    × All (IsForItem small_platform (some (key "mnist")) (some two_workers) (λ _. none)) new
process_next_work_item-requests_example =
    process_next_work_item-requests small_platform scripted-laws keyed

-- The cache has a job that nobody has asked to sync yet.
abbrev fresh_job : Controller small_platform
fresh_job = record keyed { queue = ([], []) }

event_syncs_job_example :
    let c' =
      (process_next_work_item small_platform
        (dispatch small_platform (job_added (a_job two_workers)) fresh_job)).1 in
    let (_, (job', s)) = sync_job small_platform true (two_workers, fresh_sync []) in
    (c'.sync ≡ s) × (c'.jobs ≡ some job')
event_syncs_job_example =
    event_syncs_job small_platform two_workers fresh_job refl refl refl refl refl

-- The program once its caches have synced and a worker has made a round.
abbrev begun : State small_platform
begun = start small_platform after_setup [] 0 (some two_workers)

abbrev synced : State small_platform
synced = on_running small_platform (start_workers small_platform threadiness true) begun

abbrev after_work : State small_platform
after_work = on_running small_platform (work small_platform) synced

begun-Reachable : Reachable small_platform begun
unfolding setup_signal_handler
begun-Reachable = started [] 0 (some two_workers) refl

synced-Reachable : Reachable small_platform synced
unfolding start
synced-Reachable = next begun-Reachable (alive refl (caches_synced begun refl))

synced-stage : synced.running.stage ≡ waiting_for_stop
unfolding start_workers
synced-stage = refl

after_work-Reachable : Reachable small_platform after_work
unfolding start start_workers
after_work-Reachable = next synced-Reachable (alive refl (worked synced synced-stage))

Reachable-IsRegular_example : IsRegular small_platform after_work.running.stage after_work
Reachable-IsRegular_example = Reachable-IsRegular small_platform after_work after_work-Reachable

shutdown_possible_example :
    (t : State small_platform) × Steps small_platform synced t
    × (t.running.stage ≡ returned (ok tt))
    × (t.running.controller.sync ≡ synced.running.controller.sync)
    × (t.signals.exit_code ≡ none)
unfolding start
shutdown_possible_example =
    shutdown_possible small_platform synced synced-Reachable synced-stage refl

-- A signal was caught and received, and Run returned.
abbrev told_to_stop : State small_platform
told_to_stop = record synced {
  signals = record (notify after_setup) {
    goroutine = awaiting_second;
    buffered = 0;
    stop_closed = true;
  };
}

abbrev over : State small_platform
over = on_running small_platform (stop small_platform) told_to_stop

receives : receive (notify after_setup) ≡ ok told_to_stop.signals
unfolding receive notify
receives = refl

over-Reachable : Reachable small_platform over
unfolding start start_workers notify
over-Reachable =
    next
      (next (next synced-Reachable (alive refl (notified synced)))
        (alive refl (received (record synced { signals = notify after_setup }) receives)))
      (alive refl (stopped told_to_stop synced-stage refl))

over-stage : over.running.stage ≡ returned (ok tt)
unfolding stop
over-stage = refl

run_ends_example :
    ((after_run (ok tt) ≡ returns) × (over.running.workers ≡ 2))
    ⊎ ((after_run (ok tt) ≡ fatal (errorf Outcome.caches_not_synced))
        × (over.running.controller.sync.session.calls ≡ []))
run_ends_example = run_ends small_platform over over-Reachable over-stage

-- Clients that are always made.
abbrev easy_clients : Clients
easy_clients = record {
  Config = String;
  build_config_from_flags = λ url config. ok url;
  new_kube_client = λ _. ok tt;
  new_tf_job_client = λ _. ok tt;
}

main_of : main easy_clients default_flags fresh ≡ runs 2 after_setup
unfolding main setup_signal_handler
main_of = refl

main_runs_example :
    (default_flags.print_version ≡ false)
    × (◌≡◌ {A = ℕ} 2 2)
    × (setup_signal_handler fresh ≡ ok after_setup)
    × ((config : String) × (ok "" ≡ ok config)
        × (◌≡◌ {A = Outcome (Unit {0})} (ok tt) (ok tt))
        × (◌≡◌ {A = Outcome (Unit {0})} (ok tt) (ok tt)))
main_runs_example = main_runs easy_clients default_flags fresh main_of

-- One worker has succeeded.
abbrev one_done : List Pod
one_done = pod_named "w0" "Succeeded" [] ∷ []

action_bounds_example :
    let dj = new_distributed_job two_workers [] [] [] [] (get_status one_done).0 in
    (expected_workers dj (pos 2) ≡ pos 2 -ℤ pos (filter_pods one_done "Succeeded"))
    × ((events : List Event) × ((Distributed.action numbered (dj, 0)).0 ≡ ok events)
        × ((requested should_add_worker events ≡ 0)
            ⊎ (requested should_add_worker events + 0 + filter_pods one_done "Succeeded" ≡ 2))
        × (requested should_add_worker_service events ≤ 2))
action_bounds_example =
    action_bounds numbered true two_workers one_done [] [] [] [] 0 two_workers-IsDistributed 2 refl
      (omega arith) (omega arith)
