-- ===== src/Scenarios/Plans.antt =====
-- What the two jobs ask for.
use kubeflow_controller.Common.{String, All, none, true, some, List, [], ◌∷◌, ◌≡◌}
use kubeflow_controller.Common.Int.{pos, int32, ◌-ℤ◌}
use kubeflow_controller.Common.Outcome.{ok}
use kubeflow_controller.Api.{TfReplicaSpec}
use kubeflow_controller.Checker.{tf_replica_ps, tf_replica_worker}
use kubeflow_controller.Tensorflow.Types.{
  Event, should_add_ps, should_add_ps_service, should_add_worker, should_add_worker_service,
  nothing_event,
}
use kubeflow_controller.Tensorflow.Local
use kubeflow_controller.Tensorflow.Local.{new_local_job}
use kubeflow_controller.Tensorflow.Local.Needs.{local_action_asks}
use kubeflow_controller.Tensorflow.Distributed
use kubeflow_controller.Tensorflow.Distributed.{expected_workers, get_spec}
use kubeflow_controller.Tensorflow.Distributed.Prepare.{get_spec_lem, prepared, retemplated}
use kubeflow_controller.Tensorflow.Distributed.Requests.{requested, action_requests}
use kubeflow_controller.Tensorflow.Distributed.Nameless.{hosts_without_names}
use kubeflow_controller.Api.{Service}
use kubeflow_controller.Tensorflow.Distributed.Spec.{hosts_from}
use kubeflow_controller.Tensorflow.Distributed.{new_distributed_job}
use kubeflow_controller.Scenarios.Fixtures.{numbered}
use kubeflow_controller.Scenarios.Jobs.{
  meta_of, local_job, local_job-HasTemplate, two_workers, two_workers-IsDistributed, distributed,
  pod_named, ready,
}

abbrev some_service : Service
some_service = record { metadata = meta_of "s" []; selector = none; ports = [] }

-- One worker is active, and nothing else: one worker, a parameter server, and all services.
action_requests_example :
    let result =
      (Distributed.action numbered (distributed (pod_named "w0" "Running" [] ∷ []) [], 0)).0 in
    (events : List Event) × (result ≡ ok events)
    × (requested should_add_worker events ≡ 1)
    × (requested should_add_ps events ≡ 1)
    × (requested should_add_worker_service events ≡ 2)
    × (requested should_add_ps_service events ≡ 1)
unfolding expected_workers int32 ◌-ℤ◌
action_requests_example =
    action_requests numbered true (distributed (pod_named "w0" "Running" [] ∷ []) []) 0
      two_workers-IsDistributed

local_action_asks_example :
    (Local.action numbered (new_local_job local_job [] (pos 1), 0)).0 ≡ ok nothing_event
local_action_asks_example = local_action_asks numbered local_job [] (pos 1) 0 local_job-HasTemplate

get_spec_lem_example :
    let dj = distributed [] [] in
    let h = ready [] [] in
    let template = prepared true true dj h.distributed h.labels h.container h.containers 1 in
    (spec : TfReplicaSpec) × (get_spec tf_replica_worker 1 dj
      ≡ (ok spec, record dj { tf_job = retemplated true true two_workers h.distributed template }))
    × (spec.template ≡ some template)
get_spec_lem_example =
    get_spec_lem true true (distributed [] []) two_workers-IsDistributed 1 (ready [] []).labels_lem
      (ready [] []).containers_lem

hosts_without_names_example :
    let dj =
      new_distributed_job two_workers [] [] (some_service ∷ []) (some_service ∷ []) (pos 0) in
    let (r, (dj', _)) = Distributed.action numbered (dj, 0) in
    (events : List Event) × (r ≡ ok events)
    × (requested should_add_worker_service events ≡ 0)
    × (requested should_add_ps_service events ≡ 0)
    × All (λ (h : String). h ≡ ":2222") (hosts_from dj' tf_replica_ps 0 2)
hosts_without_names_example =
    hosts_without_names numbered true two_workers [] [] some_service some_service [] [] (pos 0) 0
      tf_replica_ps 2 two_workers-IsDistributed
