-- ===== src/Tensorflow/Distributed.antt =====
-- pkg/tensorflow/distributed.go: the methods that change the job. Their state is the job and the
-- name generator. `Spec` has the methods that only read;
-- the other children prove what each is for.
pub mod Spec
pub mod Compose
pub mod Requests
pub mod Names
pub mod Hosts
pub mod Prepare
pub mod Nameless
use Prim.Native.String.{◌++◌}
use kubeflow_controller.Common.{
  ℕ, zero, suc, ◌+◌, ◌-◌, String, Bool, Option, none, some, List, [], ◌∷◌, ◌++◌ as append, length,
  ltb, ◌==◌, if◌then◌else◌,
}
use kubeflow_controller.Common.Int.{ℤ, pos, negsuc, ltb_ℤ, eqb_ℤ, ◌-ℤ◌, int32}
use kubeflow_controller.Common.Map.{Map, insert}
use kubeflow_controller.Common.Text.{decimal}
use kubeflow_controller.Common.Outcome.{
  Outcome, ok, panic, deref, index, nil_map_assignment, index_out_of_range,
}
use kubeflow_controller.Common.Outcome
use kubeflow_controller.Common.Go.{Go, pure, lift, gets, modify, reads, attempt, zoom, ◌>>=◌, ◌>>◌}
use kubeflow_controller.Api.{
  Container, PodTemplateSpec, Pod, Service, TfReplicaSpec, TfJob, set_runtime_id, set_template,
}
use kubeflow_controller.Checker.{tf_replica_ps, tf_replica_worker}
use kubeflow_controller.Tensorflow.Types.{
  Event, ActionType, should_add_ps, should_add_ps_service, should_add_worker,
  should_add_worker_service, nothing_event, NameGenerator, generate_name, generate_runtime_id,
}
use Spec.{
  DistributedJob, get_template_index, spec_of, get_worker_spec, get_ps_spec, get_labels,
  get_service_name, port_name, worker_port, generate_tf_cluster_spec,
}

unfoldable pub new_distributed_job :
    TfJob → List Pod → List Pod → List Service → List Service → ℤ → DistributedJob
new_distributed_job job worker_pods ps_pods worker_services ps_services succeeded = record {
  tf_job = job;
  active_worker_pods = worker_pods;
  worker_services = worker_services;
  active_ps_pods = ps_pods;
  ps_services = ps_services;
  service_names = [];
  succeeded_worker_pods = succeeded;
}

-- A write to the element of tfJob.Spec.Specs at an index that was read before.
abbrev write_template :
    ℤ → TfReplicaSpec → PodTemplateSpec → DistributedJob → Outcome DistributedJob
write_template (pos i) spec template dj =
    ok (record dj { tf_job = set_template i spec template dj.tf_job })
write_template (negsuc i) spec template dj = panic index_out_of_range

-- Specs[getTemplateIndex(typ)].Template.Labels = labels
unfoldable pub assign_labels : String → Map String → DistributedJob → Outcome DistributedJob
unfolding get_template_index
assign_labels typ ls dj = Outcome.◌>>=◌ (get_template_index dj.tf_job typ) λ i.
    Outcome.◌>>=◌ (index dj.tf_job.spec.specs i) λ spec.
      Outcome.◌>>=◌ (deref spec.template)
        λ template. write_template i spec (record template { labels = some ls }) dj

-- template.Labels["index"] = index
abbrev set_index : String → Option (Map String) → Outcome (Map String)
set_index i none = panic nil_map_assignment
set_index i (some ls) = ok (insert "index" i ls)

-- template.Spec.Containers[0].Args = args
abbrev set_args : List String → List Container → Outcome (List Container)
set_args args [] = panic index_out_of_range
set_args args (c ∷ cs) = ok (record c { args = args } ∷ cs)

-- GetSpec writes the index and the arguments into the template that the job holds.
unfoldable pub prepare_template : String → ℕ → DistributedJob → Outcome DistributedJob
unfolding get_template_index generate_tf_cluster_spec
prepare_template typ n dj = Outcome.◌>>=◌ (get_template_index dj.tf_job typ) λ i.
    Outcome.◌>>=◌ (index dj.tf_job.spec.specs i) λ spec.
      Outcome.◌>>=◌ (deref spec.template) λ template.
        Outcome.◌>>=◌ (set_index (decimal n) template.labels) λ ls.
          Outcome.◌>>=◌ (generate_tf_cluster_spec dj typ n) λ args.
            Outcome.◌>>=◌ (set_args args template.containers)
              λ cs. write_template i spec (record template { labels = some ls; containers = cs }) dj

unfoldable pub get_spec : String → ℕ → Go DistributedJob TfReplicaSpec
unfolding prepare_template
get_spec typ n = do attempt (prepare_template typ n); reads (λ dj. spec_of typ dj.tf_job)

-- The events for the services of one type: none are added where some exist.
unfoldable pub service_events : ActionType → ℕ → ℤ → List Event
service_events action count expected =
    if count == 0 then record { action = action; number = expected -ℤ pos count } ∷ [] else []

unfoldable pub ps_events : ℕ → ℤ → List Event
ps_events count expected =
    if ltb_ℤ (pos count) expected
    then record { action = should_add_ps; number = expected -ℤ pos count } ∷ []
    else []

unfoldable pub expected_workers : DistributedJob → ℤ → ℤ
expected_workers dj replicas = int32 (replicas -ℤ dj.succeeded_worker_pods)

module _ (names : NameGenerator) where
  open names use {Gen}

  unfoldable pub compose : Go (DistributedJob × Gen) (Unit {0})
  unfolding generate_runtime_id get_labels assign_labels get_worker_spec get_ps_spec
  compose = do
    worker ← reads (λ s. get_worker_spec s.0)
    ps ← reads (λ s. get_ps_spec s.0)
    id ← zoom (λ s. s.1) (λ gen s. (s.0, gen)) (generate_runtime_id names)
    zoom (λ s. s.0) (λ dj s. (dj, s.1))
        do
          modify (λ dj. record dj { tf_job = set_runtime_id id dj.tf_job })
          attempt (λ dj. assign_labels tf_replica_worker (get_labels dj tf_replica_worker) dj)
          attempt (λ dj. assign_labels tf_replica_ps (get_labels dj tf_replica_ps) dj)

  unfoldable pub add_workers : ℕ → ℤ → Go (DistributedJob × Gen) (List Event)
  unfolding compose
  add_workers count expected = do
    compose
    pure (record { action = should_add_worker; number = expected -ℤ pos count } ∷ [])

  unfoldable pub worker_events : ℕ → ℤ → Go (DistributedJob × Gen) (List Event)
  unfolding add_workers
  worker_events count expected s =
      if ltb_ℤ (pos count) expected
      then add_workers count expected s
      else (ok (if eqb_ℤ (pos count) expected then nothing_event ∷ [] else []), s)

  unfoldable pub action : Go (DistributedJob × Gen) (List Event)
  unfolding worker_events service_events ps_events expected_workers
  action = do
    dj ← gets (λ s. s.0)
    worker ← reads (λ s. get_worker_spec s.0)
    workers ← lift (deref worker.replicas)
    ps ← reads (λ s. get_ps_spec s.0)
    expected_ps ← lift (deref ps.replicas)
    let expected_worker = expected_workers dj workers
    let services =
        append
          (service_events should_add_worker_service (length dj.worker_services) expected_worker)
          (service_events should_add_ps_service (length dj.ps_services) expected_ps)
    workers_events ← worker_events (length dj.active_worker_pods) expected_worker
    pure
        (append services (append workers_events (ps_events (length dj.active_ps_pods) expected_ps)))

  -- The service's name is generated anew, and is kept under the replica's own name.
  unfoldable pub get_service : String → ℕ → Go (DistributedJob × Gen) Service
  unfolding generate_name get_labels get_service_name
  get_service typ i = do
    dj ← gets (λ s. s.0)
    let ls = insert "index" (decimal i) (get_labels dj typ)
    let name = get_service_name dj typ i
    generated ← zoom (λ s. s.1) (λ gen s. (s.0, gen)) (generate_name names (name ++ "-"))
    modify (λ s. (record s.0 { service_names = insert name generated s.0.service_names }, s.1))
    pure (record {
      metadata = record {
        name = generated;
        namespace = "";
        uid = "";
        resource_version = "";
        labels = some ls;
        owner_references = [];
        deletion_timestamp = none;
      };
      selector = some ls;
      ports = record { name = port_name; port = worker_port } ∷ [];
    })
