-- ===== src/Tensorflow/Distributed/Spec.antt =====
-- pkg/tensorflow/distributed.go: the methods that only read the job.
use Prim.Native.String.{◌++◌, slice, len}
use kubeflow_controller.Common.{ℕ, zero, suc, ◌-◌, String, List, [], ◌∷◌, str_eq, if◌then◌else◌}
use kubeflow_controller.Common.Int.{ℤ, pos, negsuc, rounds}
use kubeflow_controller.Common.Map.{Map, lookup_or}
use kubeflow_controller.Common.Text.{decimal}
use kubeflow_controller.Common.Outcome.{Outcome, ok, deref, index, ◌>>=◌}
use kubeflow_controller.Api.{Pod, Service, TfReplicaSpec, TfJob}
use kubeflow_controller.Checker.{tf_replica_ps, tf_replica_worker}

pub record DistributedJob : Type 0 where
  pub tf_job : TfJob
  pub active_worker_pods : List Pod
  pub worker_services : List Service
  pub active_ps_pods : List Pod
  pub ps_services : List Service
  pub service_names : Map String
  pub succeeded_worker_pods : ℤ

-- Both packages tensorflow and updater have this function.
unfoldable pub get_template_index : TfJob → String → Outcome ℤ
get_template_index job typ = do
  spec ← index job.spec.specs (pos 0)
  typ₀ ← deref spec.tf_replica_type
  if str_eq typ₀ typ then ok (pos 0) else do
    spec' ← index job.spec.specs (pos 1)
    typ₁ ← deref spec'.tf_replica_type
    ok (if str_eq typ₁ typ then pos 1 else negsuc 0)

unfoldable pub spec_of : String → TfJob → Outcome TfReplicaSpec
unfolding get_template_index
spec_of typ job = do i ← get_template_index job typ; index job.spec.specs i

unfoldable pub get_ps_spec : DistributedJob → Outcome TfReplicaSpec
unfolding spec_of
get_ps_spec dj = spec_of tf_replica_ps dj.tf_job

unfoldable pub get_worker_spec : DistributedJob → Outcome TfReplicaSpec
unfolding spec_of
get_worker_spec dj = spec_of tf_replica_worker dj.tf_job

unfoldable pub get_labels : DistributedJob → String → Map String
get_labels dj typ =
    ("kubeflow.caicloud.io", "true")
    ∷ ("job_type", typ)
    ∷ ("runtime_id", dj.tf_job.spec.runtime_id)
    ∷ ("tf_job_name", dj.tf_job.metadata.name)
    ∷ []

-- strings.ToLower, on the two types that it is called with.
abbrev pub to_lower : String → String
to_lower typ =
    if str_eq typ tf_replica_worker
    then "worker"
    else if str_eq typ tf_replica_ps
    then "ps"
    else typ

unfoldable pub service_name : String → String → ℕ → String
service_name job_name typ i = job_name ++ "-" ++ to_lower typ ++ "-" ++ decimal i

unfoldable pub get_service_name : DistributedJob → String → ℕ → String
unfolding service_name
get_service_name dj typ i = service_name dj.tf_job.metadata.name typ i

abbrev pub port_name : String
port_name = "kubeflow-port"

abbrev pub worker_port : ℕ
worker_port = 2222

-- The host of a replica: the name that was generated for its service, and the port.
unfoldable pub host : DistributedJob → String → ℕ → String
unfolding get_service_name
host dj typ i =
    lookup_or "" (get_service_name dj typ i) dj.service_names ++ ":" ++ decimal worker_port

-- for i := from; …: the hosts of `n` replicas
unfoldable pub hosts_from : DistributedJob → String → ℕ → ℕ → List String
unfolding host
hosts_from dj typ i zero = []
hosts_from dj typ i (suc n) = host dj typ i ∷ hosts_from dj typ (suc i) n

-- for _, host := range hosts { s += host + "," }
unfoldable pub add_hosts : String → List String → String
add_hosts s [] = s
add_hosts s (h ∷ hs) = add_hosts (s ++ (h ++ ",")) hs

-- s[:len(s)-1], for a text that is not empty
unfoldable pub drop_last : String → String
drop_last s = slice s 0 (len s - 1)

unfoldable pub hosts_flag : String → List String → String
unfolding add_hosts drop_last
hosts_flag flag hosts = drop_last (add_hosts flag hosts)

unfoldable pub generate_tf_cluster_spec : DistributedJob → String → ℕ → Outcome (List String)
unfolding get_worker_spec get_ps_spec hosts_from hosts_flag
generate_tf_cluster_spec dj typ i = do
  worker ← get_worker_spec dj
  workers ← deref worker.replicas
  ps ← get_ps_spec dj
  parameter_servers ← deref ps.replicas
  ok (
      hosts_flag "--worker_hosts=" (hosts_from dj tf_replica_worker 0 (rounds workers))
      ∷ hosts_flag "--ps_hosts=" (hosts_from dj tf_replica_ps 0 (rounds parameter_servers))
      ∷ ("--job_name=" ++ to_lower typ)
      ∷ ("--task_index=" ++ decimal i)
      ∷ [])
