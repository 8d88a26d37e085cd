-- ===== src/Scenarios/Jobs.antt =====
-- A local job, and a distributed one with two workers and a parameter server.
use kubeflow_controller.Common.{ℕ, String, true, Option, none, some, List, [], ◌∷◌, refl}
use kubeflow_controller.Common.Int.{pos}
use kubeflow_controller.Common.Map.{Map}
use kubeflow_controller.Api.{ObjectMeta, OwnerReference, Container, Pod, TfReplicaSpec, TfJob}
use kubeflow_controller.Checker.{tf_replica_ps, tf_replica_worker, tf_replica_local}
use kubeflow_controller.Controller.Labels.{match_labels}
use kubeflow_controller.Tensorflow.Local.Needs.{HasTemplate}
use kubeflow_controller.Tensorflow.Distributed.Spec.{DistributedJob}
use kubeflow_controller.Tensorflow.Distributed.Compose.{IsDistributed}
use kubeflow_controller.Controller.Manage.Rounds.{IsReady}

abbrev pub meta_of : String → List OwnerReference → ObjectMeta
meta_of name owners = record {
  name = name;
  namespace = "default";
  uid = name;
  resource_version = "1";
  labels = none;
  owner_references = owners;
  deletion_timestamp = none;
}

abbrev pub trainer : Container
trainer = record { name = "tensorflow"; image = "mnist:1"; args = [] }

abbrev replica_spec : String → ℕ → Option (Map String) → TfReplicaSpec
replica_spec typ n ls = record {
  replicas = some (pos n);
  tf_replica_type = some typ;
  template = some (record { labels = ls; containers = trainer ∷ [] });
}

abbrev pub job_with : List TfReplicaSpec → TfJob
job_with specs = record {
  metadata = meta_of "mnist" [];
  spec = record { runtime_id = "r1"; specs = specs };
  status = record { phase = ""; tf_replica_statuses = [] };
}

abbrev pub local_job : TfJob
local_job = job_with (replica_spec tf_replica_local 1 none ∷ [])

abbrev pub local_job-HasTemplate : HasTemplate local_job
local_job-HasTemplate = record {
  spec = replica_spec tf_replica_local 1 none;
  others = [];
  typ = tf_replica_local;
  template = record { labels = none; containers = trainer ∷ [] };
  specs_lem = refl;
  typ_lem = refl;
  template_lem = refl;
}

abbrev labels_for : String → Map String
labels_for typ = match_labels (job_with []) typ

abbrev worker : TfReplicaSpec
worker = replica_spec tf_replica_worker 2 (some (labels_for tf_replica_worker))

abbrev server : TfReplicaSpec
server = replica_spec tf_replica_ps 1 (some (labels_for tf_replica_ps))

abbrev pub two_workers : TfJob
two_workers = job_with (worker ∷ server ∷ [])

abbrev pub two_workers-IsDistributed : IsDistributed true two_workers
two_workers-IsDistributed = record {
  first = worker;
  second = server;
  others = [];
  first_template = record {
    labels = some (labels_for tf_replica_worker);
    containers = trainer ∷ [];
  };
  second_template = record { labels = some (labels_for tf_replica_ps); containers = trainer ∷ [] };
  first_replicas = pos 2;
  second_replicas = pos 1;
  specs_lem = refl;
  first_type_lem = refl;
  second_type_lem = refl;
  first_template_lem = refl;
  second_template_lem = refl;
  first_replicas_lem = refl;
  second_replicas_lem = refl;
}

abbrev pub pod_named : String → String → List OwnerReference → Pod
pod_named name phase owners = record { metadata = meta_of name owners; phase = phase }

-- As NewDistributedJob makes it, with these active pods and no services.
abbrev pub distributed : List Pod → List Pod → DistributedJob
distributed workers ps = record {
  tf_job = two_workers;
  active_worker_pods = workers;
  worker_services = [];
  active_ps_pods = ps;
  ps_services = [];
  service_names = [];
  succeeded_worker_pods = pos 0;
}

abbrev pub ready : (workers ps : List Pod) → IsReady true true (distributed workers ps)
ready workers ps = record {
  distributed = two_workers-IsDistributed;
  labels = labels_for tf_replica_worker;
  container = trainer;
  containers = [];
  labels_lem = refl;
  containers_lem = refl;
}

-- As the controller makes it for the distributed job.
abbrev pub owner : OwnerReference
owner = record {
  api_version = "kubeflow.caicloud.io/v1alpha1";
  kind = "TFJob";
  name = "mnist";
  uid = "mnist";
  controller = some true;
  block_owner_deletion = some true;
}
