-- ===== src/Tensorflow/Distributed/Compose.antt =====
-- compose, on a job with a worker and a parameter server spec: the fresh runtime ID and the labels.
use kubeflow_controller.Common.{
  String, Bool, true, false, some, List, ◌∷◌, ◌≡◌, arith, if◌then◌else◌,
}
use kubeflow_controller.Common.Int.{ℤ}
use kubeflow_controller.Common.Outcome.{ok}
use kubeflow_controller.Api.{PodTemplateSpec, TfReplicaSpec, TfJob, set_runtime_id}
use kubeflow_controller.Checker.{tf_replica_ps, tf_replica_worker}
use kubeflow_controller.Controller.Labels.{match_labels}
use kubeflow_controller.Tensorflow.Types.{NameGenerator}
use kubeflow_controller.Tensorflow.Distributed.Spec.{
  DistributedJob, get_worker_spec, get_ps_spec, spec_of,
}
use kubeflow_controller.Tensorflow.Distributed.{compose}

abbrev pub other_type : Bool → String
other_type worker_first = if worker_first then tf_replica_ps else tf_replica_worker

abbrev pub first_type : Bool → String
first_type worker_first = if worker_first then tf_replica_worker else tf_replica_ps

-- A job whose first two replica specs are those of the workers and of the parameter servers, in
-- the order that `worker_first` says, each with its replicas and its pod template.
pub record IsDistributed (worker_first : Bool) (job : TfJob) : Type 0 where
  pub first : TfReplicaSpec
  pub second : TfReplicaSpec
  pub others : List TfReplicaSpec
  pub first_template : PodTemplateSpec
  pub second_template : PodTemplateSpec
  pub first_replicas : ℤ
  pub second_replicas : ℤ
  pub specs_lem : job.spec.specs ≡ first ∷ second ∷ others
  pub first_type_lem : first.tf_replica_type ≡ some (first_type worker_first)
  pub second_type_lem : second.tf_replica_type ≡ some (other_type worker_first)
  pub first_template_lem : first.template ≡ some first_template
  pub second_template_lem : second.template ≡ some second_template
  pub first_replicas_lem : first.replicas ≡ some first_replicas
  pub second_replicas_lem : second.replicas ≡ some second_replicas

abbrev pub worker_replicas : (b : Bool) {job : TfJob} → IsDistributed b job → ℤ
worker_replicas b h = if b then h.first_replicas else h.second_replicas

abbrev pub ps_replicas : (b : Bool) {job : TfJob} → IsDistributed b job → ℤ
ps_replicas b h = if b then h.second_replicas else h.first_replicas

pub worker_spec_of :
    (b : Bool) (job : TfJob) (h : IsDistributed b job)
    → spec_of tf_replica_worker job ≡ ok (if b then h.first else h.second)
unfolding spec_of
worker_spec_of true job h = ground arith
worker_spec_of false job h = ground arith

pub ps_spec_of :
    (b : Bool) (job : TfJob) (h : IsDistributed b job)
    → spec_of tf_replica_ps job ≡ ok (if b then h.second else h.first)
unfolding spec_of
ps_spec_of true job h = ground arith
ps_spec_of false job h = ground arith

abbrev pub worker_spec : (b : Bool) {job : TfJob} → IsDistributed b job → TfReplicaSpec
worker_spec b h = if b then h.first else h.second

abbrev pub ps_spec : (b : Bool) {job : TfJob} → IsDistributed b job → TfReplicaSpec
ps_spec b h = if b then h.second else h.first

module _ (dj : DistributedJob) where
  pub get_worker_spec_lem :
      (b : Bool) (h : IsDistributed b dj.tf_job) → get_worker_spec dj ≡ ok (worker_spec b h)
  unfolding get_worker_spec
  get_worker_spec_lem b h = worker_spec_of b dj.tf_job h

  pub get_ps_spec_lem :
      (b : Bool) (h : IsDistributed b dj.tf_job) → get_ps_spec dj ≡ ok (ps_spec b h)
  unfolding get_ps_spec
  get_ps_spec_lem b h = ps_spec_of b dj.tf_job h

pub worker_spec-replicas :
    (b : Bool) {job : TfJob} (h : IsDistributed b job)
    → (worker_spec b h).replicas ≡ some (worker_replicas b h)
worker_spec-replicas true h = h.first_replicas_lem
worker_spec-replicas false h = h.second_replicas_lem

pub ps_spec-replicas :
    (b : Bool) {job : TfJob} (h : IsDistributed b job)
    → (ps_spec b h).replicas ≡ some (ps_replicas b h)
ps_spec-replicas true h = h.second_replicas_lem
ps_spec-replicas false h = h.first_replicas_lem

-- A replica spec whose template has these labels.
abbrev pub labelled : TfReplicaSpec → PodTemplateSpec → TfJob → String → TfReplicaSpec
labelled spec template job typ = record spec {
  template = some (record template { labels = some (match_labels job typ) });
}

-- The job that `compose` leaves.
abbrev pub composed : (b : Bool) (job : TfJob) → IsDistributed b job → String → TfJob
composed b job h id =
    let job' = set_runtime_id id job in
    record job {
      spec = record job.spec {
        runtime_id = id;
        specs =
            labelled h.first h.first_template job' (first_type b)
            ∷ labelled h.second h.second_template job' (other_type b)
            ∷ h.others;
      };
    }

module _ (names : NameGenerator) where
  open names use {Gen, generate}

  pub compose_lem :
      (b : Bool) (dj : DistributedJob) (gen : Gen) (h : IsDistributed b dj.tf_job)
      → compose names (dj, gen) ≡ (
        ok tt,
        (record dj { tf_job = composed b dj.tf_job h (generate "" gen).0 }, (generate "" gen).1),
      )
  unfolding compose match_labels
  compose_lem true dj gen h = ground arith
  compose_lem false dj gen h = ground arith
