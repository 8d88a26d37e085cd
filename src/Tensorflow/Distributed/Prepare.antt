-- ===== src/Tensorflow/Distributed/Prepare.antt =====
-- GetSpec on a job whose template has labels and a container: what it writes and what it returns.
use kubeflow_controller.Common.{
  ℕ, String, Bool, true, false, Option, some, List, [], ◌∷◌, ◌≡◌, refl, arith, if◌then◌else◌,
}
use Prim.Native.String.{◌++◌}
use kubeflow_controller.Common.Int.{rounds}
use kubeflow_controller.Common.Map.{Map, insert}
use kubeflow_controller.Common.Text.{decimal}
use kubeflow_controller.Common.Outcome.{ok}
use kubeflow_controller.Api.{Container, PodTemplateSpec, TfReplicaSpec, TfJob}
use kubeflow_controller.Checker.{tf_replica_ps, tf_replica_worker}
use kubeflow_controller.Tensorflow.Distributed.Spec.{
  DistributedJob, spec_of, generate_tf_cluster_spec, hosts_from, hosts_flag, to_lower,
}
use kubeflow_controller.Tensorflow.Distributed.{get_spec, prepare_template}
use kubeflow_controller.Tensorflow.Distributed.Compose.{
  IsDistributed, worker_replicas, ps_replicas, get_worker_spec_lem, get_ps_spec_lem,
  worker_spec-replicas, ps_spec-replicas,
}

-- The replica type of the workers, or of the parameter servers.
abbrev pub type_of : Bool → String
type_of worker = if worker then tf_replica_worker else tf_replica_ps

-- Whether the first replica spec is that of the type.
abbrev pub is_first : Bool → Bool → Bool
is_first true worker = worker
is_first false true = false
is_first false false = true

abbrev pub template_of : (b w : Bool) {job : TfJob} → IsDistributed b job → PodTemplateSpec
template_of b w h = if is_first b w then h.first_template else h.second_template

abbrev pub with_template : Option PodTemplateSpec → TfReplicaSpec → TfReplicaSpec
with_template template spec = record spec { template = template }

-- The job with another template for the type.
abbrev pub retemplated : (b w : Bool) (job : TfJob) → IsDistributed b job → PodTemplateSpec → TfJob
retemplated b w job h template = record job {
  spec = record job.spec {
    specs =
        if is_first b w
        then with_template (some template) h.first ∷ h.second ∷ h.others
        else h.first ∷ with_template (some template) h.second ∷ h.others;
  };
}

abbrev with_specs : List TfReplicaSpec → TfJob → TfJob
with_specs specs job = record job { spec = record job.spec { specs = specs } }

module _ (b : Bool) (job : TfJob) (h : IsDistributed b job) (template : PodTemplateSpec) where
  abbrev first_changed :
      IsDistributed b (with_specs (with_template (some template) h.first ∷ h.second ∷ h.others) job)
  first_changed = record {
    first = with_template (some template) h.first;
    second = h.second;
    others = h.others;
    first_template = template;
    second_template = h.second_template;
    first_replicas = h.first_replicas;
    second_replicas = h.second_replicas;
    specs_lem = refl;
    first_type_lem = h.first_type_lem;
    second_type_lem = h.second_type_lem;
    first_template_lem = refl;
    second_template_lem = h.second_template_lem;
    first_replicas_lem = h.first_replicas_lem;
    second_replicas_lem = h.second_replicas_lem;
  }

  abbrev second_changed :
      IsDistributed b (with_specs (h.first ∷ with_template (some template) h.second ∷ h.others) job)
  second_changed = record {
    first = h.first;
    second = with_template (some template) h.second;
    others = h.others;
    first_template = h.first_template;
    second_template = template;
    first_replicas = h.first_replicas;
    second_replicas = h.second_replicas;
    specs_lem = refl;
    first_type_lem = h.first_type_lem;
    second_type_lem = h.second_type_lem;
    first_template_lem = h.first_template_lem;
    second_template_lem = refl;
    first_replicas_lem = h.first_replicas_lem;
    second_replicas_lem = h.second_replicas_lem;
  }

-- The job is still one of its kind, with the new template.
abbrev pub retemplated-IsDistributed :
    (b w : Bool) (job : TfJob) (h : IsDistributed b job) (template : PodTemplateSpec)
    → IsDistributed b (retemplated b w job h template)
retemplated-IsDistributed true true job h template = first_changed true job h template
retemplated-IsDistributed true false job h template = second_changed true job h template
retemplated-IsDistributed false true job h template = second_changed false job h template
retemplated-IsDistributed false false job h template = first_changed false job h template

pub template_of-retemplated :
    (b w : Bool) (job : TfJob) (h : IsDistributed b job) (template : PodTemplateSpec)
    → template_of b w (retemplated-IsDistributed b w job h template) ≡ template
template_of-retemplated true true job h template = refl
template_of-retemplated true false job h template = refl
template_of-retemplated false true job h template = refl
template_of-retemplated false false job h template = refl

-- The arguments of a container: the hosts of all replicas, the role, and the index.
abbrev pub cluster_args :
    (b w : Bool) (dj : DistributedJob) → IsDistributed b dj.tf_job → ℕ → List String
cluster_args b w dj h n =
    hosts_flag "--worker_hosts=" (hosts_from dj tf_replica_worker 0 (rounds (worker_replicas b h)))
    ∷ hosts_flag "--ps_hosts=" (hosts_from dj tf_replica_ps 0 (rounds (ps_replicas b h)))
    ∷ ("--job_name=" ++ to_lower (type_of w))
    ∷ ("--task_index=" ++ decimal n)
    ∷ []

pub generate_tf_cluster_spec_lem :
    (b w : Bool) (dj : DistributedJob) (h : IsDistributed b dj.tf_job) (n : ℕ)
    → generate_tf_cluster_spec dj (type_of w) n ≡ ok (cluster_args b w dj h n)
unfolding generate_tf_cluster_spec
generate_tf_cluster_spec_lem b w dj h n =
    rw (get_worker_spec_lem dj b h, generate_tf_cluster_spec)
      (rw (worker_spec-replicas b h, generate_tf_cluster_spec)
        (rw (get_ps_spec_lem dj b h, generate_tf_cluster_spec)
          (rw (ps_spec-replicas b h, generate_tf_cluster_spec) refl)))

-- The template that GetSpec leaves: the index among its labels, the arguments in its container.
abbrev pub prepared :
    (b w : Bool) (dj : DistributedJob)
    → IsDistributed b dj.tf_job
    → Map String
    → Container
    → List Container
    → ℕ
    → PodTemplateSpec
prepared b w dj h ls c cs n = record (template_of b w h) {
  labels = some (insert "index" (decimal n) ls);
  containers = record c { args = cluster_args b w dj h n } ∷ cs;
}

prepare_template_lem :
    (b w : Bool) (dj : DistributedJob) (h : IsDistributed b dj.tf_job) {ls : Map String}
    {c : Container} {cs : List Container} (n : ℕ)
    → (template_of b w h).labels ≡ some ls
    → (template_of b w h).containers ≡ c ∷ cs
    → prepare_template (type_of w) n dj
      ≡ ok (record dj { tf_job = retemplated b w dj.tf_job h (prepared b w dj h ls c cs n) })
unfolding prepare_template
prepare_template_lem true true dj h n l k =
    ground (arith, generate_tf_cluster_spec_lem true true dj h n)
prepare_template_lem true false dj h n l k =
    ground (arith, generate_tf_cluster_spec_lem true false dj h n)
prepare_template_lem false true dj h n l k =
    ground (arith, generate_tf_cluster_spec_lem false true dj h n)
prepare_template_lem false false dj h n l k =
    ground (arith, generate_tf_cluster_spec_lem false false dj h n)

spec_of-retemplated :
    (b w : Bool) (job : TfJob) (h : IsDistributed b job) (template : PodTemplateSpec)
    → (spec : TfReplicaSpec) × (spec_of (type_of w) (retemplated b w job h template) ≡ ok spec)
      × (spec.template ≡ some template)
unfolding spec_of
spec_of-retemplated true true job h template =
    (with_template (some template) h.first, ground arith, refl)
spec_of-retemplated true false job h template =
    (with_template (some template) h.second, ground arith, refl)
spec_of-retemplated false true job h template =
    (with_template (some template) h.second, ground arith, refl)
spec_of-retemplated false false job h template =
    (with_template (some template) h.first, ground arith, refl)

-- GetSpec of a distributed job whose template of the type has labels and a container returns the
-- spec with the prepared template, and the job keeps that template: its index label and its
-- arguments are those of the last replica that was prepared.
pub get_spec_lem :
    (b w : Bool) (dj : DistributedJob) (h : IsDistributed b dj.tf_job) {ls : Map String}
    {c : Container} {cs : List Container} (n : ℕ)
    → (template_of b w h).labels ≡ some ls
    → (template_of b w h).containers ≡ c ∷ cs
    → let template = prepared b w dj h ls c cs n in
      (spec : TfReplicaSpec) × (get_spec (type_of w) n dj
        ≡ (ok spec, record dj { tf_job = retemplated b w dj.tf_job h template }))
      × (spec.template ≡ some template)
unfolding get_spec
get_spec_lem b w dj h {ls} {c} {cs} n l k =
    let template = prepared b w dj h ls c cs n in
    let (spec, found, t) = spec_of-retemplated b w dj.tf_job h template in
    (spec, rw (prepare_template_lem b w dj h n l k, get_spec) (rw (found, get_spec) refl), t)
