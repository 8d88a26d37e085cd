-- ===== src/Tensorflow/Local.antt =====
-- pkg/tensorflow/local.go. The state of a method is the job and the name generator.
pub mod Needs
use kubeflow_controller.Common.{String, Option, none, some, List, [], ◌∷◌, if◌then◌else◌}
use kubeflow_controller.Common.Int.{ℤ, pos, ltb_ℤ, ◌-ℤ◌}
use kubeflow_controller.Common.Map.{Map}
use kubeflow_controller.Common.Outcome.{Outcome, ok, deref, index}
use kubeflow_controller.Common.Outcome
use kubeflow_controller.Common.Go.{Go, pure, gets, modify, reads, attempt, zoom, ◌>>=◌, ◌>>◌}
use kubeflow_controller.Api.{Pod, TfJob, set_runtime_id, set_template}
use kubeflow_controller.Tensorflow.Types.{
  Event, should_add_worker, nothing_event, NameGenerator, generate_runtime_id,
}

abbrev pub expected_local_worker_number : ℤ
expected_local_worker_number = pos 1

pub record LocalJob : Type 0 where
  pub tf_job : TfJob
  pub pod : Option Pod
  pub succeeded : ℤ

-- The pod is nil unless there is exactly one.
only_pod : List Pod → Option Pod
only_pod [] = none
only_pod (p ∷ []) = some p
only_pod (p ∷ q ∷ ps) = none

unfoldable pub new_local_job : TfJob → List Pod → ℤ → LocalJob
unfolding only_pod
new_local_job job active_pods succeeded = record {
  tf_job = job;
  pod = only_pod active_pods;
  succeeded = succeeded;
}

unfoldable pub labels : LocalJob → Outcome (Map String)
labels lj = Outcome.◌>>=◌ (index lj.tf_job.spec.specs (pos 0)) λ spec.
    Outcome.◌>>=◌ (deref spec.tf_replica_type) λ typ. ok (
      ("kubeflow.caicloud.io", "true")
      ∷ ("job_type", typ)
      ∷ ("runtime_id", lj.tf_job.spec.runtime_id)
      ∷ ("tf_job_name", lj.tf_job.metadata.name)
      ∷ [])

-- lj.tfJob.Spec.Specs[0].Template.Labels = labels
unfoldable pub assign_labels : Map String → LocalJob → Outcome LocalJob
assign_labels ls lj = Outcome.◌>>=◌ (index lj.tf_job.spec.specs (pos 0)) λ spec.
    Outcome.◌>>=◌ (deref spec.template) λ template.
      ok (record lj {
        tf_job = set_template 0 spec (record template { labels = some ls }) lj.tf_job;
      })

-- The number of pods that the job has running, as `Action` counts them.
unfoldable pub active : LocalJob → ℤ
active lj = elim lj.pod [ none ↦ pos 0 | some p ↦ pos 1 ]

module _ (names : NameGenerator) where
  open names use {Gen}

  unfoldable pub compose : Go (LocalJob × Gen) (Unit {0})
  unfolding generate_runtime_id labels assign_labels
  compose = do
    id ← zoom (λ s. s.1) (λ gen s. (s.0, gen)) (generate_runtime_id names)
    zoom (λ s. s.0) (λ lj s. (lj, s.1))
        do
          modify (λ lj. record lj { tf_job = set_runtime_id id lj.tf_job })
          ls ← reads labels
          attempt (assign_labels ls)

  unfoldable pub add_worker : LocalJob → Go (LocalJob × Gen) Event
  unfolding compose active
  add_worker lj = do
    compose
    pure (record { action = should_add_worker; number = expected_local_worker_number -ℤ active lj })

  unfoldable pub action : Go (LocalJob × Gen) Event
  unfolding add_worker active
  action s =
      if ltb_ℤ (pos 0) s.0.succeeded
      then (ok nothing_event, s)
      else if ltb_ℤ (active s.0) expected_local_worker_number
      then add_worker s.0 s
      else (ok nothing_event, s)
