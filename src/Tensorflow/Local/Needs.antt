-- ===== src/Tensorflow/Local/Needs.antt =====
-- What `Action` of a local job asks for, and the labels of the pod that it prepares.
use kubeflow_controller.Common.{
  String, Option, none, some, List, [], ◌∷◌, ◌≡◌, arith, ◌==◌, ◌||◌, if◌then◌else◌, length,
}
use kubeflow_controller.Common.Int.{ℤ, pos, ltb_ℤ, ◌-ℤ◌}
use kubeflow_controller.Common.Map.{Map}
use kubeflow_controller.Common.Outcome.{ok}
use kubeflow_controller.Api.{
  PodTemplateSpec, Pod, TfReplicaSpec, TfJob, set_runtime_id, set_template,
}
use kubeflow_controller.Controller.Labels.{match_labels}
use kubeflow_controller.Tensorflow.Types.{should_add_worker, nothing_event, NameGenerator}
use kubeflow_controller.Tensorflow.Local.{LocalJob, new_local_job, compose, action}

-- A job whose first replica spec gives its type and its pod template.
pub record HasTemplate (job : TfJob) : Type 0 where
  pub spec : TfReplicaSpec
  pub others : List TfReplicaSpec
  pub typ : String
  pub template : PodTemplateSpec
  pub specs_lem : job.spec.specs ≡ spec ∷ others
  pub typ_lem : spec.tf_replica_type ≡ some typ
  pub template_lem : spec.template ≡ some template

-- The labels of the first replica spec's template.
abbrev pub labels_of : List TfReplicaSpec → Option (Map String)
labels_of [] = none
labels_of (spec ∷ specs) = elim spec.template [ none ↦ none | some template ↦ template.labels ]

module _ (names : NameGenerator) where
  open names use {Gen, generate}

  -- The job with a fresh runtime ID, and with the labels that go with it.
  abbrev pub composed : (job : TfJob) → HasTemplate job → String → TfJob
  composed job h id =
      let job' = set_runtime_id id job in
      set_template 0 h.spec (record h.template { labels = some (match_labels job' h.typ) }) job'

  compose_lem :
      (lj : LocalJob) (gen : Gen) (h : HasTemplate lj.tf_job)
      → compose names (lj, gen) ≡ (
        ok tt,
        (record lj { tf_job = composed lj.tf_job h (generate "" gen).0 }, (generate "" gen).1),
      )
  unfolding compose match_labels
  compose_lem lj gen h = ground arith

  -- For a local job whose first spec has a type and a template, Action asks for one pod unless a pod has succeeded or exactly one pod is active, and for
  -- nothing otherwise.
  pub local_action_asks :
      (job : TfJob) (pods : List Pod) (succeeded : ℤ) (gen : Gen)
      → HasTemplate job
      → (action names (new_local_job job pods succeeded, gen)).0
        ≡ ok (
            if ltb_ℤ (pos 0) succeeded || length pods == 1
            then nothing_event
            else record { action = should_add_worker; number = pos 1 })
  unfolding action new_local_job ◌-ℤ◌
  local_action_asks job [] succeeded gen h =
      ground (arith, compose_lem (new_local_job job [] succeeded) gen h)
  local_action_asks job (pod ∷ []) succeeded gen h = ground arith
  local_action_asks job (pod ∷ pod' ∷ pods) succeeded gen h =
      ground (arith, compose_lem (new_local_job job (pod ∷ pod' ∷ pods) succeeded) gen h)

  -- When Action of such a local job asks for a pod, the job has a fresh runtime ID, and the template's labels are those by
  -- which the pods of the job, as it is now, are looked up; the rest of the job is as it was.
  local_action_labels :
      (job : TfJob) (pods : List Pod) (succeeded : ℤ) (gen : Gen)
      → (h : HasTemplate job)
      → (action names (new_local_job job pods succeeded, gen)).0
        ≡ ok (record { action = should_add_worker; number = pos 1 })
      → let job' = (action names (new_local_job job pods succeeded, gen)).1.0.tf_job in
        (labels_of job'.spec.specs ≡ some (match_labels job' h.typ))
        × (job'.spec.runtime_id ≡ (generate "" gen).0)
        × (job'.metadata ≡ job.metadata)
        × (job'.status ≡ job.status)
  unfolding action new_local_job match_labels
  local_action_labels job [] succeeded gen h e =
      ground (arith, compose_lem (new_local_job job [] succeeded) gen h)
  local_action_labels job (pod ∷ []) succeeded gen h e = ground arith
  local_action_labels job (pod ∷ pod' ∷ pods) succeeded gen h e =
      ground (arith, compose_lem (new_local_job job (pod ∷ pod' ∷ pods) succeeded) gen h)

  -- When Action of such a local job asks for nothing, neither the job nor the name generator has changed.
  pub local_action_quiet :
      (job : TfJob) (pods : List Pod) (succeeded : ℤ) (gen : Gen)
      → HasTemplate job
      → (action names (new_local_job job pods succeeded, gen)).0 ≡ ok nothing_event
      → ((action names (new_local_job job pods succeeded, gen)).1.0.tf_job ≡ job)
        × ((action names (new_local_job job pods succeeded, gen)).1.1 ≡ gen)
  unfolding action new_local_job ◌-ℤ◌
  local_action_quiet job [] succeeded gen h e =
      ground (arith, compose_lem (new_local_job job [] succeeded) gen h)
  local_action_quiet job (pod ∷ []) succeeded gen h e = ground arith
  local_action_quiet job (pod ∷ pod' ∷ pods) succeeded gen h e =
      ground (arith, compose_lem (new_local_job job (pod ∷ pod' ∷ pods) succeeded) gen h)

  -- Of a local job without pods Action asks for one, and the job is composed.
  pub local_action_starts :
      (job : TfJob) (gen : Gen) (h : HasTemplate job)
      → let lj = new_local_job job [] (pos 0) in
        action names (lj, gen) ≡ (
          ok (record { action = should_add_worker; number = pos 1 }),
          (record lj { tf_job = composed job h (generate "" gen).0 }, (generate "" gen).1),
        )
  unfolding action new_local_job ◌-ℤ◌
  local_action_starts job gen h = ground (arith, compose_lem (new_local_job job [] (pos 0)) gen h)
