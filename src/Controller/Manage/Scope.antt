-- ===== src/Controller/Manage/Scope.antt =====
-- Managing a job of either kind makes requests for that job only, and keeps its metadata.
use kubeflow_controller.Common.{String, Bool, true, false, List}
use kubeflow_controller.Common.Int.{ℤ, pos}
use kubeflow_controller.Common.Outcome.{deref, index}
use kubeflow_controller.Common.Go.{zoom, gets, modify, ◌>>=◌}
use kubeflow_controller.Common.Go.Keeps.{
  Preorder, Keeps, >>=-Keeps, >>-Keeps, zoom-Keeps, lift-Keeps, pure-Keeps, reads-Keeps,
}
use kubeflow_controller.Api.{ObjectMeta, PodTemplateSpec, Pod, Service, TfJob}
use kubeflow_controller.Checker.{is_local_job}
use kubeflow_controller.Platform.{Platform, Sync}
use kubeflow_controller.Platform.Requests.{Sent-none, Within}
use kubeflow_controller.Tensorflow.Types.{
  ActionType, should_add_ps, should_add_ps_service, should_add_worker, should_add_worker_service,
  should_delete, nothing,
}
use kubeflow_controller.Tensorflow.Distributed.{new_distributed_job}
use kubeflow_controller.Tensorflow.Local.{new_local_job}
use kubeflow_controller.Tensorflow.Local
use kubeflow_controller.Tensorflow.Metadata.{DrawingLocal, local_action-same}
use kubeflow_controller.Controller.Manage.{
  expect, try_create_pod, add_local_pod, manage_local_action, manage_local, manage_kind,
  manage_tf_job,
}
use kubeflow_controller.Controller.Manage.Within.{
  try_create_pod-Within, manage_distributed-Within, Managing, always,
}

module _ (p : Platform) where
  open p use {machinery, names}

  -- The job of a sync, and the rest of its state.
  abbrev pub Syncs_if : (ObjectMeta → Bool) → Preorder (TfJob × Sync p)
  Syncs_if may =
      Within may (λ (s : TfJob × Sync p). s.0.metadata) (λ (s : TfJob × Sync p). s.1.session.calls)

  abbrev Syncs : Preorder (TfJob × Sync p)
  Syncs = Syncs_if always

  local_template-Within :
      (key : String) (template : PodTemplateSpec)
      → Keeps Syncs (
          gets (λ (s : TfJob × Sync p). s.0) >>= λ job.
          zoom (λ s. s.1) (λ t s. (s.0, t)) (try_create_pod p key job template))
  local_template-Within key template = record {
    apply = λ s. (try_create_pod-Within p key s.0 template).apply s.1;
  }

  local_expect-Within :
      (key : String) (n : ℤ)
      → Keeps Syncs (zoom (λ (s : TfJob × Sync p). s.1) (λ t s. (s.0, t)) (modify (expect p key n)))
  unfolding expect
  local_expect-Within key n = record { apply = λ s. Syncs.same s }

  add_local_pod-Within : (key : String) (n : ℤ) → Keeps Syncs (add_local_pod p key n)
  unfolding add_local_pod
  add_local_pod-Within key n = >>-Keeps Syncs (local_expect-Within key n) (
      >>=-Keeps Syncs (reads-Keeps Syncs (λ s. index s.0.spec.specs (pos 0))) λ spec.
        >>=-Keeps Syncs (lift-Keeps Syncs (deref spec.template))
          λ template. local_template-Within key template)

  manage_local_action-Within :
      (key : String) (action : ActionType) (n : ℤ)
      → Keeps Syncs (manage_local_action p key action n)
  unfolding manage_local_action
  manage_local_action-Within key should_add_worker n = add_local_pod-Within key n
  manage_local_action-Within key nothing n = pure-Keeps Syncs tt
  manage_local_action-Within key should_add_ps n = pure-Keeps Syncs tt
  manage_local_action-Within key should_add_ps_service n = pure-Keeps Syncs tt
  manage_local_action-Within key should_add_worker_service n = pure-Keeps Syncs tt
  manage_local_action-Within key should_delete n = pure-Keeps Syncs tt

  local_plan-Within :
      (pods : List Pod) (succeeded : ℤ)
      → Keeps Syncs (
          zoom
            (λ (s : TfJob × Sync p). (new_local_job s.0 pods succeeded, s.1.gen))
            (λ t s. (t.0.tf_job, record s.1 { gen = t.1 }))
            (Local.action names))
  unfolding new_local_job
  local_plan-Within pods succeeded =
      zoom-Keeps (DrawingLocal names) Syncs (λ s. (new_local_job s.0 pods succeeded, s.1.gen))
        (λ t s. (t.0.tf_job, record s.1 { gen = t.1 }))
        (λ t s k. (k, Sent-none always t.0.metadata t.1.session.calls)) (local_action-same names)

  manage_local-Within :
      (key : String) (pods : List Pod) (succeeded : ℤ)
      → Keeps Syncs (manage_local p key pods succeeded)
  unfolding manage_local
  manage_local-Within key pods succeeded =
      >>=-Keeps Syncs (local_plan-Within pods succeeded)
        (λ event. manage_local_action-Within key event.action event.number)

  manage_kind-Within :
      (workers ps : List Pod) (worker_services ps_services : List Service) (succeeded : ℤ)
      (key : String) (local : Bool)
      → Keeps Syncs (manage_kind p workers ps worker_services ps_services succeeded key local)
  unfolding manage_kind new_distributed_job
  manage_kind-Within workers ps worker_services ps_services succeeded key true =
      manage_local-Within key workers succeeded
  manage_kind-Within workers ps worker_services ps_services succeeded key false =
      zoom-Keeps (Managing p) Syncs
        (λ s. (new_distributed_job s.0 workers ps worker_services ps_services succeeded, s.1))
        (λ t s. (t.0.tf_job, t.1)) (λ t s k. k) (manage_distributed-Within p key)

  pub manage_tf_job-Within :
      (workers ps : List Pod) (worker_services ps_services : List Service) (succeeded : ℤ)
      → Keeps (Syncs_if always) (manage_tf_job p workers ps worker_services ps_services succeeded)
  unfolding manage_tf_job
  manage_tf_job-Within workers ps worker_services ps_services succeeded =
      >>=-Keeps Syncs (reads-Keeps Syncs (λ s. machinery.key_func s.0.metadata)) λ key.
        >>=-Keeps Syncs (reads-Keeps Syncs (λ s. is_local_job s.0))
          λ local. manage_kind-Within workers ps worker_services ps_services succeeded key local
