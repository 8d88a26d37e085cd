-- ===== src/Controller/Manage/Planned.antt =====
-- What Action plans for a new distributed job: one without pods and services.
use kubeflow_controller.Common.{
  ℕ, suc, ◌<◌, String, Bool, true, false, some, List, [], ◌∷◌, ◌≡◌, refl, ap, ◌∙◌, arith,
}
use Prim.Native.Nat.{◌^◌}
use mathlib.Core.Path.{ap₂}
use kubeflow_controller.Common.Int.{pos, int32, int32_id, ◌-ℤ◌, -ℤ_pos}
use kubeflow_controller.Common.Outcome.{ok}
use kubeflow_controller.Api.{Container, PodTemplateSpec, TfJob, set_runtime_id}
use kubeflow_controller.Platform.{Platform}
use kubeflow_controller.Controller.Labels.{match_labels}
use kubeflow_controller.Tensorflow.Types.{
  Event, should_add_ps, should_add_ps_service, should_add_worker, should_add_worker_service,
}
use kubeflow_controller.Tensorflow.Distributed.Spec.{DistributedJob}
use kubeflow_controller.Tensorflow.Distributed.{action, expected_workers, service_events, ps_events}
use kubeflow_controller.Tensorflow.Distributed.Compose.{
  IsDistributed, worker_replicas, ps_replicas, composed, labelled, first_type, other_type,
}
use kubeflow_controller.Tensorflow.Distributed.Prepare.{template_of}
use kubeflow_controller.Tensorflow.Distributed.Requests.{action_lem, planned, after_workers}
use kubeflow_controller.Controller.Manage.Told.{IsFilled}

-- Both templates have a container.
abbrev pub HasContainers : (b : Bool) {job : TfJob} → IsDistributed b job → Type 0
HasContainers b h =
    (w : Bool) → (c : Container) × (cs : List Container) × ((template_of b w h).containers ≡ c ∷ cs)

module _ (b : Bool) (job : TfJob) (h : IsDistributed b job) (id : String) where
  abbrev relabelled : PodTemplateSpec → String → PodTemplateSpec
  relabelled template typ = record template {
    labels = some (match_labels (set_runtime_id id job) typ);
  }

  -- A job that was composed is one of its kind still.
  abbrev pub composed-IsDistributed : IsDistributed b (composed b job h id)
  composed-IsDistributed = record {
    first = labelled h.first h.first_template (set_runtime_id id job) (first_type b);
    second = labelled h.second h.second_template (set_runtime_id id job) (other_type b);
    others = h.others;
    first_template = relabelled h.first_template (first_type b);
    second_template = relabelled h.second_template (other_type b);
    first_replicas = h.first_replicas;
    second_replicas = h.second_replicas;
    specs_lem = refl;
    first_type_lem = h.first_type_lem;
    second_type_lem = h.second_type_lem;
    first_template_lem = refl;
    second_template_lem = refl;
    first_replicas_lem = h.first_replicas_lem;
    second_replicas_lem = h.second_replicas_lem;
  }

pub composed-IsFilled :
    (b w : Bool) (job : TfJob) (h : IsDistributed b job) (id : String)
    → HasContainers b h
    → IsFilled (template_of b w (composed-IsDistributed b job h id))
composed-IsFilled true true job h id k = ((_, refl), k true)
composed-IsFilled true false job h id k = ((_, refl), k false)
composed-IsFilled false true job h id k = ((_, refl), k true)
composed-IsFilled false false job h id k = ((_, refl), k false)

-- As NewDistributedJob makes it of a job with no pods and services.
abbrev pub fresh_of : TfJob → DistributedJob
fresh_of job = record {
  tf_job = job;
  active_worker_pods = [];
  worker_services = [];
  active_ps_pods = [];
  ps_services = [];
  service_names = [];
  succeeded_worker_pods = pos 0;
}

module _ (p : Platform) (key : String) (b : Bool) (n m : ℕ) where
  open p use {names}

  abbrev pub fresh_events : List Event
  fresh_events =
      record { action = should_add_worker_service; number = pos (suc n) }
      ∷ record { action = should_add_ps_service; number = pos (suc m) }
      ∷ record { action = should_add_worker; number = pos (suc n) }
      ∷ record { action = should_add_ps; number = pos (suc m) }
      ∷ []

  minus_none : (k : ℕ) → pos k -ℤ pos 0 ≡ pos k
  minus_none k = -ℤ_pos k 0 (omega arith) ∙ ap pos (omega arith)

  module _ (job : TfJob) where
    abbrev fresh : DistributedJob
    fresh = fresh_of job

    fresh_workers : suc n < 2 ^ 31 → expected_workers fresh (pos (suc n)) ≡ pos (suc n)
    unfolding expected_workers
    fresh_workers small =
        ap int32 (minus_none (suc n)) ∙ int32_id (pos (suc n)) (omega (arith, small), omega arith)

    planned-fresh : planned fresh (pos (suc n)) (pos (suc m)) ≡ fresh_events
    unfolding service_events ps_events
    planned-fresh = ground (arith, minus_none (suc n), minus_none (suc m))

    fresh_after :
        (gen : names.Gen) (h : IsDistributed b job)
        → let (id, gen') = names.generate "" gen in
          after_workers names b fresh h gen (pos (suc n)) ≡ (fresh_of (composed b job h id), gen')
    fresh_after gen h = ground arith

    pub fresh_action :
        (gen : names.Gen) (h : IsDistributed b job)
        → worker_replicas b h ≡ pos (suc n)
        → ps_replicas b h ≡ pos (suc m)
        → suc n < 2 ^ 31
        → let (id, gen') = names.generate "" gen in
          action names (fresh, gen) ≡ (ok fresh_events, (fresh_of (composed b job h id), gen'))
    fresh_action gen h e e' small =
        action_lem names b fresh gen h
        ∙ ap₂
            (λ expected ps.
              (ok (planned fresh expected ps), after_workers names b fresh h gen expected))
            (ap (expected_workers fresh) e ∙ fresh_workers small) e'
        ∙ ap₂ (λ events after. (ok events, after)) planned-fresh (fresh_after gen h)
