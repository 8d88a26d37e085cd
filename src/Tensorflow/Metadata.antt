-- ===== src/Tensorflow/Metadata.antt =====
-- The methods of both kinds of job write the spec only: the job's metadata stays.
use kubeflow_controller.Common.{
  ℕ, String, List, ◌++◌, length, [], ◌∷◌, ◌≡◌, refl, ◌∙◌, arith, if◌then◌else◌,
}
use kubeflow_controller.Common.Int.{ℤ, pos, ltb_ℤ, eqb_ℤ, ◌-ℤ◌}
use kubeflow_controller.Common.Map.{Map}
use kubeflow_controller.Common.Go.{zoom, attempt, modify}
use kubeflow_controller.Common.Go.Keeps.{
  Preorder, Keeps, Yields, >>=-Keeps, >>-Keeps, zoom-Keeps, lift-Keeps, pure-Keeps, reads-Keeps,
  attempt-Keeps, if-Keeps,
}
use kubeflow_controller.Common.Outcome.{ok, deref}
use kubeflow_controller.Api.{ObjectMeta, set_runtime_id}
use kubeflow_controller.Checker.{tf_replica_ps, tf_replica_worker}
use kubeflow_controller.Tensorflow.Types.{
  NameGenerator, Event, should_add_worker, should_add_worker_service, should_add_ps_service,
  nothing_event, generate_runtime_id,
}
use kubeflow_controller.Tensorflow.Local.{LocalJob, labels}
use kubeflow_controller.Tensorflow.Local
use kubeflow_controller.Tensorflow.Distributed.Spec.{
  DistributedJob, get_worker_spec, get_ps_spec, get_labels,
}
use kubeflow_controller.Tensorflow.Distributed.{
  service_events, ps_events, add_workers, expected_workers, assign_labels, prepare_template,
  get_spec, worker_events, get_service,
}
use kubeflow_controller.Tensorflow.Distributed

-- States that hold a job with the same metadata.
abbrev pub SameMeta : {S : Type 0} → (S → ObjectMeta) → Preorder S
SameMeta meta = record {
  Rel = λ s t. meta t ≡ meta s;
  same = λ s. refl;
  through = λ s t u h k. k ∙ h;
}

-- No claim at all.
abbrev Anything : (S : Type 0) → Preorder S
Anything S = record { Rel = λ s t. Unit; same = λ s. tt; through = λ s t u h k. tt }

abbrev pub Jobs : Preorder DistributedJob
Jobs = SameMeta (λ (dj : DistributedJob). dj.tf_job.metadata)

assign_labels-same :
    (typ : String) (ls : Map String) (dj : DistributedJob)
    → Yields (λ dj'. dj'.tf_job.metadata ≡ dj.tf_job.metadata) (assign_labels typ ls dj)
unfolding assign_labels
assign_labels-same typ ls dj = ground arith

prepare_template-same :
    (typ : String) (n : ℕ) (dj : DistributedJob)
    → Yields (λ dj'. dj'.tf_job.metadata ≡ dj.tf_job.metadata) (prepare_template typ n dj)
unfolding prepare_template
prepare_template-same typ n dj = ground arith

-- GetSpec keeps the metadata.
pub get_spec-same : (typ : String) (n : ℕ) → Keeps Jobs (get_spec typ n)
unfolding get_spec
get_spec-same typ n =
    >>-Keeps Jobs (attempt-Keeps Jobs (prepare_template typ n) (prepare_template-same typ n))
      (reads-Keeps Jobs _)

relabel-same :
    (typ : String) → Keeps Jobs (attempt (λ dj. assign_labels typ (get_labels dj typ) dj))
relabel-same typ =
    attempt-Keeps Jobs (λ dj. assign_labels typ (get_labels dj typ) dj)
      (λ dj. assign_labels-same typ (get_labels dj typ) dj)

rename-same :
    (id : String)
    → Keeps Jobs
        (modify (λ (dj : DistributedJob). record dj { tf_job = set_runtime_id id dj.tf_job }))
rename-same id = record { apply = λ dj. refl }

abbrev LocalJobs : Preorder LocalJob
LocalJobs = SameMeta (λ (lj : LocalJob). lj.tf_job.metadata)

local_assign-same :
    (ls : Map String) (lj : LocalJob)
    → Yields (λ lj'. lj'.tf_job.metadata ≡ lj.tf_job.metadata) (Local.assign_labels ls lj)
unfolding Local.assign_labels
local_assign-same ls lj = ground arith

local_relabel-same : (ls : Map String) → Keeps LocalJobs (attempt (Local.assign_labels ls))
local_relabel-same ls = attempt-Keeps LocalJobs (Local.assign_labels ls) (local_assign-same ls)

local_rename-same :
    (id : String)
    → Keeps LocalJobs
        (modify (λ (lj : LocalJob). record lj { tf_job = set_runtime_id id lj.tf_job }))
local_rename-same id = record { apply = λ lj. refl }

module _ (names : NameGenerator) where
  open names use {Gen}

  abbrev pub Drawing : Preorder (DistributedJob × Gen)
  Drawing = SameMeta (λ (s : DistributedJob × Gen). s.0.tf_job.metadata)

  id-same :
      Keeps Drawing
        (zoom (λ (s : DistributedJob × Gen). s.1) (λ gen s. (s.0, gen)) (generate_runtime_id names))
  unfolding generate_runtime_id
  id-same = record { apply = λ s. refl }

  compose-same : Keeps Drawing (Distributed.compose names)
  unfolding Distributed.compose
  compose-same = >>=-Keeps Drawing (reads-Keeps Drawing (λ s. get_worker_spec s.0)) λ worker.
      >>=-Keeps Drawing (reads-Keeps Drawing (λ s. get_ps_spec s.0)) λ ps.
        >>=-Keeps Drawing id-same λ id.
          zoom-Keeps Jobs Drawing (λ s. s.0) (λ dj s. (dj, s.1)) (λ s dj h. h)
            (>>-Keeps Jobs (rename-same id)
              (>>-Keeps Jobs (relabel-same tf_replica_worker) (relabel-same tf_replica_ps)))

  abbrev add_event : ℕ → ℤ → List Event
  add_event count expected =
      record { action = should_add_worker; number = expected -ℤ pos count } ∷ []

  worker_events-same :
      (count : ℕ) (expected : ℤ) → Keeps Drawing (worker_events names count expected)
  unfolding worker_events add_workers
  worker_events-same count expected = record {
    apply = λ s.
        if-Keeps Drawing (ltb_ℤ (pos count) expected) s (add_workers names count expected s)
          (ok (if eqb_ℤ (pos count) expected then nothing_event ∷ [] else []), s)
          ((>>-Keeps Drawing compose-same (pure-Keeps Drawing (add_event count expected))).apply s)
          refl;
  }

  pub action-same : Keeps Drawing (Distributed.action names)
  unfolding Distributed.action
  action-same = record {
    apply = λ s.
        (>>=-Keeps Drawing (reads-Keeps Drawing (λ s. get_worker_spec s.0)) λ worker.
            >>=-Keeps Drawing (lift-Keeps Drawing (deref worker.replicas)) λ workers.
              >>=-Keeps Drawing (reads-Keeps Drawing (λ s. get_ps_spec s.0)) λ ps.
                >>=-Keeps Drawing (lift-Keeps Drawing (deref ps.replicas)) λ expected_ps.
                  >>=-Keeps Drawing
                    (worker_events-same (length s.0.active_worker_pods)
                      (expected_workers s.0 workers))
                    λ events. pure-Keeps Drawing (
                      (service_events should_add_worker_service (length s.0.worker_services)
                          (expected_workers s.0 workers)
                        ++ service_events should_add_ps_service (length s.0.ps_services)
                            expected_ps)
                      ++ (events ++ ps_events (length s.0.active_ps_pods) expected_ps))).apply
          s;
  }

  pub get_service-same : (typ : String) (i : ℕ) → Keeps Drawing (get_service names typ i)
  unfolding get_service
  get_service-same typ i = record { apply = λ s. refl }

  abbrev pub DrawingLocal : Preorder (LocalJob × Gen)
  DrawingLocal = SameMeta (λ (s : LocalJob × Gen). s.0.tf_job.metadata)

  local_id-same :
      Keeps DrawingLocal
        (zoom (λ (s : LocalJob × Gen). s.1) (λ gen s. (s.0, gen)) (generate_runtime_id names))
  unfolding generate_runtime_id
  local_id-same = record { apply = λ s. refl }

  local_compose-same : Keeps DrawingLocal (Local.compose names)
  unfolding Local.compose
  local_compose-same = >>=-Keeps DrawingLocal local_id-same λ id.
      zoom-Keeps LocalJobs DrawingLocal (λ s. s.0) (λ lj s. (lj, s.1)) (λ s lj h. h)
        (>>-Keeps LocalJobs (local_rename-same id)
          (>>=-Keeps LocalJobs (reads-Keeps LocalJobs labels) local_relabel-same))

  pub local_action-same : Keeps DrawingLocal (Local.action names)
  unfolding Local.action Local.add_worker
  local_action-same = record {
    apply = λ s.
        if-Keeps DrawingLocal (ltb_ℤ (pos 0) s.0.succeeded) s (ok nothing_event, s) _ refl
          (if-Keeps DrawingLocal (ltb_ℤ (Local.active s.0) (pos 1)) s (Local.add_worker names s.0 s)
            (ok nothing_event, s)
            ((>>-Keeps DrawingLocal local_compose-same (
                pure-Keeps DrawingLocal (record {
                  action = should_add_worker;
                  number = pos 1 -ℤ Local.active s.0;
                }))).apply
              s)
            refl);
  }
