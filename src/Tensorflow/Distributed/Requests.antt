-- ===== src/Tensorflow/Distributed/Requests.antt =====
-- What `Action` of a distributed job asks for: as many services and pods as are missing.
use kubeflow_controller.Common.{
  if_true, if_false, ℕ, ◌+◌, ◌-◌, ◌≤◌, ◌<◌, Bool, true, false, List, [], ◌∷◌, ◌++◌, ◌≡◌, refl,
  arith, ◌==◌, if◌then◌else◌, length, Bool-cases, inl, inr, ap, ◌∙◌,
}
use kubeflow_controller.Common.Int.{ℤ, pos, negsuc, pos_part, ltb_ℤ, eqb_ℤ, ◌-ℤ◌, rounds}
use kubeflow_controller.Common.Outcome.{ok}
use kubeflow_controller.Tensorflow.Types.{
  ActionType, should_add_ps, should_add_ps_service, should_add_worker, should_add_worker_service,
  should_delete, nothing, Event, nothing_event, NameGenerator,
}
use kubeflow_controller.Tensorflow.Distributed.Spec.{DistributedJob}
use kubeflow_controller.Tensorflow.Distributed.{
  action, worker_events, service_events, ps_events, expected_workers,
}
use kubeflow_controller.Tensorflow.Distributed.Compose.{
  IsDistributed, worker_replicas, ps_replicas, composed, compose_lem, get_worker_spec_lem,
  get_ps_spec_lem, worker_spec-replicas, ps_spec-replicas,
}

abbrev tag : ActionType → ℕ
tag should_add_ps = 0
tag should_add_ps_service = 1
tag should_add_worker = 2
tag should_add_worker_service = 3
tag should_delete = 4
tag nothing = 5

-- How many objects the events ask for, by one action.
abbrev pub requested : ActionType → List Event → ℕ
requested a [] = 0
requested a (event ∷ events) =
    (if tag event.action == tag a then rounds event.number else 0) + requested a events

requested-append :
    (a : ActionType) (xs ys : List Event) → requested a (xs ++ ys) ≡ requested a xs + requested a ys
requested-append a [] ys = omega arith
requested-append a (x ∷ xs) ys = omega (arith, requested-append a xs ys)

-- The events for the workers' pods.
abbrev planned_workers : ℕ → ℤ → List Event
planned_workers count expected =
    if ltb_ℤ (pos count) expected
    then record { action = should_add_worker; number = expected -ℤ pos count } ∷ []
    else if eqb_ℤ (pos count) expected
    then nothing_event ∷ []
    else []

abbrev pub planned : DistributedJob → ℤ → ℤ → List Event
planned dj expected ps =
    (service_events should_add_worker_service (length dj.worker_services) expected
      ++ service_events should_add_ps_service (length dj.ps_services) ps)
    ++ (planned_workers (length dj.active_worker_pods) expected
        ++ ps_events (length dj.active_ps_pods) ps)

not_below : (z : ℤ) (n : ℕ) → pos_part z ≤ n → ltb_ℤ (pos n) z ≡ false
not_below z n h = ground arith

below : (z : ℤ) (n : ℕ) → n < pos_part z → ltb_ℤ (pos n) z ≡ true
below z n h = ground arith

module _ (names : NameGenerator) where
  open names use {Gen, generate}

  abbrev pub after_workers :
      (b : Bool) (dj : DistributedJob) → IsDistributed b dj.tf_job → Gen → ℤ → DistributedJob × Gen
  after_workers b dj h gen expected =
      if ltb_ℤ (pos (length dj.active_worker_pods)) expected
      then (record dj { tf_job = composed b dj.tf_job h (generate "" gen).0 }, (generate "" gen).1)
      else (dj, gen)

  worker_events_lem :
      (b : Bool) (dj : DistributedJob) (gen : Gen) (h : IsDistributed b dj.tf_job) (expected : ℤ)
      → worker_events names (length dj.active_worker_pods) expected (dj, gen) ≡ (
        ok (planned_workers (length dj.active_worker_pods) expected),
        after_workers b dj h gen expected,
      )
  unfolding worker_events
  worker_events_lem b dj gen h expected =
      elim (Bool-cases (ltb_ℤ (pos (length dj.active_worker_pods)) expected)) [
        | inl e ↦ rw (e, worker_events) (rw (compose_lem names b dj gen h) refl)
        | inr e ↦ rw (e, worker_events) refl
      ]

  -- What Action returns and leaves, in full.
  pub action_lem :
      (b : Bool) (dj : DistributedJob) (gen : Gen) (h : IsDistributed b dj.tf_job)
      → let expected = expected_workers dj (worker_replicas b h) in
        action names (dj, gen)
        ≡ (ok (planned dj expected (ps_replicas b h)), after_workers b dj h gen expected)
  unfolding action
  action_lem b dj gen h =
      rw (get_worker_spec_lem dj b h, action)
        (rw (worker_spec-replicas b h, action)
          (rw (get_ps_spec_lem dj b h, action)
            (rw (ps_spec-replicas b h, action)
              (rw (worker_events_lem b dj gen h (expected_workers dj (worker_replicas b h)), action)
                refl))))

rounds-sub : (z : ℤ) (n : ℕ) → rounds (z -ℤ pos n) ≡ pos_part z - n
unfolding ◌-ℤ◌
rounds-sub (pos m) n = ground arith
rounds-sub (negsuc m) n = ground arith

-- What each part of the plan asks for.
module _ (a : ActionType) (count : ℕ) (expected : ℤ) where
  requested-services :
      (b : ActionType)
      → requested a (service_events b count expected)
        ≡ (if tag b == tag a then (if count == 0 then pos_part expected else 0) else 0)
  unfolding service_events
  requested-services b = ground (arith, rounds-sub expected count)

  requested-ps :
      requested a (ps_events count expected) ≡ (if 0 == tag a then pos_part expected - count else 0)
  unfolding ps_events
  requested-ps = ground (arith, rounds-sub expected count)

  requested-workers :
      requested a (planned_workers count expected)
      ≡ (if 2 == tag a then pos_part expected - count else 0)
  requested-workers = ground (arith, rounds-sub expected count)

-- The parts of the plan together, for one action.
requested-planned :
    (a : ActionType) (dj : DistributedJob) (expected ps : ℤ)
    → requested a (planned dj expected ps)
      ≡ ((if 3 == tag a
            then (if length dj.worker_services == 0 then pos_part expected else 0)
            else 0)
          + (if 1 == tag a then (if length dj.ps_services == 0 then pos_part ps else 0) else 0))
        + ((if 2 == tag a then pos_part expected - length dj.active_worker_pods else 0)
            + (if 0 == tag a then pos_part ps - length dj.active_ps_pods else 0))
requested-planned a dj expected ps =
    let ws = service_events should_add_worker_service (length dj.worker_services) expected in
    let pss = service_events should_add_ps_service (length dj.ps_services) ps in
    let w = planned_workers (length dj.active_worker_pods) expected in
    let p = ps_events (length dj.active_ps_pods) ps in
    rw (requested-append a (ws ++ pss) (w ++ p)) (
      rw (requested-append a ws pss) (
        rw (requested-append a w p) (
          rw (requested-services a (length dj.worker_services) expected should_add_worker_service) (
            rw (requested-services a (length dj.ps_services) ps should_add_ps_service) (
              rw (requested-workers a (length dj.active_worker_pods) expected)
                (rw (requested-ps a (length dj.active_ps_pods) ps) refl))))))

module _ (names : NameGenerator) where
  open names use {Gen, generate}

  -- On a job whose first two specs are those of the workers and of the parameter servers, in either
  -- order, each with its number of replicas and its template, Action returns, and asks for just what is missing: the worker and parameter
  -- server pods that the active ones leave to the number wanted (less the succeeded workers), and, of
  -- the services of a type, all where none exists and none where some do.
  pub action_requests :
      (b : Bool) (dj : DistributedJob) (gen : Gen) (h : IsDistributed b dj.tf_job)
      → let wanted = pos_part (expected_workers dj (worker_replicas b h)) in
        let wanted_ps = pos_part (ps_replicas b h) in
        (events : List Event) × ((action names (dj, gen)).0 ≡ ok events)
        × (requested should_add_worker events ≡ wanted - length dj.active_worker_pods)
        × (requested should_add_ps events ≡ wanted_ps - length dj.active_ps_pods)
        × (requested should_add_worker_service events
            ≡ (if length dj.worker_services == 0 then wanted else 0))
        × (requested should_add_ps_service events
            ≡ (if length dj.ps_services == 0 then wanted_ps else 0))
  action_requests b dj gen h =
      let expected = expected_workers dj (worker_replicas b h) in
      let ps = ps_replicas b h in
      (
        planned dj expected ps,
        ap (λ r. r.0) (action_lem names b dj gen h),
        omega (arith, requested-planned should_add_worker dj expected ps),
        omega (arith, requested-planned should_add_ps dj expected ps),
        omega (arith, requested-planned should_add_worker_service dj expected ps),
        omega (arith, requested-planned should_add_ps_service dj expected ps),
      )

  -- On such a job with enough active workers Action changes nothing: no name is generated, and the job keeps its
  -- runtime ID, so that its pods and services are found again.
  pub action_keeps_job :
      (b : Bool) (dj : DistributedJob) (gen : Gen) (h : IsDistributed b dj.tf_job)
      → pos_part (expected_workers dj (worker_replicas b h)) ≤ length dj.active_worker_pods
      → (action names (dj, gen)).1 ≡ (dj, gen)
  action_keeps_job b dj gen h enough =
      ap (λ r. r.1) (action_lem names b dj gen h)
      ∙ if_false _ _ (
          not_below (expected_workers dj (worker_replicas b h)) (length dj.active_worker_pods)
            enough)

  -- With too few active workers the job is composed anew, under a fresh runtime ID.
  pub action_composes :
      (b : Bool) (dj : DistributedJob) (gen : Gen) (h : IsDistributed b dj.tf_job)
      → length dj.active_worker_pods < pos_part (expected_workers dj (worker_replicas b h))
      → (action names (dj, gen)).1.0.tf_job ≡ composed b dj.tf_job h (generate "" gen).0
  action_composes b dj gen h few =
      ap (λ r. r.1.0.tf_job) (action_lem names b dj gen h)
      ∙ ap (λ (x : DistributedJob × Gen). x.0.tf_job)
          (if_true _ _
            (below (expected_workers dj (worker_replicas b h)) (length dj.active_worker_pods) few))
