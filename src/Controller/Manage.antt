-- ===== src/Controller/Manage.antt =====
-- pkg/controller/controller.go: manageTFJob. Its state is the job, which the lister's cache shares,
-- and what a sync changes beside it. Logging and the two counts that no caller reads are left out.
pub mod Rounds
pub mod Pods
pub mod Pending
pub mod Overwrite
pub mod Apart
pub mod Started
pub mod Settled
pub mod Hosts
pub mod Services
pub mod Within
pub mod Scope
pub mod Bounds
pub mod Told
pub mod Planned
pub mod Named
pub mod Fresh
use kubeflow_controller.Common.{
  ℕ, zero, suc, String, Bool, true, false, List, [], ◌∷◌, if◌then◌else◌,
}
use kubeflow_controller.Common.Int.{ℤ, pos, rounds}
use kubeflow_controller.Common.Outcome.{Outcome, ok, fail, panic, deref, index}
use kubeflow_controller.Common.Go.{Go, pure, lift, gets, modify, reads, zoom, ◌>>=◌, ◌>>◌}
use kubeflow_controller.Api.{PodTemplateSpec, Pod, Service, TfJob}
use kubeflow_controller.Checker.{is_local_job, tf_replica_ps, tf_replica_worker}
use kubeflow_controller.Platform.{Platform, Sync}
use kubeflow_controller.Tensorflow.Types.{
  Event, ActionType, should_add_ps, should_add_ps_service, should_add_worker,
  should_add_worker_service, should_delete, nothing,
}
use kubeflow_controller.Tensorflow.Local.{LocalJob, new_local_job}
use kubeflow_controller.Tensorflow.Local
use kubeflow_controller.Tensorflow.Distributed.Spec.{DistributedJob}
use kubeflow_controller.Tensorflow.Distributed.{new_distributed_job, get_spec, get_service}
use kubeflow_controller.Tensorflow.Distributed
use kubeflow_controller.Controller.Helper.{create_service, create_pod}

module _ (p : Platform) where
  open p use {machinery, expectations, names}

  -- c.expectations.ExpectCreations and CreationObserved
  unfoldable pub expect : String → ℤ → Sync p → Sync p
  expect key n s = record s { store = expectations.expect_creations key n s.store }

  unfoldable pub observe : String → Sync p → Sync p
  observe key s = record s { store = expectations.creation_observed key s.store }

  -- A failed creation lowers the expectations before the error is looked at further.
  abbrev lowered : String → Outcome (Unit {0}) × Sync p → Outcome (Unit {0}) × Sync p
  lowered key (ok _, s) = (ok tt, s)
  lowered key (fail e, s) = (fail e, observe key s)
  lowered key (panic f, s) = (panic f, s)

  unfoldable pub try_create_pod : String → TfJob → PodTemplateSpec → Go (Sync p) (Unit {0})
  unfolding create_pod observe
  try_create_pod key job template s =
      lowered key
        (zoom (λ s. s.session) (λ x s. record s { session = x }) (create_pod p job template) s)

  unfoldable pub try_create_service : String → TfJob → Service → Go (Sync p) (Unit {0})
  unfolding create_service observe
  try_create_service key job service s =
      lowered key
        (zoom (λ s. s.session) (λ x s. record s { session = x }) (create_service p job service) s)

  -- A failed service does not end the loop.
  abbrev go_on : {S : Type 0} → Outcome (Unit {0}) × S → Outcome (Unit {0}) × S
  go_on (ok _, s) = (ok tt, s)
  go_on (fail e, s) = (ok tt, s)
  go_on (panic f, s) = (panic f, s)

  abbrev pub Managed : Type 0
  Managed = DistributedJob × Sync p

  -- A method of the distributed job.
  abbrev pub on_job : {A : Type 0} → Go (DistributedJob × names.Gen) A → Go Managed A
  on_job = zoom (λ s. (s.0, s.1.gen)) (λ t s. (t.0, record s.1 { gen = t.1 }))

  abbrev pub on_sync : {A : Type 0} → Go (Sync p) A → Go Managed A
  on_sync = zoom (λ s. s.1) (λ t s. (s.0, t))

  -- A round of the loops over services, and over pods.
  unfoldable pub add_service : String → String → ℕ → Go Managed (Unit {0})
  unfolding get_service try_create_service
  add_service key typ i = do
    service ← on_job (get_service names typ i)
    job ← gets (λ s. s.0.tf_job)
    λ s. go_on (on_sync (try_create_service key job service) s)

  unfoldable pub add_services : String → String → ℕ → ℕ → Go Managed (Unit {0})
  unfolding add_service
  add_services key typ i zero = pure tt
  add_services key typ i (suc n) = do add_service key typ i; add_services key typ (suc i) n

  unfoldable pub add_pod : String → String → ℕ → Go Managed (Unit {0})
  unfolding get_spec try_create_pod
  add_pod key typ i = do
    spec ← zoom (λ s. s.0) (λ dj s. (dj, s.1)) (get_spec typ i)
    template ← lift (deref spec.template)
    job ← gets (λ s. s.0.tf_job)
    on_sync (try_create_pod key job template)

  unfoldable pub add_pods : String → String → ℕ → ℕ → Go Managed (Unit {0})
  unfolding add_pod
  add_pods key typ i zero = pure tt
  add_pods key typ i (suc n) = do add_pod key typ i; add_pods key typ (suc i) n

  -- The cases of the switch.
  unfoldable pub manage_action : String → ActionType → ℤ → Go Managed (Unit {0})
  unfolding add_services add_pods expect
  manage_action key should_add_worker_service n = do
    on_sync (modify (expect key n))
    add_services key tf_replica_worker 0 (rounds n)
  manage_action key should_add_ps_service n = do
    on_sync (modify (expect key n))
    add_services key tf_replica_ps 0 (rounds n)
  manage_action key should_add_worker n = do
    on_sync (modify (expect key n))
    add_pods key tf_replica_worker 0 (rounds n)
  manage_action key should_add_ps n = do
    on_sync (modify (expect key n))
    add_pods key tf_replica_ps 0 (rounds n)
  manage_action key nothing n = pure tt
  manage_action key should_delete n = pure tt

  unfoldable pub manage_events : String → List Event → Go Managed (Unit {0})
  unfolding manage_action
  manage_events key [] = pure tt
  manage_events key (event ∷ events) = do
    manage_action key event.action event.number
    manage_events key events

  unfoldable pub manage_distributed : String → Go Managed (Unit {0})
  unfolding manage_events
  manage_distributed key = do events ← on_job (Distributed.action names); manage_events key events

  unfoldable pub add_local_pod : String → ℤ → Go (TfJob × Sync p) (Unit {0})
  unfolding try_create_pod expect
  add_local_pod key n = do
    zoom (λ s. s.1) (λ t s. (s.0, t)) (modify (expect key n))
    spec ← reads (λ s. index s.0.spec.specs (pos 0))
    template ← lift (deref spec.template)
    job ← gets (λ s. s.0)
    zoom (λ s. s.1) (λ t s. (s.0, t)) (try_create_pod key job template)

  unfoldable pub manage_local_action : String → ActionType → ℤ → Go (TfJob × Sync p) (Unit {0})
  unfolding add_local_pod
  manage_local_action key should_add_worker n = add_local_pod key n
  manage_local_action key nothing n = pure tt
  manage_local_action key should_add_ps n = pure tt
  manage_local_action key should_add_ps_service n = pure tt
  manage_local_action key should_add_worker_service n = pure tt
  manage_local_action key should_delete n = pure tt

  unfoldable pub manage_local : String → List Pod → ℤ → Go (TfJob × Sync p) (Unit {0})
  unfolding manage_local_action new_local_job Local.action
  manage_local key active_pods succeeded = do
    event ←
        zoom (λ s. (new_local_job s.0 active_pods succeeded, s.1.gen))
          (λ t s. (t.0.tf_job, record s.1 { gen = t.1 })) (Local.action names)
    manage_local_action key event.action event.number

  unfoldable pub manage_kind :
      List Pod
      → List Pod
      → List Service
      → List Service
      → ℤ
      → String
      → Bool
      → Go (TfJob × Sync p) (Unit {0})
  unfolding manage_local manage_distributed new_distributed_job
  manage_kind workers ps worker_services ps_services succeeded key true =
      manage_local key workers succeeded
  manage_kind workers ps worker_services ps_services succeeded key false =
      zoom (λ s. (new_distributed_job s.0 workers ps worker_services ps_services succeeded, s.1))
        (λ t s. (t.0.tf_job, t.1)) (manage_distributed key)

  unfoldable pub manage_tf_job :
      List Pod → List Pod → List Service → List Service → ℤ → Go (TfJob × Sync p) (Unit {0})
  unfolding manage_kind is_local_job
  manage_tf_job workers ps worker_services ps_services succeeded = do
    key ← reads (λ s. machinery.key_func s.0.metadata)
    local ← reads (λ s. is_local_job s.0)
    manage_kind workers ps worker_services ps_services succeeded key local
