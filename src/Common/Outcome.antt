-- ===== src/Common/Outcome.antt =====
-- What a Go function gives: a result, an error value, or a panic.
use mathlib.Core.Option.{Option, none, some}
use mathlib.Core.List.{List}
use mathlib.Core.Path.{◌≡◌, refl}
use mathlib.Core.Logic.{◌⊎◌, inl, inr}
use kubeflow_controller.Common.Lists.{get_elem?}
use kubeflow_controller.Common.Int.{ℤ, pos, negsuc}

-- The reason of an error that the API machinery returns (a StatusError).
pub data Reason : Type 0 where
  not_found invalid timeout already_exists other : Reason

-- What an error that the program builds by fmt.Errorf speaks of.
pub data Message : Type 0 where
  controller_ref_nil controller_ref_empty_api_version controller_ref_empty_kind : Message
  controller_ref_not_controller controller_ref_not_blocking : Message
  no_service_labels unable_to_create_services no_replica_set_labels unable_to_create_replica_sets
        cannot_adopt original_gone :
      Message
  bad_selector replica_status_conflict too_many_worker_pods : Message
  invalid_job_key update_failed sync_failed caches_not_synced : Message

mutual
  pub data Err : Type 0 where
    status : Reason → Err
    errorf : Message → Err
    aggregate : Errs → Err

  pub data Errs : Type 0 where
    nil : Errs
    cons : Err → Errs → Errs

-- A run-time panic.
pub data Fault : Type 0 where
  nil_dereference index_out_of_range nil_map_assignment closed_channel : Fault

pub data Outcome {ℓ} (A : Type ℓ) : Type ℓ where
  ok : A → Outcome A
  fail : Err → Outcome A
  panic : Fault → Outcome A

infixl 5 ◌>>=◌
abbrev pub ◌>>=◌ {ℓ κ} : {A : Type ℓ} {B : Type κ} → Outcome A → (A → Outcome B) → Outcome B
ok a >>= f = f a
fail e >>= f = fail e
panic p >>= f = panic p

-- *p
abbrev pub deref {ℓ} : {A : Type ℓ} → Option A → Outcome A
deref none = panic nil_dereference
deref (some a) = ok a

abbrev in_bounds {ℓ} : {A : Type ℓ} → Option A → Outcome A
in_bounds none = panic index_out_of_range
in_bounds (some a) = ok a

-- xs[i]
abbrev pub index {ℓ} : {A : Type ℓ} → List A → ℤ → Outcome A
index xs (pos i) = in_bounds (get_elem? xs i)
index xs (negsuc i) = panic index_out_of_range

pub Outcome-cases {ℓ} :
    {A : Type ℓ} (r : Outcome A)
    → ((a : A) × (r ≡ ok a)) ⊎ (((e : Err) × (r ≡ fail e)) ⊎ ((f : Fault) × (r ≡ panic f)))
Outcome-cases (ok a) = inl (a, refl)
Outcome-cases (fail e) = inr (inl (e, refl))
Outcome-cases (panic f) = inr (inr (f, refl))
