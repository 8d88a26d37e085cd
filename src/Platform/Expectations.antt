-- ===== src/Platform/Expectations.antt =====
-- controller.ControllerExpectationsInterface: what creations each job still waits for.
use kubeflow_controller.Common.{String, Bool, true, Option, none, some, ◌≡◌, str_eq, if◌then◌else◌}
use kubeflow_controller.Common.Int.{ℤ, pos, ◌-ℤ◌, ◌≤ℤ◌}
use mathlib.Core.Option

pub record Expectations : Type 1 where
  pub Store : Type 0
  -- NewControllerExpectations()
  pub new : Store
  pub satisfied_expectations : String → Store → Bool
  pub expect_creations : String → ℤ → Store → Store
  pub creation_observed : String → Store → Store
  pub delete_expectations : String → Store → Store
  -- the creations that a key still waits for, if it has expectations (GetExpectations)
  pub pending : String → Store → Option ℤ

-- Documented behaviour: setting replaces, an observation lowers by one, and a key with no
-- expectations, or whose expectations are met, is satisfied.
pub record ExpectationsLaws (e : Expectations) : Type 0 where
  pub pending-new : (k : String) → e.pending k e.new ≡ none
  pub pending-expect :
      (k j : String) (n : ℤ) (s : e.Store)
      → e.pending j (e.expect_creations k n s) ≡ (if str_eq k j then some n else e.pending j s)
  pub pending-observed :
      (k j : String) (s : e.Store)
      → e.pending j (e.creation_observed k s)
        ≡ (if str_eq k j then Option.map (λ n. n -ℤ pos 1) (e.pending j s) else e.pending j s)
  pub pending-delete :
      (k j : String) (s : e.Store)
      → e.pending j (e.delete_expectations k s) ≡ (if str_eq k j then none else e.pending j s)
  pub satisfied_none :
      (k : String) (s : e.Store) → e.pending k s ≡ none → e.satisfied_expectations k s ≡ true
  pub satisfied_met :
      (k : String) {n : ℤ} (s : e.Store)
      → e.pending k s ≡ some n
      → n ≤ℤ pos 0
      → e.satisfied_expectations k s ≡ true
