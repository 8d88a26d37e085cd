-- ===== src/Common/Go.antt =====
-- Methods that mutate their receiver and may fail. What was written before an error or a panic
-- stays written, so the state comes back beside them too.
pub mod Keeps
use kubeflow_controller.Common.Outcome.{Outcome, ok, fail, panic}

abbrev pub Go {ℓ κ} : Type ℓ → Type κ → Type (ℓ ⊔ κ)
Go S A = S → Outcome A × S

module _ {ℓ κ} {S : Type ℓ} {A : Type κ} where
  abbrev pub pure : A → Go S A
  pure a s = (ok a, s)

  abbrev pub lift : Outcome A → Go S A
  lift r s = (r, s)

  abbrev pub gets : (S → A) → Go S A
  gets f s = (ok (f s), s)

module _ {ℓ} {S : Type ℓ} where
  abbrev pub modify : (S → S) → Go S (Unit {0})
  modify f s = (ok tt, f s)

module _ {ℓ κ μ} {S : Type ℓ} {A : Type κ} {B : Type μ} where
  abbrev pub resume : Outcome A → (A → Go S B) → Go S B
  resume (ok a) f s = f a s
  resume (fail e) f s = (fail e, s)
  resume (panic p) f s = (panic p, s)

  infixl 5 ◌>>=◌
  abbrev pub ◌>>=◌ : Go S A → (A → Go S B) → Go S B
  ◌>>=◌ m f s = let (r, s') = m s in resume r f s'

module _ {ℓ κ} {S : Type ℓ} {B : Type κ} where
  infixl 5 ◌>>◌
  abbrev pub ◌>>◌ : Go S (Unit {0}) → Go S B → Go S B
  m >> n = m >>= λ _. n

module _ {ℓ κ} {S : Type ℓ} {A : Type κ} where
  -- A computation over a part of the state.
  abbrev pub zoom {μ} : {T : Type μ} → (T → S) → (S → T → T) → Go S A → Go T A
  zoom get put m t = let (r, s) = m (get t) in (r, put s t)

  -- An expression that reads the state and may fail.
  abbrev pub reads : (S → Outcome A) → Go S A
  reads f s = (f s, s)

module _ {ℓ} {S : Type ℓ} where
  abbrev written : Outcome S → S → Outcome (Unit {0}) × S
  written (ok s') s = (ok tt, s')
  written (fail e) s = (fail e, s)
  written (panic p) s = (panic p, s)

  -- An assignment whose target may be missing.
  abbrev pub attempt : (S → Outcome S) → Go S (Unit {0})
  attempt f s = written (f s) s
