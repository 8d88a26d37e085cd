-- ===== src/Common/Go/Keeps.antt =====
-- Methods that relate the state before to the state after, whatever they return: the rules by which
-- a relation that is reflexive and transitive passes from the parts of a method to the whole.
use mathlib.Core.Bool.{Bool, true, false}
use mathlib.Core.Option.{Option, none, some}
use mathlib.Core.Path.{◌≡◌, refl}
use kubeflow_controller.Common.Tests.{if◌then◌else◌}
use kubeflow_controller.Common.Outcome.{Outcome, ok, fail, panic}
use kubeflow_controller.Common.Go.{
  Go, pure, lift, gets, modify, resume, reads, zoom, attempt, written, ◌>>=◌, ◌>>◌,
}

-- A relation on states that is reflexive and transitive.
pub record Preorder {ℓ} (S : Type ℓ) : Type (ℓ + 1) where
  pub Rel : S → S → Type ℓ
  pub same : (s : S) → Rel s s
  pub through : (s t u : S) → Rel s t → Rel t u → Rel s u

-- Whatever the method returns, it goes from a state to a related one.
pub record Keeps {ℓ κ} {S : Type ℓ} {A : Type κ} (R : Preorder S) (m : Go S A) : Type ℓ where
  pub apply : (s : S) → R.Rel s (m s).1

-- What holds of the value of a result, if it has one.
abbrev pub Yields {ℓ κ} : {A : Type ℓ} → (A → Type κ) → Outcome A → Type κ
Yields P (ok a) = P a
Yields P (fail e) = Unit
Yields P (panic f) = Unit

module _ {ℓ κ} {S : Type ℓ} {A : Type κ} (R : Preorder S) where
  pub pure-Keeps : (a : A) → Keeps R (pure a)
  pure-Keeps a = record { apply = λ s. R.same s }

  pub lift-Keeps : (r : Outcome A) → Keeps R (lift r)
  lift-Keeps r = record { apply = λ s. R.same s }

  pub gets-Keeps : (f : S → A) → Keeps R (gets f)
  gets-Keeps f = record { apply = λ s. R.same s }

  pub reads-Keeps : (f : S → Outcome A) → Keeps R (reads f)
  reads-Keeps f = record { apply = λ s. R.same s }

module _ {ℓ} {S : Type ℓ} (R : Preorder S) where
  pub modify-Keeps : {f : S → S} → ((s : S) → R.Rel s (f s)) → Keeps R (modify f)
  modify-Keeps h = record { apply = λ s. h s }

  written-Keeps : (r : Outcome S) (s : S) → Yields (λ t. R.Rel s t) r → R.Rel s (written r s).1
  written-Keeps (ok t) s h = h
  written-Keeps (fail e) s h = R.same s
  written-Keeps (panic f) s h = R.same s

  pub attempt-Keeps :
      (f : S → Outcome S) → ((s : S) → Yields (λ t. R.Rel s t) (f s)) → Keeps R (attempt f)
  attempt-Keeps f h = record { apply = λ s. written-Keeps (f s) s (h s) }

module _ {ℓ κ μ} {S : Type ℓ} {A : Type κ} {B : Type μ} (R : Preorder S) where
  resume-Keeps :
      (f : A → Go S B) (r : Outcome A) (s : S)
      → ((a : A) → Keeps R (f a))
      → R.Rel s (resume r f s).1
  resume-Keeps f (ok a) s h = (h a).apply s
  resume-Keeps f (fail e) s h = R.same s
  resume-Keeps f (panic p) s h = R.same s

  -- What follows a method looks at its result itself.
  pub and_then-Keeps :
      {m : Go S A} (g : Outcome A → Go S B)
      → Keeps R m
      → ((r : Outcome A) → Keeps R (g r))
      → (s : S) → R.Rel s (g (m s).0 (m s).1).1
  and_then-Keeps {m} g h k s =
      R.through s (m s).1 (g (m s).0 (m s).1).1 (h.apply s) ((k (m s).0).apply (m s).1)

  -- From a state where the first part is known to keep the relation.
  pub >>=-Rel :
      (m : Go S A) (f : A → Go S B) (s : S)
      → R.Rel s (m s).1
      → ((a : A) → Keeps R (f a))
      → R.Rel s (resume (m s).0 f (m s).1).1
  >>=-Rel m f s h k =
      R.through s (m s).1 (resume (m s).0 f (m s).1).1 h (resume-Keeps f (m s).0 (m s).1 k)

  pub >>=-Keeps :
      {m : Go S A} {f : A → Go S B} → Keeps R m → ((a : A) → Keeps R (f a)) → Keeps R (m >>= f)
  >>=-Keeps {m} {f} h k = record { apply = λ s. >>=-Rel m f s (h.apply s) k }

module _ {ℓ κ μ ν} {S : Type ℓ} {A : Type κ} {B : Type μ} (R : Preorder S) (P : A → Type ν) where
  resume-Yields :
      (f : A → Go S B) (r : Outcome A) (s : S)
      → Yields P r
      → ((a : A) → P a → Keeps R (f a))
      → R.Rel s (resume r f s).1
  resume-Yields f (ok a) s y h = (h a y).apply s
  resume-Yields f (fail e) s y h = R.same s
  resume-Yields f (panic p) s y h = R.same s

  -- What follows may rely on what is known of the value.
  pub knowing-Keeps :
      {m : Go S A} {f : A → Go S B}
      → Keeps R m
      → ((s : S) → Yields P (m s).0)
      → ((a : A) → P a → Keeps R (f a))
      → Keeps R (m >>= f)
  knowing-Keeps {m} {f} h y k = record {
    apply = λ s.
        R.through s (m s).1 (resume (m s).0 f (m s).1).1 (h.apply s)
          (resume-Yields f (m s).0 (m s).1 (y s) k);
  }

module _ {ℓ κ} {S : Type ℓ} {B : Type κ} (R : Preorder S) where
  pub >>-Keeps : {m : Go S (Unit {0})} {n : Go S B} → Keeps R m → Keeps R n → Keeps R (m >> n)
  >>-Keeps h k = >>=-Keeps R h (λ _. k)

module _ {ℓ κ} {S T : Type ℓ} {A : Type κ} (R : Preorder S) (Q : Preorder T) where
  -- A method of a part, where a change that the part may make is one that the whole may make.
  pub zoom-Keeps :
      (get : T → S) (put : S → T → T) {m : Go S A}
      → ((t : T) (s : S) → R.Rel (get t) s → Q.Rel t (put s t))
      → Keeps R m
      → Keeps Q (zoom get put m)
  zoom-Keeps get put {m} h k = record { apply = λ t. h t (m (get t)).1 (k.apply (get t)) }

module _ {ℓ κ} {S : Type ℓ} {A : Type κ} (R : Preorder S) where
  -- Both branches of a test.
  pub if-Keeps :
      (b : Bool) (s : S) (x y : Outcome A × S)
      → R.Rel s x.1
      → R.Rel s y.1
      → R.Rel s (if b then x else y).1
  if-Keeps true s x y h k = h
  if-Keeps false s x y h k = k

module _ {ℓ κ μ} {S : Type ℓ} {A : Type κ} {B : Type μ} (R : Preorder S) where
  -- Two tests, for nil and of a flag: what is done if both hold may rely on them.
  pub gate-Keeps :
      (b : Option B) (flag : Bool) (s : S) (x y : Outcome A × S)
      → (elim b as (λ _. Bool) [ none ↦ flag | some _ ↦ false ] ≡ true → R.Rel s x.1)
      → R.Rel s y.1
      → R.Rel s (elim b as (λ _. Outcome A × S) [ none ↦ if flag then x else y | some _ ↦ y ]).1
  gate-Keeps none true s x y h k = h refl
  gate-Keeps none false s x y h k = k
  gate-Keeps (some b) flag s x y h k = k
