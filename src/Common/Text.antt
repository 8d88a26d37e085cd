-- ===== src/Common/Text.antt =====
-- Texts are compared both ways alike, and decimal text, as fmt's %d prints a number that is not negative.
use Prim.Native.Nat.{ℕ, zero, suc, ◌+◌, ◌*◌, ◌/◌, ◌%◌, ◌-◌, ◌<◌}
use Prim.Native.Char.{code}
use Prim.Native.String.{String, ◌++◌}
use mathlib.Core.Path.{◌≡◌, refl, ap, sym, ◌∙◌}
use mathlib.Core.Bool.{false}
use mathlib.Core.Logic.{◌≢◌, inl, inr}
use native.Mathlib.Omega.{arith}
use text.Mathlib.Text.{◌==◌}
use text.Mathlib.TextEquality.{eq_iff}
use text.Mathlib.TextLemmas.{nil-append, cons-append}
use kubeflow_controller.Common.Tests.{ltb, ltb→lt, Bool-cases, if◌then◌else◌}

pub str_eq_comm : (s t : String) → (s == t) ≡ (t == s)
str_eq_comm s t = elim (Bool-cases (s == t)) [
  | inl e ↦ e ∙ sym ((eq_iff t s).1 (sym ((eq_iff s t).0 e)))
  | inr e ↦ elim (Bool-cases (t == s)) [
    | inl e' ↦ (eq_iff s t).1 (sym ((eq_iff t s).0 e')) ∙ sym e'
    | inr e' ↦ e ∙ sym e'
  ]
]

pub ne_of_str_eq : {s t : String} → (s == t) ≡ false → s ≢ t
ne_of_str_eq {s} {t} e p = cc ((eq_iff s t).1 p)

abbrev digit : ℕ → String
digit zero = "0"
digit (suc zero) = "1"
digit (suc (suc zero)) = "2"
digit (suc (suc (suc zero))) = "3"
digit (suc (suc (suc (suc zero)))) = "4"
digit (suc (suc (suc (suc (suc zero))))) = "5"
digit (suc (suc (suc (suc (suc (suc zero)))))) = "6"
digit (suc (suc (suc (suc (suc (suc (suc zero))))))) = "7"
digit (suc (suc (suc (suc (suc (suc (suc (suc zero)))))))) = "8"
digit (suc (suc (suc (suc (suc (suc (suc (suc (suc d))))))))) = "9"

-- `n + 1` rounds are enough: each divides by ten.
decimal_rounds : ℕ → ℕ → String
decimal_rounds zero n = ""
decimal_rounds (suc f) n =
    let rest = decimal_rounds f (n / 10) ++ digit (n % 10) in if ltb n 10 then digit n else rest

unfoldable pub decimal : ℕ → String
unfolding decimal_rounds
decimal n = decimal_rounds (suc n) n

-- The number that a text of digits spells, after the digits of `acc`.
value_from : ℕ → String → ℕ
value_from acc String.[] = acc
value_from acc (String.◌∷◌ c s) = value_from (acc * 10 + (code c - 48)) s

value_from-append :
    (acc : ℕ) (s t : String) → value_from acc (s ++ t) ≡ value_from (value_from acc s) t
unfolding value_from
value_from-append acc String.[] t = rw nil-append
value_from-append acc (String.◌∷◌ c s) t =
    rw (cons-append c s t) (value_from-append (acc * 10 + (code c - 48)) s t)

value_from-digit : (acc d : ℕ) → d < 10 → value_from acc (digit d) ≡ acc * 10 + d
unfolding value_from
value_from-digit acc zero h = refl
value_from-digit acc (suc zero) h = refl
value_from-digit acc (suc (suc zero)) h = refl
value_from-digit acc (suc (suc (suc zero))) h = refl
value_from-digit acc (suc (suc (suc (suc zero)))) h = refl
value_from-digit acc (suc (suc (suc (suc (suc zero))))) h = refl
value_from-digit acc (suc (suc (suc (suc (suc (suc zero)))))) h = refl
value_from-digit acc (suc (suc (suc (suc (suc (suc (suc zero))))))) h = refl
value_from-digit acc (suc (suc (suc (suc (suc (suc (suc (suc zero)))))))) h = refl
value_from-digit acc (suc (suc (suc (suc (suc (suc (suc (suc (suc zero))))))))) h = refl
value_from-digit acc (suc (suc (suc (suc (suc (suc (suc (suc (suc (suc d)))))))))) h =
    absurd (omega arith)

value_of_decimal_rounds : (f n : ℕ) → n < f → value_from 0 (decimal_rounds f n) ≡ n
unfolding decimal_rounds
value_of_decimal_rounds zero n h = absurd (omega arith)
value_of_decimal_rounds (suc f) n h = elim (Bool-cases (ltb n 10)) [
  | inl small ↦ rw small (value_from-digit 0 n (ltb→lt n 10 small) ∙ omega arith)
  | inr large ↦ rw large (
      rw (value_from-append 0 (decimal_rounds f (n / 10)) (digit (n % 10))) (
        rw (value_of_decimal_rounds f (n / 10) (ground arith))
          (value_from-digit (n / 10) (n % 10) (omega arith) ∙ omega arith)))
]

-- Numbers with one decimal text are equal.
pub decimal_inj : (m n : ℕ) → decimal m ≡ decimal n → m ≡ n
unfolding decimal
decimal_inj m n h =
    sym (value_of_decimal_rounds (suc m) m (omega arith))
    ∙ ap (value_from 0) h
    ∙ value_of_decimal_rounds (suc n) n (omega arith)

decimal_407 : decimal 407 ≡ "407"
unfolding decimal
decimal_407 = refl
