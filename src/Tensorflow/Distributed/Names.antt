-- ===== src/Tensorflow/Distributed/Names.antt =====
-- The names under which the services of the replicas are kept are all different.
use Prim.Native.Char.{Char, code}
use Prim.Native.String.{String, ◌++◌}
use text.Mathlib.TextLemmas.{cons-append, append_cancel_left}
use kubeflow_controller.Common.{ℕ, ◌≡◌, ◌≢◌, inl, inr, refl, sym, ap, ◌∙◌, arith}
use kubeflow_controller.Common.Text.{decimal, decimal_inj}
use kubeflow_controller.Checker.{tf_replica_ps, tf_replica_worker}
use kubeflow_controller.Updater.Table.{IsType}
use kubeflow_controller.Tensorflow.Distributed.Spec.{service_name, to_lower}

first_code : String → ℕ
first_code String.[] = 0
first_code (String.◌∷◌ c s) = code c

first_code-append : (c : Char) (s t : String) → first_code ((String.◌∷◌ c s) ++ t) ≡ code c
unfolding first_code
first_code-append c s t = rw (cons-append c s t) refl

-- What follows the job's name determines it.
service_name-tail :
    (job typ typ' : String) (i j : ℕ)
    → service_name job typ i ≡ service_name job typ' j
    → to_lower typ ++ ("-" ++ decimal i) ≡ to_lower typ' ++ ("-" ++ decimal j)
unfolding service_name
service_name-tail job typ typ' i j e =
    append_cancel_left "-" (to_lower typ ++ ("-" ++ decimal i))
      (to_lower typ' ++ ("-" ++ decimal j)) (append_cancel_left job _ _ e)

worker_not_ps :
    (job : String) (i j : ℕ)
    → service_name job tf_replica_worker i ≢ service_name job tf_replica_ps j
worker_not_ps job i j e =
    let w : first_code ("worker" ++ ("-" ++ decimal i)) ≡ 119 =
      first_code-append "w" "orker" ("-" ++ decimal i) in
    let p : first_code ("ps" ++ ("-" ++ decimal j)) ≡ 112 =
      first_code-append "p" "s" ("-" ++ decimal j) in
    let codes = ap first_code (service_name-tail job tf_replica_worker tf_replica_ps i j e) in
    omega (arith, sym w ∙ codes ∙ p)

same_index : (job typ : String) (i j : ℕ) → service_name job typ i ≡ service_name job typ j → i ≡ j
same_index job typ i j e = decimal_inj i j (
    append_cancel_left "-" (decimal i) (decimal j)
      (append_cancel_left (to_lower typ) _ _ (service_name-tail job typ typ i j e)))

-- Two replicas of one job, of the two types, have one service name only if they are the same replica.
pub service_name_inj :
    (job : String) {typ typ' : String} (i j : ℕ)
    → IsType typ
    → IsType typ'
    → service_name job typ i ≡ service_name job typ' j
    → (typ ≡ typ') × (i ≡ j)
service_name_inj job i j (inl w) (inr p) e = absurd (
    worker_not_ps job i j
      (ap (λ t. service_name job t i) (sym w) ∙ e ∙ ap (λ t. service_name job t j) p))
service_name_inj job i j (inr p) (inl w) e = absurd (
    worker_not_ps job j i
      (ap (λ t. service_name job t j) (sym w) ∙ sym e ∙ ap (λ t. service_name job t i) p))
service_name_inj job {typ} i j (inl w) (inl w') e =
    let same = w ∙ sym w' in
    (same, same_index job typ i j (e ∙ ap (λ t. service_name job t j) (sym same)))
service_name_inj job {typ} i j (inr p) (inr p') e =
    let same = p ∙ sym p' in
    (same, same_index job typ i j (e ∙ ap (λ t. service_name job t j) (sym same)))
