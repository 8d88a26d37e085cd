-- ===== src/Controller/Labels/Apart.antt =====
-- What is found by the labels of one type, or of one runtime ID, is not found by those of another.
use kubeflow_controller.Common.{
  String, Bool, true, false, some, ◌≡◌, ◌≢◌, refl, Bool-cases, inl, inr,
}
use kubeflow_controller.Common.Map.{Map, lookup}
use kubeflow_controller.Common.Outcome.{ok}
use kubeflow_controller.Api.{TfJob}
use kubeflow_controller.Platform.Machinery.{Machinery, Selects, SelectorLaws}
use kubeflow_controller.Controller.Labels.{match_labels}

module _ (job : TfJob) (typ : String) (ls : Map String)
    (h : Selects (match_labels job typ) ls) where
  typ_label : lookup "job_type" ls ≡ some typ
  unfolding match_labels lookup
  typ_label = h "job_type" typ refl

  id_label : lookup "runtime_id" ls ≡ some job.spec.runtime_id
  unfolding match_labels lookup
  id_label = h "runtime_id" job.spec.runtime_id refl

module _ (m : Machinery) (laws : SelectorLaws m) (job job' : TfJob) (typ typ' : String)
    {selector selector' : Map String → Bool}
    (made : m.label_selector (match_labels job typ) ≡ ok selector)
    (made' : m.label_selector (match_labels job' typ') ≡ ok selector') (ls : Map String)
    (found : selector ls ≡ true) where
  selects : Selects (match_labels job typ) ls
  selects = laws.selector_sound (match_labels job typ) ls made found

  not_found : (selector' ls ≡ true → ⊥) → selector' ls ≡ false
  not_found h = elim (Bool-cases (selector' ls)) [ inl e ↦ absurd (h e) | inr e ↦ e ]

  selects' : selector' ls ≡ true → Selects (match_labels job' typ') ls
  selects' e = laws.selector_sound (match_labels job' typ') ls made' e

  pub other_type-not_found : typ ≢ typ' → selector' ls ≡ false
  other_type-not_found d = not_found λ e.
      d (let a = typ_label job typ ls selects in let b = typ_label job' typ' ls (selects' e) in cc)

  pub other_id-not_found : job.spec.runtime_id ≢ job'.spec.runtime_id → selector' ls ≡ false
  other_id-not_found d = not_found λ e.
      d (let a = id_label job typ ls selects in let b = id_label job' typ' ls (selects' e) in cc)
