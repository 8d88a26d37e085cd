-- ===== src/Platform/Pods.antt =====
-- controller.PodControllerRefManager of k8s.io/kubernetes, which the program calls: what ClaimPods is
-- documented to do where nothing is to be adopted or released.
use kubeflow_controller.Common.{
  String, Bool, true, false, none, some, List, [], ◌∷◌, ◌++◌, ◌≡◌, ◌⊎◌, inl, inr, refl, ap, ◌∙◌,
  arith, All, All-append, All-map, str_eq, if◌then◌else◌,
}
use kubeflow_controller.Common.Map.{Map}
use kubeflow_controller.Common.Outcome.{Outcome, ok}
use kubeflow_controller.Api.{ObjectMeta, OwnerReference, Pod}
use kubeflow_controller.Platform.Machinery.{Machinery}
use kubeflow_controller.Platform.Cluster.{Cluster}

-- A nil map has no labels.
abbrev pub pod_labels : Pod → Map String
pod_labels pod = elim pod.metadata.labels [ none ↦ [] | some ls ↦ ls ]

module _ (m : Machinery) (meta : ObjectMeta) where
  -- The pod's controller is the object with this metadata.
  abbrev pub is_controlled : Pod → Bool
  is_controlled pod = elim (m.get_controller_of pod.metadata) [
    | none ↦ false
    | some ref ↦ str_eq ref.uid meta.uid
  ]

  abbrev pub controlled : List Pod → List Pod
  controlled [] = []
  controlled (pod ∷ pods) = if is_controlled pod then pod ∷ controlled pods else controlled pods

  module _ (selector : Map String → Bool) where
    -- The pod has another controller, or it has none and is not selected.
    abbrev pub IsForeign : Pod → Type 0
    IsForeign pod =
        ((m.get_controller_of pod.metadata ≡ none) × (selector (pod_labels pod) ≡ false))
        ⊎ ((ref : OwnerReference) × (m.get_controller_of pod.metadata ≡ some ref)
            × (str_eq ref.uid meta.uid ≡ false))

    -- The pod has this controller, and is selected.
    abbrev pub IsOwn : Pod → Type 0
    IsOwn pod =
        (ref : OwnerReference) × (m.get_controller_of pod.metadata ≡ some ref)
        × (str_eq ref.uid meta.uid ≡ true)
        × (selector (pod_labels pod) ≡ true)

    controlled-foreign :
        (pod : Pod) (pods : List Pod) → IsForeign pod → controlled (pod ∷ pods) ≡ controlled pods
    controlled-foreign pod pods (inl (e, _)) = ground arith
    controlled-foreign pod pods (inr (ref, e, other)) = ground arith

    controlled-own :
        (pod : Pod) (pods : List Pod) → IsOwn pod → controlled (pod ∷ pods) ≡ pod ∷ controlled pods
    controlled-own pod pods (ref, e, same, _) = ground arith

    controlled-none : (pods : List Pod) → All IsForeign pods → controlled pods ≡ []
    controlled-none [] h = refl
    controlled-none (pod ∷ pods) h = controlled-foreign pod pods h.0 ∙ controlled-none pods h.1

    -- Between foreign pods stands one of its own.
    pub controlled-one :
        (before : List Pod) (pod : Pod) (after : List Pod)
        → All IsForeign before
        → IsOwn pod
        → All IsForeign after
        → controlled (before ++ pod ∷ after) ≡ pod ∷ []
    controlled-one [] pod after h own h' =
        controlled-own pod after own ∙ ap (λ pods. pod ∷ pods) (controlled-none after h')
    controlled-one (other ∷ before) pod after h own h' =
        controlled-foreign other (before ++ pod ∷ after) h.0
        ∙ controlled-one before pod after h.1 own h'

    pub quiet_around :
        (before : List Pod) (pod : Pod) (after : List Pod)
        → All IsForeign before
        → IsOwn pod
        → All IsForeign after
        → All (λ (pod : Pod). IsForeign pod ⊎ IsOwn pod) (before ++ pod ∷ after)
    quiet_around before pod after h own h' =
        let foreign = λ (pods : List Pod) (h : All IsForeign pods).
          All-map IsForeign (λ (pod : Pod). IsForeign pod ⊎ IsOwn pod) (λ pod h. inl h) pods h in
        All-append (λ (pod : Pod). IsForeign pod ⊎ IsOwn pod) before (pod ∷ after)
          (foreign before h) (inr own, foreign after h')

-- Documented behaviour: a selector that was made of labels matches them, and ClaimPods, where every
-- pod is foreign or its own, claims its own and asks the API server for nothing.
pub record PodLaws (m : Machinery) (cluster : Cluster) : Type 0 where
  pub selector_own :
      (ls : Map String) {selector : Map String → Bool}
      → m.label_selector ls ≡ ok selector
      → selector ls ≡ true
  pub claim_pods-quiet :
      (meta : ObjectMeta) (selector : Map String → Bool) (may : cluster.World → Outcome (Unit {0}))
      (pods : List Pod) (w : cluster.World)
      → All (λ (pod : Pod). IsForeign m meta selector pod ⊎ IsOwn m meta selector pod) pods
      → cluster.claim_pods meta selector may pods w ≡ (ok (controlled m meta pods), ([], w))
