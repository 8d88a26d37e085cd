-- ===== src/Platform/Machinery.antt =====
-- The pure functions of k8s.io/apimachinery, client-go and k8s.io/kubernetes that the program calls,
-- and the documented behaviour that the theorems rely on.
use kubeflow_controller.Common.{String, Bool, true, Option, none, some, List, [], ◌∷◌, ◌≡◌, ◌≢◌}
use kubeflow_controller.Common.Map.{Map, lookup}
use kubeflow_controller.Common.Outcome.{Outcome, ok, Err}
use kubeflow_controller.Api.{ObjectMeta, OwnerReference, Pod}

pub record Machinery : Type 0 where
  -- metav1.GetControllerOf
  pub get_controller_of : ObjectMeta → Option OwnerReference
  -- metav1.LabelSelectorAsSelector of a MatchLabels; the selector is its method Matches
  pub label_selector : Map String → Outcome (Map String → Bool)
  -- labels.Set(ls).AsSelectorPreValidated().Empty()
  pub selects_all : Option (Map String) → Bool
  pub is_not_found : Err → Bool
  pub is_invalid : Err → Bool
  -- utilerrors.NewAggregate
  pub new_aggregate : List Err → Option Err
  -- controller.FilterActivePods
  pub filter_active_pods : List Pod → List Pod
  -- controller.KeyFunc and cache.MetaNamespaceKeyFunc, of an object with this metadata
  pub key_func : ObjectMeta → Outcome String
  -- cache.SplitMetaNamespaceKey
  pub split_key : String → Outcome (String × String)
  -- what controller.RecheckDeletionTimestamp answers when its getter gives this
  pub recheck_deletion_timestamp : Outcome ObjectMeta → Outcome (Unit {0})

-- Every label of `selector` stands in `ls`.
abbrev pub Selects : Map String → Map String → Type 0
Selects selector ls = (k v : String) → lookup k selector ≡ some v → lookup k ls ≡ some v

-- Documented behaviour of these functions.
pub record MachineryLaws (m : Machinery) : Type 0 where
  pub aggregate_none : m.new_aggregate [] ≡ none
  pub aggregate_some : (e : Err) (es : List Err) → m.new_aggregate (e ∷ es) ≢ none

-- Documented behaviour of a selector that was made of labels: it matches only what has them all.
pub record SelectorLaws (m : Machinery) : Type 0 where
  pub selector_sound :
      (ls set : Map String) {selector : Map String → Bool}
      → m.label_selector ls ≡ ok selector
      → selector set ≡ true
      → Selects ls set
