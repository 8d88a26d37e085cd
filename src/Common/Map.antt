-- ===== src/Common/Map.antt =====
-- Go's `map[string]V` as an association list. The program never ranges over a map.
use Prim.Native.String.{String}
use mathlib.Core.Path.{◌≡◌, refl}
use mathlib.Core.List.{List, [], ◌∷◌}
use mathlib.Core.Logic.{inl, inr}
use mathlib.Core.Option.{Option, none, some}
use native.Mathlib.Omega.{arith}
use text.Mathlib.Text.{◌==◌}
use text.Mathlib.TextEquality.{eq_iff}
use kubeflow_controller.Common.Tests.{if◌then◌else◌, Bool-cases}

abbrev pub Map {ℓ} : Type ℓ → Type ℓ
Map V = List (String × V)

module _ {ℓ} {V : Type ℓ} where
  -- value, ok := entries[key]
  unfoldable pub lookup : (key : String) (entries : Map V) → Option V
  lookup key [] = none
  lookup key ((name, value) ∷ rest) = if name == key then some value else lookup key rest

  -- entries[key] = value: the entry is replaced where it stands, or added at the end.
  unfoldable pub insert : (key : String) (value : V) (entries : Map V) → Map V
  insert key value [] = (key, value) ∷ []
  insert key value ((name, old) ∷ rest) =
      if name == key then (name, value) ∷ rest else (name, old) ∷ insert key value rest

  pub lookup-insert :
      (key other : String) (value : V) (entries : Map V)
      → lookup other (insert key value entries)
        ≡ (if key == other then some value else lookup other entries)
  unfolding lookup insert
  lookup-insert key other value [] = refl
  lookup-insert key other value ((name, old) ∷ rest) =
      let step = lookup-insert key other value rest in
      ground (arith, step, eq_iff key other, eq_iff name other, eq_iff name key)

  -- m[k], with the zero value of the element type for a missing key
  abbrev pub lookup_or : V → String → Map V → V
  lookup_or d k m = elim (lookup k m) [ none ↦ d | some v ↦ v ]

  pub lookup_or-insert :
      (d : V) (k j : String) (v : V) (m : Map V)
      → lookup_or d j (insert k v m) ≡ (if k == j then v else lookup_or d j m)
  lookup_or-insert d k j v m = elim (Bool-cases (k == j)) [
    | inl e ↦ rw (lookup-insert k j v m, lookup_or) (rw (e, lookup_or) refl)
    | inr e ↦ rw (lookup-insert k j v m, lookup_or) (rw (e, lookup_or) refl)
  ]
