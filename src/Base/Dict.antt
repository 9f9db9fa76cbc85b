-- ===== src/Base/Dict.antt =====
-- A Go map keyed by text, as an association list in which a key stands at most once.
use Prim.Native.String.{String}
use mathlib.Core.Path.{◌≡◌, refl, subst}
use mathlib.Core.Logic.{inl, inr}
use mathlib.Core.Option.{Option, none, some, some-injective}
use mathlib.Core.List.{List, [], ◌∷◌}
use native.Mathlib.Omega.{arith}
use text.Mathlib.Text.{◌==◌}
use text.Mathlib.TextEquality.{eq_iff}
use hatchet_workflow.Base.Tests.{if◌then◌else◌, Bool-cases}
use hatchet_workflow.Base.Lists.{All}

module _ {ℓ} {V : Type ℓ} where
  -- m[key], with none for a missing key
  unfoldable pub lookup : String → List (String × V) → Option V
  lookup key [] = none
  lookup key (entry ∷ rest) = if entry.0 == key then some entry.1 else lookup key rest

  -- m[key] = value
  unfoldable pub insert : String → V → List (String × V) → List (String × V)
  insert key value [] = (key, value) ∷ []
  insert key value (entry ∷ rest) =
      if entry.0 == key then (key, value) ∷ rest else entry ∷ insert key value rest

  -- What a key reads after an assignment to the same or to another key.
  pub lookup-insert :
      (key other : String) (value : V) (rest : List (String × V))
      → lookup other (insert key value rest)
        ≡ (if key == other then some value else lookup other rest)
  unfolding lookup insert
  lookup-insert key other value [] = refl
  lookup-insert key other value ((name, _) ∷ rest) =
      let later = lookup-insert key other value rest in
      ground (arith, later, eq_iff name other, eq_iff key other, eq_iff name key)

  -- delete(m, key)
  unfoldable pub remove : String → List (String × V) → List (String × V)
  remove key [] = []
  remove key (entry ∷ rest) = if entry.0 == key then remove key rest else entry ∷ remove key rest

  pub lookup-remove :
      (key other : String) (rest : List (String × V))
      → lookup other (remove key rest) ≡ (if key == other then none else lookup other rest)
  unfolding lookup remove
  lookup-remove key other [] = ground arith
  lookup-remove key other ((name, _) ∷ rest) =
      let later = lookup-remove key other rest in
      ground (arith, later, eq_iff name other, eq_iff key other, eq_iff name key)

  -- A predicate on every entry survives an assignment and a removal, and holds of what is found.
  module _ {κ} (P : String × V → Type κ) where
    pub All-insert :
        (key : String) (value : V) (m : List (String × V))
        → P (key, value)
        → All P m
        → All P (insert key value m)
    unfolding insert
    All-insert key value [] p all = (p, tt)
    All-insert key value (entry ∷ rest) p (here, later) = elim (Bool-cases (entry.0 == key)) [
      | inl e ↦ rw e (p, later)
      | inr e ↦ rw e (here, All-insert key value rest p later)
    ]

    pub All-remove : (key : String) (m : List (String × V)) → All P m → All P (remove key m)
    unfolding remove
    All-remove key [] all = tt
    All-remove key (entry ∷ rest) (here, later) = elim (Bool-cases (entry.0 == key)) [
      | inl e ↦ rw e (All-remove key rest later)
      | inr e ↦ rw e (here, All-remove key rest later)
    ]

    pub All-lookup :
        (key : String) (value : V) (m : List (String × V))
        → All P m
        → lookup key m ≡ some value
        → P (key, value)
    unfolding lookup
    All-lookup key value [] all e = cc
    All-lookup key value ((name, other) ∷ rest) (here, later) e = elim (Bool-cases (name == key)) [
      | inl same ↦
          subst P
            (λ i.
              ((eq_iff name key).0 same i, some-injective other value (ground (arith, e, same)) i))
            here
      | inr differs ↦ All-lookup key value rest later (ground (arith, e, differs))
    ]
