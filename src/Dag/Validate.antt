-- ===== src/Dag/Validate.antt =====
-- internal/core/dag/dag.go: Validate and detectCycle. The order in which Go walks the index map is
-- random, so it is the argument `order`. The recursion of `visit` is on fuel, the number of keys.
pub mod Edges
pub mod Whites
pub mod Dfs
pub mod Correct
pub mod Accepts
use hatchet_workflow.Base.{
  ℕ, zero, suc, String, List, [], ◌∷◌, ◌++◌, Option, none, some, lookup, length, if◌then◌else◌,
  ◌==◌,
}
use hatchet_workflow.Dag.Graph.{
  Node, Graph, Index, index, Result, ok, err, GraphError, unknown_dep, cycle_at, nil_node,
  unfinished,
}

pub data Color : Type 0 where
  white gray black : Color

-- The map `color`, in which a missing key reads white.
abbrev pub Colors : Type 0
Colors = String → Color

abbrev pub blank : Colors
blank id = white

abbrev pub paint : Colors → String → Color → Colors
paint c id k x = if id == x then k else c x

-- What a call of `visit` comes to: the colours it leaves, and the error it returns.
pub data Visit : Type 0 where
  visited : Colors → Visit
  cycle : Colors → String → Visit
  nil_deref : Visit
  no_fuel : Visit

abbrev pub and_then : Visit → (Colors → Visit) → Visit
and_then (visited c) f = f c
and_then other f = other

-- The loop over the deps, for a `visit` of the calls below it.
unfoldable pub visit_deps : (String → Colors → Visit) → List String → Colors → Visit
visit_deps go [] c = visited c
visit_deps go (dep ∷ deps) c = elim (c dep) [
  | gray ↦ cycle c dep
  | white ↦ and_then (go dep c) (λ c'. visit_deps go deps c')
  | black ↦ visit_deps go deps c
]

abbrev pub blacken : String → Visit → Visit
blacken id (visited c) = visited (paint c id black)
blacken id other = other

module _ {T : Type 0} (idx : Index T) where
  unfoldable pub visit : ℕ → String → Colors → Visit
  unfolding visit_deps lookup
  visit zero id c = no_fuel
  visit (suc fuel) id c = elim (lookup id idx) [
    | none ↦ nil_deref
    | some n ↦ blacken id (visit_deps (visit fuel) n.deps (paint c id gray))
  ]

  -- The loop over the index, which goes on after an error; `errs` are the nodes reported.
  unfoldable pub detect_from : ℕ → List String → Colors → List String → Result (List String)
  unfolding visit
  detect_from fuel [] c errs = ok errs
  detect_from fuel (id ∷ ids) c errs = elim (c id) [
    | white ↦ elim (visit fuel id c) [
      | visited c' ↦ detect_from fuel ids c' errs
      | cycle c' at ↦ detect_from fuel ids c' (errs ++ at ∷ [])
      | nil_deref ↦ err nil_node
      | no_fuel ↦ err unfinished
    ]
    | _ ↦ detect_from fuel ids c errs
  ]

  -- errors.Join of no errors is nil.
  unfoldable pub detect_cycle : List String → Result (Unit {0})
  unfolding detect_from
  detect_cycle order = elim (detect_from (suc (length order)) order blank []) [
    | ok [] ↦ ok tt
    | ok (id ∷ ids) ↦ err (cycle_at (id ∷ ids))
    | err e ↦ err e
  ]

  -- The first dep of one node that the index lacks.
  unfoldable pub unknown_in : List String → Option String
  unknown_in [] = none
  unknown_in (dep ∷ deps) = elim (lookup dep idx) [ none ↦ some dep | some _ ↦ unknown_in deps ]

  unfoldable pub unknown_dep_of : List (Node T) → Option (String × String)
  unfolding unknown_in
  unknown_dep_of [] = none
  unknown_dep_of (n ∷ ns) = elim (unknown_in n.deps) [
    | some dep ↦ some (n.id, dep)
    | none ↦ unknown_dep_of ns
  ]

-- Validate
unfoldable pub validate : {T : Type 0} → Graph T → List String → Result (Unit {0})
unfolding index unknown_dep_of detect_cycle
validate g order = elim (unknown_dep_of (index g) g) [
  | some (id, dep) ↦ err (unknown_dep id dep)
  | none ↦ detect_cycle (index g) order
]
