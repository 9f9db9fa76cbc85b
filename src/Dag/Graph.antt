-- ===== src/Dag/Graph.antt =====
-- internal/core/dag/dag.go: nodes, graphs, and the queries the executor makes. A `*Node` is the
-- record; `Task` is a type parameter, since tasks are opaque to the graph.
pub mod Lookup
pub mod Unique
use hatchet_workflow.Base.{
  String, Bool, true, false, not, ◌||◌, List, [], ◌∷◌, ◌++◌, Option, insert, any, if◌then◌else◌,
  ◌==◌,
}

pub record Node (T : Type 0) : Type 0 where
  pub id : String
  pub type : String
  pub deps : List String
  pub always_run : Bool
  pub must_complete : Bool
  pub task : Option T

abbrev pub Graph : Type 0 → Type 0
Graph T = List (Node T)

abbrev pub Index : Type 0 → Type 0
Index T = List (String × Node T)

pub data GraphError : Type 0 where
  duplicate_node : (id : String) → GraphError
  unknown_dep : (id dep : String) → GraphError
  unknown_type : (type id : String) → GraphError
  cycle_at : (ids : List String) → GraphError
  -- a nil pointer dereference, and a recursion that the fuel does not cover
  nil_node unfinished : GraphError

pub data Result {ℓ} (A : Type ℓ) : Type ℓ where
  ok : A → Result A
  err : GraphError → Result A

-- depsComplete, on the deps of a node
unfoldable pub deps_complete : List String → (String → Bool) → Bool
deps_complete [] done = true
deps_complete (dep ∷ deps) done = if not (done dep) then false else deps_complete deps done

module _ {T : Type 0} where
  -- New
  unfoldable pub new : Graph T
  new = []

  -- Add
  unfoldable pub add : Graph T → Node T → Result (Graph T)
  add g n =
      if any (λ existing. existing.id == n.id) g
      then err (duplicate_node n.id)
      else ok (g ++ n ∷ [])

  -- index: a later node with the same id replaces an earlier one
  index_from : Index T → Graph T → Index T
  index_from idx [] = idx
  index_from idx (n ∷ ns) = index_from (insert n.id n idx) ns

  unfoldable pub index : Graph T → Index T
  unfolding index_from
  index g = index_from [] g

  -- Ready
  unfoldable pub ready : Graph T → (String → Bool) → List (Node T)
  unfolding deps_complete
  ready [] done = []
  ready (n ∷ ns) done =
      let rest = ready ns done in
      if done n.id then rest else if deps_complete n.deps done then n ∷ rest else rest

  -- ReadyAlwaysRun
  unfoldable pub ready_always_run : Graph T → (String → Bool) → List (Node T)
  ready_always_run [] done = []
  ready_always_run (n ∷ ns) done =
      let rest = ready_always_run ns done in
      if done n.id || not n.always_run then rest else n ∷ rest
