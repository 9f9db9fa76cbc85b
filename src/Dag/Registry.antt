-- ===== src/Dag/Registry.antt =====
-- internal/core/dag/dag.go: Registry, and the part of Unmarshal that follows the JSON decoder. A
-- factory is the task that it produces, and the decoder is not modelled: `restore` and `unmarshal`
-- start from the graph that it gives.
use hatchet_workflow.Base.{String, List, [], ◌∷◌, none, some, lookup, insert}
use hatchet_workflow.Dag.Graph.{Graph, Result, ok, err, unknown_type}
use hatchet_workflow.Dag.Validate.{validate}

-- Register: a later factory for the same type replaces the earlier one.
unfoldable pub register : {T : Type 0} → List (String × T) → String → T → List (String × T)
register r node_type task = insert node_type task r

-- The loop of Unmarshal over the nodes.
unfoldable pub restore : {T : Type 0} → List (String × T) → Graph T → Result (Graph T)
restore r [] = ok []
restore r (n ∷ ns) = elim (lookup n.type r) [
  | none ↦ err (unknown_type n.type n.id)
  | some task ↦ elim (restore r ns) [
    | ok ms ↦ ok (record n { task = some task } ∷ ms)
    | err e ↦ err e
  ]
]

-- Unmarshal, after a successful decode; `order` is the order in which the index is walked.
unfoldable pub unmarshal :
    {T : Type 0} → List (String × T) → Graph T → List String → Result (Graph T)
unfolding restore
unmarshal r g order = elim (restore r g) [
  | err e ↦ err e
  | ok g' ↦ elim (validate g' order) [ ok _ ↦ ok g' | err e ↦ err e ]
]

-- MarshalJSON validates first; `encode` is the JSON encoder of the plain struct.
unfoldable pub marshal_json : {T J : Type 0} → (Graph T → J) → Graph T → List String → Result J
marshal_json encode g order = elim (validate g order) [ ok _ ↦ ok (encode g) | err e ↦ err e ]
