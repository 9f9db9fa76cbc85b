-- ===== src/Dag/Validate/Accepts.antt =====
-- internal/core/dag/dag.go: Validate accepts exactly the graphs whose deps are known and acyclic,
-- whatever the order in which Go walks the index, and it never panics.
use hatchet_workflow.Base.{
  String, ◌≡◌, refl, List, [], ◌∷◌, Memᴰ, Memᴰ-cons, ◌⊎◌, inl, inr, ◌↔◌, Option, some, none,
  Option-cases, lookup, arith, sym, subst,
}
use hatchet_workflow.Dag.Graph.{Node, Graph, Index, index, ok, err, unknown_dep, cycle_at}
use hatchet_workflow.Dag.Graph.Lookup.{index-some, index-mem}
use hatchet_workflow.Dag.Validate.{unknown_in, unknown_dep_of, validate}
use hatchet_workflow.Dag.Validate.Edges.{
  AllGrounded, AllGrounded-Acyclic, Cyclic, Acyclic, IsClosed, Iterates,
}
use hatchet_workflow.Dag.Validate.Correct.{detect_cycle_cases}

module _ {T : Type 0} where
  -- Every dep of every node is the id of a node.
  abbrev pub AllKnown : Graph T → Type 0
  AllKnown g =
      (n : Node T) (dep : String)
      → Memᴰ n g
      → Memᴰ dep n.deps
      → (m : Node T) × Memᴰ m g × (m.id ≡ dep)

  -- A node of the list names a dep that is not in the index.
  pub record Dangling (idx : Index T) (ns : List (Node T)) (id dep : String) : Type 0 where
    pub node : Node T
    pub listed : Memᴰ node ns
    pub named : node.id ≡ id
    pub needs : Memᴰ dep node.deps
    pub missing : lookup dep idx ≡ none

  Dangling-cons :
      (idx : Index T) (n : Node T) (ns : List (Node T)) (id dep : String)
      → Dangling idx ns id dep
      → Dangling idx (n ∷ ns) id dep
  Dangling-cons idx n ns id dep d = record {
    node = d.node;
    listed = Memᴰ.tail d.listed;
    named = d.named;
    needs = d.needs;
    missing = d.missing;
  }

  unknown_in-some :
      (idx : Index T) (deps : List String) (d : String)
      → unknown_in idx deps ≡ some d
      → Memᴰ d deps × (lookup d idx ≡ none)
  unfolding unknown_in
  unknown_in-some idx [] d h = cc
  unknown_in-some idx (x ∷ deps) d h = elim (Option-cases (lookup x idx)) [
    | inl e ↦
        let same : x ≡ d = cc (rw (e, unknown_in) at h) in (Memᴰ.head (sym same), rw same at e)
    | inr (m, e) ↦
        let (later, lost) = unknown_in-some idx deps d (rw (e, unknown_in) at h) in
        (Memᴰ.tail later, lost)
  ]

  unknown_in-none :
      (idx : Index T) (deps : List String) (d : String)
      → unknown_in idx deps ≡ none
      → Memᴰ d deps
      → (m : Node T) × (lookup d idx ≡ some m)
  unfolding unknown_in
  unknown_in-none idx [] d h mem = elim mem [ ]
  unknown_in-none idx (x ∷ deps) d h mem = elim (Option-cases (lookup x idx)) [
    | inl e ↦ cc (rw (e, unknown_in) at h)
    | inr (m, e) ↦ elim ((Memᴰ-cons d x deps).0 mem) [
      | inl same ↦ (m, rw same e)
      | inr later ↦ unknown_in-none idx deps d (rw (e, unknown_in) at h) later
    ]
  ]

  unknown_dep_of-some :
      (idx : Index T) (ns : List (Node T)) (id d : String)
      → unknown_dep_of idx ns ≡ some (id, d)
      → Dangling idx ns id d
  unfolding unknown_dep_of
  unknown_dep_of-some idx [] id d h = cc
  unknown_dep_of-some idx (n ∷ ns) id d h = elim (Option-cases (unknown_in idx n.deps)) [
    | inl e ↦
        Dangling-cons idx n ns id d (unknown_dep_of-some idx ns id d (rw (e, unknown_dep_of) at h))
    | inr (x, e) ↦
        let pair : ◌≡◌ {A = Option (String × String)} (some (n.id, x)) (some (id, d)) =
          rw (e, unknown_dep_of) at h in
        let same : x ≡ d = ground arith in
        let (needs, missing) = unknown_in-some idx n.deps x e in
        record {
          node = n;
          listed = Memᴰ.head refl;
          named = ground arith;
          needs = rw same at needs;
          missing = rw same at missing;
        }
  ]

  unknown_dep_of-none :
      (idx : Index T) (ns : List (Node T)) (n : Node T) (d : String)
      → unknown_dep_of idx ns ≡ none
      → Memᴰ n ns
      → Memᴰ d n.deps
      → (m : Node T) × (lookup d idx ≡ some m)
  unfolding unknown_dep_of
  unknown_dep_of-none idx [] n d h mem dep = elim mem [ ]
  unknown_dep_of-none idx (x ∷ ns) n d h mem dep = elim (Option-cases (unknown_in idx x.deps)) [
    | inr (y, e) ↦ cc (rw (e, unknown_dep_of) at h)
    | inl e ↦ elim ((Memᴰ-cons n x ns).0 mem) [
      | inl same ↦ unknown_in-none idx x.deps d e (subst (λ m. Memᴰ d m.deps) same dep)
      | inr later ↦ unknown_dep_of-none idx ns n d (rw (e, unknown_dep_of) at h) later dep
    ]
  ]

  -- The deps of all nodes are in the index, or the first one that is not is reported.
  unknown_dep_of-cases :
      (g : Graph T)
      → (unknown_dep_of (index g) g ≡ none) × AllKnown g
        ⊎ ((id : String) × (d : String) × (unknown_dep_of (index g) g ≡ some (id, d))
            × (¬ AllKnown g))
  unknown_dep_of-cases g = elim (Option-cases (unknown_dep_of (index g) g)) [
    | inl e ↦ inl (
      e,
      λ n d mem dep.
          let (m, found) = unknown_dep_of-none (index g) g n d e mem dep in
          let (there, named) = index-some g d m found in (m, there, named),
    )
    | inr ((id, d), e) ↦
        let bad = unknown_dep_of-some (index g) g id d e in
        inr (id, d, e, λ known. unindexed d bad.missing (known bad.node d bad.listed bad.needs))
  ]
    where
      unindexed :
          (d : String) → lookup d (index g) ≡ none → ¬ ((m : Node T) × Memᴰ m g × (m.id ≡ d))
      unindexed d lost (m, mem, named) =
          let (k, found) = index-mem g m mem in
          let here : lookup d (index g) ≡ some k =
            subst (λ z. lookup z (index g) ≡ some k) named found in
          cc

  IsClosed_of_AllKnown : (g : Graph T) → AllKnown g → IsClosed (index g)
  IsClosed_of_AllKnown g known id d edge =
      let (mem, _) = index-some g id edge.node edge.found in
      let (m, there, named) = known edge.node d mem edge.listed in
      let (k, found) = index-mem g m there in
      (k, subst (λ z. lookup z (index g) ≡ some k) named found)

  -- The three outcomes of Validate, and what each says of the graph.
  pub data Outcome (g : Graph T) (order : List String) : Type 0 where
    accepted : validate g order ≡ ok tt → AllKnown g → AllGrounded (index g) → Outcome g order
    dangling :
        (id d : String) → validate g order ≡ err (unknown_dep id d) → ¬ AllKnown g → Outcome g order
    cyclic :
        (ids : List String)
        → validate g order ≡ err (cycle_at ids)
        → AllKnown g
        → Cyclic (index g)
        → Outcome g order

  -- Validate has three outcomes, for every graph and every order of the keys of its index: it
  -- accepts and all deps are known and every chain of dependencies ends; it reports an unknown dep and
  -- some dep is unknown; it reports a cycle and some node depends on itself. So it never
  -- dereferences a missing node, and its recursion ends.
  pub validate-Outcome :
      (g : Graph T) (order : List String) → Iterates (index g) order → Outcome g order
  unfolding validate
  validate-Outcome g order it = elim (unknown_dep_of-cases g) [
    | inr (id, d, e, lost) ↦ dangling id d (rw (e, validate)) lost
    | inl (e, known) ↦ elim (detect_cycle_cases (index g) (IsClosed_of_AllKnown g known) order it) [
      | inl (fine, all) ↦ accepted (rw (e, validate) fine) known all
      | inr (ids, found, bad) ↦ cyclic ids (rw (e, validate) found) known bad
    ]
  ]

  -- Validate accepts a graph exactly when every dep is the id of a node and no node depends on
  -- itself at any distance, whatever the order in which the keys of the index are walked.
  pub validate-ok_iff :
      (g : Graph T) (order : List String)
      → Iterates (index g) order
      → (validate g order ≡ ok tt) ↔ (AllKnown g × Acyclic (index g))
  validate-ok_iff g order it = elim (validate-Outcome g order it) [
    | accepted e known all ↦ (λ _. (known, AllGrounded-Acyclic (index g) all), λ _. e)
    | dangling id d e lost ↦ (λ h. cc, λ h. absurd (lost h.0))
    | cyclic ids e known bad ↦ (λ h. cc, λ h. absurd (h.1 bad.0 bad.1))
  ]

  -- What an accepted graph gives the executor.
  pub validate-grounded :
      (g : Graph T) (order : List String)
      → Iterates (index g) order
      → validate g order ≡ ok tt
      → AllKnown g × AllGrounded (index g)
  validate-grounded g order it h = elim (validate-Outcome g order it) [
    | accepted e known all ↦ (known, all)
    | dangling id d e lost ↦ cc
    | cyclic ids e known bad ↦ cc
  ]
