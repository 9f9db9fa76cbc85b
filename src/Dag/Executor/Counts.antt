-- ===== src/Dag/Executor/Counts.antt =====
-- internal/core/dag/executor.go: the number of nodes that Run compares with the size of the graph.
use hatchet_workflow.Base.{
  suc, ◌≤◌, String, false, not, ◌≡◌, ◌≢◌, refl, sym, ◌∙◌, ap, subst, List, [], ◌∷◌, Memᴰ, Memᴰ-cons,
  ◌⊎◌, inl, inr, some, lookup, arith, Bool-cases, keep, length, ◌==◌, eq_iff, eq_false,
  String-cases,
}
use hatchet_workflow.Dag.Graph.{Node, Graph}
use hatchet_workflow.Dag.Graph.Unique.{HasUniqueIds, IsFresh}
use hatchet_workflow.Dag.Executor.{Status, done, count_done}
use hatchet_workflow.Dag.Executor.Rounds.{Named, Named-tail}

module _ {T : Type 0} where
  -- The nodes with another id.
  abbrev others : String → Graph T → Graph T
  others id g = keep (λ n. not (n.id == id)) g

  length-others_fresh : (id : String) (g : Graph T) → IsFresh id g → length (others id g) ≡ length g
  length-others_fresh id [] f = refl
  length-others_fresh id (x ∷ g) f =
      rw (eq_false x.id id f.0) (ap suc (length-others_fresh id g f.1))

  -- At most one node has the id.
  length-others :
      (id : String) (g : Graph T)
      → HasUniqueIds g
      → (length (others id g) ≡ length g) ⊎ Named id g × (length g ≡ suc (length (others id g)))
  length-others id [] u = inl refl
  length-others id (x ∷ g) u = elim (String-cases x.id id) [
    | inl e ↦ inr (
      record { node = x; listed = Memᴰ.head refl; named = e },
      rw ((eq_iff x.id id).1 e)
          (ap suc (sym (length-others_fresh id g (subst (λ z. IsFresh z g) e u.0)))),
    )
    | inr ne ↦ rw (eq_false x.id id ne) (elim (length-others id g u.1) [
      | inl same ↦ inl (ap suc same)
      | inr (named, less) ↦ inr (Named-tail named, ap suc less)
    ])
  ]

  IsFresh-others : (id x : String) (g : Graph T) → IsFresh x g → IsFresh x (others id g)
  IsFresh-others id x [] f = tt
  IsFresh-others id x (n ∷ g) f = elim (Bool-cases (n.id == id)) [
    | inl e ↦ rw e (IsFresh-others id x g f.1)
    | inr e ↦ rw e (f.0, IsFresh-others id x g f.1)
  ]

  HasUniqueIds-others : (id : String) (g : Graph T) → HasUniqueIds g → HasUniqueIds (others id g)
  HasUniqueIds-others id [] u = tt
  HasUniqueIds-others id (n ∷ g) u = elim (Bool-cases (n.id == id)) [
    | inl e ↦ rw e (HasUniqueIds-others id g u.1)
    | inr e ↦ rw e (IsFresh-others id n.id g u.0, HasUniqueIds-others id g u.1)
  ]

  mem-others :
      (id : String) (g : Graph T) (n : Node T) → Memᴰ n (others id g) → Memᴰ n g × (n.id ≢ id)
  mem-others id [] n m = elim m [ ]
  mem-others id (x ∷ g) n m = elim (Bool-cases (x.id == id)) [
    | inl e ↦ let (there, ne) = mem-others id g n (rw e at m) in (Memᴰ.tail there, ne)
    | inr e ↦ elim ((Memᴰ-cons n x (others id g)).0 (rw e at m)) [
      | inl same ↦ (Memᴰ.head same, λ p. differs (ap (λ z. z.id) (sym same) ∙ p) e)
      | inr later ↦ let (there, ne) = mem-others id g n later in (Memᴰ.tail there, ne)
    ]
  ]
    where
      differs : x.id ≡ id → ¬ ((x.id == id) ≡ false)
      differs p e = let yes_ = (eq_iff x.id id).1 p in cc

  -- Where every node is done, the done entries are at least as many as the nodes.
  pub length-le-count_done :
      (m : List (String × Status)) (g : Graph T)
      → HasUniqueIds g
      → ((n : Node T) → Memᴰ n g → lookup n.id m ≡ some done)
      → length g ≤ count_done m
  unfolding count_done lookup
  length-le-count_done [] [] u h = omega arith
  length-le-count_done [] (n ∷ g) u h = cc (h n (Memᴰ.head refl))
  length-le-count_done ((id, s) ∷ m) g u h =
      let rest = length-le-count_done m (others id g) (HasUniqueIds-others id g u) λ n mem.
        let (there, ne) = mem-others id g n mem in
        rw (eq_false id n.id (λ e. ne (sym e)), lookup) at (h n there) in
      elim (length-others id g u) [
        | inl same ↦ ground (arith, rest, same)
        | inr (named, more) ↦
            let now : s ≡ done = cc (
              rw ((eq_iff id named.node.id).1 (sym named.named), lookup) at
                (h named.node named.listed)) in
            ground (arith, rest, more, now)
      ]
