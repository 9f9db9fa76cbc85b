-- ===== src/Dag/Graph/Unique.antt =====
-- internal/core/dag/dag.go: Add keeps the ids of a graph apart.
use hatchet_workflow.Base.{
  String, ◌≡◌, ◌≢◌, sym, ◌∙◌, [], ◌∷◌, ◌++◌, Memᴰ, Memᴰ-cons, ◌⊎◌, inl, inr, arith, any, ◌==◌,
  eq_iff, Bool-cases, true, false, ap,
}
use hatchet_workflow.Dag.Graph.{Node, Graph, add, ok, err, duplicate_node}

module _ {T : Type 0} where
  -- No node of the list has the id.
  abbrev pub IsFresh : String → Graph T → Type 0
  IsFresh id [] = Unit
  IsFresh id (n ∷ ns) = (n.id ≢ id) × IsFresh id ns

  -- The ids of the nodes differ.
  abbrev pub HasUniqueIds : Graph T → Type 0
  HasUniqueIds [] = Unit
  HasUniqueIds (n ∷ ns) = IsFresh n.id ns × HasUniqueIds ns

  pub IsFresh-mem : (id : String) (g : Graph T) (m : Node T) → IsFresh id g → Memᴰ m g → m.id ≢ id
  IsFresh-mem id [] m f h = elim h [ ]
  IsFresh-mem id (n ∷ ns) m f h = elim ((Memᴰ-cons m n ns).0 h) [
    | inl same ↦ λ e. f.0 (ap (λ x. x.id) (sym same) ∙ e)
    | inr later ↦ IsFresh-mem id ns m f.1 later
  ]

  -- Nodes with the same id are the same node.
  pub HasUniqueIds-eq :
      (g : Graph T) (n m : Node T) → HasUniqueIds g → Memᴰ n g → Memᴰ m g → n.id ≡ m.id → n ≡ m
  HasUniqueIds-eq [] n m u hn hm e = elim hn [ ]
  HasUniqueIds-eq (x ∷ g) n m u hn hm e = elim ((Memᴰ-cons n x g).0 hn) [
    | inl n_x ↦ elim ((Memᴰ-cons m x g).0 hm) [
      | inl m_x ↦ n_x ∙ sym m_x
      | inr m_g ↦ absurd (IsFresh-mem x.id g m u.0 m_g (sym e ∙ ap (λ z. z.id) n_x))
    ]
    | inr n_g ↦ elim ((Memᴰ-cons m x g).0 hm) [
      | inl m_x ↦ absurd (IsFresh-mem x.id g n u.0 n_g (e ∙ ap (λ z. z.id) m_x))
      | inr m_g ↦ HasUniqueIds-eq g n m u.1 n_g m_g e
    ]
  ]

  IsFresh-of_any : (id : String) (g : Graph T) → any (λ x. x.id == id) g ≡ false → IsFresh id g
  IsFresh-of_any id [] h = tt
  IsFresh-of_any id (n ∷ ns) h =
      (ground (arith, eq_iff n.id id), IsFresh-of_any id ns (ground arith))

  IsFresh-sym :
      (id : String) (n : Node T) (g : Graph T) → n.id ≢ id → IsFresh id g → IsFresh id (g ++ n ∷ [])
  IsFresh-sym id n [] ne f = (ne, tt)
  IsFresh-sym id n (x ∷ g) ne f = (f.0, IsFresh-sym id n g ne f.1)

  HasUniqueIds-snoc :
      (n : Node T) (g : Graph T) → HasUniqueIds g → IsFresh n.id g → HasUniqueIds (g ++ n ∷ [])
  HasUniqueIds-snoc n [] u f = (tt, tt)
  HasUniqueIds-snoc n (x ∷ g) u f =
      (IsFresh-sym x.id n g (λ e. f.0 (sym e)) u.0, HasUniqueIds-snoc n g u.1 f.1)

  -- Add either appends the node, and a graph with distinct ids keeps distinct ids, or reports its
  -- id as a duplicate, and then the id is not fresh.
  pub add-HasUniqueIds :
      (g : Graph T) (n : Node T)
      → HasUniqueIds g
      → (add g n ≡ ok (g ++ n ∷ [])) × HasUniqueIds (g ++ n ∷ [])
        ⊎ (add g n ≡ err (duplicate_node n.id)) × (¬ IsFresh n.id g)
  unfolding add
  add-HasUniqueIds g n u = elim (Bool-cases (any (λ x. x.id == n.id) g)) [
    | inl dup ↦ inr (rw dup, λ f. stale g dup f)
    | inr new ↦ inl (rw new, HasUniqueIds-snoc n g u (IsFresh-of_any n.id g new))
  ]
    where
      stale : (ns : Graph T) → any (λ x. x.id == n.id) ns ≡ true → ¬ IsFresh n.id ns
      stale [] h f = cc
      stale (x ∷ ns) h f = elim (Bool-cases (x.id == n.id)) [
        | inl e ↦ f.0 ((eq_iff x.id n.id).0 e)
        | inr e ↦ stale ns (rw e at h) f.1
      ]
