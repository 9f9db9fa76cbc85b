-- ===== src/Dag/Graph/Lookup.antt =====
-- internal/core/dag/dag.go: what the index of a graph holds.
use hatchet_workflow.Base.{
  String, ◌≡◌, refl, sym, [], ◌∷◌, Memᴰ, Memᴰ-cons, ◌⊎◌, inl, inr, ⊎_elim, some, lookup, insert,
  lookup-insert, eq_refl, eq_false, String-cases, map, ap, subst,
}
use hatchet_workflow.Dag.Graph.{Node, Graph, Index, index, index_from}

module _ {T : Type 0} where
  lookup-insert_cases :
      (id : String) (n m : Node T) (idx : Index T)
      → lookup id (insert n.id n idx) ≡ some m
      → (m ≡ n) × (m.id ≡ id) ⊎ (lookup id idx ≡ some m)
  lookup-insert_cases id n m idx h = elim (String-cases n.id id) [
    | inl e ↦ let same : m ≡ n = cc (rw (lookup-insert, e, eq_refl) at h) in inl (same, rw same e)
    | inr ne ↦ inr (rw (lookup-insert, eq_false n.id id ne) at h)
  ]

  index_from-some :
      (ns : Graph T) (idx : Index T) (id : String) (m : Node T)
      → lookup id (index_from idx ns) ≡ some m
      → Memᴰ m ns × (m.id ≡ id) ⊎ (lookup id idx ≡ some m)
  unfolding index_from
  index_from-some [] idx id m h = inr h
  index_from-some (n ∷ ns) idx id m h = elim (index_from-some ns (insert n.id n idx) id m h) [
    | inl (later, named) ↦ inl (Memᴰ.tail later, named)
    | inr now ↦
        ⊎_elim (λ (same, named). inl (Memᴰ.head same, named)) inr
          (lookup-insert_cases id n m idx now)
  ]

  -- Once a key is there, adding nodes keeps it there.
  index_from_keeps :
      (ns : Graph T) (idx : Index T) (id : String) (n : Node T)
      → lookup id idx ≡ some n
      → (m : Node T) × (lookup id (index_from idx ns) ≡ some m)
  unfolding index_from
  index_from_keeps [] idx id n h = (n, h)
  index_from_keeps (x ∷ ns) idx id n h = elim (String-cases x.id id) [
    | inl e ↦ index_from_keeps ns (insert x.id x idx) id x (rw (lookup-insert, e, eq_refl))
    | inr ne ↦
        index_from_keeps ns (insert x.id x idx) id n (rw (lookup-insert, eq_false x.id id ne) h)
  ]

  index_from-mem :
      (ns : Graph T) (idx : Index T) (n : Node T)
      → Memᴰ n ns
      → (m : Node T) × (lookup n.id (index_from idx ns) ≡ some m)
  unfolding index_from
  index_from-mem [] idx n h = elim h [ ]
  index_from-mem (x ∷ ns) idx n h = elim ((Memᴰ-cons n x ns).0 h) [
    | inl e ↦ index_from_keeps ns (insert x.id x idx) n.id x (rw (lookup-insert, e, eq_refl))
    | inr later ↦ index_from-mem ns (insert x.id x idx) n later
  ]

  pub index-some :
      (g : Graph T) (id : String) (m : Node T)
      → lookup id (index g) ≡ some m
      → Memᴰ m g × (m.id ≡ id)
  unfolding index lookup
  index-some g id m h = ⊎_elim (λ p. p) (λ e. cc) (index_from-some g [] id m h)

  pub index-mem :
      (g : Graph T) (n : Node T) → Memᴰ n g → (m : Node T) × (lookup n.id (index g) ≡ some m)
  unfolding index
  index-mem g n h = index_from-mem g [] n h

  mem-ids :
      (g : Graph T) (id : String)
      → Memᴰ id (map (λ (n : Node T). n.id) g)
      → (n : Node T) × Memᴰ n g × (n.id ≡ id)
  mem-ids [] id m = elim m [ ]
  mem-ids (x ∷ g) id m = elim ((Memᴰ-cons id x.id (map (λ n. n.id) g)).0 m) [
    | inl e ↦ (x, Memᴰ.head refl, sym e)
    | inr later ↦ let (n, mem, e) = mem-ids g id later in (n, Memᴰ.tail mem, e)
  ]

  ids-mem : (g : Graph T) (n : Node T) → Memᴰ n g → Memᴰ n.id (map (λ (m : Node T). m.id) g)
  ids-mem [] n m = elim m [ ]
  ids-mem (x ∷ g) n m = elim ((Memᴰ-cons n x g).0 m) [
    | inl e ↦ Memᴰ.head (ap (λ z. z.id) e)
    | inr later ↦ Memᴰ.tail (ids-mem g n later)
  ]

  -- The ids of the nodes are the keys of the index.
  pub index-keys :
      (g : Graph T) (id : String)
      → (Memᴰ id (map (λ (n : Node T). n.id) g) → (n : Node T) × (lookup id (index g) ≡ some n))
        × ((n : Node T) → lookup id (index g) ≡ some n → Memᴰ id (map (λ (n : Node T). n.id) g))
  index-keys g id = (
    λ m.
        let (n, mem, e) = mem-ids g id m in
        subst (λ z. (k : Node T) × (lookup z (index g) ≡ some k)) e (index-mem g n mem),
    λ n found.
        let (mem, e) = index-some g id n found in
        subst (λ z. Memᴰ z (map (λ (m : Node T). m.id) g)) e (ids-mem g n mem),
  )
