-- ===== src/Dag/Executor/Ready.antt =====
-- internal/core/dag/dag.go: Ready and ReadyAlwaysRun, and why an accepted graph never gets stuck.
use hatchet_workflow.Base.{
  String, Bool, true, false, not, ◌||◌, ◌≡◌, refl, sym, ◌∙◌, ap, subst, List, [], ◌∷◌, Memᴰ,
  Memᴰ-cons, inl, inr, ⊎_elim, ◌↔◌, arith, Bool-cases,
}
use hatchet_workflow.Dag.Graph.{Node, Graph, index, deps_complete, ready, ready_always_run}
use hatchet_workflow.Dag.Graph.Lookup.{index-some, index-mem}
use hatchet_workflow.Dag.Graph.Unique.{HasUniqueIds, HasUniqueIds-eq}
use hatchet_workflow.Dag.Validate.Edges.{Edge, Grounded, grounded, AllGrounded}

deps_complete_iff :
    (deps : List String) (done : String → Bool)
    → (deps_complete deps done ≡ true) ↔ ((d : String) → Memᴰ d deps → done d ≡ true)
unfolding deps_complete
deps_complete_iff [] done = (λ _ d m. elim m [ ], λ _. refl)
deps_complete_iff (x ∷ deps) done = elim (Bool-cases (done x)) [
  | inl e ↦
      rw (e, deps_complete)
        (
          λ h d m.
              ⊎_elim (λ same. rw same e) ((deps_complete_iff deps done).0 h d)
                ((Memᴰ-cons d x deps).0 m),
          λ all. (deps_complete_iff deps done).1 (λ d m. all d (Memᴰ.tail m)),
        )
  | inr e ↦ rw (e, deps_complete) (λ h. cc, λ all. absurd_of x (all x (Memᴰ.head refl)) e)
]
  where
    absurd_of : (y : String) → done y ≡ true → done y ≡ false → false ≡ true
    absurd_of y p q = cc

module _ {T : Type 0} where
  -- What Ready asks of a node.
  pub record IsReady (done : String → Bool) (n : Node T) : Type 0 where
    pub waiting : done n.id ≡ false
    pub deps_done : (d : String) → Memᴰ d n.deps → done d ≡ true

  -- Ready returns exactly the nodes of the graph that are not done and whose deps all are.
  pub ready_iff :
      (g : Graph T) (done : String → Bool) (n : Node T)
      → Memᴰ n (ready g done) ↔ (Memᴰ n g × IsReady done n)
  unfolding ready
  ready_iff [] done n = (λ m. elim m [ ], λ p. elim (p.0) [ ])
  ready_iff (x ∷ g) done n =
      let ih = ready_iff g done n in
      let cons = Memᴰ-cons n x in
      elim (Bool-cases (done x.id)) [
        | inl old ↦
            rw (old, ready)
              (
                λ m. (Memᴰ.tail (ih.0 m).0, (ih.0 m).1),
                λ (m, r).
                    ⊎_elim (λ e. absurd (not_waiting (ap (λ z. done z.id) e ∙ old) r))
                      (λ later. ih.1 (later, r)) ((cons g).0 m),
              )
        | inr new ↦ elim (Bool-cases (deps_complete x.deps done)) [
          | inl all ↦
              rw (new, ready)
                (rw (all, ready)
                  (
                    λ m.
                        ⊎_elim (λ e. (Memᴰ.head e, rw e (now_ready new all)))
                          (λ later. (Memᴰ.tail (ih.0 later).0, (ih.0 later).1))
                          ((cons (ready g done)).0 m),
                    λ (m, r).
                        ⊎_elim Memᴰ.head (λ later. Memᴰ.tail (ih.1 (later, r))) ((cons g).0 m),
                  ))
          | inr some_left ↦
              rw (new, ready)
                (rw (some_left, ready)
                  (
                    λ m. (Memᴰ.tail (ih.0 m).0, (ih.0 m).1),
                    λ (m, r).
                        ⊎_elim (λ e. absurd (not_complete some_left (subst (IsReady done) e r)))
                          (λ later. ih.1 (later, r)) ((cons g).0 m),
                  ))
        ]
      ]
    where
      not_waiting : done n.id ≡ true → ¬ IsReady done n
      not_waiting e r = ground (arith, r.waiting)

      now_ready : done x.id ≡ false → deps_complete x.deps done ≡ true → IsReady done x
      now_ready new all = record {
        waiting = new;
        deps_done = (deps_complete_iff x.deps done).0 all;
      }

      not_complete : deps_complete x.deps done ≡ false → ¬ IsReady done x
      not_complete e r = ground (arith, (deps_complete_iff x.deps done).1 r.deps_done)

  -- ReadyAlwaysRun returns exactly the AlwaysRun nodes that are not done, whatever their deps.
  pub ready_always_run_iff :
      (g : Graph T) (done : String → Bool) (n : Node T)
      → Memᴰ n (ready_always_run g done) ↔ (Memᴰ n g × (done n.id ≡ false) × (n.always_run ≡ true))
  unfolding ready_always_run
  ready_always_run_iff [] done n = (λ m. elim m [ ], λ p. elim (p.0) [ ])
  ready_always_run_iff (x ∷ g) done n =
      let ih = ready_always_run_iff g done n in
      let cons = Memᴰ-cons n x in
      elim (Bool-cases (done x.id || not x.always_run)) [
        | inl skip ↦
            rw (skip, ready_always_run)
              (
                λ m. let (there, fresh, always) = ih.0 m in (Memᴰ.tail there, fresh, always),
                λ (m, fresh, always).
                    ⊎_elim (λ e. absurd (skipped e skip fresh always))
                      (λ later. ih.1 (later, fresh, always)) ((cons g).0 m),
              )
        | inr take ↦
            rw (take, ready_always_run)
              (
                λ m.
                    ⊎_elim (λ e. let (fresh, always) = taken e take in (Memᴰ.head e, fresh, always))
                      (λ later.
                        let (there, fresh, always) = ih.0 later in (Memᴰ.tail there, fresh, always))
                      ((cons (ready_always_run g done)).0 m),
                λ (m, fresh, always).
                    ⊎_elim Memᴰ.head (λ later. Memᴰ.tail (ih.1 (later, fresh, always)))
                      ((cons g).0 m),
              )
      ]
    where
      skipped :
          n ≡ x
          → (done x.id || not x.always_run) ≡ true
          → done n.id ≡ false
          → n.always_run ≡ true
          → ⊥
      skipped e skip fresh always =
          let old : done x.id ≡ false = subst (λ z. done z.id ≡ false) e fresh in
          let on : x.always_run ≡ true = subst (λ z. z.always_run ≡ true) e always in ground arith

      taken :
          n ≡ x
          → (done x.id || not x.always_run) ≡ false
          → (done n.id ≡ false) × (n.always_run ≡ true)
      taken e take =
          let new : (done x.id ≡ false) × (x.always_run ≡ true) = ground arith in
          (
            subst (λ z. done z.id ≡ false) (sym e) new.0,
            subst (λ z. z.always_run ≡ true) (sym e) new.1,
          )

  module _ (g : Graph T) (done : String → Bool) (unique : HasUniqueIds g) where
    Edge-of : (m : Node T) (d : String) → Memᴰ m g → Memᴰ d m.deps → Edge (index g) m.id d
    Edge-of m d h dep =
        let (k, e) = index-mem g m h in
        let (k_mem, k_id) = index-some g m.id k e in
        record {
          node = k;
          found = e;
          listed = subst (λ z. Memᴰ d z.deps) (HasUniqueIds-eq g m k unique h k_mem (sym k_id)) dep;
        }

    blocked :
        ready g done ≡ []
        → (m : Node T) → Memᴰ m g
        → ((d : String) → Memᴰ d m.deps → done d ≡ true)
        → done m.id ≡ true
    blocked idle m h deps = elim (Bool-cases (done m.id)) [
      | inl e ↦ e
      | inr e ↦
          let here : Memᴰ m [] =
            subst (Memᴰ m) idle
              ((ready_iff g done m).1 (h, record { waiting = e; deps_done = deps })) in
          elim here [ ]
    ]

    descend :
        ((n : Node T) (d : String)
          → Memᴰ n g
          → Memᴰ d n.deps
          → (m : Node T) × Memᴰ m g × (m.id ≡ d))
        → ready g done ≡ []
        → {id : String} → Grounded (index g) id
        → (n : Node T) → Memᴰ n g
        → n.id ≡ id
        → done n.id ≡ true
    descend known idle (grounded below) n mem named = blocked idle n mem λ d dep.
        let (m, m_mem, m_id) = known n d mem dep in
        let edge = subst (λ z. Edge (index g) z d) named (Edge-of n d mem dep) in
        subst (λ z. done z ≡ true) m_id (descend known idle (below d edge) m m_mem m_id)

    -- In a graph with distinct ids, whose deps are all known and whose chains of dependencies end,
    -- Ready returns nothing only when every node is done: the executor never gets stuck.
    pub ready-nil :
        ((n : Node T) (d : String)
          → Memᴰ n g
          → Memᴰ d n.deps
          → (m : Node T) × Memᴰ m g × (m.id ≡ d))
        → AllGrounded (index g)
        → ready g done ≡ []
        → (n : Node T) → Memᴰ n g
        → done n.id ≡ true
    ready-nil known all idle n mem =
        let (k, e) = index-mem g n mem in descend known idle (all n.id k e) n mem refl
