-- ===== src/Dag/Executor/Blame.antt =====
-- internal/core/dag/executor.go: the errors that markFailed keeps, and the nodes that they name.
use hatchet_workflow.Base.{
  String, ◌≡◌, refl, sym, ◌∙◌, ap, subst, List, [], ◌∷◌, ◌++◌, Memᴰ, Memᴰ-cons, ◌⊎◌, inl, inr, some,
  lookup,
}
use hatchet_workflow.Dag.Graph.{Node}
use hatchet_workflow.Dag.Graph.Unique.{HasUniqueIds, HasUniqueIds-eq}
use hatchet_workflow.Dag.Executor.Retry.{
  Ending, Message, attempts_made, succeeded, gave_up, interrupted,
}
use hatchet_workflow.Dag.Executor.{
  new_executor, Status, failed, Executor, Config, World, Stage, ending, settle, settle_all,
}
use hatchet_workflow.Dag.Executor.Rounds.{IsFair, ended, Named, EndedBy, save-errs}

mem_snoc : {A : Type 0} (a y : A) (xs : List A) → Memᴰ a (xs ++ y ∷ []) → Memᴰ a xs ⊎ (a ≡ y)
mem_snoc a y [] m = elim ((Memᴰ-cons a y []).0 m) [ inl e ↦ inr e | inr none_left ↦ inl none_left ]
mem_snoc a y (x ∷ xs) m = elim ((Memᴰ-cons a x (xs ++ y ∷ [])).0 m) [
  | inl e ↦ inl (Memᴰ.head e)
  | inr later ↦ elim (mem_snoc a y xs later) [ inl old ↦ inl (Memᴰ.tail old) | inr e ↦ inr e ]
]

module _ {T : Type 0} (cfg : Config T) (w : World T) where
  -- Each error is that of a node of the graph that has failed.
  pub record Blames (e : Executor) : Type 0 where
    pub blamed :
        (j : String) (m : Message)
        → Memᴰ (j, m) e.errs
        → Named j cfg.graph × (lookup j e.node_status ≡ some failed)

  -- A node of the list fails in this stage.
  pub record Fails (s : Stage) (j : String) (ns : List (Node T)) : Type 0 where
    pub by : Named j ns
    pub fails : ended (ending cfg w s by.node) ≡ failed

  settle-errs_from :
      (e : Executor) (id : String) (x : Ending) (j : String) (m : Message)
      → Memᴰ (j, m) (settle cfg w e id x).errs
      → Memᴰ (j, m) e.errs ⊎ (j ≡ id) × (ended x ≡ failed)
  unfolding settle
  settle-errs_from e id succeeded j m h = inl (subst (Memᴰ (j, m)) (save-errs cfg _) h)
  settle-errs_from e id (gave_up last) j m h =
      elim (mem_snoc (j, m) (id, Message.after_attempts (attempts_made cfg.retry) last) e.errs h) [
        | inl old ↦ inl old
        | inr same ↦ inr (ap (λ p. p.0) same, refl)
      ]
  settle-errs_from e id interrupted j m h = inl h

  -- An error that a round adds is that of a node of the round that fails in it.
  settle_all-errs_from :
      (s : Stage) (e : Executor) (ns : List (Node T)) (j : String) (m : Message)
      → Memᴰ (j, m) (settle_all cfg w s e ns).errs
      → Memᴰ (j, m) e.errs ⊎ Fails s j ns
  unfolding settle_all
  settle_all-errs_from s e [] j m h = inl h
  settle_all-errs_from s e (n ∷ ns) j m h =
      elim (settle_all-errs_from s (settle cfg w e n.id (ending cfg w s n)) ns j m h) [
        | inr f ↦ inr (record {
          by = record { node = f.by.node; listed = Memᴰ.tail f.by.listed; named = f.by.named };
          fails = f.fails;
        })
        | inl before ↦ elim (settle-errs_from e n.id (ending cfg w s n) j m before) [
          | inl old ↦ inl old
          | inr (same, bad) ↦ inr (record {
            by = record { node = n; listed = Memᴰ.head refl; named = sym same };
            fails = bad;
          })
        ]
      ]

  -- Where the batch is part of a graph with distinct ids, the node that failed is left failed.
  left_failed :
      (s : Stage) (b : List (Node T)) (m : List (String × Status)) (j : String)
      → HasUniqueIds cfg.graph
      → ((n : Node T) → Memᴰ n b → Memᴰ n cfg.graph)
      → Fails s j b
      → EndedBy cfg w s j b m
      → Named j cfg.graph × (lookup j m ≡ some failed)
  left_failed s b m j unique part f h =
      let one =
        HasUniqueIds-eq cfg.graph h.by.node f.by.node unique (part h.by.node h.by.listed)
          (part f.by.node f.by.listed) (h.by.named ∙ sym f.by.named) in
      (
        record { node = f.by.node; listed = part f.by.node f.by.listed; named = f.by.named },
        h.left ∙ ap (λ z. some (ended (ending cfg w s z))) one ∙ ap some f.fails,
      )

  Fails-finish :
      (fair : IsFair w) (s : Stage) (b : List (Node T)) (j : String)
      → Fails s j (w.finish s b)
      → Fails s j b
  Fails-finish fair s b j f = record {
    by = record {
      node = f.by.node;
      listed = (fair.finishes s b f.by.node).0 f.by.listed;
      named = f.by.named;
    };
    fails = f.fails;
  }

  -- What a round makes of the errors: `kept` is what it does with the nodes that had failed before, and
  -- `cases` what it does with the status of each node.
  pub Blames-batch :
      (fair : IsFair w) (unique : HasUniqueIds cfg.graph) (s : Stage) (e e1 r : Executor)
      (b : List (Node T))
      → ((n : Node T) → Memᴰ n b → Memᴰ n cfg.graph)
      → e1.errs ≡ e.errs
      → r.errs ≡ (settle_all cfg w s e1 (w.finish s b)).errs
      → ((id : String)
          → (lookup id r.node_status ≡ lookup id e.node_status) × (¬ Named id b)
            ⊎ EndedBy cfg w s id b r.node_status)
      → ((id : String)
          → lookup id e.node_status ≡ some failed
          → lookup id r.node_status ≡ some failed)
      → Blames e
      → Blames r
  unfolding Fails-finish
  Blames-batch fair unique s e e1 r b part same_errs errs cases kept h = record {
    blamed = λ j m mem.
        elim (settle_all-errs_from s e1 (w.finish s b) j m (subst (Memᴰ (j, m)) errs mem)) [
          | inl old ↦
              let (named, bad) = h.blamed j m (subst (Memᴰ (j, m)) same_errs old) in
              (named, kept j bad)
          | inr f ↦
              let f' = Fails-finish fair s b j f in
              elim (cases j) [
                | inl (_, absent) ↦ absurd (absent f'.by)
                | inr left ↦ left_failed s b r.node_status j unique part f' left
              ]
        ];
  }

  -- Only the errors and the failed nodes count.
  pub Blames-of_eq :
      (e r : Executor)
      → r.errs ≡ e.errs
      → ((id : String)
          → lookup id e.node_status ≡ some failed
          → lookup id r.node_status ≡ some failed)
      → Blames e
      → Blames r
  Blames-of_eq e r errs kept h = record {
    blamed = λ j m mem.
        let (named, bad) = h.blamed j m (subst (Memᴰ (j, m)) errs mem) in (named, kept j bad);
  }

  pub new_executor-Blames : Blames new_executor
  unfolding new_executor
  new_executor-Blames = record { blamed = λ j m mem. elim mem [ ] }
