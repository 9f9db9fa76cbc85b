-- ===== src/Dag/Executor/Always.antt =====
-- internal/core/dag/executor.go: what the loop of Run leaves of the AlwaysRun nodes and of the errors.
use hatchet_workflow.Base.{
  ℕ, String, true, not, ◌&&◌, ◌≡◌, refl, sym, ◌∙◌, ap, subst, List, [], ◌∷◌, Memᴰ, ◌⊎◌, inl, inr,
  some, lookup, insert, arith, Bool-cases,
}
use hatchet_workflow.Dag.Graph.{Node}
use hatchet_workflow.Dag.Graph.Unique.{HasUniqueIds, HasUniqueIds-eq}
use hatchet_workflow.Dag.Executor.{
  Status, failed, cancelled, Executor, Config, World, main, ending, is_pending, mark_running,
  mark_cancelled, get_ready, round, cancel_pending, main_loop, save,
}
use hatchet_workflow.Dag.Executor.Rounds.{
  IsFair, ended, lookup_failed, lookup-insert_other, round-cases, save-status, save-errs,
}
use hatchet_workflow.Dag.Executor.Loop.{get_ready-cons}
use hatchet_workflow.Dag.Executor.Marks.{mark_cancelled-cases}
use hatchet_workflow.Dag.Executor.Sane.{
  Rule, main_loop_rule, was-IsReady, cancel_pending-status, cancel_pending-errs,
}
use hatchet_workflow.Dag.Executor.Blame.{Blames, Blames-batch, Blames-of_eq}

-- A cancelled run marks no node whose id is one of AlwaysRun nodes only.
mark_cancelled-always :
    {T : Type 0} (ns : List (Node T)) (m : List (String × Status)) (id : String)
    → ((n : Node T) → Memᴰ n ns → n.id ≡ id → n.always_run ≡ true)
    → lookup id (mark_cancelled ns m) ≡ lookup id m
unfolding mark_cancelled
mark_cancelled-always [] m id all = refl
mark_cancelled-always {T = T} (n ∷ ns) m id all =
    let later : (k : Node T) → Memᴰ k ns → k.id ≡ id → k.always_run ≡ true =
      λ k h. all k (Memᴰ.tail h) in
    elim (Bool-cases (is_pending (lookup n.id m) && not n.always_run)) [
      | inr skip ↦ rw (skip, mark_cancelled) (mark_cancelled-always ns m id later)
      | inl take ↦
          rw (take, mark_cancelled)
            (mark_cancelled-always ns (insert n.id cancelled m) id later
              ∙ lookup-insert_other n.id id cancelled m (λ same.
                let always = all n (Memᴰ.head refl) same in ground (arith, take, always)))
    ]

module _ {T : Type 0} (cfg : Config T) (w : World T) (fair : IsFair w)
    (unique : HasUniqueIds cfg.graph) where
  -- Each AlwaysRun node is as it was in `e`, or as its run in a round of the loop left it.
  pub record HasRun (e r : Executor) : Type 0 where
    pub ran :
        (n : Node T)
        → Memᴰ n cfg.graph
        → n.always_run ≡ true
        → (lookup n.id r.node_status ≡ lookup n.id e.node_status)
          ⊎ (k : ℕ) × (lookup n.id r.node_status ≡ some (ended (ending cfg w (main k) n)))

  HasRun-of_eq :
      (e r t : Executor)
      → ((n : Node T)
          → Memᴰ n cfg.graph
          → n.always_run ≡ true
          → lookup n.id t.node_status ≡ lookup n.id r.node_status)
      → HasRun e r
      → HasRun e t
  HasRun-of_eq e r t same h = record {
    ran = λ n mem always. elim (h.ran n mem always) [
      | inl old ↦ inl (same n mem always ∙ old)
      | inr (k, new) ↦ inr (k, same n mem always ∙ new)
    ];
  }

  HasRun-round :
      (e0 : Executor) (k : ℕ) (e : Executor) (n : Node T) (ns : List (Node T))
      → HasRun e0 e
      → get_ready cfg e ≡ n ∷ ns
      → HasRun e0 (round cfg w k e (n ∷ ns))
  HasRun-round e0 k e n ns h got = record {
    ran = λ a mem always. elim (round-cases cfg w fair k e (n ∷ ns) a.id) [
      | inl (same, _) ↦ elim (h.ran a mem always) [
        | inl old ↦ inl (same ∙ old)
        | inr (j, new) ↦ inr (j, same ∙ new)
      ]
      | inr by ↦
          let (there, _) = was-IsReady cfg w fair unique k e n ns got by.by.node by.by.listed in
          let one = HasUniqueIds-eq cfg.graph by.by.node a unique there mem by.by.named in
          inr (k, by.left ∙ ap (λ z. some (ended (ending cfg w (main k) z))) one)
    ];
  }

  HasRun-rule : (e0 : Executor) → Rule cfg w (HasRun e0) (HasRun e0)
  HasRun-rule e0 = record {
    cancels = λ k e h over.
        HasRun-of_eq e0 e (cancel_pending cfg w e)
          (λ n mem always.
            ap (lookup n.id) (cancel_pending-status cfg w fair unique e)
            ∙ mark_cancelled-always cfg.graph e.node_status n.id (λ a there same.
              subst (λ z. z.always_run ≡ true)
                (HasUniqueIds-eq cfg.graph n a unique mem there (sym same)) always))
          h;
    idles = λ e h idle. h;
    stops = λ k e n ns h got bad.
        HasRun-of_eq e0 (round cfg w k e (n ∷ ns)) (save cfg (round cfg w k e (n ∷ ns)))
          (λ a _ _. ap (lookup a.id) (save-status cfg _)) (HasRun-round e0 k e n ns h got);
    goes_on = λ k e n ns h got fine. HasRun-round e0 k e n ns h got;
  }

  -- The loop of Run starts AlwaysRun nodes as the others, and leaves those that it does not start.
  pub main_loop-HasRun :
      (fuel k : ℕ) (e r : Executor) → main_loop cfg w fuel k e ≡ some r → HasRun e r
  main_loop-HasRun fuel k e r h =
      main_loop_rule cfg w (HasRun e) (HasRun e) (HasRun-rule e) fuel k e r
        (record { ran = λ n mem always. inl refl }) h

  Blames-round :
      (k : ℕ) (e : Executor) (n : Node T) (ns : List (Node T))
      → Blames cfg w e
      → get_ready cfg e ≡ n ∷ ns
      → Blames cfg w (round cfg w k e (n ∷ ns))
  unfolding round
  Blames-round k e n ns h got =
      let e1 = record e { node_status = mark_running (n ∷ ns) e.node_status } in
      let (_, _, fine) = get_ready-cons cfg w e n ns got in
      Blames-batch cfg w fair unique (main k) e (save cfg e1) (round cfg w k e (n ∷ ns)) (n ∷ ns)
        (λ a there. (was-IsReady cfg w fair unique k e n ns got a there).0) (save-errs cfg e1) refl
        (λ id. round-cases cfg w fair k e (n ∷ ns) id)
        (λ id bad. let broken = lookup_failed e.node_status id bad in cc) h

  Blames-rule : Rule cfg w (Blames cfg w) (Blames cfg w)
  Blames-rule = record {
    cancels = λ k e h over.
        Blames-of_eq cfg w e (cancel_pending cfg w e) (cancel_pending-errs cfg w fair unique e)
          (λ id bad.
            ap (lookup id) (cancel_pending-status cfg w fair unique e) ∙ keeps_failed e id bad)
          h;
    idles = λ e h idle. h;
    stops = λ k e n ns h got bad.
        Blames-of_eq cfg w (round cfg w k e (n ∷ ns)) (save cfg (round cfg w k e (n ∷ ns)))
          (save-errs cfg _) (λ id bad. ap (lookup id) (save-status cfg _) ∙ bad)
          (Blames-round k e n ns h got);
    goes_on = λ k e n ns h got fine. Blames-round k e n ns h got;
  }
    where
      keeps_failed :
          (e : Executor) (id : String)
          → lookup id e.node_status ≡ some failed
          → lookup id (mark_cancelled cfg.graph e.node_status) ≡ some failed
      keeps_failed e id bad = elim (mark_cancelled-cases cfg.graph e.node_status id) [
        | inl same ↦ same ∙ bad
        | inr (_, waiting) ↦ cc (ap is_pending bad)
      ]

  -- The errors name nodes that have failed.
  pub main_loop-Blames :
      (fuel k : ℕ) (e r : Executor)
      → Blames cfg w e
      → main_loop cfg w fuel k e ≡ some r
      → Blames cfg w r
  main_loop-Blames fuel k e r h ran =
      main_loop_rule cfg w (Blames cfg w) (Blames cfg w) Blames-rule fuel k e r h ran
