-- ===== src/Dag/Executor/Sane.antt =====
-- internal/core/dag/executor.go: what holds of the executor between two rounds of the loop of Run,
-- and when the loop has ended.
use hatchet_workflow.Base.{
  ℕ, zero, suc, String, true, false, ◌≡◌, ◌≢◌, refl, sym, ◌∙◌, ap, subst, List, [], ◌∷◌, Memᴰ, ◌⊎◌,
  inl, inr, ⊎_elim, Option, some, lookup, arith, Bool-cases, List-cases,
}
use hatchet_workflow.Dag.Graph.{Node}
use hatchet_workflow.Dag.Graph.Unique.{HasUniqueIds, HasUniqueIds-eq}
use hatchet_workflow.Dag.Executor.Retry.{Ending}
use hatchet_workflow.Dag.Executor.{
  Status, running, done, Executor, Config, World, main, is_pending, new_executor, mark_running,
  mark_cancelled, get_ready, has_failed_or_cancelled, round, cancel_pending, main_loop, save,
}
use hatchet_workflow.Dag.Executor.Rounds.{
  IsFair, ended, any_failed, round-cases, save-status, save-errs, save-cancelled,
}
use hatchet_workflow.Dag.Executor.Ready.{IsReady, ready_iff}
use hatchet_workflow.Dag.Executor.Loop.{done_in, get_ready-cons, main_loop_next}
use hatchet_workflow.Dag.Executor.Marks.{
  is_started, Reports, settle_all-Reports, mark_running-fine, mark_cancelled-cases,
  mark_cancelled-fine,
}

module _ {T : Type 0} (cfg : Config T) (w : World T) where
  -- A started node of the graph has all its deps done.
  abbrev pub IsBacked : Executor → Type 0
  IsBacked e =
      (n : Node T) (d : String)
      → Memᴰ n cfg.graph
      → is_started (lookup n.id e.node_status) ≡ true
      → Memᴰ d n.deps
      → lookup d e.node_status ≡ some done

  -- Between two rounds: no node runs, started nodes have their deps done, failures are reported.
  pub record IsSane (e : Executor) : Type 0 where
    pub backed : IsBacked e
    pub quiet : (id : String) → lookup id e.node_status ≢ some running
    pub reports : Reports e

  -- The loop of Run has ended: the run is cancelled, or a node failed, or no node is ready.
  pub data HasEnded (e : Executor) : Type 0 where
    by_cancel : e.cancelled ≡ true → HasEnded e
    by_failure : any_failed e.node_status ≡ true → HasEnded e
    by_idleness : get_ready cfg e ≡ [] → HasEnded e

  -- An invariant of the rounds, and what it gives where the loop ends.
  pub record Rule (P Q : Executor → Type 0) : Type 0 where
    pub cancels : (k : ℕ) (e : Executor) → P e → w.ctx_done k ≡ true → Q (cancel_pending cfg w e)
    pub idles : (e : Executor) → P e → get_ready cfg e ≡ [] → Q e
    pub stops :
        (k : ℕ) (e : Executor) (n : Node T) (ns : List (Node T))
        → P e
        → get_ready cfg e ≡ n ∷ ns
        → has_failed_or_cancelled (round cfg w k e (n ∷ ns)) ≡ true
        → Q (save cfg (round cfg w k e (n ∷ ns)))
    pub goes_on :
        (k : ℕ) (e : Executor) (n : Node T) (ns : List (Node T))
        → P e
        → get_ready cfg e ≡ n ∷ ns
        → has_failed_or_cancelled (round cfg w k e (n ∷ ns)) ≡ false
        → P (round cfg w k e (n ∷ ns))

  pub main_loop_rule :
      (P Q : Executor → Type 0)
      → Rule P Q
      → (fuel k : ℕ) (e r : Executor) → P e
      → main_loop cfg w fuel k e ≡ some r
      → Q r
  unfolding main_loop
  main_loop_rule P Q rule zero k e r p h = cc
  main_loop_rule P Q rule (suc fuel) k e r p h = elim (Bool-cases (w.ctx_done k)) [
    | inl over ↦
        let same : cancel_pending cfg w e ≡ r = cc (rw (over, main_loop) at h) in
        subst Q same (rule.cancels k e p over)
    | inr live ↦ elim (List-cases (get_ready cfg e)) [
      | inl idle ↦
          let same : e ≡ r = cc (rw (idle, main_loop) at (rw (live, main_loop) at h)) in
          subst Q same (rule.idles e p idle)
      | inr (n, ns, got) ↦ elim (main_loop_next cfg w fuel k e n ns live got) [
        | inl (bad, stops) ↦
            let same : save cfg (round cfg w k e (n ∷ ns)) ≡ r = cc in
            subst Q same (rule.stops k e n ns p got bad)
        | inr (fine, goes_on) ↦
            main_loop_rule P Q rule fuel (suc k) (round cfg w k e (n ∷ ns)) r
              (rule.goes_on k e n ns p got fine) (sym goes_on ∙ h)
      ]
    ]
  ]

  module _ (fair : IsFair w) (unique : HasUniqueIds cfg.graph) where
    -- A round changes only nodes that were ready.
    module _ (k : ℕ) (e : Executor) (n : Node T) (ns : List (Node T))
        (got : get_ready cfg e ≡ n ∷ ns) where
      pub was-IsReady :
          (m : Node T) → Memᴰ m (n ∷ ns) → Memᴰ m cfg.graph × IsReady (done_in cfg w e) m
      was-IsReady m h =
          let (is, _, _) = get_ready-cons cfg w e n ns got in
          (ready_iff cfg.graph (done_in cfg w e) m).0 (subst (Memᴰ m) (sym is) h)

      pub round_keeps_done :
          (d : String)
          → lookup d e.node_status ≡ some done
          → lookup d (round cfg w k e (n ∷ ns)).node_status ≡ some done
      round_keeps_done d old = elim (round-cases cfg w fair k e (n ∷ ns) d) [
        | inl (same, _) ↦ same ∙ old
        | inr h ↦
            let waits = (was-IsReady h.by.node h.by.listed).1.waiting in
            let old' = subst (λ z. lookup z e.node_status ≡ some done) (sym h.by.named) old in
            absurd (ground arith)
      ]

      round-IsBacked : IsBacked e → IsBacked (round cfg w k e (n ∷ ns))
      round-IsBacked b m d mem began dep =
          round_keeps_done d (elim (round-cases cfg w fair k e (n ∷ ns) m.id) [
            | inl (same, _) ↦ b m d mem (ap is_started (sym same) ∙ began) dep
            | inr h ↦
                let (there, r) = was-IsReady h.by.node h.by.listed in
                let one = HasUniqueIds-eq cfg.graph h.by.node m unique there mem h.by.named in
                is_done_eq d (r.deps_done d (subst (λ z. Memᴰ d z.deps) (sym one) dep))
          ])
        where
          is_done_eq : (x : String) → done_in cfg w e x ≡ true → lookup x e.node_status ≡ some done
          is_done_eq x p = ground arith

      ended_not_running : (x : Ending) → ◌≢◌ {A = Option Status} (some (ended x)) (some running)
      ended_not_running x p = ground arith

      round-quiet :
          ((id : String) → lookup id e.node_status ≢ some running)
          → (id : String) → lookup id (round cfg w k e (n ∷ ns)).node_status ≢ some running
      round-quiet q id p = elim (round-cases cfg w fair k e (n ∷ ns) id) [
        | inl (same, _) ↦ q id (sym same ∙ p)
        | inr h ↦ ended_not_running _ (sym h.left ∙ p)
      ]

      round-Reports : Reports (round cfg w k e (n ∷ ns))
      unfolding round
      round-Reports =
          let e1 = record e { node_status = mark_running (n ∷ ns) e.node_status } in
          let (_, _, fine) = get_ready-cons cfg w e n ns got in
          settle_all-Reports cfg w (main k) (save cfg e1) (w.finish (main k) (n ∷ ns)) (λ _.
            ap any_failed (save-status cfg e1)
            ∙ mark_running-fine cfg w (n ∷ ns) e.node_status fine)

      pub round-IsSane : IsSane e → IsSane (round cfg w k e (n ∷ ns))
      round-IsSane s = record {
        backed = round-IsBacked s.backed;
        quiet = round-quiet s.quiet;
        reports = round-Reports;
      }

    -- Only the status map and the errors count.
    IsSane-of_eq :
        (e e' : Executor) → e'.node_status ≡ e.node_status → e'.errs ≡ e.errs → IsSane e → IsSane e'
    IsSane-of_eq e e' same errs s = record {
      backed = λ n d mem began dep.
          ap (lookup d) same
          ∙ s.backed n d mem (ap (λ m. is_started (lookup n.id m)) (sym same) ∙ began) dep;
      quiet = λ id p. s.quiet id (ap (lookup id) (sym same) ∙ p);
      reports = λ h. ap any_failed same ∙ s.reports (sym errs ∙ h);
    }

    pub cancel_pending-status :
        (e : Executor)
        → (cancel_pending cfg w e).node_status ≡ mark_cancelled cfg.graph e.node_status
    unfolding cancel_pending
    cancel_pending-status e =
        save-status cfg
          (record e { node_status = mark_cancelled cfg.graph e.node_status; cancelled = true })

    pub cancel_pending-errs : (e : Executor) → (cancel_pending cfg w e).errs ≡ e.errs
    unfolding cancel_pending
    cancel_pending-errs e =
        save-errs cfg
          (record e { node_status = mark_cancelled cfg.graph e.node_status; cancelled = true })

    cancel_pending-cancelled : (e : Executor) → (cancel_pending cfg w e).cancelled ≡ true
    unfolding cancel_pending
    cancel_pending-cancelled e =
        save-cancelled cfg
          (record e { node_status = mark_cancelled cfg.graph e.node_status; cancelled = true })

    -- Marking pending nodes as cancelled starts none, and undoes none that is done.
    marked-IsSane :
        (e e' : Executor)
        → e'.node_status ≡ mark_cancelled cfg.graph e.node_status
        → e'.errs ≡ e.errs
        → IsSane e
        → IsSane e'
    marked-IsSane e e' is errs s = record {
      backed = λ n d mem began dep. keeps_done d (
          s.backed n d mem
            (was_started n.id (ap (λ m. is_started (lookup n.id m)) (sym is) ∙ began)) dep);
      quiet = λ id p. not_running id (ap (lookup id) (sym is) ∙ p);
      reports = λ h.
          ap any_failed is ∙ mark_cancelled-fine cfg.graph e.node_status (s.reports (sym errs ∙ h));
    }
      where
        was_started :
            (id : String)
            → is_started (lookup id (mark_cancelled cfg.graph e.node_status)) ≡ true
            → is_started (lookup id e.node_status) ≡ true
        was_started id p = elim (mark_cancelled-cases cfg.graph e.node_status id) [
          | inl same ↦ ap is_started (sym same) ∙ p
          | inr (now, _) ↦ cc (ap is_started now)
        ]

        keeps_done :
            (d : String) → lookup d e.node_status ≡ some done → lookup d e'.node_status ≡ some done
        keeps_done d p = elim (mark_cancelled-cases cfg.graph e.node_status d) [
          | inl same ↦ ap (lookup d) is ∙ same ∙ p
          | inr (_, waiting) ↦ cc (ap is_pending p)
        ]

        not_running :
            (id : String) → lookup id (mark_cancelled cfg.graph e.node_status) ≢ some running
        not_running id p = elim (mark_cancelled-cases cfg.graph e.node_status id) [
          | inl same ↦ s.quiet id (sym same ∙ p)
          | inr (now, _) ↦ cc
        ]

    failed_or_cancelled :
        (e : Executor)
        → has_failed_or_cancelled e ≡ true
        → (e.cancelled ≡ true) ⊎ (any_failed e.node_status ≡ true)
    unfolding has_failed_or_cancelled
    failed_or_cancelled e h = ground arith

    IsSane-rule : Rule IsSane (λ r. IsSane r × HasEnded r)
    IsSane-rule = record {
      cancels = λ k e s over. (
        marked-IsSane e (cancel_pending cfg w e) (cancel_pending-status e) (cancel_pending-errs e)
            s,
        by_cancel (cancel_pending-cancelled e),
      );
      idles = λ e s idle. (s, by_idleness idle);
      stops = λ k e n ns s got bad.
          let e' = round cfg w k e (n ∷ ns) in
          (
            IsSane-of_eq e' (save cfg e') (save-status cfg e') (save-errs cfg e')
                (round-IsSane k e n ns got s),
            ⊎_elim (λ c. by_cancel (save-cancelled cfg e' ∙ c))
                (λ f. by_failure (ap any_failed (save-status cfg e') ∙ f))
                (failed_or_cancelled e' bad),
          );
      goes_on = λ k e n ns s got fine. round-IsSane k e n ns got s;
    }

    -- Where the loop of Run ends, started nodes have their deps done, no node runs, and the run is
    -- cancelled, or a node failed, or none is ready.
    pub main_loop-IsSane :
        (fuel k : ℕ) (e r : Executor)
        → IsSane e
        → main_loop cfg w fuel k e ≡ some r
        → IsSane r × HasEnded r
    main_loop-IsSane fuel k e r s h =
        main_loop_rule IsSane (λ x. IsSane x × HasEnded x) IsSane-rule fuel k e r s h

  pub new_executor-IsSane : IsSane new_executor
  unfolding new_executor lookup
  new_executor-IsSane = record {
    backed = λ n d mem began dep. cc;
    quiet = λ id p. cc;
    reports = λ h. refl;
  }
