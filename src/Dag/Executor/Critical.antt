-- ===== src/Dag/Executor/Critical.antt =====
-- internal/core/dag/executor.go: a MustComplete node is never abandoned because the run is cancelled.
use hatchet_workflow.Base.{
  ℕ, zero, suc, String, true, false, ◌≡◌, ◌≢◌, refl, sym, ◌∙◌, ap, subst, List, [], ◌∷◌, Memᴰ, inl,
  inr, Option, some, lookup, lookup-insert, Bool-cases, Option-cases, List-cases, eq_refl, eq_false,
  String-cases,
}
use hatchet_workflow.Dag.Graph.{Node, ready_always_run}
use hatchet_workflow.Dag.Graph.Unique.{HasUniqueIds, HasUniqueIds-eq}
use hatchet_workflow.Dag.Executor.Retry.{cancelled_wait, Ending, succeeded, gave_up, interrupted}
use hatchet_workflow.Dag.Executor.{
  Executor, Config, World, Stage, main, teardown, is_over, RunError, ending, settle, settle_all,
  mark_running, mark_cancelled, get_ready, round, cancel_pending, save, main_loop, teardown_round,
  run_always_run_nodes, finish_run, run, fuel_for, after_loop, has_failed_or_cancelled,
}
use hatchet_workflow.Dag.Executor.Rounds.{IsFair, save-errors}
use hatchet_workflow.Dag.Executor.Ready.{ready_iff, ready_always_run_iff}
use hatchet_workflow.Dag.Executor.Loop.{ending-interrupted, done_in, get_ready-cons}
use hatchet_workflow.Dag.Executor.Sane.{Rule, main_loop_rule}

module _ {T : Type 0} (cfg : Config T) (w : World T) where
  -- No execution of the node with this id was abandoned.
  abbrev pub IsKept : String → Executor → Type 0
  IsKept id e = lookup id e.node_errors ≢ some cancelled_wait

  settle-IsKept :
      (e : Executor) (j id : String) (x : Ending)
      → (j ≡ id → x ≢ interrupted)
      → IsKept id e
      → IsKept id (settle cfg w e j x)
  unfolding settle
  settle-IsKept e j id succeeded h k p = k (ap (lookup id) (sym (save-errors cfg _)) ∙ p)
  settle-IsKept e j id (gave_up last) h k p = elim (String-cases j id) [
    | inl same ↦ cc (rw (lookup-insert, same, eq_refl) at p)
    | inr ne ↦ k (rw (lookup-insert, eq_false j id ne) at p)
  ]
  settle-IsKept e j id interrupted h k p = elim (String-cases j id) [
    | inl same ↦ h same refl
    | inr ne ↦ k (rw (lookup-insert, eq_false j id ne) at p)
  ]

  settle_all-IsKept :
      (s : Stage) (e : Executor) (ns : List (Node T)) (id : String)
      → ((n : Node T) → Memᴰ n ns → n.id ≡ id → ending cfg w s n ≢ interrupted)
      → IsKept id e
      → IsKept id (settle_all cfg w s e ns)
  unfolding settle_all
  settle_all-IsKept s e [] id h k = k
  settle_all-IsKept s e (n ∷ ns) id h k =
      settle_all-IsKept s (settle cfg w e n.id (ending cfg w s n)) ns id
        (λ m mem. h m (Memᴰ.tail mem))
        (settle-IsKept e n.id id (ending cfg w s n) (h n (Memᴰ.head refl)) k)

  save-IsKept : (e : Executor) (id : String) → IsKept id e → IsKept id (save cfg e)
  save-IsKept e id k p = k (ap (lookup id) (sym (save-errors cfg e)) ∙ p)

  round-IsKept :
      (fair : IsFair w) (k : ℕ) (e : Executor) (b : List (Node T)) (id : String)
      → ((n : Node T) → Memᴰ n b → n.id ≡ id → ending cfg w (main k) n ≢ interrupted)
      → IsKept id e
      → IsKept id (round cfg w k e b)
  unfolding round
  round-IsKept fair k e b id h kept =
      let e1 = record e { node_status = mark_running b e.node_status } in
      settle_all-IsKept (main k) (save cfg e1) (w.finish (main k) b) id
        (λ n mem. h n ((fair.finishes (main k) b n).0 mem)) (save-IsKept e1 id kept)

  teardown_round-IsKept :
      (fair : IsFair w) (k : ℕ) (e : Executor) (b : List (Node T)) (id : String)
      → ((n : Node T) → Memᴰ n b → n.id ≢ id)
      → IsKept id e
      → IsKept id (teardown_round cfg w k e b)
  unfolding teardown_round
  teardown_round-IsKept fair k e b id h kept =
      let e1 = record e { node_status = mark_running b e.node_status } in
      save-IsKept (settle_all cfg w (teardown k) e1 (w.finish (teardown k) b)) id (
        settle_all-IsKept (teardown k) e1 (w.finish (teardown k) b) id
          (λ n mem same. absurd (h n ((fair.finishes (teardown k) b n).0 mem) same)) kept)

  module _ (fair : IsFair w) (unique : HasUniqueIds cfg.graph) (n : Node T) (mem : Memᴰ n cfg.graph)
      (critical : n.must_complete ≡ true) (plain : n.always_run ≡ false) where
    critical_ending : (k : ℕ) → ending cfg w (main k) n ≢ interrupted
    critical_ending k p = let never = (ending-interrupted cfg w k n p).0 in cc

    IsKept-in_round :
        (k : ℕ) (e : Executor) (x : Node T) (xs : List (Node T))
        → IsKept n.id e
        → get_ready cfg e ≡ x ∷ xs
        → IsKept n.id (round cfg w k e (x ∷ xs))
    IsKept-in_round k e x xs kept got =
        round-IsKept fair k e (x ∷ xs) n.id
          (λ m h same.
            let (is, _, _) = get_ready-cons cfg w e x xs got in
            let there =
              ((ready_iff cfg.graph (done_in cfg w e) m).0 (subst (Memᴰ m) (sym is) h)).0 in
            let one = HasUniqueIds-eq cfg.graph m n unique there mem same in
            subst (λ z. ending cfg w (main k) z ≢ interrupted) (sym one) (critical_ending k))
          kept

    cancel-IsKept : (e : Executor) → IsKept n.id e → IsKept n.id (cancel_pending cfg w e)
    unfolding cancel_pending
    cancel-IsKept e kept =
        save-IsKept
          (record e { node_status = mark_cancelled cfg.graph e.node_status; cancelled = true }) n.id
          kept

    IsKept-rule : Rule cfg w (IsKept n.id) (IsKept n.id)
    IsKept-rule = record {
      cancels = λ k e kept over. cancel-IsKept e kept;
      idles = λ e kept idle. kept;
      stops = λ k e x xs kept got bad.
          save-IsKept (round cfg w k e (x ∷ xs)) n.id (IsKept-in_round k e x xs kept got);
      goes_on = λ k e x xs kept got fine. IsKept-in_round k e x xs kept got;
    }

    abbrev waiting : Executor → List (Node T)
    waiting e = ready_always_run cfg.graph (λ id. is_over (lookup id e.node_status))

    -- The teardown runs other nodes.
    other : (e : Executor) (m : Node T) → Memᴰ m (waiting e) → m.id ≢ n.id
    other e m here same =
        let (there, _, always) =
          (ready_always_run_iff cfg.graph (λ id. is_over (lookup id e.node_status)) m).0 here in
        let one = HasUniqueIds-eq cfg.graph m n unique there mem same in
        let always' = subst (λ z. z.always_run ≡ true) one always in cc

    IsKept-in_teardown :
        (fuel k : ℕ) (e r : Executor)
        → IsKept n.id e
        → run_always_run_nodes cfg w fuel k e ≡ some r
        → IsKept n.id r
    unfolding run_always_run_nodes
    IsKept-in_teardown zero k e r kept h = cc
    IsKept-in_teardown (suc fuel) k e r kept h = elim (List-cases (waiting e)) [
      | inl idle ↦
          let same : e ≡ r = cc (rw (idle, run_always_run_nodes) at h) in
          subst (IsKept n.id) same kept
      | inr (x, xs, is) ↦
          IsKept-in_teardown fuel (suc k) (teardown_round cfg w k e (x ∷ xs)) r
            (teardown_round-IsKept fair k e (x ∷ xs) n.id
              (λ m here. other e m (subst (Memᴰ m) (sym is) here)) kept)
            (rw (is, run_always_run_nodes) at h)
    ]

    finish-IsKept : (e : Executor) → IsKept n.id e → IsKept n.id (finish_run cfg w e).0
    unfolding finish_run
    finish-IsKept e kept = save-IsKept e n.id kept

    after_loop-IsKept :
        (mid r : Executor) (x : Option RunError)
        → IsKept n.id mid
        → after_loop cfg w mid ≡ some (r, x)
        → IsKept n.id r
    unfolding after_loop
    after_loop-IsKept mid r x kept h = elim (Bool-cases (has_failed_or_cancelled mid)) [
      | inr fine ↦
          let same : ◌≡◌ {A = Executor × Option RunError} (finish_run cfg w mid) (r, x) =
            cc (rw (fine, after_loop) at h) in
          subst (IsKept n.id) (ap (λ p. p.0) same) (finish-IsKept mid kept)
      | inl bad ↦ elim (Option-cases (run_always_run_nodes cfg w (fuel_for cfg) 0 mid)) [
        | inl out ↦ cc (rw (out, after_loop) at (rw (bad, after_loop) at h))
        | inr (last, ends) ↦
            let same : ◌≡◌ {A = Executor × Option RunError} (finish_run cfg w last) (r, x) =
              cc (rw (ends, after_loop) at (rw (bad, after_loop) at h)) in
            subst (IsKept n.id) (ap (λ p. p.0) same)
              (finish-IsKept last (IsKept-in_teardown (fuel_for cfg) 0 mid last kept ends))
      ]
    ]

    -- When Run has returned, no execution of a MustComplete node that is not AlwaysRun was abandoned
    -- because the context was done, whenever the run was cancelled. The graph has distinct ids, every
    -- goroutine of a round ends, and none was abandoned at the start.
    pub run_keeps_critical :
        (e r : Executor) (x : Option RunError)
        → IsKept n.id e
        → run cfg w e ≡ some (r, x)
        → IsKept n.id r
    unfolding run
    run_keeps_critical e r x kept h = elim (Option-cases (main_loop cfg w (fuel_for cfg) 0 e)) [
      | inl out ↦ cc (rw (out, run) at h)
      | inr (mid, ends) ↦
          after_loop-IsKept mid r x
            (main_loop_rule cfg w (IsKept n.id) (IsKept n.id) IsKept-rule (fuel_for cfg) 0 e mid
              kept ends)
            (rw (ends, run) at h)
    ]
