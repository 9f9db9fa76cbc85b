-- ===== src/Dag/Executor/Live.antt =====
-- internal/core/dag/executor.go: a run in which every node succeeds, and which nobody cancels,
-- returns no error.
use hatchet_workflow.Base.{
  ℕ, String, Bool, true, false, ◌≡◌, refl, sym, ◌∙◌, ap, subst, List, [], ◌∷◌, Memᴰ, inl, inr, some,
  none, lookup, insert, arith, Bool-cases,
}
use hatchet_workflow.Dag.Graph.{Node}
use hatchet_workflow.Dag.Graph.Unique.{HasUniqueIds}
use hatchet_workflow.Dag.Executor.Retry.{succeeded}
use hatchet_workflow.Dag.Executor.{
  is_done, done, Executor, Config, World, main, new_executor, ending, settle, settle_all,
  mark_running, round, save, get_ready, has_failed_or_cancelled, run_error, finish_run, fuel_for,
  run,
}
use hatchet_workflow.Dag.Executor.Rounds.{
  IsFair, any_failed, any_failed-insert, save-status, save-errs, save-cancelled,
}
use hatchet_workflow.Dag.Executor.Ready.{ready_iff}
use hatchet_workflow.Dag.Executor.Loop.{IsCoherent, done_in, get_ready-cons}
use hatchet_workflow.Dag.Executor.Marks.{mark_running-fine}
use hatchet_workflow.Dag.Executor.Sane.{
  round_keeps_done, Rule, main_loop_rule, new_executor-IsSane, IsSane,
}
use hatchet_workflow.Dag.Executor.Course.{
  IsRunnable, run-Course, not_failed, is_done-eq, finish_run-status,
}
use hatchet_workflow.Dag.Executor.Counts.{length-le-count_done}

module _ {T : Type 0} (cfg : Config T) (w : World T) where
  -- No failure so far.
  pub record IsFine (e : Executor) : Type 0 where
    pub no_errs : e.errs ≡ []
    pub not_cancelled : e.cancelled ≡ false
    pub none_failed : any_failed e.node_status ≡ false

  -- Every node of the graph succeeds in every round, within its attempts.
  abbrev pub AllSucceed : Type 0
  AllSucceed = (k : ℕ) (n : Node T) → Memᴰ n cfg.graph → ending cfg w (main k) n ≡ succeeded

  -- The nodes that are not among the `old` ones succeed in every round, within their attempts.
  abbrev pub RestSucceeds : (String → Bool) → Type 0
  RestSucceeds old =
      (k : ℕ) (n : Node T)
      → Memᴰ n cfg.graph
      → old n.id ≡ false
      → ending cfg w (main k) n ≡ succeeded

  -- The `old` nodes are done.
  abbrev pub Keeps : (String → Bool) → Executor → Type 0
  Keeps old e = (id : String) → old id ≡ true → lookup id e.node_status ≡ some done

  new_executor-IsFine : IsFine new_executor
  unfolding new_executor
  new_executor-IsFine = record { no_errs = refl; not_cancelled = refl; none_failed = refl }

  settle-IsFine : (e : Executor) (id : String) → IsFine e → IsFine (settle cfg w e id succeeded)
  unfolding settle
  settle-IsFine e id f =
      let e' = record e { node_status = insert id done e.node_status } in
      record {
        no_errs = save-errs cfg e' ∙ f.no_errs;
        not_cancelled = save-cancelled cfg e' ∙ f.not_cancelled;
        none_failed =
            ap any_failed (save-status cfg e')
            ∙ any_failed-insert e.node_status id done f.none_failed (λ p. cc);
      }

  settle_all-IsFine :
      (k : ℕ) (e : Executor) (ns : List (Node T))
      → ((n : Node T) → Memᴰ n ns → ending cfg w (main k) n ≡ succeeded)
      → IsFine e
      → IsFine (settle_all cfg w (main k) e ns)
  unfolding settle_all
  settle_all-IsFine k e [] good f = f
  settle_all-IsFine k e (n ∷ ns) good f =
      settle_all-IsFine k (settle cfg w e n.id (ending cfg w (main k) n)) ns
        (λ m h. good m (Memᴰ.tail h)) (rw (good n (Memᴰ.head refl)) (settle-IsFine e n.id f))

  round-IsFine :
      (fair : IsFair w) (k : ℕ) (e : Executor) (b : List (Node T))
      → ((n : Node T) → Memᴰ n b → ending cfg w (main k) n ≡ succeeded)
      → IsFine e
      → IsFine (round cfg w k e b)
  unfolding round
  round-IsFine fair k e b good f =
      let e1 = record e { node_status = mark_running b e.node_status } in
      settle_all-IsFine k (save cfg e1) (w.finish (main k) b)
        (λ n h. good n ((fair.finishes (main k) b n).0 h))
        (record {
          no_errs = save-errs cfg e1 ∙ f.no_errs;
          not_cancelled = save-cancelled cfg e1 ∙ f.not_cancelled;
          none_failed =
              ap any_failed (save-status cfg e1)
              ∙ mark_running-fine cfg w b e.node_status f.none_failed;
        })

  fine_goes_on : (e : Executor) → IsFine e → has_failed_or_cancelled e ≡ false
  fine_goes_on e f = not_failed e f.not_cancelled f.none_failed

  module _ (fair : IsFair w) (unique : HasUniqueIds cfg.graph)
      (live : (k : ℕ) → w.ctx_done k ≡ false) (old : String → Bool) (good : RestSucceeds old) where
    batch_good :
        (k : ℕ) (e : Executor) (n : Node T) (ns : List (Node T))
        → Keeps old e
        → get_ready cfg e ≡ n ∷ ns
        → (m : Node T) → Memᴰ m (n ∷ ns)
        → ending cfg w (main k) m ≡ succeeded
    batch_good k e n ns kept got m h =
        let (is, _, _) = get_ready-cons cfg w e n ns got in
        let (there, ready) =
          (ready_iff cfg.graph (done_in cfg w e) m).0 (subst (Memᴰ m) (sym is) h) in
        good k m there (elim (Bool-cases (old m.id)) [
          | inr fresh ↦ fresh
          | inl was ↦ let waits = ready.waiting in let now = ap is_done (kept m.id was) in cc
        ])

    round-Keeps :
        (k : ℕ) (e : Executor) (n : Node T) (ns : List (Node T))
        → get_ready cfg e ≡ n ∷ ns
        → Keeps old e
        → Keeps old (round cfg w k e (n ∷ ns))
    round-Keeps k e n ns got kept id was =
        round_keeps_done cfg w fair unique k e n ns got id (kept id was)

    abbrev IsGood : Executor → Type 0
    IsGood e = IsFine e × Keeps old e

    round-IsGood :
        (k : ℕ) (e : Executor) (n : Node T) (ns : List (Node T))
        → get_ready cfg e ≡ n ∷ ns
        → IsGood e
        → IsGood (round cfg w k e (n ∷ ns))
    round-IsGood k e n ns got f = (
      round-IsFine fair k e (n ∷ ns) (batch_good k e n ns f.1 got) f.0,
      round-Keeps k e n ns got f.1,
    )

    IsGood-rule : Rule cfg w IsGood IsGood
    IsGood-rule = record {
      cancels = λ k e f over. let never = live k in cc;
      idles = λ e f idle. f;
      stops = λ k e n ns f got bad.
          let fine = fine_goes_on (round cfg w k e (n ∷ ns)) (round-IsGood k e n ns got f).0 in cc;
      goes_on = λ k e n ns f got fine. round-IsGood k e n ns got f;
    }

    run_error_of_done :
        (e : Executor)
        → IsFine e
        → HasUniqueIds cfg.graph
        → ((n : Node T) → Memᴰ n cfg.graph → lookup n.id e.node_status ≡ some done)
        → run_error cfg.graph e ≡ none
    unfolding run_error
    run_error_of_done e f u h =
        ground (arith, f.no_errs, f.not_cancelled, length-le-count_done e.node_status cfg.graph u h)

    finish_run-none :
        (e : Executor)
        → IsFine e
        → HasUniqueIds cfg.graph
        → ((n : Node T) → Memᴰ n cfg.graph → lookup n.id e.node_status ≡ some done)
        → (finish_run cfg w e).1 ≡ none
    unfolding finish_run
    finish_run-none e f u h =
        run_error_of_done (save cfg e)
          (record {
            no_errs = save-errs cfg e ∙ f.no_errs;
            not_cancelled = save-cancelled cfg e ∙ f.not_cancelled;
            none_failed = ap any_failed (save-status cfg e) ∙ f.none_failed;
          })
          u (λ n mem. ap (lookup n.id) (save-status cfg e) ∙ h n mem)

    -- A run that starts without failures ends with every node done, where the nodes succeed that are
    -- not done at its start.
    pub run_live_from :
        (order : List String)
        → IsRunnable cfg order
        → IsCoherent w
        → (e : Executor) → IsFine e
        → IsSane cfg w e
        → Keeps old e
        → (r : Executor) × (run cfg w e ≡ some (r, none))
          × ((n : Node T) → Memᴰ n cfg.graph → lookup n.id r.node_status ≡ some done)
    run_live_from order runnable coh e fine sane kept =
        let (last, course) = run-Course cfg w fair order runnable e coh sane in
        let mid_fine =
          (main_loop_rule cfg w IsGood IsGood IsGood-rule (fuel_for cfg) 0 e course.mid (fine, kept)
            course.returned).0 in
        let goes = fine_goes_on course.mid mid_fine in
        let all_done = λ (n : Node T) (mem : Memᴰ n cfg.graph).
          is_done-eq (lookup n.id last.node_status) (course.success goes n mem) in
        let last_fine = subst IsFine (sym (course.untouched goes)) mid_fine in
        let none_left = finish_run-none last last_fine runnable.unique all_done in
        let final = (finish_run cfg w last).0 in
        (
          final,
          course.ran ∙ ap (λ x. some (final, x)) none_left,
          λ n mem. ap (lookup n.id) (finish_run-status cfg w last) ∙ all_done n mem,
        )

  module _ (fair : IsFair w) (live : (k : ℕ) → w.ctx_done k ≡ false) (good : AllSucceed) where
    -- Where the context is never done and every node succeeds within its attempts in each round, a
    -- run of an accepted graph with distinct ids from a new executor returns, without an error, and
    -- every node is done. Every goroutine of a round ends, and a node's context is done only once the
    -- run's is.
    pub run_live :
        (order : List String)
        → IsRunnable cfg order
        → IsCoherent w
        → (r : Executor) × (run cfg w new_executor ≡ some (r, none))
          × ((n : Node T) → Memᴰ n cfg.graph → lookup n.id r.node_status ≡ some done)
    run_live order runnable coh =
        run_live_from fair runnable.unique live (λ id. false) (λ k n mem _. good k n mem) order
          runnable coh new_executor new_executor-IsFine (new_executor-IsSane cfg w) (λ id was. cc)
