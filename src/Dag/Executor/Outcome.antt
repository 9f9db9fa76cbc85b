-- ===== src/Dag/Executor/Outcome.antt =====
-- internal/core/dag/executor.go: what Run guarantees when it returns.
use hatchet_workflow.Base.{
  String, true, false, ◌≡◌, sym, ◌∙◌, ap, subst, List, Memᴰ, Option, some, none, lookup,
}
use hatchet_workflow.Dag.Graph.{Node}
use hatchet_workflow.Dag.Executor.{
  done, failed, Executor, Config, World, is_over, RunError, node_error, fuel_for, run_error,
  finish_run, run,
}
use hatchet_workflow.Dag.Executor.Retry.{Message}
use hatchet_workflow.Dag.Executor.Rounds.{IsFair, Named, lookup_failed, save-status}
use hatchet_workflow.Dag.Executor.Loop.{IsCoherent}
use hatchet_workflow.Dag.Executor.Marks.{is_started}
use hatchet_workflow.Dag.Executor.Sane.{IsSane}
use hatchet_workflow.Dag.Executor.Blame.{Blames}
use hatchet_workflow.Dag.Executor.Attended.{Attended, Attended-of_eq, attended}
use hatchet_workflow.Dag.Executor.Always.{main_loop-HasRun, main_loop-Blames}
use hatchet_workflow.Dag.Executor.Course.{
  IsRunnable, Course, run-Course, run_error-none, run_error-errs, not_failed, fine_not_failed,
  is_done-eq, finish_run-status, finish_run-errs, finish_run-cancelled,
}

module _ {T : Type 0} (cfg : Config T) (w : World T) where
  module _ (fair : IsFair w) (order : List String) (runnable : IsRunnable cfg order) where
    open runnable use {unique}

    -- Run returns, and every AlwaysRun node has then ended: it is done, failed or cancelled. Unless it
    -- had ended before the run and kept its status, its status is the one with which its execution ends
    -- in a round of the loop or of the teardown; also in a run that has failed or was cancelled.
    -- The graph has distinct ids and is accepted by Validate; every goroutine of a round ends; a
    -- node's context is done only once the run's is; in the state at the start no node is running,
    -- the deps of started nodes are done, and a failed node comes with an error.
    pub run_tears_down :
        (e : Executor)
        → IsCoherent w
        → IsSane cfg w e
        → (r : Executor) × (x : Option RunError) × (run cfg w e ≡ some (r, x))
          × ((n : Node T)
              → Memᴰ n cfg.graph
              → n.always_run ≡ true
              → (is_over (lookup n.id r.node_status) ≡ true) × Attended cfg w e r n)
    run_tears_down e coh sane =
        let (last, course) = run-Course cfg w fair order runnable e coh sane in
        let had =
          main_loop-HasRun cfg w fair unique (fuel_for cfg) 0 e course.mid course.returned in
        let r = (finish_run cfg w last).0 in
        (
          r,
          (finish_run cfg w last).1,
          course.ran,
          λ n mem always. (
            ap (λ m. is_over (lookup n.id m)) (finish_run-status cfg w last)
                ∙ course.torn.all_over n mem always,
            Attended-of_eq cfg w e last r n (finish_run-status cfg w last)
                (attended cfg w fair unique e course.mid last n mem always had course.torn),
          ),
        )

    -- The state that Run returns, by the course that it took.
    Returned : (e r : Executor) (x : Option RunError) → Type 0
    Returned e r x =
        (last : Executor) × Course cfg w e last
        × (r.node_status ≡ last.node_status)
        × (x ≡ run_error cfg.graph (finish_run cfg w last).0)

    Returned-by :
        (e r : Executor) (x : Option RunError)
        → IsCoherent w
        → IsSane cfg w e
        → run cfg w e ≡ some (r, x)
        → Returned e r x
    unfolding Returned finish_run
    Returned-by e r x coh sane h =
        let (last, course) = run-Course cfg w fair order runnable e coh sane in
        let both : ◌≡◌ {A = Executor × Option RunError} (finish_run cfg w last) (r, x) =
          cc (course.ran) in
        (
          last,
          course,
          ap (λ p. p.0.node_status) (sym both) ∙ save-status cfg last,
          sym (ap (λ p. p.1) both),
        )

    -- When Run has returned, the deps of every started node that is not AlwaysRun are done, so no
    -- such node was run before its deps.
    -- The graph has distinct ids and is accepted by Validate; every goroutine of a round ends; a
    -- node's context is done only once the run's is; in the state at the start no node is running,
    -- the deps of started nodes are done, and a failed node comes with an error.
    pub run-IsOrdered :
        (e r : Executor) (x : Option RunError)
        → IsCoherent w
        → IsSane cfg w e
        → run cfg w e ≡ some (r, x)
        → (n : Node T) (d : String) → Memᴰ n cfg.graph
        → n.always_run ≡ false
        → is_started (lookup n.id r.node_status) ≡ true
        → Memᴰ d n.deps
        → lookup d r.node_status ≡ some done
    unfolding Returned
    run-IsOrdered e r x coh sane h n d mem plain began dep =
        let (last, course, same, _) = Returned-by e r x coh sane h in
        let before = course.torn.others n mem plain in
        let began' =
          ap is_started (sym before) ∙ ap (λ m. is_started (lookup n.id m)) (sym same) ∙ began in
        let d_done = course.sane.backed n d mem began' dep in
        ap (lookup d) same ∙ course.torn.kept d (ap is_over d_done) ∙ d_done

    -- When Run returns no error, every node is done.
    -- The graph has distinct ids and is accepted by Validate; every goroutine of a round ends; a
    -- node's context is done only once the run's is; in the state at the start no node is running,
    -- the deps of started nodes are done, and a failed node comes with an error.
    pub run_success :
        (e r : Executor)
        → IsCoherent w
        → IsSane cfg w e
        → run cfg w e ≡ some (r, none)
        → (n : Node T) → Memᴰ n cfg.graph
        → lookup n.id r.node_status ≡ some done
    unfolding Returned
    run_success e r coh sane h n mem =
        let (last, course, same, no_error) = Returned-by e r none coh sane h in
        let (no_errs, not_cancelled) =
          run_error-none cfg.graph (finish_run cfg w last).0 (sym no_error) in
        let mid_errs = course.torn.errs_grow (sym (finish_run-errs cfg w last) ∙ no_errs) in
        let mid_cancel =
          sym course.torn.same_cancel ∙ sym (finish_run-cancelled cfg w last) ∙ not_cancelled in
        let fine = not_failed course.mid mid_cancel (course.sane.reports mid_errs) in
        ap (lookup n.id) same
        ∙ is_done-eq (lookup n.id last.node_status) (course.success fine n mem)

    -- When Run has returned and some node has failed, its error names a node of the graph that has
    -- failed.
    -- The graph has distinct ids and is accepted by Validate; every goroutine of a round ends; a
    -- node's context is done only once the run's is; in the state at the start no node is running,
    -- the deps of started nodes are done, a failed node comes with an error, and the errors that there
    -- are name failed nodes of the graph.
    pub run_reports :
        (e r : Executor) (x : Option RunError)
        → IsCoherent w
        → IsSane cfg w e
        → Blames cfg w e
        → run cfg w e ≡ some (r, x)
        → (id : String) → lookup id r.node_status ≡ some failed
        → (j : String) × (m : Message) × (x ≡ some (node_error j m))
          × Named j cfg.graph
          × (lookup j r.node_status ≡ some failed)
    unfolding Returned
    run_reports e r x coh sane blames h id bad =
        let (last, course, same, is) = Returned-by e r x coh sane h in
        let bad' = lookup_failed last.node_status id (ap (lookup id) (sym same) ∙ bad) in
        let mid_blames =
          main_loop-Blames cfg w fair unique (fuel_for cfg) 0 e course.mid blames course.returned in
        let (j, m, mem, named) = run_error-errs cfg.graph (finish_run cfg w last).0 (λ none_yet.
          fine_not_failed last (course.torn.reports course.sane.reports)
            (sym (finish_run-errs cfg w last) ∙ none_yet) bad') in
        let (listed, was) =
          (course.torn.blames mid_blames).blamed j m
            (subst (Memᴰ (j, m)) (finish_run-errs cfg w last) mem) in
        (j, m, is ∙ named, listed, ap (lookup j) same ∙ was)
