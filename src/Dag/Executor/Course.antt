-- ===== src/Dag/Executor/Course.antt =====
-- internal/core/dag/executor.go: the course of Run, its loop and then its teardown, and that it returns.
use hatchet_workflow.Base.{
  String, true, false, ◌≡◌, ◌≢◌, refl, sym, subst, List, [], Memᴰ, inl, inr, Option, some, none,
  lookup, arith, Bool-cases, List-cases, length,
}
use hatchet_workflow.Dag.Graph.{Node, Graph, index, ready, ok}
use hatchet_workflow.Dag.Graph.Unique.{HasUniqueIds}
use hatchet_workflow.Dag.Validate.{validate}
use hatchet_workflow.Dag.Validate.Edges.{Iterates}
use hatchet_workflow.Dag.Validate.Accepts.{validate-grounded}
use hatchet_workflow.Dag.Executor.{
  Status, done, Executor, Config, World, is_done, node_error, get_ready, has_failed_or_cancelled,
  main_loop, fuel_for, run_error, finish_run, after_loop, run,
}
use hatchet_workflow.Dag.Executor.Retry.{Message}
use hatchet_workflow.Dag.Executor.Rounds.{
  IsFair, ended, any_failed, save-status, save-errs, save-cancelled,
}
use hatchet_workflow.Dag.Executor.Ready.{ready-nil}
use hatchet_workflow.Dag.Executor.Loop.{
  IsCoherent, done_in, no_failure, main_loop_returns, todo-le-length,
}
use hatchet_workflow.Dag.Executor.Marks.{Reports}
use hatchet_workflow.Dag.Executor.Sane.{
  IsSane, HasEnded, by_cancel, by_failure, by_idleness, main_loop-IsSane,
}
use hatchet_workflow.Dag.Executor.Teardown.{
  TornDown, TornDown-of_done, run_always_run_nodes-TornDown,
}

module _ {T : Type 0} (cfg : Config T) where
  -- The graph is one that the program runs: its ids differ, and Validate accepts it.
  pub record IsRunnable (order : List String) : Type 0 where
    pub unique : HasUniqueIds cfg.graph
    pub iterates : Iterates (index cfg.graph) order
    pub valid : validate cfg.graph order ≡ ok tt

pub run_error-none :
    {T : Type 0} (g : Graph T) (e : Executor)
    → run_error g e ≡ none
    → (e.errs ≡ []) × (e.cancelled ≡ false)
unfolding run_error
run_error-none g e h = ground arith

pub run_error-errs :
    {T : Type 0} (g : Graph T) (e : Executor)
    → e.errs ≢ []
    → (j : String) × (m : Message) × Memᴰ (j, m) e.errs × (run_error g e ≡ some (node_error j m))
unfolding run_error
run_error-errs g e h = elim (List-cases e.errs) [
  | inl empty ↦ absurd (h empty)
  | inr ((j, m), rest, is) ↦
      (j, m, subst (Memᴰ (j, m)) (sym is) (Memᴰ.head refl), rw (is, run_error))
]

pub not_failed :
    (e : Executor)
    → e.cancelled ≡ false
    → any_failed e.node_status ≡ false
    → has_failed_or_cancelled e ≡ false
unfolding has_failed_or_cancelled
not_failed e c f = ground arith

pub fine_not_failed : (e : Executor) → Reports e → e.errs ≡ [] → ¬ (any_failed e.node_status ≡ true)
fine_not_failed e reports none_yet bad = let fine = reports none_yet in cc

pub is_done-eq : (o : Option Status) → is_done o ≡ true → o ≡ some done
is_done-eq o h = ground arith

module _ {T : Type 0} (cfg : Config T) (w : World T) where
  get_ready-nil :
      (e : Executor)
      → get_ready cfg e ≡ []
      → has_failed_or_cancelled e ≡ false
      → ready cfg.graph (done_in cfg w e) ≡ []
  unfolding get_ready has_failed_or_cancelled
  get_ready-nil e idle fine = ground arith

  -- How a run went: the state where its loop ended, and the state after the teardown.
  pub record Course (e last : Executor) : Type 0 where
    pub mid : Executor
    pub returned : main_loop cfg w (fuel_for cfg) 0 e ≡ some mid
    pub ran : run cfg w e ≡ some (finish_run cfg w last)
    pub sane : IsSane cfg w mid
    pub ended : HasEnded cfg w mid
    pub torn : TornDown cfg w mid last
    pub untouched : has_failed_or_cancelled mid ≡ false → last ≡ mid
    pub success :
        has_failed_or_cancelled mid ≡ false
        → (n : Node T) → Memᴰ n cfg.graph
        → is_done (lookup n.id last.node_status) ≡ true

  pub finish_run-status : (e : Executor) → (finish_run cfg w e).0.node_status ≡ e.node_status
  unfolding finish_run
  finish_run-status e = save-status cfg e

  pub finish_run-errs : (e : Executor) → (finish_run cfg w e).0.errs ≡ e.errs
  unfolding finish_run
  finish_run-errs e = save-errs cfg e

  pub finish_run-cancelled : (e : Executor) → (finish_run cfg w e).0.cancelled ≡ e.cancelled
  unfolding finish_run
  finish_run-cancelled e = save-cancelled cfg e

  module _ (fair : IsFair w) (order : List String) (runnable : IsRunnable cfg order) where
    open runnable use {unique, iterates, valid}

    -- When the loop ends without a failure, every node is done.
    idle_all_done :
        (mid : Executor)
        → HasEnded cfg w mid
        → has_failed_or_cancelled mid ≡ false
        → (n : Node T) → Memᴰ n cfg.graph
        → is_done (lookup n.id mid.node_status) ≡ true
    idle_all_done mid (by_cancel c) fine n mem = let (never, _) = no_failure cfg w mid fine in cc
    idle_all_done mid (by_failure f) fine n mem = let (_, never) = no_failure cfg w mid fine in cc
    idle_all_done mid (by_idleness idle) fine n mem =
        let (known, all) = validate-grounded cfg.graph order iterates valid in
        ready-nil cfg.graph (done_in cfg w mid) unique known all (get_ready-nil mid idle fine) n mem

    Course-of_mid :
        (e mid : Executor)
        → main_loop cfg w (fuel_for cfg) 0 e ≡ some mid
        → IsSane cfg w mid
        → HasEnded cfg w mid
        → (last : Executor) × Course e last
    unfolding run after_loop
    Course-of_mid e mid returned sane ended = elim (Bool-cases (has_failed_or_cancelled mid)) [
      | inl bad ↦
          let (last, torn_ran, torn) =
            run_always_run_nodes-TornDown cfg w fair unique (length cfg.graph) 0 mid in
          (
            last,
            record {
              mid = mid;
              returned = returned;
              ran = rw (returned, run) (rw (bad, after_loop) (rw torn_ran));
              sane = sane;
              ended = ended;
              torn = torn;
              untouched = λ fine. cc;
              success = λ fine. cc;
            },
          )
      | inr fine ↦
          let all_done = idle_all_done mid ended fine in
          (
            mid,
            record {
              mid = mid;
              returned = returned;
              ran = rw (returned, run) (rw (fine, after_loop));
              sane = sane;
              ended = ended;
              torn = TornDown-of_done cfg w mid all_done;
              untouched = λ _. refl;
              success = λ _. all_done;
            },
          )
    ]

    -- Run returns, from every state between two rounds.
    pub run-Course :
        (e : Executor) → IsCoherent w → IsSane cfg w e → (last : Executor) × Course e last
    run-Course e coh sane =
        let small = todo-le-length (done_in cfg w e) cfg.graph in
        let (mid, returned) = main_loop_returns cfg w fair coh (fuel_for cfg) 0 e (omega arith) in
        let (mid_sane, ended) =
          main_loop-IsSane cfg w fair unique (fuel_for cfg) 0 e mid sane returned in
        Course-of_mid e mid returned mid_sane ended
