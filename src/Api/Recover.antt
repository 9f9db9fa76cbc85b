-- ===== src/Api/Recover.antt =====
-- internal/domain/api/api.go: the executor that RecoverRun starts from a snapshot, and its run. Its graph
-- is the restored one; what comes before, the configuration and the dependencies, is in the modules of
-- internal/domain/run.
use hatchet_workflow.Base.{
  ℕ, ◌≡◌, refl, String, Bool, true, false, ◌&&◌, List, [], ◌∷◌, Memᴰ, Option, none, some,
  if◌then◌else◌, ◌==◌, lookup, lookup-insert, any, arith, Bool-cases, inl, inr,
}
use hatchet_workflow.Dag.Graph.{Node}
use hatchet_workflow.Dag.Executor.{
  pending, running, done, failed, cancelled, Executor, Config, World, RunError, new_executor,
  mark_node_done, run,
}
use hatchet_workflow.Dag.Executor.Rounds.{IsFair, any_failed-insert}
use hatchet_workflow.Dag.Executor.Loop.{IsCoherent}
use hatchet_workflow.Dag.Executor.Sane.{IsSane}
use hatchet_workflow.Dag.Executor.Course.{IsRunnable}
use hatchet_workflow.Dag.Executor.Live.{IsFine, RestSucceeds, run_live_from}
use hatchet_workflow.Api.Runs.{SavedNode}

-- ns.Status == dag.StatusDone
unfoldable pub is_saved_done : SavedNode → Bool
is_saved_done n = elim (n.status) [
  | done ↦ true
  | pending ↦ false
  | running ↦ false
  | failed ↦ false
  | cancelled ↦ false
]

-- Marking the nodes of the snapshot that are done
unfoldable pub mark_saved : List SavedNode → Executor → Executor
unfolding is_saved_done
mark_saved [] e = e
mark_saved (n ∷ ns) e = mark_saved ns (if is_saved_done n then mark_node_done e n.id else e)

-- The end of RecoverRun, from the new executor on
unfoldable pub resume :
    {T : Type 0} (cfg : Config T) (w : World T)
    → List SavedNode
    → Option (Executor × Option RunError)
unfolding mark_saved
resume cfg w nodes = run cfg w (mark_saved nodes new_executor)

-- Is the node done in the snapshot?
unfoldable pub saved_done : List SavedNode → String → Bool
saved_done nodes id = any (λ n. is_saved_done n && n.id == id) nodes

-- What the nodes marked so far and those still to be marked make of a state.
lookup-mark_saved :
    (nodes : List SavedNode) (e : Executor) (id : String)
    → lookup id (mark_saved nodes e).node_status
      ≡ (if saved_done nodes id then some done else lookup id e.node_status)
unfolding mark_saved saved_done mark_node_done
lookup-mark_saved [] e id = refl
lookup-mark_saved (n ∷ nodes) e id = elim (Bool-cases (is_saved_done n)) [
  | inl d ↦
      let ih = lookup-mark_saved nodes (mark_node_done e n.id) id in
      let now = lookup-insert n.id id done e.node_status in
      rw (d, mark_saved) (ground (arith, ih, now, d))
  | inr d ↦ rw (d, mark_saved) (ground (arith, lookup-mark_saved nodes e id, d))
]

mark_node_done-IsFine :
    {T : Type 0} (cfg : Config T) (w : World T) (e : Executor) (id : String)
    → IsFine cfg w e
    → IsFine cfg w (mark_node_done e id)
unfolding mark_node_done
mark_node_done-IsFine cfg w e id f = record {
  no_errs = f.no_errs;
  not_cancelled = f.not_cancelled;
  none_failed = any_failed-insert e.node_status id done f.none_failed (λ p. cc);
}

mark_saved-IsFine :
    {T : Type 0} (cfg : Config T) (w : World T) (nodes : List SavedNode) (e : Executor)
    → IsFine cfg w e
    → IsFine cfg w (mark_saved nodes e)
unfolding mark_saved
mark_saved-IsFine cfg w [] e f = f
mark_saved-IsFine cfg w (n ∷ nodes) e f = elim (Bool-cases (is_saved_done n)) [
  | inl d ↦
      rw d (
        mark_saved-IsFine cfg w nodes (mark_node_done e n.id)
          (mark_node_done-IsFine cfg w e n.id f))
  | inr d ↦ rw d (mark_saved-IsFine cfg w nodes e f)
]

resumed_IsFine :
    {T : Type 0} (cfg : Config T) (w : World T) (nodes : List SavedNode)
    → IsFine cfg w (mark_saved nodes new_executor)
unfolding new_executor
resumed_IsFine cfg w nodes =
    mark_saved-IsFine cfg w nodes new_executor
      (record { no_errs = refl; not_cancelled = refl; none_failed = refl })

module _ {T : Type 0} (cfg : Config T) (w : World T) (nodes : List SavedNode) where
  -- The deps of the nodes that are done in the snapshot are done in it.
  abbrev pub Closed : Type 0
  Closed =
      (n : Node T) (d : String)
      → Memᴰ n cfg.graph
      → saved_done nodes n.id ≡ true
      → Memᴰ d n.deps
      → saved_done nodes d ≡ true

  resumed_lookup :
      (id : String)
      → lookup id (mark_saved nodes new_executor).node_status
        ≡ (if saved_done nodes id then some done else none)
  unfolding new_executor lookup
  resumed_lookup id = lookup-mark_saved nodes new_executor id

  mark_saved-IsSane : Closed → IsSane cfg w (mark_saved nodes new_executor)
  mark_saved-IsSane closed = record {
    backed = λ n d mem began dep.
        let at_n = resumed_lookup n.id in
        let here : saved_done nodes n.id ≡ true = ground (arith, at_n, began) in
        let there = closed n d mem here dep in
        let at_d = resumed_lookup d in ground (arith, at_d, there);
    quiet = λ id p. let at_id = resumed_lookup id in ground (arith, at_id, p);
    reports = λ h. (resumed_IsFine cfg w nodes).none_failed;
  }

-- Let a graph with distinct ids be accepted by Validate, and let the deps of the nodes that a snapshot
-- has as done be done in it. Where the context is never done and every node that the snapshot does not
-- have as done succeeds within its attempts in each round, the run that is resumed from the snapshot
-- returns, without an error, and every node is done: the nodes that were done stay so, whatever their
-- tasks would do if they were run again. Every goroutine of a round ends, and a node's context is done
-- only once the run's is.
pub resume-live :
    {T : Type 0} (cfg : Config T) (w : World T) (nodes : List SavedNode) (order : List String)
    → IsFair w
    → ((k : ℕ) → w.ctx_done k ≡ false)
    → RestSucceeds cfg w (saved_done nodes)
    → IsRunnable cfg order
    → IsCoherent w
    → Closed cfg w nodes
    → (r : Executor) × (resume cfg w nodes ≡ some (r, none))
      × ((n : Node T) → Memᴰ n cfg.graph → lookup n.id r.node_status ≡ some done)
unfolding resume
resume-live cfg w nodes order fair live good runnable coh closed =
    run_live_from cfg w fair runnable.unique live (saved_done nodes) good order runnable coh
      (mark_saved nodes new_executor) (resumed_IsFine cfg w nodes)
      (mark_saved-IsSane cfg w nodes closed)
      (λ id was. let now = resumed_lookup cfg w nodes id in ground (arith, now, was))
