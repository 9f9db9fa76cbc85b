-- ===== src/Dag/Executor/Attended.antt =====
-- internal/core/dag/executor.go: what a run does with an AlwaysRun node.
use hatchet_workflow.Base.{true, ◌≡◌, sym, ◌∙◌, ap, Memᴰ, inl, inr, some, lookup, Bool-cases}
use hatchet_workflow.Dag.Graph.{Node}
use hatchet_workflow.Dag.Graph.Unique.{HasUniqueIds}
use hatchet_workflow.Dag.Executor.{Executor, Config, World, Stage, main, teardown, is_over, ending}
use hatchet_workflow.Dag.Executor.Rounds.{IsFair, ended}
use hatchet_workflow.Dag.Executor.Always.{HasRun}
use hatchet_workflow.Dag.Executor.Teardown.{TornDown}

module _ {T : Type 0} (cfg : Config T) (w : World T) where
  -- How an AlwaysRun node fares in a run from `e` to `r`: it had ended before and stays as it was, or
  -- it was executed, in a round of the loop or of the teardown, and is left as that run ended.
  pub data Attended (e r : Executor) (n : Node T) : Type 0 where
    before :
        is_over (lookup n.id e.node_status) ≡ true
        → lookup n.id r.node_status ≡ lookup n.id e.node_status
        → Attended e r n
    executed :
        (s : Stage) → lookup n.id r.node_status ≡ some (ended (ending cfg w s n)) → Attended e r n

  pub Attended-of_eq :
      (e r t : Executor) (n : Node T)
      → t.node_status ≡ r.node_status
      → Attended e r n
      → Attended e t n
  Attended-of_eq e r t n same (before old kept) = before old (ap (lookup n.id) same ∙ kept)
  Attended-of_eq e r t n same (executed s now) = executed s (ap (lookup n.id) same ∙ now)

  pub attended :
      (fair : IsFair w) (unique : HasUniqueIds cfg.graph) (e mid r : Executor) (n : Node T)
      → Memᴰ n cfg.graph
      → n.always_run ≡ true
      → HasRun cfg w fair unique e mid
      → TornDown cfg w mid r
      → Attended e r n
  attended fair unique e mid r n mem always h torn =
      elim (Bool-cases (is_over (lookup n.id mid.node_status))) [
        | inr fresh ↦ let (k, now) = torn.ran n mem always fresh in executed (teardown k) now
        | inl over ↦
            let kept = torn.kept n.id over in
            elim (h.ran n mem always) [
              | inl old ↦ before (sym (ap is_over old) ∙ over) (kept ∙ old)
              | inr (k, new) ↦ executed (main k) (kept ∙ new)
            ]
      ]
