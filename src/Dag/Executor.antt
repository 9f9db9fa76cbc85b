-- ===== src/Dag/Executor.antt =====
-- internal/core/dag/executor.go and storage.go: the executor that runs a graph. What the code does
-- not decide (task results, the context, the order in which goroutines end) is a `World`. A
-- goroutine's change of the state and the save after it are one step, so a round applies them one
-- node after the other. Times, the graph's JSON and the exported run state of a snapshot are left out.
pub mod Retry
pub mod Rounds
pub mod Ready
pub mod Loop
pub mod Marks
pub mod Sane
pub mod Blame
pub mod Always
pub mod Teardown
pub mod Attended
pub mod Course
pub mod Outcome
pub mod Counts
pub mod Live
pub mod Critical
use hatchet_workflow.Base.{
  ℕ, zero, suc, ◌-◌, String, Bool, true, false, not, ◌&&◌, ◌||◌, List, [], ◌∷◌, ◌++◌, Option, none,
  some, lookup, insert, any, length, ltb, if◌then◌else◌, map,
}
use hatchet_workflow.Base.Int.{ℤ}
use hatchet_workflow.Dag.Graph.{Node, Graph, ready, ready_always_run}
use hatchet_workflow.Dag.Executor.Retry.{
  RetryPolicy, Message, Ending, succeeded, gave_up, interrupted, attempts_made, execute, never,
}

pub data Status : Type 0 where
  pending running done failed cancelled : Status

pub record NodeStatus : Type 0 where
  pub id : String
  pub status : Status
  pub error : Option Message

-- `finished`: FinishedAt is set.
pub record Snapshot : Type 0 where
  pub nodes : List NodeStatus
  pub finished : Bool

-- `saved` is what storage was given, the latest first.
pub record Executor : Type 0 where
  pub node_status : List (String × Status)
  pub node_errors : List (String × Message)
  pub errs : List (String × Message)
  pub cancelled : Bool
  pub saved : List Snapshot

-- The parts of the executor that do not change; `persists`: its storage is not nil.
pub record Config (T : Type 0) : Type 0 where
  pub graph : Graph T
  pub retry : RetryPolicy
  pub persists : Bool

-- A round of the main loop or of the teardown loop.
pub data Stage : Type 0 where
  main teardown : ℕ → Stage

-- ctx.Err() at the head of a round; for a node, whether its context is done in the wait before an
-- attempt, and the error of the attempt; the order in which the goroutines of a round end.
pub record World (T : Type 0) : Type 0 where
  pub ctx_done : ℕ → Bool
  pub waits : Stage → String → ℕ → Bool
  pub runs : Stage → String → ℕ → Option String
  pub finish : Stage → List (Node T) → List (Node T)

pub data RunError : Type 0 where
  node_error : (id : String) → Message → RunError
  run_cancelled : RunError
  not_reached : ℕ → RunError

-- NewExecutor
unfoldable pub new_executor : Executor
new_executor = record {
  node_status = [];
  node_errors = [];
  errs = [];
  cancelled = false;
  saved = [];
}

-- MarkNodeDone
unfoldable pub mark_node_done : Executor → String → Executor
mark_node_done e id = record e { node_status = insert id done e.node_status }

abbrev pub is_done : Option Status → Bool
is_done (some done) = true
is_done _ = false

abbrev pub is_failed : Status → Bool
is_failed failed = true
is_failed _ = false

-- done, failed or cancelled
abbrev pub is_over : Option Status → Bool
is_over (some done) = true
is_over (some failed) = true
is_over (some cancelled) = true
is_over _ = false

-- no entry, or pending
abbrev pub is_pending : Option Status → Bool
is_pending none = true
is_pending (some pending) = true
is_pending _ = false

abbrev pub is_active : Status → Bool
is_active pending = true
is_active running = true
is_active _ = false

abbrev pub shown : Option Status → Status
shown none = pending
shown (some s) = s

module _ {T : Type 0} (cfg : Config T) where
  unfoldable pub node_statuses : Executor → Graph T → List NodeStatus
  node_statuses e [] = []
  node_statuses e (n ∷ ns) =
      record {
        id = n.id;
        status = shown (lookup n.id e.node_status);
        error = lookup n.id e.node_errors;
      }
      ∷ node_statuses e ns

  unfoldable pub snapshot : Executor → Snapshot
  unfolding node_statuses
  snapshot e =
      let nodes = node_statuses e cfg.graph in
      record { nodes = nodes; finished = not (any (λ s. is_active s.status) nodes) }

  -- An error of storage.Save is dropped by every caller.
  unfoldable pub save : Executor → Executor
  unfolding snapshot
  save e = if cfg.persists then record e { saved = snapshot e ∷ e.saved } else e

  unfoldable pub mark_done : Executor → String → Executor
  unfolding save
  mark_done e id = save (record e { node_status = insert id done e.node_status })

  unfoldable pub get_ready : Executor → List (Node T)
  get_ready e =
      if any (λ p. is_failed p.1) e.node_status
      then []
      else if e.cancelled
      then []
      else ready cfg.graph (λ id. is_done (lookup id e.node_status))

-- markFailed
unfoldable pub mark_failed : Executor → String → Message → Executor
mark_failed e id m = record e {
  node_status = insert id failed e.node_status;
  node_errors = insert id m e.node_errors;
  errs = e.errs ++ (id, m) ∷ [];
}

-- The branch of executeWithRetry that a done context takes.
unfoldable pub mark_interrupted : Executor → String → Executor
mark_interrupted e id = record e {
  node_status = insert id cancelled e.node_status;
  node_errors = insert id Message.cancelled_wait e.node_errors;
}

unfoldable pub has_failed_or_cancelled : Executor → Bool
has_failed_or_cancelled e = if e.cancelled then true else any (λ p. is_failed p.1) e.node_status

module _ {T : Type 0} where
  -- The nodes that are about to start.
  unfoldable pub mark_running : List (Node T) → List (String × Status) → List (String × Status)
  mark_running [] m = m
  mark_running (n ∷ ns) m = mark_running ns (insert n.id running m)

  -- The nodes that a cancelled run will not start.
  unfoldable pub mark_cancelled : List (Node T) → List (String × Status) → List (String × Status)
  mark_cancelled [] m = m
  mark_cancelled (n ∷ ns) m =
      mark_cancelled ns
        (if is_pending (lookup n.id m) && not n.always_run then insert n.id cancelled m else m)

module _ {T : Type 0} (cfg : Config T) (w : World T) where
  -- How executeWithRetry ends for a node. In the main loop a MustComplete node is given a
  -- background context, which is never done.
  unfoldable pub ending : Stage → Node T → Ending
  ending (main k) n =
      execute cfg.retry (w.runs (main k) n.id)
        (if n.must_complete then never else w.waits (main k) n.id)
  ending (teardown k) n = execute cfg.retry (w.runs (teardown k) n.id) (w.waits (teardown k) n.id)

  unfoldable pub settle : Executor → String → Ending → Executor
  unfolding mark_done mark_failed mark_interrupted
  settle e id succeeded = mark_done cfg e id
  settle e id (gave_up last) =
      mark_failed e id (Message.after_attempts (attempts_made cfg.retry) last)
  settle e id interrupted = mark_interrupted e id

  unfoldable pub settle_all : Stage → Executor → List (Node T) → Executor
  unfolding ending settle
  settle_all s e [] = e
  settle_all s e (n ∷ ns) = settle_all s (settle e n.id (ending s n)) ns

  -- One round of the main loop over the ready nodes.
  unfoldable pub round : ℕ → Executor → List (Node T) → Executor
  unfolding mark_running save settle_all
  round k e batch =
      settle_all (main k) (save cfg (record e { node_status = mark_running batch e.node_status }))
        (w.finish (main k) batch)

  unfoldable pub cancel_pending : Executor → Executor
  unfolding mark_cancelled save
  cancel_pending e =
      save cfg (record e { node_status = mark_cancelled cfg.graph e.node_status; cancelled = true })

  -- The loop of Run; `none` means that the fuel ran out.
  unfoldable pub main_loop : ℕ → ℕ → Executor → Option Executor
  unfolding cancel_pending get_ready round has_failed_or_cancelled
  main_loop zero k e = none
  main_loop (suc fuel) k e = elim (w.ctx_done k) [
    | true ↦ some (cancel_pending e)
    | false ↦ elim (get_ready cfg e) [
      | [] ↦ some e
      | n ∷ ns ↦
          let e' = round k e (n ∷ ns) in
          elim (has_failed_or_cancelled e') [
            | true ↦ some (save cfg e')
            | false ↦ main_loop fuel (suc k) e'
          ]
    ]
  ]

  -- One round of runAlwaysRunNodes.
  unfoldable pub teardown_round : ℕ → Executor → List (Node T) → Executor
  unfolding mark_running save settle_all
  teardown_round k e batch = save cfg (
      settle_all (teardown k) (record e { node_status = mark_running batch e.node_status })
        (w.finish (teardown k) batch))

  unfoldable pub run_always_run_nodes : ℕ → ℕ → Executor → Option Executor
  unfolding teardown_round
  run_always_run_nodes zero k e = none
  run_always_run_nodes (suc fuel) k e =
      elim (ready_always_run cfg.graph (λ id. is_over (lookup id e.node_status))) [
        | [] ↦ some e
        | n ∷ ns ↦ run_always_run_nodes fuel (suc k) (teardown_round k e (n ∷ ns))
      ]

-- The entries of nodeStatus that are done.
unfoldable pub count_done : List (String × Status) → ℕ
count_done [] = 0
count_done ((id, s) ∷ m) = let rest = count_done m in if is_done (some s) then suc rest else rest

-- The error that Run returns from its last state.
unfoldable pub run_error : {T : Type 0} → Graph T → Executor → Option RunError
unfolding count_done
run_error g e = elim e.errs [
  | (id, m) ∷ _ ↦ some (node_error id m)
  | [] ↦
      if e.cancelled
      then some run_cancelled
      else if ltb (count_done e.node_status) (length g)
      then some (not_reached (length g - count_done e.node_status))
      else none
]

-- Two rounds of teardown are the last one and the test that there is no other.
abbrev pub fuel_for : {T : Type 0} → Config T → ℕ
fuel_for cfg = suc (suc (length cfg.graph))

-- Run: the last state and the error. `none` means that the fuel ran out.
module _ {T : Type 0} (cfg : Config T) (w : World T) where
  unfoldable pub finish_run : Executor → Executor × Option RunError
  unfolding save run_error
  finish_run e = let e' = save cfg e in (e', run_error cfg.graph e')

  unfoldable pub after_loop : Executor → Option (Executor × Option RunError)
  unfolding has_failed_or_cancelled run_always_run_nodes finish_run
  after_loop e = elim (has_failed_or_cancelled e) [
    | true ↦ elim (run_always_run_nodes cfg w (fuel_for cfg) 0 e) [
      | none ↦ none
      | some e' ↦ some (finish_run e')
    ]
    | false ↦ some (finish_run e)
  ]

  unfoldable pub run : Executor → Option (Executor × Option RunError)
  unfolding main_loop after_loop
  run e = elim (main_loop cfg w (fuel_for cfg) 0 e) [ none ↦ none | some e' ↦ after_loop e' ]
