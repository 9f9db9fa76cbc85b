-- ===== src/Dag/Samples.antt =====
-- A small graph and its runs, with the theorems about internal/core/dag at these inputs.
use hatchet_workflow.Base.{
  ℕ, String, Bool, true, false, ◌≡◌, ◌≢◌, refl, List, [], ◌∷◌, Memᴰ, ◌↔◌, ◌⊎◌, Option, some, none,
  lookup, arith, map, ◌==◌, ltb, if◌then◌else◌, insert, eq_iff, ◌&&◌, inl, inr, sym, subst,
  Memᴰ-cons, ◌<◌,
}
use hatchet_workflow.Base.Int.{pos, ◌+ℤ◌}
use hatchet_workflow.Dag.Graph.{Node, Graph, index, ready, ready_always_run, ok}
use hatchet_workflow.Dag.Graph.Lookup.{index-keys}
use hatchet_workflow.Dag.Graph.Unique.{HasUniqueIds}
use hatchet_workflow.Dag.Validate.{validate}
use hatchet_workflow.Dag.Validate.Edges.{Iterates, Acyclic}
use hatchet_workflow.Dag.Validate.Accepts.{Outcome, validate-Outcome, validate-ok_iff, AllKnown}
use hatchet_workflow.Dag.Executor.Retry.{
  default_retry_policy, Message, execute, attempts_made, attempts, execute_with_retry, Ending,
}
use hatchet_workflow.Dag.Executor.Retry.Attempts.{Allows, Tells, execute-Tells}
use hatchet_workflow.Dag.Executor.Retry.Backoff.{delays, execute_with_retry-delays}
use hatchet_workflow.Dag.Executor.{
  Executor, Config, World, main, RunError, new_executor, run, is_over, done, failed, ending,
}
use hatchet_workflow.Dag.Executor.Ready.{IsReady, ready_iff, ready_always_run_iff}
use hatchet_workflow.Dag.Executor.Attended.{Attended}
use hatchet_workflow.Dag.Executor.Blame.{new_executor-Blames}
use hatchet_workflow.Dag.Executor.Rounds.{Named, IsFair}
use hatchet_workflow.Dag.Executor.Loop.{IsCoherent}
use hatchet_workflow.Dag.Executor.Marks.{is_started}
use hatchet_workflow.Dag.Executor.Sane.{new_executor-IsSane}
use hatchet_workflow.Dag.Executor.Course.{IsRunnable}
use hatchet_workflow.Dag.Executor.Outcome.{run_tears_down, run-IsOrdered, run_success, run_reports}
use hatchet_workflow.Dag.Executor.Live.{run_live}
use hatchet_workflow.Dag.Executor.Critical.{run_keeps_critical, IsKept}

abbrev node : String → List String → Bool → Bool → Node (Unit {0})
node id deps always critical = record {
  id = id;
  type = id;
  deps = deps;
  always_run = always;
  must_complete = critical;
  task = none;
}

abbrev pub network : Node (Unit {0})
network = node "network" [] false true

abbrev pub run_stroppy : Node (Unit {0})
run_stroppy = node "run_stroppy" ("network" ∷ []) false false

abbrev pub cleanup : Node (Unit {0})
cleanup = node "teardown" ("run_stroppy" ∷ []) true false

abbrev pub sample : Graph (Unit {0})
sample = network ∷ run_stroppy ∷ cleanup ∷ []

abbrev pub order : List String
order = map (λ (n : Node (Unit {0})). n.id) sample

sample-Iterates : Iterates (index sample) order
sample-Iterates = record {
  covers = λ id. (index-keys sample id).1;
  keys = λ id. (index-keys sample id).0;
}

sample_unique : HasUniqueIds sample
sample_unique = (
  (
    ground (arith, eq_iff "run_stroppy" "network"),
    (ground (arith, eq_iff "teardown" "network"), tt),
  ),
  ((ground (arith, eq_iff "teardown" "run_stroppy"), tt), (tt, tt)),
)

abbrev pub cfg : Config (Unit {0})
cfg = record { graph = sample; retry = default_retry_policy; persists = true }

-- run_stroppy fails once, and all else succeeds.
abbrev pub calm : World (Unit {0})
calm = record {
  ctx_done = λ k. false;
  waits = λ s id a. false;
  runs = λ s id a. if id == "run_stroppy" && ltb a 1 then some "busy" else none;
  finish = λ s b. b;
}

program : Unit {0}
unfolding run validate index lookup insert new_executor default_retry_policy ready ready_always_run
    execute attempts_made ◌+ℤ◌
program = tt

sample-valid : validate sample order ≡ ok tt
unfolding program
sample-valid = refl

pub sample-IsRunnable : IsRunnable cfg order
sample-IsRunnable = record {
  unique = sample_unique;
  iterates = sample-Iterates;
  valid = sample-valid;
}

-- run_stroppy fails at each attempt.
abbrev broken : World (Unit {0})
broken = record {
  ctx_done = λ k. false;
  waits = λ s id a. false;
  runs = λ s id a. if id == "run_stroppy" then some "down" else none;
  finish = λ s b. b;
}

abbrev result_of : World (Unit {0}) → Executor × Option RunError
unfolding program
result_of w = elim (run cfg w new_executor) [ none ↦ (new_executor, none) | some p ↦ p ]

calm-run : run cfg calm new_executor ≡ some ((result_of calm).0, none)
unfolding program
calm-run = refl

broken-run :
    run cfg broken new_executor
    ≡ some (
      (result_of broken).0,
      some (RunError.node_error "run_stroppy" (Message.after_attempts (pos 4) (some "down"))),
    )
unfolding program
broken-run = refl

calm-IsFair : IsFair calm
calm-IsFair = record { finishes = λ s b n. (λ m. m, λ m. m) }

broken-IsFair : IsFair broken
broken-IsFair = record { finishes = λ s b n. (λ m. m, λ m. m) }

calm-IsCoherent : IsCoherent calm
calm-IsCoherent = record { coherent = λ k id a h. cc }

broken-IsCoherent : IsCoherent broken
broken-IsCoherent = record { coherent = λ k id a h. cc }

validate-Outcome_example : Outcome sample order
validate-Outcome_example = validate-Outcome sample order sample-Iterates

validate-ok_iff_example :
    (validate sample order ≡ ok tt) ↔ (AllKnown sample × Acyclic (index sample))
validate-ok_iff_example = validate-ok_iff sample order sample-Iterates

run_tears_down_example :
    (r : Executor) × (x : Option RunError) × (run cfg broken new_executor ≡ some (r, x))
    × ((n : Node (Unit {0}))
        → Memᴰ n sample
        → n.always_run ≡ true
        → (is_over (lookup n.id r.node_status) ≡ true) × Attended cfg broken new_executor r n)
run_tears_down_example =
    run_tears_down cfg broken broken-IsFair order sample-IsRunnable new_executor broken-IsCoherent
      (new_executor-IsSane cfg broken)

calm-started : is_started (lookup "run_stroppy" (result_of calm).0.node_status) ≡ true
unfolding program
calm-started = refl

broken-failed : lookup "run_stroppy" (result_of broken).0.node_status ≡ some failed
unfolding program
broken-failed = refl

run-IsOrdered_example : lookup "network" (result_of calm).0.node_status ≡ some done
run-IsOrdered_example =
    run-IsOrdered cfg calm calm-IsFair order sample-IsRunnable new_executor (result_of calm).0 none
      calm-IsCoherent (new_executor-IsSane cfg calm) calm-run run_stroppy "network"
      (Memᴰ.tail (Memᴰ.head refl)) refl calm-started (Memᴰ.head refl)

run_success_example : lookup "teardown" (result_of calm).0.node_status ≡ some done
run_success_example =
    run_success cfg calm calm-IsFair order sample-IsRunnable new_executor (result_of calm).0
      calm-IsCoherent (new_executor-IsSane cfg calm) calm-run cleanup
      (Memᴰ.tail (Memᴰ.tail (Memᴰ.head refl)))

run_reports_example :
    (j : String) × (m : Message) × (◌≡◌ {A = Option RunError}
      (some (RunError.node_error "run_stroppy" (Message.after_attempts (pos 4) (some "down"))))
      (some (RunError.node_error j m)))
    × Named j sample
    × (lookup j (result_of broken).0.node_status ≡ some failed)
run_reports_example =
    run_reports cfg broken broken-IsFair order sample-IsRunnable new_executor (result_of broken).0
      (some (RunError.node_error "run_stroppy" (Message.after_attempts (pos 4) (some "down"))))
      broken-IsCoherent (new_executor-IsSane cfg broken) (new_executor-Blames cfg broken) broken-run
      "run_stroppy" broken-failed

calm-succeeds :
    (k : ℕ) (n : Node (Unit {0})) → Memᴰ n sample → ending cfg calm (main k) n ≡ Ending.succeeded
unfolding program
calm-succeeds k n m = elim ((Memᴰ-cons n network (run_stroppy ∷ cleanup ∷ [])).0 m) [
  | inl e ↦ subst Succeeds (sym e) refl
  | inr m1 ↦ elim ((Memᴰ-cons n run_stroppy (cleanup ∷ [])).0 m1) [
    | inl e ↦ subst Succeeds (sym e) refl
    | inr m2 ↦ elim ((Memᴰ-cons n cleanup []).0 m2) [
      | inl e ↦ subst Succeeds (sym e) refl
      | inr m3 ↦ elim m3 [ ]
    ]
  ]
]
  where
    Succeeds : Node (Unit {0}) → Type 0
    Succeeds z = ending cfg calm (main k) z ≡ Ending.succeeded

run_live_example :
    (r : Executor) × (run cfg calm new_executor ≡ some (r, none))
    × ((n : Node (Unit {0})) → Memᴰ n sample → lookup n.id r.node_status ≡ some done)
run_live_example =
    run_live cfg calm calm-IsFair (λ k. refl) calm-succeeds order sample-IsRunnable calm-IsCoherent

-- The run is cancelled while network waits for its second attempt.
abbrev stopped : World (Unit {0})
stopped = record {
  ctx_done = λ k. ltb 0 k;
  waits = λ s id a. true;
  runs = λ s id a. if id == "network" && ltb a 2 then some "busy" else none;
  finish = λ s b. b;
}

stopped-IsFair : IsFair stopped
stopped-IsFair = record { finishes = λ s b n. (λ m. m, λ m. m) }

stopped-run :
    run cfg stopped new_executor ≡ some ((result_of stopped).0, some RunError.run_cancelled)
unfolding program
stopped-run = refl

new-IsKept : IsKept cfg stopped "network" new_executor
unfolding new_executor lookup
new-IsKept p = cc

run_keeps_critical_example :
    ◌≢◌ {A = Option Message}
      (lookup "network" (result_of stopped).0.node_errors)
      (some Message.cancelled_wait)
run_keeps_critical_example =
    run_keeps_critical cfg stopped stopped-IsFair sample_unique network (Memᴰ.head refl) refl refl
      new_executor (result_of stopped).0 (some RunError.run_cancelled) new-IsKept stopped-run

-- An attempt that always fails, under the default policy.
abbrev hopeless : ℕ → Option String
hopeless a = some "down"

execute-Tells_example :
    (n : ℕ) × Allows (pos 3) n
    × Tells hopeless (λ a. false) n (execute default_retry_policy hopeless (λ a. false))
unfolding default_retry_policy
execute-Tells_example = execute-Tells default_retry_policy hopeless (λ a. false)

default_delays :
    (execute_with_retry default_retry_policy hopeless (λ a. false)).1
    ≡ pos 5_000_000_000 ∷ pos 10_000_000_000 ∷ pos 20_000_000_000 ∷ []
unfolding program
default_delays = refl

execute_with_retry-delays_example :
    (c : ℕ) × ((execute_with_retry default_retry_policy hopeless (λ a. false)).1
      ≡ delays 5_000_000_000 60_000_000_000 c)
    × ((c ≡ 0) ⊎ (c < attempts (pos 3)))
unfolding default_retry_policy
execute_with_retry-delays_example =
    execute_with_retry-delays default_retry_policy 5_000_000_000 60_000_000_000 hopeless
      (λ a. false) refl refl (omega arith) (omega arith)

abbrev network_done : String → Bool
network_done id = id == "network"

ready_iff_example :
    Memᴰ run_stroppy (ready sample network_done)
    ↔ (Memᴰ run_stroppy sample × IsReady network_done run_stroppy)
ready_iff_example = ready_iff sample network_done run_stroppy

ready_always_run_iff_example :
    Memᴰ cleanup (ready_always_run sample network_done)
    ↔ (Memᴰ cleanup sample × (network_done cleanup.id ≡ false) × (cleanup.always_run ≡ true))
ready_always_run_iff_example = ready_always_run_iff sample network_done cleanup
