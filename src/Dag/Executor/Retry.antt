-- ===== src/Dag/Executor/Retry.antt =====
-- internal/core/dag/executor.go: RetryPolicy and the loop of executeWithRetry. A Duration is an
-- int64, so its doubling wraps around; task errors are their texts.
pub mod Attempts
pub mod Backoff
use hatchet_workflow.Base.{
  ℕ, zero, suc, ◌*◌, String, Bool, true, false, ◌&&◌, List, [], ◌∷◌, ◌++◌, Option, none, some, ltb,
  if◌then◌else◌,
}
use hatchet_workflow.Base.Int.{ℤ, pos, negsuc, ◌+ℤ◌, ltb_ℤ}

pub record RetryPolicy : Type 0 where
  pub max_retries : ℤ
  pub base_delay : ℤ
  pub max_delay : ℤ

abbrev pub second : ℕ
second = 1_000_000_000

-- DefaultRetryPolicy
unfoldable pub default_retry_policy : RetryPolicy
default_retry_policy = record {
  max_retries = pos 3;
  base_delay = pos (5 * second);
  max_delay = pos (60 * second);
}

-- The texts kept in nodeErrors: "cancelled", and "after %d attempts: %w".
pub data Message : Type 0 where
  cancelled_wait : Message
  after_attempts : (attempts : ℤ) (last : Option String) → Message

pub data Ending : Type 0 where
  succeeded : Ending
  gave_up : (last : Option String) → Ending
  interrupted : Ending

-- The rounds of `for attempt := 0; attempt <= MaxRetries; attempt++`.
abbrev pub attempts : ℤ → ℕ
attempts (pos n) = suc n
attempts (negsuc n) = 0

unfoldable pub attempts_made : RetryPolicy → ℤ
attempts_made p = p.max_retries +ℤ pos 1

-- delay *= 2, capped
unfoldable pub next_delay : ℤ → ℤ → ℤ
next_delay max_delay delay =
    let doubled = delay +ℤ delay in if ltb_ℤ max_delay doubled then max_delay else doubled

abbrev pub never : ℕ → Bool
never attempt = false

module _ (max_delay : ℤ) (runs : ℕ → Option String) (waits : ℕ → Bool) where
  -- The attempts that are left, the number of the next, the delay before a retry, the last error,
  -- and the delays slept so far.
  unfoldable pub try_from : (left attempt : ℕ) → ℤ → Option String → List ℤ → Ending × List ℤ
  unfolding next_delay
  try_from zero attempt delay last slept = (gave_up last, slept)
  try_from (suc left) attempt delay last slept = elim (ltb 0 attempt && waits attempt) [
    | true ↦ (interrupted, slept)
    | false ↦ elim (runs attempt) [
      | none ↦ (succeeded, if ltb 0 attempt then slept ++ delay ∷ [] else slept)
      | some e ↦
          try_from left (suc attempt) (if ltb 0 attempt then next_delay max_delay delay else delay)
            (some e) (if ltb 0 attempt then slept ++ delay ∷ [] else slept)
    ]
  ]

unfoldable pub execute_with_retry : RetryPolicy → (ℕ → Option String) → (ℕ → Bool) → Ending × List ℤ
unfolding try_from
execute_with_retry p runs waits =
    try_from p.max_delay runs waits (attempts p.max_retries) 0 p.base_delay none []

unfoldable pub execute : RetryPolicy → (ℕ → Option String) → (ℕ → Bool) → Ending
unfolding execute_with_retry
execute p runs waits = (execute_with_retry p runs waits).0
