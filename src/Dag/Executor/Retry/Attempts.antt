-- ===== src/Dag/Executor/Retry/Attempts.antt =====
-- internal/core/dag/executor.go: how the loop of executeWithRetry ends, for every sequence of task
-- results and of context states.
use hatchet_workflow.Base.{
  ℕ, zero, suc, ◌+◌, ◌<◌, String, Bool, true, false, ◌&&◌, ◌≡◌, refl, sym, ◌∙◌, ap, List, [], ◌⊎◌,
  inl, inr, Option, some, none, arith, Bool-cases, Option-cases, ltb, subst, ℕ_discrete,
}
use hatchet_workflow.Base.Int.{ℤ, pos, negsuc}
use hatchet_workflow.Dag.Executor.Retry.{
  RetryPolicy, Ending, succeeded, gave_up, interrupted, attempts, try_from, execute_with_retry,
  execute,
}

module _ (runs : ℕ → Option String) (waits : ℕ → Bool) where
  -- The attempts below `k` were made, and failed, and no wait before them saw its context done.
  pub record Tried (k : ℕ) : Type 0 where
    pub failed_at : (i : ℕ) → i < k → (e : String) × (runs i ≡ some e)
    pub unstopped : (i : ℕ) → 0 < i → i < k → waits i ≡ false

  -- The error of the last of `n` attempts.
  abbrev pub last_error : ℕ → Option String
  last_error zero = none
  last_error (suc n) = runs n

  -- What `n` attempts come to.
  pub data Tells (n : ℕ) : Ending → Type 0 where
    -- an attempt succeeds, the ones before it failed, and no wait was stopped
    wins :
        (k : ℕ) → k < n → Tried k → (k ≡ 0) ⊎ (waits k ≡ false) → runs k ≡ none → Tells n succeeded
    -- the context is done in the wait before an attempt
    stops : (k : ℕ) → 0 < k → k < n → Tried k → waits k ≡ true → Tells n interrupted
    -- all attempts fail
    loses : {last : Option String} → Tried n → last ≡ last_error n → Tells n (gave_up last)

  Tried-suc :
      (k : ℕ) (e : String) → Tried k → (k ≡ 0) ⊎ (waits k ≡ false) → runs k ≡ some e → Tried (suc k)
  Tried-suc k e t w bad = record { failed_at = failed_below; unstopped = unstopped_below }
    where
      failed_below : (i : ℕ) → i < suc k → (x : String) × (runs i ≡ some x)
      failed_below i h = elim (ℕ_discrete i k) [
        | yes same ↦ (e, ap runs same ∙ bad)
        | no other ↦ t.failed_at i (omega arith)
      ]

      unstopped_below : (i : ℕ) → 0 < i → i < suc k → waits i ≡ false
      unstopped_below i p h = elim (ℕ_discrete i k) [
        | no other ↦ t.unstopped i p (omega arith)
        | yes same ↦ elim w [ inl nought ↦ absurd (omega arith) | inr free ↦ ap waits same ∙ free ]
      ]

  no_wait : (a : ℕ) → (ltb 0 a && waits a) ≡ false → (a ≡ 0) ⊎ (waits a ≡ false)
  no_wait zero h = inl refl
  no_wait (suc a) h = inr (ground arith)

  module _ (max_delay : ℤ) (n : ℕ) where
    try_from-Tells :
        (left a : ℕ) (delay : ℤ) (last : Option String) (slept : List ℤ)
        → a + left ≡ n
        → Tried a
        → last ≡ last_error a
        → Tells n (try_from max_delay runs waits left a delay last slept).0
    unfolding try_from
    try_from-Tells zero a delay last slept total t is =
        let all : a ≡ n = omega arith in subst (λ m. Tells m (gave_up last)) all (loses t is)
    try_from-Tells (suc left) a delay last slept total t is =
        elim (Bool-cases (ltb 0 a && waits a)) [
          | inl stopped ↦
              rw (stopped, try_from) (stops a (ground arith) (omega arith) t (ground arith))
          | inr free ↦ elim (Option-cases (runs a)) [
            | inl fine ↦
                rw (free, try_from)
                  (rw (fine, try_from) (wins a (omega arith) t (no_wait a free) fine))
            | inr (e, bad) ↦
                rw (free, try_from)
                  (rw (bad, try_from)
                    (try_from-Tells left (suc a) _ (some e) _ (omega arith)
                      (Tried-suc a e t (no_wait a free) bad) (sym bad)))
          ]
        ]

-- How often a task may be tried: once, and once more for each retry that is allowed, and not at all
-- under a negative number of retries.
pub data Allows : (max_retries : ℤ) (n : ℕ) → Type 0 where
  tries : (retries : ℕ) → Allows (pos retries) (suc retries)
  nothing : (k : ℕ) → Allows (negsuc k) 0

attempts-Allows : (z : ℤ) → Allows z (attempts z)
attempts-Allows (pos n) = tries n
attempts-Allows (negsuc n) = nothing n

-- executeWithRetry may make MaxRetries + 1 attempts (none if MaxRetries is negative). It succeeds at the
-- first attempt that succeeds, is interrupted by a context that is done in the wait before an
-- attempt, and gives up with the error of the last attempt only when all of these attempts were
-- made and failed.
pub execute-Tells :
    (p : RetryPolicy) (runs : ℕ → Option String) (waits : ℕ → Bool)
    → (n : ℕ) × Allows p.max_retries n × Tells runs waits n (execute p runs waits)
unfolding execute execute_with_retry
execute-Tells p runs waits = (
  attempts p.max_retries,
  attempts-Allows p.max_retries,
  try_from-Tells runs waits p.max_delay (attempts p.max_retries) (attempts p.max_retries) 0
      p.base_delay none [] (omega arith)
      (record { failed_at = λ i h. elim h [ ]; unstopped = λ i q h. elim h [ ] }) refl,
)
