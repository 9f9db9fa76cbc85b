-- ===== src/Dag/Executor/Retry/Backoff.antt =====
-- internal/core/dag/executor.go: the delays of executeWithRetry double from BaseDelay up to MaxDelay.
use Prim.Native.Nat.{min}
use native.Mathlib.Nat.{two-pow-succ, mul-add, pow-zero, mul-one}
use hatchet_workflow.Base.{
  ℕ, zero, suc, ◌+◌, ◌*◌, ◌^◌, ◌<◌, ◌≤◌, String, Bool, true, ◌&&◌, ◌≡◌, refl, sym, ◌∙◌, ap, List,
  [], ◌∷◌, ◌++◌, ◌⊎◌, inl, inr, Option, some, none, arith, Bool-cases, Option-cases, ltb,
  if◌then◌else◌, subst, ltb→lt, ltb_false→le,
}
use hatchet_workflow.Base.Int.{ℤ, pos, ◌+ℤ◌}
use hatchet_workflow.Dag.Executor.Retry.{
  RetryPolicy, attempts, next_delay, try_from, execute_with_retry,
}

-- Below 2 ^ 63 a sum does not wrap around.
add_pos : (d : ℕ) → d + d < 2 ^ 63 → pos d +ℤ pos d ≡ pos (d + d)
unfolding ◌+ℤ◌
add_pos d h = ground arith

capped : (m x : ℕ) → (if ltb (m + 0) (x + 0) then pos m else pos x) ≡ pos (min m x)
capped m x = elim (Bool-cases (ltb (m + 0) (x + 0))) [
  | inl e ↦ rw e (ap pos (omega (arith, ltb→lt (m + 0) (x + 0) e)))
  | inr e ↦ rw e (ap pos (omega (arith, ltb_false→le (m + 0) (x + 0) e)))
]

next_delay_pos : (m d : ℕ) → d ≤ m → m < 2 ^ 62 → next_delay (pos m) (pos d) ≡ pos (min m (d + d))
unfolding next_delay
next_delay_pos m d h k = rw (add_pos d (omega arith)) (capped m (d + d))

ltb_zero_suc : (c : ℕ) → ltb 0 (suc c) ≡ true
ltb_zero_suc c = ground arith

module _ (base m : ℕ) where
  -- The delay before retry `k`, counted from 0.
  abbrev pub delay_at : ℕ → ℕ
  delay_at k = min m (base * 2 ^ k)

  -- The first `c` delays.
  abbrev pub delays : ℕ → List ℤ
  delays zero = []
  delays (suc c) = delays c ++ pos (delay_at c) ∷ []

  delay_at-suc : (k : ℕ) → min m (delay_at k + delay_at k) ≡ delay_at (suc k)
  delay_at-suc k =
      let e : base * 2 ^ suc k ≡ base * 2 ^ k + base * 2 ^ k =
        ap (λ x. base * x) (two-pow-succ k) ∙ mul-add base (2 ^ k) (2 ^ k) in
      omega arith

  -- Before attempt `a`: the delays slept, and the delay before the next retry.
  abbrev SleptAt : ℕ → ℤ → List ℤ → Type 0
  SleptAt zero delay slept = (slept ≡ []) × (delay ≡ pos base)
  SleptAt (suc c) delay slept = (slept ≡ delays c) × (delay ≡ pos (delay_at c))

  module _ (fits : base ≤ m) (small : m < 2 ^ 62) (runs : ℕ → Option String)
      (waits : ℕ → Bool) where
    delay_at-zero : delay_at 0 ≡ base
    delay_at-zero =
        let e : base * 2 ^ 0 ≡ base = ap (λ x. base * x) (pow-zero 2) ∙ mul-one base in omega arith

    SleptAt-suc :
        (a : ℕ) (delay : ℤ) (slept : List ℤ)
        → SleptAt a delay slept
        → SleptAt
            (suc a)
            (if ltb 0 a then next_delay (pos m) delay else delay)
            (if ltb 0 a then slept ++ delay ∷ [] else slept)
    SleptAt-suc zero delay slept (s, d) = (s, d ∙ ap pos (sym delay_at-zero))
    SleptAt-suc (suc c) delay slept (s, d) = rw (ltb_zero_suc c) (
      rw (s, d),
      rw d (next_delay_pos m (delay_at c) (omega arith) small ∙ ap pos (delay_at-suc c)),
    )

    -- Some of the first delays, fewer than `n`.
    abbrev Prefix : ℕ → List ℤ → Type 0
    Prefix n slept = (c : ℕ) × (slept ≡ delays c) × ((c ≡ 0) ⊎ (c < n))

    Prefix_of :
        (a n : ℕ) (delay : ℤ) (slept : List ℤ) → a ≤ n → SleptAt a delay slept → Prefix n slept
    Prefix_of zero n delay slept h (s, _) = (0, s, inl refl)
    Prefix_of (suc c) n delay slept h (s, _) = (c, s, inr h)

    try_from_slept :
        (left a : ℕ) (delay : ℤ) (last : Option String) (slept : List ℤ)
        → SleptAt a delay slept
        → Prefix (a + left) (try_from (pos m) runs waits left a delay last slept).1
    unfolding try_from
    try_from_slept zero a delay last slept s = Prefix_of a (a + 0) delay slept (omega arith) s
    try_from_slept (suc left) a delay last slept s = elim (Bool-cases (ltb 0 a && waits a)) [
      | inl stopped ↦
          rw (stopped, try_from) (Prefix_of a (a + suc left) delay slept (omega arith) s)
      | inr free ↦ elim (Option-cases (runs a)) [
        | inl fine ↦
            rw (free, try_from)
              (rw (fine, try_from)
                (Prefix_of (suc a) (a + suc left) _ _ (omega arith) (SleptAt-suc a delay slept s)))
        | inr (e, bad) ↦
            let same : suc a + left ≡ a + suc left = omega arith in
            let (c, is, few) =
              try_from_slept left (suc a) _ (some e) _ (SleptAt-suc a delay slept s) in
            rw (free, try_from)
              (rw (bad, try_from) (c, is, subst (λ z. (c ≡ 0) ⊎ (c < z)) same few))
      ]
    ]

-- The delays that executeWithRetry sleeps are the first of the sequence that starts at BaseDelay,
-- doubles, and stays at MaxDelay once it has reached it: delay `k` is min(MaxDelay, BaseDelay * 2^k).
-- They are fewer than the attempts. BaseDelay is at most MaxDelay, which is below 2^62 nanoseconds.
pub execute_with_retry-delays :
    (p : RetryPolicy) (base m : ℕ) (runs : ℕ → Option String) (waits : ℕ → Bool)
    → p.base_delay ≡ pos base
    → p.max_delay ≡ pos m
    → base ≤ m
    → m < 2 ^ 62
    → (c : ℕ) × ((execute_with_retry p runs waits).1 ≡ delays base m c)
      × ((c ≡ 0) ⊎ (c < attempts p.max_retries))
unfolding execute_with_retry
execute_with_retry-delays p base m runs waits is_base is_max fits small =
    let total : 0 + attempts p.max_retries ≡ attempts p.max_retries = omega arith in
    let (c, is, few) =
      try_from_slept base m fits small runs waits (attempts p.max_retries) 0 p.base_delay none []
        (refl, is_base) in
    rw is_max (c, is, subst (λ z. (c ≡ 0) ⊎ (c < z)) total few)
