-- ===== src/Dag/Executor/Loop.antt =====
-- internal/core/dag/executor.go: the loop of Run ends, and what its rounds keep.
use hatchet_workflow.Base.{
  ℕ, zero, suc, ◌+◌, ◌<◌, ◌≤◌, String, Bool, true, false, ◌≡◌, refl, sym, ◌∙◌, ap, subst, List, [],
  ◌∷◌, Memᴰ, Memᴰ-cons, ◌⊎◌, inl, inr, Option, some, none, lookup, arith, Bool-cases, List-cases,
  Option-cases, ltb, ◌&&◌, if◌then◌else◌, length,
}
use hatchet_workflow.Base.Int.{ℤ}
use hatchet_workflow.Dag.Graph.{Node, Graph, ready}
use hatchet_workflow.Dag.Executor.Retry.{
  RetryPolicy, succeeded, gave_up, interrupted, attempts, execute, Ending, execute_with_retry,
  try_from, never,
}
use hatchet_workflow.Dag.Executor.{
  Status, done, Executor, Config, World, main, is_done, ending, get_ready, has_failed_or_cancelled,
  round, cancel_pending, main_loop, save,
}
use hatchet_workflow.Dag.Executor.Rounds.{
  IsFair, ended, any_failed, lookup_failed, Named, EndedBy, round-cases,
}
use hatchet_workflow.Dag.Executor.Ready.{ready_iff}

-- The contexts of the nodes are done only once the run's context is, which then stays done.
pub record IsCoherent {T : Type 0} (w : World T) : Type 0 where
  pub coherent :
      (k : ℕ) (id : String) (attempt : ℕ)
      → w.waits (main k) id attempt ≡ true
      → w.ctx_done (suc k) ≡ true

try_from-interrupted :
    (max_delay : ℤ) (runs : ℕ → Option String) (waits : ℕ → Bool) (left attempt : ℕ) (delay : ℤ)
    (last : Option String) (slept : List ℤ)
    → (try_from max_delay runs waits left attempt delay last slept).0 ≡ interrupted
    → (a : ℕ) × (waits a ≡ true)
unfolding try_from
try_from-interrupted max_delay runs waits zero attempt delay last slept h = cc
try_from-interrupted max_delay runs waits (suc left) attempt delay last slept h =
    elim (Bool-cases (ltb 0 attempt && waits attempt)) [
      | inl e ↦ (attempt, ground arith)
      | inr e ↦ elim (Option-cases (runs attempt)) [
        | inl fine ↦ cc (rw (e, try_from) at h)
        | inr (x, bad) ↦
            try_from-interrupted max_delay runs waits left (suc attempt) _ (some x) _
              (rw (bad, try_from) at (rw (e, try_from) at h))
      ]
    ]

-- An interrupted node has seen its context done.
pub execute-interrupted :
    (p : RetryPolicy) (runs : ℕ → Option String) (waits : ℕ → Bool)
    → execute p runs waits ≡ interrupted
    → (a : ℕ) × (waits a ≡ true)
unfolding execute execute_with_retry
execute-interrupted p runs waits h =
    try_from-interrupted p.max_delay runs waits (attempts p.max_retries) 0 p.base_delay none [] h

-- The nodes that are not done.
abbrev pub todo : {T : Type 0} → (String → Bool) → Graph T → ℕ
todo f [] = 0
todo f (n ∷ ns) = (if f n.id then 0 else 1) + todo f ns

pub todo-le-length : {T : Type 0} (f : String → Bool) (g : Graph T) → todo f g ≤ length g
todo-le-length f [] = omega arith
todo-le-length f (n ∷ g) = ground (arith, todo-le-length f g)

todo_mono :
    {T : Type 0} (f f' : String → Bool) (g : Graph T)
    → ((id : String) → f id ≡ true → f' id ≡ true)
    → todo f' g ≤ todo f g
todo_mono f f' [] h = omega arith
todo_mono f f' (n ∷ g) h = ground (arith, h n.id, todo_mono f f' g h)

pub todo_lt :
    {T : Type 0} (f f' : String → Bool) (g : Graph T) (n : Node T)
    → ((id : String) → f id ≡ true → f' id ≡ true)
    → Memᴰ n g
    → f n.id ≡ false
    → f' n.id ≡ true
    → todo f' g < todo f g
todo_lt f f' [] n h m old new = elim m [ ]
todo_lt f f' (x ∷ g) n h m old new = elim ((Memᴰ-cons n x g).0 m) [
  | inl e ↦
      let old' : f x.id ≡ false = subst (λ z. f z.id ≡ false) e old in
      let new' : f' x.id ≡ true = subst (λ z. f' z.id ≡ true) e new in
      ground (arith, todo_mono f f' g h)
  | inr later ↦ ground (arith, h x.id, todo_lt f f' g n h later old new)
]

module _ {T : Type 0} (cfg : Config T) (w : World T) where
  -- The done nodes of a state.
  abbrev pub done_in : Executor → String → Bool
  done_in e id = is_done (lookup id e.node_status)

  -- What get_ready returns is what Ready returns, in a state without failures.
  pub get_ready-cons :
      (e : Executor) (n : Node T) (ns : List (Node T))
      → get_ready cfg e ≡ n ∷ ns
      → (ready cfg.graph (done_in e) ≡ n ∷ ns)
        × (e.cancelled ≡ false)
        × (any_failed e.node_status ≡ false)
  unfolding get_ready
  get_ready-cons e n ns h = ground arith

  pub no_failure :
      (e : Executor)
      → has_failed_or_cancelled e ≡ false
      → (e.cancelled ≡ false) × (any_failed e.node_status ≡ false)
  unfolding has_failed_or_cancelled
  no_failure e h = ground arith

  pub ending-interrupted :
      (k : ℕ) (n : Node T)
      → ending cfg w (main k) n ≡ interrupted
      → (n.must_complete ≡ false) × ((a : ℕ) × (w.waits (main k) n.id a ≡ true))
  unfolding ending
  ending-interrupted k n h = elim (Bool-cases n.must_complete) [
    | inl e ↦
        let (a, bad) = execute-interrupted cfg.retry (w.runs (main k) n.id) never (rw e at h) in cc
    | inr e ↦ (
      e,
      execute-interrupted cfg.retry (w.runs (main k) n.id) (w.waits (main k) n.id) (rw e at h),
    )
  ]

  main_loop_over :
      (fuel k : ℕ) (e : Executor)
      → 0 < fuel
      → w.ctx_done k ≡ true
      → main_loop cfg w fuel k e ≡ some (cancel_pending cfg w e)
  unfolding main_loop
  main_loop_over zero k e h over = elim h [ ]
  main_loop_over (suc fuel) k e h over = rw (over, main_loop)

  -- The two ways on from a round.
  pub main_loop_next :
      (fuel k : ℕ) (e : Executor) (n : Node T) (ns : List (Node T))
      → w.ctx_done k ≡ false
      → get_ready cfg e ≡ n ∷ ns
      → (has_failed_or_cancelled (round cfg w k e (n ∷ ns)) ≡ true)
          × (main_loop cfg w (suc fuel) k e ≡ some (save cfg (round cfg w k e (n ∷ ns))))
        ⊎ (has_failed_or_cancelled (round cfg w k e (n ∷ ns)) ≡ false)
          × (main_loop cfg w (suc fuel) k e
              ≡ main_loop cfg w fuel (suc k) (round cfg w k e (n ∷ ns)))
  unfolding main_loop
  main_loop_next fuel k e n ns live got =
      elim (Bool-cases (has_failed_or_cancelled (round cfg w k e (n ∷ ns)))) [
        | inl bad ↦ inl (bad, rw (live, main_loop) (rw (got, main_loop) (rw (bad, main_loop))))
        | inr fine ↦ inr (fine, rw (live, main_loop) (rw (got, main_loop) (rw (fine, main_loop))))
      ]

  module _ (fair : IsFair w) (coh : IsCoherent w) where
    -- Unless a node failed or the context is done, all nodes of a round end done.
    round-done :
        (k : ℕ) (e : Executor) (b : List (Node T)) (id : String)
        → any_failed (round cfg w k e b).node_status ≡ false
        → w.ctx_done (suc k) ≡ false
        → EndedBy cfg w (main k) id b (round cfg w k e b).node_status
        → lookup id (round cfg w k e b).node_status ≡ some done
    round-done k e b id fine live h = by_ending (ending cfg w (main k) h.by.node) refl
      where
        after : List (String × Status)
        after = (round cfg w k e b).node_status

        by_ending : (x : Ending) → ending cfg w (main k) h.by.node ≡ x → lookup id after ≡ some done
        by_ending succeeded is = h.left ∙ ap (λ y. some (ended y)) is
        by_ending (gave_up last) is =
            let bad = lookup_failed after id (h.left ∙ ap (λ y. some (ended y)) is) in cc
        by_ending interrupted is =
            let waited = (ending-interrupted k h.by.node is).1 in
            let over = coh.coherent k h.by.node.id waited.0 waited.1 in cc

    -- A round that the loop goes on from leaves the done nodes done, and the started ones too.
    round_progress :
        (k : ℕ) (e : Executor) (n : Node T) (ns : List (Node T))
        → get_ready cfg e ≡ n ∷ ns
        → any_failed (round cfg w k e (n ∷ ns)).node_status ≡ false
        → w.ctx_done (suc k) ≡ false
        → todo (done_in (round cfg w k e (n ∷ ns))) cfg.graph < todo (done_in e) cfg.graph
    round_progress k e n ns got fine live =
        let (is, _, _) = get_ready-cons e n ns got in
        let first =
          (ready_iff cfg.graph (done_in e) n).0 (subst (Memᴰ n) (sym is) (Memᴰ.head refl)) in
        todo_lt (done_in e) (done_in e') cfg.graph n stays first.0 first.1.waiting
          (now n.id (record { node = n; listed = Memᴰ.head refl; named = refl }))
      where
        e' : Executor
        e' = round cfg w k e (n ∷ ns)

        now : (id : String) → Named id (n ∷ ns) → done_in e' id ≡ true
        now id named = elim (round-cases cfg w fair k e (n ∷ ns) id) [
          | inl (_, absent) ↦ absurd (absent named)
          | inr h ↦ ap is_done (round-done k e (n ∷ ns) id fine live h)
        ]

        stays : (id : String) → done_in e id ≡ true → done_in e' id ≡ true
        stays id old = elim (round-cases cfg w fair k e (n ∷ ns) id) [
          | inl (same, _) ↦ ap is_done same ∙ old
          | inr h ↦ ap is_done (round-done k e (n ∷ ns) id fine live h)
        ]

    -- While a node is ready, not every node is done.
    started :
        (e : Executor) (n : Node T) (ns : List (Node T))
        → get_ready cfg e ≡ n ∷ ns
        → 0 < todo (done_in e) cfg.graph
    started e n ns got =
        let (is, _, _) = get_ready-cons e n ns got in
        let first =
          (ready_iff cfg.graph (done_in e) n).0 (subst (Memᴰ n) (sym is) (Memᴰ.head refl)) in
        omega (
          arith,
          todo_lt (done_in e) (λ _. true) cfg.graph n (λ _ _. refl) first.0 first.1.waiting refl,
        )

    -- The loop of Run ends: each round that it goes on from makes a node done, and a context that
    -- is done ends it at the head of the next round.
    pub main_loop_returns :
        (fuel k : ℕ) (e : Executor)
        → todo (done_in e) cfg.graph < fuel
        → (r : Executor) × (main_loop cfg w fuel k e ≡ some r)
    unfolding main_loop
    main_loop_returns zero k e h = elim h [ ]
    main_loop_returns (suc fuel) k e h = elim (Bool-cases (w.ctx_done k)) [
      | inl over ↦ (cancel_pending cfg w e, rw (over, main_loop))
      | inr live ↦ elim (List-cases (get_ready cfg e)) [
        | inl idle ↦ (e, rw (live, main_loop) (rw (idle, main_loop)))
        | inr (n, ns, got) ↦ elim (main_loop_next fuel k e n ns live got) [
          | inl (_, stops) ↦ (save cfg (round cfg w k e (n ∷ ns)), stops)
          | inr (fine, goes_on) ↦
              let e' = round cfg w k e (n ∷ ns) in
              elim (Bool-cases (w.ctx_done (suc k))) [
                | inl over ↦
                    let pending = started e n ns got in
                    (
                      cancel_pending cfg w e',
                      goes_on ∙ main_loop_over fuel (suc k) e' (omega arith) over,
                    )
                | inr next ↦
                    let less = round_progress k e n ns got (no_failure e' fine).1 next in
                    let (r, ends) = main_loop_returns fuel (suc k) e' (omega arith) in
                    (r, goes_on ∙ ends)
              ]
        ]
      ]
    ]
