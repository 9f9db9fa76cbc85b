-- ===== src/Dag/Executor/Teardown.antt =====
-- internal/core/dag/executor.go: runAlwaysRunNodes runs every AlwaysRun node that has not ended, in
-- one round, and leaves the others alone.
use hatchet_workflow.Base.{
  ℕ, suc, String, Bool, true, false, ◌≡◌, refl, sym, ◌∙◌, ap, subst, List, [], ◌∷◌, Memᴰ, inl, inr,
  some, lookup, arith, Bool-cases, List-cases,
}
use hatchet_workflow.Dag.Graph.{Node, ready_always_run}
use hatchet_workflow.Dag.Graph.Unique.{HasUniqueIds, HasUniqueIds-eq}
use hatchet_workflow.Dag.Executor.Retry.{Ending, succeeded, gave_up, interrupted}
use hatchet_workflow.Dag.Executor.{
  failed, ending, Executor, Config, World, Stage, teardown, is_over, is_done, settle, settle_all,
  mark_running, teardown_round, run_always_run_nodes,
}
use hatchet_workflow.Dag.Executor.Rounds.{
  IsFair, ended, any_failed, teardown_round-cases, save-status, save-errs, save-cancelled,
}
use hatchet_workflow.Dag.Executor.Blame.{Blames, Blames-batch}
use hatchet_workflow.Dag.Executor.Ready.{ready_always_run_iff}
use hatchet_workflow.Dag.Executor.Marks.{
  settle_all-cancelled, append_ne_nil, Reports, settle_all-Reports, mark_running-fine,
}

pub nil_of_no_mem {ℓ} : {A : Type ℓ} (xs : List A) → ((x : A) → ¬ Memᴰ x xs) → xs ≡ []
nil_of_no_mem [] h = refl
nil_of_no_mem (x ∷ xs) h = absurd (h x (Memᴰ.head refl))

module _ {T : Type 0} (cfg : Config T) (w : World T) where
  abbrev pub over_in : Executor → String → Bool
  over_in e id = is_over (lookup id e.node_status)

  -- What the teardown does to a state.
  pub record TornDown (e r : Executor) : Type 0 where
    -- every AlwaysRun node has ended
    pub all_over : (n : Node T) → Memᴰ n cfg.graph → n.always_run ≡ true → over_in r n.id ≡ true
    -- what had ended before keeps its status, and so do the nodes that are not AlwaysRun
    pub kept :
        (id : String) → over_in e id ≡ true → lookup id r.node_status ≡ lookup id e.node_status
    pub others :
        (n : Node T)
        → Memᴰ n cfg.graph
        → n.always_run ≡ false
        → lookup n.id r.node_status ≡ lookup n.id e.node_status
    -- an AlwaysRun node that had not ended before is left as its run in the teardown left it
    pub ran :
        (n : Node T)
        → Memᴰ n cfg.graph
        → n.always_run ≡ true
        → over_in e n.id ≡ false
        → (k : ℕ) × (lookup n.id r.node_status ≡ some (ended (ending cfg w (teardown k) n)))
    pub blames : Blames cfg w e → Blames cfg w r
    pub reports : Reports e → Reports r
    pub errs_grow : r.errs ≡ [] → e.errs ≡ []
    pub same_cancel : r.cancelled ≡ e.cancelled

  settle-errs :
      (e : Executor) (id : String) (x : Ending) → (settle cfg w e id x).errs ≡ [] → e.errs ≡ []
  unfolding settle
  settle-errs e id succeeded h = ground arith
  settle-errs e id (gave_up last) h = absurd (append_ne_nil e.errs _ h)
  settle-errs e id interrupted h = h

  settle_all-errs :
      (s : Stage) (e : Executor) (ns : List (Node T))
      → (settle_all cfg w s e ns).errs ≡ []
      → e.errs ≡ []
  unfolding settle_all
  settle_all-errs s e [] h = h
  settle_all-errs s e (n ∷ ns) h =
      settle-errs e n.id _ (settle_all-errs s (settle cfg w e n.id _) ns h)

  teardown_round-errs :
      (k : ℕ) (e : Executor) (b : List (Node T))
      → (teardown_round cfg w k e b).errs ≡ []
      → e.errs ≡ []
  unfolding teardown_round
  teardown_round-errs k e b h =
      let e' = record e { node_status = mark_running b e.node_status } in
      let last = settle_all cfg w (teardown k) e' (w.finish (teardown k) b) in
      settle_all-errs (teardown k) e' (w.finish (teardown k) b) (sym (save-errs cfg last) ∙ h)

  teardown_round-Reports :
      (k : ℕ) (e : Executor) (b : List (Node T)) → Reports e → Reports (teardown_round cfg w k e b)
  unfolding teardown_round
  teardown_round-Reports k e b h none_yet =
      let e' = record e { node_status = mark_running b e.node_status } in
      let last = settle_all cfg w (teardown k) e' (w.finish (teardown k) b) in
      ap any_failed (save-status cfg last)
      ∙ settle_all-Reports cfg w (teardown k) e' (w.finish (teardown k) b)
          (λ q. mark_running-fine cfg w b e.node_status (h q)) (sym (save-errs cfg last) ∙ none_yet)

  teardown_round-cancelled :
      (k : ℕ) (e : Executor) (b : List (Node T))
      → (teardown_round cfg w k e b).cancelled ≡ e.cancelled
  unfolding teardown_round
  teardown_round-cancelled k e b =
      let e' = record e { node_status = mark_running b e.node_status } in
      let last = settle_all cfg w (teardown k) e' (w.finish (teardown k) b) in
      save-cancelled cfg last ∙ settle_all-cancelled cfg w (teardown k) e' (w.finish (teardown k) b)

  abbrev waiting : Executor → List (Node T)
  waiting e = ready_always_run cfg.graph (over_in e)

  -- Nothing is left to run: the state is as it should be.
  TornDown-nil : (e : Executor) → waiting e ≡ [] → TornDown e e
  TornDown-nil e idle = record {
    all_over = λ n mem always. elim (Bool-cases (over_in e n.id)) [
      | inl over ↦ over
      | inr fresh ↦
          let here : Memᴰ n [] =
            subst (Memᴰ n) idle
              ((ready_always_run_iff cfg.graph (over_in e) n).1 (mem, fresh, always)) in
          elim here [ ]
    ];
    kept = λ id _. refl;
    others = λ n _ _. refl;
    ran = λ n mem always fresh.
        let here : Memᴰ n [] =
          subst (Memᴰ n) idle
            ((ready_always_run_iff cfg.graph (over_in e) n).1 (mem, fresh, always)) in
        elim here [ ];
    blames = λ h. h;
    reports = λ h. h;
    errs_grow = λ h. h;
    same_cancel = refl;
  }

  -- Where every node is done there is nothing to tear down.
  pub TornDown-of_done :
      (e : Executor)
      → ((n : Node T) → Memᴰ n cfg.graph → is_done (lookup n.id e.node_status) ≡ true)
      → TornDown e e
  TornDown-of_done e all_done = record {
    all_over = λ n mem always. done_over n.id (all_done n mem);
    kept = λ id _. refl;
    others = λ n _ _. refl;
    ran = λ n mem always fresh. let over = done_over n.id (all_done n mem) in cc;
    blames = λ h. h;
    reports = λ h. h;
    errs_grow = λ h. h;
    same_cancel = refl;
  }
    where
      done_over : (id : String) → is_done (lookup id e.node_status) ≡ true → over_in e id ≡ true
      done_over id h = ground arith

  module _ (fair : IsFair w) (unique : HasUniqueIds cfg.graph) (k : ℕ) (e : Executor) where
    abbrev after : Executor
    after = teardown_round cfg w k e (waiting e)

    is_waiting :
        (n : Node T)
        → Memᴰ n (waiting e)
        → Memᴰ n cfg.graph × (over_in e n.id ≡ false) × (n.always_run ≡ true)
    is_waiting n h = (ready_always_run_iff cfg.graph (over_in e) n).0 h

    over_ended : (x : Ending) → is_over (some (ended x)) ≡ true
    over_ended x = ground arith

    failed_kept :
        (id : String)
        → lookup id e.node_status ≡ some failed
        → lookup id after.node_status ≡ some failed
    failed_kept id bad = elim (teardown_round-cases cfg w fair k e (waiting e) id) [
      | inl (same, _) ↦ same ∙ bad
      | inr h ↦
          let (_, fresh, _) = is_waiting h.by.node h.by.listed in
          let fresh' = subst (λ z. over_in e z ≡ false) h.by.named fresh in cc (ap is_over bad)
    ]

    teardown_round-Blames : Blames cfg w e → Blames cfg w after
    unfolding teardown_round
    teardown_round-Blames =
        let b = waiting e in
        let e1 = record e { node_status = mark_running b e.node_status } in
        Blames-batch cfg w fair unique (teardown k) e e1 after b (λ n there. (is_waiting n there).0)
          refl (save-errs cfg _) (λ id. teardown_round-cases cfg w fair k e b id) failed_kept

    TornDown-round : TornDown e after
    TornDown-round = record {
      all_over = λ n mem always. elim (teardown_round-cases cfg w fair k e (waiting e) n.id) [
        | inr h ↦ ap is_over h.left ∙ over_ended _
        | inl (same, absent) ↦ elim (Bool-cases (over_in e n.id)) [
          | inl over ↦ ap is_over same ∙ over
          | inr fresh ↦ absurd (
              absent (record {
                node = n;
                listed = (ready_always_run_iff cfg.graph (over_in e) n).1 (mem, fresh, always);
                named = refl;
              }))
        ]
      ];
      kept = λ id over. elim (teardown_round-cases cfg w fair k e (waiting e) id) [
        | inl (same, _) ↦ same
        | inr h ↦
            let (_, fresh, _) = is_waiting h.by.node h.by.listed in
            let fresh' = subst (λ z. over_in e z ≡ false) h.by.named fresh in cc
      ];
      others = λ n mem plain. elim (teardown_round-cases cfg w fair k e (waiting e) n.id) [
        | inl (same, _) ↦ same
        | inr h ↦
            let (there, _, always) = is_waiting h.by.node h.by.listed in
            let one = HasUniqueIds-eq cfg.graph h.by.node n unique there mem h.by.named in
            let always' = subst (λ z. z.always_run ≡ true) one always in cc
      ];
      ran = λ n mem always fresh. elim (teardown_round-cases cfg w fair k e (waiting e) n.id) [
        | inr h ↦
            let (there, _, _) = is_waiting h.by.node h.by.listed in
            let one = HasUniqueIds-eq cfg.graph h.by.node n unique there mem h.by.named in
            (k, h.left ∙ ap (λ z. some (ended (ending cfg w (teardown k) z))) one)
        | inl (_, absent) ↦ absurd (
            absent (record {
              node = n;
              listed = (ready_always_run_iff cfg.graph (over_in e) n).1 (mem, fresh, always);
              named = refl;
            }))
      ];
      blames = teardown_round-Blames;
      reports = teardown_round-Reports k e (waiting e);
      errs_grow = teardown_round-errs k e (waiting e);
      same_cancel = teardown_round-cancelled k e (waiting e);
    }

    waiting_after : waiting after ≡ []
    waiting_after = nil_of_no_mem (waiting after) λ n h.
        let (mem, fresh, always) = (ready_always_run_iff cfg.graph (over_in after) n).0 h in
        let over = TornDown-round.all_over n mem always in cc

  -- The teardown ends after one round at most, and every AlwaysRun node has ended.
  pub run_always_run_nodes-TornDown :
      (fair : IsFair w) (unique : HasUniqueIds cfg.graph) (fuel k : ℕ) (e : Executor)
      → (r : Executor) × (run_always_run_nodes cfg w (suc (suc fuel)) k e ≡ some r) × TornDown e r
  unfolding run_always_run_nodes
  run_always_run_nodes-TornDown fair unique fuel k e = elim (List-cases (waiting e)) [
    | inl idle ↦ (e, rw (idle, run_always_run_nodes), TornDown-nil e idle)
    | inr (n, ns, is) ↦
        let e' = teardown_round cfg w k e (n ∷ ns) in
        let torn : TornDown e e' =
          subst (λ b. TornDown e (teardown_round cfg w k e b)) is
            (TornDown-round fair unique k e) in
        let idle : waiting e' ≡ [] =
          subst (λ b. waiting (teardown_round cfg w k e b) ≡ []) is
            (waiting_after fair unique k e) in
        (e', rw (is, run_always_run_nodes) (rw (idle, run_always_run_nodes)), torn)
  ]
