-- ===== src/Dag/Executor/Rounds.antt =====
-- internal/core/dag/executor.go: what a round of the executor does to the status of each node.
use hatchet_workflow.Base.{
  ℕ, String, Bool, true, false, ◌≡◌, ◌≢◌, refl, ap, ◌∙◌, List, [], ◌∷◌, Memᴰ, Memᴰ-cons, ◌⊎◌, inl,
  inr, ◌↔◌, some, lookup, insert, lookup-insert, arith, any, eq_refl, eq_false, String-cases,
}
use hatchet_workflow.Dag.Graph.{Node}
use hatchet_workflow.Dag.Executor.Retry.{Ending, succeeded, gave_up, interrupted}
use hatchet_workflow.Dag.Executor.{
  Status, running, done, failed, cancelled, Executor, Config, World, Stage, main, teardown,
  is_failed, save, mark_running, ending, settle, settle_all, round, teardown_round,
}

-- Every goroutine of a round ends, and no other.
pub record IsFair {T : Type 0} (w : World T) : Type 0 where
  pub finishes : (s : Stage) (b : List (Node T)) (n : Node T) → Memᴰ n (w.finish s b) ↔ Memᴰ n b

-- The status that an ending leaves.
abbrev pub ended : Ending → Status
ended succeeded = done
ended (gave_up last) = failed
ended interrupted = cancelled

abbrev pub any_failed : List (String × Status) → Bool
any_failed m = any (λ p. is_failed p.1) m

pub lookup_failed :
    (m : List (String × Status)) (id : String) → lookup id m ≡ some failed → any_failed m ≡ true
unfolding lookup
lookup_failed [] id h = cc
lookup_failed ((j, s) ∷ m) id h = ground (arith, lookup_failed m id)

pub any_failed-insert :
    (m : List (String × Status)) (id : String) (s : Status)
    → any_failed m ≡ false
    → s ≢ failed
    → any_failed (insert id s m) ≡ false
unfolding insert
any_failed-insert [] id s h ne = ground arith
any_failed-insert ((j, t) ∷ m) id s h ne = ground (arith, any_failed-insert m id s)

pub lookup-insert_self :
    (id j : String) (s : Status) (m : List (String × Status))
    → id ≡ j
    → lookup j (insert id s m) ≡ some s
lookup-insert_self id j s m e = rw (lookup-insert, e, eq_refl)

pub lookup-insert_other :
    (id j : String) (s : Status) (m : List (String × Status))
    → id ≢ j
    → lookup j (insert id s m) ≡ lookup j m
lookup-insert_other id j s m ne = rw (lookup-insert, eq_false id j ne)

module _ {T : Type 0} where
  -- A node of the list has the id.
  pub record Named (id : String) (ns : List (Node T)) : Type 0 where
    pub node : Node T
    pub listed : Memᴰ node ns
    pub named : node.id ≡ id

  pub not-Named-cons :
      (id : String) (n : Node T) (ns : List (Node T))
      → n.id ≢ id
      → ¬ Named id ns
      → ¬ Named id (n ∷ ns)
  not-Named-cons id n ns ne rest h = elim ((Memᴰ-cons h.node n ns).0 h.listed) [
    | inl e ↦ ne (rw e at (h.named))
    | inr later ↦ rest (record { node = h.node; listed = later; named = h.named })
  ]

  pub Named-tail : {id : String} {n : Node T} {ns : List (Node T)} → Named id ns → Named id (n ∷ ns)
  Named-tail h = record { node = h.node; listed = Memᴰ.tail h.listed; named = h.named }

  pub mark_running-cases :
      (ns : List (Node T)) (m : List (String × Status)) (id : String)
      → (lookup id (mark_running ns m) ≡ lookup id m) × (¬ Named id ns)
        ⊎ (lookup id (mark_running ns m) ≡ some running) × Named id ns
  unfolding mark_running
  mark_running-cases [] m id = inl (refl, λ h. elim h.listed [ ])
  mark_running-cases (n ∷ ns) m id = elim (mark_running-cases ns (insert n.id running m) id) [
    | inr (e, later) ↦ inr (e, Named-tail later)
    | inl (e, absent) ↦ elim (String-cases n.id id) [
      | inl same ↦ inr (
        e ∙ lookup-insert_self n.id id running m same,
        record { node = n; listed = Memᴰ.head refl; named = same },
      )
      | inr ne ↦
          inl (e ∙ lookup-insert_other n.id id running m ne, not-Named-cons id n ns ne absent)
    ]
  ]

  module _ (cfg : Config T) where
    pub save-status : (e : Executor) → (save cfg e).node_status ≡ e.node_status
    unfolding save
    save-status e = ground arith

    pub save-errs : (e : Executor) → (save cfg e).errs ≡ e.errs
    unfolding save
    save-errs e = ground arith

    pub save-errors : (e : Executor) → (save cfg e).node_errors ≡ e.node_errors
    unfolding save
    save-errors e = ground arith

    pub save-cancelled : (e : Executor) → (save cfg e).cancelled ≡ e.cancelled
    unfolding save
    save-cancelled e = ground arith

  module _ (cfg : Config T) (w : World T) where
    pub settle-status :
        (e : Executor) (id : String) (x : Ending)
        → (settle cfg w e id x).node_status ≡ insert id (ended x) e.node_status
    unfolding settle
    settle-status e id x = ground arith

    -- A node of the list ended as it does in this stage.
    pub record EndedBy (s : Stage) (id : String) (ns : List (Node T)) (m : List (String × Status))
        : Type 0 where
      pub by : Named id ns
      pub left : lookup id m ≡ some (ended (ending cfg w s by.node))

    EndedBy-tail :
        {s : Stage} {id : String} {n : Node T} {ns : List (Node T)} {m : List (String × Status)}
        → EndedBy s id ns m
        → EndedBy s id (n ∷ ns) m
    unfolding Named-tail
    EndedBy-tail h = record { by = Named-tail h.by; left = h.left }

    settle_self :
        (e : Executor) (n : Node T) (x : Ending) (id : String)
        → n.id ≡ id
        → lookup id (settle cfg w e n.id x).node_status ≡ some (ended x)
    settle_self e n x id same =
        ap (lookup id) (settle-status e n.id x)
        ∙ lookup-insert_self n.id id (ended x) e.node_status same

    settle-other :
        (e : Executor) (n : Node T) (x : Ending) (id : String)
        → n.id ≢ id
        → lookup id (settle cfg w e n.id x).node_status ≡ lookup id e.node_status
    settle-other e n x id ne =
        ap (lookup id) (settle-status e n.id x)
        ∙ lookup-insert_other n.id id (ended x) e.node_status ne

    pub settle_all-cases :
        (s : Stage) (e : Executor) (ns : List (Node T)) (id : String)
        → (lookup id (settle_all cfg w s e ns).node_status ≡ lookup id e.node_status)
            × (¬ Named id ns)
          ⊎ EndedBy s id ns (settle_all cfg w s e ns).node_status
    unfolding settle_all
    settle_all-cases s e [] id = inl (refl, λ h. elim h.listed [ ])
    settle_all-cases s e (n ∷ ns) id =
        let x = ending cfg w s n in
        elim (settle_all-cases s (settle cfg w e n.id x) ns id) [
          | inr h ↦ inr (EndedBy-tail h)
          | inl (e1, absent) ↦ elim (String-cases n.id id) [
            | inl same ↦ inr (record {
              by = record { node = n; listed = Memᴰ.head refl; named = same };
              left = e1 ∙ settle_self e n x id same;
            })
            | inr ne ↦ inl (e1 ∙ settle-other e n x id ne, not-Named-cons id n ns ne absent)
          ]
        ]

    module _ (fair : IsFair w) where
      Named-finish :
          (s : Stage) (b : List (Node T)) (id : String)
          → (Named id (w.finish s b) → Named id b) × (Named id b → Named id (w.finish s b))
      Named-finish s b id = (
        λ h. record {
          node = h.node;
          listed = (fair.finishes s b h.node).0 h.listed;
          named = h.named;
        },
        λ h. record {
          node = h.node;
          listed = (fair.finishes s b h.node).1 h.listed;
          named = h.named;
        },
      )

      -- What starts in a round ends in it; the other nodes keep their status.
      pub batch-cases :
          (s : Stage) (e e' : Executor) (b : List (Node T)) (id : String)
          → e'.node_status ≡ mark_running b e.node_status
          → (lookup id (settle_all cfg w s e' (w.finish s b)).node_status ≡ lookup id e.node_status)
              × (¬ Named id b)
            ⊎ EndedBy s id b (settle_all cfg w s e' (w.finish s b)).node_status
      unfolding Named-finish
      batch-cases s e e' b id marked = elim (settle_all-cases s e' (w.finish s b) id) [
        | inr h ↦ inr (record { by = (Named-finish s b id).0 h.by; left = h.left })
        | inl (kept, absent) ↦ elim (mark_running-cases b e.node_status id) [
          | inl (same, out) ↦ inl (kept ∙ ap (lookup id) marked ∙ same, out)
          | inr (_, named) ↦ absurd (absent ((Named-finish s b id).1 named))
        ]
      ]

      pub round-cases :
          (k : ℕ) (e : Executor) (b : List (Node T)) (id : String)
          → (lookup id (round cfg w k e b).node_status ≡ lookup id e.node_status) × (¬ Named id b)
            ⊎ EndedBy (main k) id b (round cfg w k e b).node_status
      unfolding round
      round-cases k e b id =
          batch-cases (main k) e
            (save cfg (record e { node_status = mark_running b e.node_status })) b id
            (save-status cfg (record e { node_status = mark_running b e.node_status }))

      pub teardown_round-cases :
          (k : ℕ) (e : Executor) (b : List (Node T)) (id : String)
          → (lookup id (teardown_round cfg w k e b).node_status ≡ lookup id e.node_status)
              × (¬ Named id b)
            ⊎ EndedBy (teardown k) id b (teardown_round cfg w k e b).node_status
      unfolding teardown_round
      teardown_round-cases k e b id =
          let e' = record e { node_status = mark_running b e.node_status } in
          let last = settle_all cfg w (teardown k) e' (w.finish (teardown k) b) in
          elim (batch-cases (teardown k) e e' b id refl) [
            | inl (kept, out) ↦ inl (ap (lookup id) (save-status cfg last) ∙ kept, out)
            | inr h ↦
                inr (record { by = h.by; left = ap (lookup id) (save-status cfg last) ∙ h.left })
          ]
