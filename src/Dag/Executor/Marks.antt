-- ===== src/Dag/Executor/Marks.antt =====
-- internal/core/dag/executor.go: what marking nodes as running, done, failed or cancelled does to the
-- errors, the failures and the flag of the run.
use hatchet_workflow.Base.{
  String, Bool, true, false, ◌≡◌, ◌≢◌, refl, sym, ◌∙◌, ap, subst, List, [], ◌∷◌, ◌++◌, ◌⊎◌, inl,
  inr, Option, some, lookup, insert, arith, Bool-cases, not, ◌&&◌, String-cases,
}
use hatchet_workflow.Dag.Graph.{Node}
use hatchet_workflow.Dag.Executor.Retry.{Ending, succeeded, gave_up, interrupted}
use hatchet_workflow.Dag.Executor.{
  Status, running, done, failed, cancelled, Executor, Config, World, Stage, is_pending, settle,
  settle_all, mark_running, mark_cancelled,
}
use hatchet_workflow.Dag.Executor.Rounds.{
  any_failed, any_failed-insert, lookup-insert_self, lookup-insert_other,
}

-- The node was started: it runs, or it ran to its end.
abbrev pub is_started : Option Status → Bool
is_started (some running) = true
is_started (some done) = true
is_started (some failed) = true
is_started _ = false

-- A failed node is among the errors that Run returns.
abbrev pub Reports : Executor → Type 0
Reports e = e.errs ≡ [] → any_failed e.node_status ≡ false

pub append_ne_nil {ℓ} : {A : Type ℓ} (xs : List A) (x : A) → xs ++ x ∷ [] ≢ []
append_ne_nil [] x h = cc
append_ne_nil (y ∷ xs) x h = cc

module _ {T : Type 0} (cfg : Config T) (w : World T) where
  pub settle-Reports :
      (e : Executor) (id : String) (x : Ending) → Reports e → Reports (settle cfg w e id x)
  unfolding settle
  settle-Reports e id succeeded h none_yet =
      let m = any_failed-insert e.node_status id done in ground (arith, h, m)
  settle-Reports e id (gave_up last) h none_yet = absurd (append_ne_nil e.errs _ none_yet)
  settle-Reports e id interrupted h none_yet =
      let m = any_failed-insert e.node_status id cancelled in ground (arith, h, m)

  pub settle_all-Reports :
      (s : Stage) (e : Executor) (ns : List (Node T))
      → Reports e
      → Reports (settle_all cfg w s e ns)
  unfolding settle_all
  settle_all-Reports s e [] h = h
  settle_all-Reports s e (n ∷ ns) h =
      settle_all-Reports s (settle cfg w e n.id _) ns (settle-Reports e n.id _ h)

  pub mark_running-fine :
      (ns : List (Node T)) (m : List (String × Status))
      → any_failed m ≡ false
      → any_failed (mark_running ns m) ≡ false
  unfolding mark_running
  mark_running-fine [] m h = h
  mark_running-fine (n ∷ ns) m h =
      mark_running-fine ns (insert n.id running m) (any_failed-insert m n.id running h (λ e. cc))

  pub settle-cancelled :
      (e : Executor) (id : String) (x : Ending) → (settle cfg w e id x).cancelled ≡ e.cancelled
  unfolding settle
  settle-cancelled e id x = ground arith

  pub settle_all-cancelled :
      (s : Stage) (e : Executor) (ns : List (Node T))
      → (settle_all cfg w s e ns).cancelled ≡ e.cancelled
  unfolding settle_all
  settle_all-cancelled s e [] = refl
  settle_all-cancelled s e (n ∷ ns) =
      settle_all-cancelled s (settle cfg w e n.id _) ns ∙ settle-cancelled e n.id _

-- A node that a cancelled run marks was pending, and is cancelled.
pub mark_cancelled-cases :
    {T : Type 0} (ns : List (Node T)) (m : List (String × Status)) (id : String)
    → (lookup id (mark_cancelled ns m) ≡ lookup id m)
      ⊎ (lookup id (mark_cancelled ns m) ≡ some cancelled) × (is_pending (lookup id m) ≡ true)
unfolding mark_cancelled
mark_cancelled-cases [] m id = inl refl
mark_cancelled-cases (n ∷ ns) m id =
    elim (Bool-cases (is_pending (lookup n.id m) && not n.always_run)) [
      | inr skip ↦ rw (skip, mark_cancelled) (mark_cancelled-cases ns m id)
      | inl take ↦
          rw (take, mark_cancelled)
            (marked (first take) (mark_cancelled-cases ns (insert n.id cancelled m) id))
    ]
  where
    first :
        (is_pending (lookup n.id m) && not n.always_run) ≡ true → is_pending (lookup n.id m) ≡ true
    first take = ground arith

    marked :
        is_pending (lookup n.id m) ≡ true
        → (lookup id (mark_cancelled ns (insert n.id cancelled m))
            ≡ lookup id (insert n.id cancelled m))
          ⊎ (lookup id (mark_cancelled ns (insert n.id cancelled m)) ≡ some cancelled)
            × (is_pending (lookup id (insert n.id cancelled m)) ≡ true)
        → (lookup id (mark_cancelled ns (insert n.id cancelled m)) ≡ lookup id m)
          ⊎ (lookup id (mark_cancelled ns (insert n.id cancelled m)) ≡ some cancelled)
            × (is_pending (lookup id m) ≡ true)
    marked take h = elim (String-cases n.id id) [
      | inl same ↦
          let now = lookup-insert_self n.id id cancelled m same in
          elim h [
            | inl e ↦ inr (e ∙ now, subst (λ z. is_pending (lookup z m) ≡ true) same take)
            | inr (_, p) ↦ cc
          ]
      | inr ne ↦
          let other = lookup-insert_other n.id id cancelled m ne in
          elim h [ inl e ↦ inl (e ∙ other) | inr (e, p) ↦ inr (e, ap is_pending (sym other) ∙ p) ]
    ]

pub mark_cancelled-fine :
    {T : Type 0} (ns : List (Node T)) (m : List (String × Status))
    → any_failed m ≡ false
    → any_failed (mark_cancelled ns m) ≡ false
unfolding mark_cancelled
mark_cancelled-fine [] m h = h
mark_cancelled-fine (n ∷ ns) m h =
    elim (Bool-cases (is_pending (lookup n.id m) && not n.always_run)) [
      | inr skip ↦ rw (skip, mark_cancelled) (mark_cancelled-fine ns m h)
      | inl take ↦
          rw (take, mark_cancelled)
            (mark_cancelled-fine ns (insert n.id cancelled m)
              (any_failed-insert m n.id cancelled h (λ e. cc)))
    ]
