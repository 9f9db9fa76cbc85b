-- ===== src/Api/Runs/Cleanup.antt =====
-- internal/domain/api/server.go: whose containers cleanupRunResources removes, and whose runs cancelRun
-- cancels.
use hatchet_workflow.Base.{
  ◌≡◌, ◌≢◌, ◌∙◌, inl, inr, sym, some, lookup, Option-cases, refl, String, true, not, List, [], ◌∷◌,
  Memᴰ, arith, any, keep-Memᴰ, ◌==◌,
}
use hatchet_workflow.Base.Text.{
  join_assoc, join, has_prefix, trim_prefix, after_prefix, has_prefix_trans,
}
use hatchet_workflow.Api.Runs.{
  Container, Docker, Server, ok, load, load_run, container_prefix, is_of_run, cleanup_run_resources,
  cancel_run, cancel_tracked,
}

-- A text begins with itself, whatever follows, and under a text in front of both.
has_prefix-join : (p t : String) → has_prefix p (join p t) ≡ true
unfolding has_prefix after_prefix join
has_prefix-join String.[] t = refl
has_prefix-join (String.◌∷◌ c p) t = ground (arith, has_prefix-join p t)

has_prefix-join_left :
    (q p s : String) → has_prefix p s ≡ true → has_prefix (join q p) (join q s) ≡ true
unfolding has_prefix after_prefix join
has_prefix-join_left String.[] p s h = h
has_prefix-join_left (String.◌∷◌ c q) p s h = ground (arith, has_prefix-join_left q p s h)

-- The names of a run begin with those of each run whose name it extends after a dash.
longer_prefix :
    (run_id rest : String)
    → has_prefix (container_prefix run_id) (container_prefix (join run_id (join "-" rest))) ≡ true
unfolding container_prefix
longer_prefix run_id rest =
    has_prefix-join_left "stroppy-agent-" (join run_id "-") (join (join run_id (join "-" rest)) "-")
      (rw (join_assoc run_id (join "-" rest) "-") (
        has_prefix-join_left run_id "-" (join (join "-" rest) "-")
          (rw (join_assoc "-" rest "-") (has_prefix-join "-" (join rest "-")))))

any_of_longer :
    (run_id rest : String) (names : List String)
    → any
        (λ name. has_prefix (container_prefix (join run_id (join "-" rest))) (trim_prefix "/" name))
        names
      ≡ true
    → any (λ name. has_prefix (container_prefix run_id) (trim_prefix "/" name)) names ≡ true
any_of_longer run_id rest [] h = h
any_of_longer run_id rest (name ∷ names) h = ground (
  arith,
  h,
  any_of_longer run_id rest names,
  has_prefix_trans (container_prefix run_id) (container_prefix (join run_id (join "-" rest)))
      (trim_prefix "/" name) (longer_prefix run_id rest),
)

-- Removing the resources of a run removes the containers of every other run whose identifier is this
-- run's followed by a dash and anything.
pub cleanup_run_resources-longer :
    (run_id rest : String) (d : Docker) (c : Container)
    → is_of_run (join run_id (join "-" rest)) c ≡ true
    → ¬ Memᴰ c (cleanup_run_resources run_id d).containers
unfolding cleanup_run_resources is_of_run
cleanup_run_resources-longer run_id rest d c theirs there =
    let (stays, _) = keep-Memᴰ (λ (k : Container). not (is_of_run run_id k)) d.containers c there in
    let goes : is_of_run run_id c ≡ true = any_of_longer run_id rest c.names theirs in cc

cancel_run-tracked :
    (tenant run_id : String) (s : Server)
    → s.db_up ≡ true
    → cancel_run tenant run_id s ≡ cancel_tracked run_id s
unfolding cancel_run load_run
cancel_run-tracked tenant run_id s up = elim (Option-cases (load tenant run_id s.rows)) [
  | inl e ↦ ground (arith, up, e)
  | inr (snap, e) ↦ ground (arith, up, e)
]

-- While the database answers, whoever asks can cancel a run that is active: for a run tracked for one
-- tenant, the request of a user of any other tenant has the answer and the effect of the owner's
-- request, 200 with the run's context cancelled, whatever runs the two tenants have saved.
pub cancel_run-foreign :
    (owner tenant run_id : String) (s : Server)
    → s.db_up ≡ true
    → lookup run_id s.run_tenants ≡ some owner
    → tenant ≢ owner
    → any (λ id. id == run_id) s.run_cancels ≡ true
    → (cancel_run tenant run_id s ≡ cancel_run owner run_id s)
      × ((cancel_run tenant run_id s).0 ≡ ok)
      × Memᴰ run_id (cancel_run tenant run_id s).1.contexts_done
unfolding cancel_tracked
cancel_run-foreign owner tenant run_id s up owned other active =
    let mine = cancel_run-tracked owner run_id s up in
    let theirs = cancel_run-tracked tenant run_id s up in
    (
      theirs ∙ sym mine,
      rw (theirs, cancel_tracked, active) refl,
      rw (theirs, cancel_tracked, active) (Memᴰ.head refl),
    )
