-- ===== src/Api/Runs/Orphans.antt =====
-- internal/domain/api/server.go: which containers of agents the start of the server leaves behind.
use hatchet_workflow.Base.{
  ◌≡◌, sym, subst, String, true, false, not, Memᴰ, arith, any-Memᴰ, map, any-false, keep-Memᴰ,
}
use hatchet_workflow.Base.Text.{has_prefix, trim_prefix}
use hatchet_workflow.Api.Runs.{
  Row, Server, Container, recover_or_cleanup_runs, recovered, cleanup_orphaned_containers,
  container_prefix, is_orphan, is_orphan_name,
}
use hatchet_workflow.Api.Runs.Recovered.{recover_or_cleanup_runs_lem}

-- When RecoverOrCleanupRuns returns, if the database answered, each name of a container that is left and
-- that begins as the agents' containers do begins with the container prefix of a run whose recovery
-- it has started.
pub recover_or_cleanup_runs-orphans :
    (s : Server) (c : Container) (name : String)
    → s.db_up ≡ true
    → Memᴰ c (recover_or_cleanup_runs s).0.docker.containers
    → Memᴰ name c.names
    → has_prefix "stroppy-agent-" (trim_prefix "/" name) ≡ true
    → (id : String) × Memᴰ id (map (λ (row : Row). row.id) (recover_or_cleanup_runs s).1)
      × (has_prefix (container_prefix id) (trim_prefix "/" name) ≡ true)
unfolding cleanup_orphaned_containers is_orphan is_orphan_name
recover_or_cleanup_runs-orphans s c name up there named agent =
    let now = recover_or_cleanup_runs_lem s up in
    let active = map (λ (row : Row). row.id) (recovered s).1 in
    let (left, _) =
      keep-Memᴰ (λ (k : Container). not (is_orphan active k)) (recovered s).0.docker.containers c
        (subst (λ t. Memᴰ c t.0.docker.containers) now there) in
    let fine : is_orphan_name active (trim_prefix "/" name) ≡ false =
      any-false (λ n. is_orphan_name active (trim_prefix "/" n)) c.names name (ground (arith, left))
        named in
    let (id, among, fits) =
      any-Memᴰ (λ i. has_prefix (container_prefix i) (trim_prefix "/" name)) active
        (ground (arith, fine, agent)) in
    (id, subst (λ t. Memᴰ id (map (λ (row : Row). row.id) t.1)) (sym now) among, fits)
