-- ===== src/Api/Samples.antt =====
-- Requests and reports, with the theorems about internal/domain/api at these inputs.
use hatchet_workflow.Base.{
  sym, map, ◌≢◌, eq_iff, ◌+◌, arith, ◌≤◌, Memᴰ-cons, lookup, subst, inl, inr, ◌↔◌, String, true,
  false, ◌≡◌, refl, List, [], ◌∷◌, none, some, if◌then◌else◌, get_elem?-Memᴰ, ◌==◌, Memᴰ,
}
use hatchet_workflow.Base.Text.{join, trim_prefix, has_prefix}
use hatchet_workflow.Base.Int.{pos}
use hatchet_workflow.Dag.Executor.Live.{RestSucceeds}
use hatchet_workflow.Dag.Executor.Rounds.{IsFair}
use hatchet_workflow.Dag.Executor.Loop.{IsCoherent}
use hatchet_workflow.Dag.Executor.Retry.{succeeded, execute, default_retry_policy}
use hatchet_workflow.Dag.Executor.{World, main, ending, Status, Executor}
use hatchet_workflow.Dag.Graph.{Node}
use hatchet_workflow.Dag.Samples.{
  network, run_stroppy, cleanup, sample, order, cfg, calm, sample-IsRunnable,
}
use hatchet_workflow.Run.Types.{postgres}
use hatchet_workflow.Settings.{TenantQuotas, validate_quotas}
use hatchet_workflow.Api.Start.{StartRequest, active_runs, run_start}
use hatchet_workflow.Api.Start.Limit.{starts, begins, Orderly-WithinLimit}
use hatchet_workflow.Api.Recover.{resume, resume-live, saved_done, is_saved_done, Closed}
use hatchet_workflow.Run.State.{RunState}
use hatchet_workflow.Api.Runs.{
  Row, Saved, SavedNode, Container, track, Server, ok, load, save, delete, is_row, is_of_run,
  container_prefix, cleanup_run_resources, cancel_run, recover_or_cleanup_runs,
}
use hatchet_workflow.Api.Hub.{WsClient, broadcast, log_message, is_dash}
use hatchet_workflow.Api.Hub.Isolated.{Agree, has_dash, log_message-receivers}
use hatchet_workflow.Api.Runs.Storage.{load-View, assign}
use hatchet_workflow.Api.Runs.Cleanup.{cleanup_run_resources-longer, cancel_run-foreign}
use hatchet_workflow.Api.Runs.Recovered.{IsResumed, recover_or_cleanup_runs-settled}
use hatchet_workflow.Api.Runs.Orphans.{recover_or_cleanup_runs-orphans}
use hatchet_workflow.Auth.{Claims, Handler, stopped, Request, Verifier, claims_of, credentials}
use hatchet_workflow.Api.Access.{Route, Guard, get, router, serve}
use hatchet_workflow.Api.Access.Endpoints.{Endpoint, list_runs, audience}
use hatchet_workflow.Api.Access.Policy.Paths.{literal}
use hatchet_workflow.Api.Access.Policy.{serve-granted, outcome, granted, identity, shown}

abbrev viewer : Claims
viewer = record {
  user_id = "u1";
  username = "ann";
  tenant_id = "t1";
  role = "viewer";
  is_root = false;
}

abbrev by_ann : Verifier
by_ann = record {
  parse = λ token. if token == "ann" then some viewer else none;
  hash = λ token. token;
  rows = none;
}

abbrev asks_runs : Request
asks_runs = record { method = "GET"; path = "/api/v1/runs"; authorization = ""; token = "ann" }

abbrev runs_route : Route
runs_route = record {
  method = get;
  pattern = "/api/v1/runs";
  endpoint = list_runs;
  guards = Guard.tenant_required ∷ [];
}

runs_mounted : Memᴰ runs_route (router false)
unfolding router join
runs_mounted = get_elem?-Memᴰ runs_route (router false) 17 refl

-- An answer for the paths of no route.
abbrev teapot : Request → Handler Endpoint
teapot r claims = stopped 404 "not found"

serve-granted_example :
    outcome (serve (λ r. some runs_route) teapot by_ann asks_runs) ≡ some (list_runs, some viewer)
unfolding granted audience identity shown credentials claims_of trim_prefix join has_prefix literal
serve-granted_example =
    serve-granted (λ r. some runs_route) teapot by_ann asks_runs runs_route refl runs_mounted
      (refl, λ e. refl)

-- Three runs: one whose container still runs, one whose container is gone, and one that is over.
abbrev saved_state : List String → RunState
saved_state cids = record {
  provider = "docker";
  run_config = "{}";
  targets = [];
  container_ids = cids;
  network_id = "";
  db_host = "";
  db_port = pos 0;
  effective_configs = [];
}

abbrev half_done : List String → Saved
half_done cids = record {
  nodes =
      record { id = "network"; status = Status.done; error = "" }
      ∷ record { id = "machines"; status = Status.pending; error = "" }
      ∷ [];
  state = some (saved_state cids);
}

abbrev alive : Container
alive = record { cid = "c1"; names = "/stroppy-agent-run-1-database-0" ∷ []; is_running = true }

abbrev stray : Container
stray = record { cid = "c2"; names = "/stroppy-agent-run-1-b-database-0" ∷ []; is_running = true }

abbrev lost : Container
lost = record { cid = "c3"; names = "/stroppy-agent-run-9-database-0" ∷ []; is_running = false }

abbrev restarted : Server
restarted = record {
  rows =
      record { id = "run-1"; tenant_id = "t1"; snapshot = half_done ("c1" ∷ []) }
      ∷ record { id = "run-2"; tenant_id = "t1"; snapshot = half_done ("c7" ∷ []) }
      ∷ [];
  docker = record { containers = alive ∷ lost ∷ []; networks = "stroppy-run-2" ∷ [] };
  run_cancels = [];
  run_tenants = [];
  contexts_done = [];
  cancelled_runs = [];
  db_up = true;
}

load-View_example :
    (load "t1" "run-2" (save "t1" "run-1" (half_done []) (restarted.rows))
      ≡ some (half_done ("c7" ∷ [])))
    × (load "t1" "run-2" (delete "t1" "run-1" (restarted.rows)) ≡ some (half_done ("c7" ∷ [])))
unfolding assign load is_row
load-View_example = load-View "t1" "run-1" (half_done []) (restarted.rows) "t1" "run-2"

recover_or_cleanup_runs-settled_example :
    IsResumed "t1" "run-1" (recover_or_cleanup_runs restarted).1
unfolding recover_or_cleanup_runs load is_row
recover_or_cleanup_runs-settled_example =
    recover_or_cleanup_runs-settled restarted "t1" "run-1" (half_done ("c1" ∷ [])) refl refl refl

recover_or_cleanup_runs-orphans_example :
    (id : String) × Memᴰ id (map (λ (row : Row). row.id) (recover_or_cleanup_runs restarted).1)
    × (has_prefix (container_prefix id) (trim_prefix "/" "/stroppy-agent-run-1-database-0") ≡ true)
unfolding recover_or_cleanup_runs has_prefix join trim_prefix
recover_or_cleanup_runs-orphans_example =
    recover_or_cleanup_runs-orphans restarted alive "/stroppy-agent-run-1-database-0" refl
      (Memᴰ.head refl) (Memᴰ.head refl) refl

cleanup_run_resources-longer_example :
    ¬ Memᴰ stray
      (cleanup_run_resources "run-1"
        (record { containers = alive ∷ stray ∷ []; networks = [] })).containers
unfolding is_of_run has_prefix join trim_prefix
cleanup_run_resources-longer_example =
    cleanup_run_resources-longer "run-1" "b"
      (record { containers = alive ∷ stray ∷ []; networks = [] }) stray refl

abbrev busy : Server
busy = record restarted { run_cancels = "run-1" ∷ []; run_tenants = ("run-1", "t1") ∷ [] }

other_tenant : ◌≢◌ {A = String} "t2" "t1"
other_tenant e = ground (arith, eq_iff "t2" "t1")

cancel_run-foreign_example :
    (cancel_run "t2" "run-1" busy ≡ cancel_run "t1" "run-1" busy)
    × ((cancel_run "t2" "run-1" busy).0 ≡ ok)
    × Memᴰ "run-1" (cancel_run "t2" "run-1" busy).1.contexts_done
unfolding lookup
cancel_run-foreign_example = cancel_run-foreign "t1" "t2" "run-1" busy refl refl other_tenant refl

-- Two clients of the hub: one of the run's tenant, and one of another.
abbrev own_client : WsClient
own_client = record { conn = 1; filter_run_id = ""; tenant_id = "t1" }

abbrev other_client : WsClient
other_client = record { conn = 2; filter_run_id = ""; tenant_id = "t2" }

log_message-receivers_example :
    Memᴰ own_client (
      broadcast
        (log_message (λ run_id. "t1") "run-1-database-0" "started")
        (other_client ∷ own_client ∷ []))
    ↔ (Memᴰ own_client (other_client ∷ own_client ∷ []) × Agree "t1" "t1" × Agree "" "run-1")
unfolding has_dash is_dash join
log_message-receivers_example =
    log_message-receivers (λ run_id. "t1") "run-1" "database" "0" "started"
      (other_client ∷ own_client ∷ []) own_client refl refl

-- A snapshot in which the network is done.
abbrev half_way : List SavedNode
half_way =
    record { id = "network"; status = Status.done; error = "" }
    ∷ record { id = "run_stroppy"; status = Status.running; error = "" }
    ∷ []

-- The network cannot be made a second time; all else succeeds.
abbrev once_only : World (Unit {0})
once_only = record calm { runs = λ s id a. if id == "network" then some "exists" else none }

once_only-IsFair : IsFair once_only
once_only-IsFair = record { finishes = λ s b n. (λ m. m, λ m. m) }

once_only-IsCoherent : IsCoherent once_only
once_only-IsCoherent = record { coherent = λ k id a h. cc }

once_only-succeeds : RestSucceeds cfg once_only (saved_done half_way)
unfolding saved_done is_saved_done ending execute default_retry_policy
once_only-succeeds k n m fresh = elim ((Memᴰ-cons n network (run_stroppy ∷ cleanup ∷ [])).0 m) [
  | inl e ↦
      let wrong = subst (λ (z : Node (Unit {0})). saved_done half_way z.id ≡ false) e fresh in cc
  | inr m1 ↦ elim ((Memᴰ-cons n run_stroppy (cleanup ∷ [])).0 m1) [
    | inl e ↦ subst (λ z. ending cfg once_only (main k) z ≡ succeeded) (sym e) refl
    | inr m2 ↦ elim ((Memᴰ-cons n cleanup []).0 m2) [
      | inl e ↦ subst (λ z. ending cfg once_only (main k) z ≡ succeeded) (sym e) refl
      | inr m3 ↦ elim m3 [ ]
    ]
  ]
]

half_way-Closed : Closed cfg once_only half_way
unfolding saved_done is_saved_done
half_way-Closed n d mem here dep = elim ((Memᴰ-cons n network (run_stroppy ∷ cleanup ∷ [])).0 mem) [
  | inl e ↦
      let none_left : Memᴰ d [] = subst (λ (z : Node (Unit {0})). Memᴰ d z.deps) e dep in
      elim none_left [ ]
  | inr m1 ↦ elim ((Memᴰ-cons n run_stroppy (cleanup ∷ [])).0 m1) [
    | inl e ↦
        let wrong = subst (λ (z : Node (Unit {0})). saved_done half_way z.id ≡ true) e here in cc
    | inr m2 ↦ elim ((Memᴰ-cons n cleanup []).0 m2) [
      | inl e ↦
          let wrong = subst (λ (z : Node (Unit {0})). saved_done half_way z.id ≡ true) e here in cc
      | inr m3 ↦ elim m3 [ ]
    ]
  ]
]

resume-live_example :
    (r : Executor) × (resume cfg once_only half_way ≡ some (r, none))
    × ((n : Node (Unit {0})) → Memᴰ n sample → lookup n.id r.node_status ≡ some Status.done)
resume-live_example =
    resume-live cfg once_only half_way order once_only-IsFair (λ k. refl) once_only-succeeds
      sample-IsRunnable once_only-IsCoherent half_way-Closed

-- A tenant that may have one run at a time starts one.
abbrev single : String → TenantQuotas
single tenant = record {
  allowed_db_kinds = [];
  allowed_providers = [];
  max_nodes = pos 0;
  max_cpus_per_node = pos 0;
  max_memory_mb_per_node = pos 0;
  max_disk_gb_per_node = pos 0;
  max_concurrent_runs = pos 1;
}

abbrev third : StartRequest
third = record { tenant = "t1"; id = "run-3"; kind = postgres; provider = "docker"; machines = [] }

abbrev started : Server
started = track "run-3" "t1" restarted

started_by : (run_start single third restarted).1 ≡ started
unfolding run_start track validate_quotas load is_row
started_by = refl

Orderly-WithinLimit_example : active_runs "t1" started.run_tenants ≤ 1 + 0
unfolding active_runs
Orderly-WithinLimit_example =
    Orderly-WithinLimit single "t1" restarted started 0 0 1 refl (omega arith) (omega arith)
      (starts third started begins started_by)
