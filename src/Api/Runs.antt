-- ===== src/Api/Runs.antt =====
-- internal/infrastructure/postgres/run_storage.go, the table of runs, and the part of
-- internal/domain/api/server.go that tracks, cancels, deletes and recovers runs: cancelRun, deleteRun,
-- cleanupRunResources, RecoverOrCleanupRuns, canRecoverRun, markRunFailed, cleanupOrphanedContainers.
-- A snapshot leaves the graph and the times aside. The Docker daemon is the list of its containers and
-- networks; it answers, and it removes what it is told to.
pub mod Storage
pub mod Cleanup
pub mod Recovered
pub mod Orphans
use hatchet_workflow.Base.{
  ℕ, zero, suc, ◌+◌, String, Bool, true, false, not, ◌&&◌, ◌||◌, List, [], ◌∷◌, ◌++◌, map, Option,
  none, some, if◌then◌else◌, ◌==◌, any, keep, lookup, insert, leb, length,
}
use hatchet_workflow.Base.Text.{join, has_prefix, trim_prefix, contains}
use hatchet_workflow.Dag.Executor.{Status, pending, running, done, failed, cancelled}
use hatchet_workflow.Run.State.{RunState}

-- dag.NodeStatus, with its error as it is stored
pub record SavedNode : Type 0 where
  pub id : String
  pub status : Status
  pub error : String

-- dag.Snapshot
pub record Saved : Type 0 where
  pub nodes : List SavedNode
  pub state : Option RunState

-- A row of the table runs, whose key is the run and the tenant.
pub record Row : Type 0 where
  pub id : String
  pub tenant_id : String
  pub snapshot : Saved

unfoldable pub is_row : (tenant id : String) → Row → Bool
is_row tenant id row = row.id == id && row.tenant_id == tenant

-- RunStorage.Load, nil for a run that the tenant does not have
unfoldable pub load : (tenant id : String) → List Row → Option Saved
load tenant id [] = none
load tenant id (row ∷ rows) =
    if is_row tenant id row then some row.snapshot else load tenant id rows

-- RunStorage.Save
unfoldable pub save : (tenant id : String) → Saved → List Row → List Row
save tenant id snap [] = record { id = id; tenant_id = tenant; snapshot = snap } ∷ []
save tenant id snap (row ∷ rows) =
    if is_row tenant id row
    then record row { snapshot = snap } ∷ rows
    else row ∷ save tenant id snap rows

-- RunStorage.Delete
unfoldable pub delete : (tenant id : String) → List Row → List Row
delete tenant id rows = keep (λ (row : Row). not (is_row tenant id row)) rows

-- The counts of dag.RunSummary that RunStorage.List makes.
pub record Summary : Type 0 where
  pub id : String
  pub nodes : List SavedNode
  pub total : ℕ
  pub done_count : ℕ
  pub failed_count : ℕ
  pub pending_count : ℕ
  pub was_cancelled : Bool

unfoldable pub count_one : Status → Summary → Summary
count_one done s = record s { done_count = suc s.done_count }
count_one failed s = record s { failed_count = suc s.failed_count }
count_one cancelled s = record s { was_cancelled = true; failed_count = suc s.failed_count }
count_one running s = record s { pending_count = suc s.pending_count }
count_one pending s = record s { pending_count = suc s.pending_count }

unfoldable pub count : List SavedNode → Summary → Summary
unfolding count_one
count [] s = s
count (n ∷ ns) s = count ns (count_one n.status s)

unfoldable pub summarise : Row → Summary
unfolding count
summarise row = count row.snapshot.nodes (record {
  id = row.id;
  nodes = row.snapshot.nodes;
  total = length row.snapshot.nodes;
  done_count = 0;
  failed_count = 0;
  pending_count = 0;
  was_cancelled = false;
})

-- RunStorage.List
unfoldable pub list : (tenant : String) → List Row → List Summary
unfolding summarise
list tenant rows = map summarise (keep (λ (row : Row). row.tenant_id == tenant) rows)

pub record Container : Type 0 where
  pub cid : String
  pub names : List String
  pub is_running : Bool

pub record Docker : Type 0 where
  pub containers : List Container
  pub networks : List String

-- The part of Server that these handlers use: the runs with a cancel function, the tenant of each,
-- those whose context was cancelled, and those a user cancelled; and whether the database answers.
pub record Server : Type 0 where
  pub rows : List Row
  pub docker : Docker
  pub run_cancels : List String
  pub run_tenants : List (String × String)
  pub contexts_done : List String
  pub cancelled_runs : List String
  pub db_up : Bool

-- cleanupRunResources: the prefix of the names of a run's containers, and the name of its network.
unfoldable pub container_prefix : String → String
container_prefix run_id = join "stroppy-agent-" (join run_id "-")

unfoldable pub network_name : String → String
network_name run_id = join "stroppy-" run_id

-- Does a name of the container belong to the run?
unfoldable pub is_of_run : String → Container → Bool
unfolding container_prefix
is_of_run run_id c =
    any (λ name. has_prefix (container_prefix run_id) (trim_prefix "/" name)) c.names

unfoldable pub cleanup_run_resources : String → Docker → Docker
unfolding is_of_run network_name
cleanup_run_resources run_id d = record {
  containers = keep (λ (c : Container). not (is_of_run run_id c)) d.containers;
  networks = keep (λ (n : String). not (n == network_name run_id)) d.networks;
}

-- RunStorage.Load as its callers see it.
pub data Loaded : Type 0 where
  load_error absent : Loaded
  found : (snapshot : Saved) → Loaded

unfoldable pub load_run : Server → (tenant id : String) → Loaded
load_run s tenant id =
    if s.db_up
    then elim (load tenant id s.rows) [ some snap ↦ found snap | none ↦ absent ]
    else load_error

-- The status of a response.
pub data Code : Type 0 where
  ok not_found internal_error : Code

unfoldable pub cancel_tracked : (run_id : String) → Server → Code × Server
cancel_tracked run_id s =
    if any (λ id. id == run_id) s.run_cancels
    then (
      ok,
      record s {
        contexts_done = run_id ∷ s.contexts_done;
        cancelled_runs = run_id ∷ s.cancelled_runs;
      },
    )
    else (not_found, s)

-- cancelRun
unfoldable pub cancel_run : (tenant run_id : String) → Server → Code × Server
unfolding cancel_tracked load_run
cancel_run tenant run_id s = elim (load_run s tenant run_id) [
  | load_error ↦ (not_found, s)
  | absent ↦ cancel_tracked run_id s
  | found _ ↦ cancel_tracked run_id s
]

-- deleteRun
unfoldable pub delete_run : (tenant run_id : String) → Server → Code × Server
unfolding load_run cleanup_run_resources delete
delete_run tenant run_id s = elim (load_run s tenant run_id) [
  | load_error ↦ (not_found, s)
  | absent ↦ (not_found, s)
  | found _ ↦ (
    ok,
    record s { docker = cleanup_run_resources run_id s.docker; rows = delete tenant run_id s.rows },
  )
]

-- markRunFailed
unfoldable pub fail_pending : SavedNode → SavedNode
fail_pending n = elim (n.status) [
  | pending ↦ record n { status = Status.failed; error = "server restarted -- run orphaned" }
  | running ↦ n
  | done ↦ n
  | failed ↦ n
  | cancelled ↦ n
]

unfoldable pub is_pending : SavedNode → Bool
is_pending n = elim (n.status) [
  | pending ↦ true
  | running ↦ false
  | done ↦ false
  | failed ↦ false
  | cancelled ↦ false
]

unfoldable pub mark_run_failed : (tenant : String) → Saved → (run_id : String) → List Row → List Row
unfolding fail_pending is_pending save
mark_run_failed tenant snap run_id rows =
    if any is_pending snap.nodes
    then save tenant run_id (record snap { nodes = map fail_pending snap.nodes }) rows
    else rows

-- canRecoverRun
unfoldable pub is_alive : Docker → String → Bool
is_alive d cid = any (λ (c : Container). c.cid == cid && c.is_running) d.containers

unfoldable pub can_recover_run : Docker → RunState → Bool
unfolding is_alive
can_recover_run d state = any (is_alive d) state.container_ids

-- recoverRun: how its goroutine enters the run when it begins. When RecoverRun returns, with an error
-- or without one, it takes the run out again, as the goroutine of a started run does at its end.
unfoldable pub track : (run_id tenant : String) → Server → Server
track run_id tenant s = record s {
  run_cancels = run_id ∷ keep (λ id. not (id == run_id)) s.run_cancels;
  run_tenants = insert run_id tenant s.run_tenants;
}

-- RecoverOrCleanupRuns: what it does with one incomplete run, and the rows of the runs for which it has
-- started a goroutine of recoverRun. Their ids are activeRunIDs.
unfoldable pub recover_one : Row → Server × List Row → Server × List Row
unfolding mark_run_failed cleanup_run_resources can_recover_run
recover_one row (s, resumed) =
    let given_up : Server = record s {
      rows = mark_run_failed row.tenant_id row.snapshot row.id s.rows;
      docker = cleanup_run_resources row.id s.docker;
    } in
    elim (row.snapshot.state) [
      | none ↦ (given_up, resumed)
      | some state ↦
          if can_recover_run s.docker state then (s, row ∷ resumed) else (given_up, resumed)
    ]

unfoldable pub recover_all : List Row → Server × List Row → Server × List Row
unfolding recover_one
recover_all [] acc = acc
recover_all (row ∷ rows) acc = recover_all rows (recover_one row acc)

-- cleanupOrphanedContainers. A container goes when one of its names is an agent's and belongs to no
-- active run.
unfoldable pub is_orphan_name : List String → String → Bool
unfolding container_prefix
is_orphan_name active name =
    has_prefix "stroppy-agent-" name
    && not (any (λ id. has_prefix (container_prefix id) name) active)

unfoldable pub is_orphan : List String → Container → Bool
unfolding is_orphan_name
is_orphan active c = any (λ name. is_orphan_name active (trim_prefix "/" name)) c.names

unfoldable pub is_orphan_network : List String → String → Bool
unfolding network_name
is_orphan_network active name =
    has_prefix "stroppy-" name
    && (not (contains "cloud" name) && not (any (λ id. name == network_name id) active))

unfoldable pub cleanup_orphaned_containers : List String → Docker → Docker
unfolding is_orphan is_orphan_network
cleanup_orphaned_containers active d = record {
  containers = keep (λ (c : Container). not (is_orphan active c)) d.containers;
  networks = keep (λ (n : String). not (is_orphan_network active n)) d.networks;
}

-- RecoverOrCleanupRuns: the incomplete runs, what it does with them, and the whole.
unfoldable pub incomplete_runs : List Row → List Row
unfolding is_pending
incomplete_runs rows = keep (λ (row : Row). any is_pending row.snapshot.nodes) rows

unfoldable pub recovered : Server → Server × List Row
unfolding recover_all incomplete_runs
recovered s = recover_all (incomplete_runs s.rows) (s, [])

-- The server that it leaves, before the first step of the goroutines that it has started, and the rows
-- of the runs that these resume.
unfoldable pub recover_or_cleanup_runs : Server → Server × List Row
unfolding recovered cleanup_orphaned_containers
recover_or_cleanup_runs s =
    let (t, resumed) = recovered s in
    let active = map (λ (row : Row). row.id) resumed in
    if s.db_up
    then (record t { docker = cleanup_orphaned_containers active t.docker }, resumed)
    else (s, [])
