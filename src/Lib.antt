-- ===== src/Lib.antt =====
-- A model of the core of hatchet-workflow, which provisions machines, installs a database and a load
-- generator on them, and runs a benchmark: a run is a graph of phases that an executor goes through.
--
-- Parts and files:
-- - Dag/Graph, Dag/Validate, Dag/Registry: internal/core/dag/dag.go. A graph is the list of its nodes;
--   Add, Validate, Ready, ReadyAlwaysRun, index, depsComplete, detectCycle, Register, Unmarshal and
--   MarshalJSON are add, validate, ready, ready_always_run, index, deps_complete, detect_cycle,
--   register, unmarshal and marshal_json. Validate and the executor are its clients.
-- - Dag/Executor, Dag/Executor/Retry: internal/core/dag/executor.go and the snapshot types of
--   storage.go. Run is `run`, its loop `main_loop`, runAlwaysRunNodes `run_always_run_nodes`, and
--   executeWithRetry `execute_with_retry`. Task results, cancellation and the order in which the
--   goroutines of a round end are the fields of a World; IsFair says that a round ends each of its
--   nodes, and IsCoherent that a done context stays done.
-- - Run/Types: the types of internal/domain/types/run.go that the functions below read.
-- - Run/Presets: the topology presets of the same file.
-- - Run/Builder: internal/domain/run/builder.go. Build is `build`, and the graph that it makes is
--   the one that the executor runs. Flags checks every choice of its tests.
-- - Run/Machines, Run/State, Run/Validate: machines.go, state.go and validate.go of
--   internal/domain/run. A method on shared state is a function on a record: each holds the lock.
-- - Metrics/Compare: internal/domain/metrics/compare.go. Compare is `compare`; the arithmetic of
--   float64 is the parameter Floats, of which nothing is assumed.
-- - Ips: internal/core/ips/ips.go. NextSubnetByCount is `next_subnet_by_count`, and the search of
--   NextSubnetWithIPs `next_free_subnet`, both after the parsing of the networks. Addresses says
--   which addresses a network has.
-- - Auth: internal/domain/auth, the middlewares of middleware.go, roles and claims. A Verifier stands
--   for the JWT library, the hash and the table of API tokens. A handler is a function of the claims
--   in the context of a request.
-- - Api/Access: the method Router of internal/domain/api/server.go. `router` lists the routes with the
--   middlewares around them, and `serve` puts the authentication in front. Which route a request has
--   is the mux's matter: `find` is a parameter, of which Fits says that the path begins with the
--   literal part of the pattern, and `unrouted` is its answer where there is none. Endpoints has the handlers and the audience of each.
-- - Api/Runs: the handlers cancelRun and deleteRun and the recovery at the start of the server, in the
--   same file, up to the first step of the goroutines that it starts, over the table of runs of internal/infrastructure/postgres/run_storage.go. The snapshot
--   is the executor's, and the containers are the Docker daemon's.
-- - Agent/Poll: internal/domain/agent/client_poll.go. The goroutines of Send, Poll and DeliverReport are
--   cut at their locks and channel operations; `step` takes one piece of one goroutine, and Reachable
--   has the states that any order of pieces leads to. The text of a command's number is a parameter.
-- - Api/Start: runStart of internal/domain/api/server.go, once the body is decoded and preset and package are resolved.
--   `check_start` has its checks, `run_start` enters the run as well, and `run_end` is the end of the
--   goroutine.
-- - Api/Recover: the end of RecoverRun in internal/domain/api/api.go: `resume` marks the nodes that a
--   snapshot has as done and runs the executor of Dag/Executor.
-- - Api/Hub: broadcast of internal/domain/api/ws_hub.go, and extractRunID, agentReport and agentLogBatch
--   of server.go, which send to it. The tenant of a run is a parameter.
-- - DbConfig: internal/domain/types/db_defaults.go and postgres.go, mysql.go and picodata.go of
--   internal/domain/dbconfig. The settings of a file are a list of keys and values, which print_lines
--   makes a text of; Format stands for the scanning and printing of numbers.
-- - Settings: the quotas and the checks of internal/domain/types/settings.go.
--
-- Bounds and fuel. The recursion of detectCycle has one unit of fuel more than the index has keys:
-- every call paints a white key gray. The two loops of Run have the number of nodes and two more:
-- every round ends at least one node. The theorems below that speak of a result show that the fuel
-- is enough. An int is 64 bits wide and wraps around, also in the doubling of a delay; the number of
-- attempts is that of the loop for MaxRetries below the largest int. Go walks maps in a random order;
-- where it matters, the order is an argument (`order`, `orders`), and Iterates says that it goes
-- through the keys.
--
-- Not modelled: a goroutine's change of the state and the snapshot saved after it are taken as one
-- step; the times, the graph's JSON and the exported state in a snapshot are left out, and so are
-- logs. A storage error is dropped, as the code drops it. Tasks are opaque, and their own files are
-- not modelled. The other HTTP handlers, the agent's own executor, clients of services, and the web
-- interface are I/O.
pub mod Base
pub mod Dag
pub mod Run
pub mod Metrics
pub mod Ips
pub mod Auth
pub mod Api
pub mod Agent
pub mod DbConfig
pub mod Settings
