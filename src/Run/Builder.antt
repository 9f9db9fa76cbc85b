-- ===== src/Run/Builder.antt =====
-- internal/domain/run/builder.go: the graph of a run and its registry. A task is the struct that
-- the builder makes; its fields, which it reads when it runs, are left out. A phase is its text.
pub mod Flags
pub mod Accepted
use hatchet_workflow.Base.{
  String, Bool, true, false, List, [], ◌∷◌, ◌++◌, Option, none, some, if◌then◌else◌,
}
use hatchet_workflow.Dag.Graph.{Node, Graph, new, add, GraphError, Result, ok, err}
use hatchet_workflow.Dag.Registry.{register}
use hatchet_workflow.Dag.Validate.{validate}
use hatchet_workflow.Run.Types.{DatabaseKind, postgres, mysql, picodata, ydb, other, DatabaseConfig}

pub data Task : Type 0 where
  network_task machines_task etcd_install_task etcd_config_task : Task
  pg_install_task pg_config_task mysql_install_task mysql_config_task : Task
  pico_install_task pico_config_task ydb_install_task ydb_config_task : Task
  ydb_init_task ydb_start_db_task patroni_install_task patroni_config_task noop_task : Task
  monitor_install_task monitor_config_task pg_bouncer_install_task pg_bouncer_config_task : Task
  proxy_install_task proxy_config_task stroppy_install_task stroppy_run_task teardown_task : Task

pub record Builder : Type 0 where
  pub g : Graph Task
  pub reg : List (String × Task)
  pub run_stroppy_deps : List String

pub data BuildError : Type 0 where
  unsupported_kind : (kind : String) → BuildError
  invalid_graph : GraphError → BuildError

pub data BuildResult (A : Type 0) : Type 0 where
  built : A → BuildResult A
  failed : BuildError → BuildResult A

-- The error of g.Add is dropped, and the graph is then unchanged.
added : Graph Task → Node Task → Graph Task
added g n = elim (add g n) [ ok g' ↦ g' | err _ ↦ g ]

add_node : Bool → Bool → Builder → String → List String → Task → Builder
unfolding added
add_node always critical b phase deps task = record b {
  g = added b.g (record {
    id = phase;
    type = phase;
    deps = deps;
    always_run = always;
    must_complete = critical;
    task = some task;
  });
  reg = register b.reg phase task;
}

-- add, addMustComplete, addAlwaysRun
unfoldable pub add_phase : Builder → String → List String → Task → Builder
unfolding add_node
add_phase = add_node false false

unfoldable pub add_must_complete : Builder → String → List String → Task → Builder
unfolding add_node
add_must_complete = add_node false true

unfoldable pub add_always_run : Builder → String → List String → Task → Builder
unfolding add_node
add_always_run = add_node true false

-- p != nil
abbrev pub is_set {ℓ} : {A : Type ℓ} → Option A → Bool
is_set none = false
is_set (some _) = true

module _ (db : DatabaseConfig) where
  pub needs_etcd : Bool
  needs_etcd = elim (db.kind) [
    | postgres ↦ elim (db.postgres) [ some t ↦ t.etcd | none ↦ false ]
    | _ ↦ false
  ]

  pub needs_patroni : Bool
  needs_patroni = elim (db.kind) [
    | postgres ↦ elim (db.postgres) [ some t ↦ t.patroni | none ↦ false ]
    | _ ↦ false
  ]

  pub needs_pg_bouncer : Bool
  needs_pg_bouncer = elim (db.kind) [
    | postgres ↦ elim (db.postgres) [ some t ↦ t.pg_bouncer | none ↦ false ]
    | _ ↦ false
  ]

  pub needs_proxy : Bool
  needs_proxy = elim (db.kind) [
    | postgres ↦ elim (db.postgres) [ some t ↦ is_set t.haproxy | none ↦ false ]
    | mysql ↦ elim (db.mysql) [ some t ↦ is_set t.proxysql | none ↦ false ]
    | picodata ↦ elim (db.picodata) [ some t ↦ is_set t.haproxy | none ↦ false ]
    | ydb ↦ elim (db.ydb) [ some t ↦ is_set t.haproxy | none ↦ false ]
    | other _ ↦ false
  ]

  pub needs_ydb_init : Bool
  needs_ydb_init = elim (db.kind) [ ydb ↦ is_set db.ydb | _ ↦ false ]

abbrev after_machines : List String
after_machines = "machines" ∷ []

-- runStroppyDeps = append(runStroppyDeps, phase)
abbrev require : String → Builder → Builder
require phase b = record b { run_stroppy_deps = b.run_stroppy_deps ++ phase ∷ [] }

add_etcd : Builder → Builder
unfolding add_phase
add_etcd b =
    let b1 = add_phase b "install_etcd" after_machines etcd_install_task in
    add_phase b1 "configure_etcd" ("install_etcd" ∷ []) etcd_config_task

add_pg_bouncer : Builder → Builder
unfolding add_phase
add_pg_bouncer b =
    let b1 = add_phase b "install_pgbouncer" after_machines pg_bouncer_install_task in
    let b2 =
      add_phase b1 "configure_pgbouncer" ("install_pgbouncer" ∷ "configure_db" ∷ [])
        pg_bouncer_config_task in
    require "configure_pgbouncer" b2

add_proxy : Builder → Builder
unfolding add_phase
add_proxy b =
    let b1 = add_phase b "install_proxy" after_machines proxy_install_task in
    let b2 =
      add_phase b1 "configure_proxy" ("install_proxy" ∷ "configure_db" ∷ []) proxy_config_task in
    require "configure_proxy" b2

add_ydb_phases : Builder → Builder
unfolding add_phase
add_ydb_phases b =
    let b1 = add_phase b "init_ydb_cluster" ("configure_db" ∷ []) ydb_init_task in
    let b2 = add_phase b1 "start_ydb_database" ("init_ydb_cluster" ∷ []) ydb_start_db_task in
    require "start_ydb_database" b2

-- The install and the configure task of the database.
pub db_tasks : DatabaseKind → BuildResult (Task × Task)
db_tasks postgres = built (pg_install_task, pg_config_task)
db_tasks mysql = built (mysql_install_task, mysql_config_task)
db_tasks picodata = built (pico_install_task, pico_config_task)
db_tasks ydb = built (ydb_install_task, ydb_config_task)
db_tasks (other kind) = failed (unsupported_kind kind)

-- A configure phase under Patroni: Patroni bootstraps the cluster, and configure_db does nothing.
add_patroni : List String → Builder → Builder
unfolding add_phase
add_patroni config_db_deps b =
    let b1 = add_phase b "install_patroni" after_machines patroni_install_task in
    let b2 =
      add_phase b1 "configure_patroni" (config_db_deps ++ "install_patroni" ∷ [])
        patroni_config_task in
    add_phase b2 "configure_db" ("configure_patroni" ∷ []) noop_task

add_infrastructure : Builder → Builder
unfolding add_must_complete
add_infrastructure b =
    let b1 = add_must_complete b "network" [] network_task in
    add_must_complete b1 "machines" ("network" ∷ []) machines_task

add_monitor : Bool → Builder → Builder
unfolding add_phase
add_monitor ydb_init b =
    let b1 = add_phase b "install_monitor" after_machines monitor_install_task in
    let deps = "install_monitor" ∷ "configure_db" ∷ [] in
    add_phase b1 "configure_monitor" (if ydb_init then deps ++ "start_ydb_database" ∷ [] else deps)
      monitor_config_task

add_stroppy : Builder → Builder
unfolding add_phase add_always_run
add_stroppy b =
    let b1 = add_phase b "install_stroppy" after_machines stroppy_install_task in
    let deps =
      b1.run_stroppy_deps ++ "configure_db" ∷ "configure_monitor" ∷ "install_stroppy" ∷ [] in
    let b2 =
      add_phase (record b1 { run_stroppy_deps = deps }) "run_stroppy" deps stroppy_run_task in
    add_always_run b2 "teardown" ("run_stroppy" ∷ []) teardown_task

empty_builder : Builder
unfolding new
empty_builder = record { g = new; reg = []; run_stroppy_deps = [] }

-- build up to its validation, for the tests of the configuration and the database's tasks.
pub assemble : (etcd patroni pg_bouncer proxy ydb_init : Bool) → Task × Task → Builder
unfolding add_infrastructure add_etcd add_patroni add_phase add_monitor add_pg_bouncer add_proxy
    add_ydb_phases add_stroppy empty_builder
assemble etcd patroni pg_bouncer proxy ydb_init (install_db, config_db) =
    let b1 = add_infrastructure empty_builder in
    let b2 = if etcd then add_etcd b1 else b1 in
    let config_db_deps = if etcd then "install_db" ∷ "configure_etcd" ∷ [] else "install_db" ∷ [] in
    let b3 = add_phase b2 "install_db" after_machines install_db in
    let b4 =
      if patroni
      then add_patroni config_db_deps b3
      else add_phase b3 "configure_db" config_db_deps config_db in
    let b5 = add_monitor ydb_init b4 in
    let b6 = if pg_bouncer then add_pg_bouncer b5 else b5 in
    let b7 = if proxy then add_proxy b6 else b6 in
    let b8 = if ydb_init then add_ydb_phases b7 else b7 in add_stroppy b8

-- Build; `orders` gives the order in which Validate walks the index of a graph.
unfoldable pub build :
    DatabaseConfig → (Graph Task → List String) → BuildResult (Graph Task × List (String × Task))
unfolding assemble db_tasks needs_etcd needs_patroni needs_pg_bouncer needs_proxy needs_ydb_init
build db orders = elim (db_tasks db.kind) [
  | failed e ↦ failed e
  | built tasks ↦
      let b =
        assemble (needs_etcd db) (needs_patroni db) (needs_pg_bouncer db) (needs_proxy db)
          (needs_ydb_init db) tasks in
      elim (validate b.g (orders b.g)) [
        | ok _ ↦ built (b.g, b.reg)
        | err e ↦ failed (invalid_graph e)
      ]
]
