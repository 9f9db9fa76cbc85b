-- ===== src/Run/Samples.antt =====
-- A small configuration and a state, with the theorems about internal/domain/run at these inputs.
use hatchet_workflow.Base.{
  String, true, ◌≡◌, ◌≢◌, refl, List, [], ◌∷◌, map, Memᴰ, ◌⊎◌, ◌↔◌, some, none, ℕ, eq_iff, arith,
  lookup, insert,
}
use hatchet_workflow.Base.Int.{pos}
use hatchet_workflow.Dag.Graph.{Graph, index, new, add, ok}
use hatchet_workflow.Dag.Graph.Unique.{HasUniqueIds}
use hatchet_workflow.Dag.Registry.{unmarshal, register}
use hatchet_workflow.Dag.Validate.{validate}
use hatchet_workflow.Dag.Validate.Edges.{Chain, Acyclic}
use hatchet_workflow.Dag.Validate.Accepts.{AllKnown}
use hatchet_workflow.Run.Types.{
  postgres, other, database, MachineSpec, PostgresTopology, DatabaseConfig, RunConfig,
}
use hatchet_workflow.Run.Builder.{Task, build, built, failed, unsupported_kind}
use hatchet_workflow.Run.Builder.Flags.{ids_of, strip}
use hatchet_workflow.Run.Builder.Accepted.{
  IsSupported, ids_of-Iterates, build_accepts, build-unmarshal, build_gates_stroppy,
}
use hatchet_workflow.Run.Machines.{fill_machines, bake_machine_override}
use hatchet_workflow.Run.Machines.Baked.{sized, fill_machines-bake}
use hatchet_workflow.Run.State.{
  Target, State, new_state, set_db_targets, set_proxy_targets, set_stroppy_target,
  set_terraform_wd_id, export_run_state, import_run_state, all_targets, all_target_hosts,
}
use hatchet_workflow.Run.State.Restored.{import_run_state-export, all_target_hosts_lem}
use hatchet_workflow.Run.Validate.{validate_config}
use hatchet_workflow.Run.Validate.Valid.{IsValid}
use hatchet_workflow.Run.Validate.Accepted.{validate_config-ok_iff}

abbrev machine : ℕ → MachineSpec
machine cpus = record {
  role = database;
  count = pos 2;
  cpus = pos cpus;
  memory_mb = pos 2048;
  disk_gb = pos 20;
  disk_type = "";
  secondary_disks = [];
}

abbrev topology : PostgresTopology
topology = record {
  master = machine 2;
  replicas = machine 2 ∷ [];
  haproxy = some (machine 1);
  pg_bouncer = true;
  patroni = true;
  etcd = true;
  sync_replicas = pos 1;
  master_options = [];
  replica_options = [];
  haproxy_options = [];
  pg_bouncer_options = [];
  patroni_options = [];
  etcd_options = [];
}

abbrev sample_db : DatabaseConfig
sample_db = record {
  kind = postgres;
  version = "16";
  postgres = some topology;
  mysql = none;
  picodata = none;
  ydb = none;
  rendered_config_overrides = [];
}

abbrev sample_config : RunConfig
sample_config = record {
  machines = [];
  database = sample_db;
  stroppy = record {
    script = "tpcc/procs";
    duration = "10m";
    vus = pos 4;
    pool_size = pos 8;
    scale_factor = pos 1;
    machine = none;
    workload = "";
  };
  preset_id = "";
  machine_override = some (machine 8);
}

abbrev parts : Graph Task × List (String × Task)
parts = elim (build sample_db ids_of) [ built p ↦ p | failed e ↦ ([], []) ]

parts_built : build sample_db ids_of ≡ built (parts.0, parts.1)
unfolding build validate add register insert lookup index new
parts_built = refl

build_accepts_example :
    (IsSupported postgres
      × (g : Graph Task) × (reg : List (String × Task)) × (build sample_db ids_of ≡ built (g, reg))
      × HasUniqueIds g
      × AllKnown g
      × Acyclic (index g))
    ⊎ ((k : String) × (postgres ≡ other k) × (build sample_db ids_of ≡ failed (unsupported_kind k)))
build_accepts_example = build_accepts sample_db ids_of ids_of-Iterates

build-unmarshal_example : unmarshal parts.1 (strip parts.0) (ids_of parts.0) ≡ ok parts.0
build-unmarshal_example =
    build-unmarshal sample_db ids_of ids_of-Iterates parts.0 parts.1 (ids_of parts.0) parts_built
      (ids_of-Iterates parts.0)

etcd_listed : Memᴰ "configure_etcd" (ids_of parts.0)
unfolding build validate add register insert lookup index new
etcd_listed = Memᴰ.tail (Memᴰ.tail (Memᴰ.tail (Memᴰ.head refl)))

not_stroppy : ◌≢◌ {A = String} "configure_etcd" "run_stroppy"
not_stroppy e = ground (arith, eq_iff "configure_etcd" "run_stroppy")

not_teardown : ◌≢◌ {A = String} "configure_etcd" "teardown"
not_teardown e = ground (arith, eq_iff "configure_etcd" "teardown")

build_gates_stroppy_example : Chain (index parts.0) "run_stroppy" "configure_etcd"
build_gates_stroppy_example =
    build_gates_stroppy sample_db ids_of ids_of-Iterates parts.0 parts.1 "configure_etcd"
      parts_built etcd_listed not_stroppy not_teardown

fill_machines-bake_example :
    map sized (fill_machines (bake_machine_override sample_config)).machines
    ≡ map sized (fill_machines sample_config).machines
fill_machines-bake_example = fill_machines-bake sample_config

abbrev node_1 : Target
node_1 = record { id = "db-1"; host = "10.0.0.1"; internal_host = "db1"; agent_port = pos 8090 }

abbrev sample_state : State String
sample_state = set_terraform_wd_id "wd" (
    set_stroppy_target node_1
      (set_proxy_targets (node_1 ∷ []) (set_db_targets (node_1 ∷ []) new_state)))

abbrev blank : State String
blank = new_state

import_run_state-export_example :
    import_run_state (export_run_state sample_state) blank ≡ record sample_state {
      terraform_wd_id = blank.terraform_wd_id;
      terraform_actor = blank.terraform_actor;
    }
import_run_state-export_example = import_run_state-export sample_state blank

all_target_hosts_lem_example :
    all_target_hosts sample_state
    ≡ map (λ t. t.host) (all_targets (record sample_state { proxy_targets = [] }))
all_target_hosts_lem_example = all_target_hosts_lem sample_state

validate_config-ok_iff_example : (validate_config sample_config ≡ none) ↔ IsValid sample_config
validate_config-ok_iff_example = validate_config-ok_iff sample_config
