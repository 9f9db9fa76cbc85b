-- ===== src/Run/Machines.antt =====
-- internal/domain/run/machines.go: the machines of a run, from the topology of its database. The
-- configuration is a value: each function returns the one that the Go code leaves behind.
pub mod Baked
use hatchet_workflow.Base.{
  ℕ, String, Bool, true, false, List, [], ◌∷◌, ◌++◌, map, Option, none, some, if◌then◌else◌, ◌==◌,
}
use hatchet_workflow.Base.Int.{ℤ, pos, ltb_ℤ, ◌+ℤ◌}
use hatchet_workflow.Run.Types.{
  DatabaseKind, postgres, mysql, picodata, ydb, other, MachineRole, database, stroppy, MachineSpec,
  PostgresTopology, MysqlTopology, PicodataTopology, YdbTopology, DatabaseConfig, RunConfig,
}

-- v > 0
abbrev positive : ℤ → Bool
positive v = ltb_ℤ (pos 0) v

-- applyOverride
apply_override : ℤ → Option MachineSpec → (MachineSpec → ℤ) → ℤ
apply_override orig none field = orig
apply_override orig (some override) field =
    if positive (field override) then field override else orig

-- The closure `apply` of BakeMachineOverrideIntoTopology.
bake_spec : MachineSpec → MachineSpec → MachineSpec
bake_spec ov m = record m {
  cpus = if positive ov.cpus then ov.cpus else m.cpus;
  memory_mb = if positive ov.memory_mb then ov.memory_mb else m.memory_mb;
  disk_gb = if positive ov.disk_gb then ov.disk_gb else m.disk_gb;
  disk_type = if ov.disk_type == "" then m.disk_type else ov.disk_type;
}

abbrev map_option : {A B : Type 0} → (A → B) → Option A → Option B
map_option f none = none
map_option f (some a) = some (f a)

bake_postgres : MachineSpec → PostgresTopology → PostgresTopology
unfolding bake_spec
bake_postgres ov t = record t {
  master = bake_spec ov t.master;
  replicas = map (bake_spec ov) t.replicas;
}

bake_mysql : MachineSpec → MysqlTopology → MysqlTopology
unfolding bake_spec
bake_mysql ov t = record t {
  primary = bake_spec ov t.primary;
  replicas = map (bake_spec ov) t.replicas;
}

bake_picodata : MachineSpec → PicodataTopology → PicodataTopology
unfolding bake_spec
bake_picodata ov t = record t { instances = map (bake_spec ov) t.instances }

bake_ydb : MachineSpec → YdbTopology → YdbTopology
unfolding bake_spec
bake_ydb ov t = record t {
  storage = bake_spec ov t.storage;
  database = map_option (bake_spec ov) t.database;
}

-- The switch on the kind: only the topology of that kind changes.
bake_database : MachineSpec → DatabaseKind → DatabaseConfig → DatabaseConfig
unfolding bake_postgres bake_mysql bake_picodata bake_ydb
bake_database ov postgres db = record db { postgres = map_option (bake_postgres ov) db.postgres }
bake_database ov mysql db = record db { mysql = map_option (bake_mysql ov) db.mysql }
bake_database ov picodata db = record db { picodata = map_option (bake_picodata ov) db.picodata }
bake_database ov ydb db = record db { ydb = map_option (bake_ydb ov) db.ydb }
bake_database ov (other kind) db = db

-- BakeMachineOverrideIntoTopology
pub bake_machine_override : RunConfig → RunConfig
unfolding bake_database
bake_machine_override cfg = elim (cfg.machine_override) [
  | none ↦ cfg
  | some ov ↦ record cfg {
    database = bake_database ov cfg.database.kind cfg.database;
    machine_override = none;
  }
]

-- The machine of a database node, under the override.
database_spec : Option MachineSpec → ℤ → (cpus memory_mb disk_gb : ℤ) → MachineSpec → MachineSpec
unfolding apply_override
database_spec ov count cpus memory_mb disk_gb m = record {
  role = database;
  count = count;
  cpus = apply_override cpus ov (λ m. m.cpus);
  memory_mb = apply_override memory_mb ov (λ m. m.memory_mb);
  disk_gb = apply_override disk_gb ov (λ m. m.disk_gb);
  disk_type = m.disk_type;
  secondary_disks = m.secondary_disks;
}

-- dbCount, after the loop over the replicas
add_counts : ℤ → List MachineSpec → ℤ
add_counts n [] = n
add_counts n (r ∷ rs) = add_counts (n +ℤ r.count) rs

abbrev optional : Option MachineSpec → List MachineSpec
optional none = []
optional (some m) = m ∷ []

fill_postgres : Option MachineSpec → PostgresTopology → List MachineSpec
unfolding database_spec add_counts
fill_postgres ov t =
    database_spec ov (add_counts t.master.count t.replicas) t.master.cpus t.master.memory_mb
      t.master.disk_gb t.master
    ∷ optional t.haproxy

fill_mysql : Option MachineSpec → MysqlTopology → List MachineSpec
unfolding database_spec add_counts
fill_mysql ov t =
    database_spec ov (add_counts t.primary.count t.replicas) t.primary.cpus t.primary.memory_mb
      t.primary.disk_gb t.primary
    ∷ optional t.proxysql

fill_picodata : Option MachineSpec → PicodataTopology → List MachineSpec
unfolding database_spec
fill_picodata ov t =
    map (λ inst. database_spec ov inst.count inst.cpus inst.memory_mb inst.disk_gb inst) t.instances
    ++ optional t.haproxy

-- if v > best { best = v }
abbrev larger : ℤ → ℤ → ℤ
larger best v = if ltb_ℤ best v then v else best

abbrev larger_in : (MachineSpec → ℤ) → MachineSpec → Option MachineSpec → ℤ
larger_in field storage none = field storage
larger_in field storage (some m) = larger (field storage) (field m)

fill_ydb : Option MachineSpec → YdbTopology → List MachineSpec
unfolding database_spec
fill_ydb ov t =
    database_spec ov (larger_in (λ m. m.count) t.storage t.database)
      (larger_in (λ m. m.cpus) t.storage t.database)
      (larger_in (λ m. m.memory_mb) t.storage t.database)
      (larger_in (λ m. m.disk_gb) t.storage t.database) t.storage
    ∷ optional t.haproxy

abbrev of_topology : {A : Type 0} → (A → List MachineSpec) → Option A → List MachineSpec
of_topology f none = []
of_topology f (some t) = f t

-- The switch on the kind.
database_machines : Option MachineSpec → DatabaseKind → DatabaseConfig → List MachineSpec
unfolding fill_postgres fill_mysql fill_picodata fill_ydb
database_machines ov postgres db = of_topology (fill_postgres ov) db.postgres
database_machines ov mysql db = of_topology (fill_mysql ov) db.mysql
database_machines ov picodata db = of_topology (fill_picodata ov) db.picodata
database_machines ov ydb db = of_topology (fill_ydb ov) db.ydb
database_machines ov (other kind) db = []

stroppy_spec : Option MachineSpec → MachineSpec
stroppy_spec none = record {
  role = stroppy;
  count = pos 1;
  cpus = pos 2;
  memory_mb = pos 4096;
  disk_gb = pos 20;
  disk_type = "";
  secondary_disks = [];
}
stroppy_spec (some m) = record m { role = stroppy; count = pos 1 }

-- FillMachinesFromTopology
pub fill_machines : RunConfig → RunConfig
unfolding database_machines stroppy_spec
fill_machines cfg = elim (cfg.machines) [
  | _ ∷ _ ↦ cfg
  | [] ↦ record cfg {
    machines =
        database_machines cfg.machine_override cfg.database.kind cfg.database
        ++ stroppy_spec cfg.stroppy.machine ∷ [];
  }
]
