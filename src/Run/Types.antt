-- ===== src/Run/Types.antt =====
-- internal/domain/types/run.go: the configuration of a run. An int is a ℤ, an options map is an
-- association list, and a pointer is an Option. A constant of a string type outside those named is
-- the constructor `other`. Fields that no modelled function reads are left out of RunConfig.
use hatchet_workflow.Base.{String, Bool, true, false, List, Option, ◌==◌}
use hatchet_workflow.Base.Int.{ℤ}

-- DatabaseKind
pub data DatabaseKind : Type 0 where
  postgres mysql picodata ydb : DatabaseKind
  other : (kind : String) → DatabaseKind

-- k == j
unfoldable pub same_kind : DatabaseKind → DatabaseKind → Bool
same_kind postgres postgres = true
same_kind mysql mysql = true
same_kind picodata picodata = true
same_kind ydb ydb = true
same_kind (other k) (other j) = k == j
same_kind _ _ = false

-- MachineRole
pub data MachineRole : Type 0 where
  database monitor stroppy etcd proxy pgbouncer : MachineRole
  other_role : (role : String) → MachineRole

pub record SecondaryDisk : Type 0 where
  pub device_name : String
  pub size_gb : ℤ
  pub type : String

pub record MachineSpec : Type 0 where
  pub role : MachineRole
  pub count : ℤ
  pub cpus : ℤ
  pub memory_mb : ℤ
  pub disk_gb : ℤ
  pub disk_type : String
  pub secondary_disks : List SecondaryDisk

abbrev pub Options : Type 0
Options = List (String × String)

pub record PostgresTopology : Type 0 where
  pub master : MachineSpec
  pub replicas : List MachineSpec
  pub haproxy : Option MachineSpec
  pub pg_bouncer : Bool
  pub patroni : Bool
  pub etcd : Bool
  pub sync_replicas : ℤ
  pub master_options : Options
  pub replica_options : Options
  pub haproxy_options : Options
  pub pg_bouncer_options : Options
  pub patroni_options : Options
  pub etcd_options : Options

pub record MysqlTopology : Type 0 where
  pub primary : MachineSpec
  pub replicas : List MachineSpec
  pub proxysql : Option MachineSpec
  pub group_repl : Bool
  pub semi_sync : Bool
  pub primary_options : Options
  pub replica_options : Options
  pub proxysql_options : Options

pub record PicodataTier : Type 0 where
  pub name : String
  pub replication : ℤ
  pub can_vote : Bool
  pub count : ℤ

pub record PicodataTopology : Type 0 where
  pub instances : List MachineSpec
  pub haproxy : Option MachineSpec
  pub replication : ℤ
  pub shards : ℤ
  pub tiers : List PicodataTier
  pub instance_options : Options
  pub haproxy_options : Options

pub record YdbTopology : Type 0 where
  pub storage : MachineSpec
  pub database : Option MachineSpec
  pub haproxy : Option MachineSpec
  pub fault_tolerance : String
  pub database_path : String
  pub storage_options : Options
  pub database_options : Options
  pub haproxy_options : Options

pub record DatabaseConfig : Type 0 where
  pub kind : DatabaseKind
  pub version : String
  pub postgres : Option PostgresTopology
  pub mysql : Option MysqlTopology
  pub picodata : Option PicodataTopology
  pub ydb : Option YdbTopology
  pub rendered_config_overrides : Options

-- The stroppy settings that are validated, and the runner's machine.
pub record StroppyConfig : Type 0 where
  pub script : String
  pub duration : String
  pub vus : ℤ
  pub pool_size : ℤ
  pub scale_factor : ℤ
  pub machine : Option MachineSpec
  pub workload : String

pub record RunConfig : Type 0 where
  pub machines : List MachineSpec
  pub database : DatabaseConfig
  pub stroppy : StroppyConfig
  pub preset_id : String
  pub machine_override : Option MachineSpec
