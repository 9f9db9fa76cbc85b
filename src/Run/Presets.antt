-- ===== src/Run/Presets.antt =====
-- internal/domain/types/run.go: the topology presets. A preset is a constructor, and the map of the
-- presets of a database is a function; options that a preset leaves out are empty.
use hatchet_workflow.Base.{ℕ, String, Bool, true, false, [], ◌∷◌, none, some}
use hatchet_workflow.Base.Int.{pos}
use hatchet_workflow.Run.Types.{
  MachineRole, database, proxy, MachineSpec, PostgresTopology, MysqlTopology, PicodataTier,
  PicodataTopology,
}

-- PostgresPreset, MySQLPreset and PicodataPreset
pub data PostgresPreset : Type 0 where
  postgres_single postgres_ha postgres_scale : PostgresPreset

pub data MysqlPreset : Type 0 where
  mysql_single mysql_replica mysql_group : MysqlPreset

pub data PicodataPreset : Type 0 where
  picodata_single picodata_cluster picodata_scale : PicodataPreset

-- A literal of MachineSpec, without a disk type and secondary disks.
abbrev spec : MachineRole → (count cpus memory_mb disk_gb : ℕ) → MachineSpec
spec role count cpus memory_mb disk_gb = record {
  role = role;
  count = pos count;
  cpus = pos cpus;
  memory_mb = pos memory_mb;
  disk_gb = pos disk_gb;
  disk_type = "";
  secondary_disks = [];
}

-- PostgresPresets
pub postgres_presets : PostgresPreset → PostgresTopology
postgres_presets postgres_single = record {
  master = spec database 1 2 4096 50;
  replicas = [];
  haproxy = none;
  pg_bouncer = false;
  patroni = false;
  etcd = false;
  sync_replicas = pos 0;
  master_options = [];
  replica_options = [];
  haproxy_options = [];
  pg_bouncer_options = [];
  patroni_options = [];
  etcd_options = [];
}
postgres_presets postgres_ha = record {
  master = spec database 1 4 8192 100;
  replicas = spec database 2 4 8192 100 ∷ [];
  haproxy = some (spec proxy 1 2 2048 20);
  pg_bouncer = true;
  patroni = true;
  etcd = true;
  sync_replicas = pos 1;
  master_options =
      ("shared_buffers", "25%") ∷ ("max_connections", "200") ∷ ("work_mem", "64MB") ∷ [];
  replica_options =
      ("shared_buffers", "25%") ∷ ("max_connections", "200") ∷ ("work_mem", "64MB") ∷ [];
  haproxy_options = [];
  pg_bouncer_options =
      ("pool_mode", "transaction") ∷ ("max_client_conn", "1000") ∷ ("default_pool_size", "25") ∷ [];
  patroni_options = ("ttl", "30") ∷ ("loop_wait", "10") ∷ ("retry_timeout", "10") ∷ [];
  etcd_options = [];
}
postgres_presets postgres_scale = record {
  master = spec database 1 8 16384 200;
  replicas = spec database 4 8 16384 200 ∷ [];
  haproxy = some (spec proxy 2 2 2048 20);
  pg_bouncer = true;
  patroni = true;
  etcd = true;
  sync_replicas = pos 2;
  master_options =
      ("shared_buffers", "25%")
      ∷ ("max_connections", "500")
      ∷ ("work_mem", "128MB")
      ∷ ("effective_cache_size", "75%")
      ∷ [];
  replica_options =
      ("shared_buffers", "25%")
      ∷ ("max_connections", "500")
      ∷ ("work_mem", "128MB")
      ∷ ("effective_cache_size", "75%")
      ∷ [];
  haproxy_options = [];
  pg_bouncer_options =
      ("pool_mode", "transaction") ∷ ("max_client_conn", "2000") ∷ ("default_pool_size", "50") ∷ [];
  patroni_options = ("ttl", "30") ∷ ("loop_wait", "10") ∷ ("retry_timeout", "10") ∷ [];
  etcd_options = [];
}

-- MySQLPresets
pub mysql_presets : MysqlPreset → MysqlTopology
mysql_presets mysql_single = record {
  primary = spec database 1 2 4096 50;
  replicas = [];
  proxysql = none;
  group_repl = false;
  semi_sync = false;
  primary_options = [];
  replica_options = [];
  proxysql_options = [];
}
mysql_presets mysql_replica = record {
  primary = spec database 1 4 8192 100;
  replicas = spec database 2 4 8192 100 ∷ [];
  proxysql = some (spec proxy 1 2 2048 20);
  group_repl = false;
  semi_sync = true;
  primary_options = ("innodb_buffer_pool_size", "25%") ∷ ("max_connections", "200") ∷ [];
  replica_options = ("innodb_buffer_pool_size", "25%") ∷ ("max_connections", "200") ∷ [];
  proxysql_options = ("threads", "4") ∷ ("max_connections", "2048") ∷ [];
}
mysql_presets mysql_group = record {
  primary = spec database 1 8 16384 200;
  replicas = spec database 2 8 16384 200 ∷ [];
  proxysql = some (spec proxy 2 2 2048 20);
  group_repl = true;
  semi_sync = false;
  primary_options = ("innodb_buffer_pool_size", "25%") ∷ ("max_connections", "500") ∷ [];
  replica_options = ("innodb_buffer_pool_size", "25%") ∷ ("max_connections", "500") ∷ [];
  proxysql_options = ("threads", "4") ∷ ("max_connections", "2048") ∷ [];
}

abbrev tier : String → ℕ → Bool → ℕ → PicodataTier
tier name replication can_vote count = record {
  name = name;
  replication = pos replication;
  can_vote = can_vote;
  count = pos count;
}

-- PicodataPresets
pub picodata_presets : PicodataPreset → PicodataTopology
picodata_presets picodata_single = record {
  instances = spec database 1 2 4096 50 ∷ [];
  haproxy = none;
  replication = pos 1;
  shards = pos 1;
  tiers = [];
  instance_options = [];
  haproxy_options = [];
}
picodata_presets picodata_cluster = record {
  instances = spec database 3 4 8192 100 ∷ [];
  haproxy = some (spec proxy 1 2 2048 20);
  replication = pos 2;
  shards = pos 3;
  tiers = [];
  instance_options = [];
  haproxy_options = [];
}
picodata_presets picodata_scale = record {
  instances = spec database 6 8 16384 200 ∷ [];
  haproxy = some (spec proxy 2 2 2048 20);
  replication = pos 3;
  shards = pos 6;
  tiers = tier "compute" 1 true 3 ∷ tier "storage" 2 false 3 ∷ [];
  instance_options = [];
  haproxy_options = [];
}
