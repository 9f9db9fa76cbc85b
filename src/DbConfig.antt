-- ===== src/DbConfig.antt =====
-- internal/domain/types/db_defaults.go and internal/domain/dbconfig: postgres.go, mysql.go and
-- picodata.go, the renderers of configuration files. A map is an association list in which a key stands
-- at most once, so the order in which Go walks it does not matter. Scanning and printing of numbers by
-- the package fmt are a parameter.
pub mod Defaults
pub mod Merged
pub mod Memory
mod Samples
use Prim.Native.Nat.{Ordering, lt, eq, gt}
use Prim.Native.String.{compare}
use hatchet_workflow.Base.{
  ℕ, zero, suc, ◌-◌, ◌*◌, String, Bool, true, false, not, ◌&&◌, List, [], ◌∷◌, map, Option, none,
  some, if◌then◌else◌, ◌==◌, lookup, insert, leb, keep,
}
use hatchet_workflow.Base.Int.{ℤ, pos, negsuc, ltb_ℤ, wrap64, times, over}
use hatchet_workflow.Base.Text.{join, has_prefix, has_suffix, trim_suffix, replace_all}

abbrev pub Settings : Type 0
Settings = List (String × String)

-- fmt.Sscanf and fmt.Sprintf with %d
pub record Format : Type 0 where
  pub scan : String → Option ℤ
  pub show : ℤ → String

-- PostgresDefaults
unfoldable pub postgres_defaults : (version : String) → Settings
postgres_defaults version =
    let base : Settings =
      ("shared_buffers", "25%")
      ∷ ("max_connections", "200")
      ∷ ("max_wal_size", "4GB")
      ∷ ("effective_cache_size", "75%")
      ∷ ("work_mem", "64MB")
      ∷ ("maintenance_work_mem", "512MB")
      ∷ ("wal_buffers", "64MB")
      ∷ ("checkpoint_completion_target", "0.9")
      ∷ ("random_page_cost", "1.1")
      ∷ ("effective_io_concurrency", "200")
      ∷ ("listen_addresses", "'*'")
      ∷ [] in
    if version == "17" then insert "summarize_wal" "on" base else base

-- MySQLDefaults
unfoldable pub mysql_defaults : (version : String) → Settings
mysql_defaults version =
    let base : Settings =
      ("innodb_buffer_pool_size", "25%")
      ∷ ("max_connections", "200")
      ∷ ("innodb_log_file_size", "1G")
      ∷ ("innodb_flush_method", "O_DIRECT")
      ∷ ("innodb_flush_log_at_trx_commit", "1")
      ∷ ("innodb_io_capacity", "2000")
      ∷ ("innodb_io_capacity_max", "4000")
      ∷ ("innodb_read_io_threads", "8")
      ∷ ("innodb_write_io_threads", "8")
      ∷ ("table_open_cache", "4000")
      ∷ ("thread_cache_size", "64")
      ∷ ("bind_address", "0.0.0.0")
      ∷ [] in
    if version == "8.4"
    then insert "default_authentication_plugin" "caching_sha2_password" base
    else base

-- PicodataDefaults
unfoldable pub picodata_defaults : (version : String) → Settings
picodata_defaults version =
    ("replication_factor", "2")
    ∷ ("shards", "3")
    ∷ ("memtx_memory", "2048MB")
    ∷ ("vinyl_memory", "25%")
    ∷ ("net_msg_max", "1024")
    ∷ ("readahead", "16384")
    ∷ ("listen", "0.0.0.0:3301")
    ∷ ("log_level", "info")
    ∷ []

-- YDBDefaults
unfoldable pub ydb_defaults : (version : String) → Settings
ydb_defaults version = ("fault_tolerance", "none") ∷ ("database_path", "/Root/testdb") ∷ []

-- The floor and the cap of ResolveMemoryPercents, and its share of the memory: total * percent / 100
-- as an int.
unfoldable pub clamp : ℤ → ℤ
clamp value =
    let raised = if ltb_ℤ value (pos 32) then pos 32 else value in
    if ltb_ℤ (pos 2048) raised then pos 2048 else raised

unfoldable pub share_of : (total : ℤ) (percent : ℕ) → ℤ
unfolding clamp
share_of total percent = clamp (over (wrap64 (times total percent)) 100)

-- ResolveMemoryPercents, on one value
unfoldable pub resolve : Format → (total : ℤ) → String → String
unfolding share_of
resolve fmt total v =
    if has_suffix "%" v
    then elim (fmt.scan (trim_suffix "%" v)) [
      | none ↦ v
      | some (negsuc _) ↦ v
      | some (pos zero) ↦ v
      | some (pos (suc k)) ↦ join (fmt.show (share_of total (suc k))) "MB"
    ]
    else v

-- ResolveMemoryPercents
unfoldable pub resolve_memory_percents : Format → Settings → (total : ℤ) → Settings
unfolding resolve
resolve_memory_percents fmt m total =
    map (λ (entry : String × String). (entry.0, resolve fmt total entry.1)) m

-- The user's options over the defaults.
unfoldable pub override : (options base : Settings) → Settings
override [] base = base
override (entry ∷ options) base = insert entry.0 entry.1 (override options base)

-- sort.Strings
unfoldable pub insert_sorted : String → List String → List String
insert_sorted k [] = k ∷ []
insert_sorted k (j ∷ rest) =
    let later = insert_sorted k rest in
    elim (compare j k) [ lt ↦ j ∷ later | eq ↦ k ∷ j ∷ rest | gt ↦ k ∷ j ∷ rest ]

unfoldable pub sort_strings : List String → List String
unfolding insert_sorted
sort_strings [] = []
sort_strings (k ∷ rest) = insert_sorted k (sort_strings rest)

-- m[k], the empty text for a missing key
unfoldable pub value_of : Settings → String → String
value_of m k = elim (lookup k m) [ some v ↦ v | none ↦ "" ]

-- The entries of a map by their sorted keys.
unfoldable pub in_order : Settings → Settings
unfolding sort_strings value_of
in_order m =
    map (λ (k : String). (k, value_of m k))
      (sort_strings (map (λ (entry : String × String). entry.0) m))

-- One line for each entry.
unfoldable pub print_lines : Settings → String
print_lines [] = ""
print_lines (entry ∷ rest) = join entry.0 (join " = " (join entry.1 (join "\n" (print_lines rest))))

-- RenderPostgresConfOpts
pub record PostgresOpts : Type 0 where
  pub version : String
  pub role : String
  pub options : Settings
  pub patroni : Bool
  pub total_memory_mb : ℤ

-- The defaults of RenderPostgresConf, with the settings of streaming replication.
unfoldable pub postgres_base : PostgresOpts → Settings
unfolding postgres_defaults
postgres_base o =
    let defaults = postgres_defaults (if o.version == "" then "16" else o.version) in
    let replicating =
      insert "max_replication_slots" "10"
        (insert "max_wal_senders" "10" (insert "wal_level" "replica" defaults)) in
    if not o.patroni
    then (if o.role == "replica" then insert "hot_standby" "on" replicating else replicating)
    else defaults

unfoldable pub postgres_settings : Format → PostgresOpts → Settings
unfolding postgres_base override resolve_memory_percents in_order
postgres_settings fmt o =
    in_order (resolve_memory_percents fmt (override o.options (postgres_base o)) o.total_memory_mb)

-- RenderPostgresConf
unfoldable pub render_postgres_conf : Format → PostgresOpts → String
unfolding postgres_settings print_lines
render_postgres_conf fmt o =
    join "# Generated by stroppy-agent\n" (print_lines (postgres_settings fmt o))

-- RenderMySQLConfOpts
pub record MysqlOpts : Type 0 where
  pub version : String
  pub role : String
  pub semi_sync : Bool
  pub group_repl : Bool
  pub options : Settings
  pub total_memory_mb : ℤ

-- The defaults of RenderMySQLConf, with the settings of replication.
unfoldable pub mysql_base : MysqlOpts → Settings
unfolding mysql_defaults
mysql_base o =
    let defaults = insert "log_bin" "mysql-bin" (
      insert "enforce_gtid_consistency" "ON" (
        insert "gtid_mode" "ON" (
          insert "server-id" "__MYSQL_SERVER_ID__"
            (mysql_defaults (if o.version == "" then "8.0" else o.version))))) in
    let synced =
      if o.semi_sync
      then (if o.role == "primary"
          then insert "rpl_semi_sync_source_enabled" "1"
              (insert "plugin-load-add" "semisync_source.so" defaults)
          else insert "rpl_semi_sync_replica_enabled" "1"
              (insert "plugin-load-add" "semisync_replica.so" defaults))
      else defaults in
    if o.group_repl
    then insert "report_host" "__MYSQL_LOCAL_HOST__"
        (insert "plugin-load-add" "group_replication.so" (insert "binlog_checksum" "NONE" synced))
    else synced

-- The user's options without the one that the agent sets.
unfoldable pub without_server_id : Settings → Settings
without_server_id options = keep (λ (entry : String × String). not (entry.0 == "server-id")) options

-- "MB" as "M" and "GB" as "G"
unfoldable pub short_units : String → String
short_units v = replace_all "GB" "G" (replace_all "MB" "M" v)

unfoldable pub mysql_settings : Format → MysqlOpts → Settings
unfolding mysql_base without_server_id override resolve_memory_percents in_order short_units
mysql_settings fmt o =
    map (λ (entry : String × String). (entry.0, short_units entry.1))
      (in_order (
        resolve_memory_percents fmt (override (without_server_id o.options) (mysql_base o))
          o.total_memory_mb))

-- RenderMySQLConf
unfoldable pub render_mysql_conf : Format → MysqlOpts → String
unfolding mysql_settings print_lines
render_mysql_conf fmt o =
    join "# Generated by stroppy-agent\n[mysqld]\n" (print_lines (mysql_settings fmt o))

-- picodataMemtxBytes
unfoldable pub picodata_memtx_bytes : Format → String → ℤ
picodata_memtx_bytes fmt s = elim (fmt.scan (trim_suffix "MB" s)) [
  | some (pos (suc mb)) ↦ wrap64 (pos ((suc mb * 1024) * 1024))
  | some (pos zero) ↦ pos 2147483648
  | some (negsuc _) ↦ pos 2147483648
  | none ↦ pos 2147483648
]

-- The memory of RenderPicodataConf: user options come after the percents are resolved.
unfoldable pub picodata_memory : Format → (options : Settings) (total : ℤ) → ℤ
unfolding picodata_defaults resolve_memory_percents override picodata_memtx_bytes value_of
picodata_memory fmt options total = picodata_memtx_bytes fmt (
    value_of (override options (resolve_memory_percents fmt (picodata_defaults "25.3") total))
      "memtx_memory")
