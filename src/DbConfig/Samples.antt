-- ===== src/DbConfig/Samples.antt =====
-- Options and budgets, with the theorems about internal/domain/dbconfig at these inputs.
use hatchet_workflow.Base.{
  ℕ, ◌≡◌, refl, ◌⊎◌, true, false, [], ◌∷◌, none, some, if◌then◌else◌, ◌==◌, lookup,
}
use hatchet_workflow.Base.Int.{pos, over, wrap64, times}
use hatchet_workflow.Base.Text.{join, has_suffix, trim_suffix}
use hatchet_workflow.DbConfig.{
  Format, PostgresOpts, MysqlOpts, postgres_settings, mysql_settings, resolve, picodata_memory,
}
use hatchet_workflow.DbConfig.Merged.{
  lookup-postgres_settings, mysql_settings-server_id, chosen, mapped,
}
use hatchet_workflow.DbConfig.Memory.{IsPercentage, Megabytes, resolve-cases, picodata_memory-unit}

-- Two numbers are enough for these inputs.
abbrev fmt : Format
fmt = record {
  scan =
      λ text. if text == "25" then some (pos 25) else if text == "4GB" then some (pos 4) else none;
  show = λ n. "256";
}

abbrev replica : PostgresOpts
replica = record {
  version = "";
  role = "replica";
  options = ("max_connections", "500") ∷ [];
  patroni = false;
  total_memory_mb = pos 1024;
}

lookup-postgres_settings_example :
    lookup "max_connections" (postgres_settings fmt replica) ≡ some "500"
unfolding chosen mapped resolve lookup has_suffix
lookup-postgres_settings_example = lookup-postgres_settings fmt replica "max_connections"

abbrev stubborn : MysqlOpts
stubborn = record {
  version = "8.4";
  role = "primary";
  semi_sync = true;
  group_repl = false;
  options = ("server-id", "7") ∷ [];
  total_memory_mb = pos 1024;
}

mysql_settings-server_id_example :
    lookup "server-id" (mysql_settings fmt stubborn) ≡ some "__MYSQL_SERVER_ID__"
mysql_settings-server_id_example = mysql_settings-server_id fmt stubborn

resolve-cases_example :
    (((p : ℕ) → ¬ IsPercentage fmt "25%" p) × (resolve fmt (pos 1024) "25%" ≡ "25%"))
    ⊎ ((p n : ℕ) × IsPercentage fmt "25%" p
        × Megabytes (over (wrap64 (times (pos 1024) p)) 100) n
        × (resolve fmt (pos 1024) "25%" ≡ join (fmt.show (pos n)) "MB"))
resolve-cases_example = resolve-cases fmt (pos 1024) "25%"

-- Four gigabytes are set as four megabytes.
picodata_memory-unit_example :
    picodata_memory fmt (("memtx_memory", "4GB") ∷ []) (pos 8192) ≡ pos 4194304
unfolding lookup trim_suffix
picodata_memory-unit_example =
    picodata_memory-unit fmt (("memtx_memory", "4GB") ∷ []) (pos 8192) "4GB" 3 refl refl
