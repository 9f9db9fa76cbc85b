-- ===== src/DbConfig/Merged.antt =====
-- internal/domain/dbconfig: what the rendered files set, and by whose choice.
use hatchet_workflow.Base.{
  ◌≡◌, refl, ap, ◌∙◌, String, Bool, true, false, List, [], ◌∷◌, map, Option, none, some,
  if◌then◌else◌, ◌==◌, lookup, insert, lookup-insert, any, arith, eq_iff, eq_refl,
}
use hatchet_workflow.Base.Int.{ℤ}
use hatchet_workflow.Base.Text.{has_suffix, replace_all}
use hatchet_workflow.DbConfig.Defaults.{or_else, or_else-elim, default_of, lookup-postgres_base}
use hatchet_workflow.DbConfig.{
  Settings, Format, resolve, resolve_memory_percents, override, insert_sorted, sort_strings,
  value_of, in_order, PostgresOpts, postgres_base, postgres_settings, MysqlOpts, mysql_base,
  mysql_settings, without_server_id, short_units, mysql_defaults,
}

-- What is chosen for a key by the user, or else by the defaults.
unfoldable pub chosen : (options base : Settings) → String → Option String
chosen options base k = elim (lookup k options) [ some v ↦ some v | none ↦ lookup k base ]

pub lookup-override :
    (options base : Settings) (k : String)
    → lookup k (override options base) ≡ chosen options base k
unfolding override chosen lookup
lookup-override [] base k = refl
lookup-override ((j, v) ∷ options) base k =
    let ih = lookup-override options base k in
    let now = lookup-insert j k v (override options base) in ground (arith, ih, now)

-- A function on the values of a map.
unfoldable pub mapped : (String → String) → Option String → Option String
mapped f none = none
mapped f (some v) = some (f v)

lookup-map :
    (f : String → String) (m : Settings) (k : String)
    → lookup k (map (λ (entry : String × String). (entry.0, f entry.1)) m) ≡ mapped f (lookup k m)
unfolding lookup mapped
lookup-map f [] k = refl
lookup-map f ((j, v) ∷ m) k = let ih = lookup-map f m k in ground (arith, ih)

any-insert_sorted :
    (k j : String) (keys : List String)
    → any (λ i. i == k) (insert_sorted j keys) ≡ (if j == k then true else any (λ i. i == k) keys)
unfolding insert_sorted
any-insert_sorted k j [] = refl
any-insert_sorted k j (i ∷ keys) = let ih = any-insert_sorted k j keys in ground (arith, ih)

any-sort_strings :
    (k : String) (keys : List String)
    → any (λ i. i == k) (sort_strings keys) ≡ any (λ i. i == k) keys
unfolding sort_strings
any-sort_strings k [] = refl
any-sort_strings k (j ∷ keys) =
    let ih = any-sort_strings k keys in
    let now = any-insert_sorted k j (sort_strings keys) in ground (arith, ih, now)

lookup-keyed :
    (f : String → String) (keys : List String) (k : String)
    → lookup k (map (λ (i : String). (i, f i)) keys)
      ≡ (if any (λ i. i == k) keys then some (f k) else none)
unfolding lookup
lookup-keyed f [] k = refl
lookup-keyed f (j ∷ keys) k = let ih = lookup-keyed f keys k in ground (arith, ih, eq_iff j k)

any-keys :
    (m : Settings) (k : String)
    → (if any (λ i. i == k) (map (λ (entry : String × String). entry.0) m)
        then some (value_of m k)
        else none)
      ≡ lookup k m
unfolding value_of lookup
any-keys [] k = refl
any-keys ((j, v) ∷ m) k = let ih = any-keys m k in ground (arith, ih)

-- The order of the lines changes no value.
pub lookup-in_order : (m : Settings) (k : String) → lookup k (in_order m) ≡ lookup k m
unfolding in_order
lookup-in_order m k =
    lookup-keyed (value_of m) (sort_strings (map (λ (entry : String × String). entry.0) m)) k
    ∙ (ap (λ b. if b then some (value_of m k) else none)
          (any-sort_strings k (map (λ (entry : String × String). entry.0) m))
        ∙ any-keys m k)

settings-chosen :
    (fmt : Format) (options base : Settings) (total : ℤ) (k : String)
    → lookup k (in_order (resolve_memory_percents fmt (override options base) total))
      ≡ mapped (resolve fmt total) (chosen options base k)
unfolding resolve_memory_percents
settings-chosen fmt options base total k =
    lookup-in_order (resolve_memory_percents fmt (override options base) total) k
    ∙ (lookup-map (resolve fmt total) (override options base) k
        ∙ ap (mapped (resolve fmt total)) (lookup-override options base k))

-- The lines of postgresql.conf set exactly the keys of the user's options and of the defaults; each to
-- the user's value where there is one, and to the default otherwise, with a share of the memory in
-- place of a percentage. The defaults are the tuning, summarize_wal for version 17, and, without
-- Patroni, wal_level, max_wal_senders and max_replication_slots, for a replica also hot_standby.
pub lookup-postgres_settings :
    (fmt : Format) (o : PostgresOpts) (k : String)
    → lookup k (postgres_settings fmt o)
      ≡ mapped (resolve fmt o.total_memory_mb) (or_else (lookup k o.options) (default_of o k))
unfolding postgres_settings chosen
lookup-postgres_settings fmt o k =
    settings-chosen fmt o.options (postgres_base o) o.total_memory_mb k
    ∙ ap (mapped (resolve fmt o.total_memory_mb))
        (or_else-elim (lookup k o.options) _ _ (lookup-postgres_base o k))

lookup-without_server_id :
    (options : Settings) (k : String)
    → lookup k (without_server_id options) ≡ (if k == "server-id" then none else lookup k options)
unfolding lookup without_server_id
lookup-without_server_id [] k = ground arith
lookup-without_server_id ((j, v) ∷ options) k =
    let ih = lookup-without_server_id options k in
    ground (arith, ih, eq_iff j k, eq_iff j "server-id", eq_iff k "server-id")

-- An entry that is put in under another key.
beside :
    (k v : String) (m : Settings)
    → (k == "server-id") ≡ false
    → lookup "server-id" (insert k v m) ≡ lookup "server-id" m
beside k v m e =
    lookup-insert k "server-id" v m ∙ ap (λ b. if b then some v else lookup "server-id" m) e

-- The two settings of group replication, or of a role, that come last.
kept_if :
    (b : Bool) (m n : Settings) (w : Option String)
    → lookup "server-id" m ≡ w
    → lookup "server-id" n ≡ w
    → lookup "server-id" (if b then m else n) ≡ w
kept_if true m n w p q = p
kept_if false m n w p q = q

first-server_id :
    (m : Settings)
    → lookup "server-id" (
        insert "log_bin" "mysql-bin" (
          insert "enforce_gtid_consistency" "ON"
            (insert "gtid_mode" "ON" (insert "server-id" "__MYSQL_SERVER_ID__" m))))
      ≡ some "__MYSQL_SERVER_ID__"
first-server_id m =
    beside "log_bin" "mysql-bin" _ refl
    ∙ (beside "enforce_gtid_consistency" "ON" _ refl
        ∙ (beside "gtid_mode" "ON" _ refl
            ∙ lookup-insert "server-id" "server-id" "__MYSQL_SERVER_ID__" m))

synced-server_id :
    (semi primary : Bool) (m : Settings) (w : Option String)
    → lookup "server-id" m ≡ w
    → lookup "server-id" (
        if semi
        then (if primary
            then insert "rpl_semi_sync_source_enabled" "1"
                (insert "plugin-load-add" "semisync_source.so" m)
            else insert "rpl_semi_sync_replica_enabled" "1"
                (insert "plugin-load-add" "semisync_replica.so" m))
        else m)
      ≡ w
synced-server_id semi primary m w p =
    kept_if semi _ m w
      (kept_if primary _ _ w
        (beside "rpl_semi_sync_source_enabled" "1" _ refl
          ∙ (beside "plugin-load-add" "semisync_source.so" m refl ∙ p))
        (beside "rpl_semi_sync_replica_enabled" "1" _ refl
          ∙ (beside "plugin-load-add" "semisync_replica.so" m refl ∙ p)))
      p

base-server_id : (o : MysqlOpts) → lookup "server-id" (mysql_base o) ≡ some "__MYSQL_SERVER_ID__"
unfolding mysql_base
base-server_id o =
    let synced =
      synced-server_id o.semi_sync (o.role == "primary") _ (some "__MYSQL_SERVER_ID__")
        (first-server_id (mysql_defaults (if o.version == "" then "8.0" else o.version))) in
    kept_if o.group_repl _ _ (some "__MYSQL_SERVER_ID__")
      (beside "report_host" "__MYSQL_LOCAL_HOST__" _ refl
        ∙ (beside "plugin-load-add" "group_replication.so" _ refl
            ∙ (beside "binlog_checksum" "NONE" _ refl ∙ synced)))
      synced

-- Whatever the user's options are, my.cnf sets server-id to the placeholder that the agent replaces by
-- the number of the node.
pub mysql_settings-server_id :
    (fmt : Format) (o : MysqlOpts)
    → lookup "server-id" (mysql_settings fmt o) ≡ some "__MYSQL_SERVER_ID__"
unfolding mysql_settings chosen mapped resolve short_units has_suffix replace_all
mysql_settings-server_id fmt o =
    let options = without_server_id o.options in
    let chosen_one : chosen options (mysql_base o) "server-id" ≡ some "__MYSQL_SERVER_ID__" =
      ground (
        arith,
        lookup-without_server_id o.options "server-id",
        base-server_id o,
        eq_refl "server-id",
      ) in
    lookup-map short_units
      (in_order (resolve_memory_percents fmt (override options (mysql_base o)) o.total_memory_mb))
      "server-id"
    ∙ (ap (mapped short_units)
          (settings-chosen fmt options (mysql_base o) o.total_memory_mb "server-id")
        ∙ ap (λ w. mapped short_units (mapped (resolve fmt o.total_memory_mb) w)) chosen_one)
