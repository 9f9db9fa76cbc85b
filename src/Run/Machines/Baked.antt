-- ===== src/Run/Machines/Baked.antt =====
-- internal/domain/run/machines.go: an override baked into the topology and one applied while the
-- machines are filled in.
use hatchet_workflow.Base.{
  map-append, Bool, true, false, ◌≡◌, refl, List, [], ◌∷◌, ◌++◌, map, Option, none, some,
  if◌then◌else◌, Bool-cases, inl, inr,
}
use hatchet_workflow.Base.Int.{ℤ, ltb_ℤ, ◌+ℤ◌}
use hatchet_workflow.Run.Types.{
  DatabaseKind, postgres, mysql, picodata, ydb, other, MachineSpec, PostgresTopology, MysqlTopology,
  PicodataTopology, YdbTopology, DatabaseConfig, RunConfig,
}
use hatchet_workflow.Run.Machines.{
  apply_override, bake_spec, bake_postgres, bake_mysql, bake_picodata, bake_ydb, bake_database,
  bake_machine_override, database_spec, add_counts, fill_postgres, fill_mysql, fill_picodata,
  fill_ydb, database_machines, fill_machines, stroppy_spec, optional, larger, larger_in,
  of_topology, map_option, positive,
}

-- A machine without its disk type.
abbrev pub sized : MachineSpec → MachineSpec
sized m = record m { disk_type = "" }

baked_field :
    (ov : MachineSpec) (field : MachineSpec → ℤ) (x : ℤ)
    → (if positive (field ov) then field ov else x) ≡ apply_override x (some ov) field
unfolding apply_override
baked_field ov field x = refl

-- Taking the larger value before the override or after it is the same.
larger_baked :
    (ov : MachineSpec) (field : MachineSpec → ℤ) (x y : ℤ)
    → larger (apply_override x (some ov) field) (apply_override y (some ov) field)
      ≡ apply_override (larger x y) (some ov) field
unfolding apply_override
larger_baked ov field x y = elim (Bool-cases (positive (field ov))) [
  | inl e ↦ rw (e) (same (field ov) (ltb_ℤ (field ov) (field ov)))
  | inr e ↦ rw (e)
]
  where
    same : (v : ℤ) (b : Bool) → (if b then v else v) ≡ v
    same v true = refl
    same v false = refl

add_counts_baked :
    (ov : MachineSpec) (n : ℤ) (rs : List MachineSpec)
    → add_counts n (map (bake_spec ov) rs) ≡ add_counts n rs
unfolding add_counts bake_spec
add_counts_baked ov n [] = refl
add_counts_baked ov n (r ∷ rs) = add_counts_baked ov (n +ℤ r.count) rs

postgres_baked :
    (ov : MachineSpec) (t : PostgresTopology)
    → map sized (fill_postgres none (bake_postgres ov t)) ≡ map sized (fill_postgres (some ov) t)
unfolding fill_postgres bake_postgres bake_spec apply_override database_spec
postgres_baked ov t = rw (add_counts_baked ov t.master.count t.replicas)

mysql_baked :
    (ov : MachineSpec) (t : MysqlTopology)
    → map sized (fill_mysql none (bake_mysql ov t)) ≡ map sized (fill_mysql (some ov) t)
unfolding fill_mysql bake_mysql bake_spec apply_override database_spec
mysql_baked ov t = rw (add_counts_baked ov t.primary.count t.replicas)

instances_baked :
    (ov : MachineSpec) (instances rest : List MachineSpec)
    → map sized (
        map
          (λ inst. database_spec none inst.count inst.cpus inst.memory_mb inst.disk_gb inst)
          (map (bake_spec ov) instances)
        ++ rest)
      ≡ map sized (
          map
            (λ inst. database_spec (some ov) inst.count inst.cpus inst.memory_mb inst.disk_gb inst)
            instances
          ++ rest)
unfolding bake_spec apply_override database_spec
instances_baked ov [] rest = refl
instances_baked ov (m ∷ instances) rest = rw (instances_baked ov instances rest)

larger_in_baked :
    (ov : MachineSpec) (field : MachineSpec → ℤ)
    → ((m : MachineSpec) → field (bake_spec ov m) ≡ apply_override (field m) (some ov) field)
    → (s : MachineSpec) (d : Option MachineSpec)
    → larger_in field (bake_spec ov s) (map_option (bake_spec ov) d)
      ≡ apply_override (larger_in field s d) (some ov) field
larger_in_baked ov field baked s none = baked s
larger_in_baked ov field baked s (some m) =
    rw (baked s, baked m) (larger_baked ov field (field s) (field m))

count_baked :
    (ov s : MachineSpec) (d : Option MachineSpec)
    → larger_in (λ m. m.count) (bake_spec ov s) (map_option (bake_spec ov) d)
      ≡ larger_in (λ m. m.count) s d
unfolding bake_spec
count_baked ov s none = refl
count_baked ov s (some m) = refl

-- The machine of the database nodes, under an override that is baked in first.
database_spec_baked :
    (ov : MachineSpec) (count c c' m m' d d' : ℤ) (spec : MachineSpec)
    → c' ≡ apply_override c (some ov) (λ x. x.cpus)
    → m' ≡ apply_override m (some ov) (λ x. x.memory_mb)
    → d' ≡ apply_override d (some ov) (λ x. x.disk_gb)
    → sized (database_spec none count c' m' d' (bake_spec ov spec))
      ≡ sized (database_spec (some ov) count c m d spec)
unfolding database_spec bake_spec
database_spec_baked ov count c c' m m' d d' spec p q r = rw (p, q, r)

ydb_baked :
    (ov : MachineSpec) (t : YdbTopology)
    → map sized (fill_ydb none (bake_ydb ov t)) ≡ map sized (fill_ydb (some ov) t)
unfolding fill_ydb bake_ydb bake_spec apply_override
ydb_baked ov t = rw (
  count_baked ov t.storage t.database,
  database_spec_baked ov (larger_in (λ m. m.count) t.storage t.database) _ _ _ _ _ _ t.storage
      (larger_in_baked ov (λ m. m.cpus) (λ m. refl) t.storage t.database)
      (larger_in_baked ov (λ m. m.memory_mb) (λ m. refl) t.storage t.database)
      (larger_in_baked ov (λ m. m.disk_gb) (λ m. refl) t.storage t.database),
)

of_topology_baked :
    {A : Type 0} (bake : A → A) (f g : A → List MachineSpec)
    → ((t : A) → map sized (f (bake t)) ≡ map sized (g t))
    → (t : Option A) → map sized (of_topology f (map_option bake t)) ≡ map sized (of_topology g t)
of_topology_baked bake f g h none = refl
of_topology_baked bake f g h (some t) = h t

picodata_baked :
    (ov : MachineSpec) (t : PicodataTopology)
    → map sized (fill_picodata none (bake_picodata ov t)) ≡ map sized (fill_picodata (some ov) t)
unfolding fill_picodata bake_picodata
picodata_baked ov t = instances_baked ov t.instances (optional t.haproxy)

database_baked :
    (ov : MachineSpec) (kind : DatabaseKind) (db : DatabaseConfig)
    → map sized (database_machines none kind (bake_database ov kind db))
      ≡ map sized (database_machines (some ov) kind db)
unfolding database_machines bake_database
database_baked ov postgres db =
    of_topology_baked (bake_postgres ov) (fill_postgres none) (fill_postgres (some ov))
      (postgres_baked ov) db.postgres
database_baked ov mysql db =
    of_topology_baked (bake_mysql ov) (fill_mysql none) (fill_mysql (some ov)) (mysql_baked ov)
      db.mysql
database_baked ov picodata db =
    of_topology_baked (bake_picodata ov) (fill_picodata none) (fill_picodata (some ov))
      (picodata_baked ov) db.picodata
database_baked ov ydb db =
    of_topology_baked (bake_ydb ov) (fill_ydb none) (fill_ydb (some ov)) (ydb_baked ov) db.ydb
database_baked ov (other kind) db = refl

bake_database-kind :
    (ov : MachineSpec) (kind : DatabaseKind) (db : DatabaseConfig)
    → (bake_database ov kind db).kind ≡ db.kind
unfolding bake_database
bake_database-kind ov postgres db = refl
bake_database-kind ov mysql db = refl
bake_database-kind ov picodata db = refl
bake_database-kind ov ydb db = refl
bake_database-kind ov (other kind) db = refl

abbrev config : List MachineSpec → Option MachineSpec → RunConfig → RunConfig
config machines ov cfg = record cfg { machines = machines; machine_override = ov }

config_baked :
    (machines : List MachineSpec) (ov : Option MachineSpec) (cfg : RunConfig)
    → map sized (fill_machines (bake_machine_override (config machines ov cfg))).machines
      ≡ map sized (fill_machines (config machines ov cfg)).machines
unfolding fill_machines bake_machine_override
config_baked machines none cfg = refl
config_baked (m ∷ ms) (some ov) cfg = refl
config_baked [] (some ov) cfg = rw (
  bake_database-kind ov cfg.database.kind cfg.database,
  map-append sized
      (database_machines none cfg.database.kind (bake_database ov cfg.database.kind cfg.database))
      (stroppy_spec cfg.stroppy.machine ∷ []),
  database_baked ov cfg.database.kind cfg.database,
  map-append sized (database_machines (some ov) cfg.database.kind cfg.database)
      (stroppy_spec cfg.stroppy.machine ∷ []),
)

-- Filling in the machines after the override is baked into the topology gives the machines that
-- filling them in under the override gives: the same roles, counts, CPUs, memory, disk sizes and
-- secondary disks in the same order, for every configuration. Only disk types can differ.
pub fill_machines-bake :
    (cfg : RunConfig)
    → map sized (fill_machines (bake_machine_override cfg)).machines
      ≡ map sized (fill_machines cfg).machines
fill_machines-bake cfg = config_baked cfg.machines cfg.machine_override cfg
