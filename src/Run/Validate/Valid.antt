-- ===== src/Run/Validate/Valid.antt =====
-- internal/domain/run/validate.go: what ValidateConfig asks of a configuration, as predicates.
use Prim.Native.String.{len}
use hatchet_workflow.Base.{ℕ, String, ◌≡◌, ◌≢◌, ◌≤◌, ◌⊎◌, Option, none, some}
use hatchet_workflow.Base.Int.{ℤ, pos, negsuc}
use hatchet_workflow.Run.Types.{
  DatabaseKind, postgres, mysql, picodata, ydb, other, MachineSpec, DatabaseConfig, RunConfig,
}
use hatchet_workflow.Run.Validate.{script_of, last_code}

-- m ≤ v
abbrev pub AtLeast : ℕ → ℤ → Type 0
AtLeast m (pos v) = m ≤ v
AtLeast m (negsuc v) = ⊥

-- The kind is a name.
abbrev pub IsNamed : DatabaseKind → Type 0
IsNamed kind = kind ≢ other ""

-- A topology is given, or a preset is named.
abbrev pub HasTopology : RunConfig → Type 0
HasTopology cfg =
    ((((cfg.database.postgres ≢ none) ⊎ (cfg.database.mysql ≢ none))
        ⊎ (cfg.database.picodata ≢ none))
      ⊎ (cfg.database.ydb ≢ none))
    ⊎ (cfg.preset_id ≢ "")

-- Among the Postgres, MySQL and Picodata topologies, only that of the kind is given.
abbrev pub IsAlone : DatabaseKind → DatabaseConfig → Type 0
IsAlone postgres db = (db.mysql ≡ none) × (db.picodata ≡ none)
IsAlone mysql db = (db.postgres ≡ none) × (db.picodata ≡ none)
IsAlone picodata db = (db.postgres ≡ none) × (db.mysql ≡ none)
IsAlone ydb db = ((db.postgres ≡ none) × (db.mysql ≡ none)) × (db.picodata ≡ none)
IsAlone (other _) db = Unit

-- The kinds with stored procedures, and the four kinds.
abbrev pub HasProcedures : DatabaseKind → Type 0
HasProcedures kind = (kind ≡ postgres) ⊎ (kind ≡ mysql)

abbrev pub IsSupported : DatabaseKind → Type 0
IsSupported kind = (kind ≡ postgres) ⊎ (kind ≡ mysql) ⊎ (kind ≡ picodata) ⊎ (kind ≡ ydb)

abbrev pub Runs : String → DatabaseKind → Type 0
Runs script kind =
    ((script ≡ "tpcc/procs") ⊎ (script ≡ "tpcb/procs") → HasProcedures kind)
    × ((script ≡ "tpcc/tx") ⊎ (script ≡ "tpcb/tx") → IsSupported kind)

-- At least two bytes, the last of them s, m or h.
abbrev pub IsDuration : String → Type 0
IsDuration d = (2 ≤ len d) × ((last_code 0 d ≡ 115) ⊎ (last_code 0 d ≡ 109) ⊎ (last_code 0 d ≡ 104))

abbrev pub IsEnough : Option MachineSpec → Type 0
IsEnough none = Unit
IsEnough (some m) = AtLeast 1 m.cpus × AtLeast 512 m.memory_mb × AtLeast 10 m.disk_gb

-- What ValidateConfig asks of a configuration.
pub record IsValid (cfg : RunConfig) : Type 0 where
  pub named : IsNamed cfg.database.kind
  pub topology : HasTopology cfg
  pub alone : IsAlone cfg.database.kind cfg.database
  pub runs : Runs (script_of cfg.stroppy) cfg.database.kind
  pub duration : (cfg.stroppy.duration ≡ "") ⊎ IsDuration cfg.stroppy.duration
  pub vus : AtLeast 0 cfg.stroppy.vus
  pub pool_size : AtLeast 0 cfg.stroppy.pool_size
  pub scale_factor : AtLeast 0 cfg.stroppy.scale_factor
  pub machine : IsEnough cfg.stroppy.machine
