-- ===== src/Run/Validate.antt =====
-- internal/domain/run/validate.go: ValidateConfig. An error is a constructor with the values that its
-- text is made of. A duration is read
-- as Go reads it: its length in bytes, and its last byte, which is a unit only as a whole character.
pub mod Valid
pub mod Decided
pub mod Accepted
use Prim.Native.Char.{code}
use Prim.Native.String.{len}
use hatchet_workflow.Base.{
  ℕ, String, ltb, eqb, Bool, true, false, not, ◌&&◌, ◌||◌, List, [], ◌∷◌, Option, none, some,
  lookup, any, if◌then◌else◌, ◌==◌,
}
use hatchet_workflow.Base.Int.{ℤ, pos, ltb_ℤ}
use hatchet_workflow.Run.Builder.{is_set}
use hatchet_workflow.Run.Types.{
  DatabaseKind, postgres, mysql, picodata, ydb, other, same_kind, MachineSpec, DatabaseConfig,
  StroppyConfig, RunConfig,
}

pub data ConfigError : Type 0 where
  kind_required topology_required : ConfigError
  other_topology : (kind : DatabaseKind) → ConfigError
  incompatible_script : (script : String) → (kind : DatabaseKind) → ConfigError
  invalid_duration duration_unit : (duration : String) → ConfigError
  negative_vus negative_pool_size negative_scale_factor : ConfigError
  few_cpus little_memory small_disk : ConfigError

-- A check passes, or returns its error.
abbrev pub Check : Type 0
Check = Option ConfigError

-- if bad { return e }, and the rest
abbrev pub refuse : Bool → ConfigError → Check → Check
refuse bad e rest = if bad then some e else rest

-- scriptDBSupport
script_db_support : List (String × List DatabaseKind)
script_db_support =
    ("tpcc/procs", postgres ∷ mysql ∷ [])
    ∷ ("tpcc/tx", postgres ∷ mysql ∷ picodata ∷ ydb ∷ [])
    ∷ ("tpcb/procs", postgres ∷ mysql ∷ [])
    ∷ ("tpcb/tx", postgres ∷ mysql ∷ picodata ∷ ydb ∷ [])
    ∷ []

pub is_kind_set : DatabaseKind → Bool
is_kind_set (other kind) = not (kind == "")
is_kind_set _ = true

-- A topology of another kind is set; the YDB topology counts for none of the kinds.
pub has_other_topology : DatabaseKind → DatabaseConfig → Bool
has_other_topology postgres db = is_set db.mysql || is_set db.picodata
has_other_topology mysql db = is_set db.postgres || is_set db.picodata
has_other_topology picodata db = is_set db.postgres || is_set db.mysql
has_other_topology ydb db = is_set db.postgres || is_set db.mysql || is_set db.picodata
has_other_topology (other kind) db = false

-- script, or workload for an empty script
pub script_of : StroppyConfig → String
script_of s = if s.script == "" then s.workload else s.script

pub is_compatible : String → DatabaseKind → Bool
unfolding script_db_support lookup
is_compatible script kind = if script == "" then true else elim (lookup script script_db_support) [
  | none ↦ true
  | some supported ↦ any (λ k. same_kind k kind) supported
]

check_machine : Option MachineSpec → Check
check_machine none = none
check_machine (some m) = refuse (ltb_ℤ m.cpus (pos 1)) few_cpus (
    refuse (ltb_ℤ m.memory_mb (pos 512)) little_memory
      (refuse (ltb_ℤ m.disk_gb (pos 10)) small_disk none))

-- The code of the last character of a text, or `c` for an empty one.
pub last_code : ℕ → String → ℕ
last_code c String.[] = c
last_code c (String.◌∷◌ d ds) = last_code (code d) ds

-- s, m or h
pub is_unit : ℕ → Bool
is_unit c = eqb c 115 || eqb c 109 || eqb c 104

check_duration : String → Check → Check
unfolding last_code is_unit
check_duration d rest =
    if d == ""
    then rest
    else refuse (ltb (len d) 2) (invalid_duration d)
        (refuse (not (is_unit (last_code 0 d))) (duration_unit d) rest)

check_stroppy : StroppyConfig → Check
unfolding check_duration check_machine
check_stroppy s = check_duration s.duration (
    refuse (ltb_ℤ s.vus (pos 0)) negative_vus (
      refuse (ltb_ℤ s.pool_size (pos 0)) negative_pool_size
        (refuse (ltb_ℤ s.scale_factor (pos 0)) negative_scale_factor (check_machine s.machine))))

-- ValidateConfig
pub validate_config : RunConfig → Check
unfolding is_kind_set has_other_topology script_of is_compatible check_stroppy
validate_config cfg =
    let db = cfg.database in
    let script = script_of cfg.stroppy in
    refuse (not (is_kind_set db.kind)) kind_required (
      refuse
        (not (is_set db.postgres)
          && not (is_set db.mysql)
          && not (is_set db.picodata)
          && not (is_set db.ydb)
          && (cfg.preset_id == ""))
        topology_required
        (refuse (has_other_topology db.kind db) (other_topology db.kind) (
          refuse (not (is_compatible script db.kind)) (incompatible_script script db.kind)
            (check_stroppy cfg.stroppy))))
