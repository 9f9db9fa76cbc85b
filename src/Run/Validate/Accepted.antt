-- ===== src/Run/Validate/Accepted.antt =====
-- internal/domain/run/validate.go: the configurations that ValidateConfig accepts.
use Prim.Native.String.{len}
use hatchet_workflow.Base.{
  String, not, ◌≡◌, ◌⊎◌, inl, inr, ◌↔◌, refl, Option, none, some, ltb, String-cases, eq_false,
}
use hatchet_workflow.Run.Types.{MachineSpec, StroppyConfig, RunConfig}
use hatchet_workflow.Run.Validate.{
  Check, kind_required, topology_required, other_topology, incompatible_script, invalid_duration,
  duration_unit, negative_vus, negative_pool_size, negative_scale_factor, few_cpus, little_memory,
  small_disk, refuse, script_of, check_machine, last_code, is_unit, check_duration, check_stroppy,
  validate_config,
}
use hatchet_workflow.Run.Validate.Valid.{AtLeast, IsDuration, IsEnough, IsValid}
use hatchet_workflow.Run.Validate.Decided.{
  refuse-none, IsNamed-decided, topology_decided, IsAlone-decided, AtLeast-decided, runs_decided,
  unit_decided, short_decided,
}

IsDuration-iff :
    {Q : Type 0} (d : String) (rest : Check)
    → (rest ≡ none) ↔ Q
    → (check_duration d rest ≡ none) ↔ (((d ≡ "") ⊎ IsDuration d) × Q)
unfolding check_duration
IsDuration-iff d rest inner = elim (String-cases d "") [
  | inl e ↦ (λ h. (inl e, inner.0 (rw (e) at h)), λ p. rw (e) (inner.1 p.1))
  | inr ne ↦
      let checks =
        refuse-none (ltb (len d) 2) (invalid_duration d)
          (refuse (not (is_unit (last_code 0 d))) (duration_unit d) rest) (short_decided d)
          (refuse-none (not (is_unit (last_code 0 d))) (duration_unit d) rest
            (unit_decided (last_code 0 d)) inner) in
      let distinct = eq_false d "" ne in
      (
        λ h. let (long, (unit, q)) = checks.0 (rw (distinct) at h) in (inr (long, unit), q),
        λ p.
            rw (distinct) (
              checks.1 (elim (p.0) [ inl e ↦ absurd (ne e) | inr fine ↦ (fine.0, (fine.1, p.1)) ])),
      )
]

-- After the last check.
nothing_left : ◌≡◌ {A = Check} none none ↔ Unit {0}
nothing_left = (λ _. tt, λ _. refl)

machine_iff : (m : Option MachineSpec) → (check_machine m ≡ none) ↔ IsEnough m
unfolding check_machine
machine_iff none = (λ _. tt, λ _. refl)
machine_iff (some m) =
    let checks = refuse-none _ few_cpus _ (AtLeast-decided 1 m.cpus) (
      refuse-none _ little_memory _ (AtLeast-decided 512 m.memory_mb)
        (refuse-none _ small_disk none (AtLeast-decided 10 m.disk_gb) nothing_left)) in
    (λ h. let (a, (b, (c, _))) = checks.0 h in (a, b, c), λ (a, b, c). checks.1 (a, (b, (c, tt))))

stroppy_iff :
    (s : StroppyConfig)
    → (check_stroppy s ≡ none) ↔ (
        ((s.duration ≡ "") ⊎ IsDuration s.duration)
        × (AtLeast 0 s.vus
            × (AtLeast 0 s.pool_size × (AtLeast 0 s.scale_factor × IsEnough s.machine))))
unfolding check_stroppy
stroppy_iff s = IsDuration-iff s.duration _ (
    refuse-none _ negative_vus _ (AtLeast-decided 0 s.vus) (
      refuse-none _ negative_pool_size _ (AtLeast-decided 0 s.pool_size) (
        refuse-none _ negative_scale_factor _ (AtLeast-decided 0 s.scale_factor)
          (machine_iff s.machine))))

-- ValidateConfig accepts exactly the configurations whose kind is not the empty text; that give a
-- topology or name a preset; that give, of the Postgres, MySQL and Picodata topologies, none but that
-- of the kind, when the kind is one of the four; whose script, when it is one of the four known ones,
-- runs on the kind; whose duration is empty or has at least two bytes and ends in s, m or h; whose
-- counts are not negative; and whose runner machine, if given, has at least 1 CPU, 512 MB of memory
-- and 10 GB of disk.
pub validate_config-ok_iff : (cfg : RunConfig) → (validate_config cfg ≡ none) ↔ IsValid cfg
unfolding validate_config
validate_config-ok_iff cfg =
    let db = cfg.database in
    let script = script_of cfg.stroppy in
    let checks = refuse-none _ kind_required _ (IsNamed-decided db.kind) (
      refuse-none _ topology_required _ (topology_decided cfg) (
        refuse-none _ (other_topology db.kind) _ (IsAlone-decided db.kind db) (
          refuse-none _ (incompatible_script script db.kind) _ (runs_decided script db.kind)
            (stroppy_iff cfg.stroppy)))) in
    (
      λ h.
          let (named, (topology, (alone, (runs, rest)))) = checks.0 h in
          let (duration, (vus, (pool_size, (scale_factor, machine)))) = rest in
          record {
            named = named;
            topology = topology;
            alone = alone;
            runs = runs;
            duration = duration;
            vus = vus;
            pool_size = pool_size;
            scale_factor = scale_factor;
            machine = machine;
          },
      λ v. checks.1 (
        v.named,
        (
          v.topology,
          (v.alone, (v.runs, (v.duration, (v.vus, (v.pool_size, (v.scale_factor, v.machine)))))),
        ),
      ),
    )
