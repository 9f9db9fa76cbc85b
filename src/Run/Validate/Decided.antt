-- ===== src/Run/Validate/Decided.antt =====
-- internal/domain/run/validate.go: each test of ValidateConfig decides its predicate.
use Prim.Native.String.{len}
use hatchet_workflow.Base.{
  ℕ, String, Bool, true, false, not, ◌&&◌, ◌||◌, ◌≡◌, ◌≢◌, ◌≤◌, ◌⊎◌, inl, inr, ⊎_elim, ◌↔◌, refl,
  [], ◌∷◌, Option, none, some, lookup, any, ap, zero, suc, sym, subst, ◌==◌, eq_iff, arith,
  Bool-cases, ltb, String-cases, eq_false,
}
use hatchet_workflow.Base.Int.{ℤ, pos, negsuc, ltb_ℤ}
use hatchet_workflow.Run.Builder.{is_set}
use hatchet_workflow.Run.Types.{
  DatabaseKind, postgres, mysql, picodata, ydb, other, same_kind, DatabaseConfig, RunConfig,
}
use hatchet_workflow.Run.Validate.{
  Check, ConfigError, refuse, script_db_support, is_kind_set, has_other_topology, is_compatible,
  is_unit,
}
use hatchet_workflow.Run.Validate.Valid.{
  AtLeast, IsNamed, HasTopology, IsAlone, HasProcedures, IsSupported, Runs,
}

-- A Boolean test that refuses decides a condition.
abbrev pub Decides : Bool → Type 0 → Type 0
Decides bad P = ((bad ≡ false) → P) × (P → bad ≡ false)

pub refuse-none :
    {P Q : Type 0} (bad : Bool) (e : ConfigError) (rest : Check)
    → Decides bad P
    → (rest ≡ none) ↔ Q
    → (refuse bad e rest ≡ none) ↔ (P × Q)
refuse-none true e rest (to, from) (there, back) =
    (λ h. cc, λ (p, q). let never : true ≡ false = from p in cc)
refuse-none false e rest (to, from) (there, back) = (λ h. (to refl, there h), λ (p, q). back q)

pub IsNamed-decided : (kind : DatabaseKind) → Decides (not (is_kind_set kind)) (IsNamed kind)
unfolding is_kind_set
IsNamed-decided postgres = (λ _ e. cc, λ _. refl)
IsNamed-decided mysql = (λ _ e. cc, λ _. refl)
IsNamed-decided picodata = (λ _ e. cc, λ _. refl)
IsNamed-decided ydb = (λ _ e. cc, λ _. refl)
IsNamed-decided (other k) = (
  λ h e. let same : k ≡ "" = cc in ground (arith, eq_iff k ""),
  λ ne. elim (String-cases k "") [
    | inl e ↦ absurd (ne (ap other e))
    | inr apart ↦ rw (eq_false k "" apart) refl
  ],
)

or_decided : {P Q : Type 0} (a b : Bool) → Decides a P → Decides b Q → Decides (a || b) (P × Q)
or_decided true b (to, from) db = (λ h. cc, λ (p, q). from p)
or_decided false b (to, from) (there, back) = (λ h. (to refl, there h), λ (p, q). back q)

and_decided : {P Q : Type 0} (a b : Bool) → Decides a P → Decides b Q → Decides (a && b) (P ⊎ Q)
and_decided true b (to, from) (there, back) =
    (λ h. inr (there h), ⊎_elim (λ p. let never : true ≡ false = from p in cc) back)
and_decided false b (to, from) db = (λ h. inl (to refl), λ h. refl)

set_decided : {A : Type 0} (o : Option A) → Decides (is_set o) (o ≡ none)
set_decided none = (λ _. refl, λ _. refl)
set_decided (some a) = (λ h. cc, λ h. cc)

unset_decided : {A : Type 0} (o : Option A) → Decides (not (is_set o)) (o ≢ none)
unset_decided none = (λ h e. cc, λ ne. absurd (ne refl))
unset_decided (some a) = (λ h e. cc, λ ne. refl)

empty_decided : (s : String) → Decides (s == "") (s ≢ "")
empty_decided s = (λ h e. ground (arith, eq_iff s ""), λ ne. eq_false s "" ne)

pub IsAlone-decided :
    (kind : DatabaseKind) (db : DatabaseConfig)
    → Decides (has_other_topology kind db) (IsAlone kind db)
unfolding has_other_topology
IsAlone-decided postgres db = or_decided _ _ (set_decided db.mysql) (set_decided db.picodata)
IsAlone-decided mysql db = or_decided _ _ (set_decided db.postgres) (set_decided db.picodata)
IsAlone-decided picodata db = or_decided _ _ (set_decided db.postgres) (set_decided db.mysql)
IsAlone-decided ydb db =
    or_decided _ _ (or_decided _ _ (set_decided db.postgres) (set_decided db.mysql))
      (set_decided db.picodata)
IsAlone-decided (other k) db = (λ _. tt, λ _. refl)

pub topology_decided :
    (cfg : RunConfig)
    → Decides
        (not (is_set cfg.database.postgres)
          && not (is_set cfg.database.mysql)
          && not (is_set cfg.database.picodata)
          && not (is_set cfg.database.ydb)
          && (cfg.preset_id == ""))
        (HasTopology cfg)
topology_decided cfg =
    and_decided _ _
      (and_decided _ _
        (and_decided _ _
          (and_decided _ _ (unset_decided cfg.database.postgres) (unset_decided cfg.database.mysql))
          (unset_decided cfg.database.picodata))
        (unset_decided cfg.database.ydb))
      (empty_decided cfg.preset_id)

pub AtLeast-decided : (m : ℕ) (v : ℤ) → Decides (ltb_ℤ v (pos m)) (AtLeast m v)
AtLeast-decided m (pos v) = (λ h. ground arith, λ h. ground arith)
AtLeast-decided zero (negsuc v) = (λ h. ground arith, λ h. absurd h)
AtLeast-decided (suc m) (negsuc v) = (λ h. ground arith, λ h. absurd h)

procs_decided :
    (kind : DatabaseKind)
    → Decides (not (any (λ k. same_kind k kind) (postgres ∷ mysql ∷ []))) (HasProcedures kind)
unfolding same_kind
procs_decided postgres = (λ _. inl refl, λ _. refl)
procs_decided mysql = (λ _. inr refl, λ _. refl)
procs_decided picodata = (λ h. cc, λ h. elim h [ inl e ↦ cc | inr e ↦ cc ])
procs_decided ydb = (λ h. cc, λ h. elim h [ inl e ↦ cc | inr e ↦ cc ])
procs_decided (other k) = (λ h. cc, λ h. elim h [ inl e ↦ cc | inr e ↦ cc ])

all_decided :
    (kind : DatabaseKind)
    → Decides
        (not (any (λ k. same_kind k kind) (postgres ∷ mysql ∷ picodata ∷ ydb ∷ [])))
        (IsSupported kind)
unfolding same_kind
all_decided postgres = (λ _. inl refl, λ _. refl)
all_decided mysql = (λ _. inr (inl refl), λ _. refl)
all_decided picodata = (λ _. inr (inr (inl refl)), λ _. refl)
all_decided ydb = (λ _. inr (inr (inr refl)), λ _. refl)
all_decided (other k) = (
  λ h. cc,
  λ h. elim h [ inl e ↦ cc | inr (inl e) ↦ cc | inr (inr (inl e)) ↦ cc | inr (inr (inr e)) ↦ cc ],
)

-- The script is neither of two others.
neither :
    {P : Type 0} (script s t : String)
    → (script == s) ≡ false
    → (script == t) ≡ false
    → (script ≡ s) ⊎ (script ≡ t)
    → P
neither script s t a b (inl e) = ground (arith, eq_iff script s)
neither script s t a b (inr e) = ground (arith, eq_iff script t)

abbrev pub RunsDecided : String → DatabaseKind → Type 0
RunsDecided script kind = Decides (not (is_compatible script kind)) (Runs script kind)

procs_runs :
    (script : String) (kind : DatabaseKind)
    → (script ≡ "tpcc/procs") ⊎ (script ≡ "tpcb/procs")
    → RunsDecided script kind
unfolding is_compatible lookup script_db_support
procs_runs script kind (inl e) =
    subst (λ s. RunsDecided s kind) (sym e)
      (
        λ h. (λ _. (procs_decided kind).0 h, neither "tpcc/procs" "tpcc/tx" "tpcb/tx" refl refl),
        λ runs. (procs_decided kind).1 (runs.0 (inl refl)),
      )
procs_runs script kind (inr e) =
    subst (λ s. RunsDecided s kind) (sym e)
      (
        λ h. (λ _. (procs_decided kind).0 h, neither "tpcb/procs" "tpcc/tx" "tpcb/tx" refl refl),
        λ runs. (procs_decided kind).1 (runs.0 (inr refl)),
      )

tx_runs :
    (script : String) (kind : DatabaseKind)
    → (script ≡ "tpcc/tx") ⊎ (script ≡ "tpcb/tx")
    → RunsDecided script kind
unfolding is_compatible lookup script_db_support
tx_runs script kind (inl e) =
    subst (λ s. RunsDecided s kind) (sym e)
      (
        λ h. (neither "tpcc/tx" "tpcc/procs" "tpcb/procs" refl refl, λ _. (all_decided kind).0 h),
        λ runs. (all_decided kind).1 (runs.1 (inl refl)),
      )
tx_runs script kind (inr e) =
    subst (λ s. RunsDecided s kind) (sym e)
      (
        λ h. (neither "tpcb/tx" "tpcc/procs" "tpcb/procs" refl refl, λ _. (all_decided kind).0 h),
        λ runs. (all_decided kind).1 (runs.1 (inr refl)),
      )

other_runs :
    (script : String) (kind : DatabaseKind)
    → ¬ ((script ≡ "tpcc/procs") ⊎ (script ≡ "tpcb/procs"))
    → ¬ ((script ≡ "tpcc/tx") ⊎ (script ≡ "tpcb/tx"))
    → RunsDecided script kind
unfolding is_compatible lookup script_db_support
other_runs script kind not_procs not_tx =
    let a = eq_false "tpcc/procs" script (λ e. not_procs (inl (sym e))) in
    let b = eq_false "tpcb/procs" script (λ e. not_procs (inr (sym e))) in
    let c = eq_false "tpcc/tx" script (λ e. not_tx (inl (sym e))) in
    let d = eq_false "tpcb/tx" script (λ e. not_tx (inr (sym e))) in
    let passes : is_compatible script kind ≡ true = elim (Bool-cases (script == "")) [
      | inl e ↦ rw (e) refl
      | inr e ↦ rw (e, a, b, c, d) refl
    ] in
    (λ h. (λ p. absurd (not_procs p), λ p. absurd (not_tx p)), λ runs. rw (passes) refl)

-- A text is one of two, or not.
one_of : (script s t : String) → ((script ≡ s) ⊎ (script ≡ t)) ⊎ (¬ ((script ≡ s) ⊎ (script ≡ t)))
one_of script s t = elim (String-cases script s) [
  | inl e ↦ inl (inl e)
  | inr n ↦ elim (String-cases script t) [ inl e ↦ inl (inr e) | inr m ↦ inr (⊎_elim n m) ]
]

pub runs_decided : (script : String) (kind : DatabaseKind) → RunsDecided script kind
runs_decided script kind = elim (one_of script "tpcc/procs" "tpcb/procs") [
  | inl named ↦ procs_runs script kind named
  | inr not_procs ↦ elim (one_of script "tpcc/tx" "tpcb/tx") [
    | inl named ↦ tx_runs script kind named
    | inr not_tx ↦ other_runs script kind not_procs not_tx
  ]
]

-- A negated test is false where the test is true.
not_decided : (b : Bool) → Decides (not b) (b ≡ true)
not_decided true = (λ _. refl, λ _. refl)
not_decided false = (λ h. cc, λ h. cc)

pub unit_decided : (c : ℕ) → Decides (not (is_unit c)) ((c ≡ 115) ⊎ (c ≡ 109) ⊎ (c ≡ 104))
unfolding is_unit
unit_decided c = (λ h. ground arith, λ h. ground arith)

pub short_decided : (d : String) → Decides (ltb (len d) 2) (2 ≤ len d)
short_decided d = (λ h. ground arith, λ h. ground arith)
