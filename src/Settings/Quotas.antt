-- ===== src/Settings/Quotas.antt =====
-- internal/domain/types/settings.go: which runs are within the quotas of a tenant.
use hatchet_workflow.Base.{
  ◌≡◌, refl, subst, ◌↔◌, ◌⊎◌, inl, inr, String, true, false, List, [], ◌∷◌, Memᴰ, Memᴰ-cons, All,
  none, ◌==◌, any, arith, eq_iff, Bool-cases, any-Memᴰ,
}
use mathlib.Core.List.Memᴰ
use hatchet_workflow.Base.Int.{ℤ, pos, ltb_ℤ}
use hatchet_workflow.Run.Types.{DatabaseKind, MachineSpec}
use hatchet_workflow.Settings.{
  TenantQuotas, kind_name, is_permitted, exceeds, is_database, check_node, check_nodes,
  validate_quotas,
}

-- A name on a list, or any name where the list is empty.
abbrev pub Permitted : List String → String → Type 0
Permitted names name = (names ≡ []) ⊎ Memᴰ name names

-- A limit that is not positive permits every value.
abbrev pub AtMost : (value limit : ℤ) → Type 0
AtMost value limit = ltb_ℤ (pos 0) limit ≡ true → ltb_ℤ limit value ≡ false

-- The limits on the machines of one specification, for machines of the database.
abbrev pub NodeWithin : TenantQuotas → MachineSpec → Type 0
NodeWithin q m =
    is_database m.role ≡ true
    → AtMost m.count q.max_nodes
      × AtMost m.cpus q.max_cpus_per_node
      × AtMost m.memory_mb q.max_memory_mb_per_node
      × AtMost m.disk_gb q.max_disk_gb_per_node

pub record Within (q : TenantQuotas) (kind : DatabaseKind) (provider : String)
    (machines : List MachineSpec) : Type 0 where
  pub kind_permitted : Permitted q.allowed_db_kinds (kind_name kind)
  pub provider_permitted : Permitted q.allowed_providers provider
  pub nodes_within : All (NodeWithin q) machines

any-eq : (name : String) (names : List String) → Memᴰ name names → any (λ k. k == name) names ≡ true
any-eq name [] h = absurd (Memᴰ.not-nil h)
any-eq name (n ∷ names) h = elim ((Memᴰ-cons name n names).0 h) [
  | inl same ↦ ground (arith, same, eq_iff n name)
  | inr later ↦ ground (arith, any-eq name names later)
]

is_permitted_iff :
    (names : List String) (name : String) → (is_permitted names name ≡ true) ↔ Permitted names name
unfolding is_permitted
is_permitted_iff [] name = (λ h. inl refl, λ h. refl)
is_permitted_iff (n ∷ names) name = (
  λ h.
      let (k, there, same) = any-Memᴰ (λ k. k == name) (n ∷ names) h in
      inr (subst (λ x. Memᴰ x (n ∷ names)) ((eq_iff k name).0 same) there),
  λ h. elim h [ inl e ↦ cc | inr there ↦ any-eq name (n ∷ names) there ],
)

exceeds_iff : (value limit : ℤ) → (exceeds value limit ≡ false) ↔ AtMost value limit
unfolding exceeds
exceeds_iff value limit = elim (Bool-cases (ltb_ℤ (pos 0) limit)) [
  | inl e ↦ (λ h p. ground (arith, h, e), λ h. rw (e, exceeds) (h e))
  | inr e ↦ (λ h p. cc, λ h. rw (e, exceeds) refl)
]

check_node_iff : (q : TenantQuotas) (m : MachineSpec) → (check_node q m ≡ none) ↔ NodeWithin q m
unfolding check_node
check_node_iff q m = (
  λ h db. (
    (exceeds_iff m.count q.max_nodes).0 (ground (arith, h, db)),
    (exceeds_iff m.cpus q.max_cpus_per_node).0 (ground (arith, h, db)),
    (exceeds_iff m.memory_mb q.max_memory_mb_per_node).0 (ground (arith, h, db)),
    (exceeds_iff m.disk_gb q.max_disk_gb_per_node).0 (ground (arith, h, db)),
  ),
  λ within. elim (Bool-cases (is_database m.role)) [
    | inr e ↦ rw (check_node, e) refl
    | inl e ↦
        let (nodes, cpus, memory, disk) = within e in
        rw
          (
            check_node,
            e,
            (exceeds_iff m.count q.max_nodes).1 nodes,
            (exceeds_iff m.cpus q.max_cpus_per_node).1 cpus,
            (exceeds_iff m.memory_mb q.max_memory_mb_per_node).1 memory,
            (exceeds_iff m.disk_gb q.max_disk_gb_per_node).1 disk,
          )
          refl
  ],
)

check_nodes_iff :
    (q : TenantQuotas) (ms : List MachineSpec) → (check_nodes q ms ≡ none) ↔ All (NodeWithin q) ms
unfolding check_nodes
check_nodes_iff q [] = (λ h. tt, λ h. refl)
check_nodes_iff q (m ∷ ms) = (
  λ h. ((check_node_iff q m).0 (ground (arith, h)), (check_nodes_iff q ms).0 (ground (arith, h))),
  λ (here, later).
      let one = (check_node_iff q m).1 here in
      let rest = (check_nodes_iff q ms).1 later in ground (arith, one, rest),
)

-- A run is within the quotas of a tenant exactly when ValidateQuotas returns nil: its kind of database
-- and its provider are permitted, where the tenant has such a list, and each specification of machines
-- for the database keeps, for itself, every limit that is positive. The machines of several
-- specifications are not added up.
pub validate_quotas-ok_iff :
    (q : TenantQuotas) (kind : DatabaseKind) (provider : String) (machines : List MachineSpec)
    → (validate_quotas q kind provider machines ≡ none) ↔ Within q kind provider machines
unfolding validate_quotas
validate_quotas-ok_iff q kind provider machines = (
  λ h. record {
    kind_permitted = (is_permitted_iff q.allowed_db_kinds (kind_name kind)).0 (ground (arith, h));
    provider_permitted = (is_permitted_iff q.allowed_providers provider).0 (ground (arith, h));
    nodes_within = (check_nodes_iff q machines).0 (ground (arith, h));
  },
  λ within.
      let k = (is_permitted_iff q.allowed_db_kinds (kind_name kind)).1 within.kind_permitted in
      let p = (is_permitted_iff q.allowed_providers provider).1 within.provider_permitted in
      let n = (check_nodes_iff q machines).1 within.nodes_within in ground (arith, k, p, n),
)
