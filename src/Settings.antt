-- ===== src/Settings.antt =====
-- internal/domain/types/settings.go: the quotas of a tenant, and the settings that a cloud needs.
pub mod Quotas
mod Samples
use hatchet_workflow.Base.{
  String, Bool, true, false, not, ◌&&◌, List, [], ◌∷◌, Option, none, some, if◌then◌else◌, ◌==◌, any,
  insert,
}
use hatchet_workflow.Base.Int.{ℤ, pos, ltb_ℤ}
use hatchet_workflow.Run.Types.{
  DatabaseKind, postgres, mysql, picodata, ydb, other, MachineSpec, MachineRole, database, monitor,
  stroppy, etcd, proxy, pgbouncer, other_role,
}

-- TenantQuotas
pub record TenantQuotas : Type 0 where
  pub allowed_db_kinds : List String
  pub allowed_providers : List String
  pub max_nodes : ℤ
  pub max_cpus_per_node : ℤ
  pub max_memory_mb_per_node : ℤ
  pub max_disk_gb_per_node : ℤ
  pub max_concurrent_runs : ℤ

-- The errors of ValidateQuotas, without the numbers in their texts.
pub data QuotaError : Type 0 where
  kind_not_allowed provider_not_allowed node_count cpus memory disk : QuotaError

-- The constants of type DatabaseKind as texts
unfoldable pub kind_name : DatabaseKind → String
kind_name postgres = "postgres"
kind_name mysql = "mysql"
kind_name picodata = "picodata"
kind_name ydb = "ydb"
kind_name (other kind) = kind

-- A list of permitted names; an empty one permits all.
unfoldable pub is_permitted : List String → String → Bool
is_permitted [] name = true
is_permitted (n ∷ names) name = any (λ k. k == name) (n ∷ names)

-- Is the value over a limit that is set?
unfoldable pub exceeds : (value limit : ℤ) → Bool
exceeds value limit = ltb_ℤ (pos 0) limit && ltb_ℤ limit value

-- m.Role == RoleDatabase
unfoldable pub is_database : MachineRole → Bool
is_database database = true
is_database monitor = false
is_database stroppy = false
is_database etcd = false
is_database proxy = false
is_database pgbouncer = false
is_database (other_role role) = role == "database"

unfoldable pub check_node : TenantQuotas → MachineSpec → Option QuotaError
unfolding exceeds is_database
check_node q m =
    if not (is_database m.role)
    then none
    else if exceeds m.count q.max_nodes
    then some node_count
    else if exceeds m.cpus q.max_cpus_per_node
    then some cpus
    else if exceeds m.memory_mb q.max_memory_mb_per_node
    then some memory
    else if exceeds m.disk_gb q.max_disk_gb_per_node
    then some disk
    else none

unfoldable pub check_nodes : TenantQuotas → List MachineSpec → Option QuotaError
unfolding check_node
check_nodes q [] = none
check_nodes q (m ∷ ms) =
    let later = check_nodes q ms in elim (check_node q m) [ some e ↦ some e | none ↦ later ]

-- ValidateQuotas, on the fields of the RunConfig that it reads
unfoldable pub validate_quotas :
    TenantQuotas
    → (kind : DatabaseKind) (provider : String) (machines : List MachineSpec) → Option QuotaError
unfolding is_permitted kind_name check_nodes
validate_quotas q kind provider machines =
    if not (is_permitted q.allowed_db_kinds (kind_name kind))
    then some kind_not_allowed
    else if not (is_permitted q.allowed_providers provider)
    then some provider_not_allowed
    else check_nodes q machines

-- YandexCloudSettings and CloudSettings
pub record YandexCloudSettings : Type 0 where
  pub token : String
  pub cloud_id : String
  pub folder_id : String
  pub zone : String
  pub network_id : String
  pub network_name : String
  pub subnet_cidr : String
  pub platform_id : String
  pub image_id : String
  pub assign_public_ip : Bool
  pub ssh_user : String
  pub ssh_public_key : String

pub record CloudSettings : Type 0 where
  pub yandex : YandexCloudSettings
  pub server_addr : String
  pub binary_url : String

-- YandexCloudSettings.Validate: the name of the first required field that is empty
unfoldable pub first_missing : List (String × String) → Option String
first_missing [] = none
first_missing (check ∷ rest) = if check.1 == "" then some check.0 else first_missing rest

unfoldable pub validate_yandex : YandexCloudSettings → Option String
unfolding first_missing
validate_yandex y = first_missing (
    ("token", y.token)
    ∷ ("cloud_id", y.cloud_id)
    ∷ ("folder_id", y.folder_id)
    ∷ ("network_id", y.network_id)
    ∷ ("network_name", y.network_name)
    ∷ ("subnet_cidr", y.subnet_cidr)
    ∷ ("image_id", y.image_id)
    ∷ [])

-- ValidateCloud
unfoldable pub validate_cloud : CloudSettings → Option String
validate_cloud c = if c.server_addr == "" then some "server_addr" else none
