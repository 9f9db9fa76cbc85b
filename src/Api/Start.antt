-- ===== src/Api/Start.antt =====
-- internal/domain/api/server.go: runStart, from the settings of the tenant on, when the body is decoded
-- and the preset and the package are resolved; and the end of its goroutine. The checks are one step and
-- the entry of the run another, as they are different critical sections.
pub mod Limit
use hatchet_workflow.Base.{
  ℕ, suc, String, Bool, true, false, not, ◌&&◌, List, [], ◌∷◌, Option, none, some, if◌then◌else◌,
  ◌==◌, leb, insert, remove, keep,
}
use hatchet_workflow.Base.Int.{ℤ, pos, ltb_ℤ}
use hatchet_workflow.Run.Types.{DatabaseKind, MachineSpec}
use hatchet_workflow.Settings.{TenantQuotas, QuotaError, validate_quotas}
use hatchet_workflow.Api.Runs.{Server, Loaded, load_error, absent, found, load_run, track}

-- What runStart reads of a request and of the configuration in it, its machines filled in.
pub record StartRequest : Type 0 where
  pub tenant : String
  pub id : String
  pub kind : DatabaseKind
  pub provider : String
  pub machines : List MachineSpec

-- Why a request is refused.
pub data Refusal : Type 0 where
  quota_exceeded : (error : QuotaError) → Refusal
  already_exists : Refusal
  limit_reached : (count : ℕ) → Refusal

-- The runs of a tenant that the server tracks.
unfoldable pub active_runs : (tenant : String) → List (String × String) → ℕ
active_runs tenant [] = 0
active_runs tenant (entry ∷ rest) =
    let later = active_runs tenant rest in if entry.1 == tenant then suc later else later

unfoldable pub is_saved : Loaded → Bool
is_saved load_error = false
is_saved absent = false
is_saved (found _) = true

-- Is the limit one, and reached?
unfoldable pub is_reached : (limit : ℤ) (count : ℕ) → Bool
is_reached limit count = ltb_ℤ (pos 0) limit && not (ltb_ℤ (pos count) limit)

-- The checks of runStart
unfoldable pub check_start : TenantQuotas → StartRequest → Server → Option Refusal
unfolding active_runs is_saved is_reached load_run
check_start q r s =
    let count = active_runs r.tenant s.run_tenants in
    elim (validate_quotas q r.kind r.provider r.machines) [
      | some e ↦ some (quota_exceeded e)
      | none ↦
          if is_saved (load_run s r.tenant r.id)
          then some already_exists
          else if is_reached q.max_concurrent_runs count
          then some (limit_reached count)
          else none
    ]

-- runStart, where no other request comes between its checks and its entry of the run
unfoldable pub run_start :
    (quotas : String → TenantQuotas) → StartRequest → Server → Option Refusal × Server
unfolding check_start
run_start quotas r s = elim (check_start (quotas r.tenant) r s) [
  | some refusal ↦ (some refusal, s)
  | none ↦ (none, track r.id r.tenant s)
]

-- The end of a run's goroutine
unfoldable pub run_end : (id : String) → Server → Server
run_end id s = record s {
  run_cancels = keep (λ run. not (run == id)) s.run_cancels;
  run_tenants = remove id s.run_tenants;
}
