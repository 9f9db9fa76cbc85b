-- ===== src/Api/Start/Limit.antt =====
-- internal/domain/api/server.go: the limit of concurrent runs of a tenant.
use hatchet_workflow.Base.{
  ℕ, suc, ◌+◌, ◌≤◌, ◌<◌, ◌≡◌, String, false, List, [], ◌∷◌, none, if◌then◌else◌, ◌==◌, insert,
  remove, arith, eq_iff, Option-cases, inl, inr, ap, subst, ◌∙◌, String-cases, eq_false,
}
use hatchet_workflow.Base.Int.{ℤ, pos, negsuc, pos_part}
use hatchet_workflow.Settings.{TenantQuotas}
use hatchet_workflow.Api.Runs.{Server, track}
use hatchet_workflow.Api.Start.{
  StartRequest, active_runs, check_start, run_start, run_end, is_reached,
}

-- What becomes of the runs of a tenant when one is entered: the entry may replace another one.
active_runs-insert :
    (tenant id owner : String) (m : List (String × String))
    → active_runs tenant (insert id owner m)
      ≤ (if owner == tenant then suc (active_runs tenant m) else active_runs tenant m)
unfolding active_runs insert
active_runs-insert tenant id owner [] = ground arith
active_runs-insert tenant id owner ((key, value) ∷ m) =
    let ih = active_runs-insert tenant id owner m in ground (arith, ih)

active_runs-remove :
    (tenant id : String) (m : List (String × String))
    → active_runs tenant (remove id m) ≤ active_runs tenant m
unfolding active_runs remove
active_runs-remove tenant id [] = ground arith
active_runs-remove tenant id ((key, value) ∷ m) =
    let ih = active_runs-remove tenant id m in ground (arith, ih)

below_limit :
    (limit : ℤ) (max count : ℕ)
    → limit ≡ pos (suc max)
    → is_reached limit count ≡ false
    → count < suc max
unfolding is_reached
below_limit (pos n) max count e h =
    let same : n ≡ suc max = ap pos_part e in ground (arith, h, same)
below_limit (negsuc n) max count e h = cc

-- A request that passes the checks finds room for one more run.
room :
    (q : TenantQuotas) (r : StartRequest) (s : Server) (max : ℕ)
    → check_start q r s ≡ none
    → q.max_concurrent_runs ≡ pos (suc max)
    → active_runs r.tenant s.run_tenants < suc max
unfolding check_start
room q r s max passed limit =
    below_limit q.max_concurrent_runs max (active_runs r.tenant s.run_tenants) limit
      (ground (arith, passed))

-- Where a limit is not above `b`, the start of a run leaves at most `b` runs of a tenant, or as many as
-- there were.
run_start-bound :
    (quotas : String → TenantQuotas) (tenant : String) (r : StartRequest) (s : Server) (max b : ℕ)
    → (quotas tenant).max_concurrent_runs ≡ pos (suc max)
    → suc max ≤ b
    → active_runs tenant s.run_tenants ≤ b
    → active_runs tenant (run_start quotas r s).1.run_tenants ≤ b
unfolding run_start track
run_start-bound quotas tenant r s max b limit above before =
    elim (Option-cases (check_start (quotas r.tenant) r s)) [
      | inr (refusal, e) ↦ rw (e, run_start) before
      | inl e ↦
          let grown = active_runs-insert tenant r.id r.tenant s.run_tenants in
          rw (e, run_start, track)
            (elim (String-cases r.tenant tenant) [
              | inl same ↦
                  let free : active_runs tenant s.run_tenants < suc max =
                    subst (λ t. active_runs t s.run_tenants < suc max) same
                      (room (quotas r.tenant) r s max e
                        (ap (λ t. (quotas t).max_concurrent_runs) same ∙ limit)) in
                  let is_same = (eq_iff r.tenant tenant).1 same in
                  ground (arith, grown, free, is_same, above)
              | inr differs ↦
                  let is_other = eq_false r.tenant tenant differs in
                  ground (arith, grown, before, is_other)
            ])
    ]

-- The states that requests, the ends of runs and the recovery of runs lead to, with the number of
-- recoveries. No request comes between the checks and the entry of another, and the quotas stay as they
-- are. The other fields of the server may change in between.
pub data Orderly (quotas : String → TenantQuotas) (s : Server) : ℕ → Server → Type 0 where
  begins : Orderly quotas s 0 s
  starts :
      {n : ℕ} {t : Server} (r : StartRequest) (u : Server)
      → Orderly quotas s n t
      → (run_start quotas r t).1 ≡ u
      → Orderly quotas s n u
  ends :
      {n : ℕ} {t : Server} (id : String) (u : Server)
      → Orderly quotas s n t
      → run_end id t ≡ u
      → Orderly quotas s n u
  recovers :
      {n : ℕ} {t : Server} (id owner : String) (u : Server)
      → Orderly quotas s n t
      → track id owner t ≡ u
      → Orderly quotas s (suc n) u
  changes :
      {n : ℕ} {t : Server} (u : Server)
      → Orderly quotas s n t
      → u.run_tenants ≡ t.run_tenants
      → Orderly quotas s n u

-- Let a tenant's limit of concurrent runs be positive. From a server that tracks at most `b` runs of the
-- tenant, `b` being the limit or more, and while the quotas stay as they are and no request comes
-- between the checks and the entry of another, the server tracks at most `b` runs of the tenant and one
-- more for each recovery of a run, which is not limited. From a server that tracks no more runs than
-- the limit, as an idle one, and without recoveries the limit is kept.
pub Orderly-WithinLimit :
    (quotas : String → TenantQuotas) (tenant : String) (s t : Server) (n max b : ℕ)
    → (quotas tenant).max_concurrent_runs ≡ pos (suc max)
    → suc max ≤ b
    → active_runs tenant s.run_tenants ≤ b
    → Orderly quotas s n t
    → active_runs tenant t.run_tenants ≤ b + n
unfolding run_end track
Orderly-WithinLimit quotas tenant s t n max b limit above few begins = omega (arith, few)
Orderly-WithinLimit quotas tenant s t n max b limit above few (starts {t = t0} r u from e) =
    let before = Orderly-WithinLimit quotas tenant s t0 n max b limit above few from in
    subst (λ v. active_runs tenant v.run_tenants ≤ b + n) e
      (run_start-bound quotas tenant r t0 max (b + n) limit (omega arith) before)
Orderly-WithinLimit quotas tenant s t n max b limit above few (ends {t = t0} id u from e) =
    let before = Orderly-WithinLimit quotas tenant s t0 n max b limit above few from in
    let less = active_runs-remove tenant id t0.run_tenants in
    subst (λ v. active_runs tenant v.run_tenants ≤ b + n) e (omega (arith, before, less))
Orderly-WithinLimit quotas tenant s t n max b limit above few
      (recovers {n = k} {t = t0} id owner u from e) =
    let before = Orderly-WithinLimit quotas tenant s t0 k max b limit above few from in
    let grown = active_runs-insert tenant id owner t0.run_tenants in
    subst (λ v. active_runs tenant v.run_tenants ≤ b + suc k) e (ground (arith, before, grown))
Orderly-WithinLimit quotas tenant s t n max b limit above few (changes {t = t0} u from e) =
    rw e (Orderly-WithinLimit quotas tenant s t0 n max b limit above few from)
