-- ===== src/Api/Runs/Recovered.antt =====
-- internal/domain/api/server.go: what the start of the server leaves behind, RecoverOrCleanupRuns.
use hatchet_workflow.Base.{
  ◌≡◌, refl, sym, ap, subst, ◌∙◌, String, true, false, ◌&&◌, ◌⊎◌, List, [], ◌∷◌, map, Memᴰ,
  Memᴰ-cons, some, arith, any, Memᴰ-keep, if◌then◌else◌, inl, inr, Bool-cases, Option-cases, ◌==◌,
  eq_iff, eq_refl,
}
use mathlib.Core.List.Memᴰ
use mathlib.Core.Option.{some-injective}
use hatchet_workflow.Api.Runs.{
  SavedNode, Saved, Row, Server, load, is_row, fail_pending, is_pending, mark_run_failed,
  can_recover_run, cleanup_run_resources, recover_one, recover_all, recover_or_cleanup_runs,
  incomplete_runs, recovered, cleanup_orphaned_containers,
}
use hatchet_workflow.Api.Runs.Storage.{load-save}

-- The run of a tenant is among those whose recovery was started.
pub record IsResumed (tenant id : String) (resumed : List Row) : Type 0 where
  pub row : Row
  pub listed : Memᴰ row resumed
  pub named : row.id ≡ id
  pub owned : row.tenant_id ≡ tenant

-- A run of the table that still has a pending node is one whose recovery was started.
abbrev Settled : String → String → Server × List Row → Type 0
Settled tenant id acc =
    (snap : Saved)
    → load tenant id acc.0.rows ≡ some snap
    → any is_pending snap.nodes ≡ true
    → IsResumed tenant id acc.1

fail_pending-none : (ns : List SavedNode) → any is_pending (map fail_pending ns) ≡ false
unfolding is_pending fail_pending
fail_pending-none [] = refl
fail_pending-none (n ∷ ns) = ground (arith, fail_pending-none ns)

-- Marking a run as failed changes that run only, and leaves none of its nodes pending.
load-mark_run_failed :
    (row : Row) (rows : List Row) (tenant id : String)
    → load tenant id (mark_run_failed row.tenant_id row.snapshot row.id rows) ≡ (
        if any is_pending row.snapshot.nodes && (row.id == id && row.tenant_id == tenant)
        then some (record row.snapshot { nodes = map fail_pending row.snapshot.nodes })
        else load tenant id rows)
unfolding mark_run_failed
load-mark_run_failed row rows tenant id = ground (
  arith,
  load-save row.tenant_id row.id tenant id
      (record row.snapshot { nodes = map fail_pending row.snapshot.nodes }) rows,
)

unfoldable pub given_up : Row → Server → Server
given_up row s = record s {
  rows = mark_run_failed row.tenant_id row.snapshot row.id s.rows;
  docker = cleanup_run_resources row.id s.docker;
}

given_up-Settled :
    (row : Row) (s : Server) (resumed : List Row) (tenant id : String)
    → Settled tenant id (s, resumed)
    → Settled tenant id (given_up row s, resumed)
unfolding given_up
given_up-Settled row s resumed tenant id ok snap e p =
    elim (Bool-cases
      (any is_pending row.snapshot.nodes && (row.id == id && row.tenant_id == tenant))) [
        | inl h ↦
            let same : some (record row.snapshot { nodes = map fail_pending row.snapshot.nodes })
                ≡ some snap =
              ground (arith, e, h, load-mark_run_failed row s.rows tenant id) in
            let nodes : map fail_pending row.snapshot.nodes ≡ snap.nodes =
              ap (λ (x : Saved). x.nodes) (some-injective _ snap same) in
            let none_pending = fail_pending-none row.snapshot.nodes in cc
        | inr h ↦ ok snap (ground (arith, e, h, load-mark_run_failed row s.rows tenant id)) p
      ]

-- What becomes of one incomplete run: it is given up, or its recovery is started.
recover_one-cases :
    (row : Row) (s : Server) (resumed : List Row)
    → (recover_one row (s, resumed) ≡ (given_up row s, resumed))
      ⊎ (recover_one row (s, resumed) ≡ (s, row ∷ resumed))
unfolding recover_one given_up
recover_one-cases row s resumed = elim (Option-cases (row.snapshot.state)) [
  | inl e ↦ inl (rw e refl)
  | inr (state, e) ↦ elim (Bool-cases (can_recover_run s.docker state)) [
    | inl h ↦ inr (rw (e, h) refl)
    | inr h ↦ inl (rw (e, h) refl)
  ]
]

started-Settled :
    (row : Row) (s : Server) (resumed : List Row) (tenant id : String)
    → Settled tenant id (s, resumed)
    → Settled tenant id (s, row ∷ resumed)
started-Settled row s resumed tenant id ok snap e p =
    let r = ok snap e p in
    record { row = r.row; listed = Memᴰ.tail r.listed; named = r.named; owned = r.owned }

recover_one-Settled :
    (row : Row) (acc : Server × List Row) (tenant id : String)
    → Settled tenant id acc
    → Settled tenant id (recover_one row acc)
recover_one-Settled row (s, resumed) tenant id ok = elim (recover_one-cases row s resumed) [
  | inl e ↦ rw e (given_up-Settled row s resumed tenant id ok)
  | inr e ↦ rw e (started-Settled row s resumed tenant id ok)
]

-- The incomplete run itself is settled.
given_up-itself :
    (row : Row) (s : Server) (resumed : List Row)
    → any is_pending row.snapshot.nodes ≡ true
    → Settled row.tenant_id row.id (given_up row s, resumed)
unfolding given_up
given_up-itself row s resumed incomplete snap e p =
    let same : some (record row.snapshot { nodes = map fail_pending row.snapshot.nodes })
        ≡ some snap =
      ground (
        arith,
        e,
        incomplete,
        load-mark_run_failed row s.rows row.tenant_id row.id,
        eq_refl row.id,
        eq_refl row.tenant_id,
      ) in
    let nodes : map fail_pending row.snapshot.nodes ≡ snap.nodes =
      ap (λ (x : Saved). x.nodes) (some-injective _ snap same) in
    let none_pending = fail_pending-none row.snapshot.nodes in cc

started-itself :
    (row : Row) (s : Server) (resumed : List Row) → Settled row.tenant_id row.id (s, row ∷ resumed)
started-itself row s resumed snap e p = record {
  row = row;
  listed = Memᴰ.head refl;
  named = refl;
  owned = refl;
}

recover_one-itself :
    (row : Row) (acc : Server × List Row)
    → any is_pending row.snapshot.nodes ≡ true
    → Settled row.tenant_id row.id (recover_one row acc)
recover_one-itself row (s, resumed) incomplete = elim (recover_one-cases row s resumed) [
  | inl e ↦ rw e (given_up-itself row s resumed incomplete)
  | inr e ↦ rw e (started-itself row s resumed)
]

recover_all-Settled :
    (rows : List Row) (acc : Server × List Row) (tenant id : String)
    → Settled tenant id acc
    → Settled tenant id (recover_all rows acc)
unfolding recover_all
recover_all-Settled [] acc tenant id ok = ok
recover_all-Settled (row ∷ rows) acc tenant id ok =
    recover_all-Settled rows (recover_one row acc) tenant id
      (recover_one-Settled row acc tenant id ok)

recover_all-itself :
    (rows : List Row) (acc : Server × List Row) (row : Row)
    → Memᴰ row rows
    → any is_pending row.snapshot.nodes ≡ true
    → Settled row.tenant_id row.id (recover_all rows acc)
unfolding recover_all
recover_all-itself [] acc row there incomplete = absurd (Memᴰ.not-nil there)
recover_all-itself (next ∷ rows) acc row there incomplete =
    elim ((Memᴰ-cons row next rows).0 there) [
      | inl same ↦ recover_all-Settled rows (recover_one next acc) row.tenant_id row.id (
          subst (λ (x : Row). Settled row.tenant_id row.id (recover_one x acc)) same
            (recover_one-itself row acc incomplete))
      | inr later ↦ recover_all-itself rows (recover_one next acc) row later incomplete
    ]

-- What Load finds stands in the table.
load-Memᴰ :
    (tenant id : String) (rows : List Row) (snap : Saved)
    → load tenant id rows ≡ some snap
    → (row : Row) × Memᴰ row rows × (row.id ≡ id) × (row.tenant_id ≡ tenant) × (row.snapshot ≡ snap)
unfolding load is_row
load-Memᴰ tenant id [] snap e = cc
load-Memᴰ tenant id (row ∷ rows) snap e =
    elim (Bool-cases (row.id == id && row.tenant_id == tenant)) [
      | inl h ↦ (
        row,
        Memᴰ.head refl,
        ground (arith, h, eq_iff row.id id),
        ground (arith, h, eq_iff row.tenant_id tenant),
        some-injective row.snapshot snap (ground (arith, h, e)),
      )
      | inr h ↦
          let (found, there, i, t, same) = load-Memᴰ tenant id rows snap (ground (arith, h, e)) in
          (found, Memᴰ.tail there, i, t, same)
    ]

recovered-Settled : (s : Server) (tenant id : String) → Settled tenant id (recovered s)
unfolding recovered incomplete_runs
recovered-Settled s tenant id = elim (Option-cases (load tenant id s.rows)) [
  | inl absent ↦ recover_all-Settled (incomplete_runs s.rows) (s, []) tenant id (λ snap e p. cc)
  | inr (old, e) ↦ elim (Bool-cases (any is_pending old.nodes)) [
    | inl p ↦
        let (row, there, same_id, same_tenant, same) = load-Memᴰ tenant id s.rows old e in
        let incomplete : any is_pending row.snapshot.nodes ≡ true =
          ap (λ (x : Saved). any is_pending x.nodes) same ∙ p in
        rw⁻¹ (same_id, same_tenant)
          (recover_all-itself (incomplete_runs s.rows) (s, []) row
            (Memᴰ-keep (λ (r : Row). any is_pending r.snapshot.nodes) s.rows row incomplete there)
            incomplete)
    | inr p ↦
        recover_all-Settled (incomplete_runs s.rows) (s, []) tenant id
          (λ snap e' p'.
            let same : old ≡ snap = some-injective old snap (sym e ∙ e') in
            let wrong : any is_pending old.nodes ≡ true =
              ap (λ (x : Saved). any is_pending x.nodes) same ∙ p' in
            cc)
  ]
]

pub recover_or_cleanup_runs_lem :
    (s : Server)
    → s.db_up ≡ true
    → recover_or_cleanup_runs s ≡ (
      record ((recovered s).0) {
        docker =
            cleanup_orphaned_containers
              (map (λ (row : Row). row.id) (recovered s).1)
              (recovered s).0.docker;
      },
      (recovered s).1,
    )
unfolding recover_or_cleanup_runs
recover_or_cleanup_runs_lem s up = ground (arith, up)

-- When RecoverOrCleanupRuns returns, if the database answered, every run of the table that still has a
-- pending node is one for which it has started a goroutine of recoverRun, for the run's own tenant.
-- What that goroutine does then is not part of the statement.
pub recover_or_cleanup_runs-settled :
    (s : Server) (tenant id : String) (snap : Saved)
    → s.db_up ≡ true
    → load tenant id (recover_or_cleanup_runs s).0.rows ≡ some snap
    → any is_pending snap.nodes ≡ true
    → IsResumed tenant id (recover_or_cleanup_runs s).1
recover_or_cleanup_runs-settled s tenant id snap up e p =
    let now = recover_or_cleanup_runs_lem s up in
    subst (λ t. IsResumed tenant id t.1) (sym now)
      (recovered-Settled s tenant id snap (subst (λ t. load tenant id t.0.rows ≡ some snap) now e)
        p)
