-- ===== src/Api/Runs/Storage.antt =====
-- internal/infrastructure/postgres/run_storage.go: the table of runs as a map from tenants and runs to
-- snapshots, and the counts of the list of runs.
use hatchet_workflow.Base.{
  ℕ, suc, ◌+◌, ◌≡◌, refl, ◌∙◌, String, false, ◌&&◌, List, [], ◌∷◌, Option, none, some,
  if◌then◌else◌, ◌==◌, length, All, arith, eq_iff, Bool-cases, inl, inr,
}
use hatchet_workflow.Dag.Executor.{Status}
use hatchet_workflow.Api.Runs.{
  SavedNode, Saved, Row, is_row, load, save, delete, Summary, count, count_one, summarise, list,
}

-- What a map from tenants and runs to snapshots says after an assignment.
abbrev pub View : Type 0
View = (tenant id : String) → Option Saved

unfoldable pub assign : (tenant id : String) → Option Saved → View → View
assign tenant id snap view tenant' id' =
    if id == id' && tenant == tenant' then snap else view tenant' id'

pub load-save :
    (tenant id tenant' id' : String) (snap : Saved) (rows : List Row)
    → load tenant' id' (save tenant id snap rows)
      ≡ (if id == id' && tenant == tenant' then some snap else load tenant' id' rows)
unfolding load save is_row
load-save tenant id tenant' id' snap [] = ground arith
load-save tenant id tenant' id' snap (row ∷ rows) =
    let ih = load-save tenant id tenant' id' snap rows in
    ground (
      arith,
      ih,
      eq_iff row.id id,
      eq_iff row.id id',
      eq_iff id id',
      eq_iff row.tenant_id tenant,
      eq_iff row.tenant_id tenant',
      eq_iff tenant tenant',
    )

pub load-delete :
    (tenant id tenant' id' : String) (rows : List Row)
    → load tenant' id' (delete tenant id rows)
      ≡ (if id == id' && tenant == tenant' then none else load tenant' id' rows)
unfolding load delete is_row
load-delete tenant id tenant' id' [] = ground arith
load-delete tenant id tenant' id' (row ∷ rows) =
    let ih = load-delete tenant id tenant' id' rows in
    ground (
      arith,
      ih,
      eq_iff row.id id,
      eq_iff row.id id',
      eq_iff id id',
      eq_iff row.tenant_id tenant,
      eq_iff row.tenant_id tenant',
      eq_iff tenant tenant',
    )

-- The table of runs is a map from tenants and runs to snapshots: what Load finds after Save is the
-- map with the snapshot assigned to the tenant's run, what Load finds after Delete is the map without
-- that run, and all other runs, those of other tenants under the same name as well, stay as they are.
pub load-View :
    (tenant id : String) (snap : Saved) (rows : List Row) (tenant' id' : String)
    → (load tenant' id' (save tenant id snap rows)
        ≡ assign tenant id (some snap) (λ t i. load t i rows) tenant' id')
      × (load tenant' id' (delete tenant id rows)
          ≡ assign tenant id none (λ t i. load t i rows) tenant' id')
unfolding assign
load-View tenant id snap rows tenant' id' =
    (load-save tenant id tenant' id' snap rows, load-delete tenant id tenant' id' rows)

-- The number of nodes counted so far.
abbrev counted : Summary → ℕ
counted s = (s.done_count + s.failed_count) + s.pending_count

counted-count_one : (x : Status) (s : Summary) → counted (count_one x s) ≡ suc (counted s)
unfolding count_one
counted-count_one x s = ground arith

count_one-rest :
    (x : Status) (s : Summary)
    → ((count_one x s).total ≡ s.total) × ((count_one x s).nodes ≡ s.nodes)
unfolding count_one
count_one-rest x s = ground arith

counted-count : (ns : List SavedNode) (s : Summary) → counted (count ns s) ≡ counted s + length ns
unfolding count
counted-count [] s = omega arith
counted-count (n ∷ ns) s =
    omega (arith, counted-count ns (count_one n.status s), counted-count_one n.status s)

total-count : (ns : List SavedNode) (s : Summary) → (count ns s).total ≡ s.total
unfolding count
total-count [] s = refl
total-count (n ∷ ns) s = total-count ns (count_one n.status s) ∙ (count_one-rest n.status s).0

summarise-total : (row : Row) → counted (summarise row) ≡ (summarise row).total
unfolding summarise
summarise-total row =
    let start : Summary = record {
      id = row.id;
      nodes = row.snapshot.nodes;
      total = length row.snapshot.nodes;
      done_count = 0;
      failed_count = 0;
      pending_count = 0;
      was_cancelled = false;
    } in
    omega (arith, counted-count row.snapshot.nodes start, total-count row.snapshot.nodes start)

-- In every entry of a tenant's list of runs the nodes that are done, failed or cancelled, and still to
-- be done make up the total.
pub list-total :
    (tenant : String) (rows : List Row)
    → All
        (λ (s : Summary). (s.done_count + s.failed_count) + s.pending_count ≡ s.total)
        (list tenant rows)
unfolding list
list-total tenant [] = tt
list-total tenant (row ∷ rows) = elim (Bool-cases (row.tenant_id == tenant)) [
  | inl e ↦ rw e (summarise-total row, list-total tenant rows)
  | inr e ↦ rw e (list-total tenant rows)
]
