-- ===== src/Run/Builder/Accepted.antt =====
-- internal/domain/run/builder.go: what Build returns. The graphs are checked over every choice of the
-- configuration's tests (Flags), and the theorems here carry the checks over to Build.
use hatchet_workflow.Base.{
  ℕ, zero, suc, String, Bool, true, false, ◌≡◌, ◌≢◌, refl, sym, List, [], ◌∷◌, Memᴰ, Memᴰ-cons, ◌⊎◌,
  inl, inr, Option-cases, Bool-cases, lookup, any, ◌==◌, length, arith, eq_iff, eq_false, subst, ap,
}
use hatchet_workflow.Dag.Graph.{Graph, Result, Index, index, ok, err}
use hatchet_workflow.Dag.Graph.Lookup.{index-keys}
use hatchet_workflow.Dag.Graph.Unique.{HasUniqueIds, IsFresh}
use hatchet_workflow.Dag.Registry.{unmarshal, restore}
use hatchet_workflow.Dag.Validate.{validate}
use hatchet_workflow.Dag.Validate.Edges.{Edge, Chain, Chain-trans, Iterates, one, Acyclic}
use hatchet_workflow.Dag.Validate.Accepts.{AllKnown, validate-ok_iff}
use hatchet_workflow.Run.Types.{DatabaseConfig, DatabaseKind, postgres, mysql, picodata, ydb, other}
use hatchet_workflow.Run.Builder.{
  Task, Builder, built, failed, unsupported_kind, assemble, build, db_tasks, needs_etcd,
  needs_patroni, needs_pg_bouncer, needs_proxy, needs_ydb_init,
}
use hatchet_workflow.Run.Builder.Flags.{
  ids_of, is_ok, all_differ, assemble-differ, every, leads, is_gated, strip, assemble-valid,
  assemble-gated, assemble-restored,
}

-- The order in which Go walks the index of each graph.
abbrev pub Orders : Type 0
Orders = (g : Graph Task) → List String

abbrev pub AllIterate : Orders → Type 0
AllIterate orders = (g : Graph Task) → Iterates (index g) (orders g)

pub ids_of-Iterates : {T : Type 0} (g : Graph T) → Iterates (index g) (ids_of g)
ids_of-Iterates g = record {
  covers = λ id n found. (index-keys g id).1 n found;
  keys = λ id mem. (index-keys g id).0 mem;
}

is_ok-ok : (r : Result (Unit {0})) → is_ok r ≡ true → r ≡ ok tt
is_ok-ok (ok tt) h = refl
is_ok-ok (err e) h = cc

-- A graph that is valid in one order of the index is valid in every order.
validate_any_order :
    {T : Type 0} (g : Graph T) (order order' : List String)
    → Iterates (index g) order
    → Iterates (index g) order'
    → validate g order ≡ ok tt
    → validate g order' ≡ ok tt
validate_any_order g order order' it it' h =
    (validate-ok_iff g order' it').1 ((validate-ok_iff g order it).0 h)

-- The builder's graph for a configuration.
abbrev assembled : DatabaseConfig → Task × Task → Builder
assembled db tasks =
    assemble (needs_etcd db) (needs_patroni db) (needs_pg_bouncer db) (needs_proxy db)
      (needs_ydb_init db) tasks

assembled-valid :
    (db : DatabaseConfig) (tasks : Task × Task) (order : List String)
    → Iterates (index (assembled db tasks).g) order
    → validate (assembled db tasks).g order ≡ ok tt
assembled-valid db tasks order it =
    let g = (assembled db tasks).g in
    validate_any_order g (ids_of g) order (ids_of-Iterates g) it (
      is_ok-ok (validate g (ids_of g)) (
        assemble-valid tasks (needs_etcd db) (needs_patroni db) (needs_pg_bouncer db)
          (needs_proxy db) (needs_ydb_init db)))

-- The kinds of database that Build knows.
abbrev pub supported : List DatabaseKind
supported = postgres ∷ mysql ∷ picodata ∷ ydb ∷ []

abbrev pub IsSupported : DatabaseKind → Type 0
IsSupported kind = Memᴰ kind supported

db_tasks-cases :
    (kind : DatabaseKind)
    → (IsSupported kind × (tasks : Task × Task) × (db_tasks kind ≡ built tasks))
      ⊎ ((k : String) × (kind ≡ other k) × (db_tasks kind ≡ failed (unsupported_kind k)))
unfolding db_tasks
db_tasks-cases postgres = inl (Memᴰ.head refl, _, refl)
db_tasks-cases mysql = inl (Memᴰ.tail (Memᴰ.head refl), _, refl)
db_tasks-cases picodata = inl (Memᴰ.tail (Memᴰ.tail (Memᴰ.head refl)), _, refl)
db_tasks-cases ydb = inl (Memᴰ.tail (Memᴰ.tail (Memᴰ.tail (Memᴰ.head refl))), _, refl)
db_tasks-cases (other k) = inr (k, refl, refl)

-- Build succeeds with the assembled graph, or the kind is not one of the four.
build-cases :
    (db : DatabaseConfig) (orders : Orders)
    → AllIterate orders
    → (IsSupported db.kind
        × (tasks : Task × Task) × (build db orders
            ≡ built ((assembled db tasks).g, (assembled db tasks).reg)))
      ⊎ ((k : String) × (db.kind ≡ other k) × (build db orders ≡ failed (unsupported_kind k)))
unfolding build
build-cases db orders it = elim (db_tasks-cases db.kind) [
  | inl (kind, tasks, e) ↦
      let g = (assembled db tasks).g in
      let fine = assembled-valid db tasks (orders g) (it g) in
      inl (kind, tasks, rw (build, e, fine))
  | inr (k, named, e) ↦ inr (k, named, rw (build, e))
]

build-built :
    (db : DatabaseConfig) (orders : Orders)
    → AllIterate orders
    → (g : Graph Task) (reg : List (String × Task)) → build db orders ≡ built (g, reg)
    → (tasks : Task × Task) × ((assembled db tasks).g ≡ g) × ((assembled db tasks).reg ≡ reg)
build-built db orders it g reg h = elim (build-cases db orders it) [
  | inl (_, tasks, e) ↦
      let same : ◌≡◌ {A = Graph Task × List (String × Task)}
          ((assembled db tasks).g, (assembled db tasks).reg) (g, reg) =
        cc in
      (tasks, ap (λ p. p.0) same, ap (λ p. p.1) same)
  | inr (k, named, e) ↦ cc
]

IsFresh-of :
    {T : Type 0} (id : String) (g : Graph T) → any (λ x. x == id) (ids_of g) ≡ false → IsFresh id g
IsFresh-of id [] h = tt
IsFresh-of id (n ∷ g) h = elim (Bool-cases (n.id == id)) [
  | inl e ↦ cc (rw (e) at h)
  | inr e ↦ (λ same. ground (arith, eq_iff n.id id), IsFresh-of id g (rw (e) at h))
]

HasUniqueIds-of : {T : Type 0} (g : Graph T) → all_differ (ids_of g) ≡ true → HasUniqueIds g
HasUniqueIds-of [] h = tt
HasUniqueIds-of (n ∷ g) h = (IsFresh-of n.id g (ground arith), HasUniqueIds-of g (ground arith))

any-some :
    {A : Type 0} (p : A → Bool) (xs : List A) → any p xs ≡ true → (x : A) × Memᴰ x xs × (p x ≡ true)
any-some p [] h = cc
any-some p (x ∷ xs) h = elim (Bool-cases (p x)) [
  | inl e ↦ (x, Memᴰ.head refl, e)
  | inr e ↦ let (y, mem, holds) = any-some p xs (rw (e) at h) in (y, Memᴰ.tail mem, holds)
]

every-all :
    {A : Type 0} (p : A → Bool) (xs : List A) (x : A) → every p xs ≡ true → Memᴰ x xs → p x ≡ true
every-all p [] x h mem = elim mem [ ]
every-all p (y ∷ xs) x h mem = elim ((Memᴰ-cons x y xs).0 mem) [
  | inl e ↦ rw e (ground arith)
  | inr later ↦ every-all p xs x (ground arith) later
]

-- The check follows edges of the index.
leads-Chain :
    {T : Type 0} (idx : Index T) (fuel : ℕ) (a b : String)
    → leads idx fuel a b ≡ true
    → Chain idx a b
unfolding leads
leads-Chain idx zero a b h = cc
leads-Chain idx (suc fuel) a b h = elim (Option-cases (lookup a idx)) [
  | inl e ↦ cc (rw (leads, e) at h)
  | inr (n, e) ↦
      let (dep, mem, holds) = any-some _ n.deps (rw (leads, e) at h) in
      let edge : Edge idx a dep = record { node = n; found = e; listed = mem } in
      elim (Bool-cases (dep == b)) [
        | inl same ↦ subst (Chain idx a) ((eq_iff dep b).0 same) (one edge)
        | inr differs ↦
            Chain-trans idx (one edge) (leads-Chain idx fuel dep b (rw (differs) at holds))
      ]
]

-- For every configuration and every order in which validation walks the index, either the database
-- kind is one of the supported ones (postgres, mysql, picodata, ydb) and Build returns a graph and a
-- registry, or it is another kind and Build returns the error that names it. The graph that it returns has different ids, no unknown dep and no cycle.
pub build_accepts :
    (db : DatabaseConfig) (orders : Orders)
    → AllIterate orders
    → (IsSupported db.kind
        × (g : Graph Task) × (reg : List (String × Task)) × (build db orders ≡ built (g, reg))
        × HasUniqueIds g
        × AllKnown g
        × Acyclic (index g))
      ⊎ ((k : String) × (db.kind ≡ other k) × (build db orders ≡ failed (unsupported_kind k)))
build_accepts db orders it = elim (build-cases db orders it) [
  | inl (kind, tasks, e) ↦
      let g = (assembled db tasks).g in
      let differ =
        assemble-differ tasks (needs_etcd db) (needs_patroni db) (needs_pg_bouncer db)
          (needs_proxy db) (needs_ydb_init db) in
      let (known, acyclic) =
        (validate-ok_iff g (orders g) (it g)).0 (assembled-valid db tasks (orders g) (it g)) in
      inl (kind, g, (assembled db tasks).reg, e, HasUniqueIds-of g differ, known, acyclic)
  | inr bad ↦ inr bad
]

-- Unmarshalling, with the registry that Build returns, of the graph that it returns without its
-- tasks gives that graph back, its tasks included, whatever the order of the validation.
pub build-unmarshal :
    (db : DatabaseConfig) (orders : Orders) (it : AllIterate orders) (g : Graph Task)
    (reg : List (String × Task)) (order : List String)
    → build db orders ≡ built (g, reg)
    → Iterates (index g) order
    → unmarshal reg (strip g) order ≡ ok g
unfolding unmarshal
build-unmarshal db orders it g reg order h walk =
    let (tasks, same, same_reg) = build-built db orders it g reg h in
    let restored : restore reg (strip g) ≡ ok g =
      rw (sym same, sym same_reg)
        (assemble-restored tasks (needs_etcd db) (needs_patroni db) (needs_pg_bouncer db)
          (needs_proxy db) (needs_ydb_init db)) in
    let valid : validate g order ≡ ok tt =
      subst (λ z. Iterates (index z) order → validate z order ≡ ok tt) same
        (assembled-valid db tasks order) walk in
    rw (unmarshal, restored, valid)

-- In the graph that Build returns, run_stroppy depends, directly or through other phases, on every
-- phase but itself and teardown.
pub build_gates_stroppy :
    (db : DatabaseConfig) (orders : Orders) (it : AllIterate orders) (g : Graph Task)
    (reg : List (String × Task)) (id : String)
    → build db orders ≡ built (g, reg)
    → Memᴰ id (ids_of g)
    → id ≢ "run_stroppy"
    → id ≢ "teardown"
    → Chain (index g) "run_stroppy" id
build_gates_stroppy db orders it g reg id h mem not_self not_teardown =
    let (tasks, same, _) = build-built db orders it g reg h in
    let gated : is_gated g ≡ true =
      subst (λ z. is_gated z ≡ true) same
        (assemble-gated tasks (needs_etcd db) (needs_patroni db) (needs_pg_bouncer db)
          (needs_proxy db) (needs_ydb_init db)) in
    let here = every-all _ (ids_of g) id gated mem in
    leads-Chain (index g) (length g) "run_stroppy" id
      (rw (eq_false id "run_stroppy" not_self, eq_false id "teardown" not_teardown) at here)
