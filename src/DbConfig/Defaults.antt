-- ===== src/DbConfig/Defaults.antt =====
-- internal/domain/dbconfig/postgres.go: the defaults of postgresql.conf, key by key.
use hatchet_workflow.Base.{
  ◌≡◌, refl, ap, ◌∙◌, Bool, String, true, false, Option, none, some, not, ◌&&◌, ◌∷◌, [],
  if◌then◌else◌, ◌==◌, lookup, insert, lookup-insert, eq_iff, Bool-cases, inl, inr,
}
use hatchet_workflow.DbConfig.{Settings, PostgresOpts, postgres_defaults, postgres_base}

-- The tuning that every version starts from.
abbrev pub tuning : Settings
tuning =
    ("shared_buffers", "25%")
    ∷ ("max_connections", "200")
    ∷ ("max_wal_size", "4GB")
    ∷ ("effective_cache_size", "75%")
    ∷ ("work_mem", "64MB")
    ∷ ("maintenance_work_mem", "512MB")
    ∷ ("wal_buffers", "64MB")
    ∷ ("checkpoint_completion_target", "0.9")
    ∷ ("random_page_cost", "1.1")
    ∷ ("effective_io_concurrency", "200")
    ∷ ("listen_addresses", "'*'")
    ∷ []

-- The settings of streaming replication, which are Patroni's where it is in use.
abbrev pub replication : (role k : String) → Option String
replication role k =
    if "hot_standby" == k && role == "replica"
    then some "on"
    else if "max_replication_slots" == k
    then some "10"
    else if "max_wal_senders" == k
    then some "10"
    else if "wal_level" == k
    then some "replica"
    else none

-- The first of two values.
abbrev pub or_else : Option String → Option String → Option String
or_else (some v) d = some v
or_else none d = d

-- The default of a key: a setting of replication, the one of version 17, or the tuning.
abbrev pub default_of : PostgresOpts → (k : String) → Option String
default_of o k =
    or_else (if o.patroni then none else replication o.role k)
      (if "summarize_wal" == k && o.version == "17" then some "on" else lookup k tuning)

tuned :
    (b : Bool) (k : String)
    → lookup k (if b then insert "summarize_wal" "on" tuning else tuning)
      ≡ (if "summarize_wal" == k && b then some "on" else lookup k tuning)
tuned false k = elim (Bool-cases ("summarize_wal" == k)) [
  | inl e ↦ rw (e) refl
  | inr e ↦ rw (e) refl
]
tuned true k =
    lookup-insert "summarize_wal" k "on" tuning
    ∙ elim (Bool-cases ("summarize_wal" == k)) [ inl e ↦ rw (e) refl | inr e ↦ rw (e) refl ]

or_else_if :
    (b : Bool) (v : String) (w d : Option String)
    → (if b then some v else or_else w d) ≡ or_else (if b then some v else w) d
or_else_if true v w d = refl
or_else_if false v w d = refl

put :
    (j v k : String) (m : Settings) (w d : Option String)
    → lookup k m ≡ or_else w d
    → lookup k (insert j v m) ≡ or_else (if j == k then some v else w) d
put j v k m w d h =
    lookup-insert j k v m ∙ (ap (λ x. if j == k then some v else x) h ∙ or_else_if (j == k) v w d)

put_if :
    (b : Bool) (j v k : String) (m : Settings) (w d : Option String)
    → lookup k m ≡ or_else w d
    → lookup k (if b then insert j v m else m) ≡ or_else (if j == k && b then some v else w) d
put_if true j v k m w d h =
    put j v k m w d h ∙ elim (Bool-cases (j == k)) [ inl e ↦ rw (e) refl | inr e ↦ rw (e) refl ]
put_if false j v k m w d h = elim (Bool-cases (j == k)) [ inl e ↦ rw (e) h | inr e ↦ rw (e) h ]

replicated :
    (role k : String) (m : Settings) (d : Option String)
    → lookup k m ≡ d
    → let replicating =
        insert "max_replication_slots" "10"
          (insert "max_wal_senders" "10" (insert "wal_level" "replica" m)) in
      lookup k (if role == "replica" then insert "hot_standby" "on" replicating else replicating)
      ≡ or_else (replication role k) d
replicated role k m d h = put_if (role == "replica") "hot_standby" "on" k _ _ d (
    put "max_replication_slots" "10" k _ _ d
      (put "max_wal_senders" "10" k _ _ d (put "wal_level" "replica" k m none d h)))

patronised :
    (p : Bool) (k : String) (n m : Settings) (w d : Option String)
    → lookup k n ≡ or_else w d
    → lookup k m ≡ d
    → lookup k (if not p then n else m) ≡ or_else (if p then none else w) d
patronised true k n m w d h g = g
patronised false k n m w d h g = h

versioned :
    (version k : String)
    → lookup k (postgres_defaults (if version == "" then "16" else version))
      ≡ (if "summarize_wal" == k && version == "17" then some "on" else lookup k tuning)
unfolding postgres_defaults
versioned version k = elim (Bool-cases (version == "")) [
  | inl e ↦ let same = (eq_iff version "").0 e in rw same (tuned false k)
  | inr e ↦ rw (e) (tuned (version == "17") k)
]

pub lookup-postgres_base :
    (o : PostgresOpts) (k : String) → lookup k (postgres_base o) ≡ default_of o k
unfolding postgres_base
lookup-postgres_base o k =
    patronised o.patroni k _ _ _ _ (replicated o.role k _ _ (versioned o.version k))
      (versioned o.version k)

pub or_else-elim :
    (u v w : Option String) → v ≡ w → (elim u [ some x ↦ some x | none ↦ v ]) ≡ or_else u w
or_else-elim (some x) v w h = refl
or_else-elim none v w h = h
