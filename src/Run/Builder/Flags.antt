-- ===== src/Run/Builder/Flags.antt =====
-- The choices that a configuration makes of the builder, and checks over all of them.
use hatchet_workflow.Base.{
  ℕ, zero, suc, String, Bool, true, false, ◌&&◌, ◌||◌, not, ◌≡◌, refl, List, [], ◌∷◌, map, some,
  none, lookup, insert, any, ◌==◌, length, if◌then◌else◌, arith,
}
use hatchet_workflow.Dag.Graph.{Node, Graph, Result, Index, index, add, new, ok, err}
use hatchet_workflow.Dag.Registry.{register, restore}
use hatchet_workflow.Dag.Validate.{validate}
use hatchet_workflow.Run.Builder.{Task, assemble}

-- The five tests of the configuration, in the order in which `assemble` takes them.
abbrev pub Check : Type 0
Check = (etcd patroni pg_bouncer proxy ydb_init : Bool) → Bool

abbrev both : (Bool → Bool) → Bool
both p = p true && p false

both_sound : (p : Bool → Bool) → both p ≡ true → (b : Bool) → p b ≡ true
both_sound p h true = ground arith
both_sound p h false = ground arith

abbrev pub always : Check → Bool
always p = both (λ a. both (λ b. both (λ c. both (λ d. both (λ e. p a b c d e)))))

pub always_sound : (p : Check) → always p ≡ true → (a b c d e : Bool) → p a b c d e ≡ true
always_sound p h a b c d e =
    both_sound (λ z. p a b c d z)
      (both_sound (λ y. both (λ z. p a b c y z))
        (both_sound (λ x. both (λ y. both (λ z. p a b x y z)))
          (both_sound (λ w. both (λ x. both (λ y. both (λ z. p a w x y z))))
            (both_sound (λ v. both (λ w. both (λ x. both (λ y. both (λ z. p v w x y z))))) h a) b)
          c)
        d)
      e

abbrev pub ids_of : {T : Type 0} → Graph T → List String
ids_of g = map (λ n. n.id) g

abbrev pub is_ok : {A : Type 0} → Result A → Bool
is_ok (ok _) = true
is_ok (err _) = false

abbrev pub every : {A : Type 0} → (A → Bool) → List A → Bool
every p [] = true
every p (x ∷ xs) = p x && every p xs

-- A chain of at most `fuel` dependencies leads from one phase to another.
unfoldable pub leads : {T : Type 0} → Index T → ℕ → String → String → Bool
unfolding lookup
leads idx zero from to = false
leads idx (suc fuel) from to = elim (lookup from idx) [
  | none ↦ false
  | some n ↦ any (λ dep. if dep == to then true else leads idx fuel dep to) n.deps
]

abbrev valid : Task × Task → Check
valid tasks a b c d e = let g = (assemble a b c d e tasks).g in is_ok (validate g (ids_of g))

valid-always : (tasks : Task × Task) → always (valid tasks) ≡ true
unfolding assemble add register insert lookup validate index new
valid-always (a, b) = refl

-- Validation accepts the assembled graph, in the order of its nodes.
pub assemble-valid :
    (tasks : Task × Task) (a b c d e : Bool)
    → is_ok (validate (assemble a b c d e tasks).g (ids_of (assemble a b c d e tasks).g)) ≡ true
assemble-valid tasks = always_sound (valid tasks) (valid-always tasks)

-- Every phase but run_stroppy and teardown is a dependency of run_stroppy.
abbrev pub is_gated : Graph Task → Bool
is_gated g =
    every
      (λ id.
        if id == "run_stroppy" || id == "teardown"
        then true
        else leads (index g) (length g) "run_stroppy" id)
      (ids_of g)

gated-always :
    (tasks : Task × Task) → always (λ a b c d e. is_gated (assemble a b c d e tasks).g) ≡ true
unfolding assemble add register insert lookup validate index new leads
gated-always (a, b) = refl

pub assemble-gated :
    (tasks : Task × Task) (a b c d e : Bool) → is_gated (assemble a b c d e tasks).g ≡ true
assemble-gated tasks =
    always_sound (λ a b c d e. is_gated (assemble a b c d e tasks).g) (gated-always tasks)

-- The ids differ.
abbrev pub all_differ : List String → Bool
all_differ [] = true
all_differ (id ∷ ids) = not (any (λ x. x == id) ids) && all_differ ids

differ-always :
    (tasks : Task × Task)
    → always (λ a b c d e. all_differ (ids_of (assemble a b c d e tasks).g)) ≡ true
unfolding assemble add register insert new
differ-always (a, b) = refl

pub assemble-differ :
    (tasks : Task × Task) (a b c d e : Bool)
    → all_differ (ids_of (assemble a b c d e tasks).g) ≡ true
assemble-differ tasks =
    always_sound (λ a b c d e. all_differ (ids_of (assemble a b c d e tasks).g))
      (differ-always tasks)

-- A node as its JSON text has it: without its task.
abbrev pub strip : Graph Task → Graph Task
strip g = map (λ (n : Node Task). record n { task = none }) g

pick : (P : Bool → Type 0) → P true → P false → (b : Bool) → P b
pick P x y true = x
pick P x y false = y

-- The registry gives every node of the assembled graph its task back.
pub assemble-restored :
    (tasks : Task × Task) (a b c d e : Bool)
    → restore (assemble a b c d e tasks).reg (strip (assemble a b c d e tasks).g)
      ≡ ok (assemble a b c d e tasks).g
unfolding assemble add register insert lookup restore new
assemble-restored (x, y) =
    pick _
      (pick _
        (pick _ (pick _ (pick _ refl refl) (pick _ refl refl))
          (pick _ (pick _ refl refl) (pick _ refl refl)))
        (pick _ (pick _ (pick _ refl refl) (pick _ refl refl))
          (pick _ (pick _ refl refl) (pick _ refl refl))))
      (pick _
        (pick _ (pick _ (pick _ refl refl) (pick _ refl refl))
          (pick _ (pick _ refl refl) (pick _ refl refl)))
        (pick _ (pick _ (pick _ refl refl) (pick _ refl refl))
          (pick _ (pick _ refl refl) (pick _ refl refl))))
