-- ===== src/Dag/Validate/Edges.antt =====
-- What validation is about: dependency edges between indexed nodes, paths, and nodes from which
-- every chain of dependencies ends.
use hatchet_workflow.Base.{String, ◌≡◌, List, Memᴰ, some, lookup}
use hatchet_workflow.Dag.Graph.{Node, Index}

module _ {T : Type 0} (idx : Index T) where
  -- `id` depends on `dep`.
  pub record Edge (id dep : String) : Type 0 where
    pub node : Node T
    pub found : lookup id idx ≡ some node
    pub listed : Memᴰ dep node.deps

  -- A chain of at least one dependency.
  pub data Chain : String → String → Type 0 where
    one : {a b : String} → Edge a b → Chain a b
    more : {a b c : String} → Chain a b → Edge b c → Chain a c

  -- Every chain of dependencies from the node ends.
  pub data Grounded : String → Type 0 where
    grounded : {id : String} → ((dep : String) → Edge id dep → Grounded dep) → Grounded id

  -- Every chain of dependencies between indexed nodes ends.
  abbrev pub AllGrounded : Type 0
  AllGrounded = (id : String) (n : Node T) → lookup id idx ≡ some n → Grounded id

  -- No node depends on itself, at any distance.
  abbrev pub Acyclic : Type 0
  Acyclic = (id : String) → ¬ Chain id id

  -- Some node depends on itself.
  abbrev pub Cyclic : Type 0
  Cyclic = (id : String) × Chain id id

  -- Every dep of an indexed node is indexed.
  abbrev pub IsClosed : Type 0
  IsClosed = (id dep : String) → Edge id dep → (n : Node T) × (lookup dep idx ≡ some n)

  -- `order` goes through the keys of the index.
  pub record Iterates (order : List String) : Type 0 where
    pub covers : (id : String) (n : Node T) → lookup id idx ≡ some n → Memᴰ id order
    pub keys : (id : String) → Memᴰ id order → (n : Node T) × (lookup id idx ≡ some n)

  Chain-prepend : {a b c : String} → Edge a b → Chain b c → Chain a c
  Chain-prepend e (one f) = more (one e) f
  Chain-prepend e (more p f) = more (Chain-prepend e p) f

  pub Chain-trans : {a b c : String} → Chain a b → Chain b c → Chain a c
  Chain-trans p (one f) = more p f
  Chain-trans p (more q f) = more (Chain-trans p q) f

  -- The first step of a chain, and the rest of it.
  pub Chain-first :
      {a c : String} → Chain a c → (b : String) × Edge a b × ((d : String) → Chain c d → Chain b d)
  Chain-first (one {a} {b} e) = (b, e, λ d p. p)
  Chain-first (more {a} {b} {c} p e) =
      let (x, first, rest) = Chain-first p in (x, first, λ d q. rest d (Chain-prepend e q))

  -- A grounded node lies on no cycle.
  pub Grounded-not_cyclic : {a : String} → Grounded a → ¬ Chain a a
  Grounded-not_cyclic {a} (grounded below) p =
      let (b, e, rest) = Chain-first p in Grounded-not_cyclic (below b e) (back b e rest)
    where
      back : (b : String) → Edge a b → ((d : String) → Chain a d → Chain b d) → Chain b b
      back b e rest = rest b (one e)

  pub AllGrounded-Acyclic : AllGrounded → Acyclic
  AllGrounded-Acyclic all id p =
      let (_, edge, _) = Chain-first p in Grounded-not_cyclic (all id edge.node edge.found) p
