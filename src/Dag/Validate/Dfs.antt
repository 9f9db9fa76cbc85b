-- ===== src/Dag/Validate/Dfs.antt =====
-- What a call of `visit` does to the colours, and why the error it returns is a cycle.
use hatchet_workflow.Base.{
  ℕ, zero, suc, ◌≤◌, String, ◌≡◌, refl, sym, subst, List, [], ◌∷◌, Memᴰ, arith, eq_iff, ◌⊎◌, inl,
  inr, some, lookup, All, Memᴰ-cons, String-cases, eq_false, eq_refl, ⊎_elim,
}
use hatchet_workflow.Dag.Graph.{Node, Index}
use hatchet_workflow.Dag.Validate.{
  Color, white, gray, black, Colors, paint, Visit, visited, cycle, nil_deref, no_fuel, visit_deps,
  and_then, blacken, visit,
}
use hatchet_workflow.Dag.Validate.Edges.{
  Edge, Chain, Cyclic, one, more, Grounded, grounded, IsClosed, Iterates,
}
use hatchet_workflow.Dag.Validate.Whites.{whites, whites_mono, whites-paint}

pub Color-cases : (k : Color) → (k ≡ white) ⊎ (k ≡ gray) ⊎ (k ≡ black)
Color-cases k = ground arith

-- How the colours after a call stand to those before.
pub record Extends (c c' : Colors) : Type 0 where
  pub white_back : (x : String) → c' x ≡ white → c x ≡ white
  pub gray_back : (x : String) → c' x ≡ gray → c x ≡ gray
  pub black_kept : (x : String) → c x ≡ black → c' x ≡ black

pub Extends-refl : (c : Colors) → Extends c c
Extends-refl c = record { white_back = λ x e. e; gray_back = λ x e. e; black_kept = λ x e. e }

pub Extends-trans : (a b c : Colors) → Extends a b → Extends b c → Extends a c
Extends-trans a b c p q = record {
  white_back = λ x e. p.white_back x (q.white_back x e);
  gray_back = λ x e. p.gray_back x (q.gray_back x e);
  black_kept = λ x e. q.black_kept x (p.black_kept x e);
}

-- Leaving a node: it was white before, gray during the call, and is black after it.
Extends-leave :
    (c c' : Colors) (id : String)
    → c id ≡ white
    → Extends (paint c id gray) c'
    → Extends c (paint c' id black)
Extends-leave c c' id w e = record {
  white_back = λ x h. ground (arith, eq_iff id x, e.white_back x);
  gray_back = λ x h. ground (arith, eq_iff id x, e.gray_back x);
  black_kept = λ x h. ground (arith, eq_iff id x, e.black_kept x);
}

module _ {T : Type 0} (idx : Index T) where
  -- Black nodes are finished: all that they depend on is grounded. `D` says that an earlier call
  -- has failed, which leaves colours that say nothing.
  abbrev pub IsSound : Type 0 → Colors → Type 0
  IsSound D c = (x : String) → c x ≡ black → Grounded idx x ⊎ D

  -- Gray nodes are the ones whose visit is under way: each leads to the node at hand.
  abbrev pub Leads : Type 0 → Colors → String → Type 0
  Leads D c id = (x : String) → c x ≡ gray → Chain idx x id ⊎ D

  abbrev pub Failure : Visit → Type 0
  Failure (visited c') = ⊥
  Failure (cycle c' at) = Cyclic idx
  Failure nil_deref = ⊥
  Failure no_fuel = ⊥

  -- What a call comes to: `P` of the colours it leaves, or a cycle.
  abbrev pub Post : (Colors → Type 0) → Visit → Type 0
  Post P (visited c') = P c'
  Post P r = Failure r

  abbrev pub AfterVisit : Type 0 → Colors → String → Colors → Type 0
  AfterVisit D c id c' = Extends c c' × IsSound D c' × (c' id ≡ black)

  abbrev AfterDeps : Type 0 → Colors → List String → Colors → Type 0
  AfterDeps D c deps c' = Extends c c' × IsSound D c' × All (λ d. c' d ≡ black) deps

  Post-map : (P Q : Colors → Type 0) (r : Visit) → ((c : Colors) → P c → Q c) → Post P r → Post Q r
  Post-map P Q (visited c) f p = f c p
  Post-map P Q (cycle c at) f p = p
  Post-map P Q nil_deref f p = p
  Post-map P Q no_fuel f p = p

  Post-and_then :
      (P Q : Colors → Type 0) (r : Visit) (k : Colors → Visit)
      → Post P r
      → ((c : Colors) → P c → Post Q (k c))
      → Post Q (and_then r k)
  Post-and_then P Q (visited c) k p f = f c p
  Post-and_then P Q (cycle c at) k p f = p
  Post-and_then P Q nil_deref k p f = p
  Post-and_then P Q no_fuel k p f = p

  AfterDeps-cons :
      (D : Type 0) (c c' : Colors) (dep : String) (deps : List String)
      → Extends c c'
      → c' dep ≡ black
      → (r : Visit) → Post (AfterDeps D c' deps) r
      → Post (AfterDeps D c (dep ∷ deps)) r
  AfterDeps-cons D c c' dep deps e b r =
      Post-map (AfterDeps D c' deps) (AfterDeps D c (dep ∷ deps)) r
        λ c'' a. (Extends-trans c c' c'' e a.0, a.1, (a.0.black_kept dep b, a.2))

  -- A black list of deps is grounded.
  Grounded-deps :
      (D : Type 0) (c : Colors) (deps : List String)
      → IsSound D c
      → All (λ d. c d ≡ black) deps
      → ((d : String) → Memᴰ d deps → Grounded idx d) ⊎ D
  Grounded-deps D c [] sound all = inl (λ d m. elim m [ ])
  Grounded-deps D c (x ∷ deps) sound all = elim (sound x all.0) [
    | inl g ↦ elim (Grounded-deps D c deps sound all.1) [
      | inl gs ↦ inl λ d m. ⊎_elim (λ e. rw e g) (gs d) ((Memᴰ-cons d x deps).0 m)
      | inr dirt ↦ inr dirt
    ]
    | inr dirt ↦ inr dirt
  ]

  -- An edge from a node leads to one of its deps.
  listed_at :
      (id x : String) (n : Node T) {d : String}
      → lookup id idx ≡ some n
      → id ≡ x
      → Edge idx x d
      → Memᴰ d n.deps
  listed_at id x n {d} found e edge =
      let same : edge.node ≡ n = cc (edge.found) in subst (λ m. Memᴰ d m.deps) same edge.listed

  painted_black : (c : Colors) (id x : String) → paint c id gray x ≡ black → c x ≡ black
  painted_black c id x h = ground (arith, eq_iff id x)

  painted_gray : (c : Colors) (id x : String) → paint c id gray x ≡ gray → (x ≡ id) ⊎ (c x ≡ gray)
  painted_gray c id x h = elim (String-cases id x) [
    | inl e ↦ inl (sym e)
    | inr ne ↦ inr (rw (eq_false id x ne) at h)
  ]

  module _ (closed : IsClosed idx) (order : List String) (it : Iterates idx order) (D : Type 0)
      (dirt : D → Cyclic idx) where
    -- What `visit` may count on when it is called with `fuel`.
    pub record Ready (fuel : ℕ) (id : String) (c : Colors) : Type 0 where
      pub node : Node T
      pub indexed : lookup id idx ≡ some node
      pub is_new : c id ≡ white
      pub sound : IsSound D c
      pub leads : Leads D c id
      pub enough : whites c order ≤ fuel

    module _ (fuel : ℕ) (go : String → Colors → Visit)
        (ih : (id : String) (c : Colors) → Ready fuel id c → Post (AfterVisit D c id) (go id c))
        (id : String) where
      -- A node on the stack leads to the dep at hand.
      to_dep :
          (x dep : String) → Edge idx id dep → (x ≡ id) ⊎ (Chain idx x id ⊎ D) → Chain idx x dep ⊎ D
      to_dep x dep edge (inl e) = inl (rw e (one edge))
      to_dep x dep edge (inr (inl p)) = inl (more p edge)
      to_dep x dep edge (inr (inr d)) = inr d

      Ready-dep :
          (dep : String) (c : Colors)
          → Edge idx id dep
          → c dep ≡ white
          → IsSound D c
          → ((x : String) → c x ≡ gray → (x ≡ id) ⊎ (Chain idx x id ⊎ D))
          → whites c order ≤ fuel
          → Ready fuel dep c
      Ready-dep dep c edge w sound stack enough = record {
        node = (closed id dep edge).0;
        indexed = (closed id dep edge).1;
        is_new = w;
        sound = sound;
        leads = λ x g. to_dep x dep edge (stack x g);
        enough = enough;
      }

      visit_deps-Post :
          (deps : List String) (c : Colors)
          → ((d : String) → Memᴰ d deps → Edge idx id d)
          → IsSound D c
          → ((x : String) → c x ≡ gray → (x ≡ id) ⊎ (Chain idx x id ⊎ D))
          → whites c order ≤ fuel
          → Post (AfterDeps D c deps) (visit_deps go deps c)
      unfolding visit_deps
      visit_deps-Post [] c edges sound stack enough = (Extends-refl c, sound, tt)
      visit_deps-Post (dep ∷ deps) c edges sound stack enough =
          let edge = edges dep (Memᴰ.head refl) in
          let later = λ (d : String) (m : Memᴰ d deps). edges d (Memᴰ.tail m) in
          elim (Color-cases (c dep)) [
            | inl w ↦
                rw (w, visit_deps)
                  (Post-and_then (AfterVisit D c dep) (AfterDeps D c (dep ∷ deps)) (go dep c)
                    (λ c'. visit_deps go deps c')
                    (ih dep c (Ready-dep dep c edge w sound stack enough))
                    λ c' a. AfterDeps-cons D c c' dep deps a.0 a.2 (visit_deps go deps c') (
                      visit_deps-Post deps c' later a.1 (λ x g. stack x (a.0.gray_back x g))
                        (omega (arith, whites_mono c c' order a.0.white_back))))
            | inr (inl g) ↦
                rw (g, visit_deps) (⊎_elim (λ p. (dep, p)) dirt (to_dep dep dep edge (stack dep g)))
            | inr (inr b) ↦
                rw (b, visit_deps)
                  (AfterDeps-cons D c c dep deps (Extends-refl c) b (visit_deps go deps c)
                    (visit_deps-Post deps c later sound stack enough))
          ]

    Post-blacken :
        (c : Colors) (id : String) (n : Node T) (r : Visit)
        → lookup id idx ≡ some n
        → c id ≡ white
        → Post (AfterDeps D (paint c id gray) n.deps) r
        → Post (AfterVisit D c id) (blacken id r)
    Post-blacken c id n (visited c') found w a = (
      Extends-leave c c' id w a.0,
      λ x b. elim (String-cases id x) [
        | inl e ↦
            ⊎_elim (λ gs. inl (grounded (λ d edge. gs d (listed_at id x n found e edge)))) inr
              (Grounded-deps D c' n.deps a.1 a.2)
        | inr ne ↦ a.1 x (rw (eq_false id x ne) at b)
      ],
      rw (eq_refl id),
    )
    Post-blacken c id n (cycle c' at) found w a = a
    Post-blacken c id n nil_deref found w a = a
    Post-blacken c id n no_fuel found w a = a

    -- A call of `visit` on a white key ends: it leaves the node black, or it has found a cycle.
    pub visit-Post :
        (fuel : ℕ) (id : String) (c : Colors)
        → Ready fuel id c
        → Post (AfterVisit D c id) (visit idx fuel id c)
    unfolding visit
    visit-Post zero id c r =
        absurd (omega (arith, whites-paint c id order r.is_new (it.covers id r.node r.indexed)))
    visit-Post (suc fuel) id c r =
        rw (r.indexed, visit)
          (Post-blacken c id r.node (visit_deps (visit idx fuel) r.node.deps (paint c id gray))
            r.indexed r.is_new
            (visit_deps-Post fuel (visit idx fuel) (visit-Post fuel) id r.node.deps
              (paint c id gray) (λ d m. record { node = r.node; found = r.indexed; listed = m })
              (λ x b. r.sound x (painted_black c id x b))
              (λ x g. ⊎_elim inl (λ h. inr (r.leads x h)) (painted_gray c id x g))
              (omega (
                arith,
                r.enough,
                whites-paint c id order r.is_new (it.covers id r.node r.indexed),
              ))))
