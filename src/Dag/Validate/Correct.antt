-- ===== src/Dag/Validate/Correct.antt =====
-- internal/core/dag/dag.go: Validate accepts exactly the graphs that can be run.
use hatchet_workflow.Base.{
  ℕ, suc, ◌≤◌, String, ◌≡◌, ◌≢◌, refl, List, [], ◌∷◌, ◌++◌, Memᴰ, Memᴰ-cons, ◌⊎◌, inl, inr, ⊎_elim,
  some, lookup, arith, length,
}
use hatchet_workflow.Dag.Graph.{Node, Index, Result, ok, err, cycle_at}
use hatchet_workflow.Dag.Validate.{
  gray, Colors, blank, Visit, visited, cycle, nil_deref, no_fuel, visit, detect_from, detect_cycle,
}
use hatchet_workflow.Dag.Validate.Edges.{AllGrounded, Cyclic, Grounded, IsClosed, Iterates}
use hatchet_workflow.Dag.Validate.Whites.{whites, whites-le-length}
use hatchet_workflow.Dag.Validate.Dfs.{Color-cases, Post, AfterVisit, IsSound, visit-Post}

module _ {T : Type 0} (idx : Index T) where
  Post-cases :
      (P : Colors → Type 0) (r : Visit)
      → Post idx P r
      → ((c : Colors) × (r ≡ visited c) × P c)
        ⊎ ((c : Colors) × (at : String) × (r ≡ cycle c at) × Cyclic idx)
  Post-cases P (visited c) p = inl (c, refl, p)
  Post-cases P (cycle c at) p = inr (c, at, refl, p)
  Post-cases P nil_deref p = absurd p
  Post-cases P no_fuel p = absurd p

  abbrev Keys : List String → Type 0
  Keys ids = (id : String) → Memᴰ id ids → (n : Node T) × (lookup id idx ≡ some n)

  module _ (closed : IsClosed idx) (order : List String) (it : Iterates idx order) where
    abbrev fuel : ℕ
    fuel = suc (length order)

    enough : (c : Colors) → whites c order ≤ fuel
    enough c = omega (arith, whites-le-length c order)

    -- After an error the loop goes on, over colours that say nothing, and only adds errors.
    detect_from-dirty :
        (bad : Cyclic idx) (ids : List String) (c : Colors) (x : String) (errs : List String)
        → Keys ids
        → (y : String) × (ys : List String) × (detect_from idx fuel ids c (x ∷ errs) ≡ ok (y ∷ ys))
    unfolding detect_from
    detect_from-dirty bad [] c x errs keys = (x, errs, refl)
    detect_from-dirty bad (id ∷ ids) c x errs keys =
        let rest = λ (d : String) (m : Memᴰ d ids). keys d (Memᴰ.tail m) in
        elim (Color-cases (c id)) [
          | inl w ↦
              let (n, found) = keys id (Memᴰ.head refl) in
              elim (Post-cases _ (visit idx fuel id c) (
                visit-Post idx closed order it (Cyclic idx) (λ d. d) fuel id c
                  (record {
                    node = n;
                    indexed = found;
                    is_new = w;
                    sound = λ _ _. inr bad;
                    leads = λ _ _. inr bad;
                    enough = enough c;
                  }))) [
                    | inl (c', e, _) ↦
                        rw (w, detect_from)
                          (rw (e, detect_from) (detect_from-dirty bad ids c' x errs rest))
                    | inr (c', at, e, _) ↦
                        rw (w, detect_from)
                          (rw (e, detect_from)
                            (detect_from-dirty bad ids c' x (errs ++ at ∷ []) rest))
                  ]
          | inr (inl g) ↦ rw (g, detect_from) (detect_from-dirty bad ids c x errs rest)
          | inr (inr b) ↦ rw (b, detect_from) (detect_from-dirty bad ids c x errs rest)
        ]

    -- No error yet: either there is none, and every key is grounded, or there is a cycle.
    abbrev Verdict : List String → Result (List String) → Type 0
    Verdict ids r =
        (r ≡ ok []) × ((id : String) → Memᴰ id ids → Grounded idx id)
        ⊎ ((y : String) × (ys : List String) × (r ≡ ok (y ∷ ys)) × Cyclic idx)

    Verdict-cons :
        (id : String) (ids : List String) (r : Result (List String))
        → Grounded idx id
        → Verdict ids r
        → Verdict (id ∷ ids) r
    Verdict-cons id ids r g (inl (e, gs)) =
        inl (e, λ d m. ⊎_elim (λ same. rw same g) (gs d) ((Memᴰ-cons d id ids).0 m))
    Verdict-cons id ids r g (inr found) = inr found

    strict : {A : Type 0} → A ⊎ ⊥ → A
    strict (inl a) = a
    strict (inr never) = absurd never

    detect_from-Verdict :
        (ids : List String) (c : Colors)
        → Keys ids
        → IsSound idx ⊥ c
        → ((x : String) → c x ≢ gray)
        → Verdict ids (detect_from idx fuel ids c [])
    unfolding detect_from
    detect_from-Verdict [] c keys sound clean = inl (refl, λ d m. elim m [ ])
    detect_from-Verdict (id ∷ ids) c keys sound clean =
        let rest = λ (d : String) (m : Memᴰ d ids). keys d (Memᴰ.tail m) in
        elim (Color-cases (c id)) [
          | inl w ↦
              let (n, found) = keys id (Memᴰ.head refl) in
              elim (Post-cases (AfterVisit idx ⊥ c id) (visit idx fuel id c) (
                visit-Post idx closed order it ⊥ (λ never. absurd never) fuel id c
                  (record {
                    node = n;
                    indexed = found;
                    is_new = w;
                    sound = sound;
                    leads = λ x g. absurd (clean x g);
                    enough = enough c;
                  }))) [
                    | inl (c', e, a) ↦
                        rw (w, detect_from)
                          (rw (e, detect_from)
                            (Verdict-cons id ids (detect_from idx fuel ids c' [])
                              (strict (a.1 id a.2))
                              (detect_from-Verdict ids c' rest a.1
                                (λ x g. clean x (a.0.gray_back x g)))))
                    | inr (c', at, e, bad) ↦
                        let (y, ys, more_errs) = detect_from-dirty bad ids c' at [] rest in
                        rw (w, detect_from) (rw (e, detect_from) (inr (y, ys, more_errs, bad)))
                  ]
          | inr (inl g) ↦ absurd (clean id g)
          | inr (inr b) ↦
              rw (b, detect_from)
                (Verdict-cons id ids (detect_from idx fuel ids c []) (strict (sound id b))
                  (detect_from-Verdict ids c rest sound clean))
        ]

    pub detect_cycle_cases :
        (detect_cycle idx order ≡ ok tt) × AllGrounded idx
        ⊎ ((ids : List String) × (detect_cycle idx order ≡ err (cycle_at ids)) × Cyclic idx)
    unfolding detect_cycle
    detect_cycle_cases = elim (detect_from-Verdict order blank it.keys (λ x b. cc) (λ x g. cc)) [
      | inl (e, all) ↦ inl (rw (e, detect_cycle), λ id n found. all id (it.covers id n found))
      | inr (y, ys, e, bad) ↦ inr (y ∷ ys, rw (e, detect_cycle), bad)
    ]
