-- ===== src/Ips/Search.antt =====
-- internal/core/ips/ips.go: the subnet that the search finds is free, and it is only refused when
-- there is none.
use hatchet_workflow.Base.{
  ap, refl, sym, ◌∙◌, ◌*◌, ◌-◌, ℕ, zero, suc, ◌+◌, ◌/◌, ◌≤◌, ◌<◌, ◌≡◌, true, false, List, map, Memᴰ,
  inl, inr, Option, some, none, Bool-cases, arith, eqb, ltb, ltb→lt, ltb_false→le, subst,
}
use hatchet_workflow.Base.Int.{ℤ, pos, negsuc}
use hatchet_workflow.Ips.Addresses.{
  width, width_positive, IsNetwork, Overlaps, size_of-width, wrapped, start_of_candidate,
  candidate_fits, fitting_counts, collides-Overlaps, collides-apart,
}
use hatchet_workflow.Ips.{
  subnet, refused, no_subnet, bad_prefix, size_of, last_of, start_of, used_range, is_bad_prefix,
  collides, search, next_free_subnet,
}

-- What the search finds is a candidate that collides with nothing.
search-some :
    (used : List (ℕ × ℕ)) (parent size left i start : ℕ)
    → search used parent size left i ≡ some start
    → (j : ℕ) × (j < i + left)
      × (start ≡ start_of parent j size)
      × (collides used start (last_of start size) ≡ false)
unfolding search
search-some used parent size zero i start h = cc
search-some used parent size (suc left) i start h =
    elim (Bool-cases
      (collides used (start_of parent i size) (last_of (start_of parent i size) size))) [
        | inl e ↦
            let (j, below, same, free) =
              search-some used parent size left (suc i) start (rw (search, e) at h) in
            (j, omega arith, same, free)
        | inr e ↦
            let found : ◌≡◌ {A = Option ℕ} (some (start_of parent i size)) (some start) =
              rw (search, e) at h in
            let same : start_of parent i size ≡ start = cc in (i, omega arith, cc, rw same at e)
      ]

search-none :
    (used : List (ℕ × ℕ)) (parent size left i : ℕ)
    → search used parent size left i ≡ none
    → (j : ℕ) → i ≤ j
    → j < i + left
    → collides used (start_of parent j size) (last_of (start_of parent j size) size) ≡ true
unfolding search
search-none used parent size zero i h j from below = absurd (omega arith)
search-none used parent size (suc left) i h j from below =
    elim (Bool-cases
      (collides used (start_of parent i size) (last_of (start_of parent i size) size))) [
        | inr e ↦ cc (rw (search, e) at h)
        | inl e ↦ elim (Bool-cases (ltb i j)) [
          | inl later ↦
              search-none used parent size left (suc i) (rw (search, e) at h) j
                (omega (arith, ltb→lt i j later)) (omega arith)
          | inr here ↦
              let same : i ≡ j = omega (arith, ltb_false→le i j here) in
              subst
                (λ x.
                  collides used (start_of parent x size) (last_of (start_of parent x size) size)
                  ≡ true)
                same e
        ]
      ]

-- The prefix is shorter than the parent's, or longer than that of a single address.
pub data IsWrong (ones : ℕ) : ℤ → Type 0 where
  negative : (k : ℕ) → IsWrong ones (negsuc k)
  short : (p : ℕ) → p < ones → IsWrong ones (pos p)
  long : (p : ℕ) → 32 < p → IsWrong ones (pos p)

-- The prefix is as the search accepts it.
accepted_prefix : (ones p : ℕ) → is_bad_prefix ones (pos p) ≡ false → (ones ≤ p) × (p ≤ 32)
unfolding is_bad_prefix
accepted_prefix ones p h = (ground (arith, h), ground (arith, h))

IsWrong-prefix : (ones : ℕ) (prefix : ℤ) → is_bad_prefix ones prefix ≡ true → IsWrong ones prefix
unfolding is_bad_prefix
IsWrong-prefix ones (negsuc k) h = negative k
IsWrong-prefix ones (pos p) h = elim (Bool-cases (ltb p ones)) [
  | inl e ↦ short p (ltb→lt p ones e)
  | inr e ↦ long p (ground (arith, h, e))
]

negative_refused : (ones k : ℕ) → is_bad_prefix ones (negsuc k) ≡ true
unfolding is_bad_prefix
negative_refused ones k = ground arith

module _ (parent_start ones : ℕ) (existing : List (ℕ × ℕ)) where
  -- The candidate number j of the subnets with the prefix p.
  abbrev pub candidate : (p j : ℕ) → ℕ × ℕ
  candidate p j = (parent_start + j * width p, p)

  -- It lies in the parent.
  abbrev pub IsInside : (p j : ℕ) → Type 0
  IsInside p j = j * width p + width p ≤ width ones

  -- The outcomes of the search, and what each says of the networks in use.
  pub data Outcome (prefix : ℤ) : Type 0 where
    found :
        (p j : ℕ)
        → prefix ≡ pos p
        → next_free_subnet parent_start ones prefix existing ≡ subnet (candidate p j).0 p
        → IsInside p j
        → ((r : ℕ × ℕ) → Memᴰ r existing → ¬ Overlaps r (candidate p j))
        → Outcome prefix
    full :
        (p : ℕ)
        → prefix ≡ pos p
        → next_free_subnet parent_start ones prefix existing ≡ refused no_subnet
        → ((j : ℕ) → IsInside p j → (r : ℕ × ℕ) × Memᴰ r existing × Overlaps r (candidate p j))
        → Outcome prefix
    wrong :
        next_free_subnet parent_start ones prefix existing ≡ refused bad_prefix
        → IsWrong ones prefix
        → Outcome prefix

  module _ (low : 1 ≤ ones) (parent : IsNetwork (parent_start, ones))
      (nets : (r : ℕ × ℕ) → Memᴰ r existing → IsNetwork r) (p : ℕ)
      (fine : is_bad_prefix ones (pos p) ≡ false) where
    abbrev above : ones ≤ p
    above = (accepted_prefix ones p fine).0

    -- The range of a candidate, as the code computes it.
    candidate_start : (j : ℕ) → IsInside p j → start_of parent_start j (width p) ≡ (candidate p j).0
    candidate_start j inside =
        start_of_candidate parent_start j (width p) (width_positive p)
          (omega (arith, inside, parent.1))

    candidate_touches :
        (j : ℕ)
        → IsInside p j
        → collides
            (map used_range existing)
            (start_of parent_start j (width p))
            (last_of (start_of parent_start j (width p)) (width p))
          ≡ collides (map used_range existing) (candidate p j).0 ((candidate p j).0 + width p - 1)
    candidate_touches j inside =
        ap (λ z. collides (map used_range existing) z (last_of z (width p)))
          (candidate_start j inside)
        ∙ ap (collides (map used_range existing) (candidate p j).0) (
            wrapped (candidate p j).0 (width p) (width_positive p)
              (omega (arith, inside, parent.1)))

    searched :
        (w : Option ℕ)
        → search (map used_range existing) parent_start (width p) (width ones / width p) 0 ≡ w
        → next_free_subnet parent_start ones (pos p) existing
          ≡ (elim w [ some start ↦ subnet start p | none ↦ refused no_subnet ])
    unfolding next_free_subnet
    searched w h =
        let size = size_of-width p (omega (arith, above)) in
        let whole = size_of-width ones low in
        let positive = width_positive p in
        let some_size : eqb (size_of p) 0 ≡ false = ground (arith, size, positive) in
        let hit : search (map used_range existing) parent_start (size_of p)
              (size_of ones / size_of p) 0
            ≡ w =
          rw (size, whole) h in
        rw (fine, some_size, hit) refl

    by_search :
        (w : Option ℕ)
        → search (map used_range existing) parent_start (width p) (width ones / width p) 0 ≡ w
        → Outcome (pos p)
    by_search none h = full p refl (searched none h) λ j inside.
        collides-Overlaps (candidate p j).0 p existing nets (
          sym (candidate_touches j inside)
          ∙ search-none (map used_range existing) parent_start (width p) (width ones / width p) 0 h
              j (omega arith)
              (omega (arith, fitting_counts j (width p) (width ones) (width_positive p) inside)))
    by_search (some start) h =
        let (j, below, same, free) =
          search-some (map used_range existing) parent_start (width p) (width ones / width p) 0
            start h in
        let inside = candidate_fits j (width p) (width ones) (omega (arith, below)) in
        found p j refl
          (searched (some start) h ∙ ap (λ z. subnet z p) (same ∙ candidate_start j inside)) inside
          (collides-apart (candidate p j).0 p existing nets (
            sym (candidate_touches j inside)
            ∙ subst (λ z. collides (map used_range existing) z (last_of z (width p)) ≡ false) same
                free))

  -- Let the parent be a network with a prefix of 1 to 32 bits, and let the existing subnets be networks.
  -- The search for a subnet of a given prefix has three outcomes. It gives one of the networks of that
  -- prefix that the parent is divided into, and it has no address in common with an existing
  -- subnet. Or it reports that none is left, and each of these networks has an address in common with
  -- an existing subnet. Or it refuses the prefix, and that is shorter than the parent's or longer
  -- than 32.
  pub next_free_subnet-Outcome :
      (prefix : ℤ)
      → 1 ≤ ones
      → IsNetwork (parent_start, ones)
      → ((r : ℕ × ℕ) → Memᴰ r existing → IsNetwork r)
      → Outcome prefix
  unfolding next_free_subnet
  next_free_subnet-Outcome (negsuc k) low parent nets =
      wrong (rw (negative_refused ones k) refl) (negative k)
  next_free_subnet-Outcome (pos p) low parent nets =
      elim (Bool-cases (is_bad_prefix ones (pos p))) [
        | inl bad ↦ wrong (rw (bad) refl) (IsWrong-prefix ones (pos p) bad)
        | inr fine ↦ by_search low parent nets p fine _ refl
      ]
