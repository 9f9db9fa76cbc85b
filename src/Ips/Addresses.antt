-- ===== src/Ips/Addresses.antt =====
-- internal/core/ips/ips.go: the addresses of networks, and what its 32-bit arithmetic makes of them.
use native.Mathlib.Nat.{
  pow-le-pow_right, one-le-pow, mul-le-mul_right, div-mul-le_self, div-add-mod, mod-lt,
}
use hatchet_workflow.Base.{
  ℕ, zero, suc, ◌+◌, ◌-◌, ◌*◌, ◌/◌, ◌%◌, ◌^◌, ◌≤◌, ◌<◌, ◌≡◌, refl, ap, ◌∙◌, Bool, true, false, ◌&&◌,
  if◌then◌else◌, sym, List, [], ◌∷◌, map, Memᴰ, Memᴰ-cons, inl, inr, Bool-cases, arith, leb, ltb,
  ltb→lt, ltb_false→le, subst,
}
use hatchet_workflow.Ips.{size_of, last_of, start_of, used_range, collides}

-- The number of addresses of a network, by the length of its prefix.
abbrev pub width : ℕ → ℕ
width ones = 2 ^ (32 - ones)

-- The address belongs to the network, which is its first address and the length of its prefix.
abbrev pub HasAddress : ℕ × ℕ → ℕ → Type 0
HasAddress (start, ones) a = (start ≤ a) × (a < start + width ones)

-- The network ends within the IPv4 addresses.
abbrev pub IsNetwork : ℕ × ℕ → Type 0
IsNetwork (start, ones) = (ones ≤ 32) × (start + width ones ≤ 2 ^ 32)

-- Two networks have an address in common.
pub record Overlaps (r q : ℕ × ℕ) : Type 0 where
  pub address : ℕ
  pub in_left : HasAddress r address
  pub in_right : HasAddress q address

pub width_positive : (ones : ℕ) → 1 ≤ width ones
width_positive ones = one-le-pow (32 - ones) 2 (omega arith)

pub size_of-width : (ones : ℕ) → 1 ≤ ones → size_of ones ≡ width ones
unfolding size_of
size_of-width ones low =
    let small : 2 ^ (32 - ones) ≤ 2 ^ 31 =
      pow-le-pow_right {n = 2} (omega arith) {i = 32 - ones} {j = 31} (omega arith) in
    omega (arith, small)

pub wrapped :
    (start size : ℕ) → 1 ≤ size → start + size ≤ 2 ^ 32 → last_of start size ≡ start + size - 1
unfolding last_of
wrapped start size positive fits = omega (arith, positive, fits)

last_of_network :
    (start ones : ℕ)
    → IsNetwork (start, ones)
    → last_of start (size_of ones) ≡ start + width ones - 1
unfolding size_of last_of
last_of_network start zero (small, fits) =
    let first : start ≡ 0 = omega (arith, fits) in rw first refl
last_of_network start (suc n) (small, fits) =
    let positive = width_positive (suc n) in
    ap (last_of start) (size_of-width (suc n) (omega arith))
    ∙ wrapped start (width (suc n)) positive fits

pub start_of_candidate :
    (start j size : ℕ)
    → 1 ≤ size
    → start + (j * size + size) ≤ 2 ^ 32
    → start_of start j size ≡ start + j * size
unfolding start_of
start_of_candidate start j size positive fits = omega (arith, positive, fits)

-- The candidates are those that fit into the parent.
pub candidate_fits : (j size whole : ℕ) → j < whole / size → j * size + size ≤ whole
candidate_fits j size whole below =
    let most : suc j * size ≤ whole / size * size = mul-le-mul_right size below in
    let less = div-mul-le_self whole size in omega (arith, most, less)

pub fitting_counts : (j size whole : ℕ) → 1 ≤ size → j * size + size ≤ whole → j < whole / size
fitting_counts j size whole positive fits = elim (Bool-cases (ltb j (whole / size))) [
  | inl e ↦ ltb→lt j (whole / size) e
  | inr e ↦
      let most : whole / size * size ≤ j * size =
        mul-le-mul_right size (ltb_false→le j (whole / size) e) in
      let parts = div-add-mod whole size in
      let rest : whole % size < size = mod-lt whole positive in
      absurd (omega (arith, most, parts, rest, fits))
]

-- The test for two ranges finds a common address, or excludes one.
meet :
    (s o t p : ℕ)
    → (leb t (s + width o - 1) && leb s (t + width p - 1)) ≡ true
    → Overlaps (s, o) (t, p)
meet s o t p h =
    let left = width_positive o in
    let right = width_positive p in
    elim (Bool-cases (leb s t)) [
      | inl e ↦ record {
        address = t;
        in_left = (ground (arith, e), ground (arith, h, left));
        in_right = (omega arith, omega (arith, right));
      }
      | inr e ↦ record {
        address = s;
        in_left = (omega arith, omega (arith, left));
        in_right = (ground (arith, e), ground (arith, h, right));
      }
    ]

apart :
    (s o t p : ℕ)
    → (leb t (s + width o - 1) && leb s (t + width p - 1)) ≡ false
    → ¬ Overlaps (s, o) (t, p)
apart s o t p h over =
    let (low, high) = over.in_left in
    let (low', high') = over.in_right in ground (arith, h, low, high, low', high')

or_false : (a b : Bool) → (if a then true else b) ≡ false → (a ≡ false) × (b ≡ false)
or_false true b h = cc
or_false false b h = (refl, h)

-- The ranges in use are those of the existing networks.
module _ (start ones : ℕ) where
  abbrev touches : List (ℕ × ℕ) → Bool
  touches existing = collides (map used_range existing) start (start + width ones - 1)

  touches-cons :
      (s o : ℕ) (existing : List (ℕ × ℕ))
      → IsNetwork (s, o)
      → touches ((s, o) ∷ existing) ≡ (
          if leb start (s + width o - 1) && leb s (start + width ones - 1)
          then true
          else touches existing)
  unfolding collides used_range
  touches-cons s o existing net =
      ap (λ z. if leb start z && leb s (start + width ones - 1) then true else touches existing)
        (last_of_network s o net)

  pub collides-Overlaps :
      (existing : List (ℕ × ℕ))
      → ((r : ℕ × ℕ) → Memᴰ r existing → IsNetwork r)
      → touches existing ≡ true
      → (r : ℕ × ℕ) × Memᴰ r existing × Overlaps r (start, ones)
  unfolding collides
  collides-Overlaps [] nets h = cc
  collides-Overlaps ((s, o) ∷ existing) nets h =
      let cons = touches-cons s o existing (nets (s, o) (Memᴰ.head refl)) in
      elim (Bool-cases (leb start (s + width o - 1) && leb s (start + width ones - 1))) [
        | inl e ↦ ((s, o), Memᴰ.head refl, meet s o start ones e)
        | inr e ↦
            let more : touches existing ≡ true = rw e at (sym cons ∙ h) in
            let (r, there, over) = collides-Overlaps existing (λ r m. nets r (Memᴰ.tail m)) more in
            (r, Memᴰ.tail there, over)
      ]

  pub collides-apart :
      (existing : List (ℕ × ℕ))
      → ((r : ℕ × ℕ) → Memᴰ r existing → IsNetwork r)
      → touches existing ≡ false
      → (r : ℕ × ℕ) → Memᴰ r existing
      → ¬ Overlaps r (start, ones)
  collides-apart [] nets h r m = elim m [ ]
  collides-apart ((s, o) ∷ existing) nets h r m =
      let cons = touches-cons s o existing (nets (s, o) (Memᴰ.head refl)) in
      let (clear, later_clear) = or_false _ _ (sym cons ∙ h) in
      elim ((Memᴰ-cons r (s, o) existing).0 m) [
        | inl e ↦ subst (λ z. ¬ Overlaps z (start, ones)) (sym e) (apart s o start ones clear)
        | inr later ↦ collides-apart existing (λ q k. nets q (Memᴰ.tail k)) later_clear r later
      ]
