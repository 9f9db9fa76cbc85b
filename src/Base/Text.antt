-- ===== src/Base/Text.antt =====
-- Go's functions on texts: prefixes, and the concatenation of texts. A text is its characters.
use Prim.Native.Nat.{ℕ, zero, suc, ◌-◌}
use Prim.Native.Char.{code}
use Prim.Native.String.{String}
use mathlib.Core.Path.{◌≡◌, refl, ap}
use mathlib.Core.Bool.{Bool, true, false, not, ◌&&◌}
use native.Mathlib.Omega.{arith}
use mathlib.Core.Option.{Option, none, some}
use text.Mathlib.Text.{◌==◌}
use hatchet_workflow.Base.Tests.{eqb, if◌then◌else◌}

-- a + b on texts
unfoldable pub join : String → String → String
join String.[] t = t
join (String.◌∷◌ c s) t = String.◌∷◌ c (join s t)

-- What follows a prefix, if the text begins with it.
unfoldable pub after_prefix : String → String → Option String
after_prefix String.[] s = some s
after_prefix (String.◌∷◌ c p) String.[] = none
after_prefix (String.◌∷◌ c p) (String.◌∷◌ d s) =
    if eqb (code c) (code d) then after_prefix p s else none

-- strings.HasPrefix(s, p)
unfoldable pub has_prefix : String → String → Bool
unfolding after_prefix
has_prefix p s = elim (after_prefix p s) [ some _ ↦ true | none ↦ false ]

-- strings.TrimPrefix(s, p)
unfoldable pub trim_prefix : String → String → String
unfolding after_prefix
trim_prefix p s = elim (after_prefix p s) [ some rest ↦ rest | none ↦ s ]

-- strings.Contains(s, p)
unfoldable pub contains : (p s : String) → Bool
unfolding has_prefix after_prefix
contains p String.[] = has_prefix p String.[]
contains p (String.◌∷◌ c s) =
    let later = contains p s in if has_prefix p (String.◌∷◌ c s) then true else later

-- strings.HasSuffix(s, p)
unfoldable pub has_suffix : (p s : String) → Bool
has_suffix p String.[] = p == String.[]
has_suffix p (String.◌∷◌ c s) =
    let later = has_suffix p s in if p == String.◌∷◌ c s then true else later

-- strings.TrimSuffix(s, p), for a text p that is not empty
unfoldable pub trim_suffix : (p s : String) → String
trim_suffix p String.[] = String.[]
trim_suffix p (String.◌∷◌ c s) =
    let later = trim_suffix p s in if p == String.◌∷◌ c s then String.[] else String.◌∷◌ c later

length : String → ℕ
length String.[] = 0
length (String.◌∷◌ c s) = suc (length s)

-- The replacement of a text `old` in what follows the next `skip` characters.
unfoldable replace_after : (old new : String) (skip : ℕ) → String → String
unfolding has_prefix length
replace_after old new skip String.[] = String.[]
replace_after old new (suc skip) (String.◌∷◌ c s) = replace_after old new skip s
replace_after old new zero (String.◌∷◌ c s) =
    let inside = replace_after old new (length old - 1) s in
    let after = replace_after old new zero s in
    if has_prefix old (String.◌∷◌ c s) then join new inside else String.◌∷◌ c after

-- strings.ReplaceAll(s, old, new), for a text `old` that is not empty
unfoldable pub replace_all : (old new s : String) → String
unfolding replace_after
replace_all old new s = replace_after old new 0 s

-- A prefix of a prefix.
pub has_prefix_trans :
    (p q s : String) → has_prefix p q ≡ true → has_prefix q s ≡ true → has_prefix p s ≡ true
unfolding has_prefix after_prefix
has_prefix_trans String.[] q s h k = refl
has_prefix_trans (String.◌∷◌ c p) String.[] s h k = cc
has_prefix_trans (String.◌∷◌ c p) (String.◌∷◌ d q) String.[] h k = cc
has_prefix_trans (String.◌∷◌ c p) (String.◌∷◌ d q) (String.◌∷◌ e s) h k =
    let ih : has_prefix p q ≡ true → has_prefix q s ≡ true → has_prefix p s ≡ true =
      has_prefix_trans p q s in
    ground (arith, h, k, ih)

pub has_prefix_refl : (s : String) → has_prefix s s ≡ true
unfolding has_prefix after_prefix
has_prefix_refl String.[] = refl
has_prefix_refl (String.◌∷◌ c s) = ground (arith, has_prefix_refl s)

-- Two texts of which neither begins with the other.
unfoldable pub apart : String → String → Bool
unfolding has_prefix
apart a b = not (has_prefix a b) && not (has_prefix b a)

pub has_prefix-apart :
    (p q s : String) → apart p q ≡ true → has_prefix q s ≡ true → has_prefix p s ≡ false
unfolding apart has_prefix after_prefix
has_prefix-apart String.[] q s h k = cc
has_prefix-apart (String.◌∷◌ c p) String.[] s h k = cc
has_prefix-apart (String.◌∷◌ c p) (String.◌∷◌ d q) String.[] h k = refl
has_prefix-apart (String.◌∷◌ c p) (String.◌∷◌ d q) (String.◌∷◌ e s) h k =
    let ih : apart p q ≡ true → has_prefix q s ≡ true → has_prefix p s ≡ false =
      has_prefix-apart p q s in
    ground (arith, h, k, ih)

pub join_assoc : (s t u : String) → join (join s t) u ≡ join s (join t u)
unfolding join
join_assoc String.[] t u = refl
join_assoc (String.◌∷◌ c s) t u = ap (String.◌∷◌ c) (join_assoc s t u)
