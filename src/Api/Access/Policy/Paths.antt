-- ===== src/Api/Access/Policy/Paths.antt =====
-- The paths that a pattern of the mux stands for, and what isPublicPath of
-- internal/domain/auth/middleware.go says of all of them at once.
use Prim.Native.Char.{code}
use hatchet_workflow.Base.{
  String, Bool, true, false, ◌&&◌, ◌||◌, if◌then◌else◌, ◌≡◌, Option, none, some, ◌==◌, eqb, eq_iff,
  eq_false, Bool-cases, inl, inr, arith,
}
use hatchet_workflow.Base.Text.{
  has_prefix, has_prefix_trans, has_prefix_refl, apart, has_prefix-apart,
}
use hatchet_workflow.Auth.{is_public_path}

-- Is the character an opening brace or a star?
unfoldable is_open : String → Bool
is_open String.[] = false
is_open (String.◌∷◌ c s) = eqb (code c) 123 || eqb (code c) 42

-- A pattern up to its first parameter or star.
unfoldable pub literal : String → String
unfolding is_open
literal String.[] = String.[]
literal (String.◌∷◌ c s) = if is_open (String.◌∷◌ c s) then String.[] else String.◌∷◌ c (literal s)

-- Every path of a pattern begins with the literal part, and is the pattern when that is all of it.
abbrev pub Fits : String → String → Type 0
Fits pattern path =
    (has_prefix (literal pattern) path ≡ true) × (literal pattern ≡ pattern → path ≡ pattern)

apart→differs : (p q s : String) → apart p q ≡ true → has_prefix q s ≡ true → (s == p) ≡ false
apart→differs p q s h k = eq_false s p (λ e.
    let same : has_prefix p s ≡ true = rw e (has_prefix_refl p) in
    let other : has_prefix p s ≡ false = has_prefix-apart p q s h k in cc)

-- What isPublicPath answers on every path under a prefix, if it answers the same on all of them.
unfoldable pub settled : String → Option Bool
settled q =
    if apart "/api/v1/auth/login" q
      && (apart "/api/v1/auth/refresh" q && apart "/api/v1/auth/logout" q)
    then if has_prefix "/api/share/" q
      then some true
      else if apart "/api/share/" q
      then (if has_prefix "/ws/" q
          then some false
          else if apart "/ws/" q
          then (if has_prefix "/api/" q
              then some false
              else if apart "/api/" q
              then some true
              else none)
          else none)
      else none
    else none

pub is_public_path-settled :
    (q path : String) (b : Bool)
    → settled q ≡ some b
    → has_prefix q path ≡ true
    → is_public_path path ≡ b
unfolding settled is_public_path
is_public_path-settled q path b h k = ground (
  arith,
  h,
  k,
  apart→differs "/api/v1/auth/login" q path,
  apart→differs "/api/v1/auth/refresh" q path,
  apart→differs "/api/v1/auth/logout" q path,
  has_prefix-apart "/api/share/" q path,
  has_prefix-apart "/ws/" q path,
  has_prefix-apart "/api/" q path,
  has_prefix_trans "/api/share/" q path,
  has_prefix_trans "/ws/" q path,
  has_prefix_trans "/api/" q path,
)

-- What isPublicPath answers on every path of a pattern.
unfoldable pub openness : String → Option Bool
openness pattern =
    if literal pattern == pattern then some (is_public_path pattern) else settled (literal pattern)

pub is_public_path-openness :
    (pattern path : String) (b : Bool)
    → openness pattern ≡ some b
    → Fits pattern path
    → is_public_path path ≡ b
unfolding openness
is_public_path-openness pattern path b h fits = elim (Bool-cases (literal pattern == pattern)) [
  | inl e ↦
      let same : path ≡ pattern = fits.1 ((eq_iff (literal pattern) pattern).0 e) in
      rw same (ground (arith, h, e))
  | inr e ↦ is_public_path-settled (literal pattern) path b (ground (arith, h, e)) (fits.0)
]
