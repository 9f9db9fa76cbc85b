-- ===== src/Base/Lists.antt =====
-- Lists measured by native numbers, and predicates on their elements.
use Prim.Native.Nat.{ℕ, zero, suc, ◌+◌}
use mathlib.Core.Option.{Option, none, some}
use mathlib.Core.Path.{◌≡◌, refl, subst, ap, sym, ◌∙◌}
use mathlib.Core.Logic.{inl, inr, ⊎_elim, ◌↔◌, ◌⊎◌}
use mathlib.Core.Bool.{Bool, true, false}
use mathlib.Core.List.{List, [], ◌∷◌, ◌++◌, map, Memᴰ}
use mathlib.Core.List.Memᴰ
use native.Mathlib.Omega.{arith}
use hatchet_workflow.Base.Tests.{if◌then◌else◌, eqb, Bool-cases}

module _ {ℓ} {A : Type ℓ} where
  abbrev pub length : List A → ℕ
  length [] = 0
  length (_ ∷ xs) = suc (length xs)

  pub length-append : (xs ys : List A) → length (xs ++ ys) ≡ length xs + length ys
  length-append [] ys = omega arith
  length-append (x ∷ xs) ys = omega (arith, length-append xs ys)

  -- Every element of the list satisfies the predicate.
  abbrev pub All {κ} : (A → Type κ) → List A → Type κ
  All P [] = Unit
  All P (x ∷ xs) = P x × All P xs

  pub Memᴰ-cons : (a x : A) (xs : List A) → Memᴰ a (x ∷ xs) ↔ ((a ≡ x) ⊎ Memᴰ a xs)
  Memᴰ-cons a x xs = (Memᴰ.cases_cons, ⊎_elim Memᴰ.head Memᴰ.tail)

  -- The elements that a Boolean test keeps, in their order.
  abbrev pub keep : (A → Bool) → List A → List A
  keep p [] = []
  keep p (x ∷ xs) = if p x then x ∷ keep p xs else keep p xs

  abbrev pub any : (A → Bool) → List A → Bool
  any p [] = false
  any p (x ∷ xs) = if p x then true else any p xs

  pub append_assoc : (xs ys zs : List A) → (xs ++ ys) ++ zs ≡ xs ++ (ys ++ zs)
  append_assoc [] ys zs = refl
  append_assoc (x ∷ xs) ys zs = rw (append_assoc xs ys zs)

  pub append_nil : (xs : List A) → xs ++ [] ≡ xs
  append_nil [] = refl
  append_nil (x ∷ xs) = rw (append_nil xs)

pub map-append {ℓ κ} :
    {A : Type ℓ} {B : Type κ} (f : A → B) (xs ys : List A) → map f (xs ++ ys) ≡ map f xs ++ map f ys
map-append f [] ys = refl
map-append f (x ∷ xs) ys = rw (map-append f xs ys)

-- Two functions whose lists of values are equal agree on every element.
pub map-Memᴰ {ℓ ℓ'} :
    {A : Type ℓ} {B : Type ℓ'} (f g : A → B) (xs : List A)
    → map f xs ≡ map g xs
    → (x : A) → Memᴰ x xs
    → f x ≡ g x
map-Memᴰ f g [] p x h = absurd (Memᴰ.not-nil h)
map-Memᴰ f g (y ∷ ys) p x h = elim ((Memᴰ-cons x y ys).0 h) [
  | inl e ↦ rw e (cc)
  | inr later ↦ map-Memᴰ f g ys (cc) x later
]

-- xs[n], if there is such a place.
abbrev pub get_elem? {ℓ} : {A : Type ℓ} → List A → ℕ → Option A
get_elem? [] n = none
get_elem? (x ∷ xs) zero = some x
get_elem? (x ∷ xs) (suc n) = get_elem? xs n

pub get_elem?-Memᴰ {ℓ} :
    {A : Type ℓ} (x : A) (xs : List A) (n : ℕ) → get_elem? xs n ≡ some x → Memᴰ x xs
get_elem?-Memᴰ x [] n h = cc
get_elem?-Memᴰ x (y ∷ ys) zero h = Memᴰ.head (cc)
get_elem?-Memᴰ x (y ∷ ys) (suc n) h = Memᴰ.tail (get_elem?-Memᴰ x ys n h)

module _ {ℓ} {A : Type ℓ} where
  -- xs[n] = x, for a place of the list.
  unfoldable pub set_at : ℕ → A → List A → List A
  set_at n x [] = []
  set_at zero x (y ∷ ys) = x ∷ ys
  set_at (suc n) x (y ∷ ys) = y ∷ set_at n x ys

  -- The list without its place n.
  unfoldable pub remove_at : ℕ → List A → List A
  remove_at n [] = []
  remove_at zero (y ∷ ys) = ys
  remove_at (suc n) (y ∷ ys) = y ∷ remove_at n ys

  pub get_elem?-set_at :
      (n m : ℕ) (x : A) (xs : List A)
      → get_elem? (set_at n x xs) m ≡ (
          if eqb n m
          then elim (get_elem? xs m) [ some _ ↦ some x | none ↦ none ]
          else get_elem? xs m)
  unfolding set_at
  get_elem?-set_at n m x [] = ground arith
  get_elem?-set_at zero zero x (y ∷ ys) = refl
  get_elem?-set_at zero (suc m) x (y ∷ ys) = ground arith
  get_elem?-set_at (suc n) zero x (y ∷ ys) = ground arith
  get_elem?-set_at (suc n) (suc m) x (y ∷ ys) =
      let ih = get_elem?-set_at n m x ys in ground (arith, ih)

  pub get_elem?-append :
      (m : ℕ) (xs : List A) (x : A)
      → get_elem? (xs ++ (x ∷ [])) m ≡ (if eqb m (length xs) then some x else get_elem? xs m)
  get_elem?-append zero [] x = refl
  get_elem?-append (suc m) [] x = ground arith
  get_elem?-append zero (y ∷ ys) x = ground arith
  get_elem?-append (suc m) (y ∷ ys) x = let ih = get_elem?-append m ys x in ground (arith, ih)

  pub get_elem?-length : (xs : List A) → get_elem? xs (length xs) ≡ none
  get_elem?-length [] = refl
  get_elem?-length (x ∷ xs) = get_elem?-length xs

  -- Predicates on every element survive a change of one element, a removal and an addition.
  module _ {κ} (P : A → Type κ) where
    pub All-set_at : (n : ℕ) (x : A) (xs : List A) → P x → All P xs → All P (set_at n x xs)
    unfolding set_at
    All-set_at n x [] px all = all
    All-set_at zero x (y ∷ ys) px (_, all) = (px, all)
    All-set_at (suc n) x (y ∷ ys) px (py, all) = (py, All-set_at n x ys px all)

    pub All-remove_at : (n : ℕ) (xs : List A) → All P xs → All P (remove_at n xs)
    unfolding remove_at
    All-remove_at n [] all = all
    All-remove_at zero (y ∷ ys) (_, all) = all
    All-remove_at (suc n) (y ∷ ys) (py, all) = (py, All-remove_at n ys all)

    pub All-add : (xs : List A) (x : A) → All P xs → P x → All P (xs ++ (x ∷ []))
    All-add [] x all px = (px, all)
    All-add (y ∷ ys) x (py, all) px = (py, All-add ys x all px)

    pub All-get : (xs : List A) (n : ℕ) (x : A) → All P xs → get_elem? xs n ≡ some x → P x
    All-get [] n x all e = cc
    All-get (y ∷ ys) zero x (py, all) e = subst P (cc) py
    All-get (y ∷ ys) (suc n) x (py, all) e = All-get ys n x all e

  pub All-map {κ μ} :
      (P : A → Type κ) (Q : A → Type μ) (xs : List A) → ((x : A) → P x → Q x) → All P xs → All Q xs
  All-map P Q [] f all = tt
  All-map P Q (x ∷ xs) f (px, all) = (f x px, All-map P Q xs f all)

-- What a test keeps passes it and stood in the list; and what stood there and passes is kept.
pub keep-Memᴰ {ℓ} :
    {A : Type ℓ} (p : A → Bool) (xs : List A) (x : A)
    → Memᴰ x (keep p xs)
    → (p x ≡ true) × Memᴰ x xs
keep-Memᴰ p [] x h = absurd (Memᴰ.not-nil h)
keep-Memᴰ p (y ∷ ys) x h = elim (Bool-cases (p y)) [
  | inl e ↦ elim ((Memᴰ-cons x y (keep p ys)).0 (subst (Memᴰ x) (rw e refl) h)) [
    | inl same ↦ (rw same e, Memᴰ.head same)
    | inr later ↦ (let (px, there) = keep-Memᴰ p ys x later in (px, Memᴰ.tail there))
  ]
  | inr e ↦
      let (px, there) = keep-Memᴰ p ys x (subst (Memᴰ x) (rw e refl) h) in (px, Memᴰ.tail there)
]

pub Memᴰ-keep {ℓ} :
    {A : Type ℓ} (p : A → Bool) (xs : List A) (x : A) → p x ≡ true → Memᴰ x xs → Memᴰ x (keep p xs)
Memᴰ-keep p [] x px h = absurd (Memᴰ.not-nil h)
Memᴰ-keep p (y ∷ ys) x px h = elim ((Memᴰ-cons x y ys).0 h) [
  | inl same ↦ rw (ap p (sym same) ∙ px) (Memᴰ.head same)
  | inr later ↦ elim (Bool-cases (p y)) [
    | inl e ↦ rw e (Memᴰ.tail (Memᴰ-keep p ys x px later))
    | inr e ↦ rw e (Memᴰ-keep p ys x px later)
  ]
]

-- A test that some element passes, and one that no element passes.
pub any-Memᴰ {ℓ} :
    {A : Type ℓ} (p : A → Bool) (xs : List A) → any p xs ≡ true → (x : A) × Memᴰ x xs × (p x ≡ true)
any-Memᴰ p [] h = cc
any-Memᴰ p (y ∷ ys) h = elim (Bool-cases (p y)) [
  | inl e ↦ (y, Memᴰ.head refl, e)
  | inr e ↦
      let (x, there, px) = any-Memᴰ p ys (subst (λ b. (if b then true else any p ys) ≡ true) e h) in
      (x, Memᴰ.tail there, px)
]

pub any-false {ℓ} :
    {A : Type ℓ} (p : A → Bool) (xs : List A) (x : A) → any p xs ≡ false → Memᴰ x xs → p x ≡ false
any-false p [] x h there = absurd (Memᴰ.not-nil there)
any-false p (y ∷ ys) x h there = elim (Bool-cases (p y)) [
  | inl e ↦ let wrong : true ≡ false = subst (λ b. (if b then true else any p ys) ≡ false) e h in cc
  | inr e ↦ elim ((Memᴰ-cons x y ys).0 there) [
    | inl same ↦ ap p same ∙ e
    | inr later ↦ any-false p ys x (subst (λ b. (if b then true else any p ys) ≡ false) e h) later
  ]
]
