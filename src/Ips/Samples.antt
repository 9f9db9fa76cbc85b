-- ===== src/Ips/Samples.antt =====
-- A small network, with the theorem about internal/core/ips at this input.
use hatchet_workflow.Base.{
  ℕ, ◌≡◌, refl, ◌+◌, List, [], ◌∷◌, Memᴰ, Memᴰ-cons, inl, inr, subst, sym, arith, ◌*◌, ◌^◌,
}
use hatchet_workflow.Base.Int.{pos}
use hatchet_workflow.Ips.{subnet, next_free_subnet}
use hatchet_workflow.Ips.Addresses.{IsNetwork}
use hatchet_workflow.Ips.Search.{Outcome, next_free_subnet-Outcome}

-- 10.0.0.0
abbrev ten : ℕ
ten = 10 * 2 ^ 24

-- 10.0.0.0/24 is in use.
abbrev existing : List (ℕ × ℕ)
existing = (ten, 24) ∷ []

existing-nets : (r : ℕ × ℕ) → Memᴰ r existing → IsNetwork r
existing-nets r m = elim ((Memᴰ-cons r (ten, 24) []).0 m) [
  | inl e ↦ subst IsNetwork (sym e) (omega arith, omega arith)
  | inr none_left ↦ elim none_left [ ]
]

next_free_subnet-Outcome_example : Outcome ten 16 existing (pos 24)
next_free_subnet-Outcome_example =
    next_free_subnet-Outcome ten 16 existing (pos 24) (omega arith) (omega arith, omega arith)
      existing-nets

-- The first subnet is taken, so the second is found.
second_found : next_free_subnet ten 16 (pos 24) existing ≡ subnet (ten + 256) 24
unfolding next_free_subnet
second_found = refl
