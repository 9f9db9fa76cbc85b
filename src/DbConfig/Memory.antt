-- ===== src/DbConfig/Memory.antt =====
-- internal/domain/dbconfig: the sizes that percentages of the memory stand for, and the memory of
-- picodata.
use native.Mathlib.Numerals.{unary_clauses}
use hatchet_workflow.Base.{
  ℕ, zero, suc, ◌*◌, ◌≤◌, ◌≡◌, refl, ap, ◌∙◌, ◌⊎◌, inl, inr, ◌<◌, String, true, some, lookup, arith,
  Bool-cases, Option-cases, ltb,
}
use hatchet_workflow.Base.Int.{ℤ, pos, negsuc, ltb_ℤ, wrap64, times, over}
use hatchet_workflow.Base.Text.{join, has_suffix, trim_suffix}
use hatchet_workflow.DbConfig.Merged.{lookup-override, chosen}
use hatchet_workflow.DbConfig.{
  Settings, Format, share_of, clamp, resolve, resolve_memory_percents, override, picodata_memory,
  picodata_memtx_bytes, picodata_defaults, value_of,
}

-- The number of megabytes for a share `z` of the memory: 32 below that, 2048 above that, and the
-- share itself between the two.
pub data Megabytes : (z : ℤ) (n : ℕ) → Type 0 where
  raised : (z : ℤ) → ltb_ℤ z (pos 32) ≡ true → Megabytes z 32
  capped : (z : ℤ) → ltb_ℤ (pos 2048) z ≡ true → Megabytes z 2048
  fitting : (n : ℕ) → 32 ≤ n → n ≤ 2048 → Megabytes (pos n) n

clamp-Megabytes : (z : ℤ) → (n : ℕ) × (clamp z ≡ pos n) × Megabytes z n
unfolding clamp
clamp-Megabytes (negsuc n) = (32, ground arith, raised (negsuc n) (ground arith))
clamp-Megabytes (pos n) = elim (Bool-cases (ltb n 32)) [
  | inl e ↦ (32, ground (arith, e), raised (pos n) (simp unary_clauses e))
  | inr e ↦ elim (Bool-cases (ltb 2048 n)) [
    | inl h ↦ (2048, ground (arith, e, h), capped (pos n) (simp unary_clauses h))
    | inr h ↦ (n, ground (arith, e, h), fitting n (ground (arith, e)) (ground (arith, h)))
  ]
]

-- The value ends in a percent sign, with the positive number `p` in front of it.
pub record IsPercentage (fmt : Format) (v : String) (p : ℕ) : Type 0 where
  pub signed : has_suffix "%" v ≡ true
  pub number : fmt.scan (trim_suffix "%" v) ≡ some (pos p)
  pub positive : 0 < p

-- A value is a percentage when it ends in a percent sign and what stands in front of the sign is read
-- as a positive number. A value that is not stays as it is. One that is becomes a number of megabytes:
-- that percentage of the memory, with the product as an int64, but 32 when the share is less and 2048
-- when it is more.
pub resolve-cases :
    (fmt : Format) (total : ℤ) (v : String)
    → (((p : ℕ) → ¬ IsPercentage fmt v p) × (resolve fmt total v ≡ v))
      ⊎ ((p n : ℕ) × IsPercentage fmt v p
          × Megabytes (over (wrap64 (times total p)) 100) n
          × (resolve fmt total v ≡ join (fmt.show (pos n)) "MB"))
unfolding resolve
resolve-cases fmt total v = elim (Bool-cases (has_suffix "%" v)) [
  | inr e ↦ inl (λ p is. (let s = is.signed in cc), ground (arith, e))
  | inl e ↦ elim (Option-cases (fmt.scan (trim_suffix "%" v))) [
    | inl q ↦ inl (λ p is. (let s = is.number in cc), ground (arith, e, q))
    | inr (negsuc k, q) ↦ inl (λ p is. (let s = is.number in cc), ground (arith, e, q))
    | inr (pos zero, q) ↦
        inl
          (λ p is. (let s = is.number in let h = is.positive in ground arith), ground (arith, e, q))
    | inr (pos (suc k), q) ↦
        let (n, same, size) = clamp-Megabytes (over (wrap64 (times total (suc k))) 100) in
        let now : share_of total (suc k) ≡ pos n = same in
        let is : IsPercentage fmt v (suc k) = record {
          signed = e;
          number = q;
          positive = omega arith;
        } in
        inr (suc k, n, is, size, rw (resolve, e, q, now) refl)
  ]
]

user_value :
    (options base : Settings) (k v : String)
    → lookup k options ≡ some v
    → value_of (override options base) k ≡ v
unfolding value_of chosen
user_value options base k v e = ground (arith, e, lookup-override options base k)

memtx_lem :
    (fmt : Format) (v : String) (mb : ℕ)
    → fmt.scan (trim_suffix "MB" v) ≡ some (pos (suc mb))
    → picodata_memtx_bytes fmt v ≡ wrap64 (pos ((suc mb * 1024) * 1024))
unfolding picodata_memtx_bytes
memtx_lem fmt v mb p = rw (picodata_memtx_bytes, p) refl

-- A user's memory of picodata is taken for a number of megabytes whatever its unit is: where the
-- scanner reads a positive number at the head of the text that is left of it without a final "MB", that
-- number of megabytes is set.
pub picodata_memory-unit :
    (fmt : Format) (options : Settings) (total : ℤ) (v : String) (mb : ℕ)
    → lookup "memtx_memory" options ≡ some v
    → fmt.scan (trim_suffix "MB" v) ≡ some (pos (suc mb))
    → picodata_memory fmt options total ≡ wrap64 (pos ((suc mb * 1024) * 1024))
unfolding picodata_memory
picodata_memory-unit fmt options total v mb e p =
    let base = resolve_memory_percents fmt (picodata_defaults "25.3") total in
    let here : value_of (override options base) "memtx_memory" ≡ v =
      user_value options base "memtx_memory" v e in
    ap (picodata_memtx_bytes fmt) here ∙ memtx_lem fmt v mb p
