-- ===== src/Ips.antt =====
-- internal/core/ips/ips.go: the subnets that are carved out of a parent network. An IPv4 address is a
-- uint32, a natural number with its wrap-around written out; net.ParseCIDR is not modelled, so a
-- network comes as its first address and the length of its prefix, at most 32.
pub mod Addresses
pub mod Search
mod Samples
use hatchet_workflow.Base.{
  ℕ, zero, suc, ◌+◌, ◌-◌, ◌*◌, ◌/◌, ◌%◌, ◌^◌, Bool, true, false, ◌&&◌, ◌||◌, List, [], ◌∷◌, map,
  Option, none, some, ltb, leb, eqb, any, if◌then◌else◌,
}
use hatchet_workflow.Base.Int.{ℤ, pos, ltb_ℤ, pos_part}

pub data SubnetError : Type 0 where
  bad_prefix negative_count no_subnet outside_parent : SubnetError
  -- the panic of an integer division by zero
  zero_division : SubnetError

pub data SubnetResult : Type 0 where
  subnet : (start prefix : ℕ) → SubnetResult
  refused : SubnetError → SubnetResult

-- uint32(1) << uint32(32-ones)
pub size_of : ℕ → ℕ
size_of ones = 2 ^ (32 - ones) % 2 ^ 32

-- start + size - 1
pub last_of : ℕ → ℕ → ℕ
last_of start size = (start + size + (2 ^ 32 - 1)) % 2 ^ 32

-- parentStart + i*subnetSize
pub start_of : ℕ → ℕ → ℕ → ℕ
start_of parent_start i size = (parent_start + i * size % 2 ^ 32) % 2 ^ 32

-- The range of an existing subnet.
pub used_range : ℕ × ℕ → ℕ × ℕ
unfolding size_of last_of
used_range (start, ones) = (start, last_of start (size_of ones))

-- NextSubnetByCount, after its checks of the arguments.
by_count : (parent_start ones prefix created : ℕ) → SubnetResult
unfolding size_of last_of start_of
by_count parent_start ones prefix created =
    let size = size_of prefix in
    let start = start_of parent_start (created % 2 ^ 32) size in
    if eqb size 0
    then refused zero_division
    else if leb (size_of ones / size) (created % 2 ^ 32)
    then refused no_subnet
    else if ltb (last_of parent_start (size_of ones)) (last_of start size)
    then refused outside_parent
    else subnet start prefix

pub is_bad_prefix : ℕ → ℤ → Bool
is_bad_prefix ones prefix = ltb_ℤ prefix (pos ones) || ltb_ℤ (pos 32) prefix

-- NextSubnetByCount
next_subnet_by_count : (parent_start ones : ℕ) (prefix created : ℤ) → SubnetResult
unfolding by_count is_bad_prefix
next_subnet_by_count parent_start ones prefix created =
    if is_bad_prefix ones prefix
    then refused bad_prefix
    else if ltb_ℤ created (pos 0)
    then refused negative_count
    else by_count parent_start ones (pos_part prefix) (pos_part created)

-- candStart <= r[1] && r[0] <= candEnd, for some range in use
pub collides : List (ℕ × ℕ) → ℕ → ℕ → Bool
collides used start last = any (λ r. leb start r.1 && leb r.0 last) used

-- The loop over the candidates: `left` of them remain, from number i on.
search : List (ℕ × ℕ) → (parent_start size left i : ℕ) → Option ℕ
unfolding collides start_of last_of
search used parent_start size zero i = none
search used parent_start size (suc left) i =
    let start = start_of parent_start i size in
    elim (collides used start (last_of start size)) [
      | false ↦ some start
      | true ↦ search used parent_start size left (suc i)
    ]

-- The subnet that NextSubnetWithIPs finds; the existing subnets are those that parse.
unfoldable pub next_free_subnet : (parent_start ones : ℕ) → ℤ → List (ℕ × ℕ) → SubnetResult
unfolding is_bad_prefix used_range search size_of
next_free_subnet parent_start ones prefix existing =
    let size = size_of (pos_part prefix) in
    if is_bad_prefix ones prefix
    then refused bad_prefix
    else if eqb size 0
    then refused zero_division
    else elim (search (map used_range existing) parent_start size (size_of ones / size) 0) [
      | some start ↦ subnet start (pos_part prefix)
      | none ↦ refused no_subnet
    ]
