-- ===== src/Field/Goldilocks/Tests.antt =====
-- The theorems on the Goldilocks field at concrete elements, non-canonical ones among them.
use plonky.Common.{ℕ, ◌+◌, ◌-◌, ◌*◌, ◌%◌, ◌^◌, ◌≤◌, ◌<◌, ◌≡◌, ◌≢◌, ◌⊎◌, refl, arith, some, none}
use plonky.Common.Words.{u64_mod}
use plonky.Field.Goldilocks.{
  order, neg, add, sub, add_canonical_u64, sub_canonical_u64, reduce96, reduce128, reduce160, mul,
  multiply_accumulate, from_noncanonical_i64, exp_u64, try_inverse,
}
use plonky.Field.Goldilocks.Linear.{
  Reduces, Differs, add-Reduces, sub-Differs, neg-mod, canonical_u64_lem,
}
use plonky.Field.Goldilocks.Reduce.{
  reduce96-Reduces, reduce128-Reduces, reduce160-Reduces, mul-multiply_accumulate-Reduces,
  from_noncanonical_i64_lem,
}
use plonky.Field.Goldilocks.Power.{IsPower, try_inverse_lem}
use plonky.Field.Goldilocks.ExpU64.{exp_u64-Reduces}

-- The largest `u64`, which is not canonical.
abbrev top : ℕ
top = 0xFFFFFFFFFFFFFFFF

-- Both carries and the last addition are taken.
add_overflows_twice : add top top ≡ some 0x1FFFFFFFC
unfolding add
add_overflows_twice = refl

sub_underflows_twice : sub 0 top ≡ some 0xFFFFFFFE00000003
unfolding sub
sub_underflows_twice = refl

add-Reduces_example : Reduces (add top top) (top + top)
add-Reduces_example = add-Reduces top top (omega arith) (omega arith)

sub-Differs_example : Differs (sub 0 top) 0 top
sub-Differs_example = sub-Differs 0 top (omega arith) (omega arith)

neg-mod_example : (neg top < order) × ((neg top + top) % order ≡ 0)
neg-mod_example = neg-mod top (omega arith)

canonical_u64_lem_example :
    Reduces (add_canonical_u64 top 7) (top + 7) × Differs (sub_canonical_u64 top 7) top 7
canonical_u64_lem_example = canonical_u64_lem top 7 (omega arith) (omega arith)

reduce96-Reduces_example : Reduces (reduce96 top 0xFFFFFFFF) (top + 0xFFFFFFFF * 2 ^ 64)
reduce96-Reduces_example = reduce96-Reduces top 0xFFFFFFFF (omega arith) (omega arith)

reduce128-Reduces_example : Reduces (reduce128 (2 ^ 128 - 1)) (2 ^ 128 - 1)
reduce128-Reduces_example = reduce128-Reduces (2 ^ 128 - 1) (omega arith)

reduce160-Reduces_example : Reduces (reduce160 7 0xFFFFFFFE) (7 + 0xFFFFFFFE * 2 ^ 128)
reduce160-Reduces_example = reduce160-Reduces 7 0xFFFFFFFE (omega arith) (omega arith)

mul-multiply_accumulate-Reduces_example :
    Reduces (mul top top) (top * top) × Reduces (multiply_accumulate top top top) (top + top * top)
mul-multiply_accumulate-Reduces_example =
    mul-multiply_accumulate-Reduces top top top (omega arith) (omega arith) (omega arith)

from_noncanonical_i64_lem_example :
    (r : ℕ) × (from_noncanonical_i64 top ≡ some r)
    × (r < order)
    × (((top < 2 ^ 63) × (r ≡ top)) ⊎ ((2 ^ 63 ≤ top) × ((r + (u64_mod - top)) % order ≡ 0)))
from_noncanonical_i64_lem_example = from_noncanonical_i64_lem top (omega arith)

exp_u64-Reduces_example : Reduces (exp_u64 7 11) (7 ^ 11)
exp_u64-Reduces_example = exp_u64-Reduces 7 11 (omega arith) (omega arith)

try_inverse_lem_example :
    ((7 % order ≡ 0) × (try_inverse 7 ≡ some none))
    ⊎ ((7 % order ≢ 0) × ((r : ℕ) × (try_inverse 7 ≡ some (some r)) × IsPower 7 (order - 2) r))
try_inverse_lem_example = try_inverse_lem 7 (omega arith)
