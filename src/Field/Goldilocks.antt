-- ===== src/Field/Goldilocks.antt =====
-- field/src/goldilocks_field.rs: a `GoldilocksField` is its `u64`, which need not be below the
-- order. Unchecked `u64` arithmetic, an `assume` and an `unwrap` are steps that may fail, so
-- every operation that contains one returns an `Option`: `none` is an overflow or a false
-- assumption.
pub mod Linear
pub mod Reduce
pub mod Power
pub mod ExpU64
mod Tests
use plonky.Common.{
  ℕ, zero, suc, ◌+◌, ◌-◌, ◌*◌, ◌/◌, ◌%◌, ◌^◌, bit_and, Bool, true, false, ◌&&◌, Option, none, some,
  List, [], ◌∷◌, ltb, leb, ◌==◌, if◌then◌else◌, as_u64, assert, ◌>>=◌, ◌>>◌,
}
use plonky.Util.{bits_u64}
use plonky.Common.Words.{u64_mod, overflowing_add, overflowing_sub, checked_add, checked_sub}

-- `Self::ORDER`
abbrev pub order : ℕ
order = 0xFFFFFFFF00000001

abbrev pub epsilon : ℕ
epsilon = 0xFFFFFFFF

unfoldable pub to_canonical_u64 : ℕ → ℕ
to_canonical_u64 x = if leb order x then x - order else x

unfoldable pub is_zero : ℕ → Bool
unfolding to_canonical_u64
is_zero x = to_canonical_u64 x == 0

unfoldable pub neg : ℕ → ℕ
unfolding to_canonical_u64 is_zero
neg x = if is_zero x then 0 else order - to_canonical_u64 x

unfoldable pub add : ℕ → ℕ → Option ℕ
unfolding overflowing_add checked_add
add a b =
    let (sum, over) = overflowing_add a b in
    let (sum', over') = overflowing_add sum (as_u64 over * epsilon) in
    if over' then (do assert (ltb order a && ltb order b); checked_add sum' epsilon) else some sum'

unfoldable pub sub : ℕ → ℕ → Option ℕ
unfolding overflowing_sub checked_sub
sub a b =
    let (diff, under) = overflowing_sub a b in
    let (diff', under') = overflowing_sub diff (as_u64 under * epsilon) in
    if under'
    then (do assert (ltb a (epsilon - 1) && ltb order b); checked_sub diff' epsilon)
    else some diff'

-- `unsafe fn add_canonical_u64` and `sub_canonical_u64`, for a canonical right-hand side.
unfoldable pub add_canonical_u64 : ℕ → ℕ → Option ℕ
unfolding overflowing_add checked_add
add_canonical_u64 a b =
    let (res_wrapped, carry) = overflowing_add a b in
    checked_add res_wrapped (epsilon * as_u64 carry)

unfoldable pub sub_canonical_u64 : ℕ → ℕ → Option ℕ
unfolding overflowing_sub checked_sub
sub_canonical_u64 a b =
    let (res_wrapped, borrow) = overflowing_sub a b in
    checked_sub res_wrapped (epsilon * as_u64 borrow)

unfoldable pub add_no_canonicalize_trashing_input : ℕ → ℕ → Option ℕ
unfolding overflowing_add checked_add
add_no_canonicalize_trashing_input x y =
    let (res_wrapped, carry) = overflowing_add x y in
    checked_add res_wrapped (epsilon * as_u64 carry)

unfoldable pub reduce96 : ℕ → ℕ → Option ℕ
reduce96 x_lo x_hi = add_no_canonicalize_trashing_input x_lo (x_hi * epsilon)

abbrev pub split : ℕ → ℕ × ℕ
split x = (x % u64_mod, x / 2 ^ 64 % u64_mod)

-- The subtraction at the head of `reduce128` and `reduce160`.
unfoldable pub sub_borrow : ℕ → ℕ → Option ℕ
unfolding overflowing_sub checked_sub
sub_borrow x_lo x_hi =
    let (t0, borrow) = overflowing_sub x_lo x_hi in
    if borrow then checked_sub t0 epsilon else some t0

unfoldable pub reduce128 : ℕ → Option ℕ
reduce128 x =
    let (x_lo, x_hi) = split x in
    let x_hi_hi = x_hi / 2 ^ 32 in
    let x_hi_lo = bit_and x_hi epsilon in
    do t0 ← sub_borrow x_lo x_hi_hi; add_no_canonicalize_trashing_input t0 (x_hi_lo * epsilon)

-- `x_lo` is the `u128` and `x_hi` the `u32` above it.
unfoldable pub reduce160 : ℕ → ℕ → Option ℕ
reduce160 x_lo x_hi =
    let high = x_lo / 2 ^ 96 + x_hi * 2 ^ 32 % u64_mod in
    let x_mid = x_lo / 2 ^ 64 % 2 ^ 32 in
    do
      t0 ← sub_borrow (x_lo % u64_mod) high
      add_no_canonicalize_trashing_input t0 (x_mid * epsilon)

unfoldable pub mul : ℕ → ℕ → Option ℕ
mul a b = reduce128 (a * b)

unfoldable pub square : ℕ → Option ℕ
square a = mul a a

unfoldable pub multiply_accumulate : ℕ → ℕ → ℕ → Option ℕ
multiply_accumulate a x y = reduce128 (a + x * y)

-- `n` is the bit pattern of the `i64`; it stands for `n - 2 ^ 64` where its top bit is set.
-- `from_canonical_u64` asserts that its argument is below the order.
unfoldable pub from_canonical_u64 : ℕ → Option ℕ
from_canonical_u64 n = do assert (ltb n order); some n

unfoldable pub from_noncanonical_i64 : ℕ → Option ℕ
unfolding from_canonical_u64
from_noncanonical_i64 n = from_canonical_u64 (if leb (2 ^ 63) n then (order + n) % u64_mod else n)

-- field/src/types.rs: `exp_power_of_2` and `exp_u64`, at this field.
unfoldable pub exp_power_of_2 : ℕ → ℕ → Option ℕ
exp_power_of_2 x zero = some x
exp_power_of_2 x (suc k) = do r ← exp_power_of_2 x k; square r

-- The `for` loop of `exp_u64` from `j` on, with `left` rounds to go.
unfoldable pub exp_u64_loop : ℕ → ℕ → ℕ → ℕ → ℕ → Option ℕ
exp_u64_loop zero j power current product = some product
exp_u64_loop (suc left) j power current product = do
  product' ← (if bit_and (power / 2 ^ j) 1 == 0 then some product else mul product current)
  current' ← square current
  exp_u64_loop left (j + 1) power current' product'

unfoldable pub exp_u64 : ℕ → ℕ → Option ℕ
exp_u64 x power = exp_u64_loop (bits_u64 power) 0 power x 1

unfoldable pub exp_acc : ℕ → ℕ → ℕ → Option ℕ
exp_acc n base tail = do r ← exp_power_of_2 base n; mul r tail

-- The addition chain of `try_inverse`, for an element that is not zero.
unfoldable pub inverse_chain : ℕ → Option ℕ
inverse_chain x = do
  s1 ← square x
  t2 ← mul s1 x
  s2 ← square t2
  t3 ← mul s2 x
  t6 ← exp_acc 3 t3 t3
  t12 ← exp_acc 6 t6 t6
  t24 ← exp_acc 12 t12 t12
  t30 ← exp_acc 6 t24 t6
  s30 ← square t30
  t31 ← mul s30 x
  t63 ← exp_acc 32 t31 t31
  s63 ← square t63
  mul s63 x

-- The outer `Option` is a failure of the arithmetic, the inner one the source's.
unfoldable pub try_inverse : ℕ → Option (Option ℕ)
unfolding inverse_chain
try_inverse x = if is_zero x then some none else inverse_chain x >>= λ r. some (some r)
