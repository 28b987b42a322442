-- ===== src/Common/Words.antt =====
-- `u64` and `usize` arithmetic, both 64 bits wide. `checked_*` is arithmetic that the source takes
-- not to overflow: `none` where it would (a panic in a debug build).
use Prim.Native.Nat.{ℕ, zero, suc, ◌+◌, ◌-◌, ◌*◌, ◌/◌, ◌%◌, ◌^◌}
use mathlib.Core.Bool.{Bool}
use mathlib.Core.Option.{Option, none, some}
use plonky.Common.Tests.{ltb, leb, ◌==◌, if◌then◌else◌}

abbrev pub u64_mod : ℕ
u64_mod = 2 ^ 64

unfoldable pub overflowing_add : ℕ → ℕ → ℕ × Bool
overflowing_add a b = ((a + b) % u64_mod, leb u64_mod (a + b))

unfoldable pub overflowing_sub : ℕ → ℕ → ℕ × Bool
overflowing_sub a b = ((a + u64_mod - b) % u64_mod, ltb a b)

unfoldable pub overflowing_mul : ℕ → ℕ → ℕ × Bool
overflowing_mul a b = (a * b % u64_mod, leb u64_mod (a * b))

unfoldable pub checked_add : ℕ → ℕ → Option ℕ
checked_add a b = if ltb (a + b) u64_mod then some (a + b) else none

unfoldable pub checked_sub : ℕ → ℕ → Option ℕ
checked_sub a b = if leb b a then some (a - b) else none

unfoldable pub checked_mul : ℕ → ℕ → Option ℕ
checked_mul a b = if ltb (a * b) u64_mod then some (a * b) else none

unfoldable pub checked_div : ℕ → ℕ → Option ℕ
checked_div a b = if b == 0 then none else some (a / b)

-- `n.leading_zeros()` of a word of `w` bits: 1 for each top bit until one is set.
unfoldable pub leading_zeros : ℕ → ℕ → ℕ
leading_zeros zero n = 0
leading_zeros (suc w) n = if ltb n (2 ^ w) then suc (leading_zeros w n) else 0

-- `n.trailing_zeros()` of a word of `w` bits.
unfoldable pub trailing_zeros : ℕ → ℕ → ℕ
trailing_zeros zero n = 0
trailing_zeros (suc w) n = if n % 2 == 0 then suc (trailing_zeros w (n / 2)) else 0

-- `n.wrapping_shr(k)` of a 64-bit word.
unfoldable pub wrapping_shr : ℕ → ℕ → ℕ
wrapping_shr n k = n / 2 ^ (k % 64)
