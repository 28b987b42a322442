-- ===== src/Util.antt =====
-- util/src/lib.rs: logarithms of sizes, and the division that rounds up.
pub mod Logs
pub mod PartialProducts
mod Tests
use plonky.Common.{
  ℕ, zero, suc, ◌+◌, ◌-◌, ◌*◌, ◌/◌, ◌%◌, ◌^◌, ◌≤◌, ◌<◌, Bool, true, false, ◌||◌, ◌&&◌, Option, none,
  some, ltb, leb, ◌==◌, if◌then◌else◌, assert, ◌>>=◌, ◌>>◌,
}
use plonky.Common.Words.{
  checked_add, checked_sub, checked_div, overflowing_mul, leading_zeros, trailing_zeros,
  wrapping_shr,
}

unfoldable pub bits_u64 : ℕ → ℕ
bits_u64 n = 64 - leading_zeros 64 n

unfoldable pub ceil_div_usize : ℕ → ℕ → Option ℕ
unfolding checked_add checked_sub checked_div
ceil_div_usize a b = do s ← checked_add a b; d ← checked_sub s 1; checked_div d b

-- `n.saturating_sub(1)` is `n - 1`.
unfoldable pub log2_ceil : ℕ → ℕ
log2_ceil n = 64 - leading_zeros 64 (n - 1)

-- `1 << res` is reached with `res` below 64 only.
unfoldable pub log2_strict : ℕ → Option ℕ
unfolding wrapping_shr
log2_strict n =
    let res = trailing_zeros 64 n in
    do assert (wrapping_shr n res == 1); assert (n == 2 ^ res); some res

-- The `loop` of `log_floor`; `none` means that the fuel ran out.
unfoldable pub log_floor_loop : ℕ → ℕ → ℕ → ℕ → ℕ → Option ℕ
unfolding overflowing_mul
log_floor_loop zero n base i cur = none
log_floor_loop (suc fuel) n base i cur =
    let (m, overflow) = overflowing_mul cur base in
    let rest = log_floor_loop fuel n base (i + 1) m in if overflow || ltb n m then some i else rest

unfoldable pub log_floor : ℕ → ℕ → Option ℕ
log_floor n base = do assert (ltb 0 n); assert (ltb 1 base); log_floor_loop 64 n base 0 1
