-- ===== src/Util/Tests.antt =====
-- The theorems on util/src/lib.rs at concrete sizes, and runs of the functions.
use plonky.Common.{ℕ, ◌+◌, ◌*◌, ◌^◌, ◌≤◌, ◌<◌, ◌≡◌, ◌↔◌, refl, arith, some, none}
use plonky.Common.Words.{leading_zeros, trailing_zeros}
use plonky.Util.{bits_u64, ceil_div_usize, log2_ceil, log2_strict, log_floor, log_floor_loop}
use plonky.Util.Logs.{
  bits_u64-log2_ceil_least, log2_strict-eq-some_iff, log_floor_lem, ceil_div_usize_least,
}

log2_strict-runs :
    (log2_strict 0x10000 ≡ some 16) × (log2_strict 12 ≡ none) × (log2_strict 0 ≡ none)
unfolding log2_strict trailing_zeros
log2_strict-runs = (refl, refl, refl)

log_floor-runs : (log_floor 1000 10 ≡ some 3) × (log_floor 0xFFFFFFFFFFFFFFFF 2 ≡ some 63)
unfolding log_floor log_floor_loop
log_floor-runs = (refl, refl)

bits-runs : (bits_u64 255 ≡ 8) × (log2_ceil 257 ≡ 9) × (log2_ceil 0 ≡ 0)
unfolding bits_u64 log2_ceil leading_zeros
bits-runs = (refl, refl, refl)

bits_u64-log2_ceil_least_example :
    ((bits_u64 256 ≤ 8) ↔ (256 < 2 ^ 8)) × ((log2_ceil 256 ≤ 8) ↔ (256 ≤ 2 ^ 8))
bits_u64-log2_ceil_least_example = bits_u64-log2_ceil_least 256 8 (omega arith)

log2_strict-eq-some_iff_example : (log2_strict 1024 ≡ some 10) ↔ (◌≡◌ {A = ℕ} 1024 (2 ^ 10))
log2_strict-eq-some_iff_example = log2_strict-eq-some_iff 1024 10 (omega arith)

log_floor_lem_example :
    (i : ℕ) × (log_floor 1000 10 ≡ some i) × (10 ^ i ≤ 1000) × (1000 < 10 ^ (i + 1))
log_floor_lem_example = log_floor_lem 1000 10 (omega arith) (omega arith) (omega arith)

ceil_div_usize_least_example : (q : ℕ) × (ceil_div_usize 17 8 ≡ some q) × ((q ≤ 3) ↔ (17 ≤ 3 * 8))
ceil_div_usize_least_example = ceil_div_usize_least 17 8 3 (omega arith) (omega arith)
