-- ===== src/Util/Logs.antt =====
-- What the logarithms and the bit length return.
use plonky.Common.{
  ℕ, zero, suc, ◌+◌, ◌-◌, ◌*◌, ◌/◌, ◌%◌, ◌^◌, ◌≤◌, ◌<◌, ◌≡◌, refl, subst, ap, ◌↔◌, arith, some,
  Bool-cases, inl, inr, true, ltb, ltb→lt, lt→ltb, ltb→le, leb, ◌||◌, sym, ◌∙◌, ==_refl,
}
use native.Mathlib.Decide.{dec_lt}
use native.Mathlib.Nat.{
  pow-suc, pow-succ', pow-zero, one-le-pow, pow-le-pow_right, mul-le-mul_left, mul-le-mul_right,
  div-lt_iff_lt-mul, div_self, mod-eq_of_lt,
}
use plonky.Common.Modular.{pow-add}
use plonky.Common.Words.{
  u64_mod, checked_add, checked_sub, checked_div, overflowing_mul, leading_zeros, trailing_zeros,
}
use plonky.Util.{bits_u64, ceil_div_usize, log2_ceil, log2_strict, log_floor_loop, log_floor}

-- Powers of a base above 1 order their exponents.
lt_of_pow : (b n j k : ℕ) → 1 < b → b ^ j ≤ n → n < b ^ k → j < k
lt_of_pow b n j k hb p q = elim (dec_lt j k) [
  | yes h ↦ h
  | no h ↦
      let m : b ^ k ≤ b ^ j = pow-le-pow_right (omega arith) (omega arith) in absurd (omega arith)
]

pub pow-lt : (k : ℕ) → k < 64 → 2 ^ k < u64_mod
pow-lt k h =
    let p : 2 ^ suc k ≤ 2 ^ 64 = pow-le-pow_right (omega arith) h in
    omega (arith, pow-suc 2 k, one-le-pow k 2 (omega arith))

-- The bit length: the least exponent of a power of two above the word.
abbrev IsBitLength : ℕ → ℕ → Type 0
IsBitLength n b = (n < 2 ^ b) × ((k : ℕ) → n < 2 ^ k → b ≤ k)

bit_length : (w n : ℕ) → n < 2 ^ w → (b : ℕ) × (b + leading_zeros w n ≡ w) × IsBitLength n b
unfolding leading_zeros
bit_length zero n h = (0, refl, (h, λ k p. omega arith))
bit_length (suc w) n h = elim (Bool-cases (ltb n (2 ^ w))) [
  | inl below ↦
      let (b, e, l) = bit_length w n (ltb→lt n (2 ^ w) below) in (b, rw below (omega arith), l)
  | inr above ↦ (
    suc w,
    rw above (omega arith),
    (h, λ k p. lt_of_pow 2 n w k (omega arith) (ltb→le n (2 ^ w) above) p),
  )
]

bits_u64-IsBitLength : (n : ℕ) → n < u64_mod → IsBitLength n (bits_u64 n)
unfolding bits_u64
bits_u64-IsBitLength n h =
    let (b, e, l) = bit_length 64 n h in
    subst (IsBitLength n) {x = b} {y = 64 - leading_zeros 64 n} (omega arith) l

least_iff : (n b k : ℕ) → IsBitLength n b → (b ≤ k) ↔ (n < 2 ^ k)
least_iff n b k l =
    (λ h. let m : 2 ^ b ≤ 2 ^ k = pow-le-pow_right (omega arith) h in omega (arith, l.0), l.1 k)

-- `bits_u64 n` is the least `k` with `n < 2 ^ k`; `log2_ceil n` the least with `n ≤ 2 ^ k`.
pub bits_u64-log2_ceil_least :
    (n k : ℕ) → n < u64_mod → ((bits_u64 n ≤ k) ↔ (n < 2 ^ k)) × ((log2_ceil n ≤ k) ↔ (n ≤ 2 ^ k))
unfolding log2_ceil
bits_u64-log2_ceil_least n k h = (
  least_iff n (bits_u64 n) k (bits_u64-IsBitLength n h),
  (λ p. omega (arith, pred_least.0 p, pos), λ p. pred_least.1 (omega (arith, pos))),
)
  where
    pos : 0 < 2 ^ k
    pos = one-le-pow k 2 (omega arith)

    pred_least : (log2_ceil n ≤ k) ↔ (n - 1 < 2 ^ k)
    pred_least =
        unfold bits_u64 in
        least_iff (n - 1) (bits_u64 (n - 1)) k (bits_u64-IsBitLength (n - 1) (omega arith))

trailing_zeros-pow : (w k : ℕ) → k < w → trailing_zeros w (2 ^ k) ≡ k
unfolding trailing_zeros
trailing_zeros-pow zero k h = absurd (omega arith)
trailing_zeros-pow (suc w) zero h = refl
trailing_zeros-pow (suc w) (suc k) h = rw (pow-suc 2 k) (
    ground (
      arith,
      half (2 ^ k),
      ap (trailing_zeros w) (half (2 ^ k)).0,
      trailing_zeros-pow w k (omega arith),
    ))
  where
    half : (m : ℕ) → (m * 2 / 2 ≡ m) × (m * 2 % 2 ≡ 0)
    half m = (omega arith, omega arith)

pow-div_self : (k : ℕ) → 2 ^ k / 2 ^ k ≡ 1
pow-div_self k = div_self (one-le-pow k 2 (omega arith))

pub log2_strict-pow : (k : ℕ) → k < 64 → log2_strict (2 ^ k) ≡ some k
unfolding log2_strict
log2_strict-pow k h = rw (trailing_zeros-pow 64 k h, mod-eq_of_lt h, pow-div_self, ==_refl (2 ^ k))

-- `log2_strict` returns `k` exactly on `2 ^ k`, and panics on every other word.
pub log2_strict-eq-some_iff : (n k : ℕ) → n < u64_mod → (log2_strict n ≡ some k) ↔ (n ≡ 2 ^ k)
log2_strict-eq-some_iff n k h = (
  λ e. unfold log2_strict in ground arith,
  λ e. rw e (log2_strict-pow k (lt_of_pow 2 n k 64 (omega arith) (omega arith) h)),
)

-- The test by which the loop stops says that the next power is above `n`, overflow included.
stops : (n m : ℕ) → n < m → n < u64_mod → (leb u64_mod m || ltb n (m % u64_mod)) ≡ true
stops n m h k = elim (dec_lt m u64_mod) [
  | yes small ↦ rw (mod-eq_of_lt small) (ground arith)
  | no large ↦ ground arith
]

-- With `base ^ i` in `cur` and enough fuel the loop finds the exponent.
log_floor_loop_lem :
    (fuel n base i cur : ℕ)
    → 1 < base
    → n < u64_mod
    → cur ≡ base ^ i
    → 0 < cur
    → cur ≤ n
    → n < cur * 2 ^ fuel
    → (r : ℕ) × (log_floor_loop fuel n base i cur ≡ some r) × (base ^ r ≤ n) × (n < base ^ (r + 1))
unfolding log_floor_loop overflowing_mul
log_floor_loop_lem zero n base i cur hb hn e pos le f = absurd (omega arith)
log_floor_loop_lem (suc fuel) n base i cur hb hn e pos le f = elim (dec_lt n (cur * base)) [
  | yes above ↦ (i, rw (stops n (cur * base) above hn), rw (← e) le, rw (power, ← e) above)
  | no below ↦
      let small : cur * base < u64_mod = omega arith in
      let (r, run, lo, hi) =
        log_floor_loop_lem fuel n base (i + 1) (cur * base) hb hn (rw (power, ← e)) (grind arith)
          (omega arith) fuel_left in
      (r, rw (mod-eq_of_lt small) (ground arith), lo, hi)
]
  where
    power : base ^ (i + 1) ≡ base ^ i * base
    power =
        pow-add base i 1
        ∙ ap (λ (t : ℕ). base ^ i * t) (pow-suc base 0 ∙ rw (pow-zero base) (omega arith))

    fuel_left : n < cur * base * 2 ^ fuel
    fuel_left =
        let q : cur * 2 ≤ cur * base = mul-le-mul_left cur hb in
        let q' : cur * 2 * 2 ^ fuel ≤ cur * base * 2 ^ fuel = mul-le-mul_right (2 ^ fuel) q in
        omega (arith, ap (λ (t : ℕ). cur * t) (pow-succ' 2 fuel))

-- For a positive `n` and a base above 1, `log_floor` ends within its 64 rounds with the largest
-- `i` such that `base ^ i ≤ n`.
pub log_floor_lem :
    (n base : ℕ)
    → 0 < n
    → n < u64_mod
    → 1 < base
    → (i : ℕ) × (log_floor n base ≡ some i) × (base ^ i ≤ n) × (n < base ^ (i + 1))
unfolding log_floor
log_floor_lem n base pos h hb =
    let (r, run, lo, hi) =
      log_floor_loop_lem 64 n base 0 1 hb h (sym (pow-zero base)) (omega arith) pos (omega arith) in
    (r, rw (lt→ltb 0 n pos, lt→ltb 1 base hb) run, lo, hi)

-- With a positive divisor and a sum that fits, `ceil_div_usize` is the least quotient `q` with
-- `a ≤ q * b`.
pub ceil_div_usize_least :
    (a b k : ℕ)
    → 0 < b
    → a + b < u64_mod
    → (q : ℕ) × (ceil_div_usize a b ≡ some q) × ((q ≤ k) ↔ (a ≤ k * b))
unfolding ceil_div_usize checked_add checked_sub checked_div
ceil_div_usize_least a b k pos fits = (
  (a + b - 1) / b,
  ground arith,
  let (there, back) = div-lt_iff_lt-mul {k = b} {x = a + b - 1} {y = suc k} pos in
      (
        λ h. let p : (a + b - 1) / b < suc k = omega arith in omega (arith, there p),
        λ h. let p : (a + b - 1) / b < suc k = back (omega arith) in omega arith,
      ),
)
