-- ===== src/Common/Bits.antt =====
-- `&` with a mask of low bits is a remainder.
use Prim.Native.Nat.{
  ℕ, zero, suc, ◌+◌, ◌-◌, ◌*◌, ◌/◌, ◌%◌, ◌^◌, ◌≤◌, ◌<◌, min, bit_and, digits, bit_and-bitwise,
}
use mathlib.Core.Path.{◌≡◌, refl, ap, ◌∙◌}
use native.Mathlib.Omega.{arith}
use native.Mathlib.Nat.{pow-succ', one-le-pow, mod-lt, mod-add-div'}
use plonky.Common.Modular.{mod-eq_of_split}

-- The native `&` is a recursion over binary digits, with the first argument for its fuel.
abbrev and_rounds : ℕ → ℕ → ℕ → ℕ
and_rounds = digits (λ _. zero) min

-- One round more than the digits need changes nothing,
spare_round : (rounds a b : ℕ) → a ≤ rounds → and_rounds (suc rounds) a b ≡ and_rounds rounds a b
spare_round rounds zero b h = elim rounds as (λ r. and_rounds (suc r) 0 b ≡ and_rounds r 0 b) [
  | zero ↦ refl
  | suc r ↦ refl
]
spare_round zero (suc a) b h = absurd (omega arith)
spare_round (suc rounds) (suc a) b h =
    omega (arith, spare_round rounds (suc a / 2) (b / 2) (omega arith))

-- and so do any number more.
spare_rounds :
    (extra a rounds b : ℕ) → a + extra ≡ rounds → and_rounds rounds a b ≡ and_rounds a a b
spare_rounds zero a rounds b e = ap (λ r. and_rounds r a b) {x = rounds} (omega (arith, e))
spare_rounds (suc extra) a zero b e = absurd (omega arith)
spare_rounds (suc extra) a (suc rounds) b e =
    spare_round rounds a b (omega arith) ∙ spare_rounds extra a rounds b (omega arith)

-- The lowest binary digit of `a & b`, and the rest.
pub bit_and_step : (a b : ℕ) → bit_and a b ≡ min (a % 2) (b % 2) + 2 * bit_and (a / 2) (b / 2)
bit_and_step zero b = refl_zero (bit_and-bitwise 0 b) (bit_and-bitwise 0 (b / 2))
  where
    refl_zero : {m n : ℕ} → m ≡ 0 → n ≡ 0 → m ≡ min 0 (b % 2) + 2 * n
    refl_zero p q = omega arith
bit_and_step (suc a) b =
    let half = suc a / 2 in
    omega (
      arith,
      spare_rounds (a - half) half a (b / 2) (omega arith),
      bit_and-bitwise half (b / 2),
      bit_and-bitwise (suc a) b,
    )

and_rounds-zero : (rounds a : ℕ) → and_rounds rounds a 0 ≡ 0
and_rounds-zero zero zero = refl
and_rounds-zero zero (suc a) = refl
and_rounds-zero (suc rounds) zero = refl
and_rounds-zero (suc rounds) (suc a) = omega (arith, and_rounds-zero rounds (suc a / 2))

pub bit_and-zero : (a : ℕ) → bit_and a 0 ≡ 0
bit_and-zero a = bit_and-bitwise a 0 ∙ and_rounds-zero a a

-- The lowest digit of a remainder by `2 m`, and the rest.
pub mod_double : (m a : ℕ) → 0 < m → a % (2 * m) ≡ (a / 2) % m * 2 + a % 2
mod_double m a h =
    mod-eq_of_split (2 * m) a (a / 2 / m) ((a / 2) % m * 2 + a % 2)
      (omega (arith, mod-add-div' (a / 2) m, regroup (a / 2 / m))) (omega (arith, mod-lt (a / 2) h))
  where
    regroup : (q : ℕ) → q * (2 * m) ≡ 2 * (q * m)
    regroup q = omega arith

-- `a & ((1 << k) - 1)` is `a % (1 << k)`.
pub bit_and-mask : (k a : ℕ) → bit_and a (2 ^ k - 1) ≡ a % 2 ^ k
bit_and-mask zero a = omega (arith, bit_and-zero a)
bit_and-mask (suc k) a = rw (pow-succ' 2 k) (
    omega (
      arith,
      bit_and_step a (2 * 2 ^ k - 1),
      halves (2 ^ k) (one-le-pow k 2 (omega arith)),
      ap (bit_and (a / 2)) (halves (2 ^ k) (one-le-pow k 2 (omega arith))).0,
      bit_and-mask k (a / 2),
      mod_double (2 ^ k) a (one-le-pow k 2 (omega arith)),
    ))
  where
    halves : (m : ℕ) → 0 < m → ((2 * m - 1) / 2 ≡ m - 1) × ((2 * m - 1) % 2 ≡ 1)
    halves m h = (omega arith, omega arith)

pub bit_and-one : (a : ℕ) → bit_and a 1 ≡ a % 2
bit_and-one a = omega (arith, bit_and_step a 1, bit_and-zero (a / 2))
