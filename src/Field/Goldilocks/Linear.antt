-- ===== src/Field/Goldilocks/Linear.antt =====
-- Addition, subtraction and negation compute modulo the order and never overflow.
use plonky.Common.{ℕ, ◌+◌, ◌-◌, ◌%◌, ◌<◌, ◌≡◌, some, arith, Option, refl}
use plonky.Common.Words.{u64_mod}
use plonky.Field.Goldilocks.{
  order, epsilon, to_canonical_u64, neg, add, sub, add_canonical_u64, sub_canonical_u64,
  add_no_canonicalize_trashing_input,
}
use native.Mathlib.Decide.{dec_lt}

-- The canonical form is the remainder by the order.
pub to_canonical_u64-mod : (x : ℕ) → x < u64_mod → to_canonical_u64 x ≡ x % order
unfolding to_canonical_u64
to_canonical_u64-mod x h = ground arith

-- The operation succeeds with a `u64` that is congruent to `n`.
abbrev pub Reduces : Option ℕ → ℕ → Type 0
Reduces o n = (r : ℕ) × (o ≡ some r) × (r < u64_mod) × (r % order ≡ n % order)

-- The operation succeeds with a `u64` that, added to `b`, is congruent to `a`.
abbrev pub Differs : Option ℕ → ℕ → ℕ → Type 0
Differs o a b = (r : ℕ) × (o ≡ some r) × (r < u64_mod) × ((r + b) % order ≡ a % order)

module _ (a b : ℕ) (ha : a < u64_mod) (hb : b < u64_mod) where
  -- For any two `u64`s, canonical or not, `add` returns their sum modulo the order: neither the
  -- assumption on the double overflow fails nor does the last addition overflow.
  pub add-Reduces : Reduces (add a b) (a + b)
  unfolding add
  add-Reduces = elim (dec_lt (a + b) u64_mod) [
    | yes h ↦ (a + b, ground arith, ground arith, refl)
    | no h ↦ elim (dec_lt (a + b - u64_mod + epsilon) u64_mod) [
      | yes k ↦ (a + b - u64_mod + epsilon, ground arith, ground arith, ground arith)
      | no k ↦
          (a + b - u64_mod + epsilon - u64_mod + epsilon, ground arith, ground arith, ground arith)
    ]
  ]

  -- For any two `u64`s, `sub` returns their difference modulo the order, with no failure.
  pub sub-Differs : Differs (sub a b) a b
  unfolding sub
  sub-Differs = elim (dec_lt a b) [
    | no h ↦ (a - b, ground arith, ground arith, ground arith)
    | yes h ↦ elim (dec_lt (a + u64_mod - b) epsilon) [
      | no k ↦ (a + u64_mod - b - epsilon, ground arith, ground arith, ground arith)
      | yes k ↦
          (a + u64_mod - b + u64_mod - epsilon - epsilon, ground arith, ground arith, ground arith)
    ]
  ]

-- `neg` gives a canonical element whose sum with the argument is zero modulo the order.
pub neg-mod : (a : ℕ) → a < u64_mod → (neg a < order) × ((neg a + a) % order ≡ 0)
unfolding neg
neg-mod a h = (ground arith, ground arith)

module _ (a b : ℕ) (ha : a < u64_mod) where
  -- With a right-hand side that is small enough the carry is folded in without an overflow.
  pub add_no_canonicalize-Reduces :
      a + b < u64_mod + order
      → b < u64_mod
      → Reduces (add_no_canonicalize_trashing_input a b) (a + b)
  unfolding add_no_canonicalize_trashing_input
  add_no_canonicalize-Reduces h hb = elim (dec_lt (a + b) u64_mod) [
    | yes k ↦ (a + b, ground arith, ground arith, refl)
    | no k ↦ (a + b - u64_mod + epsilon, ground arith, ground arith, ground arith)
  ]

  -- `add_canonical_u64` and `sub_canonical_u64` succeed on a canonical right-hand side, whatever
  -- the left one, with the sum and the difference modulo the order.
  pub canonical_u64_lem :
      b < order → Reduces (add_canonical_u64 a b) (a + b) × Differs (sub_canonical_u64 a b) a b
  unfolding add_canonical_u64 sub_canonical_u64
  canonical_u64_lem hb = (
    elim (dec_lt (a + b) u64_mod) [
      | yes k ↦ (a + b, ground arith, ground arith, refl)
      | no k ↦ (a + b - u64_mod + epsilon, ground arith, ground arith, ground arith)
    ],
    elim (dec_lt a b) [
      | no k ↦ (a - b, ground arith, ground arith, ground arith)
      | yes k ↦ (a + u64_mod - b - epsilon, ground arith, ground arith, ground arith)
    ],
  )
