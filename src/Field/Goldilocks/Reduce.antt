-- ===== src/Field/Goldilocks/Reduce.antt =====
-- `reduce96`, `reduce128`, `reduce160` and what is computed through them.
use native.Mathlib.Decide.{dec_lt}
use plonky.Common.{
  ℕ, suc, ◌+◌, ◌-◌, ◌*◌, ◌/◌, ◌%◌, ◌^◌, ◌≤◌, ◌<◌, ◌≡◌, refl, ◌∙◌, some, arith, ◌⊎◌, inl, inr, ap,
  ◌>>=◌,
}
use native.Mathlib.Nat.{mul-le-mul}
use plonky.Common.Bits.{bit_and-mask}
use plonky.Common.Modular.{mod-eq_of_shift, add-mod_congr}
use plonky.Common.Words.{u64_mod}
use plonky.Field.Goldilocks.{
  order, epsilon, add_no_canonicalize_trashing_input, reduce96, sub_borrow, reduce128, reduce160,
  mul, multiply_accumulate, from_noncanonical_i64,
}
use plonky.Field.Goldilocks.Linear.{Reduces, Differs, add_no_canonicalize-Reduces}

pub reduce96-Reduces :
    (x_lo x_hi : ℕ)
    → x_lo < u64_mod
    → x_hi < 2 ^ 32
    → Reduces (reduce96 x_lo x_hi) (x_lo + x_hi * 2 ^ 64)
unfolding reduce96
reduce96-Reduces x_lo x_hi hl hh =
    let (r, e, b, c) =
      add_no_canonicalize-Reduces x_lo (x_hi * epsilon) hl (omega arith) (omega arith) in
    (
      r,
      e,
      b,
      c ∙ mod-eq_of_shift order (x_lo + x_hi * epsilon) (x_lo + x_hi * 2 ^ 64) x_hi 0 (omega arith),
    )

-- The head of both longer reductions: a borrow is undone by subtracting `epsilon`.
sub_borrow-Differs : (a b : ℕ) → a < u64_mod → b ≤ order → Differs (sub_borrow a b) a b
unfolding sub_borrow
sub_borrow-Differs a b ha hb = elim (dec_lt a b) [
  | no k ↦ (a - b, ground arith, ground arith, ground arith)
  | yes k ↦ (a + u64_mod - b - epsilon, ground arith, ground arith, ground arith)
]

-- 2 ^ 64 is `epsilon` and 2 ^ 96 is -1 modulo the order.
fold_mod :
    (lo mid hi t r : ℕ)
    → (t + hi) % order ≡ lo % order
    → r % order ≡ (t + mid * epsilon) % order
    → r % order ≡ (lo + mid * 2 ^ 64 + hi * 2 ^ 96) % order
fold_mod lo mid hi t r p q =
    q
    ∙ mod-eq_of_shift order (t + mid * epsilon) (t + hi + (mid * 2 ^ 64 + hi * 2 ^ 96))
        (mid + hi * (2 ^ 32 + 1)) 0 (omega arith)
    ∙ add-mod_congr order (t + hi) lo (mid * 2 ^ 64 + hi * 2 ^ 96) (mid * 2 ^ 64 + hi * 2 ^ 96) p
        refl
    ∙ ap (λ (n : ℕ). n % order) {x = lo + (mid * 2 ^ 64 + hi * 2 ^ 96)} (omega arith)

module _ (lo mid hi : ℕ) (hl : lo < u64_mod) (hm : mid < 2 ^ 32) (hh : hi ≤ order) where
  fold-Reduces :
      Reduces
        (sub_borrow lo hi >>= λ t. add_no_canonicalize_trashing_input t (mid * epsilon))
        (lo + mid * 2 ^ 64 + hi * 2 ^ 96)
  fold-Reduces =
      let (t, e, b, c) = sub_borrow-Differs lo hi hl hh in
      let (r, e', b', c') =
        add_no_canonicalize-Reduces t (mid * epsilon) b (omega arith) (omega arith) in
      (r, rw e e', b', fold_mod lo mid hi t r c c')

-- The three parts of a `u128`.
u128_parts :
    (x : ℕ)
    → x < 2 ^ 128
    → x % u64_mod + x / 2 ^ 64 % u64_mod % 2 ^ 32 * 2 ^ 64 + x / 2 ^ 64 % u64_mod / 2 ^ 32 * 2 ^ 96
      ≡ x
u128_parts x h = omega arith

-- `reduce128` succeeds on every `u128` and returns it modulo the order: no step overflows.
pub reduce128-Reduces : (x : ℕ) → x < 2 ^ 128 → Reduces (reduce128 x) x
unfolding reduce128
reduce128-Reduces x h =
    let hi = x / 2 ^ 64 % u64_mod in
    let (r, e, b, c) =
      fold-Reduces (x % u64_mod) (hi % 2 ^ 32) (hi / 2 ^ 32) (omega arith) (omega arith)
        (omega arith) in
    (r, rw (bit_and-mask 32 hi) e, b, c ∙ ap (λ (n : ℕ). n % order) (u128_parts x h))

-- `reduce160` succeeds, and returns its argument modulo the order, below the bound that its
-- comment asks for.
pub reduce160-Reduces :
    (x_lo x_hi : ℕ)
    → x_lo < 2 ^ 128
    → x_lo + x_hi * 2 ^ 128 < 2 ^ 160 - 2 ^ 128 + 2 ^ 96
    → Reduces (reduce160 x_lo x_hi) (x_lo + x_hi * 2 ^ 128)
unfolding reduce160
reduce160-Reduces x_lo x_hi hl h =
    let (r, e, b, c) =
      fold-Reduces (x_lo % u64_mod) (x_lo / 2 ^ 64 % 2 ^ 32)
        (x_lo / 2 ^ 96 + x_hi * 2 ^ 32 % u64_mod) (omega arith) (omega arith) (omega arith) in
    (
      r,
      e,
      b,
      c
          ∙ ap (λ (n : ℕ). n % order)
              {x = x_lo % u64_mod
                + x_lo / 2 ^ 64 % 2 ^ 32 * 2 ^ 64
                + (x_lo / 2 ^ 96 + x_hi * 2 ^ 32 % u64_mod) * 2 ^ 96}
              (omega arith),
    )

product_bound : (n a b c : ℕ) → a < suc n → b < suc n → c < suc n → a + b * c < suc n * suc n
product_bound n a b c ha hb hc =
    let p : b * c ≤ n * n = mul-le-mul (omega arith) (omega arith) in omega arith

pub mul-Reduces : (x y : ℕ) → x < u64_mod → y < u64_mod → Reduces (mul x y) (x * y)
unfolding mul
mul-Reduces x y hx hy =
    reduce128-Reduces (x * y) (omega (arith, product_bound (2 ^ 64 - 1) 0 x y (omega arith) hx hy))

-- For any three `u64`s, `x * y` and `a + x * y` are computed modulo the order, with no failure.
pub mul-multiply_accumulate-Reduces :
    (a x y : ℕ)
    → a < u64_mod
    → x < u64_mod
    → y < u64_mod
    → Reduces (mul x y) (x * y) × Reduces (multiply_accumulate a x y) (a + x * y)
unfolding multiply_accumulate
mul-multiply_accumulate-Reduces a x y ha hx hy = (
  mul-Reduces x y hx hy,
  reduce128-Reduces (a + x * y) (product_bound (2 ^ 64 - 1) a x y ha hx hy),
)

-- `from_noncanonical_i64` is total and canonical, and gives the integer that the bit pattern
-- stands for: `n` below 2 ^ 63, and `n - 2 ^ 64` from there on.
pub from_noncanonical_i64_lem :
    (n : ℕ)
    → n < u64_mod
    → (r : ℕ) × (from_noncanonical_i64 n ≡ some r)
      × (r < order)
      × (((n < 2 ^ 63) × (r ≡ n)) ⊎ ((2 ^ 63 ≤ n) × ((r + (u64_mod - n)) % order ≡ 0)))
unfolding from_noncanonical_i64
from_noncanonical_i64_lem n h = elim (dec_lt n (2 ^ 63)) [
  | yes k ↦ (n, ground arith, ground arith, inl (k, refl))
  | no k ↦ (order + n - u64_mod, ground arith, ground arith, inr (omega arith, ground arith))
]
