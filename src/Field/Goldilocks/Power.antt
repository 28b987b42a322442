-- ===== src/Field/Goldilocks/Power.antt =====
-- Repeated squaring, `exp_u64` and the addition chain of `try_inverse`.
use native.Mathlib.Nat.{pow-zero, pow-suc}
use plonky.Common.{
  ℕ, zero, suc, ◌+◌, ◌-◌, ◌*◌, ◌%◌, ◌^◌, ◌<◌, ◌≡◌, refl, sym, ap, ◌∙◌, arith, Option, none, true,
  ◌↔◌, ◌⊎◌, ◌≢◌, inl, inr, Bool-cases, subst, some, ◌>>=◌,
}
use plonky.Common.Modular.{mul-mod_congr, pow-add}
use plonky.Common.Words.{u64_mod}
use plonky.Field.Goldilocks.{
  order, is_zero, mul, square, exp_power_of_2, exp_acc, inverse_chain, try_inverse,
}
use plonky.Field.Goldilocks.Reduce.{mul-Reduces}

-- `x` is a `u64` that stands for the `n`-th power of `a`.
abbrev pub IsPower : ℕ → ℕ → ℕ → Type 0
IsPower a n x = (x < u64_mod) × (x % order ≡ a ^ n % order)

-- The step succeeds with the `n`-th power of `a`.
record Powers (a n : ℕ) (o : Option ℕ) : Type 0 where
  value : ℕ
  runs : o ≡ some value
  power : IsPower a n value

module _ (a : ℕ) where
  Powers-bind :
      {m k : ℕ} {o : Option ℕ} {f : ℕ → Option ℕ}
      → Powers a m o
      → ((x : ℕ) → IsPower a m x → Powers a k (f x))
      → Powers a k (o >>= f)
  Powers-bind {k} {f} p next = subst (λ q. Powers a k (q >>= f)) (sym p.runs) (next p.value p.power)

  mul-Powers : (m n k x y : ℕ) → IsPower a m x → IsPower a n y → m + n ≡ k → Powers a k (mul x y)
  mul-Powers m n k x y (hx, px) (hy, py) e =
      let (r, run, b, c) = mul-Reduces x y hx hy in
      record {
        value = r;
        runs = run;
        power = (b, c ∙ mul-mod_congr order x (a ^ m) y (a ^ n) px py ∙ exponent);
      }
    where
      exponent : a ^ m * a ^ n % order ≡ a ^ k % order
      exponent = ap (λ (t : ℕ). t % order) (sym (pow-add a m n) ∙ ap (λ (t : ℕ). a ^ t) e)

  square-Powers : (m k x : ℕ) → IsPower a m x → m + m ≡ k → Powers a k (square x)
  unfolding square
  square-Powers m k x h e = mul-Powers m m k x x h h e

  exp_power_of_2-Powers :
      (i m k x : ℕ) → IsPower a m x → m * 2 ^ i ≡ k → Powers a k (exp_power_of_2 x i)
  unfolding exp_power_of_2
  exp_power_of_2-Powers zero m k x h e = record {
    value = x;
    runs = refl;
    power = (h.0, h.1 ∙ ap (λ (t : ℕ). a ^ t % order) {x = m} (omega (arith, e)));
  }
  exp_power_of_2-Powers (suc i) m k x h e =
      Powers-bind (exp_power_of_2-Powers i m (m * 2 ^ i) x h refl) λ r p.
        square-Powers (m * 2 ^ i) k r p (omega (arith, e, ap (λ (t : ℕ). m * t) (pow-suc 2 i)))

  exp_acc-Powers :
      (i m n k x y : ℕ)
      → IsPower a m x
      → IsPower a n y
      → m * 2 ^ i + n ≡ k
      → Powers a k (exp_acc i x y)
  unfolding exp_acc
  exp_acc-Powers i m n k x y hx hy e =
      Powers-bind (exp_power_of_2-Powers i m (m * 2 ^ i) x hx refl)
        λ r p. mul-Powers (m * 2 ^ i) n k r y p hy e

  -- The exponents of the chain: runs of ones, and last the order minus two.
  inverse_chain-Powers : (x : ℕ) → IsPower a 1 x → Powers a (order - 2) (inverse_chain x)
  unfolding inverse_chain
  inverse_chain-Powers x h = Powers-bind (square-Powers 1 2 x h refl) λ s1 p1.
      Powers-bind (mul-Powers 2 1 3 s1 x p1 h refl) λ t2 p2.
        Powers-bind (square-Powers 3 6 t2 p2 refl) λ s2 p3.
          Powers-bind (mul-Powers 6 1 7 s2 x p3 h refl) λ t3 p4.
            Powers-bind (exp_acc-Powers 3 7 7 63 t3 t3 p4 p4 refl) λ t6 p5.
              Powers-bind (exp_acc-Powers 6 63 63 4095 t6 t6 p5 p5 refl) λ t12 p6.
                Powers-bind (exp_acc-Powers 12 4095 4095 (2 ^ 24 - 1) t12 t12 p6 p6 refl) λ t24 p7.
                  Powers-bind (exp_acc-Powers 6 (2 ^ 24 - 1) 63 (2 ^ 30 - 1) t24 t6 p7 p5 refl)
                    λ t30 p8.
                      Powers-bind (square-Powers (2 ^ 30 - 1) (2 ^ 31 - 2) t30 p8 refl) λ s30 p9.
                        Powers-bind (mul-Powers (2 ^ 31 - 2) 1 (2 ^ 31 - 1) s30 x p9 h refl)
                          λ t31 p10.
                            Powers-bind
                              (exp_acc-Powers 32 (2 ^ 31 - 1) (2 ^ 31 - 1) (2 ^ 63 - 2 ^ 31 - 1) t31
                                t31 p10 p10 refl)
                              λ t63 p11.
                                Powers-bind
                                  (square-Powers (2 ^ 63 - 2 ^ 31 - 1) (2 ^ 64 - 2 ^ 32 - 2) t63 p11
                                    refl)
                                  λ s63 p12.
                                    mul-Powers (2 ^ 64 - 2 ^ 32 - 2) 1 (order - 2) s63 x p12 h refl

itself-IsPower : (x : ℕ) → x < u64_mod → IsPower x 1 x
itself-IsPower x h =
    (h, ap (λ (t : ℕ). t % order) {x = x} (sym (pow-suc x 0 ∙ rw (pow-zero x) (omega arith))))

is_zero_iff : (x : ℕ) → x < u64_mod → (is_zero x ≡ true) ↔ (x % order ≡ 0)
unfolding is_zero
is_zero_iff x h = (λ p. ground arith, λ p. ground arith)

-- `try_inverse` runs to its end on every `u64`. It returns `None` exactly where the element is
-- zero modulo the order, and otherwise the power of the element with exponent `order - 2`.
pub try_inverse_lem :
    (x : ℕ)
    → x < u64_mod
    → ((x % order ≡ 0) × (try_inverse x ≡ some none))
      ⊎ ((x % order ≢ 0) × ((r : ℕ) × (try_inverse x ≡ some (some r)) × IsPower x (order - 2) r))
unfolding try_inverse
try_inverse_lem x h = elim (Bool-cases (is_zero x)) [
  | inl null ↦ inl ((is_zero_iff x h).0 null, rw null)
  | inr other ↦
      let p = inverse_chain-Powers x x (itself-IsPower x h) in
      inr (
        λ z. cc ((is_zero_iff x h).1 z, other),
        (p.value, rw other (ap (λ o. o >>= λ r. some (some r)) p.runs), p.power),
      )
]
