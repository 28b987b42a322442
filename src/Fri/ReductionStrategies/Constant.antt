-- ===== src/Fri/ReductionStrategies/Constant.antt =====
-- plonky2/src/fri/reduction_strategies.rs: the constant strategy.
use native.Mathlib.Decide.{dec_lt}
use plonky.Common.{
  ℕ, zero, suc, ◌+◌, ◌-◌, ◌*◌, ◌^◌, ◌≤◌, ◌<◌, ◌≡◌, ◌⊎◌, inl, inr, refl, ap, ◌∙◌, arith, some,
  replicate,
}
use plonky.Common.Words.{checked_add, checked_sub}
use plonky.Fri.ReductionStrategies.{constant_arity_bits, constant_loop, reduction_arity_bits}

-- `steps` reductions: they lower the degree, the last tree is not below the cap, and there is no
-- reason for one more.
pub record Reduced (degree_bits rate_bits cap_height arity_bits final_poly_bits steps : ℕ)
    : Type 0 where
  pub within : steps * arity_bits ≤ degree_bits
  pub above_cap : (steps ≡ 0) ⊎ (cap_height + steps * arity_bits ≤ degree_bits + rate_bits)
  pub done :
      (degree_bits - steps * arity_bits ≤ final_poly_bits)
      ⊎ (degree_bits + rate_bits < cap_height + suc steps * arity_bits)

next_step :
    (degree rate cap_height arity final steps : ℕ)
    → final < degree
    → arity ≤ suc final
    → ¬ (degree + rate - arity < cap_height)
    → Reduced (degree - arity) rate cap_height arity final steps
    → Reduced degree rate cap_height arity final (suc steps)
next_step degree rate cap_height arity final steps high small tall r =
    let product : suc steps * arity ≡ arity + steps * arity = omega arith in
    let product' : suc (suc steps) * arity ≡ arity + suc steps * arity = omega arith in
    record {
      within = omega (arith, product, r.within);
      above_cap = elim r.above_cap [
        | inl none_left ↦
            let p : steps * arity ≡ 0 = ap (λ (t : ℕ). t * arity) none_left ∙ omega arith in
            inr (omega (arith, product, p, tall))
        | inr above ↦ inr (omega (arith, product, above, tall))
      ];
      done = elim r.done [
        | inl low ↦ inl (omega (arith, product, low))
        | inr flat ↦ inr (omega (arith, product, product', flat))
      ];
    }

constant_loop-Reduced :
    (fuel degree rate cap_height arity final : ℕ)
    → degree < fuel
    → degree + rate < 2 ^ 64
    → 1 ≤ arity
    → arity ≤ suc final
    → (steps : ℕ) × (constant_loop fuel degree rate cap_height arity final
        ≡ some (replicate steps arity))
      × Reduced degree rate cap_height arity final steps
unfolding constant_loop checked_add checked_sub
constant_loop-Reduced zero degree rate cap_height arity final h fits one small =
    absurd (omega arith)
constant_loop-Reduced (suc fuel) degree rate cap_height arity final h fits one small =
    elim (dec_lt final degree) [
      | no low ↦ (
        0,
        ground arith,
        record { within = omega arith; above_cap = inl refl; done = inl (omega arith) },
      )
      | yes high ↦ elim (dec_lt (degree + rate - arity) cap_height) [
        | yes flat ↦ (
          0,
          ground arith,
          record { within = omega arith; above_cap = inl refl; done = inr (omega arith) },
        )
        | no tall ↦
            let (k, e, r) =
              constant_loop-Reduced fuel (degree - arity) rate cap_height arity final (omega arith)
                (omega arith) one small in
            (
              suc k,
              ground (arith, e),
              next_step degree rate cap_height arity final k high small tall r,
            )
      ]
    ]

-- For an arity of at least two elements whose bits are at most one more than those of the final
-- degree, and a degree and a rate whose bits add up to a `usize`, the constant strategy ends without a panic, and it is as many reductions by that arity as fit: they
-- lower the degree by no more than it has, the last tree is as high as the cap, and then either
-- the final degree is reached, or one more reduction would make a tree lower than the cap.
pub constant-Reduced :
    (degree rate cap_height queries arity final : ℕ)
    → degree + rate < 2 ^ 64
    → 1 ≤ arity
    → arity ≤ suc final
    → (steps : ℕ) × (reduction_arity_bits
          (constant_arity_bits arity final)
          degree
          rate
          cap_height
          queries
        ≡ some (replicate steps arity))
      × Reduced degree rate cap_height arity final steps
unfolding reduction_arity_bits
constant-Reduced degree rate cap_height queries arity final fits one small =
    constant_loop-Reduced (degree + 1) degree rate cap_height arity final (omega arith) fits one
      small
