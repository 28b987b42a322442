-- ===== src/Field/Goldilocks/ExpU64.antt =====
-- `exp_u64`: square and multiply over the bits of the exponent.
use native.Mathlib.Decide.{ℕ_discrete}
use native.Mathlib.Nat.{pow-zero, pow-suc, mul_assoc, div-div-eq-div-mul, le_refl}
use plonky.Common.{
  ℕ, zero, suc, ◌+◌, ◌*◌, ◌/◌, ◌%◌, ◌^◌, ◌<◌, ◌≡◌, refl, sym, ap, ◌∙◌, arith, Option, some, bit_and,
  if◌then◌else◌, ◌==◌,
}
use plonky.Common.Bits.{bit_and-one}
use plonky.Common.Modular.{mul-mod_congr, pow-add, pow-double, mul-pow, pow-mod_congr}
use plonky.Common.Words.{u64_mod}
use plonky.Util.{bits_u64}
use plonky.Util.Logs.{bits_u64-log2_ceil_least}
use plonky.Field.Goldilocks.{order, mul, square, exp_u64_loop, exp_u64}
use plonky.Field.Goldilocks.Linear.{Reduces}
use plonky.Field.Goldilocks.Reduce.{mul-Reduces}

-- One binary digit of the exponent.
pow-halves : (c e : ℕ) → c ^ e ≡ c ^ (e % 2) * (c * c) ^ (e / 2)
pow-halves c e =
    ap (λ (t : ℕ). c ^ t) {x = e} {y = e % 2 + 2 * (e / 2)} (omega arith)
    ∙ pow-add c (e % 2) (2 * (e / 2))
    ∙ ap (λ (t : ℕ). c ^ (e % 2) * t) (pow-double c (e / 2) ∙ sym (mul-pow c c (e / 2)))

-- What one round of the loop does to the product.
abbrev round : ℕ → ℕ → ℕ → Option ℕ
round e p c = if bit_and e 1 == 0 then some p else mul p c

round-Reduces : (e p c : ℕ) → p < u64_mod → c < u64_mod → Reduces (round e p c) (p * c ^ (e % 2))
round-Reduces e p c hp hc = elim (ℕ_discrete (e % 2) 0) [
  | yes even ↦ (
    p,
    rw (bit_and-one e, even),
    hp,
    rw (even, pow-zero c) (ap (λ (t : ℕ). t % order) {x = p} (omega arith)),
  )
  | no odd ↦
      let one : e % 2 ≡ 1 = omega arith in
      let (r, run, b, q) = mul-Reduces p c hp hc in
      (
        r,
        rw (bit_and-one e, one) run,
        b,
        q ∙ ap (λ (t : ℕ). p * t % order) (rw (one, pow-suc c 0, pow-zero c) (omega arith)),
      )
]

halve : (power j : ℕ) → power / 2 ^ (j + 1) ≡ power / 2 ^ j / 2
halve power j = ap (λ (t : ℕ). power / t) (pow-add 2 j 1) ∙ sym (div-div-eq-div-mul power (2 ^ j) 2)

-- The rest of the loop, run on the round's results, gives what the whole loop should.
rest_mod :
    (e p c p' c' r : ℕ)
    → p' % order ≡ p * c ^ (e % 2) % order
    → c' % order ≡ c * c % order
    → r % order ≡ p' * c' ^ (e / 2) % order
    → r % order ≡ p * c ^ e % order
rest_mod e p c p' c' r hp hc hr =
    hr
    ∙ mul-mod_congr order p' (p * c ^ (e % 2)) (c' ^ (e / 2)) ((c * c) ^ (e / 2)) hp
        (pow-mod_congr order c' (c * c) (e / 2) hc)
    ∙ ap (λ (t : ℕ). t % order)
        (mul_assoc p (c ^ (e % 2)) ((c * c) ^ (e / 2))
          ∙ ap (λ (t : ℕ). p * t) (sym (pow-halves c e)))

exp_u64_loop-Reduces :
    (left j power c p : ℕ)
    → c < u64_mod
    → p < u64_mod
    → power / 2 ^ j < 2 ^ left
    → Reduces (exp_u64_loop left j power c p) (p * c ^ (power / 2 ^ j))
unfolding exp_u64_loop square
exp_u64_loop-Reduces zero j power c p hc hp h =
    let none_left : power / 2 ^ j ≡ 0 = omega arith in
    (p, refl, hp, rw (none_left, pow-zero c) (ap (λ (t : ℕ). t % order) {x = p} (omega arith)))
exp_u64_loop-Reduces (suc left) j power c p hc hp h =
    let e = power / 2 ^ j in
    let (p', run, hp', ep) = round-Reduces e p c hp hc in
    let (c', run', hc', ec) = mul-Reduces c c hc hc in
    let fuel : power / 2 ^ (j + 1) < 2 ^ left = omega (arith, halve power j, pow-suc 2 left) in
    let (r, run'', hr, er) = exp_u64_loop-Reduces left (j + 1) power c' p' hc' hp' fuel in
    (
      r,
      rw (run, run') run'',
      hr,
      rest_mod e p c p' c' r ep ec (er ∙ ap (λ (t : ℕ). p' * c' ^ t % order) (halve power j)),
    )

-- `exp_u64` succeeds for every base and exponent of 64 bits, with the power modulo the order.
pub exp_u64-Reduces :
    (x power : ℕ) → x < u64_mod → power < u64_mod → Reduces (exp_u64 x power) (x ^ power)
unfolding exp_u64
exp_u64-Reduces x power hx hp =
    let fits = (bits_u64-log2_ceil_least power (bits_u64 power) hp).0.0 (le_refl _) in
    let (r, run, b, e) =
      exp_u64_loop-Reduces (bits_u64 power) 0 power x 1 hx (omega arith) (omega (arith, fits)) in
    (r, run, b, e ∙ ap (λ (t : ℕ). t % order) {y = x ^ power} (rw whole (omega arith)))
  where
    whole : power / 2 ^ 0 ≡ power
    whole = omega arith
