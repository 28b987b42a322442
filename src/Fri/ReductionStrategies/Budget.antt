-- ===== src/Fri/ReductionStrategies/Budget.antt =====
-- plonky2/src/fri/reduction_strategies.rs: sizes for which `relative_proof_size` does not overflow.
use native.Mathlib.Decide.{dec_lt}
use plonky.Common.{
  ℕ, suc, ◌+◌, ◌-◌, ◌*◌, ◌^◌, ◌≤◌, ◌<◌, ◌≡◌, ap, ap₂, ◌∙◌, arith, some, List, [], ◌∷◌, All, le→leb,
  lt→ltb,
}
use plonky.Common.Modular.{pow-add, lt-two-pow}
use plonky.Common.Words.{checked_add, checked_sub, checked_mul}
use plonky.Fri.ReductionStrategies.{size_loop, sum, sum_from}

-- What a layer of `room + rate` bits and those after it can cost.
abbrev pub budget : ℕ → ℕ → ℕ → ℕ
budget queries room rate = 4 * (queries + 1) * (2 ^ room + (room + 1) * (room + rate))

one-le-pow : (n : ℕ) → 1 ≤ 2 ^ n
one-le-pow n = omega (arith, lt-two-pow n)

pow-small : (n : ℕ) → 2 ^ n < 2 ^ 64 → n < 64
pow-small n h = elim (dec_lt n 64) [
  | yes less ↦ less
  | no large ↦
      let e : 2 ^ n ≡ 2 ^ 64 * 2 ^ (n - 64) =
        ap (λ (t : ℕ). 2 ^ t) {x = n} {y = 64 + (n - 64)} (omega (arith, large))
        ∙ pow-add 2 64 (n - 64) in
      absurd (omega (arith, h, e, one-le-pow (n - 64)))
]

-- One layer: it costs at most what the budget shrinks by. `suc p`, `suc s` and `R` stand for powers of
-- two, `suc b` and `t` for the bits taken and left.
grow :
    (q p s b t rate : ℕ)
    → p * 4 * q + (suc b + t + rate) * 4 * q + 4 * (q + 1) * (suc s + (t + 1) * (t + rate))
      ≤ 4 * (q + 1) * (suc p * suc s + (suc b + t + 1) * (suc b + t + rate))
grow q p s b t rate = omega arith

layer_products :
    (q p s b t rate S R room : ℕ)
    → S ≡ suc s
    → R ≡ suc p * suc s
    → room ≡ suc b + t
    → p * 4 * q + (room + rate) * 4 * q + 4 * (q + 1) * (S + (t + 1) * (t + rate))
      ≤ 4 * (q + 1) * (R + (room + 1) * (room + rate))
layer_products q p s b t rate S R room eS eR er = rw (eS, eR, er) (grow q p s b t rate)

single_products :
    (q p s rate R room : ℕ)
    → R ≡ suc p * suc s
    → (suc p * 4 ≤ 4 * (q + 1) * (R + (room + 1) * (room + rate)))
      × ((room + rate) * 4 ≤ 4 * (q + 1) * (R + (room + 1) * (room + rate)))
single_products q p s rate R room eR = rw eR (omega arith, omega arith)

-- What one layer multiplies stays within the budget, and what it adds within its shrinking.
record Costs (q a room rate : ℕ) : Type 0 where
  power : 2 ^ a * 4 ≤ budget q room rate
  path : (room + rate) * 4 ≤ budget q room rate
  layer :
      (2 ^ a - 1) * 4 * q + (room + rate) * 4 * q + budget q (room - a) rate ≤ budget q room rate

layer-Costs : (q a room rate : ℕ) → 1 ≤ a → a ≤ room → Costs q a room rate
layer-Costs q a room rate one fits =
    let p = 2 ^ a - 1 in
    let s = 2 ^ (room - a) - 1 in
    let ep : 2 ^ a ≡ suc p = omega (arith, one-le-pow a) in
    let es : 2 ^ (room - a) ≡ suc s = omega (arith, one-le-pow (room - a)) in
    let split : 2 ^ room ≡ suc p * suc s =
      ap (λ (t : ℕ). 2 ^ t) {x = room} {y = a + (room - a)} (omega (arith, fits))
      ∙ pow-add 2 a (room - a)
      ∙ ap₂ ◌*◌ ep es in
    let single = single_products q p s rate (2 ^ room) room split in
    record {
      power = omega (arith, single.0, ep);
      path = single.1;
      layer =
          layer_products q p s (a - 1) (room - a) rate (2 ^ (room - a)) (2 ^ room) room es split
            (omega (arith, one, fits));
    }

pub last_products :
    (q rate room R : ℕ)
    → (R * 4 ≤ 4 * (q + 1) * (R + (room + 1) * (room + rate)))
      × (room + rate ≤ 4 * (q + 1) * (R + (room + 1) * (room + rate)))
last_products q rate room R = (omega arith, omega arith)

pub checked_add-eq : (a b : ℕ) → a + b < 2 ^ 64 → checked_add a b ≡ some (a + b)
unfolding checked_add
checked_add-eq a b h = ground (arith, h)

checked_mul-eq : (a b : ℕ) → a * b < 2 ^ 64 → checked_mul a b ≡ some (a * b)
unfolding checked_mul
checked_mul-eq a b h = ground (arith, h)

pub checked_sub-eq : (a b : ℕ) → b ≤ a → checked_sub a b ≡ some (a - b)
unfolding checked_sub
checked_sub-eq a b h = ground (arith, h)

-- The size of positive arities that the room is enough for.
pub size_loop-total :
    (queries rate room total : ℕ) (bits : List ℕ)
    → All (λ a. 1 ≤ a) bits
    → sum bits ≤ room
    → total + budget queries room rate < 2 ^ 64
    → (size : ℕ) × (size_loop rate queries (room + rate) total bits ≡ some size)
unfolding size_loop
size_loop-total q rate room total [] pos fits small =
    let e : room + rate - rate ≡ room = omega arith in
    let (last, _) = last_products q rate room (2 ^ room) in
    let bits = pow-small room (omega (arith, last, small)) in
    (
      total + 4 * 2 ^ room,
      rw
          (
            e,
            le→leb rate (room + rate) (omega arith),
            lt→ltb room 64 bits,
            checked_mul-eq 4 (2 ^ room) (omega (arith, last, small)),
          )
          (checked_add-eq total (4 * 2 ^ room) (omega (arith, last, small))),
    )
size_loop-total q rate room total (a ∷ bits) (one, pos) fits small =
    let c = layer-Costs q a room rate one (omega (arith, fits)) in
    let wide = pow-small a (omega (arith, c.power, small)) in
    let next : room + rate - a ≡ room - a + rate = omega (arith, fits) in
    let total' = total + (2 ^ a - 1) * 4 * q + (room + rate) * 4 * q in
    let (size, e) =
      size_loop-total q rate (room - a) total' bits pos (omega (arith, fits))
        (omega (arith, c.layer, small)) in
    let evals = (2 ^ a - 1) * 4 * q in
    (
      size,
      rw
          (
            lt→ltb a 64 wide,
            checked_mul-eq (2 ^ a - 1) 4 (omega (arith, c.power, small)),
            checked_mul-eq ((2 ^ a - 1) * 4) q (omega (arith, c.layer, small)),
            checked_add-eq total evals (omega (arith, c.layer, small)),
            checked_mul-eq (room + rate) 4 (omega (arith, c.path, small)),
            checked_mul-eq ((room + rate) * 4) q (omega (arith, c.layer, small)),
            checked_add-eq (total + evals) ((room + rate) * 4 * q) (omega (arith, c.layer, small)),
            checked_sub-eq (room + rate) a (omega (arith, fits)) ∙ ap some next,
          )
          e,
    )

pub sum_from-eq :
    (total : ℕ) (xs : List ℕ) → total + sum xs < 2 ^ 64 → sum_from total xs ≡ some (total + sum xs)
unfolding sum_from
sum_from-eq total [] h = ap some (omega arith)
sum_from-eq total (x ∷ xs) h =
    rw (checked_add-eq total x (omega (arith, h)))
      (sum_from-eq (total + x) xs (omega (arith, h)) ∙ ap some (omega arith))
