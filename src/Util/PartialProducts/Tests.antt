-- ===== src/Util/PartialProducts/Tests.antt =====
-- The values of the unit test of partial_products.rs. The natural numbers have the laws that the
-- checks rely on, with the distance for a difference.
use native.Mathlib.Nat.{mul_assoc, mul_comm, one-mul}
use plonky.Common.{ℕ, ◌+◌, ◌-◌, ◌*◌, ◌≡◌, ◌↔◌, refl, arith, some, List, [], ◌∷◌, ◌++◌, length}
use plonky.Util.PartialProducts.{
  Field, quotient_chunk_products, partial_products_and_z_gx, num_partial_products,
  check_partial_products, product,
}
use plonky.Util.PartialProducts.Sound.{AreZero, check_partial_products-zero}
use plonky.Util.PartialProducts.Complete.{
  AreQuotients, all_done, quotient, partial_products-checked,
}

abbrev distance : ℕ → ℕ → ℕ
distance a b = (a - b) + (b - a)

distance-eq-zero : (a b : ℕ) → (distance a b ≡ 0) ↔ (a ≡ b)
distance-eq-zero a b = (λ h. omega (arith, h), λ h. omega (arith, h))

abbrev numbers : Field ℕ
numbers = record {
  zero_elt = 0;
  one = 1;
  mul = ◌*◌;
  sub = distance;
  mul_assoc = mul_assoc;
  mul_comm = mul_comm;
  one-mul = one-mul;
  sub-eq-zero = distance-eq-zero;
}

abbrev six : List ℕ
six = 1 ∷ 2 ∷ 3 ∷ 4 ∷ 5 ∷ 6 ∷ []

abbrev ones : List ℕ
ones = 1 ∷ 1 ∷ 1 ∷ 1 ∷ 1 ∷ 1 ∷ []

quotient_chunk_products-six : quotient_chunk_products numbers six 2 ≡ some (2 ∷ 12 ∷ 30 ∷ [])
unfolding quotient_chunk_products
quotient_chunk_products-six = refl

partial_products_and_z_gx-six :
    partial_products_and_z_gx numbers 1 (2 ∷ 12 ∷ 30 ∷ []) ≡ some (2 ∷ 24 ∷ 720 ∷ [])
unfolding partial_products_and_z_gx
partial_products_and_z_gx-six = refl

num_partial_products-six : num_partial_products 6 2 ≡ some 2
unfolding num_partial_products
num_partial_products-six = refl

checks_six : check_partial_products numbers six ones (2 ∷ 24 ∷ []) 1 720 2 ≡ some (0 ∷ 0 ∷ 0 ∷ [])
unfolding check_partial_products
checks_six = refl

check_partial_products-zero_example : 720 * product numbers ones ≡ 1 * product numbers six
check_partial_products-zero_example =
    check_partial_products-zero numbers six ones (2 ∷ 24 ∷ []) 1 720 2 checks_six
      (refl, (refl, (refl, tt)))

six-AreQuotients : AreQuotients numbers six six ones
six-AreQuotients =
    quotient refl
      (quotient refl (quotient refl (quotient refl (quotient refl (quotient refl all_done)))))

partial_products-checked_example :
    (products partials : List ℕ) × (z_gx : ℕ) × (checks : List ℕ) × (quotient_chunk_products numbers
        six 2
      ≡ some products)
    × (partial_products_and_z_gx numbers 1 products ≡ some (partials ++ (z_gx ∷ [])))
    × (num_partial_products 6 2 ≡ some (length partials))
    × (check_partial_products numbers six ones partials 1 z_gx 2 ≡ some checks)
    × AreZero numbers checks
partial_products-checked_example =
    partial_products-checked numbers 1 (2 ∷ 3 ∷ 4 ∷ 5 ∷ 6 ∷ []) six ones 1 2 (omega arith)
      (omega arith) six-AreQuotients
