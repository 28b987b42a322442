-- ===== src/Util/PartialProducts/Count.antt =====
-- plonky2/src/util/partial_products.rs: the number of chunks.
use native.Mathlib.Decide.{dec_lt}
use native.Mathlib.Nat.{div-eq_of_lt-le}
use plonky.Common.{
  ℕ, zero, suc, ◌+◌, ◌-◌, ◌*◌, ◌/◌, ◌≤◌, ◌<◌, ◌≡◌, refl, ap, ◌∙◌, arith, some, List, [], ◌∷◌, ◌++◌,
  length, drop, length-drop, lt→ltb, le→leb, ==_false,
}
use plonky.Common.Slices.{drop_all}
use plonky.Common.Words.{u64_mod, checked_add, checked_sub, checked_div}
use plonky.Util.{ceil_div_usize}
use plonky.Hash.Sponge.{chunks}
use plonky.Util.PartialProducts.{all_chunks, num_partial_products}

chunks-nil : (A : Type 0) (fuel size : ℕ) → length (chunks {A = A} fuel size []) ≡ 0
unfolding chunks
chunks-nil A zero size = refl
chunks-nil A (suc fuel) size = refl

module _ {A : Type 0} where
  -- The last element of a list, and those before it.
  pub split_last :
      (x : A) (xs : List A)
      → (front : List A) × (last : A) × (x ∷ xs ≡ front ++ (last ∷ [])) × (length front ≡ length xs)
  split_last x [] = ([], x, refl, refl)
  split_last x (y ∷ ys) =
      let (front, last, e, len) = split_last y ys in (x ∷ front, last, ap (◌∷◌ x) e, ap suc len)

  chunks_bounds :
      (fuel size : ℕ) (xs : List A)
      → length xs ≤ fuel
      → 0 < size
      → (length xs ≤ length (chunks fuel size xs) * size)
        × (length (chunks fuel size xs) * size < length xs + size)
  unfolding chunks
  chunks_bounds zero size [] h pos = (omega arith, omega arith)
  chunks_bounds zero size (x ∷ xs) h pos = absurd (omega arith)
  chunks_bounds (suc fuel) size [] h pos = (omega arith, omega arith)
  chunks_bounds (suc fuel) size (x ∷ xs) h pos =
      let rest = length-drop size (x ∷ xs) in
      let (low, high) =
        chunks_bounds fuel size (drop size (x ∷ xs)) (omega (arith, h, pos, rest)) pos in
      (
        omega (arith, low, rest),
        elim (dec_lt (length (x ∷ xs)) size) [
          | yes short ↦
              let none_left =
                ap (λ l. length (chunks fuel size l))
                  (drop_all size (x ∷ xs) (omega (arith, short)))
                ∙ chunks-nil A fuel size in
              omega (arith, ap (λ (t : ℕ). t * size) none_left)
          | no long ↦ omega (arith, high, rest, long)
        ],
      )

  -- The number of chunks is what `ceil_div_usize` computes.
  pub num_partial_products-chunks :
      (x : A) (xs : List A) (size : ℕ)
      → 1 < size
      → length (x ∷ xs) + size < u64_mod
      → num_partial_products (length (x ∷ xs)) size ≡ some (length (all_chunks size (x ∷ xs)) - 1)
  unfolding num_partial_products ceil_div_usize checked_add checked_sub checked_div
  num_partial_products-chunks x xs size large small =
      let n = length (x ∷ xs) in
      let count = length (all_chunks size (x ∷ xs)) in
      let (low, high) = chunks_bounds n size (x ∷ xs) (omega arith) (omega (arith, large)) in
      let ceil : (n + size - 1) / size ≡ count =
        div-eq_of_lt-le size (omega (arith, high)) (omega (arith, low, large)) in
      rw
        (
          lt→ltb 1 size large,
          lt→ltb (n + size) u64_mod small,
          le→leb 1 (n + size) (omega (arith, large)),
          ==_false size 0 (omega (arith, large)),
          ceil,
          le→leb 1 count (some_chunk count low),
        )
        refl
    where
      some_chunk : (count : ℕ) → length (x ∷ xs) ≤ count * size → 1 ≤ count
      some_chunk zero low = absurd (omega arith)
      some_chunk (suc count) low = omega arith
