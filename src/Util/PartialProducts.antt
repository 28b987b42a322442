-- ===== src/Util/PartialProducts.antt =====
-- plonky2/src/util/partial_products.rs, over any field: of the `Field` trait the code uses the
-- product and the difference. `none` is a failed assertion, an underflow, or two iterators of
-- different lengths.
pub mod Sound
pub mod Count
pub mod Complete
mod Tests
use plonky.Common.{
  ℕ, zero, suc, ◌+◌, ◌-◌, ◌/◌, ◌≡◌, ◌↔◌, Bool, true, false, Option, none, some, List, [], ◌∷◌, ◌++◌,
  map, not, length, ltb, leb, assert, ◌>>=◌, ◌>>◌,
}
use plonky.Common.Words.{checked_sub}
use plonky.Util.{ceil_div_usize}
use plonky.Hash.Sponge.{chunks}

-- The operations, with the laws that the checks rely on.
pub record Field (F : Type 0) : Type 0 where
  pub zero_elt : F
  pub one : F
  pub mul : F → F → F
  pub sub : F → F → F
  pub mul_assoc : (a b c : F) → mul (mul a b) c ≡ mul a (mul b c)
  pub mul_comm : (a b : F) → mul a b ≡ mul b a
  pub one-mul : (a : F) → mul one a ≡ a
  pub sub-eq-zero : (a b : F) → (sub a b ≡ zero_elt) ↔ (a ≡ b)

unfoldable pub num_partial_products : ℕ → ℕ → Option ℕ
unfolding ceil_div_usize checked_sub
num_partial_products n max_degree = do
  assert (ltb 1 max_degree)
  count ← ceil_div_usize n max_degree
  checked_sub count 1

module _ {A : Type 0} where
  abbrev pub is_empty : List A → Bool
  is_empty [] = true
  is_empty (x ∷ xs) = false

  -- `slice.chunks(size)`
  abbrev pub all_chunks : ℕ → List A → List (List A)
  all_chunks size xs = chunks (length xs) size xs

module _ {F : Type 0} (f : Field F) where
  -- `iter().copied().product()`
  unfoldable pub product_from : F → List F → F
  product_from acc [] = acc
  product_from acc (x ∷ xs) = product_from (f.mul acc x) xs

  abbrev pub product : List F → F
  product xs = product_from f.one xs

  unfoldable pub quotient_chunk_products : List F → ℕ → Option (List F)
  unfolding product_from chunks
  quotient_chunk_products quotient_values max_degree = do
    assert (ltb 1 max_degree)
    assert (not (is_empty quotient_values))
    some (map product (all_chunks max_degree quotient_values))

  -- The loop of `partial_products_and_z_gx`.
  unfoldable pub accumulate : F → List F → List F
  accumulate acc [] = []
  accumulate acc (q ∷ qs) = f.mul acc q ∷ accumulate (f.mul acc q) qs

  unfoldable pub partial_products_and_z_gx : F → List F → Option (List F)
  unfolding accumulate
  partial_products_and_z_gx z_x quotient_chunk_products = do
    assert (not (is_empty quotient_chunk_products))
    some (accumulate z_x quotient_chunk_products)

  -- The closure of `check_partial_products`.
  abbrev pub check : List F → List F → F → F → F
  check nume_chunk deno_chunk prev_acc next_acc =
      f.sub (f.mul prev_acc (product nume_chunk)) (f.mul next_acc (product deno_chunk))

  -- The chunks beside each accumulator and the next one; `zip_eq` panics when one of the three
  -- iterators ends before another.
  unfoldable pub check_rows : F → List (List F) → List (List F) → List F → Option (List F)
  unfolding product_from
  check_rows prev_acc (n ∷ ns) (d ∷ ds) (next_acc ∷ accs) = do
    rest ← check_rows next_acc ns ds accs
    some (check n d prev_acc next_acc ∷ rest)
  check_rows prev_acc [] [] [] = some []
  check_rows prev_acc _ _ _ = none

  unfoldable pub check_partial_products : List F → List F → List F → F → F → ℕ → Option (List F)
  unfolding check_rows chunks
  check_partial_products numerators denominators partials z_x z_gx max_degree = do
    assert (ltb 1 max_degree)
    check_rows z_x (all_chunks max_degree numerators) (all_chunks max_degree denominators)
        (partials ++ (z_gx ∷ []))
