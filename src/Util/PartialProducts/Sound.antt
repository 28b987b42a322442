-- ===== src/Util/PartialProducts/Sound.antt =====
-- plonky2/src/util/partial_products.rs: what the checks show when they are all zero.
use plonky.Common.{
  ℕ, zero, suc, ◌≤◌, ◌<◌, ◌≡◌, refl, sym, ap, ap₂, subst, ◌∙◌, arith, some, List, [], ◌∷◌, ◌++◌,
  All, length, take, drop, length-drop, ltb, assert, >>=-eq-some, eq_of_some, take-append-drop,
}
use plonky.Hash.Sponge.{chunks}
use plonky.Util.PartialProducts.{
  Field, check_rows, product_from, product, check_partial_products, all_chunks,
}

assert-lt : (a b : ℕ) {u : Unit {0}} → assert (ltb a b) ≡ some u → a < b
assert-lt a b h = ground arith

module _ {F : Type 0} (f : Field F) where
  open f use {mul, one, mul_assoc, mul_comm, one-mul, sub-eq-zero}

  pub mul-one : (a : F) → mul a one ≡ a
  mul-one a = mul_comm a one ∙ one-mul a

  -- The product of a product and the product of a list.
  pub product_from-mul : (acc : F) (xs : List F) → product_from f acc xs ≡ mul acc (product f xs)
  unfolding product_from
  product_from-mul acc [] = sym (mul-one acc)
  product_from-mul acc (x ∷ xs) =
      product_from-mul (mul acc x) xs
      ∙ mul_assoc acc x (product f xs)
      ∙ ap (mul acc)
          (ap (λ a. mul a (product f xs)) (sym (one-mul x)) ∙ sym (product_from-mul (mul one x) xs))

  pub product-cons : (x : F) (xs : List F) → product f (x ∷ xs) ≡ mul x (product f xs)
  unfolding product_from
  product-cons x xs = product_from-mul (mul one x) xs ∙ ap (λ a. mul a (product f xs)) (one-mul x)

  pub product-append : (xs ys : List F) → product f (xs ++ ys) ≡ mul (product f xs) (product f ys)
  unfolding product_from
  product-append [] ys = sym (one-mul (product f ys))
  product-append (x ∷ xs) ys =
      product-cons x (xs ++ ys)
      ∙ ap (mul x) (product-append xs ys)
      ∙ sym (mul_assoc x (product f xs) (product f ys))
      ∙ ap (λ a. mul a (product f ys)) (sym (product-cons x xs))

  -- The product of the products of the chunks.
  unfoldable pub all_products : List (List F) → F
  all_products [] = one
  all_products (c ∷ cs) = mul (product f c) (all_products cs)

  pub all_products-chunks :
      (fuel size : ℕ) (xs : List F)
      → length xs ≤ fuel
      → 0 < size
      → all_products (chunks fuel size xs) ≡ product f xs
  unfolding all_products chunks product_from
  all_products-chunks zero size [] h pos = refl
  all_products-chunks zero size (x ∷ xs) h pos = absurd (omega arith)
  all_products-chunks (suc fuel) size [] h pos = refl
  all_products-chunks (suc fuel) size (x ∷ xs) h pos =
      let rest = drop size (x ∷ xs) in
      ap (mul (product f (take size (x ∷ xs))))
        (all_products-chunks fuel size rest (omega (arith, h, pos, length-drop size (x ∷ xs))) pos)
      ∙ sym (product-append (take size (x ∷ xs)) rest)
      ∙ ap (product f) (take-append-drop size (x ∷ xs))

  abbrev pub AreZero : List F → Type 0
  AreZero cs = All (λ c. c ≡ f.zero_elt) cs

  swap : (a b c : F) → mul a (mul b c) ≡ mul b (mul a c)
  swap a b c = sym (mul_assoc a b c) ∙ ap (λ x. mul x c) (mul_comm a b) ∙ mul_assoc b a c

  -- One check, and the rest of the chain.
  link :
      (z p last n d ns ds : F)
      → mul z n ≡ mul p d
      → mul last ds ≡ mul p ns
      → mul last (mul d ds) ≡ mul z (mul n ns)
  link z p last n d ns ds e k =
      swap last d ds
      ∙ ap (mul d) k
      ∙ swap d p ns
      ∙ sym (mul_assoc p d ns)
      ∙ ap (λ x. mul x ns) (sym e)
      ∙ mul_assoc z n ns

  -- The accumulator at the end.
  unfoldable pub last_of : F → List F → F
  last_of z [] = z
  last_of z (a ∷ accs) = last_of a accs

  pub last_of-append : (z : F) (accs : List F) (a : F) → last_of z (accs ++ (a ∷ [])) ≡ a
  unfolding last_of
  last_of-append z [] a = refl
  last_of-append z (b ∷ accs) a = last_of-append b accs a

  check_rows-zero :
      (ns ds : List (List F)) (z : F) (accs : List F) {checks : List F}
      → check_rows f z ns ds accs ≡ some checks
      → AreZero checks
      → mul (last_of z accs) (all_products ds) ≡ mul z (all_products ns)
  unfolding check_rows all_products last_of
  check_rows-zero [] [] z [] run h = refl
  check_rows-zero [] [] z (a ∷ accs) run h = cc
  check_rows-zero [] (d ∷ ds) z accs run h = cc
  check_rows-zero (n ∷ ns) [] z accs run h = cc
  check_rows-zero (n ∷ ns) (d ∷ ds) z [] run h = cc
  check_rows-zero (n ∷ ns) (d ∷ ds) z (a ∷ accs) run h =
      let (rest, run', e) = >>=-eq-some (check_rows f a ns ds accs) _ run in
      let (zero_here, zeros) = subst AreZero (sym (eq_of_some e)) h in
      link z a (last_of a accs) (product f n) (product f d) (all_products ns) (all_products ds)
        ((sub-eq-zero (mul z (product f n)) (mul a (product f d))).0 zero_here)
        (check_rows-zero ns ds a accs run' zeros)

  -- When `check_partial_products` returns, without a panic, only zeros: the last accumulator times
  -- the product of all denominators is the first accumulator times the product of all numerators.
  pub check_partial_products-zero :
      (numerators denominators partials : List F) (z_x z_gx : F) (max_degree : ℕ) {checks : List F}
      → check_partial_products f numerators denominators partials z_x z_gx max_degree ≡ some checks
      → AreZero checks
      → mul z_gx (product f denominators) ≡ mul z_x (product f numerators)
  unfolding check_partial_products
  check_partial_products-zero numerators denominators partials z_x z_gx max_degree run zeros =
      let (_, large, run1) = >>=-eq-some (assert (ltb 1 max_degree)) _ run in
      let pos = assert-lt 1 max_degree large in
      let all =
        check_rows-zero (all_chunks max_degree numerators) (all_chunks max_degree denominators) z_x
          (partials ++ (z_gx ∷ [])) run1 zeros in
      ap₂ mul (sym (last_of-append z_x partials z_gx)) (
        sym (
          all_products-chunks (length denominators) max_degree denominators (omega arith)
            (omega (arith, pos))))
      ∙ all
      ∙ ap (mul z_x) (
          all_products-chunks (length numerators) max_degree numerators (omega arith)
            (omega (arith, pos)))
