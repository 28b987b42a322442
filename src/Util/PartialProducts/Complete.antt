-- ===== src/Util/PartialProducts/Complete.antt =====
-- plonky2/src/util/partial_products.rs: the values of an honest prover pass the checks.
use plonky.Common.{
  ℕ, zero, suc, ◌+◌, ◌-◌, ◌≤◌, ◌<◌, ◌≡◌, refl, sym, ap, ap₂, ◌∙◌, arith, some, List, [], ◌∷◌, ◌++◌,
  map, length, take, drop, length-drop, lt→ltb, length-map,
}
use plonky.Common.Words.{u64_mod}
use plonky.Hash.Sponge.{chunks}
use plonky.Util.PartialProducts.{
  Field, check_rows, product_from, product, check, check_partial_products, all_chunks,
  num_partial_products, quotient_chunk_products, partial_products_and_z_gx, accumulate,
}
use plonky.Util.PartialProducts.Sound.{product-cons, AreZero}
use plonky.Util.PartialProducts.Count.{split_last, num_partial_products-chunks}

module _ {F : Type 0} (f : Field F) where
  open f use {mul, one, mul_assoc, mul_comm, one-mul, sub-eq-zero}

  -- Each quotient times its denominator is its numerator.
  pub data AreQuotients : List F → List F → List F → Type 0 where
    all_done : AreQuotients [] [] []
    quotient :
        {q n d : F} {qs ns ds : List F}
        → mul q d ≡ n
        → AreQuotients qs ns ds
        → AreQuotients (q ∷ qs) (n ∷ ns) (d ∷ ds)

  take-AreQuotients :
      (m : ℕ) {qs ns ds : List F}
      → AreQuotients qs ns ds
      → AreQuotients (take m qs) (take m ns) (take m ds)
  take-AreQuotients zero h = all_done
  take-AreQuotients (suc m) all_done = all_done
  take-AreQuotients (suc m) (quotient e h) = quotient e (take-AreQuotients m h)

  drop-AreQuotients :
      (m : ℕ) {qs ns ds : List F}
      → AreQuotients qs ns ds
      → AreQuotients (drop m qs) (drop m ns) (drop m ds)
  drop-AreQuotients zero h = h
  drop-AreQuotients (suc m) all_done = all_done
  drop-AreQuotients (suc m) (quotient e h) = drop-AreQuotients m h

  length-AreQuotients :
      {qs ns ds : List F}
      → AreQuotients qs ns ds
      → (length ns ≡ length qs) × (length ds ≡ length qs)
  length-AreQuotients all_done = (refl, refl)
  length-AreQuotients (quotient e h) = let (a, b) = length-AreQuotients h in (ap suc a, ap suc b)

  interchange : (a b c d : F) → mul (mul a b) (mul c d) ≡ mul (mul a c) (mul b d)
  interchange a b c d =
      mul_assoc a b (mul c d)
      ∙ ap (mul a) (sym (mul_assoc b c d) ∙ ap (λ x. mul x d) (mul_comm b c) ∙ mul_assoc c b d)
      ∙ sym (mul_assoc a c (mul b d))

  product-AreQuotients :
      {qs ns ds : List F} → AreQuotients qs ns ds → mul (product f qs) (product f ds) ≡ product f ns
  unfolding product_from
  product-AreQuotients all_done = one-mul one
  product-AreQuotients (quotient {q = q} {n = n} {d = d} {qs = qs} {ns = ns} {ds = ds} e h) =
      ap₂ mul (product-cons f q qs) (product-cons f d ds)
      ∙ interchange q (product f qs) d (product f ds)
      ∙ ap₂ mul e (product-AreQuotients h)
      ∙ sym (product-cons f n ns)

  -- One check of honest values.
  check_chunk :
      (z : F) {qs ns ds : List F}
      → AreQuotients qs ns ds
      → check f ns ds z (mul z (product f qs)) ≡ f.zero_elt
  check_chunk z {qs} {ns} {ds} h =
      (sub-eq-zero _ _).1 (
        ap (mul z) (sym (product-AreQuotients h)) ∙ sym (mul_assoc z (product f qs) (product f ds)))

  all_checks :
      (fuel size : ℕ) (z : F) {qs ns ds : List F}
      → length qs ≤ fuel
      → 0 < size
      → AreQuotients qs ns ds
      → (checks : List F) × (check_rows f z
            (chunks fuel size ns)
            (chunks fuel size ds)
            (accumulate f z (map (product f) (chunks fuel size qs)))
          ≡ some checks)
        × AreZero f checks
  unfolding chunks check_rows accumulate
  all_checks zero size z h pos all_done = ([], refl, tt)
  all_checks zero size z h pos (quotient e k) = absurd (omega arith)
  all_checks (suc fuel) size z h pos all_done = ([], refl, tt)
  all_checks (suc fuel) size z h pos
        (quotient {q = q} {n = n} {d = d} {qs = qs} {ns = ns} {ds = ds} e k) =
      let whole : AreQuotients (q ∷ qs) (n ∷ ns) (d ∷ ds) = quotient e k in
      let first = take size (q ∷ qs) in
      let (checks, run, zeros) =
        all_checks fuel size (mul z (product f first))
          (omega (arith, h, pos, length-drop size (q ∷ qs))) pos (drop-AreQuotients size whole) in
      (
        check f (take size (n ∷ ns)) (take size (d ∷ ds)) z (mul z (product f first)) ∷ checks,
        rw run refl,
        (check_chunk z (take-AreQuotients size whole), zeros),
      )

  length-accumulate : (z : F) (qs : List F) → length (accumulate f z qs) ≡ length qs
  unfolding accumulate
  length-accumulate z [] = refl
  length-accumulate z (q ∷ qs) = ap suc (length-accumulate (mul z q) qs)

module _ {F : Type 0} (f : Field F) where
  chunk_products :
      (size : ℕ) (q : F) (qs : List F)
      → (p : F) × (ps : List F) × (map (product f) (all_chunks size (q ∷ qs)) ≡ p ∷ ps)
        × (length (all_chunks size (q ∷ qs)) ≡ suc (length ps))
  unfolding chunks
  chunk_products size q qs =
      let rest = chunks (length qs) size (drop size (q ∷ qs)) in
      (
        product f (take size (q ∷ qs)),
        map (product f) rest,
        refl,
        ap suc (sym (length-map rest (product f))),
      )

  -- For numerators that are quotients times denominators, at least one, and a number of them that
  -- with the degree is below `2 ^ 64`: the products of the chunks of the quotients and their
  -- accumulation end without a panic; there are as many partial products as
  -- `num_partial_products` says, and one value more for `Z(g x)`; and with these the checks end
  -- without a panic and are all zero.
  pub partial_products-checked :
      (q : F) (qs ns ds : List F) (z_x : F) (max_degree : ℕ)
      → 1 < max_degree
      → length (q ∷ qs) + max_degree < u64_mod
      → AreQuotients f (q ∷ qs) ns ds
      → (products partials : List F) × (z_gx : F) × (checks : List F) × (quotient_chunk_products f
            (q ∷ qs)
            max_degree
          ≡ some products)
        × (partial_products_and_z_gx f z_x products ≡ some (partials ++ (z_gx ∷ [])))
        × (num_partial_products (length (q ∷ qs)) max_degree ≡ some (length partials))
        × (check_partial_products f ns ds partials z_x z_gx max_degree ≡ some checks)
        × AreZero f checks
  unfolding quotient_chunk_products partial_products_and_z_gx check_partial_products accumulate
  partial_products-checked q qs ns ds z_x max_degree large small quotients =
      let (p, ps, made, count) = chunk_products max_degree q qs in
      let (partials, z_gx, split, len) = split_last (f.mul z_x p) (accumulate f (f.mul z_x p) ps) in
      let (checks, run, zeros) =
        all_checks f (length (q ∷ qs)) max_degree z_x (omega arith) (omega (arith, large))
          quotients in
      let (ns_len, ds_len) = length-AreQuotients f quotients in
      let accs : accumulate f z_x (map (product f) (all_chunks max_degree (q ∷ qs)))
          ≡ partials ++ (z_gx ∷ []) =
        ap (accumulate f z_x) made ∙ split in
      (
        p ∷ ps,
        partials,
        z_gx,
        checks,
        rw (lt→ltb 1 max_degree large) (ap some made),
        ap some split,
        num_partial_products-chunks q qs max_degree large small
            ∙ ap some {x = length (all_chunks max_degree (q ∷ qs)) - 1} {y = length partials}
                (omega (arith, count, len, length-accumulate f (f.mul z_x p) ps)),
        rw (lt→ltb 1 max_degree large, ns_len, ds_len, sym accs) run,
        zeros,
      )
