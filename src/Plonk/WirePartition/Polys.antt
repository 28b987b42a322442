-- ===== src/Plonk/WirePartition/Polys.antt =====
-- plonky2/src/plonk/permutation_argument.rs: the values of `get_sigma_polys`.
use native.Mathlib.Nat.{mod-lt, div-lt_iff_lt-mul, mul-le-mul_right, div-eq_of_lt-le}
use plonky.Common.{
  ℕ, zero, suc, ◌+◌, ◌*◌, ◌/◌, ◌%◌, ◌^◌, ◌≤◌, ◌<◌, ◌≡◌, refl, sym, ap, ◌∙◌, arith, Option, some,
  List, [], ◌∷◌, All, length, take, drop, get_elem?, traverse, length-drop, eq_of_some,
}
use plonky.Common.Modular.{mod-eq_of_split}
use plonky.Common.Slices.{get_elem?-some, get_elem?-take, get_elem?-drop, drop-drop}
use plonky.Hash.Sponge.{chunks}
use plonky.Plonk.PermutationArgument.{Wire}
use plonky.Plonk.WirePartition.{get_sigma_map, sigma_value, get_sigma_polys}
use plonky.Plonk.WirePartition.Columns.{position}

module _ {A B : Type 0} where
  -- A traversal that does not fail anywhere reads each element.
  traverse-reads :
      (g : A → Option B) (xs : List A)
      → All (λ x. (y : B) × (g x ≡ some y)) xs
      → (ys : List B) × (traverse g xs ≡ some ys)
        × ((i : ℕ) (x : A) → get_elem? xs i ≡ some x → get_elem? ys i ≡ g x)
  traverse-reads g [] h = ([], refl, λ i x e. cc)
  traverse-reads g (x ∷ xs) ((y, e), h) =
      let (ys, run, reads) = traverse-reads g xs h in
      (y ∷ ys, rw (e, run) refl, λ i z there. at i z there y e ys reads)
    where
      at :
          (i : ℕ) (z : A)
          → get_elem? (x ∷ xs) i ≡ some z
          → (y : B) → g x ≡ some y
          → (ys : List B) → ((i : ℕ) (x : A) → get_elem? xs i ≡ some x → get_elem? ys i ≡ g x)
          → get_elem? (y ∷ ys) i ≡ g z
      at zero z there y e ys reads = sym e ∙ ap g (eq_of_some there)
      at (suc i) z there y e ys reads = reads i z there

module _ {A : Type 0} where
  All-get_elem? :
      (P : A → Type 0) (xs : List A) → ((i : ℕ) (x : A) → get_elem? xs i ≡ some x → P x) → All P xs
  All-get_elem? P [] h = tt
  All-get_elem? P (x ∷ xs) h = (h 0 x refl, All-get_elem? P xs (λ i y e. h (suc i) y e))

  All-take : (P : A → Type 0) (n : ℕ) (xs : List A) → All P xs → All P (take n xs)
  All-take P zero xs h = tt
  All-take P (suc n) [] h = tt
  All-take P (suc n) (x ∷ xs) (p, h) = (p, All-take P n xs h)

  All-drop : (P : A → Type 0) (n : ℕ) (xs : List A) → All P xs → All P (drop n xs)
  All-drop P zero xs h = h
  All-drop P (suc n) [] h = tt
  All-drop P (suc n) (x ∷ xs) (p, h) = All-drop P n xs h

  All-chunks :
      (P : A → Type 0) (fuel size : ℕ) (xs : List A) → All P xs → All (All P) (chunks fuel size xs)
  unfolding chunks
  All-chunks P zero size xs h = tt
  All-chunks P (suc fuel) size [] h = tt
  All-chunks P (suc fuel) size (x ∷ xs) h = (
    All-take P size (x ∷ xs) h,
    All-chunks P fuel size (drop size (x ∷ xs)) (All-drop P size (x ∷ xs) h),
  )

  All-mono : {P Q : A → Type 0} (xs : List A) → ((x : A) → P x → Q x) → All P xs → All Q xs
  All-mono [] f h = tt
  All-mono (x ∷ xs) f (p, h) = (f x p, All-mono xs f h)

  -- The chunk number `c` starts at `c * size`.
  chunks-get_elem? :
      (fuel size c : ℕ) (xs : List A)
      → length xs ≤ fuel
      → 0 < size
      → c * size < length xs
      → get_elem? (chunks fuel size xs) c ≡ some (take size (drop (c * size) xs))
  unfolding chunks
  chunks-get_elem? zero size c [] h pos lt = absurd (omega arith)
  chunks-get_elem? zero size c (x ∷ xs) h pos lt = absurd (omega arith)
  chunks-get_elem? (suc fuel) size c [] h pos lt = absurd (omega arith)
  chunks-get_elem? (suc fuel) size zero (x ∷ xs) h pos lt =
      ap (λ t. some (take size (drop t (x ∷ xs)))) {x = 0} {y = 0 * size} (omega arith)
  chunks-get_elem? (suc fuel) size (suc c) (x ∷ xs) h pos lt =
      let rest = length-drop size (x ∷ xs) in
      chunks-get_elem? fuel size c (drop size (x ∷ xs)) (omega (arith, h, pos, rest)) pos
        (omega (arith, lt, rest))
      ∙ ap (λ l. some (take size l))
          (drop-drop (c * size) size (suc c * size) (x ∷ xs) (omega arith))

module _ {F : Type 0} (mul : F → F → F) (degree : ℕ) (k_is subgroup : List F) (pos : 0 < degree)
    (full : length subgroup ≡ degree) where
  sigma_value-some :
      (x : ℕ)
      → x < length k_is * degree
      → (y : F) × (sigma_value mul degree k_is subgroup x ≡ some y)
  unfolding sigma_value
  sigma_value-some x lt =
      let (k, found) = get_elem?-some k_is (x / degree) ((div-lt_iff_lt-mul pos).1 lt) in
      let (g, found') = get_elem?-some subgroup (x % degree) (omega (arith, full, mod-lt x pos)) in
      (mul k g, rw (found, found') refl)

  sigma_value-position :
      (v : Wire)
      → v.row < degree
      → v.column < length k_is
      → (k g : F) × (get_elem? k_is v.column ≡ some k)
        × (get_elem? subgroup v.row ≡ some g)
        × (sigma_value mul degree k_is subgroup (position degree v) ≡ some (mul k g))
  unfolding sigma_value
  sigma_value-position v row column =
      let (k, found) = get_elem?-some k_is v.column column in
      let (g, found') = get_elem?-some subgroup v.row (omega (arith, row, full)) in
      let quotient : position degree v / degree ≡ v.column =
        div-eq_of_lt-le degree (omega arith) (omega (arith, row)) in
      let remainder : position degree v % degree ≡ v.row =
        mod-eq_of_split degree (position degree v) v.column v.row (omega arith) row in
      (k, g, found, found', rw (quotient, remainder, found, found') refl)

  -- The values of one chunk of `sigma` for each column.
  chunk_values :
      (sigma : List ℕ)
      → length sigma ≡ length k_is * degree
      → ((i x : ℕ) → get_elem? sigma i ≡ some x → x < length k_is * degree)
      → (polys : List (List F)) × (traverse
            (traverse (sigma_value mul degree k_is subgroup))
            (chunks (length sigma) degree sigma)
          ≡ some polys)
        × ((u : Wire) (x : ℕ)
            → u.row < degree
            → u.column < length k_is
            → get_elem? sigma (position degree u) ≡ some x
            → (poly : List F) × (get_elem? polys u.column ≡ some poly)
              × (get_elem? poly u.row ≡ sigma_value mul degree k_is subgroup x))
  chunk_values sigma len below =
      let value = sigma_value mul degree k_is subgroup in
      let row_values = λ (xs : List ℕ) (h : All (λ x. x < length k_is * degree) xs).
        traverse-reads value xs (All-mono xs (λ x lt. sigma_value-some x lt) h) in
      let small =
        All-chunks (λ x. x < length k_is * degree) (length sigma) degree sigma
          (All-get_elem? (λ x. x < length k_is * degree) sigma below) in
      let (polys, run, reads) =
        traverse-reads (traverse value) (chunks (length sigma) degree sigma) (
          All-mono (chunks (length sigma) degree sigma)
            (λ xs h. let (ys, r, _) = row_values xs h in (ys, r)) small) in
      (
        polys,
        run,
        λ u x row column found.
            let scaled : (u.column + 1) * degree ≤ length k_is * degree =
              mul-le-mul_right degree (omega (arith, column)) in
            let xs = take degree (drop (u.column * degree) sigma) in
            let there =
              chunks-get_elem? (length sigma) degree u.column sigma (omega arith) pos
                (omega (arith, scaled, len, pos)) in
            let (poly, made, row_reads) = row_values xs (
              All-take _ degree (drop (u.column * degree) sigma)
                (All-drop _ (u.column * degree) sigma (All-get_elem? _ sigma below))) in
            (
              poly,
              reads u.column xs there ∙ made,
              row_reads u.row x (
                  get_elem?-take (drop (u.column * degree) sigma) degree u.row row
                  ∙ get_elem?-drop sigma (u.column * degree) u.row (position degree u) refl
                  ∙ found),
            ),
      )

-- When `sigma` has a place of a routed wire for each routed wire: `get_sigma_polys` ends without a
-- panic, and at the row of a wire, the polynomial of its column is the product for the wire to which
-- `sigma` leads.
pub get_sigma_polys-values :
    {F : Type 0} (mul : F → F → F) (degree_log degree : ℕ) (k_is subgroup : List F)
    (partition : List (List Wire)) (sigma : List ℕ)
    → degree ≡ 2 ^ degree_log
    → 0 < degree
    → length subgroup ≡ degree
    → get_sigma_map partition degree (length k_is) ≡ some sigma
    → length sigma ≡ length k_is * degree
    → ((i x : ℕ) → get_elem? sigma i ≡ some x → x < length k_is * degree)
    → (polys : List (List F)) × (get_sigma_polys mul partition degree_log k_is subgroup
        ≡ some polys)
      × ((u v : Wire)
          → u.row < degree
          → u.column < length k_is
          → v.row < degree
          → v.column < length k_is
          → get_elem? sigma (position degree u) ≡ some (position degree v)
          → (poly : List F) × (k g : F) × (get_elem? polys u.column ≡ some poly)
            × (get_elem? k_is v.column ≡ some k)
            × (get_elem? subgroup v.row ≡ some g)
            × (get_elem? poly u.row ≡ some (mul k g)))
unfolding get_sigma_polys
get_sigma_polys-values mul degree_log degree k_is subgroup partition sigma power pos full mapped len
      below =
    let (polys, run, values) = chunk_values mul degree k_is subgroup pos full sigma len below in
    (
      polys,
      rw (sym power, mapped) run,
      λ u v ur uc vr vc there.
          let (poly, column, row) = values u (position degree v) ur uc there in
          let (k, g, shift, element, value) =
            sigma_value-position mul degree k_is subgroup pos full v vr vc in
          (poly, k, g, column, shift, element, row ∙ value),
    )
