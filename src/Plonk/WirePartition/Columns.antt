-- ===== src/Plonk/WirePartition/Columns.antt =====
-- plonky2/src/plonk/permutation_argument.rs: the loop of `get_sigma_map` over the columns.
use plonky.Common.{
  ℕ, zero, suc, ◌+◌, ◌*◌, ◌≤◌, ◌<◌, ◌≡◌, refl, sym, ap, ◌∙◌, arith, some, List, [], ◌∷◌, ◌++◌,
  length, get_elem?, length-append, eq_of_some,
}
use plonky.Common.Slices.{get_elem?-append_left, get_elem?-append_right}
use plonky.Plonk.PermutationArgument.{Wire}
use plonky.Plonk.WirePartition.{range, wire_at, Neighbors, sigma_column, sigma_columns}

-- The place of a wire in `sigma`.
abbrev pub position : ℕ → Wire → ℕ
position degree w = w.column * degree + w.row

module _ (neighbors : Neighbors) (degree : ℕ) where
  sigma_column-reads :
      (left row column : ℕ)
      → ((r : ℕ) → row ≤ r → r < row + left → (v : Wire) × (neighbors (wire_at r column) ≡ some v))
      → (vs : List ℕ) × (sigma_column neighbors degree column (range left row) ≡ some vs)
        × (length vs ≡ left)
        × ((i : ℕ) (v : Wire)
            → i < left
            → neighbors (wire_at (row + i) column) ≡ some v
            → get_elem? vs i ≡ some (position degree v))
  unfolding sigma_column
  sigma_column-reads zero row column h = ([], refl, refl, λ i v lt. absurd (omega (arith, lt)))
  sigma_column-reads (suc left) row column h =
      let (v, found) = h row (omega arith) (omega arith) in
      let (vs, run, len, reads) =
        sigma_column-reads left (suc row) column
          (λ r low high. h r (omega (arith, low)) (omega (arith, high))) in
      (
        position degree v ∷ vs,
        rw (found, run) refl,
        ap suc len,
        λ i u lt there. at i u lt there v found vs reads,
      )
    where
      at :
          (i : ℕ) (u : Wire)
          → i < suc left
          → neighbors (wire_at (row + i) column) ≡ some u
          → (v : Wire) → neighbors (wire_at row column) ≡ some v
          → (vs : List ℕ)
          → ((i : ℕ) (v : Wire)
              → i < left
              → neighbors (wire_at (suc row + i) column) ≡ some v
              → get_elem? vs i ≡ some (position degree v))
          → get_elem? (position degree v ∷ vs) i ≡ some (position degree u)
      at zero u lt there v found vs reads =
          let here : row + 0 ≡ row = omega arith in
          ap (λ w. some (position degree w))
            (eq_of_some (sym found ∙ ap (λ t. neighbors (wire_at t column)) (sym here) ∙ there))
      at (suc i) u lt there v found vs reads =
          reads i u (omega arith)
            (ap (λ t. neighbors (wire_at t column)) {x = suc row + i} (omega arith) ∙ there)

  pub sigma_columns-reads :
      (left column : ℕ)
      → ((c r : ℕ)
          → column ≤ c
          → c < column + left
          → r < degree
          → (v : Wire) × (neighbors (wire_at r c) ≡ some v))
      → (vs : List ℕ) × (sigma_columns neighbors degree (range left column) ≡ some vs)
        × (length vs ≡ left * degree)
        × ((i r : ℕ) (v : Wire)
            → i < left
            → r < degree
            → neighbors (wire_at r (column + i)) ≡ some v
            → get_elem? vs (i * degree + r) ≡ some (position degree v))
  unfolding sigma_columns
  sigma_columns-reads zero column h =
      ([], refl, omega arith, λ i r v lt. absurd (omega (arith, lt)))
  sigma_columns-reads (suc left) column h =
      let (first, run1, len1, reads1) =
        sigma_column-reads degree 0 column
          (λ r low high. h column r (omega arith) (omega arith) (omega (arith, high))) in
      let (rest, run2, len2, reads2) =
        sigma_columns-reads left (suc column)
          (λ c r low high. h c r (omega (arith, low)) (omega (arith, high))) in
      (
        first ++ rest,
        rw (run1, run2) refl,
        omega (arith, len1, len2, length-append first rest),
        λ i r v lt below there. at i r v lt below there first rest len1 reads1 reads2,
      )
    where
      at :
          (i r : ℕ) (v : Wire)
          → i < suc left
          → r < degree
          → neighbors (wire_at r (column + i)) ≡ some v
          → (first rest : List ℕ) → length first ≡ degree
          → ((i : ℕ) (v : Wire)
              → i < degree
              → neighbors (wire_at (0 + i) column) ≡ some v
              → get_elem? first i ≡ some (position degree v))
          → ((i r : ℕ) (v : Wire)
              → i < left
              → r < degree
              → neighbors (wire_at r (suc column + i)) ≡ some v
              → get_elem? rest (i * degree + r) ≡ some (position degree v))
          → get_elem? (first ++ rest) (i * degree + r) ≡ some (position degree v)
      at zero r v lt below there first rest len reads1 reads2 =
          ap (get_elem? (first ++ rest)) {x = 0 * degree + r} {y = r} (omega arith)
          ∙ get_elem?-append_left first rest r (omega (arith, len, below))
          ∙ reads1 r v below (
              ap (λ s. neighbors (wire_at s column)) {x = 0 + r} {y = r} (omega arith)
              ∙ ap (λ t. neighbors (wire_at r t)) {x = column} {y = column + 0} (omega arith)
              ∙ there)
      at (suc i) r v lt below there first rest len reads1 reads2 =
          get_elem?-append_right first rest degree (suc i * degree + r) (i * degree + r) len
            (omega arith)
          ∙ reads2 i r v (omega arith) below
              (ap (λ t. neighbors (wire_at r t)) {x = suc column + i} (omega arith) ∙ there)
