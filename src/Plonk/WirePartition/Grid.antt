-- ===== src/Plonk/WirePartition/Grid.antt =====
-- plonky2/src/plonk/permutation_argument.rs: the routed wires, each once.
use native.Mathlib.Decide.{ℕ_discrete}
use plonky.Common.{
  ℕ, zero, suc, ◌+◌, ◌≤◌, ◌<◌, ◌≡◌, refl, sym, ap, ap₂, ◌∙◌, arith, ◌⊎◌, inl, inr, some, List, [],
  ◌∷◌, ◌++◌, get_elem?, eq_of_some,
}
use plonky.Plonk.PermutationArgument.{Wire}
use plonky.Plonk.WirePartition.{range, wire_at, row_wires, grid}

abbrev pub In : Wire → List Wire → Type 0
In w [] = ⊥
In w (x ∷ xs) = (x ≡ w) ⊎ In w xs

abbrev pub Distinct : List Wire → Type 0
Distinct [] = Unit
Distinct (x ∷ xs) = (In x xs → ⊥) × Distinct xs

pub In-append : (w : Wire) (xs ys : List Wire) → In w xs ⊎ In w ys → In w (xs ++ ys)
In-append w [] ys (inl h) = absurd h
In-append w [] ys (inr h) = h
In-append w (x ∷ xs) ys (inl (inl e)) = inl e
In-append w (x ∷ xs) ys (inl (inr h)) = inr (In-append w xs ys (inl h))
In-append w (x ∷ xs) ys (inr h) = inr (In-append w xs ys (inr h))

append-In : (w : Wire) (xs ys : List Wire) → In w (xs ++ ys) → In w xs ⊎ In w ys
append-In w [] ys h = inr h
append-In w (x ∷ xs) ys (inl e) = inl (inl e)
append-In w (x ∷ xs) ys (inr h) = elim (append-In w xs ys h) [ inl a ↦ inl (inr a) | inr b ↦ inr b ]

append-Distinct :
    (xs ys : List Wire)
    → Distinct xs
    → Distinct ys
    → ((w : Wire) → In w xs → In w ys → ⊥)
    → Distinct (xs ++ ys)
append-Distinct [] ys p q apart = q
append-Distinct (x ∷ xs) ys (fresh, p) q apart = (
  λ h. elim (append-In x xs ys h) [ inl a ↦ fresh a | inr b ↦ apart x (inl refl) b ],
  append-Distinct xs ys p q (λ w a b. apart w (inr a) b),
)

-- The place of an element.
pub In-get_elem? : (w : Wire) (xs : List Wire) → In w xs → (i : ℕ) × (get_elem? xs i ≡ some w)
In-get_elem? w [] h = absurd h
In-get_elem? w (x ∷ xs) (inl e) = (0, ap some e)
In-get_elem? w (x ∷ xs) (inr h) = let (i, e) = In-get_elem? w xs h in (suc i, e)

pub get_elem?-In : (w : Wire) (xs : List Wire) (i : ℕ) → get_elem? xs i ≡ some w → In w xs
get_elem?-In w [] i e = cc
get_elem?-In w (x ∷ xs) zero e = inl (eq_of_some e)
get_elem?-In w (x ∷ xs) (suc i) e = inr (get_elem?-In w xs i e)

pub Distinct-get_elem? :
    (xs : List Wire) (i j : ℕ) (w : Wire)
    → Distinct xs
    → get_elem? xs i ≡ some w
    → get_elem? xs j ≡ some w
    → i ≡ j
Distinct-get_elem? [] i j w d p q = cc
Distinct-get_elem? (x ∷ xs) zero zero w d p q = refl
Distinct-get_elem? (x ∷ xs) zero (suc j) w d p q = absurd (d.0 (get_elem?-In x xs j (q ∙ sym p)))
Distinct-get_elem? (x ∷ xs) (suc i) zero w d p q = absurd (d.0 (get_elem?-In x xs i (p ∙ sym q)))
Distinct-get_elem? (x ∷ xs) (suc i) (suc j) w d p q = ap suc (Distinct-get_elem? xs i j w d.1 p q)

-- The wires of a row, from a column on.
row_wires-In :
    (row left column : ℕ) (w : Wire)
    → In w (row_wires row (range left column))
    → (w.row ≡ row) × (column ≤ w.column) × (w.column < column + left)
unfolding row_wires
row_wires-In row zero column w h = absurd h
row_wires-In row (suc left) column w (inl e) = (
  sym (ap (λ u. u.row) e),
  omega (arith, ap (λ u. u.column) e),
  omega (arith, ap (λ u. u.column) e),
)
row_wires-In row (suc left) column w (inr h) =
    let (r, low, high) = row_wires-In row left (suc column) w h in
    (r, omega (arith, low), omega (arith, high))

In-row_wires :
    (row left column : ℕ) (w : Wire)
    → w.row ≡ row
    → column ≤ w.column
    → w.column < column + left
    → In w (row_wires row (range left column))
unfolding row_wires
In-row_wires row zero column w r low high = absurd (omega arith)
In-row_wires row (suc left) column w r low high = elim (ℕ_discrete column w.column) [
  | yes here ↦ inl (ap₂ wire_at (sym r) here)
  | no later ↦ inr (In-row_wires row left (suc column) w r (omega arith) (omega arith))
]

row_wires-Distinct : (row left column : ℕ) → Distinct (row_wires row (range left column))
unfolding row_wires
row_wires-Distinct row zero column = tt
row_wires-Distinct row (suc left) column = (
  λ h. absurd (omega (arith, (row_wires-In row left (suc column) (wire_at row column) h).1)),
  row_wires-Distinct row left (suc column),
)

pub grid-In :
    (left row columns : ℕ) (w : Wire)
    → In w (grid (range left row) (range columns 0))
    → (row ≤ w.row) × (w.row < row + left) × (w.column < columns)
unfolding grid
grid-In zero row columns w h = absurd h
grid-In (suc left) row columns w h = elim (append-In w (row_wires row (range columns 0)) _ h) [
  | inl a ↦
      let (r, _, high) = row_wires-In row columns 0 w a in
      (omega (arith, r), omega (arith, r), omega (arith, high))
  | inr b ↦
      let (low, high, col) = grid-In left (suc row) columns w b in
      (omega (arith, low), omega (arith, high), col)
]

pub In-grid :
    (left row columns : ℕ) (w : Wire)
    → row ≤ w.row
    → w.row < row + left
    → w.column < columns
    → In w (grid (range left row) (range columns 0))
unfolding grid
In-grid zero row columns w low high col = absurd (omega arith)
In-grid (suc left) row columns w low high col = elim (ℕ_discrete w.row row) [
  | yes here ↦
      In-append w (row_wires row (range columns 0)) _
        (inl (In-row_wires row columns 0 w here (omega arith) (omega arith)))
  | no later ↦
      In-append w (row_wires row (range columns 0)) _
        (inr (In-grid left (suc row) columns w (omega arith) (omega arith) col))
]

pub grid-Distinct : (left row columns : ℕ) → Distinct (grid (range left row) (range columns 0))
unfolding grid
grid-Distinct zero row columns = tt
grid-Distinct (suc left) row columns =
    append-Distinct _ _ (row_wires-Distinct row columns 0) (grid-Distinct left (suc row) columns)
      λ w a b.
        absurd (
          omega (arith, (row_wires-In row columns 0 w a).0, (grid-In left (suc row) columns w b).0))
