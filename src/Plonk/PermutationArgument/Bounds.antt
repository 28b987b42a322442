-- ===== src/Plonk/PermutationArgument/Bounds.antt =====
-- plonky2/src/plonk/permutation_argument.rs: a chain has fewer steps than the forest has nodes.
use native.Mathlib.Decide.{ℕ_discrete}
use plonky.Common.{
  ℕ, zero, suc, ◌≤◌, ◌<◌, ◌≡◌, ◌≢◌, refl, sym, ap, subst, ◌∙◌, arith, List, [], ◌∷◌, All, length,
  ◌==◌, ==_refl, ==_false, if◌then◌else◌, eq_of_some,
}
use plonky.Plonk.PermutationArgument.Chains.{Chain, at_root, up, in_range}

-- No number twice.
abbrev pub Distinct : List ℕ → Type 0
Distinct [] = Unit
Distinct (x ∷ xs) = All (λ y. x ≢ y) xs × Distinct xs

remove : ℕ → List ℕ → List ℕ
remove k [] = []
remove k (x ∷ xs) = if x == k then xs else x ∷ remove k xs

length-remove : (k : ℕ) (xs : List ℕ) → length xs ≤ suc (length (remove k xs))
unfolding remove
length-remove k [] = omega arith
length-remove k (x ∷ xs) = ground (arith, length-remove k xs)

All-remove : (P : ℕ → Type 0) (k : ℕ) (xs : List ℕ) → All P xs → All P (remove k xs)
unfolding remove
All-remove P k [] h = tt
All-remove P k (x ∷ xs) (p, h) = elim (ℕ_discrete x k) [
  | yes same ↦ rw (same, ==_refl k) h
  | no other ↦ rw (==_false x k other) (p, All-remove P k xs h)
]

-- What is left of distinct numbers below `suc n` without `n`.
remove-below :
    (n : ℕ) (xs : List ℕ)
    → All (λ x. x < suc n) xs
    → Distinct xs
    → All (λ x. x < n) (remove n xs) × Distinct (remove n xs)
unfolding remove
remove-below n [] h d = (tt, tt)
remove-below n (x ∷ xs) (lt, h) (fresh, d) = elim (ℕ_discrete x n) [
  | yes same ↦ rw (same, ==_refl n) (strict xs h (subst (λ t. All (λ y. t ≢ y) xs) same fresh), d)
  | no other ↦
      let (below, d') = remove-below n xs h d in
      rw (==_false x n other) ((omega arith, below), (All-remove (λ y. x ≢ y) n xs fresh, d'))
]
  where
    strict : (ys : List ℕ) → All (λ y. y < suc n) ys → All (λ y. n ≢ y) ys → All (λ y. y < n) ys
    strict [] h ne = tt
    strict (y ∷ ys) (lt, h) (ne, nes) = (omega (arith, lt, ne), strict ys h nes)

-- There are at most `n` distinct numbers below `n`.
length-le_of_Distinct : (n : ℕ) (xs : List ℕ) → All (λ x. x < n) xs → Distinct xs → length xs ≤ n
length-le_of_Distinct zero [] h d = omega arith
length-le_of_Distinct zero (x ∷ xs) (lt, h) d = absurd (omega arith)
length-le_of_Distinct (suc n) xs h d =
    let (h', d') = remove-below n xs h d in
    omega (arith, length-remove n xs, length-le_of_Distinct n (remove n xs) h' d')

steps_unique : (ps : List ℕ) {d e x r s : ℕ} → Chain ps d x r → Chain ps e x s → d ≡ e
steps_unique ps (at_root e) (at_root e') = refl
steps_unique ps (at_root e) (up e' ne c) = absurd (ne (eq_of_some (sym e' ∙ e)))
steps_unique ps (up e ne c) (at_root e') = absurd (ne (eq_of_some (sym e ∙ e')))
steps_unique ps {s = s} (up e ne c) (up {d = d'} e' ne' c') =
    ap suc (steps_unique ps c (subst (λ t. Chain ps d' t s) (eq_of_some (sym e' ∙ e)) c'))

-- The nodes of a chain.
nodes : (ps : List ℕ) {d x r : ℕ} → Chain ps d x r → List ℕ
nodes ps {x = x} (at_root e) = x ∷ []
nodes ps {x = x} (up e ne c) = x ∷ nodes ps c

length-nodes : (ps : List ℕ) {d x r : ℕ} (c : Chain ps d x r) → length (nodes ps c) ≡ suc d
unfolding nodes
length-nodes ps (at_root e) = refl
length-nodes ps (up e ne c) = ap suc (length-nodes ps c)

nodes-below : (ps : List ℕ) {d x r : ℕ} (c : Chain ps d x r) → All (λ y. y < length ps) (nodes ps c)
unfolding nodes
nodes-below ps {x = x} (at_root e) = (in_range ps x e, tt)
nodes-below ps {x = x} (up e ne c) = (in_range ps x e, nodes-below ps c)

differ : (ps : List ℕ) {d e x y r s : ℕ} → d < e → Chain ps e y s → Chain ps d x r → y ≢ x
differ ps {e = e} {s = s} lt k c same =
    absurd (omega (arith, lt, steps_unique ps c (subst (λ t. Chain ps e t s) same k)))

-- A node from which more steps lead up is not on the chain.
nodes-fresh :
    (ps : List ℕ) {d e x y r s : ℕ} (c : Chain ps d x r)
    → d < e
    → Chain ps e y s
    → All (λ z. y ≢ z) (nodes ps c)
unfolding nodes
nodes-fresh ps (at_root h) lt k = (differ ps lt k (at_root h), tt)
nodes-fresh ps (up h ne c) lt k = (differ ps lt k (up h ne c), nodes-fresh ps c (omega arith) k)

nodes-Distinct : (ps : List ℕ) {d x r : ℕ} (c : Chain ps d x r) → Distinct (nodes ps c)
unfolding nodes
nodes-Distinct ps (at_root e) = (tt, tt)
nodes-Distinct ps (up e ne c) = (nodes-fresh ps c (omega arith) (up e ne c), nodes-Distinct ps c)

-- Every chain is shorter than the forest.
pub Chain-bound : (ps : List ℕ) {d x r : ℕ} → Chain ps d x r → d < length ps
Chain-bound ps c = omega (
  arith,
  length-nodes ps c,
  length-le_of_Distinct (length ps) (nodes ps c) (nodes-below ps c) (nodes-Distinct ps c),
)
