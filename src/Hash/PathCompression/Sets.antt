-- ===== src/Hash/PathCompression/Sets.antt =====
-- plonky2/src/hash/path_compression.rs: sets of nodes. `Covers a b` is the set with, in each layer
-- `l`, the ancestors of the leaf nodes `a l` and the siblings of the ancestors of the leaf nodes
-- `b l`.
use native.Mathlib.Decide.{ℕ_discrete}
use plonky.Common.{
  ℕ, ◌/◌, ◌^◌, ◌≡◌, ◌≢◌, refl, sym, ap, subst, ◌+◌, All, ◌∙◌, arith, bit_xor, Bool, true, false,
  List, [], ◌∷◌, ◌||◌, ◌==◌, ==_refl, ==_false, if◌then◌else◌,
}

-- The node `x` of layer `j` is an ancestor of one of the leaf nodes.
unfoldable pub above : ℕ → List ℕ → ℕ → Bool
above j [] x = false
above j (n ∷ nodes) x = x == n / 2 ^ j || above j nodes x

-- It is the sibling of one.
unfoldable pub beside : ℕ → List ℕ → ℕ → Bool
beside j [] x = false
beside j (n ∷ nodes) x = x == bit_xor (n / 2 ^ j) 1 || beside j nodes x

abbrev pub Layers : Type 0
Layers = ℕ → List ℕ

unfoldable pub covers : Layers → Layers → ℕ → ℕ → Bool
covers a b l x = above l (a l) x || beside l (b l) x

-- One leaf node more in layer `j`.
abbrev pub push : ℕ → ℕ → Layers → Layers
push j n a l = if l == j then n ∷ a l else a l

pub covers-above :
    (a b : Layers) (j n l x : ℕ)
    → (l ≢ j → x ≢ n / 2 ^ j)
    → covers (push j n a) b l x ≡ (if x == n / 2 ^ j then true else covers a b l x)
unfolding covers above
covers-above a b j n l x apart = ground (arith, apart)

pub covers-beside :
    (a b : Layers) (j n l x : ℕ)
    → (l ≢ j → x ≢ bit_xor (n / 2 ^ j) 1)
    → covers a (push j n b) l x ≡ (if x == bit_xor (n / 2 ^ j) 1 then true else covers a b l x)
unfolding covers beside
covers-beside a b j n l x apart = ground (arith, apart)

-- A leaf node whose ancestor is there already changes nothing.
pub covers-again :
    (a b : Layers) (j n l x : ℕ)
    → (l ≡ j → above j (a j) (n / 2 ^ j) ≡ true)
    → covers (push j n a) b l x ≡ covers a b l x
unfolding covers above
covers-again a b j n l x there = elim (ℕ_discrete l j) [
  | yes same ↦ again same (subst (λ t. above t (a t) (n / 2 ^ t) ≡ true) (sym same) (there same))
  | no other ↦ rw (==_false l j other) refl
]
  where
    again : l ≡ j → above l (a l) (n / 2 ^ l) ≡ true → covers (push j n a) b l x ≡ covers a b l x
    again same known =
        ap (λ c. above l (if c then n ∷ a l else a l) x || beside l (b l) x)
          (ap (λ t. t == j) same ∙ ==_refl j)
        ∙ elim (ℕ_discrete x (n / 2 ^ l)) [
          | yes e ↦ ground (arith, known, ap (above l (a l)) e)
          | no ne ↦ rw (==_false x (n / 2 ^ l) ne) refl
        ]

pub covers-cong :
    (a a' b b' : Layers) (l x : ℕ) → a l ≡ a' l → b l ≡ b' l → covers a b l x ≡ covers a' b' l x
unfolding covers
covers-cong a a' b b' l x p q = rw (p, q) refl

-- The leaf nodes of the indices, the last one first, before those in `nodes`.
unfoldable pub leaf_nodes : ℕ → List ℕ → List ℕ → List ℕ
leaf_nodes num_leaves [] nodes = nodes
leaf_nodes num_leaves (i ∷ indices) nodes = leaf_nodes num_leaves indices ((i + num_leaves) ∷ nodes)

-- The ancestors of a leaf node are in the set.
abbrev pub OnPaths : List ℕ → ℕ → Type 0
OnPaths all n = (l : ℕ) → above l all (n / 2 ^ l) ≡ true

above-cons :
    (n : ℕ) (nodes : List ℕ) (l x : ℕ) → above l nodes x ≡ true → above l (n ∷ nodes) x ≡ true
unfolding above
above-cons n nodes l x there = ground (arith, there)

above_head : (n : ℕ) (nodes : List ℕ) (l : ℕ) → above l (n ∷ nodes) (n / 2 ^ l) ≡ true
unfolding above
above_head n nodes l = rw (==_refl (n / 2 ^ l)) refl

above-leaf_nodes :
    (num_leaves : ℕ) (indices nodes : List ℕ) (l x : ℕ)
    → above l nodes x ≡ true
    → above l (leaf_nodes num_leaves indices nodes) x ≡ true
unfolding leaf_nodes
above-leaf_nodes num_leaves [] nodes l x there = there
above-leaf_nodes num_leaves (i ∷ indices) nodes l x there =
    above-leaf_nodes num_leaves indices ((i + num_leaves) ∷ nodes) l x
      (above-cons (i + num_leaves) nodes l x there)

-- The ancestors of the leaf nodes are in the set of ancestors.
pub leaf_nodes-OnPaths :
    (num_leaves : ℕ) (indices nodes : List ℕ)
    → All (λ i. OnPaths (leaf_nodes num_leaves indices nodes) (i + num_leaves)) indices
unfolding leaf_nodes
leaf_nodes-OnPaths num_leaves [] nodes = tt
leaf_nodes-OnPaths num_leaves (i ∷ indices) nodes = (
  λ l.
      above-leaf_nodes num_leaves indices ((i + num_leaves) ∷ nodes) l _
        (above_head (i + num_leaves) nodes l),
  leaf_nodes-OnPaths num_leaves indices ((i + num_leaves) ∷ nodes),
)

-- The siblings of the ancestors of a leaf node are in the set of siblings.
abbrev pub BesidePaths : List ℕ → ℕ → Type 0
BesidePaths all n = (l : ℕ) → beside l all (bit_xor (n / 2 ^ l) 1) ≡ true

beside-cons :
    (n : ℕ) (nodes : List ℕ) (l x : ℕ) → beside l nodes x ≡ true → beside l (n ∷ nodes) x ≡ true
unfolding beside
beside-cons n nodes l x there = ground (arith, there)

beside_head : (n : ℕ) (nodes : List ℕ) (l : ℕ) → beside l (n ∷ nodes) (bit_xor (n / 2 ^ l) 1) ≡ true
unfolding beside
beside_head n nodes l = rw (==_refl (bit_xor (n / 2 ^ l) 1)) refl

beside-leaf_nodes :
    (num_leaves : ℕ) (indices nodes : List ℕ) (l x : ℕ)
    → beside l nodes x ≡ true
    → beside l (leaf_nodes num_leaves indices nodes) x ≡ true
unfolding leaf_nodes
beside-leaf_nodes num_leaves [] nodes l x there = there
beside-leaf_nodes num_leaves (i ∷ indices) nodes l x there =
    beside-leaf_nodes num_leaves indices ((i + num_leaves) ∷ nodes) l x
      (beside-cons (i + num_leaves) nodes l x there)

pub leaf_nodes-BesidePaths :
    (num_leaves : ℕ) (indices nodes : List ℕ)
    → All (λ i. BesidePaths (leaf_nodes num_leaves indices nodes) (i + num_leaves)) indices
unfolding leaf_nodes
leaf_nodes-BesidePaths num_leaves [] nodes = tt
leaf_nodes-BesidePaths num_leaves (i ∷ indices) nodes = (
  λ l.
      beside-leaf_nodes num_leaves indices ((i + num_leaves) ∷ nodes) l _
        (beside_head (i + num_leaves) nodes l),
  leaf_nodes-BesidePaths num_leaves indices ((i + num_leaves) ∷ nodes),
)
