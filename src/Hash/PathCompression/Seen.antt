-- ===== src/Hash/PathCompression/Seen.antt =====
-- plonky2/src/hash/path_compression.rs: the map of the seen nodes as a set of nodes. `val l x` is the digest of the node `x` of layer `l`.
use native.Mathlib.Decide.{ℕ_discrete}
use plonky.Common.{
  ℕ, suc, ◌/◌, ◌^◌, ◌≤◌, ◌<◌, ◌≡◌, ◌≢◌, sym, ap, ap₂, subst, ◌∙◌, arith, bit_xor, Bool, true, none,
  some, List, [], ◌∷◌, ltb, ◌==◌, if◌then◌else◌, ==_refl, ==_false,
}
use plonky.Hash.Merkle.{Hasher}
use plonky.Hash.PathCompression.{Seen, see}
use plonky.Hash.PathCompression.Nodes.{
  IsDeep, InLayer, ancestor-InLayer, sibling-InLayer, layer_unique,
}
use plonky.Hash.PathCompression.Sets.{
  Layers, covers, push, covers-above, covers-beside, covers-cong,
}

-- `all` in the layers below `j`, `nodes` in layer `j`, nothing above.
abbrev pub at_layer : List ℕ → ℕ → List ℕ → Layers
at_layer all j nodes l = if ltb l j then all else if l == j then nodes else []

pub push-at_layer :
    (all : List ℕ) (j n l : ℕ) (nodes : List ℕ)
    → push j n (at_layer all j nodes) l ≡ at_layer all j (n ∷ nodes) l
push-at_layer all j n l nodes = ground arith

pub at_layer_next : (all : List ℕ) (j l : ℕ) → at_layer all j all l ≡ at_layer all (suc j) [] l
at_layer_next all j l = ground arith

pub at_layer_below :
    (all : List ℕ) (j l : ℕ) (nodes : List ℕ) → l < j → at_layer all j nodes l ≡ all
at_layer_below all j l nodes lt = ground arith

pub at_layer_self : (all : List ℕ) (j : ℕ) (nodes : List ℕ) → at_layer all j nodes j ≡ nodes
at_layer_self all j nodes = ground arith

pub at_layer_none : (all : List ℕ) (l : ℕ) → at_layer all 0 [] l ≡ []
at_layer_none all l = ground arith

see_again :
    {H : Type 0} (seen : Seen H) (x y : ℕ) (v : H) → seen y ≡ some v → seen x ≡ see y v seen x
unfolding see
see_again seen x y v there = elim (ℕ_discrete x y) [
  | yes same ↦
      ap seen same
      ∙ there
      ∙ sym (ap (λ c. if c then some v else seen x) (ap (λ t. t == y) same ∙ ==_refl y))
  | no other ↦ sym (ap (λ c. if c then some v else seen x) (==_false x y other))
]

module _ {F H : Type 0} (hs : Hasher F H) (h m : ℕ) (le : m ≤ h) (val : ℕ → ℕ → H) where
  -- The map holds the digests of the nodes in the set.
  abbrev pub Sees : Seen H → Layers → Layers → Type 0
  Sees seen a b =
      (l x : ℕ) → l ≤ m → InLayer h l x → seen x ≡ (if covers a b l x then some (val l x) else none)

  pub Sees-cong :
      (seen : Seen H) (a a' b b' : Layers)
      → ((l : ℕ) → a l ≡ a' l)
      → ((l : ℕ) → b l ≡ b' l)
      → Sees seen a b
      → Sees seen a' b'
  Sees-cong seen a a' b b' p q held l x lt deep =
      held l x lt deep
      ∙ ap (λ c. if c then some (val l x) else none) (covers-cong a a' b b' l x (p l) (q l))

  apart : (j l x y : ℕ) → j ≤ m → l ≤ m → InLayer h j y → InLayer h l x → l ≢ j → x ≢ y
  apart j l x y p q a b ne e =
      ne (layer_unique h l j x (omega arith) (omega arith) b (subst (InLayer h j) (sym e) a))

  -- A node of layer `j` is added with its digest.
  see_node :
      (seen : Seen H) (j l x y : ℕ) (c c' : Bool)
      → j ≤ m
      → l ≤ m
      → InLayer h j y
      → InLayer h l x
      → seen x ≡ (if c then some (val l x) else none)
      → c' ≡ (if x == y then true else c)
      → see y (val j y) seen x ≡ (if c' then some (val l x) else none)
  unfolding see
  see_node seen j l x y c c' p q a b held e = elim (ℕ_discrete x y) [
    | yes same ↦
        let test : (x == y) ≡ true = ap (λ t. t == y) same ∙ ==_refl y in
        let layer : j ≡ l =
          layer_unique h j l x (omega arith) (omega arith) (subst (InLayer h j) (sym same) a) b in
        rw (test, e ∙ ap (λ t. if t then true else c) test) (ap some (ap₂ val layer (sym same)))
    | no other ↦
        let test = ==_false x y other in rw (test, e ∙ ap (λ t. if t then true else c) test) held
  ]

  pub Sees-above :
      (seen : Seen H) (a b : Layers) (j n : ℕ)
      → j ≤ m
      → IsDeep h n
      → Sees seen a b
      → Sees (see (n / 2 ^ j) (val j (n / 2 ^ j)) seen) (push j n a) b
  Sees-above seen a b j n jm deep held l x lt x_deep =
      let y_deep = ancestor-InLayer h j n (omega arith) deep in
      see_node seen j l x (n / 2 ^ j) (covers a b l x) _ jm lt y_deep x_deep (held l x lt x_deep)
        (covers-above a b j n l x (apart j l x (n / 2 ^ j) jm lt y_deep x_deep))

  pub Sees-beside :
      (seen : Seen H) (a b : Layers) (j n : ℕ)
      → j < m
      → IsDeep h n
      → Sees seen a b
      → Sees (see (bit_xor (n / 2 ^ j) 1) (val j (bit_xor (n / 2 ^ j) 1)) seen) a (push j n b)
  Sees-beside seen a b j n jm deep held l x lt x_deep =
      let y = bit_xor (n / 2 ^ j) 1 in
      let y_deep =
        sibling-InLayer h j (n / 2 ^ j) (omega arith) (ancestor-InLayer h j n (omega arith) deep) in
      see_node seen j l x y (covers a b l x) _ (omega arith) lt y_deep x_deep (held l x lt x_deep)
        (covers-beside a b j n l x (apart j l x y (omega arith) lt y_deep x_deep))

  -- A sibling that is there already.
  pub Sees-beside_again :
      (seen : Seen H) (a b : Layers) (j n : ℕ)
      → j < m
      → IsDeep h n
      → seen (bit_xor (n / 2 ^ j) 1) ≡ some (val j (bit_xor (n / 2 ^ j) 1))
      → Sees seen a b
      → Sees seen a (push j n b)
  Sees-beside_again seen a b j n jm deep there held l x lt x_deep =
      see_again seen x (bit_xor (n / 2 ^ j) 1) (val j (bit_xor (n / 2 ^ j) 1)) there
      ∙ Sees-beside seen a b j n jm deep held l x lt x_deep
