-- ===== src/Hash/PathCompression/Layers.antt =====
-- plonky2/src/hash/path_compression.rs the digests of a Merkle tree by layer and node.
use native.Mathlib.Decide.{ℕ_discrete}
use native.Mathlib.Nat.{pow-succ', mul-le-mul_right}
use plonky.Common.{
  ℕ, zero, suc, ◌+◌, ◌-◌, ◌*◌, ◌/◌, ◌%◌, ◌^◌, ◌≤◌, ◌<◌, ◌≡◌, refl, sym, ap, ap₂, ◌∙◌, arith,
  bit_xor, List, ◌∷◌, take, drop, ◌==◌, ==_false, if◌then◌else◌,
}
use plonky.Common.Bits.{bit_and-one}
use plonky.Common.Modular.{pow-add}
use plonky.Hash.Merkle.{Hasher}
use plonky.Hash.Merkle.Spec.{block}
use plonky.Hash.Merkle.Layout.{block-take, block-drop}
use plonky.Hash.Merkle.Path.{sibling, block-suc, beside_path}
use plonky.Hash.PathCompression.{parent}
use plonky.Hash.PathCompression.Nodes.{InLayer, ancestor_next, bit_xor_step}
use plonky.Hash.PathCompression.Decompress.{path}

module _ {F H : Type 0} (hs : Hasher F H) (h : ℕ) (ls : List (List F)) where
  -- The digest of the node `x` of layer `l`.
  unfoldable pub node_digest : ℕ → ℕ → H
  node_digest l x = block hs ls l (x - 2 ^ (h - l))

  pub node_digest-parent :
      (l x : ℕ)
      → l < h
      → InLayer h l x
      → parent hs x (node_digest l x) (node_digest l (bit_xor x 1)) ≡ node_digest (suc l) (x / 2)
  unfolding node_digest
  node_digest-parent l x lt (a, b) = elim (ℕ_discrete (x % 2) 0) [
    | yes even ↦
        ap
          (λ c.
            if c
            then two (block hs ls l (x - top)) (block hs ls l (bit_xor x 1 - top))
            else two (block hs ls l (bit_xor x 1 - top)) (block hs ls l (x - top)))
          (ap (λ t. t == 0) even)
        ∙ ap₂ (λ s t. two (block hs ls l s) (block hs ls l t)) (omega (arith, a, b, even, half))
            (omega (arith, a, b, even, half, bit_xor_step x))
        ∙ sym (block-suc hs ls l m)
    | no odd ↦
        ap
          (λ c.
            if c
            then two (block hs ls l (x - top)) (block hs ls l (bit_xor x 1 - top))
            else two (block hs ls l (bit_xor x 1 - top)) (block hs ls l (x - top)))
          (==_false (x % 2) 0 odd)
        ∙ ap₂ (λ s t. two (block hs ls l s) (block hs ls l t))
            (omega (arith, a, b, odd, half, bit_xor_step x)) (omega (arith, a, b, odd, half))
        ∙ sym (block-suc hs ls l m)
  ]
    where
      two : H → H → H
      two = hs.two_to_one

      top : ℕ
      top = 2 ^ (h - l)

      m : ℕ
      m = x / 2 - 2 ^ (h - suc l)

      half : 2 ^ (h - l) ≡ 2 * 2 ^ (h - suc l)
      half =
          ap (λ (t : ℕ). 2 ^ t) {x = h - l} {y = suc (h - suc l)} (omega arith)
          ∙ pow-succ' 2 (h - suc l)

  -- Nodes of a subtree of height `m`, the one number `q`.
  block-subtree :
      (m q left l k : ℕ)
      → l + left ≡ m
      → k < 2 ^ left
      → block hs (take (2 ^ m) (drop (q * 2 ^ m) ls)) l k ≡ block hs ls l (q * 2 ^ left + k)
  block-subtree m q left l k e lt =
      block-take hs (drop (q * 2 ^ m) ls) l k (2 ^ m) (omega (arith, scaled, size))
      ∙ block-drop hs ls l k (q * 2 ^ m) (q * 2 ^ left + k)
          (omega (arith, ap (λ (t : ℕ). q * t) size))
    where
      size : 2 ^ m ≡ 2 ^ left * 2 ^ l
      size = ap (λ (t : ℕ). 2 ^ t) {x = m} {y = left + l} (omega (arith, e)) ∙ pow-add 2 left l

      scaled : suc k * 2 ^ l ≤ 2 ^ left * 2 ^ l
      scaled = mul-le-mul_right (2 ^ l) lt

  -- The siblings that `prove` reads in the subtree number `q` are those of the path.
  pub beside_path-path :
      (m c q left l pair p n : ℕ)
      → c + m ≡ h
      → l + left ≡ m
      → pair < 2 ^ left
      → p ≡ q * 2 ^ left + pair
      → n / 2 ^ l ≡ 2 ^ (c + left) + p
      → beside_path hs left l pair (take (2 ^ m) (drop (q * 2 ^ m) ls)) ≡ path node_digest left l n
  unfolding beside_path path node_digest
  beside_path-path m c q zero l pair p n e el lt ep en = refl
  beside_path-path m c q (suc left) l pair p n e el lt ep en = ap₂ ◌∷◌ head (
      ap (λ t. beside_path hs left t (pair / 2) (take (2 ^ m) (drop (q * 2 ^ m) ls))) {x = l + 1}
        {y = suc l} (omega arith)
      ∙ beside_path-path m c q left (suc l) (pair / 2) (p / 2) n e (omega arith)
          (omega (arith, even)) (omega (arith, q_even, ep))
          (sym (ancestor_next n l) ∙ omega (arith, en, top_even)))
    where
      even : 2 ^ suc left ≡ 2 * 2 ^ left
      even = pow-succ' 2 left

      q_even : q * 2 ^ suc left ≡ 2 * (q * 2 ^ left)
      q_even = omega (arith, ap (λ (t : ℕ). q * t) even)

      top_even : 2 ^ (c + suc left) ≡ 2 * 2 ^ (c + left)
      top_even =
          ap (λ (t : ℕ). 2 ^ t) {x = c + suc left} {y = suc (c + left)} (omega arith)
          ∙ pow-succ' 2 (c + left)

      depth : 2 ^ (h - l) ≡ 2 ^ (c + suc left)
      depth = ap (λ (t : ℕ). 2 ^ t) {x = h - l} {y = c + suc left} (omega (arith, e, el))

      head :
          block hs (take (2 ^ m) (drop (q * 2 ^ m) ls)) l (sibling hs pair)
          ≡ node_digest l (bit_xor (n / 2 ^ l) 1)
      head =
          block-subtree m q (suc left) l (sibling hs pair) el
            (omega (arith, even, bit_and-one pair, lt))
          ∙ ap (block hs ls l) (
              omega (
                arith,
                bit_and-one pair,
                bit_xor_step (n / 2 ^ l),
                en,
                ep,
                q_even,
                top_even,
                depth,
              ))
