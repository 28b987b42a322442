-- ===== src/Hash/Merkle/Path.antt =====
-- Within one subtree: the siblings that `prove` reads lead `climb` from a leaf to the root.
use native.Mathlib.Nat.{pow-suc, pow-succ', one-le-pow, mod-lt, div-div-eq-div-mul}
use plonky.Common.{
  ℕ, zero, suc, ◌+◌, ◌-◌, ◌*◌, ◌/◌, ◌%◌, ◌^◌, ◌≡◌, refl, sym, ap, ap₂, ◌∙◌, arith, some, List, [],
  ◌∷◌, length, take, drop, get_elem?, bit_and, if◌then◌else◌, ◌==◌,
}
use plonky.Common.Bits.{bit_and-one, mod_double}
use plonky.Common.Slices.{take-take, drop-take, drop-drop}
use native.Mathlib.Decide.{ℕ_discrete}
use plonky.Hash.Merkle.{Hasher, siblings_from, climb}
use plonky.Hash.Merkle.Spec.{root, digests_of, block}
use plonky.Hash.Merkle.Layout.{position, get_elem?-position}

module _ {F H : Type 0} (hs : Hasher F H) where
  -- A node is made of its two children.
  pub block-suc :
      (ls : List (List F)) (i m : ℕ)
      → block hs ls (suc i) m ≡ hs.two_to_one (block hs ls i (2 * m)) (block hs ls i (2 * m + 1))
  unfolding block root
  block-suc ls i m =
      let two : 2 ^ i + 2 ^ i ≡ 2 ^ suc i = omega (arith, pow-suc 2 i) in
      let start : m * 2 ^ suc i ≡ 2 * m * 2 ^ i =
        omega (arith, ap (λ (t : ℕ). m * t) (pow-suc 2 i)) in
      let next : m * 2 ^ suc i + 2 ^ i ≡ (2 * m + 1) * 2 ^ i = omega (arith, start) in
      ap₂ hs.two_to_one
        (ap (root hs i) (
          take-take (2 ^ i) (2 ^ suc i) (drop (m * 2 ^ suc i) ls) (omega arith)
          ∙ ap (λ (t : ℕ). take (2 ^ i) (drop t ls)) start))
        (ap (root hs i) (
          drop-take (2 ^ i) (2 ^ i) (2 ^ suc i) (drop (m * 2 ^ suc i) ls) two
          ∙ ap (take (2 ^ i)) (drop-drop (2 ^ i) (m * 2 ^ suc i) ((2 * m + 1) * 2 ^ i) ls next)))

  -- The number of a node's sibling.
  abbrev pub sibling : ℕ → ℕ
  sibling pair = 2 * (pair / 2) + (1 - bit_and pair 1)

  -- One round of `climb`, at a node and its sibling.
  climb_step :
      (ls : List (List F)) (i pair index : ℕ)
      → index % 2 ≡ pair % 2
      → (if bit_and index 1 == 1
          then hs.two_to_one (block hs ls i (sibling pair)) (block hs ls i pair)
          else hs.two_to_one (block hs ls i pair) (block hs ls i (sibling pair)))
        ≡ block hs ls (i + 1) (pair / 2)
  climb_step ls i pair index e = elim (ℕ_discrete (pair % 2) 1) [
    | yes odd ↦
        let bit : bit_and index 1 ≡ 1 = omega (arith, bit_and-one index) in
        let left : sibling pair ≡ 2 * (pair / 2) = omega (arith, bit_and-one pair) in
        let right : pair ≡ 2 * (pair / 2) + 1 = omega arith in rw bit (merge left right)
    | no even ↦
        let bit : bit_and index 1 ≡ 0 = omega (arith, bit_and-one index) in
        let left : pair ≡ 2 * (pair / 2) = omega arith in
        let right : sibling pair ≡ 2 * (pair / 2) + 1 = omega (arith, bit_and-one pair) in
        rw bit (merge left right)
  ]
    where
      merge :
          {m n : ℕ}
          → m ≡ 2 * (pair / 2)
          → n ≡ 2 * (pair / 2) + 1
          → hs.two_to_one (block hs ls i m) (block hs ls i n) ≡ block hs ls (i + 1) (pair / 2)
      merge p q =
          ap₂ (λ s t. hs.two_to_one (block hs ls i s) (block hs ls i t)) p q
          ∙ sym (block-suc ls i (pair / 2))
          ∙ ap (λ k. block hs ls k (pair / 2)) (omega arith)

  -- The digests of the siblings from layer `i` on.
  unfoldable pub beside_path : ℕ → ℕ → ℕ → List (List F) → List H
  beside_path zero i pair ls = []
  beside_path (suc left) i pair ls =
      block hs ls i (sibling pair) ∷ beside_path left (i + 1) (pair / 2) ls

  -- `prove` from layer `i` on reads `left` siblings, and `climb` over them goes from the node
  -- `pair` of layer `i` to the root.
  pub record IsPath (h left i pair index : ℕ) (ls : List (List F)) : Type 0 where
    pub siblings : List H
    pub reads : siblings_from left i pair (digests_of hs h ls) ≡ some siblings
    pub same : siblings ≡ beside_path left i pair ls
    pub long : length siblings ≡ left
    pub climbs :
        climb hs.two_to_one index (block hs ls i pair) siblings
        ≡ (index / 2 ^ left, block hs ls h 0)

  pub siblings_from-IsPath :
      (left i h pair index : ℕ) (ls : List (List F))
      → i + left ≡ h
      → pair ≡ index % 2 ^ left
      → length ls ≡ 2 ^ h
      → IsPath h left i pair index ls
  unfolding siblings_from climb beside_path
  siblings_from-IsPath zero i h pair index ls e p el =
      let same : i ≡ h = omega arith in
      let first : pair ≡ 0 = omega arith in
      record {
        siblings = [];
        reads = refl;
        same = refl;
        long = refl;
        climbs = rw (same, first) (ap (λ (k : ℕ). (k, block hs ls h 0)) (omega arith));
      }
  siblings_from-IsPath (suc left) i h pair index ls e p el =
      let low : index % 2 ≡ pair % 2 = omega (arith, digits) in
      let p' : pair / 2 ≡ index / 2 % 2 ^ left = omega (arith, digits) in
      let rest =
        siblings_from-IsPath left (i + 1) h (pair / 2) (index / 2) ls (omega arith) p' el in
      record {
        siblings = block hs ls i (sibling pair) ∷ rest.siblings;
        reads = rw (place ∙ found, rest.reads);
        same = ap (◌∷◌ (block hs ls i (sibling pair))) rest.same;
        long = ap suc rest.long;
        climbs =
            rw (climb_step ls i pair index low)
              (rest.climbs ∙ ap (λ (k : ℕ). (k, block hs ls h 0)) quotient);
      }
    where
      digits : pair ≡ index / 2 % 2 ^ left * 2 + index % 2
      digits =
          p
          ∙ ap (λ (t : ℕ). index % t) (pow-succ' 2 left)
          ∙ mod_double (2 ^ left) index (one-le-pow left 2 (omega arith))

      found :
          get_elem? (digests_of hs h ls) (position i (sibling pair))
          ≡ some (block hs ls i (sibling pair))
      found =
          get_elem?-position hs left i (sibling pair) h ls (omega arith)
            (omega
              (arith, digits, pow-suc 2 left, mod-lt (index / 2) (one-le-pow left 2 (omega arith))))
            el

      half : pair / 2 ≡ sibling pair / 2
      half = omega arith

      place :
          get_elem?
            (digests_of hs h ls)
            (2 * (pair / 2 * 2 ^ (i + 1) + 2 ^ i - 1) + (1 - bit_and pair 1))
          ≡ get_elem? (digests_of hs h ls) (position i (sibling pair))
      place =
          ap (get_elem? (digests_of hs h ls)) (omega (arith, ap (λ (t : ℕ). t * 2 ^ (i + 1)) half))

      quotient : index / 2 / 2 ^ left ≡ index / 2 ^ suc left
      quotient =
          div-div-eq-div-mul index 2 (2 ^ left) ∙ ap (λ (t : ℕ). index / t) (sym (pow-succ' 2 left))
