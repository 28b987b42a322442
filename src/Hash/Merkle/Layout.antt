-- ===== src/Hash/Merkle/Layout.antt =====
-- Where a node's digest stands in the buffer of a subtree.
use native.Mathlib.Decide.{dec_lt}
use native.Mathlib.Nat.{pow-suc, pow-succ', one-le-pow, mul-le-mul_right}
use plonky.Common.Modular.{pow-add}
use plonky.Common.{
  ℕ, zero, suc, ◌+◌, ◌-◌, ◌*◌, ◌/◌, ◌%◌, ◌^◌, ◌≤◌, ◌<◌, ◌≡◌, sym, subst, ap, ◌∙◌, arith, some, List,
  length, take, drop, get_elem?,
}
use plonky.Common.Slices.{
  take_all, drop-drop, take-drop-take, get_elem?-append_left, get_elem?-append_right,
}
use plonky.Hash.Merkle.{Hasher}
use plonky.Hash.Merkle.Spec.{root, digests_of, block}
use plonky.Hash.Merkle.Fill.{buffer_len, halves, length-digests_of}

-- The index of the node number `m` of layer `i`, as `prove` computes it.
abbrev pub position : ℕ → ℕ → ℕ
position i m = 2 * (m / 2 * 2 ^ (i + 1) + 2 ^ i - 1) + m % 2

pow-add_one : (i : ℕ) → 2 ^ (i + 1) ≡ 2 * 2 ^ i
pow-add_one i = ap (λ (t : ℕ). 2 ^ t) {x = i + 1} {y = suc i} (omega arith) ∙ pow-succ' 2 i

pow-split : (d i h : ℕ) → d + suc i ≡ h → 2 ^ h ≡ 2 ^ d * (2 * 2 ^ i)
pow-split d i h e =
    ap (λ (t : ℕ). 2 ^ t) (sym e) ∙ pow-add 2 d (suc i) ∙ ap (λ (t : ℕ). 2 ^ d * t) (pow-succ' 2 i)

-- A position in the left half is in its buffer; one in the right half is past the left buffer
-- and the two digests.
position_left : (d i m h : ℕ) → d + suc i ≡ h → m < 2 ^ suc d → position i m < buffer_len h
position_left d i m h e lt =
    let half : m / 2 < 2 ^ d = omega (arith, pow-suc 2 d) in
    let scaled : suc (m / 2) * (2 * 2 ^ i) ≤ 2 ^ d * (2 * 2 ^ i) =
      mul-le-mul_right (2 * 2 ^ i) half in
    omega (
      arith,
      scaled,
      pow-split d i h e,
      ap (λ (t : ℕ). m / 2 * t) (pow-add_one i),
      one-le-pow i 2 (omega arith),
    )

position_right :
    (d i m h : ℕ)
    → d + suc i ≡ h
    → position i (2 ^ suc d + m) ≡ buffer_len h + suc (suc (position i m))
position_right d i m h e =
    let half : (2 ^ suc d + m) / 2 ≡ 2 ^ d + m / 2 = omega (arith, pow-suc 2 d) in
    let low : (2 ^ suc d + m) % 2 ≡ m % 2 = omega (arith, pow-suc 2 d) in
    omega (
      arith,
      low,
      ap (λ (t : ℕ). t * 2 ^ (i + 1)) half,
      ap (λ (t : ℕ). 2 ^ d * t) (pow-add_one i),
      pow-split d i h e,
      one-le-pow i 2 (omega arith),
      one-le-pow h 2 (omega arith),
    )

module _ {F H : Type 0} (hs : Hasher F H) where
  -- Blocks of the halves are blocks of the whole.
  pub block-take :
      (ls : List (List F)) (i m n : ℕ)
      → m * 2 ^ i + 2 ^ i ≤ n
      → block hs (take n ls) i m ≡ block hs ls i m
  unfolding block
  block-take ls i m n h = rw (take-drop-take (2 ^ i) (m * 2 ^ i) n ls h)

  pub block-drop :
      (ls : List (List F)) (i m n k : ℕ)
      → n + m * 2 ^ i ≡ k * 2 ^ i
      → block hs (drop n ls) i m ≡ block hs ls i k
  unfolding block
  block-drop ls i m n k h = rw (drop-drop (m * 2 ^ i) n (k * 2 ^ i) ls h)

  pub block-whole :
      (ls : List (List F)) (i : ℕ) → length ls ≡ 2 ^ i → block hs ls i 0 ≡ root hs i ls
  unfolding block
  block-whole ls i e =
      let first : 0 * 2 ^ i ≡ 0 = omega arith in rw (first, take_all (2 ^ i) ls (omega arith))

  -- The two children of the root.
  get_elem?-children :
      (m h : ℕ) (ls : List (List F))
      → m < 2
      → length ls ≡ 2 ^ suc h
      → get_elem? (digests_of hs (suc h) ls) (position h m) ≡ some (block hs ls h m)
  unfolding digests_of
  get_elem?-children zero h ls lt el =
      let (left, right) = halves h ls el in
      get_elem?-append_right _ _ (buffer_len h) (position h 0) 0
        (length-digests_of hs h (take (2 ^ h) ls) left) (omega arith)
      ∙ ap some
          (sym (block-whole (take (2 ^ h) ls) h left) ∙ block-take ls h 0 (2 ^ h) (omega arith))
  get_elem?-children (suc zero) h ls lt el =
      let (left, right) = halves h ls el in
      get_elem?-append_right _ _ (buffer_len h) (position h 1) 1
        (length-digests_of hs h (take (2 ^ h) ls) left) (omega arith)
      ∙ ap some
          (sym (block-whole (drop (2 ^ h) ls) h right) ∙ block-drop ls h 0 (2 ^ h) 1 (omega arith))
  get_elem?-children (suc (suc m)) h ls lt el = absurd (omega arith)

  get_elem?-left :
      (d i m h : ℕ) (ls : List (List F))
      → d + suc i ≡ h
      → m < 2 ^ suc d
      → length ls ≡ 2 ^ suc h
      → get_elem? (digests_of hs h (take (2 ^ h) ls)) (position i m)
        ≡ some (block hs (take (2 ^ h) ls) i m)
      → get_elem? (digests_of hs (suc h) ls) (position i m) ≡ some (block hs ls i m)
  unfolding digests_of
  get_elem?-left d i m h ls e lt el ih =
      let len = length-digests_of hs h (take (2 ^ h) ls) (halves h ls el).0 in
      let bound = position_left d i m h e lt in
      get_elem?-append_left _ _ (position i m) (omega (arith, len, bound))
      ∙ ih
      ∙ ap some (block-take ls i m (2 ^ h) inside)
    where
      inside : m * 2 ^ i + 2 ^ i ≤ 2 ^ h
      inside =
          let scaled : suc m * 2 ^ i ≤ 2 ^ suc d * 2 ^ i = mul-le-mul_right (2 ^ i) lt in
          omega (arith, scaled, pow-split d i h e, ap (λ (t : ℕ). t * 2 ^ i) (pow-suc 2 d))

  get_elem?-right :
      (d i m h : ℕ) (ls : List (List F))
      → d + suc i ≡ h
      → length ls ≡ 2 ^ suc h
      → get_elem? (digests_of hs h (drop (2 ^ h) ls)) (position i m)
        ≡ some (block hs (drop (2 ^ h) ls) i m)
      → get_elem? (digests_of hs (suc h) ls) (position i (2 ^ suc d + m))
        ≡ some (block hs ls i (2 ^ suc d + m))
  unfolding digests_of
  get_elem?-right d i m h ls e el ih =
      get_elem?-append_right _ _ (buffer_len h) (position i (2 ^ suc d + m))
        (suc (suc (position i m))) (length-digests_of hs h (take (2 ^ h) ls) (halves h ls el).0)
        (position_right d i m h e)
      ∙ ih
      ∙ ap some (block-drop ls i m (2 ^ h) (2 ^ suc d + m) shifted)
    where
      shifted : 2 ^ h + m * 2 ^ i ≡ (2 ^ suc d + m) * 2 ^ i
      shifted = omega (arith, pow-split d i h e, ap (λ (t : ℕ). t * 2 ^ i) (pow-suc 2 d))

  -- The digest of a node below the root stands at its position.
  pub get_elem?-position :
      (d i m h : ℕ) (ls : List (List F))
      → d + suc i ≡ h
      → m < 2 ^ suc d
      → length ls ≡ 2 ^ h
      → get_elem? (digests_of hs h ls) (position i m) ≡ some (block hs ls i m)
  get_elem?-position d i m zero ls e lt el = absurd (omega arith)
  get_elem?-position zero i m (suc h) ls e lt el =
      let same : i ≡ h = omega arith in rw same (get_elem?-children m h ls lt el)
  get_elem?-position (suc d) i m (suc h) ls e lt el = elim (dec_lt m (2 ^ suc d)) [
    | yes left ↦
        get_elem?-left d i m h ls (omega arith) left el
          (get_elem?-position d i m h (take (2 ^ h) ls) (omega arith) left (halves h ls el).0)
    | no right ↦
        let m' = m - 2 ^ suc d in
        let split : 2 ^ suc d + m' ≡ m = omega arith in
        subst (λ k. get_elem? (digests_of hs (suc h) ls) (position i k) ≡ some (block hs ls i k))
          split
          (get_elem?-right d i m' h ls (omega arith) el (
            get_elem?-position d i m' h (drop (2 ^ h) ls) (omega arith)
              (omega (arith, pow-suc 2 (suc d))) (halves h ls el).1))
  ]
