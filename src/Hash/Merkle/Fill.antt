-- ===== src/Hash/Merkle/Fill.antt =====
-- The recursive fill writes the buffer that the specification describes.
use native.Mathlib.Nat.{pow-suc, one-le-pow}
use plonky.Common.{
  ℕ, zero, suc, ◌+◌, ◌-◌, ◌*◌, ◌/◌, ◌^◌, ◌<◌, ◌≡◌, refl, arith, some, List, [], ◌∷◌, length, take,
  drop, length-take, length-drop, length-append, ==_iff, ==_false,
}
use plonky.Hash.Merkle.{Hasher, fill_subtree}
use plonky.Hash.Merkle.Spec.{root, digests_of}

-- The length of the buffer of a subtree of height `h`.
abbrev pub buffer_len : ℕ → ℕ
buffer_len h = 2 * (2 ^ h - 1)

-- Both halves of a node's leaves.
pub halves {ℓ} :
    {A : Type ℓ} (h : ℕ) (ls : List A)
    → length ls ≡ 2 ^ suc h
    → (length (take (2 ^ h) ls) ≡ 2 ^ h) × (length (drop (2 ^ h) ls) ≡ 2 ^ h)
halves h ls e = (
  omega (arith, e, length-take (2 ^ h) ls, pow-suc 2 h),
  omega (arith, e, length-drop (2 ^ h) ls, pow-suc 2 h),
)

module _ {F H : Type 0} (hs : Hasher F H) where
  pub length-digests_of :
      (h : ℕ) (ls : List (List F)) → length ls ≡ 2 ^ h → length (digests_of hs h ls) ≡ buffer_len h
  unfolding digests_of
  length-digests_of zero ls e = refl
  length-digests_of (suc h) ls e = omega (
    arith,
    length-append (digests_of hs h (take (2 ^ h) ls)) (
        root hs h (take (2 ^ h) ls)
        ∷ root hs h (drop (2 ^ h) ls)
        ∷ digests_of hs h (drop (2 ^ h) ls)),
    length-digests_of h (take (2 ^ h) ls) (halves h ls e).0,
    length-digests_of h (drop (2 ^ h) ls) (halves h ls e).1,
    pow-suc 2 h,
    one-le-pow h 2 (omega arith),
  )

  -- On a buffer and leaves of the right lengths `fill_subtree` succeeds with that buffer and root.
  pub fill_subtree-digests_of :
      (fuel h : ℕ) (ls : List (List F))
      → h < fuel
      → length ls ≡ 2 ^ h
      → fill_subtree hs fuel (buffer_len h) ls ≡ some (digests_of hs h ls, root hs h ls)
  unfolding fill_subtree digests_of root
  fill_subtree-digests_of zero h ls lt e = absurd (omega arith)
  fill_subtree-digests_of (suc fuel) zero [] lt e = absurd (omega arith)
  fill_subtree-digests_of (suc fuel) zero (l ∷ []) lt e = refl
  fill_subtree-digests_of (suc fuel) zero (l ∷ m ∷ ls) lt e = absurd (omega arith)
  fill_subtree-digests_of (suc fuel) (suc h) ls lt e =
      let pos : 0 < 2 ^ h = one-le-pow h 2 (omega arith) in
      let (el, er) = halves h ls e in
      let whole : length ls / 2 ≡ 2 ^ h = omega (arith, e, pow-suc 2 h) in
      let left_len : buffer_len (suc h) / 2 - 1 ≡ buffer_len h = omega (arith, pow-suc 2 h) in
      let right_len : buffer_len (suc h) - buffer_len (suc h) / 2 - 1 ≡ buffer_len h =
        omega (arith, pow-suc 2 h) in
      let checks : length ls ≡ buffer_len (suc h) / 2 + 1 = omega (arith, e, pow-suc 2 h) in
      rw
        (
          (==_iff _ _).1 checks,
          whole,
          left_len,
          right_len,
          fill_subtree-digests_of fuel h (take (2 ^ h) ls) (omega arith) el,
          fill_subtree-digests_of fuel h (drop (2 ^ h) ls) (omega arith) er,
          ==_false (buffer_len (suc h)) 0 (omega (arith, pow-suc 2 h)),
        )
        refl
