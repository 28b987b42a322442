-- ===== src/Hash/Merkle/Build.antt =====
-- `MerkleTree::new`: the digests of the subtrees in a row, and their roots.
use native.Mathlib.Nat.{one-le-pow, mul-div_cancel_left, mul-div_cancel, mul-le-mul_right, mul-pos}
use plonky.Common.{
  ℕ, zero, suc, ◌+◌, ◌-◌, ◌*◌, ◌^◌, ◌≤◌, ◌<◌, ◌≡◌, refl, sym, ap, ap₂, ◌∙◌, arith, some, List, [],
  ◌∷◌, ◌++◌, map, length, take, drop, get_elem?, ==_iff, ==_false, ==_refl, ◌≢◌, le→leb,
  length-take, length-drop, length-append,
}
use plonky.Common.Slices.{drop-drop, take-append, drop-append}
use plonky.Common.Modular.{pow-add, lt-two-pow}
use plonky.Common.Words.{u64_mod}
use plonky.Util.Logs.{log2_strict-eq-some_iff, pow-lt}
use plonky.Hash.Merkle.{Hasher, chunks, fill_chunks, fill_digests_buf, new}
use plonky.Hash.Merkle.Spec.{root, digests_of}
use plonky.Hash.Merkle.Fill.{buffer_len, length-digests_of, fill_subtree-digests_of}

module _ {ℓ} {A : Type ℓ} where
  first_len :
      (count h : ℕ) (ls : List A)
      → 0 < count
      → length ls ≡ count * 2 ^ h
      → length (take (2 ^ h) ls) ≡ 2 ^ h
  first_len count h ls pos e =
      let scaled : 1 * 2 ^ h ≤ count * 2 ^ h = mul-le-mul_right (2 ^ h) pos in
      omega (arith, e, scaled, length-take (2 ^ h) ls)

  rest_len :
      (count h : ℕ) (ls : List A)
      → length ls ≡ suc count * 2 ^ h
      → length (drop (2 ^ h) ls) ≡ count * 2 ^ h
  rest_len count h ls e = omega (arith, e, length-drop (2 ^ h) ls)

module _ {F H : Type 0} (hs : Hasher F H) where
  -- The buffer and the cap over `count` subtrees of height `h`.
  unfoldable pub forest : ℕ → ℕ → List (List F) → List H
  forest zero h ls = []
  forest (suc count) h ls = digests_of hs h (take (2 ^ h) ls) ++ forest count h (drop (2 ^ h) ls)

  unfoldable pub roots : ℕ → ℕ → List (List F) → List H
  roots zero h ls = []
  roots (suc count) h ls = root hs h (take (2 ^ h) ls) ∷ roots count h (drop (2 ^ h) ls)

  pub fill_chunks-forest :
      (count h : ℕ) (ls : List (List F))
      → length ls ≡ count * 2 ^ h
      → fill_chunks hs (buffer_len h) (chunks count (2 ^ h) ls)
        ≡ some (forest count h ls, roots count h ls)
  unfolding fill_chunks chunks forest roots
  fill_chunks-forest zero h ls e = refl
  fill_chunks-forest (suc count) h ls e =
      rw
        (
          fill_subtree-digests_of hs (buffer_len h + 1) h (take (2 ^ h) ls)
              (omega (arith, lt-two-pow h)) (first_len (suc count) h ls (omega arith) e),
          fill_chunks-forest count h (drop (2 ^ h) ls) (rest_len count h ls e),
        )
        refl

  -- The subtree number `t` in the buffer, and its root in the cap.
  pub forest-slice :
      (count h t : ℕ) (ls : List (List F))
      → t < count
      → length ls ≡ count * 2 ^ h
      → (take (buffer_len h) (drop (buffer_len h * t) (forest count h ls))
          ≡ digests_of hs h (take (2 ^ h) (drop (t * 2 ^ h) ls)))
        × (get_elem? (roots count h ls) t ≡ some (root hs h (take (2 ^ h) (drop (t * 2 ^ h) ls))))
  unfolding forest roots
  forest-slice zero h t ls lt e = absurd (omega arith)
  forest-slice (suc count) h zero ls lt e =
      let none_skipped : buffer_len h * 0 ≡ 0 = omega arith in
      let first : 0 * 2 ^ h ≡ 0 = omega arith in
      let len = length-digests_of hs h (take (2 ^ h) ls) (first_len (suc count) h ls lt e) in
      (rw (none_skipped, first) (take-append (buffer_len h) _ _ len), rw first)
  forest-slice (suc count) h (suc t) ls lt e =
      let len =
        length-digests_of hs h (take (2 ^ h) ls) (first_len (suc count) h ls (omega arith) e) in
      let (slice, cap) =
        forest-slice count h t (drop (2 ^ h) ls) (omega arith) (rest_len count h ls e) in
      let skip = drop-drop (t * 2 ^ h) (2 ^ h) (suc t * 2 ^ h) ls (omega arith) in
      (
        ap (take (buffer_len h)) (
              sym
                (drop-drop (buffer_len h * t) (buffer_len h) (buffer_len h * suc t) _ (omega arith))
              ∙ ap (drop (buffer_len h * t)) (drop-append (buffer_len h) _ _ len))
            ∙ slice
            ∙ ap (λ xs. digests_of hs h (take (2 ^ h) xs)) skip,
        cap ∙ ap (λ xs. some (root hs h (take (2 ^ h) xs))) skip,
      )

  pub length-forest :
      (count h : ℕ) (ls : List (List F))
      → length ls ≡ count * 2 ^ h
      → (length (forest count h ls) ≡ buffer_len h * count) × (length (roots count h ls) ≡ count)
  unfolding forest roots
  length-forest zero h ls e = (omega arith, refl)
  length-forest (suc count) h ls e =
      let (buffer, cap) = length-forest count h (drop (2 ^ h) ls) (rest_len count h ls e) in
      let len =
        length-digests_of hs h (take (2 ^ h) ls) (first_len (suc count) h ls (omega arith) e) in
      (
        omega (
          arith,
          len,
          buffer,
          length-append (digests_of hs h (take (2 ^ h) ls)) (forest count h (drop (2 ^ h) ls)),
        ),
        ap suc cap,
      )

  -- Over single leaves the roots are the hashes of the leaves, and the buffer is empty.
  roots_zero :
      (count : ℕ) (ls : List (List F))
      → length ls ≡ count
      → (map hs.hash_or_noop ls ≡ roots count 0 ls) × ([] ≡ forest count 0 ls)
  unfolding roots forest root digests_of
  roots_zero zero [] e = (refl, refl)
  roots_zero zero (l ∷ ls) e = absurd (omega arith)
  roots_zero (suc count) [] e = absurd (omega arith)
  roots_zero (suc count) (l ∷ ls) e =
      let (r, f) = roots_zero count ls (omega arith) in (ap (◌∷◌ (hs.hash_or_noop l)) r, f)

  -- The two branches of `fill_digests_buf`: a tree that is all cap, and subtrees.
  fill_digests_buf-all_cap :
      (c : ℕ) (ls : List (List F))
      → length ls ≡ 2 ^ c
      → fill_digests_buf hs 0 (2 ^ c) ls c ≡ some (forest (2 ^ c) 0 ls, roots (2 ^ c) 0 ls)
  unfolding fill_digests_buf
  fill_digests_buf-all_cap c ls e =
      let (r, f) = roots_zero (2 ^ c) ls e in
      rw ((==_iff (2 ^ c) (length ls)).1 (sym e)) (ap₂ (λ ds cs. some (ds, cs)) f r)

  fill_digests_buf-subtrees :
      (c h : ℕ) (ls : List (List F))
      → 0 < h
      → length ls ≡ 2 ^ c * 2 ^ h
      → fill_digests_buf hs (buffer_len h * 2 ^ c) (2 ^ c) ls c
        ≡ some (forest (2 ^ c) h ls, roots (2 ^ c) h ls)
  unfolding fill_digests_buf
  fill_digests_buf-subtrees c h ls pos e =
      let cap_pos : 0 < 2 ^ c = one-le-pow c 2 (omega arith) in
      let leaves_pos : 0 < 2 ^ h = one-le-pow h 2 (omega arith) in
      let len_pos : 0 < buffer_len h = omega (arith, lt-two-pow h) in
      let some_digests : buffer_len h * 2 ^ c ≢ 0 = omega (arith, mul-pos len_pos cap_pos) in
      rw
        (
          ==_false (buffer_len h * 2 ^ c) 0 some_digests,
          mul-div_cancel (buffer_len h) cap_pos,
          e,
          mul-div_cancel_left (2 ^ h) cap_pos,
          mul-div_cancel_left (2 ^ c) len_pos,
          mul-div_cancel (2 ^ c) leaves_pos,
          le→leb 1 (buffer_len h) len_pos,
          le→leb 1 (2 ^ h) leaves_pos,
          ==_refl (2 ^ c),
        )
        (fill_chunks-forest (2 ^ c) h ls e)

  fill_digests_buf-forest :
      (c h : ℕ) (ls : List (List F))
      → length ls ≡ 2 ^ c * 2 ^ h
      → fill_digests_buf hs (buffer_len h * 2 ^ c) (2 ^ c) ls c
        ≡ some (forest (2 ^ c) h ls, roots (2 ^ c) h ls)
  fill_digests_buf-forest c zero ls e =
      let no_digests : 0 * 2 ^ c ≡ 0 = omega arith in
      rw no_digests (fill_digests_buf-all_cap c ls (omega (arith, e)))
  fill_digests_buf-forest c (suc h) ls e = fill_digests_buf-subtrees c (suc h) ls (omega arith) e

  -- `new` succeeds on `2 ^ (c + h)` leaves and a cap of height `c`: its digests are those of the
  -- `2 ^ c` subtrees of height `h`, one subtree after the other, each in the interleaved layout of
  -- its two halves around their roots, and its cap is the row of the roots of the subtrees.
  pub new-forest :
      (c h : ℕ) (ls : List (List F))
      → c + h < 64
      → length ls ≡ 2 ^ (c + h)
      → new hs ls c
        ≡ some (record { leaves = ls; digests = forest (2 ^ c) h ls; cap = roots (2 ^ c) h ls })
  unfolding new
  new-forest c h ls lt e =
      let small : 2 ^ (c + h) < u64_mod = pow-lt (c + h) lt in
      let product : length ls ≡ 2 ^ c * 2 ^ h = e ∙ pow-add 2 c h in
      let size : 2 * (length ls - 2 ^ c) ≡ buffer_len h * 2 ^ c =
        omega (arith, product, ap (λ (t : ℕ). 2 ^ c * t) whole) in
      rw
        (
          (log2_strict-eq-some_iff (length ls) (c + h) (rw e small)).1 e,
          le→leb c (c + h) (omega arith),
          size,
          fill_digests_buf-forest c h ls product,
        )
        refl
    where
      whole : 2 ^ h ≡ suc (2 ^ h - 1)
      whole = omega (arith, one-le-pow h 2 (omega arith))
