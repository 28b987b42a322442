-- ===== src/Hash/Merkle/Complete.antt =====
-- A proof made by `prove` is accepted by the verifier.
use native.Mathlib.Nat.{
  one-le-pow, mul-div_cancel, mul-le-mul_left, mul-le-mul_right, div-eq_of_lt, div-lt_iff_lt-mul,
  mod-lt, div-add-mod',
}
use plonky.Common.{
  ℕ, zero, suc, ◌+◌, ◌-◌, ◌*◌, ◌/◌, ◌%◌, ◌^◌, ◌≤◌, ◌<◌, ◌≡◌, refl, sym, ap, ◌∙◌, arith, some, List,
  [], ◌∷◌, length, take, drop, get_elem?, true, false, le→leb, length-take, length-drop,
}
use plonky.Common.Modular.{pow-add}
use plonky.Common.Bits.{bit_and-mask}
use plonky.Common.Slices.{get_elem?-drop, get_elem?-take}
use plonky.Util.Logs.{log2_strict-eq-some_iff, pow-lt}
use plonky.Hash.Merkle.{
  Hasher, MerkleTree, new, prove, siblings_from, climb, ensure_root, verify_merkle_proof_to_cap,
}
use plonky.Hash.Merkle.Spec.{root, digests_of, block}
use plonky.Hash.Merkle.Fill.{buffer_len}
use plonky.Hash.Merkle.Layout.{block-whole}
use plonky.Common.Words.{u64_mod}
use plonky.Hash.Merkle.Path.{siblings_from-IsPath}
use plonky.Hash.Merkle.Build.{forest, roots, length-forest, forest-slice, new-forest}

drop-get_elem? {ℓ} :
    {A : Type ℓ} (xs : List A) (m : ℕ) {x : A}
    → get_elem? xs m ≡ some x
    → (rest : List A) × (drop m xs ≡ x ∷ rest)
drop-get_elem? [] m h = cc
drop-get_elem? (y ∷ ys) zero h = (ys, cc)
drop-get_elem? (y ∷ ys) (suc m) h = drop-get_elem? ys m h

module _ {F H : Type 0} (hs : Hasher F H) where
  pub block-leaf :
      (xs : List (List F)) (m : ℕ) {l : List F}
      → get_elem? xs m ≡ some l
      → block hs xs 0 m ≡ hs.hash_or_noop l
  unfolding block root
  block-leaf xs m {l} h =
      let (rest, e) = drop-get_elem? xs m h in let at : m * 1 ≡ m = omega arith in rw (at, e)

  verdict_same : (r : H) (d : Dec (r ≡ r)) → elim d [ yes _ ↦ true | no _ ↦ false ] ≡ true
  verdict_same r (yes p) = refl
  verdict_same r (no n) = absurd (n refl)

  ensure_root-same :
      (cap : List H) (index : ℕ) {r : H}
      → get_elem? cap index ≡ some r
      → ensure_root hs cap (index, r) ≡ some true
  unfolding ensure_root
  ensure_root-same cap index {r} h = rw h (ap some (verdict_same r (hs.digest_eq r r)))

  -- The leaves of the subtree in which the leaf number `i` stands.
  abbrev pub subtree : ℕ → ℕ → List (List F) → List (List F)
  subtree h i ls = take (2 ^ h) (drop (i / 2 ^ h * 2 ^ h) ls)

  module _ (c h i : ℕ) (ls : List (List F)) (lt : c + h < 64) (e : length ls ≡ 2 ^ (c + h))
      (below : i < 2 ^ (c + h)) where
    abbrev pub tree : MerkleTree F H
    tree = record { leaves = ls; digests = forest hs (2 ^ c) h ls; cap = roots hs (2 ^ c) h ls }

    product : length ls ≡ 2 ^ c * 2 ^ h
    product = e ∙ pow-add 2 c h

    pub tree_index : i / 2 ^ h < 2 ^ c
    tree_index =
        (div-lt_iff_lt-mul (one-le-pow h 2 (omega arith))).1 (omega (arith, below, pow-add 2 c h))

    pub length-subtree : length (subtree h i ls) ≡ 2 ^ h
    length-subtree =
        let scaled : suc (i / 2 ^ h) * 2 ^ h ≤ 2 ^ c * 2 ^ h =
          mul-le-mul_right (2 ^ h) tree_index in
        omega (
          arith,
          scaled,
          product,
          length-take (2 ^ h) (drop (i / 2 ^ h * 2 ^ h) ls),
          length-drop (i / 2 ^ h * 2 ^ h) ls,
        )

    pub prove-tree : prove tree i ≡ siblings_from h 0 (i % 2 ^ h) (digests_of hs h (subtree h i ls))
    unfolding prove
    prove-tree =
        let (buffer, cap) = length-forest hs (2 ^ c) h ls product in
        let small : 2 ^ c < u64_mod = pow-lt c (omega arith) in
        let small' : 2 ^ (c + h) < u64_mod = pow-lt (c + h) lt in
        let layers : c + h - c ≡ h = omega arith in
        let inside : i / 2 ^ (c + h) ≡ 0 = div-eq_of_lt below in
        let slice : buffer_len h * (i / 2 ^ h + 1) ≤ buffer_len h * 2 ^ c =
          mul-le-mul_left (buffer_len h) (omega (arith, tree_index)) in
        rw
          (
            (log2_strict-eq-some_iff (length (roots hs (2 ^ c) h ls)) c (rw cap small)).1 cap,
            (log2_strict-eq-some_iff (length ls) (c + h) (rw e small')).1 e,
            layers,
            inside,
            buffer,
            mul-div_cancel (buffer_len h) (one-le-pow c 2 (omega arith)),
            le→leb (buffer_len h * (i / 2 ^ h + 1)) (buffer_len h * 2 ^ c) slice,
            (forest-slice hs (2 ^ c) h (i / 2 ^ h) ls tree_index product).0,
            bit_and-mask h i,
          )
          refl

  -- `new` succeeds on `2 ^ (c + h)` leaves and a cap of height `c`; from the tree `prove` makes,
  -- for every index, a proof of `h` siblings, and the verifier accepts it for the leaf there.
  pub prove-verify :
      (c h i : ℕ) (ls : List (List F)) (leaf : List F)
      → c + h < 64
      → length ls ≡ 2 ^ (c + h)
      → get_elem? ls i ≡ some leaf
      → i < 2 ^ (c + h)
      → (t : MerkleTree F H) × (siblings : List H) × (new hs ls c ≡ some t)
        × (prove t i ≡ some siblings)
        × (length siblings ≡ h)
        × (verify_merkle_proof_to_cap hs leaf i t.cap siblings ≡ some true)
  unfolding verify_merkle_proof_to_cap
  prove-verify c h i ls leaf lt e found below =
      let len = length-subtree c h i ls lt e below in
      let path =
        siblings_from-IsPath hs h 0 h (i % 2 ^ h) i (subtree h i ls) (omega arith) refl len in
      let cap =
        (forest-slice hs (2 ^ c) h (i / 2 ^ h) ls (tree_index c h i ls lt e below)
          (product c h i ls lt e below)).1 in
      (
        tree c h i ls lt e below,
        path.siblings,
        new-forest hs c h ls lt e,
        prove-tree c h i ls lt e below ∙ path.reads,
        path.long,
        ap
              (λ d.
                ensure_root hs (tree c h i ls lt e below).cap
                  (climb hs.two_to_one i d path.siblings))
              (sym start)
            ∙ ap (ensure_root hs (tree c h i ls lt e below).cap) path.climbs
            ∙ ensure_root-same (tree c h i ls lt e below).cap (i / 2 ^ h)
                (cap ∙ ap some (sym (block-whole hs (subtree h i ls) h len))),
      )
    where
      inside : get_elem? (subtree h i ls) (i % 2 ^ h) ≡ some leaf
      inside =
          get_elem?-take (drop (i / 2 ^ h * 2 ^ h) ls) (2 ^ h) (i % 2 ^ h)
            (mod-lt i (one-le-pow h 2 (omega arith)))
          ∙ get_elem?-drop ls (i / 2 ^ h * 2 ^ h) (i % 2 ^ h) i (div-add-mod' i (2 ^ h))
          ∙ found

      start : block hs (subtree h i ls) 0 (i % 2 ^ h) ≡ hs.hash_or_noop leaf
      start = block-leaf (subtree h i ls) (i % 2 ^ h) inside
