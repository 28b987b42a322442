-- ===== src/Hash/PathCompression/Compress.antt =====
-- plonky2/src/hash/path_compression.rs: which siblings `compress_merkle_proofs` keeps.
use native.Mathlib.Nat.{div-one}
use plonky.Common.{
  ℕ, zero, suc, ◌+◌, ◌-◌, ◌*◌, ◌/◌, ◌^◌, ◌≤◌, ◌<◌, ◌≡◌, refl, sym, ap, ◌∙◌, arith, bit_xor, Bool,
  false, some, List, [], ◌∷◌, ◌||◌, All, length, replicate, ltb, if◌then◌else◌,
}
use plonky.Hash.PathCompression.{
  mark_path, mark_paths, compress_path, compress_paths, compress_merkle_proofs,
}
use plonky.Hash.PathCompression.Nodes.{IsDeep, ancestor_next}
use plonky.Hash.PathCompression.Sets.{
  Layers, above, beside, covers, push, leaf_nodes, OnPaths, leaf_nodes-OnPaths,
}
use plonky.Hash.PathCompression.Marks.{
  Marks, Marks-cong, Marks-above, Marks-beside, Marks-again, Marks-replicate,
}

abbrev pub empty : Layers
empty l = []

-- The layers below `j` with one leaf node more.
abbrev pub up_to : ℕ → ℕ → List ℕ → Layers
up_to j n nodes l = if ltb l j then n ∷ nodes else nodes

-- The sibling in layer `j` is known: it lies on the path of an index, or an earlier proof has it.
abbrev pub known_beside : List ℕ → List ℕ → ℕ → ℕ → Bool
known_beside all earlier n j =
    above j all (bit_xor (n / 2 ^ j) 1) || beside j earlier (bit_xor (n / 2 ^ j) 1)

module _ {H : Type 0} where
  unfoldable pub kept : List ℕ → List ℕ → ℕ → ℕ → List H → List H
  kept all earlier n j [] = []
  kept all earlier n j (s ∷ siblings) =
      let rest = kept all earlier n (suc j) siblings in
      if known_beside all earlier n j then rest else s ∷ rest

  unfoldable pub all_kept : ℕ → List ℕ → ℕ → List ℕ → List ℕ → List (List H) → List (List H)
  all_kept num_leaves all j earlier [] proofs = []
  all_kept num_leaves all j earlier (i ∷ indices) [] = []
  all_kept num_leaves all j earlier (i ∷ indices) (p ∷ proofs) =
      kept all earlier (i + num_leaves) j p
      ∷ all_kept num_leaves all j ((i + num_leaves) ∷ earlier) indices proofs

pub push-up_to :
    (j n l : ℕ) (nodes : List ℕ) → push j n (up_to j n nodes) l ≡ up_to (suc j) n nodes l
push-up_to j n l nodes = ground arith

pub up_to_all : (m n l : ℕ) (nodes : List ℕ) → l < m → up_to m n nodes l ≡ n ∷ nodes
up_to_all m n l nodes lt = ground arith

up_to-zero : (n l : ℕ) (nodes : List ℕ) → nodes ≡ up_to 0 n nodes l
up_to-zero n l nodes = ground arith

tested :
    (all earlier : List ℕ) (n j : ℕ)
    → covers (λ _. all) (up_to j n earlier) j (bit_xor (n / 2 ^ j) 1) ≡ known_beside all earlier n j
unfolding covers
tested all earlier n j =
    ap (λ nodes. above j all (bit_xor (n / 2 ^ j) 1) || beside j nodes (bit_xor (n / 2 ^ j) 1))
      (before j n earlier)
  where
    before : (j n : ℕ) (earlier : List ℕ) → up_to j n earlier j ≡ earlier
    before j n earlier = ground arith

module _ (h m : ℕ) (le : m ≤ h) where
  mark_path-Marks :
      (left j n : ℕ) (done : List ℕ) (known : List Bool)
      → left + j ≡ m
      → IsDeep h n
      → Marks h m le known (up_to j n done) empty
      → (known' : List Bool) × (mark_path left j n known ≡ some known')
        × Marks h m le known' (λ _. n ∷ done) empty
  unfolding mark_path
  mark_path-Marks zero j n done known e deep marks = (
    known,
    refl,
    Marks-cong h m le known _ _ _ _ (λ l lt. up_to_all j n l done (omega (arith, e, lt)))
        (λ l lt. refl) marks,
  )
  mark_path-Marks (suc left) j n done known e deep marks =
      let (known1, run1, marks1) =
        Marks-above h m le known _ _ j n (omega (arith, le, e)) deep marks in
      let marks2 =
        Marks-cong h m le known1 _ _ _ _ (λ l lt. push-up_to j n l done) (λ l lt. refl) marks1 in
      let (known', run, marks') =
        mark_path-Marks left (suc j) n done known1 (omega (arith, e)) deep marks2 in
      (known', rw run1 run, marks')

  mark_paths-Marks :
      (num_leaves : ℕ) (indices done : List ℕ) (known : List Bool)
      → All (λ i. IsDeep h (i + num_leaves)) indices
      → Marks h m le known (λ _. done) empty
      → (known' : List Bool) × (mark_paths m num_leaves indices known ≡ some known')
        × Marks h m le known' (λ _. leaf_nodes num_leaves indices done) empty
  unfolding mark_paths leaf_nodes
  mark_paths-Marks num_leaves [] done known deep marks = (known, refl, marks)
  mark_paths-Marks num_leaves (i ∷ indices) done known (d, deep) marks =
      let n = i + num_leaves in
      let marks1 =
        Marks-cong h m le known _ (up_to 0 n done) _ _ (λ l lt. up_to-zero n l done) (λ l lt. refl)
          marks in
      let (known1, run1, marks2) = mark_path-Marks m 0 n done known (omega arith) d marks1 in
      let (known', run, marks') =
        mark_paths-Marks num_leaves indices (n ∷ done) known1 deep marks2 in
      (known', rw run1 run, marks')

  module _ {H : Type 0} (all : List ℕ) where
    compress_path-kept :
        (siblings : List H) (j n : ℕ) (earlier : List ℕ) (known : List Bool)
        → length siblings + j ≡ m
        → IsDeep h n
        → OnPaths all n
        → Marks h m le known (λ _. all) (up_to j n earlier)
        → (known' : List Bool) × (compress_path (n / 2 ^ j) siblings known
            ≡ some (kept all earlier n j siblings, known'))
          × Marks h m le known' (λ _. all) (λ _. n ∷ earlier)
    unfolding compress_path kept
    compress_path-kept [] j n earlier known e deep on marks = (
      known,
      refl,
      Marks-cong h m le known _ _ _ _ (λ l lt. refl)
          (λ l lt. up_to_all j n l earlier (omega (arith, e, lt))) marks,
    )
    compress_path-kept (s ∷ siblings) j n earlier known e deep on marks =
        let (known1, test, run1, marks1) =
          Marks-beside h m le known _ _ j n (omega (arith, e)) deep marks in
        let (known2, run2, marks2) =
          Marks-again h m le known1 _ _ (suc j) n (omega (arith, e, le)) (λ lt. on (suc j)) deep
            marks1 in
        let marks3 =
          Marks-cong h m le known2 _ _ _ _ (λ l lt. refl) (λ l lt. push-up_to j n l earlier)
            marks2 in
        let (known', run, marks') =
          compress_path-kept siblings (suc j) n earlier known2 (omega (arith, e)) deep on marks3 in
        (known', rw (test, run1, ancestor_next n j, run2, run, tested all earlier n j) refl, marks')

    compress_paths-kept :
        (num_leaves : ℕ) (indices earlier : List ℕ) (proofs : List (List H)) (known : List Bool)
        → All (λ i. IsDeep h (i + num_leaves)) indices
        → All (λ i. OnPaths all (i + num_leaves)) indices
        → All (λ p. length p ≡ m) proofs
        → Marks h m le known (λ _. all) (λ _. earlier)
        → compress_paths num_leaves indices proofs known
          ≡ some (all_kept num_leaves all 0 earlier indices proofs)
    unfolding compress_paths all_kept
    compress_paths-kept num_leaves [] earlier proofs known deep on long marks = refl
    compress_paths-kept num_leaves (i ∷ indices) earlier [] known deep on long marks = refl
    compress_paths-kept num_leaves (i ∷ indices) earlier (p ∷ proofs) known (d, deep) (o, on)
          (e, long) marks =
        let n = i + num_leaves in
        let marks1 =
          Marks-cong h m le known _ _ _ (up_to 0 n earlier) (λ l lt. refl)
            (λ l lt. up_to-zero n l earlier) marks in
        let (known1, run1, marks2) =
          compress_path-kept p 0 n earlier known (omega (arith, e)) d o marks1 in
        rw
          (
            ap (λ t. compress_path t p known) (sym (div-one n)) ∙ run1,
            compress_paths-kept num_leaves indices (n ∷ earlier) proofs known1 deep on long marks2,
          )
          refl

  -- On proofs of the same length `compress_merkle_proofs` ends without a panic.
  pub compress_merkle_proofs-kept :
      {H : Type 0} (cap_height : ℕ) (indices : List ℕ) (first : List H) (proofs : List (List H))
      → cap_height + m ≡ h
      → All (λ i. IsDeep h (i + 2 ^ h)) indices
      → All (λ p. length p ≡ m) (first ∷ proofs)
      → compress_merkle_proofs cap_height indices (first ∷ proofs)
        ≡ some (all_kept (2 ^ h) (leaf_nodes (2 ^ h) indices []) 0 [] indices (first ∷ proofs))
  unfolding compress_merkle_proofs
  compress_merkle_proofs-kept cap_height indices first proofs e deep long =
      let height : cap_height + length first ≡ h = omega (arith, long.0, e) in
      let layers : h - cap_height ≡ m = omega (arith, e) in
      let (known, run, marks) =
        mark_paths-Marks (2 ^ h) indices [] (replicate (2 * 2 ^ h) false) deep
          (Marks-replicate h m le) in
      let all = leaf_nodes (2 ^ h) indices [] in
      rw (height, layers, run)
        (compress_paths-kept all (2 ^ h) indices [] (first ∷ proofs) known deep
          (leaf_nodes-OnPaths (2 ^ h) indices []) long marks)
