-- ===== src/Hash/PathCompression/Trees.antt =====
-- plonky2/src/hash/path_compression.rs on the proofs that a Merkle tree makes.
use native.Mathlib.Nat.{one-le-pow, mod-lt, div-add-mod', div-one}
use plonky.Common.{
  ℕ, zero, suc, ◌+◌, ◌-◌, ◌/◌, ◌%◌, ◌^◌, ◌<◌, ◌≡◌, refl, sym, ap, ◌∙◌, arith, bit_xor, some, List,
  [], ◌∷◌, All, length, get_elem?, traverse,
}
use plonky.Hash.Merkle.{Hasher, MerkleTree, new, prove}
use plonky.Hash.Merkle.Spec.{block}
use plonky.Hash.Merkle.Path.{siblings_from-IsPath}
use plonky.Hash.Merkle.Build.{new-forest}
use plonky.Hash.Merkle.Complete.{block-leaf, subtree, prove-tree, length-subtree}
use plonky.Hash.PathCompression.{parent, compress_merkle_proofs, decompress_merkle_proofs}
use plonky.Hash.PathCompression.Nodes.{IsDeep, InLayer}
use plonky.Hash.PathCompression.Sets.{leaf_nodes}
use plonky.Hash.PathCompression.Decompress.{path, paths}
use plonky.Hash.PathCompression.RoundTrip.{Hashed, decompress_merkle_proofs-kept}
use plonky.Hash.PathCompression.Compress.{all_kept, compress_merkle_proofs-kept}
use plonky.Common.Slices.{get_elem?-some}
use plonky.Hash.PathCompression.Layers.{node_digest, node_digest-parent, beside_path-path}
use plonky.Hash.Merkle.Build.{forest, roots}

length-path : {H : Type 0} (val : ℕ → ℕ → H) (left j n : ℕ) → length (path val left j n) ≡ left
unfolding path
length-path val zero j n = refl
length-path val (suc left) j n = ap suc (length-path val left (suc j) n)

All-length-paths :
    {H : Type 0} (val : ℕ → ℕ → H) (num_leaves m : ℕ) (indices : List ℕ)
    → All (λ p. length p ≡ m) (paths val num_leaves m 0 indices)
unfolding paths
All-length-paths val num_leaves m [] = tt
All-length-paths val num_leaves m (i ∷ indices) =
    (length-path val m 0 (i + num_leaves), All-length-paths val num_leaves m indices)

All-IsDeep :
    (h : ℕ) (indices : List ℕ)
    → All (λ i. i < 2 ^ h) indices
    → All (λ i. IsDeep h (i + 2 ^ h)) indices
All-IsDeep h [] below = tt
All-IsDeep h (i ∷ indices) (b, below) =
    ((omega arith, omega (arith, b)), All-IsDeep h indices below)

module _ {F H : Type 0} (hs : Hasher F H) (c m : ℕ) (ls : List (List F)) (lt : c + m < 64)
    (full : length ls ≡ 2 ^ (c + m)) where
  abbrev val : ℕ → ℕ → H
  val = node_digest hs (c + m) ls

  abbrev built : MerkleTree F H
  built = record { leaves = ls; digests = forest hs (2 ^ c) m ls; cap = roots hs (2 ^ c) m ls }

  made :
      (l x : ℕ)
      → l < m
      → InLayer (c + m) l x
      → parent hs x (val l x) (val l (bit_xor x 1)) ≡ val (suc l) (x / 2)
  made l x below deep = node_digest-parent hs (c + m) ls l x (omega arith) deep

  prove-path : (i : ℕ) → i < 2 ^ (c + m) → prove built i ≡ some (path val m 0 (i + 2 ^ (c + m)))
  prove-path i below =
      let path_of =
        siblings_from-IsPath hs m 0 m (i % 2 ^ m) i (subtree hs m i ls) (omega arith) refl
          (length-subtree hs c m i ls lt full below) in
      prove-tree hs c m i ls lt full below
      ∙ path_of.reads
      ∙ ap some (
          path_of.same
          ∙ beside_path-path hs (c + m) ls m c (i / 2 ^ m) m 0 (i % 2 ^ m) i (i + 2 ^ (c + m)) refl
              (omega arith) (mod-lt i (one-le-pow m 2 (omega arith))) (sym (div-add-mod' i (2 ^ m)))
              (omega (arith, div-one (i + 2 ^ (c + m)))))

  traverse-prove :
      (indices : List ℕ)
      → All (λ i. i < 2 ^ (c + m)) indices
      → traverse (prove built) indices ≡ some (paths val (2 ^ (c + m)) m 0 indices)
  unfolding paths
  traverse-prove [] below = refl
  traverse-prove (i ∷ indices) (b, below) = rw (prove-path i b, traverse-prove indices below) refl

  traverse-leaves :
      (indices : List ℕ)
      → All (λ i. i < 2 ^ (c + m)) indices
      → (leaves : List (List F)) × (traverse (get_elem? ls) indices ≡ some leaves)
        × Hashed hs (c + m) m (omega arith) val made indices leaves
  unfolding node_digest
  traverse-leaves [] below = ([], refl, tt)
  traverse-leaves (i ∷ indices) (b, below) =
      let (v, found) = get_elem?-some ls i (omega (arith, b, full)) in
      let (leaves, all_found, hashed) = traverse-leaves indices below in
      let place : i + 2 ^ (c + m) - 2 ^ (c + m - 0) ≡ i =
        omega (arith, ap (λ (t : ℕ). 2 ^ t) {x = c + m - 0} {y = c + m} (omega arith)) in
      (
        v ∷ leaves,
        rw (found, all_found) refl,
        (sym (block-leaf hs ls i found) ∙ ap (block hs ls 0) (sym place), hashed),
      )

  -- On `2 ^ (c + m)` leaves, fewer than `2 ^ 64`, with a cap of height `c`, and for any indices of
  -- leaves, at least one, in any order and with repetitions: `new` builds a tree, `prove` makes a
  -- proof for each index, `compress_merkle_proofs` ends on these proofs without a panic, and from
  -- the data of the leaves and what it returns `decompress_merkle_proofs` gives the proofs back.
  pub compress-decompress :
      (i : ℕ) (indices : List ℕ)
      → All (λ i. i < 2 ^ (c + m)) (i ∷ indices)
      → (t : MerkleTree F H) × (leaves : List (List F)) × (proofs compressed : List (List H)) × (new
            hs ls c
          ≡ some t)
        × (traverse (get_elem? ls) (i ∷ indices) ≡ some leaves)
        × (traverse (prove t) (i ∷ indices) ≡ some proofs)
        × (compress_merkle_proofs c (i ∷ indices) proofs ≡ some compressed)
        × (decompress_merkle_proofs hs leaves (i ∷ indices) compressed (c + m) c ≡ some proofs)
  unfolding paths
  compress-decompress i indices below =
      let (leaves, found, hashed) = traverse-leaves (i ∷ indices) below in
      let deep = All-IsDeep (c + m) (i ∷ indices) below in
      (
        built,
        leaves,
        paths val (2 ^ (c + m)) m 0 (i ∷ indices),
        all_kept (2 ^ (c + m)) (leaf_nodes (2 ^ (c + m)) (i ∷ indices) []) 0 [] (i ∷ indices)
            (paths val (2 ^ (c + m)) m 0 (i ∷ indices)),
        new-forest hs c m ls lt full,
        found,
        traverse-prove (i ∷ indices) below,
        compress_merkle_proofs-kept (c + m) m (omega arith) c (i ∷ indices)
            (path val m 0 (i + 2 ^ (c + m))) (paths val (2 ^ (c + m)) m 0 indices) refl deep
            (All-length-paths val (2 ^ (c + m)) m (i ∷ indices)),
        decompress_merkle_proofs-kept hs (c + m) m (omega arith) val made c (i ∷ indices) leaves
            refl deep hashed,
      )
