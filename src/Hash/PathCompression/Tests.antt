-- ===== src/Hash/PathCompression/Tests.antt =====
-- Compressed proofs of a tree with a toy hasher, on eight leaves and a cap of two digests.
use native.Mathlib.Decide.{ℕ_discrete}
use plonky.Common.{
  ℕ, ◌+◌, ◌*◌, ◌%◌, ◌≡◌, refl, arith, some, none, List, [], ◌∷◌, traverse, get_elem?,
}
use plonky.Hash.Merkle.{Hasher, MerkleTree, new, prove}
use plonky.Hash.PathCompression.{compress_merkle_proofs, decompress_merkle_proofs}
use plonky.Hash.PathCompression.Trees.{compress-decompress}

abbrev first_element : List ℕ → ℕ
first_element [] = 0
first_element (x ∷ xs) = x

abbrev toy : Hasher ℕ ℕ
toy = record {
  hash_or_noop = first_element;
  two_to_one = λ a b. (3 * a + 5 * b + 1) % 1009;
  digest_eq = ℕ_discrete;
}

abbrev eight : List (List ℕ)
eight = (1 ∷ []) ∷ (2 ∷ []) ∷ (3 ∷ []) ∷ (4 ∷ []) ∷ (5 ∷ []) ∷ (6 ∷ []) ∷ (7 ∷ []) ∷ (8 ∷ []) ∷ []

-- Of the leaves 6, 7 and 4: the first two are each other's sibling, and their path has the parent
-- of the third for a sibling.
compress-three :
    compress_merkle_proofs {H = ℕ} 1
      (6 ∷ 7 ∷ 4 ∷ [])
      ((8 ∷ 46 ∷ []) ∷ (7 ∷ 46 ∷ []) ∷ (6 ∷ 62 ∷ []) ∷ [])
    ≡ some ([] ∷ [] ∷ (6 ∷ []) ∷ [])
unfolding compress_merkle_proofs
compress-three = refl

decompress-three :
    decompress_merkle_proofs toy
      ((7 ∷ []) ∷ (8 ∷ []) ∷ (5 ∷ []) ∷ [])
      (6 ∷ 7 ∷ 4 ∷ [])
      ([] ∷ [] ∷ (6 ∷ []) ∷ [])
      3
      1
    ≡ some ((8 ∷ 46 ∷ []) ∷ (7 ∷ 46 ∷ []) ∷ (6 ∷ 62 ∷ []) ∷ [])
unfolding decompress_merkle_proofs
decompress-three = refl

-- A sibling too few is a panic.
decompress_short : decompress_merkle_proofs toy ((7 ∷ []) ∷ []) (6 ∷ []) ((8 ∷ []) ∷ []) 3 1 ≡ none
unfolding decompress_merkle_proofs
decompress_short = refl

compress-decompress_example :
    (t : MerkleTree ℕ ℕ) × (leaves : List (List ℕ)) × (proofs compressed : List (List ℕ)) × (new toy
        eight 1
      ≡ some t)
    × (traverse (get_elem? eight) (6 ∷ 7 ∷ 4 ∷ []) ≡ some leaves)
    × (traverse (prove t) (6 ∷ 7 ∷ 4 ∷ []) ≡ some proofs)
    × (compress_merkle_proofs 1 (6 ∷ 7 ∷ 4 ∷ []) proofs ≡ some compressed)
    × (decompress_merkle_proofs toy leaves (6 ∷ 7 ∷ 4 ∷ []) compressed 3 1 ≡ some proofs)
compress-decompress_example =
    compress-decompress toy 1 2 eight (omega arith) refl 6 (7 ∷ 4 ∷ []) (omega arith)
