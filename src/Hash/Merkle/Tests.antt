-- ===== src/Hash/Merkle/Tests.antt =====
-- The theorems on Merkle trees with a toy hasher, on eight leaves and a cap of two digests.
use native.Mathlib.Decide.{ℕ_discrete}
use plonky.Common.{
  ℕ, ◌+◌, ◌*◌, ◌%◌, ◌≡◌, ◌⊎◌, refl, arith, some, true, false, List, [], ◌∷◌, length,
}
use plonky.Util.{log2_strict}
use plonky.Common.Words.{trailing_zeros}
use plonky.Hash.Merkle.{
  Hasher, MerkleTree, fill_subtree, chunks, fill_chunks, fill_digests_buf, new, prove,
  siblings_from, verify_merkle_proof_to_cap,
}
use plonky.Hash.Merkle.Build.{forest, roots, new-forest}
use plonky.Hash.Merkle.Complete.{prove-verify}
use plonky.Hash.Merkle.Binding.{Collision, verify-binding}

abbrev first_element : List ℕ → ℕ
first_element [] = 0
first_element (x ∷ xs) = x

abbrev toy : Hasher ℕ ℕ
toy = record {
  hash_or_noop = first_element;
  two_to_one = λ a b. (3 * a + 5 * b + 1) % 1009;
  digest_eq = ℕ_discrete;
}

abbrev eight : List (List ℕ)
eight = (1 ∷ []) ∷ (2 ∷ []) ∷ (3 ∷ []) ∷ (4 ∷ []) ∷ (5 ∷ []) ∷ (6 ∷ []) ∷ (7 ∷ []) ∷ (8 ∷ []) ∷ []

abbrev tree_of_eight : MerkleTree ℕ ℕ
tree_of_eight = record {
  leaves = eight;
  digests = 1 ∷ 2 ∷ 14 ∷ 30 ∷ 3 ∷ 4 ∷ 5 ∷ 6 ∷ 46 ∷ 62 ∷ 7 ∷ 8 ∷ [];
  cap = 193 ∷ 449 ∷ [];
}

new-eight : new toy eight 1 ≡ some tree_of_eight
unfolding new log2_strict trailing_zeros fill_digests_buf chunks fill_chunks fill_subtree
new-eight = refl

prove-six : prove tree_of_eight 6 ≡ some (8 ∷ 46 ∷ [])
unfolding prove log2_strict trailing_zeros siblings_from
prove-six = refl

accepts_six : verify_merkle_proof_to_cap toy (7 ∷ []) 6 (193 ∷ 449 ∷ []) (8 ∷ 46 ∷ []) ≡ some true
unfolding verify_merkle_proof_to_cap ℕ_discrete
accepts_six = refl

rejects_other :
    verify_merkle_proof_to_cap toy (9 ∷ []) 6 (193 ∷ 449 ∷ []) (8 ∷ 46 ∷ []) ≡ some false
unfolding verify_merkle_proof_to_cap ℕ_discrete
rejects_other = refl

new-forest_example :
    new toy eight 1
    ≡ some (record { leaves = eight; digests = forest toy 2 2 eight; cap = roots toy 2 2 eight })
new-forest_example = new-forest toy 1 2 eight (omega arith) refl

prove-verify_example :
    (t : MerkleTree ℕ ℕ) × (siblings : List ℕ) × (new toy eight 1 ≡ some t)
    × (prove t 6 ≡ some siblings)
    × (length siblings ≡ 2)
    × (verify_merkle_proof_to_cap toy (7 ∷ []) 6 t.cap siblings ≡ some true)
prove-verify_example = prove-verify toy 1 2 6 eight (7 ∷ []) (omega arith) refl refl (omega arith)

verify-binding_example :
    ((◌≡◌ {A = ℕ} 7 7) × (◌≡◌ {A = List ℕ} (8 ∷ 46 ∷ []) (8 ∷ 46 ∷ []))) ⊎ Collision toy.two_to_one
unfolding verify_merkle_proof_to_cap
verify-binding_example =
    verify-binding toy 6 (193 ∷ 449 ∷ []) (7 ∷ []) (7 ∷ 0 ∷ []) (8 ∷ 46 ∷ []) (8 ∷ 46 ∷ []) refl
      accepts_six accepts_six
