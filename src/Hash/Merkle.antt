-- ===== src/Hash/Merkle.antt =====
-- plonky2/src/hash/merkle_tree.rs and merkle_proofs.rs. The hasher is a parameter: the type of
-- digests, `hash_or_noop` on the data of a leaf, `two_to_one`, and the equality of digests.
-- A buffer that is filled in place is returned; a buffer that is only to be filled is its length.
-- `none` is a panic: a failed assertion or an index out of range.
pub mod Spec
pub mod Fill
pub mod Layout
pub mod Path
pub mod Build
pub mod Complete
pub mod Binding
mod Tests
use plonky.Common.{
  ℕ, zero, suc, ◌+◌, ◌-◌, ◌*◌, ◌/◌, ◌%◌, ◌^◌, bit_and, Bool, true, false, Option, none, some, List,
  [], ◌∷◌, ◌++◌, map, length, take, drop, get_elem?, leb, ◌==◌, if◌then◌else◌, assert, ◌>>=◌, ◌>>◌,
}
use plonky.Util.{log2_strict}

pub record Hasher (F H : Type 0) : Type 0 where
  pub hash_or_noop : List F → H
  pub two_to_one : H → H → H
  pub digest_eq : Discrete H

pub record MerkleTree (F H : Type 0) : Type 0 where
  pub leaves : List (List F)
  pub digests : List H
  pub cap : List H

module _ {A : Type 0} where
  -- `par_chunks_exact(size)`: `count` chunks; what is left at the end is dropped.
  unfoldable pub chunks : ℕ → ℕ → List A → List (List A)
  chunks zero size xs = []
  chunks (suc count) size xs = take size xs ∷ chunks count size (drop size xs)

module _ {H : Type 0} where
  -- The closure of `prove` from layer `i` on, with `left` layers to go.
  unfoldable pub siblings_from : ℕ → ℕ → ℕ → List H → Option (List H)
  siblings_from zero i pair_index digest_tree = some []
  siblings_from (suc left) i pair_index digest_tree =
      let parity = bit_and pair_index 1 in
      let pair_index' = pair_index / 2 in
      let siblings_index = pair_index' * 2 ^ (i + 1) + 2 ^ i - 1 in
      let sibling_index = 2 * siblings_index + (1 - parity) in
      do
        sibling ← get_elem? digest_tree sibling_index
        rest ← siblings_from left (i + 1) pair_index' digest_tree
        some (sibling ∷ rest)

  -- The loop of `verify_merkle_proof_to_cap`: the index and the digest at its end.
  unfoldable pub climb : (H → H → H) → ℕ → H → List H → ℕ × H
  climb two_to_one index current [] = (index, current)
  climb two_to_one index current (sibling ∷ siblings) =
      let bit = bit_and index 1 in
      climb two_to_one (index / 2)
        (if bit == 1 then two_to_one sibling current else two_to_one current sibling) siblings

module _ {F H : Type 0} where
  -- `prove`; a `MerkleProof` is its siblings.
  unfoldable pub prove : MerkleTree F H → ℕ → Option (List H)
  prove t leaf_index = do
    cap_height ← log2_strict (length t.cap)
    log2_leaves_len ← log2_strict (length t.leaves)
    let num_layers = log2_leaves_len - cap_height
    assert (leaf_index / 2 ^ (cap_height + num_layers) == 0)
    let tree_index = leaf_index / 2 ^ num_layers
    let tree_len = length t.digests / 2 ^ cap_height
    assert (leb (tree_len * (tree_index + 1)) (length t.digests))
    let digest_tree = take tree_len (drop (tree_len * tree_index) t.digests)
    siblings_from num_layers 0 (bit_and leaf_index (2 ^ num_layers - 1)) digest_tree

module _ {F H : Type 0} (hs : Hasher F H) where
  -- `fill_subtree` on a buffer of length `len`: what it writes, and the digest that it returns.
  -- The recursion halves `len`, so `len` rounds of fuel and one more are enough.
  unfoldable pub fill_subtree : ℕ → ℕ → List (List F) → Option (List H × H)
  fill_subtree zero len leaves = none
  fill_subtree (suc fuel) len leaves =
      let left = fill_subtree fuel (len / 2 - 1) (take (length leaves / 2) leaves) in
      let right = fill_subtree fuel (len - len / 2 - 1) (drop (length leaves / 2) leaves) in
      let leaf = (do l ← get_elem? leaves 0; some ([], hs.hash_or_noop l)) in
      let node = (do
        (left_digests, left_digest) ← left
        (right_digests, right_digest) ← right
        some (
          left_digests ++ (left_digest ∷ right_digest ∷ right_digests),
          hs.two_to_one left_digest right_digest,
        )) in
      do assert (length leaves == len / 2 + 1); if len == 0 then leaf else node

  -- The `for_each` over the subtrees: all their digests in a row, and the cap.
  unfoldable pub fill_chunks : ℕ → List (List (List F)) → Option (List H × List H)
  fill_chunks len [] = some ([], [])
  fill_chunks len (c ∷ cs) = do
    (subtree_digests, subtree_cap) ← fill_subtree (len + 1) len c
    (digests, cap) ← fill_chunks len cs
    some (subtree_digests ++ digests, subtree_cap ∷ cap)

  unfoldable pub fill_digests_buf : ℕ → ℕ → List (List F) → ℕ → Option (List H × List H)
  fill_digests_buf digests_len cap_len leaves cap_height =
      let subtree_digests_len = digests_len / 2 ^ cap_height in
      let subtree_leaves_len = length leaves / 2 ^ cap_height in
      let all_cap = (do assert (cap_len == length leaves); some ([], map hs.hash_or_noop leaves)) in
      let subtrees = (do
        assert (leb 1 subtree_digests_len)
        assert (leb 1 subtree_leaves_len)
        assert (digests_len / subtree_digests_len == cap_len)
        assert (digests_len / subtree_digests_len == length leaves / subtree_leaves_len)
        fill_chunks subtree_digests_len
            (chunks (length leaves / subtree_leaves_len) subtree_leaves_len leaves)) in
      if digests_len == 0 then all_cap else subtrees

  -- `MerkleTree::new`
  unfoldable pub new : List (List F) → ℕ → Option (MerkleTree F H)
  new leaves cap_height = do
    log2_leaves_len ← log2_strict (length leaves)
    assert (leb cap_height log2_leaves_len)
    (digests, cap) ←
        fill_digests_buf (2 * (length leaves - 2 ^ cap_height)) (2 ^ cap_height) leaves cap_height
    some (record { leaves = leaves; digests = digests; cap = cap })

  -- `ensure!` at the end of the verification: `true` is `Ok(())`, `false` the error
  -- "Invalid Merkle proof.".
  unfoldable pub ensure_root : List H → ℕ × H → Option Bool
  ensure_root cap (index, current) = do
    root ← get_elem? cap index
    some (elim (hs.digest_eq current root) [ yes _ ↦ true | no _ ↦ false ])

  unfoldable pub verify_merkle_proof_to_cap : List F → ℕ → List H → List H → Option Bool
  unfolding climb ensure_root
  verify_merkle_proof_to_cap leaf_data leaf_index cap siblings =
      ensure_root cap (climb hs.two_to_one leaf_index (hs.hash_or_noop leaf_data) siblings)

  unfoldable pub verify_merkle_proof : List F → ℕ → H → List H → Option Bool
  unfolding verify_merkle_proof_to_cap
  verify_merkle_proof leaf_data leaf_index merkle_root siblings =
      verify_merkle_proof_to_cap leaf_data leaf_index (merkle_root ∷ []) siblings
