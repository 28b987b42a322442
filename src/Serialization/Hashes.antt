-- ===== src/Serialization/Hashes.antt =====
-- plonky2/src/util/serialization/mod.rs: hashes, Merkle caps, proofs and trees.
pub mod RoundTrip
use plonky.Common.{ℕ, Option, none, some, List, length}
use plonky.Fri.Params.{one_shl}
use plonky.Hash.Merkle.{MerkleTree}
use plonky.Util.{log2_strict}
use plonky.Serialization.{
  ok, panic, Reader, ◌>>=◌, ret, ◌⊕◌, read_exact, read_u8, read_usize, write_usize, write_length_u8,
  read_n, write_each, read_vec, write_vec, read_field_vec, write_field_vec,
}

-- `H::HASH_SIZE` and the conversions of `GenericHashOut`; `from_bytes` may panic.
pub record HashBytes (H : Type 0) : Type 0 where
  pub hash_size : ℕ
  pub to_bytes : H → List ℕ
  pub from_bytes : List ℕ → Option H

-- An expression that may panic.
unfoldable pub lift : {A : Type 0} → Option A → Reader A
lift (some a) bytes = ok (a, bytes)
lift none bytes = panic

module _ {H : Type 0} (hb : HashBytes H) where
  unfoldable pub read_hash : Reader H
  read_hash = do buf ← read_exact hb.hash_size; lift (hb.from_bytes buf)

  unfoldable pub write_hash : H → Option (List ℕ)
  write_hash h = some (hb.to_bytes h)

  unfoldable pub read_hash_vec : ℕ → Reader (List H)
  read_hash_vec length = read_n length read_hash

  -- The length is written here, and read by the caller of `read_hash_vec`.
  unfoldable pub write_hash_vec : List H → Option (List ℕ)
  write_hash_vec v = write_vec write_hash v

  unfoldable pub read_merkle_cap : ℕ → Reader (List H)
  read_merkle_cap cap_height = do
    cap_length ← lift (one_shl cap_height)
    read_n cap_length read_hash

  unfoldable pub write_merkle_cap : List H → Option (List ℕ)
  write_merkle_cap v = write_each write_hash v

  unfoldable pub read_merkle_proof : Reader (List H)
  read_merkle_proof = do length ← read_u8; read_n length read_hash

  unfoldable pub write_merkle_proof : List H → Option (List ℕ)
  write_merkle_proof siblings = write_length_u8 (length siblings) ⊕ write_each write_hash siblings

unfoldable pub read_field_row : Reader (List ℕ)
read_field_row = do leaf_len ← read_usize; read_field_vec leaf_len

unfoldable pub write_field_row : List ℕ → Option (List ℕ)
write_field_row v = write_usize (length v) ⊕ write_field_vec v

-- A `usize` that is the result of an expression that may panic.
unfoldable pub write_checked : Option ℕ → Option (List ℕ)
write_checked none = none
write_checked (some n) = write_usize n

module _ {H : Type 0} (hb : HashBytes H) where
  unfoldable pub read_merkle_tree : Reader (MerkleTree ℕ H)
  read_merkle_tree = do
    leaves ← read_vec read_field_row
    digests_len ← read_usize
    digests ← read_hash_vec hb digests_len
    cap_height ← read_usize
    cap' ← read_merkle_cap hb cap_height
    ret (record { leaves = leaves; digests = digests; cap = cap' })

  -- `cap.height()` is `log2_strict(cap.len())`.
  unfoldable pub write_merkle_tree : MerkleTree ℕ H → Option (List ℕ)
  write_merkle_tree tree =
      write_vec write_field_row tree.leaves
      ⊕ write_hash_vec hb tree.digests
      ⊕ write_checked (log2_strict (length tree.cap))
      ⊕ write_merkle_cap hb tree.cap
