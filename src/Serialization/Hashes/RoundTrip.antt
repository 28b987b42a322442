-- ===== src/Serialization/Hashes/RoundTrip.antt =====
-- plonky2/src/util/serialization/mod.rs: hashes, Merkle caps, proofs and trees are read as they were
-- written.
use plonky.Common.{
  ℕ, ◌^◌, ◌<◌, ◌≡◌, refl, sym, ap, subst, arith, Option, some, List, length, All, lt→ltb,
}
use plonky.Fri.Params.{one_shl}
use plonky.Hash.Merkle.{MerkleTree}
use plonky.Util.{log2_strict}
use plonky.Util.Logs.{log2_strict-pow}
use plonky.Serialization.{
  Reader, ◌>>=◌, read_exact, read_usize, read_n, write_each, read_vec, write_vec,
}
use plonky.Serialization.Encodes.{
  Encodes, Encodes-bind, Encodes-last, Encodes-map, Encodes-read_exact, Encodes-assoc,
}
use plonky.Serialization.Words.{
  Encodes-length_u8, Encodes-usize, Encodes-each, Encodes-vec, Encodes-field_vec, IsField, IsVec,
  IsArray,
}
use plonky.Serialization.Hashes.{
  HashBytes, lift, read_hash, write_hash, read_hash_vec, write_hash_vec, read_merkle_cap,
  write_merkle_cap, read_merkle_proof, write_merkle_proof, read_field_row, write_field_row,
  write_checked, read_merkle_tree, write_merkle_tree,
}

-- A computation that does not panic.
pub Encodes-lift :
    {A B : Type 0} (f : A → Reader B) {o : Option A} {a : A} {b : B} {w : Option (List ℕ)}
    → o ≡ some a
    → Encodes (f a) b w
    → Encodes (lift o >>= f) b w
unfolding lift ◌>>=◌
Encodes-lift f {o} {a} {b} {w} e h = subst (λ o. Encodes (lift o >>= f) b w) (sym e) h

pub one_shl-eq : (k : ℕ) → k < 64 → one_shl k ≡ some (2 ^ k)
unfolding one_shl
one_shl-eq k h = rw (lt→ltb k 64 h) refl

pub Encodes-field_row :
    (v : List ℕ) → IsVec IsField v → Encodes read_field_row v (write_field_row v)
unfolding read_field_row write_field_row
Encodes-field_row v (small, h) =
    Encodes-bind _ (Encodes-usize small) (Encodes-field_vec (length v) v (refl, h))

abbrev pub IsFieldRows : List (List ℕ) → Type 0
IsFieldRows v = IsVec (IsVec IsField) v

pub Encodes-field_rows :
    (v : List (List ℕ))
    → IsFieldRows v
    → Encodes (read_vec read_field_row) v (write_vec write_field_row v)
Encodes-field_rows v h = Encodes-vec (IsVec IsField) Encodes-field_row v h

module _ {H : Type 0} (hb : HashBytes H) where
  -- The digest has `hash_size` bytes, and `from_bytes` returns it from them.
  abbrev pub IsHash : H → Type 0
  IsHash h = (length (hb.to_bytes h) ≡ hb.hash_size) × (hb.from_bytes (hb.to_bytes h) ≡ some h)

  pub Encodes-hash : (h : H) → IsHash h → Encodes (read_hash hb) h (write_hash hb h)
  unfolding read_hash write_hash lift
  Encodes-hash h (size, back) =
      Encodes-last (λ buf. lift (hb.from_bytes buf))
        (subst (λ n. Encodes (read_exact n) (hb.to_bytes h) (some (hb.to_bytes h))) size
          (Encodes-read_exact (hb.to_bytes h)))
        (λ rest. ap (λ o. lift o rest) back)

  pub Encodes-hashes :
      (v : List H)
      → {n : ℕ} → IsArray n IsHash v
      → Encodes (read_n n (read_hash hb)) v (write_each (write_hash hb) v)
  Encodes-hashes v h = Encodes-each IsHash Encodes-hash h

  Encodes-hash_vec :
      (v : List H)
      → All IsHash v
      → Encodes (read_hash_vec hb (length v)) v (write_each (write_hash hb) v)
  unfolding read_hash_vec
  Encodes-hash_vec v h = Encodes-hashes v (refl, h)

  -- A cap of the given height.
  abbrev pub IsCap : ℕ → List H → Type 0
  IsCap k v = (k < 64) × IsArray (2 ^ k) IsHash v

  pub Encodes-merkle_cap :
      {k : ℕ} (v : List H) → IsCap k v → Encodes (read_merkle_cap hb k) v (write_merkle_cap hb v)
  unfolding read_merkle_cap write_merkle_cap
  Encodes-merkle_cap {k} v (small, h) = Encodes-lift _ (one_shl-eq k small) (Encodes-hashes v h)

  abbrev pub IsMerkleProof : List H → Type 0
  IsMerkleProof v = (length v < 256) × All IsHash v

  pub Encodes-merkle_proof :
      (v : List H) → IsMerkleProof v → Encodes (read_merkle_proof hb) v (write_merkle_proof hb v)
  unfolding read_merkle_proof write_merkle_proof
  Encodes-merkle_proof v (small, h) =
      Encodes-bind _ (Encodes-length_u8 (length v) small) (Encodes-hashes v (refl, h))

  -- `cap.height()` returns the height of a cap.
  pub Encodes-height :
      {k : ℕ} (v : List H)
      → IsCap k v
      → Encodes read_usize k (write_checked (log2_strict (length v)))
  unfolding write_checked
  Encodes-height {k} v (small, (size, h)) =
      rw (size, log2_strict-pow k small) (Encodes-usize (omega (arith, small)))

  pub record IsMerkleTree (t : MerkleTree ℕ H) : Type 0 where
    pub cap_height : ℕ
    pub leaves : IsFieldRows t.leaves
    pub digests : IsVec IsHash t.digests
    pub cap : IsCap cap_height t.cap

  pub Encodes-merkle_tree :
      (t : MerkleTree ℕ H)
      → IsMerkleTree t
      → Encodes (read_merkle_tree hb) t (write_merkle_tree hb t)
  unfolding read_merkle_tree write_merkle_tree write_hash_vec write_vec
  Encodes-merkle_tree t h = Encodes-bind _ (Encodes-field_rows t.leaves h.leaves) (
      Encodes-assoc _ _ _ (
        Encodes-bind _ (Encodes-usize (h.digests.0)) (
          Encodes-bind _ (Encodes-hash_vec t.digests (h.digests.1)) (
            Encodes-bind _ (Encodes-height t.cap h.cap)
              (Encodes-map _ (Encodes-merkle_cap t.cap h.cap))))))
