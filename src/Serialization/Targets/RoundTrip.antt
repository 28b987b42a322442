-- ===== src/Serialization/Targets/RoundTrip.antt =====
-- plonky2/src/util/serialization/mod.rs: targets are read as they were written.
use plonky.Common.{ℕ, ◌<◌, refl, List, length, All}
use plonky.Plonk.PermutationArgument.{Target, wire, virtual_target}
use plonky.Serialization.Encodes.{Encodes, Encodes-bind, Encodes-map}
use plonky.Serialization.Words.{
  Encodes-length_u8, Encodes-usize, Encodes-bool, Encodes-each, Encodes-vec, IsUsize, IsVec,
  IsArray,
}
use plonky.Serialization.Targets.{
  BoolTarget, read_virtual_target, read_wire, read_target, write_target, read_target_bool,
  write_target_bool, read_target_ext, write_target_ext, read_target_vec, write_target_vec,
  read_target_ext_vec, write_target_ext_vec, read_target_hash, write_target_hash,
  read_target_merkle_cap, write_target_merkle_cap, read_target_merkle_proof,
  write_target_merkle_proof,
}

-- Indices that a `u64` holds.
abbrev pub IsTarget : Target → Type 0
IsTarget (wire w) = IsUsize w.row × IsUsize w.column
IsTarget (virtual_target i) = IsUsize i

pub Encodes-target : (t : Target) → IsTarget t → Encodes read_target t (write_target t)
unfolding read_target write_target read_wire read_virtual_target
Encodes-target (wire w) (hr, hc) =
    Encodes-bind _ Encodes-bool
      (Encodes-bind _ (Encodes-usize hr) (Encodes-map _ (Encodes-usize hc)))
Encodes-target (virtual_target i) h = Encodes-bind _ Encodes-bool (Encodes-map _ (Encodes-usize h))

pub Encodes-target_bool :
    (b : BoolTarget) → IsTarget b.target → Encodes read_target_bool b (write_target_bool b)
unfolding read_target_bool write_target_bool
Encodes-target_bool b h = Encodes-map _ (Encodes-target b.target h)

abbrev pub IsTargetVec : List Target → Type 0
IsTargetVec v = IsVec IsTarget v

pub Encodes-target_vec :
    (v : List Target) → IsTargetVec v → Encodes read_target_vec v (write_target_vec v)
unfolding read_target_vec write_target_vec
Encodes-target_vec v h = Encodes-vec IsTarget Encodes-target v h

-- Hashes, caps and Merkle proofs.
abbrev pub IsHashTarget : List Target → Type 0
IsHashTarget h = IsArray 4 IsTarget h

pub Encodes-target_hash :
    (h : List Target) → IsHashTarget h → Encodes read_target_hash h (write_target_hash h)
unfolding read_target_hash write_target_hash
Encodes-target_hash hash h = Encodes-each IsTarget Encodes-target h

abbrev pub IsCapTarget : List (List Target) → Type 0
IsCapTarget v = IsVec IsHashTarget v

pub Encodes-target_merkle_cap :
    (v : List (List Target))
    → IsCapTarget v
    → Encodes read_target_merkle_cap v (write_target_merkle_cap v)
unfolding read_target_merkle_cap write_target_merkle_cap
Encodes-target_merkle_cap v h = Encodes-vec IsHashTarget Encodes-target_hash v h

abbrev pub IsMerkleProofTarget : List (List Target) → Type 0
IsMerkleProofTarget v = (length v < 256) × All IsHashTarget v

pub Encodes-target_merkle_proof :
    (v : List (List Target))
    → IsMerkleProofTarget v
    → Encodes read_target_merkle_proof v (write_target_merkle_proof v)
unfolding read_target_merkle_proof write_target_merkle_proof
Encodes-target_merkle_proof v (small, h) =
    Encodes-bind _ (Encodes-length_u8 (length v) small)
      (Encodes-each IsHashTarget Encodes-target_hash (refl, h))

module _ (d : ℕ) where
  abbrev pub IsExtTarget : List Target → Type 0
  IsExtTarget x = IsArray d IsTarget x

  Encodes-target_ext :
      (x : List Target) → IsExtTarget x → Encodes (read_target_ext d) x (write_target_ext x)
  unfolding read_target_ext write_target_ext
  Encodes-target_ext x h = Encodes-each IsTarget Encodes-target h

  abbrev pub IsExtTargetVec : List (List Target) → Type 0
  IsExtTargetVec v = IsVec IsExtTarget v

  pub Encodes-target_ext_vec :
      (v : List (List Target))
      → IsExtTargetVec v
      → Encodes (read_target_ext_vec d) v (write_target_ext_vec v)
  unfolding read_target_ext_vec write_target_ext_vec
  Encodes-target_ext_vec v h = Encodes-vec IsExtTarget Encodes-target_ext v h
