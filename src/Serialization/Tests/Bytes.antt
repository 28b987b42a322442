-- ===== src/Serialization/Tests/Bytes.antt =====
-- plonky2/src/util/serialization/mod.rs and plonky2/src/hash/hash_types.rs: the theorems on buffers
-- and on the bytes of digests, at small inputs.
use plonky.Common.{ℕ, ◌≡◌, arith, List, [], ◌∷◌}
use plonky.Serialization as Readers
use plonky.Serialization.Buffer.{
  Buffer, unread_bytes, read_exact, seen, IsWithin, read_exact-refines,
}

-- Three bytes, one of which was read.
abbrev buffer : Buffer
buffer = record { bytes = 1 ∷ 2 ∷ 3 ∷ []; pos = 1 }

read_exact-refines_example :
    (seen (read_exact 2 buffer) ≡ Readers.read_exact 2 (unread_bytes buffer))
    × IsWithin (read_exact 2 buffer)
read_exact-refines_example = read_exact-refines 2 buffer (omega arith)

abbrev elements : List ℕ
elements = 1 ∷ 2 ∷ 18446744069414584320 ∷ 0 ∷ []
