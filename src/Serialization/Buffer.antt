-- ===== src/Serialization/Buffer.antt =====
-- plonky2/src/util/serialization/mod.rs: `Buffer`, a byte slice with a position, behind the readers
-- that see its unread bytes only.
use plonky.Common.{
  ℕ, ◌+◌, ◌-◌, ◌≤◌, ◌≡◌, refl, sym, ap, arith, Bool-cases, List, length, take, drop, length-drop,
  ltb, ltb→le, if◌then◌else◌, inl, inr,
}
use plonky.Common.Slices.{drop-drop}
use plonky.Serialization as Readers
use plonky.Serialization.{IoResult, ok, io_error, panic}

pub record Buffer : Type 0 where
  pub bytes : List ℕ
  pub pos : ℕ

unfoldable pub new : List ℕ → Buffer
new bytes = record { bytes = bytes; pos = 0 }

unfoldable pub unread_bytes : Buffer → List ℕ
unread_bytes b = drop b.pos b.bytes

-- The position is never past the end.
unfoldable pub remaining : Buffer → ℕ
remaining b = length b.bytes - b.pos

unfoldable pub read_exact : ℕ → Buffer → IoResult (List ℕ × Buffer)
read_exact n b =
    if ltb (remaining b) n
    then io_error
    else ok (take n (unread_bytes b), record b { pos = b.pos + n })

-- What a reader sees of a result, and that the position of a result is within the bytes.
abbrev pub seen : IoResult (List ℕ × Buffer) → IoResult (List ℕ × List ℕ)
seen (ok (x, b)) = ok (x, unread_bytes b)
seen io_error = io_error
seen panic = panic

abbrev pub IsWithin : IoResult (List ℕ × Buffer) → Type 0
IsWithin (ok (x, b)) = b.pos ≤ length b.bytes
IsWithin io_error = Unit
IsWithin panic = Unit

-- On a buffer whose position is within its bytes, `read_exact` gives what the reader of that name
-- gives on its unread bytes, with the unread bytes after it, or the same error; and the position
-- stays within the bytes.
pub read_exact-refines :
    (n : ℕ) (b : Buffer)
    → b.pos ≤ length b.bytes
    → (seen (read_exact n b) ≡ Readers.read_exact n (unread_bytes b)) × IsWithin (read_exact n b)
unfolding read_exact remaining unread_bytes Readers.read_exact
read_exact-refines n b h =
    let same : length (drop b.pos b.bytes) ≡ length b.bytes - b.pos = length-drop b.pos b.bytes in
    elim (Bool-cases (ltb (length b.bytes - b.pos) n)) [
      | inl short ↦ rw (same, short) (refl, tt)
      | inr enough ↦
          rw (same, enough)
            (
              ap (λ rest. ok (take n (drop b.pos b.bytes), rest))
                  (sym (drop-drop n b.pos (b.pos + n) b.bytes refl)),
              omega (arith, h, ltb→le (length b.bytes - b.pos) n enough),
            )
    ]
