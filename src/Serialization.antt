-- ===== src/Serialization.antt =====
-- plonky2/src/util/serialization/mod.rs: readers and writers over bytes. A byte is a number. A
-- reader takes the bytes that its `Buffer` has not read yet; a writer returns the bytes that it
-- appends, `none` where it panics or fails. Memory is taken to be unbounded.
pub mod Encodes
pub mod Words
pub mod Buffer
pub mod Targets
pub mod Hashes
pub mod Configs
pub mod CommonData
pub mod Proofs
pub mod Circuits
pub mod Compressed
mod Tests
use plonky.Common.{
  ℕ, zero, suc, ◌+◌, ◌*◌, ◌/◌, ◌%◌, ◌^◌, Bool, true, false, Option, none, some, List, [], ◌∷◌, ◌++◌,
  length, take, drop, ltb, leb, ◌==◌, if◌then◌else◌,
}
use plonky.Field.Goldilocks.{order, to_canonical_u64}

-- `IoResult`, with the panics apart.
pub data IoResult (A : Type 0) : Type 0 where
  ok : A → IoResult A
  io_error : IoResult A
  panic : IoResult A

abbrev pub Reader : Type 0 → Type 0
Reader A = List ℕ → IoResult (A × List ℕ)

abbrev pub and_then :
    {A B : Type 0} → IoResult (A × List ℕ) → (A → Reader B) → IoResult (B × List ℕ)
and_then (ok (a, rest)) f = f a rest
and_then io_error f = io_error
and_then panic f = panic

infixl 5 ◌>>=◌
unfoldable pub ◌>>=◌ : {A B : Type 0} → Reader A → (A → Reader B) → Reader B
◌>>=◌ m f bytes = and_then (m bytes) f

unfoldable pub ret : {A : Type 0} → A → Reader A
ret a bytes = ok (a, bytes)

unfoldable pub fail : {A : Type 0} → Reader A
fail bytes = io_error

-- One writer after the other.
infixr 64 ◌⊕◌
unfoldable pub ◌⊕◌ : Option (List ℕ) → Option (List ℕ) → Option (List ℕ)
none ⊕ w = none
some xs ⊕ none = none
some xs ⊕ some ys = some (xs ++ ys)

-- `Buffer::read_exact`
unfoldable pub read_exact : ℕ → Reader (List ℕ)
read_exact n bytes = if ltb (length bytes) n then io_error else ok (take n bytes, drop n bytes)

-- `to_le_bytes` and `from_le_bytes`, on words of `width` bytes.
unfoldable pub to_le_bytes : ℕ → ℕ → List ℕ
to_le_bytes zero x = []
to_le_bytes (suc width) x = (x % 256) ∷ to_le_bytes width (x / 256)

unfoldable pub from_le_bytes : List ℕ → ℕ
from_le_bytes [] = 0
from_le_bytes (b ∷ bs) = b + 256 * from_le_bytes bs

unfoldable pub read_word : ℕ → Reader ℕ
read_word width = do buf ← read_exact width; ret (from_le_bytes buf)

unfoldable pub read_u8 : Reader ℕ
read_u8 = read_word 1

unfoldable pub read_u16 : Reader ℕ
read_u16 = read_word 2

unfoldable pub read_u32 : Reader ℕ
read_u32 = read_word 4

unfoldable pub read_usize : Reader ℕ
read_usize = read_word 8

unfoldable pub write_u8 : ℕ → Option (List ℕ)
write_u8 x = some (to_le_bytes 1 x)

unfoldable pub write_u16 : ℕ → Option (List ℕ)
write_u16 x = some (to_le_bytes 2 x)

unfoldable pub write_u32 : ℕ → Option (List ℕ)
write_u32 x = some (to_le_bytes 4 x)

unfoldable pub write_usize : ℕ → Option (List ℕ)
write_usize x = some (to_le_bytes 8 x)

unfoldable pub bool_of_u8 : ℕ → Reader Bool
bool_of_u8 i = if i == 0 then ret false else if i == 1 then ret true else fail

unfoldable pub read_bool : Reader Bool
read_bool = do i ← read_u8; bool_of_u8 i

unfoldable pub write_bool : Bool → Option (List ℕ)
write_bool true = write_u8 1
write_bool false = write_u8 0

-- `F::from_canonical_u64` asserts that the word is below the order.
unfoldable pub field_of_u64 : ℕ → Reader ℕ
field_of_u64 n bytes = if ltb n order then ok (n, bytes) else panic

unfoldable pub read_field : Reader ℕ
read_field = do n ← read_word 8; field_of_u64 n

unfoldable pub write_field : ℕ → Option (List ℕ)
write_field x = some (to_le_bytes 8 (to_canonical_u64 x))

-- The length of a Merkle proof is a byte; `try_into().expect(..)` panics on a longer one.
unfoldable pub write_length_u8 : ℕ → Option (List ℕ)
write_length_u8 length = if ltb length 256 then write_u8 length else none

module _ {A : Type 0} where
  -- `(0..length).map(|_| read).collect()`, and a `for` loop that pushes.
  unfoldable pub read_n : ℕ → Reader A → Reader (List A)
  read_n zero read = ret []
  read_n (suc n) read = do x ← read; xs ← read_n n read; ret (x ∷ xs)

  unfoldable pub write_each : (A → Option (List ℕ)) → List A → Option (List ℕ)
  write_each write [] = some []
  write_each write (x ∷ xs) = write x ⊕ write_each write xs

  -- A vector with its length before it.
  unfoldable pub read_vec : Reader A → Reader (List A)
  read_vec read = do len ← read_usize; read_n len read

  unfoldable pub write_vec : (A → Option (List ℕ)) → List A → Option (List ℕ)
  write_vec write xs = write_usize (length xs) ⊕ write_each write xs

unfoldable pub read_usize_vec : Reader (List ℕ)
read_usize_vec = read_vec read_usize

unfoldable pub write_usize_vec : List ℕ → Option (List ℕ)
write_usize_vec v = write_vec write_usize v

unfoldable pub read_field_vec : ℕ → Reader (List ℕ)
read_field_vec length = read_n length read_field

unfoldable pub write_field_vec : List ℕ → Option (List ℕ)
write_field_vec v = write_each write_field v
