-- ===== src/Hash/HashTypes/HashOut.antt =====
-- plonky2/src/hash/hash_types.rs: a `HashOut`, the list of its four elements, and its bytes.
use plonky.Common.{
  ℕ, zero, suc, ◌*◌, ◌<◌, ◌≡◌, refl, ap, arith, Option, some, List, [], ◌∷◌, ◌++◌, length, take,
  map, All, length-append, length-map, ◌≤◌, ◌∙◌, ◌==◌, assert, ◌>>=◌, ◌>>◌,
}
use plonky.Common.Slices.{take_all, take-append, drop-append}
use plonky.Field.Goldilocks.{order, to_canonical_u64}
use plonky.Hash.HashTypes.{collect, from_canonical_u64}
use plonky.Hash.Sponge.{chunks, num_hash_out_elts}
use plonky.Serialization.{to_le_bytes, from_le_bytes}
use plonky.Serialization.Words.{length-to_le_bytes, from_le_bytes-to_le_bytes, IsField, IsArray}
use plonky.Serialization.Hashes.{HashBytes}

unfoldable pub to_bytes : List ℕ → List ℕ
to_bytes [] = []
to_bytes (x ∷ elements) = to_le_bytes 8 (to_canonical_u64 x) ++ to_bytes elements

-- `try_into` wants a chunk of eight bytes.
unfoldable pub element : List ℕ → Option ℕ
element x = do assert (length x == 8); from_canonical_u64 (from_le_bytes x)

unfoldable pub from_bytes : List ℕ → Option (List ℕ)
from_bytes bytes = do
  elements ← collect element (take num_hash_out_elts (chunks (length bytes) 8 bytes))
  assert (length elements == num_hash_out_elts)
  some elements

-- `PoseidonHash::HASH_SIZE`
unfoldable pub poseidon_hash_bytes : HashBytes (List ℕ)
poseidon_hash_bytes = record { hash_size = 4 * 8; to_bytes = to_bytes; from_bytes = from_bytes }

length-to_bytes : (xs : List ℕ) → length (to_bytes xs) ≡ 8 * length xs
unfolding to_bytes
length-to_bytes [] = refl
length-to_bytes (x ∷ xs) = omega (
  arith,
  length-to_bytes xs,
  length-to_le_bytes 8 (to_canonical_u64 x),
  length-append (to_le_bytes 8 (to_canonical_u64 x)) (to_bytes xs),
)

element-to_le_bytes : (x : ℕ) → x < order → element (to_le_bytes 8 (to_canonical_u64 x)) ≡ some x
unfolding element from_canonical_u64 to_canonical_u64
element-to_le_bytes x h = ground (arith, length-to_le_bytes 8 x, from_le_bytes-to_le_bytes 8 x)

chunk :
    (fuel : ℕ) (xs ys : List ℕ)
    → length xs ≡ 8
    → chunks (suc fuel) 8 (xs ++ ys) ≡ xs ∷ chunks fuel 8 ys
unfolding chunks
chunk fuel [] ys h = absurd (omega (arith, h))
chunk fuel (x ∷ xs) ys h = rw (take-append 8 (x ∷ xs) ys h, drop-append 8 (x ∷ xs) ys h) refl

word : ℕ → List ℕ
word x = to_le_bytes 8 (to_canonical_u64 x)

chunks-to_bytes :
    (fuel : ℕ) (xs : List ℕ) → length xs ≤ fuel → chunks fuel 8 (to_bytes xs) ≡ map word xs
unfolding to_bytes chunks word
chunks-to_bytes zero [] h = refl
chunks-to_bytes (suc fuel) [] h = refl
chunks-to_bytes zero (x ∷ xs) h = absurd (omega (arith, h))
chunks-to_bytes (suc fuel) (x ∷ xs) h =
    chunk fuel (word x) (to_bytes xs) (length-to_le_bytes 8 (to_canonical_u64 x))
    ∙ ap (λ cs. word x ∷ cs) (chunks-to_bytes fuel xs (omega (arith, h)))

collect-words : (xs : List ℕ) → All IsField xs → collect element (map word xs) ≡ some xs
unfolding collect word
collect-words [] h = refl
collect-words (x ∷ xs) (hx, h) = rw (element-to_le_bytes x hx, collect-words xs h) refl

-- The bytes of four canonical elements are as many as `HASH_SIZE` says, and the elements are read
-- back from them.
pub from_bytes-to_bytes :
    (elements : List ℕ)
    → IsArray num_hash_out_elts IsField elements
    → (length (to_bytes elements) ≡ poseidon_hash_bytes.hash_size)
      × (from_bytes (to_bytes elements) ≡ some elements)
unfolding poseidon_hash_bytes from_bytes num_hash_out_elts
from_bytes-to_bytes elements (size, h) =
    let long : length (to_bytes elements) ≡ 32 = omega (arith, length-to_bytes elements, size) in
    let cs = chunks-to_bytes 32 elements (omega (arith, size)) in
    let all = take_all 4 (map word elements) (omega (arith, length-map elements word, size)) in
    (long, rw (long, cs, all, collect-words elements h, size) refl)
