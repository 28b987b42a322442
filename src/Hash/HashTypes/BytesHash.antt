-- ===== src/Hash/HashTypes/BytesHash.antt =====
-- plonky2/src/hash/hash_types.rs: a `BytesHash<N>`, the list of its bytes, and its field elements.
use native.Mathlib.Nat.{pow-suc}
use plonky.Common.{
  ℕ, zero, suc, ◌+◌, ◌*◌, ◌^◌, ◌<◌, ◌≤◌, ◌≡◌, ◌≢◌, refl, sym, ap, ap₂, ◌∙◌, arith, Option, some,
  List, [], ◌∷◌, ◌++◌, length, take, drop, map, replicate, All, length-take, length-drop,
  take-append-drop, lt→ltb, ◌==◌, assert, ◌>>◌,
}
use plonky.Field.Goldilocks.{order}
use plonky.Hash.HashTypes.{collect, from_canonical_u64}
use plonky.Hash.Sponge.{chunks, overwrite}
use plonky.Serialization.{from_le_bytes}
use plonky.Serialization.Hashes.{HashBytes}

unfoldable pub from_bytes : ℕ → List ℕ → Option (List ℕ)
from_bytes n bytes = do assert (length bytes == n); some bytes

-- `KeccakHash<N>`: the digest is its bytes.
unfoldable pub keccak_hash_bytes : ℕ → HashBytes (List ℕ)
keccak_hash_bytes n = record { hash_size = n; to_bytes = λ bytes. bytes; from_bytes = from_bytes n }

-- A chunk of at most seven bytes, filled up with zeros.
unfoldable pub element : List ℕ → Option ℕ
element bytes = from_canonical_u64 (from_le_bytes (overwrite bytes (replicate 8 0)))

unfoldable pub to_vec : List ℕ → Option (List ℕ)
to_vec bytes = collect element (chunks (length bytes) 7 bytes)

abbrev pub IsBytes : List ℕ → Type 0
IsBytes bytes = All (λ b. b < 256) bytes

from_le_bytes-zeros : (n : ℕ) → from_le_bytes (replicate n 0) ≡ 0
unfolding from_le_bytes
from_le_bytes-zeros zero = refl
from_le_bytes-zeros (suc n) = omega (arith, from_le_bytes-zeros n)

from_le_bytes-overwrite :
    (bytes : List ℕ) (n : ℕ)
    → length bytes ≤ n
    → from_le_bytes (overwrite bytes (replicate n 0)) ≡ from_le_bytes bytes
unfolding from_le_bytes overwrite
from_le_bytes-overwrite [] n h = from_le_bytes-zeros n
from_le_bytes-overwrite (b ∷ bytes) zero h = absurd (omega (arith, h))
from_le_bytes-overwrite (b ∷ bytes) (suc n) h =
    ap (λ v. b + 256 * v) (from_le_bytes-overwrite bytes n (omega (arith, h)))

from_le_bytes-lt :
    (bytes : List ℕ) (n : ℕ) → length bytes ≤ n → IsBytes bytes → from_le_bytes bytes < 256 ^ n
unfolding from_le_bytes
from_le_bytes-lt [] zero h hb = omega arith
from_le_bytes-lt [] (suc n) h hb =
    omega (arith, from_le_bytes-lt [] n (omega arith) tt, pow-suc 256 n)
from_le_bytes-lt (b ∷ bytes) zero h hb = absurd (omega (arith, h))
from_le_bytes-lt (b ∷ bytes) (suc n) h (hb, hbs) =
    omega (arith, from_le_bytes-lt bytes n (omega (arith, h)) hbs, pow-suc 256 n, hb)

from_le_bytes-injective :
    (xs ys : List ℕ)
    → length xs ≡ length ys
    → IsBytes xs
    → IsBytes ys
    → from_le_bytes xs ≡ from_le_bytes ys
    → xs ≡ ys
unfolding from_le_bytes
from_le_bytes-injective [] [] l hx hy e = refl
from_le_bytes-injective [] (y ∷ ys) l hx hy e = absurd (omega (arith, l))
from_le_bytes-injective (x ∷ xs) [] l hx hy e = absurd (omega (arith, l))
from_le_bytes-injective (x ∷ xs) (y ∷ ys) l (hx, hxs) (hy, hys) e =
    ap₂ ◌∷◌ (omega (arith, e, hx, hy))
      (from_le_bytes-injective xs ys (omega (arith, l)) hxs hys (omega (arith, e, hx, hy)))

element-eq :
    (bytes : List ℕ) → length bytes ≤ 7 → IsBytes bytes → element bytes ≡ some (from_le_bytes bytes)
unfolding element from_canonical_u64
element-eq bytes h hb =
    let value = from_le_bytes-overwrite bytes 8 (omega (arith, h)) in
    let small : from_le_bytes bytes < order = omega (arith, from_le_bytes-lt bytes 7 h hb) in
    rw (value, lt→ltb (from_le_bytes bytes) order small) refl

IsBytes-take : (n : ℕ) (xs : List ℕ) → IsBytes xs → IsBytes (take n xs)
IsBytes-take zero xs h = tt
IsBytes-take (suc n) [] h = tt
IsBytes-take (suc n) (x ∷ xs) (hx, h) = (hx, IsBytes-take n xs h)

IsBytes-drop : (n : ℕ) (xs : List ℕ) → IsBytes xs → IsBytes (drop n xs)
IsBytes-drop zero xs h = h
IsBytes-drop (suc n) [] h = tt
IsBytes-drop (suc n) (x ∷ xs) (hx, h) = IsBytes-drop n xs h

-- No chunk panics.
collect-chunks :
    (fuel : ℕ) (xs : List ℕ)
    → IsBytes xs
    → collect element (chunks fuel 7 xs) ≡ some (map from_le_bytes (chunks fuel 7 xs))
unfolding collect chunks
collect-chunks zero xs h = refl
collect-chunks (suc fuel) [] h = refl
collect-chunks (suc fuel) (x ∷ xs) h =
    let first =
      element-eq (take 7 (x ∷ xs)) (omega (arith, length-take 7 (x ∷ xs)))
        (IsBytes-take 7 (x ∷ xs) h) in
    let later = collect-chunks fuel (drop 7 (x ∷ xs)) (IsBytes-drop 7 (x ∷ xs) h) in
    rw (first, later) refl

chunks-injective :
    (fuel : ℕ) (xs ys : List ℕ)
    → length xs ≤ fuel
    → length xs ≡ length ys
    → IsBytes xs
    → IsBytes ys
    → map from_le_bytes (chunks fuel 7 xs) ≡ map from_le_bytes (chunks fuel 7 ys)
    → xs ≡ ys
unfolding chunks
chunks-injective fuel [] [] f l hx hy e = refl
chunks-injective fuel [] (y ∷ ys) f l hx hy e = absurd (omega (arith, l))
chunks-injective fuel (x ∷ xs) [] f l hx hy e = absurd (omega (arith, l))
chunks-injective zero (x ∷ xs) (y ∷ ys) f l hx hy e = absurd (omega (arith, f))
chunks-injective (suc fuel) (x ∷ xs) (y ∷ ys) f l hx hy e =
    let first =
      from_le_bytes-injective (take 7 (x ∷ xs)) (take 7 (y ∷ ys))
        (omega (arith, length-take 7 (x ∷ xs), length-take 7 (y ∷ ys), l))
        (IsBytes-take 7 (x ∷ xs) hx) (IsBytes-take 7 (y ∷ ys) hy) (head_eq e) in
    let later =
      chunks-injective fuel (drop 7 (x ∷ xs)) (drop 7 (y ∷ ys))
        (omega (arith, f, length-drop 7 (x ∷ xs)))
        (omega (arith, l, length-drop 7 (x ∷ xs), length-drop 7 (y ∷ ys)))
        (IsBytes-drop 7 (x ∷ xs) hx) (IsBytes-drop 7 (y ∷ ys) hy) (tail_eq e) in
    sym (take-append-drop 7 (x ∷ xs)) ∙ ap₂ ◌++◌ first later ∙ take-append-drop 7 (y ∷ ys)
  where
    head_eq : {a b : ℕ} {us vs : List ℕ} → ◌≡◌ {A = List ℕ} (a ∷ us) (b ∷ vs) → a ≡ b
    head_eq p = cc

    tail_eq : {a b : ℕ} {us vs : List ℕ} → ◌≡◌ {A = List ℕ} (a ∷ us) (b ∷ vs) → us ≡ vs
    tail_eq p = cc

-- Two different byte arrays of the same length are turned into field elements without a panic, and
-- into different ones: chunks of seven bytes do not collide.
pub to_vec-injective :
    (xs ys : List ℕ)
    → length xs ≡ length ys
    → IsBytes xs
    → IsBytes ys
    → xs ≢ ys
    → (us : List ℕ) × (vs : List ℕ) × (to_vec xs ≡ some us) × (to_vec ys ≡ some vs) × (us ≢ vs)
unfolding to_vec
to_vec-injective xs ys l hx hy ne = (
  map from_le_bytes (chunks (length xs) 7 xs),
  map from_le_bytes (chunks (length ys) 7 ys),
  collect-chunks (length xs) xs hx,
  collect-chunks (length ys) ys hy,
  λ e. ne (
      chunks-injective (length xs) xs ys (omega arith) l hx hy
        (e ∙ ap (λ n. map from_le_bytes (chunks n 7 ys)) (sym l))),
)
