-- ===== src/Serialization/Words.antt =====
-- plonky2/src/util/serialization/mod.rs: words, flags, field elements and vectors.
use native.Mathlib.Nat.{pow-suc}
use plonky.Common.{
  ℕ, zero, suc, ◌/◌, ◌^◌, ◌<◌, ◌≡◌, refl, sym, ap, subst, arith, Bool, true, false, Option, some,
  List, [], ◌∷◌, length, All, lt→ltb,
}
use plonky.Field.Goldilocks.{order, to_canonical_u64}
use plonky.Serialization.{
  Reader, ret, read_exact, to_le_bytes, from_le_bytes, read_word, read_u8, read_u16, read_u32,
  read_usize, write_u8, write_u16, write_u32, write_usize, bool_of_u8, read_bool, write_bool,
  field_of_u64, read_field, write_field, read_n, write_each, read_vec, write_vec, write_length_u8,
  read_usize_vec, write_usize_vec, read_field_vec, write_field_vec,
}
use plonky.Serialization.Encodes.{
  Encodes, Encodes-bind, Encodes-last, Encodes-map, EncodesAll, done, item, Encodes-read_n,
  Encodes-read_exact,
}

abbrev pub IsUsize : ℕ → Type 0
IsUsize x = x < 2 ^ 64

-- A canonical field element.
abbrev pub IsField : ℕ → Type 0
IsField x = x < order

-- A vector whose length a `u64` holds, and a vector of known length.
abbrev pub IsVec : {A : Type 0} → (A → Type 0) → List A → Type 0
IsVec P xs = IsUsize (length xs) × All P xs

abbrev pub IsArray : {A : Type 0} → ℕ → (A → Type 0) → List A → Type 0
IsArray n P xs = (length xs ≡ n) × All P xs

pub length-to_le_bytes : (width x : ℕ) → length (to_le_bytes width x) ≡ width
unfolding to_le_bytes
length-to_le_bytes zero x = refl
length-to_le_bytes (suc width) x = ap suc (length-to_le_bytes width (x / 256))

pub from_le_bytes-to_le_bytes :
    (width x : ℕ) → x < 256 ^ width → from_le_bytes (to_le_bytes width x) ≡ x
unfolding to_le_bytes from_le_bytes
from_le_bytes-to_le_bytes zero x h = omega (arith, h)
from_le_bytes-to_le_bytes (suc width) x h =
    let smaller : x / 256 < 256 ^ width = omega (arith, h, pow-suc 256 width) in
    omega (arith, from_le_bytes-to_le_bytes width (x / 256) smaller)

Encodes-word :
    (width x : ℕ) → x < 256 ^ width → Encodes (read_word width) x (some (to_le_bytes width x))
unfolding read_word
Encodes-word width x h =
    subst (λ y. Encodes (read_word width) y (some (to_le_bytes width x)))
      (from_le_bytes-to_le_bytes width x h)
      (Encodes-map from_le_bytes (
        subst (λ n. Encodes (read_exact n) (to_le_bytes width x) (some (to_le_bytes width x)))
          (length-to_le_bytes width x) (Encodes-read_exact (to_le_bytes width x))))

pub Encodes-u8 : {x : ℕ} → x < 256 → Encodes read_u8 x (write_u8 x)
unfolding read_u8 write_u8
Encodes-u8 {x} h = Encodes-word 1 x h

pub Encodes-length_u8 : (n : ℕ) → n < 256 → Encodes read_u8 n (write_length_u8 n)
unfolding write_length_u8
Encodes-length_u8 n h = rw (lt→ltb n 256 h) (Encodes-u8 h)

pub Encodes-u16 : {x : ℕ} → x < 2 ^ 16 → Encodes read_u16 x (write_u16 x)
unfolding read_u16 write_u16
Encodes-u16 {x} h = Encodes-word 2 x h

pub Encodes-u32 : {x : ℕ} → x < 2 ^ 32 → Encodes read_u32 x (write_u32 x)
unfolding read_u32 write_u32
Encodes-u32 {x} h = Encodes-word 4 x h

pub Encodes-usize : {x : ℕ} → x < 2 ^ 64 → Encodes read_usize x (write_usize x)
unfolding read_usize write_usize
Encodes-usize {x} h = Encodes-word 8 x h

pub Encodes-bool : {b : Bool} → Encodes read_bool b (write_bool b)
unfolding read_bool write_bool bool_of_u8 ret
Encodes-bool {b = true} = Encodes-last bool_of_u8 (Encodes-u8 (omega arith)) (λ rest. refl)
Encodes-bool {b = false} = Encodes-last bool_of_u8 (Encodes-u8 (omega arith)) (λ rest. refl)

pub Encodes-field : {x : ℕ} → x < order → Encodes read_field x (write_field x)
unfolding read_field write_field field_of_u64 to_canonical_u64
Encodes-field {x} h =
    let same : to_canonical_u64 x ≡ x = ground arith in
    subst (λ y. Encodes read_field x (some (to_le_bytes 8 y))) (sym same)
      (Encodes-last field_of_u64 (Encodes-word 8 x (omega (arith, h))) (λ rest. ground arith))

module _ {A : Type 0} {read : Reader A} {write : A → Option (List ℕ)} where
  EncodesAll-All :
      (P : A → Type 0)
      → ((x : A) → P x → Encodes read x (write x))
      → (xs : List A) → All P xs
      → EncodesAll read write xs
  EncodesAll-All P each [] h = done
  EncodesAll-All P each (x ∷ xs) (h, hs) = item (each x h) (EncodesAll-All P each xs hs)

  -- As many items as the reader expects, and items with their number before them.
  pub Encodes-each :
      (P : A → Type 0)
      → ((x : A) → P x → Encodes read x (write x))
      → {n : ℕ} {xs : List A} → IsArray n P xs
      → Encodes (read_n n read) xs (write_each write xs)
  Encodes-each P each {xs = xs} (size, h) =
      subst (λ n. Encodes (read_n n read) xs (write_each write xs)) size
        (Encodes-read_n (EncodesAll-All P each xs h))

  pub Encodes-vec :
      (P : A → Type 0)
      → ((x : A) → P x → Encodes read x (write x))
      → (xs : List A) → IsVec P xs
      → Encodes (read_vec read) xs (write_vec write xs)
  unfolding read_vec write_vec
  Encodes-vec P each xs (small, h) =
      Encodes-bind (λ len. read_n len read) (Encodes-usize small) (Encodes-each P each (refl, h))

pub Encodes-usize_vec :
    (v : List ℕ) → IsVec IsUsize v → Encodes read_usize_vec v (write_usize_vec v)
unfolding read_usize_vec write_usize_vec
Encodes-usize_vec v h = Encodes-vec IsUsize (λ x hx. Encodes-usize hx) v h

pub Encodes-field_vec :
    (n : ℕ) (v : List ℕ) → IsArray n IsField v → Encodes (read_field_vec n) v (write_field_vec v)
unfolding read_field_vec write_field_vec
Encodes-field_vec n v h = Encodes-each IsField (λ x hx. Encodes-field hx) h
