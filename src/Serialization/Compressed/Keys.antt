-- ===== src/Serialization/Compressed/Keys.antt =====
-- plonky2/src/util/serialization/mod.rs: the keys that the reader of a compressed proof computes from
-- its indices, by sorting, shifting and removing repetitions.
use native.Mathlib.Nat.{div-div-eq-div-mul, div-mul-le_self, le-div_iff_mul-le}
use plonky.Common.{
  ℕ, ◌+◌, ◌/◌, ◌^◌, ◌≤◌, ◌<◌, ◌≡◌, inl, inr, refl, sym, ap, subst, ◌∙◌, arith, List, [], ◌∷◌, map,
  All,
}
use plonky.Common.Modular.{pow-add, lt-two-pow}
use plonky.Serialization.Circuits.Watches.{IsAscending}
use plonky.Serialization.Compressed.{sort_unstable, dedup, next_indices}
use plonky.Serialization.Compressed.Sorting.{
  In, Ascending, Sorted, All-In, In-All, sort-Sorted, sort-In, In-sort, dedup-Ascending, dedup-In,
  In-dedup, same_members,
}

-- The keys are in ascending order, and they are the indices without their `shift` low bits.
pub record IsKeys (shift : ℕ) (indices keys : List ℕ) : Type 0 where
  pub ascending : Ascending keys
  pub comes : (k : ℕ) → In k keys → (i : ℕ) × In i indices × (k ≡ i / 2 ^ shift)
  pub kept : (i : ℕ) → In i indices → In (i / 2 ^ shift) keys

-- The first keys, and those of the next step.
div-one : (n : ℕ) → n ≡ n / 2 ^ 0
div-one n = omega arith

pub first-IsKeys : (indices : List ℕ) → IsKeys 0 indices (dedup (sort_unstable indices))
first-IsKeys indices = record {
  ascending = dedup-Ascending (sort_unstable indices) (sort-Sorted indices);
  comes = λ k n. (k, sort-In k indices (dedup-In k (sort_unstable indices) n), div-one k);
  kept = λ i n.
      subst (λ k. In k (dedup (sort_unstable indices))) (div-one i)
        (In-dedup i (sort_unstable indices) (In-sort i indices n));
}

In-map : (f : ℕ → ℕ) (i : ℕ) (xs : List ℕ) → In i xs → In (f i) (map f xs)
In-map f i [] h = h
In-map f i (x ∷ xs) (inl e) = inl (ap f e)
In-map f i (x ∷ xs) (inr n) = inr (In-map f i xs n)

map-In : (f : ℕ → ℕ) (k : ℕ) (xs : List ℕ) → In k (map f xs) → (i : ℕ) × In i xs × (k ≡ f i)
map-In f k [] h = absurd h
map-In f k (x ∷ xs) (inl e) = (x, inl refl, e)
map-In f k (x ∷ xs) (inr n) = let (i, m, e) = map-In f k xs n in (i, inr m, e)

div_mono : (a x y : ℕ) → x < y → x / 2 ^ a ≤ y / 2 ^ a
div_mono a x y h =
    (le-div_iff_mul-le {k = 2 ^ a} {x = x / 2 ^ a} {y = y} (omega (arith, lt-two-pow a))).1
      (omega (arith, div-mul-le_self x (2 ^ a), h))

shift-Sorted : (a : ℕ) (xs : List ℕ) → Ascending xs → Sorted (map (λ x. x / 2 ^ a) xs)
shift-Sorted a [] h = tt
shift-Sorted a (x ∷ xs) (hx, h) = (
  In-All (λ k. x / 2 ^ a ≤ k) (map (λ x. x / 2 ^ a) xs)
      (λ k n.
        let (i, m, e) = map-In (λ x. x / 2 ^ a) k xs n in
        let le = div_mono a x i (All-In (λ y. x < y) xs i hx m) in omega (arith, e, le)),
  shift-Sorted a xs h,
)

shift-shift : (i s a : ℕ) → i / 2 ^ s / 2 ^ a ≡ i / 2 ^ (s + a)
shift-shift i s a =
    div-div-eq-div-mul i (2 ^ s) (2 ^ a) ∙ ap (λ (t : ℕ). i / t) (sym (pow-add 2 s a))

pub next-IsKeys :
    (a shift : ℕ) (indices keys : List ℕ)
    → IsKeys shift indices keys
    → IsKeys (shift + a) indices (next_indices a keys)
unfolding next_indices
next-IsKeys a shift indices keys h =
    let shifted = map (λ x. x / 2 ^ a) keys in
    record {
      ascending = dedup-Ascending shifted (shift-Sorted a keys h.ascending);
      comes = λ k n.
          let (j, m, e) = map-In (λ x. x / 2 ^ a) k keys (dedup-In k shifted n) in
          let (i, m', e') = h.comes j m in
          (i, m', e ∙ ap (λ (t : ℕ). t / 2 ^ a) e' ∙ shift-shift i shift a);
      kept = λ i n.
          subst (λ k. In k (dedup shifted)) (shift-shift i shift a)
            (In-dedup (i / 2 ^ shift / 2 ^ a) shifted
              (In-map (λ x. x / 2 ^ a) (i / 2 ^ shift) keys (h.kept i n)));
    }

pub IsKeys-unique :
    (shift : ℕ) (indices xs ys : List ℕ)
    → IsKeys shift indices xs
    → IsKeys shift indices ys
    → xs ≡ ys
IsKeys-unique shift indices xs ys hx hy =
    same_members xs ys hx.ascending hy.ascending (λ k n. move xs ys hx hy k n)
      (λ k n. move ys xs hy hx k n)
  where
    move :
        (xs ys : List ℕ)
        → IsKeys shift indices xs
        → IsKeys shift indices ys
        → (k : ℕ) → In k xs
        → In k ys
    move xs ys hx hy k n =
        let (i, m, e) = hx.comes k n in subst (λ j. In j ys) (sym e) (hy.kept i m)

-- A map with ascending keys.
module _ {A : Type 0} where
  entries-above :
      (k : ℕ) (entries : List (ℕ × A))
      → All (λ y. k < y) (map (λ e. e.0) entries)
      → All (λ e. k < e.0) entries
  entries-above k [] h = tt
  entries-above k (e ∷ entries) (h, hs) = (h, entries-above k entries hs)

  pub Ascending-entries :
      (entries : List (ℕ × A)) → Ascending (map (λ e. e.0) entries) → IsAscending entries
  Ascending-entries [] h = tt
  Ascending-entries ((k, v) ∷ entries) (h, hs) =
      (entries-above k entries h, Ascending-entries entries hs)
