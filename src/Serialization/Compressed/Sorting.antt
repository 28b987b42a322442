-- ===== src/Serialization/Compressed/Sorting.antt =====
-- plonky2/src/util/serialization/mod.rs: `sort_unstable` and `dedup` of the indices of a compressed
-- proof.
use plonky.Common.{
  ℕ, ◌≤◌, ◌<◌, ◌≡◌, ◌≢◌, ◌⊎◌, inl, inr, refl, sym, ap₂, subst, ◌∙◌, arith, Bool-cases, List, [],
  ◌∷◌, All, leb, leb→le, ◌==◌, ==_iff, false,
}
use plonky.Serialization.Compressed.{place, sort_unstable, keep_new, dedup}

abbrev pub In : ℕ → List ℕ → Type 0
In k [] = ⊥
In k (x ∷ xs) = (k ≡ x) ⊎ In k xs

abbrev pub Ascending : List ℕ → Type 0
Ascending [] = Unit
Ascending (x ∷ xs) = All (λ y. x < y) xs × Ascending xs

abbrev pub Sorted : List ℕ → Type 0
Sorted [] = Unit
Sorted (x ∷ xs) = All (λ y. x ≤ y) xs × Sorted xs

pub All-In : (P : ℕ → Type 0) (xs : List ℕ) (k : ℕ) → All P xs → In k xs → P k
All-In P [] k h n = absurd n
All-In P (x ∷ xs) k (h, hs) (inl e) = subst P (sym e) h
All-In P (x ∷ xs) k (h, hs) (inr n) = All-In P xs k hs n

pub In-All : (P : ℕ → Type 0) (xs : List ℕ) → ((k : ℕ) → In k xs → P k) → All P xs
In-All P [] f = tt
In-All P (x ∷ xs) f = (f x (inl refl), In-All P xs (λ k n. f k (inr n)))

-- `sort_unstable`.
place-In : (x k : ℕ) (ys : List ℕ) → In k (place x ys) → (k ≡ x) ⊎ In k ys
unfolding place
place-In x k [] h = h
place-In x k (y ∷ ys) h = elim (Bool-cases (leb x y)) [
  | inl le ↦ rw le at h
  | inr gt ↦ elim (rw gt at h) [
    | inl e ↦ inr (inl e)
    | inr n ↦ elim (place-In x k ys n) [ inl e ↦ inl e | inr m ↦ inr (inr m) ]
  ]
]

In-place : (x k : ℕ) (ys : List ℕ) → (k ≡ x) ⊎ In k ys → In k (place x ys)
unfolding place
In-place x k [] h = h
In-place x k (y ∷ ys) h = elim (Bool-cases (leb x y)) [
  | inl le ↦ rw le h
  | inr gt ↦ rw gt (elim h [
    | inl e ↦ inr (In-place x k ys (inl e))
    | inr (inl e) ↦ inl e
    | inr (inr n) ↦ inr (In-place x k ys (inr n))
  ])
]

place-Sorted : (x : ℕ) (ys : List ℕ) → Sorted ys → Sorted (place x ys)
unfolding place
place-Sorted x [] h = (tt, tt)
place-Sorted x (y ∷ ys) (hy, h) = elim (Bool-cases (leb x y)) [
  | inl le ↦
      let xy = leb→le x y le in
      rw le (
        (
          xy,
          In-All (λ z. x ≤ z) ys
              (λ k n. let yk = All-In (λ z. y ≤ z) ys k hy n in omega (arith, xy, yk)),
        ),
        (hy, h),
      )
  | inr gt ↦
      let yx = not_le x y gt in
      rw gt (
        In-All (λ z. y ≤ z) (place x ys)
            (λ k n. elim (place-In x k ys n) [
              | inl e ↦ omega (arith, e, yx)
              | inr m ↦ All-In (λ z. y ≤ z) ys k hy m
            ]),
        place-Sorted x ys h,
      )
]
  where
    not_le : (x y : ℕ) → leb x y ≡ false → y ≤ x
    not_le x y e = ground (arith, e)

pub sort-Sorted : (xs : List ℕ) → Sorted (sort_unstable xs)
unfolding sort_unstable
sort-Sorted [] = tt
sort-Sorted (x ∷ xs) = place-Sorted x (sort_unstable xs) (sort-Sorted xs)

pub sort-In : (k : ℕ) (xs : List ℕ) → In k (sort_unstable xs) → In k xs
unfolding sort_unstable
sort-In k [] h = h
sort-In k (x ∷ xs) h = elim (place-In x k (sort_unstable xs) h) [
  | inl e ↦ inl e
  | inr n ↦ inr (sort-In k xs n)
]

pub In-sort : (k : ℕ) (xs : List ℕ) → In k xs → In k (sort_unstable xs)
unfolding sort_unstable
In-sort k [] h = h
In-sort k (x ∷ xs) (inl e) = In-place x k (sort_unstable xs) (inl e)
In-sort k (x ∷ xs) (inr n) = In-place x k (sort_unstable xs) (inr (In-sort k xs n))

-- `dedup` of a sorted list.
keep_new-In : (last k : ℕ) (xs : List ℕ) → In k (keep_new last xs) → In k xs
unfolding keep_new
keep_new-In last k [] h = h
keep_new-In last k (x ∷ xs) h = elim (Bool-cases (x == last)) [
  | inl same ↦ inr (keep_new-In last k xs (rw same at h))
  | inr other ↦ elim (rw other at h) [ inl e ↦ inl e | inr n ↦ inr (keep_new-In x k xs n) ]
]

In-keep_new : (last k : ℕ) (xs : List ℕ) → In k xs → (k ≡ last) ⊎ In k (keep_new last xs)
unfolding keep_new
In-keep_new last k [] h = absurd h
In-keep_new last k (x ∷ xs) h = elim (Bool-cases (x == last)) [
  | inl same ↦
      rw same
        (elim h [ inl e ↦ inl (e ∙ (==_iff x last).0 same) | inr n ↦ In-keep_new last k xs n ])
  | inr other ↦ rw other (elim h [ inl e ↦ inr (inl e) | inr n ↦ inr (In-keep_new x k xs n) ])
]

keep_new-Ascending :
    (last : ℕ) (xs : List ℕ)
    → All (λ y. last ≤ y) xs
    → Sorted xs
    → Ascending (last ∷ keep_new last xs)
unfolding keep_new
keep_new-Ascending last [] hl h = (tt, tt)
keep_new-Ascending last (x ∷ xs) (hx, hl) (hxs, h) = elim (Bool-cases (x == last)) [
  | inl same ↦ rw same (keep_new-Ascending last xs hl h)
  | inr other ↦
      let apart = differ x last other in
      let less : last < x = omega (arith, apart, hx) in
      rw other (
        (
          less,
          In-All (λ z. last < z) (keep_new x xs)
              (λ k n.
                let xk = All-In (λ y. x ≤ y) xs k hxs (keep_new-In x k xs n) in
                omega (arith, xk, less)),
        ),
        keep_new-Ascending x xs hxs h,
      )
]
  where
    differ : (a b : ℕ) → (a == b) ≡ false → a ≢ b
    differ a b e = ground (arith, e)

pub dedup-Ascending : (xs : List ℕ) → Sorted xs → Ascending (dedup xs)
unfolding dedup
dedup-Ascending [] h = tt
dedup-Ascending (x ∷ xs) (hx, h) = keep_new-Ascending x xs hx h

pub dedup-In : (k : ℕ) (xs : List ℕ) → In k (dedup xs) → In k xs
unfolding dedup
dedup-In k [] h = h
dedup-In k (x ∷ xs) (inl e) = inl e
dedup-In k (x ∷ xs) (inr n) = inr (keep_new-In x k xs n)

pub In-dedup : (k : ℕ) (xs : List ℕ) → In k xs → In k (dedup xs)
unfolding dedup
In-dedup k [] h = h
In-dedup k (x ∷ xs) (inl e) = inl e
In-dedup k (x ∷ xs) (inr n) = In-keep_new x k xs n

-- Ascending keys are known by their members.
heads :
    (x y : ℕ) (xs ys : List ℕ)
    → All (λ k. x < k) xs
    → All (λ k. y < k) ys
    → In x (y ∷ ys)
    → In y (x ∷ xs)
    → x ≡ y
heads x y xs ys hx hy (inl e) m = e
heads x y xs ys hx hy (inr n) (inl e) = sym e
heads x y xs ys hx hy (inr n) (inr m) =
    let yx = All-In (λ k. y < k) ys x hy n in
    let xy = All-In (λ k. x < k) xs y hx m in absurd (omega (arith, yx, xy))

rest_of : (x y k : ℕ) (xs ys : List ℕ) → x ≡ y → x < k → In k (y ∷ ys) → In k ys
rest_of x y k xs ys e less (inl same) = absurd (omega (arith, e, less, same))
rest_of x y k xs ys e less (inr n) = n

pub same_members :
    (xs ys : List ℕ)
    → Ascending xs
    → Ascending ys
    → ((k : ℕ) → In k xs → In k ys)
    → ((k : ℕ) → In k ys → In k xs)
    → xs ≡ ys
same_members [] [] hx hy f g = refl
same_members [] (y ∷ ys) hx hy f g = absurd (g y (inl refl))
same_members (x ∷ xs) [] hx hy f g = absurd (f x (inl refl))
same_members (x ∷ xs) (y ∷ ys) (hx, hxs) (hy, hys) f g =
    let e = heads x y xs ys hx hy (f x (inl refl)) (g y (inl refl)) in
    ap₂ ◌∷◌ e (
      same_members xs ys hxs hys
        (λ k n. rest_of x y k xs ys e (All-In (λ z. x < z) xs k hx n) (f k (inr n)))
        (λ k n. rest_of y x k ys xs (sym e) (All-In (λ z. y < z) ys k hy n) (g k (inr n))))
