-- ===== src/Evm/Windows/Total.antt =====
-- evm/src/cpu/kernel/utils.rs: `replace_windows` ends when replacements are shorter than their
-- windows, and does what its replacements do,
-- until no window is replaced.
use plonky.Common.{
  ℕ, zero, suc, ◌+◌, ◌-◌, ◌*◌, ◌≤◌, ◌<◌, ◌≡◌, ◌⊎◌, inl, inr, refl, sym, ap, subst, ◌∙◌, arith,
  Bool-cases, leb→le, Option, none, some, Option-cases, List, ◌++◌, length, take, drop,
  take-append-drop, length-take, length-drop, length-append, leb, ◌>>=◌, [], ◌∷◌, false,
}
use native.Mathlib.Decide.{dec_lt}
use plonky.Common.Slices.{drop-drop}
use plonky.Evm.Windows.{splice, moved, next, replace_loop, replace_windows}

times-le : (w n : ℕ) → 0 < w → n ≤ w * n
times-le zero n h = absurd (omega (arith, h))
times-le (suc w) n h = omega arith

times-lt : (w m n : ℕ) → m < n → w * m + w ≤ w * n
times-lt zero m n h = omega arith
times-lt (suc w) m n h = omega (arith, times-lt w m n h, h)

too_long : (a b : ℕ) → leb a b ≡ false → b < a
too_long a b h = ground arith

-- A window of a vector is a window of what extends it.
take-append : {A : Type 0} (n : ℕ) (xs ys : List A) → n ≤ length xs → take n (xs ++ ys) ≡ take n xs
take-append zero xs ys h = refl
take-append (suc n) [] ys h = absurd (omega arith)
take-append (suc n) (x ∷ xs) ys h = ap (λ zs. x ∷ zs) (take-append n xs ys (omega arith))

window-append :
    {A : Type 0} (w i : ℕ) (xs ys : List A)
    → i + w ≤ length xs
    → take w (drop i (xs ++ ys)) ≡ take w (drop i xs)
window-append w zero xs ys h = take-append w xs ys (omega arith)
window-append w (suc i) [] ys h = absurd (omega arith)
window-append w (suc i) (x ∷ xs) ys h = window-append w i xs ys (omega arith)

module _ {A : Type 0} (w : ℕ) (maybe_replace : List A → Option (Option (List A)))
    (Good : List A → Type 0) (R : List A → List A → Type 0) where
  -- What the loop needs of its replacement function: windows are not empty, it does not panic at a
  -- window of a good vector, a replacement is shorter than its window, and a replaced window stands in
  -- the relation to the replacement, in every context. The relation keeps vectors good.
  pub record IsReplacement : Type 0 where
    pub positive : 0 < w
    pub total :
        (front window back : List A)
        → Good (front ++ (window ++ back))
        → (found : Option (List A)) × (maybe_replace window ≡ some found)
    pub keeps : (xs ys : List A) → R xs ys → Good xs → Good ys
    pub shorter :
        (window replacement : List A)
        → length window ≡ w
        → maybe_replace window ≡ some (some replacement)
        → length replacement < w
    pub related :
        (front window replacement back : List A)
        → maybe_replace window ≡ some (some replacement)
        → R (front ++ (window ++ back)) (front ++ (replacement ++ back))
    pub R-refl : (xs : List A) → R xs xs
    pub R-trans : (xs ys zs : List A) → R xs ys → R ys zs → R xs zs

  whole :
      (start : ℕ) (vec : List A)
      → take start vec ++ (take w (drop start vec) ++ drop (start + w) vec) ≡ vec
  whole start vec =
      ap (λ xs. take start vec ++ (take w (drop start vec) ++ xs))
        (sym (drop-drop w start (start + w) vec refl))
      ∙ ap (λ xs. take start vec ++ xs) (take-append-drop w (drop start vec))
      ∙ take-append-drop start vec

  -- The window at a place is not replaced.
  abbrev Left : List A → ℕ → Type 0
  Left vec i = maybe_replace (take w (drop i vec)) ≡ some none

  -- The same vector, or a shorter one that it is related to.
  abbrev pub Shrinks : List A → List A → Type 0
  Shrinks xs ys = R xs ys × ((xs ≡ ys) ⊎ (length ys < length xs))

  module _ (h : IsReplacement) where
    Shrinks-trans : (xs ys zs : List A) → Shrinks xs ys → Shrinks ys zs → Shrinks xs zs
    Shrinks-trans xs ys zs (r, inl e) (r', c) =
        (h.R-trans xs ys zs r r', subst (λ v. (v ≡ zs) ⊎ (length zs < length v)) (sym e) c)
    Shrinks-trans xs ys zs (r, inr l) (r', inl e) =
        (h.R-trans xs ys zs r r', inr (subst (λ v. length v < length xs) e l))
    Shrinks-trans xs ys zs (r, inr l) (r', inr l') =
        (h.R-trans xs ys zs r r', inr (omega (arith, l, l')))

    length-splice :
        (start : ℕ) (vec replacement : List A)
        → start + w ≤ length vec
        → maybe_replace (take w (drop start vec)) ≡ some (some replacement)
        → (start ≤ length (splice w maybe_replace start vec replacement))
          × (length (splice w maybe_replace start vec replacement) < length vec)
    unfolding splice
    length-splice start vec replacement fits e =
        let window = take w (drop start vec) in
        let size : length window ≡ w =
          omega (arith, length-take w (drop start vec), length-drop start vec, fits) in
        let parts : length (take start vec ++ (replacement ++ drop (start + w) vec))
            ≡ length (take start vec) + (length replacement + length (drop (start + w) vec)) =
          length-append (take start vec) (replacement ++ drop (start + w) vec)
          ∙ ap (λ n. length (take start vec) + n)
              (length-append replacement (drop (start + w) vec)) in
        (
          omega (arith, parts, length-take start vec, fits),
          omega (
            arith,
            parts,
            h.shorter window replacement size e,
            fits,
            length-take start vec,
            length-drop (start + w) vec,
          ),
        )

    splice-Shrinks :
        (start : ℕ) (vec replacement : List A)
        → start + w ≤ length vec
        → maybe_replace (take w (drop start vec)) ≡ some (some replacement)
        → Shrinks vec (splice w maybe_replace start vec replacement)
    unfolding splice
    splice-Shrinks start vec replacement fits e =
        let window = take w (drop start vec) in
        (
          subst (λ v. R v (take start vec ++ (replacement ++ drop (start + w) vec)))
              (whole start vec)
              (h.related (take start vec) window replacement (drop (start + w) vec) e),
          inr ((length-splice start vec replacement fits e).1),
        )

    next-none :
        (start : ℕ) (vec : List A)
        → maybe_replace (take w (drop start vec)) ≡ some none
        → next w maybe_replace start vec ≡ some (start + 1, vec)
    unfolding next moved
    next-none start vec e = ap (λ o. o >>= λ found. some (moved w maybe_replace start vec found)) e

    next-some :
        (start : ℕ) (vec replacement : List A)
        → maybe_replace (take w (drop start vec)) ≡ some (some replacement)
        → next w maybe_replace start vec
          ≡ some (start - (w - 1), splice w maybe_replace start vec replacement)
    unfolding next moved
    next-some start vec replacement e =
        ap (λ o. o >>= λ found. some (moved w maybe_replace start vec found)) e

    -- A replacement leaves the windows that end before it.
    splice-window :
        (start i : ℕ) (vec replacement : List A)
        → start + w ≤ length vec
        → i < start - (w - 1)
        → take w (drop i (splice w maybe_replace start vec replacement)) ≡ take w (drop i vec)
    unfolding splice
    splice-window start i vec replacement fits before =
        let inside : i + w ≤ length (take start vec) =
          omega (arith, length-take start vec, fits, before, h.positive) in
        window-append w i (take start vec) (replacement ++ drop (start + w) vec) inside
        ∙ sym (window-append w i (take start vec) (drop start vec) inside)
        ∙ ap (λ v. take w (drop i v)) (take-append-drop start vec)

    -- The loop from a place before which no window is replaced.
    loop :
        (fuel start : ℕ) (vec : List A)
        → start ≤ length vec
        → w * length vec < fuel + start
        → Good vec
        → ((i : ℕ) → i < start → i + w ≤ length vec → Left vec i)
        → (vec' : List A) × (replace_loop w maybe_replace fuel start vec ≡ some vec')
          × Shrinks vec vec'
          × Good vec'
          × ((i : ℕ) → i + w ≤ length vec' → Left vec' i)
    unfolding replace_loop
    loop zero start vec b f good before =
        absurd (omega (arith, b, f, times-le w (length vec) h.positive))
    loop (suc fuel) start vec b f good before = elim (Bool-cases (leb (start + w) (length vec))) [
      | inl fit ↦
          let fits = leb→le (start + w) (length vec) fit in
          let window = take w (drop start vec) in
          let (found, ef) =
            h.total (take start vec) window (drop (start + w) vec)
              (subst Good (sym (whole start vec)) good) in
          elim (Option-cases found) [
            | inl e ↦
                let en = ef ∙ ap some e in
                let (vec', e', s, g, rest) =
                  loop fuel (start + 1) vec (omega (arith, fits, h.positive)) (omega (arith, f))
                    good
                    (λ i less inside. elim (dec_lt i start) [
                      | yes earlier ↦ before i earlier inside
                      | no late ↦
                          let here : start ≡ i = omega (arith, less, late) in
                          subst (Left vec) here en
                    ]) in
                (vec', rw (fit, next-none start vec en) e', s, g, rest)
            | inr (r, e) ↦
                let en = ef ∙ ap some e in
                let s = splice-Shrinks start vec r fits en in
                let shorter = length-splice start vec r fits en in
                let spliced = splice w maybe_replace start vec r in
                let (vec', e', s', g, rest) =
                  loop fuel (start - (w - 1)) spliced (omega (arith, shorter.0, fits))
                    (omega
                      (arith, f, times-lt w (length spliced) (length vec) (shorter.1), h.positive))
                    (h.keeps vec spliced (s.0) good)
                    (λ i less inside.
                      ap maybe_replace (splice-window start i vec r fits less)
                      ∙ before i (omega (arith, less)) (omega (arith, less, fits, h.positive))) in
                (
                  vec',
                  rw (fit, next-some start vec r en) e',
                  Shrinks-trans vec spliced vec' s s',
                  g,
                  rest,
                )
          ]
      | inr over ↦ (
        vec,
        rw over refl,
        (h.R-refl vec, inl refl),
        good,
        λ i inside. before i (omega (arith, too_long (start + w) (length vec) over, inside)) inside,
      )
    ]

  -- For windows that are not empty, and a function that does not panic at a window of a good vector,
  -- whose replacements are shorter than their windows and stand to them, in every context, in a
  -- reflexive and transitive relation that keeps vectors good: from a good vector the loop ends without
  -- a panic and without running out of fuel. Its result is good again, it is the vector itself or a
  -- shorter one, the relation holds of the two, and the function leaves every window of the result.
  pub replace_windows_lem :
      IsReplacement
      → (vec : List A) → Good vec
      → (vec' : List A) × (replace_windows w maybe_replace vec ≡ some vec')
        × Shrinks vec vec'
        × Good vec'
        × ((i : ℕ) → i + w ≤ length vec' → maybe_replace (take w (drop i vec')) ≡ some none)
  unfolding replace_windows
  replace_windows_lem h vec good =
      loop h (suc (w * length vec)) 0 vec (omega arith) (omega arith) good
        (λ i less inside. absurd (omega (arith, less)))
