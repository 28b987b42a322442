-- ===== src/Hash/Sponge/Padding.antt =====
-- plonky2/src/plonk/config.rs: the padding of `hash_pad`.
use plonky.Common.{
  ℕ, zero, suc, ◌+◌, ◌-◌, ◌%◌, ◌<◌, ◌≡◌, ◌≢◌, refl, sym, ap, ◌∙◌, arith, some, List, [], ◌∷◌, ◌++◌,
  length, replicate, length-append, append_nil, length-replicate, ◌>>=◌, eq_of_some,
}
use plonky.Hash.Sponge.{sponge_rate, Permuter, pad_zeros, pad}

module _ {F : Type 0} (pm : Permuter F) where
  append-zeros :
      (xs : List F) (k : ℕ)
      → (xs ++ (pm.zero_elt ∷ [])) ++ replicate k pm.zero_elt ≡ xs ++ replicate (suc k) pm.zero_elt
  append-zeros [] k = refl
  append-zeros (x ∷ xs) k = ap (◌∷◌ x) (append-zeros xs k)

  -- `gap` more zeros bring the length, with one more element, to a multiple of eight.
  pad_zeros-replicate :
      (fuel gap : ℕ) (xs : List F)
      → gap < fuel
      → gap < 8
      → (length xs + gap + 1) % 8 ≡ 0
      → pad_zeros pm fuel xs ≡ some (xs ++ replicate gap pm.zero_elt)
  unfolding pad_zeros
  pad_zeros-replicate zero gap xs h b e = absurd (omega (arith, h))
  pad_zeros-replicate (suc fuel) zero xs h b e = ground (arith, append_nil xs)
  pad_zeros-replicate (suc fuel) (suc gap) xs h b e = ground (
    arith,
    append-zeros xs gap,
    length-append xs (pm.zero_elt ∷ []),
    pad_zeros-replicate fuel gap (xs ++ (pm.zero_elt ∷ [])),
  )

  -- The padding: a one, the zeros, a one.
  abbrev tail : ℕ → List F
  tail k = pm.one_elt ∷ (replicate k pm.zero_elt ++ (pm.one_elt ∷ []))

  tail_eq : {a b : F} {xs ys : List F} → ◌≡◌ {A = List F} (a ∷ xs) (b ∷ ys) → xs ≡ ys
  tail_eq e = cc

  head_eq : {a b : F} {xs ys : List F} → ◌≡◌ {A = List F} (a ∷ xs) (b ∷ ys) → a ≡ b
  head_eq e = cc

  zeros-tail :
      (k j : ℕ) (xs : List F)
      → pm.one_elt ≢ pm.zero_elt
      → replicate k pm.zero_elt ++ (pm.one_elt ∷ []) ≢ xs ++ tail j
  zeros-tail zero zero [] ne h = ground (arith, tail_eq h)
  zeros-tail zero (suc j) [] ne h = ground (arith, tail_eq h)
  zeros-tail zero j (x ∷ []) ne h = ground (arith, tail_eq h)
  zeros-tail zero j (x ∷ y ∷ xs) ne h = ground (arith, tail_eq h)
  zeros-tail (suc k) j [] ne h = ne (sym (head_eq h))
  zeros-tail (suc k) j (x ∷ xs) ne h = zeros-tail k j xs ne (tail_eq h)

  tail-injective :
      (xs ys : List F) (k j : ℕ) → pm.one_elt ≢ pm.zero_elt → xs ++ tail k ≡ ys ++ tail j → xs ≡ ys
  tail-injective [] [] k j ne h = refl
  tail-injective [] (y ∷ ys) k j ne h = absurd (zeros-tail k j ys ne (tail_eq h))
  tail-injective (x ∷ xs) [] k j ne h = absurd (zeros-tail j k xs ne (sym (tail_eq h)))
  tail-injective (x ∷ xs) (y ∷ ys) k j ne h =
      let e = tail-injective xs ys k j ne (tail_eq h) in let d = head_eq h in cc

  pad_tail :
      (xs : List F) (k : ℕ)
      → ((xs ++ (pm.one_elt ∷ [])) ++ replicate k pm.zero_elt) ++ (pm.one_elt ∷ []) ≡ xs ++ tail k
  pad_tail [] k = refl
  pad_tail (x ∷ xs) k = ap (◌∷◌ x) (pad_tail xs k)

  -- The number of zeros.
  abbrev gap_of : ℕ → ℕ
  gap_of n = 7 - (n + 1) % 8

  pad-tail : (xs : List F) → pad pm xs ≡ some (xs ++ tail (gap_of (length xs)))
  unfolding pad
  pad-tail xs =
      let n = length xs in
      let k = gap_of n in
      ap (λ o. o >>= λ p. some (p ++ (pm.one_elt ∷ [])))
        (pad_zeros-replicate 8 k (xs ++ (pm.one_elt ∷ [])) (omega arith) (omega arith)
          (omega (arith, length-append xs (pm.one_elt ∷ []))))
      ∙ ap some (pad_tail xs k)

  -- Where the field's one is not its zero, for inputs whose paddings in `hash_pad` are equal: the
  -- padding ends within the eight rounds that its loop is given, its length is a multiple of the
  -- rate, and the inputs are equal.
  pub pad-injective :
      (xs ys : List F)
      → pm.one_elt ≢ pm.zero_elt
      → pad pm xs ≡ pad pm ys
      → (padded : List F) × (pad pm xs ≡ some padded)
        × (length padded % sponge_rate ≡ 0)
        × (xs ≡ ys)
  pad-injective xs ys ne h =
      let k = gap_of (length xs) in
      let p = pad-tail xs in
      (
        xs ++ tail k,
        p,
        omega (
          arith,
          length-append xs (tail k),
          length-append (replicate k pm.zero_elt) (pm.one_elt ∷ []),
          length-replicate k pm.zero_elt,
        ),
        tail-injective xs ys k (gap_of (length ys)) ne (eq_of_some (sym p ∙ h ∙ pad-tail ys)),
      )
