-- ===== src/Hash/Sponge/Squeeze.antt =====
-- plonky2/src/hash/hashing.rs: the squeezing loop of `hash_n_to_m_no_pad`.
use native.Mathlib.Decide.{dec_lt}
use plonky.Common.{
  ℕ, zero, suc, ◌+◌, ◌-◌, ◌*◌, ◌≤◌, ◌<◌, ◌≡◌, refl, sym, ap, ◌∙◌, arith, Bool, true, false, Option,
  none, some, List, [], ◌∷◌, ◌++◌, length, take, if◌then◌else◌, length-append, length-take,
  append_assoc, append_nil, ◌>>=◌,
}
use plonky.Hash.Sponge.{
  sponge_rate, Permuter, chunks, squeeze, push_outputs, new_state, absorb, squeeze_loop,
  hash_n_to_m_no_pad,
}
use plonky.Hash.Sponge.Chunks.{absorb-chunks_total, length-new_state, length-squeeze}

module _ {A : Type 0} where
  -- Too few items, and items enough.
  push_outputs-short :
      (m : ℕ) (items outputs : List A)
      → length outputs + length items < m
      → push_outputs m items outputs ≡ (false, outputs ++ items)
  unfolding push_outputs
  push_outputs-short m [] outputs h = ground (arith, append_nil outputs)
  push_outputs-short m (x ∷ xs) outputs h = ground (
    arith,
    length-append outputs (x ∷ []),
    append_assoc outputs (x ∷ []) xs,
    push_outputs-short m xs (outputs ++ (x ∷ [])),
  )

  push_outputs-long :
      (m : ℕ) (items outputs : List A) (k : ℕ)
      → length outputs + suc k ≡ m
      → suc k ≤ length items
      → push_outputs m items outputs ≡ (true, outputs ++ take (suc k) items)
  unfolding push_outputs
  push_outputs-long m [] outputs k e h = absurd (omega (arith, h))
  push_outputs-long m (x ∷ xs) outputs zero e h = ground (arith, length-append outputs (x ∷ []))
  push_outputs-long m (x ∷ xs) outputs (suc k) e h = ground (
    arith,
    length-append outputs (x ∷ []),
    append_assoc outputs (x ∷ []) (take (suc k) xs),
    push_outputs-long m xs (outputs ++ (x ∷ [])) k,
  )

  push_outputs-zero :
      (items outputs : List A) → push_outputs 0 items outputs ≡ (false, outputs ++ items)
  unfolding push_outputs
  push_outputs-zero [] outputs = ground (arith, append_nil outputs)
  push_outputs-zero (x ∷ xs) outputs = ground (
    arith,
    length-append outputs (x ∷ []),
    append_assoc outputs (x ∷ []) xs,
    push_outputs-zero xs (outputs ++ (x ∷ [])),
  )

  take-append_left : (n : ℕ) (xs ys : List A) → n ≤ length xs → take n (xs ++ ys) ≡ take n xs
  take-append_left zero xs ys h = refl
  take-append_left (suc n) [] ys h = absurd (omega (arith, h))
  take-append_left (suc n) (x ∷ xs) ys h = ap (◌∷◌ x) (take-append_left n xs ys (omega (arith, h)))

  take-append_right :
      (n k : ℕ) (xs ys : List A) → n ≡ length xs + k → take n (xs ++ ys) ≡ xs ++ take k ys
  take-append_right n k [] ys h = ap (λ i. take i ys) {x = n} (omega (arith, h))
  take-append_right zero k (x ∷ xs) ys h = absurd (omega (arith, h))
  take-append_right (suc n) k (x ∷ xs) ys h =
      ap (◌∷◌ x) (take-append_right n k xs ys (omega (arith, h)))

module _ {F : Type 0} (pm : Permuter F) where
  -- The stream that the sponge gives out, by permutations.
  abbrev pub stream : ℕ → List F → List F
  stream zero state = []
  stream (suc passes) state = squeeze state ++ stream passes (pm.permute state)

  -- What follows a pass over the squeezed items.
  abbrev pass : ℕ → ℕ → List F → Bool × List F → Option (List F)
  pass fuel m state' (returned, outputs) =
      if returned then some outputs else squeeze_loop pm fuel m state' outputs

  squeeze_loop-stream :
      (fuel k : ℕ) (state outputs : List F)
      → length state ≡ 12
      → suc k ≤ 8 * fuel
      → squeeze_loop pm fuel (length outputs + suc k) state outputs
        ≡ some (outputs ++ take (suc k) (stream fuel state))
  unfolding squeeze_loop
  squeeze_loop-stream zero k state outputs l h = absurd (omega (arith, h))
  squeeze_loop-stream (suc fuel) k state outputs l h =
      let m = length outputs + suc k in
      let n = length-squeeze state l in
      let state' = pm.permute state in
      let l' = pm.length-permute state l in
      elim (dec_lt k 8) [
        | yes enough ↦
            ap (pass fuel m state')
              (push_outputs-long m (squeeze state) outputs k refl (omega (arith, n, enough)))
            ∙ ap (λ t. some (outputs ++ t))
                (sym (
                  take-append_left (suc k) (squeeze state) (stream fuel state')
                    (omega (arith, n, enough))))
        | no more ↦
            let j = k - 8 in
            let outputs' = outputs ++ squeeze state in
            let e : m ≡ length outputs' + suc j =
              omega (arith, n, more, length-append outputs (squeeze state)) in
            ap (pass fuel m state')
              (push_outputs-short m (squeeze state) outputs (omega (arith, n, more)))
            ∙ ap (λ i. squeeze_loop pm fuel i state' outputs') e
            ∙ squeeze_loop-stream fuel j state' outputs' l' (omega (arith, h, more))
            ∙ ap some (append_assoc outputs (squeeze state) (take (suc j) (stream fuel state')))
            ∙ ap (λ t. some (outputs ++ t))
                (sym (
                  take-append_right (suc k) (suc j) (squeeze state) (stream fuel state')
                    (omega (arith, n, more))))
      ]

  length-stream :
      (passes : ℕ) (state : List F) → length state ≡ 12 → length (stream passes state) ≡ 8 * passes
  length-stream zero state l = refl
  length-stream (suc passes) state l = omega (
    arith,
    length-append (squeeze state) (stream passes (pm.permute state)),
    length-squeeze state l,
    length-stream passes (pm.permute state) (pm.length-permute state l),
  )

  never : (fuel : ℕ) (state outputs : List F) → squeeze_loop pm fuel 0 state outputs ≡ none
  unfolding squeeze_loop
  never zero state outputs = refl
  never (suc fuel) state outputs =
      ap (pass fuel 0 (pm.permute state)) (push_outputs-zero (squeeze state) outputs)
      ∙ never fuel (pm.permute state) (outputs ++ squeeze state)

  -- On any inputs, and for at least one output that `fuel` passes of eight elements cover:
  -- `hash_n_to_m_no_pad` returns exactly `num_outputs` elements, which are the first ones of the
  -- stream of squeezed and permuted states that starts where the input chunks are absorbed.
  -- For no outputs it never returns: the length is only compared after a push.
  pub hash_n_to_m_no_pad_lem :
      (fuel num_outputs : ℕ) (inputs : List F)
      → 1 ≤ num_outputs
      → num_outputs ≤ 8 * fuel
      → (hash_n_to_m_no_pad pm fuel inputs 0 ≡ none)
        × (state : List F) × (absorb pm (chunks (length inputs) sponge_rate inputs) (new_state pm)
            ≡ some state)
        × (hash_n_to_m_no_pad pm fuel inputs num_outputs
            ≡ some (take num_outputs (stream fuel state)))
        × (length (take num_outputs (stream fuel state)) ≡ num_outputs)
  unfolding hash_n_to_m_no_pad
  hash_n_to_m_no_pad_lem fuel zero inputs h b = absurd (omega (arith, h))
  hash_n_to_m_no_pad_lem fuel (suc k) inputs h b =
      let (state, e, l) =
        absorb-chunks_total pm (length inputs) inputs (new_state pm) (length-new_state pm) in
      (
        ap (λ m. m >>= λ s. squeeze_loop pm fuel 0 s []) e ∙ never fuel state [],
        state,
        e,
        ap (λ m. m >>= λ s. squeeze_loop pm fuel (suc k) s []) e
            ∙ ap (λ i. squeeze_loop pm fuel i state []) {x = suc k} {y = 0 + suc k} (omega arith)
            ∙ squeeze_loop-stream fuel k state [] l b,
        omega (arith, length-take (suc k) (stream fuel state), length-stream fuel state l, b),
      )
