-- ===== src/Iop/Challenger/Flush.antt =====
-- plonky2/src/iop/challenger.rs: what `Challenger` has absorbed once its buffer is flushed: the
-- chunks of the observed elements.
use plonky.Common.{
  ℕ, zero, suc, ◌+◌, ◌≤◌, ◌<◌, ◌≡◌, refl, sym, ap, ◌∙◌, arith, not, Option, some, List, [], ◌∷◌,
  ◌++◌, length, take, drop, if◌then◌else◌, length-append, length-take, length-drop, ap₂,
  take-append-drop, ◌>>=◌,
}
use plonky.Common.Slices.{take_all, drop_all}
use plonky.Common.Options.{>>=-congr, >>=-assoc, >>=-some}
use native.Mathlib.Decide.{dec_lt}
use plonky.Hash.Sponge.{sponge_rate, Permuter, chunks, squeeze, absorb}
use plonky.Hash.Sponge.Chunks.{written, set_from_iter-zero, set_from_slice-zero, length-written}
use plonky.Iop.Challenger.{Challenger, is_empty, duplexing, observe_element, observe_elements}

module _ {F : Type 0} where
  abbrev pub with_buffers : List F → List F → List F → Challenger F
  with_buffers state input output = record {
    sponge_state = state;
    input_buffer = input;
    output_buffer = output;
  }

  abbrev pub squeezed : List F → Challenger F
  squeezed state = with_buffers state [] (squeeze state)

  append-snoc : (xs : List F) (x : F) (ys : List F) → (xs ++ (x ∷ [])) ++ ys ≡ xs ++ (x ∷ ys)
  append-snoc [] x ys = refl
  append-snoc (z ∷ xs) x ys = ap (◌∷◌ z) (append-snoc xs x ys)

module _ {F : Type 0} (pm : Permuter F) where
  abbrev pub flush : Challenger F → Option (Challenger F)
  flush c = if not (is_empty c.input_buffer) then duplexing pm c else some c

  pub duplexing-written :
      (state input output : List F)
      → length input ≤ 8
      → length state ≡ 12
      → duplexing pm (with_buffers state input output)
        ≡ some (squeezed (pm.permute (written input state)))
  unfolding duplexing
  duplexing-written state input output h l =
      ground (arith, set_from_iter-zero input state (omega (arith, h, l)))

  pub observe_elements-append :
      (c : Challenger F) (xs ys : List F)
      → observe_elements pm c (xs ++ ys)
        ≡ (observe_elements pm c xs >>= λ c'. observe_elements pm c' ys)
  unfolding observe_elements
  observe_elements-append c [] ys = refl
  observe_elements-append c (x ∷ xs) ys =
      >>=-congr (observe_element pm c x) (λ c'. observe_elements pm c' (xs ++ ys))
        (λ c'. observe_elements pm c' xs >>= λ d. observe_elements pm d ys)
        (λ c'. observe_elements-append c' xs ys)
      ∙ sym (
          >>=-assoc (observe_element pm c x) (λ c'. observe_elements pm c' xs)
            (λ d. observe_elements pm d ys))

  -- Elements that leave the buffer short of the rate, and elements that fill it.
  observe-partial :
      (state input output xs : List F) (x : F)
      → suc (length input + length xs) < 8
      → observe_elements pm (with_buffers state input output) (x ∷ xs)
        ≡ some (with_buffers state (input ++ (x ∷ xs)) [])
  unfolding observe_elements observe_element
  observe-partial state input output [] x h = ground (arith, length-append input (x ∷ []))
  observe-partial state input output (y ∷ xs) x h = ground (
    arith,
    length-append input (x ∷ []),
    append-snoc input x (y ∷ xs),
    observe-partial state (input ++ (x ∷ [])) [] xs y,
  )

  observe-full :
      (state input output xs : List F) (x : F)
      → suc (length input + length xs) ≡ 8
      → observe_elements pm (with_buffers state input output) (x ∷ xs)
        ≡ duplexing pm (with_buffers state (input ++ (x ∷ xs)) [])
  unfolding observe_elements observe_element
  observe-full state input output [] x h = ground (
    arith,
    length-append input (x ∷ []),
    >>=-some (duplexing pm (with_buffers state (input ++ (x ∷ [])) [])),
  )
  observe-full state input output (y ∷ xs) x h = ground (
    arith,
    length-append input (x ∷ []),
    append-snoc input x (y ∷ xs),
    observe-full state (input ++ (x ∷ [])) [] xs y,
  )

  -- The challenger once the chunks of `xs` are absorbed.
  abbrev pub absorbed : ℕ → List F → List F → Option (Challenger F)
  absorbed fuel xs state = absorb pm (chunks fuel sponge_rate xs) state >>= λ s. some (squeezed s)

  abbrev pub settled : ℕ → List F → List F → List F → Option (Challenger F)
  settled fuel [] state output = some (with_buffers state [] output)
  settled fuel (x ∷ xs) state output = absorbed fuel (x ∷ xs) state

  settled-squeezed :
      (fuel : ℕ) (xs state : List F)
      → settled fuel xs state (squeeze state) ≡ absorbed fuel xs state
  unfolding absorb chunks
  settled-squeezed zero [] state = refl
  settled-squeezed (suc fuel) [] state = refl
  settled-squeezed fuel (x ∷ xs) state = refl

  -- The chunk at the head.
  absorbed-suc :
      (fuel : ℕ) (x : F) (xs state : List F)
      → length state ≡ 12
      → absorbed (suc fuel) (x ∷ xs) state
        ≡ absorbed fuel (drop 8 (x ∷ xs)) (pm.permute (written (take 8 (x ∷ xs)) state))
  unfolding absorb chunks
  absorbed-suc fuel x xs state l =
      let c = take 8 (x ∷ xs) in
      ap
        (λ o. (o >>= λ s. absorb pm (chunks fuel 8 (drop 8 (x ∷ xs))) (pm.permute s)) >>= λ s.
          some (squeezed s))
        (set_from_slice-zero c state (omega (arith, length-take 8 (x ∷ xs), l)))

  observe-flush_short :
      (fuel : ℕ) (x : F) (xs state output : List F)
      → suc (length xs) < 8
      → length state ≡ 12
      → (observe_elements pm (with_buffers state [] output) (x ∷ xs) >>= flush)
        ≡ absorbed (suc fuel) (x ∷ xs) state
  unfolding is_empty
  observe-flush_short fuel x xs state output short l =
      let ys = x ∷ xs in
      let state' = pm.permute (written ys state) in
      ap (λ o. o >>= flush) (observe-partial state [] output xs x (omega (arith, short)))
      ∙ duplexing-written state ys [] (omega (arith, short)) l
      ∙ settled-squeezed fuel [] state'
      ∙ sym (
          ap₂ (λ rest c. absorbed fuel rest (pm.permute (written c state)))
            (drop_all 8 ys (omega (arith, short))) (take_all 8 ys (omega (arith, short))))
      ∙ sym (absorbed-suc fuel x xs state l)

  -- The first eight elements leave the permuted state and a full output buffer.
  observe-eight :
      (x : F) (xs state output : List F)
      → 8 ≤ suc (length xs)
      → length state ≡ 12
      → observe_elements pm (with_buffers state [] output) (take 8 (x ∷ xs))
        ≡ some (squeezed (pm.permute (written (take 8 (x ∷ xs)) state)))
  observe-eight x xs state output long l =
      let n = length-take 8 (x ∷ xs) in
      observe-full state [] output (take 7 xs) x (omega (arith, n, long))
      ∙ duplexing-written state (take 8 (x ∷ xs)) [] (omega (arith, n, long)) l

  observe-flush_nil :
      (state output : List F)
      → (observe_elements pm (with_buffers state [] output) [] >>= flush)
        ≡ some (with_buffers state [] output)
  unfolding observe_elements is_empty
  observe-flush_nil state output = refl

  -- Observed elements are absorbed chunk by chunk, whatever the buffer does in between.
  pub observe-flush :
      (fuel : ℕ) (xs state output : List F)
      → length xs ≤ fuel
      → length state ≡ 12
      → (observe_elements pm (with_buffers state [] output) xs >>= flush)
        ≡ settled fuel xs state output
  observe-flush fuel [] state output h l = observe-flush_nil state output
  observe-flush zero (x ∷ xs) state output h l = absurd (omega (arith, h))
  observe-flush (suc fuel) (x ∷ xs) state output h l =
      let c = take 8 (x ∷ xs) in
      let rest = drop 8 (x ∷ xs) in
      let start = with_buffers state [] output in
      let state' = pm.permute (written c state) in
      elim (dec_lt (suc (length xs)) 8) [
        | yes short ↦ observe-flush_short fuel x xs state output short l
        | no long ↦
            let fits : length c ≤ length state = omega (arith, length-take 8 (x ∷ xs), l) in
            ap (λ ys. observe_elements pm start ys >>= flush) (sym (take-append-drop 8 (x ∷ xs)))
            ∙ ap (λ o. o >>= flush)
                (observe_elements-append start c rest
                  ∙ ap (λ o. o >>= λ d. observe_elements pm d rest)
                      (observe-eight x xs state output (omega (arith, long)) l))
            ∙ observe-flush fuel rest state' (squeeze state')
                (omega (arith, length-drop 8 (x ∷ xs), h))
                (pm.length-permute (written c state) (length-written c state fits ∙ l))
            ∙ settled-squeezed fuel rest state'
            ∙ sym (absorbed-suc fuel x xs state l)
      ]
