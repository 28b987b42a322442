-- ===== src/Iop/Challenger/Transcript.antt =====
-- plonky2/src/iop/challenger.rs: the state of the transcript, and the draws of challenges.
use plonky.Common.{
  ℕ, zero, suc, ◌≤◌, ◌<◌, ◌≡◌, refl, sym, ap, ◌∙◌, arith, false, Option, some, List, [], ◌∷◌,
  length, ◌>>=◌,
}
use plonky.Common.Options.{>>=-assoc, >>=-congr, >>=-some}
use plonky.Hash.Sponge.{sponge_rate, sponge_width, Permuter, chunks, squeeze, new_state, absorb}
use plonky.Hash.Sponge.Chunks.{length-new_state, length-squeeze}
use plonky.Iop.Challenger.{
  Challenger, is_empty, pop, observe_elements, get_challenge, get_n_challenges, compact, new,
}
use plonky.Iop.Challenger.Flush.{
  with_buffers, squeezed, flush, observe-flush, settled, duplexing-written,
}
use plonky.Iop.Challenger.Valid.{
  IsValid, squeezed-IsValid, observe_elements-IsValid, refilled, ready-flush, pop-some,
  is_empty-false, next, length-next,
}

module _ {F : Type 0} (pm : Permuter F) where
  compact-flush :
      (c : Challenger F)
      → (compact pm c >>= λ x. some (x.1)) ≡ (flush pm c >>= λ d. some d.sponge_state)
  unfolding compact
  compact-flush c =
      >>=-assoc (flush pm c)
        (λ d. some (with_buffers d.sponge_state d.input_buffer [], d.sponge_state))
        (λ x. some (x.1))

  settled-state :
      (xs state : List F)
      → (settled pm (length xs) xs state [] >>= λ d. some d.sponge_state)
        ≡ absorb pm (chunks (length xs) sponge_rate xs) state
  unfolding absorb chunks
  settled-state [] state = refl
  settled-state (x ∷ xs) state =
      let o = absorb pm (chunks (length (x ∷ xs)) sponge_rate (x ∷ xs)) state in
      >>=-assoc o (λ s. some (squeezed s)) (λ d. some d.sponge_state) ∙ >>=-some o

  from_new :
      (xs : List F)
      → ((observe_elements pm (new pm) xs >>= flush pm) >>= λ d. some d.sponge_state)
        ≡ absorb pm (chunks (length xs) sponge_rate xs) (new_state pm)
  unfolding new
  from_new xs =
      ap (λ o. o >>= λ d. some d.sponge_state)
        (observe-flush pm (length xs) xs (new_state pm) [] (omega arith) (length-new_state pm))
      ∙ settled-state xs (new_state pm)

  -- Whatever a new challenger observes, the state that `compact` then returns is the one in which
  -- the sponge hash absorbs the same elements, before it squeezes.
  pub observe-compact :
      (xs : List F)
      → (observe_elements pm (new pm) xs >>= λ c. compact pm c >>= λ x. some (x.1))
        ≡ absorb pm (chunks (length xs) sponge_rate xs) (new_state pm)
  observe-compact xs =
      >>=-congr (observe_elements pm (new pm) xs) (λ c. compact pm c >>= λ x. some (x.1))
        (λ c. flush pm c >>= λ d. some d.sponge_state) compact-flush
      ∙ sym (>>=-assoc (observe_elements pm (new pm) xs) (flush pm) (λ d. some d.sponge_state))
      ∙ from_new xs

  flush-total :
      (state input output : List F)
      → length state ≡ sponge_width
      → length input < sponge_rate
      → (s : List F) × (o : List F) × (flush pm (with_buffers state input output)
          ≡ some (with_buffers s [] o))
        × (length s ≡ sponge_width)
  unfolding is_empty
  flush-total state [] output l p = (state, output, refl, l)
  flush-total state (x ∷ xs) output l p =
      let s = next pm (x ∷ xs) state in
      let h : suc (length xs) ≤ 8 = omega (arith, p) in
      (
        s,
        squeeze s,
        duplexing-written pm state (x ∷ xs) output h l,
        length-next pm (x ∷ xs) state h l,
      )

  refilled-nonempty :
      (s o : List F)
      → length s ≡ sponge_width
      → (s' : List F) × (o' : List F) × (refilled pm s o ≡ with_buffers s' [] o')
        × (length s' ≡ sponge_width)
        × (is_empty o' ≡ false)
  unfolding is_empty
  refilled-nonempty s [] l =
      let t = pm.permute s in
      let lt = pm.length-permute s l in
      (t, squeeze t, refl, lt, is_empty-false (squeeze t) (omega (arith, length-squeeze t lt)))
  refilled-nonempty s (x ∷ xs) l = (s, x ∷ xs, refl, l, refl)

  get_challenge-IsValid :
      (c : Challenger F)
      → IsValid c
      → (c' : Challenger F) × (x : F) × (get_challenge pm c ≡ some (c', x)) × IsValid c'
  unfolding get_challenge
  get_challenge-IsValid c v =
      let (s, o, e, l) =
        flush-total c.sponge_state c.input_buffer c.output_buffer v.width v.partial in
      let (s', o', er, l', nonempty) = refilled-nonempty s o l in
      let (left, last, ep, _) = pop-some o' nonempty in
      let is_ready =
        ready-flush pm c.sponge_state c.input_buffer c.output_buffer s o v.width v.partial e
        ∙ ap some er in
      (
        with_buffers s' [] left,
        last,
        ap (λ m. m >>= λ d. pop d.output_buffer >>= taken d) is_ready
            ∙ ap (λ m. m >>= taken (with_buffers s' [] o')) ep,
        squeezed-IsValid s' left l',
      )
    where
      taken : Challenger F → List F × F → Option (Challenger F × F)
      taken d (left, last) = some (with_buffers d.sponge_state d.input_buffer left, last)

  get_n_challenges-IsValid :
      (n : ℕ) (c : Challenger F)
      → IsValid c
      → (c' : Challenger F) × (xs : List F) × (get_n_challenges pm n c ≡ some (c', xs))
        × (length xs ≡ n)
        × IsValid c'
  unfolding get_n_challenges
  get_n_challenges-IsValid zero c v = (c, [], refl, refl, v)
  get_n_challenges-IsValid (suc n) c v =
      let (c1, x, e1, v1) = get_challenge-IsValid c v in
      let (c2, xs, e2, l, v2) = get_n_challenges-IsValid n c1 v1 in
      (c2, x ∷ xs, rw (e1, e2) refl, ap suc l, v2)

  -- From a challenger whose state has twelve elements, whose input buffer is below the rate, and
  -- one of whose buffers is empty: observing any elements and then drawing any number of
  -- challenges never panics, gives exactly that many challenges, and leaves such a challenger
  -- after either.
  pub observe-draw-IsValid :
      (c : Challenger F) (elements : List F) (n : ℕ)
      → IsValid c
      → (c1 : Challenger F) × (c2 : Challenger F) × (challenges : List F) × (observe_elements pm c
            elements
          ≡ some c1)
        × IsValid c1
        × (get_n_challenges pm n c1 ≡ some (c2, challenges))
        × (length challenges ≡ n)
        × IsValid c2
  observe-draw-IsValid c elements n v =
      let (c1, e1, v1) = observe_elements-IsValid pm c elements v in
      let (c2, challenges, e2, l, v2) = get_n_challenges-IsValid n c1 v1 in
      (c1, c2, challenges, e1, v1, e2, l, v2)
