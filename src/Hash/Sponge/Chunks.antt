-- ===== src/Hash/Sponge/Chunks.antt =====
-- plonky2/src/hash/hashing.rs: the chunks of an input, and how they are absorbed.
use plonky.Common.{
  ℕ, zero, suc, ◌≤◌, ◌≡◌, refl, ap, ◌∙◌, arith, some, List, [], ◌∷◌, ◌++◌, length, take, drop,
  length-append, length-take, length-drop, ◌>>=◌,
}
use plonky.Hash.Sponge.{
  sponge_rate, sponge_width, Permuter, chunks, overwrite, set_from_iter, set_from_slice, squeeze,
  absorb, new_state,
}

module _ {A : Type 0} where
  overwrite-eq :
      (elts state : List A)
      → length elts ≤ length state
      → overwrite elts state ≡ elts ++ drop (length elts) state
  unfolding overwrite
  overwrite-eq [] state h = refl
  overwrite-eq (e ∷ elts) [] h = absurd (omega (arith, h))
  overwrite-eq (e ∷ elts) (s ∷ state) h = ap (◌∷◌ e) (overwrite-eq elts state (omega (arith, h)))

  -- The state after a chunk that fits.
  abbrev pub written : List A → List A → List A
  written elts state = elts ++ drop (length elts) state

  pub set_from_iter-zero :
      (elts state : List A)
      → length elts ≤ length state
      → set_from_iter elts 0 state ≡ some (written elts state)
  unfolding set_from_iter
  set_from_iter-zero elts state h = ground (arith, overwrite-eq elts state h)

  pub set_from_slice-zero :
      (elts state : List A)
      → length elts ≤ length state
      → set_from_slice elts 0 state ≡ some (written elts state)
  unfolding set_from_slice
  set_from_slice-zero elts state h = ground arith

  pub length-written :
      (elts state : List A)
      → length elts ≤ length state
      → length (written elts state) ≡ length state
  length-written elts state h =
      omega (arith, length-append elts (drop (length elts) state), length-drop (length elts) state)

  pub length-squeeze : (state : List A) → length state ≡ 12 → length (squeeze state) ≡ 8
  unfolding squeeze
  length-squeeze state h = omega (arith, length-take 8 state)

module _ {F : Type 0} (pm : Permuter F) where
  -- Whatever the input is, a state of the right size absorbs it.
  pub absorb-chunks_total :
      (fuel : ℕ) (xs state : List F)
      → length state ≡ sponge_width
      → (state' : List F) × (absorb pm (chunks fuel sponge_rate xs) state ≡ some state')
        × (length state' ≡ sponge_width)
  unfolding absorb chunks
  absorb-chunks_total zero xs state h = (state, refl, h)
  absorb-chunks_total (suc fuel) [] state h = (state, refl, h)
  absorb-chunks_total (suc fuel) (x ∷ xs) state h =
      let c = take sponge_rate (x ∷ xs) in
      let fits : length c ≤ length state = omega (arith, length-take sponge_rate (x ∷ xs)) in
      let next = pm.permute (written c state) in
      let (state', e, l) =
        absorb-chunks_total fuel (drop sponge_rate (x ∷ xs)) next
          (pm.length-permute (written c state) (length-written c state fits ∙ h)) in
      (
        state',
        ap (λ o. o >>= λ s. absorb pm (chunks fuel 8 (drop 8 (x ∷ xs))) (pm.permute s))
              (set_from_slice-zero c state fits)
            ∙ e,
        l,
      )

  pub length-new_state : length (new_state pm) ≡ sponge_width
  unfolding new_state overwrite
  length-new_state = refl
