-- ===== src/Iop/Challenger/Valid.antt =====
-- plonky2/src/iop/challenger.rs: the invariant of `Challenger`, and that no operation panics.
use native.Mathlib.Decide.{ℕ_discrete}
use plonky.Common.{
  ◌≤◌, ◌<◌, ◌≡◌, ◌⊎◌, inl, inr, refl, sym, ap, ◌∙◌, arith, false, ◌||◌, not, Option, some, List, [],
  ◌∷◌, ◌++◌, length, if◌then◌else◌, length-append, ◌>>=◌, eq_of_some,
}
use plonky.Hash.Sponge.{sponge_rate, sponge_width, Permuter, squeeze}
use plonky.Hash.Sponge.Chunks.{length-squeeze, length-written, written}
use plonky.Iop.Challenger.{Challenger, is_empty, pop, duplexing, observe_element, observe_elements}
use plonky.Iop.Challenger.Flush.{with_buffers, squeezed, flush, duplexing-written}

-- Between two operations the input buffer is not full, and outputs that do not reflect the inputs
-- are gone.
pub record IsValid {F : Type 0} (c : Challenger F) : Type 0 where
  pub width : length c.sponge_state ≡ sponge_width
  pub partial : length c.input_buffer < sponge_rate
  pub fresh : (c.input_buffer ≡ []) ⊎ (c.output_buffer ≡ [])

module _ {F : Type 0} where
  pub squeezed-IsValid :
      (state output : List F) → length state ≡ sponge_width → IsValid (with_buffers state [] output)
  squeezed-IsValid state output l = record { width = l; partial = omega arith; fresh = inl refl }

  pub is_empty-false : (xs : List F) → 1 ≤ length xs → is_empty xs ≡ false
  unfolding is_empty
  is_empty-false [] h = absurd (omega (arith, h))
  is_empty-false (x ∷ xs) h = refl

  pub pop-some :
      (xs : List F)
      → is_empty xs ≡ false
      → (left : List F) × (last : F) × (pop xs ≡ some (left, last)) × (xs ≡ left ++ (last ∷ []))
  unfolding pop is_empty
  pop-some [] h = cc
  pop-some (x ∷ []) h = ([], x, refl, refl)
  pop-some (x ∷ y ∷ xs) h =
      let (left, last, e, s) = pop-some (y ∷ xs) refl in (x ∷ left, last, rw e refl, ap (◌∷◌ x) s)

module _ {F : Type 0} (pm : Permuter F) where
  abbrev pub next : List F → List F → List F
  next input state = pm.permute (written input state)

  pub length-next :
      (input state : List F)
      → length input ≤ 8
      → length state ≡ sponge_width
      → length (next input state) ≡ sponge_width
  length-next input state h l =
      pm.length-permute (written input state) (length-written input state (omega (arith, h, l)) ∙ l)

  pub observe_element-IsValid :
      (c : Challenger F) (x : F)
      → IsValid c
      → (c' : Challenger F) × (observe_element pm c x ≡ some c') × IsValid c'
  unfolding observe_element
  observe_element-IsValid c x v =
      let input = c.input_buffer ++ (x ∷ []) in
      let n = length-append c.input_buffer (x ∷ []) in
      let l = v.width in
      let s = next input c.sponge_state in
      elim (ℕ_discrete (length input) 8) [
        | yes full ↦
            let short : length input ≤ 8 = omega (arith, full) in
            (
              squeezed s,
              ground (arith, full, duplexing-written pm c.sponge_state input [] short l),
              squeezed-IsValid s (squeeze s) (length-next input c.sponge_state short l),
            )
        | no not_full ↦ (
          with_buffers c.sponge_state input [],
          ground (arith, not_full),
          record { width = l; partial = omega (arith, n, v.partial, not_full); fresh = inr refl },
        )
      ]

  pub observe_elements-IsValid :
      (c : Challenger F) (xs : List F)
      → IsValid c
      → (c' : Challenger F) × (observe_elements pm c xs ≡ some c') × IsValid c'
  unfolding observe_elements
  observe_elements-IsValid c [] v = (c, refl, v)
  observe_elements-IsValid c (x ∷ xs) v =
      let (c1, e1, v1) = observe_element-IsValid c x v in
      let (c2, e2, v2) = observe_elements-IsValid c1 xs v1 in
      (c2, ap (λ o. o >>= λ d. observe_elements pm d xs) e1 ∙ e2, v2)

  -- The challenger when `get_challenge` takes an output.
  abbrev pub ready : Challenger F → Option (Challenger F)
  ready c =
      if not (is_empty c.input_buffer) || is_empty c.output_buffer then duplexing pm c else some c

  -- After a flush, that is one more permutation if there are no outputs.
  abbrev pub refilled : List F → List F → Challenger F
  refilled s o = if is_empty o then squeezed (pm.permute s) else with_buffers s [] o

  pub ready-flush :
      (state input output s o : List F)
      → length state ≡ sponge_width
      → length input < sponge_rate
      → flush pm (with_buffers state input output) ≡ some (with_buffers s [] o)
      → ready (with_buffers state input output) ≡ some (refilled s o)
  unfolding is_empty
  ready-flush state [] output s o l p h =
      let e : with_buffers state [] output ≡ with_buffers s [] o = eq_of_some h in
      ap ready e ∙ ready-empty s o (ap (λ c. length c.sponge_state) (sym e) ∙ l)
    where
      ready-empty :
          (s o : List F)
          → length s ≡ sponge_width
          → ready (with_buffers s [] o) ≡ some (refilled s o)
      ready-empty s [] l = duplexing-written pm s [] [] (omega arith) l
      ready-empty s (x ∷ xs) l = refl
  ready-flush state (x ∷ xs) output s o l p h =
      let d = duplexing-written pm state (x ∷ xs) output (omega (arith, p)) l in
      let t = next (x ∷ xs) state in
      let e : squeezed t ≡ with_buffers s [] o = eq_of_some (sym d ∙ h) in
      let full = length-squeeze t (length-next (x ∷ xs) state (omega (arith, p)) l) in
      let nonempty : is_empty o ≡ false =
        ap (λ c. is_empty c.output_buffer) (sym e)
        ∙ is_empty-false (squeeze t) (omega (arith, full)) in
      h ∙ sym (ap (λ b. some (if b then squeezed (pm.permute s) else with_buffers s [] o)) nonempty)
