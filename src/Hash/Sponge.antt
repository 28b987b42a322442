-- ===== src/Hash/Sponge.antt =====
-- plonky2/src/hash/hashing.rs, the state of the permutation in hash/poseidon.rs, and `hash_pad` of
-- plonk/config.rs. The permutation itself is a parameter: a function on states of twelve elements.
-- `none` is a panic, an index out of range or, where there is fuel, a loop that has not ended.
pub mod Chunks
pub mod Squeeze
pub mod Padding
mod Tests
use plonky.Common.{
  ℕ, zero, suc, ◌+◌, ◌*◌, ◌%◌, ◌≡◌, Bool, true, false, not, Option, none, some, List, [], ◌∷◌, ◌++◌,
  length, take, drop, replicate, leb, ◌==◌, if◌then◌else◌, assert, ◌>>=◌, ◌>>◌,
}

abbrev pub sponge_rate : ℕ
sponge_rate = 8

abbrev pub sponge_width : ℕ
sponge_width = 12

abbrev pub num_hash_out_elts : ℕ
num_hash_out_elts = 4

-- The field's constants, and `Permuter::permute` on arrays of `SPONGE_WIDTH` elements.
pub record Permuter (F : Type 0) : Type 0 where
  pub zero_elt : F
  pub one_elt : F
  pub permute : List F → List F
  pub length-permute : (s : List F) → length s ≡ sponge_width → length (permute s) ≡ sponge_width

module _ {A : Type 0} where
  -- `slice::chunks(size)`, whose last chunk may be shorter; every round takes an element or more.
  unfoldable pub chunks : ℕ → ℕ → List A → List (List A)
  chunks zero size xs = []
  chunks (suc fuel) size [] = []
  chunks (suc fuel) size (x ∷ xs) = take size (x ∷ xs) ∷ chunks fuel size (drop size (x ∷ xs))

  -- `iter_mut().zip(elts)`: the front of the state is overwritten.
  unfoldable pub overwrite : List A → List A → List A
  overwrite [] state = state
  overwrite (e ∷ elts) [] = []
  overwrite (e ∷ elts) (s ∷ state) = e ∷ overwrite elts state

  unfoldable pub set_from_iter : List A → ℕ → List A → Option (List A)
  set_from_iter elts start_idx state = do
    assert (leb start_idx (length state))
    some (take start_idx state ++ overwrite elts (drop start_idx state))

  unfoldable pub set_from_slice : List A → ℕ → List A → Option (List A)
  set_from_slice elts start_idx state = do
    assert (leb (start_idx + length elts) (length state))
    some (take start_idx state ++ (elts ++ drop (start_idx + length elts) state))

  unfoldable pub squeeze : List A → List A
  squeeze state = take sponge_rate state

  -- One pass over the squeezed items: whether the loop has returned, and the outputs.
  unfoldable pub push_outputs : ℕ → List A → List A → Bool × List A
  push_outputs num_outputs [] outputs = (false, outputs)
  push_outputs num_outputs (item ∷ items) outputs =
      let outputs' = outputs ++ (item ∷ []) in
      let rest = push_outputs num_outputs items outputs' in
      if length outputs' == num_outputs then (true, outputs') else rest

module _ {F : Type 0} (pm : Permuter F) where
  -- `P::new(repeat(F::ZERO))`
  unfoldable pub new_state : List F
  new_state = overwrite (replicate sponge_width pm.zero_elt) (replicate sponge_width pm.zero_elt)

  -- The loop over the input chunks.
  unfoldable pub absorb : List (List F) → List F → Option (List F)
  absorb [] state = some state
  absorb (input_chunk ∷ input_chunks) state = do
    state' ← set_from_slice input_chunk 0 state
    absorb input_chunks (pm.permute state')

  unfoldable pub squeeze_loop : ℕ → ℕ → List F → List F → Option (List F)
  squeeze_loop zero num_outputs state outputs = none
  squeeze_loop (suc fuel) num_outputs state outputs =
      let (returned, outputs') = push_outputs num_outputs (squeeze state) outputs in
      let rest = squeeze_loop fuel num_outputs (pm.permute state) outputs' in
      if returned then some outputs' else rest

  -- The fuel bounds the passes of the last loop.
  unfoldable pub hash_n_to_m_no_pad : ℕ → List F → ℕ → Option (List F)
  hash_n_to_m_no_pad fuel inputs num_outputs = do
    state ← absorb (chunks (length inputs) sponge_rate inputs) new_state
    squeeze_loop fuel num_outputs state []

  unfoldable pub hash_n_to_hash_no_pad : List F → Option (List F)
  hash_n_to_hash_no_pad inputs = do
    elements ← hash_n_to_m_no_pad 1 inputs num_hash_out_elts
    assert (length elements == num_hash_out_elts)
    some elements

  unfoldable pub compress : List F → List F → Option (List F)
  compress x y = do
    state ← set_from_slice x 0 new_state
    state' ← set_from_slice y num_hash_out_elts state
    some (take num_hash_out_elts (squeeze (pm.permute state')))

  -- The zeros that the `while` of `hash_pad` adds; `RATE` rounds are enough.
  unfoldable pub pad_zeros : ℕ → List F → Option (List F)
  pad_zeros zero padded_input = none
  pad_zeros (suc fuel) padded_input =
      let rest = pad_zeros fuel (padded_input ++ (pm.zero_elt ∷ [])) in
      if (length padded_input + 1) % sponge_rate == 0 then some padded_input else rest

  -- The padded input of `hash_pad`.
  unfoldable pub pad : List F → Option (List F)
  pad input = do
    padded_input ← pad_zeros sponge_rate (input ++ (pm.one_elt ∷ []))
    some (padded_input ++ (pm.one_elt ∷ []))

  unfoldable pub hash_pad : List F → Option (List F)
  hash_pad input = pad input >>= hash_n_to_hash_no_pad
