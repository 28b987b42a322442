-- ===== src/Iop/Challenger.antt =====
-- plonky2/src/iop/challenger.rs: `Challenger`, and `RecursiveChallenger` on the values of its
-- targets, the gates of the builder's `permute` being the permutation. Hashes and extension
-- elements are the lists of their base field elements. `none` is a panic.
pub mod Flush
pub mod Valid
-- pub mod Recursive
pub mod Transcript
mod Tests
use plonky.Common.{
  ℕ, zero, suc, Bool, true, false, ◌||◌, not, Option, none, some, List, [], ◌∷◌, ◌++◌, length, leb,
  ◌==◌, if◌then◌else◌, assert, ◌>>=◌, ◌>>◌,
}
use plonky.Hash.Sponge.{
  sponge_rate, Permuter, chunks, set_from_iter, squeeze, new_state, absorb, num_hash_out_elts,
}

pub record Challenger (F : Type 0) : Type 0 where
  pub sponge_state : List F
  pub input_buffer : List F
  pub output_buffer : List F

module _ {A : Type 0} where
  unfoldable pub is_empty : List A → Bool
  is_empty [] = true
  is_empty (x ∷ xs) = false

  -- `Vec::pop`: the vector that is left, and its last element.
  unfoldable pub pop : List A → Option (List A × A)
  pop [] = none
  pop (x ∷ []) = some ([], x)
  pop (x ∷ y ∷ xs) = do (left, last) ← pop (y ∷ xs); some (x ∷ left, last)

module _ {F : Type 0} (pm : Permuter F) where
  unfoldable pub new : Challenger F
  new = record { sponge_state = new_state pm; input_buffer = []; output_buffer = [] }

  unfoldable pub duplexing : Challenger F → Option (Challenger F)
  duplexing c = do
    assert (leb (length c.input_buffer) sponge_rate)
    state ← set_from_iter c.input_buffer 0 c.sponge_state
    let state' = pm.permute state
    some (record { sponge_state = state'; input_buffer = []; output_buffer = squeeze state' })

  unfoldable pub observe_element : Challenger F → F → Option (Challenger F)
  observe_element c element =
      let c' : Challenger F = record {
        sponge_state = c.sponge_state;
        input_buffer = c.input_buffer ++ (element ∷ []);
        output_buffer = [];
      } in
      let duplexed = duplexing c' in
      if length c'.input_buffer == sponge_rate then duplexed else some c'

  unfoldable pub observe_elements : Challenger F → List F → Option (Challenger F)
  observe_elements c [] = some c
  observe_elements c (element ∷ elements) = do
    c' ← observe_element c element
    observe_elements c' elements

  -- `observe_extension_elements` and `observe_cap`: the elements, or the hashes, one by one.
  unfoldable pub observe_all : Challenger F → List (List F) → Option (Challenger F)
  observe_all c [] = some c
  observe_all c (elements ∷ rest) = do c' ← observe_elements c elements; observe_all c' rest

  unfoldable pub get_challenge : Challenger F → Option (Challenger F × F)
  get_challenge c =
      let duplexed = duplexing c in
      do
        c' ←
            (if not (is_empty c.input_buffer) || is_empty c.output_buffer then duplexed else some c)
        (output_buffer', challenge) ← pop c'.output_buffer
        some (
          record {
            sponge_state = c'.sponge_state;
            input_buffer = c'.input_buffer;
            output_buffer = output_buffer';
          },
          challenge,
        )

  unfoldable pub get_n_challenges : ℕ → Challenger F → Option (Challenger F × List F)
  get_n_challenges zero c = some (c, [])
  get_n_challenges (suc n) c = do
    (c', challenge) ← get_challenge c
    (c'', challenges) ← get_n_challenges n c'
    some (c'', challenge ∷ challenges)

  unfoldable pub get_hash : Challenger F → Option (Challenger F × List F)
  get_hash c = do
    (c1, e0) ← get_challenge c
    (c2, e1) ← get_challenge c1
    (c3, e2) ← get_challenge c2
    (c4, e3) ← get_challenge c3
    some (c4, e0 ∷ e1 ∷ e2 ∷ e3 ∷ [])

  unfoldable pub get_n_extension_challenges :
      ℕ → ℕ → Challenger F → Option (Challenger F × List (List F))
  get_n_extension_challenges d zero c = some (c, [])
  get_n_extension_challenges d (suc n) c = do
    (c', challenge) ← get_n_challenges d c
    (c'', challenges) ← get_n_extension_challenges d n c'
    some (c'', challenge ∷ challenges)

  unfoldable pub compact : Challenger F → Option (Challenger F × List F)
  compact c =
      let duplexed = duplexing c in
      do
        c' ← (if not (is_empty c.input_buffer) then duplexed else some c)
        some (
          record {
            sponge_state = c'.sponge_state;
            input_buffer = c'.input_buffer;
            output_buffer = [];
          },
          c'.sponge_state,
        )
