-- ===== src/Iop/RecursiveChallenger.antt =====
-- plonky2/src/iop/challenger.rs: `RecursiveChallenger`, on the values of its targets. The gates
-- that the builder's `permute` adds compute the permutation. `none` is a panic.
pub mod Simulation
pub mod Consistency
mod Tests
use plonky.Common.{
  ℕ, zero, suc, Bool, true, false, Option, none, some, List, [], ◌∷◌, ◌++◌, length, if◌then◌else◌,
  ◌>>=◌,
}
use plonky.Hash.Sponge.{sponge_rate, Permuter, chunks, squeeze, new_state, absorb}
use plonky.Iop.Challenger.{is_empty, pop}

-- The input buffer may grow beyond the rate.
pub record RecursiveChallenger (F : Type 0) : Type 0 where
  pub sponge_state : List F
  pub input_buffer : List F
  pub output_buffer : List F

module _ {F : Type 0} where
  unfoldable pub from_state : List F → RecursiveChallenger F
  from_state sponge_state = record {
    sponge_state = sponge_state;
    input_buffer = [];
    output_buffer = [];
  }

  unfoldable pub observe_element : RecursiveChallenger F → F → RecursiveChallenger F
  observe_element r target = record {
    sponge_state = r.sponge_state;
    input_buffer = r.input_buffer ++ (target ∷ []);
    output_buffer = [];
  }

  unfoldable pub observe_elements : RecursiveChallenger F → List F → RecursiveChallenger F
  observe_elements r [] = r
  observe_elements r (target ∷ targets) = observe_elements (observe_element r target) targets

module _ {F : Type 0} (pm : Permuter F) where
  unfoldable pub new : RecursiveChallenger F
  new = from_state (new_state pm)

  unfoldable pub absorb_buffered_inputs : RecursiveChallenger F → Option (RecursiveChallenger F)
  absorb_buffered_inputs r =
      let absorbed : Option (RecursiveChallenger F) = (do
        state ← absorb pm (chunks (length r.input_buffer) sponge_rate r.input_buffer) r.sponge_state
        some (record { sponge_state = state; input_buffer = []; output_buffer = squeeze state })) in
      if is_empty r.input_buffer then some r else absorbed

  -- The squeeze of an empty output buffer.
  unfoldable pub refill : RecursiveChallenger F → RecursiveChallenger F
  refill r =
      if is_empty r.output_buffer
      then record {
        sponge_state = pm.permute r.sponge_state;
        input_buffer = r.input_buffer;
        output_buffer = squeeze (pm.permute r.sponge_state);
      }
      else r

  unfoldable pub get_challenge : RecursiveChallenger F → Option (RecursiveChallenger F × F)
  get_challenge r = do
    absorbed ← absorb_buffered_inputs r
    let refilled = refill absorbed
    (output_buffer', challenge) ← pop refilled.output_buffer
    some (
      record {
        sponge_state = refilled.sponge_state;
        input_buffer = refilled.input_buffer;
        output_buffer = output_buffer';
      },
      challenge,
    )

  unfoldable pub get_n_challenges :
      ℕ → RecursiveChallenger F → Option (RecursiveChallenger F × List F)
  get_n_challenges zero r = some (r, [])
  get_n_challenges (suc n) r = do
    (r', challenge) ← get_challenge r
    (r'', challenges) ← get_n_challenges n r'
    some (r'', challenge ∷ challenges)

  unfoldable pub compact : RecursiveChallenger F → Option (RecursiveChallenger F × List F)
  compact r = do
    absorbed ← absorb_buffered_inputs r
    some (
      record {
        sponge_state = absorbed.sponge_state;
        input_buffer = absorbed.input_buffer;
        output_buffer = [];
      },
      absorbed.sponge_state,
    )
