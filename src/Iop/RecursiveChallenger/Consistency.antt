-- ===== src/Iop/RecursiveChallenger/Consistency.antt =====
-- plonky2/src/iop/challenger.rs: `RecursiveChallenger` draws the challenges of `Challenger`.
use plonky.Common.{ℕ, ◌≡◌, refl, Option, some, List, [], ◌∷◌, ◌++◌, ◌>>=◌}
use plonky.Hash.Sponge.{Permuter, new_state}
use plonky.Hash.Sponge.Chunks.{length-new_state}
use plonky.Iop.Challenger.{
  Challenger, observe_elements as native_observes, get_n_challenges as native_gets,
  compact as native_compact, new as native_new,
}
use plonky.Iop.RecursiveChallenger.Simulation.{
  Sim, Sim-nil, Agree, get_n_challenges-Agree, compact-Agree, observe_elements-Sim,
}
use plonky.Iop.RecursiveChallenger.{
  RecursiveChallenger, observe_elements, get_n_challenges, compact, new, from_state,
}

-- The steps of a protocol: observing elements, drawing challenges, closing the transcript.
pub data Step (F : Type 0) : Type 0 where
  observe : List F → Step F
  draw : ℕ → Step F
  close : Step F

module _ {F : Type 0} (pm : Permuter F) where
  -- The challenger after the step, and what the step returns.
  abbrev pub native_step : Step F → Challenger F → Option (Challenger F × List F)
  native_step (observe xs) c = native_observes pm c xs >>= λ c'. some (c', [])
  native_step (draw n) c = native_gets pm n c
  native_step close c = native_compact pm c

  abbrev pub circuit_step : Step F → RecursiveChallenger F → Option (RecursiveChallenger F × List F)
  circuit_step (observe xs) r = some (observe_elements r xs, [])
  circuit_step (draw n) r = get_n_challenges pm n r
  circuit_step close r = compact pm r

  step-Agree :
      (step : Step F) (c : Challenger F) (r : RecursiveChallenger F)
      → Sim pm c r
      → Agree pm (native_step step c) (circuit_step step r)
  step-Agree (observe xs) c r sim =
      let (c', e, still) = observe_elements-Sim pm c r xs sim in
      record {
        native_after = c';
        circuit_after = observe_elements r xs;
        value = [];
        native_runs = rw e refl;
        circuit_runs = refl;
        still = still;
      }
  step-Agree (draw n) c r sim = get_n_challenges-Agree pm n c r sim
  step-Agree close c r sim = compact-Agree pm c r sim

  -- All that a protocol draws.
  abbrev pub native_run : List (Step F) → Challenger F → Option (List F)
  native_run [] c = some []
  native_run (step ∷ steps) c = do
    (c', out) ← native_step step c
    outs ← native_run steps c'
    some (out ++ outs)

  abbrev pub circuit_run : List (Step F) → RecursiveChallenger F → Option (List F)
  circuit_run [] r = some []
  circuit_run (step ∷ steps) r = do
    (r', out) ← circuit_step step r
    outs ← circuit_run steps r'
    some (out ++ outs)

  run-Sim :
      (steps : List (Step F)) (c : Challenger F) (r : RecursiveChallenger F)
      → Sim pm c r
      → (outs : List F) × (native_run steps c ≡ some outs) × (circuit_run steps r ≡ some outs)
  run-Sim [] c r sim = ([], refl, refl)
  run-Sim (step ∷ steps) c r sim =
      let one = step-Agree step c r sim in
      let (outs, en, ec) = run-Sim steps one.native_after one.circuit_after one.still in
      (one.value ++ outs, rw (one.native_runs, en) refl, rw (one.circuit_runs, ec) refl)

  -- Whatever a protocol observes, draws and closes, in whatever order, neither challenger panics,
  -- and `RecursiveChallenger` returns the challenges and states that `Challenger` returns.
  pub run-consistent :
      (steps : List (Step F))
      → (outs : List F) × (native_run steps (native_new pm) ≡ some outs)
        × (circuit_run steps (new pm) ≡ some outs)
  unfolding native_new new from_state
  run-consistent steps =
      run-Sim steps (native_new pm) (new pm) (Sim-nil pm (new_state pm) [] (length-new_state pm))
