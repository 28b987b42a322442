-- ===== src/Iop/RecursiveChallenger/Simulation.antt =====
-- plonky2/src/iop/challenger.rs: a native challenger and a recursive one, operation by operation.
use plonky.Common.{
  ℕ, zero, suc, ◌≡◌, refl, sym, ap, ◌∙◌, arith, false, Option, some, List, [], ◌∷◌, ◌++◌, length,
  ◌>>=◌,
}
use plonky.Common.Options.{>>=-some}
use plonky.Hash.Sponge.{sponge_width, Permuter, squeeze}
use plonky.Hash.Sponge.Chunks.{absorb-chunks_total, length-squeeze}
use plonky.Iop.Challenger.{
  Challenger, is_empty, pop, observe_element as native_observe, observe_elements as native_observes,
  get_challenge as native_get, get_n_challenges as native_gets, compact as native_compact,
}
use plonky.Iop.Challenger.Flush.{
  with_buffers, squeezed, flush, observe-flush, observe_elements-append,
}
use plonky.Iop.Challenger.Valid.{
  IsValid, squeezed-IsValid, observe_element-IsValid, ready, refilled, ready-flush, pop-some,
  is_empty-false,
}
use plonky.Iop.RecursiveChallenger.{
  RecursiveChallenger, observe_element, observe_elements, absorb_buffered_inputs, refill,
  get_challenge, get_n_challenges, compact,
}

module _ {F : Type 0} where
  abbrev circuit : List F → List F → List F → RecursiveChallenger F
  circuit state input output = record {
    sponge_state = state;
    input_buffer = input;
    output_buffer = output;
  }

module _ {F : Type 0} (pm : Permuter F) where
  -- A native challenger that has observed what the recursive one has buffered.
  pub record Sim (c : Challenger F) (r : RecursiveChallenger F) : Type 0 where
    valid : IsValid c
    sim_length : length r.sponge_state ≡ sponge_width
    replay :
        native_observes pm (with_buffers r.sponge_state [] r.output_buffer) r.input_buffer ≡ some c

  pub Sim-nil :
      (state output : List F)
      → length state ≡ sponge_width
      → Sim (with_buffers state [] output) (circuit state [] output)
  unfolding native_observes
  Sim-nil state output l = record {
    valid = squeezed-IsValid state output l;
    sim_length = l;
    replay = refl;
  }

  -- Both sides succeed with the same value and stay related.
  pub record Agree {A : Type 0} (m : Option (Challenger F × A))
      (n : Option (RecursiveChallenger F × A)) : Type 0 where
    pub native_after : Challenger F
    pub circuit_after : RecursiveChallenger F
    pub value : A
    pub native_runs : m ≡ some (native_after, value)
    pub circuit_runs : n ≡ some (circuit_after, value)
    pub still : Sim native_after circuit_after

  -- A flushed native challenger is the recursive one with its inputs absorbed.
  record Flushed (c : Challenger F) (r : RecursiveChallenger F) : Type 0 where
    state : List F
    output : List F
    state_length : length state ≡ sponge_width
    native_flushed : flush pm c ≡ some (with_buffers state [] output)
    circuit_flushed : absorb_buffered_inputs pm r ≡ some (circuit state [] output)

  Flushed-Sim :
      (c : Challenger F) (state input output : List F)
      → Sim c (circuit state input output)
      → Flushed c (circuit state input output)
  unfolding absorb_buffered_inputs is_empty
  Flushed-Sim c state [] output sim = record {
    state = state;
    output = output;
    state_length = sim.sim_length;
    native_flushed =
        sym (ap (λ o. o >>= flush pm) sim.replay)
        ∙ observe-flush pm 0 [] state output (omega arith) sim.sim_length;
    circuit_flushed = refl;
  }
  Flushed-Sim c state (x ∷ xs) output sim =
      let n = length (x ∷ xs) in
      let (s, e, l) = absorb-chunks_total pm n (x ∷ xs) state sim.sim_length in
      record {
        state = s;
        output = squeeze s;
        state_length = l;
        native_flushed =
            sym (ap (λ o. o >>= flush pm) sim.replay)
            ∙ observe-flush pm n (x ∷ xs) state output (omega arith) sim.sim_length
            ∙ ap (λ o. o >>= λ t. some (squeezed t)) e;
        circuit_flushed = ap (λ o. o >>= λ t. some (circuit t [] (squeeze t))) e;
      }

  -- The outputs at hand.
  refill_both :
      (s o : List F)
      → length s ≡ sponge_width
      → (s' : List F) × (o' : List F) × (refilled pm s o ≡ with_buffers s' [] o')
        × (refill pm (circuit s [] o) ≡ circuit s' [] o')
        × (length s' ≡ sponge_width)
        × (is_empty o' ≡ false)
  unfolding refill is_empty
  refill_both s [] l =
      let t = pm.permute s in
      let lt = pm.length-permute s l in
      (
        t,
        squeeze t,
        refl,
        refl,
        lt,
        is_empty-false (squeeze t) (omega (arith, length-squeeze t lt)),
      )
  refill_both s (x ∷ xs) l = (s, x ∷ xs, refl, refl, l, refl)

  -- The challenge taken from the output buffer.
  abbrev native_taken : Challenger F → List F × F → Option (Challenger F × F)
  native_taken d (left, last) = some (with_buffers d.sponge_state d.input_buffer left, last)

  abbrev circuit_taken : RecursiveChallenger F → List F × F → Option (RecursiveChallenger F × F)
  circuit_taken d (left, last) = some (circuit d.sponge_state d.input_buffer left, last)

  get_challenge-Agree :
      (c : Challenger F) (r : RecursiveChallenger F)
      → Sim c r
      → Agree (native_get pm c) (get_challenge pm r)
  unfolding native_get get_challenge
  get_challenge-Agree c r sim =
      let f = Flushed-Sim c r.sponge_state r.input_buffer r.output_buffer sim in
      let (s, o, en, ec, l, nonempty) = refill_both f.state f.output f.state_length in
      let (left, last, e, _) = pop-some o nonempty in
      let is_ready : ready pm c ≡ some (with_buffers s [] o) =
        ready-flush pm c.sponge_state c.input_buffer c.output_buffer f.state f.output
          sim.valid.width sim.valid.partial f.native_flushed
        ∙ ap some en in
      record {
        native_after = with_buffers s [] left;
        circuit_after = circuit s [] left;
        value = last;
        native_runs =
            ap (λ m. m >>= λ d. pop d.output_buffer >>= native_taken d) is_ready
            ∙ ap (λ m. m >>= native_taken (with_buffers s [] o)) e;
        circuit_runs =
            ap (λ m. m >>= λ d. pop (refill pm d).output_buffer >>= circuit_taken (refill pm d))
              f.circuit_flushed
            ∙ ap (λ d. pop d.output_buffer >>= circuit_taken d) ec
            ∙ ap (λ m. m >>= circuit_taken (circuit s [] o)) e;
        still = Sim-nil s left l;
      }

  pub get_n_challenges-Agree :
      (n : ℕ) (c : Challenger F) (r : RecursiveChallenger F)
      → Sim c r
      → Agree (native_gets pm n c) (get_n_challenges pm n r)
  unfolding native_gets get_n_challenges
  get_n_challenges-Agree zero c r sim = record {
    native_after = c;
    circuit_after = r;
    value = [];
    native_runs = refl;
    circuit_runs = refl;
    still = sim;
  }
  get_n_challenges-Agree (suc n) c r sim =
      let one = get_challenge-Agree c r sim in
      let more = get_n_challenges-Agree n one.native_after one.circuit_after one.still in
      record {
        native_after = more.native_after;
        circuit_after = more.circuit_after;
        value = one.value ∷ more.value;
        native_runs = rw (one.native_runs, more.native_runs) refl;
        circuit_runs = rw (one.circuit_runs, more.circuit_runs) refl;
        still = more.still;
      }

  pub compact-Agree :
      (c : Challenger F) (r : RecursiveChallenger F)
      → Sim c r
      → Agree (native_compact pm c) (compact pm r)
  unfolding native_compact compact
  compact-Agree c r sim =
      let f = Flushed-Sim c r.sponge_state r.input_buffer r.output_buffer sim in
      record {
        native_after = with_buffers f.state [] [];
        circuit_after = circuit f.state [] [];
        value = f.state;
        native_runs =
            ap
              (λ m. m >>= λ d. some (with_buffers d.sponge_state d.input_buffer [], d.sponge_state))
              f.native_flushed;
        circuit_runs =
            ap (λ m. m >>= λ d. some (circuit d.sponge_state d.input_buffer [], d.sponge_state))
              f.circuit_flushed;
        still = Sim-nil f.state [] f.state_length;
      }

  -- An observation empties the outputs, whichever they were.
  any_output :
      (state o o' input : List F) (x : F)
      → native_observes pm (with_buffers state [] o) (input ++ (x ∷ []))
        ≡ native_observes pm (with_buffers state [] o') (input ++ (x ∷ []))
  unfolding native_observes native_observe
  any_output state o o' [] x = refl
  any_output state o o' (y ∷ ys) x = refl

  observe_one : (c : Challenger F) (x : F) → native_observes pm c (x ∷ []) ≡ native_observe pm c x
  unfolding native_observes
  observe_one c x = >>=-some (native_observe pm c x)

  replay-observe :
      (state output input : List F) (x : F) (c : Challenger F)
      → native_observes pm (with_buffers state [] output) input ≡ some c
      → native_observes pm (with_buffers state [] []) (input ++ (x ∷ [])) ≡ native_observe pm c x
  replay-observe state output input x c h =
      any_output state [] output input x
      ∙ observe_elements-append pm (with_buffers state [] output) input (x ∷ [])
      ∙ ap (λ m. m >>= λ d. native_observes pm d (x ∷ [])) h
      ∙ observe_one c x

  observe_element-Sim :
      (c : Challenger F) (r : RecursiveChallenger F) (x : F)
      → Sim c r
      → (c' : Challenger F) × (native_observe pm c x ≡ some c') × Sim c' (observe_element r x)
  unfolding observe_element
  observe_element-Sim c r x sim =
      let (c', e, v) = observe_element-IsValid pm c x sim.valid in
      (
        c',
        e,
        record {
          valid = v;
          sim_length = sim.sim_length;
          replay = replay-observe r.sponge_state r.output_buffer r.input_buffer x c sim.replay ∙ e;
        },
      )

  pub observe_elements-Sim :
      (c : Challenger F) (r : RecursiveChallenger F) (xs : List F)
      → Sim c r
      → (c' : Challenger F) × (native_observes pm c xs ≡ some c') × Sim c' (observe_elements r xs)
  unfolding native_observes observe_elements
  observe_elements-Sim c r [] sim = (c, refl, sim)
  observe_elements-Sim c r (x ∷ xs) sim =
      let (c1, e1, sim1) = observe_element-Sim c r x sim in
      let (c2, e2, sim2) = observe_elements-Sim c1 (observe_element r x) xs sim1 in
      (c2, rw e1 e2, sim2)
