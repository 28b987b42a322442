-- ===== src/Evm/Optimizer/Passes.antt =====
-- evm/src/cpu/kernel/optimizer.rs: the passes and the loop over them.
use mathlib.Core.List.{List-discrete}
use mathlib.Core.Logic.{ite}
use plonky.Common.{
  ℕ, zero, suc, ◌<◌, ◌≡◌, ◌⊎◌, inl, inr, refl, sym, ap, subst, ◌∙◌, arith, Option, some, List, [],
  ◌++◌, length, ◌>>=◌, none, eq_of_some, Bool, true, false, Option-cases, if◌then◌else◌,
}
use plonky.Common.Options.{>>=-eq-some}
use plonky.Evm.Ast.{U256, Item, Item-discrete}
use plonky.Evm.Interpreter.{Effect, Clock, Machine, run_code}
use plonky.Evm.Optimizer.{
  safe, is_code_improved, filtered, if_better, optimize_asm_once, optimize_loop, optimize_asm,
}
use plonky.Evm.Optimizer.Folding.{U256Laws}
use plonky.Evm.Optimizer.Moves.{
  no_op_jump-IsRule, swapped_pushes-IsRule, swap_commutative-IsRule, ignored_value-IsRule,
}
use plonky.Evm.Optimizer.Rules.{
  IsRule, IsPassRule, safe-IsPassRule, IsPriced, constant_unary-IsRule, constant_unary-IsPriced,
  constant_binary-IsPassRule, constant_binary-IsPriced, identity_operation-IsRule,
}
use plonky.Evm.Optimizer.Runs.{
  ◌⊑◌, Fits, Fits-back, Improves, Improves-refl, Improves-trans, Improves-front,
}
use plonky.Evm.Windows.{replace_windows}
use plonky.Evm.Windows.Total.{replace_windows_lem}

module _ {U M : Type 0} (u : U256 U) (m : Machine U M) (jumps : U → List U → M → Effect U M)
    (laws : U256Laws u) where
  filtered-some :
      (window r : List (Item U)) (found : Option (List (Item U)))
      → filtered u window found ≡ some (some r)
      → found ≡ some r
  unfolding filtered
  filtered-some window r none e = absurd cc
  filtered-some window r (some r') e =
      let (improved, ei, e1) = >>=-eq-some (is_code_improved u window r') _ e in
      kept improved (eq_of_some e1)
    where
      kept : (b : Bool) → (if b then some r' else none) ≡ some r → some r' ≡ some r
      kept true e = e
      kept false e = absurd cc

  if_better-IsPassRule :
      (rule : List (Item U) → Option (Option (List (Item U))))
      → IsPassRule u m jumps laws rule
      → IsPriced u m jumps laws rule
      → IsPassRule u m jumps laws (if_better u rule)
  unfolding if_better filtered
  if_better-IsPassRule rule h priced = record {
    returns = λ window back fits.
        let (found, e) = h.returns window back fits in
        elim (Option-cases found) [
          | inl ef ↦ (none, ap (λ o. o >>= filtered u window) (e ∙ ap some ef))
          | inr (r, ef) ↦
              let (improved, ei) = priced window r (e ∙ ap some ef) in
              (
                (if improved then some r else none),
                ap (λ o. o >>= filtered u window) (e ∙ ap some ef)
                    ∙ ap (λ o. o >>= λ b. some (if b then some r else none)) ei,
              )
        ];
    sound = λ window r back e.
        let (found, ef, e1) = >>=-eq-some (rule window) _ e in
        h.sound window r back (ef ∙ ap some (filtered-some window r found e1));
  }

  -- A pass of code that fits ends without a panic, and returns the code itself or shorter code that may
  -- take its place.
  abbrev IsPass : (List (Item U) → Option (List (Item U))) → Type 0
  IsPass pass =
      (code : List (Item U))
      → Fits u m jumps code
      → (code' : List (Item U)) × (pass code ≡ some code')
        × Improves u m jumps code code'
        × ((code ≡ code') ⊎ (length code' < length code))

  replace-IsPass :
      (w : ℕ) (rule : List (Item U) → Option (Option (List (Item U))))
      → 0 < w
      → IsPassRule u m jumps laws rule
      → IsPass (replace_windows w rule)
  replace-IsPass w rule pos h code fits =
      let (code', e, (i, c), good, left) =
        replace_windows_lem w rule (Fits u m jumps) (Improves u m jumps)
          (record {
            positive = pos;
            total = λ front window back good.
                h.returns window back (Fits-back u m jumps front (window ++ back) good);
            keeps = λ xs ys r good. (r good).0;
            shorter = λ window r size er. omega (arith, (h.sound window r [] er).0, size);
            related = λ front window r back er.
                Improves-front u m jumps front (window ++ back) (r ++ back)
                  ((h.sound window r back er).1);
            R-refl = Improves-refl u m jumps;
            R-trans = Improves-trans u m jumps;
          })
          code fits in
      (code', e, i, c)

  replace-safe :
      (w : ℕ) (rule : List (Item U) → Option (List (Item U)))
      → 0 < w
      → IsRule u m jumps laws rule
      → IsPass (replace_windows w (safe rule))
  replace-safe w rule pos h =
      replace-IsPass w (safe rule) pos (safe-IsPassRule u m jumps laws rule h)

  then-IsPass :
      (f g : List (Item U) → Option (List (Item U)))
      → IsPass f
      → IsPass g
      → IsPass (λ code. f code >>= g)
  then-IsPass f g hf hg code fits =
      let (b, eb, i, c) = hf code fits in
      let (d, ed, i', c') = hg b ((i fits).0) in
      (d, ap (λ o. o >>= g) eb ∙ ed, Improves-trans u m jumps code b d i i', shrinks code b d c c')
    where
      shrinks :
          (a b d : List (Item U))
          → (a ≡ b) ⊎ (length b < length a)
          → (b ≡ d) ⊎ (length d < length b)
          → (a ≡ d) ⊎ (length d < length a)
      shrinks a b d (inl e) c = subst (λ x. (x ≡ d) ⊎ (length d < length x)) (sym e) c
      shrinks a b d (inr l) (inl e) = inr (subst (λ x. length x < length a) e l)
      shrinks a b d (inr l) (inr l') = inr (omega (arith, l, l'))

  optimize_asm_once-IsPass : IsPass (optimize_asm_once u)
  unfolding optimize_asm_once
  optimize_asm_once-IsPass =
      then-IsPass _ _
        (replace-IsPass 2 _ (omega arith) (
          if_better-IsPassRule _
            (safe-IsPassRule u m jumps laws _ (constant_unary-IsRule u m jumps laws))
            (constant_unary-IsPriced u m jumps laws)))
        (then-IsPass _ _
          (replace-IsPass 3 _ (omega arith) (
            if_better-IsPassRule _ (constant_binary-IsPassRule u m jumps laws)
              (constant_binary-IsPriced u m jumps laws)))
          (then-IsPass _ _
            (replace-safe 2 _ (omega arith) (identity_operation-IsRule u m jumps laws))
            (then-IsPass _ _ (replace-safe 3 _ (omega arith) (no_op_jump-IsRule u m jumps laws)) (
              then-IsPass _ _
                (replace-safe 3 _ (omega arith) (swapped_pushes-IsRule u m jumps laws))
                (then-IsPass _ _
                  (replace-safe 2 _ (omega arith) (swap_commutative-IsRule u m jumps laws))
                  (replace-safe 2 _ (omega arith) (ignored_value-IsRule u m jumps laws)))))))

  module _ (same_word : Discrete U) where
    -- The fixed point of the loop, by the decision that ends it.
    settled :
        (fuel : ℕ) (code code1 : List (Item U)) (d : Dec (code1 ≡ code))
        → length code < suc fuel
        → optimize_asm_once u code ≡ some code1
        → (code ≡ code1) ⊎ (length code1 < length code)
        → (length code1 < fuel
            → (code' : List (Item U)) × (optimize_loop u same_word fuel code1 ≡ some code')
              × Improves u m jumps code1 code'
              × (optimize_asm_once u code' ≡ some code'))
        → (code' : List (Item U)) × (ite d (some code1) (optimize_loop u same_word fuel code1)
            ≡ some code')
          × Improves u m jumps code1 code'
          × (optimize_asm_once u code' ≡ some code')
    settled fuel code code1 (yes same) f e c later = (
      code1,
      refl,
      Improves-refl u m jumps code1,
      subst (λ x. optimize_asm_once u x ≡ some code1) (sym same) e,
    )
    settled fuel code code1 (no changed) f e (inl same) later = absurd (changed (sym same))
    settled fuel code code1 (no changed) f e (inr shorter) later = later (omega (arith, f, shorter))

    loop :
        (fuel : ℕ) (code : List (Item U))
        → length code < fuel
        → Fits u m jumps code
        → (code' : List (Item U)) × (optimize_loop u same_word fuel code ≡ some code')
          × Improves u m jumps code code'
          × (optimize_asm_once u code' ≡ some code')
    unfolding optimize_loop
    loop zero code f fits = absurd (omega (arith, f))
    loop (suc fuel) code f fits =
        let (code1, e, i, c) = optimize_asm_once-IsPass code fits in
        let (code', e', i', fixed) =
          settled fuel code code1 (List-discrete (Item-discrete same_word) code1 code) f e c
            (λ shorter. loop fuel code1 shorter ((i fits).0)) in
        (code', rw e e', Improves-trans u m jumps code code1 code' i i', fixed)

    -- For code without `BYTE`, `EXP` and shifts, whose jumps to labels continue behind them and whose
    -- other operations do not read the program counter nor the gas, the optimizer ends without a panic,
    -- and its result is such code again, which no further pass changes. Every run of the code that does
    -- not fail ends in the same way in the result: with the same stack and state, by running out of the
    -- code, by the same jump, or by halting.
    pub optimize_asm-preserves :
        (code : List (Item U))
        → Fits u m jumps code
        → (code' : List (Item U)) × (optimize_asm u same_word code ≡ some code')
          × Fits u m jumps code'
          × ((t : Clock) (s : List U) (rest : M)
              → run_code u m jumps code t s rest ⊑ run_code u m jumps code' t s rest)
          × (optimize_asm_once u code' ≡ some code')
    unfolding optimize_asm
    optimize_asm-preserves code h =
        let (code', e, i, fixed) = loop (suc (length code)) code (omega arith) h in
        let (h', r) = i h in (code', e, h', r, fixed)
