-- ===== src/Evm/Optimizer/Moves.antt =====
-- evm/src/cpu/kernel/optimizer.rs: the rules that compute nothing: jumps to what follows, swaps, and
-- values that are not used.
use plonky.Common.{
  ℕ, ◌-◌, ◌≡◌, inl, inr, refl, sym, ap, ◌∙◌, arith, true, Option, some, none, List, [], ◌∷◌,
  get_elem?, assert,
}
use plonky.Common.Options.{>>=-eq-some, eq_of_some}
use plonky.Evm.Ast.{
  U256, BinaryOp, binary, swap, dup, pop, jump, PushTarget, literal, label, Item,
  global_label_declaration, local_label_declaration, push, standard_op,
}
use plonky.Evm.Interpreter.{
  Effect, Clock, Machine, on_two, computed, pushed, swapped, run_op, run_item, and_run, run_code,
}
use plonky.Evm.Optimizer.{
  pushed_label, pushed_target, operation, is_jump, is_swap1, is_pop, is_commutative, is_push_or_dup,
  is_declaration_of, commutes, no_op_jump, swapped_pushes, swap_commutative, ignored_value,
}
use plonky.Evm.Optimizer.Folding.{U256Laws, run_binary_comm}
use plonky.Evm.Optimizer.Patterns.{
  pushed_label-some, pushed_target-some, operation-some, is_jump-some, is_swap1-some, is_pop-some,
  is_commutative-some, is_push_or_dup-some, is_declaration_of-true, assert-some,
}
use plonky.Evm.Optimizer.Rules.{IsRule, applied, two, three}
use plonky.Evm.Optimizer.Runs.{◌⊑◌, Improves, run_code-clock, and_run-clock}

module _ {U M : Type 0} (u : U256 U) (m : Machine U M) (jumps : U → List U → M → Effect U M)
    (laws : U256Laws u) where
  local_case :
      (l : ℕ) (back : List (Item U))
      → Improves u m jumps
          (push (label l) ∷ standard_op jump ∷ local_label_declaration l ∷ back)
          (local_label_declaration l ∷ back)
  unfolding run_code and_run run_item run_op
  local_case l back (hp, (ho, (hj, h))) = ((hj, h), λ t s rest. hj _ s rest)

  global_case :
      (l : ℕ) (back : List (Item U))
      → Improves u m jumps
          (push (label l) ∷ standard_op jump ∷ global_label_declaration l ∷ back)
          (global_label_declaration l ∷ back)
  unfolding run_code and_run run_item run_op
  global_case l back (hp, (ho, (hj, h))) = ((hj, h), λ t s rest. hj _ s rest)

  pub no_op_jump-IsRule : IsRule u m jumps laws no_op_jump
  unfolding no_op_jump
  no_op_jump-IsRule [] r back e = absurd cc
  no_op_jump-IsRule (a ∷ []) r back e = absurd cc
  no_op_jump-IsRule (a ∷ b ∷ []) r back e = absurd cc
  no_op_jump-IsRule (a ∷ b ∷ decl ∷ []) r back e =
      let (l, el, e1) = >>=-eq-some (pushed_label a) _ e in
      let (op, eo, e2) = >>=-eq-some (operation b) _ e1 in
      let (t, ej, e3) = >>=-eq-some (is_jump op) _ e2 in
      let (t', ed, e4) = >>=-eq-some (assert (is_declaration_of l decl)) _ e3 in
      let ea = pushed_label-some a l el in
      let eb = operation-some b op eo ∙ ap standard_op (is_jump-some op t ej) in
      elim (is_declaration_of-true l decl (assert-some (is_declaration_of l decl) t' ed)) [
        | inl ec ↦
            applied u m jumps laws back (three u m jumps laws ea eb ec)
              (ap (λ d. d ∷ []) (sym ec) ∙ eq_of_some e4) (omega arith) (local_case l back)
        | inr ec ↦
            applied u m jumps laws back (three u m jumps laws ea eb ec)
              (ap (λ d. d ∷ []) (sym ec) ∙ eq_of_some e4) (omega arith) (global_case l back)
      ]
  no_op_jump-IsRule (a ∷ b ∷ c ∷ d ∷ ds) r back e = absurd cc

  swapped_case :
      (x y : PushTarget U) (back : List (Item U))
      → Improves u m jumps (push x ∷ push y ∷ standard_op (swap 1) ∷ back) (push y ∷ push x ∷ back)
  unfolding run_code and_run run_item run_op swapped
  swapped_case (literal x) (literal y) back (hx, (hy, (ho, h))) =
      ((tt, (tt, h)), λ t s rest. inr (run_code-clock u m jumps back _ _ _ rest h))
  swapped_case (literal x) (label l) back (hx, (hy, (ho, h))) =
      ((tt, (tt, h)), λ t s rest. inr (run_code-clock u m jumps back _ _ _ rest h))
  swapped_case (label k) (literal y) back (hx, (hy, (ho, h))) =
      ((tt, (tt, h)), λ t s rest. inr (run_code-clock u m jumps back _ _ _ rest h))
  swapped_case (label k) (label l) back (hx, (hy, (ho, h))) =
      ((tt, (tt, h)), λ t s rest. inr (run_code-clock u m jumps back _ _ _ rest h))

  pub swapped_pushes-IsRule : IsRule u m jumps laws swapped_pushes
  unfolding swapped_pushes
  swapped_pushes-IsRule [] r back e = absurd cc
  swapped_pushes-IsRule (a ∷ []) r back e = absurd cc
  swapped_pushes-IsRule (a ∷ b ∷ []) r back e = absurd cc
  swapped_pushes-IsRule (a ∷ b ∷ c ∷ []) r back e =
      let (x, ex, e1) = >>=-eq-some (pushed_target a) _ e in
      let (y, ey, e2) = >>=-eq-some (pushed_target b) _ e1 in
      let (op, eo, e3) = >>=-eq-some (operation c) _ e2 in
      let (t, es, e4) = >>=-eq-some (is_swap1 op) _ e3 in
      applied u m jumps laws back
        (three u m jumps laws (pushed_target-some a x ex) (pushed_target-some b y ey)
          (operation-some c op eo ∙ ap standard_op (is_swap1-some op t es)))
        (eq_of_some e4) (omega arith) (swapped_case x y back)
  swapped_pushes-IsRule (a ∷ b ∷ c ∷ d ∷ ds) r back e = absurd cc

  commutative_case :
      (f : BinaryOp) (back : List (Item U))
      → commutes f ≡ true
      → Improves u m jumps
          (standard_op (swap 1) ∷ standard_op (binary f) ∷ back)
          (standard_op (binary f) ∷ back)
  unfolding run_code and_run run_item run_op swapped computed on_two pushed
  commutative_case f back e (hs, (hf, h)) = ((hf, h), run)
    where
      run :
          (t : Clock) (s : List U) (rest : M)
          → run_code u m jumps (standard_op (swap 1) ∷ standard_op (binary f) ∷ back) t s rest
            ⊑ run_code u m jumps (standard_op (binary f) ∷ back) t s rest
      run t [] rest = inl refl
      run t (x ∷ []) rest = inl refl
      run t (x ∷ y ∷ s) rest =
          let (g, eg, same) = run_binary_comm u laws f y x e in
          rw (eg, same) (inr (and_run-clock u m jumps (g x y) _ _ back s rest h))

  pub swap_commutative-IsRule : IsRule u m jumps laws swap_commutative
  unfolding swap_commutative
  swap_commutative-IsRule [] r back e = absurd cc
  swap_commutative-IsRule (a ∷ []) r back e = absurd cc
  swap_commutative-IsRule (a ∷ b ∷ []) r back e =
      let (op, eo, e1) = >>=-eq-some (operation a) _ e in
      let (t, es, e2) = >>=-eq-some (is_swap1 op) _ e1 in
      let (g, eg, e3) = >>=-eq-some (operation b) _ e2 in
      let (t', ec, e4) = >>=-eq-some (is_commutative g) _ e3 in
      let (f, ef, c) = is_commutative-some g t' ec in
      applied u m jumps laws back
        (two u m jumps laws (operation-some a op eo ∙ ap standard_op (is_swap1-some op t es))
          (operation-some b g eg ∙ ap standard_op ef))
        (ap (λ g. standard_op g ∷ []) (sym ef) ∙ eq_of_some e4) (omega arith)
        (commutative_case f back c)
  swap_commutative-IsRule (a ∷ b ∷ c ∷ ds) r back e = absurd cc

  push_case :
      (x : PushTarget U) (back : List (Item U))
      → Improves u m jumps (push x ∷ standard_op pop ∷ back) back
  unfolding run_code and_run run_item run_op
  push_case (literal x) back (hx, (ho, h)) =
      (h, λ t s rest. inr (run_code-clock u m jumps back _ _ _ rest h))
  push_case (label l) back (hx, (ho, h)) =
      (h, λ t s rest. inr (run_code-clock u m jumps back _ _ _ rest h))

  dup_case :
      (n : ℕ) (back : List (Item U))
      → Improves u m jumps (standard_op (dup n) ∷ standard_op pop ∷ back) back
  unfolding run_code and_run run_item run_op pushed
  dup_case n back (hd, (ho, h)) = (h, λ t s rest. after (get_elem? s (n - 1)) t _ s rest)
    where
      after :
          (o : Option U) (t t' : Clock) (s : List U) (rest : M)
          → and_run jumps (pushed u m o s rest) (run_code u m jumps (standard_op pop ∷ back) t')
            ⊑ run_code u m jumps back t s rest
      after none t t' s rest = inl refl
      after (some x) t t' s rest = inr (run_code-clock u m jumps back _ _ _ rest h)

  pub ignored_value-IsRule : IsRule u m jumps laws ignored_value
  unfolding ignored_value
  ignored_value-IsRule [] r back e = absurd cc
  ignored_value-IsRule (a ∷ []) r back e = absurd cc
  ignored_value-IsRule (a ∷ b ∷ []) r back e =
      let (op, eo, e1) = >>=-eq-some (operation b) _ e in
      let (t, ep, e2) = >>=-eq-some (is_pop op) _ e1 in
      let (t', ea, e3) = >>=-eq-some (is_push_or_dup a) _ e2 in
      let eb = operation-some b op eo ∙ ap standard_op (is_pop-some op t ep) in
      elim (is_push_or_dup-some a t' ea) [
        | inl (x, ex) ↦
            applied u m jumps laws back (two u m jumps laws ex eb) (eq_of_some e3) (omega arith)
              (push_case x back)
        | inr (n, en) ↦
            applied u m jumps laws back (two u m jumps laws en eb) (eq_of_some e3) (omega arith)
              (dup_case n back)
      ]
  ignored_value-IsRule (a ∷ b ∷ c ∷ ds) r back e = absurd cc
