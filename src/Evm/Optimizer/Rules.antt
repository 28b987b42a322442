-- ===== src/Evm/Optimizer/Rules.antt =====
-- evm/src/cpu/kernel/optimizer.rs: each rule puts shorter code in the place of a window, which ends
-- as every run of the window does that does not fail.
use plonky.Common.{
  ◌<◌, ◌≡◌, inl, inr, refl, sym, ap, ap₂, ◌∙◌, arith, true, Option, some, List, [], ◌∷◌, ◌++◌,
  length, assert, Bool, Option-cases, none, subst, ◌>>=◌,
}
use plonky.Common.Options.{>>=-eq-some, eq_of_some}
use plonky.Evm.Ast.{U256, UnaryOp, BinaryOp, unary, binary, literal, Item, push, standard_op}
use plonky.Evm.Interpreter.{
  Effect, Clock, Machine, pushed, on_two, computed, run_op, run_item, and_run, run_code,
}
use plonky.Evm.Optimizer.{
  pushed_literal, operation, unary_of, binary_of, fold_unary, fold_binary, is_identity, safe,
  is_code_improved, cost_estimate, cost_estimate_item, matched_binary, folded, constant_unary,
  constant_binary, identity_operation,
}
use plonky.Evm.Optimizer.Folding.{U256Laws, fold-run_unary, fold-run_binary, run_binary_identity}
use plonky.Evm.Optimizer.Patterns.{
  pushed_literal-some, operation-some, unary_of-some, binary_of-some, assert-some,
}
use plonky.Evm.Optimizer.Runs.{◌⊑◌, Fits, Improves, run_from}

module _ {U M : Type 0} (u : U256 U) (m : Machine U M) (jumps : U → List U → M → Effect U M)
    (laws : U256Laws u) where
  -- A replacement is shorter than its window and improves it before all code.
  abbrev pub IsRule : (List (Item U) → Option (List (Item U))) → Type 0
  IsRule rule =
      (window replacement back : List (Item U))
      → rule window ≡ some replacement
      → (length replacement < length window)
        × Improves u m jumps (window ++ back) (replacement ++ back)

  -- A rule is applied to a window that is known by an equation.
  pub applied :
      {window window' replacement replacement' : List (Item U)} (back : List (Item U))
      → window ≡ window'
      → replacement' ≡ replacement
      → length replacement' < length window'
      → Improves u m jumps (window' ++ back) (replacement' ++ back)
      → (length replacement < length window)
        × Improves u m jumps (window ++ back) (replacement ++ back)
  applied back ew er short h = rw (ew, sym er) (short, h)

  pub two :
      {a a' b b' : Item U} → a ≡ a' → b ≡ b' → ◌≡◌ {A = List (Item U)} (a ∷ b ∷ []) (a' ∷ b' ∷ [])
  two ea eb = ap₂ (λ x y. x ∷ y ∷ []) ea eb

  pub three :
      {a a' b b' c c' : Item U}
      → a ≡ a'
      → b ≡ b'
      → c ≡ c'
      → ◌≡◌ {A = List (Item U)} (a ∷ b ∷ c ∷ []) (a' ∷ b' ∷ c' ∷ [])
  three {c = c} ea eb ec = ap₂ ◌∷◌ ea (two eb ec)

  -- A closure that may panic: it does not at the code that fits, and what it suggests is a rule's.
  pub record IsPassRule (rule : List (Item U) → Option (Option (List (Item U)))) : Type 0 where
    pub returns :
        (window back : List (Item U))
        → Fits u m jumps (window ++ back)
        → (found : Option (List (Item U))) × (rule window ≡ some found)
    pub sound :
        (window replacement back : List (Item U))
        → rule window ≡ some (some replacement)
        → (length replacement < length window)
          × Improves u m jumps (window ++ back) (replacement ++ back)

  pub safe-IsPassRule :
      (rule : List (Item U) → Option (List (Item U))) → IsRule rule → IsPassRule (safe rule)
  safe-IsPassRule rule h = record {
    returns = λ window back fits. (rule window, refl);
    sound = λ window r back e. h window r back (eq_of_some e);
  }

  -- The cost of what it replaces is known.
  abbrev pub IsPriced : (List (Item U) → Option (Option (List (Item U)))) → Type 0
  IsPriced rule =
      (window replacement : List (Item U))
      → rule window ≡ some (some replacement)
      → (improved : Bool) × (is_code_improved u window replacement ≡ some improved)

  unary_case :
      (f : UnaryOp) (x : U) (back : List (Item U))
      → Improves u m jumps
          (push (literal x) ∷ standard_op (unary f) ∷ back)
          (push (literal (fold_unary u f x)) ∷ back)
  unfolding run_code and_run run_item run_op
  unary_case f x back (hp, (ho, h)) =
      ((tt, h), λ t s rest. run_from u m jumps back _ _ _ _ s rest h (sym (fold-run_unary u f x)))

  constant_unary-some :
      (window r : List (Item U))
      → constant_unary u window ≡ some r
      → (f : UnaryOp) × (x : U) × (window ≡ push (literal x) ∷ standard_op (unary f) ∷ [])
        × (push (literal (fold_unary u f x)) ∷ [] ≡ r)
  unfolding constant_unary
  constant_unary-some [] r e = absurd cc
  constant_unary-some (a ∷ []) r e = absurd cc
  constant_unary-some (a ∷ b ∷ []) r e =
      let (x, ex, e1) = >>=-eq-some (pushed_literal a) _ e in
      let (op, eo, e2) = >>=-eq-some (operation b) _ e1 in
      let (f, ef, e3) = >>=-eq-some (unary_of op) _ e2 in
      (
        f,
        x,
        two (pushed_literal-some a x ex)
            (operation-some b op eo ∙ ap standard_op (unary_of-some op f ef)),
        eq_of_some e3,
      )
  constant_unary-some (a ∷ b ∷ c ∷ ds) r e = absurd cc

  pub constant_unary-IsRule : IsRule (constant_unary u)
  constant_unary-IsRule window r back e =
      let (f, x, ew, er) = constant_unary-some window r e in
      applied back ew er (omega arith) (unary_case f x back)

  pub constant_unary-IsPriced : IsPriced (safe (constant_unary u))
  unfolding is_code_improved cost_estimate cost_estimate_item
  constant_unary-IsPriced window r e =
      let (f, x, ew, er) = constant_unary-some window r (eq_of_some e) in
      (_, ap₂ (is_code_improved u) ew (sym er))

  binary_case :
      (f : BinaryOp) (x y v : U) (back : List (Item U))
      → fold_binary u f x y ≡ some v
      → Improves u m jumps
          (push (literal y) ∷ push (literal x) ∷ standard_op (binary f) ∷ back)
          (push (literal v) ∷ back)
  unfolding run_code and_run run_item run_op computed on_two pushed
  binary_case f x y v back ev (hy, (hx, (ho, h))) =
      let g = fold-run_binary u laws f x y ho in
      (
        (tt, h),
        λ t s rest.
            rw (g.runs, g.run_eq)
              (run_from u m jumps back _ _ _ _ s rest h (eq_of_some (sym g.fold_eq ∙ ev))),
      )

  matched_binary-some :
      (window : List (Item U)) (f : BinaryOp) (x y : U)
      → matched_binary u window ≡ some (f, x, y)
      → window ≡ push (literal y) ∷ push (literal x) ∷ standard_op (binary f) ∷ []
  unfolding matched_binary
  matched_binary-some [] f x y e = absurd cc
  matched_binary-some (a ∷ []) f x y e = absurd cc
  matched_binary-some (a ∷ b ∷ []) f x y e = absurd cc
  matched_binary-some (a ∷ b ∷ c ∷ []) f x y e =
      let (y', ey, e1) = >>=-eq-some (pushed_literal a) _ e in
      let (x', ex, e2) = >>=-eq-some (pushed_literal b) _ e1 in
      let (op, eo, e3) = >>=-eq-some (operation c) _ e2 in
      let (f', ef, e4) = >>=-eq-some (binary_of op) _ e3 in
      let all = eq_of_some e4 in
      let ff : f' ≡ f = ap (λ p. p.0) all in
      let xx : x' ≡ x = ap (λ p. p.1) all in
      let yy : y' ≡ y = ap (λ p. p.2) all in
      three (pushed_literal-some a y' ey ∙ ap (λ z. push (literal z)) yy)
        (pushed_literal-some b x' ex ∙ ap (λ z. push (literal z)) xx)
        (operation-some c op eo ∙ ap standard_op (binary_of-some op f' ef ∙ ap binary ff))
  matched_binary-some (a ∷ b ∷ c ∷ d ∷ ds) f x y e = absurd cc

  folded-some :
      (o : Option (BinaryOp × U × U)) (r : List (Item U))
      → folded u o ≡ some (some r)
      → (f : BinaryOp) × (x : U) × (y : U) × (v : U) × (o ≡ some (f, x, y))
        × (fold_binary u f x y ≡ some v)
        × (push (literal v) ∷ [] ≡ r)
  unfolding folded
  folded-some none r e = absurd cc
  folded-some (some (f, x, y)) r e =
      let (v, ev, e1) = >>=-eq-some (fold_binary u f x y) _ e in
      (f, x, y, v, refl, ev, eq_of_some (eq_of_some e1))

  constant_binary-some :
      (window r : List (Item U))
      → constant_binary u window ≡ some (some r)
      → (f : BinaryOp) × (x : U) × (y : U) × (v : U) × (window
          ≡ push (literal y) ∷ push (literal x) ∷ standard_op (binary f) ∷ [])
        × (fold_binary u f x y ≡ some v)
        × (push (literal v) ∷ [] ≡ r)
  unfolding constant_binary
  constant_binary-some window r e =
      let (f, x, y, v, em, ev, er) = folded-some (matched_binary u window) r e in
      (f, x, y, v, matched_binary-some window f x y em, ev, er)

  pub constant_binary-IsPriced : IsPriced (constant_binary u)
  unfolding is_code_improved cost_estimate cost_estimate_item
  constant_binary-IsPriced window r e =
      let (f, x, y, v, ew, ev, er) = constant_binary-some window r e in
      (_, ap₂ (is_code_improved u) ew (sym er))

  pub constant_binary-IsPassRule : IsPassRule (constant_binary u)
  unfolding constant_binary folded
  constant_binary-IsPassRule = record {
    returns = λ window back fits. elim (Option-cases (matched_binary u window)) [
      | inl e ↦ (none, ap (folded u) e)
      | inr ((f, x, y), e) ↦
          let ew = matched_binary-some window f x y e in
          let (hy, (hx, (ho, h))) = subst (λ w. Fits u m jumps (w ++ back)) ew fits in
          let g = fold-run_binary u laws f x y ho in
          (
            some (push (literal g.word) ∷ []),
            ap (folded u) e
                ∙ ap (λ o. o >>= λ res. some (some (push (literal res) ∷ []))) g.fold_eq,
          )
    ];
    sound = λ window r back e.
        let (f, x, y, v, ew, ev, er) = constant_binary-some window r e in
        applied back ew er (omega arith) (binary_case f x y v back ev);
  }

  identity_case :
      (f : BinaryOp) (x : U) (back : List (Item U))
      → is_identity u f x ≡ true
      → Improves u m jumps (push (literal x) ∷ standard_op (binary f) ∷ back) back
  unfolding run_code and_run run_item run_op computed on_two pushed
  identity_case f x back e (hx, (ho, h)) = (h, run)
    where
      run :
          (t : Clock) (s : List U) (rest : M)
          → run_code u m jumps (push (literal x) ∷ standard_op (binary f) ∷ back) t s rest
            ⊑ run_code u m jumps back t s rest
      run t [] rest = let (g, eg, same) = run_binary_identity u laws f x x e in rw eg (inl refl)
      run t (y ∷ s) rest =
          let (g, eg, same) = run_binary_identity u laws f x y e in
          rw (eg, same) (run_from u m jumps back _ _ _ _ s rest h refl)

  pub identity_operation-IsRule : IsRule (identity_operation u)
  unfolding identity_operation
  identity_operation-IsRule [] r back e = absurd cc
  identity_operation-IsRule (a ∷ []) r back e = absurd cc
  identity_operation-IsRule (a ∷ b ∷ []) r back e =
      let (x, ex, e1) = >>=-eq-some (pushed_literal a) _ e in
      let (op, eo, e2) = >>=-eq-some (operation b) _ e1 in
      let (f, ef, e3) = >>=-eq-some (binary_of op) _ e2 in
      let (t, et, e4) = >>=-eq-some (assert (is_identity u f x)) _ e3 in
      applied back
        (two (pushed_literal-some a x ex)
          (operation-some b op eo ∙ ap standard_op (binary_of-some op f ef)))
        (eq_of_some e4) (omega arith)
        (identity_case f x back (assert-some (is_identity u f x) t et))
  identity_operation-IsRule (a ∷ b ∷ c ∷ ds) r back e = absurd cc
