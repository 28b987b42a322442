-- ===== src/Evm/Optimizer/Folding.antt =====
-- evm/src/cpu/kernel/optimizer.rs: folding computes what the interpreter computes, but for `BYTE`,
-- `EXP` and shifts.
use plonky.Common.{◌≡◌, refl, sym, ap, ◌∙◌, Bool, true, false, Option, some, none, if◌then◌else◌}
use plonky.Evm.Ast.{
  U256, UnaryOp, op_iszero, op_not, BinaryOp, op_add, op_sub, op_mul, op_div, op_mod, op_exp,
  op_shl, op_shr, op_and, op_or, op_xor, op_lt, op_gt, op_eq, op_byte,
}
use plonky.Evm.Interpreter.{word_from_bool, run_unary, run_binary}
use plonky.Evm.Optimizer.{u256_from_bool, unwrap_or, fold_unary, fold_binary, commutes, is_identity}
use plonky.Evm.Optimizer.Runs.{is_excluded}

-- What the code relies on of `ethereum_types`: arithmetic and logic modulo a power of two.
pub record U256Laws {U : Type 0} (u : U256 U) : Type 0 where
  pub eq_words_sound : (x y : U) → u.eq_words x y ≡ true → x ≡ y
  pub eq_words_sym : (x y : U) → u.eq_words x y ≡ u.eq_words y x
  pub add_comm : (x y : U) → u.overflowing_add x y ≡ u.overflowing_add y x
  pub mul_comm : (x y : U) → u.overflowing_mul x y ≡ u.overflowing_mul y x
  pub and_comm : (x y : U) → u.and_word x y ≡ u.and_word y x
  pub or_comm : (x y : U) → u.or_word x y ≡ u.or_word y x
  pub xor_comm : (x y : U) → u.xor_word x y ≡ u.xor_word y x
  pub zero_add : (x : U) → u.overflowing_add u.zero_word x ≡ x
  pub one_mul : (x : U) → u.overflowing_mul u.one_word x ≡ x
  pub zero_or : (x : U) → u.or_word u.zero_word x ≡ x
  pub zero_xor : (x : U) → u.xor_word u.zero_word x ≡ x
  pub checked_div_by :
      (x y : U) → u.checked_div x y ≡ (if u.is_zero y then none else some (u.div_word x y))
  pub checked_rem_by :
      (x y : U) → u.checked_rem x y ≡ (if u.is_zero y then none else some (u.rem_word x y))

module _ {U : Type 0} (u : U256 U) where
  flag : (b : Bool) → u256_from_bool u b ≡ word_from_bool u b
  unfolding u256_from_bool word_from_bool
  flag true = refl
  flag false = refl

  pub fold-run_unary : (f : UnaryOp) (x : U) → fold_unary u f x ≡ run_unary u f x
  unfolding fold_unary run_unary u256_from_bool word_from_bool
  fold-run_unary op_iszero x = flag (u.is_zero x)
  fold-run_unary op_not x = refl

  unwrap-checked :
      (z w : U) (b : Bool) → unwrap_or (if b then none else some z) w ≡ (if b then w else z)
  unfolding unwrap_or
  unwrap-checked z w true = refl
  unwrap-checked z w false = refl

  -- The operation that the interpreter runs computes what folding does.
  pub record Folds (f : BinaryOp) (x y : U) : Type 0 where
    pub run : U → U → Option U
    pub runs : run_binary u f ≡ some run
    pub word : U
    pub fold_eq : fold_binary u f x y ≡ some word
    pub run_eq : run x y ≡ some word

  pub fold-run_binary : U256Laws u → (f : BinaryOp) (x y : U) → is_excluded f ≡ false → Folds f x y
  unfolding fold_binary run_binary
  fold-run_binary h op_add x y e = record {
    run = _;
    runs = refl;
    word = _;
    fold_eq = refl;
    run_eq = refl;
  }
  fold-run_binary h op_sub x y e = record {
    run = _;
    runs = refl;
    word = _;
    fold_eq = refl;
    run_eq = refl;
  }
  fold-run_binary h op_mul x y e = record {
    run = _;
    runs = refl;
    word = _;
    fold_eq = refl;
    run_eq = refl;
  }
  fold-run_binary h op_div x y e = record {
    run = _;
    runs = refl;
    word = _;
    fold_eq = refl;
    run_eq = ap some (
        sym (
          ap (λ o. unwrap_or o u.zero_word) (h.checked_div_by x y)
          ∙ unwrap-checked (u.div_word x y) u.zero_word (u.is_zero y)));
  }
  fold-run_binary h op_mod x y e = record {
    run = _;
    runs = refl;
    word = _;
    fold_eq = refl;
    run_eq = ap some (
        sym (
          ap (λ o. unwrap_or o u.zero_word) (h.checked_rem_by x y)
          ∙ unwrap-checked (u.rem_word x y) u.zero_word (u.is_zero y)));
  }
  fold-run_binary h op_exp x y e = absurd cc
  fold-run_binary h op_shl x y e = absurd cc
  fold-run_binary h op_shr x y e = absurd cc
  fold-run_binary h op_and x y e = record {
    run = _;
    runs = refl;
    word = _;
    fold_eq = refl;
    run_eq = refl;
  }
  fold-run_binary h op_or x y e = record {
    run = _;
    runs = refl;
    word = _;
    fold_eq = refl;
    run_eq = refl;
  }
  fold-run_binary h op_xor x y e = record {
    run = _;
    runs = refl;
    word = _;
    fold_eq = refl;
    run_eq = refl;
  }
  fold-run_binary h op_lt x y e = record {
    run = _;
    runs = refl;
    word = _;
    fold_eq = refl;
    run_eq = ap some (sym (flag (u.lt_words x y)));
  }
  fold-run_binary h op_gt x y e = record {
    run = _;
    runs = refl;
    word = _;
    fold_eq = refl;
    run_eq = ap some (sym (flag (u.lt_words y x)));
  }
  fold-run_binary h op_eq x y e = record {
    run = _;
    runs = refl;
    word = _;
    fold_eq = refl;
    run_eq = ap some (sym (flag (u.eq_words x y)));
  }
  fold-run_binary h op_byte x y e = absurd cc

  pub run_binary_comm :
      U256Laws u
      → (f : BinaryOp) (x y : U) → commutes f ≡ true
      → (run : U → U → Option U) × (run_binary u f ≡ some run) × (run x y ≡ run y x)
  unfolding commutes run_binary
  run_binary_comm h op_add x y e = (_, refl, ap some (h.add_comm x y))
  run_binary_comm h op_sub x y e = absurd cc
  run_binary_comm h op_mul x y e = (_, refl, ap some (h.mul_comm x y))
  run_binary_comm h op_div x y e = absurd cc
  run_binary_comm h op_mod x y e = absurd cc
  run_binary_comm h op_exp x y e = absurd cc
  run_binary_comm h op_shl x y e = absurd cc
  run_binary_comm h op_shr x y e = absurd cc
  run_binary_comm h op_and x y e = (_, refl, ap some (h.and_comm x y))
  run_binary_comm h op_or x y e = (_, refl, ap some (h.or_comm x y))
  run_binary_comm h op_xor x y e = (_, refl, ap some (h.xor_comm x y))
  run_binary_comm h op_lt x y e = absurd cc
  run_binary_comm h op_gt x y e = absurd cc
  run_binary_comm h op_eq x y e = (_, refl, ap some (ap (word_from_bool u) (h.eq_words_sym x y)))
  run_binary_comm h op_byte x y e = absurd cc

  pub run_binary_identity :
      U256Laws u
      → (f : BinaryOp) (x y : U) → is_identity u f x ≡ true
      → (run : U → U → Option U) × (run_binary u f ≡ some run) × (run x y ≡ some y)
  unfolding is_identity run_binary
  run_binary_identity h op_add x y e = (
    _,
    refl,
    ap some (ap (λ z. u.overflowing_add z y) (h.eq_words_sound x u.zero_word e) ∙ h.zero_add y),
  )
  run_binary_identity h op_sub x y e = absurd cc
  run_binary_identity h op_mul x y e = (
    _,
    refl,
    ap some (ap (λ z. u.overflowing_mul z y) (h.eq_words_sound x u.one_word e) ∙ h.one_mul y),
  )
  run_binary_identity h op_div x y e = absurd cc
  run_binary_identity h op_mod x y e = absurd cc
  run_binary_identity h op_exp x y e = absurd cc
  run_binary_identity h op_shl x y e = absurd cc
  run_binary_identity h op_shr x y e = absurd cc
  run_binary_identity h op_and x y e = absurd cc
  run_binary_identity h op_or x y e =
      (_, refl, ap some (ap (λ z. u.or_word z y) (h.eq_words_sound x u.zero_word e) ∙ h.zero_or y))
  run_binary_identity h op_xor x y e = (
    _,
    refl,
    ap some (ap (λ z. u.xor_word z y) (h.eq_words_sound x u.zero_word e) ∙ h.zero_xor y),
  )
  run_binary_identity h op_lt x y e = absurd cc
  run_binary_identity h op_gt x y e = absurd cc
  run_binary_identity h op_eq x y e = absurd cc
  run_binary_identity h op_byte x y e = absurd cc
