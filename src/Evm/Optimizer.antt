-- ===== src/Evm/Optimizer.antt =====
-- evm/src/cpu/kernel/optimizer.rs and cost_estimator.rs: the peephole optimizer of the kernel's code.
-- Each pass replaces windows; `none` means a panic, or that a loop ran out of fuel.
pub mod Runs
pub mod Patterns
pub mod Rules
pub mod Moves
pub mod Folding
pub mod Passes
use mathlib.Core.List.{List-discrete}
use mathlib.Core.Logic.{ite}
use plonky.Common.{
  ℕ, zero, suc, ◌+◌, ◌/◌, Bool, true, false, ◌||◌, Option, none, some, List, [], ◌∷◌, length, ltb,
  leb, ◌==◌, if◌then◌else◌, assert, ◌>>=◌, ◌>>◌,
}
use plonky.Evm.Ast.{
  U256, UnaryOp, op_iszero, op_not, BinaryOp, op_add, op_sub, op_mul, op_div, op_mod, op_exp,
  op_shl, op_shr, op_and, op_or, op_xor, op_lt, op_gt, op_eq, op_byte, Op, unary, binary, swap, dup,
  pop, jump, other, PushTarget, literal, label, Item, global_label_declaration,
  local_label_declaration, push, prover_input, standard_op, bytes_item, jumptable, Item-discrete,
}
use plonky.Evm.Windows.{replace_windows}

unfoldable pub bytes_per_offset : ℕ
bytes_per_offset = 3

unfoldable pub unwrap_or : {U : Type 0} → Option U → U → U
unwrap_or none default = default
unwrap_or (some x) default = x

-- Tests of an operation: `some` where the pattern matches.
unfoldable pub is_jump : Op → Option (Unit {0})
is_jump jump = some tt
is_jump _ = none

unfoldable pub is_swap1 : Op → Option (Unit {0})
is_swap1 (swap n) = assert (n == 1)
is_swap1 _ = none

unfoldable pub is_pop : Op → Option (Unit {0})
is_pop pop = some tt
is_pop _ = none

unfoldable pub unary_of : Op → Option UnaryOp
unary_of (unary f) = some f
unary_of _ = none

unfoldable pub binary_of : Op → Option BinaryOp
binary_of (binary f) = some f
binary_of _ = none

unfoldable pub commutes : BinaryOp → Bool
commutes op_add = true
commutes op_mul = true
commutes op_and = true
commutes op_or = true
commutes op_xor = true
commutes op_eq = true
commutes _ = false

unfoldable pub is_commutative : Op → Option (Unit {0})
is_commutative (binary op) = assert (commutes op)
is_commutative _ = none

-- A closure that does not panic.
abbrev pub safe : {A : Type 0} → (A → Option A) → A → Option (Option A)
safe f x = some (f x)

-- The patterns `Push(Literal(x))`, `Push(x)`, `StandardOp(op)` and the declaration of a label.
module _ {U : Type 0} where
  unfoldable pub pushed_literal : Item U → Option U
  pushed_literal (push (literal x)) = some x
  pushed_literal _ = none

  unfoldable pub pushed_label : Item U → Option ℕ
  pushed_label (push (label l)) = some l
  pushed_label _ = none

  unfoldable pub pushed_target : Item U → Option (PushTarget U)
  pushed_target (push x) = some x
  pushed_target _ = none

  unfoldable pub operation : Item U → Option Op
  operation (standard_op op) = some op
  operation _ = none

  unfoldable pub is_declaration_of : ℕ → Item U → Bool
  is_declaration_of l (local_label_declaration l') = l' == l
  is_declaration_of l (global_label_declaration l') = l' == l
  is_declaration_of l _ = false

  unfoldable pub is_push_or_dup : Item U → Option (Unit {0})
  is_push_or_dup (push x) = some tt
  is_push_or_dup (standard_op (dup n)) = some tt
  is_push_or_dup _ = none

  -- `[PUSH label, JUMP, label:] -> [label:]`
  unfoldable pub no_op_jump : List (Item U) → Option (List (Item U))
  no_op_jump (a ∷ b ∷ decl ∷ []) = do
    l ← pushed_label a
    op ← operation b
    is_jump op
    assert (is_declaration_of l decl)
    some (decl ∷ [])
  no_op_jump _ = none

  -- `[PUSH x, PUSH y, SWAP1] -> [PUSH y, PUSH x]`
  unfoldable pub swapped_pushes : List (Item U) → Option (List (Item U))
  swapped_pushes (a ∷ b ∷ c ∷ []) = do
    x ← pushed_target a
    y ← pushed_target b
    op ← operation c
    is_swap1 op
    some (push y ∷ push x ∷ [])
  swapped_pushes _ = none

  -- `[SWAP1, f] -> [f]`
  unfoldable pub swap_commutative : List (Item U) → Option (List (Item U))
  swap_commutative (a ∷ b ∷ []) = do
    op ← operation a
    is_swap1 op
    f ← operation b
    is_commutative f
    some (standard_op f ∷ [])
  swap_commutative _ = none

  -- `[PUSH x, POP] -> []` and `[DUPn, POP] -> []`
  unfoldable pub ignored_value : List (Item U) → Option (List (Item U))
  ignored_value (a ∷ b ∷ []) = do op ← operation b; is_pop op; is_push_or_dup a; some []
  ignored_value _ = none

module _ {U : Type 0} (u : U256 U) where
  unfoldable pub u256_from_bool : Bool → U
  u256_from_bool true = u.one_word
  u256_from_bool false = u.zero_word

  unfoldable pub fold_unary : UnaryOp → U → U
  fold_unary op_iszero x = u256_from_bool (u.is_zero x)
  fold_unary op_not x = u.not_word x

  -- `none` where a shift panics.
  unfoldable pub fold_binary : BinaryOp → U → U → Option U
  fold_binary op_add x y = some (u.overflowing_add x y)
  fold_binary op_sub x y = some (u.overflowing_sub x y)
  fold_binary op_mul x y = some (u.overflowing_mul x y)
  fold_binary op_div x y = some (unwrap_or (u.checked_div x y) u.zero_word)
  fold_binary op_mod x y = some (unwrap_or (u.checked_rem x y) u.zero_word)
  fold_binary op_exp x y = some (u.overflowing_pow x y)
  fold_binary op_shl x y = u.shl_word y x
  fold_binary op_shr x y = u.shr_word y x
  fold_binary op_and x y = some (u.and_word x y)
  fold_binary op_or x y = some (u.or_word x y)
  fold_binary op_xor x y = some (u.xor_word x y)
  fold_binary op_lt x y = some (u256_from_bool (u.lt_words x y))
  fold_binary op_gt x y = some (u256_from_bool (u.lt_words y x))
  fold_binary op_eq x y = some (u256_from_bool (u.eq_words x y))
  fold_binary op_byte x y =
      some (if u.lt_words x (u.from_usize 32) then u.byte_of y (u.as_usize x) else u.zero_word)

  -- The length of `u256_to_trimmed_be_bytes`.
  unfoldable pub num_bytes : U → ℕ
  num_bytes x = (u.bits_of x + 7) / 8

  unfoldable pub cost_estimate_item : Item U → Option ℕ
  cost_estimate_item (global_label_declaration l) = some 0
  cost_estimate_item (local_label_declaration l) = some 0
  cost_estimate_item (push (literal x)) = some (num_bytes x)
  cost_estimate_item (push (label l)) = some bytes_per_offset
  cost_estimate_item (prover_input f) = some 1
  cost_estimate_item (standard_op op) = some 1
  cost_estimate_item (bytes_item bytes) = none
  cost_estimate_item (jumptable labels) = none

  unfoldable pub cost_estimate : List (Item U) → Option ℕ
  cost_estimate [] = some 0
  cost_estimate (item ∷ code) = do
    c ← cost_estimate_item item
    cs ← cost_estimate code
    some (c + cs)

  unfoldable pub is_code_improved : List (Item U) → List (Item U) → Option Bool
  is_code_improved before after = do
    a ← cost_estimate after
    b ← cost_estimate before
    some (ltb a b)

  -- `maybe_replace` with the filter of `replace_windows_if_better`. The estimate of an item whose cost
  -- is not known panics.
  unfoldable pub filtered : List (Item U) → Option (List (Item U)) → Option (Option (List (Item U)))
  filtered window none = some none
  filtered window (some suggestion) = do
    improved ← is_code_improved window suggestion
    some (if improved then some suggestion else none)

  unfoldable pub if_better :
      (List (Item U) → Option (Option (List (Item U))))
      → List (Item U)
      → Option (Option (List (Item U)))
  if_better maybe_replace window = do found ← maybe_replace window; filtered window found

  unfoldable pub constant_unary : List (Item U) → Option (List (Item U))
  constant_unary (a ∷ b ∷ []) = do
    x ← pushed_literal a
    op ← operation b
    f ← unary_of op
    some (push (literal (fold_unary f x)) ∷ [])
  constant_unary _ = none

  -- The pattern of binary operations, and its result.
  unfoldable pub matched_binary : List (Item U) → Option (BinaryOp × U × U)
  matched_binary (a ∷ b ∷ c ∷ []) = do
    y ← pushed_literal a
    x ← pushed_literal b
    op ← operation c
    f ← binary_of op
    some (f, x, y)
  matched_binary _ = none

  unfoldable pub folded : Option (BinaryOp × U × U) → Option (Option (List (Item U)))
  folded none = some none
  folded (some (f, x, y)) = do res ← fold_binary f x y; some (some (push (literal res) ∷ []))

  unfoldable pub constant_binary : List (Item U) → Option (Option (List (Item U)))
  constant_binary window = folded (matched_binary window)

  -- The word that the operation has no effect with.
  unfoldable pub is_identity : BinaryOp → U → Bool
  is_identity op_add x = u.eq_words x u.zero_word
  is_identity op_mul x = u.eq_words x u.one_word
  is_identity op_or x = u.eq_words x u.zero_word
  is_identity op_xor x = u.eq_words x u.zero_word
  is_identity _ x = false

  unfoldable pub identity_operation : List (Item U) → Option (List (Item U))
  identity_operation (a ∷ b ∷ []) = do
    x ← pushed_literal a
    op ← operation b
    f ← binary_of op
    assert (is_identity f x)
    some []
  identity_operation _ = none

  unfoldable pub optimize_asm_once : List (Item U) → Option (List (Item U))
  optimize_asm_once code = do
    c1 ← replace_windows 2 (if_better (safe constant_unary)) code
    c2 ← replace_windows 3 (if_better constant_binary) c1
    c3 ← replace_windows 2 (safe identity_operation) c2
    c4 ← replace_windows 3 (safe no_op_jump) c3
    c5 ← replace_windows 3 (safe swapped_pushes) c4
    c6 ← replace_windows 2 (safe swap_commutative) c5
    replace_windows 2 (safe ignored_value) c6

  -- The comparison of the code with the code before: a pass either leaves it or shortens it, and
  -- every pass but the last shortens it, so `length code + 1` rounds are enough.
  module _ (same_word : Discrete U) where
    unfoldable pub optimize_loop : ℕ → List (Item U) → Option (List (Item U))
    optimize_loop zero code = none
    optimize_loop (suc fuel) code = do
      code' ← optimize_asm_once code
      let rest = optimize_loop fuel code'
      ite (List-discrete (Item-discrete same_word) code' code) (some code') rest

    unfoldable pub optimize_asm : List (Item U) → Option (List (Item U))
    optimize_asm code = optimize_loop (suc (length code)) code
