-- ===== src/Evm/Interpreter.antt =====
-- evm/src/cpu/kernel/interpreter.rs: what the operations that the optimizer knows do to the stack,
-- in kernel mode, where neither the stack nor the gas has a bound. The other operations, system calls
-- such as `EXP` among them, and the rest `M` of the state are parameters; a clock, of the program
-- counter and the gas used, runs along with the code.
use plonky.Common.{
  ℕ, ◌-◌, Bool, true, false, Option, none, some, List, [], ◌∷◌, get_elem?, set, if◌then◌else◌,
}
use plonky.Evm.Ast.{
  U256, UnaryOp, op_iszero, op_not, BinaryOp, op_add, op_sub, op_mul, op_div, op_mod, op_exp,
  op_shl, op_shr, op_and, op_or, op_xor, op_lt, op_gt, op_eq, op_byte, Op, unary, binary, swap, dup,
  pop, jump, other, literal, label, Item, global_label_declaration, local_label_declaration, push,
  prover_input, standard_op, bytes_item, jumptable,
}

-- How a step, or a piece of code, ends: it runs into what follows, jumps to an address, halts or
-- fails.
pub data Effect (U M : Type 0) : Type 0 where
  next_state : List U → M → Effect U M
  goto : U → List U → M → Effect U M
  halt : List U → M → Effect U M
  fail : Effect U M

-- The program counter, and the gas used.
abbrev pub Clock : Type 0
Clock = ℕ × ℕ

-- The addresses of labels in the final layout, how an item moves the clock, and the operations that
-- are not modelled, which may read the clock.
pub record Machine (U M : Type 0) : Type 0 where
  pub address : ℕ → U
  pub tick : Item U → Clock → Clock
  pub run_other : Item U → Clock → List U → M → Effect U M

module _ {U : Type 0} (u : U256 U) where
  unfoldable pub word_from_bool : Bool → U
  word_from_bool true = u.one_word
  word_from_bool false = u.zero_word

  -- What a unary operation pushes for the word that it pops.
  abbrev pub run_iszero : U → U
  run_iszero x = word_from_bool (u.is_zero x)

  abbrev pub run_not : U → U
  run_not x = u.not_word x

  unfoldable pub run_unary : UnaryOp → U → U
  run_unary op_iszero x = run_iszero x
  run_unary op_not x = run_not x

  -- What a binary operation pushes for the top `x` of the stack and `y` below it.
  abbrev pub run_add : U → U → U
  run_add x y = u.overflowing_add x y

  abbrev pub run_sub : U → U → U
  run_sub x y = u.overflowing_sub x y

  abbrev pub run_mul : U → U → U
  run_mul x y = u.overflowing_mul x y

  abbrev pub run_div : U → U → U
  run_div x y = if u.is_zero y then u.zero_word else u.div_word x y

  abbrev pub run_mod : U → U → U
  run_mod x y = if u.is_zero y then u.zero_word else u.rem_word x y

  abbrev pub run_shl : U → U → Option U
  run_shl x y = if u.lt_words x (u.from_usize 256) then u.shl_word y x else some u.zero_word

  abbrev pub run_shr : U → U → Option U
  run_shr x y = u.shr_word y x

  abbrev pub run_and : U → U → U
  run_and x y = u.and_word x y

  abbrev pub run_or : U → U → U
  run_or x y = u.or_word x y

  abbrev pub run_xor : U → U → U
  run_xor x y = u.xor_word x y

  abbrev pub run_lt : U → U → U
  run_lt x y = word_from_bool (u.lt_words x y)

  abbrev pub run_gt : U → U → U
  run_gt x y = word_from_bool (u.lt_words y x)

  abbrev pub run_eq : U → U → U
  run_eq x y = word_from_bool (u.eq_words x y)

  abbrev pub run_byte : U → U → U
  run_byte x y =
      if u.lt_words x (u.from_usize 32) then u.byte_of y (31 - u.as_usize x) else u.zero_word

  -- What an operation computes, or `none` for a system call.
  unfoldable pub run_binary : BinaryOp → Option (U → U → Option U)
  run_binary op_add = some (λ x y. some (run_add x y))
  run_binary op_sub = some (λ x y. some (run_sub x y))
  run_binary op_mul = some (λ x y. some (run_mul x y))
  run_binary op_div = some (λ x y. some (run_div x y))
  run_binary op_mod = some (λ x y. some (run_mod x y))
  run_binary op_exp = none
  run_binary op_shl = some (λ x y. run_shl x y)
  run_binary op_shr = some (λ x y. run_shr x y)
  run_binary op_and = some (λ x y. some (run_and x y))
  run_binary op_or = some (λ x y. some (run_or x y))
  run_binary op_xor = some (λ x y. some (run_xor x y))
  run_binary op_lt = some (λ x y. some (run_lt x y))
  run_binary op_gt = some (λ x y. some (run_gt x y))
  run_binary op_eq = some (λ x y. some (run_eq x y))
  run_binary op_byte = some (λ x y. some (run_byte x y))

module _ {U M : Type 0} where
  -- What follows: the code behind, or, after a jump, what `jumps` says of its address.
  unfoldable pub and_run :
      (U → List U → M → Effect U M) → Effect U M → (List U → M → Effect U M) → Effect U M
  and_run jumps (next_state s rest) k = k s rest
  and_run jumps (goto x s rest) k = jumps x s rest
  and_run jumps (halt s rest) k = halt s rest
  and_run jumps fail k = fail

module _ {U M : Type 0} (u : U256 U) (m : Machine U M) where
  unfoldable pub pushed : Option U → List U → M → Effect U M
  pushed none s rest = fail
  pushed (some x) s rest = next_state (x ∷ s) rest

  unfoldable pub swapped : Option U → ℕ → U → List U → M → Effect U M
  swapped none n x s rest = fail
  swapped (some y) n x s rest = next_state (y ∷ set s (n - 1) x) rest

  -- The two words that an operation pops.
  unfoldable pub on_two : (U → U → Option U) → List U → M → Effect U M
  on_two f [] rest = fail
  on_two f (x ∷ []) rest = fail
  on_two f (x ∷ y ∷ s) rest = pushed (f x y) s rest

  unfoldable pub computed : Option (U → U → Option U) → BinaryOp → Clock → List U → M → Effect U M
  computed none op t s rest = m.run_other (standard_op (binary op)) t s rest
  computed (some f) op t s rest = on_two f s rest

  unfoldable pub run_op : Op → Clock → List U → M → Effect U M
  run_op (unary op) t [] rest = fail
  run_op (unary op) t (x ∷ s) rest = next_state (run_unary u op x ∷ s) rest
  run_op (binary op) t s rest = computed (run_binary u op) op t s rest
  run_op (swap n) t [] rest = fail
  run_op (swap n) t (x ∷ s) rest = swapped (get_elem? s (n - 1)) n x s rest
  run_op (dup n) t s rest = pushed (get_elem? s (n - 1)) s rest
  run_op pop t [] rest = fail
  run_op pop t (x ∷ s) rest = next_state s rest
  run_op jump t [] rest = fail
  run_op jump t (x ∷ s) rest = goto x s rest
  run_op (other n) t s rest = m.run_other (standard_op (other n)) t s rest

  unfoldable pub run_item : Item U → Clock → List U → M → Effect U M
  run_item (global_label_declaration l) t s rest = next_state s rest
  run_item (local_label_declaration l) t s rest = next_state s rest
  run_item (push (literal x)) t s rest = next_state (x ∷ s) rest
  run_item (push (label l)) t s rest = next_state (m.address l ∷ s) rest
  run_item (prover_input f) t s rest = m.run_other (prover_input f) t s rest
  run_item (standard_op op) t s rest = run_op op t s rest
  run_item (bytes_item bytes) t s rest = m.run_other (bytes_item bytes) t s rest
  run_item (jumptable labels) t s rest = m.run_other (jumptable labels) t s rest

  unfoldable pub run_code :
      (U → List U → M → Effect U M) → List (Item U) → Clock → List U → M → Effect U M
  run_code jumps [] t s rest = next_state s rest
  run_code jumps (item ∷ code) t s rest =
      and_run jumps (run_item item t s rest) (run_code jumps code (m.tick item t))
