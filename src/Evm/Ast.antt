-- ===== src/Evm/Ast.antt =====
-- evm/src/cpu/kernel/ast.rs: the items of code whose macros, repetitions and stack manipulations are
-- expanded, as the optimizer gets it. The words `U` of the machine are those of `ethereum_types`; a
-- label's name is a number.
use native.Mathlib.Decide.{ℕ_discrete}
use plonky.Common.{ℕ, Bool, Option, List}

-- The operations of `U256` that are used. Shifts by a word panic where it is not a `usize`.
pub record U256 (U : Type 0) : Type 0 where
  pub zero_word : U
  pub one_word : U
  pub from_usize : ℕ → U
  pub as_usize : U → ℕ
  pub is_zero : U → Bool
  pub eq_words : U → U → Bool
  pub lt_words : U → U → Bool
  pub overflowing_add : U → U → U
  pub overflowing_sub : U → U → U
  pub overflowing_mul : U → U → U
  pub overflowing_pow : U → U → U
  pub checked_div : U → U → Option U
  pub checked_rem : U → U → Option U
  pub div_word : U → U → U
  pub rem_word : U → U → U
  pub shl_word : U → U → Option U
  pub shr_word : U → U → Option U
  pub and_word : U → U → U
  pub or_word : U → U → U
  pub xor_word : U → U → U
  pub not_word : U → U
  pub byte_of : U → ℕ → U
  pub bits_of : U → ℕ

pub data UnaryOp : Type 0 where
  op_iszero : UnaryOp
  op_not : UnaryOp

pub data BinaryOp : Type 0 where
  op_add : BinaryOp
  op_sub : BinaryOp
  op_mul : BinaryOp
  op_div : BinaryOp
  op_mod : BinaryOp
  op_exp : BinaryOp
  op_shl : BinaryOp
  op_shr : BinaryOp
  op_and : BinaryOp
  op_or : BinaryOp
  op_xor : BinaryOp
  op_lt : BinaryOp
  op_gt : BinaryOp
  op_eq : BinaryOp
  op_byte : BinaryOp

-- An operation's name: those that the optimizer knows, and the others by their number.
pub data Op : Type 0 where
  unary : UnaryOp → Op
  binary : BinaryOp → Op
  swap : ℕ → Op
  dup : ℕ → Op
  pop : Op
  jump : Op
  other : ℕ → Op

pub data PushTarget (U : Type 0) : Type 0 where
  literal : U → PushTarget U
  label : ℕ → PushTarget U

pub data Item (U : Type 0) : Type 0 where
  global_label_declaration : ℕ → Item U
  local_label_declaration : ℕ → Item U
  push : PushTarget U → Item U
  prover_input : ℕ → Item U
  standard_op : Op → Item U
  bytes_item : List ℕ → Item U
  jumptable : List ℕ → Item U

pub UnaryOp-discrete : Discrete UnaryOp
UnaryOp-discrete = hlevel

pub BinaryOp-discrete : Discrete BinaryOp
BinaryOp-discrete = hlevel

pub Op-discrete : Discrete Op
Op-discrete = hlevel (UnaryOp-discrete, BinaryOp-discrete, ℕ_discrete)

module _ {U : Type 0} (same_word : Discrete U) where
  pub PushTarget-discrete : Discrete (PushTarget U)
  PushTarget-discrete = hlevel (same_word, ℕ_discrete)

  -- `==` on items and on code.
  pub Item-discrete : Discrete (Item U)
  Item-discrete = hlevel (PushTarget-discrete, Op-discrete, ℕ_discrete)
