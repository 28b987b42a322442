-- ===== src/Evm/Optimizer/Patterns.antt =====
-- evm/src/cpu/kernel/optimizer.rs: what it means that an item or an operation matches a pattern.
use plonky.Common.{ℕ, ◌≡◌, ◌⊎◌, inl, inr, refl, ap, Bool, true, false, some, ==_iff, ◌==◌, assert}
use plonky.Evm.Ast.{
  UnaryOp, BinaryOp, Op, unary, binary, swap, dup, pop, jump, other, PushTarget, literal, label,
  Item, global_label_declaration, local_label_declaration, push, prover_input, standard_op,
  bytes_item, jumptable,
}
use plonky.Evm.Optimizer.{
  pushed_literal, pushed_label, pushed_target, operation, unary_of, binary_of, is_jump, is_swap1,
  is_pop, is_commutative, is_push_or_dup, is_declaration_of, commutes,
}

module _ {U : Type 0} where
  pub pushed_literal-some : (a : Item U) (x : U) → pushed_literal a ≡ some x → a ≡ push (literal x)
  unfolding pushed_literal
  pushed_literal-some (global_label_declaration l) x e = cc
  pushed_literal-some (local_label_declaration l) x e = cc
  pushed_literal-some (push (literal y)) x e = cc
  pushed_literal-some (push (label l)) x e = cc
  pushed_literal-some (prover_input f) x e = cc
  pushed_literal-some (standard_op op) x e = cc
  pushed_literal-some (bytes_item bs) x e = cc
  pushed_literal-some (jumptable ls) x e = cc

  pub pushed_label-some : (a : Item U) (l : ℕ) → pushed_label a ≡ some l → a ≡ push (label l)
  unfolding pushed_label
  pushed_label-some (global_label_declaration l') l e = cc
  pushed_label-some (local_label_declaration l') l e = cc
  pushed_label-some (push (literal y)) l e = cc
  pushed_label-some (push (label l')) l e = cc
  pushed_label-some (prover_input f) l e = cc
  pushed_label-some (standard_op op) l e = cc
  pushed_label-some (bytes_item bs) l e = cc
  pushed_label-some (jumptable ls) l e = cc

  pub pushed_target-some : (a : Item U) (x : PushTarget U) → pushed_target a ≡ some x → a ≡ push x
  unfolding pushed_target
  pushed_target-some (global_label_declaration l) x e = cc
  pushed_target-some (local_label_declaration l) x e = cc
  pushed_target-some (push y) x e = cc
  pushed_target-some (prover_input f) x e = cc
  pushed_target-some (standard_op op) x e = cc
  pushed_target-some (bytes_item bs) x e = cc
  pushed_target-some (jumptable ls) x e = cc

  pub operation-some : (a : Item U) (op : Op) → operation a ≡ some op → a ≡ standard_op op
  unfolding operation
  operation-some (global_label_declaration l) op e = cc
  operation-some (local_label_declaration l) op e = cc
  operation-some (push y) op e = cc
  operation-some (prover_input f) op e = cc
  operation-some (standard_op op') op e = cc
  operation-some (bytes_item bs) op e = cc
  operation-some (jumptable ls) op e = cc

pub unary_of-some : (op : Op) (f : UnaryOp) → unary_of op ≡ some f → op ≡ unary f
unfolding unary_of
unary_of-some (unary g) f e = cc
unary_of-some (binary g) f e = cc
unary_of-some (swap n) f e = cc
unary_of-some (dup n) f e = cc
unary_of-some pop f e = cc
unary_of-some jump f e = cc
unary_of-some (other n) f e = cc

pub binary_of-some : (op : Op) (f : BinaryOp) → binary_of op ≡ some f → op ≡ binary f
unfolding binary_of
binary_of-some (unary g) f e = cc
binary_of-some (binary g) f e = cc
binary_of-some (swap n) f e = cc
binary_of-some (dup n) f e = cc
binary_of-some pop f e = cc
binary_of-some jump f e = cc
binary_of-some (other n) f e = cc

pub assert-some : (b : Bool) (t : Unit {0}) → assert b ≡ some t → b ≡ true
assert-some true t e = refl
assert-some false t e = cc

pub is_jump-some : (op : Op) (t : Unit {0}) → is_jump op ≡ some t → op ≡ jump
unfolding is_jump
is_jump-some (unary g) t e = cc
is_jump-some (binary g) t e = cc
is_jump-some (swap n) t e = cc
is_jump-some (dup n) t e = cc
is_jump-some pop t e = cc
is_jump-some jump t e = refl
is_jump-some (other n) t e = cc

pub is_pop-some : (op : Op) (t : Unit {0}) → is_pop op ≡ some t → op ≡ pop
unfolding is_pop
is_pop-some (unary g) t e = cc
is_pop-some (binary g) t e = cc
is_pop-some (swap n) t e = cc
is_pop-some (dup n) t e = cc
is_pop-some pop t e = refl
is_pop-some jump t e = cc
is_pop-some (other n) t e = cc

pub is_swap1-some : (op : Op) (t : Unit {0}) → is_swap1 op ≡ some t → op ≡ swap 1
unfolding is_swap1
is_swap1-some (unary g) t e = cc
is_swap1-some (binary g) t e = cc
is_swap1-some (swap n) t e = ap swap ((==_iff n 1).0 (assert-some (n == 1) t e))
is_swap1-some (dup n) t e = cc
is_swap1-some pop t e = cc
is_swap1-some jump t e = cc
is_swap1-some (other n) t e = cc

pub is_commutative-some :
    (op : Op) (t : Unit {0})
    → is_commutative op ≡ some t
    → (f : BinaryOp) × (op ≡ binary f) × (commutes f ≡ true)
unfolding is_commutative
is_commutative-some (unary g) t e = absurd cc
is_commutative-some (binary g) t e = (g, refl, assert-some (commutes g) t e)
is_commutative-some (swap n) t e = absurd cc
is_commutative-some (dup n) t e = absurd cc
is_commutative-some pop t e = absurd cc
is_commutative-some jump t e = absurd cc
is_commutative-some (other n) t e = absurd cc

module _ {U : Type 0} where
  pub is_push_or_dup-some :
      (a : Item U) (t : Unit {0})
      → is_push_or_dup a ≡ some t
      → ((x : PushTarget U) × (a ≡ push x)) ⊎ ((n : ℕ) × (a ≡ standard_op (dup n)))
  unfolding is_push_or_dup
  is_push_or_dup-some (global_label_declaration l) t e = absurd cc
  is_push_or_dup-some (local_label_declaration l) t e = absurd cc
  is_push_or_dup-some (push x) t e = inl (x, refl)
  is_push_or_dup-some (prover_input f) t e = absurd cc
  is_push_or_dup-some (standard_op (unary g)) t e = absurd cc
  is_push_or_dup-some (standard_op (binary g)) t e = absurd cc
  is_push_or_dup-some (standard_op (swap n)) t e = absurd cc
  is_push_or_dup-some (standard_op (dup n)) t e = inr (n, refl)
  is_push_or_dup-some (standard_op pop) t e = absurd cc
  is_push_or_dup-some (standard_op jump) t e = absurd cc
  is_push_or_dup-some (standard_op (other n)) t e = absurd cc
  is_push_or_dup-some (bytes_item bs) t e = absurd cc
  is_push_or_dup-some (jumptable ls) t e = absurd cc

  pub is_declaration_of-true :
      (l : ℕ) (a : Item U)
      → is_declaration_of l a ≡ true
      → (a ≡ local_label_declaration l) ⊎ (a ≡ global_label_declaration l)
  unfolding is_declaration_of
  is_declaration_of-true l (global_label_declaration l') e =
      inr (ap global_label_declaration ((==_iff l' l).0 e))
  is_declaration_of-true l (local_label_declaration l') e =
      inl (ap local_label_declaration ((==_iff l' l).0 e))
  is_declaration_of-true l (push x) e = absurd cc
  is_declaration_of-true l (prover_input f) e = absurd cc
  is_declaration_of-true l (standard_op op) e = absurd cc
  is_declaration_of-true l (bytes_item bs) e = absurd cc
  is_declaration_of-true l (jumptable ls) e = absurd cc
