-- ===== src/Evm/Optimizer/Runs.antt =====
-- evm/src/cpu/kernel/optimizer.rs: what it means that code may take the place of other code.
use mathlib.Core.Path.{fun_ext}
use plonky.Common.{
  ◌≡◌, ◌⊎◌, inl, inr, refl, ap, ap₂, ◌∙◌, Bool, true, false, Option, none, some, List, [], ◌∷◌,
  ◌++◌,
}
use plonky.Evm.Ast.{
  U256, BinaryOp, op_add, op_sub, op_mul, op_div, op_mod, op_exp, op_shl, op_shr, op_and, op_or,
  op_xor, op_lt, op_gt, op_eq, op_byte, Op, unary, binary, swap, dup, pop, jump, other, literal,
  label, Item, global_label_declaration, local_label_declaration, push, prover_input, standard_op,
  bytes_item, jumptable,
}
use plonky.Evm.Interpreter.{
  Effect, next_state, goto, halt, fail, Clock, Machine, pushed, run_binary, computed, run_op,
  run_item, and_run, run_code,
}

-- The second effect is the first, unless the first is a failure.
infix 20 ◌⊑◌
abbrev pub ◌⊑◌ : {U M : Type 0} → Effect U M → Effect U M → Type 0
a ⊑ b = (a ≡ fail) ⊎ (a ≡ b)

module _ {U M : Type 0} where
  pub ⊑-trans : {a b c : Effect U M} → a ⊑ b → b ⊑ c → a ⊑ c
  ⊑-trans (inl e) h = inl e
  ⊑-trans (inr e) (inl e') = inl (e ∙ e')
  ⊑-trans (inr e) (inr e') = inr (e ∙ e')

  pub and_run_mono :
      (jumps : U → List U → M → Effect U M) (e : Effect U M) {k k' : List U → M → Effect U M}
      → ((s : List U) (rest : M) → k s rest ⊑ k' s rest)
      → and_run jumps e k ⊑ and_run jumps e k'
  unfolding and_run
  and_run_mono jumps (next_state s rest) h = h s rest
  and_run_mono jumps (goto x s rest) h = inr refl
  and_run_mono jumps (halt s rest) h = inr refl
  and_run_mono jumps fail h = inr refl

-- Operations that the theorem leaves out: `BYTE`, whose folding counts the bytes from the other end
-- than the interpreter, `EXP`, which is a system call, and shifts, whose folding may panic.
abbrev pub is_excluded : BinaryOp → Bool
is_excluded op_byte = true
is_excluded op_exp = true
is_excluded op_shl = true
is_excluded op_shr = true
is_excluded _ = false

module _ {U M : Type 0} (u : U256 U) (m : Machine U M) (jumps : U → List U → M → Effect U M) where
  -- An operation that does not read the program counter nor the gas.
  abbrev pub Ignores : Item U → Type 0
  Ignores item =
      (t t' : Clock) (s : List U) (rest : M)
      → m.run_other item t s rest ≡ m.run_other item t' s rest

  abbrev pub FitsOp : Op → Type 0
  FitsOp (unary op) = Unit
  FitsOp (binary op) = is_excluded op ≡ false
  FitsOp (swap n) = Unit
  FitsOp (dup n) = Unit
  FitsOp pop = Unit
  FitsOp jump = Unit
  FitsOp (other n) = Ignores (standard_op (other n))

  -- A jump to the address of a label continues behind it, and an operation is neither excluded nor
  -- does it read the clock.
  abbrev pub FitsItem : Item U → List (Item U) → Type 0
  FitsItem (global_label_declaration l) code =
      (t : Clock) (s : List U) (rest : M)
      → jumps (m.address l) s rest ⊑ run_code u m jumps code t s rest
  FitsItem (local_label_declaration l) code =
      (t : Clock) (s : List U) (rest : M)
      → jumps (m.address l) s rest ⊑ run_code u m jumps code t s rest
  FitsItem (push x) code = Unit
  FitsItem (prover_input f) code = Ignores (prover_input f)
  FitsItem (standard_op op) code = FitsOp op
  FitsItem (bytes_item bytes) code = Ignores (bytes_item bytes)
  FitsItem (jumptable labels) code = Ignores (jumptable labels)

  abbrev pub Fits : List (Item U) → Type 0
  Fits [] = Unit
  Fits (item ∷ code) = FitsItem item code × Fits code

  -- The new code fits where the old one did, and every run of the old one that does not fail ends in
  -- the same way in the new one.
  abbrev pub Improves : List (Item U) → List (Item U) → Type 0
  Improves a b =
      Fits a
      → Fits b
        × ((t : Clock) (s : List U) (rest : M)
            → run_code u m jumps a t s rest ⊑ run_code u m jumps b t s rest)

  pub Improves-refl : (a : List (Item U)) → Improves a a
  Improves-refl a h = (h, λ t s rest. inr refl)

  pub Improves-trans : (a b c : List (Item U)) → Improves a b → Improves b c → Improves a c
  Improves-trans a b c f g h =
      let (h', r) = f h in
      let (h'', r') = g h' in (h'', λ t s rest. ⊑-trans (r t s rest) (r' t s rest))

  FitsItem-mono :
      (item : Item U) (a b : List (Item U))
      → ((t : Clock) (s : List U) (rest : M)
          → run_code u m jumps a t s rest ⊑ run_code u m jumps b t s rest)
      → FitsItem item a
      → FitsItem item b
  FitsItem-mono (global_label_declaration l) a b r h = λ t s rest. ⊑-trans (h t s rest) (r t s rest)
  FitsItem-mono (local_label_declaration l) a b r h = λ t s rest. ⊑-trans (h t s rest) (r t s rest)
  FitsItem-mono (push x) a b r h = h
  FitsItem-mono (prover_input f) a b r h = h
  FitsItem-mono (standard_op op) a b r h = h
  FitsItem-mono (bytes_item bytes) a b r h = h
  FitsItem-mono (jumptable labels) a b r h = h

  Improves-cons :
      (item : Item U) (a b : List (Item U)) → Improves a b → Improves (item ∷ a) (item ∷ b)
  unfolding run_code
  Improves-cons item a b f (hi, ha) =
      let (hb, r) = f ha in
      (
        (FitsItem-mono item a b r hi, hb),
        λ t s rest. and_run_mono jumps (run_item u m item t s rest) (r (m.tick item t)),
      )

  run_binary-clock :
      (f : BinaryOp) (t t' : Clock) (s : List U) (rest : M)
      → is_excluded f ≡ false
      → computed u m (run_binary u f) f t s rest ≡ computed u m (run_binary u f) f t' s rest
  unfolding computed run_binary
  run_binary-clock op_add t t' s rest h = refl
  run_binary-clock op_sub t t' s rest h = refl
  run_binary-clock op_mul t t' s rest h = refl
  run_binary-clock op_div t t' s rest h = refl
  run_binary-clock op_mod t t' s rest h = refl
  run_binary-clock op_exp t t' s rest h = absurd cc
  run_binary-clock op_shl t t' s rest h = refl
  run_binary-clock op_shr t t' s rest h = refl
  run_binary-clock op_and t t' s rest h = refl
  run_binary-clock op_or t t' s rest h = refl
  run_binary-clock op_xor t t' s rest h = refl
  run_binary-clock op_lt t t' s rest h = refl
  run_binary-clock op_gt t t' s rest h = refl
  run_binary-clock op_eq t t' s rest h = refl
  run_binary-clock op_byte t t' s rest h = refl

  run_op-clock :
      (op : Op) (t t' : Clock) (s : List U) (rest : M)
      → FitsOp op
      → run_op u m op t s rest ≡ run_op u m op t' s rest
  unfolding run_op
  run_op-clock (unary f) t t' [] rest h = refl
  run_op-clock (unary f) t t' (x ∷ s) rest h = refl
  run_op-clock (binary f) t t' s rest h = run_binary-clock f t t' s rest h
  run_op-clock (swap n) t t' [] rest h = refl
  run_op-clock (swap n) t t' (x ∷ s) rest h = refl
  run_op-clock (dup n) t t' s rest h = refl
  run_op-clock pop t t' [] rest h = refl
  run_op-clock pop t t' (x ∷ s) rest h = refl
  run_op-clock jump t t' [] rest h = refl
  run_op-clock jump t t' (x ∷ s) rest h = refl
  run_op-clock (other n) t t' s rest h = h t t' s rest

  run_item-clock :
      (item : Item U) (code : List (Item U)) (t t' : Clock) (s : List U) (rest : M)
      → FitsItem item code
      → run_item u m item t s rest ≡ run_item u m item t' s rest
  unfolding run_item
  run_item-clock (global_label_declaration l) code t t' s rest h = refl
  run_item-clock (local_label_declaration l) code t t' s rest h = refl
  run_item-clock (push (literal x)) code t t' s rest h = refl
  run_item-clock (push (label l)) code t t' s rest h = refl
  run_item-clock (prover_input f) code t t' s rest h = h t t' s rest
  run_item-clock (standard_op op) code t t' s rest h = run_op-clock op t t' s rest h
  run_item-clock (bytes_item bytes) code t t' s rest h = h t t' s rest
  run_item-clock (jumptable labels) code t t' s rest h = h t t' s rest

  -- Code that fits runs alike from every program counter and gas.
  pub run_code-clock :
      (code : List (Item U)) (t t' : Clock) (s : List U) (rest : M)
      → Fits code
      → run_code u m jumps code t s rest ≡ run_code u m jumps code t' s rest
  unfolding run_code
  run_code-clock [] t t' s rest h = refl
  run_code-clock (item ∷ code) t t' s rest (hi, h) =
      ap₂ (and_run jumps) (run_item-clock item code t t' s rest hi) (
        fun_ext (λ s'.
          fun_ext (λ rest'. run_code-clock code (m.tick item t) (m.tick item t') s' rest' h)))

  pub and_run-clock :
      (o : Option U) (t t' : Clock) (code : List (Item U)) (s : List U) (rest : M)
      → Fits code
      → and_run jumps (pushed u m o s rest) (run_code u m jumps code t)
        ≡ and_run jumps (pushed u m o s rest) (run_code u m jumps code t')
  unfolding and_run pushed
  and_run-clock none t t' code s rest h = refl
  and_run-clock (some x) t t' code s rest h = run_code-clock code t t' (x ∷ s) rest h

  -- The same, where what is computed is equal.
  pub run_from :
      (code : List (Item U)) (t t' : Clock) (v w : U) (s : List U) (rest : M)
      → Fits code
      → v ≡ w
      → run_code u m jumps code t (v ∷ s) rest ⊑ run_code u m jumps code t' (w ∷ s) rest
  run_from code t t' v w s rest h e =
      inr (
        ap (λ x. run_code u m jumps code t (x ∷ s) rest) e
        ∙ run_code-clock code t t' (w ∷ s) rest h)

  pub Fits-back : (front code : List (Item U)) → Fits (front ++ code) → Fits code
  Fits-back [] code h = h
  Fits-back (item ∷ front) code (hi, h) = Fits-back front code h

  pub Improves-front :
      (front a b : List (Item U)) → Improves a b → Improves (front ++ a) (front ++ b)
  Improves-front [] a b f = f
  Improves-front (item ∷ front) a b f =
      Improves-cons item (front ++ a) (front ++ b) (Improves-front front a b f)
