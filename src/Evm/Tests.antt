-- ===== src/Evm/Tests.antt =====
-- evm/src/cpu/kernel: small code and one-bit words, and the theorems at them.
use mathlib.Core.Bool.{Bool-discrete}
use plonky.Common.{
  ℕ, ◌+◌, ◌<◌, ◌≡◌, ◌∙◌, inr, refl, sym, ap, subst, arith, Bool, true, false, ◌&&◌, ◌||◌, not,
  Option, none, some, List, [], ◌∷◌, ◌++◌, length, take, drop, ◌≤◌, ◌==◌, if◌then◌else◌,
}
use plonky.Evm.Ast.{
  U256, op_add, binary, jump, literal, label, Item, local_label_declaration, push, standard_op,
}
use plonky.Evm.Interpreter.{
  Effect, next_state, fail, Clock, Machine, pushed, on_two, computed, run_binary, run_op, run_item,
  and_run, run_code,
}
use plonky.Evm.Optimizer.{optimize_asm_once, optimize_asm}
use plonky.Evm.Optimizer.Folding.{U256Laws}
use plonky.Evm.Optimizer.Passes.{optimize_asm-preserves}
use plonky.Evm.Optimizer.Runs.{◌⊑◌, Fits}
use plonky.Evm.Windows.{replace_windows}
use plonky.Evm.Windows.Total.{Shrinks, replace_windows_lem}
use plonky.Common.Options.{eq_of_some}

abbrev xor : Bool → Bool → Bool
xor true y = not y
xor false y = y

-- Words of one bit; numbers past the end are the largest word.
abbrev bit_words : U256 Bool
bit_words = record {
  zero_word = false;
  one_word = true;
  from_usize = λ n. not (n == 0);
  as_usize = λ x. if x then 1 else 0;
  is_zero = not;
  eq_words = λ x y. not (xor x y);
  lt_words = λ x y. not x && y;
  overflowing_add = xor;
  overflowing_sub = xor;
  overflowing_mul = λ x y. x && y;
  overflowing_pow = λ x y. x || not y;
  checked_div = λ x y. if not y then none else some x;
  checked_rem = λ x y. if not y then none else some false;
  div_word = λ x y. x;
  rem_word = λ x y. false;
  shl_word = λ x n. some (if n then false else x);
  shr_word = λ x n. some (if n then false else x);
  and_word = λ x y. x && y;
  or_word = λ x y. x || y;
  xor_word = xor;
  not_word = not;
  byte_of = λ x n. if n == 0 then x else false;
  bits_of = λ x. if x then 1 else 0;
}

and_comm : (x y : Bool) → (x && y) ≡ (y && x)
and_comm true true = refl
and_comm true false = refl
and_comm false true = refl
and_comm false false = refl

or_comm : (x y : Bool) → (x || y) ≡ (y || x)
or_comm true true = refl
or_comm true false = refl
or_comm false true = refl
or_comm false false = refl

xor_comm : (x y : Bool) → xor x y ≡ xor y x
xor_comm true true = refl
xor_comm true false = refl
xor_comm false true = refl
xor_comm false false = refl

xor-eq : (x y : Bool) → not (xor x y) ≡ true → x ≡ y
xor-eq true true e = refl
xor-eq true false e = cc
xor-eq false true e = cc
xor-eq false false e = refl

bit_words-U256Laws : U256Laws bit_words
bit_words-U256Laws = record {
  eq_words_sound = xor-eq;
  eq_words_sym = λ x y. ap not (xor_comm x y);
  add_comm = xor_comm;
  mul_comm = and_comm;
  and_comm = and_comm;
  or_comm = or_comm;
  xor_comm = xor_comm;
  zero_add = λ x. refl;
  one_mul = λ x. refl;
  zero_or = λ x. refl;
  zero_xor = λ x. refl;
  checked_div_by = λ x y. refl;
  checked_rem_by = λ x y. refl;
}

abbrev machine : Machine Bool Bool
machine = record {
  address = λ l. true;
  tick = λ item t. (t.0 + 1, t.1 + 2);
  run_other = λ item t s rest. fail;
}

-- A jump to what follows, and a sum of constants.
abbrev code : List (Item Bool)
code =
    push (label 4)
    ∷ standard_op jump
    ∷ local_label_declaration 4
    ∷ push (literal true)
    ∷ push (literal false)
    ∷ standard_op (binary op_add)
    ∷ []

abbrev jumps : Bool → List Bool → Bool → Effect Bool Bool
jumps x s rest = next_state (true ∷ s) rest

code-Fits : Fits bit_words machine jumps code
unfolding run_code and_run run_item run_op run_binary computed on_two pushed
code-Fits = (tt, (tt, ((λ t s rest. inr refl), (tt, (tt, (refl, tt))))))

optimize_asm-preserves_example :
    (code' : List (Item Bool)) × (optimize_asm bit_words Bool-discrete code ≡ some code')
    × Fits bit_words machine jumps code'
    × ((t : Clock) (s : List Bool) (rest : Bool)
        → run_code bit_words machine jumps code t s rest
          ⊑ run_code bit_words machine jumps code' t s rest)
    × (optimize_asm_once bit_words code' ≡ some code')
optimize_asm-preserves_example =
    optimize_asm-preserves bit_words machine jumps bit_words-U256Laws Bool-discrete code code-Fits

-- The test of the source: every pair of numbers is replaced by its sum.
abbrev add_pair : List ℕ → Option (Option (List ℕ))
add_pair (x ∷ y ∷ []) = some (some ((x + y) ∷ []))
add_pair _ = some none

abbrev total : List ℕ → ℕ
total [] = 0
total (x ∷ xs) = x + total xs

total-append : (xs ys : List ℕ) → total (xs ++ ys) ≡ total xs + total ys
total-append [] ys = omega arith
total-append (x ∷ xs) ys = omega (arith, total-append xs ys)

total-replaced :
    (front window replacement back : List ℕ)
    → add_pair window ≡ some (some replacement)
    → total (front ++ (window ++ back)) ≡ total (front ++ (replacement ++ back))
total-replaced front [] r back e = absurd cc
total-replaced front (x ∷ []) r back e = absurd cc
total-replaced front (x ∷ y ∷ []) r back e =
    total-append front (x ∷ y ∷ back)
    ∙ ap (λ n. total front + n) (sums x y)
    ∙ sym (total-append front ((x + y) ∷ back))
    ∙ ap (λ r. total (front ++ (r ++ back))) (eq_of_some (eq_of_some e))
  where
    sums : (a b : ℕ) → total (a ∷ b ∷ back) ≡ total ((a + b) ∷ back)
    sums a b = omega arith
total-replaced front (x ∷ y ∷ z ∷ zs) r back e = absurd cc

add_pair-shorter :
    (window replacement : List ℕ)
    → length window ≡ 2
    → add_pair window ≡ some (some replacement)
    → length replacement < 2
add_pair-shorter [] r size e = absurd cc
add_pair-shorter (x ∷ []) r size e = absurd cc
add_pair-shorter (x ∷ y ∷ []) r size e =
    subst (λ r. length r < 2) (eq_of_some (eq_of_some e)) (omega arith)
add_pair-shorter (x ∷ y ∷ z ∷ zs) r size e = absurd cc

add_pair-total : (window : List ℕ) → (found : Option (List ℕ)) × (add_pair window ≡ some found)
add_pair-total [] = (none, refl)
add_pair-total (x ∷ []) = (none, refl)
add_pair-total (x ∷ y ∷ []) = (some ((x + y) ∷ []), refl)
add_pair-total (x ∷ y ∷ z ∷ zs) = (none, refl)

-- Every vector will do.
abbrev Any : List ℕ → Type 0
Any vec = Unit

replace_windows_lem_example :
    (vec' : List ℕ) × (replace_windows 2 add_pair (1 ∷ 2 ∷ 3 ∷ 4 ∷ 5 ∷ []) ≡ some vec')
    × Shrinks 2 add_pair Any (λ xs ys. total xs ≡ total ys) (1 ∷ 2 ∷ 3 ∷ 4 ∷ 5 ∷ []) vec'
    × Any vec'
    × ((i : ℕ) → i + 2 ≤ length vec' → add_pair (take 2 (drop i vec')) ≡ some none)
replace_windows_lem_example =
    replace_windows_lem 2 add_pair Any (λ xs ys. total xs ≡ total ys)
      (record {
        positive = omega arith;
        total = λ front window back good. add_pair-total window;
        keeps = λ xs ys r good. tt;
        shorter = add_pair-shorter;
        related = total-replaced;
        R-refl = λ xs. refl;
        R-trans = λ xs ys zs p q. p ∙ q;
      })
      (1 ∷ 2 ∷ 3 ∷ 4 ∷ 5 ∷ []) tt
