-- ===== src/Evm/Windows.antt =====
-- evm/src/cpu/kernel/utils.rs: `replace_windows`. The replacement function returns `none` where it
-- panics, and `some none` where it leaves the window.
pub mod Total
use plonky.Common.{
  ℕ, zero, suc, ◌+◌, ◌-◌, ◌*◌, Bool, Option, none, some, List, ◌++◌, length, take, drop, leb,
  if◌then◌else◌, ◌>>=◌,
}

module _ {A : Type 0} (w : ℕ) (maybe_replace : List A → Option (Option (List A))) where
  -- `vec.splice(range, replacement)`
  unfoldable pub splice : ℕ → List A → List A → List A
  splice start vec replacement = take start vec ++ (replacement ++ drop (start + w) vec)

  -- `saturating_sub` is the subtraction on ℕ.
  unfoldable pub moved : ℕ → List A → Option (List A) → ℕ × List A
  moved start vec none = (start + 1, vec)
  moved start vec (some replacement) = (start - (w - 1), splice start vec replacement)

  -- The body of the loop: the next `start` and `vec`.
  unfoldable pub next : ℕ → List A → Option (ℕ × List A)
  next start vec = do found ← maybe_replace (take w (drop start vec)); some (moved start vec found)

  -- The loop on fuel; `none` means a panic, or that the fuel ran out.
  unfoldable pub replace_loop : ℕ → ℕ → List A → Option (List A)
  replace_loop zero start vec = none
  replace_loop (suc fuel) start vec =
      let round = (do after ← next start vec; replace_loop fuel (after.0) (after.1)) in
      if leb (start + w) (length vec) then round else some vec

  -- Every round moves on or shortens the vector, so this fuel is enough.
  unfoldable pub replace_windows : List A → Option (List A)
  replace_windows vec = replace_loop (suc (w * length vec)) 0 vec
