-- ===== src/Hash/HashTypes.antt =====
-- plonky2/src/hash/hash_types.rs: the conversions of the two types of digests. `none` is a panic.
pub mod HashOut
pub mod BytesHash
use plonky.Common.{
  ℕ, Bool, Option, none, some, List, [], ◌∷◌, ltb, if◌then◌else◌, assert, ◌>>=◌, ◌>>◌,
}
use plonky.Field.Goldilocks.{order}

-- `map(f).collect()`, where `f` may panic.
unfoldable pub collect : (List ℕ → Option ℕ) → List (List ℕ) → Option (List ℕ)
collect f [] = some []
collect f (x ∷ xs) = do y ← f x; ys ← collect f xs; some (y ∷ ys)

unfoldable pub from_canonical_u64 : ℕ → Option ℕ
from_canonical_u64 n = do assert (ltb n order); some n
