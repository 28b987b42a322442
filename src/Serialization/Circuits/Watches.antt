-- ===== src/Serialization/Circuits/Watches.antt =====
-- plonky2/src/util/serialization/mod.rs: the map from representatives to generator indices is read as
-- it was written, since its entries are written in the order of their keys.
use plonky.Common.{
  ℕ, ◌<◌, ◌≡◌, refl, sym, subst, arith, some, List, [], ◌∷◌, ◌++◌, length, All, append_assoc,
  append_nil,
}
use plonky.Serialization.{ret, write_each}
use plonky.Serialization.Encodes.{Encodes, Encodes-bind, Encodes-assoc, Encodes-ret}
use plonky.Serialization.Words.{Encodes-usize, Encodes-usize_vec, IsUsize, IsVec}
use plonky.Serialization.Circuits.{insert, read_watches, write_watch}

module _ {A : Type 0} where
  -- Every key of `entries` is below `k`.
  abbrev pub IsBelow : List (ℕ × A) → ℕ → Type 0
  IsBelow entries k = All (λ e. e.0 < k) entries

  abbrev pub IsAscending : List (ℕ × A) → Type 0
  IsAscending [] = Unit
  IsAscending ((k, v) ∷ entries) = All (λ e. k < e.0) entries × IsAscending entries

  pub insert-last :
      (entries : List (ℕ × A)) (k : ℕ) (v : A)
      → IsBelow entries k
      → insert k v entries ≡ entries ++ ((k, v) ∷ [])
  unfolding insert
  insert-last [] k v h = refl
  insert-last ((k', v') ∷ entries) k v (hk, h) = ground (arith, insert-last entries k v h)

  IsBelow-last :
      (entries : List (ℕ × A)) (k k' : ℕ) (v : A)
      → IsBelow entries k'
      → k < k'
      → IsBelow (entries ++ ((k, v) ∷ [])) k'
  IsBelow-last [] k k' v h hk = (hk, tt)
  IsBelow-last (e ∷ entries) k k' v (he, h) hk = (he, IsBelow-last entries k k' v h hk)

  -- The keys of `entries` are below those of `later`.
  abbrev pub IsBefore : List (ℕ × A) → List (ℕ × A) → Type 0
  IsBefore entries later = All (λ e. IsBelow entries (e.0)) later

  pub IsBefore-last :
      (entries later : List (ℕ × A)) (k : ℕ) (v : A)
      → IsBefore entries later
      → All (λ e. k < e.0) later
      → IsBefore (entries ++ ((k, v) ∷ [])) later
  IsBefore-last entries [] k v h hk = tt
  IsBefore-last entries ((k', v') ∷ later) k v (h, hs) (hk, hks) =
      (IsBelow-last entries k k' v h hk, IsBefore-last entries later k v hs hks)

  pub IsBefore-nil : (later : List (ℕ × A)) → IsBefore [] later
  IsBefore-nil [] = tt
  IsBefore-nil (e ∷ later) = (tt, IsBefore-nil later)

abbrev pub IsWatch : ℕ × List ℕ → Type 0
IsWatch (k, v) = IsUsize k × IsVec IsUsize v

Encodes-watches_from :
    (entries later : List (ℕ × List ℕ))
    → IsBefore entries later
    → IsAscending later
    → All IsWatch later
    → Encodes
        (read_watches (length later) entries)
        (entries ++ later)
        (write_each write_watch later)
unfolding read_watches write_each write_watch
Encodes-watches_from entries [] hb ha hw =
    subst (λ r. Encodes (ret entries) r (some [])) (sym (append_nil entries)) Encodes-ret
Encodes-watches_from entries ((k, v) ∷ later) (hb, hbs) (ha, has) ((hk, hv), hws) =
    let next = entries ++ ((k, v) ∷ []) in
    let rest = Encodes-watches_from next later (IsBefore-last entries later k v hbs ha) has hws in
    let whole =
      subst (λ r. Encodes (read_watches (length later) next) r (write_each write_watch later))
        (append_assoc entries ((k, v) ∷ []) later) rest in
    let filled =
      subst
        (λ m.
          Encodes (read_watches (length later) m) (entries ++ ((k, v) ∷ later))
            (write_each write_watch later))
        (sym (insert-last entries k v hb)) whole in
    Encodes-assoc _ _ _
      (Encodes-bind _ (Encodes-usize hk) (Encodes-bind _ (Encodes-usize_vec v hv) filled))

pub Encodes-watches :
    (entries : List (ℕ × List ℕ))
    → IsAscending entries
    → All IsWatch entries
    → Encodes (read_watches (length entries) []) entries (write_each write_watch entries)
Encodes-watches entries ha hw = Encodes-watches_from [] entries (IsBefore-nil entries) ha hw
