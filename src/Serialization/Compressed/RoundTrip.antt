-- ===== src/Serialization/Compressed/RoundTrip.antt =====
-- plonky2/src/util/serialization/mod.rs: compressed proofs are read as they were written.
use plonky.Common.{
  ℕ, ◌≡◌, sym, ap, subst, ◌∙◌, Option, List, [], ◌∷◌, ◌++◌, map, All, append_assoc, append_nil,
}
use plonky.Serialization.{Reader, write_each}
use plonky.Serialization.Circuits.Watches.{
  IsAscending, IsBefore, insert-last, IsBefore-last, IsBefore-nil,
}
use plonky.Serialization.Compressed.{from_iter, read_pairs, read_map, write_map}
use plonky.Serialization.Encodes.{Encodes, Encodes-bind, Encodes-map, Encodes-ret}

module _ {A : Type 0} where
  from_iter-ascending :
      (entries later : List (ℕ × A))
      → IsBefore entries later
      → IsAscending later
      → from_iter entries later ≡ entries ++ later
  unfolding from_iter
  from_iter-ascending entries [] hb ha = sym (append_nil entries)
  from_iter-ascending entries ((k, v) ∷ later) (hb, hbs) (ha, has) =
      ap (λ m. from_iter m later) (insert-last entries k v hb)
      ∙ from_iter-ascending (entries ++ ((k, v) ∷ [])) later
          (IsBefore-last entries later k v hbs ha) has
      ∙ append_assoc entries ((k, v) ∷ []) later

  module _ {read : Reader A} {write : A → Option (List ℕ)} where
    Encodes-pairs :
        (P : A → Type 0)
        → ((x : A) → P x → Encodes read x (write x))
        → (entries : List (ℕ × A)) → All (λ e. P (e.1)) entries
        → Encodes (read_pairs read (map (λ e. e.0) entries)) entries (write_map write entries)
    unfolding read_pairs write_map write_each
    Encodes-pairs P each [] h = Encodes-ret
    Encodes-pairs P each ((k, v) ∷ entries) (hv, h) =
        Encodes-bind _ (each v hv) (Encodes-map _ (Encodes-pairs P each entries h))

    -- A map with the given keys.
    pub Encodes-entries :
        (P : A → Type 0)
        → ((x : A) → P x → Encodes read x (write x))
        → (keys : List ℕ) (entries : List (ℕ × A)) → map (λ e. e.0) entries ≡ keys
        → IsAscending entries
        → All (λ e. P (e.1)) entries
        → Encodes (read_map read keys) entries (write_map write entries)
    unfolding read_map
    Encodes-entries P each keys entries ek ha h =
        subst (λ ks. Encodes (read_map read ks) entries (write_map write entries)) ek
          (subst (λ m. Encodes (read_map read (map (λ e. e.0) entries)) m (write_map write entries))
            (from_iter-ascending [] entries (IsBefore-nil entries) ha)
            (Encodes-map (from_iter []) (Encodes-pairs P each entries h)))
