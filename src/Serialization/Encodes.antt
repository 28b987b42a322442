-- ===== src/Serialization/Encodes.antt =====
-- plonky2/src/util/serialization/mod.rs: what it means that a reader reads what was written, and how
-- that composes.
use plonky.Common.{
  ℕ, ◌≡◌, ◌⊎◌, inl, inr, refl, sym, ap, ap₂, subst, ◌∙◌, arith, Option, none, some, List, [], ◌∷◌,
  ◌++◌, length, append_assoc, length-append,
}
use plonky.Common.Options.{eq_of_some}
use plonky.Common.Slices.{take-append, drop-append}
use plonky.Serialization.{
  ok, io_error, Reader, and_then, ◌>>=◌, ret, ◌⊕◌, read_exact, read_n, write_each,
}

-- The writer succeeds; the reader returns the value from its bytes, whatever follows, and fails with
-- an input error on every proper prefix of them.
pub record Encodes {A : Type 0} (read : Reader A) (a : A) (write : Option (List ℕ)) : Type 0 where
  pub bytes : List ℕ
  pub writes : write ≡ some bytes
  pub reads : (rest : List ℕ) → read (bytes ++ rest) ≡ ok (a, rest)
  pub truncated :
      (front back : List ℕ) (x : ℕ) → bytes ≡ front ++ (x ∷ back) → read front ≡ io_error

-- A proper prefix of two parts ends in the first or in the second.
split_prefix :
    {A : Type 0} (xs ys front back : List A) (x : A)
    → xs ++ ys ≡ front ++ (x ∷ back)
    → ((y : A) × (rest : List A) × (xs ≡ front ++ (y ∷ rest)))
      ⊎ ((front' : List A) × (front ≡ xs ++ front') × (ys ≡ front' ++ (x ∷ back)))
split_prefix [] ys front back x e = inr (front, refl, e)
split_prefix (z ∷ xs) ys [] back x e = inl (z, xs, refl)
split_prefix {A} (z ∷ xs) ys (w ∷ front) back x e =
    elim (split_prefix xs ys front back x (tail_eq e)) [
      | inl (y, rest, e') ↦ inl (y, rest, ap₂ ◌∷◌ (head_eq e) e')
      | inr (front', e', e'') ↦ inr (front', ap₂ ◌∷◌ (sym (head_eq e)) e', e'')
    ]
  where
    tail_eq : {a b : A} {us vs : List A} → ◌≡◌ {A = List A} (a ∷ us) (b ∷ vs) → us ≡ vs
    tail_eq p = cc

    head_eq : {a b : A} {us vs : List A} → ◌≡◌ {A = List A} (a ∷ us) (b ∷ vs) → a ≡ b
    head_eq p = cc

module _ {A B : Type 0} where
  bind-ok :
      (m : Reader A) (f : A → Reader B) (bytes rest : List ℕ) (a : A)
      → m bytes ≡ ok (a, rest)
      → (m >>= f) bytes ≡ f a rest
  unfolding ◌>>=◌
  bind-ok m f bytes rest a h = ap (λ r. and_then r f) h

  bind-io_error :
      (m : Reader A) (f : A → Reader B) (bytes : List ℕ)
      → m bytes ≡ io_error
      → (m >>= f) bytes ≡ io_error
  unfolding ◌>>=◌
  bind-io_error m f bytes h = ap (λ r. and_then r f) h

  pub Encodes-bind :
      (f : A → Reader B) {m : Reader A} {a : A} {b : B} {v w : Option (List ℕ)}
      → Encodes m a v
      → Encodes (f a) b w
      → Encodes (m >>= f) b (v ⊕ w)
  unfolding ◌⊕◌
  Encodes-bind f {m} {a} {b} first second = record {
    bytes = first.bytes ++ second.bytes;
    writes = rw (first.writes, second.writes) refl;
    reads = λ rest.
        ap (m >>= f) (append_assoc first.bytes second.bytes rest)
        ∙ bind-ok m f (first.bytes ++ (second.bytes ++ rest)) (second.bytes ++ rest) a
            (first.reads (second.bytes ++ rest))
        ∙ second.reads rest;
    truncated = λ front back x e. elim (split_prefix first.bytes second.bytes front back x e) [
      | inl (y, rest, e') ↦ bind-io_error m f front (first.truncated front rest y e')
      | inr (front', e', e'') ↦
          ap (m >>= f) e'
          ∙ bind-ok m f (first.bytes ++ front') front' a (first.reads front')
          ∙ second.truncated front' back x e''
    ];
  }

  -- The value is wrapped, or checked, after it is read.
  pub Encodes-last :
      (f : A → Reader B) {m : Reader A} {a : A} {b : B} {v : Option (List ℕ)}
      → Encodes m a v
      → ((rest : List ℕ) → f a rest ≡ ok (b, rest))
      → Encodes (m >>= f) b v
  Encodes-last f {m} {a} e h = record {
    bytes = e.bytes;
    writes = e.writes;
    reads = λ rest. bind-ok m f (e.bytes ++ rest) rest a (e.reads rest) ∙ h rest;
    truncated = λ front back x p. bind-io_error m f front (e.truncated front back x p);
  }

  pub Encodes-map :
      (f : A → B) {m : Reader A} {a : A} {v : Option (List ℕ)}
      → Encodes m a v
      → Encodes (m >>= λ x. ret (f x)) (f a) v
  unfolding ret
  Encodes-map f e = Encodes-last (λ x. ret (f x)) e (λ rest. refl)

⊕-assoc : (u v w : Option (List ℕ)) → (u ⊕ v) ⊕ w ≡ u ⊕ (v ⊕ w)
unfolding ◌⊕◌
⊕-assoc none v w = refl
⊕-assoc (some xs) none w = refl
⊕-assoc (some xs) (some ys) none = refl
⊕-assoc (some xs) (some ys) (some zs) = ap some (append_assoc xs ys zs)

pub Encodes-assoc :
    {A : Type 0} {m : Reader A} {a : A} (u v w : Option (List ℕ))
    → Encodes m a (u ⊕ v ⊕ w)
    → Encodes m a ((u ⊕ v) ⊕ w)
Encodes-assoc {A} {m} {a} u v w e = subst (Encodes m a) (sym (⊕-assoc u v w)) e

pub Encodes-ret : {A : Type 0} {a : A} → Encodes (ret a) a (some [])
unfolding ret
Encodes-ret {A} {a} = record {
  bytes = [];
  writes = refl;
  reads = λ rest. refl;
  truncated = λ front back x e. absurd (no_cons front back x e);
}
  where
    no_cons : (front back : List ℕ) (x : ℕ) → [] ≡ front ++ (x ∷ back) → ⊥
    no_cons [] back x e = cc
    no_cons (y ∷ front) back x e = cc

-- Every item can be read back.
pub data EncodesAll {A : Type 0} (read : Reader A) (write : A → Option (List ℕ))
    : List A → Type 0 where
  done : EncodesAll read write []
  item :
      {x : A} {xs : List A}
      → Encodes read x (write x)
      → EncodesAll read write xs
      → EncodesAll read write (x ∷ xs)

pub Encodes-read_n :
    {A : Type 0} {read : Reader A} {write : A → Option (List ℕ)} {xs : List A}
    → EncodesAll read write xs
    → Encodes (read_n (length xs) read) xs (write_each write xs)
unfolding read_n write_each
Encodes-read_n done = Encodes-ret
Encodes-read_n (item e es) = Encodes-bind _ e (Encodes-map _ (Encodes-read_n es))

pub Encodes-read_exact : (bs : List ℕ) → Encodes (read_exact (length bs)) bs (some bs)
unfolding read_exact
Encodes-read_exact bs = record {
  bytes = bs;
  writes = refl;
  reads = λ rest. ground (
    arith,
    length-append bs rest,
    take-append (length bs) bs rest refl,
    drop-append (length bs) bs rest refl,
  );
  truncated = λ front back x e. ground (arith, ap length e, length-append front (x ∷ back));
}

-- What a round trip is, written out.
pub round_trip :
    {A : Type 0} {m : Reader A} {a : A} {w : Option (List ℕ)}
    → Encodes m a w
    → (rest : List ℕ) → (bytes : List ℕ) × (w ≡ some bytes) × (m (bytes ++ rest) ≡ ok (a, rest))
round_trip e rest = (e.bytes, e.writes, e.reads rest)

pub proper_prefix :
    {A : Type 0} {m : Reader A} {a : A} {w : Option (List ℕ)}
    → Encodes m a w
    → (front back : List ℕ) (x : ℕ) → w ≡ some (front ++ (x ∷ back))
    → m front ≡ io_error
proper_prefix e front back x h = e.truncated front back x (eq_of_some (sym e.writes ∙ h))
