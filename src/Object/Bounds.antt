-- ===== src/Object/Bounds.antt =====
-- The reader of src/dobj.c stays inside of the object and keeps its error flag.
use decision.Prelude.{
  ℕ, ◌+◌, ◌≤◌, ◌≡◌, inl, inr, refl, sym, ap, ◌∙◌, subst, Bool, true, false, List, Option, none,
  some, length, take, drop, ltb, leb, if_true, if_false, arith, Bool-cases, Option-cases, leb→le,
  add_word, ◌++◌, length-append, le→ltb_false, ltb_false→le, le→leb, take-append_le, [], ◌∷◌, zero,
  suc,
}
use decision.Graph.{Text}
use decision.Object.Reader.{
  ObjectReader, Read, ◌>>=◌, pure, crash, test_ahead, peek, advance, same_bytes,
  reader_test_string_n,
}
use decision.Object.Reads.{>>=-eq}

-- A reader that came from another one by reading.
pub record IsWithin (r r' : ObjectReader) : Type 0 where
  pub obj : r'.obj ≡ r.obj
  pub forward : r.ptr ≤ r'.ptr
  pub bound : r'.ptr ≤ length r'.obj
  pub error : r.error ≡ true → r'.error ≡ true

-- The same reader, of an object with more bytes behind.
abbrev pub extended : List ℕ → ObjectReader → ObjectReader
extended more r = record r { obj = r.obj ++ more }

-- An action that stays inside, and that does not depend on what is behind the object, unless it
-- sets the flag.
pub record Keeps {A : Type 0} (m : Read A) : Type 0 where
  pub keeps :
      (r : ObjectReader) (a : A) (r' : ObjectReader)
      → r.ptr ≤ length r.obj
      → m r ≡ some (a, r')
      → IsWithin r r'
  pub stable :
      (r : ObjectReader) (a : A) (r' : ObjectReader) (more : List ℕ)
      → r.ptr ≤ length r.obj
      → m r ≡ some (a, r')
      → r'.error ≡ false
      → m (extended more r) ≡ some (a, extended more r')

pub stay-IsWithin : (r : ObjectReader) → r.ptr ≤ length r.obj → IsWithin r r
stay-IsWithin r h = record { obj = refl; forward = omega arith; bound = h; error = λ e. e }

pub trans-IsWithin : {r r' r'' : ObjectReader} → IsWithin r r' → IsWithin r' r'' → IsWithin r r''
trans-IsWithin h k = record {
  obj = k.obj ∙ h.obj;
  forward = omega (arith, h.forward, k.forward);
  bound = k.bound;
  error = λ e. k.error (h.error e);
}

pub >>=-inv :
    {A B : Type 0} (m : Read A) (f : A → Read B) (r r' : ObjectReader) (b : B)
    → (m >>= f) r ≡ some (b, r')
    → (a : A) × (r1 : ObjectReader) × (m r ≡ some (a, r1)) × (f a r1 ≡ some (b, r'))
>>=-inv m f r r' b e = elim (Option-cases (m r)) [
  | inl stuck ↦
      absurd (cc (sym (ap (λ o. elim o [ none ↦ none | some (a, r1) ↦ f a r1 ]) stuck) ∙ e))
  | inr ((a, r1), ran) ↦ (a, r1, ran, sym (>>=-eq m f r ran) ∙ e)
]

-- A flag that is not set at the end was never set.
pub still_fine : {d : Bool} (c : Bool) → (c ≡ true → d ≡ true) → d ≡ false → c ≡ false
still_fine true h e = absurd (cc (h refl, e))
still_fine false h e = refl

pub bind-Keeps :
    {A B : Type 0} {m : Read A} (f : A → Read B)
    → Keeps m
    → ((a : A) → Keeps (f a))
    → Keeps (m >>= f)
bind-Keeps {m = m} f hm hf = record {
  keeps = λ r b r' h e.
      let (a, r1, p, q) = >>=-inv m f r r' b e in
      let first = hm.keeps r a r1 h p in trans-IsWithin first ((hf a).keeps r1 b r' first.bound q);
  stable = λ r b r' more h e fine.
      let (a, r1, p, q) = >>=-inv m f r r' b e in
      let first = hm.keeps r a r1 h p in
      let later = (hf a).keeps r1 b r' first.bound q in
      >>=-eq m f (extended more r)
        (hm.stable r a r1 more h p (still_fine r1.error later.error fine))
      ∙ (hf a).stable r1 b r' more first.bound q fine;
}

same_reader :
    {A : Type 0} {a b : A} {r r' : ObjectReader}
    → ◌≡◌ {A = Option (A × ObjectReader)} (some (a, r)) (some (b, r'))
    → r ≡ r'
same_reader {r = r} e = ap (λ o. elim o [ none ↦ r | some (x, last) ↦ last ]) e

-- What an action is known to give.
pub given :
    {A : Type 0} {a b : A} {r r1 r' : ObjectReader} {o : Option (A × ObjectReader)}
    → o ≡ some (a, r1)
    → o ≡ some (b, r')
    → IsWithin r r1
    → IsWithin r r'
given {r = r} p q h = subst (IsWithin r) (same_reader (sym p ∙ q)) h

-- So too with more bytes behind the object.
pub given_more :
    {A : Type 0} {a b : A} {r1 r' : ObjectReader} {o o' : Option (A × ObjectReader)} (more : List ℕ)
    → o ≡ some (a, r1)
    → o ≡ some (b, r')
    → o' ≡ some (a, extended more r1)
    → o' ≡ some (b, extended more r')
given_more more p q e =
    e ∙ ap (λ o. elim o [ none ↦ none | some (x, last) ↦ some (x, extended more last) ]) (sym p ∙ q)

-- A test, with both of its outcomes.
pub test-Keeps :
    {B : Type 0} {m : Read Bool} (f : Bool → Read B)
    → Keeps m
    → Keeps (f false)
    → Keeps (f true)
    → Keeps (m >>= f)
test-Keeps f hm hfalse htrue = bind-Keeps f hm (both hfalse htrue)
  where
    both : Keeps (f false) → Keeps (f true) → (b : Bool) → Keeps (f b)
    both x y true = y
    both x y false = x

-- A pointer that may be NULL, with both cases.
pub pointer-Keeps :
    {A B : Type 0} {m : Read (Option A)} (f : Option A → Read B)
    → Keeps m
    → Keeps (f none)
    → ((a : A) → Keeps (f (some a)))
    → Keeps (m >>= f)
pointer-Keeps {A = A} f hm hnone hsome = bind-Keeps f hm (both hnone hsome)
  where
    both : Keeps (f none) → ((a : A) → Keeps (f (some a))) → (o : Option A) → Keeps (f o)
    both x y none = x
    both x y (some a) = y a

pub pure-Keeps : {A : Type 0} (a : A) → Keeps (pure a)
pure-Keeps a = record {
  keeps = λ r b r' h e. given refl e (stay-IsWithin r h);
  stable = λ r b r' more h e fine. given_more more refl e refl;
}

pub crash-Keeps : {A : Type 0} → Keeps (crash {A = A})
crash-Keeps = record {
  keeps = λ r b r' h e. absurd (cc e);
  stable = λ r b r' more h e fine. absurd (cc e);
}

pub test_ahead-Keeps : (n : ℕ) → Keeps (test_ahead n)
unfolding test_ahead
test_ahead-Keeps n = record {
  keeps = λ r b r' h e. elim (Bool-cases (ltb (length r.obj) (add_word r.ptr n))) [
    | inl t ↦
        given (if_true _ _ t) e
          (record { obj = refl; forward = omega arith; bound = h; error = λ x. refl })
    | inr f ↦ given (if_false _ _ f) e (stay-IsWithin r h)
  ];
  stable = λ r b r' more h e fine. elim (Bool-cases (ltb (length r.obj) (add_word r.ptr n))) [
    | inl t ↦
        absurd
          (cc (ap (λ (x : ObjectReader). x.error) (same_reader (sym (if_true _ _ t) ∙ e)), fine))
    | inr f ↦ given_more more (if_false _ _ f) e (
        if_false _ _ (
          le→ltb_false (length (r.obj ++ more)) (add_word r.ptr n) (
            omega
              (arith, length-append r.obj more, ltb_false→le (length r.obj) (add_word r.ptr n) f))))
  ];
}

-- Bytes inside of the object are the same with more bytes behind.
slice-extended :
    (at n : ℕ) (xs more : List ℕ)
    → at + n ≤ length xs
    → take n (drop at (xs ++ more)) ≡ take n (drop at xs)
slice-extended zero n xs more h = take-append_le n xs more (omega arith)
slice-extended (suc at) n [] more h = absurd (omega arith)
slice-extended (suc at) n (x ∷ xs) more h = slice-extended at n xs more (omega arith)

-- What follows bytes that are there.
record Follows {B : Type 0} (n : ℕ) (m : Read B) : Type 0 where
  keeps :
      (r : ObjectReader) (b : B) (r' : ObjectReader)
      → r.ptr + n ≤ length r.obj
      → m r ≡ some (b, r')
      → IsWithin r r'
  stable :
      (r : ObjectReader) (b : B) (r' : ObjectReader) (more : List ℕ)
      → r.ptr + n ≤ length r.obj
      → m r ≡ some (b, r')
      → m (extended more r) ≡ some (b, extended more r')

-- Bytes that are looked at are there, so that they can be passed.
peek-Keeps :
    {B : Type 0} (n : ℕ) (f : List ℕ → Read B)
    → ((xs : List ℕ) → Follows n (f xs))
    → Keeps (peek n >>= f)
unfolding peek
peek-Keeps {B = B} n f k = record {
  keeps = λ r b r' h e. elim (Bool-cases (leb (r.ptr + n) (length r.obj))) [
    | inl t ↦
        (k (take n (drop r.ptr r.obj))).keeps r b r' (leb→le (r.ptr + n) (length r.obj) t)
          (sym (>>=-eq (peek n) f r (if_true _ none t)) ∙ e)
    | inr t ↦ absurd (stuck r b r' t e)
  ];
  stable = λ r b r' more h e fine. elim (Bool-cases (leb (r.ptr + n) (length r.obj))) [
    | inl t ↦
        (let inside = leb→le (r.ptr + n) (length r.obj) t in
          >>=-eq (peek n) f (extended more r) (
            if_true _ none (
              le→leb (r.ptr + n) (length (r.obj ++ more))
                (omega (arith, inside, length-append r.obj more)))
            ∙ ap (λ xs. some (xs, extended more r)) (slice-extended r.ptr n r.obj more inside))
          ∙ (k (take n (drop r.ptr r.obj))).stable r b r' more inside
              (sym (>>=-eq (peek n) f r (if_true _ none t)) ∙ e))
    | inr t ↦ absurd (stuck r b r' t e)
  ];
}
  where
    stuck :
        (r : ObjectReader) (b : B) (r' : ObjectReader)
        → leb (r.ptr + n) (length r.obj) ≡ false
        → (peek n >>= f) r ≡ some (b, r')
        → ⊥
    stuck r b r' t e = cc (
        sym (
          ap (λ o. elim o [ none ↦ none | some (a, r1) ↦ f a r1 ]) {x = peek n r} {y = none}
            (if_false (some (take n (drop r.ptr r.obj), r)) none t))
        ∙ e)

advance_lem : {A : Type 0} (n : ℕ) (a : A) → Follows n (do u ← advance n; pure a)
unfolding advance
advance_lem n a = record {
  keeps = λ r b r' h e.
      given refl e (record { obj = refl; forward = omega arith; bound = h; error = λ x. x });
  stable = λ r b r' more h e. given_more more refl e refl;
}

-- Bytes are passed when they are there.
pub ahead-Keeps :
    {A : Type 0} (n : ℕ) (f : List ℕ → A) (failed : A)
    → Keeps (do
      ahead ← test_ahead n
      elim ahead [ false ↦ pure failed | true ↦ (do xs ← peek n; u ← advance n; pure (f xs)) ])
ahead-Keeps n f failed =
    test-Keeps _ (test_ahead-Keeps n) (pure-Keeps failed)
      (peek-Keeps n _ (λ xs. advance_lem n (f xs)))

pub reader_test_string_n-Keeps : (tag : Text) → Keeps (reader_test_string_n tag)
unfolding reader_test_string_n
reader_test_string_n-Keeps tag =
    test-Keeps _ (test_ahead-Keeps (length tag)) (pure-Keeps false)
      (peek-Keeps (length tag) _ (λ xs. tested (same_bytes tag xs)))
  where
    tested :
        (c : Bool)
        → Follows
            (length tag)
            (elim c [ false ↦ pure false | true ↦ (do u ← advance (length tag); pure true) ])
    tested true = advance_lem (length tag) true
    tested false = record {
      keeps = λ r b r' h e. given refl e (stay-IsWithin r (omega (arith, h)));
      stable = λ r b r' more h e. given_more more refl e refl;
    }
