-- ===== src/Object/Reads.antt =====
-- Reading what stands ahead of a reader of src/dobj.c: the rules of the actions, and of the
-- numbers, bytes and texts that an object is made of.
use mathlib.Core.List.{append_assoc}
use decision.Prelude.{
  ℕ, zero, suc, ◌+◌, ◌%◌, ◌≤◌, ◌<◌, ◌≡◌, refl, sym, ap, ◌∙◌, subst, true, false, List, [], ◌∷◌,
  ◌++◌, none, some, length, take, drop, arith, word_mod, add_word, length-append, take-append,
  drop-append_add, drop-nil, le→leb, if_true, if_false, le→ltb_false,
}
use decision.Object.Reader.{ObjectReader, Read, ◌>>=◌, pure, test_ahead, peek}

-- `xs` is all that is ahead of a reader, and sizes fit a word.
pub record IsAhead (r : ObjectReader) (xs : List ℕ) : Type 0 where
  pub ahead : drop r.ptr r.obj ≡ xs
  pub within : r.ptr + length xs ≡ length r.obj
  pub small : length r.obj + 8 < word_mod

abbrev pub moved : ObjectReader → ℕ → ObjectReader
moved r n = record r { ptr = r.ptr + n }

-- The reader of a whole object.
abbrev pub reader_of : List ℕ → ObjectReader
reader_of obj = record { obj = obj; ptr = 0; error = false }

pub reader_of-IsAhead :
    (obj xs : List ℕ) → obj ≡ xs → length obj + 8 < word_mod → IsAhead (reader_of obj) xs
reader_of-IsAhead obj xs e fits = record {
  ahead = e;
  within = omega (arith, ap length e);
  small = fits;
}

-- The action reads `a` off the bytes, whatever stands behind them, and leaves that.
pub record Reads {A : Type 0} (m : Read A) (bs : List ℕ) (a : A) : Type 0 where
  pub reads :
      (r : ObjectReader) (rest : List ℕ)
      → IsAhead r (bs ++ rest)
      → m r ≡ some (a, moved r (length bs))

drop-add : (m n : ℕ) (xs : List ℕ) → drop (m + n) xs ≡ drop n (drop m xs)
drop-add zero n xs = ap (λ k. drop k xs) {y = n} (omega arith)
drop-add (suc m) n [] = drop-nil (suc m + n) ∙ sym (drop-nil n)
drop-add (suc m) n (x ∷ xs) =
    ap (λ k. drop k (x ∷ xs)) {y = suc (m + n)} (omega arith) ∙ drop-add m n xs

pub moved-IsAhead :
    (r : ObjectReader) (bs rest : List ℕ)
    → IsAhead r (bs ++ rest)
    → IsAhead (moved r (length bs)) rest
moved-IsAhead r bs rest h = record {
  ahead =
      drop-add r.ptr (length bs) r.obj
      ∙ ap (drop (length bs)) h.ahead
      ∙ drop-append_add (length bs) 0 bs rest (omega arith);
  within = omega (arith, h.within, length-append bs rest);
  small = h.small;
}

moved_twice : (r : ObjectReader) (m n : ℕ) → moved (moved r m) n ≡ moved r (m + n)
moved_twice r m n = ap (λ p. record r { ptr = p }) (omega arith)

pub >>=-eq :
    {A B : Type 0} (m : Read A) (f : A → Read B) (r : ObjectReader) {a : A} {r' : ObjectReader}
    → m r ≡ some (a, r')
    → (m >>= f) r ≡ f a r'
>>=-eq m f r e = ap (λ x. elim x [ none ↦ none | some (a, r') ↦ f a r' ]) e

pub bind-Reads :
    {A B : Type 0} {m : Read A} (f : A → Read B) {bs cs : List ℕ} {a : A} {b : B}
    → Reads m bs a
    → Reads (f a) cs b
    → Reads (m >>= f) (bs ++ cs) b
bind-Reads {m = m} f {bs = bs} {cs = cs} {a = a} {b = b} hm hf = record {
  reads = λ r rest h.
      let h' = subst (IsAhead r) (append_assoc bs cs rest) h in
      >>=-eq m f r (hm.reads r (cs ++ rest) h')
      ∙ hf.reads (moved r (length bs)) rest (moved-IsAhead r bs (cs ++ rest) h')
      ∙ ap (λ r'. some (b, r'))
          (moved_twice r (length bs) (length cs) ∙ ap (moved r) (sym (length-append bs cs)));
}

pub pure-Reads : {A : Type 0} (a : A) → Reads (pure a) [] a
pure-Reads a = record {
  reads = λ r rest h.
      ap (λ p. some (a, record r { ptr = p })) {x = r.ptr} {y = r.ptr + 0} (omega arith);
}

-- There is enough ahead.
pub test_ahead_enough :
    (n : ℕ) (r : ObjectReader) (xs : List ℕ)
    → IsAhead r xs
    → n ≤ length xs
    → test_ahead n r ≡ some (true, r)
unfolding test_ahead add_word
test_ahead_enough n r xs h le =
    if_false (some (false, record r { error = true })) (some (true, r))
      (le→ltb_false (length r.obj) ((r.ptr + n) % word_mod) (omega (arith, h.within, h.small)))

pub peek_enough :
    (n : ℕ) (r : ObjectReader) (xs : List ℕ)
    → IsAhead r xs
    → n ≤ length xs
    → peek n r ≡ some (take n xs, r)
unfolding peek
peek_enough n r xs h le =
    if_true (some (take n (drop r.ptr r.obj), r)) none
      (le→leb (r.ptr + n) (length r.obj) (omega (arith, h.within)))
    ∙ ap (λ ys. some (take n ys, r)) h.ahead

pub test_ahead_lem :
    (r : ObjectReader) (bs rest : List ℕ)
    → IsAhead r (bs ++ rest)
    → test_ahead (length bs) r ≡ some (true, r)
test_ahead_lem r bs rest h =
    test_ahead_enough (length bs) r (bs ++ rest) h (omega (arith, length-append bs rest))

pub peek_lem :
    (r : ObjectReader) (bs rest : List ℕ)
    → IsAhead r (bs ++ rest)
    → peek (length bs) r ≡ some (bs, r)
peek_lem r bs rest h =
    peek_enough (length bs) r (bs ++ rest) h (omega (arith, length-append bs rest))
    ∙ ap (λ xs. some (xs, r)) (take-append (length bs) bs rest refl)
