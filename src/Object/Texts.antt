-- ===== src/Object/Texts.antt =====
-- Reading numbers, bytes, texts and tags off an object of src/dobj.c.
use mathlib.Core.List.{append_assoc}
use mathlib.Core.Option
use decision.Prelude.{
  ℕ, suc, ◌+◌, ◌<◌, ◌≡◌, refl, sym, ap, ◌∙◌, subst, Bool, true, false, List, [], ◌∷◌, ◌++◌, none,
  some, length, arith, word_mod, length-append, take-append, if_false, pos→==_false,
}
use decision.Graph.{Text}
use decision.Optimize.{read_number, number_bytes}
use decision.Optimize.Encode.{length-number_bytes}
use decision.Object.Reader.{
  ObjectReader, Read, ◌>>=◌, pure, test_ahead, peek, advance, same_bytes, reader_test_string_n,
  read_byte, read_string_n, strlen, length_ahead, read_string, read_uinteger,
}
use decision.Object.Reads.{IsAhead, moved, Reads, >>=-eq, test_ahead_lem, peek_lem}

-- The bytes ahead are tested for, taken and passed.
abbrev pub take_ahead : {A : Type 0} → ℕ → (List ℕ → A) → A → Read A
take_ahead n f failed = do
  ahead ← test_ahead n
  elim ahead [ false ↦ pure failed | true ↦ (do bytes ← peek n; u ← advance n; pure (f bytes)) ]

take_ahead-Reads :
    {A : Type 0} (n : ℕ) (f : List ℕ → A) (failed : A) (bs : List ℕ)
    → n ≡ length bs
    → Reads (take_ahead n f failed) bs (f bs)
unfolding advance
take_ahead-Reads n f failed bs e =
    subst (λ k. Reads (take_ahead k f failed) bs (f bs)) (sym e)
      (record {
        reads = λ r rest h.
            >>=-eq (test_ahead (length bs)) _ r (test_ahead_lem r bs rest h)
            ∙ >>=-eq (peek (length bs)) _ r (peek_lem r bs rest h);
      })

pub byte-Reads : (b : ℕ) → Reads read_byte (b ∷ []) b
unfolding read_byte read_number
byte-Reads b =
    subst (Reads read_byte (b ∷ [])) (omega arith)
      (take_ahead-Reads 1 (read_number 1) 0 (b ∷ []) refl)

pub string_n-Reads : (bs : List ℕ) → Reads (read_string_n (length bs)) bs (some bs)
unfolding read_string_n
string_n-Reads bs = take_ahead-Reads (length bs) some none bs refl

pub read_number-number_bytes : (v : ℕ) → v < word_mod → read_number 8 (number_bytes 8 v) ≡ v
unfolding read_number number_bytes
read_number-number_bytes v h = omega arith

pub uinteger-Reads : (v : ℕ) → v < word_mod → Reads read_uinteger (number_bytes 8 v) v
unfolding read_uinteger
uinteger-Reads v h =
    subst (Reads read_uinteger (number_bytes 8 v)) (read_number-number_bytes v h)
      (take_ahead-Reads 8 (read_number 8) 0 (number_bytes 8 v) (sym (length-number_bytes 8 v)))

-- A C string: none of its bytes is null.
abbrev pub IsText : Text → Type 0
IsText [] = Unit {0}
IsText (c ∷ cs) = 0 < c × IsText cs

pub strlen-append : (s : Text) (rest : List ℕ) → IsText s → strlen (s ++ 0 ∷ rest) ≡ some (length s)
unfolding strlen
strlen-append [] rest h = refl
strlen-append (c ∷ cs) rest h =
    if_false (some 0) (Option.map suc (strlen (cs ++ 0 ∷ rest))) (pos→==_false c h.0)
    ∙ ap (Option.map suc) (strlen-append cs rest h.1)

length_ahead_lem :
    (r : ObjectReader) (s : Text) (rest : List ℕ)
    → IsText s
    → IsAhead r (s ++ 0 ∷ rest)
    → length_ahead r ≡ some (length s, r)
unfolding length_ahead
length_ahead_lem r s rest t h =
    ap (λ o. Option.map (λ n. (n, r)) o) (ap strlen h.ahead ∙ strlen-append s rest t)

pub string-Reads : (s : Text) → IsText s → Reads read_string (s ++ 0 ∷ []) (some s)
unfolding read_string
string-Reads s t = record {
  reads = λ r rest h.
      let h' = subst (IsAhead r) (append_assoc s (0 ∷ []) rest) h in
      >>=-eq length_ahead _ r (length_ahead_lem r s rest t h')
      ∙ >>=-eq (test_ahead (length s)) _ r (test_ahead_lem r s (0 ∷ rest) h')
      ∙ >>=-eq (read_string_n (length s + 1)) _ r (taken r rest h)
      ∙ ap (λ x. some (some x, moved r (length (s ++ 0 ∷ []))))
          (take-append (length s) s (0 ∷ []) refl);
}
  where
    bs : List ℕ
    bs = s ++ 0 ∷ []

    taken :
        (r : ObjectReader) (rest : List ℕ)
        → IsAhead r (bs ++ rest)
        → read_string_n (length s + 1) r ≡ some (some bs, moved r (length bs))
    taken r rest h =
        ap (λ n. read_string_n n r) {y = length bs} (omega (arith, length-append s (0 ∷ [])))
        ∙ (string_n-Reads bs).reads r rest h

pub same_bytes_refl : (s : List ℕ) → same_bytes s s ≡ true
same_bytes_refl [] = refl
same_bytes_refl (x ∷ xs) = ground (arith, same_bytes_refl xs)

pub tag-Reads : (tag : Text) → Reads (reader_test_string_n tag) tag true
unfolding reader_test_string_n advance
tag-Reads tag = record {
  reads = λ r rest h.
      >>=-eq (test_ahead (length tag)) _ r (test_ahead_lem r tag rest h)
      ∙ >>=-eq (peek (length tag)) _ r (peek_lem r tag rest h)
      ∙ ap
          (λ b.
            let act : Read Bool = elim b [
              | false ↦ pure false
              | true ↦ (do u ← advance (length tag); pure true)
            ] in
            act r)
          (same_bytes_refl tag);
}
