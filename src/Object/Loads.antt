-- ===== src/Object/Loads.antt =====
-- The sections of an object of src/dobj.c: their bytes, and how `d_obj_load` reads one that is
-- there and passes over one that is not.
use mathlib.Core.List.{append_assoc}
use decision.Prelude.{
  ℕ, ◌+◌, ◌%◌, ◌≤◌, ◌<◌, ◌≡◌, refl, sym, ap, ◌∙◌, subst, ◌⊎◌, inl, inr, Bool, true, false, ◌||◌,
  List, [], ◌∷◌, ◌++◌, some, length, take, ltb, arith, word_mod, add_word, length-append,
  if◌then◌else◌, if_true, Bool-cases, ltb→lt, ltb_false→le, lt→ltb,
}
use decision.Graph.{Text}
use decision.Optimize.{number_bytes}
use decision.Object.Reader.{
  ObjectReader, Read, ◌>>=◌, pure, test_ahead, peek, advance, same_bytes, reader_test_string_n,
  read_uinteger,
}
use decision.Object.Reads.{
  IsAhead, Reads, >>=-eq, bind-Reads, pure-Reads, test_ahead_enough, peek_enough, moved-IsAhead,
}
use decision.Object.Texts.{uinteger-Reads, tag-Reads}

-- A section: a tag, a number and what stands behind it; nothing when the number is 0.
pub record Part : Type 0 where
  pub tag : Text
  pub size : ℕ
  pub body : List ℕ

abbrev pub part_bytes : Part → List ℕ
part_bytes p = if ltb 0 p.size then p.tag ++ (number_bytes 8 p.size ++ p.body) else []

abbrev pub parts_bytes : List Part → List ℕ
parts_bytes [] = []
parts_bytes (p ∷ ps) = part_bytes p ++ parts_bytes ps

-- The reader after `n` bytes, with its error flag set if `e` is.
abbrev pub after : ObjectReader → ℕ → Bool → ObjectReader
after r n e = record r { ptr = r.ptr + n; error = r.error || e }

-- The action reads `a` off the bytes when `rest` stands behind them. It can only run into the end
-- of the object, and set the error flag, when `rest` is empty.
pub record Loads {A : Type 0} (m : Read A) (bs rest : List ℕ) (a : A) : Type 0 where
  pub loads :
      (r : ObjectReader)
      → IsAhead r (bs ++ rest)
      → (e : Bool) × (m r ≡ some (a, after r (length bs) e)) × (¬ (rest ≡ []) → e ≡ false)

or_false : (b : Bool) → (b || false) ≡ b
or_false true = refl
or_false false = refl

or_true : (b : Bool) → (b || true) ≡ true
or_true true = refl
or_true false = refl

or_assoc : (a b c : Bool) → ((a || b) || c) ≡ (a || (b || c))
or_assoc true b c = refl
or_assoc false b c = refl

-- What stands ahead does not depend on the error flag.
pub after-IsAhead :
    (r : ObjectReader) (bs rest : List ℕ) (e : Bool)
    → IsAhead r (bs ++ rest)
    → IsAhead (after r (length bs) e) rest
after-IsAhead r bs rest e h = record {
  ahead = (moved-IsAhead r bs rest h).ahead;
  within = (moved-IsAhead r bs rest h).within;
  small = h.small;
}

pub append_nonempty : (bs rest : List ℕ) → ¬ (rest ≡ []) → ¬ (bs ++ rest ≡ [])
append_nonempty [] rest h e = h e
append_nonempty (b ∷ bs) rest h e = cc e

pub Reads-Loads :
    {A : Type 0} {m : Read A} {bs rest : List ℕ} {a : A} → Reads m bs a → Loads m bs rest a
Reads-Loads {bs = bs} {rest = rest} {a = a} h = record {
  loads = λ r x. (
    false,
    h.reads r rest x
        ∙ ap (λ e. some (a, record r { ptr = r.ptr + length bs; error = e }))
            (sym (or_false r.error)),
    λ e. refl,
  );
}

pub bind-Loads :
    {A B : Type 0} {m : Read A} (f : A → Read B) {bs cs rest : List ℕ} {a : A} {b : B}
    → Loads m bs (cs ++ rest) a
    → Loads (f a) cs rest b
    → Loads (m >>= f) (bs ++ cs) rest b
bind-Loads {m = m} f {bs = bs} {cs = cs} {rest = rest} {a = a} {b = b} hm hf = record {
  loads = λ r x.
      let x' = subst (IsAhead r) (append_assoc bs cs rest) x in
      let (e, p, q) = hm.loads r x' in
      let (e', p', q') = hf.loads (after r (length bs) e) (after-IsAhead r bs (cs ++ rest) e x') in
      (
        e || e',
        >>=-eq m f r p
            ∙ p'
            ∙ ap (λ k. some (b, record r { ptr = k; error = (r.error || e) || e' }))
                (omega (arith, length-append bs cs))
            ∙ ap (λ k. some (b, record r { ptr = r.ptr + length (bs ++ cs); error = k }))
                (or_assoc r.error e e'),
        λ full. ap (λ k. k || e') (q (append_nonempty cs rest full)) ∙ q' full,
      );
}

-- What stands ahead is not the tag, and it is not too short for the test.
abbrev pub IsForeign : Text → List ℕ → Type 0
IsForeign tag rest =
    (rest ≡ []) ⊎ ((length tag ≤ length rest) × (same_bytes tag (take (length tag) rest) ≡ false))

pub test_ahead_short :
    (n : ℕ) (r : ObjectReader) (rest : List ℕ)
    → IsAhead r rest
    → rest ≡ []
    → 0 < n
    → n < 8
    → test_ahead n r ≡ some (false, record r { error = true })
unfolding test_ahead add_word
test_ahead_short n r rest h e long short =
    if_true (some (false, record r { error = true })) (some (true, r)) (
      lt→ltb (length r.obj) ((r.ptr + n) % word_mod)
        (omega (arith, h.within, h.small, ap length e)))

-- A test for a tag that is not there.
absent-Loads :
    (tag : Text) (rest : List ℕ)
    → 0 < length tag
    → length tag < 8
    → IsForeign tag rest
    → Loads (reader_test_string_n tag) [] rest false
unfolding reader_test_string_n
absent-Loads tag rest long short (inl e) = record {
  loads = λ r x. (
    true,
    >>=-eq (test_ahead (length tag)) _ r (test_ahead_short (length tag) r rest x e long short)
        ∙ ap (λ k. some (false, record r { ptr = k; error = true })) {y = r.ptr + 0} (omega arith)
        ∙ ap (λ k. some (false, record r { ptr = r.ptr + 0; error = k })) (sym (or_true r.error)),
    λ full. absurd (full e),
  );
}
absent-Loads tag rest long short (inr (le, differ)) = record {
  loads = λ r x. (
    false,
    >>=-eq (test_ahead (length tag)) _ r (test_ahead_enough (length tag) r rest x le)
        ∙ >>=-eq (peek (length tag)) _ r (peek_enough (length tag) r rest x le)
        ∙ ap
            (λ b.
              let act : Read Bool = elim b [
                | false ↦ pure false
                | true ↦ (do u ← advance (length tag); pure true)
              ] in
              act r)
            differ
        ∙ ap (λ k. some (false, record r { ptr = k })) {y = r.ptr + 0} (omega arith)
        ∙ ap (λ k. some (false, record r { ptr = r.ptr + 0; error = k })) (sym (or_false r.error)),
    λ full. refl,
  );
}

-- A section that is there is read by `present`; one that is not leaves `absent`.
abbrev pub load_part : {A : Type 0} → Text → A → (ℕ → Read A) → Read A
load_part tag absent present = do
  found ← reader_test_string_n tag
  elim found [ false ↦ pure absent | true ↦ (do n ← read_uinteger; present n) ]

pub present-Reads :
    {A : Type 0} (p : Part) (absent : A) (present : ℕ → Read A) (a : A)
    → p.size < word_mod
    → 0 < p.size
    → Reads (present p.size) p.body a
    → Reads (load_part p.tag absent present) (part_bytes p) a
present-Reads p absent present a fits full body =
    subst (λ bs. Reads (load_part p.tag absent present) bs a)
      (sym (if_true (p.tag ++ (number_bytes 8 p.size ++ p.body)) [] (lt→ltb 0 p.size full)))
      (bind-Reads _ (tag-Reads p.tag) (bind-Reads present (uinteger-Reads p.size fits) body))

pub part-Loads :
    {A : Type 0} (p : Part) (rest : List ℕ) (absent : A) (present : ℕ → Read A) (a : A)
    → 0 < length p.tag
    → length p.tag < 8
    → p.size < word_mod
    → IsForeign p.tag rest
    → (p.size ≡ 0 → a ≡ absent)
    → (0 < p.size → Reads (present p.size) p.body a)
    → Loads (load_part p.tag absent present) (part_bytes p) rest a
part-Loads p rest absent present a long short fits foreign empty full =
    elim (Bool-cases (ltb 0 p.size)) [
      | inl e ↦
          Reads-Loads
            (present-Reads p absent present a fits (ltb→lt 0 p.size e) (full (ltb→lt 0 p.size e)))
      | inr e ↦
          (subst
            (λ b.
              Loads (load_part p.tag absent present)
                (if b then p.tag ++ (number_bytes 8 p.size ++ p.body) else []) rest a)
            (sym e)
            (subst (Loads (load_part p.tag absent present) [] rest)
              (sym (empty (omega (arith, ltb_false→le 0 p.size e))))
              (bind-Loads _ (absent-Loads p.tag rest long short foreign)
                (Reads-Loads (pure-Reads absent)))))
    ]
