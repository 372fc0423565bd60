-- ===== src/Lex/Bounds.antt =====
-- Literals and names of src/dlex.c are read inside the source, and end inside it.
use decision.Prelude.{
  ℕ, zero, suc, ◌+◌, ◌-◌, ◌≤◌, ◌<◌, ◌≡◌, refl, inl, inr, subst, ap, ◌∙◌, true, false, not, ◌||◌,
  List, [], ◌∷◌, ◌++◌, Option, none, some, ◌>>=◌, length, take, drop, ltb, ◌==◌, arith, Bool-cases,
  get_elem?-lt, bind-some, if_true, if_false, ltb→lt,
}
use decision.Lex.{
  LexError, no_string_end, no_name_end, byte_at, Lexed, d_lex_is_name_char, d_lex_is_alpha,
}
use decision.Lex.Literals.{
  no_text, string_end, build_string, escaped, d_lex_get_string_literal, name_end, d_lex_get_name,
}

-- Every index up to the length can be read.
pub byte_at_lem :
    (source : List ℕ) (i : ℕ) → i ≤ length source → (c : ℕ) × (byte_at source i ≡ some c)
unfolding byte_at
byte_at_lem source i le = elim (Bool-cases (i == length source)) [
  | inl e ↦ (0, if_true _ _ e)
  | inr e ↦ let (c, f) = get_elem?-lt source i (ground (arith, e)) in (c, if_false _ _ e ∙ f)
]

-- The text of a literal from index `j` on can be built, wherever the text before it has at most
-- one byte for each byte of the source.
abbrev Built : List ℕ → ℕ → ℕ → Type 0
Built source j left =
    (line old c : ℕ)
    → c + old < j
    → (b : List ℕ × List LexError) × (build_string line source old left c j ≡ some b)

abbrev Closes : List ℕ → ℕ → ℕ → Option (ℕ × ℕ) → Type 0
Closes source j n none = Unit {0}
Closes source j n (some (e, m)) = (j ≤ e) × (e < length source) × (n ≤ m) × Built source j (m - n)

plain-Built :
    (source : List ℕ) (j k : ℕ) (o : ℕ)
    → byte_at source j ≡ some o
    → (o == 92) ≡ false
    → Built source (suc j) k
    → Built source j (suc k)
unfolding build_string
plain-Built source j k o e plain b line old c lt =
    let (r, f) = b line old (suc c) (omega arith) in
    ((o ∷ r.0, r.1), bind-some _ _ e (simp (plain, f)))

escape-Built :
    (source : List ℕ) (j k : ℕ) (o : ℕ)
    → byte_at source j ≡ some o
    → (o == 92) ≡ true
    → suc j < length source
    → Built source (j + 2) k
    → Built source j (suc k)
unfolding build_string
escape-Built source j k o e esc lt b line old c near =
    let (r, f) = b line old (suc c) (omega arith) in
    let (next, g) = byte_at_lem source (c + old + 2) (omega arith) in
    let x = escaped line next in ((x.0 ∷ r.0, x.1 ++ r.1), bind-some _ _ e (simp (esc, g, f)))

plain-Closes :
    (source : List ℕ) (j n : ℕ) (c : ℕ) (r : Option (ℕ × ℕ))
    → byte_at source j ≡ some c
    → (c == 92) ≡ false
    → Closes source (suc j) (suc n) r
    → Closes source j n r
plain-Closes source j n c none e plain h = tt
plain-Closes source j n c (some (e, m)) f plain (le, lt, more, b) = (
  omega arith,
  lt,
  omega arith,
  subst (Built source j) (omega arith) (plain-Built source j (m - suc n) c f plain b),
)

escape-Closes :
    (source : List ℕ) (j n : ℕ) (c : ℕ) (r : Option (ℕ × ℕ))
    → byte_at source j ≡ some c
    → (c == 92) ≡ true
    → Closes source (j + 2) (suc n) r
    → Closes source j n r
escape-Closes source j n c none e esc h = tt
escape-Closes source j n c (some (e, m)) f esc (le, lt, more, b) = (
  omega arith,
  lt,
  omega arith,
  subst (Built source j) (omega arith) (escape-Built source j (m - suc n) c f esc (omega arith) b),
)

here-Closes : (source : List ℕ) (j n : ℕ) → j < length source → Closes source j n (some (j, n))
unfolding build_string
here-Closes source j n lt = (
  omega arith,
  lt,
  omega arith,
  subst (Built source j) {x = 0} (omega arith) (λ line old c near. (([], []), refl)),
)

string_end_lem :
    (fuel : ℕ) (source : List ℕ) (q j n : ℕ)
    → length source ≤ fuel + j
    → (r : Option (ℕ × ℕ)) × (string_end fuel source q j n ≡ some r) × Closes source j n r
unfolding string_end
string_end_lem zero source q j n le = (none, ground arith, tt)
string_end_lem (suc fuel) source q j n le = elim (Bool-cases (ltb j (length source))) [
  | inr f ↦ (none, ground (arith, f), tt)
  | inl t ↦
      let lt = ltb→lt j (length source) t in
      let (c, e) = byte_at_lem source j (omega (arith, lt)) in
      elim (Bool-cases (c == 92)) [
        | inl esc ↦
            let (r, f, h) = string_end_lem fuel source q (j + 2) (suc n) (omega arith) in
            (r, ground (arith, t, e, esc, f), escape-Closes source j n c r e esc h)
        | inr plain ↦ elim (Bool-cases (c == q)) [
          | inl end ↦ (some (j, n), ground (arith, t, e, plain, end), here-Closes source j n lt)
          | inr more ↦
              let (r, f, h) = string_end_lem fuel source q (suc j) (suc n) (omega arith) in
              (r, ground (arith, t, e, plain, more, f), plain-Closes source j n c r e plain h)
        ]
      ]
]

-- What a literal or a name at index `i` leaves: an index from `i` on inside the source.
pub record Inside (source : List ℕ) (i : ℕ) (r : Option Lexed) : Type 0 where
  pub lexed : Lexed
  pub returns : r ≡ some lexed
  pub onward : i ≤ lexed.index
  pub inside : i < length source → lexed.index < length source

string_built :
    (source : List ℕ) (i line : ℕ) (r : Option (ℕ × ℕ))
    → Closes source (suc i) 0 r
    → Inside source i (elim r [
      | none ↦ some (no_text i (no_string_end line))
      | some (j, len_str) ↦ (do
        built ← build_string line source i len_str 0 (suc i)
        some (record { text = some built.0; index = j; errors = built.1 }))
    ])
string_built source i line none h = record {
  lexed = _;
  returns = refl;
  onward = omega arith;
  inside = λ lt. lt;
}
string_built source i line (some (j, n)) (le, lt, more, b) =
    let all : Built source (suc i) n = subst (Built source (suc i)) (omega arith) b in
    let (built, e) = all line i 0 (omega arith) in
    record {
      lexed = record { text = some built.0; index = j; errors = built.1 };
      returns = bind-some _ _ e refl;
      onward = omega arith;
      inside = λ l. lt;
    }

Inside-eq :
    {source : List ℕ} {i : ℕ} {r r' : Option Lexed}
    → r ≡ r'
    → Inside source i r'
    → Inside source i r
Inside-eq e h = record {
  lexed = h.lexed;
  returns = e ∙ h.returns;
  onward = h.onward;
  inside = h.inside;
}

-- A string literal is read inside the source: it always has a result.
pub string_literal-Inside :
    (source : List ℕ) (i line : ℕ)
    → i ≤ length source
    → Inside source i (d_lex_get_string_literal source i line)
unfolding d_lex_get_string_literal
string_literal-Inside source i line le =
    let (q, e) = byte_at_lem source i le in
    elim (Bool-cases (q == 34 || q == 39)) [
      | inr none_ ↦
          Inside-eq (bind-some _ _ e (if_true _ _ (ap not none_)))
            (record { lexed = _; returns = refl; onward = omega arith; inside = λ lt. lt })
      | inl quote ↦
          let (r, f, h) = string_end_lem (length source) source q (suc i) 0 (omega arith) in
          Inside-eq (bind-some _ _ e (if_false _ _ (ap not quote) ∙ bind-some _ _ f refl))
            (string_built source i line r h)
    ]

abbrev Stops : List ℕ → ℕ → Option ℕ → Type 0
Stops source j none = Unit {0}
Stops source j (some e) = (j ≤ e) × (e < length source)

Stops-suc : (source : List ℕ) (j : ℕ) (r : Option ℕ) → Stops source (suc j) r → Stops source j r
Stops-suc source j none h = tt
Stops-suc source j (some e) (le, lt) = (omega arith, lt)

name_end_lem :
    (fuel : ℕ) (source : List ℕ) (j : ℕ)
    → length source ≤ fuel + j
    → (r : Option ℕ) × (name_end fuel source j ≡ some r) × Stops source j r
unfolding name_end
name_end_lem zero source j le = (none, ground arith, tt)
name_end_lem (suc fuel) source j le = elim (Bool-cases (ltb j (length source))) [
  | inr f ↦ (none, ground (arith, f), tt)
  | inl t ↦
      let lt = ltb→lt j (length source) t in
      let (c, e) = byte_at_lem source j (omega (arith, lt)) in
      elim (Bool-cases (d_lex_is_name_char c)) [
        | inr stop ↦ (some j, ground (arith, t, e, stop), (omega arith, lt))
        | inl char ↦
            let (r, f, h) = name_end_lem fuel source (suc j) (omega arith) in
            (r, ground (arith, t, e, char, f), Stops-suc source j r h)
      ]
]

name_stopped :
    (source : List ℕ) (i line : ℕ) (r : Option ℕ)
    → Stops source (suc i) r
    → Inside source i (elim r [
      | none ↦ some (no_text i (no_name_end line))
      | some j ↦
          some (record { text = some (take (j - i) (drop i source)); index = j - 1; errors = [] })
    ])
name_stopped source i line none h = record {
  lexed = _;
  returns = refl;
  onward = omega arith;
  inside = λ lt. lt;
}
name_stopped source i line (some j) (le, lt) = record {
  lexed = _;
  returns = refl;
  onward = omega arith;
  inside = λ l. omega arith;
}

-- A name is read inside the source: it always has a result.
pub name-Inside :
    (source : List ℕ) (i line : ℕ)
    → i ≤ length source
    → Inside source i (d_lex_get_name source i line)
unfolding d_lex_get_name
name-Inside source i line le =
    let (c, e) = byte_at_lem source i le in
    elim (Bool-cases (d_lex_is_alpha c || c == 95)) [
      | inr none_ ↦
          Inside-eq (bind-some _ _ e (if_true _ _ (ap not none_)))
            (record { lexed = _; returns = refl; onward = omega arith; inside = λ lt. lt })
      | inl first ↦
          let (r, f, h) = name_end_lem (length source) source (suc i) (omega arith) in
          Inside-eq (bind-some _ _ e (if_false _ _ (ap not first) ∙ bind-some _ _ f refl))
            (name_stopped source i line r h)
    ]
