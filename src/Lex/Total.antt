-- ===== src/Lex/Total.antt =====
-- The lexer of src/dlex.c on every source: its reads are inside it, and its tokens fit in the array
-- that it allocates, which has one place for each character.
use decision.Prelude.{
  ℕ, zero, suc, ◌+◌, ◌≤◌, ◌<◌, ◌≡◌, refl, inl, inr, ◌∙◌, Bool, true, false, ◌||◌, List, [], ◌∷◌,
  ◌++◌, Option, none, some, length, ltb, ◌==◌, arith, Bool-cases, bind-some, if_true, if_false,
  ltb→lt, length-append,
}
use decision.Lex.{
  LexType, LexToken, LexError, byte_at, d_lex_is_digit, no_name_start, d_lex_is_alpha,
  unknown_character, string_value,
}
use decision.Lex.Literals.{d_lex_get_name}
use decision.Lex.Stream.{
  Lexer, add_token, plain_token, string_case, name_case, number_case, name_token, symbol, lex_char,
  lex_step, lex_loop, d_lex_create_stream,
}
use decision.Lex.Bounds.{byte_at_lem, string_literal-Inside, name-Inside}
use decision.Lex.Digits.{number-Inside}

-- A round of the loop stays inside the source, does not go back, and adds one token at most.
record Steps (source : List ℕ) (s : Lexer) (r : Option Lexer) : Type 0 where
  next : Lexer
  returns : r ≡ some next
  onward : s.i ≤ next.i
  inside : next.i < length source
  few : length next.tokens ≤ suc (length s.tokens)

Steps-eq :
    {source : List ℕ} {s : Lexer} {r r' : Option Lexer}
    → r ≡ r'
    → Steps source s r'
    → Steps source s r
Steps-eq e h = record {
  next = h.next;
  returns = e ∙ h.returns;
  onward = h.onward;
  inside = h.inside;
  few = h.few;
}

length-add :
    (ts : List LexToken) (token : Option LexToken)
    → length (ts ++ elim token [ none ↦ [] | some t ↦ t ∷ [] ]) ≤ suc (length ts)
length-add ts none = omega (arith, length-append ts [])
length-add ts (some t) = omega (arith, length-append ts (t ∷ []))

add_token-Steps :
    (source : List ℕ) (s : Lexer) (token : Option LexToken) (i : ℕ) (errors : List LexError)
    → s.i ≤ i
    → i < length source
    → Steps source s (some (add_token s token i errors))
add_token-Steps source s token i errors le lt = record {
  next = _;
  returns = refl;
  onward = le;
  inside = lt;
  few = length-add s.tokens token;
}

module _ (source : List ℕ) (s : Lexer) (lt : s.i < length source) where
  string_case-Steps : Steps source s (string_case source s)
  unfolding string_case
  string_case-Steps =
      let h = string_literal-Inside source s.i s.line_num (omega arith) in
      let token : Option LexToken =
        some (record { type = LexType.tk_stringliteral; data_ = string_value h.lexed.text }) in
      Steps-eq (bind-some _ _ h.returns refl)
        (add_token-Steps source s token h.lexed.index h.lexed.errors h.onward (h.inside lt))

  named :
      (text : Option (List ℕ)) (i : ℕ) (errors : List LexError)
      → s.i ≤ i
      → i < length source
      → Steps source s (
          some (elim text [
            | some name ↦ add_token s (some (name_token name)) i errors
            | none ↦ add_token s none i (errors ++ unknown_character s.line_num ∷ [])
          ]))
  named none i errors le l = add_token-Steps source s none i _ le l
  named (some name) i errors le l = add_token-Steps source s (some (name_token name)) i errors le l

  name_case-Steps : Steps source s (name_case source s)
  unfolding name_case
  name_case-Steps =
      let h = name-Inside source s.i s.line_num (omega arith) in
      Steps-eq (bind-some _ _ h.returns refl)
        (named h.lexed.text h.lexed.index h.lexed.errors h.onward (h.inside lt))

  same-Steps : (in_comment : Bool) → Steps source s (some (record s { in_comment = in_comment }))
  same-Steps in_comment = record {
    next = _;
    returns = refl;
    onward = omega arith;
    inside = lt;
    few = omega arith;
  }

  module _ (strtod : List ℕ → ℕ) (c : ℕ) (at : byte_at source s.i ≡ some c) where
    number_case-Steps : Steps source s (number_case strtod source s c)
    unfolding number_case
    number_case-Steps =
        let h = number-Inside strtod s.line_num source s.i c lt at in
        Steps-eq (bind-some _ _ h.returns refl)
          (add_token-Steps source s _ h.number_.index h.number_.errors h.onward h.inside)

    symbol-Steps :
        (t : Option LexType)
        → Steps source s (elim t [
          | some t ↦ some (add_token s (plain_token t) s.i [])
          | none ↦ name_case source s
        ])
    symbol-Steps none = name_case-Steps
    symbol-Steps (some t) = add_token-Steps source s (plain_token t) s.i [] (omega arith) lt

    lex_char-Steps : Steps source s (lex_char strtod source s c)
    unfolding lex_char
    lex_char-Steps = elim (Bool-cases (c == 32 || c == 13)) [
      | inl t ↦ Steps-eq (if_true _ _ t) (same-Steps s.in_comment)
      | inr f ↦ Steps-eq (if_false _ _ f) (elim (Bool-cases (c == 62)) [
        | inl t ↦ Steps-eq (if_true _ _ t) (same-Steps true)
        | inr f ↦
            Steps-eq (if_false _ _ f)
              (elim (Bool-cases (d_lex_is_digit c || c == 45 || c == 43 || c == 46)) [
                | inl t ↦ Steps-eq (if_true _ _ t) number_case-Steps
                | inr f ↦ Steps-eq (if_false _ _ f) (elim (Bool-cases (c == 34 || c == 39)) [
                  | inl t ↦ Steps-eq (if_true _ _ t) string_case-Steps
                  | inr f ↦ Steps-eq (if_false _ _ f) (symbol-Steps (symbol c))
                ])
              ])
      ])
    ]

  lex_step-Steps : (strtod : List ℕ → ℕ) → Steps source s (lex_step strtod source s)
  unfolding lex_step
  lex_step-Steps strtod =
      let (c, e) = byte_at_lem source s.i (omega arith) in
      Steps-eq (bind-some _ _ e refl) (elim (Bool-cases (c == 10)) [
        | inl t ↦ Steps-eq (if_true _ _ t) (record {
          next = _;
          returns = refl;
          onward = omega arith;
          inside = lt;
          few = length-add s.tokens (plain_token LexType.tk_eosnl);
        })
        | inr f ↦ Steps-eq (if_false _ _ f) (elim (Bool-cases s.in_comment) [
          | inl t ↦ Steps-eq (if_true _ _ t) (same-Steps s.in_comment)
          | inr f ↦ Steps-eq (if_false _ _ f) (lex_char-Steps strtod c e)
        ])
      ])

-- The loop ends within a round for each character left, and has a token at most for each character.
lex_loop_lem :
    (strtod : List ℕ → ℕ) (source : List ℕ) (fuel : ℕ) (s : Lexer)
    → s.i < length source
    → length source ≤ fuel + s.i
    → length s.tokens ≤ s.i
    → (s' : Lexer) × (lex_loop strtod source fuel s ≡ some s') × (length s'.tokens ≤ length source)
unfolding lex_loop
lex_loop_lem strtod source zero s lt enough few = absurd (omega arith)
lex_loop_lem strtod source (suc fuel) s lt enough few =
    let h = lex_step-Steps source s lt strtod in
    elim (Bool-cases (ltb (suc h.next.i) (length source))) [
      | inr f ↦ (h.next, looped_end h.returns f, omega (arith, h.few, h.inside, h.onward))
      | inl t ↦
          let (s', e, le) =
            lex_loop_lem strtod source fuel (record h.next { i = suc h.next.i })
              (ltb→lt (suc h.next.i) (length source) t) (omega (arith, h.onward))
              (omega (arith, h.few, h.onward)) in
          (s', looped_on h.returns t e, le)
    ]
  where
    looped_end :
        {n : Lexer}
        → lex_step strtod source s ≡ some n
        → ltb (suc n.i) (length source) ≡ false
        → lex_loop strtod source (suc fuel) s ≡ some n
    looped_end e f = ground (arith, e, f)

    looped_on :
        {n s' : Lexer}
        → lex_step strtod source s ≡ some n
        → ltb (suc n.i) (length source) ≡ true
        → lex_loop strtod source fuel (record n { i = suc n.i }) ≡ some s'
        → lex_loop strtod source (suc fuel) s ≡ some s'
    looped_on e t f = ground (arith, e, t, f)

-- The NUL of an empty source is an unidentified character.
create_stream-empty :
    (strtod : List ℕ → ℕ)
    → d_lex_create_stream strtod [] ≡ some ([], no_name_start 1 ∷ unknown_character 1 ∷ [])
unfolding d_lex_create_stream lex_loop lex_step lex_char byte_at d_lex_is_digit symbol name_case
    d_lex_get_name d_lex_is_alpha
create_stream-empty strtod = refl

-- Every source, whatever its bytes, has a stream: the lexer ends, reads nothing past the NUL, and
-- makes no more tokens than the source has characters, which is the size of its array.
pub d_lex_create_stream_lem :
    (strtod : List ℕ → ℕ) (source : List ℕ)
    → (r : List LexToken × List LexError) × (d_lex_create_stream strtod source ≡ some r)
      × (length r.0 ≤ length source)
unfolding d_lex_create_stream
d_lex_create_stream_lem strtod [] = (_, create_stream-empty strtod, omega arith)
d_lex_create_stream_lem strtod (c ∷ cs) =
    let (s, e, le) =
      lex_loop_lem strtod (c ∷ cs) (suc (length (c ∷ cs)))
        (record { i = 0; line_num = 1; in_comment = false; tokens = []; errors = [] }) (omega arith)
        (omega arith) (omega arith) in
    ((s.tokens, s.errors), bind-some _ _ e refl, le)
