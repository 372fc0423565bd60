-- ===== src/Lex/Stream.antt =====
-- The stream of tokens: `d_lex_create_stream` of src/dlex.c. The C library's `strtod` is a
-- parameter, which gives the pattern of a float.
use decision.Prelude.{
  ℕ, zero, suc, ◌+◌, Bool, true, false, List, [], ◌∷◌, ◌++◌, Option, none, some, ◌>>=◌, length, ltb,
  ◌==◌, ◌&&◌, ◌||◌, if◌then◌else◌,
}
use decision.Lex.{
  LexType, integer_value, boolean_value, string_value, freed, LexToken, LexError, unknown_character,
  byte_at, d_lex_is_digit,
}
use decision.Lex.Literals.{d_lex_get_string_literal, d_lex_get_name}
use decision.Lex.Numbers.{number}

-- The index and the line in the source, the tokens and the errors so far.
pub record Lexer : Type 0 where
  pub i : ℕ
  pub line_num : ℕ
  pub in_comment : Bool
  pub tokens : List LexToken
  pub errors : List LexError

-- `strcmp(a, b) == 0`.
unfoldable pub same_text : List ℕ → List ℕ → Bool
same_text [] [] = true
same_text (a ∷ as_) (b ∷ bs) = a == b && same_text as_ bs
same_text _ _ = false

-- The token of a name: a keyword, a Boolean or a name.
unfoldable pub name_token : List ℕ → LexToken
name_token name =
    -- Execution
    if same_text name (69 ∷ 120 ∷ 101 ∷ 99 ∷ 117 ∷ 116 ∷ 105 ∷ 111 ∷ 110 ∷ [])
    then record { type = LexType.tk_executiontype; data_ = freed }
    -- Integer
    else if same_text name (73 ∷ 110 ∷ 116 ∷ 101 ∷ 103 ∷ 101 ∷ 114 ∷ [])
    then record { type = LexType.tk_integertype; data_ = freed }
    -- Float
    else if same_text name (70 ∷ 108 ∷ 111 ∷ 97 ∷ 116 ∷ [])
    then record { type = LexType.tk_floattype; data_ = freed }
    -- String
    else if same_text name (83 ∷ 116 ∷ 114 ∷ 105 ∷ 110 ∷ 103 ∷ [])
    then record { type = LexType.tk_stringtype; data_ = freed }
    -- Boolean
    else if same_text name (66 ∷ 111 ∷ 111 ∷ 108 ∷ 101 ∷ 97 ∷ 110 ∷ [])
    then record { type = LexType.tk_booleantype; data_ = freed }
    -- true
    else if same_text name (116 ∷ 114 ∷ 117 ∷ 101 ∷ [])
    then record { type = LexType.tk_booleanliteral; data_ = boolean_value true }
    -- false
    else if same_text name (102 ∷ 97 ∷ 108 ∷ 115 ∷ 101 ∷ [])
    then record { type = LexType.tk_booleanliteral; data_ = boolean_value false }
    else record { type = LexType.tk_name; data_ = string_value (some name) }

-- The tokens of one character.
unfoldable pub symbol : ℕ → Option LexType
symbol c =
    if c == 126
    then some LexType.tk_output
    else if c == 35
    then some LexType.tk_line
    else if c == 44
    then some LexType.tk_comma
    else if c == 124
    then some LexType.tk_or
    else if c == 59
    then some LexType.tk_eossc
    else if c == 40
    then some LexType.tk_lbracket
    else if c == 91
    then some LexType.tk_lproperty
    else if c == 123
    then some LexType.tk_larray
    else if c == 41
    then some LexType.tk_rbracket
    else if c == 93
    then some LexType.tk_rproperty
    else if c == 125
    then some LexType.tk_rarray
    else none

-- `ADD_TOKEN` of a type and data; `none` is the type -1.
abbrev pub add_token : Lexer → Option LexToken → ℕ → List LexError → Lexer
add_token s token i errors = record s {
  i = i;
  tokens = s.tokens ++ elim token [ none ↦ [] | some t ↦ t ∷ [] ];
  errors = s.errors ++ errors;
}

abbrev pub plain_token : LexType → Option LexToken
plain_token t = some (record { type = t; data_ = integer_value 0 })

-- The case of a quote.
unfoldable pub string_case : List ℕ → Lexer → Option Lexer
string_case source s = do
  lexed ← d_lex_get_string_literal source s.i s.line_num
  let token : LexToken = record { type = LexType.tk_stringliteral; data_ = string_value lexed.text }
  some (add_token s (some token) lexed.index lexed.errors)

-- The default case: a name, a keyword or a Boolean, or an unidentified character.
unfoldable pub name_case : List ℕ → Lexer → Option Lexer
name_case source s = do
  lexed ← d_lex_get_name source s.i s.line_num
  some (elim (lexed.text) [
    | some name ↦ add_token s (some (name_token name)) lexed.index lexed.errors
    | none ↦ add_token s none lexed.index (lexed.errors ++ unknown_character s.line_num ∷ [])
  ])

module _ (strtod : List ℕ → ℕ) (source : List ℕ) where
  -- The case of a digit, a sign or a dot.
  unfoldable pub number_case : Lexer → ℕ → Option Lexer
  number_case s c = do
    n ← number strtod s.line_num source s.i c
    let token : Option LexToken = elim (n.token) [
      | none ↦ none
      | some t ↦ some (record { type = t.0; data_ = t.1 })
    ]
    some (add_token s token n.index n.errors)

  -- The switch, outside a comment, on the character `c` at the index.
  unfoldable pub lex_char : Lexer → ℕ → Option Lexer
  lex_char s c =
      if c == 32 || c == 13
      then some s
      else if c == 62
      then some (record s { in_comment = true })
      else if d_lex_is_digit c || c == 45 || c == 43 || c == 46
      then number_case s c
      else if c == 34 || c == 39
      then string_case source s
      else (elim (symbol c) [
        | some t ↦ some (add_token s (plain_token t) s.i [])
        | none ↦ name_case source s
      ])

  -- The body of the loop.
  unfoldable pub lex_step : Lexer → Option Lexer
  lex_step s = do
    c ← byte_at source s.i
    if c == 10
        then some (
            add_token (record s { line_num = s.line_num + 1; in_comment = false })
              (plain_token LexType.tk_eosnl) s.i [])
        else if s.in_comment
        then some s
        else lex_char s c

  -- The loop, on fuel; `none` also where it runs out.
  unfoldable pub lex_loop : ℕ → Lexer → Option Lexer
  lex_loop zero s = none
  lex_loop (suc fuel) s = elim (lex_step s) [
    | none ↦ none
    | some s₁ ↦ elim (ltb (suc s₁.i) (length source)) [
      | true ↦ lex_loop fuel (record s₁ { i = suc s₁.i })
      | false ↦ some s₁
    ]
  ]

  -- The tokens and the errors of the source. One round for each character is enough, and one for
  -- the NUL of an empty source.
  unfoldable pub d_lex_create_stream : Option (List LexToken × List LexError)
  d_lex_create_stream = do
    s ←
        lex_loop (suc (length source))
          (record { i = 0; line_num = 1; in_comment = false; tokens = []; errors = [] })
    some (s.tokens, s.errors)
