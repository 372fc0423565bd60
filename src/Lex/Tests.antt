-- ===== src/Lex/Tests.antt =====
-- Sources with their tokens, and the theorems about the lexer at concrete sources.
use decision.Prelude.{
  ℕ, ◌≤◌, ◌≡◌, refl, Option, List, [], ◌∷◌, some, true, length, add_word, sub_word, negate,
}
use decision.Lex.{
  LexType, LexToken, LexError, integer_value, boolean_value, string_value, byte_at, d_lex_is_alpha,
  d_lex_is_digit, d_lex_is_name_char,
}
use decision.Lex.Literals.{
  string_end, escape, escaped, build_string, d_lex_get_string_literal, name_end, d_lex_get_name,
}
use decision.Lex.Numbers.{
  digit_value, digits, positive, strtol, strtol_hex, many, number_end, decimal, number,
}
use decision.Lex.Stream.{
  same_text, name_token, symbol, string_case, name_case, number_case, lex_char, lex_step, lex_loop,
  d_lex_create_stream,
}
use decision.Lex.Contents.{d_lex_get_name_lem}
use decision.Lex.Scan.{literal}
use decision.Lex.Texts.{plain_literal_lem, one_escape_lem}
use decision.Lex.Total.{d_lex_create_stream_lem}

abbrev no_floats : List ℕ → ℕ
no_floats text = 0

lexed : List ℕ → Option (List LexToken × List LexError)
unfolding d_lex_create_stream lex_loop lex_step lex_char number_case name_case string_case symbol
    name_token same_text number decimal number_end many strtol_hex strtol positive digits
    digit_value d_lex_get_name name_end d_lex_get_string_literal build_string escaped escape
    string_end d_lex_is_name_char d_lex_is_digit d_lex_is_alpha byte_at add_word sub_word negate
lexed source = d_lex_create_stream no_floats source

-- `true;0x1F` and a new line.
numbers :
    lexed (116 ∷ 114 ∷ 117 ∷ 101 ∷ 59 ∷ 48 ∷ 120 ∷ 49 ∷ 70 ∷ 10 ∷ [])
    ≡ some (
      record { type = LexType.tk_booleanliteral; data_ = boolean_value true }
          ∷ record { type = LexType.tk_eossc; data_ = integer_value 0 }
          ∷ record { type = LexType.tk_integerliteral; data_ = integer_value 31 }
          ∷ record { type = LexType.tk_eosnl; data_ = integer_value 0 }
          ∷ [],
      [],
    )
unfolding lexed
numbers = refl

-- At the end of the source the scan of `12` leaves its index at the 1, so that the 2 is a literal
-- of its own.
number_at_end :
    lexed (49 ∷ 50 ∷ [])
    ≡ some (
      record { type = LexType.tk_integerliteral; data_ = integer_value 12 }
          ∷ record { type = LexType.tk_integerliteral; data_ = integer_value 2 }
          ∷ [],
      [],
    )
unfolding lexed
number_at_end = refl

-- The second escape of `"\n\t"` is read at the backslash before the t.
second_escape :
    lexed (34 ∷ 92 ∷ 110 ∷ 92 ∷ 116 ∷ 34 ∷ [])
    ≡ some (
      record { type = LexType.tk_stringliteral; data_ = string_value (some (10 ∷ 92 ∷ [])) } ∷ [],
      [],
    )
unfolding lexed
second_escape = refl

d_lex_create_stream_lem_example :
    (r : List LexToken × List LexError) × (d_lex_create_stream no_floats (49 ∷ 59 ∷ []) ≡ some r)
    × (length r.0 ≤ 2)
d_lex_create_stream_lem_example = d_lex_create_stream_lem no_floats (49 ∷ 59 ∷ [])

-- The name `a_1` before a space, in front of which a `(` stands.
d_lex_get_name_lem_example :
    d_lex_get_name (40 ∷ 97 ∷ 95 ∷ 49 ∷ 32 ∷ []) 1 1
    ≡ some (record { text = some (97 ∷ 95 ∷ 49 ∷ []); index = 3; errors = [] })
unfolding lexed
d_lex_get_name_lem_example = d_lex_get_name_lem (40 ∷ []) (95 ∷ 49 ∷ []) [] 97 32 1 refl refl refl

plain_literal_lem_example :
    d_lex_get_string_literal (40 ∷ 34 ∷ 104 ∷ 105 ∷ 34 ∷ []) 1 1 ≡ some (literal (104 ∷ 105 ∷ []) 4)
plain_literal_lem_example = plain_literal_lem (40 ∷ []) [] 34 1 refl (104 ∷ 105 ∷ []) refl

-- `"h\ni"`.
one_escape_lem_example :
    d_lex_get_string_literal (34 ∷ 104 ∷ 92 ∷ 110 ∷ 105 ∷ 34 ∷ []) 0 1
    ≡ some (literal (104 ∷ 10 ∷ 105 ∷ []) 5)
unfolding lexed
one_escape_lem_example = one_escape_lem [] [] 34 1 refl (104 ∷ []) (105 ∷ []) 110 10 refl refl refl
