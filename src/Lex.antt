-- ===== src/Lex.antt =====
-- Lexical analysis: src/dlex.h and src/dlex.c. A source is the list of the bytes before its NUL, so
-- that a read at its length is that NUL, and one past it is undefined behaviour, `none`.
pub mod Literals
pub mod Numbers
pub mod Stream
pub mod Bounds
pub mod Digits
pub mod Total
pub mod Contents
pub mod Scan
pub mod Texts
mod Tests
use decision.Prelude.{
  ℕ, zero, suc, Bool, true, false, ◌&&◌, ◌||◌, List, [], ◌∷◌, Option, none, some, length, get_elem?,
  ltb, leb, ◌==◌, if◌then◌else◌,
}

-- The tokens, in the order of the source.
pub data LexType : Type 0 where
  tk_name tk_executiontype tk_integertype tk_floattype tk_stringtype tk_booleantype : LexType
  tk_integerliteral tk_floatliteral tk_stringliteral tk_booleanliteral : LexType
  tk_identifier tk_output tk_line tk_comma tk_or tk_eosnl tk_eossc : LexType
  tk_lbracket tk_lproperty tk_larray tk_rbracket tk_rproperty tk_rarray : LexType

-- The union, with the member that was stored last. The name of a keyword is freed, and the pointer
-- to it stays behind.
pub data LexData : Type 0 where
  integer_value float_value : ℕ → LexData
  boolean_value : Bool → LexData
  string_value : Option (List ℕ) → LexData
  freed : LexData

pub record LexToken : Type 0 where
  pub type : LexType
  pub data_ : LexData

-- What `d_error_compiler_push` is told, with the line.
pub data LexError : Type 0 where
  no_quote no_string_end unknown_escape no_name_start no_name_end : ℕ → LexError
  many_dots lone_sign unknown_character : ℕ → LexError

unfoldable pub byte_at : List ℕ → ℕ → Option ℕ
byte_at source i = if i == length source then some 0 else get_elem? source i

unfoldable pub d_lex_is_alpha : ℕ → Bool
d_lex_is_alpha c = leb 65 c && leb c 90 || leb 97 c && leb c 122

unfoldable pub d_lex_is_digit : ℕ → Bool
d_lex_is_digit c = leb 48 c && leb c 57

unfoldable pub d_lex_is_hex : ℕ → Bool
d_lex_is_hex c = d_lex_is_digit c || leb 65 c && leb c 70 || leb 97 c && leb c 102

unfoldable pub d_lex_is_octal : ℕ → Bool
d_lex_is_octal c = leb 48 c && leb c 55

unfoldable pub d_lex_is_name_char : ℕ → Bool
d_lex_is_name_char c = d_lex_is_alpha c || d_lex_is_digit c || c == 95

-- What a function of the lexer makes of the source from index `i`: the text, or NULL, the index
-- that it leaves in `*i`, and its errors.
pub record Lexed : Type 0 where
  pub text : Option (List ℕ)
  pub index : ℕ
  pub errors : List LexError
