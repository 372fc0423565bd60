-- ===== src/Lex/Literals.antt =====
-- String literals and names: `d_lex_get_string_literal` and `d_lex_get_name` of src/dlex.c.
use decision.Prelude.{
  ℕ, zero, suc, ◌+◌, ◌-◌, true, false, not, ◌||◌, List, [], ◌∷◌, ◌++◌, Option, none, some, ◌>>=◌,
  length, take, drop, ltb, ◌==◌, if◌then◌else◌,
}
use decision.Lex.{
  LexError, no_quote, no_string_end, unknown_escape, no_name_start, no_name_end, byte_at,
  d_lex_is_alpha, d_lex_is_name_char, Lexed,
}

-- The loop that finds the closing quote `q` from index `j`: where it is, and the length of the
-- text. The fuel's end and reads outside the source are `none`.
unfoldable pub string_end : ℕ → List ℕ → ℕ → ℕ → ℕ → Option (Option (ℕ × ℕ))
string_end zero source q j len_str = if ltb j (length source) then none else some none
string_end (suc fuel) source q j len_str = elim (ltb j (length source)) [
  | false ↦ some none
  | true ↦ elim (byte_at source j) [
    | none ↦ none
    | some c ↦ elim (c == 92) [
      | true ↦ string_end fuel source q (j + 2) (suc len_str)
      | false ↦ elim (c == q) [
        | true ↦ some (some (j, len_str))
        | false ↦ string_end fuel source q (suc j) (suc len_str)
      ]
    ]
  ]
]

-- The character that an escape stands for; `none` where it is unidentified.
unfoldable pub escape : ℕ → Option ℕ
escape c =
    if c == 39
    then some 39
    else if c == 34
    then some 34
    else if c == 92
    then some 92
    else if c == 110
    then some 10
    else if c == 114
    then some 13
    else if c == 116
    then some 9
    else if c == 98
    then some 8
    else if c == 102
    then some 12
    else if c == 118
    then some 11
    else if c == 48
    then some 0
    else none

-- The byte and the error for an escape.
unfoldable pub escaped : ℕ → ℕ → ℕ × List LexError
escaped line c = elim (escape c) [ some e ↦ (e, []) | none ↦ (92, unknown_escape line ∷ []) ]

-- The loop that builds the text: `left` more bytes, the next one at index `c` of the text and
-- `pos` of the source, for a quote at `old`. An escape is read at `c + old + 2`, as in the source.
unfoldable pub build_string : ℕ → List ℕ → ℕ → ℕ → ℕ → ℕ → Option (List ℕ × List LexError)
build_string line source old zero c pos = some ([], [])
build_string line source old (suc left) c pos = do
  original ← byte_at source pos
  elim (original == 92) [
    | true ↦ (do
      next ← byte_at source (c + old + 2)
      let (byte, errors) = escaped line next
      rest ← build_string line source old left (suc c) (pos + 2)
      some (byte ∷ rest.0, errors ++ rest.1))
    | false ↦ (do
      rest ← build_string line source old left (suc c) (suc pos)
      some (original ∷ rest.0, rest.1))
  ]

-- The text of a literal that is not found.
abbrev pub no_text : ℕ → LexError → Lexed
no_text i e = record { text = none; index = i; errors = e ∷ [] }

unfoldable pub d_lex_get_string_literal : List ℕ → ℕ → ℕ → Option Lexed
d_lex_get_string_literal source i line = do
  q ← byte_at source i
  if not (q == 34 || q == 39) then some (no_text i (no_quote line)) else (do
    end ← string_end (length source) source q (suc i) 0
    elim end [
      | none ↦ some (no_text i (no_string_end line))
      | some (j, len_str) ↦ (do
        built ← build_string line source i len_str 0 (suc i)
        some (record { text = some built.0; index = j; errors = built.1 }))
    ])

-- The loop that finds the end of a name from index `j`; the inner `none` is an end of the source.
unfoldable pub name_end : ℕ → List ℕ → ℕ → Option (Option ℕ)
name_end zero source j = if ltb j (length source) then none else some none
name_end (suc fuel) source j = elim (ltb j (length source)) [
  | false ↦ some none
  | true ↦ elim (byte_at source j) [
    | none ↦ none
    | some c ↦ elim (d_lex_is_name_char c) [
      | true ↦ name_end fuel source (suc j)
      | false ↦ some (some j)
    ]
  ]
]

-- The length of the name, counted by the source, is the distance of its ends.
unfoldable pub d_lex_get_name : List ℕ → ℕ → ℕ → Option Lexed
d_lex_get_name source i line = do
  first ← byte_at source i
  if not (d_lex_is_alpha first || first == 95) then some (no_text i (no_name_start line)) else (do
    end ← name_end (length source) source (suc i)
    elim end [
      | none ↦ some (no_text i (no_name_end line))
      | some j ↦
          some (record { text = some (take (j - i) (drop i source)); index = j - 1; errors = [] })
    ])
