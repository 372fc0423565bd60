-- ===== src/Lex/Numbers.antt =====
-- Number literals in `d_lex_create_stream` of src/dlex.c, with the C library's `strtol`, which the
-- source calls with the bases 8, 10 and 0 (that is 16 here, after `0x`).
use decision.Prelude.{
  ℕ, zero, suc, ◌+◌, ◌-◌, ◌*◌, ◌%◌, Bool, true, false, ◌&&◌, ◌||◌, List, [], ◌∷◌, ◌++◌, Option,
  none, some, ◌>>=◌, length, drop, ltb, leb, ◌==◌, if◌then◌else◌, int_min, negate,
}
use decision.Lex.{
  LexType, tk_integerliteral, tk_floatliteral, LexData, integer_value, float_value, LexError,
  many_dots, lone_sign, byte_at, d_lex_is_digit,
}

-- The value of a character as a digit, or 36 where it is none.
unfoldable pub digit_value : ℕ → ℕ
digit_value c =
    if leb 48 c && leb c 57
    then c - 48
    else if leb 65 c && leb c 90
    then c - 55
    else if leb 97 c && leb c 122
    then c - 87
    else 36

-- The value and the number of the digits of a base at the head.
unfoldable pub digits : ℕ → ℕ → List ℕ → ℕ × ℕ
digits base acc [] = (acc, 0)
digits base acc (c ∷ cs) = elim (ltb (digit_value c) base) [
  | true ↦ (let rest = digits base (acc * base + digit_value c) cs in (rest.0, suc rest.1))
  | false ↦ (acc, 0)
]

-- `strtol` in a base, without space: it stops at LONG_MAX and LONG_MIN. The sign counts.
unfoldable pub positive : ℕ → ℕ
positive n = if ltb n int_min then n else int_min - 1

unfoldable pub strtol : ℕ → List ℕ → ℕ × ℕ
strtol base [] = (0, 0)
strtol base (c ∷ cs) =
    let rest = digits base 0 cs in
    if c == 45
    then (if rest.1 == 0
        then (0, 0)
        else (negate (if ltb rest.0 int_min then rest.0 else int_min), suc rest.1))
    else if c == 43
    then (if rest.1 == 0 then (0, 0) else (positive rest.0, suc rest.1))
    else (let all = digits base 0 (c ∷ cs) in (positive all.0, all.1))

-- `strtol` with base 0 on a text that starts with `0x`: without a digit after it, only the `0`.
unfoldable pub strtol_hex : List ℕ → ℕ × ℕ
strtol_hex cs =
    let rest = digits 16 0 (drop 2 cs) in
    if rest.1 == 0 then (0, 1) else (positive rest.0, rest.1 + 2)

-- What a number literal gives: a token, unless it has too many dots, the last index, and errors.
pub record Number : Type 0 where
  pub token : Option (LexType × LexData)
  pub index : ℕ
  pub errors : List LexError

-- What the scan of a decimal number gives: `end`, `numDots`, and the errors.
pub record Scanned : Type 0 where
  pub end : ℕ
  pub num_dots : ℕ
  pub errors : List LexError

-- `++numDots > 1` for a `char`, which is signed and wraps around.
unfoldable pub many : ℕ → Bool
many n = ltb 1 n && ltb n 128

-- The loop over the digits from index `j`; `end` stays where it was when the source ends first.
unfoldable pub number_end : ℕ → ℕ → List ℕ → ℕ → ℕ → ℕ → Option Scanned
number_end zero line source end j num_dots =
    if ltb j (length source)
    then none
    else some (record { end = end; num_dots = num_dots; errors = [] })
number_end (suc fuel) line source end j num_dots = elim (ltb j (length source)) [
  | false ↦ some (record { end = end; num_dots = num_dots; errors = [] })
  | true ↦ elim (byte_at source j) [
    | none ↦ none
    | some c ↦ elim (d_lex_is_digit c) [
      | true ↦ number_end fuel line source end (suc j) num_dots
      | false ↦ elim (c == 46) [
        | false ↦ some (record { end = j - 1; num_dots = num_dots; errors = [] })
        | true ↦ (do
          let n = (num_dots + 1) % 256
          rest ← number_end fuel line source end (suc j) n
          some (record rest {
            errors = (if many n then many_dots line ∷ [] else []) ++ rest.errors;
          }))
      ]
    ]
  ]
]

module _ (strtod : List ℕ → ℕ) where
  -- The literal is an integer or a float by the number of its dots.
  unfoldable pub decimal : ℕ → List ℕ → ℕ → ℕ → Option Number
  decimal line source i c = do
    s ← number_end (length source) line source i (suc i) (if c == 46 then 1 else 0)
    let sign = (if (c == 43 || c == 45) && s.end == i then lone_sign line ∷ [] else [])
    some (record {
      token =
          if s.num_dots == 1
          then some (tk_floatliteral, float_value (strtod (drop i source)))
          else if s.num_dots == 0
          then some (tk_integerliteral, integer_value ((strtol 10 (drop i source)).0))
          else none;
      index = s.end;
      errors = s.errors ++ sign;
    })

  abbrev pub prefixed : ℕ → ℕ × ℕ → Number
  prefixed i r = record {
    token = some (tk_integerliteral, integer_value r.0);
    index = i + r.1 - 1;
    errors = [];
  }

  -- The case of a digit, a sign or a dot: `0x` is hexadecimal, and another `0` without a dot octal.
  unfoldable pub number : ℕ → List ℕ → ℕ → ℕ → Option Number
  number line source i c = elim (c == 48) [
    | false ↦ decimal line source i c
    | true ↦ (do
      next ← byte_at source (suc i)
      if next == 46
          then decimal line source i c
          else if next == 120
          then some (prefixed i (strtol_hex (drop i source)))
          else some (prefixed i (strtol 8 (drop i source))))
  ]
