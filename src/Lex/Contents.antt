-- ===== src/Lex/Contents.antt =====
-- What the lexer of src/dlex.c reads: the texts of names and of string literals.
use mathlib.Core.List.{append_assoc}
use mathlib.Core.Path.{ap₂}
use decision.Prelude.{
  ℕ, zero, suc, ◌+◌, ◌-◌, ◌<◌, ◌≡◌, refl, sym, ap, ◌∙◌, Bool, true, false, not, ◌||◌, ◌&&◌, List,
  [], ◌∷◌, ◌++◌, some, length, get_elem?, take, drop, ltb, ◌==◌, arith, bind-some, if_false, lt→ltb,
  length-append, get_elem?-append, take-append, drop-append,
}
use decision.Lex.{byte_at, d_lex_is_alpha, d_lex_is_name_char}
use decision.Lex.Literals.{name_end, d_lex_get_name}

-- The byte of a source after a text.
pub byte_at-append :
    (source pre : List ℕ) (c : ℕ) (post : List ℕ) (j : ℕ)
    → source ≡ pre ++ c ∷ post
    → j ≡ length pre
    → byte_at source j ≡ some c
unfolding byte_at
byte_at-append source pre c post j e at =
    if_false {b = j == length source} _ _
      (ground (arith, ap length e, length-append pre (c ∷ post)))
    ∙ ap (λ s. get_elem? s j) e
    ∙ get_elem?-append j pre c post at

pub in_source :
    (source pre : List ℕ) (c : ℕ) (post : List ℕ) (j : ℕ)
    → source ≡ pre ++ c ∷ post
    → j ≡ length pre
    → ltb j (length source) ≡ true
in_source source pre c post j e at =
    lt→ltb j (length source) (omega (arith, ap length e, length-append pre (c ∷ post)))

pub shift :
    (source pre : List ℕ) (c : ℕ) (post : List ℕ)
    → source ≡ pre ++ c ∷ post
    → source ≡ pre ++ c ∷ [] ++ post
shift source pre c post e = e ∙ sym (append_assoc pre (c ∷ []) post)

pub shift_length : (pre : List ℕ) (c j : ℕ) → j ≡ length pre → suc j ≡ length (pre ++ c ∷ [])
shift_length pre c j at = omega (arith, length-append pre (c ∷ []))

-- All characters can stand in a name.
abbrev pub all_name : List ℕ → Bool
all_name [] = true
all_name (c ∷ cs) = d_lex_is_name_char c && all_name cs

name_end_lem :
    (fuel : ℕ) (source pre name : List ℕ) (stop : ℕ) (post : List ℕ) (j : ℕ)
    → source ≡ pre ++ (name ++ stop ∷ post)
    → j ≡ length pre
    → all_name name ≡ true
    → d_lex_is_name_char stop ≡ false
    → length name < fuel
    → name_end fuel source j ≡ some (some (j + length name))
unfolding name_end
name_end_lem zero source pre name stop post j e at chars end lt = absurd (omega arith)
name_end_lem (suc fuel) source pre [] stop post j e at chars end lt =
    ground (
      arith,
      in_source source pre stop post j e at,
      byte_at-append source pre stop post j e at,
      end,
    )
name_end_lem (suc fuel) source pre (c ∷ cs) stop post j e at chars end lt = ground (
  arith,
  in_source source pre c (cs ++ stop ∷ post) j e at,
  byte_at-append source pre c (cs ++ stop ∷ post) j e at,
  chars,
  name_end_lem fuel source (pre ++ c ∷ []) cs stop post (suc j)
      (shift source pre c (cs ++ stop ∷ post) e) (shift_length pre c j at) (ground (arith, chars))
      end (omega arith),
)

-- A name that starts with a letter or an underscore is read up to the first character that cannot
-- stand in a name, whatever is around it, and the index is left at its last character.
pub d_lex_get_name_lem :
    (before name after : List ℕ) (first stop line : ℕ)
    → (d_lex_is_alpha first || first == 95) ≡ true
    → all_name name ≡ true
    → d_lex_is_name_char stop ≡ false
    → d_lex_get_name (before ++ first ∷ (name ++ stop ∷ after)) (length before) line
      ≡ some
          (record { text = some (first ∷ name); index = length before + length name; errors = [] })
unfolding d_lex_get_name
d_lex_get_name_lem before name after first stop line start chars end =
    bind-some _ _ (byte_at-append source before first rest (length before) refl refl) (
      if_false _ _ (ap not start)
      ∙ bind-some _ _
          (name_end_lem (length source) source (before ++ first ∷ []) name stop after
            (suc (length before)) (shift source before first rest refl)
            (shift_length before first (length before) refl) chars end
            (omega (arith, length-append before (first ∷ rest), length-append name (stop ∷ after))))
          (ap₂ (λ t i. some (record { text = some t; index = i; errors = [] })) text index))
  where
    rest : List ℕ
    rest = name ++ stop ∷ after

    source : List ℕ
    source = before ++ first ∷ rest

    text :
        take (suc (length before) + length name - length before) (drop (length before) source)
        ≡ first ∷ name
    text =
        ap (take (suc (length before) + length name - length before))
          (drop-append (length before) before (first ∷ rest) refl)
        ∙ take-append _ (first ∷ name) (stop ∷ after) (omega arith)

    index : suc (length before) + length name - 1 ≡ length before + length name
    index = omega arith
