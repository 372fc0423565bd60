-- ===== src/Lex/Texts.antt =====
-- The texts of string literals that src/dlex.c reads.
use mathlib.Core.List.{append-nil}
use mathlib.Core.Path.{ap₂}
use decision.Prelude.{
  ℕ, suc, ◌+◌, ◌≡◌, refl, ap, ◌∙◌, true, ◌||◌, List, [], ◌∷◌, ◌++◌, some, length, ◌==◌, arith,
  length-append,
}
use decision.Lex.{byte_at}
use decision.Lex.Literals.{string_end, escape, build_string, d_lex_get_string_literal}
use decision.Lex.Contents.{byte_at-append, shift, shift_length}
use decision.Lex.Scan.{
  all_plain, literal, before_rest, string_end_plain, string_end_escape, build_plain, build_escape,
  scan_tail, build_tail, literal_lem, not_backslash, shift_text,
}

module _ (before after : List ℕ) (q line : ℕ) (quote : (q == 34 || q == 39) ≡ true) where
  -- A string literal without a backslash, and without its quote inside, is read as it is written,
  -- whatever is around it, and the index is left at the closing quote.
  pub plain_literal_lem :
      (text : List ℕ)
      → all_plain q text ≡ true
      → d_lex_get_string_literal (before ++ q ∷ (text ++ q ∷ after)) (length before) line
        ≡ some (literal text (length before + length text + 1))
  plain_literal_lem text plain =
      literal_lem source i line q (i + length text + 1) (length text + 0) text
        (byte_at-append source before q rest i refl refl) quote scanned built
    where
      rest : List ℕ
      rest = text ++ q ∷ after

      source : List ℕ
      source = before ++ q ∷ rest

      pre : List ℕ
      pre = before ++ q ∷ []

      i : ℕ
      i = length before

      e : source ≡ pre ++ rest
      e = shift source before q rest refl

      at : suc i ≡ length pre
      at = shift_length before q i refl

      k : ℕ
      k = length before + length after + 1

      fuel : length source ≡ length text + suc k
      fuel = omega (arith, length-append before (q ∷ rest), length-append text (q ∷ after))

      scanned :
          string_end (length source) source q (suc i) 0
          ≡ some (some (i + length text + 1, length text + 0))
      scanned =
          ap (λ f. string_end f source q (suc i) 0) fuel
          ∙ scan_tail source pre text after q (suc i) 0 k e at plain (not_backslash q quote)
          ∙ ap₂ (λ j n. some (some (j, n))) (omega arith) (omega arith)

      built : build_string line source i (length text + 0) 0 (suc i) ≡ some (text, [])
      built =
          build_tail line source i pre text (q ∷ after) q 0 (suc i) e at plain
          ∙ ap (λ t. some (t, [])) (append-nil text)

  -- A string literal with one escape that the source knows is read with the character that the
  -- escape stands for, and the index is left at the closing quote.
  pub one_escape_lem :
      (text₁ text₂ : List ℕ) (x b : ℕ)
      → all_plain q text₁ ≡ true
      → all_plain q text₂ ≡ true
      → escape x ≡ some b
      → d_lex_get_string_literal
          (before ++ q ∷ (text₁ ++ 92 ∷ x ∷ (text₂ ++ q ∷ after)))
          (length before)
          line
        ≡ some (literal (text₁ ++ b ∷ text₂) (length before + length text₁ + length text₂ + 3))
  one_escape_lem text₁ text₂ x b plain₁ plain₂ known =
      literal_lem source i line q (i + length text₁ + length text₂ + 3)
        (length text₁ + suc (length text₂ + 0)) (text₁ ++ b ∷ text₂)
        (byte_at-append source before q rest i refl refl) quote scanned built
    where
      tail : List ℕ
      tail = text₂ ++ q ∷ after

      rest : List ℕ
      rest = text₁ ++ 92 ∷ x ∷ tail

      source : List ℕ
      source = before ++ q ∷ rest

      i : ℕ
      i = length before

      pre : List ℕ
      pre = before ++ q ∷ []

      pre₁ : List ℕ
      pre₁ = pre ++ text₁

      pre₂ : List ℕ
      pre₂ = pre₁ ++ 92 ∷ []

      pre₃ : List ℕ
      pre₃ = pre₂ ++ x ∷ []

      e : source ≡ pre ++ rest
      e = shift source before q rest refl

      e₁ : source ≡ pre₁ ++ 92 ∷ x ∷ tail
      e₁ = shift_text source pre text₁ (92 ∷ x ∷ tail) e

      e₂ : source ≡ pre₂ ++ x ∷ tail
      e₂ = shift source pre₁ 92 (x ∷ tail) e₁

      e₃ : source ≡ pre₃ ++ tail
      e₃ = shift source pre₂ x tail e₂

      at : suc i ≡ length pre
      at = shift_length before q i refl

      at₁ : suc i + length text₁ ≡ length pre₁
      at₁ = omega (arith, at, length-append pre text₁)

      at₃ : suc i + length text₁ + 2 ≡ length pre₃
      at₃ = omega (arith, at₁, length-append pre₁ (92 ∷ []), length-append pre₂ (x ∷ []))

      k : ℕ
      k = length before + length after + 2

      fuel : length source ≡ length text₁ + suc (length text₂ + suc k)
      fuel = omega (
        arith,
        length-append before (q ∷ rest),
        length-append text₁ (92 ∷ x ∷ tail),
        length-append text₂ (q ∷ after),
      )

      scanned :
          string_end (length source) source q (suc i) 0
          ≡ some (some (i + length text₁ + length text₂ + 3, length text₁ + suc (length text₂ + 0)))
      scanned =
          ap (λ f. string_end f source q (suc i) 0) fuel
          ∙ string_end_plain (suc (length text₂ + suc k)) source pre text₁ (92 ∷ x ∷ tail) q (suc i)
              0 e at plain₁
          ∙ string_end_escape (length text₂ + suc k) source pre₁ (x ∷ tail) q (suc i + length text₁)
              (0 + length text₁) e₁ at₁
          ∙ scan_tail source pre₃ text₂ after q (suc i + length text₁ + 2) (suc (0 + length text₁))
              k e₃ at₃ plain₂ (not_backslash q quote)
          ∙ ap₂ (λ j n. some (some (j, n))) (omega arith) (omega arith)

      read : byte_at source (0 + length text₁ + i + 2) ≡ some x
      read =
          byte_at-append source pre₂ x tail (0 + length text₁ + i + 2) e₂
            (omega (arith, at₁, length-append pre₁ (92 ∷ [])))

      built :
          build_string line source i (length text₁ + suc (length text₂ + 0)) 0 (suc i)
          ≡ some (text₁ ++ b ∷ text₂, [])
      built =
          build_plain line source i pre text₁ (92 ∷ x ∷ tail) q (suc (length text₂ + 0)) 0 (suc i) e
            at plain₁
          ∙ ap (before_rest text₁) (
              build_escape line source i pre₁ (x ∷ tail) (length text₂ + 0) (0 + length text₁)
                (suc i + length text₁) x b e₁ at₁ read known
              ∙ ap (before_rest (b ∷ [])) (
                  build_tail line source i pre₃ text₂ (q ∷ after) q (suc (0 + length text₁))
                    (suc i + length text₁ + 2) e₃ at₃ plain₂))
          ∙ ap (λ t. some (text₁ ++ b ∷ t, [])) (append-nil text₂)
