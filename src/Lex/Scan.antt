-- ===== src/Lex/Scan.antt =====
-- The two loops of `d_lex_get_string_literal` in src/dlex.c on plain text and on escapes.
use mathlib.Core.List.{append_assoc}
use decision.Prelude.{
  ℕ, suc, ◌+◌, ◌≡◌, refl, sym, ap, ◌∙◌, Bool, true, false, not, ◌||◌, ◌&&◌, List, [], ◌∷◌, ◌++◌,
  Option, none, some, ◌>>=◌, length, ◌==◌, arith, bind-some, if_false, length-append, ap₃,
}
use decision.Lex.{LexError, unknown_escape, byte_at, Lexed}
use decision.Lex.Literals.{string_end, escape, escaped, build_string, d_lex_get_string_literal}
use decision.Lex.Contents.{byte_at-append, in_source, shift, shift_length}

-- No character is a backslash or the quote.
abbrev pub all_plain : ℕ → List ℕ → Bool
all_plain q [] = true
all_plain q (c ∷ cs) = not (c == 92) && not (c == q) && all_plain q cs

string_end_char :
    (fuel : ℕ) (source pre post : List ℕ) (c q j n : ℕ)
    → source ≡ pre ++ c ∷ post
    → j ≡ length pre
    → (c == 92) ≡ false
    → (c == q) ≡ false
    → string_end (suc fuel) source q j n ≡ string_end fuel source q (suc j) (suc n)
unfolding string_end
string_end_char fuel source pre post c q j n e at f g =
    ground
      (arith, in_source source pre c post j e at, byte_at-append source pre c post j e at, f, g)

pub string_end_plain :
    (fuel : ℕ) (source pre text post : List ℕ) (q j n : ℕ)
    → source ≡ pre ++ (text ++ post)
    → j ≡ length pre
    → all_plain q text ≡ true
    → string_end (length text + fuel) source q j n
      ≡ string_end fuel source q (j + length text) (n + length text)
unfolding string_end
string_end_plain fuel source pre [] post q j n e at plain =
    ap₃ (λ f k m. string_end f source q k m) (omega arith) (omega arith) (omega arith)
string_end_plain fuel source pre (c ∷ cs) post q j n e at plain =
    let step =
      string_end_plain fuel source (pre ++ c ∷ []) cs post q (suc j) (suc n)
        (shift source pre c (cs ++ post) e) (shift_length pre c j at) (ground (arith, plain)) in
    ap (λ f. string_end f source q j n) {y = suc (length cs + fuel)} (omega arith)
    ∙ string_end_char (length cs + fuel) source pre (cs ++ post) c q j n e at
        (ground (arith, plain)) (ground (arith, plain))
    ∙ step
    ∙ ap₃ (λ f k m. string_end f source q k m) refl (omega arith) (omega arith)

string_end_quote :
    (fuel : ℕ) (source pre post : List ℕ) (q j n : ℕ)
    → source ≡ pre ++ q ∷ post
    → j ≡ length pre
    → (q == 92) ≡ false
    → string_end (suc fuel) source q j n ≡ some (some (j, n))
unfolding string_end
string_end_quote fuel source pre post q j n e at quote =
    ground
      (arith, in_source source pre q post j e at, byte_at-append source pre q post j e at, quote)

-- The text in front of what the rest of the literal gives.
abbrev pub before_rest : List ℕ → Option (List ℕ × List LexError) → Option (List ℕ × List LexError)
before_rest text none = none
before_rest text (some r) = some (text ++ r.0, r.1)

before_rest-nil : (r : Option (List ℕ × List LexError)) → r ≡ before_rest [] r
before_rest-nil none = refl
before_rest-nil (some r) = refl

before_rest-cons :
    (x : ℕ) (xs : List ℕ) (r : Option (List ℕ × List LexError))
    → (do rest ← before_rest xs r; some (x ∷ rest.0, rest.1)) ≡ before_rest (x ∷ xs) r
before_rest-cons x xs none = refl
before_rest-cons x xs (some r) = refl

build-nil :
    (line : ℕ) (source : List ℕ) (old c j : ℕ) → build_string line source old 0 c j ≡ some ([], [])
unfolding build_string
build-nil line source old c j = refl

build_char :
    (line : ℕ) (source : List ℕ) (old : ℕ) (pre post : List ℕ) (x left c j : ℕ)
    → source ≡ pre ++ x ∷ post
    → j ≡ length pre
    → (x == 92) ≡ false
    → build_string line source old (suc left) c j
      ≡ (do rest ← build_string line source old left (suc c) (suc j); some (x ∷ rest.0, rest.1))
unfolding build_string
build_char line source old pre post x left c j e at f =
    bind-some _ _ (byte_at-append source pre x post j e at) (simp (f))

pub build_plain :
    (line : ℕ) (source : List ℕ) (old : ℕ) (pre text post : List ℕ) (q left c j : ℕ)
    → source ≡ pre ++ (text ++ post)
    → j ≡ length pre
    → all_plain q text ≡ true
    → build_string line source old (length text + left) c j
      ≡ before_rest text (build_string line source old left (c + length text) (j + length text))
unfolding build_string
build_plain line source old pre [] post q left c j e at plain =
    before_rest-nil _
    ∙ ap₃ (λ l k m. before_rest [] (build_string line source old l k m)) (omega arith) (omega arith)
        (omega arith)
build_plain line source old pre (x ∷ xs) post q left c j e at plain =
    let step =
      build_plain line source old (pre ++ x ∷ []) xs post q left (suc c) (suc j)
        (shift source pre x (xs ++ post) e) (shift_length pre x j at) (ground (arith, plain)) in
    ap (λ l. build_string line source old l c j) {y = suc (length xs + left)} (omega arith)
    ∙ build_char line source old pre (xs ++ post) x (length xs + left) c j e at
        (ground (arith, plain))
    ∙ ap (λ r. r >>= λ rest. some (x ∷ rest.0, rest.1)) step
    ∙ before_rest-cons x xs _
    ∙ ap₃ (λ l k m. before_rest (x ∷ xs) (build_string line source old l k m)) refl (omega arith)
        (omega arith)

pub shift_text :
    (source pre text post : List ℕ) → source ≡ pre ++ (text ++ post) → source ≡ pre ++ text ++ post
shift_text source pre text post e = e ∙ sym (append_assoc pre text post)

pub string_end_escape :
    (fuel : ℕ) (source pre post : List ℕ) (q j n : ℕ)
    → source ≡ pre ++ 92 ∷ post
    → j ≡ length pre
    → string_end (suc fuel) source q j n ≡ string_end fuel source q (j + 2) (suc n)
unfolding string_end
string_end_escape fuel source pre post q j n e at =
    ground (arith, in_source source pre 92 post j e at, byte_at-append source pre 92 post j e at)

escaped-some : (line next b : ℕ) → escape next ≡ some b → escaped line next ≡ (b, [])
unfolding escaped
escaped-some line next b e =
    ap (λ o. elim o [ some x ↦ (x, []) | none ↦ (92, unknown_escape line ∷ []) ]) e

before_rest-one :
    (b : ℕ) (r : Option (List ℕ × List LexError))
    → (do rest ← r; some (b ∷ rest.0, [] ++ rest.1)) ≡ before_rest (b ∷ []) r
before_rest-one b none = refl
before_rest-one b (some r) = refl

pub build_escape :
    (line : ℕ) (source : List ℕ) (old : ℕ) (pre post : List ℕ) (left c j next b : ℕ)
    → source ≡ pre ++ 92 ∷ post
    → j ≡ length pre
    → byte_at source (c + old + 2) ≡ some next
    → escape next ≡ some b
    → build_string line source old (suc left) c j
      ≡ before_rest (b ∷ []) (build_string line source old left (suc c) (j + 2))
unfolding build_string escaped
build_escape line source old pre post left c j next b e at read known =
    bind-some _ _ (byte_at-append source pre 92 post j e at) (
      bind-some _ _ read (
        ap
          (λ x. build_string line source old left (suc c) (j + 2) >>= λ rest.
            some (x.0 ∷ rest.0, x.1 ++ rest.1))
          (escaped-some line next b known)
        ∙ before_rest-one b _))

-- A plain rest up to the closing quote.
pub scan_tail :
    (source pre text after : List ℕ) (q j n k : ℕ)
    → source ≡ pre ++ (text ++ q ∷ after)
    → j ≡ length pre
    → all_plain q text ≡ true
    → (q == 92) ≡ false
    → string_end (length text + suc k) source q j n ≡ some (some (j + length text, n + length text))
scan_tail source pre text after q j n k e at plain quote =
    string_end_plain (suc k) source pre text (q ∷ after) q j n e at plain
    ∙ string_end_quote k source (pre ++ text) after q (j + length text) (n + length text)
        (shift_text source pre text (q ∷ after) e) (omega (arith, length-append pre text)) quote

pub build_tail :
    (line : ℕ) (source : List ℕ) (old : ℕ) (pre text post : List ℕ) (q c j : ℕ)
    → source ≡ pre ++ (text ++ post)
    → j ≡ length pre
    → all_plain q text ≡ true
    → build_string line source old (length text + 0) c j ≡ some (text ++ [], [])
build_tail line source old pre text post q c j e at plain =
    build_plain line source old pre text post q 0 c j e at plain
    ∙ ap (before_rest text) (build-nil line source old (c + length text) (j + length text))

abbrev pub literal : List ℕ → ℕ → Lexed
literal text index = record { text = some text; index = index; errors = [] }

-- A literal whose scan and text are known.
pub literal_lem :
    (source : List ℕ) (i line q j n : ℕ) (text : List ℕ)
    → byte_at source i ≡ some q
    → (q == 34 || q == 39) ≡ true
    → string_end (length source) source q (suc i) 0 ≡ some (some (j, n))
    → build_string line source i n 0 (suc i) ≡ some (text, [])
    → d_lex_get_string_literal source i line ≡ some (literal text j)
unfolding d_lex_get_string_literal
literal_lem source i line q j n text e quote scan build =
    bind-some _ _ e (if_false _ _ (ap not quote) ∙ bind-some _ _ scan (bind-some _ _ build refl))

pub not_backslash : (q : ℕ) → (q == 34 || q == 39) ≡ true → (q == 92) ≡ false
not_backslash q e = ground (arith, e)
