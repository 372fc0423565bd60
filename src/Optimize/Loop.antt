-- ===== src/Optimize/Loop.antt =====
-- The loop of the passes of src/doptimize.c, on a text that is given as its instructions: it ends,
-- and what it leaves is a text of complete instructions that is no longer.
use decision.Prelude.{
  ℕ, zero, suc, ◌+◌, ◌<◌, ◌≡◌, inl, inr, refl, sym, ap, ◌∙◌, subst, Bool, true, false, ◌&&◌, List,
  [], ◌∷◌, ◌++◌, Option, none, some, length, get_elem?, get_elem?-append, leb, arith, Bool-cases,
  le→leb, length-append,
}
use mathlib.Core.Path.{ap₂}
use mathlib.Core.List.{append_assoc, append-nil}
use decision.Vm.Opcode.{DIns, ins_size, decode, byte_of, decode-byte_of}
use decision.Optimize.{Sections}
use decision.Optimize.Encode.{Instruction, encode}
use decision.Optimize.Remove.{encode-append}
use decision.Optimize.Passes.{Change, kept, removed, replaced, pass_loop, run_pass}
use decision.Optimize.Outcome.{
  HasLinks, IsEncoded, Outcome, keeps, removes, replaces, IsSound, IsOptimized, length-snoc,
  length-cons, first-IsComplete,
}

module _ (early : Bool) (change : Sections → ℕ → DIns → Option Change) where
  -- What a round does with the change.
  next : ℕ → Sections → ℕ → DIns → Bool → Option Change → Option (Sections × Bool)
  next fuel s i op optimized o = elim o [
    | none ↦ none
    | some c ↦ elim c [
      | kept ↦ pass_loop early change fuel s (i + ins_size op) optimized
      | removed s' ↦ pass_loop early change fuel s' i true
      | replaced s' op' ↦ pass_loop early change fuel s' (i + ins_size op') true
    ]
  ]

  round :
      (fuel : ℕ) (s : Sections) (before : List Instruction) (x : Instruction)
      (rest : List Instruction) (optimized : Bool)
      → s.text ≡ encode (before ++ x ∷ rest)
      → pass_loop early change (suc fuel) s (length (encode before)) optimized
        ≡ (elim (early && leb (length s.text) (length (encode before) + ins_size x.op)) [
          | true ↦ some (s, optimized)
          | false ↦
              next fuel s
                (length (encode before))
                x.op
                optimized
                (change s (length (encode before)) x.op)
        ])
  unfolding pass_loop next
  round fuel s before x rest optimized e =
      ap at_byte (
        ap (λ t. get_elem? t i) (e ∙ encode-append before (x ∷ rest))
        ∙ get_elem?-append i (encode before) (byte_of x.op) (x.operand ++ encode rest) refl)
      ∙ ap at_op (decode-byte_of x.op)
    where
      i : ℕ
      i = length (encode before)

      at_op : Option DIns → Option (Sections × Bool)
      at_op o = elim o [
        | none ↦ none
        | some op ↦ elim (early && leb (length s.text) (i + ins_size op)) [
          | true ↦ some (s, optimized)
          | false ↦ next fuel s i op optimized (change s i op)
        ]
      ]

      at_byte : Option ℕ → Option (Sections × Bool)
      at_byte o = elim o [ none ↦ some (s, optimized) | some b ↦ at_op (decode b) ]

  stopped :
      (s : Sections) (is : List Instruction) (optimized : Bool)
      → IsEncoded s is
      → IsOptimized s optimized (some (s, optimized))
  stopped s is optimized h = record {
    result = s;
    flag = optimized;
    instructions = is;
    ends = refl;
    encoded = h;
    no_longer = omega arith;
    shorter = λ e. inl e;
    unchanged = λ e. (e, refl);
    links = λ l. l;
  }

  -- What comes after a step that made the text shorter.
  later :
      (s s' : Sections) (optimized : Bool) (o : Option (Sections × Bool))
      → length s'.text < length s.text
      → (HasLinks s → HasLinks s')
      → IsOptimized s' true o
      → IsOptimized s optimized o
  later s s' optimized o less links h = record {
    result = h.result;
    flag = h.flag;
    instructions = h.instructions;
    ends = h.ends;
    encoded = h.encoded;
    no_longer = omega (arith, less, h.no_longer);
    shorter = λ e. inr (omega (arith, less, h.no_longer));
    unchanged = λ e. absurd (cc (h.unchanged e).0);
    links = λ l. h.links (links l);
  }

  length-text :
      (s : Sections) (before rest : List Instruction)
      → IsEncoded s (before ++ rest)
      → length s.text ≡ length (encode before) + length (encode rest)
  length-text s before rest h =
      ap length (h.text ∙ encode-append before rest) ∙ length-append (encode before) (encode rest)

  -- The rounds that `fuel` is enough for.
  IsDone : ℕ → Type 0
  IsDone fuel =
      (s : Sections) (before rest : List Instruction) (optimized : Bool)
      → IsEncoded s (before ++ rest)
      → length (encode rest) < fuel
      → IsOptimized s optimized (pass_loop early change fuel s (length (encode before)) optimized)

  continued :
      (fuel : ℕ) (s : Sections) (before : List Instruction) (x : Instruction)
      (rest : List Instruction) (optimized : Bool) (o : Option Change)
      → IsDone fuel
      → IsEncoded s (before ++ x ∷ rest)
      → length (encode (x ∷ rest)) < suc fuel
      → Outcome s before x rest o
      → IsOptimized s optimized (next fuel s (length (encode before)) x.op optimized o)
  unfolding next IsDone
  continued fuel s before x rest optimized _ done h enough keeps =
      let full = first-IsComplete before x rest h.complete in
      subst (λ i. IsOptimized s optimized (pass_loop early change fuel s i optimized))
        (length-snoc before x full)
        (done s (before ++ x ∷ []) rest optimized
          (subst (IsEncoded s) (sym (append_assoc before (x ∷ []) rest)) h)
          (omega (arith, enough, length-append x.operand (encode rest))))
  continued fuel s before x rest optimized _ done h enough
        (removes s' before' rest' h' same less links) =
      later s s' optimized _
        (omega
          (arith, length-text s before (x ∷ rest) h, length-text s' before' rest' h', same, less))
        links
        (subst (λ i. IsOptimized s' true (pass_loop early change fuel s' i true)) same
          (done s' before' rest' true h' (omega (arith, enough, less))))
  continued fuel s before x rest optimized _ done h enough
        (replaces s' x' before' rest' h' same less links) =
      let full = first-IsComplete before' x' rest' h'.complete in
      later s s' optimized _
        (omega (
          arith,
          length-text s before (x ∷ rest) h,
          length-text s' before' (x' ∷ rest') h',
          same,
          less,
        ))
        links
        (subst (λ i. IsOptimized s' true (pass_loop early change fuel s' i true))
          (length-snoc before' x' full ∙ ap (λ n. n + ins_size x'.op) same)
          (done s' (before' ++ x' ∷ []) rest' true
            (subst (IsEncoded s') (sym (append_assoc before' (x' ∷ []) rest')) h')
            (omega (arith, enough, less, length-append x'.operand (encode rest')))))

  past_end : (xs : List ℕ) → get_elem? xs (length xs) ≡ none
  past_end [] = refl
  past_end (x ∷ xs) = past_end xs

  end_round :
      (fuel : ℕ) (s : Sections) (i : ℕ) (optimized : Bool)
      → get_elem? s.text i ≡ none
      → pass_loop early change (suc fuel) s i optimized ≡ some (s, optimized)
  unfolding pass_loop
  end_round fuel s i optimized e = rw (e, pass_loop)

  -- A pass that ends early and goes on here does not stand at the last instruction.
  not_last :
      (s : Sections) (before : List Instruction) (x : Instruction) (rest : List Instruction)
      → IsEncoded s (before ++ x ∷ rest)
      → (early && leb (length s.text) (length (encode before) + ins_size x.op)) ≡ false
      → early ≡ true
      → ¬ (rest ≡ [])
  not_last s before x rest h f now empty =
      let full = first-IsComplete before x rest h.complete in
      cc (
        sym (
          ap₂ (λ a b. a && b) now
            (le→leb (length s.text) (length (encode before) + ins_size x.op) (
              omega (
                arith,
                length-text s before (x ∷ rest) h,
                length-cons x rest full,
                ap (λ r. length (encode r)) empty,
              ))))
        ∙ f)

  pass_loop_lem : IsSound early change → (fuel : ℕ) → IsDone fuel
  unfolding IsDone
  pass_loop_lem sound zero s before rest optimized h enough = absurd (omega arith)
  pass_loop_lem sound (suc fuel) s before [] optimized h enough =
      subst (IsOptimized s optimized)
        (sym (
          end_round fuel s (length (encode before)) optimized (
            ap₂ get_elem? (h.text ∙ ap encode (append-nil before)) refl
            ∙ past_end (encode before))))
        (stopped s (before ++ []) optimized h)
  pass_loop_lem sound (suc fuel) s before (x ∷ rest) optimized h enough =
      let i = length (encode before) in
      subst (IsOptimized s optimized) (sym (round fuel s before x rest optimized h.text))
        (elim (Bool-cases (early && leb (length s.text) (i + ins_size x.op))) [
          | inl t ↦
              subst (IsOptimized s optimized) (sym (ap (choice fuel s i x.op optimized) t))
                (stopped s (before ++ x ∷ rest) optimized h)
          | inr f ↦ subst (IsOptimized s optimized) (sym (ap (choice fuel s i x.op optimized) f)) (
              continued fuel s before x rest optimized (change s i x.op) (pass_loop_lem sound fuel)
                h enough (sound s before x rest h (not_last s before x rest h f)))
        ])
    where
      choice : ℕ → Sections → ℕ → DIns → Bool → Bool → Option (Sections × Bool)
      choice fuel s i op optimized b = elim b [
        | true ↦ some (s, optimized)
        | false ↦ next fuel s i op optimized (change s i op)
      ]

  pub run_pass_lem :
      IsSound early change
      → (s : Sections) (is : List Instruction) → IsEncoded s is
      → IsOptimized s false (run_pass early change s)
  unfolding IsDone
  run_pass_lem sound s is h =
      pass_loop_lem sound (suc (length s.text)) s [] is false h (omega (arith, ap length h.text))
