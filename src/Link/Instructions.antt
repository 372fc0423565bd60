-- ===== src/Link/Instructions.antt =====
-- The first loop of `d_link_self` of src/dlink.c: the operands of the instructions that are linked.
use decision.Prelude.{
  ℕ, zero, suc, ◌+◌, ◌≤◌, ◌<◌, ◌≡◌, ◌⊎◌, inl, inr, refl, sym, ap, ◌∙◌, subst, List, [], ◌∷◌, ◌++◌,
  Option, none, some, length, get_elem?, take, drop, if_true, le→leb, arith, bind-some,
  length-append, take-append-drop, length-take_add, get_elem?-append_left,
}
use decision.Optimize.{number_bytes}
use decision.Optimize.Encode.{length-number_bytes}
use decision.Sheet.{LinkMeta, InstructionToLink, Sheet}
use decision.Link.{Layout, link_target, store_pointer, d_link_replace_fimmediate, link_instructions}

-- Bytes that are put in the place of others.
spliced-before :
    (xs ws rest : List ℕ) (at k : ℕ)
    → k < at
    → at ≤ length xs
    → get_elem? (take at xs ++ ws ++ rest) k ≡ get_elem? xs k
spliced-before xs ws rest zero k h l = absurd (omega arith)
spliced-before [] ws rest (suc at) k h l = absurd (omega arith)
spliced-before (x ∷ xs) ws rest (suc at) zero h l = refl
spliced-before (x ∷ xs) ws rest (suc at) (suc k) h l =
    spliced-before xs ws rest at k (omega arith) (omega arith)

spliced-in :
    (xs ws rest : List ℕ) (at k i : ℕ)
    → k < length ws
    → at ≤ length xs
    → i ≡ at + k
    → get_elem? (take at xs ++ ws ++ rest) i ≡ get_elem? ws k
spliced-in xs ws rest zero k i h l e =
    get_elem?-append_left ws rest i (omega arith) ∙ ap (get_elem? ws) (omega (arith, e))
spliced-in [] ws rest (suc at) k i h l e = absurd (omega arith)
spliced-in (x ∷ xs) ws rest (suc at) k zero h l e = absurd (omega arith)
spliced-in (x ∷ xs) ws rest (suc at) k (suc i) h l e =
    spliced-in xs ws rest at k i h (omega arith) (omega arith)

behind :
    (ws xs : List ℕ) (m k : ℕ)
    → m ≡ length ws
    → m ≤ k
    → m ≤ length xs
    → get_elem? (ws ++ drop m xs) k ≡ get_elem? xs k
behind [] xs zero k e h l = refl
behind [] xs (suc m) k e h l = absurd (omega arith)
behind (w ∷ ws) xs zero k e h l = absurd (omega arith)
behind (w ∷ ws) [] (suc m) k e h l = absurd (omega arith)
behind (w ∷ ws) (x ∷ xs) (suc m) zero e h l = absurd (omega arith)
behind (w ∷ ws) (x ∷ xs) (suc m) (suc k) e h l =
    behind ws xs m k (omega arith) (omega arith) (omega arith)

spliced-after :
    (xs ws : List ℕ) (at m k : ℕ)
    → m ≡ at + length ws
    → m ≤ k
    → m ≤ length xs
    → get_elem? (take at xs ++ ws ++ drop m xs) k ≡ get_elem? xs k
spliced-after xs ws zero m k e h l = behind ws xs m k (omega (arith, e)) h l
spliced-after [] ws (suc at) m k e h l = absurd (omega arith)
spliced-after (x ∷ xs) ws (suc at) zero k e h l = absurd (omega arith)
spliced-after (x ∷ xs) ws (suc at) (suc m) zero e h l = absurd (omega arith)
spliced-after (x ∷ xs) ws (suc at) (suc m) (suc k) e h l =
    spliced-after xs ws at m k (omega arith) (omega arith) (omega arith)

-- A byte that is not of the operand of the instruction.
abbrev pub Outside : ℕ → InstructionToLink → Type 0
Outside k itl = (k < itl.ins + 1) ⊎ (itl.ins + 9 ≤ k)

abbrev pub AllOutside : ℕ → List InstructionToLink → Type 0
AllOutside k [] = Unit {0}
AllOutside k (itl ∷ list) = Outside k itl × AllOutside k list

-- What an instruction with its operand does to a text.
record IsStored (text : List ℕ) (itl : InstructionToLink) (t : Option ℕ) (o : Option (List ℕ))
    : Type 0 where
  result : List ℕ
  ends : o ≡ some result
  same : length result ≡ length text
  other : (k : ℕ) → Outside k itl → get_elem? result k ≡ get_elem? text k
  own :
      (p k : ℕ)
      → t ≡ some p
      → k < 8
      → get_elem? result (itl.ins + 1 + k) ≡ get_elem? (number_bytes 8 p) k

stored :
    (text : List ℕ) (itl : InstructionToLink) (t : Option ℕ)
    → itl.ins + 9 ≤ length text
    → IsStored text itl t
        (elim t [ none ↦ some text | some p ↦ d_link_replace_fimmediate text itl.ins p ])
unfolding d_link_replace_fimmediate store_pointer
stored text itl none inside = record {
  result = text;
  ends = refl;
  same = refl;
  other = λ k out. refl;
  own = λ p k e h. absurd (cc e);
}
stored text itl (some p) inside = record {
  result = take at text ++ number_bytes 8 p ++ drop (at + 8) text;
  ends = if_true _ none (le→leb (at + 8) (length text) (omega (arith, inside)));
  same = omega (
    arith,
    inside,
    width,
    length-take_add at text,
    length-append (take at text ++ number_bytes 8 p) (drop (at + 8) text),
    length-append (take at text) (number_bytes 8 p),
    length-take_add (at + 8) text,
    ap length (take-append-drop (at + 8) text),
    length-append (take (at + 8) text) (drop (at + 8) text),
  );
  other = λ k out. elim out [
    | inl l ↦
        spliced-before text (number_bytes 8 p) (drop (at + 8) text) at k l (omega (arith, inside))
    | inr l ↦
        spliced-after text (number_bytes 8 p) at (at + 8) k (omega (arith, width))
          (omega (arith, l)) (omega (arith, inside))
  ];
  own = λ q k e h.
      spliced-in text (number_bytes 8 p) (drop (at + 8) text) at k (itl.ins + 1 + k)
        (omega (arith, h, width)) (omega (arith, inside)) refl
      ∙ ap (λ r. get_elem? (number_bytes 8 r) k) (cc e);
}
  where
    at : ℕ
    at = itl.ins + 1

    width : length (number_bytes 8 p) ≡ 8
    width = length-number_bytes 8 p

module _ (layout : Layout) (sheets : List Sheet) (a : ℕ) (link : List LinkMeta) where
  -- An instruction whose link is there, and whose operand is inside of a text of `n` bytes.
  pub record IsReady (n : ℕ) (itl : InstructionToLink) : Type 0 where
    pub meta : LinkMeta
    pub target : Option ℕ
    pub is_meta : get_elem? link itl.link ≡ some meta
    pub is_target : link_target layout sheets a meta ≡ some target
    pub inside : itl.ins + 9 ≤ n

  -- The instructions lie apart from a first one.
  abbrev pub Apart : InstructionToLink → List InstructionToLink → Type 0
  Apart itl [] = Unit {0}
  Apart itl (other ∷ list) =
      ((itl.ins + 9 ≤ other.ins) ⊎ (other.ins + 9 ≤ itl.ins)) × Apart itl list

  abbrev pub AllReady : ℕ → List InstructionToLink → Type 0
  AllReady n [] = Unit {0}
  AllReady n (itl ∷ list) = IsReady n itl × Apart itl list × AllReady n list

  -- The pointer of an instruction is its operand.
  abbrev pub Linked : List ℕ → InstructionToLink → Type 0
  Linked text itl =
      (m : LinkMeta) (p k : ℕ)
      → get_elem? link itl.link ≡ some m
      → link_target layout sheets a m ≡ some (some p)
      → k < 8
      → get_elem? text (itl.ins + 1 + k) ≡ get_elem? (number_bytes 8 p) k

  abbrev pub AllLinked : List ℕ → List InstructionToLink → Type 0
  AllLinked text [] = Unit {0}
  AllLinked text (itl ∷ list) = Linked text itl × AllLinked text list

  pub record IsTextLinked (text : List ℕ) (list : List InstructionToLink) (o : Option (List ℕ))
      : Type 0 where
    pub result : List ℕ
    pub ends : o ≡ some result
    pub same : length result ≡ length text
    pub linked : AllLinked result list
    pub other : (k : ℕ) → AllOutside k list → get_elem? result k ≡ get_elem? text k

  -- The operand of an instruction is outside of those of others.
  Apart-AllOutside :
      (itl : InstructionToLink) (list : List InstructionToLink) (k : ℕ)
      → Apart itl list
      → k < 8
      → AllOutside (itl.ins + 1 + k) list
  Apart-AllOutside itl [] k h l = tt
  Apart-AllOutside itl (other ∷ list) k h l = (
    elim h.0 [ inl b ↦ inl (omega arith) | inr b ↦ inr (omega arith) ],
    Apart-AllOutside itl list k h.1 l,
  )

  -- On instructions that lie apart, inside of the text, and each with a link in the list whose pointer
  -- is known, the loop ends with a text of the same length: every instruction that is to be linked has
  -- the bytes of its pointer as operand, and all other bytes are as they were.
  pub link_instructions_lem :
      (list : List InstructionToLink) (text : List ℕ)
      → AllReady (length text) list
      → IsTextLinked text list (link_instructions layout sheets a link list text)
  unfolding link_instructions
  link_instructions_lem [] text h = record {
    result = text;
    ends = refl;
    same = refl;
    linked = tt;
    other = λ k out. refl;
  }
  link_instructions_lem (itl ∷ list) text h =
      let (ready, apart, others) = h in
      let first = stored text itl ready.target ready.inside in
      let later =
        link_instructions_lem list first.result
          (subst (λ n. AllReady n list) (sym first.same) others) in
      record {
        result = later.result;
        ends =
            bind-some _ _ ready.is_meta
              (bind-some _ _ ready.is_target (bind-some _ _ first.ends later.ends));
        same = later.same ∙ first.same;
        linked = (
          λ m p k e f l.
              later.other (itl.ins + 1 + k) (Apart-AllOutside itl list k apart l)
              ∙ first.own p k
                  (one_target itl ready.meta m ready.target p ready.is_meta ready.is_target e f) l,
          later.linked,
        );
        other = λ k out. later.other k out.1 ∙ first.other k out.0;
      }
    where
      one_target :
          (itl : InstructionToLink) (m m' : LinkMeta) (t : Option ℕ) (p : ℕ)
          → get_elem? link itl.link ≡ some m
          → link_target layout sheets a m ≡ some t
          → get_elem? link itl.link ≡ some m'
          → link_target layout sheets a m' ≡ some (some p)
          → t ≡ some p
      one_target itl m m' t p e f e' f' = cc (e, f, e', f')
