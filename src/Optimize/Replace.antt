-- ===== src/Optimize/Replace.antt =====
-- The replacement of an instruction by a shorter one in src/doptimize.c, and `d_optimize_simplify`,
-- at an instruction between others.
use mathlib.Core.List.{append_assoc, append-nil}
use mathlib.Core.Path.{ap₂}
use decision.Prelude.{
  ℕ, suc, ◌+◌, ◌<◌, ◌≡◌, inl, inr, refl, sym, ap, ◌∙◌, subst, Bool, true, false, List, [], ◌∷◌,
  ◌++◌, Option, none, some, ◌>>=◌, length, set, take, drop, ◌==◌, if◌then◌else◌, arith,
  Option-cases, length-append, bind-some, set-append, take-append_add, drop-append_add, drop-append,
}
use decision.Vm.Opcode
use decision.Vm.Opcode.{DIns, ins_size, byte_of}
use decision.Optimize.{
  Sections, d_optimize_remove_bytecode, Width, byte_width, half_width, full_width, width_bytes,
  read_number,
}
use decision.Optimize.Encode.{Instruction, AllComplete, encode}
use decision.Optimize.Remove.{encode-append}
use decision.Optimize.Passes.{
  Change, kept, replaced, immediate_at, replacement, simple_form, simplify_change,
}
use decision.Optimize.Outcome.{
  HasLinks, IsEncoded, Outcome, keeps, replaces, IsSound, first-IsComplete,
}
use decision.Optimize.Shapes.{ops, IsShortened, removed-IsShortened}
use decision.Optimize.Operand.{at_rest, immediate_at_lem}

-- A sheet in which a shorter instruction with the opcode `op` stands in the place of `x`.
pub record IsReplaced (s : Sections) (before : List Instruction) (x : Instruction)
    (rest : List Instruction) (op : DIns) (o : Option Sections) : Type 0 where
  pub result : Sections
  pub x' : Instruction
  pub before' : List Instruction
  pub rest' : List Instruction
  pub gives : o ≡ some result
  pub encoded : IsEncoded result (before' ++ x' ∷ rest')
  pub same_op : x'.op ≡ op
  pub same_before : length (encode before') ≡ length (encode before)
  pub less : length (encode (x' ∷ rest')) < length (encode (x ∷ rest))
  pub links : HasLinks s → HasLinks result

first_op :
    (is : List Instruction) (op : DIns) (os : List DIns)
    → ops is ≡ op ∷ os
    → (x : Instruction) × (is' : List Instruction) × (is ≡ x ∷ is') × (x.op ≡ op)
first_op [] op os e = absurd (cc e)
first_op (x ∷ is) op os e = (x, is, refl, ap head_op e)
  where
    head_op : List DIns → DIns
    head_op [] = op
    head_op (o ∷ os) = o

with_operand-AllComplete :
    (before : List Instruction) (x : Instruction) (rest : List Instruction) (x' : Instruction)
    → AllComplete (before ++ x ∷ rest)
    → ins_size x'.op ≡ suc (length x'.operand)
    → AllComplete (before ++ x' ∷ rest)
with_operand-AllComplete [] x rest x' h e = (e, h.1)
with_operand-AllComplete (b ∷ before) x rest x' h e =
    (h.0, with_operand-AllComplete before x rest x' h.1 e)

-- A new opcode, and the first bytes of the operand removed.
pub replacement-IsReplaced :
    (s : Sections) (before : List Instruction) (x : Instruction) (rest : List Instruction)
    (op : DIns) (gone keep : List ℕ) (len : ℕ)
    → IsEncoded s (before ++ x ∷ rest)
    → x.operand ≡ gone ++ keep
    → len ≡ length gone
    → 0 < len
    → ins_size op ≡ suc (length keep)
    → IsReplaced s before x rest op (replacement s (length (encode before)) op len)
unfolding replacement
replacement-IsReplaced s before x rest op gone keep len h parts e pos size =
    let (x'', rest'', same, same_op) = first_op short.rest' op (ops rest) short.same_ops in
    record {
      result = short.result;
      x' = x'';
      before' = short.before';
      rest' = rest'';
      gives = short.gives;
      encoded = subst (λ is. IsEncoded short.result (short.before' ++ is)) same short.encoded;
      same_op = same_op;
      same_before = short.same_before;
      less = omega (
        arith,
        ap (λ is. length (encode is)) same,
        short.same_rest,
        e,
        ap length parts,
        length-append gone keep,
        length-append keep (encode rest),
        length-append x.operand (encode rest),
      );
      links = short.links;
    }
  where
    i : ℕ
    i = length (encode before)

    x' : Instruction
    x' = record { op = op; operand = keep }

    s1 : Sections
    s1 = record s { text = set s.text i (byte_of op) }

    tail : List ℕ
    tail = keep ++ encode rest

    text : s1.text ≡ encode before ++ byte_of op ∷ (gone ++ tail)
    text =
        ap (λ t. set t i (byte_of op)) (at_rest s before x rest h)
        ∙ set-append i (encode before) (byte_of x.op) (x.operand ++ encode rest) (byte_of op) refl
        ∙ ap (λ t. encode before ++ byte_of op ∷ (t ++ encode rest)) parts
        ∙ ap (λ t. encode before ++ byte_of op ∷ t) (append_assoc gone keep (encode rest))

    moved : take (i + 1) s1.text ++ drop (i + 1 + len) s1.text ≡ encode (before ++ x' ∷ rest)
    moved =
        ap₂ (λ a b. a ++ b)
          (ap (take (i + 1)) text
            ∙ take-append_add (i + 1) 1 (encode before) (byte_of op ∷ (gone ++ tail)) refl)
          (ap (drop (i + 1 + len)) text
            ∙ drop-append_add (i + 1 + len) (suc len) (encode before) (byte_of op ∷ (gone ++ tail))
                (omega arith)
            ∙ drop-append len gone tail e)
        ∙ append_assoc (encode before) (byte_of op ∷ []) tail
        ∙ sym (encode-append before (x' ∷ rest))

    short : IsShortened s1 before (x' ∷ rest) (d_optimize_remove_bytecode s1 (i + 1) len)
    short =
        removed-IsShortened s1 (i + 1) len before (x' ∷ rest) moved pos
          (omega (
            arith,
            e,
            ap length text,
            length-append gone tail,
            length-append (encode before) (byte_of op ∷ (gone ++ tail)),
          ))
          (with_operand-AllComplete before x rest x' h.complete size)

width_bytes-pos : (w : Width) → 0 < width_bytes w
unfolding width_bytes
width_bytes-pos byte_width = omega arith
width_bytes-pos half_width = omega arith
width_bytes-pos full_width = omega arith

-- Without the operand, the instruction is one byte.
SimpleFits : DIns → Option (Width × ℕ × DIns) → Type 0
SimpleFits op none = Unit {0}
SimpleFits op (some p) = (ins_size op ≡ suc (width_bytes p.0)) × (ins_size p.2 ≡ 1)

simple_form-SimpleFits : (op : DIns) → SimpleFits op (simple_form op)
unfolding simple_form width_bytes SimpleFits
simple_form-SimpleFits Opcode.op_retn = (refl, refl)
simple_form-SimpleFits Opcode.op_popb = (refl, refl)
simple_form-SimpleFits Opcode.op_poph = (refl, refl)
simple_form-SimpleFits Opcode.op_popf = (refl, refl)
simple_form-SimpleFits _ = tt

pub simplify_change-IsSound : IsSound false simplify_change
unfolding simplify_change SimpleFits
simplify_change-IsSound s before x rest h last = elim (Option-cases (simple_form x.op)) [
  | inl e ↦ subst (Outcome s before x rest) (sym (ap act e)) keeps
  | inr ((w, n, op'), e) ↦
      let (size, one) = subst (SimpleFits x.op) e (simple_form-SimpleFits x.op) in
      subst (Outcome s before x rest)
        (sym (
          ap act e
          ∙ bind-some _ _ (immediate_at_lem s before x rest (i + 1) w h refl (omega (arith, size)))
              refl))
        (chosen w op' size one (read_number (width_bytes w) (drop (i + 1) s.text) == n))
]
  where
    i : ℕ
    i = length (encode before)

    act : Option (Width × ℕ × DIns) → Option Change
    act o = elim o [
      | none ↦ some kept
      | some (w, n, op') ↦ (do
        v ← immediate_at s.text (i + 1) w
        if v == n
            then (do s' ← replacement s i op' (width_bytes w); some (replaced s' op'))
            else some kept)
    ]

    put :
        (op' : DIns) (o : Option Sections)
        → IsReplaced s before x rest op' o
        → Outcome s before x rest (do s' ← o; some (replaced s' op'))
    put op' o r = subst (Outcome s before x rest) (sym (bind-some _ _ r.gives refl)) (
        subst (λ op. Outcome s before x rest (some (replaced r.result op))) r.same_op
          (replaces r.result r.x' r.before' r.rest' r.encoded r.same_before r.less r.links))

    chosen :
        (w : Width) (op' : DIns)
        → ins_size x.op ≡ suc (width_bytes w)
        → ins_size op' ≡ 1
        → (b : Bool)
        → Outcome s before x rest (
            if b
            then (do s' ← replacement s i op' (width_bytes w); some (replaced s' op'))
            else some kept)
    chosen w op' size one true =
        let full = first-IsComplete before x rest h.complete in
        put op' (replacement s i op' (width_bytes w)) (
          replacement-IsReplaced s before x rest op' x.operand [] (width_bytes w) h
            (sym (append-nil x.operand)) (omega (arith, full, size)) (width_bytes-pos w) one)
    chosen w op' size one false = keeps
