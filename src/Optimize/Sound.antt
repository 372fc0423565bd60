-- ===== src/Optimize/Sound.antt =====
-- The three passes of src/doptimize.c that are repeated, at an instruction between others.
use mathlib.Core.List.{append_assoc}
use decision.Prelude.{
  ℕ, suc, ◌+◌, ◌*◌, ◌≡◌, inl, inr, refl, sym, ap, ◌∙◌, subst, Bool, true, false, ◌&&◌, List, [],
  ◌∷◌, ◌++◌, Option, none, some, ◌>>=◌, length, get_elem?, get_elem?-append, drop, ◌==◌,
  if◌then◌else◌, arith, Option-cases, length-append, bind-some,
}
use decision.Vm.Opcode
use decision.Vm.Opcode.{DIns, ins_size, byte_of, decode, decode-byte_of}
use decision.Optimize.{Sections, Width, width_bytes, read_number}
use decision.Optimize.Encode.{Instruction, IsComplete, AllComplete, encode}
use decision.Optimize.Remove.{encode-append}
use decision.Optimize.Passes.{
  Change, kept, removal, opcode_at, is_not, not_change, immediate_at, is_pop, pop_width,
  items_width, useless_change,
}
use decision.Optimize.Outcome.{IsEncoded, Outcome, keeps, IsSound, first-IsComplete, length-snoc}
use decision.Optimize.Shapes.{removal-Outcome}
use decision.Optimize.Operand.{immediate_at_lem}

-- The opcode behind an instruction.
pub opcode_next :
    (s : Sections) (before : List Instruction) (x y : Instruction) (rest : List Instruction)
    → IsEncoded s (before ++ x ∷ y ∷ rest)
    → opcode_at s.text (length (encode before) + ins_size x.op) ≡ some y.op
unfolding opcode_at
opcode_next s before x y rest h =
    ap (λ o. elim o [ none ↦ none | some b ↦ decode b ])
      (ap (λ t. get_elem? t i) whole
        ∙ get_elem?-append i (encode (before ++ x ∷ [])) (byte_of y.op) (y.operand ++ encode rest)
            (omega (arith, length-snoc before x (first-IsComplete before x (y ∷ rest) h.complete))))
    ∙ decode-byte_of y.op
  where
    i : ℕ
    i = length (encode before) + ins_size x.op

    whole : s.text ≡ encode (before ++ x ∷ []) ++ byte_of y.op ∷ (y.operand ++ encode rest)
    whole =
        h.text
        ∙ ap encode (sym (append_assoc before (x ∷ []) (y ∷ rest)))
        ∙ encode-append (before ++ x ∷ []) (y ∷ rest)

is_not-size : (op : DIns) → is_not (some op) ≡ true → ins_size op ≡ 1
unfolding is_not
is_not-size Opcode.op_not e = refl
is_not-size _ e = cc

pub is_pop-size : (op : DIns) → is_pop (some op) ≡ true → ins_size op ≡ 1
unfolding is_pop
is_pop-size Opcode.op_pop e = refl
is_pop-size _ e = cc

pub pop_width-size :
    (op : DIns) (w : Width) → pop_width op ≡ some w → ins_size op ≡ suc (width_bytes w)
unfolding pop_width width_bytes
pop_width-size Opcode.op_ret w e = cc e
pop_width-size _ w e = ground (arith, e)

items_width-size :
    (op : DIns) (w : Width) → items_width op ≡ some w → ins_size op ≡ suc (width_bytes w)
unfolding items_width width_bytes
items_width-size Opcode.op_ret w e = cc e
items_width-size _ w e = ground (arith, e)

pub second-IsComplete :
    (before : List Instruction) (x y : Instruction) (rest : List Instruction)
    → AllComplete (before ++ x ∷ y ∷ rest)
    → IsComplete y
second-IsComplete [] x y rest h = h.1.0
second-IsComplete (b ∷ before) x y rest h = second-IsComplete before x y rest h.1

-- Two instructions that are removed together.
pub remove_two :
    (s : Sections) (before : List Instruction) (x y : Instruction) (rest : List Instruction)
    (len : ℕ)
    → IsEncoded s (before ++ x ∷ y ∷ rest)
    → len ≡ ins_size x.op + ins_size y.op
    → Outcome s before x (y ∷ rest) (removal s (length (encode before)) len)
remove_two s before x y rest len h e =
    let full = first-IsComplete before x (y ∷ rest) h.complete in
    let full' = second-IsComplete before x y rest h.complete in
    removal-Outcome s s before x (y ∷ rest) (x ∷ y ∷ []) rest len h
      (omega (
        arith,
        e,
        full,
        full',
        length-append x.operand (byte_of y.op ∷ (y.operand ++ [])),
        length-append y.operand [],
      ))
      (omega (arith, e, full))
      (omega
        (arith, length-append x.operand (encode (y ∷ rest)), length-append y.operand (encode rest)))
      (λ l. l)

pub not_change-IsSound : IsSound true not_change
unfolding not_change
not_change-IsSound s before x [] h last = absurd (last refl refl)
not_change-IsSound s before x (y ∷ rest) h last =
    subst
      (λ o. Outcome s before x (y ∷ rest) (
        if is_not (some x.op) && is_not o
        then removal s (length (encode before)) (2 * ins_size Opcode.op_not)
        else some kept))
      (sym (opcode_next s before x y rest h))
      (both (is_not (some x.op)) (is_not (some y.op)) (is_not-size x.op) (is_not-size y.op))
  where
    both :
        (a b : Bool)
        → (a ≡ true → ins_size x.op ≡ 1)
        → (b ≡ true → ins_size y.op ≡ 1)
        → Outcome s before x (y ∷ rest) (
            if a && b
            then removal s (length (encode before)) (2 * ins_size Opcode.op_not)
            else some kept)
    both true true p q =
        remove_two s before x y rest (2 * ins_size Opcode.op_not) h (omega (arith, p refl, q refl))
    both true false p q = keeps
    both false b p q = keeps

-- One instruction that is removed.
remove_one :
    (s : Sections) (before : List Instruction) (x : Instruction) (rest : List Instruction)
    → IsEncoded s (before ++ x ∷ rest)
    → Outcome s before x rest (removal s (length (encode before)) (ins_size x.op))
remove_one s before x rest h =
    let full = first-IsComplete before x rest h.complete in
    removal-Outcome s s before x rest (x ∷ []) rest (ins_size x.op) h
      (omega (arith, full, length-append x.operand [])) (omega (arith, full))
      (omega (arith, length-append x.operand (encode rest))) (λ l. l)

pub useless_change-IsSound : IsSound false useless_change
unfolding useless_change
useless_change-IsSound s before x rest h last = elim (Option-cases (items_width x.op)) [
  | inl e ↦ subst (Outcome s before x rest) (sym (ap act e)) keeps
  | inr (w, e) ↦
      subst (Outcome s before x rest)
        (sym (
          ap act e
          ∙ bind-some _ _
              (immediate_at_lem s before x rest (i + 1) w h refl
                (omega (arith, items_width-size x.op w e)))
              refl))
        (chosen (read_number (width_bytes w) (drop (i + 1) s.text) == 0))
]
  where
    i : ℕ
    i = length (encode before)

    act : Option Width → Option Change
    act o = elim o [
      | none ↦ some kept
      | some w ↦ (do
        v ← immediate_at s.text (i + 1) w
        if v == 0 then removal s i (ins_size x.op) else some kept)
    ]

    chosen :
        (b : Bool) → Outcome s before x rest (if b then removal s i (ins_size x.op) else some kept)
    chosen true = remove_one s before x rest h
    chosen false = keeps
