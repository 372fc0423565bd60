-- ===== src/Optimize/PushPop.antt =====
-- `d_optimize_push_pop_consecutive` of src/doptimize.c, at an instruction between others.
use mathlib.Core.List.{append_assoc}
use decision.Prelude.{
  ℕ, ◌+◌, ◌-◌, ◌%◌, ◌<◌, ◌≡◌, inl, inr, refl, sym, ap, subst, Bool, true, false, List, [], ◌∷◌,
  ◌++◌, Option, none, some, length, drop, ltb, if◌then◌else◌, arith, Option-cases, length-append,
  bind-some,
}
use decision.Vm.Opcode
use decision.Vm.Opcode.{DIns, ins_size, byte_of}
use decision.Optimize.{Sections, Width, width_bytes, modulus, extend, read_number}
use decision.Optimize.Encode.{Instruction, encode}
use decision.Optimize.Passes.{
  Change, kept, removal, with_immediate, is_push, is_pop, pop_width, pop_width_at, shorten_pop,
  push_pop_change,
}
use decision.Optimize.Outcome.{IsEncoded, Outcome, keeps, IsSound, first-IsComplete, length-snoc}
use decision.Optimize.Shapes.{removal-Outcome}
use decision.Optimize.Operand.{
  immediate_at_lem, with_number, length-with_number, new_operand-IsEncoded,
}
use decision.Optimize.Sound.{
  opcode_next, is_pop-size, pop_width-size, second-IsComplete, remove_two,
}

shorten_pop-Outcome :
    (s : Sections) (before : List Instruction) (x y : Instruction) (rest : List Instruction)
    (w : Width)
    → IsEncoded s (before ++ x ∷ y ∷ rest)
    → pop_width y.op ≡ some w
    → Outcome s before x (y ∷ rest) (shorten_pop s (length (encode before)) x.op w)
unfolding shorten_pop
shorten_pop-Outcome s before x y rest w h e =
    subst (Outcome s before x (y ∷ rest))
      (sym
        (bind-some _ _ (immediate_at_lem s (before ++ x ∷ []) y rest at w around place fits) refl))
      (chosen (ltb 0 (extend w v)))
  where
    i : ℕ
    i = length (encode before)

    at : ℕ
    at = i + ins_size x.op + 1

    v : ℕ
    v = read_number (width_bytes w) (drop at s.text)

    v' : ℕ
    v' = (extend w v - 1) % modulus w

    y' : Instruction
    y' = with_number w v' y

    fits : width_bytes w < ins_size y.op
    fits = omega (arith, pop_width-size y.op w e)

    around : IsEncoded s ((before ++ x ∷ []) ++ y ∷ rest)
    around = subst (IsEncoded s) (sym (append_assoc before (x ∷ []) (y ∷ rest))) h

    place : at ≡ length (encode (before ++ x ∷ [])) + 1
    place = omega (arith, length-snoc before x (first-IsComplete before x (y ∷ rest) h.complete))

    changed :
        IsEncoded
          (record s { text = with_immediate s.text at w v' })
          (before ++ (x ∷ [] ++ y' ∷ rest))
    changed =
        subst (IsEncoded (record s { text = with_immediate s.text at w v' }))
          (append_assoc before (x ∷ []) (y' ∷ rest))
          (new_operand-IsEncoded s (before ++ x ∷ []) y rest at w v' around place fits)

    without_push :
        Outcome s before x
          (y ∷ rest)
          (removal (record s { text = with_immediate s.text at w v' }) i (ins_size x.op))
    without_push =
        let full = first-IsComplete before x (y ∷ rest) h.complete in
        let full' = second-IsComplete before x y rest h.complete in
        removal-Outcome s (record s { text = with_immediate s.text at w v' }) before x (y ∷ rest)
          (x ∷ []) (y' ∷ rest) (ins_size x.op) changed
          (omega (arith, full, length-append x.operand [])) (omega (arith, full))
          (omega (
            arith,
            length-with_number w v' y (omega (arith, full', fits)),
            length-append x.operand (encode (y ∷ rest)),
            length-append y.operand (encode rest),
            length-append y'.operand (encode rest),
          ))
          (λ l. l)

    chosen :
        (b : Bool)
        → Outcome s before x (y ∷ rest) (
            if b
            then removal (record s { text = with_immediate s.text at w v' }) i (ins_size x.op)
            else some kept)
    chosen true = without_push
    chosen false = keeps

pub push_pop_change-IsSound : IsSound true push_pop_change
unfolding push_pop_change pop_width_at
push_pop_change-IsSound s before x [] h last = absurd (last refl refl)
push_pop_change-IsSound s before x (y ∷ rest) h last =
    subst (λ o. Outcome s before x (y ∷ rest) (act (is_push x.op) (is_pop o) o))
      (sym (opcode_next s before x y rest h))
      (both (is_push x.op) (is_pop (some y.op)) (is_pop-size y.op))
  where
    i : ℕ
    i = length (encode before)

    wide : Option Width → Option Change
    wide o = elim o [ none ↦ some kept | some w ↦ shorten_pop s i x.op w ]

    act : Bool → Bool → Option DIns → Option Change
    act a b o =
        if a
        then (if b
            then removal s i (ins_size x.op + ins_size Opcode.op_pop)
            else wide (pop_width_at o))
        else some kept

    widths : Outcome s before x (y ∷ rest) (wide (pop_width y.op))
    widths = elim (Option-cases (pop_width y.op)) [
      | inl e ↦ subst (Outcome s before x (y ∷ rest)) (sym (ap wide e)) keeps
      | inr (w, e) ↦
          subst (Outcome s before x (y ∷ rest)) (sym (ap wide e))
            (shorten_pop-Outcome s before x y rest w h e)
    ]

    both :
        (a b : Bool)
        → (b ≡ true → ins_size y.op ≡ 1)
        → Outcome s before x (y ∷ rest) (act a b (some y.op))
    both true true q =
        remove_two s before x y rest (ins_size x.op + ins_size Opcode.op_pop) h
          (omega (arith, q refl))
    both true false q = widths
    both false b q = keeps
