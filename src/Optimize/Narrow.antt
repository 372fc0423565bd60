-- ===== src/Optimize/Narrow.antt =====
-- `d_optimize_shrink_fimmediate` of src/doptimize.c, at an instruction between others.
use decision.Prelude.{
  ℕ, suc, ◌+◌, ◌-◌, ◌<◌, ◌≡◌, inl, inr, refl, sym, ap, ◌∙◌, subst, Bool, true, false, List, ◌∷◌,
  ◌++◌, Option, none, some, ◌>>=◌, length, take, drop, leb, if◌then◌else◌, if_true, le→leb, arith,
  Option-cases, length-append, bind-some, take-append-drop, length-take_add,
}
use decision.Vm.Opcode
use decision.Vm.Opcode.{DIns, ins_size, byte_of}
use decision.Optimize.{
  Sections, Width, byte_width, half_width, full_width, width_bytes, read_number,
}
use decision.Optimize.Encode.{Instruction, encode}
use decision.Optimize.Passes.{Change, kept, replaced, immediate_at, with_immediate, replacement}
use decision.Optimize.Shrink.{
  shrink_ops, is_link_at, fits_byte, fits_half, adjusted, shrink, shrink_change,
}
use decision.Optimize.Outcome.{IsEncoded, Outcome, keeps, replaces, IsSound, first-IsComplete}
use decision.Optimize.Operand.{
  at_rest, immediate_at_lem, with_number, length-with_number, new_operand-IsEncoded,
}
use decision.Optimize.Replace.{IsReplaced, replacement-IsReplaced}

-- The sizes of an instruction and of its two shorter forms.
ShrinkFits : DIns → Option (DIns × DIns) → Type 0
ShrinkFits op none = Unit {0}
ShrinkFits op (some p) =
    (width_bytes full_width < ins_size op)
    × (ins_size p.0 + width_bytes full_width ≡ ins_size op + width_bytes half_width)
    × (ins_size p.1 + width_bytes full_width ≡ ins_size op + width_bytes byte_width)

shrink_ops-ShrinkFits : (op : DIns) → ShrinkFits op (shrink_ops op)
unfolding shrink_ops width_bytes ShrinkFits
shrink_ops-ShrinkFits Opcode.op_addfi = (omega arith, refl, refl)
shrink_ops-ShrinkFits Opcode.op_andfi = (omega arith, refl, refl)
shrink_ops-ShrinkFits Opcode.op_callrf = (omega arith, refl, refl)
shrink_ops-ShrinkFits Opcode.op_divfi = (omega arith, refl, refl)
shrink_ops-ShrinkFits Opcode.op_getfi = (omega arith, refl, refl)
shrink_ops-ShrinkFits Opcode.op_jrfi = (omega arith, refl, refl)
shrink_ops-ShrinkFits Opcode.op_jrconfi = (omega arith, refl, refl)
shrink_ops-ShrinkFits Opcode.op_modfi = (omega arith, refl, refl)
shrink_ops-ShrinkFits Opcode.op_mulfi = (omega arith, refl, refl)
shrink_ops-ShrinkFits Opcode.op_orfi = (omega arith, refl, refl)
shrink_ops-ShrinkFits Opcode.op_popf = (omega arith, refl, refl)
shrink_ops-ShrinkFits Opcode.op_pushf = (omega arith, refl, refl)
shrink_ops-ShrinkFits Opcode.op_pushnf = (omega arith, refl, refl)
shrink_ops-ShrinkFits Opcode.op_subfi = (omega arith, refl, refl)
shrink_ops-ShrinkFits Opcode.op_xorfi = (omega arith, refl, refl)
shrink_ops-ShrinkFits _ = tt

shrink-Outcome :
    (s : Sections) (before : List Instruction) (x : Instruction) (rest : List Instruction)
    (op : DIns) (w : Width) (v : ℕ)
    → IsEncoded s (before ++ x ∷ rest)
    → width_bytes full_width < ins_size x.op
    → ins_size op + width_bytes full_width ≡ ins_size x.op + width_bytes w
    → width_bytes w < width_bytes full_width
    → Outcome s before x rest (shrink s (length (encode before)) x.op op w v)
unfolding shrink
shrink-Outcome s before x rest op w v h size size' smaller =
    subst (Outcome s before x rest) (sym (bind-some _ _ r.gives (if_true _ none inside))) (
      subst (λ o. Outcome s before x rest (some (replaced s'' o))) r.same_op
        (replaces s'' x'' r.before' r.rest' changed r.same_before
          (omega (
            arith,
            r.less,
            length-with_number w v' r.x' (omega (arith, r_full, fits)),
            length-append x''.operand (encode r.rest'),
            length-append r.x'.operand (encode r.rest'),
          ))
          r.links))
  where
    i : ℕ
    i = length (encode before)

    len : ℕ
    len = width_bytes full_width - width_bytes w

    v' : ℕ
    v' = adjusted x.op len v

    full : ins_size x.op ≡ suc (length x.operand)
    full = first-IsComplete before x rest h.complete

    gone_length : len ≡ length (take len x.operand)
    gone_length = omega (arith, full, size, smaller, length-take_add len x.operand)

    keep_length : ins_size op ≡ suc (length (drop len x.operand))
    keep_length = omega (
      arith,
      full,
      size,
      size',
      smaller,
      gone_length,
      ap length (take-append-drop len x.operand),
      length-append (take len x.operand) (drop len x.operand),
    )

    r : IsReplaced s before x rest op (replacement s i op len)
    r =
        replacement-IsReplaced s before x rest op (take len x.operand) (drop len x.operand) len h
          (sym (take-append-drop len x.operand)) gone_length (omega (arith, smaller)) keep_length

    same_size : ins_size r.x'.op ≡ ins_size op
    same_size = ap ins_size r.same_op

    r_full : ins_size r.x'.op ≡ suc (length r.x'.operand)
    r_full = first-IsComplete r.before' r.x' r.rest' r.encoded.complete

    fits : width_bytes w < ins_size r.x'.op
    fits = omega (arith, same_size, size, size')

    x'' : Instruction
    x'' = with_number w v' r.x'

    s'' : Sections
    s'' = record r.result { text = with_immediate r.result.text (i + 1) w v' }

    changed : IsEncoded s'' (r.before' ++ x'' ∷ r.rest')
    changed =
        new_operand-IsEncoded r.result r.before' r.x' r.rest' (i + 1) w v' r.encoded
          (omega (arith, r.same_before)) fits

    inside : leb (i + 1 + width_bytes w) (length r.result.text) ≡ true
    inside = le→leb (i + 1 + width_bytes w) (length r.result.text) (
        omega (
          arith,
          r.same_before,
          fits,
          r_full,
          ap length (at_rest r.result r.before' r.x' r.rest' r.encoded),
          length-append (encode r.before') (byte_of r.x'.op ∷ (r.x'.operand ++ encode r.rest')),
          length-append r.x'.operand (encode r.rest'),
        ))

pub shrink_change-IsSound : IsSound false shrink_change
unfolding shrink_change ShrinkFits width_bytes
shrink_change-IsSound s before x rest h last = linked (is_link_at s.ins_link_list i)
  where
    i : ℕ
    i = length (encode before)

    narrowed : DIns → DIns → ℕ → Option Change
    narrowed half byte v =
        if fits_byte v
        then shrink s i x.op byte byte_width v
        else if fits_half v
        then shrink s i x.op half half_width v
        else some kept

    act : Option (DIns × DIns) → Option Change
    act o = elim o [
      | none ↦ some kept
      | some (half, byte) ↦ (do v ← immediate_at s.text (i + 1) full_width; narrowed half byte v)
    ]

    chosen :
        (half byte : DIns) (v : ℕ)
        → width_bytes full_width < ins_size x.op
        → ins_size half + width_bytes full_width ≡ ins_size x.op + width_bytes half_width
        → ins_size byte + width_bytes full_width ≡ ins_size x.op + width_bytes byte_width
        → (a b : Bool)
        → Outcome s before x rest (
            if a
            then shrink s i x.op byte byte_width v
            else if b
            then shrink s i x.op half half_width v
            else some kept)
    chosen half byte v size p q true b =
        shrink-Outcome s before x rest byte byte_width v h size q (omega arith)
    chosen half byte v size p q false true =
        shrink-Outcome s before x rest half half_width v h size p (omega arith)
    chosen half byte v size p q false false = keeps

    free : Outcome s before x rest (act (shrink_ops x.op))
    free = elim (Option-cases (shrink_ops x.op)) [
      | inl e ↦ subst (Outcome s before x rest) (sym (ap act e)) keeps
      | inr ((half, byte), e) ↦
          let (size, p, q) = subst (ShrinkFits x.op) e (shrink_ops-ShrinkFits x.op) in
          let v = read_number (width_bytes full_width) (drop (i + 1) s.text) in
          subst (Outcome s before x rest)
            (sym (
              ap act e
              ∙ bind-some _ _ (immediate_at_lem s before x rest (i + 1) full_width h refl size)
                  refl))
            (chosen half byte v size p q (fits_byte v) (fits_half v))
    ]

    linked : (b : Bool) → Outcome s before x rest (if b then some kept else act (shrink_ops x.op))
    linked true = keeps
    linked false = free
