-- ===== src/Optimize/Encode.antt =====
-- Texts of src/doptimize.c given as their instructions, and one instruction with its amount fixed.
use mathlib.Core.Path.{ap₂}
use mathlib.Core.List.{append_assoc}
use decision.Prelude.{
  ℕ, zero, suc, ◌+◌, ◌*◌, ◌/◌, ◌≤◌, ◌≡◌, refl, sym, ap, ◌∙◌, List, [], ◌∷◌, ◌++◌, Option, none,
  some, length, take, drop, arith, length-append, take-append_add, drop-append_add, length-drop,
}
use decision.Vm.Opcode.{DIns, op_ret, byte_of, ins_size}
use decision.Optimize.{Width, width_bytes, fix_amount, relative, read_number, number_bytes, fix_ins}

-- An instruction: its opcode and the bytes of its operands.
pub record Instruction : Type 0 where
  pub op : DIns
  pub operand : List ℕ

abbrev pub IsComplete : Instruction → Type 0
IsComplete i = ins_size i.op ≡ suc (length i.operand)

abbrev pub AllComplete : List Instruction → Type 0
AllComplete [] = Unit {0}
AllComplete (i ∷ is) = IsComplete i × AllComplete is

abbrev pub encode : List Instruction → List ℕ
encode [] = []
encode (i ∷ is) = byte_of i.op ∷ (i.operand ++ encode is)

-- The operand of an instruction at `pos`, with the amount of a relative jump fixed.
abbrev pub fixed_operand : ℕ → ℕ → ℕ → Option Width → List ℕ → List ℕ
fixed_operand start len pos none operand = operand
fixed_operand start len pos (some w) operand =
    number_bytes (width_bytes w) (fix_amount w start len pos (read_number (width_bytes w) operand))
    ++ drop (width_bytes w) operand

abbrev pub fixed : ℕ → ℕ → ℕ → Instruction → Instruction
fixed start len pos i = record i { operand = fixed_operand start len pos (relative i.op) i.operand }

-- Every instruction but the last one, at its place from `pos` on, is fixed.
abbrev pub all_fixed : ℕ → ℕ → ℕ → List Instruction → List Instruction
all_fixed start len pos [] = []
all_fixed start len pos (i ∷ []) = i ∷ []
all_fixed start len pos (i ∷ j ∷ is) =
    fixed start len pos i ∷ all_fixed start len (pos + ins_size i.op) (j ∷ is)

read_number-append :
    (n : ℕ) (xs ys : List ℕ) → n ≤ length xs → read_number n (xs ++ ys) ≡ read_number n xs
unfolding read_number
read_number-append zero xs ys le = refl
read_number-append (suc n) [] ys le = absurd (omega arith)
read_number-append (suc n) (x ∷ xs) ys le =
    ap (λ r. x + 256 * r) (read_number-append n xs ys (omega arith))

drop-append_le : (n : ℕ) (xs ys : List ℕ) → n ≤ length xs → drop n (xs ++ ys) ≡ drop n xs ++ ys
drop-append_le zero xs ys le = refl
drop-append_le (suc n) [] ys le = absurd (omega arith)
drop-append_le (suc n) (x ∷ xs) ys le = drop-append_le n xs ys (omega arith)

pub length-number_bytes : (n v : ℕ) → length (number_bytes n v) ≡ n
unfolding number_bytes
length-number_bytes zero v = refl
length-number_bytes (suc n) v = ap suc (length-number_bytes n (v / 256))

-- The operand of a relative jump is long enough for its amount.
relative-size : (op : DIns) (w : Width) → relative op ≡ some w → suc (width_bytes w) ≤ ins_size op
unfolding relative width_bytes
relative-size op_ret w e = cc e
relative-size _ w e = ground (arith, e)

abbrev patched : ℕ → ℕ → List ℕ → ℕ → Width → List ℕ
patched start len text pos w =
    take (suc pos) text
    ++ number_bytes (width_bytes w)
        (fix_amount w start len pos (read_number (width_bytes w) (drop (suc pos) text)))
    ++ drop (suc pos + width_bytes w) text

fix_ins-none :
    (start len : ℕ) (text : List ℕ) (pos : ℕ) (op : DIns)
    → relative op ≡ none
    → fix_ins start len text pos op ≡ text
unfolding fix_ins
fix_ins-none start len text pos op e =
    ap (λ r. elim r [ none ↦ text | some w ↦ patched start len text pos w ]) e

fix_ins-some :
    (start len : ℕ) (text : List ℕ) (pos : ℕ) (op : DIns) (w : Width)
    → relative op ≡ some w
    → fix_ins start len text pos op ≡ patched start len text pos w
unfolding fix_ins
fix_ins-some start len text pos op w e =
    ap (λ r. elim r [ none ↦ text | some v ↦ patched start len text pos v ]) e

pub fix_ins-append :
    (start len : ℕ) (pre : List ℕ) (op : DIns) (operand post : List ℕ)
    → ins_size op ≡ suc (length operand)
    → (r : Option Width) → relative op ≡ r
    → fix_ins start len (pre ++ byte_of op ∷ (operand ++ post)) (length pre) op
      ≡ pre ++ byte_of op ∷ (fixed_operand start len (length pre) r operand ++ post)
fix_ins-append start len pre op operand post full none e =
    fix_ins-none start len (pre ++ byte_of op ∷ (operand ++ post)) (length pre) op e
fix_ins-append start len pre op operand post full (some w) e =
    fix_ins-some start len (pre ++ b ∷ rest) pos op w e
    ∙ ap₂
        (λ t r.
          t
          ++ number_bytes n
              (fix_amount w start len pos (read_number n (drop (suc pos) (pre ++ b ∷ rest))))
          ++ r)
        (take-append_add (suc pos) 1 pre (b ∷ rest) (omega arith))
        (drop-append_add (suc pos + n) (suc n) pre (b ∷ rest) (omega arith)
          ∙ drop-append_le n operand post short)
    ∙ ap
        (λ a.
          pre
          ++ b ∷ []
          ++ number_bytes n (fix_amount w start len pos a)
          ++ (drop n operand ++ post))
        (ap (read_number n) (drop-append_add (suc pos) 1 pre (b ∷ rest) (omega arith))
          ∙ read_number-append n operand post short)
    ∙ append_assoc (pre ++ b ∷ []) new (drop n operand ++ post)
    ∙ ap (λ xs. pre ++ b ∷ [] ++ xs) (sym (append_assoc new (drop n operand) post))
    ∙ append_assoc pre (b ∷ []) (new ++ drop n operand ++ post)
  where
    b : ℕ
    b = byte_of op

    rest : List ℕ
    rest = operand ++ post

    pos : ℕ
    pos = length pre

    n : ℕ
    n = width_bytes w

    new : List ℕ
    new = number_bytes n (fix_amount w start len pos (read_number n operand))

    short : n ≤ length operand
    short = omega (arith, relative-size op w e, full)

pub length-fixed_operand :
    (start len pos : ℕ) (op : DIns) (operand : List ℕ)
    → ins_size op ≡ suc (length operand)
    → (r : Option Width) → relative op ≡ r
    → length (fixed_operand start len pos r operand) ≡ length operand
length-fixed_operand start len pos op operand full none e = refl
length-fixed_operand start len pos op operand full (some w) e =
    let n = width_bytes w in
    let new = number_bytes n (fix_amount w start len pos (read_number n operand)) in
    omega (
      arith,
      relative-size op w e,
      full,
      length-append new (drop n operand),
      length-number_bytes n (fix_amount w start len pos (read_number n operand)),
      length-drop n operand,
    )
