-- ===== src/Optimize/Text.antt =====
-- The loop over the text of src/doptimize.c, `d_optimize_remove_bytecode`, on a text that is given
-- as its instructions.
use mathlib.Core.Path.{ap₂}
use mathlib.Core.List.{append_assoc}
use decision.Prelude.{
  ℕ, zero, suc, ◌+◌, ◌≤◌, ◌<◌, ◌≡◌, refl, sym, ap, ◌∙◌, List, [], ◌∷◌, ◌++◌, none, some, length,
  get_elem?, arith, length-append, get_elem?-append,
}
use decision.Vm.Opcode.{DIns, byte_of, ins_size, decode-byte_of}
use decision.Optimize.{relative, fix_ins, fix_jumps}
use decision.Optimize.Encode.{
  Instruction, AllComplete, encode, fixed_operand, all_fixed, fix_ins-append, length-fixed_operand,
}

get_elem?-end : (xs : List ℕ) → get_elem? (xs ++ []) (length xs) ≡ none
get_elem?-end [] = refl
get_elem?-end (x ∷ xs) = get_elem?-end xs

fix_jumps-end :
    (fuel start len : ℕ) (pre : List ℕ)
    → fix_jumps fuel start len (pre ++ []) (length pre) ≡ some (pre ++ [])
unfolding fix_jumps
fix_jumps-end zero start len pre = ground (arith, length-append pre [])
fix_jumps-end (suc fuel) start len pre = ground (arith, get_elem?-end pre)

-- One round at an instruction, at the end of the text and before it.
fix_jumps-last :
    (fuel start len : ℕ) (pre : List ℕ) (op : DIns) (operand : List ℕ)
    → ins_size op ≡ suc (length operand)
    → fix_jumps (suc fuel) start len (pre ++ byte_of op ∷ (operand ++ [])) (length pre)
      ≡ some (pre ++ byte_of op ∷ (operand ++ []))
unfolding fix_jumps
fix_jumps-last fuel start len pre op operand full = ground (
  arith,
  get_elem?-append (length pre) pre (byte_of op) (operand ++ []) refl,
  decode-byte_of op,
  length-append pre (byte_of op ∷ (operand ++ [])),
  length-append operand [],
  full,
)

fix_jumps-round :
    (fuel start len : ℕ) (pre : List ℕ) (op : DIns) (operand post : List ℕ)
    → ins_size op ≡ suc (length operand)
    → 0 < length post
    → fix_jumps (suc fuel) start len (pre ++ byte_of op ∷ (operand ++ post)) (length pre)
      ≡ fix_jumps fuel start len
          (fix_ins start len (pre ++ byte_of op ∷ (operand ++ post)) (length pre) op)
          (length pre + ins_size op)
unfolding fix_jumps
fix_jumps-round fuel start len pre op operand post full more = ground (
  arith,
  get_elem?-append (length pre) pre (byte_of op) (operand ++ post) refl,
  decode-byte_of op,
  length-append pre (byte_of op ∷ (operand ++ post)),
  length-append operand post,
  full,
)

-- The loop over a text that is given as complete instructions fixes each of them but the last one
-- at its own place.
fix_jumps-encode :
    (fuel start len : ℕ) (pre : List ℕ) (is : List Instruction)
    → AllComplete is
    → length is ≤ fuel
    → fix_jumps fuel start len (pre ++ encode is) (length pre)
      ≡ some (pre ++ encode (all_fixed start len (length pre) is))
fix_jumps-encode fuel start len pre [] full le = fix_jumps-end fuel start len pre
fix_jumps-encode zero start len pre (i ∷ is) full le = absurd (omega arith)
fix_jumps-encode (suc fuel) start len pre (i ∷ []) full le =
    fix_jumps-last fuel start len pre i.op i.operand (full.0)
fix_jumps-encode (suc fuel) start len pre (i ∷ j ∷ is) full le =
    fix_jumps-round fuel start len pre i.op i.operand rest (full.0) (omega arith)
    ∙ ap₂ (λ t p. fix_jumps fuel start len t p)
        (fix_ins-append start len pre i.op i.operand rest (full.0) (relative i.op) refl
          ∙ sym (append_assoc pre (byte_of i.op ∷ new) rest))
        place
    ∙ fix_jumps-encode fuel start len (pre ++ byte_of i.op ∷ new) (j ∷ is) (full.1) (omega arith)
    ∙ ap (λ p. some (pre ++ byte_of i.op ∷ new ++ encode (all_fixed start len p (j ∷ is))))
        (sym place)
    ∙ ap some (
        append_assoc pre (byte_of i.op ∷ new)
          (encode (all_fixed start len (length pre + ins_size i.op) (j ∷ is))))
  where
    rest : List ℕ
    rest = encode (j ∷ is)

    new : List ℕ
    new = fixed_operand start len (length pre) (relative i.op) i.operand

    place : length pre + ins_size i.op ≡ length (pre ++ byte_of i.op ∷ new)
    place = omega (
      arith,
      full.0,
      length-append pre (byte_of i.op ∷ new),
      length-fixed_operand start len (length pre) i.op i.operand (full.0) (relative i.op) refl,
    )

length-encode : (is : List Instruction) → length is ≤ length (encode is)
length-encode [] = omega arith
length-encode (i ∷ is) = omega (arith, length-encode is, length-append i.operand (encode is))

-- On a text of complete instructions the loop always ends, and rewrites the amount of every
-- relative jump and call for its own place, but that of the last instruction; all else stays.
pub fix_jumps_lem :
    (start len : ℕ) (is : List Instruction)
    → AllComplete is
    → fix_jumps (length (encode is)) start len (encode is) 0
      ≡ some (encode (all_fixed start len 0 is))
fix_jumps_lem start len is full =
    fix_jumps-encode (length (encode is)) start len [] is full (length-encode is)
