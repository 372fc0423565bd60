-- ===== src/Optimize/Tests.antt =====
-- A removal in a small text, and the theorems about removals at concrete indices.
use decision.Prelude.{
  ◌≡◌, refl, List, [], ◌∷◌, some, inl, inr, arith, add_word, sub_word, extend8, extend32,
}
use decision.Vm.Opcode
use decision.Vm.Opcode.{decode}
use decision.Optimize.{
  InstructionToLink, link_function, link_variable, Sections, byte_width, modulus, extend,
  width_bytes, fix_amount, shifted, relative, read_number, number_bytes, fix_ins, fix_jumps,
  d_optimize_remove_ins_to_link, fix_links, fix_index, is_function, fix_meta, fix_metas,
  d_optimize_remove_bytecode,
}
use decision.Optimize.Jumps.{fix_amount_lem}
use decision.Optimize.Encode.{Instruction, encode, all_fixed}
use decision.Optimize.Text.{fix_jumps_lem}
use decision.Optimize.Remove.{IsTakenOut, d_optimize_remove_bytecode_lem}
use decision.Optimize.Links.{kept_links, fix_links_lem}

abbrev links : List InstructionToLink
links =
    record { ins = 0; link = 7 } ∷ record { ins = 2; link = 8 } ∷ record { ins = 4; link = 9 } ∷ []

-- JRBI +4 over two NOTs to a RET, and a JRBI -4 back over them, then RET.
abbrev sheet : Sections
sheet = record {
  text = 50 ∷ 4 ∷ 66 ∷ 66 ∷ 50 ∷ 252 ∷ 0 ∷ [];
  ins_link_list = links;
  link = record { type = link_function; ptr = 4 } ∷ record { type = link_variable; ptr = 4 } ∷ [];
  main = 3;
}

nots_removed :
    d_optimize_remove_bytecode sheet 2 2
    ≡ some (record {
      text = 50 ∷ 2 ∷ 50 ∷ 254 ∷ 0 ∷ [];
      ins_link_list = record { ins = 0; link = 7 } ∷ record { ins = 2; link = 9 } ∷ [];
      link =
          record { type = link_function; ptr = 2 } ∷ record { type = link_variable; ptr = 4 } ∷ [];
      main = 2;
    })
unfolding d_optimize_remove_bytecode fix_jumps fix_ins fix_amount extend modulus width_bytes
    relative read_number number_bytes fix_links d_optimize_remove_ins_to_link fix_index fix_meta
    fix_metas is_function decode add_word extend8 extend32
nots_removed = refl

-- The jump from 4 to 0 over the removed bytes 2 and 3.
fix_amount_lem_example :
    add_word (shifted 2 2 4) (extend byte_width (fix_amount byte_width 2 2 (shifted 2 2 4) 252))
    ≡ shifted 2 2 0
unfolding nots_removed sub_word
fix_amount_lem_example =
    fix_amount_lem byte_width 2 2 4 0 252 (omega arith) (inr (omega arith)) (inl (omega arith))
      (omega arith) (omega arith) (omega arith) refl

fix_links_lem_example : fix_links 3 2 2 links 0 ≡ some (kept_links 2 2 links)
fix_links_lem_example = fix_links_lem 2 2 links

-- The instructions of `sheet` before, in and after the removed part.
abbrev before : List Instruction
before = record { op = Opcode.op_jrbi; operand = 4 ∷ [] } ∷ []

abbrev gone : List Instruction
gone =
    record { op = Opcode.op_not; operand = [] } ∷ record { op = Opcode.op_not; operand = [] } ∷ []

abbrev after : List Instruction
after =
    record { op = Opcode.op_jrbi; operand = 252 ∷ [] }
    ∷ record { op = Opcode.op_ret; operand = [] }
    ∷ []

fix_jumps_lem_example : fix_jumps 3 2 2 (encode after) 0 ≡ some (encode (all_fixed 2 2 0 after))
fix_jumps_lem_example = fix_jumps_lem 2 2 after (refl, (refl, tt))

d_optimize_remove_bytecode_lem_example :
    IsTakenOut sheet before gone after (d_optimize_remove_bytecode sheet 2 2)
d_optimize_remove_bytecode_lem_example =
    d_optimize_remove_bytecode_lem sheet before gone after refl (omega arith) (refl, tt)
      (refl, (refl, tt))
