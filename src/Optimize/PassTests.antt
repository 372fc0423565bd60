-- ===== src/Optimize/PassTests.antt =====
-- The passes on a small text, and their theorems at it.
use decision.Prelude.{
  ℕ, ◌-◌, ◌≡◌, refl, inr, Bool, false, List, [], ◌∷◌, some, length, arith, suc, add_word, sub_word,
  extend8, extend32,
}
use decision.Vm.Opcode
use decision.Vm.Opcode.{decode, byte_of}
use decision.Optimize.{
  Sections, byte_width, full_width, modulus, extend, width_bytes, fix_amount, shifted, relative,
  read_number, number_bytes, fix_ins, fix_jumps, d_optimize_remove_ins_to_link, fix_links,
  fix_index, is_function, fix_meta, fix_metas, d_optimize_remove_bytecode, link_function,
}
use decision.Optimize.Encode.{Instruction, encode}
use decision.Optimize.Passes.{
  pass_loop, removal, opcode_at, is_not, not_change, d_optimize_not_consecutive, immediate_at,
  is_push, is_pop, pop_width, pop_width_at, shorten_pop, push_pop_change,
  d_optimize_push_pop_consecutive, items_width, useless_change, d_optimize_useless, replacement,
  simple_form, simplify_change, d_optimize_simplify,
}
use decision.Optimize.Shrink.{
  call_relative, own_calls, d_optimize_call_func_relative, shrink_ops, is_relative, is_link_at,
  fits_byte, fits_half, adjusted, shrink, shrink_change, d_optimize_shrink_fimmediate, repeat_round,
  repeat_loop, d_optimize_all,
}
use decision.Optimize.Repeat.{IsRepeated, repeat_loop_lem}
use decision.Optimize.All.{IsAllOptimized, d_optimize_all_lem}
use decision.Optimize.Numbers.{narrowed, narrowed_lem, adjusted-narrowed}

-- PUSHB 5, POP, NOT, NOT, POPB 1, ADDFI 7, PUSHF 7 and RETN 0. The PUSHF is linked.
abbrev instructions : List Instruction
instructions =
    record { op = Opcode.op_pushb; operand = 5 ∷ [] }
    ∷ record { op = Opcode.op_pop; operand = [] }
    ∷ record { op = Opcode.op_not; operand = [] }
    ∷ record { op = Opcode.op_not; operand = [] }
    ∷ record { op = Opcode.op_popb; operand = 1 ∷ [] }
    ∷ record { op = Opcode.op_addfi; operand = 7 ∷ 0 ∷ 0 ∷ 0 ∷ 0 ∷ 0 ∷ 0 ∷ 0 ∷ [] }
    ∷ record { op = Opcode.op_pushf; operand = 7 ∷ 0 ∷ 0 ∷ 0 ∷ 0 ∷ 0 ∷ 0 ∷ 0 ∷ [] }
    ∷ record { op = Opcode.op_retn; operand = 0 ∷ [] }
    ∷ []

abbrev sheet : Sections
sheet = record {
  text = encode instructions;
  ins_link_list = record { ins = 16; link = 0 } ∷ [];
  link = record { type = link_function; ptr = 0 } ∷ [];
  main = 0;
}

abbrev none_own : ℕ → Bool
none_own k = false

abbrev optimized : List Instruction
optimized =
    record { op = Opcode.op_pop; operand = [] }
    ∷ record { op = Opcode.op_addbi; operand = 7 ∷ [] }
    ∷ record { op = Opcode.op_pushf; operand = 7 ∷ 0 ∷ 0 ∷ 0 ∷ 0 ∷ 0 ∷ 0 ∷ 0 ∷ [] }
    ∷ record { op = Opcode.op_ret; operand = [] }
    ∷ []

repeat_loop_lem_example : IsRepeated sheet (repeat_loop (suc (length sheet.text)) sheet)
repeat_loop_lem_example = repeat_loop_lem sheet instructions (record {
  text = refl;
  complete = (refl, (refl, (refl, (refl, (refl, (refl, (refl, (refl, tt))))))));
})

d_optimize_all_lem_example : IsAllOptimized sheet (d_optimize_all none_own sheet)
d_optimize_all_lem_example =
    d_optimize_all_lem none_own sheet instructions (λ k. refl)
      (record {
        text = refl;
        complete = (refl, (refl, (refl, (refl, (refl, (refl, (refl, (refl, tt))))))));
      })
      (omega arith, tt)

-- The first three passes remove the first four instructions, and the others make shorter ones but of
-- the linked one.
sheet_optimized :
    d_optimize_all none_own sheet
    ≡ some (record {
      text = encode optimized;
      ins_link_list = record { ins = 3; link = 0 } ∷ [];
      link = record { type = link_function; ptr = 0 } ∷ [];
      main = 0;
    })
unfolding d_optimize_all repeat_loop repeat_round d_optimize_not_consecutive
    d_optimize_push_pop_consecutive d_optimize_useless d_optimize_simplify
    d_optimize_shrink_fimmediate d_optimize_call_func_relative own_calls call_relative pass_loop
    removal opcode_at is_not not_change immediate_at is_push is_pop pop_width pop_width_at
    shorten_pop push_pop_change items_width useless_change replacement simple_form simplify_change
    shrink_ops is_relative is_link_at fits_byte fits_half adjusted shrink shrink_change
    d_optimize_remove_bytecode fix_jumps fix_ins fix_amount extend modulus width_bytes relative
    read_number number_bytes fix_links d_optimize_remove_ins_to_link fix_index fix_meta fix_metas
    is_function decode add_word sub_word extend8 extend32
sheet_optimized = refl

narrowed_lem_example : narrowed byte_width 0xffff_ffff_ffff_fff0 ≡ 0xffff_ffff_ffff_fff0
unfolding fits_byte
narrowed_lem_example = narrowed_lem byte_width 0xffff_ffff_ffff_fff0 (omega arith) refl

-- JRFI +30 at 20 is made a JRBI.
adjusted-narrowed_example :
    add_word 20 (
      narrowed byte_width
        (adjusted Opcode.op_jrfi (width_bytes full_width - width_bytes byte_width) 30))
    ≡ shifted 21 (width_bytes full_width - width_bytes byte_width) 50
unfolding fits_byte is_relative width_bytes sub_word
adjusted-narrowed_example =
    adjusted-narrowed Opcode.op_jrfi byte_width 20 50 30 refl (omega arith) (omega arith)
      (inr (omega arith)) refl refl
