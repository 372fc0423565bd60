-- ===== src/Optimize/Shrink.antt =====
-- The passes of src/doptimize.c that run once: calls of functions of the same sheet, and operands
-- that fit fewer bytes; and `d_optimize_all`.
use decision.Prelude.{
  ℕ, zero, suc, ◌+◌, ◌-◌, Bool, true, false, ◌&&◌, ◌||◌, List, [], ◌∷◌, Option, none, some, ◌>>=◌,
  length, get_elem?, set, ltb, leb, ◌==◌, if◌then◌else◌, sub_word, slt, sle,
}
use decision.Vm.Opcode
use decision.Vm.Opcode.{DIns, ins_size, byte_of}
use decision.Optimize.{
  Sections, InstructionToLink, LinkMeta, is_function, Width, byte_width, half_width, full_width,
  width_bytes, d_optimize_remove_ins_to_link,
}
use decision.Optimize.Passes.{
  Change, kept, replaced, run_pass, immediate_at, with_immediate, replacement,
  d_optimize_not_consecutive, d_optimize_push_pop_consecutive, d_optimize_useless,
  d_optimize_simplify,
}

-- A call of a function of this sheet becomes a relative call.
unfoldable pub call_relative : Sections → InstructionToLink → LinkMeta → Option Sections
call_relative s l m =
    if leb (l.ins + 1 + width_bytes full_width) (length s.text)
    then some (record s {
      text =
          with_immediate (set s.text l.ins (byte_of Opcode.op_callrf)) (l.ins + 1) full_width
            (sub_word m.ptr l.ins);
    })
    else none

-- The loop over the links. `is_own` tells of a link whether its member `meta`, which the sections
-- do not have, is a function of this sheet.
unfoldable pub own_calls : (ℕ → Bool) → ℕ → Sections → ℕ → Bool → Option (Sections × Bool)
own_calls is_own zero s i optimized =
    if ltb i (length s.ins_link_list) then none else some (s, optimized)
own_calls is_own (suc fuel) s i optimized = elim (get_elem? s.ins_link_list i) [
  | none ↦ some (s, optimized)
  | some l ↦ elim (get_elem? s.link l.link) [
    | none ↦ none
    | some m ↦ elim (is_function m.type && is_own l.link) [
      | false ↦ own_calls is_own fuel s (suc i) optimized
      | true ↦ elim (call_relative s l m) [
        | none ↦ none
        | some s' ↦
            own_calls is_own fuel
              (record s' { ins_link_list = d_optimize_remove_ins_to_link s.ins_link_list i }) i true
      ]
    ]
  ]
]

unfoldable pub d_optimize_call_func_relative : (ℕ → Bool) → Sections → Option (Sections × Bool)
d_optimize_call_func_relative is_own s = own_calls is_own (length s.ins_link_list) s 0 false

-- `SHRINK_FIMMEDIATE_OPS`: the opcodes with a half and with a byte immediate.
unfoldable pub shrink_ops : DIns → Option (DIns × DIns)
shrink_ops Opcode.op_addfi = some (Opcode.op_addhi, Opcode.op_addbi)
shrink_ops Opcode.op_andfi = some (Opcode.op_andhi, Opcode.op_andbi)
shrink_ops Opcode.op_callrf = some (Opcode.op_callrh, Opcode.op_callrb)
shrink_ops Opcode.op_divfi = some (Opcode.op_divhi, Opcode.op_divbi)
shrink_ops Opcode.op_getfi = some (Opcode.op_gethi, Opcode.op_getbi)
shrink_ops Opcode.op_jrfi = some (Opcode.op_jrhi, Opcode.op_jrbi)
shrink_ops Opcode.op_jrconfi = some (Opcode.op_jrconhi, Opcode.op_jrconbi)
shrink_ops Opcode.op_modfi = some (Opcode.op_modhi, Opcode.op_modbi)
shrink_ops Opcode.op_mulfi = some (Opcode.op_mulhi, Opcode.op_mulbi)
shrink_ops Opcode.op_orfi = some (Opcode.op_orhi, Opcode.op_orbi)
shrink_ops Opcode.op_popf = some (Opcode.op_poph, Opcode.op_popb)
shrink_ops Opcode.op_pushf = some (Opcode.op_pushh, Opcode.op_pushb)
shrink_ops Opcode.op_pushnf = some (Opcode.op_pushnh, Opcode.op_pushnb)
shrink_ops Opcode.op_subfi = some (Opcode.op_subhi, Opcode.op_subbi)
shrink_ops Opcode.op_xorfi = some (Opcode.op_xorhi, Opcode.op_xorbi)
shrink_ops _ = none

-- The jumps of which the operand counts from the instruction.
unfoldable pub is_relative : DIns → Bool
is_relative Opcode.op_callrf = true
is_relative Opcode.op_jrfi = true
is_relative Opcode.op_jrconfi = true
is_relative _ = false

unfoldable pub is_link_at : List InstructionToLink → ℕ → Bool
is_link_at [] i = false
is_link_at (l ∷ ls) i = i == l.ins || is_link_at ls i

-- `BIMMEDIATE_MIN` to `BIMMEDIATE_MAX`, and `HIMMEDIATE_MIN` to `HIMMEDIATE_MAX`, as words.
unfoldable pub fits_byte : ℕ → Bool
fits_byte v = sle 0xffff_ffff_ffff_ff80 v && sle v 0x7f

unfoldable pub fits_half : ℕ → Bool
fits_half v = sle 0xffff_ffff_8000_0000 v && sle v 0x7fff_ffff

-- A forward jump is shorter by the bytes that are removed behind its opcode.
unfoldable pub adjusted : DIns → ℕ → ℕ → ℕ
adjusted op len v = if is_relative op && slt 0 v then sub_word v len else v

-- The new opcode, the removal, and the new operand.
unfoldable pub shrink : Sections → ℕ → DIns → DIns → Width → ℕ → Option Change
shrink s i op op' w v = do
  let len = width_bytes full_width - width_bytes w
  s' ← replacement s i op' len
  if leb (i + 1 + width_bytes w) (length s'.text)
      then some
          (replaced (record s' { text = with_immediate s'.text (i + 1) w (adjusted op len v) }) op')
      else none

unfoldable pub shrink_change : Sections → ℕ → DIns → Option Change
shrink_change s i op = if is_link_at s.ins_link_list i then some kept else (elim (shrink_ops op) [
  | none ↦ some kept
  | some (half, byte) ↦ (do
    v ← immediate_at s.text (i + 1) full_width
    if fits_byte v
        then shrink s i op byte byte_width v
        else if fits_half v
        then shrink s i op half half_width v
        else some kept)
])

unfoldable pub d_optimize_shrink_fimmediate : Sections → Option (Sections × Bool)
d_optimize_shrink_fimmediate s = run_pass false shrink_change s

-- One round of the three passes that are repeated.
unfoldable pub repeat_round : Sections → Option (Sections × Bool)
repeat_round s = do
  first ← d_optimize_not_consecutive s
  second ← d_optimize_push_pop_consecutive first.0
  third ← d_optimize_useless second.0
  some (third.0, first.1 || (second.1 || third.1))

-- A round that changes anything takes out a byte.
unfoldable pub repeat_loop : ℕ → Sections → Option Sections
repeat_loop zero s = none
repeat_loop (suc fuel) s = elim (repeat_round s) [
  | none ↦ none
  | some (s', again) ↦ elim again [ true ↦ repeat_loop fuel s' | false ↦ some s' ]
]

unfoldable pub d_optimize_all : (ℕ → Bool) → Sections → Option Sections
d_optimize_all is_own s = do
  repeated ← repeat_loop (suc (length s.text)) s
  called ← d_optimize_call_func_relative is_own repeated
  simplified ← d_optimize_simplify called.0
  shrunk ← d_optimize_shrink_fimmediate simplified.0
  some shrunk.0
