-- ===== src/Bytecode.antt =====
-- Pieces of bytecode: `BCode` of src/dasm.h, and the functions of src/dasm.c that build and join
-- them. The information for the debugger is left out. A store outside a piece is `none`.
pub mod Join
mod Tests
use decision.Prelude.{
  ℕ, zero, suc, ◌+◌, ◌-◌, ◌%◌, ◌/◌, Bool, true, false, List, [], ◌∷◌, ◌++◌, Option, none, some,
  length, take, drop, set, replicate, ltb, leb, ◌==◌, if◌then◌else◌, word_mod,
}
use decision.Vm.Opcode.{DIns, byte_of, ins_size, fimmediate_size}
use decision.Optimize.{InstructionToLink, number_bytes}

pub record BCode : Type 0 where
  pub code : List ℕ
  pub link_list : List InstructionToLink

unfoldable pub d_malloc_bytecode : ℕ → BCode
d_malloc_bytecode size = record { code = replicate size 0; link_list = [] }

-- Outside the piece nothing is stored.
unfoldable pub d_bytecode_set_byte : BCode → ℕ → ℕ → BCode
d_bytecode_set_byte b index byte =
    if ltb index (length b.code) then record b { code = set b.code index (byte % 256) } else b

unfoldable pub d_bytecode_ins : DIns → BCode
d_bytecode_ins opcode = d_bytecode_set_byte (d_malloc_bytecode (ins_size opcode)) 0 (byte_of opcode)

-- The test `index < size - FIMMEDIATE_SIZE + 1` is made on a `size_t`, which wraps around for a
-- piece that is too short; the store is then outside it.
unfoldable pub d_bytecode_set_fimmediate : BCode → ℕ → ℕ → Option BCode
d_bytecode_set_fimmediate b index fimmediate =
    if ltb index ((length b.code + word_mod - fimmediate_size + 1) % word_mod)
    then (if leb (index + fimmediate_size) (length b.code)
        then some (record b {
          code =
              take index b.code
              ++ number_bytes fimmediate_size fimmediate
              ++ drop (index + fimmediate_size) b.code;
        })
        else none)
    else some b

-- The links of a piece that comes to stand behind `size` bytes.
unfoldable pub moved_links : ℕ → List InstructionToLink → List InstructionToLink
moved_links size [] = []
moved_links size (l ∷ ls) = record l { ins = l.ins + size } ∷ moved_links size ls

-- The piece `base` afterwards.
unfoldable pub d_concat_bytecode : BCode → BCode → BCode
d_concat_bytecode base after = if length after.code == 0 then base else (record {
  code = base.code ++ after.code;
  link_list = base.link_list ++ moved_links (length base.code) after.link_list;
})
