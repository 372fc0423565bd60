-- ===== src/Bytecode/Tests.antt =====
-- The theorems about pieces of bytecode at concrete pieces.
use decision.Prelude.{◌≡◌, [], ◌∷◌, none, arith}
use decision.Bytecode.{BCode, d_concat_bytecode, d_bytecode_set_fimmediate}
use decision.Bytecode.Join.{IsLinked, IsJoined, d_concat_bytecode-IsJoined, set_fimmediate-outside}

-- CALLCI with a link, and a RET.
abbrev call : BCode
call = record {
  code = 13 ∷ 0 ∷ 0 ∷ 0 ∷ 0 ∷ 0 ∷ 0 ∷ 0 ∷ 0 ∷ 1 ∷ [];
  link_list = record { ins = 0; link = 5 } ∷ [];
}

abbrev return_ : BCode
return_ = record { code = 0 ∷ []; link_list = [] }

call-IsLinked : IsLinked call
call-IsLinked = (omega arith, tt)

d_concat_bytecode-IsJoined_example : IsJoined return_ call (d_concat_bytecode return_ call)
d_concat_bytecode-IsJoined_example = d_concat_bytecode-IsJoined return_ call tt call-IsLinked

set_fimmediate-outside_example : d_bytecode_set_fimmediate return_ 1 7 ≡ none
set_fimmediate-outside_example = set_fimmediate-outside return_ 1 7 (omega arith) (omega arith)
