-- ===== src/Optimize/Passes.antt =====
-- The passes of src/doptimize.c over the text of a sheet. They have one loop in common, which the
-- source writes out in each: at an instruction, a pass keeps it, removes bytes from its start on, or
-- replaces it by a shorter one.
use decision.Prelude.{
  ℕ, zero, suc, ◌+◌, ◌-◌, ◌*◌, ◌%◌, Bool, true, false, ◌&&◌, List, ◌++◌, Option, none, some, ◌>>=◌,
  length, get_elem?, set, take, drop, ltb, leb, ◌==◌, if◌then◌else◌,
}
use decision.Vm.Opcode
use decision.Vm.Opcode.{DIns, ins_size, decode, byte_of}
use decision.Optimize.{
  Sections, Width, byte_width, half_width, full_width, width_bytes, modulus, extend, read_number,
  number_bytes, d_optimize_remove_bytecode,
}

-- What a pass does at an instruction. After `removed` the loop looks at the same index again, after
-- `replaced` it goes behind the new instruction.
pub data Change : Type 0 where
  kept : Change
  removed : Sections → Change
  replaced : Sections → DIns → Change

-- The loop over the text. Two of the passes end it at the last instruction (`early`). A byte that is no opcode has
-- no size, or ends the process; `none` is also the end of the fuel.
unfoldable pub pass_loop :
    Bool
    → (Sections → ℕ → DIns → Option Change)
    → ℕ
    → Sections
    → ℕ
    → Bool
    → Option (Sections × Bool)
pass_loop early change zero s i optimized =
    if ltb i (length s.text) then none else some (s, optimized)
pass_loop early change (suc fuel) s i optimized = elim (get_elem? s.text i) [
  | none ↦ some (s, optimized)
  | some b ↦ elim (decode b) [
    | none ↦ none
    | some op ↦ elim (early && leb (length s.text) (i + ins_size op)) [
      | true ↦ some (s, optimized)
      | false ↦ elim (change s i op) [
        | none ↦ none
        | some c ↦ elim c [
          | kept ↦ pass_loop early change fuel s (i + ins_size op) optimized
          | removed s' ↦ pass_loop early change fuel s' i true
          | replaced s' op' ↦ pass_loop early change fuel s' (i + ins_size op') true
        ]
      ]
    ]
  ]
]

-- Each round goes on by a byte, or takes one out.
abbrev pub run_pass :
    Bool → (Sections → ℕ → DIns → Option Change) → Sections → Option (Sections × Bool)
run_pass early change s = pass_loop early change (suc (length s.text)) s 0 false

-- Bytes taken out, and then the change that this is.
unfoldable pub removal : Sections → ℕ → ℕ → Option Change
removal s start len = elim (d_optimize_remove_bytecode s start len) [
  | none ↦ none
  | some s' ↦ some (removed s')
]

-- The opcode at an index of the text, a byte of which may be none.
unfoldable pub opcode_at : List ℕ → ℕ → Option DIns
opcode_at text i = elim (get_elem? text i) [ none ↦ none | some b ↦ decode b ]

unfoldable pub is_not : Option DIns → Bool
is_not (some Opcode.op_not) = true
is_not _ = false

unfoldable pub not_change : Sections → ℕ → DIns → Option Change
not_change s i op =
    if is_not (some op) && is_not (opcode_at s.text (i + ins_size op))
    then removal s i (2 * ins_size Opcode.op_not)
    else some kept

unfoldable pub d_optimize_not_consecutive : Sections → Option (Sections × Bool)
d_optimize_not_consecutive s = run_pass true not_change s

-- An operand in the text: one that is not all inside is undefined behaviour.
unfoldable pub immediate_at : List ℕ → ℕ → Width → Option ℕ
immediate_at text i w =
    if leb (i + width_bytes w) (length text)
    then some (read_number (width_bytes w) (drop i text))
    else none

abbrev pub with_immediate : List ℕ → ℕ → Width → ℕ → List ℕ
with_immediate text i w v =
    take i text ++ number_bytes (width_bytes w) v ++ drop (i + width_bytes w) text

unfoldable pub is_push : DIns → Bool
is_push Opcode.op_pushb = true
is_push Opcode.op_pushh = true
is_push Opcode.op_pushf = true
is_push _ = false

unfoldable pub is_pop : Option DIns → Bool
is_pop (some Opcode.op_pop) = true
is_pop _ = false

-- The operand of POPB, POPH and POPF.
unfoldable pub pop_width : DIns → Option Width
pop_width Opcode.op_popb = some byte_width
pop_width Opcode.op_poph = some half_width
pop_width Opcode.op_popf = some full_width
pop_width _ = none

unfoldable pub pop_width_at : Option DIns → Option Width
pop_width_at none = none
pop_width_at (some op) = pop_width op

-- A push before a pop of some items: the push is removed, and one item fewer popped. The number of
-- items is extended to an unsigned word, so that a negative one is not 0.
unfoldable pub shorten_pop : Sections → ℕ → DIns → Width → Option Change
shorten_pop s i op w = do
  let at = i + ins_size op + 1
  v ← immediate_at s.text at w
  if ltb 0 (extend w v)
      then removal (record s { text = with_immediate s.text at w ((extend w v - 1) % modulus w) }) i
          (ins_size op)
      else some kept

unfoldable pub push_pop_change : Sections → ℕ → DIns → Option Change
push_pop_change s i op =
    let second = opcode_at s.text (i + ins_size op) in
    if is_push op
    then (if is_pop second
        then removal s i (ins_size op + ins_size Opcode.op_pop)
        else elim (pop_width_at second) [ none ↦ some kept | some w ↦ shorten_pop s i op w ])
    else some kept

unfoldable pub d_optimize_push_pop_consecutive : Sections → Option (Sections × Bool)
d_optimize_push_pop_consecutive s = run_pass true push_pop_change s

-- The instructions that push or pop a number of items.
unfoldable pub items_width : DIns → Option Width
items_width Opcode.op_popb = some byte_width
items_width Opcode.op_poph = some half_width
items_width Opcode.op_popf = some full_width
items_width Opcode.op_pushnb = some byte_width
items_width Opcode.op_pushnh = some half_width
items_width Opcode.op_pushnf = some full_width
items_width _ = none

unfoldable pub useless_change : Sections → ℕ → DIns → Option Change
useless_change s i op = elim (items_width op) [
  | none ↦ some kept
  | some w ↦ (do
    v ← immediate_at s.text (i + 1) w
    if v == 0 then removal s i (ins_size op) else some kept)
]

unfoldable pub d_optimize_useless : Sections → Option (Sections × Bool)
d_optimize_useless s = run_pass false useless_change s

-- The opcode is replaced first, and then bytes behind it are removed.
unfoldable pub replacement : Sections → ℕ → DIns → ℕ → Option Sections
replacement s i op len =
    d_optimize_remove_bytecode (record s { text = set s.text i (byte_of op) }) (i + 1) len

-- RETN 0 is RET, and a pop of one item is POP: the width, the number and the new opcode.
unfoldable pub simple_form : DIns → Option (Width × ℕ × DIns)
simple_form Opcode.op_retn = some (byte_width, 0, Opcode.op_ret)
simple_form Opcode.op_popb = some (byte_width, 1, Opcode.op_pop)
simple_form Opcode.op_poph = some (half_width, 1, Opcode.op_pop)
simple_form Opcode.op_popf = some (full_width, 1, Opcode.op_pop)
simple_form _ = none

unfoldable pub simplify_change : Sections → ℕ → DIns → Option Change
simplify_change s i op = elim (simple_form op) [
  | none ↦ some kept
  | some (w, n, op') ↦ (do
    v ← immediate_at s.text (i + 1) w
    if v == n
        then (do s' ← replacement s i op' (width_bytes w); some (replaced s' op'))
        else some kept)
]

unfoldable pub d_optimize_simplify : Sections → Option (Sections × Bool)
d_optimize_simplify s = run_pass false simplify_change s
