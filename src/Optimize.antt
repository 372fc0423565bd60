-- ===== src/Optimize.antt =====
-- The optimiser's removal of bytes: `d_optimize_remove_bytecode` of src/doptimize.c, on the sections
-- of a sheet that it changes.
pub mod Jumps
pub mod Links
pub mod Encode
pub mod Text
pub mod Remove
pub mod Passes
pub mod Shrink
pub mod Outcome
pub mod Loop
pub mod Shapes
pub mod Operand
pub mod Sound
pub mod PushPop
pub mod Repeat
pub mod Replace
pub mod Narrow
pub mod All
pub mod Numbers
mod Tests
mod PassTests
use decision.Prelude.{
  ℕ, zero, suc, ◌+◌, ◌-◌, ◌*◌, ◌/◌, ◌%◌, Bool, true, false, ◌&&◌, ◌||◌, not, List, [], ◌∷◌, ◌++◌,
  Option, none, some, ◌>>=◌, length, get_elem?, take, drop, ltb, leb, ◌==◌, if◌then◌else◌, add_word,
  extend8, extend32, minus_one,
}
use decision.Vm.Opcode
use decision.Vm.Opcode.{DIns, ins_size, decode}

-- `InstructionToLink` of src/dsheet.h.
pub record InstructionToLink : Type 0 where
  pub ins : ℕ
  pub link : ℕ

pub data LinkType : Type 0 where
  link_data_string_literal link_variable link_variable_pointer : LinkType
  link_variable_string_default_value link_function link_cfunction : LinkType

-- `LinkMeta`, without its name and its metadata, which the removal does not read.
pub record LinkMeta : Type 0 where
  pub type : LinkType
  pub ptr : ℕ

-- The sections of a `Sheet`.
pub record Sections : Type 0 where
  pub text : List ℕ
  pub ins_link_list : List InstructionToLink
  pub link : List LinkMeta
  pub main : ℕ

unfoldable pub d_optimize_remove_ins_to_link : List InstructionToLink → ℕ → List InstructionToLink
d_optimize_remove_ins_to_link list index =
    if ltb index (length list) then take index list ++ drop (suc index) list else list

-- The widths of an operand, in bytes: one, four or eight.
pub data Width : Type 0 where
  byte_width half_width full_width : Width

unfoldable pub width_bytes : Width → ℕ
width_bytes byte_width = 1
width_bytes half_width = 4
width_bytes full_width = 8

unfoldable pub modulus : Width → ℕ
modulus byte_width = 0x100
modulus half_width = 0x1_0000_0000
modulus full_width = 0x1_0000_0000_0000_0000

-- The amount of a jump as a signed number in a word.
unfoldable pub extend : Width → ℕ → ℕ
extend byte_width a = extend8 a
extend half_width a = extend32 a
extend full_width a = a

-- The new amount of a relative jump that stands at `i` after the removal.
unfoldable pub fix_amount : Width → ℕ → ℕ → ℕ → ℕ → ℕ
fix_amount w start len i amount =
    let negative = leb (modulus w / 2) amount in
    if leb start i && negative
    then (if ltb (add_word (i + len) (extend w amount)) start
        then (amount + len) % modulus w
        else amount)
    else if ltb i start && not negative && ltb 0 amount
    then (if leb (start + len) (add_word i (extend w amount))
        then (amount + modulus w - len % modulus w) % modulus w
        else amount)
    else amount

-- The operand of a relative jump or call.
unfoldable pub relative : DIns → Option Width
relative Opcode.op_callrf = some full_width
relative Opcode.op_jrfi = some full_width
relative Opcode.op_jrconfi = some full_width
relative Opcode.op_callrh = some half_width
relative Opcode.op_jrhi = some half_width
relative Opcode.op_jrconhi = some half_width
relative Opcode.op_callrb = some byte_width
relative Opcode.op_jrbi = some byte_width
relative Opcode.op_jrconbi = some byte_width
relative _ = none

-- Little-endian numbers in the text.
unfoldable pub read_number : ℕ → List ℕ → ℕ
read_number zero bytes = 0
read_number (suc n) [] = 0
read_number (suc n) (b ∷ bytes) = b + 256 * read_number n bytes

unfoldable pub number_bytes : ℕ → ℕ → List ℕ
number_bytes zero v = []
number_bytes (suc n) v = v % 256 ∷ number_bytes n (v / 256)

-- The text with the operand of the instruction at `i` fixed.
unfoldable pub fix_ins : ℕ → ℕ → List ℕ → ℕ → DIns → List ℕ
fix_ins start len text i op = elim (relative op) [
  | none ↦ text
  | some w ↦
      (let n = width_bytes w in
        let amount = read_number n (drop (suc i) text) in
        take (suc i) text
        ++ number_bytes n (fix_amount w start len i amount)
        ++ drop (suc i + n) text)
]

-- The loop over the instructions from index `i`. The source exits the process at a byte that is no
-- opcode, which is `none`, as is the end of the fuel.
unfoldable pub fix_jumps : ℕ → ℕ → ℕ → List ℕ → ℕ → Option (List ℕ)
fix_jumps zero start len text i = if ltb i (length text) then none else some text
fix_jumps (suc fuel) start len text i = elim (get_elem? text i) [
  | none ↦ some text
  | some b ↦ elim (decode b) [
    | none ↦ none
    | some op ↦ elim (leb (length text) (i + ins_size op)) [
      | true ↦ some text
      | false ↦ fix_jumps fuel start len (fix_ins start len text i op) (i + ins_size op)
    ]
  ]
]

-- Where an index is after the removal, for one that is not removed.
abbrev pub shifted : ℕ → ℕ → ℕ → ℕ
shifted start len i = if leb (start + len) i then i - len else i

abbrev pub is_removed : ℕ → ℕ → ℕ → Bool
is_removed start len i = leb start i && ltb i (start + len)

-- The loop over the list of links: one that was removed is taken out, and the index stays.
unfoldable pub fix_links : ℕ → ℕ → ℕ → List InstructionToLink → ℕ → Option (List InstructionToLink)
fix_links zero start len list i = if ltb i (length list) then none else some list
fix_links (suc fuel) start len list i = elim (get_elem? list i) [
  | none ↦ some list
  | some l ↦ elim (is_removed start len l.ins) [
    | true ↦ fix_links fuel start len (d_optimize_remove_ins_to_link list i) i
    | false ↦
        fix_links fuel start len
          (take i list ++ record l { ins = shifted start len l.ins } ∷ drop (suc i) list) (suc i)
  ]
]

-- The index of a function or of `main`: one that was removed becomes the start.
unfoldable pub fix_index : ℕ → ℕ → ℕ → ℕ
fix_index start len i = if is_removed start len i then start else shifted start len i

unfoldable pub is_function : LinkType → Bool
is_function link_function = true
is_function _ = false

unfoldable pub fix_meta : ℕ → ℕ → LinkMeta → LinkMeta
fix_meta start len m =
    if is_function m.type && not (m.ptr == minus_one)
    then record m { ptr = fix_index start len m.ptr }
    else m

unfoldable pub fix_metas : ℕ → ℕ → List LinkMeta → List LinkMeta
fix_metas start len [] = []
fix_metas start len (m ∷ ms) = fix_meta start len m ∷ fix_metas start len ms

unfoldable pub d_optimize_remove_bytecode : Sections → ℕ → ℕ → Option Sections
d_optimize_remove_bytecode s start len =
    if len == 0 then some s else if ltb (length s.text) (start + len) then none else (do
      let moved = take start s.text ++ drop (start + len) s.text
      text ← fix_jumps (length moved) start len moved 0
      links ← fix_links (length s.ins_link_list) start len s.ins_link_list 0
      some (record {
        text = text;
        ins_link_list = links;
        link = fix_metas start len s.link;
        main = fix_index start len s.main;
      }))
