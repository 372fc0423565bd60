-- ===== src/Lib.antt =====
-- Decision: a model of the C library that compiles and runs sheets of nodes and wires.
--
-- The program reads a sheet (src/dlex.c, src/dsyntax.c), checks it as a graph of nodes and wires
-- (src/dsemantic.c, src/dgraph.c), generates bytecode (src/dcodegen.c, src/doptimize.c), links it
-- (src/dlink.c) and runs it in a stack machine (src/dvm.c). These files model:
--
--   Prelude    Booleans, lists over the native numbers, the Option monad, 64-bit words.
--   Vm         src/dvm.h and src/dvm.c, the virtual machine.
--     Opcode     `DIns`, the sizes of instructions, the labels of the switch.
--     State      `DVM`: the block of cells, of `stack_size` cells with `top` in use, is a list;
--                pointers into it are indices; the program's memory is a partial function.
--     Stack      `d_vm_push`, `d_vm_popn`, `d_vm_insert` and the others. Stack.Holds is the abstract
--                list that a machine holds; Push, Pop, Access, Move and Edit relate each function
--                to it.
--     Memory     immediates, reads and writes by address, C strings.
--     Host       what is outside: C functions, floating point, stray strings.
--     Macros, Calls, Step    the macros, the calls and returns, and the switch of
--                `d_vm_parse_ins_at_pc`.
--     Run        `d_vm_run`.
--     Valid      the invariant of a machine, kept by every instruction.
--     Frames, Operators      what calls, returns and operators do to the abstract list.
--   Dtype      src/dtype.h and src/dtype.c, data types as sets of flags.
--   Graph      src/dgraph.h and src/dgraph.c, nodes and wires.
--     Query      what a definition, a node or a socket is: `d_get_socket_meta` and the others.
--     Wires      `d_wire_cmp`, `d_wire_find_first`, `d_socket_num_connections`.
--     Build      `add_edge`, `d_graph_add_wire`, `d_graph_add_node`, `d_graph_free`.
--     Order      the order of the array of wires, and the plain scans of it.
--     Search, Find, Count, Insert, AddWire   the binary searches and what they are for.
--   Lex        src/dlex.h and src/dlex.c, the lexical analysis of a source.
--     Literals   `d_lex_get_string_literal` and `d_lex_get_name`.
--     Numbers    number literals, with the C library's `strtol`; `strtod` is a parameter.
--     Stream     `d_lex_create_stream`: a round of its loop, by cases of its switch, and the loop.
--     Bounds, Digits, Total      the indices that these functions read and leave.
--     Contents, Scan, Texts      the texts of names and string literals.
--   Optimize   src/doptimize.c, on the sections of a sheet: `d_optimize_remove_bytecode`.
--     Jumps, Encode, Text, Links, Remove      the amounts of relative jumps, the loops over the text
--                and over the links, and the whole removal.
--     Passes     the loop that the passes have in common, `d_optimize_not_consecutive`,
--                `d_optimize_push_pop_consecutive`, `d_optimize_useless`, `d_optimize_simplify`.
--     Shrink     `d_optimize_call_func_relative`, `d_optimize_shrink_fimmediate` and
--                `d_optimize_all`. Whether a link is to a function of the sheet is a parameter.
--     Outcome, Loop, Shapes, Operand, Sound, PushPop, Replace, Narrow      a pass at an instruction
--                between others, and over the whole text.
--     Repeat, All, Numbers      the passes together, and the numbers in shorter operands.
--   Bytecode   src/dasm.h and src/dasm.c, pieces of bytecode: `BCode`, `d_bytecode_ins`,
--                `d_bytecode_set_fimmediate`, `d_concat_bytecode`.
--     Join       joining pieces, and stores outside of them.
--   Sheet      src/dsheet.h, src/dlink.h: sheets with their variables, functions, includes and links.
--     Build      `d_sheet_create` and adding to a sheet (src/dsheet.c), `d_link_new_meta` and
--                `d_link_meta_list_push` (src/dlink.c).
--     Include    `d_sheet_add_include_from_path`; the file that it loads is a parameter.
--   Object     src/dobj.c, object files.
--     Reader, Writer, Generate, Load, Load.Sections      the definitions: `ObjectReader`,
--                `ObjectWriter`, `d_obj_generate` and `d_obj_load`, a section at a time.
--     Reads, Texts, Definitions, Definition      reading back numbers, texts and definitions.
--     Loads, Apart, Foreign      sections that are there, and sections that are missing.
--     Parts, Written, Whole      the bytes of a sheet, section by section.
--     Lookup, Pointers, Defaults, Bodies, Variables, Sections, Definers, Includes      each section loaded.
--     Resolve, Reloaded, Ending, RoundTrip      the links of C functions, and the whole sheet.
--     Bounds, Inside, Guarded, Refusals      reads stay inside of the object.
--   Link       src/dlink.c, linking sheets in memory: `d_link_precalculate_ptr` and `d_link_self`.
--     Included   `d_link_find_included`, `d_link_includes_recursive`, `d_link_sheet`.
--     Instructions      the operands of the linked instructions, and the bytes around them.
--
-- Undefined behaviour is `none`: a read or a write outside the stack's block or an array, through a
-- NULL pointer, or a division by zero where the source does not test for it. Machine words are
-- natural numbers below 2^64, with the wrap-around written out. Pointers are addresses of a word.
--
-- Bounds and fuel. `d_vm_run` need not end, so its loop runs on fuel, the number of instructions.
-- The binary searches get one round for each wire of the array, and each round leaves a range that
-- is shorter by one wire at least. The loops of the lexer get one round for each character, and
-- those of the optimiser one for each byte of the text and each link; the round of three passes that
-- it repeats takes out a byte each time. `d_type_is_vague` has five rounds, one for each flag and
-- one to stop. Arrays are taken to be shorter than INT_MAX, as the casts of the source do. A source
-- has no NUL among its bytes, as a C string. The search of the linker through included sheets runs
-- on fuel, since sheets may include each other.
-- The loops over an object run as often as the number that it states for a section.
--
-- Not modelled: printing (`d_vm_dump`, `d_graph_dump`, the dumps of src/dasm.c), the texts of
-- errors but for their lengths where src/dgraph.c makes them, failing allocation, freeing of strings and
-- streams, the debugger, and the stages between the lexemes and the bytecode.
pub mod Prelude
pub mod Vm
pub mod Dtype
pub mod Graph
pub mod Lex
pub mod Bytecode
pub mod Optimize
pub mod Sheet
pub mod Object
pub mod Link
