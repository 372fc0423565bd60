-- ===== src/Link/Tests.antt =====
-- Linking a small sheet with the sheet that it includes.
use decision.Prelude.{
  ℕ, ◌≡◌, refl, inl, arith, true, false, List, [], ◌∷◌, ◌++◌, none, some, ◌>>=◌, ◌==◌, ◌*◌, ◌+◌,
  if◌then◌else◌, minus_one, add_word,
}
use decision.Prelude.Chars.{codes}
use decision.Graph.{NodeDefinition}
use decision.Optimize.{number_bytes}
use decision.Sheet.{
  unknown_metadata, null_metadata, function_at, LinkMeta, link_data_string_literal, link_function,
  Sheet, SheetFunction, bytes,
}
use decision.Sheet.Build.{d_sheet_create}
use decision.Object.Generate.{same_text}
use decision.Link.{
  Layout, sheet_at, put_sheet, sheet_of, is_variable_link, store_pointer, d_link_replace_fimmediate,
  same_link, find_external, external_ptr, precalculate_meta, precalculate_from,
  d_link_precalculate_ptr, own_or_external, link_target, link_instructions, link_defaults,
  in_section, d_link_self,
}
use decision.Link.Instructions.{IsTextLinked, link_instructions_lem}
use decision.Link.Included.{
  find_named_function, definition_in, find_in_sheet, recursive_find_link_meta, is_unknown,
  find_meta, find_included_from, d_link_find_included, d_link_includes_recursive, d_link_sheet,
}

abbrev no_definition : NodeDefinition
no_definition = record {
  name = some (codes "f");
  description = none;
  sockets = [];
  start_output_index = 0;
  infinite_inputs = false;
}

abbrev function : SheetFunction
function = record {
  function_definition = no_definition;
  define_definition = no_definition;
  return_definition = no_definition;
  define_node_index = 0;
  num_define_nodes = 0;
  last_return_node_index = 0;
  num_return_nodes = 0;
  sheet = 2;
}

abbrev layout : Layout
layout = record {
  includes = λ a. if a == 1 then some 2 ∷ [] else [];
  text_base = λ a. 4096 * a;
  data_base = λ a. 4096 * a + 256;
  cfunction_base = λ a i. 0;
}

-- The sheet calls the function `f` of the included sheet, and has a string literal in its data.
abbrev client : Sheet
client = record (d_sheet_create 1 []) {
  is_compiled = true;
  text = bytes (number_bytes 18 0);
  link =
      record {
        name = some (codes "f");
        metadata = unknown_metadata;
        ptr = minus_one;
        type = link_function;
      }
      ∷ record { name = none; metadata = null_metadata; ptr = 3; type = link_data_string_literal }
      ∷ [];
  ins_link_list = record { ins = 0; link = 0 } ∷ record { ins = 9; link = 1 } ∷ [];
}

abbrev library : Sheet
library = record (d_sheet_create 2 []) {
  is_compiled = true;
  functions = function ∷ [];
  link =
      record { name = some (codes "f"); metadata = null_metadata; ptr = 5; type = link_function }
      ∷ [];
}

sheets_linked :
    (do
      sheets ← d_link_sheet layout 3 (client ∷ library ∷ []) 1
      s ← sheet_at sheets 1
      some s.text)
    ≡ some (bytes (0 ∷ number_bytes 8 8197 ++ 0 ∷ number_bytes 8 4355))
unfolding d_link_sheet d_link_find_included find_included_from find_meta is_unknown
    recursive_find_link_meta find_in_sheet definition_in find_named_function
    d_link_includes_recursive d_link_self in_section link_defaults link_instructions link_target
    own_or_external d_link_precalculate_ptr precalculate_from precalculate_meta external_ptr
    find_external same_link d_link_replace_fimmediate store_pointer is_variable_link sheet_of
    put_sheet sheet_at d_sheet_create same_text number_bytes add_word
sheets_linked = refl

-- Two instructions of nine bytes, that call the function and load the literal.
abbrev text : List ℕ
text = 0 ∷ 0 ∷ 0 ∷ 0 ∷ 0 ∷ 0 ∷ 0 ∷ 0 ∷ 0 ∷ 0 ∷ 0 ∷ 0 ∷ 0 ∷ 0 ∷ 0 ∷ 0 ∷ 0 ∷ 0 ∷ []

abbrev links : List LinkMeta
links =
    record { name = some (codes "f"); metadata = function_at 2 0; ptr = 8197; type = link_function }
    ∷ record { name = none; metadata = null_metadata; ptr = 3; type = link_data_string_literal }
    ∷ []

link_instructions_lem_example :
    IsTextLinked layout
      (client ∷ library ∷ [])
      1
      links
      text
      client.ins_link_list
      (link_instructions layout (client ∷ library ∷ []) 1 links client.ins_link_list text)
unfolding link_target own_or_external sheet_of sheet_at is_variable_link add_word d_sheet_create
link_instructions_lem_example =
    link_instructions_lem layout (client ∷ library ∷ []) 1 links client.ins_link_list text (
      record {
        meta = _;
        target = some 8197;
        is_meta = refl;
        is_target = refl;
        inside = omega arith;
      },
      (inl (omega arith), tt),
      (
        record {
          meta = _;
          target = some 4355;
          is_meta = refl;
          is_target = refl;
          inside = omega arith;
        },
        tt,
        tt,
      ),
    )
