-- ===== src/Sheet.antt =====
-- Sheets and what can be linked in them: the types of src/dsheet.h, src/dlink.h and src/dcfunc.h.
-- Arrays are lists, so that their sizes are the lengths.
pub mod Build
pub mod Include
use decision.Prelude.{ℕ, Bool, List, Option}
use decision.Graph.{Text, SocketMeta, NodeDefinition}

-- `LinkType`, a number of the enumeration as the object files store it.
abbrev pub link_data_string_literal : ℕ
link_data_string_literal = 0

abbrev pub link_variable : ℕ
link_variable = 1

abbrev pub link_variable_pointer : ℕ
link_variable_pointer = 2

abbrev pub link_variable_string_default_value : ℕ
link_variable_string_default_value = 3

abbrev pub link_function : ℕ
link_function = 4

abbrev pub link_cfunction : ℕ
link_cfunction = 5

-- The generic pointer `meta`: NULL, -1, one that was never set, or a pointer to the variable, the
-- function or the C function at an index of the sheet at an address.
pub data Metadata : Type 0 where
  null_metadata unknown_metadata unset_metadata : Metadata
  variable_at function_at cfunction_at : ℕ → ℕ → Metadata

pub record LinkMeta : Type 0 where
  pub name : Option Text
  pub metadata : Metadata
  pub ptr : ℕ
  pub type : ℕ

pub record InstructionToLink : Type 0 where
  pub ins : ℕ
  pub link : ℕ

-- The pointer `sheet` of a variable or of a function is the address of the sheet.
pub record SheetVariable : Type 0 where
  pub getter_definition : NodeDefinition
  pub variable_meta : SocketMeta
  pub sheet : ℕ

pub record SheetFunction : Type 0 where
  pub function_definition : NodeDefinition
  pub define_definition : NodeDefinition
  pub return_definition : NodeDefinition
  pub define_node_index : ℕ
  pub num_define_nodes : ℕ
  pub last_return_node_index : ℕ
  pub num_return_nodes : ℕ
  pub sheet : ℕ

-- What a sheet reads of a sheet that it includes.
pub record Included : Type 0 where
  pub file_path : Text
  pub include_path : Option Text
  pub has_errors : Bool

-- A pointer to bytes with their number. NULL with no bytes is `bytes []`.
pub data Section : Type 0 where
  bytes : List ℕ → Section
  null_section : ℕ → Section

-- A sheet without its graph and what only the semantic analysis and the debugger use. `address`
-- tells one sheet from another; a C function is its definition.
pub record Sheet : Type 0 where
  pub address : ℕ
  pub link : List LinkMeta
  pub file_path : Text
  pub include_path : Option Text
  pub includes : List Included
  pub variables : List SheetVariable
  pub functions : List SheetFunction
  pub c_functions : List NodeDefinition
  pub main : ℕ
  pub text : Section
  pub data_ : Section
  pub ins_link_list : List InstructionToLink
  pub has_errors : Bool
  pub allow_free : Bool
  pub is_compiled : Bool
  pub is_linked : Bool
