-- ===== src/Sheet/Build.antt =====
-- Creating a sheet and adding to it: src/dsheet.c and the list of links of src/dlink.c. Reading
-- through a NULL pointer or past an array is `none`.
use decision.Prelude.{
  ℕ, ◌+◌, Bool, true, false, List, [], ◌∷◌, ◌++◌, Option, none, some, ◌>>=◌, length, take, drop,
  leb, if◌then◌else◌, minus_one,
}
use Prim.Native.String.{String}
use decision.Prelude.Chars.{codes}
use decision.Dtype.{type_name}
use decision.Graph.{Text, text_value, SocketMeta, NodeDefinition}
use decision.Graph.Query.{
  d_definition_num_inputs, d_definition_num_outputs, d_is_execution_definition,
}
use decision.Sheet.{bytes, Metadata, LinkMeta, SheetVariable, SheetFunction, Included, Sheet}

unfoldable pub d_link_new_meta : ℕ → Option Text → Metadata → LinkMeta
d_link_new_meta type name metadata = record {
  name = name;
  metadata = metadata;
  ptr = minus_one;
  type = type;
}

abbrev pub d_link_new_meta_list : List LinkMeta
d_link_new_meta_list = []

unfoldable pub d_link_meta_list_push : List LinkMeta → LinkMeta → List LinkMeta
d_link_meta_list_push list item = list ++ item ∷ []

unfoldable pub d_sheet_create : ℕ → Text → Sheet
d_sheet_create address file_path = record {
  address = address;
  link = d_link_new_meta_list;
  file_path = file_path;
  include_path = none;
  includes = [];
  variables = [];
  functions = [];
  c_functions = [];
  main = 0;
  text = bytes [];
  data_ = bytes [];
  ins_link_list = [];
  has_errors = false;
  allow_free = true;
  is_compiled = false;
  is_linked = false;
}

unfoldable pub getter_of : Text → SocketMeta → NodeDefinition
getter_of name var_meta = record {
  name = some name;
  description = some (codes "Get the value of the variable " ++ name ++ codes ".");
  sockets = var_meta ∷ [];
  start_output_index = 0;
  infinite_inputs = false;
}

unfoldable pub variable_of : ℕ → Text → SocketMeta → SheetVariable
variable_of address name var_meta = record {
  getter_definition = getter_of name var_meta;
  variable_meta = var_meta;
  sheet = address;
}

-- `strlen` of a name that is NULL is undefined.
unfoldable pub d_sheet_add_variable : Sheet → SocketMeta → Option Sheet
d_sheet_add_variable sheet var_meta = do
  name ← var_meta.name
  some
      (record sheet { variables = sheet.variables ++ variable_of sheet.address name var_meta ∷ [] })

unfoldable pub name_socket : String → String → Option Text → SocketMeta
name_socket name description function_name = record {
  name = some (codes name);
  description = some (codes description);
  type = type_name;
  default_value = text_value function_name;
}

-- The Define node: the name, then the inputs of the function.
unfoldable pub define_of : NodeDefinition → NodeDefinition
define_of d = record {
  name = some (codes "Define");
  description = some (codes "Define a function or subroutine.");
  sockets =
      name_socket "function/subroutine" "The function or subroutine to define." d.name
      ∷ take (d_definition_num_inputs (some d)) d.sockets;
  start_output_index = 1;
  infinite_inputs = false;
}

-- The Return node: the name, then the outputs of the function.
unfoldable pub return_of : NodeDefinition → NodeDefinition
return_of d = record {
  name = some (codes "Return");
  description = some (codes "Return from a function or subroutine.");
  sockets =
      name_socket "function/subroutine" "The function or subroutine to return from." d.name
      ∷ drop d.start_output_index d.sockets;
  start_output_index = 1 + d_definition_num_outputs (some d);
  infinite_inputs = false;
}

unfoldable pub function_of : ℕ → NodeDefinition → SheetFunction
function_of address d = record {
  function_definition = d;
  define_definition = define_of d;
  return_definition = return_of d;
  define_node_index = 0;
  num_define_nodes = 0;
  last_return_node_index = 0;
  num_return_nodes = 0;
  sheet = address;
}

-- A definition with more inputs than sockets is read past its sockets.
unfoldable pub d_sheet_add_function : Sheet → NodeDefinition → Option Sheet
d_sheet_add_function sheet d =
    if leb d.start_output_index (length d.sockets)
    then some (record sheet { functions = sheet.functions ++ function_of sheet.address d ∷ [] })
    else none

unfoldable pub d_sheet_add_c_function : Sheet → NodeDefinition → Sheet
d_sheet_add_c_function sheet c_function = record sheet {
  c_functions = sheet.c_functions ++ c_function ∷ [];
}

unfoldable pub d_is_subroutine : SheetFunction → Bool
d_is_subroutine func = d_is_execution_definition (some func.function_definition)

unfoldable pub d_sheet_add_include : Sheet → Included → Sheet
d_sheet_add_include sheet include = record sheet { includes = sheet.includes ++ include ∷ [] }
