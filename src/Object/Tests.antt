-- ===== src/Object/Tests.antt =====
-- The theorems about object files at a small sheet: a function, a variable and an include.
use decision.Prelude.{
  ℕ, ◌≡◌, refl, false, true, Bool, List, [], ◌∷◌, ◌++◌, some, none, length, arith, ◌==◌,
  if◌then◌else◌, if_true, if_false, Bool-cases, inl, inr, sym, ◌∙◌,
}
use decision.Prelude.Chars.{codes}
use decision.Dtype.{type_int}
use decision.Graph.{Text, number_value, SocketMeta, NodeDefinition}
use decision.Sheet.{
  variable_at, function_at, LinkMeta, link_variable, link_function, Included, Sheet, bytes,
}
use decision.Sheet.Build.{variable_of, function_of, d_sheet_create}
use decision.Object.Reader.{read_definition}
use decision.Object.Generate.{
  Version, d_obj_generate, new_ptr, variable_ptr, function_ptr, find_link, find_from, same_text,
  variable_link, written_path, section_size,
}
use decision.Object.Load.{Compiler, Loaded, d_obj_load}
use decision.Optimize.{read_number, number_bytes}
use decision.Object.Texts.{IsText}
use decision.Object.Definitions.{
  IsStoredSocket, IsStoredDefinition, definition_again, definition_bytes,
}
use decision.Object.Loads.{parts_bytes}
use decision.Object.Parts.{header_bytes, parts, IsStored}
use decision.Object.Written.{write_definition_lem}
use decision.Object.Whole.{d_obj_generate_lem}
use decision.Object.Definition.{read_definition-write_definition}
use decision.Object.Reloaded.{IsReloaded}
use decision.Object.RoundTrip.{d_obj_load-d_obj_generate}

abbrev version : Version
version = record { major = 0; minor = 3; patch = 0 }

abbrev input : SocketMeta
input = record {
  name = some (codes "x");
  description = none;
  type = type_int;
  default_value = number_value 258;
}

-- A function with one input and one output.
abbrev double : NodeDefinition
double = record {
  name = some (codes "Double");
  description = some (codes "Twice");
  sockets = input ∷ input ∷ [];
  start_output_index = 1;
  infinite_inputs = false;
}

abbrev counter : SocketMeta
counter = record {
  name = some (codes "n");
  description = none;
  type = type_int;
  default_value = number_value 5;
}

abbrev links : List LinkMeta
links =
    record { name = some (codes "n"); metadata = variable_at 7 0; ptr = 0; type = link_variable }
    ∷ record {
      name = some (codes "Double");
      metadata = function_at 7 0;
      ptr = 1;
      type = link_function;
    }
    ∷ []

abbrev included : Included
included = record { file_path = codes "lib.dc"; include_path = none; has_errors = false }

abbrev sample : Sheet
sample = record {
  address = 7;
  link = links;
  file_path = codes "main.dc";
  include_path = none;
  includes = included ∷ [];
  variables = variable_of 7 (codes "n") counter ∷ [];
  functions = function_of 7 double ∷ [];
  c_functions = [];
  main = 9;
  text = bytes (1 ∷ 2 ∷ 3 ∷ []);
  data_ = bytes (5 ∷ 0 ∷ 0 ∷ 0 ∷ 0 ∷ 0 ∷ 0 ∷ 0 ∷ []);
  ins_link_list = record { ins = 0; link = 1 } ∷ [];
  has_errors = false;
  allow_free = true;
  is_compiled = true;
  is_linked = false;
}

abbrev compiler : Compiler
compiler = record { load_file = λ path priors. included; get_definition = λ s name. none }

has_no_null : Text → Bool
has_no_null [] = true
has_no_null (c ∷ cs) = if c == 0 then false else has_no_null cs

text : (s : Text) → has_no_null s ≡ true → IsText s
unfolding has_no_null
text [] h = tt
text (c ∷ cs) h = elim (Bool-cases (c == 0)) [
  | inl t ↦ absurd (cc (sym (if_true false (has_no_null cs) t) ∙ h))
  | inr f ↦ (ground (arith, f), text cs (sym (if_false false (has_no_null cs) f) ∙ h))
]

input-IsStoredSocket : IsStoredSocket input
input-IsStoredSocket = record {
  name = (omega arith, tt);
  description = tt;
  type = omega arith;
  default_value = (refl, omega arith);
}

double-IsStoredDefinition : IsStoredDefinition double
unfolding has_no_null
double-IsStoredDefinition = record {
  name = text (codes "Double") refl;
  description = text (codes "Twice") refl;
  num_sockets = omega arith;
  start_output_index = omega arith;
  sockets = (input-IsStoredSocket, (input-IsStoredSocket, tt));
}

sample-IsStored : IsStored sample
unfolding has_no_null read_number variable_of function_of new_ptr variable_ptr function_ptr
    find_link find_from same_text variable_link written_path number_bytes
sample-IsStored = record {
  no_c_functions = refl;
  text = (refl, omega arith);
  data_ = (refl, omega arith);
  main = omega arith;
  link_size = omega arith;
  link = (
    record { name = (omega arith, tt); ptr = refl; ptr_fits = omega arith; type = omega arith },
    (
      record {
        name = text (codes "Double") refl;
        ptr = refl;
        ptr_fits = omega arith;
        type = omega arith;
      },
      tt,
    ),
  );
  ins_size = omega arith;
  ins_link_list = (omega arith, omega arith, tt);
  functions_size = omega arith;
  functions =
      (record { linked = refl; definition = double-IsStoredDefinition; inputs = omega arith }, tt);
  variables_size = omega arith;
  variables = (
    record {
      linked = refl;
      description = tt;
      type = omega arith;
      default_value = (5, omega arith, ([], [], refl, refl), refl);
    },
    tt,
  );
  includes_size = omega arith;
  includes = (text (codes "lib.dc") refl, tt);
}

abbrev object : List ℕ
object = header_bytes version ++ parts_bytes (parts sample)

generated : d_obj_generate version sample ≡ some (some object)
generated =
    d_obj_generate_lem version sample (omega arith) (omega arith) (omega arith) sample-IsStored

d_obj_load-d_obj_generate_example :
    (loaded : Loaded) × (d_obj_load compiler 9 object (codes "main.dco") [] [] ≡ some loaded)
    × IsReloaded compiler sample loaded.sheet
unfolding number_bytes variable_of function_of new_ptr variable_ptr function_ptr find_link find_from
    same_text section_size written_path
d_obj_load-d_obj_generate_example =
    d_obj_load-d_obj_generate compiler version sample 9 (codes "main.dco") object (omega arith)
      (omega arith) (omega arith) sample-IsStored (tt, (tt, tt)) generated (omega arith)

d_obj_generate_lem_example :
    d_obj_generate version sample ≡ some (some (header_bytes version ++ parts_bytes (parts sample)))
d_obj_generate_lem_example =
    d_obj_generate_lem version sample (omega arith) (omega arith) (omega arith) sample-IsStored

read_definition-write_definition_example :
    read_definition true (record {
      obj = 1 ∷ 2 ∷ [] ++ definition_bytes true double ++ 3 ∷ [];
      ptr = 2;
      error = false;
    })
    ≡ some (
      definition_again true double,
      record {
        obj = 1 ∷ 2 ∷ [] ++ definition_bytes true double ++ 3 ∷ [];
        ptr = length (1 ∷ 2 ∷ [] ++ definition_bytes true double);
        error = false;
      },
    )
unfolding number_bytes
read_definition-write_definition_example =
    read_definition-write_definition true false double (1 ∷ 2 ∷ [])
      (1 ∷ 2 ∷ [] ++ definition_bytes true double) (3 ∷ []) double-IsStoredDefinition
      (write_definition_lem (1 ∷ 2 ∷ []) true double double-IsStoredDefinition) (omega arith)

-- An object with a section for no includes, and no other section.
abbrev short_object : List ℕ
short_object = codes "D64" ++ 0 ∷ 3 ∷ 0 ∷ [] ++ codes ".incl" ++ 0 ∷ 0 ∷ 0 ∷ 0 ∷ 0 ∷ 0 ∷ 0 ∷ 0 ∷ []

abbrev short_sheet : Loaded
short_sheet = record {
  sheet = record (d_sheet_create 9 (codes "main.dco")) { is_compiled = true };
  reported = [];
}
