-- ===== src/Object/Parts.antt =====
-- What `d_obj_generate` of src/dobj.c writes of a sheet, section by section, and the sheets that
-- it can write so that they come back.
use decision.Prelude.{
  ℕ, ◌<◌, ◌≤◌, ◌≡◌, ◌⊎◌, Bool, true, extend8, false, List, [], ◌∷◌, ◌++◌, Option, none, some,
  length, get_elem?, ◌==◌, if◌then◌else◌, minus_one, word_mod,
}
use decision.Prelude.Chars.{codes}
use decision.Dtype.{type_bool, type_string}
use decision.Graph.{Text, number_value, text_value, SocketMeta}
use decision.Optimize.{number_bytes}
use decision.Sheet.{
  unknown_metadata, unset_metadata, LinkMeta, link_function, link_variable_string_default_value,
  InstructionToLink, SheetVariable, SheetFunction, Included, Section, bytes, null_section, Sheet,
}
use decision.Sheet.Build.{function_of, variable_of}
use decision.Object.Generate.{
  Version, new_ptr, find_link, section_size, variable_link, written_path,
}
use decision.Object.Texts.{IsText}
use decision.Object.Definitions.{
  text_again, IsStoredText, text_bytes, IsStoredDefinition, definition_again, definition_bytes,
}
use decision.Object.Loads.{Part}

abbrev pub content : Section → List ℕ
content (bytes xs) = xs
content (null_section n) = []

abbrev some_number : Option ℕ → ℕ
some_number none = 0
some_number (some n) = n

-- The pointer that is written for a link.
abbrev pub ptr_again : ℕ → LinkMeta → ℕ
ptr_again address m = some_number (new_ptr address m)

abbrev pub meta_again : ℕ → LinkMeta → LinkMeta
meta_again address m = record {
  name = text_again m.name;
  metadata = if ptr_again address m == minus_one then unknown_metadata else unset_metadata;
  ptr = ptr_again address m;
  type = m.type;
}

abbrev pub metas_again : ℕ → List LinkMeta → List LinkMeta
metas_again address [] = []
metas_again address (m ∷ ms) = meta_again address m ∷ metas_again address ms

abbrev pub meta_bytes : ℕ → LinkMeta → List ℕ
meta_bytes address m = m.type ∷ (text_bytes m.name ++ number_bytes 8 (ptr_again address m))

abbrev pub metas_bytes : ℕ → List LinkMeta → List ℕ
metas_bytes address [] = []
metas_bytes address (m ∷ ms) = meta_bytes address m ++ metas_bytes address ms

pub record IsStoredMeta (address : ℕ) (m : LinkMeta) : Type 0 where
  pub name : IsStoredText m.name
  pub ptr : new_ptr address m ≡ some (ptr_again address m)
  pub ptr_fits : ptr_again address m < word_mod
  pub type : m.type < 128

abbrev pub AllStoredMetas : ℕ → List LinkMeta → Type 0
AllStoredMetas address [] = Unit {0}
AllStoredMetas address (m ∷ ms) = IsStoredMeta address m × AllStoredMetas address ms

-- Links without their metadata.
abbrev pub bare : LinkMeta → LinkMeta
bare m = record m { metadata = unset_metadata }

abbrev pub bares : List LinkMeta → List LinkMeta
bares [] = []
bares (m ∷ ms) = bare m ∷ bares ms

abbrev pub links_bytes : List InstructionToLink → List ℕ
links_bytes [] = []
links_bytes (l ∷ ls) = number_bytes 8 l.ins ++ (number_bytes 8 l.link ++ links_bytes ls)

abbrev pub AllStoredLinks : List InstructionToLink → Type 0
AllStoredLinks [] = Unit {0}
AllStoredLinks (l ∷ ls) = (l.ins < word_mod) × (l.link < word_mod) × AllStoredLinks ls

-- The index of the link of a name, where there is one.
abbrev pub some_index : Option (Option ℕ) → ℕ
some_index none = 0
some_index (some i) = some_number i

abbrev pub index_of : List LinkMeta → Option Text → ℕ → ℕ
index_of link name type = some_index (find_link link name type)

abbrev pub IsLinked : List LinkMeta → Option Text → ℕ → Type 0
IsLinked link name type = find_link link name type ≡ some (some (index_of link name type))

abbrev pub function_index : List LinkMeta → SheetFunction → ℕ
function_index link f = index_of link f.function_definition.name link_function

abbrev pub functions_bytes : List LinkMeta → List SheetFunction → List ℕ
functions_bytes link [] = []
functions_bytes link (f ∷ fs) =
    number_bytes 8 (function_index link f)
    ++ definition_bytes false f.function_definition
    ++ functions_bytes link fs

pub record IsStoredFunction (link : List LinkMeta) (f : SheetFunction) : Type 0 where
  pub linked : IsLinked link f.function_definition.name link_function
  pub definition : IsStoredDefinition f.function_definition
  pub inputs : f.function_definition.start_output_index ≤ length f.function_definition.sockets

abbrev pub AllStoredFunctions : List LinkMeta → List SheetFunction → Type 0
AllStoredFunctions link [] = Unit {0}
AllStoredFunctions link (f ∷ fs) = IsStoredFunction link f × AllStoredFunctions link fs

-- The function that comes back.
abbrev pub function_again : ℕ → SheetFunction → SheetFunction
function_again address f =
    function_of address
      (record (definition_again false f.function_definition) { name = f.function_definition.name })

abbrev pub functions_again : ℕ → List SheetFunction → List SheetFunction
functions_again address [] = []
functions_again address (f ∷ fs) = function_again address f ∷ functions_again address fs

abbrev pub variable_index : List LinkMeta → SheetVariable → ℕ
variable_index link v = index_of link v.variable_meta.name (variable_link v.variable_meta)

abbrev pub variables_bytes : List LinkMeta → List SheetVariable → List ℕ
variables_bytes link [] = []
variables_bytes link (v ∷ vs) =
    number_bytes 8 (variable_index link v)
    ++ (text_bytes v.variable_meta.description ++ v.variable_meta.type ∷ [])
    ++ variables_bytes link vs

-- Bytes that stand in a section from an index on.
abbrev pub IsAt : Section → ℕ → List ℕ → Type 0
IsAt section ptr xs =
    (before : List ℕ) × (after : List ℕ) × (section ≡ bytes (before ++ (xs ++ after)))
    × (length before ≡ ptr)

-- The text of a variable: that of the first link for a default value with its name, which is a C
-- string in the data section, or NULL if there is no such link.
abbrev pub HasTextDefault : Sheet → SocketMeta → Type 0
HasTextDefault sheet m =
    ((find_link sheet.link m.name link_variable_string_default_value ≡ some none)
      × (m.default_value ≡ text_value none))
    ⊎ ((k : ℕ) × (d : LinkMeta) × (t : Text) × (find_link sheet.link m.name
            link_variable_string_default_value
          ≡ some (some k))
        × (get_elem? sheet.link k ≡ some d)
        × IsText t
        × IsAt sheet.data_ (ptr_again sheet.address d) (t ++ 0 ∷ [])
        × (m.default_value ≡ text_value (some t)))

-- A truth value is one signed byte, a text as above, and any other value a number of eight bytes.
abbrev pub HasDefaultAs : Bool → Bool → Sheet → SocketMeta → ℕ → Type 0
HasDefaultAs true text sheet m ptr =
    (b : ℕ) × IsAt sheet.data_ ptr (b ∷ []) × (m.default_value ≡ number_value (extend8 b))
HasDefaultAs false true sheet m ptr = HasTextDefault sheet m
HasDefaultAs false false sheet m ptr =
    (n : ℕ) × (n < word_mod)
    × IsAt sheet.data_ ptr (number_bytes 8 n)
    × (m.default_value ≡ number_value n)

-- The data section has the default value where the stored link points to.
abbrev pub HasDefault : Sheet → SocketMeta → Option LinkMeta → Type 0
HasDefault sheet m none = Unit {0}
HasDefault sheet m (some meta) =
    HasDefaultAs (m.type == type_bool) (m.type == type_string) sheet m
      (ptr_again sheet.address meta)

pub record IsStoredVariable (sheet : Sheet) (v : SheetVariable) : Type 0 where
  pub linked : IsLinked sheet.link v.variable_meta.name (variable_link v.variable_meta)
  pub description : IsStoredText v.variable_meta.description
  pub type : v.variable_meta.type < 128
  pub default_value :
      HasDefault sheet v.variable_meta (get_elem? sheet.link (variable_index sheet.link v))

abbrev pub AllStoredVariables : Sheet → List SheetVariable → Type 0
AllStoredVariables sheet [] = Unit {0}
AllStoredVariables sheet (v ∷ vs) = IsStoredVariable sheet v × AllStoredVariables sheet vs

abbrev pub some_text : Option Text → Text
some_text none = []
some_text (some s) = s

abbrev pub variable_again : ℕ → SheetVariable → SheetVariable
variable_again address v =
    variable_of address (some_text v.variable_meta.name)
      (record (v.variable_meta) { description = text_again v.variable_meta.description })

abbrev pub variables_again : ℕ → List SheetVariable → List SheetVariable
variables_again address [] = []
variables_again address (v ∷ vs) = variable_again address v ∷ variables_again address vs

abbrev pub includes_bytes : List Included → List ℕ
includes_bytes [] = []
includes_bytes (i ∷ is) = text_bytes (some (written_path i)) ++ includes_bytes is

abbrev pub AllStoredIncludes : List Included → Type 0
AllStoredIncludes [] = Unit {0}
AllStoredIncludes (i ∷ is) = IsText (written_path i) × AllStoredIncludes is

-- A section without a NULL pointer, whose size fits a word.
abbrev pub IsStoredSection : Section → Type 0
IsStoredSection s = (s ≡ bytes (content s)) × (length (content s) < word_mod)

abbrev pub text_part : Sheet → Part
text_part s = record { tag = codes ".text"; size = section_size s.text; body = content s.text }

abbrev pub main_part : Sheet → Part
main_part s = record { tag = codes ".main"; size = s.main; body = [] }

abbrev pub data_part : Sheet → Part
data_part s = record { tag = codes ".data"; size = section_size s.data_; body = content s.data_ }

abbrev pub link_part : Sheet → Part
link_part s = record {
  tag = codes ".lmeta";
  size = length s.link;
  body = metas_bytes s.address s.link;
}

abbrev pub ins_part : Sheet → Part
ins_part s = record {
  tag = codes ".link";
  size = length s.ins_link_list;
  body = links_bytes s.ins_link_list;
}

abbrev pub func_part : Sheet → Part
func_part s = record {
  tag = codes ".func";
  size = length s.functions;
  body = functions_bytes s.link s.functions;
}

abbrev pub var_part : Sheet → Part
var_part s = record {
  tag = codes ".var";
  size = length s.variables;
  body = variables_bytes s.link s.variables;
}

abbrev pub incl_part : Sheet → Part
incl_part s = record {
  tag = codes ".incl";
  size = length s.includes;
  body = includes_bytes s.includes;
}

abbrev pub parts : Sheet → List Part
parts s =
    text_part s
    ∷ main_part s
    ∷ data_part s
    ∷ link_part s
    ∷ ins_part s
    ∷ func_part s
    ∷ var_part s
    ∷ incl_part s
    ∷ []

abbrev pub header_bytes : Version → List ℕ
header_bytes v = codes "D64" ++ v.major ∷ v.minor ∷ v.patch ∷ []

-- A sheet that can be written and read back: it has no C functions; its numbers fit a word, its
-- texts have no null bytes, and its functions and variables have their links.
pub record IsStored (sheet : Sheet) : Type 0 where
  pub no_c_functions : sheet.c_functions ≡ []
  pub text : IsStoredSection sheet.text
  pub data_ : IsStoredSection sheet.data_
  pub main : sheet.main < word_mod
  pub link_size : length sheet.link < word_mod
  pub link : AllStoredMetas sheet.address sheet.link
  pub ins_size : length sheet.ins_link_list < word_mod
  pub ins_link_list : AllStoredLinks sheet.ins_link_list
  pub functions_size : length sheet.functions < word_mod
  pub functions : AllStoredFunctions sheet.link sheet.functions
  pub variables_size : length sheet.variables < word_mod
  pub variables : AllStoredVariables sheet sheet.variables
  pub includes_size : length sheet.includes < word_mod
  pub includes : AllStoredIncludes sheet.includes
