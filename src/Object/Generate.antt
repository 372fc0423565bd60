-- ===== src/Object/Generate.antt =====
-- `d_obj_generate` of src/dobj.c: the object of a compiled sheet. Undefined behaviour is `none`.
use Prim.Native.String.{String}
use decision.Prelude.{
  ℕ, suc, Bool, true, false, ◌&&◌, ◌||◌, List, [], ◌∷◌, Option, none, some, ◌>>=◌, length, ltb,
  ◌==◌, if◌then◌else◌, minus_one,
}
use decision.Prelude.Chars.{codes}
use decision.Dtype.{type_string}
use decision.Graph.{Text, SocketMeta}
use decision.Sheet.{
  Metadata, variable_at, function_at, LinkMeta, link_variable, link_variable_pointer, link_function,
  InstructionToLink, SheetVariable, SheetFunction, Included, Section, bytes, null_section, Sheet,
}
use decision.Object.Reader.{same_bytes}
use decision.Object.Writer.{
  ObjectWriter, write_string_n, write_byte, write_string, write_uinteger, write_socket_meta,
  write_definition,
}

-- `DECISION_VERSION_MAJOR` and the others, which the build generates.
pub record Version : Type 0 where
  pub major : ℕ
  pub minor : ℕ
  pub patch : ℕ

-- `strcmp(s, t) == 0`: a NULL string is undefined behaviour.
unfoldable pub same_text : Option Text → Option Text → Option Bool
same_text none t = none
same_text (some s) none = none
same_text (some s) (some t) = some (same_bytes s t)

-- The search from index `i` on. The index of a link fits an `int`; `some none` is -1.
unfoldable pub find_from : List LinkMeta → Option Text → ℕ → ℕ → Option (Option ℕ)
find_from [] name type i = some none
find_from (meta ∷ list) name type i = elim (same_text name meta.name) [
  | none ↦ none
  | some same ↦ elim (same && type == meta.type) [
    | true ↦ some (some i)
    | false ↦ find_from list name type (suc i)
  ]
]

unfoldable pub find_link : List LinkMeta → Option Text → ℕ → Option (Option ℕ)
find_link list name type = find_from list name type 0

unfoldable pub section_size : Section → ℕ
section_size (bytes xs) = length xs
section_size (null_section n) = n

unfoldable pub section_bytes : Section → Option (List ℕ)
section_bytes (bytes xs) = some xs
section_bytes (null_section n) = none

-- A section: its tag and a number, unless the number is 0, when nothing of it is written.
unfoldable pub write_tag : ObjectWriter → String → ℕ → ObjectWriter
write_tag writer tag n = write_uinteger (write_string_n writer (some (codes tag))) n

unfoldable pub write_bytes : ObjectWriter → String → Section → ObjectWriter
write_bytes writer tag section =
    if ltb 0 (section_size section)
    then write_string_n (write_tag writer tag (section_size section)) (section_bytes section)
    else writer

unfoldable pub write_main : ObjectWriter → ℕ → ObjectWriter
write_main writer main = if ltb 0 main then write_tag writer ".main" main else writer

-- The pointer of a variable or of a function of another sheet is not kept.
unfoldable pub variable_ptr : ℕ → ℕ → Metadata → Option ℕ
variable_ptr address ptr (variable_at sheet i) = some (if address == sheet then ptr else minus_one)
variable_ptr address ptr _ = none

unfoldable pub function_ptr : ℕ → ℕ → Metadata → Option ℕ
function_ptr address ptr (function_at sheet i) = some (if address == sheet then ptr else minus_one)
function_ptr address ptr _ = none

unfoldable pub new_ptr : ℕ → LinkMeta → Option ℕ
new_ptr address lm =
    if lm.type == link_variable || lm.type == link_variable_pointer
    then variable_ptr address lm.ptr lm.metadata
    else if lm.type == link_function
    then function_ptr address lm.ptr lm.metadata
    else some lm.ptr

unfoldable pub write_metas : ObjectWriter → ℕ → List LinkMeta → Option ObjectWriter
write_metas writer address [] = some writer
write_metas writer address (lm ∷ list) = elim (new_ptr address lm) [
  | none ↦ none
  | some ptr ↦
      write_metas (write_uinteger (write_string (write_byte writer lm.type) lm.name) ptr) address
        list
]

unfoldable pub write_links : ObjectWriter → List InstructionToLink → ObjectWriter
write_links writer [] = writer
write_links writer (itl ∷ list) =
    write_links (write_uinteger (write_uinteger writer itl.ins) itl.link) list

-- One that has no link is passed over.
unfoldable pub write_function : ObjectWriter → List LinkMeta → SheetFunction → Option ObjectWriter
write_function writer link f = do
  index ← find_link link f.function_definition.name link_function
  elim index [
    | none ↦ some writer
    | some i ↦ write_definition (write_uinteger writer i) f.function_definition false
  ]

unfoldable pub write_functions :
    ObjectWriter → List LinkMeta → List SheetFunction → Option ObjectWriter
write_functions writer link [] = some writer
write_functions writer link (f ∷ functions) = elim (write_function writer link f) [
  | none ↦ none
  | some writer' ↦ write_functions writer' link functions
]

unfoldable pub variable_link : SocketMeta → ℕ
variable_link meta = if meta.type == type_string then link_variable_pointer else link_variable

unfoldable pub write_variable : ObjectWriter → List LinkMeta → SheetVariable → Option ObjectWriter
write_variable writer link v = do
  index ← find_link link v.variable_meta.name (variable_link v.variable_meta)
  elim index [
    | none ↦ some writer
    | some i ↦ write_socket_meta (write_uinteger writer i) v.variable_meta false false
  ]

unfoldable pub write_variables :
    ObjectWriter → List LinkMeta → List SheetVariable → Option ObjectWriter
write_variables writer link [] = some writer
write_variables writer link (v ∷ variables) = elim (write_variable writer link v) [
  | none ↦ none
  | some writer' ↦ write_variables writer' link variables
]

unfoldable pub written_path : Included → Text
written_path include = elim (include.include_path) [ none ↦ include.file_path | some path ↦ path ]

unfoldable pub write_includes : ObjectWriter → List Included → ObjectWriter
write_includes writer [] = writer
write_includes writer (include ∷ includes) =
    write_includes (write_string writer (some (written_path include))) includes

unfoldable pub write_header : Version → ObjectWriter
write_header version =
    write_byte
      (write_byte (write_byte (write_string_n [] (some (codes "D64"))) version.major) version.minor)
      version.patch

-- The sections that are written only when they are not empty.
unfoldable pub metas_section : ObjectWriter → Sheet → Option ObjectWriter
metas_section writer sheet =
    if ltb 0 (length sheet.link)
    then write_metas (write_tag writer ".lmeta" (length sheet.link)) sheet.address sheet.link
    else some writer

unfoldable pub links_section : ObjectWriter → Sheet → ObjectWriter
links_section writer sheet =
    if ltb 0 (length sheet.ins_link_list)
    then write_links (write_tag writer ".link" (length sheet.ins_link_list)) sheet.ins_link_list
    else writer

unfoldable pub functions_section : ObjectWriter → Sheet → Option ObjectWriter
functions_section writer sheet =
    if ltb 0 (length sheet.functions)
    then write_functions (write_tag writer ".func" (length sheet.functions)) sheet.link
        sheet.functions
    else some writer

unfoldable pub variables_section : ObjectWriter → Sheet → Option ObjectWriter
variables_section writer sheet =
    if ltb 0 (length sheet.variables)
    then write_variables (write_tag writer ".var" (length sheet.variables)) sheet.link
        sheet.variables
    else some writer

unfoldable pub includes_section : ObjectWriter → Sheet → ObjectWriter
includes_section writer sheet =
    if ltb 0 (length sheet.includes)
    then write_includes (write_tag writer ".incl" (length sheet.includes)) sheet.includes
    else writer

-- `some none` is NULL.
unfoldable pub d_obj_generate : Version → Sheet → Option (Option ObjectWriter)
d_obj_generate version sheet = if ltb 0 (length sheet.c_functions) then some none else (do
  let writer = write_main (write_bytes (write_header version) ".text" sheet.text) sheet.main
  metas ← metas_section (write_bytes writer ".data" sheet.data_) sheet
  functions ← functions_section (links_section metas sheet) sheet
  variables ← variables_section functions sheet
  some (some (includes_section variables sheet)))
