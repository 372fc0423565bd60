-- ===== src/Object/Load/Sections.antt =====
-- The sections that `d_obj_load` of src/dobj.c reads into a sheet, one function for each.
use mathlib.Core.Option
use Prim.Native.String.{String}
use decision.Prelude.{
  ℕ, zero, suc, ◌+◌, true, false, List, [], ◌∷◌, ◌++◌, Option, none, some, length, get_elem?, set,
  take, drop, leb, ◌==◌, if◌then◌else◌, minus_one, extend8,
}
use decision.Prelude.Chars.{codes}
use decision.Dtype.{type_string, type_bool}
use decision.Graph.{Text, LexData, number_value, text_value}
use decision.Optimize.{read_number}
use decision.Sheet.{
  Metadata, unknown_metadata, unset_metadata, variable_at, function_at, LinkMeta,
  link_variable_string_default_value, InstructionToLink, Section, bytes, null_section, Sheet,
}
use decision.Sheet.Build.{d_link_meta_list_push, d_sheet_add_variable, d_sheet_add_function}
use decision.Object.Reader.{
  Read, ◌>>=◌, pure, reader_test_string_n, read_byte, read_string_n, strlen, read_string,
  read_uinteger, enumeration_of, read_socket_meta, read_definition,
}
use decision.Object.Generate.{same_text, section_bytes}

-- A result that may be undefined behaviour.
abbrev pub lift : {A : Type 0} → Option A → Read A
lift none r = none
lift (some a) r = some (a, r)

unfoldable pub section_of : ℕ → Option (List ℕ) → Section
section_of n none = null_section n
section_of n (some xs) = bytes xs

-- A section of bytes; `bytes []` when it is absent.
unfoldable pub load_bytes : String → Read Section
load_bytes tag = do
  found ← reader_test_string_n (codes tag)
  elim found [
    | false ↦ pure (bytes [])
    | true ↦ (do size ← read_uinteger; xs ← read_string_n size; pure (section_of size xs))
  ]

unfoldable pub load_text : Sheet → Read Sheet
load_text sheet = do section ← load_bytes ".text"; pure (record sheet { text = section })

unfoldable pub load_data : Sheet → Read Sheet
load_data sheet = do section ← load_bytes ".data"; pure (record sheet { data_ = section })

unfoldable pub load_main : Sheet → Read Sheet
load_main sheet = do
  found ← reader_test_string_n (codes ".main")
  elim found [
    | false ↦ pure (record sheet { main = 0 })
    | true ↦ (do n ← read_uinteger; pure (record sheet { main = n }))
  ]

-- The metadata is only set when the object does not know where the thing is.
unfoldable pub read_meta : Read LinkMeta
read_meta = do
  type ← read_byte
  name ← read_string
  ptr ← read_uinteger
  pure (record {
    name = name;
    metadata = if ptr == minus_one then unknown_metadata else unset_metadata;
    ptr = ptr;
    type = enumeration_of type;
  })

unfoldable pub read_metas : ℕ → List LinkMeta → Read (List LinkMeta)
read_metas zero list = pure list
read_metas (suc n) list = do meta ← read_meta; read_metas n (d_link_meta_list_push list meta)

unfoldable pub load_lmeta : Sheet → Read Sheet
load_lmeta sheet = do
  found ← reader_test_string_n (codes ".lmeta")
  elim found [
    | false ↦ pure (record sheet { link = [] })
    | true ↦ (do
      n ← read_uinteger
      list ← read_metas n sheet.link
      pure (record sheet { link = list }))
  ]

unfoldable pub read_links : ℕ → Read (List InstructionToLink)
read_links zero = pure []
read_links (suc n) = do
  ins ← read_uinteger
  link ← read_uinteger
  rest ← read_links n
  pure (record { ins = ins; link = link } ∷ rest)

unfoldable pub load_link : Sheet → Read Sheet
load_link sheet = do
  found ← reader_test_string_n (codes ".link")
  elim found [
    | false ↦ pure (record sheet { ins_link_list = [] })
    | true ↦ (do
      n ← read_uinteger
      list ← read_links n
      pure (record sheet { ins_link_list = list }))
  ]

-- The copy of the name of a link; a link or a name that is not there is undefined behaviour.
unfoldable pub link_at : List LinkMeta → ℕ → Option LinkMeta
link_at list i = elim (get_elem? list i) [
  | none ↦ none
  | some meta ↦ elim (meta.name) [ none ↦ none | some name ↦ some meta ]
]

unfoldable pub load_function : Sheet → Read (Sheet × ℕ)
load_function sheet = do
  index ← read_uinteger
  meta ← lift (link_at sheet.link index)
  d ← read_definition false
  sheet' ← lift (d_sheet_add_function sheet (record d { name = meta.name }))
  pure (sheet', index)

-- The sheet with the functions, and the list of the indexes of their links.
unfoldable pub load_functions : ℕ → Sheet → List ℕ → Read (Sheet × List ℕ)
load_functions zero sheet indexes = pure (sheet, indexes)
load_functions (suc n) sheet indexes = do
  added ← load_function sheet
  load_functions n added.0 (indexes ++ added.1 ∷ [])

-- The links at the indexes point to the entries from `i` on.
unfoldable pub point_links : (ℕ → Metadata) → List ℕ → ℕ → List LinkMeta → Option (List LinkMeta)
point_links target [] i list = some list
point_links target (index ∷ indexes) i list = elim (get_elem? list index) [
  | none ↦ none
  | some meta ↦
      point_links target indexes (suc i) (set list index (record meta { metadata = target i }))
]

unfoldable pub load_func : Sheet → Read Sheet
load_func sheet = do
  found ← reader_test_string_n (codes ".func")
  elim found [
    | false ↦ pure (record sheet { functions = [] })
    | true ↦ (do
      n ← read_uinteger
      loaded ← load_functions n sheet []
      list ← lift (point_links (function_at sheet.address) loaded.1 0 loaded.0.link)
      pure (record loaded.0 { link = list }))
  ]

-- The link of the default value of a string variable.
unfoldable pub find_default : List LinkMeta → Option Text → Option (Option LinkMeta)
find_default [] name = some none
find_default (meta ∷ list) name = elim (meta.type == link_variable_string_default_value) [
  | false ↦ find_default list name
  | true ↦ elim (same_text meta.name name) [
    | none ↦ none
    | some same ↦ elim same [ true ↦ some (some meta) | false ↦ find_default list name ]
  ]
]

-- Bytes and strings of the data section, which has no bytes when it is NULL.
unfoldable pub data_bytes : Section → ℕ → ℕ → Option (List ℕ)
data_bytes section ptr n = elim (section_bytes section) [
  | none ↦ none
  | some xs ↦ if leb (ptr + n) (length xs) then some (take n (drop ptr xs)) else none
]

unfoldable pub data_text : Section → ℕ → Option Text
data_text section ptr = elim (section_bytes section) [
  | none ↦ none
  | some xs ↦ elim (strlen (drop ptr xs)) [ none ↦ none | some n ↦ some (take n (drop ptr xs)) ]
]

-- The text that the link of a default value points to; without one it is NULL.
unfoldable pub pointed_text : Section → Option (Option LinkMeta) → Option LexData
pointed_text section none = none
pointed_text section (some none) = some (text_value none)
pointed_text section (some (some meta)) =
    Option.map (λ s. text_value (some s)) (data_text section meta.ptr)

unfoldable pub string_default : Sheet → Option Text → Option LexData
string_default sheet name = pointed_text sheet.data_ (find_default sheet.link name)

-- The default value of a variable, from the data section. A truth value is one signed byte.
unfoldable pub variable_default : Sheet → ℕ → LinkMeta → Option LexData
variable_default sheet type meta =
    if type == type_bool
    then Option.map (λ xs. number_value (extend8 (read_number 1 xs)))
        (data_bytes sheet.data_ meta.ptr 1)
    else if type == type_string
    then string_default sheet meta.name
    else Option.map (λ xs. number_value (read_number 8 xs)) (data_bytes sheet.data_ meta.ptr 8)

unfoldable pub load_variable : Sheet → Read (Sheet × ℕ)
load_variable sheet = do
  index ← read_uinteger
  var_meta ← read_socket_meta false false
  meta ← lift (link_at sheet.link index)
  value ← lift (variable_default sheet var_meta.type meta)
  sheet' ←
      lift
        (d_sheet_add_variable sheet (record var_meta { name = meta.name; default_value = value }))
  pure (sheet', index)

unfoldable pub load_variables : ℕ → Sheet → List ℕ → Read (Sheet × List ℕ)
load_variables zero sheet indexes = pure (sheet, indexes)
load_variables (suc n) sheet indexes = do
  added ← load_variable sheet
  load_variables n added.0 (indexes ++ added.1 ∷ [])

unfoldable pub load_var : Sheet → Read Sheet
load_var sheet = do
  found ← reader_test_string_n (codes ".var")
  elim found [
    | false ↦ pure (record sheet { variables = [] })
    | true ↦ (do
      n ← read_uinteger
      loaded ← load_variables n sheet []
      list ← lift (point_links (variable_at sheet.address) loaded.1 0 loaded.0.link)
      pure (record loaded.0 { link = list }))
  ]
