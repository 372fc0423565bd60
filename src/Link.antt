-- ===== src/Link.antt =====
-- Linking sheets that are in memory: src/dlink.c. Pointers are addresses of a word. Reading through a
-- pointer that is to nothing, or past an array, is `none`.
pub mod Included
pub mod Instructions
mod Tests
use decision.Prelude.{
  ℕ, zero, suc, ◌+◌, Bool, true, false, ◌&&◌, ◌||◌, not, List, [], ◌∷◌, ◌++◌, Option, none, some,
  ◌>>=◌, length, get_elem?, set, take, drop, ltb, leb, ◌==◌, if◌then◌else◌, add_word, minus_one,
}
use decision.Graph.{Text}
use decision.Optimize.{number_bytes}
use decision.Sheet.{
  Metadata, null_metadata, unknown_metadata, unset_metadata, variable_at, function_at, cfunction_at,
  LinkMeta, link_data_string_literal, link_variable, link_variable_pointer,
  link_variable_string_default_value, link_function, link_cfunction, InstructionToLink,
  SheetVariable, SheetFunction, Section, bytes, null_section, Sheet,
}
use decision.Object.Generate.{same_text, section_bytes}

-- Where the sections of the sheets and the C functions are in memory, by the address of the sheet, and
-- the pointers of its array of includes, some of which are NULL.
pub record Layout : Type 0 where
  pub includes : ℕ → List (Option ℕ)
  pub text_base : ℕ → ℕ
  pub data_base : ℕ → ℕ
  pub cfunction_base : ℕ → ℕ → ℕ

-- The sheets in memory, each at its address.
unfoldable pub sheet_at : List Sheet → ℕ → Option Sheet
sheet_at [] a = none
sheet_at (s ∷ sheets) a = if s.address == a then some s else sheet_at sheets a

unfoldable pub put_sheet : List Sheet → Sheet → List Sheet
put_sheet [] s' = []
put_sheet (s ∷ sheets) s' = if s.address == s'.address then s' ∷ sheets else s ∷ put_sheet sheets s'

-- The field `sheet` of the variable or of the function that a link is to.
unfoldable pub sheet_of : List Sheet → Metadata → Option ℕ
sheet_of sheets (variable_at a i) = do
  s ← sheet_at sheets a
  v ← get_elem? s.variables i
  some v.sheet
sheet_of sheets (function_at a i) = do
  s ← sheet_at sheets a
  f ← get_elem? s.functions i
  some f.sheet
sheet_of sheets (cfunction_at a i) = none
sheet_of sheets null_metadata = none
sheet_of sheets unknown_metadata = none
sheet_of sheets unset_metadata = none

unfoldable pub is_variable_link : ℕ → Bool
is_variable_link type = type == link_variable || type == link_variable_pointer

-- The full immediate of an instruction, or a word in the data section.
unfoldable pub store_pointer : List ℕ → ℕ → ℕ → Option (List ℕ)
store_pointer xs at ptr =
    if leb (at + 8) (length xs)
    then some (take at xs ++ number_bytes 8 ptr ++ drop (at + 8) xs)
    else none

unfoldable pub d_link_replace_fimmediate : List ℕ → ℕ → ℕ → Option (List ℕ)
d_link_replace_fimmediate text ins ptr = store_pointer text (ins + 1) ptr

-- The first link with the same type and name. The names are compared only where the types are the
-- same.
unfoldable pub same_link : LinkMeta → LinkMeta → Option Bool
same_link m other = if m.type == other.type then same_text m.name other.name else some false

unfoldable pub find_external : List LinkMeta → LinkMeta → Option (Option LinkMeta)
find_external [] m = some none
find_external (other ∷ list) m = elim (same_link m other) [
  | none ↦ none
  | some same ↦ elim same [ true ↦ some (some other) | false ↦ find_external list m ]
]

-- The pointer in another sheet, behind the base of the section that the link is to.
unfoldable pub external_ptr : List Sheet → (ℕ → ℕ) → LinkMeta → Option LinkMeta
external_ptr sheets base m = do
  a ← sheet_of sheets m.metadata
  external ← sheet_at sheets a
  found ← find_external external.link m
  elim found [ none ↦ some m | some other ↦ some (record m { ptr = add_word (base a) other.ptr }) ]

unfoldable pub cfunction_ptr : Layout → Metadata → Option ℕ
cfunction_ptr layout (cfunction_at a i) = some (layout.cfunction_base a i)
cfunction_ptr layout null_metadata = some 0
cfunction_ptr layout unknown_metadata = some minus_one
cfunction_ptr layout _ = none

unfoldable pub precalculate_meta : Layout → List Sheet → LinkMeta → Option LinkMeta
precalculate_meta layout sheets m =
    if not (m.ptr == minus_one)
    then some m
    else if is_variable_link m.type
    then external_ptr sheets layout.data_base m
    else if m.type == link_function
    then external_ptr sheets layout.text_base m
    else if m.type == link_cfunction
    then (do p ← cfunction_ptr layout m.metadata; some (record m { ptr = p }))
    else some m

-- The loop over the list of links, which is changed in memory while it runs.
unfoldable pub precalculate_from : Layout → ℕ → ℕ → List Sheet → ℕ → Option (List Sheet)
precalculate_from layout zero a sheets i = some sheets
precalculate_from layout (suc fuel) a sheets i = do
  sheet ← sheet_at sheets a
  m ← get_elem? sheet.link i
  m' ← precalculate_meta layout sheets m
  precalculate_from layout fuel a (put_sheet sheets (record sheet { link = set sheet.link i m' }))
      (suc i)

unfoldable pub d_link_precalculate_ptr : Layout → List Sheet → ℕ → Option (List Sheet)
d_link_precalculate_ptr layout sheets a = do
  sheet ← sheet_at sheets a
  if sheet.is_compiled then precalculate_from layout (length sheet.link) a sheets 0 else some sheets

-- What an instruction of the sheet at an address is linked to: an address in its own section, or the
-- one that was calculated for another sheet. `none` in the option is no link at all.
unfoldable pub own_or_external : List Sheet → ℕ → (ℕ → ℕ) → LinkMeta → Option ℕ
own_or_external sheets a base m = do
  b ← sheet_of sheets m.metadata
  if a == b then some (add_word (base a) m.ptr) else some m.ptr

unfoldable pub link_target : Layout → List Sheet → ℕ → LinkMeta → Option (Option ℕ)
link_target layout sheets a m =
    if m.type == link_data_string_literal
    then some (some (add_word (layout.data_base a) m.ptr))
    else if is_variable_link m.type
    then (do p ← own_or_external sheets a layout.data_base m; some (some p))
    else if m.type == link_function
    then (do p ← own_or_external sheets a layout.text_base m; some (some p))
    else if m.type == link_cfunction
    then some (some m.ptr)
    else some none

unfoldable pub link_instructions :
    Layout → List Sheet → ℕ → List LinkMeta → List InstructionToLink → List ℕ → Option (List ℕ)
link_instructions layout sheets a link [] text = some text
link_instructions layout sheets a link (itl ∷ list) text = do
  m ← get_elem? link itl.link
  target ← link_target layout sheets a m
  text' ← elim target [ none ↦ some text | some p ↦ d_link_replace_fimmediate text itl.ins p ]
  link_instructions layout sheets a link list text'

-- The first pointer to a variable with the name.
unfoldable pub find_variable_pointer : List LinkMeta → LinkMeta → Option (Option LinkMeta)
find_variable_pointer list m = find_external list (record m { type = link_variable_pointer })

-- The default values of string variables: the pointer to the value is stored in the variable.
unfoldable pub link_defaults : ℕ → List LinkMeta → List LinkMeta → List ℕ → Option (List ℕ)
link_defaults base link [] section = some section
link_defaults base link (m ∷ list) section =
    if m.type == link_variable_string_default_value
    then (do
      found ← find_variable_pointer link m
      section' ← elim found [
        | none ↦ some section
        | some var ↦ store_pointer section var.ptr (add_word base m.ptr)
      ]
      link_defaults base link list section')
    else link_defaults base link list section

-- Stores in a section; every store in a section that is NULL is outside of it.
unfoldable pub in_section : Section → (List ℕ → Option (List ℕ)) → Option Section
in_section (bytes xs) stores = do ys ← stores xs; some (bytes ys)
in_section (null_section n) stores = do ys ← stores []; some (null_section n)

unfoldable pub d_link_self : Layout → List Sheet → ℕ → Option (List Sheet)
d_link_self layout sheets a = do
  sheet ← sheet_at sheets a
  if sheet.is_compiled
      then (do
        text ←
            in_section sheet.text (link_instructions layout sheets a sheet.link sheet.ins_link_list)
        data_ ← in_section sheet.data_ (link_defaults (layout.data_base a) sheet.link sheet.link)
        some (put_sheet sheets (record sheet { text = text; data_ = data_; is_linked = true })))
      else some sheets
