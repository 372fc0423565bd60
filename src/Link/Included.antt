-- ===== src/Link/Included.antt =====
-- Finding what is defined in included sheets, and linking a sheet with them: `d_link_find_included`,
-- `d_link_includes_recursive` and `d_link_sheet` of src/dlink.c.
use decision.Prelude.{
  ℕ, zero, suc, Bool, true, false, ◌&&◌, not, List, [], ◌∷◌, Option, none, some, ◌>>=◌, length,
  get_elem?, set, ◌==◌, if◌then◌else◌, minus_one,
}
use decision.Graph.{Text}
use decision.Sheet.{
  Metadata, unknown_metadata, unset_metadata, variable_at, function_at, LinkMeta, link_function,
  SheetVariable, SheetFunction, Sheet,
}
use decision.Object.Generate.{same_text}
use decision.Link.{
  Layout, sheet_at, put_sheet, is_variable_link, same_link, d_link_precalculate_ptr, d_link_self,
}

-- The first variable, or the first function, with a name.
unfoldable pub find_named_variable : Option Text → List SheetVariable → ℕ → Option (Option ℕ)
find_named_variable name [] i = some none
find_named_variable name (v ∷ vs) i = elim (same_text name v.variable_meta.name) [
  | none ↦ none
  | some same ↦ elim same [ true ↦ some (some i) | false ↦ find_named_variable name vs (suc i) ]
]

unfoldable pub find_named_function : Option Text → List SheetFunction → ℕ → Option (Option ℕ)
find_named_function name [] i = some none
find_named_function name (f ∷ fs) i = elim (same_text name f.function_definition.name) [
  | none ↦ none
  | some same ↦ elim same [ true ↦ some (some i) | false ↦ find_named_function name fs (suc i) ]
]

-- The entry of the sheet that a link of it is to.
unfoldable pub definition_in : Sheet → LinkMeta → Option (Option Metadata)
definition_in include m =
    if is_variable_link m.type
    then (do
      found ← find_named_variable m.name include.variables 0
      elim found [ none ↦ some none | some i ↦ some (some (variable_at include.address i)) ])
    else if m.type == link_function
    then (do
      found ← find_named_function m.name include.functions 0
      elim found [ none ↦ some none | some i ↦ some (some (function_at include.address i)) ])
    else some none

-- The links of an included sheet, of which one is looked for. `some none` is -1.
unfoldable pub find_in_sheet : Sheet → LinkMeta → List LinkMeta → Option (Option Metadata)
find_in_sheet include m [] = some none
find_in_sheet include m (other ∷ list) = elim (same_link m other) [
  | none ↦ none
  | some same ↦ elim (same && not (other.ptr == minus_one)) [
    | false ↦ find_in_sheet include m list
    | true ↦ elim (definition_in include other) [
      | none ↦ none
      | some found ↦ elim found [
        | none ↦ find_in_sheet include m list
        | some metadata ↦ some (some metadata)
      ]
    ]
  ]
]

-- The included sheets, each with those that it includes. The source does not end on sheets that
-- include each other; `none` is also the end of the fuel.
unfoldable pub recursive_find_link_meta :
    Layout → ℕ → List Sheet → List (Option ℕ) → LinkMeta → Option (Option Metadata)
recursive_find_link_meta layout fuel sheets [] m = some none
recursive_find_link_meta layout zero sheets (a ∷ includes) m = none
recursive_find_link_meta layout (suc fuel) sheets (none ∷ includes) m = none
recursive_find_link_meta layout (suc fuel) sheets (some a ∷ includes) m = elim (sheet_at sheets a) [
  | none ↦ none
  | some include ↦ elim (find_in_sheet include m include.link) [
    | none ↦ none
    | some found ↦ elim found [
      | some metadata ↦ some (some metadata)
      | none ↦ elim (recursive_find_link_meta layout fuel sheets (layout.includes a) m) [
        | none ↦ none
        | some recurse ↦ elim recurse [
          | some metadata ↦ some (some metadata)
          | none ↦ recursive_find_link_meta layout fuel sheets includes m
        ]
      ]
    ]
  ]
]

-- `meta == (void *)-1`, of a pointer that was set.
unfoldable pub is_unknown : Metadata → Option Bool
is_unknown unset_metadata = none
is_unknown unknown_metadata = some true
is_unknown _ = some false

unfoldable pub find_meta : Layout → ℕ → List Sheet → ℕ → LinkMeta → Option LinkMeta
find_meta layout fuel sheets a m = if not (m.ptr == minus_one) then some m else (do
  unknown ← is_unknown m.metadata
  if unknown
      then (do
        found ← recursive_find_link_meta layout fuel sheets (layout.includes a) m
        elim found [ none ↦ some m | some metadata ↦ some (record m { metadata = metadata }) ])
      else some m)

-- The loop over the list of links, of `rounds` links from index `i` on.
unfoldable pub find_included_from : Layout → ℕ → ℕ → ℕ → List Sheet → ℕ → Option (List Sheet)
find_included_from layout fuel zero a sheets i = some sheets
find_included_from layout fuel (suc rounds) a sheets i = do
  sheet ← sheet_at sheets a
  m ← get_elem? sheet.link i
  m' ← find_meta layout fuel sheets a m
  find_included_from layout fuel rounds a
      (put_sheet sheets (record sheet { link = set sheet.link i m' })) (suc i)

unfoldable pub d_link_find_included : Layout → ℕ → List Sheet → ℕ → Option (List Sheet)
d_link_find_included layout fuel sheets a = do
  sheet ← sheet_at sheets a
  if sheet.is_compiled
      then find_included_from layout fuel (length sheet.link) a sheets 0
      else some sheets

-- In spite of its name, the function does not recurse into the includes of the includes.
unfoldable pub d_link_includes_recursive :
    Layout → List (Option ℕ) → List Sheet → Option (List Sheet)
d_link_includes_recursive layout [] sheets = some sheets
d_link_includes_recursive layout (none ∷ includes) sheets =
    d_link_includes_recursive layout includes sheets
d_link_includes_recursive layout (some a ∷ includes) sheets = do
  sheets' ← d_link_self layout sheets a
  d_link_includes_recursive layout includes sheets'

unfoldable pub d_link_sheet : Layout → ℕ → List Sheet → ℕ → Option (List Sheet)
d_link_sheet layout fuel sheets a = do
  found ← d_link_find_included layout fuel sheets a
  calculated ← d_link_precalculate_ptr layout found a
  linked ← d_link_self layout calculated a
  d_link_includes_recursive layout (layout.includes a) linked
