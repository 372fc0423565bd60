-- ===== src/Object/Load.antt =====
-- `d_obj_load` of src/dobj.c: a sheet from an object. An action is `none` where the code has
-- undefined behaviour, as in the reader.
pub mod Sections
use mathlib.Core.Option
use decision.Prelude.{
  ℕ, zero, suc, ◌+◌, Bool, true, false, ◌||◌, List, [], ◌∷◌, ◌++◌, Option, none, some, length,
  get_elem?, ◌==◌, if◌then◌else◌,
}
use decision.Prelude.Chars.{codes}
use decision.Graph.{Text}
use decision.Sheet.{
  Metadata, unset_metadata, cfunction_at, LinkMeta, link_cfunction, Included, Sheet,
}
use decision.Sheet.Build.{d_sheet_create, d_sheet_add_include}
use decision.Sheet.Include.{d_sheet_add_include_from_path}
use decision.Object.Reader.{
  ObjectReader, Read, ◌>>=◌, pure, crash, reader_test_string_n, read_byte, read_string,
  read_uinteger, same_bytes,
}
use decision.Object.Load.Sections.{
  load_text, load_main, load_data, load_lmeta, load_link, load_func, load_var,
}

-- What a name stands for: `d_get_definition` of src/dname.c gives the address of the sheet of a C
-- function and its index, or some other kind of definition.
pub data NameDefinition : Type 0 where
  cfunction_definition : ℕ → ℕ → NameDefinition
  other_definition : NameDefinition

-- What the loading uses of the rest of the compiler: the files of the included sheets, and the
-- names that the sheet knows.
pub record Compiler : Type 0 where
  pub load_file : Text → List Text → Included
  pub get_definition : Sheet → Text → Option NameDefinition

-- The sheet, and the paths of the included sheets that were reported to have errors.
pub record Loaded : Type 0 where
  pub sheet : Sheet
  pub reported : List Text

unfoldable pub add_includes : Sheet → List Included → Sheet
add_includes sheet [] = sheet
add_includes sheet (include ∷ includes) = add_includes (d_sheet_add_include sheet include) includes

unfoldable pub in_includes : Text → List Included → Bool
in_includes path [] = false
in_includes path (include ∷ includes) =
    same_bytes path include.file_path || in_includes path includes

-- One path of the section: the sheet is included unless it is among the initial includes.
unfoldable pub load_path : Compiler → List Included → List Text → Text → Loaded → Loaded
load_path compiler includes priors path state =
    if in_includes path includes
    then state
    else (let added = d_sheet_add_include_from_path compiler.load_file state.sheet path priors in
        record {
          sheet = added.0;
          reported =
              if added.1.has_errors
              then state.reported ++ added.1.file_path ∷ []
              else state.reported;
        })

unfoldable pub load_paths : Compiler → List Included → List Text → ℕ → Loaded → Read Loaded
load_paths compiler includes priors zero state = pure state
load_paths compiler includes priors (suc n) state = do
  path ← read_string
  elim path [
    | none ↦ crash
    | some p ↦ load_paths compiler includes priors n (load_path compiler includes priors p state)
  ]

unfoldable pub load_incl : Compiler → List Included → List Text → Sheet → Read Loaded
load_incl compiler includes priors sheet = do
  found ← reader_test_string_n (codes ".incl")
  elim found [
    | false ↦ pure (record { sheet = record sheet { includes = [] }; reported = [] })
    | true ↦ (do
      n ← read_uinteger
      load_paths compiler includes priors n (record { sheet = sheet; reported = [] }))
  ]

-- The links of C functions get their metadata; one that is not found is an error.
unfoldable pub resolve : Compiler → Sheet → Option Text → Option (Option Metadata)
resolve compiler sheet none = none
resolve compiler sheet (some name) = elim (compiler.get_definition sheet name) [
  | none ↦ some none
  | some d ↦ elim d [
    | cfunction_definition s i ↦ some (some (cfunction_at s i))
    | other_definition ↦ some none
  ]
]

-- The list with its metadata from the index after `done` on, and whether there were errors. The
-- sheet that names are looked up in has the part that is done.
unfoldable pub load_cfunctions :
    Compiler → Sheet → List LinkMeta → List LinkMeta → Bool → Option (List LinkMeta × Bool)
load_cfunctions compiler sheet done [] errors = some (done, errors)
load_cfunctions compiler sheet done (meta ∷ list) errors = elim (meta.type == link_cfunction) [
  | false ↦ load_cfunctions compiler sheet (done ++ meta ∷ []) list errors
  | true ↦
      elim (resolve compiler (record sheet { link = done ++ meta ∷ list; has_errors = errors })
        meta.name) [
          | none ↦ none
          | some found ↦ elim found [
            | none ↦ load_cfunctions compiler sheet (done ++ meta ∷ []) list true
            | some m ↦
                load_cfunctions compiler sheet (done ++ record meta { metadata = m } ∷ []) list
                  errors
          ]
        ]
]

-- What is left to do when all is read.
unfoldable pub finish : Compiler → Loaded → Read Loaded
finish compiler state reader =
    elim (load_cfunctions compiler state.sheet [] state.sheet.link state.sheet.has_errors) [
      | none ↦ none
      | some (link, errors) ↦ some (
        record state {
          sheet = record (state.sheet) { link = link; has_errors = errors || reader.error };
        },
        reader,
      )
    ]

-- The part after the header. The version is only used for a warning.
unfoldable pub load_body : Compiler → List Included → List Text → Sheet → Read Loaded
load_body compiler includes priors sheet = do
  major ← read_byte
  minor ← read_byte
  patch ← read_byte
  with_text ← load_text sheet
  with_main ← load_main with_text
  with_data ← load_data with_main
  with_metas ← load_lmeta with_data
  with_links ← load_link with_metas
  with_functions ← load_func with_links
  with_variables ← load_var with_functions
  state ← load_incl compiler includes priors with_variables
  finish compiler state

unfoldable pub refused : Sheet → Loaded
refused sheet = record { sheet = record sheet { has_errors = true }; reported = [] }

unfoldable pub load_object : Compiler → ℕ → Text → List Included → List Text → Read Loaded
load_object compiler address file_path includes priors =
    let sheet =
      add_includes (record (d_sheet_create address file_path) { is_compiled = true }) includes in
    do
      valid ← reader_test_string_n (codes "D")
      elim valid [
        | false ↦ pure (refused sheet)
        | true ↦ (do
          same ← reader_test_string_n (codes "64")
          elim same [
            | false ↦ pure (refused sheet)
            | true ↦ load_body compiler includes priors sheet
          ])
      ]

-- The sheet gets the address that the allocator gives it.
unfoldable pub d_obj_load : Compiler → ℕ → List ℕ → Text → List Included → List Text → Option Loaded
d_obj_load compiler address obj file_path includes priors =
    Option.map (λ (result : Loaded × ObjectReader). result.0)
      (load_object compiler address file_path includes priors
        (record { obj = obj; ptr = 0; error = false }))
