-- ===== src/Sheet/Include.antt =====
-- `d_sheet_add_include_from_path` of src/dsheet.c. Loading the file is input, so that it is a
-- parameter: the sheet that a path with a list of priors gives.
use decision.Prelude.{
  ℕ, zero, suc, ◌+◌, Bool, true, false, ◌||◌, List, [], ◌∷◌, ◌++◌, Option, none, some, length,
  get_elem?, take, ◌==◌, if◌then◌else◌,
}
use decision.Graph.{Text}
use decision.Sheet.{Included, Sheet}
use decision.Sheet.Build.{d_sheet_add_include}
use decision.Object.Reader.{same_bytes}

-- '/' and '\'.
abbrev is_separator : ℕ → Bool
is_separator c = c == 47 || c == 92

-- The index of the last separator below `n`; `none` is -1.
unfoldable pub last_separator : Text → ℕ → Option ℕ
last_separator path zero = none
last_separator path (suc n) =
    let rest = last_separator path n in
    elim (get_elem? path n) [ none ↦ rest | some c ↦ if is_separator c then some n else rest ]

-- The path of the file, in the directory of the sheet that includes it.
unfoldable pub final_path : Text → Text → Text
final_path file_path include_path = elim (last_separator file_path (length file_path)) [
  | none ↦ include_path
  | some i ↦ take (i + 1) file_path ++ include_path
]

unfoldable pub is_prior : List Text → Text → Bool
is_prior [] path = false
is_prior (prior ∷ priors) path = same_bytes prior path || is_prior priors path

-- The sheet that is loaded, which keeps the path that it was included by.
unfoldable pub load_include : (Text → List Text → Included) → Sheet → Text → List Text → Included
load_include load_file sheet include_path priors =
    record (load_file (final_path sheet.file_path include_path) (priors ++ sheet.file_path ∷ [])) {
      include_path = some include_path;
    }

-- The sheet with the include, and the sheet that was created. For a circular include that sheet
-- is not added.
unfoldable pub d_sheet_add_include_from_path :
    (Text → List Text → Included) → Sheet → Text → List Text → Sheet × Included
d_sheet_add_include_from_path load_file sheet include_path priors =
    let path = final_path sheet.file_path include_path in
    if is_prior priors path
    then (sheet, record { file_path = path; include_path = none; has_errors = true })
    else (let added = load_include load_file sheet include_path priors in
        (d_sheet_add_include sheet added, added))
