-- ===== src/Object/Reloaded.antt =====
-- What a sheet is after it was written by `d_obj_generate` and read by `d_obj_load` of src/dobj.c,
-- and how the actions of the loading lead there.
use mathlib.Core.List.{append_assoc, append-nil}
use decision.Prelude.{
  ℕ, ◌≡◌, refl, sym, ap, ◌∙◌, Bool, true, false, ◌||◌, List, [], ◌∷◌, ◌++◌, Option, some, length,
  get_elem?, ◌==◌,
}
use decision.Graph.{Text}
use decision.Sheet.{Included, Sheet, LinkMeta, Metadata, variable_at, function_at, link_cfunction}
use decision.Object.Pointers.{target_from}
use decision.Object.Bodies.{function_indexes}
use decision.Object.Variables.{variable_indexes}
use decision.Object.Resolve.{ResolvedAs}
use decision.Sheet.Build.{d_sheet_add_include}
use decision.Sheet.Include.{load_include, is_prior, d_sheet_add_include_from_path}
use decision.Object.Reader.{ObjectReader, Read, ◌>>=◌}
use decision.Object.Generate.{written_path}
use decision.Object.Load.{Compiler, Loaded, in_includes, load_path}
use decision.Object.Reads.{IsAhead, >>=-eq}
use decision.Object.Loads.{after, Loads, after-IsAhead, append_nonempty}
use decision.Object.Parts.{bares, meta_again, metas_again, functions_again, variables_again}
use decision.Object.Includes.{paths_loaded}

abbrev pub include_paths : List Included → List (Option Text)
include_paths [] = []
include_paths (i ∷ is) = i.include_path ∷ include_paths is

abbrev pub written_paths : List Included → List (Option Text)
written_paths [] = []
written_paths (i ∷ is) = some (written_path i) ∷ written_paths is

abbrev pub is_empty : List Included → Bool
is_empty [] = true
is_empty (i ∷ is) = false

-- What the link at index `k` of a sheet is before the C functions are looked up, in a sheet at the
-- address: it points to the variable or to the function whose link it is, and else to nothing that is
-- known, or set.
abbrev pub target_again : ℕ → Sheet → ℕ → Metadata → Metadata
target_again address s k metadata =
    target_from (variable_at address) (variable_indexes s.link s.variables) 0 k
      (target_from (function_at address) (function_indexes s.link s.functions) 0 k metadata)

abbrev pub link_again : ℕ → Sheet → ℕ → LinkMeta → LinkMeta
link_again address s k m =
    let m' = meta_again s.address m in record m' { metadata = target_again address s k m'.metadata }

-- What comes back: the text, the data and the links, with what they point to; the functions and the
-- variables, their NULL texts empty; the paths of the includes. The sheet has errors if it includes
-- nothing.
pub record IsReloaded (compiler : Compiler) (s : Sheet) (sheet : Sheet) : Type 0 where
  pub text : sheet.text ≡ s.text
  pub main : sheet.main ≡ s.main
  pub data_ : sheet.data_ ≡ s.data_
  pub link : bares sheet.link ≡ bares (metas_again s.address s.link)
  pub targets :
      (k : ℕ) (m : LinkMeta)
      → get_elem? s.link k ≡ some m
      → (m' : LinkMeta) × (get_elem? sheet.link k ≡ some m')
        × ResolvedAs compiler sheet (m.type == link_cfunction) (link_again sheet.address s k m) m'
  pub ins_link_list : sheet.ins_link_list ≡ s.ins_link_list
  pub functions : sheet.functions ≡ functions_again sheet.address s.functions
  pub variables : sheet.variables ≡ variables_again sheet.address s.variables
  pub includes : include_paths sheet.includes ≡ written_paths s.includes
  pub has_errors : sheet.has_errors ≡ is_empty s.includes

pub include_paths-append :
    (xs ys : List Included) → include_paths (xs ++ ys) ≡ include_paths xs ++ include_paths ys
include_paths-append [] ys = refl
include_paths-append (x ∷ xs) ys = ap (λ zs. x.include_path ∷ zs) (include_paths-append xs ys)

-- Including sheets changes nothing else of the sheet.
pub paths_loaded_lem :
    (compiler : Compiler) (is : List Included) (state : Loaded)
    → (added : List Included) × (reported : List Text) × (paths_loaded compiler is state
        ≡ record { sheet = record (state.sheet) { includes = added }; reported = reported })
      × (include_paths added ≡ include_paths state.sheet.includes ++ written_paths is)
unfolding load_path in_includes d_sheet_add_include_from_path is_prior d_sheet_add_include
    load_include
paths_loaded_lem compiler [] state = (
  state.sheet.includes,
  state.reported,
  refl,
  sym (append-nil (include_paths state.sheet.includes)),
)
paths_loaded_lem compiler (i ∷ is) state =
    let (added, reported, e, paths) =
      paths_loaded_lem compiler is (load_path compiler [] [] (written_path i) state) in
    (
      added,
      reported,
      e,
      paths
          ∙ ap (λ xs. xs ++ written_paths is)
              (include_paths-append state.sheet.includes
                (load_include compiler.load_file state.sheet (written_path i) [] ∷ []))
          ∙ append_assoc (include_paths state.sheet.includes) (some (written_path i) ∷ [])
              (written_paths is),
    )

-- The action ends with the loaded sheet, whatever was read before it: an error flag that was set
-- already is accounted for by `b`.
pub record Finishes (compiler : Compiler) (m : Read Loaded) (bs : List ℕ) (b : Bool) (s : Sheet)
    : Type 0 where
  pub nonempty : b ≡ false → ¬ (bs ≡ [])
  pub finishes :
      (r : ObjectReader)
      → IsAhead r bs
      → (r.error ≡ true → b ≡ true)
      → (loaded : Loaded) × (r' : ObjectReader) × (m r ≡ some (loaded, r'))
        × IsReloaded compiler s loaded.sheet

-- The flag after a step is accounted for, if it was before.
flag_lem :
    (b error e : Bool) (full : Type 0)
    → (error ≡ true → b ≡ true)
    → (b ≡ false → full)
    → (full → e ≡ false)
    → (error || e) ≡ true
    → b ≡ true
flag_lem true error e full before must kept now = refl
flag_lem false true e full before must kept now = before refl
flag_lem false false e full before must kept now = absurd (cc (now, kept (must refl)))

pub bind-Finishes :
    {compiler : Compiler} {A : Type 0} {m : Read A} (f : A → Read Loaded) {bs cs : List ℕ} {a : A}
    {b : Bool} {s : Sheet}
    → Loads m bs cs a
    → Finishes compiler (f a) cs b s
    → Finishes compiler (m >>= f) (bs ++ cs) b s
bind-Finishes {m = m} f {bs = bs} {cs = cs} {a = a} {b = b} hm hf = record {
  nonempty = λ e. append_nonempty bs cs (hf.nonempty e);
  finishes = λ r x before.
      let (e, p, kept) = hm.loads r x in
      let (loaded, r', q, done) =
        hf.finishes (after r (length bs) e) (after-IsAhead r bs cs e x)
          (flag_lem b r.error e (¬ (cs ≡ [])) before hf.nonempty kept) in
      (loaded, r', >>=-eq m f r p ∙ q, done);
}
