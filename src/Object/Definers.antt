-- ===== src/Object/Definers.antt =====
-- The sections of functions, variables and includes of an object of src/dobj.c, loaded into a
-- sheet, with the links that point to them.
use mathlib.Core.Option.{some_inj}
use mathlib.Core.Path.{ap₂}
use decision.Prelude.{
  ℕ, suc, ◌≡◌, refl, sym, ap, ◌∙◌, subst, List, [], ◌∷◌, ◌++◌, some, length, arith,
}
use decision.Prelude.Chars.{codes}
use decision.Sheet.{
  LinkMeta, link_function, variable_at, function_at, Metadata, SheetVariable, SheetFunction, Sheet,
}
use decision.Object.Reader.{pure}
use decision.Object.Generate.{variable_link}
use decision.Object.Load.Sections.{load_func, load_var, point_links}
use decision.Object.Reads.{Reads, pure-Reads}
use decision.Object.Loads.{part_bytes, Loads, IsForeign, part-Loads}
use decision.Object.Parts.{
  metas_again, bares, functions_again, AllStoredFunctions, variables_again, AllStoredVariables,
  func_part, var_part, IsStored,
}
use decision.Object.Pointers.{AllBelow, IsPointed, target_from, point_links_lem}
use decision.Object.Lookup.{index_of-lt}
use decision.Object.Bodies.{lift-Reads, then-Reads, function_indexes, functions-Reads}
use decision.Object.Variables.{variable_indexes, variables-Reads}

length-bares : (list : List LinkMeta) → length (bares list) ≡ length list
length-bares [] = refl
length-bares (m ∷ list) = ap suc (length-bares list)

length-metas_again : (a : ℕ) (list : List LinkMeta) → length (metas_again a list) ≡ length list
length-metas_again a [] = refl
length-metas_again a (m ∷ list) = ap suc (length-metas_again a list)

-- The links that were loaded are as many as those of the sheet.
same_length :
    (s : Sheet) (loaded : List LinkMeta)
    → bares loaded ≡ bares (metas_again s.address s.link)
    → length loaded ≡ length s.link
same_length s loaded same = omega (
  arith,
  length-bares loaded,
  ap length same,
  length-bares (metas_again s.address s.link),
  length-metas_again s.address s.link,
)

functions-AllBelow :
    (list : List LinkMeta) (fs : List SheetFunction) (n : ℕ)
    → n ≡ length list
    → AllStoredFunctions list fs
    → AllBelow n (function_indexes list fs)
functions-AllBelow list [] n e h = tt
functions-AllBelow list (f ∷ fs) n e h = (
  omega (arith, e, index_of-lt list f.function_definition.name link_function h.0.linked),
  functions-AllBelow list fs n e h.1,
)

variables-AllBelow :
    (s : Sheet) (vs : List SheetVariable) (n : ℕ)
    → n ≡ length s.link
    → AllStoredVariables s vs
    → AllBelow n (variable_indexes s.link vs)
variables-AllBelow s [] n e h = tt
variables-AllBelow s (v ∷ vs) n e h = (
  omega (
    arith,
    e,
    index_of-lt s.link v.variable_meta.name (variable_link v.variable_meta) h.0.linked,
  ),
  variables-AllBelow s vs n e h.1,
)

-- Without indexes the links stay as they are.
nothing_pointed :
    (target : ℕ → Metadata) (indexes : List ℕ) (list list' : List LinkMeta)
    → indexes ≡ []
    → point_links target indexes 0 list ≡ some list'
    → list' ≡ list
unfolding point_links
nothing_pointed target indexes list list' e p =
    some_inj.0 (sym p ∙ ap (λ js. point_links target js 0 list) e)

no_functions :
    (list : List LinkMeta) (address : ℕ) (fs : List SheetFunction)
    → length fs ≡ 0
    → (function_indexes list fs ≡ []) × (functions_again address fs ≡ [])
no_functions list address [] e = (refl, refl)
no_functions list address (f ∷ fs) e = absurd (omega arith)

no_variables :
    (list : List LinkMeta) (address : ℕ) (vs : List SheetVariable)
    → length vs ≡ 0
    → (variable_indexes list vs ≡ []) × (variables_again address vs ≡ [])
no_variables list address [] e = (refl, refl)
no_variables list address (v ∷ vs) e = absurd (omega arith)

-- The functions, and the list of links that point to them.
pub func-Loads :
    (s sheet : Sheet) (rest : List ℕ)
    → IsStored s
    → sheet.functions ≡ []
    → bares sheet.link ≡ bares (metas_again s.address s.link)
    → IsForeign (codes ".func") rest
    → (link : List LinkMeta) × (bares link ≡ bares sheet.link)
      × IsPointed
          (target_from (function_at sheet.address) (function_indexes s.link s.functions) 0)
          sheet.link
          link
      × Loads
          (load_func sheet)
          (part_bytes (func_part s))
          rest
          (record sheet { functions = functions_again sheet.address s.functions; link = link })
unfolding load_func
func-Loads s sheet rest h none_yet same foreign =
    let fs = s.functions in
    let (link, pointed, kept, targets) =
      point_links_lem (function_at sheet.address) (function_indexes s.link fs) 0 sheet.link (
        functions-AllBelow s.link fs (length sheet.link) (same_length s sheet.link same)
          h.functions) in
    (
      link,
      kept,
      targets,
      part-Loads (func_part s) rest (record sheet { functions = [] }) _
          (record sheet { functions = functions_again sheet.address fs; link = link }) (omega arith)
          (omega arith) h.functions_size foreign
          (λ e.
            let (no_indexes, no_fs) = no_functions s.link sheet.address fs e in
            ap₂ (λ a b. record sheet { functions = a; link = b }) no_fs
              (nothing_pointed (function_at sheet.address) (function_indexes s.link fs) sheet.link
                link no_indexes pointed))
          (λ full.
            then-Reads _ (functions-Reads s.address s.link sheet fs [] h.link_size same h.functions)
              (lift-Reads _ pointed (
                subst
                  (λ done.
                    Reads
                      (pure (record sheet {
                        functions = done ++ functions_again sheet.address fs;
                        link = link;
                      }))
                      []
                      (record sheet { functions = functions_again sheet.address fs; link = link }))
                  (sym none_yet) (pure-Reads _)))),
    )

-- The variables, and the list of links that point to them.
pub var-Loads :
    (s sheet : Sheet) (rest : List ℕ)
    → IsStored s
    → sheet.variables ≡ []
    → sheet.data_ ≡ s.data_
    → bares sheet.link ≡ bares (metas_again s.address s.link)
    → IsForeign (codes ".var") rest
    → (link : List LinkMeta) × (bares link ≡ bares sheet.link)
      × IsPointed
          (target_from (variable_at sheet.address) (variable_indexes s.link s.variables) 0)
          sheet.link
          link
      × Loads
          (load_var sheet)
          (part_bytes (var_part s))
          rest
          (record sheet { variables = variables_again sheet.address s.variables; link = link })
unfolding load_var
var-Loads s sheet rest h none_yet data_ same foreign =
    let vs = s.variables in
    let (link, pointed, kept, targets) =
      point_links_lem (variable_at sheet.address) (variable_indexes s.link vs) 0 sheet.link
        (variables-AllBelow s vs (length sheet.link) (same_length s sheet.link same) h.variables) in
    (
      link,
      kept,
      targets,
      part-Loads (var_part s) rest (record sheet { variables = [] }) _
          (record sheet { variables = variables_again sheet.address vs; link = link }) (omega arith)
          (omega arith) h.variables_size foreign
          (λ e.
            let (no_indexes, no_vs) = no_variables s.link sheet.address vs e in
            ap₂ (λ a b. record sheet { variables = a; link = b }) no_vs
              (nothing_pointed (variable_at sheet.address) (variable_indexes s.link vs) sheet.link
                link no_indexes pointed))
          (λ full. then-Reads _ (variables-Reads s sheet vs [] h.link_size data_ same h.variables) (
            lift-Reads _ pointed (
              subst
                (λ done.
                  Reads
                    (pure (record sheet {
                      variables = done ++ variables_again sheet.address vs;
                      link = link;
                    }))
                    [] (record sheet { variables = variables_again sheet.address vs; link = link }))
                (sym none_yet) (pure-Reads _)))),
    )
