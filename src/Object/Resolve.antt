-- ===== src/Object/Resolve.antt =====
-- The links of C functions that `d_obj_load` of src/dobj.c looks up when all sections are read.
use mathlib.Core.List.{append_assoc, append-nil}
use mathlib.Core.Path.{ap₂}
use mathlib.Core.Option.{some_inj}
use decision.Prelude.{
  ℕ, ◌≡◌, inl, inr, refl, sym, ap, ◌∙◌, subst, Bool, true, false, List, [], ◌∷◌, ◌++◌, Option, none,
  some, ◌==◌, Bool-cases, zero, suc, get_elem?,
}
use decision.Graph.{Text}
use decision.Sheet.{LinkMeta, link_cfunction, Metadata, Sheet}
use decision.Object.Load.{Compiler, resolve, load_cfunctions}
use decision.Object.Definitions.{text_again}
use decision.Object.Parts.{bare, bares, metas_again}

-- Whether the compiler knows the C function of a link that is one.
abbrev pub IsKnownAs : Compiler → Option Text → Bool → Type 0
IsKnownAs compiler name false = Unit {0}
IsKnownAs compiler name true =
    (s : Sheet) → (t : Metadata) × (resolve compiler s name ≡ some (some t))

abbrev pub AllKnown : Compiler → List LinkMeta → Type 0
AllKnown compiler [] = Unit {0}
AllKnown compiler (m ∷ ms) =
    IsKnownAs compiler m.name (m.type == link_cfunction) × AllKnown compiler ms

pub AllKnown-bares :
    (compiler : Compiler) (ms : List LinkMeta) → AllKnown compiler (bares ms) → AllKnown compiler ms
AllKnown-bares compiler [] h = tt
AllKnown-bares compiler (m ∷ ms) h = (h.0, AllKnown-bares compiler ms h.1)

-- A known C function has a name, which comes back.
known_again :
    (compiler : Compiler) (name : Option Text) (b : Bool)
    → IsKnownAs compiler name b
    → IsKnownAs compiler (text_again name) b
unfolding resolve
known_again compiler none false h = tt
known_again compiler none true h = λ s. absurd (cc ((h s).1))
known_again compiler (some n) b h = h

pub AllKnown-metas_again :
    (compiler : Compiler) (address : ℕ) (ms : List LinkMeta)
    → AllKnown compiler ms
    → AllKnown compiler (bares (metas_again address ms))
AllKnown-metas_again compiler address [] h = tt
AllKnown-metas_again compiler address (m ∷ ms) h = (
  known_again compiler m.name (m.type == link_cfunction) h.0,
  AllKnown-metas_again compiler address ms h.1,
)

-- A link of a C function gets what the compiler knows by its name, in the sheet with some of its links
-- done; any other link stays.
abbrev pub ResolvedAs : Compiler → Sheet → Bool → LinkMeta → LinkMeta → Type 0
ResolvedAs compiler sheet false m m' = m' ≡ m
ResolvedAs compiler sheet true m m' =
    (link : List LinkMeta) × (errors : Bool) × (t : Metadata) × (resolve compiler
        (record sheet { link = link; has_errors = errors }) m.name
      ≡ some (some t))
    × (m' ≡ record m { metadata = t })

abbrev pub AllResolved : Compiler → Sheet → List LinkMeta → List LinkMeta → Type 0
AllResolved compiler sheet [] [] = Unit {0}
AllResolved compiler sheet [] (m' ∷ ms') = ⊥
AllResolved compiler sheet (m ∷ ms) [] = ⊥
AllResolved compiler sheet (m ∷ ms) (m' ∷ ms') =
    ResolvedAs compiler sheet (m.type == link_cfunction) m m' × AllResolved compiler sheet ms ms'

pub AllResolved-get_elem? :
    (compiler : Compiler) (sheet : Sheet) (ms ms' : List LinkMeta) (k : ℕ) (m : LinkMeta)
    → AllResolved compiler sheet ms ms'
    → get_elem? ms k ≡ some m
    → (m' : LinkMeta) × (get_elem? ms' k ≡ some m')
      × ResolvedAs compiler sheet (m.type == link_cfunction) m m'
AllResolved-get_elem? compiler sheet [] ms' k m h e = absurd (cc e)
AllResolved-get_elem? compiler sheet (x ∷ ms) [] k m h e = absurd h
AllResolved-get_elem? compiler sheet (x ∷ ms) (x' ∷ ms') zero m h e = (
  x',
  refl,
  subst (λ y. ResolvedAs compiler sheet (y.type == link_cfunction) y x') (some_inj.0 e) h.0,
)
AllResolved-get_elem? compiler sheet (x ∷ ms) (x' ∷ ms') (suc k) m h e =
    AllResolved-get_elem? compiler sheet ms ms' k m h.1 e

-- All C functions are found, so that only metadata changes, and no error is added.
pub load_cfunctions_lem :
    (compiler : Compiler) (sheet : Sheet) (done list : List LinkMeta) (errors : Bool)
    → AllKnown compiler list
    → (rest : List LinkMeta) × (load_cfunctions compiler sheet done list errors
        ≡ some (done ++ rest, errors))
      × (bares rest ≡ bares list)
      × AllResolved compiler sheet list rest
unfolding load_cfunctions
load_cfunctions_lem compiler sheet done [] errors h =
    ([], ap (λ l. some (l, errors)) (sym (append-nil done)), refl, tt)
load_cfunctions_lem compiler sheet done (m ∷ list) errors h =
    elim (Bool-cases (m.type == link_cfunction)) [
      | inr f ↦
          (let (rest, e, same, resolved) =
              load_cfunctions_lem compiler sheet (done ++ m ∷ []) list errors h.1 in
            (
              m ∷ rest,
              ap (next (resolve compiler sheet1 m.name)) f
                  ∙ e
                  ∙ ap (λ l. some (l, errors)) (append_assoc done (m ∷ []) rest),
              ap (λ l. bare m ∷ l) same,
              (subst (λ b. ResolvedAs compiler sheet b m m) (sym f) refl, resolved),
            ))
      | inl t ↦
          (let (target, found) = subst (IsKnownAs compiler m.name) t h.0 sheet1 in
            let m' : LinkMeta = record m { metadata = target } in
            let (rest, e, same, resolved) =
              load_cfunctions_lem compiler sheet (done ++ m' ∷ []) list errors h.1 in
            (
              m' ∷ rest,
              ap₂ next found t ∙ e ∙ ap (λ l. some (l, errors)) (append_assoc done (m' ∷ []) rest),
              ap (λ l. bare m ∷ l) same,
              (
                subst (λ b. ResolvedAs compiler sheet b m m') (sym t)
                    (done ++ m ∷ list, errors, target, found, refl),
                resolved,
              ),
            ))
    ]
  where
    sheet1 : Sheet
    sheet1 = record sheet { link = done ++ m ∷ list; has_errors = errors }

    next : Option (Option Metadata) → Bool → Option (List LinkMeta × Bool)
    next o b = elim b [
      | false ↦ load_cfunctions compiler sheet (done ++ m ∷ []) list errors
      | true ↦ elim o [
        | none ↦ none
        | some found ↦ elim found [
          | none ↦ load_cfunctions compiler sheet (done ++ m ∷ []) list true
          | some t ↦
              load_cfunctions compiler sheet (done ++ record m { metadata = t } ∷ []) list errors
        ]
      ]
    ]
