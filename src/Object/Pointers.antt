-- ===== src/Object/Pointers.antt =====
-- Pointing the links of an object to what was loaded, and the default values of variables, which
-- do not depend on where the links point: src/dobj.c.
use mathlib.Core.Option
use mathlib.Core.Option.{some_inj}
use mathlib.Core.Path.{ap₂}
use decision.Prelude.{
  ℕ, zero, suc, ◌<◌, ◌≡◌, refl, sym, ap, ◌∙◌, subst, Bool, true, false, List, [], ◌∷◌, Option, none,
  some, length, length-set, get_elem?, get_elem?-lt, set, extend8, arith, ◌==◌, ==_iff, Bool-cases,
  inl, inr, if_true, if_false, if◌then◌else◌,
}
use decision.Dtype.{type_bool, type_string}
use decision.Graph.{Text, number_value}
use decision.Optimize.{read_number}
use decision.Sheet.{LinkMeta, link_variable_string_default_value, Metadata, Section, Sheet}
use decision.Object.Generate.{same_text}
use decision.Object.Load.Sections.{
  pointed_text, data_bytes, point_links, find_default, string_default, variable_default,
}
use decision.Object.Parts.{bare, bares}

-- One round of the search for the default value of a string.
default_round :
    (b : Bool) (o : Option Bool) (m : LinkMeta) (rest rest' : Option (Option LinkMeta))
    → rest' ≡ Option.map (Option.map bare) rest
    → (elim b [
      | false ↦ rest'
      | true ↦ elim o [
        | none ↦ none
        | some same ↦ elim same [ true ↦ some (some (bare m)) | false ↦ rest' ]
      ]
    ])
      ≡ Option.map (Option.map bare) (elim b [
        | false ↦ rest
        | true ↦ elim o [
          | none ↦ none
          | some same ↦ elim same [ true ↦ some (some m) | false ↦ rest ]
        ]
      ])
default_round false o m rest rest' e = e
default_round true none m rest rest' e = refl
default_round true (some true) m rest rest' e = refl
default_round true (some false) m rest rest' e = e

find_default-bare :
    (list : List LinkMeta) (name : Option Text)
    → find_default (bares list) name ≡ Option.map (Option.map bare) (find_default list name)
unfolding find_default
find_default-bare [] name = refl
find_default-bare (m ∷ list) name =
    default_round (m.type == link_variable_string_default_value) (same_text m.name name) m
      (find_default list name) (find_default (bares list) name) (find_default-bare list name)

pointed_text-bare :
    (section : Section) (o : Option (Option LinkMeta))
    → pointed_text section (Option.map (Option.map bare) o) ≡ pointed_text section o
unfolding pointed_text
pointed_text-bare section none = refl
pointed_text-bare section (some none) = refl
pointed_text-bare section (some (some m)) = refl

string_default-bare :
    (s s' : Sheet) (name : Option Text)
    → s'.data_ ≡ s.data_
    → s'.link ≡ bares s.link
    → string_default s' name ≡ string_default s name
unfolding string_default
string_default-bare s s' name data_ link =
    ap₂ pointed_text data_ (ap (λ l. find_default l name) link ∙ find_default-bare s.link name)
    ∙ pointed_text-bare s.data_ (find_default s.link name)

pub variable_default-bare :
    (s s' : Sheet) (type : ℕ) (m : LinkMeta)
    → s'.data_ ≡ s.data_
    → s'.link ≡ bares s.link
    → variable_default s' type (bare m) ≡ variable_default s type m
unfolding variable_default
variable_default-bare s s' type m data_ link =
    ap₂
      (λ section value.
        if type == type_bool
        then Option.map (λ xs. number_value (extend8 (read_number 1 xs)))
            (data_bytes section m.ptr 1)
        else if type == type_string
        then value
        else Option.map (λ xs. number_value (read_number 8 xs)) (data_bytes section m.ptr 8))
      data_ (string_default-bare s s' m.name data_ link)

bares-set :
    (list : List LinkMeta) (j : ℕ) (m : LinkMeta) (t : Metadata)
    → get_elem? list j ≡ some m
    → bares (set list j (record m { metadata = t })) ≡ bares list
bares-set [] j m t e = refl
bares-set (x ∷ xs) zero m t e = ap (λ y. y ∷ bares xs) (ap bare (some_inj.0 (sym e)))
bares-set (x ∷ xs) (suc j) m t e = ap (λ ys. bare x ∷ ys) (bares-set xs j m t e)

-- Indexes of a list of length `n`.
abbrev pub AllBelow : ℕ → List ℕ → Type 0
AllBelow n [] = Unit {0}
AllBelow n (i ∷ is) = (i < n) × AllBelow n is

get_elem?-set_same :
    (list : List LinkMeta) (j : ℕ) (y : LinkMeta)
    → j < length list
    → get_elem? (set list j y) j ≡ some y
get_elem?-set_same [] j y h = absurd (omega arith)
get_elem?-set_same (x ∷ xs) zero y h = refl
get_elem?-set_same (x ∷ xs) (suc j) y h = get_elem?-set_same xs j y (omega arith)

get_elem?-set_other :
    (list : List LinkMeta) (j k : ℕ) (y : LinkMeta)
    → ¬ (j ≡ k)
    → get_elem? (set list j y) k ≡ get_elem? list k
get_elem?-set_other [] j k y h = refl
get_elem?-set_other (x ∷ xs) zero zero y h = absurd (h refl)
get_elem?-set_other (x ∷ xs) zero (suc k) y h = refl
get_elem?-set_other (x ∷ xs) (suc j) zero y h = refl
get_elem?-set_other (x ∷ xs) (suc j) (suc k) y h = get_elem?-set_other xs j k y (λ e. h (ap suc e))

-- The metadata of the link at `k`, of which `indexes` are the links of the entries from `i` on: the
-- last of these entries that it belongs to, and `metadata` if there is none.
abbrev pub target_from : (ℕ → Metadata) → List ℕ → ℕ → ℕ → Metadata → Metadata
target_from target [] i k metadata = metadata
target_from target (j ∷ js) i k metadata =
    target_from target js (suc i) k (if j == k then target i else metadata)

-- The links of two lists are the same but for their metadata, which is given by index.
abbrev pub IsPointed : (ℕ → Metadata → Metadata) → List LinkMeta → List LinkMeta → Type 0
IsPointed metadata list list' =
    (k : ℕ) (m : LinkMeta)
    → get_elem? list k ≡ some m
    → get_elem? list' k ≡ some (record m { metadata = metadata k m.metadata })

set-IsPointed :
    (list : List LinkMeta) (j : ℕ) (m : LinkMeta) (t : Metadata)
    → j < length list
    → get_elem? list j ≡ some m
    → IsPointed
        (λ k metadata. if j == k then t else metadata)
        list
        (set list j (record m { metadata = t }))
set-IsPointed list j m t h e k x found = elim (Bool-cases (j == k)) [
  | inl same ↦
      (let here = (==_iff j k).0 same in
        ap (get_elem? (set list j (record m { metadata = t }))) (sym here)
        ∙ get_elem?-set_same list j (record m { metadata = t }) h
        ∙ ap (λ (y : LinkMeta). some (record y { metadata = t }))
            (some_inj.0 (sym e ∙ ap (get_elem? list) here ∙ found))
        ∙ ap (λ d. some (record x { metadata = d })) (sym (if_true t x.metadata same)))
  | inr other ↦
      get_elem?-set_other list j k (record m { metadata = t })
        (λ here. cc (other, (==_iff j k).1 here))
      ∙ found
      ∙ ap (λ d. some (record x { metadata = d })) (sym (if_false t x.metadata other))
]

-- Only the metadata of the links changes, and this to the entries at whose indexes they stand.
pub point_links_lem :
    (target : ℕ → Metadata) (indexes : List ℕ) (i : ℕ) (list : List LinkMeta)
    → AllBelow (length list) indexes
    → (list' : List LinkMeta) × (point_links target indexes i list ≡ some list')
      × (bares list' ≡ bares list)
      × IsPointed (target_from target indexes i) list list'
unfolding point_links
point_links_lem target [] i list h = (list, refl, refl, λ k m e. e)
point_links_lem target (j ∷ js) i list h =
    let (m, found) = get_elem?-lt list j h.0 in
    let list1 = set list j (record m { metadata = target i }) in
    let (list', e, same, pointed) = point_links_lem target js (suc i) list1 (
      subst (λ n. AllBelow n js) (sym (length-set list j (record m { metadata = target i })))
        h.1) in
    (
      list',
      ap
            (λ o. elim o [
              | none ↦ none
              | some x ↦
                  point_links target js (suc i) (set list j (record x { metadata = target i }))
            ])
            found
          ∙ e,
      same ∙ bares-set list j m (target i) found,
      λ k x at.
          pointed k (record x { metadata = if j == k then target i else x.metadata })
            (set-IsPointed list j m (target i) h.0 found k x at),
    )
