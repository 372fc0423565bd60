-- ===== src/Object/Lookup.antt =====
-- The search for a link in src/dobj.c: the link of a function or of a variable is found again in
-- the list of links that was loaded.
use mathlib.Core.Option
use mathlib.Core.Option.{some_inj}
use mathlib.Core.Path.{ap₂}
use decision.Prelude.{
  ℕ, zero, suc, ◌+◌, ◌<◌, ◌≡◌, refl, sym, ap, ◌∙◌, subst, Bool, true, false, ◌&&◌, List, [], ◌∷◌,
  ◌⊎◌, Option, none, some, length, get_elem?, lt-get_elem?, ◌==◌, arith, inl, inr, Bool-cases,
  ==_iff,
}
use decision.Graph.{Text}
use decision.Sheet.{LinkMeta}
use decision.Object.Reader.{same_bytes}
use decision.Object.Generate.{same_text, find_from, find_link}
use decision.Object.Load.Sections.{link_at}
use decision.Object.Definitions.{text_again}
use decision.Object.Parts.{meta_again, metas_again, bare, bares, some_index, index_of, IsLinked}

pub same_bytes→≡ : (xs ys : List ℕ) → same_bytes xs ys ≡ true → xs ≡ ys
same_bytes→≡ [] [] h = refl
same_bytes→≡ [] (y ∷ ys) h = cc h
same_bytes→≡ (x ∷ xs) [] h = cc h
same_bytes→≡ (x ∷ xs) (y ∷ ys) h = elim (Bool-cases (x == y)) [
  | inl e ↦
      ap₂ (λ a rest. a ∷ rest) ((==_iff x y).0 e)
        (same_bytes→≡ xs ys (ap (λ b. b && same_bytes xs ys) (sym e) ∙ h))
  | inr e ↦ cc (ap (λ b. b && same_bytes xs ys) (sym e) ∙ h)
]

-- A link that was found is there, with the name and the type that were looked for.
pub IsLinkOf : List LinkMeta → ℕ → Option Text → ℕ → Type 0
IsLinkOf list j name type =
    (m : LinkMeta) × (n : Text) × (get_elem? list j ≡ some m)
    × (m.name ≡ some n)
    × (name ≡ some n)
    × (m.type ≡ type)

-- One round of the search: the link is the one, or the search goes on.
find_round :
    (name o : Option Text) (type t i k : ℕ) (rest : Option (Option ℕ))
    → (elim (same_text name o) [
      | none ↦ none
      | some same ↦ elim (same && type == t) [ true ↦ some (some i) | false ↦ rest ]
    ])
      ≡ some (some k)
    → ((n : Text) × (o ≡ some n) × (name ≡ some n) × (t ≡ type) × (k ≡ i)) ⊎ (rest ≡ some (some k))
unfolding same_text
find_round none o type t i k rest e = cc e
find_round (some s) none type t i k rest e = cc e
find_round (some s) (some n) type t i k rest e = elim (Bool-cases (same_bytes s n)) [
  | inr f ↦ inr (sym (ap (λ b. decide (b && type == t)) f) ∙ e)
  | inl same ↦ elim (Bool-cases (type == t)) [
    | inr f ↦ inr (sym (ap decide (ap₂ (λ a b. a && b) same f)) ∙ e)
    | inl found ↦ inl (
      n,
      refl,
      ap some (same_bytes→≡ s n same),
      sym ((==_iff type t).0 found),
      ap some_index (sym e ∙ ap decide (ap₂ (λ a b. a && b) same found)),
    )
  ]
]
  where
    decide : Bool → Option (Option ℕ)
    decide b = elim b [ true ↦ some (some i) | false ↦ rest ]

find_from-IsLinkOf :
    (list : List LinkMeta) (name : Option Text) (type i k : ℕ)
    → find_from list name type i ≡ some (some k)
    → (j : ℕ) × (k ≡ i + j) × IsLinkOf list j name type
unfolding find_from IsLinkOf
find_from-IsLinkOf [] name type i k e = cc e
find_from-IsLinkOf (m ∷ list) name type i k e =
    elim (find_round name m.name type m.type i k (find_from list name type (suc i)) e) [
      | inl (n, named, same, typed, here) ↦
          (0, omega (arith, here), (m, n, refl, named, same, typed))
      | inr later ↦
          (let (j, at_j, found) = find_from-IsLinkOf list name type (suc i) k later in
            (suc j, omega (arith, at_j), found))
    ]

pub find_link-IsLinkOf :
    (list : List LinkMeta) (name : Option Text) (type : ℕ)
    → IsLinked list name type
    → IsLinkOf list (index_of list name type) name type
unfolding find_link
find_link-IsLinkOf list name type h =
    let (j, at_j, found) = find_from-IsLinkOf list name type 0 (index_of list name type) h in
    subst (λ k. IsLinkOf list k name type) (omega (arith, at_j)) found

metas_again-IsLinkOf :
    (address : ℕ) (list : List LinkMeta) (j : ℕ) (m : LinkMeta)
    → get_elem? list j ≡ some m
    → get_elem? (bares (metas_again address list)) j ≡ some (bare (meta_again address m))
metas_again-IsLinkOf address [] j m e = cc e
metas_again-IsLinkOf address (x ∷ xs) zero m e =
    ap (λ o. Option.map (λ y. bare (meta_again address y)) o) e
metas_again-IsLinkOf address (x ∷ xs) (suc j) m e = metas_again-IsLinkOf address xs j m e

bares-get_elem? :
    (list : List LinkMeta) (j : ℕ) (b : LinkMeta)
    → get_elem? (bares list) j ≡ some b
    → (m : LinkMeta) × (get_elem? list j ≡ some m) × (bare m ≡ b)
bares-get_elem? [] j b e = cc e
bares-get_elem? (m ∷ list) zero b e = (m, refl, some_inj.0 e)
bares-get_elem? (m ∷ list) (suc j) b e = bares-get_elem? list j b e

link_at_lem :
    (list : List LinkMeta) (j : ℕ) (m : LinkMeta) (n : Text)
    → get_elem? list j ≡ some m
    → m.name ≡ some n
    → link_at list j ≡ some m
unfolding link_at
link_at_lem list j m n found named =
    ap (λ o. elim o [ none ↦ none | some x ↦ elim (x.name) [ none ↦ none | some t ↦ some x ] ])
      found
    ∙ ap (λ o. elim o [ none ↦ none | some t ↦ some m ]) named

-- The link of a function or of a variable, in any list that is the one of the object but for the
-- metadata.
pub link_again :
    (address : ℕ) (list loaded : List LinkMeta) (name : Option Text) (type : ℕ)
    → bares loaded ≡ bares (metas_again address list)
    → IsLinked list name type
    → (m : LinkMeta) × (m' : LinkMeta) × (n : Text) × (get_elem? list (index_of list name type)
        ≡ some m)
      × (link_at loaded (index_of list name type) ≡ some m')
      × (bare m' ≡ bare (meta_again address m))
      × (m'.name ≡ name)
      × (name ≡ some n)
unfolding IsLinkOf
link_again address list loaded name type same h =
    let (m, n, found, named, looked, typed) = find_link-IsLinkOf list name type h in
    let (m', found', kept) =
      bares-get_elem? loaded (index_of list name type) (bare (meta_again address m)) (
        ap (λ xs. get_elem? xs (index_of list name type)) same
        ∙ metas_again-IsLinkOf address list (index_of list name type) m found) in
    let named' : m'.name ≡ some n = ap (λ x. x.name) kept ∙ ap text_again named in
    (
      m,
      m',
      n,
      found,
      link_at_lem loaded (index_of list name type) m' n found' named',
      kept,
      named' ∙ sym looked,
      looked,
    )

pub index_of-lt :
    (list : List LinkMeta) (name : Option Text) (type : ℕ)
    → IsLinked list name type
    → index_of list name type < length list
unfolding IsLinkOf
index_of-lt list name type h =
    let (m, n, found, named, looked, typed) = find_link-IsLinkOf list name type h in
    lt-get_elem? list (index_of list name type) m found
