-- ===== src/Object/Apart.antt =====
-- Sections of an object of src/dobj.c with other tags are not taken for one that is missing.
use mathlib.Core.List.{append_assoc}
use decision.Prelude.{
  ℕ, ◌+◌, ◌≤◌, ◌≡◌, refl, sym, ap, ◌∙◌, subst, inl, inr, false, List, [], ◌∷◌, ◌++◌, length, take,
  ltb, arith, length-append, if◌then◌else◌, Bool-cases,
}
use decision.Graph.{Text}
use decision.Optimize.{number_bytes}
use decision.Optimize.Encode.{length-number_bytes}
use decision.Object.Reader.{same_bytes}
use decision.Object.Loads.{Part, parts_bytes, IsForeign}

-- Tags that a section with another tag cannot be taken for.
abbrev pub AllForeign : Text → List Part → Type 0
AllForeign tag [] = Unit {0}
AllForeign tag (p ∷ ps) =
    ((zs : List ℕ) → same_bytes tag (take (length tag) (p.tag ++ zs)) ≡ false)
    × (length tag ≤ length p.tag + 8)
    × AllForeign tag ps

pub parts-IsForeign :
    (tag : Text) (ps : List Part) → AllForeign tag ps → IsForeign tag (parts_bytes ps)
parts-IsForeign tag [] h = inl refl
parts-IsForeign tag (p ∷ ps) h = elim (Bool-cases (ltb 0 p.size)) [
  | inl e ↦
      subst (λ b. IsForeign tag ((if b then p.tag ++ (number ++ p.body) else []) ++ parts_bytes ps))
        (sym e)
        (inr (
          omega (
            arith,
            h.1,
            length-append (p.tag ++ (number ++ p.body)) (parts_bytes ps),
            length-append p.tag (number ++ p.body),
            length-append number p.body,
            length-number_bytes 8 p.size,
          ),
          ap (λ xs. same_bytes tag (take (length tag) xs))
                (append_assoc p.tag (number ++ p.body) (parts_bytes ps))
              ∙ h.0 (number ++ p.body ++ parts_bytes ps),
        ))
  | inr e ↦
      subst (λ b. IsForeign tag ((if b then p.tag ++ (number ++ p.body) else []) ++ parts_bytes ps))
        (sym e) (parts-IsForeign tag ps h.2)
]
  where
    number : List ℕ
    number = number_bytes 8 p.size
