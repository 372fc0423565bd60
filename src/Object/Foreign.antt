-- ===== src/Object/Foreign.antt =====
-- The tags of the sections of an object of src/dobj.c are apart: a section is not taken for an
-- earlier one that is missing.
use decision.Prelude.{refl, List, [], ◌∷◌, arith}
use decision.Prelude.Chars.{codes}
use decision.Sheet.{Sheet}
use decision.Object.Loads.{Part, parts_bytes, IsForeign}
use decision.Object.Apart.{parts-IsForeign}
use decision.Object.Parts.{
  main_part, data_part, link_part, ins_part, func_part, var_part, incl_part,
}

-- The sections behind each of them.
abbrev pub after_var : Sheet → List Part
after_var s = incl_part s ∷ []

abbrev pub after_func : Sheet → List Part
after_func s = var_part s ∷ after_var s

abbrev pub after_ins : Sheet → List Part
after_ins s = func_part s ∷ after_func s

abbrev pub after_link : Sheet → List Part
after_link s = ins_part s ∷ after_ins s

abbrev pub after_data : Sheet → List Part
after_data s = link_part s ∷ after_link s

abbrev pub after_main : Sheet → List Part
after_main s = data_part s ∷ after_data s

abbrev pub after_text : Sheet → List Part
after_text s = main_part s ∷ after_main s

pub text-IsForeign : (s : Sheet) → IsForeign (codes ".text") (parts_bytes (after_text s))
text-IsForeign s = parts-IsForeign (codes ".text") (after_text s) (
  λ zs. refl,
  omega arith,
  (
    λ zs. refl,
    omega arith,
    (
      λ zs. refl,
      omega arith,
      (
        λ zs. refl,
        omega arith,
        (λ zs. refl, omega arith, (λ zs. refl, omega arith, (λ zs. refl, omega arith, tt))),
      ),
    ),
  ),
)

pub main-IsForeign : (s : Sheet) → IsForeign (codes ".main") (parts_bytes (after_main s))
main-IsForeign s = parts-IsForeign (codes ".main") (after_main s) (
  λ zs. refl,
  omega arith,
  (
    λ zs. refl,
    omega arith,
    (
      λ zs. refl,
      omega arith,
      (λ zs. refl, omega arith, (λ zs. refl, omega arith, (λ zs. refl, omega arith, tt))),
    ),
  ),
)

pub data-IsForeign : (s : Sheet) → IsForeign (codes ".data") (parts_bytes (after_data s))
data-IsForeign s = parts-IsForeign (codes ".data") (after_data s) (
  λ zs. refl,
  omega arith,
  (
    λ zs. refl,
    omega arith,
    (λ zs. refl, omega arith, (λ zs. refl, omega arith, (λ zs. refl, omega arith, tt))),
  ),
)

pub link-IsForeign : (s : Sheet) → IsForeign (codes ".lmeta") (parts_bytes (after_link s))
link-IsForeign s = parts-IsForeign (codes ".lmeta") (after_link s) (
  λ zs. refl,
  omega arith,
  (λ zs. refl, omega arith, (λ zs. refl, omega arith, (λ zs. refl, omega arith, tt))),
)

pub ins-IsForeign : (s : Sheet) → IsForeign (codes ".link") (parts_bytes (after_ins s))
ins-IsForeign s =
    parts-IsForeign (codes ".link") (after_ins s)
      (λ zs. refl, omega arith, (λ zs. refl, omega arith, (λ zs. refl, omega arith, tt)))

pub func-IsForeign : (s : Sheet) → IsForeign (codes ".func") (parts_bytes (after_func s))
func-IsForeign s =
    parts-IsForeign (codes ".func") (after_func s)
      (λ zs. refl, omega arith, (λ zs. refl, omega arith, tt))

pub var-IsForeign : (s : Sheet) → IsForeign (codes ".var") (parts_bytes (after_var s))
var-IsForeign s = parts-IsForeign (codes ".var") (after_var s) (λ zs. refl, omega arith, tt)
