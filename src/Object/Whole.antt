-- ===== src/Object/Whole.antt =====
-- The whole object that `d_obj_generate` of src/dobj.c writes: its header and its sections.
use Prim.Native.String.{String}
use mathlib.Core.List.{append_assoc, append-nil}
use decision.Prelude.{
  ℕ, ◌<◌, ◌≡◌, refl, sym, ap, ◌∙◌, List, [], ◌∷◌, ◌++◌, none, some, length, ltb, if_true, if_false,
  if◌then◌else◌, inl, inr, Bool-cases, bind-some,
}
use decision.Prelude.Chars.{codes}
use decision.Optimize.{number_bytes}
use decision.Sheet.{Section, bytes, null_section, Sheet}
use decision.Object.Writer.{ObjectWriter, write_string_n, write_byte, write_uinteger}
use decision.Object.Generate.{
  Version, section_size, section_bytes, write_tag, write_bytes, write_main, write_header,
  metas_section, links_section, functions_section, variables_section, includes_section,
  d_obj_generate,
}
use decision.Object.Loads.{Part, part_bytes, parts_bytes}
use decision.Object.Parts.{
  content, IsStoredSection, text_part, main_part, data_part, link_part, ins_part, func_part,
  var_part, incl_part, parts, header_bytes, IsStored,
}
use decision.Object.Written.{
  write_byte_lem, write_metas_lem, write_links_lem, write_functions_lem, write_variables_lem,
  write_includes_lem,
}

-- A section that is written only when its number is not 0.
section_lem :
    {A : Type 0} (f : ObjectWriter → A) (w : ObjectWriter) (p : Part) (o : A)
    → o ≡ f (w ++ p.tag ++ number_bytes 8 p.size ++ p.body)
    → (if ltb 0 p.size then o else f w) ≡ f (w ++ part_bytes p)
section_lem {A = A} f w p o e =
    elim (Bool-cases (ltb 0 p.size))
      as (λ c. (if ltb 0 p.size then o else f w) ≡ f (w ++ part_bytes p)) [
        | inl t ↦
            if_true o (f w) t
            ∙ e
            ∙ ap f (
                append_assoc (w ++ p.tag) (number_bytes 8 p.size) p.body
                ∙ append_assoc w p.tag (number_bytes 8 p.size ++ p.body))
            ∙ ap (λ xs. f (w ++ xs)) (sym (if_true full [] t))
        | inr t ↦
            if_false o (f w) t
            ∙ ap f (sym (append-nil w))
            ∙ ap (λ xs. f (w ++ xs)) (sym (if_false full [] t))
      ]
  where
    full : List ℕ
    full = p.tag ++ (number_bytes 8 p.size ++ p.body)

bytes_lem :
    (w : ObjectWriter) (tag : String) (section : Section)
    → IsStoredSection section
    → write_bytes w tag section
      ≡ w
        ++ part_bytes
            (record { tag = codes tag; size = section_size section; body = content section })
unfolding write_bytes write_tag write_string_n write_uinteger section_size section_bytes
bytes_lem w tag (bytes xs) h =
    section_lem (λ x. x) w (record { tag = codes tag; size = length xs; body = xs })
      (w ++ codes tag ++ number_bytes 8 (length xs) ++ xs) refl
bytes_lem w tag (null_section n) h = absurd (cc h.0)

write_header_lem :
    (v : Version) → v.major < 256 → v.minor < 256 → v.patch < 256 → write_header v ≡ header_bytes v
unfolding write_header write_string_n
write_header_lem v major minor patch =
    write_byte_lem (write_byte (write_byte (codes "D64") v.major) v.minor) v.patch patch
    ∙ ap (λ w. w ++ v.patch ∷ [])
        (write_byte_lem (write_byte (codes "D64") v.major) v.minor minor
          ∙ ap (λ w. w ++ v.minor ∷ []) (write_byte_lem (codes "D64") v.major major))

main_lem :
    (w : ObjectWriter) (sheet : Sheet) → write_main w sheet.main ≡ w ++ part_bytes (main_part sheet)
unfolding write_main write_tag write_string_n write_uinteger
main_lem w sheet =
    section_lem (λ x. x) w (main_part sheet) (write_tag w ".main" sheet.main)
      (sym (append-nil (write_tag w ".main" sheet.main)))

metas_lem :
    (w : ObjectWriter) (sheet : Sheet)
    → IsStored sheet
    → metas_section w sheet ≡ some (w ++ part_bytes (link_part sheet))
unfolding metas_section write_tag write_string_n write_uinteger
metas_lem w sheet h =
    section_lem some w (link_part sheet) _
      (write_metas_lem (write_tag w ".lmeta" (length sheet.link)) sheet.address sheet.link h.link)

links_lem :
    (w : ObjectWriter) (sheet : Sheet) → links_section w sheet ≡ w ++ part_bytes (ins_part sheet)
unfolding links_section write_tag write_string_n write_uinteger
links_lem w sheet =
    section_lem (λ x. x) w (ins_part sheet) _
      (write_links_lem (write_tag w ".link" (length sheet.ins_link_list)) sheet.ins_link_list)

functions_lem :
    (w : ObjectWriter) (sheet : Sheet)
    → IsStored sheet
    → functions_section w sheet ≡ some (w ++ part_bytes (func_part sheet))
unfolding functions_section write_tag write_string_n write_uinteger
functions_lem w sheet h = section_lem some w (func_part sheet) _ (
    write_functions_lem (write_tag w ".func" (length sheet.functions)) sheet.link sheet.functions
      h.functions)

variables_lem :
    (w : ObjectWriter) (sheet : Sheet)
    → IsStored sheet
    → variables_section w sheet ≡ some (w ++ part_bytes (var_part sheet))
unfolding variables_section write_tag write_string_n write_uinteger
variables_lem w sheet h = section_lem some w (var_part sheet) _ (
    write_variables_lem (write_tag w ".var" (length sheet.variables)) sheet sheet.variables
      h.variables)

includes_lem :
    (w : ObjectWriter) (sheet : Sheet)
    → includes_section w sheet ≡ w ++ part_bytes (incl_part sheet)
unfolding includes_section write_tag write_string_n write_uinteger
includes_lem w sheet =
    section_lem (λ x. x) w (incl_part sheet) _
      (write_includes_lem (write_tag w ".incl" (length sheet.includes)) sheet.includes)

-- The first sections, which cannot fail.
start_lem :
    (v : Version) (sheet : Sheet)
    → v.major < 256
    → v.minor < 256
    → v.patch < 256
    → IsStored sheet
    → write_bytes
        (write_main (write_bytes (write_header v) ".text" sheet.text) sheet.main)
        ".data"
        sheet.data_
      ≡ header_bytes v
        ++ part_bytes (text_part sheet)
        ++ part_bytes (main_part sheet)
        ++ part_bytes (data_part sheet)
start_lem v sheet major minor patch h =
    bytes_lem (write_main (write_bytes (write_header v) ".text" sheet.text) sheet.main) ".data"
      sheet.data_ h.data_
    ∙ ap (λ w. w ++ part_bytes (data_part sheet))
        (main_lem (write_bytes (write_header v) ".text" sheet.text) sheet
          ∙ ap (λ w. w ++ part_bytes (main_part sheet))
              (bytes_lem (write_header v) ".text" sheet.text h.text
                ∙ ap (λ w. w ++ part_bytes (text_part sheet))
                    (write_header_lem v major minor patch)))

-- Sections that were appended one after the other.
appended : List ℕ → List Part → List ℕ
appended w [] = w
appended w (p ∷ ps) = appended (w ++ part_bytes p) ps

appended_lem : (w : List ℕ) (ps : List Part) → appended w ps ≡ w ++ parts_bytes ps
unfolding appended
appended_lem w [] = sym (append-nil w)
appended_lem w (p ∷ ps) =
    appended_lem (w ++ part_bytes p) ps ∙ append_assoc w (part_bytes p) (parts_bytes ps)

-- The whole object: the header and the sections, each in its place.
pub d_obj_generate_lem :
    (v : Version) (sheet : Sheet)
    → v.major < 256
    → v.minor < 256
    → v.patch < 256
    → IsStored sheet
    → d_obj_generate v sheet ≡ some (some (header_bytes v ++ parts_bytes (parts sheet)))
unfolding d_obj_generate appended
d_obj_generate_lem v sheet major minor patch h =
    if_false (some none) _ (ap (λ c. ltb 0 (length c)) h.no_c_functions)
    ∙ bind-some _ _ metas (
        bind-some _ _ functions (
          bind-some _ _ (variables_lem _ sheet h) (ap (λ x. some (some x)) (includes_lem _ sheet))))
    ∙ ap (λ x. some (some x)) (appended_lem (header_bytes v) (parts sheet))
  where
    start : ObjectWriter
    start =
        write_bytes (write_main (write_bytes (write_header v) ".text" sheet.text) sheet.main)
          ".data" sheet.data_

    linked : ObjectWriter
    linked =
        header_bytes v
        ++ part_bytes (text_part sheet)
        ++ part_bytes (main_part sheet)
        ++ part_bytes (data_part sheet)
        ++ part_bytes (link_part sheet)

    metas : metas_section start sheet ≡ some linked
    metas =
        metas_lem start sheet h
        ∙ ap (λ w. some (w ++ part_bytes (link_part sheet))) (start_lem v sheet major minor patch h)

    functions :
        functions_section (links_section linked sheet) sheet
        ≡ some (linked ++ part_bytes (ins_part sheet) ++ part_bytes (func_part sheet))
    functions =
        functions_lem (links_section linked sheet) sheet h
        ∙ ap (λ w. some (w ++ part_bytes (func_part sheet))) (links_lem linked sheet)
