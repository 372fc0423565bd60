-- ===== src/Object/Bodies.antt =====
-- The bodies of the sections that `d_obj_load` of src/dobj.c reads: links, functions, variables.
use mathlib.Core.List.{append_assoc, append-nil}
use mathlib.Core.Path.{ap₂}
use decision.Prelude.{
  ℕ, suc, ◌<◌, ◌≤◌, ◌≡◌, refl, sym, ap, ◌∙◌, subst, false, List, [], ◌∷◌, ◌++◌, Option, none, some,
  length, lt-get_elem?, ◌==◌, arith, word_mod, if_true, le→leb, minus_one, if◌then◌else◌,
}
use decision.Graph.{SocketMeta, NodeDefinition}
use decision.Optimize.{number_bytes}
use decision.Sheet.{
  unknown_metadata, unset_metadata, LinkMeta, link_function, InstructionToLink, SheetFunction,
  Sheet,
}
use decision.Sheet.Build.{d_link_meta_list_push, d_sheet_add_function, function_of}
use decision.Object.Reader.{Read, ◌>>=◌, pure, read_uinteger}
use decision.Object.Load.Sections.{
  lift, read_meta, read_metas, read_links, load_function, load_functions,
}
use decision.Object.Lookup.{link_again}
use decision.Object.Reads.{Reads, bind-Reads, pure-Reads}
use decision.Object.Texts.{byte-Reads, uinteger-Reads}
use decision.Object.Definitions.{
  text_again, map-Reads, text-Reads, enumeration_of-lt, definition_again, definition_bytes,
  definition-Reads, sockets_again,
}
use decision.Object.Parts.{
  ptr_again, meta_again, metas_again, meta_bytes, metas_bytes, IsStoredMeta, AllStoredMetas, bares,
  links_bytes, AllStoredLinks, function_index, functions_bytes, IsStoredFunction,
  AllStoredFunctions, function_again, functions_again,
}

meta-Reads :
    (address : ℕ) (m : LinkMeta)
    → IsStoredMeta address m
    → Reads read_meta (meta_bytes address m) (meta_again address m)
unfolding read_meta
meta-Reads address m h = bind-Reads _ (byte-Reads m.type) (
    bind-Reads _ (text-Reads m.name h.name) (
      subst
        (λ t.
          Reads
            (do
              ptr ← read_uinteger
              pure (record {
                name = text_again m.name;
                metadata = if ptr == minus_one then unknown_metadata else unset_metadata;
                ptr = ptr;
                type = t;
              }))
            (number_bytes 8 (ptr_again address m)) (meta_again address m))
        (sym (enumeration_of-lt m.type h.type))
        (map-Reads
          (λ ptr. record {
            name = text_again m.name;
            metadata = if ptr == minus_one then unknown_metadata else unset_metadata;
            ptr = ptr;
            type = m.type;
          })
          (uinteger-Reads (ptr_again address m) h.ptr_fits))))

pub metas-Reads :
    (address : ℕ) (ms list : List LinkMeta)
    → AllStoredMetas address ms
    → Reads (read_metas (length ms) list) (metas_bytes address ms) (list ++ metas_again address ms)
unfolding read_metas d_link_meta_list_push
metas-Reads address [] list h =
    subst (λ xs. Reads (pure list) [] xs) (sym (append-nil list)) (pure-Reads list)
metas-Reads address (m ∷ ms) list h = bind-Reads _ (meta-Reads address m h.0) (
    subst
      (Reads (read_metas (length ms) (list ++ meta_again address m ∷ [])) (metas_bytes address ms))
      (append_assoc list (meta_again address m ∷ []) (metas_again address ms))
      (metas-Reads address ms (list ++ meta_again address m ∷ []) h.1))

pub links-Reads :
    (ls : List InstructionToLink)
    → AllStoredLinks ls
    → Reads (read_links (length ls)) (links_bytes ls) ls
unfolding read_links
links-Reads [] h = pure-Reads []
links-Reads (l ∷ ls) h =
    bind-Reads _ (uinteger-Reads l.ins h.0)
      (bind-Reads _ (uinteger-Reads l.link h.1) (map-Reads (λ rest. l ∷ rest) (links-Reads ls h.2)))

pub lift-Reads :
    {A B : Type 0} {o : Option A} {a : A} (f : A → Read B) {bs : List ℕ} {b : B}
    → o ≡ some a
    → Reads (f a) bs b
    → Reads (lift o >>= f) bs b
lift-Reads f {bs = bs} {b = b} e h = subst (λ o. Reads (lift o >>= f) bs b) (sym e) h

-- An action, and what is done with its result without reading on.
pub then-Reads :
    {A B : Type 0} {m : Read A} (f : A → Read B) {bs : List ℕ} {a : A} {b : B}
    → Reads m bs a
    → Reads (f a) [] b
    → Reads (m >>= f) bs b
then-Reads {m = m} f {bs = bs} {b = b} hm hf =
    subst (λ cs. Reads (m >>= f) cs b) (append-nil bs) (bind-Reads f hm hf)

length-sockets_again : (ms : List SocketMeta) → length (sockets_again ms) ≡ length ms
length-sockets_again [] = refl
length-sockets_again (m ∷ ms) = ap suc (length-sockets_again ms)

add_function_lem :
    (sheet : Sheet) (d : NodeDefinition)
    → d.start_output_index ≤ length d.sockets
    → d_sheet_add_function sheet d
      ≡ some (record sheet { functions = sheet.functions ++ function_of sheet.address d ∷ [] })
unfolding d_sheet_add_function
add_function_lem sheet d h = if_true _ none (le→leb d.start_output_index (length d.sockets) h)

function-Reads :
    (address : ℕ) (list : List LinkMeta) (sheet : Sheet) (f : SheetFunction)
    → length list < word_mod
    → bares sheet.link ≡ bares (metas_again address list)
    → IsStoredFunction list f
    → Reads
        (load_function sheet)
        (number_bytes 8 (function_index list f) ++ definition_bytes false f.function_definition)
        (
          record sheet { functions = sheet.functions ++ function_again sheet.address f ∷ [] },
          function_index list f,
        )
unfolding load_function
function-Reads address list sheet f fits same h =
    let (m, m', n, found, at, kept, named, text) =
      link_again address list sheet.link f.function_definition.name link_function same h.linked in
    bind-Reads _
      (uinteger-Reads (function_index list f) (omega (arith, fits, lt-get_elem? list _ m found)))
      (lift-Reads _ at (
        then-Reads _ (definition-Reads false f.function_definition h.definition) (
          lift-Reads _
            (add_function_lem sheet
                (record (definition_again false f.function_definition) { name = m'.name })
                (omega (arith, h.inputs, length-sockets_again f.function_definition.sockets))
              ∙ ap
                  (λ name. some (record sheet {
                    functions =
                        sheet.functions
                        ++ function_of sheet.address
                            (record (definition_again false f.function_definition) { name = name })
                          ∷ [];
                  }))
                  named)
            (pure-Reads _))))

abbrev pub function_indexes : List LinkMeta → List SheetFunction → List ℕ
function_indexes list [] = []
function_indexes list (f ∷ fs) = function_index list f ∷ function_indexes list fs

pub functions-Reads :
    (address : ℕ) (list : List LinkMeta) (sheet : Sheet) (fs : List SheetFunction)
    (indexes : List ℕ)
    → length list < word_mod
    → bares sheet.link ≡ bares (metas_again address list)
    → AllStoredFunctions list fs
    → Reads (load_functions (length fs) sheet indexes) (functions_bytes list fs) (
      record sheet { functions = sheet.functions ++ functions_again sheet.address fs },
      indexes ++ function_indexes list fs,
    )
unfolding load_functions
functions-Reads address list sheet [] indexes fits same h =
    subst (λ x. Reads (pure (sheet, indexes)) [] x)
      (ap₂ (λ a b. (record sheet { functions = a }, b)) (sym (append-nil sheet.functions))
        (sym (append-nil indexes)))
      (pure-Reads (sheet, indexes))
functions-Reads address list sheet (f ∷ fs) indexes fits same h =
    bind-Reads _ (function-Reads address list sheet f fits same h.0) (
      subst
        (Reads
          (load_functions (length fs)
            (record sheet { functions = sheet.functions ++ function_again sheet.address f ∷ [] })
            (indexes ++ function_index list f ∷ []))
          (functions_bytes list fs))
        (ap₂ (λ a b. (record sheet { functions = a }, b))
          (append_assoc sheet.functions (function_again sheet.address f ∷ [])
            (functions_again sheet.address fs))
          (append_assoc indexes (function_index list f ∷ []) (function_indexes list fs)))
        (functions-Reads address list
          (record sheet { functions = sheet.functions ++ function_again sheet.address f ∷ [] }) fs
          (indexes ++ function_index list f ∷ []) fits same h.1))
