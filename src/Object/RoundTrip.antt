-- ===== src/Object/RoundTrip.antt =====
-- What `d_obj_generate` of src/dobj.c writes of a sheet, `d_obj_load` reads back.
use mathlib.Core.Option
use mathlib.Core.Option.{some_inj}
use mathlib.Core.List.{append-nil}
use decision.Prelude.{
  ℕ, ◌+◌, ◌<◌, ◌≡◌, refl, sym, ap, ◌∙◌, subst, false, List, [], ◌∷◌, ◌++◌, some, length, word_mod,
  get_elem?, zero, suc,
}
use decision.Graph.{Text}
use decision.Prelude.Chars.{codes}
use decision.Sheet.{Sheet, LinkMeta}
use decision.Sheet.Build.{d_sheet_create}
use decision.Object.Reader.{ObjectReader, ◌>>=◌}
use decision.Object.Generate.{Version, d_obj_generate}
use decision.Object.Whole.{d_obj_generate_lem}
use decision.Object.Load.{
  load_object, d_obj_load, add_includes, Compiler, Loaded, load_body, load_incl, finish,
}
use decision.Object.Reads.{reader_of, reader_of-IsAhead}
use decision.Object.Texts.{byte-Reads, tag-Reads}
use decision.Object.Loads.{part_bytes, parts_bytes, Reads-Loads}
use decision.Object.Parts.{
  meta_again, metas_again, functions_again, variables_again, incl_part, parts, header_bytes,
  functions_again, IsStored,
}
use decision.Object.Resolve.{AllKnown}
use decision.Object.Sections.{text-Loads, main-Loads, data-Loads, lmeta-Loads, link-Loads}
use decision.Object.Foreign.{
  after_text, after_main, after_data, after_link, after_ins, after_func, after_var, text-IsForeign,
  main-IsForeign, data-IsForeign, link-IsForeign, ins-IsForeign, func-IsForeign, var-IsForeign,
}
use decision.Object.Definers.{func-Loads, var-Loads}
use decision.Object.Reloaded.{is_empty, IsReloaded, Finishes, bind-Finishes}
use decision.Object.Ending.{IsReady, incl-Finishes}

metas_again-get_elem? :
    (address : ℕ) (list : List LinkMeta) (k : ℕ) (m : LinkMeta)
    → get_elem? list k ≡ some m
    → get_elem? (metas_again address list) k ≡ some (meta_again address m)
metas_again-get_elem? address [] k m e = absurd (cc e)
metas_again-get_elem? address (x ∷ xs) zero m e =
    ap (λ y. some (meta_again address y)) (some_inj.0 e)
metas_again-get_elem? address (x ∷ xs) (suc k) m e = metas_again-get_elem? address xs k m e

-- The sections after the header, and the end.
body-Finishes :
    (compiler : Compiler) (v : Version) (s sheet : Sheet)
    → IsStored s
    → AllKnown compiler s.link
    → sheet.functions ≡ []
    → sheet.variables ≡ []
    → sheet.link ≡ []
    → sheet.includes ≡ []
    → sheet.has_errors ≡ false
    → Finishes compiler
        (load_body compiler [] [] sheet)
        (v.major ∷ v.minor ∷ v.patch ∷ parts_bytes (parts s))
        (is_empty s.includes)
        s
unfolding load_body
body-Finishes compiler v s sheet h known no_fs no_vs no_links no_includes no_errors =
    let sheet4 : Sheet = record sheet {
      text = s.text;
      main = s.main;
      data_ = s.data_;
      link = metas_again s.address s.link;
    } in
    let sheet5 : Sheet = record sheet4 { ins_link_list = s.ins_link_list } in
    let (link6, same6, targets6, func) =
      func-Loads s sheet5 (parts_bytes (after_func s)) h no_fs refl (func-IsForeign s) in
    let sheet6 : Sheet = record sheet5 {
      functions = functions_again sheet.address s.functions;
      link = link6;
    } in
    let (link7, same7, targets7, var) =
      var-Loads s sheet6 (parts_bytes (after_var s)) h no_vs refl same6 (var-IsForeign s) in
    let sheet7 : Sheet = record sheet6 {
      variables = variables_again sheet.address s.variables;
      link = link7;
    } in
    let ready : IsReady s sheet7 = record {
      text = refl;
      main = refl;
      data_ = refl;
      link = same7 ∙ same6;
      targets = λ k m at.
          targets7 k _
            (targets6 k (meta_again s.address m) (metas_again-get_elem? s.address s.link k m at));
      ins_link_list = refl;
      functions = refl;
      variables = refl;
      includes = no_includes;
      has_errors = no_errors;
    } in
    bind-Finishes _ (Reads-Loads (byte-Reads v.major)) (
      bind-Finishes _ (Reads-Loads (byte-Reads v.minor)) (
        bind-Finishes _ (Reads-Loads (byte-Reads v.patch)) (
          bind-Finishes _
            (text-Loads s sheet (parts_bytes (after_text s)) h.text (text-IsForeign s))
            (bind-Finishes _ (main-Loads s _ (parts_bytes (after_main s)) h.main (main-IsForeign s))
              (bind-Finishes _
                (data-Loads s _ (parts_bytes (after_data s)) h.data_ (data-IsForeign s))
                (bind-Finishes _
                  (lmeta-Loads s _ (parts_bytes (after_link s)) h no_links (link-IsForeign s))
                  (bind-Finishes _
                    (link-Loads s sheet4 (parts_bytes (after_ins s)) h (ins-IsForeign s))
                    (bind-Finishes _ func (
                      bind-Finishes _ var (
                        subst
                          (λ bs.
                            Finishes compiler
                              (do state ← load_incl compiler [] [] sheet7; finish compiler state) bs
                              (is_empty s.includes) s)
                          (sym (append-nil (part_bytes (incl_part s))))
                          (incl-Finishes compiler s sheet7 s.includes refl h known ready)))))))))))

header-Finishes :
    (compiler : Compiler) (v : Version) (s : Sheet) (address : ℕ) (path : Text)
    → IsStored s
    → AllKnown compiler s.link
    → Finishes compiler
        (load_object compiler address path [] [])
        (header_bytes v ++ parts_bytes (parts s))
        (is_empty s.includes)
        s
unfolding load_object d_sheet_create add_includes
header-Finishes compiler v s address path h known =
    bind-Finishes _ (Reads-Loads (tag-Reads (codes "D"))) (
      bind-Finishes _ (Reads-Loads (tag-Reads (codes "64")))
        (body-Finishes compiler v s _ h known refl refl refl refl refl))

-- A sheet that was written and is read again, with no initial includes and no priors, comes back:
-- its text, its data, its links (the pointers to other sheets as -1), its functions and variables
-- (a NULL text as an empty one) and the paths of its includes. A link points to the last function or
-- variable that it is the link of, in the loaded sheet; the link of a C function to what the compiler
-- knows by its name; any other link to -1 if its pointer is -1, and else its metadata is not set. The
-- numbers of the sheet fit a word, its texts have no null bytes, its functions and
-- variables have links, the data section has the default values of the variables, and the
-- compiler knows the C functions. The sheet that comes back has its error flag set exactly when
-- it includes nothing.
pub d_obj_load-d_obj_generate :
    (compiler : Compiler) (v : Version) (s : Sheet) (address : ℕ) (path : Text) (obj : List ℕ)
    → v.major < 256
    → v.minor < 256
    → v.patch < 256
    → IsStored s
    → AllKnown compiler s.link
    → d_obj_generate v s ≡ some (some obj)
    → length obj + 8 < word_mod
    → (loaded : Loaded) × (d_obj_load compiler address obj path [] [] ≡ some loaded)
      × IsReloaded compiler s loaded.sheet
unfolding d_obj_load d_sheet_create add_includes
d_obj_load-d_obj_generate compiler v s address path obj major minor patch h known written fits =
    let content : obj ≡ header_bytes v ++ parts_bytes (parts s) =
      some_inj.0 (some_inj.0 (sym written ∙ d_obj_generate_lem v s major minor patch h)) in
    let (loaded, r', e, done) =
      (header-Finishes compiler v s address path h known).finishes (reader_of obj)
        (reader_of-IsAhead obj (header_bytes v ++ parts_bytes (parts s)) content fits)
        (λ no. cc no) in
    (loaded, ap (λ o. Option.map (λ (result : Loaded × ObjectReader). result.0) o) e, done)
