-- ===== src/Object/Ending.antt =====
-- The last section of an object, and what `d_obj_load` of src/dobj.c does after it.
use mathlib.Core.List.{append-nil}
use decision.Prelude.{
  ◌<◌, ◌≡◌, refl, sym, ap, ◌∙◌, subst, Bool, true, false, ◌||◌, List, [], ◌∷◌, ◌++◌, none, some,
  length, arith, if_true, lt→ltb, ℕ, get_elem?,
}
use decision.Graph.{Text}
use decision.Prelude.Chars.{codes}
use decision.Optimize.{number_bytes}
use decision.Sheet.{LinkMeta, Included, Sheet}
use decision.Object.Reader.{ObjectReader, ◌>>=◌}
use decision.Object.Load.{Compiler, Loaded, load_incl, finish}
use decision.Object.Reads.{IsAhead, moved, >>=-eq}
use decision.Object.Loads.{part_bytes}
use decision.Object.Parts.{
  bares, metas_again, functions_again, variables_again, incl_part, includes_bytes, IsStored,
}
use decision.Object.Resolve.{
  AllKnown, AllKnown-bares, AllKnown-metas_again, AllResolved, AllResolved-get_elem?,
  load_cfunctions_lem,
}
use decision.Object.Includes.{incl-Reads, load_incl_end}
use decision.Object.Reloaded.{
  include_paths, written_paths, is_empty, link_again, IsReloaded, paths_loaded_lem, Finishes,
}

-- A sheet with all but its includes.
pub record IsReady (s : Sheet) (sheet : Sheet) : Type 0 where
  pub text : sheet.text ≡ s.text
  pub main : sheet.main ≡ s.main
  pub data_ : sheet.data_ ≡ s.data_
  pub link : bares sheet.link ≡ bares (metas_again s.address s.link)
  pub targets :
      (k : ℕ) (m : LinkMeta)
      → get_elem? s.link k ≡ some m
      → get_elem? sheet.link k ≡ some (link_again sheet.address s k m)
  pub ins_link_list : sheet.ins_link_list ≡ s.ins_link_list
  pub functions : sheet.functions ≡ functions_again sheet.address s.functions
  pub variables : sheet.variables ≡ variables_again sheet.address s.variables
  pub includes : sheet.includes ≡ []
  pub has_errors : sheet.has_errors ≡ false

finish_lem :
    (compiler : Compiler) (state : Loaded) (r : ObjectReader)
    → AllKnown compiler state.sheet.link
    → (link : List LinkMeta) × (bares link ≡ bares state.sheet.link)
      × AllResolved compiler state.sheet state.sheet.link link
      × (finish compiler state r
          ≡ some (
            record state {
              sheet = record (state.sheet) {
                link = link;
                has_errors = state.sheet.has_errors || r.error;
              };
            },
            r,
          ))
unfolding finish
finish_lem compiler state r known =
    let (link, e, same, resolved) =
      load_cfunctions_lem compiler state.sheet [] state.sheet.link state.sheet.has_errors known in
    (
      link,
      same,
      resolved,
      ap
          (λ o. elim o [
            | none ↦ none
            | some (link, errors) ↦ some (
              record state {
                sheet = record (state.sheet) { link = link; has_errors = errors || r.error };
              },
              r,
            )
          ])
          e,
    )

-- The last section and what follows it.
end_lem :
    (compiler : Compiler) (s sheet : Sheet) (added : List Included) (reported : List Text)
    (r : ObjectReader) (b : Bool)
    → AllKnown compiler s.link
    → IsReady s sheet
    → include_paths added ≡ written_paths s.includes
    → r.error ≡ b
    → b ≡ is_empty s.includes
    → (loaded : Loaded) × (r' : ObjectReader) × (finish compiler
          (record { sheet = record sheet { includes = added }; reported = reported })
          r
        ≡ some (loaded, r'))
      × IsReloaded compiler s loaded.sheet
end_lem compiler s sheet added reported r b known ready paths flag empty =
    let state : Loaded = record {
      sheet = record sheet { includes = added };
      reported = reported;
    } in
    let (link, same, resolved, e) = finish_lem compiler state r (
      AllKnown-bares compiler sheet.link (
        subst (AllKnown compiler) (sym ready.link)
          (AllKnown-metas_again compiler s.address s.link known))) in
    (
      _,
      r,
      e,
      record {
        text = ready.text;
        main = ready.main;
        data_ = ready.data_;
        link = same ∙ ready.link;
        targets = λ k m at.
            AllResolved-get_elem? compiler state.sheet sheet.link link k
              (link_again sheet.address s k m) resolved (ready.targets k m at);
        ins_link_list = ready.ins_link_list;
        functions = ready.functions;
        variables = ready.variables;
        includes = paths;
        has_errors = ap (λ x. x || r.error) ready.has_errors ∙ flag ∙ empty;
      },
    )

not_true : (x : Bool) → (x ≡ true → false ≡ true) → x ≡ false
not_true true h = sym (h refl)
not_true false h = refl

pub incl-Finishes :
    (compiler : Compiler) (s sheet : Sheet) (is : List Included)
    → s.includes ≡ is
    → IsStored s
    → AllKnown compiler s.link
    → IsReady s sheet
    → Finishes compiler
        (do state ← load_incl compiler [] [] sheet; finish compiler state)
        (part_bytes (incl_part s))
        (is_empty is)
        s
incl-Finishes compiler s sheet [] e h known ready = record {
  nonempty = λ no. absurd (cc no);
  finishes = λ r x before.
      let x' : IsAhead r [] =
        subst (IsAhead r) (ap (λ l. part_bytes (record (incl_part s) { size = length l })) e) x in
      let (loaded, r', p, done) =
        end_lem compiler s sheet [] [] (record r { error = true }) true known ready
          (sym (ap written_paths e)) refl (sym (ap is_empty e)) in
      (
        loaded,
        r',
        >>=-eq (load_incl compiler [] [] sheet) _ r (load_incl_end compiler sheet r x') ∙ p,
        done,
      );
}
incl-Finishes compiler s sheet (i ∷ is) e h known ready = record {
  nonempty = λ no empty. cc (
      sym (
        if_true (codes ".incl" ++ (number_bytes 8 (length s.includes) ++ includes_bytes s.includes))
          [] (lt→ltb 0 (length s.includes) (omega (arith, ap length e))))
      ∙ empty);
  finishes = λ r x before.
      let full : 0 < length s.includes = omega (arith, ap length e) in
      let (added, reported, q, paths) =
        paths_loaded_lem compiler s.includes (record { sheet = sheet; reported = [] }) in
      let r1 : ObjectReader = moved r (length (part_bytes (incl_part s))) in
      let (loaded, r', p, done) =
        end_lem compiler s sheet added reported r1 false known ready
          (paths ∙ ap (λ l. include_paths l ++ written_paths s.includes) ready.includes)
          (not_true r.error before) (sym (ap is_empty e)) in
      (
        loaded,
        r',
        >>=-eq (load_incl compiler [] [] sheet) _ r (
              (incl-Reads compiler s sheet h full).reads r []
                (subst (IsAhead r) (sym (append-nil _)) x))
            ∙ ap (λ st. finish compiler st r1) q
            ∙ p,
        done,
      );
}
