-- ===== src/Optimize/Links.antt =====
-- The list of links after a removal: src/doptimize.c, `d_optimize_remove_bytecode`.
use mathlib.Core.List.{append_assoc}
use decision.Prelude.{
  ℕ, zero, suc, ◌≤◌, ◌≡◌, refl, inl, inr, sym, ap, ◌∙◌, true, false, List, [], ◌∷◌, ◌++◌, none,
  some, length, get_elem?, take, drop, arith, Bool-cases, length-append, get_elem?-append,
  take-append, drop-append_add, lt→ltb, if_true, if_false, if◌then◌else◌,
}
use decision.Optimize.{
  InstructionToLink, d_optimize_remove_ins_to_link, fix_links, shifted, is_removed,
}

-- The links of the instructions that are kept, each at its new index, in their order.
abbrev pub kept_links : ℕ → ℕ → List InstructionToLink → List InstructionToLink
kept_links start len [] = []
kept_links start len (l ∷ ls) =
    if is_removed start len l.ins
    then kept_links start len ls
    else record l { ins = shifted start len l.ins } ∷ kept_links start len ls

remove_ins_to_link-append :
    (done : List InstructionToLink) (l : InstructionToLink) (ls : List InstructionToLink)
    → d_optimize_remove_ins_to_link (done ++ l ∷ ls) (length done) ≡ done ++ ls
unfolding d_optimize_remove_ins_to_link
remove_ins_to_link-append done l ls =
    if_true _ _
      (lt→ltb (length done) (length (done ++ l ∷ ls)) (omega (arith, length-append done (l ∷ ls))))
    ∙ ap (λ xs. xs ++ drop (suc (length done)) (done ++ l ∷ ls))
        (take-append (length done) done (l ∷ ls) refl)
    ∙ ap (λ xs. done ++ xs) (drop-append_add (suc (length done)) 1 done (l ∷ ls) (omega arith))

replace-append :
    (done : List InstructionToLink) (l m : InstructionToLink) (ls : List InstructionToLink)
    → take (length done) (done ++ l ∷ ls) ++ m ∷ drop (suc (length done)) (done ++ l ∷ ls)
      ≡ done ++ m ∷ [] ++ ls
replace-append done l m ls =
    ap (λ xs. xs ++ m ∷ drop (suc (length done)) (done ++ l ∷ ls))
      (take-append (length done) done (l ∷ ls) refl)
    ∙ ap (λ xs. done ++ m ∷ xs) (drop-append_add (suc (length done)) 1 done (l ∷ ls) (omega arith))
    ∙ sym (append_assoc done (m ∷ []) ls)

get_elem?-end : (xs : List InstructionToLink) → get_elem? (xs ++ []) (length xs) ≡ none
get_elem?-end [] = refl
get_elem?-end (x ∷ xs) = get_elem?-end xs

fix_links-end :
    (fuel start len : ℕ) (done : List InstructionToLink)
    → fix_links fuel start len (done ++ []) (length done) ≡ some (done ++ [])
unfolding fix_links
fix_links-end zero start len done = ground (arith, length-append done [])
fix_links-end (suc fuel) start len done = ground (arith, get_elem?-end done)

fix_links-removed :
    (fuel start len : ℕ) (done : List InstructionToLink) (l : InstructionToLink)
    (ls : List InstructionToLink)
    → is_removed start len l.ins ≡ true
    → fix_links (suc fuel) start len (done ++ l ∷ ls) (length done)
      ≡ fix_links fuel start len (done ++ ls) (length done)
unfolding fix_links
fix_links-removed fuel start len done l ls t =
    ground (arith, get_elem?-append (length done) done l ls refl, t)
    ∙ ap (λ xs. fix_links fuel start len xs (length done)) (remove_ins_to_link-append done l ls)

fix_links-kept :
    (fuel start len : ℕ) (done : List InstructionToLink) (l : InstructionToLink)
    (ls : List InstructionToLink)
    → is_removed start len l.ins ≡ false
    → fix_links (suc fuel) start len (done ++ l ∷ ls) (length done)
      ≡ fix_links fuel start len
          (done ++ record l { ins = shifted start len l.ins } ∷ [] ++ ls)
          (suc (length done))
unfolding fix_links
fix_links-kept fuel start len done l ls f =
    let m = record l { ins = shifted start len l.ins } in
    ground (arith, get_elem?-append (length done) done l ls refl, f)
    ∙ ap (λ xs. fix_links fuel start len xs (suc (length done))) (replace-append done l m ls)

fix_links-append :
    (fuel start len : ℕ) (done rest : List InstructionToLink)
    → length rest ≤ fuel
    → fix_links fuel start len (done ++ rest) (length done)
      ≡ some (done ++ kept_links start len rest)
unfolding fix_links
fix_links-append zero start len done [] le = fix_links-end zero start len done
fix_links-append (suc fuel) start len done [] le = fix_links-end (suc fuel) start len done
fix_links-append zero start len done (l ∷ ls) le = absurd (omega arith)
fix_links-append (suc fuel) start len done (l ∷ ls) le =
    elim (Bool-cases (is_removed start len l.ins)) [
      | inl t ↦
          fix_links-removed fuel start len done l ls t
          ∙ fix_links-append fuel start len done ls (omega arith)
          ∙ ap (λ xs. some (done ++ xs)) (sym (if_true _ _ t))
      | inr f ↦
          let m = record l { ins = shifted start len l.ins } in
          fix_links-kept fuel start len done l ls f
          ∙ ap (λ i. fix_links fuel start len (done ++ m ∷ [] ++ ls) i)
              {y = length (done ++ m ∷ [])} (omega (arith, length-append done (m ∷ [])))
          ∙ fix_links-append fuel start len (done ++ m ∷ []) ls (omega arith)
          ∙ ap some (append_assoc done (m ∷ []) (kept_links start len ls))
          ∙ ap (λ xs. some (done ++ xs)) (sym (if_false _ _ f))
    ]

-- The loop over the list of links takes out those of the removed instructions, and moves those of
-- the instructions behind them by the length of the removed part; it always ends.
pub fix_links_lem :
    (start len : ℕ) (list : List InstructionToLink)
    → fix_links (length list) start len list 0 ≡ some (kept_links start len list)
fix_links_lem start len list = fix_links-append (length list) start len [] list (omega arith)
