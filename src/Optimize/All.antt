-- ===== src/Optimize/All.antt =====
-- `d_optimize_all` of src/doptimize.c, for a sheet that calls none of its own functions.
use decision.Prelude.{
  ℕ, zero, suc, ◌+◌, ◌≤◌, ◌<◌, ◌≡◌, refl, ap, ◌∙◌, Bool, true, false, ◌&&◌, List, [], ◌∷◌, Option,
  none, some, length, get_elem?, if_false, le→ltb_false, arith, bind-some,
}
use decision.Optimize.{
  Sections, InstructionToLink, LinkMeta, is_function, d_optimize_remove_ins_to_link,
}
use decision.Optimize.Encode.{Instruction}
use decision.Optimize.Passes.{simplify_change, d_optimize_simplify}
use decision.Optimize.Shrink.{
  call_relative, own_calls, d_optimize_call_func_relative, shrink_change,
  d_optimize_shrink_fimmediate, d_optimize_all,
}
use decision.Optimize.Outcome.{AllInside, HasLinks, IsEncoded}
use decision.Optimize.Loop.{run_pass_lem}
use decision.Optimize.Replace.{simplify_change-IsSound}
use decision.Optimize.Narrow.{shrink_change-IsSound}
use decision.Optimize.Repeat.{IsPass, repeat_loop_lem}

pub d_optimize_simplify-IsPass : IsPass d_optimize_simplify
unfolding d_optimize_simplify
d_optimize_simplify-IsPass = run_pass_lem false simplify_change simplify_change-IsSound

pub d_optimize_shrink_fimmediate-IsPass : IsPass d_optimize_shrink_fimmediate
unfolding d_optimize_shrink_fimmediate
d_optimize_shrink_fimmediate-IsPass = run_pass_lem false shrink_change shrink_change-IsSound

-- The link that an instruction in the list names is there.
meta_at :
    (ms : List LinkMeta) (ls : List InstructionToLink) (i : ℕ)
    → AllInside (length ms) ls
    → i < length ls
    → (l : InstructionToLink) × (m : LinkMeta) × (get_elem? ls i ≡ some l)
      × (get_elem? ms l.link ≡ some m)
meta_at ms [] i h inside = absurd (omega arith)
meta_at ms (l ∷ ls) zero h inside = let (m, e) = elem_at ms l.link h.0 in (l, m, refl, e)
  where
    elem_at :
        (xs : List LinkMeta) (n : ℕ) → n < length xs → (m : LinkMeta) × (get_elem? xs n ≡ some m)
    elem_at [] n h = absurd (omega arith)
    elem_at (x ∷ xs) zero h = (x, refl)
    elem_at (x ∷ xs) (suc n) h = elem_at xs n (omega arith)
meta_at ms (l ∷ ls) (suc i) h inside = meta_at ms ls i h.1 (omega arith)

none_own :
    (is_own : ℕ → Bool) (s : Sections) (fuel i : ℕ) (optimized : Bool)
    → ((k : ℕ) → is_own k ≡ false)
    → HasLinks s
    → i + fuel ≡ length s.ins_link_list
    → own_calls is_own fuel s i optimized ≡ some (s, optimized)
unfolding own_calls
none_own is_own s zero i optimized no_own h e =
    if_false {A = Option (Sections × Bool)} none (some (s, optimized))
      (le→ltb_false i (length s.ins_link_list) (omega (arith, e)))
none_own is_own s (suc fuel) i optimized no_own h e =
    let (l, m, at_l, at_m) = meta_at s.link s.ins_link_list i h (omega (arith, e)) in
    ap at_link at_l
    ∙ ap (at_meta l) at_m
    ∙ ap (chosen l m)
        (ap (λ b. is_function m.type && b) (no_own l.link) ∙ never (is_function m.type))
    ∙ none_own is_own s fuel (suc i) optimized no_own h (omega (arith, e))
  where
    chosen : InstructionToLink → LinkMeta → Bool → Option (Sections × Bool)
    chosen l m b = elim b [
      | false ↦ own_calls is_own fuel s (suc i) optimized
      | true ↦ elim (call_relative s l m) [
        | none ↦ none
        | some s' ↦
            own_calls is_own fuel
              (record s' { ins_link_list = d_optimize_remove_ins_to_link s.ins_link_list i }) i true
      ]
    ]

    at_meta : InstructionToLink → Option LinkMeta → Option (Sections × Bool)
    at_meta l o = elim o [ none ↦ none | some m ↦ chosen l m (is_function m.type && is_own l.link) ]

    at_link : Option InstructionToLink → Option (Sections × Bool)
    at_link o = elim o [ none ↦ some (s, optimized) | some l ↦ at_meta l (get_elem? s.link l.link) ]

    never : (b : Bool) → (b && false) ≡ false
    never true = refl
    never false = refl

-- What the optimiser leaves of a sheet.
pub record IsAllOptimized (s : Sections) (o : Option Sections) : Type 0 where
  pub result : Sections
  pub instructions : List Instruction
  pub ends : o ≡ some result
  pub encoded : IsEncoded result instructions
  pub no_longer : length result.text ≤ length s.text
  pub links : HasLinks result

-- On a text of complete instructions whose links are in the list of links, of a sheet that calls
-- none of its own functions, `d_optimize_all` ends: with a text of complete instructions that is no
-- longer than before, and with its links in the list of links.
pub d_optimize_all_lem :
    (is_own : ℕ → Bool) (s : Sections) (is : List Instruction)
    → ((k : ℕ) → is_own k ≡ false)
    → IsEncoded s is
    → HasLinks s
    → IsAllOptimized s (d_optimize_all is_own s)
unfolding d_optimize_all d_optimize_call_func_relative
d_optimize_all_lem is_own s is no_own h l =
    let a = repeat_loop_lem s is h in
    let b = d_optimize_simplify-IsPass a.result a.instructions a.encoded in
    let c = d_optimize_shrink_fimmediate-IsPass b.result b.instructions b.encoded in
    record {
      result = c.result;
      instructions = c.instructions;
      ends = bind-some _ _ a.ends (
          bind-some _ _
            (none_own is_own a.result (length a.result.ins_link_list) 0 false no_own (a.links l)
              (omega arith))
            (bind-some _ _ b.ends (bind-some _ _ c.ends refl)));
      encoded = c.encoded;
      no_longer = omega (arith, a.no_longer, b.no_longer, c.no_longer);
      links = c.links (b.links (a.links l));
    }
