-- ===== src/Optimize/Repeat.antt =====
-- The part of `d_optimize_all` of src/doptimize.c that is repeated: it ends, in a sheet that none of
-- its passes changes.
use decision.Prelude.{
  ℕ, zero, suc, ◌≤◌, ◌<◌, ◌≡◌, inl, inr, refl, sym, ap, ◌∙◌, subst, Bool, true, false, ◌||◌, List,
  Option, none, some, length, arith, Bool-cases, bind-some,
}
use decision.Optimize.{Sections}
use decision.Optimize.Encode.{Instruction}
use decision.Optimize.Passes.{
  not_change, push_pop_change, useless_change, d_optimize_not_consecutive,
  d_optimize_push_pop_consecutive, d_optimize_useless,
}
use decision.Optimize.Shrink.{repeat_round, repeat_loop}
use decision.Optimize.Outcome.{HasLinks, IsEncoded, IsOptimized}
use decision.Optimize.Loop.{run_pass_lem}
use decision.Optimize.Sound.{not_change-IsSound, useless_change-IsSound}
use decision.Optimize.PushPop.{push_pop_change-IsSound}

-- A text of complete instructions is taken to such a text, which is shorter if the pass tells of a
-- change, and the same sheet if not.
abbrev pub IsPass : (Sections → Option (Sections × Bool)) → Type 0
IsPass pass = (s : Sections) (is : List Instruction) → IsEncoded s is → IsOptimized s false (pass s)

-- `d_optimize_not_consecutive` ends on every text of complete instructions, and is such a pass.
pub d_optimize_not_consecutive-IsPass : IsPass d_optimize_not_consecutive
unfolding d_optimize_not_consecutive
d_optimize_not_consecutive-IsPass = run_pass_lem true not_change not_change-IsSound

pub d_optimize_push_pop_consecutive-IsPass : IsPass d_optimize_push_pop_consecutive
unfolding d_optimize_push_pop_consecutive
d_optimize_push_pop_consecutive-IsPass = run_pass_lem true push_pop_change push_pop_change-IsSound

pub d_optimize_useless-IsPass : IsPass d_optimize_useless
unfolding d_optimize_useless
d_optimize_useless-IsPass = run_pass_lem false useless_change useless_change-IsSound

any_true :
    {P : Type 0} (a b c : Bool)
    → (a ≡ true → P)
    → (b ≡ true → P)
    → (c ≡ true → P)
    → (a || (b || c)) ≡ true
    → P
any_true true b c f g h e = f refl
any_true false true c f g h e = g refl
any_true false false true f g h e = h refl
any_true false false false f g h e = absurd (cc e)

all_false : (a b c : Bool) → (a || (b || c)) ≡ false → (a ≡ false) × ((b ≡ false) × (c ≡ false))
all_false true b c e = absurd (cc e)
all_false false true c e = absurd (cc e)
all_false false false true e = absurd (cc e)
all_false false false false e = (refl, (refl, refl))

less :
    (s : Sections) (o : Option (Sections × Bool)) (h : IsOptimized s false o)
    → h.flag ≡ true
    → length h.result.text < length s.text
less s o h e = elim (h.shorter e) [ inl f ↦ absurd (cc f) | inr l ↦ l ]

-- A round of the three passes is such a pass.
pub repeat_round-IsPass : IsPass repeat_round
unfolding repeat_round
repeat_round-IsPass s is h =
    let a = d_optimize_not_consecutive-IsPass s is h in
    let b = d_optimize_push_pop_consecutive-IsPass a.result a.instructions a.encoded in
    let c = d_optimize_useless-IsPass b.result b.instructions b.encoded in
    record {
      result = c.result;
      flag = a.flag || (b.flag || c.flag);
      instructions = c.instructions;
      ends = bind-some _ _ a.ends (bind-some _ _ b.ends (bind-some _ _ c.ends refl));
      encoded = c.encoded;
      no_longer = omega (arith, a.no_longer, b.no_longer, c.no_longer);
      shorter = λ e. inr (
          any_true a.flag b.flag c.flag (λ f. omega (arith, less s _ a f, b.no_longer, c.no_longer))
            (λ f. omega (arith, less a.result _ b f, a.no_longer, c.no_longer))
            (λ f. omega (arith, less b.result _ c f, a.no_longer, b.no_longer)) e);
      unchanged = λ e.
          let f = all_false a.flag b.flag c.flag e in
          (refl, (c.unchanged f.1.1).1 ∙ (b.unchanged f.1.0).1 ∙ (a.unchanged f.0).1);
      links = λ l. c.links (b.links (a.links l));
    }

-- The loop ended in a text of complete instructions, no longer than before, of a sheet that a round
-- leaves as it is.
pub record IsRepeated (s : Sections) (o : Option Sections) : Type 0 where
  pub result : Sections
  pub instructions : List Instruction
  pub ends : o ≡ some result
  pub encoded : IsEncoded result instructions
  pub no_longer : length result.text ≤ length s.text
  pub final : repeat_round result ≡ some (result, false)
  pub links : HasLinks s → HasLinks result

after_round : ℕ → Option (Sections × Bool) → Option Sections
after_round fuel o = elim o [
  | none ↦ none
  | some (s', again) ↦ elim again [ true ↦ repeat_loop fuel s' | false ↦ some s' ]
]

repeat_loop-fuel :
    (fuel : ℕ) (s : Sections) (is : List Instruction)
    → IsEncoded s is
    → length s.text < fuel
    → IsRepeated s (repeat_loop fuel s)
unfolding repeat_loop after_round
repeat_loop-fuel zero s is h enough = absurd (omega arith)
repeat_loop-fuel (suc fuel) s is h enough =
    let r = repeat_round-IsPass s is h in
    subst (IsRepeated s) (sym (ap (after_round fuel) r.ends)) (elim (Bool-cases r.flag) [
      | inl t ↦
          subst (λ b. IsRepeated s (after_round fuel (some (r.result, b)))) (sym t)
            (shortened r.result
              (repeat_loop-fuel fuel r.result r.instructions r.encoded
                (omega (arith, enough, less s _ r t)))
              r.no_longer r.links)
      | inr f ↦
          subst (λ b. IsRepeated s (after_round fuel (some (r.result, b)))) (sym f)
            (record {
              result = r.result;
              instructions = r.instructions;
              ends = refl;
              encoded = r.encoded;
              no_longer = r.no_longer;
              final = ap repeat_round (r.unchanged f).1 ∙ r.ends ∙ ap (λ b. some (r.result, b)) f;
              links = r.links;
            })
    ])
  where
    shortened :
        (s' : Sections)
        → IsRepeated s' (repeat_loop fuel s')
        → length s'.text ≤ length s.text
        → (HasLinks s → HasLinks s')
        → IsRepeated s (repeat_loop fuel s')
    shortened s' q shorter links = record {
      result = q.result;
      instructions = q.instructions;
      ends = q.ends;
      encoded = q.encoded;
      no_longer = omega (arith, q.no_longer, shorter);
      final = q.final;
      links = λ l. q.links (links l);
    }

-- On a text of complete instructions, the loop of `d_optimize_all` that repeats three passes ends,
-- with a text of complete instructions that is no longer than before, and in a sheet in which another
-- round finds nothing to change.
pub repeat_loop_lem :
    (s : Sections) (is : List Instruction)
    → IsEncoded s is
    → IsRepeated s (repeat_loop (suc (length s.text)) s)
repeat_loop_lem s is h = repeat_loop-fuel (suc (length s.text)) s is h (omega arith)
