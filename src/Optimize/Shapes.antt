-- ===== src/Optimize/Shapes.antt =====
-- Removing bytes in src/doptimize.c keeps the opcodes of the instructions that stay, and the links
-- stay in their list.
use mathlib.Core.Path.{ap₂}
use decision.Prelude.{
  ℕ, suc, ◌+◌, ◌≤◌, ◌<◌, ◌≡◌, refl, sym, ap, ◌∙◌, subst, Bool, true, false, List, [], ◌∷◌, ◌++◌,
  Option, none, some, length, take, drop, arith, length-append, if◌then◌else◌,
}
use decision.Vm.Opcode.{DIns, ins_size}
use decision.Optimize.{
  Sections, InstructionToLink, LinkMeta, fix_metas, is_removed, shifted, relative,
  d_optimize_remove_bytecode,
}
use decision.Optimize.Links.{kept_links}
use decision.Optimize.Encode.{Instruction, AllComplete, encode, all_fixed, length-fixed_operand}
use decision.Optimize.Remove.{encode-append, append-AllComplete, removed_lem, taken_out}
use decision.Optimize.Passes.{removed, removal}
use decision.Optimize.Outcome.{AllInside, HasLinks, IsEncoded, Outcome, removes}

abbrev pub ops : List Instruction → List DIns
ops [] = []
ops (i ∷ is) = i.op ∷ ops is

abbrev pub total : List DIns → ℕ
total [] = 0
total (op ∷ os) = ins_size op + total os

pub length-encode : (is : List Instruction) → AllComplete is → length (encode is) ≡ total (ops is)
length-encode [] h = refl
length-encode (i ∷ is) h =
    omega (arith, length-append i.operand (encode is), length-encode is h.1, h.0)

-- The lengths of two lists of instructions with the same opcodes.
pub same_length :
    (is js : List Instruction)
    → AllComplete is
    → AllComplete js
    → ops js ≡ ops is
    → length (encode js) ≡ length (encode is)
same_length is js h k e = length-encode js k ∙ ap total e ∙ sym (length-encode is h)

all_fixed-AllComplete :
    (start len pos : ℕ) (is : List Instruction)
    → AllComplete is
    → AllComplete (all_fixed start len pos is)
all_fixed-AllComplete start len pos [] h = tt
all_fixed-AllComplete start len pos (i ∷ []) h = h
all_fixed-AllComplete start len pos (i ∷ j ∷ is) h = (
  h.0 ∙ ap suc (sym (length-fixed_operand start len pos i.op i.operand h.0 (relative i.op) refl)),
  all_fixed-AllComplete start len (pos + ins_size i.op) (j ∷ is) h.1,
)

ops-all_fixed :
    (start len pos : ℕ) (is : List Instruction) → ops (all_fixed start len pos is) ≡ ops is
ops-all_fixed start len pos [] = refl
ops-all_fixed start len pos (i ∷ []) = refl
ops-all_fixed start len pos (i ∷ j ∷ is) =
    ap (λ os. i.op ∷ os) (ops-all_fixed start len (pos + ins_size i.op) (j ∷ is))

-- Instructions with the opcodes of two lists, in two parts.
split :
    (is js ks : List Instruction)
    → ops ks ≡ ops (is ++ js)
    → (is' : List Instruction) × (js' : List Instruction) × (ks ≡ is' ++ js')
      × (ops is' ≡ ops is)
      × (ops js' ≡ ops js)
split [] js ks e = ([], ks, refl, refl, e)
split (i ∷ is) js [] e = absurd (cc e)
split (i ∷ is) js (k ∷ ks) e =
    let (is', js', whole, first, second) = split is js ks (ap tail e) in
    (k ∷ is', js', ap (λ xs. k ∷ xs) whole, ap₂ (λ a b. a ∷ b) (ap (head i.op) e) first, second)
  where
    head : DIns → List DIns → DIns
    head d [] = d
    head d (x ∷ xs) = x

    tail : List DIns → List DIns
    tail [] = []
    tail (x ∷ xs) = xs

append_left-AllComplete : (is js : List Instruction) → AllComplete (is ++ js) → AllComplete is
append_left-AllComplete [] js h = tt
append_left-AllComplete (i ∷ is) js h = (h.0, append_left-AllComplete is js h.1)

append_right-AllComplete : (is js : List Instruction) → AllComplete (is ++ js) → AllComplete js
append_right-AllComplete [] js h = h
append_right-AllComplete (i ∷ is) js h = append_right-AllComplete is js h.1

kept_links-AllInside :
    (n start len : ℕ) (ls : List InstructionToLink)
    → AllInside n ls
    → AllInside n (kept_links start len ls)
kept_links-AllInside n start len [] h = tt
kept_links-AllInside n start len (l ∷ ls) h =
    chosen (is_removed start len l.ins) (kept_links-AllInside n start len ls h.1)
  where
    chosen :
        (b : Bool)
        → AllInside n (kept_links start len ls)
        → AllInside n (
            if b
            then kept_links start len ls
            else record l { ins = shifted start len l.ins } ∷ kept_links start len ls)
    chosen true k = k
    chosen false k = (h.0, k)

length-fix_metas :
    (start len : ℕ) (ms : List LinkMeta) → length (fix_metas start len ms) ≡ length ms
unfolding fix_metas
length-fix_metas start len [] = refl
length-fix_metas start len (m ∷ ms) = ap suc (length-fix_metas start len ms)

-- A sheet after bytes were removed: the instructions before and behind the place, with the same
-- opcodes.
pub record IsShortened (s : Sections) (before rest : List Instruction) (o : Option Sections)
    : Type 0 where
  pub result : Sections
  pub before' : List Instruction
  pub rest' : List Instruction
  pub gives : o ≡ some result
  pub encoded : IsEncoded result (before' ++ rest')
  pub same_before : length (encode before') ≡ length (encode before)
  pub same_rest : length (encode rest') ≡ length (encode rest)
  pub same_ops : ops rest' ≡ ops rest
  pub links : HasLinks s → HasLinks result

pub removed-IsShortened :
    (s : Sections) (start len : ℕ) (before rest : List Instruction)
    → take start s.text ++ drop (start + len) s.text ≡ encode (before ++ rest)
    → 0 < len
    → start + len ≤ length s.text
    → AllComplete (before ++ rest)
    → IsShortened s before rest (d_optimize_remove_bytecode s start len)
removed-IsShortened s start len before rest moved pos inside full =
    let fixed_full = all_fixed-AllComplete start len 0 (before ++ rest) full in
    let (before', rest', whole, first, second) =
      split before rest (all_fixed start len 0 (before ++ rest))
        (ops-all_fixed start len 0 (before ++ rest)) in
    let full' = subst AllComplete whole fixed_full in
    record {
      result = _;
      before' = before';
      rest' = rest';
      gives = removed_lem s start len (before ++ rest) moved pos inside full;
      encoded = record { text = ap encode whole; complete = full' };
      same_before =
          same_length before before' (append_left-AllComplete before rest full)
            (append_left-AllComplete before' rest' full') first;
      same_rest =
          same_length rest rest' (append_right-AllComplete before rest full)
            (append_right-AllComplete before' rest' full') second;
      same_ops = second;
      links = λ h.
          subst (λ n. AllInside n (kept_links start len s.ins_link_list))
            (sym (length-fix_metas start len s.link))
            (kept_links-AllInside (length s.link) start len s.ins_link_list h);
    }

-- Whole instructions that are removed from a place on.
pub removal-Outcome :
    (s s1 : Sections) (before : List Instruction) (x : Instruction)
    (rest gone left : List Instruction) (len : ℕ)
    → IsEncoded s1 (before ++ (gone ++ left))
    → len ≡ length (encode gone)
    → 0 < len
    → length (encode left) < length (encode (x ∷ rest))
    → (HasLinks s → HasLinks s1)
    → Outcome s before x rest (removal s1 (length (encode before)) len)
unfolding removal
removal-Outcome s s1 before x rest gone left len h e pos less links =
    let short =
      removed-IsShortened s1 (length (encode before)) len before left moved pos inside left_full in
    subst (Outcome s before x rest)
      (sym (ap (λ o. elim o [ none ↦ none | some s' ↦ some (removed s') ]) short.gives))
      (removes short.result short.before' short.rest' short.encoded short.same_before
        (omega (arith, short.same_rest, less)) (λ l. short.links (links l)))
  where
    parts : s1.text ≡ encode before ++ (encode gone ++ encode left)
    parts =
        h.text
        ∙ encode-append before (gone ++ left)
        ∙ ap (λ xs. encode before ++ xs) (encode-append gone left)

    moved :
        take (length (encode before)) s1.text ++ drop (length (encode before) + len) s1.text
        ≡ encode (before ++ left)
    moved =
        ap (λ n. take (length (encode before)) s1.text ++ drop (length (encode before) + n) s1.text)
          e
        ∙ taken_out s1.text before gone left parts

    inside : length (encode before) + len ≤ length s1.text
    inside = omega (
      arith,
      e,
      ap length parts,
      length-append (encode before) (encode gone ++ encode left),
      length-append (encode gone) (encode left),
    )

    left_full : AllComplete (before ++ left)
    left_full =
        append-AllComplete before left (append_left-AllComplete before (gone ++ left) h.complete) (
          append_right-AllComplete gone left
            (append_right-AllComplete before (gone ++ left) h.complete))
