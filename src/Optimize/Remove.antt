-- ===== src/Optimize/Remove.antt =====
-- The whole of `d_optimize_remove_bytecode` in src/doptimize.c, on a text given as its instructions.
use mathlib.Core.Path.{ap₂}
use mathlib.Core.List.{append_assoc}
use decision.Prelude.{
  ℕ, ◌+◌, ◌<◌, ◌≤◌, ◌≡◌, refl, sym, ap, ◌∙◌, List, [], ◌∷◌, ◌++◌, some, length, take, drop, arith,
  length-append, take-append, drop-append, drop-append_add, bind-some, if_false, pos→==_false,
  le→ltb_false, Bool, true, false, ◌&&◌, not, if◌then◌else◌, ◌==◌, ==_iff, Option, minus_one,
}
use decision.Vm.Opcode.{byte_of}
use decision.Optimize.{
  Sections, LinkType, link_function, LinkMeta, is_function, fix_meta, fix_jumps, fix_index,
  fix_metas, d_optimize_remove_bytecode,
}
use decision.Optimize.Links.{kept_links, fix_links_lem}
use decision.Optimize.Encode.{Instruction, AllComplete, encode, all_fixed}
use decision.Optimize.Text.{fix_jumps_lem}

pub encode-append : (is js : List Instruction) → encode (is ++ js) ≡ encode is ++ encode js
encode-append [] js = refl
encode-append (i ∷ is) js =
    ap (λ xs. byte_of i.op ∷ (i.operand ++ xs)) (encode-append is js)
    ∙ ap (λ xs. byte_of i.op ∷ xs) (sym (append_assoc i.operand (encode is) (encode js)))

pub append-AllComplete :
    (is js : List Instruction) → AllComplete is → AllComplete js → AllComplete (is ++ js)
append-AllComplete [] js h k = k
append-AllComplete (i ∷ is) js h k = (h.0, append-AllComplete is js (h.1) k)

-- Bytes are taken out so that complete instructions are left.
pub removed_lem :
    (s : Sections) (start len : ℕ) (js : List Instruction)
    → take start s.text ++ drop (start + len) s.text ≡ encode js
    → 0 < len
    → start + len ≤ length s.text
    → AllComplete js
    → d_optimize_remove_bytecode s start len
      ≡ some (record {
        text = encode (all_fixed start len 0 js);
        ins_link_list = kept_links start len s.ins_link_list;
        link = fix_metas start len s.link;
        main = fix_index start len s.main;
      })
unfolding d_optimize_remove_bytecode
removed_lem s start len js moved pos inside full =
    if_false _ _ (pos→==_false len pos)
    ∙ if_false _ _ (le→ltb_false (length s.text) (start + len) inside)
    ∙ bind-some _ _
        (ap (λ t. fix_jumps (length t) start len t 0) moved ∙ fix_jumps_lem start len js full)
        (bind-some _ _ (fix_links_lem start len s.ins_link_list) refl)

-- What is left of a text when instructions in its middle are taken out.
pub taken_out :
    (text : List ℕ) (before gone after : List Instruction)
    → text ≡ encode before ++ (encode gone ++ encode after)
    → take (length (encode before)) text
        ++ drop (length (encode before) + length (encode gone)) text
      ≡ encode (before ++ after)
taken_out text before gone after e =
    ap (λ t. take start t ++ drop (start + length (encode gone)) t) e
    ∙ ap₂ (λ xs ys. xs ++ ys) (take-append start (encode before) rest refl)
        (drop-append_add (start + length (encode gone)) (length (encode gone)) (encode before) rest
            refl
          ∙ drop-append (length (encode gone)) (encode gone) (encode after) refl)
    ∙ sym (encode-append before after)
  where
    start : ℕ
    start = length (encode before)

    rest : List ℕ
    rest = encode gone ++ encode after

-- The place `j` of what stood at `i`: before the removed part it stays, behind it moves to the front
-- by the length of the part, and inside of the part it becomes the start of what is left behind it.
pub record IsMoved (start len i j : ℕ) : Type 0 where
  pub before : i < start → j ≡ i
  pub inside : start ≤ i → i < start + len → j ≡ start
  pub behind : start + len ≤ i → j + len ≡ i

fix_index-IsMoved : (start len i : ℕ) → IsMoved start len i (fix_index start len i)
unfolding fix_index
fix_index-IsMoved start len i = record {
  before = λ h. ground (arith, h);
  inside = λ h k. ground (arith, h, k);
  behind = λ h. ground (arith, h);
}

-- A link afterwards: the place of a function that has one is moved, all else stays.
pub record IsMovedMeta (start len : ℕ) (m m' : LinkMeta) : Type 0 where
  pub type : m'.type ≡ m.type
  pub moved : m.type ≡ link_function → ¬ (m.ptr ≡ minus_one) → IsMoved start len m.ptr m'.ptr
  pub nowhere : m.ptr ≡ minus_one → m'.ptr ≡ m.ptr
  pub others : ¬ (m.type ≡ link_function) → m'.ptr ≡ m.ptr

abbrev pub AllMoved : ℕ → ℕ → List LinkMeta → List LinkMeta → Type 0
AllMoved start len [] [] = Unit {0}
AllMoved start len [] (m' ∷ ms') = ⊥
AllMoved start len (m ∷ ms) [] = ⊥
AllMoved start len (m ∷ ms) (m' ∷ ms') = IsMovedMeta start len m m' × AllMoved start len ms ms'

function_type : (t : LinkType) → is_function t ≡ true → t ≡ link_function
unfolding is_function
function_type link_function e = refl
function_type _ e = cc

fix_meta-IsMovedMeta :
    (start len : ℕ) (m : LinkMeta) → IsMovedMeta start len m (fix_meta start len m)
unfolding fix_meta is_function
fix_meta-IsMovedMeta start len m = cases (is_function m.type) (m.ptr == minus_one) refl refl
  where
    cases :
        (b c : Bool)
        → is_function m.type ≡ b
        → (m.ptr == minus_one) ≡ c
        → IsMovedMeta start len m
            (if b && not c then record m { ptr = fix_index start len m.ptr } else m)
    cases true true e f = record {
      type = refl;
      moved = λ t n. absurd (n ((==_iff m.ptr minus_one).0 f));
      nowhere = λ n. refl;
      others = λ t. refl;
    }
    cases true false e f = record {
      type = refl;
      moved = λ t n. fix_index-IsMoved start len m.ptr;
      nowhere = λ n. absurd (cc (sym ((==_iff m.ptr minus_one).1 n) ∙ f));
      others = λ t. absurd (t (function_type m.type e));
    }
    cases false c e f = record {
      type = refl;
      moved = λ t n. absurd (cc (sym (ap is_function t) ∙ e));
      nowhere = λ n. refl;
      others = λ t. refl;
    }

fix_metas-AllMoved :
    (start len : ℕ) (ms : List LinkMeta) → AllMoved start len ms (fix_metas start len ms)
unfolding fix_metas
fix_metas-AllMoved start len [] = tt
fix_metas-AllMoved start len (m ∷ ms) =
    (fix_meta-IsMovedMeta start len m, fix_metas-AllMoved start len ms)

-- A sheet after `gone` was taken out between `before` and `after`.
pub record IsTakenOut (s : Sections) (before gone after : List Instruction) (o : Option Sections)
    : Type 0 where
  pub result : Sections
  pub returns : o ≡ some result
  pub text :
      result.text
      ≡ encode (all_fixed (length (encode before)) (length (encode gone)) 0 (before ++ after))
  pub links :
      result.ins_link_list
      ≡ kept_links (length (encode before)) (length (encode gone)) s.ins_link_list
  pub metas : AllMoved (length (encode before)) (length (encode gone)) s.link result.link
  pub main : IsMoved (length (encode before)) (length (encode gone)) s.main result.main

-- Whole instructions are taken out of a text of complete instructions. The rest stands together,
-- with the amounts of its relative jumps and calls fixed, but that of the last instruction. The links
-- of the removed instructions are gone and the others moved. The place of each function that has one,
-- and of the main code, stays where it is before the removed part, is as many bytes to the front
-- behind it, and becomes the start of what follows if it was inside.
pub d_optimize_remove_bytecode_lem :
    (s : Sections) (before gone after : List Instruction)
    → s.text ≡ encode before ++ (encode gone ++ encode after)
    → 0 < length (encode gone)
    → AllComplete before
    → AllComplete after
    → IsTakenOut s before gone after
        (d_optimize_remove_bytecode s (length (encode before)) (length (encode gone)))
d_optimize_remove_bytecode_lem s before gone after e pos full_before full_after = record {
  result = _;
  returns = removed;
  text = refl;
  links = refl;
  metas = fix_metas-AllMoved start len s.link;
  main = fix_index-IsMoved start len s.main;
}
  where
    start : ℕ
    start = length (encode before)

    len : ℕ
    len = length (encode gone)

    removed :
        d_optimize_remove_bytecode s start len
        ≡ some (record {
          text = encode (all_fixed start len 0 (before ++ after));
          ins_link_list = kept_links start len s.ins_link_list;
          link = fix_metas start len s.link;
          main = fix_index start len s.main;
        })
    removed =
        removed_lem s start len (before ++ after) (taken_out s.text before gone after e) pos
          (omega (
            arith,
            ap length e,
            length-append (encode before) (encode gone ++ encode after),
            length-append (encode gone) (encode after),
          ))
          (append-AllComplete before after full_before full_after)
