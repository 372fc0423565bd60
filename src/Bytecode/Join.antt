-- ===== src/Bytecode/Join.antt =====
-- Joining pieces of bytecode: `d_concat_bytecode` of src/dasm.c.
use mathlib.Core.Path.{ap₂}
use mathlib.Core.List.{append-nil}
use decision.Prelude.{
  ℕ, zero, suc, ◌+◌, ◌≤◌, ◌<◌, ◌≡◌, refl, sym, ap, ◌∙◌, subst, drop, drop-append_add,
  drop-append_le, List, [], ◌∷◌, ◌++◌, none, length, arith, length-append, ◌⊎◌, pos→==_false,
  if_true, if_false, inl, inr, ◌==◌,
}
use decision.Optimize.{InstructionToLink}
use decision.Bytecode.{BCode, moved_links, d_concat_bytecode, d_bytecode_set_fimmediate}

abbrev pub AllBelow : ℕ → List InstructionToLink → Type 0
AllBelow size [] = Unit {0}
AllBelow size (l ∷ ls) = (l.ins < size) × AllBelow size ls

-- Every link of the piece stands inside its code.
abbrev pub IsLinked : BCode → Type 0
IsLinked b = AllBelow (length b.code) b.link_list

zero_or_more : (n : ℕ) → (n ≡ 0) ⊎ (0 < n)
zero_or_more zero = inl refl
zero_or_more (suc n) = inr (omega arith)

AllBelow-more : (n m : ℕ) (ls : List InstructionToLink) → n ≤ m → AllBelow n ls → AllBelow m ls
AllBelow-more n m [] le h = tt
AllBelow-more n m (l ∷ ls) le h = (omega (arith, h.0), AllBelow-more n m ls le (h.1))

AllBelow-append :
    (n : ℕ) (ls ms : List InstructionToLink) → AllBelow n ls → AllBelow n ms → AllBelow n (ls ++ ms)
AllBelow-append n [] ms h k = k
AllBelow-append n (l ∷ ls) ms h k = (h.0, AllBelow-append n ls ms (h.1) k)

moved_links-AllBelow :
    (n size : ℕ) (ls : List InstructionToLink)
    → AllBelow n ls
    → AllBelow (size + n) (moved_links size ls)
unfolding moved_links
moved_links-AllBelow n size [] h = tt
moved_links-AllBelow n size (l ∷ ls) h = (omega (arith, h.0), moved_links-AllBelow n size ls (h.1))

no_links : (ls : List InstructionToLink) → AllBelow 0 ls → ls ≡ []
no_links [] h = refl
no_links (l ∷ ls) h = absurd (omega (arith, h.0))

no_code : (xs : List ℕ) → length xs ≡ 0 → xs ≡ []
no_code [] e = refl
no_code (x ∷ xs) e = absurd (omega arith)

abbrev joined : BCode → BCode → BCode
joined a b = record {
  code = a.code ++ b.code;
  link_list = a.link_list ++ moved_links (length a.code) b.link_list;
}

concat-empty : (a b : BCode) → length b.code ≡ 0 → d_concat_bytecode a b ≡ a
unfolding d_concat_bytecode
concat-empty a b e = if_true {b = length b.code == 0} _ _ (ground (arith, e))

concat-joined : (a b : BCode) → 0 < length b.code → d_concat_bytecode a b ≡ joined a b
unfolding d_concat_bytecode
concat-joined a b lt = if_false _ _ (pos→==_false (length b.code) lt)

-- Each link of a piece with the code from its instruction on.
abbrev pub linked_code : List ℕ → List InstructionToLink → List (List ℕ × ℕ)
linked_code code [] = []
linked_code code (l ∷ ls) = (drop l.ins code, l.link) ∷ linked_code code ls

-- Code that is put behind each of the instructions.
abbrev pub followed_by : List ℕ → List (List ℕ × ℕ) → List (List ℕ × ℕ)
followed_by more [] = []
followed_by more ((code, link) ∷ xs) = (code ++ more, link) ∷ followed_by more xs

linked_code-append :
    (code : List ℕ) (ls ms : List InstructionToLink)
    → linked_code code (ls ++ ms) ≡ linked_code code ls ++ linked_code code ms
linked_code-append code [] ms = refl
linked_code-append code (l ∷ ls) ms =
    ap (λ xs. (drop l.ins code, l.link) ∷ xs) (linked_code-append code ls ms)

linked_code-first :
    (code more : List ℕ) (ls : List InstructionToLink)
    → AllBelow (length code) ls
    → linked_code (code ++ more) ls ≡ followed_by more (linked_code code ls)
linked_code-first code more [] h = refl
linked_code-first code more (l ∷ ls) h =
    ap₂ (λ c xs. (c, l.link) ∷ xs) (drop-append_le l.ins code more (omega (arith, h.0)))
      (linked_code-first code more ls h.1)

linked_code-moved :
    (code more : List ℕ) (ls : List InstructionToLink)
    → linked_code (code ++ more) (moved_links (length code) ls) ≡ linked_code more ls
unfolding moved_links
linked_code-moved code more [] = refl
linked_code-moved code more (l ∷ ls) =
    ap₂ (λ c xs. (c, l.link) ∷ xs)
      (drop-append_add (l.ins + length code) l.ins code more (omega arith))
      (linked_code-moved code more ls)

followed_by-nothing : (xs : List (List ℕ × ℕ)) → followed_by [] xs ≡ xs
followed_by-nothing [] = refl
followed_by-nothing ((code, link) ∷ xs) =
    ap₂ (λ c ys. (c, link) ∷ ys) (append-nil code) (followed_by-nothing xs)

-- What a joined piece is: its code, and its links with what they stand at.
pub record IsJoined (a b joined : BCode) : Type 0 where
  pub code : joined.code ≡ a.code ++ b.code
  pub links :
      linked_code joined.code joined.link_list
      ≡ followed_by b.code (linked_code a.code a.link_list) ++ linked_code b.code b.link_list
  pub linked : IsLinked joined

-- Two pieces whose links all stand inside their code are joined to such a piece, with one code
-- behind the other. Every link stands at the code that it stood at: those of the first piece with the
-- second one behind it, then those of the second piece.
pub d_concat_bytecode-IsJoined :
    (a b : BCode) → IsLinked a → IsLinked b → IsJoined a b (d_concat_bytecode a b)
d_concat_bytecode-IsJoined a b h k = elim (zero_or_more (length b.code)) [
  | inl e ↦ subst (IsJoined a b) (sym (concat-empty a b e)) (record {
    code = sym (ap (λ xs. a.code ++ xs) (no_code b.code e) ∙ append-nil a.code);
    links = sym (
        ap₂ (λ c ls. followed_by c (linked_code a.code a.link_list) ++ linked_code b.code ls)
          (no_code b.code e) (no_links b.link_list (subst (λ n. AllBelow n b.link_list) e k))
        ∙ append-nil (followed_by [] (linked_code a.code a.link_list))
        ∙ followed_by-nothing (linked_code a.code a.link_list));
    linked = h;
  })
  | inr lt ↦
      let n = length (a.code ++ b.code) in
      subst (IsJoined a b) (sym (concat-joined a b lt)) (record {
        code = refl;
        links =
            linked_code-append (a.code ++ b.code) a.link_list
              (moved_links (length a.code) b.link_list)
            ∙ ap₂ (λ x y. x ++ y) (linked_code-first a.code b.code a.link_list h)
                (linked_code-moved a.code b.code b.link_list);
        linked =
            AllBelow-append n a.link_list (moved_links (length a.code) b.link_list)
              (AllBelow-more (length a.code) n a.link_list
                (omega (arith, length-append a.code b.code)) h)
              (AllBelow-more (length a.code + length b.code) n
                (moved_links (length a.code) b.link_list)
                (omega (arith, length-append a.code b.code))
                (moved_links-AllBelow (length b.code) (length a.code) b.link_list k));
      })
]

-- In a piece of less than seven bytes, at any index below 2^63, `d_bytecode_set_fimmediate` does not
-- find that there is no room for the immediate, and stores it outside the piece.
pub set_fimmediate-outside :
    (b : BCode) (index fimmediate : ℕ)
    → length b.code < 7
    → index < 0x8000_0000_0000_0000
    → d_bytecode_set_fimmediate b index fimmediate ≡ none
unfolding d_bytecode_set_fimmediate
set_fimmediate-outside b index fimmediate lt i = ground arith
