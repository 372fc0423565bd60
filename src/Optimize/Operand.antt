-- ===== src/Optimize/Operand.antt =====
-- The operand of an instruction in a text: it is read inside of the text, and may be given another
-- value.
use mathlib.Core.List.{append_assoc}
use mathlib.Core.Path.{ap₂}
use decision.Prelude.{
  ℕ, zero, suc, ◌+◌, ◌≤◌, ◌<◌, ◌≡◌, refl, sym, ap, ◌∙◌, List, [], ◌∷◌, ◌++◌, none, some, length,
  take, drop, if_true, le→leb, arith, length-append, take-append_add, drop-append_add,
  drop-append_le, take-append-drop,
}
use decision.Vm.Opcode.{ins_size, byte_of}
use decision.Optimize.{Sections, Width, width_bytes, read_number, number_bytes}
use decision.Optimize.Encode.{Instruction, IsComplete, AllComplete, encode, length-number_bytes}
use decision.Optimize.Remove.{encode-append}
use decision.Optimize.Passes.{immediate_at, with_immediate}
use decision.Optimize.Outcome.{IsEncoded, first-IsComplete}

-- Where the instructions from a place on begin.
pub at_rest :
    (s : Sections) (before : List Instruction) (x : Instruction) (rest : List Instruction)
    → IsEncoded s (before ++ x ∷ rest)
    → s.text ≡ encode before ++ byte_of x.op ∷ (x.operand ++ encode rest)
at_rest s before x rest h = h.text ∙ encode-append before (x ∷ rest)

-- The operand of an instruction is inside of the text.
pub immediate_at_lem :
    (s : Sections) (before : List Instruction) (x : Instruction) (rest : List Instruction) (i : ℕ)
    (w : Width)
    → IsEncoded s (before ++ x ∷ rest)
    → i ≡ length (encode before) + 1
    → width_bytes w < ins_size x.op
    → immediate_at s.text i w ≡ some (read_number (width_bytes w) (drop i s.text))
unfolding immediate_at
immediate_at_lem s before x rest i w h e size = if_true _ none (
    le→leb (i + width_bytes w) (length s.text) (
      omega (
        arith,
        e,
        size,
        ap length (at_rest s before x rest h),
        length-append (encode before) (byte_of x.op ∷ (x.operand ++ encode rest)),
        length-append x.operand (encode rest),
        first-IsComplete before x rest h.complete,
      )))

take_all-length : (n : ℕ) (xs : List ℕ) → n ≤ length xs → length (take n xs) ≡ n
take_all-length zero xs h = refl
take_all-length (suc n) [] h = absurd (omega arith)
take_all-length (suc n) (x ∷ xs) h = ap suc (take_all-length n xs (omega arith))

-- An instruction with another number at the beginning of its operand.
abbrev pub with_number : Width → ℕ → Instruction → Instruction
with_number w v x = record x {
  operand = number_bytes (width_bytes w) v ++ drop (width_bytes w) x.operand;
}

pub length-with_number :
    (w : Width) (v : ℕ) (x : Instruction)
    → width_bytes w ≤ length x.operand
    → length (with_number w v x).operand ≡ length x.operand
length-with_number w v x h = omega (
  arith,
  length-append (number_bytes (width_bytes w) v) (drop (width_bytes w) x.operand),
  length-number_bytes (width_bytes w) v,
  take_all-length (width_bytes w) x.operand h,
  length-append (take (width_bytes w) x.operand) (drop (width_bytes w) x.operand),
  ap length (take-append-drop (width_bytes w) x.operand),
)

with_immediate_lem :
    (text : List ℕ) (before : List Instruction) (x : Instruction) (rest : List Instruction) (i : ℕ)
    (w : Width) (v : ℕ)
    → text ≡ encode (before ++ x ∷ rest)
    → i ≡ length (encode before) + 1
    → width_bytes w ≤ length x.operand
    → with_immediate text i w v ≡ encode (before ++ with_number w v x ∷ rest)
with_immediate_lem text before x rest i w v e at size =
    ap₂ (λ a b. a ++ number ++ b) front back
    ∙ ap (λ a. a ++ (left ++ encode rest)) (append_assoc (encode before) (byte_of x.op ∷ []) number)
    ∙ append_assoc (encode before) (byte_of x.op ∷ number) (left ++ encode rest)
    ∙ ap (λ a. encode before ++ byte_of x.op ∷ a) (sym (append_assoc number left (encode rest)))
    ∙ sym (encode-append before (with_number w v x ∷ rest))
  where
    number : List ℕ
    number = number_bytes (width_bytes w) v

    left : List ℕ
    left = drop (width_bytes w) x.operand

    whole : text ≡ encode before ++ byte_of x.op ∷ (x.operand ++ encode rest)
    whole = e ∙ encode-append before (x ∷ rest)

    front : take i text ≡ encode before ++ byte_of x.op ∷ []
    front =
        ap (take i) whole
        ∙ take-append_add i 1 (encode before) (byte_of x.op ∷ (x.operand ++ encode rest)) at

    back : drop (i + width_bytes w) text ≡ left ++ encode rest
    back =
        ap (drop (i + width_bytes w)) whole
        ∙ drop-append_add (i + width_bytes w) (suc (width_bytes w)) (encode before)
            (byte_of x.op ∷ (x.operand ++ encode rest)) (omega (arith, at))
        ∙ drop-append_le (width_bytes w) x.operand (encode rest) size

with_number-AllComplete :
    (before : List Instruction) (x : Instruction) (rest : List Instruction) (w : Width) (v : ℕ)
    → width_bytes w ≤ length x.operand
    → AllComplete (before ++ x ∷ rest)
    → AllComplete (before ++ with_number w v x ∷ rest)
with_number-AllComplete [] x rest w v e h = (h.0 ∙ ap suc (sym (length-with_number w v x e)), h.1)
with_number-AllComplete (b ∷ before) x rest w v e h =
    (h.0, with_number-AllComplete before x rest w v e h.1)

-- The text with a new operand is one of complete instructions.
pub new_operand-IsEncoded :
    (s : Sections) (before : List Instruction) (x : Instruction) (rest : List Instruction) (i : ℕ)
    (w : Width) (v : ℕ)
    → IsEncoded s (before ++ x ∷ rest)
    → i ≡ length (encode before) + 1
    → width_bytes w < ins_size x.op
    → IsEncoded
        (record s { text = with_immediate s.text i w v })
        (before ++ with_number w v x ∷ rest)
new_operand-IsEncoded s before x rest i w v h at size =
    let full = first-IsComplete before x rest h.complete in
    let fits = inside full in
    record {
      text = with_immediate_lem s.text before x rest i w v h.text at fits;
      complete = with_number-AllComplete before x rest w v fits h.complete;
    }
  where
    inside : IsComplete x → width_bytes w ≤ length x.operand
    inside full = omega (arith, full, size)
