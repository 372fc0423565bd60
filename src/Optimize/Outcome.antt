-- ===== src/Optimize/Outcome.antt =====
-- What a pass of src/doptimize.c may do at an instruction between others, and what it leaves of the
-- whole text.
use decision.Prelude.{
  ℕ, ◌+◌, ◌≤◌, ◌<◌, ◌≡◌, ◌⊎◌, ap, Bool, true, false, List, [], ◌∷◌, ◌++◌, Option, some, length,
  arith, length-append,
}
use decision.Vm.Opcode.{DIns, ins_size}
use decision.Optimize.{Sections, InstructionToLink}
use decision.Optimize.Encode.{Instruction, IsComplete, AllComplete, encode}
use decision.Optimize.Remove.{encode-append}
use decision.Optimize.Passes.{Change, kept, removed, replaced}

-- The links are in the list of links.
abbrev pub AllInside : ℕ → List InstructionToLink → Type 0
AllInside n [] = Unit {0}
AllInside n (l ∷ ls) = (l.link < n) × AllInside n ls

abbrev pub HasLinks : Sections → Type 0
HasLinks s = AllInside (length s.link) s.ins_link_list

-- A text of complete instructions.
pub record IsEncoded (s : Sections) (is : List Instruction) : Type 0 where
  pub text : s.text ≡ encode is
  pub complete : AllComplete is

-- What a pass may do at an instruction between others: keep it, leave a shorter rest, or put a
-- shorter instruction in its place.
pub data Outcome (s : Sections) (before : List Instruction) (x : Instruction)
    (rest : List Instruction) : Option Change → Type 0 where
  keeps : Outcome s before x rest (some kept)
  removes :
      (s' : Sections) (before' rest' : List Instruction)
      → IsEncoded s' (before' ++ rest')
      → length (encode before') ≡ length (encode before)
      → length (encode rest') < length (encode (x ∷ rest))
      → (HasLinks s → HasLinks s')
      → Outcome s before x rest (some (removed s'))
  replaces :
      (s' : Sections) (x' : Instruction) (before' rest' : List Instruction)
      → IsEncoded s' (before' ++ x' ∷ rest')
      → length (encode before') ≡ length (encode before)
      → length (encode (x' ∷ rest')) < length (encode (x ∷ rest))
      → (HasLinks s → HasLinks s')
      → Outcome s before x rest (some (replaced s' x'.op))

-- A pass that does so at every instruction, the last one only if it is not `early`.
abbrev pub IsSound : Bool → (Sections → ℕ → DIns → Option Change) → Type 0
IsSound early change =
    (s : Sections) (before : List Instruction) (x : Instruction) (rest : List Instruction)
    → IsEncoded s (before ++ x ∷ rest)
    → (early ≡ true → ¬ (rest ≡ []))
    → Outcome s before x rest (change s (length (encode before)) x.op)

-- The loop ended in a text of complete instructions, that is shorter if it changed anything, and
-- the same sheet if not.
pub record IsOptimized (s : Sections) (optimized : Bool) (o : Option (Sections × Bool))
    : Type 0 where
  pub result : Sections
  pub flag : Bool
  pub instructions : List Instruction
  pub ends : o ≡ some (result, flag)
  pub encoded : IsEncoded result instructions
  pub no_longer : length result.text ≤ length s.text
  pub shorter : flag ≡ true → (optimized ≡ true) ⊎ (length result.text < length s.text)
  pub unchanged : flag ≡ false → (optimized ≡ false) × (result ≡ s)
  pub links : HasLinks s → HasLinks result

pub length-snoc :
    (before : List Instruction) (x : Instruction)
    → IsComplete x
    → length (encode (before ++ x ∷ [])) ≡ length (encode before) + ins_size x.op
length-snoc before x full = omega (
  arith,
  ap length (encode-append before (x ∷ [])),
  length-append (encode before) (encode (x ∷ [])),
  length-append x.operand [],
  full,
)

pub length-cons :
    (x : Instruction) (rest : List Instruction)
    → IsComplete x
    → length (encode (x ∷ rest)) ≡ ins_size x.op + length (encode rest)
length-cons x rest full = omega (arith, length-append x.operand (encode rest), full)

pub first-IsComplete :
    (before : List Instruction) (x : Instruction) (rest : List Instruction)
    → AllComplete (before ++ x ∷ rest)
    → IsComplete x
first-IsComplete [] x rest h = h.0
first-IsComplete (b ∷ before) x rest h = first-IsComplete before x rest h.1
