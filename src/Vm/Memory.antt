-- ===== src/Vm/Memory.antt =====
-- The rest of the address space: the bytecode, the data sections and strings, byte by byte, little
-- endian. Reading or writing an unmapped address is undefined behaviour, `none`.
use decision.Prelude.{
  ℕ, zero, suc, ◌+◌, ◌*◌, ◌/◌, ◌%◌, List, [], ◌∷◌, Option, none, some, ◌>>=◌, ltb, ◌==◌,
  if◌then◌else◌, extend8, extend32, minus_one,
}
use decision.Vm.State.{Vm}

abbrev pub Memory : Type 0
Memory = ℕ → Option ℕ

-- `n` bytes from address `a`, the low one first.
unfoldable pub read_bytes : Memory → ℕ → ℕ → Option ℕ
read_bytes m zero a = some 0
read_bytes m (suc n) a = do low ← m a; high ← read_bytes m n (a + 1); some (low + 256 * high)

unfoldable pub write_byte : Memory → ℕ → ℕ → Option Memory
write_byte m a v = do old ← m a; some (λ b. if b == a then some (v % 256) else m b)

unfoldable pub write_bytes : Memory → ℕ → ℕ → ℕ → Option Memory
write_bytes m zero a v = some m
write_bytes m (suc n) a v = do m₁ ← write_byte m a v; write_bytes m₁ n (a + 1) (v / 256)

-- The immediates behind the opcode, as the words that they convert to.
unfoldable pub get_bimmediate : Vm → ℕ → Option ℕ
get_bimmediate vm offset = do b ← read_bytes vm.memory 1 (vm.pc + offset); some (extend8 b)

unfoldable pub get_himmediate : Vm → ℕ → Option ℕ
get_himmediate vm offset = do h ← read_bytes vm.memory 4 (vm.pc + offset); some (extend32 h)

unfoldable pub get_fimmediate : Vm → ℕ → Option ℕ
get_fimmediate vm offset = read_bytes vm.memory 8 (vm.pc + offset)

-- `(uint8_t)GET_BIMMEDIATE(offset)`.
unfoldable pub get_count : Vm → ℕ → Option ℕ
get_count vm offset = do b ← get_bimmediate vm offset; some (b % 256)

-- A string: the bytes up to the first zero byte. No string is longer than the address space.
unfoldable pub c_string : ℕ → Memory → ℕ → Option (List ℕ)
c_string zero m a = none
c_string (suc fuel) m a = elim (m a) [
  | none ↦ none
  | some zero ↦ some []
  | some (suc c) ↦ elim (c_string fuel m (a + 1)) [ none ↦ none | some s ↦ some (suc c ∷ s) ]
]

-- The sign of `strcmp`, as a word.
unfoldable pub strcmp : List ℕ → List ℕ → ℕ
strcmp [] [] = 0
strcmp [] (b ∷ bs) = minus_one
strcmp (a ∷ as_) [] = 1
strcmp (a ∷ as_) (b ∷ bs) = if ltb a b then minus_one else if ltb b a then 1 else strcmp as_ bs
