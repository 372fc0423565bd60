-- ===== src/Vm/Host.antt =====
-- What the machine uses and src/dvm.c does not define: C functions that bytecode calls, floating
-- point arithmetic on patterns, and what lies behind the table of instruction sizes.
use decision.Prelude.{ℕ, Bool, Option}
use decision.Vm.State.{Vm}

-- What a C function leaves. `moved` says whether the stack was reallocated while it ran.
pub record CResult : Type 0 where
  pub vm : Vm
  pub moved : Bool

pub record Host : Type 0 where
  -- `cFunc->function(vm)`, by the address of the `CFunction`.
  pub call_c : ℕ → Vm → Option CResult
  pub float_add : ℕ → ℕ → ℕ
  pub float_sub : ℕ → ℕ → ℕ
  pub float_mul : ℕ → ℕ → ℕ
  pub float_div : ℕ → ℕ → ℕ
  pub float_eq : ℕ → ℕ → Bool
  pub float_le : ℕ → ℕ → Bool
  pub float_lt : ℕ → ℕ → Bool
  -- `(dfloat)` of an integer, and `(dint)` of a float.
  pub to_float : ℕ → ℕ
  pub to_int : ℕ → ℕ
  -- `VM_INS_SIZE[opcode]` for a byte that is no opcode: a read past the end of the table.
  pub stray_size : ℕ → Option ℕ
