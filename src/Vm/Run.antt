-- ===== src/Vm/Run.antt =====
-- The loop of the machine: `d_vm_run` of src/dvm.c. Fuel bounds the number of instructions, since
-- bytecode need not halt.
pub mod Loop
use decision.Prelude.{
  ℕ, zero, suc, Bool, true, false, not, Option, none, some, ◌>>=◌, if◌then◌else◌,
}
use decision.Vm.State.{Vm}
use decision.Vm.Host.{Host}
use decision.Vm.Step.{d_vm_parse_ins_at_pc, d_vm_inc_pc}

pub data Outcome : Type 0 where
  -- The halted machine, and whether it ran without a runtime error.
  finished : Vm → Bool → Outcome
  fault out_of_fuel : Outcome

module _ (host : Host) where
  -- The body of the loop.
  unfoldable pub cycle : Vm → Option Vm
  cycle vm = do vm₁ ← d_vm_parse_ins_at_pc host vm; some (d_vm_inc_pc vm₁)

  unfoldable pub run_loop : ℕ → Vm → Outcome
  run_loop zero vm = elim (vm.halted) [
    | true ↦ finished vm (not vm.runtime_error)
    | false ↦ out_of_fuel
  ]
  run_loop (suc fuel) vm = elim (vm.halted) [
    | true ↦ finished vm (not vm.runtime_error)
    | false ↦ elim (cycle vm) [ none ↦ fault | some vm₁ ↦ run_loop fuel vm₁ ]
  ]

  unfoldable pub d_vm_run : ℕ → Vm → ℕ → Outcome
  d_vm_run fuel vm start = run_loop fuel (record vm { pc = start; halted = false })
