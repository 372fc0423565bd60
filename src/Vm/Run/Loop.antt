-- ===== src/Vm/Run/Loop.antt =====
-- What a run of the machine promises, whatever the bytecode: src/dvm.c, `d_vm_run`.
use decision.Prelude.{ℕ, zero, suc, ◌≡◌, refl, subst, Bool, true, false, not, Option, none, some}
use decision.Vm.State.{Vm}
use decision.Vm.Host.{Host}
use decision.Vm.Run.{Outcome, finished, fault, out_of_fuel, cycle, run_loop, d_vm_run}
use decision.Vm.Valid.{IsValid, Safe}
use decision.Vm.Valid.Calls.{CFunctionsKeep}
use decision.Vm.Valid.Step.{cycle-Safe}

-- The machine that a run ends with is halted and valid, and the answer says whether there was a
-- runtime error.
pub record IsFinal (vm : Vm) (fine : Bool) : Type 0 where
  pub halted : vm.halted ≡ true
  pub answer : fine ≡ not vm.runtime_error
  pub valid : IsValid vm

abbrev pub EndsWell : Outcome → Type 0
EndsWell (finished vm fine) = IsFinal vm fine
EndsWell _ = Unit {0}

at_test-EndsWell :
    (vm : Vm) (rest : Outcome) (halted : Bool)
    → vm.halted ≡ halted
    → IsValid vm
    → EndsWell rest
    → EndsWell (elim halted [ true ↦ finished vm (not vm.runtime_error) | false ↦ rest ])
at_test-EndsWell vm rest true e v h = record { halted = e; answer = refl; valid = v }
at_test-EndsWell vm rest false e v h = h

after-EndsWell :
    (r : Option Vm) (k : Vm → Outcome)
    → Safe r
    → ((vm : Vm) → IsValid vm → EndsWell (k vm))
    → EndsWell (elim r [ none ↦ fault | some vm ↦ k vm ])
after-EndsWell none k s f = tt
after-EndsWell (some vm) k s f = f vm s

module _ (host : Host) (keep : CFunctionsKeep host) where
  run_loop-EndsWell : (fuel : ℕ) (vm : Vm) → IsValid vm → EndsWell (run_loop host fuel vm)
  unfolding run_loop
  run_loop-EndsWell zero vm v = at_test-EndsWell vm out_of_fuel vm.halted refl v tt
  run_loop-EndsWell (suc fuel) vm v = at_test-EndsWell vm _ vm.halted refl v (
      after-EndsWell (cycle host vm) (run_loop host fuel) (cycle-Safe host keep vm v)
        (run_loop-EndsWell fuel))

  -- For every bytecode, start and fuel: a run of a valid machine that ends leaves a halted
  -- machine with a valid stack, and answers whether there was no runtime error, if the C
  -- functions of the host leave valid stacks.
  pub d_vm_run-IsFinal :
      (fuel start : ℕ) (vm vm' : Vm) (fine : Bool)
      → IsValid vm
      → d_vm_run host fuel vm start ≡ finished vm' fine
      → IsFinal vm' fine
  unfolding d_vm_run
  d_vm_run-IsFinal fuel start vm vm' fine v e = subst EndsWell e (
      run_loop-EndsWell fuel (record vm { pc = start; halted = false })
        (record { live = v.live; full = v.full; enough = v.enough; fits = v.fits }))
