-- ===== src/Vm/Samples.antt =====
-- Machines and a host for the tests.
use decision.Prelude.{
  ℕ, zero, ◌≤◌, refl, length-append, length-replicate, arith, ◌-◌, true, false, List, [], ◌++◌,
  some, length, replicate, get_elem?, ◌==◌, ltb,
}
use decision.Vm.State.{Vm}
use decision.Vm.Host.{Host}
use decision.Vm.Stack.Holds.{Holds}

-- A machine with the bytecode `code` at address 0 and the values `stack`, fewer than 17.
abbrev pub machine : List ℕ → List ℕ → ℕ → Vm
machine code stack frame = record {
  pc = 0;
  inc_pc = 0;
  allocated = true;
  cells = stack ++ replicate (16 - length stack) 0;
  stack_size = 16;
  top = length stack;
  frame = frame;
  halted = true;
  runtime_error = false;
  memory = get_elem? code;
  output = [];
  fresh = 0;
}

-- A host with one C function, which pushes nothing, and floats that are integers.
abbrev pub plain_host : Host
plain_host = record {
  call_c = λ a vm. some (record { vm = vm; moved = false });
  float_add = λ a b. a;
  float_sub = λ a b. a;
  float_mul = λ a b. a;
  float_div = λ a b. a;
  float_eq = ◌==◌;
  float_le = λ a b. ltb a b;
  float_lt = ltb;
  to_float = λ a. a;
  to_int = λ a. a;
  stray_size = λ b. some 1;
}

-- A sample machine holds the values that it was made with.
pub machine-Holds :
    (code stack : List ℕ) (frame : ℕ) → length stack ≤ 16 → Holds (machine code stack frame) stack
machine-Holds code stack frame le = record {
  live = refl;
  block = record {
    rest = replicate (16 - length stack) 0;
    split = refl;
    full = omega (
      arith,
      length-append stack (replicate (16 - length stack) 0),
      length-replicate (16 - length stack) (zero),
    );
    enough = omega arith;
  };
  count = refl;
}
