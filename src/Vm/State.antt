-- ===== src/Vm/State.antt =====
-- The state of the virtual machine: `DVM` of src/dvm.h, and the functions of src/dvm.c that make,
-- reset and free it. The stack is a block of cells; the two pointers into it are kept as the
-- number of cells at or below them, so that the starting position `basePtr - 1` is 0.
use decision.Prelude.{
  ℕ, ◌-◌, Bool, true, false, List, [], ◌++◌, Option, length, take, replicate, if◌then◌else◌,
}

-- What SYS_PRINT writes: the kind of value, the value, the bytes of a string, and whether a
-- newline follows.
pub record Print : Type 0 where
  pub kind : ℕ
  pub value : ℕ
  pub text : List ℕ
  pub newline : Bool

pub record Vm : Type 0 where
  -- `char *pc`, an address.
  pub pc : ℕ
  pub inc_pc : ℕ
  -- `basePtr != NULL`.
  pub allocated : Bool
  -- The cells at `basePtr`, `stackSize` many.
  pub cells : List ℕ
  pub stack_size : ℕ
  -- `(stackPtr - basePtr) + 1` and `(framePtr - basePtr) + 1`.
  pub top : ℕ
  pub frame : ℕ
  pub halted : Bool
  pub runtime_error : Bool
  -- The rest of the address space, byte by byte; `none` is unmapped.
  pub memory : ℕ → Option ℕ
  -- The lines written to `stdout`, the last one first.
  pub output : List Print
  -- What `realloc` leaves in the cells that it adds.
  pub fresh : ℕ

abbrev pub vm_stack_size_min : ℕ
vm_stack_size_min = 16

-- The cells after a `realloc` to `size` of them.
unfoldable pub resize : ℕ → ℕ → List ℕ → List ℕ
resize fresh size cells = take size cells ++ replicate (size - length cells) fresh

-- `vm_set_stack_size_to`. The pointers move with the block, so their offsets stay.
unfoldable pub set_stack_size_to : Vm → ℕ → Vm
set_stack_size_to vm size =
    if vm.allocated
    then record vm { stack_size = size; cells = resize vm.fresh size vm.cells }
    else record vm { stack_size = size; cells = replicate size 0; allocated = true }

-- `d_vm_reset`: after it both pointers stand one below the base.
unfoldable pub d_vm_reset : Vm → Vm
d_vm_reset vm =
    let vm₁ = set_stack_size_to (record vm { pc = 0; inc_pc = 0 }) vm_stack_size_min in
    record vm₁ { top = 0; frame = 0; halted = true; runtime_error = false }

-- `d_vm_create`: a VM with no stack, reset. The uninitialised members are those of `vm`.
unfoldable pub d_vm_create : Vm → Vm
d_vm_create vm = d_vm_reset (record vm { allocated = false })

-- `d_vm_free`.
unfoldable pub d_vm_free : Vm → Vm
d_vm_free vm = if vm.allocated then record vm { allocated = false; cells = [] } else vm

-- `d_vm_runtime_error`. The printed message is not kept.
unfoldable pub d_vm_runtime_error : Vm → Vm
d_vm_runtime_error vm = record vm { halted = true; runtime_error = true }

-- `d_vm_top` and `d_vm_frame`, with the conditions as they stand in the source.
unfoldable pub d_vm_top : Vm → ℕ
d_vm_top vm = if vm.allocated then vm.top else 0

unfoldable pub d_vm_frame : Vm → ℕ
d_vm_frame vm = if vm.allocated then 0 else vm.top - vm.frame
