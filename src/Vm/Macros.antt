-- ===== src/Vm/Macros.antt =====
-- The helper macros of `d_vm_parse_ins_at_pc` in src/dvm.c.
use decision.Prelude.{
  ℕ, ◌+◌, ◌-◌, ◌%◌, Bool, ◌&&◌, ◌||◌, Option, none, some, ◌>>=◌, ltb, leb, ◌==◌, if◌then◌else◌,
  word_mod, int_min, minus_one, add_word, div_word, mod_word, of_bool,
}
use decision.Vm.State.{Vm}
use decision.Vm.Stack.{store_cell, get_stack, set_stack, d_vm_popn, insert_len}
use decision.Vm.Opcode.{DIns, ins_size}
use decision.Vm.Memory.{get_count}

-- An operator of C on words; `none` where C leaves the result undefined.
abbrev pub Operator : Type 0
Operator = ℕ → ℕ → Option ℕ

abbrev pub total : (ℕ → ℕ → ℕ) → Operator
total f a b = some (f a b)

abbrev pub test : (ℕ → ℕ → Bool) → Operator
test f a b = some (of_bool (f a b))

-- `/` and `%`: undefined by zero, and where the quotient does not fit.
unfoldable pub divide : Operator
divide a b = if b == 0 || a == int_min && b == minus_one then none else some (div_word a b)

unfoldable pub modulo : Operator
modulo a b = if b == 0 || a == int_min && b == minus_one then none else some (mod_word a b)

-- `OP_1_1_I`.
unfoldable pub op_1_1_i : Operator → (Vm → ℕ → Option ℕ) → Vm → Option Vm
op_1_1_i sym_ fun vm = do a ← get_stack vm 0; i ← fun vm 1; v ← sym_ a i; set_stack vm 0 v

-- `OP_2_1`, and `OP_2_1_F` and `OP_2_1_C`, which differ in the operator alone.
unfoldable pub op_2_1 : Operator → Vm → Option Vm
op_2_1 sym_ vm = do
  a ← get_stack vm 0
  b ← get_stack vm 1
  v ← sym_ a b
  vm₁ ← set_stack vm 1 v
  some (d_vm_popn vm₁ 1)

-- `= *VM_GET_STACK_PTR(vm, 0)` through a function of one argument.
unfoldable pub op_1_1 : (ℕ → ℕ) → Vm → Option Vm
op_1_1 f vm = do a ← get_stack vm 0; set_stack vm 0 (f a)

-- `vm->pc = target` and `vm->pc += target`.
abbrev pub Jump : Type 0
Jump = ℕ → ℕ → ℕ

abbrev pub absolute : Jump
absolute pc target = target

abbrev pub relative : Jump
relative pc target = add_word pc target

-- The offset of a pointer from the base as a word, and back. A pointer is one below the base, or
-- at a cell of the block.
abbrev pub offset_of : ℕ → ℕ
offset_of frame = (frame + minus_one) % word_mod

unfoldable pub frame_at : Vm → ℕ → Option ℕ
frame_at vm w =
    if w == minus_one then some 0 else if ltb w vm.stack_size then some (w + 1) else none

-- The index `count` cells below the free ones.
unfoldable pub below_top : Vm → ℕ → Option ℕ
below_top vm count = if leb count vm.top then some (vm.top - count) else none

-- `CALL_GENERIC`.
unfoldable pub call_generic : DIns → Jump → (Vm → Option ℕ) → ℕ → Vm → Option Vm
call_generic op sym_ new_pc offset vm = do
  num_arguments ← get_count vm offset
  let return_adr = add_word vm.pc (ins_size op)
  target ← new_pc vm
  base_index ← below_top vm num_arguments
  vm₁ ← insert_len (record vm { pc = sym_ vm.pc target }) base_index 2 num_arguments
  vm₂ ← store_cell vm₁ base_index (offset_of vm.frame)
  vm₃ ← store_cell vm₂ (base_index + 1) return_adr
  some (record vm₃ { frame = base_index + 2; inc_pc = 0 })

-- `CALL_1_0`, which takes the address off the stack by hand.
unfoldable pub call_1_0 : DIns → Jump → Vm → Option Vm
call_1_0 op sym_ vm = do
  vm₁ ← call_generic op sym_ (λ v. get_stack v 0) 1 vm
  some (record vm₁ { top = vm₁.top - 1 })

-- `CALL_0_0_BI`, `CALL_0_0_HI` and `CALL_0_0_FI`.
unfoldable pub call_0_0 : DIns → Jump → (Vm → ℕ → Option ℕ) → ℕ → Vm → Option Vm
call_0_0 op sym_ fun size vm = call_generic op sym_ (λ v. fun v 1) (1 + size) vm

-- `J_0_0_I`.
unfoldable pub j_0_0_i : Jump → (Vm → ℕ → Option ℕ) → Vm → Option Vm
j_0_0_i sym_ fun vm = do target ← fun vm 1; some (record vm { pc = sym_ vm.pc target; inc_pc = 0 })

-- `J_1_0`.
unfoldable pub j_1_0 : Jump → Vm → Option Vm
j_1_0 sym_ vm = do
  target ← get_stack vm 0
  some (record (d_vm_popn (record vm { pc = sym_ vm.pc target }) 1) { inc_pc = 0 })

-- `JCON_1_0_I`.
unfoldable pub jcon_1_0_i : Jump → (Vm → ℕ → Option ℕ) → Vm → Option Vm
jcon_1_0_i sym_ fun vm = do
  condition ← get_stack vm 0
  vm₁ ← (if condition == 0 then some vm else j_0_0_i sym_ fun vm)
  some (d_vm_popn vm₁ 1)

-- `JCON_2_0`. The target is read only where the jump is made.
unfoldable pub jcon_2_0 : Jump → Vm → Option Vm
jcon_2_0 sym_ vm = do
  condition ← get_stack vm 0
  vm₁ ←
      (if condition == 0
        then some vm
        else (do target ← get_stack vm 1; some (record vm { pc = sym_ vm.pc target; inc_pc = 0 })))
  some (d_vm_popn vm₁ 2)
