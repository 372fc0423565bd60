-- ===== src/Vm/Valid/Macros.antt =====
-- The helper macros of `d_vm_parse_ins_at_pc` in src/dvm.c keep the invariant.
use decision.Prelude.{ℕ, ◌+◌, Option, some, ◌==◌, arith}
use decision.Vm.State.{Vm}
use decision.Vm.Stack.{get_stack, d_vm_popn}
use decision.Vm.Opcode.{DIns}
use decision.Vm.Memory.{get_count}
use decision.Vm.Macros.{
  Operator, Jump, op_1_1_i, op_2_1, op_1_1, below_top, call_generic, call_1_0, call_0_0, j_0_0_i,
  j_1_0, jcon_1_0_i, jcon_2_0,
}
use decision.Vm.Valid.{
  IsValid, Safe, Safe-bind, Safe-read, Safe-if, popn-IsValid, store_cell-Safe, set_stack-Safe,
  insert_len-Safe,
}

pub op_1_1_i-Safe :
    (f : Operator) (fun : Vm → ℕ → Option ℕ) (vm : Vm) → IsValid vm → Safe (op_1_1_i f fun vm)
unfolding op_1_1_i
op_1_1_i-Safe f fun vm v =
    Safe-read (get_stack vm 0) _
      λ a. Safe-read (fun vm 1) _ λ i. Safe-read (f a i) _ λ w. set_stack-Safe vm 0 w v

pub op_2_1-Safe : (f : Operator) (vm : Vm) → IsValid vm → Safe (op_2_1 f vm)
unfolding op_2_1
op_2_1-Safe f vm v = Safe-read (get_stack vm 0) _ λ a. Safe-read (get_stack vm 1) _ λ b.
    Safe-read (f a b) _ λ w. Safe-bind _ _ (set_stack-Safe vm 1 w v) λ vm₁ v₁. popn-IsValid vm₁ 1 v₁

pub op_1_1-Safe : (f : ℕ → ℕ) (vm : Vm) → IsValid vm → Safe (op_1_1 f vm)
unfolding op_1_1
op_1_1-Safe f vm v = Safe-read (get_stack vm 0) _ λ a. set_stack-Safe vm 0 (f a) v

-- A valid machine stays so at another program counter and under another frame.
pub moved-IsValid :
    (vm : Vm) (pc inc frame : ℕ)
    → IsValid vm
    → IsValid (record vm { pc = pc; inc_pc = inc; frame = frame })
moved-IsValid vm pc inc frame v = record {
  live = v.live;
  full = v.full;
  enough = v.enough;
  fits = v.fits;
}

pub call_generic-Safe :
    (op : DIns) (jump : Jump) (new_pc : Vm → Option ℕ) (offset : ℕ) (vm : Vm)
    → IsValid vm
    → Safe (call_generic op jump new_pc offset vm)
unfolding call_generic
call_generic-Safe op jump new_pc offset vm v = Safe-read (get_count vm offset) _ λ n.
    Safe-read (new_pc vm) _ λ target. Safe-read (below_top vm n) _ λ i.
      Safe-bind _ _ (insert_len-Safe _ i 2 n (moved-IsValid vm _ vm.inc_pc vm.frame v)) λ vm₁ v₁.
        Safe-bind _ _ (store_cell-Safe vm₁ i _ v₁) λ vm₂ v₂.
          Safe-bind _ _ (store_cell-Safe vm₂ (i + 1) _ v₂)
            λ vm₃ v₃. moved-IsValid vm₃ vm₃.pc 0 (i + 2) v₃

pub call_1_0-Safe : (op : DIns) (jump : Jump) (vm : Vm) → IsValid vm → Safe (call_1_0 op jump vm)
unfolding call_1_0
call_1_0-Safe op jump vm v = Safe-bind _ _ (call_generic-Safe op jump _ 1 vm v) λ vm₁ v₁. record {
  live = v₁.live;
  full = v₁.full;
  enough = v₁.enough;
  fits = omega (arith, v₁.fits);
}

pub call_0_0-Safe :
    (op : DIns) (jump : Jump) (fun : Vm → ℕ → Option ℕ) (size : ℕ) (vm : Vm)
    → IsValid vm
    → Safe (call_0_0 op jump fun size vm)
unfolding call_0_0
call_0_0-Safe op jump fun size vm v = call_generic-Safe op jump _ (1 + size) vm v

pub j_0_0_i-Safe :
    (jump : Jump) (fun : Vm → ℕ → Option ℕ) (vm : Vm) → IsValid vm → Safe (j_0_0_i jump fun vm)
unfolding j_0_0_i
j_0_0_i-Safe jump fun vm v = Safe-read (fun vm 1) _ λ t. moved-IsValid vm _ 0 vm.frame v

pub j_1_0-Safe : (jump : Jump) (vm : Vm) → IsValid vm → Safe (j_1_0 jump vm)
unfolding j_1_0
j_1_0-Safe jump vm v = Safe-read (get_stack vm 0) _ λ t.
    let moved = record vm { pc = jump vm.pc t } in
    let popped = d_vm_popn moved 1 in
    moved-IsValid popped popped.pc 0 popped.frame
      (popn-IsValid moved 1 (moved-IsValid vm _ vm.inc_pc vm.frame v))

pub jcon_1_0_i-Safe :
    (jump : Jump) (fun : Vm → ℕ → Option ℕ) (vm : Vm) → IsValid vm → Safe (jcon_1_0_i jump fun vm)
unfolding jcon_1_0_i
jcon_1_0_i-Safe jump fun vm v = Safe-read (get_stack vm 0) _ λ c.
    Safe-bind _ _ (Safe-if (c == 0) (some vm) _ v (j_0_0_i-Safe jump fun vm v))
      λ vm₁ v₁. popn-IsValid vm₁ 1 v₁

pub jcon_2_0-Safe : (jump : Jump) (vm : Vm) → IsValid vm → Safe (jcon_2_0 jump vm)
unfolding jcon_2_0
jcon_2_0-Safe jump vm v = Safe-read (get_stack vm 0) _ λ c.
    Safe-bind _ _
      (Safe-if (c == 0) (some vm) _ v
        (Safe-read (get_stack vm 1) _ λ t. moved-IsValid vm _ 0 vm.frame v))
      λ vm₁ v₁. popn-IsValid vm₁ 2 v₁
