-- ===== src/Vm/Valid/Calls.antt =====
-- Returns, calls of C functions, stores and system calls of src/dvm.c keep the invariant.
use decision.Prelude.{
  ℕ, ◌+◌, ◌-◌, ◌≡◌, sym, subst, Bool, List, [], Option, none, some, ◌>>=◌, ltb, ◌==◌, if◌then◌else◌,
  Option-cases, inl, inr, ◌⊎◌,
}
use decision.Vm.State.{Vm, Print}
use decision.Vm.Stack.{get_stack, load_cell, d_vm_popn}
use decision.Vm.Opcode.{fimmediate_size}
use decision.Vm.Memory.{get_count, get_bimmediate, get_fimmediate, write_bytes, Memory}
use decision.Vm.Host.{Host, CResult}
use decision.Vm.Macros.{below_top, frame_at}
use decision.Vm.Calls.{
  num_return_values, leave_frame, ret, call_c_function, callc, callci, setadr, string_at, sys_print,
  sys_strcmp, sys_strlen, syscall,
}
use decision.Vm.Valid.{
  IsValid, Safe, Safe-bind, Safe-read, Safe-if, popn-IsValid, set_stack-Safe, remove_len-Safe,
}
use decision.Vm.Valid.Macros.{moved-IsValid}

leave_frame-Safe : (vm : Vm) (n : ℕ) → IsValid vm → Safe (leave_frame vm n)
unfolding leave_frame
leave_frame-Safe vm n v = Safe-read (load_cell vm (vm.frame - 1)) _ λ pc.
    Safe-read (if ltb vm.frame 2 then none else some (vm.frame - 2)) _ λ ptr.
      Safe-read (load_cell vm ptr) _ λ saved. Safe-read (frame_at vm saved) _ λ frame.
        Safe-read _ _ λ len.
          Safe-bind _ _ (remove_len-Safe _ ptr len n (moved-IsValid vm pc vm.inc_pc frame v))
            λ vm₁ v₁. moved-IsValid vm₁ vm₁.pc 0 vm₁.frame v₁

pub ret-Safe : (retn : Bool) (vm : Vm) → IsValid vm → Safe (ret retn vm)
unfolding ret
ret-Safe retn vm v =
    Safe-if (vm.frame == 0) _ _
      (record { live = v.live; full = v.full; enough = v.enough; fits = v.fits })
      (Safe-read (num_return_values retn vm) _ λ n. leave_frame-Safe vm n v)

-- C functions use the stack through the functions of the VM, and so leave a valid one.
abbrev pub CFunctionsKeep : Host → Type 0
CFunctionsKeep host =
    (c_func : ℕ) (vm : Vm) (r : CResult)
    → IsValid vm
    → host.call_c c_func vm ≡ some r
    → IsValid r.vm

module _ (host : Host) (keep : CFunctionsKeep host) where
  call_c_function-Safe :
      (c_func n : ℕ) (vm : Vm) → IsValid vm → Safe (call_c_function host c_func n vm)
  unfolding call_c_function
  call_c_function-Safe c_func n vm v =
      Safe-read (below_top vm n) _ λ frame. called frame (Option-cases _)
    where
      entered : ℕ → Vm
      entered frame = record vm { frame = frame }

      k : CResult → Option Vm
      k r = if r.moved then none else some (record (r.vm) { frame = vm.frame })

      called :
          (frame : ℕ)
          → (host.call_c c_func (entered frame) ≡ none)
            ⊎ ((r : CResult) × (host.call_c c_func (entered frame) ≡ some r))
          → Safe (host.call_c c_func (entered frame) >>= k)
      called frame (inl e) = subst (λ m. Safe (m >>= k)) (sym e) tt
      called frame (inr (r, e)) =
          let entered-IsValid = moved-IsValid vm vm.pc vm.inc_pc frame v in
          let after = keep c_func (entered frame) r entered-IsValid e in
          subst (λ m. Safe (m >>= k)) (sym e)
            (Safe-if r.moved none _ tt (moved-IsValid (r.vm) r.vm.pc r.vm.inc_pc vm.frame after))

  pub callc-Safe : (vm : Vm) → IsValid vm → Safe (callc host vm)
  unfolding callc
  callc-Safe vm v = Safe-read (get_stack vm 0) _ λ a.
      Safe-read (get_count vm 1) _
        λ n. call_c_function-Safe a n (d_vm_popn vm 1) (popn-IsValid vm 1 v)

  pub callci-Safe : (vm : Vm) → IsValid vm → Safe (callci host vm)
  unfolding callci
  callci-Safe vm v =
      Safe-read (get_fimmediate vm 1) _
        λ a. Safe-read (get_count vm (1 + fimmediate_size)) _ λ n. call_c_function-Safe a n vm v

effects-IsValid :
    (vm : Vm) (memory : Memory) (output : List Print)
    → IsValid vm
    → IsValid (record vm { memory = memory; output = output })
effects-IsValid vm memory output v = record {
  live = v.live;
  full = v.full;
  enough = v.enough;
  fits = v.fits;
}

pub setadr-Safe : (n : ℕ) (vm : Vm) → IsValid vm → Safe (setadr n vm)
unfolding setadr
setadr-Safe n vm v = Safe-read (get_stack vm 0) _ λ a. Safe-read (get_stack vm 1) _ λ w.
    Safe-read (write_bytes vm.memory n a w) _
      λ m. popn-IsValid (record vm { memory = m }) 2 (effects-IsValid vm m vm.output v)

sys_print-Safe : (vm : Vm) → IsValid vm → Safe (sys_print vm)
unfolding sys_print
sys_print-Safe vm v = Safe-read (get_stack vm 0) _ λ kind. Safe-read (get_stack vm 2) _ λ value.
    Safe-read (if kind == 2 then string_at vm value else some []) _ λ text.
      Safe-read (get_stack vm 1) _
        λ newline. set_stack-Safe _ 2 0 (effects-IsValid vm vm.memory _ v)

sys_strcmp-Safe : (vm : Vm) → IsValid vm → Safe (sys_strcmp vm)
unfolding sys_strcmp
sys_strcmp-Safe vm v = Safe-read (get_stack vm 1) _ λ a. Safe-read (get_stack vm 2) _ λ b.
    Safe-read (string_at vm a) _ λ s.
      Safe-read (string_at vm b) _ λ t. Safe-read (get_stack vm 0) _ λ arg. set_stack-Safe vm 2 _ v

sys_strlen-Safe : (vm : Vm) → IsValid vm → Safe (sys_strlen vm)
unfolding sys_strlen
sys_strlen-Safe vm v =
    Safe-read (get_stack vm 2) _ λ a. Safe-read (string_at vm a) _ λ s. set_stack-Safe vm 2 _ v

pub syscall-Safe : (vm : Vm) → IsValid vm → Safe (syscall vm)
unfolding syscall
syscall-Safe vm v = Safe-read (get_bimmediate vm 1) _ λ number.
    Safe-bind _ _
      (Safe-if (number == 0) _ _ (sys_print-Safe vm v) (
        Safe-if (number == 1) _ _ (sys_strcmp-Safe vm v)
          (Safe-if (number == 2) _ _ (sys_strlen-Safe vm v) v)))
      λ vm₁ v₁. popn-IsValid vm₁ 2 v₁
