-- ===== src/Vm/Valid/Step.antt =====
-- Every instruction keeps the invariant, whatever the bytecode is.
use decision.Prelude.{ℕ, true, false, Option, none, some, ◌>>=◌, ◌==◌}
use decision.Vm.State.{Vm, d_vm_runtime_error}
use decision.Vm.Stack.{get_stack, d_vm_get}
use decision.Vm.Opcode.{
  DIns, decode, ins_size, op_ret, op_retn, op_add, op_addf, op_addbi, op_addhi, op_addfi, op_and,
  op_andbi, op_andhi, op_andfi, op_call, op_callc, op_callci, op_calli, op_callr, op_callrb,
  op_callrh, op_callrf, op_ceq, op_ceqf, op_cleq, op_cleqf, op_clt, op_cltf, op_cmeq, op_cmeqf,
  op_cmt, op_cmtf, op_cvtf, op_cvti, op_deref, op_derefi, op_derefb, op_derefbi, op_div, op_divf,
  op_divbi, op_divhi, op_divfi, op_get, op_getbi, op_gethi, op_getfi, op_inv, op_j, op_jcon,
  op_jconi, op_ji, op_jr, op_jrbi, op_jrhi, op_jrfi, op_jrcon, op_jrconbi, op_jrconhi, op_jrconfi,
  op_mod, op_modbi, op_modhi, op_modfi, op_mul, op_mulf, op_mulbi, op_mulhi, op_mulfi, op_not,
  op_or, op_orbi, op_orhi, op_orfi, op_pop, op_popb, op_poph, op_popf, op_pushb, op_pushh, op_pushf,
  op_pushnb, op_pushnh, op_pushnf, op_setadr, op_setadrb, op_sub, op_subf, op_subbi, op_subhi,
  op_subfi, op_syscall, op_xor, op_xorbi, op_xorhi, op_xorfi,
}
use decision.Vm.Memory.{read_bytes, get_bimmediate, get_himmediate, get_fimmediate}
use decision.Vm.Host.{Host}
use decision.Vm.Step.{
  exec_call, exec_compare, exec_jump, exec_mod, exec_push, d_vm_parse_ins_at_pc, d_vm_inc_pc,
}
use decision.Vm.Run.{cycle}
use decision.Vm.Valid.{
  IsValid, Safe, Safe-bind, Safe-read, Safe-if, push-Safe, popn-IsValid, pushn-Safe, set_stack-Safe,
}
use decision.Vm.Valid.Macros.{
  op_1_1_i-Safe, op_2_1-Safe, op_1_1-Safe, call_1_0-Safe, call_0_0-Safe, j_0_0_i-Safe, j_1_0-Safe,
  jcon_1_0_i-Safe, jcon_2_0-Safe, moved-IsValid,
}
use decision.Vm.Valid.Calls.{
  CFunctionsKeep, ret-Safe, callc-Safe, callci-Safe, setadr-Safe, syscall-Safe,
}

error-IsValid : (vm : Vm) → IsValid vm → IsValid (d_vm_runtime_error vm)
unfolding d_vm_runtime_error
error-IsValid vm v = record { live = v.live; full = v.full; enough = v.enough; fits = v.fits }

module _ (host : Host) (keep : CFunctionsKeep host) where
  exec_push-Safe : (op : DIns) (vm : Vm) → IsValid vm → Safe (exec_push host op vm)
  unfolding exec_push
  exec_push-Safe op_pushb vm v = Safe-read (get_bimmediate vm 1) _ λ w. push-Safe vm w v
  exec_push-Safe op_pushh vm v = Safe-read (get_himmediate vm 1) _ λ w. push-Safe vm w v
  exec_push-Safe op_pushf vm v = Safe-read (get_fimmediate vm 1) _ λ w. push-Safe vm w v
  exec_push-Safe op_pushnb vm v = Safe-read (get_bimmediate vm 1) _ λ n. pushn-Safe vm n v
  exec_push-Safe op_pushnh vm v = Safe-read (get_himmediate vm 1) _ λ n. pushn-Safe vm n v
  exec_push-Safe op_pushnf vm v = Safe-read (get_fimmediate vm 1) _ λ n. pushn-Safe vm n v
  exec_push-Safe op_setadr vm v = setadr-Safe _ vm v
  exec_push-Safe op_setadrb vm v = setadr-Safe _ vm v
  exec_push-Safe op_sub vm v = op_2_1-Safe _ vm v
  exec_push-Safe op_subf vm v = op_2_1-Safe _ vm v
  exec_push-Safe op_subbi vm v = op_1_1_i-Safe _ _ vm v
  exec_push-Safe op_subhi vm v = op_1_1_i-Safe _ _ vm v
  exec_push-Safe op_subfi vm v = op_1_1_i-Safe _ _ vm v
  exec_push-Safe op_syscall vm v = syscall-Safe vm v
  exec_push-Safe op_xor vm v = op_2_1-Safe _ vm v
  exec_push-Safe op_xorbi vm v = op_1_1_i-Safe _ _ vm v
  exec_push-Safe op_xorhi vm v = op_1_1_i-Safe _ _ vm v
  exec_push-Safe op_xorfi vm v = op_1_1_i-Safe _ _ vm v
  exec_push-Safe op vm v = v

  exec_mod-Safe : (op : DIns) (vm : Vm) → IsValid vm → Safe (exec_mod host op vm)
  unfolding exec_mod
  exec_mod-Safe op_mod vm v = op_2_1-Safe _ vm v
  exec_mod-Safe op_modbi vm v = op_1_1_i-Safe _ _ vm v
  exec_mod-Safe op_modhi vm v = op_1_1_i-Safe _ _ vm v
  exec_mod-Safe op_modfi vm v = op_1_1_i-Safe _ _ vm v
  exec_mod-Safe op_mul vm v = op_2_1-Safe _ vm v
  exec_mod-Safe op_mulf vm v = op_2_1-Safe _ vm v
  exec_mod-Safe op_mulbi vm v = op_1_1_i-Safe _ _ vm v
  exec_mod-Safe op_mulhi vm v = op_1_1_i-Safe _ _ vm v
  exec_mod-Safe op_mulfi vm v = op_1_1_i-Safe _ _ vm v
  exec_mod-Safe op_not vm v = op_1_1-Safe _ vm v
  exec_mod-Safe op_or vm v = op_2_1-Safe _ vm v
  exec_mod-Safe op_orbi vm v = op_1_1_i-Safe _ _ vm v
  exec_mod-Safe op_orhi vm v = op_1_1_i-Safe _ _ vm v
  exec_mod-Safe op_orfi vm v = op_1_1_i-Safe _ _ vm v
  exec_mod-Safe op_pop vm v = popn-IsValid vm 1 v
  exec_mod-Safe op_popb vm v = Safe-read (get_bimmediate vm 1) _ λ n. popn-IsValid vm n v
  exec_mod-Safe op_poph vm v = Safe-read (get_himmediate vm 1) _ λ n. popn-IsValid vm n v
  exec_mod-Safe op_popf vm v = Safe-read (get_fimmediate vm 1) _ λ n. popn-IsValid vm n v
  exec_mod-Safe op vm v = exec_push-Safe op vm v

  exec_jump-Safe : (op : DIns) (vm : Vm) → IsValid vm → Safe (exec_jump host op vm)
  unfolding exec_jump
  exec_jump-Safe op_get vm v =
      Safe-read (get_stack vm 0) _ λ i. Safe-read (d_vm_get vm i) _ λ w. set_stack-Safe vm 0 w v
  exec_jump-Safe op_getbi vm v =
      Safe-read (get_bimmediate vm 1) _ λ i. Safe-read (d_vm_get vm i) _ λ w. push-Safe vm w v
  exec_jump-Safe op_gethi vm v =
      Safe-read (get_himmediate vm 1) _ λ i. Safe-read (d_vm_get vm i) _ λ w. push-Safe vm w v
  exec_jump-Safe op_getfi vm v =
      Safe-read (get_fimmediate vm 1) _ λ i. Safe-read (d_vm_get vm i) _ λ w. push-Safe vm w v
  exec_jump-Safe op_inv vm v = op_1_1-Safe _ vm v
  exec_jump-Safe op_j vm v = j_1_0-Safe _ vm v
  exec_jump-Safe op_jcon vm v = jcon_2_0-Safe _ vm v
  exec_jump-Safe op_jconi vm v = jcon_1_0_i-Safe _ _ vm v
  exec_jump-Safe op_ji vm v = j_0_0_i-Safe _ _ vm v
  exec_jump-Safe op_jr vm v = j_1_0-Safe _ vm v
  exec_jump-Safe op_jrbi vm v = j_0_0_i-Safe _ _ vm v
  exec_jump-Safe op_jrhi vm v = j_0_0_i-Safe _ _ vm v
  exec_jump-Safe op_jrfi vm v = j_0_0_i-Safe _ _ vm v
  exec_jump-Safe op_jrcon vm v = jcon_2_0-Safe _ vm v
  exec_jump-Safe op_jrconbi vm v = jcon_1_0_i-Safe _ _ vm v
  exec_jump-Safe op_jrconhi vm v = jcon_1_0_i-Safe _ _ vm v
  exec_jump-Safe op_jrconfi vm v = jcon_1_0_i-Safe _ _ vm v
  exec_jump-Safe op vm v = exec_mod-Safe op vm v

  exec_compare-Safe : (op : DIns) (vm : Vm) → IsValid vm → Safe (exec_compare host op vm)
  unfolding exec_compare
  exec_compare-Safe op_ceq vm v = op_2_1-Safe _ vm v
  exec_compare-Safe op_ceqf vm v = op_2_1-Safe _ vm v
  exec_compare-Safe op_cleq vm v = op_2_1-Safe _ vm v
  exec_compare-Safe op_cleqf vm v = op_2_1-Safe _ vm v
  exec_compare-Safe op_clt vm v = op_2_1-Safe _ vm v
  exec_compare-Safe op_cltf vm v = op_2_1-Safe _ vm v
  exec_compare-Safe op_cmeq vm v = op_2_1-Safe _ vm v
  exec_compare-Safe op_cmeqf vm v = op_2_1-Safe _ vm v
  exec_compare-Safe op_cmt vm v = op_2_1-Safe _ vm v
  exec_compare-Safe op_cmtf vm v = op_2_1-Safe _ vm v
  exec_compare-Safe op_cvtf vm v = op_1_1-Safe _ vm v
  exec_compare-Safe op_cvti vm v = op_1_1-Safe _ vm v
  exec_compare-Safe op_deref vm v =
      Safe-read (get_stack vm 0) _
        λ a. Safe-read (read_bytes vm.memory 8 a) _ λ w. set_stack-Safe vm 0 w v
  exec_compare-Safe op_derefi vm v = Safe-bind _ _ (pushn-Safe vm 1 v) λ vm₁ v₁.
      Safe-read (get_fimmediate vm₁ 1) _
        λ a. Safe-read (read_bytes vm₁.memory 8 a) _ λ w. set_stack-Safe vm₁ 0 w v₁
  exec_compare-Safe op_derefb vm v =
      Safe-read (get_stack vm 0) _
        λ a. Safe-read (read_bytes vm.memory 1 a) _ λ w. set_stack-Safe vm 0 w v
  exec_compare-Safe op_derefbi vm v = Safe-bind _ _ (pushn-Safe vm 1 v) λ vm₁ v₁.
      Safe-read (get_fimmediate vm₁ 1) _
        λ a. Safe-read (read_bytes vm₁.memory 1 a) _ λ w. set_stack-Safe vm₁ 0 w v₁
  exec_compare-Safe op_div vm v =
      Safe-read (get_stack vm 1) _
        λ b. Safe-if (b == 0) _ _ (error-IsValid vm v) (op_2_1-Safe _ vm v)
  exec_compare-Safe op_divf vm v =
      Safe-read (get_stack vm 1) _
        λ b. Safe-if (host.float_eq b 0) _ _ (error-IsValid vm v) (op_2_1-Safe _ vm v)
  exec_compare-Safe op_divbi vm v =
      Safe-read (get_bimmediate vm 1) _
        λ i. Safe-if (i == 0) _ _ (error-IsValid vm v) (op_1_1_i-Safe _ _ vm v)
  exec_compare-Safe op_divhi vm v =
      Safe-read (get_himmediate vm 1) _
        λ i. Safe-if (i == 0) _ _ (error-IsValid vm v) (op_1_1_i-Safe _ _ vm v)
  exec_compare-Safe op_divfi vm v =
      Safe-read (get_fimmediate vm 1) _
        λ i. Safe-if (i == 0) _ _ (error-IsValid vm v) (op_1_1_i-Safe _ _ vm v)
  exec_compare-Safe op vm v = exec_jump-Safe op vm v

  exec_call-Safe : (op : DIns) (vm : Vm) → IsValid vm → Safe (exec_call host op vm)
  unfolding exec_call
  exec_call-Safe op_ret vm v = ret-Safe false vm v
  exec_call-Safe op_retn vm v = ret-Safe true vm v
  exec_call-Safe op_add vm v = op_2_1-Safe _ vm v
  exec_call-Safe op_addf vm v = op_2_1-Safe _ vm v
  exec_call-Safe op_addbi vm v = op_1_1_i-Safe _ _ vm v
  exec_call-Safe op_addhi vm v = op_1_1_i-Safe _ _ vm v
  exec_call-Safe op_addfi vm v = op_1_1_i-Safe _ _ vm v
  exec_call-Safe op_and vm v = op_2_1-Safe _ vm v
  exec_call-Safe op_andbi vm v = op_1_1_i-Safe _ _ vm v
  exec_call-Safe op_andhi vm v = op_1_1_i-Safe _ _ vm v
  exec_call-Safe op_andfi vm v = op_1_1_i-Safe _ _ vm v
  exec_call-Safe op_call vm v = call_1_0-Safe _ _ vm v
  exec_call-Safe op_callc vm v = callc-Safe host keep vm v
  exec_call-Safe op_callci vm v = callci-Safe host keep vm v
  exec_call-Safe op_calli vm v = call_0_0-Safe _ _ _ _ vm v
  exec_call-Safe op_callr vm v = call_1_0-Safe _ _ vm v
  exec_call-Safe op_callrb vm v = call_0_0-Safe _ _ _ _ vm v
  exec_call-Safe op_callrh vm v = call_0_0-Safe _ _ _ _ vm v
  exec_call-Safe op_callrf vm v = call_0_0-Safe _ _ _ _ vm v
  exec_call-Safe op vm v = exec_compare-Safe op vm v

  parse-Safe : (vm : Vm) → IsValid vm → Safe (d_vm_parse_ins_at_pc host vm)
  unfolding d_vm_parse_ins_at_pc
  parse-Safe vm v = Safe-read (vm.memory vm.pc) _ λ b. at b (decode b)
    where
      at :
          (b : ℕ) (op : Option DIns)
          → Safe (elim op [
            | none ↦ (do
              size ← host.stray_size b
              some (d_vm_runtime_error (record vm { inc_pc = size })))
            | some op ↦ exec_call host op (record vm { inc_pc = ins_size op })
          ])
      at b none =
          Safe-read (host.stray_size b) _
            λ size. error-IsValid _ (moved-IsValid vm vm.pc size vm.frame v)
      at b (some op) = exec_call-Safe op _ (moved-IsValid vm vm.pc (ins_size op) vm.frame v)

  pub cycle-Safe : (vm : Vm) → IsValid vm → Safe (cycle host vm)
  unfolding cycle d_vm_inc_pc
  cycle-Safe vm v =
      Safe-bind _ _ (parse-Safe vm v) λ vm₁ v₁. moved-IsValid vm₁ _ vm₁.inc_pc vm₁.frame v₁
