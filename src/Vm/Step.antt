-- ===== src/Vm/Step.antt =====
-- One instruction: `d_vm_parse_ins_at_pc` and `d_vm_inc_pc` of src/dvm.c, with the cases of the
-- switch in the order of the source.
use Prim.Native.Nat.{bit_and, bit_or, bit_xor}
use decision.Prelude.{
  ℕ, ◌-◌, true, false, Option, none, some, ◌>>=◌, ◌==◌, if◌then◌else◌, minus_one, add_word,
  sub_word, mul_word, slt, sle, of_bool,
}
use decision.Vm.Opcode.{
  DIns, decode, ins_size, bimmediate_size, himmediate_size, fimmediate_size, op_ret, op_retn,
  op_add, op_addf, op_addbi, op_addhi, op_addfi, op_and, op_andbi, op_andhi, op_andfi, op_call,
  op_callc, op_callci, op_calli, op_callr, op_callrb, op_callrh, op_callrf, op_ceq, op_ceqf,
  op_cleq, op_cleqf, op_clt, op_cltf, op_cmeq, op_cmeqf, op_cmt, op_cmtf, op_cvtf, op_cvti,
  op_deref, op_derefi, op_derefb, op_derefbi, op_div, op_divf, op_divbi, op_divhi, op_divfi, op_get,
  op_getbi, op_gethi, op_getfi, op_inv, op_j, op_jcon, op_jconi, op_ji, op_jr, op_jrbi, op_jrhi,
  op_jrfi, op_jrcon, op_jrconbi, op_jrconhi, op_jrconfi, op_mod, op_modbi, op_modhi, op_modfi,
  op_mul, op_mulf, op_mulbi, op_mulhi, op_mulfi, op_not, op_or, op_orbi, op_orhi, op_orfi, op_pop,
  op_popb, op_poph, op_popf, op_pushb, op_pushh, op_pushf, op_pushnb, op_pushnh, op_pushnf,
  op_setadr, op_setadrb, op_sub, op_subf, op_subbi, op_subhi, op_subfi, op_syscall, op_xor,
  op_xorbi, op_xorhi, op_xorfi,
}
use decision.Vm.State.{Vm, d_vm_runtime_error}
use decision.Vm.Stack.{get_stack, set_stack, d_vm_get, d_vm_popn, d_vm_push, d_vm_pushn}
use decision.Vm.Memory.{read_bytes, get_bimmediate, get_himmediate, get_fimmediate}
use decision.Vm.Host.{Host}
use decision.Vm.Macros.{
  total, test, divide, modulo, op_1_1_i, op_2_1, op_1_1, absolute, relative, call_1_0, call_0_0,
  j_0_0_i, j_1_0, jcon_1_0_i, jcon_2_0,
}
use decision.Vm.Calls.{ret, callc, callci, setadr, syscall}

module _ (host : Host) where
  -- The cases of the switch from PUSHB to XORFI.
  unfoldable pub exec_push : DIns → Vm → Option Vm
  exec_push op_pushb vm = do v ← get_bimmediate vm 1; d_vm_push vm v
  exec_push op_pushh vm = do v ← get_himmediate vm 1; d_vm_push vm v
  exec_push op_pushf vm = do v ← get_fimmediate vm 1; d_vm_push vm v
  exec_push op_pushnb vm = do n ← get_bimmediate vm 1; d_vm_pushn vm n
  exec_push op_pushnh vm = do n ← get_himmediate vm 1; d_vm_pushn vm n
  exec_push op_pushnf vm = do n ← get_fimmediate vm 1; d_vm_pushn vm n
  exec_push op_setadr vm = setadr 8 vm
  exec_push op_setadrb vm = setadr 1 vm
  exec_push op_sub vm = op_2_1 (total sub_word) vm
  exec_push op_subf vm = op_2_1 (total host.float_sub) vm
  exec_push op_subbi vm = op_1_1_i (total sub_word) get_bimmediate vm
  exec_push op_subhi vm = op_1_1_i (total sub_word) get_himmediate vm
  exec_push op_subfi vm = op_1_1_i (total sub_word) get_fimmediate vm
  exec_push op_syscall vm = syscall vm
  exec_push op_xor vm = op_2_1 (total bit_xor) vm
  exec_push op_xorbi vm = op_1_1_i (total bit_xor) get_bimmediate vm
  exec_push op_xorhi vm = op_1_1_i (total bit_xor) get_himmediate vm
  exec_push op_xorfi vm = op_1_1_i (total bit_xor) get_fimmediate vm
  exec_push op vm = some vm

  -- The cases of the switch from MOD to POPF.
  unfoldable pub exec_mod : DIns → Vm → Option Vm
  exec_mod op_mod vm = op_2_1 modulo vm
  exec_mod op_modbi vm = op_1_1_i modulo get_bimmediate vm
  exec_mod op_modhi vm = op_1_1_i modulo get_himmediate vm
  exec_mod op_modfi vm = op_1_1_i modulo get_fimmediate vm
  exec_mod op_mul vm = op_2_1 (total mul_word) vm
  exec_mod op_mulf vm = op_2_1 (total host.float_mul) vm
  exec_mod op_mulbi vm = op_1_1_i (total mul_word) get_bimmediate vm
  exec_mod op_mulhi vm = op_1_1_i (total mul_word) get_himmediate vm
  exec_mod op_mulfi vm = op_1_1_i (total mul_word) get_fimmediate vm
  exec_mod op_not vm = op_1_1 (λ a. of_bool (a == 0)) vm
  exec_mod op_or vm = op_2_1 (total bit_or) vm
  exec_mod op_orbi vm = op_1_1_i (total bit_or) get_bimmediate vm
  exec_mod op_orhi vm = op_1_1_i (total bit_or) get_himmediate vm
  exec_mod op_orfi vm = op_1_1_i (total bit_or) get_fimmediate vm
  exec_mod op_pop vm = some (d_vm_popn vm 1)
  exec_mod op_popb vm = do n ← get_bimmediate vm 1; some (d_vm_popn vm n)
  exec_mod op_poph vm = do n ← get_himmediate vm 1; some (d_vm_popn vm n)
  exec_mod op_popf vm = do n ← get_fimmediate vm 1; some (d_vm_popn vm n)
  exec_mod op vm = exec_push op vm

  -- The cases of the switch from GET to JRCONFI.
  unfoldable pub exec_jump : DIns → Vm → Option Vm
  exec_jump op_get vm = do index ← get_stack vm 0; v ← d_vm_get vm index; set_stack vm 0 v
  exec_jump op_getbi vm = do index ← get_bimmediate vm 1; v ← d_vm_get vm index; d_vm_push vm v
  exec_jump op_gethi vm = do index ← get_himmediate vm 1; v ← d_vm_get vm index; d_vm_push vm v
  exec_jump op_getfi vm = do index ← get_fimmediate vm 1; v ← d_vm_get vm index; d_vm_push vm v
  exec_jump op_inv vm = op_1_1 (λ a. minus_one - a) vm
  exec_jump op_j vm = j_1_0 absolute vm
  exec_jump op_jcon vm = jcon_2_0 absolute vm
  exec_jump op_jconi vm = jcon_1_0_i absolute get_fimmediate vm
  exec_jump op_ji vm = j_0_0_i absolute get_fimmediate vm
  exec_jump op_jr vm = j_1_0 relative vm
  exec_jump op_jrbi vm = j_0_0_i relative get_bimmediate vm
  exec_jump op_jrhi vm = j_0_0_i relative get_himmediate vm
  exec_jump op_jrfi vm = j_0_0_i relative get_fimmediate vm
  exec_jump op_jrcon vm = jcon_2_0 relative vm
  exec_jump op_jrconbi vm = jcon_1_0_i relative get_bimmediate vm
  exec_jump op_jrconhi vm = jcon_1_0_i relative get_himmediate vm
  exec_jump op_jrconfi vm = jcon_1_0_i relative get_fimmediate vm
  exec_jump op vm = exec_mod op vm

  -- The cases of the switch from CEQ to DIVFI.
  unfoldable pub exec_compare : DIns → Vm → Option Vm
  exec_compare op_ceq vm = op_2_1 (test ◌==◌) vm
  exec_compare op_ceqf vm = op_2_1 (test host.float_eq) vm
  exec_compare op_cleq vm = op_2_1 (test sle) vm
  exec_compare op_cleqf vm = op_2_1 (test host.float_le) vm
  exec_compare op_clt vm = op_2_1 (test slt) vm
  exec_compare op_cltf vm = op_2_1 (test host.float_lt) vm
  exec_compare op_cmeq vm = op_2_1 (test (λ a b. sle b a)) vm
  exec_compare op_cmeqf vm = op_2_1 (test (λ a b. host.float_le b a)) vm
  exec_compare op_cmt vm = op_2_1 (test (λ a b. slt b a)) vm
  exec_compare op_cmtf vm = op_2_1 (test (λ a b. host.float_lt b a)) vm
  exec_compare op_cvtf vm = op_1_1 host.to_float vm
  exec_compare op_cvti vm = op_1_1 host.to_int vm
  exec_compare op_deref vm = do a ← get_stack vm 0; v ← read_bytes vm.memory 8 a; set_stack vm 0 v
  exec_compare op_derefi vm = do
    vm₁ ← d_vm_pushn vm 1
    a ← get_fimmediate vm₁ 1
    v ← read_bytes vm₁.memory 8 a
    set_stack vm₁ 0 v
  exec_compare op_derefb vm = do a ← get_stack vm 0; v ← read_bytes vm.memory 1 a; set_stack vm 0 v
  exec_compare op_derefbi vm = do
    vm₁ ← d_vm_pushn vm 1
    a ← get_fimmediate vm₁ 1
    v ← read_bytes vm₁.memory 1 a
    set_stack vm₁ 0 v
  exec_compare op_div vm = do
    b ← get_stack vm 1
    if b == 0 then some (d_vm_runtime_error vm) else op_2_1 divide vm
  exec_compare op_divf vm = do
    b ← get_stack vm 1
    if host.float_eq b 0 then some (d_vm_runtime_error vm) else op_2_1 (total host.float_div) vm
  exec_compare op_divbi vm = do
    i ← get_bimmediate vm 1
    if i == 0 then some (d_vm_runtime_error vm) else op_1_1_i divide get_bimmediate vm
  exec_compare op_divhi vm = do
    i ← get_himmediate vm 1
    if i == 0 then some (d_vm_runtime_error vm) else op_1_1_i divide get_himmediate vm
  exec_compare op_divfi vm = do
    i ← get_fimmediate vm 1
    if i == 0 then some (d_vm_runtime_error vm) else op_1_1_i divide get_fimmediate vm
  exec_compare op vm = exec_jump op vm

  -- The cases of the switch the opcodes from RET to CALLRF.
  unfoldable pub exec_call : DIns → Vm → Option Vm
  exec_call op_ret vm = ret false vm
  exec_call op_retn vm = ret true vm
  exec_call op_add vm = op_2_1 (total add_word) vm
  exec_call op_addf vm = op_2_1 (total host.float_add) vm
  exec_call op_addbi vm = op_1_1_i (total add_word) get_bimmediate vm
  exec_call op_addhi vm = op_1_1_i (total add_word) get_himmediate vm
  exec_call op_addfi vm = op_1_1_i (total add_word) get_fimmediate vm
  exec_call op_and vm = op_2_1 (total bit_and) vm
  exec_call op_andbi vm = op_1_1_i (total bit_and) get_bimmediate vm
  exec_call op_andhi vm = op_1_1_i (total bit_and) get_himmediate vm
  exec_call op_andfi vm = op_1_1_i (total bit_and) get_fimmediate vm
  exec_call op_call vm = call_1_0 op_call absolute vm
  exec_call op_callc vm = callc host vm
  exec_call op_callci vm = callci host vm
  exec_call op_calli vm = call_0_0 op_calli absolute get_fimmediate fimmediate_size vm
  exec_call op_callr vm = call_1_0 op_callr relative vm
  exec_call op_callrb vm = call_0_0 op_callrb relative get_bimmediate bimmediate_size vm
  exec_call op_callrh vm = call_0_0 op_callrh relative get_himmediate himmediate_size vm
  exec_call op_callrf vm = call_0_0 op_callrf relative get_fimmediate fimmediate_size vm
  exec_call op vm = exec_compare op vm

  -- `d_vm_parse_ins_at_pc`.
  unfoldable pub d_vm_parse_ins_at_pc : Vm → Option Vm
  d_vm_parse_ins_at_pc vm = do
    b ← vm.memory vm.pc
    elim (decode b) [
      | none ↦ (do
        size ← host.stray_size b
        some (d_vm_runtime_error (record vm { inc_pc = size })))
      | some op ↦ exec_call op (record vm { inc_pc = ins_size op })
    ]

-- `d_vm_add_pc` and `d_vm_inc_pc`.
unfoldable pub d_vm_add_pc : Vm → ℕ → Vm
d_vm_add_pc vm rel = record vm { pc = add_word vm.pc rel }

unfoldable pub d_vm_inc_pc : Vm → Vm
d_vm_inc_pc vm = record vm { pc = add_word vm.pc vm.inc_pc }
