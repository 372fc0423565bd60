-- ===== src/Vm/Tests.antt =====
-- Runs of the machine, and the theorems of the machine at concrete states.
mod Stack
use decision.Prelude.{
  ℕ, zero, ◌-◌, ◌≡◌, refl, Bool, true, false, List, [], ◌∷◌, Option, none, some, length, replicate,
  take, subst, ◌≤◌, length-append, length-replicate, arith, add_word, sub_word, mul_word, div_word,
  mod_word, negate, extend8, extend32,
}
use decision.Vm.Opcode
use decision.Vm.Opcode.{decode}
use decision.Vm.State.{Vm, resize, set_stack_size_to, d_vm_runtime_error, d_vm_top}
use decision.Vm.Stack.{
  increase_stack_size, decrease_stack_size, load_cell, store_cell, stack_ptr, index_ptr, get_stack,
  set_stack, d_vm_get, d_vm_popn, d_vm_push, clear_cells, move_cells, d_vm_pushn, insert_len,
  remove_len,
}
use decision.Vm.Memory.{
  read_bytes, write_byte, write_bytes, get_bimmediate, get_himmediate, get_fimmediate, get_count,
  c_string, strcmp,
}
use decision.Vm.Host.{CResult}
use decision.Vm.Macros.{
  total, divide, modulo, op_1_1_i, op_2_1, op_1_1, absolute, frame_at, below_top, call_generic,
  call_1_0, call_0_0, j_0_0_i, j_1_0, jcon_1_0_i, jcon_2_0, offset_of,
}
use decision.Vm.Calls.{
  num_return_values, leave_frame, ret, call_c_function, callc, callci, setadr, string_at, sys_print,
  compare_result, sys_strcmp, sys_strlen, syscall,
}
use decision.Vm.Step.{
  exec_call, exec_compare, exec_jump, exec_mod, exec_push, d_vm_parse_ins_at_pc, d_vm_inc_pc,
}
use decision.Vm.Run.{Outcome, finished, cycle, run_loop, d_vm_run}
use decision.Vm.Run.Loop.{IsFinal, d_vm_run-IsFinal}
use decision.Vm.Valid.{IsValid, Holds-IsValid}
use decision.Vm.Valid.Calls.{CFunctionsKeep}
use decision.Vm.Stack.Holds.{Holds, Gives}
use decision.Vm.Frames.{entering, call-ret, call_1_0_lem}
use decision.Vm.Operators.{exec_operator, exec_zero_divisor}
use decision.Vm.Samples.{machine, machine-Holds, plain_host}

-- The answer and the stack of a run from address 0 on 16 empty cells.
pub data Answer : Type 0 where
  answer : Bool → List ℕ → Answer
  no_answer : Answer

abbrev report : Outcome → Answer
report (finished vm fine) = answer fine (take vm.top vm.cells)
report _ = no_answer

run_program : List ℕ → Outcome
unfolding d_vm_run run_loop cycle d_vm_inc_pc d_vm_parse_ins_at_pc exec_call exec_compare exec_jump
    exec_mod exec_push syscall sys_print sys_strcmp sys_strlen compare_result string_at setadr
    callci callc call_c_function ret leave_frame num_return_values jcon_2_0 jcon_1_0_i j_1_0 j_0_0_i
    call_0_0 call_1_0 call_generic below_top frame_at op_1_1 op_2_1 op_1_1_i modulo divide strcmp
    c_string get_count get_fimmediate get_himmediate get_bimmediate write_bytes write_byte
    read_bytes remove_len insert_len d_vm_pushn move_cells clear_cells d_vm_push d_vm_popn d_vm_get
    set_stack get_stack index_ptr stack_ptr store_cell load_cell decrease_stack_size
    increase_stack_size d_vm_top d_vm_runtime_error set_stack_size_to resize decode extend8 extend32
    add_word sub_word mul_word div_word mod_word negate
run_program code = d_vm_run plain_host 100 (machine code [] 0) 0

-- PUSHB 5; PUSHB 7; SUB; RET: the top is the left operand.
subtracts : report (run_program (75 ∷ 5 ∷ 75 ∷ 7 ∷ 83 ∷ 0 ∷ [])) ≡ answer true (2 ∷ [])
unfolding run_program
subtracts = refl

-- PUSHB 1; PUSHB 0; DIV by the 1 on top is 0; then DIV by that 0 fails.
div_stops : report (run_program (75 ∷ 0 ∷ 75 ∷ 9 ∷ 35 ∷ 0 ∷ [])) ≡ answer false (0 ∷ 9 ∷ [])
unfolding run_program
div_stops = refl

-- The stack grows past 16 cells and shrinks again: PUSHNB 40; PUSHB 6; POPB 39; RET.
grows : report (run_program (78 ∷ 40 ∷ 75 ∷ 6 ∷ 72 ∷ 39 ∷ 0 ∷ [])) ≡ answer true (0 ∷ 0 ∷ [])
unfolding run_program
grows = refl

-- PUSHB 3; PUSHB 4; CALLRB +6 with 2 arguments; RET; ADD; RETN 1: a call of a sum.
calls :
    report (run_program (75 ∷ 3 ∷ 75 ∷ 4 ∷ 16 ∷ 4 ∷ 2 ∷ 0 ∷ 2 ∷ 1 ∷ 1 ∷ [])) ≡ answer true (7 ∷ [])
unfolding run_program
calls = refl

abbrev After : Option CResult → Type 0
After none = Unit {0}
After (some r) = IsValid (r.vm)

plain_host-Keep : CFunctionsKeep plain_host
plain_host-Keep c_func vm r v e = subst After e v

-- The program of `subtracts` and the machine that it ends with.
abbrev sub_code : List ℕ
sub_code = 75 ∷ 5 ∷ 75 ∷ 7 ∷ 83 ∷ 0 ∷ []

abbrev sub_final : Vm
sub_final = record (machine sub_code (2 ∷ 7 ∷ []) 0) { pc = 6; inc_pc = 1; top = 1 }

sub_run : d_vm_run plain_host 100 (machine sub_code [] 0) 0 ≡ finished sub_final true
unfolding run_program
sub_run = refl

d_vm_run-IsFinal_example : IsFinal sub_final true
d_vm_run-IsFinal_example =
    d_vm_run-IsFinal plain_host plain_host-Keep 100 0 (machine sub_code [] 0) sub_final true
      (Holds-IsValid (machine-Holds sub_code [] 0 (omega arith))) sub_run

-- CALLI 20 with one argument, and the callee at RETN 1.
abbrev call_code : List ℕ
call_code = 14 ∷ 20 ∷ 0 ∷ 0 ∷ 0 ∷ 0 ∷ 0 ∷ 0 ∷ 0 ∷ 1 ∷ []

abbrev caller : Vm
caller = machine call_code (3 ∷ 4 ∷ []) 0

abbrev callee : Vm
callee = machine (1 ∷ 1 ∷ []) (3 ∷ offset_of 0 ∷ 10 ∷ 4 ∷ 9 ∷ []) 3

call-ret_example :
    Gives
      (entering caller 20 3)
      (call_generic Opcode.op_calli absolute (λ v. get_fimmediate v 1) 9 caller)
      (3 ∷ offset_of 0 ∷ 10 ∷ 4 ∷ [])
    × Gives (entering callee 10 0) (ret true callee) (3 ∷ 9 ∷ [])
unfolding run_program
call-ret_example =
    call-ret Opcode.op_calli absolute (λ v. get_fimmediate v 1) 9 20 caller callee (3 ∷ []) (4 ∷ [])
      (4 ∷ []) (9 ∷ []) (machine-Holds call_code (3 ∷ 4 ∷ []) 0 (omega arith)) refl refl
      (machine-Holds (1 ∷ 1 ∷ []) (3 ∷ offset_of 0 ∷ 10 ∷ 4 ∷ 9 ∷ []) 3 (omega arith)) refl
      (omega arith) (omega arith) refl

-- CALL with two arguments, 3 and 4, of the code at 20.
abbrev indirect : Vm
indirect = machine (11 ∷ 2 ∷ []) (3 ∷ 4 ∷ 20 ∷ []) 0

call_1_0_lem_example :
    Gives
      (entering indirect 20 3)
      (call_1_0 Opcode.op_call absolute indirect)
      (3 ∷ offset_of 0 ∷ 2 ∷ 4 ∷ [])
unfolding run_program
call_1_0_lem_example =
    call_1_0_lem Opcode.op_call absolute indirect [] 3 (4 ∷ []) 20
      (machine-Holds (11 ∷ 2 ∷ []) (3 ∷ 4 ∷ 20 ∷ []) 0 (omega arith)) refl

exec_operator_example :
    Gives
      (machine [] (1 ∷ 5 ∷ 7 ∷ []) 0)
      (exec_call plain_host Opcode.op_sub (machine [] (1 ∷ 5 ∷ 7 ∷ []) 0))
      (1 ∷ 2 ∷ [])
unfolding run_program
exec_operator_example =
    exec_operator plain_host Opcode.op_sub (total sub_word) (machine [] (1 ∷ 5 ∷ 7 ∷ []) 0) (1 ∷ [])
      5 7 2 refl (machine-Holds [] (1 ∷ 5 ∷ 7 ∷ []) 0 (omega arith)) refl

exec_zero_divisor_example :
    (exec_call plain_host Opcode.op_div (machine [] (0 ∷ 7 ∷ []) 0)
      ≡ some (d_vm_runtime_error (machine [] (0 ∷ 7 ∷ []) 0)))
    × (exec_call plain_host Opcode.op_mod (machine [] (0 ∷ 7 ∷ []) 0) ≡ none)
exec_zero_divisor_example =
    exec_zero_divisor plain_host (machine [] (0 ∷ 7 ∷ []) 0) [] 7
      (machine-Holds [] (0 ∷ 7 ∷ []) 0 (omega arith))
