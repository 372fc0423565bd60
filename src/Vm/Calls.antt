-- ===== src/Vm/Calls.antt =====
-- The cases of `d_vm_parse_ins_at_pc` in src/dvm.c that are more than a macro: returns, calls of C
-- functions, stores and system calls.
use decision.Prelude.{
  ℕ, ◌+◌, ◌-◌, Bool, true, false, List, [], ◌∷◌, Option, none, some, ◌>>=◌, length, ltb, leb, ◌==◌,
  if◌then◌else◌, of_bool, is_negative, not, ◌||◌,
}
use decision.Vm.State.{Vm, Print}
use decision.Vm.Stack.{load_cell, get_stack, set_stack, d_vm_popn, remove_len}
use decision.Vm.Opcode.{fimmediate_size}
use decision.Vm.Memory.{write_bytes, get_bimmediate, get_fimmediate, get_count, c_string, strcmp}
use decision.Vm.Host.{Host}
use decision.Vm.Macros.{frame_at, below_top}

-- The return values of RETN and of RET.
unfoldable pub num_return_values : Bool → Vm → Option ℕ
num_return_values retn vm = elim retn [ true ↦ get_count vm 1 | false ↦ some 0 ]

-- RET and RETN. The two cells at the frame pointer hold the return address and, below it, the
-- offset of the caller's frame pointer.
unfoldable pub leave_frame : Vm → ℕ → Option Vm
leave_frame vm num_return_values = do
  pc ← load_cell vm (vm.frame - 1)
  ptr ← (if ltb vm.frame 2 then none else some (vm.frame - 2))
  saved ← load_cell vm ptr
  frame ← frame_at vm saved
  len_remove ←
      (if leb (ptr + num_return_values) vm.top
        then some (vm.top - ptr - num_return_values)
        else none)
  vm₁ ← remove_len (record vm { pc = pc; frame = frame }) ptr len_remove num_return_values
  some (record vm₁ { inc_pc = 0 })

unfoldable pub ret : Bool → Vm → Option Vm
ret retn vm =
    if vm.frame == 0
    then some (record vm { halted = true })
    else (do n ← num_return_values retn vm; leave_frame vm n)

-- CALLC and CALLCI, once the function and the number of arguments are known. The saved frame
-- pointer is an address: it is lost where the stack has moved.
unfoldable pub call_c_function : Host → ℕ → ℕ → Vm → Option Vm
call_c_function host c_func num_args vm = do
  frame ← below_top vm num_args
  r ← host.call_c c_func (record vm { frame = frame })
  if r.moved then none else some (record (r.vm) { frame = vm.frame })

unfoldable pub callc : Host → Vm → Option Vm
callc host vm = do
  c_func ← get_stack vm 0
  num_args ← get_count vm 1
  call_c_function host c_func num_args (d_vm_popn vm 1)

unfoldable pub callci : Host → Vm → Option Vm
callci host vm = do
  c_func ← get_fimmediate vm 1
  num_args ← get_count vm (1 + fimmediate_size)
  call_c_function host c_func num_args vm

-- SETADR and SETADRB: `n` bytes of the second value, to the address on the top.
unfoldable pub setadr : ℕ → Vm → Option Vm
setadr n vm = do
  a ← get_stack vm 0
  v ← get_stack vm 1
  m ← write_bytes vm.memory n a v
  some (d_vm_popn (record vm { memory = m }) 2)

abbrev string_limit : ℕ
string_limit = 0x1_0000_0000_0000_0000

unfoldable pub string_at : Vm → ℕ → Option (List ℕ)
string_at vm a = c_string string_limit vm.memory a

-- SYS_PRINT. Only a string (kind 2) is read through the pointer.
unfoldable pub sys_print : Vm → Option Vm
sys_print vm = do
  kind ← get_stack vm 0
  value ← get_stack vm 2
  text ← (if kind == 2 then string_at vm value else some [])
  newline ← get_stack vm 1
  let line : Print = record {
    kind = kind;
    value = value;
    text = text;
    newline = not (newline == 0);
  }
  set_stack (record vm { output = line ∷ vm.output }) 2 0

-- The comparison that `arg0` selects, of the result of `strcmp` with 0.
unfoldable pub compare_result : ℕ → ℕ → ℕ
compare_result arg0 result =
    if arg0 == 0
    then of_bool (result == 0)
    else if arg0 == 1
    then of_bool (is_negative result || result == 0)
    else if arg0 == 2
    then of_bool (is_negative result)
    else if arg0 == 3
    then of_bool (not (is_negative result))
    else if arg0 == 4
    then of_bool (not (is_negative result || result == 0))
    else 0

-- SYS_STRCMP.
unfoldable pub sys_strcmp : Vm → Option Vm
sys_strcmp vm = do
  a ← get_stack vm 1
  b ← get_stack vm 2
  s ← string_at vm a
  t ← string_at vm b
  arg0 ← get_stack vm 0
  set_stack vm 2 (compare_result arg0 (strcmp s t))

-- SYS_STRLEN.
unfoldable pub sys_strlen : Vm → Option Vm
sys_strlen vm = do a ← get_stack vm 2; s ← string_at vm a; set_stack vm 2 (length s)

-- SYSCALL: a number that is no system call does nothing, and two values are popped.
unfoldable pub syscall : Vm → Option Vm
syscall vm = do
  number ← get_bimmediate vm 1
  vm₁ ←
      (if number == 0
        then sys_print vm
        else if number == 1
        then sys_strcmp vm
        else if number == 2
        then sys_strlen vm
        else some vm)
  some (d_vm_popn vm₁ 2)
