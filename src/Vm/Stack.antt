-- ===== src/Vm/Stack.antt =====
-- The stack functions of src/dvm.c. An access outside the block of cells is undefined behaviour
-- in the source, and `none` here. Floats and pointers are stored as patterns, so the `_float` and
-- `_ptr` forms are the same functions.
pub mod Holds
pub mod Push
pub mod Pop
pub mod Access
pub mod Move
pub mod Edit
use decision.Prelude.{
  ℕ, zero, suc, ◌+◌, ◌-◌, ◌*◌, ◌/◌, Bool, true, false, ◌&&◌, ◌||◌, List, [], ◌∷◌, ◌++◌, Option,
  none, some, ◌>>=◌, length, take, drop, get_elem?, set, replicate, ltb, leb, ◌==◌, if◌then◌else◌,
  word_mod, is_negative, arith,
}
use decision.Vm.State.{Vm, set_stack_size_to, d_vm_top, vm_stack_size_min}

-- `vm_increase_stack_size` and `vm_decrease_stack_size`: factors 1.5 and 0.5, rounded down.
unfoldable pub increase_stack_size : Vm → Vm
increase_stack_size vm =
    let new_size = vm.stack_size * 3 / 2 in
    if ltb vm.stack_size new_size then set_stack_size_to vm new_size else vm

unfoldable pub decrease_stack_size : Vm → Vm
decrease_stack_size vm =
    let half = vm.stack_size / 2 in
    let new_size = if ltb half vm_stack_size_min then vm_stack_size_min else half in
    if ltb new_size vm.stack_size then set_stack_size_to vm new_size else vm

-- `*(basePtr + i)`, read and written.
unfoldable pub load_cell : Vm → ℕ → Option ℕ
load_cell vm i = get_elem? vm.cells i

unfoldable pub store_cell : Vm → ℕ → ℕ → Option Vm
store_cell vm i v =
    if ltb i (length vm.cells) then some (record vm { cells = set vm.cells i v }) else none

-- `VM_GET_STACK_PTR(vm, -depth)`: the index of the cell `depth` below the top.
unfoldable pub stack_ptr : Vm → ℕ → Option ℕ
stack_ptr vm depth = if ltb depth vm.top then some (vm.top - 1 - depth) else none

-- The index that a signed `index` names: from the frame pointer where it is positive, and from
-- the stack pointer where it is not.
unfoldable pub index_ptr : Vm → ℕ → Option ℕ
index_ptr vm index =
    if index == 0
    then stack_ptr vm 0
    else if is_negative index
    then stack_ptr vm (word_mod - index)
    else some (vm.frame + index - 1)

-- `VM_GET_STACK(vm, -depth)` and `*VM_GET_STACK_PTR(vm, -depth) = v`.
unfoldable pub get_stack : Vm → ℕ → Option ℕ
get_stack vm depth = do i ← stack_ptr vm depth; load_cell vm i

unfoldable pub set_stack : Vm → ℕ → ℕ → Option Vm
set_stack vm depth v = do i ← stack_ptr vm depth; store_cell vm i v

unfoldable pub d_vm_get : Vm → ℕ → Option ℕ
d_vm_get vm index = do i ← index_ptr vm index; load_cell vm i

unfoldable pub d_vm_set : Vm → ℕ → ℕ → Option Vm
d_vm_set vm index v = do i ← index_ptr vm index; store_cell vm i v

-- `d_vm_popn`. More than there is pops everything; a stack that is less than half full shrinks.
unfoldable pub d_vm_popn : Vm → ℕ → Vm
d_vm_popn vm n =
    if ltb 0 n
    then (let max_n = d_vm_top vm in
        let m = if ltb max_n n then max_n else n in
        let vm₁ = record vm { top = vm.top - m } in
        if ltb (max_n - m) (vm₁.stack_size / 2) then decrease_stack_size vm₁ else vm₁)
    else vm

unfoldable pub d_vm_pop : Vm → Option (ℕ × Vm)
d_vm_pop vm = do value ← d_vm_get vm 0; some (value, d_vm_popn vm 1)

unfoldable pub d_vm_push : Vm → ℕ → Option Vm
d_vm_push vm value =
    let vm₁ = if leb vm.stack_size (d_vm_top vm) then increase_stack_size vm else vm in
    store_cell (record vm₁ { top = vm₁.top + 1 }) vm₁.top value

-- `memset` of `n` cells from index `i` with zero.
unfoldable pub clear_cells : List ℕ → ℕ → ℕ → Option (List ℕ)
clear_cells cells i n =
    if leb (i + n) (length cells)
    then some (take i cells ++ replicate n 0 ++ drop (i + n) cells)
    else none

-- `memmove` of `n` cells from index `src` to index `dst`.
unfoldable pub move_cells : List ℕ → ℕ → ℕ → ℕ → Option (List ℕ)
move_cells cells dst src n =
    if leb (dst + n) (length cells) && leb (src + n) (length cells)
    then some (take dst cells ++ take n (drop src cells) ++ drop (dst + n) cells)
    else none

-- A byte count that passes `PTRDIFF_MAX`: no block is that large.
abbrev pub max_cells : ℕ
max_cells = 0x1000_0000_0000_0000

unfoldable pub d_vm_pushn : Vm → ℕ → Option Vm
d_vm_pushn vm n =
    if n == 0
    then some vm
    else if leb max_cells n
    then none
    else (let new_size = vm.top + n in
        let vm₁ =
          if leb vm.stack_size new_size then set_stack_size_to vm (new_size * 3 / 2) else vm in
        do
          cells ← clear_cells vm₁.cells vm₁.top n
          some (record vm₁ { cells = cells; top = vm₁.top + n }))

-- `VM_INSERT_LEN`.
unfoldable pub insert_len : Vm → ℕ → ℕ → ℕ → Option Vm
insert_len vm base_index len num_move = do
  vm₁ ← d_vm_pushn vm len
  cells ← move_cells vm₁.cells (base_index + len) base_index num_move
  some (record vm₁ { cells = cells })

-- The general case of `d_vm_insert`, once `insertPtr` is known to lie in the block.
unfoldable pub insert_at : Vm → ℕ → ℕ → Option Vm
insert_at vm i value = do vm₁ ← insert_len vm i 1 (vm.top - i); store_cell vm₁ i value

-- `d_vm_insert`. A position outside the stack, below its base or above its top, inserts nothing.
unfoldable pub d_vm_insert : Vm → ℕ → ℕ → Option Vm
d_vm_insert vm index value =
    if index == 0
    then (do
      vm₁ ← d_vm_push vm 0
      below ← get_stack vm₁ 1
      vm₂ ← set_stack vm₁ 0 below
      set_stack vm₂ 1 value)
    else (elim (index_ptr vm index) [
      | none ↦ some vm
      | some i ↦ if ltb i vm.top then insert_at vm i value else some vm
    ])

-- `VM_REMOVE_LEN`.
unfoldable pub remove_len : Vm → ℕ → ℕ → ℕ → Option Vm
remove_len vm i len num_move = do
  cells ← move_cells vm.cells i (i + len) num_move
  some (d_vm_popn (record vm { cells = cells }) len)

-- The general case of `d_vm_remove_len`, once `removePtr` is known to lie in the block.
unfoldable pub remove_at : Vm → ℕ → ℕ → Option Vm
remove_at vm i len =
    let max = vm.top - i in let l = if leb max len then max else len in remove_len vm i l (max - l)

unfoldable pub d_vm_remove_len : Vm → ℕ → ℕ → Option Vm
d_vm_remove_len vm index len =
    if len == 0
    then some vm
    else if index == 0
    then some (d_vm_popn vm 1)
    else (elim (index_ptr vm index) [
      | none ↦ some vm
      | some i ↦ if ltb i vm.top then remove_at vm i len else some vm
    ])

unfoldable pub d_vm_remove : Vm → ℕ → Option Vm
d_vm_remove vm index = d_vm_remove_len vm index 1
