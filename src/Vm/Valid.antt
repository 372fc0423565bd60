-- ===== src/Vm/Valid.antt =====
-- The invariant of the machine's stack, and that the stack functions of src/dvm.c keep it.
use mathlib.Core.List.{append_assoc}
pub mod Macros
pub mod Calls
pub mod Step
use decision.Prelude.{
  ℕ, zero, suc, ◌+◌, ◌-◌, ◌≤◌, ◌<◌, ◌≡◌, refl, sym, ap, ◌∙◌, subst, Bool, true, false, List, [],
  ◌∷◌, ◌++◌, Option, none, some, ◌>>=◌, length, take, drop, set, replicate, ltb, leb, ◌==◌,
  if◌then◌else◌, arith, length-append, length-take, length-drop, length-set, length-take_add,
  take-append-drop, Bool-cases, inl, inr, leb→le, ltb→lt, if_true, if_false, leb_false→lt,
  Option-cases,
}
use decision.Vm.State.{Vm, resize, set_stack_size_to, d_vm_reset, d_vm_create, d_vm_top}
use decision.Vm.Stack.{
  load_cell, store_cell, stack_ptr, get_stack, set_stack, d_vm_popn, d_vm_push, max_cells,
  move_cells, d_vm_pushn, insert_len, remove_len,
}
use decision.Vm.Stack.Holds.{
  Block, Holds, with_stack, Gives, Gives-Holds, Block-le, set_stack_size_to_lem, length-resize,
}
use decision.Vm.Stack.Push.{d_vm_push_lem, d_vm_pushn_lem, pushn_large}
use decision.Vm.Stack.Pop.{d_vm_popn_lem}

-- There is a stack, its size is that of its block and not below the minimum, and the stack pointer
-- lies in the block.
pub record IsValid (vm : Vm) : Type 0 where
  pub live : vm.allocated ≡ true
  pub full : vm.stack_size ≡ length vm.cells
  pub enough : 16 ≤ vm.stack_size
  pub fits : vm.top ≤ vm.stack_size

-- The values on the stack.
abbrev pub view : Vm → List ℕ
view vm = take vm.top vm.cells

pub IsValid-Holds : {vm : Vm} → IsValid vm → Holds vm (view vm)
IsValid-Holds {vm} v = record {
  live = v.live;
  block = record {
    rest = drop vm.top vm.cells;
    split = sym (take-append-drop vm.top vm.cells);
    full = v.full;
    enough = v.enough;
  };
  count = sym (length-take vm.top vm.cells (omega (arith, v.fits, v.full)));
}

pub Holds-IsValid : {vm : Vm} {xs : List ℕ} → Holds vm xs → IsValid vm
Holds-IsValid {xs = xs} h = record {
  live = h.live;
  full = h.block.full;
  enough = h.block.enough;
  fits = omega (arith, h.count, Block-le xs h.block);
}

-- If the operation returns a machine, that machine is valid.
abbrev pub Safe : Option Vm → Type 0
Safe none = Unit {0}
Safe (some vm) = IsValid vm

pub Safe-bind :
    (r : Option Vm) (k : Vm → Option Vm)
    → Safe r
    → ((vm : Vm) → IsValid vm → Safe (k vm))
    → Safe (r >>= k)
Safe-bind none k h f = tt
Safe-bind (some vm) k h f = f vm h

pub Safe-read {ℓ} :
    {A : Type ℓ} (r : Option A) (k : A → Option Vm) → ((a : A) → Safe (k a)) → Safe (r >>= k)
Safe-read none k f = tt
Safe-read (some a) k f = f a

pub Safe-if : (b : Bool) (x y : Option Vm) → Safe x → Safe y → Safe (if b then x else y)
Safe-if true x y hx hy = hx
Safe-if false x y hx hy = hy

pub Gives-Safe : {vm : Vm} {r : Option Vm} {ys : List ℕ} → IsValid vm → Gives vm r ys → Safe r
Gives-Safe v g = subst Safe (sym g.returns) (Holds-IsValid (Gives-Holds v.live g))

pub push-Safe : (vm : Vm) (value : ℕ) → IsValid vm → Safe (d_vm_push vm value)
push-Safe vm value v = Gives-Safe v (d_vm_push_lem vm (view vm) value (IsValid-Holds v))

pub popn-IsValid : (vm : Vm) (n : ℕ) → IsValid vm → IsValid (d_vm_popn vm n)
popn-IsValid vm n v = Gives-Safe v (d_vm_popn_lem vm (take k xs) (drop k xs) n held count)
  where
    xs : List ℕ
    xs = view vm

    m : ℕ
    m = if ltb vm.top n then vm.top else n

    k : ℕ
    k = vm.top - m

    held : Holds vm (take k xs ++ drop k xs)
    held = subst (Holds vm) (sym (take-append-drop k xs)) (IsValid-Holds v)

    count : length (drop k xs) ≡ m
    count = ground (arith, length-drop k xs, length-take vm.top vm.cells, v.fits, v.full)

pub pushn-Safe : (vm : Vm) (n : ℕ) → IsValid vm → Safe (d_vm_pushn vm n)
unfolding d_vm_pushn
pushn-Safe vm n v = elim (Bool-cases (leb max_cells n)) [
  | inl large ↦ subst Safe (sym (pushn_large vm n (leb→le max_cells n large))) tt
  | inr small ↦
      Gives-Safe v
        (d_vm_pushn_lem vm (view vm) n (IsValid-Holds v) (leb_false→lt max_cells n small))
]

pub store_cell-Safe : (vm : Vm) (i w : ℕ) → IsValid vm → Safe (store_cell vm i w)
unfolding store_cell
store_cell-Safe vm i w v =
    Safe-if (ltb i (length vm.cells)) _ none
      (record {
        live = v.live;
        full = omega (arith, v.full, length-set vm.cells i w);
        enough = v.enough;
        fits = v.fits;
      })
      tt

pub set_stack-Safe : (vm : Vm) (depth w : ℕ) → IsValid vm → Safe (set_stack vm depth w)
unfolding set_stack
set_stack-Safe vm depth w v = Safe-read (stack_ptr vm depth) _ (λ i. store_cell-Safe vm i w v)

-- `memmove` keeps the length of the block.
length-move_cells :
    (cells moved : List ℕ) (dst src n : ℕ)
    → move_cells cells dst src n ≡ some moved
    → length moved ≡ length cells
unfolding move_cells
length-move_cells cells moved dst src n e = ground (
  arith,
  length-append (take dst cells ++ take n (drop src cells)) (drop (dst + n) cells),
  length-append (take dst cells) (take n (drop src cells)),
  length-take_add dst cells,
  length-take_add n (drop src cells),
  length-drop src cells,
  length-drop (dst + n) cells,
)

-- A VM with other cells, as many, is as valid.
moved-Safe :
    (vm : Vm) (dst src n : ℕ) (k : List ℕ → Option Vm)
    → ((cells : List ℕ) → length cells ≡ length vm.cells → Safe (k cells))
    → Safe (move_cells vm.cells dst src n >>= k)
moved-Safe vm dst src n k f = elim (Option-cases (move_cells vm.cells dst src n)) [
  | inl e ↦ subst (λ r. Safe (r >>= k)) (sym e) tt
  | inr (cells, e) ↦
      subst (λ r. Safe (r >>= k)) (sym e) (f cells (length-move_cells vm.cells cells dst src n e))
]

cells-IsValid :
    (vm : Vm) (cells : List ℕ)
    → IsValid vm
    → length cells ≡ length vm.cells
    → IsValid (record vm { cells = cells })
cells-IsValid vm cells v e = record {
  live = v.live;
  full = v.full ∙ sym e;
  enough = v.enough;
  fits = v.fits;
}

pub insert_len-Safe :
    (vm : Vm) (base_index len num_move : ℕ)
    → IsValid vm
    → Safe (insert_len vm base_index len num_move)
unfolding insert_len
insert_len-Safe vm base_index len num_move v =
    Safe-bind (d_vm_pushn vm len) _ (pushn-Safe vm len v) λ vm₁ v₁.
      moved-Safe vm₁ (base_index + len) base_index num_move _
        λ cells e. cells-IsValid vm₁ cells v₁ e

pub remove_len-Safe :
    (vm : Vm) (i len num_move : ℕ) → IsValid vm → Safe (remove_len vm i len num_move)
unfolding remove_len
remove_len-Safe vm i len num_move v =
    moved-Safe vm i (i + len) num_move _
      λ cells e. popn-IsValid (record vm { cells = cells }) len (cells-IsValid vm cells v e)

-- `d_vm_reset` and `d_vm_create` give a valid machine with an empty stack.
pub d_vm_create-IsValid : (vm : Vm) → IsValid (d_vm_create vm)
unfolding d_vm_create d_vm_reset set_stack_size_to
d_vm_create-IsValid vm = record {
  live = refl;
  full = refl;
  enough = omega arith;
  fits = omega arith;
}

pub d_vm_reset-Holds : (vm : Vm) → vm.allocated ≡ true → Holds (d_vm_reset vm) []
unfolding d_vm_reset
d_vm_reset-Holds vm live =
    subst
      (λ (w : Vm). Holds (record w { top = 0; frame = 0; halted = true; runtime_error = false }) [])
      (sym (set_stack_size_to_lem (record vm { pc = 0; inc_pc = 0 }) 16 live))
      (record {
        live = live;
        block = record {
          rest = resize vm.fresh 16 vm.cells;
          split = refl;
          full = sym (length-resize vm.fresh 16 vm.cells);
          enough = omega arith;
        };
        count = refl;
      })
