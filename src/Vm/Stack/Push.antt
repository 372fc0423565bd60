-- ===== src/Vm/Stack/Push.antt =====
-- `d_vm_push` and `d_vm_pushn` of src/dvm.c on the list that a VM holds.
use mathlib.Core.List.{append-nil}
use decision.Prelude.{
  ℕ, zero, suc, ◌+◌, ◌*◌, ◌/◌, ◌≤◌, ◌<◌, ◌≡◌, refl, sym, ap, ◌∙◌, subst, true, List, [], ◌∷◌, ◌++◌,
  Option, none, some, ◌>>=◌, length, take, drop, set, replicate, leb, arith, length-append,
  length-drop, length-replicate, take-append, Bool-cases, pos→==_false, lt→ltb, le→leb,
  lt→leb_false, leb→le, leb_false→lt, inl, inr,
}
use decision.Vm.State.{Vm, resize, d_vm_top}
use decision.Vm.Stack.{
  increase_stack_size, store_cell, d_vm_push, clear_cells, max_cells, d_vm_pushn,
}
use decision.Vm.Stack.Holds.{
  Block, Holds, with_stack, Gives, Gives-eq, resize-Block, set_stack_size_to_lem, Block-le,
  Block-store, keeps, store_cell_lem,
}

-- The first half of a push: afterwards there is room.
pub increase_lem :
    (vm : Vm)
    → vm.allocated ≡ true
    → 16 ≤ vm.stack_size
    → increase_stack_size vm
      ≡ with_stack vm
          (resize vm.fresh (vm.stack_size * 3 / 2) vm.cells)
          (vm.stack_size * 3 / 2)
          vm.top
unfolding increase_stack_size
increase_lem vm live lo =
    rw (lt→ltb vm.stack_size (vm.stack_size * 3 / 2) (omega arith))
      (set_stack_size_to_lem vm (vm.stack_size * 3 / 2) live)

-- A push on a block that has room.
push_room :
    (vm : Vm) (cells : List ℕ) (size v : ℕ) (xs : List ℕ)
    → Block cells size xs
    → length xs < size
    → Gives vm (store_cell (with_stack vm cells size (length xs + 1)) (length xs) v) (xs ++ v ∷ [])
push_room vm cells size v xs b lt = record {
  cells = set cells (length xs) v;
  size = size;
  returns =
      store_cell_lem (with_stack vm cells size (length xs + 1)) (length xs) v
        (omega (arith, b.full))
      ∙ ap (λ n. some (with_stack vm (set cells (length xs) v) size n))
          (sym (length-append xs (v ∷ [])));
  block = Block-store cells size xs v b lt;
}

-- `d_vm_push`, on a block that is full and on one that is not.
push_full :
    (vm : Vm) (v : ℕ)
    → vm.allocated ≡ true
    → 16 ≤ vm.stack_size
    → vm.stack_size ≤ vm.top
    → d_vm_push vm v
      ≡ store_cell
          (with_stack vm
            (resize vm.fresh (vm.stack_size * 3 / 2) vm.cells)
            (vm.stack_size * 3 / 2)
            (vm.top + 1))
          vm.top
          v
unfolding d_vm_push d_vm_top
push_full vm v live lo le = simp (live, le→leb vm.stack_size vm.top le, increase_lem vm live lo)

push_open :
    (vm : Vm) (v : ℕ)
    → vm.allocated ≡ true
    → vm.top < vm.stack_size
    → d_vm_push vm v ≡ store_cell (record vm { top = vm.top + 1 }) vm.top v
unfolding d_vm_push d_vm_top
push_open vm v live lt = ground arith

-- On a machine that holds a list, `d_vm_push` succeeds, puts the value on top of the list, and
-- changes nothing but the stack.
pub d_vm_push_lem :
    (vm : Vm) (xs : List ℕ) (v : ℕ) → Holds vm xs → Gives vm (d_vm_push vm v) (xs ++ v ∷ [])
d_vm_push_lem vm xs v h = elim (Bool-cases (leb vm.stack_size vm.top)) [
  | inl full ↦
      let size = vm.stack_size * 3 / 2 in
      let cells = resize vm.fresh size vm.cells in
      let le = leb→le vm.stack_size vm.top full in
      Gives-eq
        (push_full vm v h.live h.block.enough le
          ∙ ap (λ n. store_cell (with_stack vm cells size (n + 1)) n v) h.count)
        (push_room vm cells size v xs
          (resize-Block vm.fresh size xs h.block
            (omega (arith, Block-le xs h.block, h.block.enough)) (omega (arith, h.block.enough)))
          (omega (arith, Block-le xs h.block, h.block.enough, h.count)))
  | inr room ↦
      let lt = leb_false→lt vm.stack_size vm.top room in
      Gives-eq
        (push_open vm v h.live lt
          ∙ ap (λ n. store_cell (with_stack vm vm.cells vm.stack_size (n + 1)) n v) h.count)
        (push_room vm vm.cells vm.stack_size v xs h.block (omega (arith, h.count)))
]

-- Zeroing the cells above the list, where there is room for them.
clear_cells_lem :
    (cells : List ℕ) (size n : ℕ) (xs : List ℕ)
    → Block cells size xs
    → length xs + n ≤ size
    → clear_cells cells (length xs) n ≡ some (xs ++ replicate n 0 ++ drop (length xs + n) cells)
unfolding clear_cells
clear_cells_lem cells size n xs b le =
    simp (le→leb (length xs + n) (length cells) (omega (arith, b.full))) (
      ap (λ t. some (t ++ replicate n 0 ++ drop (length xs + n) cells))
        (ap (take (length xs)) b.split ∙ take-append (length xs) xs b.rest refl))

Block-clear :
    (cells : List ℕ) (size n : ℕ) (xs : List ℕ)
    → Block cells size xs
    → length xs + n ≤ size
    → Block (xs ++ replicate n 0 ++ drop (length xs + n) cells) size (xs ++ replicate n 0)
Block-clear cells size n xs b le = record {
  rest = drop (length xs + n) cells;
  split = refl;
  full = omega (
    arith,
    b.full,
    length-append (xs ++ replicate n 0) (drop (length xs + n) cells),
    length-append xs (replicate n 0),
    length-replicate n (zero),
    length-drop (length xs + n) cells,
  );
  enough = b.enough;
}

-- The second half of `d_vm_pushn`, on a block that has room.
abbrev finish_pushn : Vm → ℕ → Option Vm
finish_pushn vm n = do
  cells ← clear_cells vm.cells vm.top n
  some (record vm { cells = cells; top = vm.top + n })

pushn_room :
    (vm : Vm) (cells : List ℕ) (size n : ℕ) (xs : List ℕ)
    → Block cells size xs
    → length xs + n ≤ size
    → Gives vm (finish_pushn (with_stack vm cells size (length xs)) n) (xs ++ replicate n 0)
pushn_room vm cells size n xs b le = record {
  cells = xs ++ replicate n 0 ++ drop (length xs + n) cells;
  size = size;
  returns =
      ap (λ r. r >>= λ c. some (record vm { cells = c; stack_size = size; top = length xs + n }))
        (clear_cells_lem cells size n xs b le)
      ∙ ap (λ m. some (with_stack vm (xs ++ replicate n 0 ++ drop (length xs + n) cells) size m))
          (omega (arith, length-append xs (replicate n 0), length-replicate n (zero)));
  block = Block-clear cells size n xs b le;
}

pushn_full :
    (vm : Vm) (n size : ℕ)
    → vm.allocated ≡ true
    → size ≡ (vm.top + n) * 3 / 2
    → vm.stack_size ≤ vm.top + n
    → 0 < n
    → n < max_cells
    → d_vm_pushn vm n ≡ finish_pushn (with_stack vm (resize vm.fresh size vm.cells) size vm.top) n
unfolding d_vm_pushn
pushn_full vm n size live e le pos lt = simp (
  pos→==_false n pos,
  lt→leb_false max_cells n lt,
  le→leb vm.stack_size (vm.top + n) le,
  ← e,
  set_stack_size_to_lem vm size live,
)

pushn_open :
    (vm : Vm) (n : ℕ)
    → vm.top + n < vm.stack_size
    → 0 < n
    → n < max_cells
    → d_vm_pushn vm n ≡ finish_pushn vm n
unfolding d_vm_pushn
pushn_open vm n open_ pos lt =
    simp (
      pos→==_false n pos,
      lt→leb_false max_cells n lt,
      lt→leb_false vm.stack_size (vm.top + n) open_,
    )

-- On a machine that holds a list, `d_vm_pushn` of fewer than `max_cells` cells succeeds, puts as
-- many zeros on top of the list, and changes nothing but the stack.
pub d_vm_pushn_lem :
    (vm : Vm) (xs : List ℕ) (n : ℕ)
    → Holds vm xs
    → n < max_cells
    → Gives vm (d_vm_pushn vm n) (xs ++ replicate n 0)
unfolding d_vm_pushn
d_vm_pushn_lem vm xs zero h lt =
    subst (Gives vm (some vm)) (sym (append-nil xs)) (keeps vm xs h.count h.block)
d_vm_pushn_lem vm xs (suc n) h lt = elim (Bool-cases (leb vm.stack_size (vm.top + suc n))) [
  | inl full ↦
      let size = (vm.top + suc n) * 3 / 2 in
      let cells = resize vm.fresh size vm.cells in
      let le = leb→le _ _ full in
      Gives-eq
        (pushn_full vm (suc n) size h.live refl le (omega arith) lt
          ∙ ap (λ t. finish_pushn (with_stack vm cells size t) (suc n)) h.count)
        (pushn_room vm cells size (suc n) xs
          (resize-Block vm.fresh size xs h.block (omega (arith, h.count))
            (omega (arith, h.block.enough)))
          (omega (arith, h.count)))
  | inr room ↦
      let lt' = leb_false→lt _ _ room in
      Gives-eq
        (pushn_open vm (suc n) lt' (omega arith) lt
          ∙ ap (λ t. finish_pushn (with_stack vm vm.cells vm.stack_size t) (suc n)) h.count)
        (pushn_room vm vm.cells vm.stack_size (suc n) xs h.block (omega (arith, h.count)))
]

-- More cells than a block can have are undefined behaviour.
pub pushn_large : (vm : Vm) (n : ℕ) → max_cells ≤ n → d_vm_pushn vm n ≡ none
unfolding d_vm_pushn
pushn_large vm n le = simp (pos→==_false n (omega arith), le→leb max_cells n le)
