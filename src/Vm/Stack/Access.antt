-- ===== src/Vm/Stack/Access.antt =====
-- Reading and writing the cells of the list that a VM holds: the macros `VM_GET_STACK` and
-- `VM_GET_STACK_PTR`, and `d_vm_get` and `d_vm_set` of src/dvm.c.
use mathlib.Core.List.{append_assoc}
use decision.Prelude.{
  ℕ, suc, ◌+◌, ◌-◌, ◌≤◌, ◌<◌, ◌≡◌, refl, sym, ap, ◌∙◌, List, ◌∷◌, ◌++◌, some, ◌>>=◌, length,
  get_elem?, set, arith, length-append, length-set, get_elem?-append, set-append, lt→ltb, word_mod,
  int_min, if_true, ◌⊎◌,
}
use decision.Vm.State.{Vm}
use decision.Vm.Stack.{
  load_cell, store_cell, stack_ptr, index_ptr, get_stack, set_stack, d_vm_get, d_vm_set,
}
use decision.Vm.Stack.Holds.{Holds, with_stack, Gives, Gives-eq, store_cell_lem}

-- A signed index names the value with `below` values under it and `above` values over it: from the
-- top where it is not positive, and from the frame pointer where it is.
abbrev pub Names : ℕ → ℕ → ℕ → ℕ → Type 0
Names frame below above index =
    (index ≡ 0) × (above ≡ 0)
    ⊎ (int_min ≤ index) × (index < word_mod) × (index + above ≡ word_mod)
    ⊎ (0 < index) × (index < int_min) × (frame + index ≡ suc below)

module _ (vm : Vm) (ys : List ℕ) (v : ℕ) (zs : List ℕ) (h : Holds vm (ys ++ v ∷ zs)) where
  cells_eq : vm.cells ≡ ys ++ v ∷ (zs ++ h.block.rest)
  cells_eq = h.block.split ∙ append_assoc ys (v ∷ zs) h.block.rest

  top_eq : vm.top ≡ length ys + suc (length zs)
  top_eq = h.count ∙ length-append ys (v ∷ zs)

  pub load_cell_lem : (i : ℕ) → i ≡ length ys → load_cell vm i ≡ some v
  unfolding load_cell
  load_cell_lem i e =
      ap (λ c. get_elem? c i) cells_eq ∙ get_elem?-append i ys v (zs ++ h.block.rest) e

  in_block : length ys < length vm.cells
  in_block = omega (arith, ap length cells_eq, length-append ys (v ∷ (zs ++ h.block.rest)))

  pub store_lem : (i w : ℕ) → i ≡ length ys → Gives vm (store_cell vm i w) (ys ++ w ∷ zs)
  store_lem i w e = record {
    cells = set vm.cells i w;
    size = vm.stack_size;
    returns =
        store_cell_lem vm i w (omega (arith, in_block))
        ∙ ap (λ n. some (with_stack vm (set vm.cells i w) vm.stack_size n))
            (omega (arith, top_eq, length-append ys (w ∷ zs)));
    block = record {
      rest = h.block.rest;
      split =
          ap (λ c. set c i w) cells_eq
          ∙ set-append i ys v (zs ++ h.block.rest) w e
          ∙ sym (append_assoc ys (w ∷ zs) h.block.rest);
      full = omega (arith, h.block.full, length-set vm.cells i w);
      enough = h.block.enough;
    };
  }

  stack_ptr_lem : (depth : ℕ) → depth ≡ length zs → stack_ptr vm depth ≡ some (length ys)
  unfolding stack_ptr
  stack_ptr_lem depth e =
      if_true _ _ (lt→ltb depth vm.top (omega (arith, top_eq))) ∙ ap some (omega (arith, top_eq))

  -- `VM_GET_STACK(vm, -depth)` reads the value with `depth` values above it.
  pub get_stack_lem : (depth : ℕ) → depth ≡ length zs → get_stack vm depth ≡ some v
  unfolding get_stack
  get_stack_lem depth e =
      ap (λ r. r >>= λ i. load_cell vm i) (stack_ptr_lem depth e) ∙ load_cell_lem (length ys) refl

  -- `*VM_GET_STACK_PTR(vm, -depth) = w` replaces it.
  pub set_stack_lem :
      (depth w : ℕ) → depth ≡ length zs → Gives vm (set_stack vm depth w) (ys ++ w ∷ zs)
  unfolding set_stack
  set_stack_lem depth w e =
      Gives-eq (ap (λ r. r >>= λ i. store_cell vm i w) (stack_ptr_lem depth e))
        (store_lem (length ys) w refl)

  pub index_ptr_lem :
      (index : ℕ)
      → Names vm.frame (length ys) (length zs) index
      → index_ptr vm index ≡ some (length ys)
  unfolding index_ptr
  index_ptr_lem index n = ground (arith, n, stack_ptr_lem 0, stack_ptr_lem (word_mod - index))

  -- On a machine that holds a list, `d_vm_get` reads the value that the index names.
  pub d_vm_get_lem :
      (index : ℕ) → Names vm.frame (length ys) (length zs) index → d_vm_get vm index ≡ some v
  unfolding d_vm_get
  d_vm_get_lem index n =
      ap (λ r. r >>= λ i. load_cell vm i) (index_ptr_lem index n) ∙ load_cell_lem (length ys) refl

  -- On a machine that holds a list, `d_vm_set` replaces the value that the index names, and
  -- changes nothing but the stack.
  pub d_vm_set_lem :
      (index w : ℕ)
      → Names vm.frame (length ys) (length zs) index
      → Gives vm (d_vm_set vm index w) (ys ++ w ∷ zs)
  unfolding d_vm_set
  d_vm_set_lem index w n =
      Gives-eq (ap (λ r. r >>= λ i. store_cell vm i w) (index_ptr_lem index n))
        (store_lem (length ys) w refl)
