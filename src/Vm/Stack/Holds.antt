-- ===== src/Vm/Stack/Holds.antt =====
-- The abstract stack: a VM holds a list, its bottom first. The block that stores it has free cells
-- above the top, and its size follows the growth and the shrinking of src/dvm.c.
use mathlib.Core.List.{append_assoc}
use decision.Prelude.{
  ℕ, ◌-◌, ◌≤◌, ◌<◌, ◌≡◌, refl, sym, ap, ◌∙◌, true, List, [], ◌∷◌, ◌++◌, Option, some, length, take,
  set, replicate, arith, length-append, length-drop, length-replicate, length-set, set-append,
  lt→ltb, length-take_add, take-append_add,
}
use decision.Vm.State.{Vm, resize, set_stack_size_to}
use decision.Vm.Stack.{store_cell}

-- A block of `size` cells with `xs` at its bottom.
pub record Block (cells : List ℕ) (size : ℕ) (xs : List ℕ) : Type 0 where
  pub rest : List ℕ
  pub split : cells ≡ xs ++ rest
  pub full : size ≡ length cells
  pub enough : 16 ≤ size

pub record Holds (vm : Vm) (xs : List ℕ) : Type 0 where
  pub live : vm.allocated ≡ true
  pub block : Block vm.cells vm.stack_size xs
  pub count : vm.top ≡ length xs

-- The VM with another block and top, and all else as it was.
abbrev pub with_stack : Vm → List ℕ → ℕ → ℕ → Vm
with_stack vm cells size top = record vm { cells = cells; stack_size = size; top = top }

-- `r` is the VM `vm`, but that its stack is now `ys`.
pub record Gives (vm : Vm) (r : Option Vm) (ys : List ℕ) : Type 0 where
  pub cells : List ℕ
  pub size : ℕ
  pub returns : r ≡ some (with_stack vm cells size (length ys))
  pub block : Block cells size ys

pub Gives-eq : {vm : Vm} {r r' : Option Vm} {ys : List ℕ} → r ≡ r' → Gives vm r' ys → Gives vm r ys
Gives-eq e g = record { cells = g.cells; size = g.size; returns = e ∙ g.returns; block = g.block }

pub Gives-Holds :
    {vm : Vm} {r : Option Vm} {ys : List ℕ}
    → vm.allocated ≡ true
    → (g : Gives vm r ys) → Holds (with_stack vm g.cells g.size (length ys)) ys
Gives-Holds live g = record { live = live; block = g.block; count = refl }

pub length-resize : (fresh n : ℕ) (cells : List ℕ) → length (resize fresh n cells) ≡ n
unfolding resize
length-resize fresh n cells = omega (
  arith,
  length-append (take n cells) (replicate (n - length cells) fresh),
  length-replicate (n - length cells) fresh,
  length-take_add n cells,
)

-- A block that is cut or extended keeps the cells below the new size.
pub resize-Block :
    (fresh n : ℕ) {cells : List ℕ} {size : ℕ} (xs : List ℕ)
    → Block cells size xs
    → length xs ≤ n
    → 16 ≤ n
    → Block (resize fresh n cells) n xs
unfolding resize
resize-Block fresh n {cells} xs b le lo = record {
  rest = take (n - length xs) b.rest ++ replicate (n - length cells) fresh;
  split =
      rw (b.split, take-append_add n (n - length xs) xs b.rest (omega arith)) (append_assoc xs _ _);
  full = sym (length-resize fresh n cells);
  enough = lo;
}

pub set_stack_size_to_lem :
    (vm : Vm) (n : ℕ)
    → vm.allocated ≡ true
    → set_stack_size_to vm n ≡ with_stack vm (resize vm.fresh n vm.cells) n vm.top
unfolding set_stack_size_to
set_stack_size_to_lem vm n live = ground arith

ruleset list_lengths =
    (arith, length-append, length-take_add, length-drop, length-replicate, length-set)

-- Where the list does not fill the block there is a next cell.
pub Block-next :
    {cells : List ℕ} {size : ℕ} (xs : List ℕ)
    → Block cells size xs
    → length xs < size
    → (y : ℕ) × (ys : List ℕ) × (cells ≡ xs ++ y ∷ ys)
Block-next {cells} {size} xs b lt = next b.rest b.split
  where
    next : (rest : List ℕ) → cells ≡ xs ++ rest → (y : ℕ) × (ys : List ℕ) × (cells ≡ xs ++ y ∷ ys)
    next [] e = absurd (omega (arith, b.full, ap length e, length-append xs []))
    next (y ∷ ys) e = (y, ys, e)

pub Block-le : {cells : List ℕ} {size : ℕ} (xs : List ℕ) → Block cells size xs → length xs ≤ size
Block-le xs b = omega (arith, b.full, ap length b.split, length-append xs b.rest)

-- Storing a value in the first free cell.
pub Block-store :
    (cells : List ℕ) (size : ℕ) (xs : List ℕ) (v : ℕ)
    → Block cells size xs
    → length xs < size
    → Block (set cells (length xs) v) size (xs ++ v ∷ [])
Block-store cells size xs v b lt =
    let (y, ys, e) = Block-next xs b lt in
    record {
      rest = ys;
      split = rw (e, set-append (length xs) xs y ys v refl) (sym (append_assoc xs (v ∷ []) ys));
      full = omega (arith, b.full, length-set cells (length xs) v);
      enough = b.enough;
    }

-- Cells given up at the top stay in the block as free ones.
pub Block-lower :
    {cells : List ℕ} {size : ℕ} (ys zs : List ℕ) → Block cells size (ys ++ zs) → Block cells size ys
Block-lower ys zs b = record {
  rest = zs ++ b.rest;
  split = b.split ∙ append_assoc ys zs b.rest;
  full = b.full;
  enough = b.enough;
}

-- `r` is the VM `vm` with a stack that holds `ys`, and this VM's own top.
pub keeps :
    (vm : Vm) (ys : List ℕ)
    → vm.top ≡ length ys
    → Block vm.cells vm.stack_size ys
    → Gives vm (some vm) ys
keeps vm ys e b = record {
  cells = vm.cells;
  size = vm.stack_size;
  returns = ap (λ n. some (with_stack vm vm.cells vm.stack_size n)) e;
  block = b;
}

pub store_cell_lem :
    (vm : Vm) (i v : ℕ)
    → i < length vm.cells
    → store_cell vm i v ≡ some (record vm { cells = set vm.cells i v })
unfolding store_cell
store_cell_lem vm i v h = rw (lt→ltb i (length vm.cells) h)
