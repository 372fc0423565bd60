-- ===== src/Vm/Stack/Move.antt =====
-- Inserting into and removing from the list that a VM holds: the macros `VM_INSERT_LEN` and
-- `VM_REMOVE_LEN`, and `d_vm_insert` and `d_vm_remove_len` of src/dvm.c.
use mathlib.Core.Path.{ap₂}
use mathlib.Core.List.{append_assoc}
use decision.Prelude.{
  ℕ, zero, ◌+◌, ◌-◌, ◌≤◌, ◌<◌, ◌≡◌, refl, sym, ap, ap₃, ◌∙◌, subst, List, [], ◌∷◌, ◌++◌, some,
  ◌>>=◌, length, take, drop, replicate, ltb, if◌then◌else◌, arith, length-append, length-take,
  length-drop, length-replicate, take-append, take-append_add, drop-append, take-append-drop,
  take-append_le, le→leb, if_false, le→ltb_false,
}
use decision.Vm.State.{Vm}
use decision.Vm.Stack.{
  move_cells, insert_len, insert_at, remove_len, store_cell, max_cells, d_vm_popn,
}
use decision.Vm.Stack.Holds.{Holds, with_stack, Gives, Gives-Holds}
use decision.Vm.Stack.Push.{d_vm_pushn_lem}
use decision.Vm.Stack.Pop.{d_vm_popn_lem}
use decision.Vm.Stack.Access.{store_lem}

move_cells_lem :
    (cells : List ℕ) (dst src n : ℕ)
    → dst + n ≤ length cells
    → src + n ≤ length cells
    → move_cells cells dst src n
      ≡ some (take dst cells ++ take n (drop src cells) ++ drop (dst + n) cells)
unfolding move_cells
move_cells_lem cells dst src n hd hs =
    simp (le→leb (dst + n) (length cells) hd, le→leb (src + n) (length cells) hs)

-- What an insertion leaves between the two halves, to be overwritten.
abbrev pub gap : ℕ → List ℕ → List ℕ
gap len zs = take len (zs ++ replicate len 0)

pub length-gap : (len : ℕ) (zs : List ℕ) → length (gap len zs) ≡ len
length-gap len zs =
    length-take len (zs ++ replicate len 0)
      (omega (arith, length-append zs (replicate len 0), length-replicate len (zero)))

-- The move up: the block holds `ys`, `zs` and `len` zeros, and `zs` moves over the zeros.
module _ (cells ys zs rest : List ℕ) (len : ℕ)
    (e : cells ≡ ys ++ zs ++ replicate len 0 ++ rest) where
  up_eq : cells ≡ ys ++ ((zs ++ replicate len 0) ++ rest)
  up_eq =
      e
      ∙ ap (λ t. t ++ rest) (append_assoc ys zs (replicate len 0))
      ∙ append_assoc ys (zs ++ replicate len 0) rest

  up_length : length cells ≡ length ys + length zs + len + length rest
  up_length = omega (
    arith,
    ap length e,
    length-append (ys ++ zs ++ replicate len 0) rest,
    length-append (ys ++ zs) (replicate len 0),
    length-append ys zs,
    length-replicate len (zero),
  )

  move_up :
      move_cells cells (length ys + len) (length ys) (length zs)
      ≡ some (ys ++ gap len zs ++ zs ++ rest)
  move_up =
      move_cells_lem cells (length ys + len) (length ys) (length zs) (omega (arith, up_length))
        (omega (arith, up_length))
      ∙ ap₃ (λ a b c. some (a ++ b ++ c))
          (ap (take (length ys + len)) up_eq
            ∙ take-append_add (length ys + len) len ys ((zs ++ replicate len 0) ++ rest) refl
            ∙ ap (λ t. ys ++ t) (take-append_le len (zs ++ replicate len 0) rest fits))
          (ap (λ t. take (length zs) (drop (length ys) t)) up_eq
            ∙ ap (take (length zs))
                (drop-append (length ys) ys ((zs ++ replicate len 0) ++ rest) refl)
            ∙ ap (take (length zs)) (append_assoc zs (replicate len 0) rest)
            ∙ take-append (length zs) zs (replicate len 0 ++ rest) refl)
          (ap (drop (length ys + len + length zs)) e
            ∙ drop-append (length ys + len + length zs) (ys ++ zs ++ replicate len 0) rest
                all_length)
    where
      fits : len ≤ length (zs ++ replicate len 0)
      fits = omega (arith, length-append zs (replicate len 0), length-replicate len (zero))

      all_length : length ys + len + length zs ≡ length (ys ++ zs ++ replicate len 0)
      all_length = omega (
        arith,
        length-append (ys ++ zs) (replicate len 0),
        length-append ys zs,
        length-replicate len (zero),
      )

-- `VM_INSERT_LEN` opens a gap of `len` cells below the `num_move` topmost values.
pub insert_len_lem :
    (vm : Vm) (ys zs : List ℕ) (base_index len num_move : ℕ)
    → Holds vm (ys ++ zs)
    → base_index ≡ length ys
    → num_move ≡ length zs
    → len < max_cells
    → Gives vm (insert_len vm base_index len num_move) (ys ++ gap len zs ++ zs)
unfolding insert_len
insert_len_lem vm ys zs base_index len num_move h eb em lt =
    let g = d_vm_pushn_lem vm (ys ++ zs) len h lt in
    let rest = g.block.rest in
    let moved =
      ap₂ (λ b m. move_cells g.cells (b + len) b m) eb em
      ∙ move_up g.cells ys zs rest len g.block.split in
    let same_length : length (ys ++ zs ++ replicate len 0) ≡ length (ys ++ gap len zs ++ zs) =
      omega (
        arith,
        length-append (ys ++ zs) (replicate len 0),
        length-append ys zs,
        length-replicate len (zero),
        length-append (ys ++ gap len zs) zs,
        length-append ys (gap len zs),
        length-gap len zs,
      ) in
    record {
      cells = ys ++ gap len zs ++ zs ++ rest;
      size = g.size;
      returns =
          ap
            (λ r. r >>= λ (v : Vm).
              move_cells v.cells (base_index + len) base_index num_move >>= λ c.
              some (record v { cells = c }))
            g.returns
          ∙ ap
              (λ r. r >>= λ c. some (with_stack vm c g.size (length (ys ++ zs ++ replicate len 0))))
              moved
          ∙ ap (λ n. some (with_stack vm (ys ++ gap len zs ++ zs ++ rest) g.size n)) same_length;
      block = record {
        rest = rest;
        split = refl;
        full = omega (
          arith,
          g.block.full,
          ap length g.block.split,
          same_length,
          length-append (ys ++ zs ++ replicate len 0) rest,
          length-append (ys ++ gap len zs ++ zs) rest,
        );
        enough = g.block.enough;
      };
    }

-- Past the guards `d_vm_insert` puts the value between the two halves.
pub insert_at_lem :
    (vm : Vm) (ys : List ℕ) (z : ℕ) (zs : List ℕ) (value : ℕ)
    → Holds vm (ys ++ z ∷ zs)
    → Gives vm (insert_at vm (length ys) value) (ys ++ value ∷ z ∷ zs)
unfolding insert_at
insert_at_lem vm ys z zs value h =
    let count : vm.top - length ys ≡ length (z ∷ zs) =
      omega (arith, h.count, length-append ys (z ∷ zs)) in
    let g =
      insert_len_lem vm ys (z ∷ zs) (length ys) 1 (vm.top - length ys) h refl count (omega arith) in
    let held =
      subst (Holds (with_stack vm g.cells g.size (length (ys ++ z ∷ [] ++ z ∷ zs))))
        (append_assoc ys (z ∷ []) (z ∷ zs)) (Gives-Holds h.live g) in
    let s = store_lem _ ys z (z ∷ zs) held (length ys) value refl in
    record {
      cells = s.cells;
      size = s.size;
      returns = ap (λ r. r >>= λ v. store_cell v (length ys) value) g.returns ∙ s.returns;
      block = s.block;
    }

-- The move down of a removal.
module _ (cells ys ws zs rest : List ℕ) (e : cells ≡ ys ++ ws ++ zs ++ rest) where
  down_length : length cells ≡ length ys + length ws + length zs + length rest
  down_length = omega (
    arith,
    ap length e,
    length-append (ys ++ ws ++ zs) rest,
    length-append (ys ++ ws) zs,
    length-append ys ws,
  )

  move_down :
      move_cells cells (length ys) (length ys + length ws) (length zs)
      ≡ some (ys ++ zs ++ drop (length ys + length zs) cells)
  move_down =
      move_cells_lem cells (length ys) (length ys + length ws) (length zs)
        (omega (arith, down_length)) (omega (arith, down_length))
      ∙ ap₂ (λ a b. some (a ++ b ++ drop (length ys + length zs) cells))
          (ap (take (length ys))
              (e ∙ append_assoc (ys ++ ws) zs rest ∙ append_assoc ys ws (zs ++ rest))
            ∙ take-append (length ys) ys (ws ++ (zs ++ rest)) refl)
          (ap (λ t. take (length zs) (drop (length ys + length ws) t))
              (e ∙ append_assoc (ys ++ ws) zs rest)
            ∙ ap (take (length zs)) (
                drop-append (length ys + length ws) (ys ++ ws) (zs ++ rest)
                  (sym (length-append ys ws)))
            ∙ take-append (length zs) zs rest refl)

-- `VM_REMOVE_LEN` takes `ws` out from under the `num_move` topmost values.
pub remove_len_lem :
    (vm : Vm) (ys ws zs : List ℕ) (i len num_move : ℕ)
    → Holds vm (ys ++ ws ++ zs)
    → i ≡ length ys
    → len ≡ length ws
    → num_move ≡ length zs
    → Gives vm (remove_len vm i len num_move) (ys ++ zs)
unfolding remove_len
remove_len_lem vm ys ws zs i len num_move h ei el em =
    let cells = vm.cells in
    let tail = drop (length ys + length zs) cells in
    let free = drop (length ws) tail in
    let moved =
      ap₃ (λ a b c. move_cells cells a (a + b) c) ei el em
      ∙ move_down cells ys ws zs h.block.rest h.block.split in
    let size = down_length cells ys ws zs h.block.rest h.block.split in
    let tail_length = length-drop (length ys + length zs) cells in
    let count : vm.top ≡ length ys + length ws + length zs =
      omega (arith, h.count, length-append (ys ++ ws) zs, length-append ys ws) in
    let cut : length (take (length ws) tail) ≡ length ws =
      length-take (length ws) tail (omega (arith, size, tail_length)) in
    let held : Holds (record vm { cells = ys ++ zs ++ tail }) (ys ++ zs ++ take (length ws) tail) =
      record {
        live = h.live;
        block = record {
          rest = free;
          split =
              ap (λ t. ys ++ zs ++ t) (sym (take-append-drop (length ws) tail))
              ∙ sym (append_assoc (ys ++ zs) (take (length ws) tail) free);
          full = omega (
            arith,
            h.block.full,
            size,
            tail_length,
            length-append (ys ++ zs) tail,
            length-append ys zs,
          );
          enough = h.block.enough;
        };
        count = omega (
          arith,
          count,
          cut,
          length-append (ys ++ zs) (take (length ws) tail),
          length-append ys zs,
        );
      } in
    let popped : length (take (length ws) tail) ≡ (if ltb vm.top len then vm.top else len) =
      cut ∙ sym el ∙ sym (if_false _ _ (le→ltb_false vm.top len (omega (arith, count)))) in
    let g =
      d_vm_popn_lem (record vm { cells = ys ++ zs ++ tail }) (ys ++ zs) (take (length ws) tail) len
        held popped in
    record {
      cells = g.cells;
      size = g.size;
      returns =
          ap (λ r. r >>= λ c. some (d_vm_popn (record vm { cells = c }) len)) moved ∙ g.returns;
      block = g.block;
    }
