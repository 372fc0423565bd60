-- ===== src/Vm/Stack/Edit.antt =====
-- `d_vm_insert` and `d_vm_remove_len` of src/dvm.c, guards included, on the list that a VM holds.
use mathlib.Core.List.{append_assoc, append-nil}
use decision.Prelude.{
  ℕ, zero, suc, ◌-◌, ◌<◌, ◌≡◌, refl, sym, ap, ◌∙◌, subst, List, [], ◌∷◌, ◌++◌, Option, some, ◌>>=◌,
  length, take, drop, drop-nil, arith, length-append, length-drop, length-take_add,
  take-append-drop, lt→ltb, if_false, pos→==_false,
}
use decision.Vm.State.{Vm}
use decision.Vm.Stack.{
  get_stack, set_stack, d_vm_popn, insert_at, d_vm_insert, remove_at, d_vm_remove_len,
}
use decision.Vm.Stack.Holds.{Holds, with_stack, Gives, Gives-eq, Gives-Holds, keeps}
use decision.Vm.Stack.Push.{d_vm_push_lem}
use decision.Vm.Stack.Pop.{d_vm_popn_lem}
use decision.Vm.Stack.Access.{Names, index_ptr_lem, get_stack_lem, set_stack_lem}
use decision.Vm.Stack.Move.{insert_at_lem, remove_len_lem}

module _ (vm : Vm) where
  -- Two steps that each change only the stack, one after the other.
  pub Gives-bind :
      {r : Option Vm} {ys : List ℕ} (k : Vm → Option Vm) {zs : List ℕ}
      → (g : Gives vm r ys)
      → Gives
          (with_stack vm g.cells g.size (length ys))
          (k (with_stack vm g.cells g.size (length ys)))
          zs
      → Gives vm (r >>= k) zs
  Gives-bind k g s = record {
    cells = s.cells;
    size = s.size;
    returns = ap (λ r. r >>= k) g.returns ∙ s.returns;
    block = s.block;
  }

  module _ (ys : List ℕ) (z : ℕ) (zs : List ℕ) (h : Holds vm (ys ++ z ∷ zs)) where
    in_stack : length ys < vm.top
    in_stack = omega (arith, h.count, length-append ys (z ∷ zs))

    insert_index :
        (index value : ℕ)
        → 0 < index
        → Names vm.frame (length ys) (length zs) index
        → d_vm_insert vm index value ≡ insert_at vm (length ys) value
    unfolding d_vm_insert
    insert_index index value pos n = simp (
      pos→==_false index pos,
      index_ptr_lem vm ys z zs h index n,
      lt→ltb (length ys) vm.top in_stack,
    )

  insert_top :
      (ys : List ℕ) (z value : ℕ)
      → Holds vm (ys ++ z ∷ [])
      → Gives vm (d_vm_insert vm 0 value) (ys ++ value ∷ z ∷ [])
  unfolding d_vm_insert
  insert_top ys z value h =
      let g = d_vm_push_lem vm (ys ++ z ∷ []) 0 h in
      let v₁ = with_stack vm g.cells g.size (length (ys ++ z ∷ [] ++ 0 ∷ [])) in
      let h₁ = Gives-Holds h.live g in
      let s = set_stack_lem v₁ (ys ++ z ∷ []) 0 [] h₁ 0 z refl in
      let v₂ = with_stack v₁ s.cells s.size (length (ys ++ z ∷ [] ++ z ∷ [])) in
      let h₂ = subst (Holds v₂) (append_assoc ys (z ∷ []) (z ∷ [])) (Gives-Holds h.live s) in
      let read =
        get_stack_lem v₁ ys z (0 ∷ []) (subst (Holds v₁) (append_assoc ys (z ∷ []) (0 ∷ [])) h₁) 1
          refl in
      let t = set_stack_lem v₂ ys z (z ∷ []) h₂ 1 value refl in
      record {
        cells = t.cells;
        size = t.size;
        returns =
            ap (λ r. r >>= λ v. get_stack v 1 >>= λ b. set_stack v 0 b >>= λ w. set_stack w 1 value)
              g.returns
            ∙ ap (λ r. r >>= λ b. set_stack v₁ 0 b >>= λ w. set_stack w 1 value) read
            ∙ ap (λ r. r >>= λ w. set_stack w 1 value) s.returns
            ∙ t.returns;
        block = t.block;
      }

  -- On a machine that holds a list, `d_vm_insert` puts the value under the one that the index
  -- names, whose values above stay in order, and changes nothing but the stack.
  pub d_vm_insert_lem :
      (ys : List ℕ) (z : ℕ) (zs : List ℕ) (index value : ℕ)
      → Holds vm (ys ++ z ∷ zs)
      → Names vm.frame (length ys) (length zs) index
      → Gives vm (d_vm_insert vm index value) (ys ++ value ∷ z ∷ zs)
  d_vm_insert_lem ys z [] zero value h n = insert_top ys z value h
  d_vm_insert_lem ys z (x ∷ zs) zero value h n = absurd (omega (arith, n))
  d_vm_insert_lem ys z zs (suc index) value h n =
      Gives-eq (insert_index ys z zs h (suc index) value (omega arith) n)
        (insert_at_lem vm ys z zs value h)

  remove_index :
      (ys : List ℕ) (z : ℕ) (zs : List ℕ) (h : Holds vm (ys ++ z ∷ zs)) (index len : ℕ)
      → 0 < index
      → Names vm.frame (length ys) (length zs) index
      → d_vm_remove_len vm index (suc len) ≡ remove_at vm (length ys) (suc len)
  unfolding d_vm_remove_len
  remove_index ys z zs h index len pos n = simp (
    pos→==_false index pos,
    pos→==_false (suc len) (omega arith),
    index_ptr_lem vm ys z zs h index n,
    lt→ltb (length ys) vm.top (in_stack ys z zs h),
  )

  remove_at_lem :
      (ys ws : List ℕ) (len : ℕ)
      → Holds vm (ys ++ ws)
      → Gives vm (remove_at vm (length ys) len) (ys ++ drop len ws)
  unfolding remove_at
  remove_at_lem ys ws len h =
      let max : vm.top - length ys ≡ length ws = omega (arith, h.count, length-append ys ws) in
      let split =
        subst (Holds vm)
          (ap (λ t. ys ++ t) (sym (take-append-drop len ws)) ∙ sym (append_assoc ys _ _)) h in
      remove_len_lem vm ys (take len ws) (drop len ws) (length ys) _ _ split refl
        (ground (arith, length-take_add len ws, max)) (ground (arith, length-drop len ws, max))

  -- On a machine that holds a list, `d_vm_remove_len` takes out the value that the index names
  -- and those over it, `len` in all or as many as there are, and changes nothing but the stack.
  pub d_vm_remove_len_lem :
      (ys : List ℕ) (z : ℕ) (zs : List ℕ) (index len : ℕ)
      → Holds vm (ys ++ z ∷ zs)
      → Names vm.frame (length ys) (length zs) index
      → Gives vm (d_vm_remove_len vm index len) (ys ++ drop len (z ∷ zs))
  unfolding d_vm_remove_len
  d_vm_remove_len_lem ys z zs index zero h n = keeps vm (ys ++ z ∷ zs) h.count h.block
  d_vm_remove_len_lem ys z [] zero (suc len) h n =
      Gives-eq (if_false _ _ (pos→==_false (suc len) (omega arith))) (
        subst (Gives vm (some (d_vm_popn vm 1)))
          (sym (ap (λ t. ys ++ t) (drop-nil len) ∙ append-nil ys))
          (d_vm_popn_lem vm ys (z ∷ []) 1 h (ground (arith, in_stack ys z [] h))))
  d_vm_remove_len_lem ys z (x ∷ zs) zero (suc len) h n = absurd (omega (arith, n))
  d_vm_remove_len_lem ys z zs (suc index) (suc len) h n =
      Gives-eq (remove_index ys z zs h (suc index) len (omega arith) n)
        (remove_at_lem ys (z ∷ zs) (suc len) h)
