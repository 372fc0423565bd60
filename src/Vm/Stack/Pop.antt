-- ===== src/Vm/Stack/Pop.antt =====
-- `d_vm_popn` and `d_vm_pop` of src/dvm.c on the list that a VM holds.
use decision.Prelude.{
  ℕ, zero, suc, ◌-◌, ◌/◌, ◌≤◌, ◌<◌, ◌≡◌, refl, ap, ◌∙◌, true, List, [], ◌∷◌, ◌++◌, some, length,
  ltb, if◌then◌else◌, arith, length-append, Bool-cases, lt→ltb, if_true, if_false, ltb→lt, inl, inr,
}
use decision.Vm.State.{Vm, resize, d_vm_top}
use decision.Vm.Stack.{decrease_stack_size, d_vm_popn}
use decision.Vm.Stack.Holds.{
  Holds, with_stack, Gives, Gives-eq, resize-Block, set_stack_size_to_lem, Block-lower, keeps,
}

decrease_eq :
    (vm : Vm) (n : ℕ)
    → vm.allocated ≡ true
    → 16 ≤ vm.stack_size
    → n ≡ (if ltb (vm.stack_size / 2) 16 then 16 else vm.stack_size / 2)
    → decrease_stack_size vm
      ≡ (if ltb n vm.stack_size then with_stack vm (resize vm.fresh n vm.cells) n vm.top else vm)
unfolding decrease_stack_size
decrease_eq vm n live lo e = simp (← e, set_stack_size_to_lem vm n live)

-- A shrink keeps the list, since it is only made where the list fits.
decrease_lem :
    (vm : Vm) (ys : List ℕ)
    → Holds vm ys
    → length ys < vm.stack_size / 2
    → Gives vm (some (decrease_stack_size vm)) ys
decrease_lem vm ys h lt =
    let n = if ltb (vm.stack_size / 2) 16 then 16 else vm.stack_size / 2 in
    let low : 16 ≤ n = ground arith in
    let fits : length ys ≤ n = ground arith in
    let e = decrease_eq vm n h.live h.block.enough refl in
    elim (Bool-cases (ltb n vm.stack_size)) [
      | inl smaller ↦ record {
        cells = resize vm.fresh n vm.cells;
        size = n;
        returns =
            ap some
              (e ∙ if_true _ _ smaller ∙ ap (with_stack vm (resize vm.fresh n vm.cells) n) h.count);
        block = resize-Block vm.fresh n ys h.block fits low;
      }
      | inr same ↦ Gives-eq (ap some (e ∙ if_false _ _ same)) (keeps vm ys h.count h.block)
    ]

-- The VM after the pointer has moved.
abbrev lowered : Vm → ℕ → Vm
lowered vm top = record vm { top = top }

popn_eq :
    (vm : Vm) (n m : ℕ)
    → vm.allocated ≡ true
    → 0 < n
    → m ≡ (if ltb vm.top n then vm.top else n)
    → d_vm_popn vm n ≡ (
        if ltb (vm.top - m) (vm.stack_size / 2)
        then decrease_stack_size (lowered vm (vm.top - m))
        else lowered vm (vm.top - m))
unfolding d_vm_popn d_vm_top
popn_eq vm n m live pos e = simp (live, lt→ltb 0 n pos, ← e)

-- On a machine that holds a list, `d_vm_popn` takes the `n` topmost values off it, or all of them
-- where there are fewer, and changes nothing but the stack.
pub d_vm_popn_lem :
    (vm : Vm) (ys zs : List ℕ) (n : ℕ)
    → Holds vm (ys ++ zs)
    → length zs ≡ (if ltb vm.top n then vm.top else n)
    → Gives vm (some (d_vm_popn vm n)) ys
unfolding d_vm_popn
d_vm_popn_lem vm ys [] zero h e =
    keeps vm ys (omega (arith, h.count, length-append ys [])) (Block-lower ys [] h.block)
d_vm_popn_lem vm ys (z ∷ zs) zero h e = absurd (ground arith)
d_vm_popn_lem vm ys zs (suc n) h e =
    let top : vm.top - length zs ≡ length ys = omega (arith, h.count, length-append ys zs) in
    let low = lowered vm (vm.top - length zs) in
    let block = Block-lower ys zs h.block in
    let eq = popn_eq vm (suc n) (length zs) h.live (omega arith) e in
    elim (Bool-cases (ltb (vm.top - length zs) (vm.stack_size / 2))) [
      | inl small ↦
          let g =
            decrease_lem low ys (record { live = h.live; block = block; count = top })
              (omega (arith, ltb→lt _ _ small)) in
          record {
            cells = g.cells;
            size = g.size;
            returns = ap some (eq ∙ if_true _ _ small) ∙ g.returns;
            block = g.block;
          }
      | inr large ↦ record {
        cells = vm.cells;
        size = vm.stack_size;
        returns = ap some (eq ∙ if_false _ _ large ∙ ap (with_stack vm vm.cells vm.stack_size) top);
        block = block;
      }
    ]
