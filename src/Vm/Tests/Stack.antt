-- ===== src/Vm/Tests/Stack.antt =====
-- The theorems about opcodes and about the stack functions at concrete machines.
use decision.Prelude.{◌-◌, ◌≡◌, refl, [], ◌∷◌, some, inl, inr, arith, word_mod}
use decision.Vm.State.{Vm}
use decision.Vm.Stack.{
  d_vm_push, d_vm_pushn, d_vm_popn, d_vm_insert, d_vm_remove_len, d_vm_get, d_vm_set,
}
use decision.Vm.Stack.Holds.{Gives}
use decision.Vm.Stack.Push.{d_vm_push_lem, d_vm_pushn_lem}
use decision.Vm.Stack.Pop.{d_vm_popn_lem}
use decision.Vm.Stack.Access.{d_vm_get_lem, d_vm_set_lem}
use decision.Vm.Stack.Edit.{d_vm_insert_lem, d_vm_remove_len_lem}
use decision.Vm.Samples.{machine, machine-Holds}

abbrev three : Vm
three = machine [] (4 ∷ 5 ∷ 6 ∷ []) 0

-- A machine that is full, so that a push grows it.
abbrev full : Vm
full = machine [] (0 ∷ 1 ∷ 2 ∷ 3 ∷ 4 ∷ 5 ∷ 6 ∷ 7 ∷ 8 ∷ 9 ∷ 10 ∷ 11 ∷ 12 ∷ 13 ∷ 14 ∷ 15 ∷ []) 0

d_vm_push_lem_example :
    Gives full
      (d_vm_push full 16)
      (0 ∷ 1 ∷ 2 ∷ 3 ∷ 4 ∷ 5 ∷ 6 ∷ 7 ∷ 8 ∷ 9 ∷ 10 ∷ 11 ∷ 12 ∷ 13 ∷ 14 ∷ 15 ∷ 16 ∷ [])
d_vm_push_lem_example =
    d_vm_push_lem full (0 ∷ 1 ∷ 2 ∷ 3 ∷ 4 ∷ 5 ∷ 6 ∷ 7 ∷ 8 ∷ 9 ∷ 10 ∷ 11 ∷ 12 ∷ 13 ∷ 14 ∷ 15 ∷ []) 16
      (machine-Holds [] (0 ∷ 1 ∷ 2 ∷ 3 ∷ 4 ∷ 5 ∷ 6 ∷ 7 ∷ 8 ∷ 9 ∷ 10 ∷ 11 ∷ 12 ∷ 13 ∷ 14 ∷ 15 ∷ []) 0
        (omega arith))

d_vm_pushn_lem_example : Gives three (d_vm_pushn three 2) (4 ∷ 5 ∷ 6 ∷ 0 ∷ 0 ∷ [])
d_vm_pushn_lem_example =
    d_vm_pushn_lem three (4 ∷ 5 ∷ 6 ∷ []) 2 (machine-Holds [] (4 ∷ 5 ∷ 6 ∷ []) 0 (omega arith))
      (omega arith)

d_vm_popn_lem_example : Gives three (some (d_vm_popn three 2)) (4 ∷ [])
d_vm_popn_lem_example =
    d_vm_popn_lem three (4 ∷ []) (5 ∷ 6 ∷ []) 2 (machine-Holds [] (4 ∷ 5 ∷ 6 ∷ []) 0 (omega arith))
      refl

-- Index 2 from a frame at the bottom is the second value, and so is index -1 from the top.
d_vm_insert_lem_example : Gives three (d_vm_insert three 2 9) (4 ∷ 9 ∷ 5 ∷ 6 ∷ [])
d_vm_insert_lem_example =
    d_vm_insert_lem three (4 ∷ []) 5 (6 ∷ []) 2 9
      (machine-Holds [] (4 ∷ 5 ∷ 6 ∷ []) 0 (omega arith)) (inr (inr (omega arith)))

d_vm_remove_len_lem_example : Gives three (d_vm_remove_len three 1 2) (6 ∷ [])
d_vm_remove_len_lem_example =
    d_vm_remove_len_lem three [] 4 (5 ∷ 6 ∷ []) 1 2
      (machine-Holds [] (4 ∷ 5 ∷ 6 ∷ []) 0 (omega arith)) (inr (inr (omega arith)))

d_vm_get_lem_example : d_vm_get three (word_mod - 1) ≡ some 5
d_vm_get_lem_example =
    d_vm_get_lem three (4 ∷ []) 5 (6 ∷ []) (machine-Holds [] (4 ∷ 5 ∷ 6 ∷ []) 0 (omega arith))
      (word_mod - 1) (inr (inl (omega arith)))

d_vm_set_lem_example : Gives three (d_vm_set three (word_mod - 1) 7) (4 ∷ 7 ∷ 6 ∷ [])
d_vm_set_lem_example =
    d_vm_set_lem three (4 ∷ []) 5 (6 ∷ []) (machine-Holds [] (4 ∷ 5 ∷ 6 ∷ []) 0 (omega arith))
      (word_mod - 1) 7 (inr (inl (omega arith)))
