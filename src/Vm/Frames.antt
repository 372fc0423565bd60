-- ===== src/Vm/Frames.antt =====
-- Stack frames: what the call and return instructions of src/dvm.c do to the list on the stack,
-- by the calling and returning procedures of docs/developer/source/the_virtual_machine/index.rst.
use mathlib.Core.Path.{subst₂}
use mathlib.Core.List.{append_assoc}
use decision.Prelude.{
  ℕ, ◌+◌, ◌-◌, ◌≤◌, ◌<◌, ◌≡◌, refl, sym, ap, ◌∙◌, subst, Bool, true, List, [], ◌∷◌, ◌++◌, Option,
  some, ◌>>=◌, length, ◌==◌, arith, length-append, length-two, bind-some, if_true, if_false, le→leb,
  le→ltb_false, pos→==_false, add_word, word_mod,
}
use decision.Vm.State.{Vm}
use decision.Vm.Stack.{get_stack}
use decision.Vm.Opcode.{DIns, ins_size}
use decision.Vm.Memory.{get_count}
use decision.Vm.Macros.{Jump, offset_of, frame_at, below_top, call_generic, call_1_0}
use decision.Vm.Calls.{num_return_values, leave_frame, ret}
use decision.Vm.Stack.Holds.{Block, Holds, with_stack, Gives, Gives-eq, Gives-Holds, Block-lower}
use decision.Vm.Stack.Access.{load_cell_lem, store_lem, get_stack_lem}
use decision.Vm.Stack.Move.{gap, length-gap, insert_len_lem, remove_len_lem}

-- The VM at another program counter and frame, about to go on from there.
abbrev pub entering : Vm → ℕ → ℕ → Vm
entering vm pc frame = record vm { pc = pc; frame = frame; inc_pc = 0 }

below_top_lem :
    (vm : Vm) (ys args : List ℕ)
    → Holds vm (ys ++ args)
    → below_top vm (length args) ≡ some (length ys)
unfolding below_top
below_top_lem vm ys args h =
    let e = h.count ∙ length-append ys args in
    if_true _ _ (le→leb (length args) vm.top (omega (arith, e))) ∙ ap some (omega (arith, e))

-- A call puts the caller's frame and the return address under its `num_arguments` arguments, and
-- enters the target with the frame pointer at the return address.
pub call_generic_lem :
    (op : DIns) (jump : Jump) (new_pc : Vm → Option ℕ) (offset target : ℕ) (vm : Vm)
    (ys args : List ℕ)
    → Holds vm (ys ++ args)
    → get_count vm offset ≡ some (length args)
    → new_pc vm ≡ some target
    → Gives
        (entering vm (jump vm.pc target) (length ys + 2))
        (call_generic op jump new_pc offset vm)
        (ys ++ offset_of vm.frame ∷ add_word vm.pc (ins_size op) ∷ args)
unfolding call_generic
call_generic_lem op jump new_pc offset target vm ys args h count new =
    let vm₀ = record vm { pc = jump vm.pc target } in
    let h₀ : Holds vm₀ (ys ++ args) = record { live = h.live; block = h.block; count = h.count } in
    let saved = offset_of vm.frame in
    let return_adr = add_word vm.pc (ins_size op) in
    let g₁ = insert_len_lem vm₀ ys args (length ys) 2 (length args) h₀ refl refl (omega arith) in
    let (a, b, e) = length-two (gap 2 args) (length-gap 2 args) in
    let v₁ = with_stack vm₀ g₁.cells g₁.size (length (ys ++ gap 2 args ++ args)) in
    let h₁ : Holds v₁ (ys ++ a ∷ b ∷ args) =
      subst (Holds v₁) (ap (λ t. ys ++ t ++ args) e ∙ append_assoc ys (a ∷ b ∷ []) args)
        (Gives-Holds h.live g₁) in
    let g₂ = store_lem v₁ ys a (b ∷ args) h₁ (length ys) saved refl in
    let v₂ = with_stack v₁ g₂.cells g₂.size (length (ys ++ saved ∷ b ∷ args)) in
    let h₂ : Holds v₂ (ys ++ saved ∷ [] ++ b ∷ args) =
      subst (Holds v₂) (sym (append_assoc ys (saved ∷ []) (b ∷ args))) (Gives-Holds h.live g₂) in
    let g₃ =
      store_lem v₂ (ys ++ saved ∷ []) b args h₂ (length ys + 1) return_adr
        (sym (length-append ys (saved ∷ []))) in
    let regroup = append_assoc ys (saved ∷ []) (return_adr ∷ args) in
    record {
      cells = g₃.cells;
      size = g₃.size;
      returns = bind-some _ _ count (
          bind-some _ _ new (
            bind-some _ _ (below_top_lem vm ys args h) (
              bind-some _ _ g₁.returns (
                bind-some _ _ g₂.returns (
                  bind-some _ _ g₃.returns (
                    ap
                      (λ t. some (
                        with_stack (entering vm (jump vm.pc target) (length ys + 2)) g₃.cells
                          g₃.size (length t)))
                      regroup))))));
      block = subst (Block g₃.cells g₃.size) regroup g₃.block;
    }

-- The callee's view of its frame: under `body` and the return values `rets` lie the return
-- address, at the frame pointer, and the caller's frame.
module _ (vm : Vm) (ys : List ℕ) (saved return_adr : ℕ) (body rets : List ℕ)
    (h : Holds vm (ys ++ saved ∷ return_adr ∷ body ++ rets)) (at : vm.frame ≡ length ys + 2) where
  h_saved : Holds vm (ys ++ saved ∷ return_adr ∷ (body ++ rets))
  h_saved = subst (Holds vm) (append_assoc ys (saved ∷ return_adr ∷ body) rets) h

  h_return : Holds vm (ys ++ saved ∷ [] ++ return_adr ∷ (body ++ rets))
  h_return =
      subst (Holds vm) (sym (append_assoc ys (saved ∷ []) (return_adr ∷ (body ++ rets)))) h_saved

  all_length : vm.top ≡ length ys + (length body + 2) + length rets
  all_length = omega (
    arith,
    h.count,
    length-append (ys ++ saved ∷ return_adr ∷ body) rets,
    length-append ys (saved ∷ return_adr ∷ body),
  )

  -- A return goes to the return address and the caller's frame, and leaves the `num_return_values`
  -- topmost values in place of the frame.
  pub leave_frame_lem :
      (frame : ℕ)
      → frame_at vm saved ≡ some frame
      → Gives (entering vm return_adr frame) (leave_frame vm (length rets)) (ys ++ rets)
  unfolding leave_frame
  leave_frame_lem frame e =
      let ptr : vm.frame - 2 ≡ length ys = omega (arith, at) in
      let vm₁ = record vm { pc = return_adr; frame = frame } in
      let h₁ : Holds vm₁ (ys ++ saved ∷ return_adr ∷ body ++ rets) = record {
        live = h.live;
        block = h.block;
        count = h.count;
      } in
      let len = vm.top - (vm.frame - 2) - length rets in
      let g =
        remove_len_lem vm₁ ys (saved ∷ return_adr ∷ body) rets (vm.frame - 2) len (length rets) h₁
          ptr (omega (arith, all_length, at)) refl in
      record {
        cells = g.cells;
        size = g.size;
        returns =
            bind-some _ _
              (load_cell_lem vm (ys ++ saved ∷ []) return_adr (body ++ rets) h_return (vm.frame - 1)
                (omega (arith, at, length-append ys (saved ∷ []))))
              (bind-some _ _ (if_false _ _ (le→ltb_false vm.frame 2 (omega (arith, at)))) (
                bind-some _ _
                  (load_cell_lem vm ys saved (return_adr ∷ (body ++ rets)) h_saved (vm.frame - 2)
                    ptr)
                  (bind-some _ _ e (
                    bind-some _ _
                      (if_true _ _ (
                        le→leb (vm.frame - 2 + length rets) vm.top (omega (arith, all_length, at))))
                      (bind-some _ _ g.returns refl)))));
        block = g.block;
      }

  pub ret_lem :
      (frame : ℕ) (retn : Bool)
      → frame_at vm saved ≡ some frame
      → num_return_values retn vm ≡ some (length rets)
      → Gives (entering vm return_adr frame) (ret retn vm) (ys ++ rets)
  unfolding ret
  ret_lem frame retn e count =
      Gives-eq (if_false _ _ (pos→==_false vm.frame (omega (arith, at))) ∙ bind-some _ _ count refl)
        (leave_frame_lem frame e)

-- The outermost frame has no caller: a return from it halts the machine and keeps the stack.
pub ret_outermost :
    (vm : Vm) (retn : Bool) → vm.frame ≡ 0 → ret retn vm ≡ some (record vm { halted = true })
unfolding ret
ret_outermost vm retn e = if_true {b = vm.frame == 0} _ _ (ground arith)

-- A frame pointer that is saved as an offset is found again.
pub frame_at-offset_of :
    (vm : Vm) (frame : ℕ)
    → frame ≤ vm.stack_size
    → vm.stack_size < word_mod
    → frame_at vm (offset_of frame) ≡ some frame
unfolding frame_at
frame_at-offset_of vm frame le lt = ground arith

-- CALLI, CALLRB, CALLRH, CALLRF and RETN together. The call enters the target with the frame
-- pointer at the return address and the arguments just above it; whatever the callee then leaves in
-- its frame, the return goes back behind the call, to the caller's frame pointer, with the values
-- below the arguments untouched and the return values on top of them.
pub call-ret :
    (op : DIns) (jump : Jump) (new_pc : Vm → Option ℕ) (offset target : ℕ) (vm vm₂ : Vm)
    (ys args body rets : List ℕ)
    → Holds vm (ys ++ args)
    → get_count vm offset ≡ some (length args)
    → new_pc vm ≡ some target
    → Holds vm₂ (ys ++ offset_of vm.frame ∷ add_word vm.pc (ins_size op) ∷ body ++ rets)
    → vm₂.frame ≡ length ys + 2
    → vm.frame ≤ vm₂.stack_size
    → vm₂.stack_size < word_mod
    → num_return_values true vm₂ ≡ some (length rets)
    → Gives
        (entering vm (jump vm.pc target) (length ys + 2))
        (call_generic op jump new_pc offset vm)
        (ys ++ offset_of vm.frame ∷ add_word vm.pc (ins_size op) ∷ args)
      × Gives (entering vm₂ (add_word vm.pc (ins_size op)) vm.frame) (ret true vm₂) (ys ++ rets)
call-ret op jump new_pc offset target vm vm₂ ys args body rets h count new h₂ at le lt rcount = (
  call_generic_lem op jump new_pc offset target vm ys args h count new,
  ret_lem vm₂ ys (offset_of vm.frame) (add_word vm.pc (ins_size op)) body rets h₂ at vm.frame true
      (frame_at-offset_of vm₂ vm.frame le lt) rcount,
)

-- The stack pointer moved down by hand.
drop_last :
    (vm : Vm) (r : Option Vm) (xs : List ℕ) (x : ℕ)
    → Gives vm r (xs ++ x ∷ [])
    → Gives vm (r >>= λ v. some (record v { top = v.top - 1 })) xs
drop_last vm r xs x g = record {
  cells = g.cells;
  size = g.size;
  returns =
      bind-some r _ g.returns (
        ap (λ n. some (with_stack vm g.cells g.size n)) (omega (arith, length-append xs (x ∷ []))));
  block = Block-lower xs (x ∷ []) g.block;
}

-- CALL and CALLR count the address on the top among the arguments: of `arg ∷ args` the first one
-- stays below the saved frame and the return address, and is not in the callee's frame.
pub call_1_0_lem :
    (op : DIns) (jump : Jump) (vm : Vm) (ys : List ℕ) (arg : ℕ) (args : List ℕ) (address : ℕ)
    → Holds vm (ys ++ arg ∷ (args ++ address ∷ []))
    → get_count vm 1 ≡ some (length (arg ∷ args))
    → Gives
        (entering vm (jump vm.pc address) (length ys + 3))
        (call_1_0 op jump vm)
        (ys ++ arg ∷ offset_of vm.frame ∷ add_word vm.pc (ins_size op) ∷ args)
unfolding call_1_0
call_1_0_lem op jump vm ys arg args address h count = drop_last _ _ _ address (
    subst₂
      (λ f t.
        Gives (entering vm (jump vm.pc address) f) (call_generic op jump (λ v. get_stack v 0) 1 vm)
          t)
      at regroup
      (call_generic_lem op jump (λ v. get_stack v 0) 1 address vm (ys ++ arg ∷ [])
        (args ++ address ∷ []) held counted found))
  where
    saved : ℕ
    saved = offset_of vm.frame

    return_adr : ℕ
    return_adr = add_word vm.pc (ins_size op)

    held : Holds vm (ys ++ arg ∷ [] ++ (args ++ address ∷ []))
    held = subst (Holds vm) (sym (append_assoc ys (arg ∷ []) (args ++ address ∷ []))) h

    counted : get_count vm 1 ≡ some (length (args ++ address ∷ []))
    counted = count ∙ ap some (omega (arith, length-append args (address ∷ [])))

    found : get_stack vm 0 ≡ some address
    found =
        get_stack_lem vm (ys ++ arg ∷ args) address []
          (subst (Holds vm) (sym (append_assoc ys (arg ∷ args) (address ∷ []))) h) 0 refl

    at : length (ys ++ arg ∷ []) + 2 ≡ length ys + 3
    at = omega (arith, length-append ys (arg ∷ []))

    regroup :
        ys ++ arg ∷ [] ++ saved ∷ return_adr ∷ (args ++ address ∷ [])
        ≡ ys ++ arg ∷ saved ∷ return_adr ∷ args ++ address ∷ []
    regroup =
        append_assoc ys (arg ∷ []) (saved ∷ return_adr ∷ (args ++ address ∷ []))
        ∙ sym (append_assoc ys (arg ∷ saved ∷ return_adr ∷ args) (address ∷ []))
