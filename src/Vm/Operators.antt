-- ===== src/Vm/Operators.antt =====
-- What the instructions with operators of src/dvm.c do to the list on the stack.
use Prim.Native.Nat.{bit_and, bit_or, bit_xor}
use mathlib.Core.List.{append_assoc}
use mathlib.Core.Option.{some_inj}
use decision.Prelude.{
  ap, ◌∙◌, Bool, false, ◌&&◌, ◌||◌, ◌⊎◌, inl, inr, if◌then◌else◌, if_true, if_false, Bool-cases,
  int_min, minus_one, div_word, ℕ, ◌≡◌, refl, sym, subst, List, [], ◌∷◌, ◌++◌, Option, none, some,
  length, ◌==◌, arith, length-append, bind-some, add_word, sub_word, mul_word, slt, sle,
}
use decision.Vm.State.{Vm, d_vm_runtime_error}
use decision.Vm.Opcode.{
  DIns, op_add, op_addf, op_and, op_ceq, op_ceqf, op_cleq, op_cleqf, op_clt, op_cltf, op_cmeq,
  op_cmeqf, op_cmt, op_cmtf, op_mod, op_mul, op_mulf, op_or, op_sub, op_subf, op_xor, op_div,
  op_divf,
}
use decision.Vm.Host.{Host}
use decision.Vm.Macros.{Operator, total, test, divide, modulo, op_2_1}
use decision.Vm.Step.{exec_call, exec_compare, exec_jump, exec_mod, exec_push}
use decision.Vm.Stack.Holds.{Holds, with_stack, Gives, Gives-eq, Gives-Holds}
use decision.Vm.Stack.Pop.{d_vm_popn_lem}
use decision.Vm.Stack.Access.{get_stack_lem, set_stack_lem}

-- The operators take the value on the top for their left side and the one below it for their
-- right side, and the result takes the place of both.
pub op_2_1_lem :
    (f : Operator) (vm : Vm) (ys : List ℕ) (b a v : ℕ)
    → Holds vm (ys ++ b ∷ a ∷ [])
    → f a b ≡ some v
    → Gives vm (op_2_1 f vm) (ys ++ v ∷ [])
unfolding op_2_1
op_2_1_lem f vm ys b a v h e =
    let top = subst (Holds vm) (sym (append_assoc ys (b ∷ []) (a ∷ []))) h in
    let s = set_stack_lem vm ys b (a ∷ []) h 1 v refl in
    let v₁ = with_stack vm s.cells s.size (length (ys ++ v ∷ a ∷ [])) in
    let held = subst (Holds v₁) (sym (append_assoc ys (v ∷ []) (a ∷ []))) (Gives-Holds h.live s) in
    let p =
      d_vm_popn_lem v₁ (ys ++ v ∷ []) (a ∷ []) 1 held
        (ground (arith, length-append ys (v ∷ a ∷ []))) in
    record {
      cells = p.cells;
      size = p.size;
      returns = bind-some _ _ (get_stack_lem vm (ys ++ b ∷ []) a [] top 0 refl) (
          bind-some _ _ (get_stack_lem vm ys b (a ∷ []) h 1 refl)
            (bind-some _ _ e (bind-some _ _ s.returns p.returns)));
      block = p.block;
    }

-- Division of floats, which is not made by zero.
abbrev pub float_divide : Host → Operator
float_divide host a b = if host.float_eq b 0 then none else some (host.float_div a b)

-- The operator that dvm.h gives an opcode with two operands on the stack.
abbrev pub meaning : Host → DIns → Option Operator
meaning host op_add = some (total add_word)
meaning host op_addf = some (total host.float_add)
meaning host op_and = some (total bit_and)
meaning host op_ceq = some (test ◌==◌)
meaning host op_ceqf = some (test host.float_eq)
meaning host op_cleq = some (test sle)
meaning host op_cleqf = some (test host.float_le)
meaning host op_clt = some (test slt)
meaning host op_cltf = some (test host.float_lt)
meaning host op_cmeq = some (test (λ a b. sle b a))
meaning host op_cmeqf = some (test (λ a b. host.float_le b a))
meaning host op_cmt = some (test (λ a b. slt b a))
meaning host op_cmtf = some (test (λ a b. host.float_lt b a))
meaning host op_div = some divide
meaning host op_divf = some (float_divide host)
meaning host op_mod = some modulo
meaning host op_mul = some (total mul_word)
meaning host op_mulf = some (total host.float_mul)
meaning host op_or = some (total bit_or)
meaning host op_sub = some (total sub_word)
meaning host op_subf = some (total host.float_sub)
meaning host op_xor = some (total bit_xor)
meaning host _ = none

-- The divisor of an operator that gives a value is not the one that the source stops at.
divide-some : (a b v : ℕ) → divide a b ≡ some v → (b == 0) ≡ false
unfolding divide
divide-some a b v e = elim (Bool-cases (b == 0)) [
  | inl t ↦ absurd (cc (e, ap (stop a b) t))
  | inr f ↦ f
]
  where
    stop : ℕ → ℕ → Bool → Option ℕ
    stop a b c = if c || a == int_min && b == minus_one then none else some (div_word a b)

float_divide-some :
    (host : Host) (a b v w : ℕ)
    → float_divide host a b ≡ some v
    → (host.float_eq b 0 ≡ false) × (total host.float_div a b ≡ some v)
float_divide-some host a b v w e = elim (Bool-cases (host.float_eq b 0)) [
  | inl t ↦ absurd (cc (sym (if_true none (some (host.float_div a b)) t) ∙ e))
  | inr f ↦ (f, sym (if_false none (some (host.float_div a b)) f) ∙ e)
]

-- DIV and DIVF test the divisor first.
div_lem :
    (host : Host) (vm : Vm) (ys : List ℕ) (b a v : ℕ)
    → Holds vm (ys ++ b ∷ a ∷ [])
    → divide a b ≡ some v
    → Gives vm (exec_call host op_div vm) (ys ++ v ∷ [])
unfolding exec_call exec_compare
div_lem host vm ys b a v h e =
    Gives-eq
      (bind-some _ _ (get_stack_lem vm ys b (a ∷ []) h 1 refl)
        (if_false (some (d_vm_runtime_error vm)) (op_2_1 divide vm) (divide-some a b v e)))
      (op_2_1_lem divide vm ys b a v h e)

divf_lem :
    (host : Host) (vm : Vm) (ys : List ℕ) (b a v : ℕ)
    → Holds vm (ys ++ b ∷ a ∷ [])
    → float_divide host a b ≡ some v
    → Gives vm (exec_call host op_divf vm) (ys ++ v ∷ [])
unfolding exec_call exec_compare
divf_lem host vm ys b a v h e =
    let (tested, given) = float_divide-some host a b v v e in
    Gives-eq
      (bind-some _ _ (get_stack_lem vm ys b (a ∷ []) h 1 refl)
        (if_false (some (d_vm_runtime_error vm)) (op_2_1 (total host.float_div) vm) tested))
      (op_2_1_lem (total host.float_div) vm ys b a v h given)

-- DIV and DIVF, or an opcode at which the switch runs `OP_2_1` at once.
exec-meaning :
    (host : Host) (op : DIns) (f : Operator) (vm : Vm)
    → meaning host op ≡ some f
    → ((op ≡ op_div) × (f ≡ divide))
      ⊎ ((op ≡ op_divf) × (f ≡ float_divide host))
      ⊎ (exec_call host op vm ≡ op_2_1 f vm)
unfolding exec_call exec_compare exec_jump exec_mod exec_push
exec-meaning host op_div f vm e = inl (refl, sym (some_inj.0 e))
exec-meaning host op_divf f vm e = inr (inl (refl, sym (some_inj.0 e)))
exec-meaning host _ f vm e = inr (inr (cc))

-- On a machine whose list ends in two operands, an instruction that has a meaning, which are all
-- those with an operator for two operands on the stack, replaces them by the value that this operator
-- gives for the top and the value below it, where it gives one, and changes nothing but the stack.
pub exec_operator :
    (host : Host) (op : DIns) (f : Operator) (vm : Vm) (ys : List ℕ) (b a v : ℕ)
    → meaning host op ≡ some f
    → Holds vm (ys ++ b ∷ a ∷ [])
    → f a b ≡ some v
    → Gives vm (exec_call host op vm) (ys ++ v ∷ [])
exec_operator host op f vm ys b a v m h e = elim (exec-meaning host op f vm m) [
  | inl (is_div, same) ↦
      subst (λ o. Gives vm (exec_call host o vm) (ys ++ v ∷ [])) (sym is_div)
        (div_lem host vm ys b a v h (ap (λ g. g a b) (sym same) ∙ e))
  | inr other ↦ elim other [
    | inl (is_divf, same) ↦
        subst (λ o. Gives vm (exec_call host o vm) (ys ++ v ∷ [])) (sym is_divf)
          (divf_lem host vm ys b a v h (ap (λ g. g a b) (sym same) ∙ e))
    | inr plain ↦ Gives-eq plain (op_2_1_lem f vm ys b a v h e)
  ]
]

-- With 0 for the divisor DIV stops with a runtime error and leaves the stack as it was, but MOD is
-- undefined behaviour: the source makes the test for division alone.
pub exec_zero_divisor :
    (host : Host) (vm : Vm) (ys : List ℕ) (a : ℕ)
    → Holds vm (ys ++ 0 ∷ a ∷ [])
    → (exec_call host op_div vm ≡ some (d_vm_runtime_error vm)) × (exec_call host op_mod vm ≡ none)
unfolding exec_call exec_compare exec_jump exec_mod op_2_1 modulo
exec_zero_divisor host vm ys a h =
    let top = subst (Holds vm) (sym (append_assoc ys (0 ∷ []) (a ∷ []))) h in
    let below = get_stack_lem vm ys 0 (a ∷ []) h 1 refl in
    (
      bind-some _ _ below refl,
      bind-some _ _ (get_stack_lem vm (ys ++ 0 ∷ []) a [] top 0 refl) (bind-some _ _ below refl),
    )
