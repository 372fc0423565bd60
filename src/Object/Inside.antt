-- ===== src/Object/Inside.antt =====
-- The readers of numbers, texts, sockets and definitions of src/dobj.c stay inside of the object.
use mathlib.Core.Option
use mathlib.Core.Option.{some_inj}
use decision.Prelude.{
  ℕ, zero, suc, ◌+◌, inl, inr, sym, ap, ◌∙◌, Bool, true, false, List, [], ◌∷◌, ◌++◌, ◌≡◌, none,
  Bool-cases, if_true, if_false, drop-append_le, some, drop, ◌==◌, if◌then◌else◌, Option-cases,
}
use decision.Dtype.{type_string}
use decision.Graph.{number_value}
use decision.Object.Reader.{
  Read, read_byte, read_string_n, strlen, length_ahead, read_string, read_uinteger, enumeration_of,
  read_default, read_name, read_socket_meta, read_sockets, read_definition,
}
use decision.Optimize.{read_number}
use decision.Object.Bounds.{
  Keeps, extended, stay-IsWithin, bind-Keeps, given, given_more, test-Keeps, pure-Keeps,
  test_ahead-Keeps, ahead-Keeps,
}

pub read_byte-Keeps : Keeps read_byte
unfolding read_byte
read_byte-Keeps = ahead-Keeps 1 (read_number 1) 0

pub read_string_n-Keeps : (n : ℕ) → Keeps (read_string_n n)
unfolding read_string_n
read_string_n-Keeps n = ahead-Keeps n some none

pub read_uinteger-Keeps : Keeps read_uinteger
unfolding read_uinteger
read_uinteger-Keeps = ahead-Keeps 8 (read_number 8) 0

strlen-extended : (xs more : List ℕ) (n : ℕ) → strlen xs ≡ some n → strlen (xs ++ more) ≡ some n
unfolding strlen
strlen-extended [] more n e = absurd (cc e)
strlen-extended (x ∷ xs) more n e = elim (Bool-cases (x == 0)) [
  | inl t ↦ if_true _ _ t ∙ sym (if_true _ _ t) ∙ e
  | inr f ↦ elim (Option-cases (strlen xs)) [
    | inl stuck ↦ absurd (cc (sym (if_false _ _ f ∙ ap (Option.map suc) stuck) ∙ e))
    | inr (k, found) ↦
        if_false _ _ f
        ∙ ap (Option.map suc) (strlen-extended xs more k found ∙ sym found)
        ∙ sym (if_false _ _ f)
        ∙ e
  ]
]

length_ahead-Keeps : Keeps length_ahead
unfolding length_ahead
length_ahead-Keeps = record {
  keeps = λ r n r' h e. elim (Option-cases (strlen (drop r.ptr r.obj))) [
    | inl stuck ↦ absurd (cc (sym (ap (Option.map (λ k. (k, r))) stuck) ∙ e))
    | inr (k, found) ↦ given (ap (Option.map (λ k. (k, r))) found) e (stay-IsWithin r h)
  ];
  stable = λ r n r' more h e fine. elim (Option-cases (strlen (drop r.ptr r.obj))) [
    | inl stuck ↦ absurd (cc (sym (ap (Option.map (λ k. (k, r))) stuck) ∙ e))
    | inr (k, found) ↦ given_more more (ap (Option.map (λ k. (k, r))) found) e (
        ap (Option.map (λ k. (k, extended more r))) (
          ap strlen (drop-append_le r.ptr r.obj more h)
          ∙ strlen-extended (drop r.ptr r.obj) more k found))
  ];
}

pub read_string-Keeps : Keeps read_string
unfolding read_string
read_string-Keeps = bind-Keeps _ length_ahead-Keeps (λ n.
    test-Keeps _ (test_ahead-Keeps n) (pure-Keeps none)
      (bind-Keeps _ (read_string_n-Keeps (n + 1)) (λ xs. pure-Keeps _)))

if-Keeps : {A : Type 0} (b : Bool) {m k : Read A} → Keeps m → Keeps k → Keeps (if b then m else k)
if-Keeps true hm hk = hm
if-Keeps false hm hk = hk

pub read_socket_meta-Keeps : (a b : Bool) → Keeps (read_socket_meta a b)
unfolding read_socket_meta read_name read_default
read_socket_meta-Keeps a b = bind-Keeps _ (if-Keeps a read_string-Keeps (pure-Keeps none)) (λ name.
    bind-Keeps _ read_string-Keeps (λ description. bind-Keeps _ read_byte-Keeps (λ byte.
      bind-Keeps _
        (if-Keeps b
          (if-Keeps (enumeration_of byte == type_string)
            (bind-Keeps _ read_string-Keeps (λ s. pure-Keeps _))
            (bind-Keeps _ read_uinteger-Keeps (λ n. pure-Keeps _)))
          (pure-Keeps (number_value 0)))
        (λ value. pure-Keeps _))))

read_sockets-Keeps : (n : ℕ) → Keeps (read_sockets n)
unfolding read_sockets
read_sockets-Keeps zero = pure-Keeps []
read_sockets-Keeps (suc n) =
    bind-Keeps _ (read_socket_meta-Keeps true true)
      (λ m. bind-Keeps _ (read_sockets-Keeps n) (λ ms. pure-Keeps _))

pub read_definition-Keeps : (a : Bool) → Keeps (read_definition a)
unfolding read_definition read_name
read_definition-Keeps a = bind-Keeps _ (if-Keeps a read_string-Keeps (pure-Keeps none)) (λ name.
    bind-Keeps _ read_string-Keeps (λ description. bind-Keeps _ read_uinteger-Keeps (λ n.
      bind-Keeps _ read_uinteger-Keeps
        (λ start. bind-Keeps _ (read_sockets-Keeps n) (λ ms. pure-Keeps _)))))
