-- ===== src/Object/Defaults.antt =====
-- The default values of variables, which `d_obj_load` of src/dobj.c takes from the data section.
use mathlib.Core.Option
use mathlib.Core.Option.{some_inj}
use mathlib.Core.Path.{ap₂}
use mathlib.Core.List.{append_assoc}
use decision.Prelude.{
  ℕ, suc, ◌+◌, ◌≡◌, refl, sym, ap, ◌∙◌, subst, Bool, true, false, ◌&&◌, List, [], ◌∷◌, ◌++◌, inl,
  inr, Option, none, some, length, take, get_elem?, extend8, ◌==◌, if◌then◌else◌, if_true, le→leb,
  arith, length-append, take-append, drop-append,
}
use decision.Dtype.{type_bool, type_string}
use decision.Graph.{Text, number_value, text_value, SocketMeta}
use decision.Optimize.{read_number, number_bytes}
use decision.Optimize.Encode.{length-number_bytes}
use decision.Sheet.{LinkMeta, link_variable_string_default_value, Section, Sheet}
use decision.Object.Reader.{same_bytes, strlen}
use decision.Object.Generate.{same_text, find_from, find_link, section_bytes}
use decision.Object.Load.Sections.{
  data_bytes, data_text, pointed_text, find_default, string_default, variable_default,
}
use decision.Object.Texts.{IsText, strlen-append, read_number-number_bytes}
use decision.Object.Definitions.{text_again}
use decision.Object.Parts.{
  bare, bares, meta_again, metas_again, ptr_again, IsAt, HasTextDefault, HasDefaultAs, HasDefault,
}

data_bytes-IsAt :
    (section : Section) (ptr : ℕ) (xs : List ℕ)
    → IsAt section ptr xs
    → data_bytes section ptr (length xs) ≡ some xs
unfolding data_bytes section_bytes
data_bytes-IsAt section ptr xs (before, after, e, place) =
    ap (λ s. data_bytes s ptr (length xs)) e
    ∙ if_true _ none (
        le→leb (ptr + length xs) (length (before ++ (xs ++ after)))
          (omega (arith, place, length-append before (xs ++ after), length-append xs after)))
    ∙ ap (λ ys. some (take (length xs) ys)) (drop-append ptr before (xs ++ after) (sym place))
    ∙ ap some (take-append (length xs) xs after refl)

data_text-IsAt :
    (section : Section) (ptr : ℕ) (t : Text)
    → IsText t
    → IsAt section ptr (t ++ 0 ∷ [])
    → data_text section ptr ≡ some t
unfolding data_text section_bytes
data_text-IsAt section ptr t good (before, after, e, place) =
    ap (λ s. data_text s ptr) e
    ∙ ap from
        (drop-append ptr before (t ++ 0 ∷ [] ++ after) (sym place) ∙ append_assoc t (0 ∷ []) after)
    ∙ ap (λ o. elim o [ none ↦ none | some n ↦ some (take n (t ++ 0 ∷ after)) ])
        (strlen-append t after good)
    ∙ ap some (take-append (length t) t (0 ∷ after) refl)
  where
    from : List ℕ → Option Text
    from ys = elim (strlen ys) [ none ↦ none | some n ↦ some (take n ys) ]

==-sym : (a b : ℕ) → (a == b) ≡ (b == a)
==-sym a b = ground arith

same_bytes-sym : (xs ys : List ℕ) → same_bytes xs ys ≡ same_bytes ys xs
same_bytes-sym [] [] = refl
same_bytes-sym [] (y ∷ ys) = refl
same_bytes-sym (x ∷ xs) [] = refl
same_bytes-sym (x ∷ xs) (y ∷ ys) = ap₂ (λ a b. a && b) (==-sym x y) (same_bytes-sym xs ys)

-- What the loader finds, by what the writer finds from index `i` on.
IsFound : ℕ → List LinkMeta → ℕ → Option ℕ → Option (Option LinkMeta) → Type 0
IsFound address list i none o = o ≡ some none
IsFound address list i (some k) o =
    (j : ℕ) × (d : LinkMeta) × (k ≡ i + j)
    × (get_elem? list j ≡ some d)
    × (o ≡ some (some (bare (meta_again address d))))

IsFound-later :
    (address : ℕ) (m : LinkMeta) (list : List LinkMeta) (i : ℕ) (r : Option ℕ)
    (o : Option (Option LinkMeta))
    → IsFound address list (suc i) r o
    → IsFound address (m ∷ list) i r o
unfolding IsFound
IsFound-later address m list i none o h = h
IsFound-later address m list i (some k) o (j, d, e, found, at) =
    (suc j, d, omega (arith, e), found, at)

-- A round of both searches, at a link with the name `n`.
search_round :
    (address : ℕ) (m : LinkMeta) (list : List LinkMeta) (s n : Text) (i : ℕ) (r : Option ℕ)
    (later : Option (Option ℕ)) (later' : Option (Option LinkMeta))
    → (later ≡ some r → IsFound address list (suc i) r later')
    → (a b : Bool) → (elim (a && b) [ true ↦ some (some i) | false ↦ later ]) ≡ some r
    → IsFound address (m ∷ list) i r (elim b [
      | false ↦ later'
      | true ↦ elim a [ true ↦ some (some (bare (meta_again address m))) | false ↦ later' ]
    ])
unfolding IsFound
search_round address m list s n i r later later' h true true e =
    subst (λ o. IsFound address (m ∷ list) i o (some (some (bare (meta_again address m)))))
      (some_inj.0 e) (0, m, omega arith, refl, refl)
search_round address m list s n i r later later' h true false e =
    IsFound-later address m list i r later' (h e)
search_round address m list s n i r later later' h false true e =
    IsFound-later address m list i r later' (h e)
search_round address m list s n i r later later' h false false e =
    IsFound-later address m list i r later' (h e)

default_round :
    (address : ℕ) (m : LinkMeta) (list : List LinkMeta) (s : Text) (i : ℕ) (r : Option ℕ)
    (later : Option (Option ℕ)) (later' : Option (Option LinkMeta)) (o : Option Text)
    → (later ≡ some r → IsFound address list (suc i) r later')
    → (elim (same_text (some s) o) [
      | none ↦ none
      | some same ↦ elim (same && link_variable_string_default_value == m.type) [
        | true ↦ some (some i)
        | false ↦ later
      ]
    ])
      ≡ some r
    → IsFound address (m ∷ list) i r (elim (m.type == link_variable_string_default_value) [
      | false ↦ later'
      | true ↦ elim (same_text (text_again o) (some s)) [
        | none ↦ none
        | some same ↦ elim same [
          | true ↦ some (some (bare (meta_again address m)))
          | false ↦ later'
        ]
      ]
    ])
unfolding same_text
default_round address m list s i r later later' none h e = cc e
default_round address m list s i r later later' (some n) h e =
    subst (λ b. Found b (same_bytes n s)) (==-sym link_variable_string_default_value m.type)
      (subst (Found (link_variable_string_default_value == m.type)) (same_bytes-sym s n) (
        search_round address m list s n i r later later' h (same_bytes s n)
          (link_variable_string_default_value == m.type) e))
  where
    Found : Bool → Bool → Type 0
    Found b a = IsFound address (m ∷ list) i r (elim b [
      | false ↦ later'
      | true ↦ elim a [ true ↦ some (some (bare (meta_again address m))) | false ↦ later' ]
    ])

find_default_lem :
    (address : ℕ) (list : List LinkMeta) (s : Text) (i : ℕ) (r : Option ℕ)
    → find_from list (some s) link_variable_string_default_value i ≡ some r
    → IsFound address list i r (find_default (bares (metas_again address list)) (some s))
unfolding find_from find_default IsFound
find_default_lem address [] s i none e = refl
find_default_lem address [] s i (some k) e = cc e
find_default_lem address (m ∷ list) s i r e =
    default_round address m list s i r
      (find_from list (some s) link_variable_string_default_value (suc i))
      (find_default (bares (metas_again address list)) (some s)) m.name
      (find_default_lem address list s (suc i) r) e

-- The sheet of the links that were read.
abbrev loaded : Sheet → Sheet
loaded s = record s { link = bares (metas_again s.address s.link) }

string_default_lem :
    (s : Sheet) (m : SocketMeta) (n : Text)
    → m.name ≡ some n
    → HasTextDefault s m
    → string_default (loaded s) (some n) ≡ some m.default_value
unfolding string_default find_link pointed_text IsFound
string_default_lem s m n named (inl (missing, value)) =
    ap (pointed_text s.data_) (
      find_default_lem s.address s.link n 0 none
        (ap (λ o. find_from s.link o link_variable_string_default_value 0) (sym named) ∙ missing))
    ∙ ap some (sym value)
string_default_lem s m n named (inr (k, d, t, here, at_k, good, stands, value)) =
    let (j, d', e, at_j, found) =
      find_default_lem s.address s.link n 0 (some k)
        (ap (λ o. find_from s.link o link_variable_string_default_value 0) (sym named) ∙ here) in
    let same_index : j ≡ k = omega (arith, e) in
    let same : d' ≡ d = some_inj.0 (sym at_j ∙ ap (get_elem? s.link) same_index ∙ at_k) in
    ap (pointed_text s.data_) found
    ∙ ap (λ x. Option.map (λ y. text_value (some y)) (data_text s.data_ (ptr_again s.address x)))
        same
    ∙ ap (Option.map (λ y. text_value (some y)))
        (data_text-IsAt s.data_ (ptr_again s.address d) t good stands)
    ∙ ap some (sym value)

value_lem :
    (s : Sheet) (m : SocketMeta) (meta : LinkMeta) (n : Text) (a b : Bool)
    → m.name ≡ some n
    → text_again meta.name ≡ some n
    → HasDefaultAs a b s m (ptr_again s.address meta)
    → (if a
        then Option.map
            (λ xs. number_value (extend8 (read_number 1 xs)))
            (data_bytes s.data_ (ptr_again s.address meta) 1)
        else if b
        then string_default (loaded s) (text_again meta.name)
        else Option.map
            (λ xs. number_value (read_number 8 xs))
            (data_bytes s.data_ (ptr_again s.address meta) 8))
      ≡ some m.default_value
unfolding read_number
value_lem s m meta n true b named linked (x, stands, value) =
    ap (Option.map (λ xs. number_value (extend8 (read_number 1 xs))))
      (data_bytes-IsAt s.data_ (ptr_again s.address meta) (x ∷ []) stands)
    ∙ ap some (ap (λ y. number_value (extend8 y)) (omega arith) ∙ sym value)
value_lem s m meta n false true named linked h =
    ap (string_default (loaded s)) linked ∙ string_default_lem s m n named h
value_lem s m meta n false false named linked (v, fits, stands, value) =
    ap (Option.map (λ xs. number_value (read_number 8 xs))) (
      subst (λ k. data_bytes s.data_ (ptr_again s.address meta) k ≡ some (number_bytes 8 v))
        (length-number_bytes 8 v)
        (data_bytes-IsAt s.data_ (ptr_again s.address meta) (number_bytes 8 v) stands))
    ∙ ap some (ap number_value (read_number-number_bytes v fits) ∙ sym value)

-- The loader finds the default value that the data section has.
pub default_lem :
    (s : Sheet) (m : SocketMeta) (meta : LinkMeta) (n : Text)
    → m.name ≡ some n
    → text_again meta.name ≡ some n
    → HasDefault s m (some meta)
    → variable_default (loaded s) m.type (bare (meta_again s.address meta)) ≡ some m.default_value
unfolding variable_default
default_lem s m meta n named linked h =
    value_lem s m meta n (m.type == type_bool) (m.type == type_string) named linked h
