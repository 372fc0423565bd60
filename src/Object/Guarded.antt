-- ===== src/Object/Guarded.antt =====
-- `d_obj_load` of src/dobj.c stays inside of the object, and a read past its end is an error of
-- the sheet.
use Prim.Native.String.{String}
use decision.Prelude.{ℕ, zero, suc, true, false, List, [], ◌∷◌, ◌++◌, Option, none, some}
use decision.Prelude.Chars.{codes}
use decision.Graph.{Text}
use decision.Sheet.{LinkMeta, Included, Sheet}
use decision.Sheet.Build.{d_link_meta_list_push, d_sheet_add_variable}
use decision.Object.Reader.{Read, ◌>>=◌, pure, reader_test_string_n, read_uinteger}
use decision.Object.Load.{Compiler, Loaded, load_path, load_paths, load_incl}
use decision.Object.Load.Sections.{
  lift, load_bytes, load_text, load_data, load_main, read_meta, read_metas, load_lmeta, read_links,
  load_link, load_function, load_functions, load_func, load_variable, load_variables, link_at,
  variable_default, load_var,
}
use decision.Object.Bounds.{
  Keeps, bind-Keeps, test-Keeps, pointer-Keeps, pure-Keeps, crash-Keeps, reader_test_string_n-Keeps,
}
use decision.Object.Inside.{
  read_byte-Keeps, read_string_n-Keeps, read_uinteger-Keeps, read_string-Keeps,
  read_socket_meta-Keeps, read_definition-Keeps,
}

lift-Keeps : {A : Type 0} (o : Option A) → Keeps (lift o)
lift-Keeps none = record {
  keeps = λ r b r' h e. absurd (cc e);
  stable = λ r b r' more h e fine. absurd (cc e);
}
lift-Keeps (some a) = pure-Keeps a

-- A section: absent, or a number and what is read after it.
section-Keeps :
    {A : Type 0} (tag : Text) (absent : A) (present : ℕ → Read A)
    → ((n : ℕ) → Keeps (present n))
    → Keeps (do
      found ← reader_test_string_n tag
      elim found [ false ↦ pure absent | true ↦ (do n ← read_uinteger; present n) ])
section-Keeps tag absent present h =
    test-Keeps _ (reader_test_string_n-Keeps tag) (pure-Keeps absent)
      (bind-Keeps present read_uinteger-Keeps h)

load_bytes-Keeps : (tag : String) → Keeps (load_bytes tag)
unfolding load_bytes
load_bytes-Keeps tag =
    section-Keeps (codes tag) _ _ (λ n. bind-Keeps _ (read_string_n-Keeps n) (λ xs. pure-Keeps _))

pub load_text-Keeps : (sheet : Sheet) → Keeps (load_text sheet)
unfolding load_text
load_text-Keeps sheet = bind-Keeps _ (load_bytes-Keeps ".text") (λ s. pure-Keeps _)

pub load_data-Keeps : (sheet : Sheet) → Keeps (load_data sheet)
unfolding load_data
load_data-Keeps sheet = bind-Keeps _ (load_bytes-Keeps ".data") (λ s. pure-Keeps _)

pub load_main-Keeps : (sheet : Sheet) → Keeps (load_main sheet)
unfolding load_main
load_main-Keeps sheet = section-Keeps (codes ".main") _ _ (λ n. pure-Keeps _)

read_metas-Keeps : (n : ℕ) (list : List LinkMeta) → Keeps (read_metas n list)
unfolding read_metas read_meta
read_metas-Keeps zero list = pure-Keeps list
read_metas-Keeps (suc n) list =
    bind-Keeps _
      (bind-Keeps _ read_byte-Keeps (λ t.
        bind-Keeps _ read_string-Keeps
          (λ name. bind-Keeps _ read_uinteger-Keeps (λ ptr. pure-Keeps _))))
      (λ m. read_metas-Keeps n (d_link_meta_list_push list m))

pub load_lmeta-Keeps : (sheet : Sheet) → Keeps (load_lmeta sheet)
unfolding load_lmeta
load_lmeta-Keeps sheet =
    section-Keeps (codes ".lmeta") _ _
      (λ n. bind-Keeps _ (read_metas-Keeps n sheet.link) (λ l. pure-Keeps _))

read_links-Keeps : (n : ℕ) → Keeps (read_links n)
unfolding read_links
read_links-Keeps zero = pure-Keeps []
read_links-Keeps (suc n) = bind-Keeps _ read_uinteger-Keeps (λ a.
    bind-Keeps _ read_uinteger-Keeps (λ b. bind-Keeps _ (read_links-Keeps n) (λ l. pure-Keeps _)))

pub load_link-Keeps : (sheet : Sheet) → Keeps (load_link sheet)
unfolding load_link
load_link-Keeps sheet =
    section-Keeps (codes ".link") _ _ (λ n. bind-Keeps _ (read_links-Keeps n) (λ l. pure-Keeps _))

load_functions-Keeps : (n : ℕ) (sheet : Sheet) (js : List ℕ) → Keeps (load_functions n sheet js)
unfolding load_functions load_function
load_functions-Keeps zero sheet js = pure-Keeps _
load_functions-Keeps (suc n) sheet js =
    bind-Keeps _
      (bind-Keeps _ read_uinteger-Keeps (λ j. bind-Keeps _ (lift-Keeps _) (λ m.
        bind-Keeps _ (read_definition-Keeps false)
          (λ d. bind-Keeps _ (lift-Keeps _) (λ s. pure-Keeps _)))))
      (λ added. load_functions-Keeps n added.0 (js ++ added.1 ∷ []))

pub load_func-Keeps : (sheet : Sheet) → Keeps (load_func sheet)
unfolding load_func
load_func-Keeps sheet = section-Keeps (codes ".func") _ _ (λ n.
    bind-Keeps _ (load_functions-Keeps n sheet [])
      (λ loaded. bind-Keeps _ (lift-Keeps _) (λ l. pure-Keeps _)))

load_variable-Keeps : (sheet : Sheet) → Keeps (load_variable sheet)
unfolding load_variable
load_variable-Keeps sheet = bind-Keeps _ read_uinteger-Keeps (λ j.
    bind-Keeps _ (read_socket_meta-Keeps false false) (λ v.
      bind-Keeps _ (lift-Keeps (link_at sheet.link j)) (λ m.
        bind-Keeps _ (lift-Keeps (variable_default sheet v.type m)) (λ value.
          bind-Keeps _
            (lift-Keeps
              (d_sheet_add_variable sheet (record v { name = m.name; default_value = value })))
            (λ s. pure-Keeps (s, j))))))

load_variables-Keeps : (n : ℕ) (sheet : Sheet) (js : List ℕ) → Keeps (load_variables n sheet js)
unfolding load_variables
load_variables-Keeps zero sheet js = pure-Keeps _
load_variables-Keeps (suc n) sheet js =
    bind-Keeps _ (load_variable-Keeps sheet)
      (λ added. load_variables-Keeps n added.0 (js ++ added.1 ∷ []))

pub load_var-Keeps : (sheet : Sheet) → Keeps (load_var sheet)
unfolding load_var
load_var-Keeps sheet = section-Keeps (codes ".var") _ _ (λ n.
    bind-Keeps _ (load_variables-Keeps n sheet [])
      (λ loaded. bind-Keeps _ (lift-Keeps _) (λ l. pure-Keeps _)))

load_paths-Keeps :
    (compiler : Compiler) (is : List Included) (priors : List Text) (n : ℕ) (state : Loaded)
    → Keeps (load_paths compiler is priors n state)
unfolding load_paths
load_paths-Keeps compiler is priors zero state = pure-Keeps state
load_paths-Keeps compiler is priors (suc n) state =
    pointer-Keeps _ read_string-Keeps crash-Keeps
      (λ p. load_paths-Keeps compiler is priors n (load_path compiler is priors p state))

pub load_incl-Keeps :
    (compiler : Compiler) (is : List Included) (priors : List Text) (sheet : Sheet)
    → Keeps (load_incl compiler is priors sheet)
unfolding load_incl
load_incl-Keeps compiler is priors sheet =
    section-Keeps (codes ".incl") _ _ (λ n. load_paths-Keeps compiler is priors n _)
