-- ===== src/Object/Variables.antt =====
-- The section of the variables that `d_obj_load` of src/dobj.c reads.
use mathlib.Core.List.{append_assoc, append-nil}
use mathlib.Core.Path.{ap₂}
use decision.Prelude.{
  ℕ, ◌<◌, ◌≡◌, sym, ap, ◌∙◌, subst, false, List, [], ◌∷◌, ◌++◌, none, some, length, lt-get_elem?,
  arith, word_mod, bind-some,
}
use decision.Graph.{Text, number_value, SocketMeta}
use decision.Optimize.{number_bytes}
use decision.Sheet.{LinkMeta, SheetVariable, Sheet}
use decision.Sheet.Build.{d_sheet_add_variable, variable_of}
use decision.Object.Reader.{◌>>=◌, pure, read_name, read_byte, read_socket_meta, enumeration_of}
use decision.Object.Generate.{variable_link}
use decision.Object.Load.Sections.{load_variable, load_variables, variable_default}
use decision.Object.Bodies.{lift-Reads, then-Reads}
use decision.Object.Pointers.{variable_default-bare}
use decision.Object.Lookup.{link_again}
use decision.Object.Defaults.{default_lem}
use decision.Object.Reads.{Reads, bind-Reads, pure-Reads}
use decision.Object.Texts.{byte-Reads, uinteger-Reads}
use decision.Object.Definitions.{
  text_again, IsStoredText, text_bytes, map-Reads, text-Reads, enumeration_of-lt,
}
use decision.Object.Parts.{
  metas_again, bares, variable_index, variables_bytes, HasDefault, IsStoredVariable,
  AllStoredVariables, variable_again, variables_again, some_text,
}

-- A socket that was read without its name and its default value.
abbrev short_socket : SocketMeta → ℕ → SocketMeta
short_socket m type = record {
  name = none;
  description = text_again m.description;
  type = type;
  default_value = number_value 0;
}

short_socket-Reads :
    (m : SocketMeta)
    → IsStoredText m.description
    → m.type < 128
    → Reads
        (read_socket_meta false false)
        (text_bytes m.description ++ m.type ∷ [])
        (short_socket m m.type)
unfolding read_socket_meta read_name
short_socket-Reads m described typed = bind-Reads _ (text-Reads m.description described) (
    subst
      (λ t.
        Reads (do byte ← read_byte; pure (short_socket m (enumeration_of byte))) (m.type ∷ [])
          (short_socket m t))
      (enumeration_of-lt m.type typed)
      (map-Reads (λ byte. short_socket m (enumeration_of byte)) (byte-Reads m.type)))

add_variable_lem :
    (sheet : Sheet) (m : SocketMeta) (n : Text)
    → m.name ≡ some n
    → d_sheet_add_variable sheet m
      ≡ some (record sheet {
        variables = sheet.variables ++ variable_of sheet.address (some_text m.name) m ∷ [];
      })
unfolding d_sheet_add_variable
add_variable_lem sheet m n e = bind-some m.name _ e (
    ap
      (λ name. some (record sheet {
        variables = sheet.variables ++ variable_of sheet.address (some_text name) m ∷ [];
      }))
      (sym e))

variable-Reads :
    (s sheet : Sheet) (v : SheetVariable)
    → length s.link < word_mod
    → sheet.data_ ≡ s.data_
    → bares sheet.link ≡ bares (metas_again s.address s.link)
    → IsStoredVariable s v
    → Reads
        (load_variable sheet)
        (number_bytes 8 (variable_index s.link v)
          ++ (text_bytes v.variable_meta.description ++ v.variable_meta.type ∷ []))
        (
          record sheet { variables = sheet.variables ++ variable_again sheet.address v ∷ [] },
          variable_index s.link v,
        )
unfolding load_variable
variable-Reads s sheet v fits data_ same h =
    let vm = v.variable_meta in
    let (m, m', n, found, at, kept, named, text) =
      link_again s.address s.link sheet.link vm.name (variable_link vm) same h.linked in
    let value : variable_default sheet vm.type m' ≡ some vm.default_value =
      sym (
        variable_default-bare sheet (record s { link = bares (metas_again s.address s.link) })
          vm.type m' (sym data_) (sym same))
      ∙ ap (variable_default (record s { link = bares (metas_again s.address s.link) }) vm.type)
          kept
      ∙ default_lem s vm m n text (sym (ap (λ x. x.name) kept) ∙ named ∙ text)
          (subst (HasDefault s vm) found h.default_value) in
    bind-Reads _
      (uinteger-Reads (variable_index s.link v)
        (omega (arith, fits, lt-get_elem? s.link _ m found)))
      (then-Reads _ (short_socket-Reads vm h.description h.type) (
        lift-Reads _ at (
          lift-Reads _ value (
            lift-Reads _
              (add_variable_lem sheet
                  (record vm { name = m'.name; description = text_again vm.description }) n
                  (named ∙ text)
                ∙ ap
                    (λ name. some (record sheet {
                      variables =
                          sheet.variables
                          ++ variable_of sheet.address (some_text name)
                              (record vm { name = name; description = text_again vm.description })
                            ∷ [];
                    }))
                    named)
              (pure-Reads _)))))

abbrev pub variable_indexes : List LinkMeta → List SheetVariable → List ℕ
variable_indexes list [] = []
variable_indexes list (v ∷ vs) = variable_index list v ∷ variable_indexes list vs

pub variables-Reads :
    (s sheet : Sheet) (vs : List SheetVariable) (indexes : List ℕ)
    → length s.link < word_mod
    → sheet.data_ ≡ s.data_
    → bares sheet.link ≡ bares (metas_again s.address s.link)
    → AllStoredVariables s vs
    → Reads (load_variables (length vs) sheet indexes) (variables_bytes s.link vs) (
      record sheet { variables = sheet.variables ++ variables_again sheet.address vs },
      indexes ++ variable_indexes s.link vs,
    )
unfolding load_variables
variables-Reads s sheet [] indexes fits data_ same h =
    subst (λ x. Reads (pure (sheet, indexes)) [] x)
      (ap₂ (λ a b. (record sheet { variables = a }, b)) (sym (append-nil sheet.variables))
        (sym (append-nil indexes)))
      (pure-Reads (sheet, indexes))
variables-Reads s sheet (v ∷ vs) indexes fits data_ same h =
    bind-Reads _ (variable-Reads s sheet v fits data_ same h.0) (
      subst
        (Reads
          (load_variables (length vs)
            (record sheet { variables = sheet.variables ++ variable_again sheet.address v ∷ [] })
            (indexes ++ variable_index s.link v ∷ []))
          (variables_bytes s.link vs))
        (ap₂ (λ a b. (record sheet { variables = a }, b))
          (append_assoc sheet.variables (variable_again sheet.address v ∷ [])
            (variables_again sheet.address vs))
          (append_assoc indexes (variable_index s.link v ∷ []) (variable_indexes s.link vs)))
        (variables-Reads s
          (record sheet { variables = sheet.variables ++ variable_again sheet.address v ∷ [] }) vs
          (indexes ++ variable_index s.link v ∷ []) fits data_ same h.1))
