-- ===== src/Object/Written.antt =====
-- What the writing functions of src/dobj.c append, up to the whole object of a sheet.
use mathlib.Core.List.{append_assoc, append-nil}
use decision.Prelude.{
  ℕ, ◌<◌, ◌≡◌, refl, sym, ap, ◌∙◌, Bool, true, false, List, [], ◌∷◌, ◌++◌, Option, none, some,
  length, arith, if_true, if_false, bind-some,
}
use decision.Graph.{Text, LexData, number_value, text_value, SocketMeta, NodeDefinition}
use decision.Optimize.{number_bytes}
use decision.Sheet.{LinkMeta, InstructionToLink, SheetVariable, SheetFunction, Included, Sheet}
use decision.Object.Writer.{
  ObjectWriter, write_string_n, write_byte, write_string, write_uinteger, write_default, write_name,
  write_socket_meta, write_sockets, write_definition,
}
use decision.Object.Generate.{
  write_metas, write_links, write_function, write_functions, write_variable, write_variables,
  write_includes, written_path,
}
use decision.Object.Definitions.{
  text_bytes, IsStoredDefault, default_bytes, IsStoredSocket, socket_bytes, AllStoredSockets,
  sockets_bytes, IsStoredDefinition, name_bytes, definition_bytes,
}
use decision.Object.Parts.{
  ptr_again, metas_bytes, meta_bytes, AllStoredMetas, links_bytes, function_index, functions_bytes,
  AllStoredFunctions, variable_index, variables_bytes, AllStoredVariables, includes_bytes,
}

pub write_string_lem : (w : ObjectWriter) (s : Option Text) → write_string w s ≡ w ++ text_bytes s
unfolding write_string write_string_n
write_string_lem w none = refl
write_string_lem w (some s) = refl

write_default_lem :
    (w : ObjectWriter) (type : ℕ) (d : LexData)
    → IsStoredDefault type d
    → write_default w type d ≡ some (w ++ default_bytes d)
unfolding write_default write_uinteger
write_default_lem w type (number_value n) h = if_false _ _ h.0
write_default_lem w type (text_value s) h = if_true _ _ h.0 ∙ ap some (write_string_lem w s)

write_name_lem :
    (w : ObjectWriter) (has_name : Bool) (name : Option Text)
    → write_name w has_name name ≡ w ++ name_bytes has_name name
unfolding write_name
write_name_lem w true name = write_string_lem w name
write_name_lem w false name = sym (append-nil w)

pub write_byte_lem : (w : ObjectWriter) (b : ℕ) → b < 256 → write_byte w b ≡ w ++ b ∷ []
unfolding write_byte
write_byte_lem w b h = ap (λ x. w ++ x ∷ []) (omega arith)

pub write_socket_meta_lem :
    (w : ObjectWriter) (m : SocketMeta)
    → IsStoredSocket m
    → write_socket_meta w m true true ≡ some (w ++ socket_bytes m)
unfolding write_socket_meta
write_socket_meta_lem w m h =
    write_default_lem (write_byte described m.type) m.type m.default_value h.default_value
    ∙ ap (λ x. some (x ++ default_bytes m.default_value))
        (write_byte_lem described m.type (omega (arith, h.type))
          ∙ ap (λ x. x ++ m.type ∷ [])
              (write_string_lem named m.description
                ∙ ap (λ x. x ++ text_bytes m.description) (write_name_lem w true m.name)))
    ∙ ap some (
        append_assoc (w ++ text_bytes m.name ++ text_bytes m.description) (m.type ∷ [])
          (default_bytes m.default_value)
        ∙ append_assoc (w ++ text_bytes m.name) (text_bytes m.description)
            (m.type ∷ default_bytes m.default_value)
        ∙ append_assoc w (text_bytes m.name)
            (text_bytes m.description ++ m.type ∷ default_bytes m.default_value))
  where
    named : ObjectWriter
    named = write_name w true m.name

    described : ObjectWriter
    described = write_string named m.description

write_sockets_lem :
    (w : ObjectWriter) (ms : List SocketMeta)
    → AllStoredSockets ms
    → write_sockets w ms ≡ some (w ++ sockets_bytes ms)
unfolding write_sockets
write_sockets_lem w [] h = ap some (sym (append-nil w))
write_sockets_lem w (m ∷ ms) h =
    ap (λ o. elim o [ none ↦ none | some w' ↦ write_sockets w' ms ]) (write_socket_meta_lem w m h.0)
    ∙ write_sockets_lem (w ++ socket_bytes m) ms h.1
    ∙ ap some (append_assoc w (socket_bytes m) (sockets_bytes ms))

pub write_definition_lem :
    (w : ObjectWriter) (has_name : Bool) (d : NodeDefinition)
    → IsStoredDefinition d
    → write_definition w d has_name ≡ some (w ++ definition_bytes has_name d)
unfolding write_definition write_uinteger
write_definition_lem w has_name d h =
    write_sockets_lem (write_string (write_name w has_name d.name) d.description ++ size ++ start)
      d.sockets h.sockets
    ∙ ap (λ x. some (x ++ size ++ start ++ sockets))
        (write_string_lem (write_name w has_name d.name) d.description
          ∙ ap (λ x. x ++ text) (write_name_lem w has_name d.name))
    ∙ ap some (
        append_assoc (w ++ name ++ text ++ size) start sockets
        ∙ append_assoc (w ++ name ++ text) size (start ++ sockets)
        ∙ append_assoc (w ++ name) text (size ++ (start ++ sockets))
        ∙ append_assoc w name (text ++ (size ++ (start ++ sockets))))
  where
    name : List ℕ
    name = name_bytes has_name d.name

    text : List ℕ
    text = text_bytes d.description

    size : List ℕ
    size = number_bytes 8 (length d.sockets)

    start : List ℕ
    start = number_bytes 8 d.start_output_index

    sockets : List ℕ
    sockets = sockets_bytes d.sockets

pub write_metas_lem :
    (w : ObjectWriter) (address : ℕ) (ms : List LinkMeta)
    → AllStoredMetas address ms
    → write_metas w address ms ≡ some (w ++ metas_bytes address ms)
unfolding write_metas write_uinteger
write_metas_lem w address [] h = ap some (sym (append-nil w))
write_metas_lem w address (m ∷ ms) h =
    ap
      (λ o. elim o [
        | none ↦ none
        | some ptr ↦
            write_metas (write_uinteger (write_string (write_byte w m.type) m.name) ptr) address ms
      ])
      h.0.ptr
    ∙ ap (λ x. write_metas (x ++ number) address ms)
        (write_string_lem (write_byte w m.type) m.name
          ∙ ap (λ x. x ++ text_bytes m.name) (write_byte_lem w m.type (omega (arith, h.0.type))))
    ∙ write_metas_lem (w ++ m.type ∷ [] ++ text_bytes m.name ++ number) address ms h.1
    ∙ ap (λ x. some (x ++ metas_bytes address ms))
        (append_assoc (w ++ m.type ∷ []) (text_bytes m.name) number
          ∙ append_assoc w (m.type ∷ []) (text_bytes m.name ++ number))
    ∙ ap some (append_assoc w (meta_bytes address m) (metas_bytes address ms))
  where
    number : List ℕ
    number = number_bytes 8 (ptr_again address m)

pub write_links_lem :
    (w : ObjectWriter) (ls : List InstructionToLink) → write_links w ls ≡ w ++ links_bytes ls
unfolding write_links write_uinteger
write_links_lem w [] = sym (append-nil w)
write_links_lem w (l ∷ ls) =
    write_links_lem (w ++ number_bytes 8 l.ins ++ number_bytes 8 l.link) ls
    ∙ append_assoc (w ++ number_bytes 8 l.ins) (number_bytes 8 l.link) (links_bytes ls)
    ∙ append_assoc w (number_bytes 8 l.ins) (number_bytes 8 l.link ++ links_bytes ls)

pub write_functions_lem :
    (w : ObjectWriter) (link : List LinkMeta) (fs : List SheetFunction)
    → AllStoredFunctions link fs
    → write_functions w link fs ≡ some (w ++ functions_bytes link fs)
unfolding write_functions write_function write_uinteger
write_functions_lem w link [] h = ap some (sym (append-nil w))
write_functions_lem w link (f ∷ fs) h =
    ap (λ o. elim o [ none ↦ none | some w' ↦ write_functions w' link fs ])
      (bind-some _ _ h.0.linked
        (write_definition_lem (w ++ number) false f.function_definition h.0.definition))
    ∙ write_functions_lem (w ++ number ++ definition) link fs h.1
    ∙ ap (λ x. some (x ++ functions_bytes link fs)) (append_assoc w number definition)
    ∙ ap some (append_assoc w (number ++ definition) (functions_bytes link fs))
  where
    number : List ℕ
    number = number_bytes 8 (function_index link f)

    definition : List ℕ
    definition = definition_bytes false f.function_definition

pub write_variables_lem :
    (w : ObjectWriter) (sheet : Sheet) (vs : List SheetVariable)
    → AllStoredVariables sheet vs
    → write_variables w sheet.link vs ≡ some (w ++ variables_bytes sheet.link vs)
unfolding write_variables write_variable write_uinteger write_socket_meta write_name
write_variables_lem w sheet [] h = ap some (sym (append-nil w))
write_variables_lem w sheet (v ∷ vs) h =
    ap (λ o. elim o [ none ↦ none | some w' ↦ write_variables w' sheet.link vs ])
      (bind-some _ _ h.0.linked (
        ap some (
          write_byte_lem (write_string (w ++ number) v.variable_meta.description)
            v.variable_meta.type (omega (arith, h.0.type))
          ∙ ap (λ x. x ++ type) (write_string_lem (w ++ number) v.variable_meta.description)
          ∙ append_assoc (w ++ number) text type
          ∙ append_assoc w number (text ++ type))))
    ∙ write_variables_lem (w ++ (number ++ (text ++ type))) sheet vs h.1
    ∙ ap some (append_assoc w (number ++ (text ++ type)) (variables_bytes sheet.link vs))
  where
    number : List ℕ
    number = number_bytes 8 (variable_index sheet.link v)

    text : List ℕ
    text = text_bytes v.variable_meta.description

    type : List ℕ
    type = v.variable_meta.type ∷ []

pub write_includes_lem :
    (w : ObjectWriter) (is : List Included) → write_includes w is ≡ w ++ includes_bytes is
unfolding write_includes write_string write_string_n
write_includes_lem w [] = sym (append-nil w)
write_includes_lem w (i ∷ is) =
    write_includes_lem (w ++ text_bytes (some (written_path i))) is
    ∙ append_assoc w (text_bytes (some (written_path i))) (includes_bytes is)
