-- ===== src/Object/Definition.antt =====
-- A node definition in an object of src/dobj.c, between other bytes.
use decision.Prelude.{
  ◌+◌, ◌<◌, ◌≡◌, ap, ◌∙◌, sym, Bool, ◌++◌, some, length, arith, word_mod, length-append,
  drop-append, drop, refl,
}
use mathlib.Core.List.{append_assoc}
use mathlib.Core.Option.{some_inj}
use decision.Graph.{NodeDefinition}
use decision.Object.Reader.{ObjectReader, read_definition}
use decision.Object.Writer.{ObjectWriter, write_definition}
use decision.Object.Reads.{IsAhead}
use decision.Object.Definitions.{
  IsStoredDefinition, definition_again, definition_bytes, definition-Reads,
}
use decision.Object.Written.{write_definition_lem}

-- A definition that was written behind any bytes is read back, whatever is written behind it, and
-- the reader then stands at what is behind it: with the same sockets, types, numbers and values,
-- a NULL text as an empty one and never with infinite inputs. Its numbers fit a word, its types a
-- signed byte, and its texts have no null bytes.
pub read_definition-write_definition :
    (has_name error : Bool) (d : NodeDefinition) (before writer after : ObjectWriter)
    → IsStoredDefinition d
    → write_definition before d has_name ≡ some writer
    → length (writer ++ after) + 8 < word_mod
    → read_definition has_name
        (record { obj = writer ++ after; ptr = length before; error = error })
      ≡ some (
        definition_again has_name d,
        record { obj = writer ++ after; ptr = length writer; error = error },
      )
read_definition-write_definition has_name error d before writer after h written fits =
    let bs = definition_bytes has_name d in
    let e : writer ≡ before ++ bs =
      some_inj.0 (sym written ∙ write_definition_lem before has_name d h) in
    let r : ObjectReader = record { obj = writer ++ after; ptr = length before; error = error } in
    let x : IsAhead r (bs ++ after) = record {
      ahead =
          ap (λ w. drop (length before) (w ++ after)) e
          ∙ ap (drop (length before)) (append_assoc before bs after)
          ∙ drop-append (length before) before (bs ++ after) refl;
      within = omega (
        arith,
        ap length e,
        length-append writer after,
        length-append before bs,
        length-append bs after,
      );
      small = fits;
    } in
    (definition-Reads has_name d h).reads r after x
    ∙ ap (λ k. some (definition_again has_name d, record r { ptr = k }))
        (omega (arith, ap length e, length-append before bs))
