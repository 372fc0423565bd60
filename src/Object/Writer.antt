-- ===== src/Object/Writer.antt =====
-- The functions of src/dobj.c that write an object: a writer is the bytes written so far, and its
-- `len` is their number.
use decision.Prelude.{
  ℕ, Bool, true, List, [], ◌∷◌, ◌++◌, Option, none, some, length, ◌==◌, ◌%◌, if◌then◌else◌,
}
use decision.Dtype.{type_string}
use decision.Graph.{Text, LexData, number_value, text_value, SocketMeta, NodeDefinition}
use decision.Optimize.{number_bytes}

abbrev pub ObjectWriter : Type 0
ObjectWriter = List ℕ

-- The bytes at the end, which `memcpy` or an assignment fills.
unfoldable pub write_string_n : ObjectWriter → Option (List ℕ) → ObjectWriter
write_string_n writer none = writer
write_string_n writer (some bytes) = writer ++ bytes

unfoldable pub write_byte : ObjectWriter → ℕ → ObjectWriter
write_byte writer byte = writer ++ byte % 256 ∷ []

-- A NULL string is written as an empty one.
unfoldable pub write_string : ObjectWriter → Option Text → ObjectWriter
write_string writer none = write_string_n writer (some (0 ∷ []))
write_string writer (some str) = write_string_n writer (some (str ++ 0 ∷ []))

unfoldable pub write_uinteger : ObjectWriter → ℕ → ObjectWriter
write_uinteger writer uinteger = writer ++ number_bytes 8 uinteger

-- A string value that is read as a number is its address, which the model has none of: `none`.
unfoldable pub write_default : ObjectWriter → ℕ → LexData → Option ObjectWriter
write_default writer type (text_value s) =
    if type == type_string then some (write_string writer s) else none
write_default writer type (number_value n) =
    if type == type_string then none else some (write_uinteger writer n)

unfoldable pub write_name : ObjectWriter → Bool → Option Text → ObjectWriter
write_name writer has_name name = if has_name then write_string writer name else writer

unfoldable pub write_socket_meta : ObjectWriter → SocketMeta → Bool → Bool → Option ObjectWriter
write_socket_meta writer meta has_name has_default =
    let writer = write_name writer has_name meta.name in
    let writer = write_byte (write_string writer meta.description) meta.type in
    if has_default then write_default writer meta.type meta.default_value else some writer

unfoldable pub write_sockets : ObjectWriter → List SocketMeta → Option ObjectWriter
write_sockets writer [] = some writer
write_sockets writer (meta ∷ metas) = elim (write_socket_meta writer meta true true) [
  | none ↦ none
  | some writer' ↦ write_sockets writer' metas
]

unfoldable pub write_definition : ObjectWriter → NodeDefinition → Bool → Option ObjectWriter
write_definition writer d has_name =
    let writer = write_name writer has_name d.name in
    let writer = write_string writer d.description in
    let writer = write_uinteger writer (length d.sockets) in
    write_sockets (write_uinteger writer d.start_output_index) d.sockets
