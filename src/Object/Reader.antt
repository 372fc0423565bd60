-- ===== src/Object/Reader.antt =====
-- The functions of src/dobj.c that read an object. A reader action is `none` where the code reads
-- outside of the object, or where the allocator ends the process.
use mathlib.Core.Option
use decision.Prelude.{
  ℕ, zero, suc, ◌+◌, Bool, true, false, ◌&&◌, List, [], ◌∷◌, Option, none, some, length, take, drop,
  ltb, leb, ◌==◌, if◌then◌else◌, add_word,
}
use decision.Dtype.{type_string}
use decision.Graph.{Text, LexData, number_value, text_value, SocketMeta, NodeDefinition}
use decision.Optimize.{read_number}

-- `len` is the length of `obj`.
pub record ObjectReader : Type 0 where
  pub obj : List ℕ
  pub ptr : ℕ
  pub error : Bool

abbrev pub Read {ℓ} : Type ℓ → Type ℓ
Read A = ObjectReader → Option (A × ObjectReader)

infixl 5 ◌>>=◌
abbrev pub ◌>>=◌ : {A B : Type 0} → Read A → (A → Read B) → Read B
◌>>=◌ m f r = elim (m r) [ none ↦ none | some (a, r') ↦ f a r' ]

abbrev pub pure : {A : Type 0} → A → Read A
pure a r = some (a, r)

abbrev pub crash : {A : Type 0} → Read A
crash r = none

-- The sum of two `size_t` wraps around.
unfoldable pub test_ahead : ℕ → Read Bool
test_ahead n r =
    if ltb (length r.obj) (add_word r.ptr n)
    then some (false, record r { error = true })
    else some (true, r)

-- The bytes from the current position on, with none of them outside of the object.
unfoldable pub peek : ℕ → Read (List ℕ)
peek n r = if leb (r.ptr + n) (length r.obj) then some (take n (drop r.ptr r.obj), r) else none

unfoldable pub advance : ℕ → Read (Unit {0})
advance n r = some (tt, record r { ptr = r.ptr + n })

abbrev pub same_bytes : List ℕ → List ℕ → Bool
same_bytes [] [] = true
same_bytes [] (y ∷ ys) = false
same_bytes (x ∷ xs) [] = false
same_bytes (x ∷ xs) (y ∷ ys) = x == y && same_bytes xs ys

-- `strncmp` with a text of `n` bytes, none of them null.
unfoldable pub reader_test_string_n : Text → Read Bool
reader_test_string_n str = do
  ahead ← test_ahead (length str)
  elim ahead [
    | false ↦ pure false
    | true ↦ (do
      bytes ← peek (length str)
      elim (same_bytes str bytes) [
        | false ↦ pure false
        | true ↦ (do u ← advance (length str); pure true)
      ])
  ]

unfoldable pub read_byte : Read ℕ
read_byte = do
  ahead ← test_ahead 1
  elim ahead [
    | false ↦ pure 0
    | true ↦ (do bytes ← peek 1; u ← advance 1; pure (read_number 1 bytes))
  ]

-- `none` in the result is NULL.
unfoldable pub read_string_n : ℕ → Read (Option (List ℕ))
read_string_n n = do
  ahead ← test_ahead n
  elim ahead [ false ↦ pure none | true ↦ (do bytes ← peek n; u ← advance n; pure (some bytes)) ]

-- The index of the first null byte.
unfoldable pub strlen : List ℕ → Option ℕ
strlen [] = none
strlen (x ∷ xs) = if x == 0 then some 0 else Option.map suc (strlen xs)

-- `strlen` at the current position, before any test of the bounds.
unfoldable pub length_ahead : Read ℕ
length_ahead r = Option.map (λ n. (n, r)) (strlen (drop r.ptr r.obj))

-- The result is a C string, so its null byte is left out.
unfoldable pub read_string : Read (Option Text)
read_string = do
  name_len ← length_ahead
  ahead ← test_ahead name_len
  elim ahead [
    | false ↦ pure none
    | true ↦ (do bytes ← read_string_n (name_len + 1); pure (Option.map (take name_len) bytes))
  ]

-- A `duint`, little-endian.
unfoldable pub read_uinteger : Read ℕ
read_uinteger = do
  ahead ← test_ahead 8
  elim ahead [
    | false ↦ pure 0
    | true ↦ (do bytes ← peek 8; u ← advance 8; pure (read_number 8 bytes))
  ]

-- A byte as the enumeration type that it is stored in: a `char` is signed, and the number that the
-- enumeration keeps has 32 bits.
abbrev pub enumeration_of : ℕ → ℕ
enumeration_of b = if leb 0x80 b then b + 0xffff_ff00 else b

unfoldable pub read_default : ℕ → Read LexData
read_default type =
    if type == type_string
    then (do s ← read_string; pure (text_value s))
    else (do n ← read_uinteger; pure (number_value n))

unfoldable pub read_name : Bool → Read (Option Text)
read_name has_name = if has_name then read_string else pure none

unfoldable pub read_socket_meta : Bool → Bool → Read SocketMeta
read_socket_meta has_name has_default = do
  name ← read_name has_name
  description ← read_string
  byte ← read_byte
  let type = enumeration_of byte
  default_value ← if has_default then read_default type else pure (number_value 0)
  pure (record {
    name = name;
    description = description;
    type = type;
    default_value = default_value;
  })

unfoldable pub read_sockets : ℕ → Read (List SocketMeta)
read_sockets zero = pure []
read_sockets (suc n) = do
  meta ← read_socket_meta true true
  metas ← read_sockets n
  pure (meta ∷ metas)

unfoldable pub read_definition : Bool → Read NodeDefinition
read_definition has_name = do
  name ← read_name has_name
  description ← read_string
  num_sockets ← read_uinteger
  start_output_index ← read_uinteger
  sockets ← read_sockets num_sockets
  pure (record {
    name = name;
    description = description;
    sockets = sockets;
    start_output_index = start_output_index;
    infinite_inputs = false;
  })
