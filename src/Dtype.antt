-- ===== src/Dtype.antt =====
-- Data types of values and sockets: src/dtype.h and src/dtype.c. A `DType` is a set of flags, kept
-- as a number.
mod Tests
use Prim.Native.Nat.{bit_and}
use Prim.Native.String.{String}
use decision.Prelude.{
  ℕ, zero, suc, ◌+◌, ◌*◌, ◌≡◌, refl, Bool, true, false, Option, none, some, ltb, leb, ◌==◌,
  if◌then◌else◌, of_bool, arith,
}

abbrev pub type_none : ℕ
type_none = 0

abbrev pub type_execution : ℕ
type_execution = 1

abbrev pub type_int : ℕ
type_int = 2

abbrev pub type_float : ℕ
type_float = 4

abbrev pub type_string : ℕ
type_string = 8

abbrev pub type_bool : ℕ
type_bool = 16

abbrev pub type_name : ℕ
type_name = 32

-- The unions of flags that have a name: TYPE_NUMBER, TYPE_BITWISE, TYPE_COMPARABLE, TYPE_VAR_ANY.
abbrev pub type_number : ℕ
type_number = 6

abbrev pub type_bitwise : ℕ
type_bitwise = 18

abbrev pub type_comparable : ℕ
type_comparable = 14

abbrev pub type_var_any : ℕ
type_var_any = 30

-- `(vague & test) == test`.
abbrev pub has_type : ℕ → ℕ → Bool
has_type vague test = bit_and vague test == test

-- The loop of `d_type_is_vague`: `test` doubles until it is past TYPE_VAR_MAX.
pub vague_loop : ℕ → ℕ → ℕ → Bool → Bool
vague_loop zero vague test found = false
vague_loop (suc rounds) vague test found =
    let next = λ (f : Bool). vague_loop rounds vague (test * 2) f in
    elim (leb test type_bool) [
      | false ↦ false
      | true ↦ elim (has_type vague test) [
        | false ↦ next found
        | true ↦ elim found [ true ↦ true | false ↦ next true ]
      ]
    ]

-- `d_type_is_vague`. Five rounds are enough: the fifth one finds `test` past the last type.
unfoldable pub d_type_is_vague : ℕ → Bool
d_type_is_vague vague = vague_loop 5 vague type_int false

-- `d_type_name`; `none` is NULL.
unfoldable pub d_type_name : ℕ → Option String
d_type_name type =
    if type == type_execution
    then some "Execution"
    else if type == type_int
    then some "Integer"
    else if type == type_float
    then some "Float"
    else if type == type_string
    then some "String"
    else if type == type_bool
    then some "Boolean"
    else if type == type_name
    then some "Name"
    else if type == type_number
    then some "Number; Integer/Float"
    else if type == type_bitwise
    then some "Bitwise; Integer/Boolean"
    else if type == type_comparable
    then some "Comparable; Integer/Float/String"
    else if type == type_var_any
    then some "Any; Integer/Float/String/Boolean"
    else none

-- How many of the four types of variables a type allows.
abbrev pub variable_types : ℕ → ℕ
variable_types t =
    of_bool (has_type t type_int)
    + of_bool (has_type t type_float)
    + of_bool (has_type t type_string)
    + of_bool (has_type t type_bool)

-- A type is vague exactly when it allows two or more of the types that a variable can have.
pub d_type_is_vague_lem : (t : ℕ) → d_type_is_vague t ≡ leb 2 (variable_types t)
unfolding d_type_is_vague vague_loop
d_type_is_vague_lem t = ground arith
