-- ===== src/Object/Definitions.antt =====
-- The texts, sockets and definitions that src/dobj.c writes, and that it reads them back.
use mathlib.Core.List.{append-nil}
use decision.Prelude.{
  ℕ, ◌<◌, ◌≡◌, sym, subst, Bool, true, false, List, [], ◌∷◌, ◌++◌, Option, none, some, length, ◌==◌,
  arith, word_mod, if_true, if_false, if◌then◌else◌,
}
use decision.Dtype.{type_string}
use decision.Graph.{Text, LexData, number_value, text_value, SocketMeta, NodeDefinition}
use decision.Optimize.{number_bytes}
use decision.Object.Reader.{
  Read, ◌>>=◌, pure, read_string, read_uinteger, read_name, read_default, read_socket_meta,
  read_sockets, read_definition, enumeration_of,
}
use decision.Object.Reads.{Reads, bind-Reads, pure-Reads}
use decision.Object.Texts.{byte-Reads, uinteger-Reads, string-Reads, IsText}

-- A NULL text is stored as an empty one, and comes back as that.
abbrev pub text_again : Option Text → Option Text
text_again none = some []
text_again (some s) = some s

abbrev pub IsStoredText : Option Text → Type 0
IsStoredText none = Unit {0}
IsStoredText (some s) = IsText s

abbrev pub text_bytes : Option Text → List ℕ
text_bytes none = 0 ∷ []
text_bytes (some s) = s ++ 0 ∷ []

abbrev pub default_again : LexData → LexData
default_again (number_value n) = number_value n
default_again (text_value s) = text_value (text_again s)

-- The value is of the kind that the type says.
abbrev pub IsStoredDefault : ℕ → LexData → Type 0
IsStoredDefault type (number_value n) = ((type == type_string) ≡ false) × (n < word_mod)
IsStoredDefault type (text_value s) = ((type == type_string) ≡ true) × IsStoredText s

abbrev pub default_bytes : LexData → List ℕ
default_bytes (number_value n) = number_bytes 8 n
default_bytes (text_value s) = text_bytes s

pub record IsStoredSocket (m : SocketMeta) : Type 0 where
  pub name : IsStoredText m.name
  pub description : IsStoredText m.description
  pub type : m.type < 128
  pub default_value : IsStoredDefault m.type m.default_value

abbrev pub socket_again : SocketMeta → SocketMeta
socket_again m = record m {
  name = text_again m.name;
  description = text_again m.description;
  default_value = default_again m.default_value;
}

abbrev pub socket_bytes : SocketMeta → List ℕ
socket_bytes m =
    text_bytes m.name ++ (text_bytes m.description ++ m.type ∷ default_bytes m.default_value)

abbrev pub AllStoredSockets : List SocketMeta → Type 0
AllStoredSockets [] = Unit {0}
AllStoredSockets (m ∷ ms) = IsStoredSocket m × AllStoredSockets ms

abbrev pub sockets_again : List SocketMeta → List SocketMeta
sockets_again [] = []
sockets_again (m ∷ ms) = socket_again m ∷ sockets_again ms

abbrev pub sockets_bytes : List SocketMeta → List ℕ
sockets_bytes [] = []
sockets_bytes (m ∷ ms) = socket_bytes m ++ sockets_bytes ms

pub record IsStoredDefinition (d : NodeDefinition) : Type 0 where
  pub name : IsStoredText d.name
  pub description : IsStoredText d.description
  pub num_sockets : length d.sockets < word_mod
  pub start_output_index : d.start_output_index < word_mod
  pub sockets : AllStoredSockets d.sockets

-- The definition that comes back: with its name or without, and with no more any number of inputs.
abbrev pub name_again : Bool → Option Text → Option Text
name_again has_name name = if has_name then text_again name else none

abbrev pub definition_again : Bool → NodeDefinition → NodeDefinition
definition_again has_name d = record {
  name = name_again has_name d.name;
  description = text_again d.description;
  sockets = sockets_again d.sockets;
  start_output_index = d.start_output_index;
  infinite_inputs = false;
}

abbrev pub name_bytes : Bool → Option Text → List ℕ
name_bytes has_name name = if has_name then text_bytes name else []

abbrev pub definition_bytes : Bool → NodeDefinition → List ℕ
definition_bytes has_name d =
    name_bytes has_name d.name
    ++ (text_bytes d.description
        ++ (number_bytes 8 (length d.sockets)
            ++ (number_bytes 8 d.start_output_index ++ sockets_bytes d.sockets)))

-- A last action that gives a function of what was read.
pub map-Reads :
    {A B : Type 0} {m : Read A} (f : A → B) {bs : List ℕ} {a : A}
    → Reads m bs a
    → Reads (m >>= λ x. pure (f x)) bs (f a)
map-Reads {m = m} f {bs = bs} {a = a} h =
    subst (λ cs. Reads (m >>= λ x. pure (f x)) cs (f a)) (append-nil bs)
      (bind-Reads (λ x. pure (f x)) h (pure-Reads (f a)))

pub text-Reads :
    (s : Option Text) → IsStoredText s → Reads read_string (text_bytes s) (text_again s)
text-Reads none h = string-Reads [] tt
text-Reads (some s) h = string-Reads s h

name-Reads :
    (has_name : Bool) (name : Option Text)
    → IsStoredText name
    → Reads (read_name has_name) (name_bytes has_name name) (name_again has_name name)
unfolding read_name
name-Reads true name h = text-Reads name h
name-Reads false name h = pure-Reads none

default-Reads :
    (type : ℕ) (d : LexData)
    → IsStoredDefault type d
    → Reads (read_default type) (default_bytes d) (default_again d)
unfolding read_default
default-Reads type (number_value n) h =
    subst (λ m. Reads m (number_bytes 8 n) (number_value n))
      (sym (if_false (do s ← read_string; pure (text_value s)) _ h.0))
      (map-Reads number_value (uinteger-Reads n h.1))
default-Reads type (text_value s) h =
    subst (λ m. Reads m (text_bytes s) (text_value (text_again s)))
      (sym (if_true _ (do n ← read_uinteger; pure (number_value n)) h.0))
      (map-Reads text_value (text-Reads s h.1))

pub enumeration_of-lt : (b : ℕ) → b < 128 → enumeration_of b ≡ b
enumeration_of-lt b h = ground arith

pub socket-Reads :
    (m : SocketMeta)
    → IsStoredSocket m
    → Reads (read_socket_meta true true) (socket_bytes m) (socket_again m)
unfolding read_socket_meta
socket-Reads m h = bind-Reads _ (name-Reads true m.name h.name) (
    bind-Reads _ (text-Reads m.description h.description) (
      bind-Reads _ (byte-Reads m.type) (
        subst
          (λ t.
            Reads
              (do
                v ← read_default t
                pure (record {
                  name = text_again m.name;
                  description = text_again m.description;
                  type = t;
                  default_value = v;
                }))
              (default_bytes m.default_value) (socket_again m))
          (sym (enumeration_of-lt m.type h.type))
          (map-Reads (λ v. record (socket_again m) { default_value = v })
            (default-Reads m.type m.default_value h.default_value)))))

sockets-Reads :
    (ms : List SocketMeta)
    → AllStoredSockets ms
    → Reads (read_sockets (length ms)) (sockets_bytes ms) (sockets_again ms)
unfolding read_sockets
sockets-Reads [] h = pure-Reads []
sockets-Reads (m ∷ ms) h =
    bind-Reads _ (socket-Reads m h.0)
      (map-Reads (λ rest. socket_again m ∷ rest) (sockets-Reads ms h.1))

pub definition-Reads :
    (has_name : Bool) (d : NodeDefinition)
    → IsStoredDefinition d
    → Reads (read_definition has_name) (definition_bytes has_name d) (definition_again has_name d)
unfolding read_definition
definition-Reads has_name d h = bind-Reads _ (name-Reads has_name d.name h.name) (
    bind-Reads _ (text-Reads d.description h.description) (
      bind-Reads _ (uinteger-Reads (length d.sockets) h.num_sockets) (
        bind-Reads _ (uinteger-Reads d.start_output_index h.start_output_index) (
          map-Reads (λ sockets. record (definition_again has_name d) { sockets = sockets })
            (sockets-Reads d.sockets h.sockets)))))
