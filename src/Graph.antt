-- ===== src/Graph.antt =====
-- Graphs of nodes and wires: the types of src/dgraph.h. Arrays are lists, so that `numNodes` and
-- `numWires` are their lengths; a pointer that may be NULL is an option.
pub mod Query
pub mod Wires
pub mod Build
pub mod Order
pub mod Search
pub mod Find
pub mod Count
pub mod Insert
pub mod AddWire
mod Tests
use decision.Prelude.{ℕ, Bool, List, [], Option}

-- A C string is the list of its bytes, without the null byte that ends it.
abbrev pub Text : Type 0
Text = List ℕ

-- The union `LexData`: a number, a truth value or the pattern of a float is its 64 bits.
pub data LexData : Type 0 where
  number_value : ℕ → LexData
  text_value : Option Text → LexData

pub record SocketMeta : Type 0 where
  pub name : Option Text
  pub description : Option Text
  pub type : ℕ
  pub default_value : LexData

pub record NodeDefinition : Type 0 where
  pub name : Option Text
  pub description : Option Text
  pub sockets : List SocketMeta
  pub start_output_index : ℕ
  pub infinite_inputs : Bool

pub record NodeSocket : Type 0 where
  pub node_index : ℕ
  pub socket_index : ℕ

pub record Wire : Type 0 where
  pub socket_from : NodeSocket
  pub socket_to : NodeSocket

-- The member `nameDefinition`, which only later stages read, is left out.
pub record Node : Type 0 where
  pub definition : Option NodeDefinition
  pub line_num : ℕ
  pub stack_positions : Option (List ℕ)
  pub reduced_types : Option (List ℕ)
  pub literal_values : Option (List LexData)
  pub start_output_index : ℕ

pub record Graph : Type 0 where
  pub nodes : List Node
  pub wires : List Wire

abbrev pub empty_graph : Graph
empty_graph = record { nodes = []; wires = [] }
