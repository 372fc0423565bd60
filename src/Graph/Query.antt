-- ===== src/Graph/Query.antt =====
-- The questions that src/dgraph.c answers about definitions, nodes and sockets. Reading through a
-- NULL definition or past an array is undefined behaviour, the outer `none`.
use decision.Prelude.{
  ℕ, ◌+◌, ◌-◌, Bool, true, false, not, ◌||◌, List, [], ◌∷◌, Option, none, some, ◌>>=◌, length,
  get_elem?, ltb, leb, ◌==◌, if◌then◌else◌, word_mod, ◌%◌,
}
use decision.Dtype.{type_none, type_execution}
use decision.Graph.{number_value, SocketMeta, NodeDefinition, NodeSocket, Node, Graph}

unfoldable pub d_definition_num_inputs : Option NodeDefinition → ℕ
d_definition_num_inputs none = 0
d_definition_num_inputs (some d) = d.start_output_index

-- A difference of two `size_t`.
unfoldable pub d_definition_num_outputs : Option NodeDefinition → ℕ
d_definition_num_outputs none = 0
d_definition_num_outputs (some d) = (length d.sockets + word_mod - d.start_output_index) % word_mod

unfoldable pub has_execution : List SocketMeta → Bool
has_execution [] = false
has_execution (s ∷ ss) = s.type == type_execution || has_execution ss

unfoldable pub d_is_execution_definition : Option NodeDefinition → Bool
d_is_execution_definition none = false
d_is_execution_definition (some d) = has_execution d.sockets

unfoldable pub d_is_node_index_valid : Graph → ℕ → Bool
d_is_node_index_valid g node_index = ltb node_index (length g.nodes)

unfoldable pub d_node_num_inputs : Graph → ℕ → Option ℕ
d_node_num_inputs g node_index = if not (d_is_node_index_valid g node_index) then some 0 else (do
  node ← get_elem? g.nodes node_index
  d ← node.definition
  some (
      if d.infinite_inputs
      then node.start_output_index
      else d_definition_num_inputs node.definition))

unfoldable pub d_node_num_outputs : Graph → ℕ → Option ℕ
d_node_num_outputs g node_index =
    if not (d_is_node_index_valid g node_index)
    then some 0
    else (do node ← get_elem? g.nodes node_index; some (d_definition_num_outputs node.definition))

unfoldable pub d_is_execution_node : Graph → ℕ → Option Bool
d_is_execution_node g node_index =
    if not (d_is_node_index_valid g node_index)
    then some false
    else (do node ← get_elem? g.nodes node_index; some (d_is_execution_definition node.definition))

unfoldable pub d_is_socket_index_valid : Option NodeDefinition → ℕ → Bool
d_is_socket_index_valid none socket_index = false
d_is_socket_index_valid (some d) socket_index =
    if d.infinite_inputs then true else ltb socket_index (length d.sockets)

-- The result is a pointer: `none` is NULL.
unfoldable pub d_get_node_definition : Graph → ℕ → Option NodeDefinition
d_get_node_definition g node_index =
    if not (d_is_node_index_valid g node_index)
    then none
    else (do node ← get_elem? g.nodes node_index; node.definition)

unfoldable pub d_is_node_socket_valid : Graph → NodeSocket → Bool
d_is_node_socket_valid g socket =
    if not (d_is_node_index_valid g socket.node_index)
    then false
    else (elim (d_get_node_definition g socket.node_index) [
      | none ↦ false
      | some d ↦ d_is_socket_index_valid (some d) socket.socket_index
    ])

unfoldable pub d_is_input_socket : Graph → NodeSocket → Option Bool
d_is_input_socket g socket = if not (d_is_node_socket_valid g socket) then some false else (do
  node ← get_elem? g.nodes socket.node_index
  d ← node.definition
  some (
      ltb socket.socket_index
        (if d.infinite_inputs then node.start_output_index else d.start_output_index)))

-- The socket of the definition that describes socket `socket_index` of a node with any number of
-- inputs: the last input of the definition stands for all the extra ones.
unfoldable pub definition_socket : NodeDefinition → Node → ℕ → Option ℕ
definition_socket d node socket_index =
    if leb node.start_output_index socket_index
    then some (socket_index + d.start_output_index - node.start_output_index)
    else if leb d.start_output_index socket_index
    then (if d.start_output_index == 0 then none else some (d.start_output_index - 1))
    else some socket_index

abbrev pub no_meta : SocketMeta
no_meta = record {
  name = none;
  description = none;
  type = type_none;
  default_value = number_value 0;
}

unfoldable pub reduced_type : Node → ℕ → SocketMeta → Option SocketMeta
reduced_type node i meta = elim (node.reduced_types) [
  | none ↦ some meta
  | some types ↦ (do t ← get_elem? types i; some (record meta { type = t }))
]

unfoldable pub literal_value : Node → ℕ → SocketMeta → Option SocketMeta
literal_value node i meta = elim (node.literal_values) [
  | none ↦ some meta
  | some values ↦
      if ltb i node.start_output_index
      then (do v ← get_elem? values i; some (record meta { default_value = v }))
      else some meta
]

unfoldable pub d_get_socket_meta : Graph → NodeSocket → Option SocketMeta
d_get_socket_meta g socket = if not (d_is_node_socket_valid g socket) then some no_meta else (do
  node ← get_elem? g.nodes socket.node_index
  d ← node.definition
  i ←
      (if d.infinite_inputs
        then definition_socket d node socket.socket_index
        else some socket.socket_index)
  meta ← get_elem? d.sockets i
  typed ← reduced_type node socket.socket_index meta
  literal_value node socket.socket_index typed)
