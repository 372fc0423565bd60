-- ===== src/Graph/Build.antt =====
-- Building graphs: `add_edge`, `d_graph_add_wire`, `d_graph_add_node` and `d_graph_free` of
-- src/dgraph.c. Undefined behaviour is `none`, also a text that does not fit its array. Of the text of
-- an error there is the length; the report keeps its values.
use Prim.Native.Nat.{bit_and}
use decision.Prelude.{
  ℕ, zero, suc, ◌+◌, ◌/◌, Bool, true, false, not, ◌&&◌, List, [], ◌∷◌, ◌++◌, Option, none, some,
  ◌>>=◌, length, get_elem?, take, drop, ltb, ◌==◌, if◌then◌else◌,
}
use decision.Prelude.Chars.{codes}
use decision.Dtype.{d_type_name, type_none, type_execution, type_string}
use decision.Graph.{LexData, SocketMeta, NodeSocket, Wire, Node, Graph, empty_graph}
use decision.Graph.Query.{
  d_is_node_index_valid, d_is_node_socket_valid, d_get_socket_meta, d_is_input_socket,
}
use decision.Graph.Wires.{
  more, d_wire_cmp, Probe, hit, miss, search_loop, is_from, d_wire_find_first,
  d_socket_num_connections,
}

-- The errors: the line, and for the first two the socket and its number of connections.
pub data GraphError : Type 0 where
  many_inputs : ℕ → NodeSocket → ℕ → GraphError
  many_outputs : ℕ → NodeSocket → ℕ → GraphError
  type_mismatch : ℕ → Wire → GraphError

-- The last `middle` of the search loop of `add_edge`.
unfoldable pub last_middle : Probe → ℕ
last_middle (hit m) = m
last_middle (miss m) = m

-- Where `add_edge` puts a wire. In an empty array, which is a NULL pointer, it is the first one.
unfoldable pub insert_index : Wire → List Wire → Option ℕ
insert_index wire [] = some 0
insert_index wire (w ∷ ws) = do
  let wires = w ∷ ws
  p ← search_loop (length wires) (λ v. d_wire_cmp wire v) wires 0 (length wires) 0
  at ← get_elem? wires (last_middle p)
  some (elim (d_wire_cmp wire at) [ more ↦ last_middle p + 1 | _ ↦ last_middle p ])

-- The array after the insertion: the `memmove` that opens a gap, and the store.
unfoldable pub insert_wire : Wire → List Wire → Option (List Wire)
insert_wire wire wires = do i ← insert_index wire wires; some (take i wires ++ wire ∷ drop i wires)

-- The decimal digits of a number of 64 bits, which are 20 at most.
unfoldable pub digits_from : ℕ → ℕ → ℕ
digits_from zero n = 1
digits_from (suc fuel) n = let rest = digits_from fuel (n / 10) in if ltb n 10 then 1 else suc rest

unfoldable pub decimal_length : ℕ → ℕ
decimal_length n = digits_from 20 n

abbrev pub max_error_size : ℕ
max_error_size = 256

-- `ERROR_COMPILER` and `d_error_compiler_push`, of a message with the length. It becomes a part of
-- "Fatal: (path:line) message", in an array of the same size.
unfoldable pub report : ℕ → ℕ → ℕ → GraphError → Option (List GraphError)
report path_length line length_message e =
    if ltb (11 + path_length + decimal_length line + length_message) max_error_size
    then some (e ∷ [])
    else none

-- The loop of `add_edge` that writes the line numbers into `connLineNums`, from the index on: the
-- index of the end. Each of the writes ends with a null byte. The source tests the index after the
-- writes, when it is still inside of the array.
unfoldable pub line_nums : Graph → NodeSocket → Bool → ℕ → List Wire → Option ℕ
line_nums g s first index [] = some index
line_nums g s first index (w ∷ ws) =
    let node_index = w.socket_to.node_index in
    let after_invalid = line_nums g s false index ws in
    elim (is_from s w) [
      | false ↦ some index
      | true ↦ elim (d_is_node_index_valid g node_index) [
        | false ↦ after_invalid
        | true ↦ elim (get_elem? g.nodes node_index) [
          | none ↦ none
          | some node ↦
              (let start = if first then index else index + 2 in
                let end = start + decimal_length node.line_num in
                elim (ltb start max_error_size && ltb end max_error_size) [
                  | false ↦ none
                  | true ↦ line_nums g s false end ws
                ])
        ]
      ]
    ]

unfoldable pub conn_line_nums : Graph → NodeSocket → Option ℕ
conn_line_nums g s = do
  wire_start ← d_wire_find_first g.wires s
  elim wire_start [ none ↦ some 0 | some i ↦ line_nums g s true 0 (drop i g.wires) ]

-- The report at the end of `add_edge`, with the length of the line numbers.
unfoldable pub edge_errors : ℕ → Graph → NodeSocket → ℕ → Option (List GraphError)
edge_errors path_length g socket length_lines = do
  node ← get_elem? g.nodes socket.node_index
  num_connections ← d_socket_num_connections g.wires socket
  meta ← d_get_socket_meta g socket
  is_input ← d_is_input_socket g socket
  let many = ltb 1 num_connections
  let numbers = decimal_length socket.socket_index + decimal_length num_connections + length_lines
  if many && not (meta.type == type_execution) && is_input
      then report path_length node.line_num (77 + numbers)
          (many_inputs node.line_num socket num_connections)
      else if many && meta.type == type_execution && not is_input
      then report path_length node.line_num (74 + numbers)
          (many_outputs node.line_num socket num_connections)
      else some []

unfoldable pub add_edge : ℕ → Graph → Wire → Option (Graph × List GraphError)
add_edge path_length g wire = do
  wires ← insert_wire wire g.wires
  let g₁ = record g { wires = wires }
  length_lines ← conn_line_nums g₁ wire.socket_from
  errors ← edge_errors path_length g₁ wire.socket_from length_lines
  some (g₁, errors)

-- The other direction of a wire.
abbrev pub opposite : Wire → Wire
opposite wire = record { socket_from = wire.socket_to; socket_to = wire.socket_from }

-- The length of the message about the types of both ends, which have names, as do the definitions.
unfoldable pub mismatch_length : Wire → Node → Node → SocketMeta → SocketMeta → Option ℕ
mismatch_length wire from_node to_node from_meta to_meta = do
  from_type ← d_type_name from_meta.type
  to_type ← d_type_name to_meta.type
  from_def ← from_node.definition
  to_def ← to_node.definition
  from_name ← from_def.name
  to_name ← to_def.name
  some (
      124
      + (length (codes from_type) + length (codes to_type))
      + (length from_name + length to_name)
      + (decimal_length (wire.socket_from.socket_index + 1)
          + decimal_length (wire.socket_to.socket_index + 1))
      + (decimal_length (length from_def.sockets) + decimal_length (length to_def.sockets))
      + (decimal_length from_node.line_num + decimal_length to_node.line_num))

-- The check of the types of both ends.
unfoldable pub type_errors : ℕ → Graph → Wire → Option (List GraphError)
type_errors path_length g wire = do
  from_meta ← d_get_socket_meta g wire.socket_from
  to_meta ← d_get_socket_meta g wire.socket_to
  from_node ← get_elem? g.nodes wire.socket_from.node_index
  to_node ← get_elem? g.nodes wire.socket_to.node_index
  if bit_and from_meta.type to_meta.type == type_none
      then (do
        length_message ← mismatch_length wire from_node to_node from_meta to_meta
        report path_length to_node.line_num length_message (type_mismatch to_node.line_num wire))
      else some []

-- What `d_graph_add_wire` answers, the graph after it, and what it reports.
pub record Added : Type 0 where
  pub accepted : Bool
  pub graph : Graph
  pub errors : List GraphError

-- Of the path of the file, only the length matters.
unfoldable pub d_graph_add_wire : ℕ → Graph → Wire → Option Added
d_graph_add_wire path_length g wire =
    if not (d_is_node_socket_valid g wire.socket_from)
    then some (record { accepted = false; graph = g; errors = [] })
    else if not (d_is_node_socket_valid g wire.socket_to)
    then some (record { accepted = false; graph = g; errors = [] })
    else (do
      first ← add_edge path_length g wire
      second ← add_edge path_length first.0 (opposite wire)
      types ← type_errors path_length second.0 wire
      some (record { accepted = true; graph = second.0; errors = first.1 ++ second.1 ++ types }))

-- `d_graph_add_node`: the graph with the node at its end, and its index.
unfoldable pub d_graph_add_node : Graph → Node → Graph × ℕ
d_graph_add_node g node =
    (record g { nodes = g.nodes ++ record node { stack_positions = none } ∷ [] }, length g.nodes)

-- The loop of `d_graph_free` over the first inputs of a node with literal values: the pointers it
-- frees. It reads the reduced types through a pointer that it does not test.
unfoldable pub free_literals : Option (List ℕ) → List LexData → ℕ → Option (List LexData)
free_literals types values zero = some []
free_literals types values (suc n) = do
  freed ← free_literals types values n
  ts ← types
  t ← get_elem? ts n
  v ← get_elem? values n
  some (if t == type_string then freed ++ v ∷ [] else freed)

unfoldable pub free_nodes : List Node → Option (List LexData)
free_nodes [] = some []
free_nodes (node ∷ nodes) = do
  freed ← elim (node.literal_values) [
    | none ↦ some []
    | some values ↦ free_literals node.reduced_types values node.start_output_index
  ]
  rest ← free_nodes nodes
  some (freed ++ rest)

-- `d_graph_free`: the empty graph, and the strings that it freed.
unfoldable pub d_graph_free : Graph → Option (Graph × List LexData)
d_graph_free g = do freed ← free_nodes g.nodes; some (empty_graph, freed)
