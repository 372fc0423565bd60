-- ===== src/Graph/Tests.antt =====
-- The theorems about graphs at a small graph of three nodes and its wires.
use decision.Prelude.{ℕ, ◌≡◌, refl, true, false, List, [], ◌∷◌, none, some, inl, zero, suc, arith}
use decision.Dtype.{type_int}
use decision.Graph.{number_value, SocketMeta, NodeDefinition, NodeSocket, Wire, Node, Graph}
use decision.Graph.Query.{
  d_is_node_index_valid, d_get_node_definition, d_is_socket_index_valid, d_is_node_socket_valid,
  d_get_socket_meta, d_is_input_socket, reduced_type, literal_value,
}
use decision.Graph.Wires.{
  less, socket_cmp, d_wire_cmp, d_wire_find_first, d_socket_num_connections, search_loop, scan_back,
  run_length,
}
use decision.Graph.Order.{IsSorted, first_from, num_from}
use decision.Graph.Find.{d_wire_find_first_lem}
use decision.Graph.Count.{d_socket_num_connections_lem}
use decision.Graph.Insert.{Inserted, insert_wire_lem, d_wire_cmp-both_less}
use decision.Graph.Build.{
  many_inputs, insert_index, insert_wire, last_middle, edge_errors, add_edge, type_errors, Added,
  d_graph_add_wire, conn_line_nums, line_nums, report, decimal_length, digits_from,
}
use decision.Graph.AddWire.{Known, HasRoom}

abbrev socket : ℕ → ℕ → NodeSocket
socket n s = record { node_index = n; socket_index = s }

abbrev wire : ℕ → ℕ → ℕ → ℕ → Wire
wire a s b t = record { socket_from = socket a s; socket_to = socket b t }

abbrev meta_of : ℕ → SocketMeta
meta_of t = record { name = none; description = none; type = t; default_value = number_value 0 }

-- Two inputs and an output.
abbrev adder : NodeDefinition
adder = record {
  name = some (65 ∷ 100 ∷ 100 ∷ []);
  description = none;
  sockets = meta_of type_int ∷ meta_of type_int ∷ meta_of type_int ∷ [];
  start_output_index = 2;
  infinite_inputs = false;
}

abbrev node_of : NodeDefinition → ℕ → Node
node_of d line = record {
  definition = some d;
  line_num = line;
  stack_positions = none;
  reduced_types = none;
  literal_values = none;
  start_output_index = 2;
}

-- Three nodes and the wire from the output of the first to input 1 of the third, both ways.
abbrev sample : Graph
sample = record {
  nodes = node_of adder 1 ∷ node_of adder 2 ∷ node_of adder 3 ∷ [];
  wires = wire 0 2 2 1 ∷ wire 2 1 0 2 ∷ [];
}

from_known : Known sample (socket 1 2)
unfolding d_get_socket_meta d_is_input_socket d_is_node_socket_valid d_is_socket_index_valid
    d_get_node_definition d_is_node_index_valid reduced_type literal_value
from_known = record {
  node = node_of adder 2;
  meta = meta_of type_int;
  is_input = false;
  at_node = refl;
  has_meta = refl;
  has_side = refl;
}

to_known : Known sample (socket 2 1)
unfolding from_known
to_known = record {
  node = node_of adder 3;
  meta = meta_of type_int;
  is_input = true;
  at_node = refl;
  has_meta = refl;
  has_side = refl;
}

sample-IsSorted : IsSorted (sample.wires)
sample-IsSorted = ((inl (omega arith), tt), (tt, tt))

-- A second wire to input 1 of the third node: it is added, and reported there.
abbrev added : Added
added = record {
  accepted = true;
  graph = record sample { wires = wire 0 2 2 1 ∷ wire 1 2 2 1 ∷ wire 2 1 1 2 ∷ wire 2 1 0 2 ∷ [] };
  errors = many_inputs 3 (socket 2 1) 2 ∷ [];
}

-- The path of the file has 8 bytes.
second_wire : d_graph_add_wire 8 sample (wire 1 2 2 1) ≡ some added
unfolding from_known d_graph_add_wire add_edge insert_wire insert_index last_middle edge_errors
    type_errors d_socket_num_connections d_wire_find_first search_loop scan_back run_length
    d_wire_cmp socket_cmp conn_line_nums line_nums report decimal_length digits_from
second_wire = refl

from_room : HasRoom 8 sample (socket 1 2) 2 (wire 1 2 2 1 ∷ sample.wires)
unfolding from_known decimal_length digits_from
from_room = record { lines = omega arith; message = inl refl }

-- Eighty-six wires at one socket, from nodes on lines of one digit: their line numbers do not fit.
abbrev wires_at : ℕ → List Wire
wires_at zero = []
wires_at (suc n) = wire 2 1 0 2 ∷ wires_at n

many_lines :
    (conn_line_nums (record sample { wires = wires_at 85 }) (socket 2 1) ≡ some 253)
    × (conn_line_nums (record sample { wires = wires_at 86 }) (socket 2 1) ≡ none)
unfolding second_wire
many_lines = (refl, refl)

d_wire_find_first_lem_example :
    d_wire_find_first (sample.wires) (socket 2 1) ≡ some (first_from (socket 2 1) (sample.wires))
d_wire_find_first_lem_example = d_wire_find_first_lem (sample.wires) (socket 2 1) sample-IsSorted

d_socket_num_connections_lem_example :
    d_socket_num_connections (sample.wires) (socket 2 1)
    ≡ some (num_from (socket 2 1) (sample.wires))
d_socket_num_connections_lem_example =
    d_socket_num_connections_lem (sample.wires) (socket 2 1) sample-IsSorted

insert_wire_lem_example :
    (ws : List Wire) × (insert_wire (wire 1 2 2 1) (sample.wires) ≡ some ws)
    × Inserted (wire 1 2 2 1) (sample.wires) ws
insert_wire_lem_example = insert_wire_lem (wire 1 2 2 1) (sample.wires) sample-IsSorted

d_wire_cmp-both_less_example :
    (d_wire_cmp (wire 0 2 2 0) (wire 0 2 1 1) ≡ less)
    × (d_wire_cmp (wire 0 2 1 1) (wire 0 2 2 0) ≡ less)
d_wire_cmp-both_less_example =
    d_wire_cmp-both_less (wire 0 2 2 0) (wire 0 2 1 1) refl refl (omega arith) (omega arith)
