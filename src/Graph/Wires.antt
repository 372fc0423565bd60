-- ===== src/Graph/Wires.antt =====
-- The array of wires, which src/dgraph.c keeps in order for binary search: comparing two wires,
-- finding the first wire from a socket, and counting the wires from it.
use decision.Prelude.{
  ℕ, zero, suc, ◌+◌, ◌-◌, ◌/◌, Bool, true, false, ◌&&◌, List, [], ◌∷◌, Option, none, some, ◌>>=◌,
  length, get_elem?, drop, ltb, ◌==◌, if◌then◌else◌,
}
use decision.Graph.{NodeSocket, Wire}

-- The results -1, 0 and 1.
pub data Sign : Type 0 where
  less same more : Sign

-- `d_wire_cmp`. The third level tests `<` twice, as the source does.
unfoldable pub d_wire_cmp : Wire → Wire → Sign
d_wire_cmp a b =
    if ltb a.socket_from.node_index b.socket_from.node_index
    then less
    else if ltb b.socket_from.node_index a.socket_from.node_index
    then more
    else if ltb a.socket_from.socket_index b.socket_from.socket_index
    then less
    else if ltb b.socket_from.socket_index a.socket_from.socket_index
    then more
    else if ltb a.socket_to.node_index b.socket_to.node_index
    then less
    else if ltb a.socket_to.node_index b.socket_to.node_index
    then more
    else if ltb a.socket_to.socket_index b.socket_to.socket_index
    then less
    else if ltb b.socket_to.socket_index a.socket_to.socket_index
    then more
    else same

-- The comparison that `d_wire_find_first` makes of a socket with the source of a wire.
unfoldable pub socket_cmp : NodeSocket → NodeSocket → Sign
socket_cmp s t =
    if ltb s.node_index t.node_index
    then less
    else if ltb t.node_index s.node_index
    then more
    else if ltb s.socket_index t.socket_index
    then less
    else if ltb t.socket_index s.socket_index
    then more
    else same

-- The probes of the binary searches. `right` is kept as `hi`, one more, so that it is never
-- negative. A probe past the array, and the fuel's end, are `none`.
pub data Probe : Type 0 where
  hit miss : ℕ → Probe

-- The loop of `d_wire_find_first` and of `add_edge`, for the comparison `cmp` with a wire: the last
-- `middle`, and whether the comparison there was 0.
unfoldable pub search_loop : ℕ → (Wire → Sign) → List Wire → ℕ → ℕ → ℕ → Option Probe
search_loop zero cmp wires left hi middle = if ltb left hi then none else some (miss middle)
search_loop (suc fuel) cmp wires left hi middle =
    let m = (left + hi - 1) / 2 in
    elim (ltb left hi) [
      | false ↦ some (miss middle)
      | true ↦ elim (get_elem? wires m) [
        | none ↦ none
        | some w ↦ elim (cmp w) [
          | more ↦ search_loop fuel cmp wires (m + 1) hi m
          | less ↦ search_loop fuel cmp wires left m m
          | same ↦ some (hit m)
        ]
      ]
    ]

-- `socket` is the source of the wire.
abbrev pub is_from : NodeSocket → Wire → Bool
is_from s w =
    s.node_index == w.socket_from.node_index && s.socket_index == w.socket_from.socket_index

-- The second loop of `d_wire_find_first`: back from `middle` to the first wire from the socket.
unfoldable pub scan_back : NodeSocket → List Wire → ℕ → Option ℕ
scan_back s wires zero = do w ← get_elem? wires 0; some (if is_from s w then 0 else 1)
scan_back s wires (suc m) = do
  let earlier = scan_back s wires m
  w ← get_elem? wires (suc m)
  if is_from s w then earlier else some (m + 2)

-- `d_wire_find_first`; the inner `none` is -1.
unfoldable pub d_wire_find_first : List Wire → NodeSocket → Option (Option ℕ)
d_wire_find_first wires s = do
  p ← search_loop (length wires) (λ w. socket_cmp s w.socket_from) wires 0 (length wires) 0
  elim p [ miss m ↦ some none | hit m ↦ (do i ← scan_back s wires m; some (some i)) ]

-- `IS_WIRE_FROM` in a loop from an index: the wires from the socket that stand at the head.
unfoldable pub run_length : NodeSocket → List Wire → ℕ
run_length s [] = 0
run_length s (w ∷ ws) = if is_from s w then suc (run_length s ws) else 0

unfoldable pub d_socket_num_connections : List Wire → NodeSocket → Option ℕ
d_socket_num_connections wires s = do
  first ← d_wire_find_first wires s
  elim first [ none ↦ some 0 | some i ↦ some (run_length s (drop i wires)) ]
