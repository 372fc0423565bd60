-- ===== src/Graph/Order.antt =====
-- The order of sockets that the array of wires of src/dgraph.c is kept in, and what finding and
-- counting mean by a plain scan of the array.
use decision.Prelude.{
  ℕ, zero, suc, ◌≤◌, ◌<◌, ◌≡◌, ◌⊎◌, List, [], ◌∷◌, Option, none, some, if◌then◌else◌, get_elem?,
  arith,
}
use decision.Graph.{NodeSocket, Wire}
use decision.Graph.Wires.{is_from}

abbrev pub AtMost : NodeSocket → NodeSocket → Type 0
AtMost a b =
    (a.node_index < b.node_index)
    ⊎ ((a.node_index ≡ b.node_index) × (a.socket_index ≤ b.socket_index))

abbrev pub Under : NodeSocket → NodeSocket → Type 0
Under a b =
    (a.node_index < b.node_index)
    ⊎ ((a.node_index ≡ b.node_index) × (a.socket_index < b.socket_index))

-- Each wire of the list starts at `s` or after it.
abbrev pub AllFrom : NodeSocket → List Wire → Type 0
AllFrom s [] = Unit {0}
AllFrom s (w ∷ ws) = AtMost s w.socket_from × AllFrom s ws

-- The wires stand in the order of the sockets that they start from.
abbrev pub IsSorted : List Wire → Type 0
IsSorted [] = Unit {0}
IsSorted (w ∷ ws) = AllFrom w.socket_from ws × IsSorted ws

-- The first wire from a socket, and the number of wires from it, by a scan.
abbrev pub first_from : NodeSocket → List Wire → Option ℕ
first_from s [] = none
first_from s (w ∷ ws) =
    if is_from s w then some 0 else elim (first_from s ws) [ none ↦ none | some i ↦ some (suc i) ]

abbrev pub num_from : NodeSocket → List Wire → ℕ
num_from s [] = 0
num_from s (w ∷ ws) = if is_from s w then suc (num_from s ws) else num_from s ws

AllFrom-at :
    (s : NodeSocket) (ws : List Wire) (i : ℕ) (w : Wire)
    → AllFrom s ws
    → get_elem? ws i ≡ some w
    → AtMost s w.socket_from
AllFrom-at s [] i w h e = cc e
AllFrom-at s (v ∷ ws) zero w h e = ground (arith, h, e)
AllFrom-at s (v ∷ ws) (suc i) w h e = AllFrom-at s ws i w (h.1) e

-- In a sorted array a wire starts at or before each later one.
pub IsSorted-at :
    (ws : List Wire) (i j : ℕ) (v w : Wire)
    → IsSorted ws
    → i ≤ j
    → get_elem? ws i ≡ some v
    → get_elem? ws j ≡ some w
    → AtMost (v.socket_from) (w.socket_from)
IsSorted-at [] i j v w h le e f = cc e
IsSorted-at (x ∷ ws) zero zero v w h le e f = ground (arith, e, f)
IsSorted-at (x ∷ ws) zero (suc j) v w h le e f =
    ground (arith, e, AllFrom-at (x.socket_from) ws j w (h.0) f)
IsSorted-at (x ∷ ws) (suc i) zero v w h le e f = absurd (omega arith)
IsSorted-at (x ∷ ws) (suc i) (suc j) v w h le e f = IsSorted-at ws i j v w (h.1) (omega arith) e f
