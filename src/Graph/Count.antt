-- ===== src/Graph/Count.antt =====
-- Counting the wires from a socket: `d_socket_num_connections` of src/dgraph.c.
use decision.Prelude.{
  ℕ, suc, ◌≡◌, refl, inl, inr, sym, ap, ◌∙◌, List, [], ◌∷◌, Option, none, some, drop, arith,
  Bool-cases, bind-some, if_true, if_false,
}
use decision.Graph.{NodeSocket, Wire}
use decision.Graph.Wires.{is_from, run_length, d_socket_num_connections}
use decision.Graph.Order.{Under, AllFrom, IsSorted, first_from, num_from}
use decision.Graph.Find.{outside, is_from-true, is_from-false, d_wire_find_first_lem}

num_from-zero : (s t : NodeSocket) (ws : List Wire) → Under s t → AllFrom t ws → num_from s ws ≡ 0
num_from-zero s t [] u h = refl
num_from-zero s t (w ∷ ws) u h =
    if_false _ _ (outside s w (inr (ground (arith, h.0)))) ∙ num_from-zero s t ws u (h.1)

-- From the first wire of a socket on, its wires stand together.
run_length-num_from :
    (s : NodeSocket) (ws : List Wire) → AllFrom s ws → IsSorted ws → run_length s ws ≡ num_from s ws
unfolding run_length
run_length-num_from s [] h sorted = refl
run_length-num_from s (w ∷ ws) h sorted = elim (Bool-cases (is_from s w)) [
  | inl c ↦ simp (c, run_length-num_from s ws (h.1) (sorted.1))
  | inr c ↦
      simp (
        c,
        num_from-zero s (w.socket_from) ws (ground (arith, h.0, is_from-false s w c)) (sorted.0),
      )
]

AllFrom-from :
    (s t : NodeSocket) (ws : List Wire)
    → s.node_index ≡ t.node_index
    → s.socket_index ≡ t.socket_index
    → AllFrom t ws
    → AllFrom s ws
AllFrom-from s t [] e f h = tt
AllFrom-from s t (w ∷ ws) e f h = (ground (arith, h.0), AllFrom-from s t ws e f (h.1))

-- What `d_socket_num_connections` does with the first index.
abbrev connections_at : NodeSocket → List Wire → Option ℕ → ℕ
connections_at s ws none = 0
connections_at s ws (some i) = run_length s (drop i ws)

connections_at-suc :
    (s : NodeSocket) (w : Wire) (ws : List Wire) (o : Option ℕ)
    → connections_at s (w ∷ ws) (elim o [ none ↦ none | some i ↦ some (suc i) ])
      ≡ connections_at s ws o
connections_at-suc s w ws none = refl
connections_at-suc s w ws (some i) = refl

connections_at-some :
    (s : NodeSocket) (ws : List Wire) (o : Option ℕ)
    → elim o [ none ↦ some 0 | some i ↦ some (run_length s (drop i ws)) ]
      ≡ some (connections_at s ws o)
connections_at-some s ws none = refl
connections_at-some s ws (some i) = refl

connections_at_lem :
    (s : NodeSocket) (ws : List Wire)
    → IsSorted ws
    → connections_at s ws (first_from s ws) ≡ num_from s ws
connections_at_lem s [] sorted = refl
connections_at_lem s (w ∷ ws) sorted = elim (Bool-cases (is_from s w)) [
  | inl c ↦
      let (same_node, same_socket) = is_from-true s w c in
      let all = AllFrom-from s (w.socket_from) ws same_node same_socket (sorted.0) in
      ap (connections_at s (w ∷ ws)) (if_true _ _ c)
      ∙ run_length-num_from s (w ∷ ws) (inr (same_node, omega arith), all) sorted
  | inr c ↦
      ap (connections_at s (w ∷ ws)) (if_false _ _ c)
      ∙ connections_at-suc s w ws (first_from s ws)
      ∙ connections_at_lem s ws (sorted.1)
      ∙ sym (if_false _ _ c)
]

-- In a sorted array `d_socket_num_connections` counts every wire that starts at the socket.
pub d_socket_num_connections_lem :
    (wires : List Wire) (s : NodeSocket)
    → IsSorted wires
    → d_socket_num_connections wires s ≡ some (num_from s wires)
unfolding d_socket_num_connections
d_socket_num_connections_lem wires s sorted =
    bind-some _ _ (d_wire_find_first_lem wires s sorted) (
      connections_at-some s wires (first_from s wires)
      ∙ ap some (connections_at_lem s wires sorted))
