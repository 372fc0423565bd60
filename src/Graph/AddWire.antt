-- ===== src/Graph/AddWire.antt =====
-- What `add_edge` and `d_graph_add_wire` of src/dgraph.c promise of the graph and its errors.
use mathlib.Core.List.{Perm}
use mathlib.Core.List.Perm
use mathlib.Core.Path.{ap₂}
use decision.Graph.Find.{d_wire_find_first_lem}
use Prim.Native.Nat.{bit_and}
use decision.Prelude.{
  ℕ, suc, ◌≡◌, refl, ap, ◌∙◌, Bool, true, false, not, ◌&&◌, List, [], ◌∷◌, ◌++◌, some, get_elem?,
  ltb, ◌==◌, if◌then◌else◌, bind-some, arith, zero, ◌+◌, ◌<◌, ◌≤◌, ◌⊎◌, inl, inr, Option, none, sym,
  drop, length, lt→ltb, ltb→lt, get_elem?-lt, subst, if_true, ◌>>=◌,
}
use decision.Dtype.{type_none, type_execution}
use decision.Graph.{NodeSocket, Wire, Node, Graph, SocketMeta}
use decision.Graph.Query.{
  d_is_node_index_valid, d_get_node_definition, d_is_node_socket_valid, d_get_socket_meta,
  d_is_input_socket,
}
use decision.Graph.Wires.{is_from}
use decision.Graph.Order.{IsSorted, first_from, num_from}
use decision.Graph.Count.{d_socket_num_connections_lem}
use decision.Graph.Insert.{Inserted, total, insert_wire_lem}
use decision.Graph.Build.{
  GraphError, decimal_length, max_error_size, report, line_nums, conn_line_nums, mismatch_length,
  many_inputs, many_outputs, type_mismatch, edge_errors, add_edge, opposite, Added,
}

-- A socket of a node that can be read: its node, its description and its side.
pub record Known (g : Graph) (s : NodeSocket) : Type 0 where
  pub node : Node
  pub meta : SocketMeta
  pub is_input : Bool
  pub at_node : get_elem? g.nodes s.node_index ≡ some node
  pub has_meta : d_get_socket_meta g s ≡ some meta
  pub has_side : d_is_input_socket g s ≡ some is_input

-- What is reported of a socket from which the wires `wires` start: more than one wire at an input
-- without execution, or at an output with execution.
abbrev pub wire_report : ℕ → NodeSocket → SocketMeta → Bool → List Wire → List GraphError
wire_report line s meta is_input wires =
    let n = num_from s wires in
    if ltb 1 n && not (meta.type == type_execution) && is_input
    then many_inputs line s n ∷ []
    else if ltb 1 n && meta.type == type_execution && not is_input
    then many_outputs line s n ∷ []
    else []

-- What is reported of the types of the ends: that they have no type in common.
abbrev pub type_report : ℕ → Wire → ℕ → ℕ → List GraphError
type_report line wire from_type to_type =
    if bit_and from_type to_type == type_none then type_mismatch line wire ∷ [] else []

abbrev with_wires : Graph → List Wire → Graph
with_wires g ws = record g { wires = ws }

-- The sockets of a graph do not depend on its wires.
Known-wires : (g : Graph) (ws : List Wire) (s : NodeSocket) → Known g s → Known (with_wires g ws) s
unfolding d_get_socket_meta d_is_input_socket d_is_node_socket_valid d_get_node_definition
    d_is_node_index_valid
Known-wires g ws s k = record {
  node = k.node;
  meta = k.meta;
  is_input = k.is_input;
  at_node = k.at_node;
  has_meta = k.has_meta;
  has_side = k.has_side;
}

abbrev pub node_width : Option Node → ℕ
node_width none = 0
node_width (some node) = decimal_length node.line_num

-- The bytes that a wire may take in the list of line numbers of a socket: the line of the node at its
-- other end and a separator.
abbrev pub line_width : Graph → NodeSocket → Wire → ℕ
line_width g s w =
    if is_from s w && d_is_node_index_valid g w.socket_to.node_index
    then 2 + node_width (get_elem? g.nodes w.socket_to.node_index)
    else 0

-- There is room for what is written about a socket from which `wires` start: for the line numbers in
-- any case, and for a message where there is more than one wire.
pub record HasRoom (path_length : ℕ) (g : Graph) (s : NodeSocket) (line : ℕ) (wires : List Wire)
    : Type 0 where
  pub lines : total (line_width g s) wires < max_error_size
  pub message :
      (ltb 1 (num_from s wires) ≡ false)
      ⊎ (88
            + path_length
            + decimal_length line
            + decimal_length s.socket_index
            + decimal_length (num_from s wires)
            + total (line_width g s) wires
          < max_error_size)

-- The writing of line numbers ends inside of the array.
AtMostTo : ℕ → Option ℕ → Type 0
AtMostTo bound o = (end : ℕ) × (o ≡ some end) × (end ≤ bound)

within : {a b : ℕ} (o : Option ℕ) → a ≤ b → AtMostTo a o → AtMostTo b o
unfolding AtMostTo
within o le h = let (end, e, bound) = h in (end, e, omega (arith, le, bound))

node_there : (g : Graph) (n : ℕ) → d_is_node_index_valid g n ≡ true → ¬ (get_elem? g.nodes n ≡ none)
unfolding d_is_node_index_valid
node_there g n valid missing =
    let (node, found) = get_elem?-lt g.nodes n (ltb→lt n (length g.nodes) valid) in
    cc (sym found ∙ missing)

-- A round of the loop, of which the wires that follow are known to have room.
line_round :
    (g : Graph) (s : NodeSocket) (first : Bool) (index rest : ℕ) (ws : List Wire) (a v : Bool)
    (o : Option Node)
    → ((b : Bool) (k : ℕ) → k + rest < max_error_size → AtMostTo (k + rest) (line_nums g s b k ws))
    → (v ≡ true → ¬ (o ≡ none))
    → index + ((if a && v then 2 + node_width o else 0) + rest) < max_error_size
    → AtMostTo (index + ((if a && v then 2 + node_width o else 0) + rest)) (elim a [
      | false ↦ some index
      | true ↦ elim v [
        | false ↦ line_nums g s false index ws
        | true ↦ elim o [
          | none ↦ none
          | some node ↦
              (let start = if first then index else index + 2 in
                let end = start + decimal_length node.line_num in
                elim (ltb start max_error_size && ltb end max_error_size) [
                  | false ↦ none
                  | true ↦ line_nums g s false end ws
                ])
        ]
      ]
    ])
unfolding AtMostTo
line_round g s first index rest ws false v o later there h = (index, refl, omega arith)
line_round g s first index rest ws true false o later there h =
    within _ (omega arith) (later false index (omega (arith, h)))
line_round g s first index rest ws true true none later there h = absurd (there refl refl)
line_round g s first index rest ws true true (some node) later there h = written first
  where
    go : Bool → ℕ → Option ℕ
    go c end = elim c [ false ↦ none | true ↦ line_nums g s false end ws ]

    written :
        (b : Bool)
        → (let start = if b then index else index + 2 in
            let end = start + decimal_length node.line_num in
            AtMostTo
              (index + (2 + decimal_length node.line_num + rest))
              (elim (ltb start max_error_size && ltb end max_error_size) [
                | false ↦ none
                | true ↦ line_nums g s false end ws
              ]))
    written true =
        subst
          (λ c.
            AtMostTo (index + (2 + decimal_length node.line_num + rest))
              (go c (index + decimal_length node.line_num)))
          (sym (
            ap₂ (λ x y. x && y) (lt→ltb index max_error_size (omega (arith, h)))
              (lt→ltb (index + decimal_length node.line_num) max_error_size (omega (arith, h)))))
          (within _ (omega arith)
            (later false (index + decimal_length node.line_num) (omega (arith, h))))
    written false =
        subst
          (λ c.
            AtMostTo (index + (2 + decimal_length node.line_num + rest))
              (go c (index + 2 + decimal_length node.line_num)))
          (sym (
            ap₂ (λ x y. x && y) (lt→ltb (index + 2) max_error_size (omega (arith, h)))
              (lt→ltb (index + 2 + decimal_length node.line_num) max_error_size
                (omega (arith, h)))))
          (within _ (omega arith)
            (later false (index + 2 + decimal_length node.line_num) (omega (arith, h))))

line_nums_lem :
    (g : Graph) (s : NodeSocket) (first : Bool) (index : ℕ) (ws : List Wire)
    → index + total (line_width g s) ws < max_error_size
    → AtMostTo (index + total (line_width g s) ws) (line_nums g s first index ws)
unfolding line_nums AtMostTo
line_nums_lem g s first index [] h = (index, refl, omega arith)
line_nums_lem g s first index (w ∷ ws) h =
    line_round g s first index (total (line_width g s) ws) ws (is_from s w)
      (d_is_node_index_valid g w.socket_to.node_index) (get_elem? g.nodes w.socket_to.node_index)
      (λ b k room. line_nums_lem g s b k ws room) (node_there g w.socket_to.node_index) h

total-drop : (f : Wire → ℕ) (i : ℕ) (ws : List Wire) → total f (drop i ws) ≤ total f ws
total-drop f zero ws = omega arith
total-drop f (suc i) [] = omega arith
total-drop f (suc i) (w ∷ ws) = omega (arith, total-drop f i ws)

conn_line_nums_lem :
    (g : Graph) (s : NodeSocket)
    → IsSorted g.wires
    → total (line_width g s) g.wires < max_error_size
    → AtMostTo (total (line_width g s) g.wires) (conn_line_nums g s)
unfolding conn_line_nums AtMostTo
conn_line_nums_lem g s sorted room =
    subst (AtMostTo (total (line_width g s) g.wires))
      (sym (bind-some _ _ (d_wire_find_first_lem g.wires s sorted) refl))
      (from_first (first_from s g.wires))
  where
    from_first :
        (o : Option ℕ)
        → AtMostTo
            (total (line_width g s) g.wires)
            (elim o [ none ↦ some 0 | some i ↦ line_nums g s true 0 (drop i g.wires) ])
    from_first none = (0, refl, omega arith)
    from_first (some i) = within _ (omega (arith, total-drop (line_width g s) i g.wires)) (
        line_nums_lem g s true 0 (drop i g.wires)
          (omega (arith, room, total-drop (line_width g s) i g.wires)))

report_lem :
    (path_length line length_message : ℕ) (e : GraphError)
    → 11 + path_length + decimal_length line + length_message < max_error_size
    → report path_length line length_message e ≡ some (e ∷ [])
unfolding report
report_lem path_length line length_message e h =
    if_true (some (e ∷ [])) none
      (lt→ltb (11 + path_length + decimal_length line + length_message) max_error_size h)

-- Two tests, each with its report.
either_report :
    (c d : Bool) (o o' : Option (List GraphError)) (l l' : List GraphError)
    → (c ≡ true → o ≡ some l)
    → (d ≡ true → o' ≡ some l')
    → (if c then o else if d then o' else some []) ≡ some (if c then l else if d then l' else [])
either_report true d o o' l l' h h' = h refl
either_report false true o o' l l' h h' = h' refl
either_report false false o o' l l' h h' = refl

first_true : (a b c : Bool) → (a && b && c) ≡ true → a ≡ true
first_true true b c e = refl
first_true false b c e = absurd (cc e)

edge_errors_lem :
    (path_length : ℕ) (g : Graph) (s : NodeSocket) (k : Known g s) (n : ℕ)
    → IsSorted g.wires
    → HasRoom path_length g s k.node.line_num g.wires
    → n ≤ total (line_width g s) g.wires
    → edge_errors path_length g s n ≡ some (wire_report k.node.line_num s k.meta k.is_input g.wires)
unfolding edge_errors
edge_errors_lem path_length g s k n sorted room le = bind-some _ _ k.at_node (
    bind-some _ _ (d_socket_num_connections_lem g.wires s sorted) (
      bind-some _ _ k.has_meta (
        bind-some _ _ k.has_side (
          either_report (many && not (k.meta.type == type_execution) && k.is_input)
            (many && k.meta.type == type_execution && not k.is_input) _ _ _ _
            (λ c. report_lem path_length k.node.line_num (77 + numbers) _ (
              enough (first_true many (not (k.meta.type == type_execution)) k.is_input c) 77
                (omega arith)))
            (λ c. report_lem path_length k.node.line_num (74 + numbers) _ (
              enough (first_true many (k.meta.type == type_execution) (not k.is_input) c) 74
                (omega arith)))))))
  where
    many : Bool
    many = ltb 1 (num_from s g.wires)

    numbers : ℕ
    numbers = decimal_length s.socket_index + decimal_length (num_from s g.wires) + n

    enough :
        many ≡ true
        → (text : ℕ) → text ≤ 77
        → 11 + path_length + decimal_length k.node.line_num + (text + numbers) < max_error_size
    enough is_many text short = elim (room.message) [
      | inl f ↦ absurd (cc (is_many, f))
      | inr h ↦ omega (arith, h, le, short)
    ]

wire_report-counts :
    (line : ℕ) (s : NodeSocket) (meta : SocketMeta) (is_input : Bool) (ws ws' : List Wire)
    → num_from s ws ≡ num_from s ws'
    → wire_report line s meta is_input ws ≡ wire_report line s meta is_input ws'
wire_report-counts line s meta is_input ws ws' e = simp e

HasRoom-same :
    (path_length : ℕ) (g : Graph) (s : NodeSocket) (line : ℕ) (ws ws' : List Wire)
    → total (line_width g s) ws' ≡ total (line_width g s) ws
    → num_from s ws' ≡ num_from s ws
    → HasRoom path_length g s line ws
    → HasRoom path_length g s line ws'
HasRoom-same path_length g s line ws ws' e f room = record {
  lines = omega (arith, e, room.lines);
  message = elim (room.message) [
    | inl few ↦ inl (ap (ltb 1) f ∙ few)
    | inr h ↦ inr (omega (arith, e, ap decimal_length f, h))
  ];
}

HasRoom-wires :
    (path_length : ℕ) (g : Graph) (s : NodeSocket) (line : ℕ) (more ws : List Wire)
    → HasRoom path_length g s line ws
    → HasRoom path_length (with_wires g more) s line ws
unfolding d_is_node_index_valid
HasRoom-wires path_length g s line more ws room = record {
  lines = room.lines;
  message = room.message;
}

-- An edge at a known socket, with room for what is written about it, is added to a sorted array of
-- wires: it stays sorted, and the report is that of the socket with the one wire more.
pub add_edge_lem :
    (path_length : ℕ) (g : Graph) (wire : Wire) (k : Known g wire.socket_from)
    → IsSorted g.wires
    → HasRoom path_length g wire.socket_from k.node.line_num (wire ∷ g.wires)
    → (wires : List Wire) × (add_edge path_length g wire
        ≡ some (
          record g { wires = wires },
          wire_report k.node.line_num wire.socket_from k.meta k.is_input (wire ∷ g.wires),
        ))
      × Inserted wire g.wires wires
unfolding add_edge Known-wires AtMostTo
add_edge_lem path_length g wire k sorted room =
    let (ws, e, ins) = insert_wire_lem wire g.wires sorted in
    let s = wire.socket_from in
    let k₁ = Known-wires g ws s k in
    let room₁ = HasRoom-wires path_length g s k.node.line_num ws ws (
      HasRoom-same path_length g s k.node.line_num (wire ∷ g.wires) ws (ins.totals (line_width g s))
        (ins.counts s) room) in
    let (n, lines, le) = conn_line_nums_lem (with_wires g ws) s ins.sorted room₁.lines in
    (
      ws,
      bind-some _ _ e (
          bind-some _ _ lines (
            bind-some _ _ (edge_errors_lem path_length (with_wires g ws) s k₁ n ins.sorted room₁ le)
              (ap (λ r. some (with_wires g ws, r))
                (wire_report-counts k.node.line_num s k.meta k.is_input ws (wire ∷ g.wires)
                  (ins.counts s))))),
      ins,
    )

-- There is room for the message about the types of the ends, if it is needed.
abbrev pub HasTypeRoom : ℕ → Wire → Node → Node → SocketMeta → SocketMeta → Type 0
HasTypeRoom path_length wire from_node to_node from_meta to_meta =
    ((bit_and from_meta.type to_meta.type == type_none) ≡ false)
    ⊎ ((n : ℕ) × (mismatch_length wire from_node to_node from_meta to_meta ≡ some n)
        × (11 + path_length + decimal_length to_node.line_num + n < max_error_size))

-- Everything that `d_graph_add_wire` promises of a wire between two sockets, `added`.
pub record IsAdded (g : Graph) (wire : Wire) (from : Known g wire.socket_from)
    (to : Known g wire.socket_to) (added : Added) : Type 0 where
  pub accepted : added.accepted ≡ true
  pub same_nodes : added.graph.nodes ≡ g.nodes
  pub sorted : IsSorted added.graph.wires
  pub both_ways : Perm added.graph.wires (opposite wire ∷ wire ∷ g.wires)
  pub reports :
      added.errors
      ≡ wire_report from.node.line_num wire.socket_from from.meta from.is_input (wire ∷ g.wires)
        ++ wire_report to.node.line_num wire.socket_to to.meta to.is_input
            (opposite wire ∷ wire ∷ g.wires)
        ++ type_report to.node.line_num wire from.meta.type to.meta.type
