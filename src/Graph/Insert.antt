-- ===== src/Graph/Insert.antt =====
-- The binary insertion of `add_edge` in src/dgraph.c keeps the array of wires sorted.
use mathlib.Core.List.{Perm, perm_middle}
use decision.Prelude.{
  ◌+◌, ℕ, zero, suc, ◌≤◌, ◌<◌, ◌≡◌, refl, inl, inr, subst, List, [], ◌∷◌, ◌++◌, some, length,
  get_elem?, take, drop, arith, bind-some, take-append-drop, lt-get_elem?,
}
use decision.Graph.{NodeSocket, Wire}
use decision.Graph.Wires.{less, same, more, d_wire_cmp, Probe, hit, miss, search_loop}
use decision.Graph.Order.{AtMost, AllFrom, IsSorted, num_from, IsSorted-at}
use decision.Graph.Search.{Parts, Fits, Searched, search_loop_lem}
use decision.Graph.Build.{last_middle, insert_index, insert_wire}

abbrev Low : Wire → Wire → Type 0
Low wire v = AtMost v.socket_from wire.socket_from

abbrev High : Wire → Wire → Type 0
High wire v = AtMost wire.socket_from v.socket_from

d_wire_cmp-less : (a b : Wire) → d_wire_cmp a b ≡ less → High a b
unfolding d_wire_cmp
d_wire_cmp-less a b e = ground (arith, e)

d_wire_cmp-more : (a b : Wire) → d_wire_cmp a b ≡ more → Low a b
unfolding d_wire_cmp
d_wire_cmp-more a b e = ground (arith, e)

d_wire_cmp-same : (a b : Wire) → d_wire_cmp a b ≡ same → Low a b × High a b
unfolding d_wire_cmp
d_wire_cmp-same a b e = (ground (arith, e), ground (arith, e))

-- The comparison of wires is no order: of two wires from one socket, where the first leads to a
-- later node but an earlier socket than the second, each is less than the other.
pub d_wire_cmp-both_less :
    (a b : Wire)
    → a.socket_from.node_index ≡ b.socket_from.node_index
    → a.socket_from.socket_index ≡ b.socket_from.socket_index
    → b.socket_to.node_index < a.socket_to.node_index
    → a.socket_to.socket_index < b.socket_to.socket_index
    → (d_wire_cmp a b ≡ less) × (d_wire_cmp b a ≡ less)
unfolding d_wire_cmp
d_wire_cmp-both_less a b n s m t = (ground (arith, n, s, m, t), ground (arith, n, s, m, t))

module _ (wire : Wire) (wires : List Wire) (sorted : IsSorted wires) where
  d_wire_cmp-Fits : Fits (d_wire_cmp wire) wires (Low wire) (High wire)
  d_wire_cmp-Fits = record {
    more-Low = λ w e. d_wire_cmp-more wire w e;
    less-High = λ w e. d_wire_cmp-less wire w e;
    down = λ i j v w le e f u. ground (arith, IsSorted-at wires i j v w sorted le e f, u);
    up = λ i j v w le e f u. ground (arith, IsSorted-at wires i j v w sorted le e f, u);
  }

  -- The place `k` parts the array for the wire.
  abbrev IsPlace : ℕ → Type 0
  IsPlace k = Parts (d_wire_cmp wire) wires (Low wire) (High wire) k k

  at_hit : (m : ℕ) (w : Wire) → get_elem? wires m ≡ some w → d_wire_cmp wire w ≡ same → IsPlace m
  at_hit m w e c = record {
    low = λ i v f lt.
        ground
          (arith, IsSorted-at wires i m v w sorted (omega arith) f e, d_wire_cmp-same wire w c);
    high = λ i v f le.
        ground (arith, IsSorted-at wires m i w v sorted le e f, d_wire_cmp-same wire w c);
  }

-- The chosen index parts a sorted array: the wires before it start at the same socket or an earlier
-- one, and those from it on at the same or a later one.
insert_index_lem :
    (wire : Wire) (wires : List Wire) (sorted : IsSorted wires)
    → (k : ℕ) × (insert_index wire wires ≡ some k) × IsPlace wire wires sorted k
unfolding insert_index last_middle
insert_index_lem wire [] sorted =
    (0, refl, record { low = λ i w f lt. absurd (omega arith); high = λ i w f le. cc f })
insert_index_lem wire (x ∷ xs) sorted = place (
    search_loop_lem (d_wire_cmp wire) wires (Low wire) (High wire)
      (d_wire_cmp-Fits wire wires sorted) (length wires) 0 (length wires) 0 (omega arith)
      (omega arith) (omega arith)
      (record {
        low = λ i w f lt. absurd (omega arith);
        high = λ i w f le. absurd (omega (arith, lt-get_elem? wires i w f));
      })
      (inr (omega arith)))
  where
    wires : List Wire
    wires = x ∷ xs

    place :
        (p : Probe) × (search_loop (length wires) (d_wire_cmp wire) wires 0 (length wires) 0
            ≡ some p)
          × Searched (d_wire_cmp wire) wires (Low wire) (High wire) p
        → (k : ℕ) × (insert_index wire wires ≡ some k) × IsPlace wire wires sorted k
    place (hit m, e, (w, f, c)) =
        (m, bind-some _ _ e (bind-some _ _ f (ground (arith, c))), at_hit wire wires sorted m w f c)
    place (miss m, e, (k, parts, (w, f, inl (at, c)))) =
        (k, bind-some _ _ e (bind-some _ _ f (ground (arith, at, c))), parts)
    place (miss m, e, (k, parts, (w, f, inr (at, c)))) =
        (k, bind-some _ _ e (bind-some _ _ f (ground (arith, at, c))), parts)

AllFrom-insert :
    (s : NodeSocket) (wire : Wire) (ws : List Wire) (k : ℕ)
    → AtMost s wire.socket_from
    → AllFrom s ws
    → AllFrom s (take k ws ++ wire ∷ drop k ws)
AllFrom-insert s wire ws zero a h = (a, h)
AllFrom-insert s wire [] (suc k) a h = (a, tt)
AllFrom-insert s wire (w ∷ ws) (suc k) a h = (h.0, AllFrom-insert s wire ws k a (h.1))

AllFrom-less : (s t : NodeSocket) (ws : List Wire) → AtMost s t → AllFrom t ws → AllFrom s ws
AllFrom-less s t [] a h = tt
AllFrom-less s t (w ∷ ws) a h = (ground (arith, a, h.0), AllFrom-less s t ws a (h.1))

-- A wire put between the earlier ones and the later ones leaves the array sorted.
IsSorted-insert :
    (wire : Wire) (ws : List Wire) (k : ℕ)
    → IsSorted ws
    → ((i : ℕ) (w : Wire) → get_elem? ws i ≡ some w → i < k → Low wire w)
    → ((i : ℕ) (w : Wire) → get_elem? ws i ≡ some w → k ≤ i → High wire w)
    → IsSorted (take k ws ++ wire ∷ drop k ws)
IsSorted-insert wire [] zero h low high = (tt, tt)
IsSorted-insert wire [] (suc k) h low high = (tt, tt)
IsSorted-insert wire (x ∷ ws) zero h low high = (
  (
    high 0 x refl (omega arith),
    AllFrom-less _ x.socket_from ws (high 0 x refl (omega arith)) (h.0),
  ),
  h,
)
IsSorted-insert wire (x ∷ ws) (suc k) h low high = (
  AllFrom-insert (x.socket_from) wire ws k (low 0 x refl (omega arith)) (h.0),
  IsSorted-insert wire ws k (h.1) (λ i w e lt. low (suc i) w e (omega arith))
      (λ i w e le. high (suc i) w e (omega arith)),
)

num_from-insert :
    (s : NodeSocket) (wire : Wire) (ws : List Wire) (k : ℕ)
    → num_from s (take k ws ++ wire ∷ drop k ws) ≡ num_from s (wire ∷ ws)
num_from-insert s wire ws zero = refl
num_from-insert s wire [] (suc k) = refl
num_from-insert s wire (w ∷ ws) (suc k) = ground (arith, num_from-insert s wire ws k)

-- A sum over the wires.
abbrev pub total : (Wire → ℕ) → List Wire → ℕ
total f [] = 0
total f (w ∷ ws) = f w + total f ws

total-insert :
    (f : Wire → ℕ) (wire : Wire) (ws : List Wire) (k : ℕ)
    → total f (take k ws ++ wire ∷ drop k ws) ≡ total f (wire ∷ ws)
total-insert f wire ws zero = refl
total-insert f wire [] (suc k) = refl
total-insert f wire (w ∷ ws) (suc k) = omega (arith, total-insert f wire ws k)

-- An array after an insertion: sorted, and with the wire and those that it had.
pub record Inserted (wire : Wire) (wires wires' : List Wire) : Type 0 where
  pub sorted : IsSorted wires'
  pub same_wires : Perm wires' (wire ∷ wires)
  pub counts : (s : NodeSocket) → num_from s wires' ≡ num_from s (wire ∷ wires)
  pub totals : (f : Wire → ℕ) → total f wires' ≡ total f (wire ∷ wires)

-- Into a sorted array the insertion always succeeds: the array afterwards is sorted, and has the
-- wires that it had and the new one, also when counted at any one socket.
pub insert_wire_lem :
    (wire : Wire) (wires : List Wire)
    → IsSorted wires
    → (wires' : List Wire) × (insert_wire wire wires ≡ some wires') × Inserted wire wires wires'
unfolding insert_wire
insert_wire_lem wire wires sorted =
    let (k, e, parts) = insert_index_lem wire wires sorted in
    (
      take k wires ++ wire ∷ drop k wires,
      bind-some _ _ e refl,
      record {
        sorted = IsSorted-insert wire wires k sorted parts.low parts.high;
        same_wires =
            subst (λ ws. Perm (take k wires ++ wire ∷ drop k wires) (wire ∷ ws))
              (take-append-drop k wires) (perm_middle (take k wires) (drop k wires));
        counts = λ s. num_from-insert s wire wires k;
        totals = λ f. total-insert f wire wires k;
      },
    )
