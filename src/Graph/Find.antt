-- ===== src/Graph/Find.antt =====
-- Finding and counting the wires from a socket, in the sorted array of src/dgraph.c.
use decision.Prelude.{
  ℕ, zero, suc, ◌+◌, ◌≤◌, ◌<◌, ◌≡◌, ◌⊎◌, refl, inl, inr, sym, ap, ◌∙◌, Bool, true, false, List, [],
  ◌∷◌, none, some, ◌>>=◌, length, get_elem?, arith, Bool-cases, get_elem?-lt, bind-some, if_true,
  if_false, leb, leb→le, leb_false→lt, ltb, ltb→lt, ltb_false→le, lt-get_elem?,
}
use decision.Graph.{NodeSocket, Wire}
use decision.Graph.Wires.{
  Sign, less, same, more, socket_cmp, Probe, hit, miss, is_from, scan_back, d_wire_find_first,
  search_loop,
}
use decision.Graph.Order.{Under, IsSorted, first_from, IsSorted-at}
use decision.Graph.Search.{Parts, Fits, Searched, search_loop_lem}

-- The wire starts at the socket.
abbrev pub IsFrom : NodeSocket → Wire → Type 0
IsFrom s w =
    (s.node_index ≡ w.socket_from.node_index) × (s.socket_index ≡ w.socket_from.socket_index)

pub is_from-true : (s : NodeSocket) (w : Wire) → is_from s w ≡ true → IsFrom s w
is_from-true s w e = ground (arith, e)

pub is_from-false : (s : NodeSocket) (w : Wire) → is_from s w ≡ false → ¬ IsFrom s w
is_from-false s w e f = ground (arith, e, f)

IsFrom-is_from : (s : NodeSocket) (w : Wire) → IsFrom s w → is_from s w ≡ true
IsFrom-is_from s w f = ground (arith, f)

not_from : (s : NodeSocket) (w : Wire) → ¬ IsFrom s w → is_from s w ≡ false
not_from s w f = ground (arith, f)

pub outside :
    (s : NodeSocket) (w : Wire)
    → Under w.socket_from s ⊎ Under s w.socket_from
    → is_from s w ≡ false
outside s w u = ground (arith, u)

socket_cmp-more : (s t : NodeSocket) → socket_cmp s t ≡ more → Under t s
unfolding socket_cmp
socket_cmp-more s t e = ground (arith, e)

socket_cmp-less : (s t : NodeSocket) → socket_cmp s t ≡ less → Under s t
unfolding socket_cmp
socket_cmp-less s t e = ground (arith, e)

socket_cmp-same : (s : NodeSocket) (w : Wire) → socket_cmp s w.socket_from ≡ same → IsFrom s w
unfolding socket_cmp
socket_cmp-same s w e = ground (arith, e)

abbrev cmp_from : NodeSocket → Wire → Sign
cmp_from s w = socket_cmp s w.socket_from

socket_cmp-Fits :
    (s : NodeSocket) (wires : List Wire)
    → IsSorted wires
    → Fits (cmp_from s) wires (λ w. Under w.socket_from s) (λ w. Under s w.socket_from)
socket_cmp-Fits s wires sorted = record {
  more-Low = λ w e. socket_cmp-more s w.socket_from e;
  less-High = λ w e. socket_cmp-less s w.socket_from e;
  down = λ i j v w le e f u. ground (arith, IsSorted-at wires i j v w sorted le e f, u);
  up = λ i j v w le e f u. ground (arith, IsSorted-at wires i j v w sorted le e f, u);
}

first_from-none :
    (s : NodeSocket) (ws : List Wire)
    → ((i : ℕ) (w : Wire) → get_elem? ws i ≡ some w → is_from s w ≡ false)
    → first_from s ws ≡ none
first_from-none s [] h = refl
first_from-none s (w ∷ ws) h = simp (h 0 w refl, first_from-none s ws (λ i v e. h (suc i) v e))

same_at :
    (s : NodeSocket) (wires : List Wire) {j k : ℕ} {v w : Wire} {b : Bool}
    → j ≡ k
    → get_elem? wires k ≡ some w
    → get_elem? wires j ≡ some v
    → is_from s w ≡ b
    → is_from s v ≡ b
same_at s wires e f g h = cc (e, f, g, h)

first_from-some :
    (s : NodeSocket) (ws : List Wire) (i : ℕ) (w : Wire)
    → get_elem? ws i ≡ some w
    → is_from s w ≡ true
    → ((j : ℕ) (v : Wire) → get_elem? ws j ≡ some v → j < i → is_from s v ≡ false)
    → first_from s ws ≡ some i
first_from-some s [] i w e f h = cc e
first_from-some s (x ∷ ws) zero w e f h =
    if_true _ _ (same_at s (x ∷ ws) {j = 0} {k = 0} refl e refl f)
first_from-some s (x ∷ ws) (suc i) w e f h = simp (
  h 0 x refl (omega arith),
  first_from-some s ws i w e f (λ j v g lt. h (suc j) v g (omega arith)),
)

-- What the scan back from `m` finds: the start `i` of the wires from the socket that end at `m`.
record RunTo (s : NodeSocket) (wires : List Wire) (m i : ℕ) : Type 0 where
  returns : scan_back s wires m ≡ some i
  near : i ≤ suc m
  run : (j : ℕ) (w : Wire) → get_elem? wires j ≡ some w → i ≤ j → j ≤ m → is_from s w ≡ true
  stop : (k : ℕ) (w : Wire) → get_elem? wires k ≡ some w → suc k ≡ i → is_from s w ≡ false

scan_back_lem :
    (s : NodeSocket) (wires : List Wire) (m : ℕ) → m < length wires → (i : ℕ) × RunTo s wires m i
unfolding scan_back
scan_back_lem s wires zero lt =
    let (w, e) = get_elem?-lt wires 0 lt in
    elim (Bool-cases (is_from s w)) [
      | inl c ↦ (
        0,
        record {
          returns = bind-some _ _ e (ap some (if_true _ _ c));
          near = omega arith;
          run = λ j v f lo hi. same_at s wires (omega arith) e f c;
          stop = λ k v f at. absurd (omega arith);
        },
      )
      | inr c ↦ (
        1,
        record {
          returns = bind-some _ _ e (ap some (if_false _ _ c));
          near = omega arith;
          run = λ j v f lo hi. absurd (omega arith);
          stop = λ k v f at. same_at s wires (omega arith) e f c;
        },
      )
    ]
scan_back_lem s wires (suc m) lt =
    let (w, e) = get_elem?-lt wires (suc m) lt in
    let (i, b) = scan_back_lem s wires m (omega arith) in
    elim (Bool-cases (is_from s w)) [
      | inl c ↦ (
        i,
        record {
          returns = bind-some _ _ e (if_true _ _ c ∙ b.returns);
          near = omega (arith, b.near);
          run = λ j v f lo hi. elim (Bool-cases (leb j m)) [
            | inl t ↦ b.run j v f lo (leb→le j m t)
            | inr t ↦ same_at s wires (omega (arith, leb_false→lt j m t)) e f c
          ];
          stop = b.stop;
        },
      )
      | inr c ↦ (
        m + 2,
        record {
          returns = bind-some _ _ e (if_false _ _ c);
          near = omega arith;
          run = λ j v f lo hi. absurd (omega arith);
          stop = λ k v f at. same_at s wires (omega arith) e f c;
        },
      )
    ]

-- In a sorted array no wire before the run is from the socket.
before-run :
    (s : NodeSocket) (wires : List Wire) (m i j : ℕ) (v w : Wire)
    → IsSorted wires
    → get_elem? wires m ≡ some w
    → is_from s w ≡ true
    → i ≤ m
    → RunTo s wires m i
    → get_elem? wires j ≡ some v
    → j < i
    → is_from s v ≡ false
before-run s wires m zero j v w sorted e c le b f lt = absurd (omega arith)
before-run s wires m (suc k) j v w sorted e c le b f lt =
    let (u, g) = get_elem?-lt wires k (omega (arith, lt-get_elem? wires m w e)) in
    let above = IsSorted-at wires k m u w sorted (omega arith) g e in
    let below = IsSorted-at wires j k v u sorted (omega arith) f g in
    not_from s v λ from. absurd (
      is_from-false s u (b.stop k u g refl)
        (ground (arith, above, below, from, is_from-true s w c)))

-- In a sorted array the scan back from a wire of the socket finds the first such wire.
scan_back-first_from :
    (s : NodeSocket) (wires : List Wire) (m i : ℕ) (w : Wire)
    → IsSorted wires
    → get_elem? wires m ≡ some w
    → is_from s w ≡ true
    → RunTo s wires m i
    → first_from s wires ≡ some i
scan_back-first_from s wires m i w sorted e c b = elim (Bool-cases (leb i m)) [
  | inr t ↦ absurd (cc (b.stop m w e (omega (arith, b.near, leb_false→lt i m t)), c))
  | inl t ↦
      let le = leb→le i m t in
      let (u, f) = get_elem?-lt wires i (omega (arith, le, lt-get_elem? wires m w e)) in
      first_from-some s wires i u f (b.run i u f (omega arith) le)
        λ j v g lt. before-run s wires m i j v w sorted e c le b g lt
]

-- In a sorted array `d_wire_find_first` finds the first wire from the socket, and -1 where there is
-- none: it always answers what a scan of the array does.
pub d_wire_find_first_lem :
    (wires : List Wire) (s : NodeSocket)
    → IsSorted wires
    → d_wire_find_first wires s ≡ some (first_from s wires)
unfolding d_wire_find_first search_loop
d_wire_find_first_lem [] s sorted = refl
d_wire_find_first_lem (x ∷ xs) s sorted = answer (
    search_loop_lem (cmp_from s) wires (λ w. Under w.socket_from s) (λ w. Under s w.socket_from)
      (socket_cmp-Fits s wires sorted) (length wires) 0 (length wires) 0 (omega arith) (omega arith)
      (omega arith)
      (record {
        low = λ i w f lt. absurd (omega arith);
        high = λ i w f le. absurd (omega (arith, lt-get_elem? wires i w f));
      })
      (inr (omega arith)))
  where
    wires : List Wire
    wires = x ∷ xs

    absent :
        (k : ℕ)
        → Parts (cmp_from s) wires (λ w. Under w.socket_from s) (λ w. Under s w.socket_from) k k
        → (i : ℕ) (w : Wire) → get_elem? wires i ≡ some w
        → is_from s w ≡ false
    absent k parts i w f = elim (Bool-cases (ltb i k)) [
      | inl t ↦ outside s w (inl (parts.low i w f (ltb→lt i k t)))
      | inr t ↦ outside s w (inr (parts.high i w f (ltb_false→le i k t)))
    ]

    found :
        (m : ℕ) (w : Wire)
        → get_elem? wires m ≡ some w
        → IsFrom s w
        → (scan_back s wires m >>= λ i. some (some i)) ≡ some (first_from s wires)
    found m w f from =
        let (i, b) = scan_back_lem s wires m (lt-get_elem? wires m w f) in
        bind-some _ _ b.returns
          (ap some (sym (scan_back-first_from s wires m i w sorted f (IsFrom-is_from s w from) b)))

    answer :
        (p : Probe) × (search_loop (length wires) (cmp_from s) wires 0 (length wires) 0 ≡ some p)
          × Searched (cmp_from s) wires (λ w. Under w.socket_from s) (λ w. Under s w.socket_from) p
        → d_wire_find_first wires s ≡ some (first_from s wires)
    answer (miss m, e, (k, parts, edge)) =
        bind-some _ _ e (ap some (sym (first_from-none s wires λ i w f. absent k parts i w f)))
    answer (hit m, e, (w, f, c)) = bind-some _ _ e (found m w f (socket_cmp-same s w c))
