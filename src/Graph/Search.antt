-- ===== src/Graph/Search.antt =====
-- The binary search of src/dgraph.c: with one round of fuel per wire it ends inside the array,
-- either at a wire that compares as equal, or between the wires below and those above.
use decision.Prelude.{
  ℕ, zero, suc, ◌+◌, ◌-◌, ◌/◌, ◌≤◌, ◌<◌, ◌≡◌, ◌⊎◌, refl, inl, inr, subst, sym, List, Option, some,
  length, get_elem?, ltb, arith, Bool-cases, get_elem?-lt, ◌∙◌, ltb→lt, ltb_false→le,
}
use decision.Graph.{Wire}
use decision.Graph.Wires.{Sign, less, same, more, Probe, hit, miss, search_loop}

Sign-cases : (s : Sign) → (s ≡ less) ⊎ (s ≡ same) ⊎ (s ≡ more)
Sign-cases less = inl refl
Sign-cases same = inr (inl refl)
Sign-cases more = inr (inr refl)

module _ (cmp : Wire → Sign) (wires : List Wire) where
  -- The loop has just compared with the wire at `m`, and moved one end of the range there.
  abbrev pub IsEdge : ℕ → ℕ → ℕ → Type 0
  IsEdge m left hi =
      (w : Wire) × (get_elem? wires m ≡ some w)
      × ((suc m ≡ left) × (cmp w ≡ more) ⊎ (m ≡ hi) × (cmp w ≡ less))

  module _ (Low High : Wire → Type 0) where
    -- `k` parts the array: the wires before it are low, and those from it on are high.
    pub record Parts (left hi : ℕ) : Type 0 where
      pub low : (i : ℕ) (w : Wire) → get_elem? wires i ≡ some w → i < left → Low w
      pub high : (i : ℕ) (w : Wire) → get_elem? wires i ≡ some w → hi ≤ i → High w

    abbrev pub Searched : Probe → Type 0
    Searched (hit m) = (w : Wire) × (get_elem? wires m ≡ some w) × (cmp w ≡ same)
    Searched (miss m) = (k : ℕ) × Parts k k × IsEdge m k k

    -- The comparison fits the order of the array.
    pub record Fits : Type 0 where
      pub more-Low : (w : Wire) → cmp w ≡ more → Low w
      pub less-High : (w : Wire) → cmp w ≡ less → High w
      pub down :
          (i j : ℕ) (v w : Wire)
          → i ≤ j
          → get_elem? wires i ≡ some v
          → get_elem? wires j ≡ some w
          → Low w
          → Low v
      pub up :
          (i j : ℕ) (v w : Wire)
          → i ≤ j
          → get_elem? wires i ≡ some v
          → get_elem? wires j ≡ some w
          → High v
          → High w

    abbrev Ends : Option Probe → Type 0
    Ends r = (p : Probe) × (r ≡ some p) × Searched p

    module _ (fits : Fits) where
      move_left :
          (left hi m : ℕ) (w : Wire)
          → Parts left hi
          → get_elem? wires m ≡ some w
          → cmp w ≡ more
          → Parts (m + 1) hi
      move_left left hi m w p e c = record {
        low = λ i v f lt. fits.down i m v w (omega arith) f e (fits.more-Low w c);
        high = p.high;
      }

      move_right :
          (left hi m : ℕ) (w : Wire)
          → Parts left hi
          → get_elem? wires m ≡ some w
          → cmp w ≡ less
          → Parts left m
      move_right left hi m w p e c = record {
        low = p.low;
        high = λ i v f le. fits.up m i w v le e f (fits.less-High w c);
      }

      Ends-eq : {r r' : Option Probe} → r ≡ r' → Ends r' → Ends r
      Ends-eq e (p, f, s) = (p, e ∙ f, s)

      stopped :
          (left hi middle : ℕ)
          → left ≡ hi
          → Parts left hi
          → IsEdge middle left hi ⊎ (left < hi)
          → Ends (some (miss middle))
      stopped left hi middle e p (inr lt) = absurd (omega arith)
      stopped left hi middle e p (inl edge) = (
        miss middle,
        refl,
        (left, subst (λ k. Parts left k) (sym e) p, subst (λ k. IsEdge middle left k) (sym e) edge),
      )

      pub search_loop_lem :
          (fuel left hi middle : ℕ)
          → left ≤ hi
          → hi ≤ length wires
          → hi ≤ fuel + left
          → Parts left hi
          → IsEdge middle left hi ⊎ (left < hi)
          → Ends (search_loop fuel cmp wires left hi middle)
      unfolding search_loop
      search_loop_lem zero left hi middle le in_array enough p edge =
          Ends-eq (ground arith) (stopped left hi middle (omega arith) p edge)
      search_loop_lem (suc fuel) left hi middle le in_array enough p edge =
          elim (Bool-cases (ltb left hi)) [
            | inr false_ ↦
                Ends-eq (ground arith)
                  (stopped left hi middle (omega (arith, ltb_false→le left hi false_)) p edge)
            | inl test ↦
                let m = (left + hi - 1) / 2 in
                let lt : left < hi = ltb→lt left hi test in
                let w = (get_elem?-lt wires m (omega arith)).0 in
                let f : get_elem? wires m ≡ some w = (get_elem?-lt wires m (omega arith)).1 in
                elim (Sign-cases (cmp w)) [
                  | inl c ↦ Ends-eq (ground (arith, test, f, c)) (
                      search_loop_lem fuel left m m (omega arith) (omega arith) (omega arith)
                        (move_right left hi m w p f c) (inl (w, f, inr (refl, c))))
                  | inr (inl c) ↦ (hit m, ground (arith, test, f, c), (w, f, c))
                  | inr (inr c) ↦ Ends-eq (ground (arith, test, f, c)) (
                      search_loop_lem fuel (m + 1) hi m (omega arith) (omega arith) (omega arith)
                        (move_left left hi m w p f c) (inl (w, f, inl (omega arith, c))))
                ]
          ]
