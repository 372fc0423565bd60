-- ===== src/Lex/Digits.antt =====
-- Number literals of src/dlex.c are read inside the source, and end inside it.
use decision.Prelude.{
  ℕ, zero, suc, ◌+◌, ◌-◌, ◌*◌, ◌≤◌, ◌<◌, ◌≡◌, refl, inl, inr, subst, sym, ap, ◌∙◌, true, false,
  List, [], ◌∷◌, ◌++◌, Option, some, length, get_elem?, drop, ltb, ◌==◌, arith, Bool-cases,
  bind-some, ◌%◌, if◌then◌else◌, ltb→lt, ==_iff, length-drop,
}
use decision.Lex.{many_dots, byte_at, d_lex_is_digit}
use decision.Lex.Numbers.{
  digits, strtol, strtol_hex, digit_value, many, Scanned, number_end, decimal, number, Number,
  prefixed,
}
use decision.Lex.Bounds.{byte_at_lem}

digits-length : (base acc : ℕ) (cs : List ℕ) → (digits base acc cs).1 ≤ length cs
unfolding digits
digits-length base acc [] = omega arith
digits-length base acc (c ∷ cs) = elim (Bool-cases (ltb (digit_value c) base)) [
  | inl t ↦ ground (arith, t, digits-length base (acc * base + digit_value c) cs)
  | inr f ↦ ground (arith, f)
]

strtol_hex-length :
    (cs : List ℕ) → 0 < length cs → (0 < (strtol_hex cs).1) × ((strtol_hex cs).1 ≤ length cs)
unfolding strtol_hex
strtol_hex-length cs lt =
    let le = digits-length 16 0 (drop 2 cs) in
    elim (Bool-cases ((digits 16 0 (drop 2 cs)).1 == 0)) [
      | inl z ↦ ground (arith, z)
      | inr p ↦ ground (arith, p, le, length-drop 2 cs)
    ]

strtol_octal-length :
    (cs : List ℕ) → (0 < (strtol 8 (48 ∷ cs)).1) × ((strtol 8 (48 ∷ cs)).1 ≤ suc (length cs))
unfolding strtol digits digit_value
strtol_octal-length cs = ground (arith, digits-length 8 0 cs)

number_end-dot :
    (fuel line : ℕ) (source : List ℕ) (end j dots c : ℕ) (r : Scanned)
    → ltb j (length source) ≡ true
    → byte_at source j ≡ some c
    → d_lex_is_digit c ≡ false
    → (c == 46) ≡ true
    → number_end fuel line source end (suc j) ((dots + 1) % 256) ≡ some r
    → number_end (suc fuel) line source end j dots
      ≡ some (record r {
        errors = (if many ((dots + 1) % 256) then many_dots line ∷ [] else []) ++ r.errors;
      })
unfolding number_end
number_end-dot fuel line source end j dots c r t e other dot f = ground (arith, t, e, other, dot, f)

-- What the loop over a decimal number leaves: its last index is still inside the source.
number_end_lem :
    (fuel line : ℕ) (source : List ℕ) (end j dots : ℕ)
    → length source ≤ fuel + j
    → end < j
    → end < length source
    → (s : Scanned) × (number_end fuel line source end j dots ≡ some s)
      × (end ≤ s.end)
      × (s.end < length source)
unfolding number_end
number_end_lem zero line source end j dots le near lt =
    (record { end = end; num_dots = dots; errors = [] }, ground arith, omega arith, lt)
number_end_lem (suc fuel) line source end j dots le near lt =
    elim (Bool-cases (ltb j (length source))) [
      | inr f ↦
          (record { end = end; num_dots = dots; errors = [] }, ground (arith, f), omega arith, lt)
      | inl t ↦
          let inside = ltb→lt j (length source) t in
          let (c, e) = byte_at_lem source j (omega (arith, inside)) in
          elim (Bool-cases (d_lex_is_digit c)) [
            | inl digit ↦
                let (r, f, h₀, h₁) =
                  number_end_lem fuel line source end (suc j) dots (omega arith) (omega arith) lt in
                (r, ground (arith, t, e, digit, f), h₀, h₁)
            | inr other ↦ elim (Bool-cases (c == 46)) [
              | inr stop ↦ (
                record { end = j - 1; num_dots = dots; errors = [] },
                ground (arith, t, e, other, stop),
                omega arith,
                omega arith,
              )
              | inl dot ↦
                  let n = (dots + 1) % 256 in
                  let (r, f, h₀, h₁) =
                    number_end_lem fuel line source end (suc j) n (omega arith) (omega arith) lt in
                  (
                    record r { errors = (if many n then many_dots line ∷ [] else []) ++ r.errors },
                    number_end-dot fuel line source end j dots c r t e other dot f,
                    h₀,
                    h₁,
                  )
            ]
          ]
    ]

-- What a number at index `i` leaves: an index from `i` on inside the source.
pub record InsideNumber (source : List ℕ) (i : ℕ) (r : Option Number) : Type 0 where
  pub number_ : Number
  pub returns : r ≡ some number_
  pub onward : i ≤ number_.index
  pub inside : number_.index < length source

module _ (strtod : List ℕ → ℕ) (line : ℕ) (source : List ℕ) (i c : ℕ) (lt : i < length source) where
  decimal-Inside : InsideNumber source i (decimal strtod line source i c)
  unfolding decimal
  decimal-Inside =
      let (s, e, onward, inside) =
        number_end_lem (length source) line source i (suc i) (if c == 46 then 1 else 0)
          (omega arith) (omega arith) lt in
      record { number_ = _; returns = bind-some _ _ e refl; onward = onward; inside = inside }

drop-byte_at :
    (source : List ℕ) (i c : ℕ)
    → i < length source
    → get_elem? source i ≡ some c
    → drop i source ≡ c ∷ drop (suc i) source
drop-byte_at [] i c lt e = absurd (omega arith)
drop-byte_at (x ∷ xs) zero c lt e = ground (arith, e)
drop-byte_at (x ∷ xs) (suc i) c lt e = drop-byte_at xs i c (omega arith) e

byte_at-get_elem? :
    (source : List ℕ) (i c : ℕ)
    → i < length source
    → byte_at source i ≡ some c
    → get_elem? source i ≡ some c
unfolding byte_at
byte_at-get_elem? source i c lt e = ground (arith, e)

InsideNumber-eq :
    {source : List ℕ} {i : ℕ} {r r' : Option Number}
    → r ≡ r'
    → InsideNumber source i r'
    → InsideNumber source i r
InsideNumber-eq e h = record {
  number_ = h.number_;
  returns = e ∙ h.returns;
  onward = h.onward;
  inside = h.inside;
}

module _ (strtod : List ℕ → ℕ) (line : ℕ) (source : List ℕ) (i c : ℕ) (lt : i < length source) where
  prefixed-Inside :
      (r : ℕ × ℕ)
      → 0 < r.1
      → r.1 ≤ length (drop i source)
      → InsideNumber source i (some (prefixed strtod i r))
  prefixed-Inside r pos le = record {
    number_ = _;
    returns = refl;
    onward = omega arith;
    inside = omega (arith, length-drop i source);
  }

  octal-Inside :
      byte_at source i ≡ some 48
      → InsideNumber source i (some (prefixed strtod i (strtol 8 (drop i source))))
  octal-Inside e =
      let d = drop-byte_at source i 48 lt (byte_at-get_elem? source i 48 lt e) in
      let h =
        subst (λ cs. (0 < (strtol 8 cs).1) × ((strtol 8 cs).1 ≤ length cs)) (sym d)
          (strtol_octal-length (drop (suc i) source)) in
      prefixed-Inside (strtol 8 (drop i source)) h.0 h.1

  pub number-Inside :
      byte_at source i ≡ some c → InsideNumber source i (number strtod line source i c)
  unfolding number
  number-Inside e =
      let plain = decimal-Inside strtod line source i c lt in
      elim (Bool-cases (c == 48)) [
        | inr f ↦ InsideNumber-eq (ground (arith, f)) plain
        | inl zero_ ↦
            let (next, g) = byte_at_lem source (suc i) (omega arith) in
            elim (Bool-cases (next == 46)) [
              | inl dot ↦ InsideNumber-eq (ground (arith, zero_, g, dot)) plain
              | inr other ↦ elim (Bool-cases (next == 120)) [
                | inl x ↦
                    let h =
                      strtol_hex-length (drop i source) (omega (arith, length-drop i source)) in
                    InsideNumber-eq (ground (arith, zero_, g, other, x))
                      (prefixed-Inside (strtol_hex (drop i source)) h.0 h.1)
                | inr octal ↦
                    InsideNumber-eq (ground (arith, zero_, g, other, octal))
                      (octal-Inside (e ∙ ap some ((==_iff c 48).0 zero_)))
              ]
            ]
      ]
