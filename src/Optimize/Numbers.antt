-- ===== src/Optimize/Numbers.antt =====
-- The numbers that `d_optimize_shrink_fimmediate` of src/doptimize.c writes in fewer bytes.
use decision.Prelude.{
  ℕ, ◌+◌, ◌-◌, ◌<◌, ◌≤◌, ◌≡◌, ◌&&◌, ◌⊎◌, inl, inr, refl, ap, ◌∙◌, Bool, true, false, leb→le, ltb,
  ltb→lt, ltb_false→le, Bool-cases, bias, if_true, if_false, le→ltb_false, lt→ltb, lt→leb_false,
  le→leb, sym, arith, extend8, extend32, word_mod, sle, add_word, sub_word,
}
use mathlib.Core.Path.{ap₂}
use decision.Vm.Opcode.{DIns}
use decision.Optimize.Jumps.{Kept}
use decision.Optimize.{
  Width, byte_width, half_width, full_width, width_bytes, extend, shifted, read_number,
  number_bytes,
}
use decision.Optimize.Shrink.{fits_byte, fits_half, adjusted, is_relative}

-- What is read back from an operand of the width.
abbrev pub narrowed : Width → ℕ → ℕ
narrowed w v = extend w (read_number (width_bytes w) (number_bytes (width_bytes w) v))

-- The test that the pass makes for a width.
abbrev pub fits : Width → ℕ → Bool
fits byte_width v = fits_byte v
fits half_width v = fits_half v
fits full_width v = false

both_true : (a b : Bool) → (a && b) ≡ true → (a ≡ true) × (b ≡ true)
both_true true true e = (refl, refl)
both_true true false e = absurd (cc e)
both_true false b e = absurd (cc e)

Small : ℕ → ℕ → Type 0
Small n v = (v < n) ⊎ (0x1_0000_0000_0000_0000 ≤ v + n)

of_signed :
    (low high v : ℕ)
    → v < word_mod
    → high < 0x8000_0000_0000_0000
    → 0x8000_0000_0000_0000 ≤ low
    → low < word_mod
    → sle low v ≡ true
    → sle v high ≡ true
    → (v ≤ high) ⊎ (low ≤ v)
of_signed low high v inside h l l' p q = elim (Bool-cases (ltb v 0x8000_0000_0000_0000)) [
  | inl b ↦ inl (omega (arith, ltb→lt v 0x8000_0000_0000_0000 b, leb→le (bias v) (bias high) q))
  | inr b ↦
      inr (omega (arith, ltb_false→le v 0x8000_0000_0000_0000 b, leb→le (bias low) (bias v) p))
]

fits_byte-Small : (v : ℕ) → v < word_mod → fits_byte v ≡ true → Small 0x80 v
unfolding fits_byte Small
fits_byte-Small v inside e =
    let (p, q) = both_true (sle 0xffff_ffff_ffff_ff80 v) (sle v 0x7f) e in
    elim (of_signed 0xffff_ffff_ffff_ff80 0x7f v inside (omega arith) (omega arith) (omega arith) p
      q) [ inl l ↦ inl (omega arith) | inr l ↦ inr (omega arith) ]

fits_half-Small : (v : ℕ) → v < word_mod → fits_half v ≡ true → Small 0x8000_0000 v
unfolding fits_half Small
fits_half-Small v inside e =
    let (p, q) = both_true (sle 0xffff_ffff_8000_0000 v) (sle v 0x7fff_ffff) e in
    elim (of_signed 0xffff_ffff_8000_0000 0x7fff_ffff v inside (omega arith) (omega arith)
      (omega arith) p q) [ inl l ↦ inl (omega arith) | inr l ↦ inr (omega arith) ]

number_byte : (v : ℕ) → v < word_mod → Small 0x80 v → narrowed byte_width v ≡ v
unfolding extend extend8 read_number number_bytes width_bytes Small
number_byte v inside e = ground arith

number_half : (v : ℕ) → v < word_mod → Small 0x8000_0000 v → narrowed half_width v ≡ v
unfolding extend extend32 read_number number_bytes width_bytes Small
number_half v inside e = ground arith

-- A number in a word that passes the test of the pass for a width is read back from an operand of
-- that width.
pub narrowed_lem : (w : Width) (v : ℕ) → v < word_mod → fits w v ≡ true → narrowed w v ≡ v
narrowed_lem byte_width v inside e = number_byte v inside (fits_byte-Small v inside e)
narrowed_lem half_width v inside e = number_half v inside (fits_half-Small v inside e)
narrowed_lem full_width v inside e = absurd (cc e)

adjusted-back :
    (op : DIns) (len i v t : ℕ)
    → i < 0x4000_0000_0000_0000
    → t < i + 1
    → v ≡ sub_word t i
    → adjusted op len v ≡ v
unfolding adjusted sub_word
adjusted-back op len i v t li lt e = if_false (sub_word v len) v (
    ap (λ b. is_relative op && b) (le→ltb_false (bias 0) (bias v) (omega (arith, e)))
    ∙ never (is_relative op))
  where
    never : (b : Bool) → (b && false) ≡ false
    never true = refl
    never false = refl

adjusted-forward :
    (op : DIns) (len i v t : ℕ)
    → is_relative op ≡ true
    → t < 0x4000_0000_0000_0000
    → i + 1 + len ≤ t
    → v ≡ sub_word t i
    → adjusted op len v ≡ t - i - len
unfolding adjusted sub_word
adjusted-forward op len i v t r lt le e =
    if_true (sub_word v len) v (ap₂ (λ a b. a && b) r (lt→ltb (bias 0) (bias v) (omega (arith, e))))
    ∙ omega (arith, e)

forward_number :
    (w : Width) (v v' : ℕ)
    → v < 0x4000_0000_0000_0000
    → fits w v ≡ true
    → v' ≤ v
    → narrowed w v' ≡ v'
unfolding Small
forward_number byte_width v v' less e le = elim (fits_byte-Small v (omega arith) e) [
  | inl l ↦ number_byte v' (omega arith) (inl (omega arith))
  | inr l ↦ absurd (omega arith)
]
forward_number half_width v v' less e le = elim (fits_half-Small v (omega arith) e) [
  | inl l ↦ number_half v' (omega arith) (inl (omega arith))
  | inr l ↦ absurd (omega arith)
]
forward_number full_width v v' less e le = absurd (cc e)

word_lem :
    (v i t : ℕ)
    → i < 0x4000_0000_0000_0000
    → t < 0x4000_0000_0000_0000
    → v ≡ sub_word t i
    → v < word_mod
unfolding sub_word
word_lem v i t li lt e = omega (arith, e)

back_lem :
    (v i t : ℕ)
    → i < 0x4000_0000_0000_0000
    → t < 0x4000_0000_0000_0000
    → v ≡ sub_word t i
    → add_word i v ≡ t
unfolding sub_word add_word
back_lem v i t li lt e = omega (arith, e)

forward_less :
    (v i t : ℕ) → t < 0x4000_0000_0000_0000 → i ≤ t → v ≡ sub_word t i → v < 0x4000_0000_0000_0000
unfolding sub_word
forward_less v i t lt le e = omega (arith, e)

forward_le :
    (v i t len : ℕ) → t < 0x4000_0000_0000_0000 → i ≤ t → v ≡ sub_word t i → t - i - len ≤ v
unfolding sub_word
forward_le v i t len lt le e = omega (arith, e)

forward_lem :
    (i len t : ℕ) → t < 0x4000_0000_0000_0000 → i + 1 + len ≤ t → add_word i (t - i - len) ≡ t - len
unfolding add_word
forward_lem i len t lt le = omega arith

-- A relative jump or call from `i` to `t` whose amount passes the test for a width: with the adjusted
-- amount in an operand of that width, it leads from `i` to the new place of `t`, after the bytes that
-- the operand no longer has were removed behind the opcode. `t` is not one of the removed bytes.
pub adjusted-narrowed :
    (op : DIns) (w : Width) (i t v : ℕ)
    → is_relative op ≡ true
    → i < 0x4000_0000_0000_0000
    → t < 0x4000_0000_0000_0000
    → Kept (i + 1) (width_bytes full_width - width_bytes w) t
    → v ≡ sub_word t i
    → fits w v ≡ true
    → add_word i (narrowed w (adjusted op (width_bytes full_width - width_bytes w) v))
      ≡ shifted (i + 1) (width_bytes full_width - width_bytes w) t
adjusted-narrowed op w i t v r li lt (inl back) e f =
    ap (λ x. add_word i (narrowed w x))
      (adjusted-back op (width_bytes full_width - width_bytes w) i v t li back e)
    ∙ ap (add_word i) (narrowed_lem w v (word_lem v i t li lt e) f)
    ∙ back_lem v i t li lt e
    ∙ sym (
        if_false _ t
          (lt→leb_false (i + 1 + (width_bytes full_width - width_bytes w)) t (omega arith)))
adjusted-narrowed op w i t v r li lt (inr forward) e f =
    ap (λ x. add_word i (narrowed w x))
      (adjusted-forward op (width_bytes full_width - width_bytes w) i v t r lt forward e)
    ∙ ap (add_word i) (
        forward_number w v (t - i - (width_bytes full_width - width_bytes w))
          (forward_less v i t lt (omega (arith, forward)) e) f
          (forward_le v i t (width_bytes full_width - width_bytes w) lt (omega (arith, forward)) e))
    ∙ forward_lem i (width_bytes full_width - width_bytes w) t lt forward
    ∙ sym (if_true _ t (le→leb (i + 1 + (width_bytes full_width - width_bytes w)) t forward))
