-- ===== src/Prelude/Words.antt =====
-- Machine words. A `dint` is its 64-bit pattern, a number below 2 ^ 64 (the build without
-- DECISION_32); signed operations read the pattern as two's complement.
use Prim.Native.Nat.{ℕ, ◌+◌, ◌-◌, ◌*◌, ◌/◌, ◌%◌, ◌<◌}
use mathlib.Core.Path.{◌≡◌}
use mathlib.Core.Bool.{Bool, xor}
use native.Mathlib.Omega.{arith}
use decision.Prelude.Tests.{ltb, leb, if◌then◌else◌}

abbrev pub word_mod : ℕ
word_mod = 0x1_0000_0000_0000_0000

abbrev pub int_min : ℕ
int_min = 0x8000_0000_0000_0000

-- -1
abbrev pub minus_one : ℕ
minus_one = 0xffff_ffff_ffff_ffff

abbrev pub is_negative : ℕ → Bool
is_negative w = leb int_min w

unfoldable pub negate : ℕ → ℕ
negate w = (word_mod - w) % word_mod

abbrev pub magnitude : ℕ → ℕ
magnitude w = if is_negative w then word_mod - w else w

unfoldable pub add_word : ℕ → ℕ → ℕ
add_word a b = (a + b) % word_mod

unfoldable pub sub_word : ℕ → ℕ → ℕ
sub_word a b = (a + word_mod - b) % word_mod

unfoldable pub mul_word : ℕ → ℕ → ℕ
mul_word a b = a * b % word_mod

-- Division rounds towards zero, and the remainder has the sign of the dividend.
unfoldable pub div_word : ℕ → ℕ → ℕ
unfolding negate
div_word a b =
    let q = magnitude a / magnitude b in if xor (is_negative a) (is_negative b) then negate q else q

unfoldable pub mod_word : ℕ → ℕ → ℕ
unfolding negate
mod_word a b = let r = magnitude a % magnitude b in if is_negative a then negate r else r

-- Signed order, by the pattern with its sign bit flipped.
abbrev pub bias : ℕ → ℕ
bias w = (w + int_min) % word_mod

abbrev pub slt : ℕ → ℕ → Bool
slt a b = ltb (bias a) (bias b)

abbrev pub sle : ℕ → ℕ → Bool
sle a b = leb (bias a) (bias b)

abbrev pub of_bool : Bool → ℕ
of_bool b = if b then 1 else 0

-- The sign extension of an 8-bit and of a 32-bit pattern.
unfoldable pub extend8 : ℕ → ℕ
extend8 b = if leb 0x80 b then b + 0xffff_ffff_ffff_ff00 else b

unfoldable pub extend32 : ℕ → ℕ
extend32 h = if leb 0x8000_0000 h then h + 0xffff_ffff_0000_0000 else h

pub add_word-lt : (a b : ℕ) → add_word a b < word_mod
unfolding add_word
add_word-lt a b = omega arith

pub sub_word-add_word : (a b : ℕ) → a < word_mod → b < word_mod → sub_word (add_word a b) b ≡ a
unfolding add_word sub_word
sub_word-add_word a b ha hb = omega arith
