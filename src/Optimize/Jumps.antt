-- ===== src/Optimize/Jumps.antt =====
-- Relative jumps over a removed part of the text still reach the instructions that they reached:
-- src/doptimize.c, `d_optimize_remove_bytecode`.
use decision.Prelude.{
  ℕ, ◌+◌, ◌≤◌, ◌<◌, ◌≡◌, ◌⊎◌, inl, inr, arith, add_word, sub_word, extend8, extend32,
}
use decision.Optimize.{
  Width, byte_width, half_width, full_width, modulus, extend, fix_amount, shifted,
}

-- The index is not in the removed part.
abbrev pub Kept : ℕ → ℕ → ℕ → Type 0
Kept start len i = (i < start) ⊎ (start + len ≤ i)

-- The amount of a relative jump from `p` to `t`, neither of them removed, is fixed so that the jump
-- leads from the new place of `p` to the new place of `t`, for each width of the operand.
pub fix_amount_lem :
    (w : Width) (start len p t amount : ℕ)
    → 0 < len
    → Kept start len p
    → Kept start len t
    → p < 0x4000_0000_0000_0000
    → t < 0x4000_0000_0000_0000
    → amount < modulus w
    → extend w amount ≡ sub_word t p
    → add_word
        (shifted start len p)
        (extend w (fix_amount w start len (shifted start len p) amount))
      ≡ shifted start len t
unfolding modulus extend fix_amount add_word sub_word extend8 extend32
fix_amount_lem byte_width start len p t amount pos (inl kp) (inl kt) lp lt la e = ground arith
fix_amount_lem byte_width start len p t amount pos (inl kp) (inr kt) lp lt la e = ground arith
fix_amount_lem byte_width start len p t amount pos (inr kp) (inl kt) lp lt la e = ground arith
fix_amount_lem byte_width start len p t amount pos (inr kp) (inr kt) lp lt la e = ground arith
fix_amount_lem half_width start len p t amount pos (inl kp) (inl kt) lp lt la e = ground arith
fix_amount_lem half_width start len p t amount pos (inl kp) (inr kt) lp lt la e = ground arith
fix_amount_lem half_width start len p t amount pos (inr kp) (inl kt) lp lt la e = ground arith
fix_amount_lem half_width start len p t amount pos (inr kp) (inr kt) lp lt la e = ground arith
fix_amount_lem full_width start len p t amount pos (inl kp) (inl kt) lp lt la e = ground arith
fix_amount_lem full_width start len p t amount pos (inl kp) (inr kt) lp lt la e = ground arith
fix_amount_lem full_width start len p t amount pos (inr kp) (inl kt) lp lt la e = ground arith
fix_amount_lem full_width start len p t amount pos (inr kp) (inr kt) lp lt la e = ground arith
