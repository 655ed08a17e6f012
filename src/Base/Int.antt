-- ===== src/Base/Int.antt =====
-- Signed integers over the native numbers, as far as the heights of a tree need them.
use native.Mathlib.Decide.{dec_lt}
use parallel_memory_allocato.Base.{
  zero, ◌≤◌, ◌≡◌, ◌⊎◌, inl, inr, refl, arith, ℕ, suc, ◌+◌, ◌-◌, Bool, ltb, leb, ◌==◌, if◌then◌else◌,
}

-- `negsuc n` is -(n + 1).
pub data ℤ : Type 0 where
  pos : ℕ → ℤ
  negsuc : ℕ → ℤ

abbrev pub pos_part : ℤ → ℕ
pos_part (pos n) = n
pos_part (negsuc n) = 0

abbrev pub neg_part : ℤ → ℕ
neg_part (pos n) = 0
neg_part (negsuc n) = suc n

-- a - b, as an integer.
abbrev pub sub_ℕ : ℕ → ℕ → ℤ
sub_ℕ a b = if leb b a then pos (a - b) else negsuc (b - a - 1)

infixl 65 ◌+ℤ◌ ◌-ℤ◌
abbrev pub ◌+ℤ◌ : ℤ → ℤ → ℤ
a +ℤ b = sub_ℕ (pos_part a + pos_part b) (neg_part a + neg_part b)

unfoldable pub ◌-ℤ◌ : ℤ → ℤ → ℤ
a -ℤ b = sub_ℕ (pos_part a + neg_part b) (neg_part a + pos_part b)

abbrev pub ltb_ℤ : ℤ → ℤ → Bool
ltb_ℤ a b = ltb (pos_part a + neg_part b) (pos_part b + neg_part a)

abbrev pub eqb_ℤ : ℤ → ℤ → Bool
eqb_ℤ a b = (pos_part a + neg_part b) == (pos_part b + neg_part a)

-- A difference of numbers by its value, and the difference of two numbers that are less by 1.
pub sub_ℕ-pos : (a b n : ℕ) → a ≡ b + n → sub_ℕ a b ≡ pos n
sub_ℕ-pos a b n h = ground arith

pub sub_ℕ-negsuc : (a b n : ℕ) → b ≡ a + suc n → sub_ℕ a b ≡ negsuc n
sub_ℕ-negsuc a b n h = ground arith

pub sub_ℕ_near :
    (a b : ℕ)
    → a ≤ b + 1
    → b ≤ a + 1
    → (sub_ℕ a b ≡ pos 0) ⊎ ((sub_ℕ a b ≡ pos 1) ⊎ (sub_ℕ a b ≡ negsuc 0))
sub_ℕ_near a b h k = elim (dec_lt a b) [
  | yes p ↦ inr (inr (sub_ℕ-negsuc a b 0 (omega arith)))
  | no p ↦ elim (dec_lt b a) [
    | yes q ↦ inr (inl (sub_ℕ-pos a b 1 (omega arith)))
    | no q ↦ inl (sub_ℕ-pos a b 0 (omega arith))
  ]
]

pub sub_ℕ-sub_ℕ : (a b : ℕ) → sub_ℕ a 1 -ℤ sub_ℕ b 1 ≡ sub_ℕ a b
unfolding ◌-ℤ◌
sub_ℕ-sub_ℕ zero zero = refl
sub_ℕ-sub_ℕ zero (suc b) = ground arith
sub_ℕ-sub_ℕ (suc a) zero = ground arith
sub_ℕ-sub_ℕ (suc a) (suc b) = ground arith
