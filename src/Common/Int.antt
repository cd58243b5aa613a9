-- ===== src/Common/Int.antt =====
-- The `int` values of the program as integers over the native numbers; no range is imposed.
-- `tdiv` and `tmod` are C's `/` and `%`, which round towards zero.
use mashroom.Common.{
  ℕ, suc, ◌+◌, ◌-◌, ◌*◌, ◌/◌, ◌%◌, ◌≤◌, ◌≡◌, ◌⊎◌, Bool, true, false, ◌==◌, arith, ltb, leb,
  if◌then◌else◌,
}

-- `negsuc n` is -(n + 1).
pub data ℤ : Type 0 where
  pos : ℕ → ℤ
  negsuc : ℕ → ℤ

abbrev pub pos_part : ℤ → ℕ
pos_part (pos n) = n
pos_part (negsuc n) = 0

abbrev pub neg_part : ℤ → ℕ
neg_part (pos n) = 0
neg_part (negsuc n) = suc n

-- a - b, as an integer.
abbrev pub sub_ℕ : ℕ → ℕ → ℤ
sub_ℕ a b = if leb b a then pos (a - b) else negsuc (b - a - 1)

infixl 65 ◌+ℤ◌ ◌-ℤ◌
infix 50 ◌≤ℤ◌
unfoldable pub ◌+ℤ◌ : ℤ → ℤ → ℤ
a +ℤ b = sub_ℕ (pos_part a + pos_part b) (neg_part a + neg_part b)

unfoldable pub ◌-ℤ◌ : ℤ → ℤ → ℤ
a -ℤ b = sub_ℕ (pos_part a + neg_part b) (neg_part a + pos_part b)

abbrev pub neg_ℤ : ℤ → ℤ
neg_ℤ a = sub_ℕ (neg_part a) (pos_part a)

abbrev pub eq_ℤ : ℤ → ℤ → Bool
eq_ℤ (pos a) (pos b) = a == b
eq_ℤ (negsuc a) (negsuc b) = a == b
eq_ℤ a b = false

-- `k * a` for a literal `k` of the source.
unfoldable pub scale_ℤ : ℕ → ℤ → ℤ
scale_ℤ k a = sub_ℕ (k * pos_part a) (k * neg_part a)

unfoldable pub tdiv : ℤ → ℕ → ℤ
tdiv a k = sub_ℕ (pos_part a / k) (neg_part a / k)

unfoldable pub tmod : ℤ → ℕ → ℤ
tmod a k = sub_ℕ (pos_part a % k) (neg_part a % k)

abbrev pub ◌≤ℤ◌ : ℤ → ℤ → Type 0
a ≤ℤ b = pos_part a + neg_part b ≤ pos_part b + neg_part a

abbrev pub ltb_ℤ : ℤ → ℤ → Bool
ltb_ℤ a b = ltb (pos_part a + neg_part b) (pos_part b + neg_part a)

pub +ℤ_parts :
    (a b : ℤ)
    → pos_part (a +ℤ b) + neg_part a + neg_part b ≡ neg_part (a +ℤ b) + pos_part a + pos_part b
unfolding ◌+ℤ◌
+ℤ_parts a b = ground arith

pub -ℤ_parts :
    (a b : ℤ)
    → pos_part (a -ℤ b) + neg_part a + pos_part b ≡ neg_part (a -ℤ b) + pos_part a + neg_part b
unfolding ◌-ℤ◌
-ℤ_parts a b = ground arith

pub scale_ℤ_parts :
    (k : ℕ) (a : ℤ)
    → pos_part (scale_ℤ k a) + k * neg_part a ≡ neg_part (scale_ℤ k a) + k * pos_part a
unfolding scale_ℤ
scale_ℤ_parts k (pos n) = ground arith
scale_ℤ_parts k (negsuc n) = ground arith

-- One part of an integer is 0.
pub part_zero : (a : ℤ) → (pos_part a ≡ 0) ⊎ (neg_part a ≡ 0)
part_zero a = ground arith

-- Quotient and remainder by the hours of a day.
pub tdiv_parts_24 :
    (a : ℤ) → (pos_part (tdiv a 24) ≡ pos_part a / 24) × (neg_part (tdiv a 24) ≡ neg_part a / 24)
unfolding tdiv
tdiv_parts_24 a = ground arith

pub tmod_parts_24 :
    (a : ℤ) → (pos_part (tmod a 24) ≡ pos_part a % 24) × (neg_part (tmod a 24) ≡ neg_part a % 24)
unfolding tmod
tmod_parts_24 a = ground arith

-- C's `/` and `%` of a number that is not negative.
pub tdiv-pos : (n : ℕ) → tdiv (pos n) 12 ≡ pos (n / 12)
unfolding tdiv
tdiv-pos n = ground arith

pub tmod-pos : (n : ℕ) → tmod (pos n) 12 ≡ pos (n % 12)
unfolding tmod
tmod-pos n = ground arith

pub eq_of_parts : (a b : ℤ) → pos_part a + neg_part b ≡ pos_part b + neg_part a → a ≡ b
eq_of_parts a b h = ground arith

pub ruleset int_laws = (arith, +ℤ_parts, -ℤ_parts, eq_of_parts)
