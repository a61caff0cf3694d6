-- ===== src/Base/Int.antt =====
-- int64: signed integers over the native numbers, with the wrap-around of a sum.
use Prim.Native.Nat.{ℕ, suc, ◌+◌, ◌-◌, ◌%◌, ◌^◌, ◌≤◌, ◌<◌}
use mathlib.Core.Path.{◌≡◌, refl}
use mathlib.Core.Logic.{◌↔◌}
use mathlib.Core.Bool.{Bool, true}
use native.Mathlib.Omega.{arith}
use advanced_group_chat_syst.Base.Tests.{ltb, leb, nat_beq, if◌then◌else◌}

-- `negsuc n` is -(n + 1).
pub data ℤ : Type 0 where
  pos : ℕ → ℤ
  negsuc : ℕ → ℤ

abbrev pub pos_part : ℤ → ℕ
pos_part (pos n) = n
pos_part (negsuc n) = 0

abbrev pub neg_part : ℤ → ℕ
neg_part (pos n) = 0
neg_part (negsuc n) = suc n

-- a - b, as an integer.
abbrev pub sub_ℕ : ℕ → ℕ → ℤ
sub_ℕ a b = if leb b a then pos (a - b) else negsuc (b - a - 1)

-- -1, with which the source marks "none".
abbrev pub minus_one : ℤ
minus_one = negsuc 0

infixl 65 ◌+ℤ◌ ◌-ℤ◌
infix 50 ◌≤ℤ◌ ◌<ℤ◌
unfoldable pub ◌+ℤ◌ : ℤ → ℤ → ℤ
a +ℤ b = sub_ℕ (pos_part a + pos_part b) (neg_part a + neg_part b)

unfoldable pub ◌-ℤ◌ : ℤ → ℤ → ℤ
a -ℤ b = sub_ℕ (pos_part a + neg_part b) (neg_part a + pos_part b)

abbrev pub ◌≤ℤ◌ : ℤ → ℤ → Type 0
a ≤ℤ b = pos_part a + neg_part b ≤ pos_part b + neg_part a

abbrev pub ◌<ℤ◌ : ℤ → ℤ → Type 0
a <ℤ b = pos_part a + neg_part b < pos_part b + neg_part a

abbrev pub ltb_ℤ : ℤ → ℤ → Bool
ltb_ℤ a b = ltb (pos_part a + neg_part b) (pos_part b + neg_part a)

abbrev pub leb_ℤ : ℤ → ℤ → Bool
leb_ℤ a b = leb (pos_part a + neg_part b) (pos_part b + neg_part a)

abbrev pub beq_ℤ : ℤ → ℤ → Bool
beq_ℤ a b = nat_beq (pos_part a + neg_part b) (pos_part b + neg_part a)

pub eq_of_parts : (a b : ℤ) → pos_part a + neg_part b ≡ pos_part b + neg_part a → a ≡ b
eq_of_parts a b h = ground arith

pub beq_ℤ_iff : (a b : ℤ) → (beq_ℤ a b ≡ true) ↔ (a ≡ b)
beq_ℤ_iff a b = ground (arith, eq_of_parts a b)

pub +ℤ_parts :
    (a b : ℤ)
    → pos_part (a +ℤ b) + neg_part a + neg_part b ≡ neg_part (a +ℤ b) + pos_part a + pos_part b
unfolding ◌+ℤ◌
+ℤ_parts a b = ground arith

pub -ℤ_parts :
    (a b : ℤ)
    → pos_part (a -ℤ b) + neg_part a + pos_part b ≡ neg_part (a -ℤ b) + pos_part a + neg_part b
unfolding ◌-ℤ◌
-ℤ_parts a b = ground arith

-- The residue modulo 2^64 that lies in the range of an int64.
unfoldable pub wrap64 : ℤ → ℤ
wrap64 (pos n) = let m = n % 2 ^ 64 in if ltb m (2 ^ 63) then pos m else negsuc (2 ^ 64 - m - 1)
wrap64 (negsuc n) = let m = n % 2 ^ 64 in if ltb m (2 ^ 63) then negsuc m else pos (2 ^ 64 - m - 1)

abbrev pub InRange64 : ℤ → Type 0
InRange64 a = (pos_part a < 2 ^ 63) × (neg_part a ≤ 2 ^ 63)

pub wrap64-InRange64 : (a : ℤ) → InRange64 (wrap64 a)
unfolding wrap64
wrap64-InRange64 a = ground arith

pub wrap64-of_InRange64 : (a : ℤ) → InRange64 a → wrap64 a ≡ a
unfolding wrap64
wrap64-of_InRange64 a h = ground arith

-- int64 addition and subtraction
unfoldable pub add64 : ℤ → ℤ → ℤ
unfolding ◌+ℤ◌ wrap64
add64 a b = wrap64 (a +ℤ b)

unfoldable pub sub64 : ℤ → ℤ → ℤ
unfolding ◌-ℤ◌ wrap64
sub64 a b = wrap64 (a -ℤ b)

pub add64_pos : (a b : ℕ) → a + b < 2 ^ 63 → add64 (pos a) (pos b) ≡ pos (a + b)
unfolding add64
add64_pos a b h = ground arith

pub sub64_one : (a : ℕ) → a < 2 ^ 63 → sub64 (pos (suc a)) (pos 1) ≡ pos a
unfolding sub64
sub64_one a h = ground arith

-- One more, below the largest int64.
pub add64_one : (a : ℤ) → InRange64 a → pos_part a + 1 < 2 ^ 63 → add64 a (pos 1) ≡ a +ℤ pos 1
unfolding add64
add64_one a r h = ground arith

pub lt-add64_one : (a : ℤ) → InRange64 a → pos_part a + 1 < 2 ^ 63 → a <ℤ add64 a (pos 1)
unfolding add64
lt-add64_one a r h = ground arith

test_wrap : add64 (pos 9223372036854775807) (pos 1) ≡ negsuc 9223372036854775807
unfolding add64
test_wrap = refl
