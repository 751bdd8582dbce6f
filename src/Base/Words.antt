-- ===== src/Base/Words.antt =====
-- Go's fixed-width integers. A uint64 is a number below 2 ^ 64; an int64 is an integer between
-- -2 ^ 63 and 2 ^ 63 - 1, and the conversions keep the bit pattern.
use Prim.Native.Nat.{ℕ, suc, ◌+◌, ◌-◌, ◌*◌, ◌%◌, ◌^◌, ◌≤◌, ◌<◌}
use mathlib.Core.Path.{◌≡◌}
use mathlib.Core.Bool.{Bool}
use native.Mathlib.Omega.{arith}
use hostpathpv_plugin.Base.Tests.{ltb, leb, ◌==◌, if◌then◌else◌}

abbrev pub word : ℕ
word = 2 ^ 64

-- uint64 a + b, a - b and a * b
unfoldable pub add64 : ℕ → ℕ → ℕ
add64 a b = (a + b) % word

unfoldable pub sub64 : ℕ → ℕ → ℕ
sub64 a b = (a + word - b) % word

unfoldable pub mul64 : ℕ → ℕ → ℕ
mul64 a b = a * b % word

pub add64_exact : (a b : ℕ) → a + b < word → add64 a b ≡ a + b
unfolding add64
add64_exact a b h = omega arith

pub sub64_exact : (a b : ℕ) → b ≤ a → a < word → sub64 a b ≡ a - b
unfolding sub64
sub64_exact a b h k = omega arith

-- `negsuc n` is -(n + 1).
pub data ℤ : Type 0 where
  pos : ℕ → ℤ
  negsuc : ℕ → ℤ

abbrev pub pos_part : ℤ → ℕ
pos_part (pos n) = n
pos_part (negsuc n) = 0

abbrev pub neg_part : ℤ → ℕ
neg_part (pos n) = 0
neg_part (negsuc n) = suc n

-- a - b, as an integer.
abbrev pub sub_ℕ : ℕ → ℕ → ℤ
sub_ℕ a b = if leb b a then pos (a - b) else negsuc (b - a - 1)

infix 50 ◌≤ℤ◌
abbrev pub ◌≤ℤ◌ : ℤ → ℤ → Type 0
a ≤ℤ b = pos_part a + neg_part b ≤ pos_part b + neg_part a

-- The tests `a < b`, `a <= b` and `a == b` on integers.
abbrev pub ltb_ℤ : ℤ → ℤ → Bool
ltb_ℤ a b = ltb (pos_part a + neg_part b) (pos_part b + neg_part a)

abbrev pub leb_ℤ : ℤ → ℤ → Bool
leb_ℤ a b = leb (pos_part a + neg_part b) (pos_part b + neg_part a)

abbrev pub eqb_ℤ : ℤ → ℤ → Bool
eqb_ℤ a b = (pos_part a + neg_part b) == (pos_part b + neg_part a)

-- uint64(n) and int64(n)
unfoldable pub to_u64 : ℤ → ℕ
to_u64 (pos n) = n % word
to_u64 (negsuc n) = word - 1 - n % word

unfoldable pub to_i64 : ℕ → ℤ
to_i64 n = let m = n % word in if ltb m (2 ^ 63) then pos m else negsuc (word - 1 - m)

-- int64 a + b and a - b, which wrap round.
unfoldable pub add_i64 : ℤ → ℤ → ℤ
unfolding to_i64 to_u64
add_i64 a b = to_i64 (to_u64 a + to_u64 b)

unfoldable pub sub_i64 : ℤ → ℤ → ℤ
unfolding to_i64 to_u64
sub_i64 a b = to_i64 (to_u64 a + word - to_u64 b)

pub to_i64-to_u64 : (n : ℕ) → n < 2 ^ 63 → to_i64 (to_u64 (pos n)) ≡ pos n
unfolding to_i64 to_u64
to_i64-to_u64 n h = ground arith

pub to_i64_small : (n : ℕ) → n < 2 ^ 63 → to_i64 n ≡ pos n
unfolding to_i64
to_i64_small n h = ground arith

pub to_u64_small : (n : ℕ) → n < word → to_u64 (pos n) ≡ n
unfolding to_u64
to_u64_small n h = omega arith
