-- ===== src/Prelude/Int.antt =====
-- Go's int and int64 (64 bits on every platform that the program is built for), as integers over
-- the native numbers, with the wrap-around of a sum written out.
use Prim.Native.Nat.{ℕ, suc, ◌+◌, ◌-◌, ◌^◌}
use mathlib.Core.Bool.{Bool}
use transferly.Prelude.Tests.{ltb, leb, if◌then◌else◌}

-- `negsuc n` is -(n + 1).
pub data ℤ : Type 0 where
  pos : ℕ → ℤ
  negsuc : ℕ → ℤ

abbrev pub pos_part : ℤ → ℕ
pos_part (pos n) = n
pos_part (negsuc n) = 0

abbrev pub neg_part : ℤ → ℕ
neg_part (pos n) = 0
neg_part (negsuc n) = suc n

abbrev pub ltb_ℤ : ℤ → ℤ → Bool
ltb_ℤ a b = ltb (pos_part a + neg_part b) (pos_part b + neg_part a)

abbrev pub max_int64 : ℕ
max_int64 = 2 ^ 63 - 1

-- a - b, as an integer.
abbrev pub sub_ℕ : ℕ → ℕ → ℤ
sub_ℕ a b = if leb b a then pos (a - b) else negsuc (b - a - 1)

-- A sum of two int64 values, brought back into the range.
abbrev pub wrap : ℤ → ℤ
wrap (pos n) = if leb n max_int64 then pos n else sub_ℕ n (2 ^ 64)
wrap (negsuc n) = if leb n max_int64 then negsuc n else pos (2 ^ 64 - suc n)

unfoldable pub add_int64 : ℤ → ℤ → ℤ
add_int64 a b = wrap (sub_ℕ (pos_part a + pos_part b) (neg_part a + neg_part b))
