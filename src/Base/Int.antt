-- ===== src/Base/Int.antt =====
-- Signed integers over the native numbers, under the library's names (its ℤ stands on another ℕ),
-- and the `int64` arithmetic of Go's `time.Duration`.
use Prim.Native.Nat.{ℕ, suc, ◌+◌, ◌-◌, ◌*◌, ◌%◌, ◌≤◌}
use mathlib.Core.Bool.{Bool, false}
use ocis_cli.Base.Tests.{ltb, leb, ◌==◌, if◌then◌else◌}

-- `negsuc n` is -(n + 1).
pub data ℤ : Type 0 where
  pos : ℕ → ℤ
  negsuc : ℕ → ℤ

abbrev pub pos_part : ℤ → ℕ
pos_part (pos n) = n
pos_part (negsuc n) = 0

abbrev pub neg_part : ℤ → ℕ
neg_part (pos n) = 0
neg_part (negsuc n) = suc n

-- a - b, as an integer.
abbrev pub sub_ℕ : ℕ → ℕ → ℤ
sub_ℕ a b = if leb b a then pos (a - b) else negsuc (b - a - 1)

infix 50 ◌≤ℤ◌
abbrev pub ◌≤ℤ◌ : ℤ → ℤ → Type 0
a ≤ℤ b = pos_part a + neg_part b ≤ pos_part b + neg_part a

abbrev pub leb_ℤ : ℤ → ℤ → Bool
leb_ℤ a b = leb (pos_part a + neg_part b) (pos_part b + neg_part a)

abbrev pub ltb_ℤ : ℤ → ℤ → Bool
ltb_ℤ a b = ltb (pos_part a + neg_part b) (pos_part b + neg_part a)

-- 2⁶³, one more than the greatest `int64`.
abbrev pub two_63 : ℕ
two_63 = 9223372036854775808

abbrev pub two_64 : ℕ
two_64 = 18446744073709551616

abbrev pub max_int64 : ℤ
max_int64 = pos 9223372036854775807

abbrev pub min_int64 : ℤ
min_int64 = negsuc 9223372036854775807

-- The `int64` with the low 64 bits of a natural number.
abbrev pub from_bits : ℕ → ℤ
from_bits b = if ltb b two_63 then pos b else negsuc (two_64 - 1 - b)

-- The low 64 bits of an integer, in two's complement.
abbrev pub to_bits : ℤ → ℕ
to_bits (pos n) = n % two_64
to_bits (negsuc n) = two_64 - 1 - n % two_64

abbrev pub wrap_64 : ℤ → ℤ
wrap_64 a = from_bits (to_bits a)

-- `-a` on `int64`: the least value is its own negation.
abbrev pub neg_64 : ℤ → ℤ
neg_64 a = wrap_64 (sub_ℕ (neg_part a) (pos_part a))

-- `a * k` on `int64`, for a factor that is not negative.
abbrev pub mul_64 : ℤ → ℕ → ℤ
mul_64 a k = wrap_64 (sub_ℕ (pos_part a * k) (neg_part a * k))

-- What an `int64` holds.
pub record IsInt64 (a : ℤ) : Type 0 where
  pub low : min_int64 ≤ℤ a
  pub high : a ≤ℤ max_int64

abbrev pub eq_ℤ : ℤ → ℤ → Bool
eq_ℤ (pos m) (pos n) = m == n
eq_ℤ (negsuc m) (negsuc n) = m == n
eq_ℤ _ _ = false

-- `a + b` on `int64`.
abbrev pub add_64 : ℤ → ℤ → ℤ
add_64 a b = from_bits ((to_bits a + to_bits b) % two_64)
