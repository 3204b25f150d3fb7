-- ===== src/Base/Int64.antt =====
-- Go's int64: integers with the wrap-around of two's complement written out.
use Prim.Native.Nat.{ℕ, ◌-◌, ◌%◌, ◌^◌, ◌≤◌, ◌<◌}
use mathlib.Core.Path.{◌≡◌}
use native.Mathlib.Omega.{arith}
use hamr.Base.Tests.{ltb, if◌then◌else◌}
use hamr.Base.Int.{ℤ, pos, negsuc, pos_part, neg_part, ◌+ℤ◌, ◌-ℤ◌, ◌*ℤ◌, ◌≤ℤ◌, quot}

-- The two's complement bit pattern of an integer.
abbrev pub bits64 : ℤ → ℕ
bits64 (pos n) = n % 2 ^ 64
bits64 (negsuc n) = 2 ^ 64 - 1 - n % 2 ^ 64

-- The signed reading of a bit pattern.
abbrev pub signed64 : ℕ → ℤ
signed64 b = if ltb b (2 ^ 63) then pos b else negsuc (2 ^ 64 - 1 - b)

unfoldable pub wrap64 : ℤ → ℤ
wrap64 z = signed64 (bits64 z)

abbrev pub add64 : ℤ → ℤ → ℤ
add64 a b = wrap64 (a +ℤ b)

abbrev pub sub64 : ℤ → ℤ → ℤ
sub64 a b = wrap64 (a -ℤ b)

abbrev pub mul64 : ℤ → ℤ → ℤ
mul64 a b = wrap64 (a *ℤ b)

-- Go's `/` truncates; only the least int64 divided by -1 wraps.
abbrev pub div64 : ℤ → ℤ → ℤ
div64 a b = wrap64 (quot a b)

abbrev pub IsInt64 : ℤ → Type 0
IsInt64 z = (pos_part z < 2 ^ 63) × (neg_part z ≤ 2 ^ 63)

pub wrap64_id : (z : ℤ) → IsInt64 z → wrap64 z ≡ z
unfolding wrap64
wrap64_id (pos n) h = ground arith
wrap64_id (negsuc n) h = ground arith

pub wrap64-IsInt64 : (z : ℤ) → IsInt64 (wrap64 z)
unfolding wrap64
wrap64-IsInt64 (pos n) = ground arith
wrap64-IsInt64 (negsuc n) = ground arith

-- An inner wrap does not matter under an outer one.
pub wrap64-add-wrap64 : (a b : ℤ) → wrap64 (wrap64 a +ℤ b) ≡ wrap64 (a +ℤ b)
unfolding wrap64 ◌+ℤ◌
wrap64-add-wrap64 (pos m) (pos n) = ground arith
wrap64-add-wrap64 (pos m) (negsuc n) = ground arith
wrap64-add-wrap64 (negsuc m) (pos n) = ground arith
wrap64-add-wrap64 (negsuc m) (negsuc n) = ground arith

-- Between numbers that are not negative a difference does not wrap.
pub sub64_nonneg : (a b : ℤ) → pos 0 ≤ℤ a → pos 0 ≤ℤ b → IsInt64 a → IsInt64 b → sub64 a b ≡ a -ℤ b
unfolding ◌-ℤ◌
sub64_nonneg (pos m) (pos n) pa pb ia ib = wrap64_id (pos m -ℤ pos n) (ground arith)
sub64_nonneg _ (negsuc n) pa pb ia ib = absurd (omega arith)
sub64_nonneg (negsuc m) _ pa pb ia ib = absurd (omega arith)

-- A sum that stays within a bound does not wrap.
pub add64_bounded :
    (a b c : ℤ) → pos 0 ≤ℤ a → pos 0 ≤ℤ b → a +ℤ b ≤ℤ c → IsInt64 c → add64 a b ≡ a +ℤ b
unfolding ◌+ℤ◌
add64_bounded (pos m) (pos n) (pos k) pa pb h ic = wrap64_id (pos m +ℤ pos n) (ground arith)
add64_bounded (pos m) (pos n) (negsuc k) pa pb h ic = absurd (ground arith)
add64_bounded _ (negsuc n) c pa pb h ic = absurd (omega arith)
add64_bounded (negsuc m) _ c pa pb h ic = absurd (omega arith)

-- What lies between 0 and an int64 is an int64.
pub IsInt64-le : (a b : ℤ) → pos 0 ≤ℤ a → a ≤ℤ b → IsInt64 b → IsInt64 a
IsInt64-le (pos m) (pos n) p h i = omega arith
IsInt64-le (pos m) (negsuc n) p h i = omega arith
IsInt64-le (negsuc m) b p h i = absurd (omega arith)

-- A negation does not wrap, and neither does taking 0 off it.
pub sub64-sub64_zero :
    (a : ℤ) → pos 0 ≤ℤ a → IsInt64 a → sub64 (sub64 (pos 0) a) (pos 0) ≡ pos 0 -ℤ a
unfolding wrap64 ◌-ℤ◌
sub64-sub64_zero (pos n) p i = ground arith
sub64-sub64_zero (negsuc n) p i = absurd (omega arith)
