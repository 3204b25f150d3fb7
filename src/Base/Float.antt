-- ===== src/Base/Float.antt =====
-- Go's float64, by bit patterns: the operations that the code applies, which the machine gives, and
-- what IEEE 754 says of them.
use Prim.Native.Nat.{ℕ, ◌*◌, ◌^◌, ◌≤◌, ◌<◌}
use mathlib.Core.Path.{◌≡◌}
use mathlib.Core.Bool.{Bool, true}
use hamr.Base.Int.{ℤ, pos, ◌≤ℤ◌}

-- `of_int` is the conversion from int64, `to_int` the one to it, `round` is `math.Round`.
pub record Float64 : Type 0 where
  pub of_int : ℤ → ℕ
  pub to_int : ℕ → ℤ
  pub round : ℕ → ℕ
  pub mul : ℕ → ℕ → ℕ
  pub div : ℕ → ℕ → ℕ
  pub lt : ℕ → ℕ → Bool
  pub le : ℕ → ℕ → Bool

-- Natural numbers up to here have a float64 of their own.
abbrev pub exact_max : ℕ
exact_max = 2 ^ 53

-- A product and a quotient that are exact numbers are not rounded; products and quotients of numbers
-- that are not negative are monotone; `math.Round` gives the nearest integer, so that it does not leave
-- a range that ends in integers. A comparison with NaN is false.
pub record IsFloat64 (f : Float64) : Type 0 where
  pub mul_exact :
      (a b : ℕ)
      → a * b ≤ exact_max
      → f.mul (f.of_int (pos a)) (f.of_int (pos b)) ≡ f.of_int (pos (a * b))
  pub div_exact :
      (a b : ℕ)
      → 0 < b
      → a * b ≤ exact_max
      → f.div (f.of_int (pos (a * b))) (f.of_int (pos b)) ≡ f.of_int (pos a)
  pub mul_le :
      (a b p : ℕ)
      → a * b ≤ exact_max
      → f.lt (f.of_int (pos 0)) p ≡ true
      → f.le p (f.of_int (pos b)) ≡ true
      → (f.le (f.of_int (pos 0)) (f.mul (f.of_int (pos a)) p) ≡ true)
        × (f.le (f.mul (f.of_int (pos a)) p) (f.mul (f.of_int (pos a)) (f.of_int (pos b))) ≡ true)
  pub div_le :
      (a b x : ℕ)
      → a ≤ exact_max
      → (0 < b) × (b ≤ exact_max)
      → f.le (f.of_int (pos 0)) x ≡ true
      → f.le x (f.of_int (pos a)) ≡ true
      → (f.le (f.of_int (pos 0)) (f.div x (f.of_int (pos b))) ≡ true)
        × (f.le (f.div x (f.of_int (pos b))) (f.div (f.of_int (pos a)) (f.of_int (pos b))) ≡ true)
  pub round_range :
      (a x : ℕ)
      → a ≤ exact_max
      → f.le (f.of_int (pos 0)) x ≡ true
      → f.le x (f.of_int (pos a)) ≡ true
      → (pos 0 ≤ℤ f.to_int (f.round x)) × (f.to_int (f.round x) ≤ℤ pos a)
