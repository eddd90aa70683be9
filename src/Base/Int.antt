-- ===== src/Base/Int.antt =====
-- Integers over the native numbers, as far as the program uses `math/big` and `int32`.
use Prim.Native.Nat.{ℕ, zero, suc, ◌+◌, ◌-◌, ◌*◌, ◌/◌, ◌^◌}
use mathlib.Core.Bool.{Bool, true, false}
use zephyr_chain.Base.Tests.{ltb, leb, if◌then◌else◌}

-- `negsuc n` is -(n + 1).
pub data ℤ : Type 0 where
  pos : ℕ → ℤ
  negsuc : ℕ → ℤ

abbrev pub neg : ℕ → ℤ
neg zero = pos 0
neg (suc n) = negsuc n

-- `x ≤ y` for a bound that is written as an integer.
abbrev pub lebℤ : ℤ → ℤ → Bool
lebℤ (pos a) (pos b) = leb a b
lebℤ (pos a) (negsuc b) = false
lebℤ (negsuc a) (pos b) = true
lebℤ (negsuc a) (negsuc b) = leb b a

-- `Mul` of a natural number and an integer.
abbrev pub scale : ℕ → ℤ → ℤ
scale n (pos r) = pos (n * r)
scale n (negsuc r) = neg (n * suc r)

-- `Quo` by a positive number: truncation toward zero.
abbrev pub quo : ℤ → ℕ → ℤ
quo (pos a) n = pos (a / n)
quo (negsuc a) n = neg (suc a / n)

-- `Add` of a natural number and an integer.
abbrev pub plus : ℕ → ℤ → ℤ
plus n (pos a) = pos (n + a)
plus n (negsuc a) = if ltb n (suc a) then neg (suc a - n) else pos (n - suc a)

-- `uint32(v)` of an `int32`, and `int32(v)` of a `uint32`: two's complement.
abbrev pub uint32_of : ℤ → ℕ
uint32_of (pos a) = a
uint32_of (negsuc a) = 2 ^ 32 - suc a

abbrev pub int32_of : ℕ → ℤ
int32_of v = if ltb v (2 ^ 31) then pos v else neg (2 ^ 32 - v)
