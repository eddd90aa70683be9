-- ===== src/Base/Bits.antt =====
-- The bits of byte strings, and facts on bytes that are decided by looking at all of them.
use Prim.Native.Nat.{ℕ, zero, suc, ◌+◌, ◌-◌, ◌*◌, ◌/◌, ◌%◌, ◌^◌, ◌<◌}
use mathlib.Core.Path.{◌≡◌, refl, ap}
use mathlib.Core.Logic.{inl, inr}
use mathlib.Core.Bool.{Bool, true, false, not, ◌&&◌}
use mathlib.Core.List.{List, [], ◌∷◌, ◌++◌}
use native.Mathlib.Omega.{arith}
use zephyr_chain.Base.Tests.{==_iff, ltb→lt, and_parts, ltb, ◌==◌, if◌then◌else◌, Bool-cases}
use zephyr_chain.Base.Lists.{Bytes, take, replicate}

-- `(b >> n) & 1`, as a test.
abbrev pub test_bit : ℕ → ℕ → Bool
test_bit b n = b / 2 ^ n % 2 == 1

-- The bits of a byte, the highest first.
abbrev pub byte_bits : ℕ → List Bool
byte_bits b =
    test_bit b 7
    ∷ test_bit b 6
    ∷ test_bit b 5
    ∷ test_bit b 4
    ∷ test_bit b 3
    ∷ test_bit b 2
    ∷ test_bit b 1
    ∷ test_bit b 0
    ∷ []

unfoldable pub bits : Bytes → List Bool
bits [] = []
bits (b ∷ bs) = byte_bits b ++ bits bs

abbrev pub flip_at : ℕ → List Bool → List Bool
flip_at n [] = []
flip_at zero (b ∷ bs) = not b ∷ bs
flip_at (suc n) (b ∷ bs) = b ∷ flip_at n bs

abbrev pub nth_bit : List Bool → ℕ → Bool
nth_bit [] n = false
nth_bit (b ∷ bs) zero = b
nth_bit (b ∷ bs) (suc n) = nth_bit bs n

abbrev pub same_bits : List Bool → List Bool → Bool
same_bits [] [] = true
same_bits [] (y ∷ ys) = false
same_bits (x ∷ xs) [] = false
same_bits (x ∷ xs) (y ∷ ys) = (if x then y else not y) && same_bits xs ys

pub same_bits-eq : (xs ys : List Bool) → same_bits xs ys ≡ true → xs ≡ ys
same_bits-eq [] [] h = refl
same_bits-eq [] (y ∷ ys) h = cc
same_bits-eq (x ∷ xs) [] h = cc
same_bits-eq (true ∷ xs) (true ∷ ys) h = ap (◌∷◌ true) (same_bits-eq xs ys h)
same_bits-eq (false ∷ xs) (false ∷ ys) h = ap (◌∷◌ false) (same_bits-eq xs ys h)
same_bits-eq (true ∷ xs) (false ∷ ys) h = cc
same_bits-eq (false ∷ xs) (true ∷ ys) h = cc

-- A test on all numbers below a bound.
abbrev pub all_below : ℕ → (ℕ → Bool) → Bool
all_below zero P = true
all_below (suc n) P = P n && all_below n P

pub all_below-at : (n : ℕ) (P : ℕ → Bool) (k : ℕ) → all_below n P ≡ true → k < n → P k ≡ true
all_below-at zero P k h lt = absurd (omega arith)
all_below-at (suc n) P k h lt = elim (Bool-cases (k == n)) [
  | inl here ↦ rw ((==_iff k n).0 here) (ground arith)
  | inr below ↦ all_below-at n P k (ground arith) (ground arith)
]

-- `b & (0xFF << (8 - n))`, and the whole byte from eight bits on.
abbrev pub mask_byte : ℕ → ℕ → ℕ
mask_byte n b = b / 2 ^ (8 - n) * 2 ^ (8 - n)

-- `b ^ (1 << (7 - n))`
abbrev pub flip_byte : ℕ → ℕ → ℕ
flip_byte n b = if test_bit b (7 - n) then b - 2 ^ (7 - n) else b + 2 ^ (7 - n)

-- The number of the bits, the highest first.
abbrev pub byte_of : ℕ → List Bool → ℕ
byte_of n [] = n
byte_of n (b ∷ bs) = byte_of (2 * n + (if b then 1 else 0)) bs

mask_test : ℕ → ℕ → Bool
mask_test n b =
    same_bits (byte_bits (mask_byte n b)) (take n (byte_bits b) ++ replicate (8 - n) false)
    && ltb (mask_byte n b) 256

flip_test : ℕ → ℕ → Bool
flip_test n b =
    same_bits (byte_bits (flip_byte n b)) (flip_at n (byte_bits b)) && ltb (flip_byte n b) 256

value_test : ℕ → Bool
value_test b = byte_of 0 (byte_bits b) == b

masks_hold : all_below 8 (λ n. all_below 256 (mask_test n)) ≡ true
unfolding mask_test
masks_hold = refl

flips_hold : all_below 8 (λ n. all_below 256 (flip_test n)) ≡ true
unfolding flip_test
flips_hold = refl

values_hold : all_below 256 value_test ≡ true
unfolding value_test
values_hold = refl

-- The first `n` bits of a byte string, with the others cleared.
unfoldable pub mask_bytes : ℕ → Bytes → Bytes
mask_bytes n [] = []
mask_bytes n (b ∷ bs) = (if ltb n 8 then mask_byte n b else b) ∷ mask_bytes (n - 8) bs

-- One bit turned over.
unfoldable pub flip_bytes : ℕ → Bytes → Bytes
flip_bytes n [] = []
flip_bytes n (b ∷ bs) =
    let rest = flip_bytes (n - 8) bs in if ltb n 8 then flip_byte n b ∷ bs else b ∷ rest

-- One bit, as a test.
unfoldable pub bit_of : ℕ → Bytes → Bool
bit_of n [] = false
bit_of n (b ∷ bs) = let rest = bit_of (n - 8) bs in if ltb n 8 then test_bit b (7 - n) else rest

pub mask_byte-bits :
    (n b : ℕ)
    → n < 8
    → b < 256
    → (byte_bits (mask_byte n b) ≡ take n (byte_bits b) ++ replicate (8 - n) false)
      × (mask_byte n b < 256)
unfolding mask_test
mask_byte-bits n b h k =
    let held =
      all_below-at 256 (mask_test n) b
        (all_below-at 8 (λ n. all_below 256 (mask_test n)) n masks_hold h) k in
    let parts = and_parts _ _ held in (same_bits-eq _ _ parts.0, ltb→lt _ _ parts.1)

pub flip_byte-bits :
    (n b : ℕ)
    → n < 8
    → b < 256
    → (byte_bits (flip_byte n b) ≡ flip_at n (byte_bits b)) × (flip_byte n b < 256)
unfolding flip_test
flip_byte-bits n b h k =
    let held =
      all_below-at 256 (flip_test n) b
        (all_below-at 8 (λ n. all_below 256 (flip_test n)) n flips_hold h) k in
    let parts = and_parts _ _ held in (same_bits-eq _ _ parts.0, ltb→lt _ _ parts.1)

pub byte_of-bits : (b : ℕ) → b < 256 → byte_of 0 (byte_bits b) ≡ b
unfolding value_test
byte_of-bits b h = (==_iff _ _).0 (all_below-at 256 value_test b values_hold h)

pub nth_bit-byte : (n b : ℕ) → n < 8 → nth_bit (byte_bits b) n ≡ test_bit b (7 - n)
nth_bit-byte zero b h = refl
nth_bit-byte (suc zero) b h = refl
nth_bit-byte (suc (suc zero)) b h = refl
nth_bit-byte (suc (suc (suc zero))) b h = refl
nth_bit-byte (suc (suc (suc (suc zero)))) b h = refl
nth_bit-byte (suc (suc (suc (suc (suc zero))))) b h = refl
nth_bit-byte (suc (suc (suc (suc (suc (suc zero)))))) b h = refl
nth_bit-byte (suc (suc (suc (suc (suc (suc (suc zero))))))) b h = refl
nth_bit-byte (suc (suc (suc (suc (suc (suc (suc (suc n)))))))) b h = absurd (omega arith)
