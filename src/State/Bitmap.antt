-- ===== src/State/Bitmap.antt =====
-- `setBitmapBit` and `bitmapBit`: the bits of a bitmap after one is set.
use zephyr_chain.Base.{
  ℕ, zero, suc, ◌+◌, ◌-◌, ◌*◌, ◌^◌, ◌<◌, ◌≡◌, ◌≢◌, refl, ◌∙◌, ap, Bool, true, false, not, ◌&&◌,
  ◌||◌, [], ◌∷◌, ltb, ◌==◌, ==_iff, ltb→lt, and_parts, if◌then◌else◌, arith, inl, inr, Bool-cases,
  Bytes, IsBytes, length, replicate,
}
use zephyr_chain.Base.Bits.{test_bit, all_below, all_below-at}
use zephyr_chain.State.{set_bitmap_bit, bitmap_bit}

abbrev set_byte : ℕ → ℕ → ℕ
set_byte n b = if test_bit b n then b else b + 2 ^ n

abbrev same_bool : Bool → Bool → Bool
same_bool a b = if a then b else not b

-- The bits of a byte after one is set, at two positions below 8 and for a byte.
abbrev bit_test : ℕ → ℕ → ℕ → Bool
bit_test i b j = same_bool (test_bit (set_byte i b) j) (i == j || test_bit b j)

byte_test : ℕ → ℕ → Bool
byte_test i b = ltb (set_byte i b) 256 && all_below 8 (bit_test i b)

bytes_tested : all_below 8 (λ i. all_below 256 (byte_test i)) ≡ true
unfolding byte_test
bytes_tested = refl

same_bool-eq : (a b : Bool) → same_bool a b ≡ true → a ≡ b
same_bool-eq a b e = ground arith

set_byte-bits :
    (i j b : ℕ)
    → i < 8
    → j < 8
    → b < 256
    → (set_byte i b < 256) × (test_bit (set_byte i b) j ≡ (i == j || test_bit b j))
unfolding byte_test
set_byte-bits i j b hi hj hb =
    let held = and_parts _ _ (
      all_below-at 256 (byte_test i) b
        (all_below-at 8 (λ i. all_below 256 (byte_test i)) i bytes_tested hi) hb) in
    (ltb→lt _ _ held.0, same_bool-eq _ _ (all_below-at 8 (bit_test i b) j held.1 hj))

pub set_bitmap_bit-IsBytes :
    (i : ℕ) (bm : Bytes)
    → IsBytes bm
    → (length (set_bitmap_bit i bm) ≡ length bm) × IsBytes (set_bitmap_bit i bm)
unfolding set_bitmap_bit
set_bitmap_bit-IsBytes i [] h = (refl, tt)
set_bitmap_bit-IsBytes i (b ∷ bm) h = elim (Bool-cases (ltb i 8)) [
  | inl here ↦ rw here (refl, ((set_byte-bits i 0 b (ltb→lt i 8 here) (omega arith) h.0).0, h.1))
  | inr later ↦
      let rest = set_bitmap_bit-IsBytes (i - 8) bm h.1 in rw later (ap suc rest.0, (h.0, rest.1))
]

pub bitmap_bit-set_self :
    (i : ℕ) (bm : Bytes)
    → IsBytes bm
    → i < 8 * length bm
    → bitmap_bit i (set_bitmap_bit i bm) ≡ true
unfolding set_bitmap_bit bitmap_bit
bitmap_bit-set_self i [] h lt = absurd (omega arith)
bitmap_bit-set_self i (b ∷ bm) h lt = elim (Bool-cases (ltb i 8)) [
  | inl here ↦
      let set = (set_byte-bits i i b (ltb→lt i 8 here) (ltb→lt i 8 here) h.0).1 in
      rw (here, here) (set ∙ ap (λ t. t || test_bit b i) ((==_iff i i).1 refl))
  | inr later ↦ rw (later, later) (bitmap_bit-set_self (i - 8) bm h.1 (ground arith))
]

pub bitmap_bit-set_ne :
    (i j : ℕ) (bm : Bytes)
    → IsBytes bm
    → i ≢ j
    → bitmap_bit j (set_bitmap_bit i bm) ≡ bitmap_bit j bm
unfolding set_bitmap_bit bitmap_bit
bitmap_bit-set_ne i j [] h ne = refl
bitmap_bit-set_ne i j (b ∷ bm) h ne = elim (Bool-cases (ltb i 8)) [
  | inl here ↦ elim (Bool-cases (ltb j 8)) [
    | inl near ↦
        let set = (set_byte-bits i j b (ltb→lt i 8 here) (ltb→lt j 8 near) h.0).1 in
        rw (here, near) (set ∙ ap (λ t. t || test_bit b j) (differ i j ne))
    | inr far ↦ rw (here, far) refl
  ]
  | inr later ↦ elim (Bool-cases (ltb j 8)) [
    | inl near ↦ rw (later, near) refl
    | inr far ↦
        rw (later, far) (bitmap_bit-set_ne (i - 8) (j - 8) bm h.1 (λ e. ne (apart i j later far e)))
  ]
]
  where
    differ : (i j : ℕ) → i ≢ j → (i == j) ≡ false
    differ i j ne = elim (Bool-cases (i == j)) [
      | inl e ↦ absurd (ne ((==_iff i j).0 e))
      | inr e ↦ e
    ]

    apart : (i j : ℕ) → ltb i 8 ≡ false → ltb j 8 ≡ false → i - 8 ≡ j - 8 → i ≡ j
    apart i j a b e = ground arith

pub bitmap_bit-zeros : (i n : ℕ) → bitmap_bit i (replicate n 0) ≡ false
unfolding bitmap_bit
bitmap_bit-zeros i zero = refl
bitmap_bit-zeros i (suc n) = elim (Bool-cases (ltb i 8)) [
  | inl here ↦ rw here (zero_bit i)
  | inr later ↦ rw later (bitmap_bit-zeros (i - 8) n)
]
  where
    zero_bit : (i : ℕ) → test_bit 0 i ≡ false
    zero_bit i = ground arith
