-- ===== src/Base/BitStrings.antt =====
-- The bits of whole byte strings under masks and flips, and the strings that bits stand for.
use Prim.Native.Nat.{ℕ, zero, suc, ◌-◌, ◌*◌, ◌≤◌, ◌<◌}
use mathlib.Core.Path.{◌≡◌, refl, sym, ap, ap₂, ◌∙◌}
use mathlib.Core.Logic.{inl, inr}
use mathlib.Core.Bool.{Bool, true, false, ◌&&◌}
use mathlib.Core.List.{List, [], ◌∷◌, ◌++◌}
use native.Mathlib.Omega.{arith}
use zephyr_chain.Base.Tests.{ltb, Bool-cases}
use zephyr_chain.Base.Lists.{
  Bytes, IsBytes, length, take, drop, replicate, length-take, take-append_le, take-append,
}
use zephyr_chain.Base.Bits.{
  byte_bits, bits, flip_at, nth_bit, same_bits, same_bits-eq, mask_byte, byte_of, mask_bytes,
  flip_bytes, bit_of, mask_byte-bits, flip_byte-bits, byte_of-bits, nth_bit-byte,
}

below-not : (n : ℕ) → ltb n 8 ≡ false → 8 ≤ n
below-not n h = ground arith

below-lt : (n : ℕ) → ltb n 8 ≡ true → n < 8
below-lt n h = ground arith

-- Eight bits and more of a string that starts with eight bits.
take-byte :
    (n : ℕ) (b : ℕ) (xs : List Bool)
    → 8 ≤ n
    → take n (byte_bits b ++ xs) ≡ byte_bits b ++ take (n - 8) xs
take-byte n b xs h =
    let shape : n ≡ suc (suc (suc (suc (suc (suc (suc (suc (n - 8)))))))) = omega arith in
    ap (λ (k : ℕ). take k (byte_bits b ++ xs)) shape

pub length-bits : (bs : Bytes) → length (bits bs) ≡ 8 * length bs
unfolding bits
length-bits [] = refl
length-bits (b ∷ bs) = omega (arith, length-bits bs)

-- A mask keeps the first bits.
pub take-mask :
    (n : ℕ) (bs : Bytes) → IsBytes bs → take n (bits (mask_bytes n bs)) ≡ take n (bits bs)
unfolding bits mask_bytes
take-mask n [] h = refl
take-mask n (b ∷ bs) h = elim (Bool-cases (ltb n 8)) [
  | inl low ↦
      let small = below-lt n low in
      let masked = (mask_byte-bits n b small h.0).0 in
      rw low (
        take-append_le n (byte_bits (mask_byte n b)) (bits (mask_bytes (n - 8) bs)) (omega arith)
        ∙ ap (take n) masked
        ∙ ap (λ (k : ℕ). take k (take n (byte_bits b) ++ replicate (8 - n) false))
            (sym (short n b small))
        ∙ take-append (take n (byte_bits b)) (replicate (8 - n) false)
        ∙ sym (take-append_le n (byte_bits b) (bits bs) (omega arith)))
  | inr high ↦
      let large = below-not n high in
      rw high (
        take-byte n b (bits (mask_bytes (n - 8) bs)) large
        ∙ ap (◌++◌ (byte_bits b)) (take-mask (n - 8) bs h.1)
        ∙ sym (take-byte n b (bits bs) large))
]
  where
    short : (n b : ℕ) → n < 8 → length (take n (byte_bits b)) ≡ n
    short n b k = omega (arith, length-take n (byte_bits b))

byte-injective : (x y : ℕ) → x < 256 → y < 256 → byte_bits x ≡ byte_bits y → x ≡ y
byte-injective x y h k e = sym (byte_of-bits x h) ∙ ap (byte_of 0) e ∙ byte_of-bits y k

mask-zero :
    (xs ys : Bytes)
    → IsBytes xs
    → IsBytes ys
    → length xs ≡ length ys
    → mask_bytes 0 xs ≡ mask_bytes 0 ys
unfolding mask_bytes
mask-zero [] [] h k e = refl
mask-zero [] (y ∷ ys) h k e = absurd (omega arith)
mask-zero (x ∷ xs) [] h k e = absurd (omega arith)
mask-zero (x ∷ xs) (y ∷ ys) h k e =
    ap₂ ◌∷◌ (mask_none x y h.0 k.0) (mask-zero xs ys h.1 k.1 (omega arith))
  where
    mask_none : (x y : ℕ) → x < 256 → y < 256 → mask_byte 0 x ≡ mask_byte 0 y
    mask_none x y h k = omega arith

-- Strings with the same first bits have the same mask.
pub mask-agree :
    (n : ℕ) (xs ys : Bytes)
    → IsBytes xs
    → IsBytes ys
    → length xs ≡ length ys
    → take n (bits xs) ≡ take n (bits ys)
    → mask_bytes n xs ≡ mask_bytes n ys
unfolding bits mask_bytes
mask-agree n [] [] h k len e = refl
mask-agree n [] (y ∷ ys) h k len e = absurd (omega arith)
mask-agree n (x ∷ xs) [] h k len e = absurd (omega arith)
mask-agree n (x ∷ xs) (y ∷ ys) h k len e = elim (Bool-cases (ltb n 8)) [
  | inl low ↦
      let small = below-lt n low in
      let first : take n (byte_bits x) ≡ take n (byte_bits y) =
        sym (take-append_le n (byte_bits x) (bits xs) (omega arith))
        ∙ e
        ∙ take-append_le n (byte_bits y) (bits ys) (omega arith) in
      let mx = mask_byte-bits n x small h.0 in
      let my = mask_byte-bits n y small k.0 in
      let same =
        byte-injective (mask_byte n x) (mask_byte n y) mx.1 my.1
          (mx.0 ∙ ap (λ (t : List Bool). t ++ replicate (8 - n) false) first ∙ sym my.0) in
      let rest : n - 8 ≡ 0 = omega arith in
      rw (low, rest) (ap₂ ◌∷◌ same (mask-zero xs ys h.1 k.1 (omega arith)))
  | inr high ↦
      let large = below-not n high in
      let parts = sym (take-byte n x (bits xs) large) ∙ e ∙ take-byte n y (bits ys) large in
      rw high (
        ap₂ ◌∷◌ (byte-injective x y h.0 k.0 (ap (take 8) parts))
          (mask-agree (n - 8) xs ys h.1 k.1 (omega arith) (ap (drop 8) parts)))
]

flip-front :
    (n : ℕ) (b : ℕ) (xs : List Bool)
    → n < 8
    → flip_at n (byte_bits b ++ xs) ≡ flip_at n (byte_bits b) ++ xs
flip-front n b xs h = front n (byte_bits b) xs h
  where
    front : (n : ℕ) (ys xs : List Bool) → n < length ys → flip_at n (ys ++ xs) ≡ flip_at n ys ++ xs
    front n [] xs h = absurd (omega arith)
    front zero (y ∷ ys) xs h = refl
    front (suc n) (y ∷ ys) xs h = ap (◌∷◌ y) (front n ys xs (omega arith))

flip-behind :
    (n : ℕ) (b : ℕ) (xs : List Bool)
    → 8 ≤ n
    → flip_at n (byte_bits b ++ xs) ≡ byte_bits b ++ flip_at (n - 8) xs
flip-behind n b xs h =
    let shape : n ≡ suc (suc (suc (suc (suc (suc (suc (suc (n - 8)))))))) = omega arith in
    ap (λ (k : ℕ). flip_at k (byte_bits b ++ xs)) shape

pub bits-flip : (n : ℕ) (bs : Bytes) → IsBytes bs → bits (flip_bytes n bs) ≡ flip_at n (bits bs)
unfolding bits flip_bytes
bits-flip n [] h = refl
bits-flip n (b ∷ bs) h = elim (Bool-cases (ltb n 8)) [
  | inl low ↦
      let small = below-lt n low in
      rw low (
        ap (λ (t : List Bool). t ++ bits bs) (flip_byte-bits n b small h.0).0
        ∙ sym (flip-front n b (bits bs) small))
  | inr high ↦
      let large = below-not n high in
      rw high
        (ap (◌++◌ (byte_bits b)) (bits-flip (n - 8) bs h.1) ∙ sym (flip-behind n b (bits bs) large))
]

nth-front : (n : ℕ) (ys xs : List Bool) → n < length ys → nth_bit (ys ++ xs) n ≡ nth_bit ys n
nth-front n [] xs h = absurd (omega arith)
nth-front zero (y ∷ ys) xs h = refl
nth-front (suc n) (y ∷ ys) xs h = nth-front n ys xs (omega arith)

nth-behind :
    (n : ℕ) (b : ℕ) (xs : List Bool) → 8 ≤ n → nth_bit (byte_bits b ++ xs) n ≡ nth_bit xs (n - 8)
nth-behind n b xs h =
    let shape : n ≡ suc (suc (suc (suc (suc (suc (suc (suc (n - 8)))))))) = omega arith in
    ap (nth_bit (byte_bits b ++ xs)) shape

pub nth_bit-bits : (n : ℕ) (bs : Bytes) → nth_bit (bits bs) n ≡ bit_of n bs
unfolding bits bit_of
nth_bit-bits n [] = refl
nth_bit-bits n (b ∷ bs) = elim (Bool-cases (ltb n 8)) [
  | inl low ↦
      let small = below-lt n low in
      rw low (nth-front n (byte_bits b) (bits bs) small ∙ nth_bit-byte n b small)
  | inr high ↦
      let large = below-not n high in
      rw high (nth-behind n b (bits bs) large ∙ nth_bit-bits (n - 8) bs)
]

pub length-mask_bytes : (n : ℕ) (bs : Bytes) → length (mask_bytes n bs) ≡ length bs
unfolding mask_bytes
length-mask_bytes n [] = refl
length-mask_bytes n (b ∷ bs) = ap suc (length-mask_bytes (n - 8) bs)

pub mask_bytes-IsBytes : (n : ℕ) (bs : Bytes) → IsBytes bs → IsBytes (mask_bytes n bs)
unfolding mask_bytes
mask_bytes-IsBytes n [] h = tt
mask_bytes-IsBytes n (b ∷ bs) h = elim (Bool-cases (ltb n 8)) [
  | inl low ↦
      rw low ((mask_byte-bits n b (below-lt n low) h.0).1, mask_bytes-IsBytes (n - 8) bs h.1)
  | inr high ↦ rw high (h.0, mask_bytes-IsBytes (n - 8) bs h.1)
]

pub length-flip_bytes : (n : ℕ) (bs : Bytes) → length (flip_bytes n bs) ≡ length bs
unfolding flip_bytes
length-flip_bytes n [] = refl
length-flip_bytes n (b ∷ bs) = elim (Bool-cases (ltb n 8)) [
  | inl low ↦ rw low refl
  | inr high ↦ rw high (ap suc (length-flip_bytes (n - 8) bs))
]

pub flip_bytes-IsBytes : (n : ℕ) (bs : Bytes) → IsBytes bs → IsBytes (flip_bytes n bs)
unfolding flip_bytes
flip_bytes-IsBytes n [] h = tt
flip_bytes-IsBytes n (b ∷ bs) h = elim (Bool-cases (ltb n 8)) [
  | inl low ↦ rw low ((flip_byte-bits n b (below-lt n low) h.0).1, h.1)
  | inr high ↦ rw high (h.0, flip_bytes-IsBytes (n - 8) bs h.1)
]

-- The string of a list of bits, eight for each byte.
unfoldable pub string_of : List Bool → Bytes
string_of (a ∷ b ∷ c ∷ d ∷ e ∷ f ∷ g ∷ h ∷ rest) =
    byte_of 0 (a ∷ b ∷ c ∷ d ∷ e ∷ f ∷ g ∷ h ∷ []) ∷ string_of rest
string_of _ = []

pub string_of-bits : (bs : Bytes) → IsBytes bs → string_of (bits bs) ≡ bs
unfolding string_of bits
string_of-bits [] h = refl
string_of-bits (b ∷ bs) h = ap₂ ◌∷◌ (byte_of-bits b h.0) (string_of-bits bs h.1)

-- A test on all lists of a length.
all_lists : ℕ → (List Bool → Bool) → Bool
all_lists zero P = P []
all_lists (suc n) P = all_lists n (λ l. P (true ∷ l)) && all_lists n (λ l. P (false ∷ l))

all_lists-at : (l : List Bool) (P : List Bool → Bool) → all_lists (length l) P ≡ true → P l ≡ true
unfolding all_lists
all_lists-at [] P h = h
all_lists-at (true ∷ l) P h = all_lists-at l (λ l. P (true ∷ l)) (ground arith)
all_lists-at (false ∷ l) P h = all_lists-at l (λ l. P (false ∷ l)) (ground arith)

octet_test : List Bool → Bool
octet_test l = same_bits (byte_bits (byte_of 0 l)) l

octets_hold : all_lists 8 octet_test ≡ true
unfolding all_lists octet_test
octets_hold = refl

octet-bits : (l : List Bool) → length l ≡ 8 → byte_bits (byte_of 0 l) ≡ l
unfolding octet_test
octet-bits l e = same_bits-eq _ _ (all_lists-at l octet_test (rw e octets_hold))

-- Bits in groups of eight are the bits of their string.
pub bits-string_of : (n : ℕ) (l : List Bool) → length l ≡ 8 * n → bits (string_of l) ≡ l
unfolding bits string_of
bits-string_of zero [] k = refl
bits-string_of zero (x ∷ l) k = absurd (omega arith)
bits-string_of (suc n) (a ∷ b ∷ c ∷ d ∷ e ∷ f ∷ g ∷ h ∷ rest) k =
    ap₂ ◌++◌ (octet-bits (a ∷ b ∷ c ∷ d ∷ e ∷ f ∷ g ∷ h ∷ []) refl)
      (bits-string_of n rest (omega arith))
bits-string_of (suc n) [] k = absurd (omega arith)
bits-string_of (suc n) (a ∷ []) k = absurd (omega arith)
bits-string_of (suc n) (a ∷ b ∷ []) k = absurd (omega arith)
bits-string_of (suc n) (a ∷ b ∷ c ∷ []) k = absurd (omega arith)
bits-string_of (suc n) (a ∷ b ∷ c ∷ d ∷ []) k = absurd (omega arith)
bits-string_of (suc n) (a ∷ b ∷ c ∷ d ∷ e ∷ []) k = absurd (omega arith)
bits-string_of (suc n) (a ∷ b ∷ c ∷ d ∷ e ∷ f ∷ []) k = absurd (omega arith)
bits-string_of (suc n) (a ∷ b ∷ c ∷ d ∷ e ∷ f ∷ g ∷ []) k = absurd (omega arith)
