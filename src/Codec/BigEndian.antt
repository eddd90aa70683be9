-- ===== src/Codec/BigEndian.antt =====
-- The big-endian words of `encoding/binary`, which the codec calls: `PutUint16`, `PutUint32`,
-- `PutUint64` write `byte(v >> k)` for each byte, and `Uint16`, `Uint32`, `Uint64` add them up.
use zephyr_chain.Base.{ℕ, ◌+◌, ◌*◌, ◌/◌, ◌%◌, ◌^◌, ◌<◌, ◌≡◌, [], ◌∷◌, arith, Bytes, IsBytes, length}

abbrev pub IsU8 : ℕ → Type 0
IsU8 v = v < 2 ^ 8

abbrev pub IsU16 : ℕ → Type 0
IsU16 v = v < 2 ^ 16

abbrev pub IsU32 : ℕ → Type 0
IsU32 v = v < 2 ^ 32

abbrev pub IsU64 : ℕ → Type 0
IsU64 v = v < 2 ^ 64

abbrev pub max_u64 : ℕ
max_u64 = 0xffff_ffff_ffff_ffff

unfoldable pub put_u16 : ℕ → Bytes
put_u16 v = (v / 2 ^ 8 % 256) ∷ (v % 256) ∷ []

unfoldable pub put_u32 : ℕ → Bytes
put_u32 v = (v / 2 ^ 24 % 256) ∷ (v / 2 ^ 16 % 256) ∷ (v / 2 ^ 8 % 256) ∷ (v % 256) ∷ []

unfoldable pub put_u64 : ℕ → Bytes
put_u64 v =
    (v / 2 ^ 56 % 256)
    ∷ (v / 2 ^ 48 % 256)
    ∷ (v / 2 ^ 40 % 256)
    ∷ (v / 2 ^ 32 % 256)
    ∷ (v / 2 ^ 24 % 256)
    ∷ (v / 2 ^ 16 % 256)
    ∷ (v / 2 ^ 8 % 256)
    ∷ (v % 256)
    ∷ []

-- The value of the bytes, most significant first. Each caller has as many bytes as the word.
unfoldable pub word_from : ℕ → Bytes → ℕ
word_from acc [] = acc
word_from acc (b ∷ bs) = word_from (acc * 256 + b) bs

pub word-put_u16 : (v : ℕ) → IsU16 v → word_from 0 (put_u16 v) ≡ v
unfolding word_from put_u16
word-put_u16 v h = omega arith

pub word-put_u32 : (v : ℕ) → IsU32 v → word_from 0 (put_u32 v) ≡ v
unfolding word_from put_u32
word-put_u32 v h = omega arith

pub word-put_u64 : (v : ℕ) → IsU64 v → word_from 0 (put_u64 v) ≡ v
unfolding word_from put_u64
word-put_u64 v h = omega arith

-- Every string of two, four or eight bytes is the encoding of its value, which is in range.
pub put_u16-word :
    (bs : Bytes)
    → length bs ≡ 2
    → IsBytes bs
    → (put_u16 (word_from 0 bs) ≡ bs) × IsU16 (word_from 0 bs)
unfolding word_from put_u16
put_u16-word (a ∷ b ∷ []) e h = ground arith
put_u16-word [] e h = absurd (omega arith)
put_u16-word (a ∷ []) e h = absurd (omega arith)
put_u16-word (a ∷ b ∷ c ∷ bs) e h = absurd (omega arith)

pub put_u32-word :
    (bs : Bytes)
    → length bs ≡ 4
    → IsBytes bs
    → (put_u32 (word_from 0 bs) ≡ bs) × IsU32 (word_from 0 bs)
unfolding word_from put_u32
put_u32-word (a ∷ b ∷ c ∷ d ∷ []) e h = ground arith
put_u32-word [] e h = absurd (omega arith)
put_u32-word (a ∷ []) e h = absurd (omega arith)
put_u32-word (a ∷ b ∷ []) e h = absurd (omega arith)
put_u32-word (a ∷ b ∷ c ∷ []) e h = absurd (omega arith)
put_u32-word (a ∷ b ∷ c ∷ d ∷ x ∷ bs) e h = absurd (omega arith)

pub put_u64-word :
    (bs : Bytes)
    → length bs ≡ 8
    → IsBytes bs
    → (put_u64 (word_from 0 bs) ≡ bs) × IsU64 (word_from 0 bs)
unfolding word_from put_u64
put_u64-word (a ∷ b ∷ c ∷ d ∷ x ∷ y ∷ z ∷ w ∷ []) e h = ground arith
put_u64-word [] e h = absurd (omega arith)
put_u64-word (a ∷ []) e h = absurd (omega arith)
put_u64-word (a ∷ b ∷ []) e h = absurd (omega arith)
put_u64-word (a ∷ b ∷ c ∷ []) e h = absurd (omega arith)
put_u64-word (a ∷ b ∷ c ∷ d ∷ []) e h = absurd (omega arith)
put_u64-word (a ∷ b ∷ c ∷ d ∷ x ∷ []) e h = absurd (omega arith)
put_u64-word (a ∷ b ∷ c ∷ d ∷ x ∷ y ∷ []) e h = absurd (omega arith)
put_u64-word (a ∷ b ∷ c ∷ d ∷ x ∷ y ∷ z ∷ []) e h = absurd (omega arith)
put_u64-word (a ∷ b ∷ c ∷ d ∷ x ∷ y ∷ z ∷ w ∷ v ∷ bs) e h = absurd (omega arith)

pub length-put_u16 : (v : ℕ) → length (put_u16 v) ≡ 2
unfolding put_u16
length-put_u16 v = omega arith

pub length-put_u32 : (v : ℕ) → length (put_u32 v) ≡ 4
unfolding put_u32
length-put_u32 v = omega arith

pub length-put_u64 : (v : ℕ) → length (put_u64 v) ≡ 8
unfolding put_u64
length-put_u64 v = omega arith
