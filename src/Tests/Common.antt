-- ===== src/Tests/Common.antt =====
-- A stand-in for SHA-256 with results of 32 bytes: the last bytes of its input, filled up with zeros.
use zephyr_chain.Base.{
  ℕ, ◌-◌, ◌≡◌, ◌++◌, [], ◌∷◌, Bool, true, ◌&&◌, ltb, IsBytes, arith, Bytes, length, take, drop,
  replicate, length-append, length-take, length-replicate,
}

abbrev pub toy_sha256 : Bytes → Bytes
toy_sha256 x = take 32 (drop (length x - 32) x ++ replicate 32 0)

pub toy_sized : (x : Bytes) → length (toy_sha256 x) ≡ 32
toy_sized x = omega (
  arith,
  length-take 32 (drop (length x - 32) x ++ replicate 32 0),
  length-append (drop (length x - 32) x) (replicate 32 0),
  length-replicate {A = ℕ} 32 0,
)

-- An identifier or a hash of 32 equal bytes.
abbrev pub filled : ℕ → Bytes
filled b = replicate 32 b

abbrev pub all_bytes : Bytes → Bool
all_bytes [] = true
all_bytes (b ∷ bs) = ltb b 256 && all_bytes bs

pub IsBytes-of : (w : Bytes) → all_bytes w ≡ true → IsBytes w
IsBytes-of [] h = tt
IsBytes-of (b ∷ bs) h = (ground arith, IsBytes-of bs (ground arith))
