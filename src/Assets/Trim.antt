-- ===== src/Assets/Trim.antt =====
-- `strings.TrimSpace` on the bytes of a string: white space is what `unicode.IsSpace` accepts, which
-- UTF-8 writes in one, two or three bytes. No byte of these sequences but the first begins a rune,
-- so a match on bytes is a match on runes, at either end.
pub mod Clean
use mathlib.Core.List.{reverse, reverse-reverse}
use zephyr_chain.Base.{
  ℕ, zero, suc, ◌+◌, ◌≤◌, ◌≡◌, refl, sym, ◌∙◌, ap, Bool, true, false, ◌&&◌, ◌||◌, ◌⊎◌, inl, inr, [],
  ◌∷◌, ◌++◌, arith, ltb, leb, ◌==◌, if◌then◌else◌, Bool-cases, Bytes, length, take, drop,
  take-append-drop,
}

-- '\t', '\n', '\v', '\f', '\r', ' '
unfoldable pub is_space1 : ℕ → Bool
is_space1 a = (leb 9 a && leb a 13) || a == 32

-- U+0085, U+00A0
unfoldable pub is_space2 : ℕ → ℕ → Bool
is_space2 a b = a == 0xc2 && (b == 0x85 || b == 0xa0)

-- U+1680, U+2000 to U+200A, U+2028, U+2029, U+202F, U+205F, U+3000
unfoldable pub is_space3 : ℕ → ℕ → ℕ → Bool
is_space3 a b c =
    (a == 0xe1 && b == 0x9a && c == 0x80)
    || (a == 0xe2
        && b == 0x80
        && ((leb 0x80 c && leb c 0x8a) || c == 0xa8 || c == 0xa9 || c == 0xaf))
    || (a == 0xe2 && b == 0x81 && c == 0x9f)
    || (a == 0xe3 && b == 0x80 && c == 0x80)

-- The length of the white space rune at the front, 0 if there is none. `flip` says that the bytes
-- stand in reverse.
abbrev rune3 : Bool → ℕ → ℕ → ℕ → Bool
rune3 false a b c = is_space3 a b c
rune3 true a b c = is_space3 c b a

abbrev rune2 : Bool → ℕ → ℕ → Bool
rune2 false a b = is_space2 a b
rune2 true a b = is_space2 b a

unfoldable pub space_length : Bool → Bytes → ℕ
unfolding is_space1 is_space2 is_space3
space_length flip [] = 0
space_length flip (a ∷ []) = if is_space1 a then 1 else 0
space_length flip (a ∷ b ∷ []) = if is_space1 a then 1 else if rune2 flip a b then 2 else 0
space_length flip (a ∷ b ∷ c ∷ s) =
    if is_space1 a then 1 else if rune2 flip a b then 2 else if rune3 flip a b c then 3 else 0

-- Drops white space runes from the front. Each round drops a byte, so the length is enough fuel.
trim_front : Bool → ℕ → Bytes → Bytes
trim_front flip zero s = s
trim_front flip (suc fuel) s =
    let n = space_length flip s in
    let rest = trim_front flip fuel (drop n s) in if n == 0 then s else rest

unfoldable pub trim_left : Bytes → Bytes
unfolding trim_front space_length
trim_left s = trim_front false (length s) s

unfoldable pub trim_right : Bytes → Bytes
unfolding trim_front space_length
trim_right s = reverse (trim_front true (length s) (reverse s))

unfoldable pub trim_space : Bytes → Bytes
unfolding trim_left trim_right
trim_space s = trim_right (trim_left s)
