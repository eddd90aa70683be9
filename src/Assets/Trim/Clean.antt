-- ===== src/Assets/Trim/Clean.antt =====
-- Lemmas on `strings.TrimSpace`: strings without white space at their ends.
use mathlib.Core.List.{reverse, reverse_aux, reverse-reverse, reverse-append}
use zephyr_chain.Base.{
  ℕ, zero, suc, ◌+◌, ◌≤◌, ◌≡◌, refl, sym, ◌∙◌, ap, Bool, true, false, inl, inr, [], ◌∷◌, ◌++◌,
  arith, ◌==◌, Bool-cases, Bytes, IsBytes, All-append_left, All-append_right, length, length-append,
  take, drop, take-append-drop, append_assoc,
}
use zephyr_chain.Assets.Trim.{space_length, trim_front, trim_left, trim_right, trim_space}

length-drop_pos :
    (n : ℕ) (x : ℕ) (s : Bytes) → (n == 0) ≡ false → length (drop n (x ∷ s)) ≤ length s
length-drop_pos zero x s h = absurd (cc h)
length-drop_pos (suc n) x s h = length-drop_le n s
  where
    length-drop_le : (n : ℕ) (s : Bytes) → length (drop n s) ≤ length s
    length-drop_le zero s = omega arith
    length-drop_le (suc n) [] = omega arith
    length-drop_le (suc n) (x ∷ s) = omega (arith, length-drop_le n s)

space_length-nil : (flip : Bool) → space_length flip [] ≡ 0
unfolding space_length
space_length-nil flip = refl

-- With enough fuel no white space is left at the front.
trim_front_clean :
    (flip : Bool) (fuel : ℕ) (s : Bytes)
    → length s ≤ fuel
    → space_length flip (trim_front flip fuel s) ≡ 0
unfolding trim_front
trim_front_clean flip zero [] h = space_length-nil flip
trim_front_clean flip zero (x ∷ s) h = absurd (omega arith)
trim_front_clean flip (suc fuel) [] h = ground (arith, space_length-nil flip)
trim_front_clean flip (suc fuel) (x ∷ s) h = elim (Bool-cases (space_length flip (x ∷ s) == 0)) [
  | inl clean ↦ rw clean (ground arith)
  | inr space ↦ rw space (
      trim_front_clean flip fuel (drop (space_length flip (x ∷ s)) (x ∷ s))
        (omega (arith, length-drop_pos (space_length flip (x ∷ s)) x s space)))
]

trim_front_fixed :
    (flip : Bool) (fuel : ℕ) (s : Bytes) → space_length flip s ≡ 0 → trim_front flip fuel s ≡ s
unfolding trim_front
trim_front_fixed flip zero s h = refl
trim_front_fixed flip (suc fuel) s h = ground arith

trim_front_suffix :
    (flip : Bool) (fuel : ℕ) (s : Bytes) → (pre : Bytes) × (pre ++ trim_front flip fuel s ≡ s)
unfolding trim_front
trim_front_suffix flip zero s = ([], refl)
trim_front_suffix flip (suc fuel) s = elim (Bool-cases (space_length flip s == 0)) [
  | inl clean ↦ ([], rw clean)
  | inr space ↦
      let n = space_length flip s in
      let (pre, e) = trim_front_suffix flip fuel (drop n s) in
      (take n s ++ pre, rw (space, append_assoc, e) (take-append-drop n s))
]

space_length-prefix : (p q : Bytes) → space_length false (p ++ q) ≡ 0 → space_length false p ≡ 0
unfolding space_length
space_length-prefix [] q h = refl
space_length-prefix (a ∷ []) [] h = h
space_length-prefix (a ∷ []) (b ∷ []) h = ground arith
space_length-prefix (a ∷ []) (b ∷ c ∷ q) h = ground arith
space_length-prefix (a ∷ b ∷ []) [] h = h
space_length-prefix (a ∷ b ∷ []) (c ∷ q) h = ground arith
space_length-prefix (a ∷ b ∷ c ∷ p) q h = h

-- What is trimmed has white space at neither end.
pub record IsTrimmed (s : Bytes) : Type 0 where
  pub front : space_length false s ≡ 0
  pub back : space_length true (reverse s) ≡ 0

trim_left_clean : (s : Bytes) → space_length false (trim_left s) ≡ 0
unfolding trim_left
trim_left_clean s = trim_front_clean false (length s) s (omega arith)

length-reverse_aux : (s t : Bytes) → length (reverse_aux s t) ≡ length s + length t
length-reverse_aux [] t = omega arith
length-reverse_aux (x ∷ s) t = omega (arith, length-reverse_aux s (x ∷ t))

length-reverse : (s : Bytes) → length (reverse s) ≡ length s
length-reverse s = omega (arith, length-reverse_aux s [])

trim_right-prefix : (s : Bytes) → (q : Bytes) × (trim_right s ++ q ≡ s)
unfolding trim_right
trim_right-prefix s =
    let (pre, e) = trim_front_suffix true (length s) (reverse s) in
    (reverse pre, sym (reverse-append pre _) ∙ ap reverse e ∙ reverse-reverse s)

trim_right_clean : (s : Bytes) → space_length true (reverse (trim_right s)) ≡ 0
unfolding trim_right
trim_right_clean s =
    rw reverse-reverse
      (trim_front_clean true (length s) (reverse s) (omega (arith, length-reverse s)))

pub trim_space-IsTrimmed : (s : Bytes) → IsTrimmed (trim_space s)
unfolding trim_space
trim_space-IsTrimmed s =
    let (q, e) = trim_right-prefix (trim_left s) in
    record {
      front = space_length-prefix (trim_space s) q (rw e (trim_left_clean s));
      back = trim_right_clean (trim_left s);
    }

-- A string with white space at neither end is left as it is.
pub trim_space-eq_self : (s : Bytes) → IsTrimmed s → trim_space s ≡ s
unfolding trim_space trim_left trim_right
trim_space-eq_self s t =
    rw
      (
        trim_front_fixed false (length s) s t.front,
        trim_front_fixed true (length s) (reverse s) t.back,
      )
      (reverse-reverse s)

pub trim_space-trim_space : (s : Bytes) → trim_space (trim_space s) ≡ trim_space s
trim_space-trim_space s = trim_space-eq_self (trim_space s) (trim_space-IsTrimmed s)

length-trim_left : (s : Bytes) → length (trim_left s) ≤ length s
unfolding trim_left
length-trim_left s =
    let (pre, e) = trim_front_suffix false (length s) s in
    omega (arith, ap length e, length-append pre (trim_front false (length s) s))

pub length-trim_space-le : (s : Bytes) → length (trim_space s) ≤ length s
unfolding trim_space
length-trim_space-le s =
    let (q, e) = trim_right-prefix (trim_left s) in
    omega (arith, ap length e, length-append (trim_right (trim_left s)) q, length-trim_left s)

pub trim_space-IsBytes : (s : Bytes) → IsBytes s → IsBytes (trim_space s)
unfolding trim_space trim_left
trim_space-IsBytes s h =
    let (q, e) = trim_right-prefix (trim_left s) in
    let (pre, e') = trim_front_suffix false (length s) s in
    let left : IsBytes (trim_left s) = All-append_right _ pre (trim_left s) (rw e' h) in
    All-append_left _ (trim_space s) q (rw e left)
