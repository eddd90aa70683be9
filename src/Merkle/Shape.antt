-- ===== src/Merkle/Shape.antt =====
-- The loops of the Merkle tree over a width that is a power of two, by its exponent.
use native.Mathlib.Nat.{pow-suc}
use zephyr_chain.Base.{
  ℕ, zero, suc, ◌+◌, ◌-◌, ◌*◌, ◌/◌, ◌^◌, ◌≤◌, ◌<◌, ◌≡◌, refl, ◌∙◌, ap, List, [], ◌∷◌, ◌++◌, arith,
  ltb, leb, Bytes, length, length-append, length-replicate, replicate, true, inl, inr, Bool-cases,
}
use zephyr_chain.Types.{Hash}
use zephyr_chain.Merkle.{
  double_until, next_power_of_two, halvings, get_or_empty, reduce, padded, collapse, collect,
  empty_leaf, branch, sibling_position,
}

pub pow_two : (k : ℕ) → 2 ^ suc k ≡ 2 * 2 ^ k
pow_two k = omega (arith, pow-suc 2 k)

pub pow-pos : (k : ℕ) → 0 < 2 ^ k
pow-pos zero = omega arith
pow-pos (suc k) = omega (arith, pow-pos k, pow_two k)

pub lt-pow : (k : ℕ) → k < 2 ^ k
lt-pow zero = omega arith
lt-pow (suc k) = omega (arith, lt-pow k, pow_two k)

double_until-pow :
    (fuel p n j : ℕ)
    → p ≡ 2 ^ j
    → n ≤ p + fuel
    → (k : ℕ) × (double_until fuel p n ≡ 2 ^ k) × (n ≤ 2 ^ k)
unfolding double_until
double_until-pow zero p n j e h = (j, e, omega arith)
double_until-pow (suc fuel) p n j e h = elim (Bool-cases (ltb p n)) [
  | inl more ↦ rw more (
      double_until-pow fuel (2 * p) n (suc j) (omega (arith, pow_two j)) (omega (arith, pow-pos j)))
  | inr enough ↦ rw enough (j, e, ground arith)
]

-- The width is the power of two with this exponent, and holds all leaves.
pub next_power_of_two-pow : (n : ℕ) → (k : ℕ) × (next_power_of_two n ≡ 2 ^ k) × (n ≤ 2 ^ k)
unfolding next_power_of_two
next_power_of_two-pow n = elim (Bool-cases (leb n 1)) [
  | inl small ↦ rw small (0, refl, ground arith)
  | inr large ↦ rw large (double_until-pow n 1 n 0 refl (omega arith))
]

half-pow : (k : ℕ) → 2 ^ suc k / 2 ≡ 2 ^ k
half-pow k = omega (arith, pow_two k)

wide : (k : ℕ) → ltb 1 (2 ^ suc k) ≡ true
wide k = ground (arith, pow_two k, pow-pos k)

pub halvings-pow : (fuel k depth : ℕ) → k ≤ fuel → halvings fuel (2 ^ k) depth ≡ depth + k
unfolding halvings
halvings-pow zero zero depth h = omega arith
halvings-pow zero (suc k) depth h = absurd (omega arith)
halvings-pow (suc fuel) zero depth h = omega arith
halvings-pow (suc fuel) (suc k) depth h =
    rw (wide k, half-pow k) (halvings-pow fuel k (depth + 1) (omega arith) ∙ omega arith)

module _ (sha256 : Bytes → Bytes) where
  -- The root of a level of `2 ^ k` hashes, and the siblings on the way up from a position.
  unfoldable pub tree : ℕ → List Hash → Hash
  tree zero level = get_or_empty level 0
  tree (suc k) level = tree k (reduce sha256 level)

  unfoldable pub path : ℕ → ℕ → List Hash → List Hash
  path zero position level = []
  path (suc k) position level =
      get_or_empty level (sibling_position position) ∷ path k (position / 2) (reduce sha256 level)

  pub collapse-pow :
      (fuel k : ℕ) (level : List Hash)
      → k ≤ fuel
      → collapse sha256 fuel (2 ^ k) level ≡ tree k level
  unfolding collapse tree
  collapse-pow zero zero level h = refl
  collapse-pow zero (suc k) level h = absurd (omega arith)
  collapse-pow (suc fuel) zero level h = refl
  collapse-pow (suc fuel) (suc k) level h =
      rw (wide k, half-pow k) (collapse-pow fuel k (reduce sha256 level) (omega arith))

  pub collect-pow :
      (fuel k position : ℕ) (level : List Hash)
      → k ≤ fuel
      → collect sha256 fuel (2 ^ k) position level ≡ path k position level
  unfolding collect path
  collect-pow zero zero position level h = refl
  collect-pow zero (suc k) position level h = absurd (omega arith)
  collect-pow (suc fuel) zero position level h = refl
  collect-pow (suc fuel) (suc k) position level h =
      rw (wide k, half-pow k)
        (ap (◌∷◌ (get_or_empty level (sibling_position position)))
          (collect-pow fuel k (position / 2) (reduce sha256 level) (omega arith)))

  pub length-path : (k position : ℕ) (level : List Hash) → length (path k position level) ≡ k
  unfolding path
  length-path zero position level = refl
  length-path (suc k) position level = ap suc (length-path k (position / 2) (reduce sha256 level))

  pub length-reduce :
      (n : ℕ) (level : List Hash) → length level ≡ 2 * n → length (reduce sha256 level) ≡ n
  unfolding reduce
  length-reduce n [] h = omega arith
  length-reduce n (a ∷ []) h = absurd (omega arith)
  length-reduce zero (a ∷ b ∷ level) h = absurd (omega arith)
  length-reduce (suc n) (a ∷ b ∷ level) h = ap suc (length-reduce n level (omega arith))

  -- The parent of the pair that a position belongs to.
  pub get-reduce :
      (level : List Hash) (n i : ℕ)
      → length level ≡ 2 * n
      → i < n
      → get_or_empty (reduce sha256 level) i
        ≡ branch sha256 (get_or_empty level (2 * i)) (get_or_empty level (2 * i + 1))
  unfolding reduce get_or_empty
  get-reduce [] n i e h = absurd (omega arith)
  get-reduce (a ∷ []) n i e h = absurd (omega arith)
  get-reduce (a ∷ b ∷ level) zero i e h = absurd (omega arith)
  get-reduce (a ∷ b ∷ level) (suc n) zero e h = refl
  get-reduce (a ∷ b ∷ level) (suc n) (suc i) e h =
      let left : 2 * suc i ≡ suc (suc (2 * i)) = omega arith in
      let right : 2 * suc i + 1 ≡ suc (suc (2 * i + 1)) = omega arith in
      rw (right, left) (get-reduce level n i (omega arith) (omega arith))

  pub length-padded :
      (leaves : List Hash) (width : ℕ)
      → length leaves ≤ width
      → length (padded sha256 leaves width) ≡ width
  unfolding padded
  length-padded leaves width h = omega (
    arith,
    length-append leaves (replicate (width - length leaves) (empty_leaf sha256)),
    length-replicate (width - length leaves) (empty_leaf sha256),
  )

pub get-append :
    (xs ys : List Hash) (i : ℕ) → i < length xs → get_or_empty (xs ++ ys) i ≡ get_or_empty xs i
unfolding get_or_empty
get-append [] ys i h = absurd (omega arith)
get-append (x ∷ xs) ys zero h = refl
get-append (x ∷ xs) ys (suc i) h = get-append xs ys i (omega arith)
