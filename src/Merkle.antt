-- ===== src/Merkle.antt =====
-- Padded binary Merkle trees, internal/v2/merkle/merkle.go. Hashes take SHA-256 as a parameter.
pub mod Shape
pub mod Proofs
pub mod Sound
use zephyr_chain.Base.{
  ℕ, zero, suc, ◌+◌, ◌-◌, ◌*◌, ◌/◌, ◌%◌, ◌^◌, Bool, true, false, ◌&&◌, ◌||◌, not, List, [], ◌∷◌,
  ◌++◌, ltb, leb, ◌==◌, if◌then◌else◌, Bytes, length, replicate, bytes_eq, codes, Result, ok, err,
  merkle_index,
}
use zephyr_chain.Codec.Hash.{domain_hash}
use zephyr_chain.Types.{Hash}

pub record Proof : Type 0 where
  pub index : ℕ
  pub leaf_count : ℕ
  pub siblings : List Hash

-- `for p < n { p <<= 1 }`. The loop doubles, so `n` rounds are enough; the counts are `int`s that
-- come from a slice's length or from a `uint32`, and their double fits.
double_until : ℕ → ℕ → ℕ → ℕ
double_until zero p n = p
double_until (suc fuel) p n = let more = double_until fuel (2 * p) n in if ltb p n then more else p

unfoldable pub next_power_of_two : ℕ → ℕ
unfolding double_until
next_power_of_two n = if leb n 1 then 1 else double_until n 1 n

-- `for n := target; n > 1; n /= 2 { depth++ }`, with the count so far.
pub halvings : ℕ → ℕ → ℕ → ℕ
halvings zero n depth = depth
halvings (suc fuel) n depth =
    let more = halvings fuel (n / 2) (depth + 1) in if ltb 1 n then more else depth

-- `level[position^1]`
unfoldable pub sibling_position : ℕ → ℕ
sibling_position position = if position % 2 == 0 then position + 1 else position - 1

-- `level[i]`, on an index that is in range.
unfoldable pub get_or_empty : List Hash → ℕ → Hash
get_or_empty [] i = []
get_or_empty (h ∷ level) zero = h
get_or_empty (h ∷ level) (suc i) = get_or_empty level i

module _ (sha256 : Bytes → Bytes) where
  unfoldable pub leaf : Bytes → Bytes → Hash
  leaf domain payload = domain_hash sha256 (codes "zephyr/merkle/leaf/v2/" ++ domain) payload

  unfoldable pub branch : Hash → Hash → Hash
  branch left right = domain_hash sha256 (codes "zephyr/merkle/branch/v2") (left ++ right)

  unfoldable pub empty_leaf : Hash
  empty_leaf = domain_hash sha256 (codes "zephyr/merkle/empty/v2") []

  -- `for i := 0; i < width; i += 2 { level[i/2] = branch(level[i], level[i+1]) }`: the entries below
  -- the new width. An entry is written when both entries that it is made of have been read.
  unfoldable pub reduce : List Hash → List Hash
  reduce [] = []
  reduce (a ∷ []) = []
  reduce (a ∷ b ∷ level) = branch a b ∷ reduce level

  -- The private buffer: the leaves, padded to the width.
  unfoldable pub padded : List Hash → ℕ → List Hash
  padded leaves width = leaves ++ replicate (width - length leaves) empty_leaf

  -- `for width > 1 { … }; return level[0]`
  unfoldable pub collapse : ℕ → ℕ → List Hash → Hash
  unfolding reduce get_or_empty
  collapse zero width level = get_or_empty level 0
  collapse (suc fuel) width level =
      let rest = collapse fuel (width / 2) (reduce level) in
      if ltb 1 width then rest else get_or_empty level 0

  -- The width is halved until it is 1, so as many rounds as the width are enough.
  unfoldable pub root : List Hash → Hash
  unfolding padded collapse
  root leaves =
      if length leaves == 0
      then empty_leaf
      else (let width = next_power_of_two (length leaves) in
          collapse width width (padded leaves width))

  -- The siblings on the way up, in the order in which the loop appends them.
  unfoldable pub collect : ℕ → ℕ → ℕ → List Hash → List Hash
  unfolding reduce get_or_empty sibling_position
  collect zero width position level = []
  collect (suc fuel) width position level =
      let rest = collect fuel (width / 2) (position / 2) (reduce level) in
      if ltb 1 width then get_or_empty level (sibling_position position) ∷ rest else []

  -- `uint32(index)` and `uint32(len(leaves))` keep the low 32 bits.
  unfoldable pub build_proof : List Hash → ℕ → Result Proof
  unfolding padded collect
  build_proof leaves index =
      if leb (length leaves) index
      then err merkle_index
      else (let width = next_power_of_two (length leaves) in
          ok (record {
            index = index % 2 ^ 32;
            leaf_count = length leaves % 2 ^ 32;
            siblings = collect width width index (padded leaves width);
          }))

  -- The loop of `Verify` over the siblings.
  unfoldable pub climb : List Hash → Hash → ℕ → Hash
  climb [] current position = current
  climb (sibling ∷ siblings) current position =
      climb siblings (if position % 2 == 0 then branch current sibling else branch sibling current)
        (position / 2)

  unfoldable pub verify : Hash → Hash → Proof → Bool
  unfolding climb
  verify root_hash leaf_hash proof =
      if proof.leaf_count == 0 || leb proof.leaf_count proof.index
      then false
      else (let target = next_power_of_two proof.leaf_count in
          if not (length proof.siblings == halvings target target 0)
          then false
          else bytes_eq (climb proof.siblings leaf_hash proof.index) root_hash)
