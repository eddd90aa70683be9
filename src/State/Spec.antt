-- ===== src/State/Spec.antt =====
-- What a sparse Merkle tree commits to, without its maps of nodes: the hash of a complete binary tree
-- whose leaves are a function of the path.
use zephyr_chain.Base.{
  ℕ, zero, suc, ◌-◌, ◌≤◌, ◌≡◌, ◌≢◌, refl, sym, ◌∙◌, ap, ap₂, Bool, true, false, not, Option, none,
  some, List, [], ◌∷◌, ◌++◌, append-nil, append_assoc, arith, Bytes, length, Keyed_Bytes,
  length-append, take, take-append, lookup,
}
use zephyr_chain.Base.Bits.{bits}
use zephyr_chain.Base.BitStrings.{string_of, length-bits, string_of-bits, bits-string_of}
use zephyr_chain.Types.{Hash, IsHash}
use zephyr_chain.State.{Values, empty_hash, branch_hash, join, leaf_hash}
use zephyr_chain.State.Paths.{path, length-path}

abbrev pub Leaves : Type 0
Leaves = List Bool → Option Hash

-- The leaves below a node.
abbrev pub under : Leaves → List Bool → Leaves
under f prefix p = f (prefix ++ p)

-- The whole path of a key is its bits.
path-all : (key : Hash) → IsHash key → path 256 key ≡ bits key
path-all key h =
    let whole : length (bits key) ≡ 256 = omega (arith, length-bits key, h.0) in
    ap (λ (n : ℕ). take n (bits key)) (sym whole)
    ∙ ap (take (length (bits key))) (sym (append-nil (bits key)))
    ∙ take-append (bits key) []

-- A leaf below another node of the path belongs to another key.
pub string_of-ne :
    (e : ℕ) (key other : Hash) (p : List Bool)
    → IsHash key
    → IsHash other
    → e ≤ 256
    → length p ≡ 256 - e
    → path e other ≢ path e key
    → key ≢ string_of (path e other ++ p)
string_of-ne e key other p h k le len ne same = ne (
    sym (
      ap (λ (s : Bytes). take e (bits s)) same
      ∙ ap (take e) (
          bits-string_of 32 (path e other ++ p)
            (omega (arith, length-append (path e other) p, length-path e other k le, len, le)))
      ∙ ap (λ (n : ℕ). take n (path e other ++ p)) (sym (length-path e other k le))
      ∙ take-append (path e other) p))

module _ (sha256 : Bytes → Bytes) where
  abbrev pub or_empty : Option Hash → Hash
  or_empty none = empty_hash sha256 0
  or_empty (some h) = h

  unfoldable pub tree_hash : ℕ → Leaves → Hash
  tree_hash zero f = or_empty (f [])
  tree_hash (suc height) f =
      branch_hash sha256 (tree_hash height (λ p. f (false ∷ p)))
        (tree_hash height (λ p. f (true ∷ p)))

  -- The leaves that a map of values has.
  unfoldable pub leaf_for : Hash → Option Bytes → Option Hash
  leaf_for key none = none
  leaf_for key (some value) = some (leaf_hash sha256 key value)

  unfoldable pub leaves : Values → Leaves
  unfolding leaf_for
  leaves values p = leaf_for (string_of p) (lookup values (string_of p))

  pub tree_hash_cong :
      (n : ℕ) (f g : Leaves)
      → ((p : List Bool) → length p ≡ n → f p ≡ g p)
      → tree_hash n f ≡ tree_hash n g
  unfolding tree_hash
  tree_hash_cong zero f g h = ap or_empty (h [] refl)
  tree_hash_cong (suc n) f g h =
      ap₂ (branch_hash sha256)
        (tree_hash_cong n (λ p. f (false ∷ p)) (λ p. g (false ∷ p))
          (λ p e. h (false ∷ p) (ap suc e)))
        (tree_hash_cong n (λ p. f (true ∷ p)) (λ p. g (true ∷ p)) (λ p e. h (true ∷ p) (ap suc e)))

  pub tree_hash-none :
      (n : ℕ) (f : Leaves)
      → ((p : List Bool) → length p ≡ n → f p ≡ none)
      → tree_hash n f ≡ empty_hash sha256 n
  unfolding tree_hash empty_hash
  tree_hash-none zero f h = ap or_empty (h [] refl)
  tree_hash-none (suc n) f h =
      ap₂ (branch_hash sha256)
        (tree_hash-none n (λ p. f (false ∷ p)) (λ p e. h (false ∷ p) (ap suc e)))
        (tree_hash-none n (λ p. f (true ∷ p)) (λ p e. h (true ∷ p) (ap suc e)))

  under-last :
      (n : ℕ) (f : Leaves) (prefix : List Bool) (b : Bool)
      → tree_hash n (λ p. f (prefix ++ b ∷ p)) ≡ tree_hash n (under f (prefix ++ b ∷ []))
  under-last n f prefix b =
      tree_hash_cong n (λ p. f (prefix ++ b ∷ p)) (under f (prefix ++ b ∷ []))
        (λ p e. ap f (sym (append_assoc prefix (b ∷ []) p)))

  -- A node above the leaves is the branch of its child on the side of a bit and of the other child.
  pub tree_hash-join :
      (n : ℕ) (f : Leaves) (prefix : List Bool) (b : Bool)
      → tree_hash (suc n) (under f prefix)
        ≡ join sha256 b
            (tree_hash n (under f (prefix ++ b ∷ [])))
            (tree_hash n (under f (prefix ++ not b ∷ [])))
  unfolding tree_hash join
  tree_hash-join n f prefix false =
      ap₂ (branch_hash sha256) (under-last n f prefix false) (under-last n f prefix true)
  tree_hash-join n f prefix true =
      ap₂ (branch_hash sha256) (under-last n f prefix false) (under-last n f prefix true)

  -- The leaf at the whole path of a key.
  pub leaves-key :
      (values : Values) (key : Hash)
      → IsHash key
      → leaves values (path 256 key ++ []) ≡ leaf_for key (lookup values key)
  unfolding leaves
  leaves-key values key h =
      ap (λ (s : Bytes). leaf_for s (lookup values s))
        (ap string_of (append-nil (path 256 key) ∙ path-all key h) ∙ string_of-bits key h.1)
