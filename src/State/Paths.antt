-- ===== src/State/Paths.antt =====
-- The nodes of the tree by their paths: the first bits of a key.
use zephyr_chain.Base.{
  ℕ, zero, suc, ◌≤◌, ◌<◌, ◌≡◌, ◌≢◌, refl, sym, ◌∙◌, ap, Bool, not, List, [], ◌∷◌, ◌++◌, arith, inl,
  inr, ◌⊎◌, Bool-cases, Bytes, length, take, length-take, bytes_eq, bytes_eq_iff, lookup, insert,
  erase, lookup-insert_self, lookup-insert_ne, lookup-erase_self, lookup-erase_ne,
}
use zephyr_chain.Base.Bits.{bits, flip_at, nth_bit}
use zephyr_chain.Base.BitStrings.{
  length-bits, take-mask, mask-agree, bits-flip, nth_bit-bits, length-mask_bytes,
  mask_bytes-IsBytes, length-flip_bytes, flip_bytes-IsBytes,
}
use zephyr_chain.Types.{Hash, IsHash}
use zephyr_chain.State.{
  NodeKey, Keyed_NodeKey, Nodes, prefix_at_depth, bit_at, toggle_bit, get_node, default_hash,
  or_default,
}

abbrev pub path : ℕ → Hash → List Bool
path depth key = take depth (bits key)

pub take-nth :
    (d : ℕ) (xs : List Bool) → d < length xs → take (suc d) xs ≡ take d xs ++ nth_bit xs d ∷ []
take-nth d [] h = absurd (omega arith)
take-nth zero (x ∷ xs) h = refl
take-nth (suc d) (x ∷ xs) h = ap (◌∷◌ x) (take-nth d xs (omega arith))

take-flip : (d : ℕ) (xs : List Bool) → take (suc d) (flip_at d xs) ≡ flip_at d (take (suc d) xs)
take-flip d [] = refl
take-flip zero (x ∷ xs) = refl
take-flip (suc d) (x ∷ xs) = ap (◌∷◌ x) (take-flip d xs)

flip-last : (xs : List Bool) (b : Bool) → flip_at (length xs) (xs ++ b ∷ []) ≡ xs ++ not b ∷ []
flip-last [] b = refl
flip-last (x ∷ xs) b = ap (◌∷◌ x) (flip-last xs b)

pub length-path : (d : ℕ) (key : Hash) → IsHash key → d ≤ 256 → length (path d key) ≡ d
length-path d key h le = omega (arith, length-take d (bits key), length-bits key, h.0)

pub path-suc :
    (d : ℕ) (key : Hash) → IsHash key → d < 256 → path (suc d) key ≡ path d key ++ bit_at key d ∷ []
path-suc d key h lt =
    take-nth d (bits key) (omega (arith, length-bits key, h.0))
    ∙ ap (λ (b : Bool). path d key ++ b ∷ []) (nth_bit-bits d key)

pub path-prefix : (d : ℕ) (key : Hash) → IsHash key → path d (prefix_at_depth key d) ≡ path d key
path-prefix d key h = take-mask d key h.1

-- The sibling of a node differs from it in the last bit.
pub path-sibling :
    (d : ℕ) (key : Hash)
    → IsHash key
    → d < 256
    → path (suc d) (toggle_bit (prefix_at_depth key (suc d)) d)
      ≡ path d key ++ not (bit_at key d) ∷ []
path-sibling d key h lt =
    ap (take (suc d))
      (bits-flip d (prefix_at_depth key (suc d)) (mask_bytes-IsBytes (suc d) key h.1))
    ∙ take-flip d (bits (prefix_at_depth key (suc d)))
    ∙ ap (flip_at d) (path-prefix (suc d) key h ∙ path-suc d key h lt)
    ∙ ap (λ (k : ℕ). flip_at k (path d key ++ bit_at key d ∷ []))
        (sym (length-path d key h (omega arith)))
    ∙ flip-last (path d key) (bit_at key d)

pub prefix-IsHash : (d : ℕ) (key : Hash) → IsHash key → IsHash (prefix_at_depth key d)
prefix-IsHash d key h = (length-mask_bytes d key ∙ h.0, mask_bytes-IsBytes d key h.1)

pub toggle-IsHash : (d : ℕ) (key : Hash) → IsHash key → IsHash (toggle_bit key d)
toggle-IsHash d key h = (length-flip_bytes d key ∙ h.0, flip_bytes-IsBytes d key h.1)

pub prefix-agree :
    (d : ℕ) (a b : Hash)
    → IsHash a
    → IsHash b
    → path d a ≡ path d b
    → prefix_at_depth a d ≡ prefix_at_depth b d
prefix-agree d a b h k e = mask-agree d a b h.1 k.1 (h.0 ∙ sym k.0) e

-- Two keys have one node at a depth, or their paths differ.
pub path-cases :
    (d : ℕ) (a b : Hash)
    → IsHash a
    → IsHash b
    → ((path d a ≡ path d b) × (prefix_at_depth a d ≡ prefix_at_depth b d))
      ⊎ ((path d a ≢ path d b) × (prefix_at_depth a d ≢ prefix_at_depth b d))
path-cases d a b h k = elim (Bool-cases (bytes_eq (prefix_at_depth a d) (prefix_at_depth b d))) [
  | inl same ↦
      let one = (bytes_eq_iff _ _).0 same in
      inl (sym (path-prefix d a h) ∙ ap (path d) one ∙ path-prefix d b k, one)
  | inr other ↦ inr (
    λ e. cc (sym other ∙ (bytes_eq_iff _ _).1 (prefix-agree d a b h k e)),
    λ e. cc (sym other ∙ (bytes_eq_iff _ _).1 e),
  )
]

module _ (sha256 : Bytes → Bytes) where
  -- A node is found by its path.
  pub get_node-path :
      (nodes : Nodes) (d : ℕ) (a b : Hash)
      → IsHash a
      → IsHash b
      → path d a ≡ path d b
      → get_node sha256 nodes d a ≡ get_node sha256 nodes d b
  unfolding get_node
  get_node-path nodes d a b h k e =
      ap (λ (p : Bytes). or_default sha256 d (lookup nodes (record { depth = d; prefix = p })))
        (prefix-agree d a b h k e)

  abbrev pub node_of : ℕ → Hash → NodeKey
  node_of d key = record { depth = d; prefix = prefix_at_depth key d }

  pub get_node-insert_self :
      (nodes : Nodes) (d : ℕ) (a b : Hash) (v : Hash)
      → prefix_at_depth a d ≡ prefix_at_depth b d
      → get_node sha256 (insert nodes (node_of d a) v) d b ≡ v
  unfolding get_node
  get_node-insert_self nodes d a b v e =
      ap
        (λ (p : Bytes).
          or_default sha256 d
            (lookup (insert nodes (node_of d a) v) (record { depth = d; prefix = p })))
        (sym e)
      ∙ ap (or_default sha256 d) (lookup-insert_self nodes (node_of d a) v)

  pub get_node-erase_self :
      (nodes : Nodes) (d : ℕ) (a b : Hash)
      → prefix_at_depth a d ≡ prefix_at_depth b d
      → get_node sha256 (erase nodes (node_of d a)) d b ≡ default_hash sha256 d
  unfolding get_node
  get_node-erase_self nodes d a b e =
      ap
        (λ (p : Bytes).
          or_default sha256 d
            (lookup (erase nodes (node_of d a)) (record { depth = d; prefix = p })))
        (sym e)
      ∙ ap (or_default sha256 d) (lookup-erase_self nodes (node_of d a))

  -- Another depth, or another prefix.
  unfoldable pub Apart : ℕ → Hash → ℕ → Hash → Type 0
  Apart d a e b = (d ≢ e) ⊎ (prefix_at_depth a d ≢ prefix_at_depth b e)

  Apart-ne : (d e : ℕ) (a b : Hash) → Apart d a e b → node_of d a ≢ node_of e b
  unfolding Apart
  Apart-ne d e a b (inl h) k = h (ap (λ (n : NodeKey). n.depth) k)
  Apart-ne d e a b (inr h) k = h (ap (λ (n : NodeKey). n.prefix) k)

  pub get_node-insert_ne :
      (nodes : Nodes) (d e : ℕ) (a b : Hash) (v : Hash)
      → Apart d a e b
      → get_node sha256 (insert nodes (node_of d a) v) e b ≡ get_node sha256 nodes e b
  unfolding get_node Apart
  get_node-insert_ne nodes d e a b v h =
      ap (or_default sha256 e)
        (lookup-insert_ne nodes (node_of d a) (node_of e b) v (Apart-ne d e a b h))

  pub get_node-erase_ne :
      (nodes : Nodes) (d e : ℕ) (a b : Hash)
      → Apart d a e b
      → get_node sha256 (erase nodes (node_of d a)) e b ≡ get_node sha256 nodes e b
  unfolding get_node Apart
  get_node-erase_ne nodes d e a b h =
      ap (or_default sha256 e)
        (lookup-erase_ne nodes (node_of d a) (node_of e b) (Apart-ne d e a b h))
