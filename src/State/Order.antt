-- ===== src/State/Order.antt =====
-- `Apply` ranges over a Go map, whose order is not fixed: what the values and the root are in every order.
use zephyr_chain.Base.{
  key-cases, lookup-here, lookup-away, Bytes, ◌≡◌, refl, sym, ◌∙◌, ap, ap₂, Option, none, some,
  List, [], ◌∷◌, inl, inr, All, lookup, Keyed_Bytes,
}
use zephyr_chain.Types.{Hash, IsHash}
use zephyr_chain.State.{Values, Tree, update, apply, root, new_tree}
use zephyr_chain.State.Spec.{leaves, leaf_for, tree_hash_cong}
use zephyr_chain.State.Rehash.{Agrees}
use zephyr_chain.State.Refines.{
  set_value, lookup-set_value_self, lookup-set_value_ne, apply-Agrees, new_tree-Agrees, root-Agrees,
  commitment,
}

abbrev pub Updates : Type 0
Updates = List (Hash × Option Bytes)

-- A listing of a Go map: no key twice.
abbrev pub Listing : Updates → Type 0
Listing [] = Unit
Listing (entry ∷ updates) = (lookup updates entry.0 ≡ none) × Listing updates

-- The value of a key after updates: the update's, or the one before.
abbrev pub override : Option (Option Bytes) → Option Bytes → Option Bytes
override none old = old
override (some value) old = value

module _ (sha256 : Bytes → Bytes) where
  -- A tree whose nodes are what its values determine.
  unfoldable pub Sound : Tree → Type 0
  Sound t = Agrees sha256 (leaves sha256 t.values) t.nodes

  values-update :
      (key : Hash) (value : Option Bytes) (t : Tree)
      → (update sha256 key value t).values ≡ set_value key value t.values
  unfolding update
  values-update key none t = refl
  values-update key (some value) t = refl

  pub lookup-apply :
      (updates : Updates) (t : Tree) (key : Hash)
      → Listing updates
      → lookup (apply sha256 updates t).values key
        ≡ override (lookup updates key) (lookup t.values key)
  unfolding apply
  lookup-apply [] t key h = refl
  lookup-apply (entry ∷ updates) t key h = elim (key-cases entry.0 key) [
    | inl same ↦
        lookup-apply updates (update sha256 entry.0 entry.1 t) key h.1
        ∙ ap₂ override (ap (lookup updates) (sym same) ∙ h.0) (
            ap (λ vs. lookup vs key) (values-update entry.0 entry.1 t)
            ∙ ap (lookup (set_value entry.0 entry.1 t.values)) (sym same)
            ∙ lookup-set_value_self t.values entry.0 entry.1)
        ∙ ap (λ o. override o (lookup t.values key)) (sym (lookup-here entry updates key same))
    | inr other ↦
        lookup-apply updates (update sha256 entry.0 entry.1 t) key h.1
        ∙ ap₂ override (sym (lookup-away entry updates key other)) (
            ap (λ vs. lookup vs key) (values-update entry.0 entry.1 t)
            ∙ lookup-set_value_ne t.values entry.0 key entry.1 other)
  ]

  pub apply-Sound :
      (updates : Updates) (t : Tree)
      → All (λ entry. IsHash entry.0) updates
      → Sound t
      → Sound (apply sha256 updates t)
  unfolding Sound
  apply-Sound updates t h sound = apply-Agrees sha256 updates t h sound

  pub new_tree-Sound : Sound new_tree
  unfolding Sound
  new_tree-Sound = new_tree-Agrees sha256

  commitment_cong :
      (vs ws : Values)
      → ((key : Hash) → lookup vs key ≡ lookup ws key)
      → commitment sha256 vs ≡ commitment sha256 ws
  unfolding leaves
  commitment_cong vs ws h =
      tree_hash_cong sha256 256 (leaves sha256 vs) (leaves sha256 ws)
        (λ p e. ap (leaf_for sha256 _) (h _))

  -- A tree that updates made out of the empty tree.
  abbrev pub built : Updates → Tree
  built updates = apply sha256 updates new_tree

  pub built-Sound :
      (updates : Updates) → All (λ entry. IsHash entry.0) updates → Sound (built updates)
  built-Sound updates h = apply-Sound updates new_tree h new_tree-Sound

  -- The root of a tree that any updates of keys of 32 bytes made out of the empty tree is the hash of the
  -- complete binary tree of height 256 whose leaf at the bits of a key is the leaf hash of the key's value
  -- in the tree, or the empty leaf where it has none, whatever nodes the tree has stored and deleted.
  pub root-apply :
      (updates : Updates)
      → All (λ entry. IsHash entry.0) updates
      → root sha256 (built updates) ≡ commitment sha256 (built updates).values
  unfolding Sound
  root-apply updates h = root-Agrees sha256 (built updates) (built-Sound updates h)

  -- Two histories of updates, each walked after the last in any order, end with one root if they leave
  -- every key with the same value.
  pub root-apply_content :
      (before before' updates updates' : Updates)
      → All (λ entry. IsHash entry.0) before
      → All (λ entry. IsHash entry.0) before'
      → All (λ entry. IsHash entry.0) updates
      → All (λ entry. IsHash entry.0) updates'
      → Listing updates
      → Listing updates'
      → ((key : Hash)
          → override (lookup updates key) (lookup (built before).values key)
            ≡ override (lookup updates' key) (lookup (built before').values key))
      → root sha256 (apply sha256 updates (built before))
        ≡ root sha256 (apply sha256 updates' (built before'))
  unfolding Sound
  root-apply_content before before' updates updates' hb hb' hu hu' l l' same =
      root-Agrees sha256 (apply sha256 updates (built before))
        (apply-Agrees sha256 updates (built before) hu (built-Sound before hb))
      ∙ commitment_cong (apply sha256 updates (built before)).values
          (apply sha256 updates' (built before')).values
          (λ key.
            lookup-apply updates (built before) key l
            ∙ same key
            ∙ sym (lookup-apply updates' (built before') key l'))
      ∙ sym (
          root-Agrees sha256 (apply sha256 updates' (built before'))
            (apply-Agrees sha256 updates' (built before') hu' (built-Sound before' hb')))
