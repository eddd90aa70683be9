-- ===== src/State/Honest.antt =====
-- `Verify` against the root of a tree that `Apply` built.
use zephyr_chain.Base.{
  ℕ, zero, suc, ◌≤◌, ◌≡◌, ◌∙◌, ap, Bool, true, Option, none, some, List, [], arith, inl, inr, ◌⊎◌,
  Bool-cases, Bytes, length, All, lookup, Keyed_Bytes,
}
use zephyr_chain.Codec.Hash.{HashCollision, domain_hash}
use zephyr_chain.Types.{Hash, IsHash, zero_hash}
use zephyr_chain.State.{
  Tree, Nodes, Values, Proof, prefix_at_depth, toggle_bit, leaf_hash, branch_hash, prove, verify,
  root,
}
use zephyr_chain.State.Paths.{prefix-IsHash, toggle-IsHash}
use zephyr_chain.State.Spec.{or_empty, leaf_for, leaves, under, tree_hash}
use zephyr_chain.State.Rehash.{Agrees}
use zephyr_chain.State.Order.{Updates, built, built-Sound, Sound}
use zephyr_chain.State.Membership.{plain, stored_from, prove_from-siblings, verify-prove-Sound}
use zephyr_chain.State.Binding.{Sized, empty_hash-Sized, verify-binding}

module _ (sha256 : Bytes → Bytes) (sized : (x : Bytes) → length (sha256 x) ≡ 32) where
  leaf_for-Sized :
      (key : Hash) (value : Option Bytes) → Sized (or_empty sha256 (leaf_for sha256 key value))
  unfolding leaf_for leaf_hash domain_hash
  leaf_for-Sized key none = empty_hash-Sized sha256 sized 0
  leaf_for-Sized key (some value) = sized _

  tree_hash-Sized :
      (n : ℕ) (values : Values) (prefix : List Bool)
      → Sized (tree_hash sha256 n (under (leaves sha256 values) prefix))
  unfolding tree_hash branch_hash domain_hash leaves
  tree_hash-Sized zero values prefix = leaf_for-Sized _ (lookup values _)
  tree_hash-Sized (suc n) values prefix = sized _

  stored_from-Sized :
      (values : Values) (nodes : Nodes) (key : Hash) (d : ℕ)
      → IsHash key
      → Agrees sha256 (leaves sha256 values) nodes
      → d ≤ 256
      → All Sized (stored_from sha256 nodes key d)
  stored_from-Sized values nodes key zero h agrees le = tt
  stored_from-Sized values nodes key (suc d) h agrees le =
      let rest = stored_from-Sized values nodes key d h agrees (omega arith) in
      let prefix = prefix_at_depth key (suc d) in
      let mine =
        agrees (suc d) (toggle_bit prefix d) le
          (toggle-IsHash d prefix (prefix-IsHash (suc d) key h)) in
      elim (Bool-cases (plain sha256 nodes key d)) [
        | inl p ↦ rw p rest
        | inr s ↦ rw s (ap length mine ∙ tree_hash-Sized _ values _, rest)
      ]

  pub prove-Sized-Sound :
      (t : Tree) (key : Hash)
      → Sound sha256 t
      → IsHash key
      → All Sized (prove sha256 t key).siblings
  unfolding prove Sound
  prove-Sized-Sound t key sound h =
      rw (prove_from-siblings sha256 t.nodes key 256 (zero_hash, []))
        (stored_from-Sized t.values t.nodes key 256 h sound (omega arith))

  pub prove-Sized :
      (updates : Updates) (key : Hash)
      → All (λ entry. IsHash entry.0) updates
      → IsHash key
      → All Sized (prove sha256 (built sha256 updates) key).siblings
  prove-Sized updates key hs h =
      prove-Sized-Sound (built sha256 updates) key (built-Sound sha256 updates hs) h

  pub verify-root-Sound :
      (t : Tree) (key : Hash) (value : Option Bytes) (p : Proof)
      → Sound sha256 t
      → IsHash key
      → All Sized p.siblings
      → verify sha256 (root sha256 t) key value p ≡ true
      → (value ≡ lookup t.values key) ⊎ HashCollision sha256
  verify-root-Sound t key value p sound h hp e =
      verify-binding sha256 sized (root sha256 t) key value (lookup t.values key) p
        (prove sha256 t key) hp (prove-Sized-Sound t key sound h) e
        (verify-prove-Sound sha256 t key sound h)

  -- In a tree that any updates of keys of 32 bytes made out of the empty tree, a proof with siblings of 32
  -- bytes that `Verify` accepts for a key against the root of the tree is accepted with the value that the
  -- tree has for the key, or with no value where it has none, or it comes with two byte strings of one
  -- SHA-256 hash; the results of SHA-256 are of 32 bytes.
  pub verify-root :
      (updates : Updates) (key : Hash) (value : Option Bytes) (p : Proof)
      → All (λ entry. IsHash entry.0) updates
      → IsHash key
      → All Sized p.siblings
      → verify sha256 (root sha256 (built sha256 updates)) key value p ≡ true
      → (value ≡ lookup (built sha256 updates).values key) ⊎ HashCollision sha256
  verify-root updates key value p hs h hp e =
      verify-root-Sound (built sha256 updates) key value p (built-Sound sha256 updates hs) h hp e
