-- ===== src/State/Rehash.antt =====
-- The loop of `updateLocked`: with the leaves in place, recomputing the nodes on the path of a key from
-- the leaf up restores what every node is.
use zephyr_chain.Base.{
  Bytes, ℕ, zero, suc, ◌-◌, ◌≤◌, ◌<◌, ◌≡◌, ◌≢◌, sym, ◌∙◌, ap, ap₂, arith, inl, inr, ◌⊎◌, Bool-cases,
  bytes_eq, bytes_eq_iff, ◌==◌, ==_iff,
}
use zephyr_chain.Types.{Hash, IsHash}
use zephyr_chain.State.{
  Nodes, prefix_at_depth, bit_at, toggle_bit, get_node, default_hash, join, set_parent, rehash,
}
use zephyr_chain.State.Paths.{
  path, path-suc, path-prefix, path-sibling, path-cases, prefix-IsHash, toggle-IsHash, Apart,
  get_node-insert_self, get_node-erase_self, get_node-insert_ne, get_node-erase_ne,
}
use zephyr_chain.State.Spec.{Leaves, under, tree_hash, tree_hash-join}

module _ (sha256 : Bytes → Bytes) where
  -- What the node on the path of a key stands for.
  abbrev pub reference : Leaves → ℕ → Hash → Hash
  reference f e q = tree_hash sha256 (256 - e) (under f (path e q))

  -- The nodes from a depth on, and the nodes off the path of the key, are right.
  abbrev pub Ready : Leaves → Hash → ℕ → Nodes → Type 0
  Ready f key d nodes =
      (e : ℕ) (q : Hash)
      → e ≤ 256
      → IsHash q
      → (d ≤ e) ⊎ (path e q ≢ path e key)
      → get_node sha256 nodes e q ≡ reference f e q

  -- Every node is right.
  abbrev pub Agrees : Leaves → Nodes → Type 0
  Agrees f nodes =
      (e : ℕ) (q : Hash) → e ≤ 256 → IsHash q → get_node sha256 nodes e q ≡ reference f e q

  abbrev pub new_parent : Hash → ℕ → Nodes → Hash
  new_parent key d nodes =
      join sha256 (bit_at key d) (get_node sha256 nodes (suc d) (prefix_at_depth key (suc d)))
        (get_node sha256 nodes (suc d) (toggle_bit (prefix_at_depth key (suc d)) d))

  set_parent-here :
      (key q : Hash) (d : ℕ) (nodes : Nodes)
      → prefix_at_depth key d ≡ prefix_at_depth q d
      → get_node sha256 (set_parent sha256 key d nodes) d q ≡ new_parent key d nodes
  unfolding set_parent
  set_parent-here key q d nodes same =
      elim (Bool-cases (bytes_eq (new_parent key d nodes) (default_hash sha256 d))) [
        | inl empty ↦
            rw empty
              (get_node-erase_self sha256 nodes d key q same ∙ sym ((bytes_eq_iff _ _).0 empty))
        | inr full ↦
            rw full (get_node-insert_self sha256 nodes d key q (new_parent key d nodes) same)
      ]

  set_parent-Apart :
      (key q : Hash) (d e : ℕ) (nodes : Nodes)
      → Apart sha256 d key e q
      → get_node sha256 (set_parent sha256 key d nodes) e q ≡ get_node sha256 nodes e q
  unfolding set_parent
  set_parent-Apart key q d e nodes apart =
      elim (Bool-cases (bytes_eq (new_parent key d nodes) (default_hash sha256 d))) [
        | inl empty ↦ rw empty (get_node-erase_ne sha256 nodes d e key q apart)
        | inr full ↦
            rw full (get_node-insert_ne sha256 nodes d e key q (new_parent key d nodes) apart)
      ]

  -- The parent computed from two right children is right.
  pub new_parent-right :
      (f : Leaves) (key : Hash) (d : ℕ) (nodes : Nodes)
      → IsHash key
      → d < 256
      → Ready f key (suc d) nodes
      → new_parent key d nodes ≡ reference f d key
  new_parent-right f key d nodes h lt ready =
      let child = prefix_at_depth key (suc d) in
      let child-IsHash = prefix-IsHash (suc d) key h in
      let n = 256 - suc d in
      let height : suc n ≡ 256 - d = omega arith in
      ap₂ (join sha256 (bit_at key d))
        (ready (suc d) child (omega arith) child-IsHash (inl (omega arith))
          ∙ ap (λ p. tree_hash sha256 n (under f p))
              (path-prefix (suc d) key h ∙ path-suc d key h lt))
        (ready (suc d) (toggle_bit child d) (omega arith) (toggle-IsHash d child child-IsHash)
            (inl (omega arith))
          ∙ ap (λ p. tree_hash sha256 n (under f p)) (path-sibling d key h lt))
      ∙ sym (tree_hash-join sha256 n f (path d key) (bit_at key d))
      ∙ ap (λ m. tree_hash sha256 m (under f (path d key))) height

  set_parent-level :
      (f : Leaves) (key : Hash) (d : ℕ) (nodes : Nodes)
      → IsHash key
      → d < 256
      → Ready f key (suc d) nodes
      → (q : Hash) → IsHash q
      → get_node sha256 (set_parent sha256 key d nodes) d q ≡ reference f d q
  unfolding Apart
  set_parent-level f key d nodes h lt ready q k = elim (path-cases d key q h k) [
    | inl same ↦
        set_parent-here key q d nodes same.1
        ∙ new_parent-right f key d nodes h lt ready
        ∙ ap (λ p. tree_hash sha256 (256 - d) (under f p)) same.0
    | inr other ↦
        set_parent-Apart key q d d nodes (inr other.1)
        ∙ ready d q (omega arith) k (inr (λ e. other.0 (sym e)))
  ]

  set_parent-Ready :
      (f : Leaves) (key : Hash) (d : ℕ) (nodes : Nodes)
      → IsHash key
      → d < 256
      → Ready f key (suc d) nodes
      → Ready f key d (set_parent sha256 key d nodes)
  unfolding Apart
  set_parent-Ready f key d nodes h lt ready e q le k side = elim (Bool-cases (e == d)) [
    | inl here ↦ rw ((==_iff e d).0 here) (set_parent-level f key d nodes h lt ready q k)
    | inr away ↦
        set_parent-Apart key q d e nodes (inl (λ same. ground (arith, same)))
        ∙ ready e q le k (elim side [ inl below ↦ inl (ground arith) | inr other ↦ inr other ])
  ]

  pub rehash-Agrees :
      (f : Leaves) (key : Hash) (d : ℕ) (nodes : Nodes)
      → IsHash key
      → d ≤ 256
      → Ready f key d nodes
      → Agrees f (rehash sha256 key d nodes)
  unfolding rehash
  rehash-Agrees f key zero nodes h le ready = λ e q le' k. ready e q le' k (inl (omega arith))
  rehash-Agrees f key (suc d) nodes h le ready =
      rehash-Agrees f key d (set_parent sha256 key d nodes) h (omega arith)
        (set_parent-Ready f key d nodes h (omega arith) ready)
