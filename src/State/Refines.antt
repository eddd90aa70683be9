-- ===== src/State/Refines.antt =====
-- `updateLocked` and `Apply` against the specification: the nodes of a tree are a cache of what its values
-- determine.
use zephyr_chain.Base.{
  Bytes, ℕ, ◌-◌, ◌≤◌, ◌≡◌, ◌≢◌, refl, sym, ◌∙◌, ap, Bool, Option, none, some, List, [], ◌∷◌, ◌++◌,
  arith, inl, inr, Bool-cases, All, lookup, insert, erase, lookup-insert_self, lookup-insert_ne,
  lookup-erase_self, lookup-erase_ne, Keyed_Bytes, ◌==◌, ==_iff,
}
use zephyr_chain.Types.{Hash, IsHash, zero_hash, zero_hash-IsHash}
use zephyr_chain.State.{
  Keyed_NodeKey, Nodes, Values, Tree, max_depth, prefix_at_depth, get_node, leaf_node, leaf_hash,
  default_hash, update, rehash, apply, root, new_tree,
}
use zephyr_chain.State.Paths.{
  path, path-cases, Apart, get_node-insert_self, get_node-erase_self, get_node-insert_ne,
  get_node-erase_ne,
}
use zephyr_chain.State.Spec.{
  or_empty, under, tree_hash, tree_hash_cong, tree_hash-none, leaves, leaf_for, leaves-key,
  string_of-ne,
}
use zephyr_chain.State.Rehash.{reference, Ready, Agrees, rehash-Agrees}

-- What an update makes of a map of values.
abbrev pub set_value : Hash → Option Bytes → Values → Values
set_value key none values = erase values key
set_value key (some value) values = insert values key value

pub lookup-set_value_self :
    (values : Values) (key : Hash) (value : Option Bytes)
    → lookup (set_value key value values) key ≡ value
lookup-set_value_self values key none = lookup-erase_self values key
lookup-set_value_self values key (some value) = lookup-insert_self values key value

pub lookup-set_value_ne :
    (values : Values) (key other : Hash) (value : Option Bytes)
    → key ≢ other
    → lookup (set_value key value values) other ≡ lookup values other
lookup-set_value_ne values key other none ne = lookup-erase_ne values key other ne
lookup-set_value_ne values key other (some value) ne = lookup-insert_ne values key other value ne

module _ (sha256 : Bytes → Bytes) where
  -- What `updateLocked` makes of the nodes before its loop.
  abbrev set_leaf : Hash → Option Bytes → Nodes → Nodes
  set_leaf key none nodes = erase nodes (leaf_node sha256 key)
  set_leaf key (some value) nodes = insert nodes (leaf_node sha256 key) (leaf_hash sha256 key value)

  update_eq :
      (key : Hash) (value : Option Bytes) (t : Tree)
      → update sha256 key value t ≡ record {
        values = set_value key value t.values;
        nodes = rehash sha256 key max_depth (set_leaf key value t.nodes);
      }
  unfolding update
  update_eq key none t = refl
  update_eq key (some value) t = refl

  set_leaf-here :
      (key q : Hash) (value : Option Bytes) (nodes : Nodes)
      → prefix_at_depth key 256 ≡ prefix_at_depth q 256
      → get_node sha256 (set_leaf key value nodes) 256 q
        ≡ tree_hash sha256 0 (λ p. leaf_for sha256 key value)
  unfolding tree_hash leaf_for default_hash
  set_leaf-here key q none nodes same = get_node-erase_self sha256 nodes 256 key q same
  set_leaf-here key q (some value) nodes same =
      get_node-insert_self sha256 nodes 256 key q (leaf_hash sha256 key value) same

  set_leaf-Apart :
      (key q : Hash) (value : Option Bytes) (e : ℕ) (nodes : Nodes)
      → Apart sha256 256 key e q
      → get_node sha256 (set_leaf key value nodes) e q ≡ get_node sha256 nodes e q
  set_leaf-Apart key q none e nodes apart = get_node-erase_ne sha256 nodes 256 e key q apart
  set_leaf-Apart key q (some value) e nodes apart =
      get_node-insert_ne sha256 nodes 256 e key q (leaf_hash sha256 key value) apart

  -- Off the path of the key, the leaves are those of before.
  reference-apart :
      (values : Values) (key q : Hash) (value : Option Bytes) (e : ℕ)
      → IsHash key
      → IsHash q
      → e ≤ 256
      → path e q ≢ path e key
      → reference sha256 (leaves sha256 (set_value key value values)) e q
        ≡ reference sha256 (leaves sha256 values) e q
  unfolding leaves
  reference-apart values key q value e h k le ne =
      tree_hash_cong sha256 (256 - e)
        (under (leaves sha256 (set_value key value values)) (path e q))
        (under (leaves sha256 values) (path e q))
        (λ p len.
          ap (leaf_for sha256 _)
            (lookup-set_value_ne values key _ value (string_of-ne e key q p h k le len ne)))

  -- The leaf of the key itself.
  set_leaf-level :
      (values : Values) (nodes : Nodes) (key q : Hash) (value : Option Bytes)
      → IsHash key
      → path 256 key ≡ path 256 q
      → prefix_at_depth key 256 ≡ prefix_at_depth q 256
      → get_node sha256 (set_leaf key value nodes) 256 q
        ≡ reference sha256 (leaves sha256 (set_value key value values)) 256 q
  unfolding tree_hash
  set_leaf-level values nodes key q value h paths prefixes =
      set_leaf-here key q value nodes prefixes
      ∙ ap (or_empty sha256) (
          sym (
            ap (λ (p : List Bool). leaves sha256 (set_value key value values) (p ++ [])) (sym paths)
            ∙ leaves-key sha256 (set_value key value values) key h
            ∙ ap (leaf_for sha256 key) (lookup-set_value_self values key value)))

  Apart-leaf :
      (key q : Hash) (e : ℕ)
      → prefix_at_depth key e ≢ prefix_at_depth q e
      → Apart sha256 256 key e q
  unfolding Apart
  Apart-leaf key q e ne = elim (Bool-cases (e == 256)) [
    | inl here ↦
        let whole = (==_iff e 256).0 here in
        inr (λ same. ne (ap (prefix_at_depth key) whole ∙ same))
    | inr away ↦ inl (λ same. ground (arith, same))
  ]

  set_leaf-Ready :
      (values : Values) (nodes : Nodes) (key : Hash) (value : Option Bytes)
      → IsHash key
      → Agrees sha256 (leaves sha256 values) nodes
      → Ready sha256 (leaves sha256 (set_value key value values)) key 256 (set_leaf key value nodes)
  set_leaf-Ready values nodes key value h agrees e q le k side = elim (path-cases e key q h k) [
    | inl same ↦ elim side [
      | inl leaf ↦
          let whole : e ≡ 256 = omega (arith, leaf, le) in
          rw whole (
            set_leaf-level values nodes key q value h
              (ap (λ (d : ℕ). path d key) (sym whole) ∙ same.0 ∙ ap (λ (d : ℕ). path d q) whole)
              (ap (prefix_at_depth key) (sym whole) ∙ same.1 ∙ ap (prefix_at_depth q) whole))
      | inr off ↦ absurd (off (sym same.0))
    ]
    | inr other ↦
        set_leaf-Apart key q value e nodes (Apart-leaf key q e other.1)
        ∙ agrees e q le k
        ∙ sym (reference-apart values key q value e h k le (λ same. other.0 (sym same)))
  ]

  pub update-Agrees :
      (t : Tree) (key : Hash) (value : Option Bytes)
      → IsHash key
      → Agrees sha256 (leaves sha256 t.values) t.nodes
      → Agrees sha256
          (leaves sha256 (update sha256 key value t).values)
          (update sha256 key value t).nodes
  update-Agrees t key value h agrees = rw (update_eq key value t) (
      rehash-Agrees sha256 (leaves sha256 (set_value key value t.values)) key 256
        (set_leaf key value t.nodes) h (omega arith)
        (set_leaf-Ready t.values t.nodes key value h agrees))

  pub new_tree-Agrees : Agrees sha256 (leaves sha256 new_tree.values) new_tree.nodes
  unfolding get_node default_hash leaves leaf_for
  new_tree-Agrees e q le k =
      sym (tree_hash-none sha256 (256 - e) (under (leaves sha256 []) (path e q)) (λ p len. refl))

  pub apply-Agrees :
      (updates : List (Hash × Option Bytes)) (t : Tree)
      → All (λ entry. IsHash entry.0) updates
      → Agrees sha256 (leaves sha256 t.values) t.nodes
      → Agrees sha256 (leaves sha256 (apply sha256 updates t).values) (apply sha256 updates t).nodes
  unfolding apply
  apply-Agrees [] t h agrees = agrees
  apply-Agrees (entry ∷ updates) t h agrees =
      apply-Agrees updates (update sha256 entry.0 entry.1 t) h.1
        (update-Agrees t entry.0 entry.1 h.0 agrees)

  -- What `Root` of a tree with the values commits to.
  abbrev pub commitment : Values → Hash
  commitment values = tree_hash sha256 256 (leaves sha256 values)

  pub root-Agrees :
      (t : Tree)
      → Agrees sha256 (leaves sha256 t.values) t.nodes
      → root sha256 t ≡ commitment t.values
  unfolding root
  root-Agrees t agrees = agrees 0 zero_hash (omega arith) zero_hash-IsHash
