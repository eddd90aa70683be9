-- ===== src/State.antt =====
-- The sparse Merkle tree over 256 bits of key, internal/v2/state/smt.go. A depth counts the bits of a
-- path; the maps of the tree are association lists.
pub mod Paths
pub mod Spec
pub mod Rehash
pub mod Refines
pub mod Bitmap
pub mod Order
pub mod Membership
pub mod Binding
pub mod Honest
use zephyr_chain.Base.{
  ℕ, zero, suc, ◌+◌, ◌-◌, ◌%◌, ◌^◌, ◌≡◌, ◌↔◌, Bool, true, false, not, ◌&&◌, ◌||◌, Option, none,
  some, List, [], ◌∷◌, ◌++◌, ltb, ◌==◌, if◌then◌else◌, Bytes, length, take, drop, replicate,
  bytes_eq, codes, Keyed, Keyed_Bytes, lookup, erase, insert, Result, ok, err, checked, fail_if,
  invalid_proof, bytes_eq_iff, arith, ap, ap₂,
}
use zephyr_chain.Base.Bits.{test_bit, mask_bytes, flip_bytes, bit_of}
use zephyr_chain.Codec.Writer
use zephyr_chain.Codec.Writer.{◌▷◌}
use zephyr_chain.Codec.Reader
use zephyr_chain.Codec.Reader.{Parser, ◌‼◌, ◌>>=◌, ◌>>◌, run, done, lift, pure, require_not}
use zephyr_chain.Codec.Hash.{domain_hash}
use zephyr_chain.Types.{Hash, zero_hash}

-- `Depth`
abbrev pub max_depth : ℕ
max_depth = 256

pub record NodeKey : Type 0 where
  pub depth : ℕ
  pub prefix : Bytes

unfoldable pub same_node : NodeKey → NodeKey → Bool
unfolding bytes_eq
same_node a b = a.depth == b.depth && bytes_eq a.prefix b.prefix

same_node_iff : (a b : NodeKey) → (same_node a b ≡ true) ↔ (a ≡ b)
unfolding same_node
same_node_iff a b = (
  λ h. ground (arith, bytes_eq_iff a.prefix b.prefix),
  λ e. ground (
    arith,
    bytes_eq_iff a.prefix b.prefix,
    ap (λ (n : NodeKey). n.prefix) e,
    ap (λ (n : NodeKey). n.depth) e,
  ),
)

instance pub Keyed_NodeKey : Keyed NodeKey
Keyed_NodeKey = record { same = same_node; same_iff = same_node_iff }

abbrev pub Nodes : Type 0
Nodes = List (NodeKey × Hash)

abbrev pub Values : Type 0
Values = List (Hash × Bytes)

pub record Tree : Type 0 where
  pub values : Values
  pub nodes : Nodes

pub record Proof : Type 0 where
  pub exists : Bool
  pub bitmap : Bytes
  pub siblings : List Hash

-- `prefixAtDepth`: the mask clears every bit from `depth` on, so that it keeps nothing at depth 0 and
-- the whole key at depth 256.
abbrev pub prefix_at_depth : Bytes → ℕ → Bytes
prefix_at_depth key depth = mask_bytes depth key

-- `bitAt`, as a test for one.
abbrev pub bit_at : Bytes → ℕ → Bool
bit_at key index = bit_of index key

abbrev pub toggle_bit : Bytes → ℕ → Bytes
toggle_bit key index = flip_bytes index key

-- `setBitmapBit`: `bitmap[index/8] |= 1 << (index%8)`
unfoldable pub set_bitmap_bit : ℕ → Bytes → Bytes
set_bitmap_bit index [] = []
set_bitmap_bit index (b ∷ bs) =
    let rest = set_bitmap_bit (index - 8) bs in
    if ltb index 8 then (if test_bit b index then b else b + 2 ^ index) ∷ bs else b ∷ rest

unfoldable pub bitmap_bit : ℕ → Bytes → Bool
bitmap_bit index [] = false
bitmap_bit index (b ∷ bs) =
    let rest = bitmap_bit (index - 8) bs in if ltb index 8 then test_bit b index else rest

-- The number of bits of a bitmap below `n`.
unfoldable pub count_bits : ℕ → Bytes → ℕ
unfolding bitmap_bit
count_bits zero bitmap = 0
count_bits (suc n) bitmap = count_bits n bitmap + (if bitmap_bit n bitmap then 1 else 0)

module _ (sha256 : Bytes → Bytes) where
  unfoldable pub leaf_hash : Hash → Bytes → Hash
  unfolding Writer.bytes_copy
  leaf_hash key value =
      domain_hash sha256 (codes "zephyr/smt/leaf/v2")
        (Writer.bytes_copy (Writer.empty ▷ Writer.fixed key ▷ Writer.bytes value))

  unfoldable pub branch_hash : Hash → Hash → Hash
  branch_hash left right = domain_hash sha256 (codes "zephyr/smt/branch/v2") (left ++ right)

  -- The hash of an empty subtree by its height.
  unfoldable pub empty_hash : ℕ → Hash
  unfolding branch_hash
  empty_hash zero = domain_hash sha256 (codes "zephyr/smt/empty-leaf/v2") []
  empty_hash (suc height) = branch_hash (empty_hash height) (empty_hash height)

  -- `defaults[depth]`
  unfoldable pub default_hash : ℕ → Hash
  unfolding empty_hash
  default_hash depth = empty_hash (max_depth - depth)

  abbrev pub or_default : ℕ → Option Hash → Hash
  or_default depth none = default_hash depth
  or_default depth (some h) = h

  unfoldable pub get_node : Nodes → ℕ → Bytes → Hash
  unfolding default_hash
  get_node nodes depth prefix =
      or_default depth
        (lookup nodes (record { depth = depth; prefix = prefix_at_depth prefix depth }))

  -- Left and right by the bit of the key.
  unfoldable pub join : Bool → Hash → Hash → Hash
  unfolding branch_hash
  join bit child sibling = if bit then branch_hash sibling child else branch_hash child sibling

  -- The body of the loop of `updateLocked`.
  unfoldable pub set_parent : Hash → ℕ → Nodes → Nodes
  unfolding get_node join bytes_eq
  set_parent key depth nodes =
      let child_prefix = prefix_at_depth key (suc depth) in
      let sibling_prefix = toggle_bit child_prefix depth in
      let parent =
        join (bit_at key depth) (get_node nodes (suc depth) child_prefix)
          (get_node nodes (suc depth) sibling_prefix) in
      let parent_key : NodeKey = record { depth = depth; prefix = prefix_at_depth key depth } in
      if bytes_eq parent (default_hash depth)
      then erase nodes parent_key
      else insert nodes parent_key parent

  -- The loop, over the depths below `depth` from the last to the first.
  unfoldable pub rehash : Hash → ℕ → Nodes → Nodes
  unfolding set_parent
  rehash key zero nodes = nodes
  rehash key (suc depth) nodes = rehash key depth (set_parent key depth nodes)

  abbrev pub leaf_node : Hash → NodeKey
  leaf_node key = record { depth = max_depth; prefix = prefix_at_depth key max_depth }

  -- `updateLocked`; a nil value deletes.
  unfoldable pub update : Hash → Option Bytes → Tree → Tree
  unfolding rehash leaf_hash
  update key none t = record {
    values = erase t.values key;
    nodes = rehash key max_depth (erase t.nodes (leaf_node key));
  }
  update key (some value) t = record {
    values = insert t.values key value;
    nodes = rehash key max_depth (insert t.nodes (leaf_node key) (leaf_hash key value));
  }

  -- `Apply`, in the order in which the map is walked.
  unfoldable pub apply : List (Hash × Option Bytes) → Tree → Tree
  unfolding update
  apply [] t = t
  apply (entry ∷ updates) t = apply updates (update entry.0 entry.1 t)

  unfoldable pub root : Tree → Hash
  unfolding get_node
  root t = get_node t.nodes 0 zero_hash

  -- The loop of `Prove`, from the depth given up to the root.
  unfoldable pub prove_from : Nodes → Hash → ℕ → Bytes × List Hash → Bytes × List Hash
  unfolding get_node set_bitmap_bit bytes_eq
  prove_from nodes key zero found = found
  prove_from nodes key (suc depth) found =
      let sibling =
        get_node nodes (suc depth) (toggle_bit (prefix_at_depth key (suc depth)) depth) in
      prove_from nodes key depth (
        if bytes_eq sibling (default_hash (suc depth))
        then found
        else (set_bitmap_bit (255 - depth) found.0, found.1 ++ sibling ∷ []))

  abbrev pub is_some : {A : Type 0} → Option A → Bool
  is_some none = false
  is_some (some _) = true

  unfoldable pub prove : Tree → Hash → Proof
  unfolding prove_from
  prove t key =
      let found = prove_from t.nodes key max_depth (zero_hash, []) in
      record { exists = is_some (lookup t.values key); bitmap = found.0; siblings = found.1 }

  -- The sibling at a depth, with the siblings that are left, or nothing where they ran out.
  unfoldable pub next_sibling : ℕ → Bytes → List Hash → Option (Hash × List Hash)
  unfolding bitmap_bit default_hash
  next_sibling depth bitmap [] =
      if bitmap_bit (255 - depth) bitmap then none else some (default_hash (suc depth), [])
  next_sibling depth bitmap (s ∷ siblings) =
      if bitmap_bit (255 - depth) bitmap
      then some (s, siblings)
      else some (default_hash (suc depth), s ∷ siblings)

  -- The loop of `Verify` from a depth up to the root, with the hash so far. All siblings must be used.
  unfoldable pub climb : Hash → Bytes → ℕ → List Hash → Hash → Option Hash
  unfolding next_sibling join
  climb key bitmap zero [] current = some current
  climb key bitmap zero (s ∷ siblings) current = none
  climb key bitmap (suc depth) siblings current = elim (next_sibling depth bitmap siblings) [
    | none ↦ none
    | some (s, rest) ↦ climb key bitmap depth rest (join (bit_at key depth) current s)
  ]

  abbrev pub start_hash : Hash → Option Bytes → Hash
  start_hash key none = default_hash max_depth
  start_hash key (some value) = leaf_hash key value

  abbrev pub reaches : Hash → Option Hash → Bool
  reaches root_hash none = false
  reaches root_hash (some h) = bytes_eq h root_hash

  unfoldable pub verify : Hash → Hash → Option Bytes → Proof → Bool
  unfolding climb leaf_hash default_hash bytes_eq
  verify root_hash key value p =
      (if p.exists then is_some value else not (is_some value))
      && reaches root_hash (climb key p.bitmap max_depth p.siblings (start_hash key value))

-- `NewTree`
abbrev pub new_tree : Tree
new_tree = record { values = []; nodes = [] }

-- `w.Fixed(sibling[:])` for each sibling.
unfoldable pub write_hashes : List Hash → Writer.Writer → Writer.Writer
write_hashes [] w = w
write_hashes (h ∷ hs) w = write_hashes hs (w ▷ Writer.fixed h)

unfoldable pub marshal_proof : Proof → Bytes
unfolding write_hashes
marshal_proof p = Writer.bytes_copy (
    Writer.empty
    ▷ Writer.bool p.exists
    ▷ Writer.fixed p.bitmap
    ▷ Writer.u16 (length p.siblings % 2 ^ 16)
    ▷ write_hashes p.siblings)

unfoldable pub read_hashes : ℕ → Parser (List Hash)
read_hashes zero = pure []
read_hashes (suc n) = do h ← Reader.fixed 32 ‼ invalid_proof; hs ← read_hashes n; pure (h ∷ hs)

unfoldable pub read_proof : Parser Proof
unfolding read_hashes count_bits
read_proof = do
  exists ← Reader.bool ‼ invalid_proof
  bitmap ← Reader.fixed 32 ‼ invalid_proof
  count ← Reader.u16 ‼ invalid_proof
  require_not (ltb max_depth count) invalid_proof
  siblings ← read_hashes count
  done ‼ invalid_proof
  let out : Proof = record { exists = exists; bitmap = bitmap; siblings = siblings }
  lift (checked (fail_if (not (count_bits max_depth bitmap == length siblings)) invalid_proof) out)

unfoldable pub parse_proof : Bytes → Result Proof
unfolding read_proof
parse_proof payload = run read_proof payload
