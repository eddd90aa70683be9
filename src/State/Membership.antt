-- ===== src/State/Membership.antt =====
-- `Prove` against `Verify`: what the proof's bitmap and siblings hold, and the climb with them.
use zephyr_chain.Base.{
  ℕ, zero, suc, ◌+◌, ◌-◌, ◌≤◌, ◌<◌, ◌≡◌, ◌≢◌, refl, sym, ◌∙◌, ap, Bool, true, false, not, ◌&&◌,
  Option, none, some, List, [], ◌∷◌, ◌++◌, append_assoc, append-nil, if◌then◌else◌, ◌==◌, ==_iff,
  arith, inl, inr, Bool-cases, Bytes, bytes_eq, bytes_eq_iff, All, lookup, Keyed_Bytes,
}
use zephyr_chain.Types.{Hash, IsHash, zero_hash, zero_hash-IsHash}
use zephyr_chain.State.{
  Nodes, Values, Tree, prefix_at_depth, bit_at, toggle_bit, set_bitmap_bit, bitmap_bit, get_node,
  default_hash, join, prove_from, prove, climb, next_sibling, verify, root, start_hash, is_some,
  reaches,
}
use zephyr_chain.State.Bitmap.{
  set_bitmap_bit-IsBytes, bitmap_bit-set_self, bitmap_bit-set_ne, bitmap_bit-zeros,
}
use zephyr_chain.State.Paths.{path-prefix, prefix-IsHash}
use zephyr_chain.State.Spec.{or_empty, Leaves, leaves, leaf_for, leaves-key, tree_hash, under}
use zephyr_chain.State.Rehash.{reference, Agrees, new_parent-right}
use zephyr_chain.State.Order.{Sound, built, built-Sound, Updates}
use zephyr_chain.State.Refines.{root-Agrees}

module _ (sha256 : Bytes → Bytes) where
  next_sibling-clear :
      (d : ℕ) (bitmap : Bytes) (siblings : List Hash)
      → bitmap_bit (255 - d) bitmap ≡ false
      → next_sibling sha256 d bitmap siblings ≡ some (default_hash sha256 (suc d), siblings)
  unfolding next_sibling
  next_sibling-clear d bitmap [] h = rw h refl
  next_sibling-clear d bitmap (s ∷ siblings) h = rw h refl

  next_sibling-set :
      (d : ℕ) (bitmap : Bytes) (s : Hash) (siblings : List Hash)
      → bitmap_bit (255 - d) bitmap ≡ true
      → next_sibling sha256 d bitmap (s ∷ siblings) ≡ some (s, siblings)
  unfolding next_sibling
  next_sibling-set d bitmap s siblings h = rw h refl

  pub climb-step :
      (key : Hash) (bitmap : Bytes) (d : ℕ) (siblings : List Hash) (current s : Hash)
      (rest : List Hash)
      → next_sibling sha256 d bitmap siblings ≡ some (s, rest)
      → climb sha256 key bitmap (suc d) siblings current
        ≡ climb sha256 key bitmap d rest (join sha256 (bit_at key d) current s)
  unfolding climb
  climb-step key bitmap d siblings current s rest h = rw (h, climb) refl

  module _ (nodes : Nodes) (key : Hash) where
    abbrev pub sibling : ℕ → Hash
    sibling depth =
        get_node sha256 nodes (suc depth) (toggle_bit (prefix_at_depth key (suc depth)) depth)

    abbrev pub plain : ℕ → Bool
    plain depth = bytes_eq (sibling depth) (default_hash sha256 (suc depth))

    abbrev found_next : ℕ → Bytes × List Hash → Bytes × List Hash
    found_next depth found =
        if plain depth
        then found
        else (set_bitmap_bit (255 - depth) found.0, found.1 ++ sibling depth ∷ [])

    -- The siblings that a proof holds from a depth up.
    abbrev pub stored_from : ℕ → List Hash
    stored_from zero = []
    stored_from (suc depth) =
        let rest = stored_from depth in if plain depth then rest else sibling depth ∷ rest

    -- The climb with the tree's own siblings.
    abbrev ascend : ℕ → Hash → Hash
    ascend zero current = current
    ascend (suc depth) current =
        ascend depth (join sha256 (bit_at key depth) current (sibling depth))

    found_next-IsHash :
        (d : ℕ) (found : Bytes × List Hash) → IsHash found.0 → IsHash (found_next d found).0
    found_next-IsHash d found h = elim (Bool-cases (plain d)) [
      | inl p ↦ rw p h
      | inr s ↦ let set = set_bitmap_bit-IsBytes (255 - d) found.0 h.1 in rw s (set.0 ∙ h.0, set.1)
    ]

    found_next-bit_ne :
        (d i : ℕ) (found : Bytes × List Hash)
        → IsHash found.0
        → 255 - d ≢ i
        → bitmap_bit i (found_next d found).0 ≡ bitmap_bit i found.0
    found_next-bit_ne d i found h ne = elim (Bool-cases (plain d)) [
      | inl p ↦ rw p refl
      | inr s ↦ rw s (bitmap_bit-set_ne (255 - d) i found.0 h.1 ne)
    ]

    found_next-bit_self :
        (d : ℕ) (found : Bytes × List Hash)
        → IsHash found.0
        → bitmap_bit (255 - d) found.0 ≡ false
        → bitmap_bit (255 - d) (found_next d found).0 ≡ not (plain d)
    found_next-bit_self d found h clear = elim (Bool-cases (plain d)) [
      | inl p ↦ rw p clear
      | inr s ↦ rw s (bitmap_bit-set_self (255 - d) found.0 h.1 (omega (arith, h.0)))
    ]

    pub prove_from-siblings :
        (d : ℕ) (found : Bytes × List Hash)
        → (prove_from sha256 nodes key d found).1 ≡ found.1 ++ stored_from d
    unfolding prove_from
    prove_from-siblings zero found = sym (append-nil found.1)
    prove_from-siblings (suc d) found =
        prove_from-siblings d (found_next d found) ∙ elim (Bool-cases (plain d)) [
          | inl p ↦ rw p refl
          | inr s ↦ rw s (append_assoc found.1 (sibling d ∷ []) (stored_from d))
        ]

    -- Bits of lower depths are not touched.
    prove_from-bit_before :
        (d i : ℕ) (found : Bytes × List Hash)
        → IsHash found.0
        → i + d < 256
        → bitmap_bit i (prove_from sha256 nodes key d found).0 ≡ bitmap_bit i found.0
    unfolding prove_from
    prove_from-bit_before zero i found h lt = refl
    prove_from-bit_before (suc d) i found h lt =
        prove_from-bit_before d i (found_next d found) (found_next-IsHash d found h) (omega arith)
        ∙ found_next-bit_ne d i found h (λ e. omega (arith, e))

    prove_from-bit :
        (d e : ℕ) (found : Bytes × List Hash)
        → IsHash found.0
        → d ≤ 256
        → e < d
        → ((i : ℕ) → 256 ≤ i + d → bitmap_bit i found.0 ≡ false)
        → bitmap_bit (255 - e) (prove_from sha256 nodes key d found).0 ≡ not (plain e)
    unfolding prove_from
    prove_from-bit zero e found h le lt clear = absurd (omega arith)
    prove_from-bit (suc d) e found h le lt clear = elim (Bool-cases (e == d)) [
      | inl here ↦ rw ((==_iff e d).0 here) (
          prove_from-bit_before d (255 - d) (found_next d found) (found_next-IsHash d found h)
            (omega arith)
          ∙ found_next-bit_self d found h (clear (255 - d) (omega arith)))
      | inr away ↦
          prove_from-bit d e (found_next d found) (found_next-IsHash d found h) (omega arith)
            (ground arith)
            (λ i far.
              found_next-bit_ne d i found h (λ same. omega (arith, same)) ∙ clear i (omega arith))
    ]

    -- The climb uses exactly the stored siblings.
    climb-stored :
        (bitmap : Bytes) (d : ℕ) (current : Hash)
        → ((e : ℕ) → e < d → bitmap_bit (255 - e) bitmap ≡ not (plain e))
        → climb sha256 key bitmap d (stored_from d) current ≡ some (ascend d current)
    unfolding climb
    climb-stored bitmap zero current h = refl
    climb-stored bitmap (suc d) current h = elim (Bool-cases (plain d)) [
      | inl p ↦
          let clear = h d (omega arith) ∙ ap not p in
          rw p (
            climb-step key bitmap d (stored_from d) current (default_hash sha256 (suc d))
              (stored_from d) (next_sibling-clear d bitmap (stored_from d) clear)
            ∙ climb-stored bitmap d _ (λ e lt. h e (omega arith))
            ∙ ap (λ s. some (ascend d (join sha256 (bit_at key d) current s)))
                (sym ((bytes_eq_iff _ _).0 p)))
      | inr s ↦
          let set = h d (omega arith) ∙ ap not s in
          rw s (
            climb-step key bitmap d (sibling d ∷ stored_from d) current (sibling d) (stored_from d)
              (next_sibling-set d bitmap (sibling d) (stored_from d) set)
            ∙ climb-stored bitmap d _ (λ e lt. h e (omega arith)))
    ]

    ascend-reference :
        (f : Leaves) (d : ℕ)
        → IsHash key
        → Agrees sha256 f nodes
        → d ≤ 256
        → ascend d (reference sha256 f d key) ≡ reference sha256 f 0 key
    ascend-reference f zero h agrees le = refl
    ascend-reference f (suc d) h agrees le =
        let child =
          agrees (suc d) (prefix_at_depth key (suc d)) le (prefix-IsHash (suc d) key h)
          ∙ ap (λ p. tree_hash sha256 (256 - suc d) (under f p)) (path-prefix (suc d) key h) in
        ap (ascend d) (
          ap (λ x. join sha256 (bit_at key d) x (sibling d)) (sym child)
          ∙ new_parent-right sha256 f key d nodes h (omega arith)
              (λ e q le' k side. agrees e q le' k))
        ∙ ascend-reference f d h agrees (omega arith)

  start_hash-leaf :
      (key : Hash) (value : Option Bytes)
      → start_hash sha256 key value ≡ or_empty sha256 (leaf_for sha256 key value)
  unfolding leaf_for default_hash
  start_hash-leaf key none = refl
  start_hash-leaf key (some value) = refl

  start_hash-reference :
      (values : Values) (key : Hash)
      → IsHash key
      → start_hash sha256 key (lookup values key) ≡ reference sha256 (leaves sha256 values) 256 key
  unfolding tree_hash
  start_hash-reference values key h =
      start_hash-leaf key (lookup values key)
      ∙ ap (or_empty sha256) (sym (leaves-key sha256 values key h))

  climb-prove :
      (t : Tree) (key : Hash)
      → Sound sha256 t
      → IsHash key
      → climb sha256 key
          (prove sha256 t key).bitmap
          256
          (prove sha256 t key).siblings
          (start_hash sha256 key (lookup t.values key))
        ≡ some (root sha256 t)
  unfolding Sound prove
  climb-prove t key sound h =
      let found : Bytes × List Hash = (zero_hash, []) in
      ap
        (λ l.
          climb sha256 key (prove_from sha256 t.nodes key 256 found).0 256 l
            (start_hash sha256 key (lookup t.values key)))
        (prove_from-siblings t.nodes key 256 found)
      ∙ climb-stored t.nodes key (prove_from sha256 t.nodes key 256 found).0 256
          (start_hash sha256 key (lookup t.values key))
          (λ e lt.
            prove_from-bit t.nodes key 256 e found zero_hash-IsHash (omega arith) lt
              (λ i far. bitmap_bit-zeros i 32))
      ∙ ap some (
          ap (ascend t.nodes key 256) (start_hash-reference t.values key h)
          ∙ ascend-reference t.nodes key (leaves sha256 t.values) 256 h sound (omega arith)
          ∙ sym (root-Agrees sha256 t sound))

  accepted :
      (value : Option Bytes) (a : Hash) (reached : Option Hash)
      → reached ≡ some a
      → ((if is_some sha256 value then is_some sha256 value else not (is_some sha256 value))
          && reaches sha256 a reached)
        ≡ true
  accepted none a reached e = ap (reaches sha256 a) e ∙ (bytes_eq_iff a a).1 refl
  accepted (some _) a reached e = ap (reaches sha256 a) e ∙ (bytes_eq_iff a a).1 refl

  pub verify-prove-Sound :
      (t : Tree) (key : Hash)
      → Sound sha256 t
      → IsHash key
      → verify sha256 (root sha256 t) key (lookup t.values key) (prove sha256 t key) ≡ true
  unfolding verify prove
  verify-prove-Sound t key sound h =
      accepted (lookup t.values key) (root sha256 t) _ (climb-prove t key sound h)

  -- In a tree that any updates of keys of 32 bytes made out of the empty tree, the proof that `Prove` gives
  -- for a key is accepted by `Verify` against the root of the tree, with the value that the tree has for the
  -- key, or with no value where it has none.
  pub verify-prove :
      (updates : Updates) (key : Hash)
      → All (λ entry. IsHash entry.0) updates
      → IsHash key
      → verify sha256
          (root sha256 (built sha256 updates))
          key
          (lookup (built sha256 updates).values key)
          (prove sha256 (built sha256 updates) key)
        ≡ true
  verify-prove updates key hs h =
      verify-prove-Sound (built sha256 updates) key (built-Sound sha256 updates hs) h
