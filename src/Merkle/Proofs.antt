-- ===== src/Merkle/Proofs.antt =====
-- Inclusion proofs that `BuildProof` of internal/v2/merkle/merkle.go builds, and `Verify` in terms of
-- the depth of the tree.
use zephyr_chain.Base.{
  ℕ, zero, suc, ◌+◌, ◌-◌, ◌*◌, ◌/◌, ◌%◌, ◌^◌, ◌≤◌, ◌<◌, ◌≡◌, ◌↔◌, refl, sym, ◌∙◌, ap, ap₂, List,
  arith, true, false, if◌then◌else◌, Bytes, length, inl, inr, Bool-cases, ◌==◌, bytes_eq_iff, ok,
}
use zephyr_chain.Types.{Hash}
use zephyr_chain.Merkle.{
  Proof, next_power_of_two, halvings, get_or_empty, reduce, padded, collect, root, build_proof,
  verify, climb, branch, sibling_position,
}
use zephyr_chain.Merkle.Shape.{
  next_power_of_two-pow, halvings-pow, lt-pow, pow_two, tree, path, collapse-pow, collect-pow,
  length-path, length-reduce, get-reduce, length-padded, get-append,
}

module _ (sha256 : Bytes → Bytes) where
  -- One step up from a position of an even level gives the parent.
  step_up :
      (level : List Hash) (n i : ℕ)
      → length level ≡ 2 * n
      → i < 2 * n
      → (if i % 2 == 0
          then branch sha256 (get_or_empty level i) (get_or_empty level (sibling_position i))
          else branch sha256 (get_or_empty level (sibling_position i)) (get_or_empty level i))
        ≡ get_or_empty (reduce sha256 level) (i / 2)
  unfolding sibling_position
  step_up level n i e h = elim (Bool-cases (i % 2 == 0)) [
    | inl even ↦
        let here : i ≡ 2 * (i / 2) = ground arith in
        rw even (
          ap₂ (λ x y. branch sha256 (get_or_empty level x) (get_or_empty level y)) here
            (ap (λ (t : ℕ). t + 1) here)
          ∙ sym (get-reduce sha256 level n (i / 2) e (omega arith)))
    | inr odd ↦
        let left : i - 1 ≡ 2 * (i / 2) = ground arith in
        let right : i ≡ 2 * (i / 2) + 1 = ground arith in
        rw odd (
          ap₂ (λ x y. branch sha256 (get_or_empty level x) (get_or_empty level y)) left right
          ∙ sym (get-reduce sha256 level n (i / 2) e (omega arith)))
  ]

  pub climb-path :
      (k i : ℕ) (level : List Hash)
      → length level ≡ 2 ^ k
      → i < 2 ^ k
      → climb sha256 (path sha256 k i level) (get_or_empty level i) i ≡ tree sha256 k level
  unfolding climb path tree
  climb-path zero zero level e h = refl
  climb-path zero (suc i) level e h = absurd (omega arith)
  climb-path (suc k) i level e h =
      let even : length level ≡ 2 * 2 ^ k = e ∙ pow_two k in
      ap (λ c. climb sha256 (path sha256 k (i / 2) (reduce sha256 level)) c (i / 2))
        (step_up level (2 ^ k) i even (omega (arith, pow_two k)))
      ∙ (climb-path k (i / 2) (reduce sha256 level) (length-reduce sha256 (2 ^ k) level even)
          (omega (arith, pow_two k)))

  -- A root is the tree over the padded leaves.
  pub root-tree :
      (leaves : List Hash)
      → 0 < length leaves
      → (k : ℕ) × (next_power_of_two (length leaves) ≡ 2 ^ k)
        × (length leaves ≤ 2 ^ k)
        × (root sha256 leaves ≡ tree sha256 k (padded sha256 leaves (2 ^ k)))
  unfolding root
  root-tree leaves pos =
      let (k, e, fits) = next_power_of_two-pow (length leaves) in
      let nonempty : (length leaves == 0) ≡ false = ground arith in
      (
        k,
        e,
        fits,
        rw (nonempty, e)
            (collapse-pow sha256 (2 ^ k) k (padded sha256 leaves (2 ^ k))
              (omega (arith, lt-pow k))),
      )

  path_of_proof :
      (leaves : List Hash) (index : ℕ) (p : Proof)
      → build_proof sha256 leaves index ≡ ok p
      → length leaves < 2 ^ 32
      → (index < length leaves)
        × (p.index ≡ index)
        × (p.leaf_count ≡ length leaves)
        × (p.siblings
            ≡ collect sha256
                (next_power_of_two (length leaves))
                (next_power_of_two (length leaves))
                index
                (padded sha256 leaves (next_power_of_two (length leaves))))
  unfolding build_proof
  path_of_proof leaves index p e small = ground arith

  -- `Verify` in terms of the depth `k` of the tree.
  pub verify_iff :
      (root_hash leaf_hash : Hash) (p : Proof) (k : ℕ)
      → next_power_of_two p.leaf_count ≡ 2 ^ k
      → (verify sha256 root_hash leaf_hash p ≡ true) ↔ (
          (p.index < p.leaf_count)
          × (length p.siblings ≡ k)
          × (climb sha256 p.siblings leaf_hash p.index ≡ root_hash))
  unfolding verify
  verify_iff root_hash leaf_hash p k width =
      let depth : halvings (next_power_of_two p.leaf_count) (next_power_of_two p.leaf_count) 0 ≡ k =
        rw width (halvings-pow (2 ^ k) k 0 (omega (arith, lt-pow k)) ∙ omega arith) in
      (
        λ h.
            ground
              (arith, depth, bytes_eq_iff (climb sha256 p.siblings leaf_hash p.index) root_hash),
        λ h.
            ground
              (arith, depth, bytes_eq_iff (climb sha256 p.siblings leaf_hash p.index) root_hash),
      )

  -- For every list of fewer than 2 ^ 32 leaves, the proof that is built for an index is accepted
  -- for the leaf at that index, against the root of the list.
  pub verify-build_proof :
      (leaves : List Hash) (index : ℕ) (p : Proof)
      → length leaves < 2 ^ 32
      → build_proof sha256 leaves index ≡ ok p
      → verify sha256 (root sha256 leaves) (get_or_empty leaves index) p ≡ true
  unfolding padded
  verify-build_proof leaves index p small e =
      let (inside, ei, ec, es) = path_of_proof leaves index p e small in
      let (k, width, fits, tree_root) = root-tree leaves (omega arith) in
      let level = padded sha256 leaves (2 ^ k) in
      let siblings : p.siblings ≡ path sha256 k index level =
        es ∙ rw width (collect-pow sha256 (2 ^ k) k index level (omega (arith, lt-pow k))) in
      let same_leaf : get_or_empty level index ≡ get_or_empty leaves index =
        get-append leaves _ index inside in
      let reached : climb sha256 (path sha256 k index level) (get_or_empty leaves index) index
          ≡ root sha256 leaves =
        ap (λ x. climb sha256 (path sha256 k index level) x index) (sym same_leaf)
        ∙ climb-path k index level (length-padded sha256 leaves (2 ^ k) fits) (omega arith)
        ∙ sym tree_root in
      (verify_iff (root sha256 leaves) (get_or_empty leaves index) p k
          (ap next_power_of_two ec ∙ width)).1
        (
          omega arith,
          ap length siblings ∙ length-path sha256 k index level,
          ap₂ (λ ss i. climb sha256 ss (get_or_empty leaves index) i) siblings ei ∙ reached,
        )
