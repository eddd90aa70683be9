-- ===== src/Merkle/Sound.antt =====
-- `Verify` of internal/v2/merkle/merkle.go for an attacker who chooses the leaf and the proof: the hashes
-- are arrays of 32 bytes, and a branch hashes the 64 bytes of its two halves.
use zephyr_chain.Base.{
  ℕ, zero, suc, ◌+◌, ◌-◌, ◌*◌, ◌/◌, ◌%◌, ◌^◌, ◌<◌, ◌≡◌, ◌⊎◌, sym, ◌∙◌, ap, List, [], ◌∷◌, ◌++◌,
  arith, true, if◌then◌else◌, Bytes, length, replicate, inl, inr, Bool-cases, ◌==◌, All, All-append,
  append-parts, codes,
}
use zephyr_chain.Codec.Hash.{HashCollision, domain_hash, domain_hash-payload}
use zephyr_chain.Types.{Hash}
use zephyr_chain.Merkle.{
  Proof, next_power_of_two, get_or_empty, reduce, padded, root, verify, climb, branch, empty_leaf,
  sibling_position,
}
use zephyr_chain.Merkle.Shape.{
  next_power_of_two-pow, path, pow_two, length-path, length-reduce, length-padded, get-append,
}
use zephyr_chain.Merkle.Proofs.{root-tree, verify_iff, climb-path}

-- A hash of 32 bytes, as the source's arrays are.
abbrev pub Sized : Hash → Type 0
Sized h = length h ≡ 32

get_or_empty-Sized :
    (level : List Hash) (i : ℕ) → All Sized level → i < length level → Sized (get_or_empty level i)
unfolding get_or_empty
get_or_empty-Sized [] i sizes h = absurd (omega arith)
get_or_empty-Sized (x ∷ level) zero sizes h = sizes.0
get_or_empty-Sized (x ∷ level) (suc i) sizes h = get_or_empty-Sized level i sizes.1 (omega arith)

replicate-Sized : (n : ℕ) (x : Hash) → Sized x → All Sized (replicate n x)
replicate-Sized zero x h = tt
replicate-Sized (suc n) x h = (h, replicate-Sized n x h)

module _ (sha256 : Bytes → Bytes) (sized : (x : Bytes) → length (sha256 x) ≡ 32) where
  branch-Sized : (a b : Hash) → Sized (branch sha256 a b)
  unfolding branch domain_hash
  branch-Sized a b = sized _

  padded-Sized :
      (leaves : List Hash) (width : ℕ) → All Sized leaves → All Sized (padded sha256 leaves width)
  unfolding padded empty_leaf domain_hash
  padded-Sized leaves width h =
      All-append Sized leaves _ h (replicate-Sized (width - length leaves) _ (sized _))

  reduce-Sized : (level : List Hash) → All Sized (reduce sha256 level)
  unfolding reduce
  reduce-Sized [] = tt
  reduce-Sized (a ∷ []) = tt
  reduce-Sized (a ∷ b ∷ level) = (branch-Sized a b, reduce-Sized level)

  -- The siblings on the way up from a position of a level are entries of levels.
  path-Sized :
      (k i : ℕ) (level : List Hash)
      → length level ≡ 2 ^ k
      → i < 2 ^ k
      → All Sized level
      → All Sized (path sha256 k i level)
  unfolding path sibling_position
  path-Sized zero i level e h sizes = tt
  path-Sized (suc k) i level e h sizes =
      let even : length level ≡ 2 * 2 ^ k = e ∙ pow_two k in
      let inside : (if i % 2 == 0 then i + 1 else i - 1) < length level =
        ground (arith, pow_two k) in
      (
        get_or_empty-Sized level _ sizes inside,
        path-Sized k (i / 2) (reduce sha256 level) (length-reduce sha256 (2 ^ k) level even)
            (omega (arith, pow_two k)) (reduce-Sized level),
      )

  branch-parts :
      (a b c d : Hash)
      → Sized a
      → Sized c
      → branch sha256 a b ≡ branch sha256 c d
      → ((a ≡ c) × (b ≡ d)) ⊎ HashCollision sha256
  unfolding branch
  branch-parts a b c d ha hc e =
      elim (domain_hash-payload sha256 (codes "zephyr/merkle/branch/v2") (a ++ b) (c ++ d) e) [
        | inl h ↦ inl (append-parts a b c d (ha ∙ sym hc) h)
        | inr collision ↦ inr collision
      ]

  climb-injective :
      (ss ts : List Hash) (x y : Hash) (i : ℕ)
      → All Sized ss
      → All Sized ts
      → Sized x
      → Sized y
      → length ss ≡ length ts
      → climb sha256 ss x i ≡ climb sha256 ts y i
      → (x ≡ y) ⊎ HashCollision sha256
  unfolding climb
  climb-injective [] [] x y i hs ht hx hy n e = inl e
  climb-injective [] (t ∷ ts) x y i hs ht hx hy n e = absurd (omega arith)
  climb-injective (s ∷ ss) [] x y i hs ht hx hy n e = absurd (omega arith)
  climb-injective (s ∷ ss) (t ∷ ts) x y i hs ht hx hy n e = elim (Bool-cases (i % 2 == 0)) [
    | inl even ↦
        elim (climb-injective ss ts (branch sha256 x s) (branch sha256 y t) (i / 2) hs.1 ht.1
          (branch-Sized x s) (branch-Sized y t) (omega arith) (rw even at e)) [
            | inl h ↦ elim (branch-parts x s y t hx hy h) [
              | inl parts ↦ inl parts.0
              | inr c ↦ inr c
            ]
            | inr c ↦ inr c
          ]
    | inr odd ↦
        elim (climb-injective ss ts (branch sha256 s x) (branch sha256 t y) (i / 2) hs.1 ht.1
          (branch-Sized s x) (branch-Sized t y) (omega arith) (rw odd at e)) [
            | inl h ↦ elim (branch-parts s x t y hs.0 ht.0 h) [
              | inl parts ↦ inl parts.1
              | inr c ↦ inr c
            ]
            | inr c ↦ inr c
          ]
  ]

  -- A proof over as many leaves as the list has is accepted against the root of the list only for
  -- the leaf at its index, or it comes with two byte strings of one SHA-256 hash; the leaves of the
  -- list, the leaf, the siblings of the proof and the results of SHA-256 are of 32 bytes.
  pub verify_sound :
      (leaves : List Hash) (leaf_hash : Hash) (p : Proof)
      → All Sized leaves
      → Sized leaf_hash
      → All Sized p.siblings
      → p.leaf_count ≡ length leaves
      → verify sha256 (root sha256 leaves) leaf_hash p ≡ true
      → (leaf_hash ≡ get_or_empty leaves p.index) ⊎ HashCollision sha256
  unfolding padded
  verify_sound leaves leaf_hash p sizes leaf_size sibling_sizes count e =
      let (k0, width0, _) = next_power_of_two-pow p.leaf_count in
      let (inside, _, _) = (verify_iff sha256 (root sha256 leaves) leaf_hash p k0 width0).0 e in
      let (k, width, fits, tree_root) = root-tree sha256 leaves (omega arith) in
      let (_, depth, reached) =
        (verify_iff sha256 (root sha256 leaves) leaf_hash p k
            (ap next_power_of_two count ∙ width)).0
          e in
      let level = padded sha256 leaves (2 ^ k) in
      let whole = length-padded sha256 leaves (2 ^ k) fits in
      let same_leaf : get_or_empty level p.index ≡ get_or_empty leaves p.index =
        get-append leaves _ p.index (omega arith) in
      elim (climb-injective p.siblings (path sha256 k p.index level) leaf_hash
        (get_or_empty level p.index) p.index sibling_sizes
        (path-Sized k p.index level whole (omega arith) (padded-Sized leaves (2 ^ k) sizes))
        leaf_size
        (get_or_empty-Sized level p.index (padded-Sized leaves (2 ^ k) sizes) (omega arith))
        (depth ∙ sym (length-path sha256 k p.index level))
        (reached ∙ tree_root ∙ sym (climb-path sha256 k p.index level whole (omega arith)))) [
          | inl h ↦ inl (h ∙ same_leaf)
          | inr c ↦ inr c
        ]
