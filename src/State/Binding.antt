-- ===== src/State/Binding.antt =====
-- `Verify` for an attacker who chooses the proof: one key and one root have one value, as far as SHA-256
-- has no collision.
use zephyr_chain.Base.{
  ℕ, zero, suc, ◌-◌, ◌%◌, ◌^◌, ◌≡◌, ◌≢◌, refl, sym, ◌∙◌, ap, Bool, true, false, Option, none, some,
  List, [], ◌∷◌, ◌++◌, arith, inl, inr, ◌⊎◌, append-parts, Bool-cases, and_parts, length-append,
  Bytes, length, bytes_eq_iff, All, Keyed_Bytes, codes,
}
use zephyr_chain.Codec.BigEndian.{put_u32, length-put_u32}
use zephyr_chain.Codec.Writer
use zephyr_chain.Codec.Hash.{
  HashCollision, domain_frame, domain_hash, domain_hash-cases, domain_hash-payload,
}
use zephyr_chain.Types.{Hash}
use zephyr_chain.State.{
  Proof, bit_at, bitmap_bit, default_hash, empty_hash, leaf_hash, branch_hash, join, climb,
  next_sibling, verify, start_hash, reaches,
}
use zephyr_chain.State.Membership.{climb-step}

-- A hash or a sibling of 32 bytes, as the source's arrays are.
abbrev pub Sized : Hash → Type 0
Sized h = length h ≡ 32

-- The low byte of the length that a frame starts with.
abbrev fourth : Bytes → ℕ
fourth (a ∷ b ∷ c ∷ d ∷ rest) = d
fourth _ = 0

module _ (sha256 : Bytes → Bytes) (sized : (x : Bytes) → length (sha256 x) ≡ 32) where
  branch_hash-parts :
      (a b c d : Hash)
      → Sized a
      → Sized c
      → branch_hash sha256 a b ≡ branch_hash sha256 c d
      → ((a ≡ c) × (b ≡ d)) ⊎ HashCollision sha256
  unfolding branch_hash
  branch_hash-parts a b c d ha hc e =
      elim (domain_hash-payload sha256 (codes "zephyr/smt/branch/v2") (a ++ b) (c ++ d) e) [
        | inl h ↦ inl (append-parts a b c d (ha ∙ sym hc) h)
        | inr collision ↦ inr collision
      ]

  join-injective :
      (bit : Bool) (x y s t : Hash)
      → Sized x
      → Sized y
      → Sized s
      → Sized t
      → join sha256 bit x s ≡ join sha256 bit y t
      → (x ≡ y) ⊎ HashCollision sha256
  unfolding join
  join-injective false x y s t hx hy hs ht e = elim (branch_hash-parts x s y t hx hy e) [
    | inl h ↦ inl h.0
    | inr c ↦ inr c
  ]
  join-injective true x y s t hx hy hs ht e = elim (branch_hash-parts s x t y hs ht e) [
    | inl h ↦ inl h.1
    | inr c ↦ inr c
  ]

  join-Sized : (bit : Bool) (x s : Hash) → Sized (join sha256 bit x s)
  unfolding join branch_hash domain_hash
  join-Sized false x s = sized _
  join-Sized true x s = sized _

  pub empty_hash-Sized : (n : ℕ) → Sized (empty_hash sha256 n)
  unfolding empty_hash branch_hash domain_hash
  empty_hash-Sized zero = sized _
  empty_hash-Sized (suc n) = sized _

  start_hash-Sized : (key : Hash) (value : Option Bytes) → Sized (start_hash sha256 key value)
  unfolding leaf_hash domain_hash default_hash
  start_hash-Sized key none = empty_hash-Sized 0
  start_hash-Sized key (some value) = sized _

  -- The sibling at a depth is sized, and so are those that are left.
  next_sibling-cases :
      (d : ℕ) (bitmap : Bytes) (siblings : List Hash)
      → All Sized siblings
      → (next_sibling sha256 d bitmap siblings ≡ none)
        ⊎ ((s : Hash) × (rest : List Hash) × (next_sibling sha256 d bitmap siblings
              ≡ some (s, rest))
            × Sized s
            × All Sized rest)
  unfolding next_sibling default_hash
  next_sibling-cases d bitmap [] h = elim (Bool-cases (bitmap_bit (255 - d) bitmap)) [
    | inl set ↦ inl (rw set refl)
    | inr clear ↦ inr (default_hash sha256 (suc d), [], rw clear refl, empty_hash-Sized _, tt)
  ]
  next_sibling-cases d bitmap (s ∷ siblings) h = elim (Bool-cases (bitmap_bit (255 - d) bitmap)) [
    | inl set ↦ inr (s, siblings, rw set refl, h.0, h.1)
    | inr clear ↦
        inr (default_hash sha256 (suc d), s ∷ siblings, rw clear refl, empty_hash-Sized _, h)
  ]

  climb-stop :
      (key : Hash) (bitmap : Bytes) (d : ℕ) (siblings : List Hash) (current : Hash)
      → next_sibling sha256 d bitmap siblings ≡ none
      → climb sha256 key bitmap (suc d) siblings current ≡ none
  unfolding climb
  climb-stop key bitmap d siblings current h = rw (h, climb) refl

  climb-injective :
      (key : Hash) (bitmap bitmap' : Bytes) (d : ℕ) (siblings siblings' : List Hash) (x y r : Hash)
      → All Sized siblings
      → All Sized siblings'
      → Sized x
      → Sized y
      → climb sha256 key bitmap d siblings x ≡ some r
      → climb sha256 key bitmap' d siblings' y ≡ some r
      → (x ≡ y) ⊎ HashCollision sha256
  unfolding climb
  climb-injective key bm bm' zero [] [] x y r hs ht hx hy e f = inl cc
  climb-injective key bm bm' zero [] (t ∷ ts) x y r hs ht hx hy e f = absurd cc
  climb-injective key bm bm' zero (s ∷ ss) ts x y r hs ht hx hy e f = absurd cc
  climb-injective key bm bm' (suc d) ss ts x y r hs ht hx hy e f =
      elim (next_sibling-cases d bm ss hs) [
        | inl out ↦ absurd (no_result _ r (climb-stop key bm d ss x out) e)
        | inr (s, rest, next, hs', hrest) ↦ elim (next_sibling-cases d bm' ts ht) [
          | inl out ↦ absurd (no_result _ r (climb-stop key bm' d ts y out) f)
          | inr (t, rest', next', ht', hrest') ↦
              elim (climb-injective key bm bm' d rest rest' (join sha256 (bit_at key d) x s)
                (join sha256 (bit_at key d) y t) r hrest hrest' (join-Sized (bit_at key d) x s)
                (join-Sized (bit_at key d) y t)
                (sym (climb-step sha256 key bm d ss x s rest next) ∙ e)
                (sym (climb-step sha256 key bm' d ts y t rest' next') ∙ f)) [
                  | inl same ↦ join-injective (bit_at key d) x y s t hx hy hs' ht' same
                  | inr c ↦ inr c
                ]
        ]
      ]
    where
      no_result : (o : Option Hash) (r : Hash) → o ≡ none → o ≡ some r → ⊥
      no_result o r a b = cc

  -- The frames of an empty leaf and of a leaf differ in the length of their domains.
  empty-leaf :
      (payload : Bytes)
      → domain_frame (codes "zephyr/smt/empty-leaf/v2") []
        ≢ domain_frame (codes "zephyr/smt/leaf/v2") payload
  unfolding domain_frame put_u32 codes
  empty-leaf payload e = let differ : 24 ≡ 18 = ap fourth e in omega (arith, differ)

  leaf_hash-injective :
      (key : Hash) (v w : Bytes)
      → leaf_hash sha256 key v ≡ leaf_hash sha256 key w
      → (v ≡ w) ⊎ HashCollision sha256
  unfolding leaf_hash Writer.bytes_copy
  leaf_hash-injective key v w e =
      elim (domain_hash-payload sha256 (codes "zephyr/smt/leaf/v2")
        ((key ++ put_u32 (length v % 2 ^ 32)) ++ v) ((key ++ put_u32 (length w % 2 ^ 32)) ++ w) e) [
          | inl h ↦ inl (append-parts _ v _ w (prefix v w) h).1
          | inr c ↦ inr c
        ]
    where
      prefix :
          (v w : Bytes)
          → length (key ++ put_u32 (length v % 2 ^ 32))
            ≡ length (key ++ put_u32 (length w % 2 ^ 32))
      prefix v w = omega (
        arith,
        length-append key (put_u32 (length v % 2 ^ 32)),
        length-append key (put_u32 (length w % 2 ^ 32)),
        length-put_u32 (length v % 2 ^ 32),
        length-put_u32 (length w % 2 ^ 32),
      )

  empty_leaf-other :
      (key : Hash) (v : Bytes)
      → default_hash sha256 256 ≡ leaf_hash sha256 key v
      → HashCollision sha256
  unfolding leaf_hash default_hash empty_hash
  empty_leaf-other key v e =
      elim (domain_hash-cases sha256 (codes "zephyr/smt/empty-leaf/v2") (codes "zephyr/smt/leaf/v2")
        [] _ e) [ inl h ↦ absurd (empty-leaf _ h) | inr c ↦ c ]

  start_hash-injective :
      (key : Hash) (v w : Option Bytes)
      → start_hash sha256 key v ≡ start_hash sha256 key w
      → (v ≡ w) ⊎ HashCollision sha256
  start_hash-injective key none none e = inl refl
  start_hash-injective key none (some w) e = inr (empty_leaf-other key w e)
  start_hash-injective key (some v) none e = inr (empty_leaf-other key v (sym e))
  start_hash-injective key (some v) (some w) e = elim (leaf_hash-injective key v w e) [
    | inl h ↦ inl (ap some h)
    | inr c ↦ inr c
  ]

  verify-reached :
      (root_hash key : Hash) (value : Option Bytes) (p : Proof)
      → verify sha256 root_hash key value p ≡ true
      → climb sha256 key p.bitmap 256 p.siblings (start_hash sha256 key value) ≡ some root_hash
  unfolding verify
  verify-reached root_hash key value p e = reached _ (and_parts _ _ e).1
    where
      reached : (o : Option Hash) → reaches sha256 root_hash o ≡ true → o ≡ some root_hash
      reached none h = absurd cc
      reached (some h) k = ap some ((bytes_eq_iff h root_hash).0 k)

  -- Two proofs that `Verify` accepts for one key and one root are of one value, or of no value both, or they
  -- come with two byte strings of one SHA-256 hash; the siblings of both are of 32 bytes, as a parsed proof's
  -- are, and so are the results of SHA-256.
  pub verify-binding :
      (root_hash key : Hash) (value value' : Option Bytes) (p q : Proof)
      → All Sized p.siblings
      → All Sized q.siblings
      → verify sha256 root_hash key value p ≡ true
      → verify sha256 root_hash key value' q ≡ true
      → (value ≡ value') ⊎ HashCollision sha256
  verify-binding root_hash key value value' p q hp hq e f =
      elim (climb-injective key p.bitmap q.bitmap 256 p.siblings q.siblings
        (start_hash sha256 key value) (start_hash sha256 key value') root_hash hp hq
        (start_hash-Sized key value) (start_hash-Sized key value')
        (verify-reached root_hash key value p e) (verify-reached root_hash key value' q f)) [
          | inl same ↦ start_hash-injective key value value' same
          | inr c ↦ inr c
        ]
