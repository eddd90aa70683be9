-- ===== src/World/Reach.antt =====
-- The stores that calls of `Apply` make out of an empty one, and what a witness taken from one of them, or
-- shown against its root, says of its objects.
use zephyr_chain.Base.{
  ◌≡◌, refl, ◌∙◌, true, ◌⊎◌, some, List, Bytes, Keyed_Bytes, inl, inr, All, length,
}
use mathlib.Core.Path.{subst}
use zephyr_chain.Codec.Hash.{HashCollision}
use zephyr_chain.Types.{ObjectId, IsHash}
use zephyr_chain.Object.{Object, object_hash}
use zephyr_chain.State.{Proof}
use zephyr_chain.State
use zephyr_chain.State.Order.{new_tree-Sound}
use zephyr_chain.State.Binding.{Sized}
use zephyr_chain.State.Membership.{verify-prove-Sound}
use zephyr_chain.State.Honest.{verify-root-Sound}
use zephyr_chain.World.{MemoryStore, new_memory, get_object, apply, prove, root}
use zephyr_chain.World.Commits.{Consistent, apply-Consistent, hash_of}

module _ (sha256 : Bytes → Bytes) where
  -- A store after any calls of `Apply`, refused ones included.
  pub data Reachable : MemoryStore → Type 0 where
    start : Reachable new_memory
    step :
        {m : MemoryStore} (consumed : List ObjectId) (created : List Object)
        → All IsHash consumed
        → All (λ (o : Object). IsHash o.id) created
        → Reachable m
        → Reachable (apply sha256 consumed created m).0

  new_memory-Consistent : Consistent sha256 new_memory
  new_memory-Consistent = record {
    sound = new_tree-Sound sha256;
    committed = λ id. refl;
    kept = λ id o e. cc;
  }

  -- After any calls of `Apply` on an empty store, with identifiers of 32 bytes, the nodes of the tree are what
  -- its values determine, the tree has for each identifier the hash of the stored object and nothing where
  -- there is none, and every stored object is valid and stands under its own identifier.
  pub Reachable-Consistent : (m : MemoryStore) → Reachable m → Consistent sha256 m
  Reachable-Consistent _ start = new_memory-Consistent
  Reachable-Consistent _ (step {m} consumed created hc hd before) =
      apply-Consistent sha256 consumed created m hc hd (Reachable-Consistent m before)

  -- The proof that a reachable store gives for an identifier of 32 bytes is accepted against its root, with
  -- the hash of the stored object, or with no value where there is none.
  pub verify-prove_stored :
      (m : MemoryStore) (id : ObjectId)
      → Reachable m
      → IsHash id
      → State.verify sha256
          (root sha256 m)
          id
          (hash_of sha256 (prove sha256 m id).0)
          (prove sha256 m id).1
        ≡ true
  unfolding prove
  verify-prove_stored m id reached h =
      let consistent = Reachable-Consistent m reached in
      subst (λ v. State.verify sha256 (root sha256 m) id v (State.prove sha256 m.tree id) ≡ true)
        (consistent.committed id) (verify-prove-Sound sha256 m.tree id consistent.sound h)

  -- A proof with siblings of 32 bytes that is accepted for the hash of an object against the root of a
  -- reachable store shows that the store has an object of that hash under the identifier, or comes with two
  -- byte strings of one SHA-256 hash; the results of SHA-256 are of 32 bytes.
  pub verify-stored :
      ((x : Bytes) → length (sha256 x) ≡ 32)
      → (m : MemoryStore) (id : ObjectId) (o : Object) (p : Proof) → Reachable m
      → IsHash id
      → All Sized p.siblings
      → State.verify sha256 (root sha256 m) id (some (object_hash sha256 o)) p ≡ true
      → (some (object_hash sha256 o) ≡ hash_of sha256 (get_object m id)) ⊎ HashCollision sha256
  verify-stored sized m id o p reached h hp e =
      let consistent = Reachable-Consistent m reached in
      elim (verify-root-Sound sha256 sized m.tree id (some (object_hash sha256 o)) p
        consistent.sound h hp e) [ inl same ↦ inl (same ∙ consistent.committed id) | inr c ↦ inr c ]
