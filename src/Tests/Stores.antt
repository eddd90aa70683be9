-- ===== src/Tests/Stores.antt =====
-- The store of objects on one object.
use zephyr_chain.Base.{
  ◌↔◌, ◌≡◌, refl, true, some, none, [], ◌∷◌, All, ok, err, if◌then◌else◌, object_exists,
}
use mathlib.Core.Path.{subst}
use zephyr_chain.Types.{ObjectId, IsHash}
use zephyr_chain.Object.{Object, object_hash}
use zephyr_chain.State
use zephyr_chain.State.Binding.{Sized}
use zephyr_chain.State.Honest.{prove-Sized-Sound}
use zephyr_chain.World.{MemoryStore, new_memory, apply, get_object, seen_in, prove, root}
use zephyr_chain.World.Changes.{last_created}
use zephyr_chain.World.Commits.{Consistent, hash_of}
use zephyr_chain.World.Reach.{Reachable, start, step, Reachable-Consistent, verify-prove_stored}
use zephyr_chain.World.Lookups.{get_object-apply}
use zephyr_chain.Base.{or_else}
use zephyr_chain.World.Admits.{Admissible, apply-eq-ok_iff}
use zephyr_chain.Tests.Common.{toy_sha256, toy_sized, IsBytes-of}
use zephyr_chain.Tests.Objects.{thing}

abbrev pub store : MemoryStore
store = (apply toy_sha256 [] (thing ∷ []) new_memory).0

pub thing-IsHash : IsHash thing.id
thing-IsHash = (refl, IsBytes-of thing.id refl)

pub store-Reachable : Reachable toy_sha256 store
store-Reachable = step [] (thing ∷ []) tt (thing-IsHash, tt) start

Reachable-Consistent_example : Consistent toy_sha256 store
Reachable-Consistent_example = Reachable-Consistent toy_sha256 store store-Reachable

created-accepted : (apply toy_sha256 [] (thing ∷ []) new_memory).1 ≡ ok tt
unfolding apply zephyr_chain.Types.is_zero32 zephyr_chain.Object.marshal_coin
    zephyr_chain.Codec.BigEndian.put_u64
created-accepted = refl

get_object-apply_example :
    All (λ (o : Object). get_object store o.id ≡ some o) (thing ∷ [])
    × (get_object store thing.id
        ≡ or_else
            (last_created (thing ∷ []) thing.id)
            (if seen_in thing.id [] then none else get_object new_memory thing.id))
get_object-apply_example =
    get_object-apply toy_sha256 [] (thing ∷ []) new_memory thing.id created-accepted

twice-refused : (apply toy_sha256 [] (thing ∷ thing ∷ []) new_memory).1 ≡ err object_exists
unfolding apply zephyr_chain.Types.is_zero32 zephyr_chain.Object.marshal_coin
    zephyr_chain.Codec.BigEndian.put_u64
twice-refused = refl

found-thing : get_object store thing.id ≡ some thing
found-thing = (get_object-apply toy_sha256 [] (thing ∷ []) new_memory thing.id created-accepted).0.0

abbrev pub thing_proof : State.Proof
thing_proof = State.prove toy_sha256 store.tree thing.id

pub thing_proof-Sized : All Sized thing_proof.siblings
thing_proof-Sized =
    prove-Sized-Sound toy_sha256 toy_sized store.tree thing.id
      (Reachable-Consistent toy_sha256 store store-Reachable).sound thing-IsHash

pub thing-verifies :
    State.verify toy_sha256
      (root toy_sha256 store)
      thing.id
      (some (object_hash toy_sha256 thing))
      thing_proof
    ≡ true
unfolding prove
thing-verifies =
    subst
      (λ o.
        State.verify toy_sha256 (root toy_sha256 store) thing.id (hash_of toy_sha256 o) thing_proof
        ≡ true)
      found-thing (verify-prove_stored toy_sha256 store thing.id store-Reachable thing-IsHash)

apply-eq-ok_iff_example :
    ((apply toy_sha256 [] (thing ∷ thing ∷ []) new_memory).1 ≡ ok tt)
    ↔ Admissible new_memory.objects [] (thing ∷ thing ∷ [])
apply-eq-ok_iff_example = apply-eq-ok_iff toy_sha256 [] (thing ∷ thing ∷ []) new_memory
