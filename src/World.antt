-- ===== src/World.antt =====
-- The store of objects in memory, internal/v2/worldstate/store.go: a Go map of objects beside the sparse
-- Merkle tree of their hashes. The copies that the source makes of object data are the values themselves.
pub mod Changes
pub mod Commits
pub mod Reach
pub mod Lookups
pub mod Admits
use zephyr_chain.Base.{
  Bool, true, false, not, ◌&&◌, ◌||◌, Option, none, some, List, [], ◌∷◌, if◌then◌else◌, Bytes,
  bytes_eq, Keyed_Bytes, lookup, erase, insert, Error, Result, ok, err, fail_if, ◌>>◌, ◌>>=◌,
  object_not_found, object_exists,
}
use zephyr_chain.Types.{Hash, ObjectId}
use zephyr_chain.Object.{Object, validate, object_hash}
use zephyr_chain.State.{Tree, Proof, new_tree}
use zephyr_chain.State
use zephyr_chain.State.Order.{Updates}

abbrev pub Objects : Type 0
Objects = List (ObjectId × Object)

-- `Memory`
pub record MemoryStore : Type 0 where
  pub tree : Tree
  pub objects : Objects

-- `NewMemory`
abbrev pub new_memory : MemoryStore
new_memory = record { tree = new_tree; objects = [] }

abbrev pub get_object : MemoryStore → ObjectId → Option Object
get_object m id = lookup m.objects id

-- `_, ok := seen[id]`
unfoldable pub seen_in : ObjectId → List ObjectId → Bool
unfolding bytes_eq
seen_in id [] = false
seen_in id (x ∷ xs) = bytes_eq x id || seen_in id xs

abbrev pub held : Objects → ObjectId → Bool
held objects id = elim (lookup objects id) [ none ↦ false | some _ ↦ true ]

-- The first loop of `Apply`.
unfoldable pub check_consumed : Objects → List ObjectId → List ObjectId → Result (Unit {0})
unfolding seen_in
check_consumed objects seen [] = ok tt
check_consumed objects seen (id ∷ consumed) =
    fail_if (seen_in id seen) object_not_found
    >> (fail_if (not (held objects id)) object_not_found
        >> check_consumed objects (id ∷ seen) consumed)

-- The second loop of `Apply`.
unfoldable pub check_created :
    Objects → List ObjectId → List ObjectId → List Object → Result (Unit {0})
unfolding validate seen_in
check_created objects consumed seen [] = ok tt
check_created objects consumed seen (o ∷ created) =
    validate o
    >> (fail_if (seen_in o.id seen) object_exists
        >> (fail_if (held objects o.id && not (seen_in o.id consumed)) object_exists
            >> check_created objects consumed (o.id ∷ seen) created))

-- The two loops that change the objects, and what they enter into `updates`.
unfoldable pub remove_consumed : List ObjectId → Objects → Objects
remove_consumed [] objects = objects
remove_consumed (id ∷ consumed) objects = remove_consumed consumed (erase objects id)

unfoldable pub put_created : List Object → Objects → Objects
put_created [] objects = objects
put_created (o ∷ created) objects = put_created created (insert objects o.id o)

unfoldable pub consumed_updates : List ObjectId → Updates → Updates
consumed_updates [] updates = updates
consumed_updates (id ∷ consumed) updates = consumed_updates consumed (insert updates id none)

module _ (sha256 : Bytes → Bytes) where
  unfoldable pub created_updates : List Object → Updates → Updates
  unfolding object_hash
  created_updates [] updates = updates
  created_updates (o ∷ created) updates =
      created_updates created (insert updates o.id (some (object_hash sha256 o)))

  -- `Apply` of a transition that has passed the checks.
  unfoldable pub commit : List ObjectId → List Object → MemoryStore → MemoryStore
  unfolding remove_consumed put_created consumed_updates created_updates State.apply
  commit consumed created m = record {
    tree = State.apply sha256 (created_updates created (consumed_updates consumed [])) m.tree;
    objects = put_created created (remove_consumed consumed m.objects);
  }

  -- The store after `Apply`, and the error it returned.
  unfoldable pub apply : List ObjectId → List Object → MemoryStore → MemoryStore × Result (Unit {0})
  unfolding check_consumed check_created commit
  apply consumed created m =
      elim (check_consumed m.objects [] consumed >> check_created m.objects consumed [] created) [
        | ok _ ↦ (commit consumed created m, ok tt)
        | err e ↦ (m, err e)
      ]

  -- `Root`, which `Apply` returns with and without an error.
  abbrev pub root : MemoryStore → Hash
  root m = State.root sha256 m.tree

  -- `Proof`, without the flag that says whether there is an object.
  unfoldable pub prove : MemoryStore → ObjectId → Option Object × Proof
  unfolding State.prove
  prove m id = (get_object m id, State.prove sha256 m.tree id)
