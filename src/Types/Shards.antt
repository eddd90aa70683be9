-- ===== src/Types/Shards.antt =====
-- The shards of accounts and objects, internal/v2/types/types.go.
use zephyr_chain.Base.{ℕ, ◌≤◌, ◌<◌, ◌≡◌, refl, ◌++◌, arith, Bytes, take}
use zephyr_chain.Codec.BigEndian.{IsU32, put_u32, word-put_u32}
use zephyr_chain.Types.{AccountId, Hash, object_shard, object_id_for_shard, account_shard}

take-put_u32 : (v : ℕ) (rest : Bytes) → take 4 (put_u32 v ++ rest) ≡ put_u32 v
unfolding put_u32
take-put_u32 v rest = refl

-- The identifier of an object records the shard that it was created for, whatever the hash gives.
pub object_shard-object_id_for_shard :
    (sha256 : Bytes → Bytes) (tx_id : Hash) (index shard_id : ℕ)
    → IsU32 shard_id
    → object_shard (object_id_for_shard sha256 tx_id index shard_id) ≡ shard_id
unfolding object_shard object_id_for_shard
object_shard-object_id_for_shard sha256 tx_id index shard_id h =
    rw take-put_u32 (word-put_u32 shard_id h)

-- An account's shard is one of the network's shards, of which there is at least one.
pub account_shard-lt :
    (account : AccountId) (shard_count : ℕ)
    → 1 ≤ shard_count
    → account_shard account shard_count < shard_count
unfolding account_shard
account_shard-lt account shard_count h = ground arith
