-- ===== src/Types.antt =====
-- Identifiers, internal/v2/types/types.go. The `[32]byte` types (Hash, NetworkID, AccountID, NodeID,
-- ValidatorID, ObjectID, TokenID, ContractID, JobID) are byte strings; that one has 32 bytes is the
-- predicate `IsHash`. Hash functions take SHA-256 as their first argument.
pub mod Shards
use zephyr_chain.Base.{
  refl, arith, zero, suc, ℕ, ◌+◌, ◌≤◌, ◌%◌, ◌≡◌, Bool, ◌++◌, leb, if◌then◌else◌, Bytes, IsBytes,
  length, take, drop, replicate, bytes_eq, codes,
}
use zephyr_chain.Codec.BigEndian.{put_u32, word_from}
use zephyr_chain.Codec.Writer
use zephyr_chain.Codec.Writer.{◌▷◌}
use zephyr_chain.Codec.Hash.{domain_hash}

abbrev pub Hash : Type 0
Hash = Bytes

abbrev pub AccountId : Type 0
AccountId = Bytes

abbrev pub ValidatorId : Type 0
ValidatorId = Bytes

abbrev pub NetworkId : Type 0
NetworkId = Bytes

abbrev pub ObjectId : Type 0
ObjectId = Bytes

abbrev pub TokenId : Type 0
TokenId = Bytes

-- A value that a `[32]byte` can hold.
abbrev pub IsHash : Bytes → Type 0
IsHash v = (length v ≡ 32) × IsBytes v

abbrev pub zero_hash : Bytes
zero_hash = replicate 32 0

zeros-IsBytes : (n : ℕ) → IsBytes (replicate n 0)
zeros-IsBytes zero = tt
zeros-IsBytes (suc n) = (omega arith, zeros-IsBytes n)

pub zero_hash-IsHash : IsHash zero_hash
zero_hash-IsHash = (refl, zeros-IsBytes 32)

unfoldable pub is_zero32 : Bytes → Bool
unfolding bytes_eq
is_zero32 v = bytes_eq v zero_hash

-- `AccountShard`: the first eight bytes of the account, modulo the count of shards.
unfoldable pub account_shard : AccountId → ℕ → ℕ
unfolding word_from
account_shard account shard_count =
    if leb shard_count 1 then 0 else word_from 0 (take 8 account) % shard_count

-- `ObjectShard`: the first four bytes of the object's identifier.
unfoldable pub object_shard : ObjectId → ℕ
unfolding word_from
object_shard id = word_from 0 (take 4 id)

module _ (sha256 : Bytes → Bytes) where
  unfoldable pub hash_bytes : Bytes → Bytes → Hash
  hash_bytes domain payload = domain_hash sha256 domain payload

  unfoldable pub account_id_from_public_key : Bytes → AccountId
  account_id_from_public_key key = domain_hash sha256 (codes "zephyr/account-id/v2") key

  unfoldable pub validator_id_from_public_key : Bytes → ValidatorId
  validator_id_from_public_key key = domain_hash sha256 (codes "zephyr/validator-id/v2") key

  -- `ObjectIDForShard`: the hash of the transaction and the index, with the shard written over
  -- its first four bytes.
  unfoldable pub object_id_for_shard : Hash → ℕ → ℕ → ObjectId
  object_id_for_shard tx_id index shard_id =
      let w = Writer.empty ▷ Writer.fixed tx_id ▷ Writer.u32 index ▷ Writer.u32 shard_id in
      let hash = domain_hash sha256 (codes "zephyr/object-id/v2") (Writer.bytes_copy w) in
      put_u32 shard_id ++ drop 4 hash

  unfoldable pub object_id_from_transaction : Hash → ℕ → ObjectId
  object_id_from_transaction tx_id index = object_id_for_shard tx_id index 0

  unfoldable pub token_id_from_transaction : Hash → ℕ → TokenId
  token_id_from_transaction tx_id index =
      let w = Writer.empty ▷ Writer.fixed tx_id ▷ Writer.u32 index in
      domain_hash sha256 (codes "zephyr/token-id/v2") (Writer.bytes_copy w)
