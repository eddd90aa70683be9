-- ===== src/Sharding.antt =====
-- Routing, global headers and cross-shard receipts, internal/v2/sharding/sharding.go.
use zephyr_chain.Base.{
  ℕ, ◌||◌, leb, ◌==◌, if◌then◌else◌, Bytes, codes, Result, ok, err, checked, shard_count, receipt,
}
use zephyr_chain.Codec.Writer
use zephyr_chain.Codec.Writer.{◌▷◌}
use zephyr_chain.Codec.Hash.{domain_hash}
use zephyr_chain.Types.{
  Hash, NetworkId, AccountId, ObjectId, is_zero32, account_shard, object_shard, object_id_for_shard,
}
use zephyr_chain.Object
use zephyr_chain.Object.{Object, OutputSpec}

-- `Router.ShardForAccount`; the router is its shard count.
unfoldable pub shard_for_account : ℕ → AccountId → Result ℕ
shard_for_account count account =
    if count == 0 || is_zero32 account then err shard_count else ok (account_shard account count)

-- `Router.ShardForObject`
unfoldable pub shard_for_object : ℕ → ObjectId → Result ℕ
shard_for_object count id =
    if count == 0 || is_zero32 id
    then err shard_count
    else if leb count (object_shard id)
    then err shard_count
    else ok (object_shard id)

pub record GlobalHeader : Type 0 where
  pub version : ℕ
  pub network : NetworkId
  pub height : ℕ
  pub parent_hash : Hash
  pub shard_commitment_root : Hash
  pub validator_root : Hash
  pub next_validator_root : Hash
  pub data_root : Hash
  pub certificate_hash : Hash

-- A zero next root keeps the validators.
unfoldable pub effective_next_validator_root : GlobalHeader → Hash
effective_next_validator_root h =
    if is_zero32 h.next_validator_root then h.validator_root else h.next_validator_root

unfoldable pub header_bytes : GlobalHeader → Bytes
header_bytes h = Writer.bytes_copy (
    Writer.empty
    ▷ Writer.u16 h.version
    ▷ Writer.fixed h.network
    ▷ Writer.u64 h.height
    ▷ Writer.fixed h.parent_hash
    ▷ Writer.fixed h.shard_commitment_root
    ▷ Writer.fixed h.validator_root
    ▷ Writer.fixed h.next_validator_root
    ▷ Writer.fixed h.data_root
    ▷ Writer.fixed h.certificate_hash)

pub record CrossShardReceipt : Type 0 where
  pub source_shard : ℕ
  pub destination_shard : ℕ
  pub source_height : ℕ
  pub transaction_id : Hash
  pub output_index : ℕ
  pub output : OutputSpec
  pub source_state_root : Hash

unfoldable pub validate_receipt : CrossShardReceipt → Result (Unit {0})
validate_receipt r =
    if r.source_shard == r.destination_shard
      || r.source_height == 0
      || is_zero32 r.transaction_id
      || is_zero32 r.source_state_root
    then err receipt
    else Object.validate_output r.output

unfoldable pub receipt_bytes : CrossShardReceipt → Result Bytes
receipt_bytes r = checked (validate_receipt r) (
    Writer.bytes_copy (
      Writer.empty
      ▷ Writer.u32 r.source_shard
      ▷ Writer.u32 r.destination_shard
      ▷ Writer.u64 r.source_height
      ▷ Writer.fixed r.transaction_id
      ▷ Writer.u32 r.output_index
      ▷ Writer.bytes (Object.canonical_output r.output)
      ▷ Writer.fixed r.source_state_root))

module _ (sha256 : Bytes → Bytes) where
  unfoldable pub header_hash : GlobalHeader → Hash
  header_hash h = domain_hash sha256 (codes "zephyr/global-header/v2") (header_bytes h)

  -- The object that the receipt creates on its destination shard.
  unfoldable pub destination_object : CrossShardReceipt → Result Object
  destination_object r = checked (validate_receipt r) (record {
    id = object_id_for_shard sha256 r.transaction_id r.output_index r.destination_shard;
    version = 1;
    owner = r.output.owner;
    kind = r.output.kind;
    payload = r.output.payload;
  })
