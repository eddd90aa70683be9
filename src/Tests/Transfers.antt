-- ===== src/Tests/Transfers.antt =====
-- Transactions with one coin.
use zephyr_chain.Base.{
  ℕ, ◌+◌, ◌≡◌, ◌⊎◌, refl, true, not, ◌&&◌, ◌==◌, List, [], ◌∷◌, Bytes, IsBytes, All, ok, err,
  Result, if◌then◌else◌, bytes_eq, bytes_eq_iff, arith,
}
use zephyr_chain.Codec.BigEndian.{IsU64}
use zephyr_chain.Codec.Hash.{HashCollision}
use zephyr_chain.Types.{Hash}
use zephyr_chain.Object
use zephyr_chain.Object.{OutputSpec, Coin, marshal_coin, object_hash}
use zephyr_chain.Consensus.Validators.{Crypto}
use zephyr_chain.World.{root}
use zephyr_chain.Transactions.{Transaction, Witness, verify_witnesses, op_transfer}
use zephyr_chain.Transactions.Witnessed.{StoredIn, verify_witnesses-stored}
use zephyr_chain.Execution.{Engine, Outcome, execute_transfer}
use zephyr_chain.Execution.Totals.{witnessed_value, created_value, outbound_value}
use zephyr_chain.Execution.Gathers.{coin_ids, OwnedBy}
use zephyr_chain.Execution.Conserves.{execute_transfer-conserves, execute_transfer-owned}
use zephyr_chain.Tests.Common.{toy_sha256, toy_sized, filled, IsBytes-of}
use zephyr_chain.Tests.Objects.{thing, purse-IsBytes}
use zephyr_chain.Tests.Tokens.{gold_wire}
use zephyr_chain.Tests.Stores.{
  store, store-Reachable, thing_proof, thing_proof-Sized, thing-IsHash, thing-verifies,
}

abbrev toy_crypto : Crypto
toy_crypto = record {
  sha256 = toy_sha256;
  on_curve = λ key. true;
  ecdsa_verify = λ key digest r s. true;
  order = 1000;
}

abbrev native_engine : Engine
native_engine = record { network = filled 7; native_token = filled 3; shard_count = 1; height = 50 }

abbrev coin_of : ℕ → Coin
coin_of n = record { token = filled 3; amount = n; created_height = 0 }

abbrev spent : Witness
spent = record { object = thing; proof = thing_proof }

abbrev payment : OutputSpec
payment = record { owner = filled 5; kind = 1; payload = marshal_coin (coin_of 600) }

abbrev change : OutputSpec
change = record { owner = filled 4; kind = 1; payload = marshal_coin (coin_of 390) }

abbrev transfer : Transaction
transfer = record {
  version = 2;
  network = filled 7;
  shard_id = 0;
  sender = filled 4;
  sender_public_key = [];
  state_root = root toy_sha256 store;
  inputs =
      (record { object_id = thing.id; version = 2; object_hash = object_hash toy_sha256 thing })
      ∷ [];
  outputs = payment ∷ change ∷ [];
  operations = (record { kind = op_transfer; payload = [] }) ∷ [];
  fee = 10;
  valid_until_height = 0;
  salt = filled 1;
  signature = [];
  witnesses = spent ∷ [];
}

abbrev outcome : Outcome
outcome = elim (execute_transfer toy_crypto native_engine transfer) [
  | ok r ↦ r
  | err _ ↦ record { consumed = []; created = []; outbound = []; tx_id = [] }
]

transfer-executes : execute_transfer toy_crypto native_engine transfer ≡ ok outcome
unfolding execute_transfer zephyr_chain.Base.bytes_eq Object.parse_coin
    zephyr_chain.Codec.Reader.run zephyr_chain.Codec.Reader.◌>>=◌ zephyr_chain.Codec.Reader.fixed
    marshal_coin zephyr_chain.Codec.Writer.bytes_copy zephyr_chain.Codec.BigEndian.put_u64
    zephyr_chain.Codec.Reader.u64 zephyr_chain.Codec.Reader.done zephyr_chain.Types.is_zero32
    zephyr_chain.Types.account_shard zephyr_chain.Base.Keyed_Bytes
transfer-executes = refl

outputs-IsBytes : All (λ (o : OutputSpec). IsBytes o.payload) transfer.outputs
unfolding marshal_coin zephyr_chain.Codec.Writer.bytes_copy zephyr_chain.Codec.BigEndian.put_u64
outputs-IsBytes = (IsBytes-of payment.payload refl, (IsBytes-of change.payload refl, tt))

execute_transfer-conserves_example :
    witnessed_value (filled 3) transfer.witnesses
    ≡ created_value (filled 3) outcome.created
      + outbound_value (filled 3) outcome.outbound
      + (if bytes_eq (filled 3) native_engine.native_token
            && not (witnessed_value (filled 3) transfer.witnesses == 0)
          then transfer.fee
          else 0)
execute_transfer-conserves_example =
    execute_transfer-conserves toy_crypto native_engine transfer outcome (filled 3) (omega arith)
      (purse-IsBytes, tt) outputs-IsBytes transfer-executes

execute_transfer-owned_example :
    (outcome.consumed ≡ coin_ids transfer.witnesses)
    × All (λ (w : Witness). OwnedBy transfer.sender w.object) transfer.witnesses
execute_transfer-owned_example =
    execute_transfer-owned toy_crypto native_engine transfer outcome (purse-IsBytes, tt)
      transfer-executes

hash_is_itself : (h : Hash) → bytes_eq h h ≡ true
hash_is_itself h = (bytes_eq_iff h h).1 refl

transfer-witnessed : verify_witnesses toy_crypto transfer ≡ ok tt
unfolding verify_witnesses
transfer-witnessed =
    rw (hash_is_itself (object_hash toy_sha256 thing), hash_is_itself thing.id, thing-verifies) refl

verify_witnesses-stored_example : All (StoredIn store) transfer.witnesses ⊎ HashCollision toy_sha256
verify_witnesses-stored_example =
    verify_witnesses-stored toy_crypto toy_sized store store-Reachable transfer refl
      ((thing-IsHash, thing_proof-Sized), tt) transfer-witnessed

-- A transfer of another token than the native one, with a fee and nothing to take it from.
abbrev other_engine : Engine
other_engine = record { network = filled 7; native_token = filled 9; shard_count = 1; height = 50 }

abbrev gold_definition : Witness
gold_definition = record {
  object = record { id = filled 2; version = 1; owner = filled 8; kind = 2; payload = gold_wire };
  proof = thing_proof;
}

abbrev whole : OutputSpec
whole = record { owner = filled 5; kind = 1; payload = marshal_coin (coin_of 1000) }

abbrev unpaid : Transaction
unpaid = record transfer { witnesses = spent ∷ gold_definition ∷ []; outputs = whole ∷ [] }

abbrev unpaid_outcome : Outcome
unpaid_outcome = elim (execute_transfer toy_crypto other_engine unpaid) [
  | ok r ↦ r
  | err _ ↦ record { consumed = []; created = []; outbound = []; tx_id = [] }
]

unpaid-executes : execute_transfer toy_crypto other_engine unpaid ≡ ok unpaid_outcome
unfolding execute_transfer zephyr_chain.Base.bytes_eq Object.parse_coin
    zephyr_chain.Codec.Reader.run zephyr_chain.Codec.Reader.◌>>=◌ zephyr_chain.Codec.Reader.fixed
    marshal_coin zephyr_chain.Codec.Writer.bytes_copy zephyr_chain.Codec.BigEndian.put_u64
    zephyr_chain.Codec.BigEndian.put_u16 zephyr_chain.Codec.Reader.u64
    zephyr_chain.Codec.Reader.done zephyr_chain.Types.is_zero32 zephyr_chain.Types.account_shard
    zephyr_chain.Base.Keyed_Bytes zephyr_chain.Assets.parse_definition
    zephyr_chain.Codec.BigEndian.put_u32 zephyr_chain.Base.codes zephyr_chain.Codec.Reader.string
    zephyr_chain.Codec.Reader.u8 zephyr_chain.Codec.Reader.u16 zephyr_chain.Codec.Reader.bool
    zephyr_chain.Assets.Trim.trim_space zephyr_chain.Assets.validate
unpaid-executes = refl

unpaid-moves : (created_value (filled 3) unpaid_outcome.created ≡ 1000) × (unpaid.fee ≡ 10)
unfolding execute_transfer zephyr_chain.Base.bytes_eq Object.parse_coin
    zephyr_chain.Codec.Reader.run zephyr_chain.Codec.Reader.◌>>=◌ zephyr_chain.Codec.Reader.fixed
    marshal_coin zephyr_chain.Codec.Writer.bytes_copy zephyr_chain.Codec.BigEndian.put_u64
    zephyr_chain.Codec.BigEndian.put_u16 zephyr_chain.Codec.Reader.u64
    zephyr_chain.Codec.Reader.done zephyr_chain.Types.is_zero32 zephyr_chain.Types.account_shard
    zephyr_chain.Base.Keyed_Bytes zephyr_chain.Assets.parse_definition
    zephyr_chain.Codec.BigEndian.put_u32 zephyr_chain.Base.codes zephyr_chain.Codec.Reader.string
    zephyr_chain.Codec.Reader.u8 zephyr_chain.Codec.Reader.u16 zephyr_chain.Codec.Reader.bool
    zephyr_chain.Assets.Trim.trim_space zephyr_chain.Assets.validate
unpaid-moves = (refl, refl)
