-- ===== src/Tests/Creations.antt =====
-- The creation of a token, paid with one coin.
use zephyr_chain.Base.{
  ℕ, ◌+◌, ◌%◌, ◌≡◌, refl, ap, ◌∙◌, true, List, [], ◌∷◌, map, Bytes, IsBytes, All, length, ok, err,
  arith,
}
use zephyr_chain.Types.{IsHash, token_id_from_transaction}
use zephyr_chain.Object
use zephyr_chain.Object.{OutputSpec, marshal_coin}
use zephyr_chain.Consensus.Validators.{Crypto}
use zephyr_chain.Transactions.{Transaction, Witness, op_create_token, transaction_id}
use zephyr_chain.Execution.{Engine, Outcome}
use zephyr_chain.Execution.Totals.{witnessed_value, created_value, outbound_value}
use zephyr_chain.Execution.Create.{execute_create_token}
use zephyr_chain.Execution.Issues.{in_token, execute_create_token-issues}
use zephyr_chain.Tests.Common.{toy_sha256, toy_sized, filled, IsBytes-of}
use zephyr_chain.Tests.Objects.{thing, purse}
use zephyr_chain.Tests.Tokens.{padded_request, padded_wire, padded-parses, padded_wire-IsBytes}

-- A stand-in for SHA-256 whose results are bytes on any list.
abbrev byte_sha256 : Bytes → Bytes
byte_sha256 x = map (λ (b : ℕ). b % 256) (toy_sha256 x)

length-reduced : (xs : Bytes) → length (map (λ (b : ℕ). b % 256) xs) ≡ length xs
length-reduced [] = refl
length-reduced (x ∷ xs) = omega (arith, length-reduced xs)

reduced-IsBytes : (xs : Bytes) → IsBytes (map (λ (b : ℕ). b % 256) xs)
reduced-IsBytes [] = tt
reduced-IsBytes (x ∷ xs) = (omega arith, reduced-IsBytes xs)

byte_sha256-IsHash : (x : Bytes) → IsHash (byte_sha256 x)
byte_sha256-IsHash x = (length-reduced (toy_sha256 x) ∙ toy_sized x, reduced-IsBytes (toy_sha256 x))

abbrev byte_crypto : Crypto
byte_crypto = record {
  sha256 = byte_sha256;
  on_curve = λ key. true;
  ecdsa_verify = λ key digest r s. true;
  order = 1000;
}

abbrev issuing_engine : Engine
issuing_engine = record {
  network = filled 7;
  native_token = filled 3;
  shard_count = 1;
  height = 50;
}

abbrev payer : Witness
payer = record {
  object = record thing { owner = filled 8 };
  proof = record { exists = true; bitmap = filled 0; siblings = [] };
}

abbrev change : OutputSpec
change = record {
  owner = filled 8;
  kind = 1;
  payload = marshal_coin (record purse { amount = 990 });
}

abbrev creation : Transaction
creation = record {
  version = 2;
  network = filled 7;
  shard_id = 0;
  sender = filled 8;
  sender_public_key = [];
  state_root = filled 1;
  inputs = (record { object_id = thing.id; version = 2; object_hash = filled 6 }) ∷ [];
  outputs = change ∷ [];
  operations = (record { kind = op_create_token; payload = padded_wire }) ∷ [];
  fee = 10;
  valid_until_height = 0;
  salt = filled 1;
  signature = [];
  witnesses = payer ∷ [];
}

abbrev created : Outcome
created = elim (execute_create_token byte_crypto issuing_engine creation padded_wire) [
  | ok r ↦ r
  | err _ ↦ record { consumed = []; created = []; outbound = []; tx_id = [] }
]

creation-executes :
    execute_create_token byte_crypto issuing_engine creation padded_wire ≡ ok created
unfolding execute_create_token zephyr_chain.Base.bytes_eq Object.parse_coin
    zephyr_chain.Codec.Reader.run zephyr_chain.Codec.Reader.◌>>=◌ zephyr_chain.Codec.Reader.fixed
    marshal_coin zephyr_chain.Codec.Writer.bytes_copy zephyr_chain.Codec.BigEndian.put_u64
    zephyr_chain.Codec.BigEndian.put_u16 zephyr_chain.Codec.Reader.u64
    zephyr_chain.Codec.Reader.done zephyr_chain.Types.is_zero32 zephyr_chain.Types.account_shard
    zephyr_chain.Assets.parse_create_token zephyr_chain.Assets.marshal_definition
    zephyr_chain.Codec.BigEndian.put_u32 zephyr_chain.Base.codes zephyr_chain.Codec.Reader.string
    zephyr_chain.Codec.Reader.u8 zephyr_chain.Codec.Reader.u16 zephyr_chain.Codec.Reader.bool
    zephyr_chain.Assets.Trim.trim_space zephyr_chain.Assets.validate
    zephyr_chain.Assets.validate_create zephyr_chain.Sharding.shard_for_account
    zephyr_chain.Execution.stamp_coin_output token_id_from_transaction
    zephyr_chain.Codec.Hash.domain_hash zephyr_chain.Codec.Hash.domain_frame transaction_id
    Object.canonical_output Object.new_coin_output_at_height Object.validate_output
creation-executes = refl

creation-IsBytes : All (λ (o : OutputSpec). IsBytes o.payload) creation.outputs
unfolding marshal_coin zephyr_chain.Codec.Writer.bytes_copy zephyr_chain.Codec.BigEndian.put_u64
creation-IsBytes = (IsBytes-of change.payload refl, tt)

execute_create_token-issues_example :
    created_value (filled 3) created.created
      + outbound_value (filled 3) created.outbound
      + in_token (filled 3) (filled 3) 10
    ≡ witnessed_value (filled 3) creation.witnesses
      + in_token
          (token_id_from_transaction byte_sha256 (transaction_id byte_crypto creation) 0)
          (filled 3)
          40
execute_create_token-issues_example =
    execute_create_token-issues byte_crypto issuing_engine creation padded_wire padded_request
      created (filled 3) byte_sha256-IsHash (omega arith) padded_wire-IsBytes creation-IsBytes
      padded-parses creation-executes
