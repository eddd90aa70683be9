-- ===== src/Object.antt =====
-- Protocol objects and coins, internal/v2/object/object.go.
pub mod Kind
pub mod Wire
pub mod Coins
use zephyr_chain.Base.{
  ℕ, ◌^◌, Bool, ◌||◌, ltb, ◌==◌, if◌then◌else◌, Bytes, length, codes, Result, ok, err, fail_if,
  checked, invalid_object, invalid_coin,
}
use zephyr_chain.Codec.Writer
use zephyr_chain.Codec.Writer.{◌▷◌}
use zephyr_chain.Codec.Reader
use zephyr_chain.Codec.Reader.{Parser, lift, run, ◌‼◌, ◌>>=◌, ◌>>◌, require_not, done}
use zephyr_chain.Codec.Hash.{domain_hash}
use zephyr_chain.Types.{Hash, ObjectId, AccountId, TokenId, is_zero32}

abbrev pub max_object_data_bytes : ℕ
max_object_data_bytes = 2 ^ 20

pub record Object : Type 0 where
  pub id : ObjectId
  pub version : ℕ
  pub owner : AccountId
  pub kind : ℕ
  pub payload : Bytes

pub record OutputSpec : Type 0 where
  pub owner : AccountId
  pub kind : ℕ
  pub payload : Bytes

-- Only system objects have no owner.
unfoldable pub validate_owner_for_kind : AccountId → ℕ → Result (Unit {0})
validate_owner_for_kind owner kind =
    if kind == Kind.system then ok tt else fail_if (is_zero32 owner) invalid_object

unfoldable pub validate : Object → Result (Unit {0})
unfolding validate_owner_for_kind
validate o =
    if is_zero32 o.id
      || o.version == 0
      || o.kind == Kind.unknown
      || ltb max_object_data_bytes (length o.payload)
    then err invalid_object
    else validate_owner_for_kind o.owner o.kind

unfoldable pub validate_output : OutputSpec → Result (Unit {0})
unfolding validate_owner_for_kind
validate_output o =
    if o.kind == Kind.unknown || ltb max_object_data_bytes (length o.payload)
    then err invalid_object
    else validate_owner_for_kind o.owner o.kind

unfoldable pub canonical_bytes : Object → Bytes
canonical_bytes o = Writer.bytes_copy (
    Writer.empty
    ▷ Writer.fixed o.id
    ▷ Writer.u64 o.version
    ▷ Writer.fixed o.owner
    ▷ Writer.u16 o.kind
    ▷ Writer.bytes o.payload)

read_object : Parser Object
read_object = do
  id ← Reader.fixed 32 ‼ invalid_object
  version ← Reader.u64 ‼ invalid_object
  owner ← Reader.fixed 32 ‼ invalid_object
  kind ← Reader.u16 ‼ invalid_object
  payload ← Reader.bytes max_object_data_bytes ‼ invalid_object
  done ‼ invalid_object
  let out : Object = record {
    id = id;
    version = version;
    owner = owner;
    kind = kind;
    payload = payload;
  }
  lift (checked (validate out) out)

unfoldable pub parse_object : Bytes → Result Object
unfolding read_object
parse_object payload = run read_object payload

unfoldable pub canonical_output : OutputSpec → Bytes
canonical_output o =
    Writer.bytes_copy
      (Writer.empty ▷ Writer.fixed o.owner ▷ Writer.u16 o.kind ▷ Writer.bytes o.payload)

read_output_spec : Parser OutputSpec
read_output_spec = do
  owner ← Reader.fixed 32 ‼ invalid_object
  kind ← Reader.u16 ‼ invalid_object
  payload ← Reader.bytes max_object_data_bytes ‼ invalid_object
  done ‼ invalid_object
  let out : OutputSpec = record { owner = owner; kind = kind; payload = payload }
  lift (checked (validate_output out) out)

unfoldable pub parse_output_spec : Bytes → Result OutputSpec
unfolding read_output_spec
parse_output_spec payload = run read_output_spec payload

module _ (sha256 : Bytes → Bytes) where
  unfoldable pub object_hash : Object → Hash
  object_hash o = domain_hash sha256 (codes "zephyr/object/v2") (canonical_bytes o)

  unfoldable pub output_hash : OutputSpec → Hash
  output_hash o = domain_hash sha256 (codes "zephyr/output-spec/v2") (canonical_output o)

pub record Coin : Type 0 where
  pub token : TokenId
  pub amount : ℕ
  pub created_height : ℕ

unfoldable pub marshal_coin : Coin → Bytes
marshal_coin c =
    Writer.bytes_copy
      (Writer.empty ▷ Writer.fixed c.token ▷ Writer.u64 c.amount ▷ Writer.u64 c.created_height)

read_coin : Parser Coin
read_coin = do
  token ← Reader.fixed 32 ‼ invalid_coin
  amount ← Reader.u64 ‼ invalid_coin
  require_not (amount == 0) invalid_coin
  created_height ← Reader.u64 ‼ invalid_coin
  done ‼ invalid_coin
  let out : Coin = record { token = token; amount = amount; created_height = created_height }
  lift (checked (fail_if (is_zero32 token) invalid_coin) out)

unfoldable pub parse_coin : Bytes → Result Coin
unfolding read_coin
parse_coin payload = run read_coin payload

unfoldable pub new_coin_output_at_height : AccountId → TokenId → ℕ → ℕ → Result OutputSpec
new_coin_output_at_height owner token amount created_height =
    if is_zero32 owner || is_zero32 token || amount == 0
    then err invalid_coin
    else (let coin : Coin = record {
      token = token;
      amount = amount;
      created_height = created_height;
    } in
        let out : OutputSpec = record {
          owner = owner;
          kind = Kind.coin;
          payload = marshal_coin coin;
        } in
        checked (validate_output out) out)

unfoldable pub new_coin_output : AccountId → TokenId → ℕ → Result OutputSpec
unfolding new_coin_output_at_height
new_coin_output owner token amount = new_coin_output_at_height owner token amount 0
