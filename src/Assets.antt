-- ===== src/Assets.antt =====
-- Native tokens, internal/v2/assets/token.go: definitions, the supply operations and the payloads of
-- the token operations.
pub mod Trim
pub mod SupplyPolicy
pub mod Supply
pub mod Requests
pub mod CreateWire
pub mod DefinitionWire
use zephyr_chain.Base.{
  ℕ, ◌+◌, ◌-◌, Bool, true, ◌&&◌, ◌||◌, not, ltb, ◌==◌, if◌then◌else◌, Bytes, length, take, drop,
  Result, ok, err, fail_if, checked, succeeds, invalid_token_definition,
}
use zephyr_chain.Codec.BigEndian.{max_u64}
use zephyr_chain.Codec.Writer
use zephyr_chain.Codec.Writer.{Writer, ◌▷◌}
use zephyr_chain.Codec.Reader
use zephyr_chain.Codec.Reader.{Parser, lift, run, ◌‼◌, ◌>>=◌, ◌>>◌, require_not, done}
use zephyr_chain.Types.{ObjectId, AccountId, TokenId, is_zero32}
use zephyr_chain.Assets.Trim.{trim_space}

pub record Definition : Type 0 where
  pub token_id : TokenId
  pub name : Bytes
  pub symbol : Bytes
  pub decimals : ℕ
  pub supply_policy : ℕ
  pub max_supply : ℕ
  pub current_supply : ℕ
  pub mint_authority : AccountId
  pub burnable : Bool
  pub transferable : Bool

pub record CreateToken : Type 0 where
  pub name : Bytes
  pub symbol : Bytes
  pub decimals : ℕ
  pub supply_policy : ℕ
  pub max_supply : ℕ
  pub initial_supply : ℕ
  pub mint_authority : AccountId
  pub burnable : Bool
  pub transferable : Bool

-- `s == ""`
abbrev pub is_blank : Bytes → Bool
is_blank s = length s == 0

-- The `switch c.SupplyPolicy` of `CreateToken.Validate`.
unfoldable pub create_policy_fails : CreateToken → Bool
create_policy_fails c =
    if c.supply_policy == SupplyPolicy.capped
    then c.max_supply == 0 || ltb c.max_supply c.initial_supply
    else if c.supply_policy == SupplyPolicy.fixed
    then c.max_supply == 0 || not (c.initial_supply == c.max_supply)
    else if c.supply_policy == SupplyPolicy.mintable
    then not (c.max_supply == 0)
    else true

unfoldable pub validate_create : CreateToken → Result (Unit {0})
unfolding create_policy_fails
validate_create c =
    let name = trim_space c.name in
    let symbol = trim_space c.symbol in
    if is_blank name
      || ltb 64 (length name)
      || is_blank symbol
      || ltb 16 (length symbol)
      || ltb 18 c.decimals
      || c.initial_supply == 0
      || is_zero32 c.mint_authority
    then err invalid_token_definition
    else fail_if (create_policy_fails c) invalid_token_definition

-- The body of `CreateToken.MarshalBinary` behind its validation.
unfoldable pub create_writer : CreateToken → Writer
create_writer c =
    Writer.empty
    ▷ Writer.string (trim_space c.name)
    ▷ Writer.string (trim_space c.symbol)
    ▷ Writer.u8 c.decimals
    ▷ Writer.u8 c.supply_policy
    ▷ Writer.u64 c.max_supply
    ▷ Writer.u64 c.initial_supply
    ▷ Writer.fixed c.mint_authority
    ▷ Writer.bool c.burnable
    ▷ Writer.bool c.transferable

unfoldable pub marshal_create : CreateToken → Result Bytes
unfolding create_writer
marshal_create c = checked (validate_create c) (Writer.bytes_copy (create_writer c))

read_create_token : Parser CreateToken
read_create_token = do
  name ← Reader.string 64 ‼ invalid_token_definition
  symbol ← Reader.string 16 ‼ invalid_token_definition
  decimals ← Reader.u8 ‼ invalid_token_definition
  policy ← Reader.u8 ‼ invalid_token_definition
  max_supply ← Reader.u64 ‼ invalid_token_definition
  initial_supply ← Reader.u64 ‼ invalid_token_definition
  authority ← Reader.fixed 32 ‼ invalid_token_definition
  burnable ← Reader.bool ‼ invalid_token_definition
  transferable ← Reader.bool ‼ invalid_token_definition
  done ‼ invalid_token_definition
  let out : CreateToken = record {
    name = name;
    symbol = symbol;
    decimals = decimals;
    supply_policy = policy;
    max_supply = max_supply;
    initial_supply = initial_supply;
    mint_authority = authority;
    burnable = burnable;
    transferable = transferable;
  }
  lift (checked (validate_create out) out)

unfoldable pub parse_create_token : Bytes → Result CreateToken
unfolding read_create_token
parse_create_token payload = run read_create_token payload

-- The `switch d.SupplyPolicy` of `Definition.Validate`.
unfoldable pub policy_fails : Definition → Bool
policy_fails d =
    if d.supply_policy == SupplyPolicy.capped || d.supply_policy == SupplyPolicy.fixed
    then d.max_supply == 0 || ltb d.max_supply d.current_supply
    else if d.supply_policy == SupplyPolicy.mintable
    then not (d.max_supply == 0)
    else true

-- The tests of `Definition.Validate` before its `switch`.
unfoldable pub header_fails : Definition → Bool
header_fails d =
    is_zero32 d.token_id
    || is_blank (trim_space d.name)
    || is_blank (trim_space d.symbol)
    || ltb 18 d.decimals
    || is_zero32 d.mint_authority

unfoldable pub validate : Definition → Result (Unit {0})
unfolding header_fails policy_fails
validate d =
    if header_fails d
    then err invalid_token_definition
    else fail_if (policy_fails d) invalid_token_definition

unfoldable pub definition_writer : Definition → Writer
definition_writer d =
    Writer.empty
    ▷ Writer.fixed d.token_id
    ▷ Writer.string (trim_space d.name)
    ▷ Writer.string (trim_space d.symbol)
    ▷ Writer.u8 d.decimals
    ▷ Writer.u8 d.supply_policy
    ▷ Writer.u64 d.max_supply
    ▷ Writer.u64 d.current_supply
    ▷ Writer.fixed d.mint_authority
    ▷ Writer.bool d.burnable
    ▷ Writer.bool d.transferable

unfoldable pub marshal_definition : Definition → Result Bytes
unfolding definition_writer
marshal_definition d = checked (validate d) (Writer.bytes_copy (definition_writer d))

read_definition : Parser Definition
read_definition = do
  token_id ← Reader.fixed 32 ‼ invalid_token_definition
  name ← Reader.string 64 ‼ invalid_token_definition
  symbol ← Reader.string 16 ‼ invalid_token_definition
  decimals ← Reader.u8 ‼ invalid_token_definition
  policy ← Reader.u8 ‼ invalid_token_definition
  max_supply ← Reader.u64 ‼ invalid_token_definition
  current_supply ← Reader.u64 ‼ invalid_token_definition
  authority ← Reader.fixed 32 ‼ invalid_token_definition
  burnable ← Reader.bool ‼ invalid_token_definition
  transferable ← Reader.bool ‼ invalid_token_definition
  done ‼ invalid_token_definition
  let out : Definition = record {
    token_id = token_id;
    name = name;
    symbol = symbol;
    decimals = decimals;
    supply_policy = policy;
    max_supply = max_supply;
    current_supply = current_supply;
    mint_authority = authority;
    burnable = burnable;
    transferable = transferable;
  }
  lift (checked (validate out) out)

unfoldable pub parse_definition : Bytes → Result Definition
unfolding read_definition
parse_definition payload = run read_definition payload

-- The addition cannot wrap, since the room left below 2 ^ 64 is tested first.
unfoldable pub mint : Definition → ℕ → Result Definition
mint d amount =
    if not (succeeds (validate d))
      || amount == 0
      || d.supply_policy == SupplyPolicy.fixed
      || ltb (max_u64 - d.current_supply) amount
    then err invalid_token_definition
    else (let next = record d { current_supply = d.current_supply + amount } in
        if d.supply_policy == SupplyPolicy.capped && ltb d.max_supply next.current_supply
        then err invalid_token_definition
        else checked (validate next) next)

unfoldable pub burn : Definition → ℕ → Result Definition
burn d amount =
    if not (succeeds (validate d)) || not d.burnable || amount == 0 || ltb d.current_supply amount
    then err invalid_token_definition
    else (let next = record d { current_supply = d.current_supply - amount } in
        checked (validate next) next)
