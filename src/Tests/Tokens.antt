-- ===== src/Tests/Tokens.antt =====
-- A capped token: its supply, and its payloads on the wire.
use zephyr_chain.Base.{ℕ, ◌+◌, ◌-◌, ◌≡◌, ◌↔◌, refl, true, arith, Bytes, IsBytes, ok, codes}
use zephyr_chain.Types.{is_zero32}
use zephyr_chain.Assets.SupplyPolicy
use zephyr_chain.Assets.{
  Definition, CreateToken, validate, mint, burn, marshal_create, parse_create_token,
  marshal_definition, parse_definition, validate_create,
}
use zephyr_chain.Assets.Trim.{trim_space}
use zephyr_chain.Assets.Supply.{
  CanMint, CanBurn, mint-eq-ok_iff, burn-eq-ok_iff, History, here, minted, burned, Accounted,
  History-Accounted,
}
use zephyr_chain.Assets.CreateWire.{
  IsCreate, create_layout, parse_create_token-eq-ok_iff, parse-marshal_create,
  marshal_create-parse_iff, trimmed,
}
use zephyr_chain.Assets.DefinitionWire.{
  IsDefinition, definition_layout, parse_definition-eq-ok_iff, marshal_definition-parse_iff,
}
use zephyr_chain.Tests.Common.{filled, IsBytes-of}

abbrev gold : Definition
gold = record {
  token_id = filled 3;
  name = codes "Gold";
  symbol = codes "GLD";
  decimals = 2;
  supply_policy = SupplyPolicy.capped;
  max_supply = 100;
  current_supply = 40;
  mint_authority = filled 8;
  burnable = true;
  transferable = true;
}

abbrev with_supply : ℕ → Definition
with_supply n = record gold { current_supply = n }

gold-valid : validate gold ≡ ok tt
unfolding validate is_zero32 trim_space codes
gold-valid = refl

minted_60 : mint gold 60 ≡ ok (with_supply 100)
unfolding mint validate is_zero32 trim_space codes
minted_60 = refl

burned_30 : burn (with_supply 100) 30 ≡ ok (with_supply 70)
unfolding burn validate is_zero32 trim_space codes
burned_30 = refl

mint-eq-ok_iff_example :
    (mint gold 60 ≡ ok (with_supply 100))
    ↔ (CanMint gold 60 × (with_supply 100 ≡ record gold { current_supply = 40 + 60 }))
mint-eq-ok_iff_example = mint-eq-ok_iff gold (with_supply 100) 60 (omega arith)

burn-eq-ok_iff_example : (burn (with_supply 100) 30 ≡ ok (with_supply 70)) ↔ (
    CanBurn (with_supply 100) 30
    × (with_supply 70 ≡ record (with_supply 100) { current_supply = 100 - 30 }))
burn-eq-ok_iff_example = burn-eq-ok_iff (with_supply 100) (with_supply 70) 30

gold-History : History gold (with_supply 70) 60 30
gold-History = burned 30 (minted 60 here minted_60) burned_30

History-Accounted_example : Accounted gold (with_supply 70) 60 30
History-Accounted_example = History-Accounted gold-valid (omega arith) gold-History

-- A request whose name starts with a space.
abbrev pub padded_request : CreateToken
padded_request = record {
  name = codes " Gold";
  symbol = codes "GLD";
  decimals = 2;
  supply_policy = SupplyPolicy.capped;
  max_supply = 100;
  initial_supply = 40;
  mint_authority = filled 8;
  burnable = true;
  transferable = true;
}

abbrev pub padded_wire : Bytes
padded_wire = create_layout padded_request

pub padded_wire-IsBytes : IsBytes padded_wire
unfolding codes zephyr_chain.Codec.BigEndian.put_u32 zephyr_chain.Codec.BigEndian.put_u64
padded_wire-IsBytes = IsBytes-of padded_wire refl

pub padded-parses : parse_create_token padded_wire ≡ ok padded_request
unfolding parse_create_token zephyr_chain.Codec.Reader.run zephyr_chain.Codec.Reader.◌>>=◌
    zephyr_chain.Codec.Reader.string zephyr_chain.Codec.BigEndian.put_u32 codes
    zephyr_chain.Codec.BigEndian.put_u64 zephyr_chain.Codec.Reader.u8 zephyr_chain.Codec.Reader.u64
    zephyr_chain.Codec.Reader.fixed zephyr_chain.Codec.Reader.bool zephyr_chain.Codec.Reader.done
    validate_create trim_space is_zero32
padded-parses = refl

parse_create_token-eq-ok_iff_example :
    (parse_create_token padded_wire ≡ ok padded_request)
    ↔ (IsCreate padded_request × (create_layout padded_request ≡ padded_wire))
parse_create_token-eq-ok_iff_example =
    parse_create_token-eq-ok_iff padded_wire padded_request padded_wire-IsBytes

-- It parses, but is not what the parsed request is marshalled to.
marshal_create-parse_iff_example : (marshal_create padded_request ≡ ok padded_wire) ↔ (
    (trim_space padded_request.name ≡ padded_request.name)
    × (trim_space padded_request.symbol ≡ padded_request.symbol))
marshal_create-parse_iff_example =
    marshal_create-parse_iff padded_wire padded_request padded_wire-IsBytes padded-parses

trimmed-IsCreate_request : IsCreate (trimmed padded_request)
unfolding validate_create is_zero32 trim_space codes
trimmed-IsCreate_request = record {
  name_fits = IsBytes-of (trim_space padded_request.name) refl;
  name_short = omega arith;
  symbol_fits = IsBytes-of (trim_space padded_request.symbol) refl;
  symbol_short = omega arith;
  decimals_fits = omega arith;
  policy_fits = omega arith;
  max_fits = omega arith;
  supply_fits = omega arith;
  authority_fits = (refl, IsBytes-of (filled 8) refl);
  valid = refl;
}

parse-marshal_create_example :
    (w : Bytes) × (marshal_create padded_request ≡ ok w)
    × (parse_create_token w ≡ ok (trimmed padded_request))
parse-marshal_create_example = parse-marshal_create padded_request trimmed-IsCreate_request

abbrev pub gold_wire : Bytes
gold_wire = definition_layout gold

gold_wire-IsBytes : IsBytes gold_wire
unfolding codes zephyr_chain.Codec.BigEndian.put_u32 zephyr_chain.Codec.BigEndian.put_u64
gold_wire-IsBytes = IsBytes-of gold_wire refl

gold-parses : parse_definition gold_wire ≡ ok gold
unfolding parse_definition zephyr_chain.Codec.Reader.run zephyr_chain.Codec.Reader.◌>>=◌
    zephyr_chain.Codec.Reader.fixed zephyr_chain.Codec.BigEndian.put_u32 codes
    zephyr_chain.Codec.BigEndian.put_u64 zephyr_chain.Codec.Reader.string
    zephyr_chain.Codec.Reader.u8 zephyr_chain.Codec.Reader.u64 zephyr_chain.Codec.Reader.bool
    zephyr_chain.Codec.Reader.done validate is_zero32 trim_space
gold-parses = refl

parse_definition-eq-ok_iff_example :
    (parse_definition gold_wire ≡ ok gold)
    ↔ (IsDefinition gold × (definition_layout gold ≡ gold_wire))
parse_definition-eq-ok_iff_example = parse_definition-eq-ok_iff gold_wire gold gold_wire-IsBytes

marshal_definition-parse_iff_example :
    (marshal_definition gold ≡ ok gold_wire)
    ↔ ((trim_space gold.name ≡ gold.name) × (trim_space gold.symbol ≡ gold.symbol))
marshal_definition-parse_iff_example =
    marshal_definition-parse_iff gold_wire gold gold_wire-IsBytes gold-parses
