-- ===== src/Tests/Objects.antt =====
-- Objects, output specifications and coins on the wire.
use zephyr_chain.Base.{◌≡◌, ◌↔◌, refl, [], ◌∷◌, IsBytes, ok}
use zephyr_chain.Object
use zephyr_chain.Object.{
  Object, OutputSpec, Coin, canonical_bytes, parse_object, canonical_output, parse_output_spec,
  marshal_coin, parse_coin,
}
use zephyr_chain.Object.Wire.{
  IsObject, IsOutputSpec, parse_object-eq-ok_iff, parse_output_spec-eq-ok_iff,
}
use zephyr_chain.Object.Coins.{IsCoin, parse_coin-eq-ok_iff}
use zephyr_chain.Tests.Common.{filled, IsBytes-of}

abbrev pub purse : Coin
purse = record { token = filled 3; amount = 1000; created_height = 12 }

abbrev pub thing : Object
thing = record {
  id = filled 1;
  version = 2;
  owner = filled 4;
  kind = 1;
  payload = marshal_coin purse;
}

abbrev spec : OutputSpec
spec = record { owner = filled 4; kind = 1; payload = 1 ∷ 2 ∷ 3 ∷ [] }

pub purse-IsBytes : IsBytes (marshal_coin purse)
unfolding marshal_coin zephyr_chain.Codec.Writer.bytes_copy zephyr_chain.Codec.BigEndian.put_u64
purse-IsBytes = IsBytes-of (marshal_coin purse) refl

pub purse-parses : parse_coin (marshal_coin purse) ≡ ok purse
unfolding parse_coin zephyr_chain.Codec.Reader.run zephyr_chain.Codec.Reader.◌>>=◌
    zephyr_chain.Codec.Reader.fixed marshal_coin zephyr_chain.Codec.Writer.bytes_copy
    zephyr_chain.Codec.BigEndian.put_u64 zephyr_chain.Codec.Reader.u64
    zephyr_chain.Codec.Reader.done zephyr_chain.Types.is_zero32
purse-parses = refl

parse_coin-eq-ok_iff_example :
    (parse_coin (marshal_coin purse) ≡ ok purse)
    ↔ (IsCoin purse × (marshal_coin purse ≡ marshal_coin purse))
parse_coin-eq-ok_iff_example = parse_coin-eq-ok_iff (marshal_coin purse) purse purse-IsBytes

thing-IsBytes : IsBytes (canonical_bytes thing)
unfolding canonical_bytes zephyr_chain.Codec.Writer.bytes_copy zephyr_chain.Codec.BigEndian.put_u64
    zephyr_chain.Codec.BigEndian.put_u16 zephyr_chain.Codec.BigEndian.put_u32 marshal_coin
thing-IsBytes = IsBytes-of (canonical_bytes thing) refl

thing-parses : parse_object (canonical_bytes thing) ≡ ok thing
unfolding parse_object zephyr_chain.Codec.Reader.run zephyr_chain.Codec.Reader.◌>>=◌
    zephyr_chain.Codec.Reader.fixed canonical_bytes zephyr_chain.Codec.Writer.bytes_copy
    zephyr_chain.Codec.BigEndian.put_u64 zephyr_chain.Codec.BigEndian.put_u16
    zephyr_chain.Codec.BigEndian.put_u32 marshal_coin zephyr_chain.Codec.Reader.u64
    zephyr_chain.Codec.Reader.u16 zephyr_chain.Codec.Reader.bytes zephyr_chain.Codec.Reader.done
    Object.validate zephyr_chain.Types.is_zero32
thing-parses = refl

parse_object-eq-ok_iff_example :
    (parse_object (canonical_bytes thing) ≡ ok thing)
    ↔ (IsObject thing × (canonical_bytes thing ≡ canonical_bytes thing))
parse_object-eq-ok_iff_example = parse_object-eq-ok_iff (canonical_bytes thing) thing thing-IsBytes

spec-IsBytes : IsBytes (canonical_output spec)
unfolding canonical_output zephyr_chain.Codec.Writer.bytes_copy zephyr_chain.Codec.BigEndian.put_u16
    zephyr_chain.Codec.BigEndian.put_u32
spec-IsBytes = IsBytes-of (canonical_output spec) refl

spec-parses : parse_output_spec (canonical_output spec) ≡ ok spec
unfolding parse_output_spec zephyr_chain.Codec.Reader.run zephyr_chain.Codec.Reader.◌>>=◌
    zephyr_chain.Codec.Reader.fixed canonical_output zephyr_chain.Codec.Writer.bytes_copy
    zephyr_chain.Codec.BigEndian.put_u16 zephyr_chain.Codec.BigEndian.put_u32
    zephyr_chain.Codec.Reader.u16 zephyr_chain.Codec.Reader.bytes zephyr_chain.Codec.Reader.done
    Object.validate_output zephyr_chain.Types.is_zero32
spec-parses = refl

parse_output_spec-eq-ok_iff_example :
    (parse_output_spec (canonical_output spec) ≡ ok spec)
    ↔ (IsOutputSpec spec × (canonical_output spec ≡ canonical_output spec))
parse_output_spec-eq-ok_iff_example =
    parse_output_spec-eq-ok_iff (canonical_output spec) spec spec-IsBytes
