-- ===== src/Assets/Requests.antt =====
-- The payloads of mint and burn operations.
use zephyr_chain.Base.{
  ℕ, ◌||◌, not, ◌==◌, if◌then◌else◌, Bytes, length, take, drop, Result, ok, err,
  invalid_token_definition,
}
use zephyr_chain.Codec.Writer
use zephyr_chain.Codec.Writer.{Writer, ◌▷◌}
use zephyr_chain.Codec.Reader
use zephyr_chain.Codec.Reader.{Parser, lift, run, ◌‼◌, ◌>>=◌, ◌>>◌, require_not, done}
use zephyr_chain.Types.{ObjectId, AccountId, is_zero32}

pub record MintToken : Type 0 where
  pub definition_object : ObjectId
  pub recipient : AccountId
  pub amount : ℕ

pub record BurnToken : Type 0 where
  pub definition_object : ObjectId
  pub amount : ℕ

unfoldable pub marshal_mint : MintToken → Result Bytes
marshal_mint m =
    if is_zero32 m.definition_object || is_zero32 m.recipient || m.amount == 0
    then err invalid_token_definition
    else ok (
        Writer.bytes_copy (
          Writer.empty
          ▷ Writer.fixed m.definition_object
          ▷ Writer.fixed m.recipient
          ▷ Writer.u64 m.amount))

-- The amount behind the fixed fields, with `r.Done()`.
read_amount : Parser ℕ
read_amount = do
  amount ← Reader.u64 ‼ invalid_token_definition
  done ‼ invalid_token_definition
  lift (ok amount)

abbrev and_then {ℓ κ} : {A : Type ℓ} {B : Type κ} → Result A → (A → Result B) → Result B
and_then (ok a) f = f a
and_then (err e) f = err e

unfoldable pub parse_mint_token : Bytes → Result MintToken
unfolding read_amount
parse_mint_token payload =
    if not (length payload == 72)
    then err invalid_token_definition
    else and_then (run read_amount (drop 64 payload)) λ amount.
      let out : MintToken = record {
        definition_object = take 32 payload;
        recipient = take 32 (drop 32 payload);
        amount = amount;
      } in
      and_then (marshal_mint out) λ _. ok out

unfoldable pub marshal_burn : BurnToken → Result Bytes
marshal_burn b =
    if is_zero32 b.definition_object || b.amount == 0
    then err invalid_token_definition
    else ok
        (Writer.bytes_copy (Writer.empty ▷ Writer.fixed b.definition_object ▷ Writer.u64 b.amount))

unfoldable pub parse_burn_token : Bytes → Result BurnToken
unfolding read_amount
parse_burn_token payload =
    if not (length payload == 40)
    then err invalid_token_definition
    else and_then (run read_amount (drop 32 payload)) λ amount.
      let out : BurnToken = record { definition_object = take 32 payload; amount = amount } in
      and_then (marshal_burn out) λ _. ok out
