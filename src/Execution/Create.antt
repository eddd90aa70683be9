-- ===== src/Execution/Create.antt =====
-- `executeCreateToken`, and what `Execute` checks before it dispatches.
use zephyr_chain.Base.{
  ℕ, ◌+◌, ◌-◌, not, ◌||◌, ltb, ◌==◌, if◌then◌else◌, List, [], ◌∷◌, ◌++◌, map, Bytes, length,
  bytes_eq, Result, ok, or_error, fail_if, ◌>>=◌, ◌>>◌, unsupported_operation, ownership,
  conservation, amount_overflow, wrong_shard,
}
use zephyr_chain.Codec.BigEndian.{max_u64}
use zephyr_chain.Types.{Hash, AccountId, TokenId, object_id_for_shard, token_id_from_transaction}
use zephyr_chain.Object.{Object, OutputSpec, parse_coin, new_coin_output_at_height}
use zephyr_chain.Object.Kind
use zephyr_chain.Assets.{Definition, CreateToken, marshal_definition, parse_create_token}
use zephyr_chain.Sharding.{shard_for_account, shard_for_object}
use zephyr_chain.Consensus.Validators.{Crypto}
use zephyr_chain.Transactions.{
  Transaction, InputRef, Witness, transaction_id, verify_for_network, verify_witnesses,
}
use zephyr_chain.Execution.{Engine, Outcome, Emitted, nothing_emitted, stamp_coin_output, place}

-- The loop over the inputs of `Execute`.
unfoldable pub check_shards : ℕ → ℕ → List InputRef → Result (Unit {0})
check_shards count shard [] = ok tt
check_shards count shard (i ∷ inputs) =
    or_error (shard_for_object count i.object_id) wrong_shard >>= λ input.
    fail_if (not (input == shard)) wrong_shard >> check_shards count shard inputs

-- `e.ShardCount`, which counts as one when it is not set.
abbrev pub shards_of : Engine → ℕ
shards_of e = if e.shard_count == 0 then 1 else e.shard_count

-- `Execute` up to its `switch`.
unfoldable pub admit : Crypto → Engine → Transaction → Result (Unit {0})
unfolding check_shards
admit crypto e t =
    verify_for_network crypto e.network t
    >> (verify_witnesses crypto t
        >> (or_error (shard_for_account (shards_of e) t.sender) wrong_shard >>= λ sender_shard.
            fail_if (not (t.shard_id == sender_shard)) wrong_shard
            >> (check_shards (shards_of e) t.shard_id t.inputs
                >> fail_if (not (length t.operations == 1)) unsupported_operation)))

-- The loop over the witnesses, with the native amount so far.
unfoldable pub gather_native : TokenId → AccountId → List Witness → ℕ → Result ℕ
gather_native native sender [] native_in = ok native_in
gather_native native sender (w ∷ witnesses) native_in =
    fail_if (not (bytes_eq w.object.owner sender) || not (w.object.kind == Kind.coin)) ownership
    >> (parse_coin w.object.payload >>= λ coin.
        fail_if (not (bytes_eq coin.token native)) conservation
        >> (fail_if (ltb (max_u64 - native_in) coin.amount) amount_overflow
            >> gather_native native sender witnesses (native_in + coin.amount)))

-- One turn of the loop over the outputs, with the native amount so far.
unfoldable pub emit_native_one :
    (Bytes → Bytes)
    → Engine
    → Transaction
    → Hash
    → ℕ
    → OutputSpec
    → ℕ × Emitted
    → Result (ℕ × Emitted)
emit_native_one sha256 e t tx_id index spec paid =
    or_error (parse_coin spec.payload) conservation >>= λ coin.
    fail_if (not (spec.kind == Kind.coin) || not (bytes_eq coin.token e.native_token)) conservation
    >> (fail_if (ltb (max_u64 - paid.0) coin.amount) amount_overflow
        >> (or_error (shard_for_account e.shard_count spec.owner) wrong_shard >>= λ destination.
            stamp_coin_output spec e.height >>= λ stamped.
            ok (
              paid.0 + coin.amount,
              place sha256 tx_id t.shard_id index destination stamped paid.1,
            )))

unfoldable pub emit_native :
    (Bytes → Bytes)
    → Engine
    → Transaction
    → Hash
    → ℕ
    → List OutputSpec
    → ℕ × Emitted
    → Result (ℕ × Emitted)
unfolding emit_native_one
emit_native sha256 e t tx_id index [] paid = ok paid
emit_native sha256 e t tx_id index (spec ∷ outputs) paid =
    emit_native_one sha256 e t tx_id index spec paid >>= λ next.
    emit_native sha256 e t tx_id (index + 1) outputs next

unfoldable pub new_definition : TokenId → CreateToken → Definition
new_definition token_id create = record {
  token_id = token_id;
  name = create.name;
  symbol = create.symbol;
  decimals = create.decimals;
  supply_policy = create.supply_policy;
  max_supply = create.max_supply;
  current_supply = create.initial_supply;
  mint_authority = create.mint_authority;
  burnable = create.burnable;
  transferable = create.transferable;
}

-- The object of the definition, and the coin of the initial supply.
unfoldable pub issued_objects :
    (Bytes → Bytes) → Transaction → Hash → Bytes → OutputSpec → List Object
issued_objects sha256 t tx_id definition_bytes initial =
    (record {
      id = object_id_for_shard sha256 tx_id 0x8000_0000 t.shard_id;
      version = 1;
      owner = t.sender;
      kind = Kind.token_definition;
      payload = definition_bytes;
    })
    ∷ (record {
      id = object_id_for_shard sha256 tx_id 0x8000_0001 t.shard_id;
      version = 1;
      owner = initial.owner;
      kind = initial.kind;
      payload = initial.payload;
    })
    ∷ []

unfoldable pub execute_create_token : Crypto → Engine → Transaction → Bytes → Result Outcome
unfolding gather_native emit_native new_definition issued_objects
execute_create_token crypto e t payload = parse_create_token payload >>= λ create.
    fail_if (not (bytes_eq create.mint_authority t.sender)) ownership
    >> (gather_native e.native_token t.sender t.witnesses 0 >>= λ native_in.
        let tx_id = transaction_id crypto t in
        emit_native crypto.sha256 e t tx_id 0 t.outputs (0, nothing_emitted) >>= λ paid.
        fail_if (ltb (max_u64 - paid.0) t.fee || not (native_in == paid.0 + t.fee)) conservation
        >> (let token_id = token_id_from_transaction crypto.sha256 tx_id 0 in
            marshal_definition (new_definition token_id create) >>= λ definition_bytes.
            new_coin_output_at_height t.sender token_id create.initial_supply e.height
            >>= λ initial. ok (record {
              consumed = map (λ (i : InputRef). i.object_id) t.inputs;
              created =
                  paid.1.created ++ issued_objects crypto.sha256 t tx_id definition_bytes initial;
              outbound = paid.1.outbound;
              tx_id = tx_id;
            })))
