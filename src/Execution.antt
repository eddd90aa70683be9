-- ===== src/Execution.antt =====
-- Native execution of a transaction, internal/v2/execution/engine.go and coin_metadata.go: transfers and the
-- creation of tokens. A Go map of amounts or of definitions is an association list.
pub mod Totals
pub mod Gathers
pub mod Emits
pub mod Settles
pub mod Conserves
pub mod Create
pub mod Issues
use zephyr_chain.Base.{
  ℕ, ◌+◌, ◌-◌, ◌%◌, ◌^◌, Bool, true, false, not, ◌&&◌, ◌||◌, ltb, ◌==◌, if◌then◌else◌, List, [],
  ◌∷◌, ◌++◌, map, Option, none, some, Bytes, length, bytes_eq, Keyed_Bytes, lookup, erase, insert,
  Result, ok, err, or_error, checked, fail_if, ◌>>=◌, ◌>>◌, unsupported_operation, ownership,
  conservation, amount_overflow, wrong_shard, token_policy,
}
use zephyr_chain.Codec.BigEndian.{max_u64}
use zephyr_chain.Types.{
  Hash, NetworkId, AccountId, ObjectId, TokenId, object_id_for_shard, token_id_from_transaction,
}
use zephyr_chain.Object
use zephyr_chain.Object.{
  Object, OutputSpec, Coin, parse_coin, marshal_coin, new_coin_output_at_height,
}
use zephyr_chain.Object.Kind
use zephyr_chain.Assets
use zephyr_chain.Assets.{
  Definition, CreateToken, parse_definition, marshal_definition, parse_create_token,
}
use zephyr_chain.Sharding.{shard_for_account, shard_for_object}
use zephyr_chain.Consensus.Validators.{Crypto}
use zephyr_chain.Transactions.{
  Transaction, Operation, InputRef, Witness, transaction_id, verify_for_network, verify_witnesses,
}

pub record OutboundOutput : Type 0 where
  pub destination_shard : ℕ
  pub output_index : ℕ
  pub output : OutputSpec

-- `Result`
pub record Outcome : Type 0 where
  pub consumed : List ObjectId
  pub created : List Object
  pub outbound : List OutboundOutput
  pub tx_id : Hash

-- `Engine`, without the runtimes of contracts.
pub record Engine : Type 0 where
  pub network : NetworkId
  pub native_token : TokenId
  pub shard_count : ℕ
  pub height : ℕ

abbrev pub Totals : Type 0
Totals = List (TokenId × ℕ)

abbrev pub Definitions : Type 0
Definitions = List (TokenId × Definition)

-- `totals[token]`, where a missing key counts zero.
abbrev pub total_of : Option ℕ → ℕ
total_of none = 0
total_of (some amount) = amount

abbrev pub total : Totals → TokenId → ℕ
total totals token = total_of (lookup totals token)

-- `add`
unfoldable pub add : Totals → TokenId → ℕ → Result Totals
add totals token amount =
    let current = total totals token in
    if ltb (max_u64 - current) amount
    then err amount_overflow
    else ok (insert totals token (current + amount))

-- `stampCoinOutput`
unfoldable pub stamp_coin_output : OutputSpec → ℕ → Result OutputSpec
stamp_coin_output spec height =
    if not (spec.kind == Kind.coin) then ok spec else elim (parse_coin spec.payload) [
      | err e ↦ err e
      | ok coin ↦
          ok (record spec { payload = marshal_coin (record coin { created_height = height }) })
    ]

-- What the loop over the witnesses fills.
pub record Gathered : Type 0 where
  pub totals : Totals
  pub definitions : Definitions
  pub consumed : List ObjectId

abbrev pub nothing_gathered : Gathered
nothing_gathered = record { totals = []; definitions = []; consumed = [] }

abbrev pub has_definition : Definitions → TokenId → Bool
has_definition definitions token = elim (lookup definitions token) [ none ↦ false | some _ ↦ true ]

-- `definition, ok := definitions[token]; ok && definition.Transferable`
abbrev pub transferable : Definitions → TokenId → Bool
transferable definitions token = elim (lookup definitions token) [
  | none ↦ false
  | some d ↦ d.transferable
]

-- One turn of the first loop of `executeTransfer`.
unfoldable pub gather_coin : AccountId → Object → Gathered → Result Gathered
unfolding add
gather_coin sender o g =
    fail_if (not (bytes_eq o.owner sender)) ownership
    >> (parse_coin o.payload >>= λ coin. add g.totals coin.token coin.amount >>= λ totals.
        ok (record g { totals = totals; consumed = g.consumed ++ o.id ∷ [] }))

unfoldable pub gather_definition : TokenId → Object → Gathered → Result Gathered
gather_definition native o g = or_error (parse_definition o.payload) token_policy >>= λ definition.
    fail_if
      (bytes_eq definition.token_id native || has_definition g.definitions definition.token_id)
      token_policy
    >> ok (record g { definitions = insert g.definitions definition.token_id definition })

unfoldable pub gather : TokenId → AccountId → List Witness → Gathered → Result Gathered
unfolding gather_coin gather_definition
gather native sender [] g = ok g
gather native sender (w ∷ witnesses) g =
    (if w.object.kind == Kind.coin
      then gather_coin sender w.object g
      else if w.object.kind == Kind.token_definition
      then gather_definition native w.object g
      else err ownership)
    >>= λ next. gather native sender witnesses next

-- What the loop over the outputs fills.
pub record Emitted : Type 0 where
  pub totals : Totals
  pub created : List Object
  pub outbound : List OutboundOutput

abbrev pub nothing_emitted : Emitted
nothing_emitted = record { totals = []; created = []; outbound = [] }

-- The object of an output that stays on the shard.
unfoldable pub created_object : (Bytes → Bytes) → Hash → ℕ → ℕ → OutputSpec → Object
created_object sha256 tx_id index destination spec = record {
  id = object_id_for_shard sha256 tx_id (index % 2 ^ 32) destination;
  version = 1;
  owner = spec.owner;
  kind = spec.kind;
  payload = spec.payload;
}

-- The end of a turn of the loops over the outputs.
unfoldable pub place : (Bytes → Bytes) → Hash → ℕ → ℕ → ℕ → OutputSpec → Emitted → Emitted
unfolding created_object
place sha256 tx_id shard_id index destination spec out =
    if destination == shard_id
    then record out {
      created = out.created ++ created_object sha256 tx_id index destination spec ∷ [];
    }
    else (let sent : OutboundOutput = record {
      destination_shard = destination;
      output_index = index % 2 ^ 32;
      output = spec;
    } in
        record out { outbound = out.outbound ++ sent ∷ [] })

-- One turn of the second loop of `executeTransfer`.
unfoldable pub emit_one :
    (Bytes → Bytes)
    → Engine
    → Transaction
    → Hash
    → Definitions
    → ℕ
    → OutputSpec
    → Emitted
    → Result Emitted
unfolding add stamp_coin_output place shard_for_account
emit_one sha256 e t tx_id definitions index spec out =
    fail_if (not (spec.kind == Kind.coin)) conservation
    >> (parse_coin spec.payload >>= λ coin.
        fail_if
          (not (bytes_eq coin.token e.native_token) && not (transferable definitions coin.token))
          token_policy
        >> (add out.totals coin.token coin.amount >>= λ totals.
            or_error (shard_for_account e.shard_count spec.owner) wrong_shard >>= λ destination.
            fail_if (not (bytes_eq coin.token e.native_token) && not (destination == t.shard_id))
              token_policy
            >> (stamp_coin_output spec e.height >>= λ stamped. ok (
                place sha256 tx_id t.shard_id index destination stamped
                  (record out { totals = totals })))))

unfoldable pub emit :
    (Bytes → Bytes)
    → Engine
    → Transaction
    → Hash
    → Definitions
    → ℕ
    → List OutputSpec
    → Emitted
    → Result Emitted
unfolding emit_one
emit sha256 e t tx_id definitions index [] out = ok out
emit sha256 e t tx_id definitions index (spec ∷ outputs) out =
    emit_one sha256 e t tx_id definitions index spec out >>= λ next.
    emit sha256 e t tx_id definitions (index + 1) outputs next

-- What an input total must be.
unfoldable pub required_total : Engine → ℕ → Definitions → Totals → TokenId → Result ℕ
required_total e fee definitions outputs token =
    let required = total outputs token in
    if bytes_eq token e.native_token
    then (if ltb (max_u64 - required) fee then err amount_overflow else ok (required + fee))
    else if transferable definitions token
    then ok required
    else err token_policy

-- The third loop of `executeTransfer`, in the order in which the map is walked.
unfoldable pub settle : Engine → ℕ → Definitions → Totals → Totals → Result Totals
unfolding required_total
settle e fee definitions [] outputs = ok outputs
settle e fee definitions (entry ∷ inputs) outputs =
    required_total e fee definitions outputs entry.0 >>= λ required.
    fail_if (not (entry.1 == required)) conservation
    >> settle e fee definitions inputs (erase outputs entry.0)

unfoldable pub execute_transfer : Crypto → Engine → Transaction → Result Outcome
unfolding gather emit settle transaction_id
execute_transfer crypto e t = gather e.native_token t.sender t.witnesses nothing_gathered >>= λ g.
    let tx_id = transaction_id crypto t in
    emit crypto.sha256 e t tx_id g.definitions 0 t.outputs nothing_emitted >>= λ out.
    settle e t.fee g.definitions g.totals out.totals >>= λ left.
    fail_if (not (length left == 0)) conservation
    >> ok (record {
      consumed = g.consumed;
      created = out.created;
      outbound = out.outbound;
      tx_id = tx_id;
    })
