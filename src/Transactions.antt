-- ===== src/Transactions.antt =====
-- Proof-carrying transactions, internal/v2/tx/transaction.go: their canonical bytes, the static checks and
-- the witnesses. The curve operations of the standard library and SHA-256 are the fields of `Crypto`.
pub mod Witnessed
use zephyr_chain.Base.{
  ℕ, ◌+◌, ◌*◌, ◌/◌, ◌%◌, ◌^◌, Bool, true, false, not, ◌&&◌, ◌||◌, ltb, ◌==◌, if◌then◌else◌, List,
  [], ◌∷◌, some, Bytes, length, take, drop, replicate, bytes_eq, codes, Result, ok, err, checked,
  fail_if, or_error, succeeds, ◌>>=◌, ◌>>◌, invalid_version, invalid_network, invalid_sender,
  invalid_signature, signature_form, invalid_structure, invalid_witness, transaction_expired,
  invalid_wire,
}
use zephyr_chain.Codec.BigEndian.{word_from}
use zephyr_chain.Codec.Writer
use zephyr_chain.Codec.Writer.{Writer, ◌▷◌}
use zephyr_chain.Codec.Hash.{domain_hash}
use zephyr_chain.Types.{Hash, NetworkId, AccountId, ObjectId, is_zero32, account_id_from_public_key}
use zephyr_chain.Object
use zephyr_chain.Object.{Object, OutputSpec, validate_output}
use zephyr_chain.State
use zephyr_chain.Consensus.Validators.{Crypto}
use zephyr_chain.World.{seen_in}

abbrev pub version_two : ℕ
version_two = 2

abbrev pub op_transfer : ℕ
op_transfer = 1

abbrev pub op_create_token : ℕ
op_create_token = 2

abbrev pub max_inputs : ℕ
max_inputs = 4096

abbrev pub max_outputs : ℕ
max_outputs = 4096

abbrev pub max_operations : ℕ
max_operations = 64

-- `4 << 20`
abbrev pub max_op_payload : ℕ
max_op_payload = 4 * 2 ^ 20

-- `32 << 20`
abbrev pub max_wire_bytes : ℕ
max_wire_bytes = 32 * 2 ^ 20

pub record InputRef : Type 0 where
  pub object_id : ObjectId
  pub version : ℕ
  pub object_hash : Hash

pub record Operation : Type 0 where
  pub kind : ℕ
  pub payload : Bytes

pub record Witness : Type 0 where
  pub object : Object
  pub proof : State.Proof

pub record Transaction : Type 0 where
  pub version : ℕ
  pub network : NetworkId
  pub shard_id : ℕ
  pub sender : AccountId
  pub sender_public_key : Bytes
  pub state_root : Hash
  pub inputs : List InputRef
  pub outputs : List OutputSpec
  pub operations : List Operation
  pub fee : ℕ
  pub valid_until_height : ℕ
  pub salt : Bytes
  pub signature : Bytes
  pub witnesses : List Witness

-- The loops of `IntentBytes` and `MarshalBinary`.
unfoldable pub write_inputs : List InputRef → Writer → Writer
write_inputs [] w = w
write_inputs (i ∷ inputs) w =
    write_inputs inputs
      (w ▷ Writer.fixed i.object_id ▷ Writer.u64 i.version ▷ Writer.fixed i.object_hash)

unfoldable pub write_outputs : List OutputSpec → Writer → Writer
write_outputs [] w = w
write_outputs (o ∷ outputs) w = write_outputs outputs (w ▷ Writer.bytes (Object.canonical_output o))

unfoldable pub write_operations : List Operation → Writer → Writer
write_operations [] w = w
write_operations (op ∷ operations) w =
    write_operations operations (w ▷ Writer.u16 op.kind ▷ Writer.bytes op.payload)

unfoldable pub write_witnesses : List Witness → Writer → Writer
write_witnesses [] w = w
write_witnesses (x ∷ witnesses) w = write_witnesses witnesses (
    w ▷ Writer.bytes (Object.canonical_bytes x.object) ▷ Writer.bytes (State.marshal_proof x.proof))

unfoldable pub intent_bytes : Transaction → Bytes
unfolding write_inputs write_outputs write_operations
intent_bytes t = Writer.bytes_copy (
    Writer.empty
    ▷ Writer.u16 t.version
    ▷ Writer.fixed t.network
    ▷ Writer.u32 t.shard_id
    ▷ Writer.fixed t.sender
    ▷ Writer.bytes t.sender_public_key
    ▷ Writer.fixed t.state_root
    ▷ Writer.u32 (length t.inputs % 2 ^ 32)
    ▷ write_inputs t.inputs
    ▷ Writer.u32 (length t.outputs % 2 ^ 32)
    ▷ write_outputs t.outputs
    ▷ Writer.u32 (length t.operations % 2 ^ 32)
    ▷ write_operations t.operations
    ▷ Writer.u64 t.fee
    ▷ Writer.u64 t.valid_until_height
    ▷ Writer.fixed t.salt)

-- The loops of `ValidateStatic`.
unfoldable pub check_inputs : List ObjectId → List InputRef → Result (Unit {0})
unfolding seen_in
check_inputs seen [] = ok tt
check_inputs seen (i ∷ inputs) =
    fail_if
      (is_zero32 i.object_id
        || i.version == 0
        || is_zero32 i.object_hash
        || seen_in i.object_id seen)
      invalid_structure
    >> check_inputs (i.object_id ∷ seen) inputs

unfoldable pub check_outputs : List OutputSpec → Result (Unit {0})
check_outputs [] = ok tt
check_outputs (o ∷ outputs) =
    or_error (validate_output o) invalid_structure >> check_outputs outputs

unfoldable pub check_operations : List Operation → Result (Unit {0})
check_operations [] = ok tt
check_operations (op ∷ operations) =
    fail_if (op.kind == 0 || ltb max_op_payload (length op.payload)) invalid_structure
    >> check_operations operations

abbrev pub zero_salt : Bytes
zero_salt = replicate 16 0

module _ (crypto : Crypto) where
  open crypto use {sha256, on_curve, ecdsa_verify, order}

  unfoldable pub signing_digest : Transaction → Hash
  unfolding intent_bytes
  signing_digest t = domain_hash sha256 (codes "zephyr/transaction/signing/v2") (intent_bytes t)

  -- `ID`
  unfoldable pub transaction_id : Transaction → Hash
  unfolding intent_bytes
  transaction_id t = domain_hash sha256 (codes "zephyr/transaction/id/v2") (intent_bytes t)

  unfoldable pub verify_signature : Bytes → Hash → Bytes → Result (Unit {0})
  verify_signature public_key digest signature =
      if not (length signature == 64)
      then err invalid_signature
      else (let r = word_from 0 (take 32 signature) in
          let s = word_from 0 (drop 32 signature) in
          if r == 0 || s == 0 || not (ltb r order) || not (ltb s order)
          then err invalid_signature
          else if ltb (order / 2) s
          then err signature_form
          else fail_if (not (ecdsa_verify public_key digest r s)) invalid_signature)

  unfoldable pub validate_static : Transaction → Result (Unit {0})
  unfolding check_inputs check_outputs check_operations verify_signature signing_digest
  validate_static t =
      fail_if (not (t.version == version_two)) invalid_version
      >> (fail_if (is_zero32 t.network || is_zero32 t.state_root) invalid_network
          >> (fail_if
                (not (length t.sender_public_key == 65)
                  || not (on_curve t.sender_public_key)
                  || not
                      (bytes_eq (account_id_from_public_key sha256 t.sender_public_key) t.sender))
                invalid_sender
              >> (fail_if
                    (bytes_eq t.salt zero_salt
                      || ltb max_inputs (length t.inputs)
                      || ltb max_outputs (length t.outputs)
                      || length t.operations == 0
                      || ltb max_operations (length t.operations))
                    invalid_structure
                  >> (check_inputs [] t.inputs
                      >> (check_outputs t.outputs
                          >> (check_operations t.operations
                              >> verify_signature t.sender_public_key (signing_digest t)
                                  t.signature))))))

  unfoldable pub validate_at_height : ℕ → Transaction → Result (Unit {0})
  unfolding validate_static
  validate_at_height height t =
      validate_static t
      >> fail_if (ltb 0 t.valid_until_height && ltb t.valid_until_height height) transaction_expired

  unfoldable pub verify_for_network : NetworkId → Transaction → Result (Unit {0})
  unfolding validate_static
  verify_for_network network t =
      fail_if (not (bytes_eq t.network network)) invalid_network >> validate_static t

  -- One turn of the loop of `VerifyWitnesses`.
  unfoldable pub verify_witness : Hash → InputRef → Witness → Result (Unit {0})
  verify_witness state_root i w =
      let hash = Object.object_hash sha256 w.object in
      fail_if
        (not (bytes_eq w.object.id i.object_id)
          || not (w.object.version == i.version)
          || not (bytes_eq hash i.object_hash)
          || not (State.verify sha256 state_root i.object_id (some hash) w.proof))
        invalid_witness

  unfoldable pub verify_each : Hash → List InputRef → List Witness → Result (Unit {0})
  unfolding verify_witness
  verify_each state_root [] [] = ok tt
  verify_each state_root [] (w ∷ witnesses) = err invalid_witness
  verify_each state_root (i ∷ inputs) [] = err invalid_witness
  verify_each state_root (i ∷ inputs) (w ∷ witnesses) =
      verify_witness state_root i w >> verify_each state_root inputs witnesses

  -- `len(t.Witnesses) != len(t.Inputs)` comes first, so that the loop runs over pairs.
  unfoldable pub verify_witnesses : Transaction → Result (Unit {0})
  unfolding verify_each
  verify_witnesses t =
      fail_if (not (length t.witnesses == length t.inputs)) invalid_witness
      >> verify_each t.state_root t.inputs t.witnesses

  -- `MarshalBinary`
  unfoldable pub marshal_transaction : Transaction → Result Bytes
  unfolding validate_static write_witnesses intent_bytes
  marshal_transaction t =
      validate_static t
      >> (fail_if (not (length t.witnesses == length t.inputs)) invalid_witness
          >> (let payload = Writer.bytes_copy (
                Writer.empty
                ▷ Writer.bytes (intent_bytes t)
                ▷ Writer.bytes t.signature
                ▷ Writer.u32 (length t.witnesses % 2 ^ 32)
                ▷ write_witnesses t.witnesses) in
              checked (fail_if (ltb max_wire_bytes (length payload)) invalid_wire) payload))
