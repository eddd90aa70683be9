-- ===== src/Governance.antt =====
-- Governance commitments, internal/v2/governance/timelock.go: proposals, and timelocks with their
-- window of heights.
pub mod Windows
pub mod Wire
use zephyr_chain.Base.{
  ℕ, ◌+◌, ◌-◌, ◌%◌, ◌^◌, Bool, true, false, not, ◌&&◌, ◌||◌, ltb, leb, ◌==◌, if◌then◌else◌, ◌++◌,
  Bytes, codes, Result, ok, err, checked, succeeds, fail_if, governance,
}
use zephyr_chain.Base
use zephyr_chain.Codec.Writer
use zephyr_chain.Codec.Writer.{◌▷◌}
use zephyr_chain.Codec.Reader
use zephyr_chain.Codec.Reader.{Parser, ◌‼◌, ◌>>=◌, ◌>>◌, run, done, lift, require_not}
use zephyr_chain.Codec.Hash.{domain_hash}
use zephyr_chain.Types.{Hash, AccountId, is_zero32}

-- `Version`
abbrev pub version : ℕ
version = 1

-- `ActionKind.Valid`: ActionProtocolParameter, ActionValidatorTransition and ActionEconomicActivation.
unfoldable pub action_valid : ℕ → Bool
action_valid k = k == 1 || (k == 2 || k == 3)

pub record Proposal : Type 0 where
  pub proposer : AccountId
  pub action_kind : ℕ
  pub action_hash : Hash
  pub created_height : ℕ
  pub nonce : Hash

pub record Timelock : Type 0 where
  pub proposal_hash : Hash
  pub authorization_hash : Hash
  pub authorized_height : ℕ
  pub execute_after_height : ℕ
  pub expires_height : ℕ

unfoldable pub validate_proposal : Proposal → Result (Unit {0})
unfolding action_valid is_zero32
validate_proposal p =
    fail_if
      (is_zero32 p.proposer
        || (not (action_valid p.action_kind)
            || (is_zero32 p.action_hash || (p.created_height == 0 || is_zero32 p.nonce))))
      governance

unfoldable pub proposal_writer : Proposal → Bytes
unfolding Writer.bytes_copy
proposal_writer p = Writer.bytes_copy (
    Writer.empty
    ▷ Writer.u16 version
    ▷ Writer.fixed p.proposer
    ▷ Writer.u16 p.action_kind
    ▷ Writer.fixed p.action_hash
    ▷ Writer.u64 p.created_height
    ▷ Writer.fixed p.nonce)

unfoldable pub marshal_proposal : Proposal → Result Bytes
unfolding proposal_writer validate_proposal
marshal_proposal p = checked (validate_proposal p) (proposal_writer p)

read_proposal : Parser Proposal
read_proposal = do
  v ← Reader.u16 ‼ governance
  require_not (not (v == version)) governance
  proposer ← Reader.fixed 32 ‼ governance
  kind ← Reader.u16 ‼ governance
  action_hash ← Reader.fixed 32 ‼ governance
  created_height ← Reader.u64 ‼ governance
  nonce ← Reader.fixed 32 ‼ governance
  done ‼ governance
  let out : Proposal = record {
    proposer = proposer;
    action_kind = kind;
    action_hash = action_hash;
    created_height = created_height;
    nonce = nonce;
  }
  lift (checked (validate_proposal out) out)

unfoldable pub parse_proposal : Bytes → Result Proposal
unfolding read_proposal
parse_proposal payload = run read_proposal payload

unfoldable pub validate_timelock : Timelock → Result (Unit {0})
unfolding is_zero32
validate_timelock t =
    fail_if
      (is_zero32 t.proposal_hash
        || (is_zero32 t.authorization_hash
            || (t.authorized_height == 0
                || (leb t.execute_after_height t.authorized_height
                    || (not (t.expires_height == 0)
                        && leb t.expires_height t.execute_after_height)))))
      governance

-- The subtraction does not wrap around: the lock has passed `Validate`.
unfoldable pub validate_min_delay : Timelock → ℕ → Result (Unit {0})
unfolding validate_timelock
validate_min_delay t min_delay = Base.◌>>◌ (validate_timelock t) (
    fail_if (ltb ((t.execute_after_height + 2 ^ 64 - t.authorized_height) % 2 ^ 64) min_delay)
      governance)

unfoldable pub ready_at : Timelock → ℕ → Bool
unfolding validate_timelock
ready_at t height =
    if height == 0 || (not (succeeds (validate_timelock t)) || ltb height t.execute_after_height)
    then false
    else t.expires_height == 0 || ltb height t.expires_height

unfoldable pub expired_at : Timelock → ℕ → Bool
unfolding validate_timelock
expired_at t height =
    succeeds (validate_timelock t) && (not (t.expires_height == 0) && leb t.expires_height height)

unfoldable pub timelock_writer : Timelock → Bytes
unfolding Writer.bytes_copy
timelock_writer t = Writer.bytes_copy (
    Writer.empty
    ▷ Writer.u16 version
    ▷ Writer.fixed t.proposal_hash
    ▷ Writer.fixed t.authorization_hash
    ▷ Writer.u64 t.authorized_height
    ▷ Writer.u64 t.execute_after_height
    ▷ Writer.u64 t.expires_height)

unfoldable pub marshal_timelock : Timelock → Result Bytes
unfolding timelock_writer validate_timelock
marshal_timelock t = checked (validate_timelock t) (timelock_writer t)

read_timelock : Parser Timelock
read_timelock = do
  v ← Reader.u16 ‼ governance
  require_not (not (v == version)) governance
  proposal_hash ← Reader.fixed 32 ‼ governance
  authorization_hash ← Reader.fixed 32 ‼ governance
  authorized_height ← Reader.u64 ‼ governance
  execute_after_height ← Reader.u64 ‼ governance
  expires_height ← Reader.u64 ‼ governance
  done ‼ governance
  let out : Timelock = record {
    proposal_hash = proposal_hash;
    authorization_hash = authorization_hash;
    authorized_height = authorized_height;
    execute_after_height = execute_after_height;
    expires_height = expires_height;
  }
  lift (checked (validate_timelock out) out)

unfoldable pub parse_timelock : Bytes → Result Timelock
unfolding read_timelock
parse_timelock payload = run read_timelock payload

module _ (sha256 : Bytes → Bytes) where
  unfoldable pub proposal_hash : Proposal → Result Hash
  unfolding marshal_proposal
  proposal_hash p =
      Base.◌>>=◌ (marshal_proposal p)
        λ raw. ok (domain_hash sha256 (codes "zephyr/governance/proposal/v1") raw)

  unfoldable pub timelock_hash : Timelock → Result Hash
  unfolding marshal_timelock
  timelock_hash t =
      Base.◌>>=◌ (marshal_timelock t)
        λ raw. ok (domain_hash sha256 (codes "zephyr/governance/timelock/v1") raw)
