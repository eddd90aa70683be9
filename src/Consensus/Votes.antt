-- ===== src/Consensus/Votes.antt =====
-- Proposals, votes and quorum certificates, internal/v2/consensus/consensus.go.
use zephyr_chain.Base.{
  ℕ, ◌/◌, Bool, not, ◌&&◌, ◌||◌, none, some, List, [], ◌∷◌, ltb, ◌==◌, if◌then◌else◌, Bytes, length,
  take, drop, bytes_eq, codes, Result, ok, err, ◌>>=◌, ◌>>◌, fail_if, succeeds, proposal, vote,
  certificate, insufficient_power,
}
use zephyr_chain.Codec.BigEndian.{word_from}
use zephyr_chain.Codec.Writer
use zephyr_chain.Codec.Writer.{◌▷◌}
use zephyr_chain.Codec.Hash.{domain_hash}
use zephyr_chain.Types.{
  Hash, NetworkId, ValidatorId, is_zero32, zero_hash, validator_id_from_public_key,
}
use zephyr_chain.Sharding.{GlobalHeader, header_bytes}
use zephyr_chain.Consensus.Validators.{
  Crypto, Validator, ValidatorSet, add_u64, add_powers, seen_before, find_validator, index_members,
  quorum_power, validate_set, validator_root, proposer,
}

pub record Proposal : Type 0 where
  pub header : GlobalHeader
  pub round : ℕ
  pub proposer : ValidatorId
  pub public_key : Bytes
  pub signature : Bytes

pub record Vote : Type 0 where
  pub network : NetworkId
  pub height : ℕ
  pub round : ℕ
  pub header_hash : Hash
  pub voter : ValidatorId
  pub public_key : Bytes
  pub signature : Bytes

pub record Certificate : Type 0 where
  pub network : NetworkId
  pub height : ℕ
  pub round : ℕ
  pub header_hash : Hash
  pub votes : List Vote

unfoldable pub vote_bytes : Vote → Bytes
vote_bytes v = Writer.bytes_copy (
    Writer.empty
    ▷ Writer.fixed v.network
    ▷ Writer.u64 v.height
    ▷ Writer.u64 v.round
    ▷ Writer.fixed v.header_hash
    ▷ Writer.fixed v.voter)

-- The test on each vote at the head of the loop of `VerifyCertificate`.
unfoldable pub votes_for : Certificate → Vote → Bool
votes_for c v =
    bytes_eq v.network c.network
    && v.height == c.height
    && v.round == c.round
    && bytes_eq v.header_hash c.header_hash

module _ (crypto : Crypto) where
  open crypto use {sha256, on_curve, ecdsa_verify, order}

  -- The certificate hash is left out of what is voted on.
  unfoldable pub header_consensus_hash : GlobalHeader → Hash
  header_consensus_hash header =
      domain_hash sha256 (codes "zephyr/global-header-consensus/v2")
        (header_bytes (record header { certificate_hash = zero_hash }))

  unfoldable pub proposal_digest : Proposal → Hash
  proposal_digest p = domain_hash sha256 (codes "zephyr/consensus/proposal/v2") (
      Writer.bytes_copy (
        Writer.empty
        ▷ Writer.fixed (header_consensus_hash p.header)
        ▷ Writer.u64 p.round
        ▷ Writer.fixed p.proposer))

  unfoldable pub vote_digest : Vote → Hash
  vote_digest v = domain_hash sha256 (codes "zephyr/consensus/vote/v2") (vote_bytes v)

  -- The two halves of the signature are numbers between 1 and the order of the curve, the second in
  -- the lower half.
  unfoldable pub verify_digest : Bytes → Hash → Bytes → Result (Unit {0})
  verify_digest public_key digest signature =
      if not (length public_key == 65) || not (length signature == 64)
      then err vote
      else if not (on_curve public_key)
      then err vote
      else (let r = word_from 0 (take 32 signature) in
          let s = word_from 0 (drop 32 signature) in
          if r == 0 || s == 0 || not (ltb r order) || not (ltb s order) || ltb (order / 2) s
          then err vote
          else fail_if (not (ecdsa_verify public_key digest r s)) vote)

  unfoldable pub verify_proposal : ValidatorSet → Proposal → Result (Unit {0})
  verify_proposal s p =
      if not (succeeds (validate_set crypto s))
        || not (bytes_eq p.header.network s.network)
        || p.header.height == 0
        || not (bytes_eq p.header.certificate_hash zero_hash)
      then err proposal
      else elim (validator_root crypto s) [
        | err _ ↦ err proposal
        | ok root ↦
            if not (bytes_eq root p.header.validator_root)
            then err proposal
            else elim (proposer crypto s p.header.height p.round) [
              | err _ ↦ err proposal
              | ok expected ↦
                  fail_if
                    (not (bytes_eq expected.id p.proposer)
                      || not (bytes_eq expected.public_key p.public_key)
                      || not
                          (bytes_eq (validator_id_from_public_key sha256 p.public_key) p.proposer)
                      || not
                          (succeeds (verify_digest p.public_key (proposal_digest p) p.signature)))
                    proposal
            ]
      ]

  -- A vote is signed by the validator that it names: the key hashes to the voter, and is the key that
  -- the set holds for it.
  unfoldable pub signed_by : Validator → Vote → Bool
  signed_by validator v =
      bytes_eq (validator_id_from_public_key sha256 v.public_key) v.voter
      && bytes_eq validator.public_key v.public_key
      && succeeds (verify_digest v.public_key (vote_digest v) v.signature)

  unfoldable pub verify_vote : ValidatorSet → Vote → Result (Unit {0})
  unfolding signed_by
  verify_vote s v =
      if not (bytes_eq v.network s.network)
        || v.height == 0
        || is_zero32 v.header_hash
        || not (bytes_eq (validator_id_from_public_key sha256 v.public_key) v.voter)
      then err vote
      else elim (find_validator v.voter s.validators) [
        | none ↦ err vote
        | some validator ↦ fail_if (not (signed_by validator v)) vote
      ]

  -- The loop of `VerifyCertificate`, with the voters seen and the power so far.
  unfoldable pub count_votes :
      List Validator → Certificate → List ValidatorId → ℕ → List Vote → Result ℕ
  count_votes members c seen power [] = ok power
  count_votes members c seen power (v ∷ votes) =
      if not (votes_for c v) || seen_before seen v.voter
      then err certificate
      else elim (find_validator v.voter members) [
        | none ↦ err certificate
        | some validator ↦
            if not (signed_by validator v)
            then err certificate
            else count_votes members c (v.voter ∷ seen) (add_u64 power validator.power) votes
      ]

  unfoldable pub verify_certificate : ValidatorSet → Certificate → Result (Unit {0})
  verify_certificate s c =
      if not (succeeds (validate_set crypto s))
        || not (bytes_eq c.network s.network)
        || c.height == 0
        || is_zero32 c.header_hash
      then err certificate
      else (do
        power ← count_votes (index_members [] s.validators) c [] 0 c.votes
        fail_if (ltb power (quorum_power (add_powers 0 s.validators))) insufficient_power)

  unfoldable pub build_certificate : ValidatorSet → Proposal → List Vote → Result Certificate
  unfolding verify_proposal verify_certificate
  build_certificate s p votes = do
    verify_proposal s p
    let c : Certificate = record {
      network = s.network;
      height = p.header.height;
      round = p.round;
      header_hash = header_consensus_hash p.header;
      votes = votes;
    }
    verify_certificate s c
    ok c
