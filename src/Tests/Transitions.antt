-- ===== src/Tests/Transitions.antt =====
-- A transition that keeps a set of one validator, under a hash with one result.
use zephyr_chain.Base.{◌≡◌, ◌⊎◌, refl, true, [], ◌∷◌, Bytes, Result, ok}
use zephyr_chain.Codec.Hash.{HashCollision}
use zephyr_chain.Types.{zero_hash}
use zephyr_chain.Sharding.{GlobalHeader}
use zephyr_chain.Consensus.Validators.{Crypto, ValidatorSet, validator_root}
use zephyr_chain.Consensus.Votes.{Certificate}
use zephyr_chain.Consensus.Transitions.{
  SizedHeader, Conflict, verify_certified_transition, transitions-agree,
}
use zephyr_chain.Tests.Common.{filled}
use zephyr_chain.Tests.Consensus.{key, vote_of}

abbrev flat_sha256 : Bytes → Bytes
flat_sha256 x = filled 9

abbrev flat : Crypto
flat = record {
  sha256 = flat_sha256;
  on_curve = λ _. true;
  ecdsa_verify = λ _ _ _ _. true;
  order = 7;
}

abbrev alone : ValidatorSet
alone = record {
  network = filled 9;
  validators = (record { id = filled 9; public_key = key 9; power = 7 }) ∷ [];
}

abbrev agreed : Certificate
agreed = record {
  network = filled 9;
  height = 4;
  round = 0;
  header_hash = filled 9;
  votes = vote_of 9 9 ∷ [];
}

abbrev header : GlobalHeader
header = record {
  version = 2;
  network = filled 9;
  height = 4;
  parent_hash = filled 1;
  shard_commitment_root = filled 2;
  validator_root = filled 9;
  next_validator_root = zero_hash;
  data_root = filled 3;
  certificate_hash = filled 9;
}

header-SizedHeader : SizedHeader header
header-SizedHeader = record {
  network_sized = refl;
  parent_sized = refl;
  shards_sized = refl;
  validators_sized = refl;
  next_sized = refl;
}

transition-accepted : verify_certified_transition flat header agreed alone alone ≡ ok tt
unfolding verify_certified_transition validator_root zephyr_chain.Types.is_zero32
    zephyr_chain.Types.validator_id_from_public_key zephyr_chain.Codec.Hash.domain_hash
    zephyr_chain.Merkle.root zephyr_chain.Merkle.next_power_of_two zephyr_chain.Merkle.leaf
    zephyr_chain.Merkle.branch zephyr_chain.Merkle.collapse zephyr_chain.Merkle.padded
    zephyr_chain.Merkle.reduce zephyr_chain.Consensus.Votes.header_consensus_hash
    zephyr_chain.Consensus.Votes.verify_certificate zephyr_chain.Consensus.Votes.count_votes
    zephyr_chain.Consensus.Votes.votes_for zephyr_chain.Consensus.Validators.find_validator
    zephyr_chain.Consensus.Validators.index_members zephyr_chain.Consensus.Votes.signed_by
    zephyr_chain.Consensus.Votes.verify_digest zephyr_chain.Codec.BigEndian.word_from
    zephyr_chain.Consensus.Validators.quorum_power zephyr_chain.Consensus.Validators.add_powers
    zephyr_chain.Consensus.Validators.validate_set
    zephyr_chain.Sharding.effective_next_validator_root zephyr_chain.Base.bytes_eq
    zephyr_chain.Consensus.Votes.vote_digest zephyr_chain.Merkle.get_or_empty
transition-accepted = refl

transitions-agree_example :
    (validator_root flat alone ≡ validator_root flat alone)
    ⊎ (Conflict flat alone agreed agreed ⊎ HashCollision flat_sha256)
transitions-agree_example =
    transitions-agree flat header header agreed agreed alone alone alone header-SizedHeader
      header-SizedHeader refl refl transition-accepted transition-accepted
