-- ===== src/Tests/Consensus.antt =====
-- A set of two validators, and two certificates for different headers at one height and round.
use zephyr_chain.Base.{
  ℕ, ◌*◌, ◌+◌, ◌-◌, ◌%◌, ◌^◌, ◌↔◌, ◌≤◌, ◌<◌, ◌≡◌, ◌≢◌, refl, true, [], ◌∷◌, ◌++◌, arith, Bytes,
  replicate, ok, codes,
}
use zephyr_chain.Codec.BigEndian
use zephyr_chain.Codec.Hash
use zephyr_chain.Types.{ValidatorId, is_zero32, validator_id_from_public_key}
use zephyr_chain.Consensus.Validators
use zephyr_chain.Consensus.Votes
use zephyr_chain.Consensus.Validators.{
  Crypto, Validator, ValidatorSet, validate_set, proposer, bytes_lt, slot_of, quorum_power,
}
use zephyr_chain.Consensus.Votes.{Vote, Certificate, verify_certificate}
use zephyr_chain.Consensus.Power.{sum_power, power_where, quorum_power_bounds}
use zephyr_chain.Consensus.Safety.{voted_both, Equivocation, conflicting-certificates}
use zephyr_chain.Consensus.Proposers.{proposer_total}
use zephyr_chain.Consensus.Turns.{power_before, proposer-eq-ok_iff}
use mathlib.Core.List.{Mem, mem-cons_self}
use zephyr_chain.Tests.Common.{toy_sha256, filled}

-- Every point is on the curve, and every signature verifies.
abbrev pub toy : Crypto
toy = record {
  sha256 = toy_sha256;
  on_curve = λ _. true;
  ecdsa_verify = λ _ _ _ _. true;
  order = 7;
}

abbrev pub key : ℕ → Bytes
key n = 4 ∷ replicate 64 n

abbrev member : ℕ → ℕ → Validator
member n power = record { id = filled n; public_key = key n; power = power }

abbrev pub pair : ValidatorSet
pair = record { network = filled 9; validators = member 2 7 ∷ member 1 5 ∷ [] }

abbrev one : Bytes
one = replicate 31 0 ++ 1 ∷ []

abbrev pub vote_of : ℕ → ℕ → Vote
vote_of n header = record {
  network = filled 9;
  height = 4;
  round = 0;
  header_hash = filled header;
  voter = filled n;
  public_key = key n;
  signature = one ++ one;
}

abbrev pub certificate_of : ℕ → Certificate
certificate_of header = record {
  network = filled 9;
  height = 4;
  round = 0;
  header_hash = filled header;
  votes = vote_of 1 header ∷ vote_of 2 header ∷ [];
}

pair-valid : validate_set toy pair ≡ ok tt
unfolding validate_set is_zero32 validator_id_from_public_key Hash.domain_hash Hash.domain_frame
    BigEndian.put_u32 codes
pair-valid = refl

first-verifies : verify_certificate toy pair (certificate_of 3) ≡ ok tt
unfolding verify_certificate validate_set is_zero32 validator_id_from_public_key Hash.domain_hash
    Hash.domain_frame BigEndian.put_u32 codes Votes.count_votes Votes.votes_for
    Validators.find_validator Validators.index_members Votes.signed_by Votes.verify_digest
    BigEndian.word_from quorum_power Validators.add_powers
first-verifies = refl

second-verifies : verify_certificate toy pair (certificate_of 5) ≡ ok tt
unfolding verify_certificate validate_set is_zero32 validator_id_from_public_key Hash.domain_hash
    Hash.domain_frame BigEndian.put_u32 codes Votes.count_votes Votes.votes_for
    Validators.find_validator Validators.index_members Votes.signed_by Votes.verify_digest
    BigEndian.word_from quorum_power Validators.add_powers
second-verifies = refl

headers-differ : (certificate_of 3).header_hash ≢ (certificate_of 5).header_hash
headers-differ e = cc

conflicting-certificates_example :
    (sum_power pair.validators
      < 3 * power_where (voted_both (certificate_of 3) (certificate_of 5)) pair.validators)
    × ((id : ValidatorId)
        → voted_both (certificate_of 3) (certificate_of 5) id ≡ true
        → Equivocation toy id)
conflicting-certificates_example =
    conflicting-certificates toy pair (certificate_of 3) (certificate_of 5) first-verifies
      second-verifies refl refl headers-differ

quorum_power_bounds_example :
    (2 * 12 < 3 * quorum_power 12) × (3 * quorum_power 12 ≤ 2 * 12 + 3) × (quorum_power 12 ≤ 12)
quorum_power_bounds_example = quorum_power_bounds 12 (omega arith) (omega arith)

proposer_total_example : (v : Validator) × (proposer toy pair 8 2 ≡ ok v) × Mem v pair.validators
proposer_total_example = proposer_total toy pair 8 2 pair-valid (omega arith)

small_power : sum_power pair.validators ≤ 2 ^ 63
unfolding sum_power
small_power = omega arith

-- The slot of height 8 and round 2 is 9, which is past the five slots of the first.
proposer-eq-ok_iff_example : (proposer toy pair 8 2 ≡ ok (member 2 7)) ↔ (
    Mem (member 2 7) pair.validators
    × (power_before (member 2 7).id pair.validators ≤ (8 - 1 + 2) % sum_power pair.validators)
    × ((8 - 1 + 2) % sum_power pair.validators < power_before (member 2 7).id pair.validators + 7))
proposer-eq-ok_iff_example =
    proposer-eq-ok_iff toy pair 8 2 (member 2 7) pair-valid small_power (omega arith)

-- Both sides hold there, and the powers before the two validators are 0 and 5.
second_proposes : proposer toy pair 8 2 ≡ ok (member 2 7)
unfolding sum_power power_where bytes_lt
second_proposes =
    (proposer-eq-ok_iff toy pair 8 2 (member 2 7) pair-valid small_power (omega arith)).1
      (mem-cons_self, omega arith, omega arith)

-- With a total power above 2 ^ 63 the sum of the two remainders can wrap around: the slot after the
-- last is then not the second but the first again.
slot_wraps : (slot_of (2 ^ 64 - 1) (2 ^ 64 - 1) 2 ≡ 0) × ((2 ^ 64 - 1 - 1 + 2) % (2 ^ 64 - 1) ≡ 1)
unfolding slot_of
slot_wraps = (refl, refl)
