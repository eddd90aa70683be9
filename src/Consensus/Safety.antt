-- ===== src/Consensus/Safety.antt =====
-- Quorum intersection and accountability: what two verified certificates of one validator set have
-- in common.
use zephyr_chain.Base.{
  ◌*◌, ◌<◌, ◌≡◌, ◌≢◌, refl, sym, ◌∙◌, Bool, true, ◌&&◌, some, List, [], ◌∷◌, arith, All, bytes_eq,
  bytes_eq_iff, Bool-cases, inl, inr, ok, succeeds-eq-ok,
}
use zephyr_chain.Types.{ValidatorId, validator_id_from_public_key}
use zephyr_chain.Consensus.Validators.{Crypto, Validator, ValidatorSet, find_validator}
use zephyr_chain.Consensus.Votes.{
  Vote, Certificate, votes_for, signed_by, verify_certificate, verify_digest, vote_digest,
}
use zephyr_chain.Consensus.Power.{power_where, sum_power, quorum_power_bounds}
use zephyr_chain.Consensus.Quorums.{voted, power_overlap, Counted, verify_certificate-Certified}

-- The validators with a vote in both certificates.
abbrev pub voted_both : Certificate → Certificate → ValidatorId → Bool
voted_both c d id = voted c.votes id && voted d.votes id

module _ (crypto : Crypto) where
  -- Two certificates that one validator set verifies, for whatever headers, have voters in common,
  -- and these hold more than a third of the set's power.
  pub certificates-overlap :
      (s : ValidatorSet) (c d : Certificate)
      → verify_certificate crypto s c ≡ ok tt
      → verify_certificate crypto s d ≡ ok tt
      → sum_power s.validators < 3 * power_where (voted_both c d) s.validators
  certificates-overlap s c d hc hd =
      let x = verify_certificate-Certified crypto s c hc in
      let y = verify_certificate-Certified crypto s d hd in
      let (above, _, _) =
        quorum_power_bounds (sum_power s.validators) (omega (arith, x.checked.fits)) x.total_pos in
      omega (
        arith,
        above,
        x.quorum,
        y.quorum,
        power_overlap (voted c.votes) (voted d.votes) s.validators,
      )

  -- Two votes of one voter, each under a signature that verifies with the voter's key, for different
  -- headers at one height and round.
  pub record Equivocation (id : ValidatorId) : Type 0 where
    pub first : Vote
    pub second : Vote
    pub first_voter : first.voter ≡ id
    pub second_voter : second.voter ≡ id
    pub one_key : first.public_key ≡ second.public_key
    pub key_id : validator_id_from_public_key crypto.sha256 first.public_key ≡ id
    pub one_height : first.height ≡ second.height
    pub one_round : first.round ≡ second.round
    pub headers_differ : first.header_hash ≢ second.header_hash
    pub first_signed :
        verify_digest crypto first.public_key (vote_digest crypto first) first.signature ≡ ok tt
    pub second_signed :
        verify_digest crypto second.public_key (vote_digest crypto second) second.signature ≡ ok tt

  -- A voter's counted vote, with what was tested of it.
  record Ballot (c : Certificate) (vs : List Validator) (id : ValidatorId) : Type 0 where
    cast : Vote
    voter : cast.voter ≡ id
    height : cast.height ≡ c.height
    round : cast.round ≡ c.round
    header : cast.header_hash ≡ c.header_hash
    holder : Validator
    member : find_validator id vs ≡ some holder
    key : holder.public_key ≡ cast.public_key
    key_id : validator_id_from_public_key crypto.sha256 cast.public_key ≡ id
    verified : verify_digest crypto cast.public_key (vote_digest crypto cast) cast.signature ≡ ok tt

  Counted-Ballot :
      (c : Certificate) (vs : List Validator) (v : Vote)
      → Counted crypto c vs v
      → Ballot c vs v.voter
  unfolding votes_for signed_by
  Counted-Ballot c vs v h = record {
    cast = v;
    voter = refl;
    height = ground (arith, h.for_header);
    round = ground (arith, h.for_header);
    header = ground (arith, h.for_header, bytes_eq_iff v.header_hash c.header_hash);
    holder = h.validator;
    member = h.member;
    key = ground (arith, h.signed, bytes_eq_iff h.validator.public_key v.public_key);
    key_id = ground (
      arith,
      h.signed,
      bytes_eq_iff (validator_id_from_public_key crypto.sha256 v.public_key) v.voter,
    );
    verified =
        succeeds-eq-ok (verify_digest crypto v.public_key (vote_digest crypto v) v.signature)
          (ground (arith, h.signed));
  }

  Ballot-of :
      (c : Certificate) (vs : List Validator) (votes : List Vote) (id : ValidatorId)
      → All (Counted crypto c vs) votes
      → voted votes id ≡ true
      → Ballot c vs id
  unfolding voted
  Ballot-of c vs [] id all h = absurd (cc h)
  Ballot-of c vs (v ∷ votes) id all h = elim (Bool-cases (bytes_eq v.voter id)) [
    | inl here ↦ rw (← (bytes_eq_iff v.voter id).0 here) (Counted-Ballot c vs v all.0)
    | inr there ↦ Ballot-of c vs votes id all.1 (ground arith)
  ]

  -- If one validator set verifies certificates for two different headers at one height and round,
  -- then voters with more than a third of its power are in both, and each of them has signed two
  -- votes for different headers at that height and round with its own key.
  pub conflicting-certificates :
      (s : ValidatorSet) (c d : Certificate)
      → verify_certificate crypto s c ≡ ok tt
      → verify_certificate crypto s d ≡ ok tt
      → c.height ≡ d.height
      → c.round ≡ d.round
      → c.header_hash ≢ d.header_hash
      → (sum_power s.validators < 3 * power_where (voted_both c d) s.validators)
        × ((id : ValidatorId) → voted_both c d id ≡ true → Equivocation id)
  conflicting-certificates s c d hc hd same_height same_round differ = (
    certificates-overlap s c d hc hd,
    λ id both.
        let x = verify_certificate-Certified crypto s c hc in
        let y = verify_certificate-Certified crypto s d hd in
        let a = Ballot-of c s.validators c.votes id x.counted (ground arith) in
        let b = Ballot-of d s.validators d.votes id y.counted (ground arith) in
        record {
          first = a.cast;
          second = b.cast;
          first_voter = a.voter;
          second_voter = b.voter;
          one_key = cc (a.key, b.key, a.member, b.member);
          key_id = a.key_id;
          one_height = cc (a.height, b.height);
          one_round = cc (a.round, b.round);
          headers_differ = λ e. differ (sym a.header ∙ e ∙ b.header);
          first_signed = a.verified;
          second_signed = b.verified;
        },
  )
