-- ===== src/Tests/Agreements.antt =====
-- Timelocks, proposals and lending terms.
use zephyr_chain.Base.{
  ◌+◌, ◌≤◌, ◌<◌, ◌^◌, ◌≡◌, ◌↔◌, refl, true, false, arith, Bytes, IsBytes, negsuc, ok,
}
use zephyr_chain.Governance.{
  Proposal, Timelock, validate_timelock, validate_min_delay, ready_at, expired_at, proposal_writer,
  marshal_proposal, parse_proposal, timelock_writer, marshal_timelock, parse_timelock,
}
use zephyr_chain.Governance.Windows.{
  phase_at, is_ready, is_expired, ready-expired-phase, ready_at-delay,
}
use zephyr_chain.Governance.Wire.{IsTimelock, parse_timelock-eq-ok_iff}
use zephyr_chain.Lending.{
  Terms, Loan, rate_fails, repayment_due, terms_writer, marshal_terms, parse_terms, loan_writer,
  marshal_loan, parse_loan,
}
use zephyr_chain.Lending.Repayment.{Due, repayment_due-eq-ok_iff}
use zephyr_chain.Lending.LoanWire.{IsLoan, parse_loan-eq-ok_iff}
use zephyr_chain.Tests.Common.{filled, IsBytes-of}

abbrev lock : Timelock
lock = record {
  proposal_hash = filled 1;
  authorization_hash = filled 2;
  authorized_height = 10;
  execute_after_height = 30;
  expires_height = 50;
}

abbrev change : Proposal
change = record {
  proposer = filled 1;
  action_kind = 2;
  action_hash = filled 2;
  created_height = 5;
  nonce = filled 3;
}

lock-valid : validate_timelock lock ≡ ok tt
unfolding validate_timelock
lock-valid = refl

ready-expired-phase_example :
    (ready_at lock 49 ≡ is_ready (phase_at lock 49))
    × (expired_at lock 49 ≡ is_expired (phase_at lock 49))
ready-expired-phase_example = ready-expired-phase lock 49 lock-valid

lock-delayed : validate_min_delay lock 20 ≡ ok tt
unfolding validate_min_delay
lock-delayed = refl

lock-ready : ready_at lock 49 ≡ true
unfolding ready_at
lock-ready = refl

ready_at-delay_example : 10 + 20 ≤ 49
ready_at-delay_example =
    ready_at-delay lock 20 49 (omega arith) (omega arith) lock-delayed lock-ready

lock-IsBytes : IsBytes (timelock_writer lock)
unfolding timelock_writer zephyr_chain.Codec.BigEndian.put_u16 zephyr_chain.Codec.BigEndian.put_u64
lock-IsBytes = IsBytes-of (timelock_writer lock) refl

lock-parses : parse_timelock (timelock_writer lock) ≡ ok lock
unfolding parse_timelock zephyr_chain.Codec.Reader.run zephyr_chain.Codec.Reader.◌>>=◌
    zephyr_chain.Codec.Reader.u16 timelock_writer zephyr_chain.Codec.BigEndian.put_u16
    zephyr_chain.Codec.BigEndian.put_u64 zephyr_chain.Codec.Reader.fixed
    zephyr_chain.Codec.Reader.u64 zephyr_chain.Codec.Reader.done validate_timelock
lock-parses = refl

parse_timelock-eq-ok_iff_example :
    (parse_timelock (timelock_writer lock) ≡ ok lock)
    ↔ (IsTimelock lock × (marshal_timelock lock ≡ ok (timelock_writer lock)))
parse_timelock-eq-ok_iff_example = parse_timelock-eq-ok_iff (timelock_writer lock) lock lock-IsBytes

change-IsBytes : IsBytes (proposal_writer change)
unfolding proposal_writer zephyr_chain.Codec.BigEndian.put_u16 zephyr_chain.Codec.BigEndian.put_u64
change-IsBytes = IsBytes-of (proposal_writer change) refl

change-parses : parse_proposal (proposal_writer change) ≡ ok change
unfolding parse_proposal zephyr_chain.Codec.Reader.run zephyr_chain.Codec.Reader.◌>>=◌
    zephyr_chain.Codec.Reader.u16 proposal_writer zephyr_chain.Codec.BigEndian.put_u16
    zephyr_chain.Codec.BigEndian.put_u64 zephyr_chain.Codec.Reader.fixed
    zephyr_chain.Codec.Reader.u64 zephyr_chain.Codec.Reader.done
    zephyr_chain.Governance.validate_proposal
change-parses = refl

-- A loan of 999 at a rate of -2.5 per cent: 24 of interest are taken off, rounded toward zero.
abbrev terms : Terms
terms = record {
  lender = filled 1;
  borrower = filled 2;
  principal = 999;
  collateral = 7;
  term_rate_bps = negsuc 249;
  maturity_height = 100;
}

terms-due : repayment_due terms ≡ ok 975
unfolding repayment_due
terms-due = refl

repayment_due-eq-ok_iff_example :
    (repayment_due terms ≡ ok 975) ↔ (Due 999 (negsuc 249) 975 × (0 < 975) × (975 < 2 ^ 64))
repayment_due-eq-ok_iff_example = repayment_due-eq-ok_iff terms 975 (omega arith) rate_within
  where
    rate_within : rate_fails (negsuc 249) ≡ false
    rate_within = unfold rate_fails in refl

terms-IsBytes : IsBytes (terms_writer terms)
unfolding terms_writer zephyr_chain.Codec.BigEndian.put_u16 zephyr_chain.Codec.BigEndian.put_u64
    zephyr_chain.Codec.BigEndian.put_u32
terms-IsBytes = IsBytes-of (terms_writer terms) refl

terms-parse : parse_terms (terms_writer terms) ≡ ok terms
unfolding parse_terms zephyr_chain.Codec.Reader.run zephyr_chain.Codec.Reader.◌>>=◌
    zephyr_chain.Codec.Reader.u16 terms_writer zephyr_chain.Codec.BigEndian.put_u16
    zephyr_chain.Codec.BigEndian.put_u64 zephyr_chain.Codec.BigEndian.put_u32
    zephyr_chain.Codec.Reader.fixed zephyr_chain.Codec.Reader.u64 zephyr_chain.Codec.Reader.u32
    zephyr_chain.Codec.Reader.done zephyr_chain.Lending.validate_terms
terms-parse = refl

abbrev accepted : Loan
accepted = record { offer_object = filled 6; terms = terms; accepted_height = 20 }

abbrev loan_wire : Bytes
loan_wire = loan_writer accepted (terms_writer terms)

loan-IsBytes : IsBytes loan_wire
unfolding loan_writer terms_writer zephyr_chain.Codec.BigEndian.put_u16
    zephyr_chain.Codec.BigEndian.put_u32 zephyr_chain.Codec.BigEndian.put_u64
loan-IsBytes = IsBytes-of loan_wire refl

loan-parses : parse_loan loan_wire ≡ ok accepted
unfolding parse_loan zephyr_chain.Codec.Reader.run zephyr_chain.Codec.Reader.◌>>=◌
    zephyr_chain.Codec.Reader.u16 loan_writer zephyr_chain.Codec.BigEndian.put_u16
    zephyr_chain.Codec.BigEndian.put_u32 terms_writer zephyr_chain.Codec.BigEndian.put_u64
    zephyr_chain.Codec.Reader.fixed zephyr_chain.Codec.Reader.bytes zephyr_chain.Codec.Reader.u64
    zephyr_chain.Codec.Reader.done zephyr_chain.Lending.validate_terms
    zephyr_chain.Lending.validate_loan
loan-parses = refl

parse_loan-eq-ok_iff_example :
    (parse_loan loan_wire ≡ ok accepted)
    ↔ (IsLoan accepted × (marshal_loan accepted ≡ ok loan_wire))
parse_loan-eq-ok_iff_example = parse_loan-eq-ok_iff loan_wire accepted loan-IsBytes
