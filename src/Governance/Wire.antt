-- ===== src/Governance/Wire.antt =====
-- Proposals and timelocks on the wire.
use zephyr_chain.Base.{
  ℕ, ◌≡◌, refl, ap, false, not, ◌==◌, ◌↔◌, governance, [], ◌++◌, append-nil, append_assoc, arith,
  Bytes, IsBytes, Result, ok, checked, checked-eq-ok,
}
use zephyr_chain.Codec.BigEndian.{IsU16, IsU64, put_u16, put_u64}
use zephyr_chain.Codec.Writer
use zephyr_chain.Codec.Reads.{
  Reads-fixed, Reads-u16, Reads-u64, Reads-or, ReadsAll-bind, ReadsAll-require, ReadsAll-done,
  ReadsAll-lift, run-ReadsAll,
}
use zephyr_chain.Codec.Accepts.{
  AcceptsAll, Accepts-fixed, Accepts-u16, Accepts-u64, Accepts-or, AcceptsAll-bind,
  AcceptsAll-require, AcceptsAll-done, AcceptsAll-lift, run-AcceptsAll,
}
use zephyr_chain.Types.{IsHash}
use zephyr_chain.Governance.{
  Proposal, Timelock, version, validate_proposal, proposal_writer, marshal_proposal, read_proposal,
  parse_proposal, validate_timelock, timelock_writer, marshal_timelock, read_timelock,
  parse_timelock,
}

checked-ok : {A : Type 0} (r : Result (Unit {0})) (a b : A) → r ≡ ok tt → a ≡ b → checked r a ≡ ok b
checked-ok r a b h e = rw h (ap ok e)

version_one : (v : ℕ) → not (v == version) ≡ false → v ≡ 1
version_one v h = ground arith

-- Fields that fit their Go types, in a value that `Validate` lets pass.
pub record IsProposal (p : Proposal) : Type 0 where
  pub proposer_fits : IsHash p.proposer
  pub kind_fits : IsU16 p.action_kind
  pub action_fits : IsHash p.action_hash
  pub height_fits : IsU64 p.created_height
  pub nonce_fits : IsHash p.nonce
  pub valid : validate_proposal p ≡ ok tt

proposal_layout :
    (p : Proposal)
    → proposal_writer p
      ≡ put_u16 version
        ++ (p.proposer
            ++ (put_u16 p.action_kind
                ++ (p.action_hash ++ (put_u64 p.created_height ++ (p.nonce ++ [])))))
unfolding proposal_writer Writer.bytes_copy
proposal_layout p = simp (append_assoc, append-nil)

parse-proposal_writer : (p : Proposal) → IsProposal p → parse_proposal (proposal_writer p) ≡ ok p
unfolding parse_proposal
parse-proposal_writer p h = rw (proposal_layout p) (
    run-ReadsAll (
      ReadsAll-bind _ (Reads-or _ (Reads-u16 version (omega arith))) (
        ReadsAll-require _ governance refl (
          ReadsAll-bind _ (Reads-or _ (Reads-fixed 32 p.proposer h.proposer_fits.0)) (
            ReadsAll-bind _ (Reads-or _ (Reads-u16 p.action_kind h.kind_fits)) (
              ReadsAll-bind _ (Reads-or _ (Reads-fixed 32 p.action_hash h.action_fits.0)) (
                ReadsAll-bind _ (Reads-or _ (Reads-u64 p.created_height h.height_fits)) (
                  ReadsAll-bind _ (Reads-or _ (Reads-fixed 32 p.nonce h.nonce_fits.0))
                    (ReadsAll-done _ (ReadsAll-lift _ p (rw h.valid)))))))))))

parse_proposal-inv :
    (w : Bytes) (p : Proposal)
    → IsBytes w
    → parse_proposal w ≡ ok p
    → IsProposal p × (proposal_writer p ≡ w)
unfolding parse_proposal
parse_proposal-inv w p bs e = run-AcceptsAll accepted w p bs e
  where
    accepted : AcceptsAll read_proposal (λ p w. IsProposal p × (proposal_writer p ≡ w))
    accepted = AcceptsAll-bind _ (Accepts-or _ Accepts-u16) λ v w1 e1.
        AcceptsAll-require _ _ λ same_version.
          AcceptsAll-bind _ (Accepts-or _ (Accepts-fixed 32)) λ proposer w2 e2.
            AcceptsAll-bind _ (Accepts-or _ Accepts-u16) λ action_kind w3 e3.
              AcceptsAll-bind _ (Accepts-or _ (Accepts-fixed 32)) λ action_hash w4 e4.
                AcceptsAll-bind _ (Accepts-or _ Accepts-u64) λ created_height w5 e5.
                  AcceptsAll-bind _ (Accepts-or _ (Accepts-fixed 32)) λ nonce w6 e6.
                    AcceptsAll-done _ (
                      AcceptsAll-lift _ λ a e.
                        let (valid, same) = checked-eq-ok _ _ e in
                        rw (← same) (
                          record {
                            proposer_fits = (e2.1, e2.2);
                            kind_fits = e3.1;
                            action_fits = (e4.1, e4.2);
                            height_fits = e5.1;
                            nonce_fits = (e6.1, e6.2);
                            valid = valid;
                          },
                          rw (e1.0, e2.0, e3.0, e4.0, e5.0, e6.0)
                              (rw (version_one _ same_version) (proposal_layout _)),
                        ))

-- `ParseProposal` accepts exactly the encodings of valid values, and answers the value: on a byte string
-- it succeeds with `p` if and only if the fields of `p` have the sizes of their Go types, `Validate`
-- lets it pass, and `p.MarshalBinary()` answers that string.
pub parse_proposal-eq-ok_iff :
    (w : Bytes) (p : Proposal)
    → IsBytes w
    → (parse_proposal w ≡ ok p) ↔ (IsProposal p × (marshal_proposal p ≡ ok w))
unfolding marshal_proposal
parse_proposal-eq-ok_iff w p bs = (
  λ e. let (is, written) = parse_proposal-inv w p bs e in (is, checked-ok _ _ w is.valid written),
  λ h. rw (← (checked-eq-ok _ _ h.1).1) (parse-proposal_writer p h.0),
)

-- Fields that fit their Go types, in a value that `Validate` lets pass.
pub record IsTimelock (t : Timelock) : Type 0 where
  pub proposal_fits : IsHash t.proposal_hash
  pub authorization_fits : IsHash t.authorization_hash
  pub authorized_fits : IsU64 t.authorized_height
  pub execute_fits : IsU64 t.execute_after_height
  pub expires_fits : IsU64 t.expires_height
  pub valid : validate_timelock t ≡ ok tt

timelock_layout :
    (t : Timelock)
    → timelock_writer t
      ≡ put_u16 version
        ++ (t.proposal_hash
            ++ (t.authorization_hash
                ++ (put_u64 t.authorized_height
                    ++ (put_u64 t.execute_after_height ++ (put_u64 t.expires_height ++ [])))))
unfolding timelock_writer Writer.bytes_copy
timelock_layout t = simp (append_assoc, append-nil)

parse-timelock_writer : (t : Timelock) → IsTimelock t → parse_timelock (timelock_writer t) ≡ ok t
unfolding parse_timelock
parse-timelock_writer t h = rw (timelock_layout t) (
    run-ReadsAll (
      ReadsAll-bind _ (Reads-or _ (Reads-u16 version (omega arith))) (
        ReadsAll-require _ governance refl (
          ReadsAll-bind _ (Reads-or _ (Reads-fixed 32 t.proposal_hash h.proposal_fits.0)) (
            ReadsAll-bind _
              (Reads-or _ (Reads-fixed 32 t.authorization_hash h.authorization_fits.0))
              (ReadsAll-bind _ (Reads-or _ (Reads-u64 t.authorized_height h.authorized_fits)) (
                ReadsAll-bind _ (Reads-or _ (Reads-u64 t.execute_after_height h.execute_fits)) (
                  ReadsAll-bind _ (Reads-or _ (Reads-u64 t.expires_height h.expires_fits))
                    (ReadsAll-done _ (ReadsAll-lift _ t (rw h.valid)))))))))))

parse_timelock-inv :
    (w : Bytes) (t : Timelock)
    → IsBytes w
    → parse_timelock w ≡ ok t
    → IsTimelock t × (timelock_writer t ≡ w)
unfolding parse_timelock
parse_timelock-inv w t bs e = run-AcceptsAll accepted w t bs e
  where
    accepted : AcceptsAll read_timelock (λ t w. IsTimelock t × (timelock_writer t ≡ w))
    accepted = AcceptsAll-bind _ (Accepts-or _ Accepts-u16) λ v w1 e1.
        AcceptsAll-require _ _ λ same_version.
          AcceptsAll-bind _ (Accepts-or _ (Accepts-fixed 32)) λ proposal_hash w2 e2.
            AcceptsAll-bind _ (Accepts-or _ (Accepts-fixed 32)) λ authorization_hash w3 e3.
              AcceptsAll-bind _ (Accepts-or _ Accepts-u64) λ authorized_height w4 e4.
                AcceptsAll-bind _ (Accepts-or _ Accepts-u64) λ execute_after_height w5 e5.
                  AcceptsAll-bind _ (Accepts-or _ Accepts-u64) λ expires_height w6 e6.
                    AcceptsAll-done _ (
                      AcceptsAll-lift _ λ a e.
                        let (valid, same) = checked-eq-ok _ _ e in
                        rw (← same) (
                          record {
                            proposal_fits = (e2.1, e2.2);
                            authorization_fits = (e3.1, e3.2);
                            authorized_fits = e4.1;
                            execute_fits = e5.1;
                            expires_fits = e6.1;
                            valid = valid;
                          },
                          rw (e1.0, e2.0, e3.0, e4.0, e5.0, e6.0)
                              (rw (version_one _ same_version) (timelock_layout _)),
                        ))

-- `ParseTimelock` accepts exactly the encodings of valid values, and answers the value: on a byte string
-- it succeeds with `t` if and only if the fields of `t` have the sizes of their Go types, `Validate`
-- lets it pass, and `t.MarshalBinary()` answers that string.
pub parse_timelock-eq-ok_iff :
    (w : Bytes) (t : Timelock)
    → IsBytes w
    → (parse_timelock w ≡ ok t) ↔ (IsTimelock t × (marshal_timelock t ≡ ok w))
unfolding marshal_timelock
parse_timelock-eq-ok_iff w t bs = (
  λ e. let (is, written) = parse_timelock-inv w t bs e in (is, checked-ok _ _ w is.valid written),
  λ h. rw (← (checked-eq-ok _ _ h.1).1) (parse-timelock_writer t h.0),
)
