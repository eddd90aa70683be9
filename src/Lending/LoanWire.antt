-- ===== src/Lending/LoanWire.antt =====
-- Accepted loans and references on the wire. A loan carries its terms as a byte string of their own.
use zephyr_chain.Base.{
  ◌≤◌, ◌≡◌, refl, sym, ◌∙◌, ap, ◌↔◌, lending, [], ◌++◌, append-nil, append_assoc, arith, Bytes,
  IsBytes, length, length-append, Result, ok, >>=-eq-ok, checked-eq-ok,
}
use zephyr_chain.Codec.BigEndian.{
  IsU64, put_u16, put_u32, put_u64, length-put_u16, length-put_u32, length-put_u64,
}
use zephyr_chain.Codec.Writer
use zephyr_chain.Codec.Reads.{
  Reads-fixed, Reads-u16, Reads-u64, Reads-bytes, Reads-or, ReadsAll-bind, ReadsAll-require,
  ReadsAll-done, ReadsAll-lift, run-ReadsAll,
}
use zephyr_chain.Codec.Accepts.{
  AcceptsAll, Accepts-fixed, Accepts-u16, Accepts-u64, Accepts-bytes, Accepts-or, AcceptsAll-bind,
  AcceptsAll-require, AcceptsAll-done, AcceptsAll-lift, run-AcceptsAll,
}
use zephyr_chain.Types.{IsHash}
use zephyr_chain.Lending.{
  Terms, Loan, terms_writer, marshal_terms, validate_loan, loan_writer, marshal_loan, read_loan,
  parse_loan,
}
use zephyr_chain.Lending.Wire.{
  IsTerms, parse-terms_writer, parse_terms-inv, checked-ok, version_one, terms_layout,
}

-- Fields that fit their Go types, in a loan that `Validate` lets pass.
pub record IsLoan (l : Loan) : Type 0 where
  pub offer_fits : IsHash l.offer_object
  pub terms_fit : IsTerms l.terms
  pub height_fits : IsU64 l.accepted_height
  pub valid : validate_loan l ≡ ok tt

length-terms : (t : Terms) → IsTerms t → length (terms_writer t) ≤ 256
length-terms t h = rw (terms_layout t) (
    simp
      (
        length-append, length-put_u16, length-put_u32, length-put_u64, h.lender_fits.0,
        h.borrower_fits.0,
      )
      (omega arith))

loan_layout :
    (l : Loan) (raw : Bytes)
    → length raw ≤ 256
    → loan_writer l raw
      ≡ put_u16 1
        ++ (l.offer_object ++ ((put_u32 (length raw) ++ raw) ++ (put_u64 l.accepted_height ++ [])))
unfolding loan_writer Writer.bytes_copy
loan_layout l raw h = simp (append_assoc, append-nil, Writer.short-length raw (omega arith))

parse-loan_writer : (l : Loan) → IsLoan l → parse_loan (loan_writer l (terms_writer l.terms)) ≡ ok l
unfolding parse_loan
parse-loan_writer l h =
    let short = length-terms l.terms h.terms_fit in
    rw (loan_layout l (terms_writer l.terms) short) (
      run-ReadsAll (
        ReadsAll-bind _ (Reads-or _ (Reads-u16 1 (omega arith))) (
          ReadsAll-require _ lending refl (
            ReadsAll-bind _ (Reads-or _ (Reads-fixed 32 l.offer_object h.offer_fits.0)) (
              ReadsAll-bind _
                (Reads-or _ (Reads-bytes 256 (terms_writer l.terms) short (omega arith)))
                (ReadsAll-bind _ (Reads-or _ (Reads-u64 l.accepted_height h.height_fits)) (
                  ReadsAll-done _ (
                    ReadsAll-lift _ l (
                      rw (parse-terms_writer l.terms h.terms_fit)
                        (checked-ok _ l l h.valid refl))))))))))

parse_loan-inv :
    (w : Bytes) (l : Loan)
    → IsBytes w
    → parse_loan w ≡ ok l
    → IsLoan l × (loan_writer l (terms_writer l.terms) ≡ w)
unfolding parse_loan
parse_loan-inv w l bs e = run-AcceptsAll accepted w l bs e
  where
    accepted : AcceptsAll read_loan (λ l w. IsLoan l × (loan_writer l (terms_writer l.terms) ≡ w))
    accepted = AcceptsAll-bind _ (Accepts-or _ Accepts-u16) λ v w1 e1.
        AcceptsAll-require _ _ λ same_version.
          AcceptsAll-bind _ (Accepts-or _ (Accepts-fixed 32)) λ offer w2 e2.
            AcceptsAll-bind _ (Accepts-or _ (Accepts-bytes 256)) λ raw w3 e3.
              AcceptsAll-bind _ (Accepts-or _ Accepts-u64) λ height w4 e4. AcceptsAll-done _ (
                AcceptsAll-lift _ λ a e.
                  let (t, parsed, rest) = >>=-eq-ok _ _ e in
                  let (valid, same) = checked-eq-ok _ _ rest in
                  let (is, written) = parse_terms-inv raw t e3.3 parsed in
                  rw (← same) (
                    record {
                      offer_fits = (e2.1, e2.2);
                      terms_fit = is;
                      height_fits = e4.1;
                      valid = valid;
                    },
                    rw (written, e1.0, e2.0, e3.0, e4.0, version_one v same_version)
                        (loan_layout _ raw e3.1),
                  ))

marshal_loan-eq : (l : Loan) → IsLoan l → marshal_loan l ≡ ok (loan_writer l (terms_writer l.terms))
unfolding marshal_loan marshal_terms
marshal_loan-eq l h = rw (h.valid, h.terms_fit.valid) refl

-- `ParseLoan` accepts exactly the encodings of valid loans, and answers the loan: on a byte string it
-- succeeds with `l` if and only if the fields of `l` and of its terms have the sizes of their Go types,
-- `Validate` lets it pass, and `l.MarshalBinary()` answers that string.
pub parse_loan-eq-ok_iff :
    (w : Bytes) (l : Loan)
    → IsBytes w
    → (parse_loan w ≡ ok l) ↔ (IsLoan l × (marshal_loan l ≡ ok w))
parse_loan-eq-ok_iff w l bs = (
  λ e. let (is, written) = parse_loan-inv w l bs e in (is, marshal_loan-eq l is ∙ ap ok written),
  λ h. rw (← ok_inj (sym (marshal_loan-eq l h.0) ∙ h.1)) (parse-loan_writer l h.0),
)
  where
    ok_inj : {x y : Bytes} → ◌≡◌ {A = Result Bytes} (ok x) (ok y) → x ≡ y
    ok_inj h = cc
