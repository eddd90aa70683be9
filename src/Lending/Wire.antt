-- ===== src/Lending/Wire.antt =====
-- Lending terms on the wire.
use zephyr_chain.Base.{
  ℕ, ◌≡◌, refl, ◌∙◌, ap, true, false, not, ◌==◌, ◌↔◌, [], ◌++◌, append-nil, append_assoc, arith,
  Bytes, IsBytes, Result, ok, ℤ, pos, negsuc, neg, int32_of, uint32_of, lending, suc, ◌-◌, ◌<◌, ◌^◌,
  ltb, Bool-cases, inl, inr, checked, checked-eq-ok,
}
use zephyr_chain.Codec.BigEndian.{IsU64, IsU32, put_u16, put_u32, put_u64}
use zephyr_chain.Codec.Writer
use zephyr_chain.Codec.Reads.{
  Reads-fixed, Reads-u16, Reads-u32, Reads-u64, Reads-or, ReadsAll-bind, ReadsAll-require,
  ReadsAll-done, ReadsAll-lift, run-ReadsAll,
}
use zephyr_chain.Codec.Accepts.{
  AcceptsAll, Accepts-fixed, Accepts-u16, Accepts-u32, Accepts-u64, Accepts-or, AcceptsAll-bind,
  AcceptsAll-require, AcceptsAll-done, AcceptsAll-lift, run-AcceptsAll,
}
use zephyr_chain.Types.{IsHash}
use zephyr_chain.Lending.{
  Terms, version, validate_terms, terms_writer, marshal_terms, read_terms, parse_terms,
}

pub checked-ok :
    {A : Type 0} (r : Result (Unit {0})) (a b : A) → r ≡ ok tt → a ≡ b → checked r a ≡ ok b
checked-ok r a b h e = rw h (ap ok e)

pub version_one : (v : ℕ) → not (v == version) ≡ false → v ≡ 1
version_one v h = ground arith

-- The values of an `int32`.
abbrev pub IsInt32 : ℤ → Type 0
IsInt32 (pos a) = a < 2 ^ 31
IsInt32 (negsuc a) = a < 2 ^ 31

uint32_of-lt : (r : ℤ) → IsInt32 r → IsU32 (uint32_of r)
uint32_of-lt (pos a) h = omega arith
uint32_of-lt (negsuc a) h = omega arith

neg-suc : (a n : ℕ) → n ≡ suc a → neg n ≡ negsuc a
neg-suc a n h = ap neg h

int32_of-uint32_of : (r : ℤ) → IsInt32 r → int32_of (uint32_of r) ≡ r
int32_of-uint32_of (pos a) h = let low : ltb a (2 ^ 31) ≡ true = ground arith in rw low refl
int32_of-uint32_of (negsuc a) h =
    let high : ltb (2 ^ 32 - suc a) (2 ^ 31) ≡ false = ground arith in
    rw high (neg-suc a (2 ^ 32 - (2 ^ 32 - suc a)) (omega arith))

-- A word in the upper half stands for a negative number.
upper-half :
    (v : ℕ) → v < 2 ^ 32 → ltb v (2 ^ 31) ≡ false → (a : ℕ) × (2 ^ 32 - v ≡ suc a) × (a < 2 ^ 31)
upper-half v h high = (2 ^ 32 - v - 1, ground arith, ground arith)

uint32_of-int32_of : (v : ℕ) → v < 2 ^ 32 → uint32_of (int32_of v) ≡ v
uint32_of-int32_of v h = elim (Bool-cases (ltb v (2 ^ 31))) [
  | inl low ↦ rw low refl
  | inr high ↦ let (a, e, _) = upper-half v h high in rw (high, e) (omega (arith, e))
]

int32_of-IsInt32 : (v : ℕ) → v < 2 ^ 32 → IsInt32 (int32_of v)
int32_of-IsInt32 v h = elim (Bool-cases (ltb v (2 ^ 31))) [
  | inl low ↦ rw low (ground arith)
  | inr high ↦ let (a, e, small) = upper-half v h high in rw (high, e) small
]

-- Fields that fit their Go types, in a value that `Validate` lets pass.
pub record IsTerms (t : Terms) : Type 0 where
  pub lender_fits : IsHash t.lender
  pub borrower_fits : IsHash t.borrower
  pub principal_fits : IsU64 t.principal
  pub collateral_fits : IsU64 t.collateral
  pub rate_fits : IsInt32 t.term_rate_bps
  pub height_fits : IsU64 t.maturity_height
  pub valid : validate_terms t ≡ ok tt

pub terms_layout :
    (t : Terms)
    → terms_writer t
      ≡ put_u16 version
        ++ (t.lender
            ++ (t.borrower
                ++ (put_u64 t.principal
                    ++ (put_u64 t.collateral
                        ++ (put_u32 (uint32_of t.term_rate_bps)
                            ++ (put_u64 t.maturity_height ++ []))))))
unfolding terms_writer Writer.bytes_copy
terms_layout t = simp (append_assoc, append-nil)

pub parse-terms_writer : (t : Terms) → IsTerms t → parse_terms (terms_writer t) ≡ ok t
unfolding parse_terms
parse-terms_writer t h = rw (terms_layout t) (
    run-ReadsAll (
      ReadsAll-bind _ (Reads-or _ (Reads-u16 version (omega arith))) (
        ReadsAll-require _ lending refl (
          ReadsAll-bind _ (Reads-or _ (Reads-fixed 32 t.lender h.lender_fits.0)) (
            ReadsAll-bind _ (Reads-or _ (Reads-fixed 32 t.borrower h.borrower_fits.0)) (
              ReadsAll-bind _ (Reads-or _ (Reads-u64 t.principal h.principal_fits)) (
                ReadsAll-bind _ (Reads-or _ (Reads-u64 t.collateral h.collateral_fits)) (
                  ReadsAll-bind _
                    (Reads-or _ (
                      Reads-u32 (uint32_of t.term_rate_bps)
                        (uint32_of-lt t.term_rate_bps h.rate_fits)))
                    (ReadsAll-bind _ (Reads-or _ (Reads-u64 t.maturity_height h.height_fits)) (
                      ReadsAll-done _ (
                        ReadsAll-lift _ t (
                          rw (int32_of-uint32_of t.term_rate_bps h.rate_fits)
                            (rw h.valid refl)))))))))))))

pub parse_terms-inv :
    (w : Bytes) (t : Terms) → IsBytes w → parse_terms w ≡ ok t → IsTerms t × (terms_writer t ≡ w)
unfolding parse_terms
parse_terms-inv w t bs e = run-AcceptsAll accepted w t bs e
  where
    accepted : AcceptsAll read_terms (λ t w. IsTerms t × (terms_writer t ≡ w))
    accepted = AcceptsAll-bind _ (Accepts-or _ Accepts-u16) λ v w1 e1.
        AcceptsAll-require _ _ λ same_version.
          AcceptsAll-bind _ (Accepts-or _ (Accepts-fixed 32)) λ lender w2 e2.
            AcceptsAll-bind _ (Accepts-or _ (Accepts-fixed 32)) λ borrower w3 e3.
              AcceptsAll-bind _ (Accepts-or _ Accepts-u64) λ principal w4 e4.
                AcceptsAll-bind _ (Accepts-or _ Accepts-u64) λ collateral w5 e5.
                  AcceptsAll-bind _ (Accepts-or _ Accepts-u32) λ rate w6 e6.
                    AcceptsAll-bind _ (Accepts-or _ Accepts-u64) λ maturity_height w7 e7.
                      AcceptsAll-done _ (
                        AcceptsAll-lift _ λ a e.
                          let (valid, same) = checked-eq-ok _ _ e in
                          rw (← same) (
                            record {
                              lender_fits = (e2.1, e2.2);
                              borrower_fits = (e3.1, e3.2);
                              principal_fits = e4.1;
                              collateral_fits = e5.1;
                              rate_fits = int32_of-IsInt32 rate e6.1;
                              height_fits = e7.1;
                              valid = valid;
                            },
                            rw (e1.0, e2.0, e3.0, e4.0, e5.0, e6.0, e7.0)
                                (rw (version_one _ same_version)
                                  (terms_layout _ ∙ rw (uint32_of-int32_of rate e6.1) refl)),
                          ))

-- `ParseTerms` accepts exactly the encodings of valid values, and answers the value: on a byte string
-- it succeeds with `t` if and only if the fields of `t` have the sizes of their Go types, `Validate`
-- lets it pass, and `t.MarshalBinary()` answers that string.
pub parse_terms-eq-ok_iff :
    (w : Bytes) (t : Terms)
    → IsBytes w
    → (parse_terms w ≡ ok t) ↔ (IsTerms t × (marshal_terms t ≡ ok w))
unfolding marshal_terms
parse_terms-eq-ok_iff w t bs = (
  λ e. let (is, written) = parse_terms-inv w t bs e in (is, checked-ok _ _ w is.valid written),
  λ h. rw (← (checked-eq-ok _ _ h.1).1) (parse-terms_writer t h.0),
)
