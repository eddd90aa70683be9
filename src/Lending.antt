-- ===== src/Lending.antt =====
-- Native lending objects, internal/v2/lending/lending.go: bilateral terms, accepted loans, and
-- references to them.
pub mod Repayment
pub mod Wire
pub mod LoanWire
use zephyr_chain.Base
use zephyr_chain.Base.{
  ℕ, ◌^◌, Bool, true, false, not, ◌||◌, ltb, leb, ◌==◌, if◌then◌else◌, Bytes, bytes_eq, ℤ, pos,
  negsuc, lebℤ, scale, quo, plus, uint32_of, int32_of, Result, ok, err, checked, fail_if, lending,
}
use zephyr_chain.Codec.Writer
use zephyr_chain.Codec.Writer.{◌▷◌}
use zephyr_chain.Codec.Reader
use zephyr_chain.Codec.Reader.{Parser, ◌‼◌, ◌>>=◌, ◌>>◌, run, done, lift, require_not}
use zephyr_chain.Types.{AccountId, ObjectId, is_zero32}

abbrev pub version : ℕ
version = 1

-- `MinNegativeRateBps` and `MaxPositiveRateBps`
abbrev pub min_negative_rate_bps : ℤ
min_negative_rate_bps = negsuc 9998

abbrev pub max_positive_rate_bps : ℤ
max_positive_rate_bps = pos 100000

pub record Terms : Type 0 where
  pub lender : AccountId
  pub borrower : AccountId
  pub principal : ℕ
  pub collateral : ℕ
  pub term_rate_bps : ℤ
  pub maturity_height : ℕ

-- `due.Sign() <= 0 || due.BitLen() > 64`
unfoldable pub settled : ℤ → Result ℕ
settled (pos d) = if d == 0 || leb (2 ^ 64) d then err lending else ok d
settled (negsuc _) = err lending

unfoldable pub rate_fails : ℤ → Bool
rate_fails r = not (lebℤ min_negative_rate_bps r) || not (lebℤ r max_positive_rate_bps)

unfoldable pub repayment_due : Terms → Result ℕ
unfolding settled rate_fails
repayment_due t =
    if t.principal == 0 || rate_fails t.term_rate_bps
    then err lending
    else settled (plus t.principal (quo (scale t.principal t.term_rate_bps) 10000))

unfoldable pub validate_terms : Terms → Result (Unit {0})
unfolding repayment_due is_zero32 bytes_eq rate_fails
validate_terms t =
    if is_zero32 t.lender || (is_zero32 t.borrower || bytes_eq t.lender t.borrower)
    then err lending
    else if t.principal == 0 || t.maturity_height == 0
    then err lending
    else if rate_fails t.term_rate_bps
    then err lending
    else Base.◌>>=◌ (repayment_due t) λ _. ok tt

unfoldable pub terms_writer : Terms → Bytes
unfolding Writer.bytes_copy
terms_writer t = Writer.bytes_copy (
    Writer.empty
    ▷ Writer.u16 version
    ▷ Writer.fixed t.lender
    ▷ Writer.fixed t.borrower
    ▷ Writer.u64 t.principal
    ▷ Writer.u64 t.collateral
    ▷ Writer.u32 (uint32_of t.term_rate_bps)
    ▷ Writer.u64 t.maturity_height)

unfoldable pub marshal_terms : Terms → Result Bytes
unfolding terms_writer validate_terms
marshal_terms t = checked (validate_terms t) (terms_writer t)

read_terms : Parser Terms
read_terms = do
  v ← Reader.u16 ‼ lending
  require_not (not (v == version)) lending
  lender ← Reader.fixed 32 ‼ lending
  borrower ← Reader.fixed 32 ‼ lending
  principal ← Reader.u64 ‼ lending
  collateral ← Reader.u64 ‼ lending
  rate ← Reader.u32 ‼ lending
  maturity ← Reader.u64 ‼ lending
  done ‼ lending
  let out : Terms = record {
    lender = lender;
    borrower = borrower;
    principal = principal;
    collateral = collateral;
    term_rate_bps = int32_of rate;
    maturity_height = maturity;
  }
  lift (checked (validate_terms out) out)

unfoldable pub parse_terms : Bytes → Result Terms
unfolding read_terms
parse_terms payload = run read_terms payload

pub record Loan : Type 0 where
  pub offer_object : ObjectId
  pub terms : Terms
  pub accepted_height : ℕ

unfoldable pub validate_loan : Loan → Result (Unit {0})
unfolding validate_terms is_zero32
validate_loan l = Base.◌>>◌ (fail_if (is_zero32 l.offer_object || l.accepted_height == 0) lending) (
    Base.◌>>◌ (validate_terms l.terms)
      (fail_if (leb l.terms.maturity_height l.accepted_height) lending))

unfoldable pub loan_writer : Loan → Bytes → Bytes
unfolding Writer.bytes_copy
loan_writer l terms = Writer.bytes_copy (
    Writer.empty
    ▷ Writer.u16 version
    ▷ Writer.fixed l.offer_object
    ▷ Writer.bytes terms
    ▷ Writer.u64 l.accepted_height)

unfoldable pub marshal_loan : Loan → Result Bytes
unfolding validate_loan marshal_terms loan_writer
marshal_loan l =
    Base.◌>>◌ (validate_loan l)
      (Base.◌>>=◌ (marshal_terms l.terms) λ terms. ok (loan_writer l terms))

abbrev loan_of : Bytes → ℕ → Terms → Loan
loan_of offer accepted terms = record {
  offer_object = offer;
  terms = terms;
  accepted_height = accepted;
}

read_loan : Parser Loan
unfolding parse_terms
read_loan = do
  v ← Reader.u16 ‼ lending
  require_not (not (v == version)) lending
  offer ← Reader.fixed 32 ‼ lending
  terms ← Reader.bytes 256 ‼ lending
  accepted ← Reader.u64 ‼ lending
  done ‼ lending
  lift (
      Base.◌>>=◌ (parse_terms terms)
        λ t. checked (validate_loan (loan_of offer accepted t)) (loan_of offer accepted t))

unfoldable pub parse_loan : Bytes → Result Loan
unfolding read_loan
parse_loan payload = run read_loan payload

pub record Ref : Type 0 where
  pub object_id : ObjectId

unfoldable pub marshal_ref : Ref → Result Bytes
unfolding Writer.bytes_copy is_zero32
marshal_ref r =
    checked (fail_if (is_zero32 r.object_id) lending)
      (Writer.bytes_copy (Writer.empty ▷ Writer.u16 version ▷ Writer.fixed r.object_id))

read_ref : Parser Ref
read_ref = do
  v ← Reader.u16 ‼ lending
  require_not (not (v == version)) lending
  id ← Reader.fixed 32 ‼ lending
  done ‼ lending
  lift (checked (fail_if (is_zero32 id) lending) (record { object_id = id }))

unfoldable pub parse_ref : Bytes → Result Ref
unfolding read_ref
parse_ref payload = run read_ref payload
