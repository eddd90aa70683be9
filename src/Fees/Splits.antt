-- ===== src/Fees/Splits.antt =====
-- The split of a fee, `SplitFee` of internal/v2/economics/fees.go.
use native.Mathlib.Nat.{mul-le-mul_left, mul-add}
use zephyr_chain.Base.{
  ℕ, ◌+◌, ◌-◌, ◌*◌, ◌/◌, ◌^◌, ◌≤◌, ◌<◌, ◌≡◌, refl, ap, arith, false, ◌||◌, ltb, leb, ok,
}
use zephyr_chain.Codec.BigEndian.{IsU64}
use zephyr_chain.Fees.{FeePolicy, FeeAllocation, validate_policy, share_bps, split_fee}

-- The shares of an allocation: nothing is lost, validators and reserve get the whole part of their
-- share, and the burn gets the rest.
pub record IsSplit (fee : ℕ) (p : FeePolicy) (a : FeeAllocation) : Type 0 where
  pub whole : a.total ≡ fee
  pub conserved : a.burn + a.validators + a.reserve ≡ fee
  pub validators_floor :
      (10000 * a.validators ≤ fee * p.validator_bps)
      × (fee * p.validator_bps < 10000 * a.validators + 10000)
  pub reserve_floor :
      (10000 * a.reserve ≤ fee * p.reserve_bps) × (fee * p.reserve_bps < 10000 * a.reserve + 10000)
  pub burn_least : fee * p.burn_bps ≤ 10000 * a.burn

policy_parts :
    (p : FeePolicy)
    → validate_policy p ≡ ok tt
    → p.burn_bps + p.validator_bps + p.reserve_bps ≡ 10000
unfolding validate_policy
policy_parts p h = ground arith

share_bps-eq : (fee bps : ℕ) → IsU64 fee → bps ≤ 10000 → share_bps fee bps ≡ ok (fee * bps / 10000)
unfolding share_bps
share_bps-eq fee bps fits le =
    let most = mul-le-mul_left fee le in
    let small : leb (2 ^ 64) (fee * bps / 10000) ≡ false = ground (arith, most) in rw small refl

enough : (fee v r : ℕ) → v + r ≤ fee → (ltb fee v || ltb (fee - v) r) ≡ false
enough fee v r h = ground arith

-- The three shares of the fee before rounding.
shares-sum :
    (fee : ℕ) (p : FeePolicy)
    → p.burn_bps + p.validator_bps + p.reserve_bps ≡ 10000
    → fee * p.burn_bps + fee * p.validator_bps + fee * p.reserve_bps ≡ 10000 * fee
shares-sum fee p e = omega (
  arith,
  ap (◌*◌ fee) e,
  mul-add fee (p.burn_bps + p.validator_bps) p.reserve_bps,
  mul-add fee p.burn_bps p.validator_bps,
)

split_fee-eq :
    (fee : ℕ) (p : FeePolicy)
    → IsU64 fee
    → validate_policy p ≡ ok tt
    → fee * p.validator_bps / 10000 + fee * p.reserve_bps / 10000 ≤ fee
    → split_fee fee p
      ≡ ok (record {
        total = fee;
        burn = fee - fee * p.validator_bps / 10000 - fee * p.reserve_bps / 10000;
        validators = fee * p.validator_bps / 10000;
        reserve = fee * p.reserve_bps / 10000;
      })
unfolding split_fee
split_fee-eq fee p fits h covered =
    let parts = policy_parts p h in
    rw
      (
        h,
        share_bps-eq fee p.validator_bps fits (omega (arith, parts)),
        share_bps-eq fee p.reserve_bps fits (omega (arith, parts)),
        enough fee (fee * p.validator_bps / 10000) (fee * p.reserve_bps / 10000) covered,
      )
      refl

-- A valid policy splits every fee that fits a `uint64`, without an error: the parts add up to the
-- fee, validators and reserve get their shares rounded down, and the burn gets at least its share.
pub split_fee_total :
    (fee : ℕ) (p : FeePolicy)
    → IsU64 fee
    → validate_policy p ≡ ok tt
    → (a : FeeAllocation) × (split_fee fee p ≡ ok a) × IsSplit fee p a
split_fee_total fee p fits h =
    let sum = shares-sum fee p (policy_parts p h) in
    let covered : fee * p.validator_bps / 10000 + fee * p.reserve_bps / 10000 ≤ fee =
      omega (arith, sum) in
    (
      _,
      split_fee-eq fee p fits h covered,
      record {
        whole = refl;
        conserved = omega (arith, covered);
        validators_floor = (omega arith, omega arith);
        reserve_floor = (omega arith, omega arith);
        burn_least = omega (arith, sum, covered);
      },
    )
