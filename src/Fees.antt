-- ===== src/Fees.antt =====
-- Fees, internal/v2/economics/fees.go: the split of a fee, the price of resources, and the base fee
-- that follows the load. `math/big` numbers that are never negative are natural numbers.
pub mod Splits
pub mod Control
use zephyr_chain.Base.{
  ℕ, ◌+◌, ◌-◌, ◌*◌, ◌/◌, ◌^◌, Bool, not, ◌||◌, ltb, leb, ◌==◌, if◌then◌else◌, List, [], ◌∷◌, Result,
  ok, err, ◌>>=◌, ◌>>◌, fail_if, or_error, fee_policy, resource_fee,
}

-- `BasisPoints`
abbrev pub basis_points : ℕ
basis_points = 10000

pub record FeePolicy : Type 0 where
  pub burn_bps : ℕ
  pub validator_bps : ℕ
  pub reserve_bps : ℕ

pub record FeeAllocation : Type 0 where
  pub total : ℕ
  pub burn : ℕ
  pub validators : ℕ
  pub reserve : ℕ

-- `CompatibilityFeePolicy`
abbrev pub compatibility_fee_policy : FeePolicy
compatibility_fee_policy = record { burn_bps = basis_points; validator_bps = 0; reserve_bps = 0 }

-- The sum of three `uint32`s does not wrap around in a `uint64`.
unfoldable pub validate_policy : FeePolicy → Result (Unit {0})
validate_policy p =
    fail_if
      (ltb basis_points p.burn_bps
        || (ltb basis_points p.validator_bps
            || (ltb basis_points p.reserve_bps
                || not (p.burn_bps + p.validator_bps + p.reserve_bps == basis_points))))
      fee_policy

-- `share.IsUint64()`
unfoldable pub share_bps : ℕ → ℕ → Result ℕ
share_bps value bps =
    let share = value * bps / basis_points in
    if leb (2 ^ 64) share then err fee_policy else ok share

unfoldable pub split_fee : ℕ → FeePolicy → Result FeeAllocation
unfolding validate_policy share_bps
split_fee fee p = do
  validate_policy p
  validators ← share_bps fee p.validator_bps
  reserve ← or_error (share_bps fee p.reserve_bps) fee_policy
  fail_if (ltb fee validators || ltb (fee - validators) reserve) fee_policy
  ok (record {
    total = fee;
    burn = fee - validators - reserve;
    validators = validators;
    reserve = reserve;
  })

-- The pairs of usage and price, in the order of the source.
unfoldable pub sum_terms : ℕ → List (ℕ × ℕ) → ℕ
sum_terms total [] = total
sum_terms total (pair ∷ pairs) = sum_terms (total + pair.0 * pair.1) pairs

pub record ResourceUsage : Type 0 where
  pub base_transactions : ℕ
  pub signature_ops : ℕ
  pub witness_bytes : ℕ
  pub state_reads : ℕ
  pub state_writes : ℕ
  pub contract_fuel : ℕ
  pub data_availability_bytes : ℕ
  pub cross_shard_receipts : ℕ

pub record ResourcePrices : Type 0 where
  pub base_transaction : ℕ
  pub signature_op : ℕ
  pub witness_byte : ℕ
  pub state_read : ℕ
  pub state_write : ℕ
  pub contract_fuel : ℕ
  pub data_availability_byte : ℕ
  pub cross_shard_receipt : ℕ

unfoldable pub quote_resource_fee : ResourceUsage → ResourcePrices → Result ℕ
unfolding sum_terms
quote_resource_fee usage prices =
    let total = sum_terms 0 (
      (usage.base_transactions, prices.base_transaction)
      ∷ (usage.signature_ops, prices.signature_op)
      ∷ (usage.witness_bytes, prices.witness_byte)
      ∷ (usage.state_reads, prices.state_read)
      ∷ (usage.state_writes, prices.state_write)
      ∷ (usage.contract_fuel, prices.contract_fuel)
      ∷ (usage.data_availability_bytes, prices.data_availability_byte)
      ∷ (usage.cross_shard_receipts, prices.cross_shard_receipt)
      ∷ []) in
    if leb (2 ^ 64) total then err resource_fee else ok total

pub record BaseFeePolicy : Type 0 where
  pub target_usage : ℕ
  pub adjustment_denominator : ℕ
  pub min_base_fee : ℕ
  pub max_base_fee : ℕ

unfoldable pub validate_base : BaseFeePolicy → Result (Unit {0})
validate_base p =
    fail_if
      (p.target_usage == 0
        || (p.adjustment_denominator == 0
            || (p.min_base_fee == 0 || ltb p.max_base_fee p.min_base_fee)))
      fee_policy

-- The change for a distance from the target, one at least.
unfoldable pub base_change : ℕ → ℕ → BaseFeePolicy → ℕ
base_change current distance p =
    let change = current * distance / p.target_usage / p.adjustment_denominator in
    if change == 0 then 1 else change

-- The fee behind a change.
unfoldable pub raised : ℕ → ℕ → BaseFeePolicy → ℕ
raised current delta p =
    if ltb p.max_base_fee (current + delta) then p.max_base_fee else current + delta

unfoldable pub lowered : ℕ → ℕ → BaseFeePolicy → ℕ
lowered current delta p =
    if leb current delta || ltb (current - delta) p.min_base_fee
    then p.min_base_fee
    else current - delta

unfoldable pub next_base_fee : ℕ → ℕ → BaseFeePolicy → Result ℕ
unfolding validate_base base_change raised lowered
next_base_fee current used p = do
  or_error (validate_base p) fee_policy
  fail_if (ltb current p.min_base_fee || ltb p.max_base_fee current) fee_policy
  if used == p.target_usage
      then ok current
      else if ltb p.target_usage used
      then if leb (2 ^ 64) (base_change current (used - p.target_usage) p)
        then err resource_fee
        else ok (raised current (base_change current (used - p.target_usage) p) p)
      else if leb (2 ^ 64) (base_change current (p.target_usage - used) p)
      then err resource_fee
      else ok (lowered current (base_change current (p.target_usage - used) p) p)
