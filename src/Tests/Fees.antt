-- ===== src/Tests/Fees.antt =====
-- A fee of 101 in three parts, and a base fee under load.
use zephyr_chain.Base.{◌≤◌, ◌≡◌, refl, arith, ok}
use zephyr_chain.Fees.{
  FeePolicy, FeeAllocation, validate_policy, split_fee, BaseFeePolicy, next_base_fee,
}
use zephyr_chain.Fees.Splits.{IsSplit, split_fee_total}
use zephyr_chain.Fees.Control.{Move, next_base_fee-Move}

abbrev thirds : FeePolicy
thirds = record { burn_bps = 3334; validator_bps = 3333; reserve_bps = 3333 }

thirds-valid : validate_policy thirds ≡ ok tt
unfolding validate_policy
thirds-valid = refl

-- 33 for the validators and the reserve each, and 35 to burn.
thirds-split :
    split_fee 101 thirds ≡ ok (record { total = 101; burn = 35; validators = 33; reserve = 33 })
unfolding split_fee
thirds-split = refl

split_fee_total_example : (a : FeeAllocation) × (split_fee 101 thirds ≡ ok a) × IsSplit 101 thirds a
split_fee_total_example = split_fee_total 101 thirds (omega arith) thirds-valid

abbrev controller : BaseFeePolicy
controller = record {
  target_usage = 100;
  adjustment_denominator = 8;
  min_base_fee = 10;
  max_base_fee = 1000;
}

under_load : next_base_fee 80 150 controller ≡ ok 85
unfolding next_base_fee
under_load = refl

next_base_fee-Move_example : (10 ≤ 85) × (85 ≤ 1000) × Move 80 150 controller 85
next_base_fee-Move_example = next_base_fee-Move 80 150 controller 85 under_load
