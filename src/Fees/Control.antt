-- ===== src/Fees/Control.antt =====
-- The base fee, `NextBaseFee` of internal/v2/economics/fees.go.
use zephyr_chain.Base.{
  ℕ, ◌+◌, ◌-◌, ◌≤◌, ◌<◌, ◌≡◌, refl, arith, Bool, true, false, ◌||◌, ◌⊎◌, inl, inr, ltb, leb, ◌==◌,
  if◌then◌else◌, Result, ok, err, sym, Bool-cases, >>=-eq-ok, fail_if, fail_if-eq-ok, or_error,
  fee_policy, resource_fee,
}
use zephyr_chain.Fees.{BaseFeePolicy, validate_base, base_change, raised, lowered, next_base_fee}

-- Which way the fee moves: not at all on the target, up above it and down below it, by one at least
-- or to the bound.
pub data Move (current used : ℕ) (p : BaseFeePolicy) (next : ℕ) : Type 0 where
  keeps : used ≡ p.target_usage → next ≡ current → Move current used p next
  rises :
      p.target_usage < used → (current < next) ⊎ (next ≡ p.max_base_fee) → Move current used p next
  falls :
      used < p.target_usage → (next < current) ⊎ (next ≡ p.min_base_fee) → Move current used p next

base_change-pos : (current distance : ℕ) (p : BaseFeePolicy) → 0 < base_change current distance p
unfolding base_change
base_change-pos current distance p = ground arith

raised-Move :
    (current used delta : ℕ) (p : BaseFeePolicy)
    → p.min_base_fee ≤ current
    → current ≤ p.max_base_fee
    → 0 < delta
    → p.target_usage < used
    → (p.min_base_fee ≤ raised current delta p)
      × (raised current delta p ≤ p.max_base_fee)
      × Move current used p (raised current delta p)
unfolding raised
raised-Move current used delta p lo hi pos above =
    elim (Bool-cases (ltb p.max_base_fee (current + delta))) [
      | inl past ↦ rw past (omega arith, omega arith, rises above (inr refl))
      | inr within ↦ rw within (ground arith, ground arith, rises above (inl (omega arith)))
    ]

lowered-Move :
    (current used delta : ℕ) (p : BaseFeePolicy)
    → p.min_base_fee ≤ current
    → current ≤ p.max_base_fee
    → 0 < delta
    → used < p.target_usage
    → (p.min_base_fee ≤ lowered current delta p)
      × (lowered current delta p ≤ p.max_base_fee)
      × Move current used p (lowered current delta p)
unfolding lowered
lowered-Move current used delta p lo hi pos below =
    elim (Bool-cases (leb current delta || ltb (current - delta) p.min_base_fee)) [
      | inl past ↦ rw past (omega arith, omega arith, falls below (inr refl))
      | inr within ↦ rw within (ground arith, ground arith, falls below (inl (ground arith)))
    ]

-- What the answer is made of.
data Answer (current used : ℕ) (p : BaseFeePolicy) (next : ℕ) : Type 0 where
  same : used ≡ p.target_usage → next ≡ current → Answer current used p next
  up :
      p.target_usage < used
      → next ≡ raised current (base_change current (used - p.target_usage) p) p
      → Answer current used p next
  down :
      used < p.target_usage
      → next ≡ lowered current (base_change current (p.target_usage - used) p) p
      → Answer current used p next

answer :
    (current used : ℕ) (p : BaseFeePolicy) (next : ℕ)
    → next_base_fee current used p ≡ ok next
    → (p.min_base_fee ≤ current) × (current ≤ p.max_base_fee) × Answer current used p next
unfolding next_base_fee
answer current used p next h =
    let (_, _, h1) = >>=-eq-ok (or_error (validate_base p) fee_policy) _ h in
    let (_, bounds, h2) =
      >>=-eq-ok (fail_if (ltb current p.min_base_fee || ltb p.max_base_fee current) fee_policy) _
        h1 in
    let inside = fail_if-eq-ok _ _ bounds in
    (
      ground (arith, inside),
      ground (arith, inside),
      elim (Bool-cases (used == p.target_usage)) [
        | inl on ↦ same (ground arith) (ok_inj (sym (rw on at h2)))
        | inr off ↦ elim (Bool-cases (ltb p.target_usage used)) [
          | inl above ↦ up (ground arith) (ok_inj (sym (fits _ _ _ (rw (off, above) at h2))))
          | inr below ↦ down (ground arith) (ok_inj (sym (fits _ _ _ (rw (off, below) at h2))))
        ]
      ],
    )
  where
    ok_inj : {a b : ℕ} → ◌≡◌ {A = Result ℕ} (ok a) (ok b) → a ≡ b
    ok_inj e = cc

    fits : (b : Bool) (x y : ℕ) → (if b then err resource_fee else ok x) ≡ ok y → ok x ≡ ok y
    fits true x y e = absurd (cc e)
    fits false x y e = e

-- Whenever `NextBaseFee` answers a fee, the fee lies within the bounds of the policy, and has moved
-- with the load.
pub next_base_fee-Move :
    (current used : ℕ) (p : BaseFeePolicy) (next : ℕ)
    → next_base_fee current used p ≡ ok next
    → (p.min_base_fee ≤ next) × (next ≤ p.max_base_fee) × Move current used p next
next_base_fee-Move current used p next h =
    let (lo, hi, a) = answer current used p next h in
    elim a [
      | same on e ↦ rw e (lo, hi, keeps on refl)
      | up above e ↦ rw e (
          raised-Move current used (base_change current (used - p.target_usage) p) p lo hi
            (base_change-pos current (used - p.target_usage) p) above)
      | down below e ↦ rw e (
          lowered-Move current used (base_change current (p.target_usage - used) p) p lo hi
            (base_change-pos current (p.target_usage - used) p) below)
    ]
