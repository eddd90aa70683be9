-- ===== src/Consensus/Proposers.antt =====
-- The proposers of a validator set, `Proposer` of internal/v2/consensus/consensus.go: the sorted powers
-- and the slots.
use mathlib.Core.List.{Perm, Mem, mem-cons_self, mem-cons_of_mem}
use mathlib.Core.List.Perm
use zephyr_chain.Base.{
  ℕ, ◌+◌, ◌%◌, ◌^◌, ◌≤◌, ◌<◌, ◌≡◌, refl, ◌∙◌, ap, false, inl, inr, List, [], ◌∷◌, ltb, ◌==◌, arith,
  Bool-cases, ok,
}
use zephyr_chain.Codec.BigEndian.{IsU64}
use zephyr_chain.Consensus.Validators.{
  Crypto, Validator, ValidatorSet, add_u64, insert_by_id, sort_by_id, bytes_lt, pick, slot_of,
  validate_set, total_power, proposer,
}
use zephyr_chain.Consensus.Power.{sum_power, validate_set-Checked, add_powers-sum}

insert_by_id-perm : (v : Validator) (vs : List Validator) → Perm (insert_by_id v vs) (v ∷ vs)
unfolding insert_by_id
insert_by_id-perm v [] = Perm.refl (v ∷ [])
insert_by_id-perm v (w ∷ ws) = elim (Bool-cases (bytes_lt w.id v.id)) [
  | inl below ↦ rw below (Perm.trans (Perm.cons w (insert_by_id-perm v ws)) (Perm.swap v w ws))
  | inr above ↦ rw above (Perm.refl (v ∷ w ∷ ws))
]

-- Sorting only rearranges the validators.
pub sort_by_id-perm : (vs : List Validator) → Perm (sort_by_id vs) vs
unfolding sort_by_id
sort_by_id-perm [] = Perm.refl []
sort_by_id-perm (v ∷ vs) =
    Perm.trans (insert_by_id-perm v (sort_by_id vs)) (Perm.cons v (sort_by_id-perm vs))

sum_power-insert :
    (v : Validator) (vs : List Validator) → sum_power (insert_by_id v vs) ≡ v.power + sum_power vs
unfolding sum_power insert_by_id
sum_power-insert v [] = refl
sum_power-insert v (w ∷ ws) = ground (arith, sum_power-insert v ws)

pub sum_power-sort : (vs : List Validator) → sum_power (sort_by_id vs) ≡ sum_power vs
unfolding sum_power sort_by_id
sum_power-sort [] = refl
sum_power-sort (v ∷ vs) = sum_power-insert v (sort_by_id vs) ∙ omega (arith, sum_power-sort vs)

pub pick-here :
    (slot before : ℕ) (v : Validator) (vs : List Validator)
    → IsU64 (before + v.power)
    → slot < before + v.power
    → pick slot before (v ∷ vs) ≡ ok v
unfolding pick
pick-here slot before v vs fits h =
    let wrap : (before + v.power) % 2 ^ 64 ≡ before + v.power = omega arith in
    rw wrap (ground arith)

pub pick-later :
    (slot before : ℕ) (v : Validator) (vs : List Validator)
    → IsU64 (before + v.power)
    → before + v.power ≤ slot
    → pick slot before (v ∷ vs) ≡ pick slot (before + v.power) vs
unfolding pick
pick-later slot before v vs fits h =
    let wrap : (before + v.power) % 2 ^ 64 ≡ before + v.power = omega arith in
    rw wrap (ground arith)

-- The loop finds a validator for every slot below the total.
pick-total :
    (slot before : ℕ) (vs : List Validator)
    → IsU64 (before + sum_power vs)
    → before ≤ slot
    → slot < before + sum_power vs
    → (v : Validator) × (pick slot before vs ≡ ok v) × Mem v vs
unfolding sum_power
pick-total slot before [] fits lo h = absurd (omega arith)
pick-total slot before (v ∷ vs) fits lo h = elim (Bool-cases (ltb slot (before + v.power))) [
  | inl mine ↦ (v, pick-here slot before v vs (omega arith) (ground arith), mem-cons_self)
  | inr later ↦
      let (w, e, m) =
        pick-total slot (before + v.power) vs (omega arith) (ground arith) (omega arith) in
      (w, pick-later slot before v vs (omega arith) (ground arith) ∙ e, mem-cons_of_mem v m)
]

module _ (crypto : Crypto) where
  total_power-valid :
      (s : ValidatorSet)
      → validate_set crypto s ≡ ok tt
      → total_power crypto s ≡ ok (sum_power s.validators)
  unfolding total_power
  total_power-valid s h =
      let (is, pos) = validate_set-Checked crypto s h in
      rw h (ap ok (add_powers-sum 0 s.validators is.fits ∙ omega arith))

  pub proposer-pick :
      (s : ValidatorSet) (height round : ℕ)
      → validate_set crypto s ≡ ok tt
      → 1 ≤ height
      → proposer crypto s height round
        ≡ pick (slot_of (sum_power s.validators) height round) 0 (sort_by_id s.validators)
  unfolding proposer
  proposer-pick s height round h pos =
      let nonzero : (height == 0) ≡ false = ground arith in rw (total_power-valid s h, nonzero)

  slot_of-lt : (total height round : ℕ) → 0 < total → slot_of total height round < total
  unfolding slot_of add_u64
  slot_of-lt total height round h = omega arith

  -- A set that passes `Validate` has a proposer, one of its validators, at every height from one on and every round.
  pub proposer_total :
      (s : ValidatorSet) (height round : ℕ)
      → validate_set crypto s ≡ ok tt
      → 1 ≤ height
      → (v : Validator) × (proposer crypto s height round ≡ ok v) × Mem v s.validators
  proposer_total s height round h pos =
      let (is, some_power) = validate_set-Checked crypto s h in
      let (v, e, m) =
        pick-total (slot_of (sum_power s.validators) height round) 0 (sort_by_id s.validators)
          (rw sum_power-sort is.fits) (omega arith)
          (rw sum_power-sort
            (omega (arith, slot_of-lt (sum_power s.validators) height round some_power))) in
      (v, proposer-pick s height round h pos ∙ e, (Perm.mem_iff (sort_by_id-perm s.validators)).0 m)
