-- ===== src/Consensus/Power.antt =====
-- Voting power: the sums without wrap-around, what a valid set guarantees, and the quorum.
use zephyr_chain.Base.{
  ℕ, ◌+◌, ◌*◌, ◌%◌, ◌^◌, ◌≤◌, ◌<◌, ◌≡◌, refl, ◌∙◌, Bool, false, none, List, [], ◌∷◌, ◌==◌,
  if◌then◌else◌, arith, All, Bytes, length, bytes_eq, bytes_eq_iff, ok,
}
use zephyr_chain.Codec.BigEndian.{IsU64}
use zephyr_chain.Types.{ValidatorId, validator_id_from_public_key}
use zephyr_chain.Consensus.Validators.{
  Crypto, Validator, ValidatorSet, seen_before, add_powers, quorum_power, find_validator,
  validate_members, validate_set,
}

-- The power of the validators whose identifier passes the test, as a plain sum.
unfoldable pub power_where : (ValidatorId → Bool) → List Validator → ℕ
power_where p [] = 0
power_where p (v ∷ vs) = (if p v.id then v.power else 0) + power_where p vs

unfoldable pub sum_power : List Validator → ℕ
sum_power [] = 0
sum_power (v ∷ vs) = v.power + sum_power vs

-- No identifier occurs twice.
abbrev pub DistinctIds : List Validator → Type 0
DistinctIds [] = Unit
DistinctIds (v ∷ vs) = (find_validator v.id vs ≡ none) × DistinctIds vs

-- For a positive total power that fits a `uint64`, the quorum is the least number above two thirds
-- of it, and is at most the total.
pub quorum_power_bounds :
    (total : ℕ)
    → IsU64 total
    → 0 < total
    → (2 * total < 3 * quorum_power total)
      × (3 * quorum_power total ≤ 2 * total + 3)
      × (quorum_power total ≤ total)
unfolding quorum_power
quorum_power_bounds total fits pos = ground arith

pub add_powers-sum :
    (total : ℕ) (vs : List Validator)
    → IsU64 (total + sum_power vs)
    → add_powers total vs ≡ total + sum_power vs
unfolding add_powers sum_power
add_powers-sum total [] h = omega arith
add_powers-sum total (v ∷ vs) h =
    let wrap : (total + v.power) % 2 ^ 64 ≡ total + v.power = omega arith in
    rw wrap (add_powers-sum (total + v.power) vs (omega arith) ∙ omega arith)

bytes_eq-sym : (x y : Bytes) → bytes_eq x y ≡ bytes_eq y x
bytes_eq-sym x y = ground (arith, bytes_eq_iff x y, bytes_eq_iff y x)

fresh-find :
    (id : ValidatorId) (seen : List ValidatorId) (vs : List Validator)
    → All (λ (v : Validator). seen_before (id ∷ seen) v.id ≡ false) vs
    → find_validator id vs ≡ none
unfolding seen_before find_validator
fresh-find id seen [] h = refl
fresh-find id seen (v ∷ vs) h = ground (arith, bytes_eq-sym id v.id, h.0, fresh-find id seen vs h.1)

fresh-weaken :
    (id : ValidatorId) (seen : List ValidatorId) (vs : List Validator)
    → All (λ (v : Validator). seen_before (id ∷ seen) v.id ≡ false) vs
    → All (λ (v : Validator). seen_before seen v.id ≡ false) vs
unfolding seen_before
fresh-weaken id seen [] h = tt
fresh-weaken id seen (v ∷ vs) h = (ground (arith, h.0), fresh-weaken id seen vs h.1)

sum-step :
    (total : ℕ) (v : Validator) (vs : List Validator)
    → IsU64 (total + v.power + sum_power vs)
    → IsU64 (total + sum_power (v ∷ vs))
unfolding sum_power
sum-step total v vs h = omega arith

sum_power-pos :
    (vs : List Validator)
    → (length vs == 0) ≡ false
    → All (λ (v : Validator). 0 < v.power) vs
    → 0 < sum_power vs
unfolding sum_power
sum_power-pos [] h pos = cc
sum_power-pos (v ∷ vs) h pos = omega (arith, pos.0)

module _ (crypto : Crypto) where
  -- What the loop of `Validate` establishes of the validators that it has still to look at.
  pub record Checked (seen : List ValidatorId) (total : ℕ) (vs : List Validator) : Type 0 where
    pub fits : IsU64 (total + sum_power vs)
    pub distinct : DistinctIds vs
    pub positive : All (λ (v : Validator). 0 < v.power) vs
    pub keyed :
        All (λ (v : Validator). validator_id_from_public_key crypto.sha256 v.public_key ≡ v.id) vs
    pub fresh : All (λ (v : Validator). seen_before seen v.id ≡ false) vs

  validate_members-step :
      (seen : List ValidatorId) (total : ℕ) (v : Validator) (vs : List Validator)
      → IsU64 total
      → validate_members crypto seen total (v ∷ vs) ≡ ok tt
      → (0 < v.power)
        × (validator_id_from_public_key crypto.sha256 v.public_key ≡ v.id)
        × (seen_before seen v.id ≡ false)
        × IsU64 (total + v.power)
        × (validate_members crypto (v.id ∷ seen) (total + v.power) vs ≡ ok tt)
  unfolding validate_members
  validate_members-step seen total v vs fits h =
      ground (arith, bytes_eq_iff (validator_id_from_public_key crypto.sha256 v.public_key) v.id)

  pub validate_members-Checked :
      (seen : List ValidatorId) (total : ℕ) (vs : List Validator)
      → IsU64 total
      → validate_members crypto seen total vs ≡ ok tt
      → Checked seen total vs
  validate_members-Checked seen total [] fits h = record {
    fits = unfold sum_power in omega arith;
    distinct = tt;
    positive = tt;
    keyed = tt;
    fresh = tt;
  }
  validate_members-Checked seen total (v ∷ vs) fits h =
      let (pos, key, new, room, rest) = validate_members-step seen total v vs fits h in
      let c = validate_members-Checked (v.id ∷ seen) (total + v.power) vs room rest in
      record {
        fits = sum-step total v vs c.fits;
        distinct = (fresh-find v.id seen vs c.fresh, c.distinct);
        positive = (pos, c.positive);
        keyed = (key, c.keyed);
        fresh = (new, fresh-weaken v.id seen vs c.fresh);
      }

  -- A set that passes `Validate` has distinct identifiers, which are the hashes of their keys,
  -- positive powers, and a total power that is a positive `uint64`.
  pub validate_set-Checked :
      (s : ValidatorSet)
      → validate_set crypto s ≡ ok tt
      → Checked [] 0 s.validators × (0 < sum_power s.validators)
  unfolding validate_set
  validate_set-Checked s h =
      let members : validate_members crypto [] 0 s.validators ≡ ok tt = ground arith in
      let nonempty : (length s.validators == 0) ≡ false = ground arith in
      let c = validate_members-Checked [] 0 s.validators (omega arith) members in
      (c, sum_power-pos s.validators nonempty c.positive)
