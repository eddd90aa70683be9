-- ===== src/Consensus/Quorums.antt =====
-- What a verified certificate stands for, and what two of them have in common.
use zephyr_chain.Base.{
  ℕ, ◌+◌, ◌≤◌, ◌<◌, ◌≡◌, refl, sym, ◌∙◌, ap, Bool, true, false, ◌&&◌, ◌||◌, Option, none, some, inl,
  inr, List, [], ◌∷◌, arith, All, bytes_eq, bytes_eq_iff, Bool-cases, Option-cases, Result, ok,
  Result-cases,
}
use zephyr_chain.Codec.BigEndian.{IsU64}
use zephyr_chain.Types.{ValidatorId}
use zephyr_chain.Consensus.Validators.{
  Crypto, Validator, ValidatorSet, seen_before, add_u64, add_powers, quorum_power, find_validator,
  index_members, validate_set,
}
use zephyr_chain.Consensus.Votes.{
  Vote, Certificate, votes_for, signed_by, count_votes, verify_certificate,
}
use zephyr_chain.Consensus.Power.{
  power_where, sum_power, DistinctIds, Checked, validate_set-Checked, add_powers-sum,
}

-- The validator has a vote in the list.
unfoldable pub voted : List Vote → ValidatorId → Bool
voted [] id = false
voted (v ∷ votes) id = bytes_eq v.voter id || voted votes id

module _ (p q : ValidatorId → Bool) where
  power_where_congr :
      ((id : ValidatorId) → p id ≡ q id)
      → (vs : List Validator) → power_where p vs ≡ power_where q vs
  unfolding power_where
  power_where_congr h [] = refl
  power_where_congr h (v ∷ vs) = ground (arith, h v.id, power_where_congr h vs)

  -- Two groups overlap in what they have beyond the whole.
  pub power_overlap :
      (vs : List Validator)
      → power_where p vs + power_where q vs ≤ sum_power vs + power_where (λ id. p id && q id) vs
  unfolding power_where sum_power
  power_overlap [] = omega arith
  power_overlap (v ∷ vs) = ground (arith, power_overlap vs)

power_where-le : (p : ValidatorId → Bool) (vs : List Validator) → power_where p vs ≤ sum_power vs
unfolding power_where sum_power
power_where-le p [] = omega arith
power_where-le p (v ∷ vs) = ground (arith, power_where-le p vs)

power_where-none : (vs : List Validator) → power_where (seen_before []) vs ≡ 0
unfolding power_where seen_before
power_where-none [] = refl
power_where-none (v ∷ vs) = omega (arith, power_where-none vs)

-- A voter outside the validators adds nothing.
power_where-absent :
    (id : ValidatorId) (seen : List ValidatorId) (vs : List Validator)
    → find_validator id vs ≡ none
    → power_where (seen_before (id ∷ seen)) vs ≡ power_where (seen_before seen) vs
unfolding power_where seen_before find_validator
power_where-absent id seen [] h = refl
power_where-absent id seen (v ∷ vs) h =
    ground (arith, bytes_eq_iff id v.id, bytes_eq_iff v.id id, power_where-absent id seen vs)

-- A new voter adds its power.
power_where-new :
    (id : ValidatorId) (seen : List ValidatorId) (vs : List Validator) (w : Validator)
    → DistinctIds vs
    → seen_before seen id ≡ false
    → find_validator id vs ≡ some w
    → power_where (seen_before (id ∷ seen)) vs ≡ power_where (seen_before seen) vs + w.power
unfolding power_where seen_before find_validator
power_where-new id seen [] w d new h = cc
power_where-new id seen (v ∷ vs) w d new h = elim (Bool-cases (bytes_eq v.id id)) [
  | inl same ↦
      let e : v.id ≡ id = (bytes_eq_iff v.id id).0 same in
      let absent : find_validator id vs ≡ none = rw (← e) d.0 in
      ground (arith, e, power_where-absent id seen vs absent, bytes_eq_iff id v.id)
  | inr other ↦
      ground
        (arith, bytes_eq_iff id v.id, bytes_eq_iff v.id id, power_where-new id seen vs w d.1 new)
]

abbrev or_else {ℓ} : {A : Type ℓ} → Option A → Option A → Option A
or_else none o = o
or_else (some a) o = some a

-- With distinct identifiers the index finds what the set holds.
find-index_members :
    (id : ValidatorId) (members vs : List Validator)
    → DistinctIds vs
    → find_validator id (index_members members vs)
      ≡ or_else (find_validator id vs) (find_validator id members)
unfolding index_members find_validator
find-index_members id members [] d = refl
find-index_members id members (v ∷ vs) d = elim (Bool-cases (bytes_eq v.id id)) [
  | inl same ↦
      let e : v.id ≡ id = (bytes_eq_iff v.id id).0 same in
      let absent : find_validator id vs ≡ none = rw (← e) d.0 in
      ground (arith, absent, find-index_members id (v ∷ members) vs d.1)
  | inr other ↦ ground (arith, find-index_members id (v ∷ members) vs d.1)
]

regroup :
    (v : Vote) (votes : List Vote) (seen : List ValidatorId) (id : ValidatorId)
    → (voted votes id || seen_before (v.voter ∷ seen) id)
      ≡ (voted (v ∷ votes) id || seen_before seen id)
unfolding voted seen_before
regroup v votes seen id = ground arith

add-no_wrap :
    (power w before after bound : ℕ)
    → power ≡ before
    → after ≡ before + w
    → after ≤ bound
    → IsU64 bound
    → add_u64 power w ≡ after
unfolding add_u64
add-no_wrap power w before after bound e h le fits = omega arith

or_else-none {ℓ} : {A : Type ℓ} (o : Option A) → or_else o none ≡ o
or_else-none none = refl
or_else-none (some a) = refl

find-index :
    (vs : List Validator)
    → DistinctIds vs
    → (id : ValidatorId) → find_validator id (index_members [] vs) ≡ find_validator id vs
unfolding find_validator
find-index vs d id = find-index_members id [] vs d ∙ or_else-none (find_validator id vs)

in_range : (s : ValidatorSet) → IsU64 (0 + sum_power s.validators) → IsU64 (sum_power s.validators)
in_range s h = omega arith

or_false :
    (votes : List Vote) (id : ValidatorId) → (voted votes id || seen_before [] id) ≡ voted votes id
unfolding seen_before
or_false votes id = ground arith

le_of_eqs : {a b a' b' : ℕ} → a ≤ b → a ≡ a' → b ≡ b' → a' ≤ b'
le_of_eqs h e f = omega arith

module _ (crypto : Crypto) where
  -- A vote for the certificate's header, by a validator of the set, under a signature that verifies.
  pub record Counted (c : Certificate) (vs : List Validator) (v : Vote) : Type 0 where
    pub for_header : votes_for c v ≡ true
    pub validator : Validator
    pub member : find_validator v.voter vs ≡ some validator
    pub signed : signed_by crypto validator v ≡ true

  count_votes-step :
      (members : List Validator) (c : Certificate) (seen : List ValidatorId) (power : ℕ) (v : Vote)
      (votes : List Vote) {total : ℕ}
      → count_votes crypto members c seen power (v ∷ votes) ≡ ok total
      → (votes_for c v ≡ true)
        × (seen_before seen v.voter ≡ false)
        × (w : Validator) × (find_validator v.voter members ≡ some w)
        × (signed_by crypto w v ≡ true)
        × (count_votes crypto members c (v.voter ∷ seen) (add_u64 power w.power) votes ≡ ok total)
  unfolding count_votes
  count_votes-step members c seen power v votes h =
      elim (Option-cases (find_validator v.voter members)) [
        | inl missing ↦ absurd (ground arith)
        | inr (w, found) ↦ (ground arith, ground arith, w, found, ground arith, ground arith)
      ]

  module _ (members vs : List Validator) (c : Certificate)
      (index : (id : ValidatorId) → find_validator id members ≡ find_validator id vs)
      (distinct : DistinctIds vs) (fits : IsU64 (sum_power vs)) where
    count_votes-power :
        (seen : List ValidatorId) (power : ℕ) (votes : List Vote) (total : ℕ)
        → count_votes crypto members c seen power votes ≡ ok total
        → power ≡ power_where (seen_before seen) vs
        → (total ≡ power_where (λ id. voted votes id || seen_before seen id) vs)
          × All (Counted c vs) votes
    unfolding count_votes voted
    count_votes-power seen power [] total h e = (ok_inj h ∙ e, tt)
      where
        ok_inj : {x y : ℕ} → ◌≡◌ {A = Result ℕ} (ok y) (ok x) → x ≡ y
        ok_inj h = cc
    count_votes-power seen power (v ∷ votes) total h e =
        let (for_header, new, w, found, signed, rest) =
          count_votes-step members c seen power v votes h in
        let member : find_validator v.voter vs ≡ some w = sym (index v.voter) ∙ found in
        let added : power_where (seen_before (v.voter ∷ seen)) vs
            ≡ power_where (seen_before seen) vs + w.power =
          power_where-new v.voter seen vs w distinct new member in
        let no_wrap : add_u64 power w.power ≡ power_where (seen_before (v.voter ∷ seen)) vs =
          add-no_wrap power w.power _ _ (sum_power vs) e added (power_where-le _ vs) fits in
        let (tally, counted) =
          count_votes-power (v.voter ∷ seen) (add_u64 power w.power) votes total rest no_wrap in
        (
          tally ∙ power_where_congr _ _ (regroup v votes seen) vs,
          (
            record { for_header = for_header; validator = w; member = member; signed = signed },
            counted,
          ),
        )

  -- What `VerifyCertificate` guarantees: each vote counted, and the power of the voters a quorum.
  pub record Certified (s : ValidatorSet) (c : Certificate) : Type 0 where
    pub checked : Checked crypto [] 0 s.validators
    pub total_pos : 0 < sum_power s.validators
    pub counted : All (Counted c s.validators) c.votes
    pub quorum : quorum_power (sum_power s.validators) ≤ power_where (voted c.votes) s.validators

  verify_certificate-step :
      (s : ValidatorSet) (c : Certificate)
      → verify_certificate crypto s c ≡ ok tt
      → (validate_set crypto s ≡ ok tt)
        × (power : ℕ) × (count_votes crypto (index_members [] s.validators) c [] 0 c.votes
            ≡ ok power)
        × (quorum_power (add_powers 0 s.validators) ≤ power)
  unfolding verify_certificate
  verify_certificate-step s c h =
      elim (Result-cases (count_votes crypto (index_members [] s.validators) c [] 0 c.votes)) [
        | inl (power, e) ↦ (ground arith, power, e, ground arith)
        | inr (x, e) ↦ absurd (ground arith)
      ]

  -- A certificate that passes `VerifyCertificate` is certified in that sense.
  pub verify_certificate-Certified :
      (s : ValidatorSet) (c : Certificate) → verify_certificate crypto s c ≡ ok tt → Certified s c
  verify_certificate-Certified s c h =
      let (valid, power, counting, enough) = verify_certificate-step s c h in
      let (is, pos) = validate_set-Checked crypto s valid in
      let (tally, counted) =
        count_votes-power (index_members [] s.validators) s.validators c
          (find-index s.validators is.distinct) is.distinct (in_range s is.fits) [] 0 c.votes power
          counting (sym (power_where-none s.validators)) in
      let all : add_powers 0 s.validators ≡ sum_power s.validators =
        add_powers-sum 0 s.validators is.fits ∙ omega arith in
      record {
        checked = is;
        total_pos = pos;
        counted = counted;
        quorum =
            le_of_eqs enough (ap quorum_power all)
              (tally ∙ power_where_congr _ _ (or_false c.votes) s.validators);
      }
