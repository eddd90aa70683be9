-- ===== src/Consensus/Order.antt =====
-- The order of the identifiers, and the validators sorted by it, as `Proposer` and `Root` of
-- internal/v2/consensus/consensus.go sort them.
use zephyr_chain.Base.{
  ◌+◌, ◌≡◌, refl, sym, ◌∙◌, Bool, true, false, none, List, [], ◌∷◌, if◌then◌else◌, arith, All,
  Bytes, bytes_eq, Bool-cases, inl, inr,
}
use zephyr_chain.Types.{ValidatorId}
use zephyr_chain.Consensus.Validators.{
  Validator, bytes_lt, insert_by_id, sort_by_id, find_validator,
}
use zephyr_chain.Consensus.Power.{DistinctIds, power_where}

pub bytes_lt_irrefl : (a : Bytes) → bytes_lt a a ≡ false
unfolding bytes_lt
bytes_lt_irrefl [] = refl
bytes_lt_irrefl (x ∷ a) = ground (arith, bytes_lt_irrefl a)

bytes_lt_trans : (a b c : Bytes) → bytes_lt a b ≡ true → bytes_lt b c ≡ true → bytes_lt a c ≡ true
unfolding bytes_lt
bytes_lt_trans a [] c h k = cc
bytes_lt_trans a (y ∷ b) [] h k = cc
bytes_lt_trans [] (y ∷ b) (z ∷ c) h k = refl
bytes_lt_trans (x ∷ a) (y ∷ b) (z ∷ c) h k = ground (arith, bytes_lt_trans a b c)

pub bytes_lt_asymm : (a b : Bytes) → bytes_lt a b ≡ true → bytes_lt b a ≡ false
bytes_lt_asymm a b h = elim (Bool-cases (bytes_lt b a)) [
  | inl back ↦ absurd (cc (sym (bytes_lt_trans a b a h back) ∙ bytes_lt_irrefl a))
  | inr other ↦ other
]

-- Of two different identifiers one is below the other.
bytes_lt_total : (a b : Bytes) → bytes_eq a b ≡ false → bytes_lt a b ≡ false → bytes_lt b a ≡ true
unfolding bytes_lt bytes_eq
bytes_lt_total [] [] h k = cc
bytes_lt_total [] (y ∷ b) h k = cc
bytes_lt_total (x ∷ a) [] h k = refl
bytes_lt_total (x ∷ a) (y ∷ b) h k = ground (arith, bytes_lt_total a b)

-- All of the validators stand behind the identifier.
abbrev pub Behind : ValidatorId → List Validator → Type 0
Behind id = All (λ (w : Validator). bytes_lt id w.id ≡ true)

-- Identifiers that grow from one validator to every later one.
abbrev pub Ascending : List Validator → Type 0
Ascending [] = Unit
Ascending (v ∷ vs) = Behind v.id vs × Ascending vs

Behind-trans :
    (x y : ValidatorId) (vs : List Validator) → bytes_lt x y ≡ true → Behind y vs → Behind x vs
Behind-trans x y [] h k = tt
Behind-trans x y (v ∷ vs) h k = (bytes_lt_trans x y v.id h k.0, Behind-trans x y vs h k.1)

Behind-insert :
    (id : ValidatorId) (v : Validator) (vs : List Validator)
    → bytes_lt id v.id ≡ true
    → Behind id vs
    → Behind id (insert_by_id v vs)
unfolding insert_by_id
Behind-insert id v [] h k = (h, tt)
Behind-insert id v (w ∷ ws) h k = elim (Bool-cases (bytes_lt w.id v.id)) [
  | inl below ↦ rw below (k.0, Behind-insert id v ws h k.1)
  | inr above ↦ rw above (h, k)
]

insert_by_id-Ascending :
    (v : Validator) (vs : List Validator)
    → find_validator v.id vs ≡ none
    → Ascending vs
    → Ascending (insert_by_id v vs)
unfolding insert_by_id find_validator
insert_by_id-Ascending v [] new h = (tt, tt)
insert_by_id-Ascending v (w ∷ ws) new h = elim (Bool-cases (bytes_lt w.id v.id)) [
  | inl below ↦
      rw below (Behind-insert w.id v ws below h.0, insert_by_id-Ascending v ws (ground arith) h.1)
  | inr above ↦
      let first = bytes_lt_total w.id v.id (ground arith) above in
      rw above ((first, Behind-trans v.id w.id ws first h.0), h)
]

find_validator-insert :
    (id : ValidatorId) (v : Validator) (vs : List Validator)
    → bytes_eq v.id id ≡ false
    → find_validator id vs ≡ none
    → find_validator id (insert_by_id v vs) ≡ none
unfolding insert_by_id find_validator
find_validator-insert id v [] h k = rw h refl
find_validator-insert id v (w ∷ ws) h k = ground (arith, find_validator-insert id v ws)

find_validator-sort :
    (id : ValidatorId) (vs : List Validator)
    → find_validator id vs ≡ none
    → find_validator id (sort_by_id vs) ≡ none
unfolding sort_by_id find_validator
find_validator-sort id [] h = refl
find_validator-sort id (v ∷ vs) h =
    find_validator-insert id v (sort_by_id vs) (ground arith)
      (find_validator-sort id vs (ground arith))

-- Validators of distinct identifiers are sorted into strictly growing identifiers.
pub sort_by_id-Ascending : (vs : List Validator) → DistinctIds vs → Ascending (sort_by_id vs)
unfolding sort_by_id
sort_by_id-Ascending [] h = tt
sort_by_id-Ascending (v ∷ vs) h =
    insert_by_id-Ascending v (sort_by_id vs) (find_validator-sort v.id vs h.0)
      (sort_by_id-Ascending vs h.1)

power_where-insert :
    (p : ValidatorId → Bool) (v : Validator) (vs : List Validator)
    → power_where p (insert_by_id v vs) ≡ (if p v.id then v.power else 0) + power_where p vs
unfolding power_where insert_by_id
power_where-insert p v [] = refl
power_where-insert p v (w ∷ ws) = ground (arith, power_where-insert p v ws)

pub power_where-sort :
    (p : ValidatorId → Bool) (vs : List Validator)
    → power_where p (sort_by_id vs) ≡ power_where p vs
unfolding power_where sort_by_id
power_where-sort p [] = refl
power_where-sort p (v ∷ vs) =
    power_where-insert p v (sort_by_id vs) ∙ omega (arith, power_where-sort p vs)
