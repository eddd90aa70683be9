-- ===== src/Consensus/Validators.antt =====
-- Validator sets, their power and the proposers, internal/v2/consensus/consensus.go and
-- validator_root.go. The curve operations of the standard library and SHA-256 are the fields of
-- `Crypto`.
use zephyr_chain.Base.{
  ℕ, ◌+◌, ◌-◌, ◌*◌, ◌/◌, ◌%◌, ◌^◌, Bool, true, false, not, ◌||◌, Option, none, some, List, [], ◌∷◌,
  map, ltb, ◌==◌, if◌then◌else◌, Bytes, length, bytes_eq, codes, Result, ok, err, ◌>>=◌, ◌>>◌,
  fail_if, or_error, validator_set,
}
use zephyr_chain.Codec.BigEndian.{max_u64}
use zephyr_chain.Codec.Writer
use zephyr_chain.Codec.Writer.{◌▷◌}
use zephyr_chain.Types.{Hash, NetworkId, ValidatorId, is_zero32, validator_id_from_public_key}
use zephyr_chain.Merkle

-- `elliptic.Unmarshal` on P-256 is taken by whether it finds a point, and `ecdsa.Verify` by its
-- answer on a marshalled key, a digest and the two numbers of the signature.
pub record Crypto : Type 0 where
  pub sha256 : Bytes → Bytes
  pub on_curve : Bytes → Bool
  pub ecdsa_verify : Bytes → Hash → ℕ → ℕ → Bool
  pub order : ℕ

pub record Validator : Type 0 where
  pub id : ValidatorId
  pub public_key : Bytes
  pub power : ℕ

pub record ValidatorSet : Type 0 where
  pub network : NetworkId
  pub validators : List Validator

-- `_, duplicate := seen[id]`: the set of the identifiers met so far.
unfoldable pub seen_before : List ValidatorId → ValidatorId → Bool
seen_before [] id = false
seen_before (x ∷ seen) id = bytes_eq x id || seen_before seen id

-- Sums of powers are `uint64`s and wrap.
unfoldable pub add_u64 : ℕ → ℕ → ℕ
add_u64 a b = (a + b) % 2 ^ 64

-- `for _, validator := range s.Validators { total += validator.Power }`
unfoldable pub add_powers : ℕ → List Validator → ℕ
unfolding add_u64
add_powers total [] = total
add_powers total (v ∷ vs) = add_powers (add_u64 total v.power) vs

-- `q*2 + (r*2)/3 + 1` with the quotient and the remainder by three.
unfoldable pub quorum_power : ℕ → ℕ
quorum_power total =
    if total == 0 then 0 else ((total / 3 * 2 % 2 ^ 64 + total % 3 * 2 / 3) % 2 ^ 64 + 1) % 2 ^ 64

-- `bytes.Compare(a, b) < 0`
unfoldable pub bytes_lt : Bytes → Bytes → Bool
bytes_lt a [] = false
bytes_lt [] (y ∷ b) = true
bytes_lt (x ∷ a) (y ∷ b) = if x == y then bytes_lt a b else ltb x y

unfoldable pub insert_by_id : Validator → List Validator → List Validator
unfolding bytes_lt
insert_by_id v [] = v ∷ []
insert_by_id v (w ∷ ws) = if bytes_lt w.id v.id then w ∷ insert_by_id v ws else v ∷ w ∷ ws

-- `sort.Slice` by identifier. The identifiers of a valid set differ, so that the sorted order does
-- not depend on the sorting algorithm.
unfoldable pub sort_by_id : List Validator → List Validator
unfolding insert_by_id
sort_by_id [] = []
sort_by_id (v ∷ vs) = insert_by_id v (sort_by_id vs)

-- The loop of `Proposer` over the sorted validators.
unfoldable pub pick : ℕ → ℕ → List Validator → Result Validator
unfolding add_u64
pick slot cumulative [] = err validator_set
pick slot cumulative (v ∷ vs) =
    let next = add_u64 cumulative v.power in
    let rest = pick slot next vs in if ltb slot next then ok v else rest

-- `((height-1)%total + (round % total)) % total`, for a height of one at least.
unfoldable pub slot_of : ℕ → ℕ → ℕ → ℕ
unfolding add_u64
slot_of total height round = add_u64 ((height - 1) % total) (round % total) % total

-- `ValidatorSet.validator`
unfoldable pub find_validator : ValidatorId → List Validator → Option Validator
find_validator id [] = none
find_validator id (v ∷ vs) = if bytes_eq v.id id then some v else find_validator id vs

-- `members[validator.ID] = validator` for each validator in turn: the newest entry stands first, and
-- hides older ones of its key.
unfoldable pub index_members : List Validator → List Validator → List Validator
index_members members [] = members
index_members members (v ∷ vs) = index_members (v ∷ members) vs

module _ (crypto : Crypto) where
  open crypto use {sha256, on_curve}

  -- The loop of `ValidatorSet.Validate`.
  unfoldable pub validate_members : List ValidatorId → ℕ → List Validator → Result (Unit {0})
  unfolding seen_before add_u64
  validate_members seen total [] = ok tt
  validate_members seen total (v ∷ vs) =
      let rest = validate_members (v.id ∷ seen) (add_u64 total v.power) vs in
      if v.power == 0
        || not (length v.public_key == 65)
        || not (bytes_eq (validator_id_from_public_key sha256 v.public_key) v.id)
        || not (on_curve v.public_key)
        || seen_before seen v.id
        || ltb (max_u64 - total) v.power
      then err validator_set
      else rest

  unfoldable pub validate_set : ValidatorSet → Result (Unit {0})
  unfolding validate_members
  validate_set s =
      if is_zero32 s.network || length s.validators == 0
      then err validator_set
      else validate_members [] 0 s.validators

  unfoldable pub total_power : ValidatorSet → Result ℕ
  unfolding validate_set add_powers
  total_power s = do validate_set s; ok (add_powers 0 s.validators)

  unfoldable pub proposer : ValidatorSet → ℕ → ℕ → Result Validator
  unfolding total_power sort_by_id pick slot_of
  proposer s height round = do
    total ← or_error (total_power s) validator_set
    fail_if (height == 0) validator_set
    pick (slot_of total height round) 0 (sort_by_id s.validators)

  unfoldable pub validator_leaf : Validator → Hash
  validator_leaf v = Merkle.leaf sha256 (codes "validator") (
      Writer.bytes_copy
        (Writer.empty ▷ Writer.fixed v.id ▷ Writer.bytes v.public_key ▷ Writer.u64 v.power))

  -- `ValidatorSet.Root`
  unfoldable pub validator_root : ValidatorSet → Result Hash
  unfolding validate_set sort_by_id validator_leaf
  validator_root s = do
    validate_set s
    ok (Merkle.root sha256 (map validator_leaf (sort_by_id s.validators)))
