-- ===== src/Base/Errors.antt =====
-- Errors as values: the error variables of the modelled packages, and the `(value, error)` pairs of
-- the program as a result type.
use mathlib.Core.Path.{◌≡◌, refl}
use mathlib.Core.Logic.{◌⊎◌, inl, inr}
use mathlib.Core.Bool.{Bool, true, false}

pub data Error : Type 0 where
  unexpected_eof trailing_data length_limit invalid_bool : Error
  invalid_object invalid_coin : Error
  invalid_token_definition : Error
  lending : Error
  governance : Error
  validator_set proposal vote certificate insufficient_power : Error
  signing_guard signing_conflict signing_journal : Error
  merkle_index : Error
  shard_count receipt : Error
  io_failure : Error
  fee_policy : Error
  resource_fee : Error
  invalid_proof : Error
  object_not_found object_exists : Error
  invalid_version invalid_network invalid_sender invalid_signature signature_form
        invalid_structure :
      Error
  invalid_witness transaction_expired invalid_wire : Error
  unsupported_operation ownership conservation amount_overflow wrong_shard token_policy : Error

pub data Result {ℓ} (Value : Type ℓ) : Type ℓ where
  ok : Value → Result Value
  err : Error → Result Value

infixl 5 ◌>>=◌ ◌>>◌
-- `if err != nil { return err }` behind a call, with the value for the rest.
abbrev pub ◌>>=◌ {ℓ κ} :
    {Value : Type ℓ} {Next : Type κ} → Result Value → (Value → Result Next) → Result Next
ok value >>= rest = rest value
err reason >>= rest = err reason

-- `if cond { return err }`
abbrev pub fail_if : Bool → Error → Result (Unit {0})
fail_if true e = err e
fail_if false e = ok tt

-- `if err != nil { return e }`: any failure is reported as `e`.
abbrev pub or_error {ℓ} : {A : Type ℓ} → Result A → Error → Result A
or_error (ok a) e = ok a
or_error (err _) e = err e

-- The same behind a call that has no value.
abbrev pub ◌>>◌ {ℓ} : {Next : Type ℓ} → Result (Unit {0}) → Result Next → Result Next
◌>>◌ check rest = check >>= λ (done : Unit {0}). rest

-- `err == nil`
abbrev pub succeeds {ℓ} : {A : Type ℓ} → Result A → Bool
succeeds (ok _) = true
succeeds (err _) = false

pub Result-cases {ℓ} :
    {Value : Type ℓ} (answer : Result Value)
    → ((value : Value) × (answer ≡ ok value)) ⊎ ((reason : Error) × (answer ≡ err reason))
Result-cases (err reason) = inr (reason, refl)
Result-cases (ok value) = inl (value, refl)

-- What a chain that succeeds is made of.
pub >>=-eq-ok {ℓ κ} :
    {Value : Type ℓ} {Next : Type κ} {out : Next} (first : Result Value)
    (rest : Value → Result Next)
    → first >>= rest ≡ ok out
    → (value : Value) × (first ≡ ok value) × (rest value ≡ ok out)
>>=-eq-ok (err reason) rest h = cc
>>=-eq-ok (ok value) rest h = (value, refl, h)

pub fail_if-eq-ok : (b : Bool) (e : Error) {u : Unit {0}} → fail_if b e ≡ ok u → b ≡ false
fail_if-eq-ok true e h = cc
fail_if-eq-ok false e h = refl

pub or_error-eq-ok {ℓ} :
    {A : Type ℓ} (r : Result A) (e : Error) {a : A} → or_error r e ≡ ok a → r ≡ ok a
or_error-eq-ok (ok a) e h = h
or_error-eq-ok (err _) e h = cc

-- `if err != nil { return err }; return a`
abbrev pub checked {ℓ} : {A : Type ℓ} → Result (Unit {0}) → A → Result A
checked (ok _) a = ok a
checked (err e) a = err e

pub checked-eq-ok {ℓ} :
    {A : Type ℓ} (r : Result (Unit {0})) (a : A) {b : A}
    → checked r a ≡ ok b
    → (r ≡ ok tt) × (a ≡ b)
checked-eq-ok (ok tt) a h = (refl, cc)
checked-eq-ok (err e) a h = cc

pub succeeds-eq-ok : (r : Result (Unit {0})) → succeeds r ≡ true → r ≡ ok tt
succeeds-eq-ok (ok tt) h = refl
succeeds-eq-ok (err e) h = cc
