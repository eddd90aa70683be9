-- ===== src/Tests/State.antt =====
-- The sparse Merkle tree on two keys.
use zephyr_chain.Base.{
  ℕ, ◌≢◌, sym, ◌∙◌, ap, inl, inr, arith, key-cases, lookup-here, lookup-away, ◌≡◌, ◌⊎◌, refl, true,
  Option, some, none, [], ◌∷◌, Bytes, All, lookup, Keyed_Bytes,
}
use zephyr_chain.Codec.Hash.{HashCollision}
use zephyr_chain.Types.{Hash, IsHash}
use zephyr_chain.State.{Proof, root, prove, verify, apply}
use zephyr_chain.State.Order.{Updates, built, override, root-apply, root-apply_content}
use zephyr_chain.State.Refines.{commitment}
use zephyr_chain.State.Membership.{verify-prove}
use zephyr_chain.State.Binding.{verify-binding}
use zephyr_chain.State.Honest.{verify-root, prove-Sized}
use zephyr_chain.Tests.Common.{toy_sha256, toy_sized, filled, IsBytes-of}

abbrev first_key : Hash
first_key = filled 1

abbrev second_key : Hash
second_key = filled 130

-- The second key is set, deleted and set again.
abbrev history : Updates
history =
    (second_key, some (9 ∷ []))
    ∷ (first_key, some (7 ∷ []))
    ∷ (second_key, none)
    ∷ (second_key, some [])
    ∷ []

abbrev last_update : Updates
last_update = (first_key, some (8 ∷ [])) ∷ (second_key, none) ∷ []

abbrev last_reversed : Updates
last_reversed = (second_key, none) ∷ (first_key, some (8 ∷ [])) ∷ []

first-IsHash : IsHash first_key
first-IsHash = (refl, IsBytes-of first_key refl)

second-IsHash : IsHash second_key
second-IsHash = (refl, IsBytes-of second_key refl)

history-hashes : All (λ entry. IsHash entry.0) history
history-hashes = (second-IsHash, (first-IsHash, (second-IsHash, (second-IsHash, tt))))

abbrev head : Bytes → ℕ
head [] = 0
head (b ∷ bs) = b

abbrev known : Option Bytes
known = lookup (built toy_sha256 history).values first_key

abbrev first_proof : Proof
first_proof = prove toy_sha256 (built toy_sha256 history) first_key

root-apply_example :
    root toy_sha256 (built toy_sha256 history)
    ≡ commitment toy_sha256 (built toy_sha256 history).values
root-apply_example = root-apply toy_sha256 history history-hashes

last-hashes : All (λ entry. IsHash entry.0) last_update
last-hashes = (first-IsHash, (second-IsHash, tt))

reversed-hashes : All (λ entry. IsHash entry.0) last_reversed
reversed-hashes = (second-IsHash, (first-IsHash, tt))

keys_differ : first_key ≢ second_key
keys_differ e = omega (arith, ap head e)

-- The two listings are of one map.
one_map : (key : Hash) → lookup last_update key ≡ lookup last_reversed key
one_map key = elim (key-cases first_key key) [
  | inl first ↦
      lookup-here (first_key, some (8 ∷ [])) ((second_key, none) ∷ []) key first
      ∙ sym (
          lookup-away (second_key, none) ((first_key, some (8 ∷ [])) ∷ []) key
            (λ e. keys_differ (first ∙ sym e))
          ∙ lookup-here (first_key, some (8 ∷ [])) [] key first)
  | inr other ↦
      lookup-away (first_key, some (8 ∷ [])) ((second_key, none) ∷ []) key other
      ∙ elim (key-cases second_key key) [
        | inl second ↦
            lookup-here (second_key, none) [] key second
            ∙ sym (lookup-here (second_key, none) ((first_key, some (8 ∷ [])) ∷ []) key second)
        | inr third ↦
            lookup-away (second_key, none) [] key third
            ∙ sym (
                lookup-away (second_key, none) ((first_key, some (8 ∷ [])) ∷ []) key third
                ∙ lookup-away (first_key, some (8 ∷ [])) [] key other)
      ]
]

root-apply_content_example :
    root toy_sha256 (apply toy_sha256 last_update (built toy_sha256 history))
    ≡ root toy_sha256 (apply toy_sha256 last_reversed (built toy_sha256 history))
root-apply_content_example =
    root-apply_content toy_sha256 history history last_update last_reversed history-hashes
      history-hashes last-hashes reversed-hashes
      (lookup-away (second_key, none) [] first_key (λ e. keys_differ (sym e)), (refl, tt))
      (lookup-away (first_key, some (8 ∷ [])) [] second_key keys_differ, (refl, tt))
      (λ key. ap (λ o. override o (lookup (built toy_sha256 history).values key)) (one_map key))

verify-prove_example :
    verify toy_sha256 (root toy_sha256 (built toy_sha256 history)) first_key known first_proof
    ≡ true
verify-prove_example = verify-prove toy_sha256 history first_key history-hashes first-IsHash

first-verifies :
    verify toy_sha256 (root toy_sha256 (built toy_sha256 history)) first_key known first_proof
    ≡ true
first-verifies = verify-prove toy_sha256 history first_key history-hashes first-IsHash

verify-binding_example : (known ≡ known) ⊎ HashCollision toy_sha256
verify-binding_example =
    verify-binding toy_sha256 toy_sized (root toy_sha256 (built toy_sha256 history)) first_key known
      known first_proof first_proof
      (prove-Sized toy_sha256 toy_sized history first_key history-hashes first-IsHash)
      (prove-Sized toy_sha256 toy_sized history first_key history-hashes first-IsHash)
      first-verifies first-verifies

verify-root_example :
    (known ≡ lookup (built toy_sha256 history).values first_key) ⊎ HashCollision toy_sha256
verify-root_example =
    verify-root toy_sha256 toy_sized history first_key known first_proof history-hashes first-IsHash
      (prove-Sized toy_sha256 toy_sized history first_key history-hashes first-IsHash)
      first-verifies
