-- ===== src/Base/Maps.antt =====
-- Go maps as association lists without repeated keys: what a lookup finds after a change.
use mathlib.Core.Path.{◌≡◌, refl, sym, ◌∙◌}
use mathlib.Core.Logic.{◌↔◌, ◌≢◌, ◌⊎◌, inl, inr}
use mathlib.Core.Bool.{Bool, true, false}
use mathlib.Core.Option.{Option, none, some}
use mathlib.Core.List.{List, [], ◌∷◌}
use zephyr_chain.Base.Tests.{if◌then◌else◌, Bool-cases}
use zephyr_chain.Base.Lists.{Bytes, bytes_eq, bytes_eq_iff}

-- A type whose values serve as map keys.
pub record Keyed {ℓ} (K : Type ℓ) : Type ℓ where
  pub same : K → K → Bool
  pub same_iff : (a b : K) → (same a b ≡ true) ↔ (a ≡ b)

instance unfoldable pub Keyed_Bytes : Keyed Bytes
Keyed_Bytes = record { same = bytes_eq; same_iff = bytes_eq_iff }

module _ {K : Type 0} ⦃key : Keyed K⦄ where
  same_self : (k : K) → key.same k k ≡ true
  same_self k = (key.same_iff k k).1 refl

  same_ne : (a b : K) → a ≢ b → key.same a b ≡ false
  same_ne a b h = elim (Bool-cases (key.same a b)) [
    | inl yes' ↦ absurd (h ((key.same_iff a b).0 yes'))
    | inr no' ↦ no'
  ]

  pub key-cases : (a b : K) → (a ≡ b) ⊎ (a ≢ b)
  key-cases a b = elim (Bool-cases (key.same a b)) [
    | inl here ↦ inl ((key.same_iff a b).0 here)
    | inr away ↦ inr (λ e. cc (sym away ∙ (key.same_iff a b).1 e))
  ]

module _ {K V : Type 0} ⦃key : Keyed K⦄ where
  -- `v, ok := m[k]`
  abbrev pub lookup : List (K × V) → K → Option V
  lookup [] k = none
  lookup (entry ∷ m) k = if key.same entry.0 k then some entry.1 else lookup m k

  -- `delete(m, k)`
  abbrev pub erase : List (K × V) → K → List (K × V)
  erase [] k = []
  erase (entry ∷ m) k = let rest = erase m k in if key.same entry.0 k then rest else entry ∷ rest

  -- `m[k] = v`
  abbrev pub insert : List (K × V) → K → V → List (K × V)
  insert m k v = (k, v) ∷ erase m k

  pub lookup-erase_self : (m : List (K × V)) (k : K) → lookup (erase m k) k ≡ none
  lookup-erase_self [] k = refl
  lookup-erase_self (entry ∷ m) k = elim (Bool-cases (key.same entry.0 k)) [
    | inl here ↦ rw here (lookup-erase_self m k)
    | inr there ↦ rw (there, there) (lookup-erase_self m k)
  ]

  pub lookup-erase_ne : (m : List (K × V)) (k j : K) → k ≢ j → lookup (erase m k) j ≡ lookup m j
  lookup-erase_ne [] k j h = refl
  lookup-erase_ne (entry ∷ m) k j h = elim (Bool-cases (key.same entry.0 k)) [
    | inl here ↦
        let other : key.same entry.0 j ≡ false =
          same_ne entry.0 j (λ e. h (sym ((key.same_iff entry.0 k).0 here) ∙ e)) in
        rw (here, other) (lookup-erase_ne m k j h)
    | inr there ↦ elim (Bool-cases (key.same entry.0 j)) [
      | inl found ↦ rw (there, found) refl
      | inr missed ↦ rw (there, missed) (lookup-erase_ne m k j h)
    ]
  ]

  pub lookup-insert_self : (m : List (K × V)) (k : K) (v : V) → lookup (insert m k v) k ≡ some v
  lookup-insert_self m k v = rw (same_self k) refl

  pub lookup-insert_ne :
      (m : List (K × V)) (k j : K) (v : V) → k ≢ j → lookup (insert m k v) j ≡ lookup m j
  lookup-insert_ne m k j v h = rw (same_ne k j h) (lookup-erase_ne m k j h)

  pub lookup-here :
      (entry : K × V) (m : List (K × V)) (k : K) → entry.0 ≡ k → lookup (entry ∷ m) k ≡ some entry.1
  lookup-here entry m k same = rw ((key.same_iff entry.0 k).1 same) refl

  pub lookup-away :
      (entry : K × V) (m : List (K × V)) (k : K) → entry.0 ≢ k → lookup (entry ∷ m) k ≡ lookup m k
  lookup-away entry m k ne = rw (same_ne entry.0 k ne) refl

  pub erase-here :
      (entry : K × V) (m : List (K × V)) (k : K) → entry.0 ≡ k → erase (entry ∷ m) k ≡ erase m k
  erase-here entry m k same = rw ((key.same_iff entry.0 k).1 same) refl

  pub erase-away :
      (entry : K × V) (m : List (K × V)) (k : K)
      → entry.0 ≢ k
      → erase (entry ∷ m) k ≡ entry ∷ erase m k
  erase-away entry m k ne = rw (same_ne entry.0 k ne) refl

-- The first value where there is one.
abbrev pub or_else {ℓ} : {A : Type ℓ} → Option A → Option A → Option A
or_else none other = other
or_else (some a) other = some a
