-- ===== src/World/Changes.antt =====
-- The loops of `Apply`, key by key.
use zephyr_chain.Base.{
  ◌≡◌, refl, sym, ◌∙◌, ap, Bool, true, false, ◌||◌, Option, none, some, List, [], ◌∷◌,
  if◌then◌else◌, Bytes, bytes_eq, bytes_eq_iff, Keyed_Bytes, lookup, erase, insert,
  lookup-insert_self, lookup-insert_ne, lookup-erase_self, lookup-erase_ne, key-cases, erase-here,
  erase-away, or_else, inl, inr, Bool-cases, All,
}
use mathlib.Core.Path.{subst}
use zephyr_chain.Types.{ObjectId, IsHash}
use zephyr_chain.Object.{Object, object_hash}
use zephyr_chain.State.Order.{Updates, Listing}
use zephyr_chain.World.{
  Objects, seen_in, remove_consumed, put_created, consumed_updates, created_updates,
}

-- The last object of a list that has an identifier.
abbrev pub last_created : List Object → ObjectId → Option Object
last_created [] id = none
last_created (o ∷ created) id =
    or_else (last_created created id) (if bytes_eq o.id id then some o else none)

if_both : {A : Type 0} (b : Bool) (a : A) → (if b then a else a) ≡ a
if_both true a = refl
if_both false a = refl

pub seen_in-cons :
    (x id : ObjectId) (xs : List ObjectId) → seen_in id (x ∷ xs) ≡ (bytes_eq x id || seen_in id xs)
unfolding seen_in
seen_in-cons x id xs = refl

pub lookup-put_created :
    (created : List Object) (objects : Objects) (id : ObjectId)
    → lookup (put_created created objects) id
      ≡ or_else (last_created created id) (lookup objects id)
unfolding put_created
lookup-put_created [] objects id = refl
lookup-put_created (o ∷ created) objects id =
    lookup-put_created created (insert objects o.id o) id ∙ later (last_created created id)
  where
    later :
        (last : Option Object)
        → or_else last (lookup (insert objects o.id o) id)
          ≡ or_else (or_else last (if bytes_eq o.id id then some o else none)) (lookup objects id)
    later (some x) = refl
    later none = elim (Bool-cases (bytes_eq o.id id)) [
      | inl here ↦ rw here (
          ap (lookup (insert objects o.id o)) (sym ((bytes_eq_iff o.id id).0 here))
          ∙ lookup-insert_self objects o.id o)
      | inr away ↦
          rw away
            (lookup-insert_ne objects o.id id o (λ e. cc (sym away ∙ (bytes_eq_iff o.id id).1 e)))
    ]

pub lookup-remove_consumed :
    (consumed : List ObjectId) (objects : Objects) (id : ObjectId)
    → lookup (remove_consumed consumed objects) id
      ≡ (if seen_in id consumed then none else lookup objects id)
unfolding remove_consumed seen_in
lookup-remove_consumed [] objects id = refl
lookup-remove_consumed (x ∷ consumed) objects id =
    lookup-remove_consumed consumed (erase objects x) id ∙ elim (Bool-cases (bytes_eq x id)) [
      | inl here ↦ rw here (
          ap (λ o. if seen_in id consumed then none else o)
            (ap (lookup (erase objects x)) (sym ((bytes_eq_iff x id).0 here))
              ∙ lookup-erase_self objects x)
          ∙ if_both (seen_in id consumed) _)
      | inr away ↦ rw away (
          ap (λ o. if seen_in id consumed then none else o)
            (lookup-erase_ne objects x id (λ e. cc (sym away ∙ (bytes_eq_iff x id).1 e))))
    ]

pub lookup-consumed_updates :
    (consumed : List ObjectId) (updates : Updates) (id : ObjectId)
    → lookup (consumed_updates consumed updates) id
      ≡ (if seen_in id consumed then some none else lookup updates id)
unfolding consumed_updates seen_in
lookup-consumed_updates [] updates id = refl
lookup-consumed_updates (x ∷ consumed) updates id =
    lookup-consumed_updates consumed (insert updates x none) id
    ∙ elim (Bool-cases (bytes_eq x id)) [
      | inl here ↦ rw here (
          ap (λ o. if seen_in id consumed then some none else o)
            (ap (lookup (insert updates x none)) (sym ((bytes_eq_iff x id).0 here))
              ∙ lookup-insert_self updates x none)
          ∙ if_both (seen_in id consumed) _)
      | inr away ↦ rw away (
          ap (λ o. if seen_in id consumed then some none else o)
            (lookup-insert_ne updates x id none (λ e. cc (sym away ∙ (bytes_eq_iff x id).1 e))))
    ]

module _ (sha256 : Bytes → Bytes) where
  abbrev pub new_value : Option Object → Option (Option Bytes)
  new_value none = none
  new_value (some o) = some (some (object_hash sha256 o))

  pub lookup-created_updates :
      (created : List Object) (updates : Updates) (id : ObjectId)
      → lookup (created_updates sha256 created updates) id
        ≡ or_else (new_value (last_created created id)) (lookup updates id)
  unfolding created_updates
  lookup-created_updates [] updates id = refl
  lookup-created_updates (o ∷ created) updates id =
      lookup-created_updates created (insert updates o.id (some (object_hash sha256 o))) id
      ∙ later (last_created created id)
    where
      later :
          (last : Option Object)
          → or_else (new_value last) (lookup (insert updates o.id (some (object_hash sha256 o))) id)
            ≡ or_else
                (new_value (or_else last (if bytes_eq o.id id then some o else none)))
                (lookup updates id)
      later (some x) = refl
      later none = elim (Bool-cases (bytes_eq o.id id)) [
        | inl here ↦ rw here (
            ap (lookup (insert updates o.id _)) (sym ((bytes_eq_iff o.id id).0 here))
            ∙ lookup-insert_self updates o.id _)
        | inr away ↦
            rw away
              (lookup-insert_ne updates o.id id _ (λ e. cc (sym away ∙ (bytes_eq_iff o.id id).1 e)))
      ]

lookup-erase-none :
    (updates : Updates) (id key : ObjectId)
    → lookup updates key ≡ none
    → lookup (erase updates id) key ≡ none
lookup-erase-none updates id key h = elim (key-cases id key) [
  | inl same ↦ ap (lookup (erase updates id)) (sym same) ∙ lookup-erase_self updates id
  | inr other ↦ lookup-erase_ne updates id key other ∙ h
]

-- The updates are a listing of a map.
erase-Listing : (updates : Updates) (id : ObjectId) → Listing updates → Listing (erase updates id)
erase-Listing [] id h = tt
erase-Listing (entry ∷ updates) id h = elim (key-cases entry.0 id) [
  | inl same ↦ subst Listing (sym (erase-here entry updates id same)) (erase-Listing updates id h.1)
  | inr other ↦
      subst Listing (sym (erase-away entry updates id other))
        (lookup-erase-none updates id entry.0 h.0, erase-Listing updates id h.1)
]

insert-Listing :
    (updates : Updates) (id : ObjectId) (value : Option Bytes)
    → Listing updates
    → Listing (insert updates id value)
insert-Listing updates id value h = (lookup-erase_self updates id, erase-Listing updates id h)

pub consumed_updates-Listing :
    (consumed : List ObjectId) (updates : Updates)
    → Listing updates
    → Listing (consumed_updates consumed updates)
unfolding consumed_updates
consumed_updates-Listing [] updates h = h
consumed_updates-Listing (id ∷ consumed) updates h =
    consumed_updates-Listing consumed (insert updates id none) (insert-Listing updates id none h)

pub created_updates-Listing :
    (sha256 : Bytes → Bytes) (created : List Object) (updates : Updates)
    → Listing updates
    → Listing (created_updates sha256 created updates)
unfolding created_updates
created_updates-Listing sha256 [] updates h = h
created_updates-Listing sha256 (o ∷ created) updates h =
    created_updates-Listing sha256 created (insert updates o.id (some (object_hash sha256 o)))
      (insert-Listing updates o.id (some (object_hash sha256 o)) h)

-- The keys are identifiers of 32 bytes.
abbrev pub Keys : Updates → Type 0
Keys updates = All (λ entry. IsHash entry.0) updates

erase-Keys : (updates : Updates) (id : ObjectId) → Keys updates → Keys (erase updates id)
erase-Keys [] id h = tt
erase-Keys (entry ∷ updates) id h = elim (key-cases entry.0 id) [
  | inl same ↦ subst Keys (sym (erase-here entry updates id same)) (erase-Keys updates id h.1)
  | inr other ↦
      subst Keys (sym (erase-away entry updates id other)) (h.0, erase-Keys updates id h.1)
]

pub consumed_updates-Keys :
    (consumed : List ObjectId) (updates : Updates)
    → All IsHash consumed
    → Keys updates
    → Keys (consumed_updates consumed updates)
unfolding consumed_updates
consumed_updates-Keys [] updates hc h = h
consumed_updates-Keys (id ∷ consumed) updates hc h =
    consumed_updates-Keys consumed (insert updates id none) hc.1 (hc.0, erase-Keys updates id h)

pub created_updates-Keys :
    (sha256 : Bytes → Bytes) (created : List Object) (updates : Updates)
    → All (λ (o : Object). IsHash o.id) created
    → Keys updates
    → Keys (created_updates sha256 created updates)
unfolding created_updates
created_updates-Keys sha256 [] updates hc h = h
created_updates-Keys sha256 (o ∷ created) updates hc h =
    created_updates-Keys sha256 created (insert updates o.id (some (object_hash sha256 o))) hc.1
      (hc.0, erase-Keys updates o.id h)
