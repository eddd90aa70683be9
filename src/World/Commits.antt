-- ===== src/World/Commits.antt =====
-- What `Apply` leaves: the tree has the hash of every object of the store, and no other value.
use zephyr_chain.Base.{
  ◌≡◌, refl, sym, ◌∙◌, ap, Bool, true, false, Option, none, some, List, [], ◌∷◌, if◌then◌else◌,
  Bytes, bytes_eq, bytes_eq_iff, Keyed_Bytes, lookup, or_else, inl, inr, Bool-cases, All, Result,
  Error, ok, err, ◌>>◌, Result-cases, >>=-eq-ok, ◌⊎◌, ◌↔◌, ◌&&◌, not, object_exists, fail_if,
}
use zephyr_chain.Types.{ObjectId, IsHash}
use zephyr_chain.Object.{Object, validate, object_hash}
use zephyr_chain.State.Order.{override, Sound, lookup-apply, apply-Sound}
use zephyr_chain.World.{
  Objects, MemoryStore, held, seen_in, check_consumed, check_created, remove_consumed,
  consumed_updates, created_updates, commit, apply,
}
use zephyr_chain.World.Changes.{
  last_created, lookup-put_created, lookup-remove_consumed, lookup-consumed_updates,
  lookup-created_updates, new_value, consumed_updates-Listing, created_updates-Listing,
  consumed_updates-Keys, created_updates-Keys,
}

-- Every object stands under its identifier, and is valid.
abbrev pub Kept : Objects → Type 0
Kept objects =
    (id : ObjectId) (o : Object) → lookup objects id ≡ some o → (o.id ≡ id) × (validate o ≡ ok tt)

abbrev pub Valid : List Object → Type 0
Valid created = All (λ (o : Object). validate o ≡ ok tt) created

some_injective : {A : Type 0} {x y : A} → some x ≡ some y → x ≡ y
some_injective e = cc

none-some : {A : Type 0} {y : A} → none ≡ some y → ⊥
none-some e = cc

pub last_created-Valid :
    (created : List Object) (id : ObjectId) (o : Object)
    → Valid created
    → last_created created id ≡ some o
    → (o.id ≡ id) × (validate o ≡ ok tt)
last_created-Valid [] id o h e = absurd cc
last_created-Valid (x ∷ created) id o h e =
    later (last_created created id) (λ y f. last_created-Valid created id y h.1 f) refl e
  where
    later :
        (last : Option Object)
        → ((y : Object) → last_created created id ≡ some y → (y.id ≡ id) × (validate y ≡ ok tt))
        → last_created created id ≡ last
        → or_else last (if bytes_eq x.id id then some x else none) ≡ some o
        → (o.id ≡ id) × (validate o ≡ ok tt)
    later (some y) before f g = before o (f ∙ g)
    later none before f g = elim (Bool-cases (bytes_eq x.id id)) [
      | inl here ↦
          let mine : x ≡ o = some_injective (rw here at g) in
          (
            ap (λ (o : Object). o.id) (sym mine) ∙ (bytes_eq_iff x.id id).0 here,
            ap validate (sym mine) ∙ h.0,
          )
      | inr away ↦ absurd (none-some (rw away at g))
    ]

-- What the checks of one created object come to.
pub check_created-cons :
    (objects : Objects) (consumed seen : List ObjectId) (o : Object) (created : List Object)
    → (check_created objects consumed seen (o ∷ created) ≡ ok tt) ↔ (
        (validate o ≡ ok tt)
        × (seen_in o.id seen ≡ false)
        × ((held objects o.id && not (seen_in o.id consumed)) ≡ false)
        × (check_created objects consumed (o.id ∷ seen) created ≡ ok tt))
unfolding check_created
check_created-cons objects consumed seen o created = (
  parts (validate o) (seen_in o.id seen) (held objects o.id && not (seen_in o.id consumed))
      (check_created objects consumed (o.id ∷ seen) created),
  whole (validate o) (seen_in o.id seen) (held objects o.id && not (seen_in o.id consumed))
      (check_created objects consumed (o.id ∷ seen) created),
)
  where
    parts :
        (v : Result (Unit {0})) (a b : Bool) (r : Result (Unit {0}))
        → v >> (fail_if a object_exists >> (fail_if b object_exists >> r)) ≡ ok tt
        → (v ≡ ok tt) × (a ≡ false) × (b ≡ false) × (r ≡ ok tt)
    parts (ok tt) false false r h = (refl, refl, refl, h)
    parts (ok tt) false true r h = absurd cc
    parts (ok tt) true b r h = absurd cc
    parts (err e) a b r h = absurd cc

    whole :
        (v : Result (Unit {0})) (a b : Bool) (r : Result (Unit {0}))
        → (v ≡ ok tt) × (a ≡ false) × (b ≡ false) × (r ≡ ok tt)
        → v >> (fail_if a object_exists >> (fail_if b object_exists >> r)) ≡ ok tt
    whole v a b r h = rw (h.0, h.1, h.2, h.3) refl

pub check_created-Valid :
    (objects : Objects) (consumed seen : List ObjectId) (created : List Object)
    → check_created objects consumed seen created ≡ ok tt
    → Valid created
check_created-Valid objects consumed seen [] h = tt
check_created-Valid objects consumed seen (o ∷ created) h =
    let (valid, fresh, free, rest) = (check_created-cons objects consumed seen o created).0 h in
    (valid, check_created-Valid objects consumed (o.id ∷ seen) created rest)

module _ (sha256 : Bytes → Bytes) where
  abbrev pub hash_of : Option Object → Option Bytes
  hash_of none = none
  hash_of (some o) = some (object_hash sha256 o)

  pub lookup-commit_objects :
      (consumed : List ObjectId) (created : List Object) (m : MemoryStore) (id : ObjectId)
      → lookup (commit sha256 consumed created m).objects id
        ≡ or_else
            (last_created created id)
            (if seen_in id consumed then none else lookup m.objects id)
  unfolding commit
  lookup-commit_objects consumed created m id =
      lookup-put_created created (remove_consumed consumed m.objects) id
      ∙ ap (or_else (last_created created id)) (lookup-remove_consumed consumed m.objects id)

  lookup-commit_values :
      (consumed : List ObjectId) (created : List Object) (m : MemoryStore) (id : ObjectId)
      → lookup (commit sha256 consumed created m).tree.values id
        ≡ override
            (or_else
              (new_value sha256 (last_created created id))
              (if seen_in id consumed then some none else none))
            (lookup m.tree.values id)
  unfolding commit
  lookup-commit_values consumed created m id =
      lookup-apply sha256 (created_updates sha256 created (consumed_updates consumed [])) m.tree id
        (created_updates-Listing sha256 created _ (consumed_updates-Listing consumed [] tt))
      ∙ ap (λ o. override o (lookup m.tree.values id))
          (lookup-created_updates sha256 created (consumed_updates consumed []) id
            ∙ ap (or_else (new_value sha256 (last_created created id)))
                (lookup-consumed_updates consumed [] id))

  -- The tree and the map of objects say the same.
  pub record Consistent (m : MemoryStore) : Type 0 where
    pub sound : Sound sha256 m.tree
    pub committed : (id : ObjectId) → lookup m.tree.values id ≡ hash_of (lookup m.objects id)
    pub kept : Kept m.objects

  commit-Sound :
      (consumed : List ObjectId) (created : List Object) (m : MemoryStore)
      → All IsHash consumed
      → All (λ (o : Object). IsHash o.id) created
      → Sound sha256 m.tree
      → Sound sha256 (commit sha256 consumed created m).tree
  unfolding commit
  commit-Sound consumed created m hc hd sound =
      apply-Sound sha256 (created_updates sha256 created (consumed_updates consumed [])) m.tree
        (created_updates-Keys sha256 created _ hd (consumed_updates-Keys consumed [] hc tt)) sound

  commit-Consistent :
      (consumed : List ObjectId) (created : List Object) (m : MemoryStore)
      → Valid created
      → All IsHash consumed
      → All (λ (o : Object). IsHash o.id) created
      → Consistent m
      → Consistent (commit sha256 consumed created m)
  commit-Consistent consumed created m valid hc hd old = record {
    sound = commit-Sound consumed created m hc hd old.sound;
    committed = λ id.
        lookup-commit_values consumed created m id
        ∙ same (last_created created id) (seen_in id consumed) _ _ (old.committed id)
        ∙ ap hash_of (sym (lookup-commit_objects consumed created m id));
    kept = λ id o e.
        keeps id o (last_created created id) refl (seen_in id consumed)
          (sym (lookup-commit_objects consumed created m id) ∙ e);
  }
    where
      same :
          (last : Option Object) (seen : Bool) (value : Option Bytes) (o : Option Object)
          → value ≡ hash_of o
          → override (or_else (new_value sha256 last) (if seen then some none else none)) value
            ≡ hash_of (or_else last (if seen then none else o))
      same (some x) seen value o h = refl
      same none true value o h = refl
      same none false value o h = h

      keeps :
          (id : ObjectId) (o : Object) (last : Option Object)
          → last_created created id ≡ last
          → (seen : Bool) → or_else last (if seen then none else lookup m.objects id) ≡ some o
          → (o.id ≡ id) × (validate o ≡ ok tt)
      keeps id o (some x) f seen e = last_created-Valid created id o valid (f ∙ e)
      keeps id o none f true e = absurd cc
      keeps id o none f false e = old.kept id o e

  -- The store after `Apply`: the old one with an error, or the new one when the checks passed.
  pub apply-cases :
      (consumed : List ObjectId) (created : List Object) (m : MemoryStore)
      → ((check_consumed m.objects [] consumed ≡ ok tt)
          × (check_created m.objects consumed [] created ≡ ok tt)
          × (apply sha256 consumed created m ≡ (commit sha256 consumed created m, ok tt)))
        ⊎ ((e : Error) × (apply sha256 consumed created m ≡ (m, err e))
            × (check_consumed m.objects [] consumed >> check_created m.objects consumed [] created
                ≡ err e))
  unfolding apply
  apply-cases consumed created m =
      elim (Result-cases
        (check_consumed m.objects [] consumed >> check_created m.objects consumed [] created)) [
          | inl (u, passed) ↦
              let (v, first, second) = >>=-eq-ok (check_consumed m.objects [] consumed) _ passed in
              inl (first, second, rw (passed, apply) refl)
          | inr (e, failed) ↦ inr (e, rw (failed, apply) refl, failed)
        ]

  pub apply-Consistent :
      (consumed : List ObjectId) (created : List Object) (m : MemoryStore)
      → All IsHash consumed
      → All (λ (o : Object). IsHash o.id) created
      → Consistent m
      → Consistent (apply sha256 consumed created m).0
  apply-Consistent consumed created m hc hd old = elim (apply-cases consumed created m) [
    | inl (first, second, done) ↦ rw done (
        commit-Consistent consumed created m
          (check_created-Valid m.objects consumed [] created second) hc hd old)
    | inr (e, failed, why) ↦ rw failed old
  ]
