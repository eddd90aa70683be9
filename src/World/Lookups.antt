-- ===== src/World/Lookups.antt =====
-- `GetObject` after a call of `Apply`.
use zephyr_chain.Base.{
  ◌≡◌, refl, sym, ◌∙◌, ap, Bool, true, false, ◌||◌, none, some, List, [], ◌∷◌, if◌then◌else◌, Bytes,
  bytes_eq, bytes_eq_iff, Keyed_Bytes, lookup, or_else, inl, inr, Bool-cases, All, ok, err, Result,
  Error,
}
use zephyr_chain.Types.{ObjectId}
use zephyr_chain.Object.{Object}
use zephyr_chain.World.{Objects, MemoryStore, get_object, apply, seen_in, check_created}
use zephyr_chain.World.Changes.{last_created, seen_in-cons}
use zephyr_chain.World.Commits.{apply-cases, check_created-cons, lookup-commit_objects}

or_right : (a b : Bool) → b ≡ true → (a || b) ≡ true
or_right true b h = refl
or_right false b h = h

All-map :
    {A : Type 0} {P Q : A → Type 0} (xs : List A) → ((a : A) → P a → Q a) → All P xs → All Q xs
All-map [] f h = tt
All-map (x ∷ xs) f h = (f x h.0, All-map xs f h.1)

last_created-seen :
    (objects : Objects) (consumed seen : List ObjectId) (created : List Object) (id : ObjectId)
    → check_created objects consumed seen created ≡ ok tt
    → seen_in id seen ≡ true
    → last_created created id ≡ none
last_created-seen objects consumed seen [] id h s = refl
last_created-seen objects consumed seen (o ∷ created) id h s =
    let (valid, fresh, free, rest) = (check_created-cons objects consumed seen o created).0 h in
    rw
      (last_created-seen objects consumed (o.id ∷ seen) created id rest
        (seen_in-cons o.id id seen ∙ or_right _ _ s))
      (elim (Bool-cases (bytes_eq o.id id)) [
        | inl here ↦ absurd (
            cc (
              sym fresh
              ∙ ap (λ (i : ObjectId). seen_in i seen) ((bytes_eq_iff o.id id).0 here)
              ∙ s))
        | inr away ↦ rw away refl
      ])

-- Every object that passed the checks is found under its identifier.
last_created_self :
    (objects : Objects) (consumed seen : List ObjectId) (created : List Object)
    → check_created objects consumed seen created ≡ ok tt
    → All (λ (o : Object). last_created created o.id ≡ some o) created
last_created_self objects consumed seen [] h = tt
last_created_self objects consumed seen (o ∷ created) h =
    let (valid, fresh, free, rest) = (check_created-cons objects consumed seen o created).0 h in
    let self : bytes_eq o.id o.id ≡ true = (bytes_eq_iff o.id o.id).1 refl in
    let clear =
      last_created-seen objects consumed (o.id ∷ seen) created o.id rest
        (seen_in-cons o.id o.id seen ∙ ap (λ b. b || seen_in o.id seen) self) in
    (
      rw (clear, self) refl,
      All-map created (λ x e. ap (λ l. or_else l (if bytes_eq o.id x.id then some o else none)) e)
          (last_created_self objects consumed (o.id ∷ seen) created rest),
    )

failed_ne : (r : Result (Unit {0})) (e : Error) → r ≡ err e → r ≡ ok tt → ⊥
failed_ne r e h k = cc

-- After an `Apply` without an error, every created object is found under its identifier, and under any
-- identifier what is found is the created object of that identifier, or else nothing if it was consumed, or
-- else what was found before.
pub get_object-apply :
    (sha256 : Bytes → Bytes) (consumed : List ObjectId) (created : List Object) (m : MemoryStore)
    (id : ObjectId)
    → (apply sha256 consumed created m).1 ≡ ok tt
    → All (λ (o : Object). get_object (apply sha256 consumed created m).0 o.id ≡ some o) created
      × (get_object (apply sha256 consumed created m).0 id
          ≡ or_else
              (last_created created id)
              (if seen_in id consumed then none else get_object m id))
get_object-apply sha256 consumed created m id passed =
    elim (apply-cases sha256 consumed created m) [
      | inl (first, second, done) ↦ (
        All-map created
            (λ o e.
              ap (λ r. get_object r.0 o.id) done
              ∙ lookup-commit_objects sha256 consumed created m o.id
              ∙ ap (λ l. or_else l (if seen_in o.id consumed then none else lookup m.objects o.id))
                  e)
            (last_created_self m.objects consumed [] created second),
        ap (λ r. get_object r.0 id) done ∙ lookup-commit_objects sha256 consumed created m id,
      )
      | inr (e, failed, why) ↦ absurd (failed_ne _ e (ap (λ r. r.1) failed) passed)
    ]

-- An `Apply` with an error leaves the store as it was.
pub apply-error :
    (sha256 : Bytes → Bytes) (consumed : List ObjectId) (created : List Object) (m : MemoryStore)
    (e : Error)
    → (apply sha256 consumed created m).1 ≡ err e
    → (apply sha256 consumed created m).0 ≡ m
apply-error sha256 consumed created m e h = elim (apply-cases sha256 consumed created m) [
  | inl (first, second, done) ↦ absurd (failed_ne _ e h (ap (λ r. r.1) done))
  | inr (e', failed, why) ↦ ap (λ r. r.0) failed
]
