-- ===== src/World/Admits.antt =====
-- Which calls of `Apply` succeed.
use zephyr_chain.Base.{
  ◌≡◌, ◌↔◌, ◌⊎◌, refl, sym, ◌∙◌, ap, Bool, true, false, not, ◌&&◌, ◌||◌, List, [], ◌∷◌, map, Bytes,
  bytes_eq, bytes_eq_iff, Keyed_Bytes, All, inl, inr, Bool-cases, Result, Error, ok, err, fail_if,
  ◌>>◌, object_not_found,
}
use zephyr_chain.Types.{ObjectId}
use zephyr_chain.Object.{Object}
use zephyr_chain.World.{Objects, MemoryStore, held, seen_in, check_consumed, check_created, apply}
use zephyr_chain.World.Commits.{Valid, check_created-cons, apply-cases}

abbrev pub Member : ObjectId → List ObjectId → Type 0
Member id [] = ⊥
Member id (x ∷ xs) = (x ≡ id) ⊎ Member id xs

-- No identifier twice.
abbrev pub Distinct : List ObjectId → Type 0
Distinct [] = Unit
Distinct (x ∷ xs) = (Member x xs → ⊥) × Distinct xs

-- None of the identifiers is among others.
abbrev Outside : List ObjectId → List ObjectId → Type 0
Outside seen xs = All (λ x. Member x seen → ⊥) xs

seen_in-Member : (id : ObjectId) (xs : List ObjectId) → (seen_in id xs ≡ true) ↔ Member id xs
unfolding seen_in
seen_in-Member id xs = (there id xs, back id xs)
  where
    there : (id : ObjectId) (xs : List ObjectId) → seen_in id xs ≡ true → Member id xs
    there id [] h = absurd cc
    there id (x ∷ xs) h =
        split (bytes_eq x id) (λ e. (bytes_eq_iff x id).0 e) (λ k. there id xs k) h
      where
        split :
            {A B : Type 0} (b : Bool) {c : Bool}
            → (b ≡ true → A)
            → (c ≡ true → B)
            → (b || c) ≡ true
            → A ⊎ B
        split true f g k = inl (f refl)
        split false f g k = inr (g k)

    back : (id : ObjectId) (xs : List ObjectId) → Member id xs → seen_in id xs ≡ true
    back id [] m = absurd m
    back id (x ∷ xs) (inl e) = ap (λ b. b || seen_in id xs) ((bytes_eq_iff x id).1 e)
    back id (x ∷ xs) (inr m) = right (bytes_eq x id) (back id xs m)
      where
        right : (a : Bool) {b : Bool} → b ≡ true → (a || b) ≡ true
        right true k = refl
        right false k = k

unseen : (id : ObjectId) (seen : List ObjectId) → (seen_in id seen ≡ false) ↔ (Member id seen → ⊥)
unseen id seen = (
  λ e m. cc (sym e ∙ (seen_in-Member id seen).1 m),
  λ no'. elim (Bool-cases (seen_in id seen)) [
    | inl e ↦ absurd (no' ((seen_in-Member id seen).0 e))
    | inr e ↦ e
  ],
)

-- Off a longer list is off both parts, and the other way round.
Outside-cons :
    (x : ObjectId) (seen xs : List ObjectId)
    → Outside (x ∷ seen) xs ↔ ((Member x xs → ⊥) × Outside seen xs)
Outside-cons x seen xs = (there xs, back xs)
  where
    there : (xs : List ObjectId) → Outside (x ∷ seen) xs → (Member x xs → ⊥) × Outside seen xs
    there [] h = (λ m. m, tt)
    there (y ∷ xs) h =
        let rest = there xs h.1 in
        (λ m. elim m [ inl e ↦ h.0 (inl (sym e)) | inr k ↦ rest.0 k ], (λ m. h.0 (inr m), rest.1))

    back : (xs : List ObjectId) → (Member x xs → ⊥) × Outside seen xs → Outside (x ∷ seen) xs
    back [] h = tt
    back (y ∷ xs) h = (
      λ m. elim m [ inl e ↦ h.0 (inl (sym e)) | inr k ↦ h.1.0 k ],
      back xs (λ m. h.0 (inr m), h.1.1),
    )

check_consumed-cons :
    (objects : Objects) (seen : List ObjectId) (id : ObjectId) (consumed : List ObjectId)
    → (check_consumed objects seen (id ∷ consumed) ≡ ok tt) ↔ (
        (seen_in id seen ≡ false)
        × (held objects id ≡ true)
        × (check_consumed objects (id ∷ seen) consumed ≡ ok tt))
unfolding check_consumed
check_consumed-cons objects seen id consumed = (
  parts (seen_in id seen) (held objects id) (check_consumed objects (id ∷ seen) consumed),
  λ h. rw (h.0, h.1, h.2) refl,
)
  where
    parts :
        (a b : Bool) (r : Result (Unit {0}))
        → fail_if a object_not_found >> (fail_if (not b) object_not_found >> r) ≡ ok tt
        → (a ≡ false) × (b ≡ true) × (r ≡ ok tt)
    parts false true r h = (refl, refl, h)
    parts false false r h = absurd cc
    parts true b r h = absurd cc

checked_none : (objects : Objects) (seen : List ObjectId) → check_consumed objects seen [] ≡ ok tt
unfolding check_consumed
checked_none objects seen = refl

created_none :
    (objects : Objects) (consumed seen : List ObjectId)
    → check_created objects consumed seen [] ≡ ok tt
unfolding check_created
created_none objects consumed seen = refl

check_consumed_iff :
    (objects : Objects) (seen consumed : List ObjectId)
    → (check_consumed objects seen consumed ≡ ok tt)
      ↔ (Outside seen consumed × Distinct consumed × All (λ id. held objects id ≡ true) consumed)
check_consumed_iff objects seen consumed = (there seen consumed, back seen consumed)
  where
    there :
        (seen consumed : List ObjectId)
        → check_consumed objects seen consumed ≡ ok tt
        → Outside seen consumed × Distinct consumed × All (λ id. held objects id ≡ true) consumed
    there seen [] h = (tt, tt, tt)
    there seen (id ∷ consumed) h =
        let (fresh, here, rest) = (check_consumed-cons objects seen id consumed).0 h in
        let (outside, distinct, all_held) = there (id ∷ seen) consumed rest in
        let (apart, off) = (Outside-cons id seen consumed).0 outside in
        (((unseen id seen).0 fresh, off), (apart, distinct), (here, all_held))

    back :
        (seen consumed : List ObjectId)
        → Outside seen consumed × Distinct consumed × All (λ id. held objects id ≡ true) consumed
        → check_consumed objects seen consumed ≡ ok tt
    back seen [] h = checked_none objects seen
    back seen (id ∷ consumed) h = (check_consumed-cons objects seen id consumed).1 (
      (unseen id seen).1 h.0.0,
      h.2.0,
      back (id ∷ seen) consumed ((Outside-cons id seen consumed).1 (h.1.0, h.0.1), h.1.1, h.2.1),
    )

-- What a created object needs of the store.
abbrev pub Free : Objects → List ObjectId → Object → Type 0
Free objects consumed o = (held objects o.id ≡ false) ⊎ Member o.id consumed

abbrev pub ids : List Object → List ObjectId
ids created = map (λ (o : Object). o.id) created

Free-iff :
    (objects : Objects) (consumed : List ObjectId) (o : Object)
    → ((held objects o.id && not (seen_in o.id consumed)) ≡ false) ↔ Free objects consumed o
Free-iff objects consumed o = (
  λ e.
      split (held objects o.id) (seen_in o.id consumed) (λ k. (seen_in-Member o.id consumed).0 k) e,
  λ f. elim f [
    | inl absent ↦ rw absent refl
    | inr member ↦ rw ((seen_in-Member o.id consumed).1 member) (second (held objects o.id))
  ],
)
  where
    split : {A : Type 0} (b c : Bool) → (c ≡ true → A) → (b && not c) ≡ false → (b ≡ false) ⊎ A
    split false c f e = inl refl
    split true true f e = inr (f refl)
    split true false f e = absurd cc

    second : (b : Bool) → (b && false) ≡ false
    second true = refl
    second false = refl

check_created_iff :
    (objects : Objects) (consumed seen : List ObjectId) (created : List Object)
    → (check_created objects consumed seen created ≡ ok tt) ↔ (
        Outside seen (ids created)
        × Distinct (ids created)
        × Valid created
        × All (Free objects consumed) created)
check_created_iff objects consumed seen created = (there seen created, back seen created)
  where
    there :
        (seen : List ObjectId) (created : List Object)
        → check_created objects consumed seen created ≡ ok tt
        → Outside seen (ids created)
          × Distinct (ids created)
          × Valid created
          × All (Free objects consumed) created
    there seen [] h = (tt, tt, tt, tt)
    there seen (o ∷ created) h =
        let (valid, fresh, free, rest) = (check_created-cons objects consumed seen o created).0 h in
        let (outside, distinct, all_valid, all_free) = there (o.id ∷ seen) created rest in
        let (apart, off) = (Outside-cons o.id seen (ids created)).0 outside in
        (
          ((unseen o.id seen).0 fresh, off),
          (apart, distinct),
          (valid, all_valid),
          ((Free-iff objects consumed o).0 free, all_free),
        )

    back :
        (seen : List ObjectId) (created : List Object)
        → Outside seen (ids created)
          × Distinct (ids created)
          × Valid created
          × All (Free objects consumed) created
        → check_created objects consumed seen created ≡ ok tt
    back seen [] h = created_none objects consumed seen
    back seen (o ∷ created) h = (check_created-cons objects consumed seen o created).1 (
      h.2.0,
      (unseen o.id seen).1 h.0.0,
      (Free-iff objects consumed o).1 h.3.0,
      back (o.id ∷ seen) created
          ((Outside-cons o.id seen (ids created)).1 (h.1.0, h.0.1), h.1.1, h.2.1, h.3.1),
    )

-- A transition that a store admits.
pub record Admissible (objects : Objects) (consumed : List ObjectId) (created : List Object)
    : Type 0 where
  pub consumed_once : Distinct consumed
  pub consumed_held : All (λ id. held objects id ≡ true) consumed
  pub created_once : Distinct (ids created)
  pub created_valid : Valid created
  pub created_free : All (Free objects consumed) created

Outside-nothing : (xs : List ObjectId) → Outside [] xs
Outside-nothing [] = tt
Outside-nothing (x ∷ xs) = (λ m. m, Outside-nothing xs)

passes :
    (sha256 : Bytes → Bytes) (consumed : List ObjectId) (created : List Object) (m : MemoryStore)
    → ((apply sha256 consumed created m).1 ≡ ok tt) ↔ (
        (check_consumed m.objects [] consumed ≡ ok tt)
        × (check_created m.objects consumed [] created ≡ ok tt))
passes sha256 consumed created m = elim (apply-cases sha256 consumed created m) [
  | inl (first, second, done) ↦ (λ _. (first, second), λ _. ap (λ r. r.1) done)
  | inr (e, failed, why) ↦ (
    λ passed. absurd (clash _ e (ap (λ r. r.1) failed) passed),
    λ both. absurd (clash _ e why (chain _ _ both.0 both.1)),
  )
]
  where
    clash : (r : Result (Unit {0})) (e : Error) → r ≡ err e → r ≡ ok tt → ⊥
    clash r e h k = cc

    chain : (a b : Result (Unit {0})) → a ≡ ok tt → b ≡ ok tt → a >> b ≡ ok tt
    chain a b h k = rw (h, k) refl

-- `Apply` returns no error if and only if the consumed identifiers differ and are all in the store, and the
-- created objects are valid, have different identifiers, and stand under identifiers that the store does not
-- have or that are consumed.
pub apply-eq-ok_iff :
    (sha256 : Bytes → Bytes) (consumed : List ObjectId) (created : List Object) (m : MemoryStore)
    → ((apply sha256 consumed created m).1 ≡ ok tt) ↔ Admissible m.objects consumed created
apply-eq-ok_iff sha256 consumed created m = (
  λ passed.
      let (first, second) = (passes sha256 consumed created m).0 passed in
      let (_, once, all_held) = (check_consumed_iff m.objects [] consumed).0 first in
      let (_, created_once, valid, free) =
        (check_created_iff m.objects consumed [] created).0 second in
      record {
        consumed_once = once;
        consumed_held = all_held;
        created_once = created_once;
        created_valid = valid;
        created_free = free;
      },
  λ h. (passes sha256 consumed created m).1 (
    (check_consumed_iff m.objects [] consumed).1
        (Outside-nothing consumed, h.consumed_once, h.consumed_held),
    (check_created_iff m.objects consumed [] created).1
        (Outside-nothing (ids created), h.created_once, h.created_valid, h.created_free),
  ),
)
