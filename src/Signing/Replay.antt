-- ===== src/Signing/Replay.antt =====
-- Reading the journal back, `replay`: how the loop goes through a journal that was extended.
use zephyr_chain.Base.{
  ℕ, zero, suc, ◌+◌, ◌≤◌, ◌<◌, ◌≡◌, refl, sym, ◌∙◌, ap, false, ltb, ◌==◌, [], ◌∷◌, ◌++◌, append-nil,
  inl, inr, ◌⊎◌, ◌↔◌, arith, take-append_le, drop-append_le, Bytes, length, take, drop,
  length-append, take-append, drop-append, length-drop, Bool-cases, ok, >>=-eq-ok,
}
use zephyr_chain.Codec.Reader.{run}
use zephyr_chain.Signing.{Memory, Intent, record_bytes, remember, read_record, replay_records}
use zephyr_chain.Signing.Record.{Fresh, IsIntent, length-record_bytes, read_record-record_bytes}

not_empty : (n : ℕ) → 112 ≤ n → (n == 0) ≡ false
not_empty n h = ground arith

not_short : (n : ℕ) → 112 ≤ n → ltb n 112 ≡ false
not_short n h = ground arith

module _ (sha256 : Bytes → Bytes) (sized : (x : Bytes) → length (sha256 x) ≡ 32) where
  -- The first record of a journal is read, and then the others.
  FirstRead : Memory → Bytes → Memory → Type 0
  FirstRead m raw a = run (read_record sha256 m (take 112 raw)) (take 112 raw) ≡ ok a

  replay_records-end : (n : ℕ) (m : Memory) → replay_records sha256 (suc n) m [] ≡ ok m
  unfolding replay_records
  replay_records-end n m = refl

  replay_records-next :
      (n : ℕ) (m a : Memory) (raw : Bytes)
      → 112 ≤ length raw
      → FirstRead m raw a
      → replay_records sha256 (suc n) m raw ≡ replay_records sha256 n a (drop 112 raw)
  unfolding replay_records FirstRead
  replay_records-next n m a raw long e =
      rw (not_empty (length raw) long, not_short (length raw) long, e) refl

  replay_records-inv :
      (n : ℕ) (m m' : Memory) (raw : Bytes)
      → replay_records sha256 (suc n) m raw ≡ ok m'
      → ((raw ≡ []) × (m ≡ m'))
        ⊎ ((112 ≤ length raw)
            × ((a : Memory) × FirstRead m raw a
                × (replay_records sha256 n a (drop 112 raw) ≡ ok m')))
  unfolding replay_records FirstRead
  replay_records-inv n m m' [] h = inl (refl, cc h)
  replay_records-inv n m m' (x ∷ xs) h = elim (Bool-cases (ltb (length (x ∷ xs)) 112)) [
    | inl short ↦ absurd (cc (rw (nonempty, short) at h))
    | inr long ↦
        let unrolled = rw (nonempty, long) at h in
        inr (
          ground arith,
          >>=-eq-ok (run (read_record sha256 m (take 112 (x ∷ xs))) (take 112 (x ∷ xs)))
              (λ a. replay_records sha256 n a (drop 112 (x ∷ xs))) unrolled,
        )
  ]
    where
      nonempty : (length (x ∷ xs) == 0) ≡ false
      nonempty = ground arith

  -- More fuel changes nothing.
  pub replay_records-more :
      (n k : ℕ) (m m' : Memory) (raw : Bytes)
      → n ≤ k
      → replay_records sha256 n m raw ≡ ok m'
      → replay_records sha256 k m raw ≡ ok m'
  unfolding replay_records
  replay_records-more zero k m m' raw le h = absurd (cc h)
  replay_records-more (suc n) zero m m' raw le h = absurd (omega arith)
  replay_records-more (suc n) (suc k) m m' raw le h = elim (replay_records-inv n m m' raw h) [
    | inl (nil, same) ↦ rw (nil, same) (replay_records-end k m')
    | inr (long, (a, e, rest)) ↦
        replay_records-next k m a raw long e
        ∙ replay_records-more n k a m' (drop 112 raw) (omega arith) rest
  ]

  FirstRead-append :
      (m a : Memory) (xs ys : Bytes) → 112 ≤ length xs → FirstRead m xs a ↔ FirstRead m (xs ++ ys) a
  unfolding FirstRead
  FirstRead-append m a xs ys long =
      let same = take-append_le 112 xs ys long in (λ h. rw same h, λ h. rw same at h)

  -- A journal that goes on is replayed from where its first part ends.
  pub replay_records-append :
      (n k l : ℕ) (m m' m'' : Memory) (xs ys : Bytes)
      → n + k ≤ l
      → replay_records sha256 n m xs ≡ ok m'
      → replay_records sha256 k m' ys ≡ ok m''
      → replay_records sha256 l m (xs ++ ys) ≡ ok m''
  unfolding replay_records
  replay_records-append zero k l m m' m'' xs ys le h h' = absurd (cc h)
  replay_records-append (suc n) k zero m m' m'' xs ys le h h' = absurd (omega arith)
  replay_records-append (suc n) k (suc l) m m' m'' xs ys le h h' =
      elim (replay_records-inv n m m' xs h) [
        | inl (nil, same) ↦
            rw (nil, same) (replay_records-more k (suc l) m' m'' ys (omega arith) h')
        | inr (long, (a, e, rest)) ↦
            replay_records-next l m a (xs ++ ys) (omega (arith, length-append xs ys))
              ((FirstRead-append m a xs ys long).0 e)
            ∙ rw (drop-append_le 112 xs ys long)
                (replay_records-append n k l a m' m'' (drop 112 xs) ys (omega arith) rest h')
      ]

  -- And the other way round: what a longer journal replays to, its second part does.
  pub replay_records-split :
      (n k : ℕ) (m m' m'' : Memory) (xs ys : Bytes)
      → replay_records sha256 n m xs ≡ ok m'
      → replay_records sha256 k m (xs ++ ys) ≡ ok m''
      → replay_records sha256 k m' ys ≡ ok m''
  unfolding replay_records
  replay_records-split zero k m m' m'' xs ys h h' = absurd (cc h)
  replay_records-split (suc n) zero m m' m'' xs ys h h' = absurd (cc h')
  replay_records-split (suc n) (suc k) m m' m'' xs ys h h' = elim (replay_records-inv n m m' xs h) [
    | inl (nil, same) ↦ rw (← same) (rw nil at h')
    | inr (long, (a, e, rest)) ↦
        let unrolled =
          sym (
            replay_records-next k m a (xs ++ ys) (omega (arith, length-append xs ys))
              ((FirstRead-append m a xs ys long).0 e))
          ∙ h' in
        replay_records-more k (suc k) m' m'' ys (omega arith) (
          replay_records-split n k a m' m'' (drop 112 xs) ys rest
            (rw (drop-append_le 112 xs ys long) at unrolled))
  ]

  -- Less than a record, but something, is refused.
  pub replay_records-partial :
      (k : ℕ) (m m' : Memory) (raw : Bytes)
      → length raw < 112
      → replay_records sha256 k m raw ≡ ok m'
      → (raw ≡ []) × (m ≡ m')
  unfolding replay_records
  replay_records-partial zero m m' raw short h = absurd (cc h)
  replay_records-partial (suc k) m m' raw short h = elim (replay_records-inv k m m' raw h) [
    | inl same ↦ same
    | inr (long, rest) ↦ absurd (omega (arith, short, long))
  ]

  -- One record, as the guard wrote it.
  pub replay_records-record :
      (m : Memory) (q : Intent)
      → IsIntent q
      → length m.last_record_hash ≡ 32
      → Fresh m q
      → replay_records sha256 2 m (record_bytes sha256 m q) ≡ ok (remember sha256 m q)
  unfolding FirstRead
  replay_records-record m q is linked fresh =
      let size = length-record_bytes sha256 sized m q is linked in
      let whole : take 112 (record_bytes sha256 m q) ≡ record_bytes sha256 m q =
        ap (λ (n : ℕ). take n (record_bytes sha256 m q)) (sym size)
        ∙ (ap (take (length (record_bytes sha256 m q))) (sym (append-nil (record_bytes sha256 m q)))
            ∙ take-append (record_bytes sha256 m q) []) in
      let none : drop 112 (record_bytes sha256 m q) ≡ [] =
        ap (λ (n : ℕ). drop n (record_bytes sha256 m q)) (sym size)
        ∙ (ap (drop (length (record_bytes sha256 m q))) (sym (append-nil (record_bytes sha256 m q)))
            ∙ drop-append (record_bytes sha256 m q) []) in
      replay_records-next 1 m (remember sha256 m q) (record_bytes sha256 m q) (omega (arith, size))
        (ap (λ (w : Bytes). run (read_record sha256 m w) w) whole
          ∙ read_record-record_bytes sha256 sized m q is linked fresh)
      ∙ ap (replay_records sha256 1 (remember sha256 m q)) none
      ∙ replay_records-end 0 (remember sha256 m q)

  -- Fuel for every byte is enough: the result with it is the one that any fuel finds.
  pub replay_records-enough :
      (n l : ℕ) (m m' : Memory) (raw : Bytes)
      → length raw < l
      → replay_records sha256 n m raw ≡ ok m'
      → replay_records sha256 l m raw ≡ ok m'
  unfolding replay_records
  replay_records-enough zero l m m' raw le h = absurd (cc h)
  replay_records-enough (suc n) zero m m' raw le h = absurd (omega arith)
  replay_records-enough (suc n) (suc l) m m' raw le h = elim (replay_records-inv n m m' raw h) [
    | inl (nil, same) ↦ rw (nil, same) (replay_records-end l m')
    | inr (long, (a, e, rest)) ↦
        replay_records-next l m a raw long e
        ∙ replay_records-enough n l a m' (drop 112 raw) (omega (arith, length-drop 112 raw)) rest
  ]
