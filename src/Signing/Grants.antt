-- ===== src/Signing/Grants.antt =====
-- When `Authorize` of internal/v2/consensus/signing_guard.go returns no error, and what it leaves.
use zephyr_chain.Base.{
  ◌<◌, ◌≡◌, ◌⊎◌, ◌↔◌, refl, sym, ◌∙◌, ap, Bool, true, false, not, ◌&&◌, ◌||◌, ◌==◌, inl, inr, arith,
  Bytes, length, bytes_eq, bytes_eq_iff, Bool-cases, Result, ok,
}
use zephyr_chain.Types.{is_zero32}
use zephyr_chain.Signing.{
  Guard, Memory, Intent, Disk, append_record, authorize, stale, same_position, record_bytes,
}
use zephyr_chain.Signing.Record.{IsIntent, length-record_bytes}
use zephyr_chain.Signing.Journal.{IsSized}
use zephyr_chain.Signing.Steps.{committed_guard}

-- A guard that may sign, and an intent of its network and validator that has a height and a target.
pub record Accepts (g : Guard) (q : Intent) : Type 0 where
  pub open_still : g.closed ≡ false
  pub sound : g.poisoned ≡ false
  pub same_network : g.network ≡ q.network
  pub same_validator : g.validator ≡ q.validator
  pub height_pos : 0 < q.height
  pub target_set : is_zero32 q.target ≡ false

intent_of : {g : Guard} {q : Intent} → Accepts g q → IsSized q → IsIntent q
intent_of a s = record {
  height_fits = s.height_fits;
  height_pos = a.height_pos;
  round_fits = s.round_fits;
  target_fits = s.target_fits;
  target_set = a.target_set;
}

-- The last record has the height, the round and the target of the intent.
abbrev pub Repeats : Memory → Intent → Type 0
Repeats m q =
    (m.has_record ≡ true) × (q.height ≡ m.height) × (q.round ≡ m.round) × (q.target ≡ m.target)

-- There is no record, or the intent has a greater height, or a greater round at the same height.
abbrev pub Later : Memory → Intent → Type 0
Later m q =
    (m.has_record ≡ false) ⊎ ((m.height < q.height) ⊎ ((q.height ≡ m.height) × (m.round < q.round)))

-- The disk took the whole record, and synced it.
abbrev pub Works : Disk → Type 0
Works d = (d.write_ok ≡ true) × (d.written ≡ 112) × (d.sync_ok ≡ true)

guards_fail : Guard → Intent → Bool
guards_fail g q =
    g.closed
    || (g.poisoned
        || (not (bytes_eq g.network q.network)
            || (not (bytes_eq g.validator q.validator) || (q.height == 0 || is_zero32 q.target))))

guards_fail_iff : (g : Guard) (q : Intent) → (guards_fail g q ≡ false) ↔ Accepts g q
unfolding guards_fail
guards_fail_iff g q = (
  λ h. record {
    open_still = ground arith;
    sound = ground arith;
    same_network = ground (arith, bytes_eq_iff g.network q.network);
    same_validator = ground (arith, bytes_eq_iff g.validator q.validator);
    height_pos = ground arith;
    target_set = ground arith;
  },
  λ a. ground (arith, bytes_eq_iff g.network q.network, bytes_eq_iff g.validator q.validator),
)

-- The tests of the last record.
Later-tests :
    (m : Memory) (q : Intent)
    → Later m q
    → ((m.has_record && stale m q.height q.round) ≡ false)
      × ((m.has_record && same_position m q.height q.round) ≡ false)
Later-tests m q (inl none') = (ground arith, ground arith)
Later-tests m q (inr (inl above)) = (ground arith, ground arith)
Later-tests m q (inr (inr (same, after))) = (ground arith, ground arith)

Later-of_tests :
    (m : Memory) (q : Intent)
    → (m.has_record && stale m q.height q.round) ≡ false
    → (m.has_record && same_position m q.height q.round) ≡ false
    → Later m q
Later-of_tests m q current new = elim (Bool-cases m.has_record) [
  | inr none' ↦ inl none'
  | inl some' ↦ elim (Bool-cases (q.height == m.height)) [
    | inl same ↦ inr (inr (ground arith, ground arith))
    | inr other ↦ inr (inl (ground arith))
  ]
]

-- A repeated intent is not stale, and is no later one.
Repeats-tests :
    (m : Memory) (q : Intent)
    → Repeats m q
    → ((m.has_record && stale m q.height q.round) ≡ false)
      × ((m.has_record && same_position m q.height q.round) ≡ true)
      × (not (bytes_eq q.target m.target) ≡ false)
Repeats-tests m q r = (ground arith, ground arith, ground (arith, bytes_eq_iff q.target m.target))

abbrev new_guard_of : Result (Unit {0}) × Guard → Guard
new_guard_of t = t.1

-- What a call without an error leaves of the guard: nothing changed, or one record more.
abbrev pub Leaves : (Bytes → Bytes) → Guard → Intent → Disk → Guard → Type 0
Leaves sha256 g q d h =
    (Repeats g.memory q × (h ≡ g)) ⊎ (Later g.memory q × Works d × (h ≡ committed_guard sha256 g q))

module _ (sha256 : Bytes → Bytes) (g h : Guard) (q : Intent) (d : Disk) where
  Leaves-stale :
      (g.memory.has_record && stale g.memory q.height q.round) ≡ true → Leaves sha256 g q d h → ⊥
  Leaves-stale old (inl (r, _)) = cc (sym old ∙ (Repeats-tests g.memory q r).0)
  Leaves-stale old (inr (l, _, _)) = cc (sym old ∙ (Later-tests g.memory q l).0)

  -- At the place of the last record the target decides.
  Leaves-same :
      (g.memory.has_record && same_position g.memory q.height q.round) ≡ true
      → Leaves sha256 g q d h ↔ ((not (bytes_eq q.target g.memory.target) ≡ false) × (h ≡ g))
  Leaves-same same = (
    λ x. repeated x,
    λ y. inl (
      (
        ground arith,
        ground arith,
        ground arith,
        ground (arith, bytes_eq_iff q.target g.memory.target),
      ),
      y.1,
    ),
  )
    where
      repeated : Leaves sha256 g q d h → (not (bytes_eq q.target g.memory.target) ≡ false) × (h ≡ g)
      repeated (inl (r, e)) = ((Repeats-tests g.memory q r).2, e)
      repeated (inr (l, _, _)) = absurd (cc (sym same ∙ (Later-tests g.memory q l).1))

  -- Behind the place of the last record the disk decides.
  Leaves-new :
      (g.memory.has_record && stale g.memory q.height q.round) ≡ false
      → (g.memory.has_record && same_position g.memory q.height q.round) ≡ false
      → Leaves sha256 g q d h ↔ (Works d × (h ≡ committed_guard sha256 g q))
  Leaves-new current new =
      (λ x. written x, λ y. inr (Later-of_tests g.memory q current new, y.0, y.1))
    where
      written : Leaves sha256 g q d h → Works d × (h ≡ committed_guard sha256 g q)
      written (inl (r, _)) = absurd (cc (sym new ∙ (Repeats-tests g.memory q r).1))
      written (inr (_, w, e)) = (w, e)

module _ (sha256 : Bytes → Bytes) (sized : (x : Bytes) → length (sha256 x) ≡ 32) where
  append_record-eq-ok_iff :
      (g h : Guard) (q : Intent) (d : Disk)
      → length (record_bytes sha256 g.memory q) ≡ 112
      → (append_record sha256 g q d ≡ (ok tt, h)) ↔ (Works d × (h ≡ committed_guard sha256 g q))
  unfolding append_record
  append_record-eq-ok_iff g h q d whole =
      elim (Bool-cases (not d.write_ok || not (d.written == 112))) [
        | inl lost ↦ rw (whole, lost) (λ e. absurd (cc), λ works. absurd (ground arith))
        | inr kept ↦ elim (Bool-cases d.sync_ok) [
          | inr unsynced ↦ rw (whole, kept, unsynced) (λ e. absurd (cc), λ works. absurd (cc))
          | inl synced ↦
              rw (whole, kept, synced)
                (
                  λ e. ((ground arith, ground arith, refl), sym (ap new_guard_of e)),
                  λ works. ap (λ (k : Guard). (ok tt, k)) (sym works.1),
                )
        ]
      ]

  -- On a guard whose last record hash has 32 bytes and an intent of the sizes of its Go types, with results
  -- of SHA-256 of 32 bytes: `Authorize` returns no error and leaves the guard `h` exactly if the guard is
  -- neither closed nor poisoned, network and validator are the guard's, the height and the target are not
  -- zero, and either the intent repeats the last record and `h` is the guard unchanged, or it is later
  -- than the last record, the disk takes and syncs the whole record, and `h` has the record in its
  -- synced journal and remembers it.
  pub authorize-eq-ok_iff :
      (g h : Guard) (q : Intent) (d : Disk)
      → IsSized q
      → length g.memory.last_record_hash ≡ 32
      → (authorize sha256 g q d ≡ (ok tt, h)) ↔ (
          Accepts g q
          × ((Repeats g.memory q × (h ≡ g))
              ⊎ (Later g.memory q × Works d × (h ≡ committed_guard sha256 g q))))
  unfolding authorize guards_fail
  authorize-eq-ok_iff g h q d sizes linked = elim (Bool-cases (guards_fail g q)) [
    | inl bad ↦ rw bad (λ e. cc, λ x. absurd (cc (sym bad ∙ (guards_fail_iff g q).1 x.0)))
    | inr good ↦
        let accepts = (guards_fail_iff g q).0 good in
        elim (Bool-cases (g.memory.has_record && stale g.memory q.height q.round)) [
          | inl old ↦ rw (good, old) (λ e. cc, λ x. absurd (Leaves-stale sha256 g h q d old x.1))
          | inr current ↦
              elim (Bool-cases (g.memory.has_record && same_position g.memory q.height q.round)) [
                | inl same ↦
                    let decided = Leaves-same sha256 g h q d same in
                    elim (Bool-cases (not (bytes_eq q.target g.memory.target))) [
                      | inl other ↦
                          rw (good, current, same, other)
                            (λ e. cc, λ x. absurd (cc (sym other ∙ (decided.0 x.1).0)))
                      | inr equal ↦
                          rw (good, current, same, equal)
                            (
                              λ e. (accepts, decided.1 (equal, sym (ap new_guard_of e))),
                              λ x. ap (λ (k : Guard). (ok tt, k)) (sym (decided.0 x.1).1),
                            )
                    ]
                | inr new ↦
                    let decided = Leaves-new sha256 g h q d current new in
                    let appended = append_record-eq-ok_iff g h q d (
                      length-record_bytes sha256 sized g.memory q (intent_of accepts sizes)
                        linked) in
                    rw (good, current, new)
                      (λ e. (accepts, decided.1 (appended.0 e)), λ x. appended.1 (decided.0 x.1))
              ]
        ]
  ]
