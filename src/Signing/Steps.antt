-- ===== src/Signing/Steps.antt =====
-- `Authorize` by cases, and the guard in a world where the machine can fail at any moment: the
-- events, what they do, and the list of the intents that were authorized.
use zephyr_chain.Base.{
  ℕ, ◌<◌, ◌≡◌, refl, Bool, true, false, not, ◌&&◌, ◌||◌, ◌==◌, List, [], ◌∷◌, ◌++◌, append-nil, inl,
  inr, arith, Bytes, length, take, bytes_eq, bytes_eq_iff, Bool-cases, Result, ok, err, Error,
  signing_guard, signing_conflict, signing_journal,
}
use zephyr_chain.Types.{is_zero32}
use zephyr_chain.Signing.{
  Memory, Guard, Intent, Disk, record_bytes, remember, stale, same_position, append_record,
  authorize, replay, guard_of, close,
}
use zephyr_chain.Signing.Record.{Fresh}

-- What holds of a guard and an intent that get as far as the journal.
pub record Ready (g : Guard) (q : Intent) : Type 0 where
  pub sound : g.poisoned ≡ false
  pub height_pos : 0 < q.height
  pub target_set : is_zero32 q.target ≡ false
  pub fresh : Fresh g.memory q

-- A call of `Authorize` with what the disk answers, a call of `Close`, or a crash after which the
-- machine starts again: it finds what had reached stable storage and the first `kept` bytes of the rest.
pub data Event : Type 0 where
  sign : Intent → Disk → Event
  shut : Event
  crash : ℕ → Event

pub record World : Type 0 where
  pub guard : Guard
  pub signed : List Intent

abbrev pub record_answer : Intent → World → Result (Unit {0}) × Guard → World
record_answer q w (ok _, g) = record { guard = g; signed = q ∷ w.signed }
record_answer q w (err _, g) = record w { guard = g }

-- A journal that does not replay leaves no guard that could sign.
abbrev pub restart : Bytes → Guard → Result Memory → Guard
restart file g (ok m) = guard_of file g.network g.validator m
restart file g (err _) = record g { synced = file; pending = []; closed = true }

module _ (sha256 : Bytes → Bytes) where
  abbrev pub committed_guard : Guard → Intent → Guard
  committed_guard g q = record g {
    synced = g.synced ++ (g.pending ++ record_bytes sha256 g.memory q);
    pending = [];
    memory = remember sha256 g.memory q;
  }

  abbrev pub broken_guard : Guard → Intent → ℕ → Guard
  broken_guard g q w = record g {
    pending = g.pending ++ take w (record_bytes sha256 g.memory q);
    poisoned = true;
  }

  -- The four things that `Authorize` does.
  pub data Outcome (g : Guard) (q : Intent) (x : Result (Unit {0}) × Guard) : Type 0 where
    refused : (e : Error) → x ≡ (err e, g) → Outcome g q x
    repeated :
        g.memory.has_record ≡ true
        → q.height ≡ g.memory.height
        → q.round ≡ g.memory.round
        → q.target ≡ g.memory.target
        → x ≡ (ok tt, g)
        → Outcome g q x
    broken : Ready g q → (w : ℕ) → x ≡ (err signing_journal, broken_guard g q w) → Outcome g q x
    committed : Ready g q → x ≡ (ok tt, committed_guard g q) → Outcome g q x

  append_record-cases :
      (g : Guard) (q : Intent) (d : Disk) → Ready g q → Outcome g q (append_record sha256 g q d)
  unfolding append_record
  append_record-cases g q d h =
      elim (Bool-cases (not (length (record_bytes sha256 g.memory q) == 112))) [
        | inl odd ↦ broken h 0 (rw (odd, append-nil) refl)
        | inr whole ↦
            elim (Bool-cases
              (not d.write_ok || not (d.written == length (record_bytes sha256 g.memory q)))) [
                | inl lost ↦ broken h d.written (rw (whole, lost) refl)
                | inr kept ↦ elim (Bool-cases (not d.sync_ok)) [
                  | inl unsynced ↦ broken h d.written (rw (whole, kept, unsynced) refl)
                  | inr done ↦ committed h (rw (whole, kept, done) refl)
                ]
              ]
      ]

  guards_fail : Guard → Intent → Bool
  guards_fail g q =
      g.closed
      || (g.poisoned
          || (not (bytes_eq g.network q.network)
              || (not (bytes_eq g.validator q.validator) || (q.height == 0 || is_zero32 q.target))))

  ready :
      (g : Guard) (q : Intent)
      → guards_fail g q ≡ false
      → (g.memory.has_record && stale g.memory q.height q.round) ≡ false
      → (g.memory.has_record && same_position g.memory q.height q.round) ≡ false
      → Ready g q
  unfolding guards_fail
  ready g q a b c = record {
    sound = ground arith;
    height_pos = ground arith;
    target_set = ground arith;
    fresh = ground arith;
  }

  pub authorize-cases : (g : Guard) (q : Intent) (d : Disk) → Outcome g q (authorize sha256 g q d)
  unfolding authorize guards_fail
  authorize-cases g q d = elim (Bool-cases (guards_fail g q)) [
    | inl bad ↦ refused signing_guard (rw bad refl)
    | inr good ↦ elim (Bool-cases (g.memory.has_record && stale g.memory q.height q.round)) [
      | inl old ↦ refused signing_conflict (rw (good, old) refl)
      | inr current ↦
          elim (Bool-cases (g.memory.has_record && same_position g.memory q.height q.round)) [
            | inl same ↦ elim (Bool-cases (not (bytes_eq q.target g.memory.target))) [
              | inl other ↦ refused signing_conflict (rw (good, current, same, other) refl)
              | inr equal ↦
                  repeated (ground arith) (ground arith) (ground arith)
                    (ground (arith, bytes_eq_iff q.target g.memory.target))
                    (rw (good, current, same, equal) refl)
            ]
            | inr new ↦
                let r = append_record-cases g q d (ready g q good current new) in
                rw (good, current, new) r
          ]
    ]
  ]

  unfoldable pub happen : Event → World → World
  unfolding authorize replay close
  happen (sign q d) w = record_answer q w (authorize sha256 w.guard q d)
  happen shut w = record w { guard = close w.guard }
  happen (crash kept) w =
      let file = w.guard.synced ++ take kept w.guard.pending in
      record w {
        guard = restart file w.guard (replay sha256 w.guard.network w.guard.validator file);
      }

  unfoldable pub history : List Event → World → World
  unfolding happen
  history [] w = w
  history (e ∷ es) w = history es (happen e w)
