-- ===== src/Tests/Signing.antt =====
-- A guard that signs, fails to write, crashes and signs again.
use zephyr_chain.Base.{
  ℕ, ◌<◌, ◌^◌, ◌≡◌, ◌↔◌, ◌⊎◌, inl, inr, refl, true, false, none, List, [], ◌∷◌, ◌++◌, arith, length,
  All, Result, ok, err, codes,
}
use zephyr_chain.Signing.{
  Guard, Intent, Disk, Memory, open_guard, authorize, replay, guard_of, header_layout, fresh_memory,
}
use zephyr_chain.Codec.BigEndian
use zephyr_chain.Codec.Hash
use zephyr_chain.Codec.Reader
use zephyr_chain.Codec.Writer
use zephyr_chain.Signing.Steps.{Event, sign, crash, history, committed_guard}
use zephyr_chain.Signing.Journal.{IsSized}
use zephyr_chain.Signing.Safety.{Sized, Consistent, signed_once}
use zephyr_chain.Signing.Grants.{Accepts, Repeats, Later, Works, authorize-eq-ok_iff}
use zephyr_chain.Signing.Recovery.{replay-synced}
use zephyr_chain.Types.{is_zero32}
use zephyr_chain.Tests.Common.{toy_sha256, toy_sized, filled}

abbrev works : Disk
works = record { written = 112; write_ok = true; sync_ok = true }

abbrev full_disk : Disk
full_disk = record { written = 40; write_ok = false; sync_ok = true }

abbrev lost_sync : Disk
lost_sync = record { written = 112; write_ok = true; sync_ok = false }

abbrev intent_at : ℕ → ℕ → ℕ → Intent
intent_at height round target = record {
  network = filled 7;
  validator = filled 9;
  height = height;
  round = round;
  target = filled target;
}

abbrev new_guard : Guard
new_guard = guard_of (header_layout (filled 7) (filled 9)) (filled 7) (filled 9) fresh_memory

-- Two intents for one place, a failed sync, a crash that keeps the record, and a later intent.
abbrev events : List Event
events =
    sign (intent_at 1 0 3) works
    ∷ sign (intent_at 1 0 4) works
    ∷ sign (intent_at 2 0 4) lost_sync
    ∷ crash 112
    ∷ sign (intent_at 2 0 4) works
    ∷ sign (intent_at 2 1 5) works
    ∷ []

new_guard_opens : open_guard toy_sha256 (filled 7) (filled 9) none works ≡ ok new_guard
unfolding open_guard Writer.bytes_copy codes
new_guard_opens = refl

intent-IsSized : (h r t : ℕ) → h < 2 ^ 64 → r < 2 ^ 64 → IsSized (intent_at h r t)
intent-IsSized h r t hh rr = record { height_fits = hh; round_fits = rr; target_fits = refl }

events-Sized : All Sized events
events-Sized = (
  intent-IsSized 1 0 3 (omega arith) (omega arith),
  (
    intent-IsSized 1 0 4 (omega arith) (omega arith),
    (
      intent-IsSized 2 0 4 (omega arith) (omega arith),
      (
        tt,
        (
          intent-IsSized 2 0 4 (omega arith) (omega arith),
          (intent-IsSized 2 1 5 (omega arith) (omega arith), tt),
        ),
      ),
    ),
  ),
)

signed_once_example :
    Consistent (history toy_sha256 events (record { guard = new_guard; signed = [] })).signed
signed_once_example =
    signed_once toy_sha256 toy_sized (filled 7) (filled 9) works new_guard events refl refl
      events-Sized new_guard_opens

-- Three of the five intents are authorized.
signed_of_events :
    length (history toy_sha256 events (record { guard = new_guard; signed = [] })).signed ≡ 3
unfolding history codes Writer.bytes_copy BigEndian.put_u64 Hash.domain_hash Hash.domain_frame
    BigEndian.put_u32 Reader.run Reader.◌>>=◌ Reader.u64 Reader.fixed Reader.done
signed_of_events = refl

open_after_events :
    (history toy_sha256 events (record { guard = new_guard; signed = [] })).guard.closed ≡ false
unfolding history codes Writer.bytes_copy BigEndian.put_u64 Hash.domain_hash Hash.domain_frame
    BigEndian.put_u32 Reader.run Reader.◌>>=◌ Reader.u64 Reader.fixed Reader.done
open_after_events = refl

replay-synced_example :
    replay toy_sha256
      (history toy_sha256 events (record { guard = new_guard; signed = [] })).guard.network
      (history toy_sha256 events (record { guard = new_guard; signed = [] })).guard.validator
      (history toy_sha256 events (record { guard = new_guard; signed = [] })).guard.synced
    ≡ ok (history toy_sha256 events (record { guard = new_guard; signed = [] })).guard.memory
replay-synced_example =
    replay-synced toy_sha256 toy_sized (filled 7) (filled 9) works new_guard events refl refl
      events-Sized new_guard_opens open_after_events

abbrev first_committed : Guard
first_committed = committed_guard toy_sha256 new_guard (intent_at 1 0 3)

authorize-eq-ok_iff_example :
    (authorize toy_sha256 new_guard (intent_at 1 0 3) works ≡ (ok tt, first_committed)) ↔ (
      Accepts new_guard (intent_at 1 0 3)
      × ((Repeats fresh_memory (intent_at 1 0 3) × (first_committed ≡ new_guard))
          ⊎ (Later fresh_memory (intent_at 1 0 3)
              × Works works
              × (first_committed ≡ first_committed))))
authorize-eq-ok_iff_example =
    authorize-eq-ok_iff toy_sha256 toy_sized new_guard first_committed (intent_at 1 0 3) works
      (intent-IsSized 1 0 3 (omega arith) (omega arith)) refl

-- Both sides hold there.
first_authorized : authorize toy_sha256 new_guard (intent_at 1 0 3) works ≡ (ok tt, first_committed)
unfolding is_zero32
first_authorized =
    (authorize-eq-ok_iff toy_sha256 toy_sized new_guard first_committed (intent_at 1 0 3) works
        (intent-IsSized 1 0 3 (omega arith) (omega arith)) refl).1
      (
        record {
          open_still = refl;
          sound = refl;
          same_network = refl;
          same_validator = refl;
          height_pos = omega arith;
          target_set = refl;
        },
        inr (inl refl, (refl, refl, refl), refl),
      )

-- A guard whose sync failed, and that is opened again by another process before any crash: the
-- record is read from what was written but never reached stable storage.
abbrev unsynced : Guard
unsynced = (authorize toy_sha256 new_guard (intent_at 1 0 3) lost_sync).1

abbrev reopened : Memory → Guard
reopened m = record unsynced { memory = m; poisoned = false }

abbrev remembered : Result Memory
remembered = replay toy_sha256 (filled 7) (filled 9) (unsynced.synced ++ unsynced.pending)

abbrev reopened_guard : Result Memory → Guard
reopened_guard (ok m) = reopened m
reopened_guard (err _) = new_guard

-- It authorizes the intent, whatever the disk does, and leaves the record unsynced.
reopened-authorizes :
    authorize toy_sha256 (reopened_guard remembered) (intent_at 1 0 3) full_disk
    ≡ (ok tt, reopened_guard remembered)
unfolding authorize replay codes Writer.bytes_copy BigEndian.put_u64 Hash.domain_hash
    Hash.domain_frame BigEndian.put_u32 Reader.run Reader.◌>>=◌ Reader.u64 Reader.fixed Reader.done
reopened-authorizes = refl

-- Then a crash that loses the record leaves a guard that authorizes another target for the place.
lost-authorizes :
    (history toy_sha256
      (crash 0 ∷ sign (intent_at 1 0 4) works ∷ [])
      (record { guard = reopened_guard remembered; signed = [] })).signed
    ≡ intent_at 1 0 4 ∷ []
unfolding history codes Writer.bytes_copy BigEndian.put_u64 Hash.domain_hash Hash.domain_frame
    BigEndian.put_u32 Reader.run Reader.◌>>=◌ Reader.u64 Reader.fixed Reader.done
lost-authorizes = refl
