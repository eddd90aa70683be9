-- ===== src/Signing.antt =====
-- The durable signing guard, internal/v2/consensus/signing_guard.go. The journal is a file of which
-- `synced` has reached stable storage and `pending` has been written behind it since. What the
-- operating system answers to a write and a sync is an argument of the operations; SHA-256 is one too.
pub mod Record
pub mod Replay
pub mod Header
pub mod Journal
pub mod Crash
pub mod Steps
pub mod Safety
pub mod Grants
pub mod Recovery
use zephyr_chain.Base
use zephyr_chain.Base.{
  ℕ, zero, suc, ◌∷◌, ◌+◌, Bool, true, false, not, ◌&&◌, ◌||◌, ltb, ◌==◌, if◌then◌else◌, [], ◌++◌,
  Bytes, length, take, drop, bytes_eq, codes, Option, none, some, Result, ok, err, Error, fail_if,
  signing_guard, signing_conflict, signing_journal, io_failure,
}
use zephyr_chain.Codec.Writer
use zephyr_chain.Codec.Writer.{◌▷◌}
use zephyr_chain.Codec.Reader
use zephyr_chain.Codec.Reader.{Parser, ◌‼◌, ◌>>=◌, ◌>>◌, run, done, pure, require_not}
use zephyr_chain.Codec.Hash.{domain_hash}
use zephyr_chain.Types.{Hash, is_zero32, zero_hash}

abbrev pub journal_header_bytes : ℕ
journal_header_bytes = 69

abbrev pub journal_record_bytes : ℕ
journal_record_bytes = 112

-- The fields of the guard that a record sets.
pub record Memory : Type 0 where
  pub height : ℕ
  pub round : ℕ
  pub target : Hash
  pub last_record_hash : Hash
  pub has_record : Bool

pub record Guard : Type 0 where
  pub synced : Bytes
  pub pending : Bytes
  pub network : Hash
  pub validator : Hash
  pub memory : Memory
  pub closed : Bool
  pub poisoned : Bool

-- The arguments of `Authorize`.
pub record Intent : Type 0 where
  pub network : Hash
  pub validator : Hash
  pub height : ℕ
  pub round : ℕ
  pub target : Hash

-- What the file answers: how many bytes were written, and which calls returned no error.
pub record Disk : Type 0 where
  pub written : ℕ
  pub write_ok : Bool
  pub sync_ok : Bool

abbrev pub fresh_memory : Memory
fresh_memory = record {
  height = 0;
  round = 0;
  target = zero_hash;
  last_record_hash = zero_hash;
  has_record = false;
}

abbrev pub signing_domain : Bytes
signing_domain = codes "zephyr/consensus/signing-intent/v1"

abbrev pub signing_magic : Bytes
signing_magic = codes "ZSG2"

unfoldable pub record_body : ℕ → ℕ → Hash → Hash → Bytes
unfolding Writer.bytes_copy
record_body height round target previous = Writer.bytes_copy (
    Writer.empty
    ▷ Writer.u64 height
    ▷ Writer.u64 round
    ▷ Writer.fixed target
    ▷ Writer.fixed previous)

abbrev pub header_layout : Hash → Hash → Bytes
header_layout network validator = Writer.bytes_copy (
    Writer.empty
    ▷ Writer.fixed signing_magic
    ▷ Writer.u8 1
    ▷ Writer.fixed network
    ▷ Writer.fixed validator)

-- A position that a record of the memory has already passed.
abbrev pub stale : Memory → ℕ → ℕ → Bool
stale m height round = ltb height m.height || (height == m.height && ltb round m.round)

abbrev pub same_position : Memory → ℕ → ℕ → Bool
same_position m height round = height == m.height && round == m.round

unfoldable pub check_header : Hash → Hash → Bytes → Result (Unit {0})
unfolding bytes_eq
check_header network validator raw =
    if ltb (length raw) journal_header_bytes
    then err signing_journal
    else if not (bytes_eq (take 4 raw) signing_magic)
        || not (bytes_eq (take 1 (drop 4 raw)) (1 ∷ []))
    then err signing_journal
    else if not (bytes_eq (take 32 (drop 5 raw)) network)
        || not (bytes_eq (take 32 (drop 37 raw)) validator)
    then err signing_guard
    else ok tt

-- The guard of a journal that is read back.
abbrev pub guard_of : Bytes → Hash → Hash → Memory → Guard
guard_of file network validator m = record {
  synced = file;
  pending = [];
  network = network;
  validator = validator;
  memory = m;
  closed = false;
  poisoned = false;
}

-- `Matches`
unfoldable pub matches : Guard → Hash → Hash → Bool
unfolding bytes_eq
matches g network validator =
    not g.closed
    && (not g.poisoned && (bytes_eq g.network network && bytes_eq g.validator validator))

-- `Close`; a second call does nothing.
unfoldable pub close : Guard → Guard
close g = record g { closed = true }

module _ (sha256 : Bytes → Bytes) where
  unfoldable pub record_hash : Bytes → Hash
  record_hash body = domain_hash sha256 signing_domain body

  unfoldable pub record_bytes : Memory → Intent → Bytes
  unfolding record_body record_hash
  record_bytes m q =
      let body = record_body q.height q.round q.target m.last_record_hash in
      body ++ record_hash body

  abbrev pub remember : Memory → Intent → Memory
  remember m q = record {
    height = q.height;
    round = q.round;
    target = q.target;
    last_record_hash = record_hash (record_body q.height q.round q.target m.last_record_hash);
    has_record = true;
  }

  -- The write, the sync, and the change of the guard.
  unfoldable pub append_record : Guard → Intent → Disk → Result (Unit {0}) × Guard
  unfolding record_bytes
  append_record g q d =
      let encoded = record_bytes g.memory q in
      let grown = record g { pending = g.pending ++ take d.written encoded } in
      if not (length encoded == journal_record_bytes)
      then (err signing_journal, record g { poisoned = true })
      else if not d.write_ok || not (d.written == length encoded)
      then (err signing_journal, record grown { poisoned = true })
      else if not d.sync_ok
      then (err signing_journal, record grown { poisoned = true })
      else (
        ok tt,
        record g {
          synced = g.synced ++ (g.pending ++ encoded);
          pending = [];
          memory = remember g.memory q;
        },
      )

  unfoldable pub authorize : Guard → Intent → Disk → Result (Unit {0}) × Guard
  unfolding append_record bytes_eq is_zero32
  authorize g q d =
      if g.closed
        || (g.poisoned
            || (not (bytes_eq g.network q.network)
                || (not (bytes_eq g.validator q.validator)
                    || (q.height == 0 || is_zero32 q.target))))
      then (err signing_guard, g)
      else if g.memory.has_record && stale g.memory q.height q.round
      then (err signing_conflict, g)
      else if g.memory.has_record && same_position g.memory q.height q.round
      then if not (bytes_eq q.target g.memory.target) then (err signing_conflict, g) else (ok tt, g)
      else append_record g q d

  -- One record of the journal, its reads and its checks.
  unfoldable pub read_record : Memory → Bytes → Parser Memory
  unfolding is_zero32 bytes_eq record_hash
  read_record m raw = do
    height ← Reader.u64 ‼ signing_journal
    round ← Reader.u64 ‼ signing_journal
    target ← Reader.fixed 32 ‼ signing_journal
    prev ← Reader.fixed 32 ‼ signing_journal
    hash ← Reader.fixed 32 ‼ signing_journal
    done ‼ signing_journal
    require_not (height == 0) signing_journal
    require_not
        (is_zero32 target
          || (not (bytes_eq prev m.last_record_hash)
              || not (bytes_eq hash (record_hash (take 80 raw)))))
        signing_journal
    require_not
        (m.has_record && (ltb height m.height || (height == m.height && not (ltb m.round round))))
        signing_journal
    pure (record {
      height = height;
      round = round;
      target = target;
      last_record_hash = hash;
      has_record = true;
    })

  -- The loop over the records; fuel is their number, and one for the end.
  unfoldable pub replay_records : ℕ → Memory → Bytes → Result Memory
  unfolding read_record
  replay_records zero m raw = err signing_journal
  replay_records (suc n) m raw =
      if length raw == 0
      then ok m
      else if ltb (length raw) journal_record_bytes
      then err signing_journal
      else Base.◌>>=◌
          (run (read_record m (take journal_record_bytes raw)) (take journal_record_bytes raw))
          (λ m'. replay_records n m' (drop journal_record_bytes raw))

  unfoldable pub replay : Hash → Hash → Bytes → Result Memory
  unfolding check_header replay_records
  replay network validator raw =
      Base.◌>>◌ (check_header network validator raw)
        (replay_records (suc (length raw)) fresh_memory (drop journal_header_bytes raw))

  -- `OpenDurableSigningGuard` where the directory is usable. A journal that is not there is created,
  -- and reaches stable storage before it is used.
  unfoldable pub open_guard : Hash → Hash → Option Bytes → Disk → Result Guard
  unfolding replay is_zero32
  open_guard network validator (some file) d =
      if is_zero32 network || is_zero32 validator
      then err signing_guard
      else Base.◌>>=◌ (replay network validator file) (λ m. ok (guard_of file network validator m))
  open_guard network validator none d =
      let file = header_layout network validator in
      if is_zero32 network || is_zero32 validator
      then err signing_guard
      else if not d.write_ok || not d.sync_ok
      then err io_failure
      else Base.◌>>=◌ (replay network validator file) (λ m. ok (guard_of file network validator m))
