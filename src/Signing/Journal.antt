-- ===== src/Signing/Journal.antt =====
-- The invariant of the guard and its journal, at a commit, at a failed write and at the opening.
use zephyr_chain.Base.{
  none, ℕ, ◌+◌, ◌≡◌, refl, sym, ◌∙◌, ap, true, false, not, ◌||◌, [], ◌++◌, append-nil, append_assoc,
  inl, inr, ◌⊎◌, arith, Bytes, length, take, Bool-cases, Result, ok,
}
use zephyr_chain.Codec.BigEndian.{IsU64}
use zephyr_chain.Types.{Hash, is_zero32}
use zephyr_chain.Signing.{
  Guard, Intent, Disk, record_bytes, replay, replay_records, header_layout, open_guard, guard_of,
  fresh_memory,
}
use zephyr_chain.Signing.Record.{Fresh, IsIntent, length-record_hash}
use zephyr_chain.Signing.Replay.{replay_records-append, replay_records-record}
use zephyr_chain.Signing.Header.{replay-header}
use zephyr_chain.Signing.Steps.{Ready, committed_guard, broken_guard}

-- The fields of an intent have the sizes of their Go types.
pub record IsSized (q : Intent) : Type 0 where
  pub height_fits : IsU64 q.height
  pub round_fits : IsU64 q.round
  pub target_fits : length q.target ≡ 32

module _ (sha256 : Bytes → Bytes) where
  -- What was written behind the last synced record: nothing, or a part of one record after which
  -- the guard refuses everything.
  unfoldable pub Tail : Guard → Type 0
  Tail g =
      (g.pending ≡ [])
      ⊎ ((g.poisoned ≡ true)
          × ((q : Intent) × (w : ℕ) × (g.pending ≡ take w (record_bytes sha256 g.memory q))
              × IsIntent q
              × Fresh g.memory q))

  pub record Live (g : Guard) : Type 0 where
    pub network_fits : length g.network ≡ 32
    pub validator_fits : length g.validator ≡ 32
    pub linked : length g.memory.last_record_hash ≡ 32
    pub body : Bytes
    pub fuel : ℕ
    pub journal : g.synced ≡ header_layout g.network g.validator ++ body
    pub replayed : replay_records sha256 fuel fresh_memory body ≡ ok g.memory
    pub tail : Tail g

module _ (sha256 : Bytes → Bytes) (sized : (x : Bytes) → length (sha256 x) ≡ 32) where
  pub intent : (g : Guard) (q : Intent) → Ready g q → IsSized q → IsIntent q
  intent g q r s = record {
    height_fits = s.height_fits;
    height_pos = r.height_pos;
    round_fits = s.round_fits;
    target_fits = s.target_fits;
    target_set = r.target_set;
  }

  Tail-empty : (g : Guard) → Tail sha256 g → g.poisoned ≡ false → g.pending ≡ []
  unfolding Tail
  Tail-empty g (inl nil) sound = nil
  Tail-empty g (inr (bad, rest)) sound = absurd (cc)

  pub Live-committed :
      (g : Guard) (q : Intent)
      → Live sha256 g
      → Ready g q
      → IsSized q
      → Live sha256 (committed_guard sha256 g q)
  unfolding Tail
  Live-committed g q l r s = record {
    network_fits = l.network_fits;
    validator_fits = l.validator_fits;
    linked = length-record_hash sha256 sized _;
    body = l.body ++ record_bytes sha256 g.memory q;
    fuel = l.fuel + 2;
    journal =
        rw (Tail-empty g l.tail r.sound, l.journal)
          (append_assoc (header_layout g.network g.validator) l.body
            (record_bytes sha256 g.memory q));
    replayed =
        replay_records-append sha256 sized l.fuel 2 (l.fuel + 2) fresh_memory g.memory _ l.body
          (record_bytes sha256 g.memory q) (omega arith) l.replayed
          (replay_records-record sha256 sized g.memory q (intent g q r s) l.linked r.fresh);
    tail = inl refl;
  }

  pub Live-broken :
      (g : Guard) (q : Intent) (w : ℕ)
      → Live sha256 g
      → Ready g q
      → IsSized q
      → Live sha256 (broken_guard sha256 g q w)
  unfolding Tail
  Live-broken g q w l r s = record {
    network_fits = l.network_fits;
    validator_fits = l.validator_fits;
    linked = l.linked;
    body = l.body;
    fuel = l.fuel;
    journal = l.journal;
    replayed = l.replayed;
    tail = inr (
      refl,
      (
        q,
        w,
        ap (λ (p : Bytes). p ++ take w (record_bytes sha256 g.memory q))
            (Tail-empty g l.tail r.sound),
        intent g q r s,
        r.fresh,
      ),
    );
  }

  pub Live-close : (g : Guard) → Live sha256 g → Live sha256 (record g { closed = true })
  unfolding Tail
  Live-close g l = record {
    network_fits = l.network_fits;
    validator_fits = l.validator_fits;
    linked = l.linked;
    body = l.body;
    fuel = l.fuel;
    journal = l.journal;
    replayed = l.replayed;
    tail = l.tail;
  }

  replay-new :
      (network validator : Hash)
      → length network ≡ 32
      → length validator ≡ 32
      → replay sha256 network validator (header_layout network validator) ≡ ok fresh_memory
  unfolding replay_records
  replay-new network validator n v =
      ap (replay sha256 network validator) (sym (append-nil (header_layout network validator)))
      ∙ replay-header sha256 network validator n v []

  Live-new :
      (network validator : Hash)
      → length network ≡ 32
      → length validator ≡ 32
      → Live sha256 (guard_of (header_layout network validator) network validator fresh_memory)
  unfolding Tail replay_records
  Live-new network validator n v = record {
    network_fits = n;
    validator_fits = v;
    linked = refl;
    body = [];
    fuel = 1;
    journal = sym (append-nil (header_layout network validator));
    replayed = refl;
    tail = inl refl;
  }

  -- The guard that a new journal is opened with.
  pub Live-open :
      (network validator : Hash) (d : Disk) (g : Guard)
      → length network ≡ 32
      → length validator ≡ 32
      → open_guard sha256 network validator none d ≡ ok g
      → Live sha256 g
  unfolding open_guard
  Live-open network validator d g n v e =
      elim (Bool-cases (is_zero32 network || is_zero32 validator)) [
        | inl bad ↦ absurd (cc (rw bad at e))
        | inr set ↦ elim (Bool-cases (not d.write_ok || not d.sync_ok)) [
          | inl lost ↦ absurd (cc (rw (set, lost) at e))
          | inr kept ↦
              let opened = rw (set, kept, replay-new network validator n v) at e in
              rw (← ok_inj opened) (Live-new network validator n v)
        ]
      ]
    where
      ok_inj : {a b : Guard} → ◌≡◌ {A = Result Guard} (ok a) (ok b) → a ≡ b
      ok_inj h = cc
