-- ===== src/Signing/Crash.antt =====
-- The invariant of the guard and its journal across a crash.
use zephyr_chain.Base.{
  ℕ, zero, suc, ◌+◌, ◌<◌, ◌≡◌, refl, sym, ◌∙◌, ap, [], ◌∷◌, ◌++◌, append_assoc, inl, inr, ◌⊎◌,
  arith, Bytes, length, take, length-take, ok,
}
use zephyr_chain.Signing.{
  Memory, Guard, Intent, record_bytes, remember, replay, replay_records, header_layout, guard_of,
  fresh_memory,
}
use zephyr_chain.Signing.Record.{Fresh, length-record_bytes, length-record_hash}
use zephyr_chain.Signing.Replay.{
  replay_records-split, replay_records-partial, replay_records-more, replay_records-record,
}
use zephyr_chain.Signing.Header.{replay-header}
use zephyr_chain.Signing.Journal.{Tail, Live}

take-short : (n : ℕ) (xs : Bytes) → (length (take n xs) < length xs) ⊎ (take n xs ≡ xs)
take-short zero [] = inr refl
take-short zero (x ∷ xs) = inl (omega arith)
take-short (suc n) [] = inr refl
take-short (suc n) (x ∷ xs) = elim (take-short n xs) [
  | inl less ↦ inl (omega arith)
  | inr same ↦ inr (ap (◌∷◌ x) same)
]

-- What is left of a part of a list is less than the list, or all of it.
prefix-cases :
    (k n : ℕ) (xs : Bytes) → (length (take k (take n xs)) < length xs) ⊎ (take k (take n xs) ≡ xs)
prefix-cases k n xs = elim (take-short n xs) [
  | inl less ↦ inl (omega (arith, length-take k (take n xs)))
  | inr same ↦ rw same (take-short k xs)
]

module _ (sha256 : Bytes → Bytes) (sized : (x : Bytes) → length (sha256 x) ≡ 32) where
  -- A replay that gets through the tail remembers what the guard did, or one intent more.
  Tail-replay :
      (g : Guard) (kept l : ℕ) (m : Memory)
      → Tail sha256 g
      → length g.memory.last_record_hash ≡ 32
      → replay_records sha256 l g.memory (take kept g.pending) ≡ ok m
      → (m ≡ g.memory) ⊎ ((q : Intent) × Fresh g.memory q × (m ≡ remember sha256 g.memory q))
  unfolding Tail
  Tail-replay g kept l m (inl nil) linked e = inl (
      sym
        (replay_records-partial sha256 sized l g.memory m (take kept g.pending)
          (omega (arith, length-take kept g.pending, ap length nil)) e).1)
  Tail-replay g kept l m (inr (bad, (q, w, cut, is, fresh))) linked e =
      let size = length-record_bytes sha256 sized g.memory q is linked in
      elim (prefix-cases kept w (record_bytes sha256 g.memory q)) [
        | inl less ↦ inl (
            sym
              (replay_records-partial sha256 sized l g.memory m (take kept g.pending)
                (rw cut (omega (arith, size))) e).1)
        | inr whole ↦
            let one = replay_records-record sha256 sized g.memory q is linked fresh in
            let left =
              replay_records-more sha256 sized l (l + 2) g.memory m (record_bytes sha256 g.memory q)
                (omega arith) (rw (cut, whole) at e) in
            let right =
              replay_records-more sha256 sized 2 (l + 2) g.memory (remember sha256 g.memory q)
                (record_bytes sha256 g.memory q) (omega arith) one in
            inr (q, fresh, cc (sym left ∙ right))
      ]

  -- After a crash the journal replays to what the guard remembered, or to one intent more, or fails.
  pub Live-crash :
      (g : Guard) (kept : ℕ) (m : Memory) (l : Live sha256 g)
      → replay sha256 g.network g.validator (g.synced ++ take kept g.pending) ≡ ok m
      → Live sha256 (guard_of (g.synced ++ take kept g.pending) g.network g.validator m)
        × ((m ≡ g.memory) ⊎ ((q : Intent) × Fresh g.memory q × (m ≡ remember sha256 g.memory q)))
  unfolding Tail
  Live-crash g kept m l e =
      let whole : g.synced ++ take kept g.pending
          ≡ header_layout g.network g.validator ++ (l.body ++ take kept g.pending) =
        rw l.journal
          (append_assoc (header_layout g.network g.validator) l.body (take kept g.pending)) in
      let all =
        sym (
          replay-header sha256 g.network g.validator l.network_fits l.validator_fits
            (l.body ++ take kept g.pending))
        ∙ ap (replay sha256 g.network g.validator) (sym whole)
        ∙ e in
      let after = Tail-replay g kept _ m l.tail l.linked (
        replay_records-split sha256 sized l.fuel _ fresh_memory g.memory m l.body
          (take kept g.pending) l.replayed all) in
      (
        record {
          network_fits = l.network_fits;
          validator_fits = l.validator_fits;
          linked = elim after [
            | inl same ↦ rw same l.linked
            | inr (q, fresh, same) ↦ rw same (length-record_hash sha256 sized _)
          ];
          body = l.body ++ take kept g.pending;
          fuel = _;
          journal = whole;
          replayed = all;
          tail = inl refl;
        },
        after,
      )
