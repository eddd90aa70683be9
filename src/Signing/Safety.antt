-- ===== src/Signing/Safety.antt =====
-- Sequences of calls of the signing guard with any answers of the disk and any crashes.
use zephyr_chain.Base.{
  none, ℕ, zero, suc, ◌<◌, ◌≡◌, refl, sym, ◌∙◌, ap, true, List, [], ◌∷◌, ◌++◌, append-nil, inl, inr,
  ◌⊎◌, arith, All, Bytes, length, take, Result, ok, err, Error, Result-cases, signing_guard,
}
use zephyr_chain.Types.{Hash}
use zephyr_chain.Signing.{Memory, Guard, Intent, Disk, remember, authorize, replay, open_guard}
use zephyr_chain.Signing.Record.{Fresh}
use zephyr_chain.Signing.Crash.{Live-crash}
use zephyr_chain.Signing.Journal.{IsSized, Live, Live-committed, Live-broken, Live-close, Live-open}
use zephyr_chain.Signing.Steps.{
  Outcome, refused, repeated, broken, committed, authorize-cases, Event, sign, shut, crash, World,
  happen, history, restart, record_answer,
}

abbrev pub Sized : Event → Type 0
Sized (sign q d) = IsSized q
Sized _ = Unit {0}

-- The intent lies at or before what is remembered, and at the same place it has the same target.
abbrev pub Below : Memory → Intent → Type 0
Below m q =
    (m.has_record ≡ true)
    × ((q.height < m.height)
        ⊎ ((q.height ≡ m.height)
            × ((q.round < m.round) ⊎ ((q.round ≡ m.round) × (q.target ≡ m.target)))))

-- No two intents of the list have one height and round but different targets.
abbrev pub Consistent : List Intent → Type 0
Consistent [] = Unit {0}
Consistent (q ∷ qs) =
    All (λ (p : Intent). q.height ≡ p.height → q.round ≡ p.round → q.target ≡ p.target) qs
    × Consistent qs

Below-remember :
    (sha256 : Bytes → Bytes) (m : Memory) (q p : Intent)
    → Fresh m q
    → Below m p
    → Below (remember sha256 m q) p
Below-remember sha256 m q p fresh (has, place) = (
  refl,
  elim place [
    | inl lower ↦ ground arith
    | inr (same, inl earlier) ↦ ground arith
    | inr (same, inr (equal, target)) ↦ ground arith
  ],
)

Below-repeated :
    (m : Memory) (q p : Intent)
    → q.height ≡ m.height
    → q.round ≡ m.round
    → q.target ≡ m.target
    → Below m p
    → q.height ≡ p.height
    → q.round ≡ p.round
    → q.target ≡ p.target
Below-repeated m q p eh er et (has, inl lower) h r = absurd (omega arith)
Below-repeated m q p eh er et (has, inr (same, inl earlier)) h r = absurd (omega arith)
Below-repeated m q p eh er et (has, inr (same, inr (equal, target))) h r = et ∙ sym target

Below-Fresh :
    (m : Memory) (q p : Intent)
    → Fresh m q
    → Below m p
    → q.height ≡ p.height
    → q.round ≡ p.round
    → q.target ≡ p.target
Below-Fresh m q p fresh (has, inl lower) h r = absurd (ground arith)
Below-Fresh m q p fresh (has, inr (same, inl earlier)) h r = absurd (ground arith)
Below-Fresh m q p fresh (has, inr (same, inr (equal, target))) h r = absurd (ground arith)

All-map :
    {A : Type 0} (P Q : A → Type 0) → ((a : A) → P a → Q a) → (xs : List A) → All P xs → All Q xs
All-map P Q f [] h = tt
All-map P Q f (x ∷ xs) h = (f x h.0, All-map P Q f xs h.1)

module _ (sha256 : Bytes → Bytes) (sized : (x : Bytes) → length (sha256 x) ≡ 32) where
  -- A guard without a process, whose journal does not replay.
  pub record Dead (g : Guard) : Type 0 where
    pub stopped : g.closed ≡ true
    pub empty : g.pending ≡ []
    pub why : Error
    pub failed : replay sha256 g.network g.validator g.synced ≡ err why

  pub record Good (w : World) : Type 0 where
    pub state : Live sha256 w.guard ⊎ Dead w.guard
    pub below : All (Below w.guard.memory) w.signed
    pub consistent : Consistent w.signed

  Good-authorize :
      (w : World) (q : Intent) (d : Disk) (x : Result (Unit {0}) × Guard)
      → Good w
      → Live sha256 w.guard
      → IsSized q
      → Outcome sha256 w.guard q x
      → Good (record_answer q w x)
  Good-authorize w q d x good live s (refused e is) = rw is good
  Good-authorize w q d x good live s (repeated has h r t is) = rw is (record {
    state = good.state;
    below = ((has, inr (h, inr (r, t))), good.below);
    consistent = (
      All-map _ _ (λ p b. Below-repeated w.guard.memory q p h r t b) w.signed good.below,
      good.consistent,
    );
  })
  Good-authorize w q d x good live s (broken r n is) = rw is (record {
    state = inl (Live-broken sha256 sized w.guard q n live r s);
    below = good.below;
    consistent = good.consistent;
  })
  Good-authorize w q d x good live s (committed r is) = rw is (record {
    state = inl (Live-committed sha256 sized w.guard q live r s);
    below = (
      (refl, inr (refl, inr (refl, refl))),
      All-map _ _ (λ p b. Below-remember sha256 w.guard.memory q p r.fresh b) w.signed good.below,
    );
    consistent = (
      All-map _ _ (λ p b. Below-Fresh w.guard.memory q p r.fresh b) w.signed good.below,
      good.consistent,
    );
  })

  take-nil : (k : ℕ) → ◌≡◌ {A = Bytes} (take k []) []
  take-nil zero = refl
  take-nil (suc k) = refl

  -- A guard that is closed refuses.
  closed-refuses :
      (g : Guard) (q : Intent) (d : Disk)
      → g.closed ≡ true
      → authorize sha256 g q d ≡ (err signing_guard, g)
  unfolding authorize
  closed-refuses g q d h = rw h refl

  Good-crash :
      (w : World) (kept : ℕ)
      → Good w
      → Live sha256 w.guard
      → Good (record w {
        guard = restart (w.guard.synced ++ take kept w.guard.pending) w.guard (
            replay sha256 w.guard.network w.guard.validator
              (w.guard.synced ++ take kept w.guard.pending));
      })
  Good-crash w kept good live =
      elim (Result-cases (
        replay sha256 w.guard.network w.guard.validator
          (w.guard.synced ++ take kept w.guard.pending))) [
            | inl (m, e) ↦
                let (live', after) = Live-crash sha256 sized w.guard kept m live e in
                rw e (record {
                  state = inl live';
                  below = elim after [
                    | inl same ↦ rw same good.below
                    | inr (q, fresh, same) ↦ rw same (
                        All-map _ _ (λ p b. Below-remember sha256 w.guard.memory q p fresh b)
                          w.signed good.below)
                  ];
                  consistent = good.consistent;
                })
            | inr (why, e) ↦ rw e (record {
              state = inr (record { stopped = refl; empty = refl; why = why; failed = e });
              below = good.below;
              consistent = good.consistent;
            })
          ]

  Good-happen : (e : Event) (w : World) → Sized e → Good w → Good (happen sha256 e w)
  unfolding happen
  Good-happen (sign q d) w s good = elim good.state [
    | inl live ↦ Good-authorize w q d _ good live s (authorize-cases sha256 w.guard q d)
    | inr dead ↦ rw (closed-refuses w.guard q d dead.stopped) good
  ]
  Good-happen shut w s good = record {
    state = elim good.state [
      | inl l ↦ inl (Live-close sha256 sized w.guard l)
      | inr dead ↦
          inr (record { stopped = refl; empty = dead.empty; why = dead.why; failed = dead.failed })
    ];
    below = good.below;
    consistent = good.consistent;
  }
  Good-happen (crash kept) w s good = elim good.state [
    | inl live ↦ Good-crash w kept good live
    | inr dead ↦
        let same : w.guard.synced ++ take kept w.guard.pending ≡ w.guard.synced =
          ap (λ (p : Bytes). w.guard.synced ++ take kept p) dead.empty
          ∙ (ap (◌++◌ w.guard.synced) (take-nil kept) ∙ append-nil w.guard.synced) in
        rw (same, dead.failed)
          (record {
            state =
                inr (record { stopped = refl; empty = refl; why = dead.why; failed = dead.failed });
            below = good.below;
            consistent = good.consistent;
          })
  ]

  Good-history : (es : List Event) (w : World) → All Sized es → Good w → Good (history sha256 es w)
  unfolding history
  Good-history [] w s good = good
  Good-history (e ∷ es) w s good =
      Good-history es (happen sha256 e w) s.1 (Good-happen e w s.0 good)

  -- What holds of every guard that starts with a new journal.
  pub history-Good :
      (network validator : Hash) (d : Disk) (g : Guard) (es : List Event)
      → length network ≡ 32
      → length validator ≡ 32
      → All Sized es
      → open_guard sha256 network validator none d ≡ ok g
      → Good (history sha256 es (record { guard = g; signed = [] }))
  history-Good network validator d g es n v s e =
      Good-history es (record { guard = g; signed = [] }) s
        (record {
          state = inl (Live-open sha256 sized network validator d g n v e);
          below = tt;
          consistent = tt;
        })

  -- A guard that starts with a new journal never authorizes two targets for one height and round:
  -- after any sequence of `Authorize` calls with any answers of the disk (short writes, failed writes
  -- and failed syncs), `Close` calls and crashes that keep any part of what was not synced, the
  -- authorized intents that share height and round share the target. Identifiers and targets have 32
  -- bytes, heights and rounds fit a `uint64`, and SHA-256 answers 32 bytes.
  pub signed_once :
      (network validator : Hash) (d : Disk) (g : Guard) (es : List Event)
      → length network ≡ 32
      → length validator ≡ 32
      → All Sized es
      → open_guard sha256 network validator none d ≡ ok g
      → Consistent (history sha256 es (record { guard = g; signed = [] })).signed
  signed_once network validator d g es n v s e =
      (history-Good network validator d g es n v s e).consistent
