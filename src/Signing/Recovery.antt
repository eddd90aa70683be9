-- ===== src/Signing/Recovery.antt =====
-- The journal that a restart finds.
use zephyr_chain.Base.{
  ◌≡◌, sym, ◌∙◌, ap, false, List, [], none, inl, inr, arith, All, Bytes, length, length-append, ok,
}
use zephyr_chain.Types.{Hash}
use zephyr_chain.Signing.{Guard, Disk, open_guard, replay, header_layout, fresh_memory}
use zephyr_chain.Signing.Replay.{replay_records-enough}
use zephyr_chain.Signing.Header.{replay-header}
use zephyr_chain.Signing.Steps.{Event, history}
use zephyr_chain.Signing.Safety.{Sized, history-Good}

module _ (sha256 : Bytes → Bytes) (sized : (x : Bytes) → length (sha256 x) ≡ 32) where
  -- After any history of a guard that started with a new journal, while it is not
  -- closed, its journal on stable storage replays to exactly what it remembers.
  pub replay-synced :
      (network validator : Hash) (d : Disk) (g : Guard) (es : List Event)
      → length network ≡ 32
      → length validator ≡ 32
      → All Sized es
      → open_guard sha256 network validator none d ≡ ok g
      → (history sha256 es (record { guard = g; signed = [] })).guard.closed ≡ false
      → replay sha256
          (history sha256 es (record { guard = g; signed = [] })).guard.network
          (history sha256 es (record { guard = g; signed = [] })).guard.validator
          (history sha256 es (record { guard = g; signed = [] })).guard.synced
        ≡ ok (history sha256 es (record { guard = g; signed = [] })).guard.memory
  replay-synced network validator d g es n v s e alive =
      elim (history-Good sha256 sized network validator d g es n v s e).state [
        | inl l ↦
            ap (replay sha256 _ _) l.journal
            ∙ (replay-header sha256 _ _ l.network_fits l.validator_fits l.body
                ∙ replay_records-enough sha256 sized l.fuel _ fresh_memory _ l.body
                    (omega (arith, length-append (header_layout _ _) l.body)) l.replayed)
        | inr dead ↦ absurd (cc (sym alive ∙ dead.stopped))
      ]
