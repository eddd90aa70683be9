-- ===== src/Governance/Windows.antt =====
-- The window of a timelock: when it can be executed, and when no longer.
use zephyr_chain.Base.{
  ℕ, ◌+◌, ◌≤◌, ◌≡◌, Bool, true, false, not, ◌&&◌, ltb, leb, ◌==◌, if◌then◌else◌, arith, ok,
}
use zephyr_chain.Codec.BigEndian.{IsU64}
use zephyr_chain.Governance.{Timelock, validate_timelock, validate_min_delay, ready_at, expired_at}

-- Before, in and behind the window.
pub data Phase : Type 0 where
  waiting : Phase
  ready : Phase
  expired : Phase

-- The phase that the heights of a lock describe.
unfoldable pub phase_at : Timelock → ℕ → Phase
phase_at t height =
    if ltb height t.execute_after_height
    then waiting
    else if not (t.expires_height == 0) && leb t.expires_height height
    then expired
    else ready

unfoldable pub is_ready : Phase → Bool
is_ready ready = true
is_ready waiting = false
is_ready expired = false

unfoldable pub is_expired : Phase → Bool
is_expired expired = true
is_expired waiting = false
is_expired ready = false

-- A valid lock is in one phase at each height: `ReadyAt` and `ExpiredAt` answer by the phase, so never both.
pub ready-expired-phase :
    (t : Timelock) (height : ℕ)
    → validate_timelock t ≡ ok tt
    → (ready_at t height ≡ is_ready (phase_at t height))
      × (expired_at t height ≡ is_expired (phase_at t height))
unfolding ready_at expired_at phase_at is_ready is_expired
ready-expired-phase t height h = (ground arith, ground arith)

-- A lock that passes `ValidateMinDelay` is ready at no height below the authorized height plus the delay.
pub ready_at-delay :
    (t : Timelock) (min_delay height : ℕ)
    → IsU64 t.authorized_height
    → IsU64 t.execute_after_height
    → validate_min_delay t min_delay ≡ ok tt
    → ready_at t height ≡ true
    → t.authorized_height + min_delay ≤ height
unfolding validate_min_delay ready_at
ready_at-delay t min_delay height a e h r = ground arith
