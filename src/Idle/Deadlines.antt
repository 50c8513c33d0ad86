-- ===== src/Idle/Deadlines.antt =====
-- When the monitor warns and when it closes the session.
use transferly.Prelude.{ℕ, ◌+◌, ◌-◌, false, ◌≡◌, ◌≢◌, ◌≤◌, ◌<◌, true, arith, ap, ◌⊎◌}
use transferly.Idle.{
  Limits, IdleState, expired, warned, waiting, note_session_activity, note_session_activity_locked,
  start_transfer, finish_transfer_locked, monitor_round,
}

-- The time that the monitor waits for is the right one, as long as the state stays the same: at
-- every earlier time it would wait for it again, and from that time on it warns or closes the
-- session. The warning is due no later than the timeout.
pub monitor_round-waiting :
    (limits : Limits) (now later deadline : ℕ) (s : IdleState)
    → limits.idle_warning_after ≤ limits.idle_timeout_after
    → monitor_round limits now s ≡ (waiting deadline, s)
    → (later < deadline → monitor_round limits later s ≡ (waiting deadline, s))
      × (deadline ≤ later
          → ((monitor_round limits later s).0 ≡ warned)
            ⊎ ((monitor_round limits later s).0 ≡ expired))
unfolding monitor_round
monitor_round-waiting limits now later deadline s w h =
    (λ early. ground (arith, ap (λ x. x.0) h), λ due. ground (arith, ap (λ x. x.0) h))

-- An open session is closed only while no transfer is active, and only once the whole timeout has
-- passed since the last activity, whether or not the user was warned. So it is not closed
-- once a transfer has started, and, after an activity or the end of a transfer that is not in the future,
-- not before the timeout has passed since then.
pub monitor_round-expired :
    (limits : Limits) (now at : ℕ) (s : IdleState)
    → s.is_open ≡ true
    → at ≤ now
    → ((monitor_round limits now s).0 ≡ expired
        → (s.transfer_active ≡ false) × (limits.idle_timeout_after ≤ now - s.last_activity))
      × ((monitor_round limits now (start_transfer s)).0 ≢ expired)
      × ((monitor_round limits now (note_session_activity at s)).0 ≡ expired
          → at + limits.idle_timeout_after ≤ now)
      × ((monitor_round limits now (finish_transfer_locked at s)).0 ≡ expired
          → at + limits.idle_timeout_after ≤ now)
unfolding monitor_round start_transfer note_session_activity note_session_activity_locked
    finish_transfer_locked
monitor_round-expired limits now at s h past =
    (λ e. ground arith, λ e. ground arith, λ e. ground arith, λ e. ground arith)
