-- ===== src/Idle/Tests.antt =====
-- Runs of the idle monitor, and the theorems at a session of ten idle minutes.
use transferly.Prelude.{◌+◌, ◌-◌, ◌≡◌, ◌≢◌, ◌≤◌, ◌<◌, ◌⊎◌, refl, true, false, arith}
use transferly.Idle.{
  Limits, IdleState, warned, expired, waiting, monitor_round, start_transfer, note_session_activity,
  finish_transfer_locked,
}
use transferly.Idle.Deadlines.{monitor_round-waiting, monitor_round-expired}

abbrev limits : Limits
limits = record { idle_warning_after = 10; idle_timeout_after = 15 }

abbrev idle : IdleState
idle = record {
  is_open = true;
  stopping = false;
  transfer_active = false;
  last_activity = 100;
  idle_warned = false;
}

abbrev idle_and_warned : IdleState
idle_and_warned = record idle { idle_warned = true }

not_closed_when_warned : (monitor_round limits 114 idle_and_warned).0 ≡ waiting 115
unfolding monitor_round
not_closed_when_warned = refl

closes_at_timeout : (monitor_round limits 115 idle).0 ≡ expired
unfolding monitor_round
closes_at_timeout = refl

waits : monitor_round limits 105 idle ≡ (waiting 110, idle)
unfolding monitor_round
waits = refl

monitor_round-waiting_example :
    (109 < 110 → monitor_round limits 109 idle ≡ (waiting 110, idle))
    × (110 ≤ 109
        → ((monitor_round limits 109 idle).0 ≡ warned)
          ⊎ ((monitor_round limits 109 idle).0 ≡ expired))
monitor_round-waiting_example = monitor_round-waiting limits 105 109 110 idle (omega arith) waits

monitor_round-expired_example :
    ((monitor_round limits 120 idle_and_warned).0 ≡ expired
      → (idle_and_warned.transfer_active ≡ false)
        × (limits.idle_timeout_after ≤ 120 - idle_and_warned.last_activity))
    × ((monitor_round limits 120 (start_transfer idle_and_warned)).0 ≢ expired)
    × ((monitor_round limits 120 (note_session_activity 106 idle_and_warned)).0 ≡ expired
        → 106 + limits.idle_timeout_after ≤ 120)
    × ((monitor_round limits 120 (finish_transfer_locked 106 idle_and_warned)).0 ≡ expired
        → 106 + limits.idle_timeout_after ≤ 120)
monitor_round-expired_example =
    monitor_round-expired limits 120 106 idle_and_warned refl (omega arith)
