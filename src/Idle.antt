-- ===== src/Idle.antt =====
-- internal/terminal/idle.go: a session without activity is warned of and then closed. Times are whole numbers
-- of one unit; the clock does not run backwards.
pub mod Deadlines
mod Tests
use transferly.Prelude.{
  ℕ, ◌+◌, ◌-◌, ◌≡◌, Bool, true, false, not, ◌&&◌, ◌||◌, Option, none, some, if◌then◌else◌, ltb, leb,
}

pub record Limits : Type 0 where
  pub idle_warning_after : ℕ
  pub idle_timeout_after : ℕ

-- `open` is whether the attempt is still the current one and has its session.
pub record IdleState : Type 0 where
  pub is_open : Bool
  pub stopping : Bool
  pub transfer_active : Bool
  pub last_activity : ℕ
  pub idle_warned : Bool

-- What one round of the monitor's loop ends in: it returns, waits to be woken, closes the session,
-- prints the warning and goes on, or waits for a time.
pub data Round : Type 0 where
  gone : Round
  sleeping : Round
  expired : Round
  warned : Round
  waiting : ℕ → Round

-- noteSessionActivityLocked
unfoldable pub note_session_activity_locked : ℕ → IdleState → IdleState
note_session_activity_locked now s = record s { last_activity = now; idle_warned = false }

-- noteSessionActivity
unfoldable pub note_session_activity : ℕ → IdleState → IdleState
note_session_activity now s = if s.is_open then note_session_activity_locked now s else s

-- startTransfer
unfoldable pub start_transfer : IdleState → IdleState
start_transfer s = if s.is_open then record s { transfer_active = true } else s

-- finishTransferLocked, as far as idleness goes
unfoldable pub finish_transfer_locked : ℕ → IdleState → IdleState
finish_transfer_locked now s =
    note_session_activity_locked now (record s { transfer_active = false })

-- One round of monitorIdleSession at the time `now`.
unfoldable pub monitor_round : Limits → ℕ → IdleState → Round × IdleState
monitor_round limits now s =
    let elapsed = now - s.last_activity in
    let deadline =
      s.last_activity
      + (if s.idle_warned then limits.idle_timeout_after else limits.idle_warning_after) in
    if not s.is_open || s.stopping
    then (gone, s)
    else if s.transfer_active
    then (sleeping, s)
    else if leb limits.idle_timeout_after elapsed
    then (expired, record s { stopping = true })
    else if leb limits.idle_warning_after elapsed && not s.idle_warned
    then (warned, record s { idle_warned = true })
    else (waiting deadline, s)
