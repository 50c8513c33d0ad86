-- ===== src/Lifecycle.antt =====
-- internal/terminal/connection.go and internal/terminal/lifecycle.go: how attempts at a session begin and end.
-- Every function below is what the code does in one go under the lock of the App; what runs in between, in
-- other goroutines too, is any sequence of steps. Pointers to attempts are addresses.
pub mod Links
pub mod Serving
pub mod Ends
pub mod Shutdown
pub mod Race
mod Tests
use transferly.Prelude.{
  ℕ, ◌+◌, ◌≡◌, Bool, true, false, not, ◌&&◌, ◌||◌, Option, none, some, ◌==◌, if◌then◌else◌, is_some,
}
use transferly.Protocol.{Role, inbound, outbound}

-- How far the goroutine of an attempt has come: before it withdraws the advertisement, before the connection
-- is attached, within session.Open, before finishFailed, within serveSession, before it advertises again, and at its end.
pub data Phase : Type 0 where
  beginning connecting opening failing serving departing ended : Phase

pub record Link : Type 0 where
  pub role : Role
  pub phase : Phase
  pub raw : Bool
  pub secure : Bool
  pub waiting : Bool
  pub stopping : Bool
  pub canceled : Bool

-- The App, with `available` as SetAvailable of its discovery left it.
pub record Host : Type 0 where
  pub closed : Bool
  pub current : Option ℕ
  pub next : ℕ
  pub links : ℕ → Option Link
  pub available : Bool

unfoldable pub has_address : ℕ → Option ℕ → Bool
has_address c none = false
has_address c (some d) = c == d

-- `a.current == current`
abbrev pub is_current : ℕ → Host → Bool
is_current c h = has_address c h.current

unfoldable pub change : (Link → Link) → Option Link → Option Link
change f none = none
change f (some l) = some (f l)

unfoldable pub update : ℕ → (Link → Link) → (ℕ → Option Link) → ℕ → Option Link
update c f links k = let l = links k in if k == c then change f l else l

abbrev pub on_link : ℕ → (Link → Link) → Host → Host
on_link c f h = record h { links = update c f h.links }

unfoldable pub phase_of : Option Link → Option Phase
phase_of none = none
phase_of (some l) = some l.phase

abbrev pub phase_at : ℕ → Host → Option Phase
phase_at c h = phase_of (h.links c)

abbrev pub enter : Phase → Link → Link
enter phase l = record l { phase = phase }

unfoldable pub stops : Option Link → Bool
stops none = false
stops (some l) = l.stopping

abbrev pub is_stopping : ℕ → Host → Bool
is_stopping c h = stops (h.links c)

abbrev pub new_link : Role → Link
new_link role = record {
  role = role;
  phase = beginning;
  raw = false;
  secure = false;
  waiting = false;
  stopping = false;
  canceled = false;
}

unfoldable pub add_link : ℕ → Link → (ℕ → Option Link) → ℕ → Option Link
add_link c l links k = let old = links k in if k == c then some l else old

-- beginAttempt up to the unlock: the new attempt, unless there is one or the App is closed.
unfoldable pub begin_attempt : Role → Host → Option ℕ × Host
begin_attempt role h = if h.closed || is_some h.current then (none, h) else (
  some h.next,
  record h {
    current = some h.next;
    next = h.next + 1;
    links = add_link h.next (new_link role) h.links;
  },
)

-- `a.setDiscoveryAvailable(…)`, after which the goroutine goes on to the phase.
unfoldable pub announce : ℕ → Bool → Phase → Host → Host
announce c available phase h = on_link c (enter phase) (record h { available = available })

-- attachConnection
unfoldable pub attach_connection : ℕ → Host → Bool × Host
attach_connection c h =
    if not (is_current c h) || h.closed || is_stopping c h
    then (false, h)
    else (true, on_link c (λ l. record l { raw = true }) h)

-- The callers of attachConnection: where it fails they close the connection and leave.
unfoldable pub go_on_attached : ℕ → Bool × Host → Host
go_on_attached c (true, h) = on_link c (enter opening) h
go_on_attached c (false, h) = on_link c (enter ended) h

unfoldable pub connected : ℕ → Host → Host
connected c h = go_on_attached c (attach_connection c h)

-- `if a.current == current { a.current = nil }`
unfoldable pub drop_current : ℕ → Host → Host
drop_current c h = if is_current c h then record h { current = none } else h

-- What is left to do when an attempt is over: to advertise again, or nothing.
unfoldable pub rest_of : ℕ → Host → Phase
rest_of c h = if is_current c h && not h.closed then departing else ended

-- finishFailed
unfoldable pub finish_failed : ℕ → Host → Host
finish_failed c h =
    let phase = rest_of c h in
    on_link c (λ l. record l { waiting = false; canceled = true; phase = phase }) (drop_current c h)

-- The callback of establish that asks for the confirmation; where it fails, Open does.
unfoldable pub ask_confirmation : ℕ → Host → Host
ask_confirmation c h =
    if not (is_current c h) || h.closed
    then on_link c (enter failing) h
    else on_link c (λ l. record l { waiting = true }) h

-- establish once Open succeeded.
unfoldable pub establish : ℕ → Host → Host
establish c h =
    if not (is_current c h) || h.closed || is_stopping c h
    then on_link c (enter failing) h
    else on_link c (λ l. record l { secure = true; waiting = false; phase = serving }) h

-- establish once serveSession has ended.
unfoldable pub end_session : ℕ → Host → Host
end_session c h =
    let phase = rest_of c h in
    on_link c (λ l. record l { canceled = true; phase = phase }) (drop_current c h)

-- What disconnect and shutdown ask of an attempt.
abbrev pub stop : Link → Link
stop l = record l { stopping = true; canceled = true }

unfoldable pub stop_current : Option ℕ → Host → Host
stop_current none h = h
stop_current (some c) h = on_link c stop h

unfoldable pub disconnect : Host → Host
disconnect h = stop_current h.current h

unfoldable pub shutdown : Host → Host
shutdown h =
    if h.closed then h else stop_current h.current (record h { closed = true; current = none })

-- One step of any of the goroutines, or of the user.
pub data Step (h : Host) : Host → Type 0 where
  begins : (role : Role) → Step h (begin_attempt role h).1
  withdraws : (c : ℕ) → phase_at c h ≡ some beginning → Step h (announce c false connecting h)
  fails_to_dial : (c : ℕ) → phase_at c h ≡ some connecting → Step h (finish_failed c h)
  connects : (c : ℕ) → phase_at c h ≡ some connecting → Step h (connected c h)
  asks : (c : ℕ) → phase_at c h ≡ some opening → Step h (ask_confirmation c h)
  fails : (c : ℕ) → phase_at c h ≡ some failing → Step h (finish_failed c h)
  fails_to_open : (c : ℕ) → phase_at c h ≡ some opening → Step h (finish_failed c h)
  opens : (c : ℕ) → phase_at c h ≡ some opening → Step h (establish c h)
  ends : (c : ℕ) → phase_at c h ≡ some serving → Step h (end_session c h)
  advertises : (c : ℕ) → phase_at c h ≡ some departing → Step h (announce c true ended h)
  disconnects : Step h (disconnect h)
  shuts_down : Step h (shutdown h)

pub data Reaches (h : Host) : Host → Type 0 where
  here : Reaches h h
  later : (i j : Host) → Reaches h i → Step i j → Reaches h j

-- An App that has just started.
abbrev pub start : Host
start = record { closed = false; current = none; next = 0; links = λ c. none; available = true }
