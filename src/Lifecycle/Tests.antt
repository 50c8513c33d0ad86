-- ===== src/Lifecycle/Tests.antt =====
-- An attempt that is dialed, established, and stopped.
use transferly.Prelude.{◌≡◌, refl, ◌⊎◌, ◌<◌, false, true, none, some, ℕ, arith}
use transferly.Protocol.{Role, inbound, outbound}
use transferly.Lifecycle.{
  connecting, serving, ended, Host, change, update, phase_of, phase_at, add_link, stops,
  has_address, begin_attempt, announce, attach_connection, go_on_attached, connected, establish,
  end_session, stop_current, disconnect, shutdown, begins, withdraws, connects, opens, ends,
  Reaches, here, later, start,
}
use transferly.Lifecycle.Serving.{Reaches-serving}
use transferly.Lifecycle.Ends.{connected-disconnect}
use transferly.Lifecycle.Race.{announce-end_session}
use transferly.Lifecycle.Shutdown.{shutdown-Reaches}

abbrev begun : Host
begun = (begin_attempt outbound start).1

abbrev dialing : Host
dialing = announce 0 false connecting begun

abbrev attached : Host
attached = connected 0 dialing

abbrev served : Host
served = establish 0 attached

served_reached : Reaches start served
unfolding begin_attempt announce connected attach_connection go_on_attached establish has_address
    stops change update phase_of add_link
served_reached =
    later attached served
      (later dialing attached
        (later begun dialing (later start begun here (begins outbound)) (withdraws 0 refl))
        (connects 0 refl))
      (opens 0 refl)

served-phase : phase_at 0 served ≡ some serving
unfolding begin_attempt announce connected attach_connection go_on_attached establish has_address
    stops change update phase_of add_link
served-phase = refl

served-current : (served.current ≡ some 0) × (served.closed ≡ false) × (served.next ≡ 1)
unfolding begin_attempt announce connected attach_connection go_on_attached establish has_address
    stops change update add_link
served-current = (refl, refl, refl)

served-next : 0 < served.next
unfolding begin_attempt announce connected attach_connection go_on_attached establish has_address
    stops change update add_link
served-next = ground arith

dialing-held : dialing.current ≡ some 0
unfolding begin_attempt announce
dialing-held = refl

dialing-phase : phase_at 0 dialing ≡ some connecting
unfolding begin_attempt announce change update phase_of add_link
dialing-phase = refl

abbrev first : ℕ
first = 0

Reaches-serving_example : (first ≡ first) × (served.current ≡ some 0)
Reaches-serving_example =
    Reaches-serving served served_reached served-current.1 0 0 served-phase served-phase

connected-disconnect_example :
    (((connected 0 (disconnect dialing)).current ≡ some 0)
      × ((role : Role) → (begin_attempt role (connected 0 (disconnect dialing))).0 ≡ none))
    ⊎ ((connected 0 (disconnect dialing)).closed ≡ true)
connected-disconnect_example =
    connected-disconnect 0 dialing dialing-held dialing-phase (connected 0 (disconnect dialing))
      here

announce-end_session_example :
    (g : Host) × Reaches served g
    × (g
        ≡ announce 0 true ended (
            announce served.next false connecting (begin_attempt inbound (end_session 0 served)).1))
    × (g.available ≡ true)
    × (g.current ≡ some served.next)
    × (phase_at served.next g ≡ some connecting)
    × (phase_at 0 g ≡ some ended)
announce-end_session_example =
    announce-end_session inbound 0 served served-current.0 served-current.1 served-phase served-next

shut-phase : phase_at 0 (shutdown served) ≡ some serving
unfolding begin_attempt announce connected attach_connection go_on_attached establish has_address
    stops change update phase_of add_link stop_current shutdown
shut-phase = refl

shut_reached : Reaches (shutdown served) (end_session 0 (shutdown served))
shut_reached = later (shutdown served) (end_session 0 (shutdown served)) here (ends 0 shut-phase)

shutdown-Reaches_example :
    ((end_session 0 (shutdown served)).closed ≡ true)
    × ((end_session 0 (shutdown served)).current ≡ none)
    × ((role : Role) → (begin_attempt role (end_session 0 (shutdown served))).0 ≡ none)
    × ((c : ℕ)
        → phase_at c (end_session 0 (shutdown served)) ≡ some serving
        → phase_at c served ≡ some serving)
shutdown-Reaches_example =
    shutdown-Reaches served (end_session 0 (shutdown served)) served_reached shut_reached
