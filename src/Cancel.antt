-- ===== src/Cancel.antt =====
-- internal/terminal/offer_control.go: what cancels an offer.
pub mod Outcome
mod Tests
use transferly.Prelude.{
  ℕ, suc, ◌+◌, ◌≡◌, Bool, true, false, not, ◌&&◌, ◌||◌, List, [], ◌∷◌, ◌++◌, reverse, Option, none,
  some, Bytes, codes, same, if◌then◌else◌, any, Result, ok, fail,
}
use transferly.Text.FilePath.{FilePath}
use transferly.Protocol.{
  cancel, result, Message, message, IncomingOffer, OutgoingOffer, sends, Attempt, Disk, Node,
}
use transferly.Protocol.Exec.{Exec, pure, ◌>>=◌, ◌>>◌, modify}
use transferly.Protocol.Errors.{SessionError}
use transferly.Queue.{emit, clear_incoming}
use transferly.Receive.Cleanup.{remove_received}
use transferly.Receive.Handlers.{Handler, send, result_message}

abbrev pub reason_offer_canceled : Bytes
reason_offer_canceled = codes "Transfer Offer canceled"

-- cancelActiveOffer; the session is open. The answer is whether there was an offer to cancel. Whether the
-- message can be sent is only printed.
unfoldable pub cancel_active_offer : Attempt → Bool × Attempt
cancel_active_offer a = if not a.transfer_active then (false, a) else elim a.outgoing [
  | some o ↦ if o.canceled then (true, a) else (
    true,
    (send (message cancel o.id) (record a { outgoing = some (record o { canceled = true }) })).1,
  )
  | none ↦ elim a.incoming [
    | none ↦ (false, a)
    | some o ↦ if o.canceled then (true, a) else (
      true,
      (send (message cancel o.id) (record a { incoming = some (record o { canceled = true }) })).1,
    )
  ]
]

-- The receiving side of handlePeerCancellation.
unfoldable pub stop_incoming : IncomingOffer → Handler (Unit {0})
stop_incoming o = do
  modify (remove_received (record o { canceled = true }))
  send (result_message o.id [] false reason_offer_canceled)
  modify (clear_incoming o.address)

unfoldable pub cancel_incoming : Message → Option IncomingOffer → Handler (Unit {0})
cancel_incoming m none a = (ok tt, a)
cancel_incoming m (some o) a =
    if not (same o.id m.offer_id) || not o.accepted then (ok tt, a) else stop_incoming o a

unfoldable pub cancel_either : Message → Option OutgoingOffer → Handler (Unit {0})
cancel_either m none a = cancel_incoming m a.incoming a
cancel_either m (some o) a =
    if same o.id m.offer_id
    then send (message cancel m.offer_id)
        (record a { outgoing = some (record o { canceled = true }) })
    else cancel_incoming m a.incoming a

-- handlePeerCancellation
unfoldable pub handle_peer_cancellation : Message → Handler (Unit {0})
handle_peer_cancellation m a = cancel_either m a.outgoing a

-- abortIncoming
unfoldable pub abort_incoming : Message → Attempt → Attempt
abort_incoming m a = elim a.incoming [
  | none ↦ a
  | some o ↦ if same o.id m.offer_id then clear_incoming o.address (remove_received o a) else a
]
