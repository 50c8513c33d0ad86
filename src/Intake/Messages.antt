-- ===== src/Intake/Messages.antt =====
-- handleIncomingManifest: the messages between the header of an offer and its last one. On an error
-- the session ends, so the state is given back only on success.
use transferly.Prelude.{
  false, [], ◌∷◌, ◌++◌, Option, none, some, Bytes, codes, leb, if◌then◌else◌, length, is_some,
  lookup, insert, delete, Result, ok, fail, ◌>>=◌,
}
use transferly.Protocol.{
  MessageType, manifest_entry, manifest_omission, offer_complete, decision, queued, Message,
  message, IncomingOffer, from_peer, sends, Attempt,
}
use transferly.Protocol.Errors.{SessionError, no_matching_offer, overlapping_offers, send_failed}
use transferly.Queue.{
  max_queued_offers, is_inbound, emit, take_coordinator_offer, start_coordinator_offer,
  start_incoming_review,
}
use transferly.Intake.{add_entry, add_omission, validate_received_manifest}

abbrev pub queue_full_reason : Bytes
queue_full_reason = codes "Transfer Offer queue is full"

-- `Send`, with what follows it.
unfoldable pub send_then : Message → (Attempt → Attempt) → Attempt → Result SessionError Attempt
send_then m next a = if a.wire_up then ok (next (emit (sends m) a)) else fail send_failed

refusal : Bytes → Message
refusal id = record (message decision id) { accepted = some false; reason = queue_full_reason }

enqueue : IncomingOffer → Attempt → Result SessionError Attempt
unfolding send_then refusal
enqueue o a =
    if leb max_queued_offers (length a.coordinator_queue)
    then send_then (refusal o.id) (λ b. b) a
    else (let (next, b) =
          take_coordinator_offer
            (record a { coordinator_queue = a.coordinator_queue ++ from_peer o ∷ [] }) in
        send_then (message queued o.id) (start_coordinator_offer next) b)

-- The end of the case `offer-complete`.
unfoldable pub admit : IncomingOffer → Attempt → Result SessionError Attempt
unfolding enqueue
admit o a =
    if is_inbound a.role
    then enqueue o a
    else if is_some a.incoming
    then fail overlapping_offers
    else ok (start_incoming_review o (record a { incoming = some o }))

module _ (key : Bytes → Bytes) where
  complete_offer : IncomingOffer → Attempt → Result SessionError Attempt
  complete_offer incoming a = do
    o ← validate_received_manifest key incoming
    admit (record o { collecting = false })
        (record a { pending_incoming = delete o.id a.pending_incoming })

  keep_pending : Attempt → Result SessionError IncomingOffer → Result SessionError Attempt
  keep_pending a r = do o ← r; ok (record a { pending_incoming = insert o.id o a.pending_incoming })

  handle_collecting : MessageType → Message → IncomingOffer → Attempt → Result SessionError Attempt
  unfolding keep_pending complete_offer
  handle_collecting manifest_entry m o a = keep_pending a (add_entry m o)
  handle_collecting manifest_omission m o a = keep_pending a (add_omission m o)
  handle_collecting offer_complete m o a = complete_offer o a
  handle_collecting _ m o a = ok a

  handle_pending : Message → Option IncomingOffer → Attempt → Result SessionError Attempt
  unfolding handle_collecting
  handle_pending m none a = fail no_matching_offer
  handle_pending m (some o) a =
      if o.collecting then handle_collecting m.type m o a else fail no_matching_offer

  unfoldable pub handle_incoming_manifest : Message → Attempt → Result SessionError Attempt
  unfolding handle_pending
  handle_incoming_manifest m a = handle_pending m (lookup m.offer_id a.pending_incoming) a
