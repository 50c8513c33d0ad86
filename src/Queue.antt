-- ===== src/Queue.antt =====
-- internal/terminal/offer_control.go, and the queueing of internal/terminal/send.go and connection.go:
-- which Transfer Offer of a session is the active one, and which wait. Of the two Peers the inbound
-- one coordinates: offers of both Peers pass through its queue, one at a time.
pub mod Order
mod Tests
use transferly.Prelude.{
  ℕ, ◌+◌, ◌≡◌, Bool, true, false, not, ◌&&◌, ◌||◌, List, [], ◌∷◌, ◌++◌, map, Option, none, some,
  Bytes, codes, same, arith, ltb, leb, ◌==◌, if◌then◌else◌, length, is_some, Result, ok, fail,
}
use transferly.Prelude.Int.{ℤ, pos}
use transferly.Protocol.{
  MessageType, offer, manifest_entry, manifest_omission, offer_complete, cancel, result, decision,
  Message, message, ManifestEntry, ManifestOmission, OfferManifest, IncomingOffer, OutgoingOffer,
  QueuedOffer, from_peer, from_user, Role, inbound, outbound, Effect, sends, reviews, runs,
  delivers_decision, delivers_result, delivers_queued, notes_activity, closes, Attempt,
}

abbrev pub max_queued_offers : ℕ
max_queued_offers = 64

abbrev pub is_inbound : Role → Bool
is_inbound inbound = true
is_inbound outbound = false

abbrev pub emit : Effect → Attempt → Attempt
emit e a = record a { effects = a.effects ++ e ∷ [] }

-- `current.incoming == incoming`, a comparison of pointers.
abbrev pub is_incoming : Option IncomingOffer → ℕ → Bool
is_incoming none address = false
is_incoming (some o) address = o.address == address

abbrev pub is_outgoing : Option OutgoingOffer → ℕ → Bool
is_outgoing none address = false
is_outgoing (some o) address = o.address == address

-- finishTransferLocked
abbrev pub finish_transfer : Attempt → Attempt
finish_transfer a = emit notes_activity (record a { transfer_active = false })

take_front : List QueuedOffer → Attempt → Option QueuedOffer × Attempt
take_front [] a = (none, a)
take_front (from_peer o ∷ rest) a = (
  some (from_peer o),
  record a { coordinator_queue = rest; coordinator_active = true; incoming = some o },
)
take_front (from_user o ∷ rest) a = (
  some (from_user o),
  record a { coordinator_queue = rest; coordinator_active = true; outgoing = some o },
)

-- takeCoordinatorOfferLocked
unfoldable pub take_coordinator_offer : Attempt → Option QueuedOffer × Attempt
unfolding take_front
take_coordinator_offer a =
    if not (is_inbound a.role) || a.coordinator_active
    then (none, a)
    else take_front a.coordinator_queue a

unfoldable pub start_incoming_review : IncomingOffer → Attempt → Attempt
start_incoming_review o a =
    if is_incoming a.incoming o.address then emit (reviews o.address) a else a

unfoldable pub start_coordinator_offer : Option QueuedOffer → Attempt → Attempt
unfolding start_incoming_review
start_coordinator_offer none a = a
start_coordinator_offer (some (from_peer o)) a = start_incoming_review o a
start_coordinator_offer (some (from_user o)) a = emit (runs o.address) a

take_outgoing : List OutgoingOffer → Attempt → Option OutgoingOffer × Attempt
take_outgoing [] a = (none, a)
take_outgoing (o ∷ rest) a = (some o, record a { outgoing_queue = rest; outgoing = some o })

-- takeNextOutgoingLocked
unfoldable pub take_next_outgoing : Attempt → Option OutgoingOffer × Attempt
unfolding take_outgoing
take_next_outgoing a =
    if is_some a.incoming || is_some a.outgoing then (none, a) else take_outgoing a.outgoing_queue a

run_next : Option OutgoingOffer × Attempt → Attempt
run_next (none, a) = a
run_next (some o, a) = emit (runs o.address) a

start_next : Option QueuedOffer × Attempt → Attempt
unfolding start_coordinator_offer
start_next (next, a) = start_coordinator_offer next a

-- The end of both functions below.
unfoldable pub go_on : Attempt → Attempt
unfolding take_coordinator_offer take_next_outgoing start_next run_next
go_on a =
    if is_inbound a.role
    then start_next (take_coordinator_offer (record a { coordinator_active = false }))
    else run_next (take_next_outgoing a)

unfoldable pub clear_incoming : ℕ → Attempt → Attempt
clear_incoming address a =
    if is_incoming a.incoming address
    then go_on (record (finish_transfer a) { incoming = none })
    else a

unfoldable pub clear_outgoing : ℕ → Attempt → Attempt
clear_outgoing address a =
    if is_outgoing a.outgoing address
    then go_on (record (finish_transfer a) { outgoing = none })
    else a

-- The messages of sendManifest, in order.
entry_message : Bytes → ManifestEntry → Message
entry_message id e = record (message manifest_entry id) {
  path = e.path;
  kind = e.kind;
  size = pos e.size;
  modified = e.modified;
  read_only = e.read_only;
  hidden = e.hidden;
  digest = e.digest;
}

omission_message : Bytes → ManifestOmission → Message
omission_message id o = record (message manifest_omission id) { path = o.path; reason = o.reason }

unfoldable pub manifest_messages : OutgoingOffer → List Message
unfolding entry_message omission_message
manifest_messages o =
    record (message offer o.id) {
      root_count = pos (length o.manifest.roots);
      file_count = pos o.manifest.file_count;
      folder_count = pos o.manifest.folder_count;
      total_bytes = pos o.manifest.total_bytes;
    }
      ∷ map (entry_message o.id) o.manifest.entries
    ++ map (omission_message o.id) o.manifest.omissions
    ++ message offer_complete o.id ∷ []

-- `false` is an error of a send.
unfoldable pub send_manifest : OutgoingOffer → Attempt → Bool × Attempt
unfolding manifest_messages
send_manifest o a =
    if a.wire_up
    then (true, record a { effects = a.effects ++ map sends (manifest_messages o) })
    else (false, a)

pub data SendOutcome : Type 0 where
  queue_full queued started failed : SendOutcome

submit_inbound : OutgoingOffer → Attempt → SendOutcome × Attempt
unfolding start_next take_coordinator_offer
submit_inbound o a =
    if leb max_queued_offers (length a.coordinator_queue) then (queue_full, a) else (
      if a.coordinator_active || ltb 0 (length a.coordinator_queue) then queued else started,
      start_next (
          take_coordinator_offer
            (record a { coordinator_queue = a.coordinator_queue ++ from_user o ∷ [] })),
    )

sent_queued : Bool × Attempt → SendOutcome × Attempt
sent_queued (true, a) = (queued, a)
sent_queued (false, a) = (failed, emit closes a)

sent_first : OutgoingOffer → Bool × Attempt → SendOutcome × Attempt
unfolding clear_outgoing
sent_first o (true, a) = (started, emit (runs o.address) a)
sent_first o (false, a) = (failed, emit closes (clear_outgoing o.address a))

submit_outbound : OutgoingOffer → Attempt → SendOutcome × Attempt
unfolding send_manifest sent_queued sent_first
submit_outbound o a =
    let o' = record o { submitted = true } in
    if is_some a.outgoing
    then (if leb max_queued_offers (length a.outgoing_queue)
        then (queue_full, a)
        else sent_queued
            (send_manifest o' (record a { outgoing_queue = a.outgoing_queue ++ o' ∷ [] })))
    else sent_first o' (send_manifest o' (record a { outgoing = some o' }))

-- sendPaths, once the manifest is built and the session is still the same.
unfoldable pub submit : Bytes → OfferManifest → Attempt → SendOutcome × Attempt
unfolding submit_inbound submit_outbound
submit id manifest a =
    let o : OutgoingOffer = record {
      address = a.next_address;
      id = id;
      canceled = false;
      manifest = manifest;
      submitted = false;
    } in
    let b = record a { next_address = a.next_address + 1 } in
    if is_inbound a.role then submit_inbound o b else submit_outbound o b
