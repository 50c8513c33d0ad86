-- ===== src/Serve.antt =====
-- serveSession of internal/terminal/connection.go: each control message goes to its handler, in the order in
-- which the messages came, until one of them fails. `sha` and `key` are the parameters of the handlers.
use transferly.Prelude.{
  Bool, true, false, List, [], ◌∷◌, Option, none, some, Bytes, same, if◌then◌else◌, Result, ok,
  fail,
}
use transferly.Text.FilePath.{FilePath}
use transferly.Protocol.{
  MessageType, offer, manifest_entry, manifest_omission, offer_complete, queued, decision, content,
  complete, file_failed, result, batch_complete, abort, cancel, activity, keep_alive, other_type,
  Message, OutgoingOffer, delivers_decision, delivers_result, delivers_queued, notes_activity,
  Attempt,
}
use transferly.Protocol.Errors.{
  SessionError, unexpected_frame, unknown_queued, unknown_decision, unknown_result,
}
use transferly.Queue.{emit}
use transferly.Intake.{handle_incoming_offer}
use transferly.Intake.Messages.{handle_incoming_manifest, queue_full_reason}
use transferly.Receive.{Answers}
use transferly.Receive.Handlers.{
  Handler, receive_content, complete_incoming_file, receive_file_failure, complete_incoming_batch,
}
use transferly.Cancel.{handle_peer_cancellation, abort_incoming}

unfoldable pub in_queue : Bytes → List OutgoingOffer → Option OutgoingOffer
in_queue id [] = none
in_queue id (o ∷ queue) = if same o.id id then some o else in_queue id queue

-- findOutgoingLocked
unfoldable pub find_outgoing : Bytes → Attempt → Option OutgoingOffer
find_outgoing id a = elim a.outgoing [
  | none ↦ in_queue id a.outgoing_queue
  | some o ↦ if same o.id id then some o else in_queue id a.outgoing_queue
]

-- routeQueuedOutgoing; a send on a channel is an effect.
unfoldable pub route_queued_outgoing : Bytes → Attempt → Bool × Attempt
route_queued_outgoing id a = elim (find_outgoing id a) [
  | none ↦ (false, a)
  | some o ↦ (true, emit (delivers_queued o.address true) a)
]

unfoldable pub deliver_decision : Message → Option OutgoingOffer → Attempt → Bool × Attempt
deliver_decision m none a = (false, a)
deliver_decision m (some o) a = (
  true,
  emit (delivers_decision o.address m)
      (if same m.reason queue_full_reason then emit (delivers_queued o.address false) a else a),
)

unfoldable pub deliver_result : Message → Option OutgoingOffer → Attempt → Bool × Attempt
deliver_result m none a = (false, a)
deliver_result m (some o) a =
    if same o.id m.offer_id then (true, emit (delivers_result o.address m) a) else (false, a)

-- routeOutgoing, for a decision and for a result
unfoldable pub route_outgoing : Message → Bool → Attempt → Bool × Attempt
route_outgoing m true a = deliver_decision m (find_outgoing m.offer_id a) a
route_outgoing m false a = deliver_result m a.outgoing a

-- `if !a.route…(…) { return errors.New(…) }`
unfoldable pub or_unknown : SessionError → Bool × Attempt → Result SessionError (Unit {0}) × Attempt
or_unknown e (true, a) = (ok tt, a)
or_unknown e (false, a) = (fail e, a)

-- A handler that changes nothing where it fails.
unfoldable pub all_or_nothing :
    Result SessionError Attempt → Attempt → Result SessionError (Unit {0}) × Attempt
all_or_nothing (ok b) a = (ok tt, b)
all_or_nothing (fail e) a = (fail e, a)

unfoldable pub then_wire :
    Bytes → Result SessionError (Unit {0}) × Attempt → Result SessionError Bytes × Attempt
then_wire wire (ok u, a) = (ok wire, a)
then_wire wire (fail e, a) = (fail e, a)

unfoldable pub go_on_with :
    (Attempt → Result SessionError (Unit {0}) × Attempt)
    → Result SessionError Bytes × Attempt
    → Result SessionError (Unit {0}) × Attempt
go_on_with rest (ok wire, a) = rest a
go_on_with rest (fail e, a) = (fail e, a)

-- What the environment settles for one message: the operating system's answers, the default destination,
-- and whether the folders take their metadata.
pub record Environment : Type 0 where
  pub answers : Answers
  pub destination : FilePath
  pub folders_settled : Bool

module _ (sha : Bytes → Bytes) (key : Bytes → Bytes) where
  -- The switch of serveSession. `wire` is what follows the message, and what the handler leaves of it is
  -- returned.
  unfoldable pub handle_message : Environment → MessageType → Message → Bytes → Handler Bytes
  handle_message env offer m wire a =
      then_wire wire (all_or_nothing (handle_incoming_offer env.destination m a) a)
  handle_message env manifest_entry m wire a =
      then_wire wire (all_or_nothing (handle_incoming_manifest key m a) a)
  handle_message env manifest_omission m wire a =
      then_wire wire (all_or_nothing (handle_incoming_manifest key m a) a)
  handle_message env offer_complete m wire a =
      then_wire wire (all_or_nothing (handle_incoming_manifest key m a) a)
  handle_message env queued m wire a =
      then_wire wire (or_unknown unknown_queued (route_queued_outgoing m.offer_id a))
  handle_message env decision m wire a =
      then_wire wire (or_unknown unknown_decision (route_outgoing m true a))
  handle_message env content m wire a = receive_content sha key env.answers m wire a
  handle_message env complete m wire a =
      then_wire wire (complete_incoming_file sha key env.answers m a)
  handle_message env file_failed m wire a = then_wire wire (receive_file_failure sha key m a)
  handle_message env result m wire a =
      then_wire wire (or_unknown unknown_result (route_outgoing m false a))
  handle_message env batch_complete m wire a =
      then_wire wire (complete_incoming_batch sha key env.folders_settled m a)
  handle_message env abort m wire a = (ok wire, abort_incoming m a)
  handle_message env cancel m wire a = then_wire wire (handle_peer_cancellation m a)
  handle_message env activity m wire a = (ok wire, a)
  handle_message env keep_alive m wire a = (ok wire, a)
  handle_message env (other_type t) m wire a = (fail unexpected_frame, a)

  -- One round of serveSession, with noteSessionActivity.
  unfoldable pub serve_message : Environment → Message → Bytes → Handler Bytes
  serve_message env m wire a = handle_message env m.type m wire (emit notes_activity a)

  -- serveSession over messages, each with what follows it on the wire, as long as no handler fails. (A
  -- session that ends otherwise ends as after a prefix.)
  unfoldable pub serve :
      Environment → List (Message × Bytes) → Attempt → Result SessionError (Unit {0}) × Attempt
  serve env [] a = (ok tt, a)
  serve env ((m, wire) ∷ frames) a = go_on_with (serve env frames) (serve_message env m wire a)
