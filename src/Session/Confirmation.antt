-- ===== src/Session/Confirmation.antt =====
-- exchangeConfirmation: both users have to confirm the code before a session opens.
use transferly.Prelude.{
  ◌≡◌, refl, Bool, true, false, not, List, [], ◌∷◌, Option, none, some, codes, same, if◌then◌else◌,
  Result, ok, fail,
}
use transferly.Prelude.Int.{pos}
use transferly.Session.{
  WireMessage, WireError, write_failed, context_done, local_rejected, peer_rejected,
  unexpected_message,
}

-- What the select of the loop can take next. The two results come at most once each, as each channel is
-- set to nil after it.
pub data ConfirmationEvent : Type 0 where
  cancellation : ConfirmationEvent
  local : Result WireError Bool → ConfirmationEvent
  peer : Result WireError Bool → ConfirmationEvent

-- confirmationMessage
unfoldable pub confirmation_message : Bool → WireMessage
confirmation_message accepted = record {
  type = codes "confirmation";
  version = record { major = pos 0; minor = pos 0 };
  accepted = some accepted;
}

-- The Peer's goroutine: what the frame that was read says.
unfoldable pub peer_confirmation : Result WireError WireMessage → Result WireError Bool
peer_confirmation (fail e) = fail e
peer_confirmation (ok m) = elim m.accepted [
  | none ↦ fail (unexpected_message m.type)
  | some accepted ↦
      if same m.type (codes "confirmation") then ok accepted else fail (unexpected_message m.type)
]

-- The answer of the exchange, none as long as it waits, and the confirmations that were written.
pub record Exchanged : Type 0 where
  pub answer : Option (Result WireError (Unit {0}))
  pub sent : List Bool

abbrev pub answered : Result WireError (Unit {0}) → List Bool → Exchanged
answered r sent = record { answer = some r; sent = sent }

-- The loop of exchangeConfirmation. `wire_up` is whether a frame can be written.
unfoldable pub exchange_confirmation :
    Bool → Bool → Bool → List Bool → List ConfirmationEvent → Exchanged
exchange_confirmation wire_up true true sent events = answered (ok tt) sent
exchange_confirmation wire_up true false sent [] = record { answer = none; sent = sent }
exchange_confirmation wire_up false peer_accepted sent [] = record { answer = none; sent = sent }
exchange_confirmation wire_up true false sent (cancellation ∷ events) =
    answered (fail context_done) sent
exchange_confirmation wire_up false peer_accepted sent (cancellation ∷ events) =
    answered (fail context_done) sent
exchange_confirmation wire_up true false sent (local r ∷ events) =
    exchange_confirmation wire_up true false sent events
exchange_confirmation wire_up false peer_accepted sent (local (fail e) ∷ events) =
    answered (fail e) sent
exchange_confirmation wire_up false peer_accepted sent (local (ok accepted) ∷ events) =
    let rest = exchange_confirmation wire_up true peer_accepted (accepted ∷ sent) events in
    if not wire_up
    then answered (fail write_failed) sent
    else if accepted
    then rest
    else answered (fail local_rejected) (accepted ∷ sent)
exchange_confirmation wire_up true false sent (peer (fail e) ∷ events) = answered (fail e) sent
exchange_confirmation wire_up true false sent (peer (ok accepted) ∷ events) =
    let rest = exchange_confirmation wire_up true true sent events in
    if accepted then rest else answered (fail peer_rejected) sent
exchange_confirmation wire_up false true sent (peer r ∷ events) =
    exchange_confirmation wire_up false true sent events
exchange_confirmation wire_up false false sent (peer (fail e) ∷ events) = answered (fail e) sent
exchange_confirmation wire_up false false sent (peer (ok accepted) ∷ events) =
    let rest = exchange_confirmation wire_up false true sent events in
    if accepted then rest else answered (fail peer_rejected) sent

-- The first result of each side in a sequence of events.
abbrev pub first_local : List ConfirmationEvent → Option (Result WireError Bool)
first_local [] = none
first_local (local r ∷ events) = some r
first_local (cancellation ∷ events) = first_local events
first_local (peer r ∷ events) = first_local events

abbrev pub first_peer : List ConfirmationEvent → Option (Result WireError Bool)
first_peer [] = none
first_peer (peer r ∷ events) = some r
first_peer (cancellation ∷ events) = first_peer events
first_peer (local r ∷ events) = first_peer events

-- What a successful exchange did for the local side and for the Peer's, each from before or after its result.
IsLocal : Bool → List ConfirmationEvent → List Bool → List Bool → Type 0
IsLocal true events before after = after ≡ before
IsLocal false events before after = (first_local events ≡ some (ok true)) × (after ≡ true ∷ before)

IsPeer : Bool → List ConfirmationEvent → Type 0
IsPeer true events = Unit
IsPeer false events = first_peer events ≡ some (ok true)

confirmed :
    (wire_up local_accepted peer_accepted : Bool) (sent : List Bool)
    (events : List ConfirmationEvent)
    → (exchange_confirmation wire_up local_accepted peer_accepted sent events).answer ≡ some (ok tt)
    → IsLocal local_accepted events sent
        (exchange_confirmation wire_up local_accepted peer_accepted sent events).sent
      × IsPeer peer_accepted events
unfolding exchange_confirmation IsLocal IsPeer
confirmed wire_up true true sent events h = (refl, tt)
confirmed wire_up true false sent [] h = cc
confirmed wire_up false p sent [] h = cc
confirmed wire_up true false sent (cancellation ∷ events) h = cc
confirmed wire_up false p sent (cancellation ∷ events) h = cc
confirmed wire_up true false sent (local r ∷ events) h = confirmed wire_up true false sent events h
confirmed wire_up false p sent (local (fail e) ∷ events) h = cc
confirmed false false p sent (local (ok b) ∷ events) h = cc
confirmed true false p sent (local (ok false) ∷ events) h = cc
confirmed true false true sent (local (ok true) ∷ events) h =
    let after = confirmed true true true (true ∷ sent) events h in ((refl, after.0), tt)
confirmed true false false sent (local (ok true) ∷ events) h =
    let after = confirmed true true false (true ∷ sent) events h in ((refl, after.0), after.1)
confirmed wire_up true false sent (peer (fail e) ∷ events) h = cc
confirmed wire_up true false sent (peer (ok false) ∷ events) h = cc
confirmed wire_up true false sent (peer (ok true) ∷ events) h =
    ((confirmed wire_up true true sent events h).0, refl)
confirmed wire_up false true sent (peer r ∷ events) h = confirmed wire_up false true sent events h
confirmed wire_up false false sent (peer (fail e) ∷ events) h = cc
confirmed wire_up false false sent (peer (ok false) ∷ events) h = cc
confirmed wire_up false false sent (peer (ok true) ∷ events) h =
    ((confirmed wire_up false true sent events h).0, refl)

-- A session opens only when the local user confirmed the code, which was then told to the Peer, and the
-- Peer's confirmation was received.
pub exchange_confirmation-both :
    (wire_up : Bool) (events : List ConfirmationEvent)
    → (exchange_confirmation wire_up false false [] events).answer ≡ some (ok tt)
    → (first_local events ≡ some (ok true))
      × (first_peer events ≡ some (ok true))
      × ((exchange_confirmation wire_up false false [] events).sent ≡ true ∷ [])
unfolding IsLocal IsPeer
exchange_confirmation-both wire_up events h =
    let (this, other) = confirmed wire_up false false [] events h in (this.0, other, this.1)
