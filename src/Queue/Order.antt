-- ===== src/Queue/Order.antt =====
-- The coordinator's queue as a client sees it: a line of offers, the active one in front.
use transferly.Prelude.{
  ◌≡◌, ◌≤◌, ◌<◌, refl, subst, false, ◌&&◌, ◌||◌, List, [], ◌∷◌, ◌++◌, Option, none, some, Bytes,
  arith, length, length-append, is_some, append-nil,
}
use transferly.Protocol.{
  OfferManifest, IncomingOffer, OutgoingOffer, QueuedOffer, from_peer, from_user, inbound, Effect,
  reviews, runs, notes_activity, Attempt,
}
use transferly.Queue.{
  go_on, finish_transfer, max_queued_offers, clear_incoming, clear_outgoing, submit,
}

-- The offers in the order in which they get their turn.
abbrev pub active : Option IncomingOffer → Option OutgoingOffer → List QueuedOffer
active none none = []
active none (some o) = from_user o ∷ []
active (some o) none = from_peer o ∷ []
active (some o) (some p) = from_peer o ∷ from_user p ∷ []

abbrev pub line : Attempt → List QueuedOffer
line a = active a.incoming a.outgoing ++ a.coordinator_queue

-- At most one offer is active, none waits while none is active, and the queue keeps its bound.
pub record IsCoordinating (a : Attempt) : Type 0 where
  pub role : a.role ≡ inbound
  pub busy : a.coordinator_active ≡ is_some a.incoming || is_some a.outgoing
  pub single : (is_some a.incoming && is_some a.outgoing) ≡ false
  pub idle : a.coordinator_active ≡ false → a.coordinator_queue ≡ []
  pub bounded : length a.coordinator_queue ≤ max_queued_offers

-- What is started for the offer at the front of a line.
abbrev pub starts : List QueuedOffer → List Effect
starts [] = []
starts (from_peer o ∷ rest) = reviews o.address ∷ []
starts (from_user o ∷ rest) = runs o.address ∷ []

-- The call by which the code finishes an offer.
abbrev pub finish : QueuedOffer → Attempt → Attempt
finish (from_peer o) a = clear_incoming o.address a
finish (from_user o) a = clear_outgoing o.address a

-- The line of `a`, once its first offers are gone, is `rest`, and the work on `rest` has begun.
pub record IsNext (rest : List QueuedOffer) (before : List Effect) (a : Attempt) : Type 0 where
  pub coordinating : IsCoordinating a
  pub moved : line a ≡ rest
  pub told : a.effects ≡ before ++ starts rest
  pub stopped : a.transfer_active ≡ false

go_on-IsNext :
    (rest : List QueuedOffer) (a : Attempt)
    → a.role ≡ inbound
    → a.incoming ≡ none
    → a.outgoing ≡ none
    → a.transfer_active ≡ false
    → a.coordinator_queue ≡ rest
    → length rest ≤ max_queued_offers
    → IsNext rest a.effects (go_on a)
unfolding go_on
go_on-IsNext [] a r i o t q l = record {
  coordinating = ground arith;
  moved = ground arith;
  told = ground (arith, append-nil a.effects);
  stopped = ground arith;
}
go_on-IsNext (from_peer p ∷ rest) a r i o t q l = record {
  coordinating = ground arith;
  moved = ground arith;
  told = ground arith;
  stopped = ground arith;
}
go_on-IsNext (from_user p ∷ rest) a r i o t q l = record {
  coordinating = ground arith;
  moved = ground arith;
  told = ground arith;
  stopped = ground arith;
}

front_peer :
    (o : IncomingOffer) (rest : List QueuedOffer) (a : Attempt)
    → IsCoordinating a
    → line a ≡ from_peer o ∷ rest
    → (a.incoming ≡ some o) × (a.outgoing ≡ none) × (a.coordinator_queue ≡ rest)
front_peer o rest a c e = ground arith

front_user :
    (o : OutgoingOffer) (rest : List QueuedOffer) (a : Attempt)
    → IsCoordinating a
    → line a ≡ from_user o ∷ rest
    → (a.incoming ≡ none) × (a.outgoing ≡ some o) × (a.coordinator_queue ≡ rest)
front_user o rest a c e = ground arith

clear_incoming-go_on :
    (o : IncomingOffer) (a : Attempt)
    → a.incoming ≡ some o
    → clear_incoming o.address a ≡ go_on (record (finish_transfer a) { incoming = none })
unfolding clear_incoming
clear_incoming-go_on o a e = ground arith

clear_outgoing-go_on :
    (o : OutgoingOffer) (a : Attempt)
    → a.outgoing ≡ some o
    → clear_outgoing o.address a ≡ go_on (record (finish_transfer a) { outgoing = none })
unfolding clear_outgoing
clear_outgoing-go_on o a e = ground arith

-- Finishing the offer at the front of the line takes it off, changes nothing else in the line, and
-- starts the offer that is now in front, if there is one; the session is coordinated as before.
pub finish-IsNext :
    (q : QueuedOffer) (rest : List QueuedOffer) (a : Attempt)
    → IsCoordinating a
    → line a ≡ q ∷ rest
    → IsNext rest (a.effects ++ notes_activity ∷ []) (finish q a)
finish-IsNext (from_peer o) rest a c e =
    let (i, j, q) = front_peer o rest a c e in
    rw (clear_incoming-go_on o a i) (
      go_on-IsNext rest (record (finish_transfer a) { incoming = none }) c.role refl j refl q
        (subst (λ qs. length qs ≤ max_queued_offers) q c.bounded))
finish-IsNext (from_user o) rest a c e =
    let (i, j, q) = front_user o rest a c e in
    rw (clear_outgoing-go_on o a j) (
      go_on-IsNext rest (record (finish_transfer a) { outgoing = none }) c.role i refl refl q
        (subst (λ qs. length qs ≤ max_queued_offers) q c.bounded))

abbrev pub submitted : Bytes → OfferManifest → Attempt → OutgoingOffer
submitted id manifest a = record {
  address = a.next_address;
  id = id;
  canceled = false;
  manifest = manifest;
  submitted = false;
}

-- While there is room, an offer of the user's goes to the end of the line.
pub submit-line :
    (id : Bytes) (manifest : OfferManifest) (a : Attempt)
    → IsCoordinating a
    → length a.coordinator_queue < max_queued_offers
    → IsCoordinating (submit id manifest a).1
      × (line (submit id manifest a).1 ≡ line a ++ from_user (submitted id manifest a) ∷ [])
unfolding submit
submit-line id manifest a c room =
    let o = submitted id manifest a in
    (ground (arith, length-append a.coordinator_queue (from_user o ∷ [])), ground arith)
