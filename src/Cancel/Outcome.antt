-- ===== src/Cancel/Outcome.antt =====
-- Which offer a cancellation of the user's stops, and what it tells the Peer.
use transferly.Prelude.{
  ◌≡◌, Bool, true, false, ◌&&◌, ◌⊎◌, [], ◌∷◌, ◌++◌, Option, none, some, is_some, Bytes,
  if◌then◌else◌, not,
}
use transferly.Protocol.{cancel, message, sends, Attempt}
use transferly.Cancel.{cancel_active_offer}

-- The identifier of the offer that comes first, and whether it is canceled: the user's own one, whether or
-- not it is the one whose turn it is, and the incoming one only where there is no other.
abbrev pub first_offer : Attempt → Option (Bytes × Bool)
first_offer a = elim a.outgoing [
  | some o ↦ some (o.id, o.canceled)
  | none ↦ elim a.incoming [ some o ↦ some (o.id, o.canceled) | none ↦ none ]
]

-- The answer, what is marked and sent, the incoming offer, and a second cancellation.
abbrev pub CancelsOnce : Attempt → Type 0
CancelsOnce a =
    ((cancel_active_offer a).0 ≡ a.transfer_active && is_some (first_offer a))
    × (((cancel_active_offer a).0 ≡ false) × ((cancel_active_offer a).1 ≡ a)
        ⊎ (id : Bytes) × (marked : Bool) × (first_offer a ≡ some (id, marked))
          × (first_offer (cancel_active_offer a).1 ≡ some (id, true))
          × ((cancel_active_offer a).1.effects ≡ (
              if not marked && a.wire_up
              then a.effects ++ sends (message cancel id) ∷ []
              else a.effects)))
    × (is_some a.outgoing ≡ true → (cancel_active_offer a).1.incoming ≡ a.incoming)
    × (cancel_active_offer (cancel_active_offer a).1 ≡ cancel_active_offer a)
