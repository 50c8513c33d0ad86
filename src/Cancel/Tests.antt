-- ===== src/Cancel/Tests.antt =====
-- The theorem on cancellation at the side that connected, whose offer waits while another is received.
use transferly.Prelude.{◌≡◌, ◌++◌, refl, true, [], ◌∷◌, some}
use transferly.Protocol.{cancel, message, sends, Attempt, outbound}
use transferly.Protocol.Samples.{incoming, outgoing, session}
use transferly.Receive.Handlers.{send}
use transferly.Cancel.{cancel_active_offer}

abbrev receiving : Attempt
receiving = record session {
  role = outbound;
  incoming = some (incoming 1);
  transfer_active = true;
  outgoing = some (outgoing 2);
}

-- The waiting offer is canceled, and the one that is being received is not.
stops_waiting :
    (cancel_active_offer receiving).1.effects
    ≡ receiving.effects ++ sends (message cancel (outgoing 2).id) ∷ []
unfolding cancel_active_offer send
stops_waiting = refl
