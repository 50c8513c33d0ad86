-- ===== src/Queue/Tests.antt =====
-- The theorems on the coordinator's line at an offer that waits behind another.
use transferly.Prelude.{◌≡◌, ◌++◌, refl, true, [], ◌∷◌, some, arith}
use transferly.Protocol.{from_peer, from_user, Attempt, notes_activity}
use transferly.Protocol.Samples.{session, incoming, outgoing, manifest, offer_id}
use transferly.Queue.{submit}
use transferly.Queue.Order.{
  IsCoordinating, IsNext, line, finish, submitted, finish-IsNext, submit-line,
}

abbrev busy : Attempt
busy = record session {
  incoming = some (incoming 1);
  coordinator_active = true;
  transfer_active = true;
  coordinator_queue = from_user (outgoing 2) ∷ [];
}

busy-IsCoordinating : IsCoordinating busy
busy-IsCoordinating = record {
  role = refl;
  busy = refl;
  single = refl;
  idle = λ h. cc;
  bounded = omega arith;
}

finish-IsNext_example :
    IsNext
      (from_user (outgoing 2) ∷ [])
      (busy.effects ++ notes_activity ∷ [])
      (finish (from_peer (incoming 1)) busy)
finish-IsNext_example =
    finish-IsNext (from_peer (incoming 1)) (from_user (outgoing 2) ∷ []) busy busy-IsCoordinating
      refl

submit-line_example :
    IsCoordinating (submit offer_id manifest busy).1
    × (line (submit offer_id manifest busy).1
        ≡ line busy ++ from_user (submitted offer_id manifest busy) ∷ [])
submit-line_example = submit-line offer_id manifest busy busy-IsCoordinating (omega arith)
