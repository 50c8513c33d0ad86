-- ===== src/Discovery/Tests.antt =====
-- Runs of the discovery table, and its theorems at three events.
use transferly.Prelude.{
  ◌≡◌, ◌≢◌, refl, true, false, [], ◌∷◌, List, none, Bytes, codes, length, lookup,
}
use transferly.Prelude.Int.{pos}
use transferly.Discovery.{Peer, Event, Manager, apply, consume, set_available}
use transferly.Discovery.Table.{IsTable, consume-IsTable, apply-others}
use transferly.Discovery.Availability.{IsAdvertised, set_available-IsAdvertised}

abbrev manager : Manager
manager = record {
  self = codes "10.0.0.1:4000" ∷ [];
  peers = [];
  started = true;
  available = false;
  registration = none;
  live = [];
  next_registration = 0;
  changes = 0;
  errors = 0;
}

abbrev peer : Bytes → Peer
peer ipv4 = record { computer_name = codes " desk "; ipv4 = ipv4; port = pos 4000 }

abbrev seen : Bytes → Bytes → Event
seen id ipv4 = record { id = id; peer = peer ipv4; lost = false; err = none }

abbrev events : List Event
events =
    seen (codes "a") (10 ∷ 0 ∷ 0 ∷ 1 ∷ [])
    ∷ seen (codes "b") (10 ∷ 0 ∷ 0 ∷ 2 ∷ [])
    ∷ seen (codes "c") (224 ∷ 0 ∷ 0 ∷ 2 ∷ [])
    ∷ []

consume-IsTable_example : IsTable (consume events manager)
unfolding lookup
consume-IsTable_example = consume-IsTable events manager (record { at = λ id p h. cc })

apply-others_example :
    (codes "b" ≢ codes "a"
      → lookup (codes "b") (apply (seen (codes "a") (10 ∷ 0 ∷ 0 ∷ 2 ∷ [])) manager).peers
        ≡ lookup (codes "b") manager.peers)
    × (length (codes "a") ≢ 0
        → false ≡ true
        → lookup (codes "a") (apply (seen (codes "a") (10 ∷ 0 ∷ 0 ∷ 2 ∷ [])) manager).peers ≡ none)
apply-others_example = apply-others (seen (codes "a") (10 ∷ 0 ∷ 0 ∷ 2 ∷ [])) manager (codes "b")

set_available-IsAdvertised_example : IsAdvertised (set_available true false true false manager)
set_available-IsAdvertised_example =
    set_available-IsAdvertised true false true false manager
      (record { only_own = refl; while_available = λ h. refl })
