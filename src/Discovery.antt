-- ===== src/Discovery.antt =====
-- internal/discovery/discovery.go: the table of Available Peers and this Peer's own advertisement. What
-- Browse and Advertise do is a parameter: the events that come, and whether a registration is made.
pub mod Table
pub mod Availability
mod Tests
use transferly.Prelude.{
  ℕ, suc, ◌+◌, ◌≡◌, Bool, true, false, not, ◌&&◌, ◌||◌, List, [], ◌∷◌, ◌++◌, Option, none, some,
  is_some, Bytes, codes, same, if◌then◌else◌, ltb, leb, ◌==◌, length, any, all, drop, take, Dict,
  lookup, insert, delete,
}
use transferly.Prelude.Int.{ℤ, pos, negsuc}
use transferly.Text.Utf8.{runes, valid_utf8}
use transferly.Text.Space.{trim_space}
use transferly.Session.Code.{decimal}

pub record Peer : Type 0 where
  pub computer_name : Bytes
  pub ipv4 : Bytes
  pub port : ℤ

-- An event of one DNS-SD instance, or a failure to report.
pub record Event : Type 0 where
  pub id : Bytes
  pub peer : Peer
  pub lost : Bool
  pub err : Option Bytes

-- Of `changes` and `errors` it matters how much is in the channel; they hold 1 and 8. A registration is
-- named by a number, and `live` are those that are not closed.
pub record Manager : Type 0 where
  pub self : List Bytes
  pub peers : Dict Peer
  pub started : Bool
  pub available : Bool
  pub registration : Option ℕ
  pub live : List ℕ
  pub next_registration : ℕ
  pub changes : ℕ
  pub errors : ℕ

-- `strconv.Itoa`
unfoldable pub itoa : ℤ → Bytes
itoa (pos n) = decimal (suc n) n
itoa (negsuc n) = 45 ∷ decimal (suc (suc n)) (suc n)

-- `IP.String` of an address of four bytes
unfoldable pub dotted : Bytes → Bytes
dotted [] = []
dotted (a ∷ []) = decimal (suc a) a
dotted (a ∷ b ∷ s) = decimal (suc a) a ++ 46 ∷ dotted (b ∷ s)

-- Peer.Endpoint
unfoldable pub endpoint : Peer → Bytes
endpoint p = dotted p.ipv4 ++ 58 ∷ itoa p.port

-- `IP.To4` of net
unfoldable pub to4 : Bytes → Option Bytes
to4 ip =
    if length ip == 4
    then some ip
    else if length ip == 16
        && all (λ c. c == 0) (take 10 ip)
        && all (λ c. c == 255) (take 2 (drop 10 ip))
    then some (drop 12 ip)
    else none

unfoldable pub is_unspecified : Bytes → Bool
is_unspecified ip = all (λ c. c == 0) ip

unfoldable pub is_multicast : Bytes → Bool
is_multicast [] = false
is_multicast (a ∷ ip) = leb 224 a && leb a 239

-- `unicode.IsControl`
unfoldable pub is_control : ℕ → Bool
is_control c = ltb c 32 || leb 127 c && leb c 159

-- safeComputerName
unfoldable pub safe_computer_name : Bytes → Option Bytes
safe_computer_name candidate =
    let name = trim_space candidate in
    if length name == 0 || ltb 200 (length name) || not (valid_utf8 name)
    then none
    else if any is_control (runes name)
    then none
    else some name

unfoldable pub port_in_range : ℤ → Bool
port_in_range (pos n) = leb 1 n && leb n 65535
port_in_range (negsuc n) = false

-- changed
unfoldable pub changed : Manager → Manager
changed m = record m { changes = 1 }

-- report
unfoldable pub report : Manager → Manager
report m = if ltb m.errors 8 then record m { errors = m.errors + 1 } else m

-- The Peer of an event that apply takes: its address in four bytes, and its name trimmed.
unfoldable pub accepted_peer : Peer → Option Peer
accepted_peer p = elim (to4 p.ipv4) [
  | none ↦ none
  | some ipv4 ↦ elim (safe_computer_name p.computer_name) [
    | none ↦ none
    | some name ↦
        if is_unspecified ipv4 || is_multicast ipv4 || not (port_in_range p.port)
        then none
        else some (record { computer_name = name; ipv4 = ipv4; port = p.port })
  ]
]

unfoldable pub is_known : Peer → Option Peer → Bool
is_known p none = false
is_known p (some previous) =
    same previous.computer_name p.computer_name && same (endpoint previous) (endpoint p)

unfoldable pub lose : Bytes → Manager → Manager
lose id m =
    let left = record m { peers = delete id m.peers } in
    if is_some (lookup id m.peers) then changed left else left

unfoldable pub found : Bytes → Option Peer → Manager → Manager
found id none m = m
found id (some p) m =
    let added = record m { peers = insert id p m.peers } in
    if any (same (endpoint p)) m.self
    then m
    else if is_known p (lookup id m.peers)
    then added
    else changed added

-- apply
unfoldable pub apply : Event → Manager → Manager
apply e m =
    if length e.id == 0
    then m
    else if e.lost
    then lose e.id m
    else found e.id (accepted_peer e.peer) m

-- consume, on the events that come before the context is done
unfoldable pub consume : List Event → Manager → Manager
consume [] m = m
consume (e ∷ events) m = consume events (if is_some e.err then report m else apply e m)

unfoldable pub without : ℕ → List ℕ → List ℕ
without r [] = []
without r (x ∷ xs) = let rest = without r xs in if x == r then rest else x ∷ rest

unfoldable pub same_bool : Bool → Bool → Bool
same_bool true b = b
same_bool false b = not b

-- SetAvailable. `done` is whether the context is done before the advertisement, `advertised` whether one
-- is made, and `done_after` whether the context is done after it.
unfoldable pub withdraw : Manager → Manager
withdraw m = elim m.registration [
  | none ↦ m
  | some r ↦ record m { registration = none; live = without r m.live }
]

unfoldable pub advertise : Bool → Bool → Manager → Manager
advertise advertised done_after m =
    if not advertised
    then report m
    else if done_after
    then record m { next_registration = m.next_registration + 1 }
    else record m {
      registration = some m.next_registration;
      live = m.next_registration ∷ m.live;
      next_registration = m.next_registration + 1;
    }

unfoldable pub set_available : Bool → Bool → Bool → Bool → Manager → Manager
set_available available done advertised done_after m =
    let withdrawn = withdraw (record m { available = available }) in
    if not m.started || same_bool m.available available
    then m
    else if not available || done
    then withdrawn
    else advertise advertised done_after withdrawn
