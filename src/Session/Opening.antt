-- ===== src/Session/Opening.antt =====
-- protectAndNegotiate, exchangeAvailability, Open and RejectBusy, on what the Peer sends. The handshake
-- of crypto/tls is a parameter: what it established.
use transferly.Prelude.{
  ℕ, ◌≡◌, refl, ap, subst, ◌∙◌, Bool-cases, Bool, true, false, not, ◌||◌, List, [], Option, none,
  some, Bytes, codes, same, same→eq, if◌then◌else◌, ◌==◌, arith, Result, ok, fail, ◌>>=◌, ◌>>◌,
  reject_if, reject_if-ok, >>=-eq-ok, ◌<◌, inl, inr,
}
use transferly.Prelude.Int.{ℤ, pos, negsuc}
use transferly.Protocol.{Role, inbound, outbound}
use transferly.Session.{
  Version, WireMessage, WireError, write_failed, peer_busy, unexpected_message, version_mismatch,
  handshake_failed, credential_failed,
}
use transferly.Session.Confirmation.{
  ConfirmationEvent, exchange_confirmation, first_local, first_peer, exchange_confirmation-both,
}
use transferly.Session.Code.{verification_code_from_material}

-- `tls.ConnectionState` as far as the code reads it.
pub record ConnectionState : Type 0 where
  pub tls_13 : Bool
  pub peer_certificates : ℕ
  -- ExportKeyingMaterial
  pub material : Result WireError Bytes

-- What comes from outside while a session opens.
pub record Peering : Type 0 where
  pub credential : Bool
  pub handshake : Option ConnectionState
  -- whether each frame can be written
  pub hello_written : Bool
  pub availability_written : Bool
  pub confirmation_written : Bool
  -- what readWireFrame gives for the Peer's first two frames
  pub hello : Result WireError WireMessage
  pub availability : Result WireError WireMessage
  pub events : List ConfirmationEvent

unfoldable pub same_int : ℤ → ℤ → Bool
same_int (pos m) (pos n) = m == n
same_int (negsuc m) (negsuc n) = m == n
same_int _ _ = false

-- The tests of protectAndNegotiate on the Peer's hello.
unfoldable pub check_hello : Version → Result WireError WireMessage → Result WireError (Unit {0})
check_hello version (fail e) = fail e
check_hello version (ok m) = do
  reject_if (not (same m.type (codes "hello"))) (unexpected_message m.type)
  reject_if (not (same_int m.version.major version.major)) (version_mismatch version m.version)

unfoldable pub check_state : Option ConnectionState → Result WireError ConnectionState
check_state none = fail handshake_failed
check_state (some s) =
    if not s.tls_13 || s.peer_certificates == 0 then fail handshake_failed else ok s

-- protectAndNegotiate
unfoldable pub protect_and_negotiate : Version → Peering → Result WireError ConnectionState
protect_and_negotiate version p = do
  reject_if (not p.credential) credential_failed
  state ← check_state p.handshake
  reject_if (not p.hello_written) write_failed
  u ← check_hello version p.hello
  ok state

unfoldable pub check_availability : Result WireError WireMessage → Result WireError (Unit {0})
check_availability (fail e) = fail e
check_availability (ok m) = elim m.accepted [
  | none ↦ fail (unexpected_message m.type)
  | some available ↦
      if not (same m.type (codes "availability"))
      then fail (unexpected_message m.type)
      else if available
      then ok tt
      else fail peer_busy
]

-- exchangeAvailability
unfoldable pub exchange_availability : Role → Peering → Result WireError (Unit {0})
exchange_availability inbound p = if p.availability_written then ok tt else fail write_failed
exchange_availability outbound p = check_availability p.availability

-- What an attempt to open a session came to: the code that the users compare, if it got so far, and the
-- answer, none while the confirmations are waited for.
pub record Opened : Type 0 where
  pub code : Option Bytes
  pub answer : Option (Result WireError (Unit {0}))

-- The confirmation of a session that is protected and available.
unfoldable pub confirm_code : (Bytes → Bytes) → Peering → Result WireError Bytes → Opened
confirm_code sha p (fail e) = record { code = none; answer = some (fail e) }
confirm_code sha p (ok material) = record {
  code = some (verification_code_from_material sha material);
  answer = (exchange_confirmation p.confirmation_written false false [] p.events).answer;
}

-- Open
unfoldable pub open_session : (Bytes → Bytes) → Role → Version → Peering → Opened
open_session sha role version p =
    confirm_code sha p
      (do state ← protect_and_negotiate version p; u ← exchange_availability role p; state.material)

-- RejectBusy: the frame it sends, unless the negotiation or the write fails.
unfoldable pub reject_busy : Version → Peering → Result WireError WireMessage
reject_busy version p = do
  state ← protect_and_negotiate version p
  reject_if (not p.availability_written) write_failed
  ok (record {
    type = codes "availability";
    version = record { major = pos 0; minor = pos 0 };
    accepted = some false;
  })

-- What protectAndNegotiate has tested of a Peer.
pub record IsNegotiated (version : Version) (p : Peering) (state : ConnectionState) : Type 0 where
  pub established : p.handshake ≡ some state
  pub protected : state.tls_13 ≡ true
  pub certified : 0 < state.peer_certificates
  pub greeted :
      (m : WireMessage) × (p.hello ≡ ok m)
      × (m.type ≡ codes "hello")
      × (same_int m.version.major version.major ≡ true)

check_hello-ok :
    (version : Version) (r : Result WireError WireMessage)
    → check_hello version r ≡ ok tt
    → (m : WireMessage) × (r ≡ ok m)
      × (m.type ≡ codes "hello")
      × (same_int m.version.major version.major ≡ true)
unfolding check_hello
check_hello-ok version (fail e) h = cc
check_hello-ok version (ok m) h =
    (m, refl, same→eq m.type (codes "hello") (ground arith), ground arith)

check_state-ok :
    (handshake : Option ConnectionState) (state : ConnectionState)
    → check_state handshake ≡ ok state
    → (handshake ≡ some state) × (state.tls_13 ≡ true) × (0 < state.peer_certificates)
unfolding check_state
check_state-ok none state h = cc
check_state-ok (some s) state h = elim (Bool-cases (not s.tls_13 || s.peer_certificates == 0)) [
  | inl bad ↦ cc (rw (bad, check_state) at h)
  | inr good ↦
      let this : s ≡ state = cc (rw (good, check_state) at h) in
      subst
        (λ (x : ConnectionState). (some s ≡ some x) × (x.tls_13 ≡ true) × (0 < x.peer_certificates))
        this (refl, ground arith, ground arith)
]

negotiated :
    (version : Version) (p : Peering) (state : ConnectionState)
    → protect_and_negotiate version p ≡ ok state
    → IsNegotiated version p state
unfolding protect_and_negotiate
negotiated version p state h =
    let (_, k1) = reject_if-ok (not p.credential) credential_failed _ h in
    let (s, found, k2) = >>=-eq-ok (check_state p.handshake) _ k1 in
    let (_, k3) = reject_if-ok (not p.hello_written) write_failed _ k2 in
    let (_, greeted, k4) = >>=-eq-ok (check_hello version p.hello) _ k3 in
    let same_state : s ≡ state = cc (k4) in
    let known = check_state-ok p.handshake state (found ∙ ap ok same_state) in
    record {
      established = known.0;
      protected = known.1;
      certified = known.2;
      greeted = check_hello-ok version p.hello greeted;
    }

confirm_code-ok :
    (sha : Bytes → Bytes) (p : Peering) (r : Result WireError Bytes)
    → (confirm_code sha p r).answer ≡ some (ok tt)
    → (material : Bytes) × (r ≡ ok material)
      × ((confirm_code sha p r).code ≡ some (verification_code_from_material sha material))
      × ((exchange_confirmation p.confirmation_written false false [] p.events).answer
          ≡ some (ok tt))
unfolding confirm_code
confirm_code-ok sha p (fail e) h = cc
confirm_code-ok sha p (ok material) h = (material, refl, refl, h)

-- The side that was connected to has told the Peer that it is available, and the side that connects was told so
-- by the Peer.
abbrev pub IsAvailable : Role → Peering → Type 0
IsAvailable inbound p = p.availability_written ≡ true
IsAvailable outbound p =
    (m : WireMessage) × (p.availability ≡ ok m)
    × (m.type ≡ codes "availability")
    × (m.accepted ≡ some true)

check_availability-ok :
    (r : Result WireError WireMessage)
    → check_availability r ≡ ok tt
    → (m : WireMessage) × (r ≡ ok m) × (m.type ≡ codes "availability") × (m.accepted ≡ some true)
unfolding check_availability
check_availability-ok (fail e) h = cc
check_availability-ok (ok m) h =
    (m, refl, same→eq m.type (codes "availability") (ground arith), ground arith)

exchange_availability-ok :
    (role : Role) (p : Peering) → exchange_availability role p ≡ ok tt → IsAvailable role p
unfolding exchange_availability
exchange_availability-ok inbound p h = ground arith
exchange_availability-ok outbound p h = check_availability-ok p.availability h

-- A session opens only after a mutually authenticated TLS 1.3 handshake, with a Peer that greeted with the
-- same major version, after the side that was connected to told the other one that it is available (a Peer that
-- says it is busy is not connected to), and after the local user
-- and the Peer both confirmed the code that is derived from this very connection's keying material.
pub open_session-verified :
    (sha : Bytes → Bytes) (role : Role) (version : Version) (p : Peering)
    → (open_session sha role version p).answer ≡ some (ok tt)
    → (state : ConnectionState) × (material : Bytes) × IsNegotiated version p state
      × IsAvailable role p
      × (state.material ≡ ok material)
      × ((open_session sha role version p).code
          ≡ some (verification_code_from_material sha material))
      × (first_local p.events ≡ some (ok true))
      × (first_peer p.events ≡ some (ok true))
unfolding open_session
open_session-verified sha role version p h =
    let steps = protect_and_negotiate version p >>= λ state.
    exchange_availability role p >>= λ u. state.material in
    let (material, found, coded, exchanged) = confirm_code-ok sha p steps h in
    let (state, protected, k1) = >>=-eq-ok (protect_and_negotiate version p) _ found in
    let (_, available, derived) = >>=-eq-ok (exchange_availability role p) _ k1 in
    let both = exchange_confirmation-both p.confirmation_written p.events exchanged in
    (
      state,
      material,
      negotiated version p state protected,
      exchange_availability-ok role p available,
      derived,
      coded,
      both.0,
      both.1,
    )
