-- ===== src/Session.antt =====
-- internal/session/session.go: the wire of a Transfer Session. TLS is a parameter; its connection is the
-- bytes that one side wrote and the other side reads.
pub mod Frames
pub mod Streams
pub mod Copies
pub mod Delivery
pub mod Confirmation
pub mod Opening
pub mod Code
mod Tests
use transferly.Prelude.{
  ℕ, ◌≡◌, ◌≤◌, ◌<◌, Bool, true, false, Option, some, none, Bytes, length, List, [],
}
use transferly.Prelude.Int.{ℤ}

abbrev pub maximum_frame_bytes : ℕ
maximum_frame_bytes = 4096

pub record Version : Type 0 where
  pub major : ℤ
  pub minor : ℤ

-- The type is not one of a closed list: what a Peer sends is any text.
pub record WireMessage : Type 0 where
  pub type : Bytes
  pub version : Version
  pub accepted : Option Bool

pub data WireError : Type 0 where
  marshal_failed : WireError
  frame_too_large : WireError
  write_failed : WireError
  short_write : WireError
  ended : WireError
  short_source : WireError
  invalid_frame : WireError
  negative_size : WireError
  not_ready : WireError
  empty_buffer : WireError
  context_done : WireError
  local_rejected : WireError
  peer_rejected : WireError
  peer_busy : WireError
  unexpected_message : Bytes → WireError
  version_mismatch : Version → Version → WireError
  handshake_failed : WireError
  credential_failed : WireError
  confirm_failed : WireError

-- The answer of one `Write`: how many of the bytes were taken, and whether an error came with it.
pub record Written : Type 0 where
  pub count : ℕ
  pub fails : Bool

-- A writer, by the number of the call and the bytes that are offered.
abbrev pub Writer : Type 0
Writer = ℕ → Bytes → Written

-- io.Writer: an answer that reports no error has taken something of what there was.
pub record IsWriter (w : Writer) : Type 0 where
  pub takes_some : (call : ℕ) (s : Bytes) → 0 < length s → 0 < (w call s).count

pub record IsUp (w : Writer) : Type 0 where
  pub no_error : (call : ℕ) (s : Bytes) → (w call s).fails ≡ false
