-- ===== src/Session/Tests.antt =====
-- The theorems on the wire and on the opening of a session, at small messages. The messages of the wire are
-- texts here: a text is its own encoding.
use transferly.Prelude.{
  ℕ, ◌≡◌, ◌≤◌, ◌<◌, ◌+◌, ◌%◌, ◌++◌, ◌⊎◌, refl, Bool, true, false, [], ◌∷◌, List, Option, none, some,
  Bytes, codes, ok, fail, length, take, drop, All, arith,
}
use transferly.Prelude.Int.{pos}
use transferly.Protocol.{outbound}
use transferly.Session.{Version, Writer, frame_too_large, maximum_frame_bytes}
use transferly.Session.Frames.{
  write_frame, write_bytes, frame, write_all, read_json_frame, write_frame-read_json_frame,
  write_frame-bound,
}
use transferly.Session.Streams.{
  copy_stream_buffer, copy_loop, chunk_of, after_header, send_chunk_checked, receive_chunk,
}
use transferly.Session.Confirmation.{
  local, peer, ConfirmationEvent, exchange_confirmation, first_local, first_peer,
  exchange_confirmation-both,
}
use transferly.Session.Code.{
  uint32, value_of, IsDigit, verification_code_from_material,
  verification_code_from_material-digits,
}
use transferly.Session.Opening.{
  ConnectionState, Peering, IsNegotiated, IsAvailable, exchange_availability, check_availability,
  protect_and_negotiate, check_state, check_hello, confirm_code, same_int, open_session,
  open_session-verified,
}
use transferly.Session.Copies.{
  IsWhole, IsCopy, copy_stream_buffer-IsCopy, copy_stream_buffer_complete,
}
use transferly.Session.Delivery.{send_chunk_checked-receive_chunk}

abbrev marshal : Bytes → Option Bytes
marshal m = some m

-- Every line reads as the header.
abbrev header : Bytes
header = codes "head"

abbrev unmarshal : Bytes → Option Bytes
unmarshal s = some header

-- A connection that takes one byte at a time, and one that takes everything.
abbrev slow : Writer
slow call s = record { count = 1; fails = false }

abbrev whole : Writer
whole call s = record { count = length s; fails = false }

written : (write_frame marshal slow header []).0 ≡ ok tt
unfolding write_frame write_bytes frame write_all
written = refl

write_frame-read_json_frame_example :
    read_json_frame unmarshal ((write_frame marshal slow header []).1 ++ codes "rest")
    ≡ ok (header, codes "rest")
write_frame-read_json_frame_example =
    write_frame-read_json_frame marshal unmarshal slow header header (codes "rest") refl refl refl
      written

write_frame-bound_example :
    ((length header + 1 ≤ maximum_frame_bytes)
      × (write_frame marshal slow header [] ≡ (ok tt, [] ++ (header ++ 10 ∷ []))))
    ⊎ ((maximum_frame_bytes < length header + 1)
        × (write_frame marshal slow header [] ≡ (fail frame_too_large, [])))
write_frame-bound_example =
    write_frame-bound marshal slow header header []
      (record { takes_some = λ call s h. omega arith }) (record { no_error = λ call s. refl }) refl

abbrev never : ℕ → Bool
never call = false

copied : (copy_stream_buffer never whole 2 3 (codes "abcd") []).outcome ≡ ok tt
unfolding copy_stream_buffer copy_loop chunk_of
copied = refl

copy_stream_buffer-IsCopy_example :
    IsCopy 3 (codes "abcd") [] (copy_stream_buffer never whole 2 3 (codes "abcd") [])
copy_stream_buffer-IsCopy_example =
    copy_stream_buffer-IsCopy never whole 2 3 (codes "abcd") [] copied

whole-IsWhole : IsWhole whole
whole-IsWhole = record { takes_all = λ call s. refl }

copy_stream_buffer_complete_example :
    copy_stream_buffer never whole 2 3 (codes "abcd") [] ≡ record {
      outcome = ok tt;
      source = drop 3 (codes "abcd");
      destination = [] ++ take 3 (codes "abcd");
    }
copy_stream_buffer_complete_example =
    copy_stream_buffer_complete never whole 2 3 (codes "abcd") [] (omega arith) (λ call. refl)
      whole-IsWhole (omega arith)

sent :
    (send_chunk_checked marshal never whole 2 header (pos 3) (codes "abcd") none []).outcome ≡ ok tt
unfolding send_chunk_checked after_header copy_stream_buffer copy_loop chunk_of write_frame
    write_bytes frame write_all
sent = refl

send_chunk_checked-receive_chunk_example :
    (after : Bytes) × (read_json_frame unmarshal (
        (send_chunk_checked marshal never whole 2 header (pos 3) (codes "abcd") none []).destination
        ++ codes "rest")
      ≡ ok (header, after))
    × (receive_chunk never whole 2 (pos 3) after [] ≡ record {
      outcome = ok tt;
      source = codes "rest";
      destination = [] ++ take 3 (codes "abcd");
    })
send_chunk_checked-receive_chunk_example =
    send_chunk_checked-receive_chunk marshal unmarshal never never whole whole 2 3 header header
      (codes "abcd") (codes "rest") [] refl refl refl (omega arith) (λ call. refl) whole-IsWhole
      sent

abbrev events : List ConfirmationEvent
events = peer (ok true) ∷ local (ok true) ∷ []

both_confirmed : (exchange_confirmation true false false [] events).answer ≡ some (ok tt)
unfolding exchange_confirmation
both_confirmed = refl

one_waits : (exchange_confirmation true false false [] (local (ok true) ∷ [])).answer ≡ none
unfolding exchange_confirmation
one_waits = refl

exchange_confirmation-both_example :
    (first_local events ≡ some (ok true))
    × (first_peer events ≡ some (ok true))
    × ((exchange_confirmation true false false [] events).sent ≡ true ∷ [])
exchange_confirmation-both_example = exchange_confirmation-both true events both_confirmed

-- A hash that gives its argument.
abbrev same_digest : Bytes → Bytes
same_digest material = material

abbrev material : Bytes
material = 0 ∷ 0 ∷ 1 ∷ 2 ∷ []

verification_code_from_material-digits_example :
    (length (verification_code_from_material same_digest material) ≡ 6)
    × All IsDigit (verification_code_from_material same_digest material)
    × (value_of 0 (verification_code_from_material same_digest material)
        ≡ uint32 (same_digest material) % 1000000)
verification_code_from_material-digits_example =
    verification_code_from_material-digits same_digest material

abbrev version : Version
version = record { major = pos 1; minor = pos 0 }

abbrev state : ConnectionState
state = record { tls_13 = true; peer_certificates = 1; material = ok material }

abbrev peering : Peering
peering = record {
  credential = true;
  handshake = some state;
  hello_written = true;
  availability_written = true;
  confirmation_written = true;
  hello = ok (record { type = codes "hello"; version = version; accepted = none });
  availability =
      ok (record { type = codes "availability"; version = version; accepted = some true });
  events = events;
}

opened : (open_session same_digest outbound version peering).answer ≡ some (ok tt)
unfolding open_session confirm_code protect_and_negotiate check_state check_hello same_int
    exchange_availability check_availability exchange_confirmation
opened = refl

open_session-verified_example :
    (connection : ConnectionState) × (key : Bytes) × IsNegotiated version peering connection
    × IsAvailable outbound peering
    × (connection.material ≡ ok key)
    × ((open_session same_digest outbound version peering).code
        ≡ some (verification_code_from_material same_digest key))
    × (first_local events ≡ some (ok true))
    × (first_peer events ≡ some (ok true))
open_session-verified_example = open_session-verified same_digest outbound version peering opened
