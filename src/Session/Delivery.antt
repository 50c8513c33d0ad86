-- ===== src/Session/Delivery.antt =====
-- A chunk from SendChunk to ReceiveChunk.
use transferly.Prelude.{
  ℕ, ◌≡◌, ◌<◌, refl, subst, ap, ◌∙◌, Bool, false, [], ◌∷◌, ◌++◌, append_assoc, Option, none, some,
  Bytes, arith, length, length-append, length-take, take, drop, take-length, drop-length, Result,
  ok, fail,
}
use transferly.Prelude.Int.{pos}
use transferly.Text.Utf8.{has}
use transferly.Session.{Writer, WireError}
use transferly.Session.Frames.{write_frame, read_json_frame, write_frame-read_json_frame}
use transferly.Session.Streams.{copy_stream_buffer, after_header, send_chunk_checked, receive_chunk}
use transferly.Session.Copies.{
  IsCopy, IsWhole, copy_stream_buffer-IsCopy, copy_stream_buffer_complete,
}

after_header-ok :
    (done : ℕ → Bool) (w : Writer) (buffer size : ℕ) (source : Bytes)
    (framed : Result WireError (Unit {0}) × Bytes)
    → (after_header done w buffer size source framed).outcome ≡ ok tt
    → (framed.0 ≡ ok tt)
      × IsCopy size source framed.1 (after_header done w buffer size source framed)
unfolding after_header
after_header-ok done w buffer size source (fail e, wire) h = cc
after_header-ok done w buffer size source (ok u, wire) h =
    (refl, copy_stream_buffer-IsCopy done w buffer size source wire h)

-- What SendChunk wrote on an empty wire without an error, Receive and ReceiveChunk of the other side give
-- back: the header, then exactly the chunk's bytes into the destination, and the rest of the wire is left
-- for the next frame. (The header's encoding has no newline, and unmarshalling inverts it.)
pub send_chunk_checked-receive_chunk {ℓ} :
    {M : Type ℓ} (marshal : M → Option Bytes) (unmarshal : Bytes → Option M)
    (done done_there : ℕ → Bool) (w there : Writer) (buffer size : ℕ) (header : M)
    (encoded source rest destination : Bytes)
    → marshal header ≡ some encoded
    → has 10 encoded ≡ false
    → unmarshal (encoded ++ 10 ∷ []) ≡ some header
    → 0 < buffer
    → ((call : ℕ) → done_there call ≡ false)
    → IsWhole there
    → (send_chunk_checked marshal done w buffer header (pos size) source none []).outcome ≡ ok tt
    → (after : Bytes) × (read_json_frame unmarshal (
          (send_chunk_checked marshal done w buffer header (pos size) source none []).destination
          ++ rest)
        ≡ ok (header, after))
      × (receive_chunk done_there there buffer (pos size) after destination ≡ record {
        outcome = ok tt;
        source = rest;
        destination = destination ++ take size source;
      })
unfolding send_chunk_checked receive_chunk
send_chunk_checked-receive_chunk marshal unmarshal done done_there w there buffer size header
      encoded source rest destination e n u b d a h =
    let framed = write_frame marshal w header [] in
    let chunk = take size source in
    let sent = after_header-ok done w buffer size source framed h in
    let whole : length chunk ≡ size = ground (arith, sent.1.enough, length-take size source) in
    let wire : (after_header done w buffer size source framed).destination ++ rest
        ≡ framed.1 ++ (chunk ++ rest) =
      ap (λ x. x ++ rest) sent.1.copied ∙ append_assoc framed.1 chunk rest in
    let got : copy_stream_buffer done_there there buffer size (chunk ++ rest) destination ≡ record {
      outcome = ok tt;
      source = drop size (chunk ++ rest);
      destination = destination ++ take size (chunk ++ rest);
    } =
      copy_stream_buffer_complete done_there there buffer size (chunk ++ rest) destination b d a
        (ground (arith, length-append chunk rest)) in
    let left : drop size (chunk ++ rest) ≡ rest =
      subst (λ k. drop k (chunk ++ rest) ≡ rest) whole (drop-length chunk rest) in
    let taken : take size (chunk ++ rest) ≡ chunk =
      subst (λ k. take k (chunk ++ rest) ≡ chunk) whole (take-length chunk rest) in
    (
      chunk ++ rest,
      ap (read_json_frame unmarshal) wire
          ∙ write_frame-read_json_frame marshal unmarshal w header encoded (chunk ++ rest) e n u
              sent.0,
      got ∙ (λ i. record {
        outcome = ok tt;
        source = left i;
        destination = destination ++ taken i;
      }),
    )
