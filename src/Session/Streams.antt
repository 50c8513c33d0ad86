-- ===== src/Session/Streams.antt =====
-- copyStreamBuffer, SendChunkChecked and ReceiveChunk. Progress is only observed and has no part here.
use transferly.Prelude.{
  ℕ, zero, suc, ◌-◌, Bool, ◌||◌, ◌++◌, Option, none, some, Bytes, ltb, ◌==◌, if◌then◌else◌, length,
  take, drop, Result, ok, fail,
}
use transferly.Prelude.Int.{ℤ, pos, negsuc}
use transferly.Session.{
  Writer, WireError, negative_size, empty_buffer, context_done, write_failed, short_write,
  short_source,
}
use transferly.Session.Frames.{write_frame}

-- What a copy leaves: its error, the unread bytes of the source, and the bytes of the destination.
pub record Copied : Type 0 where
  pub outcome : Result WireError (Unit {0})
  pub source : Bytes
  pub destination : Bytes

-- The size of the next read.
unfoldable pub chunk_of : ℕ → ℕ → ℕ
chunk_of buffer remaining = if ltb remaining buffer then remaining else buffer

-- The loop of copyStreamBuffer: `io.ReadFull` of a chunk, then one `Write` of what was read. A source that
-- ends inside a chunk has its last bytes written before the copy fails. `done` is whether the context
-- is done before each round. As the buffer is not empty, as many rounds as there are bytes are enough.
unfoldable pub copy_loop : (ℕ → Bool) → Writer → ℕ → ℕ → ℕ → ℕ → Bytes → Bytes → Copied
unfolding chunk_of
copy_loop done w buffer zero call remaining source destination = record {
  outcome = ok tt;
  source = source;
  destination = destination;
}
copy_loop done w buffer (suc fuel) call remaining source destination =
    let chunk = chunk_of buffer remaining in
    let read = take chunk source in
    let rest = drop chunk source in
    let count = (w call read).count in
    let out = destination ++ take count read in
    let next = copy_loop done w buffer fuel (suc call) (remaining - length read) rest out in
    if remaining == 0
    then record { outcome = ok tt; source = source; destination = destination }
    else if done call
    then record { outcome = fail context_done; source = source; destination = destination }
    else if length read == 0
    then record { outcome = fail short_source; source = rest; destination = destination }
    else if (w call read).fails
    then record { outcome = fail write_failed; source = rest; destination = out }
    else if ltb count (length read) || ltb (length read) count
    then record { outcome = fail short_write; source = rest; destination = out }
    else if ltb (length read) chunk
    then record { outcome = fail short_source; source = rest; destination = out }
    else next

-- copyStreamBuffer with a buffer of `buffer` bytes
unfoldable pub copy_stream_buffer : (ℕ → Bool) → Writer → ℕ → ℕ → Bytes → Bytes → Copied
copy_stream_buffer done w buffer size source destination =
    if buffer == 0
    then record { outcome = fail empty_buffer; source = source; destination = destination }
    else copy_loop done w buffer size 0 size source destination

-- The content follows its header, unless that could not be written.
unfoldable pub after_header :
    (ℕ → Bool) → Writer → ℕ → ℕ → Bytes → Result WireError (Unit {0}) × Bytes → Copied
after_header done w buffer size source (fail e, wire) = record {
  outcome = fail e;
  source = source;
  destination = wire;
}
after_header done w buffer size source (ok u, wire) =
    copy_stream_buffer done w buffer size source wire

-- SendChunkChecked; `buffer` is the length of the send buffer.
unfoldable pub send_chunk_checked {ℓ} :
    {M : Type ℓ}
    → (M → Option Bytes)
    → (ℕ → Bool)
    → Writer
    → ℕ
    → M
    → ℤ
    → Bytes
    → Option WireError
    → Bytes
    → Copied
send_chunk_checked marshal done w buffer header (negsuc n) source ready wire = record {
  outcome = fail negative_size;
  source = source;
  destination = wire;
}
send_chunk_checked marshal done w buffer header (pos size) source (some e) wire = record {
  outcome = fail e;
  source = source;
  destination = wire;
}
send_chunk_checked marshal done w buffer header (pos size) source none wire =
    after_header done w buffer size source (write_frame marshal w header wire)

-- ReceiveChunk: the wire is the source.
unfoldable pub receive_chunk : (ℕ → Bool) → Writer → ℕ → ℤ → Bytes → Bytes → Copied
receive_chunk done w buffer (negsuc n) wire destination = record {
  outcome = fail negative_size;
  source = wire;
  destination = destination;
}
receive_chunk done w buffer (pos size) wire destination =
    copy_stream_buffer done w buffer size wire destination
