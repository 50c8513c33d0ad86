-- ===== src/Transfer.antt =====
-- internal/terminal/send.go: how an accepted offer's files go out. `sha` is the hexadecimal SHA-256.
pub mod Chunks
pub mod Delivery
pub mod Arrival
pub mod Completion
pub mod Roundtrip
mod Tests
use transferly.Prelude.{
  ℕ, zero, suc, ◌+◌, ◌-◌, ◌≡◌, Bool, true, false, not, ◌&&◌, ◌||◌, List, [], ◌∷◌, ◌++◌, Option,
  none, some, Bytes, codes, same, ltb, leb, ◌==◌, if◌then◌else◌, length, take, drop, Result, ok,
  fail,
}
use transferly.Prelude.Int.{ℤ, pos, negsuc}
use transferly.Protocol.{content, complete, Message, message, ManifestEntry}
use transferly.Intake.{lower_hex, is_file}
use transferly.Receive.{stream_chunk_bytes}

-- adaptiveFileConcurrency
unfoldable pub adaptive_file_concurrency : List ManifestEntry → ℕ
adaptive_file_concurrency files =
    if length files == 0 then 0 else if ltb (length files) 4 then 1 else 4

unfoldable pub same_time : ℤ → ℤ → Bool
same_time (pos m) (pos n) = m == n
same_time (negsuc m) (negsuc n) = m == n
same_time _ _ = false

-- What `Stat` says of an open file.
pub record Stat : Type 0 where
  pub size : ℕ
  pub modified : ℤ

-- The source file while it is sent: what it says before and after, and the bytes that reads give.
pub record Source : Type 0 where
  pub opens : Bool
  pub before : Option Stat
  pub bytes : Bytes
  pub after : Option Stat

-- What happens around each chunk: whether the offer is canceled before it is read, and when the wire is
-- held; whether it can be sent. The completion is one more such round.
pub record Weather : Type 0 where
  pub canceled : ℕ → Bool
  pub canceled_late : ℕ → Bool
  pub sends : ℕ → Bool

pub data SendError : Type 0 where
  not_opened changed unreadable unsent offer_canceled : SendError

-- A control message, with the content that follows it.
abbrev pub Frame : Type 0
Frame = Message × Bytes

pub record Sent : Type 0 where
  pub outcome : Result SendError (Unit {0})
  pub frames : List Frame

unfoldable pub content_frame : Bytes → ManifestEntry → ℕ → Bytes → Frame
content_frame id e offset chunk = (
  record (message content id) { path = e.path; size = pos (length chunk); offset = pos offset },
  chunk,
)

unfoldable pub chunk_size : ManifestEntry → ℕ → ℕ
chunk_size e offset =
    if ltb (e.size - offset) stream_chunk_bytes then e.size - offset else stream_chunk_bytes

-- The loop of sendManifestFile; `left` are the bytes that are not read yet, and `frames` was sent before. As
-- each round sends a byte, or is the only one of an empty file, one round more than there are bytes is fuel
-- enough.
unfoldable pub send_chunks : Weather → Bytes → ManifestEntry → ℕ → ℕ → ℕ → Bytes → List Frame → Sent
send_chunks weather id e zero round offset left frames = record { outcome = ok tt; frames = frames }
send_chunks weather id e (suc fuel) round offset left frames =
    let n = chunk_size e offset in
    let sent = frames ++ content_frame id e offset (take n left) ∷ [] in
    let next = send_chunks weather id e fuel (suc round) (offset + n) (drop n left) sent in
    if not (ltb offset e.size || e.size == 0 && offset == 0)
    then record { outcome = ok tt; frames = frames }
    else if weather.canceled round
    then record { outcome = fail offer_canceled; frames = frames }
    else if ltb (length left) n
    then record { outcome = fail unreadable; frames = frames }
    else if weather.canceled_late round
    then record { outcome = fail offer_canceled; frames = frames }
    else if not (weather.sends round)
    then record { outcome = fail unsent; frames = frames }
    else if e.size == 0
    then record { outcome = ok tt; frames = sent }
    else next

unfoldable pub matches : ManifestEntry → Option Stat → Bool
matches e none = false
matches e (some s) = s.size == e.size && same_time s.modified e.modified

unfoldable pub chunks_of : List Frame → Bytes
chunks_of [] = []
chunks_of ((m, chunk) ∷ frames) = chunk ++ chunks_of frames

-- The message at the end of a file, which says when the source is not what was approved.
unfoldable pub completion : Bytes → ManifestEntry → Bytes → Bool → Message
completion id e digest unchanged =
    let m = record (message complete id) { path = e.path; size = pos e.size; digest = digest } in
    if unchanged
    then m
    else record m { success = some false; reason = codes "source changed after approval" }

module _ (sha : Bytes → Bytes) where
  unfoldable pub finish_file : Weather → Bytes → ManifestEntry → Source → Sent → Sent
  finish_file weather id e source sent = elim sent.outcome [
    | fail error ↦ sent
    | ok u ↦
        let digest = sha (chunks_of sent.frames) in
        let unchanged = matches e source.after && same (lower_hex digest) (lower_hex e.digest) in
        let round = length sent.frames in
        if weather.canceled_late round
        then record { outcome = fail offer_canceled; frames = sent.frames }
        else if not (weather.sends round)
        then record { outcome = fail unsent; frames = sent.frames }
        else record {
          outcome = ok tt;
          frames = sent.frames ++ (completion id e digest unchanged, []) ∷ [];
        }
  ]

  -- sendManifestFile
  unfoldable pub send_manifest_file : Weather → Bytes → ManifestEntry → Source → Sent
  send_manifest_file weather id e source =
      if not source.opens
      then record { outcome = fail not_opened; frames = [] }
      else if not (matches e source.before)
      then record { outcome = fail changed; frames = [] }
      else finish_file weather id e source
          (send_chunks weather id e (suc e.size) 0 0 source.bytes [])
