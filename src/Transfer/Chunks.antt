-- ===== src/Transfer/Chunks.antt =====
-- What sendManifestFile emits of an unchanged file that nobody cancels.
use transferly.Prelude.{
  ℕ, zero, suc, ◌+◌, ◌≡◌, ◌≤◌, ◌<◌, refl, ap, ◌∙◌, true, false, ◌⊎◌, inl, inr, List, [], ◌∷◌, ◌++◌,
  Bytes, arith, leb, ◌==◌, if◌then◌else◌, length, length-drop, take, drop, ok, Bool-cases,
  append_assoc,
}
use transferly.Protocol.{ManifestEntry}
use transferly.Receive.{stream_chunk_bytes}
use transferly.Transfer.{Frame, Weather, content_frame, chunk_size, send_chunks}

-- The content frames of a file from `offset` on: full chunks and a last one, which alone may be empty.
unfoldable pub chunk_frames : Bytes → ManifestEntry → ℕ → ℕ → Bytes → List Frame
chunk_frames id e zero offset left = []
chunk_frames id e (suc fuel) offset left =
    let n = chunk_size e offset in
    let rest = chunk_frames id e fuel (offset + n) (drop n left) in
    content_frame id e offset (take n left) ∷ (if leb e.size (offset + n) then [] else rest)

-- Nobody cancels and every send succeeds.
pub record IsCalm (weather : Weather) : Type 0 where
  pub kept : (round : ℕ) → weather.canceled round ≡ false
  pub kept_late : (round : ℕ) → weather.canceled_late round ≡ false
  pub sends : (round : ℕ) → weather.sends round ≡ true

pub chunk_size-bounds :
    (e : ManifestEntry) (offset : ℕ)
    → offset ≤ e.size
    → (offset + chunk_size e offset ≤ e.size)
      × (chunk_size e offset ≤ stream_chunk_bytes)
      × (offset < e.size → 0 < chunk_size e offset)
unfolding chunk_size
chunk_size-bounds e offset h = (ground arith, ground arith, λ l. ground arith)

send_chunks-over :
    (weather : Weather) (id : Bytes) (e : ManifestEntry) (fuel round offset : ℕ) (left : Bytes)
    (frames : List Frame)
    → e.size ≤ offset
    → 0 < offset
    → send_chunks weather id e fuel round offset left frames
      ≡ record { outcome = ok tt; frames = frames }
unfolding send_chunks
send_chunks-over weather id e zero round offset left frames h p = refl
send_chunks-over weather id e (suc fuel) round offset left frames h p = ground arith

-- One round that sends.
send_chunks-round :
    (weather : Weather) (id : Bytes) (e : ManifestEntry) (fuel round offset : ℕ) (left : Bytes)
    (frames : List Frame)
    → IsCalm weather
    → offset + length left ≡ e.size
    → (offset < e.size) ⊎ (e.size ≡ 0)
    → send_chunks weather id e (suc fuel) round offset left frames ≡ (
        if e.size == 0
        then record {
          outcome = ok tt;
          frames = frames ++ content_frame id e offset (take (chunk_size e offset) left) ∷ [];
        }
        else send_chunks weather id e fuel
            (suc round)
            (offset + chunk_size e offset)
            (drop (chunk_size e offset) left)
            (frames ++ content_frame id e offset (take (chunk_size e offset) left) ∷ []))
unfolding send_chunks
send_chunks-round weather id e fuel round offset left frames calm whole more =
    ground
      (arith, calm.kept round, calm.kept_late round, calm.sends round, chunk_size-bounds e offset)

pub send_chunks-chunk_frames :
    (weather : Weather) (id : Bytes) (e : ManifestEntry) (fuel round offset : ℕ) (left : Bytes)
    (frames : List Frame)
    → IsCalm weather
    → offset + length left ≡ e.size
    → (offset < e.size) ⊎ (e.size ≡ 0)
    → length left < fuel
    → send_chunks weather id e fuel round offset left frames
      ≡ record { outcome = ok tt; frames = frames ++ chunk_frames id e fuel offset left }
unfolding chunk_frames
send_chunks-chunk_frames weather id e zero round offset left frames calm whole more enough =
    ground arith
send_chunks-chunk_frames weather id e (suc fuel) round offset left frames calm whole more enough =
    let n = chunk_size e offset in
    let sent = frames ++ content_frame id e offset (take n left) ∷ [] in
    let bounds = chunk_size-bounds e offset (omega arith) in
    let shorter = length-drop n left in
    let step = send_chunks-round weather id e fuel round offset left frames calm whole more in
    elim (Bool-cases (e.size == 0)) [
      | inl empty ↦
          let last : leb e.size (offset + n) ≡ true = ground arith in step ∙ rw (empty, last) refl
      | inr full ↦ elim (Bool-cases (leb e.size (offset + n))) [
        | inl last ↦
            step
            ∙ rw (full, last)
                (send_chunks-over weather id e fuel (suc round) (offset + n) (drop n left) sent
                  (ground arith) (ground arith))
        | inr on ↦
            step
            ∙ rw (full, on)
                (send_chunks-chunk_frames weather id e fuel (suc round) (offset + n) (drop n left)
                    sent calm (ground arith) (inl (ground arith)) (ground arith)
                  ∙ ap (λ (fs : List Frame). record { outcome = ok tt; frames = fs })
                      (append_assoc frames (content_frame id e offset (take n left) ∷ [])
                        (chunk_frames id e fuel (offset + n) (drop n left))))
      ]
    ]
