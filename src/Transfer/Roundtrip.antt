-- ===== src/Transfer/Roundtrip.antt =====
-- A whole file from sendManifestFile to its final place at the receiver.
use transferly.Prelude.{
  ℕ, zero, suc, ◌+◌, ◌≡◌, ◌<◌, refl, ap, ◌∙◌, true, false, ◌⊎◌, inl, inr, List, [], ◌∷◌, ◌++◌, none,
  some, Bytes, same, same_refl, arith, leb, ◌==◌, length, length-drop, take, drop, take-append-drop,
  take-all, insert, lookup, ok, Bool-cases, append-nil,
}
use transferly.Protocol.{Disk, ManifestEntry, IncomingOffer, Attempt, notes_activity}
use transferly.Queue.{emit}
use transferly.Intake.{lower_hex}
use transferly.Receive.{node_at, above}
use transferly.Receive.Removal.{IsLeft}
use transferly.Receive.Placing.{make_place-IsLeft}
use transferly.Receive.Files.{
  find_manifest_file, has_outcome, add_outcome, remove_incoming_stream, incoming_path,
}
use transferly.Receive.Handlers.{verified, check_beneath, make_place}
use transferly.Serve.{Environment, serve_message, handle_message, serve, go_on_with, then_wire}
use transferly.Transfer.{
  Frame, Weather, Source, Sent, content_frame, chunk_size, chunks_of, matches, completion,
  finish_file, send_manifest_file,
}
use transferly.Transfer.Chunks.{chunk_frames, IsCalm, chunk_size-bounds, send_chunks-chunk_frames}
use transferly.Transfer.Delivery.{IsWorking, Holds, fresh}
use transferly.Transfer.Arrival.{Full, serve-chunk_frames}
use transferly.Transfer.Completion.{
  at_place, closed, published, settled, complete_incoming_file-settled,
}

chunks_of-chunk_frames :
    (id : Bytes) (e : ManifestEntry) (fuel offset : ℕ) (left : Bytes)
    → offset + length left ≡ e.size
    → (offset < e.size) ⊎ (e.size ≡ 0)
    → length left < fuel
    → chunks_of (chunk_frames id e fuel offset left) ≡ left
unfolding chunks_of chunk_frames content_frame
chunks_of-chunk_frames id e zero offset left whole more enough = absurd (omega arith)
chunks_of-chunk_frames id e (suc fuel) offset left whole more enough =
    let n = chunk_size e offset in
    let bounds = chunk_size-bounds e offset (omega arith) in
    let shorter = length-drop n left in
    elim (Bool-cases (leb e.size (offset + n))) [
      | inl last ↦ rw last (append-nil (take n left) ∙ take-all n left (ground arith))
      | inr on ↦ rw on (
          ap (λ x. take n left ++ x)
            (chunks_of-chunk_frames id e fuel (offset + n) (drop n left) (ground arith)
              (inl (ground arith)) (ground arith))
          ∙ take-append-drop n left)
    ]

-- The source file is what was approved.
pub record IsUnchanged (sha : Bytes → Bytes) (e : ManifestEntry) (source : Source) : Type 0 where
  pub opens : source.opens ≡ true
  pub before : matches e source.before ≡ true
  pub after : matches e source.after ≡ true
  pub sized : length source.bytes ≡ e.size
  pub digest : lower_hex (sha source.bytes) ≡ lower_hex e.digest

-- The receiver has accepted an offer of the file, of which nothing has come, and has a free place for it.
pub record IsReady (sha : Bytes → Bytes) (key : Bytes → Bytes) (o : IncomingOffer)
    (e : ManifestEntry) (a : Attempt) : Type 0 where
  pub known : a.incoming ≡ some o
  pub accepted : o.accepted ≡ true
  pub listed : find_manifest_file o e.path ≡ some e
  pub missing : lookup (key e.path) o.receiving_files ≡ none
  pub unsettled : has_outcome key e.path o ≡ false
  pub beneath : check_beneath sha key o.destination (incoming_path key o e) ≡ ok tt
  pub up : a.wire_up ≡ true
  pub free : node_at (incoming_path key o e) a.disk ≡ none

module _ (sha : Bytes → Bytes) (key : Bytes → Bytes) where
  send_manifest_file-chunk_frames :
      (weather : Weather) (id : Bytes) (e : ManifestEntry) (source : Source)
      → IsCalm weather
      → IsUnchanged sha e source
      → send_manifest_file sha weather id e source ≡ record {
        outcome = ok tt;
        frames =
            chunk_frames id e (suc e.size) 0 source.bytes
            ++ (completion id e (sha source.bytes) true, []) ∷ [];
      }
  unfolding send_manifest_file finish_file
  send_manifest_file-chunk_frames weather id e source calm fixed =
      let sized = fixed.sized in
      let frames = chunk_frames id e (suc e.size) 0 source.bytes in
      let first : (0 < e.size) ⊎ (e.size ≡ 0) = elim (Bool-cases (e.size == 0)) [
        | inl empty ↦ inr (ground arith)
        | inr full ↦ inl (ground arith)
      ] in
      let whole =
        chunks_of-chunk_frames id e (suc e.size) 0 source.bytes (omega arith) first (omega arith) in
      rw (fixed.opens, fixed.before)
        (ap (finish_file sha weather id e source) (
            send_chunks-chunk_frames weather id e (suc e.size) 0 0 source.bytes [] calm
              (omega arith) first (omega arith))
          ∙ rw
              (
                whole,
                calm.kept_late (length frames),
                calm.sends (length frames),
                fixed.after,
                fixed.digest,
                same_refl (lower_hex e.digest),
              )
              refl)

  verified-completion :
      (id : Bytes) (e : ManifestEntry) (bytes : Bytes)
      → length (sha bytes) ≡ 64
      → lower_hex (sha bytes) ≡ lower_hex e.digest
      → verified sha key (completion id e (sha bytes) true) e (sha bytes) ≡ true
  unfolding verified completion
  verified-completion id e bytes sized equal = ground (
    arith,
    sized,
    same_refl (lower_hex (sha bytes)),
    ap (λ x. same x (lower_hex (sha bytes))) equal,
  )

  -- What the receiver has in the end: the file with these bytes at its final path, above which missing
  -- folders were made, and everything else as before; the file counts as completed once and takes no further
  -- outcome.
  pub record Arrived (o : IncomingOffer) (e : ManifestEntry) (bytes : Bytes) (a b : Attempt)
      : Type 0 where
    pub offer : IncomingOffer
    pub mid : Disk
    pub folders : IsLeft [] (above (incoming_path key o e)) a.disk mid
    pub placed : b.disk ≡ (incoming_path key o e, some bytes) ∷ mid
    pub known : b.incoming ≡ some offer
    pub counted : offer.completed_file ≡ o.completed_file + 1
    pub failures : offer.failed_file ≡ o.failed_file
    pub settles : has_outcome key e.path offer ≡ true

  module _ (env : Environment) (works : IsWorking env.answers) where
    serve-completion :
        (o : IncomingOffer) (e : ManifestEntry) (a b : Attempt) (bytes : Bytes)
        (ready : IsReady sha key o e a)
        → length (sha bytes) ≡ 64
        → lower_hex (sha bytes) ≡ lower_hex e.digest
        → length bytes ≡ e.size
        → Full sha key env works o e a.disk ready.accepted ready.listed ready.unsettled bytes b
        → (c : Attempt) × (serve sha key env ((completion o.id e (sha bytes) true, []) ∷ []) b
            ≡ (ok tt, c))
          × Arrived o e bytes a c
    unfolding serve serve_message handle_message completion go_on_with then_wire add_outcome
        remove_incoming_stream incoming_path
    serve-completion o e a b bytes ready hex equal sized (h, there) =
        let m = completion o.id e (sha bytes) true in
        let noted = emit notes_activity b in
        let here : node_at (incoming_path key o e) b.disk ≡ none =
          ap (node_at (incoming_path key o e)) h.unchanged ∙ ready.free in
        let p : IncomingOffer = record o {
          receiving_files = insert (key e.path) (closed e bytes) h.files;
        } in
        let done =
          complete_incoming_file-settled sha key env.answers works m o e bytes ready.accepted refl
            refl refl sized ready.listed (verified-completion o.id e bytes hex equal) ready.beneath
            noted h.files h.known there h.up here in
        (
          settled key e bytes p (at_place key env.answers e p noted),
          ap (λ r. go_on_with (serve sha key env []) (then_wire [] r)) done,
          record {
            offer = published key e bytes p;
            mid = make_place env.answers (incoming_path key o e) a.disk;
            folders = make_place-IsLeft sha key env.answers [] (incoming_path key o e) a.disk;
            placed =
                ap
                  (λ d.
                    (incoming_path key o e, some bytes)
                    ∷ make_place env.answers (incoming_path key o e) d)
                  h.unchanged;
            known = refl;
            counted = refl;
            failures = refl;
            settles = rw (same_refl (key e.path)) refl;
          },
        )

    -- An accepted offer has a file of which nothing has come, whose final path is free and beneath the
    -- destination; its source is what was approved, the digest is a hexadecimal SHA-256, nobody cancels, every
    -- send succeeds, and so does what is asked of the operating system. Then sendManifestFile succeeds, and
    -- serveSession takes all that it sent: the file stands at its final path with the bytes of the source, and
    -- is counted as completed.
    pub serve-send_manifest_file :
        (weather : Weather) (o : IncomingOffer) (e : ManifestEntry) (source : Source) (a : Attempt)
        → IsCalm weather
        → IsUnchanged sha e source
        → length (sha source.bytes) ≡ 64
        → IsReady sha key o e a
        → ((send_manifest_file sha weather o.id e source).outcome ≡ ok tt)
          × (b : Attempt) × (serve sha key env
                (send_manifest_file sha weather o.id e source).frames
                a
              ≡ (ok tt, b))
          × Arrived o e source.bytes a b
    serve-send_manifest_file weather o e source a calm fixed hex ready =
        let sent = send_manifest_file-chunk_frames weather o.id e source calm fixed in
        let sized = fixed.sized in
        let first : (0 < e.size) ⊎ (e.size ≡ 0) = elim (Bool-cases (e.size == 0)) [
          | inl empty ↦ inr (ground arith)
          | inr full ↦ inl (ground arith)
        ] in
        let start : Holds sha key env works o e a.disk ready.accepted ready.listed ready.unsettled
            [] a =
          record {
            files = o.receiving_files;
            known = ready.known;
            meets = fresh ready.missing refl;
            unchanged = refl;
            up = ready.up;
          } in
        let end : List Frame = (completion o.id e (sha source.bytes) true, []) ∷ [] in
        let (b, taken, full) =
          serve-chunk_frames sha key env works o e a.disk ready.accepted ready.listed
            ready.unsettled (suc e.size) a [] source.bytes end start (omega arith) first
            (omega arith) in
        let (c, done, arrived) =
          serve-completion o e a b source.bytes ready hex fixed.digest sized full in
        (
          ap (λ (s : Sent). s.outcome) sent,
          c,
          ap (λ (s : Sent). serve sha key env s.frames a) sent ∙ taken ∙ done,
          arrived,
        )
