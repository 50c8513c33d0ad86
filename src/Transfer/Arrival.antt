-- ===== src/Transfer/Arrival.antt =====
-- The frames of one file at the receiver: all of its content, and its publication.
use transferly.Prelude.{
  ℕ, zero, suc, ◌+◌, ◌≡◌, ◌≤◌, ◌<◌, refl, sym, ap, subst, ◌∙◌, true, false, ◌⊎◌, inl, inr, List, [],
  ◌∷◌, ◌++◌, some, Bytes, same_refl, arith, leb, length, length-append, length-drop, length-take,
  take, drop, take-append-drop, take-all, lookup, lookup-insert, ok, Bool-cases, append_assoc,
}
use transferly.Protocol.{Disk, Message, ManifestEntry, IncomingOffer, Attempt, notes_activity}
use transferly.Queue.{emit}
use transferly.Receive.{stream_chunk_bytes}
use transferly.Receive.Files.{find_manifest_file, has_outcome}
use transferly.Serve.{Environment, serve_message, handle_message, serve, go_on_with}
use transferly.Transfer.{Frame, content_frame, chunk_size}
use transferly.Transfer.Chunks.{chunk_frames, chunk_size-bounds}
use transferly.Transfer.Delivery.{IsWorking, stream, Holds, next, next-Holds, receive_content-next}

module _ (sha : Bytes → Bytes) (key : Bytes → Bytes) (env : Environment)
    (works : IsWorking env.answers) (o : IncomingOffer) (e : ManifestEntry) (disk : Disk)
    (accepted : o.accepted ≡ true) (listed : find_manifest_file o e.path ≡ some e)
    (unsettled : has_outcome key e.path o ≡ false) where
  abbrev Has : Bytes → Attempt → Type 0
  Has came a = Holds sha key env works o e disk accepted listed unsettled came a

  noted-Holds : (a : Attempt) (came : Bytes) → Has came a → Has came (emit notes_activity a)
  noted-Holds a came h = record {
    files = h.files;
    known = h.known;
    meets = h.meets;
    unchanged = h.unchanged;
    up = h.up;
  }

  -- All that came stands in the stream of the file.
  abbrev pub Full : Bytes → Attempt → Type 0
  Full came a = (h : Has came a) × (lookup (key e.path) h.files ≡ some (stream e came))

  next-Full :
      (a b : Attempt) (came more : Bytes) (h : Has came a)
      → b ≡ next sha key env works o e disk accepted listed unsettled more h.files a
      → Full more b
  next-Full a b came more h same_state = (
    next-Holds sha key env works o e disk accepted listed unsettled a b came h more same_state,
    ground (
      arith,
      lookup-insert (key e.path) (key e.path) (stream e more) h.files,
      same_refl (key e.path),
    ),
  )

  serve_content :
      (a : Attempt) (came chunk : Bytes)
      → Has came a
      → length came + length chunk ≤ e.size
      → length chunk ≤ stream_chunk_bytes
      → (b : Attempt) × (serve_message sha key env
            (content_frame o.id e (length came) chunk).0
            chunk
            a
          ≡ (ok [], b))
        × Full (came ++ chunk) b
  unfolding serve_message handle_message content_frame
  serve_content a came chunk h within small =
      let noted = emit notes_activity a in
      let g = noted-Holds a came h in
      let b =
        next sha key env works o e disk accepted listed unsettled (came ++ chunk) g.files noted in
      (
        b,
        receive_content-next sha key env works o e disk accepted listed unsettled noted came chunk g
            within small,
        next-Full noted b came (came ++ chunk) g refl,
      )

  pub serve-cons :
      (m : Message) (chunk : Bytes) (frames : List Frame) (a b : Attempt)
      → serve_message sha key env m chunk a ≡ (ok [], b)
      → serve sha key env ((m, chunk) ∷ frames) a ≡ serve sha key env frames b
  unfolding serve go_on_with
  serve-cons m chunk frames a b h = ap (go_on_with (serve sha key env frames)) h

  pub serve-chunk_frames :
      (fuel : ℕ) (a : Attempt) (came left : Bytes) (rest : List Frame)
      → Has came a
      → length came + length left ≡ e.size
      → (length came < e.size) ⊎ (e.size ≡ 0)
      → length left < fuel
      → (b : Attempt) × (serve sha key env (chunk_frames o.id e fuel (length came) left ++ rest) a
          ≡ serve sha key env rest b)
        × Full (came ++ left) b
  unfolding chunk_frames content_frame
  serve-chunk_frames zero a came left rest h whole more enough = absurd (omega arith)
  serve-chunk_frames (suc fuel) a came left rest h whole more enough =
      let n = chunk_size e (length came) in
      let bounds = chunk_size-bounds e (length came) (omega arith) in
      let size : length (take n left) ≡ n = ground (arith, length-take n left) in
      let (b, served, full) = serve_content a came (take n left) h (omega arith) (omega arith) in
      let so_far = length-append came (take n left) in
      elim (Bool-cases (leb e.size (length came + n))) [
        | inl last ↦ (
          b,
          rw last (serve-cons _ (take n left) rest a b served),
          subst (λ x. Full (came ++ x) b) (take-all n left (ground arith)) full,
        )
        | inr on ↦
            let placed : length (came ++ take n left) ≡ length came + n = omega arith in
            let shorter = length-drop n left in
            let later =
              serve-chunk_frames fuel b (came ++ take n left) (drop n left) rest full.0
                (ground arith) (inl (ground arith)) (ground arith) in
            (
              later.0,
              rw on (
                  serve-cons _ (take n left)
                    (chunk_frames o.id e fuel (length came + n) (drop n left) ++ rest) a b served
                  ∙ ap (λ k. serve sha key env (chunk_frames o.id e fuel k (drop n left) ++ rest) b)
                      (sym placed)
                  ∙ later.1),
              subst (λ x. Full x later.0)
                  (append_assoc came (take n left) (drop n left)
                    ∙ ap (λ x. came ++ x) (take-append-drop n left))
                  later.2,
            )
      ]
