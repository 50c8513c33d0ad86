-- ===== src/Transfer/Delivery.antt =====
-- A file from sendManifestFile to its final path: what the sender emits, the receiver takes.
use transferly.Prelude.{
  ℕ, ◌+◌, ◌≡◌, ◌≤◌, refl, sym, ap, ◌∙◌, true, false, not, ◌&&◌, [], ◌++◌, none, some, Bytes, same,
  same_refl, arith, ◌==◌, length, length-append, take-all, drop-all, Dict, lookup, insert,
  lookup-insert, ok,
}
use transferly.Prelude.Int.{pos, pos_part}
use transferly.Protocol.{Disk, Message, ManifestEntry, IncomingOffer, ReceivingFile, Attempt}
use transferly.Protocol.Exec.{continue, ◌>>=◌, stop_if, lift}
use transferly.Protocol.Errors.{invalid_chunk, repeated_outcome, content_without_offer}
use transferly.Receive.{Answers, read_chunk, stream_chunk_bytes}
use transferly.Receive.Files.{
  find_manifest_file, take_chunk, write_chunk, write_staged, start_receiving_file, has_outcome,
}
use transferly.Receive.Handlers.{
  receive_content, receive_chunk, keep_chunk, store_chunk, open_stream, accepted_offer, admitted,
  or_raise, fits,
}
use transferly.Serve.{Environment}
use transferly.Transfer.{content_frame}

-- The operating system does what it is asked for.
pub record IsWorking (answers : Answers) : Type 0 where
  pub staging_opens : answers.staging_opens ≡ true
  pub write_succeeds : answers.write_succeeds ≡ true
  pub sync_succeeds : answers.sync_succeeds ≡ true
  pub close_succeeds : answers.close_succeeds ≡ true
  pub ancestors_safe : answers.ancestors_safe ≡ true
  pub folder_made : answers.folder_made ≡ true
  pub link_succeeds : answers.link_succeeds ≡ true
  pub metadata_succeeds : answers.metadata_succeeds ≡ true

-- The stream of a file of which `came` has come.
abbrev pub stream : ManifestEntry → Bytes → ReceivingFile
stream e came = record {
  entry = e;
  staged = some came;
  is_open = true;
  digested = came;
  received = length came;
  write_failed = false;
}

take_chunk-stream :
    (answers : Answers) (e : ManifestEntry) (came chunk : Bytes)
    → IsWorking answers
    → take_chunk answers chunk (stream e came) ≡ stream e (came ++ chunk)
unfolding take_chunk write_chunk write_staged
take_chunk-stream answers e came chunk w = simp w.write_succeeds (
    ap (λ (n : ℕ). record (stream e (came ++ chunk)) { received = n })
      (sym (length-append came chunk)))

module _ (sha : Bytes → Bytes) (key : Bytes → Bytes) where
  -- What the next chunk meets: the file has no stream and nothing has come, or its stream is there.
  pub data Meets (e : ManifestEntry) (files : Dict ReceivingFile) (came : Bytes) : Type 0 where
    fresh : lookup (key e.path) files ≡ none → came ≡ [] → Meets e files came
    begun : lookup (key e.path) files ≡ some (stream e came) → Meets e files came

  open_stream-Meets :
      (answers : Answers) (m : Message) (e : ManifestEntry) (files : Dict ReceivingFile)
      (came : Bytes)
      → IsWorking answers
      → Meets e files came
      → m.offset ≡ pos (length came)
      → open_stream sha key answers m e (lookup (key e.path) files) ≡ ok (stream e came)
  unfolding open_stream start_receiving_file
  open_stream-Meets answers m e files came w (fresh missing nothing) at =
      let start : m.offset ≡ pos 0 = at ∙ ap (λ (x : Bytes). pos (length x)) nothing in
      rw (missing, open_stream) (ground (arith, start, w.staging_opens, nothing))
  open_stream-Meets answers m e files came w (begun there) at = rw there refl

  store_chunk-next :
      (answers : Answers) (m : Message) (a : Attempt) (o : IncomingOffer) (e : ManifestEntry)
      (came chunk : Bytes)
      → IsWorking answers
      → m.offset ≡ pos (length came)
      → m.size ≡ pos (length chunk)
      → store_chunk sha key answers m chunk o e (stream e came) a ≡ (
        ok [],
        record a {
          incoming = some (record o {
            receiving_files = insert (key e.path) (stream e (came ++ chunk)) o.receiving_files;
          });
        },
      )
  unfolding store_chunk keep_chunk read_chunk
  store_chunk-next answers m a o e came chunk w at size =
      let here : (length came == pos_part m.offset) ≡ true = ground (arith, at) in
      let got : read_chunk (pos_part m.size) chunk ≡ some (chunk, []) =
        rw (size, read_chunk)
          (ground (arith, take-all (length chunk) chunk, drop-all (length chunk) chunk)) in
      rw (here, store_chunk) (rw got (rw (take_chunk-stream answers e came chunk w) refl))

  module _ (env : Environment) (works : IsWorking env.answers) (o : IncomingOffer)
      (e : ManifestEntry) (disk : Disk) (accepted : o.accepted ≡ true)
      (listed : find_manifest_file o e.path ≡ some e)
      (unsettled : has_outcome key e.path o ≡ false) where
    -- The attempt while `came` of the file has come.
    pub record Holds (came : Bytes) (a : Attempt) : Type 0 where
      pub files : Dict ReceivingFile
      pub known : a.incoming ≡ some (record o { receiving_files = files })
      pub meets : Meets e files came
      pub unchanged : a.disk ≡ disk
      pub up : a.wire_up ≡ true

    abbrev pub next : Bytes → Dict ReceivingFile → Attempt → Attempt
    next came files a = record a {
      incoming = some (record o { receiving_files = insert (key e.path) (stream e came) files });
    }

    receive_chunk-next :
        (a : Attempt) (came chunk : Bytes)
        → (h : Holds came a) → length came + length chunk ≤ e.size
        → length chunk ≤ stream_chunk_bytes
        → receive_chunk sha key env.answers
            (content_frame o.id e (length came) chunk).0
            chunk
            (record o { receiving_files = h.files })
            e
            a
          ≡ (ok [], next (came ++ chunk) h.files a)
    unfolding receive_chunk content_frame
    receive_chunk-next a came chunk h within small =
        let p : IncomingOffer = record o { receiving_files = h.files } in
        let m = (content_frame o.id e (length came) chunk).0 in
        let fine : fits m e ≡ true = ground arith in
        let opened = open_stream-Meets env.answers m e h.files came works h.meets refl in
        ap
          (λ b. continue (stop_if (not b) invalid_chunk a) (λ _.
            stop_if (has_outcome key e.path p) repeated_outcome >>= λ _.
            lift (open_stream sha key env.answers m e (lookup (key e.path) h.files))
            >>= store_chunk sha key env.answers m chunk p e))
          fine
        ∙ ap
            (λ b. continue (stop_if b repeated_outcome a) (λ _.
              lift (open_stream sha key env.answers m e (lookup (key e.path) h.files))
              >>= store_chunk sha key env.answers m chunk p e))
            unsettled
        ∙ ap (λ r. continue (r, a) (store_chunk sha key env.answers m chunk p e)) opened
        ∙ store_chunk-next env.answers m a p e came chunk works refl refl

    pub receive_content-next :
        (a : Attempt) (came chunk : Bytes)
        → (h : Holds came a) → length came + length chunk ≤ e.size
        → length chunk ≤ stream_chunk_bytes
        → receive_content sha key env.answers (content_frame o.id e (length came) chunk).0 chunk a
          ≡ (ok [], next (came ++ chunk) h.files a)
    unfolding receive_content accepted_offer or_raise admitted content_frame find_manifest_file
    receive_content-next a came chunk h within small =
        let p : IncomingOffer = record o { receiving_files = h.files } in
        let m = (content_frame o.id e (length came) chunk).0 in
        let mine : (o.accepted && same o.id o.id) ≡ true =
          ground (arith, accepted, same_refl o.id) in
        let taken : admitted content_without_offer o.id a.incoming ≡ ok p =
          ap (admitted content_without_offer o.id) h.known ∙ rw (mine, admitted) refl in
        ap
          (λ r.
            continue (r, a)
              (λ o'.
                or_raise invalid_chunk (find_manifest_file o' e.path)
                >>= receive_chunk sha key env.answers m chunk o'))
          taken
        ∙ ap
            (λ x.
              continue (or_raise invalid_chunk x a) (receive_chunk sha key env.answers m chunk p))
            listed
        ∙ receive_chunk-next a came chunk h within small

    pub next-Holds :
        (a b : Attempt) (came : Bytes) (h : Holds came a) (more : Bytes)
        → b ≡ next more h.files a
        → Holds more b
    next-Holds a b came h more same_state = record {
      files = insert (key e.path) (stream e more) h.files;
      known = ap (λ (x : Attempt). x.incoming) same_state;
      meets = begun (
          ground (
            arith,
            lookup-insert (key e.path) (key e.path) (stream e more) h.files,
            same_refl (key e.path),
          ));
      unchanged = ap (λ (x : Attempt). x.disk) same_state ∙ h.unchanged;
      up = ap (λ (x : Attempt). x.wire_up) same_state ∙ h.up;
    }
