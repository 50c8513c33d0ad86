-- ===== src/Receive/Chunks.antt =====
-- Chunks of one file are taken in order, and what is staged is what was digested.
use transferly.Prelude.{
  ◌≡◌, refl, subst, sym, ap, ◌∙◌, false, ◌&&◌, inl, inr, List, [], ◌∷◌, Option, none, some, Bytes,
  same, same_iff, Bool-cases, Option-cases, arith, ◌==◌, length, length-append, Dict, lookup,
  insert, lookup-insert, Result, ok, fail,
}
use transferly.Prelude.Int.{pos_part}
use transferly.Protocol.{Message, ManifestEntry, IncomingOffer, ReceivingFile, Attempt}
use transferly.Protocol.Exec.{continue, ◌>>=◌}
use transferly.Protocol.Errors.{SessionError, content_without_offer, invalid_chunk}
use transferly.Receive.{Answers, read_chunk}
use transferly.Receive.Cleanup.{cleanup_incoming}
use transferly.Receive.Files.{
  first_named, write_chunk, take_chunk, start_receiving_file, find_manifest_file, has_outcome,
}
use transferly.Receive.Handlers.{
  receive_content, receive_chunk, keep_chunk, drop_incoming, store_chunk, open_stream,
  accepted_offer, admitted, or_raise, fits,
}

-- A staged file that no write has failed for holds what was digested, and `received`
-- counts it.
pub record IsStream (f : ReceivingFile) : Type 0 where
  pub counted : f.received ≡ length f.digested
  pub staged : f.write_failed ≡ false → f.staged ≡ some f.digested

start_receiving_file-IsStream :
    (answers : Answers) (e : ManifestEntry) → IsStream (start_receiving_file answers e)
unfolding start_receiving_file
start_receiving_file-IsStream answers e = record { counted = refl; staged = λ h. ground arith }

take_chunk-IsStream :
    (answers : Answers) (chunk : Bytes) (f : ReceivingFile)
    → IsStream f
    → IsStream (take_chunk answers chunk f)
unfolding take_chunk
take_chunk-IsStream answers chunk f s = record {
  counted = ground (arith, length-append f.digested chunk);
  staged = λ h. ground (arith, s.staged);
}

take_chunk-entry :
    (answers : Answers) (chunk : Bytes) (f : ReceivingFile)
    → (take_chunk answers chunk f).entry ≡ f.entry
unfolding take_chunk
take_chunk-entry answers chunk f = ground arith

start_receiving_file-key :
    (key : Bytes → Bytes) (answers : Answers) (e : ManifestEntry)
    → key e.path ≡ key (start_receiving_file answers e).entry.path
unfolding start_receiving_file
start_receiving_file-key key answers e = refl

-- The streams of an offer, each kept under the key of its own entry.
pub record AreStreams (key : Bytes → Bytes) (files : Dict ReceivingFile) : Type 0 where
  pub at :
      (k : Bytes) (f : ReceivingFile)
      → lookup k files ≡ some f
      → IsStream f × (k ≡ key f.entry.path)

insert-AreStreams :
    (key : Bytes → Bytes) (files : Dict ReceivingFile) (f : ReceivingFile)
    → AreStreams key files
    → IsStream f
    → AreStreams key (insert (key f.entry.path) f files)
insert-AreStreams key files f a s = record {
  at = λ k g h.
      ground (
        arith,
        lookup-insert (key f.entry.path) k f files,
        a.at k g,
        same_iff (key f.entry.path) k,
      );
}

pub first_named-is_named :
    (path : Bytes) (es : List ManifestEntry) (e : ManifestEntry)
    → first_named path es ≡ some e
    → e.path ≡ path
unfolding first_named
first_named-is_named path [] e h = cc
first_named-is_named path (x ∷ es) e h =
    ground (arith, first_named-is_named path es e, same_iff x.path path)

module _ (sha : Bytes → Bytes) (key : Bytes → Bytes) where
  -- A stream that belongs to the entry of a frame.
  open_stream-IsStream :
      (answers : Answers) (m : Message) (e : ManifestEntry) (o : Option ReceivingFile)
      (f : ReceivingFile)
      → ((g : ReceivingFile) → o ≡ some g → IsStream g × (key e.path ≡ key g.entry.path))
      → open_stream sha key answers m e o ≡ ok f
      → IsStream f × (key e.path ≡ key f.entry.path)
  unfolding open_stream
  open_stream-IsStream answers m e (some g) f known h =
      subst (λ x. IsStream x × (key e.path ≡ key x.entry.path)) (cc (h)) (known g refl)
  open_stream-IsStream answers m e none f known h =
      let fresh = start_receiving_file-IsStream answers e in
      subst (λ x. IsStream x × (key e.path ≡ key x.entry.path)) (opened m h)
        (fresh, start_receiving_file-key key answers e)
    where
      opened :
          (m : Message)
          → open_stream sha key answers m e none ≡ ok f
          → start_receiving_file answers e ≡ f
      opened m h = ground arith

  -- The streams of the offer an attempt is receiving.
  pub record IsReceiving (a : Attempt) : Type 0 where
    pub streams : (o : IncomingOffer) → a.incoming ≡ some o → AreStreams key o.receiving_files

  stored :
      (o : IncomingOffer) (f : ReceivingFile) (k : Bytes) (a : Attempt)
      → AreStreams key o.receiving_files
      → IsStream f × (k ≡ key f.entry.path)
      → IsReceiving (record a {
        incoming = some (record o { receiving_files = insert k f o.receiving_files });
      })
  stored o f k a s (g, named) = record {
    streams = λ p h.
        let e : record o { receiving_files = insert k f o.receiving_files } ≡ p = cc (h) in
        subst (λ (x : IncomingOffer). AreStreams key x.receiving_files) e
          (subst (λ x. AreStreams key (insert x f o.receiving_files)) (sym named)
            (insert-AreStreams key _ f s g));
  }

  -- Where the wire ends early no offer is left.
  dropped :
      (f : ReceivingFile) (o : IncomingOffer) (e : ManifestEntry) (a : Attempt)
      → IsReceiving (drop_incoming sha key f o e a).1
  unfolding drop_incoming cleanup_incoming
  dropped f o e a = record { streams = λ p h. cc (h) }

  store_chunk-IsReceiving :
      (answers : Answers) (m : Message) (wire : Bytes) (a : Attempt) (o : IncomingOffer)
      (e : ManifestEntry) (f : ReceivingFile)
      → AreStreams key o.receiving_files
      → IsStream f × (key e.path ≡ key f.entry.path)
      → IsReceiving (store_chunk sha key answers m wire o e f a).1
  unfolding store_chunk keep_chunk
  store_chunk-IsReceiving answers m wire a o e f s (g, named) =
      elim (Bool-cases (f.received == pos_part m.offset)) [
        | inr off ↦ rw (off, store_chunk) (stored o f (key e.path) a s (g, named))
        | inl at ↦
            rw (at, store_chunk)
              (elim (Option-cases (read_chunk (pos_part m.size) wire)) [
                | inl short ↦ rw short (dropped (write_chunk answers wire f) o e _)
                | inr ((chunk, rest), got) ↦ rw got (
                    stored o _ (key e.path) a s (
                      take_chunk-IsStream answers chunk f g,
                      named
                          ∙ ap (λ (x : ManifestEntry). key x.path)
                              (sym (take_chunk-entry answers chunk f)),
                    ))
              ])
      ]

  receive_chunk-IsReceiving :
      (answers : Answers) (m : Message) (wire : Bytes) (a : Attempt) (o : IncomingOffer)
      (e : ManifestEntry)
      → AreStreams key o.receiving_files
      → IsReceiving a
      → IsReceiving (receive_chunk sha key answers m wire o e a).1
  unfolding receive_chunk
  receive_chunk-IsReceiving answers m wire a o e s r = elim (Bool-cases (fits m e)) [
    | inr off ↦ rw (off, receive_chunk) r
    | inl at ↦
        rw (at, receive_chunk)
          (elim (Bool-cases (has_outcome key e.path o)) [
            | inl repeated ↦ rw (repeated, receive_chunk) r
            | inr fresh ↦
                rw (fresh, receive_chunk)
                  (go (open_stream sha key answers m e (lookup (key e.path) o.receiving_files))
                    refl)
          ])
  ]
    where
      go :
          (q : Result SessionError ReceivingFile)
          → open_stream sha key answers m e (lookup (key e.path) o.receiving_files) ≡ q
          → IsReceiving (continue (q, a) (store_chunk sha key answers m wire o e)).1
      go (fail x) h = r
      go (ok f) h =
          store_chunk-IsReceiving answers m wire a o e f s
            (open_stream-IsStream answers m e _ f (s.at (key e.path)) h)

  pub receive_content-IsReceiving :
      (answers : Answers) (m : Message) (wire : Bytes) (a : Attempt)
      → IsReceiving a
      → IsReceiving (receive_content sha key answers m wire a).1
  unfolding receive_content accepted_offer admitted or_raise
  receive_content-IsReceiving answers m wire a r = go a.incoming refl
    where
      listed :
          (o : IncomingOffer)
          → a.incoming ≡ some o
          → IsReceiving
              (continue
                (or_raise invalid_chunk (find_manifest_file o m.path) a)
                (receive_chunk sha key answers m wire o)).1
      listed o known = elim (Option-cases (find_manifest_file o m.path)) [
        | inl unlisted ↦ rw (unlisted, or_raise) r
        | inr (e, found) ↦
            rw (found, or_raise)
              (receive_chunk-IsReceiving answers m wire a o e (r.streams o known) r)
      ]

      go :
          (x : Option IncomingOffer)
          → a.incoming ≡ x
          → IsReceiving
              (continue
                (admitted content_without_offer m.offer_id x, a)
                (λ o.
                  or_raise invalid_chunk (find_manifest_file o m.path)
                  >>= receive_chunk sha key answers m wire o)).1
      go none known = r
      go (some o) known = elim (Bool-cases (o.accepted && same o.id m.offer_id)) [
        | inr other ↦ rw (other, admitted) r
        | inl this ↦ rw (this, admitted) (listed o known)
      ]
