-- ===== src/Receive/Handlers.antt =====
-- The handlers of receive.go. `sha` is the hexadecimal SHA-256 of crypto/sha256 and encoding/hex, and
-- `key` is manifestPathKey.
use transferly.Prelude.{
  ◌+◌, ◌-◌, Bool, true, false, not, ◌&&◌, ◌||◌, [], ◌∷◌, Option, none, some, Bytes, codes, same,
  ltb, ◌==◌, if◌then◌else◌, length, is_some, lookup, insert, Result, ok, fail,
}
use transferly.Prelude.Int.{pos, ltb_ℤ, pos_part}
use transferly.Text.FilePath.{FilePath}
use transferly.Safety.{ensure_path_beneath}
use transferly.Protocol.{
  result, Message, message, ManifestEntry, IncomingOffer, ReceivingFile, sends, Attempt, Disk,
}
use transferly.Protocol.Exec.{Exec, pure, raise, lift, ◌>>=◌, ◌>>◌, modify, stop_if}
use transferly.Protocol.Errors.{
  SessionError, send_failed, content_without_offer, invalid_chunk, repeated_outcome, nonzero_start,
  out_of_order, receive_failed, completion_without_offer, invalid_completion, escaped,
  final_path_unsafe, final_folder_failed, failure_without_offer, unknown_failure,
  inconsistent_batch, folder_failed,
}
use transferly.Queue.{emit, clear_incoming}
use transferly.Intake.{lower_hex}
use transferly.Receive.{
  Answers, stream_chunk_bytes, remove_node, above, make_folders, publish, read_chunk,
}
use transferly.Receive.Cleanup.{remove_received, cleanup_incoming}
use transferly.Receive.Files.{
  find_manifest_file, start_receiving_file, write_chunk, take_chunk, close_file, incoming_path,
  remove_incoming_stream, add_outcome, has_outcome,
}

abbrev pub Handler : Type 0 → Type 0
Handler A = Exec Attempt SessionError A

-- `Send`
unfoldable pub send : Message → Handler Unit
send m a = if a.wire_up then (ok tt, emit (sends m) a) else (fail send_failed, a)

abbrev pub put_incoming : IncomingOffer → Handler Unit
put_incoming o = modify (λ a. record a { incoming = some o })

unfoldable pub admitted :
    SessionError → Bytes → Option IncomingOffer → Result SessionError IncomingOffer
admitted e id none = fail e
admitted e id (some o) = if o.accepted && same o.id id then ok o else fail e

-- `incoming == nil || !incoming.accepted || incoming.id != message.OfferID`
unfoldable pub accepted_offer : SessionError → Bytes → Handler IncomingOffer
unfolding admitted
accepted_offer e id a = (admitted e id a.incoming, a)

unfoldable pub or_raise : {A : Type 0} → SessionError → Option A → Handler A
or_raise e none a = (fail e, a)
or_raise e (some x) a = (ok x, a)

-- A result for one file of the offer, or with an empty path for the whole of it.
abbrev pub result_message : Bytes → Bytes → Bool → Bytes → Message
result_message id path success reason = record (message result id) {
  path = path;
  success = some success;
  reason = reason;
}

abbrev pub fits : Message → ManifestEntry → Bool
fits m e = not (
    ltb_ℤ m.size (pos 0)
    || ltb_ℤ (pos stream_chunk_bytes) m.size
    || ltb_ℤ m.offset (pos 0)
    || ltb_ℤ (pos e.size) m.offset
    || ltb (e.size - pos_part m.offset) (pos_part m.size))

-- The texts of the failures are cut at their first colon.
abbrev pub write_failure : Bytes
write_failure = codes "destination write failed"

abbrev pub metadata_failure : Bytes
metadata_failure = codes "destination metadata write failed"

abbrev pub reason_or : Bytes → Bytes
reason_or [] = codes "size or SHA-256 integrity check failed"
reason_or (c ∷ s) = c ∷ s

-- rejectReparseAncestors, after another test
unfoldable pub then_safe : Bool → Result SessionError (Unit {0}) → Result SessionError (Unit {0})
then_safe safe (fail x) = fail x
then_safe safe (ok u) = if safe then ok tt else fail final_path_unsafe

-- MkdirAll of the folder of the final path
unfoldable pub make_place : Answers → FilePath → Disk → Disk
make_place answers path disk =
    make_folders (λ p. answers.folder_made || answers.makes p) (above path) disk

module _ (sha : Bytes → Bytes) (key : Bytes → Bytes) where
  -- The stream of a file that has one, or a new one at offset 0.
  unfoldable pub open_stream :
      Answers → Message → ManifestEntry → Option ReceivingFile → Result SessionError ReceivingFile
  open_stream answers m e (some f) = ok f
  open_stream answers m e none =
      if ltb_ℤ m.offset (pos 0) || ltb_ℤ (pos 0) m.offset
      then fail nonzero_start
      else ok (start_receiving_file answers e)

  -- The end of receiveContent.
  unfoldable pub keep_chunk : ReceivingFile → IncomingOffer → ManifestEntry → Bytes → Handler Bytes
  keep_chunk f o e rest = do
    put_incoming (record o { receiving_files = insert (key e.path) f o.receiving_files })
    pure rest

  -- Where ReceiveChunk fails, `f` has taken what still came, and cleanupIncoming removes the offer.
  unfoldable pub drop_incoming : ReceivingFile → IncomingOffer → ManifestEntry → Handler Bytes
  drop_incoming f o e = do
    put_incoming (record o { receiving_files = insert (key e.path) f o.receiving_files })
    modify cleanup_incoming
    raise receive_failed

  -- receiveContent with the stream `f` of the file: the chunk at the offset of the frame. A wire that ends
  -- early has given what it had.
  unfoldable pub store_chunk :
      Answers → Message → Bytes → IncomingOffer → ManifestEntry → ReceivingFile → Handler Bytes
  store_chunk answers m wire o e f = do
    put_incoming (record o { receiving_files = insert (key e.path) f o.receiving_files })
    stop_if (not (f.received == pos_part m.offset)) out_of_order
    elim (read_chunk (pos_part m.size) wire) [
      | some (chunk, rest) ↦ keep_chunk (take_chunk answers chunk f) o e rest
      | none ↦ drop_incoming (write_chunk answers wire f) o e
    ]

  -- receiveContent from the tests of the sizes on, for the entry `e` of the offer.
  unfoldable pub receive_chunk :
      Answers → Message → Bytes → IncomingOffer → ManifestEntry → Handler Bytes
  receive_chunk answers m wire o e = do
    stop_if (not (fits m e)) invalid_chunk
    stop_if (has_outcome key e.path o) repeated_outcome
    f ← lift (open_stream answers m e (lookup (key e.path) o.receiving_files))
    store_chunk answers m wire o e f

  -- receiveContent, with what is left of the wire.
  unfoldable pub receive_content : Answers → Message → Bytes → Handler Bytes
  receive_content answers m wire = do
    o ← accepted_offer content_without_offer m.offer_id
    e ← or_raise invalid_chunk (find_manifest_file o m.path)
    receive_chunk answers m wire o e

  -- failIncomingFile
  unfoldable pub fail_incoming_file : IncomingOffer → Bytes → Bytes → Handler Unit
  fail_incoming_file o path reason = do
    let p = add_outcome key path (remove_incoming_stream key path o)
    put_incoming (record p { failed_file = p.failed_file + 1 })
    send (result_message o.id path false reason)

  -- The tests of the digests: `strings.EqualFold` of hexadecimal texts.
  unfoldable pub verified : Message → ManifestEntry → Bytes → Bool
  verified m e digest =
      length m.digest == 64
      && same (lower_hex m.digest) (lower_hex digest)
      && same (lower_hex e.digest) (lower_hex digest)
      && elim m.success [ none ↦ true | some b ↦ b ]

  -- completeIncomingFile from the publication on; `o` has the closed file still.
  unfoldable pub publish_file : Answers → IncomingOffer → ManifestEntry → Bytes → Handler Unit
  publish_file answers o e content a =
      let path = incoming_path key o e in
      elim (publish answers.link_succeeds path content a.disk) [
        | none ↦ fail_incoming_file o e.path write_failure a
        | some disk ↦
            (if answers.metadata_succeeds
              then (let p = add_outcome key e.path (remove_incoming_stream key e.path o) in
                  (do
                    put_incoming (record p { completed_file = p.completed_file + 1 })
                    send (result_message o.id e.path true []))
                    (record a { disk = disk }))
              else fail_incoming_file (remove_incoming_stream key e.path o) e.path metadata_failure
                  (record a {
                    disk = if answers.remove_succeeds then remove_node path disk else disk;
                  }))
      ]

  -- `ensurePathBeneath`, with its error as the session's.
  unfoldable pub check_beneath : FilePath → FilePath → Result SessionError (Unit {0})
  check_beneath destination path = elim (ensure_path_beneath destination path) [
    | ok u ↦ ok u
    | fail b ↦ fail (escaped b)
  ]

  -- The tests of the final path.
  unfoldable pub check_final_path :
      Answers → IncomingOffer → ManifestEntry → Result SessionError (Unit {0})
  check_final_path answers o e =
      then_safe answers.ancestors_safe (check_beneath o.destination (incoming_path key o e))

  -- completeIncomingFile once the content is verified. An unsafe final path removes all of the offer's files.
  unfoldable pub place_file : Answers → IncomingOffer → ManifestEntry → Bytes → Handler Unit
  place_file answers o e content a = elim (check_final_path answers o e) [
    | fail x ↦ (fail x, remove_received o a)
    | ok u ↦
        (do stop_if (not answers.folder_made) final_folder_failed; publish_file answers o e content)
          (record a { disk = make_place answers (incoming_path key o e) a.disk })
  ]

  -- completeIncomingFile from the digest on.
  unfoldable pub settle_file :
      Answers → Message → IncomingOffer → ManifestEntry → ReceivingFile → Handler Unit
  settle_file answers m o e f =
      if f.write_failed
      then fail_incoming_file o e.path write_failure
      else if not (verified m e (sha f.digested))
      then fail_incoming_file o e.path (reason_or m.reason)
      else place_file answers o e (elim f.staged [ none ↦ [] | some content ↦ content ])

  unfoldable pub complete_incoming_file : Answers → Message → Handler Unit
  unfolding or_raise accepted_offer
  complete_incoming_file answers m = do
    o ← accepted_offer completion_without_offer m.offer_id
    e ← or_raise invalid_completion (find_manifest_file o m.path)
    f ← or_raise invalid_completion (lookup (key m.path) o.receiving_files)
    stop_if (ltb_ℤ m.size (pos e.size) || ltb_ℤ (pos e.size) m.size || not (f.received == e.size))
        invalid_completion
    let g = close_file answers f
    let p = record o { receiving_files = insert (key m.path) g o.receiving_files }
    put_incoming p
    settle_file answers m p e g

  unfoldable pub receive_file_failure : Message → Handler Unit
  unfolding accepted_offer
  receive_file_failure m = do
    o ← accepted_offer failure_without_offer m.offer_id
    stop_if (same m.path [] || same m.reason []) failure_without_offer
    stop_if (not (is_some (find_manifest_file o m.path))) unknown_failure
    stop_if (has_outcome key m.path o) repeated_outcome
    fail_incoming_file o m.path m.reason

  -- The metadata of the folders, the last one first: `folders_settled` says that every folder is
  -- still safe and takes its metadata.
  unfoldable pub complete_incoming_batch : Bool → Message → Handler Unit
  unfolding accepted_offer
  complete_incoming_batch folders_settled m = do
    o ← accepted_offer inconsistent_batch m.offer_id
    stop_if (not (o.completed_file + o.failed_file == o.manifest.file_count)) inconsistent_batch
    stop_if (not folders_settled) folder_failed
    send (result_message o.id [] (o.failed_file == 0) [])
    modify (clear_incoming o.address)
