-- ===== src/Receive/Tests.antt =====
-- The theorems on received files at a chunk and a completion of one file.
use transferly.Prelude.{
  ◌≡◌, refl, ◌⊎◌, subst, true, none, some, [], ◌∷◌, reverse, Bytes, codes, lookup, insert, delete,
}
use transferly.Prelude.Int.{pos}
use transferly.Protocol.{
  content, complete, message, Message, ManifestEntry, IncomingOffer, Attempt, Disk,
}
use transferly.Protocol.Samples.{session, incoming, offer_id, digest, report, one_digest, same_key}
use transferly.Receive.{Answers, above, read_chunk, make_folders, publish, node_at, same_path}
use transferly.Receive.Removal.{IsLeft}
use transferly.Text.FilePath.{FilePath, clean, rel}
use transferly.Text.Split.{split, join}
use transferly.Text.Utf8.{utf16_length}
use transferly.Safety.{ensure_path_beneath}
use transferly.Intake.{lower_hex}
use transferly.Receive.Chunks.{AreStreams, IsReceiving, receive_content-IsReceiving}
use transferly.Receive.Files.{
  find_manifest_file, incoming_path, start_receiving_file, take_chunk, write_chunk, write_staged,
  close_file, first_named,
}
use transferly.Receive.Handlers.{
  receive_content, complete_incoming_file, receive_file_failure, receive_chunk, open_stream,
  store_chunk, keep_chunk, settle_file, place_file, check_final_path, then_safe, check_beneath,
  make_place, publish_file, send, verified, accepted_offer, admitted, or_raise,
}
use transferly.Receive.Settled.{IsSettled, Settles}
use transferly.Receive.Outcomes.{Settles-kept}
use transferly.Receive.Publication.{IsPublication, complete_incoming_file-IsPublication}

abbrev answers : Answers
answers = record {
  staging_opens = true;
  write_succeeds = true;
  sync_succeeds = true;
  close_succeeds = true;
  ancestors_safe = true;
  folder_made = true;
  makes = λ p. true;
  link_succeeds = true;
  metadata_succeeds = true;
  remove_succeeds = true;
}

abbrev chunk : Message
chunk = record (message content offer_id) {
  path = codes "docs/report.txt";
  size = pos 3;
  offset = pos 0;
}

abbrev completion : Message
completion = record (message complete offer_id) {
  path = codes "docs/report.txt";
  size = pos 3;
  digest = digest;
  success = some true;
}

abbrev waiting : Attempt
waiting = record session { incoming = some (incoming 1) }

waiting-IsReceiving : IsReceiving one_digest same_key waiting
unfolding lookup
waiting-IsReceiving = record {
  streams = λ o i.
      let this : incoming 1 ≡ o = cc (i) in
      subst (λ (x : IncomingOffer). AreStreams same_key x.receiving_files) this
        (record { at = λ k f h. cc });
}

abbrev received : Attempt
received = (receive_content one_digest same_key answers chunk (codes "abcdef") waiting).1

received-IsReceiving : IsReceiving one_digest same_key received
received-IsReceiving =
    receive_content-IsReceiving one_digest same_key answers chunk (codes "abcdef") waiting
      waiting-IsReceiving

abbrev downloaded : Disk
downloaded =
    (codes "home" ∷ codes "downloads" ∷ codes "docs" ∷ codes "report.txt" ∷ [], some (codes "abc"))
    ∷ (codes "home" ∷ codes "downloads" ∷ codes "docs" ∷ [], none)
    ∷ (codes "home" ∷ codes "downloads" ∷ [], none)
    ∷ (codes "home" ∷ [], none)
    ∷ []

publishes :
    (complete_incoming_file one_digest same_key answers completion received).1.disk ≡ downloaded
unfolding complete_incoming_file receive_content find_manifest_file receive_chunk open_stream lookup
    store_chunk start_receiving_file read_chunk keep_chunk insert take_chunk write_chunk
    write_staged settle_file place_file check_final_path then_safe check_beneath make_place above
    make_folders publish_file publish node_at same_path delete incoming_path clean split
    ensure_path_beneath rel join utf16_length send verified close_file lower_hex accepted_offer
    admitted or_raise first_named
publishes = refl

complete_incoming_file-IsPublication_example :
    ((complete_incoming_file one_digest same_key answers completion received).1.disk
      ≡ received.disk)
    ⊎ ((o : IncomingOffer) × (e : ManifestEntry) × (received.incoming ≡ some o)
        × (find_manifest_file o completion.path ≡ some e)
        × IsLeft
            (reverse o.created_directories)
            (above (incoming_path same_key o e))
            received.disk
            (complete_incoming_file one_digest same_key answers completion received).1.disk)
    ⊎ ((o : IncomingOffer) × (e : ManifestEntry) × (content : Bytes) × (received.incoming ≡ some o)
        × (find_manifest_file o completion.path ≡ some e)
        × IsPublication one_digest same_key o e content received.disk
            (complete_incoming_file one_digest same_key answers completion received).1.disk)
complete_incoming_file-IsPublication_example =
    complete_incoming_file-IsPublication one_digest same_key answers completion received
      received-IsReceiving.streams

waiting-Settles : Settles waiting
unfolding lookup
waiting-Settles o i =
    let this : incoming 1 ≡ o = cc (i) in
    subst IsSettled this (record { counted = refl; once = tt; closed = λ k h. cc (h) })

Settles-kept_example :
    Settles (receive_content one_digest same_key answers chunk (codes "abcdef") waiting).1
    × Settles (complete_incoming_file one_digest same_key answers chunk waiting).1
    × Settles (receive_file_failure one_digest same_key chunk waiting).1
Settles-kept_example =
    Settles-kept one_digest same_key answers chunk (codes "abcdef") waiting waiting-Settles

abbrev docs : FilePath
docs = codes "home" ∷ codes "downloads" ∷ codes "docs" ∷ []

abbrev completed : FilePath
completed = codes "home" ∷ codes "downloads" ∷ codes "done.txt" ∷ []

abbrev half_received : IncomingOffer
half_received = record (incoming 1) {
  created_directories = docs ∷ [];
  receiving_files = (codes "docs/report.txt", start_receiving_file answers report) ∷ [];
}

abbrev receiving : Attempt
receiving = record session {
  incoming = some half_received;
  disk = (docs, none) ∷ (completed, some (codes "abc")) ∷ [];
}
