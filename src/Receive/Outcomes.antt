-- ===== src/Receive/Outcomes.antt =====
-- Every file of an accepted offer has one outcome at most.
use transferly.Prelude.{
  ◌≡◌, refl, ap, sym, ◌∙◌, false, not, ◌||◌, inl, inr, List, [], Option, none, some, Bytes, same,
  arith, ◌==◌, if◌then◌else◌, any, is_some, lookup, insert, Result, ok, fail, Bool-cases,
  Option-cases,
}
use transferly.Prelude.Int.{pos, ltb_ℤ, pos_part}
use transferly.Protocol.{Disk, Node, Message, ManifestEntry, IncomingOffer, ReceivingFile, Attempt}
use transferly.Text.FilePath.{FilePath}
use transferly.Protocol.Exec.{lift}
use transferly.Protocol.Errors.{
  SessionError, content_without_offer, invalid_chunk, repeated_outcome, out_of_order,
  completion_without_offer, invalid_completion, final_folder_failed, failure_without_offer,
  unknown_failure,
}
use transferly.Receive.{Answers, publish, read_chunk, remove_node}
use transferly.Receive.Cleanup.{
  remove_incoming_staging, remove_created_directories, remove_incoming_files, remove_received,
  cleanup_incoming,
}
use transferly.Receive.Files.{
  find_manifest_file, write_chunk, take_chunk, close_file, incoming_path, remove_incoming_stream,
  add_outcome, has_outcome,
}
use transferly.Receive.Handlers.{
  accepted_offer, fits, write_failure, metadata_failure, drop_incoming, keep_chunk,
  check_final_path, make_place, reason_or, open_stream, store_chunk, receive_chunk, receive_content,
  fail_incoming_file, verified, publish_file, place_file, settle_file, complete_incoming_file,
  receive_file_failure,
}
use transferly.Receive.Chunks.{first_named-is_named}
use transferly.Receive.Branches.{continue_cases, stop_if_cases, or_raise_cases, admitted-some}
use transferly.Receive.Settled.{
  IsSettled, Settles, put-Settles, send-Settles, insert-IsSettled, outcome-IsSettled,
  remove-IsSettled,
}

module _ (sha : Bytes → Bytes) (key : Bytes → Bytes) where
  fail_incoming_file-Settles :
      (o : IncomingOffer) (path reason : Bytes) (a : Attempt)
      → has_outcome key path o ≡ false
      → IsSettled o
      → Settles (fail_incoming_file sha key o path reason a).1
  unfolding fail_incoming_file add_outcome remove_incoming_stream
  fail_incoming_file-Settles o path reason a fresh s =
      send-Settles _ _
        (put-Settles a _ (outcome-IsSettled sha key o _ path fresh s refl refl (omega arith)))

  publish_file-Settles :
      (answers : Answers) (o : IncomingOffer) (e : ManifestEntry) (content : Bytes) (a : Attempt)
      → has_outcome key e.path o ≡ false
      → IsSettled o
      → Settles (publish_file sha key answers o e content a).1
  unfolding publish_file add_outcome remove_incoming_stream
  publish_file-Settles answers o e content a fresh s =
      go (publish answers.link_succeeds (incoming_path key o e) content a.disk) refl
    where
      go :
          (r : Option (List (FilePath × Node)))
          → publish answers.link_succeeds (incoming_path key o e) content a.disk ≡ r
          → Settles (publish_file sha key answers o e content a).1
      go none h = rw (h, publish_file) (fail_incoming_file-Settles o e.path write_failure a fresh s)
      go (some disk) h = elim (Bool-cases answers.metadata_succeeds) [
        | inl done ↦
            rw (h, publish_file)
              (rw done (
                send-Settles _ _ (
                  put-Settles (record a { disk = disk }) _
                    (outcome-IsSettled sha key o _ e.path fresh s refl refl (omega arith)))))
        | inr undone ↦
            rw (h, publish_file)
              (rw undone (
                fail_incoming_file-Settles (remove_incoming_stream key e.path o) e.path
                  metadata_failure
                  (record a {
                    disk =
                        if answers.remove_succeeds
                        then remove_node (incoming_path key o e) disk
                        else disk;
                  })
                  fresh (remove-IsSettled sha key o e.path s)))
      ]

  removed-IsSettled :
      (o : IncomingOffer) (disk : Disk) → IsSettled o → IsSettled (remove_incoming_files o disk).0
  unfolding remove_incoming_files remove_incoming_staging remove_created_directories lookup
  removed-IsSettled o disk s = record { counted = s.counted; once = s.once; closed = λ k h. refl }

  place_file-Settles :
      (answers : Answers) (o : IncomingOffer) (e : ManifestEntry) (content : Bytes) (a : Attempt)
      → has_outcome key e.path o ≡ false
      → IsSettled o
      → Settles a
      → Settles (place_file sha key answers o e content a).1
  unfolding place_file remove_received
  place_file-Settles answers o e content a fresh s before =
      go (check_final_path sha key answers o e) refl
    where
      made : Attempt
      made = record a { disk = make_place answers (incoming_path key o e) a.disk }

      go :
          (r : Result SessionError (Unit {0}))
          → check_final_path sha key answers o e ≡ r
          → Settles (place_file sha key answers o e content a).1
      go (fail x) h =
          rw (h, place_file)
            (put-Settles (record a { disk = (remove_incoming_files o a.disk).1 })
              (remove_incoming_files o a.disk).0 (removed-IsSettled o a.disk s))
      go (ok u) h =
          rw (h, place_file)
            (stop_if_cases Settles (not answers.folder_made) final_folder_failed made _ before
              (λ _. publish_file-Settles answers o e content made fresh s))

  settle_file-Settles :
      (answers : Answers) (m : Message) (o : IncomingOffer) (e : ManifestEntry) (f : ReceivingFile)
      (a : Attempt)
      → has_outcome key e.path o ≡ false
      → IsSettled o
      → Settles a
      → Settles (settle_file sha key answers m o e f a).1
  unfolding settle_file
  settle_file-Settles answers m o e f a fresh s before = elim (Bool-cases f.write_failed) [
    | inl failed ↦ simp failed (fail_incoming_file-Settles o e.path write_failure a fresh s)
    | inr written ↦ elim (Bool-cases (not (verified sha key m e (sha f.digested)))) [
      | inl bad ↦
          simp (written, bad) (fail_incoming_file-Settles o e.path (reason_or m.reason) a fresh s)
      | inr good ↦ simp (written, good) (place_file-Settles answers o e _ a fresh s before)
    ]
  ]

  not_settled :
      (o : IncomingOffer) (k : Bytes) (f : ReceivingFile)
      → IsSettled o
      → lookup k o.receiving_files ≡ some f
      → any (same k) o.file_outcomes ≡ false
  not_settled o k f s there = elim (Bool-cases (any (same k) o.file_outcomes)) [
    | inr fresh ↦ fresh
    | inl done ↦ (let e : none ≡ some f = sym (s.closed k done) ∙ there in cc (e))
  ]

  -- completeIncomingFile, once its file and its stream are found.
  complete_stream-Settles :
      (answers : Answers) (m : Message) (o : IncomingOffer) (e : ManifestEntry) (f : ReceivingFile)
      (a : Attempt)
      → e.path ≡ m.path
      → lookup (key m.path) o.receiving_files ≡ some f
      → IsSettled o
      → Settles
          (settle_file sha key answers m
            (record o {
              receiving_files = insert (key m.path) (close_file answers f) o.receiving_files;
            })
            e
            (close_file answers f)
            (record a {
              incoming = some (record o {
                receiving_files = insert (key m.path) (close_file answers f) o.receiving_files;
              });
            })).1
  complete_stream-Settles answers m o e f a named there s =
      let fresh = not_settled o (key m.path) f s there in
      let p : IncomingOffer = record o {
        receiving_files = insert (key m.path) (close_file answers f) o.receiving_files;
      } in
      let settled = insert-IsSettled o (key m.path) (close_file answers f) fresh s in
      settle_file-Settles answers m p e (close_file answers f) (record a { incoming = some p })
        (ap (λ x. any (same (key x)) o.file_outcomes) named ∙ fresh) settled
        (put-Settles a p settled)

  complete_incoming_file-Settles :
      (answers : Answers) (m : Message) (a : Attempt)
      → Settles a
      → Settles (complete_incoming_file sha key answers m a).1
  unfolding complete_incoming_file accepted_offer find_manifest_file
  complete_incoming_file-Settles answers m a s =
      continue_cases Settles (accepted_offer completion_without_offer m.offer_id a) _ s (λ o taken.
        let known = admitted-some completion_without_offer m.offer_id a.incoming o taken in
        or_raise_cases Settles invalid_completion (find_manifest_file o m.path) a _ s (λ e listed.
          or_raise_cases Settles invalid_completion (lookup (key m.path) o.receiving_files) a _ s
            (λ f there.
              stop_if_cases Settles
                (ltb_ℤ m.size (pos e.size)
                  || ltb_ℤ (pos e.size) m.size
                  || not (f.received == e.size))
                invalid_completion a _ s
                (λ _.
                  complete_stream-Settles answers m o e f a
                    (first_named-is_named m.path o.manifest.entries e listed) there (s o known)))))

  receive_file_failure-Settles :
      (m : Message) (a : Attempt) → Settles a → Settles (receive_file_failure sha key m a).1
  unfolding receive_file_failure accepted_offer
  receive_file_failure-Settles m a s =
      continue_cases Settles (accepted_offer failure_without_offer m.offer_id a) _ s (λ o taken.
        let known = admitted-some failure_without_offer m.offer_id a.incoming o taken in
        stop_if_cases Settles (same m.path [] || same m.reason []) failure_without_offer a _ s (λ _.
          stop_if_cases Settles (not (is_some (find_manifest_file o m.path))) unknown_failure a _ s
            (λ _.
              stop_if_cases Settles (has_outcome key m.path o) repeated_outcome a _ s
                (λ fresh. fail_incoming_file-Settles o m.path m.reason a fresh (s o known)))))

  dropped-Settles :
      (f : ReceivingFile) (o : IncomingOffer) (e : ManifestEntry) (a : Attempt)
      → Settles (drop_incoming sha key f o e a).1
  unfolding drop_incoming cleanup_incoming
  dropped-Settles f o e a p h = cc (h)

  store_chunk-Settles :
      (answers : Answers) (m : Message) (wire : Bytes) (o : IncomingOffer) (e : ManifestEntry)
      (f : ReceivingFile) (a : Attempt)
      → has_outcome key e.path o ≡ false
      → IsSettled o
      → Settles (store_chunk sha key answers m wire o e f a).1
  unfolding store_chunk keep_chunk
  store_chunk-Settles answers m wire o e f a fresh s =
      let b : Attempt = record a {
        incoming = some (record o { receiving_files = insert (key e.path) f o.receiving_files });
      } in
      let stored = put-Settles a _ (insert-IsSettled o (key e.path) f fresh s) in
      stop_if_cases Settles (not (f.received == pos_part m.offset)) out_of_order b _ stored (λ _.
        elim (Option-cases (read_chunk (pos_part m.size) wire)) [
          | inl short ↦ rw short (dropped-Settles (write_chunk answers wire f) o e b)
          | inr ((chunk, rest), got) ↦ rw got (
              put-Settles b _
                (insert-IsSettled o (key e.path) (take_chunk answers chunk f) fresh s))
        ])

  receive_content-Settles :
      (answers : Answers) (m : Message) (wire : Bytes) (a : Attempt)
      → Settles a
      → Settles (receive_content sha key answers m wire a).1
  unfolding receive_content receive_chunk accepted_offer
  receive_content-Settles answers m wire a s =
      continue_cases Settles (accepted_offer content_without_offer m.offer_id a) _ s (λ o taken.
        let known = admitted-some content_without_offer m.offer_id a.incoming o taken in
        or_raise_cases Settles invalid_chunk (find_manifest_file o m.path) a _ s (λ e listed.
          stop_if_cases Settles (not (fits m e)) invalid_chunk a _ s (λ _.
            stop_if_cases Settles (has_outcome key e.path o) repeated_outcome a _ s (λ fresh.
              continue_cases Settles
                (lift (open_stream sha key answers m e (lookup (key e.path) o.receiving_files)) a) _
                s (λ f _. store_chunk-Settles answers m wire o e f a fresh (s o known))))))

  -- The outcomes of the offer are distinct and counted as completed or failed, and no file has an outcome and a
  -- stream. receiveContent, completeIncomingFile and receiveFileFailure keep it so, whatever message comes and
  -- whether they fail or not: no file is counted twice, and none with an outcome is written to again.
  pub Settles-kept :
      (answers : Answers) (m : Message) (wire : Bytes) (a : Attempt)
      → Settles a
      → Settles (receive_content sha key answers m wire a).1
        × Settles (complete_incoming_file sha key answers m a).1
        × Settles (receive_file_failure sha key m a).1
  Settles-kept answers m wire a s = (
    receive_content-Settles answers m wire a s,
    complete_incoming_file-Settles answers m a s,
    receive_file_failure-Settles m a s,
  )
