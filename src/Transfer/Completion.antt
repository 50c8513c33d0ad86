-- ===== src/Transfer/Completion.antt =====
-- The completion of a file whose content has all come.
use transferly.Prelude.{
  ◌+◌, ◌≡◌, refl, ap, ◌∙◌, Bool, true, false, not, ◌&&◌, ◌||◌, [], ◌∷◌, none, some, Bytes, same,
  Dict, same_refl, arith, ◌==◌, length, lookup, insert, ok,
}
use transferly.Prelude.Int.{pos, ltb_ℤ}
use transferly.Protocol.{Message, ManifestEntry, IncomingOffer, ReceivingFile, Attempt, sends}
use transferly.Protocol.Exec.{Exec, continue, ◌>>=◌, stop_if}
use transferly.Protocol.Errors.{
  SessionError, invalid_completion, completion_without_offer, final_folder_failed,
}
use transferly.Queue.{emit}
use transferly.Receive.{Answers, node_at, publish}
use transferly.Receive.Removal.{make_folders-above}
use transferly.Receive.Files.{
  find_manifest_file, close_file, incoming_path, remove_incoming_stream, add_outcome,
}
use transferly.Receive.Handlers.{
  accepted_offer, admitted, or_raise, put_incoming, send, result_message, verified, check_beneath,
  publish_file, place_file, check_final_path, then_safe, make_place, settle_file,
  complete_incoming_file,
}
use transferly.Transfer.Delivery.{IsWorking, stream}

abbrev pub closed : ManifestEntry → Bytes → ReceivingFile
closed e content = record (stream e content) { is_open = false }

close_file-stream :
    (answers : Answers) (e : ManifestEntry) (content : Bytes)
    → IsWorking answers
    → close_file answers (stream e content) ≡ closed e content
unfolding close_file
close_file-stream answers e content w = simp (w.sync_succeeds, w.close_succeeds) refl

-- The attempt once the folder of the final path is made.
abbrev pub at_place : (Bytes → Bytes) → Answers → ManifestEntry → IncomingOffer → Attempt → Attempt
at_place key answers e p a = record a { disk = make_place answers (incoming_path key p e) a.disk }

module _ (key : Bytes → Bytes) (e : ManifestEntry) (content : Bytes) where
  abbrev pub published : IncomingOffer → IncomingOffer
  published p =
      let q = add_outcome key e.path (remove_incoming_stream key e.path p) in
      record q { completed_file = q.completed_file + 1 }

  abbrev pub settled : IncomingOffer → Attempt → Attempt
  settled p a = emit (sends (result_message p.id e.path true [])) (record a {
    disk = (incoming_path key p e, some content) ∷ a.disk;
    incoming = some (published p);
  })

module _ (sha : Bytes → Bytes) (key : Bytes → Bytes) (answers : Answers) (works : IsWorking answers)
    (m : Message) (o : IncomingOffer) (e : ManifestEntry) (content : Bytes)
    (accepted : o.accepted ≡ true) (mine : o.id ≡ m.offer_id) (named : m.path ≡ e.path)
    (sized : m.size ≡ pos e.size) (whole : length content ≡ e.size)
    (listed : find_manifest_file o e.path ≡ some e)
    (fine : verified sha key m e (sha content) ≡ true)
    (beneath : check_beneath sha key o.destination (incoming_path key o e) ≡ ok tt) where
  publish_file-settled :
      (p : IncomingOffer) (a : Attempt)
      → a.wire_up ≡ true
      → node_at (incoming_path key p e) a.disk ≡ none
      → publish_file sha key answers p e content a ≡ (ok tt, settled key e content p a)
  unfolding publish publish_file send
  publish_file-settled p a up free =
      let path = incoming_path key p e in
      let placed : publish answers.link_succeeds path content a.disk
          ≡ some ((path, some content) ∷ a.disk) =
        rw (free, works.link_succeeds) refl in
      rw (placed, publish_file) (rw works.metadata_succeeds (rw (up, send) refl))

  place_file-settled :
      (p : IncomingOffer) (a : Attempt)
      → check_beneath sha key p.destination (incoming_path key p e) ≡ ok tt
      → a.wire_up ≡ true
      → node_at (incoming_path key p e) a.disk ≡ none
      → place_file sha key answers p e content a
        ≡ (ok tt, settled key e content p (at_place key answers e p a))
  unfolding place_file check_final_path then_safe make_place
  place_file-settled p a below up free =
      let path = incoming_path key p e in
      let safe : check_final_path sha key answers p e ≡ ok tt =
        ap (then_safe answers.ancestors_safe) below
        ∙ ap (λ b. then_safe b (ok tt)) works.ancestors_safe in
      let vacant : node_at path (at_place key answers e p a).disk ≡ none =
        make_folders-above _ path a.disk free in
      rw (safe, place_file)
        (ap
            (λ b.
              continue (stop_if (not b) final_folder_failed (at_place key answers e p a))
                (λ _. publish_file sha key answers p e content))
            works.folder_made
          ∙ publish_file-settled p (at_place key answers e p a) up vacant)

  settle_file-settled :
      (p : IncomingOffer) (a : Attempt)
      → check_beneath sha key p.destination (incoming_path key p e) ≡ ok tt
      → a.wire_up ≡ true
      → node_at (incoming_path key p e) a.disk ≡ none
      → settle_file sha key answers m p e (closed e content) a
        ≡ (ok tt, settled key e content p (at_place key answers e p a))
  unfolding settle_file
  settle_file-settled p a below up free = rw fine (place_file-settled p a below up free)

  -- The receiver, before the completion: the file's stream is there with the whole content.
  pub complete_incoming_file-settled :
      (a : Attempt) (files : Dict ReceivingFile)
      → a.incoming ≡ some (record o { receiving_files = files })
      → lookup (key e.path) files ≡ some (stream e content)
      → a.wire_up ≡ true
      → node_at (incoming_path key o e) a.disk ≡ none
      → complete_incoming_file sha key answers m a ≡ (
        ok tt,
        settled key e content
            (record o { receiving_files = insert (key m.path) (closed e content) files })
            (at_place key answers e o a),
      )
  unfolding complete_incoming_file or_raise accepted_offer find_manifest_file incoming_path
  complete_incoming_file-settled a files known there up free =
      let p : IncomingOffer = record o { receiving_files = files } in
      let q : ReceivingFile → IncomingOffer =
        λ g. record o { receiving_files = insert (key m.path) g files } in
      let rest : ReceivingFile → Exec Attempt SessionError Unit =
        λ g. put_incoming (q g) >>= λ _. settle_file sha key answers m (q g) e g in
      let guard : ManifestEntry → ReceivingFile → Bool = λ x f.
        ltb_ℤ m.size (pos x.size) || ltb_ℤ (pos x.size) m.size || not (f.received == x.size) in
      let ours : (o.accepted && same o.id m.offer_id) ≡ true =
        rw (accepted, mine) (same_refl m.offer_id) in
      let taken : admitted completion_without_offer m.offer_id a.incoming ≡ ok p =
        ap (admitted completion_without_offer m.offer_id) known ∙ rw (ours, admitted) refl in
      let found : find_manifest_file p m.path ≡ some e = ap (find_manifest_file o) named ∙ listed in
      let streaming : lookup (key m.path) files ≡ some (stream e content) =
        ap (λ x. lookup (key x) files) named ∙ there in
      let complete : guard e (stream e content) ≡ false = rw (sized, whole) (ground arith) in
      ap
        (λ r.
          continue (r, a)
            (λ o'. or_raise invalid_completion (find_manifest_file o' m.path) >>= λ e'.
              or_raise invalid_completion (lookup (key m.path) o'.receiving_files) >>= λ f.
              stop_if (guard e' f) invalid_completion >>= λ _.
              put_incoming (record o' {
                receiving_files = insert (key m.path) (close_file answers f) o'.receiving_files;
              })
              >>= λ _.
                  settle_file sha key answers m
                    (record o' {
                      receiving_files =
                          insert (key m.path) (close_file answers f) o'.receiving_files;
                    })
                    e' (close_file answers f)))
        taken
      ∙ ap
          (λ x. continue (or_raise invalid_completion x a) (λ e'.
            or_raise invalid_completion (lookup (key m.path) files) >>= λ f.
            stop_if (guard e' f) invalid_completion >>= λ _.
            put_incoming (q (close_file answers f)) >>= λ _.
            settle_file sha key answers m (q (close_file answers f)) e' (close_file answers f)))
          found
      ∙ ap
          (λ x.
            continue (or_raise invalid_completion x a)
              (λ f. stop_if (guard e f) invalid_completion >>= λ _. rest (close_file answers f)))
          streaming
      ∙ ap
          (λ b.
            continue (stop_if b invalid_completion a)
              (λ _. rest (close_file answers (stream e content))))
          complete
      ∙ ap (λ g. rest g a) (close_file-stream answers e content works)
      ∙ settle_file-settled (q (closed e content))
          (record a { incoming = some (q (closed e content)) }) beneath up free
