-- ===== src/Receive/Placing.antt =====
-- What completeIncomingFile does to the disk, from the settled content on.
use transferly.Prelude.{
  subst, ◌≡◌, refl, sym, ap, ◌∙◌, true, false, not, ◌||◌, ◌⊎◌, inl, inr, [], ◌∷◌, none, some, Bytes,
  same_refl, arith, is_some, reverse, List, if◌then◌else◌, Result, fail, ok, Bool-cases,
}
use transferly.Text.FilePath.{FilePath}
use transferly.Protocol.{Disk, Message, ManifestEntry, IncomingOffer, ReceivingFile, Attempt}
use transferly.Protocol.Errors.{SessionError, final_folder_failed}
use transferly.Receive.{Answers, node_at, remove_node, publish, same_path, above}
use transferly.Receive.Cleanup.{remove_received}
use transferly.Receive.Removal.{
  IsLeft, same-IsLeft, remove_incoming_files-IsLeft, make_folders-IsLeft,
}
use transferly.Receive.Chunks.{IsStream}
use transferly.Receive.Branches.{stop_if_cases}
use transferly.Receive.Files.{incoming_path, close_file, remove_incoming_stream}
use transferly.Receive.Handlers.{
  send, write_failure, reason_or, place_file, check_beneath, publish_file, fail_incoming_file,
  settle_file, verified, metadata_failure, check_final_path, then_safe, make_place,
}

remove_node-fresh :
    (path : FilePath) (disk : Disk) → node_at path disk ≡ none → remove_node path disk ≡ disk
unfolding remove_node node_at
remove_node-fresh path [] h = refl
remove_node-fresh path ((p, n) ∷ disk) h = ground (arith, remove_node-fresh path disk)

pub same_path_refl : (path : FilePath) → same_path path path ≡ true
unfolding same_path
same_path_refl [] = refl
same_path_refl (c ∷ path) = ground (arith, same_path_refl path, same_refl c)

remove_node-cons :
    (path : FilePath) (content : Bytes) (disk : Disk)
    → remove_node path ((path, some content) ∷ disk) ≡ remove_node path disk
unfolding remove_node
remove_node-cons path content disk = ground (arith, same_path_refl path)

send-disk : (m : Message) (a : Attempt) → (send m a).1.disk ≡ a.disk
unfolding send
send-disk m a = ground arith

module _ (sha : Bytes → Bytes) (key : Bytes → Bytes) where
  fail_incoming_file-disk :
      (o : IncomingOffer) (path reason : Bytes) (a : Attempt)
      → (fail_incoming_file sha key o path reason a).1.disk ≡ a.disk
  unfolding fail_incoming_file
  fail_incoming_file-disk o path reason a = send-disk _ _

  -- The folders that a completion of `e` may have removed, and those it may have made.
  abbrev pub Left : IncomingOffer → ManifestEntry → Disk → Disk → Type 0
  Left o e before after =
      IsLeft (reverse o.created_directories) (above (incoming_path key o e)) before after

  -- One file at a path where nothing was.
  abbrev pub Links : FilePath → Bytes → Disk → Disk → Type 0
  Links path content before after =
      (node_at path before ≡ none) × (after ≡ (path, some content) ∷ before)

  publish_file-disk :
      (answers : Answers) (o : IncomingOffer) (e : ManifestEntry) (content : Bytes) (a : Attempt)
      → ((publish_file sha key answers o e content a).1.disk ≡ a.disk)
        ⊎ Links
            (incoming_path key o e)
            content
            a.disk
            (publish_file sha key answers o e content a).1.disk
  unfolding publish_file publish
  publish_file-disk answers o e content a =
      let path = incoming_path key o e in
      let p = remove_incoming_stream key e.path o in
      let left =
        if answers.remove_succeeds
        then remove_node path ((path, some content) ∷ a.disk)
        else (path, some content) ∷ a.disk in
      let failed = fail_incoming_file-disk o e.path write_failure a in
      let undone = fail_incoming_file-disk p e.path metadata_failure (record a { disk = left }) in
      elim (Bool-cases (is_some (node_at path a.disk) || not answers.link_succeeds)) [
        | inl refused ↦ rw (refused, publish_file, publish) (inl failed)
        | inr linked ↦
            let free : node_at path a.disk ≡ none = ground arith in
            rw (linked, publish_file, publish)
              (elim (Bool-cases answers.metadata_succeeds) [
                | inl settled ↦ rw settled (inr (free, send-disk _ _))
                | inr lost ↦ rw lost (elim (Bool-cases answers.remove_succeeds) [
                  | inl removed ↦ inl (
                      undone
                      ∙ ap
                          (λ b.
                            if b
                            then remove_node path ((path, some content) ∷ a.disk)
                            else (path, some content) ∷ a.disk)
                          removed
                      ∙ remove_node-cons path content a.disk
                      ∙ remove_node-fresh path a.disk free)
                  | inr stays ↦ inr (
                    free,
                    undone
                        ∙ ap
                            (λ b.
                              if b
                              then remove_node path ((path, some content) ∷ a.disk)
                              else (path, some content) ∷ a.disk)
                            stays,
                  )
                ])
              ])
      ]

  -- The disk with the folder of the final path, and then the file.
  abbrev pub Places : IncomingOffer → ManifestEntry → Bytes → Disk → Disk → Type 0
  Places o e content before after =
      (check_beneath sha key o.destination (incoming_path key o e) ≡ ok tt)
      × (mid : Disk) × IsLeft [] (above (incoming_path key o e)) before mid
      × Links (incoming_path key o e) content mid after

  check_final_path-ok :
      (answers : Answers) (o : IncomingOffer) (e : ManifestEntry)
      → check_final_path sha key answers o e ≡ ok tt
      → check_beneath sha key o.destination (incoming_path key o e) ≡ ok tt
  unfolding check_final_path then_safe
  check_final_path-ok answers o e h = ground arith

  pub make_place-IsLeft :
      (answers : Answers) (removed : List FilePath) (path : FilePath) (disk : Disk)
      → IsLeft removed (above path) disk (make_place answers path disk)
  unfolding make_place
  make_place-IsLeft answers removed path disk = make_folders-IsLeft _ removed (above path) disk

  -- What a completion of `e` makes of the disk once the content is verified.
  abbrev pub Placed : IncomingOffer → ManifestEntry → Bytes → Disk → Disk → Type 0
  Placed o e content before after = Left o e before after ⊎ Places o e content before after

  publish_file-Placed :
      (answers : Answers) (o : IncomingOffer) (e : ManifestEntry) (content : Bytes) (a b : Attempt)
      → check_beneath sha key o.destination (incoming_path key o e) ≡ ok tt
      → b.disk ≡ make_place answers (incoming_path key o e) a.disk
      → Placed o e content a.disk (publish_file sha key answers o e content b).1.disk
  publish_file-Placed answers o e content a b below made =
      let path = incoming_path key o e in
      let left = λ (removed : List FilePath).
        subst (IsLeft removed (above path) a.disk) (sym made)
          (make_place-IsLeft answers removed path a.disk) in
      elim (publish_file-disk answers o e content b) [
        | inl same ↦ inl (subst (Left o e a.disk) (sym same) (left (reverse o.created_directories)))
        | inr links ↦ inr (below, b.disk, left [], links)
      ]

  place_file-disk :
      (answers : Answers) (o : IncomingOffer) (e : ManifestEntry) (content : Bytes) (a : Attempt)
      → Placed o e content a.disk (place_file sha key answers o e content a).1.disk
  unfolding place_file remove_received
  place_file-disk answers o e content a = go (check_final_path sha key answers o e) refl
    where
      made : Attempt
      made = record a { disk = make_place answers (incoming_path key o e) a.disk }

      go :
          (r : Result SessionError (Unit {0}))
          → check_final_path sha key answers o e ≡ r
          → Placed o e content a.disk (place_file sha key answers o e content a).1.disk
      go (fail x) h =
          rw (h, place_file)
            (inl (remove_incoming_files-IsLeft o (above (incoming_path key o e)) a.disk))
      go (ok u) h =
          rw (h, place_file)
            (stop_if_cases (λ (x : Attempt). Placed o e content a.disk x.disk)
              (not answers.folder_made) final_folder_failed made _
              (inl (
                make_place-IsLeft answers (reverse o.created_directories) (incoming_path key o e)
                  a.disk))
              (λ _.
                publish_file-Placed answers o e content a made (check_final_path-ok answers o e h)
                  refl))

  pub settle_file-disk :
      (answers : Answers) (m : Message) (o : IncomingOffer) (e : ManifestEntry) (f : ReceivingFile)
      (content : Bytes) (a : Attempt)
      → (f.write_failed ≡ false → f.staged ≡ some content)
      → Left o e a.disk (settle_file sha key answers m o e f a).1.disk
        ⊎ ((verified sha key m e (sha f.digested) ≡ true)
            × Places o e content a.disk (settle_file sha key answers m o e f a).1.disk)
  unfolding settle_file
  settle_file-disk answers m o e f content a staged =
      let kept = λ (reason : Bytes).
        same-IsLeft (reverse o.created_directories) (above (incoming_path key o e)) a.disk _
          (fail_incoming_file-disk o e.path reason a) in
      elim (Bool-cases f.write_failed) [
        | inl failed ↦ rw (failed, settle_file) (inl (kept write_failure))
        | inr written ↦ elim (Bool-cases (verified sha key m e (sha f.digested))) [
          | inr wrong ↦ rw (written, wrong, settle_file) (inl (kept (reason_or m.reason)))
          | inl right ↦
              rw (written, right, staged written, settle_file)
                (elim (place_file-disk answers o e content a) [
                  | inl left ↦ inl left
                  | inr places ↦ inr (refl, places)
                ])
        ]
      ]

  pub close_file-IsStream :
      (answers : Answers) (f : ReceivingFile)
      → IsStream f
      → (close_file answers f).write_failed ≡ false
      → (close_file answers f).staged ≡ some (close_file answers f).digested
  unfolding close_file
  close_file-IsStream answers f s h = ground (arith, s.staged)

  pub close_file-digested :
      (answers : Answers) (f : ReceivingFile) → (close_file answers f).digested ≡ f.digested
  unfolding close_file
  close_file-digested answers f = ground arith
