-- ===== src/Receive/Publication.antt =====
-- What reaches a final path.
use transferly.Prelude.{
  subst, ◌≡◌, sym, ap, ◌∙◌, true, ◌⊎◌, inl, inr, [], ◌∷◌, none, some, Bytes, same_iff, arith,
  length, lookup, insert, reverse, ok, Option-cases,
}
use transferly.Text.FilePath.{FilePath}
use transferly.Safety.{ensure_path_beneath}
use transferly.Protocol.{Disk, Message, ManifestEntry, IncomingOffer, ReceivingFile, Attempt}
use transferly.Intake.{lower_hex}
use transferly.Receive.{Answers, node_at, above}
use transferly.Receive.Removal.{IsLeft, same-IsLeft, IsLeft-vacant}
use transferly.Receive.Chunks.{IsStream, AreStreams}
use transferly.Receive.Files.{find_manifest_file, incoming_path, close_file}
use transferly.Receive.Handlers.{check_beneath, settle_file, verified, complete_incoming_file}
use transferly.Receive.Placing.{Left, settle_file-disk, close_file-IsStream, close_file-digested}

module _ (sha : Bytes → Bytes) (key : Bytes → Bytes) where
  -- One file of the offer `o` was written: the entry `e`, at the entry's place below the destination,
  -- where nothing stood, with content of the size and the digest that the user approved. Before it, the missing
  -- folders above it were made, and nothing else: that disk is `mid`.
  pub record IsPublication (o : IncomingOffer) (e : ManifestEntry) (content : Bytes)
      (before after : Disk) : Type 0 where
    pub accepted : o.accepted ≡ true
    pub size : length content ≡ e.size
    pub approved : lower_hex (sha content) ≡ lower_hex e.digest
    pub beneath : ensure_path_beneath o.destination (incoming_path key o e) ≡ ok tt
    pub vacant : node_at (incoming_path key o e) before ≡ none
    pub mid : Disk
    pub folders : IsLeft [] (above (incoming_path key o e)) before mid
    pub added : after ≡ (incoming_path key o e, some content) ∷ mid

  verified-digest :
      (m : Message) (e : ManifestEntry) (digest : Bytes)
      → verified sha key m e digest ≡ true
      → lower_hex digest ≡ lower_hex e.digest
  unfolding verified
  verified-digest m e digest h = ground (arith, same_iff (lower_hex e.digest) (lower_hex digest))

  check_beneath-ok :
      (destination path : FilePath)
      → check_beneath sha key destination path ≡ ok tt
      → ensure_path_beneath destination path ≡ ok tt
  unfolding check_beneath
  check_beneath-ok destination path h = ground arith

  -- The offer while its file is settled.
  abbrev closing : Answers → Message → IncomingOffer → ReceivingFile → IncomingOffer
  closing answers m o f = record o {
    receiving_files = insert (key m.path) (close_file answers f) o.receiving_files;
  }

  complete-cases :
      (answers : Answers) (m : Message) (a : Attempt) (o : IncomingOffer) (e : ManifestEntry)
      (f : ReceivingFile)
      → a.incoming ≡ some o
      → find_manifest_file o m.path ≡ some e
      → lookup (key m.path) o.receiving_files ≡ some f
      → ((complete_incoming_file sha key answers m a).1.disk ≡ a.disk)
        ⊎ ((o.accepted ≡ true)
            × (f.received ≡ e.size)
            × ((complete_incoming_file sha key answers m a).1.disk
                ≡ (settle_file sha key answers m
                    (closing answers m o f)
                    e
                    (close_file answers f)
                    (record a { incoming = some (closing answers m o f) })).1.disk))
  unfolding complete_incoming_file
  complete-cases answers m a o e f i n l = ground arith

  complete-placed :
      (answers : Answers) (m : Message) (a : Attempt) (o : IncomingOffer) (e : ManifestEntry)
      (f : ReceivingFile)
      → a.incoming ≡ some o
      → find_manifest_file o m.path ≡ some e
      → lookup (key m.path) o.receiving_files ≡ some f
      → IsStream f
      → Left sha key o e a.disk (complete_incoming_file sha key answers m a).1.disk
        ⊎ IsPublication o e f.digested a.disk (complete_incoming_file sha key answers m a).1.disk
  unfolding incoming_path
  complete-placed answers m a o e f i n l s = elim (complete-cases answers m a o e f i n l) [
    | inl kept ↦ inl (same-IsLeft _ _ a.disk _ kept)
    | inr (accepted, whole, same_disk) ↦
        let same_content = close_file-digested sha key answers f in
        elim (settle_file-disk sha key answers m (closing answers m o f) e (close_file answers f)
          (close_file answers f).digested (record a { incoming = some (closing answers m o f) })
          (close_file-IsStream sha key answers f s)) [
            | inl left ↦ inl (subst (Left sha key o e a.disk) (sym same_disk) left)
            | inr (right, (below, mid, folders, (vacant, added))) ↦ inr (record {
              accepted = accepted;
              size = ground (arith, s.counted);
              approved =
                  ap (λ (c : Bytes). lower_hex (sha c)) (sym same_content)
                  ∙ verified-digest m e _ right;
              beneath = check_beneath-ok _ _ below;
              vacant = IsLeft-vacant _ (incoming_path key o e) a.disk mid folders vacant;
              mid = mid;
              folders = folders;
              added =
                  same_disk
                  ∙ added
                  ∙ ap (λ (c : Bytes). (incoming_path key o e, some c) ∷ mid) same_content;
            })
          ]
  ]

  -- Whatever the operating system answers, and whether or not the handler fails, a completion frame
  -- leaves the disk as it is, or changes folders alone (folders that the offer created are gone, or
  -- missing folders above the final path are made), or publishes one file: the entry that it names, of the
  -- offer that the user accepted, with the content that was streamed, whose size and SHA-256 are those of the
  -- approved manifest, below the destination, at a path where nothing stood before.
  pub complete_incoming_file-IsPublication :
      (answers : Answers) (m : Message) (a : Attempt)
      → ((o : IncomingOffer) → a.incoming ≡ some o → AreStreams key o.receiving_files)
      → ((complete_incoming_file sha key answers m a).1.disk ≡ a.disk)
        ⊎ ((o : IncomingOffer) × (e : ManifestEntry) × (a.incoming ≡ some o)
            × (find_manifest_file o m.path ≡ some e)
            × IsLeft
                (reverse o.created_directories)
                (above (incoming_path key o e))
                a.disk
                (complete_incoming_file sha key answers m a).1.disk)
        ⊎ ((o : IncomingOffer) × (e : ManifestEntry) × (content : Bytes) × (a.incoming ≡ some o)
            × (find_manifest_file o m.path ≡ some e)
            × IsPublication o e content a.disk (complete_incoming_file sha key answers m a).1.disk)
  unfolding complete_incoming_file
  complete_incoming_file-IsPublication answers m a streams = elim (Option-cases a.incoming) [
    | inl none_yet ↦ inl (ground arith)
    | inr (o, i) ↦ elim (Option-cases (find_manifest_file o m.path)) [
      | inl unknown ↦ inl (ground arith)
      | inr (e, n) ↦ elim (Option-cases (lookup (key m.path) o.receiving_files)) [
        | inl closed ↦ inl (ground arith)
        | inr (f, l) ↦
            elim (complete-placed answers m a o e f i n l ((streams o i).at (key m.path) f l).0) [
              | inl left ↦ inr (inl (o, e, i, n, left))
              | inr published ↦ inr (inr (o, e, f.digested, i, n, published))
            ]
      ]
    ]
  ]
