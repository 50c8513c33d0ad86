-- ===== src/Receive/Files.antt =====
-- The pieces of receive.go that look at one offer or one staged file.
use transferly.Prelude.{
  ◌+◌, Bool, true, false, not, ◌&&◌, ◌||◌, List, [], ◌∷◌, ◌++◌, Option, none, some, Bytes, same,
  if◌then◌else◌, length, any, Dict, lookup, delete,
}
use transferly.Text.Split.{split}
use transferly.Text.FilePath.{FilePath, clean}
use transferly.Protocol.{ManifestEntry, IncomingOffer, ReceivingFile}
use transferly.Intake.{is_file}
use transferly.Receive.{Answers}

abbrev pub is_named : Bytes → ManifestEntry → Bool
is_named path e = is_file e.kind && same e.path path

unfoldable pub first_named : Bytes → List ManifestEntry → Option ManifestEntry
first_named path [] = none
first_named path (e ∷ es) = if is_named path e then some e else first_named path es

-- findManifestFile
unfoldable pub find_manifest_file : IncomingOffer → Bytes → Option ManifestEntry
unfolding first_named
find_manifest_file o path = first_named path o.manifest.entries

-- startReceivingFile; without a staged file the content is only digested.
unfoldable pub start_receiving_file : Answers → ManifestEntry → ReceivingFile
start_receiving_file answers e = record {
  entry = e;
  staged = if answers.staging_opens then some [] else none;
  is_open = answers.staging_opens;
  digested = [];
  received = 0;
  write_failed = not answers.staging_opens;
}

-- recoverableWriter.Write: after the first failure nothing more is written, and it never reports one.
unfoldable pub write_staged : Answers → Bytes → ReceivingFile → ReceivingFile
write_staged answers content f = elim f.staged [
  | none ↦ f
  | some written ↦
      if f.write_failed
      then f
      else if answers.write_succeeds
      then record f { staged = some (written ++ content) }
      else record f { write_failed = true }
]

-- What ReceiveChunk writes for receiveContent, into the file and into the digest.
unfoldable pub write_chunk : Answers → Bytes → ReceivingFile → ReceivingFile
unfolding write_staged
write_chunk answers content f =
    let g = write_staged answers content f in record g { digested = g.digested ++ content }

-- The end of receiveContent, for a chunk that came as a whole.
unfoldable pub take_chunk : Answers → Bytes → ReceivingFile → ReceivingFile
unfolding write_chunk
take_chunk answers content f =
    let g = write_chunk answers content f in record g { received = g.received + length content }

-- `Sync` and `Close` of completeIncomingFile.
unfoldable pub close_file : Answers → ReceivingFile → ReceivingFile
close_file answers f =
    if f.is_open
    then (record f {
      is_open = false;
      write_failed = f.write_failed || not answers.sync_succeeds || not answers.close_succeeds;
    })
    else f

module _ (key : Bytes → Bytes) where
  below : Dict FilePath → List Bytes → FilePath
  below paths [] = []
  below paths (p ∷ []) = elim (lookup (key p) paths) [ none ↦ [] | some root ↦ root ]
  below paths (p ∷ q ∷ parts) = elim (lookup (key p) paths) [
    | none ↦ clean (q ∷ parts)
    | some root ↦ clean (root ++ q ∷ parts)
  ]

  -- incomingPath. (A root with no final path would give a relative path; every root has one.)
  unfoldable pub incoming_path : IncomingOffer → ManifestEntry → FilePath
  unfolding below
  incoming_path o e = below o.final_paths (split b'/' e.path)

  -- removeIncomingStream
  unfoldable pub remove_incoming_stream : Bytes → IncomingOffer → IncomingOffer
  remove_incoming_stream path o = record o { receiving_files = delete (key path) o.receiving_files }

  -- `incoming.fileOutcomes[key] = struct{}{}`
  unfoldable pub add_outcome : Bytes → IncomingOffer → IncomingOffer
  add_outcome path o = record o { file_outcomes = key path ∷ o.file_outcomes }

  abbrev pub has_outcome : Bytes → IncomingOffer → Bool
  has_outcome path o = any (same (key path)) o.file_outcomes
