-- ===== src/Receive/Cleanup.antt =====
-- internal/terminal/cleanup.go: what is removed of an offer that is received. The staging area is apart from the
-- disk: its files are the `staged` of the streams, and its folder is there for them alone, since
-- removeEmptyStagingDirectory follows each removal.
use transferly.Prelude.{
  Bool, true, false, ◌&&◌, List, [], ◌∷◌, reverse, none, some, same, Bytes, Dict, if◌then◌else◌,
  any,
}
use transferly.Text.FilePath.{FilePath}
use transferly.Protocol.{IncomingOffer, ReceivingFile, Attempt, Disk}
use transferly.Receive.{remove_node}

-- A proper prefix.
unfoldable pub is_below : FilePath → FilePath → Bool
is_below [] [] = false
is_below [] (c ∷ q) = true
is_below (c ∷ p) [] = false
is_below (c ∷ p) (d ∷ q) = same c d && is_below p q

-- `os.Remove`: a folder with something in it stays.
unfoldable pub remove_empty : FilePath → Disk → Disk
remove_empty path disk =
    if any (λ (p, n). is_below path p) disk then disk else remove_node path disk

unfoldable pub remove_each : List FilePath → Disk → Disk
remove_each [] disk = disk
remove_each (path ∷ paths) disk = remove_each paths (remove_empty path disk)

-- The files in the staging area.
unfoldable pub staged_files : Dict ReceivingFile → List Bytes
staged_files [] = []
staged_files ((k, f) ∷ files) = elim f.staged [
  | none ↦ staged_files files
  | some content ↦ content ∷ staged_files files
]

-- removeIncomingStaging: every stream is closed, and removed with its staged file.
unfoldable pub remove_incoming_staging : IncomingOffer → IncomingOffer
remove_incoming_staging o = record o { receiving_files = [] }

-- removeCreatedDirectories, the last one first
unfoldable pub remove_created_directories : IncomingOffer → Disk → IncomingOffer × Disk
remove_created_directories o disk =
    (record o { created_directories = [] }, remove_each (reverse o.created_directories) disk)

-- removeIncomingFiles: the offer without its files, and the disk.
unfoldable pub remove_incoming_files : IncomingOffer → Disk → IncomingOffer × Disk
remove_incoming_files o disk = remove_created_directories (remove_incoming_staging o) disk

-- removeIncomingFiles of the offer that the attempt is receiving.
unfoldable pub remove_received : IncomingOffer → Attempt → Attempt
remove_received o a =
    let (p, disk) = remove_incoming_files o a.disk in record a { incoming = some p; disk = disk }

-- cleanupIncoming, after the review of the offer has ended
unfoldable pub cleanup_incoming : Attempt → Attempt
cleanup_incoming a = elim a.incoming [
  | none ↦ a
  | some o ↦ record (remove_received o a) { incoming = none }
]
