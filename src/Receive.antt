-- ===== src/Receive.antt =====
-- internal/terminal/receive.go, removal of incomplete content in internal/terminal/cleanup.go, and the
-- paths of internal/terminal/staging.go: an accepted offer's content, chunk by chunk, into staged files
-- and from there to its final places.
pub mod Cleanup
pub mod Removal
pub mod Files
pub mod Handlers
pub mod Chunks
pub mod Branches
pub mod Settled
pub mod Placing
pub mod Publication
pub mod Outcomes
mod Tests
use transferly.Prelude.{
  ℕ, ◌+◌, ◌-◌, ◌*◌, ◌≡◌, Bool, true, false, not, ◌&&◌, ◌||◌, List, [], ◌∷◌, ◌++◌, Option, none,
  some, Bytes, codes, same, ltb, leb, ◌==◌, if◌then◌else◌, length, take, drop, any, map, is_some,
  Dict, lookup, insert, delete, Result, ok, fail,
}
use transferly.Protocol.{Disk, Node}
use transferly.Text.FilePath.{FilePath}
use transferly.Safety.{ensure_path_beneath}

abbrev pub stream_chunk_bytes : ℕ
stream_chunk_bytes = 1024 * 1024

-- What the operating system answers to the calls of one handler. Whatever is not an answer here is
-- computed from the state.
pub record Answers : Type 0 where
  -- rejectReparseAncestors, MkdirAll and CreateTemp of startReceivingFile
  pub staging_opens : Bool
  -- the write of recoverableWriter takes the whole chunk
  pub write_succeeds : Bool
  pub sync_succeeds : Bool
  pub close_succeeds : Bool
  -- rejectReparseAncestors of the folder of the final path
  pub ancestors_safe : Bool
  -- whether MkdirAll of that folder succeeds, and which of the missing folders it makes where it fails
  pub folder_made : Bool
  pub makes : FilePath → Bool
  -- Link and Remove of publishWithoutOverwrite, where no file is in the way
  pub link_succeeds : Bool
  pub metadata_succeeds : Bool
  -- Remove of the final path where its metadata cannot be written
  pub remove_succeeds : Bool

unfoldable pub same_path : FilePath → FilePath → Bool
same_path [] [] = true
same_path (a ∷ p) (b ∷ q) = same a b && same_path p q
same_path _ _ = false

-- `os.Lstat` finds something.
unfoldable pub node_at : FilePath → Disk → Option Node
node_at path [] = none
node_at path ((p, n) ∷ disk) = if same_path p path then some n else node_at path disk

unfoldable pub remove_node : FilePath → Disk → Disk
remove_node path [] = []
remove_node path ((p, n) ∷ disk) =
    let rest = remove_node path disk in if same_path p path then rest else (p, n) ∷ rest

-- The folders above a path, the outermost first.
unfoldable pub above : FilePath → List FilePath
above [] = []
above (c ∷ []) = []
above (c ∷ d ∷ path) = (c ∷ []) ∷ map (λ p. c ∷ p) (above (d ∷ path))

-- `os.MkdirAll` of the folders `paths`, as far as `makes` says: a folder is made where nothing stands.
unfoldable pub make_folders : (FilePath → Bool) → List FilePath → Disk → Disk
make_folders makes [] disk = disk
make_folders makes (path ∷ paths) disk =
    make_folders makes paths
      (if makes path && not (is_some (node_at path disk)) then (path, none) ∷ disk else disk)

-- publishWithoutOverwrite: a link is never made over something that stands there already.
unfoldable pub publish : Bool → FilePath → Bytes → Disk → Option Disk
publish link_succeeds path content disk =
    if is_some (node_at path disk) || not link_succeeds
    then none
    else some ((path, some content) ∷ disk)

-- The wire gives the next `size` bytes, or ends before.
unfoldable pub read_chunk : ℕ → Bytes → Option (Bytes × Bytes)
read_chunk size wire =
    if leb size (length wire) then some (take size wire, drop size wire) else none
