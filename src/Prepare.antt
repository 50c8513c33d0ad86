-- ===== src/Prepare.antt =====
-- prepareIncoming of internal/terminal/staging.go: the folders of an offer that is being accepted. The staging
-- area is not part of the disk here, as in Receive.
pub mod Tidy
pub mod Rollback
mod Tests
use transferly.Prelude.{
  ℕ, ◌+◌, ◌≡◌, Bool, true, false, not, ◌&&◌, ◌||◌, List, [], ◌∷◌, ◌++◌, reverse, Option, none, some,
  Bytes, codes, same, ltb, leb, ◌==◌, if◌then◌else◌, length, is_some, lookup, Result, ok, fail,
}
use transferly.Text.FilePath.{FilePath}
use transferly.Safety.{BeneathError, ensure_path_beneath, contains}
use transferly.Protocol.{ManifestEntry, IncomingOffer, Disk, Node}
use transferly.Protocol.Exec.{Exec, pure, raise, lift, ◌>>=◌, ◌>>◌, stop_if}
use transferly.Intake.{is_folder}
use transferly.Intake.Tallies.{entry_at}
use transferly.Receive.{node_at}
use transferly.Receive.Files.{incoming_path}
use transferly.Receive.Cleanup.{remove_each}

-- What the operating system answers: rejectExistingReparseComponents before and after, whether the destination
-- is a folder, availableDiskBytes (whether it answers, and with what where that is reliable), whether Mkdir may
-- make a path, whether Lstat fails at one for another reason than that nothing is there, and the staging area.
pub record Answers : Type 0 where
  pub safe_before : Bool
  pub safe_after : Bool
  pub destination_is_folder : Bool
  pub space_answers : Bool
  pub space : Option ℕ
  pub makes : FilePath → Bool
  pub unreadable : FilePath → Bool
  pub staging_safe : Bool
  pub staging_made : Bool

pub data PrepareError : Type 0 where
  stale_staging destination_unsafe destination_not_made destination_not_folder space_unknown
        space_short :
      PrepareError
  root_without_entry unavailable folder_not_made staging_unsafe staging_not_made : PrepareError
  outside : BeneathError → PrepareError

-- The folders made so far, and the disk.
pub record Made : Type 0 where
  pub created : List FilePath
  pub disk : Disk

abbrev pub Preparing : Type 0
Preparing = Exec Made PrepareError (Unit {0})

unfoldable pub is_folder_node : Option Node → Bool
is_folder_node (some none) = true
is_folder_node _ = false

unfoldable pub parent : FilePath → FilePath
parent [] = []
parent (c ∷ []) = []
parent (c ∷ d ∷ path) = c ∷ parent (d ∷ path)

-- `os.Mkdir`: below a folder, where nothing stands.
unfoldable pub mkdir : Answers → FilePath → Disk → Option Disk
mkdir answers path disk =
    if is_some (node_at path disk)
      || not (is_folder_node (node_at (parent path) disk))
      || not (answers.makes path)
    then none
    else some ((path, none) ∷ disk)

-- `os.MkdirAll` below `done`: each folder that is missing, until one is a file or cannot be made.
unfoldable pub make_all : Answers → FilePath → FilePath → Disk → Bool × Disk
make_all answers done [] disk = (true, disk)
make_all answers done (c ∷ path) disk =
    let below = done ++ c ∷ [] in
    let on = make_all answers below path disk in
    let made = make_all answers below path ((below, none) ∷ disk) in
    elim (node_at below disk) [
      | some n ↦ if is_folder_node (some n) then on else (false, disk)
      | none ↦ if answers.makes below then made else (false, disk)
    ]

unfoldable pub note_made : FilePath → Option Disk → PrepareError → Preparing
note_made path none e s = (fail e, s)
note_made path (some disk) e s = (ok tt, record { created = s.created ++ path ∷ []; disk = disk })

-- `os.Mkdir`, with the path among incoming.createdDirectories.
unfoldable pub make_folder : Answers → FilePath → PrepareError → Preparing
make_folder answers path e s = note_made path (mkdir answers path s.disk) e s

unfoldable pub check_beneath : FilePath → FilePath → Preparing
check_beneath destination path s = elim (ensure_path_beneath destination path) [
  | ok u ↦ (ok tt, s)
  | fail e ↦ (fail (outside e), s)
]

unfoldable pub check_free : Answers → FilePath → Preparing
check_free answers path s =
    if is_some (node_at path s.disk) || answers.unreadable path
    then (fail unavailable, s)
    else (ok tt, s)

unfoldable pub or_fail : {A : Type 0} → PrepareError → Option A → Exec Made PrepareError A
or_fail e none s = (fail e, s)
or_fail e (some x) s = (ok x, s)

-- `strings.Count(path, "/")`
unfoldable pub depth : Bytes → ℕ
depth [] = 0
depth (c ∷ path) = let rest = depth path in if c == b'/' then rest + 1 else rest

unfoldable pub insert_by_depth : ManifestEntry → List ManifestEntry → List ManifestEntry
insert_by_depth e [] = e ∷ []
insert_by_depth e (f ∷ folders) =
    let later = f ∷ insert_by_depth e folders in
    if ltb (depth f.path) (depth e.path) then later else e ∷ f ∷ folders

-- `sort.Slice` by the depth.
unfoldable pub sort_by_depth : List ManifestEntry → List ManifestEntry
sort_by_depth [] = []
sort_by_depth (e ∷ folders) = insert_by_depth e (sort_by_depth folders)

unfoldable pub nested_folders : List ManifestEntry → List ManifestEntry
nested_folders [] = []
nested_folders (e ∷ es) =
    let rest = nested_folders es in
    if is_folder e.kind && contains e.path b'/' then e ∷ rest else rest

module _ (key : Bytes → Bytes) (answers : Answers) (o : IncomingOffer) where
  -- `incoming.finalPaths[manifestPathKey(root)]`
  unfoldable pub final_path : Bytes → FilePath
  final_path root = elim (lookup (key root) o.final_paths) [ none ↦ [] | some path ↦ path ]

  unfoldable pub prepare_root : Bytes → ManifestEntry → Preparing
  prepare_root root e = do
    check_beneath o.destination (final_path root)
    check_free answers (final_path root)
    if is_folder e.kind then make_folder answers (final_path root) unavailable else pure tt

  -- The loop over the roots.
  unfoldable pub prepare_roots : List Bytes → Preparing
  prepare_roots [] = pure tt
  prepare_roots (root ∷ roots) = do
    e ← or_fail root_without_entry (entry_at key (key root) o.manifest.entries)
    prepare_root root e
    prepare_roots roots

  -- The loop over the folders below the roots.
  unfoldable pub prepare_folders : List ManifestEntry → Preparing
  prepare_folders [] = pure tt
  prepare_folders (e ∷ folders) = do
    check_beneath o.destination (incoming_path key o e)
    make_folder answers (incoming_path key o e) folder_not_made
    prepare_folders folders

  -- From the roots on: what fails here is rolled back.
  unfoldable pub prepare_content : Preparing
  prepare_content = do
    prepare_roots o.manifest.roots
    prepare_folders (sort_by_depth (nested_folders o.manifest.entries))
    check_beneath o.destination (o.destination ++ codes ".transferly-staging" ∷ [])
    stop_if (not answers.staging_safe) staging_unsafe
    stop_if (not answers.staging_made) staging_not_made

  -- `rollbackRoots` where it fails.
  unfoldable pub or_rollback :
      Result PrepareError (Unit {0}) × Made → Result PrepareError (Unit {0}) × IncomingOffer × Disk
  or_rollback (ok u, s) = (ok u, record o { created_directories = s.created }, s.disk)
  or_rollback (fail e, s) =
      (fail e, record o { created_directories = [] }, remove_each (reverse s.created) s.disk)

  unfoldable pub short_of_space : Bool
  short_of_space = elim answers.space [
    | none ↦ false
    | some available ↦ ltb available o.manifest.total_bytes
  ]

  -- prepareIncoming once MkdirAll of the destination has left `disk`.
  unfoldable pub prepare_at : Disk → Result PrepareError (Unit {0}) × IncomingOffer × Disk
  prepare_at disk =
      if not answers.safe_after
      then (fail destination_unsafe, o, disk)
      else if not answers.destination_is_folder
      then (fail destination_not_folder, o, disk)
      else if not answers.space_answers
      then (fail space_unknown, o, disk)
      else if short_of_space
      then (fail space_short, o, disk)
      else or_rollback (prepare_content (record { created = []; disk = disk }))

  unfoldable pub after_make_all :
      Bool × Disk → Result PrepareError (Unit {0}) × IncomingOffer × Disk
  after_make_all (false, disk) = (fail destination_not_made, o, disk)
  after_make_all (true, disk) = prepare_at disk

  unfoldable pub prepare_incoming : Disk → Result PrepareError (Unit {0}) × IncomingOffer × Disk
  prepare_incoming disk =
      if o.stale_staging
      then (fail stale_staging, o, disk)
      else if not answers.safe_before
      then (fail destination_unsafe, o, disk)
      else after_make_all (make_all answers [] o.destination disk)
