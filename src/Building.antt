-- ===== src/Building.antt =====
-- buildManifest of internal/terminal/manifest.go: the manifest of what the user offers. `key` is manifestPathKey
-- and `sha` the SHA-256 of a content. What the file system answers below a path is a tree.
pub mod Paths
pub mod Growth
pub mod Walks
pub mod Visits
pub mod Trees
pub mod Roots
pub mod Validation
mod Tests
use transferly.Prelude.{
  ℕ, ◌+◌, ◌-◌, ◌*◌, ◌≡◌, Bool, true, false, not, ◌&&◌, ◌||◌, List, [], ◌∷◌, ◌++◌, Option, none,
  some, Bytes, codes, same, ltb, leb, ◌==◌, if◌then◌else◌, length, any, Result, ok, fail, ◌>>=◌,
  ◌>>◌, reject_if,
}
use transferly.Prelude.Int.{ℤ}
use transferly.Text.FilePath.{FilePath}
use transferly.Safety.{accepts, max_manifest_entries, max_manifest_omissions}
use transferly.Protocol.{file, folder, ManifestEntry, ManifestOmission, OfferManifest}

pub record Attributes : Type 0 where
  pub modified : ℤ
  pub read_only : Bool
  pub hidden : Bool

-- What opening and reading a file gives: nothing, an error or another size or time at the end, or its content.
pub data Probe : Type 0 where
  unopened changed : Probe
  stable : Bytes → Probe

mutual
  -- What Lstat, readBasicAttributes and ReadDir say of a path; a folder comes with whether it can be listed.
  pub data Tree : Type 0 where
    vanished without_attributes link special : Tree
    regular : Attributes → ℕ → Probe → Tree
    directory : Attributes → Bool → Branches → Tree

  -- The listed names, each of one component.
  pub data Branches : Type 0 where
    no_more : Branches
    branch : Bytes → Tree → Branches → Branches

pub data BuildError : Type 0 where
  unresolved unsafe_name duplicate_root nothing_found too_many_entries unsafe_path
        too_many_omissions total_overflow aliases :
      BuildError

-- One call of walkManifestRoot: what it makes of the manifest so far.
abbrev pub Walk : Type 0
Walk = OfferManifest → Result BuildError OfferManifest

abbrev pub max_int64 : ℕ
max_int64 = 9223372036854775807

-- addManifestOmission
unfoldable pub add_manifest_omission : Bytes → Bytes → Walk
add_manifest_omission path reason m = do
  reject_if (leb max_manifest_omissions (length m.omissions)) too_many_omissions
  ok (record m { omissions = m.omissions ++ record { path = path; reason = reason } ∷ [] })

abbrev pub child_path : Bytes → Bytes → Bytes
child_path relative name = relative ++ b'/' ∷ name

-- `<` of strings
unfoldable pub precedes : Bytes → Bytes → Bool
precedes [] [] = false
precedes [] (b ∷ t) = true
precedes (a ∷ s) [] = false
precedes (a ∷ s) (b ∷ t) = ltb a b || a == b && precedes s t

unfoldable pub add_file : FilePath → Bytes → Attributes → ℕ → Bytes → Walk
add_file source relative a size digest m = do
  reject_if (ltb (max_int64 - m.total_bytes) size) total_overflow
  ok (record m {
    entries =
        m.entries
        ++ record {
          source_path = source;
          path = relative;
          kind = file;
          size = size;
          modified = a.modified;
          read_only = a.read_only;
          hidden = a.hidden;
          digest = digest;
        }
          ∷ [];
    file_count = m.file_count + 1;
    total_bytes = m.total_bytes + size;
  })

unfoldable pub add_folder : FilePath → Bytes → Attributes → OfferManifest → OfferManifest
add_folder source relative a m = record m {
  entries =
      m.entries
      ++ record {
        source_path = source;
        path = relative;
        kind = folder;
        size = 0;
        modified = a.modified;
        read_only = a.read_only;
        hidden = a.hidden;
        digest = [];
      }
        ∷ [];
  folder_count = m.folder_count + 1;
}

-- The two tests at the start of walkManifestRoot.
unfoldable pub guarded : Bytes → Walk → Walk
guarded relative walk m = do
  reject_if (leb max_manifest_entries (length m.entries)) too_many_entries
  reject_if (not (accepts relative)) unsafe_path
  walk m

-- A path of the command: where it leads, the name that Lstat gives, and what is there.
pub record Root : Type 0 where
  pub source : FilePath
  pub name : Bytes
  pub tree : Tree

abbrev pub no_manifest : OfferManifest
no_manifest = record {
  roots = [];
  entries = [];
  omissions = [];
  file_count = 0;
  folder_count = 0;
  total_bytes = 0;
}

module _ (sha : Bytes → Bytes) (key : Bytes → Bytes) where
  -- `sort.Slice` by the folded names. (Where two of them are equal, what follows fails.)
  unfoldable pub insert_by_key : Bytes × Walk → List (Bytes × Walk) → List (Bytes × Walk)
  insert_by_key c [] = c ∷ []
  insert_by_key c (d ∷ children) =
      let later = d ∷ insert_by_key c children in
      if precedes (key d.0) (key c.0) then later else c ∷ d ∷ children

  unfoldable pub sort_by_key : List (Bytes × Walk) → List (Bytes × Walk)
  sort_by_key [] = []
  sort_by_key (c ∷ children) = insert_by_key c (sort_by_key children)

  -- The loop over the children of a folder, with the folded names so far.
  unfoldable pub visit : List Bytes → List (Bytes × Walk) → Walk
  visit seen [] m = ok m
  visit seen ((name, walk) ∷ children) m = do
    reject_if (any (same (key name)) seen) aliases
    n ← walk m
    visit (key name ∷ seen) children n

  unfoldable pub walk_file : FilePath → Bytes → Attributes → ℕ → Probe → Walk
  walk_file source relative a size unopened m =
      add_manifest_omission relative (codes "unreadable") m
  walk_file source relative a size changed m =
      add_manifest_omission relative
        (codes "changed or could not be read while preparing the offer") m
  walk_file source relative a size (stable content) m =
      add_file source relative a size (sha content) m

  unfoldable pub walk_folder : FilePath → Bytes → Attributes → Bool → List (Bytes × Walk) → Walk
  walk_folder source relative a false children m =
      add_manifest_omission relative (codes "folder is unreadable") (add_folder source relative a m)
  walk_folder source relative a true children m =
      visit [] (sort_by_key children) (add_folder source relative a m)

  unfoldable mutual
    pub walk_manifest_root : Tree → FilePath → Bytes → Walk
    walk_manifest_root vanished source relative =
        guarded relative (add_manifest_omission relative (codes "unreadable or vanished"))
    walk_manifest_root without_attributes source relative =
        guarded relative (add_manifest_omission relative (codes "attributes could not be read"))
    walk_manifest_root link source relative = guarded relative (
        add_manifest_omission relative
          (codes "symbolic link, junction, or reparse point is unsupported"))
    walk_manifest_root special source relative =
        guarded relative (add_manifest_omission relative (codes "unsupported filesystem entry"))
    walk_manifest_root (regular a size probe) source relative =
        guarded relative (walk_file source relative a size probe)
    walk_manifest_root (directory a listed branches) source relative =
        guarded relative (walk_folder source relative a listed (walks branches source relative))

    pub walks : Branches → FilePath → Bytes → List (Bytes × Walk)
    walks no_more source relative = []
    walks (branch name tree branches) source relative =
        (name, walk_manifest_root tree (source ++ name ∷ []) (child_path relative name))
        ∷ walks branches source relative

  -- The loop of buildManifest; a path that Abs or Lstat refuses is none.
  unfoldable pub build_roots : List Bytes → List (Option Root) → Walk
  build_roots seen [] m = ok m
  build_roots seen (none ∷ roots) m = fail unresolved
  build_roots seen (some r ∷ roots) m = do
    reject_if (not (accepts r.name)) unsafe_name
    reject_if (any (same (key r.name)) seen) duplicate_root
    n ← walk_manifest_root r.tree r.source r.name (record m { roots = m.roots ++ r.name ∷ [] })
    build_roots (key r.name ∷ seen) roots n

  unfoldable pub build_manifest : List (Option Root) → Result BuildError OfferManifest
  build_manifest roots = do
    m ← build_roots [] roots no_manifest
    reject_if (length m.entries == 0) nothing_found
    ok m
