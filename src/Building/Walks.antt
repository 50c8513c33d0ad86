-- ===== src/Building/Walks.antt =====
-- walkManifestRoot adds entries at its path and below it only, and what it adds is well formed.
use transferly.Prelude.{
  ℕ, ◌+◌, ◌-◌, ◌≡◌, refl, ap, sym, subst, ◌∙◌, Bool, true, false, not, ◌&&◌, List, [], ◌∷◌, ◌++◌,
  Bytes, arith, ltb, leb, if◌then◌else◌, length, append_assoc, append-nil, All, All-append, ok,
  reject_if-ok,
}
use transferly.Text.FilePath.{FilePath}
use transferly.Safety.{accepts, contains, max_manifest_omissions}
use transferly.Protocol.{file, folder, ManifestEntry, OfferManifest}
use transferly.Intake.{parents}
use transferly.Intake.Tallies.{root_paths}
use transferly.Intake.Hierarchy.{HasFolder}
use transferly.Building.{
  Attributes, stable, Tree, regular, directory, Branches, no_more, branch, Walk, max_int64,
  add_manifest_omission, child_path, add_file, add_folder,
}
use transferly.Building.Paths.{IsUnder, IsUnder-refl, IsName, IsUnder-parent}
use transferly.Building.Growth.{IsBuilt, IsBuilt-append, IsFree, root_paths-append, All-map}

-- The names that a tree lists have no slash.
unfoldable mutual
  pub has_names : Tree → Bool
  has_names (directory a listed branches) = are_names branches
  has_names _ = true

  pub are_names : Branches → Bool
  are_names no_more = true
  are_names (branch name tree branches) =
      not (contains name b'/') && has_names tree && are_names branches

-- The tree gives an entry, not an omission.
unfoldable pub is_kept : Tree → Bool
is_kept (regular a size (stable content)) = true
is_kept (directory a listed branches) = true
is_kept _ = false

-- The roots that an entry at this path adds.
unfoldable pub root_of : Bytes → Bool → List Bytes
root_of relative kept = if contains relative b'/' then [] else if kept then relative ∷ [] else []

-- Folding works component by component.
pub record IsFolding (key : Bytes → Bytes) : Type 0 where
  pub joins : (path name : Bytes) → key (child_path path name) ≡ child_path (key path) (key name)
  pub names : (name : Bytes) → IsName name → IsName (key name)

module _ (sha : Bytes → Bytes) (key : Bytes → Bytes) (folding : IsFolding key) where
  -- From `m` to `n` only entries at `relative` and below it were added.
  pub record Walked (relative : Bytes) (roots : List Bytes) (m n : OfferManifest) : Type 0 where
    pub new : List ManifestEntry
    pub added : n.entries ≡ m.entries ++ new
    pub under : All (λ e. IsUnder (key relative) (key e.path)) new
    pub built : IsBuilt key n
    pub same_roots : n.roots ≡ m.roots
    pub paths : root_paths n.entries ≡ root_paths m.entries ++ roots

  -- What a call for `relative` does, where its folders are listed and nothing stands there.
  abbrev pub IsWalk : Bytes → Bool → Walk → Type 0
  IsWalk relative kept walk =
      (m n : OfferManifest)
      → walk m ≡ ok n
      → IsBuilt key m
      → All (HasFolder key m.entries) (parents relative)
      → IsFree key (key relative) m.entries
      → Walked relative (root_of relative kept) m n

  pub Walked-refl : (relative : Bytes) (m : OfferManifest) → IsBuilt key m → Walked relative [] m m
  Walked-refl relative m b = record {
    new = [];
    added = sym (append-nil m.entries);
    under = tt;
    built = b;
    same_roots = refl;
    paths = sym (append-nil (root_paths m.entries));
  }

  pub Walked-trans :
      (relative : Bytes) (r s : List Bytes) (m n o : OfferManifest)
      → Walked relative r m n
      → Walked relative s n o
      → Walked relative (r ++ s) m o
  Walked-trans relative r s m n o v w = record {
    new = v.new ++ w.new;
    added = w.added ∙ ap (λ es. es ++ w.new) v.added ∙ append_assoc m.entries v.new w.new;
    under = All-append (λ e. IsUnder (key relative) (key e.path)) v.new w.new v.under w.under;
    built = w.built;
    same_roots = w.same_roots ∙ v.same_roots;
    paths = w.paths ∙ ap (λ rs. rs ++ s) v.paths ∙ append_assoc (root_paths m.entries) r s;
  }

  pub Walked-child :
      (relative name : Bytes) (r : List Bytes) (m n : OfferManifest)
      → Walked (child_path relative name) r m n
      → Walked relative r m n
  Walked-child relative name r m n w = record {
    new = w.new;
    added = w.added;
    under =
        All-map
          (λ e u.
            IsUnder-parent (key relative) (key name) (key e.path)
              (subst (λ k. IsUnder k (key e.path)) (folding.joins relative name) u))
          w.new w.under;
    built = w.built;
    same_roots = w.same_roots;
    paths = w.paths;
  }

  pub add_manifest_omission-Walked :
      (relative path reason : Bytes) (m n : OfferManifest)
      → add_manifest_omission path reason m ≡ ok n
      → IsBuilt key m
      → Walked relative [] m n
  unfolding add_manifest_omission
  add_manifest_omission-Walked relative path reason m n h b =
      let (_, done) = reject_if-ok (leb max_manifest_omissions (length m.omissions)) _ _ h in
      let o : OfferManifest = record m {
        omissions = m.omissions ++ record { path = path; reason = reason } ∷ [];
      } in
      let e : o ≡ n = cc (done) in
      subst (Walked relative [] m) e (record {
        new = [];
        added = sym (append-nil m.entries);
        under = tt;
        built = record {
          safe = b.safe;
          distinct = b.distinct;
          known = b.known;
          closed = b.closed;
          files = b.files;
          folders = b.folders;
          bytes = b.bytes;
        };
        same_roots = refl;
        paths = sym (append-nil (root_paths m.entries));
      })

  -- One more entry.
  Walked-entry :
      (e : ManifestEntry) (m n : OfferManifest)
      → n.entries ≡ m.entries ++ e ∷ []
      → n.roots ≡ m.roots
      → IsBuilt key n
      → Walked e.path (root_of e.path true) m n
  unfolding root_of
  Walked-entry e m n entries roots b = record {
    new = e ∷ [];
    added = entries;
    under = (IsUnder-refl (key e.path), tt);
    built = b;
    same_roots = roots;
    paths = ap root_paths entries ∙ root_paths-append m.entries e;
  }

  pub add_file-Walked :
      (source : FilePath) (relative : Bytes) (a : Attributes) (size : ℕ) (digest : Bytes)
      (m n : OfferManifest)
      → accepts relative ≡ true
      → add_file source relative a size digest m ≡ ok n
      → IsBuilt key m
      → All (HasFolder key m.entries) (parents relative)
      → IsFree key (key relative) m.entries
      → Walked relative (root_of relative true) m n
  unfolding add_file
  add_file-Walked source relative a size digest m n safe h b under free =
      let (_, done) = reject_if-ok (ltb (max_int64 - m.total_bytes) size) _ _ h in
      let e : ManifestEntry = record {
        source_path = source;
        path = relative;
        kind = file;
        size = size;
        modified = a.modified;
        read_only = a.read_only;
        hidden = a.hidden;
        digest = digest;
      } in
      let o : OfferManifest = record m {
        entries = m.entries ++ e ∷ [];
        file_count = m.file_count + 1;
        total_bytes = m.total_bytes + size;
      } in
      let eq : o ≡ n = cc (done) in
      subst (Walked relative (root_of relative true) m) eq (
        Walked-entry e m o refl refl
          (IsBuilt-append key m o e b refl refl (omega arith) refl safe refl under free))

  pub add_folder-Walked :
      (source : FilePath) (relative : Bytes) (a : Attributes) (m : OfferManifest)
      → accepts relative ≡ true
      → IsBuilt key m
      → All (HasFolder key m.entries) (parents relative)
      → IsFree key (key relative) m.entries
      → Walked relative (root_of relative true) m (add_folder source relative a m)
  unfolding add_folder
  add_folder-Walked source relative a m safe b under free =
      let e : ManifestEntry = record {
        source_path = source;
        path = relative;
        kind = folder;
        size = 0;
        modified = a.modified;
        read_only = a.read_only;
        hidden = a.hidden;
        digest = [];
      } in
      let o : OfferManifest = record m {
        entries = m.entries ++ e ∷ [];
        folder_count = m.folder_count + 1;
      } in
      Walked-entry e m o refl refl
        (IsBuilt-append key m o e b refl (omega arith) refl (omega arith) safe refl under free)
