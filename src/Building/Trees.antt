-- ===== src/Building/Trees.antt =====
-- The walk of a whole tree.
use transferly.Prelude.{
  ℕ, ◌≡◌, refl, subst, ◌∙◌, Bool, true, false, not, ◌&&◌, List, [], ◌∷◌, ◌++◌, Bytes, same_refl,
  arith, leb, length, append-nil, All-append, reject_if-ok,
}
use transferly.Text.FilePath.{FilePath}
use transferly.Safety.{accepts, contains, max_manifest_entries}
use transferly.Protocol.{folder, ManifestEntry, OfferManifest}
use transferly.Intake.{parents}
use transferly.Intake.Hierarchy.{HasFolder}
use transferly.Building.{
  Attributes, Probe, unopened, changed, stable, Tree, vanished, without_attributes, link, special,
  regular, directory, Branches, no_more, branch, Walk, add_manifest_omission, child_path, add_file,
  add_folder, guarded, sort_by_key, walk_file, walk_folder, walk_manifest_root, walks,
}
use transferly.Building.Paths.{IsUnder, IsUnder-parent, IsUnder-above}
use transferly.Building.Growth.{IsFree, All-map, All-map_paths, entry_at_last, IsFree-entry_at}
use transferly.Building.Walks.{
  has_names, are_names, is_kept, root_of, IsFolding, Walked, IsWalk, Walked-trans,
  add_manifest_omission-Walked, add_file-Walked, add_folder-Walked,
}
use transferly.Building.Visits.{AreWalks, AreFree, visit-Walked, sort_by_key-All, HasFolder-Walked}

branch_names :
    (slash first rest : Bool)
    → (not slash && first && rest) ≡ true
    → (slash ≡ false) × (first ≡ true) × (rest ≡ true)
branch_names slash first rest h = (ground arith, ground arith, ground arith)

abbrev folder_entry : FilePath → Bytes → Attributes → ManifestEntry
folder_entry source relative a = record {
  source_path = source;
  path = relative;
  kind = folder;
  size = 0;
  modified = a.modified;
  read_only = a.read_only;
  hidden = a.hidden;
  digest = [];
}

module _ (sha : Bytes → Bytes) (key : Bytes → Bytes) (folding : IsFolding key) where
  guarded-IsWalk :
      (relative : Bytes) (kept : Bool) (walk : Walk)
      → (accepts relative ≡ true → IsWalk sha key folding relative kept walk)
      → IsWalk sha key folding relative kept (guarded relative walk)
  unfolding guarded
  guarded-IsWalk relative kept walk f m n h b under free =
      let (_, h₁) = reject_if-ok (leb max_manifest_entries (length m.entries)) _ _ h in
      let (safe, h₂) = reject_if-ok (not (accepts relative)) _ _ h₁ in
      f (ground (arith, safe)) m n h₂ b under free

  omitted-IsWalk :
      (relative reason : Bytes)
      → IsWalk sha key folding relative false
          (guarded relative (add_manifest_omission relative reason))
  unfolding root_of
  omitted-IsWalk relative reason =
      guarded-IsWalk relative false (add_manifest_omission relative reason)
        (λ safe m n h b under free.
          subst (λ r. Walked sha key folding relative r m n) (ground arith)
            (add_manifest_omission-Walked sha key folding relative relative reason m n h b))

  add_folder-HasFolder :
      (source : FilePath) (relative : Bytes) (a : Attributes) (m : OfferManifest)
      → IsFree key (key relative) m.entries
      → HasFolder key (add_folder source relative a m).entries relative
  unfolding add_folder
  add_folder-HasFolder source relative a m free = (
    folder_entry source relative a,
    entry_at_last key (key relative) (folder_entry source relative a) m.entries
          (IsFree-entry_at key (key relative) m.entries free)
        ∙ rw (same_refl (key relative)) refl,
    refl,
  )

  add_folder-AreFree :
      (source : FilePath) (relative : Bytes) (a : Attributes) (m : OfferManifest)
      → IsFree key (key relative) m.entries
      → AreFree sha key folding relative [] (add_folder source relative a m)
  unfolding add_folder
  add_folder-AreFree source relative a m free name plain fresh =
      let below : (x : Bytes)
          → IsUnder (key (child_path relative name)) x
          → IsUnder (child_path (key relative) (key name)) x =
        λ x u. subst (λ k. IsUnder k x) (folding.joins relative name) u in
      All-append (λ e. IsUnder (key (child_path relative name)) (key e.path) → ⊥) m.entries (_ ∷ [])
        (All-map
          (λ e away u.
            away (IsUnder-parent (key relative) (key name) (key e.path) (below (key e.path) u)))
          m.entries free)
        (λ u. IsUnder-above (key relative) (key name) (below (key relative) u), tt)

  walk_folder-IsWalk :
      (source : FilePath) (relative : Bytes) (a : Attributes) (listed : Bool)
      (children : List (Bytes × Walk))
      → AreWalks sha key folding relative children
      → accepts relative ≡ true
      → IsWalk sha key folding relative true (walk_folder sha key source relative a listed children)
  unfolding walk_folder
  walk_folder-IsWalk source relative a false children walks safe m n h b under free =
      let f = add_folder-Walked sha key folding source relative a m safe b under free in
      subst (λ r. Walked sha key folding relative r m n) (append-nil (root_of relative true))
        (Walked-trans sha key folding relative (root_of relative true) [] m
          (add_folder source relative a m) n f
          (add_manifest_omission-Walked sha key folding relative relative _
            (add_folder source relative a m) n h f.built))
  walk_folder-IsWalk source relative a true children walks safe m n h b under free =
      let o = add_folder source relative a m in
      let f = add_folder-Walked sha key folding source relative a m safe b under free in
      let here : HasFolder key o.entries relative = add_folder-HasFolder source relative a m free in
      let later =
        visit-Walked sha key folding relative [] (sort_by_key sha key children) o n h
          (sort_by_key-All sha key folding relative children walks) f.built here
          (All-map_paths
            (λ p x. HasFolder-Walked sha key folding relative (root_of relative true) m o p f x)
            (parents relative) under)
          (add_folder-AreFree source relative a m free) in
      subst (λ r. Walked sha key folding relative r m n) (append-nil (root_of relative true))
        (Walked-trans sha key folding relative (root_of relative true) [] m o n f later)

  walk_file-IsWalk :
      (source : FilePath) (relative : Bytes) (a : Attributes) (size : ℕ) (probe : Probe)
      → IsWalk sha key folding relative
          (is_kept (regular a size probe))
          (guarded relative (walk_file sha key source relative a size probe))
  unfolding walk_file is_kept
  walk_file-IsWalk source relative a size unopened = omitted-IsWalk relative _
  walk_file-IsWalk source relative a size changed = omitted-IsWalk relative _
  walk_file-IsWalk source relative a size (stable content) =
      guarded-IsWalk relative true (add_file source relative a size (sha content))
        (λ safe m n h b under free.
          add_file-Walked sha key folding source relative a size (sha content) m n safe h b under
            free)

  mutual
    unfolding has_names is_kept walk_manifest_root

    pub walk_manifest_root-IsWalk :
        (tree : Tree) (source : FilePath) (relative : Bytes)
        → has_names tree ≡ true
        → IsWalk sha key folding relative
            (is_kept tree)
            (walk_manifest_root sha key tree source relative)
    walk_manifest_root-IsWalk vanished source relative h = omitted-IsWalk relative _
    walk_manifest_root-IsWalk without_attributes source relative h = omitted-IsWalk relative _
    walk_manifest_root-IsWalk link source relative h = omitted-IsWalk relative _
    walk_manifest_root-IsWalk special source relative h = omitted-IsWalk relative _
    walk_manifest_root-IsWalk (regular a size probe) source relative h =
        walk_file-IsWalk source relative a size probe
    walk_manifest_root-IsWalk (directory a listed branches) source relative h =
        guarded-IsWalk relative true
          (walk_folder sha key source relative a listed (walks sha key branches source relative))
          (walk_folder-IsWalk source relative a listed (walks sha key branches source relative)
            (walks-AreWalks branches source relative h))

    walks-AreWalks :
        (branches : Branches) (source : FilePath) (relative : Bytes)
        → are_names branches ≡ true
        → AreWalks sha key folding relative (walks sha key branches source relative)
    walks-AreWalks no_more source relative h = tt
    walks-AreWalks (branch name tree branches) source relative h =
        let (plain, first, rest) =
          branch_names (contains name b'/') (has_names tree) (are_names branches) h in
        (
          (
            plain,
            is_kept tree,
            walk_manifest_root-IsWalk tree (source ++ name ∷ []) (child_path relative name) first,
          ),
          walks-AreWalks branches source relative rest,
        )
