-- ===== src/Intake/Completeness.antt =====
-- Every well-formed manifest is accepted.
use transferly.Prelude.{
  ℕ, ◌+◌, ◌≤◌, ◌≡◌, refl, sym, subst, ◌∙◌, true, ◌||◌, List, [], ◌∷◌, ◌++◌, none, Bytes, same_iff,
  arith, if◌then◌else◌, Dict, lookup, insert, lookup-insert, ok, All,
}
use transferly.Safety.{accepts, contains}
use transferly.Protocol.{EntryKind, file, folder, other_kind, ManifestEntry}
use transferly.Protocol.Errors.{unsafe_path}
use transferly.Intake.{
  Tally, no_tally, is_file, is_folder, parents, check_path, count_entry, tally_entry, tally,
  check_parents, check_hierarchy,
}
use transferly.Intake.Tallies.{file_bytes, entry_at, IsDistinct}
use transferly.Intake.Hierarchy.{HasFolder}

check_path-ok : (path : Bytes) → accepts path ≡ true → check_path unsafe_path path ≡ ok tt
unfolding check_path
check_path-ok path h = ground arith

-- A file that fits, or a folder.
count_entry-ok :
    (total : ℕ) (e : ManifestEntry) (kind : EntryKind) (t : Tally)
    → (is_file kind || is_folder kind) ≡ true
    → t.bytes + (if is_file kind then e.size else 0) ≤ total
    → (u : Tally) × (count_entry total e kind t ≡ ok u)
      × (u.bytes ≡ t.bytes + (if is_file kind then e.size else 0))
      × (u.seen ≡ t.seen)
unfolding count_entry
count_entry-ok total e file t k fits =
    (record t { files = t.files + 1; bytes = t.bytes + e.size }, ground arith, ground arith, refl)
count_entry-ok total e folder t k fits =
    (record t { folders = t.folders + 1 }, refl, ground arith, refl)
count_entry-ok total e (other_kind n) t k fits = cc

module _ (key : Bytes → Bytes) where
  tally_entry-ok :
      (total : ℕ) (e : ManifestEntry) (t : Tally)
      → accepts e.path ≡ true
      → lookup (key e.path) t.seen ≡ none
      → (is_file e.kind || is_folder e.kind) ≡ true
      → t.bytes + (if is_file e.kind then e.size else 0) ≤ total
      → (u : Tally) × (tally_entry key total e t ≡ ok u)
        × (u.bytes ≡ t.bytes + (if is_file e.kind then e.size else 0))
        × (u.seen ≡ insert (key e.path) e t.seen)
  unfolding tally_entry
  tally_entry-ok total e t safe fresh known fits =
      let (u, counted, bytes, seen) =
        count_entry-ok total e e.kind (record t { seen = insert (key e.path) e t.seen }) known
          fits in
      (
        record u { roots = if contains e.path b'/' then u.roots else u.roots ++ e.path ∷ [] },
        rw (check_path-ok e.path safe, fresh, counted),
        bytes,
        seen,
      )

  -- What is missing, and is not the new key, stays missing.
  keep_insert :
      (k : Bytes) (f : ManifestEntry) (d : Dict ManifestEntry) (es : List ManifestEntry)
      → All (λ x. lookup (key x.path) d ≡ none) es
      → entry_at key k es ≡ none
      → All (λ x. lookup (key x.path) (insert k f d) ≡ none) es
  keep_insert k f d [] h n = tt
  keep_insert k f d (x ∷ es) h n = (
    ground (
      arith,
      lookup-insert k (key x.path) f d,
      h.0,
      same_iff k (key x.path),
      same_iff (key x.path) k,
    ),
    keep_insert k f d es h.1 (ground (arith, n)),
  )

  pub tally-ok :
      (total : ℕ) (es : List ManifestEntry) (t : Tally)
      → All (λ e. accepts e.path ≡ true) es
      → All (λ e. lookup (key e.path) t.seen ≡ none) es
      → IsDistinct key es
      → All (λ e. (is_file e.kind || is_folder e.kind) ≡ true) es
      → t.bytes + file_bytes es ≤ total
      → (u : Tally) × (tally key total es t ≡ ok u)
  unfolding tally
  tally-ok total [] t safe fresh distinct known fits = (t, refl)
  tally-ok total (e ∷ es) t safe fresh distinct known fits =
      let (v, first, bytes, seen) = tally_entry-ok total e t safe.0 fresh.0 known.0 (omega arith) in
      let later =
        subst (λ d. All (λ x. lookup (key x.path) d ≡ none) es) (sym seen)
          (keep_insert (key e.path) e t.seen es fresh.1 distinct.0) in
      let (u, rest) = tally-ok total es v safe.1 later distinct.1 known.1 (omega arith) in
      (u, rw first rest)

  module _ (all : List ManifestEntry) (seen : Dict ManifestEntry)
      (seen_all : (k : Bytes) → lookup k seen ≡ entry_at key k all) where
    check_parents-ok :
        (ps : List Bytes) → All (HasFolder key all) ps → check_parents key seen ps ≡ ok tt
    unfolding check_parents
    check_parents-ok [] h = refl
    check_parents-ok (p ∷ ps) h =
        let (e, found, is_dir) = h.0 in
        rw (seen_all (key p) ∙ found, is_dir) (check_parents-ok ps h.1)

    pub check_hierarchy-ok :
        (es : List ManifestEntry)
        → All (λ e. All (HasFolder key all) (parents e.path)) es
        → check_hierarchy key seen es ≡ ok tt
    unfolding check_hierarchy
    check_hierarchy-ok [] h = refl
    check_hierarchy-ok (e ∷ es) h =
        rw (check_parents-ok (parents e.path) h.0) (check_hierarchy-ok es h.1)

  pub fresh_nil : (es : List ManifestEntry) → All (λ e. lookup (key e.path) no_tally.seen ≡ none) es
  unfolding lookup
  fresh_nil [] = tt
  fresh_nil (e ∷ es) = (refl, fresh_nil es)
