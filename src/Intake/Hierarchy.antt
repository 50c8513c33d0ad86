-- ===== src/Intake/Hierarchy.antt =====
-- An accepted manifest is well formed.
use transferly.Prelude.{
  ℕ, ◌≡◌, refl, sym, ◌∙◌, true, not, ◌||◌, List, [], ◌∷◌, Option, none, some, Bytes, arith, ◌==◌,
  length, Dict, lookup, ok, reject_if-ok, >>=-eq-ok, All,
}
use transferly.Safety.{accepts}
use transferly.Protocol.{ManifestEntry, OfferManifest, IncomingOffer}
use transferly.Intake.{
  no_tally, is_file, is_folder, parents, tally, check_parent, check_parents, check_hierarchy,
  validate_received_manifest,
}
use transferly.Intake.Tallies.{count, file_bytes, root_paths, entry_at, IsDistinct, tally-IsTallied}

module _ (key : Bytes → Bytes) where
  -- The manifest lists a folder at this path.
  abbrev pub HasFolder : List ManifestEntry → Bytes → Type 0
  HasFolder es path =
      (e : ManifestEntry) × (entry_at key (key path) es ≡ some e) × (is_folder e.kind ≡ true)

  -- The manifest of an offer with `root_count` roots: every path is safe, no two paths are aliases,
  -- every entry is a file or a folder, every folder above an entry is listed as a folder, and the
  -- counts, the total and the roots are those of the entries.
  pub record IsWellFormed (root_count : ℕ) (m : OfferManifest) : Type 0 where
    pub safe : All (λ e. accepts e.path ≡ true) m.entries
    pub distinct : IsDistinct key m.entries
    pub known : All (λ e. (is_file e.kind || is_folder e.kind) ≡ true) m.entries
    pub closed : All (λ e. All (HasFolder m.entries) (parents e.path)) m.entries
    pub files : m.file_count ≡ count (λ e. is_file e.kind) m.entries
    pub folders : m.folder_count ≡ count (λ e. is_folder e.kind) m.entries
    pub bytes : m.total_bytes ≡ file_bytes m.entries
    pub roots : m.roots ≡ root_paths m.entries
    pub counted : root_count ≡ length m.roots

  check_parent-folder :
      (o : Option ManifestEntry) {u : Unit {0}}
      → check_parent key o ≡ ok u
      → (e : ManifestEntry) × (o ≡ some e) × (is_folder e.kind ≡ true)
  unfolding check_parent
  check_parent-folder none h = cc
  check_parent-folder (some e) h = (e, refl, ground arith)

  module _ (all : List ManifestEntry) (seen : Dict ManifestEntry)
      (seen_all : (k : Bytes) → lookup k seen ≡ entry_at key k all) where
    check_parents-HasFolder :
        (ps : List Bytes) → check_parents key seen ps ≡ ok tt → All (HasFolder all) ps
    unfolding check_parents
    check_parents-HasFolder [] h = tt
    check_parents-HasFolder (p ∷ ps) h =
        let (_, first, rest) = >>=-eq-ok (check_parent key (lookup (key p) seen)) _ h in
        let (e, found, is_dir) = check_parent-folder (lookup (key p) seen) first in
        ((e, sym (seen_all (key p)) ∙ found, is_dir), check_parents-HasFolder ps rest)

    check_hierarchy-closed :
        (es : List ManifestEntry)
        → check_hierarchy key seen es ≡ ok tt
        → All (λ e. All (HasFolder all) (parents e.path)) es
    unfolding check_hierarchy
    check_hierarchy-closed [] h = tt
    check_hierarchy-closed (e ∷ es) h =
        let (_, first, rest) = >>=-eq-ok (check_parents key seen (parents e.path)) _ h in
        (check_parents-HasFolder (parents e.path) first, check_hierarchy-closed es rest)

  -- Whatever manifest the validation accepts is well formed; it keeps the entries, and the roots it
  -- stores are their paths of one component.
  pub validate_received_manifest-IsWellFormed :
      (o p : IncomingOffer)
      → validate_received_manifest key o ≡ ok p
      → IsWellFormed o.root_count p.manifest × (p.manifest.entries ≡ o.manifest.entries)
  unfolding validate_received_manifest lookup
  validate_received_manifest-IsWellFormed o p h =
      let (t, tallied, h₁) =
        >>=-eq-ok (tally key o.manifest.total_bytes o.manifest.entries no_tally) _ h in
      let (_, hierarchy, h₂) = >>=-eq-ok (check_hierarchy key t.seen o.manifest.entries) _ h₁ in
      let c = tally-IsTallied key o.manifest.total_bytes o.manifest.entries no_tally t tallied in
      let closed =
        check_hierarchy-closed o.manifest.entries t.seen c.seen o.manifest.entries hierarchy in
      let (sums, stored) =
        reject_if-ok
          (not (t.files == o.manifest.file_count)
            || not (t.folders == o.manifest.folder_count)
            || not (t.bytes == o.manifest.total_bytes)
            || not (length t.roots == o.root_count))
          _ _ h₂ in
      let e : record o { manifest = record o.manifest { roots = t.roots } } ≡ p = cc (stored) in
      rw (← e) (
        record {
          safe = c.safe;
          distinct = c.distinct;
          known = c.known;
          closed = closed;
          files = ground arith;
          folders = ground arith;
          bytes = ground arith;
          roots = c.roots;
          counted = ground arith;
        },
        refl,
      )
