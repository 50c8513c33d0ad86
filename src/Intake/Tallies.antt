-- ===== src/Intake/Tallies.antt =====
-- What validateReceivedManifest has counted when it accepts: the entries' files, folders and bytes, each
-- folded name once, and the roots.
use transferly.Prelude.{
  ℕ, ◌+◌, ◌≡◌, refl, subst, ap, Bool, true, ◌||◌, List, [], ◌∷◌, ◌++◌, Option, none, some, Bytes,
  same, same_iff, arith, if◌then◌else◌, is_some, Dict, lookup, insert, lookup-insert, ok,
  reject_if-ok, >>=-eq-ok, append-nil, append_assoc, All,
}
use transferly.Safety.{contains, accepts}
use transferly.Protocol.{EntryKind, file, folder, other_kind, ManifestEntry}
use transferly.Protocol.Errors.{unsafe_path}
use transferly.Intake.{Tally, is_file, is_folder, check_path, count_entry, tally_entry, tally}

-- How many entries pass a test.
abbrev pub count : (ManifestEntry → Bool) → List ManifestEntry → ℕ
count p [] = 0
count p (e ∷ es) = (if p e then 1 else 0) + count p es

-- The bytes of all files.
abbrev pub file_bytes : List ManifestEntry → ℕ
file_bytes [] = 0
file_bytes (e ∷ es) = (if is_file e.kind then e.size else 0) + file_bytes es

-- The paths with one component, in order.
abbrev pub root_paths : List ManifestEntry → List Bytes
root_paths [] = []
root_paths (e ∷ es) = if contains e.path b'/' then root_paths es else e.path ∷ root_paths es

-- The numbers that one entry adds.
record Counts (e : ManifestEntry) (kind : EntryKind) (t u : Tally) : Type 0 where
  files : u.files ≡ t.files + (if is_file kind then 1 else 0)
  folders : u.folders ≡ t.folders + (if is_folder kind then 1 else 0)
  bytes : u.bytes ≡ t.bytes + (if is_file kind then e.size else 0)
  known : (is_file kind || is_folder kind) ≡ true
  seen : u.seen ≡ t.seen
  roots : u.roots ≡ t.roots

count_entry-Counts :
    (total : ℕ) (e : ManifestEntry) (kind : EntryKind) (t u : Tally)
    → count_entry total e kind t ≡ ok u
    → Counts e kind t u
unfolding count_entry
count_entry-Counts total e file t u h = ground arith
count_entry-Counts total e folder t u h = ground arith
count_entry-Counts total e (other_kind k) t u h = cc

module _ (key : Bytes → Bytes) where
  -- The first entry whose folded path is `k`.
  abbrev pub entry_at : Bytes → List ManifestEntry → Option ManifestEntry
  entry_at k [] = none
  entry_at k (e ∷ es) = if same (key e.path) k then some e else entry_at k es

  -- No two entries have the same folded path.
  abbrev pub IsDistinct : List ManifestEntry → Type 0
  IsDistinct [] = Unit
  IsDistinct (e ∷ es) = (entry_at (key e.path) es ≡ none) × IsDistinct es

  -- One entry's part of a tally.
  record IsCounted (e : ManifestEntry) (t u : Tally) : Type 0 where
    safe : accepts e.path ≡ true
    fresh : lookup (key e.path) t.seen ≡ none
    files : u.files ≡ t.files + (if is_file e.kind then 1 else 0)
    folders : u.folders ≡ t.folders + (if is_folder e.kind then 1 else 0)
    bytes : u.bytes ≡ t.bytes + (if is_file e.kind then e.size else 0)
    known : (is_file e.kind || is_folder e.kind) ≡ true
    seen : u.seen ≡ insert (key e.path) e t.seen
    roots : u.roots ≡ (if contains e.path b'/' then t.roots else t.roots ++ e.path ∷ [])

  check_path-accepts : (path : Bytes) → check_path unsafe_path path ≡ ok tt → accepts path ≡ true
  unfolding check_path
  check_path-accepts path h = ground arith

  tally_entry-IsCounted :
      (total : ℕ) (e : ManifestEntry) (t u : Tally)
      → tally_entry key total e t ≡ ok u
      → IsCounted e t u
  unfolding tally_entry
  tally_entry-IsCounted total e t u h =
      let (_, safe, h₁) = >>=-eq-ok (check_path unsafe_path e.path) _ h in
      let (fresh, h₂) = reject_if-ok (is_some (lookup (key e.path) t.seen)) _ _ h₁ in
      let (v, counted, h₃) =
        >>=-eq-ok (count_entry total e e.kind (record t { seen = insert (key e.path) e t.seen })) _
          h₂ in
      let c = count_entry-Counts total e e.kind _ v counted in
      record {
        safe = check_path-accepts e.path safe;
        fresh = ground arith;
        files = ground arith;
        folders = ground arith;
        bytes = ground arith;
        known = ground arith;
        seen = ground arith;
        roots = ground arith;
      }

  -- The tally `u` of the entries `es`, from a tally `t` on.
  pub record IsTallied (es : List ManifestEntry) (t u : Tally) : Type 0 where
    pub safe : All (λ e. accepts e.path ≡ true) es
    pub fresh : All (λ e. lookup (key e.path) t.seen ≡ none) es
    pub distinct : IsDistinct es
    pub files : u.files ≡ t.files + count (λ e. is_file e.kind) es
    pub folders : u.folders ≡ t.folders + count (λ e. is_folder e.kind) es
    pub bytes : u.bytes ≡ t.bytes + file_bytes es
    pub known : All (λ e. (is_file e.kind || is_folder e.kind) ≡ true) es
    pub seen :
        (k : Bytes)
        → lookup k u.seen ≡ (elim (lookup k t.seen) [ some e ↦ some e | none ↦ entry_at k es ])
    pub roots : u.roots ≡ t.roots ++ root_paths es

  -- What is missing from a map with one more key is missing without it, and is not that key.
  drop_insert :
      (k : Bytes) (f : ManifestEntry) (d : Dict ManifestEntry) (es : List ManifestEntry)
      → All (λ x. lookup (key x.path) (insert k f d) ≡ none) es
      → All (λ x. lookup (key x.path) d ≡ none) es × (entry_at k es ≡ none)
  drop_insert k f d [] h = (tt, refl)
  drop_insert k f d (x ∷ es) h =
      let rest = drop_insert k f d es h.1 in
      let here = lookup-insert k (key x.path) f d in
      (
        (ground (arith, h.0), rest.0),
        ground (arith, h.0, rest.1, same_iff k (key x.path), same_iff (key x.path) k),
      )

  pub tally-IsTallied :
      (total : ℕ) (es : List ManifestEntry) (t u : Tally)
      → tally key total es t ≡ ok u
      → IsTallied es t u
  unfolding tally
  tally-IsTallied total [] t u h = record {
    safe = tt;
    fresh = tt;
    distinct = tt;
    files = ground arith;
    folders = ground arith;
    bytes = ground arith;
    known = tt;
    seen = λ k. ground arith;
    roots = ground (arith, append-nil t.roots);
  }
  tally-IsTallied total (e ∷ es) t u h =
      let (v, first, h₁) = >>=-eq-ok (tally_entry key total e t) _ h in
      let c = tally_entry-IsCounted total e t v first in
      let r = tally-IsTallied total es v u h₁ in
      let earlier =
        drop_insert (key e.path) e t.seen es
          (subst (λ d. All (λ x. lookup (key x.path) d ≡ none) es) c.seen r.fresh) in
      record {
        safe = (c.safe, r.safe);
        fresh = (c.fresh, earlier.0);
        distinct = (earlier.1, r.distinct);
        files = ground arith;
        folders = ground arith;
        bytes = ground arith;
        known = (c.known, r.known);
        seen = λ k. ground (
          arith,
          r.seen k,
          ap (λ (d : Dict ManifestEntry). lookup k d) c.seen,
          lookup-insert (key e.path) k e t.seen,
          same_iff (key e.path) k,
          c.fresh,
        );
        roots = ground (arith, append_assoc t.roots (e.path ∷ []) (root_paths es));
      }
