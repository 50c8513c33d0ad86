-- ===== src/Building/Growth.antt =====
-- A manifest that grows by one entry stays well formed.
use transferly.Prelude.{
  ◌+◌, ◌≡◌, refl, ap, sym, subst, ◌∙◌, Bool, true, ◌||◌, inl, inr, List, [], ◌∷◌, ◌++◌, none, some,
  Bytes, same, same_iff, arith, if◌then◌else◌, All, All-append, Bool-cases,
}
use transferly.Safety.{accepts, contains}
use transferly.Protocol.{ManifestEntry, OfferManifest}
use transferly.Intake.{is_file, is_folder, parents}
use transferly.Intake.Tallies.{count, file_bytes, root_paths, entry_at, IsDistinct}
use transferly.Intake.Hierarchy.{HasFolder}
use transferly.Building.Paths.{IsUnder, IsUnder-refl}

count-append :
    (p : ManifestEntry → Bool) (es : List ManifestEntry) (e : ManifestEntry)
    → count p (es ++ e ∷ []) ≡ count p es + (if p e then 1 else 0)
count-append p [] e = omega arith
count-append p (x ∷ es) e = omega (arith, count-append p es e)

file_bytes-append :
    (es : List ManifestEntry) (e : ManifestEntry)
    → file_bytes (es ++ e ∷ []) ≡ file_bytes es + (if is_file e.kind then e.size else 0)
file_bytes-append [] e = omega arith
file_bytes-append (x ∷ es) e = omega (arith, file_bytes-append es e)

pub root_paths-append :
    (es : List ManifestEntry) (e : ManifestEntry)
    → root_paths (es ++ e ∷ [])
      ≡ root_paths es ++ (if contains e.path b'/' then [] else e.path ∷ [])
root_paths-append [] e = ground arith
root_paths-append (x ∷ es) e = ground (arith, root_paths-append es e)

-- A property of every entry that a longer list keeps.
pub All-map :
    {P Q : ManifestEntry → Type 0}
    → ((e : ManifestEntry) → P e → Q e)
    → (es : List ManifestEntry) → All P es
    → All Q es
All-map f [] h = tt
All-map f (e ∷ es) h = (f e h.0, All-map f es h.1)

pub All-map_paths :
    {P Q : Bytes → Type 0} → ((s : Bytes) → P s → Q s) → (ps : List Bytes) → All P ps → All Q ps
All-map_paths f [] h = tt
All-map_paths f (p ∷ ps) h = (f p h.0, All-map_paths f ps h.1)

module _ (key : Bytes → Bytes) where
  -- No entry is at the folded path `k` or below it.
  abbrev pub IsFree : Bytes → List ManifestEntry → Type 0
  IsFree k es = All (λ e. IsUnder k (key e.path) → ⊥) es

  -- What validateReceivedManifest asks of the entries and their counts.
  pub record IsBuilt (m : OfferManifest) : Type 0 where
    pub safe : All (λ e. accepts e.path ≡ true) m.entries
    pub distinct : IsDistinct key m.entries
    pub known : All (λ e. (is_file e.kind || is_folder e.kind) ≡ true) m.entries
    pub closed : All (λ e. All (HasFolder key m.entries) (parents e.path)) m.entries
    pub files : m.file_count ≡ count (λ e. is_file e.kind) m.entries
    pub folders : m.folder_count ≡ count (λ e. is_folder e.kind) m.entries
    pub bytes : m.total_bytes ≡ file_bytes m.entries

  pub IsFree-entry_at :
      (k : Bytes) (es : List ManifestEntry) → IsFree k es → entry_at key k es ≡ none
  IsFree-entry_at k [] h = refl
  IsFree-entry_at k (e ∷ es) h = elim (Bool-cases (same (key e.path) k)) [
    | inl this ↦
        let eq : key e.path ≡ k = ground (arith, same_iff (key e.path) k) in
        absurd (h.0 (subst (IsUnder k) (sym eq) (IsUnder-refl k)))
    | inr that ↦ rw that (IsFree-entry_at k es h.1)
  ]

  pub entry_at-append :
      (k : Bytes) (e f : ManifestEntry) (es : List ManifestEntry)
      → entry_at key k es ≡ some f
      → entry_at key k (es ++ e ∷ []) ≡ some f
  entry_at-append k e f [] h = cc
  entry_at-append k e f (x ∷ es) h = ground (arith, entry_at-append k e f es)

  pub entry_at_last :
      (k : Bytes) (e : ManifestEntry) (es : List ManifestEntry)
      → entry_at key k es ≡ none
      → entry_at key k (es ++ e ∷ []) ≡ (if same (key e.path) k then some e else none)
  entry_at_last k e [] h = refl
  entry_at_last k e (x ∷ es) h = ground (arith, entry_at_last k e es)

  pub HasFolder-append :
      (es : List ManifestEntry) (e : ManifestEntry) (path : Bytes)
      → HasFolder key es path
      → HasFolder key (es ++ e ∷ []) path
  HasFolder-append es e path (f, found, is_dir) =
      (f, entry_at-append (key path) e f es found, is_dir)

  IsDistinct-append :
      (es : List ManifestEntry) (e : ManifestEntry)
      → IsDistinct key es
      → entry_at key (key e.path) es ≡ none
      → IsDistinct key (es ++ e ∷ [])
  IsDistinct-append [] e d h = (refl, tt)
  IsDistinct-append (x ∷ es) e d h = (
    ground (
      arith,
      entry_at_last (key x.path) e es d.0,
      same_iff (key x.path) (key e.path),
      same_iff (key e.path) (key x.path),
    ),
    IsDistinct-append es e d.1 (ground (arith, h)),
  )

  -- One more entry, with its folders listed, at a path where nothing is.
  pub IsBuilt-append :
      (m n : OfferManifest) (e : ManifestEntry)
      → IsBuilt m
      → n.entries ≡ m.entries ++ e ∷ []
      → n.file_count ≡ m.file_count + (if is_file e.kind then 1 else 0)
      → n.folder_count ≡ m.folder_count + (if is_folder e.kind then 1 else 0)
      → n.total_bytes ≡ m.total_bytes + (if is_file e.kind then e.size else 0)
      → accepts e.path ≡ true
      → (is_file e.kind || is_folder e.kind) ≡ true
      → All (HasFolder key m.entries) (parents e.path)
      → IsFree (key e.path) m.entries
      → IsBuilt n
  IsBuilt-append m n e b entries files folders bytes safe known under free =
      let es = m.entries in
      let more = HasFolder-append es e in
      let grown : All (λ x. All (HasFolder key (es ++ e ∷ [])) (parents x.path)) (es ++ e ∷ []) =
        All-append (λ x. All (HasFolder key (es ++ e ∷ [])) (parents x.path)) es (e ∷ [])
          (All-map (λ x h. All-map_paths more (parents x.path) h) es b.closed)
          (All-map_paths more (parents e.path) under, tt) in
      record {
        safe =
            subst (All (λ x. accepts x.path ≡ true)) (sym entries)
              (All-append (λ x. accepts x.path ≡ true) es (e ∷ []) b.safe (safe, tt));
        distinct =
            subst (IsDistinct key) (sym entries)
              (IsDistinct-append es e b.distinct (IsFree-entry_at (key e.path) es free));
        known = subst (All (λ x. (is_file x.kind || is_folder x.kind) ≡ true)) (sym entries) (
            All-append (λ x. (is_file x.kind || is_folder x.kind) ≡ true) es (e ∷ []) b.known
              (known, tt));
        closed =
            subst (λ xs. All (λ x. All (HasFolder key xs) (parents x.path)) xs) (sym entries) grown;
        files =
            files
            ∙ ap (λ k. k + (if is_file e.kind then 1 else 0)) b.files
            ∙ sym (
                ap (count (λ x. is_file x.kind)) entries ∙ count-append (λ x. is_file x.kind) es e);
        folders =
            folders
            ∙ ap (λ k. k + (if is_folder e.kind then 1 else 0)) b.folders
            ∙ sym (
                ap (count (λ x. is_folder x.kind)) entries
                ∙ count-append (λ x. is_folder x.kind) es e);
        bytes =
            bytes
            ∙ ap (λ k. k + (if is_file e.kind then e.size else 0)) b.bytes
            ∙ sym (ap file_bytes entries ∙ file_bytes-append es e);
      }
