-- ===== src/Building/Roots.antt =====
-- What buildManifest builds.
use transferly.Prelude.{
  ◌+◌, ◌≡◌, ◌≢◌, ◌≤◌, refl, ap, sym, subst, ◌∙◌, Bool, true, false, not, ◌&&◌, List, [], ◌∷◌, ◌++◌,
  Option, none, some, Bytes, same, same_iff, arith, if◌then◌else◌, length, length-append, any,
  append_assoc, append-nil, All, All-append, ok, reject_if-ok, >>=-eq-ok,
}
use transferly.Safety.{accepts}
use transferly.Protocol.{OfferManifest}
use transferly.Intake.{parents}
use transferly.Intake.Tallies.{root_paths}
use transferly.Intake.Hierarchy.{HasFolder}
use transferly.Building.{Root, walk_manifest_root, build_roots, no_manifest}
use transferly.Building.Paths.{IsUnder, IsName, IsUnder-roots, parents-IsName}
use transferly.Building.Growth.{IsBuilt, IsFree, All-map}
use transferly.Building.Walks.{has_names, is_kept, root_of, IsFolding, Walked}
use transferly.Building.Trees.{walk_manifest_root-IsWalk}

-- Every name that Lstat or ReadDir gives is one component.
abbrev pub AreNamed : List (Option Root) → Type 0
AreNamed [] = Unit
AreNamed (none ∷ roots) = AreNamed roots
AreNamed (some r ∷ roots) = IsName r.name × (has_names r.tree ≡ true) × AreNamed roots

-- Every path of the command gives an entry.
unfoldable pub all_kept : List (Option Root) → Bool
all_kept [] = true
all_kept (none ∷ roots) = all_kept roots
all_kept (some r ∷ roots) = is_kept r.tree && all_kept roots

unfoldable pub root_names : List (Option Root) → List Bytes
root_names [] = []
root_names (none ∷ roots) = root_names roots
root_names (some r ∷ roots) = r.name ∷ root_names roots

unfoldable pub kept_names : List (Option Root) → List Bytes
kept_names [] = []
kept_names (none ∷ roots) = kept_names roots
kept_names (some r ∷ roots) = root_of r.name (is_kept r.tree) ++ kept_names roots

module _ (sha : Bytes → Bytes) (key : Bytes → Bytes) (folding : IsFolding key) where
  -- Nothing stands at a root whose folded name was not seen.
  abbrev AreFree : List Bytes → OfferManifest → Type 0
  AreFree seen m =
      (name : Bytes)
      → IsName name
      → any (same (key name)) seen ≡ false
      → IsFree key (key name) m.entries

  AreFree-Walked :
      (name : Bytes) (r : List Bytes) (seen : List Bytes) (m n : OfferManifest)
      → IsName name
      → Walked sha key folding name r m n
      → AreFree seen m
      → AreFree (key name ∷ seen) n
  AreFree-Walked name r seen m n plain w free other is_name fresh =
      let apart : key name ≢ key other = λ e. ground (arith, same_iff (key other) (key name)) in
      let old = free other is_name (ground (arith, fresh)) in
      let new =
        All-map
          (λ e u v. apart (
            IsUnder-roots (key name) (key other) (key e.path) (folding.names name plain)
              (folding.names other is_name) u v))
          w.new w.under in
      subst (IsFree key (key other)) (sym w.added)
        (All-append (λ e. IsUnder (key other) (key e.path) → ⊥) m.entries w.new old new)

  pub build_roots-IsBuilt :
      (seen : List Bytes) (roots : List (Option Root)) (m n : OfferManifest)
      → build_roots sha key seen roots m ≡ ok n
      → AreNamed roots
      → IsBuilt key m
      → AreFree seen m
      → IsBuilt key n
        × (n.roots ≡ m.roots ++ root_names roots)
        × (root_paths n.entries ≡ root_paths m.entries ++ kept_names roots)
  unfolding build_roots root_names kept_names
  build_roots-IsBuilt seen [] m n h named b free =
      let e : m ≡ n = cc (h) in
      (
        subst (IsBuilt key) e b,
        ap (λ (x : OfferManifest). x.roots) (sym e) ∙ sym (append-nil m.roots),
        ap (λ (x : OfferManifest). root_paths x.entries) (sym e)
            ∙ sym (append-nil (root_paths m.entries)),
      )
  build_roots-IsBuilt seen (none ∷ roots) m n h named b free = cc
  build_roots-IsBuilt seen (some r ∷ roots) m n h (plain, names, more) b free =
      let (_, h₁) = reject_if-ok (not (accepts r.name)) _ _ h in
      let (fresh, h₂) = reject_if-ok (any (same (key r.name)) seen) _ _ h₁ in
      let start : OfferManifest = record m { roots = m.roots ++ r.name ∷ [] } in
      let (o, walked, h₃) =
        >>=-eq-ok (walk_manifest_root sha key r.tree r.source r.name start) _ h₂ in
      let above : All (HasFolder key start.entries) (parents r.name) =
        subst (All (HasFolder key start.entries)) (sym (parents-IsName r.name plain)) tt in
      let built : IsBuilt key start = record {
        safe = b.safe;
        distinct = b.distinct;
        known = b.known;
        closed = b.closed;
        files = b.files;
        folders = b.folders;
        bytes = b.bytes;
      } in
      let w =
        walk_manifest_root-IsWalk sha key folding r.tree r.source r.name names start o walked built
          above (free r.name plain fresh) in
      let (done, listed, paths) =
        build_roots-IsBuilt (key r.name ∷ seen) roots o n h₃ more w.built
          (AreFree-Walked r.name _ seen start o plain w free) in
      (
        done,
        listed
            ∙ ap (λ xs. xs ++ root_names roots) w.same_roots
            ∙ append_assoc m.roots (r.name ∷ []) (root_names roots),
        paths
            ∙ ap (λ xs. xs ++ kept_names roots) w.paths
            ∙ append_assoc (root_paths m.entries) (root_of r.name (is_kept r.tree))
                (kept_names roots),
      )

  pub no_manifest-IsBuilt : IsBuilt key no_manifest
  no_manifest-IsBuilt = record {
    safe = tt;
    distinct = tt;
    known = tt;
    closed = tt;
    files = refl;
    folders = refl;
    bytes = refl;
  }

both_kept : (x y : Bool) → (x && y) ≡ true → (x ≡ true) × (y ≡ true)
both_kept x y h = (ground arith, ground arith)

pub kept_names-all :
    (roots : List (Option Root))
    → AreNamed roots
    → all_kept roots ≡ true
    → kept_names roots ≡ root_names roots
unfolding all_kept root_names kept_names root_of
kept_names-all [] named h = refl
kept_names-all (none ∷ roots) named h = kept_names-all roots named h
kept_names-all (some r ∷ roots) (plain, names, more) h =
    let (this, rest) = both_kept (is_kept r.tree) (all_kept roots) h in
    rw (plain, this) (ap (λ xs. r.name ∷ xs) (kept_names-all roots more rest))

-- A root that is omitted is missing from them.
pub kept_names-short :
    (roots : List (Option Root))
    → length (kept_names roots) + (if all_kept roots then 0 else 1) ≤ length (root_names roots)
unfolding all_kept root_names kept_names root_of
kept_names-short [] = omega arith
kept_names-short (none ∷ roots) = kept_names-short roots
kept_names-short (some r ∷ roots) = ground (
  arith,
  kept_names-short roots,
  length-append (root_of r.name (is_kept r.tree)) (kept_names roots),
)
