-- ===== src/Building/Visits.antt =====
-- The loop over the children of a folder, and the whole walk.
use transferly.Prelude.{
  ◌≡◌, ◌≢◌, refl, ap, sym, subst, ◌∙◌, Bool, false, inl, inr, List, [], ◌∷◌, ◌++◌, some, Bytes,
  same, same_iff, arith, any, All, All-append, Bool-cases, ok, reject_if-ok, >>=-eq-ok,
}
use transferly.Protocol.{ManifestEntry, OfferManifest}
use transferly.Intake.{parents}
use transferly.Intake.Tallies.{entry_at}
use transferly.Intake.Hierarchy.{HasFolder}
use transferly.Building.{Walk, child_path, precedes, insert_by_key, sort_by_key, visit, walks}
use transferly.Building.Paths.{IsUnder, IsName, IsUnder-apart, parents-child, contains-child}
use transferly.Building.Growth.{IsBuilt, IsFree, All-map, All-map_paths}
use transferly.Building.Walks.{
  root_of, IsFolding, Walked, IsWalk, Walked-refl, Walked-trans, Walked-child,
}

module _ (sha : Bytes → Bytes) (key : Bytes → Bytes) (folding : IsFolding key) where
  entry_at-kept :
      (k : Bytes) (f : ManifestEntry) (es new : List ManifestEntry)
      → entry_at key k es ≡ some f
      → entry_at key k (es ++ new) ≡ some f
  entry_at-kept k f [] new h = cc
  entry_at-kept k f (x ∷ es) new h = ground (arith, entry_at-kept k f es new)

  pub HasFolder-Walked :
      (relative : Bytes) (r : List Bytes) (m n : OfferManifest) (path : Bytes)
      → Walked sha key folding relative r m n
      → HasFolder key m.entries path
      → HasFolder key n.entries path
  HasFolder-Walked relative r m n path w (f, found, is_dir) = (
    f,
    ap (entry_at key (key path)) w.added ∙ entry_at-kept (key path) f m.entries w.new found,
    is_dir,
  )

  -- The children that are still to come.
  abbrev pub AreWalks : Bytes → List (Bytes × Walk) → Type 0
  AreWalks relative children =
      All
        (λ (c : Bytes × Walk).
          IsName c.0 × (kept : Bool) × IsWalk sha key folding (child_path relative c.0) kept c.1)
        children

  -- Nothing stands where a child goes whose folded name was not seen.
  abbrev pub AreFree : Bytes → List Bytes → OfferManifest → Type 0
  AreFree relative seen m =
      (name : Bytes)
      → IsName name
      → any (same (key name)) seen ≡ false
      → IsFree key (key (child_path relative name)) m.entries

  AreFree-Walked :
      (relative name : Bytes) (seen : List Bytes) (m n : OfferManifest)
      → IsName name
      → Walked sha key folding (child_path relative name) [] m n
      → AreFree relative seen m
      → AreFree relative (key name ∷ seen) n
  AreFree-Walked relative name seen m n plain w free other is_name fresh =
      let apart : key name ≢ key other = λ e. ground (arith, same_iff (key other) (key name)) in
      let old = free other is_name (ground (arith, fresh)) in
      let new =
        All-map
          (λ e u v. apart (
            IsUnder-apart (key relative) (key name) (key other) (key e.path)
              (folding.names name plain) (folding.names other is_name)
              (subst (λ k. IsUnder k (key e.path)) (folding.joins relative name) u)
              (subst (λ k. IsUnder k (key e.path)) (folding.joins relative other) v)))
          w.new w.under in
      subst (IsFree key (key (child_path relative other))) (sym w.added) (
        All-append (λ e. IsUnder (key (child_path relative other)) (key e.path) → ⊥) m.entries w.new
          old new)

  root_of-child :
      (relative name : Bytes) (kept : Bool) → root_of (child_path relative name) kept ≡ []
  unfolding root_of
  root_of-child relative name kept = rw (contains-child relative name) refl

  pub visit-Walked :
      (relative : Bytes) (seen : List Bytes) (children : List (Bytes × Walk)) (m n : OfferManifest)
      → visit sha key seen children m ≡ ok n
      → AreWalks relative children
      → IsBuilt key m
      → HasFolder key m.entries relative
      → All (HasFolder key m.entries) (parents relative)
      → AreFree relative seen m
      → Walked sha key folding relative [] m n
  unfolding visit
  visit-Walked relative seen [] m n h walks b here under free =
      let e : m ≡ n = cc (h) in
      subst (Walked sha key folding relative [] m) e (Walked-refl sha key folding relative m b)
  visit-Walked relative seen ((name, walk) ∷ children) m n h ((plain, kept, first), rest) b here
        under free =
      let (fresh, h₁) = reject_if-ok (any (same (key name)) seen) _ _ h in
      let (m₁, walked, h₂) = >>=-eq-ok (walk m) _ h₁ in
      let above : All (HasFolder key m.entries) (parents (child_path relative name)) =
        subst (All (HasFolder key m.entries)) (sym (parents-child relative name plain))
          (here, under) in
      let w =
        subst (λ r. Walked sha key folding (child_path relative name) r m m₁)
          (root_of-child relative name kept) (first m m₁ walked b above (free name plain fresh)) in
      let more = HasFolder-Walked (child_path relative name) [] m m₁ in
      let later =
        visit-Walked relative (key name ∷ seen) children m₁ n h₂ rest w.built (more relative w here)
          (All-map_paths (λ p f. more p w f) (parents relative) under)
          (AreFree-Walked relative name seen m m₁ plain w free) in
      Walked-trans sha key folding relative [] [] m m₁ n
        (Walked-child sha key folding relative name [] m m₁ w) later

  insert_by_key-All :
      (relative : Bytes) (c : Bytes × Walk) (children : List (Bytes × Walk))
      → AreWalks relative (c ∷ children)
      → AreWalks relative (insert_by_key sha key c children)
  unfolding insert_by_key
  insert_by_key-All relative c [] h = h
  insert_by_key-All relative c (d ∷ children) h = elim (Bool-cases (precedes (key d.0) (key c.0))) [
    | inl after ↦ rw after (h.1.0, insert_by_key-All relative c children (h.0, h.1.1))
    | inr before ↦ rw before h
  ]

  pub sort_by_key-All :
      (relative : Bytes) (children : List (Bytes × Walk))
      → AreWalks relative children
      → AreWalks relative (sort_by_key sha key children)
  unfolding sort_by_key
  sort_by_key-All relative [] h = tt
  sort_by_key-All relative (c ∷ children) h =
      insert_by_key-All relative c (sort_by_key sha key children)
        (h.0, sort_by_key-All relative children h.1)
