-- ===== src/Building/Validation.antt =====
-- What the Peer's validation makes of a manifest that buildManifest built.
use transferly.Prelude.{
  ◌≡◌, ◌<◌, refl, ap, sym, subst, ◌∙◌, Bool, true, false, not, ◌||◌, inl, inr, List, [], Option,
  Bytes, arith, ◌==◌, if◌then◌else◌, length, Bool-cases, Result, ok, fail, ◌>>=◌, reject_if,
  reject_if-ok, >>=-eq-ok, lookup,
}
use transferly.Protocol.{OfferManifest, IncomingOffer}
use transferly.Protocol.Errors.{SessionError, inconsistent_manifest}
use transferly.Intake.{Tally, no_tally, check_hierarchy, validate_received_manifest}
use transferly.Intake.Tallies.{root_paths, tally-IsTallied}
use transferly.Intake.Completeness.{tally-ok, fresh_nil, check_hierarchy-ok}
use transferly.Building.{Root, build_roots, no_manifest, build_manifest}
use transferly.Building.Growth.{IsBuilt}
use transferly.Building.Walks.{IsFolding}
use transferly.Building.Roots.{
  AreNamed, all_kept, root_names, kept_names, kept_names-all, kept_names-short, build_roots-IsBuilt,
  no_manifest-IsBuilt,
}

module _ (sha : Bytes → Bytes) (key : Bytes → Bytes) where
  -- The last test of the validation.
  abbrev decide : IncomingOffer → Tally → Result SessionError IncomingOffer
  decide o t =
      reject_if
        (not (t.files == o.manifest.file_count)
          || not (t.folders == o.manifest.folder_count)
          || not (t.bytes == o.manifest.total_bytes)
          || not (length t.roots == o.root_count))
        inconsistent_manifest
      >>= λ _. ok (record o { manifest = record o.manifest { roots = t.roots } })

  counts_agree :
      (o : IncomingOffer) (t : Tally)
      → t.files ≡ o.manifest.file_count
      → t.folders ≡ o.manifest.folder_count
      → t.bytes ≡ o.manifest.total_bytes
      → decide o t ≡ (
          if length t.roots == o.root_count
          then ok (record o { manifest = record o.manifest { roots = t.roots } })
          else fail inconsistent_manifest)
  counts_agree o t files folders bytes = elim (Bool-cases (length t.roots == o.root_count)) [
    | inl equal ↦ rw equal (ground (arith, files, folders, bytes))
    | inr other ↦ rw other (ground (arith, files, folders, bytes))
  ]

  -- The validation of a manifest that is well formed but for its roots.
  validate_received_manifest-IsBuilt :
      (o : IncomingOffer)
      → IsBuilt key o.manifest
      → validate_received_manifest key o ≡ (
          if length (root_paths o.manifest.entries) == o.root_count
          then ok
              (record o { manifest = record o.manifest { roots = root_paths o.manifest.entries } })
          else fail inconsistent_manifest)
  unfolding validate_received_manifest lookup
  validate_received_manifest-IsBuilt o b =
      let es = o.manifest.entries in
      let (t, tallied) =
        tally-ok key o.manifest.total_bytes es no_tally b.safe (fresh_nil key es) b.distinct b.known
          (omega (arith, b.bytes)) in
      let c = tally-IsTallied key o.manifest.total_bytes es no_tally t tallied in
      let last =
        counts_agree o t (omega (arith, c.files, b.files)) (omega (arith, c.folders, b.folders))
          (omega (arith, c.bytes, b.bytes)) in
      ap (λ r. r >>= λ u. check_hierarchy key u.seen es >>= λ _. decide o u) tallied
      ∙ ap (λ r. r >>= λ _. decide o t) (check_hierarchy-ok key es t.seen c.seen es b.closed)
      ∙ last
      ∙ ap
          (λ (rs : List Bytes).
            if length rs == o.root_count
            then ok (record o { manifest = record o.manifest { roots = rs } })
            else fail inconsistent_manifest)
          c.roots

  with_roots :
      (o : IncomingOffer) (rs : List Bytes)
      → rs ≡ o.manifest.roots
      → record o { manifest = record o.manifest { roots = rs } } ≡ o
  with_roots o rs e =
      ap (λ (xs : List Bytes). record o { manifest = record o.manifest { roots = xs } }) e

  -- As many roots as there are paths of the command, or fewer.
  roots_agree :
      (o : IncomingOffer) (kept : Bool) (rs : List Bytes)
      → (kept ≡ true → rs ≡ o.manifest.roots)
      → (kept ≡ false → length rs < length o.manifest.roots)
      → o.root_count ≡ length o.manifest.roots
      → (if length rs == o.root_count
          then ok (record o { manifest = record o.manifest { roots = rs } })
          else fail inconsistent_manifest)
        ≡ (if kept then ok o else fail inconsistent_manifest)
  roots_agree o true rs all short count =
      let agree : (length rs == o.root_count) ≡ true = rw (all refl, count) (ground arith) in
      ap
        (λ b.
          if b
          then ok (record o { manifest = record o.manifest { roots = rs } })
          else fail inconsistent_manifest)
        agree
      ∙ ap (λ (x : IncomingOffer). ok x) (with_roots o rs (all refl))
  roots_agree o false rs all short count =
      let less = short refl in
      let differ : (length rs == o.root_count) ≡ false = ground (arith, less, count) in
      ap
        (λ b.
          if b
          then ok (record o { manifest = record o.manifest { roots = rs } })
          else fail inconsistent_manifest)
        differ

  -- Names are single components and folding works component by component. What buildManifest builds is exactly
  -- what validateReceivedManifest accepts, unchanged, in an offer with as many roots as buildManifest counted, if
  -- every path of the command gives an entry. If one of them is omitted, the validation refuses the offer.
  pub build_manifest-validate :
      (roots : List (Option Root)) (m : OfferManifest)
      → IsFolding key
      → AreNamed roots
      → build_manifest sha key roots ≡ ok m
      → (o : IncomingOffer) → o.manifest ≡ m
      → o.root_count ≡ length m.roots
      → validate_received_manifest key o
        ≡ (if all_kept roots then ok o else fail inconsistent_manifest)
  unfolding build_manifest
  build_manifest-validate roots m folding named h o this count =
      let (n, built, h₁) = >>=-eq-ok (build_roots sha key [] roots no_manifest) _ h in
      let (_, done) = reject_if-ok (length n.entries == 0) _ _ h₁ in
      let e : n ≡ m = cc (done) in
      let (b, names, paths) =
        build_roots-IsBuilt sha key folding [] roots no_manifest n built named
          (no_manifest-IsBuilt sha key folding) (λ name p f. tt) in
      let listed : root_paths o.manifest.entries ≡ kept_names roots =
        ap (λ (x : OfferManifest). root_paths x.entries) (this ∙ sym e) ∙ paths in
      let offered : o.manifest.roots ≡ root_names roots =
        ap (λ (x : OfferManifest). x.roots) (this ∙ sym e) ∙ names in
      let fewer : (k : all_kept roots ≡ false)
          → length (kept_names roots) < length (root_names roots) =
        λ k. ground (arith, kept_names-short roots, k) in
      validate_received_manifest-IsBuilt o (subst (IsBuilt key) (e ∙ sym this) b)
      ∙ roots_agree o (all_kept roots) (root_paths o.manifest.entries)
          (λ k. listed ∙ kept_names-all roots named k ∙ sym offered)
          (λ k.
            subst (λ (rs : List Bytes). length rs < length o.manifest.roots) (sym listed)
              (subst (λ (rs : List Bytes). length (kept_names roots) < length rs) (sym offered)
                (fewer k)))
          (count ∙ ap (λ (x : OfferManifest). length x.roots) (sym this))
