-- ===== src/Prepare/Rollback.antt =====
-- A preparation that fails leaves no folder of the offer.
use transferly.Prelude.{
  ◌≡◌, refl, ap, ◌∙◌, Bool, true, false, not, ◌||◌, ◌⊎◌, inl, inr, List, [], ◌∷◌, ◌++◌, reverse,
  Option, none, some, Bytes, codes, arith, if◌then◌else◌, is_some, Result, ok, fail, Bool-cases,
}
use mathlib.Core.List.{reverse-append}
use transferly.Text.FilePath.{FilePath}
use transferly.Safety.{BeneathError, ensure_path_beneath}
use transferly.Protocol.{ManifestEntry, IncomingOffer, Disk, Node}
use transferly.Protocol.Exec.{Exec, continue, ◌>>=◌, stop_if, pure}
use transferly.Intake.{is_folder}
use transferly.Intake.Tallies.{entry_at}
use transferly.Receive.{node_at}
use transferly.Receive.Files.{incoming_path}
use transferly.Receive.Placing.{same_path_refl}
use transferly.Receive.Cleanup.{remove_each}
use transferly.Prepare.{
  Answers, PrepareError, destination_unsafe, destination_not_made, destination_not_folder,
  space_unknown, space_short, root_without_entry, unavailable, folder_not_made, staging_unsafe,
  staging_not_made, Made, is_folder_node, parent, mkdir, make_all, note_made, make_folder,
  check_beneath, check_free, or_fail, sort_by_depth, nested_folders, final_path, prepare_root,
  prepare_roots, prepare_folders, prepare_content, or_rollback, short_of_space, prepare_at,
  after_make_all, prepare_incoming,
}
use transferly.Prepare.Tidy.{IsTidy, mkdir-IsTidy, remove_empty-made}

-- Removing what was made, the last one first, gives the disk from the start.
record Restores (start : Disk) (s : Made) : Type 0 where
  tidy : IsTidy s.disk
  undone : remove_each (reverse s.created) s.disk ≡ start

abbrev Keeps : {A : Type 0} → Disk → Exec Made PrepareError A → Type 0
Keeps start run = (s : Made) → Restores start s → Restores start (run s).1

continue-Restores :
    {A B : Type 0} (start : Disk) (next : A → Exec Made PrepareError B)
    (r : Result PrepareError A × Made)
    → ((x : A) → Keeps start (next x))
    → Restores start r.1
    → Restores start (continue r next).1
continue-Restores start next (ok x, s) keeps h = keeps x s h
continue-Restores start next (fail e, s) keeps h = h

Keeps-bind :
    {A B : Type 0} (start : Disk) (run : Exec Made PrepareError A)
    (next : A → Exec Made PrepareError B)
    → Keeps start run
    → ((x : A) → Keeps start (next x))
    → Keeps start (run >>= next)
Keeps-bind start run next first later s h = continue-Restores start next (run s) later (first s h)

folder_there : (o : Option Node) → is_folder_node o ≡ true → (n : Node) × (o ≡ some n)
unfolding is_folder_node
folder_there none h = cc
folder_there (some n) h = (n, refl)

nothing_there : (o : Option Node) → is_some o ≡ false → o ≡ none
nothing_there none h = refl
nothing_there (some n) h = cc

made-Restores :
    (start : Disk) (path : FilePath) (s : Made)
    → Restores start s
    → node_at path s.disk ≡ none
    → is_folder_node (node_at (parent path) s.disk) ≡ true
    → Restores start (record { created = s.created ++ path ∷ []; disk = (path, none) ∷ s.disk })
unfolding remove_each
made-Restores start path s h free above =
    let (n, up) = folder_there (node_at (parent path) s.disk) above in
    record {
      tidy = mkdir-IsTidy path n s.disk h.tidy up;
      undone =
          ap (λ ps. remove_each ps ((path, none) ∷ s.disk)) (reverse-append s.created (path ∷ []))
          ∙ ap (remove_each (reverse s.created)) (remove_empty-made path s.disk h.tidy free)
          ∙ h.undone;
    }

make_folder-Keeps :
    (start : Disk) (answers : Answers) (path : FilePath) (e : PrepareError)
    → Keeps start (make_folder answers path e)
unfolding make_folder mkdir note_made
make_folder-Keeps start answers path e s h =
    elim (Bool-cases (
      is_some (node_at path s.disk)
      || not (is_folder_node (node_at (parent path) s.disk))
      || not (answers.makes path))) [
        | inl refused ↦ rw refused h
        | inr made ↦ rw made (
            made-Restores start path s h
              (nothing_there (node_at path s.disk) (ground (arith, made))) (ground (arith, made)))
      ]

check_beneath-Keeps :
    (start : Disk) (destination path : FilePath) → Keeps start (check_beneath destination path)
unfolding check_beneath
check_beneath-Keeps start destination path s h = go (ensure_path_beneath destination path) refl
  where
    go :
        (r : Result BeneathError (Unit {0}))
        → ensure_path_beneath destination path ≡ r
        → Restores start (check_beneath destination path s).1
    go (ok u) e = rw (e, check_beneath) h
    go (fail b) e = rw (e, check_beneath) h

check_free-Keeps :
    (start : Disk) (answers : Answers) (path : FilePath) → Keeps start (check_free answers path)
unfolding check_free
check_free-Keeps start answers path s h =
    elim (Bool-cases (is_some (node_at path s.disk) || answers.unreadable path)) [
      | inl there ↦ rw there h
      | inr free ↦ rw free h
    ]

or_fail-Keeps :
    {A : Type 0} (start : Disk) (e : PrepareError) (o : Option A) → Keeps start (or_fail e o)
unfolding or_fail
or_fail-Keeps start e none s h = h
or_fail-Keeps start e (some x) s h = h

stop_if-Keeps :
    (start : Disk) (b : Bool) (e : PrepareError) → Keeps {A = Unit {0}} start (stop_if b e)
stop_if-Keeps start true e s h = h
stop_if-Keeps start false e s h = h

module _ (key : Bytes → Bytes) (answers : Answers) (o : IncomingOffer) (start : Disk) where
  prepare_root-Keeps :
      (root : Bytes) (e : ManifestEntry) → Keeps start (prepare_root key answers o root e)
  unfolding prepare_root
  prepare_root-Keeps root e =
      Keeps-bind start (check_beneath o.destination (final_path key answers o root)) _
        (check_beneath-Keeps start _ _)
        (λ _.
          Keeps-bind start (check_free answers (final_path key answers o root)) _
            (check_free-Keeps start answers _) (λ _. last (is_folder e.kind)))
    where
      last :
          (b : Bool)
          → Keeps start (
              if b
              then make_folder answers (final_path key answers o root) unavailable
              else pure tt)
      last true = make_folder-Keeps start answers (final_path key answers o root) unavailable
      last false = λ s h. h

  prepare_roots-Keeps : (roots : List Bytes) → Keeps start (prepare_roots key answers o roots)
  unfolding prepare_roots
  prepare_roots-Keeps [] = λ s h. h
  prepare_roots-Keeps (root ∷ roots) =
      Keeps-bind start (or_fail root_without_entry (entry_at key (key root) o.manifest.entries)) _
        (or_fail-Keeps start _ _)
        (λ e.
          Keeps-bind start (prepare_root key answers o root e) _ (prepare_root-Keeps root e)
            (λ _. prepare_roots-Keeps roots))

  prepare_folders-Keeps :
      (folders : List ManifestEntry) → Keeps start (prepare_folders key answers o folders)
  unfolding prepare_folders
  prepare_folders-Keeps [] = λ s h. h
  prepare_folders-Keeps (e ∷ folders) =
      Keeps-bind start (check_beneath o.destination (incoming_path key o e)) _
        (check_beneath-Keeps start _ _)
        (λ _.
          Keeps-bind start (make_folder answers (incoming_path key o e) folder_not_made) _
            (make_folder-Keeps start answers _ _) (λ _. prepare_folders-Keeps folders))

  prepare_content-Keeps : Keeps start (prepare_content key answers o)
  unfolding prepare_content
  prepare_content-Keeps =
      Keeps-bind start (prepare_roots key answers o o.manifest.roots) _
        (prepare_roots-Keeps o.manifest.roots)
        (λ _.
          Keeps-bind start
            (prepare_folders key answers o (sort_by_depth (nested_folders o.manifest.entries))) _
            (prepare_folders-Keeps (sort_by_depth (nested_folders o.manifest.entries)))
            (λ _.
              Keeps-bind start
                (check_beneath o.destination (o.destination ++ codes ".transferly-staging" ∷ [])) _
                (check_beneath-Keeps start _ _)
                (λ _.
                  Keeps-bind start (stop_if (not answers.staging_safe) staging_unsafe) _
                    (stop_if-Keeps start _ _)
                    (λ _. stop_if-Keeps start (not answers.staging_made) staging_not_made))))

  or_rollback-start :
      (r : Result PrepareError (Unit {0}) × Made) (e : PrepareError)
      → Restores start r.1
      → (or_rollback key answers o r).0 ≡ fail e
      → ((or_rollback key answers o r).1.created_directories ≡ [])
        × ((or_rollback key answers o r).2 ≡ start)
  unfolding or_rollback
  or_rollback-start (ok u, s) e h f = cc
  or_rollback-start (fail x, s) e h f = (refl, h.undone)

parent-append : (done : FilePath) (c : Bytes) → parent (done ++ c ∷ []) ≡ done
unfolding parent
parent-append [] c = refl
parent-append (a ∷ []) c = refl
parent-append (a ∷ b ∷ done) c = ap (λ p. a ∷ p) (parent-append (b ∷ done) c)

made-folder :
    (path : FilePath) (disk : Disk) → is_folder_node (node_at path ((path, none) ∷ disk)) ≡ true
unfolding node_at is_folder_node
made-folder path disk = rw (same_path_refl path) refl

make_all-IsTidy :
    (answers : Answers) (done path : FilePath) (disk : Disk)
    → IsTidy disk
    → is_folder_node (node_at done disk) ≡ true
    → IsTidy (make_all answers done path disk).1
unfolding make_all
make_all-IsTidy answers done [] disk tidy up = tidy
make_all-IsTidy answers done (c ∷ path) disk tidy up =
    go (node_at (done ++ c ∷ []) disk) refl
      (λ t.
        make_all-IsTidy answers (done ++ c ∷ []) path ((done ++ c ∷ [], none) ∷ disk) t
          (made-folder (done ++ c ∷ []) disk))
      (make_all-IsTidy answers (done ++ c ∷ []) path disk tidy)
  where
    go :
        (o : Option Node)
        → node_at (done ++ c ∷ []) disk ≡ o
        → (IsTidy ((done ++ c ∷ [], none) ∷ disk)
            → IsTidy (make_all answers (done ++ c ∷ []) path ((done ++ c ∷ [], none) ∷ disk)).1)
        → (is_folder_node (node_at (done ++ c ∷ []) disk) ≡ true
            → IsTidy (make_all answers (done ++ c ∷ []) path disk).1)
        → IsTidy (make_all answers done (c ∷ path) disk).1
    go none e made on = elim (Bool-cases (answers.makes (done ++ c ∷ []))) [
      | inr refused ↦ rw (e, make_all) (rw refused tidy)
      | inl makes ↦
          let (n, there) = folder_there (node_at done disk) up in
          let above : node_at (parent (done ++ c ∷ [])) disk ≡ some n =
            ap (λ p. node_at p disk) (parent-append done c) ∙ there in
          rw (e, make_all) (rw makes (made (mkdir-IsTidy (done ++ c ∷ []) n disk tidy above)))
    ]
    go (some n) e made on = elim (Bool-cases (is_folder_node (some n))) [
      | inl is_dir ↦ rw (e, make_all) (rw is_dir (on (ap is_folder_node e ∙ is_dir)))
      | inr other ↦ rw (e, make_all) (rw other tidy)
    ]

module _ (key : Bytes → Bytes) (answers : Answers) (o : IncomingOffer)
    (clean : o.created_directories ≡ []) where
  -- What a failure leaves.
  abbrev Leaves : Disk → Result PrepareError (Unit {0}) × IncomingOffer × Disk → Type 0
  Leaves disk r = (e : PrepareError) → r.0 ≡ fail e → (r.1.created_directories ≡ []) × (r.2 ≡ disk)

  unchanged-Leaves : (disk : Disk) (x : PrepareError) → Leaves disk (fail x, o, disk)
  unchanged-Leaves disk x e f = (clean, refl)

  prepare_at-Leaves : (disk : Disk) → IsTidy disk → Leaves disk (prepare_at key answers o disk)
  unfolding prepare_at remove_each
  prepare_at-Leaves disk tidy =
      let begun : Made = record { created = []; disk = disk } in
      let kept =
        prepare_content-Keeps key answers o disk begun (record { tidy = tidy; undone = refl }) in
      elim (Bool-cases (not answers.safe_after)) [
        | inl a ↦ rw a (unchanged-Leaves disk destination_unsafe)
        | inr b ↦ elim (Bool-cases (not answers.destination_is_folder)) [
          | inl a ↦ rw (b, a) (unchanged-Leaves disk destination_not_folder)
          | inr c ↦ elim (Bool-cases (not answers.space_answers)) [
            | inl a ↦ rw (b, c, a) (unchanged-Leaves disk space_unknown)
            | inr d ↦ elim (Bool-cases (short_of_space key answers o)) [
              | inl a ↦ rw (b, c, d, a) (unchanged-Leaves disk space_short)
              | inr g ↦
                  rw (b, c, d, g)
                    (λ e f.
                      or_rollback-start key answers o disk (prepare_content key answers o begun) e
                        kept f)
            ]
          ]
        ]
      ]

  after_make_all-Leaves :
      (r : Bool × Disk) → IsTidy r.1 → Leaves r.1 (after_make_all key answers o r)
  unfolding after_make_all
  after_make_all-Leaves (false, disk) tidy = unchanged-Leaves disk destination_not_made
  after_make_all-Leaves (true, disk) tidy = prepare_at-Leaves disk tidy

  prepare_incoming-Leaves :
      (disk : Disk)
      → IsTidy disk
      → is_folder_node (node_at [] disk) ≡ true
      → (e : PrepareError) → (prepare_incoming key answers o disk).0 ≡ fail e
      → ((prepare_incoming key answers o disk).1.created_directories ≡ [])
        × (((prepare_incoming key answers o disk).2 ≡ disk)
            ⊎ ((prepare_incoming key answers o disk).2
                ≡ (make_all answers [] o.destination disk).1))
  unfolding prepare_incoming
  prepare_incoming-Leaves disk tidy root = elim (Bool-cases o.stale_staging) [
    | inl a ↦ simp a (λ e f. (clean, inl refl))
    | inr b ↦ elim (Bool-cases (not answers.safe_before)) [
      | inl a ↦ simp (b, a) (λ e f. (clean, inl refl))
      | inr c ↦
          let made = make_all answers [] o.destination disk in
          let done =
            after_make_all-Leaves made (make_all-IsTidy answers [] o.destination disk tidy root) in
          simp (b, c) (λ e f. let (none_left, same_disk) = done e f in (none_left, inr same_disk))
    ]
  ]

  -- The offer has made no folder yet, the root of the file system is a folder, and nothing on the disk lies
  -- below a path where nothing stands. When prepareIncoming fails, for whatever reason, the disk is what it was,
  -- or what MkdirAll of the destination made of it: every folder of the offer is gone, and none is recorded.
  pub prepare_incoming-fail :
      (disk : Disk) (e : PrepareError)
      → IsTidy disk
      → is_folder_node (node_at [] disk) ≡ true
      → (prepare_incoming key answers o disk).0 ≡ fail e
      → ((prepare_incoming key answers o disk).1.created_directories ≡ [])
        × (((prepare_incoming key answers o disk).2 ≡ disk)
            ⊎ ((prepare_incoming key answers o disk).2
                ≡ (make_all answers [] o.destination disk).1))
  prepare_incoming-fail disk e tidy root f = prepare_incoming-Leaves disk tidy root e f
