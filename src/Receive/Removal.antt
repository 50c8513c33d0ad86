-- ===== src/Receive/Removal.antt =====
-- What the removal of an offer's files leaves on the disk.
use transferly.Prelude.{
  ◌≡◌, refl, sym, ap, ◌∙◌, Bool, true, false, not, ◌&&◌, ◌⊎◌, inl, inr, List, [], ◌∷◌, reverse,
  none, some, same→eq, any, arith, Bool-cases, is_some, Bytes, map, same_refl,
}
use transferly.Text.FilePath.{FilePath}
use transferly.Protocol.{IncomingOffer, Disk}
use transferly.Receive.{same_path, remove_node, node_at, above, make_folders}
use transferly.Receive.Cleanup.{
  remove_empty, remove_each, is_below, remove_created_directories, remove_incoming_files,
  remove_incoming_staging,
}

abbrev pub is_listed : FilePath → List FilePath → Bool
is_listed path = any (λ p. same_path p path)

pub same_path→eq : (p q : FilePath) → same_path p q ≡ true → p ≡ q
unfolding same_path
same_path→eq [] [] h = refl
same_path→eq [] (d ∷ q) h = cc
same_path→eq (c ∷ p) [] h = cc
same_path→eq (c ∷ p) (d ∷ q) h = ground (arith, same_path→eq p q, same→eq c d)

remove_node-other :
    (path q : FilePath) (disk : Disk)
    → same_path path q ≡ false
    → node_at q (remove_node path disk) ≡ node_at q disk
unfolding remove_node node_at
remove_node-other path q [] h = refl
remove_node-other path q ((p, n) ∷ disk) h =
    ground (arith, remove_node-other path q disk, same_path→eq p path)

remove_node-gone : (path : FilePath) (disk : Disk) → node_at path (remove_node path disk) ≡ none
unfolding remove_node node_at
remove_node-gone path [] = refl
remove_node-gone path ((p, n) ∷ disk) = ground (arith, remove_node-gone path disk)

remove_empty-cases :
    (path q : FilePath) (disk : Disk)
    → (node_at q (remove_empty path disk) ≡ node_at q disk)
      ⊎ ((same_path path q ≡ true) × (node_at q (remove_empty path disk) ≡ none))
unfolding remove_empty
remove_empty-cases path q disk = elim (Bool-cases (any (λ (p, n). is_below path p) disk)) [
  | inl full ↦ inl (rw (full, remove_empty) refl)
  | inr bare ↦ elim (Bool-cases (same_path path q)) [
    | inr other ↦ inl (rw (bare, remove_empty) (remove_node-other path q disk other))
    | inl this ↦ inr (
      this,
      rw (bare, remove_empty)
          (ap (λ p. node_at p (remove_node path disk)) (sym (same_path→eq path q this))
            ∙ remove_node-gone path disk),
    )
  ]
]

-- What stands at a path stays, or it is one of `removed` and gone, or one of `made` where nothing stood
-- and a folder now.
pub record IsLeft (removed made : List FilePath) (before after : Disk) : Type 0 where
  pub at :
      (q : FilePath)
      → (node_at q after ≡ node_at q before)
        ⊎ ((is_listed q removed ≡ true) × (node_at q after ≡ none))
        ⊎ ((is_listed q made ≡ true) × (node_at q before ≡ none) × (node_at q after ≡ some none))

pub same-IsLeft :
    (removed made : List FilePath) (before after : Disk)
    → after ≡ before
    → IsLeft removed made before after
same-IsLeft removed made before after e = record { at = λ q. inl (ap (node_at q) e) }

remove_each-cases :
    (paths : List FilePath) (q : FilePath) (disk : Disk)
    → (node_at q (remove_each paths disk) ≡ node_at q disk)
      ⊎ ((is_listed q paths ≡ true) × (node_at q (remove_each paths disk) ≡ none))
unfolding remove_each
remove_each-cases [] q disk = inl refl
remove_each-cases (p ∷ paths) q disk =
    ground (arith, remove_each-cases paths q (remove_empty p disk), remove_empty-cases p q disk)

pub remove_incoming_files-IsLeft :
    (o : IncomingOffer) (made : List FilePath) (disk : Disk)
    → IsLeft (reverse o.created_directories) made disk (remove_incoming_files o disk).1
unfolding remove_incoming_files remove_incoming_staging remove_created_directories
remove_incoming_files-IsLeft o made disk = record {
  at = λ q. elim (remove_each-cases (reverse o.created_directories) q disk) [
    | inl same ↦ inl same
    | inr gone ↦ inr (inl gone)
  ];
}

make_folders-cases :
    (makes : FilePath → Bool) (paths : List FilePath) (q : FilePath) (disk : Disk)
    → (node_at q (make_folders makes paths disk) ≡ node_at q disk)
      ⊎ ((is_listed q paths ≡ true)
          × (node_at q disk ≡ none)
          × (node_at q (make_folders makes paths disk) ≡ some none))
unfolding make_folders
make_folders-cases makes [] q disk = inl refl
make_folders-cases makes (p ∷ paths) q disk =
    elim (Bool-cases (makes p && not (is_some (node_at p disk)))) [
      | inr kept ↦ rw (kept, make_folders) (ground (arith, make_folders-cases makes paths q disk))
      | inl made ↦
          let free : node_at p disk ≡ none = ground arith in
          rw (made, make_folders)
            (elim (Bool-cases (same_path p q)) [
              | inr other ↦
                  let same : node_at q ((p, none) ∷ disk) ≡ node_at q disk =
                    unfold node_at in ground arith in
                  ground (arith, make_folders-cases makes paths q ((p, none) ∷ disk), other, same)
              | inl this ↦
                  let here : node_at q ((p, none) ∷ disk) ≡ some none =
                    unfold node_at in ground arith in
                  let before : node_at q disk ≡ none =
                    ap (λ x. node_at x disk) (sym (same_path→eq p q this)) ∙ free in
                  ground
                    (arith, make_folders-cases makes paths q ((p, none) ∷ disk), this, here, before)
            ])
    ]

pub make_folders-IsLeft :
    (makes : FilePath → Bool) (removed paths : List FilePath) (disk : Disk)
    → IsLeft removed paths disk (make_folders makes paths disk)
make_folders-IsLeft makes removed paths disk = record {
  at = λ q. elim (make_folders-cases makes paths q disk) [
    | inl same ↦ inl same
    | inr made ↦ inr (inr made)
  ];
}

-- Where nothing stands once folders were made, nothing stood.
pub IsLeft-vacant :
    (made : List FilePath) (q : FilePath) (before after : Disk)
    → IsLeft [] made before after
    → node_at q after ≡ none
    → node_at q before ≡ none
IsLeft-vacant made q before after l h = ground (arith, l.at q)

is_listed-cons :
    (c : Bytes) (q : FilePath) (paths : List FilePath)
    → is_listed (c ∷ q) (map (λ p. c ∷ p) paths) ≡ is_listed q paths
unfolding same_path
is_listed-cons c q [] = refl
is_listed-cons c q (p ∷ paths) = ground (arith, is_listed-cons c q paths, same_refl c)

is_listed-above : (path : FilePath) → is_listed path (above path) ≡ false
unfolding above same_path
is_listed-above [] = refl
is_listed-above (c ∷ []) = refl
is_listed-above (c ∷ d ∷ path) =
    let deeper = is_listed-cons c (d ∷ path) (above (d ∷ path)) ∙ is_listed-above (d ∷ path) in
    ground (arith, deeper)

-- The folders above a path leave it free.
pub make_folders-above :
    (makes : FilePath → Bool) (path : FilePath) (disk : Disk)
    → node_at path disk ≡ none
    → node_at path (make_folders makes (above path) disk) ≡ none
make_folders-above makes path disk h =
    ground (arith, make_folders-cases makes (above path) path disk, is_listed-above path)
