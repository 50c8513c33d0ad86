-- ===== src/Prepare/Tidy.antt =====
-- Folders on a disk that has nothing below a path where nothing stands.
use transferly.Prelude.{
  ◌≡◌, refl, ap, sym, ◌∙◌, Bool, true, false, ◌||◌, inl, inr, [], ◌∷◌, none, some, arith,
  if◌then◌else◌, any, Bool-cases,
}
use transferly.Text.FilePath.{FilePath}
use transferly.Protocol.{Disk, Node}
use transferly.Receive.{same_path, node_at, remove_node}
use transferly.Receive.Placing.{same_path_refl}
use transferly.Receive.Cleanup.{is_below, remove_empty}
use transferly.Receive.Removal.{same_path→eq}
use transferly.Prepare.{parent}

abbrev has_below : FilePath → Disk → Bool
has_below path disk = any (λ (p, n). is_below path p) disk

-- Nothing lies below a path where nothing stands.
pub record IsTidy (disk : Disk) : Type 0 where
  pub rooted : (path : FilePath) → node_at path disk ≡ none → has_below path disk ≡ false

is_below-nil : (q : FilePath) → is_below q [] ≡ false
unfolding is_below
is_below-nil [] = refl
is_below-nil (c ∷ q) = refl

is_below-parent :
    (q p : FilePath)
    → is_below q p ≡ true
    → (same_path q (parent p) || is_below q (parent p)) ≡ true
unfolding is_below same_path parent
is_below-parent [] [] h = cc
is_below-parent [] (c ∷ []) h = refl
is_below-parent [] (c ∷ d ∷ p) h = refl
is_below-parent (x ∷ q) [] h = cc
is_below-parent (x ∷ q) (c ∷ []) h = ground (arith, is_below-nil q, h)
is_below-parent (x ∷ q) (c ∷ d ∷ p) h = ground (arith, is_below-parent q (d ∷ p))

node_at-below :
    (q p : FilePath) (n : Node) (disk : Disk)
    → node_at p disk ≡ some n
    → is_below q p ≡ true
    → has_below q disk ≡ true
unfolding node_at
node_at-below q p n [] h b = cc
node_at-below q p n ((r, k) ∷ disk) h b = elim (Bool-cases (same_path r p)) [
  | inl this ↦ let eq = same_path→eq r p this in ground (arith, ap (is_below q) eq, b)
  | inr that ↦
      let rest =
        node_at-below q p n disk (ap (λ t. if t then some k else node_at p disk) (sym that) ∙ h)
          b in
      ground (arith, rest)
]

-- A folder in a folder keeps the disk tidy.
pub mkdir-IsTidy :
    (path : FilePath) (n : Node) (disk : Disk)
    → IsTidy disk
    → node_at (parent path) disk ≡ some n
    → IsTidy ((path, none) ∷ disk)
unfolding node_at
mkdir-IsTidy path n disk tidy up = record {
  rooted = λ q h. elim (Bool-cases (same_path path q)) [
    | inl this ↦
        (let e : some none ≡ none =
            ap (λ t. if t then some none else node_at q disk) (sym this) ∙ h in
          cc (e))
    | inr that ↦
        let gone : node_at q disk ≡ none =
          ap (λ t. if t then some none else node_at q disk) (sym that) ∙ h in
        let bare = tidy.rooted q gone in
        elim (Bool-cases (is_below q path)) [
          | inr apart ↦ ground (arith, apart, bare)
          | inl below ↦ elim (Bool-cases (same_path q (parent path))) [
            | inl equal ↦
                (let e : none ≡ some n =
                    sym gone ∙ ap (λ p. node_at p disk) (same_path→eq q (parent path) equal) ∙ up in
                  cc (e))
            | inr other ↦
                let deeper : is_below q (parent path) ≡ true =
                  ground (arith, is_below-parent q path below, other) in
                (let e : false ≡ true = sym bare ∙ node_at-below q (parent path) n disk up deeper in
                  cc (e))
          ]
        ]
  ];
}

remove_node-missing :
    (path : FilePath) (disk : Disk) → node_at path disk ≡ none → remove_node path disk ≡ disk
unfolding node_at remove_node
remove_node-missing path [] h = refl
remove_node-missing path ((p, n) ∷ disk) h = ground (arith, remove_node-missing path disk)

is_below_irrefl : (path : FilePath) → is_below path path ≡ false
unfolding is_below
is_below_irrefl [] = refl
is_below_irrefl (c ∷ path) = ground (arith, is_below_irrefl path)

-- Removing a folder that was just made gives the disk from before.
pub remove_empty-made :
    (path : FilePath) (disk : Disk)
    → IsTidy disk
    → node_at path disk ≡ none
    → remove_empty path ((path, none) ∷ disk) ≡ disk
unfolding remove_empty remove_node
remove_empty-made path disk tidy h =
    let bare = tidy.rooted path h in
    let gone = remove_node-missing path disk h in
    ground (arith, is_below_irrefl path, same_path_refl path, bare, gone)
