-- ===== src/Text/FilePath.antt =====
-- What the program uses of path/filepath, on absolute paths: lists of components below the root
-- (`FilePath`). Go's separator is `/`, as on every system but Windows.
use mathlib.Core.List.{foldl}
use transferly.Prelude.{
  ◌≡◌, ◌≢◌, refl, ◌||◌, List, [], ◌∷◌, ◌++◌, Bytes, arith, same, same_iff, codes, if◌then◌else◌,
  reverse, All, replicate, length, append-nil, append_assoc,
}
use mathlib.Core.List.{reverse-cons, reverse-reverse}
use transferly.Text.Split.{split}

abbrev pub FilePath : Type 0
FilePath = List Bytes

abbrev pub dot : Bytes
dot = codes "."

abbrev pub dot_dot : Bytes
dot_dot = codes ".."

abbrev tail : FilePath → FilePath
tail [] = []
tail (c ∷ cs) = cs

-- One round of `filepath.Clean`, on the components so far, the last one first.
pub clean_step : FilePath → Bytes → FilePath
clean_step out c =
    if same c [] || same c dot then out else if same c dot_dot then tail out else c ∷ out

unfoldable pub clean : FilePath → FilePath
unfolding clean_step
clean path = reverse (foldl clean_step [] path)

-- `filepath.Join(destination, relative)` at a relative path with slashes.
unfoldable pub join_path : FilePath → Bytes → FilePath
join_path destination relative = clean (destination ++ split b'/' relative)

-- A component that `Clean` keeps.
abbrev pub IsPlain : Bytes → Type 0
IsPlain c = (c ≢ []) × (c ≢ dot) × (c ≢ dot_dot)

-- `filepath.Rel` of two clean absolute paths.
unfoldable pub rel : FilePath → FilePath → FilePath
rel [] target = target
rel (b ∷ base) [] = dot_dot ∷ rel base []
rel (b ∷ base) (t ∷ target) =
    let below = rel base target in
    if same b t then below else replicate (length (b ∷ base)) dot_dot ++ t ∷ target

clean_step-plain : (out : FilePath) (c : Bytes) → IsPlain c → clean_step out c ≡ c ∷ out
unfolding clean_step
clean_step-plain out c (n, d, p) = ground (arith, same_iff c [], same_iff c dot, same_iff c dot_dot)

foldl-clean_step :
    (path out : FilePath) → All IsPlain path → foldl clean_step out path ≡ reverse path ++ out
foldl-clean_step [] out h = refl
foldl-clean_step (c ∷ path) out h =
    rw (clean_step-plain out c h.0, reverse-cons c path, append_assoc)
      (foldl-clean_step path (c ∷ out) h.1)

-- A path of plain components is clean.
pub clean-plain : (path : FilePath) → All IsPlain path → clean path ≡ path
unfolding clean
clean-plain path h = rw (foldl-clean_step path [] h, append-nil) (reverse-reverse path)

pub rel-append : (base rest : FilePath) → rel base (base ++ rest) ≡ rest
unfolding rel
rel-append [] rest = refl
rel-append (b ∷ base) rest = ground (arith, same_iff b b, rel-append base rest)
