-- ===== src/Safety/Confine.antt =====
-- An accepted path stays below the folder that it is joined to, and `ensurePathBeneath` lets only
-- paths below its folder pass.
use transferly.Prelude.{
  ◌≡◌, refl, ◌≤◌, true, false, not, ◌||◌, ltb, List, [], ◌∷◌, ◌++◌, Bytes, codes, same, same_iff,
  arith, All, All-append, length, Result, ok, reject_if-ok, >>=-eq-ok,
}
use transferly.Text.Utf8.{valid_utf8, utf16_length}
use transferly.Text.Split.{split, has_prefix}
use transferly.Text.FilePath.{
  FilePath, IsPlain, dot, dot_dot, clean, rel, join_path, clean-plain, rel-append,
}
use transferly.Safety.{
  has_drive, contains, max_manifest_path_bytes, max_windows_path, PathError, accepts, climbs,
  render, validate_windows_component, check_components, validate_manifest_path, ensure_path_beneath,
}

-- What a run of the component loop that ends well has tested.
pub record IsGood (c : Bytes) : Type 0 where
  pub plain : IsPlain c
  pub valid : validate_windows_component c ≡ ok tt

ok_unit : (r : Result PathError (Unit {0})) (u : Unit {0}) → r ≡ ok u → r ≡ ok tt
ok_unit r tt h = h

check_components-IsGood : (cs : List Bytes) → check_components cs ≡ ok tt → All IsGood cs
unfolding check_components
check_components-IsGood [] h = tt
check_components-IsGood (c ∷ cs) h =
    let (not_nil, h₁) = reject_if-ok (same c []) _ _ h in
    let (not_dot, h₂) = reject_if-ok (same c dot) _ _ h₁ in
    let (not_dot_dot, h₃) = reject_if-ok (same c dot_dot) _ _ h₂ in
    let (u, valid, h₄) = >>=-eq-ok (validate_windows_component c) _ h₃ in
    (
      record {
        plain = ground (arith, same_iff c [], same_iff c dot, same_iff c dot_dot);
        valid = ok_unit _ u valid;
      },
      check_components-IsGood cs h₄,
    )

-- What an accepted path has passed.
pub record IsAccepted (path : Bytes) : Type 0 where
  pub encoded : valid_utf8 path ≡ true
  pub bytes : length path ≤ max_manifest_path_bytes
  pub units : utf16_length path ≤ max_windows_path
  pub relative : has_prefix path (codes "/") ≡ false
  pub slashes : contains path b'\\' ≡ false
  pub components : All IsGood (split b'/' path)

accepts-ok : (path : Bytes) → accepts path ≡ true → validate_manifest_path path ≡ ok tt
accepts-ok path h = ground arith

pub accepts-IsAccepted : (path : Bytes) → accepts path ≡ true → IsAccepted path
unfolding validate_manifest_path
accepts-IsAccepted path h =
    let (not_empty, h₁) = reject_if-ok (same path []) _ _ (accepts-ok path h) in
    let (encoded, h₂) = reject_if-ok (not (valid_utf8 path)) _ _ h₁ in
    let (short, h₃) =
      reject_if-ok
        (ltb max_manifest_path_bytes (length path) || ltb max_windows_path (utf16_length path)) _ _
        h₂ in
    let (relative, h₄) = reject_if-ok (has_prefix path (codes "/") || has_drive path) _ _ h₃ in
    let (slashes, h₅) = reject_if-ok (contains path b'\\') _ _ h₄ in
    record {
      encoded = ground arith;
      bytes = ground arith;
      units = ground arith;
      relative = ground arith;
      slashes = slashes;
      components = check_components-IsGood (split b'/' path) h₅;
    }

IsGood-IsPlain : (cs : List Bytes) → All IsGood cs → All IsPlain cs
IsGood-IsPlain [] h = tt
IsGood-IsPlain (c ∷ cs) h = (h.0.plain, IsGood-IsPlain cs h.1)

-- Joining an accepted path to a clean folder appends its components, each of them plain: `Clean`
-- drops none of them and climbs over none of the folder's.
pub join_path-accepted :
    (destination : FilePath) (path : Bytes)
    → All IsPlain destination
    → accepts path ≡ true
    → (join_path destination path ≡ destination ++ split b'/' path) × All IsPlain (split b'/' path)
unfolding join_path
join_path-accepted destination path clean_folder h =
    let plain = IsGood-IsPlain _ (accepts-IsAccepted path h).components in
    (clean-plain _ (All-append IsPlain destination _ clean_folder plain), plain)

rel-climbs :
    (base target : FilePath) → climbs (rel base target) ≡ false → target ≡ base ++ rel base target
unfolding rel
rel-climbs [] target h = refl
rel-climbs (b ∷ base) [] h = cc
rel-climbs (b ∷ base) (t ∷ target) h = ground (arith, same_iff b t, rel-climbs base target)

-- A path that passes `ensurePathBeneath` is, once both are clean, the folder followed by the
-- components that lead down from it, and none of these climbs out at the start.
pub ensure_path_beneath-below :
    (destination candidate : FilePath)
    → ensure_path_beneath destination candidate ≡ ok tt
    → (rest : FilePath) × (clean candidate ≡ clean destination ++ rest) × (climbs rest ≡ false)
unfolding ensure_path_beneath
ensure_path_beneath-below destination candidate h =
    let (below, _) = reject_if-ok (climbs (rel (clean destination) (clean candidate))) _ _ h in
    (rel (clean destination) (clean candidate), rel-climbs _ _ below, below)

plain-climbs : (cs : FilePath) → All IsPlain cs → climbs cs ≡ false
plain-climbs [] h = refl
plain-climbs (c ∷ cs) h = ground (arith, same_iff c dot_dot)

-- The place of an accepted path always passes `ensurePathBeneath`, unless the place is too long
-- for Windows.
pub ensure_path_beneath-accepted :
    (destination : FilePath) (path : Bytes)
    → All IsPlain destination
    → accepts path ≡ true
    → utf16_length (render (join_path destination path)) ≤ max_windows_path
    → ensure_path_beneath destination (join_path destination path) ≡ ok tt
unfolding ensure_path_beneath
ensure_path_beneath-accepted destination path clean_folder h short =
    let (placed, plain) = join_path-accepted destination path clean_folder h in
    let whole = All-append IsPlain destination (split b'/' path) clean_folder plain in
    let fits = rw placed at short in
    rw
      (
        placed,
        clean-plain destination clean_folder,
        clean-plain _ whole,
        rel-append destination,
        plain-climbs _ plain,
      )
      (ground arith)
