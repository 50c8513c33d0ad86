-- ===== src/Names.antt =====
-- The final names of an offer: resolveIncomingPaths of internal/terminal/offer_intake.go and
-- resolveFinalPathWithReservations of internal/terminal/cleanup.go. `key` is manifestPathKey. What stands in the
-- destination folder is a list of names.
pub mod Paths
pub mod Fresh
pub mod Ends
mod Tests
use transferly.Prelude.{
  ℕ, zero, suc, ◌+◌, ◌-◌, ◌≡◌, Bool, true, false, not, ◌&&◌, ◌||◌, List, [], ◌∷◌, ◌++◌, map, Option,
  none, some, Bytes, codes, same, ◌==◌, if◌then◌else◌, length, take, any, Dict, insert, Result, ok,
  fail, ◌>>=◌, ◌>>◌, reject_if,
}
use transferly.Text.FilePath.{FilePath, join_path}
use transferly.Safety.{
  PathError, BeneathError, validate_manifest_path, validate_windows_component, ensure_path_beneath,
  contains,
}
use transferly.Session.Code.{decimal}

pub data NameError : Type 0 where
  separator endless : NameError
  unsafe : PathError → NameError
  outside : BeneathError → NameError

-- `filepath.Ext` of one component: from the last dot on.
unfoldable pub extension : Bytes → Bytes
extension [] = []
extension (c ∷ s) =
    let rest = extension s in if same rest [] then (if c == b'.' then c ∷ s else []) else rest

-- `strings.TrimSuffix(name, extension)`
unfoldable pub stem : Bytes → Bytes
stem name = take (length name - length (extension name)) name

-- The candidates: the name itself, and `fmt.Sprintf("%s (%d)%s", stem, suffix, extension)`.
unfoldable pub candidate : Bytes → ℕ → Bytes
candidate name zero = name
candidate name (suc n) =
    stem name ++ codes " (" ++ decimal (suc (suc n)) (suc n) ++ codes ")" ++ extension name

unfoldable pub checked : Result PathError (Unit {0}) → Result NameError (Unit {0})
checked (ok u) = ok u
checked (fail e) = fail (unsafe e)

unfoldable pub below : Result BeneathError (Unit {0}) → Result NameError (Unit {0})
below (ok u) = ok u
below (fail e) = fail (outside e)

module _ (key : Bytes → Bytes) (destination : FilePath) where
  -- The loop of resolveFinalPathWithReservations from the candidate `suffix` on. As each round that goes on has
  -- met a reserved name, as many rounds as there are reserved names, and one more, are enough.
  unfoldable pub find_name : ℕ → ℕ → Bytes → List Bytes → Result NameError Bytes
  find_name zero suffix name reserved = fail endless
  find_name (suc fuel) suffix name reserved =
      let later = find_name fuel (suc suffix) name reserved in
      checked (validate_windows_component (candidate name suffix)) >>= λ _.
      below (ensure_path_beneath destination (join_path destination (candidate name suffix)))
      >>= λ _.
          (if any (same (key (candidate name suffix))) reserved
            then later
            else ok (candidate name suffix))

  -- resolveFinalPathWithReservations: the name that was chosen in the destination.
  unfoldable pub resolve_final_name : Bytes → List Bytes → Result NameError Bytes
  resolve_final_name name reserved = checked (validate_manifest_path name) >>= λ _.
      reject_if (contains name b'/') separator >>= λ _.
      find_name (suc (length reserved)) 0 name reserved

  -- The loop of resolveIncomingPaths; a name that is chosen is reserved.
  unfoldable pub resolve_roots :
      List Bytes → List Bytes → Dict FilePath → Result NameError (Dict FilePath × List Bytes)
  resolve_roots [] reserved paths = ok (paths, reserved)
  resolve_roots (root ∷ roots) reserved paths = resolve_final_name root reserved >>= λ name.
      resolve_roots roots (key name ∷ reserved)
        (insert (key root) (join_path destination name) paths)

  -- resolveIncomingPaths, with the names that stand in the destination.
  unfoldable pub resolve_incoming_paths : List Bytes → List Bytes → Result NameError (Dict FilePath)
  resolve_incoming_paths roots standing = resolve_roots roots (map key standing) [] >>= λ r. ok r.0
