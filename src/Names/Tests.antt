-- ===== src/Names/Tests.antt =====
-- A file whose name is taken in the destination.
use transferly.Prelude.{
  ◌≡◌, ◌≢◌, refl, List, [], All, ◌∷◌, map, Bytes, codes, Dict, insert, ok, fail,
}
use transferly.Text.FilePath.{FilePath, join_path, clean, rel}
use transferly.Text.Split.{split, join, has_prefix, ends_with, before}
use transferly.Text.Utf8.{utf16_length, valid_utf8}
use transferly.Text.Space.{to_upper}
use transferly.Safety.{
  validate_manifest_path, validate_windows_component, check_characters, is_windows_reserved_base,
  ensure_path_beneath,
}
use transferly.Protocol.Samples.{downloads, same_key}
use transferly.Session.Code.{decimal}
use transferly.Names.{
  endless, extension, stem, candidate, checked, below, find_name, resolve_final_name, resolve_roots,
  resolve_incoming_paths,
}
use transferly.Names.Paths.{HasPath}
use transferly.Names.Fresh.{AreFresh, resolve_incoming_paths-AreFresh}
use transferly.Names.Ends.{KeepsApart, resolve_incoming_paths-endless}

abbrev taken : List Bytes
taken = codes "a.txt" ∷ []

abbrev chosen : Dict FilePath
chosen = (codes "a.txt", codes "home" ∷ codes "downloads" ∷ codes "a (1).txt" ∷ []) ∷ []

resolve_taken : resolve_incoming_paths same_key downloads taken taken ≡ ok chosen
unfolding resolve_incoming_paths resolve_roots resolve_final_name find_name candidate stem extension
    decimal checked below validate_manifest_path validate_windows_component ensure_path_beneath
    join_path clean rel split join has_prefix ends_with before utf16_length valid_utf8 to_upper
    check_characters is_windows_reserved_base insert
resolve_taken = refl

resolve_incoming_paths-AreFresh_example :
    AreFresh same_key downloads (map same_key taken) chosen
    × All (HasPath same_key downloads chosen) taken
resolve_incoming_paths-AreFresh_example =
    resolve_incoming_paths-AreFresh same_key downloads taken taken chosen resolve_taken

same_key-KeepsApart : KeepsApart same_key
same_key-KeepsApart = record { candidates = λ name m n e. e }

resolve_incoming_paths-endless_example :
    resolve_incoming_paths same_key downloads taken taken ≢ fail endless
resolve_incoming_paths-endless_example =
    resolve_incoming_paths-endless same_key same_key-KeepsApart downloads taken taken
