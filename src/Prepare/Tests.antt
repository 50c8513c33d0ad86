-- ===== src/Prepare/Tests.antt =====
-- The folder of an offer is made, and removed again when the staging area is unsafe.
use transferly.Prelude.{◌≡◌, refl, ◌⊎◌, true, false, [], ◌∷◌, none, some, fail, lookup, any}
use transferly.Text.FilePath.{FilePath, rel, clean}
use transferly.Text.Split.{join}
use transferly.Text.Utf8.{utf16_length}
use transferly.Safety.{ensure_path_beneath}
use transferly.Protocol.{Disk}
use transferly.Protocol.Samples.{incoming, same_key}
use transferly.Receive.{node_at, same_path}
use transferly.Receive.Cleanup.{is_below}
use transferly.Prepare.{
  Answers, staging_unsafe, is_folder_node, parent, mkdir, make_all, note_made, make_folder,
  check_beneath, check_free, or_fail, sort_by_depth, nested_folders, final_path, prepare_root,
  prepare_roots, prepare_folders, prepare_content, or_rollback, short_of_space, prepare_at,
  after_make_all, prepare_incoming,
}
use transferly.Prepare.Tidy.{IsTidy}
use transferly.Prepare.Rollback.{prepare_incoming-fail}

abbrev answers : Answers
answers = record {
  safe_before = true;
  safe_after = true;
  destination_is_folder = true;
  space_answers = true;
  space = some 100;
  makes = λ path. true;
  unreadable = λ path. false;
  staging_safe = false;
  staging_made = true;
}

abbrev root_only : Disk
root_only = ([], none) ∷ []

root_only-IsTidy : IsTidy root_only
unfolding node_at is_below same_path
root_only-IsTidy = record { rooted = bare }
  where
    bare :
        (path : FilePath)
        → node_at path root_only ≡ none
        → any (λ (p, n). is_below path p) root_only ≡ false
    bare [] h = cc
    bare (c ∷ path) h = refl

root_only-folder : is_folder_node (node_at [] root_only) ≡ true
unfolding node_at is_folder_node same_path
root_only-folder = refl

staging_fails : (prepare_incoming same_key answers (incoming 1) root_only).0 ≡ fail staging_unsafe
unfolding prepare_incoming after_make_all prepare_at short_of_space prepare_content prepare_roots
    prepare_folders prepare_root final_path or_rollback make_all or_fail check_beneath check_free
    make_folder mkdir note_made node_at same_path ensure_path_beneath rel clean lookup utf16_length
    join is_folder_node parent sort_by_depth nested_folders
staging_fails = refl

prepare_incoming-fail_example :
    ((prepare_incoming same_key answers (incoming 1) root_only).1.created_directories ≡ [])
    × (((prepare_incoming same_key answers (incoming 1) root_only).2 ≡ root_only)
        ⊎ ((prepare_incoming same_key answers (incoming 1) root_only).2
            ≡ (make_all answers [] (incoming 1).destination root_only).1))
prepare_incoming-fail_example =
    prepare_incoming-fail same_key answers (incoming 1) refl root_only staging_unsafe
      root_only-IsTidy root_only-folder staging_fails
