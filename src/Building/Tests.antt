-- ===== src/Building/Tests.antt =====
-- An offer of a folder with one file, alone and with a symbolic link beside it.
use transferly.Prelude.{
  ◌≡◌, refl, true, false, [], ◌∷◌, some, codes, if◌then◌else◌, length, ok, fail,
}
use transferly.Prelude.Int.{pos}
use transferly.Text.Split.{split, has_prefix, ends_with, before}
use transferly.Text.Space.{to_upper}
use transferly.Text.Utf8.{utf16_length, valid_utf8}
use transferly.Safety.{
  validate_manifest_path, validate_windows_component, check_characters, is_windows_reserved_base,
}
use transferly.Protocol.{file, folder, OfferManifest, IncomingOffer}
use transferly.Protocol.Errors.{inconsistent_manifest}
use transferly.Protocol.Samples.{incoming, digest, one_digest, same_key}
use transferly.Intake.{validate_received_manifest}
use transferly.Building.{
  Attributes, stable, Tree, link, regular, directory, no_more, branch, add_manifest_omission,
  add_file, add_folder, guarded, insert_by_key, sort_by_key, visit, walk_file, walk_folder,
  walk_manifest_root, Root, build_roots, build_manifest,
}
use transferly.Building.Walks.{IsFolding, has_names, is_kept}
use transferly.Building.Roots.{all_kept, AreNamed}
use transferly.Building.Validation.{build_manifest-validate}

abbrev attributes : Attributes
attributes = record { modified = pos 0; read_only = false; hidden = false }

abbrev docs_tree : Tree
docs_tree =
    directory attributes true
      (branch (codes "a") (regular attributes 3 (stable (codes "abc"))) no_more)

abbrev docs_root : Root
docs_root = record {
  source = codes "home" ∷ codes "docs" ∷ [];
  name = codes "docs";
  tree = docs_tree;
}

abbrev link_root : Root
link_root = record { source = codes "home" ∷ codes "l" ∷ []; name = codes "l"; tree = link }

abbrev built : OfferManifest
built = record {
  roots = codes "docs" ∷ [];
  entries =
      record {
        source_path = codes "home" ∷ codes "docs" ∷ [];
        path = codes "docs";
        kind = folder;
        size = 0;
        modified = pos 0;
        read_only = false;
        hidden = false;
        digest = [];
      }
      ∷ record {
        source_path = codes "home" ∷ codes "docs" ∷ codes "a" ∷ [];
        path = codes "docs/a";
        kind = file;
        size = 3;
        modified = pos 0;
        read_only = false;
        hidden = false;
        digest = digest;
      }
      ∷ [];
  omissions = [];
  file_count = 1;
  folder_count = 1;
  total_bytes = 3;
}

abbrev offer_of : OfferManifest → IncomingOffer
offer_of m = record (incoming 1) { manifest = m; root_count = length m.roots }

same_key-IsFolding : IsFolding same_key
same_key-IsFolding = record { joins = λ path name. refl; names = λ name p. p }

docs-AreNamed : AreNamed (some docs_root ∷ [])
unfolding has_names
docs-AreNamed = (refl, refl, tt)

build_docs : build_manifest one_digest same_key (some docs_root ∷ []) ≡ ok built
unfolding build_manifest build_roots walk_manifest_root guarded walk_folder walk_file visit
    sort_by_key insert_by_key add_file add_folder validate_manifest_path valid_utf8 utf16_length
    has_prefix split validate_windows_component ends_with check_characters is_windows_reserved_base
    to_upper before
build_docs = refl

build_manifest-validate_example :
    validate_received_manifest same_key (offer_of built)
    ≡ (if all_kept (some docs_root ∷ []) then ok (offer_of built) else fail inconsistent_manifest)
build_manifest-validate_example =
    build_manifest-validate one_digest same_key (some docs_root ∷ []) built same_key-IsFolding
      docs-AreNamed build_docs (offer_of built) refl refl

abbrev with_omission : OfferManifest
with_omission = record built {
  roots = codes "docs" ∷ codes "l" ∷ [];
  omissions =
      record {
        path = codes "l";
        reason = codes "symbolic link, junction, or reparse point is unsupported";
      }
      ∷ [];
}

two-AreNamed : AreNamed (some docs_root ∷ some link_root ∷ [])
unfolding has_names
two-AreNamed = (refl, refl, (refl, refl, tt))

build_two :
    build_manifest one_digest same_key (some docs_root ∷ some link_root ∷ []) ≡ ok with_omission
unfolding build_manifest build_roots walk_manifest_root guarded walk_folder walk_file visit
    sort_by_key insert_by_key add_file add_folder add_manifest_omission validate_manifest_path
    valid_utf8 utf16_length has_prefix split validate_windows_component ends_with check_characters
    is_windows_reserved_base to_upper before
build_two = refl

-- A link beside the folder: the offer is built, and the validation refuses it.
validate_two :
    validate_received_manifest same_key (offer_of with_omission) ≡ fail inconsistent_manifest
unfolding all_kept is_kept
validate_two =
    build_manifest-validate one_digest same_key (some docs_root ∷ some link_root ∷ []) with_omission
      same_key-IsFolding two-AreNamed build_two (offer_of with_omission) refl refl
