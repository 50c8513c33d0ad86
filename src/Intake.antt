-- ===== src/Intake.antt =====
-- internal/terminal/offer_intake.go: how the messages of an offer become a manifest that the user may
-- review. `key` is manifestPathKey, the case folding and normalisation of golang.org/x/text.
pub mod Messages
pub mod Header
pub mod Tallies
pub mod Hierarchy
pub mod Completeness
mod Tests
use transferly.Prelude.{
  ℕ, zero, suc, ◌+◌, ◌-◌, ◌≡◌, Bool, true, false, not, ◌&&◌, ◌||◌, List, [], ◌∷◌, ◌++◌, map,
  reverse, Option, none, some, Bytes, codes, same, arith, ltb, leb, ◌==◌, if◌then◌else◌, length,
  all, any, is_some, Dict, lookup, insert, delete, Result, ok, fail, ◌>>=◌, ◌>>◌, reject_if,
}
use transferly.Prelude.Int.{ℤ, pos, ltb_ℤ, pos_part, add_int64}
use transferly.Text.FilePath.{FilePath}
use transferly.Safety.{
  PathError, validate_manifest_path, contains, max_manifest_entries, max_manifest_omissions,
  max_omission_reason,
}
use transferly.Protocol.{
  MessageType, manifest_entry, manifest_omission, offer_complete, decision, queued, Message,
  message, EntryKind, file, folder, other_kind, ManifestEntry, ManifestOmission, OfferManifest,
  IncomingOffer, from_peer, sends, Attempt,
}
use transferly.Protocol.Errors.{
  SessionError, invalid_header, invalid_identifier, repeated_identifier, no_matching_offer,
  too_many_entries, invalid_entry, invalid_digest, too_many_omissions, invalid_reason, path_alias,
  inconsistent_total, unsupported_kind, missing_parent, file_as_parent, inconsistent_manifest,
  overlapping_offers, send_failed, unsafe_path, unsafe_omission,
}
use transferly.Queue.{
  max_queued_offers, is_inbound, emit, take_coordinator_offer, start_coordinator_offer,
  start_incoming_review,
}

is_hex_digit : ℕ → Bool
is_hex_digit c = leb b'0' c && leb c b'9' || leb b'a' c && leb c b'f' || leb b'A' c && leb c b'F'

even : ℕ → Bool
even zero = true
even (suc n) = not (even n)

-- `hex.DecodeString` succeeds.
unfoldable pub is_hex : Bytes → Bool
unfolding is_hex_digit even
is_hex digest = even (length digest) && all is_hex_digit digest

-- `strings.ToLower` of hexadecimal digits.
unfoldable pub lower_hex : Bytes → Bytes
lower_hex = map λ c. if leb b'A' c && leb c b'Z' then c + 32 else c

unfoldable pub valid_header : Message → Bool
valid_header m =
    let entry_count = add_int64 m.file_count m.folder_count in
    not (
      not (length m.offer_id == 32)
      || ltb_ℤ m.root_count (pos 1)
      || ltb_ℤ (pos max_manifest_entries) m.root_count
      || ltb_ℤ m.file_count (pos 0)
      || ltb_ℤ m.folder_count (pos 0)
      || ltb_ℤ entry_count (pos 1)
      || ltb_ℤ (pos max_manifest_entries) entry_count
      || ltb_ℤ m.total_bytes (pos 0))

-- The offer of a header, before its manifest has come.
unfoldable pub new_incoming : ℕ → FilePath → Message → IncomingOffer
new_incoming address destination m = record {
  address = address;
  id = m.offer_id;
  canceled = false;
  manifest = record {
    roots = [];
    entries = [];
    omissions = [];
    file_count = pos_part m.file_count;
    folder_count = pos_part m.folder_count;
    total_bytes = pos_part m.total_bytes;
  };
  destination = destination;
  waiting = false;
  accepted = false;
  collecting = true;
  receiving_files = [];
  final_paths = [];
  created_directories = [];
  stale_staging = false;
  completed_file = 0;
  failed_file = 0;
  file_outcomes = [];
  root_count = pos_part m.root_count;
}

unfoldable pub handle_incoming_offer : FilePath → Message → Attempt → Result SessionError Attempt
handle_incoming_offer destination m a = do
  reject_if (not (valid_header m)) invalid_header
  reject_if (not (is_hex m.offer_id)) invalid_identifier
  reject_if (is_some (lookup m.offer_id a.pending_incoming)) repeated_identifier
  let incoming = new_incoming a.next_address destination m
  ok (record a {
    pending_incoming = insert m.offer_id incoming a.pending_incoming;
    next_address = a.next_address + 1;
  })

abbrev pub is_file : EntryKind → Bool
is_file file = true
is_file folder = false
is_file (other_kind k) = false

abbrev pub is_folder : EntryKind → Bool
is_folder folder = true
is_folder file = false
is_folder (other_kind k) = false

-- The error of a path, as the error of the session.
unfoldable pub check_path : (PathError → SessionError) → Bytes → Result SessionError (Unit {0})
check_path wrapped path = elim (validate_manifest_path path) [
  | ok u ↦ ok u
  | fail e ↦ fail (wrapped e)
]

unfoldable pub add_entry : Message → IncomingOffer → Result SessionError IncomingOffer
add_entry m o = do
  reject_if (leb max_manifest_entries (length o.manifest.entries)) too_many_entries
  check_path unsafe_path m.path
  reject_if
      (not (is_file m.kind || is_folder m.kind)
        || ltb_ℤ m.size (pos 0)
        || is_folder m.kind && not (ltb_ℤ m.size (pos 1)))
      invalid_entry
  reject_if
      (is_file m.kind && (not (length m.digest == 64) || not (is_hex m.digest))
        || is_folder m.kind && not (same m.digest []))
      invalid_digest
  ok (record o {
    manifest = record o.manifest {
      entries =
          o.manifest.entries
          ++ record {
            source_path = [];
            path = m.path;
            kind = m.kind;
            size = pos_part m.size;
            modified = m.modified;
            read_only = m.read_only;
            hidden = m.hidden;
            digest = lower_hex m.digest;
          }
            ∷ [];
    };
  })

unfoldable pub add_omission : Message → IncomingOffer → Result SessionError IncomingOffer
add_omission m o = do
  reject_if (leb max_manifest_omissions (length o.manifest.omissions)) too_many_omissions
  check_path unsafe_omission m.path
  reject_if (same m.reason [] || ltb max_omission_reason (length m.reason)) invalid_reason
  ok (record o {
    manifest = record o.manifest {
      omissions = o.manifest.omissions ++ record { path = m.path; reason = m.reason } ∷ [];
    };
  })

-- The folders above a path, from its own folder up: what cutting at the last slash yields again and
-- again. The path comes with its last byte first.
unfoldable pub above : Bytes → List Bytes
above [] = []
above (c ∷ rest) = let further = above rest in if c == b'/' then reverse rest ∷ further else further

unfoldable pub parents : Bytes → List Bytes
unfolding above
parents path = above (reverse path)

-- The variables of the first loop of validateReceivedManifest.
pub record Tally : Type 0 where
  pub files : ℕ
  pub folders : ℕ
  pub bytes : ℕ
  pub seen : Dict ManifestEntry
  pub roots : List Bytes

abbrev pub no_tally : Tally
no_tally = record { files = 0; folders = 0; bytes = 0; seen = []; roots = [] }

-- The switch over the kind. `bytes` never passes `total`, so the difference is not cut off.
count_entry : ℕ → ManifestEntry → EntryKind → Tally → Result SessionError Tally
count_entry total e file t = do
  reject_if (ltb (total - t.bytes) e.size) inconsistent_total
  ok (record t { files = t.files + 1; bytes = t.bytes + e.size })
count_entry total e folder t = ok (record t { folders = t.folders + 1 })
count_entry total e (other_kind k) t = fail unsupported_kind

module _ (key : Bytes → Bytes) where
  unfoldable pub tally_entry : ℕ → ManifestEntry → Tally → Result SessionError Tally
  unfolding count_entry
  tally_entry total e t = do
    check_path unsafe_path e.path
    reject_if (is_some (lookup (key e.path) t.seen)) path_alias
    u ← count_entry total e e.kind (record t { seen = insert (key e.path) e t.seen })
    ok (record u { roots = if contains e.path b'/' then u.roots else u.roots ++ e.path ∷ [] })

  unfoldable pub tally : ℕ → List ManifestEntry → Tally → Result SessionError Tally
  tally total [] t = ok t
  tally total (e ∷ es) t = do u ← tally_entry total e t; tally total es u

  check_parent : Option ManifestEntry → Result SessionError (Unit {0})
  check_parent none = fail missing_parent
  check_parent (some e) = reject_if (not (is_folder e.kind)) file_as_parent

  unfoldable pub check_parents : Dict ManifestEntry → List Bytes → Result SessionError (Unit {0})
  unfolding check_parent
  check_parents seen [] = ok tt
  check_parents seen (p ∷ ps) = do check_parent (lookup (key p) seen); check_parents seen ps

  unfoldable pub check_hierarchy :
      Dict ManifestEntry → List ManifestEntry → Result SessionError (Unit {0})
  check_hierarchy seen [] = ok tt
  check_hierarchy seen (e ∷ es) = do check_parents seen (parents e.path); check_hierarchy seen es

  unfoldable pub validate_received_manifest : IncomingOffer → Result SessionError IncomingOffer
  validate_received_manifest o = do
    t ← tally o.manifest.total_bytes o.manifest.entries no_tally
    check_hierarchy t.seen o.manifest.entries
    reject_if
        (not (t.files == o.manifest.file_count)
          || not (t.folders == o.manifest.folder_count)
          || not (t.bytes == o.manifest.total_bytes)
          || not (length t.roots == o.root_count))
        inconsistent_manifest
    ok (record o { manifest = record o.manifest { roots = t.roots } })
