-- ===== src/Intake/Tests.antt =====
-- The theorems on manifests at an offer of a folder with one file.
use transferly.Prelude.{◌≡◌, refl, true, [], ◌∷◌, none, some, ok, lookup, insert, arith}
use transferly.Prelude.Int.{pos, add_int64}
use transferly.Text.Utf8.{valid_utf8, utf16_length, runes}
use transferly.Text.Split.{split, has_prefix, ends_with, before}
use transferly.Text.Space.{to_upper}
use transferly.Safety.{
  validate_manifest_path, validate_windows_component, check_characters, check_components,
  is_ascii_letter, is_windows_reserved_base,
}
use transferly.Protocol.{offer, message, Message, Attempt}
use transferly.Protocol.Samples.{session, incoming, downloads, manifest, offer_id, same_key}
use transferly.Protocol.{IncomingOffer}
use transferly.Intake.{
  tally, tally_entry, check_path, check_hierarchy, check_parents, above, check_parent, count_entry,
  parents, valid_header, new_incoming, is_hex, handle_incoming_offer, validate_received_manifest,
}
use transferly.Intake.Header.{IsHeader, IsCollecting, handle_incoming_offer-IsHeader}
use transferly.Intake.Hierarchy.{IsWellFormed, validate_received_manifest-IsWellFormed}

accepted : validate_received_manifest same_key (incoming 1) ≡ ok (incoming 1)
unfolding validate_received_manifest tally tally_entry check_path validate_manifest_path valid_utf8
    utf16_length has_prefix split validate_windows_component ends_with check_characters to_upper
    before lookup insert check_hierarchy check_parents above check_parent count_entry parents
    check_components is_ascii_letter is_windows_reserved_base runes
accepted = refl

validate_received_manifest-IsWellFormed_example :
    IsWellFormed same_key 1 manifest × (manifest.entries ≡ manifest.entries)
validate_received_manifest-IsWellFormed_example =
    validate_received_manifest-IsWellFormed same_key (incoming 1) (incoming 1) accepted

abbrev header : Message
header = record (message offer offer_id) {
  file_count = pos 1;
  folder_count = pos 1;
  root_count = pos 1;
  total_bytes = pos 3;
}

abbrev collecting : Attempt
collecting = record session {
  pending_incoming = (offer_id, new_incoming 5 downloads header) ∷ [];
  next_address = 6;
}

collected : handle_incoming_offer downloads header session ≡ ok collecting
unfolding handle_incoming_offer valid_header add_int64 is_hex lookup insert
collected = refl

handle_incoming_offer-IsHeader_example :
    IsHeader header 1 1 1 3
    × (is_hex header.offer_id ≡ true)
    × (lookup header.offer_id session.pending_incoming ≡ none)
    × (o : IncomingOffer) × (lookup header.offer_id collecting.pending_incoming ≡ some o)
    × IsCollecting header downloads o
handle_incoming_offer-IsHeader_example =
    handle_incoming_offer-IsHeader downloads header session collecting (omega arith) (omega arith)
      collected
