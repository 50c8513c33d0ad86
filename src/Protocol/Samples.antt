-- ===== src/Protocol/Samples.antt =====
-- An offer of a folder with one file, and a session, for the tests.
use transferly.Prelude.{ℕ, true, false, [], ◌∷◌, none, Bytes, codes, replicate}
use transferly.Prelude.Int.{pos}
use transferly.Text.FilePath.{FilePath}
use transferly.Protocol.{
  file, folder, ManifestEntry, OfferManifest, IncomingOffer, OutgoingOffer, inbound, Attempt,
}

abbrev pub digest : Bytes
digest = replicate 64 97

-- A hash with one value.
abbrev pub one_digest : Bytes → Bytes
one_digest content = digest

abbrev pub same_key : Bytes → Bytes
same_key path = path

abbrev pub downloads : FilePath
downloads = codes "home" ∷ codes "downloads" ∷ []

abbrev pub docs : ManifestEntry
docs = record {
  source_path = [];
  path = codes "docs";
  kind = folder;
  size = 0;
  modified = pos 0;
  read_only = false;
  hidden = false;
  digest = [];
}

abbrev pub report : ManifestEntry
report = record {
  source_path = [];
  path = codes "docs/report.txt";
  kind = file;
  size = 3;
  modified = pos 0;
  read_only = false;
  hidden = false;
  digest = digest;
}

abbrev pub manifest : OfferManifest
manifest = record {
  roots = codes "docs" ∷ [];
  entries = docs ∷ report ∷ [];
  omissions = [];
  file_count = 1;
  folder_count = 1;
  total_bytes = 3;
}

abbrev pub offer_id : Bytes
offer_id = replicate 32 49

abbrev pub incoming : ℕ → IncomingOffer
incoming address = record {
  address = address;
  id = offer_id;
  canceled = false;
  manifest = manifest;
  destination = downloads;
  waiting = false;
  accepted = true;
  collecting = false;
  receiving_files = [];
  final_paths = (codes "docs", codes "home" ∷ codes "downloads" ∷ codes "docs" ∷ []) ∷ [];
  created_directories = [];
  stale_staging = false;
  completed_file = 0;
  failed_file = 0;
  file_outcomes = [];
  root_count = 1;
}

abbrev pub outgoing : ℕ → OutgoingOffer
outgoing address = record {
  address = address;
  id = replicate 32 50;
  canceled = false;
  manifest = manifest;
  submitted = true;
}

abbrev pub session : Attempt
session = record {
  role = inbound;
  incoming = none;
  outgoing = none;
  outgoing_queue = [];
  pending_incoming = [];
  coordinator_queue = [];
  coordinator_active = false;
  transfer_active = false;
  wire_up = true;
  next_address = 5;
  disk = [];
  effects = [];
}
