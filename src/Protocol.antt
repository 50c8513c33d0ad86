-- ===== src/Protocol.antt =====
-- The data of the transfer protocol: `Message` of internal/session/session.go, the manifest of
-- internal/terminal/manifest.go, and the session state of internal/terminal/app.go.
pub mod Exec
pub mod Errors
pub mod Samples
use transferly.Prelude.{
  ℕ, ◌+◌, Bool, true, false, List, [], ◌∷◌, ◌++◌, Option, none, some, Bytes, Dict, Result, ok, fail,
}
use transferly.Prelude.Int.{ℤ, pos}
use transferly.Text.FilePath.{FilePath}

-- `Message.Type`, the strings that serveSession knows and any other.
pub data MessageType : Type 0 where
  offer manifest_entry manifest_omission offer_complete queued decision content : MessageType
  complete file_failed result batch_complete abort cancel activity keep_alive : MessageType
  other_type : Bytes → MessageType

-- `Message.Kind`; the code knows the two constants manifestFile and manifestFolder.
pub data EntryKind : Type 0 where
  file folder : EntryKind
  other_kind : Bytes → EntryKind

pub record Message : Type 0 where
  pub type : MessageType
  pub offer_id : Bytes
  pub size : ℤ
  pub accepted : Option Bool
  pub digest : Bytes
  pub success : Option Bool
  pub reason : Bytes
  pub path : Bytes
  pub kind : EntryKind
  pub modified : ℤ
  pub read_only : Bool
  pub hidden : Bool
  pub file_count : ℤ
  pub folder_count : ℤ
  pub root_count : ℤ
  pub total_bytes : ℤ
  pub offset : ℤ

-- A literal that names the type and the offer only.
abbrev pub message : MessageType → Bytes → Message
message type offer_id = record {
  type = type;
  offer_id = offer_id;
  size = pos 0;
  accepted = none;
  digest = [];
  success = none;
  reason = [];
  path = [];
  kind = other_kind [];
  modified = pos 0;
  read_only = false;
  hidden = false;
  file_count = pos 0;
  folder_count = pos 0;
  root_count = pos 0;
  total_bytes = pos 0;
  offset = pos 0;
}

-- A size that the code has found not to be negative is a natural number from there on.
pub record ManifestEntry : Type 0 where
  pub source_path : FilePath
  pub path : Bytes
  pub kind : EntryKind
  pub size : ℕ
  pub modified : ℤ
  pub read_only : Bool
  pub hidden : Bool
  pub digest : Bytes

pub record ManifestOmission : Type 0 where
  pub path : Bytes
  pub reason : Bytes

pub record OfferManifest : Type 0 where
  pub roots : List Bytes
  pub entries : List ManifestEntry
  pub omissions : List ManifestOmission
  pub file_count : ℕ
  pub folder_count : ℕ
  pub total_bytes : ℕ

-- A staged file: the bytes that reached it, whether it is open, and the first failed write of its
-- recoverableWriter. `digested` is what was written to the digest.
pub record ReceivingFile : Type 0 where
  pub entry : ManifestEntry
  pub staged : Option Bytes
  pub is_open : Bool
  pub digested : Bytes
  pub received : ℕ
  pub write_failed : Bool

-- `address` tells two offers apart as their pointers do. The channel of actions and the end of the
-- review are not part of the state: see Review.
pub record IncomingOffer : Type 0 where
  pub address : ℕ
  pub id : Bytes
  pub canceled : Bool
  pub manifest : OfferManifest
  pub destination : FilePath
  pub waiting : Bool
  pub accepted : Bool
  pub collecting : Bool
  pub receiving_files : Dict ReceivingFile
  pub final_paths : Dict FilePath
  pub created_directories : List FilePath
  pub stale_staging : Bool
  pub completed_file : ℕ
  pub failed_file : ℕ
  pub file_outcomes : List Bytes
  pub root_count : ℕ

pub record OutgoingOffer : Type 0 where
  pub address : ℕ
  pub id : Bytes
  pub canceled : Bool
  pub manifest : OfferManifest
  pub submitted : Bool

-- `queuedOffer` has one of its two pointers set.
pub data QueuedOffer : Type 0 where
  from_peer : IncomingOffer → QueuedOffer
  from_user : OutgoingOffer → QueuedOffer

pub data Role : Type 0 where
  inbound outbound : Role

-- What a handler starts or sends, in order: goroutines are named by the offer that they run.
pub data Effect : Type 0 where
  sends : Message → Effect
  reviews : ℕ → Effect
  runs : ℕ → Effect
  delivers_decision delivers_result : ℕ → Message → Effect
  delivers_queued : ℕ → Bool → Effect
  notes_activity closes : Effect

-- What stands at a path: a regular file with its bytes, or a folder.
abbrev pub Node : Type 0
Node = Option Bytes

abbrev pub Disk : Type 0
Disk = List (FilePath × Node)

-- The parts of `attempt` that a verified session works with. `wire_up` says whether `Send` succeeds:
-- no handler goes on sending after a failed send, so one answer is enough. `next_address` is the next
-- pointer to be handed out, and `disk` the part of the file system that the program has looked at.
pub record Attempt : Type 0 where
  pub role : Role
  pub incoming : Option IncomingOffer
  pub outgoing : Option OutgoingOffer
  pub outgoing_queue : List OutgoingOffer
  pub pending_incoming : Dict IncomingOffer
  pub coordinator_queue : List QueuedOffer
  pub coordinator_active : Bool
  pub transfer_active : Bool
  pub wire_up : Bool
  pub next_address : ℕ
  pub disk : Disk
  pub effects : List Effect
