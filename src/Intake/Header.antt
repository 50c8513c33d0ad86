-- ===== src/Intake/Header.antt =====
-- What an accepted offer header says, whatever the 64-bit sum of its counts does.
use transferly.Prelude.{
  ℕ, ◌+◌, ◌≤◌, ◌≡◌, refl, true, false, [], not, arith, length, is_some, some, none, lookup,
  lookup-insert, same_refl, ok, reject_if-ok,
}
use transferly.Text.FilePath.{FilePath}
use transferly.Prelude.Int.{ℤ, pos, pos_part, max_int64, add_int64}
use transferly.Protocol.{Message, IncomingOffer, Attempt}
use transferly.Safety.{max_manifest_entries}
use transferly.Intake.{valid_header, is_hex, new_incoming, handle_incoming_offer}

-- The counts and the total of an accepted header.
pub record IsHeader (m : Message) (files folders roots total : ℕ) : Type 0 where
  pub id : length m.offer_id ≡ 32
  pub file_count : m.file_count ≡ pos files
  pub folder_count : m.folder_count ≡ pos folders
  pub root_count : m.root_count ≡ pos roots
  pub total_bytes : m.total_bytes ≡ pos total
  pub some_entry : 1 ≤ files + folders
  pub entries : files + folders ≤ max_manifest_entries
  pub some_root : 1 ≤ roots
  pub root_bound : roots ≤ max_manifest_entries

IsHeader-ints :
    (m : Message) (f g r t : ℤ)
    → m.file_count ≡ f
    → m.folder_count ≡ g
    → m.root_count ≡ r
    → m.total_bytes ≡ t
    → pos_part f ≤ max_int64
    → pos_part g ≤ max_int64
    → valid_header m ≡ true
    → IsHeader m (pos_part f) (pos_part g) (pos_part r) (pos_part t)
unfolding valid_header add_int64
IsHeader-ints m f g r t ef eg er et bf bg h = record {
  id = ground arith;
  file_count = ground arith;
  folder_count = ground arith;
  root_count = ground arith;
  total_bytes = ground arith;
  some_entry = ground arith;
  entries = ground arith;
  some_root = ground arith;
  root_bound = ground arith;
}

-- An offer of which the manifest is still to come: undecided, with the counts of its header and nothing else.
pub record IsCollecting (m : Message) (destination : FilePath) (o : IncomingOffer) : Type 0 where
  pub id : o.id ≡ m.offer_id
  pub folder : o.destination ≡ destination
  pub collecting : o.collecting ≡ true
  pub waiting : o.waiting ≡ false
  pub accepted : o.accepted ≡ false
  pub canceled : o.canceled ≡ false
  pub roots : o.manifest.roots ≡ []
  pub entries : o.manifest.entries ≡ []
  pub omissions : o.manifest.omissions ≡ []
  pub file_count : o.manifest.file_count ≡ pos_part m.file_count
  pub folder_count : o.manifest.folder_count ≡ pos_part m.folder_count
  pub total_bytes : o.manifest.total_bytes ≡ pos_part m.total_bytes
  pub root_count : o.root_count ≡ pos_part m.root_count
  pub outcomes : o.file_outcomes ≡ []
  pub completed_file : o.completed_file ≡ 0
  pub failed_file : o.failed_file ≡ 0
  pub receiving_files : o.receiving_files ≡ []

-- A header that is taken names a 32-digit identifier that no offer being collected has, holds from 1
-- to 100000 entries in all and from 1 to 100000 roots, none of its counts is negative, and the offer
-- is then found under its identifier: being collected, undecided, with those counts and still empty. (The counts are int64
-- values: the sum of two of them may wrap around.)
pub handle_incoming_offer-IsHeader :
    (destination : FilePath) (m : Message) (a b : Attempt)
    → pos_part m.file_count ≤ max_int64
    → pos_part m.folder_count ≤ max_int64
    → handle_incoming_offer destination m a ≡ ok b
    → IsHeader m
        (pos_part m.file_count)
        (pos_part m.folder_count)
        (pos_part m.root_count)
        (pos_part m.total_bytes)
      × (is_hex m.offer_id ≡ true)
      × (lookup m.offer_id a.pending_incoming ≡ none)
      × (o : IncomingOffer) × (lookup m.offer_id b.pending_incoming ≡ some o)
      × IsCollecting m destination o
unfolding handle_incoming_offer new_incoming
handle_incoming_offer-IsHeader destination m a b f g h =
    let (valid, h₁) = reject_if-ok (not (valid_header m)) _ _ h in
    let (hexadecimal, h₂) = reject_if-ok (not (is_hex m.offer_id)) _ _ h₁ in
    let (new, h₃) = reject_if-ok (is_some (lookup m.offer_id a.pending_incoming)) _ _ h₂ in
    let incoming = new_incoming a.next_address destination m in
    (
      IsHeader-ints m m.file_count m.folder_count m.root_count m.total_bytes refl refl refl refl f g
          (ground arith),
      ground arith,
      ground arith,
      incoming,
      ground (
        arith,
        lookup-insert m.offer_id m.offer_id incoming a.pending_incoming,
        same_refl m.offer_id,
      ),
      record {
        id = refl;
        folder = refl;
        collecting = refl;
        waiting = refl;
        accepted = refl;
        canceled = refl;
        roots = refl;
        entries = refl;
        omissions = refl;
        file_count = refl;
        folder_count = refl;
        total_bytes = refl;
        root_count = refl;
        outcomes = refl;
        completed_file = refl;
        failed_file = refl;
        receiving_files = refl;
      },
    )
