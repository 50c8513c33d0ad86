-- ===== src/Transfer/Tests.antt =====
-- A file of three bytes, sent and received.
use transferly.Prelude.{◌≡◌, refl, true, false, some, codes, lookup, ok}
use transferly.Prelude.Int.{pos}
use transferly.Protocol.{Attempt}
use transferly.Protocol.Samples.{
  session, incoming, offer_id, one_digest, same_key, report, downloads,
}
use transferly.Text.FilePath.{rel, clean}
use transferly.Text.Split.{split, join}
use transferly.Text.Utf8.{utf16_length}
use transferly.Receive.{Answers, node_at}
use transferly.Receive.Files.{find_manifest_file, incoming_path}
use transferly.Receive.Handlers.{check_beneath}
use transferly.Safety.{ensure_path_beneath}
use transferly.Serve.{Environment, serve}
use transferly.Transfer.{Source, Weather, send_manifest_file, matches, same_time}
use transferly.Transfer.Chunks.{IsCalm}
use transferly.Transfer.Delivery.{IsWorking}
use transferly.Transfer.Roundtrip.{IsUnchanged, IsReady, Arrived, serve-send_manifest_file}

abbrev answers : Answers
answers = record {
  staging_opens = true;
  write_succeeds = true;
  sync_succeeds = true;
  close_succeeds = true;
  ancestors_safe = true;
  folder_made = true;
  makes = λ p. true;
  link_succeeds = true;
  metadata_succeeds = true;
  remove_succeeds = true;
}

abbrev env : Environment
env = record { answers = answers; destination = downloads; folders_settled = true }

answers-IsWorking : IsWorking env.answers
answers-IsWorking = record {
  staging_opens = refl;
  write_succeeds = refl;
  sync_succeeds = refl;
  close_succeeds = refl;
  ancestors_safe = refl;
  folder_made = refl;
  link_succeeds = refl;
  metadata_succeeds = refl;
}

abbrev calm : Weather
calm = record { canceled = λ round. false; canceled_late = λ round. false; sends = λ round. true }

calm-IsCalm : IsCalm calm
calm-IsCalm = record { kept = λ round. refl; kept_late = λ round. refl; sends = λ round. refl }

abbrev source : Source
source = record {
  opens = true;
  before = some (record { size = 3; modified = pos 0 });
  bytes = codes "abc";
  after = some (record { size = 3; modified = pos 0 });
}

source-IsUnchanged : IsUnchanged one_digest report source
unfolding matches same_time
source-IsUnchanged = record {
  opens = refl;
  before = refl;
  after = refl;
  sized = refl;
  digest = refl;
}

abbrev waiting : Attempt
waiting = record session { incoming = some (incoming 1) }

waiting-IsReady : IsReady one_digest same_key (incoming 1) report waiting
unfolding find_manifest_file incoming_path check_beneath ensure_path_beneath node_at lookup rel
    clean split utf16_length join
waiting-IsReady = record {
  known = refl;
  accepted = refl;
  listed = refl;
  missing = refl;
  unsettled = refl;
  beneath = refl;
  up = refl;
  free = refl;
}

serve-send_manifest_file_example :
    ((send_manifest_file one_digest calm offer_id report source).outcome ≡ ok tt)
    × (b : Attempt) × (serve one_digest same_key env
          (send_manifest_file one_digest calm offer_id report source).frames
          waiting
        ≡ (ok tt, b))
    × Arrived one_digest same_key (incoming 1) report (codes "abc") waiting b
serve-send_manifest_file_example =
    serve-send_manifest_file one_digest same_key env answers-IsWorking calm (incoming 1) report
      source waiting calm-IsCalm source-IsUnchanged refl waiting-IsReady
