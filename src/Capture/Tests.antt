-- ===== src/Capture/Tests.antt =====
-- A file of one packet, a station that captures it, and the theorems at them.
use homecluster_infra.Base.{
  ℕ, ◌^◌, ◌≤◌, ◌≡◌, ◌↔◌, refl, if◌then◌else◌, String, Bool, true, false, none, some, List, [], ◌∷◌,
  ◌++◌, ◌==◌, string_eq, nat_eq, bytes_eq, encode, length, ok, err, ◌>>=◌, find, put, take, drop,
  is_digit, is_ok,
}
use homecluster_infra.Value.{Fields, field, end, int, pos, str, dict, has, get, lookup, keys}
use homecluster_infra.Capture.Config.{config, read_profiles, is_profile_name}
use homecluster_infra.Capture.Pcap.{
  limit, Summary, word, endian, read_record, read_records, read_body, pcap,
}
use homecluster_infra.Capture.Pcap.Laws.{AreRecords, read_records_iff, pcap-AreRecords}
use homecluster_infra.Capture.Steps.{Effect, Fate, run_steps}
use homecluster_infra.Capture.Station.{
  Config, Request, Receipt, Station, empty_station, Storage, guards, Asking, may_request, request,
  is_capture_id, is_digest, whole_match,
}
use homecluster_infra.Capture.Serve.{
  Serving, may_serve, update, accept, after_accept, after_tcpdump, after_capture, capture,
  after_start, after_checks, serve,
}
use homecluster_infra.Capture.Complete.{Completes, serve-artifact}
use homecluster_infra.Capture.Acknowledge.{
  removed, Publishing, Acking, after_publish, without, acknowledged_receipts, after_removal,
  remove_run, artifact, new_receipt, with_new_receipt, acknowledge_known, acknowledge_checked,
  acknowledge,
}
use homecluster_infra.Capture.Acknowledge.Laws.{acknowledge-ok}
use homecluster_infra.Capture.Acknowledge.Evidence.{HasPackets, acknowledge-HasPackets}
use homecluster_infra.Capture.Bounds.{IsBounded}
use homecluster_infra.Capture.Runs.{begins, requests, serves, Run-IsBounded}

abbrev some_sha : String
some_sha = "0123456789abcdef0123456789abcdef0123456789abcdef0123456789abcdef"

abbrev digest : List ℕ → String
digest bytes = some_sha

-- A packet of 60 bytes, of which the file has three.
abbrev packet : List ℕ
packet = 1 ∷ 2 ∷ 3 ∷ 4 ∷ 5 ∷ 6 ∷ 7 ∷ 8 ∷ 3 ∷ 0 ∷ 0 ∷ 0 ∷ 60 ∷ 0 ∷ 0 ∷ 0 ∷ 170 ∷ 187 ∷ 204 ∷ []

abbrev file_bytes : List ℕ
file_bytes =
    212 ∷ 195 ∷ 178 ∷ 161 ∷ 2 ∷ 0 ∷ 4 ∷ 0 ∷ 0 ∷ 0 ∷ 0 ∷ 0 ∷ 0 ∷ 0 ∷ 0 ∷ 0 ∷ 255 ∷ 255 ∷ 0 ∷ 0 ∷ 1
    ∷ 0 ∷ 0 ∷ 0 ∷ packet

abbrev file_summary : Summary
file_summary = record {
  size_bytes = 43;
  packet_count = 1;
  truncated_packet_count = 1;
  snaplen = 65535;
  linktype = 1;
  pcap_sha256 = some_sha;
}

file_accepted : pcap digest file_bytes ≡ ok file_summary
unfolding pcap endian read_body read_records read_record word take drop ◌>>=◌
file_accepted = refl

-- The second packet is cut off.
file_refused : is_ok (pcap digest (file_bytes ++ (1 ∷ []))) ≡ false
unfolding pcap endian read_body read_records read_record word take drop ◌>>=◌
file_refused = refl

read_records_iff_example :
    (read_records true 1000 packet ≡ ok (1, 1)) ↔ (AreRecords true packet 1 1 × (1 ≤ 1000))
read_records_iff_example = read_records_iff true packet 1 1

pcap-AreRecords_example :
    (little : Bool) × (endian (take 4 file_bytes) ≡ some little)
    × (24 ≤ length file_bytes)
    × (length file_bytes ≤ limit)
    × AreRecords little (drop 24 file_bytes) 1 1
    × (1 ≤ 1000)
    × (43 ≡ length file_bytes)
    × (some_sha ≡ digest file_bytes)
pcap-AreRecords_example = pcap-AreRecords digest file_bytes file_accepted

abbrev some_config : Config
some_config = record {
  profiles = ("lan", record { interface = "br-lan"; bpf = "port 53"; duration_seconds = 30 }) ∷ [];
  sha256 = "c";
}

-- The configuration's file, with a duration in seconds.
abbrev config_file : ℕ → Fields
config_file seconds = field "schema" (int (pos 1)) (
    field "profiles"
      (dict (
        field "lan"
          (dict (
            field "interface" (str "br-lan")
              (field "filter" (str "port 53") (field "duration_seconds" (int (pos seconds)) end))))
          end))
      end)

config_accepted : config (config_file 30) ≡ ok some_config.profiles
unfolding config read_profiles is_profile_name encode is_digit has get lookup keys ◌>>=◌
config_accepted = refl

config_refused : config (config_file 181) ≡ err "duration"
unfolding config read_profiles is_profile_name encode is_digit has get lookup keys ◌>>=◌
config_refused = refl

abbrev some_storage : Storage
some_storage = record {
  mounted = true;
  old = λ id. false;
  free_bytes = 10 ^ 11;
  memory_bytes = 10 ^ 9;
  load = 50;
}

abbrev some_id : String
some_id = "20260101T000000Z-0123456789abcdef"

abbrev asking : Asking
asking = record {
  config = ok some_config;
  locked = false;
  storage = some_storage;
  capture_id = some_id;
  now_ns = 1000;
  publishing = λ k. Fate.succeeds;
  starts = true;
}

abbrev serving : Serving
serving = record {
  config = ok some_config;
  locked = false;
  storage = some_storage;
  now_ns = 2000;
  starting = λ k. Fate.succeeds;
  working = λ k. Fate.succeeds;
  handling = λ k. Fate.succeeds;
  cut = none;
  bytes = file_bytes;
  stop_reason = "duration_limit";
  drops = some 0;
}

abbrev acking : Acking
acking = record {
  locked = false;
  mounted = true;
  now_ns = 3000;
  publishing = Publishing.published;
  removing = removed;
}

abbrev asked_station : Station
asked_station = (request asking "lan" empty_station).0

abbrev served_station : Station
served_station = (serve digest serving asked_station).0

capture_ends : (serve digest serving asked_station).1 ≡ ok tt
unfolding request may_request guards serve may_serve after_checks run_steps update after_start
    capture after_tcpdump after_accept accept after_capture pcap endian read_body read_records
    read_record word take drop find put is_capture_id whole_match is_digit encode ◌>>=◌
capture_ends = refl

-- The process dies in the `publish` of the manifest.
abbrev cut_serving : Serving
cut_serving = record serving {
  working = λ k. if k == 6 then Fate.dies Effect.begun else Fate.succeeds;
}

abbrev cut_station : Station
cut_station = (serve digest cut_serving asked_station).0

cut_without_manifest :
    (cut_station.request ≡ none)
    × (find some_id cut_station.spool
        ≡ some (record {
          started = true;
          filter = true;
          part = none;
          packets = some file_bytes;
          manifest = none;
          failure = none;
          temporary = true;
        }))
unfolding request may_request guards serve may_serve after_checks run_steps update after_start
    capture after_tcpdump after_accept accept after_capture pcap endian read_body read_records
    read_record word take drop find put is_capture_id whole_match is_digit encode ◌>>=◌
cut_without_manifest = (refl, refl)

serve-artifact_example :
    (item : Request) × (asked_station.request ≡ some item) × Completes digest served_station item
serve-artifact_example = serve-artifact digest serving asked_station capture_ends

abbrev some_receipt : Receipt
some_receipt = record { pcap_sha256 = some_sha; epoch = 3000 }

acknowledged :
    (acknowledge digest acking some_id some_sha served_station).1 ≡ ok (some_receipt, false)
unfolding request may_request guards serve may_serve after_checks run_steps update after_start
    capture after_tcpdump after_accept accept after_capture pcap endian read_body read_records
    read_record word take drop find put is_capture_id whole_match is_digit encode ◌>>=◌ acknowledge
    acknowledged_receipts acknowledge_checked acknowledge_known with_new_receipt new_receipt
    artifact remove_run after_publish after_removal without is_digest
acknowledged = refl

acknowledge-ok_example :
    (some_sha ≡ some_sha)
    × (find some_id (acknowledge digest acking some_id some_sha served_station).0.receipts
        ≡ some some_receipt)
    × (find some_id (acknowledge digest acking some_id some_sha served_station).0.spool ≡ none)
    × ((j : String)
        → (some_id == j) ≡ false
        → find j (acknowledge digest acking some_id some_sha served_station).0.spool
          ≡ find j served_station.spool)
acknowledge-ok_example = acknowledge-ok digest acking some_id some_sha served_station acknowledged

no_receipt : find some_id (acknowledged_receipts 3000 served_station.receipts).0 ≡ none
unfolding request may_request guards serve may_serve after_checks run_steps update after_start
    capture after_tcpdump after_accept after_capture find put acknowledged_receipts is_capture_id
    whole_match is_digit encode ◌>>=◌
no_receipt = refl

acknowledge-HasPackets_example : HasPackets digest some_id served_station some_sha
acknowledge-HasPackets_example =
    acknowledge-HasPackets digest acking some_id some_sha served_station no_receipt acknowledged

-- The last capture is cut off after its file has its name.
Run-IsBounded_example : IsBounded cut_station
Run-IsBounded_example = Run-IsBounded digest (serves cut_serving (requests asking "lan" begins))
