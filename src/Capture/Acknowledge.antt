-- ===== src/Capture/Acknowledge.antt =====
-- `artifact` and `acknowledge` of security_capture.py: a capture is checked, acknowledged, and removed.
pub mod Evidence
pub mod Laws
use homecluster_infra.Base.{
  ◌<>◌, ℕ, zero, suc, ◌+◌, ◌-◌, ◌*◌, ◌^◌, String, Bool, true, false, ◌&&◌, ◌||◌, not, Option, none,
  some, List, [], ◌∷◌, ◌==◌, nat_eq, string_eq, leb, ltb, length, find, put, if◌then◌else◌, Result,
  ok, err, ◌>>=◌, ◌>>◌, require,
}
use homecluster_infra.Capture.Pcap.{Summary, pcap}
use homecluster_infra.Capture.Station.{
  Manifest, Folder, Receipt, Station, is_capture_id, is_digest, is_some,
}
use homecluster_infra.Capture.Serve.{or_missing}

abbrev pub same_summary : Summary → Summary → Bool
same_summary a b =
    a.size_bytes == b.size_bytes
    && a.packet_count == b.packet_count
    && a.truncated_packet_count == b.truncated_packet_count
    && a.snaplen == b.snaplen
    && a.linktype == b.linktype
    && a.pcap_sha256 == b.pcap_sha256

-- `path.unlink()` of each file, and `run.rmdir()`: all of it, or up to an interruption that leaves the
-- directory with some of the files.
pub data Removing : Type 0 where
  removed : Removing
  interrupted : (started filter packets manifest : Bool) → Removing

-- What becomes of the receipt's `publish`: the file is there; it raises or the process dies before
-- the file has its name, with or without a temporary file of this name among the acknowledgements.
pub data Publishing : Type 0 where
  published : Publishing
  unpublished : Publishing
  stray : String → Publishing

pub record Acking : Type 0 where
  pub locked : Bool
  pub mounted : Bool
  pub now_ns : ℕ
  pub publishing : Publishing
  pub removing : Removing

abbrev if_kept {ℓ} : {A : Type ℓ} → Bool → Option A → Option A
if_kept keeps o = if keeps then o else none

unfoldable pub without {ℓ} : {A : Type ℓ} → String → List (String × A) → List (String × A)
without k [] = []
without k ((j, v) ∷ rest) = let more = without k rest in if j == k then more else (j, v) ∷ more

-- `acknowledged_receipts`: the receipts that stay, and whether it raises.
unfoldable pub acknowledged_receipts :
    ℕ → List (String × Receipt) → List (String × Receipt) × Result (Unit {0})
unfolding is_capture_id
acknowledged_receipts now_ns [] = ([], ok tt)
acknowledged_receipts now_ns ((id, r) ∷ rest) =
    let (kept, result) = acknowledged_receipts now_ns rest in
    if not (is_capture_id id)
    then ((id, r) ∷ rest, err "unexpected_acknowledgement_entry")
    else if ltb (now_ns + 300 * 10 ^ 9) r.epoch
    then ((id, r) ∷ rest, err "acknowledgement_schema")
    else if ltb (72 * 3600 * 10 ^ 9) (now_ns - r.epoch)
    then (kept, result)
    else ((id, r) ∷ kept, result)

-- A run's directory after the removal, `none` where it is gone.
abbrev pub left_over : Removing → Folder → Option Folder
left_over Removing.removed f = none
left_over (Removing.interrupted started filter packets manifest) f = some (record {
  started = f.started && started;
  filter = f.filter && filter;
  part = f.part;
  packets = if_kept packets f.packets;
  manifest = if_kept manifest f.manifest;
  failure = f.failure;
  temporary = f.temporary;
})

-- The receipt, and whether the run had been removed already.
abbrev pub Acknowledged : Type 0
Acknowledged = Receipt × Bool

-- The removal, the receipt being published first; the directory is gone or has files left.
unfoldable pub after_removal :
    String → Receipt → Option Folder → Station → Station × Result Acknowledged
unfolding put without
after_removal id receipt none s = (
  record s { receipts = put id receipt s.receipts; spool = without id s.spool },
  ok (receipt, false),
)
after_removal id receipt (some rest) s =
    (record s { receipts = put id receipt s.receipts; spool = put id rest s.spool }, err "OSError")

-- The name of a temporary file, which is no capture's.
abbrev pub stray_name : String → String → String
stray_name id suffix = "." <> id <> ".json-" <> suffix

-- From the receipt's `publish` on.
unfoldable pub after_publish :
    Publishing → Acking → String → Receipt → Folder → Station → Station × Result Acknowledged
unfolding after_removal put
after_publish Publishing.published a id receipt folder s =
    after_removal id receipt (left_over a.removing folder) s
after_publish Publishing.unpublished a id receipt folder s = (s, err "OSError")
after_publish (Publishing.stray suffix) a id receipt folder s =
    (record s { receipts = put (stray_name id suffix) receipt s.receipts }, err "OSError")

-- From the directory of the run on, the receipt being the one that is there or the new one.
unfoldable pub remove_run :
    Publishing → Acking → String → Receipt → Folder → Station → Station × Result Acknowledged
unfolding after_publish
remove_run publishing a id receipt folder s =
    if is_some folder.part || is_some folder.failure || folder.temporary
    then (s, err "unexpected_capture_entry")
    else after_publish publishing a id receipt folder s

module _ (digest : List ℕ → String) where
  unfoldable pub artifact : Bool → String → Station → Result (Folder × Manifest)
  unfolding is_capture_id find pcap ◌>>=◌
  artifact mounted id s =
      require mounted "srv_not_mounted"
      >> (require (is_capture_id id) "capture_id"
          >> (or_missing "FileNotFoundError" (find id s.spool) >>= λ folder.
              or_missing "FileNotFoundError" folder.manifest >>= λ manifest.
              or_missing "FileNotFoundError" folder.packets >>= λ bytes.
              require (manifest.capture_id == id && not (is_some folder.part)) "artifact_incomplete"
              >> (pcap digest bytes >>= λ summary.
                  require (same_summary manifest.summary summary)
                    "artifact_hash_or_summary_mismatch"
                  >> ok (folder, manifest))))

  -- The new receipt, for a run that has none.
  unfoldable pub new_receipt : Acking → String → String → Station → Result (Folder × Receipt)
  unfolding artifact ◌>>=◌
  new_receipt a id expected s =
      require (ltb (length s.receipts) 64) "acknowledgement_count_limit"
      >> (artifact a.mounted id s >>= λ (found : Folder × Manifest).
          require (found.1.summary.pcap_sha256 == expected) "acknowledgement_hash_mismatch"
          >> ok (found.0, record { pcap_sha256 = expected; epoch = a.now_ns }))

  unfoldable pub with_new_receipt :
      Acking → String → Result (Folder × Receipt) → Station → Station × Result Acknowledged
  unfolding remove_run
  with_new_receipt a id (err e) s = (s, err e)
  with_new_receipt a id (ok (folder, receipt)) s = remove_run a.publishing a id receipt folder s

  -- From `receipt_path.exists()` on.
  unfoldable pub acknowledge_known :
      Acking → String → String → Option Receipt → Station → Station × Result Acknowledged
  unfolding new_receipt with_new_receipt remove_run find
  acknowledge_known a id expected (some receipt) s =
      if not (receipt.pcap_sha256 == expected)
      then (s, err "acknowledgement_hash_mismatch")
      else elim (find id s.spool) [
        | none ↦ (s, ok (receipt, true))
        | some folder ↦ remove_run Publishing.published a id receipt folder s
      ]
  acknowledge_known a id expected none s = with_new_receipt a id (new_receipt a id expected s) s

  -- After the checks of the receipts.
  unfoldable pub acknowledge_checked :
      Acking
      → String
      → String
      → List (String × Receipt) × Result (Unit {0})
      → Station
      → Station × Result Acknowledged
  unfolding acknowledge_known find
  acknowledge_checked a id expected (kept, err e) s = (record s { receipts = kept }, err e)
  acknowledge_checked a id expected (kept, ok done) s =
      acknowledge_known a id expected (find id kept) (record s { receipts = kept })

  unfoldable pub acknowledge : Acking → String → String → Station → Station × Result Acknowledged
  unfolding acknowledge_checked acknowledged_receipts is_digest is_capture_id
  acknowledge a id expected s =
      if not (is_capture_id id && is_digest expected)
      then (s, err "acknowledgement_input")
      else if a.locked
      then (s, err "BlockingIOError")
      else if not a.mounted
      then (s, err "srv_not_mounted")
      else acknowledge_checked a id expected (acknowledged_receipts a.now_ns s.receipts) s
