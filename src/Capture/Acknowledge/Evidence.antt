-- ===== src/Capture/Acknowledge/Evidence.antt =====
-- What a new acknowledgement rests on: the packet file in the spool.
use homecluster_infra.Base.{
  ℕ, ◌≡◌, inl, inr, refl, sym, ap, ◌∙◌, subst, String, Bool, true, ◌&&◌, not, none, some, List,
  ◌==◌, nat_eq, string_eq, ltb, length, find, Result, ok, err, arith, eq_iff, Bool-cases, >>=-eq-ok,
  require-eq-ok, ok-injective, err-ok,
}
use homecluster_infra.Capture.Pcap.{Summary, pcap}
use homecluster_infra.Capture.Pcap.Laws.{pcap-AreRecords}
use homecluster_infra.Capture.Station.{
  Manifest, Folder, Receipt, Station, is_capture_id, is_digest, is_some,
}
use homecluster_infra.Capture.Serve.{or_missing}
use homecluster_infra.Capture.Serve.Laws.{or_missing-eq-ok}
use homecluster_infra.Capture.Acknowledge.{
  same_summary, Acking, acknowledged_receipts, Acknowledged, artifact, new_receipt,
  with_new_receipt, acknowledge_known, acknowledge_checked, acknowledge,
}

same_summary-sha256 : (a b : Summary) → same_summary a b ≡ true → a.pcap_sha256 ≡ b.pcap_sha256
same_summary-sha256 a b h = ground (arith, eq_iff a.pcap_sha256 b.pcap_sha256)

-- The whole file of a run, with this SHA-256.
abbrev pub HasPackets : (List ℕ → String) → String → Station → String → Type 0
HasPackets digest id s expected =
    (folder : Folder) × (bytes : List ℕ) × (summary : Summary) × (find id s.spool ≡ some folder)
    × (folder.packets ≡ some bytes)
    × (pcap digest bytes ≡ ok summary)
    × (digest bytes ≡ expected)

module _ (digest : List ℕ → String) where
  artifact-ok :
      (mounted : Bool) (id : String) (s : Station) {folder : Folder} {manifest : Manifest}
      → artifact digest mounted id s ≡ ok (folder, manifest)
      → HasPackets digest id s manifest.summary.pcap_sha256
  unfolding artifact
  artifact-ok mounted id s {folder} {manifest} h =
      let (_, h1) = require-eq-ok mounted "srv_not_mounted" _ h in
      let (_, h2) = require-eq-ok (is_capture_id id) "capture_id" _ h1 in
      let (held, in_spool, h3) =
        >>=-eq-ok (or_missing "FileNotFoundError" (find id s.spool)) _ h2 in
      let (listed, _, h4) = >>=-eq-ok (or_missing "FileNotFoundError" held.manifest) _ h3 in
      let (bytes, packets, h5) = >>=-eq-ok (or_missing "FileNotFoundError" held.packets) _ h4 in
      let (_, h6) =
        require-eq-ok (listed.capture_id == id && not (is_some held.part)) "artifact_incomplete" _
          h5 in
      let (summary, valid, h7) = >>=-eq-ok (pcap digest bytes) _ h6 in
      let (same, h8) =
        require-eq-ok (same_summary listed.summary summary) "artifact_hash_or_summary_mismatch" _
          h7 in
      let (_, _, _, _, _, _, _, hash) = pcap-AreRecords digest bytes valid in
      let this : (held, listed) ≡ (folder, manifest) = ok-injective h8 in
      (
        held,
        bytes,
        summary,
        or_missing-eq-ok _ (find id s.spool) in_spool,
        or_missing-eq-ok _ held.packets packets,
        valid,
        sym hash
            ∙ sym (same_summary-sha256 listed.summary summary same)
            ∙ ap (λ (f : Folder × Manifest). f.1.summary.pcap_sha256) this,
      )

  pub new_receipt-ok :
      (a : Acking) (id expected : String) (s : Station) {made : Folder × Receipt}
      → new_receipt digest a id expected s ≡ ok made
      → (made.1.pcap_sha256 ≡ expected) × HasPackets digest id s expected
  unfolding new_receipt
  new_receipt-ok a id expected s h =
      let (_, h1) = require-eq-ok (ltb (length s.receipts) 64) "acknowledgement_count_limit" _ h in
      let (found, whole, h2) = >>=-eq-ok (artifact digest a.mounted id s) _ h1 in
      let (hash, h3) =
        require-eq-ok (found.1.summary.pcap_sha256 == expected) "acknowledgement_hash_mismatch" _
          h2 in
      let same : found.1.summary.pcap_sha256 ≡ expected =
        (eq_iff found.1.summary.pcap_sha256 expected).0 hash in
      (
        ap (λ (m : Folder × Receipt). m.1.pcap_sha256) (sym (ok-injective h3)),
        subst (HasPackets digest id s) same (artifact-ok a.mounted id s whole),
      )

  with_new_receipt-made :
      (a : Acking) (id : String) (made : Result (Folder × Receipt)) (s : Station)
      {got : Acknowledged}
      → (with_new_receipt digest a id made s).1 ≡ ok got
      → (m : Folder × Receipt) × (made ≡ ok m)
  unfolding with_new_receipt
  with_new_receipt-made a id (err e) s h = absurd (err-ok h)
  with_new_receipt-made a id (ok m) s h = (m, refl)

  acknowledge_checked-HasPackets :
      (a : Acking) (id expected : String) (checked : List (String × Receipt) × Result (Unit {0}))
      (s : Station) {got : Acknowledged}
      → find id checked.0 ≡ none
      → (acknowledge_checked digest a id expected checked s).1 ≡ ok got
      → HasPackets digest id s expected
  unfolding acknowledge_checked acknowledge_known
  acknowledge_checked-HasPackets a id expected (kept, err e) s new h = absurd (err-ok h)
  acknowledge_checked-HasPackets a id expected (kept, ok done) s new h =
      let t = record s { receipts = kept } in
      let (m, made) =
        with_new_receipt-made a id (new_receipt digest a id expected t) t (rw new at h) in
      (new_receipt-ok a id expected t made).1

  -- An acknowledgement that succeeds for a run that had no valid receipt was given a run whose
  -- whole packet file is in the spool, passes the check of packet files, and has the SHA-256 that
  -- the acknowledgement names.
  pub acknowledge-HasPackets :
      (a : Acking) (id expected : String) (s : Station) {got : Acknowledged}
      → find id (acknowledged_receipts a.now_ns s.receipts).0 ≡ none
      → (acknowledge digest a id expected s).1 ≡ ok got
      → HasPackets digest id s expected
  unfolding acknowledge
  acknowledge-HasPackets a id expected s new h =
      elim (Bool-cases (not (is_capture_id id && is_digest expected))) [
        | inl e ↦ absurd (err-ok (rw e at h))
        | inr e ↦ elim (Bool-cases a.locked) [
          | inl f ↦ absurd (err-ok (rw (e, f) at h))
          | inr f ↦ elim (Bool-cases (not a.mounted)) [
            | inl g ↦ absurd (err-ok (rw (e, f, g) at h))
            | inr g ↦
                acknowledge_checked-HasPackets a id expected
                  (acknowledged_receipts a.now_ns s.receipts) s new (simp (e, f, g) at h)
          ]
        ]
      ]
