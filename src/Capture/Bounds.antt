-- ===== src/Capture/Bounds.antt =====
-- How far `request` and `acknowledge` let the spool and the acknowledgements grow.
pub mod Serve
use homecluster_infra.Base.{
  ℕ, suc, ◌+◌, ◌≤◌, ◌<◌, ◌≡◌, inl, inr, refl, ap, subst, String, ◌&&◌, ◌||◌, not, Option, none,
  some, List, [], ◌∷◌, ◌==◌, nat_eq, string_eq, ltb, length, find, put, Result, ok, err, arith,
  Bool-cases, Option-cases, Result-cases, require-eq-ok, none-some, lt_of_ltb,
}
use homecluster_infra.Capture.Pcap.{Summary}
use homecluster_infra.Capture.Steps.{Fate, Ending, at_once, unchanged, run_steps}
use homecluster_infra.Capture.Steps.Laws.{Keeps, AllKeep, run_steps-keeps, run_steps-keeps_first}
use homecluster_infra.Capture.Station.{
  Profile, Request, Manifest, Folder, Receipt, Station, Storage, guards, Asking, may_request,
  asking_steps, after_publishing, request, is_capture_id, is_digest, is_some,
}
use homecluster_infra.Capture.Serve.{
  Serving, may_serve, new_folder, update, change, make_run, starting_steps, capturing_steps,
  completing_steps, failing_steps, manifest_of, accept, after_accept, after_tcpdump, capture,
  after_handler, after_capture, after_start, after_checks, serve,
}
use homecluster_infra.Capture.Acknowledge.{
  Publishing, stray_name, Acking, without, acknowledged_receipts, left_over, after_removal,
  after_publish, remove_run, new_receipt, with_new_receipt, acknowledge_known, acknowledge_checked,
  acknowledge,
}
use homecluster_infra.Capture.Serve.Laws.{may_serve-ok}
use homecluster_infra.Capture.Acknowledge.Evidence.{new_receipt-ok}

module _ {ℓ} {A : Type ℓ} where
  pub length-put : (k : String) (v : A) (d : List (String × A)) → length (put k v d) ≤ length d + 1
  unfolding put
  length-put k v [] = omega arith
  length-put k v ((j, w) ∷ d) = ground (arith, length-put k v d)

  length-put_found :
      (k : String) (v : A) (d : List (String × A)) {w : A}
      → find k d ≡ some w
      → length (put k v d) ≡ length d
  unfolding put find
  length-put_found k v [] h = absurd (none-some h)
  length-put_found k v ((j, u) ∷ d) h = elim (Bool-cases (j == k)) [
    | inl e ↦ rw e refl
    | inr e ↦ rw e (ap suc (length-put_found k v d (rw e at h)))
  ]

  length-without : (k : String) (d : List (String × A)) → length (without k d) ≤ length d
  unfolding without
  length-without k [] = omega arith
  length-without k ((j, v) ∷ d) = ground (arith, length-without k d)

length-acknowledged_receipts :
    (now_ns : ℕ) (receipts : List (String × Receipt))
    → length (acknowledged_receipts now_ns receipts).0 ≤ length receipts
unfolding acknowledged_receipts
length-acknowledged_receipts now_ns [] = omega arith
length-acknowledged_receipts now_ns ((id, r) ∷ rest) =
    ground (arith, length-acknowledged_receipts now_ns rest)

-- At most two runs in the spool, and at most 64 acknowledgements.
abbrev pub IsBounded : Station → Type 0
IsBounded s = (length s.spool ≤ 2) × (length s.receipts ≤ 64)

after_publishing-IsBounded :
    (a : Asking) (r : Station × Ending) → IsBounded r.0 → IsBounded (after_publishing a r).0
after_publishing-IsBounded a (s, Ending.finished) bounded = bounded
after_publishing-IsBounded a (s, Ending.raised reason) bounded = bounded
after_publishing-IsBounded a (s, Ending.killed) bounded = bounded

pub request-IsBounded :
    (a : Asking) (profile : String) (s : Station) → IsBounded s → IsBounded (request a profile s).0
unfolding request
request-IsBounded a profile s bounded = elim (Result-cases (may_request a profile s)) [
  | inl (config, h) ↦
      rw (request, h)
        (after_publishing-IsBounded a (run_steps a.publishing 0 (asking_steps a profile config) s) (
          run_steps-keeps IsBounded a.publishing 0 (asking_steps a profile config) s
            ((λ s b. (b, b)), ((λ s b. (b, b)), tt)) bounded))
  | inr (e, h) ↦ rw (request, h) bounded
]

after_removal-IsBounded :
    (id : String) (receipt : Receipt) (rest : Option Folder) (s : Station) {folder : Folder}
    → find id s.spool ≡ some folder
    → length (put id receipt s.receipts) ≤ 64
    → IsBounded s
    → IsBounded (after_removal id receipt rest s).0
unfolding after_removal
after_removal-IsBounded id receipt none s held small (spool, _) =
    (omega (arith, length-without id s.spool), small)
after_removal-IsBounded id receipt (some rest) s held small (spool, _) =
    (omega (arith, length-put_found id rest s.spool held), small)

abbrev IsWritten : Publishing → Type 0
IsWritten Publishing.published = Unit
IsWritten Publishing.unpublished = ⊥
IsWritten (Publishing.stray suffix) = ⊥

published-stray : {suffix : String} → ¬ (Publishing.published ≡ Publishing.stray suffix)
published-stray h = subst IsWritten h tt

after_publish-IsBounded :
    (publishing : Publishing) (a : Acking) (id : String) (receipt : Receipt) (folder : Folder)
    (s : Station) {held : Folder}
    → find id s.spool ≡ some held
    → length (put id receipt s.receipts) ≤ 64
    → ((suffix : String)
        → publishing ≡ Publishing.stray suffix
        → length (put (stray_name id suffix) receipt s.receipts) ≤ 64)
    → IsBounded s
    → IsBounded (after_publish publishing a id receipt folder s).0
unfolding after_publish
after_publish-IsBounded Publishing.published a id receipt folder s held small room bounded =
    after_removal-IsBounded id receipt (left_over a.removing folder) s held small bounded
after_publish-IsBounded Publishing.unpublished a id receipt folder s held small room bounded =
    bounded
after_publish-IsBounded (Publishing.stray suffix) a id receipt folder s held small room bounded =
    (bounded.0, room suffix refl)

remove_run-IsBounded :
    (publishing : Publishing) (a : Acking) (id : String) (receipt : Receipt) (folder : Folder)
    (s : Station) {held : Folder}
    → find id s.spool ≡ some held
    → length (put id receipt s.receipts) ≤ 64
    → ((suffix : String)
        → publishing ≡ Publishing.stray suffix
        → length (put (stray_name id suffix) receipt s.receipts) ≤ 64)
    → IsBounded s
    → IsBounded (remove_run publishing a id receipt folder s).0
unfolding remove_run
remove_run-IsBounded publishing a id receipt folder s held small room bounded =
    elim (Bool-cases (is_some folder.part || is_some folder.failure || folder.temporary)) [
      | inl e ↦ rw e bounded
      | inr e ↦
          rw e (after_publish-IsBounded publishing a id receipt folder s held small room bounded)
    ]

module _ (digest : List ℕ → String) where
  new_receipt-room :
      (a : Acking) (id expected : String) (s : Station) {made : Folder × Receipt}
      → new_receipt digest a id expected s ≡ ok made
      → length s.receipts < 64
  unfolding new_receipt
  new_receipt-room a id expected s h =
      let (few, _) = require-eq-ok (ltb (length s.receipts) 64) "acknowledgement_count_limit" _ h in
      lt_of_ltb (length s.receipts) 64 few

  with_new_receipt-IsBounded :
      (a : Acking) (id expected : String) (made : Result (Folder × Receipt)) (s : Station)
      → new_receipt digest a id expected s ≡ made
      → IsBounded s
      → IsBounded (with_new_receipt digest a id made s).0
  unfolding with_new_receipt
  with_new_receipt-IsBounded a id expected (err e) s h bounded = bounded
  with_new_receipt-IsBounded a id expected (ok (folder, receipt)) s h bounded =
      let (_, (held, _, _, in_spool, _, _, _)) = new_receipt-ok digest a id expected s h in
      remove_run-IsBounded a.publishing a id receipt folder s in_spool
        (omega (arith, new_receipt-room a id expected s h, length-put id receipt s.receipts))
        (λ suffix same. omega (
          arith,
          new_receipt-room a id expected s h,
          length-put (stray_name id suffix) receipt s.receipts,
        ))
        bounded

  acknowledge_known-IsBounded :
      (a : Acking) (id expected : String) (known : Option Receipt) (s : Station)
      → find id s.receipts ≡ known
      → IsBounded s
      → IsBounded (acknowledge_known digest a id expected known s).0
  unfolding acknowledge_known
  acknowledge_known-IsBounded a id expected (some receipt) s stored bounded =
      elim (Bool-cases (receipt.pcap_sha256 == expected)) [
        | inr e ↦ rw e bounded
        | inl e ↦ elim (Option-cases (find id s.spool)) [
          | inl f ↦ rw (e, f) bounded
          | inr (folder, f) ↦
              rw (e, f)
                (remove_run-IsBounded Publishing.published a id receipt folder s f
                  (omega (arith, bounded.1, length-put_found id receipt s.receipts stored))
                  (λ suffix same. absurd (published-stray same)) bounded)
        ]
      ]
  acknowledge_known-IsBounded a id expected none s stored bounded =
      with_new_receipt-IsBounded a id expected _ s refl bounded

  acknowledge_checked-IsBounded :
      (a : Acking) (id expected : String) (checked : List (String × Receipt) × Result (Unit {0}))
      (s : Station)
      → length checked.0 ≤ length s.receipts
      → IsBounded s
      → IsBounded (acknowledge_checked digest a id expected checked s).0
  unfolding acknowledge_checked
  acknowledge_checked-IsBounded a id expected (kept, err e) s fewer bounded =
      (bounded.0, omega (arith, fewer, bounded.1))
  acknowledge_checked-IsBounded a id expected (kept, ok done) s fewer bounded =
      acknowledge_known-IsBounded a id expected (find id kept) (record s { receipts = kept }) refl
        (bounded.0, omega (arith, fewer, bounded.1))

  pub acknowledge-IsBounded :
      (a : Acking) (id expected : String) (s : Station)
      → IsBounded s
      → IsBounded (acknowledge digest a id expected s).0
  unfolding acknowledge
  acknowledge-IsBounded a id expected s bounded =
      elim (Bool-cases (not (is_capture_id id && is_digest expected))) [
        | inl e ↦ rw e bounded
        | inr e ↦ elim (Bool-cases a.locked) [
          | inl f ↦ rw (e, f) bounded
          | inr f ↦ elim (Bool-cases (not a.mounted)) [
            | inl g ↦ rw (e, f, g) bounded
            | inr g ↦
                simp (e, f, g)
                  (acknowledge_checked-IsBounded a id expected
                    (acknowledged_receipts a.now_ns s.receipts) s
                    (length-acknowledged_receipts a.now_ns s.receipts) bounded)
          ]
        ]
      ]
