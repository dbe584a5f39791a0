-- ===== src/Capture/Acknowledge/Laws.antt =====
-- What an acknowledgement that succeeds leaves behind.
use homecluster_infra.Base.{
  ℕ, ◌≡◌, inl, inr, refl, ap, ◌∙◌, subst, String, true, false, ◌&&◌, ◌||◌, not, Option, none, some,
  List, [], ◌∷◌, ◌==◌, nat_eq, string_eq, find, put, find-put, if◌then◌else◌, Result, ok, err,
  arith, eq_iff, Bool-cases, Option-cases, ok-injective, err-ok,
}
use homecluster_infra.Capture.Station.{Folder, Receipt, Station, is_capture_id, is_digest, is_some}
use homecluster_infra.Capture.Acknowledge.{
  Publishing, Acking, after_publish, without, acknowledged_receipts, left_over, after_removal,
  Acknowledged, remove_run, new_receipt, with_new_receipt, acknowledge_known, acknowledge_checked,
  acknowledge,
}
use homecluster_infra.Capture.Acknowledge.Evidence.{new_receipt-ok}

module _ {ℓ} {A : Type ℓ} where
  pub find-without : (k : String) (d : List (String × A)) → find k (without k d) ≡ none
  unfolding find without
  find-without k [] = refl
  find-without k ((j, v) ∷ d) = elim (Bool-cases (j == k)) [
    | inl e ↦ rw e (find-without k d)
    | inr e ↦ rw (e, e) (find-without k d)
  ]

  pub find-without_other :
      (j k : String) (d : List (String × A)) → (k == j) ≡ false → find j (without k d) ≡ find j d
  unfolding find without
  find-without_other j k [] other = refl
  find-without_other j k ((i, v) ∷ d) other =
      ground (arith, eq_iff i k, eq_iff k j, eq_iff i j, other, find-without_other j k d other)

-- Where an acknowledgement succeeds: the receipt is stored, the run is gone, and no other run is.
abbrev pub Removes : String → String → Station → Station × Result Acknowledged → Type 0
Removes id expected s r =
    (got : Acknowledged)
    → r.1 ≡ ok got
    → (got.0.pcap_sha256 ≡ expected)
      × (find id r.0.receipts ≡ some got.0)
      × (find id r.0.spool ≡ none)
      × ((j : String) → (id == j) ≡ false → find j r.0.spool ≡ find j s.spool)

text_beq_refl : (text : String) → (text == text) ≡ true
text_beq_refl text = ground (arith, eq_iff text text)

after_removal-Removes :
    (id expected : String) (receipt : Receipt) (rest : Option Folder) (s : Station)
    → receipt.pcap_sha256 ≡ expected
    → Removes id expected s (after_removal id receipt rest s)
unfolding after_removal
after_removal-Removes id expected receipt (some rest) s same got h = absurd (err-ok h)
after_removal-Removes id expected receipt none s same got h =
    let stored : find id (put id receipt s.receipts) ≡ some receipt =
      find-put id id receipt s.receipts
      ∙ ap (λ b. if b then some receipt else find id s.receipts) (text_beq_refl id) in
    let this : receipt ≡ got.0 = ap (λ (g : Acknowledged). g.0) (ok-injective h) in
    (
      subst (λ (g : Receipt). g.pcap_sha256 ≡ expected) this same,
      stored ∙ ap some this,
      find-without id s.spool,
      λ j other. find-without_other j id s.spool other,
    )

after_publish-Removes :
    (publishing : Publishing) (a : Acking) (id expected : String) (receipt : Receipt)
    (folder : Folder) (s : Station)
    → receipt.pcap_sha256 ≡ expected
    → Removes id expected s (after_publish publishing a id receipt folder s)
unfolding after_publish
after_publish-Removes Publishing.published a id expected receipt folder s same =
    after_removal-Removes id expected receipt (left_over a.removing folder) s same
after_publish-Removes Publishing.unpublished a id expected receipt folder s same =
    λ got h. absurd (err-ok h)
after_publish-Removes (Publishing.stray suffix) a id expected receipt folder s same =
    λ got h. absurd (err-ok h)

remove_run-Removes :
    (publishing : Publishing) (a : Acking) (id expected : String) (receipt : Receipt)
    (folder : Folder) (s : Station)
    → receipt.pcap_sha256 ≡ expected
    → Removes id expected s (remove_run publishing a id receipt folder s)
unfolding remove_run
remove_run-Removes publishing a id expected receipt folder s same =
    elim (Bool-cases (is_some folder.part || is_some folder.failure || folder.temporary)) [
      | inl e ↦ rw e (λ got h. absurd (err-ok h))
      | inr e ↦ rw e (after_publish-Removes publishing a id expected receipt folder s same)
    ]

module _ (digest : List ℕ → String) where
  with_new_receipt-Removes :
      (a : Acking) (id expected : String) (made : Result (Folder × Receipt)) (s : Station)
      → ((m : Folder × Receipt) → made ≡ ok m → m.1.pcap_sha256 ≡ expected)
      → Removes id expected s (with_new_receipt digest a id made s)
  unfolding with_new_receipt
  with_new_receipt-Removes a id expected (err e) s same = λ got h. absurd (err-ok h)
  with_new_receipt-Removes a id expected (ok (folder, receipt)) s same =
      remove_run-Removes a.publishing a id expected receipt folder s (same (folder, receipt) refl)

  acknowledge_known-Removes :
      (a : Acking) (id expected : String) (known : Option Receipt) (s : Station)
      → find id s.receipts ≡ known
      → Removes id expected s (acknowledge_known digest a id expected known s)
  unfolding acknowledge_known
  acknowledge_known-Removes a id expected (some receipt) s stored =
      elim (Bool-cases (receipt.pcap_sha256 == expected)) [
        | inr e ↦ rw e (λ got h. absurd (err-ok h))
        | inl e ↦
            let same : receipt.pcap_sha256 ≡ expected = (eq_iff receipt.pcap_sha256 expected).0 e in
            elim (Option-cases (find id s.spool)) [
              | inr (folder, f) ↦
                  rw (e, f)
                    (remove_run-Removes Publishing.published a id expected receipt folder s same)
              | inl f ↦
                  rw (e, f)
                    (λ got h.
                      let this : receipt ≡ got.0 =
                        ap (λ (g : Acknowledged). g.0) (ok-injective h) in
                      (
                        subst (λ (g : Receipt). g.pcap_sha256 ≡ expected) this same,
                        stored ∙ ap some this,
                        f,
                        λ j other. refl,
                      ))
            ]
      ]
  acknowledge_known-Removes a id expected none s stored =
      with_new_receipt-Removes a id expected (new_receipt digest a id expected s) s
        (λ made h. (new_receipt-ok digest a id expected s h).0)

  acknowledge_checked-Removes :
      (a : Acking) (id expected : String) (checked : List (String × Receipt) × Result (Unit {0}))
      (s : Station)
      → Removes id expected s (acknowledge_checked digest a id expected checked s)
  unfolding acknowledge_checked
  acknowledge_checked-Removes a id expected (kept, err e) s = λ got h. absurd (err-ok h)
  acknowledge_checked-Removes a id expected (kept, ok done) s =
      acknowledge_known-Removes a id expected (find id kept) (record s { receipts = kept }) refl

  acknowledge-Removes :
      (a : Acking) (id expected : String) (s : Station)
      → Removes id expected s (acknowledge digest a id expected s)
  unfolding acknowledge acknowledge_checked
  acknowledge-Removes a id expected s =
      elim (Bool-cases (not (is_capture_id id && is_digest expected))) [
        | inl e ↦ rw e (λ got h. absurd (err-ok h))
        | inr e ↦ elim (Bool-cases a.locked) [
          | inl f ↦ rw (e, f) (λ got h. absurd (err-ok h))
          | inr f ↦ elim (Bool-cases (not a.mounted)) [
            | inl g ↦ rw (e, f, g) (λ got h. absurd (err-ok h))
            | inr g ↦
                simp (e, f, g)
                  (acknowledge_checked-Removes a id expected
                    (acknowledged_receipts a.now_ns s.receipts) s)
          ]
        ]
      ]

  -- An acknowledgement that succeeds leaves a receipt with the SHA-256 that it names, no directory
  -- of the run in the spool, and every other run as it was.
  pub acknowledge-ok :
      (a : Acking) (id expected : String) (s : Station) {got : Acknowledged}
      → (acknowledge digest a id expected s).1 ≡ ok got
      → (got.0.pcap_sha256 ≡ expected)
        × (find id (acknowledge digest a id expected s).0.receipts ≡ some got.0)
        × (find id (acknowledge digest a id expected s).0.spool ≡ none)
        × ((j : String)
            → (id == j) ≡ false
            → find j (acknowledge digest a id expected s).0.spool ≡ find j s.spool)
  acknowledge-ok a id expected s {got} h = acknowledge-Removes a id expected s got h
