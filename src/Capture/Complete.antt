-- ===== src/Capture/Complete.antt =====
-- A capture that completes is an artifact.
use homecluster_infra.Base.{
  ℕ, ◌≡◌, refl, sym, ap, subst, false, ◌∙◌, inl, inr, [], ◌∷◌, Bool-cases, none-some, String, true,
  ◌&&◌, not, none, some, List, ◌==◌, nat_eq, string_eq, find, put, find-put, if◌then◌else◌, Result,
  ok, err, ◌>>=◌, arith, eq_iff, >>=-eq-ok, require-eq-ok, err-ok,
}
use homecluster_infra.Capture.Pcap.{Summary, pcap}
use homecluster_infra.Capture.Station.{
  Phase, Profile, Request, Manifest, Folder, Station, is_capture_id,
}
use homecluster_infra.Capture.Steps.{Ending, finished, run_steps}
use homecluster_infra.Capture.Steps.Laws.{all_done, not_raised, not_killed, run_steps-finished}
use homecluster_infra.Capture.Serve.{
  Serving, new_folder, update, manifest_of, starting_steps, capturing_steps, completing_steps,
  failing_steps, accept, after_accept, after_tcpdump, capture, after_handler, after_capture,
  after_start, after_checks, serve, may_serve,
}
use homecluster_infra.Capture.Serve.Laws.{may_serve-ok}
use homecluster_infra.Capture.Acknowledge.{same_summary, artifact}

same_summary_refl : (a : Summary) → same_summary a a ≡ true
same_summary_refl a = ground (arith, eq_iff a.pcap_sha256 a.pcap_sha256)

text_beq_refl : (text : String) → (text == text) ≡ true
text_beq_refl text = ground (arith, eq_iff text text)

module _ (digest : List ℕ → String) where
  abbrev complete_folder : List ℕ → Manifest → Folder
  complete_folder bytes manifest = record {
    started = true;
    filter = true;
    part = none;
    packets = some bytes;
    manifest = some manifest;
    failure = none;
    temporary = false;
  }

  accept-ok :
      (reason : String) (bytes : List ℕ) {summary : Summary}
      → accept digest reason bytes ≡ ok summary
      → pcap digest bytes ≡ ok summary
  unfolding accept
  accept-ok reason bytes h =
      let (summary, valid, h1) = >>=-eq-ok (pcap digest bytes) _ h in
      let (_, h2) =
        require-eq-ok (not (reason == "packet_limit" && not (summary.packet_count == 1000)))
          "unexpected_early_exit" _ h1 in
      valid ∙ h2

  text_beq_put :
      (k : String) (v : Folder) (d : List (String × Folder)) → find k (put k v d) ≡ some v
  text_beq_put k v d = find-put k k v d ∙ ap (λ b. if b then some v else find k d) (text_beq_refl k)

  find-update :
      (k : String) (f : Folder → Folder) (d : List (String × Folder)) {v : Folder}
      → find k d ≡ some v
      → find k (update k f d) ≡ some (f v)
  unfolding update find
  find-update k f [] h = absurd (none-some h)
  find-update k f ((j, u) ∷ d) h = elim (Bool-cases (j == k)) [
    | inl e ↦ rw (e, e) (ap (λ o. elim o [ none ↦ none | some w ↦ some (f w) ]) (rw e at h))
    | inr e ↦ rw (e, e) (find-update k f d (rw e at h))
  ]

  artifact-complete_folder :
      (bytes : List ℕ) (manifest : Manifest) (id : String) (s : Station)
      → is_capture_id id ≡ true
      → find id s.spool ≡ some (complete_folder bytes manifest)
      → pcap digest bytes ≡ ok manifest.summary
      → manifest.capture_id ≡ id
      → artifact digest true id s ≡ ok (complete_folder bytes manifest, manifest)
  unfolding artifact ◌>>=◌
  artifact-complete_folder bytes manifest id s named held valid this =
      rw (named, held, this, text_beq_refl id, valid, same_summary_refl manifest.summary) refl

  -- What a capture that completes leaves.
  abbrev pub Completes : Station → Request → Type 0
  Completes s item =
      (s.last ≡ some (Phase.complete, item.capture_id))
      × (s.request ≡ none)
      × (folder : Folder) × (manifest : Manifest) × (artifact digest true item.capture_id s
          ≡ ok (folder, manifest))

  after_handler-raises :
      (reason : String) (r : Station × Ending) → ¬ ((after_handler digest reason r).1 ≡ ok tt)
  after_handler-raises reason (s, Ending.finished) h = err-ok h
  after_handler-raises reason (s, Ending.raised other) h = err-ok h
  after_handler-raises reason (s, Ending.killed) h = err-ok h

  -- Where nothing raises, every operation is done, and the file is accepted.
  after_capture-ok :
      (a : Serving) (id : String) (r : Station × Ending)
      → (after_capture digest a id r).1 ≡ ok tt
      → (r.1 ≡ finished) × ((after_capture digest a id r).0 ≡ r.0)
  unfolding after_capture
  after_capture-ok a id (s, Ending.finished) h = (refl, refl)
  after_capture-ok a id (s, Ending.raised reason) h =
      absurd (after_handler-raises reason (run_steps a.handling 0 (failing_steps reason id) s) h)
  after_capture-ok a id (s, Ending.killed) h = absurd (err-ok h)

  after_start-ok :
      (a : Serving) (item : Request) (profile : Profile) (r : Station × Ending)
      → (after_start digest a item profile r).1 ≡ ok tt
      → (r.1 ≡ finished)
        × ((capture digest a item profile r.0).1 ≡ finished)
        × ((after_start digest a item profile r).0 ≡ (capture digest a item profile r.0).0)
  unfolding after_start
  after_start-ok a item profile (s, Ending.finished) h =
      let (over, same) = after_capture-ok a item.capture_id (capture digest a item profile s) h in
      (refl, over, same)
  after_start-ok a item profile (s, Ending.raised reason) h = absurd (err-ok h)
  after_start-ok a item profile (s, Ending.killed) h = absurd (err-ok h)

  after_accept-finished :
      (a : Serving) (item : Request) (profile : Profile) (checked : Result Summary) (s : Station)
      → (after_accept digest a item profile checked s).1 ≡ finished
      → (summary : Summary) × (checked ≡ ok summary)
        × ((after_accept digest a item profile checked s).0
            ≡ all_done
                (completing_steps
                  (manifest_of item profile a.stop_reason a.drops summary)
                  item.capture_id)
                s)
  unfolding after_accept
  after_accept-finished a item profile (err e) s h = absurd (not_raised h)
  after_accept-finished a item profile (ok summary) s h =
      let steps =
        completing_steps (manifest_of item profile a.stop_reason a.drops summary) item.capture_id in
      (summary, refl, ap (λ (r : Station × Ending). r.0) (run_steps-finished a.working 4 steps s h))

  after_tcpdump-finished :
      (a : Serving) (item : Request) (profile : Profile) (r : Station × Ending)
      → (after_tcpdump digest a item profile r).1 ≡ finished
      → (r.1 ≡ finished)
        × (summary : Summary) × (accept digest a.stop_reason a.bytes ≡ ok summary)
        × ((after_tcpdump digest a item profile r).0
            ≡ all_done
                (completing_steps
                  (manifest_of item profile a.stop_reason a.drops summary)
                  item.capture_id)
                r.0)
  unfolding after_tcpdump
  after_tcpdump-finished a item profile (s, Ending.finished) h =
      let (summary, valid, same) =
        after_accept-finished a item profile (accept digest a.stop_reason a.bytes) s h in
      (refl, summary, valid, same)
  after_tcpdump-finished a item profile (s, Ending.raised reason) h = absurd (not_raised h)
  after_tcpdump-finished a item profile (s, Ending.killed) h = absurd (not_killed h)

  -- The station after every operation of a capture.
  abbrev complete_station : Serving → Request → Manifest → Station → Station
  complete_station a item manifest s =
      all_done (completing_steps manifest item.capture_id)
        (all_done (capturing_steps a item.capture_id) (all_done (starting_steps item.capture_id) s))

  capture-finished :
      (a : Serving) (item : Request) (profile : Profile) (s : Station)
      → (capture digest a item profile s).1 ≡ finished
      → (summary : Summary) × (accept digest a.stop_reason a.bytes ≡ ok summary)
        × ((capture digest a item profile s).0
            ≡ all_done
                (completing_steps
                  (manifest_of item profile a.stop_reason a.drops summary)
                  item.capture_id)
                (all_done (capturing_steps a item.capture_id) s))
  unfolding capture
  capture-finished a item profile s h =
      let r = run_steps a.working 0 (capturing_steps a item.capture_id) s in
      let (over, summary, valid, after) = after_tcpdump-finished a item profile r h in
      let done =
        ap (λ (r : Station × Ending). r.0)
          (run_steps-finished a.working 0 (capturing_steps a item.capture_id) s over) in
      (
        summary,
        valid,
        after
            ∙ ap
                (all_done (
                  completing_steps (manifest_of item profile a.stop_reason a.drops summary)
                    item.capture_id))
                done,
      )

  find-complete_station :
      (a : Serving) (item : Request) (manifest : Manifest) (s : Station)
      → find item.capture_id (complete_station a item manifest s).spool
        ≡ some (complete_folder a.bytes manifest)
  find-complete_station a item manifest s =
      let id = item.capture_id in
      find-update id _ _ (
        find-update id _ _ (
          find-update id _ _
            (find-update id _ _ (find-update id _ _ (text_beq_put id new_folder s.spool)))))

  after_checks-Completes :
      (a : Serving) (checked : Result (Request × Profile)) (s : Station)
      → ((item : Request)
          → (profile : Profile) → checked ≡ ok (item, profile)
          → is_capture_id item.capture_id ≡ true)
      → (after_checks digest a checked s).1 ≡ ok tt
      → (start : Request × Profile) × (checked ≡ ok start)
        × Completes (after_checks digest a checked s).0 start.0
  unfolding after_checks
  after_checks-Completes a (err e) s named h = absurd (err-ok h)
  after_checks-Completes a (ok (item, profile)) s named h =
      let first = run_steps a.starting 0 (starting_steps item.capture_id) s in
      let (over, worked, same) = after_start-ok a item profile first h in
      let begun =
        ap (λ (r : Station × Ending). r.0)
          (run_steps-finished a.starting 0 (starting_steps item.capture_id) s over) in
      let (summary, valid, after) = capture-finished a item profile first.0 worked in
      let manifest = manifest_of item profile a.stop_reason a.drops summary in
      let end : (after_start digest a item profile first).0 ≡ complete_station a item manifest s =
        same
        ∙ after
        ∙ ap
            (λ n.
              all_done (completing_steps manifest item.capture_id)
                (all_done (capturing_steps a item.capture_id) n))
            begun in
      (
        (item, profile),
        refl,
        subst (λ n. Completes n item) (sym end)
            (
              refl,
              refl,
              complete_folder a.bytes manifest,
              manifest,
              artifact-complete_folder a.bytes manifest item.capture_id
                  (complete_station a item manifest s) (named item profile refl)
                  (find-complete_station a item manifest s) (accept-ok a.stop_reason a.bytes valid)
                  refl,
            ),
      )

  -- A capture that ends without an exception had a request; it takes the request away, says that
  -- this run is complete, and leaves a run that `artifact` accepts.
  pub serve-artifact :
      (a : Serving) (s : Station)
      → (serve digest a s).1 ≡ ok tt
      → (item : Request) × (s.request ≡ some item) × Completes (serve digest a s).0 item
  unfolding serve
  serve-artifact a s h =
      let (start, checked, done) =
        after_checks-Completes a (may_serve a s) s (λ item profile e. (may_serve-ok a s e).1) h in
      (start.0, (may_serve-ok a s checked).0, done)
