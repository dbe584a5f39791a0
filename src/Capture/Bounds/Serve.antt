-- ===== src/Capture/Bounds/Serve.antt =====
-- How far `serve` lets the spool grow, whichever of its operations fails or is cut off.
use homecluster_infra.Base.{
  ℕ, suc, ◌<◌, ◌≡◌, inl, inr, refl, ap, String, List, [], ◌∷◌, ◌==◌, nat_eq, string_eq, ltb, length,
  Result, ok, err, arith, Bool-cases, require-eq-ok, lt_of_ltb,
}
use homecluster_infra.Capture.Pcap.{Summary}
use homecluster_infra.Capture.Steps.{Fate, Ending, at_once, unchanged, run_steps}
use homecluster_infra.Capture.Steps.Laws.{Keeps, AllKeep, run_steps-keeps, run_steps-keeps_first}
use homecluster_infra.Capture.Station.{Profile, Request, Manifest, Folder, Station, Storage, guards}
use homecluster_infra.Capture.Serve.{
  Serving, may_serve, new_folder, update, change, make_run, starting_steps, capturing_steps,
  completing_steps, failing_steps, manifest_of, accept, after_accept, after_tcpdump, capture,
  after_handler, after_capture, after_start, after_checks, serve,
}
use homecluster_infra.Capture.Serve.Laws.{may_serve-ok}
use homecluster_infra.Capture.Bounds.{length-put, IsBounded}

length-update :
    (k : String) (f : Folder → Folder) (d : List (String × Folder))
    → length (update k f d) ≡ length d
unfolding update
length-update k f [] = refl
length-update k f ((j, v) ∷ d) = elim (Bool-cases (j == k)) [
  | inl e ↦ rw e refl
  | inr e ↦ rw e (ap suc (length-update k f d))
]

change-IsBounded :
    (id : String) (f : Folder → Folder) (s : Station) → IsBounded s → IsBounded (change id f s)
change-IsBounded id f s (spool, receipts) =
    (omega (arith, length-update id f s.spool, spool), receipts)

changes-KeepBounded :
    (id : String) (f g : Folder → Folder) → Keeps IsBounded (change id f, change id g)
changes-KeepBounded id f g s bounded =
    (change-IsBounded id f s bounded, change-IsBounded id g s bounded)

at_once-KeepBounded :
    (f : Station → Station)
    → ((s : Station) → IsBounded s → IsBounded (f s))
    → Keeps IsBounded (at_once f)
at_once-KeepBounded f keeps s bounded = (bounded, keeps s bounded)

unchanged-KeepsBounded : Keeps IsBounded unchanged
unchanged-KeepsBounded s bounded = (bounded, bounded)

guards-room :
    (a : Storage) (spool : List (String × Folder)) {done : Unit {0}}
    → guards a spool ≡ ok done
    → length spool < 2
unfolding guards
guards-room a spool h =
    let (_, h1) = require-eq-ok a.mounted "srv_not_mounted" _ h in
    let (few, _) = require-eq-ok (ltb (length spool) 2) "spool_count_limit" _ h1 in
    lt_of_ltb (length spool) 2 few

-- A capture starts only with room for its run.
may_serve-room :
    (a : Serving) (s : Station) {item : Request} {profile : Profile}
    → may_serve a s ≡ ok (item, profile)
    → length s.spool < 2
may_serve-room a s h =
    let (_, _, _, room, _) = may_serve-ok a s h in guards-room a.storage s.spool room

module _ (digest : List ℕ → String) where
  starting_steps-IsBounded :
      (fate : ℕ → Fate) (id : String) (s : Station)
      → IsBounded s
      → IsBounded (make_run id s)
      → IsBounded (run_steps fate 0 (starting_steps id) s).0
  starting_steps-IsBounded fate id s bounded made =
      run_steps-keeps_first IsBounded fate 0 (at_once (make_run id)) _ s bounded bounded made
        (changes-KeepBounded id _ _, ((λ s b. (b, b)), ((λ s b. (b, b)), tt)))

  capturing-KeepBounded : (a : Serving) (id : String) → AllKeep IsBounded (capturing_steps a id)
  capturing-KeepBounded a id = (
    changes-KeepBounded id _ _,
    (unchanged-KeepsBounded, (changes-KeepBounded id _ _, (unchanged-KeepsBounded, tt))),
  )

  completing-KeepBounded :
      (manifest : Manifest) (id : String) → AllKeep IsBounded (completing_steps manifest id)
  completing-KeepBounded manifest id = (
    unchanged-KeepsBounded,
    (
      (λ s bounded. (bounded, change-IsBounded id _ s bounded)),
      (changes-KeepBounded id _ _, ((λ s bounded. (bounded, bounded)), tt)),
    ),
  )

  failing-KeepBounded : (reason id : String) → AllKeep IsBounded (failing_steps reason id)
  failing-KeepBounded reason id =
      (changes-KeepBounded id _ _, ((λ s bounded. (bounded, bounded)), tt))

  after_accept-IsBounded :
      (a : Serving) (item : Request) (profile : Profile) (checked : Result Summary) (s : Station)
      → IsBounded s
      → IsBounded (after_accept digest a item profile checked s).0
  unfolding after_accept
  after_accept-IsBounded a item profile (err e) s bounded = bounded
  after_accept-IsBounded a item profile (ok summary) s bounded =
      let manifest = manifest_of item profile a.stop_reason a.drops summary in
      run_steps-keeps IsBounded a.working 4 (completing_steps manifest item.capture_id) s
        (completing-KeepBounded manifest item.capture_id) bounded

  after_tcpdump-IsBounded :
      (a : Serving) (item : Request) (profile : Profile) (r : Station × Ending)
      → IsBounded r.0
      → IsBounded (after_tcpdump digest a item profile r).0
  unfolding after_tcpdump
  after_tcpdump-IsBounded a item profile (s, Ending.finished) bounded =
      after_accept-IsBounded a item profile (accept digest a.stop_reason a.bytes) s bounded
  after_tcpdump-IsBounded a item profile (s, Ending.raised reason) bounded = bounded
  after_tcpdump-IsBounded a item profile (s, Ending.killed) bounded = bounded

  capture-IsBounded :
      (a : Serving) (item : Request) (profile : Profile) (s : Station)
      → IsBounded s
      → IsBounded (capture digest a item profile s).0
  unfolding capture
  capture-IsBounded a item profile s bounded = after_tcpdump-IsBounded a item profile _ (
      run_steps-keeps IsBounded a.working 0 (capturing_steps a item.capture_id) s
        (capturing-KeepBounded a item.capture_id) bounded)

  after_handler-IsBounded :
      (reason : String) (r : Station × Ending)
      → IsBounded r.0
      → IsBounded (after_handler digest reason r).0
  after_handler-IsBounded reason (s, Ending.finished) bounded = bounded
  after_handler-IsBounded reason (s, Ending.raised other) bounded = bounded
  after_handler-IsBounded reason (s, Ending.killed) bounded = bounded

  after_capture-IsBounded :
      (a : Serving) (id : String) (r : Station × Ending)
      → IsBounded r.0
      → IsBounded (after_capture digest a id r).0
  unfolding after_capture
  after_capture-IsBounded a id (s, Ending.finished) bounded = bounded
  after_capture-IsBounded a id (s, Ending.raised reason) bounded =
      after_handler-IsBounded reason (run_steps a.handling 0 (failing_steps reason id) s) (
        run_steps-keeps IsBounded a.handling 0 (failing_steps reason id) s
          (failing-KeepBounded reason id) bounded)
  after_capture-IsBounded a id (s, Ending.killed) bounded = bounded

  after_start-IsBounded :
      (a : Serving) (item : Request) (profile : Profile) (r : Station × Ending)
      → IsBounded r.0
      → IsBounded (after_start digest a item profile r).0
  unfolding after_start
  after_start-IsBounded a item profile (s, Ending.finished) bounded =
      after_capture-IsBounded a item.capture_id (capture digest a item profile s)
        (capture-IsBounded a item profile s bounded)
  after_start-IsBounded a item profile (s, Ending.raised reason) bounded = bounded
  after_start-IsBounded a item profile (s, Ending.killed) bounded = bounded

  after_checks-IsBounded :
      (a : Serving) (checked : Result (Request × Profile)) (s : Station)
      → ((start : Request × Profile) → checked ≡ ok start → length s.spool < 2)
      → IsBounded s
      → IsBounded (after_checks digest a checked s).0
  unfolding after_checks
  after_checks-IsBounded a (err e) s room bounded = bounded
  after_checks-IsBounded a (ok (item, profile)) s room bounded =
      let id = item.capture_id in
      let made : IsBounded (make_run id s) =
        (omega (arith, room (item, profile) refl, length-put id new_folder s.spool), bounded.1) in
      after_start-IsBounded a item profile (run_steps a.starting 0 (starting_steps id) s)
        (starting_steps-IsBounded a.starting id s bounded made)

  pub serve-IsBounded : (a : Serving) (s : Station) → IsBounded s → IsBounded (serve digest a s).0
  unfolding serve
  serve-IsBounded a s bounded =
      after_checks-IsBounded a (may_serve a s) s (λ start h. may_serve-room a s h) bounded
