-- ===== src/Capture/Serve.antt =====
-- `serve` and `status` of security_capture.py: one capture from its request to its manifest.
pub mod Laws
use homecluster_infra.Base.{
  ℕ, ◌+◌, ◌-◌, ◌*◌, ◌^◌, String, Bool, true, false, ◌&&◌, not, Option, none, some, List, [], ◌∷◌,
  ◌==◌, nat_eq, string_eq, leb, find, put, if◌then◌else◌, Result, ok, err, ◌>>=◌, ◌>>◌, require,
}
use homecluster_infra.Capture.Steps.{Fate, Ending, Step, at_once, unchanged, run_steps}
use homecluster_infra.Capture.Pcap.{Summary, pcap}
use homecluster_infra.Capture.Station.{
  Profile, Config, Request, Phase, Manifest, Folder, Station, Storage, guards, is_capture_id,
  is_some,
}

-- What `serve` meets. `starting`, `working` and `handling` are the fates of the operations up to the
-- removal of the request, of those in the `try`, and of those of its handler. tcpdump leaves `cut`
-- where it is cut off, and otherwise `bytes`, with the reason of its end and the packets that the
-- kernel dropped.
pub record Serving : Type 0 where
  pub config : Result Config
  pub locked : Bool
  pub storage : Storage
  pub now_ns : ℕ
  pub starting : ℕ → Fate
  pub working : ℕ → Fate
  pub handling : ℕ → Fate
  pub cut : Option (List ℕ)
  pub bytes : List ℕ
  pub stop_reason : String
  pub drops : Option ℕ

abbrev pub or_missing {ℓ} : {A : Type ℓ} → String → Option A → Result A
or_missing reason none = err reason
or_missing reason (some a) = ok a

abbrev pub is_recent : ℕ → ℕ → Bool
is_recent now_ns created = leb created now_ns && leb (now_ns - created) (120 * 10 ^ 9)

-- The checks of `serve`, up to the new directory.
unfoldable pub may_serve : Serving → Station → Result (Request × Profile)
unfolding guards is_capture_id find ◌>>=◌
may_serve a s =
    require (not a.locked) "BlockingIOError"
    >> (or_missing "FileNotFoundError" s.request >>= λ item.
        require (is_capture_id item.capture_id) "capture_id"
        >> (require (is_recent a.now_ns item.created) "request_expired"
            >> (a.config >>= λ config.
                require (item.configuration_sha256 == config.sha256) "configuration_changed"
                >> (or_missing "configuration_changed" (find item.profile config.profiles)
                    >>= λ profile.
                        guards a.storage s.spool
                        >> (require (not (is_some (find item.capture_id s.spool))) "FileExistsError"
                            >> ok (item, profile))))))

abbrev pub new_folder : Folder
new_folder = record {
  started = false;
  filter = false;
  part = none;
  packets = none;
  manifest = none;
  failure = none;
  temporary = false;
}

-- A change of one run's directory.
unfoldable pub update {ℓ} : {A : Type ℓ} → String → (A → A) → List (String × A) → List (String × A)
update k f [] = []
update k f ((j, v) ∷ rest) =
    let more = update k f rest in if j == k then (j, f v) ∷ rest else (j, v) ∷ more

abbrev pub change : String → (Folder → Folder) → Station → Station
change id f s = record s { spool = update id f s.spool }

-- A `publish` in the directory of a run: a temporary file, which then gets its name.
abbrev pub publish_in : String → (Folder → Folder) → Step Station
publish_in id f = (change id (λ folder. record folder { temporary = true }), change id f)

abbrev pub publish_last : Phase → String → Step Station
publish_last phase id = at_once (λ s. record s { last = some (phase, id) })

-- The new directory.
abbrev pub make_run : String → Station → Station
make_run id s = record s { spool = put id new_folder s.spool }

-- Up to the removal of the request.
abbrev pub starting_steps : String → List (Step Station)
starting_steps id =
    at_once (make_run id)
    ∷ publish_in id (λ folder. record folder { started = true })
    ∷ publish_last Phase.running id
    ∷ at_once (λ s. record s { request = none })
    ∷ []

-- The filter is written and compiled, tcpdump runs, and its file is read.
abbrev pub capturing_steps : Serving → String → List (Step Station)
capturing_steps a id =
    (
      change id (λ folder. record folder { filter = true }),
      change id (λ folder. record folder { filter = true }),
    )
    ∷ unchanged
    ∷ (
      change id (λ folder. record folder { part = a.cut }),
      change id (λ folder. record folder { part = some a.bytes }),
    )
    ∷ unchanged
    ∷ []

-- The file is synchronised and gets its name, and the manifest and the last result follow.
abbrev pub completing_steps : Manifest → String → List (Step Station)
completing_steps manifest id =
    unchanged
    ∷ at_once (change id (λ folder. record folder { part = none; packets = folder.part }))
    ∷ publish_in id (λ folder. record folder { manifest = some manifest })
    ∷ publish_last Phase.complete id
    ∷ []

-- The handler: the reason is kept in the directory of the run.
abbrev pub failing_steps : String → String → List (Step Station)
failing_steps reason id =
    publish_in id (λ folder. record folder { failure = some reason })
    ∷ publish_last Phase.failed id
    ∷ []

abbrev pub manifest_of : Request → Profile → String → Option ℕ → Summary → Manifest
manifest_of item profile reason drops summary = record {
  summary = summary;
  capture_id = item.capture_id;
  profile = item.profile;
  interface = profile.interface;
  stop_reason = reason;
  kernel_drop_count = drops;
  configuration_sha256 = item.configuration_sha256;
}

module _ (digest : List ℕ → String) where
  -- The check of the file, and that of an end by the number of packets.
  unfoldable pub accept : String → List ℕ → Result Summary
  unfolding pcap ◌>>=◌
  accept reason bytes = pcap digest bytes >>= λ summary.
      require (not (reason == "packet_limit" && not (summary.packet_count == 1000)))
        "unexpected_early_exit"
      >> ok summary

  -- From the check of the file on.
  unfoldable pub after_accept :
      Serving → Request → Profile → Result Summary → Station → Station × Ending
  unfolding run_steps
  after_accept a item profile (err e) s = (s, Ending.raised e)
  after_accept a item profile (ok summary) s =
      run_steps a.working 4
        (completing_steps (manifest_of item profile a.stop_reason a.drops summary) item.capture_id)
        s

  -- From the file of tcpdump on.
  unfoldable pub after_tcpdump : Serving → Request → Profile → Station × Ending → Station × Ending
  unfolding accept after_accept
  after_tcpdump a item profile (s, Ending.finished) =
      after_accept a item profile (accept a.stop_reason a.bytes) s
  after_tcpdump a item profile (s, Ending.raised reason) = (s, Ending.raised reason)
  after_tcpdump a item profile (s, Ending.killed) = (s, Ending.killed)

  -- The body of the `try`.
  unfoldable pub capture : Serving → Request → Profile → Station → Station × Ending
  unfolding run_steps after_tcpdump
  capture a item profile s =
      after_tcpdump a item profile (run_steps a.working 0 (capturing_steps a item.capture_id) s)

  -- The end of the handler, which raises the exception again.
  abbrev pub after_handler : String → Station × Ending → Station × Result (Unit {0})
  after_handler reason (s, Ending.finished) = (s, err reason)
  after_handler reason (s, Ending.raised other) = (s, err other)
  after_handler reason (s, Ending.killed) = (s, err "SIGKILL")

  -- From the end of the `try` on.
  unfoldable pub after_capture : Serving → String → Station × Ending → Station × Result (Unit {0})
  unfolding run_steps
  after_capture a id (s, Ending.finished) = (s, ok tt)
  after_capture a id (s, Ending.raised reason) =
      after_handler reason (run_steps a.handling 0 (failing_steps reason id) s)
  after_capture a id (s, Ending.killed) = (s, err "SIGKILL")

  -- From the removal of the request on.
  unfoldable pub after_start :
      Serving → Request → Profile → Station × Ending → Station × Result (Unit {0})
  unfolding capture after_capture
  after_start a item profile (s, Ending.finished) =
      after_capture a item.capture_id (capture a item profile s)
  after_start a item profile (s, Ending.raised reason) = (s, err reason)
  after_start a item profile (s, Ending.killed) = (s, err "SIGKILL")

  -- From the new directory on.
  unfoldable pub after_checks :
      Serving → Result (Request × Profile) → Station → Station × Result (Unit {0})
  unfolding run_steps after_start put
  after_checks a (err e) s = (s, err e)
  after_checks a (ok (item, profile)) s =
      after_start a item profile (run_steps a.starting 0 (starting_steps item.capture_id) s)

  unfoldable pub serve : Serving → Station → Station × Result (Unit {0})
  unfolding may_serve after_checks
  serve a s = after_checks a (may_serve a s) s

-- What `status` answers: unknown, a phase, or a run whose supervisor is gone.
pub data Answer : Type 0 where
  unknown : Answer
  at_phase : Phase → String → Answer
  not_active : String → Answer

unfoldable pub status : Bool → Station → Answer
status locked s = elim s.last [
  | none ↦ Answer.unknown
  | some (phase, id) ↦ elim phase [
    | Phase.running ↦ if locked then Answer.at_phase Phase.running id else Answer.not_active id
    | Phase.pending ↦ Answer.at_phase Phase.pending id
    | Phase.complete ↦ Answer.at_phase Phase.complete id
    | Phase.failed ↦ Answer.at_phase Phase.failed id
  ]
]
