-- ===== src/Capture/Station.antt =====
-- The router's capture state: `request`, `serve`, `status`, `artifact` and `acknowledge` of
-- security_capture.py over the files that they keep.
--
-- What an operation meets is an argument: the configuration, the clock, the lock, the storage, what
-- tcpdump does, and whether a removal is interrupted. Times are in nanoseconds.
use homecluster_infra.Base.{
  ℕ, ◌+◌, ◌*◌, ◌^◌, String, Bool, true, false, ◌&&◌, ◌||◌, not, Option, none, some, List, [], ◌∷◌,
  ◌==◌, nat_eq, string_eq, leb, ltb, length, any, find, encode, is_digit, if◌then◌else◌, Result, ok,
  err, ◌>>=◌, ◌>>◌, require,
}
use homecluster_infra.Capture.Steps.{Fate, Ending, Step, at_once, run_steps}
use homecluster_infra.Capture.Pcap.{limit, Summary}

is_hex_byte : ℕ → Bool
unfolding is_digit
is_hex_byte c = is_digit c || leb b'a' c && leb c b'f'

-- A whole match: `d` of the pattern is a digit, `x` a hexadecimal digit, another byte itself.
unfoldable pub whole_match : List ℕ → List ℕ → Bool
unfolding is_hex_byte is_digit
whole_match [] [] = true
whole_match [] (c ∷ s) = false
whole_match (p ∷ pattern) [] = false
whole_match (p ∷ pattern) (c ∷ s) =
    (if p == b'd' then is_digit c else if p == b'x' then is_hex_byte c else p == c)
    && whole_match pattern s

-- `ID`
unfoldable pub is_capture_id : String → Bool
unfolding whole_match encode
is_capture_id id = whole_match (encode "ddddddddTddddddZ-xxxxxxxxxxxxxxxx") (encode id)

-- `[0-9a-f]{64}`
unfoldable pub is_digest : String → Bool
unfolding whole_match encode
is_digest text =
    whole_match (encode "xxxxxxxxxxxxxxxxxxxxxxxxxxxxxxxxxxxxxxxxxxxxxxxxxxxxxxxxxxxxxxxx")
      (encode text)

pub record Profile : Type 0 where
  pub interface : String
  pub bpf : String
  pub duration_seconds : ℕ

-- The configuration with the SHA-256 of its file.
pub record Config : Type 0 where
  pub profiles : List (String × Profile)
  pub sha256 : String

pub record Request : Type 0 where
  pub capture_id : String
  pub profile : String
  pub created : ℕ
  pub configuration_sha256 : String

pub data Phase : Type 0 where
  pending : Phase
  running : Phase
  complete : Phase
  failed : Phase

pub record Manifest : Type 0 where
  pub summary : Summary
  pub capture_id : String
  pub profile : String
  pub interface : String
  pub stop_reason : String
  pub kernel_drop_count : Option ℕ
  pub configuration_sha256 : String

-- The directory of a run: which of its files are there, the packets and the manifest with what they
-- hold. `temporary` says whether a temporary file of a `publish` is left in it.
pub record Folder : Type 0 where
  pub started : Bool
  pub filter : Bool
  pub part : Option (List ℕ)
  pub packets : Option (List ℕ)
  pub manifest : Option Manifest
  pub failure : Option String
  pub temporary : Bool

pub record Receipt : Type 0 where
  pub pcap_sha256 : String
  pub epoch : ℕ

-- request.json, last-result.json, the spool and the acknowledgements.
pub record Station : Type 0 where
  pub request : Option Request
  pub last : Option (Phase × String)
  pub spool : List (String × Folder)
  pub receipts : List (String × Receipt)

abbrev pub empty_station : Station
empty_station = record { request = none; last = none; spool = []; receipts = [] }

-- What `guards` reads of the machine. `old` tells the runs of more than a day; the load is in
-- hundredths.
pub record Storage : Type 0 where
  pub mounted : Bool
  pub old : String → Bool
  pub free_bytes : ℕ
  pub memory_bytes : ℕ
  pub load : ℕ

unfoldable pub guards : Storage → List (String × Folder) → Result (Unit {0})
unfolding ◌>>=◌
guards a spool =
    require a.mounted "srv_not_mounted"
    >> (require (ltb (length spool) 2) "spool_count_limit"
        >> (require (not (any (λ (r : String × Folder). a.old r.0) spool))
              "spool_expired_requires_review"
            >> (require (leb (8 * 1024 ^ 3 + limit + 256 * 1024 ^ 2) a.free_bytes)
                  "shared_storage_reserve"
                >> (require (leb (256 * 1024 ^ 2) a.memory_bytes) "router_memory"
                    >> require (leb a.load 200) "router_load"))))

abbrev pub is_some {ℓ} : {A : Type ℓ} → Option A → Bool
is_some none = false
is_some (some a) = true

-- What `request` meets: `capture_id` is the new one, `publishing` the fate of its two files, `starts`
-- whether procd starts the service.
pub record Asking : Type 0 where
  pub config : Result Config
  pub locked : Bool
  pub storage : Storage
  pub capture_id : String
  pub now_ns : ℕ
  pub publishing : ℕ → Fate
  pub starts : Bool

-- The checks of `request`.
unfoldable pub may_request : Asking → String → Station → Result Config
unfolding guards find ◌>>=◌
may_request a profile s = a.config >>= λ config.
    require (is_some (find profile config.profiles)) "profile_not_allowed"
    >> (require (not a.locked) "BlockingIOError"
        >> (require (not (is_some s.request)) "request_pending_requires_review"
            >> (guards a.storage s.spool >> ok config)))

-- The two files of a request, each replaced at once.
abbrev pub asking_steps : Asking → String → Config → List (Step Station)
asking_steps a profile config =
    at_once (λ (s : Station). record s {
      request = some (record {
        capture_id = a.capture_id;
        profile = profile;
        created = a.now_ns;
        configuration_sha256 = config.sha256;
      });
    })
    ∷ at_once (λ (s : Station). record s { last = some (Phase.pending, a.capture_id) })
    ∷ []

-- The start of the service, once the files are there.
abbrev pub after_publishing : Asking → Station × Ending → Station × Result String
after_publishing a (s, Ending.finished) =
    (s, if a.starts then ok a.capture_id else err "procd_start_failed_request_preserved")
after_publishing a (s, Ending.raised reason) = (s, err reason)
after_publishing a (s, Ending.killed) = (s, err "SIGKILL")

unfoldable pub request : Asking → String → Station → Station × Result String
unfolding may_request run_steps
request a profile s = elim (may_request a profile s) [
  | err e ↦ (s, err e)
  | ok config ↦ after_publishing a (run_steps a.publishing 0 (asking_steps a profile config) s)
]
