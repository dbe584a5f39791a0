-- ===== src/FeedProof/Verify.antt =====
-- `verify` and `failed_check` of banip_feed_proof.py.
--
-- The world is given by what its calls do: `before` and `after` are the two calls of the reader,
-- `download` those of the downloader, `started` and `finished` the clock.
pub mod Laws
pub mod World
pub mod Sound
pub mod Failed
pub mod Judged
pub mod Total
use homecluster_infra.Base.{
  ℕ, ◌+◌, ◌*◌, ◌≡◌, refl, String, Bool, true, false, ◌&&◌, not, Option, none, some, List, [], ◌∷◌,
  ◌==◌, string_eq, nat_eq, leb, length, all, find, put, if◌then◌else◌, Result, ok, err,
}
use homecluster_infra.FeedProof.Net.{Network}
use homecluster_infra.FeedProof.Parse.{Canonical, Parsed, parse_feed}
use homecluster_infra.FeedProof.Data.{
  second, epoch, scope_text, Status, verified, error, unknown, Check, Good, Record, Proof, SetView,
  Snapshot, Raised, proof_error, value_error, os_error, key_error, type_error, other_error, Outcome,
  returned, raised, and_then, check_that, reason_or,
}

-- An item of `results`.
pub data FeedResult : Type 0 where
  failed : String → FeedResult
  parsed_as : Parsed → FeedResult

-- `except (ValueError, OSError)`
abbrev pub handled_by_feed : Raised → Bool
handled_by_feed (proof_error reason) = true
handled_by_feed value_error = true
handled_by_feed os_error = true
handled_by_feed _ = false

abbrev pub handled_by_verify : Raised → Bool
handled_by_verify other_error = false
handled_by_verify _ = true

-- `==` of dictionaries and of what they hold.
same_view : SetView → SetView → Bool
same_view v w =
    v.content.canonical_sha256 == w.content.canonical_sha256
    && v.content.count == w.content.count
    && v.set_elements == w.set_elements

has_same : List (String × SetView) → String × SetView → Bool
has_same sets (name, view) = elim (find name sets) [
  | none ↦ false
  | some other ↦ same_view view other
]

unfoldable pub same_snapshot : Snapshot → Snapshot → Bool
unfolding same_view has_same find
same_snapshot s t =
    s.generation == t.generation && length s.sets == length t.sets && all (has_same t.sets) s.sets

-- What is recorded of one feed.
pub record Verdict : Type 0 where
  pub status : Status
  pub reason : String
  pub good : Option Parsed

-- `results`, `before` and `after`; where the reader fails, every result is an error and the two
-- snapshots are not looked at.
pub record Attempt : Type 0 where
  pub results : List (String × FeedResult)
  pub before : Option Snapshot
  pub after : Option Snapshot

abbrev pub all_failed : String → List String → List (String × FeedResult)
all_failed reason [] = []
all_failed reason (name ∷ names) = (name, failed reason) ∷ all_failed reason names

abbrev pub unchanged : Option Snapshot → Option Snapshot → Bool
unchanged none none = true
unchanged (some s) (some t) = same_snapshot s t
unchanged _ _ = false

-- The chain of tests for one feed; a missing set is a `KeyError`.
unfoldable pub judge : String → FeedResult → Option Snapshot → Option Snapshot → Outcome Verdict
judge name (failed reason) before after =
    returned (record { status = error; reason = reason; good = none })
judge name (parsed_as p) before none =
    if unchanged before none
    then raised type_error
    else returned
        (record { status = unknown; reason = "concurrent_set_or_runtime_change"; good = none })
judge name (parsed_as p) before (some now) =
    if not (unchanged before (some now))
    then returned
        (record { status = unknown; reason = "concurrent_set_or_runtime_change"; good = none })
    else elim (find name now.sets) [
      | none ↦ raised key_error
      | some view ↦
          if p.content.canonical_sha256 == view.content.canonical_sha256
          then returned (record { status = verified; reason = "verified"; good = some p })
          else returned
              (record { status = error; reason = "active_set_content_mismatch"; good = none })
    ]

-- `out["feeds"].setdefault(name, {})`
abbrev pub record_of : Option Record → Record
record_of none = record { last_check = none; last_verified = none }
record_of (some r) = r

abbrev pub verified_at : ℕ → Option Parsed → Option Good → Option Good
verified_at now none old = old
verified_at now (some p) old = some (record { parsed = p; at = now; scope = scope_text })

abbrev pub updated : ℕ → Verdict → Record → Record
updated now verdict old = record {
  last_check = some (record { status = verdict.status; reason = verdict.reason; at = now });
  last_verified = verified_at now verdict.good old.last_verified;
}

-- The loop over the feeds at the end of `verify`.
unfoldable pub record_all :
    ℕ → Attempt → List String → List (String × Record) → Outcome (List (String × Record))
unfolding and_then judge find put
record_all now attempt [] feeds = returned feeds
record_all now attempt (name ∷ names) feeds = elim (find name attempt.results) [
  | none ↦ raised key_error
  | some result ↦ and_then (judge name result attempt.before attempt.after) (λ verdict.
      record_all now attempt names
        (put name (updated now verdict (record_of (find name feeds))) feeds))
]

-- `1 second back, 90 forward`: the shift of the clock that is allowed.
abbrev pub clock_steady : ℕ → ℕ → Bool
clock_steady started finished =
    epoch finished finished
    && leb started (finished + second)
    && leb finished (started + 90 * second)

-- `except (ValueError, OSError, KeyError, TypeError, subprocess.SubprocessError)`
unfoldable pub handled : List String → Outcome Attempt → Outcome Attempt
handled names (returned attempt) = returned attempt
handled names (raised e) =
    if handled_by_verify e
    then returned (record {
      results = all_failed (reason_or "snapshot_unavailable" e) names;
      before = none;
      after = none;
    })
    else raised e

module _ (sha256 : List ℕ → String) (is_global : Network → Bool) where
  unfoldable pub feed_result : String → Outcome (List ℕ) → Outcome FeedResult
  unfolding parse_feed
  feed_result name (returned bytes) = elim (parse_feed sha256 is_global name bytes) [
    | ok p ↦ returned (parsed_as p)
    | err reason ↦ returned (failed reason)
  ]
  feed_result name (raised e) =
      if handled_by_feed e then returned (failed (reason_or "feed_download_failed" e)) else raised e

  unfoldable pub download_all :
      (String → Outcome (List ℕ))
      → List String
      → List (String × FeedResult)
      → Outcome (List (String × FeedResult))
  unfolding and_then feed_result put
  download_all download [] results = returned results
  download_all download (name ∷ names) results =
      and_then (feed_result name (download name))
        (λ result. download_all download names (put name result results))

  -- The outer `try` of `verify`.
  unfoldable pub read_world :
      Outcome Snapshot
      → (String → Outcome (List ℕ))
      → Outcome Snapshot
      → List String
      → Outcome Attempt
  unfolding and_then download_all
  read_world before download after names = and_then before (λ s.
      and_then (download_all download names []) (λ results.
        and_then after
          (λ t. returned (record { results = results; before = some s; after = some t }))))

  -- `fixed` says whether the caller gave the time.
  unfoldable pub verify :
      List String
      → Proof
      → Outcome Snapshot
      → (String → Outcome (List ℕ))
      → Outcome Snapshot
      → Bool
      → ℕ
      → ℕ
      → Outcome Proof
  unfolding handled read_world record_all and_then
  verify names prior before download after fixed started finished =
      check_that (epoch started started) "clock_untrusted" (
        and_then (handled names (read_world before download after names)) (λ attempt.
          check_that (if fixed then true else clock_steady started finished)
            "clock_shift_during_verification"
            (and_then (record_all (if fixed then started else finished) attempt names prior.feeds)
              (λ feeds.
                returned (record { definition_sha256 = prior.definition_sha256; feeds = feeds })))))

-- `out["feeds"].setdefault(name, {})["last_check"] = ...` for every feed.
unfoldable pub fail_all : ℕ → String → List String → List (String × Record) → List (String × Record)
unfolding put find
fail_all now reason [] feeds = feeds
fail_all now reason (name ∷ names) feeds = fail_all now reason names (
    put name
      (record {
        last_check = some (record { status = error; reason = reason; at = now });
        last_verified = (record_of (find name feeds)).last_verified;
      })
      feeds)

unfoldable pub failed_check : List String → Proof → String → ℕ → Outcome Proof
unfolding fail_all
failed_check names prior reason now = check_that (epoch now now) "clock_untrusted" (
    returned (record {
      definition_sha256 = prior.definition_sha256;
      feeds = fail_all now reason names prior.feeds;
    }))
