-- ===== src/FeedProof/Summary.antt =====
-- `summary` of banip_feed_proof.py: what a status report says of the stored proof.
pub mod Laws
use homecluster_infra.Base.{
  ℕ, ◌-◌, ◌/◌, String, ◌<>◌, Bool, true, false, not, Option, none, some, List, [], ◌∷◌, ◌==◌,
  string_eq, ltb, max, any, find, if◌then◌else◌,
}
use homecluster_infra.FeedProof.Data.{
  second, Status, verified, error, unknown, stale, Check, Good, Record, Proof, SetView, Snapshot,
  key_error, value_error, Outcome, returned, raised, and_then,
}
use homecluster_infra.FeedProof.Verify.{record_of}

abbrev pub max_age : ℕ
max_age = 172800

pub record FeedSummary : Type 0 where
  pub feed : String
  pub status : Status
  pub reason : String
  pub verified_at : Option ℕ
  pub age_seconds : Option ℕ
  pub last_verified_count : Option ℕ

pub record Summary : Type 0 where
  pub status : Status
  pub age_seconds : Option ℕ
  pub feeds : List FeedSummary

-- `max(0, int(now - good["at"])) if good else None`
abbrev pub age_of : ℕ → Option Good → Option ℕ
age_of now none = none
age_of now (some good) = some ((now - good.at) / second)

abbrev pub verdict_of : Option Check → Status × String
verdict_of none = (unknown, "proof_missing")
verdict_of (some check) = (check.status, check.reason)

abbrev pub is_verified : Status → Bool
is_verified verified = true
is_verified status = false

abbrev pub same_status : Status → Status → Bool
same_status verified verified = true
same_status error error = true
same_status unknown unknown = true
same_status stale stale = true
same_status s t = false

abbrev both_ages : Option ℕ → Option ℕ → Option ℕ
both_ages (some a) (some b) = some (max a b)
both_ages a b = none

-- The set is compared with the good record; only then may it be missing.
unfoldable pub against_set : ℕ → Good → Option SetView → Outcome (Status × String)
against_set now good none = raised key_error
against_set now good (some view) =
    if not (good.parsed.content.canonical_sha256 == view.content.canonical_sha256)
    then returned (unknown, "current_set_changed")
    else if ltb max_age ((now - good.at) / second)
    then returned (stale, "proof_expired")
    else returned (verified, "verified")

-- The chain of tests for one feed.
unfoldable pub feed_status : ℕ → String → Record → Option Snapshot → Outcome (Status × String)
unfolding against_set find
feed_status now name r none = returned (unknown, "current_snapshot_unavailable")
feed_status now name r (some current) =
    let verdict = verdict_of r.last_check in
    if not (is_verified verdict.0) then returned verdict else elim r.last_verified [
      | none ↦ returned (unknown, "current_set_changed")
      | some good ↦ against_set now good (find name current.sets)
    ]

unfoldable pub feed_summaries :
    ℕ → List String → Proof → Option Snapshot → Outcome (List FeedSummary)
unfolding and_then feed_status find
feed_summaries now [] proof current = returned []
feed_summaries now (name ∷ names) proof current =
    let r = record_of (find name proof.feeds) in
    and_then (feed_status now name r current) (λ verdict.
      and_then (feed_summaries now names proof current) (λ rest. returned (
        record {
          feed = name <> ".v4";
          status = verdict.0;
          reason = verdict.1;
          verified_at = elim r.last_verified [ none ↦ none | some good ↦ some good.at ];
          age_seconds = age_of now r.last_verified;
          last_verified_count = elim r.last_verified [
            | none ↦ none
            | some good ↦ some good.parsed.content.count
          ];
        }
        ∷ rest)))

abbrev pub has_status : Status → FeedSummary → Bool
has_status status f = same_status status f.status

-- The worst of the statuses.
abbrev pub overall_status : List FeedSummary → Status
overall_status feeds =
    if any (has_status error) feeds
    then error
    else if any (has_status unknown) feeds
    then unknown
    else if any (has_status stale) feeds
    then stale
    else verified

-- `max(ages) if len(ages) == len(feeds) else None`; `max` of no ages raises.
abbrev pub oldest : List FeedSummary → Outcome (Option ℕ)
oldest [] = raised value_error
oldest (f ∷ []) = returned f.age_seconds
oldest (f ∷ g ∷ rest) = and_then (oldest (g ∷ rest)) (λ age. returned (both_ages f.age_seconds age))

unfoldable pub summary : ℕ → List String → Proof → Option Snapshot → Outcome Summary
unfolding feed_summaries and_then
summary now names proof current = and_then (feed_summaries now names proof current) (λ feeds.
    and_then (oldest feeds) (λ age.
      returned (record { status = overall_status feeds; age_seconds = age; feeds = feeds })))
