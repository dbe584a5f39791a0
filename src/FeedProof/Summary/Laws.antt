-- ===== src/FeedProof/Summary/Laws.antt =====
-- When a status report says `verified`.
use homecluster_infra.Base.{
  false-true, ℕ, ◌-◌, ◌/◌, ◌≤◌, ◌≡◌, refl, sym, ap, ◌∙◌, inl, inr, String, Bool, true, false, ◌||◌,
  Option, none, some, List, [], ◌∷◌, ◌==◌, string_eq, eq_iff, ltb, any, All, find, if◌then◌else◌,
  arith, Bool-cases, Option-cases,
}
use homecluster_infra.FeedProof.Data.{
  second, Status, verified, error, unknown, stale, Good, Proof, SetView, Snapshot, returned,
  and_then-eq-returned, returned-injective, raised_returned,
}
use homecluster_infra.FeedProof.Verify.{record_of}
use homecluster_infra.FeedProof.Summary.{
  max_age, FeedSummary, Summary, verdict_of, is_verified, against_set, feed_status, feed_summaries,
  overall_status, oldest, summary, has_status, same_status,
}

unknown_verified : unknown ≡ verified → ⊥
unknown_verified h = cc

stale_verified : stale ≡ verified → ⊥
stale_verified h = cc

-- The last check of the feed was a verification, its digest is that of the set in the current
-- snapshot, and it is at most 48 hours old.
abbrev pub IsCurrent : ℕ → Snapshot → Proof → String → Type 0
IsCurrent now current proof name =
    (good : Good) × (view : SetView) × ((verdict_of
        (record_of (find name proof.feeds)).last_check).0
      ≡ verified)
    × ((record_of (find name proof.feeds)).last_verified ≡ some good)
    × (find name current.sets ≡ some view)
    × (good.parsed.content.canonical_sha256 ≡ view.content.canonical_sha256)
    × ((now - good.at) / second ≤ max_age)

against_set-verified :
    (now : ℕ) (good : Good) (view : SetView) {v : Status × String}
    → against_set now good (some view) ≡ returned v
    → v.0 ≡ verified
    → (good.parsed.content.canonical_sha256 ≡ view.content.canonical_sha256)
      × ((now - good.at) / second ≤ max_age)
unfolding against_set
against_set-verified now good view {v} h fine =
    elim (Bool-cases (good.parsed.content.canonical_sha256 == view.content.canonical_sha256)) [
      | inr e ↦
          absurd (
            unknown_verified (ap (λ w. w.0) (returned-injective (rw (against_set, e) at h)) ∙ fine))
      | inl e ↦ elim (Bool-cases (ltb max_age ((now - good.at) / second))) [
        | inl f ↦ absurd (
            stale_verified
              (ap (λ w. w.0) (returned-injective (rw (against_set, e, f) at h)) ∙ fine))
        | inr f ↦ ((eq_iff _ _).0 e, ground arith)
      ]
    ]

is_verified-eq : (s : Status) → is_verified s ≡ true → s ≡ verified
is_verified-eq verified h = refl
is_verified-eq error h = cc
is_verified-eq unknown h = cc
is_verified-eq stale h = cc

feed_status-verified :
    (now : ℕ) (name : String) (proof : Proof) (current : Option Snapshot) {v : Status × String}
    → feed_status now name (record_of (find name proof.feeds)) current ≡ returned v
    → v.0 ≡ verified
    → (here : Snapshot) × (current ≡ some here) × IsCurrent now here proof name
unfolding feed_status
feed_status-verified now name proof none {v} h fine =
    absurd (unknown_verified (ap (λ w. w.0) (returned-injective h) ∙ fine))
feed_status-verified now name proof (some current) {v} h fine =
    let r = record_of (find name proof.feeds) in
    elim (Bool-cases (is_verified (verdict_of r.last_check).0)) [
      | inr e ↦
          let this = returned-injective (rw (feed_status, e) at h) in
          absurd (false-true (sym e ∙ ap (λ w. is_verified w.0) this ∙ ap is_verified fine))
      | inl e ↦ elim (Option-cases r.last_verified) [
        | inl f ↦ absurd (
            unknown_verified
              (ap (λ w. w.0) (returned-injective (rw (feed_status, e, f) at h)) ∙ fine))
        | inr (good, f) ↦ elim (Option-cases (find name current.sets)) [
          | inl g ↦ absurd (raised_returned (rw (feed_status, e, f, g, against_set) at h))
          | inr (view, g) ↦
              let (same, young) =
                against_set-verified now good view (rw (feed_status, e, f, g) at h) fine in
              (current, refl, (good, view, is_verified-eq _ e, f, g, same, young))
        ]
      ]
    ]

error_verified : error ≡ verified → ⊥
error_verified h = cc

none_bad :
    (s : Status) (e u t : Bool)
    → (if same_status error s || e
        then error
        else if same_status unknown s || u
        then unknown
        else if same_status stale s || t
        then stale
        else verified)
      ≡ verified
    → (s ≡ verified)
      × ((if e then error else if u then unknown else if t then stale else verified) ≡ verified)
none_bad verified e u t h = (refl, h)
none_bad error e u t h = absurd (error_verified h)
none_bad unknown true u t h = absurd (error_verified h)
none_bad unknown false u t h = absurd (unknown_verified h)
none_bad stale true u t h = absurd (error_verified h)
none_bad stale false true t h = absurd (unknown_verified h)
none_bad stale false false t h = absurd (stale_verified h)

feed_summaries-verified :
    (now : ℕ) (names : List String) (proof : Proof) (current : Option Snapshot)
    {feeds : List FeedSummary}
    → feed_summaries now names proof current ≡ returned feeds
    → overall_status feeds ≡ verified
    → All (λ name. (here : Snapshot) × (current ≡ some here) × IsCurrent now here proof name) names
unfolding feed_summaries
feed_summaries-verified now [] proof current h fine = tt
feed_summaries-verified now (name ∷ names) proof current {feeds} h fine =
    let r = record_of (find name proof.feeds) in
    let (verdict, hv, h1) = and_then-eq-returned (feed_status now name r current) _ h in
    let (rest, hr, h2) = and_then-eq-returned (feed_summaries now names proof current) _ h1 in
    let (first, others) =
      none_bad verdict.0 (any (has_status error) rest) (any (has_status unknown) rest)
        (any (has_status stale) rest) (ap overall_status (returned-injective h2) ∙ fine) in
    (
      feed_status-verified now name proof current hv first,
      feed_summaries-verified now names proof current hr others,
    )

-- A summary says `verified` only if the current snapshot could be read and, for every configured
-- feed, the last check was a verification, its digest is that of the set in the current snapshot,
-- and it is at most 48 hours old.
pub summary-IsCurrent :
    (now : ℕ) (names : List String) (proof : Proof) (current : Option Snapshot) (s : Summary)
    → summary now names proof current ≡ returned s
    → s.status ≡ verified
    → All (λ name. (here : Snapshot) × (current ≡ some here) × IsCurrent now here proof name) names
unfolding summary
summary-IsCurrent now names proof current s h fine =
    let (feeds, hf, h1) = and_then-eq-returned (feed_summaries now names proof current) _ h in
    let (age, ha, h2) = and_then-eq-returned (oldest feeds) _ h1 in
    feed_summaries-verified now names proof current hf
      (ap (λ q. q.status) (returned-injective h2) ∙ fine)
