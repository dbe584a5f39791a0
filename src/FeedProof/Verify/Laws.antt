-- ===== src/FeedProof/Verify/Laws.antt =====
-- What a verification records.
use homecluster_infra.Base.{
  false-true, ℕ, ◌≡◌, refl, sym, subst, ◌∙◌, ap, inl, inr, String, true, false, Option, none, some,
  List, [], ◌∷◌, ◌==◌, string_eq, nat_eq, eq_iff, contains, find, put, find-put, arith, Bool-cases,
  Option-cases,
}
use homecluster_infra.FeedProof.Parse.{Parsed}
use homecluster_infra.FeedProof.Data.{
  verified, error, unknown, Record, SetView, Snapshot, returned, raised_returned,
  and_then-eq-returned, returned-injective,
}
use homecluster_infra.FeedProof.Verify.{
  FeedResult, failed, parsed_as, Verdict, Attempt, unchanged, judge, record_of, updated, record_all,
}

pub find_skip :
    {A : Type 0} (n name : String) (r : A) (feeds : List (String × A))
    → (n == name) ≡ false
    → find name (put n r feeds) ≡ find name feeds
find_skip n name r feeds h = find-put name n r feeds ∙ rw h refl

pub find_here :
    {A : Type 0} (n name : String) (r : A) (feeds : List (String × A))
    → (n == name) ≡ true
    → find name (put n r feeds) ≡ some r
find_here n name r feeds h = find-put name n r feeds ∙ rw h refl

-- A feed that is not among the names keeps its record.
pub record_all_other :
    (now : ℕ) (attempt : Attempt) (names : List String) (feeds : List (String × Record))
    {out : List (String × Record)} (name : String)
    → contains names name ≡ false
    → record_all now attempt names feeds ≡ returned out
    → find name out ≡ find name feeds
unfolding record_all
record_all_other now attempt [] feeds name out_of h = ap (find name) (sym (returned-injective h))
record_all_other now attempt (n ∷ names) feeds name out_of h =
    elim (Option-cases (find n attempt.results)) [
      | inl e ↦ absurd (raised_returned (rw (record_all, e) at h))
      | inr (result, e) ↦
          let (verdict, hv, h1) =
            and_then-eq-returned (judge n result attempt.before attempt.after) _
              (rw (record_all, e) at h) in
          record_all_other now attempt names _ name (ground arith) h1
          ∙ find_skip n name _ feeds (ground arith)
    ]

-- A feed among the names gets the record of its verdict.
pub record_all_found :
    (now : ℕ) (attempt : Attempt) (names : List String) (feeds : List (String × Record))
    {out : List (String × Record)} (name : String)
    → contains names name ≡ true
    → record_all now attempt names feeds ≡ returned out
    → (result : FeedResult) × (verdict : Verdict) × (old : Record) × (find name attempt.results
        ≡ some result)
      × (judge name result attempt.before attempt.after ≡ returned verdict)
      × (find name out ≡ some (updated now verdict old))
unfolding record_all
record_all_found now attempt [] feeds name in_it h = absurd (false-true in_it)
record_all_found now attempt (n ∷ names) feeds name in_it h =
    elim (Option-cases (find n attempt.results)) [
      | inl e ↦ absurd (raised_returned (rw (record_all, e) at h))
      | inr (result, e) ↦
          let (verdict, hv, h1) =
            and_then-eq-returned (judge n result attempt.before attempt.after) _
              (rw (record_all, e) at h) in
          elim (Bool-cases (contains names name)) [
            | inl later ↦ record_all_found now attempt names _ name later h1
            | inr last ↦
                let here : (n == name) ≡ true = ground arith in
                let same : n ≡ name = (eq_iff n name).0 here in
                (
                  result,
                  verdict,
                  record_of (find n feeds),
                  subst (λ k. find k attempt.results ≡ some result) same e,
                  subst (λ k. judge k result attempt.before attempt.after ≡ returned verdict) same
                      hv,
                  record_all_other now attempt names _ name last h1 ∙ find_here n name _ feeds here,
                )
          ]
    ]

other_status : (v w : Verdict) → returned w ≡ returned v → v.status ≡ verified → w.status ≡ verified
other_status v w h good = ap (λ u. u.status) (returned-injective h) ∙ good

error_verified : error ≡ verified → ⊥
error_verified h = cc

unknown_verified : unknown ≡ verified → ⊥
unknown_verified h = cc

-- What stands behind a verdict `verified`.
pub judge-verified :
    (name : String) (result : FeedResult) (before after : Option Snapshot) {v : Verdict}
    → judge name result before after ≡ returned v
    → v.status ≡ verified
    → (p : Parsed) × (t : Snapshot) × (view : SetView) × (result ≡ parsed_as p)
      × (after ≡ some t)
      × (unchanged before (some t) ≡ true)
      × (find name t.sets ≡ some view)
      × (p.content.canonical_sha256 ≡ view.content.canonical_sha256)
      × (v.good ≡ some p)
unfolding judge
judge-verified name (failed reason) before after {v} h good =
    absurd (error_verified (other_status v _ h good))
judge-verified name (parsed_as p) before none {v} h good =
    elim (Bool-cases (unchanged before none)) [
      | inl e ↦ absurd (raised_returned (rw (judge, e) at h))
      | inr e ↦ absurd (unknown_verified (other_status v _ (rw (judge, e) at h) good))
    ]
judge-verified name (parsed_as p) before (some t) {v} h good =
    elim (Bool-cases (unchanged before (some t))) [
      | inr e ↦ absurd (unknown_verified (other_status v _ (rw (judge, e) at h) good))
      | inl e ↦ elim (Option-cases (find name t.sets)) [
        | inl f ↦ absurd (raised_returned (rw (judge, e, f) at h))
        | inr (view, f) ↦
            elim (Bool-cases (p.content.canonical_sha256 == view.content.canonical_sha256)) [
              | inr g ↦ absurd (error_verified (other_status v _ (rw (judge, e, f, g) at h) good))
              | inl g ↦
                  let this = returned-injective (rw (judge, e, f, g) at h) in
                  (p, t, view, refl, refl, e, f, (eq_iff _ _).0 g, sym (ap (λ u. u.good) this))
            ]
      ]
    ]
