-- ===== src/FeedProof/Verify/Judged.antt =====
-- The loop over the feeds ends with a record for each where every feed has a result to judge.
use homecluster_infra.Base.{
  ℕ, ◌≡◌, refl, inl, inr, String, true, Option, some, List, [], ◌∷◌, ◌==◌, string_eq, eq_iff,
  contains, find, arith, Bool-cases, false-true, All,
}
use homecluster_infra.FeedProof.Data.{Record, SetView, Snapshot, returned, and_then}
use homecluster_infra.FeedProof.Verify.{
  FeedResult, failed, parsed_as, Verdict, Attempt, unchanged, judge, record_all, all_failed,
}

-- Every name has a result, and for a parsed one the set is there to compare with.
abbrev pub IsJudged : Attempt → String → Type 0
IsJudged attempt name =
    (result : FeedResult) × (verdict : Verdict) × (find name attempt.results ≡ some result)
    × (judge name result attempt.before attempt.after ≡ returned verdict)

pub record_all_total :
    (now : ℕ) (attempt : Attempt) (names : List String) (feeds : List (String × Record))
    → All (IsJudged attempt) names
    → (out : List (String × Record)) × (record_all now attempt names feeds ≡ returned out)
unfolding record_all and_then
record_all_total now attempt [] feeds good = (feeds, refl)
record_all_total now attempt (name ∷ names) feeds ((result, verdict, e, f), good) =
    rw (record_all, e, f) (record_all_total now attempt names _ good)

-- The set of every name is in the snapshot.
abbrev pub HasSets : Snapshot → List String → Type 0
HasSets t names = All (λ name. (view : SetView) × (find name t.sets ≡ some view)) names

judge_total :
    (name : String) (result : FeedResult) (before : Option Snapshot) (t : Snapshot) (view : SetView)
    → find name t.sets ≡ some view
    → (verdict : Verdict) × (judge name result before (some t) ≡ returned verdict)
unfolding judge
judge_total name (failed reason) before t view h = (_, refl)
judge_total name (parsed_as p) before t view h = elim (Bool-cases (unchanged before (some t))) [
  | inr e ↦ rw (judge, e) (_, refl)
  | inl e ↦ elim (Bool-cases (p.content.canonical_sha256 == view.content.canonical_sha256)) [
    | inl f ↦ rw (judge, e, h, f) (_, refl)
    | inr f ↦ rw (judge, e, h, f) (_, refl)
  ]
]

pub all_failed-IsJudged :
    (reason : String) (before after : Option Snapshot) (first names : List String)
    → All (λ name. find name (all_failed reason first) ≡ some (failed reason)) names
    → All
        (IsJudged (record { results = all_failed reason first; before = before; after = after }))
        names
unfolding judge
all_failed-IsJudged reason before after first [] good = tt
all_failed-IsJudged reason before after first (name ∷ names) (e, good) =
    ((failed reason, _, e, refl), all_failed-IsJudged reason before after first names good)

pub find-all_failed :
    (reason : String) (names : List String) (name : String)
    → contains names name ≡ true
    → find name (all_failed reason names) ≡ some (failed reason)
unfolding find
find-all_failed reason [] name h = absurd (false-true h)
find-all_failed reason (n ∷ names) name h = elim (Bool-cases (n == name)) [
  | inl e ↦ rw e refl
  | inr e ↦ rw e (find-all_failed reason names name (rw e at h))
]

self_test : (n : String) → (n == n) ≡ true
self_test n = (eq_iff n n).1 refl

pub All-of_contains {ℓ} :
    (P : String → Type ℓ) (names : List String)
    → ((name : String) → contains names name ≡ true → P name)
    → All P names
All-of_contains P [] h = tt
All-of_contains P (n ∷ names) h =
    (h n (rw (self_test n) refl), All-of_contains P names (λ name e. h name (ground arith)))

pub results-IsJudged :
    (results : List (String × FeedResult)) (before : Option Snapshot) (t : Snapshot)
    (names : List String)
    → All (λ name. (r : FeedResult) × (find name results ≡ some r)) names
    → HasSets t names
    → All (IsJudged (record { results = results; before = before; after = some t })) names
results-IsJudged results before t [] found sets = tt
results-IsJudged results before t (name ∷ names) ((r, e), found) ((view, f), sets) =
    let (verdict, judged) = judge_total name r before t view f in
    ((r, verdict, e, judged), results-IsJudged results before t names found sets)
