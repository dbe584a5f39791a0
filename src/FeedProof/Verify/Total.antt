-- ===== src/FeedProof/Verify/Total.antt =====
-- A verification gives a result, whatever handled error the world answers with.
use homecluster_infra.Base.{
  ℕ, ◌≡◌, refl, sym, subst, ◌∙◌, ◌⊎◌, inl, inr, String, Bool, true, none, some, List, [], ◌∷◌, ◌==◌,
  string_eq, contains, find, put, if◌then◌else◌, arith, Bool-cases, false-true, Result-cases, All,
}
use homecluster_infra.FeedProof.Net.{Network}
use homecluster_infra.FeedProof.Parse.{parse_feed}
use homecluster_infra.FeedProof.Data.{
  epoch, Proof, Snapshot, Outcome, returned, raised, and_then, reason_or, Outcome-cases,
  and_then-eq-returned, returned-injective,
}
use homecluster_infra.FeedProof.Verify.{
  FeedResult, Attempt, feed_result, download_all, read_world, handled, handled_by_verify,
  handled_by_feed, verify, clock_steady,
}
use homecluster_infra.FeedProof.Verify.Laws.{find_skip, find_here}
use homecluster_infra.FeedProof.Verify.World.{read_world-returned}
use homecluster_infra.FeedProof.Verify.Judged.{
  IsJudged, record_all_total, HasSets, all_failed-IsJudged, find-all_failed, All-of_contains,
  results-IsJudged,
}

-- A call that, if it raises, raises what `verify` catches.
abbrev pub IsHandled {ℓ} : {A : Type ℓ} → Outcome A → Type 0
IsHandled (returned a) = Unit
IsHandled (raised e) = handled_by_verify e ≡ true

still_there :
    (n name : String) (names : List String) (first : FeedResult)
    (results : List (String × FeedResult))
    → ((r : FeedResult) × (find name results ≡ some r)) ⊎ (contains (n ∷ names) name ≡ true)
    → ((r : FeedResult) × (find name (put n first results) ≡ some r)) ⊎ (contains names name ≡ true)
still_there n name names first results there = elim (Bool-cases (n == name)) [
  | inl e ↦ inl (first, find_here n name first results e)
  | inr e ↦ elim there [
    | inl (r, f) ↦ inl (r, find_skip n name first results e ∙ f)
    | inr f ↦ inr (rw e at f)
  ]
]

and_then-IsHandled {ℓ κ} :
    {A : Type ℓ} {B : Type κ} (m : Outcome A) (f : A → Outcome B)
    → IsHandled m
    → ((a : A) → IsHandled (f a))
    → IsHandled (and_then m f)
unfolding and_then
and_then-IsHandled (returned a) f h k = k a
and_then-IsHandled (raised e) f h k = h

module _ (sha256 : List ℕ → String) (is_global : Network → Bool) where
  feed_result-IsHandled :
      (name : String) (answer : Outcome (List ℕ))
      → IsHandled answer
      → IsHandled (feed_result sha256 is_global name answer)
  unfolding feed_result
  feed_result-IsHandled name (returned bytes) h =
      elim (Result-cases (parse_feed sha256 is_global name bytes)) [
        | inl (p, e) ↦ rw (feed_result, e) tt
        | inr (reason, e) ↦ rw (feed_result, e) tt
      ]
  feed_result-IsHandled name (raised e) h = elim (Bool-cases (handled_by_feed e)) [
    | inl f ↦ rw (feed_result, f) tt
    | inr f ↦ rw (feed_result, f) h
  ]

  download_all-IsHandled :
      (download : String → Outcome (List ℕ)) (names : List String)
      (results : List (String × FeedResult))
      → All (λ name. IsHandled (download name)) names
      → IsHandled (download_all sha256 is_global download names results)
  unfolding download_all
  download_all-IsHandled download [] results good = tt
  download_all-IsHandled download (name ∷ names) results (h, good) =
      and_then-IsHandled (feed_result sha256 is_global name (download name)) _
        (feed_result-IsHandled name (download name) h)
        (λ result. download_all-IsHandled download names (put name result results) good)

  download_all-keeps :
      (download : String → Outcome (List ℕ)) (names : List String)
      (results out : List (String × FeedResult)) (name : String)
      → download_all sha256 is_global download names results ≡ returned out
      → ((r : FeedResult) × (find name results ≡ some r)) ⊎ (contains names name ≡ true)
      → (r : FeedResult) × (find name out ≡ some r)
  unfolding download_all
  download_all-keeps download [] results out name h (inl (r, e)) =
      (r, subst (λ d. find name d ≡ some r) (returned-injective h) e)
  download_all-keeps download [] results out name h (inr e) = absurd (false-true e)
  download_all-keeps download (n ∷ names) results out name h there =
      let (first, hf, h1) =
        and_then-eq-returned (feed_result sha256 is_global n (download n)) _ h in
      download_all-keeps download names (put n first results) out name h1
        (still_there n name names first results there)

  read_world-IsHandled :
      (before : Outcome Snapshot) (download : String → Outcome (List ℕ)) (after : Outcome Snapshot)
      (names : List String)
      → IsHandled before
      → All (λ name. IsHandled (download name)) names
      → IsHandled after
      → IsHandled (read_world sha256 is_global before download after names)
  unfolding read_world
  read_world-IsHandled before download after names hb hd ha = and_then-IsHandled before _ hb (λ s.
      and_then-IsHandled (download_all sha256 is_global download names []) _
        (download_all-IsHandled download names [] hd)
        (λ results. and_then-IsHandled after _ ha (λ t. tt)))

  attempt_total :
      (before : Outcome Snapshot) (download : String → Outcome (List ℕ)) (after : Outcome Snapshot)
      (names : List String)
      → IsHandled (read_world sha256 is_global before download after names)
      → ((t : Snapshot) → after ≡ returned t → HasSets t names)
      → (attempt : Attempt) × (handled names
            (read_world sha256 is_global before download after names)
          ≡ returned attempt)
        × All (IsJudged attempt) names
  unfolding handled
  attempt_total before download after names h sets =
      elim (Outcome-cases (read_world sha256 is_global before download after names)) [
        | inr (e, r) ↦
            let caught : handled_by_verify e ≡ true = subst IsHandled r h in
            rw (handled, r, caught)
              (
                _,
                refl,
                all_failed-IsJudged (reason_or "snapshot_unavailable" e) none none names names (
                    All-of_contains _ names
                      (find-all_failed (reason_or "snapshot_unavailable" e) names)),
              )
        | inl (made, r) ↦
            let (s, results, t, hs, hd, ht, m) =
              read_world-returned sha256 is_global before download after names r in
            rw (handled, r)
              (
                made,
                refl,
                subst (λ a. All (IsJudged a) names) (sym m)
                    (results-IsJudged results (some s) t names
                      (All-of_contains _ names (λ name known.
                        download_all-keeps download names [] results name hd (inr known)))
                      (sets t ht)),
              )
      ]

  -- `verify` returns a new state if the clock is trusted and does not shift, the two reads and the
  -- downloads raise only what the program catches, if they raise at all, and a second snapshot that
  -- was read has the set of every configured feed.
  pub verify_total :
      (names : List String) (prior : Proof) (before : Outcome Snapshot)
      (download : String → Outcome (List ℕ)) (after : Outcome Snapshot) (fixed : Bool)
      (started finished : ℕ)
      → epoch started started ≡ true
      → (fixed ≡ true) ⊎ (clock_steady started finished ≡ true)
      → IsHandled before
      → All (λ name. IsHandled (download name)) names
      → IsHandled after
      → ((t : Snapshot) → after ≡ returned t → HasSets t names)
      → (out : Proof) × (verify sha256 is_global names prior before download after fixed started
            finished
          ≡ returned out)
  unfolding verify and_then
  verify_total names prior before download after fixed started finished clock steady hb hd ha sets =
      let (attempt, tried, judged) =
        attempt_total before download after names
          (read_world-IsHandled before download after names hb hd ha) sets in
      let (feeds, recorded) =
        record_all_total (if fixed then started else finished) attempt names prior.feeds judged in
      let no_shift : (if fixed then true else clock_steady started finished) ≡ true =
        ground arith in
      rw (clock, tried, no_shift, recorded) (_, refl)
