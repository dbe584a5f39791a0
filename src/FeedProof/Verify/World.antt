-- ===== src/FeedProof/Verify/World.antt =====
-- Where the results of a verification come from.
use homecluster_infra.Base.{
  none-some, ℕ, ◌≡◌, refl, sym, subst, ◌∙◌, ap, ◌⊎◌, inl, inr, String, Bool, some, List, [], ◌∷◌,
  ◌==◌, string_eq, nat_eq, eq_iff, find, put, ok, Result-cases, Bool-cases, some-eq,
}
use homecluster_infra.FeedProof.Net.{Network}
use homecluster_infra.FeedProof.Parse.{Parsed, parse_feed}
use homecluster_infra.FeedProof.Data.{
  Snapshot, Outcome, returned, raised, raised_returned, reason_or, Outcome-cases,
  and_then-eq-returned, returned-injective,
}
use homecluster_infra.FeedProof.Verify.{
  FeedResult, failed, parsed_as, Attempt, feed_result, download_all, read_world, handled,
  handled_by_feed, handled_by_verify, all_failed,
}
use homecluster_infra.FeedProof.Verify.Laws.{find_skip, find_here}

failed_parsed : {reason : String} {p : Parsed} → failed reason ≡ parsed_as p → ⊥
failed_parsed h = cc

parsed_as-injective : {p q : Parsed} → parsed_as p ≡ parsed_as q → p ≡ q
parsed_as-injective h = cc

find-all_failed :
    (reason name : String) (names : List String) {p : Parsed}
    → find name (all_failed reason names) ≡ some (parsed_as p)
    → ⊥
unfolding find
find-all_failed reason name [] h = cc
find-all_failed reason name (n ∷ names) h = elim (Bool-cases (n == name)) [
  | inl e ↦ absurd (failed_parsed (some-eq (rw e at h)))
  | inr e ↦ find-all_failed reason name names (rw e at h)
]

module _ (sha256 : List ℕ → String) (is_global : Network → Bool) where
  -- Every result comes from a download.
  download_all_found :
      (download : String → Outcome (List ℕ)) (names : List String)
      (results : List (String × FeedResult)) {out : List (String × FeedResult)} (name : String)
      {result : FeedResult}
      → download_all sha256 is_global download names results ≡ returned out
      → find name out ≡ some result
      → (find name results ≡ some result)
        ⊎ (feed_result sha256 is_global name (download name) ≡ returned result)
  unfolding download_all
  download_all_found download [] results name {result} h found =
      inl (subst (λ d. find name d ≡ some result) (sym (returned-injective h)) found)
  download_all_found download (n ∷ names) results name {result} h found =
      let (first, hf, h1) =
        and_then-eq-returned (feed_result sha256 is_global n (download n)) _ h in
      elim (download_all_found download names (put n first results) name h1 found) [
        | inr down ↦ inr down
        | inl kept ↦ elim (Bool-cases (n == name)) [
          | inl e ↦
              let same : n ≡ name = (eq_iff n name).0 e in
              let this : first ≡ result = some-eq (sym (find_here n name first results e) ∙ kept) in
              inr (
                subst (λ r. feed_result sha256 is_global name (download name) ≡ returned r) this
                  (subst (λ k. feed_result sha256 is_global k (download k) ≡ returned first) same
                    hf))
          | inr e ↦ inl (sym (find_skip n name first results e) ∙ kept)
        ]
      ]

  feed_result-parsed :
      (name : String) (answer : Outcome (List ℕ)) {p : Parsed}
      → feed_result sha256 is_global name answer ≡ returned (parsed_as p)
      → (bytes : List ℕ) × (answer ≡ returned bytes)
        × (parse_feed sha256 is_global name bytes ≡ ok p)
  unfolding feed_result
  feed_result-parsed name (returned bytes) {p} h =
      elim (Result-cases (parse_feed sha256 is_global name bytes)) [
        | inl (q, e) ↦
            let this : q ≡ p =
              parsed_as-injective (returned-injective (rw (feed_result, e) at h)) in
            (bytes, refl, e ∙ ap ok this)
        | inr (reason, e) ↦ absurd (failed_parsed (returned-injective (rw (feed_result, e) at h)))
      ]
  feed_result-parsed name (raised e) h = elim (Bool-cases (handled_by_feed e)) [
    | inl f ↦ absurd (failed_parsed (returned-injective (rw (feed_result, f) at h)))
    | inr f ↦ absurd (raised_returned (rw (feed_result, f) at h))
  ]

  pub read_world-returned :
      (before : Outcome Snapshot) (download : String → Outcome (List ℕ)) (after : Outcome Snapshot)
      (names : List String) {made : Attempt}
      → read_world sha256 is_global before download after names ≡ returned made
      → (s : Snapshot) × (results : List (String × FeedResult)) × (t : Snapshot) × (before
          ≡ returned s)
        × (download_all sha256 is_global download names [] ≡ returned results)
        × (after ≡ returned t)
        × (made ≡ record { results = results; before = some s; after = some t })
  unfolding read_world
  read_world-returned before download after names h =
      let (s, hs, h1) = and_then-eq-returned before _ h in
      let (results, hd, h2) =
        and_then-eq-returned (download_all sha256 is_global download names []) _ h1 in
      let (t, ht, h3) = and_then-eq-returned after _ h2 in
      (s, results, t, hs, hd, ht, sym (returned-injective h3))

  -- A result with a content comes from two snapshots and a download that returned.
  pub read_world-parsed :
      (before : Outcome Snapshot) (download : String → Outcome (List ℕ)) (after : Outcome Snapshot)
      (names : List String) {attempt : Attempt} (name : String) {p : Parsed}
      → handled names (read_world sha256 is_global before download after names) ≡ returned attempt
      → find name attempt.results ≡ some (parsed_as p)
      → (s : Snapshot) × (t : Snapshot) × (bytes : List ℕ) × (before ≡ returned s)
        × (after ≡ returned t)
        × (attempt.before ≡ some s)
        × (attempt.after ≡ some t)
        × (download name ≡ returned bytes)
        × (parse_feed sha256 is_global name bytes ≡ ok p)
  unfolding handled find
  read_world-parsed before download after names {attempt} name {p} h found =
      elim (Outcome-cases (read_world sha256 is_global before download after names)) [
        | inr (e, r) ↦ elim (Bool-cases (handled_by_verify e)) [
          | inr f ↦ absurd (raised_returned (rw (handled, r, f) at h))
          | inl f ↦
              let this = returned-injective (rw (handled, r, f) at h) in
              absurd (
                find-all_failed (reason_or "snapshot_unavailable" e) name names
                  (subst (λ a. find name a.results ≡ some (parsed_as p)) (sym this) found))
        ]
        | inl (made, r) ↦
            let this : made ≡ attempt = returned-injective (rw (handled, r) at h) in
            let (s, results, t, hs, hd, ht, m) =
              read_world-returned before download after names r in
            let same : record { results = results; before = some s; after = some t } ≡ attempt =
              sym m ∙ this in
            let found_here : find name results ≡ some (parsed_as p) =
              subst (λ a. find name a.results ≡ some (parsed_as p)) (sym same) found in
            elim (download_all_found download names [] name hd found_here) [
              | inl none_there ↦ absurd (none-some none_there)
              | inr down ↦
                  let (bytes, answered, read) = feed_result-parsed name (download name) down in
                  (
                    s,
                    t,
                    bytes,
                    hs,
                    ht,
                    ap (λ a. a.before) (sym same),
                    ap (λ a. a.after) (sym same),
                    answered,
                    read,
                  )
            ]
      ]
