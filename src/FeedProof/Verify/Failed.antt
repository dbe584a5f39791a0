-- ===== src/FeedProof/Verify/Failed.antt =====
-- What `failed_check` records.
use homecluster_infra.Base.{
  false-true, ℕ, ◌≡◌, refl, sym, ◌∙◌, ap, inl, inr, String, true, false, Option, some, List, [],
  ◌∷◌, ◌==◌, string_eq, eq_iff, contains, find, put, arith, Bool-cases,
}
use homecluster_infra.FeedProof.Data.{
  epoch, error, Record, Proof, returned, check_that-eq-returned, returned-injective,
}
use homecluster_infra.FeedProof.Verify.{record_of, fail_all, failed_check}
use homecluster_infra.FeedProof.Verify.Laws.{find_skip, find_here}

abbrev pub failed_record : String → ℕ → Option Record → Record
failed_record reason now old = record {
  last_check = some (record { status = error; reason = reason; at = now });
  last_verified = (record_of old).last_verified;
}

-- One step leaves every `last_verified` as it was.
last_verified_kept :
    (reason : String) (now : ℕ) (n name : String) (feeds : List (String × Record))
    → (record_of (find name (put n (failed_record reason now (find n feeds)) feeds))).last_verified
      ≡ (record_of (find name feeds)).last_verified
last_verified_kept reason now n name feeds = elim (Bool-cases (n == name)) [
  | inl e ↦
      let same : n ≡ name = (eq_iff n name).0 e in
      ap (λ o. (record_of o).last_verified) (find_here n name _ feeds e)
      ∙ ap (λ k. (record_of (find k feeds)).last_verified) same
  | inr e ↦ ap (λ o. (record_of o).last_verified) (find_skip n name _ feeds e)
]

fail_all-other :
    (now : ℕ) (reason : String) (names : List String) (feeds : List (String × Record))
    (name : String)
    → contains names name ≡ false
    → find name (fail_all now reason names feeds) ≡ find name feeds
unfolding fail_all
fail_all-other now reason [] feeds name out_of = refl
fail_all-other now reason (n ∷ names) feeds name out_of =
    fail_all-other now reason names _ name (ground arith) ∙ find_skip n name _ feeds (ground arith)

fail_all-found :
    (now : ℕ) (reason : String) (names : List String) (feeds : List (String × Record))
    (name : String)
    → contains names name ≡ true
    → find name (fail_all now reason names feeds)
      ≡ some (failed_record reason now (find name feeds))
unfolding fail_all
fail_all-found now reason [] feeds name in_it = absurd (false-true in_it)
fail_all-found now reason (n ∷ names) feeds name in_it = elim (Bool-cases (contains names name)) [
  | inl later ↦
      fail_all-found now reason names _ name later
      ∙ ap
          (λ good. some (record {
            last_check = some (record { status = error; reason = reason; at = now });
            last_verified = good;
          }))
          (last_verified_kept reason now n name feeds)
  | inr last ↦
      let here : (n == name) ≡ true = ground arith in
      fail_all-other now reason names _ name last
      ∙ find_here n name _ feeds here
      ∙ ap (λ k. some (failed_record reason now (find k feeds))) ((eq_iff n name).0 here)
]

-- If `failed_check` returns, the record of each configured feed says that the check failed, with
-- the given reason and the time of the call, and its `last_verified` is what it was before.
pub failed_check-record :
    (names : List String) (prior : Proof) (reason : String) (now : ℕ) (out : Proof) (name : String)
    → failed_check names prior reason now ≡ returned out
    → contains names name ≡ true
    → find name out.feeds ≡ some (failed_record reason now (find name prior.feeds))
unfolding failed_check
failed_check-record names prior reason now out name h in_it =
    let (clock, h1) = check_that-eq-returned (epoch now now) _ _ h in
    ap (λ o. find name o.feeds) (sym (returned-injective h1))
    ∙ fail_all-found now reason names prior.feeds name in_it
