-- ===== src/FeedProof/Verify/Sound.antt =====
-- A recorded verification is backed, and nothing else is lost.
use homecluster_infra.Base.{
  ℕ, ◌≡◌, sym, subst, ◌∙◌, ap, String, Bool, true, false, some, List, string_eq, nat_eq, contains,
  find, if◌then◌else◌, ok, some-eq,
}
use homecluster_infra.FeedProof.Net.{Network}
use homecluster_infra.FeedProof.Parse.{Parsed, parse_feed}
use homecluster_infra.FeedProof.Data.{
  epoch, scope_text, verified, Check, Record, Proof, SetView, Snapshot, Outcome, returned,
  and_then-eq-returned, check_that-eq-returned, returned-injective,
}
use homecluster_infra.FeedProof.Verify.{
  Attempt, same_snapshot, unchanged, updated, verified_at, record_all, read_world, handled, verify,
  clock_steady,
}
use homecluster_infra.FeedProof.Verify.Laws.{record_all_found, record_all_other, judge-verified}
use homecluster_infra.FeedProof.Verify.World.{read_world-parsed}

module _ (sha256 : List ℕ → String) (is_global : Network → Bool) where
  -- What is behind a record whose last check says `verified`.
  abbrev pub IsBacked :
      String
      → Outcome Snapshot
      → (String → Outcome (List ℕ))
      → Outcome Snapshot
      → Record
      → ℕ
      → Type 0
  IsBacked name before download after r now =
      (s : Snapshot) × (t : Snapshot) × (bytes : List ℕ) × (p : Parsed) × (view : SetView) × (before
        ≡ returned s)
      × (after ≡ returned t)
      × (same_snapshot s t ≡ true)
      × (download name ≡ returned bytes)
      × (parse_feed sha256 is_global name bytes ≡ ok p)
      × (find name t.sets ≡ some view)
      × (p.content.canonical_sha256 ≡ view.content.canonical_sha256)
      × (r.last_verified ≡ some (record { parsed = p; at = now; scope = scope_text }))

  -- What `verify` did when it returned.
  verify-returned :
      (names : List String) (prior : Proof) (before : Outcome Snapshot)
      (download : String → Outcome (List ℕ)) (after : Outcome Snapshot) (fixed : Bool)
      (started finished : ℕ) {out : Proof}
      → verify sha256 is_global names prior before download after fixed started finished
        ≡ returned out
      → (attempt : Attempt) × (handled names
            (read_world sha256 is_global before download after names)
          ≡ returned attempt)
        × (record_all (if fixed then started else finished) attempt names prior.feeds
            ≡ returned out.feeds)
        × (out.definition_sha256 ≡ prior.definition_sha256)
  unfolding verify
  verify-returned names prior before download after fixed started finished {out} h =
      let (clock, h1) = check_that-eq-returned (epoch started started) _ _ h in
      let (attempt, ha, h2) =
        and_then-eq-returned
          (handled names (read_world sha256 is_global before download after names)) _ h1 in
      let (steady, h3) =
        check_that-eq-returned (if fixed then true else clock_steady started finished) _ _ h2 in
      let (feeds, hf, h4) =
        and_then-eq-returned
          (record_all (if fixed then started else finished) attempt names prior.feeds) _ h3 in
      let this = returned-injective h4 in
      (attempt, ha, hf ∙ ap (λ o. returned o.feeds) this, ap (λ o. o.definition_sha256) (sym this))

  -- If `verify` returns and the record of a configured feed then says `verified`, at any time, the
  -- two snapshots were read and equal, the feed was downloaded and parsed, its digest is that of
  -- the active set in the second snapshot, and `last_verified` holds what was parsed, at the time
  -- of the check.
  pub verify-IsBacked :
      (names : List String) (prior : Proof) (before : Outcome Snapshot)
      (download : String → Outcome (List ℕ)) (after : Outcome Snapshot) (fixed : Bool)
      (started finished : ℕ) (out : Proof) (name : String) (r : Record) (c : Check)
      → verify sha256 is_global names prior before download after fixed started finished
        ≡ returned out
      → contains names name ≡ true
      → find name out.feeds ≡ some r
      → r.last_check ≡ some c
      → c.status ≡ verified
      → IsBacked name before download after r c.at
  verify-IsBacked names prior before download after fixed started finished out name r c h known hr
        hc good =
      let now = if fixed then started else finished in
      let (attempt, ha, hf, hd) =
        verify-returned names prior before download after fixed started finished h in
      let (result, verdict, old, found, judged, made) =
        record_all_found now attempt names prior.feeds name known hf in
      let this : updated now verdict old ≡ r = some-eq (sym made ∙ hr) in
      let check : record { status = verdict.status; reason = verdict.reason; at = now } ≡ c =
        some-eq (ap (λ q. q.last_check) this ∙ hc) in
      let (p, t, view, is_parsed, has_after, steady, listed, same, kept) =
        judge-verified name result attempt.before attempt.after judged
          (ap (λ k. k.status) check ∙ good) in
      let (s, t1, bytes, hs, ht, hb, hta, down, read) =
        read_world-parsed sha256 is_global before download after names name ha
          (found ∙ ap some is_parsed) in
      let one : t1 ≡ t = some-eq (sym hta ∙ has_after) in
      let equal : same_snapshot s t ≡ true = subst (λ o. unchanged o (some t) ≡ true) hb steady in
      let kept_good : r.last_verified
          ≡ some (record { parsed = p; at = c.at; scope = scope_text }) =
        ap (λ q. q.last_verified) (sym this)
        ∙ ap (λ g. verified_at now g old.last_verified) kept
        ∙ ap (λ k. some (record { parsed = p; at = k.at; scope = scope_text })) check in
      (
        s,
        t,
        bytes,
        p,
        view,
        hs,
        subst (λ u. after ≡ returned u) one ht,
        equal,
        down,
        read,
        listed,
        same,
        kept_good,
      )

  -- `verify` leaves the record of a feed that is not configured as it was, and the hash of the
  -- definitions.
  pub verify_others_kept :
      (names : List String) (prior : Proof) (before : Outcome Snapshot)
      (download : String → Outcome (List ℕ)) (after : Outcome Snapshot) (fixed : Bool)
      (started finished : ℕ) (out : Proof) (name : String)
      → verify sha256 is_global names prior before download after fixed started finished
        ≡ returned out
      → contains names name ≡ false
      → (find name out.feeds ≡ find name prior.feeds)
        × (out.definition_sha256 ≡ prior.definition_sha256)
  verify_others_kept names prior before download after fixed started finished out name h absent =
      let (attempt, ha, hf, hd) =
        verify-returned names prior before download after fixed started finished h in
      (
        record_all_other (if fixed then started else finished) attempt names prior.feeds name absent
            hf,
        hd,
      )
