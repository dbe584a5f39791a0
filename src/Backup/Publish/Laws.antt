-- ===== src/Backup/Publish/Laws.antt =====
-- What a backup that succeeds has checked, and what one that fails leaves.
use homecluster_infra.Base.{
  ℕ, ◌≡◌, inl, inr, ◌⊎◌, ◌>>◌, ◌>>=◌, refl, sym, ap, ◌∙◌, String, false, not, none, List, [], ◌∷◌,
  ◌==◌, bytes_eq, bytes_beq_iff, is_empty, find, put, string_eq, Result, ok, err, arith, eq_iff,
  Bool-cases, >>=-eq-ok, require-eq-ok, ok-injective, err-ok, not-true, none-some,
}
use homecluster_infra.Backup.Mounts.{Expected, validate_mounts}
use homecluster_infra.Backup.Mounts.Laws.{IsMounted, validate_mounts-IsMounted}
use homecluster_infra.Backup.Publish.{
  Files, remove, Answers, check_before, make_partial, finish_backup, replaced, remove_partial,
  rename_partial, publish, with_partial, with_staging, backup,
}

-- A new file that is removed leaves no trace.
remove-put :
    (k : String) (v : List ℕ) (files : Files)
    → find k files ≡ none
    → remove k (put k v files) ≡ files
unfolding remove put find
remove-put k v [] new = ground (arith, eq_iff k k)
remove-put k v ((j, w) ∷ files) new = elim (Bool-cases (j == k)) [
  | inl e ↦ absurd (none-some (sym (rw e at new)))
  | inr e ↦ rw (e, e) (ap (λ r. (j, w) ∷ r) (remove-put k v files (rw e at new)))
]

-- What holds where the checks succeed.
check_before-ok :
    (e : Expected) (a : Answers) {token : List ℕ}
    → check_before e a ≡ ok token
    → (validate_mounts e a.before ≡ ok tt) × (a.token_before ≡ ok token) × (is_empty token ≡ false)
unfolding check_before
check_before-ok e a h =
    let (_, h1) = require-eq-ok a.good_recipient _ _ h in
    let (_, h2) = require-eq-ok a.good_data_dir _ _ h1 in
    let (_, h3) = require-eq-ok a.good_destination _ _ h2 in
    let (_, first, h4) = >>=-eq-ok (validate_mounts e a.before) _ h3 in
    let (_, h5) = require-eq-ok a.regular_files _ _ h4 in
    let (_, h6) = require-eq-ok a.age_found _ _ h5 in
    let (token, token_read, h7) = >>=-eq-ok a.token_before _ h6 in
    let (some_token, h8) = require-eq-ok (not (is_empty token)) _ _ h7 in
    let (_, _, h9) = >>=-eq-ok a.staging _ h8 in
    let this = ok-injective h9 in
    (first, token_read ∙ ap ok this, ap is_empty (sym this) ∙ not-true (is_empty token) some_token)

make_partial-ok :
    (e : Expected) (a : Answers) (token : List ℕ) {partial : String}
    → make_partial e a token ≡ ok partial
    → (a.token_after ≡ ok token)
      × (validate_mounts e a.during ≡ ok tt)
      × (a.partial_name ≡ ok partial)
unfolding make_partial
make_partial-ok e a token h =
    let (_, _, h1) = >>=-eq-ok a.snapshot _ h in
    let (later, later_read, h2) = >>=-eq-ok a.token_after _ h1 in
    let (same, h3) = require-eq-ok (later == token) _ _ h2 in
    let (_, _, hashed) = >>=-eq-ok a.hashed _ h3 in
    let (_, second, h4) = >>=-eq-ok (validate_mounts e a.during) _ hashed in
    (later_read ∙ ap ok ((bytes_beq_iff later token).0 same), second, h4)

finish_backup-ok :
    (e : Expected) (a : Answers)
    → finish_backup e a ≡ ok tt
    → (a.encrypted.1 ≡ ok tt) × (validate_mounts e a.after ≡ ok tt) × (a.renamed ≡ ok tt)
unfolding finish_backup
finish_backup-ok e a h =
    let (_, encrypted, h1) = >>=-eq-ok a.encrypted.1 _ h in
    let (_, valid, h2) = >>=-eq-ok (validate_mounts e a.after) _ h1 in (encrypted, valid, h2)

-- An exception of a sequence whose rest does not raise is that of its start.
raised_first :
    (cleaned : Result (Unit {0})) (name : String) {reason : String}
    → (cleaned >> ok name) ≡ err reason
    → cleaned ≡ err reason
unfolding ◌>>=◌
raised_first (ok done) name h = absurd (err-ok (sym h))
raised_first (err e) name h = cc

-- What a published backup rests on.
abbrev pub IsPublished : Expected → Answers → Files → Files → Type 0
IsPublished e a files after =
    IsMounted e a.before
    × IsMounted e a.during
    × IsMounted e a.after
    × (token : List ℕ) × (a.token_before ≡ ok token)
    × (a.token_after ≡ ok token)
    × (is_empty token ≡ false)
    × (a.encrypted.1 ≡ ok tt)
    × (after ≡ put a.name a.encrypted.0 files)

-- The destination with a partial file that could not be removed.
abbrev pub KeepsPartial : Answers → Files → Files → Type 0
KeepsPartial a files after =
    (partial : String) × (reason : String) × (a.partial_name ≡ ok partial)
    × (a.unlinked ≡ err reason)
    × (after ≡ put partial a.encrypted.0 files)

abbrev IsRaised : Result String → Type 0
IsRaised r = (reason : String) × (r ≡ err reason)

-- What becomes of the destination: nothing, a partial file where removing it failed, or the finished
-- file after all the checks.
abbrev Ends : Expected → Answers → Files → Files × Result String → Type 0
Ends e a files r =
    ((r.0 ≡ files) × IsRaised r.1)
    ⊎ ((KeepsPartial a files r.0 × IsRaised r.1)
        ⊎ (IsPublished e a files r.0 × (r.1 ≡ (a.cleaned >> ok a.name))))

remove_partial-ends :
    (partial : String) (bytes : List ℕ) (reason : String) (unlinked : Result (Unit {0}))
    (files : Files)
    → find partial files ≡ none
    → let r = remove_partial partial bytes reason unlinked files in
      ((r.0 ≡ files) ⊎ ((e : String) × (unlinked ≡ err e) × (r.0 ≡ put partial bytes files)))
      × IsRaised r.1
unfolding remove_partial
remove_partial-ends partial bytes reason (ok done) files new =
    (inl (remove-put partial bytes files new), (reason, refl))
remove_partial-ends partial bytes reason (err e) files new = (inr (e, refl, refl), (e, refl))

rename_partial-ends :
    (partial name : String) (bytes : List ℕ) (cleaned : Result (Unit {0})) (files : Files)
    → find partial files ≡ none
    → ((rename_partial partial name bytes cleaned files).0 ≡ put name bytes files)
      × ((rename_partial partial name bytes cleaned files).1 ≡ (cleaned >> ok name))
unfolding rename_partial ◌>>=◌
rename_partial-ends partial name bytes (ok done) files new =
    (ap (put name bytes) (remove-put partial bytes files new), refl)
rename_partial-ends partial name bytes (err e) files new =
    (ap (put name bytes) (remove-put partial bytes files new), refl)

publish-Ends :
    (e : Expected) (a : Answers) (partial : String) (done : Result (Unit {0})) (files : Files)
    (token : List ℕ)
    → a.partial_name ≡ ok partial
    → find partial files ≡ none
    → IsMounted e a.before
    → IsMounted e a.during
    → a.token_before ≡ ok token
    → a.token_after ≡ ok token
    → is_empty token ≡ false
    → finish_backup e a ≡ done
    → Ends e a files (publish a partial done files)
unfolding publish
publish-Ends e a partial (err reason) files token named new first second before later some_token h =
    let (after, raised) =
      remove_partial-ends partial a.encrypted.0 (replaced reason a.cleaned) a.unlinked files new in
    elim after [
      | inl same ↦ inl (same, raised)
      | inr (why, stuck, kept) ↦ inr (inl ((partial, why, named, stuck, kept), raised))
    ]
publish-Ends e a partial (ok done) files token named new first second before later some_token h =
    let (encrypted, third, _) = finish_backup-ok e a h in
    let (after, result) = rename_partial-ends partial a.name a.encrypted.0 a.cleaned files new in
    inr (
      inr (
        (
          first,
          second,
          validate_mounts-IsMounted e a.after third,
          token,
          before,
          later,
          some_token,
          encrypted,
          after,
        ),
        result,
      ))

with_partial-Ends :
    (e : Expected) (a : Answers) (token : List ℕ) (made : Result String) (files : Files)
    → ((partial : String) → a.partial_name ≡ ok partial → find partial files ≡ none)
    → IsMounted e a.before
    → a.token_before ≡ ok token
    → is_empty token ≡ false
    → make_partial e a token ≡ made
    → Ends e a files (with_partial e a made files)
unfolding with_partial
with_partial-Ends e a token (err reason) files new first before some_token h =
    inl (refl, (replaced reason a.cleaned, refl))
with_partial-Ends e a token (ok partial) files new first before some_token h =
    let (later, second, named) = make_partial-ok e a token h in
    publish-Ends e a partial (finish_backup e a) files token named (new partial named) first
      (validate_mounts-IsMounted e a.during second) before later some_token refl

with_staging-Ends :
    (e : Expected) (a : Answers) (checked : Result (List ℕ)) (files : Files)
    → ((partial : String) → a.partial_name ≡ ok partial → find partial files ≡ none)
    → check_before e a ≡ checked
    → Ends e a files (with_staging e a checked files)
unfolding with_staging
with_staging-Ends e a (err reason) files new h = inl (refl, (reason, refl))
with_staging-Ends e a (ok token) files new h =
    let (first, before, some_token) = check_before-ok e a h in
    with_partial-Ends e a token (make_partial e a token) files new
      (validate_mounts-IsMounted e a.before first) before some_token refl

-- What a backup that raises leaves at its destination, if the name of the partial file was new: the
-- files as they were; or, where removing the partial file raises, those and the partial file; or,
-- where removing the temporary directory raises after the file has its name, what a backup that
-- succeeds leaves, all checks done.
pub backup-raised :
    (e : Expected) (a : Answers) (files : Files) {reason : String}
    → ((partial : String) → a.partial_name ≡ ok partial → find partial files ≡ none)
    → (backup e a files).1 ≡ err reason
    → ((backup e a files).0 ≡ files)
      ⊎ (KeepsPartial a files (backup e a files).0
          ⊎ (IsPublished e a files (backup e a files).0 × (a.cleaned ≡ err reason)))
unfolding backup
backup-raised e a files new h = elim (with_staging-Ends e a (check_before e a) files new refl) [
  | inl (same, raised) ↦ inl same
  | inr (inl (kept, raised)) ↦ inr (inl kept)
  | inr (inr (published, result)) ↦
      inr (inr (published, raised_first a.cleaned a.name (sym result ∙ h)))
]

-- A backup that returns has the name that was chosen, and its destination was, before the snapshot,
-- after it and just before the file gets its name, on the mount that the operator names, with the
-- type and source that the operator names, a type that lasts, and not on the root; the token was
-- not empty and the same before and after the snapshot; age succeeded; and the destination has the
-- encrypted file under its name and every other file as before, if the name of the partial file was
-- new.
pub backup-IsPublished :
    (e : Expected) (a : Answers) (files : Files) {got : String}
    → ((partial : String) → a.partial_name ≡ ok partial → find partial files ≡ none)
    → (backup e a files).1 ≡ ok got
    → (got ≡ a.name) × IsPublished e a files (backup e a files).0
unfolding backup
backup-IsPublished e a files new h =
    elim (with_staging-Ends e a (check_before e a) files new refl) [
      | inl (same, (why, raised)) ↦ absurd (err-ok (sym raised ∙ h))
      | inr (inl (kept, (why, raised))) ↦ absurd (err-ok (sym raised ∙ h))
      | inr (inr (published, result)) ↦
          let (_, _, named) = >>=-eq-ok a.cleaned _ (sym result ∙ h) in
          (sym (ok-injective named), published)
    ]
