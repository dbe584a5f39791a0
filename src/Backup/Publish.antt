-- ===== src/Backup/Publish.antt =====
-- `backup` of k3s_sqlite_backup.py: what becomes of the destination directory.
--
-- What the calls of the system and of the tools answer, in their order, is an argument, `Answers`.
pub mod Laws
use homecluster_infra.Base.{
  ℕ, String, Bool, true, false, not, Option, none, some, List, [], ◌∷◌, ◌==◌, bytes_eq, is_empty,
  find, put, string_eq, if◌then◌else◌, Result, ok, err, ◌>>=◌, ◌>>◌, require,
}
use homecluster_infra.Backup.Mounts.{Expected, View, validate_mounts}

-- The files of the destination.
abbrev pub Files : Type 0
Files = List (String × List ℕ)

unfoldable pub remove : String → Files → Files
remove k [] = []
remove k ((j, v) ∷ rest) = let more = remove k rest in if j == k then more else (j, v) ∷ more

-- `before`, `during` and `after` are what the system shows to the three validations. `staging` says
-- whether the temporary directory is made, `hashed` whether the copy can be read for its digest, and `cleaned` whether it is removed. `encrypted` is what
-- age leaves in the partial file and whether it succeeds, `unlinked` whether the partial file is
-- removed.
pub record Answers : Type 0 where
  pub good_recipient : Bool
  pub good_data_dir : Bool
  pub good_destination : Bool
  pub before : View
  pub regular_files : Bool
  pub age_found : Bool
  pub token_before : Result (List ℕ)
  pub staging : Result (Unit {0})
  pub snapshot : Result (List ℕ)
  pub token_after : Result (List ℕ)
  pub hashed : Result (Unit {0})
  pub during : View
  pub partial_name : Result String
  pub encrypted : List ℕ × Result (Unit {0})
  pub after : View
  pub name : String
  pub renamed : Result (Unit {0})
  pub cleaned : Result (Unit {0})
  pub unlinked : Result (Unit {0})

-- Up to the temporary directory, with the token.
unfoldable pub check_before : Expected → Answers → Result (List ℕ)
unfolding validate_mounts ◌>>=◌
check_before e a =
    require a.good_recipient "expected an age X25519 public recipient"
    >> (require a.good_data_dir "k3s data directory missing or symlinked"
        >> (require a.good_destination "destination directory must exist and must not be a symlink"
            >> (validate_mounts e a.before
                >> (require a.regular_files "state.db and server/token must be regular files"
                    >> (require a.age_found "age executable unavailable"
                        >> (a.token_before >>= λ token.
                            require (not (is_empty token)) "server token is empty"
                            >> (a.staging >> ok token)))))))

-- Within the temporary directory, up to the partial file.
unfoldable pub make_partial : Expected → Answers → List ℕ → Result String
unfolding validate_mounts ◌>>=◌
make_partial e a token = a.snapshot >>= λ snapshot. a.token_after >>= λ later.
    require (later == token) "server token changed during snapshot"
    >> (a.hashed >> (validate_mounts e a.during >> a.partial_name))

-- What follows the partial file, up to the new name.
unfoldable pub finish_backup : Expected → Answers → Result (Unit {0})
unfolding validate_mounts ◌>>=◌
finish_backup e a = a.encrypted.1 >> (validate_mounts e a.after >> a.renamed)

-- An exception within a block gives way to one of the clean-up behind it.
abbrev pub replaced : String → Result (Unit {0}) → String
replaced reason (ok done) = reason
replaced reason (err e) = e

-- The `finally`: a partial file that has no new name is removed, if that succeeds.
unfoldable pub remove_partial :
    String → List ℕ → String → Result (Unit {0}) → Files → Files × Result String
unfolding remove put
remove_partial partial bytes reason (ok done) files =
    (remove partial (put partial bytes files), err reason)
remove_partial partial bytes reason (err e) files = (put partial bytes files, err e)

-- The file has its new name; removing the temporary directory may still raise.
unfoldable pub rename_partial :
    String → String → List ℕ → Result (Unit {0}) → Files → Files × Result String
unfolding remove put
rename_partial partial name bytes (ok done) files =
    (put name bytes (remove partial (put partial bytes files)), ok name)
rename_partial partial name bytes (err e) files =
    (put name bytes (remove partial (put partial bytes files)), err e)

-- The partial file gets its name, or the `finally` removes it.
unfoldable pub publish : Answers → String → Result (Unit {0}) → Files → Files × Result String
unfolding remove_partial rename_partial
publish a partial (err reason) files =
    remove_partial partial a.encrypted.0 (replaced reason a.cleaned) a.unlinked files
publish a partial (ok done) files = rename_partial partial a.name a.encrypted.0 a.cleaned files

-- From the partial file on.
unfoldable pub with_partial : Expected → Answers → Result String → Files → Files × Result String
unfolding finish_backup publish
with_partial e a (err reason) files = (files, err (replaced reason a.cleaned))
with_partial e a (ok partial) files = publish a partial (finish_backup e a) files

-- From the temporary directory on.
unfoldable pub with_staging : Expected → Answers → Result (List ℕ) → Files → Files × Result String
unfolding make_partial with_partial
with_staging e a (err reason) files = (files, err reason)
with_staging e a (ok token) files = with_partial e a (make_partial e a token) files

unfoldable pub backup : Expected → Answers → Files → Files × Result String
unfolding check_before with_staging
backup e a files = with_staging e a (check_before e a) files
