-- ===== src/Capture/Serve/Laws.antt =====
-- The checks before a capture.
use homecluster_infra.Base.{
  ◌≡◌, ap, subst, String, true, false, not, Option, none, some, ◌==◌, nat_eq, string_eq, find, ok,
  >>=-eq-ok, require-eq-ok, ok-injective, err-ok, not-true,
}
use homecluster_infra.Capture.Station.{Profile, Request, Station, guards, is_capture_id, is_some}
use homecluster_infra.Capture.Serve.{or_missing, is_recent, Serving, may_serve}

pub or_missing-eq-ok :
    {A : Type 0} (reason : String) (o : Option A) {a : A} → or_missing reason o ≡ ok a → o ≡ some a
or_missing-eq-ok reason none h = absurd (err-ok h)
or_missing-eq-ok reason (some b) h = ap some (ok-injective h)

-- What holds where they pass.
pub may_serve-ok :
    (a : Serving) (s : Station) {item : Request} {profile : Profile}
    → may_serve a s ≡ ok (item, profile)
    → (s.request ≡ some item)
      × (is_capture_id item.capture_id ≡ true)
      × (is_recent a.now_ns item.created ≡ true)
      × (guards a.storage s.spool ≡ ok tt)
      × (is_some (find item.capture_id s.spool) ≡ false)
unfolding may_serve
may_serve-ok a s {item} {profile} h =
    let (_, h1) = require-eq-ok (not a.locked) "BlockingIOError" _ h in
    let (asked, in_file, h2) = >>=-eq-ok (or_missing "FileNotFoundError" s.request) _ h1 in
    let (named, h3) = require-eq-ok (is_capture_id asked.capture_id) "capture_id" _ h2 in
    let (recent, h4) = require-eq-ok (is_recent a.now_ns asked.created) "request_expired" _ h3 in
    let (config, _, h5) = >>=-eq-ok a.config _ h4 in
    let (_, h6) =
      require-eq-ok (asked.configuration_sha256 == config.sha256) "configuration_changed" _ h5 in
    let (_, _, h7) =
      >>=-eq-ok (or_missing "configuration_changed" (find asked.profile config.profiles)) _ h6 in
    let (_, room, h8) = >>=-eq-ok (guards a.storage s.spool) _ h7 in
    let (new, h9) =
      require-eq-ok (not (is_some (find asked.capture_id s.spool))) "FileExistsError" _ h8 in
    let this : asked ≡ item = ap (λ (r : Request × Profile). r.0) (ok-injective h9) in
    subst
      (λ (r : Request).
        (s.request ≡ some r)
        × (is_capture_id r.capture_id ≡ true)
        × (is_recent a.now_ns r.created ≡ true)
        × (guards a.storage s.spool ≡ ok tt)
        × (is_some (find r.capture_id s.spool) ≡ false))
      this
      (
        or_missing-eq-ok "FileNotFoundError" s.request in_file,
        named,
        recent,
        room,
        not-true (is_some (find asked.capture_id s.spool)) new,
      )
