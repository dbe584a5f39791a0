-- ===== src/Capture/Runs.antt =====
-- Runs of the station: any requests, captures and acknowledgements, with any answers.
use homecluster_infra.Base.{ℕ, String, List, nat_eq, string_eq, arith}
use homecluster_infra.Capture.Station.{Station, empty_station, Asking, request}
use homecluster_infra.Capture.Serve.{Serving, serve}
use homecluster_infra.Capture.Acknowledge.{Acking, acknowledge}
use homecluster_infra.Capture.Bounds.{IsBounded, request-IsBounded, acknowledge-IsBounded}
use homecluster_infra.Capture.Bounds.Serve.{serve-IsBounded}

module _ (digest : List ℕ → String) where
  -- One run of the station, from no files at all.
  pub data Run : Station → Type 0 where
    begins : Run empty_station
    requests : {s : Station} (a : Asking) (profile : String) → Run s → Run (request a profile s).0
    serves : {s : Station} (a : Serving) → Run s → Run (serve digest a s).0
    acknowledges :
        {s : Station} (a : Acking) (id expected : String)
        → Run s
        → Run (acknowledge digest a id expected s).0

  -- Whatever requests, captures and acknowledgements are made from a station without files, with
  -- any answers, where each file operation of a request and of a capture may fail or be cut off,
  -- before or after it takes effect, as may the writing of a receipt and the removal of a run: the
  -- spool holds at most two runs, and there are at most 64 acknowledgements.
  pub Run-IsBounded : {s : Station} → Run s → IsBounded s
  Run-IsBounded begins = (omega arith, omega arith)
  Run-IsBounded (requests {s} a profile run) = request-IsBounded a profile s (Run-IsBounded run)
  Run-IsBounded (serves {s} a run) = serve-IsBounded digest a s (Run-IsBounded run)
  Run-IsBounded (acknowledges {s} a id expected run) =
      acknowledge-IsBounded digest a id expected s (Run-IsBounded run)
