-- ===== src/FeedProof/Tests.antt =====
-- A feed of two addresses, a reader and a clock, and the theorems at them.
use homecluster_infra.Base.{
  is_digit, number_from, encode, sort, subst, inr, ℕ, ◌*◌, ◌+◌, ◌≡◌, refl, String, Bool, true,
  false, none, some, List, [], ◌∷◌, ok, Result, ◌>>=◌, find, put, All, join, decimal,
}
use homecluster_infra.FeedProof.Net.{
  Network, parse_address, network_text, is_multicast, strict_network, supernet,
}
use homecluster_infra.FeedProof.Collapse.{
  collapse_addresses, merge_loop, find_half, remove_half, halves, sort_networks, without_covered,
  drop_covered,
}
use homecluster_infra.FeedProof.Lines.{splitlines, strip_line, split_words}
use homecluster_infra.FeedProof.Parse.{
  Canonical, Parsed, canonical, parse_feed, read_lines, line_network, dshield_network,
  address_network,
}
use homecluster_infra.FeedProof.Parse.Laws.{
  Describes, canonical-Describes, Reads, parse_feed-Describes,
}
use homecluster_infra.Value.{
  Fields, field, end, int, pos, list, cons, nil, str, get, has, keys, lookup,
}
use homecluster_infra.FeedProof.Config.{
  configuration, accept_names, registered_names, IsChoice, configuration-IsChoice,
}
use homecluster_infra.FeedProof.Data.{
  returned-injective, second, verified, error, Record, Proof, Snapshot, Outcome, returned, raised,
  and_then, os_error,
}
use homecluster_infra.FeedProof.Verify.{
  verify, feed_result, download_all, read_world, handled, record_all, judge, same_snapshot,
  fail_all, failed_check,
}
use homecluster_infra.FeedProof.Verify.Sound.{IsBacked, verify-IsBacked, verify_others_kept}
use homecluster_infra.FeedProof.Verify.Judged.{HasSets}
use homecluster_infra.FeedProof.Verify.Total.{verify_total}
use homecluster_infra.FeedProof.Verify.Failed.{failed_record, failed_check-record}
use homecluster_infra.FeedProof.Summary.{Summary, summary, feed_summaries, feed_status, against_set}
use homecluster_infra.FeedProof.Summary.Laws.{IsCurrent, summary-IsCurrent}

abbrev digest : List ℕ → String
digest bytes = "d"

abbrev all_global : Network → Bool
all_global n = true

abbrev feed_bytes : List ℕ
feed_bytes = encode "# list\r\n1.2.3.4\r\n1.2.3.5\n"

abbrev dshield_bytes : List ℕ
dshield_bytes = encode "1.2.3.0\t1.2.3.255\t24\t9\n"

run_parse : String → List ℕ → Result Parsed
unfolding parse_feed canonical ◌>>=◌ read_lines line_network dshield_network address_network
    splitlines strip_line split_words parse_address strict_network is_digit number_from is_multicast
    collapse_addresses merge_loop find_half remove_half halves sort_networks without_covered
    drop_covered supernet encode join network_text decimal
run_parse name bytes = parse_feed digest all_global name bytes

abbrev pair : Parsed
pair = record {
  content = record { canonical_sha256 = "d"; count = 1 };
  source_records = 2;
  source_sha256 = "d";
}

pair_parsed : parse_feed digest all_global "feodo" feed_bytes ≡ ok pair
unfolding run_parse encode
pair_parsed = refl

parse_feed-Describes_example : Reads digest all_global "feodo" feed_bytes pair
parse_feed-Describes_example =
    parse_feed-Describes digest all_global "feodo" feed_bytes pair pair_parsed

dshield_parsed :
    run_parse "dshield" dshield_bytes
    ≡ ok (record {
      content = record { canonical_sha256 = "d"; count = 1 };
      source_records = 1;
      source_sha256 = "d";
    })
unfolding run_parse
dshield_parsed = refl

abbrev one : Network
one = record { index = 16909060; bits = 0 }

abbrev two : Network
two = record { index = 16909061; bits = 0 }

canonical-Describes_example :
    (content : Canonical) × (canonical digest (one ∷ two ∷ []) ≡ ok content)
    × Describes digest content (one ∷ two ∷ [])
canonical-Describes_example = canonical-Describes digest one (two ∷ []) refl refl

abbrev active : Snapshot
active = record {
  generation = "mode: reload";
  sets =
      ("feodo", record { content = record { canonical_sha256 = "d"; count = 1 }; set_elements = 1 })
      ∷ [];
}

abbrev download_feed : String → Outcome (List ℕ)
download_feed name = returned feed_bytes

abbrev noon : ℕ
noon = 1700000000 * second

abbrev old_record : Record
old_record = record {
  last_check = some (record { status = error; reason = "memory_reserve_low"; at = noon });
  last_verified = none;
}

abbrev prior : Proof
prior = record { definition_sha256 = "f"; feeds = ("dshield", old_record) ∷ [] }

abbrev new_record : Record
new_record = record {
  last_check = some (record { status = verified; reason = "verified"; at = noon + second });
  last_verified = some (record {
    parsed = pair;
    at = noon + second;
    scope = "independent_https_content_equals_active_nft_set";
  });
}

abbrev next : Proof
next = record {
  definition_sha256 = "f";
  feeds = ("dshield", old_record) ∷ ("feodo", new_record) ∷ [];
}

ran :
    verify digest all_global
      ("feodo" ∷ [])
      prior
      (returned active)
      download_feed
      (returned active)
      false
      noon
      (noon + second)
    ≡ returned next
unfolding verify handled read_world download_all feed_result record_all judge same_snapshot and_then
    put find run_parse encode
ran = refl

verify-IsBacked_example :
    IsBacked digest all_global "feodo"
      (returned active)
      download_feed
      (returned active)
      new_record
      (noon + second)
verify-IsBacked_example =
    verify-IsBacked digest all_global ("feodo" ∷ []) prior (returned active) download_feed
      (returned active) false noon (noon + second) next "feodo" new_record
      (record { status = verified; reason = "verified"; at = noon + second }) ran refl
      (unfold find in refl) refl refl

verify_others_kept_example :
    (find "dshield" next.feeds ≡ find "dshield" prior.feeds)
    × (next.definition_sha256 ≡ prior.definition_sha256)
verify_others_kept_example =
    verify_others_kept digest all_global ("feodo" ∷ []) prior (returned active) download_feed
      (returned active) false noon (noon + second) next "dshield" ran refl

-- A downloader that fails is recorded, and the world is still read.
failed_download :
    verify digest all_global
      ("feodo" ∷ [])
      prior
      (returned active)
      (λ name. raised os_error)
      (returned active)
      true
      noon
      noon
    ≡ returned (record {
      definition_sha256 = "f";
      feeds =
          ("dshield", old_record)
          ∷ (
            "feodo",
            record {
              last_check =
                  some (record { status = error; reason = "feed_download_failed"; at = noon });
              last_verified = none;
            },
          )
          ∷ [];
    })
unfolding verify handled read_world download_all feed_result record_all judge same_snapshot and_then
    put find
failed_download = refl

after_failure : Proof
unfolding fail_all find put
after_failure = record {
  definition_sha256 = next.definition_sha256;
  feeds = fail_all noon "refresh_or_verification_failed" ("feodo" ∷ []) next.feeds;
}

failure_ran :
    failed_check ("feodo" ∷ []) next "refresh_or_verification_failed" noon ≡ returned after_failure
unfolding failed_check after_failure
failure_ran = refl

failed_check-record_example :
    find "feodo" after_failure.feeds
    ≡ some (failed_record "refresh_or_verification_failed" noon (find "feodo" next.feeds))
failed_check-record_example =
    failed_check-record ("feodo" ∷ []) next "refresh_or_verification_failed" noon after_failure
      "feodo" failure_ran refl

summary_run : Outcome Summary
unfolding summary feed_summaries feed_status against_set and_then find
summary_run = summary (noon + 3600 * second) ("feodo" ∷ []) next (some active)

report : Summary
report = record {
  status = verified;
  age_seconds = some 3599;
  feeds =
      record {
        feed = "feodo.v4";
        status = verified;
        reason = "verified";
        verified_at = some (noon + second);
        age_seconds = some 3599;
        last_verified_count = some 1;
      }
      ∷ [];
}

reported : summary (noon + 3600 * second) ("feodo" ∷ []) next (some active) ≡ returned report
unfolding summary_run report
reported = refl

summary-IsCurrent_example :
    All
      (λ name.
        (here : Snapshot) × (some active ≡ some here)
        × IsCurrent (noon + 3600 * second) here next name)
      ("feodo" ∷ [])
summary-IsCurrent_example =
    summary-IsCurrent (noon + 3600 * second) ("feodo" ∷ []) next (some active) report reported
      (unfold report in refl)

active_sets :
    (t : Snapshot)
    → ◌≡◌ {A = Outcome Snapshot} (returned active) (returned t)
    → HasSets t ("feodo" ∷ [])
unfolding find
active_sets t h = subst (λ s. HasSets s ("feodo" ∷ [])) (returned-injective h) ((_, refl), tt)

abbrev no_download : String → Outcome (List ℕ)
no_download name = raised os_error

verify_total_example :
    (out : Proof) × (verify digest all_global
        ("feodo" ∷ [])
        prior
        (returned active)
        no_download
        (returned active)
        false
        noon
        (noon + second)
      ≡ returned out)
verify_total_example =
    verify_total digest all_global ("feodo" ∷ []) prior (returned active) no_download
      (returned active) false noon (noon + second) refl (inr refl) tt (refl, tt) tt active_sets

abbrev config_object : Fields
config_object =
    field "schema" (int (pos 1))
      (field "feeds" (list (cons (str "feodo") (cons (str "dshield") nil))) end)

configured : configuration config_object ≡ ok ("dshield" ∷ "feodo" ∷ [])
unfolding configuration accept_names registered_names ◌>>=◌ get has keys lookup sort
configured = refl

configuration-IsChoice_example : IsChoice ("dshield" ∷ "feodo" ∷ [])
configuration-IsChoice_example =
    configuration-IsChoice config_object ("dshield" ∷ "feodo" ∷ []) configured
