-- ===== src/NasLogs/Tests.antt =====
-- A snapshot of short logs, a collector that polls it, and the theorems at them.
use homecluster_infra.Base.{
  ℕ, ◌+◌, ◌≤◌, ◌≡◌, refl, ap, true, false, Option, none, some, List, [], ◌∷◌, ◌++◌, ◌==◌, string_eq,
  encode, map, if◌then◌else◌, length, Result, ok, err, ◌>>=◌, inl, arith, find, put, take, drop,
  number_from,
}
use homecluster_infra.NasLogs.Snapshot.{Slot, slots, FileRecord, Records, is_number, parse_snapshot}
use homecluster_infra.NasLogs.Snapshot.Script.{
  Probe, shell_words, shell_number, check_stat, join_spaces, emit_checked, emit_stat, emit_file,
  emit_files, print_snapshot,
}
use homecluster_infra.NasLogs.Snapshot.Emitted.{records_of, ArePresent}
use homecluster_infra.NasLogs.Snapshot.RoundTrip.{parse_snapshot-print_snapshot}
use homecluster_infra.NasLogs.Records.{
  completed_records, last_end, matches, collect, lines_behind, number_lines, split_lines,
  first_byte_of, begins, is_header, is_complete, open_group, extend_group,
}
use homecluster_infra.NasLogs.Records.Laws.{flat, AreConsecutive, completed_records-flat}
use homecluster_infra.NasLogs.Records.Resume.{completed_records-resume}
use homecluster_infra.NasLogs.State.{
  sources, Batch, Core, Pending, State, initial_core, initial_state, validate_state, is_source,
}
use homecluster_infra.NasLogs.Prepare.{
  Rules, prepare, file_of, chronological, plan_kind, add_files, add_file, add_records, add_record,
  add_stream, add_kinds, work_found, work_from, from_start, matches_prefix, count_normal,
  set_if_current,
}
use homecluster_infra.NasLogs.Prepare.Laws.{streams, Rises, NotBefore}
use homecluster_infra.NasLogs.Collector.Justified.{Chain, Subsequence}
use homecluster_infra.NasLogs.Prepare.Outbox.{prepare-outbox}
use homecluster_infra.NasLogs.Collector.{
  Saving, Sending, Answers, Machine, restarted, poll_once, current_state, load_state,
}
use homecluster_infra.NasLogs.Collector.Runs.{Run, boots, polls, Run-counted}
use homecluster_infra.NasLogs.Collector.Delivery.{
  Delivers, delivered_machine, poll_once-retries, poll_once-collects, poll_once-recovers,
}

abbrev short_log : FileRecord
short_log = record { dev = 1; inode = 2; mtime = 3; content = encode "one\ntwo\n" }

-- The current file of each kind, and no other.
abbrev short_found : Slot → Option FileRecord
short_found (kind, gen) = if gen == "current" then some short_log else none

abbrev short_logs : Records
unfolding slots
short_logs = map (λ slot. (slot, short_found slot)) slots

-- The files as the script meets them.
abbrev short_probe : Slot → Probe
short_probe (kind, gen) =
    if gen == "current"
    then Probe.seen (encode "1 2 8 3\n") (encode "one\ntwo\nthree\n") true
    else Probe.absent

abbrev short_probes : List (Slot × Probe)
unfolding slots
short_probes = map (λ slot. (slot, short_probe slot)) slots

short_probes-slots : map (λ p. p.0) short_probes ≡ slots
unfolding slots
short_probes-slots = refl

short_probes-ArePresent : ArePresent short_probes
unfolding slots encode shell_words number_from
short_probes-ArePresent = ground arith

short_printed : (print_snapshot short_probes).1 ≡ ok tt
unfolding print_snapshot emit_files emit_file emit_stat emit_checked check_stat shell_number
    is_number number_from shell_words join_spaces slots encode take ◌>>=◌
short_printed = refl

-- A file over the limit ends the script.
too_large :
    (print_snapshot ((("kernel", "current"), Probe.seen (encode "1 2 2097153 3") [] true) ∷ [])).1
    ≡ err "65"
unfolding print_snapshot emit_files emit_file emit_stat emit_checked check_stat shell_number
    is_number number_from shell_words join_spaces encode take ◌>>=◌
too_large = refl

short_records : records_of short_probes ≡ short_logs
unfolding slots encode shell_words number_from take
short_records = refl

parse_snapshot-print_snapshot_example :
    parse_snapshot (print_snapshot short_probes).0 ≡ ok (records_of short_probes)
parse_snapshot-print_snapshot_example =
    parse_snapshot-print_snapshot short_probes short_probes-slots short_probes-ArePresent
      short_printed

abbrev samba_log : List ℕ
samba_log = encode "[2026/01/02 10:11:12] a\n  one\n[2026/01/03 10:11:12] b\nthr"

samba_records : List (List ℕ × ℕ)
unfolding completed_records matches collect lines_behind number_lines split_lines first_byte_of
    begins is_header is_complete open_group extend_group drop encode
samba_records = completed_records samba_log 0 "samba" none false

-- The last block is a header alone, which may still get lines, and the last line has no end yet.
samba_records_eq : map (λ r. r.1) samba_records ≡ 30 ∷ []
unfolding samba_records
samba_records_eq = refl

completed_records-flat_example :
    (rest : List ℕ) × (flat (completed_records samba_log 0 "samba" none false) ++ rest
      ≡ drop 0 samba_log)
    × AreConsecutive 0 (completed_records samba_log 0 "samba" none false)
    × (false ≡ true → rest ≡ [])
completed_records-flat_example = completed_records-flat samba_log 0 "samba" none false

abbrev more_log : List ℕ
more_log = encode "ee\n"

samba_log_size : 0 ≤ length samba_log
unfolding encode
samba_log_size = omega arith

completed_records-resume_example :
    (rest : List ℕ) × (flat (completed_records samba_log 0 "samba" none false)
        ++ (flat (
              completed_records
                (samba_log ++ more_log)
                (last_end 0 (completed_records samba_log 0 "samba" none false))
                "samba"
                (some 57)
                true)
            ++ rest)
      ≡ drop 0 (samba_log ++ more_log))
    × (true ≡ true → rest ≡ [])
completed_records-resume_example =
    completed_records-resume samba_log more_log 0 "samba" none (some 57) true samba_log_size

-- Rules that call every line ordinary.
abbrev some_rules : Rules
some_rules = record {
  sha256 = λ bytes. "0123456789abcdef0123456789abcdef0123456789abcdef0123456789abcdef";
  kernel_severity = λ raw. "warning";
  normal_pattern = λ kind raw level. if kind == "kernel" then some "usb_noise" else none;
  entry = λ kind raw bootstrap time. ("unknown", "{}");
  stream_bytes = λ stream. 200;
  batch_bytes = λ batch. 4000;
  state_bytes = λ state. 9000;
  saved_bytes = λ state. 8000;
}

prepared : Result State
unfolding prepare validate_state is_source sources add_kinds plan_kind chronological file_of
    add_files add_file add_records add_record add_stream work_found work_from from_start
    matches_prefix count_normal set_if_current ◌>>=◌ find put take drop encode completed_records
    collect lines_behind number_lines split_lines first_byte_of begins is_header is_complete
    open_group extend_group last_end slots
prepared = prepare some_rules initial_state short_logs 1000 true

abbrev pending_of : Result State → Pending
pending_of (err e) = record { batches = []; next = initial_core }
pending_of (ok out) = elim out.pending [
  | none ↦ record { batches = []; next = initial_core }
  | some p ↦ p
]

first_pending : Pending
unfolding prepared
first_pending = pending_of prepared

first_core : Core
unfolding first_pending
first_core = first_pending.next

-- The kernel's lines are counted and not sent; a log without a header is one record.
first_core_sent : (first_core.sent ≡ 15) × (first_core.normal ≡ ("kernel/usb_noise", 2) ∷ [])
unfolding first_core
first_core_sent = (refl, refl)

abbrev first_state : State
first_state = record { core = initial_core; pending = some first_pending }

prepared_eq : prepare some_rules initial_state short_logs 1000 true ≡ ok first_state
unfolding prepared first_pending
prepared_eq = refl

prepare-outbox_example :
    (p : Pending) × (first_state.core ≡ initial_core)
    × (first_state.pending ≡ some p)
    × (validate_state some_rules.batch_bytes first_state ≡ ok tt)
    × (p.next.sent ≡ 0 + length (streams p.batches))
    × (p.next.last_success ≡ 1000)
    × Rises 0 (streams p.batches) p.next.last_ns
    × NotBefore 1000 (streams p.batches)
prepare-outbox_example =
    prepare-outbox some_rules initial_state short_logs 1000 true refl prepared_eq

abbrev answers : (ℕ → Sending) → Answers
answers sending = record {
  readable = true;
  snapshot = ok short_logs;
  now_ns = 1000;
  first_save = Saving.written;
  sending = sending;
  last_save = Saving.written;
}

abbrev all_taken : ℕ → Sending
all_taken k = Sending.delivered

abbrev none_taken : ℕ → Sending
none_taken k = Sending.unanswered

abbrev new_machine : Machine
new_machine = restarted none []

abbrev stored_machine : Machine
stored_machine = restarted (some first_state) []

loaded_new : current_state some_rules true none none ≡ ok initial_state
unfolding current_state load_state ◌>>=◌
loaded_new = refl

loaded_stored : current_state some_rules true none (some first_state) ≡ ok first_state
unfolding current_state load_state ◌>>=◌ prepared first_pending
loaded_stored = refl

collected :
    poll_once some_rules true (answers all_taken) new_machine
    ≡ delivered_machine some_rules new_machine first_pending
collected =
    poll_once-collects some_rules true (answers all_taken) new_machine initial_core first_state
      first_pending short_logs loaded_new refl prepared_eq refl refl refl refl (λ k. refl) refl

poll_once-collects_example :
    poll_once some_rules true (answers all_taken) new_machine
    ≡ delivered_machine some_rules new_machine first_pending
poll_once-collects_example =
    poll_once-collects some_rules true (answers all_taken) new_machine initial_core first_state
      first_pending short_logs loaded_new refl prepared_eq refl refl refl refl (λ k. refl) refl

first_Delivers : Delivers some_rules (answers all_taken) first_pending
unfolding prepared first_pending
first_Delivers = (λ k. refl, refl, (refl, refl))

poll_once-retries_example :
    poll_once some_rules true (answers all_taken) stored_machine
    ≡ delivered_machine some_rules stored_machine first_pending
poll_once-retries_example =
    poll_once-retries some_rules true (answers all_taken) stored_machine initial_core first_pending
      loaded_stored first_Delivers

abbrev first_batches : List Batch
first_batches = first_pending.batches

first_batches_lem : (batch : Batch) × (after : List Batch) × (first_batches ≡ [] ++ (batch ∷ after))
unfolding prepared first_pending
first_batches_lem = (_, _, refl)

abbrev lost_batch : Batch
lost_batch = first_batches_lem.0

unanswered_stops : ¬ (Sending.unanswered ≡ Sending.delivered)
unanswered_stops h = cc

-- The server takes the first batch and does not answer; the next poll delivers it again.
poll_once-recovers_example :
    poll_once some_rules true
      (answers all_taken)
      (poll_once some_rules true (answers none_taken) stored_machine)
    ≡ record {
      memory = some (record { core = first_pending.next; pending = none });
      disk = some (record { core = first_pending.next; pending = none });
      received = lost_batch ∷ first_batches;
      success = 1;
      state_valid = 1;
      push_failures = 0 + 1;
      collection_failures = 0 + 1;
    }
poll_once-recovers_example =
    poll_once-recovers some_rules true (answers none_taken) (answers all_taken) stored_machine
      initial_core first_pending [] lost_batch first_batches_lem.1 loaded_stored first_batches_lem.2
      (λ k small. absurd (omega (arith, small))) unanswered_stops first_Delivers

polled : Run some_rules (poll_once some_rules true (answers all_taken) new_machine)
polled = polls true (answers all_taken) boots

abbrev committed : State
committed = record { core = first_pending.next; pending = none }

Run-counted_example :
    (batches : List Batch) × Chain some_rules batches committed.core
    × Subsequence batches (poll_once some_rules true (answers all_taken) new_machine).received
    × (committed.core.sent ≡ length (streams batches))
    × Rises 0 (streams batches) committed.core.last_ns
Run-counted_example =
    Run-counted some_rules polled committed (inl (ap (λ (m : Machine). m.memory) collected))
