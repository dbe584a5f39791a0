-- ===== src/NasLogs/Prepare.antt =====
-- `prepare` of nas_file_logs_core.py: from the state and a snapshot to the outbox.
--
-- What it does with the text of a record is a parameter, `Rules`: `severity`, `normal_pattern`,
-- `entry` and the lengths of JSON texts. `sha256` is `hashlib.sha256(data).hexdigest()`.
pub mod Laws
pub mod Outbox
use homecluster_infra.Base.{
  ℕ, zero, suc, ◌+◌, ◌-◌, ◌*◌, max, String, ◌<>◌, Bool, true, false, ◌&&◌, ◌||◌, not, Option, none,
  some, List, [], ◌∷◌, ◌++◌, ◌==◌, nat_eq, string_eq, leb, ltb, length, all, is_empty, take, drop,
  find, put, if◌then◌else◌, Result, ok, err, ◌>>=◌, ◌>>◌, require,
}
use homecluster_infra.NasLogs.Snapshot.{Slot, FileRecord, Records}
use homecluster_infra.NasLogs.Records.{Ended, completed_records, last_end}
use homecluster_infra.NasLogs.State.{
  sources, Cursor, Stream, Batch, Core, Pending, State, validate_state,
}

-- The functions of a record's text, and the lengths of JSON texts: of a stream, of a batch, of a
-- state, and of a state as the state file has it.
pub record Rules : Type 0 where
  pub sha256 : List ℕ → String
  pub kernel_severity : List ℕ → String
  pub normal_pattern : String → List ℕ → String → Option String
  pub entry : String → List ℕ → Bool → ℕ → String × String
  pub stream_bytes : Stream → ℕ
  pub batch_bytes : Batch → ℕ
  pub state_bytes : State → ℕ
  pub saved_bytes : State → ℕ

-- `snapshot[(kind, gen)]`
unfoldable pub file_of : Records → Slot → Option FileRecord
file_of [] slot = none
file_of (((kind, gen), found) ∷ records) slot =
    if kind == slot.0 && gen == slot.1 then found else file_of records slot

abbrev pub Found : Type 0
Found = String × FileRecord

-- `chronological`, with the generations given from the newest: the oldest first.
unfoldable pub chronological : Records → String → List String → List Found
unfolding file_of
chronological snapshot kind [] = []
chronological snapshot kind (gen ∷ gens) =
    let older = chronological snapshot kind gens in
    elim (file_of snapshot (kind, gen)) [ none ↦ older | some f ↦ older ++ ((gen, f) ∷ []) ]

-- A file to read: its generation, its record, and the offset to start from.
pub record Work : Type 0 where
  pub gen : String
  pub file : FileRecord
  pub offset : ℕ

unfoldable pub from_start : List Found → List Work
from_start [] = []
from_start ((gen, f) ∷ rest) = record { gen = gen; file = f; offset = 0 } ∷ from_start rest

-- The first file that the test accepts is read from the offset, and those after it as a whole.
unfoldable pub work_from : (FileRecord → Bool) → ℕ → List Found → Option (List Work)
unfolding from_start
work_from test offset [] = none
work_from test offset ((gen, f) ∷ rest) =
    if test f
    then some (record { gen = gen; file = f; offset = offset } ∷ from_start rest)
    else work_from test offset rest

-- The next state and the batches so far, `batch` being the open one.
pub record Progress : Type 0 where
  pub next : Core
  pub batches : List Batch
  pub batch : Batch
  pub batch_size : ℕ

abbrev pub start_progress : Core → Progress
start_progress s = record { next = s; batches = []; batch = []; batch_size = 32 }

-- `nxt['normal'][key] = nxt['normal'].get(key, 0) + 1`
unfoldable pub count_normal : String → Core → Core
unfolding find put
count_normal key s = record s {
  normal = put key (elim (find key s.normal) [ none ↦ 1 | some n ↦ n + 1 ]) s.normal;
}

abbrev pub seen_by : Option Cursor → Option ℕ
seen_by none = none
seen_by (some c) = some c.size_seen

-- `records[-50:]` for a kind with no cursor.
abbrev pub bootstrapped : Option Cursor → List Ended → List Ended
bootstrapped none records = drop (length records - 50) records
bootstrapped (some c) records = records

abbrev pub is_none : Option Cursor → Bool
is_none none = true
is_none (some c) = false

abbrev pub work_records : String → Option Cursor → Work → List Ended
work_records kind previous w =
    completed_records w.file.content w.offset kind (seen_by previous) (not (w.gen == "current"))

abbrev current_only : Option FileRecord → Option (List Work)
current_only none = none
current_only (some f) = some (record { gen = "current"; file = f; offset = 0 } ∷ [])

abbrev pub with_gap : Progress → Progress
with_gap p = record p { next = record p.next { gaps = p.next.gaps + 1 } }

-- `if batch['streams']: batches.append(batch)`
abbrev pub all_batches : Progress → List Batch
all_batches p = if is_empty p.batch then p.batches else p.batches ++ (p.batch ∷ [])

-- The state with the outbox.
abbrev pub outbox : Core → ℕ → Progress → State
outbox s now_ns p = record {
  core = s;
  pending =
      some (record { batches = all_batches p; next = record p.next { last_success = now_ns } });
}

module _ (rules : Rules) where
  -- `matches_prefix`, of a file that is there.
  unfoldable pub matches_prefix : Cursor → FileRecord → Bool
  unfolding take
  matches_prefix c f =
      leb c.offset (length f.content) && rules.sha256 (take c.offset f.content) == c.sha256

  abbrev same_file : Cursor → FileRecord → Bool
  same_file c f = f.dev == c.dev && f.inode == c.inode && matches_prefix c f

  -- The files to read, `none` where the cursor's file is not found.
  unfoldable pub work_found : Cursor → List Found → Option (List Work)
  unfolding work_from matches_prefix
  work_found c files = elim (work_from (same_file c) c.offset files) [
    | some work ↦ some work
    | none ↦ work_from (matches_prefix c) c.offset files
  ]

  unfoldable pub add_stream : Stream → Progress → Progress
  add_stream s p =
      let size = rules.stream_bytes s + 2 in
      let counted = record p.next { sent = p.next.sent + 1 } in
      if ltb 131072 (p.batch_size + size)
      then record {
        next = counted;
        batches = p.batches ++ (p.batch ∷ []);
        batch = s ∷ [];
        batch_size = 32 + size;
      }
      else record {
        next = counted;
        batches = p.batches;
        batch = p.batch ++ (s ∷ []);
        batch_size = p.batch_size + size;
      }

  -- One record: counted where a rule says that it is normal, and queued otherwise.
  unfoldable pub add_record : ℕ → Bool → String → Bool → List ℕ → Progress → Progress
  unfolding add_stream count_normal
  add_record now_ns filter_normal kind bootstrap raw p =
      let level = if kind == "kernel" then rules.kernel_severity raw else "unknown" in
      elim (if filter_normal then rules.normal_pattern kind raw level else none) [
        | some name ↦ record p { next = count_normal (kind <> ("/" <> name)) p.next }
        | none ↦
            let time = max now_ns (p.next.last_ns + 1) in
            let made = rules.entry kind raw bootstrap time in
            add_stream (record { log_kind = kind; level = made.0; time_ns = time; line = made.1 })
              (record p { next = record p.next { last_ns = time } })
      ]

  unfoldable pub add_records : ℕ → Bool → String → Bool → List Ended → Progress → Progress
  unfolding add_record
  add_records now_ns filter_normal kind bootstrap [] p = p
  add_records now_ns filter_normal kind bootstrap ((raw, end) ∷ records) p =
      add_records now_ns filter_normal kind bootstrap records
        (add_record now_ns filter_normal kind bootstrap raw p)

  -- The cursor that is set for the current file.
  abbrev pub cursor_at : FileRecord → ℕ → Cursor
  cursor_at f end = record {
    dev = f.dev;
    inode = f.inode;
    offset = end;
    sha256 = rules.sha256 (take end f.content);
    size_seen = length f.content;
  }

  abbrev pub set_cursor : String → FileRecord → ℕ → Progress → Progress
  set_cursor kind f end p = record p {
    next = record p.next { cursors = put kind (cursor_at f end) p.next.cursors };
  }

  -- `if gen == 'current'`
  unfoldable pub set_if_current : String → Work → ℕ → Progress → Progress
  set_if_current kind w end p = if w.gen == "current" then set_cursor kind w.file end p else p

  -- One file of the work.
  unfoldable pub add_file : ℕ → Bool → String → Option Cursor → Work → Progress → Progress
  unfolding add_records set_if_current completed_records last_end take drop put
  add_file now_ns filter_normal kind previous w p =
      let records = work_records kind previous w in
      let added =
        add_records now_ns filter_normal kind (is_none previous) (bootstrapped previous records)
          p in
      set_if_current kind w (last_end w.offset records) added

  unfoldable pub add_files : ℕ → Bool → String → Option Cursor → List Work → Progress → Progress
  unfolding add_file
  add_files now_ns filter_normal kind previous [] p = p
  add_files now_ns filter_normal kind previous (w ∷ work) p =
      add_files now_ns filter_normal kind previous work
        (add_file now_ns filter_normal kind previous w p)

  -- The work for a kind, and the progress with a gap counted where its cursor was not found.
  -- A current file that is not there, which no parsed snapshot has, raises.
  unfoldable pub plan_kind :
      Records → String → List String → Option Cursor → Progress → Result (List Work × Progress)
  unfolding work_found chronological file_of
  plan_kind snapshot kind gens none p = elim (current_only (file_of snapshot (kind, "current"))) [
    | none ↦ err "TypeError"
    | some work ↦ ok (work, p)
  ]
  plan_kind snapshot kind gens (some c) p = elim (work_found c (chronological snapshot kind gens)) [
    | some work ↦ ok (work, p)
    | none ↦ elim (current_only (file_of snapshot (kind, "current"))) [
      | none ↦ err "TypeError"
      | some work ↦ ok (work, with_gap p)
    ]
  ]

  unfoldable pub add_kinds :
      ℕ → Bool → Core → Records → List (String × List String) → Progress → Result Progress
  unfolding plan_kind add_files find ◌>>=◌
  add_kinds now_ns filter_normal s snapshot [] p = ok p
  add_kinds now_ns filter_normal s snapshot ((kind, gens) ∷ more) p =
      plan_kind snapshot kind gens (find kind s.cursors) p >>= λ planned.
      add_kinds now_ns filter_normal s snapshot more
        (add_files now_ns filter_normal kind (find kind s.cursors) planned.0 planned.1)

  unfoldable pub prepare : State → Records → ℕ → Bool → Result State
  unfolding validate_state add_kinds sources ◌>>=◌
  prepare s snapshot now_ns filter_normal = validate_state rules.batch_bytes s >> elim s.pending [
    | some p ↦ ok s
    | none ↦ add_kinds now_ns filter_normal s.core snapshot sources (start_progress s.core) >>= λ p.
        require (leb (length (all_batches p)) 512) "outbox limit exceeded"
        >> (validate_state rules.batch_bytes (outbox s.core now_ns p)
            >> (require (leb (rules.state_bytes (outbox s.core now_ns p)) 67108864)
                  "state limit exceeded"
                >> ok (outbox s.core now_ns p)))
  ]
