-- ===== src/NasLogs/State.antt =====
-- The state of the collector: cursors, counters and the outbox, and `validate_state` of
-- nas_file_logs_core.py.
--
-- The JSON object is read with its types: what `validate_state` says of the shape of the object and
-- of the type of a field holds of these records by themselves.
pub mod Laws
use homecluster_infra.Base.{
  ℕ, zero, suc, ◌+◌, ◌*◌, String, Char, code, Bool, true, false, ◌&&◌, ◌||◌, not, Option, none,
  some, List, [], ◌∷◌, ◌++◌, ◌==◌, nat_eq, string_eq, leb, ltb, length, all, is_empty, contains,
  encode, if◌then◌else◌, Result, ok, err, ◌>>=◌, ◌>>◌, require,
}
use homecluster_infra.NasLogs.Snapshot.{max_file}

-- `SOURCES`, less the paths: the kinds with their generations.
unfoldable pub sources : List (String × List String)
sources =
    ("kernel", "current" ∷ "1" ∷ "2" ∷ [])
    ∷ ("samba", "current" ∷ "1" ∷ "2" ∷ [])
    ∷ ("smbd", "current" ∷ "old" ∷ [])
    ∷ ("nmbd", "current" ∷ "old" ∷ [])
    ∷ ("winbindd", "current" ∷ "old" ∷ [])
    ∷ ("storage", "current" ∷ "old" ∷ [])
    ∷ ("hal", "current" ∷ "old" ∷ [])
    ∷ ("hal_daemon", "current" ∷ "old" ∷ [])
    ∷ ("sdmd", "current" ∷ "old" ∷ [])
    ∷ ("storage_util", "current" ∷ [])
    ∷ ("iscsi", "current" ∷ [])
    ∷ []

keys_of : {A : Type 0} → List (String × A) → List String
keys_of [] = []
keys_of ((k, v) ∷ rest) = k ∷ keys_of rest

-- `kind in SOURCES`
unfoldable pub is_source : String → Bool
unfolding keys_of sources
is_source kind = contains (keys_of sources) kind

pub record Cursor : Type 0 where
  pub dev : ℕ
  pub inode : ℕ
  pub offset : ℕ
  pub sha256 : String
  pub size_seen : ℕ

-- A log line on its way: the labels that differ, the time stamp and the text.
pub record Stream : Type 0 where
  pub log_kind : String
  pub level : String
  pub time_ns : ℕ
  pub line : String

abbrev pub Batch : Type 0
Batch = List Stream

-- A state with nothing pending. `last_success` is in nanoseconds.
pub record Core : Type 0 where
  pub cursors : List (String × Cursor)
  pub last_ns : ℕ
  pub last_success : ℕ
  pub sent : ℕ
  pub gaps : ℕ
  pub normal : List (String × ℕ)

-- The outbox, and the state once it is delivered; that one has nothing pending.
pub record Pending : Type 0 where
  pub batches : List Batch
  pub next : Core

pub record State : Type 0 where
  pub core : Core
  pub pending : Option Pending

-- `initial_state()`
abbrev pub initial_core : Core
initial_core = record {
  cursors = [];
  last_ns = 0;
  last_success = 0;
  sent = 0;
  gaps = 0;
  normal = [];
}

abbrev pub initial_state : State
initial_state = record { core = initial_core; pending = none }

is_hex : ℕ → Bool
is_hex c = leb b'a' c && leb c b'f' || leb b'0' c && leb c b'9'

is_sha256 : String → Bool
unfolding is_hex encode
is_sha256 text = length (encode text) == 64 && all is_hex (encode text)

is_valid_cursor : String × Cursor → Bool
unfolding is_sha256
is_valid_cursor (kind, c) = leb c.offset max_file && leb c.size_seen max_file && is_sha256 c.sha256

is_name_byte : ℕ → Bool
is_name_byte c = leb b'a' c && leb c b'z' || c == b'_'

-- `[a-z_]+` from here on, with `seen` saying whether there was one before.
is_name_from : Bool → List ℕ → Bool
unfolding is_name_byte
is_name_from seen [] = seen
is_name_from seen (c ∷ s) = is_name_byte c && is_name_from true s

-- `[a-z_]+/[a-z_]+`
is_counter_from : Bool → List ℕ → Bool
unfolding is_name_byte is_name_from
is_counter_from seen [] = false
is_counter_from seen (c ∷ s) =
    if c == b'/' then seen && is_name_from false s else is_name_byte c && is_counter_from true s

is_valid_counter : String × ℕ → Bool
unfolding is_counter_from encode
is_valid_counter (key, n) = is_counter_from false (encode key)

all_sources : {A : Type 0} → List (String × A) → Bool
unfolding is_source keys_of
all_sources d = all is_source (keys_of d)

validate_core : Core → Result (Unit {0})
unfolding all_sources is_valid_cursor is_valid_counter ◌>>=◌
validate_core s =
    require (all_sources s.cursors) "invalid cursors"
    >> (require (all is_valid_cursor s.cursors) "invalid cursor bounds"
        >> require (leb (length s.normal) 256 && all is_valid_counter s.normal)
            "invalid normal counters")

-- `batch_bytes` is the length of the JSON text of a batch.
validate_batches : (Batch → ℕ) → List Batch → Result (Unit {0})
unfolding is_source ◌>>=◌
validate_batches batch_bytes [] = ok tt
validate_batches batch_bytes (batch ∷ batches) =
    require (leb (batch_bytes batch) 262144) "invalid pending batch"
    >> (require (all (λ (s : Stream). is_source s.log_kind) batch) "invalid pending stream"
        >> validate_batches batch_bytes batches)

validate_pending : (Batch → ℕ) → Option Pending → Result (Unit {0})
unfolding validate_core validate_batches ◌>>=◌
validate_pending batch_bytes none = ok tt
validate_pending batch_bytes (some p) =
    require (leb (length p.batches) 512) "invalid outbox"
    >> (validate_core p.next >> validate_batches batch_bytes p.batches)

unfoldable pub validate_state : (Batch → ℕ) → State → Result (Unit {0})
unfolding validate_core validate_pending ◌>>=◌
validate_state batch_bytes s = validate_core s.core >> validate_pending batch_bytes s.pending
