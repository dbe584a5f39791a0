-- ===== src/NasLogs/Collector.antt =====
-- The collector of nas_file_logs_collector.py: its poll over the state file and the log server.
--
-- What a poll meets outside itself is an argument, `Answers`: whether the state file can be read,
-- the snapshot, the clock, what becomes of each save and of each push. `batch_bytes` and
-- `saved_bytes` of `Rules` are the lengths of JSON texts.
pub mod Justified
pub mod Sound
pub mod Runs
pub mod Delivery
use homecluster_infra.Base.{
  ℕ, zero, suc, ◌+◌, Bool, true, false, Option, none, some, List, [], ◌∷◌, ◌++◌, leb, if◌then◌else◌,
  Result, ok, err, ◌>>=◌, ◌>>◌, require,
}
use homecluster_infra.NasLogs.Snapshot.{Records}
use homecluster_infra.NasLogs.State.{Batch, Core, Pending, State, initial_state, validate_state}
use homecluster_infra.NasLogs.Prepare.{Rules, prepare}

-- What `os.replace` and the two `os.fsync` of a save do: the file replaced and synchronised, the old
-- file kept, or the file replaced and the directory not synchronised, which raises.
pub data Saving : Type 0 where
  written : Saving
  not_written : Saving
  not_synchronised : Saving

-- What becomes of a push: the server answers 204; the budget of 55 seconds is used up before it; it
-- raises and the server has nothing; it raises although the server has taken the batch.
pub data Sending : Type 0 where
  delivered : Sending
  too_late : Sending
  refused : Sending
  unanswered : Sending

pub record Answers : Type 0 where
  pub readable : Bool
  pub snapshot : Result Records
  pub now_ns : ℕ
  pub first_save : Saving
  pub sending : ℕ → Sending
  pub last_save : Saving

-- The collector, its state file (`none` where there is none), and what the server has taken, the
-- oldest batch first.
pub record Machine : Type 0 where
  pub memory : Option State
  pub disk : Option State
  pub received : List Batch
  pub success : ℕ
  pub state_valid : ℕ
  pub push_failures : ℕ
  pub collection_failures : ℕ

-- A collector that starts, with what an earlier one left behind.
abbrev pub restarted : Option State → List Batch → Machine
restarted disk received = record {
  memory = none;
  disk = disk;
  received = received;
  success = 0;
  state_valid = 0;
  push_failures = 0;
  collection_failures = 0;
}

-- The handler of `poll_once`.
abbrev pub failed : Machine → Machine
failed m = record m {
  success = 0;
  collection_failures = m.collection_failures + 1;
  state_valid = elim m.memory [ none ↦ 0 | some s ↦ m.state_valid ];
}

-- One push of the loop, `rest` being what the loop comes to after it.
abbrev pub after_push : Sending → List Batch → Batch → List Batch × Bool → List Batch × Bool
after_push Sending.delivered received batch rest = rest
after_push Sending.too_late received batch rest = (received, false)
after_push Sending.refused received batch rest = (received, false)
after_push Sending.unanswered received batch rest = (received ++ (batch ∷ []), false)

-- `for batch in pending['batches']`, from the batch at `i`: what the server has taken afterwards, and
-- whether all of it was delivered.
unfoldable pub push_all : (ℕ → Sending) → ℕ → List Batch → List Batch → List Batch × Bool
push_all sending i [] received = (received, true)
push_all sending i (batch ∷ batches) received =
    after_push (sending i) received batch
      (push_all sending (suc i) batches (received ++ (batch ∷ [])))

-- The write of `atomic_save`.
abbrev after_save : Saving → State → Option State → Option State × Result (Unit {0})
after_save Saving.written s disk = (some s, ok tt)
after_save Saving.not_written s disk = (disk, err "OSError")
after_save Saving.not_synchronised s disk = (some s, err "OSError")

-- From the last save on, the save being done.
abbrev pub after_last_save : State → Option State × Result (Unit {0}) → Machine → Machine
after_last_save committed (disk, err e) m = failed (record m { disk = disk })
after_last_save committed (disk, ok done) m = record m {
  disk = disk;
  memory = some committed;
  success = 1;
}

module _ (rules : Rules) where
  -- `atomic_save`: the state file afterwards, and whether it raises.
  unfoldable pub atomic_save : Saving → State → Option State → Option State × Result (Unit {0})
  unfolding validate_state ◌>>=◌
  atomic_save saving s disk =
      elim (validate_state rules.batch_bytes s
        >> require (leb (rules.saved_bytes s) 67108864) "state too large") [
          | err e ↦ (disk, err e)
          | ok done ↦ after_save saving s disk
        ]

  -- `load_state`
  unfoldable pub load_state : Bool → Option State → Result State
  unfolding validate_state ◌>>=◌
  load_state readable none = require readable "OSError" >> ok initial_state
  load_state readable (some s) =
      require readable "OSError"
      >> (require (leb (rules.saved_bytes s) 67108864) "state too large"
          >> (validate_state rules.batch_bytes s >> ok s))

  -- From `committed = pending['next']` on.
  unfoldable pub commit : Saving → Core → Machine → Machine
  unfolding atomic_save
  commit saving next m =
      let committed : State = record { core = next; pending = none } in
      after_last_save committed (atomic_save saving committed m.disk) m

  -- From `pending = self.state['pending']` on.
  unfoldable pub deliver : Answers → Pending → Machine → Machine
  unfolding push_all commit
  deliver a p m =
      let (received, all_sent) = push_all a.sending 0 p.batches m.received in
      if all_sent
      then commit a.last_save p.next (record m { received = received })
      else failed (record m { received = received; push_failures = m.push_failures + 1 })

  -- A state without anything pending has no batches to take, which raises.
  unfoldable pub deliver_pending : Answers → Option Pending → Machine → Machine
  unfolding deliver
  deliver_pending a none m = failed m
  deliver_pending a (some p) m = deliver a p m

  -- From the first save on, the save being done.
  unfoldable pub after_first_save :
      Answers → State → Option State × Result (Unit {0}) → Machine → Machine
  unfolding deliver_pending
  after_first_save a candidate (disk, err e) m = failed (record m { disk = disk })
  after_first_save a candidate (disk, ok done) m =
      deliver_pending a candidate.pending (record m { disk = disk; memory = some candidate })

  -- From the answer of `prepare` on.
  unfoldable pub refill : Answers → Result State → Machine → Machine
  unfolding atomic_save after_first_save
  refill a (err e) m = failed m
  refill a (ok candidate) m =
      after_first_save a candidate (atomic_save a.first_save candidate m.disk) m

  -- What follows once the state is in memory.
  unfoldable pub poll_state : Bool → Answers → State → Option Pending → Machine → Machine
  unfolding prepare refill deliver ◌>>=◌
  poll_state filter_normal a s none m =
      refill a (a.snapshot >>= λ snapshot. prepare rules s snapshot a.now_ns filter_normal) m
  poll_state filter_normal a s (some p) m = deliver a p m

  -- `self.state`, loaded where it is not there yet.
  unfoldable pub current_state : Bool → Option State → Option State → Result State
  unfolding load_state
  current_state readable (some s) disk = ok s
  current_state readable none disk = load_state readable disk

  unfoldable pub poll_loaded : Bool → Answers → Result State → Machine → Machine
  unfolding poll_state
  poll_loaded filter_normal a (err e) m = failed m
  poll_loaded filter_normal a (ok s) m =
      poll_state filter_normal a s s.pending (record m { memory = some s; state_valid = 1 })

  unfoldable pub poll_once : Bool → Answers → Machine → Machine
  unfolding current_state poll_loaded
  poll_once filter_normal a m =
      poll_loaded filter_normal a (current_state a.readable m.memory m.disk) m
