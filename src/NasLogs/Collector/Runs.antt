-- ===== src/NasLogs/Collector/Runs.antt =====
-- Runs of the collector: polls, with any answers, and restarts. A process that dies within a poll
-- is a poll that raises there and a restart after it.
use homecluster_infra.Base.{
  ℕ, ◌≡◌, refl, sym, ap, subst, Bool, Option, none, some, List, [], leb, length, Result, ok, err,
  ◌>>=◌, >>=-eq-ok, require-eq-ok, ok-injective, inl, inr, ◌⊎◌,
}
use homecluster_infra.NasLogs.Snapshot.{Records}
use homecluster_infra.NasLogs.State.{Batch, Pending, State, validate_state}
use homecluster_infra.NasLogs.Prepare.{Rules, prepare}
use homecluster_infra.NasLogs.Prepare.Laws.{streams, Rises}
use homecluster_infra.NasLogs.Prepare.Outbox.{prepare-outbox}
use homecluster_infra.NasLogs.Collector.{
  Answers, Machine, restarted, atomic_save, load_state, deliver_pending, after_first_save, refill,
  poll_state, current_state, poll_loaded, poll_once,
}
use homecluster_infra.NasLogs.Collector.Justified.{
  Subsequence, Outbox, Chain, Justified, Justified-initial, Chain-counted,
}
use homecluster_infra.NasLogs.Collector.Sound.{
  IsSoundPending, IsSoundState, IsSound, atomic_save-IsSoundState, deliver-IsSound,
}

-- One run: the machines that polls and restarts lead to.
pub data Run (rules : Rules) : Machine → Type 0 where
  boots : Run rules (restarted none [])
  polls :
      {m : Machine} (filter_normal : Bool) (a : Answers)
      → Run rules m
      → Run rules (poll_once rules filter_normal a m)
  restarts : {m : Machine} → Run rules m → Run rules (restarted m.disk m.received)

module _ (rules : Rules) where
  deliver_pending-IsSound :
      (a : Answers) (s : State) (pending : Option Pending) (m : Machine)
      → m.memory ≡ some s
      → s.pending ≡ pending
      → IsSound rules m
      → IsSound rules (deliver_pending rules a pending m)
  unfolding deliver_pending
  deliver_pending-IsSound a s none m held this sound = sound
  deliver_pending-IsSound a s (some p) m held this sound =
      deliver-IsSound rules a p s m held this sound

  after_first_save-IsSound :
      (a : Answers) (s : State) (saved : Option State × Result (Unit {0})) (m : Machine)
      → IsSoundState rules m.received (some s)
      → IsSoundState rules m.received saved.0
      → IsSound rules m
      → IsSound rules (after_first_save rules a s saved m)
  unfolding after_first_save
  after_first_save-IsSound a s (disk, err e) m new file (memory, old) = (memory, file)
  after_first_save-IsSound a s (disk, ok done) m new file (memory, old) =
      deliver_pending-IsSound a s s.pending (record m { disk = disk; memory = some s }) refl refl
        (new, file)

  refill-IsSound :
      (a : Answers) (answer : Result State) (m : Machine)
      → ((s : State) → answer ≡ ok s → IsSoundState rules m.received (some s))
      → IsSound rules m
      → IsSound rules (refill rules a answer m)
  unfolding refill
  refill-IsSound a (err e) m new sound = sound
  refill-IsSound a (ok s) m new (memory, disk) =
      after_first_save-IsSound a s (atomic_save rules a.first_save s m.disk) m (new s refl)
        (atomic_save-IsSoundState rules a.first_save s m.disk m.received (new s refl) disk)
        (memory, disk)

  -- What `prepare` makes of a sound state is one.
  prepare-IsSoundState :
      (filter_normal : Bool) (snapshot : Records) (now_ns : ℕ) (s : State) (received : List Batch)
      {out : State}
      → s.pending ≡ none
      → prepare rules s snapshot now_ns filter_normal ≡ ok out
      → Justified rules received s.core
      → IsSoundState rules received (some out)
  prepare-IsSoundState filter_normal snapshot now_ns s received {out} idle h counted =
      let (p, same, pending, _, _, _, _, _) =
        prepare-outbox rules s snapshot now_ns filter_normal idle h in
      let this : s ≡ record { core = s.core; pending = none } =
        ap (λ o. record s { pending = o }) idle in
      let made : Outbox rules s.core p = (
        snapshot,
        now_ns,
        filter_normal,
        out,
        subst (λ t. prepare rules t snapshot now_ns filter_normal ≡ ok out) this h,
        pending,
      ) in
      (
        subst (Justified rules received) (sym same) counted,
        subst (λ c. IsSoundPending rules c out.pending) (sym same)
            (subst (IsSoundPending rules s.core) (sym pending) made),
      )

  poll_state-IsSound :
      (filter_normal : Bool) (a : Answers) (s : State) (pending : Option Pending) (m : Machine)
      → m.memory ≡ some s
      → s.pending ≡ pending
      → IsSound rules m
      → IsSound rules (poll_state rules filter_normal a s pending m)
  unfolding poll_state
  poll_state-IsSound filter_normal a s none m held idle (memory, disk) =
      refill-IsSound a (a.snapshot >>= λ snapshot. prepare rules s snapshot a.now_ns filter_normal)
        m
        (λ out h.
          let (snapshot, _, h1) = >>=-eq-ok a.snapshot _ h in
          prepare-IsSoundState filter_normal snapshot a.now_ns s m.received idle h1
            (subst (IsSoundState rules m.received) held memory).0)
        (memory, disk)
  poll_state-IsSound filter_normal a s (some p) m held busy sound =
      deliver-IsSound rules a p s m held busy sound

  poll_loaded-IsSound :
      (filter_normal : Bool) (a : Answers) (answer : Result State) (m : Machine)
      → ((s : State) → answer ≡ ok s → IsSoundState rules m.received (some s))
      → IsSound rules m
      → IsSound rules (poll_loaded rules filter_normal a answer m)
  unfolding poll_loaded
  poll_loaded-IsSound filter_normal a (err e) m new sound = sound
  poll_loaded-IsSound filter_normal a (ok s) m new (memory, disk) =
      poll_state-IsSound filter_normal a s s.pending (record m { memory = some s; state_valid = 1 })
        refl refl (new s refl, disk)

  load_state-IsSoundState :
      (readable : Bool) (disk : Option State) (received : List Batch) {s : State}
      → load_state rules readable disk ≡ ok s
      → IsSoundState rules received disk
      → IsSoundState rules received (some s)
  unfolding load_state
  load_state-IsSoundState readable none received h sound =
      let (_, h1) = require-eq-ok readable "OSError" _ h in
      subst (λ s. IsSoundState rules received (some s)) (ok-injective h1)
        (Justified-initial rules received, tt)
  load_state-IsSoundState readable (some found) received h sound =
      let (_, h1) = require-eq-ok readable "OSError" _ h in
      let (_, h2) = require-eq-ok (leb (rules.saved_bytes found) 67108864) _ _ h1 in
      let (_, _, h3) = >>=-eq-ok (validate_state rules.batch_bytes found) _ h2 in
      subst (λ s. IsSoundState rules received (some s)) (ok-injective h3) sound

  current_state-IsSoundState :
      (readable : Bool) (memory disk : Option State) (received : List Batch) {s : State}
      → current_state rules readable memory disk ≡ ok s
      → IsSoundState rules received memory
      → IsSoundState rules received disk
      → IsSoundState rules received (some s)
  unfolding current_state
  current_state-IsSoundState readable (some found) disk received h held file =
      subst (λ s. IsSoundState rules received (some s)) (ok-injective h) held
  current_state-IsSoundState readable none disk received h held file =
      load_state-IsSoundState readable disk received h file

  -- A poll keeps the machine sound, whatever it meets.
  pub poll_once-IsSound :
      (filter_normal : Bool) (a : Answers) (m : Machine)
      → IsSound rules m
      → IsSound rules (poll_once rules filter_normal a m)
  unfolding poll_once
  poll_once-IsSound filter_normal a m sound =
      poll_loaded-IsSound filter_normal a (current_state rules a.readable m.memory m.disk) m
        (λ s h. current_state-IsSoundState a.readable m.memory m.disk m.received h sound.0 sound.1)
        sound

  pub Run-IsSound : {m : Machine} → Run rules m → IsSound rules m
  Run-IsSound boots = (tt, tt)
  Run-IsSound (polls {m} filter_normal a run) =
      poll_once-IsSound filter_normal a m (Run-IsSound run)
  Run-IsSound (restarts {m} run) = (tt, (Run-IsSound run).1)

-- In every run of the collector, through any polls, failed reads, saves and pushes, and any
-- restarts, a state in memory or in the state file comes from the initial state by outboxes whose
-- batches, all of them, the log server has taken, in this order among what it has taken; the
-- counter of the state is the number of lines in these batches, and their time stamps rise
-- strictly, from above 0 to at most the state's last one.
pub Run-counted :
    (rules : Rules) {m : Machine} (run : Run rules m) (s : State)
    → (m.memory ≡ some s) ⊎ (m.disk ≡ some s)
    → (batches : List Batch) × Chain rules batches s.core
      × Subsequence batches m.received
      × (s.core.sent ≡ length (streams batches))
      × Rises 0 (streams batches) s.core.last_ns
Run-counted rules {m} run s held =
    let (memory, disk) = Run-IsSound rules run in
    let ((batches, chain, kept), _) : IsSoundState rules m.received (some s) = elim held [
      | inl h ↦ subst (IsSoundState rules m.received) h memory
      | inr h ↦ subst (IsSoundState rules m.received) h disk
    ] in
    let (sent, rises) = Chain-counted rules chain in (batches, chain, kept, sent, rises)
