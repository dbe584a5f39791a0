-- ===== src/NasLogs/Collector/Delivery.antt =====
-- A poll that meets no fault, and one whose push fails together with the poll after it.
use homecluster_infra.Base.{
  ℕ, suc, ◌+◌, ◌<◌, length, arith, ◌≡◌, refl, sym, ap, ◌∙◌, Bool, true, false, Option, none, some,
  List, [], ◌∷◌, ◌++◌, leb, ok, ◌>>=◌,
}
use mathlib.Core.List.{append_assoc, append-nil}
use homecluster_infra.NasLogs.Snapshot.{Records}
use homecluster_infra.NasLogs.State.{Batch, Core, Pending, State, validate_state}
use homecluster_infra.NasLogs.State.Laws.{validate_state-next}
use homecluster_infra.NasLogs.Prepare.{Rules, prepare}
use homecluster_infra.NasLogs.Prepare.Outbox.{prepare-outbox}
use homecluster_infra.NasLogs.Collector.{
  Saving, Sending, Answers, Machine, after_push, push_all, atomic_save, after_last_save, commit,
  deliver, deliver_pending, after_first_save, refill, poll_state, current_state, poll_loaded,
  poll_once,
}

-- Every push is answered with 204.
push_all-delivered :
    (sending : ℕ → Sending) (i : ℕ) (batches received : List Batch)
    → ((k : ℕ) → sending k ≡ Sending.delivered)
    → push_all sending i batches received ≡ (received ++ batches, true)
unfolding push_all
push_all-delivered sending i [] received good = ap (λ r. (r, true)) (sym (append-nil received))
push_all-delivered sending i (batch ∷ batches) received good = rw (good i) (
    push_all-delivered sending (suc i) batches (received ++ (batch ∷ [])) good
    ∙ ap (λ r. (r, true)) (append_assoc received (batch ∷ []) batches))

-- What the server has of a batch whose push ends the loop.
abbrev pub taken_by : Sending → Batch → List Batch
taken_by Sending.delivered batch = batch ∷ []
taken_by Sending.too_late batch = []
taken_by Sending.refused batch = []
taken_by Sending.unanswered batch = batch ∷ []

after_push-taken_by :
    (push : Sending) (received : List Batch) (batch : Batch) (rest : List Batch × Bool)
    → ¬ (push ≡ Sending.delivered)
    → after_push push received batch rest ≡ (received ++ taken_by push batch, false)
after_push-taken_by Sending.delivered received batch rest stops = absurd (stops refl)
after_push-taken_by Sending.too_late received batch rest stops =
    ap (λ r. (r, false)) (sym (append-nil received))
after_push-taken_by Sending.refused received batch rest stops =
    ap (λ r. (r, false)) (sym (append-nil received))
after_push-taken_by Sending.unanswered received batch rest stops = refl

-- The pushes before one that raises are answered with 204.
push_all-stopped :
    (sending : ℕ → Sending) (i : ℕ) (before : List Batch) (batch : Batch)
    (after received : List Batch)
    → ((k : ℕ) → k < length before → sending (i + k) ≡ Sending.delivered)
    → ¬ (sending (i + length before) ≡ Sending.delivered)
    → push_all sending i (before ++ (batch ∷ after)) received
      ≡ (received ++ (before ++ taken_by (sending (i + length before)) batch), false)
unfolding push_all
push_all-stopped sending i [] batch after received good stops =
    let same : i + length {A = Batch} [] ≡ i = omega arith in
    after_push-taken_by (sending i) received batch
      (push_all sending (suc i) after (received ++ (batch ∷ []))) (λ h. stops (ap sending same ∙ h))
    ∙ ap (λ n. (received ++ taken_by (sending n) batch, false)) (sym same)
push_all-stopped sending i (first ∷ before) batch after received good stops =
    let next : suc i + length before ≡ i + suc (length before) = omega arith in
    let this : sending i ≡ Sending.delivered = ap sending (omega arith) ∙ good 0 (omega arith) in
    rw this (
      push_all-stopped sending (suc i) before batch after (received ++ (first ∷ []))
        (λ k small. ap sending (omega arith) ∙ good (suc k) (omega (arith, small)))
        (λ h. stops (ap sending (sym next) ∙ h))
      ∙ ap (λ r. (r, false))
          (append_assoc received (first ∷ [])
            (before ++ taken_by (sending (suc i + length before)) batch))
      ∙ ap (λ n. (received ++ (first ∷ (before ++ taken_by (sending n) batch)), false)) next)

push_all-stopped_first :
    (sending : ℕ → Sending) (before : List Batch) (batch : Batch) (after received : List Batch)
    → ((k : ℕ) → k < length before → sending k ≡ Sending.delivered)
    → ¬ (sending (length before) ≡ Sending.delivered)
    → push_all sending 0 (before ++ (batch ∷ after)) received
      ≡ (received ++ (before ++ taken_by (sending (length before)) batch), false)
push_all-stopped_first sending before batch after received good stops =
    let same : 0 + length before ≡ length before = omega arith in
    push_all-stopped sending 0 before batch after received
      (λ k small. ap sending (omega arith) ∙ good k small) (λ h. stops (ap sending (sym same) ∙ h))
    ∙ ap (λ n. (received ++ (before ++ taken_by (sending n) batch), false)) same

module _ (rules : Rules) where
  -- A state that may be saved.
  abbrev pub Fits : State → Type 0
  Fits s =
      (validate_state rules.batch_bytes s ≡ ok tt) × (leb (rules.saved_bytes s) 67108864 ≡ true)

  -- A save that is written.
  atomic_save-written :
      (s : State) (disk : Option State)
      → Fits s
      → atomic_save rules Saving.written s disk ≡ (some s, ok tt)
  unfolding atomic_save ◌>>=◌
  atomic_save-written s disk (valid, small) = rw (atomic_save, valid, small) refl

  -- The machine once a state is delivered and committed.
  abbrev pub delivered_machine : Machine → Pending → Machine
  delivered_machine m p =
      let committed : State = record { core = p.next; pending = none } in
      record {
        memory = some committed;
        disk = some committed;
        received = m.received ++ p.batches;
        success = 1;
        state_valid = 1;
        push_failures = m.push_failures;
        collection_failures = m.collection_failures;
      }

  commit-written :
      (next : Core) (m : Machine)
      → Fits (record { core = next; pending = none })
      → commit rules Saving.written next m ≡ record m {
        memory = some (record { core = next; pending = none });
        disk = some (record { core = next; pending = none });
        success = 1;
      }
  unfolding commit
  commit-written next m fits =
      let committed : State = record { core = next; pending = none } in
      ap (λ saved. after_last_save committed saved m) (atomic_save-written committed m.disk fits)

  -- Pushes and the last save meet no fault.
  abbrev pub Delivers : Answers → Pending → Type 0
  Delivers a p =
      ((k : ℕ) → a.sending k ≡ Sending.delivered)
      × (a.last_save ≡ Saving.written)
      × Fits (record { core = p.next; pending = none })

  deliver-Delivers :
      (a : Answers) (p : Pending) (m : Machine)
      → Delivers a p
      → m.state_valid ≡ 1
      → deliver rules a p m ≡ delivered_machine m p
  unfolding deliver
  deliver-Delivers a p m (good, last, fits) valid =
      rw (push_all-delivered a.sending 0 p.batches m.received good, last)
        (commit-written p.next (record m { received = m.received ++ p.batches }) fits
          ∙ ap (λ n. record (delivered_machine m p) { state_valid = n }) valid)

  -- A poll whose state has an outbox, as after a failed push or a restart, and whose pushes and
  -- last save meet no fault, the next state being valid and within the limit, delivers that outbox
  -- and ends with the outbox's next state in memory and in the file.
  pub poll_once-retries :
      (filter_normal : Bool) (a : Answers) (m : Machine) (core : Core) (p : Pending)
      → current_state rules a.readable m.memory m.disk
        ≡ ok (record { core = core; pending = some p })
      → Delivers a p
      → poll_once rules filter_normal a m ≡ delivered_machine m p
  unfolding poll_once poll_loaded poll_state
  poll_once-retries filter_normal a m core p loaded good =
      ap (λ r. poll_loaded rules filter_normal a r m) loaded
      ∙ deliver-Delivers a p
          (record m { memory = some (record { core = core; pending = some p }); state_valid = 1 })
          good refl

  -- A poll with nothing pending, a snapshot that prepare accepts, states that fit the limit, saves
  -- that are written and pushes that are all taken ends with the outbox's next state in memory and
  -- in the file, the server having taken the outbox's batches after what it had, and the poll
  -- counted as a success.
  pub poll_once-collects :
      (filter_normal : Bool) (a : Answers) (m : Machine) (core : Core) (out : State) (p : Pending)
      (snapshot : Records)
      → current_state rules a.readable m.memory m.disk ≡ ok (record { core = core; pending = none })
      → a.snapshot ≡ ok snapshot
      → prepare rules (record { core = core; pending = none }) snapshot a.now_ns filter_normal
        ≡ ok out
      → out.pending ≡ some p
      → leb (rules.saved_bytes out) 67108864 ≡ true
      → leb (rules.saved_bytes (record { core = p.next; pending = none })) 67108864 ≡ true
      → a.first_save ≡ Saving.written
      → ((k : ℕ) → a.sending k ≡ Sending.delivered)
      → a.last_save ≡ Saving.written
      → poll_once rules filter_normal a m ≡ delivered_machine m p
  unfolding poll_once poll_loaded poll_state refill after_first_save deliver_pending ◌>>=◌
  poll_once-collects filter_normal a m core out p snapshot loaded fetched made busy small small_next
        first good last =
      let idle : State = record { core = core; pending = none } in
      let (_, _, _, valid, _, _, _, _) =
        prepare-outbox rules idle snapshot a.now_ns filter_normal refl made in
      let ready = record m { memory = some idle; state_valid = 1 } in
      let kept = record m { memory = some out; disk = some out; state_valid = 1 } in
      ap (λ r. poll_loaded rules filter_normal a r m) loaded
      ∙ ap (λ r. refill rules a r ready)
          (ap (λ r. r >>= λ found. prepare rules idle found a.now_ns filter_normal) fetched ∙ made)
      ∙ ap (λ saving. after_first_save rules a out (atomic_save rules saving out m.disk) ready)
          first
      ∙ ap (λ saved. after_first_save rules a out saved ready)
          (atomic_save-written out m.disk (valid, small))
      ∙ ap (λ pending. deliver_pending rules a pending kept) busy
      ∙ deliver-Delivers a p kept
          (good, last, (validate_state-next rules.batch_bytes out p busy valid, small_next)) refl

  -- A poll of whose outbox not every batch is delivered.
  poll_once-keeps :
      (filter_normal : Bool) (a : Answers) (m : Machine) (core : Core) (p : Pending)
      → current_state rules a.readable m.memory m.disk
        ≡ ok (record { core = core; pending = some p })
      → (push_all a.sending 0 p.batches m.received).1 ≡ false
      → poll_once rules filter_normal a m ≡ record {
        memory = some (record { core = core; pending = some p });
        disk = m.disk;
        received = (push_all a.sending 0 p.batches m.received).0;
        success = 0;
        state_valid = 1;
        push_failures = m.push_failures + 1;
        collection_failures = m.collection_failures + 1;
      }
  unfolding poll_once poll_loaded poll_state deliver
  poll_once-keeps filter_normal a m core p loaded broken =
      ap (λ r. poll_loaded rules filter_normal a r m) loaded ∙ rw (deliver, broken) refl

  -- In a poll whose state has an outbox, the pushes of some batches are answered with 204 and that
  -- of the next one is not; in the next poll the pushes and the last save meet no fault, the next
  -- state being valid and within the limit. Then the outbox's next state is in memory and in the
  -- file, and the server has taken what it had, the batches before the failed one, the failed one
  -- if its push took effect, and then the whole outbox; one failed push and one failed poll are
  -- counted.
  pub poll_once-recovers :
      (filter_normal : Bool) (a b : Answers) (m : Machine) (core : Core) (p : Pending)
      (before : List Batch) (batch : Batch) (after : List Batch)
      → current_state rules a.readable m.memory m.disk
        ≡ ok (record { core = core; pending = some p })
      → p.batches ≡ before ++ (batch ∷ after)
      → ((k : ℕ) → k < length before → a.sending k ≡ Sending.delivered)
      → ¬ (a.sending (length before) ≡ Sending.delivered)
      → Delivers b p
      → poll_once rules filter_normal b (poll_once rules filter_normal a m) ≡ record {
        memory = some (record { core = p.next; pending = none });
        disk = some (record { core = p.next; pending = none });
        received =
            (m.received ++ (before ++ taken_by (a.sending (length before)) batch)) ++ p.batches;
        success = 1;
        state_valid = 1;
        push_failures = m.push_failures + 1;
        collection_failures = m.collection_failures + 1;
      }
  unfolding current_state
  poll_once-recovers filter_normal a b m core p before batch after loaded these good stops again =
      let stopped =
        ap (λ batches. push_all a.sending 0 batches m.received) these
        ∙ push_all-stopped_first a.sending before batch after m.received good stops in
      let lost = poll_once-keeps filter_normal a m core p loaded (ap (λ r. r.1) stopped) in
      let kept = poll_once rules filter_normal a m in
      let stored : current_state rules b.readable kept.memory kept.disk
          ≡ ok (record { core = core; pending = some p }) =
        ap (λ (n : Machine). current_state rules b.readable n.memory n.disk) lost in
      poll_once-retries filter_normal b kept core p stored again
      ∙ ap (λ n. delivered_machine n p) lost
      ∙ ap
          (λ (r : List Batch × Bool). record {
            memory = some (record { core = p.next; pending = none });
            disk = some (record { core = p.next; pending = none });
            received = r.0 ++ p.batches;
            success = 1;
            state_valid = 1;
            push_failures = m.push_failures + 1;
            collection_failures = m.collection_failures + 1;
          })
          stopped
