-- ===== src/NasLogs/Collector/Sound.antt =====
-- What saves and pushes keep of a machine whose states the server's batches account for.
use homecluster_infra.Base.{
  ℕ, suc, ◌≡◌, refl, sym, ap, ◌∙◌, subst, Bool, true, Option, none, some, List, [], ◌∷◌, ◌++◌, leb,
  Result, ok, err, ◌>>◌, require, Bool-cases, inl, inr,
}
use mathlib.Core.List.{append_assoc, append-nil}
use homecluster_infra.NasLogs.State.{Batch, Core, Pending, State, validate_state}
use homecluster_infra.NasLogs.Prepare.{Rules}
use homecluster_infra.NasLogs.Collector.{
  Saving, Sending, Answers, Machine, after_push, push_all, after_save, atomic_save, after_last_save,
  commit, deliver,
}
use homecluster_infra.NasLogs.Collector.Justified.{
  Outbox, Justified, Justified-more, Justified-poll,
}

-- What pushes leave: more batches, and all of these where they say so.
abbrev Grown : List Batch → List Batch → List Batch × Bool → Type 0
Grown batches received (after, whole) =
    (more : List Batch) × (after ≡ received ++ more) × (whole ≡ true → more ≡ batches)

after_push-Grown :
    (sending : Sending) (batch : Batch) (batches received : List Batch) (rest : List Batch × Bool)
    → Grown batches (received ++ (batch ∷ [])) rest
    → Grown (batch ∷ batches) received (after_push sending received batch rest)
after_push-Grown Sending.delivered batch batches received rest (more, grown, whole) = (
  batch ∷ more,
  grown ∙ append_assoc received (batch ∷ []) more,
  λ h. ap (λ r. batch ∷ r) (whole h),
)
after_push-Grown Sending.too_late batch batches received rest after =
    ([], sym (append-nil received), λ h. cc)
after_push-Grown Sending.refused batch batches received rest after =
    ([], sym (append-nil received), λ h. cc)
after_push-Grown Sending.unanswered batch batches received rest after = (batch ∷ [], refl, λ h. cc)

pub push_all-Grown :
    (sending : ℕ → Sending) (i : ℕ) (batches received : List Batch)
    → Grown batches received (push_all sending i batches received)
unfolding push_all
push_all-Grown sending i [] received = ([], sym (append-nil received), λ h. refl)
push_all-Grown sending i (batch ∷ batches) received =
    after_push-Grown (sending i) batch batches received _
      (push_all-Grown sending (suc i) batches (received ++ (batch ∷ [])))

module _ (rules : Rules) where
  abbrev pub IsSoundPending : Core → Option Pending → Type 0
  IsSoundPending core none = Unit
  IsSoundPending core (some p) = Outbox rules core p

  -- A state that the server's batches account for, and an outbox made from it.
  abbrev pub IsSoundState : List Batch → Option State → Type 0
  IsSoundState received none = Unit
  IsSoundState received (some s) = Justified rules received s.core × IsSoundPending s.core s.pending

  abbrev pub IsSound : Machine → Type 0
  IsSound m = IsSoundState m.received m.memory × IsSoundState m.received m.disk

  IsSoundState-more :
      (received more : List Batch) (o : Option State)
      → IsSoundState received o
      → IsSoundState (received ++ more) o
  IsSoundState-more received more none sound = tt
  IsSoundState-more received more (some s) (counted, made) =
      (Justified-more rules received more s.core counted, made)

  pub after_save-IsSoundState :
      (saving : Saving) (s : State) (disk : Option State) (received : List Batch)
      → IsSoundState received (some s)
      → IsSoundState received disk
      → IsSoundState received (after_save saving s disk).0
  after_save-IsSoundState Saving.written s disk received new old = new
  after_save-IsSoundState Saving.not_written s disk received new old = old
  after_save-IsSoundState Saving.not_synchronised s disk received new old = new

  -- The state file after a save holds what it held or what was saved.
  pub atomic_save-IsSoundState :
      (saving : Saving) (s : State) (disk : Option State) (received : List Batch)
      → IsSoundState received (some s)
      → IsSoundState received disk
      → IsSoundState received (atomic_save rules saving s disk).0
  unfolding atomic_save
  atomic_save-IsSoundState saving s disk received new old =
      elim (validate_state rules.batch_bytes s
          >> require (leb (rules.saved_bytes s) 67108864) "state too large")
        as (λ tested.
          let saved : Option State × Result (Unit {0}) = elim tested [
            | err e ↦ (disk, err e)
            | ok done ↦ after_save saving s disk
          ] in
          IsSoundState received saved.0) [
            | err e ↦ old
            | ok done ↦ after_save-IsSoundState saving s disk received new old
          ]

  after_last_save-IsSound :
      (committed : State) (saved : Option State × Result (Unit {0})) (m : Machine)
      → IsSoundState m.received (some committed)
      → IsSoundState m.received saved.0
      → IsSound m
      → IsSound (after_last_save committed saved m)
  after_last_save-IsSound committed (disk, err e) m new file (memory, old) = (memory, file)
  after_last_save-IsSound committed (disk, ok done) m new file (memory, old) = (new, file)

  commit-IsSound :
      (saving : Saving) (next : Core) (m : Machine)
      → Justified rules m.received next
      → IsSound m
      → IsSound (commit rules saving next m)
  unfolding commit
  commit-IsSound saving next m counted (memory, disk) =
      let committed : State = record { core = next; pending = none } in
      after_last_save-IsSound committed (atomic_save rules saving committed m.disk) m (counted, tt)
        (atomic_save-IsSoundState saving committed m.disk m.received (counted, tt) disk)
        (memory, disk)

  pub deliver-IsSound :
      (a : Answers) (p : Pending) (s : State) (m : Machine)
      → m.memory ≡ some s
      → s.pending ≡ some p
      → IsSound m
      → IsSound (deliver rules a p m)
  unfolding deliver
  deliver-IsSound a p s m held busy (memory, disk) =
      let pushed = push_all a.sending 0 p.batches m.received in
      let (more, grown, whole) = push_all-Grown a.sending 0 p.batches m.received in
      let after : IsSound (record m { received = pushed.0 }) =
        subst (λ r. IsSoundState r m.memory × IsSoundState r m.disk) (sym grown)
          (
            IsSoundState-more m.received more m.memory memory,
            IsSoundState-more m.received more m.disk disk,
          ) in
      let (counted, made) = subst (IsSoundState m.received) held memory in
      elim (Bool-cases pushed.1) [
        | inr e ↦ rw e after
        | inl e ↦ rw e (
            commit-IsSound a.last_save p.next (record m { received = pushed.0 })
              (subst (λ r. Justified rules r p.next)
                (ap (λ r. m.received ++ r) (sym (whole e)) ∙ sym grown)
                (Justified-poll rules m.received s.core p counted
                  (subst (IsSoundPending s.core) busy made)))
              after)
      ]
