-- ===== src/NasLogs/State/Laws.antt =====
-- `validate_state` on the parts of a state.
use homecluster_infra.Base.{
  ◌≡◌, refl, none, some, ok, ◌>>=◌, leb, length, >>=-eq-ok, require-eq-ok, ℕ,
}
use homecluster_infra.NasLogs.State.{
  Batch, Pending, State, validate_core, validate_pending, validate_state,
}

-- The state that an outbox leads to is valid where the outbox is.
pub validate_state-next :
    (batch_bytes : Batch → ℕ) (s : State) (p : Pending)
    → s.pending ≡ some p
    → validate_state batch_bytes s ≡ ok tt
    → validate_state batch_bytes (record { core = p.next; pending = none }) ≡ ok tt
unfolding validate_state validate_pending ◌>>=◌
validate_state-next batch_bytes s p busy valid =
    let (_, _, h) = >>=-eq-ok (validate_core s.core) _ valid in
    let (_, h1) = require-eq-ok (leb (length p.batches) 512) "invalid outbox" _ (rw busy at h) in
    let (_, next, _) = >>=-eq-ok (validate_core p.next) _ h1 in rw next refl
