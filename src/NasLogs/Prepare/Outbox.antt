-- ===== src/NasLogs/Prepare/Outbox.antt =====
-- What `prepare` makes of a state: the outbox that it fills, or the state as it is.
use homecluster_infra.Base.{
  ℕ, ◌+◌, ◌≡◌, refl, sym, ap, subst, Bool, true, none, some, leb, length, ok, >>=-eq-ok,
  require-eq-ok, ok-injective, arith,
}
use homecluster_infra.NasLogs.Snapshot.{Records}
use homecluster_infra.NasLogs.State.{sources, Pending, State, validate_state}
use homecluster_infra.NasLogs.Prepare.{
  Rules, Progress, start_progress, add_kinds, all_batches, outbox, prepare,
}
use homecluster_infra.NasLogs.Prepare.Laws.{
  streams, Rises, NotBefore, streams-all_batches, add_kinds-IsCounted,
}

-- What `prepare` does with a state that has nothing pending.
pub prepare-eq-ok :
    (rules : Rules) (s : State) (snapshot : Records) (now_ns : ℕ) (filter_normal : Bool)
    {out : State}
    → s.pending ≡ none
    → prepare rules s snapshot now_ns filter_normal ≡ ok out
    → (p : Progress) × (add_kinds rules now_ns filter_normal s.core snapshot sources
          (start_progress s.core)
        ≡ ok p)
      × (leb (length (all_batches p)) 512 ≡ true)
      × (validate_state rules.batch_bytes out ≡ ok tt)
      × (out ≡ outbox s.core now_ns p)
unfolding prepare
prepare-eq-ok rules s snapshot now_ns filter_normal {out} idle h =
    let (done, _, h1) = >>=-eq-ok (validate_state rules.batch_bytes s) _ h in
    let planned : (p : Progress) × _ × _ =
      >>=-eq-ok
        (add_kinds rules now_ns filter_normal s.core snapshot sources (start_progress s.core)) _
        (rw idle at h1) in
    let (p, added, h2) = planned in
    let (few, h3) = require-eq-ok (leb (length (all_batches p)) 512) _ _ h2 in
    let (_, valid, h4) =
      >>=-eq-ok (validate_state rules.batch_bytes (outbox s.core now_ns p)) _ h3 in
    let (_, h5) =
      require-eq-ok (leb (rules.state_bytes (outbox s.core now_ns p)) 67108864) _ _ h4 in
    let this = ok-injective h5 in
    (p, added, few, subst (λ o. validate_state rules.batch_bytes o ≡ ok tt) this valid, sym this)

-- With something pending, `prepare` returns the state as it is, if it returns.
pub prepare-pending :
    (rules : Rules) (s : State) (p : Pending) (snapshot : Records) (now_ns : ℕ)
    (filter_normal : Bool) {out : State}
    → s.pending ≡ some p
    → prepare rules s snapshot now_ns filter_normal ≡ ok out
    → out ≡ s
unfolding prepare
prepare-pending rules s p snapshot now_ns filter_normal busy h =
    let (_, _, h1) = >>=-eq-ok (validate_state rules.batch_bytes s) _ h in
    sym (ok-injective (rw busy at h1))

-- If prepare accepts a state with nothing pending, it keeps the state and adds an outbox that is
-- valid with it: the counter after the outbox is the one before and the number of lines in its
-- batches, the time of success is the clock, and the time stamps of the lines rise strictly, from
-- above the last one to at most the new last one, and are not before the clock.
pub prepare-outbox :
    (rules : Rules) (s : State) (snapshot : Records) (now_ns : ℕ) (filter_normal : Bool)
    {out : State}
    → s.pending ≡ none
    → prepare rules s snapshot now_ns filter_normal ≡ ok out
    → (p : Pending) × (out.core ≡ s.core)
      × (out.pending ≡ some p)
      × (validate_state rules.batch_bytes out ≡ ok tt)
      × (p.next.sent ≡ s.core.sent + length (streams p.batches))
      × (p.next.last_success ≡ now_ns)
      × Rises s.core.last_ns (streams p.batches) p.next.last_ns
      × NotBefore now_ns (streams p.batches)
prepare-outbox rules s snapshot now_ns filter_normal {out} idle h =
    let (p, added, _, valid, made) = prepare-eq-ok rules s snapshot now_ns filter_normal idle h in
    let counted =
      add_kinds-IsCounted rules s.core now_ns filter_normal snapshot sources (start_progress s.core)
        added (omega arith, omega arith, tt) in
    let (sent, rises, fresh) =
      subst
        (λ xs.
          (p.next.sent ≡ s.core.sent + length xs)
          × Rises s.core.last_ns xs p.next.last_ns
          × NotBefore now_ns xs)
        (sym (streams-all_batches p)) counted in
    (
      record { batches = all_batches p; next = record p.next { last_success = now_ns } },
      ap (λ (o : State). o.core) made,
      ap (λ (o : State). o.pending) made,
      valid,
      sent,
      refl,
      rises,
      fresh,
    )
