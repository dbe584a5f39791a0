-- ===== src/NasLogs/Collector/Justified.antt =====
-- States that the server's batches account for: every cursor and counter of the state comes from
-- polls whose whole outbox the server has taken, in that order.
use homecluster_infra.Base.{
  ℕ, ◌+◌, ◌≡◌, refl, sym, ap, ◌∙◌, subst, Bool, none, some, List, [], ◌∷◌, ◌++◌, length,
  length-append, ok, some-eq, arith,
}
use mathlib.Core.List.{append_assoc}
use homecluster_infra.NasLogs.Snapshot.{Records}
use homecluster_infra.NasLogs.State.{Stream, Batch, Core, Pending, State, initial_core}
use homecluster_infra.NasLogs.Prepare.{Rules, prepare}
use homecluster_infra.NasLogs.Prepare.Laws.{streams, Rises}
use homecluster_infra.NasLogs.Prepare.Outbox.{prepare-outbox}

-- The second list has the first one's items, in that order, and maybe others.
pub data Subsequence {ℓ} {A : Type ℓ} : List A → List A → Type ℓ where
  stop : Subsequence [] []
  skip : {x : A} {xs ys : List A} → Subsequence xs ys → Subsequence xs (x ∷ ys)
  keep : {x : A} {xs ys : List A} → Subsequence xs ys → Subsequence (x ∷ xs) (x ∷ ys)

pub skip_after {ℓ} :
    {A : Type ℓ} {xs ys : List A} (more : List A) → Subsequence xs ys → Subsequence xs (ys ++ more)
skip_after [] stop = stop
skip_after (m ∷ more) stop = skip (skip_after more stop)
skip_after more (skip s) = skip (skip_after more s)
skip_after more (keep s) = keep (skip_after more s)

pub Subsequence_refl {ℓ} : {A : Type ℓ} (xs : List A) → Subsequence xs xs
Subsequence_refl [] = stop
Subsequence_refl (x ∷ xs) = keep (Subsequence_refl xs)

pub keep_after {ℓ} :
    {A : Type ℓ} {xs ys : List A} (more : List A)
    → Subsequence xs ys
    → Subsequence (xs ++ more) (ys ++ more)
keep_after more stop = Subsequence_refl more
keep_after more (skip s) = skip (keep_after more s)
keep_after more (keep s) = keep (keep_after more s)

streams-append : (xs ys : List Batch) → streams (xs ++ ys) ≡ streams xs ++ streams ys
streams-append [] ys = refl
streams-append (x ∷ xs) ys =
    ap (λ r. x ++ r) (streams-append xs ys) ∙ sym (append_assoc x (streams xs) (streams ys))

Rises-append :
    (low : ℕ) (xs : List Stream) (middle : ℕ) (ys : List Stream) (high : ℕ)
    → Rises low xs middle
    → Rises middle ys high
    → Rises low (xs ++ ys) high
Rises-append low [] middle [] high le up = omega arith
Rises-append low [] middle (y ∷ ys) high le (first, up) = (omega arith, up)
Rises-append low (x ∷ xs) middle ys high (first, rest) up =
    (first, Rises-append x.time_ns xs middle ys high rest up)

module _ (rules : Rules) where
  -- What `prepare` makes of the state with nothing pending, for some snapshot.
  abbrev pub Outbox : Core → Pending → Type 0
  Outbox core p =
      (snapshot : Records) × (now_ns : ℕ) × (filter_normal : Bool) × (out : State) × (prepare rules
          (record { core = core; pending = none }) snapshot now_ns filter_normal
        ≡ ok out)
      × (out.pending ≡ some p)

  -- From the initial state to this one, through outboxes with these batches in all.
  pub data Chain : List Batch → Core → Type 0 where
    start : Chain [] initial_core
    poll :
        {batches : List Batch} {core : Core} (p : Pending)
        → Chain batches core
        → Outbox core p
        → Chain (batches ++ p.batches) p.next

  -- Accounted for by what the server has taken.
  abbrev pub Justified : List Batch → Core → Type 0
  Justified received core =
      (batches : List Batch) × Chain batches core × Subsequence batches received

  pub Justified-initial : (received : List Batch) → Justified received initial_core
  Justified-initial received = ([], start, skip_after received stop)

  pub Justified-more :
      (received more : List Batch) (core : Core)
      → Justified received core
      → Justified (received ++ more) core
  Justified-more received more core (batches, chain, kept) = (batches, chain, skip_after more kept)

  pub Justified-poll :
      (received : List Batch) (core : Core) (p : Pending)
      → Justified received core
      → Outbox core p
      → Justified (received ++ p.batches) p.next
  Justified-poll received core p (batches, chain, kept) made =
      (batches ++ p.batches, poll p chain made, keep_after p.batches kept)

  Outbox-counted :
      (core : Core) (p : Pending)
      → Outbox core p
      → (p.next.sent ≡ core.sent + length (streams p.batches))
        × Rises core.last_ns (streams p.batches) p.next.last_ns
  Outbox-counted core p (snapshot, now_ns, filter_normal, out, made, pending) =
      let (q, _, found, _, sent, _, rises, _) =
        prepare-outbox rules (record { core = core; pending = none }) snapshot now_ns filter_normal
          refl made in
      let this : q ≡ p = some-eq (sym found ∙ pending) in
      subst
        (λ (r : Pending).
          (r.next.sent ≡ core.sent + length (streams r.batches))
          × Rises core.last_ns (streams r.batches) r.next.last_ns)
        this (sent, rises)

  -- The lines of the chain are the counted ones, with time stamps that rise.
  pub Chain-counted :
      {batches : List Batch} {core : Core}
      → Chain batches core
      → (core.sent ≡ length (streams batches)) × Rises 0 (streams batches) core.last_ns
  Chain-counted start = (refl, omega arith)
  Chain-counted (poll {batches} {core} p chain made) =
      let (sent, rises) = Chain-counted chain in
      let (more, higher) = Outbox-counted core p made in
      rw (streams-append batches p.batches) (
        omega (arith, sent, more, length-append (streams batches) (streams p.batches)),
        Rises-append 0 (streams batches) core.last_ns (streams p.batches) p.next.last_ns rises
            higher,
      )
