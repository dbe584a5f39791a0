-- ===== src/NasLogs/Prepare/Laws.antt =====
-- The outbox: each queued line is counted, and stamped later than the one before.
use homecluster_infra.Base.{
  ℕ, ◌+◌, ◌≤◌, ◌<◌, max, ◌≡◌, refl, sym, ap, ◌∙◌, subst, String, Bool, true, Option, none, some,
  List, [], ◌∷◌, ◌++◌, ◌==◌, nat_eq, string_eq, ltb, length, length-append, is_empty, find,
  if◌then◌else◌, ok, arith, Bool-cases, Option-cases, inl, inr, >>=-eq-ok, ok-injective, err-ok,
}
use mathlib.Core.List.{append_assoc, append-nil}
use homecluster_infra.NasLogs.Snapshot.{Records}
use homecluster_infra.NasLogs.Records.{Ended, last_end}
use homecluster_infra.NasLogs.State.{Cursor, Stream, Batch, Core}
use homecluster_infra.NasLogs.Prepare.{
  Rules, Work, Progress, count_normal, add_stream, add_record, add_records, work_records,
  bootstrapped, is_none, add_file, add_files, with_gap, current_only, file_of, work_found,
  chronological, set_if_current, plan_kind, add_kinds, all_batches,
}

abbrev pub streams : List Batch → List Stream
streams [] = []
streams (batch ∷ batches) = batch ++ streams batches

-- The time stamps rise strictly, from above `low` to at most `high`.
abbrev pub Rises : ℕ → List Stream → ℕ → Type 0
Rises low [] high = low ≤ high
Rises low (s ∷ rest) high = (low < s.time_ns) × Rises s.time_ns rest high

abbrev pub NotBefore : ℕ → List Stream → Type 0
NotBefore now [] = Unit
NotBefore now (s ∷ rest) = (now ≤ s.time_ns) × NotBefore now rest

Rises-snoc :
    (low : ℕ) (xs : List Stream) (s : Stream) (high : ℕ)
    → Rises low xs high
    → high < s.time_ns
    → Rises low (xs ++ (s ∷ [])) s.time_ns
Rises-snoc low [] s high le lt = (omega arith, omega arith)
Rises-snoc low (x ∷ xs) s high (first, rest) lt = (first, Rises-snoc x.time_ns xs s high rest lt)

NotBefore-snoc :
    (now : ℕ) (xs : List Stream) (s : Stream)
    → NotBefore now xs
    → now ≤ s.time_ns
    → NotBefore now (xs ++ (s ∷ []))
NotBefore-snoc now [] s n le = (le, tt)
NotBefore-snoc now (x ∷ xs) s (first, rest) le = (first, NotBefore-snoc now xs s rest le)

abbrev queued : Progress → List Stream
queued p = streams p.batches ++ p.batch

streams-snoc : (xs : List Batch) (b : Batch) → streams (xs ++ (b ∷ [])) ≡ streams xs ++ b
streams-snoc [] b = append-nil b
streams-snoc (x ∷ xs) b = ap (λ r. x ++ r) (streams-snoc xs b) ∙ sym (append_assoc x (streams xs) b)

nil_of_empty : (b : Batch) → is_empty b ≡ true → b ≡ []
nil_of_empty [] h = refl
nil_of_empty (x ∷ b) h = cc

pub streams-all_batches : (p : Progress) → streams (all_batches p) ≡ queued p
streams-all_batches p = elim (Bool-cases (is_empty p.batch)) [
  | inl e ↦ rw e (
      sym (append-nil (streams p.batches))
      ∙ ap (λ b. streams p.batches ++ b) (sym (nil_of_empty p.batch e)))
  | inr e ↦ rw e (streams-snoc p.batches p.batch)
]

module _ (rules : Rules) (s : Core) (now_ns : ℕ) where
  -- What has been queued, against the counter and the clock.
  abbrev IsCounted : Progress → Type 0
  IsCounted p =
      (p.next.sent ≡ s.sent + length (queued p))
      × Rises s.last_ns (queued p) p.next.last_ns
      × NotBefore now_ns (queued p)

  queued-add_stream :
      (t : Stream) (p : Progress) → queued (add_stream rules t p) ≡ queued p ++ (t ∷ [])
  unfolding add_stream
  queued-add_stream t p =
      elim (Bool-cases (ltb 131072 (p.batch_size + (rules.stream_bytes t + 2)))) [
        | inl e ↦ rw e (ap (λ r. r ++ (t ∷ [])) (streams-snoc p.batches p.batch))
        | inr e ↦ rw e (sym (append_assoc (streams p.batches) p.batch (t ∷ [])))
      ]

  next-add_stream :
      (t : Stream) (p : Progress)
      → ((add_stream rules t p).next.sent ≡ p.next.sent + 1)
        × ((add_stream rules t p).next.last_ns ≡ p.next.last_ns)
  unfolding add_stream
  next-add_stream t p = ground arith

  add_stream-IsCounted :
      (t : Stream) (p : Progress)
      → t.time_ns ≡ max now_ns (p.next.last_ns + 1)
      → IsCounted p
      → IsCounted (add_stream rules t (record p { next = record p.next { last_ns = t.time_ns } }))
  add_stream-IsCounted t p stamp (sent, rises, fresh) =
      let q = record p { next = record p.next { last_ns = t.time_ns } } in
      let (more, last) = next-add_stream t q in
      let all_queued = queued-add_stream t q in
      (
        more
            ∙ subst (λ xs. p.next.sent + 1 ≡ s.sent + length xs) (sym all_queued)
                (omega (arith, sent, length-append (queued p) (t ∷ []))),
        subst (λ xs. Rises s.last_ns xs (add_stream rules t q).next.last_ns) (sym all_queued)
            (subst (λ k. Rises s.last_ns (queued p ++ (t ∷ [])) k) (sym last)
              (Rises-snoc s.last_ns (queued p) t p.next.last_ns rises (omega (arith, stamp)))),
        subst (λ xs. NotBefore now_ns xs) (sym all_queued)
            (NotBefore-snoc now_ns (queued p) t fresh (omega (arith, stamp))),
      )

  add_record-IsCounted :
      (filter_normal : Bool) (kind : String) (bootstrap : Bool) (raw : List ℕ) (p : Progress)
      → IsCounted p
      → IsCounted (add_record rules now_ns filter_normal kind bootstrap raw p)
  unfolding add_record count_normal
  add_record-IsCounted filter_normal kind bootstrap raw p counted =
      let level = if kind == "kernel" then rules.kernel_severity raw else "unknown" in
      elim (Option-cases (if filter_normal then rules.normal_pattern kind raw level else none)) [
        | inr (name, e) ↦ rw (add_record, e) counted
        | inl e ↦ rw (add_record, e) (add_stream-IsCounted _ p refl counted)
      ]

  add_records-IsCounted :
      (filter_normal : Bool) (kind : String) (bootstrap : Bool) (records : List Ended)
      (p : Progress)
      → IsCounted p
      → IsCounted (add_records rules now_ns filter_normal kind bootstrap records p)
  unfolding add_records
  add_records-IsCounted filter_normal kind bootstrap [] p counted = counted
  add_records-IsCounted filter_normal kind bootstrap ((raw, end) ∷ records) p counted =
      add_records-IsCounted filter_normal kind bootstrap records
        (add_record rules now_ns filter_normal kind bootstrap raw p)
        (add_record-IsCounted filter_normal kind bootstrap raw p counted)

  set_if_current-IsCounted :
      (kind : String) (w : Work) (end : ℕ) (p : Progress)
      → IsCounted p
      → IsCounted (set_if_current rules kind w end p)
  unfolding set_if_current
  set_if_current-IsCounted kind w end p counted = elim (Bool-cases (w.gen == "current")) [
    | inl e ↦ rw e counted
    | inr e ↦ rw e counted
  ]

  add_file-IsCounted :
      (filter_normal : Bool) (kind : String) (previous : Option Cursor) (w : Work) (p : Progress)
      → IsCounted p
      → IsCounted (add_file rules now_ns filter_normal kind previous w p)
  unfolding add_file
  add_file-IsCounted filter_normal kind previous w p counted =
      set_if_current-IsCounted kind w (last_end w.offset (work_records kind previous w)) _ (
        add_records-IsCounted filter_normal kind (is_none previous)
          (bootstrapped previous (work_records kind previous w)) p counted)

  add_files-IsCounted :
      (filter_normal : Bool) (kind : String) (previous : Option Cursor) (work : List Work)
      (p : Progress)
      → IsCounted p
      → IsCounted (add_files rules now_ns filter_normal kind previous work p)
  unfolding add_files
  add_files-IsCounted filter_normal kind previous [] p counted = counted
  add_files-IsCounted filter_normal kind previous (w ∷ work) p counted =
      add_files-IsCounted filter_normal kind previous work
        (add_file rules now_ns filter_normal kind previous w p)
        (add_file-IsCounted filter_normal kind previous w p counted)

  plan_kind-IsCounted :
      (snapshot : Records) (kind : String) (gens : List String) (previous : Option Cursor)
      (p : Progress) {planned : List Work × Progress}
      → plan_kind rules snapshot kind gens previous p ≡ ok planned
      → IsCounted p
      → IsCounted planned.1
  unfolding plan_kind
  plan_kind-IsCounted snapshot kind gens none p {planned} h counted =
      elim (Option-cases (current_only (file_of snapshot (kind, "current")))) [
        | inl e ↦ absurd (err-ok (rw (plan_kind, e) at h))
        | inr (work, e) ↦
            let this : (work, p) ≡ planned = ok-injective (rw (plan_kind, e) at h) in
            subst (λ q. IsCounted q.1) this counted
      ]
  plan_kind-IsCounted snapshot kind gens (some c) p {planned} h counted =
      elim (Option-cases (work_found rules c (chronological snapshot kind gens))) [
        | inr (work, e) ↦
            let this : (work, p) ≡ planned = ok-injective (rw (plan_kind, e) at h) in
            subst (λ q. IsCounted q.1) this counted
        | inl e ↦ elim (Option-cases (current_only (file_of snapshot (kind, "current")))) [
          | inl f ↦ absurd (err-ok (rw (plan_kind, e, f) at h))
          | inr (work, f) ↦
              let this : (work, with_gap p) ≡ planned = ok-injective (rw (plan_kind, e, f) at h) in
              subst (λ q. IsCounted q.1) this counted
        ]
      ]

  pub add_kinds-IsCounted :
      (filter_normal : Bool) (snapshot : Records) (kinds : List (String × List String))
      (p : Progress) {out : Progress}
      → add_kinds rules now_ns filter_normal s snapshot kinds p ≡ ok out
      → IsCounted p
      → IsCounted out
  unfolding add_kinds
  add_kinds-IsCounted filter_normal snapshot [] p h counted =
      subst IsCounted (ok-injective h) counted
  add_kinds-IsCounted filter_normal snapshot ((kind, gens) ∷ more) p h counted =
      let (planned, e, rest) =
        >>=-eq-ok (plan_kind rules snapshot kind gens (find kind s.cursors) p) _ h in
      add_kinds-IsCounted filter_normal snapshot more
        (add_files rules now_ns filter_normal kind (find kind s.cursors) planned.0 planned.1) rest
        (add_files-IsCounted filter_normal kind (find kind s.cursors) planned.0 planned.1
          (plan_kind-IsCounted snapshot kind gens (find kind s.cursors) p e counted))
