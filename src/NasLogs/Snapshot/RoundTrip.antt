-- ===== src/NasLogs/Snapshot/RoundTrip.antt =====
-- What the script prints is read back.
use homecluster_infra.Base.{
  String, ℕ, ◌≤◌, ◌≡◌, refl, sym, subst, ◌∙◌, false, some, List, [], ◌∷◌, ◌++◌, nat_eq, string_eq,
  bytes_eq, ltb, length, length-append, All, encode, map, ok, err, ◌>>=◌, arith, ltb_of_le, suc,
  ◌+◌, ◌*◌, ap, Result, ok-injective, err-ok, Result-cases, inl, inr,
}
use mathlib.Core.List.{append_assoc}
use homecluster_infra.NasLogs.Snapshot.{
  Slot, slots, Records, max_snapshot, read_slots, after_prefix, header, trailer, parse_snapshot,
}
use homecluster_infra.NasLogs.Snapshot.Script.{
  max_total, Probe, emit_file, emit_files, print_snapshot,
}
use homecluster_infra.NasLogs.Snapshot.Checked.{IsNamed, slots-AreNamed}
use homecluster_infra.NasLogs.Snapshot.Emitted.{records_of, ArePresent, IsRead, emit_file-IsRead}

length-records : (probes : List (Slot × Probe)) → length (map (λ p. p.0) probes) ≡ length probes
length-records [] = refl
length-records (p ∷ probes) = ap suc (length-records probes)

emit_files-exit :
    (slot : Slot) (probe : Probe) (probes : List (Slot × Probe)) (total : ℕ) {e : String}
    → (emit_file slot probe total).1 ≡ err e
    → emit_files ((slot, probe) ∷ probes) total ≡ ((emit_file slot probe total).0, err e)
unfolding emit_files
emit_files-exit slot probe probes total h = rw (emit_files, h) refl

emit_files-next :
    (slot : Slot) (probe : Probe) (probes : List (Slot × Probe)) (total : ℕ) {next : ℕ}
    → (emit_file slot probe total).1 ≡ ok next
    → emit_files ((slot, probe) ∷ probes) total
      ≡ ((emit_file slot probe total).0 ++ (emit_files probes next).0, (emit_files probes next).1)
unfolding emit_files
emit_files-next slot probe probes total h = rw (emit_files, h) refl

emit_files-read :
    (probes : List (Slot × Probe)) (total : ℕ) {last : ℕ}
    → All IsNamed (map (λ p. p.0) probes)
    → ArePresent probes
    → (emit_files probes total).1 ≡ ok last
    → ((rest : List ℕ)
        → read_slots (map (λ p. p.0) probes) ((emit_files probes total).0 ++ rest)
          ≡ ok (records_of probes, rest))
      × (length (emit_files probes total).0 + total ≤ last + 256 * length probes)
      × (total ≤ max_total → last ≤ max_total)
unfolding read_slots IsRead ◌>>=◌
emit_files-read [] total named present done =
    unfold emit_files in
    let same = ok-injective done in
    ((λ rest. refl), omega (arith, same), λ small. subst (λ k. k ≤ max_total) same small)
emit_files-read ((slot, probe) ∷ probes) total (n, named) (p, present) done =
    let this = emit_file-IsRead slot probe total n p in
    elim (Result-cases (emit_file slot probe total).1) [
      | inr (e, h) ↦ absurd (
          err-ok (
            sym (ap (λ (r : List ℕ × Result ℕ). r.1) (emit_files-exit slot probe probes total h))
            ∙ done))
      | inl (next, h) ↦
          let (read, long, small) = this next h in
          let again = emit_files-next slot probe probes total h in
          let (others, more, few) =
            emit_files-read probes next named present
              (sym (ap (λ (r : List ℕ × Result ℕ). r.1) again) ∙ done) in
          let printed = (emit_file slot probe total).0 in
          let rest_printed = (emit_files probes next).0 in
          (
            (λ rest.
                rw
                  (
                    again,
                    append_assoc printed rest_printed rest,
                    read (rest_printed ++ rest),
                    others rest,
                  )
                  refl),
            rw (again, length-append printed rest_printed) (omega (arith, long, more)),
            λ start. few (small start),
          )
    ]

parse_snapshot-ok :
    (bytes s : List ℕ) (records : Records)
    → length bytes ≤ max_snapshot
    → after_prefix header bytes ≡ some s
    → read_slots slots s ≡ ok (records, trailer)
    → parse_snapshot bytes ≡ ok records
unfolding parse_snapshot ◌>>=◌
parse_snapshot-ok bytes s records small begins read =
    let fits : ltb max_snapshot (length bytes) ≡ false = ltb_of_le small in
    rw (parse_snapshot, fits, begins, read) refl

-- What the script ends with, where it does not exit before.
print_snapshot-printed :
    (probes : List (Slot × Probe))
    → (print_snapshot probes).1 ≡ ok tt
    → (last : ℕ) × ((emit_files probes 0).1 ≡ ok last)
      × ((print_snapshot probes).0 ≡ header ++ ((emit_files probes 0).0 ++ trailer))
unfolding print_snapshot
print_snapshot-printed probes done = elim (Result-cases (emit_files probes 0).1) [
  | inr (e, h) ↦ absurd (err-ok (rw (print_snapshot, h) at done))
  | inl (last, h) ↦ (last, h, rw (print_snapshot, h) refl)
]

-- If the script on the NAS, given all the slots in their order, ends with exit 0, no current file
-- is missing, and each size that stat prints has no leading zero and is at most what head finds,
-- then parse_snapshot accepts what the script printed and reads the device, inode and time that
-- stat printed of each file, and as many bytes of it as its size.
pub parse_snapshot-print_snapshot :
    (probes : List (Slot × Probe))
    → map (λ p. p.0) probes ≡ slots
    → ArePresent probes
    → (print_snapshot probes).1 ≡ ok tt
    → parse_snapshot (print_snapshot probes).0 ≡ ok (records_of probes)
parse_snapshot-print_snapshot probes all_slots present done =
    let named : All IsNamed (map (λ p. p.0) probes) =
      subst (All IsNamed) (sym all_slots) slots-AreNamed in
    let (last, over, output) = print_snapshot-printed probes done in
    let (read, long, few) = emit_files-read probes 0 named present over in
    let printed = (emit_files probes 0).0 in
    let count : length probes ≡ 22 =
      sym (length-records probes) ∙ ap length all_slots ∙ (unfold slots in refl) in
    let small : length (header ++ (printed ++ trailer)) ≤ max_snapshot =
      rw (length-append header (printed ++ trailer), length-append printed trailer)
        (unfold encode in omega (arith, long, few (omega arith), count)) in
    ap parse_snapshot output
    ∙ parse_snapshot-ok (header ++ (printed ++ trailer)) (printed ++ trailer) (records_of probes)
        small (unfold after_prefix encode in refl)
        (subst
          (λ some_slots.
            read_slots some_slots (printed ++ trailer) ≡ ok (records_of probes, trailer))
          all_slots (read trailer))
