-- ===== src/NasLogs/Snapshot/Emitted.antt =====
-- What the parser reads of the bytes that the script prints for one file.
use homecluster_infra.Base.{
  ℕ, ◌≤◌, ◌≡◌, refl, sym, subst, ◌∙◌, false, Option, none, some, List, [], ◌∷◌, ◌++◌, ◌==◌, nat_eq,
  string_eq, bytes_eq, length, length-append, encode, map, ok, err, arith, ◌+◌, Bool, number_from,
  take, Result, require-eq-ok, ok-injective, err-ok,
}
use mathlib.Core.List.{append_assoc}
use homecluster_infra.NasLogs.Snapshot.{Slot, FileRecord, Records, is_missing, read_slot}
use homecluster_infra.NasLogs.Snapshot.Script.{
  max_total, Probe, shell_words, Stat, stat_of, has_leading_zero, check_stat, join_spaces,
  missing_fields, file_fields, emit_checked, emit_stat, emit_file,
}
use homecluster_infra.NasLogs.Snapshot.Laws.{length-join_spaces, self_eq}
use homecluster_infra.NasLogs.Snapshot.Checked.{
  IsNamed, check_stat-ok, missing-words, file-words, length-take, read_file-file_fields,
  read_slot-line, fields-short,
}

-- What the parser is to read of what the script met.
abbrev pub file_of_stat : List ℕ → Option Stat → Option FileRecord
file_of_stat content none = none
file_of_stat content (some st) = some (record {
  dev = number_from 0 st.device;
  inode = number_from 0 st.inode;
  mtime = number_from 0 st.mtime;
  content = take (number_from 0 st.size) content;
})

abbrev pub file_of_probe : Probe → Option FileRecord
file_of_probe Probe.absent = none
file_of_probe Probe.unusable = none
file_of_probe (Probe.seen stat_out content head_succeeds) =
    file_of_stat content (stat_of (shell_words stat_out))

abbrev pub records_of : List (Slot × Probe) → Records
records_of probes = map (λ (p : Slot × Probe). (p.0, file_of_probe p.1)) probes

-- `stat` prints a size without a leading zero, and `head` finds that many bytes.
abbrev pub HasSize : List ℕ → Option Stat → Type 0
HasSize content none = Unit
HasSize content (some st) =
    (has_leading_zero st.size ≡ false) × (number_from 0 st.size ≤ length content)

-- No current file is missing, and no file is shorter than its size.
abbrev pub IsPresent : Slot → Probe → Type 0
IsPresent slot Probe.absent = (slot.1 == "current") ≡ false
IsPresent slot Probe.unusable = Unit
IsPresent slot (Probe.seen stat_out content head_succeeds) =
    HasSize content (stat_of (shell_words stat_out))

abbrev pub ArePresent : List (Slot × Probe) → Type 0
ArePresent [] = Unit
ArePresent ((slot, probe) ∷ probes) = IsPresent slot probe × ArePresent probes

-- What the parser reads of the bytes of a step of the script that does not exit, and how many these
-- are: at most 256 and what they add to the total.
unfoldable pub IsRead : Slot → Option FileRecord → ℕ → List ℕ × Result ℕ → Type 0
IsRead slot found total printed =
    (next : ℕ)
    → printed.1 ≡ ok next
    → ((rest : List ℕ) → read_slot slot (printed.0 ++ rest) ≡ ok (found, rest))
      × (length printed.0 + total ≤ next + 256)
      × (total ≤ max_total → next ≤ max_total)

emit_checked-IsRead :
    (slot : Slot) (st : Stat) (content : List ℕ) (head_succeeds : Bool) (total : ℕ)
    (checked : Result ℕ)
    → IsNamed slot
    → HasSize content (some st)
    → check_stat st total ≡ checked
    → IsRead slot
        (file_of_stat content (some st))
        total
        (emit_checked slot st content head_succeeds checked)
unfolding emit_checked IsRead is_missing
emit_checked-IsRead slot st content head_succeeds total (err e) named sized h next done =
    absurd (err-ok done)
emit_checked-IsRead (kind, gen) st content head_succeeds total (ok made) named (plain, there) h next
      done =
    let (_, over) = require-eq-ok head_succeeds "1" _ done in
    let (valid, sum, few) = check_stat-ok st total plain h in
    let same : made ≡ next = ok-injective over in
    let body = take (number_from 0 st.size) content in
    let fields = encode kind ∷ encode gen ∷ st.device ∷ st.inode ∷ st.size ∷ st.mtime ∷ [] in
    let long = length-take (number_from 0 st.size) content there in
    let line = join_spaces (file_fields (kind, gen) st) in
    let short = fields-short (kind, gen) st named valid in
    (
      (λ rest. rw (append_assoc line (10 ∷ body) rest) (
          read_slot-line (kind, gen) fields (b'F' ∷ []) (body ++ rest)
            (file-words (kind, gen) st named valid) (omega (arith, short))
          ∙ read_file-file_fields (kind, gen) st body rest valid (sym long))),
      rw (length-append line (10 ∷ body))
          (omega (arith, long, sum, same, short, length-join_spaces (file_fields (kind, gen) st))),
      λ small. subst (λ k. k ≤ max_total) same few,
    )

emit_stat-IsRead :
    (slot : Slot) (content : List ℕ) (head_succeeds : Bool) (total : ℕ) (st : Option Stat)
    → IsNamed slot
    → HasSize content st
    → IsRead slot (file_of_stat content st) total (emit_stat slot content head_succeeds total st)
unfolding emit_stat
emit_stat-IsRead slot content head_succeeds total none named sized =
    unfold IsRead in λ next done. absurd (err-ok done)
emit_stat-IsRead slot content head_succeeds total (some st) named sized =
    emit_checked-IsRead slot st content head_succeeds total (check_stat st total) named sized refl

pub emit_file-IsRead :
    (slot : Slot) (probe : Probe) (total : ℕ)
    → IsNamed slot
    → IsPresent slot probe
    → IsRead slot (file_of_probe probe) total (emit_file slot probe total)
unfolding emit_file is_missing
emit_file-IsRead (kind, gen) Probe.absent total named present =
    let line = join_spaces (missing_fields (kind, gen)) in
    unfold IsRead in
    λ next done.
      let same : total ≡ next = ok-injective done in
      (
        (λ rest. rw (append_assoc line (10 ∷ []) rest) (
            read_slot-line (kind, gen) (encode kind ∷ encode gen ∷ []) (b'M' ∷ []) rest
              (missing-words (kind, gen) named) (omega (arith, named))
            ∙ rw (self_eq (encode kind), self_eq (encode gen), present) refl)),
        rw (length-append line (10 ∷ []))
            (omega (arith, named, same, length-join_spaces (missing_fields (kind, gen)))),
        λ small. subst (λ k. k ≤ max_total) same small,
      )
emit_file-IsRead slot Probe.unusable total named present =
    unfold IsRead in λ next done. absurd (err-ok done)
emit_file-IsRead slot (Probe.seen stat_out content head_succeeds) total named present =
    emit_stat-IsRead slot content head_succeeds total (stat_of (shell_words stat_out)) named present
