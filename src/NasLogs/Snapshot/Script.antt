-- ===== src/NasLogs/Snapshot/Script.antt =====
-- The script nas_file_logs_snapshot.sh, which prints the snapshot on the NAS, from its header on.
--
-- What the script meets at each file is an argument, `Probe`. Its own `printf` does not fail.
use homecluster_infra.Base.{
  ℕ, ◌+◌, ◌*◌, ◌-◌, Bool, false, ◌||◌, Option, none, some, List, [], ◌∷◌, ◌++◌, ◌==◌, nat_eq, leb,
  ltb, is_empty, all, number_from, encode, take, if◌then◌else◌, Result, ok, err, ◌>>=◌, ◌>>◌,
  require,
}
use homecluster_infra.NasLogs.Snapshot.{Slot, max_file, is_number, header, trailer}

-- `MAX_TOTAL_BYTES`
abbrev pub max_total : ℕ
max_total = 25165824

-- A file that is not there; one that is not regular, or cannot be read, opened or examined; and one
-- for which `stat` answers this text and `head` reads these bytes at most, and then succeeds or not.
pub data Probe : Type 0 where
  absent : Probe
  unusable : Probe
  seen : (stat_out content : List ℕ) (head_succeeds : Bool) → Probe

abbrev is_blank : ℕ → Bool
is_blank c = c == 32 || c == 9 || c == 10

extend_word : ℕ → List (List ℕ) → List (List ℕ)
extend_word c [] = (c ∷ []) ∷ []
extend_word c (word ∷ words) = (c ∷ word) ∷ words

split_blanks : List ℕ → List (List ℕ)
unfolding extend_word
split_blanks [] = [] ∷ []
split_blanks (c ∷ s) =
    let words = split_blanks s in if is_blank c then [] ∷ words else extend_word c words

drop_empty : List (List ℕ) → List (List ℕ)
drop_empty [] = []
drop_empty (word ∷ words) =
    let more = drop_empty words in if is_empty word then more else word ∷ more

-- `set -- $stat_out`
unfoldable pub shell_words : List ℕ → List (List ℕ)
unfolding split_blanks drop_empty extend_word
shell_words s = drop_empty (split_blanks s)

-- The four words of `stat`, as they are printed.
pub record Stat : Type 0 where
  pub device : List ℕ
  pub inode : List ℕ
  pub size : List ℕ
  pub mtime : List ℕ

-- `[ "$#" = 4 ]`
abbrev pub stat_of : List (List ℕ) → Option Stat
stat_of (device ∷ inode ∷ size ∷ mtime ∷ []) =
    some (record { device = device; inode = inode; size = size; mtime = mtime })
stat_of words = none

abbrev pub has_leading_zero : List ℕ → Bool
has_leading_zero [] = false
has_leading_zero (c ∷ []) = false
has_leading_zero (c ∷ d ∷ text) = c == b'0'

octal_from : ℕ → List ℕ → ℕ
octal_from n [] = n
octal_from n (c ∷ text) = octal_from (8 * n + (c - b'0')) text

-- The value of a word of digits in `$((...))`, which is octal with a leading zero.
unfoldable pub shell_number : List ℕ → Result ℕ
unfolding number_from octal_from
shell_number text =
    if has_leading_zero text
    then require (all (λ c. ltb c b'8') text) "arithmetic syntax error" >> ok (octal_from 0 text)
    else ok (number_from 0 text)

-- The four tests of the words, those of the size, and that of the total; the new total.
unfoldable pub check_stat : Stat → ℕ → Result ℕ
unfolding is_number number_from shell_number ◌>>=◌
check_stat st total =
    require (is_number st.device) "65"
    >> (require (is_number st.inode) "65"
        >> (require (is_number st.size) "65"
            >> (require (is_number st.mtime) "65"
                >> (require (leb (number_from 0 st.size) max_file) "65"
                    >> (shell_number st.size >>= λ n.
                        require (leb (total + n) max_total) "65" >> ok (total + n))))))

-- `printf '... %s %s ...'`: fields with a space between any two.
unfoldable pub join_spaces : List (List ℕ) → List ℕ
join_spaces [] = []
join_spaces (word ∷ []) = word
join_spaces (word ∷ next ∷ words) = word ++ (32 ∷ join_spaces (next ∷ words))

abbrev pub missing_fields : Slot → List (List ℕ)
missing_fields (kind, gen) = (b'M' ∷ []) ∷ encode kind ∷ encode gen ∷ []

abbrev pub file_fields : Slot → Stat → List (List ℕ)
file_fields (kind, gen) st =
    (b'F' ∷ []) ∷ encode kind ∷ encode gen ∷ st.device ∷ st.inode ∷ st.size ∷ st.mtime ∷ []

-- From the first `printf` of a file on: what is printed, and the new total or the exit.
unfoldable pub emit_checked : Slot → Stat → List ℕ → Bool → Result ℕ → List ℕ × Result ℕ
unfolding join_spaces number_from take ◌>>=◌
emit_checked slot st content head_succeeds (err e) = ([], err e)
emit_checked slot st content head_succeeds (ok total) = (
  join_spaces (file_fields slot st) ++ (10 ∷ take (number_from 0 st.size) content),
  require head_succeeds "1" >> ok total,
)

-- From `set -- $stat_out` on.
unfoldable pub emit_stat : Slot → List ℕ → Bool → ℕ → Option Stat → List ℕ × Result ℕ
unfolding emit_checked check_stat
emit_stat slot content head_succeeds total none = ([], err "65")
emit_stat slot content head_succeeds total (some st) =
    emit_checked slot st content head_succeeds (check_stat st total)

unfoldable pub emit_file : Slot → Probe → ℕ → List ℕ × Result ℕ
unfolding join_spaces emit_stat shell_words
emit_file slot Probe.absent total = (join_spaces (missing_fields slot) ++ (10 ∷ []), ok total)
emit_file slot Probe.unusable total = ([], err "65")
emit_file slot (Probe.seen stat_out content head_succeeds) total =
    emit_stat slot content head_succeeds total (stat_of (shell_words stat_out))

-- The calls of `emit_file`, up to an exit.
unfoldable pub emit_files : List (Slot × Probe) → ℕ → List ℕ × Result ℕ
unfolding emit_file
emit_files [] total = ([], ok total)
emit_files ((slot, probe) ∷ probes) total =
    let printed = emit_file slot probe total in
    elim printed.1 [
      | err e ↦ (printed.0, err e)
      | ok next ↦ let more = emit_files probes next in (printed.0 ++ more.0, more.1)
    ]

-- The output of the script, and whether it ends with `exit 0`.
unfoldable pub print_snapshot : List (Slot × Probe) → List ℕ × Result (Unit {0})
unfolding emit_files encode
print_snapshot probes =
    let printed = emit_files probes 0 in
    elim printed.1 [
      | err e ↦ (header ++ printed.0, err e)
      | ok total ↦ (header ++ (printed.0 ++ trailer), ok tt)
    ]
