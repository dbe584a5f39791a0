-- ===== src/NasLogs/Snapshot/Checked.antt =====
-- The line of a file that passes the tests of the script, and how it is read.
use homecluster_infra.Base.{
  ℕ, ◌≤◌, ◌<◌, ◌≡◌, refl, subst, ◌∙◌, true, false, none, some, List, [], ◌∷◌, ◌++◌, ◌==◌, nat_eq,
  string_eq, bytes_eq, ltb, length, length-append, All, encode, take-append, drop-append,
  if◌then◌else◌, ok, err, arith, zero, suc, ◌+◌, ap, leb, number_from, take, require-eq-ok,
  >>=-eq-ok, ok-injective,
}
use homecluster_infra.NasLogs.Snapshot.{
  Slot, slots, max_file, find_line, is_number, read_file, is_missing, read_slot,
}
use homecluster_infra.NasLogs.Snapshot.Script.{
  max_total, Stat, has_leading_zero, shell_number, check_stat, join_spaces, missing_fields,
  file_fields,
}
use homecluster_infra.NasLogs.Snapshot.Laws.{
  is_plain, AreWords, find_line-append, split_spaces-join_spaces, no_feed-join_spaces, total_length,
  length-join_spaces, digit_plain, self_eq,
}

-- The name of a slot is two words of at most 16 bytes.
abbrev pub IsNamed : Slot → Type 0
IsNamed (kind, gen) =
    (is_plain (encode kind) ≡ true)
    × (length (encode kind) ≤ 16)
    × (is_plain (encode gen) ≡ true)
    × (length (encode gen) ≤ 16)

pub slots-AreNamed : All IsNamed slots
unfolding slots encode
slots-AreNamed = ground arith

le_of_leb : (n m : ℕ) → leb n m ≡ true → n ≤ m
le_of_leb n m h = ground (arith, h)

number-is_plain : (text : List ℕ) → is_number text ≡ true → is_plain text ≡ true
unfolding is_number
number-is_plain text h = digit_plain text (ground (arith, h))

number-short : (text : List ℕ) → is_number text ≡ true → length text ≤ 18
unfolding is_number
number-short text h = ground (arith, h)

-- What the tests of the script have established.
unfoldable pub IsChecked : Stat → Type 0
IsChecked st =
    (is_number st.device ≡ true)
    × (is_number st.inode ≡ true)
    × (is_number st.size ≡ true)
    × (is_number st.mtime ≡ true)
    × (number_from 0 st.size ≤ max_file)

pub check_stat-ok :
    (st : Stat) (total : ℕ) {next : ℕ}
    → has_leading_zero st.size ≡ false
    → check_stat st total ≡ ok next
    → IsChecked st × (total + number_from 0 st.size ≡ next) × (next ≤ max_total)
unfolding check_stat shell_number IsChecked
check_stat-ok st total plain h =
    let (d, h1) = require-eq-ok (is_number st.device) "65" _ h in
    let (i, h2) = require-eq-ok (is_number st.inode) "65" _ h1 in
    let (s, h3) = require-eq-ok (is_number st.size) "65" _ h2 in
    let (m, h4) = require-eq-ok (is_number st.mtime) "65" _ h3 in
    let (small, h5) = require-eq-ok (leb (number_from 0 st.size) max_file) "65" _ h4 in
    let (n, value, h6) = >>=-eq-ok (shell_number st.size) _ h5 in
    let (few, h7) = require-eq-ok (leb (total + n) max_total) "65" _ h6 in
    let same : number_from 0 st.size ≡ n = ok-injective (rw plain at value) in
    let next_eq = ok-injective h7 in
    (
      (d, i, s, m, le_of_leb (number_from 0 st.size) max_file small),
      ap (λ k. total + k) same ∙ next_eq,
      subst (λ k. k ≤ max_total) next_eq (le_of_leb (total + n) max_total few),
    )

pub missing-words : (slot : Slot) → IsNamed slot → AreWords (missing_fields slot)
missing-words slot (k, _, g, _) = (refl, (k, (g, tt)))

pub file-words :
    (slot : Slot) (st : Stat) → IsNamed slot → IsChecked st → AreWords (file_fields slot st)
unfolding IsChecked
file-words slot st (k, _, g, _) (d, i, s, m, _) = (
  refl,
  (
    k,
    (
      g,
      (
        number-is_plain st.device d,
        (number-is_plain st.inode i, (number-is_plain st.size s, (number-is_plain st.mtime m, tt))),
      ),
    ),
  ),
)

pub length-take : (n : ℕ) (xs : List ℕ) → n ≤ length xs → length (take n xs) ≡ n
unfolding take
length-take zero xs h = refl
length-take (suc n) [] h = absurd (omega (arith, h))
length-take (suc n) (x ∷ xs) h = ap suc (length-take n xs (omega (arith, h)))

pub read_file-file_fields :
    (slot : Slot) (st : Stat) (content rest : List ℕ)
    → IsChecked st
    → number_from 0 st.size ≡ length content
    → read_file slot (file_fields slot st) (content ++ rest)
      ≡ ok (
        some (record {
          dev = number_from 0 st.device;
          inode = number_from 0 st.inode;
          mtime = number_from 0 st.mtime;
          content = content;
        }),
        rest,
      )
unfolding read_file IsChecked
read_file-file_fields (kind, gen) st content rest (d, i, s, m, small) size =
    let fits : ltb max_file (length content) ≡ false = ground (arith, size) in
    let there : ltb (length (content ++ rest)) (length content) ≡ false =
      rw (length-append content rest) (ground arith) in
    rw
      (
        self_eq (encode kind),
        self_eq (encode gen),
        d,
        i,
        s,
        m,
        size,
        fits,
        there,
        take-append content rest,
        drop-append content rest,
      )
      refl

find_line-join :
    (words : List (List ℕ)) (rest : List ℕ)
    → AreWords words
    → total_length words < 256
    → find_line 256 (join_spaces words ++ (10 ∷ rest)) ≡ some (join_spaces words, rest)
find_line-join words rest good short =
    find_line-append 256 (join_spaces words) rest (no_feed-join_spaces words good)
      (omega (arith, length-join_spaces words))

pub read_slot-line :
    (slot : Slot) (words : List (List ℕ)) (word : List ℕ) (rest : List ℕ)
    → AreWords (word ∷ words)
    → total_length (word ∷ words) < 256
    → read_slot slot (join_spaces (word ∷ words) ++ (10 ∷ rest)) ≡ (
        if is_missing slot (word ∷ words)
        then (if slot.1 == "current" then err "current file missing" else ok (none, rest))
        else read_file slot (word ∷ words) rest)
unfolding read_slot
read_slot-line slot words word rest good short =
    rw
      (
        read_slot,
        find_line-join (word ∷ words) rest good short,
        split_spaces-join_spaces word words good,
      )
      refl

pub fields-short :
    (slot : Slot) (st : Stat)
    → IsNamed slot
    → IsChecked st
    → total_length (file_fields slot st) < 120
unfolding IsChecked
fields-short slot st named (d, i, s, m, _) = omega (
  arith,
  named,
  number-short st.device d,
  number-short st.inode i,
  number-short st.size s,
  number-short st.mtime m,
)
