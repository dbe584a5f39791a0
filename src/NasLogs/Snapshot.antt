-- ===== src/NasLogs/Snapshot.antt =====
-- The snapshot of the log files: `parse_snapshot` of nas_file_logs_core.py. The script that prints it
-- on the NAS is in Snapshot/Script.
pub mod Script
pub mod Laws
pub mod Checked
pub mod Emitted
pub mod RoundTrip
use homecluster_infra.Base.{
  ℕ, zero, suc, ◌+◌, String, Bool, true, false, ◌&&◌, ◌||◌, not, Option, none, some, List, [], ◌∷◌,
  ◌++◌, ◌==◌, nat_eq, string_eq, bytes_eq, leb, ltb, length, all, is_digit, number_from, digits,
  encode, take, drop, if◌then◌else◌, Result, ok, err, ◌>>=◌, ◌>>◌, require,
}

abbrev pub max_file : ℕ
max_file = 2097152

abbrev pub max_snapshot : ℕ
max_snapshot = 25182208

-- `SLOTS`: a kind of log with each of its generations, in the order of `SOURCES`.
abbrev pub Slot : Type 0
Slot = String × String

unfoldable pub slots : List Slot
slots =
    ("kernel", "current")
    ∷ ("kernel", "1")
    ∷ ("kernel", "2")
    ∷ ("samba", "current")
    ∷ ("samba", "1")
    ∷ ("samba", "2")
    ∷ ("smbd", "current")
    ∷ ("smbd", "old")
    ∷ ("nmbd", "current")
    ∷ ("nmbd", "old")
    ∷ ("winbindd", "current")
    ∷ ("winbindd", "old")
    ∷ ("storage", "current")
    ∷ ("storage", "old")
    ∷ ("hal", "current")
    ∷ ("hal", "old")
    ∷ ("hal_daemon", "current")
    ∷ ("hal_daemon", "old")
    ∷ ("sdmd", "current")
    ∷ ("sdmd", "old")
    ∷ ("storage_util", "current")
    ∷ ("iscsi", "current")
    ∷ []

pub record FileRecord : Type 0 where
  pub dev : ℕ
  pub inode : ℕ
  pub mtime : ℕ
  pub content : List ℕ

-- `data.find(b'\n', pos, pos + 256)`: the line before the first line feed among the next `n` bytes,
-- and what comes after it.
unfoldable pub find_line : ℕ → List ℕ → Option (List ℕ × List ℕ)
find_line zero s = none
find_line (suc n) [] = none
find_line (suc n) (c ∷ s) =
    let found = find_line n s in
    if c == 10
    then some ([], s)
    else elim found [ none ↦ none | some (line, rest) ↦ some (c ∷ line, rest) ]

first_of : List (List ℕ) → ℕ → List (List ℕ)
first_of [] c = (c ∷ []) ∷ []
first_of (word ∷ words) c = (c ∷ word) ∷ words

-- `line.split(b' ')`
unfoldable pub split_spaces : List ℕ → List (List ℕ)
unfolding first_of
split_spaces [] = [] ∷ []
split_spaces (c ∷ s) =
    let words = split_spaces s in if c == 32 then [] ∷ words else first_of words c

-- `re.fullmatch(rb'[0-9]{1,18}', x)`
unfoldable pub is_number : List ℕ → Bool
unfolding is_digit
is_number text = all is_digit text && leb 1 (length text) && leb (length text) 18

-- The test of the seven fields, and the bytes of the file after them.
unfoldable pub read_file : Slot → List (List ℕ) → List ℕ → Result (Option FileRecord × List ℕ)
unfolding is_number number_from take drop
read_file (kind, gen) (tag ∷ k ∷ g ∷ dev ∷ inode ∷ size ∷ mtime ∷ []) rest =
    if tag == b'F' ∷ []
      && k == encode kind
      && g == encode gen
      && is_number dev
      && is_number inode
      && is_number size
      && is_number mtime
    then (if ltb max_file (number_from 0 size) || ltb (length rest) (number_from 0 size)
        then err "invalid file length"
        else ok (
          some (record {
            dev = number_from 0 dev;
            inode = number_from 0 inode;
            mtime = number_from 0 mtime;
            content = take (number_from 0 size) rest;
          }),
          drop (number_from 0 size) rest,
        ))
    else err "invalid file header"
read_file slot fields rest = err "invalid file header"

-- `fields == [b'M', kind.encode(), gen.encode()]`
unfoldable pub is_missing : Slot → List (List ℕ) → Bool
is_missing (kind, gen) (tag ∷ k ∷ g ∷ []) = tag == b'M' ∷ [] && k == encode kind && g == encode gen
is_missing slot fields = false

-- One round of the loop over the slots.
unfoldable pub read_slot : Slot → List ℕ → Result (Option FileRecord × List ℕ)
unfolding find_line split_spaces is_missing read_file
read_slot slot s = elim (find_line 256 s) [
  | none ↦ err "truncated header"
  | some (line, rest) ↦
      let fields = split_spaces line in
      if is_missing slot fields
      then (if slot.1 == "current" then err "current file missing" else ok (none, rest))
      else read_file slot fields rest
]

abbrev pub Records : Type 0
Records = List (Slot × Option FileRecord)

unfoldable pub read_slots : List Slot → List ℕ → Result (Records × List ℕ)
unfolding ◌>>=◌ read_slot
read_slots [] s = ok ([], s)
read_slots (slot ∷ more) s = read_slot slot s >>= λ found.
    read_slots more found.1 >>= λ others. ok ((slot, found.0) ∷ others.0, others.1)

-- `data.startswith(prefix)`, and what is behind it.
unfoldable pub after_prefix : List ℕ → List ℕ → Option (List ℕ)
after_prefix [] s = some s
after_prefix (c ∷ prefix) [] = none
after_prefix (c ∷ prefix) (d ∷ s) = if c == d then after_prefix prefix s else none

abbrev pub header : List ℕ
header = encode "NASLOG1\n"

abbrev pub trailer : List ℕ
trailer = encode "END\n"

unfoldable pub parse_snapshot : List ℕ → Result Records
unfolding ◌>>=◌ read_slots after_prefix slots encode
parse_snapshot bytes =
    if ltb max_snapshot (length bytes)
    then err "invalid snapshot"
    else elim (after_prefix header bytes) [
      | none ↦ err "invalid snapshot"
      | some s ↦ read_slots slots s >>= λ (read : Records × List ℕ).
          (if read.1 == trailer then ok read.0 else err "incomplete or trailing snapshot")
    ]
